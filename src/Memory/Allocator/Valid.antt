-- ===== src/Memory/Allocator/Valid.antt =====
-- The states of the caching allocator of Library/Memory/gpu/cuda_caching_allocator.cpp between its operations.
pub mod Freeing
pub mod Usages
pub mod Draining
pub mod Queues
pub mod Trimming
pub mod Recording
pub mod Deallocation
pub mod Orphans
use xsigma.Common.{
  ℕ, zero, suc, ◌+◌, ◌-◌, ◌^◌, ◌≤◌, ◌<◌, ◌≡◌, ◌≢◌, ◌⊎◌, inl, inr, refl, sym, ap, ◌∙◌, subst, Bool,
  true, false, not, ◌&&◌, Option, none, some, some_inj, List, [], ◌∷◌, ◌++◌, ◌==◌, ==_iff, arith,
  if◌then◌else◌, Bool-cases, Option-cases, ℕ_discrete, count, to_nat,
}
use xsigma.Memory.Allocator.{
  CacheBlock, Heap, write, Impl, LiveEntry, pool_of, with_pool, find_live, erase_live, emplace_live,
}
use xsigma.Memory.Allocator.Pools.{Rank, goes_before, goes_behind, insert_block, erase_block}
use xsigma.Memory.Allocator.Usage.{Use, use_of, same_class, places, events_of, Settled}
use xsigma.Memory.Allocator.Shape.{Shape, Keeps}

-- `pending` names the block of each event that is still queued.
pub record IsValid (s : Impl) (pending : List ℕ) : Type 0 where
  pub shape : Shape s.heap s.next_block
  pub pooled : (small : Bool) (i : ℕ) → count i (pool_of s small) ≤ places (use_of (s.heap i)) small
  pub awaited : (i : ℕ) → count i pending ≡ events_of (use_of (s.heap i))
  pub settled : (i : ℕ) → Settled (use_of (s.heap i))
  pub live :
      (p i : ℕ)
      → find_live p s.allocated_blocks ≡ some i
      → (b : CacheBlock) × (s.heap i ≡ some b) × (b.allocated ≡ true) × (b.ptr ≡ p)
  pub single : (p : ℕ) → find_live p (erase_live p s.allocated_blocks) ≡ none

pub count-erase_block :
    (i id : ℕ) (js : List ℕ)
    → count i (erase_block id js) ≡ (if i == id then count i js - 1 else count i js)
unfolding count erase_block
count-erase_block i id [] = ground arith
count-erase_block i id (j ∷ js) = ground (arith, count-erase_block i id js)

pub count-insert_block :
    (h : Heap) (r : Rank) (i id : ℕ) (js : List ℕ)
    → count i (insert_block h r id js) ≤ count i js + to_nat (i == id)
unfolding count insert_block
count-insert_block h r i id [] = ground arith
count-insert_block h r i id (j ∷ js) = ground (arith, count-insert_block h r i id js)

pub pool_of-with_pool :
    (s : Impl) (p q : Bool) (ids : List ℕ)
    → pool_of (with_pool s p ids) q ≡ (if same_class p q then ids else pool_of s q)
pool_of-with_pool s true true ids = refl
pool_of-with_pool s true false ids = refl
pool_of-with_pool s false true ids = refl
pool_of-with_pool s false false ids = refl

pub pool_of_here :
    (s : Impl) (p q : Bool) (ids : List ℕ)
    → same_class p q ≡ true
    → pool_of (with_pool s p ids) q ≡ ids
pool_of_here s p q ids h = pool_of-with_pool s p q ids ∙ rw h refl

pub pool_of_other :
    (s : Impl) (p q : Bool) (ids : List ℕ)
    → same_class p q ≡ false
    → pool_of (with_pool s p ids) q ≡ pool_of s q
pool_of_other s p q ids h = pool_of-with_pool s p q ids ∙ rw h refl

pub pool_of-same_class : (s : Impl) (p q : Bool) → same_class p q ≡ true → pool_of s p ≡ pool_of s q
pool_of-same_class s true true h = refl
pool_of-same_class s true false h = cc
pool_of-same_class s false true h = cc
pool_of-same_class s false false h = refl

-- The live map after a change of the heap that keeps the allocated blocks.
pub live-Keeps :
    (h k : Heap) (es : List LiveEntry)
    → Keeps h k
    → ((p i : ℕ)
        → find_live p es ≡ some i
        → (b : CacheBlock) × (h i ≡ some b) × (b.allocated ≡ true) × (b.ptr ≡ p))
    → (p i : ℕ) → find_live p es ≡ some i
    → (b : CacheBlock) × (k i ≡ some b) × (b.allocated ≡ true) × (b.ptr ≡ p)
live-Keeps h k es keeps live p i e =
    let (b, at, on, ptr) = live p i e in
    let (c, at_c, ptr_c, _, on_c) = keeps i b at on in (c, at_c, on_c, ptr_c ∙ ptr)
