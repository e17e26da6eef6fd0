-- ===== src/Memory/Allocator/Trim.antt =====
-- What `trim_cache_locked` of Library/Memory/gpu/cuda_caching_allocator.cpp reaches.
use xsigma.Common.{
  ℕ, zero, suc, ◌+◌, ◌-◌, ◌^◌, ◌≤◌, ◌<◌, ◌≡◌, ◌≢◌, ◌⊎◌, inl, inr, refl, sym, ap, ◌∙◌, subst, Bool,
  true, false, none, some, some_inj, List, [], ◌∷◌, ◌++◌, ◌==◌, ltb, length, length-append, arith,
  Bool-cases,
}
use xsigma.Memory.Allocator.{CacheBlock, is_split, Impl, pool_of, with_pool}
use xsigma.Memory.Allocator.Pools.{erase_block}
use xsigma.Memory.Allocator.Shape.Absorb.{none-some, write-cases, write_other}
use xsigma.Memory.Allocator.Shape.{Shape, Keeps}
use xsigma.Memory.Allocator.Shape.Free.{Keeps-trans}
use xsigma.Memory.Allocator.Shape.Retag.{shrink-Shape}
use xsigma.Memory.Allocator.Victim.{NoneWhole, find_victim-IsLargest}
use xsigma.Memory.Allocator.Fit.{In, here, there}
use xsigma.Memory.Allocator.Release.{release_segment, evict, trim_loop, trim_cache}

-- Every cached block is in the pool that it names, and is not allocated.
pub record IsFiled (s : Impl) : Type 0 where
  pub small_ones :
      (i : ℕ) (b : CacheBlock)
      → In i s.small_blocks
      → s.heap i ≡ some b
      → (b.is_small ≡ true) × (b.allocated ≡ false)
  pub large_ones :
      (i : ℕ) (b : CacheBlock)
      → In i s.large_blocks
      → s.heap i ≡ some b
      → (b.is_small ≡ false) × (b.allocated ≡ false)

erase-In : (id i : ℕ) (js : List ℕ) → In i (erase_block id js) → In i js
unfolding erase_block
erase-In id i [] m = m
erase-In id i (j ∷ js) m = elim (Bool-cases (j == id)) [
  | inl same ↦ there j js (subst (In i) (rw same refl) m)
  | inr other ↦ go i (erase-In id i js) (subst (In i) (rw other refl) m)
]
  where
    go :
        (k : ℕ)
        → (In k (erase_block id js) → In k js)
        → In k (j ∷ erase_block id js)
        → In k (j ∷ js)
    go k shorter (here _) = here js
    go k shorter (there _ _ m) = there j js (shorter m)

length-erase : (id : ℕ) (js : List ℕ) → In id js → length (erase_block id js) + 1 ≡ length js
unfolding erase_block
length-erase id [] m = elim m [ ]
length-erase id (j ∷ js) (here _) = ground arith
length-erase id (j ∷ js) (there _ _ m) = ground (arith, length-erase id js m)

In-append : (i : ℕ) (xs ys : List ℕ) → In i (xs ++ ys) → In i xs ⊎ In i ys
In-append i [] ys m = inr m
In-append i (x ∷ xs) ys (here _) = inl (here xs)
In-append i (x ∷ xs) ys (there _ _ m) = elim (In-append i xs ys m) [
  | inl k ↦ inl (there x xs k)
  | inr k ↦ inr k
]

evict-IsFiled : (s : Impl) (id : ℕ) (b : CacheBlock) → IsFiled s → IsFiled (evict s id b)
unfolding evict release_segment
evict-IsFiled s id b f = record {
  small_ones = λ i c m at.
      write-cases s.heap id none i c at (λ _ q. absurd (none-some q))
        (λ _ q. f.small_ones i c (kept true i m) q);
  large_ones = λ i c m at.
      write-cases s.heap id none i c at (λ _ q. absurd (none-some q))
        (λ _ q. f.large_ones i c (kept false i m) q);
}
  where
    kept :
        (small : Bool) (i : ℕ)
        → In i (pool_of (with_pool s b.is_small (erase_block id (pool_of s b.is_small))) small)
        → In i (pool_of s small)
    kept small i m = go b.is_small small m
      where
        go :
            (p small : Bool)
            → In i (pool_of (with_pool s p (erase_block id (pool_of s p))) small)
            → In i (pool_of s small)
        go true true m = erase-In id i s.small_blocks m
        go true false m = m
        go false true m = m
        go false false m = erase-In id i s.large_blocks m

abbrev cached : Impl → ℕ
cached s = length (s.small_blocks ++ s.large_blocks)

evict-cached :
    (s : Impl) (id : ℕ) (b : CacheBlock)
    → IsFiled s
    → s.heap id ≡ some b
    → In id (s.small_blocks ++ s.large_blocks)
    → cached (evict s id b) < cached s
unfolding evict release_segment
evict-cached s id b f at m = elim (In-append id s.small_blocks s.large_blocks m) [
  | inl small ↦
      let (filed, _) = f.small_ones id b small at in
      ground (
        arith,
        filed,
        length-erase id s.small_blocks small,
        length-append s.small_blocks s.large_blocks,
        length-append (erase_block id s.small_blocks) s.large_blocks,
      )
  | inr large ↦
      let (filed, _) = f.large_ones id b large at in
      ground (
        arith,
        filed,
        length-erase id s.large_blocks large,
        length-append s.small_blocks s.large_blocks,
        length-append s.small_blocks (erase_block id s.large_blocks),
      )
]

pub evict-Keeps :
    (s : Impl) (id : ℕ) (b : CacheBlock)
    → IsFiled s
    → s.heap id ≡ some b
    → In id (s.small_blocks ++ s.large_blocks)
    → Keeps s.heap (evict s id b).heap
unfolding evict release_segment
evict-Keeps s id b f at m i c at_c live = (
  c,
  write_other s.heap id none i (λ e. clash (some_inj (sym at_c ∙ (ap s.heap e ∙ at)))) ∙ at_c,
  refl,
  refl,
  live,
)
  where
    free : b.allocated ≡ false
    free = elim (In-append id s.small_blocks s.large_blocks m) [
      | inl small ↦ (f.small_ones id b small at).1
      | inr large ↦ (f.large_ones id b large at).1
    ]

    clash : c ≡ b → ⊥
    clash e = absurd (ground (arith, sym live ∙ (ap (λ x. x.allocated) e ∙ free)))

evict-Shape :
    (s : Impl) (id : ℕ) (b : CacheBlock)
    → Shape s.heap s.next_block
    → s.heap id ≡ some b
    → is_split b ≡ false
    → Shape (evict s id b).heap (evict s id b).next_block
unfolding evict release_segment
evict-Shape s id b shape at whole = shrink-Shape shape id b at whole

-- What trimming the cache promises.
pub record Trimmed (s t : Impl) : Type 0 where
  pub same_limit : t.max_cached_bytes ≡ s.max_cached_bytes
  pub reached :
      (t.bytes_cached ≤ t.max_cached_bytes) ⊎ NoneWhole t.heap (t.small_blocks ++ t.large_blocks)
  pub filed : IsFiled t
  pub shape : Shape t.heap t.next_block
  pub keeps : Keeps s.heap t.heap

none_cached : (s : Impl) → cached s ≤ 0 → NoneWhole s.heap (s.small_blocks ++ s.large_blocks)
none_cached s le i b m = absurd (omega (arith, length-erase i (s.small_blocks ++ s.large_blocks) m))

Trimmed-evict :
    (s : Impl) (id : ℕ) (b : CacheBlock) {t : Impl}
    → IsFiled s
    → s.heap id ≡ some b
    → In id (s.small_blocks ++ s.large_blocks)
    → Trimmed (evict s id b) t
    → Trimmed s t
unfolding evict release_segment
Trimmed-evict s id b {t} f at m r = record {
  same_limit = r.same_limit;
  reached = r.reached;
  filed = r.filed;
  shape = r.shape;
  keeps = Keeps-trans s.heap (evict s id b).heap t.heap (evict-Keeps s id b f at m) r.keeps;
}

trim_loop-Trimmed :
    (fuel : ℕ) (s : Impl)
    → Shape s.heap s.next_block
    → IsFiled s
    → cached s ≤ fuel
    → Trimmed s (trim_loop fuel s)
unfolding trim_loop
trim_loop-Trimmed zero s shape f le = record {
  same_limit = refl;
  reached = inr (none_cached s le);
  filed = f;
  shape = shape;
  keeps = λ i b at live. (b, at, refl, refl, live);
}
trim_loop-Trimmed (suc fuel) s shape f le =
    elim (Bool-cases (ltb s.max_cached_bytes s.bytes_cached)) [
      | inr within ↦
          rw (trim_loop, within)
            (record {
              same_limit = refl;
              reached = inl (ground (arith, within));
              filed = f;
              shape = shape;
              keeps = λ i b at live. (b, at, refl, refl, live);
            })
      | inl over ↦ elim (find_victim-IsLargest s.heap (s.small_blocks ++ s.large_blocks)) [
        | inl (absent, none_whole) ↦
            rw (trim_loop, over, absent)
              (record {
                same_limit = refl;
                reached = inr none_whole;
                filed = f;
                shape = shape;
                keeps = λ i b at live. (b, at, refl, refl, live);
              })
        | inr (v, c, found, m, best) ↦
            rw (trim_loop, over, found)
              (Trimmed-evict s v c f best.at m (
                trim_loop-Trimmed fuel (evict s v c) (evict-Shape s v c shape best.at best.unsplit)
                  (evict-IsFiled s v c f) (omega (arith, evict-cached s v c f best.at m))))
      ]
    ]

-- In a state whose blocks do not overlap, whose links join neighbours, and whose cached blocks are free and
-- in the pool that they name, with a limit on the cache, `trim_cache` ends at or below the limit, or with no
-- cached block left that is a whole segment. It has enough fuel for that. The state is of the same kind, with
-- the same limit, and each allocated block is where it was, as large as it was.
pub trim_cache-Trimmed :
    (s : Impl)
    → Shape s.heap s.next_block
    → IsFiled s
    → s.max_cached_bytes ≢ 2 ^ 64 - 1
    → Trimmed s (trim_cache s)
unfolding trim_cache
trim_cache-Trimmed s shape f limited =
    let off : (s.max_cached_bytes == 2 ^ 64 - 1) ≡ false = ground (arith, limited) in
    rw (trim_cache, off) (trim_loop-Trimmed (cached s) s shape f (omega arith))
