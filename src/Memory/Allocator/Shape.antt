-- ===== src/Memory/Allocator/Shape.antt =====
-- The geometry of the blocks: no two overlap, and the links of a split segment join neighbours.
pub mod Absorb
pub mod Prev
pub mod Next
pub mod Free
pub mod Carve
pub mod Retag
pub mod Allocate
use xsigma.Common.{ℕ, ◌+◌, ◌^◌, ◌≤◌, ◌<◌, ◌≡◌, ◌≢◌, ◌⊎◌, Bool, true, Option, none, some}
use xsigma.Memory.Allocator.{CacheBlock, Heap}

-- The blocks occupy disjoint ranges of addresses.
abbrev pub Apart : CacheBlock → CacheBlock → Type 0
Apart b c = (b.ptr + b.size ≤ c.ptr) ⊎ (c.ptr + c.size ≤ b.ptr)

-- `b` comes right before `c` in the same segment of the same pool and stream.
pub record Joins (b c : CacheBlock) : Type 0 where
  pub adjacent : b.ptr + b.size ≡ c.ptr
  pub same_pool : b.is_small ≡ c.is_small
  pub same_stream : b.stream ≡ c.stream
  pub same_segment : b.segment_base ≡ c.segment_base

pub record Shape (h : Heap) (next_block : ℕ) : Type 0 where
  pub fresh : (i : ℕ) → next_block ≤ i → h i ≡ none
  pub sized : (i : ℕ) (b : CacheBlock) → h i ≡ some b → (0 < b.size) × (b.ptr + b.size < 2 ^ 64)
  pub apart : (i j : ℕ) (b c : CacheBlock) → i ≢ j → h i ≡ some b → h j ≡ some c → Apart b c
  pub next_ok :
      (i j : ℕ) (b : CacheBlock)
      → h i ≡ some b
      → b.next ≡ some j
      → (c : CacheBlock) × (h j ≡ some c) × (c.prev ≡ some i) × Joins b c
  pub prev_ok :
      (i j : ℕ) (b : CacheBlock)
      → h i ≡ some b
      → b.prev ≡ some j
      → (c : CacheBlock) × (h j ≡ some c) × (c.next ≡ some i) × Joins c b

-- Each allocated block of `h` is in `k`, where it was, as large as it was, and allocated.
abbrev pub Keeps : Heap → Heap → Type 0
Keeps h k =
    (i : ℕ) (b : CacheBlock)
    → h i ≡ some b
    → b.allocated ≡ true
    → (c : CacheBlock) × (k i ≡ some c) × (c.ptr ≡ b.ptr) × (c.size ≡ b.size) × (c.allocated ≡ true)
