-- ===== src/Memory/Allocator/Merge.antt =====
-- `try_merge_locked` and `free_block_locked` of Library/Memory/gpu/cuda_caching_allocator.cpp. `none` is a read
-- through a dangling pointer, or the failed check that two merged blocks are adjacent.
use xsigma.Common.{
  ℕ, ◌+◌, Bool, true, false, not, ◌&&◌, Option, none, some, List, [], ◌∷◌, ◌==◌, max, if◌then◌else◌,
  to_u64,
}
use xsigma.Memory.History.{free_completed}
use xsigma.Memory.Allocator.{CacheBlock, Heap, write, Impl, pool_of, with_pool, record_trace}
use xsigma.Memory.Allocator.Pools.{insert_block, erase_block, rank_of}
use xsigma.Memory.Allocator.Split.{set_next, set_prev}

abbrev pub is_nil : List ℕ → Bool
is_nil [] = true
is_nil (_ ∷ _) = false

-- A block that no one uses: not allocated, and no work on another stream outstanding.
abbrev pub is_idle : CacheBlock → Bool
is_idle b = not b.allocated && (b.event_count == 0 && is_nil b.stream_uses)

abbrev pub points_to : Option ℕ → ℕ → Bool
points_to none id = false
points_to (some j) id = j == id

-- [src dst]
abbrev pub absorb_prev : CacheBlock → CacheBlock → CacheBlock
absorb_prev b c = record b { ptr = c.ptr; prev = c.prev; size = to_u64 (b.size + c.size) }

-- [dst src]
abbrev pub absorb_next : CacheBlock → CacheBlock → CacheBlock
absorb_next b c = record b { next = c.next; size = to_u64 (b.size + c.size) }

-- The end of a merge: `merged` is the new `dst`, and `src` leaves the pool and is deleted.
abbrev pub replace_pair : Impl → Heap → ℕ → CacheBlock → ℕ → Impl
replace_pair s linked dst merged src =
    record (with_pool s merged.is_small (erase_block src (pool_of s merged.is_small))) {
      heap = write (write linked dst (some merged)) src none;
    }

-- The body of `try_merge_locked`, for blocks `b` and `c` under `dst` and `src`.
unfoldable pub merge_blocks : Impl → ℕ → CacheBlock → ℕ → CacheBlock → Option Impl
merge_blocks s dst b src c =
    if not (is_idle c)
    then some s
    else if points_to b.prev src
    then (if c.ptr + c.size == b.ptr
        then some (replace_pair s (set_next s.heap c.prev (some dst)) dst (absorb_prev b c) src)
        else none)
    else if points_to b.next src
    then (if b.ptr + b.size == c.ptr
        then some (replace_pair s (set_prev s.heap c.next (some dst)) dst (absorb_next b c) src)
        else none)
    else some s

unfoldable pub try_merge : Impl → ℕ → CacheBlock → Option ℕ → Option Impl
unfolding merge_blocks
try_merge s dst b none = some s
try_merge s dst b (some src) = elim (s.heap src) [
  | none ↦ none
  | some c ↦ merge_blocks s dst b src c
]

-- The end of `free_block_locked`: the block enters its pool.
unfoldable pub pool_block : Impl → ℕ → CacheBlock → ℕ → Impl
pool_block s id b freed_size =
    let cached = to_u64 (s.bytes_cached + freed_size) in
    let t =
      record (with_pool s b.is_small (insert_block s.heap (rank_of b) id (pool_of s b.is_small))) {
        bytes_cached = cached;
        peak_bytes_cached = max s.peak_bytes_cached cached;
      } in
    record_trace t free_completed b.ptr freed_size b.stream

-- Merging with the next block, after the previous one.
unfoldable pub finish_free : ℕ → ℕ → Option Impl → Option Impl
unfolding pool_block
finish_free id freed_size none = none
finish_free id freed_size (some s) = elim (s.heap id) [
  | none ↦ none
  | some b ↦ some (pool_block s id b freed_size)
]

unfoldable pub merge_next : ℕ → Option Impl → Option Impl
unfolding try_merge
merge_next id none = none
merge_next id (some s) = elim (s.heap id) [ none ↦ none | some b ↦ try_merge s id b b.next ]

unfoldable pub free_block : Impl → ℕ → Option Impl
unfolding try_merge merge_next finish_free
free_block s id = elim (s.heap id) [
  | none ↦ none
  | some b ↦ finish_free id b.size (merge_next id (try_merge s id b b.prev))
]
