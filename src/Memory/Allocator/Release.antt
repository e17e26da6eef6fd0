-- ===== src/Memory/Allocator/Release.antt =====
-- Giving cached segments back to the driver, in Library/Memory/gpu/cuda_caching_allocator.cpp. The call of the
-- driver has no result; it stands as the removal of the segment from `driver_segments`.
use xsigma.Common.{
  ℕ, zero, suc, ◌+◌, ◌-◌, ◌^◌, Bool, true, false, Option, none, some, List, [], ◌∷◌, ◌++◌, ◌==◌,
  ltb, length, if◌then◌else◌, to_u64, sub64,
}
use xsigma.Memory.History.{segment_free}
use xsigma.Memory.Allocator.{
  CacheBlock, Heap, write, is_split, Impl, RawSegment, pool_of, with_pool, record_trace, Outcome,
  done, and_then,
}
use xsigma.Memory.Allocator.Pools.{erase_block}
use xsigma.Memory.Allocator.Events.{Runtime, synchronize_and_free_events}

unfoldable pub erase_segment : ℕ → List RawSegment → List RawSegment
erase_segment ptr [] = []
erase_segment ptr (e ∷ es) =
    let rest = erase_segment ptr es in if e.ptr == ptr then es else e ∷ rest

abbrev pub base_of : CacheBlock → ℕ
base_of b = if b.segment_base == 0 then b.ptr else b.segment_base

-- `release_segment_locked`, for the block `b` under `id`.
unfoldable pub release_segment : Impl → ℕ → CacheBlock → Impl
unfolding erase_segment
release_segment s id b =
    let t = record s {
      driver_segments = erase_segment (base_of b) s.driver_segments;
      stats = record s.stats {
        driver_frees = to_u64 (s.stats.driver_frees + 1);
        cache_evictions = to_u64 (s.stats.cache_evictions + 1);
        bytes_reserved = sub64 s.stats.bytes_reserved b.size;
      };
    } in
    let u = record_trace t segment_free b.ptr b.size b.stream in
    record u { heap = write s.heap id none }

-- A cached block leaves its pool and its segment goes back to the driver.
unfoldable pub evict : Impl → ℕ → CacheBlock → Impl
unfolding release_segment
evict s id b =
    release_segment
      (record (with_pool s b.is_small (erase_block id (pool_of s b.is_small))) {
        bytes_cached = sub64 s.bytes_cached b.size;
      })
      id b

abbrev pub evict_whole : Impl → ℕ → Option CacheBlock → Impl
evict_whole s id none = s
evict_whole s id (some b) = if is_split b then s else evict s id b

-- `release_pool_blocks_locked`, over the blocks that the pool has at its beginning.
unfoldable pub release_blocks : List ℕ → Impl → Impl
unfolding evict
release_blocks [] s = s
release_blocks (id ∷ ids) s = release_blocks ids (evict_whole s id (s.heap id))

abbrev pub release_pool_blocks : Impl → Bool → Impl
release_pool_blocks s is_small = release_blocks (pool_of s is_small) s

unfoldable pub release_cached_blocks : Runtime → Impl → Outcome (Unit {0})
unfolding release_blocks
release_cached_blocks runtime s =
    and_then (synchronize_and_free_events runtime s)
      λ _ t. done tt (release_pool_blocks (release_pool_blocks t true) false)

-- The search for a victim: the first of the largest cached blocks that are whole segments.
abbrev pub better : Heap → Option (ℕ × CacheBlock) → ℕ → Option (ℕ × CacheBlock)
better h victim id = elim (h id) [
  | none ↦ victim
  | some b ↦ if is_split b then victim else elim victim [
    | none ↦ some (id, b)
    | some (v, c) ↦ if ltb c.size b.size then some (id, b) else some (v, c)
  ]
]

unfoldable pub find_victim : Heap → List ℕ → Option (ℕ × CacheBlock) → Option (ℕ × CacheBlock)
find_victim h [] victim = victim
find_victim h (id ∷ ids) victim = find_victim h ids (better h victim id)

-- The loop of `trim_cache_locked`, on fuel.
unfoldable pub trim_loop : ℕ → Impl → Impl
unfolding find_victim evict
trim_loop zero s = s
trim_loop (suc fuel) s = elim (ltb s.max_cached_bytes s.bytes_cached) [
  | false ↦ s
  | true ↦ elim (find_victim s.heap (s.small_blocks ++ s.large_blocks) none) [
    | none ↦ s
    | some (id, b) ↦ trim_loop fuel (evict s id b)
  ]
]

-- Each round takes a block out of a pool, so as many rounds as there are blocks are enough.
-- 2 ^ 64 - 1 stands for no limit.
unfoldable pub trim_cache : Impl → Impl
unfolding trim_loop
trim_cache s =
    if s.max_cached_bytes == 2 ^ 64 - 1
    then s
    else trim_loop (length (s.small_blocks ++ s.large_blocks)) s
