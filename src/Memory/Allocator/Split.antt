-- ===== src/Memory/Allocator/Split.antt =====
-- `should_split` and `alloc_found_block_locked` of Library/Memory/gpu/cuda_caching_allocator.cpp.
use xsigma.Common.{
  ℕ, ◌+◌, Bool, true, false, Option, none, some, [], ltb, leb, if◌then◌else◌, sub64, to_u64,
}
use xsigma.Memory.Config.{min_block_size, small_size}
use xsigma.Memory.History.{alloc}
use xsigma.Memory.Allocator.{
  CacheBlock, Heap, write, Impl, emplace_live, pool_of, with_pool, bump_peak, record_trace,
}
use xsigma.Memory.Allocator.Pools.{insert_block, rank_of}

unfoldable pub should_split : CacheBlock → ℕ → Bool
should_split b size =
    let remaining = sub64 b.size size in
    if b.is_small then leb min_block_size remaining else ltb small_size remaining

-- `p->next = id`, for a pointer that may be null.
abbrev pub set_next : Heap → Option ℕ → Option ℕ → Heap
set_next h none id = h
set_next h (some p) id = elim (h p) [
  | none ↦ h
  | some b ↦ write h p (some (record b { next = id }))
]

abbrev pub set_prev : Heap → Option ℕ → Option ℕ → Heap
set_prev h none id = h
set_prev h (some p) id = elim (h p) [
  | none ↦ h
  | some b ↦ write h p (some (record b { prev = id }))
]

-- The front part of a split, under a new id.
abbrev pub front_part : CacheBlock → ℕ → ℕ → CacheBlock
front_part b id rounded = record {
  ptr = b.ptr;
  size = rounded;
  requested_size = 0;
  stream = b.stream;
  is_small = b.is_small;
  allocated = false;
  prev = b.prev;
  next = some id;
  event_count = 0;
  stream_uses = [];
  segment_base = b.segment_base;
  vm_backed = b.vm_backed;
  registration_counter = b.registration_counter;
}

-- The rest of a split, which keeps its id.
abbrev pub rest_part : CacheBlock → ℕ → ℕ → CacheBlock
rest_part b front rounded = record b {
  prev = some front;
  ptr = b.ptr + rounded;
  size = sub64 b.size rounded;
}

-- The branch of `alloc_found_block_locked` that splits `b`, the block `id`. The front part is
-- `next_block`.
unfoldable pub split_block : Impl → ℕ → CacheBlock → ℕ → Impl
split_block s id b rounded =
    let rest = rest_part b s.next_block rounded in
    let linked = set_next s.heap b.prev (some s.next_block) in
    let heap = write (write linked s.next_block (some (front_part b id rounded))) id (some rest) in
    record (with_pool s b.is_small (insert_block heap (rank_of rest) id (pool_of s b.is_small))) {
      heap = heap;
      next_block = s.next_block + 1;
      bytes_cached = to_u64 (s.bytes_cached + rest.size);
    }

-- The part behind the split: the block becomes a live allocation.
unfoldable pub commit_block : Impl → ℕ → CacheBlock → ℕ → Impl
commit_block s id b orig_size =
    let allocated = to_u64 (s.stats.bytes_allocated + b.size) in
    let t = record s {
      heap = write s.heap id (some (record b { allocated = true; requested_size = orig_size }));
      allocated_blocks = emplace_live b.ptr id s.allocated_blocks;
      stats = record s.stats {
        successful_allocations = to_u64 (s.stats.successful_allocations + 1);
        bytes_allocated = allocated;
        peak_bytes_allocated = bump_peak s.stats.peak_bytes_allocated allocated;
      };
    } in
    record_trace t alloc b.ptr b.size b.stream

-- `alloc_found_block_locked`: the new state and the pointer.
unfoldable pub alloc_found_block : Impl → ℕ → CacheBlock → ℕ → ℕ → Impl × ℕ
unfolding should_split split_block commit_block
alloc_found_block s id b rounded orig_size =
    if should_split b rounded
    then (
      commit_block (split_block s id b rounded) s.next_block (front_part b id rounded) orig_size,
      b.ptr,
    )
    else (commit_block s id b orig_size, b.ptr)
