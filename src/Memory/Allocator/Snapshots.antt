-- ===== src/Memory/Allocator/Snapshots.antt =====
-- `snapshot` of Library/Memory/gpu/cuda_caching_allocator.cpp: all blocks that can be reached, by address.
pub mod Seen
use xsigma.Common.{
  ℕ, Bool, true, false, not, ◌||◌, Option, none, some, List, [], ◌∷◌, ◌==◌, ltb, if◌then◌else◌, ◌≡◌,
  refl, ◌∙◌,
}
use xsigma.Memory.History.{snapshot, copy_entries}
use xsigma.Memory.Snapshot.{
  GpuMemoryBlockInfo, GpuMemorySnapshot, SegmentEntry, SegmentFacts, add_snapshot_block,
  finish_snapshot,
}
use xsigma.Memory.Allocator.{
  CacheBlock, Heap, Impl, RawSegment, QueuedEvent, EventQueue, LiveEntry, record_trace,
}
use xsigma.Memory.Allocator.Merge.{is_nil}
use xsigma.Memory.Allocator.Release.{base_of}

-- An entry of the map from addresses to blocks, which is a list by rising address.
pub record UniqueEntry : Type 0 where
  pub ptr : ℕ
  pub block : CacheBlock

-- `unique[block->ptr] = block`
unfoldable pub insert_unique : CacheBlock → List UniqueEntry → List UniqueEntry
insert_unique b [] = record { ptr = b.ptr; block = b } ∷ []
insert_unique b (u ∷ us) =
    let rest = insert_unique b us in
    if u.ptr == b.ptr
    then record u { block = b } ∷ us
    else if ltb b.ptr u.ptr
    then record { ptr = b.ptr; block = b } ∷ u ∷ us
    else u ∷ rest

abbrev pub consider : Heap → ℕ → List UniqueEntry → List UniqueEntry
consider h id us = elim (h id) [ none ↦ us | some b ↦ insert_unique b us ]

unfoldable pub consider_live : Heap → List LiveEntry → List UniqueEntry → List UniqueEntry
unfolding insert_unique
consider_live h [] us = us
consider_live h (e ∷ es) us = consider_live h es (consider h e.block us)

unfoldable pub consider_pool : Heap → List ℕ → List UniqueEntry → List UniqueEntry
unfolding insert_unique
consider_pool h [] us = us
consider_pool h (id ∷ ids) us = consider_pool h ids (consider h id us)

unfoldable pub consider_queue : Heap → List QueuedEvent → List UniqueEntry → List UniqueEntry
unfolding insert_unique
consider_queue h [] us = us
consider_queue h (q ∷ qs) us = consider_queue h qs (consider h q.block us)

unfoldable pub consider_queues : Heap → List EventQueue → List UniqueEntry → List UniqueEntry
unfolding consider_queue
consider_queues h [] us = us
consider_queues h (e ∷ es) us = consider_queues h es (consider_queue h e.queue us)

unfoldable pub unique_blocks : Impl → List UniqueEntry
unfolding consider_live consider_pool consider_queues
unique_blocks s = consider_queues s.heap s.cuda_events (
    consider_pool s.heap s.large_blocks
      (consider_pool s.heap s.small_blocks (consider_live s.heap s.allocated_blocks [])))

-- `driver_segments_.find(base)`, and its size, or 0.
unfoldable pub segment_size : ℕ → List RawSegment → ℕ
segment_size base [] = 0
segment_size base (e ∷ es) = if e.ptr == base then e.size else segment_size base es

abbrev pub is_active : CacheBlock → Bool
is_active b = b.allocated || (ltb 0 b.event_count || not (is_nil b.stream_uses))

abbrev pub segment_facts : List RawSegment → CacheBlock → SegmentFacts
segment_facts segments b = record {
  base = base_of b;
  size = segment_size (base_of b) segments;
  is_small = b.is_small;
  is_expandable = b.vm_backed;
  stream = b.stream;
}

abbrev pub block_info : CacheBlock → GpuMemoryBlockInfo
block_info b = record {
  address = b.ptr;
  size = b.size;
  requested_size = b.requested_size;
  allocated = b.allocated;
  active = is_active b;
}

unfoldable pub add_unique :
    List RawSegment → List UniqueEntry → List SegmentEntry → List SegmentEntry
unfolding segment_size
add_unique segments [] es = es
add_unique segments (u ∷ us) es =
    add_unique segments us
      (add_snapshot_block es (segment_facts segments u.block) (block_info u.block))

unfoldable pub take_snapshot : Impl → GpuMemorySnapshot × Impl
unfolding unique_blocks add_unique
take_snapshot s =
    let t = record_trace s snapshot 0 0 0 in
    (
      finish_snapshot (add_unique t.driver_segments (unique_blocks t) []) (copy_entries t.history),
      t,
    )
