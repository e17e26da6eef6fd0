-- ===== src/Memory/Snapshot.antt =====
-- Library/Memory/profiler/gpu_memory_snapshot.h: how a snapshot is put together from the blocks of an
-- allocator. The std::map is a list of segments by rising base address.
pub mod Order
pub mod Gather
pub mod Tally
use xsigma.Common.{
  ℕ, ◌+◌, ◌==◌, Bool, true, false, List, [], ◌∷◌, ◌++◌, map, if◌then◌else◌, ltb, leb, to_u64,
}
use xsigma.Memory.History.{GpuMemoryTraceEntry}

pub record GpuMemoryBlockInfo : Type 0 where
  pub address : ℕ
  pub size : ℕ
  pub requested_size : ℕ
  pub allocated : Bool
  pub active : Bool

pub record GpuMemorySegmentInfo : Type 0 where
  pub address : ℕ
  pub total_size : ℕ
  pub allocated_size : ℕ
  pub active_size : ℕ
  pub requested_size : ℕ
  pub is_small : Bool
  pub is_expandable : Bool
  pub stream : ℕ
  pub blocks : List GpuMemoryBlockInfo

pub record GpuMemorySnapshot : Type 0 where
  pub segments : List GpuMemorySegmentInfo
  pub device_trace : List GpuMemoryTraceEntry

-- An entry of the map: the key and the segment.
pub record SegmentEntry : Type 0 where
  pub base : ℕ
  pub segment : GpuMemorySegmentInfo

-- What `segments[key]` creates for a new key.
abbrev pub blank_segment : GpuMemorySegmentInfo
blank_segment = record {
  address = 0;
  total_size = 0;
  allocated_size = 0;
  active_size = 0;
  requested_size = 0;
  is_small = false;
  is_expandable = false;
  stream = 0;
  blocks = [];
}

-- The arguments of `add_snapshot_block` that describe the segment.
pub record SegmentFacts : Type 0 where
  pub base : ℕ
  pub size : ℕ
  pub is_small : Bool
  pub is_expandable : Bool
  pub stream : ℕ

-- `if (seg.address == nullptr)`: the first block fills the segment in.
abbrev pub describe : SegmentFacts → GpuMemorySegmentInfo → GpuMemorySegmentInfo
describe f seg =
    if seg.address == 0
    then record seg {
      address = f.base;
      total_size = f.size;
      is_small = f.is_small;
      is_expandable = f.is_expandable;
      stream = f.stream;
    }
    else seg

abbrev pub append_block : GpuMemoryBlockInfo → GpuMemorySegmentInfo → GpuMemorySegmentInfo
append_block b seg = record seg {
  blocks = seg.blocks ++ b ∷ [];
  allocated_size = if b.allocated then to_u64 (seg.allocated_size + b.size) else seg.allocated_size;
  requested_size =
      if b.allocated then to_u64 (seg.requested_size + b.requested_size) else seg.requested_size;
  active_size = if b.active then to_u64 (seg.active_size + b.size) else seg.active_size;
}

unfoldable pub add_snapshot_block :
    List SegmentEntry → SegmentFacts → GpuMemoryBlockInfo → List SegmentEntry
add_snapshot_block [] f b =
    record { base = f.base; segment = append_block b (describe f blank_segment) } ∷ []
add_snapshot_block (e ∷ es) f b =
    let rest = add_snapshot_block es f b in
    if e.base == f.base
    then record { base = e.base; segment = append_block b (describe f e.segment) } ∷ es
    else if ltb f.base e.base
    then record { base = f.base; segment = append_block b (describe f blank_segment) } ∷ e ∷ es
    else e ∷ rest

-- `std::sort` by address.
unfoldable pub insert_block : GpuMemoryBlockInfo → List GpuMemoryBlockInfo → List GpuMemoryBlockInfo
insert_block b [] = b ∷ []
insert_block b (c ∷ cs) = if leb b.address c.address then b ∷ c ∷ cs else c ∷ insert_block b cs

unfoldable pub sort_blocks : List GpuMemoryBlockInfo → List GpuMemoryBlockInfo
unfolding insert_block
sort_blocks [] = []
sort_blocks (b ∷ bs) = insert_block b (sort_blocks bs)

-- `seg.total_size += block.size`, over the blocks.
abbrev pub add_sizes : ℕ → List GpuMemoryBlockInfo → ℕ
add_sizes total [] = total
add_sizes total (b ∷ bs) = add_sizes (to_u64 (total + b.size)) bs

-- The body of the loop of `finish_snapshot`.
unfoldable pub finish_segment : GpuMemorySegmentInfo → GpuMemorySegmentInfo
finish_segment seg = record seg {
  blocks = sort_blocks seg.blocks;
  total_size = if seg.total_size == 0 then add_sizes 0 (sort_blocks seg.blocks) else seg.total_size;
}

unfoldable pub finish_snapshot : List SegmentEntry → List GpuMemoryTraceEntry → GpuMemorySnapshot
unfolding finish_segment
finish_snapshot entries trace = record {
  segments = map (λ e. finish_segment e.segment) entries;
  device_trace = trace;
}
