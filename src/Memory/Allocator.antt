-- ===== src/Memory/Allocator.antt =====
-- Library/Memory/gpu/cuda_caching_allocator.cpp: the caching allocator of a CUDA or HIP device. This file has
-- the data; the files below it have the operations in the order of the source.
--
-- The blocks that `new` creates live in `heap`, under ids that are given out in turn, and a pointer to
-- a block is its id. Device pointers, streams and events are numbers, 0 for a null pointer. A
-- `std::set` of blocks is the list of their ids in the order of the comparator.
pub mod Pools
pub mod Split
pub mod Merge
pub mod Events
pub mod Release
pub mod Fit
pub mod Victim
pub mod Trim
pub mod Entry
pub mod Snapshots
pub mod Usage
pub mod Shape
pub mod Valid
use xsigma.Common.{
  ℕ, ◌+◌, ◌-◌, ◌^◌, Bool, true, false, not, ◌&&◌, ◌||◌, Option, none, some, List, [], ◌∷◌, ◌==◌,
  ltb, if◌then◌else◌, to_u64, max,
}
use xsigma.Memory.History.{GpuMemoryHistory, GpuMemoryTraceAction, record_entry}
use xsigma.Memory.Stats.{UnifiedCacheStats}

pub record CacheBlock : Type 0 where
  pub ptr : ℕ
  pub size : ℕ
  pub requested_size : ℕ
  pub stream : ℕ
  pub is_small : Bool
  pub allocated : Bool
  pub prev : Option ℕ
  pub next : Option ℕ
  pub event_count : ℕ
  pub stream_uses : List ℕ
  pub segment_base : ℕ
  pub vm_backed : Bool
  pub registration_counter : ℕ

abbrev pub Heap : Type 0
Heap = ℕ → Option CacheBlock

abbrev pub write : Heap → ℕ → Option CacheBlock → Heap
write h id b j = if j == id then b else h j

abbrev pub is_some_id : Option ℕ → Bool
is_some_id none = false
is_some_id (some _) = true

abbrev pub is_split : CacheBlock → Bool
is_split b = is_some_id b.prev || is_some_id b.next

-- A driver allocation.
pub record RawSegment : Type 0 where
  pub ptr : ℕ
  pub size : ℕ
  pub vm : Bool

pub record QueuedEvent : Type 0 where
  pub event : ℕ
  pub block : ℕ

-- The queue of one stream.
pub record EventQueue : Type 0 where
  pub stream : ℕ
  pub queue : List QueuedEvent

-- An entry of the map of live allocations.
pub record LiveEntry : Type 0 where
  pub ptr : ℕ
  pub block : ℕ

pub record Impl : Type 0 where
  pub max_cached_bytes : ℕ
  pub allowed_memory_maximum : ℕ
  pub bytes_cached : ℕ
  pub peak_bytes_cached : ℕ
  pub small_blocks : List ℕ
  pub large_blocks : List ℕ
  pub allocated_blocks : List LiveEntry
  pub cuda_events : List EventQueue
  pub event_pool : List ℕ
  pub driver_segments : List RawSegment
  pub registration_counter_global : ℕ
  pub stats : UnifiedCacheStats
  pub history : GpuMemoryHistory
  pub expandable_segments : Bool
  pub heap : Heap
  pub next_block : ℕ

abbrev pub pool_of : Impl → Bool → List ℕ
pool_of s is_small = if is_small then s.small_blocks else s.large_blocks

abbrev pub with_pool : Impl → Bool → List ℕ → Impl
with_pool s is_small ids = record s {
  small_blocks = if is_small then ids else s.small_blocks;
  large_blocks = if is_small then s.large_blocks else ids;
}

-- The new peak of `bump_peak_locked`.
abbrev pub bump_peak : ℕ → ℕ → ℕ
bump_peak peak value = if ltb peak value then value else peak

abbrev pub record_trace : Impl → GpuMemoryTraceAction → ℕ → ℕ → ℕ → Impl
record_trace s action address size stream = record s {
  history = record_entry s.history (record {
    action = action;
    address = address;
    size = size;
    total_allocated = s.stats.bytes_allocated;
    total_reserved = s.stats.bytes_reserved;
    stream = stream;
  });
}

-- `reserved_would_exceed_locked`; the sum of two std::size_t wraps around.
abbrev pub reserved_would_exceed : Impl → ℕ → Bool
reserved_would_exceed s alloc_size =
    ltb s.allowed_memory_maximum (to_u64 (s.stats.bytes_reserved + alloc_size))

-- `allocated_blocks_.find(ptr)`, `emplace`, which keeps an entry that is there, and `erase`.
unfoldable pub find_live : ℕ → List LiveEntry → Option ℕ
find_live ptr [] = none
find_live ptr (e ∷ es) = if e.ptr == ptr then some e.block else find_live ptr es

abbrev pub emplace_live : ℕ → ℕ → List LiveEntry → List LiveEntry
emplace_live ptr id es = elim (find_live ptr es) [
  | none ↦ record { ptr = ptr; block = id } ∷ es
  | some j ↦ es
]

unfoldable pub erase_live : ℕ → List LiveEntry → List LiveEntry
erase_live ptr [] = []
erase_live ptr (e ∷ es) = let rest = erase_live ptr es in if e.ptr == ptr then es else e ∷ rest

-- What an operation throws: std::bad_alloc, a CUDA error, or a failed LOGGING_CHECK.
pub data AllocatorError : Type 0 where
  bad_alloc cuda_error zero_bytes not_owned double_free : AllocatorError

-- How an operation ends: with a value, with an exception in the state that it leaves, or with a fault,
-- a read through a dangling pointer or a merge of blocks that are not adjacent.
pub data Outcome (A : Type 0) : Type 0 where
  done : A → Impl → Outcome A
  threw : AllocatorError → Impl → Outcome A
  faulted : Outcome A

module _ {A B : Type 0} where
  abbrev pub and_then : Outcome A → (A → Impl → Outcome B) → Outcome B
  and_then (done a s) k = k a s
  and_then (threw e s) k = threw e s
  and_then faulted k = faulted

abbrev pub or_fault : Option Impl → Outcome (Unit {0})
or_fault none = faulted
or_fault (some s) = done tt s
