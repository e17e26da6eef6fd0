-- ===== src/Memory/Allocator/Entry.antt =====
-- The operations of `cuda_caching_allocator` in Library/Memory/gpu/cuda_caching_allocator.cpp. Each holds the
-- allocator's lock, but for `allocate`, which drops it while the driver allocates: there it is cut in
-- two. The answer of the driver is a parameter, as are the callbacks that free memory.
use xsigma.Common.{
  ℕ, ◌+◌, ◌-◌, ◌^◌, Bool, false, not, ◌&&◌, ◌||◌, Option, none, some, List, [], ◌∷◌, ◌++◌, ◌==◌,
  leb, length, if◌then◌else◌, to_u64, sub64,
}
use xsigma.Memory.Config.{small_size, round_request_size, segment_size_for}
use xsigma.Memory.History.{oom, segment_alloc, free_requested, set_enabled, new_history}
use xsigma.Memory.Stats.{UnifiedCacheStats, zero_stats}
use xsigma.Memory.Allocator.{
  CacheBlock, Heap, write, is_split, Impl, RawSegment, bump_peak, record_trace,
  reserved_would_exceed, find_live, erase_live, Outcome, done, threw, faulted, AllocatorError,
  bad_alloc, cuda_error, zero_bytes, not_owned, double_free, and_then, or_fault,
}
use xsigma.Memory.Allocator.Pools.{get_free_block}
use xsigma.Memory.Allocator.Split.{alloc_found_block}
use xsigma.Memory.Allocator.Merge.{free_block, is_nil}
use xsigma.Memory.Allocator.Events.{Runtime, process_events, insert_events, insert_stream}
use xsigma.Memory.Allocator.Release.{release_cached_blocks, trim_cache}

-- The constructor.
abbrev pub new_impl : ℕ → Impl
new_impl max_cached_bytes = record {
  max_cached_bytes = max_cached_bytes;
  allowed_memory_maximum = 2 ^ 64 - 1;
  bytes_cached = 0;
  peak_bytes_cached = 0;
  small_blocks = [];
  large_blocks = [];
  allocated_blocks = [];
  cuda_events = [];
  event_pool = [];
  driver_segments = [];
  registration_counter_global = 0;
  stats = zero_stats;
  history = new_history;
  expandable_segments = false;
  heap = λ _. none;
  next_block = 0;
}

-- A callback says whether it freed memory. All callbacks run.
abbrev pub Callback : Type 0
Callback = Impl → Bool × Impl

unfoldable pub trigger_free_memory_callbacks : List Callback → Impl → Bool × Impl
trigger_free_memory_callbacks [] s = (false, s)
trigger_free_memory_callbacks (callback ∷ callbacks) s =
    let (freed, t) = callback s in
    let (more, u) = trigger_free_memory_callbacks callbacks t in (freed || more, u)

-- `fail_oom_locked`
unfoldable pub fail_oom {ℓ} : {A : Type ℓ} → (AllocatorError → Impl → A) → Impl → ℕ → ℕ → A
fail_oom raise s requested stream = raise bad_alloc (
    record_trace (record s { stats = record s.stats { num_ooms = to_u64 (s.stats.num_ooms + 1) } })
      oom 0 requested stream)

-- What the driver answers to a request for a segment. That the device cannot be selected is an `other_error`.
pub data DriverReply : Type 0 where
  segment : RawSegment → DriverReply
  out_of_memory other_error : DriverReply

-- The first part of `allocate` ends with a block from the cache, or at the call of the driver, behind
-- which it goes on with `needs_segment`.
pub data Search : Type 0 where
  found : ℕ → Search
  needs_segment : Search

abbrev pub count_hit : Impl → Impl
count_hit s = record s { stats = record s.stats { cache_hits = to_u64 (s.stats.cache_hits + 1) } }

abbrev pub count_miss : Impl → Impl
count_miss s = record s {
  stats = record s.stats { cache_misses = to_u64 (s.stats.cache_misses + 1) };
}

-- A miss: the cache is released if the new segment would exceed the limit, and `allocate` fails if it
-- still would.
unfoldable pub make_room : Runtime → Impl → ℕ → ℕ → ℕ → Outcome Search
make_room runtime s alloc_size size stream =
    and_then
      (if reserved_would_exceed s alloc_size then release_cached_blocks runtime s else done tt s)
      λ _ t.
        if reserved_would_exceed t alloc_size
        then fail_oom threw t size stream
        else done needs_segment t

-- The retry of the cache after the callbacks.
abbrev pub retry_search : Runtime → Bool × Impl → Bool → ℕ → ℕ → ℕ → Outcome Search
retry_search runtime (freed, s) is_small stream rounded size =
    elim (if freed then get_free_block s is_small stream rounded else none) [
      | some (id, t) ↦ done (found id) (count_hit t)
      | none ↦ make_room runtime (count_miss s) (segment_size_for rounded) size stream
    ]

-- `allocate`, down to the call of the driver.
unfoldable pub allocate_search : Runtime → List Callback → Impl → ℕ → ℕ → Outcome Search
unfolding make_room trigger_free_memory_callbacks
allocate_search runtime callbacks s size stream =
    if size == 0
    then threw zero_bytes s
    else (and_then (process_events runtime s) λ _ t.
        let rounded = round_request_size size in
        let is_small = leb rounded small_size in
        elim (get_free_block t is_small stream rounded) [
          | some (id, u) ↦ done (found id) (count_hit u)
          | none ↦
              retry_search runtime (trigger_free_memory_callbacks callbacks t) is_small stream
                rounded size
        ])

-- The block for a new segment.
abbrev pub segment_block : RawSegment → ℕ → Bool → ℕ → CacheBlock
segment_block raw stream is_small counter = record {
  ptr = raw.ptr;
  size = raw.size;
  requested_size = 0;
  stream = stream;
  is_small = is_small;
  allocated = false;
  prev = none;
  next = none;
  event_count = 0;
  stream_uses = [];
  segment_base = raw.ptr;
  vm_backed = raw.vm;
  registration_counter = counter;
}

-- `driver_segments_.emplace(raw.ptr, raw)`, which keeps the entry of a key that is there.
abbrev pub has_segment : ℕ → List RawSegment → Bool
has_segment ptr [] = false
has_segment ptr (r ∷ rs) = (r.ptr == ptr) || has_segment ptr rs

abbrev pub emplace_segment : RawSegment → List RawSegment → List RawSegment
emplace_segment raw rs = if has_segment raw.ptr rs then rs else raw ∷ rs

-- The part of `alloc_segment_unlocked` behind a driver call that gave a segment.
unfoldable pub attach_segment : Impl → RawSegment → ℕ → Bool → ℕ × Impl
attach_segment s raw stream is_small =
    let reserved = to_u64 (s.stats.bytes_reserved + raw.size) in
    let t = record s {
      heap =
          write s.heap s.next_block
            (some (segment_block raw stream is_small (s.registration_counter_global + 1)));
      next_block = s.next_block + 1;
      registration_counter_global = s.registration_counter_global + 1;
      driver_segments = emplace_segment raw s.driver_segments;
      stats = record s.stats {
        driver_allocations = to_u64 (s.stats.driver_allocations + 1);
        bytes_reserved = reserved;
        peak_bytes_reserved = bump_peak s.stats.peak_bytes_reserved reserved;
      };
    } in
    (s.next_block, record_trace t segment_alloc raw.ptr raw.size stream)

-- The second call of the driver, after the whole cache was released.
abbrev pub retry_segment : Outcome (Unit {0}) → DriverReply → ℕ → ℕ → Bool → Outcome ℕ
retry_segment released reply size stream is_small = and_then released λ _ s.
    let t = record s {
      stats = record s.stats { num_alloc_retries = to_u64 (s.stats.num_alloc_retries + 1) };
    } in
    elim reply [
      | segment raw ↦ let (id, u) = attach_segment t raw stream is_small in done id u
      | out_of_memory ↦ fail_oom threw t size stream
      | other_error ↦ threw cuda_error t
    ]

-- `allocate`, from the answer of the driver to the block.
unfoldable pub obtain_segment :
    Runtime → DriverReply → DriverReply → Impl → ℕ → ℕ → Bool → Outcome ℕ
unfolding attach_segment fail_oom
obtain_segment runtime (segment raw) second s size stream is_small =
    let (id, t) = attach_segment s raw stream is_small in done id t
obtain_segment runtime out_of_memory second s size stream is_small =
    retry_segment (release_cached_blocks runtime s) second size stream is_small
obtain_segment runtime other_error second s size stream is_small = threw cuda_error s

-- The end of `allocate`: the pointer that it returns.
unfoldable pub hand_out : Impl → ℕ → ℕ → ℕ → Outcome ℕ
hand_out s id rounded size = elim (s.heap id) [
  | none ↦ faulted
  | some b ↦ let (t, ptr) = alloc_found_block s id b rounded size in done ptr (trim_cache t)
]

abbrev pub block_of_search :
    Runtime → DriverReply → DriverReply → ℕ → ℕ → Bool → Search → Impl → Outcome ℕ
block_of_search runtime first second size stream is_small (found id) s = done id s
block_of_search runtime first second size stream is_small needs_segment s =
    obtain_segment runtime first second s size stream is_small

-- `allocate`, with no other thread between its parts.
unfoldable pub allocate :
    Runtime → List Callback → DriverReply → DriverReply → Impl → ℕ → ℕ → Outcome ℕ
unfolding allocate_search obtain_segment hand_out
allocate runtime callbacks first second s size stream =
    and_then (allocate_search runtime callbacks s size stream) λ search t.
      and_then
        (block_of_search runtime first second size stream (leb (round_request_size size) small_size)
          search t)
        λ id u. hand_out u id (round_request_size size) size

-- `stream != nullptr && stream != block->stream`
abbrev pub other_stream : ℕ → CacheBlock → Bool
other_stream stream b = not (stream == 0) && not (stream == b.stream)

abbrev pub noted : ℕ → CacheBlock → CacheBlock
noted stream b =
    if other_stream stream b
    then record b { stream_uses = insert_stream stream b.stream_uses }
    else b

-- `deallocate`, for the block `b` under `id`.
unfoldable pub release_block : Runtime → Impl → ℕ → ℕ → CacheBlock → ℕ → Outcome (Unit {0})
release_block runtime s ptr id b stream =
    let c = noted stream (record b { allocated = false }) in
    let t = record s {
      allocated_blocks = erase_live ptr s.allocated_blocks;
      heap = write s.heap id (some c);
      stats = record s.stats {
        successful_frees = to_u64 (s.stats.successful_frees + 1);
        bytes_allocated = sub64 s.stats.bytes_allocated b.size;
      };
    } in
    let u = record_trace t free_requested ptr b.size b.stream in
    and_then
      (if is_nil c.stream_uses then or_fault (free_block u id) else insert_events runtime u id)
      λ _ v. done tt (trim_cache v)

abbrev pub checked_release : Runtime → Impl → ℕ → ℕ → Option CacheBlock → ℕ → Outcome (Unit {0})
checked_release runtime s ptr id none stream = faulted
checked_release runtime s ptr id (some b) stream =
    if b.allocated then release_block runtime s ptr id b stream else threw double_free s

unfoldable pub deallocate : Runtime → Impl → ℕ → ℕ → Outcome (Unit {0})
unfolding release_block
deallocate runtime s ptr stream =
    if ptr == 0
    then done tt s
    else (and_then (process_events runtime s) λ _ t. elim (find_live ptr t.allocated_blocks) [
      | none ↦ threw not_owned t
      | some id ↦ checked_release runtime t ptr id (t.heap id) stream
    ])

unfoldable pub record_stream : Impl → ℕ → ℕ → Outcome (Unit {0})
record_stream s ptr stream =
    if (ptr == 0) || (stream == 0) then done tt s else elim (find_live ptr s.allocated_blocks) [
      | none ↦ threw not_owned s
      | some id ↦ elim (s.heap id) [
        | none ↦ faulted
        | some b ↦
            if stream == b.stream
            then done tt s
            else done tt (record s {
              heap =
                  write s.heap id
                    (some (record b { stream_uses = insert_stream stream b.stream_uses }));
            })
      ]
    ]

abbrev pub empty_cache : Runtime → Impl → Outcome (Unit {0})
empty_cache runtime s = release_cached_blocks runtime s

unfoldable pub set_max_cached_bytes : Impl → ℕ → Impl
set_max_cached_bytes s bytes = trim_cache (record s { max_cached_bytes = bytes })

abbrev pub set_expandable_segments : Impl → Bool → Impl
set_expandable_segments s enabled = record s { expandable_segments = enabled }

abbrev pub record_memory_history : Impl → Bool → ℕ → Impl
record_memory_history s enabled max_entries = record s {
  history = set_enabled s.history enabled max_entries;
}

unfoldable pub reset_peak_stats : Impl → Impl
reset_peak_stats s = record s {
  peak_bytes_cached = s.bytes_cached;
  stats = record s.stats {
    peak_bytes_cached = s.bytes_cached;
    peak_bytes_allocated = s.stats.bytes_allocated;
    peak_bytes_reserved = s.stats.bytes_reserved;
  };
}

-- The bytes of the cached blocks that are parts of a segment.
abbrev pub split_size : Option CacheBlock → ℕ
split_size none = 0
split_size (some b) = if is_split b then b.size else 0

unfoldable pub split_bytes : Heap → List ℕ → ℕ
split_bytes h [] = 0
split_bytes h (id ∷ ids) = split_size (h id) + split_bytes h ids

unfoldable pub stats_of : Impl → UnifiedCacheStats
unfolding split_bytes
stats_of s = record s.stats {
  bytes_cached = s.bytes_cached;
  peak_bytes_cached = s.peak_bytes_cached;
  cache_blocks = to_u64 (length s.small_blocks + length s.large_blocks);
  inactive_split_bytes = to_u64 (split_bytes s.heap (s.small_blocks ++ s.large_blocks));
}
