-- ===== src/Memory/Tests/Records.antt =====
-- The configuration, the history, the snapshot, the statistics and the reporter on concrete inputs.
use xsigma.Common.{
  pos, negsuc, ℕ, ◌+◌, ◌-◌, ◌*◌, ◌^◌, ◌%◌, ◌≤◌, ◌<◌, ◌≡◌, ◌↔◌, refl, Bool, true, false, List, [],
  ◌∷◌, foldl, arith, to_u64,
}
use xsigma.Memory.Config.{round_request_size, segment_size_for, min_block_size, round_large}
use xsigma.Memory.Config.Bounds.{
  round_request_size_bounds, round_request_size_wraps, segment_size_for-holds,
}
use xsigma.Memory.History.{GpuMemoryTraceEntry, GpuMemoryHistory, alloc, record_entry, set_enabled}
use xsigma.Memory.History.Ring.{IsBounded, set_enabled-IsBounded, record_all-newest, newest}
use xsigma.Memory.Snapshot.{GpuMemoryBlockInfo, SegmentFacts, finish_snapshot}
use xsigma.Memory.Snapshot.Gather.{add_all, blocks_at, first_at}
use xsigma.Memory.Snapshot.Tally.{segment_at, IsRising, Finished, finish_snapshot-Finished}
use xsigma.Memory.Stats.{
  UnifiedCacheStats, zero_stats, cache_hit_rate, cache_efficiency_percent, driver_call_reduction,
  copy_stats, assign_stats,
}
use xsigma.Memory.Stats.Rates.{
  cache_hit_rate_bounds, driver_call_reduction_iff, assign_stats-copy_stats,
}
use xsigma.Memory.Reporter.{
  memory_usage, new_reporter, find, record_allocation, record_deallocation, record_out_of_memory,
  tracked_blocks, has_tracked_blocks,
}
use xsigma.Memory.Reporter.Account.{
  Operation, allocation, deallocation, failure, perform, IsConsistent, perform_all-IsConsistent,
  record_deallocation-record_allocation,
}

round_request_size_bounds_example :
    (1000 ≤ round_request_size 1000)
    × (0 < round_request_size 1000)
    × (round_request_size 1000 % min_block_size ≡ 0)
    × (round_request_size 1000 < 2 ^ 64)
    × (round_request_size 1000 ≤ 1000 + min_block_size)
round_request_size_bounds_example = round_request_size_bounds 1000 (omega arith)

round_request_size_wraps_example : round_request_size (2 ^ 64 - 1) ≡ 0
round_request_size_wraps_example = round_request_size_wraps (2 ^ 64 - 1) (omega arith) (omega arith)

segment_size_for-holds_example :
    (round_request_size 3000000 ≤ segment_size_for (round_request_size 3000000))
    × (0 < segment_size_for (round_request_size 3000000))
    × (segment_size_for (round_request_size 3000000) % round_large ≡ 0)
segment_size_for-holds_example = segment_size_for-holds 3000000 (omega arith)

abbrev entry : ℕ → GpuMemoryTraceEntry
entry size = record {
  action = alloc;
  address = 4096;
  size = size;
  total_allocated = size;
  total_reserved = 2097152;
  stream = 0;
}

abbrev pair_history : GpuMemoryHistory
pair_history = record { enabled = true; max_entries = 2; entries = entry 1 ∷ [] }

abbrev three_entries : List GpuMemoryTraceEntry
three_entries = entry 2 ∷ entry 3 ∷ entry 4 ∷ []

record_all-newest_example :
    (foldl record_entry pair_history three_entries).entries ≡ newest 2 (entry 1 ∷ three_entries)
record_all-newest_example =
    record_all-newest pair_history (entry 1 ∷ []) three_entries refl (omega arith) refl

pair_history-IsBounded : IsBounded pair_history
pair_history-IsBounded = record { room = omega arith; within = omega arith; quiet = λ off. cc }

set_enabled-IsBounded_example : IsBounded (set_enabled pair_history false 5)
set_enabled-IsBounded_example =
    set_enabled-IsBounded {h = pair_history} false 5 pair_history-IsBounded

abbrev facts : ℕ → SegmentFacts
facts base = record { base = base; size = 0; is_small = true; is_expandable = false; stream = 0 }

abbrev info : ℕ → ℕ → Bool → GpuMemoryBlockInfo
info address size allocated = record {
  address = address;
  size = size;
  requested_size = size;
  allocated = allocated;
  active = allocated;
}

abbrev some_adds : List (SegmentFacts × GpuMemoryBlockInfo)
some_adds =
    (facts 4096, info 4608 512 false)
    ∷ (facts 1024, info 1024 512 true)
    ∷ (facts 4096, info 4096 512 true)
    ∷ []

finish_snapshot-Finished_example :
    IsRising (finish_snapshot (add_all [] some_adds) three_entries).segments
    × Finished 4096
        (blocks_at 4096 some_adds)
        (first_at 4096 some_adds)
        (segment_at 4096 (finish_snapshot (add_all [] some_adds) three_entries).segments)
    × ((finish_snapshot (add_all [] some_adds) three_entries).device_trace ≡ three_entries)
finish_snapshot-Finished_example =
    finish_snapshot-Finished some_adds three_entries 4096 (omega arith)

abbrev busy_stats : UnifiedCacheStats
busy_stats = record zero_stats {
  cache_hits = 3;
  cache_misses = 1;
  driver_allocations = 2;
  driver_frees = 1;
}

cache_hit_rate_bounds_example :
    (0 < (cache_hit_rate busy_stats).denominator)
    × ((cache_hit_rate busy_stats).numerator ≤ (cache_hit_rate busy_stats).denominator)
    × ((cache_efficiency_percent busy_stats).numerator
        ≡ 100 * (cache_hit_rate busy_stats).numerator)
    × ((cache_efficiency_percent busy_stats).denominator ≡ (cache_hit_rate busy_stats).denominator)
cache_hit_rate_bounds_example = cache_hit_rate_bounds busy_stats (omega arith)

driver_call_reduction_iff_example :
    ((driver_call_reduction busy_stats).denominator ≤ (driver_call_reduction busy_stats).numerator)
    ↔ (busy_stats.driver_allocations ≤ busy_stats.cache_hits)
driver_call_reduction_iff_example =
    driver_call_reduction_iff busy_stats (omega arith) (omega arith) (omega arith)

assign_stats-copy_stats_example : assign_stats zero_stats (copy_stats busy_stats) ≡ busy_stats
assign_stats-copy_stats_example = assign_stats-copy_stats zero_stats busy_stats

abbrev some_operations : List Operation
some_operations =
    allocation 4096 100 ∷ allocation 8192 50 ∷ deallocation 4096 true ∷ failure 10 ∷ []

new_reporter-IsConsistent : IsConsistent new_reporter
new_reporter-IsConsistent = record { total = refl; fast = refl }

perform_all-IsConsistent_example :
    IsConsistent (foldl perform new_reporter some_operations)
    × ((has_tracked_blocks (foldl perform new_reporter some_operations) ≡ false)
        ↔ (tracked_blocks (foldl perform new_reporter some_operations) ≡ 0))
unfolding tracked_blocks perform record_allocation record_deallocation record_out_of_memory
perform_all-IsConsistent_example =
    perform_all-IsConsistent new_reporter some_operations new_reporter-IsConsistent (omega arith)

record_deallocation-record_allocation_example :
    let after = (record_allocation new_reporter 4096 100).0 in
    ((record_deallocation after 4096 true).0.allocated ≡ 0)
    × ((record_deallocation after 4096 true).1 ≡ memory_usage 4096 (negsuc 99) 0 ∷ [])
    × ((record_allocation new_reporter 4096 100).1
        ≡ memory_usage 4096 (pos 100) (to_u64 (0 + 100)) ∷ [])
unfolding find
record_deallocation-record_allocation_example =
    record_deallocation-record_allocation new_reporter 4096 99 new_reporter-IsConsistent refl
      (omega arith) (omega arith)
