-- ===== src/Memory/Stats.antt =====
-- Library/Memory/profiler/unified_memory_stats.h and unified_memory_stats.cpp: the counters of a caching
-- allocator. Each is an atomic std::size_t. The three rates are quotients of doubles, kept here as a
-- pair of numerator and denominator.
pub mod Rates
use xsigma.Common.{ℕ, ◌+◌, ◌%◌, ◌^◌, ◌==◌, ◌*◌, if◌then◌else◌, to_u64, to_double}

pub record UnifiedCacheStats : Type 0 where
  pub cache_hits : ℕ
  pub cache_misses : ℕ
  pub bytes_cached : ℕ
  pub driver_allocations : ℕ
  pub driver_frees : ℕ
  pub cache_evictions : ℕ
  pub peak_bytes_cached : ℕ
  pub cache_blocks : ℕ
  pub successful_allocations : ℕ
  pub successful_frees : ℕ
  pub bytes_allocated : ℕ
  pub peak_bytes_allocated : ℕ
  pub bytes_reserved : ℕ
  pub peak_bytes_reserved : ℕ
  pub inactive_split_bytes : ℕ
  pub num_alloc_retries : ℕ
  pub num_ooms : ℕ
  pub num_sync_all_streams : ℕ

abbrev pub zero_stats : UnifiedCacheStats
zero_stats = record {
  cache_hits = 0;
  cache_misses = 0;
  bytes_cached = 0;
  driver_allocations = 0;
  driver_frees = 0;
  cache_evictions = 0;
  peak_bytes_cached = 0;
  cache_blocks = 0;
  successful_allocations = 0;
  successful_frees = 0;
  bytes_allocated = 0;
  peak_bytes_allocated = 0;
  bytes_reserved = 0;
  peak_bytes_reserved = 0;
  inactive_split_bytes = 0;
  num_alloc_retries = 0;
  num_ooms = 0;
  num_sync_all_streams = 0;
}

-- The copy constructor, which loads each counter.
unfoldable pub copy_stats : UnifiedCacheStats → UnifiedCacheStats
copy_stats other = record {
  cache_hits = other.cache_hits;
  cache_misses = other.cache_misses;
  bytes_cached = other.bytes_cached;
  driver_allocations = other.driver_allocations;
  driver_frees = other.driver_frees;
  cache_evictions = other.cache_evictions;
  peak_bytes_cached = other.peak_bytes_cached;
  cache_blocks = other.cache_blocks;
  successful_allocations = other.successful_allocations;
  successful_frees = other.successful_frees;
  bytes_allocated = other.bytes_allocated;
  peak_bytes_allocated = other.peak_bytes_allocated;
  bytes_reserved = other.bytes_reserved;
  peak_bytes_reserved = other.peak_bytes_reserved;
  inactive_split_bytes = other.inactive_split_bytes;
  num_alloc_retries = other.num_alloc_retries;
  num_ooms = other.num_ooms;
  num_sync_all_streams = other.num_sync_all_streams;
}

-- The assignment, which stores each counter in turn.
unfoldable pub assign_stats : UnifiedCacheStats → UnifiedCacheStats → UnifiedCacheStats
assign_stats this other =
    let a = record this {
      cache_hits = other.cache_hits;
      cache_misses = other.cache_misses;
      bytes_cached = other.bytes_cached;
      driver_allocations = other.driver_allocations;
      driver_frees = other.driver_frees;
      cache_evictions = other.cache_evictions;
      peak_bytes_cached = other.peak_bytes_cached;
      cache_blocks = other.cache_blocks;
      successful_allocations = other.successful_allocations;
    } in
    record a {
      successful_frees = other.successful_frees;
      bytes_allocated = other.bytes_allocated;
      peak_bytes_allocated = other.peak_bytes_allocated;
      bytes_reserved = other.bytes_reserved;
      peak_bytes_reserved = other.peak_bytes_reserved;
      inactive_split_bytes = other.inactive_split_bytes;
      num_alloc_retries = other.num_alloc_retries;
      num_ooms = other.num_ooms;
      num_sync_all_streams = other.num_sync_all_streams;
    }

abbrev pub reset_stats : UnifiedCacheStats → UnifiedCacheStats
reset_stats s = zero_stats

unfoldable pub reset_peaks : UnifiedCacheStats → UnifiedCacheStats
reset_peaks s = record s {
  peak_bytes_cached = s.bytes_cached;
  peak_bytes_allocated = s.bytes_allocated;
  peak_bytes_reserved = s.bytes_reserved;
}

-- A quotient, by its operands. Those of `driver_call_reduction` are rounded to doubles as in the code, and the
-- quotient of two doubles is at least 1.0 exactly if the first is not below the second: rounding to the nearest
-- double is monotone, and what is below 1 is at most 1 - 2 ^ -53, a double. Those of the other two rates are the
-- counters before they are converted, which keeps their order.
pub record Ratio : Type 0 where
  pub numerator : ℕ
  pub denominator : ℕ

unfoldable pub cache_hit_rate : UnifiedCacheStats → Ratio
cache_hit_rate s =
    let total = to_u64 (s.cache_hits + s.cache_misses) in
    if total == 0
    then record { numerator = 0; denominator = 1 }
    else record { numerator = s.cache_hits; denominator = total }

unfoldable pub cache_efficiency_percent : UnifiedCacheStats → Ratio
cache_efficiency_percent s =
    let total = to_u64 (s.cache_hits + s.cache_misses) in
    if total == 0
    then record { numerator = 0; denominator = 1 }
    else record { numerator = s.cache_hits * 100; denominator = total }

unfoldable pub driver_call_reduction : UnifiedCacheStats → Ratio
driver_call_reduction s =
    let driver_calls = to_u64 (s.driver_allocations + s.driver_frees) in
    if driver_calls == 0 then record { numerator = 1; denominator = 1 } else record {
      numerator = to_double (to_u64 (s.cache_hits + s.driver_frees));
      denominator = to_double driver_calls;
    }
