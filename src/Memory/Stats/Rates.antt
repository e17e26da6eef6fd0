-- ===== src/Memory/Stats/Rates.antt =====
-- The rates of the cache statistics.
use xsigma.Common.{ℕ, to_double, double_from, ◌+◌, ◌*◌, ◌^◌, ◌≤◌, ◌<◌, ◌≡◌, ◌↔◌, arith}
use xsigma.Memory.Stats.{
  UnifiedCacheStats, copy_stats, assign_stats, cache_hit_rate, cache_efficiency_percent,
  driver_call_reduction,
}

-- If the counters do not overflow, the hit rate is a proper ratio between 0 and 1, and the percentage
-- is between 0 and 100.
pub cache_hit_rate_bounds :
    (s : UnifiedCacheStats)
    → s.cache_hits + s.cache_misses < 2 ^ 64
    → (0 < (cache_hit_rate s).denominator)
      × ((cache_hit_rate s).numerator ≤ (cache_hit_rate s).denominator)
      × ((cache_efficiency_percent s).numerator ≡ 100 * (cache_hit_rate s).numerator)
      × ((cache_efficiency_percent s).denominator ≡ (cache_hit_rate s).denominator)
unfolding cache_hit_rate cache_efficiency_percent
cache_hit_rate_bounds s fits = (ground arith, ground arith, ground arith, ground arith)

to_double_small : (n : ℕ) → n ≤ 2 ^ 53 → to_double n ≡ n
unfolding double_from
to_double_small n small = ground arith

-- If there was a driver call, and neither sum of counters is above 2 ^ 53, so that both are doubles, the
-- reduction factor is at least 1 exactly if the cache had at least as many hits as the driver had allocations.
pub driver_call_reduction_iff :
    (s : UnifiedCacheStats)
    → s.driver_allocations + s.driver_frees ≤ 2 ^ 53
    → s.cache_hits + s.driver_frees ≤ 2 ^ 53
    → 0 < s.driver_allocations + s.driver_frees
    → ((driver_call_reduction s).denominator ≤ (driver_call_reduction s).numerator)
      ↔ (s.driver_allocations ≤ s.cache_hits)
unfolding driver_call_reduction
driver_call_reduction_iff s fits fits' called = (
  λ h. ground (
    arith,
    to_double_small (s.driver_allocations + s.driver_frees),
    to_double_small (s.cache_hits + s.driver_frees),
  ),
  λ h. ground (
    arith,
    to_double_small (s.driver_allocations + s.driver_frees),
    to_double_small (s.cache_hits + s.driver_frees),
  ),
)

-- A copy and an assignment take over every counter.
pub assign_stats-copy_stats :
    (this other : UnifiedCacheStats) → assign_stats this (copy_stats other) ≡ other
unfolding assign_stats copy_stats
assign_stats-copy_stats this other = ground arith
