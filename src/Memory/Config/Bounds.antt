-- ===== src/Memory/Config/Bounds.antt =====
-- The rounding of requests and segments: what it gives, and where it wraps around.
use xsigma.Common.{ℕ, ◌+◌, ◌%◌, ◌^◌, ◌≤◌, ◌<◌, ◌≡◌, arith}
use xsigma.Memory.Config.{min_block_size, round_large, round_request_size, segment_size_for}

-- A request of at most 2 ^ 64 - 512 bytes is rounded up to a multiple of 512 that is positive, fits
-- 64 bits, is not below the request, and at most 512 bytes above it.
pub round_request_size_bounds :
    (size : ℕ)
    → size + min_block_size ≤ 2 ^ 64
    → (size ≤ round_request_size size)
      × (0 < round_request_size size)
      × (round_request_size size % min_block_size ≡ 0)
      × (round_request_size size < 2 ^ 64)
      × (round_request_size size ≤ size + min_block_size)
unfolding round_request_size
round_request_size_bounds size h =
    (ground arith, ground arith, ground arith, ground arith, ground arith)

-- A request above 2 ^ 64 - 512 bytes wraps around: it is rounded to 0.
pub round_request_size_wraps :
    (size : ℕ) → size < 2 ^ 64 → 2 ^ 64 < size + min_block_size → round_request_size size ≡ 0
unfolding round_request_size
round_request_size_wraps size fits h = ground arith

rounded_room :
    (size : ℕ) → size + round_large ≤ 2 ^ 64 → round_request_size size + round_large ≤ 2 ^ 64
unfolding round_request_size
rounded_room size h = ground arith

segment_holds :
    (size : ℕ)
    → size + round_large ≤ 2 ^ 64
    → (size ≤ segment_size_for size)
      × (0 < segment_size_for size)
      × (segment_size_for size % round_large ≡ 0)
unfolding segment_size_for
segment_holds size h = (ground arith, ground arith, ground arith)

-- The segment for a request of at most 2 ^ 64 - 2 MiB bytes holds its rounded size, and is a positive
-- multiple of 2 MiB.
pub segment_size_for-holds :
    (size : ℕ)
    → size + round_large ≤ 2 ^ 64
    → (round_request_size size ≤ segment_size_for (round_request_size size))
      × (0 < segment_size_for (round_request_size size))
      × (segment_size_for (round_request_size size) % round_large ≡ 0)
segment_size_for-holds size h = segment_holds (round_request_size size) (rounded_room size h)
