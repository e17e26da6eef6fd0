-- ===== src/Memory/Config.antt =====
-- Library/Memory/gpu/caching_allocator_config.h: how requests and segments are rounded, in the
-- arithmetic of std::size_t.
pub mod Bounds
use xsigma.Common.{ℕ, ◌+◌, ◌-◌, ◌*◌, ◌/◌, ◌^◌, if◌then◌else◌, ltb, leb, to_u64}

abbrev pub min_block_size : ℕ
min_block_size = 512

abbrev pub small_size : ℕ
small_size = 1048576

abbrev pub small_buffer : ℕ
small_buffer = 2097152

abbrev pub min_large_alloc : ℕ
min_large_alloc = 10485760

abbrev pub large_buffer : ℕ
large_buffer = 20971520

abbrev pub round_large : ℕ
round_large = 2097152

unfoldable pub round_request_size : ℕ → ℕ
round_request_size size =
    if ltb size min_block_size
    then min_block_size
    else to_u64
        (min_block_size * (to_u64 (to_u64 (size + min_block_size) + 2 ^ 64 - 1) / min_block_size))

unfoldable pub segment_size_for : ℕ → ℕ
segment_size_for size =
    if leb size small_size
    then small_buffer
    else if ltb size min_large_alloc
    then large_buffer
    else to_u64 (round_large * (to_u64 (to_u64 (size + round_large) + 2 ^ 64 - 1) / round_large))
