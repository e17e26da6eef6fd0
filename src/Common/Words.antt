-- ===== src/Common/Words.antt =====
-- 64-bit arithmetic: std::size_t, which wraps around, std::int64_t, and std::size_t as a double.
use Prim.Native.Nat.{ℕ, zero, suc, ◌+◌, ◌-◌, ◌*◌, ◌/◌, ◌%◌, ◌^◌}
use mathlib.Core.Bool.{◌||◌, ◌&&◌}
use xsigma.Common.Tests.{ltb, leb, ◌==◌, if◌then◌else◌}

abbrev pub to_u64 : ℕ → ℕ
to_u64 n = n % 2 ^ 64

-- `a - b`, also where `b` is not reduced.
abbrev pub sub64 : ℕ → ℕ → ℕ
sub64 a b = (a + 2 ^ 64 - b % 2 ^ 64) % 2 ^ 64

-- `negsuc n` is -(n + 1).
pub data ℤ : Type 0 where
  pos : ℕ → ℤ
  negsuc : ℕ → ℤ

-- `static_cast<std::int64_t>(n)`, for `n` below 2 ^ 64.
abbrev pub to_i64 : ℕ → ℤ
to_i64 n = if ltb n (2 ^ 63) then pos n else negsuc (2 ^ 64 - 1 - n)

-- `-n`. The negation of -(2 ^ 63) is undefined in the source; it gives 2 ^ 63 here.
abbrev pub neg : ℤ → ℤ
neg (pos zero) = pos zero
neg (pos (suc n)) = negsuc n
neg (negsuc n) = pos (suc n)

-- `n / unit`, rounded to the nearest number and from the middle to the even one.
abbrev pub round_half_even : ℕ → ℕ → ℕ
round_half_even unit n =
    let q = n / unit in
    if ltb (2 * (n % unit)) unit || (2 * (n % unit) == unit && q % 2 == 0) then q else q + 1

-- `static_cast<double>(n)` for `n` below 2 ^ 64, which is an integer: 53 significant bits are kept. The
-- unit of the last bit is at most 2 ^ 11, so 12 units are enough.
unfoldable pub double_from : ℕ → ℕ → ℕ → ℕ
double_from zero unit n = n
double_from (suc fuel) unit n =
    let rest = double_from fuel (2 * unit) n in
    if leb n (unit * 2 ^ 53) then unit * round_half_even unit n else rest

abbrev pub to_double : ℕ → ℕ
to_double n = double_from 12 1 n
