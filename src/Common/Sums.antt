-- ===== src/Common/Sums.antt =====
-- Finite sums over the numbers below a bound.
use Prim.Native.Nat.{ℕ, zero, suc, ◌+◌, ◌≤◌, ◌<◌}
use mathlib.Core.Path.{◌≡◌, refl}
use mathlib.Core.Logic.{◌≢◌}
use mathlib.Core.Bool.{Bool, true, false}
use native.Mathlib.Omega.{arith}
use native.Mathlib.Decide.{ℕ_discrete, dec_lt}
use xsigma.Common.Tests.{ltb, ◌==◌}

abbrev pub to_nat : Bool → ℕ
to_nat true = 1
to_nat false = 0

-- The sum of `f x` for the `x` below `n`.
unfoldable pub sum_below : ℕ → (ℕ → ℕ) → ℕ
sum_below zero f = 0
sum_below (suc n) f = sum_below n f + f n

pub sum_below-add :
    (n : ℕ) (f g : ℕ → ℕ) → sum_below n (λ x. f x + g x) ≡ sum_below n f + sum_below n g
unfolding sum_below
sum_below-add zero f g = omega arith
sum_below-add (suc n) f g = omega (arith, sum_below-add n f g)

pub sum_below-eq : (n a : ℕ) → sum_below n (λ x. to_nat (x == a)) ≡ to_nat (ltb a n)
unfolding sum_below
sum_below-eq zero a = ground arith
sum_below-eq (suc n) a = ground (arith, sum_below-eq n a)

pub sum_below-zero : (n : ℕ) → sum_below n (λ x. 0) ≡ 0
unfolding sum_below
sum_below-zero zero = refl
sum_below-zero (suc n) = omega (arith, sum_below-zero n)

pub sum_below-le : (n : ℕ) (f : ℕ → ℕ) → ((x : ℕ) → f x ≤ 1) → sum_below n f ≤ n
unfolding sum_below
sum_below-le zero f h = omega arith
sum_below-le (suc n) f h = omega (arith, sum_below-le n f h, h n)

pub sum_below_full :
    (n : ℕ) (f : ℕ → ℕ) → ((x : ℕ) → f x ≤ 1) → n ≤ sum_below n f → (x : ℕ) → x < n → f x ≡ 1
unfolding sum_below
sum_below_full zero f h full x lt = absurd (omega arith)
sum_below_full (suc n) f h full x lt = ground (
  arith,
  sum_below_full n f h,
  sum_below_full n f h (omega (arith, h n)) x,
  sum_below-le n f h,
  h n,
)

pub sum_below_ones : (n : ℕ) (f : ℕ → ℕ) → ((x : ℕ) → x < n → f x ≡ 1) → sum_below n f ≡ n
unfolding sum_below
sum_below_ones zero f h = refl
sum_below_ones (suc n) f h =
    omega (arith, sum_below_ones n f (λ x lt. h x (omega arith)), h n (omega arith))

pub sum_below-congr :
    (n : ℕ) (f g : ℕ → ℕ) → ((x : ℕ) → x < n → f x ≡ g x) → sum_below n f ≡ sum_below n g
unfolding sum_below
sum_below-congr zero f g h = refl
sum_below-congr (suc n) f g h =
    omega (arith, sum_below-congr n f g (λ x lt. h x (omega arith)), h n (omega arith))

-- Sums of functions that agree but at `i`.
pub sum_below-change :
    (n i : ℕ) (f g : ℕ → ℕ)
    → i < n
    → ((x : ℕ) → x ≢ i → f x ≡ g x)
    → sum_below n f + g i ≡ sum_below n g + f i
unfolding sum_below
sum_below-change zero i f g lt h = absurd (omega arith)
sum_below-change (suc n) i f g lt h = elim (ℕ_discrete i n) [
  | yes last ↦
      rw last (omega (arith, sum_below-congr n f g (λ x below. h x (λ e. absurd (omega arith)))))
  | no early ↦
      omega (arith, sum_below-change n i f g (omega arith) h, h n (λ e. early (ground arith)))
]

-- A term is at most the sum.
pub sum_below-ge : (n : ℕ) (f : ℕ → ℕ) (i : ℕ) → i < n → f i ≤ sum_below n f
unfolding sum_below
sum_below-ge zero f i lt = absurd (omega arith)
sum_below-ge (suc n) f i lt = elim (ℕ_discrete i n) [
  | yes last ↦ rw last (omega arith)
  | no early ↦ omega (arith, sum_below-ge n f i (omega arith))
]

-- A sum that is not zero has a term that is not.
pub sum_below_some : (n : ℕ) (f : ℕ → ℕ) → 0 < sum_below n f → (i : ℕ) × (i < n) × (0 < f i)
unfolding sum_below
sum_below_some zero f h = absurd (omega arith)
sum_below_some (suc n) f h = elim (dec_lt 0 (f n)) [
  | yes here ↦ (n, omega arith, here)
  | no there ↦ let (i, lt, p) = sum_below_some n f (omega arith) in (i, omega arith, p)
]

pub sum_below_mono :
    (n : ℕ) (f g : ℕ → ℕ) → ((x : ℕ) → x < n → f x ≤ g x) → sum_below n f ≤ sum_below n g
unfolding sum_below
sum_below_mono zero f g h = omega arith
sum_below_mono (suc n) f g h =
    omega (arith, sum_below_mono n f g (λ x lt. h x (omega arith)), h n (omega arith))

-- If `f` is nowhere above `g` and its sum is not below that of `g`, they agree.
pub sum_below_tight :
    (n : ℕ) (f g : ℕ → ℕ)
    → ((x : ℕ) → x < n → f x ≤ g x)
    → sum_below n g ≤ sum_below n f
    → (x : ℕ) → x < n
    → f x ≡ g x
unfolding sum_below
sum_below_tight zero f g h full x lt = absurd (omega arith)
sum_below_tight (suc n) f g h full x lt =
    let low = sum_below_mono n f g (λ y y_lt. h y (omega arith)) in
    elim (ℕ_discrete x n) [
      | yes last ↦ rw last (omega (arith, h n (omega arith)))
      | no early ↦
          sum_below_tight n f g (λ y y_lt. h y (omega arith)) (omega (arith, h n (omega arith))) x
            (omega arith)
    ]

pub sum_below-head : (n : ℕ) (f : ℕ → ℕ) → sum_below (suc n) f ≡ f 0 + sum_below n (λ x. f (suc x))
unfolding sum_below
sum_below-head zero f = omega arith
sum_below-head (suc n) f = omega (arith, sum_below-head n f)
