-- ===== src/Common/Counts.antt =====
-- How often a number occurs in a list: membership, distinctness and rearrangement by counting.
use Prim.Native.Nat.{ℕ, zero, suc, ◌+◌, ◌≤◌, ◌<◌}
use mathlib.Core.Path.{◌≡◌, ◌∙◌}
use mathlib.Core.Bool.{Bool}
use mathlib.Core.Logic.{◌≢◌, ◌⊎◌, inl, inr}
use mathlib.Core.List.{List, [], ◌∷◌, ◌++◌}
use native.Mathlib.Decide.{dec_lt, ℕ_discrete}
use native.Mathlib.Omega.{arith}
use xsigma.Common.Tests.{ltb, ◌==◌, if◌then◌else◌}
use xsigma.Common.Lists.{length, range_from, range}
use xsigma.Common.Sums.{
  to_nat, sum_below, sum_below-add, sum_below-eq, sum_below-zero, sum_below-le, sum_below_full,
  sum_below_ones, sum_below-congr, sum_below-change,
}

unfoldable pub count : ℕ → List ℕ → ℕ
count v [] = 0
count v (x ∷ xs) = to_nat (v == x) + count v xs

pub count-append : (v : ℕ) (xs ys : List ℕ) → count v (xs ++ ys) ≡ count v xs + count v ys
unfolding count
count-append v [] ys = omega arith
count-append v (x ∷ xs) ys = omega (arith, count-append v xs ys)

pub count-concat : (v x : ℕ) (xs : List ℕ) → count v (xs ++ x ∷ []) ≡ count v xs + to_nat (v == x)
unfolding count
count-concat v x xs = omega (arith, count-append v xs (x ∷ []))

pub count-range_from :
    (v s n : ℕ) → count v (range_from s n) ≡ (if ltb v s then 0 else if ltb v (s + n) then 1 else 0)
unfolding count
count-range_from v s zero = ground arith
count-range_from v s (suc n) = ground (arith, count-range_from v (suc s) n)

-- Each number below `n` occurs once in `range n`, and no other number does.
pub count-range : (v n : ℕ) → count v (range n) ≡ to_nat (ltb v n)
count-range v n = ground (arith, count-range_from v 0 n)

-- Every element of the list is below `n`.
abbrev pub AllBelow : ℕ → List ℕ → Type 0
AllBelow n xs = (v : ℕ) → n ≤ v → count v xs ≡ 0

pub AllBelow-tail : {n : ℕ} (x : ℕ) (xs : List ℕ) → AllBelow n (x ∷ xs) → AllBelow n xs
unfolding count
AllBelow-tail x xs h v le = omega (arith, h v le)

pub AllBelow-head : {n : ℕ} (x : ℕ) (xs : List ℕ) → AllBelow n (x ∷ xs) → x < n
unfolding count
AllBelow-head {n} x xs h = ground (arith, h x)

pub sum_below-count :
    (n : ℕ) (xs : List ℕ) → AllBelow n xs → sum_below n (λ x. count x xs) ≡ length xs
unfolding count
sum_below-count n [] h = sum_below-zero n
sum_below-count n (a ∷ xs) h = ground (
  arith,
  sum_below-add n (λ x. to_nat (x == a)) (λ x. count x xs),
  sum_below-eq n a,
  sum_below-count n xs (AllBelow-tail a xs h),
  AllBelow-head a xs h,
)

-- Distinct numbers below `n` are at most `n`, and if they are `n`, each of them occurs.
pub pigeonhole-le :
    (n : ℕ) (xs : List ℕ) → AllBelow n xs → ((x : ℕ) → count x xs ≤ 1) → length xs ≤ n
pigeonhole-le n xs below once =
    omega (arith, sum_below-count n xs below, sum_below-le n (λ x. count x xs) once)

pub pigeonhole_full :
    (n : ℕ) (xs : List ℕ)
    → AllBelow n xs
    → ((x : ℕ) → count x xs ≤ 1)
    → length xs ≡ n
    → (x : ℕ) → x < n
    → count x xs ≡ 1
pigeonhole_full n xs below once e =
    sum_below_full n (λ x. count x xs) once (omega (arith, sum_below-count n xs below))

-- The index of the first occurrence; the length of the list where there is none.
unfoldable pub position : ℕ → List ℕ → ℕ
position v [] = 0
position v (x ∷ xs) = if v == x then 0 else suc (position v xs)

pub position-append_left :
    (v : ℕ) (xs ys : List ℕ) → 0 < count v xs → position v (xs ++ ys) ≡ position v xs
unfolding count position
position-append_left v [] ys h = absurd (omega arith)
position-append_left v (x ∷ xs) ys h = ground (arith, position-append_left v xs ys)

pub position-append_right :
    (v : ℕ) (xs ys : List ℕ) → count v xs ≡ 0 → position v (xs ++ ys) ≡ length xs + position v ys
unfolding count position
position-append_right v [] ys h = omega arith
position-append_right v (x ∷ xs) ys h = ground (arith, position-append_right v xs ys)

pub position-lt : (v : ℕ) (xs : List ℕ) → 0 < count v xs → position v xs < length xs
unfolding count position
position-lt v [] h = absurd (omega arith)
position-lt v (x ∷ xs) h = ground (arith, position-lt v xs)

search_missing :
    (n : ℕ) (xs : List ℕ)
    → ((v : ℕ) → v < n → 0 < count v xs) ⊎ ((v : ℕ) × (v < n) × (count v xs ≡ 0))
search_missing zero xs = inl (λ v h. absurd (omega arith))
search_missing (suc n) xs = elim (dec_lt 0 (count n xs)) [
  | no none_here ↦ inr (n, omega arith, omega arith)
  | yes here ↦ elim (search_missing n xs) [
    | inr (v, lt, e) ↦ inr (v, omega arith, e)
    | inl all ↦
        inl (λ v lt. elim (ℕ_discrete v n) [
          | yes same ↦ rw same here
          | no other ↦ all v (omega arith)
        ])
  ]
]

-- Distinct numbers below `n` that are not `n` leave one out.
pub pigeonhole_missing :
    (n : ℕ) (xs : List ℕ)
    → AllBelow n xs
    → ((x : ℕ) → count x xs ≤ 1)
    → length xs ≢ n
    → (v : ℕ) × (v < n) × (count v xs ≡ 0)
pigeonhole_missing n xs below once short = elim (search_missing n xs) [
  | inr found ↦ found
  | inl all ↦ absurd (
      short (
        omega (
          arith,
          sum_below-count n xs below,
          sum_below_ones n (λ x. count x xs) (λ x lt. omega (arith, all x lt, once x)),
        )))
]

-- How many elements below `n` satisfy `p`.
abbrev pub tally : ℕ → (ℕ → Bool) → List ℕ → ℕ
tally n p xs = sum_below n (λ v. if p v then count v xs else 0)

pub tally-nil : (n : ℕ) (p : ℕ → Bool) → tally n p [] ≡ 0
unfolding count
tally-nil n p = sum_below-congr n _ (λ _. 0) (λ x lt. ground arith) ∙ sum_below-zero n

pub tally-cons :
    (n : ℕ) (p : ℕ → Bool) (x : ℕ) (xs : List ℕ)
    → x < n
    → tally n p (x ∷ xs) ≡ to_nat (p x) + tally n p xs
unfolding count
tally-cons n p x xs lt =
    let f = λ (v : ℕ). if p v then count v (x ∷ xs) else 0 in
    let g = λ (v : ℕ). if p v then count v xs else 0 in
    let away = sum_below-change n x f g lt (λ v ne. ground arith) in ground (arith, away)
