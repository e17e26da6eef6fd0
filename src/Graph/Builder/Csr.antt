-- ===== src/Graph/Builder/Csr.antt =====
-- The CSR packing in `graph_builder::build`: each range of the flat vector is the row it was
-- packed from, as long as the number of edges and the ids fit in 32 bits.
use mathlib.Core.List.{append_assoc}
use xsigma.Common.{
  ℕ, zero, suc, ◌+◌, ◌-◌, ◌^◌, ◌≤◌, ◌<◌, ◌≡◌, refl, sym, ap, ◌∙◌, List, [], ◌∷◌, ◌++◌, flatten,
  arith, dec_lt, length, get_or, set, drop, slice, replicate, length-append, take_all,
  length-replicate, get_or_beyond, AllBelow, AllBelow-head, AllBelow-tail,
}
use xsigma.Graph.Dependency.{to_u32}
use xsigma.Graph.Builder.{offsets, fill_row, fill_rows, pack}

-- Where row `i` starts in the flat vector.
row_start : List (List ℕ) → ℕ → ℕ
row_start rows zero = 0
row_start [] (suc i) = 0
row_start (row ∷ rows) (suc i) = length row + row_start rows i

row_start_end : (rows : List (List ℕ)) → row_start rows (length rows) ≡ length (flatten rows)
unfolding row_start flatten
row_start_end [] = refl
row_start_end (row ∷ rows) = omega (arith, row_start_end rows, length-append row (flatten rows))

row_start-suc :
    (rows : List (List ℕ)) (i : ℕ)
    → i < length rows
    → row_start rows (suc i) ≡ row_start rows i + length (get_or rows i [])
unfolding row_start
row_start-suc [] i h = absurd (omega arith)
row_start-suc (row ∷ rows) zero h = omega arith
row_start-suc (row ∷ rows) (suc i) h = omega (arith, row_start-suc rows i (omega arith))

row_start-le : (rows : List (List ℕ)) (i : ℕ) → row_start rows i ≤ length (flatten rows)
unfolding row_start flatten
row_start-le rows zero = omega arith
row_start-le [] (suc i) = omega arith
row_start-le (row ∷ rows) (suc i) =
    omega (arith, row_start-le rows i, length-append row (flatten rows))

offsets-row_start :
    (start : ℕ) (rows : List (List ℕ)) (i : ℕ)
    → start + length (flatten rows) < 2 ^ 32
    → i ≤ length rows
    → get_or (offsets start rows) i 0 ≡ start + row_start rows i
unfolding offsets row_start flatten
offsets-row_start start [] zero fits h = omega arith
offsets-row_start start [] (suc i) fits h = absurd (omega arith)
offsets-row_start start (row ∷ rows) zero fits h = omega arith
offsets-row_start start (row ∷ rows) (suc i) fits h =
    let total = length-append row (flatten rows) in
    let next : to_u32 (start + to_u32 (length row)) ≡ start + length row = omega arith in
    rw next
      (omega (arith, offsets-row_start (start + length row) rows i (omega arith) (omega arith)))

length-offsets :
    (start : ℕ) (rows : List (List ℕ)) → length (offsets start rows) ≡ suc (length rows)
unfolding offsets
length-offsets start [] = refl
length-offsets start (row ∷ rows) =
    ap suc (length-offsets (to_u32 (start + to_u32 (length row))) rows)

set-append :
    (before after : List ℕ) (old new : ℕ)
    → set (before ++ old ∷ after) (length before) new ≡ before ++ new ∷ after
set-append [] after old new = refl
set-append (b ∷ before) after old new = ap (◌∷◌ b) (set-append before after old new)

-- The ids of a row are stored unchanged.
AllSmall : List ℕ → Type 0
AllSmall [] = Unit {0}
AllSmall (x ∷ xs) = (x < 2 ^ 32) × AllSmall xs

AllBelow-AllSmall : {n : ℕ} (xs : List ℕ) → n ≤ 2 ^ 32 → AllBelow n xs → AllSmall xs
unfolding AllSmall
AllBelow-AllSmall [] le h = tt
AllBelow-AllSmall (x ∷ xs) le h =
    (omega (arith, AllBelow-head x xs h), AllBelow-AllSmall xs le (AllBelow-tail x xs h))

fill_row-append :
    (row before after : List ℕ)
    → AllSmall row
    → length before + length row < 2 ^ 32
    → length row ≤ length after
    → fill_row (before ++ after) (length before) row ≡ (before ++ row) ++ drop (length row) after
unfolding fill_row AllSmall
fill_row-append [] before after small fits room = sym (append_assoc before [] after)
fill_row-append (x ∷ row) before [] small fits room = absurd (omega arith)
fill_row-append (x ∷ row) before (old ∷ after) small fits room =
    let same : to_u32 x ≡ x = omega (arith, small.0) in
    let next : to_u32 (length before + 1) ≡ length (before ++ x ∷ []) =
      omega (arith, length-append before (x ∷ [])) in
    rw (same, next, set-append before after old x, ← append_assoc before (x ∷ []) after)
      (fill_row-append row (before ++ x ∷ []) after small.1
          (omega (arith, length-append before (x ∷ []))) (omega arith)
        ∙ ap (λ xs. xs ++ drop (length row) after) (append_assoc before (x ∷ []) row))

drop-replicate : (k m : ℕ) → drop {A = ℕ} k (replicate (k + m) 0) ≡ replicate m 0
drop-replicate zero m = rw (zero_add m)
  where
    zero_add : (m : ℕ) → 0 + m ≡ m
    zero_add m = omega arith
drop-replicate (suc k) m = rw (suc_add k m) (drop-replicate k m)
  where
    suc_add : (k m : ℕ) → suc k + m ≡ suc (k + m)
    suc_add k m = omega arith

RowsSmall : List (List ℕ) → Type 0
RowsSmall [] = Unit {0}
RowsSmall (row ∷ rows) = AllSmall row × RowsSmall rows

fill_rows-flatten :
    (rows : List (List ℕ)) (before : List ℕ)
    → RowsSmall rows
    → length before + length (flatten rows) < 2 ^ 32
    → fill_rows (before ++ replicate (length (flatten rows)) 0) (offsets (length before) rows) rows
      ≡ before ++ flatten rows
unfolding fill_rows offsets flatten RowsSmall
fill_rows-flatten [] before small fits = refl
fill_rows-flatten (row ∷ rows) before small fits =
    let total = length-append row (flatten rows) in
    let next : to_u32 (length before + to_u32 (length row)) ≡ length (before ++ row) =
      omega (arith, length-append before row) in
    rw
      (
        next,
        total,
        fill_row-append row before (replicate (length row + length (flatten rows)) 0) small.0
            (omega arith)
            (omega (arith, length-replicate {A = ℕ} (length row + length (flatten rows)) 0)),
        drop-replicate (length row) (length (flatten rows)),
      )
      (fill_rows-flatten rows (before ++ row) small.1 (omega (arith, length-append before row))
        ∙ append_assoc before row (flatten rows))

pack-flatten :
    (rows : List (List ℕ))
    → RowsSmall rows
    → length (flatten rows) < 2 ^ 32
    → pack rows ≡ flatten rows
unfolding pack
pack-flatten rows small fits =
    let size : get_or (offsets 0 rows) (length rows) 0 ≡ length (flatten rows) = omega (
      arith,
      offsets-row_start 0 rows (length rows) (omega arith) (omega arith),
      row_start_end rows,
    ) in
    rw size (fill_rows-flatten rows [] small (omega arith))

drop-append : (k : ℕ) (xs ys : List ℕ) → drop (length xs + k) (xs ++ ys) ≡ drop k ys
drop-append k [] ys = rw (zero_add k)
  where
    zero_add : (m : ℕ) → 0 + m ≡ m
    zero_add m = omega arith
drop-append k (x ∷ xs) ys = rw (suc_add (length xs) k) (drop-append k xs ys)
  where
    suc_add : (k m : ℕ) → suc k + m ≡ suc (k + m)
    suc_add k m = omega arith

slice-row :
    (rows : List (List ℕ)) (i : ℕ)
    → i < length rows
    → slice (row_start rows i) (row_start rows (suc i)) (flatten rows) ≡ get_or rows i []
unfolding row_start flatten
slice-row [] i h = absurd (omega arith)
slice-row (row ∷ rows) zero h = rw (width (length row)) (take_all row (flatten rows))
  where
    width : (k : ℕ) → k + 0 - 0 ≡ k
    width k = omega arith
slice-row (row ∷ rows) (suc i) h =
    rw
      (
        drop-append (row_start rows i) row (flatten rows),
        width (length row) (row_start rows (suc i)) (row_start rows i),
      )
      (slice-row rows i (omega arith))
  where
    width : (k a b : ℕ) → k + a - (k + b) ≡ a - b
    width k a b = omega arith

RowsSmall-of :
    (n : ℕ) (rows : List (List ℕ))
    → n ≤ 2 ^ 32
    → ((i : ℕ) → AllBelow n (get_or rows i []))
    → RowsSmall rows
unfolding RowsSmall
RowsSmall-of n [] le h = tt
RowsSmall-of n (row ∷ rows) le h =
    (AllBelow-AllSmall row le (h 0), RowsSmall-of n rows le (λ i. h (suc i)))

empty_slice : (b : ℕ) (xs : List ℕ) → slice b 0 xs ≡ []
empty_slice b xs = rw (zero_sub b)
  where
    zero_sub : (b : ℕ) → 0 - b ≡ 0
    zero_sub b = omega arith

-- Reading the packed vector between two offsets gives the row back, and nothing past the last row.
pub slice-pack :
    (n : ℕ) (rows : List (List ℕ))
    → n ≤ 2 ^ 32
    → ((i : ℕ) → AllBelow n (get_or rows i []))
    → length (flatten rows) < 2 ^ 32
    → (i : ℕ)
    → slice (get_or (offsets 0 rows) i 0) (get_or (offsets 0 rows) (suc i) 0) (pack rows)
      ≡ get_or rows i []
slice-pack n rows le below fits i =
    let packed = pack-flatten rows (RowsSmall-of n rows le below) fits in
    let at = λ (j : ℕ) (h : j ≤ length rows). offsets-row_start 0 rows j (omega arith) h in
    elim (dec_lt i (length rows)) [
      | yes lt ↦
          rw
            (
              packed,
              at i (omega arith) ∙ zero_add (row_start rows i),
              at (suc i) (omega arith) ∙ zero_add (row_start rows (suc i)),
            )
            (slice-row rows i lt)
      | no out ↦
          let past : get_or (offsets 0 rows) (suc i) 0 ≡ 0 =
            get_or_beyond (offsets 0 rows) (suc i) 0 (omega (arith, length-offsets 0 rows)) in
          rw (past, get_or_beyond rows i [] (omega arith))
            (empty_slice (get_or (offsets 0 rows) i 0) (pack rows))
    ]
  where
    zero_add : (m : ℕ) → 0 + m ≡ m
    zero_add m = omega arith

-- The difference of two neighbouring offsets, computed in 32 bits, is the width of the row.
pub offsets_width :
    (rows : List (List ℕ)) (i : ℕ)
    → length (flatten rows) < 2 ^ 32
    → i < length rows
    → to_u32 (get_or (offsets 0 rows) (suc i) 0 + 2 ^ 32 - get_or (offsets 0 rows) i 0)
      ≡ length (get_or rows i [])
offsets_width rows i fits h = omega (
  arith,
  offsets-row_start 0 rows i (omega arith) (omega arith),
  offsets-row_start 0 rows (suc i) (omega arith) (omega arith),
  row_start-suc rows i h,
  row_start-le rows (suc i),
)
