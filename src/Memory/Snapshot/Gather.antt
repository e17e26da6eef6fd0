-- ===== src/Memory/Snapshot/Gather.antt =====
-- The map that `add_snapshot_block` fills has one segment for each key, with what was added under that key.
use xsigma.Common.{
  true, false, ℕ, ◌<◌, ◌≡◌, ◌≢◌, refl, sym, ap, ◌∙◌, subst, ◌==◌, ==_iff, Option, none, some, List,
  [], ◌∷◌, ◌++◌, arith, if◌then◌else◌, ltb, Bool-cases, inl, inr, to_u64, ℕ_discrete,
}
use mathlib.Core.List.{append_assoc, append-nil}
use xsigma.Memory.Snapshot.{
  GpuMemoryBlockInfo, GpuMemorySegmentInfo, SegmentEntry, SegmentFacts, blank_segment, describe,
  append_block, add_snapshot_block,
}
use xsigma.Memory.Snapshot.Order.{sum_of, sum_of-append}

abbrev pub allocated_bytes : GpuMemoryBlockInfo → ℕ
allocated_bytes b = if b.allocated then b.size else 0

abbrev pub active_bytes : GpuMemoryBlockInfo → ℕ
active_bytes b = if b.active then b.size else 0

abbrev pub requested_bytes : GpuMemoryBlockInfo → ℕ
requested_bytes b = if b.allocated then b.requested_size else 0

-- The map that `snapshot` builds, from the blocks in the order in which they are considered.
abbrev pub add_all :
    List SegmentEntry → List (SegmentFacts × GpuMemoryBlockInfo) → List SegmentEntry
add_all es [] = es
add_all es ((f, b) ∷ rest) = add_all (add_snapshot_block es f b) rest

-- The blocks that are considered with the base `a`.
abbrev pub blocks_at : ℕ → List (SegmentFacts × GpuMemoryBlockInfo) → List GpuMemoryBlockInfo
blocks_at a [] = []
blocks_at a ((f, b) ∷ rest) = if f.base == a then b ∷ blocks_at a rest else blocks_at a rest

-- What the first of them says of the segment.
abbrev pub first_at : ℕ → List (SegmentFacts × GpuMemoryBlockInfo) → Option SegmentFacts
first_at a [] = none
first_at a ((f, b) ∷ rest) = if f.base == a then some f else first_at a rest

abbrev pub Above : ℕ → List SegmentEntry → Type 0
Above a [] = Unit {0}
Above a (e ∷ es) = (a < e.base) × Above a es

-- The keys rise, and each segment has its key as its address.
abbrev pub IsSorted : List SegmentEntry → Type 0
IsSorted [] = Unit {0}
IsSorted (e ∷ es) = Above e.base es × (e.segment.address ≡ e.base) × IsSorted es

unfoldable pub entry_at : ℕ → List SegmentEntry → Option GpuMemorySegmentInfo
entry_at a [] = none
entry_at a (e ∷ es) = if e.base == a then some e.segment else entry_at a es

Above-weaken : (a c : ℕ) (es : List SegmentEntry) → a < c → Above c es → Above a es
Above-weaken a c [] lt h = tt
Above-weaken a c (e ∷ es) lt (first, rest) = (omega arith, Above-weaken a c es lt rest)

entry_at-Above : (a : ℕ) (es : List SegmentEntry) → Above a es → entry_at a es ≡ none
unfolding entry_at
entry_at-Above a [] h = refl
entry_at-Above a (e ∷ es) (first, rest) = ground (arith, entry_at-Above a es rest)

add-Above :
    (a : ℕ) (es : List SegmentEntry) (f : SegmentFacts) (b : GpuMemoryBlockInfo)
    → a < f.base
    → Above a es
    → Above a (add_snapshot_block es f b)
unfolding add_snapshot_block
add-Above a [] f b lt h = (lt, tt)
add-Above a (e ∷ es) f b lt (first, rest) = elim (Bool-cases (e.base == f.base)) [
  | inl here ↦ rw here (first, rest)
  | inr other ↦ elim (Bool-cases (ltb f.base e.base)) [
    | inl before ↦ rw (other, before) (lt, (first, rest))
    | inr after ↦ rw (other, after) (first, add-Above a es f b lt rest)
  ]
]

described_address :
    (f : SegmentFacts) (b : GpuMemoryBlockInfo) (seg : GpuMemorySegmentInfo) (a : ℕ)
    → seg.address ≡ a
    → a ≡ f.base
    → (append_block b (describe f seg)).address ≡ a
described_address f b seg a e same = ground arith

pub add_snapshot_block-IsSorted :
    (es : List SegmentEntry) (f : SegmentFacts) (b : GpuMemoryBlockInfo)
    → IsSorted es
    → IsSorted (add_snapshot_block es f b)
unfolding add_snapshot_block
add_snapshot_block-IsSorted [] f b s = (tt, refl, tt)
add_snapshot_block-IsSorted (e ∷ es) f b (above, named, rest) =
    elim (Bool-cases (e.base == f.base)) [
      | inl here ↦ rw here (
        above,
        described_address f b e.segment e.base named ((==_iff e.base f.base).0 here),
        rest,
      )
      | inr other ↦ elim (Bool-cases (ltb f.base e.base)) [
        | inl before ↦
            let lt : f.base < e.base = ground arith in
            rw (other, before)
              ((lt, Above-weaken f.base e.base es lt above), refl, (above, named, rest))
        | inr after ↦
            let lt : e.base < f.base = ground arith in
            rw (other, after)
              (add-Above e.base es f b lt above, named, add_snapshot_block-IsSorted es f b rest)
      ]
    ]

-- What is known of a segment while it is filled: it has the blocks `bs`, and `f` describes it.
pub record IsGathered (a : ℕ) (bs : List GpuMemoryBlockInfo) (f : SegmentFacts)
    (seg : GpuMemorySegmentInfo) : Type 0 where
  pub address : seg.address ≡ a
  pub total : seg.total_size ≡ f.size
  pub is_small : seg.is_small ≡ f.is_small
  pub is_expandable : seg.is_expandable ≡ f.is_expandable
  pub stream : seg.stream ≡ f.stream
  pub blocks : seg.blocks ≡ bs
  pub allocated : seg.allocated_size ≡ to_u64 (sum_of allocated_bytes bs)
  pub active : seg.active_size ≡ to_u64 (sum_of active_bytes bs)
  pub requested : seg.requested_size ≡ to_u64 (sum_of requested_bytes bs)

abbrev pub Gathered :
    ℕ → List GpuMemoryBlockInfo → Option SegmentFacts → Option GpuMemorySegmentInfo → Type 0
Gathered a bs none none = bs ≡ []
Gathered a bs none (some seg) = ⊥
Gathered a bs (some f) none = ⊥
Gathered a bs (some f) (some seg) = IsGathered a bs f seg

abbrev or_first : Option SegmentFacts → SegmentFacts → SegmentFacts
or_first none f = f
or_first (some g) f = g

abbrev or_blank : Option GpuMemorySegmentInfo → GpuMemorySegmentInfo
or_blank none = blank_segment
or_blank (some seg) = seg

entry_at-add_same :
    (es : List SegmentEntry) (f : SegmentFacts) (b : GpuMemoryBlockInfo)
    → IsSorted es
    → entry_at f.base (add_snapshot_block es f b)
      ≡ some (append_block b (describe f (or_blank (entry_at f.base es))))
unfolding entry_at add_snapshot_block
entry_at-add_same [] f b s = rw ((==_iff f.base f.base).1 refl) refl
entry_at-add_same (e ∷ es) f b (above, named, rest) = elim (Bool-cases (e.base == f.base)) [
  | inl here ↦ rw (here, here) refl
  | inr other ↦ elim (Bool-cases (ltb f.base e.base)) [
    | inl before ↦
        let lt : f.base < e.base = ground arith in
        rw
          (
            other,
            before,
            (==_iff f.base f.base).1 refl,
            entry_at-Above f.base es (Above-weaken f.base e.base es lt above),
          )
          refl
    | inr after ↦ rw (other, after, other) (entry_at-add_same es f b rest)
  ]
]

entry_at-add_other :
    (a : ℕ) (es : List SegmentEntry) (f : SegmentFacts) (b : GpuMemoryBlockInfo)
    → f.base ≢ a
    → entry_at a (add_snapshot_block es f b) ≡ entry_at a es
unfolding entry_at add_snapshot_block
entry_at-add_other a [] f b ne = ground (arith, ne)
entry_at-add_other a (e ∷ es) f b ne = ground (arith, ne, entry_at-add_other a es f b ne)

append-IsGathered :
    (a : ℕ) (bs : List GpuMemoryBlockInfo) (f g : SegmentFacts) (b : GpuMemoryBlockInfo)
    (seg : GpuMemorySegmentInfo)
    → a ≢ 0
    → IsGathered a bs g seg
    → IsGathered a (bs ++ b ∷ []) g (append_block b (describe f seg))
append-IsGathered a bs f g b seg real h =
    let known : (seg.address == 0) ≡ false = ground (arith, real, h.address) in
    rw known record {
      address = h.address;
      total = h.total;
      is_small = h.is_small;
      is_expandable = h.is_expandable;
      stream = h.stream;
      blocks = ap (λ xs. xs ++ b ∷ []) h.blocks;
      allocated = ground (arith, sum_of-append allocated_bytes bs (b ∷ []), h.allocated);
      active = ground (arith, sum_of-append active_bytes bs (b ∷ []), h.active);
      requested = ground (arith, sum_of-append requested_bytes bs (b ∷ []), h.requested);
    }

begin-IsGathered :
    (f : SegmentFacts) (b : GpuMemoryBlockInfo)
    → IsGathered f.base (b ∷ []) f (append_block b (describe f blank_segment))
begin-IsGathered f b = record {
  address = refl;
  total = refl;
  is_small = refl;
  is_expandable = refl;
  stream = refl;
  blocks = refl;
  allocated = ground arith;
  active = ground arith;
  requested = ground arith;
}

append-Gathered :
    (f : SegmentFacts) (b : GpuMemoryBlockInfo) (bs : List GpuMemoryBlockInfo)
    (known : Option SegmentFacts) (x : Option GpuMemorySegmentInfo)
    → f.base ≢ 0
    → Gathered f.base bs known x
    → Gathered f.base
        (bs ++ b ∷ [])
        (some (or_first known f))
        (some (append_block b (describe f (or_blank x))))
append-Gathered f b bs none none real h =
    subst (λ xs. IsGathered f.base (xs ++ b ∷ []) f (append_block b (describe f blank_segment)))
      (sym h) (begin-IsGathered f b)
append-Gathered f b bs none (some seg) real h = absurd h
append-Gathered f b bs (some g) none real h = absurd h
append-Gathered f b bs (some g) (some seg) real h = append-IsGathered f.base bs f g b seg real h

abbrev or_else : Option SegmentFacts → Option SegmentFacts → Option SegmentFacts
or_else none y = y
or_else (some f) y = some f

or_else-none : (x : Option SegmentFacts) → or_else x none ≡ x
or_else-none none = refl
or_else-none (some f) = refl

or_else-some :
    (x : Option SegmentFacts) (f : SegmentFacts) (y : Option SegmentFacts)
    → or_else (some (or_first x f)) y ≡ or_else x (some f)
or_else-some none f y = refl
or_else-some (some g) f y = refl

rest-Gathered :
    (a : ℕ) (adds : List (SegmentFacts × GpuMemoryBlockInfo)) (es : List SegmentEntry)
    (bs : List GpuMemoryBlockInfo) (known : Option SegmentFacts)
    → a ≢ 0
    → IsSorted es
    → Gathered a bs known (entry_at a es)
    → IsSorted (add_all es adds)
      × Gathered a
          (bs ++ blocks_at a adds)
          (or_else known (first_at a adds))
          (entry_at a (add_all es adds))
rest-Gathered a [] es bs known real s h = (s, rw (append-nil bs, or_else-none known) h)
rest-Gathered a ((f, b) ∷ rest) es bs known real s h =
    let s' = add_snapshot_block-IsSorted es f b s in
    elim (ℕ_discrete f.base a) [
      | yes same ↦
          let here : (f.base == a) ≡ true = (==_iff f.base a).1 same in
          let next : Gathered a (bs ++ b ∷ []) (some (or_first known f))
              (entry_at a (add_snapshot_block es f b)) =
            subst
              (λ k.
                Gathered k (bs ++ b ∷ []) (some (or_first known f))
                  (entry_at k (add_snapshot_block es f b)))
              same
              (subst (Gathered f.base (bs ++ b ∷ []) (some (or_first known f)))
                (sym (entry_at-add_same es f b s))
                (append-Gathered f b bs known (entry_at f.base es) (λ e. real (sym same ∙ e))
                  (subst (λ k. Gathered k bs known (entry_at k es)) (sym same) h))) in
          let (sorted, all) =
            rest-Gathered a rest (add_snapshot_block es f b) (bs ++ b ∷ [])
              (some (or_first known f)) real s' next in
          (
            sorted,
            rw here (
                subst
                  (λ xs.
                    Gathered a xs (or_else known (some f))
                      (entry_at a (add_all (add_snapshot_block es f b) rest)))
                  (append_assoc bs (b ∷ []) (blocks_at a rest))
                  (subst
                    (λ y.
                      Gathered a ((bs ++ b ∷ []) ++ blocks_at a rest) y
                        (entry_at a (add_all (add_snapshot_block es f b) rest)))
                    (or_else-some known f (first_at a rest)) all)),
          )
      | no other ↦
          let there : (f.base == a) ≡ false = ground (arith, other) in
          let (sorted, all) =
            rest-Gathered a rest (add_snapshot_block es f b) bs known real s'
              (subst (Gathered a bs known) (sym (entry_at-add_other a es f b other)) h) in
          (sorted, rw there all)
    ]

-- What is gathered under a key is what was considered with that base.
pub add_all-Gathered :
    (a : ℕ) (adds : List (SegmentFacts × GpuMemoryBlockInfo))
    → a ≢ 0
    → IsSorted (add_all [] adds)
      × Gathered a (blocks_at a adds) (first_at a adds) (entry_at a (add_all [] adds))
unfolding entry_at
add_all-Gathered a adds real = rest-Gathered a adds [] [] none real tt refl
