-- ===== src/Memory/Allocator/Victim.antt =====
-- The victim that `trim_cache_locked` of Library/Memory/gpu/cuda_caching_allocator.cpp chooses.
use xsigma.Common.{
  ℕ, ◌+◌, ◌≤◌, ◌<◌, ◌≡◌, ◌⊎◌, inl, inr, refl, true, false, Option, none, some, List, [], ◌∷◌, ltb,
  arith, if◌then◌else◌, Bool-cases,
}
use xsigma.Memory.Allocator.{CacheBlock, Heap, is_split}
use xsigma.Memory.Allocator.Fit.{In, here, there}
use xsigma.Memory.Allocator.Release.{better, find_victim}

-- No block of the list is a whole segment.
abbrev pub NoneWhole : Heap → List ℕ → Type 0
NoneWhole h ids = (i : ℕ) (b : CacheBlock) → In i ids → h i ≡ some b → is_split b ≡ true

-- A victim is a whole block, at least as large as each whole block of the list.
pub record IsLargest (h : Heap) (ids : List ℕ) (v : ℕ) (c : CacheBlock) : Type 0 where
  pub at : h v ≡ some c
  pub unsplit : is_split c ≡ false
  pub largest :
      (i : ℕ) (b : CacheBlock) → In i ids → h i ≡ some b → is_split b ≡ false → b.size ≤ c.size

-- The size of a victim, and one more, so that no victim counts as less than any.
abbrev value : Option (ℕ × CacheBlock) → ℕ
value none = 0
value (some (v, c)) = c.size + 1

better_grows :
    (h : Heap) (best : Option (ℕ × CacheBlock)) (i : ℕ) → value best ≤ value (better h best i)
better_grows h none i = omega arith
better_grows h (some (v, c)) i = ground arith

better_covers :
    (h : Heap) (best : Option (ℕ × CacheBlock)) (i : ℕ) (b : CacheBlock)
    → h i ≡ some b
    → is_split b ≡ false
    → b.size < value (better h best i)
better_covers h none i b at whole = ground arith
better_covers h (some (v, c)) i b at whole = ground arith

find_grows :
    (h : Heap) (ids : List ℕ) (best : Option (ℕ × CacheBlock))
    → value best ≤ value (find_victim h ids best)
unfolding find_victim
find_grows h [] best = omega arith
find_grows h (i ∷ ids) best =
    omega (arith, better_grows h best i, find_grows h ids (better h best i))

find_covers :
    (h : Heap) (ids : List ℕ) (best : Option (ℕ × CacheBlock)) (i : ℕ) (b : CacheBlock)
    → In i ids
    → h i ≡ some b
    → is_split b ≡ false
    → b.size < value (find_victim h ids best)
unfolding find_victim
find_covers h [] best i b m at whole = elim m [ ]
find_covers h (j ∷ ids) best i b (here _) at whole =
    omega (arith, better_covers h best i b at whole, find_grows h ids (better h best i))
find_covers h (j ∷ ids) best i b (there _ _ m) at whole =
    find_covers h ids (better h best j) i b m at whole

-- A victim is a whole block of the list.
abbrev Candidate : Heap → List ℕ → Option (ℕ × CacheBlock) → Type 0
Candidate h all none = Unit {0}
Candidate h all (some (v, c)) = In v all × (h v ≡ some c) × (is_split c ≡ false)

-- The two tests of `better`, on the block that it reads.
abbrev larger_of : ℕ → CacheBlock → Option (ℕ × CacheBlock) → Option (ℕ × CacheBlock)
larger_of i b o = elim o [
  | none ↦ some (i, b)
  | some (v, c) ↦ if ltb c.size b.size then some (i, b) else some (v, c)
]

abbrev better_of : ℕ → Option CacheBlock → Option (ℕ × CacheBlock) → Option (ℕ × CacheBlock)
better_of i x o = elim x [ none ↦ o | some b ↦ if is_split b then o else larger_of i b o ]

better-Candidate :
    (h : Heap) (all : List ℕ) (best : Option (ℕ × CacheBlock)) (i : ℕ)
    → In i all
    → Candidate h all best
    → Candidate h all (better h best i)
better-Candidate h all best i m k = go (h i) refl best k
  where
    pick :
        (b : CacheBlock)
        → h i ≡ some b
        → is_split b ≡ false
        → (o : Option (ℕ × CacheBlock)) → Candidate h all o
        → Candidate h all (larger_of i b o)
    pick b at whole none k = (m, at, whole)
    pick b at whole (some (v, c)) k = elim (Bool-cases (ltb c.size b.size)) [
      | inl larger ↦ rw (Candidate, larger) (m, at, whole)
      | inr not_larger ↦ rw (Candidate, not_larger) k
    ]

    go :
        (x : Option CacheBlock)
        → h i ≡ x
        → (o : Option (ℕ × CacheBlock)) → Candidate h all o
        → Candidate h all (better_of i x o)
    go none e o k = k
    go (some b) e o k = elim (Bool-cases (is_split b)) [
      | inl part ↦ rw (Candidate, part) k
      | inr whole ↦ rw (Candidate, whole) (pick b e whole o k)
    ]

find-Candidate :
    (h : Heap) (all ids : List ℕ) (best : Option (ℕ × CacheBlock))
    → ((i : ℕ) → In i ids → In i all)
    → Candidate h all best
    → Candidate h all (find_victim h ids best)
unfolding find_victim
find-Candidate h all [] best sub k = k
find-Candidate h all (i ∷ ids) best sub k =
    find-Candidate h all ids (better h best i) (λ j m. sub j (there i ids m))
      (better-Candidate h all best i (sub i (here ids)) k)

-- The search of `trim_cache` goes over all blocks: it finds nothing exactly if none of them is a whole
-- segment, and otherwise a whole segment of the list that none of the list exceeds in size.
pub find_victim-IsLargest :
    (h : Heap) (ids : List ℕ)
    → ((find_victim h ids none ≡ none) × NoneWhole h ids)
      ⊎ ((v : ℕ) × (c : CacheBlock) × (find_victim h ids none ≡ some (v, c))
          × In v ids
          × IsLargest h ids v c)
find_victim-IsLargest h ids =
    go (find_victim h ids none) refl (find-Candidate h ids ids none (λ i m. m) tt)
      (find_covers h ids none)
  where
    go :
        (o : Option (ℕ × CacheBlock))
        → find_victim h ids none ≡ o
        → Candidate h ids o
        → ((i : ℕ) (b : CacheBlock)
            → In i ids
            → h i ≡ some b
            → is_split b ≡ false
            → b.size < value o)
        → ((find_victim h ids none ≡ none) × NoneWhole h ids)
          ⊎ ((v : ℕ) × (c : CacheBlock) × (find_victim h ids none ≡ some (v, c))
              × In v ids
              × IsLargest h ids v c)
    go none e k covers = inl (
      e,
      λ i b m at. elim (Bool-cases (is_split b)) [
        | inl part ↦ part
        | inr whole ↦ absurd (omega (arith, covers i b m at whole))
      ],
    )
    go (some (v, c)) e (m, at, whole) covers = inr (
      v,
      c,
      e,
      m,
      record {
        at = at;
        unsplit = whole;
        largest = λ i b m' at' whole'. omega (arith, covers i b m' at' whole');
      },
    )
