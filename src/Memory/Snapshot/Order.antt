-- ===== src/Memory/Snapshot/Order.antt =====
-- The blocks of a segment in a snapshot are sorted by address.
use xsigma.Common.{ℕ, ◌+◌, ◌≤◌, ◌≡◌, refl, List, [], ◌∷◌, ◌++◌, arith, leb, Bool-cases, inl, inr}
use xsigma.Memory.Snapshot.{GpuMemoryBlockInfo, insert_block, sort_blocks}

-- The sum of a quantity over some blocks.
abbrev pub sum_of : (GpuMemoryBlockInfo → ℕ) → List GpuMemoryBlockInfo → ℕ
sum_of f [] = 0
sum_of f (b ∷ bs) = f b + sum_of f bs

pub sum_of-append :
    (f : GpuMemoryBlockInfo → ℕ) (xs ys : List GpuMemoryBlockInfo)
    → sum_of f (xs ++ ys) ≡ sum_of f xs + sum_of f ys
sum_of-append f [] ys = omega arith
sum_of-append f (x ∷ xs) ys = omega (arith, sum_of-append f xs ys)

insert_block-sum_of :
    (f : GpuMemoryBlockInfo → ℕ) (b : GpuMemoryBlockInfo) (cs : List GpuMemoryBlockInfo)
    → sum_of f (insert_block b cs) ≡ f b + sum_of f cs
unfolding insert_block
insert_block-sum_of f b [] = refl
insert_block-sum_of f b (c ∷ cs) = ground (arith, insert_block-sum_of f b cs)

pub sort_blocks-sum_of :
    (f : GpuMemoryBlockInfo → ℕ) (bs : List GpuMemoryBlockInfo)
    → sum_of f (sort_blocks bs) ≡ sum_of f bs
unfolding sort_blocks
sort_blocks-sum_of f [] = refl
sort_blocks-sum_of f (b ∷ bs) =
    omega (arith, insert_block-sum_of f b (sort_blocks bs), sort_blocks-sum_of f bs)

-- The blocks of a finished segment stand by rising address.
abbrev pub IsOrdered : List GpuMemoryBlockInfo → Type 0
IsOrdered [] = Unit {0}
IsOrdered (b ∷ []) = Unit {0}
IsOrdered (b ∷ c ∷ bs) = (b.address ≤ c.address) × IsOrdered (c ∷ bs)

insert_block-IsOrdered :
    (b : GpuMemoryBlockInfo) (cs : List GpuMemoryBlockInfo)
    → IsOrdered cs
    → IsOrdered (insert_block b cs)
unfolding insert_block
insert_block-IsOrdered b [] h = tt
insert_block-IsOrdered b (c ∷ []) h = ground arith
insert_block-IsOrdered b (c ∷ d ∷ ds) (le, h) = elim (Bool-cases (leb b.address c.address)) [
  | inl first ↦ rw first (ground arith, (le, h))
  | inr later ↦ elim (Bool-cases (leb b.address d.address)) [
    | inl second ↦ rw (later, second) (ground arith, (ground arith, h))
    | inr third ↦ rw (later, third) (le, (rw third at (insert_block-IsOrdered b (d ∷ ds) h)))
  ]
]

pub sort_blocks-IsOrdered : (bs : List GpuMemoryBlockInfo) → IsOrdered (sort_blocks bs)
unfolding sort_blocks
sort_blocks-IsOrdered [] = tt
sort_blocks-IsOrdered (b ∷ bs) =
    insert_block-IsOrdered b (sort_blocks bs) (sort_blocks-IsOrdered bs)
