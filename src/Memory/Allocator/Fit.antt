-- ===== src/Memory/Allocator/Fit.antt =====
-- The search in a free pool of Library/Memory/gpu/cuda_caching_allocator.cpp finds the best fit.
use xsigma.Common.{
  ℕ, ◌≤◌, ◌<◌, ◌≡◌, ◌≢◌, ◌⊎◌, inl, inr, refl, sym, ap, ◌∙◌, subst, Bool, true, false, Option, none,
  some, some_inj, List, [], ◌∷◌, ◌==◌, ==_iff, arith, Bool-cases, dec_lt, ℕ_discrete,
}
use xsigma.Memory.Allocator.{CacheBlock, Heap, Impl, pool_of}
use xsigma.Memory.Allocator.Pools.{
  Rank, before, rank_of, key_rank, lower_bound, erase_block, on_stream, get_free_block, take_block,
}

-- Each block of the pool exists, and none comes before one that stands ahead of it.
abbrev pub Behind : Heap → Rank → List ℕ → Type 0
Behind h r [] = Unit {0}
Behind h r (j ∷ js) =
    ((c : CacheBlock) × (h j ≡ some c) × (before (rank_of c) r ≡ false)) × Behind h r js

abbrev pub IsSorted : Heap → List ℕ → Type 0
IsSorted h [] = Unit {0}
IsSorted h (j ∷ js) = (c : CacheBlock) × (h j ≡ some c) × Behind h (rank_of c) js × IsSorted h js

-- `id` is in the list.
pub data In (id : ℕ) : List ℕ → Type 0 where
  here : (ids : List ℕ) → In id (id ∷ ids)
  there : (j : ℕ) (ids : List ℕ) → In id ids → In id (j ∷ ids)

Behind-In :
    (h : Heap) (r : Rank) (js : List ℕ) (i : ℕ) (c : CacheBlock)
    → Behind h r js
    → In i js
    → h i ≡ some c
    → before (rank_of c) r ≡ false
Behind-In h r [] i c b m at = elim m [ ]
Behind-In h r (j ∷ js) i c ((d, at_d, ge), rest) (here _) at =
    subst (λ x. before (rank_of x) r ≡ false) (some_inj (sym at_d ∙ at)) ge
Behind-In h r (j ∷ js) i c ((d, at_d, ge), rest) (there _ _ m) at = Behind-In h r js i c rest m at

Behind-erase :
    (h : Heap) (r : Rank) (id : ℕ) (js : List ℕ) → Behind h r js → Behind h r (erase_block id js)
unfolding erase_block
Behind-erase h r id [] b = tt
Behind-erase h r id (j ∷ js) (first, rest) = elim (Bool-cases (j == id)) [
  | inl same ↦ rw same rest
  | inr other ↦ rw other (first, Behind-erase h r id js rest)
]

erase_block-IsSorted :
    (h : Heap) (id : ℕ) (js : List ℕ) → IsSorted h js → IsSorted h (erase_block id js)
unfolding erase_block
erase_block-IsSorted h id [] s = tt
erase_block-IsSorted h id (j ∷ js) (c, at, behind, rest) = elim (Bool-cases (j == id)) [
  | inl same ↦ rw same rest
  | inr other ↦
      rw other (c, at, Behind-erase h (rank_of c) id js behind, erase_block-IsSorted h id js rest)
]

-- The first block that does not come before the key.
record IsBound (h : Heap) (r : Rank) (js : List ℕ) (id : ℕ) : Type 0 where
  block : CacheBlock
  at : h id ≡ some block
  member : In id js
  above : before (rank_of block) r ≡ false
  least :
      (i : ℕ) (c : CacheBlock)
      → In i js
      → h i ≡ some c
      → before (rank_of c) r ≡ false
      → before (rank_of c) (rank_of block) ≡ false

-- All blocks come before the key.
abbrev AllBefore : Heap → Rank → List ℕ → Type 0
AllBefore h r js = (i : ℕ) (c : CacheBlock) → In i js → h i ≡ some c → before (rank_of c) r ≡ true

lower_bound-cases :
    (h : Heap) (r : Rank) (js : List ℕ)
    → IsSorted h js
    → ((lower_bound h r js ≡ none) × AllBefore h r js)
      ⊎ ((id : ℕ) × (lower_bound h r js ≡ some id) × IsBound h r js id)
unfolding lower_bound
lower_bound-cases h r [] s = inl (refl, λ i c m at. elim m [ ])
lower_bound-cases h r (j ∷ js) (c, at, behind, rest) = elim (Bool-cases (before (rank_of c) r)) [
  | inr above ↦ inr (
    j,
    rw (at, above) refl,
    record { block = c; at = at; member = here js; above = above; least = least },
  )
  | inl below ↦ elim (lower_bound-cases h r js rest) [
    | inl (absent, all) ↦ inl (rw (at, below) absent, λ i d m at_d. all_before below all i d m at_d)
    | inr (id, found, bound) ↦ inr (
      id,
      rw (at, below) found,
      record {
        block = bound.block;
        at = bound.at;
        member = there j js bound.member;
        above = bound.above;
        least = λ i d m at_d ge. below_least below bound i d m at_d ge;
      },
    )
  ]
]
  where
    same_head : (d : CacheBlock) → h j ≡ some d → c ≡ d
    same_head d at_d = some_inj (sym at ∙ at_d)

    least :
        (i : ℕ) (d : CacheBlock)
        → In i (j ∷ js)
        → h i ≡ some d
        → before (rank_of d) r ≡ false
        → before (rank_of d) (rank_of c) ≡ false
    least i d (here _) at_d ge =
        subst (λ x. before (rank_of x) (rank_of c) ≡ false) (same_head d at_d) (ground arith)
    least i d (there _ _ m) at_d ge = Behind-In h (rank_of c) js i d behind m at_d

    all_before :
        before (rank_of c) r ≡ true
        → AllBefore h r js
        → (i : ℕ) (d : CacheBlock) → In i (j ∷ js)
        → h i ≡ some d
        → before (rank_of d) r ≡ true
    all_before below all i d (here _) at_d =
        subst (λ x. before (rank_of x) r ≡ true) (same_head d at_d) below
    all_before below all i d (there _ _ m) at_d = all i d m at_d

    below_least :
        {id : ℕ}
        → before (rank_of c) r ≡ true
        → (bound : IsBound h r js id) → (i : ℕ) (d : CacheBlock) → In i (j ∷ js)
        → h i ≡ some d
        → before (rank_of d) r ≡ false
        → before (rank_of d) (rank_of bound.block) ≡ false
    below_least below bound i d (here _) at_d ge =
        absurd
          (ground (arith, sym below ∙ (ap (λ x. before (rank_of x) r) (same_head d at_d) ∙ ge)))
    below_least below bound i d (there _ _ m) at_d ge = bound.least i d m at_d ge

-- The block that `get_free_block` takes for a request of `size` bytes on `stream` out of the blocks `js`.
pub record BestFit (h : Heap) (js : List ℕ) (stream size id : ℕ) : Type 0 where
  pub block : CacheBlock
  pub at : h id ≡ some block
  pub member : In id js
  pub same_stream : block.stream ≡ stream
  pub enough : size ≤ block.size
  pub smallest :
      (i : ℕ) (c : CacheBlock)
      → In i js
      → h i ≡ some c
      → c.stream ≡ stream
      → size ≤ c.size
      → block.size ≤ c.size
  pub oldest :
      (i : ℕ) (c : CacheBlock)
      → In i js
      → h i ≡ some c
      → c.stream ≡ stream
      → c.size ≡ block.size
      → block.registration_counter ≤ c.registration_counter

-- No block of `js` on the stream is large enough.
abbrev pub NoFit : Heap → List ℕ → ℕ → ℕ → Type 0
NoFit h js stream size =
    (i : ℕ) (c : CacheBlock) → In i js → h i ≡ some c → c.stream ≡ stream → c.size < size

fits_key :
    (c : CacheBlock) (size : ℕ)
    → size ≤ c.size
    → before (rank_of c) (key_rank c.stream size) ≡ false
fits_key c size le = ground arith

bound-BestFit :
    (h : Heap) (stream size : ℕ) (js : List ℕ) (id : ℕ)
    (bound : IsBound h (key_rank stream size) js id)
    → bound.block.stream ≡ stream
    → BestFit h js stream size id
bound-BestFit h stream size js id bound same = record {
  block = bound.block;
  at = bound.at;
  member = bound.member;
  same_stream = same;
  enough = enough;
  smallest = λ i c m at on le. ground (arith, bound.least i c m at (ground arith));
  oldest = λ i c m at on eq. ground (arith, bound.least i c m at (ground arith));
}
  where
    enough : size ≤ bound.block.size
    enough = ground (arith, bound.above)

bound-NoFit :
    (h : Heap) (stream size : ℕ) (js : List ℕ) (id : ℕ)
    (bound : IsBound h (key_rank stream size) js id)
    → bound.block.stream ≢ stream
    → NoFit h js stream size
bound-NoFit h stream size js id bound other i c m at on = elim (dec_lt c.size size) [
  | yes small ↦ small
  | no big ↦
      absurd (other (ground (arith, bound.above, bound.least i c m at (ground (arith, big)))))
]

-- What a call of `get_free_block` came to.
pub data Verdict (s : Impl) (is_small : Bool) (stream size : ℕ) : Option (ℕ × Impl) → Type 0 where
  nothing_fits : NoFit s.heap (pool_of s is_small) stream size → Verdict s is_small stream size none
  best_fit :
      (id : ℕ) (t : Impl)
      → BestFit s.heap (pool_of s is_small) stream size id
      → t.heap ≡ s.heap
      → pool_of t is_small ≡ erase_block id (pool_of s is_small)
      → IsSorted t.heap (pool_of t is_small)
      → Verdict s is_small stream size (some (id, t))

take_block-pool :
    (s : Impl) (is_small : Bool) (id : ℕ)
    → pool_of (take_block s is_small id) is_small ≡ erase_block id (pool_of s is_small)
take_block-pool s true id = refl
take_block-pool s false id = refl

-- In a pool that is in the order of the comparator, `get_free_block` finds nothing exactly if no cached
-- block on the stream is large enough. Otherwise it takes a block of the stream that is large enough, none
-- that is large enough is smaller, and none of that size is older; it leaves the pool, whose rest is in order.
pub get_free_block-Verdict :
    (s : Impl) (is_small : Bool) (stream size : ℕ)
    → IsSorted s.heap (pool_of s is_small)
    → Verdict s is_small stream size (get_free_block s is_small stream size)
unfolding get_free_block
get_free_block-Verdict s is_small stream size sorted =
    elim (lower_bound-cases s.heap (key_rank stream size) (pool_of s is_small) sorted) [
      | inl (absent, all) ↦
          rw (get_free_block, absent)
            (nothing_fits λ i c m at on. elim (dec_lt c.size size) [
              | yes small ↦ small
              | no big ↦ absurd (ground (arith, all i c m at, big, on))
            ])
      | inr (id, found, bound) ↦ elim (ℕ_discrete bound.block.stream stream) [
        | yes same ↦
            let on : on_stream stream (s.heap id) ≡ true =
              rw (bound.at) ((==_iff bound.block.stream stream).1 same) in
            rw (get_free_block, found, on)
              (best_fit id (take_block s is_small id)
                (bound-BestFit s.heap stream size (pool_of s is_small) id bound same) refl
                (take_block-pool s is_small id)
                (rw (take_block-pool s is_small id)
                  (erase_block-IsSorted s.heap id (pool_of s is_small) sorted)))
        | no other ↦
            let off : on_stream stream (s.heap id) ≡ false =
              rw (bound.at) (ground (arith, other)) in
            rw (get_free_block, found, off)
              (nothing_fits (bound-NoFit s.heap stream size (pool_of s is_small) id bound other))
      ]
    ]
