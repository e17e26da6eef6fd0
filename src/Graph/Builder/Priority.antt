-- ===== src/Graph/Builder/Priority.antt =====
-- The priorities of `graph_builder::build`: the number of nodes on the longest chain that starts
-- at a node.
use xsigma.Common.{
  ℕ, suc, ◌+◌, ◌^◌, ◌≤◌, ◌<◌, ◌≡◌, ◌∙◌, ◌≢◌, true, false, refl, ◌⊎◌, inl, inr, max, List, [], ◌∷◌,
  arith, dec_lt, ℕ_discrete, pigeonhole-le, foldl, ◌==◌, if◌then◌else◌, length, get_or, set, count,
  length-set, length-replicate, get_or-set, position,
}
use xsigma.Graph.Dependency.{to_u32}
use xsigma.Graph.Builder.{relax, bottom_levels}

-- A chain of `k` nodes from `id` along successors.
pub data Chain (succ : ℕ → List ℕ) : ℕ → ℕ → Type 0 where
  one : (id : ℕ) → Chain succ id 1
  more :
      (id : ℕ) {next k : ℕ} → 0 < count next (succ id) → Chain succ next k → Chain succ id (suc k)

-- `k` is the number of nodes on the longest chain from `id`.
pub record IsLongest (succ : ℕ → List ℕ) (id k : ℕ) : Type 0 where
  pub reached : Chain succ id k
  pub bound : (j : ℕ) → Chain succ id j → j ≤ k

==_refl : (a : ℕ) → (a == a) ≡ true
==_refl a = ground arith

==_ne : (a b : ℕ) → a ≢ b → (a == b) ≡ false
==_ne a b h = ground arith

greatest : ℕ → (ℕ → ℕ) → List ℕ → ℕ
greatest acc f = foldl (λ current target. max current (f target)) acc

-- The fold is an upper bound, and it is reached.
greatest-ge :
    (acc : ℕ) (f : ℕ → ℕ) (ts : List ℕ)
    → (acc ≤ greatest acc f ts) × ((t : ℕ) → 0 < count t ts → f t ≤ greatest acc f ts)
unfolding greatest count
greatest-ge acc f [] = (omega arith, λ t h. absurd (omega arith))
greatest-ge acc f (x ∷ ts) =
    let (low, each) = greatest-ge (max acc (f x)) f ts in
    (
      omega arith,
      λ t h. elim (ℕ_discrete t x) [
        | yes same ↦ rw same (omega arith)
        | no other ↦ each t (ground arith)
      ],
    )

greatest_reached :
    (acc : ℕ) (f : ℕ → ℕ) (ts : List ℕ)
    → (greatest acc f ts ≡ acc) ⊎ ((t : ℕ) × (0 < count t ts) × (greatest acc f ts ≡ f t))
unfolding greatest count
greatest_reached acc f [] = inl refl
greatest_reached acc f (x ∷ ts) = elim (greatest_reached (max acc (f x)) f ts) [
  | inl e ↦ elim (dec_lt acc (f x)) [
    | yes up ↦ inr (x, ground arith, omega arith)
    | no down ↦ inl (omega arith)
  ]
  | inr (t, h, e) ↦ inr (t, omega arith, e)
]

module _ (n : ℕ) (rows : List (List ℕ)) where
  abbrev pub succ_of : ℕ → List ℕ
  succ_of id = get_or rows id []

  -- Each node of `order` occurs once, and its successors stand behind it.
  pub record Downward (order : List ℕ) : Type 0 where
    pub once : (u : ℕ) → count u order ≤ 1
    pub inside : (u : ℕ) → 0 < count u order → u < n
    pub later :
        (u v : ℕ)
        → 0 < count u order
        → 0 < count v (succ_of u)
        → (0 < count v order) × (position u order < position v order)

  Downward-tail : (id : ℕ) (order : List ℕ) → Downward (id ∷ order) → Downward order
  unfolding count position
  Downward-tail id order d = record {
    once = λ u. omega (arith, d.once u);
    inside = λ u h. d.inside u (omega arith);
    later = λ u v h k. ground (arith, d.later u v, d.once u);
  }

  Downward-head :
      (id : ℕ) (order : List ℕ)
      → Downward (id ∷ order)
      → (v : ℕ) → 0 < count v (succ_of id)
      → 0 < count v order
  unfolding count position
  Downward-head id order d v k = ground (arith, d.later id v)

  pub record Leveled (order priority : List ℕ) : Type 0 where
    pub sized : length priority ≡ n
    pub low : (id : ℕ) → 0 < count id order → get_or priority id 0 ≤ length order
    pub longest : (id : ℕ) → 0 < count id order → IsLongest succ_of id (get_or priority id 0)

  Chain-bound :
      (id k : ℕ)
      → 1 ≤ k
      → ((v : ℕ) → 0 < count v (succ_of id) → (j : ℕ) → Chain succ_of v j → suc j ≤ k)
      → (j : ℕ) → Chain succ_of id j
      → j ≤ k
  Chain-bound id k pos each j (one _) = pos
  Chain-bound id k pos each j (more _ {next = v} {k = i} h c) = each v h i c

  Downward-length : (order : List ℕ) → Downward order → length order ≤ n
  Downward-length order d = pigeonhole-le n order (λ v h. ground (arith, d.inside v)) d.once

  module _ (small : n < 2 ^ 32) (id : ℕ) (order priority : List ℕ) (d : Downward (id ∷ order))
      (l : Leveled order priority) where
    abbrev level_of : ℕ → ℕ
    level_of target = to_u32 (get_or priority target 0 + 1)

    abbrev level : ℕ
    level = greatest 1 level_of (succ_of id)

    level_exact : (v : ℕ) → 0 < count v (succ_of id) → level_of v ≡ suc (get_or priority v 0)
    level_exact v h =
        omega (arith, l.low v (Downward-head id order d v h), Downward-length (id ∷ order) d)

    level-IsLongest : IsLongest succ_of id level
    level-IsLongest = record {
      reached = elim (greatest_reached 1 level_of (succ_of id)) [
        | inl e ↦ rw e (one id)
        | inr (v, h, e) ↦
            rw (e, level_exact v h) (more id h (l.longest v (Downward-head id order d v h)).reached)
      ];
      bound = Chain-bound id level (greatest-ge 1 level_of (succ_of id)).0 λ v h j c. omega (
        arith,
        (greatest-ge 1 level_of (succ_of id)).1 v h,
        level_exact v h,
        (l.longest v (Downward-head id order d v h)).bound j c,
      );
    }

    level-low : level ≤ suc (length order)
    level-low = elim (greatest_reached 1 level_of (succ_of id)) [
      | inl e ↦ omega arith
      | inr (v, h, e) ↦ omega (arith, level_exact v h, l.low v (Downward-head id order d v h))
    ]

    new_level :
        (v : ℕ)
        → get_or (set priority id level) v 0 ≡ (if v == id then level else get_or priority v 0)
    unfolding count
    new_level v = ground (arith, get_or-set priority id v level 0, l.sized, d.inside id)

    pub relax-Leveled : Leveled (id ∷ order) (relax rows id priority)
    unfolding relax greatest count
    relax-Leveled = record {
      sized = length-set priority id level ∙ l.sized;
      low = λ v h. ground (arith, new_level v, level-low, l.low v);
      longest = λ v h. elim (ℕ_discrete v id) [
        | yes same ↦ rw (same, new_level id, ==_refl id) level-IsLongest
        | no other ↦ rw (new_level v, ==_ne v id other) (l.longest v (ground arith))
      ];
    }

  bottom_levels-Leveled :
      n < 2 ^ 32 → (order : List ℕ) → Downward order → Leveled order (bottom_levels n rows order)
  unfolding bottom_levels count
  bottom_levels-Leveled small [] d = record {
    sized = length-replicate n 1;
    low = λ id h. absurd (omega arith);
    longest = λ id h. absurd (omega arith);
  }
  bottom_levels-Leveled small (id ∷ order) d =
      relax-Leveled small id order (bottom_levels n rows order) d
        (bottom_levels-Leveled small order (Downward-tail id order d))

  -- Every node gets the length of its longest chain.
  pub bottom_levels-IsLongest :
      n < 2 ^ 32
      → (order : List ℕ) → Downward order
      → (id : ℕ) → 0 < count id order
      → IsLongest succ_of id (get_or (bottom_levels n rows order) id 0)
  bottom_levels-IsLongest small order d = (bottom_levels-Leveled small order d).longest
