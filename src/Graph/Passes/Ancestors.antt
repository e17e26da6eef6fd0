-- ===== src/Graph/Passes/Ancestors.antt =====
-- `ancestor_set` of graph_passes.cpp: the flags are set exactly at the sinks and at what they
-- depend on.
use xsigma.Common.{
  ℕ, zero, suc, ◌+◌, ◌≤◌, ◌<◌, ◌≡◌, refl, ap, ◌∙◌, subst, Bool, true, false, ◌⊎◌, inl, inr, ◌↔◌,
  List, [], ◌∷◌, foldl, arith, ltb, Bool-cases, List-cases, length, get_or, set, replicate, count,
  to_nat, get_or-set, length-set, length-replicate, get_or-replicate_self,
}
use xsigma.Graph.Dependency.{DependencyGraph, IsFrozen, node_count, dependency_range}
use xsigma.Graph.Passes.{Search, visit, seed, walk, start, ancestor_set}

-- The flags that are still clear.
unseen : List Bool → ℕ
unseen [] = 0
unseen (false ∷ bs) = suc (unseen bs)
unseen (true ∷ bs) = unseen bs

unseen-set :
    (bs : List Bool) (i : ℕ) → get_or bs i true ≡ false → suc (unseen (set bs i true)) ≡ unseen bs
unfolding unseen
unseen-set [] i h = cc
unseen-set (b ∷ bs) zero h = rw h
unseen-set (false ∷ bs) (suc i) h = ap suc (unseen-set bs i h)
unseen-set (true ∷ bs) (suc i) h = unseen-set bs i h

unseen-blank : (n : ℕ) → unseen (replicate n false) ≡ n
unfolding unseen
unseen-blank zero = refl
unseen-blank (suc n) = ap suc (unseen-blank n)

flag_defaults :
    (bs : List Bool) (i : ℕ)
    → (get_or bs i true ≡ false) ↔ ((get_or bs i false ≡ false) × (i < length bs))
flag_defaults [] i = ground arith
flag_defaults (b ∷ bs) zero = ground arith
flag_defaults (b ∷ bs) (suc i) = ground (arith, flag_defaults bs i)

abbrev pub kept : Search → ℕ → Bool
kept s v = get_or s.keep v false

-- What offering the nodes `ids` does to a search `s`.
record Offered (ids : List ℕ) (s r : Search) : Type 0 where
  sized : length r.keep ≡ length s.keep
  flags :
      (v : ℕ) → (kept r v ≡ true) ↔ ((kept s v ≡ true) ⊎ ((0 < count v ids) × (v < length s.keep)))
  stacked : (v : ℕ) → count v r.stack + to_nat (kept s v) ≡ count v s.stack + to_nat (kept r v)
  work : unseen r.keep + length r.stack ≡ unseen s.keep + length s.stack

Offered-nil : (s : Search) → Offered [] s s
unfolding count
Offered-nil s = record { sized = refl; flags = λ v. ground arith; stacked = λ v. refl; work = refl }

visit-Offered : (s : Search) (id : ℕ) → Offered (id ∷ []) s (visit s id)
unfolding visit count
visit-Offered s id = elim (Bool-cases (get_or s.keep id true)) [
  | inl old ↦ rw old (record {
    sized = refl;
    flags = λ v. ground (arith, flag_defaults s.keep id);
    stacked = λ v. refl;
    work = refl;
  })
  | inr new ↦ rw new (record {
    sized = length-set s.keep id true;
    flags = λ v. ground (arith, flag_defaults s.keep id, get_or-set s.keep id v true false);
    stacked = λ v. ground (arith, flag_defaults s.keep id, get_or-set s.keep id v true false);
    work = omega (arith, unseen-set s.keep id new);
  })
]

Offered-cons :
    (id : ℕ) (ids : List ℕ) (s t r : Search)
    → Offered (id ∷ []) s t
    → Offered ids t r
    → Offered (id ∷ ids) s r
unfolding count
Offered-cons id ids s t r a b = record {
  sized = b.sized ∙ a.sized;
  flags = λ v. ground (arith, a.flags v, b.flags v, a.sized);
  stacked = λ v. omega (arith, a.stacked v, b.stacked v);
  work = b.work ∙ a.work;
}

visits-Offered : (ids : List ℕ) (s : Search) → Offered ids s (foldl visit s ids)
visits-Offered [] s = Offered-nil s
visits-Offered (id ∷ ids) s =
    Offered-cons id ids s (visit s id) _ (visit-Offered s id) (visits-Offered ids (visit s id))

seed-Offered : (s : Search) (id : ℕ) → Offered (id ∷ []) s (seed (length s.keep) s id)
unfolding seed
seed-Offered s id = elim (Bool-cases (ltb id (length s.keep))) [
  | inl inside ↦ rw inside (visit-Offered s id)
  | inr outside ↦ rw outside (
      unfold count in
      record { sized = refl; flags = λ v. ground arith; stacked = λ v. refl; work = refl })
]

seeds-Offered :
    (n : ℕ) (ids : List ℕ) (s : Search) → length s.keep ≡ n → Offered ids s (foldl (seed n) s ids)
seeds-Offered n [] s h = Offered-nil s
seeds-Offered n (id ∷ ids) s h =
    let step = subst (λ m. Offered (id ∷ []) s (seed m s id)) h (seed-Offered s id) in
    Offered-cons id ids s (seed n s id) _ step (seeds-Offered n ids (seed n s id) (step.sized ∙ h))

module _ {W : Type 0} (g : DependencyGraph W) (sinks : List ℕ) where
  -- The sinks in the graph, and what they depend on.
  pub data Ancestor : ℕ → Type 0 where
    sink : (v : ℕ) → 0 < count v sinks → v < node_count g → Ancestor v
    needed : (u v : ℕ) → Ancestor v → 0 < count u (dependency_range g v) → Ancestor u

  record Inv (s : Search) : Type 0 where
    sized : length s.keep ≡ node_count g
    stacked : (v : ℕ) → 0 < count v s.stack → kept s v ≡ true
    sound : (v : ℕ) → kept s v ≡ true → Ancestor v
    seeded : (v : ℕ) → 0 < count v sinks → v < node_count g → kept s v ≡ true
    closed :
        (v u : ℕ)
        → kept s v ≡ true
        → 0 < count u (dependency_range g v)
        → (0 < count v s.stack) ⊎ (kept s u ≡ true)

  start-Offered :
      Offered sinks (record { keep = replicate (node_count g) false; stack = [] }) (start g sinks)
  unfolding start
  start-Offered = seeds-Offered (node_count g) sinks _ (length-replicate (node_count g) false)

  start-Inv :
      Inv (start g sinks)
      × (unseen (start g sinks).keep + length (start g sinks).stack ≡ node_count g)
  unfolding count
  start-Inv =
      let o = start-Offered in
      let blank = λ (v : ℕ). get_or-replicate_self (node_count g) v false in
      let size = length-replicate (node_count g) false in
      (
        record {
          sized = o.sized ∙ size;
          stacked = λ v h. ground (arith, o.stacked v, blank v);
          sound = λ v h. elim ((o.flags v).0 h) [
            | inl old ↦ cc (blank v)
            | inr (listed, lt) ↦ sink v listed (omega arith)
          ];
          seeded = λ v h lt. (o.flags v).1 (inr (h, omega arith));
          closed = λ v u h k. inl (ground (arith, o.stacked v, blank v));
        },
        omega (arith, o.work, unseen-blank (node_count g)),
      )

  module _ (frozen : IsFrozen g) where
    expand-Inv :
        (s : Search) (id : ℕ) (rest : List ℕ)
        → s.stack ≡ id ∷ rest
        → Inv s
        → Inv (foldl visit (record s { stack = rest }) (dependency_range g id))
          × (suc (
                unseen (foldl visit (record s { stack = rest }) (dependency_range g id)).keep
                + length (foldl visit (record s { stack = rest }) (dependency_range g id)).stack)
              ≡ unseen s.keep + length s.stack)
    unfolding count
    expand-Inv s id rest e inv =
        let o = visits-Offered (dependency_range g id) (record s { stack = rest }) in
        let popped = λ (v : ℕ). ap (count v) e in
        (
          record {
            sized = o.sized ∙ inv.sized;
            stacked = λ v h. ground (arith, o.stacked v, o.flags v, popped v, inv.stacked v);
            sound = λ v h. elim ((o.flags v).0 h) [
              | inl old ↦ inv.sound v old
              | inr (listed, lt) ↦
                  needed v id (inv.sound id (inv.stacked id (ground (arith, popped id)))) listed
            ];
            seeded = λ v h lt. (o.flags v).1 (inl (inv.seeded v h lt));
            closed = λ v u h k. ground (
              arith,
              o.flags v,
              o.flags u,
              o.stacked v,
              popped v,
              inv.closed v u,
              frozen.below u v,
              inv.sized,
            );
          },
          omega (arith, o.work, ap length e),
        )

    walk-Inv :
        (fuel : ℕ) (s : Search)
        → Inv s
        → unseen s.keep + length s.stack ≤ fuel
        → Inv (walk g fuel s) × ((walk g fuel s).stack ≡ [])
    unfolding walk
    walk-Inv zero s inv h = elim (List-cases s.stack) [
      | inl e ↦ (inv, e)
      | inr (id, rest, e) ↦ absurd (omega (arith, ap length e))
    ]
    walk-Inv (suc fuel) s inv h = elim (List-cases s.stack) [
      | inl e ↦ rw (e, walk) (inv, e)
      | inr (id, rest, e) ↦
          let (next, less) = expand-Inv s id rest e inv in
          rw (e, walk) (walk-Inv fuel _ next (omega arith))
    ]

    complete : (s : Search) → Inv s → s.stack ≡ [] → {v : ℕ} → Ancestor v → kept s v ≡ true
    unfolding count
    complete s inv e (sink v h lt) = inv.seeded v h lt
    complete s inv e (needed u v a k) = elim (inv.closed v u (complete s inv e a) k) [
      | inl waiting ↦ absurd (omega (arith, ap (count v) e))
      | inr flag ↦ flag
    ]

    -- `ancestor_set` has a flag for each node; a flag is set exactly if its node is a sink or if
    -- a sink depends on it, directly or through other nodes. Sinks outside the graph are ignored.
    pub ancestor_set-Ancestor :
        (length (ancestor_set g sinks) ≡ node_count g)
        × ((v : ℕ) → (get_or (ancestor_set g sinks) v false ≡ true) ↔ Ancestor v)
    unfolding ancestor_set
    ancestor_set-Ancestor =
        let (first, size) = start-Inv in
        let (inv, drained) = walk-Inv (node_count g) (start g sinks) first (omega arith) in
        (inv.sized, λ v. (inv.sound v, complete _ inv drained))
