-- ===== src/Graph/Executor/Incremental.antt =====
-- `run_incremental` of Library/Graph/graph_executor.cpp recomputes enough: with a cache of an earlier
-- run it computes what a full run of the new graph computes.
use xsigma.Common.{
  subst, some_inj, ℕ, zero, suc, ◌≤◌, ◌<◌, ◌≡◌, refl, sym, ap, ◌∙◌, Bool, true, false, not, ◌&&◌,
  ◌||◌, inl, inr, Option, none, some, List, [], ◌∷◌, map, foldl, arith, Bool-cases, ltb, ◌==◌,
  ==_iff, if◌then◌else◌, length, get_or, get_or-set, length-set, count, position, range, length-map,
  length-range_from, get_or-map-range, get_or_default,
}
use xsigma.Graph.Dependency.{
  DependencyGraph, Node, IsFrozen, node_count, node_at, dependency_range, version,
}
use xsigma.Graph.Executor.Step.{
  NodeWork, Attempt, returned, threw, threw_unknown, Plan, unknown_text, work_of,
}
use xsigma.Graph.Executor.Plan.{
  full_plan, incremental_plan, seed_dirty, any_dirty, propagate, dirty_nodes, missing,
}
use xsigma.Graph.Executor.Dataflow.{
  Outcome, value, raised, skipped, shown, any_failing, attempted, is_clean, compute, IsSolution,
}
use xsigma.Graph.Executor.Solve.{outcome_of, outcome_of-IsSolution, solutions_agree, map-congr}

module _ {V : Type 0} (g : DependencyGraph (NodeWork V)) where
  propagate-at :
      (flags : List Bool) (x v : ℕ)
      → get_or (propagate g flags x) v false ≡ (
          if (v == x) && (ltb x (length flags) && any_dirty g flags (dependency_range g x))
          then true
          else get_or flags v false)
  unfolding propagate
  propagate-at flags x v = ground (arith, get_or-set flags x v true false)

  length-propagate : (flags : List Bool) (x : ℕ) → length (propagate g flags x) ≡ length flags
  unfolding propagate
  length-propagate flags x = ground (arith, length-set flags x true)

  spread_other :
      (xs : List ℕ) (flags : List Bool) (v : ℕ)
      → count v xs ≡ 0
      → get_or (foldl (propagate g) flags xs) v false ≡ get_or flags v false
  unfolding count
  spread_other [] flags v h = refl
  spread_other (x ∷ xs) flags v h =
      spread_other xs (propagate g flags x) v (omega arith)
      ∙ (propagate-at flags x v ∙ ground arith)

  spread_keeps :
      (xs : List ℕ) (flags : List Bool) (v : ℕ)
      → get_or flags v false ≡ true
      → get_or (foldl (propagate g) flags xs) v false ≡ true
  spread_keeps [] flags v h = h
  spread_keeps (x ∷ xs) flags v h =
      spread_keeps xs (propagate g flags x) v (propagate-at flags x v ∙ ground arith)

  any_dirty_none :
      (flags : List Bool) (ds : List ℕ)
      → any_dirty g flags ds ≡ false
      → (u : ℕ) → 0 < count u ds
      → get_or flags u false ≡ false
  unfolding any_dirty count
  any_dirty_none flags [] h u k = absurd (omega arith)
  any_dirty_none flags (d ∷ ds) h u k =
      let later : any_dirty g flags ds ≡ false → 0 < count u ds → get_or flags u false ≡ false =
        λ e. any_dirty_none flags ds e u in
      ground arith

  -- A node that stays clean has only clean dependencies.
  spread_closed :
      (xs : List ℕ) (flags : List Bool) (v u : ℕ)
      → ((w : ℕ) → count w xs ≤ 1)
      → v < length flags
      → 0 < count v xs
      → 0 < count u (dependency_range g v)
      → ((0 < count u xs) → position u xs < position v xs)
      → get_or (foldl (propagate g) flags xs) v false ≡ false
      → get_or (foldl (propagate g) flags xs) u false ≡ false
  unfolding count position
  spread_closed [] flags v u once lt here dep before clean = absurd (omega arith)
  spread_closed (x ∷ xs) flags v u once lt here dep before clean = elim (Bool-cases (v == x)) [
    | inl same ↦
        let gone_v : count v xs ≡ 0 = ground (arith, once v) in
        let gone_u : count u (x ∷ xs) ≡ 0 = ground (arith, before, same) in
        let was = sym (spread_other xs (propagate g flags x) v gone_v) ∙ clean in
        let none_dirty : any_dirty g flags (dependency_range g v) ≡ false = ground (
          arith,
          was,
          propagate-at flags x v,
          same,
          ap (λ w. any_dirty g flags (dependency_range g w)) ((==_iff v x).0 same),
          (==_iff v x).0 same,
        ) in
        spread_other (x ∷ xs) flags u gone_u
        ∙ any_dirty_none flags (dependency_range g v) none_dirty u dep
    | inr other ↦
        spread_closed xs (propagate g flags x) v u (λ w. ground (arith, once w))
          (omega (arith, length-propagate flags x)) (ground arith) dep
          (λ k. ground (arith, once u, before, other)) clean
  ]

  module _ (frozen : IsFrozen g) (baseline : List ℕ) (cache : ℕ → Option V) where
    seed_at :
        (v : ℕ)
        → v < node_count g
        → get_or (seed_dirty g baseline cache) v false
          ≡ (not (version g v == get_or baseline v 0) || missing g (cache v))
    unfolding seed_dirty
    seed_at v lt =
        get_or-map-range (λ id. not (version g id == get_or baseline id 0) || missing g (cache id))
          (node_count g) v false lt

    seed-length : length (seed_dirty g baseline cache) ≡ node_count g
    unfolding seed_dirty
    seed-length =
        length-map (λ id. not (version g id == get_or baseline id 0) || missing g (cache id))
          (range (node_count g))
        ∙ length-range_from 0 (node_count g)

    -- A clean node has the version of the baseline and a cached result, and only clean
    -- dependencies.
    pub clean_node :
        (v : ℕ)
        → v < node_count g
        → get_or (dirty_nodes g baseline cache) v false ≡ false
        → (version g v ≡ get_or baseline v 0)
          × (missing g (cache v) ≡ false)
          × ((u : ℕ)
              → 0 < count u (dependency_range g v)
              → get_or (dirty_nodes g baseline cache) u false ≡ false)
    unfolding dirty_nodes
    clean_node v lt clean =
        let first : get_or (seed_dirty g baseline cache) v false ≡ false =
          elim (Bool-cases (get_or (seed_dirty g baseline cache) v false)) [
            | inl bad ↦ absurd (
                ground (
                  arith,
                  spread_keeps g.topological_order (seed_dirty g baseline cache) v bad,
                  clean,
                ))
            | inr good ↦ good
          ] in
        let start = seed_at v lt in
        (
          ground (arith, first, start),
          ground (arith, first, start),
          λ u dep.
              spread_closed g.topological_order (seed_dirty g baseline cache) v u
                (λ w. ground (arith, frozen.ordered w)) (omega (arith, lt, seed-length))
                (ground (arith, frozen.ordered v, lt)) dep (λ _. frozen.precedes v u dep) clean,
        )

    dirty-length : length (dirty_nodes g baseline cache) ≡ node_count g
    unfolding dirty_nodes
    dirty-length = go g.topological_order (seed_dirty g baseline cache) ∙ seed-length
      where
        go :
            (xs : List ℕ) (flags : List Bool) → length (foldl (propagate g) flags xs) ≡ length flags
        go [] flags = refl
        go (x ∷ xs) flags = go xs (propagate g flags x) ∙ length-propagate flags x

module _ {V : Type 0} (nothing : V) where
  any_failing-plan :
      (p q : Plan V) (os : List (Outcome V)) → any_failing nothing p os ≡ any_failing nothing q os
  unfolding any_failing
  any_failing-plan p q [] = refl
  any_failing-plan p q (value x ∷ os) = any_failing-plan p q os
  any_failing-plan p q (raised m ∷ os) = refl
  any_failing-plan p q (skipped ∷ os) = refl

  map-shown-plan :
      (p q : Plan V) (os : List (Outcome V)) → map (shown nothing p) os ≡ map (shown nothing q) os
  map-shown-plan p q [] = refl
  map-shown-plan p q (value x ∷ os) = ap (λ xs. x ∷ xs) (map-shown-plan p q os)
  map-shown-plan p q (raised m ∷ os) = ap (λ xs. nothing ∷ xs) (map-shown-plan p q os)
  map-shown-plan p q (skipped ∷ os) = ap (λ xs. nothing ∷ xs) (map-shown-plan p q os)

  attempt-plan :
      (p q : Plan V) (node : Option (Node (NodeWork V))) (xs : List V)
      → attempted nothing p (unknown_text nothing p node) (work_of nothing p node xs)
        ≡ attempted nothing q (unknown_text nothing q node) (work_of nothing q node xs)
  unfolding work_of
  attempt-plan p q none xs = refl
  attempt-plan p q (some node) xs = go (node.work xs)
    where
      go :
          (a : Attempt V)
          → attempted nothing p (unknown_text nothing p (some node)) a
            ≡ attempted nothing q (unknown_text nothing q (some node)) a
      go (returned x) = refl
      go (threw m) = refl
      go threw_unknown = refl

  -- Two plans compute a node alike if both run its work and the work is the same.
  compute-plan :
      (p q : Plan V) (v : ℕ) (os : List (Outcome V))
      → is_clean nothing p v ≡ false
      → is_clean nothing q v ≡ false
      → node_at p.graph v ≡ node_at q.graph v
      → compute nothing p v os ≡ compute nothing q v os
  unfolding compute
  compute-plan p q v os cp cq same =
      rw
        (
          cp,
          cq,
          any_failing-plan p q os,
          map-shown-plan p q os,
          same,
          attempt-plan p q (node_at q.graph v) (map (shown nothing q) os),
        )
        refl

  -- A node that computes a value has no failing input.
  value_inputs :
      (p : Plan V) (v : ℕ) (os : List (Outcome V)) (x : V)
      → compute nothing p v os ≡ value x
      → any_failing nothing p os ≡ false
  unfolding compute
  value_inputs p v os x e = elim (Bool-cases (any_failing nothing p os)) [
    | inl bad ↦ absurd (no_value (rw bad at e))
    | inr good ↦ good
  ]
    where
      no_value : {x : V} → skipped ≡ value x → ⊥
      no_value e = cc

-- The work of a node.
abbrev pub work_at : {V : Type 0} → DependencyGraph (NodeWork V) → ℕ → Option (NodeWork V)
work_at g v = elim (node_at g v) [ none ↦ none | some node ↦ some node.work ]

module _ {V : Type 0} (nothing : V) where
  same_attempt :
      (p q : Plan V) (n m : Option (Node (NodeWork V))) (xs : List V) (x : V)
      → elim n [ none ↦ none | some node ↦ some node.work ]
        ≡ elim m [ none ↦ none | some node ↦ some node.work ]
      → attempted nothing q (unknown_text nothing q m) (work_of nothing q m xs) ≡ value x
      → attempted nothing p (unknown_text nothing p n) (work_of nothing p n xs) ≡ value x
  unfolding work_of
  same_attempt p q none none xs x e h = cc
  same_attempt p q none (some m) xs x e h = cc
  same_attempt p q (some n) none xs x e h = cc
  same_attempt p q (some n) (some m) xs x e h =
      subst (λ w. attempted nothing p (unknown_text nothing p (some n)) (w xs) ≡ value x)
        (sym (some_inj e)) (go (m.work xs) h)
    where
      go :
          (a : Attempt V)
          → attempted nothing q (unknown_text nothing q (some m)) a ≡ value x
          → attempted nothing p (unknown_text nothing p (some n)) a ≡ value x
      go (returned y) h = h
      go (threw y) h = cc
      go threw_unknown h = cc

  -- A node that computes a value in one plan computes it in another that runs the same work.
  compute-value :
      (p q : Plan V) (v : ℕ) (os : List (Outcome V)) (x : V)
      → is_clean nothing p v ≡ false
      → is_clean nothing q v ≡ false
      → work_at p.graph v ≡ work_at q.graph v
      → compute nothing q v os ≡ value x
      → compute nothing p v os ≡ value x
  unfolding compute
  compute-value p q v os x cp cq same h =
      let fine = value_inputs nothing q v os x h in
      rw (any_failing-plan nothing p q os, fine, cp, map-shown-plan nothing p q os)
        (same_attempt p q (node_at p.graph v) (node_at q.graph v) (map (shown nothing q) os) x same
          (rw (fine, cq) at h))

module _ {V : Type 0} (nothing : V) (old g : DependencyGraph (NodeWork V))
    (old_frozen : IsFrozen old) (frozen : IsFrozen g) where
  module _ (baseline : List ℕ) (cache : ℕ → Option V)
      (unmoved : (v : ℕ)
        → v < node_count g
        → version g v ≡ get_or baseline v 0
        → (v < node_count old)
          × (work_at g v ≡ work_at old v)
          × (dependency_range g v ≡ dependency_range old v))
      (cached : (v : ℕ) (x : V)
        → cache v ≡ some x
        → outcome_of nothing (full_plan old) v ≡ value x) where
    abbrev plan : Plan V
    plan = incremental_plan g baseline cache

    -- What a clean node has in the cache is what a full run of the new graph computes there.
    clean_value :
        (depth v : ℕ)
        → position v g.topological_order < depth
        → v < node_count g
        → get_or (dirty_nodes g baseline cache) v false ≡ false
        → (x : V) × (cache v ≡ some x) × (outcome_of nothing (full_plan g) v ≡ value x)
    clean_value zero v h lt clean = absurd (omega arith)
    clean_value (suc depth) v h lt clean =
        let (same_version, kept, inputs) = clean_node g frozen baseline cache v lt clean in
        let (old_lt, same_work, same_inputs) = unmoved v lt same_version in
        let (x, hit) = present (cache v) refl kept in
        let agree =
          map-congr nothing (full_plan g) (outcome_of nothing (full_plan g))
            (outcome_of nothing (full_plan old)) (dependency_range g v)
            (λ u dep.
              let (y, hit_u, new_u) =
                clean_value depth u (omega (arith, frozen.precedes v u dep))
                  (frozen.below u v dep).0 (inputs u dep) in
              new_u ∙ sym (cached u y hit_u)) in
        (
          x,
          hit,
          outcome_of-IsSolution nothing (full_plan g) frozen v (lt, refl)
              ∙ compute-value nothing (full_plan g) (full_plan old) v
                  (map (outcome_of nothing (full_plan g)) (dependency_range g v)) x refl refl
                  same_work
                  (ap (compute nothing (full_plan old) v)
                      (agree ∙ ap (map (outcome_of nothing (full_plan old))) same_inputs)
                    ∙ sym
                        (outcome_of-IsSolution nothing (full_plan old) old_frozen v (old_lt, refl))
                    ∙ cached v x hit),
        )
      where
        present : (o : Option V) → cache v ≡ o → missing g o ≡ false → (x : V) × (cache v ≡ some x)
        present none e h = cc
        present (some x) e h = (x, e)

    served_outcome :
        (v : ℕ) (os : List (Outcome V)) (x : V)
        → any_failing nothing plan os ≡ false
        → is_clean nothing plan v ≡ true
        → cache v ≡ some x
        → compute nothing plan v os ≡ value x
    unfolding compute
    served_outcome v os x fine clean hit = rw (fine, clean, hit) refl

    full_solves : IsSolution nothing plan (outcome_of nothing (full_plan g))
    full_solves v t =
        let os = map (outcome_of nothing (full_plan g)) (dependency_range g v) in
        let full = outcome_of-IsSolution nothing (full_plan g) frozen v t in
        let in_range =
          get_or_default (dirty_nodes g baseline cache) v true false
            (omega (arith, t.0, dirty-length g frozen baseline cache)) in
        elim (Bool-cases (is_clean nothing plan v)) [
          | inr runs ↦ full ∙ compute-plan nothing (full_plan g) plan v os refl runs refl
          | inl clean ↦
              let (x, hit, new) =
                clean_value (suc (position v g.topological_order)) v (omega arith) t.0
                  (ground (arith, in_range, clean)) in
              let fine =
                any_failing-plan nothing plan (full_plan g) os
                ∙ value_inputs nothing (full_plan g) v os x (sym full ∙ new) in
              new ∙ sym (served_outcome v os x fine clean hit)
        ]

    -- The sequential outcomes of the incremental run are those of a full run of the new graph. The
    -- conditions: both graphs are frozen, a node with the baseline's version has the same work and
    -- the same inputs in the old graph, whatever its name and its consumers, and the cache holds
    -- results of a full run of the old graph.
    pub incremental_agrees :
        (v : ℕ) → v < node_count g → outcome_of nothing plan v ≡ outcome_of nothing (full_plan g) v
    incremental_agrees v lt =
        solutions_agree nothing plan (record { frozen = frozen; closed = λ v u t k. refl })
          (outcome_of nothing plan) (outcome_of nothing (full_plan g))
          (outcome_of-IsSolution nothing plan frozen) full_solves v (lt, refl)
