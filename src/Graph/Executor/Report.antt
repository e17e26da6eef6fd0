-- ===== src/Graph/Executor/Report.antt =====
-- What `run`, `run_to` and `run_incremental` of Library/Graph/graph_executor.cpp report when all nodes
-- have finished: the results and the status.
use xsigma.Common.{
  ℕ, zero, suc, ◌+◌, ◌<◌, ◌≡◌, ◌≢◌, refl, sym, ap, ◌∙◌, String, Bool, true, false, ◌||◌, lt→ltb,
  inl, inr, Option, none, some, List, [], ◌∷◌, map, foldl, arith, Bool-cases, ltb, ◌==◌,
  if◌then◌else◌, to_nat, length, get_or, set, get_or-set, count, count-range, range, dec_lt,
  replicate, position, length-set, length-replicate,
}
use xsigma.Graph.Dependency.{IsFrozen, DependencyGraph, node_count, node_at, dependency_range}
use xsigma.Graph.Executor.Step.{
  Attempt, returned, threw, threw_unknown, unknown_text, work_of, NodeWork, Plan, Run, update,
}
use xsigma.Graph.Executor.Plan.{
  full_plan, restricted_plan, incremental_plan, mark_sinks, dirty_nodes,
}
use xsigma.Graph.Executor.Counters.{Takes}
use xsigma.Graph.Executor.Liveness.{frees}
use xsigma.Graph.Executor.Dataflow.{
  Outcome, value, raised, skipped, failing, shown, any_failing, compute, served, attempted,
  is_clean,
}
use xsigma.Graph.Executor.Invariant.{ran}
use xsigma.Graph.Executor.Start.{IsStartable, unrestricted-IsStartable}
use xsigma.Graph.Executor.Restricted.{restricted-IsStartable, sink_Takes}
use xsigma.Graph.Executor.Solve.{outcome_of, outcome_of-IsSolution}
use xsigma.Graph.Executor.Runs.{Reach, Reach-Inv, finished_all, run_flags}
use xsigma.Graph.Executor.Collect.{
  GraphExecutionStatus, success, cancelled, failure, ResultMap, emplace, or_else, or_empty,
  collect_all, collect_sinks, collect_cache, collect, final_status, invalid_sink, status_of_failure,
}

module _ {V : Type 0} where
  or_else-none : (o : Option V) → o ≡ or_else o none
  or_else-none none = refl
  or_else-none (some a) = refl

  merge :
      (o : Option V) (same : Bool) (more : ℕ) (first here : V)
      → (same ≡ true → first ≡ here)
      → or_else
          (or_else o (if same then some first else none))
          (if ltb 0 more then some here else none)
        ≡ or_else o (if ltb 0 (to_nat same + more) then some here else none)
  merge (some a) same more first here h = ground arith
  merge none true more first here h = ground (arith, h)
  merge none false more first here h = ground arith

module _ {V : Type 0} (nothing : V) (s : Run V) where
  pub collect_cache-at :
      (ids : List ℕ) (out : ResultMap V) (v : ℕ)
      → collect_cache nothing s out ids v ≡ (
          if ltb 0 (count v ids)
          then (if get_or s.failed v false
              then none
              else some (or_empty nothing (get_or s.results v none)))
          else out v)
  unfolding collect_cache count
  collect_cache-at [] out v = refl
  collect_cache-at (x ∷ xs) out v = ground (
    arith,
    collect_cache-at xs
        (update out x (
          if get_or s.failed x false
          then none
          else some (or_empty nothing (get_or s.results x none))))
        v,
  )

  pub collect_sinks-at :
      (sinks : List ℕ) (out : ResultMap V) (v : ℕ)
      → collect_sinks nothing s out sinks v
        ≡ or_else (out v) (
            if ltb 0 (count v sinks)
            then some (or_empty nothing (get_or s.results v none))
            else none)
  unfolding collect_sinks count
  collect_sinks-at [] out v = or_else-none (out v)
  collect_sinks-at (x ∷ xs) out v =
      collect_sinks-at xs (emplace out x (or_empty nothing (get_or s.results x none))) v
      ∙ merge (out v) (v == x) (count v xs) (or_empty nothing (get_or s.results x none))
          (or_empty nothing (get_or s.results v none)) (λ e. ground arith)

  pub collect_all-at :
      (f : ℕ → V) (ids : List ℕ) (out : ResultMap V)
      → ((v : ℕ) → 0 < count v ids → get_or s.results v none ≡ some (f v))
      → (m : ResultMap V) × (collect_all s out ids ≡ some m)
        × ((v : ℕ) → m v ≡ or_else (out v) (if ltb 0 (count v ids) then some (f v) else none))
  unfolding collect_all count
  collect_all-at f [] out h = (out, refl, λ v. or_else-none (out v))
  collect_all-at f (x ∷ xs) out h =
      let (m, e, at) = collect_all-at f xs (emplace out x (f x)) (λ v k. h v (omega arith)) in
      (
        m,
        rw (h x (ground arith), collect_all) e,
        λ v. at v ∙ merge (out v) (v == x) (count v xs) (f x) (f v) (λ e. ground arith),
      )

module _ {V : Type 0} (nothing : V) (p : Plan V) (workers : ℕ) (startable : IsStartable p) where
  abbrev outcome : ℕ → Outcome V
  outcome = outcome_of nothing p

  inputs_fine :
      (ds : List ℕ)
      → ((u : ℕ) → 0 < count u ds → failing nothing p (outcome u) ≡ false)
      → any_failing nothing p (map outcome ds) ≡ false
  unfolding any_failing count
  inputs_fine [] h = refl
  inputs_fine (d ∷ ds) h = ground (arith, h d, inputs_fine ds (λ u k. h u (omega arith)))

  never_skipped :
      (id : ℕ) (os : List (Outcome V))
      → any_failing nothing p os ≡ false
      → compute nothing p id os ≢ skipped
  unfolding compute
  never_skipped id os fine e = elim (Bool-cases (is_clean nothing p id)) [
    | inl c ↦ served_value (p.cache id) (rw (fine, c) at e)
    | inr c ↦
        attempted_value (unknown_text nothing p (node_at p.graph id))
          (work_of nothing p (node_at p.graph id) (map (shown nothing p) os)) (rw (fine, c) at e)
  ]
    where
      served_value : (o : Option V) → served nothing p o ≢ skipped
      served_value none e = cc
      served_value (some x) e = cc

      attempted_value : (text : String) (a : Attempt V) → attempted nothing p text a ≢ skipped
      attempted_value text (returned x) e = cc
      attempted_value text (threw m) e = cc
      attempted_value text threw_unknown e = cc

  module _ {s : Run V} (r : Reach nothing p workers s) (over : s.completed ≡ p.total_to_run)
      (going : s.cancelled ≡ false) where
    -- At the end, a slot that the run does not free holds what the sequential run computes.
    pub final_slot :
        (v : ℕ)
        → Takes p v
        → frees p v ≡ false
        → get_or s.results v none ≡ some (shown nothing p (outcome v))
    final_slot v t kept =
        let inv = Reach-Inv nothing p workers startable r in
        let e = finished_all nothing p workers startable inv over v t in
        elim (inv.slots v (ap ran e)) [
          | inl full ↦
              full
              ∙ ap some (
                  blank (outcome v) (get_or s.failed v false)
                    (run_flags nothing p workers startable r over going v t))
          | inr (free, _) ↦ cc
        ]
      where
        blank :
            (o : Outcome V) (b : Bool)
            → b ≡ failing nothing p o
            → (if b then nothing else shown nothing p o) ≡ shown nothing p o
        blank (value x) b e = rw e refl
        blank (raised m) b e = rw e refl
        blank skipped b e = rw e refl

    fine_at :
        s.failure ≡ none
        → (v : ℕ) → Takes p v
        → ((u : ℕ)
            → 0 < count u (dependency_range p.graph v)
            → failing nothing p (outcome u) ≡ false)
        → (o : Outcome V) → outcome v ≡ o
        → failing nothing p o ≡ false
    fine_at quiet v t inputs (value x) e = refl
    fine_at quiet v t inputs (raised m) e =
        let inv = Reach-Inv nothing p workers startable r in
        let bad =
          run_flags nothing p workers startable r over going v t ∙ ap (failing nothing p) e in
        elim (inv.unrecorded v (ap ran (finished_all nothing p workers startable inv over v t))
          bad) [
            | inl c ↦ cc
            | inr (inl sk) ↦ cc
            | inr (inr some_failure) ↦ absurd (some_failure quiet)
          ]
    fine_at quiet v t inputs skipped e = absurd (
        never_skipped v (map outcome (dependency_range p.graph v))
          (inputs_fine (dependency_range p.graph v) inputs)
          (sym (outcome_of-IsSolution nothing p startable.runnable.frozen v t) ∙ e))

    -- No node has failed if no failure was recorded.
    no_failure :
        s.failure ≡ none
        → (depth v : ℕ) → position v p.graph.topological_order < depth
        → Takes p v
        → failing nothing p (outcome v) ≡ false
    no_failure quiet zero v h t = absurd (omega arith)
    no_failure quiet (suc depth) v h t =
        fine_at quiet v t
          (λ u k.
            no_failure quiet depth u (omega (arith, startable.runnable.frozen.precedes v u k))
              ((startable.runnable.frozen.below u v k).0, startable.runnable.closed v u t k))
          (outcome v) refl

  -- The verdict of a status: a reported failure is one of the sequential run, a success means that
  -- no node of the run fails, and a cancellation was asked for.
  abbrev pub Verdict : Run V → GraphExecutionStatus → Type 0
  Verdict s success = (v : ℕ) → Takes p v → failing nothing p (outcome v) ≡ false
  Verdict s cancelled = s.cancelled ≡ true
  Verdict s (failure id message) = Takes p id × (outcome id ≡ raised message)

  -- When all nodes have finished, the status is true of the sequential run, whatever the
  -- interleaving: a reported failure is the one with which the sequential run fails at that node, a
  -- success means that no node of the run fails, and a cancelled status that `cancel` was called.
  pub status-Verdict :
      {s : Run V}
      → Reach nothing p workers s
      → s.completed ≡ p.total_to_run
      → Verdict s (final_status s)
  unfolding final_status
  status-Verdict {s} r over = of_flag s.cancelled refl
    where
      of_failure :
          s.cancelled ≡ false
          → (f : Option (ℕ × String)) → s.failure ≡ f
          → Verdict s (status_of_failure f)
      of_failure going none e = λ v t.
          no_failure r over going e (suc (position v p.graph.topological_order)) v (omega arith) t
      of_failure going (some (id, message)) e =
          (Reach-Inv nothing p workers startable r).recorded id message e

      of_flag :
          (b : Bool)
          → s.cancelled ≡ b
          → Verdict s (if b then cancelled else status_of_failure s.failure)
      of_flag true stopped = stopped
      of_flag false going = of_failure going s.failure refl

-- No sink is invalid: all are inside the graph.
invalid_sink-lt :
    (n : ℕ) (sinks : List ℕ) → invalid_sink n sinks ≡ none → (v : ℕ) → 0 < count v sinks → v < n
unfolding invalid_sink count
invalid_sink-lt n [] h v k = absurd (omega arith)
invalid_sink-lt n (x ∷ xs) h v k =
    let later : invalid_sink n xs ≡ none → 0 < count v xs → v < n = λ e. invalid_sink-lt n xs e v in
    ground arith

module _ {V : Type 0} (g : DependencyGraph (NodeWork V)) where
  mark-at :
      (sinks : List ℕ) (flags : List Bool) (v : ℕ)
      → v < length flags
      → get_or (foldl (λ fs x. set fs x true) flags sinks) v false
        ≡ (get_or flags v false || ltb 0 (count v sinks))
  unfolding count
  mark-at [] flags v lt = ground arith
  mark-at (x ∷ xs) flags v lt = ground (
    arith,
    mark-at xs (set flags x true) v (omega (arith, length-set flags x true)),
    get_or-set flags x v true false,
  )

  sink_kept :
      (sinks : List ℕ) (v : ℕ)
      → v < node_count g
      → 0 < count v sinks
      → frees (restricted_plan g sinks) v ≡ false
  unfolding mark_sinks
  sink_kept sinks v lt h = ground (
    arith,
    mark-at sinks (replicate (node_count g) false) v
        (omega (arith, length-replicate {A = Bool} (node_count g) false)),
  )

module _ {V : Type 0} (nothing : V) (g : DependencyGraph (NodeWork V)) (workers : ℕ) where
  -- `run`: when all nodes have finished and the run was not cancelled, the results can be read, and
  -- the map has for each node, and for no other key, what the sequential run computes there, under
  -- every interleaving of the workers.
  pub run_results :
      (frozen : IsFrozen g) {s : Run V}
      → Reach nothing (full_plan g) workers s
      → s.completed ≡ node_count g
      → s.cancelled ≡ false
      → (m : ResultMap V) × (collect nothing (full_plan g) none s ≡ some m)
        × ((v : ℕ)
            → m v ≡ (
                if ltb v (node_count g)
                then some (shown nothing (full_plan g) (outcome_of nothing (full_plan g) v))
                else none))
  unfolding collect
  run_results frozen {s} r over going =
      let startable : IsStartable (full_plan g) =
        unrestricted-IsStartable g frozen [] false [] (λ _. none) in
      let f : ℕ → V = λ v. shown nothing (full_plan g) (outcome_of nothing (full_plan g) v) in
      let (m, e, at) =
        collect_all-at nothing s f (range (node_count g)) (λ _. none)
          (λ v k.
            final_slot nothing (full_plan g) workers startable r over going v
              (ground (arith, count-range v (node_count g)), refl) refl) in
      (m, e, λ v. at v ∙ ground (arith, count-range v (node_count g)))

  -- `run_to` with sinks inside the graph: when all nodes of the run have finished and it was not
  -- cancelled, the map has for each sink, and for no other key, what the sequential run computes
  -- there. No slot of a sink was freed.
  pub run_to_results :
      (frozen : IsFrozen g) (sinks : List ℕ) {s : Run V}
      → invalid_sink (node_count g) sinks ≡ none
      → Reach nothing (restricted_plan g sinks) workers s
      → s.completed ≡ (restricted_plan g sinks).total_to_run
      → s.cancelled ≡ false
      → (m : ResultMap V) × (collect nothing (restricted_plan g sinks) (some sinks) s ≡ some m)
        × ((v : ℕ)
            → m v ≡ (
                if ltb 0 (count v sinks)
                then some (
                    shown nothing
                      (restricted_plan g sinks)
                      (outcome_of nothing (restricted_plan g sinks) v))
                else none))
  unfolding collect
  run_to_results frozen sinks {s} inside r over going =
      let p : Plan V = restricted_plan g sinks in
      let m : ResultMap V = collect_sinks nothing s (λ _. none) sinks in
      (
        m,
        refl,
        λ v. collect_sinks-at nothing s sinks (λ _. none) v ∙ at (ltb 0 (count v sinks)) v refl,
      )
    where
      at :
          (b : Bool) (v : ℕ)
          → ltb 0 (count v sinks) ≡ b
          → (if b then some (or_empty nothing (get_or s.results v none)) else none) ≡ (
              if b
              then some (
                  shown nothing
                    (restricted_plan g sinks)
                    (outcome_of nothing (restricted_plan g sinks) v))
              else none)
      at false v e = refl
      at true v e =
          let here : 0 < count v sinks = ground arith in
          let lt = invalid_sink-lt (node_count g) sinks inside v here in
          let t = sink_Takes g frozen sinks v lt here in
          let kept = sink_kept g sinks v lt here in
          ap (λ slot. some (or_empty nothing slot))
            (final_slot nothing (restricted_plan g sinks) workers
              (restricted-IsStartable g frozen sinks) r over going v t kept)

  -- `run_incremental`: when all nodes have finished and the run was not cancelled, the cache has the
  -- result of the sequential run for each node that does not fail there, and nothing else: a node that
  -- fails and an id outside the graph have no entry, whatever the cache held before.
  pub run_incremental_results :
      (frozen : IsFrozen g) (baseline : List ℕ) (cache : ResultMap V) {s : Run V}
      → Reach nothing (incremental_plan g baseline cache) workers s
      → s.completed ≡ node_count g
      → s.cancelled ≡ false
      → (m : ResultMap V) × (collect nothing (incremental_plan g baseline cache) none s ≡ some m)
        × ((v : ℕ)
            → m v ≡ (
                if ltb v (node_count g)
                then (if failing nothing
                      (incremental_plan g baseline cache)
                      (outcome_of nothing (incremental_plan g baseline cache) v)
                    then none
                    else some (
                        shown nothing
                          (incremental_plan g baseline cache)
                          (outcome_of nothing (incremental_plan g baseline cache) v)))
                else none))
  unfolding collect
  run_incremental_results frozen baseline cache {s} r over going =
      let p : Plan V = incremental_plan g baseline cache in
      let startable : IsStartable p =
        unrestricted-IsStartable g frozen [] true (dirty_nodes g baseline cache) cache in
      (
        collect_cache nothing s (λ _. none) (range (node_count g)),
        refl,
        λ v. elim (dec_lt v (node_count g)) [
          | yes lt ↦
              let t : Takes p v = (lt, refl) in
              let flag = run_flags nothing p workers startable r over going v t in
              let slot = final_slot nothing p workers startable r over going v t refl in
              collect_cache-at nothing s (range (node_count g)) (λ _. none) v
              ∙ rw (count-range v (node_count g), lt→ltb v (node_count g) lt, flag, slot) refl
          | no ge ↦
              let outside : ltb v (node_count g) ≡ false = ground (arith, ge) in
              collect_cache-at nothing s (range (node_count g)) (λ _. none) v
              ∙ rw (count-range v (node_count g), outside) refl
        ],
      )
