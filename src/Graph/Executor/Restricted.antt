-- ===== src/Graph/Executor/Restricted.antt =====
-- The plan of `run_to` in Library/Graph/graph_executor.cpp: the ancestors of the sinks.
use xsigma.Common.{
  ℕ, ◌+◌, ◌^◌, ◌<◌, ◌≡◌, refl, ap, ◌∙◌, Bool, true, false, not, ◌&&◌, List, [], ◌∷◌, inl, inr,
  arith, List-cases, if◌then◌else◌, length, get_or, count, sum_below, sum_below-head,
  sum_below-congr,
}
use xsigma.Graph.Dependency.{IsFrozen, DependencyGraph, to_u32, node_count, dependency_range}
use xsigma.Graph.Passes.{ancestor_set}
use xsigma.Graph.Passes.Ancestors.{sink, needed, ancestor_set-Ancestor}
use xsigma.Graph.Passes.Consumers.{
  consumer_counts-reads, consumer_counts-lt, length-consumer_counts,
}
use xsigma.Graph.Executor.Step.{NodeWork, Plan, skips, is_empty}
use xsigma.Graph.Executor.Plan.{
  restricted_plan, initial_remaining, count_scheduled, total_scheduled, init,
}
use xsigma.Graph.Executor.Counters.{Takes}
use xsigma.Graph.Executor.Liveness.{unread_by}
use xsigma.Graph.Executor.Start.{IsStartable, dependency_count-lt}

module _ {V : Type 0} (g : DependencyGraph (NodeWork V)) (frozen : IsFrozen g)
    (sinks : List ℕ) where
  abbrev plan : Plan V
  plan = restricted_plan g sinks

  flag_of : ℕ → Bool
  flag_of v = get_or (ancestor_set g sinks) v false

  -- A node takes part exactly if it is a sink or an ancestor of one.
  pub Takes-Ancestor : (v : ℕ) → Takes plan v → get_or (ancestor_set g sinks) v false ≡ true
  Takes-Ancestor v t = elim (List-cases (ancestor_set g sinks)) [
    | inl e ↦ absurd (omega (arith, (ancestor_set-Ancestor g sinks frozen).0, ap length e, t.0))
    | inr (b, bs, e) ↦ shown (ancestor_set g sinks) e t.1
  ]
    where
      shown :
          (flags : List Bool) {b : Bool} {bs : List Bool}
          → flags ≡ b ∷ bs
          → (not (is_empty flags) && not (get_or flags v false)) ≡ false
          → get_or flags v false ≡ true
      shown [] e h = cc
      shown (b ∷ bs) e h = ground arith

  not_skipped : (v : ℕ) → get_or (ancestor_set g sinks) v false ≡ true → skips plan v ≡ false
  not_skipped v h = rw h (ground arith)

  pub sink_Takes : (v : ℕ) → v < node_count g → 0 < count v sinks → Takes plan v
  sink_Takes v lt h =
      (lt, not_skipped v (((ancestor_set-Ancestor g sinks frozen).1 v).1 (sink v h lt)))

  all_scheduled :
      (acc : ℕ) (ds : List ℕ)
      → ((u : ℕ) → 0 < count u ds → get_or (ancestor_set g sinks) u false ≡ true)
      → acc + length ds < 2 ^ 32
      → count_scheduled plan acc ds ≡ acc + length ds
  unfolding count_scheduled count
  all_scheduled acc [] h fits = omega arith
  all_scheduled acc (d ∷ ds) h fits =
      let first = h d (ground arith) in
      let next : to_u32 (acc + 1) ≡ acc + 1 = omega arith in
      rw (first, next)
        (all_scheduled (acc + 1) ds (λ u k. h u (omega arith)) (omega arith) ∙ omega arith)

  count_scheduled-lt : (ds : List ℕ) (acc : ℕ) → acc < 2 ^ 32 → count_scheduled plan acc ds < 2 ^ 32
  unfolding count_scheduled
  count_scheduled-lt [] acc h = h
  count_scheduled-lt (d ∷ ds) acc h =
      count_scheduled-lt ds
        (if get_or (ancestor_set g sinks) d false then to_u32 (acc + 1) else acc) (ground arith)

  nonempty : (u : ℕ) → u < node_count g → is_empty (ancestor_set g sinks) ≡ false
  nonempty u lt = elim (List-cases (ancestor_set g sinks)) [
    | inl e ↦ absurd (omega (arith, (ancestor_set-Ancestor g sinks frozen).0, ap length e))
    | inr (b, bs, e) ↦ rw e refl
  ]

  total_scheduled-sum :
      (flags : List Bool)
      → total_scheduled g flags
        ≡ sum_below (length flags) (λ v. if get_or flags v false then 1 else 0)
  unfolding total_scheduled sum_below
  total_scheduled-sum [] = refl
  total_scheduled-sum (b ∷ bs) = omega (
    arith,
    sum_below-head (length bs) (λ v. if get_or (b ∷ bs) v false then 1 else 0),
    total_scheduled-sum bs,
  )

  total_all :
      total_scheduled g (ancestor_set g sinks)
      ≡ sum_below (node_count g) (λ v. if skips plan v then 0 else 1)
  total_all =
      total_scheduled-sum (ancestor_set g sinks)
      ∙ ap (λ k. sum_below k (λ v. if get_or (ancestor_set g sinks) v false then 1 else 0))
          (ancestor_set-Ancestor g sinks frozen).0
      ∙ sum_below-congr (node_count g) _ _ (λ v lt. rw (nonempty v lt) (ground arith))

  needs_all : (v : ℕ) → Takes plan v → initial_remaining plan v ≡ length (dependency_range g v)
  unfolding initial_remaining
  needs_all v t =
      let flags = (ancestor_set-Ancestor g sinks frozen).1 in
      let mine = Takes-Ancestor v t in
      rw (nonempty v t.0, mine)
        (all_scheduled 0 (dependency_range g v)
            (λ u k. (flags u).1 (needed u v ((flags v).0 mine) k))
            (omega (arith, frozen.counted v t.0, dependency_count-lt g frozen v))
          ∙ omega arith)

  small_all : (v : ℕ) → initial_remaining plan v < 2 ^ 32
  unfolding initial_remaining
  small_all v =
      ground (arith, dependency_count-lt g frozen v, count_scheduled-lt (dependency_range g v) 0)

  -- On a frozen graph, the initial state of `run_to` has, for each node of the run, the number of its
  -- dependencies, for each node that may be freed the number of its readers, and the number of nodes.
  pub restricted-IsStartable : IsStartable plan
  unfolding initial_remaining init
  restricted-IsStartable = record {
    runnable = record {
      frozen = frozen;
      closed = λ v u t k.
          let set-iff = (ancestor_set-Ancestor g sinks frozen).1 in
          not_skipped u ((set-iff u).1 (needed u v ((set-iff v).0 (Takes-Ancestor v t)) k));
    };
    needs = needs_all;
    small = small_all;
    total = total_all;
    readers = λ workers. record {
      sized = λ u lt h. rw (nonempty u lt) (rw (length-consumer_counts g flags) lt);
      small = λ u. ground (arith, consumer_counts-lt g flags u);
      uses = λ u lt h. rw (nonempty u lt) (
          consumer_counts-reads g flags frozen u lt
          ∙ ground (arith, h)
          ∙ sum_below-congr (node_count g) _ _ (λ v v_lt. reads u v v_lt));
    };
  }
    where
      flags : List Bool
      flags = ancestor_set g sinks

      reads :
          (u v : ℕ)
          → v < node_count g
          → (if get_or flags v false then count u (dependency_range g v) else 0)
            ≡ unread_by plan (init plan 0).phases u v
      reads u v lt = rw (nonempty v lt) (ground arith)
