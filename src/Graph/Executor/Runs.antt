-- ===== src/Graph/Executor/Runs.antt =====
-- Whole runs of Library/Graph/graph_executor.cpp, under every interleaving of the workers.
use xsigma.Common.{
  ℕ, ◌≤◌, ◌≡◌, refl, sym, ap, ◌∙◌, false, inl, inr, some, arith, Bool-cases, if◌then◌else◌, get_or,
  to_nat, sum_below_tight,
}
use xsigma.Graph.Dependency.{node_count}
use xsigma.Graph.Executor.Step.{Plan, Phase, blocked, body, finished, Run, skips, advance, Step}
use xsigma.Graph.Executor.Plan.{init}
use xsigma.Graph.Executor.Counters.{Takes, is_blocked}
use xsigma.Graph.Executor.Dataflow.{Outcome, failing}
use xsigma.Graph.Executor.Invariant.{ran, is_finished, Inv}
use xsigma.Graph.Executor.Preserve.Steps.{body_advances, Step-Inv}
use xsigma.Graph.Executor.Start.{IsStartable, init-Inv}
use xsigma.Graph.Executor.Solve.{outcome_of, outcome_of-IsSolution}

-- The states that a run with some number of workers can come to.
pub data Reach {V : Type 0} (nothing : V) (p : Plan V) (workers : ℕ) : Run V → Type 0 where
  start : Reach nothing p workers (init p workers)
  later : {s t : Run V} → Reach nothing p workers s → Step nothing p s t → Reach nothing p workers t

module _ {V : Type 0} (nothing : V) (p : Plan V) (workers : ℕ) (startable : IsStartable p) where
  abbrev outcome : ℕ → Outcome V
  outcome = outcome_of nothing p

  abbrev n : ℕ
  n = node_count p.graph

  pub Reach-Inv : {s : Run V} → Reach nothing p workers s → Inv nothing p workers outcome s
  Reach-Inv start = init-Inv nothing p workers outcome startable
  Reach-Inv (later r step) =
      Step-Inv startable.runnable (outcome_of-IsSolution nothing p startable.runnable.frozen) step
        (Reach-Inv r)

  -- No worker ever reads a slot that is not filled yet or was freed already: a node that is to be
  -- executed can be.
  pub run_never_faults :
      {s : Run V}
      → Reach nothing p workers s
      → (id : ℕ) → s.phases id ≡ body
      → (t : Run V) × (advance nothing p s id ≡ some t)
  run_never_faults {s} r id was =
      let (t, e, _) =
        body_advances startable.runnable (outcome_of-IsSolution nothing p startable.runnable.frozen)
          s (Reach-Inv r) id was in
      (t, e)

  pub finished-le :
      (ph : ℕ → Phase) (v : ℕ)
      → (is_blocked (ph v) ≡ false → skips p v ≡ false)
      → to_nat (is_finished (ph v)) ≤ (if skips p v then 0 else 1)
  finished-le ph v h = go (ph v) refl
    where
      go : (q : Phase) → ph v ≡ q → to_nat (is_finished q) ≤ (if skips p v then 0 else 1)
      go finished e = rw (h (ap is_blocked e)) (omega arith)
      go blocked e = omega arith
      go _ e = omega arith

  finished_eq : (ph : Phase) → to_nat (is_finished ph) ≡ 1 → ph ≡ finished
  finished_eq finished e = refl
  finished_eq blocked e = absurd (omega arith)
  finished_eq _ e = absurd (omega arith)

  -- When the count of finished nodes says so, every node of the run is finished.
  pub finished_all :
      {s : Run V}
      → Inv nothing p workers outcome s
      → s.completed ≡ p.total_to_run
      → (v : ℕ) → Takes p v
      → s.phases v ≡ finished
  finished_all {s} inv e v t = finished_eq (s.phases v) (
      sum_below_tight n (λ u. to_nat (is_finished (s.phases u))) (λ u. if skips p u then 0 else 1)
        (λ u _. finished-le s.phases u (λ h. (inv.counters.started u h).0.1))
        (omega (arith, inv.done, startable.total)) v t.0
      ∙ ap (λ b. if b then 0 else 1) t.1)

  -- Once every node of the run has finished, its failure flag is set exactly if the sequential run
  -- fails it, whatever the interleaving, if the run was not cancelled.
  pub run_flags :
      {s : Run V}
      → Reach nothing p workers s
      → s.completed ≡ p.total_to_run
      → s.cancelled ≡ false
      → (v : ℕ) → Takes p v
      → get_or s.failed v false ≡ failing nothing p (outcome_of nothing p v)
  run_flags {s} r e going v t =
      let inv = Reach-Inv r in
      let flag = inv.flags v (ap ran (finished_all inv e v t)) in
      elim (Bool-cases (get_or s.failed v false)) [
        | inl bad ↦ ground (arith, flag.marked bad, bad)
        | inr good ↦ good ∙ sym (flag.clear good)
      ]
