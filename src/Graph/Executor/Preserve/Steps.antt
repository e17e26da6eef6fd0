-- ===== src/Graph/Executor/Preserve/Steps.antt =====
-- Every atomic step of every thread keeps the invariant of a run.
use xsigma.Common.{
  ℕ, ◌≡◌, refl, sym, ap, ◌∙◌, subst, true, inl, none, some, [], ◌∷◌, arith, some_inj,
}
use xsigma.Graph.Executor.Step.{
  Plan, Phase, blocked, queued, body, finished, freeing, notifying, Run, advance, advance_at, Step,
  pop, work, cancel,
}
use xsigma.Graph.Executor.Dataflow.{Outcome, IsSolution}
use xsigma.Graph.Executor.Body.{execute_body-Ran}
use xsigma.Graph.Executor.Invariant.{ran, IsRunnable, Inv, inputs_show}
use xsigma.Graph.Executor.Preserve.{pop-Inv, freed-Inv, finish-Inv, notify-Inv}
use xsigma.Graph.Executor.Preserve.Body.{after_body, next, body-Inv, body-Takes}
use xsigma.Graph.Executor.Preserve.Release.{release-Inv}

module _ {V : Type 0} {nothing : V} {p : Plan V} {workers : ℕ} {outcome : ℕ → Outcome V}
    (runnable : IsRunnable p) (solution : IsSolution nothing p outcome) where
  -- A node that is about to run can run its body: no read goes through a null pointer.
  pub body_advances :
      (s : Run V)
      → Inv nothing p workers outcome s
      → (id : ℕ) → s.phases id ≡ body
      → (t : Run V) × (advance nothing p s id ≡ some t) × Inv nothing p workers outcome t
  unfolding advance advance_at after_body next
  body_advances s inv id was =
      let t = body-Takes runnable solution s inv id was in
      let (r, runs, facts) =
        execute_body-Ran nothing p outcome s id (inv.fresh id (ap ran was))
          (omega (arith, inv.width_failed, t.0)) (omega (arith, inv.width_results, t.0))
          (inputs_show nothing p workers outcome runnable s inv id was) (solution id t) in
      (_, rw (was, advance, runs), body-Inv runnable solution s inv id was r facts)

  pub advance-Inv :
      (s t : Run V)
      → Inv nothing p workers outcome s
      → (id : ℕ) → advance nothing p s id ≡ some t
      → Inv nothing p workers outcome t
  unfolding advance advance_at
  advance-Inv s t inv id e = go (s.phases id) refl
    where
      stuck : none ≡ some t → Inv nothing p workers outcome t
      stuck h = cc

      go : (ph : Phase) → s.phases id ≡ ph → Inv nothing p workers outcome t
      go body h =
          let (t', runs, i) = body_advances s inv id h in
          subst (Inv nothing p workers outcome) (some_inj (sym runs ∙ e)) i
      go (freeing (d ∷ ds)) h =
          subst (Inv nothing p workers outcome) (some_inj (rw (h, advance) at e))
            (release-Inv runnable solution s inv id d ds h)
      go (freeing []) h =
          subst (Inv nothing p workers outcome) (some_inj (rw (h, advance) at e))
            (freed-Inv runnable solution s inv id h)
      go (notifying (x ∷ xs)) h =
          subst (Inv nothing p workers outcome) (some_inj (rw (h, advance) at e))
            (notify-Inv runnable solution s inv id x xs h)
      go (notifying []) h =
          subst (Inv nothing p workers outcome) (some_inj (rw (h, advance) at e))
            (finish-Inv runnable solution s inv id h)
      go blocked h = stuck (rw (h, advance) at e)
      go queued h = stuck (rw (h, advance) at e)
      go finished h = stuck (rw (h, advance) at e)

  cancel-Inv :
      (s : Run V)
      → Inv nothing p workers outcome s
      → Inv nothing p workers outcome (record s { cancelled = true })
  cancel-Inv s inv = record {
    counters = inv.counters;
    liveness = inv.liveness;
    width_failed = inv.width_failed;
    width_results = inv.width_results;
    flags = λ v h. record { clear = (inv.flags v h).clear; marked = λ _. inl refl };
    slots = inv.slots;
    fresh = inv.fresh;
    done = inv.done;
    staff = inv.staff;
    recorded = inv.recorded;
    unrecorded = λ v _ _. inl refl;
  }

  pub Step-Inv :
      {s t : Run V}
      → Step nothing p s t
      → Inv nothing p workers outcome s
      → Inv nothing p workers outcome t
  Step-Inv {s} (pop before after item idle e top same) inv =
      subst (Inv nothing p workers outcome) (sym same)
        (pop-Inv runnable solution s inv before after item idle e)
  Step-Inv {s} {t} (work id e) inv = advance-Inv s t inv id e
  Step-Inv {s} (cancel same) inv =
      subst (Inv nothing p workers outcome) (sym same) (cancel-Inv s inv)
