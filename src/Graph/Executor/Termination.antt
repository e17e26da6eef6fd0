-- ===== src/Graph/Executor/Termination.antt =====
-- A run of Library/Graph/graph_executor.cpp ends: each atomic step of a worker brings it nearer to
-- its end, and it can always be brought there.
use xsigma.Common.{
  ℕ, zero, suc, ◌+◌, ◌≤◌, ◌<◌, ◌≡◌, ◌≢◌, refl, sym, ap, ◌∙◌, subst, Bool, true, false, inl, inr,
  some, some_inj, List, [], ◌∷◌, ◌++◌, arith, dec_lt, Bool-cases, ◌==◌, ==_iff, get_or_beyond,
  if◌then◌else◌, length, get_or, count, to_nat, sum_below, sum_below-change, sum_below_mono,
}
use xsigma.Graph.Dependency.{node_count, dependency_range, successor_range}
use xsigma.Graph.Executor.Step.{
  Plan, Phase, blocked, queued, body, finished, freeing, notifying, ReadyItem, Run, update, skips,
  to_free, release_slot, notify, advance, advance_at, Step, pop, work, take_item,
}
use xsigma.Graph.Executor.Counters.{
  is_blocked, is_blocked_eq, is_queued, ids, ids-append, update_at, update_self,
}
use xsigma.Graph.Executor.Body.{execute_body-Ran}
use xsigma.Graph.Executor.Invariant.{ran, is_finished, inputs_show, takes, Inv}
use xsigma.Graph.Executor.Start.{IsStartable}
use xsigma.Graph.Executor.Solve.{outcome_of, outcome_of-IsSolution}
use xsigma.Graph.Executor.Runs.{Reach, later, Reach-Inv, finished-le}
use xsigma.Graph.Executor.Progress.{CanGoOn, run_progress}

-- How many steps a node is from its end at most: of its own, and of the one that queues it.
abbrev pub cost : Phase → ℕ → ℕ → ℕ
cost blocked inputs consumers = 6 + inputs + consumers
cost queued inputs consumers = 5 + inputs + consumers
cost body inputs consumers = 4 + inputs + consumers
cost (freeing left) inputs consumers = 3 + length left + consumers
cost (notifying left) inputs consumers = 2 + length left
cost finished inputs consumers = 0

module _ {V : Type 0} (p : Plan V) where
  abbrev n : ℕ
  n = node_count p.graph

  abbrev cost_at : Phase → ℕ → ℕ
  cost_at ph v = cost ph (length (dependency_range p.graph v)) (length (successor_range p.graph v))

  -- The steps that a run has left at most.
  abbrev pub steps_left : (ℕ → Phase) → ℕ
  steps_left phases = sum_below n (λ v. cost_at (phases v) v)

  steps_left-update :
      (phases : ℕ → Phase) (id : ℕ) (next : Phase)
      → id < n
      → steps_left (update phases id next) + cost_at (phases id) id
        ≡ steps_left phases + cost_at next id
  steps_left-update phases id next lt =
      let change =
        sum_below-change n id (λ v. cost_at (phases v) v) (λ v. cost_at (update phases id next v) v)
          lt
          (λ v ne.
            update_at (λ v ph. v ≢ id → cost_at (phases v) v ≡ cost_at ph v) phases id next
              (λ ne. absurd (ne refl)) (λ _ _ _. refl) v ne) in
      let here : cost_at (update phases id next id) id ≡ cost_at next id =
        ap (λ ph. cost_at ph id) (update_self phases next id) in
      omega (arith, change, here)

  -- A node goes on to a cheaper phase.
  cheaper :
      (phases : ℕ → Phase) (id : ℕ) (ph next : Phase)
      → id < n
      → phases id ≡ ph
      → cost_at next id < cost_at ph id
      → steps_left (update phases id next) < steps_left phases
  cheaper phases id ph next lt e less =
      omega (arith, steps_left-update phases id next lt, ap (λ q. cost_at q id) e, less)

module _ {V : Type 0} (nothing : V) (p : Plan V) (workers : ℕ) (startable : IsStartable p) where
  either :
      {ph : ℕ → Phase} (b : Bool) (s t : Run V)
      → s.phases ≡ ph
      → t.phases ≡ ph
      → (if b then s else t).phases ≡ ph
  either true s t e f = e
  either false s t e f = f

  length-to_free : (id : ℕ) → length (to_free nothing p id) ≤ length (dependency_range p.graph id)
  length-to_free id = ground arith

  release_slot-phases : (s : Run V) (d : ℕ) → (release_slot nothing p s d).phases ≡ s.phases
  unfolding release_slot
  release_slot-phases s d = either _ _ _ refl refl

  module _ (s : Run V) (inv : Inv nothing p workers (outcome_of nothing p) s) where
    lt_of :
        (id : ℕ) (ph : Phase) → s.phases id ≡ ph → is_blocked ph ≡ false → id < node_count p.graph
    lt_of id ph e b = (inv.counters.started id (ap is_blocked e ∙ b)).0.0

    notify_decreases :
        (id x : ℕ) (xs : List ℕ)
        → s.phases id ≡ notifying (x ∷ xs)
        → steps_left p
            (notify nothing p (record s { phases = update s.phases id (notifying xs) }) x).phases
          < steps_left p s.phases
    unfolding notify
    notify_decreases id x xs e = elim (Bool-cases (skips p x)) [
      | inl out ↦ rw out first
      | inr inside ↦ elim (Bool-cases (get_or s.remaining x 0 == 1)) [
        | inr more ↦ rw (inside, more) first
        | inl one ↦ rw (inside, one) (second ((==_iff (get_or s.remaining x 0) 1).0 one))
      ]
    ]
      where
        first : steps_left p (update s.phases id (notifying xs)) < steps_left p s.phases
        first =
            cheaper p s.phases id (notifying (x ∷ xs)) (notifying xs) (lt_of id _ e refl) e
              (omega arith)

        x_lt : get_or s.remaining x 0 ≡ 1 → x < node_count p.graph
        x_lt one = elim (dec_lt x (node_count p.graph)) [
          | yes lt ↦ lt
          | no out ↦ absurd (
              omega (
                arith,
                one,
                get_or_beyond s.remaining x 0 (omega (arith, inv.counters.sized, out)),
              ))
        ]

        waiting : get_or s.remaining x 0 ≡ 1 → s.phases x ≡ blocked
        waiting one = is_blocked_eq (s.phases x) (elim (Bool-cases (is_blocked (s.phases x))) [
          | inl yes_blocked ↦ yes_blocked
          | inr going ↦ absurd (omega (arith, one, (inv.counters.started x going).1))
        ])

        still : get_or s.remaining x 0 ≡ 1 → update s.phases id (notifying xs) x ≡ blocked
        still one =
            update_at (λ v ph. s.phases v ≡ blocked → ph ≡ blocked) s.phases id (notifying xs)
              (λ h. absurd (never (sym e ∙ h))) (λ v ne h. h) x (waiting one)
          where
            never : notifying (x ∷ xs) ≢ blocked
            never h = cc

        second :
            get_or s.remaining x 0 ≡ 1
            → steps_left p (update (update s.phases id (notifying xs)) x queued)
              < steps_left p s.phases
        second one = omega (
          arith,
          first,
          cheaper p (update s.phases id (notifying xs)) x blocked queued (x_lt one) (still one)
              (omega arith),
        )

    advance_decreases :
        (t : Run V) (id : ℕ) (ph : Phase)
        → s.phases id ≡ ph
        → advance_at nothing p ph s id ≡ some t
        → steps_left p t.phases < steps_left p s.phases
    unfolding advance_at
    advance_decreases t id body e h =
        let t_id =
          takes nothing p workers (outcome_of nothing p) startable.runnable s inv id
            (ap is_blocked e) in
        let (r, runs, facts) =
          execute_body-Ran nothing p (outcome_of nothing p) s id (inv.fresh id (ap ran e))
            (omega (arith, inv.width_failed, t_id.0)) (omega (arith, inv.width_results, t_id.0))
            (inputs_show nothing p workers (outcome_of nothing p) startable.runnable s inv id e)
            (outcome_of-IsSolution nothing p startable.runnable.frozen id t_id) in
        subst (λ q. steps_left p q.phases < steps_left p s.phases) (some_inj (rw runs at h))
          (rw facts.phases (
            cheaper p s.phases id body (freeing (to_free nothing p id)) t_id.0 e
              (omega (arith, length-to_free id))))
    advance_decreases t id (freeing []) e h =
        subst (λ q. steps_left p q.phases < steps_left p s.phases) (some_inj h)
          (cheaper p s.phases id (freeing []) (notifying (successor_range p.graph id))
            (lt_of id _ e refl) e (omega arith))
    advance_decreases t id (freeing (d ∷ ds)) e h =
        subst (λ q. steps_left p q.phases < steps_left p s.phases) (some_inj h)
          (rw (release_slot-phases s d) (
            cheaper p s.phases id (freeing (d ∷ ds)) (freeing ds) (lt_of id _ e refl) e
              (omega arith)))
    advance_decreases t id (notifying []) e h =
        subst (λ q. steps_left p q.phases < steps_left p s.phases) (some_inj h)
          (cheaper p s.phases id (notifying []) finished (lt_of id _ e refl) e (omega arith))
    advance_decreases t id (notifying (x ∷ xs)) e h =
        subst (λ q. steps_left p q.phases < steps_left p s.phases) (some_inj h)
          (notify_decreases id x xs e)
    advance_decreases t id _ e h = cc

    pop_decreases :
        (before after : List ReadyItem) (item : ReadyItem)
        → s.ready_heap ≡ before ++ item ∷ after
        → steps_left p (update s.phases item.id body) < steps_left p s.phases
    unfolding count
    pop_decreases before after item e =
        let counts =
          ap (λ items. count item.id (ids items)) e ∙ ids-append before (item ∷ after) item.id in
        let was : is_queued (s.phases item.id) ≡ true =
          ground (arith, counts, inv.counters.listed item.id) in
        queued_decreases (s.phases item.id) refl was
      where
        queued_decreases :
            (ph : Phase)
            → s.phases item.id ≡ ph
            → is_queued ph ≡ true
            → steps_left p (update s.phases item.id body) < steps_left p s.phases
        queued_decreases queued e h =
            cheaper p s.phases item.id queued body (lt_of item.id queued e refl) e (omega arith)
        queued_decreases _ e h = cc

  -- The atomic steps of the workers: all but a cancellation.
  pub data WorkerStep (s t : Run V) : Type 0 where
    popped :
        (before after : List ReadyItem) (item : ReadyItem)
        → s.ready_heap ≡ before ++ item ∷ after
        → t ≡ take_item nothing p s before item after
        → WorkerStep s t
    advanced : (id : ℕ) → advance nothing p s id ≡ some t → WorkerStep s t

  -- Each atomic step of a worker, from a state that a run can come to, lowers the number of steps
  -- that are left: a run makes no more of them than its first state has left.
  pub run_decreases :
      {s t : Run V}
      → Reach nothing p workers s
      → WorkerStep s t
      → steps_left p t.phases < steps_left p s.phases
  unfolding advance
  run_decreases {s} {t} r (popped before after item e same) =
      rw same (pop_decreases s (Reach-Inv nothing p workers startable r) before after item e)
  run_decreases {s} {t} r (advanced id e) =
      advance_decreases s (Reach-Inv nothing p workers startable r) t id (s.phases id) refl e

  completed-le :
      (s : Run V) → Inv nothing p workers (outcome_of nothing p) s → s.completed ≤ p.total_to_run
  completed-le s inv = omega (
    arith,
    inv.done,
    startable.total,
    sum_below_mono (node_count p.graph) (λ v. to_nat (is_finished (s.phases v)))
        (λ v. if skips p v then 0 else 1)
        (λ v _.
          finished-le nothing p workers startable s.phases v (λ h. (inv.counters.started v h).0.1)),
  )

  next-Step :
      (s : Run V)
      → CanGoOn nothing p workers startable s
      → (t : Run V) × Step nothing p s t × WorkerStep s t
  next-Step s (inl (id, t, e)) = (t, work id e, advanced id e)
  next-Step s (inr (idle, b)) = (
    take_item nothing p s b.before b.item b.after,
    pop b.before b.after b.item idle b.place b.top refl,
    popped b.before b.after b.item b.place refl,
  )

  completes_within :
      0 < workers
      → (budget : ℕ) (s : Run V) → steps_left p s.phases < budget
      → Reach nothing p workers s
      → (t : Run V) × Reach nothing p workers t × (t.completed ≡ p.total_to_run)
  completes_within staffed zero s h r = absurd (omega arith)
  completes_within staffed (suc budget) s h r = elim (dec_lt s.completed p.total_to_run) [
    | no over ↦ (s, r, omega (arith, completed-le s (Reach-Inv nothing p workers startable r)))
    | yes going ↦
        let (t, step, moved) =
          next-Step s (run_progress nothing p workers startable r staffed going) in
        completes_within staffed budget t (omega (arith, run_decreases r moved)) (later r step)
  ]

  -- With at least one worker, a run ends: from every state that it can come to, steps lead to a state
  -- in which all nodes of the run have finished.
  pub run_completes :
      {s : Run V}
      → Reach nothing p workers s
      → 0 < workers
      → (t : Run V) × Reach nothing p workers t × (t.completed ≡ p.total_to_run)
  run_completes {s} r staffed =
      completes_within staffed (suc (steps_left p s.phases)) s (omega arith) r
