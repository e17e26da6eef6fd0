-- ===== src/Graph/Executor/Progress.antt =====
-- A run of Library/Graph/graph_executor.cpp cannot get stuck. A worker that waits for the ready queue is
-- taken to wake when it has an item, as a condition variable that is notified at each push does.
use xsigma.Common.{
  ℕ, zero, suc, ◌≤◌, ◌<◌, ◌≡◌, refl, sym, ap, subst, true, false, ◌⊎◌, inl, inr, some, List, [],
  ◌∷◌, ◌++◌, arith, dec_lt, Bool-cases, List-cases, if◌then◌else◌, count, to_nat, sum_below-ge,
  sum_below_mono, sum_below_some, position,
}
use xsigma.Graph.Dependency.{node_count, dependency_range, successor_range}
use xsigma.Graph.Executor.Step.{
  Plan, Phase, blocked, queued, body, finished, freeing, notifying, ReadyItem, IsTop, Run, skips,
  advance, advance_at,
}
use xsigma.Graph.Executor.Counters.{Takes, owed, owed_to, is_queued, ids}
use xsigma.Graph.Executor.Invariant.{is_finished, is_busy, tallied, Inv}
use xsigma.Graph.Executor.Preserve.Steps.{body_advances}
use xsigma.Graph.Executor.Start.{IsStartable}
use xsigma.Graph.Executor.Solve.{outcome_of, outcome_of-IsSolution}
use xsigma.Graph.Executor.Runs.{Reach, Reach-Inv}

-- An item of greatest rank, with what stands before and after it.
pub record Best (items : List ReadyItem) : Type 0 where
  pub before : List ReadyItem
  pub after : List ReadyItem
  pub item : ReadyItem
  pub place : items ≡ before ++ item ∷ after
  pub top : IsTop item items

IsTop-mono :
    (a b : ReadyItem) → a.rank ≤ b.rank → (items : List ReadyItem) → IsTop a items → IsTop b items
IsTop-mono a b h [] t = tt
IsTop-mono a b h (x ∷ xs) (le, t) = (omega arith, IsTop-mono a b h xs t)

best : (x : ReadyItem) (xs : List ReadyItem) → Best (x ∷ xs)
best x [] = record { before = []; after = []; item = x; place = refl; top = (omega arith, tt) }
best x (y ∷ ys) =
    let later = best y ys in
    elim (dec_lt x.rank later.item.rank) [
      | yes lt ↦ record {
        before = x ∷ later.before;
        after = later.after;
        item = later.item;
        place = ap (λ zs. x ∷ zs) later.place;
        top = (omega arith, later.top);
      }
      | no ge ↦ record {
        before = [];
        after = y ∷ ys;
        item = x;
        place = refl;
        top = (omega arith, IsTop-mono later.item x (omega arith) (y ∷ ys) later.top);
      }
    ]

-- A node that no worker executes and that is not in the ready queue is blocked or finished.
resting :
    (ph : Phase) → is_busy ph ≡ false → is_queued ph ≡ false → (ph ≡ blocked) ⊎ (ph ≡ finished)
resting blocked b q = inl refl
resting finished b q = inr refl
resting queued b q = cc
resting body b q = cc
resting (freeing left) b q = cc
resting (notifying left) b q = cc

module _ {V : Type 0} (nothing : V) (p : Plan V) (workers : ℕ) (startable : IsStartable p) where
  abbrev n : ℕ
  n = node_count p.graph

  -- A worker can take a step, without any `cancel`.
  abbrev pub CanGoOn : Run V → Type 0
  CanGoOn s =
      ((id : ℕ) × (t : Run V) × (advance nothing p s id ≡ some t))
      ⊎ ((0 < s.idle) × Best s.ready_heap)

  busy_advances :
      (s : Run V)
      → Inv nothing p workers (outcome_of nothing p) s
      → (id : ℕ) (ph : Phase) → s.phases id ≡ ph
      → is_busy ph ≡ true
      → (t : Run V) × (advance nothing p s id ≡ some t)
  unfolding advance advance_at
  busy_advances s inv id body e b =
      let (t, runs, _) =
        body_advances startable.runnable (outcome_of-IsSolution nothing p startable.runnable.frozen)
          s inv id e in
      (t, runs)
  busy_advances s inv id (freeing left) e b =
      subst (λ ph. (t : Run V) × (advance_at nothing p ph s id ≡ some t)) (sym e) (frees_on left)
    where
      frees_on : (left : List ℕ) → (t : Run V) × (advance_at nothing p (freeing left) s id ≡ some t)
      frees_on [] = (_, refl)
      frees_on (x ∷ xs) = (_, refl)
  busy_advances s inv id (notifying left) e b =
      subst (λ ph. (t : Run V) × (advance_at nothing p ph s id ≡ some t)) (sym e) (notifies_on left)
    where
      notifies_on :
          (left : List ℕ) → (t : Run V) × (advance_at nothing p (notifying left) s id ≡ some t)
      notifies_on [] = (_, refl)
      notifies_on (x ∷ xs) = (_, refl)
  busy_advances s inv id _ e b = cc

  module _ (s : Run V) (inv : Inv nothing p workers (outcome_of nothing p) s)
      (calm : tallied n is_busy s.phases ≡ 0) (dry : s.ready_heap ≡ []) where
    rests : (v : ℕ) → v < n → (s.phases v ≡ blocked) ⊎ (s.phases v ≡ finished)
    unfolding count
    rests v lt =
        let share = sum_below-ge n (λ u. to_nat (is_busy (s.phases u))) v lt in
        let none_ready : count v (ids s.ready_heap) ≡ 0 = rw dry refl in
        resting (s.phases v) (ground (arith, share, calm))
          (ground (arith, inv.counters.listed v, none_ready))

    all_finished :
        (depth v : ℕ)
        → position v p.graph.topological_order < depth
        → Takes p v
        → s.phases v ≡ finished
    all_finished zero v h t = absurd (omega arith)
    all_finished (suc depth) v h t = elim (rests v t.0) [
      | inr e ↦ e
      | inl e ↦
          let (u, lt, owes) =
            sum_below_some n (owed_to p s.phases v)
              (omega (arith, inv.counters.waits v t e, inv.counters.owes v t)) in
          elim (rests u lt) [
            | inr over ↦
                absurd (omega (arith, owes, ap (λ ph. owed ph (successor_range p.graph u) v) over))
            | inl waiting ↦
                let dep : 0 < count u (dependency_range p.graph v) = omega (
                  arith,
                  owes,
                  ap (λ ph. owed ph (successor_range p.graph u) v) waiting,
                  startable.runnable.frozen.transposed u v,
                ) in
                let over =
                  all_finished depth u (omega (arith, startable.runnable.frozen.precedes v u dep))
                    (lt, startable.runnable.closed v u t dep) in
                cc
          ]
    ]

  -- While a node of the run is still to finish, a worker can take an atomic step: one that executes
  -- a node can go on with it, or one is idle and the ready queue has an item for it.
  pub run_progress :
      {s : Run V}
      → Reach nothing p workers s
      → 0 < workers
      → s.completed < p.total_to_run
      → CanGoOn s
  run_progress {s} r staffed going =
      let inv = Reach-Inv nothing p workers startable r in
      elim (dec_lt 0 (tallied n is_busy s.phases)) [
        | yes some_busy ↦
            let (id, _, b) = sum_below_some n (λ u. to_nat (is_busy (s.phases u))) some_busy in
            let (t, runs) = busy_advances s inv id (s.phases id) refl (ground arith) in
            inl (id, t, runs)
        | no calm ↦ elim (List-cases s.ready_heap) [
          | inr (x, xs, e) ↦ inr (omega (arith, inv.staff), subst Best (sym e) (best x xs))
          | inl dry ↦
              let full =
                sum_below_mono n (λ v. if skips p v then 0 else 1)
                  (λ v. to_nat (is_finished (s.phases v)))
                  (λ v lt. elim (Bool-cases (skips p v)) [
                    | inl out ↦ rw out (omega arith)
                    | inr into ↦
                        let over =
                          all_finished s inv (omega arith) dry
                            (suc (position v p.graph.topological_order)) v (omega arith)
                            (lt, into) in
                        rw (over, into) (omega arith)
                  ]) in
              absurd (omega (arith, full, inv.done, startable.total, going))
        ]
      ]
