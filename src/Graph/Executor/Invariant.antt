-- ===== src/Graph/Executor/Invariant.antt =====
-- The invariant of a run, and what it says of a node that is about to run.
use xsigma.Common.{
  ℕ, ◌+◌, ◌<◌, ◌≡◌, ◌≢◌, refl, ap, String, Bool, true, false, ◌⊎◌, inl, inr, none, some, arith,
  ◌==◌, length, get_or, count, to_nat, sum_below, sum_below-change, sum_below-ge,
}
use xsigma.Graph.Dependency.{IsFrozen, node_count, successor_range, dependency_range}
use xsigma.Graph.Executor.Step.{
  Plan, Phase, blocked, queued, body, finished, freeing, notifying, Run, update, skips,
}
use xsigma.Graph.Executor.Counters.{Takes, Counters, owed_to, is_blocked, update_at}
use xsigma.Graph.Executor.Liveness.{Liveness, frees, unread_pos}
use xsigma.Graph.Executor.Dataflow.{Outcome, raised, skipped, Flagged, Holds, AllShow}

-- The body of the node has been executed.
abbrev pub ran : Phase → Bool
ran blocked = false
ran queued = false
ran body = false
ran _ = true

abbrev pub is_finished : Phase → Bool
is_finished finished = true
is_finished _ = false

-- A worker executes the node.
abbrev pub is_busy : Phase → Bool
is_busy blocked = false
is_busy queued = false
is_busy finished = false
is_busy _ = true

abbrev pub tallied : ℕ → (Phase → Bool) → (ℕ → Phase) → ℕ
tallied n w phases = sum_below n (λ v. to_nat (w (phases v)))

pub tallied-update :
    (n : ℕ) (w : Phase → Bool) (phases : ℕ → Phase) (id : ℕ) (next : Phase)
    → id < n
    → tallied n w (update phases id next) + to_nat (w (phases id))
      ≡ tallied n w phases + to_nat (w next)
tallied-update n w phases id next lt =
    let change =
      sum_below-change n id (λ v. to_nat (w (phases v))) (λ v. to_nat (w (update phases id next v)))
        lt
        (λ v ne.
          update_at (λ v ph. v ≢ id → to_nat (w (phases v)) ≡ to_nat (w ph)) phases id next
            (λ ne. absurd (ne refl)) (λ _ _ _. refl) v ne) in
    let here : w (update phases id next id) ≡ w next = rw (self id) refl in
    ground (arith, change, here)
  where
    self : (a : ℕ) → (a == a) ≡ true
    self a = ground arith

-- What a plan has to meet: its graph is frozen, and it schedules the dependencies of what it
-- schedules.
pub record IsRunnable {V : Type 0} (p : Plan V) : Type 0 where
  pub frozen : IsFrozen p.graph
  pub closed : (v u : ℕ) → Takes p v → 0 < count u (dependency_range p.graph v) → skips p u ≡ false

module _ {V : Type 0} (nothing : V) (p : Plan V) (workers : ℕ) (outcome : ℕ → Outcome V) where
  abbrev pub n : ℕ
  n = node_count p.graph

  -- The slot was freed: no node of the run is still to read it.
  abbrev pub Freed : Run V → ℕ → Type 0
  Freed s v = (frees p v ≡ true) × (get_or s.consumers_left v 0 ≡ 0)

  pub record Inv (s : Run V) : Type 0 where
    pub counters : Counters p s.remaining s.ready_heap s.phases
    pub liveness : Liveness p s.consumers_left s.phases
    pub width_failed : length s.failed ≡ n
    pub width_results : length s.results ≡ n
    pub flags : (v : ℕ) → ran (s.phases v) ≡ true → Flagged nothing p s.cancelled s.failed outcome v
    pub slots :
        (v : ℕ) → ran (s.phases v) ≡ true → Holds nothing p s.failed s.results outcome v ⊎ Freed s v
    pub fresh : (v : ℕ) → ran (s.phases v) ≡ false → get_or s.failed v false ≡ false
    pub done : s.completed ≡ tallied n is_finished s.phases
    pub staff : s.idle + tallied n is_busy s.phases ≡ workers
    pub recorded :
        (id : ℕ) (message : String)
        → s.failure ≡ some (id, message)
        → Takes p id × (outcome id ≡ raised message)
    pub unrecorded :
        (v : ℕ)
        → ran (s.phases v) ≡ true
        → get_or s.failed v false ≡ true
        → (s.cancelled ≡ true) ⊎ ((outcome v ≡ skipped) ⊎ (s.failure ≢ none))

  module _ (runnable : IsRunnable p) (s : Run V) (inv : Inv s) where
    pub takes : (id : ℕ) → is_blocked (s.phases id) ≡ false → Takes p id
    takes id h = (inv.counters.started id h).0

    -- Every dependency of a node that is to run has run.
    pub dependency_ran :
        (id u : ℕ)
        → is_blocked (s.phases id) ≡ false
        → 0 < count u (dependency_range p.graph id)
        → ran (s.phases u) ≡ true
    dependency_ran id u h k =
        let (t, zero_left) = inv.counters.started id h in
        let (u_lt, _) = runnable.frozen.below u id k in
        let share = sum_below-ge n (owed_to p s.phases id) u u_lt in
        paid (s.phases u) refl (omega (arith, share, inv.counters.owes id t))
      where
        paid : (ph : Phase) → s.phases u ≡ ph → owed_to p s.phases id u ≡ 0 → ran ph ≡ true
        paid blocked e z = absurd (omega (arith, runnable.frozen.transposed u id, owes_all e z))
          where
            owes_all :
                s.phases u ≡ blocked
                → owed_to p s.phases id u ≡ 0
                → count id (successor_range p.graph u) ≡ 0
            owes_all e z = rw e at z
        paid queued e z = absurd (omega (arith, runnable.frozen.transposed u id, owes_all e z))
          where
            owes_all :
                s.phases u ≡ queued
                → owed_to p s.phases id u ≡ 0
                → count id (successor_range p.graph u) ≡ 0
            owes_all e z = rw e at z
        paid body e z = absurd (omega (arith, runnable.frozen.transposed u id, owes_all e z))
          where
            owes_all :
                s.phases u ≡ body
                → owed_to p s.phases id u ≡ 0
                → count id (successor_range p.graph u) ≡ 0
            owes_all e z = rw e at z
        paid (freeing left) e z = refl
        paid (notifying left) e z = refl
        paid finished e z = refl

    -- The inputs of a node that is about to run are in place.
    pub inputs_show :
        (id : ℕ)
        → s.phases id ≡ body
        → AllShow nothing p s.cancelled s.failed s.results outcome (dependency_range p.graph id)
    inputs_show id at u k =
        let t = takes id (ap is_blocked at) in
        let (u_lt, _) = runnable.frozen.below u id k in
        let has_run = dependency_ran id u (ap is_blocked at) k in
        (
          inv.flags u has_run,
          elim (inv.slots u has_run) [
            | inl full ↦ full
            | inr (free, gone) ↦
                absurd (omega (arith, unread_pos p inv.liveness u id u_lt free t (rw at k)))
          ],
        )
