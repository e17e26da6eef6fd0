-- ===== src/Graph/Executor/Start.antt =====
-- The state that the constructor of `run_state` and the seeding of the queue set up meets the
-- invariant, for each of the three entry points.
use xsigma.Common.{
  ℕ, ◌^◌, ◌<◌, ◌≡◌, refl, sym, ap, ◌∙◌, Bool, true, false, not, ◌&&◌, Option, none, List, [], ◌∷◌,
  arith, dec_lt, ◌==◌, if◌then◌else◌, length, get_or, count, range, length-map, length-range_from,
  length-replicate, get_or-map-range, get_or_beyond, get_or-replicate_self, count-range, sum_below,
  sum_below-congr, sum_below-zero, sum_below_ones, sum_below-count,
}
use xsigma.Graph.Dependency.{
  IsFrozen, DependencyGraph, node_count, successor_range, dependency_range, dependency_count,
}
use xsigma.Graph.Executor.Step.{NodeWork, Plan, Phase, blocked, queued, skips}
use xsigma.Graph.Executor.Plan.{init, initial_remaining, initial_remainings, starts, seed_ready}
use xsigma.Graph.Executor.Counters.{Takes, Counters, owed_to, is_queued, is_blocked, ids}
use xsigma.Graph.Executor.Liveness.{Liveness}
use xsigma.Graph.Executor.Dataflow.{Outcome}
use xsigma.Graph.Executor.Invariant.{ran, is_busy, tallied, IsRunnable, Inv}

-- The counters that a plan starts from are the numbers of dependencies and of readers.
pub record IsStartable {V : Type 0} (p : Plan V) : Type 0 where
  pub runnable : IsRunnable p
  pub needs : (v : ℕ) → Takes p v → initial_remaining p v ≡ length (dependency_range p.graph v)
  pub small : (v : ℕ) → initial_remaining p v < 2 ^ 32
  pub total : p.total_to_run ≡ sum_below (node_count p.graph) (λ v. if skips p v then 0 else 1)
  pub readers : (workers : ℕ) → Liveness p (init p workers).consumers_left (init p workers).phases

module _ {V : Type 0} (nothing : V) (p : Plan V) (workers : ℕ) (outcome : ℕ → Outcome V)
    (startable : IsStartable p) where
  abbrev n : ℕ
  n = node_count p.graph

  remaining_at :
      (v : ℕ) → v < n → (d : ℕ) → get_or (initial_remainings p) v d ≡ initial_remaining p v
  remaining_at v lt d = get_or-map-range (initial_remaining p) n v d lt

  remaining-length : length (initial_remainings p) ≡ n
  remaining-length = length-map (initial_remaining p) (range n) ∙ length-range_from 0 n

  inflow :
      (v : ℕ)
      → sum_below n (λ u. count v (successor_range p.graph u)) ≡ length (dependency_range p.graph v)
  inflow v =
      sum_below-congr n _ (λ u. count u (dependency_range p.graph v))
        (λ u _. startable.runnable.frozen.transposed u v)
      ∙ sum_below-count n (dependency_range p.graph v)
          (λ u h. ground (arith, startable.runnable.frozen.below u v))

  abbrev first_phase : ℕ → Phase
  first_phase v = if starts p v then queued else blocked

  owed_first : (v u : ℕ) → owed_to p first_phase v u ≡ count v (successor_range p.graph u)
  owed_first v u = ground arith

  count-seed_ready :
      (rem xs : List ℕ) (v : ℕ)
      → count v (ids (seed_ready p rem xs))
        ≡ (if not (skips p v) && (get_or rem v 1 == 0) then count v xs else 0)
  unfolding seed_ready count
  count-seed_ready rem [] v = ground arith
  count-seed_ready rem (x ∷ xs) v = ground (arith, count-seed_ready rem xs v)

  starts-lt : (v : ℕ) → starts p v ≡ true → v < n
  starts-lt v h = ground (arith, get_or_beyond (initial_remainings p) v 1, remaining-length)

  init-Counters :
      Counters p (init p workers).remaining (init p workers).ready_heap (init p workers).phases
  unfolding init count
  init-Counters = record {
    sized = remaining-length;
    small = λ v. elim (dec_lt v n) [
      | yes lt ↦ rw (remaining_at v lt 0) (startable.small v)
      | no out ↦
          omega (arith, get_or_beyond (initial_remainings p) v 0 (omega (arith, remaining-length)))
    ];
    owes = λ v t.
        remaining_at v t.0 0
        ∙ startable.needs v t
        ∙ sym (sum_below-congr n (owed_to p first_phase v) _ (λ u _. owed_first v u) ∙ inflow v);
    waits = λ v t e. ground (arith, remaining_at v t.0 0, remaining_at v t.0 1, ap is_blocked e);
    started = λ v e.
        let h : starts p v ≡ true = ground arith in
        let lt = starts-lt v h in
        ((lt, ground arith), ground (arith, remaining_at v lt 0, remaining_at v lt 1));
    listed = λ v.
        ground (
          arith,
          count-seed_ready (initial_remainings p) (range n) v,
          count-range v n,
          starts-lt v,
        );
    within = λ v. first_Within v (starts p v);
  }
    where
      first_Within :
          (v : ℕ) (b : Bool)
          → xsigma.Graph.Executor.Counters.Within p (if b then queued else blocked) v
      first_Within v true = tt
      first_Within v false = tt

  first_ran : (v : ℕ) → ran (first_phase v) ≡ false
  first_ran v = ground arith

  pub init-Inv : Inv nothing p workers outcome (init p workers)
  unfolding init
  init-Inv = record {
    counters = init-Counters;
    liveness = startable.readers workers;
    width_failed = length-replicate n false;
    width_results = length-replicate n none;
    flags = λ v h. absurd (never v h);
    slots = λ v h. absurd (never v h);
    fresh = λ v h. get_or-replicate_self n v false;
    done = sym (sum_below-congr n _ (λ _. 0) (λ v _. ground arith) ∙ sum_below-zero n);
    staff = omega (arith, idle_first);
    recorded = λ id m e. cc;
    unrecorded = λ v h. absurd (never v h);
  }
    where
      idle_first : tallied n is_busy first_phase ≡ 0
      idle_first = sum_below-congr n _ (λ _. 0) (λ v _. ground arith) ∙ sum_below-zero n

      never : (v : ℕ) → ran (first_phase v) ≡ true → ⊥
      never v h = ground arith

module _ {V : Type 0} (g : DependencyGraph (NodeWork V)) (frozen : IsFrozen g) where
  pub dependency_count-lt : (v : ℕ) → dependency_count g v < 2 ^ 32
  unfolding dependency_count
  dependency_count-lt v = omega arith

  -- A plan that schedules every node.
  pub unrestricted-IsStartable :
      (sinks : List Bool) (incremental : Bool) (dirty : List Bool) (cache : ℕ → Option V)
      → IsStartable (record {
        graph = g;
        scheduled = [];
        is_sink = sinks;
        incremental = incremental;
        dirty = dirty;
        cache = cache;
        total_to_run = node_count g;
      })
  unfolding initial_remaining init
  unrestricted-IsStartable sinks incremental dirty cache = record {
    runnable = record { frozen = frozen; closed = λ v u t k. refl };
    needs = λ v t. frozen.counted v t.0;
    small = dependency_count-lt;
    total = sym (sum_below_ones (node_count g) (λ _. 1) (λ _ _. refl));
    readers =
        λ workers. record { sized = λ u lt h. cc; small = λ u. omega arith; uses = λ u lt h. cc };
  }
