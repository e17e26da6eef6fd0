-- ===== src/Graph/Executor/Plan.antt =====
-- The constructor of `run_state` in Library/Graph/graph_executor.cpp, the entry points `run`,
-- `run_to` and `run_incremental`, which differ in the plan that they hand to it, and the end of
-- `execute`, which collects the results. `cache` is the caller's map from node ids to results.
use xsigma.Common.{
  ℕ, ◌+◌, Bool, true, false, not, ◌&&◌, ◌||◌, Option, none, some, List, [], ◌∷◌, map, foldl, ◌==◌,
  if◌then◌else◌, get_or, set, replicate, range,
}
use xsigma.Graph.Dependency.{
  DependencyGraph, to_u32, node_count, dependency_range, dependency_count, priority, version,
}
use xsigma.Graph.Passes.{ancestor_set, consumer_counts}
use xsigma.Graph.Executor.Step.{NodeWork, Plan, blocked, queued, ReadyItem, Run, is_empty, skips}

module _ {V : Type 0} (g : DependencyGraph (NodeWork V)) where
  abbrev pub full_plan : Plan V
  full_plan = record {
    graph = g;
    scheduled = [];
    is_sink = [];
    incremental = false;
    dirty = [];
    cache = λ _. none;
    total_to_run = node_count g;
  }

  -- `is_sink[s] = 1` for each sink.
  unfoldable pub mark_sinks : List ℕ → List Bool
  mark_sinks = foldl (λ flags s. set flags s true) (replicate (node_count g) false)

  unfoldable pub total_scheduled : List Bool → ℕ
  total_scheduled [] = 0
  total_scheduled (b ∷ bs) = (if b then 1 else 0) + total_scheduled bs

  -- A run of the ancestors of some sinks.
  abbrev pub restricted_plan : List ℕ → Plan V
  restricted_plan sinks = record {
    graph = g;
    scheduled = ancestor_set g sinks;
    is_sink = mark_sinks sinks;
    incremental = false;
    dirty = [];
    cache = λ _. none;
    total_to_run = total_scheduled (ancestor_set g sinks);
  }

  abbrev pub missing : Option V → Bool
  missing none = true
  missing (some _) = false

  -- The nodes whose version has moved, or which have no cached result.
  unfoldable pub seed_dirty : List ℕ → (ℕ → Option V) → List Bool
  seed_dirty baseline cache =
      map (λ id. not (version g id == get_or baseline id 0) || missing (cache id))
        (range (node_count g))

  unfoldable pub any_dirty : List Bool → List ℕ → Bool
  any_dirty dirty [] = false
  any_dirty dirty (d ∷ ds) = get_or dirty d false || any_dirty dirty ds

  unfoldable pub propagate : List Bool → ℕ → List Bool
  unfolding any_dirty
  propagate dirty id =
      if get_or dirty id false
      then dirty
      else if any_dirty dirty (dependency_range g id)
      then set dirty id true
      else dirty

  unfoldable pub dirty_nodes : List ℕ → (ℕ → Option V) → List Bool
  unfolding seed_dirty propagate
  dirty_nodes baseline cache = foldl propagate (seed_dirty baseline cache) g.topological_order

  -- A run that recomputes the dirty nodes.
  abbrev pub incremental_plan : List ℕ → (ℕ → Option V) → Plan V
  incremental_plan baseline cache = record {
    graph = g;
    scheduled = [];
    is_sink = [];
    incremental = true;
    dirty = dirty_nodes baseline cache;
    cache = cache;
    total_to_run = node_count g;
  }

module _ {V : Type 0} (p : Plan V) where
  -- The sources of the run, in the order of their ids.
  unfoldable pub seed_ready : List ℕ → List ℕ → List ReadyItem
  seed_ready remaining [] = []
  seed_ready remaining (id ∷ ids) =
      let rest = seed_ready remaining ids in
      if not (skips p id) && (get_or remaining id 1 == 0)
      then record { rank = priority p.graph id; id = id } ∷ rest
      else rest

  -- The number of scheduled dependencies, counted in 32 bits.
  unfoldable pub count_scheduled : ℕ → List ℕ → ℕ
  count_scheduled deps [] = deps
  count_scheduled deps (d ∷ ds) =
      count_scheduled (if get_or p.scheduled d false then to_u32 (deps + 1) else deps) ds

  unfoldable pub initial_remaining : ℕ → ℕ
  initial_remaining id =
      if is_empty p.scheduled
      then dependency_count p.graph id
      else if get_or p.scheduled id false
      then count_scheduled 0 (dependency_range p.graph id)
      else 0

  abbrev pub initial_remainings : List ℕ
  initial_remainings = map initial_remaining (range (node_count p.graph))

  abbrev pub starts : ℕ → Bool
  starts id = not (skips p id) && (get_or initial_remainings id 1 == 0)

  unfoldable pub init : ℕ → Run V
  unfolding initial_remaining count_scheduled seed_ready
  init workers = record {
    remaining = initial_remainings;
    results = replicate (node_count p.graph) none;
    failed = replicate (node_count p.graph) false;
    consumers_left = if is_empty p.scheduled then [] else consumer_counts p.graph p.scheduled;
    ready_heap = seed_ready initial_remainings (range (node_count p.graph));
    completed = 0;
    failure = none;
    cancelled = false;
    phases = λ id. if starts id then queued else blocked;
    idle = workers;
  }
