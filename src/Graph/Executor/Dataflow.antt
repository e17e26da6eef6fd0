-- ===== src/Graph/Executor/Dataflow.antt =====
-- What a run computes, independently of threads: the outcome of each node as a function of the
-- outcomes of its dependencies.
use xsigma.Common.{
  ℕ, ◌<◌, ◌≡◌, refl, String, Bool, true, false, not, ◌&&◌, ◌||◌, ◌⊎◌, Option, none, some, List, [],
  ◌∷◌, map, arith, if◌then◌else◌, get_or, count,
}
use xsigma.Graph.Dependency.{node_at, dependency_range}
use xsigma.Graph.Executor.Step.{
  Attempt, returned, threw, threw_unknown, Plan, any_failed, gather, unknown_text, work_of,
}
use xsigma.Graph.Executor.Counters.{Takes}

pub data Outcome (V : Type 0) : Type 0 where
  value : V → Outcome V
  raised : String → Outcome V
  skipped : Outcome V

module _ {V : Type 0} (nothing : V) (p : Plan V) where
  abbrev pub failing : Outcome V → Bool
  failing (value x) = false
  failing _ = true

  -- What a node's slot holds; the slot of a node that fails holds the empty value.
  abbrev pub shown : Outcome V → V
  shown (value x) = x
  shown _ = nothing

  unfoldable pub any_failing : List (Outcome V) → Bool
  any_failing [] = false
  any_failing (o ∷ os) = failing o || any_failing os

  abbrev pub attempted : String → Attempt V → Outcome V
  attempted text (returned x) = value x
  attempted text (threw message) = raised message
  attempted text threw_unknown = raised text

  abbrev pub served : Option V → Outcome V
  served none = raised "clean node missing from incremental cache"
  served (some x) = value x

  abbrev pub is_clean : ℕ → Bool
  is_clean id = p.incremental && not (get_or p.dirty id true)

  unfoldable pub compute : ℕ → List (Outcome V) → Outcome V
  unfolding any_failing
  compute id outcomes =
      if any_failing outcomes
      then skipped
      else if is_clean id
      then served (p.cache id)
      else attempted (unknown_text nothing p (node_at p.graph id))
          (work_of nothing p (node_at p.graph id) (map shown outcomes))

  -- `outcome` solves the equations of the graph at the nodes of the run.
  abbrev pub IsSolution : (ℕ → Outcome V) → Type 0
  IsSolution outcome =
      (id : ℕ) → Takes p id → outcome id ≡ compute id (map outcome (dependency_range p.graph id))

  -- The failure flag of `u` agrees with `outcome`; after a cancellation it may also be set where
  -- the outcome is a value.
  pub record Flagged (cancelled : Bool) (failed : List Bool) (outcome : ℕ → Outcome V) (u : ℕ)
      : Type 0 where
    pub clear : get_or failed u false ≡ false → failing (outcome u) ≡ false
    pub marked : get_or failed u false ≡ true → (cancelled ≡ true) ⊎ (failing (outcome u) ≡ true)

  -- The slot of `u` holds its result, and the empty value if `u` is flagged.
  abbrev pub Holds : List Bool → List (Option V) → (ℕ → Outcome V) → ℕ → Type 0
  Holds failed results outcome u =
      get_or results u none ≡ some (if get_or failed u false then nothing else shown (outcome u))

  module _ (cancelled : Bool) (failed : List Bool) (results : List (Option V))
      (outcome : ℕ → Outcome V) where
    abbrev pub AllShow : List ℕ → Type 0
    AllShow ds =
        (u : ℕ)
        → 0 < count u ds
        → Flagged cancelled failed outcome u × Holds failed results outcome u

    tail_show : (d : ℕ) (ds : List ℕ) → AllShow (d ∷ ds) → AllShow ds
    unfolding count
    tail_show d ds h u k = h u (omega arith)

    head_show :
        (d : ℕ) (ds : List ℕ)
        → AllShow (d ∷ ds)
        → Flagged cancelled failed outcome d × Holds failed results outcome d
    unfolding count
    head_show d ds h = h d (ground arith)

    -- If a dependency is flagged, the node is skipped.
    pub flagged_skips :
        (ds : List ℕ)
        → AllShow ds
        → any_failed nothing p failed ds ≡ true
        → (cancelled ≡ true) ⊎ (any_failing (map outcome ds) ≡ true)
    unfolding any_failed any_failing
    flagged_skips [] h e = cc
    flagged_skips (d ∷ ds) h e =
        ground (arith, (head_show d ds h).0.marked, flagged_skips ds (tail_show d ds h))

    -- Otherwise its inputs are the values of the dependencies, in their order.
    pub clear_gathers :
        (ds : List ℕ)
        → AllShow ds
        → any_failed nothing p failed ds ≡ false
        → (any_failing (map outcome ds) ≡ false)
          × (gather nothing p results ds ≡ some (map shown (map outcome ds)))
    unfolding any_failed any_failing gather
    clear_gathers [] h e = (refl, refl)
    clear_gathers (d ∷ ds) h e =
        let (first, rest) = split (get_or failed d false) (any_failed nothing p failed ds) e in
        let (flag, full) = head_show d ds h in
        let slot : get_or results d none ≡ some (shown (outcome d)) = rw first at full in
        let (oks, slots) = clear_gathers ds (tail_show d ds h) rest in
        (rw (flag.clear first, oks), rw (slot, slots, gather))
      where
        split : (a b : Bool) → (a || b) ≡ false → (a ≡ false) × (b ≡ false)
        split a b h = ground arith
