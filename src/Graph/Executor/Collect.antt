-- ===== src/Graph/Executor/Collect.antt =====
-- The end of `execute` in Library/Graph/graph_executor.cpp: the results and the status of a run whose
-- nodes have all finished, and the status class of Library/Graph/graph_types.h. The caller's map is a
-- function from node ids; a read through a null result pointer is `none`.
use xsigma.Common.{
  ℕ, String, false, Option, none, some, List, [], ◌∷◌, if◌then◌else◌, get_or, range, ◌==◌, leb,
}
use xsigma.Graph.Dependency.{node_count}
use xsigma.Graph.Executor.Step.{Plan, Run, update}

pub data GraphExecutionStatus : Type 0 where
  success cancelled : GraphExecutionStatus
  failure : ℕ → String → GraphExecutionStatus

abbrev pub status_of_failure : Option (ℕ × String) → GraphExecutionStatus
status_of_failure none = success
status_of_failure (some (id, message)) = failure id message

abbrev pub ResultMap : Type 0 → Type 0
ResultMap V = ℕ → Option V

module _ {V : Type 0} where
  abbrev pub or_else : Option V → Option V → Option V
  or_else none second = second
  or_else (some first) second = some first

  -- `emplace` keeps the entry of a key that is there already.
  abbrev pub emplace : ResultMap V → ℕ → V → ResultMap V
  emplace out id v key = or_else (out key) (if key == id then some v else none)

  -- A slot, with the empty std::any for a null pointer.
  abbrev pub or_empty : V → Option V → V
  or_empty nothing none = nothing
  or_empty nothing (some v) = v

  unfoldable pub collect_all : Run V → ResultMap V → List ℕ → Option (ResultMap V)
  collect_all s out [] = some out
  collect_all s out (id ∷ ids) = elim (get_or s.results id none) [
    | none ↦ none
    | some v ↦ collect_all s (emplace out id v) ids
  ]

  unfoldable pub collect_sinks : V → Run V → ResultMap V → List ℕ → ResultMap V
  collect_sinks nothing s out [] = out
  collect_sinks nothing s out (sink ∷ sinks) =
      collect_sinks nothing s (emplace out sink (or_empty nothing (get_or s.results sink none)))
        sinks

  unfoldable pub collect_cache : V → Run V → ResultMap V → List ℕ → ResultMap V
  collect_cache nothing s out [] = out
  collect_cache nothing s out (id ∷ ids) =
      collect_cache nothing s
        (update out id (
          if get_or s.failed id false
          then none
          else some (or_empty nothing (get_or s.results id none))))
        ids

  -- What `execute` leaves in the caller's map, for the plan and the sinks that it was called with.
  unfoldable pub collect : V → Plan V → Option (List ℕ) → Run V → Option (ResultMap V)
  collect nothing p sinks s =
      if p.incremental
      then some (collect_cache nothing s (λ _. none) (range (node_count p.graph)))
      else elim sinks [
        | none ↦ collect_all s (λ _. none) (range (node_count p.graph))
        | some wanted ↦ some (collect_sinks nothing s (λ _. none) wanted)
      ]

  unfoldable pub final_status : Run V → GraphExecutionStatus
  final_status s = if s.cancelled then cancelled else status_of_failure s.failure

-- `run_to` refuses a sink outside the graph, and names the first one.
unfoldable pub invalid_sink : ℕ → List ℕ → Option ℕ
invalid_sink count [] = none
invalid_sink count (sink ∷ sinks) =
    let rest = invalid_sink count sinks in if leb count sink then some sink else rest
