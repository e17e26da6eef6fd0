-- ===== src/Graph/Tests/Caching.antt =====
-- An incremental run of a small graph against the results of a full run.
use xsigma.Common.{get_or, ◌<◌, ℕ, zero, suc, ◌≡◌, refl, ap, ◌∙◌, some, some_inj, [], ◌∷◌, arith}
use xsigma.Graph.Dependency.{node_count, node_at, dependency_range, version}
use xsigma.Graph.Executor.Step.{work_of}
use xsigma.Graph.Executor.Dataflow.{value, any_failing, compute}
use xsigma.Graph.Executor.Solve.{outcome_within, outcome_of}
use xsigma.Graph.Executor.Incremental.{work_at, incremental_agrees}
use xsigma.Graph.Executor.Plan.{incremental_plan, full_plan}
use xsigma.Graph.Tests.{pair_graph, pair-IsFrozen, fork_graph, fork-IsFrozen}
use xsigma.Graph.Tests.Running.{kept, full}

first_value : outcome_of 0 full 0 ≡ value 1
unfolding outcome_of outcome_within compute any_failing work_of node_count node_at dependency_range
first_value = refl

second_value : outcome_of 0 full 1 ≡ value 2
unfolding outcome_of outcome_within compute any_failing work_of node_count node_at dependency_range
second_value = refl

kept_values : (v x : ℕ) → kept v ≡ some x → outcome_of 0 full v ≡ value x
kept_values zero x e = first_value ∙ ap value (some_inj e)
kept_values (suc zero) x e = second_value ∙ ap value (some_inj e)
kept_values (suc (suc v)) x e = cc

-- The nodes of the pair have the work and the inputs that they had; node 2 is new.
same_work :
    (v : ℕ)
    → v < node_count fork_graph
    → version fork_graph v ≡ get_or (1 ∷ 1 ∷ []) v 0
    → (v < node_count pair_graph)
      × (work_at fork_graph v ≡ work_at pair_graph v)
      × (dependency_range fork_graph v ≡ dependency_range pair_graph v)
unfolding node_count node_at dependency_range version
same_work zero lt e = (omega arith, refl, refl)
same_work (suc zero) lt e = (omega arith, refl, refl)
same_work (suc (suc zero)) lt e = cc
same_work (suc (suc (suc v))) lt e = absurd (omega (arith, lt))

incremental_agrees_example :
    outcome_of 0 (incremental_plan fork_graph (1 ∷ 1 ∷ []) kept) 2
    ≡ outcome_of 0 (full_plan fork_graph) 2
unfolding node_count
incremental_agrees_example =
    incremental_agrees 0 pair_graph fork_graph pair-IsFrozen fork-IsFrozen (1 ∷ 1 ∷ []) kept
      same_work kept_values 2 (omega arith)
