-- ===== src/Graph/Tests/Reporting.antt =====
-- The theorems about whole runs of graph_executor, on runs of a small graph.
use xsigma.Common.{ℕ, ◌<◌, ◌≡◌, false, if◌then◌else◌, ltb, none, some, [], ◌∷◌, arith, count}
use xsigma.Graph.Dependency.{node_count}
use xsigma.Graph.Executor.Step.{Run, advance}
use xsigma.Graph.Executor.Plan.{init}
use xsigma.Graph.Executor.Dataflow.{shown, failing}
use xsigma.Graph.Executor.Solve.{outcome_of}
use xsigma.Graph.Executor.Start.{IsStartable, unrestricted-IsStartable}
use xsigma.Graph.Executor.Restricted.{restricted-IsStartable}
use xsigma.Graph.Executor.Runs.{Reach, start, run_never_faults}
use xsigma.Graph.Executor.Progress.{CanGoOn, run_progress}
use xsigma.Graph.Executor.Termination.{steps_left, advanced, run_decreases, run_completes}
use xsigma.Graph.Executor.Collect.{ResultMap, collect, final_status}
use xsigma.Graph.Executor.Report.{
  run_results, run_to_results, run_incremental_results, Verdict, status-Verdict,
}
use xsigma.Graph.Tests.{pair_graph, pair-IsFrozen}
use xsigma.Graph.Tests.Running.{
  full, full_moves, ended, full_over, full_Reach, wanted, wanted_moves, wanted_over, wanted_Reach,
  kept, again, again_over, again_Reach, full_going, wanted_going, again_going, sinks_inside,
  started_unfinished, entered, entered_Reach, entered_body, entered_next, entered_goes,
}

full-IsStartable : IsStartable full
full-IsStartable = unrestricted-IsStartable pair_graph pair-IsFrozen [] false [] (λ _. none)

run_results_example :
    (m : ResultMap ℕ) × (collect 0 full none (ended full full_moves) ≡ some m)
    × ((v : ℕ)
        → m v ≡ (
            if ltb v (node_count pair_graph)
            then some (shown 0 full (outcome_of 0 full v))
            else none))
run_results_example = run_results 0 pair_graph 1 pair-IsFrozen full_Reach full_over full_going

run_to_results_example :
    (m : ResultMap ℕ) × (collect 0 wanted (some (1 ∷ [])) (ended wanted wanted_moves) ≡ some m)
    × ((v : ℕ)
        → m v ≡ (
            if ltb 0 (count v (1 ∷ []))
            then some (shown 0 wanted (outcome_of 0 wanted v))
            else none))
run_to_results_example =
    run_to_results 0 pair_graph 1 pair-IsFrozen (1 ∷ []) sinks_inside wanted_Reach wanted_over
      wanted_going

run_incremental_results_example :
    (m : ResultMap ℕ) × (collect 0 again none (ended again full_moves) ≡ some m)
    × ((v : ℕ)
        → m v ≡ (
            if ltb v (node_count pair_graph)
            then (if failing 0 again (outcome_of 0 again v)
                then none
                else some (shown 0 again (outcome_of 0 again v)))
            else none))
run_incremental_results_example =
    run_incremental_results 0 pair_graph 1 pair-IsFrozen (1 ∷ 1 ∷ []) kept again_Reach again_over
      again_going

status-Verdict_example :
    Verdict 0 full 1 full-IsStartable (ended full full_moves) (final_status (ended full full_moves))
status-Verdict_example = status-Verdict 0 full 1 full-IsStartable full_Reach full_over

run_progress_example : CanGoOn 0 full 1 full-IsStartable (init full 1)
run_progress_example = run_progress 0 full 1 full-IsStartable start (omega arith) started_unfinished

run_never_faults_example : (t : Run ℕ) × (advance 0 full entered 0 ≡ some t)
run_never_faults_example = run_never_faults 0 full 1 full-IsStartable entered_Reach 0 entered_body

restricted-IsStartable_example : IsStartable wanted
restricted-IsStartable_example = restricted-IsStartable pair_graph pair-IsFrozen (1 ∷ [])

run_decreases_example : steps_left full entered_next.phases < steps_left full entered.phases
run_decreases_example =
    run_decreases 0 full 1 full-IsStartable entered_Reach (advanced 0 entered_goes)

run_completes_example : (t : Run ℕ) × Reach 0 full 1 t × (t.completed ≡ full.total_to_run)
run_completes_example = run_completes 0 full 1 full-IsStartable start (omega arith)
