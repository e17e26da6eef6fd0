-- ===== src/Graph/Tests/Running.antt =====
-- The theorems about graph_executor on runs of a small graph.
use xsigma.Common.{
  ℕ, zero, suc, ◌<◌, ◌≡◌, refl, Bool, true, false, if◌then◌else◌, ltb, Option, none, some, List, [],
  ◌∷◌, arith, subst, sym, some_inj, Bool-cases, inl, inr,
}
use xsigma.Graph.Dependency.{
  node_count, node_at, dependency_range, successor_range, dependency_count, priority, version,
}
use xsigma.Graph.Executor.Step.{
  Plan, Run, IsTop, advance, Step, pop, work, take_item, body, ReadyItem, advance_at, execute_body,
  any_failed, gather, serve, settle, work_of, release_slot, notify,
}
use xsigma.Graph.Executor.Plan.{
  full_plan, restricted_plan, incremental_plan, init, mark_sinks, dirty_nodes, seed_dirty,
  propagate, any_dirty, count_scheduled, total_scheduled, initial_remaining, seed_ready,
}
use xsigma.Graph.Passes.{ancestor_set, consumer_counts}
use xsigma.Graph.Executor.Collect.{ResultMap, invalid_sink}
use xsigma.Graph.Executor.Runs.{Reach, start, later}
use xsigma.Graph.Tests.{pair_graph}

-- What the worker does next: it takes the only item of the ready queue, or goes on with the node that
-- it executes.
pub data Move : Type 0 where
  take_head : Move
  go_on : ℕ → Move

abbrev or_same : Run ℕ → Option (Run ℕ) → Run ℕ
or_same s none = s
or_same s (some t) = t

abbrev is_there : Option (Run ℕ) → Bool
is_there none = false
is_there (some t) = true

-- `none` where there is no such move.
abbrev take_only : Plan ℕ → Run ℕ → List ReadyItem → Option (Run ℕ)
take_only p s (item ∷ []) = if ltb 0 s.idle then some (take_item 0 p s [] item []) else none
take_only p s _ = none

abbrev moved : Plan ℕ → Run ℕ → Move → Option (Run ℕ)
moved p s take_head = take_only p s s.ready_heap
moved p s (go_on id) = advance 0 p s id

abbrev drive : Plan ℕ → List Move → Option (Run ℕ) → Option (Run ℕ)
drive p [] s = s
drive p (m ∷ ms) none = none
drive p (m ∷ ms) (some s) = drive p ms (moved p s m)

moved-Step : (p : Plan ℕ) (s t : Run ℕ) (m : Move) → moved p s m ≡ some t → Step 0 p s t
moved-Step p s t take_head h = go s.ready_heap refl h
  where
    go :
        (items : List ReadyItem)
        → s.ready_heap ≡ items
        → take_only p s items ≡ some t
        → Step 0 p s t
    go [] e h = cc
    go (item ∷ []) e h = elim (Bool-cases (ltb 0 s.idle)) [
      | inl idle ↦
          pop [] [] item (ground arith) e (subst (IsTop item) (sym e) (omega arith, tt))
            (sym (some_inj (rw idle at h)))
      | inr busy ↦ absurd (no_run (rw busy at h))
    ]
      where
        no_run : {t : Run ℕ} → none ≡ some t → ⊥
        no_run e = cc
    go (item ∷ other ∷ items) e h = cc
moved-Step p s t (go_on id) h = work id h

drive-Reach :
    (p : Plan ℕ) (ms : List Move) (s : Run ℕ)
    → is_there (drive p ms (some s)) ≡ true
    → Reach 0 p 1 s
    → Reach 0 p 1 (or_same s (drive p ms (some s)))
drive-Reach p ms s h r = go ms (some s) h (λ t e. subst (Reach 0 p 1) (some_inj e) r)
  where
    go :
        (ms : List Move) (o : Option (Run ℕ))
        → is_there (drive p ms o) ≡ true
        → ((t : Run ℕ) → o ≡ some t → Reach 0 p 1 t)
        → Reach 0 p 1 (or_same s (drive p ms o))
    go [] none h r = cc
    go [] (some t) h r = r t refl
    go (m ∷ ms) none h r = cc
    go (m ∷ ms) (some t) h r =
        go ms (moved p t m) h (λ u e. later (r t refl) (moved-Step p t u m e))

abbrev pub full : Plan ℕ
full = full_plan pair_graph

abbrev pub full_moves : List Move
full_moves =
    take_head ∷ go_on 0 ∷ go_on 0 ∷ go_on 0 ∷ go_on 0 ∷ take_head ∷ go_on 1 ∷ go_on 1 ∷ go_on 1 ∷ []

abbrev pub ended : Plan ℕ → List Move → Run ℕ
ended p ms = or_same (init p 1) (drive p ms (some (init p 1)))

full_runs : is_there (drive full full_moves (some (init full 1))) ≡ true
unfolding init advance advance_at execute_body any_failed gather settle work_of release_slot notify
    node_count node_at successor_range dependency_range dependency_count initial_remaining
    seed_ready priority
full_runs = refl

pub full_over : (ended full full_moves).completed ≡ node_count pair_graph
unfolding init advance advance_at execute_body any_failed gather settle work_of release_slot notify
    node_count node_at successor_range dependency_range dependency_count initial_remaining
    seed_ready priority
full_over = refl

pub full_Reach : Reach 0 full 1 (ended full full_moves)
full_Reach = drive-Reach full full_moves (init full 1) full_runs start

-- A run of the ancestors of node 1, which frees the result of node 0.
abbrev pub wanted : Plan ℕ
wanted = restricted_plan pair_graph (1 ∷ [])

abbrev pub wanted_moves : List Move
wanted_moves =
    take_head
    ∷ go_on 0
    ∷ go_on 0
    ∷ go_on 0
    ∷ go_on 0
    ∷ take_head
    ∷ go_on 1
    ∷ go_on 1
    ∷ go_on 1
    ∷ go_on 1
    ∷ []

wanted_runs : is_there (drive wanted wanted_moves (some (init wanted 1))) ≡ true
unfolding init advance advance_at execute_body any_failed gather settle work_of release_slot notify
    node_count node_at successor_range dependency_range dependency_count initial_remaining
    seed_ready priority ancestor_set consumer_counts mark_sinks count_scheduled
wanted_runs = refl

pub wanted_over : (ended wanted wanted_moves).completed ≡ wanted.total_to_run
unfolding init advance advance_at execute_body any_failed gather settle work_of release_slot notify
    node_count node_at successor_range dependency_range dependency_count initial_remaining
    seed_ready priority ancestor_set consumer_counts mark_sinks count_scheduled total_scheduled
wanted_over = refl

pub wanted_Reach : Reach 0 wanted 1 (ended wanted wanted_moves)
wanted_Reach = drive-Reach wanted wanted_moves (init wanted 1) wanted_runs start

-- A run with the results of the full run in the cache.
abbrev pub kept : ResultMap ℕ
kept zero = some 1
kept (suc zero) = some 2
kept _ = none

abbrev pub again : Plan ℕ
again = incremental_plan pair_graph (1 ∷ 1 ∷ []) kept

again_runs : is_there (drive again full_moves (some (init again 1))) ≡ true
unfolding init advance advance_at execute_body any_failed serve gather settle work_of release_slot
    notify node_count node_at successor_range dependency_range dependency_count initial_remaining
    seed_ready priority dirty_nodes seed_dirty propagate version any_dirty
again_runs = refl

pub again_over : (ended again full_moves).completed ≡ node_count pair_graph
unfolding init advance advance_at execute_body any_failed serve gather settle work_of release_slot
    notify node_count node_at successor_range dependency_range dependency_count initial_remaining
    seed_ready priority dirty_nodes seed_dirty propagate version any_dirty
again_over = refl

pub again_Reach : Reach 0 again 1 (ended again full_moves)
again_Reach = drive-Reach again full_moves (init again 1) again_runs start

pub full_going : (ended full full_moves).cancelled ≡ false
unfolding init advance advance_at execute_body any_failed gather settle work_of release_slot notify
    node_count node_at successor_range dependency_range dependency_count initial_remaining
    seed_ready priority
full_going = refl

pub wanted_going : (ended wanted wanted_moves).cancelled ≡ false
unfolding init advance advance_at execute_body any_failed gather settle work_of release_slot notify
    node_count node_at successor_range dependency_range dependency_count initial_remaining
    seed_ready priority ancestor_set consumer_counts mark_sinks count_scheduled
wanted_going = refl

pub again_going : (ended again full_moves).cancelled ≡ false
unfolding init advance advance_at execute_body any_failed serve gather settle work_of release_slot
    notify node_count node_at successor_range dependency_range dependency_count initial_remaining
    seed_ready priority dirty_nodes seed_dirty propagate version any_dirty
again_going = refl

pub sinks_inside : invalid_sink (node_count pair_graph) (1 ∷ []) ≡ none
unfolding invalid_sink node_count
sinks_inside = refl

pub started_unfinished : (init full 1).completed < full.total_to_run
unfolding init node_count
started_unfinished = omega arith

-- Node 0 is about to run.
abbrev pub entered : Run ℕ
entered = ended full (take_head ∷ [])

entered_runs : is_there (drive full (take_head ∷ []) (some (init full 1))) ≡ true
unfolding init node_count dependency_count initial_remaining seed_ready priority
entered_runs = refl

pub entered_Reach : Reach 0 full 1 entered
entered_Reach = drive-Reach full (take_head ∷ []) (init full 1) entered_runs start

pub entered_body : entered.phases 0 ≡ body
unfolding init node_count dependency_count initial_remaining seed_ready priority
entered_body = refl

-- The body of node 0 has run.
abbrev pub entered_next : Run ℕ
entered_next = or_same entered (advance 0 full entered 0)

pub entered_goes : advance 0 full entered 0 ≡ some entered_next
unfolding init advance advance_at execute_body any_failed gather settle work_of node_count node_at
    successor_range dependency_range dependency_count initial_remaining seed_ready priority
entered_goes = refl
