-- ===== src/Graph/Executor/Step.antt =====
-- `execute` of Library/Graph/graph_executor.cpp: the atomic steps of one run of a frozen graph by a pool of
-- workers. `V` is the type of results (std::any), `nothing` the empty std::any.
--
-- The shared `run_state` is the record `Run`. The threads are interleaved in the atomic steps in
-- which they touch it: a pop from the ready queue, the body of a node, each fetch_sub on a
-- consumer count, each fetch_sub on an in-degree with the push that it leads to, and the count of
-- a finished node. Workers differ only in the node that they execute, so the program counters are
-- kept per node (`Phase`), and `idle` counts the workers that wait in the pop. The observation
-- hooks, whose exceptions are swallowed, have no effect on this state.
use xsigma.Common.{
  ℕ, ◌+◌, ◌-◌, ◌^◌, ◌≤◌, ◌<◌, ◌≡◌, String, Bool, true, false, not, ◌&&◌, ◌||◌, Option, none, some,
  List, [], ◌∷◌, ◌++◌, ◌==◌, if◌then◌else◌, get_or, set,
}
use Prim.Native.String.{◌++◌ as str_append}
use xsigma.Graph.Dependency.{
  DependencyGraph, Node, to_u32, node_at, successor_range, dependency_range, priority,
}

-- How a node's work ends: with a result, or with an exception.
pub data Attempt (V : Type 0) : Type 0 where
  returned : V → Attempt V
  threw : String → Attempt V
  threw_unknown : Attempt V

abbrev pub NodeWork : Type 0 → Type 0
NodeWork V = List V → Attempt V

-- What the constructor of `run_state` fixes for the run.
pub record Plan (V : Type 0) : Type 0 where
  pub graph : DependencyGraph (NodeWork V)
  pub scheduled : List Bool
  pub is_sink : List Bool
  pub incremental : Bool
  pub dirty : List Bool
  pub cache : ℕ → Option V
  pub total_to_run : ℕ

-- Where a worker is in `execute_node`, with what is left of its two last loops; a node that no
-- worker executes is blocked, in the ready queue, or finished.
pub data Phase : Type 0 where
  blocked queued body finished : Phase
  freeing : List ℕ → Phase
  notifying : List ℕ → Phase

pub record ReadyItem : Type 0 where
  pub rank : ℕ
  pub id : ℕ

-- `pop_heap`: an item that no other outranks.
abbrev pub IsTop : ReadyItem → List ReadyItem → Type 0
IsTop item [] = Unit {0}
IsTop item (other ∷ items) = (other.rank ≤ item.rank) × IsTop item items

-- A null `std::shared_ptr` in `results` is `none`.
pub record Run (V : Type 0) : Type 0 where
  pub remaining : List ℕ
  pub results : List (Option V)
  pub failed : List Bool
  pub consumers_left : List ℕ
  pub ready_heap : List ReadyItem
  pub completed : ℕ
  pub failure : Option (ℕ × String)
  pub cancelled : Bool
  pub phases : ℕ → Phase
  pub idle : ℕ

abbrev pub update {ℓ} : {A : Type ℓ} → (ℕ → A) → ℕ → A → ℕ → A
update f i a j = if j == i then a else f j

abbrev pub is_empty : List Bool → Bool
is_empty [] = true
is_empty (_ ∷ _) = false

module _ {V : Type 0} where
  -- `!scheduled.empty() && !scheduled[id]`
  abbrev pub skips : Plan V → ℕ → Bool
  skips p id = not (is_empty p.scheduled) && not (get_or p.scheduled id false)

module _ {V : Type 0} (nothing : V) (p : Plan V) where
  -- The first loop of the body: has a dependency failed?
  unfoldable pub any_failed : List Bool → List ℕ → Bool
  any_failed failed [] = false
  any_failed failed (d ∷ ds) = get_or failed d false || any_failed failed ds

  -- `inputs.push_back(*state->results[*it])`; `none` is a read through a null pointer.
  unfoldable pub gather : List (Option V) → List ℕ → Option (List V)
  gather results [] = some []
  gather results (d ∷ ds) = elim (get_or results d none) [
    | none ↦ none
    | some v ↦ elim (gather results ds) [ none ↦ none | some vs ↦ some (v ∷ vs) ]
  ]

  -- `record_failure`: the first failure wins.
  abbrev pub record_failure : ℕ → String → Option (ℕ × String) → Option (ℕ × String)
  record_failure id message none = some (id, message)
  record_failure id message (some first) = some first

  unfoldable pub fail_node : Run V → ℕ → String → Run V
  fail_node s id message = record s {
    failed = set s.failed id true;
    results = set s.results id (some nothing);
    failure = record_failure id message s.failure;
  }

  -- The result of the node's work; `unknown_text` is the message for an exception of unknown type.
  unfoldable pub settle : Run V → ℕ → String → Attempt V → Run V
  settle s id unknown_text (returned v) = record s { results = set s.results id (some v) }
  settle s id unknown_text (threw message) = fail_node s id message
  settle s id unknown_text threw_unknown = fail_node s id unknown_text

  abbrev pub unknown_text : Option (Node (NodeWork V)) → String
  unknown_text none = "unknown exception in node"
  unknown_text (some node) = str_append "unknown exception in node \"" (str_append node.name "\"")

  unfoldable pub serve : Run V → ℕ → Option V → Run V
  serve s id (some v) = record s { results = set s.results id (some v) }
  serve s id none = fail_node s id "clean node missing from incremental cache"

  unfoldable pub work_of : Option (Node (NodeWork V)) → List V → Attempt V
  work_of none inputs = threw_unknown
  work_of (some node) inputs = node.work inputs

  -- The body of `execute_node` down to the end hook.
  unfoldable pub execute_body : Run V → ℕ → Option (Run V)
  execute_body s id =
      if s.cancelled || any_failed s.failed (dependency_range p.graph id)
      then some
          (record s { failed = set s.failed id true; results = set s.results id (some nothing) })
      else if p.incremental && not (get_or p.dirty id true)
      then some (serve s id (p.cache id))
      else elim (gather s.results (dependency_range p.graph id)) [
        | none ↦ none
        | some inputs ↦
            some (
              settle s id (unknown_text (node_at p.graph id)) (work_of (node_at p.graph id) inputs))
      ]

  -- The slots that the liveness loop goes through; a full run frees none.
  abbrev pub to_free : ℕ → List ℕ
  to_free id = if is_empty p.scheduled then [] else dependency_range p.graph id

  -- One round of the liveness loop. `fetch_sub` returns the old value.
  unfoldable pub release_slot : Run V → ℕ → Run V
  release_slot s dep =
      if get_or p.scheduled dep false && not (get_or p.is_sink dep false)
      then record s {
        consumers_left =
            set s.consumers_left dep (to_u32 (get_or s.consumers_left dep 0 + 2 ^ 32 - 1));
        results = if get_or s.consumers_left dep 0 == 1 then set s.results dep none else s.results;
      }
      else s

  -- One round of the loop over the successors.
  unfoldable pub notify : Run V → ℕ → Run V
  notify s succ =
      if skips p succ
      then s
      else if get_or s.remaining succ 0 == 1
      then record s {
        remaining = set s.remaining succ (to_u32 (get_or s.remaining succ 0 + 2 ^ 32 - 1));
        ready_heap = record { rank = priority p.graph succ; id = succ } ∷ s.ready_heap;
        phases = update s.phases succ queued;
      }
      else record s {
        remaining = set s.remaining succ (to_u32 (get_or s.remaining succ 0 + 2 ^ 32 - 1));
      }

  abbrev pub move_to : Phase → ℕ → Run V → Run V
  move_to phase id s = record s { phases = update s.phases id phase }

  abbrev pub then_free : ℕ → Option (Run V) → Option (Run V)
  then_free id none = none
  then_free id (some s) = some (move_to (freeing (to_free id)) id s)

  -- The next atomic step of the worker that executes `id`; `none` where there is none, or where
  -- the step reads through a null pointer.
  unfoldable pub advance_at : Phase → Run V → ℕ → Option (Run V)
  advance_at body s id = then_free id (execute_body s id)
  advance_at (freeing (dep ∷ deps)) s id = some (move_to (freeing deps) id (release_slot s dep))
  advance_at (freeing []) s id = some (move_to (notifying (successor_range p.graph id)) id s)
  advance_at (notifying (succ ∷ succs)) s id = some (notify (move_to (notifying succs) id s) succ)
  advance_at (notifying []) s id = some (record s {
    completed = s.completed + 1;
    idle = s.idle + 1;
    phases = update s.phases id finished;
  })
  advance_at _ s id = none

  unfoldable pub advance : Run V → ℕ → Option (Run V)
  unfolding advance_at
  advance s id = advance_at (s.phases id) s id

  abbrev pub take_item : Run V → List ReadyItem → ReadyItem → List ReadyItem → Run V
  take_item s before item after = record s {
    ready_heap = before ++ after;
    phases = update s.phases item.id body;
    idle = s.idle - 1;
  }

  -- The atomic steps of all threads. The last is `cancel()`, called from outside.
  pub data Step (s t : Run V) : Type 0 where
    pop :
        (before after : List ReadyItem) (item : ReadyItem)
        → 0 < s.idle
        → s.ready_heap ≡ before ++ item ∷ after
        → IsTop item s.ready_heap
        → t ≡ take_item s before item after
        → Step s t
    work : (id : ℕ) → advance s id ≡ some t → Step s t
    cancel : t ≡ record s { cancelled = true } → Step s t
