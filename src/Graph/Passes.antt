-- ===== src/Graph/Passes.antt =====
-- Library/Graph/graph_passes.h and graph_passes.cpp: analyses of a frozen graph, and the graph
-- restricted to what some sinks need. A vector of flags is a list of Booleans; the back of the
-- stack is the head of the list.
pub mod Ancestors
pub mod Consumers
pub mod Prune
use xsigma.Common.{
  ℕ, zero, suc, ◌+◌, ◌-◌, ◌^◌, Bool, true, false, ◌||◌, Option, none, some, List, [], ◌∷◌, map,
  foldl, ltb, leb, if◌then◌else◌, get_or, set, replicate, range,
}
use xsigma.Graph.Types.{GraphStatus, is_ok}
use xsigma.Graph.Dependency.{
  DependencyGraph, Node, to_u32, node_count, node_at, successor_range, dependency_range, version,
}
use xsigma.Graph.Builder.{GraphBuilder, empty, add_node, with_node_version, depends_on, build}

pub record Search : Type 0 where
  pub keep : List Bool
  pub stack : List ℕ

-- `if (!keep[id]) { keep[id] = 1; stack.push_back(id); }`
pub visit : Search → ℕ → Search
visit s id =
    if get_or s.keep id true then s else record { keep = set s.keep id true; stack = id ∷ s.stack }

-- The loop over the sinks, which passes over an id outside the graph.
pub seed : ℕ → Search → ℕ → Search
unfolding visit
seed count s sink = if ltb sink count then visit s sink else s

module _ {W : Type 0} (g : DependencyGraph W) where
  -- `while (!stack.empty())`, on fuel.
  pub walk : ℕ → Search → Search
  walk zero s = s
  walk (suc fuel) s = elim s.stack [
    | [] ↦ s
    | id ∷ rest ↦ walk fuel (foldl visit (record s { stack = rest }) (dependency_range g id))
  ]

  pub start : List ℕ → Search
  start = foldl (seed (node_count g)) (record { keep = replicate (node_count g) false; stack = [] })

  -- A node is pushed at most once, so as many rounds as there are nodes are enough.
  unfoldable pub ancestor_set : List ℕ → List Bool
  unfolding visit seed walk start
  ancestor_set sinks = (walk (node_count g) (start sinks)).keep

  -- The successors of one node that are scheduled, counted in 32 bits.
  pub scheduled_among : List Bool → ℕ → List ℕ → ℕ
  scheduled_among scheduled consumers [] = consumers
  scheduled_among scheduled consumers (id ∷ ids) =
      scheduled_among scheduled
        (if get_or scheduled id false then to_u32 (consumers + 1) else consumers) ids

  unfoldable pub consumer_counts : List Bool → List ℕ
  unfolding scheduled_among
  consumer_counts scheduled =
      map
        (λ id.
          if get_or scheduled id false
          then scheduled_among scheduled 0 (successor_range g id)
          else 0)
        (range (node_count g))

-- `static_cast<node_id>(-1)`
abbrev pub npos : ℕ
npos = 2 ^ 64 - 1

-- The dense renumbering: the kept nodes get the next ids, in the order of their old ids.
unfoldable pub renumber : ℕ → List Bool → List ℕ
renumber next [] = []
renumber next (true ∷ flags) = next ∷ renumber (next + 1) flags
renumber next (false ∷ flags) = npos ∷ renumber next flags

module _ {W : Type 0} (g : DependencyGraph W) where
  abbrev pub copy_node : GraphBuilder W → ℕ → Option (Node W) → GraphBuilder W
  copy_node b id none = b
  copy_node b id (some node) =
      let added = add_node b node.name node.work in
      (with_node_version added.1 added.0 (version g id)).1

  unfoldable pub copy_nodes : List Bool → List ℕ → GraphBuilder W → GraphBuilder W
  copy_nodes keep [] b = b
  copy_nodes keep (id ∷ ids) b =
      copy_nodes keep ids (if get_or keep id false then copy_node b id (node_at g id) else b)

  unfoldable pub copy_edges : List Bool → List ℕ → List ℕ → GraphBuilder W → GraphBuilder W
  copy_edges keep old_to_new [] b = b
  copy_edges keep old_to_new (id ∷ ids) b = copy_edges keep old_to_new ids (
      if get_or keep id false
      then foldl (λ c dep. depends_on c (get_or old_to_new id npos) (get_or old_to_new dep npos)) b
          (dependency_range g id)
      else b)

  -- The builder through which the kept part of the graph is rebuilt.
  abbrev pub pruned_builder : List Bool → GraphBuilder W
  pruned_builder keep =
      let ids = range (node_count g) in
      copy_edges keep (renumber 0 keep) ids (copy_nodes keep ids empty)

  unfoldable pub any_outside : List ℕ → Bool
  any_outside [] = false
  any_outside (sink ∷ sinks) = leb (node_count g) sink || any_outside sinks

  -- `out` stays null if the build fails.
  abbrev pub built_or_null :
      List ℕ → GraphStatus × Option (DependencyGraph W) → Option (DependencyGraph W) × List ℕ
  built_or_null old_to_new (status, out) = if is_ok status then (out, old_to_new) else (none, [])

  -- The pruned graph, `none` for a null pointer, and the renumbering.
  unfoldable pub prune_to_sinks : List ℕ → Option (DependencyGraph W) × List ℕ
  unfolding copy_nodes copy_edges any_outside renumber
  prune_to_sinks sinks =
      let keep = ancestor_set g sinks in
      if any_outside sinks
      then (none, [])
      else built_or_null (renumber 0 keep) (build (pruned_builder keep) none)
