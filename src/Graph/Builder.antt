-- ===== src/Graph/Builder.antt =====
-- Library/Graph/graph_builder.h and graph_builder.cpp. A vector is a list; node ids are indices.
-- The sizes and the in-degrees (std::size_t) are bounded by the numbers of nodes and edges in
-- memory; what is stored in 32 bits is reduced modulo 2 ^ 32, as the casts do.
pub mod Edges
pub mod Kahn
pub mod Csr
pub mod Priority
pub mod Cycle
pub mod Correct
use xsigma.Common.{
  ℕ, zero, suc, ◌+◌, ◌-◌, ◌%◌, ◌^◌, max, String, Bool, true, false, ◌||◌, Option, none, some, List,
  [], ◌∷◌, ◌++◌, map, ltb, leb, ◌==◌, if◌then◌else◌, length, get_or, get_elem?, set, replicate,
  range,
}
use mathlib.Core.List.{foldl, foldr}
use xsigma.Graph.Types.{GraphStatus, success, failure, cycle_detected, unknown_node_reference}
use xsigma.Graph.Dependency.{DependencyGraph, Node, to_u32}

pub record PendingNode (W : Type 0) : Type 0 where
  pub name : String
  pub work : W
  pub version : ℕ

-- `node` must run after `dependency`.
pub record PendingEdge : Type 0 where
  pub node : ℕ
  pub dependency : ℕ

pub record GraphBuilder (W : Type 0) : Type 0 where
  pub nodes : List (PendingNode W)
  pub edges : List PendingEdge

module _ {W : Type 0} where
  abbrev pub empty : GraphBuilder W
  empty = record { nodes = []; edges = [] }

  unfoldable pub add_node : GraphBuilder W → String → W → ℕ × GraphBuilder W
  add_node b name work = (
    length b.nodes,
    record b { nodes = b.nodes ++ record { name = name; work = work; version = 0 } ∷ [] },
  )

  -- `nodes_[node].version_ = version`
  pub stamp : ℕ → ℕ → List (PendingNode W) → List (PendingNode W)
  stamp node version [] = []
  stamp zero version (p ∷ ps) = record p { version = version } ∷ ps
  stamp (suc node) version (p ∷ ps) = p ∷ stamp node version ps

  unfoldable pub with_node_version : GraphBuilder W → ℕ → ℕ → Bool × GraphBuilder W
  unfolding stamp
  with_node_version b node version =
      if leb (length b.nodes) node
      then (false, b)
      else (true, record b { nodes = stamp node version b.nodes })

  abbrev pub version_or_zero : Option (PendingNode W) → ℕ
  version_or_zero none = 0
  version_or_zero (some p) = p.version

  unfoldable pub node_version : GraphBuilder W → ℕ → ℕ
  node_version b node =
      if ltb node (length b.nodes) then version_or_zero (get_elem? b.nodes node) else 0

  unfoldable pub depends_on : GraphBuilder W → ℕ → ℕ → GraphBuilder W
  depends_on b node dependency = record b {
    edges = b.edges ++ record { node = node; dependency = dependency } ∷ [];
  }

-- The adjacency that the first loop of `build` fills.
pub record Tables : Type 0 where
  pub successors : List (List ℕ)
  pub dependencies : List (List ℕ)
  pub in_degree : List ℕ

abbrev pub push_at : List (List ℕ) → ℕ → ℕ → List (List ℕ)
push_at rows i x = set rows i (get_or rows i [] ++ x ∷ [])

-- The body of the loop over the edges, behind its bounds check.
pub register : Tables → PendingEdge → Tables
register t e = record {
  successors = push_at t.successors e.dependency e.node;
  dependencies = push_at t.dependencies e.node e.dependency;
  in_degree = set t.in_degree e.node (get_or t.in_degree e.node 0 + 1);
}

-- The loop over the edges; `none` is the early return for an id outside the graph.
pub scan_edges : ℕ → List PendingEdge → Tables → Option Tables
scan_edges count [] t = some t
scan_edges count (e ∷ es) t =
    let rest = scan_edges count es (register t e) in
    if leb count e.node || leb count e.dependency then none else rest

pub blank_tables : ℕ → Tables
blank_tables count = record {
  successors = replicate count [];
  dependencies = replicate count [];
  in_degree = replicate count 0;
}

-- The nodes with no dependency, in the order of their ids. No id is out of bounds.
pub sources : List ℕ → List ℕ → List ℕ
sources in_degree [] = []
sources in_degree (id ∷ ids) =
    let rest = sources in_degree ids in if get_or in_degree id 1 == 0 then id ∷ rest else rest

-- The state of Kahn's algorithm; the front of the queue is the head of the list.
pub record KahnState : Type 0 where
  pub in_degree : List ℕ
  pub ready : List ℕ
  pub order : List ℕ

-- `--x` on a std::size_t.
pub decrement : ℕ → ℕ
decrement x = if x == 0 then 2 ^ 64 - 1 else x - 1

-- The loop over the successors of a peeled node: the new in-degrees and the new queue.
pub release : List ℕ → List ℕ → List ℕ → List ℕ × List ℕ
release [] in_degree ready = (in_degree, ready)
release (s ∷ ss) in_degree ready =
    let left = decrement (get_or in_degree s 1) in
    release ss (set in_degree s left) (if left == 0 then ready ++ s ∷ [] else ready)

pub peel : List (List ℕ) → KahnState → ℕ → List ℕ → KahnState
peel successors s id rest =
    let (in_degree, ready) = release (get_or successors id []) s.in_degree rest in
    record { in_degree = in_degree; ready = ready; order = s.order ++ id ∷ [] }

-- `while (!ready.empty())`, on fuel.
pub kahn_loop : List (List ℕ) → ℕ → KahnState → KahnState
kahn_loop successors zero s = s
kahn_loop successors (suc fuel) s = elim s.ready [
  | [] ↦ s
  | id ∷ rest ↦ kahn_loop successors fuel (peel successors s id rest)
]

pub kahn_start : ℕ → List ℕ → KahnState
kahn_start count in_degree = record {
  in_degree = in_degree;
  ready = sources in_degree (range count);
  order = [];
}

-- A node is peeled at most once, so `count` rounds are enough.
pub kahn : ℕ → Tables → KahnState
kahn count t = kahn_loop t.successors count (kahn_start count t.in_degree)

-- CSR offsets: the start of each row, and the end of the last.
pub offsets : ℕ → List (List ℕ) → List ℕ
offsets start [] = start ∷ []
offsets start (row ∷ rows) = start ∷ offsets (to_u32 (start + to_u32 (length row))) rows

-- `succ[s++] = target` for each target of one row.
pub fill_row : List ℕ → ℕ → List ℕ → List ℕ
fill_row buffer at [] = buffer
fill_row buffer at (target ∷ row) = fill_row (set buffer at (to_u32 target)) (to_u32 (at + 1)) row

pub fill_rows : List ℕ → List ℕ → List (List ℕ) → List ℕ
fill_rows buffer (start ∷ starts) (row ∷ rows) = fill_rows (fill_row buffer start row) starts rows
fill_rows buffer _ _ = buffer

-- The flat vector of `rows`, whose size is the last offset.
pub pack : List (List ℕ) → List ℕ
pack rows =
    let starts = offsets 0 rows in
    fill_rows (replicate (get_or starts (length rows) 0) 0) starts rows

-- One plus the greatest priority of a successor, and 1 for a sink.
pub relax : List (List ℕ) → ℕ → List ℕ → List ℕ
relax successors id priority = set priority id (
    foldl (λ current target. max current (to_u32 (get_or priority target 0 + 1))) 1
      (get_or successors id []))

-- The reverse of the topological order: the last node first.
pub bottom_levels : ℕ → List (List ℕ) → List ℕ → List ℕ
bottom_levels count successors order = foldr (relax successors) (replicate count 1) order

module _ {W : Type 0} where
  pub built_nodes : List (PendingNode W) → List (List ℕ) → List (List ℕ) → List (Node W)
  built_nodes (p ∷ ps) (s ∷ ss) (d ∷ ds) =
      record { name = p.name; work = p.work; successors = s; dependencies = d }
      ∷ built_nodes ps ss ds
  built_nodes _ _ _ = []

  -- The part of `build` behind the cycle check.
  pub freeze : List (PendingNode W) → Tables → List ℕ → DependencyGraph W
  freeze nodes t order = record {
    nodes = built_nodes nodes t.successors t.dependencies;
    topological_order = order;
    succ_offsets = offsets 0 t.successors;
    succ = pack t.successors;
    dep_offsets = offsets 0 t.dependencies;
    dep = pack t.dependencies;
    priorities = bottom_levels (length nodes) t.successors order;
    versions = map (λ p. p.version) nodes;
  }

  pub finish :
      GraphBuilder W
      → Tables
      → Option (DependencyGraph W)
      → GraphStatus × Option (DependencyGraph W)
  finish b t out =
      let order = (kahn (length b.nodes) t).order in
      if length order == length b.nodes
      then (success, some (freeze b.nodes t order))
      else (failure cycle_detected "graph_builder::build(): dependency edges contain a cycle", out)

  -- `build`; `out` is the caller's pointer, which a failure leaves as it was.
  unfoldable pub build :
      GraphBuilder W → Option (DependencyGraph W) → GraphStatus × Option (DependencyGraph W)
  unfolding finish scan_edges register blank_tables sources decrement release peel kahn_loop
      kahn_start kahn offsets fill_row fill_rows pack relax bottom_levels built_nodes freeze
  build b out = elim (scan_edges (length b.nodes) b.edges (blank_tables (length b.nodes))) [
    | none ↦
        (failure unknown_node_reference "depends_on() referenced a node id outside the graph", out)
    | some t ↦ finish b t out
  ]
