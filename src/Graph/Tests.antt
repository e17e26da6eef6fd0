-- ===== src/Graph/Tests.antt =====
-- Small graphs and runs on which the theorems about Library/Graph are applied.
pub mod Building
pub mod Running
pub mod Reporting
pub mod Caching
use xsigma.Common.{
  ℕ, ◌+◌, ◌<◌, ◌≡◌, refl, String, Bool, true, false, Option, none, some, List, [], ◌∷◌, foldl,
  arith,
}
use xsigma.Graph.Types.{success}
use xsigma.Graph.Dependency.{DependencyGraph, IsFrozen}
use xsigma.Graph.Builder.{GraphBuilder, PendingNode, PendingEdge, build}
use xsigma.Graph.Builder.Correct.{Fits, build-IsFrozen}
use xsigma.Graph.Executor.Step.{NodeWork, Attempt, returned}

-- Each node adds one to the sum of its inputs.
abbrev pub count_up : NodeWork ℕ
count_up inputs = returned (foldl (λ total x. total + x) 1 inputs)

abbrev node_called : String → ℕ → PendingNode (NodeWork ℕ)
node_called name version = record { name = name; work = count_up; version = version }

abbrev edge : ℕ → ℕ → PendingEdge
edge node dependency = record { node = node; dependency = dependency }

-- Node 3 depends on 1 and 2, which depend on 0.
abbrev pub diamond : GraphBuilder (NodeWork ℕ)
diamond = record {
  nodes = node_called "a" 0 ∷ node_called "b" 0 ∷ node_called "c" 0 ∷ node_called "d" 0 ∷ [];
  edges = edge 1 0 ∷ edge 2 0 ∷ edge 3 1 ∷ edge 3 2 ∷ [];
}

pub diamond-Fits : Fits diamond
diamond-Fits = record { few_nodes = omega arith; few_edges = omega arith }

-- Node 1 depends on node 0.
abbrev pub pair : GraphBuilder (NodeWork ℕ)
pair = record { nodes = node_called "a" 1 ∷ node_called "b" 1 ∷ []; edges = edge 1 0 ∷ [] }

pub pair-Fits : Fits pair
pair-Fits = record { few_nodes = omega arith; few_edges = omega arith }

abbrev pub pair_graph : DependencyGraph (NodeWork ℕ)
pair_graph = record {
  nodes =
      record { name = "a"; work = count_up; successors = 1 ∷ []; dependencies = [] }
      ∷ record { name = "b"; work = count_up; successors = []; dependencies = 0 ∷ [] }
      ∷ [];
  topological_order = 0 ∷ 1 ∷ [];
  succ_offsets = 0 ∷ 1 ∷ 1 ∷ [];
  succ = 1 ∷ [];
  dep_offsets = 0 ∷ 0 ∷ 1 ∷ [];
  dep = 0 ∷ [];
  priorities = 2 ∷ 1 ∷ [];
  versions = 1 ∷ 1 ∷ [];
}

pair_builds : build pair none ≡ (success, some pair_graph)
unfolding build
pair_builds = refl

pub pair-IsFrozen : IsFrozen pair_graph
pair-IsFrozen = build-IsFrozen pair-Fits pair_builds

-- The pair with a node 2 that depends on node 0 too, and another name for node 1.
abbrev pub fork : GraphBuilder (NodeWork ℕ)
fork = record {
  nodes = node_called "a" 1 ∷ node_called "left" 1 ∷ node_called "right" 1 ∷ [];
  edges = edge 1 0 ∷ edge 2 0 ∷ [];
}

pub fork-Fits : Fits fork
fork-Fits = record { few_nodes = omega arith; few_edges = omega arith }

abbrev pub fork_graph : DependencyGraph (NodeWork ℕ)
fork_graph = record {
  nodes =
      record { name = "a"; work = count_up; successors = 1 ∷ 2 ∷ []; dependencies = [] }
      ∷ record { name = "left"; work = count_up; successors = []; dependencies = 0 ∷ [] }
      ∷ record { name = "right"; work = count_up; successors = []; dependencies = 0 ∷ [] }
      ∷ [];
  topological_order = 0 ∷ 1 ∷ 2 ∷ [];
  succ_offsets = 0 ∷ 2 ∷ 2 ∷ 2 ∷ [];
  succ = 1 ∷ 2 ∷ [];
  dep_offsets = 0 ∷ 0 ∷ 1 ∷ 2 ∷ [];
  dep = 0 ∷ 0 ∷ [];
  priorities = 2 ∷ 1 ∷ 1 ∷ [];
  versions = 1 ∷ 1 ∷ 1 ∷ [];
}

fork_builds : build fork none ≡ (success, some fork_graph)
unfolding build
fork_builds = refl

pub fork-IsFrozen : IsFrozen fork_graph
fork-IsFrozen = build-IsFrozen fork-Fits fork_builds
