-- ===== src/Graph/Dependency.antt =====
-- Library/Graph/dependency_graph.h: the frozen graph. `W` is the type of a node's work.
-- The accessors read vectors without a bounds check: an id outside the graph, undefined in the
-- source, reads an empty range, the priority 0 or no node here.
use xsigma.Common.{
  ℕ, suc, ◌+◌, ◌-◌, ◌%◌, ◌^◌, ◌<◌, ◌≡◌, String, Option, List, length, get_or, get_elem?, slice,
  count, to_nat, ltb, position,
}

pub record Node (W : Type 0) : Type 0 where
  pub name : String
  pub work : W
  pub successors : List ℕ
  pub dependencies : List ℕ

pub record DependencyGraph (W : Type 0) : Type 0 where
  pub nodes : List (Node W)
  pub topological_order : List ℕ
  pub succ_offsets : List ℕ
  pub succ : List ℕ
  pub dep_offsets : List ℕ
  pub dep : List ℕ
  pub priorities : List ℕ
  pub versions : List ℕ

-- The values of `std::uint32_t`.
abbrev pub to_u32 : ℕ → ℕ
to_u32 n = n % 2 ^ 32

module _ {W : Type 0} (g : DependencyGraph W) where
  unfoldable pub node_count : ℕ
  node_count = length g.nodes

  unfoldable pub node_at : ℕ → Option (Node W)
  node_at id = get_elem? g.nodes id

  unfoldable pub successor_range : ℕ → List ℕ
  successor_range id = slice (get_or g.succ_offsets id 0) (get_or g.succ_offsets (suc id) 0) g.succ

  unfoldable pub dependency_range : ℕ → List ℕ
  dependency_range id = slice (get_or g.dep_offsets id 0) (get_or g.dep_offsets (suc id) 0) g.dep

  -- The difference of two unsigned 32-bit numbers.
  unfoldable pub dependency_count : ℕ → ℕ
  dependency_count id =
      to_u32 (get_or g.dep_offsets (suc id) 0 + 2 ^ 32 - get_or g.dep_offsets id 0)

  unfoldable pub version : ℕ → ℕ
  version id = get_or g.versions id 0

  unfoldable pub priority : ℕ → ℕ
  priority id = get_or g.priorities id 0

-- What the clients of a frozen graph rely on, and what `graph_builder::build` guarantees.
pub record IsFrozen {W : Type 0} (g : DependencyGraph W) : Type 0 where
  pub ordered : (v : ℕ) → count v g.topological_order ≡ to_nat (ltb v (node_count g))
  pub precedes :
      (v u : ℕ)
      → 0 < count u (dependency_range g v)
      → position u g.topological_order < position v g.topological_order
  pub transposed : (u v : ℕ) → count v (successor_range g u) ≡ count u (dependency_range g v)
  pub below :
      (u v : ℕ) → 0 < count u (dependency_range g v) → (u < node_count g) × (v < node_count g)
  pub counted : (v : ℕ) → v < node_count g → dependency_count g v ≡ length (dependency_range g v)
  pub narrow : (u : ℕ) → length (successor_range g u) < 2 ^ 32
