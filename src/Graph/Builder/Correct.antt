-- ===== src/Graph/Builder/Correct.antt =====
-- What `graph_builder::build` returns, on each of its paths.
use xsigma.Common.{
  String, ℕ, zero, suc, ◌^◌, ◌<◌, ◌≡◌, refl, ap, ◌∙◌, inl, inr, Option, none, some, List, [], ◌∷◌,
  map, arith, fun_ext, subst, ltb, ◌==◌, if◌then◌else◌, Bool-cases, length, get_or, get_elem?,
  count, to_nat, position, pigeonhole_full, some_inj,
}
use xsigma.Graph.Types.{GraphStatus, success, failure, cycle_detected, unknown_node_reference}
use xsigma.Graph.Dependency.{
  DependencyGraph, IsFrozen, node_count, node_at, successor_range, dependency_range,
  dependency_count, version, priority,
}
use xsigma.Graph.Builder.{
  GraphBuilder, PendingNode, Tables, node_version, version_or_zero, scan_edges, blank_tables, kahn,
  built_nodes, freeze, finish, build,
}
use xsigma.Graph.Builder.Edges.{
  inputs_of, consumers_of, length-consumers_of, InRange, Tabulates, inputs_consumers, inputs_below,
  Scanned, rejected, filled, scan_edges-Scanned, blank_tables-IsSized, Registers-Tabulates,
}
use xsigma.Graph.Builder.Kahn.{Inv, kahn-Inv, order-once, order-AllBelow}
use xsigma.Graph.Builder.Csr.{slice-pack, offsets_width}
use xsigma.Graph.Builder.Priority.{IsLongest, Downward, bottom_levels-IsLongest}
use xsigma.Graph.Builder.Cycle.{HasCycle, acyclic, incomplete-HasCycle}

-- The sizes that the 32-bit ids and offsets can hold.
pub record Fits {W : Type 0} (b : GraphBuilder W) : Type 0 where
  pub few_nodes : length b.nodes < 2 ^ 32
  pub few_edges : length b.edges < 2 ^ 32

-- The graph `g` is what the builder `b` describes.
pub record Builds {W : Type 0} (b : GraphBuilder W) (g : DependencyGraph W) : Type 0 where
  pub frozen : IsFrozen g
  pub size : node_count g ≡ length b.nodes
  pub inputs : (id : ℕ) → dependency_range g id ≡ inputs_of id b.edges
  pub consumers : (id : ℕ) → successor_range g id ≡ consumers_of id b.edges
  pub nodes :
      (id : ℕ) (p : PendingNode W)
      → get_elem? b.nodes id ≡ some p
      → node_at g id
        ≡ some (record {
          name = p.name;
          work = p.work;
          successors = consumers_of id b.edges;
          dependencies = inputs_of id b.edges;
        })
  pub versions : (id : ℕ) → version g id ≡ node_version b id
  pub priorities :
      (id : ℕ) → id < length b.nodes → IsLongest (λ u. consumers_of u b.edges) id (priority g id)

module _ {W : Type 0} where
  length-built_nodes :
      (ps : List (PendingNode W)) (ss ds : List (List ℕ))
      → length ss ≡ length ps
      → length ds ≡ length ps
      → length (built_nodes ps ss ds) ≡ length ps
  unfolding built_nodes
  length-built_nodes [] ss ds h k = refl
  length-built_nodes (p ∷ ps) [] ds h k = absurd (omega arith)
  length-built_nodes (p ∷ ps) (s ∷ ss) [] h k = absurd (omega arith)
  length-built_nodes (p ∷ ps) (s ∷ ss) (d ∷ ds) h k =
      ap suc (length-built_nodes ps ss ds (omega arith) (omega arith))

  get_elem?-built_nodes :
      (ps : List (PendingNode W)) (ss ds : List (List ℕ)) (id : ℕ) (p : PendingNode W)
      → length ss ≡ length ps
      → length ds ≡ length ps
      → get_elem? ps id ≡ some p
      → get_elem? (built_nodes ps ss ds) id
        ≡ some (record {
          name = p.name;
          work = p.work;
          successors = get_or ss id [];
          dependencies = get_or ds id [];
        })
  unfolding built_nodes
  get_elem?-built_nodes [] ss ds id p h k e = cc
  get_elem?-built_nodes (q ∷ ps) [] ds id p h k e = absurd (omega arith)
  get_elem?-built_nodes (q ∷ ps) (s ∷ ss) [] id p h k e = absurd (omega arith)
  get_elem?-built_nodes (q ∷ ps) (s ∷ ss) (d ∷ ds) zero p h k e = ground arith
  get_elem?-built_nodes (q ∷ ps) (s ∷ ss) (d ∷ ds) (suc id) p h k e =
      get_elem?-built_nodes ps ss ds id p (omega arith) (omega arith) e

  get_or-versions :
      (ps : List (PendingNode W)) (id : ℕ)
      → get_or (map (λ p. p.version) ps) id 0
        ≡ (if ltb id (length ps) then version_or_zero (get_elem? ps id) else 0)
  get_or-versions [] id = ground arith
  get_or-versions (p ∷ ps) zero = ground arith
  get_or-versions (p ∷ ps) (suc id) = ground (arith, get_or-versions ps id)

  module _ (b : GraphBuilder W) (fits : Fits b) (r : InRange (length b.nodes) b.edges) (t : Tables)
      (tab : Tabulates (length b.nodes) b.edges t)
      (full : length (kahn (length b.nodes) t).order ≡ length b.nodes) where
    abbrev n : ℕ
    n = length b.nodes

    abbrev order : List ℕ
    order = (kahn n t).order

    abbrev g : DependencyGraph W
    g = freeze b.nodes t order

    inv : Inv r tab (kahn n t)
    inv = (kahn-Inv r tab).0

    order-full : (v : ℕ) → count v order ≡ to_nat (ltb v n)
    order-full v = ground (
      arith,
      order-AllBelow r tab (kahn n t) inv v,
      pigeonhole_full n order (order-AllBelow r tab (kahn n t) inv)
          (order-once r tab (kahn n t) inv) full v,
    )

    order_sorted :
        (v u : ℕ) → 0 < count u (inputs_of v b.edges) → position u order < position v order
    order_sorted v u h =
        let (_, lt) = inputs_below b.edges r u v h in
        inv.sorted v u (ground (arith, order-full v)) h

    successors_of : (id : ℕ) → successor_range g id ≡ consumers_of id b.edges
    unfolding successor_range freeze
    successors_of id =
        slice-pack n t.successors (omega (arith, fits.few_nodes))
          (λ i v h.
            ground
              (arith, tab.consumers i, inputs_consumers b.edges i v, inputs_below b.edges r i v))
          (omega (arith, tab.total_consumers, fits.few_edges)) id
        ∙ tab.consumers id

    dependencies_of : (id : ℕ) → dependency_range g id ≡ inputs_of id b.edges
    unfolding dependency_range freeze
    dependencies_of id =
        slice-pack n t.dependencies (omega (arith, fits.few_nodes))
          (λ i v h. ground (arith, tab.inputs i, inputs_below b.edges r v i))
          (omega (arith, tab.total_inputs, fits.few_edges)) id
        ∙ tab.inputs id

    count_of : node_count g ≡ n
    unfolding node_count freeze
    count_of =
        length-built_nodes b.nodes t.successors t.dependencies tab.sized.successors
          tab.sized.dependencies

    dependency_count_of :
        (id : ℕ) → id < node_count g → dependency_count g id ≡ length (dependency_range g id)
    unfolding dependency_count freeze
    dependency_count_of id lt = rw (dependencies_of id) (
        offsets_width t.dependencies id (omega (arith, tab.total_inputs, fits.few_edges))
          (omega (arith, tab.sized.dependencies, count_of))
        ∙ ap length (tab.inputs id))

    frozen : IsFrozen g
    unfolding freeze
    frozen = record {
      ordered = λ v. rw count_of (order-full v);
      precedes = λ v u h. order_sorted v u (rw (dependencies_of v) at h);
      transposed = λ u v. rw (successors_of u, dependencies_of v) (inputs_consumers b.edges u v);
      below = λ u v h. rw count_of (inputs_below b.edges r u v (rw (dependencies_of v) at h));
      counted = dependency_count_of;
      narrow = λ u.
          omega (arith, ap length (successors_of u), length-consumers_of u b.edges, fits.few_edges);
    }

    later_successor :
        (u v : ℕ)
        → 0 < count v (consumers_of u b.edges)
        → (0 < count v order) × (position u order < position v order)
    later_successor u v k =
        let dep : 0 < count u (inputs_of v b.edges) = omega (arith, inputs_consumers b.edges u v) in
        let (_, lt) = inputs_below b.edges r u v dep in
        (ground (arith, order-full v), order_sorted v u dep)

    downward : Downward n t.successors order
    downward = record {
      once = order-once r tab (kahn n t) inv;
      inside = λ u h. ground (arith, order-full u);
      later = λ u v h k. later_successor u v (rw (tab.consumers u) at k);
    }

    longest : (id : ℕ) → id < n → IsLongest (λ u. consumers_of u b.edges) id (priority g id)
    unfolding priority freeze
    longest id lt =
        subst (λ succ. IsLongest succ id (priority g id)) (fun_ext tab.consumers)
          (bottom_levels-IsLongest n t.successors fits.few_nodes order downward id
            (ground (arith, order-full id)))

    freeze-Builds : Builds b g
    unfolding node_at version node_version freeze
    freeze-Builds = record {
      frozen = frozen;
      size = count_of;
      inputs = dependencies_of;
      consumers = successors_of;
      nodes = λ id p e.
          get_elem?-built_nodes b.nodes t.successors t.dependencies id p tab.sized.successors
            tab.sized.dependencies e
          ∙ (rw (tab.consumers id, tab.inputs id));
      versions = get_or-versions b.nodes;
      priorities = longest;
    }

  -- The three ways in which a build ends.
  pub data Outcome (b : GraphBuilder W) (out : Option (DependencyGraph W))
      : GraphStatus × Option (DependencyGraph W) → Type 0 where
    unknown :
        (message : String)
        → ¬ InRange (length b.nodes) b.edges
        → Outcome b out (failure unknown_node_reference message, out)
    cyclic :
        (message : String)
        → InRange (length b.nodes) b.edges
        → HasCycle b.edges
        → Outcome b out (failure cycle_detected message, out)
    built :
        (g : DependencyGraph W)
        → InRange (length b.nodes) b.edges
        → ¬ HasCycle b.edges
        → Builds b g
        → Outcome b out (success, some g)

  finish-Outcome :
      (b : GraphBuilder W) (out : Option (DependencyGraph W))
      → Fits b
      → (t : Tables) (r : InRange (length b.nodes) b.edges) → Tabulates (length b.nodes) b.edges t
      → Outcome b out (finish b t out)
  unfolding finish
  finish-Outcome b out fits t r tab =
      elim (Bool-cases (length (kahn (length b.nodes) t).order == length b.nodes)) [
        | inl full ↦
            let complete : length (kahn (length b.nodes) t).order ≡ length b.nodes = ground arith in
            rw full (
              built (freeze b.nodes t (kahn (length b.nodes) t).order) r
                (acyclic _ (order_sorted b fits r t tab complete))
                (freeze-Builds b fits r t tab complete))
        | inr short ↦ rw short (cyclic _ r (incomplete-HasCycle r tab (ground arith)))
      ]

  -- A build fails if an edge names no node, fails if the edges have a cycle, and otherwise returns
  -- the graph that the builder describes. A failure leaves the caller's pointer as it was.
  pub build-Outcome :
      (b : GraphBuilder W) (out : Option (DependencyGraph W)) → Fits b → Outcome b out (build b out)
  unfolding build
  build-Outcome b out fits =
      go _
        (scan_edges-Scanned (length b.nodes) b.edges (blank_tables (length b.nodes))
          (blank_tables-IsSized _))
        refl
    where
      go :
          (s : Option Tables)
          → Scanned (length b.nodes) b.edges (blank_tables (length b.nodes)) s
          → scan_edges (length b.nodes) b.edges (blank_tables (length b.nodes)) ≡ s
          → Outcome b out (build b out)
      go none (rejected h) e = rw (e, build) (unknown _ h)
      go (some t) (filled _ r h) e =
          rw (e, build) (finish-Outcome b out fits t r (Registers-Tabulates h))

  -- The graph that a successful build leaves in the caller's pointer is frozen.
  pub build-IsFrozen :
      {b : GraphBuilder W} {g : DependencyGraph W}
      → Fits b
      → build b none ≡ (success, some g)
      → IsFrozen g
  build-IsFrozen {b} {g} fits e = go _ (build-Outcome b none fits) e
    where
      go :
          (r : GraphStatus × Option (DependencyGraph W))
          → Outcome b none r
          → r ≡ (success, some g)
          → IsFrozen g
      go _ (unknown m h) e = cc
      go _ (cyclic m r h) e = cc
      go _ (built g' r h made) e = subst IsFrozen (some_inj (ap (λ q. q.1) e)) made.frozen
