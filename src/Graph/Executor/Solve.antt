-- ===== src/Graph/Executor/Solve.antt =====
-- The dataflow equations of a frozen graph have a solution, and only one: the sequential run.
use xsigma.Common.{
  ℕ, zero, suc, ◌<◌, ◌≡◌, refl, sym, ap, ◌∙◌, List, [], ◌∷◌, map, arith, count, position,
  position-lt, pigeonhole-le,
}
use xsigma.Graph.Dependency.{IsFrozen, node_count, dependency_range}
use xsigma.Graph.Executor.Step.{Plan}
use xsigma.Graph.Executor.Counters.{Takes}
use xsigma.Graph.Executor.Dataflow.{Outcome, skipped, compute, IsSolution}
use xsigma.Graph.Executor.Invariant.{IsRunnable}

module _ {V : Type 0} (nothing : V) (p : Plan V) where
  -- The outcome of a node by recursion into its dependencies, at most `depth` deep.
  unfoldable pub outcome_within : ℕ → ℕ → Outcome V
  outcome_within zero v = skipped
  outcome_within (suc depth) v =
      compute nothing p v (map (outcome_within depth) (dependency_range p.graph v))

  -- No chain of dependencies has more nodes than the graph.
  unfoldable pub outcome_of : ℕ → Outcome V
  unfolding outcome_within
  outcome_of v = outcome_within (suc (node_count p.graph)) v

  pub map-congr :
      (f g : ℕ → Outcome V) (xs : List ℕ)
      → ((u : ℕ) → 0 < count u xs → f u ≡ g u)
      → map f xs ≡ map g xs
  unfolding count
  map-congr f g [] h = refl
  map-congr f g (x ∷ xs) h = rw (h x (ground arith), map-congr f g xs (λ u k. h u (omega arith)))

  module _ (frozen : IsFrozen p.graph) where
    abbrev rank : ℕ → ℕ
    rank v = position v p.graph.topological_order

    depth_stable : (a b v : ℕ) → rank v < a → rank v < b → outcome_within a v ≡ outcome_within b v
    unfolding outcome_within
    depth_stable zero b v h k = absurd (omega arith)
    depth_stable (suc a) zero v h k = absurd (omega arith)
    depth_stable (suc a) (suc b) v h k = ap (compute nothing p v) (
        map-congr (outcome_within a) (outcome_within b) (dependency_range p.graph v) (λ u dep.
          depth_stable a b u (omega (arith, frozen.precedes v u dep))
            (omega (arith, frozen.precedes v u dep))))

    rank-lt : (v : ℕ) → v < node_count p.graph → rank v < node_count p.graph
    rank-lt v lt =
        let size =
          pigeonhole-le (node_count p.graph) p.graph.topological_order
            (λ u h. ground (arith, frozen.ordered u)) (λ u. ground (arith, frozen.ordered u)) in
        let here : 0 < count v p.graph.topological_order = ground (arith, frozen.ordered v) in
        omega (arith, size, position-lt v p.graph.topological_order here)

    -- `outcome_of` solves the equations.
    pub outcome_of-IsSolution : IsSolution nothing p (outcome_of)
    unfolding outcome_of outcome_within
    outcome_of-IsSolution id t =
        let n = node_count p.graph in
        ap (compute nothing p id) (
          map-congr (outcome_within n) (outcome_within (suc n)) (dependency_range p.graph id)
            (λ u dep.
              let before = frozen.precedes id u dep in
              depth_stable n (suc n) u (omega (arith, before, rank-lt id t.0))
                (omega (arith, before, rank-lt id t.0))))

  -- Two solutions agree at every node of the run.
  solutions_within :
      (runnable : IsRunnable p) (f g : ℕ → Outcome V)
      → IsSolution nothing p f
      → IsSolution nothing p g
      → (depth v : ℕ) → position v p.graph.topological_order < depth
      → Takes p v
      → f v ≡ g v
  solutions_within runnable f g hf hg zero v h t = absurd (omega arith)
  solutions_within runnable f g hf hg (suc depth) v h t =
      hf v t
      ∙ ap (compute nothing p v) (
          map-congr f g (dependency_range p.graph v) (λ u dep.
            solutions_within runnable f g hf hg depth u
              (omega (arith, runnable.frozen.precedes v u dep))
              ((runnable.frozen.below u v dep).0, runnable.closed v u t dep)))
      ∙ sym (hg v t)

  pub solutions_agree :
      (runnable : IsRunnable p) (f g : ℕ → Outcome V)
      → IsSolution nothing p f
      → IsSolution nothing p g
      → (v : ℕ) → Takes p v
      → f v ≡ g v
  solutions_agree runnable f g hf hg v t =
      solutions_within runnable f g hf hg (suc (position v p.graph.topological_order)) v
        (omega arith) t
