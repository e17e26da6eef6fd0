-- ===== src/Graph/Tests/Building.antt =====
-- The theorems about graph_builder and graph_passes on small graphs.
use xsigma.Common.{
  ℕ, ◌≡◌, true, false, if◌then◌else◌, none, [], ◌∷◌, arith, length, get_or, count, sum_below,
  to_nat, ◌↔◌,
}
use xsigma.Graph.Dependency.{node_count, dependency_range}
use xsigma.Graph.Builder.{build}
use xsigma.Graph.Builder.Correct.{Outcome, build-Outcome}
use xsigma.Graph.Passes.Prune.{renumber-dense}
use xsigma.Graph.Passes.{npos, renumber, ancestor_set, consumer_counts}
use xsigma.Graph.Passes.Ancestors.{Ancestor, ancestor_set-Ancestor}
use xsigma.Graph.Passes.Consumers.{consumer_counts-reads}
use xsigma.Graph.Tests.{diamond, diamond-Fits, pair_graph, pair-IsFrozen}

build-Outcome_example : Outcome diamond none (build diamond none)
build-Outcome_example = build-Outcome diamond none diamond-Fits

ancestor_set-Ancestor_example :
    (length (ancestor_set pair_graph (1 ∷ [])) ≡ node_count pair_graph)
    × ((v : ℕ)
        → (get_or (ancestor_set pair_graph (1 ∷ [])) v false ≡ true)
          ↔ Ancestor pair_graph (1 ∷ []) v)
ancestor_set-Ancestor_example = ancestor_set-Ancestor pair_graph (1 ∷ []) pair-IsFrozen

consumer_counts-reads_example : get_or (consumer_counts pair_graph (true ∷ true ∷ [])) 0 0 ≡ (
    if get_or (true ∷ true ∷ []) 0 false
    then sum_below (node_count pair_graph) (λ v.
      if get_or (true ∷ true ∷ []) v false then count 0 (dependency_range pair_graph v) else 0)
    else 0)
unfolding node_count
consumer_counts-reads_example =
    consumer_counts-reads pair_graph (true ∷ true ∷ []) pair-IsFrozen 0 (omega arith)

renumber-dense_example : get_or (renumber 0 (true ∷ false ∷ true ∷ [])) 2 npos ≡ (
    if get_or (true ∷ false ∷ true ∷ []) 2 false
    then sum_below 2 (λ w. to_nat (get_or (true ∷ false ∷ true ∷ []) w false))
    else npos)
renumber-dense_example = renumber-dense (true ∷ false ∷ true ∷ []) 2
