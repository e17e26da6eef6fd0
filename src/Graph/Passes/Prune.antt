-- ===== src/Graph/Passes/Prune.antt =====
-- The renumbering of `prune_to_sinks` in Library/Graph/graph_passes.cpp.
use xsigma.Common.{
  ℕ, zero, suc, ◌+◌, ◌≡◌, refl, Bool, true, false, List, [], ◌∷◌, arith, if◌then◌else◌, get_or,
  to_nat, sum_below, sum_below-head,
}
use xsigma.Graph.Passes.{npos, renumber}

renumber-from :
    (next : ℕ) (keep : List Bool) (v : ℕ)
    → get_or (renumber next keep) v npos ≡ (
        if get_or keep v false
        then next + sum_below v (λ w. to_nat (get_or keep w false))
        else npos)
unfolding renumber sum_below
renumber-from next [] v = refl
renumber-from next (true ∷ flags) zero = omega arith
renumber-from next (false ∷ flags) zero = refl
renumber-from next (true ∷ flags) (suc v) = ground (
  arith,
  renumber-from (next + 1) flags v,
  sum_below-head v (λ w. to_nat (get_or (true ∷ flags) w false)),
)
renumber-from next (false ∷ flags) (suc v) = ground (
  arith,
  renumber-from next flags v,
  sum_below-head v (λ w. to_nat (get_or (false ∷ flags) w false)),
)

-- The renumbering is dense and keeps the order: the new id of a kept node is the number of kept nodes
-- before it, and any other node has the id that stands for none.
pub renumber-dense :
    (keep : List Bool) (v : ℕ)
    → get_or (renumber 0 keep) v npos
      ≡ (if get_or keep v false then sum_below v (λ w. to_nat (get_or keep w false)) else npos)
renumber-dense keep v = ground (arith, renumber-from 0 keep v)
