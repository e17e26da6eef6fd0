-- ===== src/Graph/Passes/Consumers.antt =====
-- `consumer_counts` of graph_passes.cpp.
use xsigma.Common.{
  ℕ, ◌+◌, ◌^◌, ◌<◌, ◌≡◌, ◌∙◌, Bool, false, List, [], ◌∷◌, arith, dec_lt, if◌then◌else◌, length,
  get_or, count, sum_below, sum_below-congr, tally, tally-nil, tally-cons, AllBelow, AllBelow-head,
  AllBelow-tail, get_or-map-range, get_or_beyond, length-map, length-range_from, range,
}
use xsigma.Graph.Dependency.{
  DependencyGraph, IsFrozen, node_count, successor_range, dependency_range, to_u32,
}
use xsigma.Graph.Passes.{scheduled_among, consumer_counts}

module _ {W : Type 0} (g : DependencyGraph W) (scheduled : List Bool) where
  abbrev runs : ℕ → Bool
  runs v = get_or scheduled v false

  scheduled_among-tally :
      (n acc : ℕ) (ids : List ℕ)
      → AllBelow n ids
      → acc + length ids < 2 ^ 32
      → scheduled_among g scheduled acc ids ≡ acc + tally n runs ids
  unfolding scheduled_among
  scheduled_among-tally n acc [] below fits = omega (arith, tally-nil n runs)
  scheduled_among-tally n acc (id ∷ ids) below fits =
      let first = tally-cons n runs id ids (AllBelow-head id ids below) in
      let rest = AllBelow-tail id ids below in
      ground (
        arith,
        first,
        scheduled_among-tally n acc ids rest,
        scheduled_among-tally n (to_u32 (acc + 1)) ids rest,
      )

  -- In a frozen graph a scheduled node gets the number of times that scheduled nodes read its result; any other node gets 0.
  pub consumer_counts-reads :
      IsFrozen g
      → (id : ℕ) → id < node_count g
      → get_or (consumer_counts g scheduled) id 0 ≡ (
          if get_or scheduled id false
          then sum_below
              (node_count g)
              (λ v. if get_or scheduled v false then count id (dependency_range g v) else 0)
          else 0)
  unfolding consumer_counts
  consumer_counts-reads frozen id lt =
      let n = node_count g in
      let ids = successor_range g id in
      let below : AllBelow n ids =
        λ v h. ground (arith, frozen.transposed id v, frozen.below id v) in
      let swap =
        sum_below-congr n (λ v. if runs v then count v ids else 0)
          (λ v. if runs v then count id (dependency_range g v) else 0)
          (λ v _. ground (arith, frozen.transposed id v)) in
      get_or-map-range
        (λ v. if runs v then scheduled_among g scheduled 0 (successor_range g v) else 0) n id 0 lt
      ∙ ground (arith, scheduled_among-tally n 0 ids below, frozen.narrow id, swap)

  scheduled_among-lt :
      (ids : List ℕ) (acc : ℕ) → acc < 2 ^ 32 → scheduled_among g scheduled acc ids < 2 ^ 32
  unfolding scheduled_among
  scheduled_among-lt [] acc h = h
  scheduled_among-lt (id ∷ ids) acc h =
      scheduled_among-lt ids (if get_or scheduled id false then to_u32 (acc + 1) else acc)
        (ground arith)

  pub length-consumer_counts : length (consumer_counts g scheduled) ≡ node_count g
  unfolding consumer_counts
  length-consumer_counts =
      length-map
        (λ id.
          if get_or scheduled id false
          then scheduled_among g scheduled 0 (successor_range g id)
          else 0)
        (range (node_count g))
      ∙ length-range_from 0 (node_count g)

  pub consumer_counts-lt : (id : ℕ) → get_or (consumer_counts g scheduled) id 0 < 2 ^ 32
  unfolding consumer_counts
  consumer_counts-lt id = elim (dec_lt id (node_count g)) [
    | yes lt ↦
        rw
          (get_or-map-range
            (λ v. if runs v then scheduled_among g scheduled 0 (successor_range g v) else 0)
            (node_count g) id 0 lt)
          (ground (arith, scheduled_among-lt (successor_range g id) 0 (omega arith)))
    | no out ↦ omega (
      arith,
      get_or_beyond (consumer_counts g scheduled) id 0 (omega (arith, length-consumer_counts)),
    )
  ]
