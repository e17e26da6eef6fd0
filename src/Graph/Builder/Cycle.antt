-- ===== src/Graph/Builder/Cycle.antt =====
-- The cycle check of `graph_builder::build`: nodes are left over exactly if the edges have a cycle.
use xsigma.Common.{
  ℕ, zero, suc, ◌+◌, ◌≤◌, ◌<◌, ◌≡◌, ◌≢◌, ap, subst, ◌⊎◌, inl, inr, List, [], ◌∷◌, arith, dec_lt,
  ℕ_discrete, ◌-◌, length, count, position, AllBelow, pigeonhole_full, pigeonhole_missing,
}
use xsigma.Graph.Builder.{PendingEdge, Tables, KahnState, kahn}
use xsigma.Graph.Builder.Edges.{inputs_of, InRange, Tabulates, inputs_below}
use xsigma.Graph.Builder.Kahn.{order-once, order-AllBelow, kahn-Inv, waiting_some}

-- `v` depends on `u`, directly or through other nodes.
pub data Walk (es : List PendingEdge) : ℕ → ℕ → Type 0 where
  edge : (u v : ℕ) → 0 < count u (inputs_of v es) → Walk es u v
  via : (u v : ℕ) {w : ℕ} → 0 < count u (inputs_of v es) → Walk es v w → Walk es u w

abbrev pub HasCycle : List PendingEdge → Type 0
HasCycle es = (v : ℕ) × Walk es v v

Walk-position :
    {es : List PendingEdge} (order : List ℕ)
    → ((v u : ℕ) → 0 < count u (inputs_of v es) → position u order < position v order)
    → {u v : ℕ} → Walk es u v
    → position u order < position v order
Walk-position order h (edge u v k) = h v u k
Walk-position order h (via u v {w} k walk) = omega (arith, h v u k, Walk-position order h walk)

pub acyclic :
    {es : List PendingEdge} (order : List ℕ)
    → ((v u : ℕ) → 0 < count u (inputs_of v es) → position u order < position v order)
    → ¬ HasCycle es
acyclic order h (v, walk) = omega (arith, Walk-position order h walk)

module _ {n : ℕ} {es : List PendingEdge} {t : Tables} (r : InRange n es)
    (tab : Tabulates n es t) where
  abbrev final : KahnState
  final = kahn n t

  -- A node left over depends on another one left over.
  stuck_dependency :
      (v : ℕ)
      → v < n
      → count v final.order ≡ 0
      → (u : ℕ) × (0 < count u (inputs_of v es)) × (count u final.order ≡ 0)
  unfolding count
  stuck_dependency v lt h =
      let (inv, drained) = kahn-Inv r tab in
      waiting_some es final.order v
        (ground (arith, inv.queued v, inv.degree v lt, ap (count v) drained))

  close : (u v : ℕ) → 0 < count u (inputs_of v es) → (v ≡ u) ⊎ Walk es v u → HasCycle es
  close u v dep (inl same) = (u, subst (λ w. Walk es u w) same (edge u v dep))
  close u v dep (inr walk) = (u, via u v dep walk)

  behind : (u v : ℕ) {x : ℕ} → 0 < count u (inputs_of v es) → (v ≡ x) ⊎ Walk es v x → Walk es u x
  behind u v dep (inl same) = subst (λ w. Walk es u w) same (edge u v dep)
  behind u v dep (inr walk) = via u v dep walk

  -- Walk back from `v` until a node comes up again; `path` holds the nodes passed so far.
  find_cycle :
      (fuel v : ℕ) (path : List ℕ)
      → v < n
      → count v final.order ≡ 0
      → length path + fuel ≡ n
      → AllBelow n path
      → ((x : ℕ) → count x path ≤ 1)
      → ((x : ℕ) → 0 < count x path → (v ≡ x) ⊎ Walk es v x)
      → HasCycle es
  unfolding count
  find_cycle zero v path lt stuck size below once back =
      let (u, dep, left) = stuck_dependency v lt stuck in
      let (u_lt, _) = inputs_below es r u v dep in
      close u v dep (back u (omega (arith, pigeonhole_full n path below once (omega arith) u u_lt)))
  find_cycle (suc fuel) v path lt stuck size below once back =
      let (u, dep, left) = stuck_dependency v lt stuck in
      let (u_lt, _) = inputs_below es r u v dep in
      elim (dec_lt 0 (count u path)) [
        | yes again ↦ close u v dep (back u again)
        | no new ↦
            find_cycle fuel u (u ∷ path) u_lt left (omega arith) (λ x h. ground (arith, below x h))
              (λ x. ground (arith, once x))
              (λ x h. elim (ℕ_discrete u x) [
                | yes same ↦ inl same
                | no other ↦ inr (behind u v dep (back x (ground arith)))
              ])
      ]

  -- Nodes that the queue leaves over lie behind a cycle.
  pub incomplete-HasCycle : length final.order ≢ n → HasCycle es
  unfolding count
  incomplete-HasCycle short =
      let (inv, _) = kahn-Inv r tab in
      let (v, lt, stuck) =
        pigeonhole_missing n final.order (order-AllBelow r tab final inv)
          (order-once r tab final inv) short in
      find_cycle (n - 1) v (v ∷ []) lt stuck (omega arith) (λ x h. ground arith) (λ x. ground arith)
        (λ x h. inl (ground arith))
