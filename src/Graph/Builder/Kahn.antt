-- ===== src/Graph/Builder/Kahn.antt =====
-- Kahn's algorithm in `graph_builder::build`: the queue runs empty, and what it emitted is in
-- topological order.
use xsigma.Common.{
  ℕ, zero, suc, ◌+◌, ◌≤◌, ◌<◌, ◌≡◌, refl, ap, ◌∙◌, subst, ◌&&◌, inl, inr, List, [], ◌∷◌, ◌++◌,
  arith, dec_lt, ◌==◌, if◌then◌else◌, List-cases, length, get_or, set, count, to_nat, length-set,
  length-append, get_or-set, get_or_beyond, get_or_default, range, AllBelow, AllBelow-head,
  AllBelow-tail, count-concat, count-range, position, position-append_left, position-append_right,
  position-lt, pigeonhole_full,
}
use xsigma.Graph.Builder.{
  PendingEdge, Tables, KahnState, decrement, release, peel, kahn_loop, kahn_start, kahn, sources,
}
use xsigma.Graph.Builder.Edges.{
  inputs_of, consumers_of, InRange, Tabulates, inputs_consumers, inputs_below,
}

-- The edges into `v` whose dependency is not in `order` yet.
pub waiting : List PendingEdge → List ℕ → ℕ → ℕ
waiting [] order v = 0
waiting (e ∷ es) order v =
    to_nat ((v == e.node) && (count e.dependency order == 0)) + waiting es order v

waiting-concat :
    (es : List PendingEdge) (order : List ℕ) (id v : ℕ)
    → count id order ≡ 0
    → waiting es (order ++ id ∷ []) v + count v (consumers_of id es) ≡ waiting es order v
unfolding waiting consumers_of count
waiting-concat [] order id v h = refl
waiting-concat (e ∷ es) order id v h =
    ground (arith, waiting-concat es order id v, count-concat e.dependency id order)

waiting-nil : (es : List PendingEdge) (v : ℕ) → waiting es [] v ≡ length (inputs_of v es)
unfolding waiting inputs_of count
waiting-nil [] v = refl
waiting-nil (e ∷ es) v = ground (arith, waiting-nil es v)

pub waiting_done :
    (es : List PendingEdge) (order : List ℕ) (v u : ℕ)
    → waiting es order v ≡ 0
    → 0 < count u (inputs_of v es)
    → 0 < count u order
unfolding waiting inputs_of count
waiting_done [] order v u h k = absurd (omega arith)
waiting_done (e ∷ es) order v u h k = ground (arith, waiting_done es order v u)

pub waiting_some :
    (es : List PendingEdge) (order : List ℕ) (v : ℕ)
    → 0 < waiting es order v
    → (u : ℕ) × (0 < count u (inputs_of v es)) × (count u order ≡ 0)
unfolding waiting inputs_of count
waiting_some [] order v h = absurd (omega arith)
waiting_some (e ∷ es) order v h = elim (dec_lt 0 (waiting es order v)) [
  | yes later ↦ let (u, p, q) = waiting_some es order v later in (u, ground arith, q)
  | no here ↦ (e.dependency, ground arith, ground arith)
]

-- What the loop over the successors does to the in-degrees and the queue.
record Released (ss d q : List ℕ) (r : List ℕ × List ℕ) : Type 0 where
  sized : length r.0 ≡ length d
  left : (v : ℕ) → get_or r.0 v 1 + count v ss ≡ get_or d v 1
  queued :
      (v : ℕ) → count v r.1 + to_nat (get_or d v 1 == 0) ≡ count v q + to_nat (get_or r.0 v 1 == 0)

release-Released :
    (ss d q : List ℕ)
    → AllBelow (length d) ss
    → ((v : ℕ) → count v ss ≤ get_or d v 1)
    → Released ss d q (release ss d q)
unfolding release count decrement
release-Released [] d q below enough = record {
  sized = refl;
  left = λ v. omega arith;
  queued = λ v. refl;
}
release-Released (s ∷ ss) d q below enough =
    let d' = set d s (decrement (get_or d s 1)) in
    let q' = if decrement (get_or d s 1) == 0 then q ++ s ∷ [] else q in
    let step = λ (v : ℕ). get_or-set d s v (decrement (get_or d s 1)) 1 in
    let size = length-set d s (decrement (get_or d s 1)) in
    let lt = AllBelow-head s ss below in
    let r =
      release-Released ss d' q' (λ v h. AllBelow-tail s ss below v (omega arith))
        (λ v. ground (arith, step v, enough v, enough s, lt)) in
    record {
      sized = r.sized ∙ size;
      left = λ v. ground (arith, r.left v, step v, enough v, enough s, lt);
      queued = λ v. ground (arith, r.queued v, step v, enough v, enough s, lt, count-concat v s q);
    }

module _ {n : ℕ} {es : List PendingEdge} {t : Tables} (r : InRange n es)
    (tab : Tabulates n es t) where
  pub record Inv (s : KahnState) : Type 0 where
    pub sized : length s.in_degree ≡ n
    pub degree : (v : ℕ) → v < n → get_or s.in_degree v 1 ≡ waiting es s.order v
    pub queued : (v : ℕ) → count v s.order + count v s.ready ≡ to_nat (get_or s.in_degree v 1 == 0)
    pub sorted :
        (v u : ℕ)
        → 0 < count v s.order
        → 0 < count u (inputs_of v es)
        → position u s.order < position v s.order

  module _ (s : KahnState) (inv : Inv s) where
    pub order-once : (v : ℕ) → count v s.order ≤ 1
    order-once v = ground (arith, inv.queued v)

    pub order-AllBelow : AllBelow n s.order
    order-AllBelow v h = ground (arith, inv.queued v, get_or_beyond s.in_degree v 1, inv.sized)

    pub order_ready :
        (v u : ℕ) → 0 < count v s.order → 0 < count u (inputs_of v es) → 0 < count u s.order
    order_ready v u h k =
        let (_, lt) = inputs_below es r u v k in
        waiting_done es s.order v u (ground (arith, inv.queued v, inv.degree v lt)) k

  module _ (s : KahnState) (inv : Inv s) (id : ℕ) (rest : List ℕ) (e : s.ready ≡ id ∷ rest) where
    front-new : (count id s.order ≡ 0) × (get_or s.in_degree id 1 ≡ 0)
    unfolding count
    front-new = ground (arith, inv.queued id, ap (count id) e)

    front-lt : id < n
    front-lt = ground (arith, front-new.1, get_or_beyond s.in_degree id 1, inv.sized)

    front_inputs : (u : ℕ) → 0 < count u (inputs_of id es) → 0 < count u s.order
    front_inputs u k =
        waiting_done es s.order id u (omega (arith, inv.degree id front-lt, front-new.1)) k

    consumers-le : (v : ℕ) → count v (consumers_of id es) ≤ get_or s.in_degree v 1
    consumers-le v = elim (dec_lt v n) [
      | yes lt ↦ omega (arith, inv.degree v lt, waiting-concat es s.order id v front-new.0)
      | no out ↦
          let none_there =
            λ (p : 0 < count id (inputs_of v es)). out (inputs_below es r id v p).1 in
          omega (arith, inputs_consumers es id v, none_there)
    ]

    consumers-AllBelow : AllBelow (length s.in_degree) (consumers_of id es)
    consumers-AllBelow v h =
        ground (arith, inv.sized, inputs_consumers es id v, inputs_below es r id v)

    released :
        Released
          (consumers_of id es)
          s.in_degree
          rest
          (release (consumers_of id es) s.in_degree rest)
    released =
        release-Released (consumers_of id es) s.in_degree rest consumers-AllBelow consumers-le

    sorted_concat :
        (v u : ℕ)
        → 0 < count v (s.order ++ id ∷ [])
        → 0 < count u (inputs_of v es)
        → position u (s.order ++ id ∷ []) < position v (s.order ++ id ∷ [])
    unfolding position
    sorted_concat v u h k = elim (dec_lt 0 (count v s.order)) [
      | yes old ↦
          let before = order_ready s inv v u old k in
          rw
            (
              position-append_left v s.order (id ∷ []) old,
              position-append_left u s.order (id ∷ []) before,
            )
            (inv.sorted v u old k)
      | no new ↦
          let same : v ≡ id = ground (arith, count-concat v id s.order) in
          let before = front_inputs u (subst (λ w. 0 < count u (inputs_of w es)) same k) in
          rw
            (
              position-append_right v s.order (id ∷ []) (omega arith),
              position-append_left u s.order (id ∷ []) before,
            )
            (omega (arith, position-lt u s.order before))
    ]

    -- One round of the loop keeps the invariant, and emits one node.
    pub peel-Inv :
        Inv (peel t.successors s id rest)
        × (length (peel t.successors s id rest).order ≡ suc (length s.order))
    unfolding peel count
    peel-Inv = rw (tab.consumers id) (
      record {
        sized = released.sized ∙ inv.sized;
        degree = λ v lt.
            omega
              (arith, released.left v, inv.degree v lt, waiting-concat es s.order id v front-new.0);
        queued = λ v.
            ground
              (arith, released.queued v, inv.queued v, count-concat v id s.order, ap (count v) e);
        sorted = sorted_concat;
      },
      omega (arith, length-append s.order (id ∷ [])),
    )

  full_queue : (s : KahnState) → Inv s → length s.order ≡ n → s.ready ≡ []
  unfolding count
  full_queue s inv full = elim (List-cases s.ready) [
    | inl e ↦ e
    | inr (id, rest, e) ↦ absurd (
        ground (
          arith,
          front-new s inv id rest e,
          pigeonhole_full n s.order (order-AllBelow s inv) (order-once s inv) full id
              (front-lt s inv id rest e),
        ))
  ]

  -- The loop drains the queue within `n` rounds.
  pub kahn_loop-Inv :
      (fuel : ℕ) (s : KahnState)
      → Inv s
      → length s.order + fuel ≡ n
      → Inv (kahn_loop t.successors fuel s) × ((kahn_loop t.successors fuel s).ready ≡ [])
  unfolding kahn_loop
  kahn_loop-Inv zero s inv h = (inv, full_queue s inv (omega arith))
  kahn_loop-Inv (suc fuel) s inv h = elim (List-cases s.ready) [
    | inl e ↦ rw (e, kahn_loop) (inv, e)
    | inr (id, rest, e) ↦
        let (next, more) = peel-Inv s inv id rest e in
        rw (e, kahn_loop) (kahn_loop-Inv fuel (peel t.successors s id rest) next (omega arith))
  ]

  count-sources :
      (d ids : List ℕ) (v : ℕ)
      → count v (sources d ids) ≡ (if get_or d v 1 == 0 then count v ids else 0)
  unfolding sources count
  count-sources d [] v = ground arith
  count-sources d (id ∷ ids) v = ground (arith, count-sources d ids v)

  kahn_start-Inv : Inv (kahn_start n t.in_degree)
  unfolding kahn_start count
  kahn_start-Inv = record {
    sized = tab.sized.in_degree;
    degree = λ v lt. omega (
      arith,
      tab.degree v,
      waiting-nil es v,
      get_or_default t.in_degree v 0 1 (omega (arith, tab.sized.in_degree)),
    );
    queued = λ v. ground (
      arith,
      count-sources t.in_degree (range n) v,
      count-range v n,
      get_or_beyond t.in_degree v 1,
      tab.sized.in_degree,
    );
    sorted = λ v u h k. absurd (omega arith);
  }

  pub kahn-Inv : Inv (kahn n t) × ((kahn n t).ready ≡ [])
  unfolding kahn kahn_start
  kahn-Inv = kahn_loop-Inv n (kahn_start n t.in_degree) kahn_start-Inv (omega arith)
