-- ===== src/Graph/Executor/Counters.antt =====
-- The scheduling part of a run: the in-degree counters, the ready queue and the phases. A node's
-- counter is the number of edges into it that are still to be notified.
use xsigma.Common.{
  ℕ, ◌+◌, ◌-◌, ◌^◌, ◌≤◌, ◌<◌, ◌≡◌, ◌≢◌, refl, sym, ap, ◌∙◌, subst, Bool, true, false, inl, inr,
  List, [], ◌∷◌, ◌++◌, arith, ℕ_discrete, ◌==◌, if◌then◌else◌, Bool-cases, ==_iff, length, get_or,
  set, count, to_nat, get_or-set, length-set, sum_below, sum_below-change, sum_below-congr,
  sum_below-ge,
}
use xsigma.Graph.Dependency.{IsFrozen, to_u32, node_count, successor_range, dependency_range}
use xsigma.Graph.Executor.Step.{
  Plan, Phase, blocked, queued, body, finished, freeing, notifying, ReadyItem, update, skips,
}

-- The edges from `u` to `v` that are still to be notified, `u` having the successors `succs`.
abbrev pub owed : Phase → List ℕ → ℕ → ℕ
owed finished succs v = 0
owed (notifying left) succs v = count v left
owed _ succs v = count v succs

abbrev pub is_queued : Phase → Bool
is_queued queued = true
is_queued _ = false

abbrev pub is_blocked : Phase → Bool
is_blocked blocked = true
is_blocked _ = false

abbrev pub ids : List ReadyItem → List ℕ
ids [] = []
ids (item ∷ items) = item.id ∷ ids items

pub ids-append :
    (xs ys : List ReadyItem) (v : ℕ)
    → count v (ids (xs ++ ys)) ≡ count v (ids xs) + count v (ids ys)
unfolding count
ids-append [] ys v = omega arith
ids-append (x ∷ xs) ys v = omega (arith, ids-append xs ys v)

pub is_blocked_eq : (ph : Phase) → is_blocked ph ≡ true → ph ≡ blocked
is_blocked_eq blocked h = refl
is_blocked_eq _ h = cc

pub update_self : (phases : ℕ → Phase) (ph : Phase) (a : ℕ) → update phases a ph a ≡ ph
update_self phases ph a = ground arith

-- To prove something of every phase after an update.
pub update_at {ℓ} :
    (P : ℕ → Phase → Type ℓ) (phases : ℕ → Phase) (id : ℕ) (next : Phase)
    → P id next
    → ((v : ℕ) → v ≢ id → P v (phases v))
    → (v : ℕ) → P v (update phases id next v)
update_at P phases id next here there v = elim (Bool-cases (v == id)) [
  | inl e ↦ rw e (subst (λ w. P w next) (sym ((==_iff v id).0 e)) here)
  | inr e ↦ rw e (there v (λ same. ground arith))
]

module _ {V : Type 0} (p : Plan V) where
  abbrev pub n : ℕ
  n = node_count p.graph

  -- What a worker in this phase has left is part of what it started with.
  abbrev pub Within : Phase → ℕ → Type 0
  Within (freeing left) u = (v : ℕ) → count v left ≤ count v (dependency_range p.graph u)
  Within (notifying left) u = (v : ℕ) → count v left ≤ count v (successor_range p.graph u)
  Within _ u = Unit {0}

  -- The nodes that take part in the run.
  abbrev pub Takes : ℕ → Type 0
  Takes v = (v < n) × (skips p v ≡ false)

  abbrev pub owed_to : (ℕ → Phase) → ℕ → ℕ → ℕ
  owed_to phases v u = owed (phases u) (successor_range p.graph u) v

  pub record Counters (remaining : List ℕ) (ready : List ReadyItem) (phases : ℕ → Phase)
      : Type 0 where
    pub sized : length remaining ≡ n
    pub small : (v : ℕ) → get_or remaining v 0 < 2 ^ 32
    pub owes : (v : ℕ) → Takes v → get_or remaining v 0 ≡ sum_below n (owed_to phases v)
    pub waits : (v : ℕ) → Takes v → phases v ≡ blocked → 0 < get_or remaining v 0
    pub started : (v : ℕ) → is_blocked (phases v) ≡ false → Takes v × (get_or remaining v 0 ≡ 0)
    pub listed : (v : ℕ) → count v (ids ready) ≡ to_nat (is_queued (phases v))
    pub within : (v : ℕ) → Within (phases v) v

  module _ {remaining : List ℕ} {ready : List ReadyItem} {phases : ℕ → Phase}
      (c : Counters remaining ready phases) where
    -- A worker goes on, and what it owes to the nodes of the run stays the same.
    pub move-Counters :
        (id : ℕ) (next : Phase)
        → is_blocked (phases id) ≡ false
        → is_queued (phases id) ≡ false
        → is_blocked next ≡ false
        → is_queued next ≡ false
        → ((v : ℕ)
            → Takes v
            → owed (phases id) (successor_range p.graph id) v
              ≡ owed next (successor_range p.graph id) v)
        → Within next id
        → Counters remaining ready (update phases id next)
    move-Counters id next b q b' q' same w = record {
      sized = c.sized;
      small = c.small;
      owes = λ v t.
          c.owes v t
          ∙ sum_below-congr n (owed_to phases v) (owed_to (update phases id next) v) (λ u _.
            update_at (λ u ph. owed_to phases v u ≡ owed ph (successor_range p.graph u) v) phases id
              next (same v t) (λ _ _. refl) u);
      waits = λ v t.
          update_at (λ v ph. Takes v → ph ≡ blocked → 0 < get_or remaining v 0) phases id next
            (λ _ e. cc (ap is_blocked e)) (λ u _. c.waits u) v t;
      started =
          update_at (λ v ph. is_blocked ph ≡ false → Takes v × (get_or remaining v 0 ≡ 0)) phases id
            next (λ _. c.started id b) (λ u _. c.started u);
      listed =
          update_at (λ v ph. count v (ids ready) ≡ to_nat (is_queued ph)) phases id next
            (c.listed id ∙ ap to_nat q ∙ sym (ap to_nat q')) (λ u _. c.listed u);
      within = update_at (λ v ph. Within ph v) phases id next w (λ u _. c.within u);
    }

    -- A worker takes an item off the queue.
    pub pop-Counters :
        (before after : List ReadyItem) (item : ReadyItem)
        → ready ≡ before ++ item ∷ after
        → Counters remaining (before ++ after) (update phases item.id body)
    unfolding count
    pop-Counters before after item e =
        let counts =
          λ (v : ℕ). (ap (λ items. count v (ids items)) e ∙ ids-append before (item ∷ after) v) in
        let was : is_queued (phases item.id) ≡ true =
          ground (arith, counts item.id, c.listed item.id) in
        let live : is_blocked (phases item.id) ≡ false = queued_live (phases item.id) was in
        record {
          sized = c.sized;
          small = c.small;
          owes = λ v t.
              c.owes v t
              ∙ sum_below-congr n (owed_to phases v) (owed_to (update phases item.id body) v)
                  (λ u _.
                    update_at (λ u ph. owed_to phases v u ≡ owed ph (successor_range p.graph u) v)
                      phases item.id body (queued_owes (phases item.id) was _ v) (λ _ _. refl) u);
          waits = λ v t.
              update_at (λ v ph. Takes v → ph ≡ blocked → 0 < get_or remaining v 0) phases item.id
                body (λ _ e. cc) (λ u _. c.waits u) v t;
          started =
              update_at (λ v ph. is_blocked ph ≡ false → Takes v × (get_or remaining v 0 ≡ 0))
                phases item.id body (λ _. c.started item.id live) (λ u _. c.started u);
          listed =
              update_at (λ v ph. count v (ids (before ++ after)) ≡ to_nat (is_queued ph)) phases
                item.id body
                (ground
                  (arith, counts item.id, ids-append before after item.id, c.listed item.id, was))
                (λ v ne. ground (arith, counts v, ids-append before after v, c.listed v));
          within = update_at (λ v ph. Within ph v) phases item.id body tt (λ u _. c.within u);
        }
      where
        queued_live : (ph : Phase) → is_queued ph ≡ true → is_blocked ph ≡ false
        queued_live queued h = refl
        queued_live blocked h = cc
        queued_live _ h = refl

        queued_owes :
            (ph : Phase)
            → is_queued ph ≡ true
            → (succs : List ℕ) (v : ℕ) → owed ph succs v ≡ owed body succs v
        queued_owes queued h succs v = refl
        queued_owes finished h succs v = cc
        queued_owes (notifying _) h succs v = cc
        queued_owes _ h succs v = refl

    module _ (frozen : IsFrozen p.graph) (id x : ℕ) (xs : List ℕ)
        (at_id : phases id ≡ notifying (x ∷ xs)) where
      within_id : (v : ℕ) → count v (x ∷ xs) ≤ count v (successor_range p.graph id)
      within_id = subst (λ ph. Within ph id) at_id (c.within id)

      Takes-id : Takes id
      Takes-id = (c.started id (ap is_blocked at_id)).0

      pub x-lt : x < n
      unfolding count
      x-lt = (frozen.below id x (ground (arith, within_id x, frozen.transposed id x))).1

      rest-Within : Within (notifying xs) id
      unfolding count
      rest-Within v = ground (arith, within_id v)

      -- A successor outside the run is passed over.
      pub skip-Counters :
          skips p x ≡ true → Counters remaining ready (update phases id (notifying xs))
      unfolding count
      skip-Counters out =
          move-Counters id (notifying xs) (ap is_blocked at_id) (ap is_queued at_id) refl refl
            (λ v t. rw at_id (ground (arith, v_differs v t))) rest-Within
        where
          v_differs : (v : ℕ) → Takes v → v ≢ x
          v_differs v t e = cc

      module _ (inside : skips p x ≡ false) where
        pub counter_pos : 0 < get_or remaining x 0
        unfolding count
        counter_pos =
            let share = sum_below-ge n (owed_to phases x) id Takes-id.0 in
            let mine : owed_to phases x id ≡ count x (x ∷ xs) = rw at_id refl in
            ground (arith, share, mine, c.owes x (x-lt, inside))

        pub x_blocked : is_blocked (phases x) ≡ true
        x_blocked = elim (Bool-cases (is_blocked (phases x))) [
          | inl e ↦ e
          | inr e ↦ absurd (omega (arith, (c.started x e).1, counter_pos))
        ]

        blocked_at : phases x ≡ blocked
        blocked_at = is_blocked_eq (phases x) x_blocked

        module _ (ready' : List ReadyItem) (phases' : ℕ → Phase) (here : phases' id ≡ notifying xs)
            (there : phases' x ≡ (if get_or remaining x 0 == 1 then queued else blocked))
            (elsewhere : (v : ℕ) → v ≢ id → v ≢ x → phases' v ≡ phases v)
            (listing : (v : ℕ)
              → count v (ids ready')
                ≡ count v (ids ready)
                  + (if v == x then to_nat (get_or remaining x 0 == 1) else 0)) where
          abbrev r : ℕ
          r = get_or remaining x 0

          abbrev fired : Phase
          fired = if r == 1 then queued else blocked

          paid_at {ℓ} :
              (P : ℕ → Phase → Type ℓ)
              → P id (notifying xs)
              → P x fired
              → ((v : ℕ) → v ≢ id → v ≢ x → P v (phases v))
              → (v : ℕ) → P v (phases' v)
          paid_at P at_id at_x other v = elim (ℕ_discrete v id) [
            | yes e ↦ subst (λ w. P w (phases' w)) (sym e) (subst (P id) (sym here) at_id)
            | no ne ↦ elim (ℕ_discrete v x) [
              | yes e ↦ subst (λ w. P w (phases' w)) (sym e) (subst (P x) (sym there) at_x)
              | no ne' ↦ subst (P v) (sym (elsewhere v ne ne')) (other v ne ne')
            ]
          ]

          left :
              (v : ℕ)
              → get_or (set remaining x (to_u32 (r + 2 ^ 32 - 1))) v 0 + (if v == x then 1 else 0)
                ≡ get_or remaining v 0
          left v = ground (
            arith,
            get_or-set remaining x v (to_u32 (r + 2 ^ 32 - 1)) 0,
            counter_pos,
            c.small x,
            c.sized,
            x-lt,
          )

          same_debt : (v u : ℕ) → u ≢ id → owed_to phases v u ≡ owed_to phases' v u
          same_debt v u ne =
              paid_at (λ u ph. u ≢ id → owed_to phases v u ≡ owed ph (successor_range p.graph u) v)
                (λ ne. absurd (ne refl)) (λ _. rw blocked_at (ground arith)) (λ u _ _ _. refl) u ne

          debt :
              (v : ℕ)
              → sum_below n (owed_to phases v)
                ≡ sum_below n (owed_to phases' v) + (if v == x then 1 else 0)
          unfolding count
          debt v =
              let before : owed_to phases v id ≡ count v (x ∷ xs) = rw at_id refl in
              let after : owed_to phases' v id ≡ count v xs = rw here refl in
              ground (
                arith,
                sum_below-change n id (owed_to phases v) (owed_to phases' v) Takes-id.0
                    (same_debt v),
                before,
                after,
              )

          -- The successor's counter falls by one, and at zero it is queued.
          pub pay-Counters : Counters (set remaining x (to_u32 (r + 2 ^ 32 - 1))) ready' phases'
          pay-Counters = record {
            sized = length-set remaining x _ ∙ c.sized;
            small = λ v. omega (arith, left v, c.small v);
            owes = λ v t. omega (arith, left v, debt v, c.owes v t);
            waits = λ v t.
                paid_at
                  (λ v ph.
                    Takes v
                    → ph ≡ blocked
                    → 0 < get_or (set remaining x (to_u32 (r + 2 ^ 32 - 1))) v 0)
                  (λ _ e. cc) (λ _ e. ground (arith, left x, counter_pos))
                  (λ u _ ne t e. ground (arith, left u, c.waits u t e)) v t;
            started =
                paid_at
                  (λ v ph.
                    is_blocked ph ≡ false
                    → Takes v × (get_or (set remaining x (to_u32 (r + 2 ^ 32 - 1))) v 0 ≡ 0))
                  (λ _. (Takes-id, omega (arith, left id, (c.started id (ap is_blocked at_id)).1)))
                  (λ e. ((x-lt, inside), ground (arith, left x)))
                  (λ u _ _ e. ((c.started u e).0, omega (arith, left u, (c.started u e).1)));
            listed = λ v.
                listing v
                ∙ paid_at
                    (λ v ph.
                      count v (ids ready) + (if v == x then to_nat (r == 1) else 0)
                      ≡ to_nat (is_queued ph))
                    (ground
                      (arith, c.listed id, ap is_queued at_id, ap is_blocked at_id, x_blocked))
                    (ground (arith, c.listed x, ap is_queued blocked_at))
                    (λ u _ ne. ground (arith, c.listed u)) v;
            within =
                paid_at (λ v ph. Within ph v) rest-Within (fired_Within (r == 1))
                  (λ u _ _. c.within u);
          }
            where
              fired_Within : (b : Bool) → Within (if b then queued else blocked) x
              fired_Within true = tt
              fired_Within false = tt
