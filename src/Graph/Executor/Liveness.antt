-- ===== src/Graph/Executor/Liveness.antt =====
-- The liveness part of a restricted run: the consumer counters. The counter of a node whose slot
-- may be freed is the number of times that nodes of the run are still to read it.
use xsigma.Common.{
  ℕ, ◌+◌, ◌-◌, ◌^◌, ◌<◌, ◌≡◌, ◌≢◌, refl, ap, ◌∙◌, Bool, true, false, not, ◌&&◌, List, ◌∷◌, arith,
  ◌==◌, if◌then◌else◌, length, get_or, set, count, get_or-set, length-set, sum_below,
  sum_below-change, sum_below-congr, sum_below-ge,
}
use xsigma.Graph.Dependency.{to_u32, node_count, dependency_range}
use xsigma.Graph.Executor.Step.{Plan, Phase, finished, freeing, notifying, update, skips}
use xsigma.Graph.Executor.Counters.{Takes, update_at}

-- How often a node with the dependencies `deps` is still to read `u`.
abbrev pub unread : Phase → List ℕ → ℕ → ℕ
unread finished deps u = 0
unread (notifying _) deps u = 0
unread (freeing left) deps u = count u left
unread _ deps u = count u deps

module _ {V : Type 0} (p : Plan V) where
  abbrev n : ℕ
  n = node_count p.graph

  -- The nodes whose slot the liveness loop may free.
  abbrev pub frees : ℕ → Bool
  frees u = get_or p.scheduled u false && not (get_or p.is_sink u false)

  abbrev pub unread_by : (ℕ → Phase) → ℕ → ℕ → ℕ
  unread_by phases u v = if skips p v then 0 else unread (phases v) (dependency_range p.graph v) u

  pub record Liveness (consumers_left : List ℕ) (phases : ℕ → Phase) : Type 0 where
    pub sized : (u : ℕ) → u < n → frees u ≡ true → u < length consumers_left
    pub small : (u : ℕ) → get_or consumers_left u 0 < 2 ^ 32
    pub uses :
        (u : ℕ)
        → u < n
        → frees u ≡ true
        → get_or consumers_left u 0 ≡ sum_below n (unread_by phases u)

  module _ {left : List ℕ} {phases : ℕ → Phase} (l : Liveness left phases) where
    -- A worker goes on, and what it has to read stays the same.
    pub move-Liveness :
        (id : ℕ) (next : Phase)
        → ((u : ℕ)
            → frees u ≡ true
            → unread (phases id) (dependency_range p.graph id) u
              ≡ unread next (dependency_range p.graph id) u)
        → Liveness left (update phases id next)
    move-Liveness id next same = record {
      sized = l.sized;
      small = l.small;
      uses = λ u lt h.
          l.uses u lt h
          ∙ sum_below-congr n (unread_by phases u) (unread_by (update phases id next) u) (λ v _.
            update_at
              (λ v ph.
                unread_by phases u v
                ≡ (if skips p v then 0 else unread ph (dependency_range p.graph v) u))
              phases id next (ap (λ k. if skips p id then 0 else k) (same u h)) (λ _ _. refl) v);
    }

    -- A node of the run that has still to read `u` keeps the counter of `u` above zero.
    pub unread_pos :
        (u v : ℕ)
        → u < n
        → frees u ≡ true
        → Takes p v
        → 0 < unread (phases v) (dependency_range p.graph v) u
        → 0 < get_or left u 0
    unread_pos u v lt h t pos =
        let share = sum_below-ge n (unread_by phases u) v t.0 in
        let mine : unread_by phases u v ≡ unread (phases v) (dependency_range p.graph v) u =
          rw t.1 refl in
        omega (arith, share, mine, l.uses u lt h)

    -- One round of the liveness loop.
    pub release-Liveness :
        (id d : ℕ) (ds : List ℕ)
        → Takes p id
        → d < n
        → phases id ≡ freeing (d ∷ ds)
        → frees d ≡ true
        → Liveness
            (set left d (to_u32 (get_or left d 0 + 2 ^ 32 - 1)))
            (update phases id (freeing ds))
    unfolding count
    release-Liveness id d ds t lt at free =
        let pos = unread_pos d id lt free t (rw at (ground arith)) in
        let now = λ (u : ℕ). get_or-set left d u (to_u32 (get_or left d 0 + 2 ^ 32 - 1)) 0 in
        record {
          sized = λ u u_lt h.
              omega (
                arith,
                length-set left d (to_u32 (get_or left d 0 + 2 ^ 32 - 1)),
                l.sized u u_lt h,
              );
          small = λ u. ground (arith, now u, l.small u);
          uses = λ u u_lt h.
              let change =
                sum_below-change n id (unread_by phases u)
                  (unread_by (update phases id (freeing ds)) u) t.0
                  (λ v ne.
                    update_at
                      (λ v ph.
                        v ≢ id
                        → unread_by phases u v
                          ≡ (if skips p v then 0 else unread ph (dependency_range p.graph v) u))
                      phases id (freeing ds) (λ ne. absurd (ne refl)) (λ _ _ _. refl) v ne) in
              let before : unread_by phases u id ≡ count u (d ∷ ds) = rw (t.1, at) refl in
              let after : unread_by (update phases id (freeing ds)) u id ≡ count u ds =
                rw (t.1, update_self id) refl in
              ground (
                arith,
                now u,
                change,
                before,
                after,
                l.uses u u_lt h,
                l.small u,
                pos,
                l.sized d lt free,
              );
        }
      where
        update_self : (a : ℕ) → (a == a) ≡ true
        update_self a = ground arith
