-- ===== src/Graph/Executor/Preserve/Body.antt =====
-- The step that runs the body of a node keeps the invariant.
use xsigma.Common.{
  ℕ, ◌≡◌, ◌≢◌, refl, sym, ap, ◌∙◌, subst, String, true, false, ◌⊎◌, inl, inr, none, some, arith,
  List-cases, get_or, count,
}
use xsigma.Graph.Dependency.{dependency_range}
use xsigma.Graph.Executor.Step.{Plan, Phase, body, freeing, Run, update, to_free}
use xsigma.Graph.Executor.Counters.{Takes, Within, is_queued, is_blocked, update_at, move-Counters}
use xsigma.Graph.Executor.Liveness.{frees, move-Liveness}
use xsigma.Graph.Executor.Dataflow.{Outcome, raised, skipped, IsSolution, Flagged, Holds}
use xsigma.Graph.Executor.Body.{Ran}
use xsigma.Graph.Executor.Invariant.{
  ran, is_finished, is_busy, tallied-update, IsRunnable, Inv, Freed, n,
}
use xsigma.Graph.Executor.Preserve.{Takes-of}

module _ {V : Type 0} {nothing : V} {p : Plan V} {workers : ℕ} {outcome : ℕ → Outcome V} where
  module _ (runnable : IsRunnable p) (solution : IsSolution nothing p outcome) (s : Run V)
      (inv : Inv nothing p workers outcome s) where
    -- What a body leaves behind, before the worker goes on.
    module _ (id : ℕ) (was : s.phases id ≡ body) where
      pub body-Takes : Takes p id
      body-Takes = Takes-of runnable solution s inv id (ap is_blocked was)

      unfoldable pub next : Phase
      next = freeing (to_free nothing p id)

      free_next :
          (u : ℕ)
          → frees p u ≡ true
          → count u (dependency_range p.graph id) ≡ count u (to_free nothing p id)
      free_next u h = elim (List-cases p.scheduled) [
        | inl none_scheduled ↦ cc (ap (λ bs. get_or bs u false) none_scheduled)
        | inr (b, bs, e) ↦ rw e refl
      ]

      next-Within : Within p (freeing (to_free nothing p id)) id
      unfolding count
      next-Within v = elim (List-cases p.scheduled) [
        | inl e ↦ rw e (omega arith)
        | inr (b, bs, e) ↦ rw e (omega arith)
      ]

      module _ (t : Run V) (r : Ran nothing p outcome s id t) where
        unfoldable pub after_body : Run V
        after_body = record t { phases = update t.phases id next }

        -- What held of the nodes that had run holds of them and of `id`.
        extend_ran {ℓ} :
            (P : ℕ → Type ℓ)
            → P id
            → ((v : ℕ) → v ≢ id → ran (s.phases v) ≡ true → P v)
            → (v : ℕ) → ran (update t.phases id next v) ≡ true
            → P v
        unfolding next
        extend_ran P here there =
            update_at (λ v ph. ran ph ≡ true → P v) t.phases id next (λ _. here)
              (λ v ne h. there v ne (subst (λ f. ran (f v) ≡ true) r.phases h))

        keep_failure : s.failure ≢ none → t.failure ≢ none
        keep_failure h e = elim r.first [
          | inl same ↦ h (sym same ∙ e)
          | inr (m, empty, o, kept) ↦ h empty
        ]

        recorded_after :
            (v : ℕ) (message : String)
            → t.failure ≡ some (v, message)
            → Takes p v × (outcome v ≡ raised message)
        recorded_after v message e = elim r.first [
          | inl same ↦ inv.recorded v message (sym same ∙ e)
          | inr (m, empty, o, kept) ↦
              let pair : (id ≡ v) × (m ≡ message) = ground arith in
              (
                subst (Takes p) pair.0 body-Takes,
                subst (λ w. outcome w ≡ raised message) pair.0 (rw (← pair.1) o),
              )
        ]

        pub body-Inv : Inv nothing p workers outcome after_body
        unfolding after_body next
        body-Inv = record {
          counters =
              rw (r.remaining, r.ready_heap, r.phases)
                (move-Counters p inv.counters id next (ap is_blocked was) (ap is_queued was) refl
                  refl (λ v _. rw was refl) next-Within);
          liveness =
              rw (r.consumers_left, r.phases)
                (move-Liveness p inv.liveness id next (λ u h. rw was (free_next u h)));
          width_failed = r.width_failed ∙ inv.width_failed;
          width_results = r.width_results ∙ inv.width_results;
          flags =
              extend_ran (λ v. Flagged nothing p t.cancelled t.failed outcome v)
                (rw r.cancelled r.flag)
                (λ v ne h.
                  let old = inv.flags v h in
                  record {
                    clear = λ e. old.clear (sym (r.other_flags v ne) ∙ e);
                    marked = λ e. rw r.cancelled (old.marked (sym (r.other_flags v ne) ∙ e));
                  });
          slots =
              extend_ran
                (λ v.
                  Holds nothing p t.failed t.results outcome v
                  ⊎ Freed nothing p workers outcome after_body v)
                (inl r.slot)
                (λ v ne h.
                  rw (r.other_slots v ne, r.other_flags v ne, r.consumers_left) (inv.slots v h));
          fresh =
              update_at (λ v ph. ran ph ≡ false → get_or t.failed v false ≡ false) t.phases id next
                (λ h. cc)
                (λ v ne h.
                  r.other_flags v ne ∙ inv.fresh v (subst (λ f. ran (f v) ≡ false) r.phases h));
          done =
              rw (r.completed, r.phases)
                (ground (
                  arith,
                  inv.done,
                  tallied-update (n nothing p workers outcome) is_finished s.phases id next
                      body-Takes.0,
                  ap is_finished was,
                ));
          staff =
              rw (r.idle, r.phases)
                (ground (
                  arith,
                  inv.staff,
                  tallied-update (n nothing p workers outcome) is_busy s.phases id next
                      body-Takes.0,
                  ap is_busy was,
                ));
          recorded = recorded_after;
          unrecorded =
              extend_ran
                (λ v.
                  get_or t.failed v false ≡ true
                  → (t.cancelled ≡ true) ⊎ ((outcome v ≡ skipped) ⊎ (t.failure ≢ none)))
                (λ e. rw r.cancelled (r.reported e))
                (λ v ne h e.
                  rw r.cancelled (keep_reason (inv.unrecorded v h (sym (r.other_flags v ne) ∙ e))));
        }
          where
            keep_reason :
                {v : ℕ}
                → (s.cancelled ≡ true) ⊎ ((outcome v ≡ skipped) ⊎ (s.failure ≢ none))
                → (s.cancelled ≡ true) ⊎ ((outcome v ≡ skipped) ⊎ (t.failure ≢ none))
            keep_reason (inl a) = inl a
            keep_reason (inr (inl b)) = inr (inl b)
            keep_reason (inr (inr c)) = inr (inr (keep_failure c))
