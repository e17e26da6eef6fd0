-- ===== src/Graph/Executor/Preserve/Release.antt =====
-- The step that frees a dependency's slot keeps the invariant.
use xsigma.Common.{
  ℕ, ◌+◌, ◌-◌, ◌^◌, ◌≤◌, ◌<◌, ◌≡◌, ◌≢◌, refl, sym, ap, ◌∙◌, subst, true, false, ◌&&◌, ◌⊎◌, inl, inr,
  Option, none, List, ◌∷◌, arith, Bool-cases, ◌==◌, if◌then◌else◌, length, get_or, set, length-set,
  get_or-set, count,
}
use xsigma.Graph.Dependency.{to_u32, dependency_range}
use xsigma.Graph.Executor.Step.{Plan, Phase, freeing, Run, update, release_slot}
use xsigma.Graph.Executor.Counters.{Takes, Counters, Within, is_queued, is_blocked, move-Counters}
use xsigma.Graph.Executor.Liveness.{frees, move-Liveness, unread_pos, release-Liveness}
use xsigma.Graph.Executor.Dataflow.{Outcome, IsSolution, Holds}
use xsigma.Graph.Executor.Invariant.{
  ran, is_finished, is_busy, tallied, tallied-update, IsRunnable, Inv, Freed, n,
}
use xsigma.Graph.Executor.Preserve.{shift-Inv, same_ran, Takes-of}

module _ {V : Type 0} {nothing : V} {p : Plan V} {workers : ℕ} {outcome : ℕ → Outcome V} where
  module _ (runnable : IsRunnable p) (solution : IsSolution nothing p outcome) (s : Run V)
      (inv : Inv nothing p workers outcome s) where
    -- One round of the liveness loop.
    module _ (id d : ℕ) (ds : List ℕ) (was : s.phases id ≡ freeing (d ∷ ds)) where
      reader : Takes p id
      reader = Takes-of runnable solution s inv id (ap is_blocked was)

      within_freeing : (v : ℕ) → count v (d ∷ ds) ≤ count v (dependency_range p.graph id)
      within_freeing = subst (λ ph. Within p ph id) was (inv.counters.within id)

      d-lt : d < n nothing p workers outcome
      unfolding count
      d-lt = (runnable.frozen.below d id (ground (arith, within_freeing d))).0

      after_release : ℕ → Phase
      after_release = update s.phases id (freeing ds)

      release-Counters : Counters p s.remaining s.ready_heap after_release
      unfolding count after_release
      release-Counters =
          move-Counters p inv.counters id (freeing ds) (ap is_blocked was) (ap is_queued was) refl
            refl (λ v _. rw was refl) (λ v. ground (arith, within_freeing v))

      release-ran : (v : ℕ) → ran (after_release v) ≡ ran (s.phases v)
      unfolding after_release
      release-ran = same_ran runnable solution s inv id (freeing ds) (sym (ap ran was))

      release-done : s.completed ≡ tallied (n nothing p workers outcome) is_finished after_release
      unfolding after_release
      release-done = ground (
        arith,
        inv.done,
        tallied-update (n nothing p workers outcome) is_finished s.phases id (freeing ds) reader.0,
        ap is_finished was,
      )

      release-staff : s.idle + tallied (n nothing p workers outcome) is_busy after_release ≡ workers
      unfolding after_release
      release-staff = ground (
        arith,
        inv.staff,
        tallied-update (n nothing p workers outcome) is_busy s.phases id (freeing ds) reader.0,
        ap is_busy was,
      )

      keep_slot :
          frees p d ≡ false → Inv nothing p workers outcome (record s { phases = after_release })
      unfolding count after_release
      keep_slot held =
          shift-Inv runnable solution s inv s.remaining s.ready_heap s.completed s.idle
            after_release release-ran release-Counters
            (move-Liveness p inv.liveness id (freeing ds)
              (λ u h. rw was (ground (arith, differs u h))))
            release-done release-staff
        where
          differs : (u : ℕ) → frees p u ≡ true → u ≢ d
          differs u h e = cc (ap (frees p) e)

      module _ (free : frees p d ≡ true) where
        counter : ℕ
        counter = get_or s.consumers_left d 0

        counters_after : List ℕ
        counters_after = set s.consumers_left d (to_u32 (counter + 2 ^ 32 - 1))

        slots_after : List (Option V)
        slots_after = if counter == 1 then set s.results d none else s.results

        counter_lt : 0 < counter
        unfolding counter count
        counter_lt = unread_pos p inv.liveness d id d-lt free reader (rw was (ground arith))

        counter_after :
            (u : ℕ)
            → get_or counters_after u 0 + (if u == d then 1 else 0) ≡ get_or s.consumers_left u 0
        unfolding counters_after counter
        counter_after u = ground (
          arith,
          get_or-set s.consumers_left d u (to_u32 (counter + 2 ^ 32 - 1)) 0,
          counter_lt,
          inv.liveness.small d,
          inv.liveness.sized d d-lt free,
        )

        slot_kept :
            (v : ℕ)
            → ((v == d) && (counter == 1)) ≡ false
            → get_or slots_after v none ≡ get_or s.results v none
        unfolding slots_after
        slot_kept v h = ground (arith, get_or-set s.results d v none none)

        width_slots : length slots_after ≡ length s.results
        unfolding slots_after
        width_slots = ground (arith, length-set s.results d none)

        after : Run V
        after = record s {
          consumers_left = counters_after;
          results = slots_after;
          phases = after_release;
        }

        slot_after :
            (v : ℕ)
            → Holds nothing p s.failed s.results outcome v ⊎ Freed nothing p workers outcome s v
            → Holds nothing p s.failed slots_after outcome v
              ⊎ Freed nothing p workers outcome after v
        unfolding after counter
        slot_after v (inr (f, zero_left)) = inr (f, ground (arith, counter_after v, counter_lt))
        slot_after v (inl full) = elim (Bool-cases ((v == d) && (counter == 1))) [
          | inl gone ↦ inr (gone_free gone, ground (arith, counter_after v))
          | inr here ↦ inl (slot_kept v here ∙ full)
        ]
          where
            gone_free : ((v == d) && (counter == 1)) ≡ true → frees p v ≡ true
            gone_free g =
                let same : v ≡ d = ground arith in subst (λ w. frees p w ≡ true) (sym same) free

        freed-slot : Inv nothing p workers outcome after
        unfolding after counters_after counter after_release
        freed-slot = record {
          counters = release-Counters;
          liveness = release-Liveness p inv.liveness id d ds reader d-lt was free;
          width_failed = inv.width_failed;
          width_results = width_slots ∙ inv.width_results;
          flags = λ v r. inv.flags v (sym (release-ran v) ∙ r);
          slots = λ v r. slot_after v (inv.slots v (sym (release-ran v) ∙ r));
          fresh = λ v r. inv.fresh v (sym (release-ran v) ∙ r);
          done = release-done;
          staff = release-staff;
          recorded = inv.recorded;
          unrecorded = λ v r. inv.unrecorded v (sym (release-ran v) ∙ r);
        }

      pub release-Inv : Inv nothing p workers outcome (record (release_slot nothing p s d) {
        phases = update (release_slot nothing p s d).phases id (freeing ds);
      })
      unfolding release_slot after_release after counters_after slots_after counter
      release-Inv = elim (Bool-cases (frees p d)) [
        | inl free ↦ rw free (freed-slot free)
        | inr held ↦ rw held (keep_slot held)
      ]
