-- ===== src/Graph/Executor/Preserve.antt =====
-- The steps of a worker that run no body and free no slot keep the invariant of a run.
pub mod Body
pub mod Release
pub mod Steps
use xsigma.Common.{
  ℕ, zero, suc, ◌+◌, ◌-◌, ◌^◌, ◌≤◌, ◌<◌, ◌≡◌, ◌≢◌, refl, sym, ap, ◌∙◌, subst, String, Bool, true,
  false, not, ◌&&◌, ◌⊎◌, inl, inr, Option, none, some, List, [], ◌∷◌, ◌++◌, map, arith, dec_lt,
  ℕ_discrete, Bool-cases, List-cases, ==_iff, ltb, ◌==◌, if◌then◌else◌, length, get_or, set,
  length-set, get_or-set, count, to_nat,
}
use xsigma.Graph.Dependency.{
  IsFrozen, to_u32, node_count, successor_range, dependency_range, priority,
}
use xsigma.Graph.Executor.Step.{
  Plan, Phase, blocked, queued, body, finished, freeing, notifying, ReadyItem, Run, update, skips,
  is_empty, to_free, then_free, execute_body, release_slot, notify, advance, advance_at, Step, pop,
  work, cancel, take_item,
}
use xsigma.Graph.Executor.Counters.{
  Takes, Counters, Within, ids, ids-append, is_queued, is_blocked, update_at, update_self,
  move-Counters, pop-Counters, skip-Counters, pay-Counters, x_blocked, is_blocked_eq, x-lt,
  counter_pos,
}
use xsigma.Graph.Executor.Liveness.{
  Liveness, frees, unread, move-Liveness, unread_pos, release-Liveness,
}
use xsigma.Graph.Executor.Dataflow.{Outcome, raised, skipped, IsSolution, Flagged, Holds, AllShow}
use xsigma.Graph.Executor.Body.{Ran, execute_body-Ran}
use xsigma.Graph.Executor.Invariant.{
  ran, is_finished, is_busy, tallied, tallied-update, IsRunnable, Inv, Freed, n, takes, inputs_show,
}

module _ {V : Type 0} {nothing : V} {p : Plan V} {workers : ℕ} {outcome : ℕ → Outcome V} where
  module _ (runnable : IsRunnable p) (solution : IsSolution nothing p outcome) (s : Run V)
      (inv : Inv nothing p workers outcome s) where
    -- A step that runs no body and frees no slot.
    pub shift-Inv :
        (remaining : List ℕ) (ready : List ReadyItem) (completed idle : ℕ) (phases : ℕ → Phase)
        → ((v : ℕ) → ran (phases v) ≡ ran (s.phases v))
        → Counters p remaining ready phases
        → Liveness p s.consumers_left phases
        → completed ≡ tallied (n nothing p workers outcome) is_finished phases
        → idle + tallied (n nothing p workers outcome) is_busy phases ≡ workers
        → Inv nothing p workers outcome (record s {
          remaining = remaining;
          ready_heap = ready;
          completed = completed;
          idle = idle;
          phases = phases;
        })
    shift-Inv remaining ready completed idle phases same c l d w = record {
      counters = c;
      liveness = l;
      width_failed = inv.width_failed;
      width_results = inv.width_results;
      flags = λ v r. inv.flags v (sym (same v) ∙ r);
      slots = λ v r. inv.slots v (sym (same v) ∙ r);
      fresh = λ v r. inv.fresh v (sym (same v) ∙ r);
      done = d;
      staff = w;
      recorded = inv.recorded;
      unrecorded = λ v r. inv.unrecorded v (sym (same v) ∙ r);
    }

    pub same_ran :
        (id : ℕ) (next : Phase)
        → ran next ≡ ran (s.phases id)
        → (v : ℕ) → ran (update s.phases id next v) ≡ ran (s.phases v)
    same_ran id next e =
        update_at (λ v ph. ran ph ≡ ran (s.phases v)) s.phases id next e (λ v _. refl)

    pub Takes-of : (id : ℕ) → is_blocked (s.phases id) ≡ false → Takes p id
    Takes-of = takes nothing p workers outcome runnable s inv

    queued_top :
        (before after : List ReadyItem) (item : ReadyItem)
        → s.ready_heap ≡ before ++ item ∷ after
        → s.phases item.id ≡ queued
    unfolding count
    queued_top before after item e = queued_eq (s.phases item.id) (
        ground (
          arith,
          ap (λ items. count item.id (ids items)) e ∙ ids-append before (item ∷ after) item.id,
          inv.counters.listed item.id,
        ))
      where
        queued_eq : (ph : Phase) → is_queued ph ≡ true → ph ≡ queued
        queued_eq queued h = refl
        queued_eq _ h = cc

    pub pop-Inv :
        (before after : List ReadyItem) (item : ReadyItem)
        → 0 < s.idle
        → s.ready_heap ≡ before ++ item ∷ after
        → Inv nothing p workers outcome (take_item nothing p s before item after)
    pop-Inv before after item idle e =
        let was = queued_top before after item e in
        let t = Takes-of item.id (ap is_blocked was) in
        shift-Inv s.remaining (before ++ after) s.completed (s.idle - 1)
          (update s.phases item.id body) (same_ran item.id body (sym (ap ran was)))
          (pop-Counters p inv.counters before after item e)
          (move-Liveness p inv.liveness item.id body (λ u h. rw was refl))
          (ground (
            arith,
            inv.done,
            tallied-update (n nothing p workers outcome) is_finished s.phases item.id body t.0,
            ap is_finished was,
          ))
          (ground (
            arith,
            inv.staff,
            idle,
            tallied-update (n nothing p workers outcome) is_busy s.phases item.id body t.0,
            ap is_busy was,
          ))

    -- A worker goes on to its loop over the successors.
    pub freed-Inv :
        (id : ℕ)
        → s.phases id ≡ freeing []
        → Inv nothing p workers outcome
            (record s { phases = update s.phases id (notifying (successor_range p.graph id)) })
    unfolding count
    freed-Inv id was =
        let t = Takes-of id (ap is_blocked was) in
        let next = notifying (successor_range p.graph id) in
        shift-Inv s.remaining s.ready_heap s.completed s.idle (update s.phases id next)
          (same_ran id next (sym (ap ran was)))
          (move-Counters p inv.counters id next (ap is_blocked was) (ap is_queued was) refl refl
            (λ v _. rw was refl) (λ v. omega arith))
          (move-Liveness p inv.liveness id next (λ u h. rw was refl))
          (ground (
            arith,
            inv.done,
            tallied-update (n nothing p workers outcome) is_finished s.phases id next t.0,
            ap is_finished was,
          ))
          (ground (
            arith,
            inv.staff,
            tallied-update (n nothing p workers outcome) is_busy s.phases id next t.0,
            ap is_busy was,
          ))

    -- A worker has finished a node.
    pub finish-Inv :
        (id : ℕ)
        → s.phases id ≡ notifying []
        → Inv nothing p workers outcome (record s {
          completed = s.completed + 1;
          idle = s.idle + 1;
          phases = update s.phases id finished;
        })
    unfolding count
    finish-Inv id was =
        let t = Takes-of id (ap is_blocked was) in
        shift-Inv s.remaining s.ready_heap (s.completed + 1) (s.idle + 1)
          (update s.phases id finished) (same_ran id finished (sym (ap ran was)))
          (move-Counters p inv.counters id finished (ap is_blocked was) (ap is_queued was) refl refl
            (λ v _. rw was refl) tt)
          (move-Liveness p inv.liveness id finished (λ u h. rw was refl))
          (ground (
            arith,
            inv.done,
            tallied-update (n nothing p workers outcome) is_finished s.phases id finished t.0,
            ap is_finished was,
          ))
          (ground (
            arith,
            inv.staff,
            tallied-update (n nothing p workers outcome) is_busy s.phases id finished t.0,
            ap is_busy was,
          ))

    module _ (id x : ℕ) (xs : List ℕ) (was : s.phases id ≡ notifying (x ∷ xs)) where
      abbrev stepped : ℕ → Phase
      stepped = update s.phases id (notifying xs)

      id-Takes : Takes p id
      id-Takes = Takes-of id (ap is_blocked was)

      stepped-finished : s.completed ≡ tallied (n nothing p workers outcome) is_finished stepped
      stepped-finished = ground (
        arith,
        inv.done,
        tallied-update (n nothing p workers outcome) is_finished s.phases id (notifying xs)
            id-Takes.0,
        ap is_finished was,
      )

      stepped-busy : s.idle + tallied (n nothing p workers outcome) is_busy stepped ≡ workers
      stepped-busy = ground (
        arith,
        inv.staff,
        tallied-update (n nothing p workers outcome) is_busy s.phases id (notifying xs) id-Takes.0,
        ap is_busy was,
      )

      stepped-Liveness : Liveness p s.consumers_left stepped
      stepped-Liveness = move-Liveness p inv.liveness id (notifying xs) (λ u h. rw was refl)

      stepped-ran : (v : ℕ) → ran (stepped v) ≡ ran (s.phases v)
      stepped-ran = same_ran id (notifying xs) (sym (ap ran was))

      module _ (inside : skips p x ≡ false) where
        x-blocked : s.phases x ≡ blocked
        x-blocked =
            is_blocked_eq (s.phases x) (x_blocked p inv.counters runnable.frozen id x xs was inside)

        x-ne : x ≢ id
        x-ne e =
            cc (ap is_blocked was, ap is_blocked x-blocked, ap (λ v. is_blocked (s.phases v)) e)

        still_blocked : stepped x ≡ blocked
        still_blocked =
            update_at (λ v ph. v ≡ x → ph ≡ blocked) s.phases id (notifying xs)
              (λ e. absurd (x-ne (sym e))) (λ v _ e. rw e x-blocked) x refl

        fires :
            get_or s.remaining x 0 ≡ 1
            → Inv nothing p workers outcome (record s {
              remaining = set s.remaining x (to_u32 (get_or s.remaining x 0 + 2 ^ 32 - 1));
              ready_heap = record { rank = priority p.graph x; id = x } ∷ s.ready_heap;
              phases = update stepped x queued;
            })
        unfolding count
        fires one =
            let m = n nothing p workers outcome in
            shift-Inv (set s.remaining x (to_u32 (get_or s.remaining x 0 + 2 ^ 32 - 1)))
              (record { rank = priority p.graph x; id = x } ∷ s.ready_heap) s.completed s.idle
              (update stepped x queued)
              (update_at (λ v ph. ran ph ≡ ran (s.phases v)) stepped x queued
                (ap ran (sym x-blocked)) (λ v _. stepped-ran v))
              (pay-Counters p inv.counters runnable.frozen id x xs was inside _
                (update stepped x queued)
                (update_at (λ v ph. v ≡ id → ph ≡ notifying xs) stepped x queued
                  (λ e. absurd (x-ne e)) (λ v _ e. rw e (update_self s.phases (notifying xs) id)) id
                  refl)
                (rw one (update_self stepped queued x))
                (λ v ne ne'.
                  update_at (λ v ph. v ≢ id → v ≢ x → ph ≡ s.phases v) stepped x queued
                    (λ _ ne'. absurd (ne' refl))
                    (λ v _.
                      update_at (λ v ph. v ≢ id → v ≢ x → ph ≡ s.phases v) s.phases id
                        (notifying xs) (λ ne. absurd (ne refl)) (λ _ _ _ _. refl) v)
                    v ne ne')
                (λ v. rw one (ground arith)))
              (move-Liveness p stepped-Liveness x queued (λ u h. rw still_blocked refl))
              (ground (
                arith,
                stepped-finished,
                tallied-update m is_finished stepped x queued lt_of,
                ap is_finished still_blocked,
              ))
              (ground (
                arith,
                stepped-busy,
                tallied-update m is_busy stepped x queued lt_of,
                ap is_busy still_blocked,
              ))
          where
            lt_of : x < n nothing p workers outcome
            lt_of = x-lt p inv.counters runnable.frozen id x xs was

        waits_on :
            (get_or s.remaining x 0 == 1) ≡ false
            → Inv nothing p workers outcome (record s {
              remaining = set s.remaining x (to_u32 (get_or s.remaining x 0 + 2 ^ 32 - 1));
              phases = stepped;
            })
        unfolding count
        waits_on more =
            shift-Inv (set s.remaining x (to_u32 (get_or s.remaining x 0 + 2 ^ 32 - 1)))
              s.ready_heap s.completed s.idle stepped stepped-ran
              (pay-Counters p inv.counters runnable.frozen id x xs was inside s.ready_heap stepped
                (update_self s.phases (notifying xs) id) (rw more still_blocked)
                (update_at (λ v ph. v ≢ id → v ≢ x → ph ≡ s.phases v) s.phases id (notifying xs)
                  (λ ne. absurd (ne refl)) (λ _ _ _ _. refl))
                (λ v. rw more (ground arith)))
              stepped-Liveness stepped-finished stepped-busy

      -- One round of the loop over the successors.
      pub notify-Inv :
          Inv nothing p workers outcome (notify nothing p (record s { phases = stepped }) x)
      unfolding notify
      notify-Inv = elim (Bool-cases (skips p x)) [
        | inl out ↦ rw out (
            shift-Inv s.remaining s.ready_heap s.completed s.idle stepped stepped-ran
              (skip-Counters p inv.counters runnable.frozen id x xs was out) stepped-Liveness
              stepped-finished stepped-busy)
        | inr inside ↦ elim (Bool-cases (get_or s.remaining x 0 == 1)) [
          | inl one ↦ rw (inside, one) (fires inside ((==_iff _ 1).0 one))
          | inr more ↦ rw (inside, more) (waits_on inside more)
        ]
      ]
