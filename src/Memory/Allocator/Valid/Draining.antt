-- ===== src/Memory/Allocator/Valid/Draining.antt =====
-- Finished events lead from valid states to valid states.
use xsigma.Common.{
  ℕ, ◌-◌, ◌<◌, ◌≡◌, inl, inr, refl, ap, ◌∙◌, Bool, true, false, Option, none, some, List, [], ◌∷◌,
  ◌==◌, arith, Bool-cases, count,
}
use xsigma.Memory.Allocator.{CacheBlock, write, Impl, pool_of}
use xsigma.Memory.Allocator.Merge.{is_idle}
use xsigma.Memory.Allocator.Events.{complete_event}
use xsigma.Memory.Allocator.Usage.{use_of, places, events_of, Settled}
use xsigma.Memory.Allocator.Shape.{Keeps}
use xsigma.Memory.Allocator.Shape.Absorb.{write_same}
use xsigma.Memory.Allocator.Shape.Retag.{SamePlace, retag-Keeps}
use xsigma.Memory.Allocator.Shape.Free.{Keeps-trans}
use xsigma.Memory.Allocator.Valid.{IsValid, live-Keeps}
use xsigma.Memory.Allocator.Valid.Freeing.{free_block-IsValid}
use xsigma.Memory.Allocator.Valid.Usages.{Reuses, Reuses-IsValid, busy-absent}

-- What a step keeps of the live allocations.
pub record Serves (s t : Impl) : Type 0 where
  pub same_live : t.allocated_blocks ≡ s.allocated_blocks
  pub keeps : Keeps s.heap t.heap

abbrev pub counted_down : CacheBlock → CacheBlock
counted_down b = record b { event_count = b.event_count - 1 }

-- The block of a queued event.
record Waiting (s : Impl) (id : ℕ) (pending : List ℕ) : Type 0 where
  block : CacheBlock
  at : s.heap id ≡ some block
  some_events : 0 < block.event_count
  not_allocated : block.allocated ≡ false
  no_uses : block.stream_uses ≡ []
  left : count id pending ≡ block.event_count - 1

waiting : (s : Impl) (id : ℕ) (pending : List ℕ) → IsValid s (id ∷ pending) → Waiting s id pending
unfolding count
waiting s id pending valid = go (s.heap id) refl (valid.awaited id) (valid.settled id)
  where
    go :
        (x : Option CacheBlock)
        → s.heap id ≡ x
        → count id (id ∷ pending) ≡ events_of (use_of x)
        → Settled (use_of x)
        → Waiting s id pending
    go none e n settled = absurd (ground (arith, n))
    go (some b) e n (calm, quiet) =
        let some_events : 0 < b.event_count = ground (arith, n) in
        let free : b.allocated ≡ false = elim (Bool-cases b.allocated) [
          | inl on ↦ absurd (omega (arith, some_events, calm on))
          | inr off ↦ off
        ] in
        record {
          block = b;
          at = e;
          some_events = some_events;
          not_allocated = free;
          no_uses = quiet free;
          left = ground (arith, n);
        }

abbrev counted_state : Impl → ℕ → CacheBlock → Impl
counted_state s id b = record s { heap = write s.heap id (some (counted_down b)) }

counted-Keeps :
    (s : Impl) (id : ℕ) (pending : List ℕ)
    → IsValid s (id ∷ pending)
    → (w : Waiting s id pending) → Keeps s.heap (counted_state s id w.block).heap
counted-Keeps s id pending valid w =
    retag-Keeps valid.shape id w.block (counted_down w.block) w.at same w.not_allocated
  where
    same : SamePlace (counted_down w.block) w.block
    same = record {
      ptr = refl;
      size = refl;
      prev = refl;
      next = refl;
      is_small = refl;
      stream = refl;
      segment_base = refl;
    }

counted-Reuses :
    (s : Impl) (id : ℕ) (pending : List ℕ)
    → IsValid s (id ∷ pending)
    → (w : Waiting s id pending)
    → Reuses s (counted_state s id w.block) id w.block (counted_down w.block) (id ∷ pending) pending
unfolding count
counted-Reuses s id pending valid w = record {
  at = w.at;
  place = record {
    ptr = refl;
    size = refl;
    prev = refl;
    next = refl;
    is_small = refl;
    stream = refl;
    segment_base = refl;
  };
  heap = refl;
  next_block = refl;
  pools = λ small. refl;
  pooled = λ small. omega (arith, busy-absent s (id ∷ pending) id small valid (in_no_pool small));
  others = λ i ne. ground (arith, ne);
  awaited = w.left;
  settled = ((λ on. absurd (ground (arith, on, w.not_allocated))), (λ off. w.no_uses));
  live =
      live-Keeps s.heap (counted_state s id w.block).heap s.allocated_blocks
        (counted-Keeps s id pending valid w) valid.live;
  single = valid.single;
}
  where
    in_no_pool : (small : Bool) → places (use_of (s.heap id)) small ≡ 0
    in_no_pool small = ap (λ x. places (use_of x) small) w.at ∙ ground (arith, w.some_events)

-- In a valid state, the completion of a queued event ends without a fault in a valid state where that event is
-- not queued any more, with the same live allocations, each where it was, as large as it was.
pub complete_event-IsValid :
    (s : Impl) (id : ℕ) (pending : List ℕ)
    → IsValid s (id ∷ pending)
    → (t : Impl) × (complete_event s id ≡ some t) × IsValid t pending × Serves s t
unfolding complete_event
complete_event-IsValid s id pending valid =
    let w = waiting s id pending valid in
    let t = counted_state s id w.block in
    let valid_t =
      Reuses-IsValid s t id w.block (counted_down w.block) (id ∷ pending) pending valid
        (counted-Reuses s id pending valid w) in
    let keeps = counted-Keeps s id pending valid w in
    elim (Bool-cases (w.block.event_count == 1)) [
      | inr more ↦ (
        t,
        rw (complete_event, w.at, more) refl,
        valid_t,
        record { same_live = refl; keeps = keeps },
      )
      | inl last ↦
          let at_t : t.heap id ≡ some (counted_down w.block) =
            write_same s.heap id (some (counted_down w.block)) in
          let idle : is_idle (counted_down w.block) ≡ true =
            rw (w.not_allocated, w.no_uses) (ground (arith, last)) in
          let absent : (small : Bool) → count id (pool_of t small) ≡ 0 = λ small.
            busy-absent s (id ∷ pending) id small valid
              (ap (λ x. places (use_of x) small) w.at ∙ ground (arith, w.some_events)) in
          let (u, e, valid_u, same, _, keeps_u) =
            free_block-IsValid t id (counted_down w.block) pending valid_t at_t idle absent in
          (
            u,
            rw (complete_event, w.at, last) e,
            valid_u,
            record { same_live = same; keeps = Keeps-trans s.heap t.heap u.heap keeps keeps_u },
          )
    ]
