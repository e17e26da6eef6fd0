-- ===== src/Memory/Allocator/Valid/Recording.antt =====
-- `insert_events` leads from valid states to valid states.
use xsigma.Common.{
  ℕ, ◌+◌, ◌≡◌, ◌≢◌, inl, inr, refl, sym, ap, ◌∙◌, subst, Bool, true, false, some, List, [], ◌∷◌,
  ◌++◌, ◌==◌, arith, Bool-cases, Option-cases, count, count-append, to_nat,
}
use xsigma.Memory.Allocator.{
  CacheBlock, write, Impl, pool_of, QueuedEvent, EventQueue, Outcome, done, threw, faulted,
  cuda_error, double_free,
}
use xsigma.Memory.Allocator.Merge.{is_idle}
use xsigma.Memory.Allocator.Events.{
  Runtime, last_event, acquire_event, enqueue, count_up, queue_events, recover, insert_events,
}
use xsigma.Memory.Allocator.Usage.{use_of, events_of}
use xsigma.Memory.Allocator.Shape.{Keeps}
use xsigma.Memory.Allocator.Shape.Absorb.{write_same}
use xsigma.Memory.Allocator.Shape.Retag.{SamePlace, retag-Keeps}
use xsigma.Memory.Allocator.Valid.{IsValid, live-Keeps}
use xsigma.Memory.Allocator.Valid.Freeing.{free_block-IsValid}
use xsigma.Memory.Allocator.Valid.Usages.{Reuses, Reuses-IsValid}
use xsigma.Memory.Allocator.Valid.Draining.{Serves}
use xsigma.Memory.Allocator.Valid.Queues.{blocks_of, queued, Sound, Serves-refl, Serves-trans}

blocks_of-append :
    (i : ℕ) (xs : List QueuedEvent) (q : QueuedEvent)
    → count i (blocks_of (xs ++ q ∷ [])) ≡ count i (blocks_of xs) + to_nat (i == q.block)
unfolding count
blocks_of-append i [] q = omega arith
blocks_of-append i (x ∷ xs) q = omega (arith, blocks_of-append i xs q)

count-enqueue :
    (i : ℕ) (es : List EventQueue) (stream : ℕ) (q : QueuedEvent)
    → count i (queued (enqueue es stream q)) ≡ count i (queued es) + to_nat (i == q.block)
unfolding count enqueue
count-enqueue i [] stream q = omega arith
count-enqueue i (e ∷ es) stream q = elim (Bool-cases (e.stream == stream)) [
  | inl here ↦ rw here (
      omega (
        arith,
        count-append i (blocks_of (e.queue ++ q ∷ [])) (queued es),
        count-append i (blocks_of e.queue) (queued es),
        blocks_of-append i e.queue q,
      ))
  | inr other ↦ rw other (
      omega (
        arith,
        count-append i (blocks_of e.queue) (queued (enqueue es stream q)),
        count-append i (blocks_of e.queue) (queued es),
        count-enqueue i es stream q,
      ))
]

-- A valid state with a released block that is in no pool.
pub record Loaded (s : Impl) (id : ℕ) : Type 0 where
  pub valid : IsValid s (queued s.cuda_events)
  pub block : CacheBlock
  pub at : s.heap id ≡ some block
  pub released : block.allocated ≡ false
  pub no_uses : block.stream_uses ≡ []
  pub absent : (small : Bool) → count id (pool_of s small) ≡ 0

abbrev counted_up : CacheBlock → CacheBlock
counted_up b = record b { event_count = b.event_count + 1 }

-- The state behind one round of the loop.
abbrev event_added : Impl → ℕ → CacheBlock → ℕ → ℕ → Impl
event_added s id b stream event = record s {
  heap = write s.heap id (some (counted_up b));
  cuda_events = enqueue s.cuda_events stream (record { event = event; block = id });
}

event_added-Keeps :
    (s : Impl) (id stream event : ℕ) (l : Loaded s id)
    → Keeps s.heap (event_added s id l.block stream event).heap
event_added-Keeps s id stream event l =
    retag-Keeps l.valid.shape id l.block (counted_up l.block) l.at same l.released
  where
    same : SamePlace (counted_up l.block) l.block
    same = record {
      ptr = refl;
      size = refl;
      prev = refl;
      next = refl;
      is_small = refl;
      stream = refl;
      segment_base = refl;
    }

event_added-Loaded :
    (s : Impl) (id stream event : ℕ) (l : Loaded s id)
    → Loaded (event_added s id l.block stream event) id
event_added-Loaded s id stream event l = record {
  valid =
      Reuses-IsValid s t id l.block (counted_up l.block) (queued s.cuda_events)
        (queued t.cuda_events) l.valid reuses;
  block = counted_up l.block;
  at = write_same s.heap id (some (counted_up l.block));
  released = l.released;
  no_uses = l.no_uses;
  absent = l.absent;
}
  where
    t : Impl
    t = event_added s id l.block stream event

    grows :
        (i : ℕ) → count i (queued t.cuda_events) ≡ count i (queued s.cuda_events) + to_nat (i == id)
    grows i = count-enqueue i s.cuda_events stream (record { event = event; block = id })

    waiting : count id (queued s.cuda_events) ≡ l.block.event_count
    waiting = l.valid.awaited id ∙ ap (λ x. events_of (use_of x)) l.at

    reuses :
        Reuses s t id l.block (counted_up l.block) (queued s.cuda_events) (queued t.cuda_events)
    reuses = record {
      at = l.at;
      place = record {
        ptr = refl;
        size = refl;
        prev = refl;
        next = refl;
        is_small = refl;
        stream = refl;
        segment_base = refl;
      };
      heap = refl;
      next_block = refl;
      pools = λ small. refl;
      pooled = λ small. omega (arith, l.absent small);
      others = λ i ne. ground (arith, grows i, ne);
      awaited = ground (arith, grows id, waiting);
      settled = ((λ on. absurd (ground (arith, on, l.released))), (λ off. l.no_uses));
      live =
          live-Keeps s.heap t.heap s.allocated_blocks (event_added-Keeps s id stream event l)
            l.valid.live;
      single = l.valid.single;
    }

-- How the loop ends.
abbrev LoopSound : {A : Type 0} → Impl → ℕ → Outcome A → Type 0
LoopSound s id (done a t) = Loaded t id × Serves s t
LoopSound s id (threw e t) = Loaded t id × Serves s t × (e ≡ cuda_error)
LoopSound s id faulted = ⊥

with_events-Loaded :
    (s : Impl) (id : ℕ) (events : List ℕ)
    → Loaded s id
    → Loaded (record s { event_pool = events }) id
with_events-Loaded s id events l = record {
  valid = record {
    shape = l.valid.shape;
    pooled = l.valid.pooled;
    awaited = l.valid.awaited;
    settled = l.valid.settled;
    live = l.valid.live;
    single = l.valid.single;
  };
  block = l.block;
  at = l.at;
  released = l.released;
  no_uses = l.no_uses;
  absent = l.absent;
}

acquire_event-LoopSound :
    (runtime : Runtime) (s : Impl) (id : ℕ) → Loaded s id → LoopSound s id (acquire_event runtime s)
unfolding acquire_event
acquire_event-LoopSound runtime s id l = elim (Option-cases (last_event s.event_pool)) [
  | inr ((event, front), e) ↦
      rw (acquire_event, e)
        (
          with_events-Loaded s id front l,
          record { same_live = refl; keeps = (Serves-refl s).keeps },
        )
  | inl e ↦ elim (Option-cases (runtime.new_event s)) [
    | inl none_made ↦ rw (acquire_event, e, none_made) (l, Serves-refl s, refl)
    | inr (event, made) ↦ rw (acquire_event, e, made) (l, Serves-refl s)
  ]
]

LoopSound-after :
    {A : Type 0} (s t : Impl) (id : ℕ) (o : Outcome A)
    → Serves s t
    → LoopSound t id o
    → LoopSound s id o
LoopSound-after s t id (done a u) serves (l, more) = (l, Serves-trans s t u serves more)
LoopSound-after s t id (threw e u) serves (l, more, same) =
    (l, Serves-trans s t u serves more, same)
LoopSound-after s t id faulted serves wrong = wrong

queue_events-LoopSound :
    (runtime : Runtime) (id : ℕ) (streams : List ℕ) (s : Impl)
    → Loaded s id
    → LoopSound s id (queue_events runtime id streams s)
unfolding queue_events
queue_events-LoopSound runtime id [] s l = (l, Serves-refl s)
queue_events-LoopSound runtime id (stream ∷ streams) s l =
    go (acquire_event runtime s) refl (acquire_event-LoopSound runtime s id l)
      (queue_events-LoopSound runtime id streams)
  where
    next_round :
        (event : ℕ) (t : Impl)
        → Loaded t id
        → Serves s t
        → ((u : Impl) → Loaded u id → LoopSound u id (queue_events runtime id streams u))
        → LoopSound s id (
            queue_events runtime id streams (
              count_up
                (record t {
                  cuda_events = enqueue t.cuda_events stream (record { event = event; block = id });
                })
                id))
    next_round event t m serves rest =
        let u = event_added t id m.block stream event in
        rw (m.at) (
          LoopSound-after s u id (queue_events runtime id streams u)
            (Serves-trans s t u serves
              (record { same_live = refl; keeps = event_added-Keeps t id stream event m }))
            (rest u (event_added-Loaded t id stream event m)))

    go :
        (o : Outcome ℕ)
        → acquire_event runtime s ≡ o
        → LoopSound s id o
        → ((u : Impl) → Loaded u id → LoopSound u id (queue_events runtime id streams u))
        → LoopSound s id (queue_events runtime id (stream ∷ streams) s)
    go (done event t) e (m, serves) rest = elim (Bool-cases (runtime.records event stream)) [
      | inl recorded ↦ rw (queue_events, e, recorded) (next_round event t m serves rest)
      | inr refused ↦ rw (queue_events, e, refused) (m, serves, refl)
    ]
    go (threw x t) e sound rest = rw (queue_events, e) sound
    go faulted e sound rest = absurd sound

-- A block whose events could not all be queued returns to its pool at once if none was.
recover-Sound :
    (s : Impl) (id : ℕ) (o : Outcome (Unit {0})) → LoopSound s id o → Sound s (recover id o)
recover-Sound s id (done u t) (l, serves) = (l.valid, serves)
recover-Sound s id faulted wrong = wrong
recover-Sound s id (threw e t) (l, serves, same) = elim (Bool-cases (l.block.event_count == 0)) [
  | inr some_events ↦ rw (l.at, some_events) (l.valid, serves, not_free)
  | inl none_queued ↦
      let idle : is_idle l.block ≡ true =
        rw (l.released, l.no_uses) (ground (arith, none_queued)) in
      let (u, freed, valid_u, same_live, same_events, keeps) =
        free_block-IsValid t id l.block (queued t.cuda_events) l.valid l.at idle l.absent in
      rw (l.at, none_queued, freed)
        (
          subst (λ es. IsValid u (queued es)) (sym same_events) valid_u,
          Serves-trans s t u serves (record { same_live = same_live; keeps = keeps }),
          not_free,
        )
]
  where
    not_free : e ≢ double_free
    not_free f = absurd (cuda_is_not (sym same ∙ f))
      where
        cuda_is_not : cuda_error ≡ double_free → ⊥
        cuda_is_not q = cc

pub insert_events-Sound :
    (runtime : Runtime) (s t : Impl) (id : ℕ) (c : CacheBlock)
    → s.heap id ≡ some c
    → t ≡ record s { heap = write s.heap id (some (record c { stream_uses = [] })) }
    → Loaded t id
    → runtime.selects s ≡ true
    → Sound t (insert_events runtime s id)
unfolding insert_events
insert_events-Sound runtime s t id c at same l selected =
    rw (insert_events, selected, at)
      (subst (λ x. Sound t (recover id (queue_events runtime id c.stream_uses x))) same
        (recover-Sound t id (queue_events runtime id c.stream_uses t)
          (queue_events-LoopSound runtime id c.stream_uses t l)))
