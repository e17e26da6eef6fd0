-- ===== src/Memory/Allocator/Valid/Queues.antt =====
-- `process_events` leads from valid states to valid states.
use xsigma.Common.{
  ℕ, ◌≡◌, ◌≢◌, inl, inr, refl, ◌∙◌, Bool, true, false, some, List, [], ◌∷◌, ◌++◌, arith, Bool-cases,
  count, count-append,
}
use xsigma.Memory.Allocator.{
  Impl, QueuedEvent, EventQueue, Outcome, done, threw, faulted, double_free,
}
use xsigma.Memory.Allocator.Events.{
  Runtime, EventStatus, success, not_ready, failed, complete_event, recycle_event, drain_queue,
  stopped_by, keep_queue, drain_queues, poll_queues, no_queues, process_events,
}
use xsigma.Memory.Allocator.Shape.Free.{Keeps-trans}
use xsigma.Memory.Allocator.Valid.{IsValid}
use xsigma.Memory.Allocator.Valid.Draining.{Serves, complete_event-IsValid}

-- The blocks of queued events.
abbrev pub blocks_of : List QueuedEvent → List ℕ
blocks_of [] = []
blocks_of (q ∷ qs) = q.block ∷ blocks_of qs

abbrev pub queued : List EventQueue → List ℕ
queued [] = []
queued (e ∷ es) = blocks_of e.queue ++ queued es

-- Only the number of events of a block counts.
pub recount-IsValid :
    (s : Impl) (before after : List ℕ)
    → ((i : ℕ) → count i after ≡ count i before)
    → IsValid s before
    → IsValid s after
recount-IsValid s before after same valid = record {
  shape = valid.shape;
  pooled = valid.pooled;
  awaited = λ i. same i ∙ valid.awaited i;
  settled = valid.settled;
  live = valid.live;
  single = valid.single;
}

recycle-IsValid :
    (s : Impl) (event : ℕ) (pending : List ℕ)
    → IsValid s pending
    → IsValid (recycle_event s event) pending
recycle-IsValid s event pending valid = record {
  shape = valid.shape;
  pooled = valid.pooled;
  awaited = valid.awaited;
  settled = valid.settled;
  live = valid.live;
  single = valid.single;
}

pub Serves-refl : (s : Impl) → Serves s s
Serves-refl s = record { same_live = refl; keeps = λ i b at live. (b, at, refl, refl, live) }

pub Serves-trans : (s t u : Impl) → Serves s t → Serves t u → Serves s u
Serves-trans s t u f g = record {
  same_live = g.same_live ∙ f.same_live;
  keeps = Keeps-trans s.heap t.heap u.heap f.keeps g.keeps;
}

-- What the inner loop comes to.
record Drained (runtime : Runtime) (qs : List QueuedEvent) (s : Impl) (rest : List ℕ) : Type 0 where
  left : List QueuedEvent
  state : Impl
  result : drain_queue runtime qs s ≡ done left state
  valid : IsValid state (blocks_of left ++ rest)
  serves : Serves s state

drain_queue-Drained :
    (runtime : Runtime) (qs : List QueuedEvent) (s : Impl) (rest : List ℕ)
    → IsValid s (blocks_of qs ++ rest)
    → Drained runtime qs s rest
unfolding drain_queue
drain_queue-Drained runtime [] s rest valid = record {
  left = [];
  state = s;
  result = refl;
  valid = valid;
  serves = Serves-refl s;
}
drain_queue-Drained runtime (q ∷ qs) s rest valid =
    let (t, e, valid_t, serves_t) =
      complete_event-IsValid (recycle_event s q.event) q.block (blocks_of qs ++ rest)
        (recycle-IsValid s q.event (q.block ∷ (blocks_of qs ++ rest)) valid) in
    go (runtime.query q.event) refl t e serves_t (drain_queue-Drained runtime qs t rest valid_t)
  where
    go :
        (x : EventStatus)
        → runtime.query q.event ≡ x
        → (t : Impl) → complete_event (recycle_event s q.event) q.block ≡ some t
        → Serves (recycle_event s q.event) t
        → Drained runtime qs t rest
        → Drained runtime (q ∷ qs) s rest
    go success e t c serves d = record {
      left = d.left;
      state = d.state;
      result = rw (drain_queue, e, c) d.result;
      valid = d.valid;
      serves =
          Serves-trans s t d.state (record { same_live = serves.same_live; keeps = serves.keeps })
            d.serves;
    }
    go not_ready e t c serves d = record {
      left = q ∷ qs;
      state = s;
      result = rw (drain_queue, e) refl;
      valid = valid;
      serves = Serves-refl s;
    }
    go failed e t c serves d = record {
      left = q ∷ qs;
      state = s;
      result = rw (drain_queue, e) refl;
      valid = valid;
      serves = Serves-refl s;
    }

record DrainedAll (runtime : Runtime) (es : List EventQueue) (s : Impl) (rest : List ℕ)
    : Type 0 where
  stop : Bool
  left : List EventQueue
  state : Impl
  result : drain_queues runtime es s ≡ done (stop, left) state
  valid : IsValid state (queued left ++ rest)
  serves : Serves s state

keep_queue-count :
    (i : ℕ) (e : EventQueue) (left : List QueuedEvent) (es : List EventQueue)
    → count i (queued (keep_queue e left es)) ≡ count i (blocks_of left ++ queued es)
keep_queue-count i e [] es = refl
keep_queue-count i e (q ∷ qs) es = refl

drain_queues-DrainedAll :
    (runtime : Runtime) (es : List EventQueue) (s : Impl) (rest : List ℕ)
    → IsValid s (queued es ++ rest)
    → DrainedAll runtime es s rest
unfolding drain_queues
drain_queues-DrainedAll runtime [] s rest valid = record {
  stop = false;
  left = [];
  state = s;
  result = refl;
  valid = valid;
  serves = Serves-refl s;
}
drain_queues-DrainedAll runtime (e ∷ es) s rest valid =
    let d = drain_queue-Drained runtime e.queue s (queued es ++ rest) (
      recount-IsValid s (queued (e ∷ es) ++ rest) (blocks_of e.queue ++ (queued es ++ rest))
        (λ i. omega (
          arith,
          count-append i (blocks_of e.queue) (queued es ++ rest),
          count-append i (queued es) rest,
          count-append i (queued (e ∷ es)) rest,
          count-append i (blocks_of e.queue) (queued es),
        ))
        valid) in
    let all = drain_queues-DrainedAll runtime es d.state (blocks_of d.left ++ rest) (
      recount-IsValid d.state (blocks_of d.left ++ (queued es ++ rest))
        (queued es ++ (blocks_of d.left ++ rest))
        (λ i. omega (
          arith,
          count-append i (blocks_of d.left) (queued es ++ rest),
          count-append i (queued es) rest,
          count-append i (queued es) (blocks_of d.left ++ rest),
          count-append i (blocks_of d.left) rest,
        ))
        d.valid) in
    elim (Bool-cases (stopped_by runtime d.left)) [
      | inl stop ↦ record {
        stop = true;
        left = record e { queue = d.left } ∷ es;
        state = d.state;
        result = rw (drain_queues, d.result, stop) refl;
        valid =
            recount-IsValid d.state (blocks_of d.left ++ (queued es ++ rest))
              ((blocks_of d.left ++ queued es) ++ rest)
              (λ i. omega (
                arith,
                count-append i (blocks_of d.left) (queued es ++ rest),
                count-append i (queued es) rest,
                count-append i (blocks_of d.left ++ queued es) rest,
                count-append i (blocks_of d.left) (queued es),
              ))
              d.valid;
        serves = d.serves;
      }
      | inr go_on ↦ record {
        stop = all.stop;
        left = keep_queue e d.left all.left;
        state = all.state;
        result = rw (drain_queues, d.result, go_on, all.result) refl;
        valid =
            recount-IsValid all.state (queued all.left ++ (blocks_of d.left ++ rest))
              (queued (keep_queue e d.left all.left) ++ rest)
              (λ i. omega (
                arith,
                count-append i (queued (keep_queue e d.left all.left)) rest,
                keep_queue-count i e d.left all.left,
                count-append i (blocks_of d.left) (queued all.left),
                count-append i (queued all.left) (blocks_of d.left ++ rest),
                count-append i (blocks_of d.left) rest,
              ))
              all.valid;
        serves = Serves-trans s d.state all.state d.serves all.serves;
      }
    ]

-- How an operation ends that keeps the live allocations: with a value or an error, and without a fault, in a
-- valid state with the events that are queued there.
abbrev pub Sound : {A : Type 0} → Impl → Outcome A → Type 0
Sound s (done a t) = IsValid t (queued t.cuda_events) × Serves s t
Sound s (threw e t) = IsValid t (queued t.cuda_events) × Serves s t × (e ≢ double_free)
Sound s faulted = ⊥

with_queues-IsValid :
    (s : Impl) (es : List EventQueue)
    → IsValid s (queued es ++ [])
    → IsValid (record s { cuda_events = es }) (queued es)
unfolding count
with_queues-IsValid s es valid = record {
  shape = valid.shape;
  pooled = valid.pooled;
  awaited = λ i. omega (arith, count-append i (queued es) [], valid.awaited i);
  settled = valid.settled;
  live = valid.live;
  single = valid.single;
}

poll_queues-Sound :
    (runtime : Runtime) (s : Impl)
    → IsValid s (queued s.cuda_events)
    → Sound s (poll_queues runtime s)
unfolding count
poll_queues-Sound runtime s valid =
    let d = drain_queues-DrainedAll runtime s.cuda_events s [] (
      recount-IsValid s (queued s.cuda_events) (queued s.cuda_events ++ [])
        (λ i. omega (arith, count-append i (queued s.cuda_events) [])) valid) in
    let valid_t = with_queues-IsValid d.state d.left d.valid in
    let serves : Serves s (record d.state { cuda_events = d.left }) = record {
      same_live = d.serves.same_live;
      keeps = d.serves.keeps;
    } in
    elim (Bool-cases d.stop) [
      | inl stop ↦ rw (d.result, stop) (valid_t, serves, λ e. cc)
      | inr go_on ↦ rw (d.result, go_on) (valid_t, serves)
    ]

-- From a valid state, whatever the runtime answers about the device and the queued events, `process_events` ends without a
-- fault: in a valid state with the events that are left, and the same live allocations, each where it was, as
-- large as it was. That is so too when the runtime reports an error.
pub process_events-Sound :
    (runtime : Runtime) (s : Impl)
    → IsValid s (queued s.cuda_events)
    → Sound s (process_events runtime s)
unfolding process_events
process_events-Sound runtime s valid = elim (Bool-cases (no_queues s.cuda_events)) [
  | inl empty ↦ rw (process_events, empty) (valid, Serves-refl s)
  | inr some_queue ↦ elim (Bool-cases (runtime.selects s)) [
    | inl selected ↦ rw (process_events, some_queue, selected) (poll_queues-Sound runtime s valid)
    | inr refused ↦ rw (process_events, some_queue, refused) (valid, Serves-refl s, λ e. cc)
  ]
]
