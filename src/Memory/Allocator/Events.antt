-- ===== src/Memory/Allocator/Events.antt =====
-- The events of Library/Memory/gpu/cuda_caching_allocator.cpp, which delay the reuse of a block until the work
-- of other streams on it has finished. What the CUDA runtime answers is a parameter.
use xsigma.Common.{
  ℕ, ◌+◌, ◌-◌, Bool, true, false, Option, none, some, List, [], ◌∷◌, ◌++◌, ◌==◌, ltb, if◌then◌else◌,
  to_u64,
}
use xsigma.Memory.Allocator.{
  write, Impl, QueuedEvent, EventQueue, Outcome, done, threw, faulted, AllocatorError, cuda_error,
  and_then, or_fault,
}
use xsigma.Memory.Allocator.Merge.{free_block}

pub data EventStatus : Type 0 where
  success not_ready failed : EventStatus

-- The answers of the runtime during one operation. `selects` is the constructor of `device_guard` in a state:
-- whether `cudaGetDevice` and `cudaSetDevice` succeed there.
pub record Runtime : Type 0 where
  pub selects : Impl → Bool
  pub query : ℕ → EventStatus
  pub synchronizes : ℕ → Bool
  pub new_event : Impl → Option ℕ
  pub records : ℕ → ℕ → Bool

-- `stream_uses.insert(stream)`, a `std::set`.
unfoldable pub insert_stream : ℕ → List ℕ → List ℕ
insert_stream stream [] = stream ∷ []
insert_stream stream (t ∷ ts) =
    if stream == t
    then t ∷ ts
    else if ltb stream t
    then stream ∷ t ∷ ts
    else t ∷ insert_stream stream ts

-- `acquire_event_locked`: the last event of the pool, or a new one.
unfoldable pub last_event : List ℕ → Option (ℕ × List ℕ)
last_event [] = none
last_event (e ∷ es) = elim (last_event es) [
  | none ↦ some (e, [])
  | some (event, front) ↦ some (event, e ∷ front)
]

abbrev pub made_event : Impl → Option ℕ → Outcome ℕ
made_event s none = threw cuda_error s
made_event s (some event) = done event s

unfoldable pub acquire_event : Runtime → Impl → Outcome ℕ
unfolding last_event
acquire_event runtime s = elim (last_event s.event_pool) [
  | none ↦ made_event s (runtime.new_event s)
  | some (event, front) ↦ done event (record s { event_pool = front })
]

abbrev pub recycle_event : Impl → ℕ → Impl
recycle_event s event = record s { event_pool = s.event_pool ++ event ∷ [] }

-- `cuda_events_[stream].emplace_back(event, block)`
unfoldable pub enqueue : List EventQueue → ℕ → QueuedEvent → List EventQueue
enqueue [] stream q = record { stream = stream; queue = q ∷ [] } ∷ []
enqueue (e ∷ es) stream q =
    let rest = enqueue es stream q in
    if e.stream == stream then record e { queue = e.queue ++ q ∷ [] } ∷ es else e ∷ rest

abbrev pub count_up : Impl → ℕ → Impl
count_up s id = elim (s.heap id) [
  | none ↦ s
  | some b ↦ record s {
    heap = write s.heap id (some (record b { event_count = b.event_count + 1 }));
  }
]

-- The loop of `insert_events_locked`.
unfoldable pub queue_events : Runtime → ℕ → List ℕ → Impl → Outcome (Unit {0})
unfolding acquire_event enqueue
queue_events runtime id [] s = done tt s
queue_events runtime id (stream ∷ streams) s = and_then (acquire_event runtime s) λ event t.
    if runtime.records event stream
    then queue_events runtime id streams (
        count_up
          (record t {
            cuda_events = enqueue t.cuda_events stream (record { event = event; block = id });
          })
          id)
    else threw cuda_error t

abbrev pub rethrow : AllocatorError → Option Impl → Outcome (Unit {0})
rethrow e none = faulted
rethrow e (some s) = threw e s

-- The handler of `insert_events_locked`: a block with no event queued returns to its pool at once.
abbrev pub recover : ℕ → Outcome (Unit {0}) → Outcome (Unit {0})
recover id (done u s) = done u s
recover id faulted = faulted
recover id (threw e s) = elim (s.heap id) [
  | none ↦ faulted
  | some b ↦ if b.event_count == 0 then rethrow e (free_block s id) else threw e s
]

-- The device is selected first, outside the `try`: an error there leaves the block as it is.
unfoldable pub insert_events : Runtime → Impl → ℕ → Outcome (Unit {0})
unfolding queue_events
insert_events runtime s id =
    if runtime.selects s
    then (elim (s.heap id) [
      | none ↦ faulted
      | some b ↦ recover id (
          queue_events runtime id b.stream_uses
            (record s { heap = write s.heap id (some (record b { stream_uses = [] })) }))
    ])
    else threw cuda_error s

-- `block->event_count--`, and the block is freed with its last event. A count of 0, which would become -1,
-- stays 0, and does not count as the last event.
unfoldable pub complete_event : Impl → ℕ → Option Impl
complete_event s id = elim (s.heap id) [
  | none ↦ none
  | some b ↦
      let t = record s {
        heap = write s.heap id (some (record b { event_count = b.event_count - 1 }));
      } in
      if b.event_count == 1 then free_block t id else some t
]

-- The inner loop of `process_events_locked`, on one queue: what is left of it.
unfoldable pub drain_queue : Runtime → List QueuedEvent → Impl → Outcome (List QueuedEvent)
unfolding complete_event
drain_queue runtime [] s = done [] s
drain_queue runtime (q ∷ qs) s = elim (runtime.query q.event) [
  | success ↦
      and_then (or_fault (complete_event (recycle_event s q.event) q.block))
        λ _ t. drain_queue runtime qs t
  | not_ready ↦ done (q ∷ qs) s
  | failed ↦ done (q ∷ qs) s
]

-- The first event that is left has failed: the loop threw.
abbrev pub stopped_by : Runtime → List QueuedEvent → Bool
stopped_by runtime [] = false
stopped_by runtime (q ∷ qs) = elim (runtime.query q.event) [
  | success ↦ false
  | not_ready ↦ false
  | failed ↦ true
]

abbrev pub keep_queue : EventQueue → List QueuedEvent → List EventQueue → List EventQueue
keep_queue e [] es = es
keep_queue e (q ∷ qs) es = record e { queue = q ∷ qs } ∷ es

-- The outer loop. The queues of the streams are drained independently; an empty one is erased. An
-- error keeps this queue's rest and the queues after it.
unfoldable pub drain_queues : Runtime → List EventQueue → Impl → Outcome (Bool × List EventQueue)
unfolding drain_queue
drain_queues runtime [] s = done (false, []) s
drain_queues runtime (e ∷ es) s = and_then (drain_queue runtime e.queue s) λ left t.
    if stopped_by runtime left
    then done (true, record e { queue = left } ∷ es) t
    else and_then (drain_queues runtime es t)
        λ (stop, rest) u. done (stop, keep_queue e left rest) u

abbrev pub poll_queues : Runtime → Impl → Outcome (Unit {0})
poll_queues runtime s = and_then (drain_queues runtime s.cuda_events s) λ (stop, left) t.
    if stop
    then threw cuda_error (record t { cuda_events = left })
    else done tt (record t { cuda_events = left })

abbrev pub no_queues : List EventQueue → Bool
no_queues [] = true
no_queues (e ∷ es) = false

-- `process_events_locked` selects the device unless there is nothing to poll.
unfoldable pub process_events : Runtime → Impl → Outcome (Unit {0})
unfolding drain_queues
process_events runtime s =
    if no_queues s.cuda_events
    then done tt s
    else if runtime.selects s
    then poll_queues runtime s
    else threw cuda_error s

-- The inner loop of `synchronize_and_free_events_locked`. An error leaves the whole queue in place,
-- with the events before it.
unfoldable pub finish_queue : Runtime → List QueuedEvent → Impl → Outcome (Unit {0})
unfolding complete_event
finish_queue runtime [] s = done tt s
finish_queue runtime (q ∷ qs) s =
    if runtime.synchronizes q.event
    then (and_then (or_fault (complete_event (recycle_event s q.event) q.block))
        λ _ t. finish_queue runtime qs t)
    else threw cuda_error s

unfoldable pub finish_queues : Runtime → List EventQueue → Impl → Outcome (Unit {0})
unfolding finish_queue
finish_queues runtime [] s = done tt (record s { cuda_events = [] })
finish_queues runtime (e ∷ es) s =
    and_then (finish_queue runtime e.queue (record s { cuda_events = e ∷ es }))
      λ _ t. finish_queues runtime es t

unfoldable pub synchronize_and_free_events : Runtime → Impl → Outcome (Unit {0})
unfolding finish_queues
synchronize_and_free_events runtime s =
    let t = record s {
      stats = record s.stats { num_sync_all_streams = to_u64 (s.stats.num_sync_all_streams + 1) };
    } in
    if runtime.selects t then finish_queues runtime t.cuda_events t else threw cuda_error t
