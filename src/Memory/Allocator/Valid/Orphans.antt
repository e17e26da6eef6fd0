-- ===== src/Memory/Allocator/Valid/Orphans.antt =====
-- What a failed `device_guard` does to a block that `deallocate` of Library/Memory/gpu/cuda_caching_allocator.cpp
-- hands to `insert_events_locked`.
use xsigma.Common.{
  ℕ, ◌≡◌, ◌≢◌, refl, sym, ap, ◌∙◌, Bool, true, false, none, some, some_inj, List, [], ◌∷◌, ◌==◌,
  arith, count,
}
use xsigma.Memory.Allocator.{
  CacheBlock, Impl, pool_of, find_live, Outcome, done, threw, faulted, cuda_error,
}
use xsigma.Memory.Allocator.Merge.{is_nil}
use xsigma.Memory.Allocator.Events.{
  Runtime, no_queues, insert_stream, insert_events, process_events,
}
use xsigma.Memory.Allocator.Entry.{other_stream, noted, release_block, deallocate}
use xsigma.Memory.Allocator.Usage.{use_of, places}
use xsigma.Memory.Allocator.Shape.Absorb.{write_same}
use xsigma.Memory.Allocator.Valid.{IsValid}
use xsigma.Memory.Allocator.Valid.Deallocation.{unlisted, look_up}
use xsigma.Memory.Allocator.Valid.Queues.{queued}

-- The block `id` is not allocated any more, and nothing leads to it: not the live map, no pool and no queue.
abbrev pub Orphaned : ℕ → ℕ → Outcome (Unit {0}) → Type 0
Orphaned ptr id (done u t) = ⊥
Orphaned ptr id faulted = ⊥
Orphaned ptr id (threw e t) =
    (e ≡ cuda_error)
    × (find_live ptr t.allocated_blocks ≡ none)
    × ((small : Bool) → count id (pool_of t small) ≡ 0)
    × (count id (queued t.cuda_events) ≡ 0)
    × ((c : CacheBlock) × (t.heap id ≡ some c) × (c.allocated ≡ false))

insert_stream_some : (stream : ℕ) (ts : List ℕ) → is_nil (insert_stream stream ts) ≡ false
unfolding insert_stream
insert_stream_some stream [] = refl
insert_stream_some stream (t ∷ ts) = ground arith

noted_some :
    (stream : ℕ) (b : CacheBlock)
    → other_stream stream b ≡ true
    → is_nil (noted stream (record b { allocated = false })).stream_uses ≡ false
noted_some stream b other = rw other (insert_stream_some stream b.stream_uses)

noted_off :
    (stream : ℕ) (b : CacheBlock)
    → (noted stream (record b { allocated = false })).allocated ≡ false
noted_off stream b = ground arith

quiet_events :
    (runtime : Runtime) (s : Impl)
    → no_queues s.cuda_events ≡ true
    → process_events runtime s ≡ done tt s
unfolding process_events
quiet_events runtime s empty = rw (process_events, empty) refl

-- From a valid state with no events queued, `deallocate` of a live allocation on a stream other than its own throws
-- a CUDA error if the device cannot be selected, and leaves the block unallocated where no operation finds it any
-- more: its memory is lost.
pub deallocate-Orphaned :
    (runtime : Runtime) (s : Impl) (ptr stream id : ℕ) (b : CacheBlock)
    → IsValid s (queued s.cuda_events)
    → s.cuda_events ≡ []
    → ptr ≢ 0
    → find_live ptr s.allocated_blocks ≡ some id
    → s.heap id ≡ some b
    → other_stream stream b ≡ true
    → ((t : Impl) → runtime.selects t ≡ false)
    → Orphaned ptr id (deallocate runtime s ptr stream)
unfolding deallocate release_block insert_events count
deallocate-Orphaned runtime s ptr stream id b valid empty real found at other refuses =
    let not_null : (ptr == 0) ≡ false = ground (arith, real) in
    let lost : Orphaned ptr id (release_block runtime s ptr id b stream) =
      rw (release_block, noted_some stream b other)
        (rw
          (
            insert_events,
            refuses (unlisted s ptr id b (noted stream (record b { allocated = false }))),
          )
          (
            refl,
            valid.single ptr,
            absent,
            unqueued,
            (
              noted stream (record b { allocated = false }),
              write_same s.heap id (some (noted stream (record b { allocated = false }))),
              noted_off stream b,
            ),
          )) in
    let seen : Orphaned ptr id (look_up runtime ptr stream s) = rw (look_up, found, at, on) lost in
    rw (deallocate, not_null, quiet) seen
  where
    on : b.allocated ≡ true
    on =
        let (c, at_c, on_c, _) = valid.live ptr id found in
        ap (λ x. x.allocated) (some_inj (sym at ∙ at_c)) ∙ on_c

    quiet : process_events runtime s ≡ done tt s
    quiet = quiet_events runtime s (ap no_queues empty)

    unqueued : count id (queued s.cuda_events) ≡ 0
    unqueued = ap (λ es. count id (queued es)) empty

    absent : (small : Bool) → count id (pool_of s small) ≡ 0
    absent small =
        let full : places (use_of (some b)) small ≡ 0 = ground (arith, on) in
        omega (arith, valid.pooled small id, ap (λ x. places (use_of x) small) at, full)
