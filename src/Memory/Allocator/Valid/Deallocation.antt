-- ===== src/Memory/Allocator/Valid/Deallocation.antt =====
-- `deallocate` leads from valid states to valid states.
use xsigma.Common.{
  ℕ, ◌+◌, ◌≡◌, ◌≢◌, inl, inr, refl, sym, ap, ◌∙◌, subst, fun_ext, Bool, true, false, Option, none,
  some, some_inj, List, [], ◌∷◌, ◌==◌, arith, if◌then◌else◌, Bool-cases, Option-cases, ℕ_discrete,
  count, to_u64, sub64,
}
use xsigma.Memory.Allocator.{
  CacheBlock, Heap, write, Impl, LiveEntry, pool_of, find_live, erase_live, record_trace, Outcome,
  done, threw, faulted, AllocatorError, not_owned, double_free, and_then, or_fault,
}
use xsigma.Memory.History.{free_requested}
use xsigma.Memory.Allocator.Merge.{is_idle, is_nil, free_block}
use xsigma.Memory.Allocator.Events.{Runtime, process_events, insert_events}
use xsigma.Memory.Allocator.Release.{trim_cache}
use xsigma.Memory.Allocator.Entry.{noted, release_block, checked_release, deallocate}
use xsigma.Memory.Allocator.Usage.{use_of, places, events_of, Settled}
use xsigma.Memory.Allocator.Shape.Absorb.{none-some, write_same, write_other}
use xsigma.Memory.Allocator.Shape.Retag.{SamePlace}
use xsigma.Memory.Allocator.Valid.{IsValid}
use xsigma.Memory.Allocator.Valid.Freeing.{free_block-IsValid}
use xsigma.Memory.Allocator.Valid.Usages.{Reuses-IsValid}
use xsigma.Memory.Allocator.Valid.Draining.{Serves}
use xsigma.Memory.Allocator.Valid.Queues.{queued, Sound, Serves-trans, process_events-Sound}
use xsigma.Memory.Allocator.Valid.Trimming.{trim_cache-Follows}
use xsigma.Memory.Allocator.Valid.Recording.{Loaded, insert_events-Sound}

find-erase :
    (p q : ℕ) (es : List LiveEntry) → p ≢ q → find_live p (erase_live q es) ≡ find_live p es
unfolding find_live erase_live
find-erase p q [] ne = refl
find-erase p q (e ∷ es) ne = ground (arith, find-erase p q es ne)

none-erase :
    (p q : ℕ) (es : List LiveEntry) → find_live p es ≡ none → find_live p (erase_live q es) ≡ none
unfolding find_live erase_live
none-erase p q [] e = refl
none-erase p q (x ∷ es) e = ground (arith, none-erase p q es)

erase-single :
    (p q : ℕ) (es : List LiveEntry)
    → find_live p (erase_live p es) ≡ none
    → find_live p (erase_live p (erase_live q es)) ≡ none
unfolding find_live erase_live
erase-single p q [] e = refl
erase-single p q (x ∷ es) e =
    ground (arith, none-erase p q es, none-erase p p es, erase-single p q es)

-- The allocation at `ptr` has gone, and every other one is where it was.
pub record Released (s : Impl) (ptr : ℕ) (t : Impl) : Type 0 where
  pub gone : find_live ptr t.allocated_blocks ≡ none
  pub same_live :
      (p : ℕ) → p ≢ ptr → find_live p t.allocated_blocks ≡ find_live p s.allocated_blocks
  pub keeps :
      (i : ℕ) (b : CacheBlock)
      → s.heap i ≡ some b
      → b.allocated ≡ true
      → b.ptr ≢ ptr
      → (c : CacheBlock) × (t.heap i ≡ some c)
        × (c.ptr ≡ b.ptr)
        × (c.size ≡ b.size)
        × (c.allocated ≡ true)

-- How a call of `deallocate` ends: with the allocation released, or with an error that is no double free, in a
-- valid state either way, and without a fault.
pub data Landed (s : Impl) (ptr : ℕ) : Outcome (Unit {0}) → Type 0 where
  freed :
      (t : Impl) → IsValid t (queued t.cuda_events) → Released s ptr t → Landed s ptr (done tt t)
  refused :
      (e : AllocatorError) (t : Impl)
      → IsValid t (queued t.cuda_events)
      → e ≢ double_free
      → Landed s ptr (threw e t)

-- What `deallocate` stores in the block.
record Unused (b c : CacheBlock) : Type 0 where
  place : SamePlace c b
  off : c.allocated ≡ false
  same_events : c.event_count ≡ b.event_count

noted-Unused :
    (stream : ℕ) (b : CacheBlock) → Unused b (noted stream (record b { allocated = false }))
noted-Unused stream b = ground arith

write_twice :
    (h : Heap) (id : ℕ) (x y : Option CacheBlock) → write (write h id x) id y ≡ write h id y
write_twice h id x y =
    fun_ext
      (λ i. elim (Bool-cases (i == id)) [ inl here ↦ rw here refl | inr there ↦ rw there refl ])

-- A state in which the live block `b` has been released, and is `c` now.
module _ (s v : Impl) (ptr id : ℕ) (b c : CacheBlock) (valid : IsValid s (queued s.cuda_events))
    (found : find_live ptr s.allocated_blocks ≡ some id) (at : s.heap id ≡ some b)
    (on : b.allocated ≡ true) (starts : b.ptr ≡ ptr) (unused : Unused b c)
    (no_uses : c.stream_uses ≡ []) (heap : v.heap ≡ write s.heap id (some c))
    (next_block : v.next_block ≡ s.next_block)
    (pools : (small : Bool) → pool_of v small ≡ pool_of s small)
    (events : v.cuda_events ≡ s.cuda_events)
    (erased : v.allocated_blocks ≡ erase_live ptr s.allocated_blocks) where
  absent_before : (small : Bool) → count id (pool_of s small) ≡ 0
  absent_before small =
      let full : places (use_of (some b)) small ≡ 0 = ground (arith, on) in
      omega (arith, valid.pooled small id, ap (λ x. places (use_of x) small) at, full)

  no_events : c.event_count ≡ 0
  no_events =
      let (calm, _) = subst (λ x. Settled (use_of x)) at (valid.settled id) in
      unused.same_events ∙ calm on

  there : (i : ℕ) → i ≢ id → v.heap i ≡ s.heap i
  there i ne = ap (λ h. h i) heap ∙ write_other s.heap id (some c) i ne

  other_block : (i : ℕ) (x : CacheBlock) → s.heap i ≡ some x → x.ptr ≢ ptr → i ≢ id
  other_block i x at_x ne e =
      ne (ap (λ y. y.ptr) (some_inj (sym at_x ∙ (ap s.heap e ∙ at))) ∙ starts)

  gone_after : find_live ptr v.allocated_blocks ≡ none
  gone_after = subst (λ es. find_live ptr es ≡ none) (sym erased) (valid.single ptr)

  same_after : (p : ℕ) → p ≢ ptr → find_live p v.allocated_blocks ≡ find_live p s.allocated_blocks
  same_after p ne =
      subst (λ es. find_live p es ≡ find_live p s.allocated_blocks) (sym erased)
        (find-erase p ptr s.allocated_blocks ne)

  live_after :
      (p i : ℕ)
      → find_live p v.allocated_blocks ≡ some i
      → (x : CacheBlock) × (v.heap i ≡ some x) × (x.allocated ≡ true) × (x.ptr ≡ p)
  live_after p i f = elim (ℕ_discrete p ptr) [
    | yes same ↦
        absurd
          (none-some (sym gone_after ∙ (ap (λ q. find_live q v.allocated_blocks) (sym same) ∙ f)))
    | no other ↦
        let (x, at_x, on_x, ptr_x) = valid.live p i (sym (same_after p other) ∙ f) in
        (x, there i (other_block i x at_x (λ e. other (sym ptr_x ∙ e))) ∙ at_x, on_x, ptr_x)
  ]

  at_after : v.heap id ≡ some c
  at_after = ap (λ h. h id) heap ∙ write_same s.heap id (some c)

  released-Loaded : Loaded v id
  released-Loaded = record {
    valid = Reuses-IsValid s v id b c (queued s.cuda_events) (queued v.cuda_events) valid (record {
      at = at;
      place = unused.place;
      heap = heap;
      next_block = next_block;
      pools = pools;
      pooled = λ small. omega (arith, absent_before small);
      others = λ i ne. ap (λ es. count i (queued es)) events;
      awaited =
          ap (λ es. count id (queued es)) events
          ∙ (valid.awaited id ∙ (ap (λ x. events_of (use_of x)) at ∙ sym unused.same_events));
      settled = ((λ live. absurd (ground (arith, live, unused.off))), (λ _. no_uses));
      live = live_after;
      single = λ p.
          subst (λ es. find_live p (erase_live p es) ≡ none) (sym erased)
            (erase-single p ptr s.allocated_blocks (valid.single p));
    });
    block = c;
    at = at_after;
    released = unused.off;
    no_uses = no_uses;
    absent = λ small. ap (count id) (pools small) ∙ absent_before small;
  }

  released-idle : is_idle c ≡ true
  released-idle = rw (unused.off, no_uses) (ground (arith, no_events))

  -- The end of `deallocate`.
  finish-Landed :
      (o : Outcome (Unit {0}))
      → Sound v o
      → Landed s ptr (and_then o (λ _ w. done tt (trim_cache w)))
  finish-Landed faulted wrong = absurd wrong
  finish-Landed (threw e t) (valid_t, _, not_free) = refused e t valid_t not_free
  finish-Landed (done _ t) (valid_t, serves) =
      let (valid_u, serves_u, same) = trim_cache-Follows t (queued t.cuda_events) valid_t in
      let all = Serves-trans v t (trim_cache t) serves serves_u in
      freed (trim_cache t) (subst (λ es. IsValid (trim_cache t) (queued es)) (sym same) valid_u)
        (record {
          gone = subst (λ es. find_live ptr es ≡ none) (sym all.same_live) gone_after;
          same_live = λ p ne.
              subst (λ es. find_live p es ≡ find_live p s.allocated_blocks) (sym all.same_live)
                (same_after p ne);
          keeps = λ i x at_x on_x ne. all.keeps i x (there i (other_block i x at_x ne) ∙ at_x) on_x;
        })

nil_list : (xs : List ℕ) → is_nil xs ≡ true → xs ≡ []
nil_list [] h = refl
nil_list (x ∷ xs) h = cc

-- The state of `release_block` behind the bookkeeping.
abbrev pub unlisted : Impl → ℕ → ℕ → CacheBlock → CacheBlock → Impl
unlisted s ptr id b c =
    record_trace
      (record s {
        allocated_blocks = erase_live ptr s.allocated_blocks;
        heap = write s.heap id (some c);
        stats = record s.stats {
          successful_frees = to_u64 (s.stats.successful_frees + 1);
          bytes_allocated = sub64 s.stats.bytes_allocated b.size;
        };
      })
      free_requested ptr b.size b.stream

release_block-Landed :
    (runtime : Runtime) (s : Impl) (ptr id : ℕ) (b : CacheBlock) (stream : ℕ)
    → IsValid s (queued s.cuda_events)
    → find_live ptr s.allocated_blocks ≡ some id
    → s.heap id ≡ some b
    → b.allocated ≡ true
    → b.ptr ≡ ptr
    → ((t : Impl) → runtime.selects t ≡ true)
    → Landed s ptr (release_block runtime s ptr id b stream)
unfolding release_block
release_block-Landed runtime s ptr id b stream valid found at on starts selects =
    elim (Bool-cases (is_nil c.stream_uses)) [
      | inl no_uses ↦
          let none_used = nil_list c.stream_uses no_uses in
          let l =
            released-Loaded s u ptr id b c valid found at on starts unused none_used refl refl
              (λ small. refl) refl refl in
          let idle =
            released-idle s u ptr id b c valid found at on starts unused none_used refl refl
              (λ small. refl) refl refl in
          let (t, e, valid_t, same_live, same_events, keeps) =
            free_block-IsValid u id c (queued u.cuda_events) l.valid (write_same s.heap id (some c))
              idle l.absent in
          let sound : Sound u (or_fault (free_block u id)) = rw e (
            subst (λ es. IsValid t (queued es)) (sym same_events) valid_t,
            record { same_live = same_live; keeps = keeps },
          ) in
          rw (release_block, no_uses)
            (finish-Landed s u ptr id b c valid found at on starts unused none_used refl refl
              (λ small. refl) refl refl (or_fault (free_block u id)) sound)
      | inr used ↦
          let l =
            released-Loaded s v ptr id b d valid found at on starts unused_d refl
              (write_twice s.heap id (some c) (some d)) refl (λ small. refl) refl refl in
          rw (release_block, used)
            (finish-Landed s v ptr id b d valid found at on starts unused_d refl
              (write_twice s.heap id (some c) (some d)) refl (λ small. refl) refl refl
              (insert_events runtime u id)
              (insert_events-Sound runtime u v id c (write_same s.heap id (some c)) refl l
                (selects u)))
    ]
  where
    c : CacheBlock
    c = noted stream (record b { allocated = false })

    d : CacheBlock
    d = record c { stream_uses = [] }

    u : Impl
    u = unlisted s ptr id b c

    v : Impl
    v = record u { heap = write u.heap id (some d) }

    unused : Unused b c
    unused = noted-Unused stream b

    unused_d : Unused b d
    unused_d = record {
      place = record {
        ptr = unused.place.ptr;
        size = unused.place.size;
        prev = unused.place.prev;
        next = unused.place.next;
        is_small = unused.place.is_small;
        stream = unused.place.stream;
        segment_base = unused.place.segment_base;
      };
      off = unused.off;
      same_events = unused.same_events;
    }

Landed-after :
    (s t : Impl) (ptr : ℕ) (o : Outcome (Unit {0})) → Serves s t → Landed t ptr o → Landed s ptr o
Landed-after s t ptr _ serves (refused e u valid not_free) = refused e u valid not_free
Landed-after s t ptr _ serves (freed u valid r) = freed u valid (record {
  gone = r.gone;
  same_live = λ p ne. r.same_live p ne ∙ ap (find_live p) serves.same_live;
  keeps = λ i b at on ne.
      let (c, at_c, ptr_c, size_c, on_c) = serves.keeps i b at on in
      let (d, at_d, ptr_d, size_d, on_d) = r.keeps i c at_c on_c (λ e. ne (sym ptr_c ∙ e)) in
      (d, at_d, ptr_d ∙ ptr_c, size_d ∙ size_c, on_d);
})

not_owned_error : not_owned ≢ double_free
not_owned_error e = cc

-- The part of `deallocate` behind `process_events`.
abbrev pub look_up : Runtime → ℕ → ℕ → Impl → Outcome (Unit {0})
look_up runtime ptr stream t = elim (find_live ptr t.allocated_blocks) [
  | none ↦ threw not_owned t
  | some id ↦ checked_release runtime t ptr id (t.heap id) stream
]

look_up-Landed :
    (runtime : Runtime) (t : Impl) (ptr stream : ℕ)
    → IsValid t (queued t.cuda_events)
    → ((t : Impl) → runtime.selects t ≡ true)
    → Landed t ptr (look_up runtime ptr stream t)
look_up-Landed runtime t ptr stream valid selects =
    elim (Option-cases (find_live ptr t.allocated_blocks)) [
      | inl unknown ↦ rw (look_up, unknown) (refused not_owned t valid not_owned_error)
      | inr (id, found) ↦
          let (b, at, on, starts) = valid.live ptr id found in
          rw (look_up, found, at)
            (subst
              (λ x.
                Landed t ptr
                  (if x then release_block runtime t ptr id b stream else threw double_free t))
              (sym on)
              (release_block-Landed runtime t ptr id b stream valid found at on starts selects))
    ]

-- From a valid state, if the device can be selected, `deallocate` on a pointer that is not null ends without a
-- fault in a valid state, whatever the runtime answers about events and streams. It never finds a block that is not allocated, so it throws no
-- double free. If it throws nothing, the pointer is no live allocation any more, all others still are, and each
-- is where it was, as large as it was.
pub deallocate-Landed :
    (runtime : Runtime) (s : Impl) (ptr stream : ℕ)
    → IsValid s (queued s.cuda_events)
    → ptr ≢ 0
    → ((t : Impl) → runtime.selects t ≡ true)
    → Landed s ptr (deallocate runtime s ptr stream)
unfolding deallocate
deallocate-Landed runtime s ptr stream valid real selects =
    let not_null : (ptr == 0) ≡ false = ground (arith, real) in
    rw (deallocate, not_null) (go (process_events runtime s) (process_events-Sound runtime s valid))
  where
    go :
        (o : Outcome (Unit {0}))
        → Sound s o
        → Landed s ptr (and_then o (λ _ t. look_up runtime ptr stream t))
    go faulted wrong = absurd wrong
    go (threw e t) (valid_t, _, not_free) = refused e t valid_t not_free
    go (done _ t) (valid_t, serves) =
        Landed-after s t ptr (look_up runtime ptr stream t) serves
          (look_up-Landed runtime t ptr stream valid_t selects)
