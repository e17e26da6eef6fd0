-- ===== src/Memory/Allocator/Snapshots/Seen.antt =====
-- A snapshot shows the live allocations, and each block that it found once.
use xsigma.Common.{
  ◌<◌, ==_iff, ltb, Option-cases, ℕ, ◌≡◌, ◌≢◌, inl, inr, refl, sym, ap, ◌∙◌, subst, true, Option,
  none, some, some_inj, List, [], ◌∷◌, ◌==◌, arith, if◌then◌else◌, Bool-cases, ℕ_discrete,
}
use xsigma.Memory.History.{record_entry}
use xsigma.Memory.Snapshot.{
  GpuMemoryBlockInfo, SegmentEntry, SegmentFacts, add_snapshot_block, finish_snapshot,
}
use xsigma.Memory.Snapshot.Gather.{add_all, blocks_at, first_at}
use xsigma.Memory.Snapshot.Tally.{segment_at, IsRising, Finished, finish_snapshot-Finished}
use xsigma.Memory.Allocator.{
  CacheBlock, Heap, Impl, RawSegment, QueuedEvent, EventQueue, LiveEntry, find_live,
}
use xsigma.Memory.Allocator.Snapshots.{
  UniqueEntry, insert_unique, consider, consider_live, consider_pool, consider_queue,
  consider_queues, unique_blocks, segment_facts, block_info, add_unique, take_snapshot,
}
use xsigma.Memory.Allocator.Shape.{Shape}
use xsigma.Memory.Allocator.Shape.Absorb.{none-some}
use xsigma.Memory.Allocator.Valid.{IsValid}

-- The block that the map has for an address.
unfoldable pub look_up : ℕ → List UniqueEntry → Option CacheBlock
look_up p [] = none
look_up p (u ∷ us) = if u.ptr == p then some u.block else look_up p us

look_up-insert_unique_same :
    (b : CacheBlock) (us : List UniqueEntry) → look_up b.ptr (insert_unique b us) ≡ some b
unfolding look_up insert_unique
look_up-insert_unique_same b [] = ground arith
look_up-insert_unique_same b (u ∷ us) = ground (arith, look_up-insert_unique_same b us)

look_up-insert_unique_other :
    (b : CacheBlock) (p : ℕ) (us : List UniqueEntry)
    → b.ptr ≢ p
    → look_up p (insert_unique b us) ≡ look_up p us
unfolding look_up insert_unique
look_up-insert_unique_other b p [] ne = ground (arith, ne)
look_up-insert_unique_other b p (u ∷ us) ne =
    ground (arith, ne, look_up-insert_unique_other b p us ne)

module _ (h : Heap) (n : ℕ) (shape : Shape h n) (i : ℕ) (b : CacheBlock) (at : h i ≡ some b) where
  -- Two blocks at one address are one.
  same_place : (j : ℕ) (c : CacheBlock) → h j ≡ some c → c.ptr ≡ b.ptr → c ≡ b
  same_place j c at_c same = elim (ℕ_discrete j i) [
    | yes e ↦ some_inj (sym at_c ∙ (ap h e ∙ at))
    | no ne ↦ absurd (
        ground
          (arith, shape.apart j i c b ne at_c at, shape.sized i b at, shape.sized j c at_c, same))
  ]

  consider-seen :
      (j : ℕ) (us : List UniqueEntry)
      → look_up b.ptr us ≡ some b
      → look_up b.ptr (consider h j us) ≡ some b
  consider-seen j us seen = go (h j) refl
    where
      go :
          (x : Option CacheBlock)
          → h j ≡ x
          → look_up b.ptr (elim x [ none ↦ us | some c ↦ insert_unique c us ]) ≡ some b
      go none e = seen
      go (some c) e = elim (ℕ_discrete c.ptr b.ptr) [
        | yes same ↦
            ap (λ p. look_up p (insert_unique c us)) (sym same)
            ∙ (look_up-insert_unique_same c us ∙ ap some (same_place j c e same))
        | no other ↦ look_up-insert_unique_other c b.ptr us other ∙ seen
      ]

  consider_here : (us : List UniqueEntry) → look_up b.ptr (consider h i us) ≡ some b
  consider_here us = rw (consider, at) (look_up-insert_unique_same b us)

  live_seen :
      (es : List LiveEntry) (us : List UniqueEntry)
      → look_up b.ptr us ≡ some b
      → look_up b.ptr (consider_live h es us) ≡ some b
  unfolding consider_live
  live_seen [] us seen = seen
  live_seen (e ∷ es) us seen = live_seen es (consider h e.block us) (consider-seen e.block us seen)

  pool_seen :
      (ids : List ℕ) (us : List UniqueEntry)
      → look_up b.ptr us ≡ some b
      → look_up b.ptr (consider_pool h ids us) ≡ some b
  unfolding consider_pool
  pool_seen [] us seen = seen
  pool_seen (id ∷ ids) us seen = pool_seen ids (consider h id us) (consider-seen id us seen)

  queue_seen :
      (qs : List QueuedEvent) (us : List UniqueEntry)
      → look_up b.ptr us ≡ some b
      → look_up b.ptr (consider_queue h qs us) ≡ some b
  unfolding consider_queue
  queue_seen [] us seen = seen
  queue_seen (q ∷ qs) us seen =
      queue_seen qs (consider h q.block us) (consider-seen q.block us seen)

  queues_seen :
      (es : List EventQueue) (us : List UniqueEntry)
      → look_up b.ptr us ≡ some b
      → look_up b.ptr (consider_queues h es us) ≡ some b
  unfolding consider_queues
  queues_seen [] us seen = seen
  queues_seen (e ∷ es) us seen =
      queues_seen es (consider_queue h e.queue us) (queue_seen e.queue us seen)

  found_seen :
      (p : ℕ) (es : List LiveEntry) (us : List UniqueEntry)
      → find_live p es ≡ some i
      → look_up b.ptr (consider_live h es us) ≡ some b
  unfolding find_live consider_live
  found_seen p [] us found = absurd (none-some found)
  found_seen p (e ∷ es) us found = elim (Bool-cases (e.ptr == p)) [
    | inl here ↦
        let block : e.block ≡ i = some_inj (rw here at found) in
        live_seen es (consider h e.block us)
          (ap (λ k. look_up b.ptr (consider h k us)) block ∙ consider_here us)
    | inr later ↦ found_seen p es (consider h e.block us) (rw later at found)
  ]

-- What `snapshot` tells of the blocks it found.
abbrev pub adds_of : List RawSegment → List UniqueEntry → List (SegmentFacts × GpuMemoryBlockInfo)
adds_of segments [] = []
adds_of segments (u ∷ us) =
    (segment_facts segments u.block, block_info u.block) ∷ adds_of segments us

add_unique-add_all :
    (segments : List RawSegment) (us : List UniqueEntry) (es : List SegmentEntry)
    → add_unique segments us es ≡ add_all es (adds_of segments us)
unfolding add_unique
add_unique-add_all segments [] es = refl
add_unique-add_all segments (u ∷ us) es =
    add_unique-add_all segments us
      (add_snapshot_block es (segment_facts segments u.block) (block_info u.block))

-- An entry of the map holds a block of the heap, at its own address.
abbrev pub Holds : Heap → UniqueEntry → Type 0
Holds h u = (i : ℕ) × (h i ≡ some u.block) × (u.ptr ≡ u.block.ptr)

abbrev pub Past : ℕ → List UniqueEntry → Type 0
Past p [] = Unit {0}
Past p (u ∷ us) = (p < u.ptr) × Past p us

-- The addresses rise, so that none is there twice, and each is that of a block of the heap.
abbrev pub IsUnique : Heap → List UniqueEntry → Type 0
IsUnique h [] = Unit {0}
IsUnique h (u ∷ us) = Holds h u × Past u.ptr us × IsUnique h us

Past-weaken : (p q : ℕ) (us : List UniqueEntry) → p < q → Past q us → Past p us
Past-weaken p q [] lt h = tt
Past-weaken p q (u ∷ us) lt (first, rest) = (omega arith, Past-weaken p q us lt rest)

insert_unique-Past :
    (p : ℕ) (b : CacheBlock) (us : List UniqueEntry)
    → p < b.ptr
    → Past p us
    → Past p (insert_unique b us)
unfolding insert_unique
insert_unique-Past p b [] lt h = (lt, tt)
insert_unique-Past p b (u ∷ us) lt (first, rest) = elim (Bool-cases (u.ptr == b.ptr)) [
  | inl here ↦ rw here (first, rest)
  | inr other ↦ elim (Bool-cases (ltb b.ptr u.ptr)) [
    | inl before ↦ rw (other, before) (lt, (first, rest))
    | inr after ↦ rw (other, after) (first, insert_unique-Past p b us lt rest)
  ]
]

insert_unique-IsUnique :
    (h : Heap) (i : ℕ) (b : CacheBlock) (us : List UniqueEntry)
    → h i ≡ some b
    → IsUnique h us
    → IsUnique h (insert_unique b us)
unfolding insert_unique
insert_unique-IsUnique h i b [] at k = ((i, at, refl), tt, tt)
insert_unique-IsUnique h i b (u ∷ us) at (holds, past, rest) = elim (Bool-cases (u.ptr == b.ptr)) [
  | inl here ↦ rw here ((i, at, (==_iff u.ptr b.ptr).0 here), past, rest)
  | inr other ↦ elim (Bool-cases (ltb b.ptr u.ptr)) [
    | inl before ↦
        let lt : b.ptr < u.ptr = ground arith in
        rw (other, before)
          ((i, at, refl), (lt, Past-weaken b.ptr u.ptr us lt past), (holds, past, rest))
    | inr after ↦
        let lt : u.ptr < b.ptr = ground arith in
        rw (other, after)
          (holds, insert_unique-Past u.ptr b us lt past, insert_unique-IsUnique h i b us at rest)
  ]
]

module _ (h : Heap) where
  consider-IsUnique : (i : ℕ) (us : List UniqueEntry) → IsUnique h us → IsUnique h (consider h i us)
  consider-IsUnique i us k = elim (Option-cases (h i)) [
    | inl absent ↦ rw (consider, absent) k
    | inr (b, at) ↦ rw (consider, at) (insert_unique-IsUnique h i b us at k)
  ]

  live-IsUnique :
      (es : List LiveEntry) (us : List UniqueEntry)
      → IsUnique h us
      → IsUnique h (consider_live h es us)
  unfolding consider_live
  live-IsUnique [] us k = k
  live-IsUnique (e ∷ es) us k =
      live-IsUnique es (consider h e.block us) (consider-IsUnique e.block us k)

  pool-IsUnique :
      (ids : List ℕ) (us : List UniqueEntry) → IsUnique h us → IsUnique h (consider_pool h ids us)
  unfolding consider_pool
  pool-IsUnique [] us k = k
  pool-IsUnique (id ∷ ids) us k = pool-IsUnique ids (consider h id us) (consider-IsUnique id us k)

  queue-IsUnique :
      (qs : List QueuedEvent) (us : List UniqueEntry)
      → IsUnique h us
      → IsUnique h (consider_queue h qs us)
  unfolding consider_queue
  queue-IsUnique [] us k = k
  queue-IsUnique (q ∷ qs) us k =
      queue-IsUnique qs (consider h q.block us) (consider-IsUnique q.block us k)

  queues-IsUnique :
      (es : List EventQueue) (us : List UniqueEntry)
      → IsUnique h us
      → IsUnique h (consider_queues h es us)
  unfolding consider_queues
  queues-IsUnique [] us k = k
  queues-IsUnique (e ∷ es) us k =
      queues-IsUnique es (consider_queue h e.queue us) (queue-IsUnique e.queue us k)

unique_blocks-IsUnique : (s : Impl) → IsUnique s.heap (unique_blocks s)
unfolding unique_blocks
unique_blocks-IsUnique s =
    let live = live-IsUnique s.heap s.allocated_blocks [] tt in
    let small =
      pool-IsUnique s.heap s.small_blocks (consider_live s.heap s.allocated_blocks []) live in
    let large =
      pool-IsUnique s.heap s.large_blocks
        (consider_pool s.heap s.small_blocks (consider_live s.heap s.allocated_blocks [])) small in
    queues-IsUnique s.heap s.cuda_events
      (consider_pool s.heap s.large_blocks
        (consider_pool s.heap s.small_blocks (consider_live s.heap s.allocated_blocks [])))
      large

-- What a snapshot of the state `s` shows.
pub record Shown (s : Impl) : Type 0 where
  pub unique : IsUnique s.heap (unique_blocks s)
  pub rising : IsRising (take_snapshot s).0.segments
  pub segments :
      (a : ℕ)
      → a ≢ 0
      → Finished a
          (blocks_at a (adds_of s.driver_segments (unique_blocks s)))
          (first_at a (adds_of s.driver_segments (unique_blocks s)))
          (segment_at a (take_snapshot s).0.segments)
  pub live :
      (p i : ℕ)
      → find_live p s.allocated_blocks ≡ some i
      → (b : CacheBlock) × (s.heap i ≡ some b)
        × (b.allocated ≡ true)
        × (look_up p (unique_blocks s) ≡ some b)

-- From a valid state, the blocks that a snapshot finds are blocks of the heap, no two of one address, and each live
-- allocation is found, with the block that it has. The addresses of the segments rise, and the segment at an address
-- other than 0 is there exactly if a block was found in a segment of that base: it has the blocks that were found
-- there and no others, by rising address, and its sizes are their sums modulo 2 ^ 64, where its total size is that of
-- the driver's segment unless this is 0 or unknown.
pub take_snapshot-Shown : (s : Impl) (pending : List ℕ) → IsValid s pending → Shown s
unfolding take_snapshot unique_blocks record_entry finish_snapshot
take_snapshot-Shown s pending valid = record {
  unique = unique_blocks-IsUnique s;
  rising =
      subst (λ es. IsRising (finish_snapshot es (take_snapshot s).0.device_trace).segments)
        (sym same)
        (finish_snapshot-Finished adds (take_snapshot s).0.device_trace 1 (omega arith)).0;
  segments = λ a real.
      subst
        (λ es.
          Finished a (blocks_at a adds) (first_at a adds)
            (segment_at a (finish_snapshot es (take_snapshot s).0.device_trace).segments))
        (sym same) (finish_snapshot-Finished adds (take_snapshot s).0.device_trace a real).1;
  live = λ p i found.
      let (b, at, on, ptr) = valid.live p i found in
      let start = found_seen s.heap s.next_block valid.shape i b at p s.allocated_blocks [] found in
      let small =
        pool_seen s.heap s.next_block valid.shape i b at s.small_blocks
          (consider_live s.heap s.allocated_blocks []) start in
      let large =
        pool_seen s.heap s.next_block valid.shape i b at s.large_blocks
          (consider_pool s.heap s.small_blocks (consider_live s.heap s.allocated_blocks []))
          small in
      (
        b,
        at,
        on,
        subst (λ q. look_up q (unique_blocks s) ≡ some b) ptr
            (queues_seen s.heap s.next_block valid.shape i b at s.cuda_events
              (consider_pool s.heap s.large_blocks
                (consider_pool s.heap s.small_blocks (consider_live s.heap s.allocated_blocks [])))
              large),
      );
}
  where
    adds : List (SegmentFacts × GpuMemoryBlockInfo)
    adds = adds_of s.driver_segments (unique_blocks s)

    same : add_unique s.driver_segments (unique_blocks s) [] ≡ add_all [] adds
    same = add_unique-add_all s.driver_segments (unique_blocks s) []
