-- ===== src/Memory/Snapshot/Tally.antt =====
-- A finished snapshot shows what was considered: each segment with its own blocks and their sums.
use xsigma.Common.{
  ℕ, ◌+◌, ◌<◌, ◌≡◌, ◌≢◌, refl, sym, ap, ◌∙◌, subst, ◌==◌, Option, none, some, List, [], ◌∷◌, map,
  arith, if◌then◌else◌, to_u64, Bool-cases, inl, inr, ◌^◌,
}
use xsigma.Memory.Snapshot.{
  GpuMemoryBlockInfo, GpuMemorySegmentInfo, SegmentEntry, SegmentFacts, add_sizes, sort_blocks,
  finish_segment, finish_snapshot,
}
use xsigma.Memory.Snapshot.Order.{sum_of, sort_blocks-sum_of, IsOrdered, sort_blocks-IsOrdered}
use xsigma.Memory.Snapshot.Gather.{
  allocated_bytes, active_bytes, requested_bytes, add_all, blocks_at, first_at, Above, IsSorted,
  entry_at, IsGathered, Gathered, add_all-Gathered,
}
use xsigma.Memory.History.{GpuMemoryTraceEntry}

abbrev pub bytes : GpuMemoryBlockInfo → ℕ
bytes b = b.size

-- The segment at the address `a` of a snapshot.
unfoldable pub segment_at : ℕ → List GpuMemorySegmentInfo → Option GpuMemorySegmentInfo
segment_at a [] = none
segment_at a (seg ∷ segs) = if seg.address == a then some seg else segment_at a segs

-- The addresses of the segments rise, so that no address has two of them.
abbrev pub Beyond : ℕ → List GpuMemorySegmentInfo → Type 0
Beyond a [] = Unit {0}
Beyond a (seg ∷ segs) = (a < seg.address) × Beyond a segs

abbrev pub IsRising : List GpuMemorySegmentInfo → Type 0
IsRising [] = Unit {0}
IsRising (seg ∷ segs) = Beyond seg.address segs × IsRising segs

-- A segment at `a` that was described by `f`, with the blocks `bs`: each as often as there, which every sum over
-- them tells, and sorted.
pub record IsFinished (a : ℕ) (bs : List GpuMemoryBlockInfo) (f : SegmentFacts)
    (seg : GpuMemorySegmentInfo) : Type 0 where
  pub address : seg.address ≡ a
  pub is_small : seg.is_small ≡ f.is_small
  pub is_expandable : seg.is_expandable ≡ f.is_expandable
  pub stream : seg.stream ≡ f.stream
  pub own : (q : GpuMemoryBlockInfo → ℕ) → sum_of q seg.blocks ≡ sum_of q bs
  pub ordered : IsOrdered seg.blocks
  pub total : seg.total_size ≡ (if f.size == 0 then to_u64 (sum_of bytes bs) else f.size)
  pub allocated : seg.allocated_size ≡ to_u64 (sum_of allocated_bytes bs)
  pub active : seg.active_size ≡ to_u64 (sum_of active_bytes bs)
  pub requested : seg.requested_size ≡ to_u64 (sum_of requested_bytes bs)

-- The segment at `a`, which is there exactly if a block was considered with that base.
abbrev pub Finished :
    ℕ → List GpuMemoryBlockInfo → Option SegmentFacts → Option GpuMemorySegmentInfo → Type 0
Finished a bs none none = bs ≡ []
Finished a bs none (some seg) = ⊥
Finished a bs (some f) none = ⊥
Finished a bs (some f) (some seg) = IsFinished a bs f seg

add_sizes-sum_of :
    (total : ℕ) (bs : List GpuMemoryBlockInfo)
    → total < 2 ^ 64
    → add_sizes total bs ≡ to_u64 (total + sum_of bytes bs)
add_sizes-sum_of total [] fits = ground arith
add_sizes-sum_of total (b ∷ bs) fits =
    omega (arith, add_sizes-sum_of (to_u64 (total + b.size)) bs (omega arith))

finish_segment-IsFinished :
    (a : ℕ) (bs : List GpuMemoryBlockInfo) (f : SegmentFacts) (seg : GpuMemorySegmentInfo)
    → IsGathered a bs f seg
    → IsFinished a bs f (finish_segment seg)
unfolding finish_segment
finish_segment-IsFinished a bs f seg g = record {
  address = g.address;
  is_small = g.is_small;
  is_expandable = g.is_expandable;
  stream = g.stream;
  own = λ q. sort_blocks-sum_of q seg.blocks ∙ ap (sum_of q) g.blocks;
  ordered = sort_blocks-IsOrdered seg.blocks;
  total = total;
  allocated = g.allocated;
  active = g.active;
  requested = g.requested;
}
  where
    summed : add_sizes 0 (sort_blocks seg.blocks) ≡ to_u64 (sum_of bytes bs)
    summed = omega (
      arith,
      add_sizes-sum_of 0 (sort_blocks seg.blocks) (omega arith),
      sort_blocks-sum_of bytes seg.blocks,
      ap (sum_of bytes) g.blocks,
    )

    total :
        (if seg.total_size == 0 then add_sizes 0 (sort_blocks seg.blocks) else seg.total_size)
        ≡ (if f.size == 0 then to_u64 (sum_of bytes bs) else f.size)
    total = ground (arith, summed, g.total)

finish-Finished :
    (a : ℕ) (bs : List GpuMemoryBlockInfo) (f : Option SegmentFacts)
    (x : Option GpuMemorySegmentInfo)
    → Gathered a bs f x
    → Finished a bs f (elim x [ none ↦ none | some seg ↦ some (finish_segment seg) ])
finish-Finished a bs none none g = g
finish-Finished a bs none (some seg) g = absurd g
finish-Finished a bs (some f) none g = absurd g
finish-Finished a bs (some f) (some seg) g = finish_segment-IsFinished a bs f seg g

abbrev finished : List SegmentEntry → List GpuMemorySegmentInfo
finished es = map (λ e. finish_segment e.segment) es

segment_at-finished :
    (a : ℕ) (es : List SegmentEntry)
    → IsSorted es
    → segment_at a (finished es)
      ≡ (elim (entry_at a es) [ none ↦ none | some seg ↦ some (finish_segment seg) ])
unfolding segment_at entry_at finish_segment
segment_at-finished a [] s = refl
segment_at-finished a (e ∷ es) (above, named, rest) = elim (Bool-cases (e.base == a)) [
  | inl here ↦ rw (named, here) refl
  | inr other ↦ rw (named, other) (segment_at-finished a es rest)
]

finished-Beyond :
    (a : ℕ) (es : List SegmentEntry) → IsSorted es → Above a es → Beyond a (finished es)
unfolding finish_segment
finished-Beyond a [] s h = tt
finished-Beyond a (e ∷ es) (above, named, rest) (first, later) =
    (omega (arith, named), finished-Beyond a es rest later)

finished-IsRising : (es : List SegmentEntry) → IsSorted es → IsRising (finished es)
unfolding finish_segment
finished-IsRising [] s = tt
finished-IsRising (e ∷ es) (above, named, rest) = (
  subst (λ k. Beyond k (finished es)) (sym named) (finished-Beyond e.base es rest above),
  finished-IsRising es rest,
)

-- In the snapshot of any blocks, the addresses of the segments rise, and there is a segment at an address `a` other
-- than 0 exactly if a block was considered with that base. It has the blocks that were considered with that base
-- and no others, by rising address; its allocated, active and requested sizes are their sums modulo 2 ^ 64; the
-- first of them tells its pool, its kind, its stream and its total size, which is the sum of their sizes
-- modulo 2 ^ 64 if that first block tells the size 0. The history is the given one.
pub finish_snapshot-Finished :
    (adds : List (SegmentFacts × GpuMemoryBlockInfo)) (trace : List GpuMemoryTraceEntry) (a : ℕ)
    → a ≢ 0
    → IsRising (finish_snapshot (add_all [] adds) trace).segments
      × Finished a
          (blocks_at a adds)
          (first_at a adds)
          (segment_at a (finish_snapshot (add_all [] adds) trace).segments)
      × ((finish_snapshot (add_all [] adds) trace).device_trace ≡ trace)
unfolding finish_snapshot
finish_snapshot-Finished adds trace a real =
    let (sorted, gathered) = add_all-Gathered a adds real in
    (
      finished-IsRising (add_all [] adds) sorted,
      subst (Finished a (blocks_at a adds) (first_at a adds))
          (sym (segment_at-finished a (add_all [] adds) sorted))
          (finish-Finished a (blocks_at a adds) (first_at a adds) (entry_at a (add_all [] adds))
            gathered),
      refl,
    )
