-- ===== src/Memory/Tests/Blocks.antt =====
-- The blocks of the caching allocator on concrete inputs.
use xsigma.Common.{
  ℕ, ◌-◌, ◌^◌, ◌≡◌, ◌⊎◌, inr, refl, subst, some_inj, Bool, true, false, none, some, [], ◌∷◌, arith,
}
use xsigma.Memory.Allocator.{CacheBlock, write, Impl, RawSegment}
use xsigma.Memory.Allocator.Entry.{new_impl, segment_block}
use xsigma.Memory.Allocator.Split.{alloc_found_block, front_part}
use xsigma.Memory.Allocator.Pools.{get_free_block}
use xsigma.Memory.Allocator.Fit.{In, IsSorted, Verdict, get_free_block-Verdict}
use xsigma.Memory.Allocator.Release.{find_victim, trim_cache}
use xsigma.Memory.Allocator.Victim.{NoneWhole, IsLargest, find_victim-IsLargest}
use xsigma.Memory.Allocator.Trim.{IsFiled, Trimmed, trim_cache-Trimmed}
use xsigma.Memory.Allocator.Merge.{free_block}
use xsigma.Memory.Allocator.Shape.{Shape, Apart}
use xsigma.Memory.Allocator.Shape.Absorb.{none-some, write-cases}
use xsigma.Memory.Allocator.Shape.Allocate.{Allocated, alloc_found_block-Allocated}
use xsigma.Memory.Allocator.Shape.Free.{Freed, free_block-Freed}
use xsigma.Memory.Allocator.Shape.Retag.{retag-Shape, grow-Shape}

abbrev buffer : RawSegment
buffer = record { ptr = 4096; size = 2097152; vm = false }

abbrev buffer_block : CacheBlock
buffer_block = segment_block buffer 7 true 1

-- An allocator with one segment.
abbrev one_segment : Impl
one_segment = record (new_impl (2 ^ 64 - 1)) {
  heap = write (λ _. none) 0 (some buffer_block);
  next_block = 1;
}

no_blocks-Shape : Shape (λ _. none) 0
no_blocks-Shape = record {
  fresh = λ i le. refl;
  sized = λ i b e. absurd (none-some e);
  apart = λ i j b c ne e f. absurd (none-some e);
  next_ok = λ i j b e l. absurd (none-some e);
  prev_ok = λ i j b e l. absurd (none-some e);
}

one_segment-Shape : Shape one_segment.heap one_segment.next_block
one_segment-Shape =
    grow-Shape no_blocks-Shape buffer 7 true 1 (omega arith) (omega arith)
      (λ i b e. absurd (none-some e))

alloc_found_block-Allocated_example :
    Allocated one_segment 512
      (alloc_found_block one_segment 0 buffer_block 512 100).1
      (alloc_found_block one_segment 0 buffer_block 512 100).0
alloc_found_block-Allocated_example =
    alloc_found_block-Allocated one_segment 0 buffer_block 512 100 one_segment-Shape refl refl
      (omega arith) (omega arith)

-- The state behind the allocation, which has cut the segment in two, with the front part not allocated any more.
abbrev after_allocation : Impl
after_allocation = (alloc_found_block one_segment 0 buffer_block 512 100).0

abbrev front_block : Bool → CacheBlock
front_block allocated = record (front_part buffer_block 0 512) {
  allocated = allocated;
  requested_size = 100;
}

abbrev before_free : Impl
before_free = record after_allocation {
  heap = write after_allocation.heap 1 (some (front_block false));
}

front_in : after_allocation.heap 1 ≡ some (front_block true)
unfolding alloc_found_block
front_in = refl

before_free-Shape : Shape before_free.heap before_free.next_block
before_free-Shape =
    retag-Shape alloc_found_block-Allocated_shape 1 (front_block true) (front_block false) front_in
      (record {
        ptr = refl;
        size = refl;
        prev = refl;
        next = refl;
        is_small = refl;
        stream = refl;
        segment_base = refl;
      })
  where
    alloc_found_block-Allocated_shape : Shape after_allocation.heap after_allocation.next_block
    alloc_found_block-Allocated_shape =
        (alloc_found_block-Allocated one_segment 0 buffer_block 512 100 one_segment-Shape refl refl
          (omega arith) (omega arith)).shape

free_block-Freed_example : (t : Impl) × (free_block before_free 1 ≡ some t) × Freed before_free 1 t
free_block-Freed_example =
    free_block-Freed before_free 1 (front_block false) before_free-Shape refl refl

abbrev small_block : ℕ → ℕ → CacheBlock
small_block ptr size = record buffer_block { ptr = ptr; size = size; segment_base = ptr }

-- An allocator with two cached segments, which is to keep no more than 1,000 bytes.
abbrev two_cached : Impl
two_cached = record (new_impl 1000) {
  heap = write (write (λ _. none) 0 (some (small_block 4096 512))) 1 (some (small_block 8192 1024));
  next_block = 2;
  small_blocks = 0 ∷ 1 ∷ [];
  bytes_cached = 1536;
}

two_cached-IsSorted : IsSorted two_cached.heap (0 ∷ 1 ∷ [])
two_cached-IsSorted = (
  small_block 4096 512,
  refl,
  ((small_block 8192 1024, refl, refl), tt),
  (small_block 8192 1024, refl, tt, tt),
)

get_free_block-Verdict_example :
    Verdict two_cached true 7 600 (get_free_block two_cached true 7 600)
get_free_block-Verdict_example = get_free_block-Verdict two_cached true 7 600 two_cached-IsSorted

find_victim-IsLargest_example :
    ((find_victim two_cached.heap (0 ∷ 1 ∷ []) none ≡ none)
      × NoneWhole two_cached.heap (0 ∷ 1 ∷ []))
    ⊎ ((v : ℕ) × (c : CacheBlock) × (find_victim two_cached.heap (0 ∷ 1 ∷ []) none ≡ some (v, c))
        × In v (0 ∷ 1 ∷ [])
        × IsLargest two_cached.heap (0 ∷ 1 ∷ []) v c)
find_victim-IsLargest_example = find_victim-IsLargest two_cached.heap (0 ∷ 1 ∷ [])

two_cached-Shape : Shape two_cached.heap two_cached.next_block
two_cached-Shape =
    grow-Shape first-Shape (record { ptr = 8192; size = 1024; vm = false }) 7 true 1 (omega arith)
      (omega arith)
      (λ i b e.
        write-cases (λ _. none) 0 (some (small_block 4096 512)) i b e
          (λ _ q. subst (λ c. Apart (small_block 8192 1024) c) (some_inj q) (inr (omega arith)))
          (λ _ q. absurd (none-some q)))
  where
    first-Shape : Shape (write (λ _. none) 0 (some (small_block 4096 512))) 1
    first-Shape =
        grow-Shape no_blocks-Shape (record { ptr = 4096; size = 512; vm = false }) 7 true 1
          (omega arith) (omega arith) (λ i b e. absurd (none-some e))

two_cached-IsFiled : IsFiled two_cached
two_cached-IsFiled = record {
  small_ones = λ i b m e.
      write-cases (write (λ _. none) 0 (some (small_block 4096 512))) 1
        (some (small_block 8192 1024)) i b e
        (λ _ q. subst (λ c. (c.is_small ≡ true) × (c.allocated ≡ false)) (some_inj q) (refl, refl))
        (λ _ q.
          write-cases (λ _. none) 0 (some (small_block 4096 512)) i b q
            (λ _ w.
              subst (λ c. (c.is_small ≡ true) × (c.allocated ≡ false)) (some_inj w) (refl, refl))
            (λ _ w. absurd (none-some w)));
  large_ones = λ i b m e. elim m [ ];
}

trim_cache-Trimmed_example : Trimmed two_cached (trim_cache two_cached)
trim_cache-Trimmed_example =
    trim_cache-Trimmed two_cached two_cached-Shape two_cached-IsFiled (omega arith)
