-- ===== src/Memory/Allocator/Valid/Trimming.antt =====
-- `trim_cache` leads from valid states to valid states.
use xsigma.Common.{
  ℕ, zero, suc, ◌-◌, ◌^◌, ◌≤◌, ◌<◌, ◌≡◌, inl, inr, refl, sym, ap, ◌∙◌, subst, Bool, true, false,
  none, some, List, [], ◌∷◌, ◌++◌, ◌==◌, ltb, arith, Bool-cases, ℕ_discrete, count, count-append,
}
use xsigma.Memory.Allocator.{CacheBlock, Impl, pool_of, is_split}
use xsigma.Memory.Allocator.Pools.{erase_block}
use xsigma.Memory.Allocator.Merge.{is_idle}
use xsigma.Memory.Allocator.Release.{release_segment, evict, trim_loop, trim_cache}
use xsigma.Memory.Allocator.Usage.{use_of, same_class, places, events_of, Settled}
use xsigma.Memory.Allocator.Shape.{Keeps}
use xsigma.Memory.Allocator.Shape.Absorb.{write_other, write_same}
use xsigma.Memory.Allocator.Shape.Retag.{shrink-Shape}
use xsigma.Memory.Allocator.Fit.{In, here, there}
use xsigma.Memory.Allocator.Victim.{find_victim-IsLargest}
use xsigma.Memory.Allocator.Trim.{IsFiled, evict-Keeps}
use xsigma.Memory.Allocator.Valid.{
  IsValid, count-erase_block, pool_of_here, pool_of_other, pool_of-same_class, live-Keeps,
}
use xsigma.Memory.Allocator.Valid.Draining.{Serves}
use xsigma.Memory.Allocator.Valid.Queues.{Serves-refl, Serves-trans}

In-count : (i : ℕ) (js : List ℕ) → In i js → 0 < count i js
unfolding count
In-count i [] m = elim m [ ]
In-count i (j ∷ js) (here _) = ground arith
In-count i (j ∷ js) (there _ _ m) = omega (arith, In-count i js m)

-- A cached block is idle and of the size class of its pool.
cached-idle :
    (s : Impl) (pending : List ℕ) (small : Bool) (i : ℕ) (b : CacheBlock)
    → IsValid s pending
    → s.heap i ≡ some b
    → 0 < count i (pool_of s small)
    → (is_idle b ≡ true) × (same_class b.is_small small ≡ true)
cached-idle s pending small i b valid at some_places =
    let room : 0 < places (use_of (some b)) small =
      omega (arith, some_places, valid.pooled small i, ap (λ x. places (use_of x) small) at) in
    (ground (arith, room), ground (arith, room))

class_of : (p : Bool) → same_class p true ≡ true → p ≡ true
class_of true h = refl
class_of false h = cc

class_of_large : (p : Bool) → same_class p false ≡ true → p ≡ false
class_of_large true h = cc
class_of_large false h = refl

pub IsValid-IsFiled : (s : Impl) (pending : List ℕ) → IsValid s pending → IsFiled s
IsValid-IsFiled s pending valid = record {
  small_ones = λ i b m at.
      let (idle, class) = cached-idle s pending true i b valid at (In-count i s.small_blocks m) in
      (class_of b.is_small class, ground (arith, idle));
  large_ones = λ i b m at.
      let (idle, class) = cached-idle s pending false i b valid at (In-count i s.large_blocks m) in
      (class_of_large b.is_small class, ground (arith, idle));
}

evict-IsValid :
    (s : Impl) (pending : List ℕ) (id : ℕ) (b : CacheBlock)
    → IsValid s pending
    → s.heap id ≡ some b
    → is_split b ≡ false
    → In id (s.small_blocks ++ s.large_blocks)
    → IsValid (evict s id b) pending
unfolding evict release_segment
evict-IsValid s pending id b valid at whole m = record {
  shape = shrink-Shape valid.shape id b at whole;
  pooled = λ small i. elim (ℕ_discrete i id) [
    | yes q ↦ omega (arith, subst (λ k. count k (pool_of after small) ≤ 0) (sym q) (gone small))
    | no ne ↦ omega (
      arith,
      fewer small i,
      valid.pooled small i,
      ap (λ x. places (use_of x) small) (write_other s.heap id none i ne),
    )
  ];
  awaited = λ i. elim (ℕ_discrete i id) [
    | yes q ↦
        subst (λ k. count k pending ≡ events_of (use_of (after.heap k))) (sym q)
          (valid.awaited id
            ∙ (ap (λ x. events_of (use_of x)) at
                ∙ (no_events ∙ sym (ap (λ x. events_of (use_of x)) (write_same s.heap id none)))))
    | no ne ↦
        valid.awaited i ∙ sym (ap (λ x. events_of (use_of x)) (write_other s.heap id none i ne))
  ];
  settled = λ i. elim (ℕ_discrete i id) [
    | yes q ↦ subst (λ x. Settled (use_of x)) (sym (ap after.heap q ∙ write_same s.heap id none)) tt
    | no ne ↦
        subst (λ x. Settled (use_of x)) (sym (write_other s.heap id none i ne)) (valid.settled i)
  ];
  live =
      live-Keeps s.heap after.heap s.allocated_blocks
        (evict-Keeps s id b (IsValid-IsFiled s pending valid) at m) valid.live;
  single = valid.single;
}
  where
    after : Impl
    after = evict s id b

    erased : List ℕ
    erased = erase_block id (pool_of s b.is_small)

    idle : is_idle b ≡ true
    idle = elim (Bool-cases (ltb 0 (count id s.small_blocks))) [
      | inl in_small ↦ (cached-idle s pending true id b valid at (ground (arith, in_small))).0
      | inr not_small ↦
          (cached-idle s pending false id b valid at (
            ground (
              arith,
              not_small,
              In-count id (s.small_blocks ++ s.large_blocks) m,
              count-append id s.small_blocks s.large_blocks,
            ))).0
    ]

    no_events : b.event_count ≡ 0
    no_events = ground (arith, idle)

    fewer : (small : Bool) (i : ℕ) → count i (pool_of after small) ≤ count i (pool_of s small)
    fewer small i = elim (Bool-cases (same_class b.is_small small)) [
      | inl same ↦ ground (
        arith,
        ap (count i) (pool_of_here s b.is_small small erased same),
        count-erase_block i id (pool_of s b.is_small),
        ap (count i) (pool_of-same_class s b.is_small small same),
      )
      | inr other ↦ omega (arith, ap (count i) (pool_of_other s b.is_small small erased other))
    ]

    room : (small : Bool) → count id (pool_of s small) ≤ places (use_of (some b)) small
    room small =
        subst (λ x. count id (pool_of s small) ≤ places (use_of x) small) at (valid.pooled small id)

    gone : (small : Bool) → count id (pool_of after small) ≤ 0
    gone small = elim (Bool-cases (same_class b.is_small small)) [
      | inl same ↦ ground (
        arith,
        ap (count id) (pool_of_here s b.is_small small erased same),
        count-erase_block id id (pool_of s b.is_small),
        ap (count id) (pool_of-same_class s b.is_small small same),
        room small,
      )
      | inr other ↦
          ground (
            arith,
            ap (count id) (pool_of_other s b.is_small small erased other),
            room small,
            other,
          )
    ]

-- A valid state with the same queues, and the same live allocations.
abbrev pub Follows : Impl → List ℕ → Impl → Type 0
Follows s pending t = IsValid t pending × Serves s t × (t.cuda_events ≡ s.cuda_events)

trim_loop-Follows :
    (fuel : ℕ) (s : Impl) (pending : List ℕ)
    → IsValid s pending
    → Follows s pending (trim_loop fuel s)
unfolding trim_loop
trim_loop-Follows zero s pending valid = (valid, Serves-refl s, refl)
trim_loop-Follows (suc fuel) s pending valid =
    elim (Bool-cases (ltb s.max_cached_bytes s.bytes_cached)) [
      | inr within ↦ rw (trim_loop, within) (valid, Serves-refl s, refl)
      | inl over ↦ elim (find_victim-IsLargest s.heap (s.small_blocks ++ s.large_blocks)) [
        | inl (absent, none_whole) ↦ rw (trim_loop, over, absent) (valid, Serves-refl s, refl)
        | inr (v, c, found, m, best) ↦
            rw (trim_loop, over, found)
              (step v c (evict-Keeps s v c (IsValid-IsFiled s pending valid) best.at m) (
                trim_loop-Follows fuel (evict s v c) pending
                  (evict-IsValid s pending v c valid best.at best.unsplit m)))
      ]
    ]
  where
    step :
        (v : ℕ) (c : CacheBlock)
        → Keeps s.heap (evict s v c).heap
        → Follows (evict s v c) pending (trim_loop fuel (evict s v c))
        → Follows s pending (trim_loop fuel (evict s v c))
    step v c keeps (valid_t, serves, same) = (
      valid_t,
      Serves-trans s (evict s v c) (trim_loop fuel (evict s v c))
          (record { same_live = refl; keeps = keeps }) serves,
      same,
    )

pub trim_cache-Follows :
    (s : Impl) (pending : List ℕ) → IsValid s pending → Follows s pending (trim_cache s)
unfolding trim_cache
trim_cache-Follows s pending valid = elim (Bool-cases (s.max_cached_bytes == 2 ^ 64 - 1)) [
  | inl unlimited ↦ rw (trim_cache, unlimited) (valid, Serves-refl s, refl)
  | inr limited ↦ rw (trim_cache, limited) (trim_loop-Follows _ s pending valid)
]
