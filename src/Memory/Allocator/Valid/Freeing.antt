-- ===== src/Memory/Allocator/Valid/Freeing.antt =====
-- `free_block` leads from valid states to valid states.
use xsigma.Common.{
  ℕ, ◌+◌, ◌-◌, ◌≤◌, ◌≡◌, inl, inr, refl, sym, ap, ◌∙◌, subst, Bool, true, false, not, ◌&&◌, none,
  some, some_inj, List, ◌==◌, arith, if◌then◌else◌, Bool-cases, ℕ_discrete, count, to_nat,
}
use xsigma.Memory.Allocator.{CacheBlock, Heap, Impl, pool_of, find_live, erase_live}
use xsigma.Memory.Allocator.Pools.{rank_of, insert_block, erase_block}
use xsigma.Memory.Allocator.Merge.{is_idle, is_nil, replace_pair, free_block, pool_block}
use xsigma.Memory.Allocator.Usage.{use_of, same_class, places, events_of, Settled}
use xsigma.Memory.Allocator.Shape.{Shape, Keeps}
use xsigma.Memory.Allocator.Shape.Absorb.{none-some}
use xsigma.Memory.Allocator.Shape.Free.{Effect, nothing, joined, free_block-Steps}
use xsigma.Memory.Allocator.Valid.{
  IsValid, count-erase_block, count-insert_block, pool_of-with_pool, pool_of_here, pool_of_other,
  pool_of-same_class, live-Keeps,
}

-- A merge takes nothing but the absorbed block out of a pool.
Effect-pool_of :
    (s t : Impl)
    → Effect s t
    → (small : Bool) (i : ℕ) → count i (pool_of t small) ≤ count i (pool_of s small)
Effect-pool_of s t (nothing e) small i = omega (arith, ap (λ x. count i (pool_of x small)) e)
Effect-pool_of s t (joined linked id src m c at_src idle same e uses gone) small i =
    subst (λ x. count i (pool_of x small) ≤ count i (pool_of s small)) (sym e)
      (ground (
        arith,
        ap (count i)
            (pool_of-with_pool s m.is_small small (erase_block src (pool_of s m.is_small))),
        count-erase_block i src (pool_of s m.is_small),
        same_pool,
      ))
  where
    same_pool :
        same_class m.is_small small ≡ true
        → count i (pool_of s m.is_small) ≡ count i (pool_of s small)
    same_pool h = ap (count i) (pool_of-same_class s m.is_small small h)

idle-places :
    (c : CacheBlock) (small : Bool)
    → is_idle c ≡ true
    → places (use_of (some c)) small ≡ (if same_class c.is_small small then 1 else 0)
idle-places c small idle = ground (arith, idle)

idle-events_of : (c : CacheBlock) → is_idle c ≡ true → events_of (use_of (some c)) ≡ 0
idle-events_of c idle = ground (arith, idle)

-- The pools after a merge.
joined-pooled :
    (s t : Impl) (pending : List ℕ) (linked : Heap) (id src : ℕ) (m c : CacheBlock)
    → IsValid s pending
    → s.heap src ≡ some c
    → is_idle c ≡ true
    → c.is_small ≡ m.is_small
    → t ≡ replace_pair s linked id m src
    → (small : Bool) → count src (pool_of t small) ≤ 0
joined-pooled s t pending linked id src m c valid at_src idle same e small =
    subst (λ x. count src (pool_of x small) ≤ 0) (sym e)
      (elim (Bool-cases (same_class m.is_small small)) [
        | inl here ↦ omega (
          arith,
          pool_here here,
          erased,
          in_pool,
          ap (count src) (pool_of-same_class s m.is_small small here),
          at_most_one,
        )
        | inr other ↦ omega (arith, pool_other other, in_pool, none_there other)
      ])
  where
    pool_here :
        same_class m.is_small small ≡ true
        → count src (pool_of (replace_pair s linked id m src) small)
          ≡ count src (erase_block src (pool_of s m.is_small))
    pool_here here =
        ap (count src)
          (pool_of-with_pool s m.is_small small (erase_block src (pool_of s m.is_small)))
        ∙ rw here refl

    pool_other :
        same_class m.is_small small ≡ false
        → count src (pool_of (replace_pair s linked id m src) small) ≡ count src (pool_of s small)
    pool_other other =
        ap (count src)
          (pool_of-with_pool s m.is_small small (erase_block src (pool_of s m.is_small)))
        ∙ rw other refl

    in_pool : count src (pool_of s small) ≤ places (use_of (some c)) small
    in_pool =
        subst (λ x. count src (pool_of s small) ≤ places (use_of x) small) at_src
          (valid.pooled small src)

    at_most_one : places (use_of (some c)) small ≤ 1
    at_most_one = ground arith

    none_there : same_class m.is_small small ≡ false → places (use_of (some c)) small ≡ 0
    none_there other = idle-places c small idle ∙ rw (same, other) refl

    erased :
        count src (erase_block src (pool_of s m.is_small)) ≡ count src (pool_of s m.is_small) - 1
    erased = ground (arith, count-erase_block src src (pool_of s m.is_small))

Effect-IsValid :
    (s t : Impl) (pending : List ℕ)
    → Effect s t
    → Shape t.heap t.next_block
    → Keeps s.heap t.heap
    → IsValid s pending
    → IsValid t pending
Effect-IsValid s t pending (nothing e) shape keeps valid =
    subst (λ x. IsValid x pending) (sym e) valid
Effect-IsValid s t pending (joined linked id src m c at_src idle same e uses gone) shape keeps
      valid =
    record {
      shape = shape;
      pooled = λ small i. elim (ℕ_discrete i src) [
        | yes q ↦ omega (
          arith,
          subst (λ k. count k (pool_of t small) ≤ 0) (sym q)
              (joined-pooled s t pending linked id src m c valid at_src idle same e small),
        )
        | no ne ↦ omega (
          arith,
          Effect-pool_of s t (joined linked id src m c at_src idle same e uses gone) small i,
          valid.pooled small i,
          ap (λ u. places u small) (uses i ne),
        )
      ];
      awaited = λ i. elim (ℕ_discrete i src) [
        | yes q ↦
            valid.awaited i
            ∙ (ap (λ k. events_of (use_of (s.heap k))) q
                ∙ (ap (λ x. events_of (use_of x)) at_src
                    ∙ (idle-events_of c idle
                        ∙ sym (
                            ap (λ k. events_of (use_of (t.heap k))) q
                            ∙ ap (λ x. events_of (use_of x)) gone))))
        | no ne ↦ valid.awaited i ∙ sym (ap events_of (uses i ne))
      ];
      settled = λ i. elim (ℕ_discrete i src) [
        | yes q ↦ subst (λ x. Settled (use_of x)) (sym (ap t.heap q ∙ gone)) tt
        | no ne ↦ subst Settled (sym (uses i ne)) (valid.settled i)
      ];
      live = live_after;
      single = single_after;
    }
  where
    same_map : t.allocated_blocks ≡ s.allocated_blocks
    same_map = ap (λ x. x.allocated_blocks) e

    live_after :
        (p i : ℕ)
        → find_live p t.allocated_blocks ≡ some i
        → (b : CacheBlock) × (t.heap i ≡ some b) × (b.allocated ≡ true) × (b.ptr ≡ p)
    live_after p i f =
        live-Keeps s.heap t.heap s.allocated_blocks keeps valid.live p i
          (ap (find_live p) (sym same_map) ∙ f)

    single_after : (p : ℕ) → find_live p (erase_live p t.allocated_blocks) ≡ none
    single_after p =
        subst (λ es. find_live p (erase_live p es) ≡ none) (sym same_map) (valid.single p)

Effect-use_of :
    (s t : Impl) (id : ℕ) (x : CacheBlock)
    → Effect s t
    → t.heap id ≡ some x
    → use_of (t.heap id) ≡ use_of (s.heap id)
Effect-use_of s t id x (nothing e) at = ap (λ z. use_of (z.heap id)) e
Effect-use_of s t id x (joined linked dst src m c at_src idle same e uses gone) at =
    uses id (λ q. none-some (sym gone ∙ (ap t.heap (sym q) ∙ at)))

Effect-live : (s t : Impl) → Effect s t → t.allocated_blocks ≡ s.allocated_blocks
Effect-live s t (nothing e) = ap (λ z. z.allocated_blocks) e
Effect-live s t (joined linked dst src m c at_src idle same e uses gone) =
    ap (λ z. z.allocated_blocks) e

Effect-events : (s t : Impl) → Effect s t → t.cuda_events ≡ s.cuda_events
Effect-events s t (nothing e) = ap (λ z. z.cuda_events) e
Effect-events s t (joined linked dst src m c at_src idle same e uses gone) =
    ap (λ z. z.cuda_events) e

pool_block-IsValid :
    (s : Impl) (id : ℕ) (b : CacheBlock) (freed_size : ℕ) (pending : List ℕ)
    → IsValid s pending
    → s.heap id ≡ some b
    → is_idle b ≡ true
    → ((small : Bool) → count id (pool_of s small) ≡ 0)
    → IsValid (pool_block s id b freed_size) pending
unfolding pool_block
pool_block-IsValid s id b freed_size pending valid at idle absent = record {
  shape = valid.shape;
  pooled = pooled_after;
  awaited = valid.awaited;
  settled = valid.settled;
  live = valid.live;
  single = valid.single;
}
  where
    entered : List ℕ
    entered = insert_block s.heap (rank_of b) id (pool_of s b.is_small)

    after : Impl
    after = pool_block s id b freed_size

    grown :
        (small : Bool) (i : ℕ)
        → same_class b.is_small small ≡ true
        → count i (pool_of after small) ≤ count i (pool_of s small) + to_nat (i == id)
    grown small i here = omega (
      arith,
      ap (count i) (pool_of_here s b.is_small small entered here),
      count-insert_block s.heap (rank_of b) i id (pool_of s b.is_small),
      ap (count i) (pool_of-same_class s b.is_small small here),
    )

    kept :
        (small : Bool) (i : ℕ)
        → same_class b.is_small small ≡ false
        → count i (pool_of after small) ≡ count i (pool_of s small)
    kept small i other = ap (count i) (pool_of_other s b.is_small small entered other)

    slot :
        (small : Bool)
        → places (use_of (s.heap id)) small ≡ (if same_class b.is_small small then 1 else 0)
    slot small = ap (λ x. places (use_of x) small) at ∙ idle-places b small idle

    pooled_after :
        (small : Bool) (i : ℕ) → count i (pool_of after small) ≤ places (use_of (s.heap i)) small
    pooled_after small i = elim (Bool-cases (same_class b.is_small small)) [
      | inr other ↦ omega (arith, kept small i other, valid.pooled small i)
      | inl here ↦ elim (ℕ_discrete i id) [
        | yes q ↦
            subst (λ k. count k (pool_of after small) ≤ places (use_of (s.heap k)) small) (sym q)
              (ground (arith, grown small id here, slot small, absent small, here))
        | no ne ↦ ground (arith, grown small i here, valid.pooled small i, ne)
      ]
    ]

same_use-idle : (x b : CacheBlock) → use_of (some x) ≡ use_of (some b) → is_idle x ≡ is_idle b
same_use-idle x b e =
    ap (λ u. not u.allocated && (u.event_count == 0 && is_nil u.stream_uses)) (some_inj e)

-- In a valid state, `free_block` on a block that is not in use and in no pool ends without a fault, in a valid
-- state with the same events and the same live allocations, each where it was, as large as it was.
pub free_block-IsValid :
    (s : Impl) (id : ℕ) (b : CacheBlock) (pending : List ℕ)
    → IsValid s pending
    → s.heap id ≡ some b
    → is_idle b ≡ true
    → ((small : Bool) → count id (pool_of s small) ≡ 0)
    → (t : Impl) × (free_block s id ≡ some t)
      × IsValid t pending
      × (t.allocated_blocks ≡ s.allocated_blocks)
      × (t.cuda_events ≡ s.cuda_events)
      × Keeps s.heap t.heap
unfolding pool_block
free_block-IsValid s id b pending valid at idle absent =
    let free : b.allocated ≡ false = ground (arith, idle) in
    let steps = free_block-Steps s id b valid.shape at free in
    let t = steps.between in
    let u = steps.merged in
    let valid_t =
      Effect-IsValid s t pending steps.first steps.first_freed.shape steps.first_freed.keeps
        valid in
    let valid_u =
      Effect-IsValid t u pending steps.second steps.freed.shape steps.second_keeps valid_t in
    let (x, at_x, _) = steps.first_freed.is_free in
    let same_use =
      sym (ap use_of steps.at)
      ∙ (Effect-use_of t u id steps.block steps.second steps.at
          ∙ (Effect-use_of s t id x steps.first at_x ∙ ap use_of at)) in
    let gone : (small : Bool) → count id (pool_of u small) ≡ 0 = λ small. omega (
      arith,
      Effect-pool_of t u steps.second small id,
      Effect-pool_of s t steps.first small id,
      absent small,
    ) in
    (
      pool_block u id steps.block b.size,
      steps.result,
      pool_block-IsValid u id steps.block b.size pending valid_u steps.at
          (same_use-idle steps.block b same_use ∙ idle) gone,
      Effect-live t u steps.second ∙ Effect-live s t steps.first,
      Effect-events t u steps.second ∙ Effect-events s t steps.first,
      steps.freed.keeps,
    )
