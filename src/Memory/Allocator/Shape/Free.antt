-- ===== src/Memory/Allocator/Shape/Free.antt =====
-- `free_block` keeps the geometry and never meets a dangling pointer.
use xsigma.Common.{
  ℕ, ◌+◌, ◌≡◌, ◌≢◌, inl, inr, refl, sym, ◌∙◌, subst, true, false, Option, none, some, some_inj,
  arith, ==_iff, Bool-cases,
}
use xsigma.Memory.Allocator.{CacheBlock, Heap, Impl}
use xsigma.Memory.Allocator.Merge.{
  points_to, is_idle, absorb_prev, absorb_next, merge_blocks, try_merge, merge_next, finish_free,
  free_block, pool_block, replace_pair,
}
use xsigma.Memory.Allocator.Split.{set_next, set_prev}
use xsigma.Memory.Allocator.Usage.{use_of}
use xsigma.Memory.Allocator.Shape.{Shape, Keeps}
use xsigma.Memory.Allocator.Shape.Absorb.{points_to_eq}
use xsigma.Memory.Allocator.Shape.Prev
use xsigma.Memory.Allocator.Shape.Next

-- What a step on the free block `id` promises.
pub record Freed (s : Impl) (id : ℕ) (t : Impl) : Type 0 where
  pub shape : Shape t.heap t.next_block
  pub is_free : (b : CacheBlock) × (t.heap id ≡ some b) × (b.allocated ≡ false)
  pub keeps : Keeps s.heap t.heap

-- What a merge does to the pools and to the use of the blocks.
pub data Effect (s t : Impl) : Type 0 where
  nothing : t ≡ s → Effect s t
  joined :
      (linked : Heap) (id src : ℕ) (m c : CacheBlock)
      → s.heap src ≡ some c
      → is_idle c ≡ true
      → c.is_small ≡ m.is_small
      → t ≡ replace_pair s linked id m src
      → ((i : ℕ) → i ≢ src → use_of (t.heap i) ≡ use_of (s.heap i))
      → t.heap src ≡ none
      → Effect s t

Keeps-refl : (h : Heap) → Keeps h h
Keeps-refl h i b at live = (b, at, refl, refl, live)

pub Keeps-trans : (h k l : Heap) → Keeps h k → Keeps k l → Keeps h l
Keeps-trans h k l f g i b at live =
    let (c, at_c, ptr, size, live_c) = f i b at live in
    let (d, at_d, ptr', size', live_d) = g i c at_c live_c in
    (d, at_d, ptr' ∙ ptr, size' ∙ size, live_d)

idle_free : (b : CacheBlock) → is_idle b ≡ true → b.allocated ≡ false
idle_free b h = ground arith

module _ (s : Impl) (shape : Shape s.heap s.next_block) (id : ℕ) (b : CacheBlock)
    (at : s.heap id ≡ some b) (free : b.allocated ≡ false) where
  module _ (src : ℕ) (c : CacheBlock) (at_src : s.heap src ≡ some c) where
    prev_edge : b.prev ≡ some src → c.ptr + c.size ≡ b.ptr
    prev_edge link =
        let (d, at_d, _, j) = shape.prev_ok id src b at link in
        subst (λ x. x.ptr + x.size ≡ b.ptr) (some_inj (sym at_d ∙ at_src)) j.adjacent

    next_edge : b.next ≡ some src → b.ptr + b.size ≡ c.ptr
    next_edge link =
        let (d, at_d, _, j) = shape.next_ok id src b at link in
        subst (λ x. b.ptr + b.size ≡ x.ptr) (some_inj (sym at_d ∙ at_src)) j.adjacent

    prev_class : b.prev ≡ some src → c.is_small ≡ b.is_small
    prev_class link =
        let (d, at_d, _, j) = shape.prev_ok id src b at link in
        subst (λ x. x.is_small ≡ b.is_small) (some_inj (sym at_d ∙ at_src)) j.same_pool

    next_class : b.next ≡ some src → c.is_small ≡ b.is_small
    next_class link =
        let (d, at_d, _, j) = shape.next_ok id src b at link in
        sym (subst (λ x. b.is_small ≡ x.is_small) (some_inj (sym at_d ∙ at_src)) j.same_pool)

    merge_blocks_lem : (t : Impl) × (merge_blocks s id b src c ≡ some t) × Freed s id t × Effect s t
    unfolding merge_blocks
    merge_blocks_lem = elim (Bool-cases (is_idle c)) [
      | inr busy ↦ (
        s,
        rw busy refl,
        record { shape = shape; is_free = (b, at, free); keeps = Keeps-refl s.heap },
        nothing refl,
      )
      | inl idle ↦ elim (Bool-cases (points_to b.prev src)) [
        | inl before ↦
            let link = points_to_eq b.prev src before in
            let adjacent = (==_iff (c.ptr + c.size) b.ptr).1 (prev_edge link) in
            (
              replace_pair s (set_next s.heap c.prev (some id)) id (absorb_prev b c) src,
              rw (idle, before, adjacent) refl,
              record {
                shape = Prev.absorb_prev-Shape shape id src b c at at_src link;
                is_free = (absorb_prev b c, Prev.lookup_dst shape id src b c at at_src link, free);
                keeps =
                    Prev.absorb_prev-Keeps shape id src b c at at_src link free (idle_free c idle);
              },
              joined (set_next s.heap c.prev (some id)) id src (absorb_prev b c) c at_src idle
                  (prev_class link) refl (Prev.use_of-absorb_prev shape id src b c at at_src link)
                  (Prev.absorb_prev_gone shape id src b c at at_src link),
            )
        | inr no_prev ↦ elim (Bool-cases (points_to b.next src)) [
          | inl behind ↦
              let link = points_to_eq b.next src behind in
              let adjacent = (==_iff (b.ptr + b.size) c.ptr).1 (next_edge link) in
              (
                replace_pair s (set_prev s.heap c.next (some id)) id (absorb_next b c) src,
                rw (idle, no_prev, behind, adjacent) refl,
                record {
                  shape = Next.absorb_next-Shape shape id src b c at at_src link;
                  is_free =
                      (absorb_next b c, Next.lookup_dst shape id src b c at at_src link, free);
                  keeps =
                      Next.absorb_next-Keeps shape id src b c at at_src link free
                        (idle_free c idle);
                },
                joined (set_prev s.heap c.next (some id)) id src (absorb_next b c) c at_src idle
                    (next_class link) refl (Next.use_of-absorb_next shape id src b c at at_src link)
                    (Next.absorb_next_gone shape id src b c at at_src link),
              )
          | inr no_next ↦ (
            s,
            rw (idle, no_prev, no_next) refl,
            record { shape = shape; is_free = (b, at, free); keeps = Keeps-refl s.heap },
            nothing refl,
          )
        ]
      ]
    ]

  try_merge_lem :
      (o : Option ℕ)
      → ((i : ℕ) → o ≡ some i → (c : CacheBlock) × (s.heap i ≡ some c))
      → (t : Impl) × (try_merge s id b o ≡ some t) × Freed s id t × Effect s t
  unfolding try_merge
  try_merge_lem none there = (
    s,
    refl,
    record { shape = shape; is_free = (b, at, free); keeps = Keeps-refl s.heap },
    nothing refl,
  )
  try_merge_lem (some src) there =
      let (c, at_src) = there src refl in
      let (t, e, freed, effect) = merge_blocks_lem src c at_src in
      (t, rw (try_merge, at_src) e, freed, effect)

merge_next_lem :
    (s : Impl) (id : ℕ)
    → Freed s id s
    → (t : Impl) × (merge_next id (some s) ≡ some t) × Freed s id t × Effect s t
unfolding merge_next
merge_next_lem s id freed =
    let (b, at, free) = freed.is_free in
    let (t, e, freed', effect) =
      try_merge_lem s freed.shape id b at free b.next
        (λ i l. let (c, at_c, _, _) = freed.shape.next_ok id i b at l in (c, at_c)) in
    (t, rw (merge_next, at) e, freed', effect)

Freed-again : {s t : Impl} {id : ℕ} → Freed s id t → Freed t id t
Freed-again {t = t} f = record { shape = f.shape; is_free = f.is_free; keeps = Keeps-refl t.heap }

Freed-then : {s t u : Impl} {id : ℕ} → Freed s id t → Freed t id u → Freed s id u
Freed-then {s} {t} {u} f g = record {
  shape = g.shape;
  is_free = g.is_free;
  keeps = Keeps-trans s.heap t.heap u.heap f.keeps g.keeps;
}

-- The merges of `free_block`, and the block that enters its pool behind them.
pub record Steps (s : Impl) (id freed_size : ℕ) : Type 0 where
  pub between : Impl
  pub merged : Impl
  pub block : CacheBlock
  pub at : merged.heap id ≡ some block
  pub first : Effect s between
  pub second : Effect between merged
  pub first_freed : Freed s id between
  pub second_keeps : Keeps between.heap merged.heap
  pub freed : Freed s id merged
  pub result : free_block s id ≡ some (pool_block merged id block freed_size)

pub free_block-Steps :
    (s : Impl) (id : ℕ) (b : CacheBlock)
    → Shape s.heap s.next_block
    → s.heap id ≡ some b
    → b.allocated ≡ false
    → Steps s id b.size
unfolding free_block finish_free
free_block-Steps s id b shape at free =
    let (t, e, f, effect) =
      try_merge_lem s shape id b at free b.prev
        (λ i l. let (c, at_c, _, _) = shape.prev_ok id i b at l in (c, at_c)) in
    let (u, e', f', effect') = merge_next_lem t id (Freed-again f) in
    let (c, at_c, _) = f'.is_free in
    record {
      between = t;
      merged = u;
      block = c;
      at = at_c;
      first = effect;
      second = effect';
      first_freed = f;
      second_keeps = f'.keeps;
      freed = Freed-then f f';
      result = rw (free_block, at, e, e', finish_free, at_c) refl;
    }

-- In a state whose blocks do not overlap, whose links join neighbours, and where the block `id` is not
-- allocated, `free_block` ends without a fault: it reads no dangling pointer, and the two blocks that it
-- merges are adjacent. The geometry holds again, and each allocated block is where it was, as large as it was.
pub free_block-Freed :
    (s : Impl) (id : ℕ) (b : CacheBlock)
    → Shape s.heap s.next_block
    → s.heap id ≡ some b
    → b.allocated ≡ false
    → (t : Impl) × (free_block s id ≡ some t) × Freed s id t
unfolding pool_block
free_block-Freed s id b shape at free =
    let steps = free_block-Steps s id b shape at free in
    (
      pool_block steps.merged id steps.block b.size,
      steps.result,
      record {
        shape = steps.freed.shape;
        is_free = steps.freed.is_free;
        keeps = steps.freed.keeps;
      },
    )
