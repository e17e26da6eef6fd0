-- ===== src/Memory/Allocator/Shape/Retag.antt =====
-- The geometry does not depend on who uses a block, and a new segment and a removed one keep it.
use xsigma.Common.{
  ℕ, ◌+◌, ◌^◌, ◌<◌, ◌≡◌, ◌≢◌, refl, sym, ap, ◌∙◌, subst, Bool, false, none, some, some_inj, arith,
  ℕ_discrete, dec_lt,
}
use xsigma.Memory.Allocator.{CacheBlock, Heap, write, is_split, RawSegment}
use xsigma.Memory.Allocator.Entry.{segment_block}
use xsigma.Memory.Allocator.Shape.{Apart, Joins, Shape, Keeps}
use xsigma.Memory.Allocator.Shape.Absorb.{
  none-some, write-cases, write_other, write_same, Apart-sym,
}

-- The same place in the same segment.
pub record SamePlace (b c : CacheBlock) : Type 0 where
  pub ptr : b.ptr ≡ c.ptr
  pub size : b.size ≡ c.size
  pub prev : b.prev ≡ c.prev
  pub next : b.next ≡ c.next
  pub is_small : b.is_small ≡ c.is_small
  pub stream : b.stream ≡ c.stream
  pub segment_base : b.segment_base ≡ c.segment_base

module _ {h : Heap} {n : ℕ} (shape : Shape h n) where
  present : (i : ℕ) (x : CacheBlock) → h i ≡ some x → i < n
  present i x at = elim (dec_lt i n) [
    | yes lt ↦ lt
    | no ge ↦ absurd (none-some (sym (shape.fresh i (omega (arith, ge))) ∙ at))
  ]

  module _ (id : ℕ) (b c : CacheBlock) (at : h id ≡ some b) (same : SamePlace c b) where
    abbrev retagged : Heap
    retagged = write h id (some c)

    -- Every block stands where an old one stood.
    old_of :
        (i : ℕ) (x : CacheBlock)
        → retagged i ≡ some x
        → (y : CacheBlock) × (h i ≡ some y) × SamePlace x y
    old_of i x e =
        write-cases h id (some c) i x e
          (λ ei q. (b, ap h ei ∙ at, subst (λ z. SamePlace z b) (some_inj q) same))
          (λ ne q. (
            x,
            q,
            record {
              ptr = refl;
              size = refl;
              prev = refl;
              next = refl;
              is_small = refl;
              stream = refl;
              segment_base = refl;
            },
          ))

    new_of :
        (i : ℕ) (y : CacheBlock)
        → h i ≡ some y
        → (x : CacheBlock) × (retagged i ≡ some x) × SamePlace x y
    new_of i y e = elim (ℕ_discrete i id) [
      | yes ei ↦ (
        c,
        ap retagged ei ∙ write_same h id (some c),
        subst (λ z. SamePlace c z) (some_inj (sym at ∙ (ap h (sym ei) ∙ e))) same,
      )
      | no ne ↦ (
        y,
        write_other h id (some c) i ne ∙ e,
        record {
          ptr = refl;
          size = refl;
          prev = refl;
          next = refl;
          is_small = refl;
          stream = refl;
          segment_base = refl;
        },
      )
    ]

    Joins-of : (x y z w : CacheBlock) → SamePlace x z → SamePlace y w → Joins z w → Joins x y
    Joins-of x y z w p q j = record {
      adjacent = omega (arith, j.adjacent, p.ptr, p.size, q.ptr);
      same_pool = p.is_small ∙ (j.same_pool ∙ sym q.is_small);
      same_stream = p.stream ∙ (j.same_stream ∙ sym q.stream);
      same_segment = p.segment_base ∙ (j.same_segment ∙ sym q.segment_base);
    }

    pub retag-Shape : Shape retagged n
    retag-Shape = record {
      fresh = λ i le.
          write_other h id (some c) i (λ e. absurd (omega (arith, present id b at)))
          ∙ shape.fresh i le;
      sized = λ i x e.
          let (y, at_y, p) = old_of i x e in omega (arith, shape.sized i y at_y, p.ptr, p.size);
      apart = λ i j x y ne e f.
          let (z, at_z, p) = old_of i x e in
          let (w, at_w, q) = old_of j y f in
          ground (arith, shape.apart i j z w ne at_z at_w, p.ptr, p.size, q.ptr, q.size);
      next_ok = λ i j x e l.
          let (y, at_y, p) = old_of i x e in
          let (z, at_z, lz, jz) = shape.next_ok i j y at_y (sym p.next ∙ l) in
          let (w, at_w, q) = new_of j z at_z in (w, at_w, q.prev ∙ lz, Joins-of x w y z p q jz);
      prev_ok = λ i j x e l.
          let (y, at_y, p) = old_of i x e in
          let (z, at_z, lz, jz) = shape.prev_ok i j y at_y (sym p.prev ∙ l) in
          let (w, at_w, q) = new_of j z at_z in (w, at_w, q.next ∙ lz, Joins-of w x z y q p jz);
    }

    pub retag-Keeps : b.allocated ≡ false → Keeps h retagged
    retag-Keeps free i x at_x live =
        let ne : i ≢ id = λ e. absurd (
          ground (
            arith,
            sym live ∙ (ap (λ z. z.allocated) (some_inj (sym at_x ∙ (ap h e ∙ at))) ∙ free),
          )) in
        (x, write_other h id (some c) i ne ∙ at_x, refl, refl, live)

  -- A segment that the driver gives out.
  module _ (raw : RawSegment) (stream : ℕ) (is_small : Bool) (counter : ℕ) (pos : 0 < raw.size)
      (ends : raw.ptr + raw.size < 2 ^ 64)
      (unused : (i : ℕ) (b : CacheBlock)
        → h i ≡ some b
        → Apart (segment_block raw stream is_small counter) b) where
    abbrev new_block : CacheBlock
    new_block = segment_block raw stream is_small counter

    abbrev grown : Heap
    grown = write h n (some new_block)

    old_link : (j : ℕ) (z : CacheBlock) → h j ≡ some z → grown j ≡ some z
    old_link j z at =
        write_other h n (some new_block) j (λ e. absurd (omega (arith, present j z at))) ∙ at

    pub grow-Shape : Shape grown (n + 1)
    grow-Shape = record {
      fresh = λ i le.
          write_other h n (some new_block) i (λ e. absurd (omega arith))
          ∙ shape.fresh i (omega arith);
      sized = λ i x e.
          write-cases h n (some new_block) i x e
            (λ _ q. subst (λ z. (0 < z.size) × (z.ptr + z.size < 2 ^ 64)) (some_inj q) (pos, ends))
            (λ _ q. shape.sized i x q);
      apart = λ i j x y ne e f.
          write-cases h n (some new_block) i x e
            (λ ei q.
              write-cases h n (some new_block) j y f (λ ej _. absurd (ne (ei ∙ sym ej)))
                (λ _ w. subst (λ z. Apart z y) (some_inj q) (unused j y w)))
            (λ _ q.
              write-cases h n (some new_block) j y f
                (λ _ w. subst (λ z. Apart x z) (some_inj w) (Apart-sym new_block x (unused i x q)))
                (λ _ w. shape.apart i j x y ne q w));
      next_ok = λ i j x e l.
          write-cases h n (some new_block) i x e
            (λ _ q. absurd (none-some (ap (λ z. z.next) (some_inj q) ∙ l)))
            (λ _ q. let (z, at, lz, jz) = shape.next_ok i j x q l in (z, old_link j z at, lz, jz));
      prev_ok = λ i j x e l.
          write-cases h n (some new_block) i x e
            (λ _ q. absurd (none-some (ap (λ z. z.prev) (some_inj q) ∙ l)))
            (λ _ q. let (z, at, lz, jz) = shape.prev_ok i j x q l in (z, old_link j z at, lz, jz));
    }

    pub grow-Keeps : Keeps h grown
    grow-Keeps i x at live = (x, old_link i x at, refl, refl, live)

  -- A whole segment that goes back to the driver.
  module _ (id : ℕ) (b : CacheBlock) (at : h id ≡ some b) (whole : is_split b ≡ false) where
    abbrev shrunk : Heap
    shrunk = write h id none

    no_prev : (j : ℕ) → b.prev ≢ some j
    no_prev j e = absurd (ground (arith, e, whole))

    no_next : (j : ℕ) → b.next ≢ some j
    no_next j e = absurd (ground (arith, e, whole))

    old : (i : ℕ) (x : CacheBlock) → shrunk i ≡ some x → h i ≡ some x
    old i x e = write-cases h id none i x e (λ _ q. absurd (none-some q)) (λ _ q. q)

    pub shrink-Shape : Shape shrunk n
    shrink-Shape = record {
      fresh = λ i le.
          write_other h id none i (λ e. absurd (omega (arith, present id b at))) ∙ shape.fresh i le;
      sized = λ i x e. shape.sized i x (old i x e);
      apart = λ i j x y ne e f. shape.apart i j x y ne (old i x e) (old j y f);
      next_ok = λ i j x e l.
          let (z, at_z, lz, jz) = shape.next_ok i j x (old i x e) l in
          let ne : j ≢ id =
            λ s. no_prev i (ap (λ w. w.prev) (some_inj (sym at ∙ (ap h (sym s) ∙ at_z))) ∙ lz) in
          (z, write_other h id none j ne ∙ at_z, lz, jz);
      prev_ok = λ i j x e l.
          let (z, at_z, lz, jz) = shape.prev_ok i j x (old i x e) l in
          let ne : j ≢ id =
            λ s. no_next i (ap (λ w. w.next) (some_inj (sym at ∙ (ap h (sym s) ∙ at_z))) ∙ lz) in
          (z, write_other h id none j ne ∙ at_z, lz, jz);
    }
