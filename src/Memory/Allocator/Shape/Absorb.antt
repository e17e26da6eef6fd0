-- ===== src/Memory/Allocator/Shape/Absorb.antt =====
-- A merge keeps the geometry.
use xsigma.Common.{
  ℕ, ◌+◌, ◌^◌, ◌≤◌, ◌<◌, ◌≡◌, ◌≢◌, inl, inr, refl, sym, ap, ◌∙◌, subst, true, false, Option, none,
  some, some_inj, arith, ◌==◌, ==_iff, Bool-cases, ℕ_discrete,
}
use xsigma.Memory.Allocator.{CacheBlock, Heap, write}
use xsigma.Memory.Allocator.Merge.{points_to}
use xsigma.Memory.Allocator.Usage.{use_of}
use xsigma.Memory.Allocator.Shape.{Apart, Shape, Keeps}

pub none-some {ℓ} : {A : Type ℓ} {a : A} → none ≡ some a → ⊥
none-some e = cc

pub points_to_eq : (o : Option ℕ) (i : ℕ) → points_to o i ≡ true → o ≡ some i
points_to_eq none i h = cc
points_to_eq (some j) i h = ap some ((==_iff j i).0 h)

pub points_to_ne : (o : Option ℕ) (i : ℕ) → points_to o i ≡ false → o ≢ some i
points_to_ne none i h e = cc
points_to_ne (some j) i h e = ground (arith, some_inj e)

-- What a lookup in a heap gives after a write.
pub write-cases {ℓ} :
    {P : Type ℓ} (h : Heap) (id : ℕ) (o : Option CacheBlock) (i : ℕ) (x : CacheBlock)
    → write h id o i ≡ some x
    → (i ≡ id → o ≡ some x → P)
    → (i ≢ id → h i ≡ some x → P)
    → P
write-cases h id o i x e here there = elim (Bool-cases (i == id)) [
  | inl same ↦ here ((==_iff i id).0 same) (rw same at e)
  | inr other ↦ there (λ q. absurd (ground (arith, q, other))) (rw other at e)
]

pub write_other :
    (h : Heap) (id : ℕ) (o : Option CacheBlock) (i : ℕ) → i ≢ id → write h id o i ≡ h i
write_other h id o i ne = elim (Bool-cases (i == id)) [
  | inl same ↦ absurd (ne ((==_iff i id).0 same))
  | inr other ↦ rw other refl
]

pub write_same : (h : Heap) (id : ℕ) (o : Option CacheBlock) → write h id o id ≡ o
write_same h id o = ground arith

-- A heap in which the link of at most one block has changed.
module _ (h : Heap) (neighbour : Option ℕ) (patch : CacheBlock → CacheBlock) where
  pub record Relinks (linked : Heap) : Type 0 where
    pub elsewhere : (i : ℕ) → neighbour ≢ some i → linked i ≡ h i
    pub there :
        (i : ℕ) (y : CacheBlock) → neighbour ≡ some i → h i ≡ some y → linked i ≡ some (patch y)

  module _ (dst src : ℕ) (m : CacheBlock) where
    -- What a block of the heap after a merge is: the merged one, the neighbour, or an old one.
    pub data View (i : ℕ) (x : CacheBlock) : Type 0 where
      united : i ≡ dst → x ≡ m → View i x
      patched :
          (y : CacheBlock)
          → i ≢ dst
          → i ≢ src
          → neighbour ≡ some i
          → h i ≡ some y
          → x ≡ patch y
          → View i x
      kept : i ≢ dst → i ≢ src → neighbour ≢ some i → h i ≡ some x → View i x

    abbrev pub after : Heap → Heap
    after linked = write (write linked dst (some m)) src none

    module _ {linked : Heap} (r : Relinks linked)
        (neighbour_in : (i : ℕ) → neighbour ≡ some i → (y : CacheBlock) × (h i ≡ some y)) where
      pub to_View : (i : ℕ) (x : CacheBlock) → after linked i ≡ some x → View i x
      to_View i x e =
          write-cases (write linked dst (some m)) src none i x e (λ same q. absurd (none-some q))
            (λ ne_src q.
              write-cases linked dst (some m) i x q (λ same w. united same (sym (some_inj w)))
                (λ ne_dst w. elim (Bool-cases (points_to neighbour i)) [
                  | inl here ↦
                      let p = points_to_eq neighbour i here in
                      let (y, at) = neighbour_in i p in
                      patched y ne_dst ne_src p at (some_inj (sym w ∙ r.there i y p at))
                  | inr away ↦
                      let ne = points_to_ne neighbour i away in
                      kept ne_dst ne_src ne (sym (r.elsewhere i ne) ∙ w)
                ]))

      pub after_dst : dst ≢ src → after linked dst ≡ some m
      after_dst ne =
          write_other (write linked dst (some m)) src none dst ne ∙ write_same linked dst (some m)

      pub after_linked : (i : ℕ) → i ≢ dst → i ≢ src → after linked i ≡ linked i
      after_linked i ne_dst ne_src =
          write_other (write linked dst (some m)) src none i ne_src
          ∙ write_other linked dst (some m) i ne_dst

-- A patch leaves a block where it is.
pub record Stays (patch : CacheBlock → CacheBlock) : Type 0 where
  pub ptr : (y : CacheBlock) → (patch y).ptr ≡ y.ptr
  pub size : (y : CacheBlock) → (patch y).size ≡ y.size
  pub allocated : (y : CacheBlock) → (patch y).allocated ≡ y.allocated
  pub usage : (y : CacheBlock) → use_of (some (patch y)) ≡ use_of (some y)

pub Apart-sym : (b c : CacheBlock) → Apart b c → Apart c b
Apart-sym b c (inl h) = inr h
Apart-sym b c (inr h) = inl h

module _ {h : Heap} {n : ℕ} (shape : Shape h n) (neighbour : Option ℕ)
    (patch : CacheBlock → CacheBlock) (stays : Stays patch) (dst src : ℕ) (b c m : CacheBlock)
    (at_dst : h dst ≡ some b) (at_src : h src ≡ some c) {linked : Heap}
    (r : Relinks h neighbour patch linked)
    (neighbour_in : (i : ℕ) → neighbour ≡ some i → (y : CacheBlock) × (h i ≡ some y)) where
  pub fresh_after : (i : ℕ) → n ≤ i → after h neighbour patch dst src m linked i ≡ none
  fresh_after i le =
      let absent = shape.fresh i le in
      let ne_dst : i ≢ dst = λ e. none-some (sym absent ∙ (ap h e ∙ at_dst)) in
      let ne_src : i ≢ src = λ e. none-some (sym absent ∙ (ap h e ∙ at_src)) in
      after_linked h neighbour patch dst src m r neighbour_in i ne_dst ne_src
      ∙ r.elsewhere i (λ e. none-some (sym absent ∙ (neighbour_in i e).1))
      ∙ absent

  pub sized_after :
      (0 < m.size) × (m.ptr + m.size < 2 ^ 64)
      → (i : ℕ) (x : CacheBlock) → after h neighbour patch dst src m linked i ≡ some x
      → (0 < x.size) × (x.ptr + x.size < 2 ^ 64)
  sized_after sized i x e = go (to_View h neighbour patch dst src m r neighbour_in i x e)
    where
      go : View h neighbour patch dst src m i x → (0 < x.size) × (x.ptr + x.size < 2 ^ 64)
      go (united same q) = subst (λ z. (0 < z.size) × (z.ptr + z.size < 2 ^ 64)) (sym q) sized
      go (patched y _ _ _ at q) =
          subst (λ z. (0 < z.size) × (z.ptr + z.size < 2 ^ 64)) (sym q)
            (omega (arith, shape.sized i y at, stays.ptr y, stays.size y))
      go (kept _ _ _ at) = shape.sized i x at

  -- An old block, as it stands after the merge, and where it was before.
  pub Apart-after :
      ((y : CacheBlock) → 0 < y.size → Apart y b → Apart y c → Apart y m)
      → (i j : ℕ) (x y : CacheBlock) → i ≢ j
      → after h neighbour patch dst src m linked i ≡ some x
      → after h neighbour patch dst src m linked j ≡ some y
      → Apart x y
  Apart-after unite i j x y ne e f =
      go (to_View h neighbour patch dst src m r neighbour_in i x e)
        (to_View h neighbour patch dst src m r neighbour_in j y f)
    where
      outside : (k : ℕ) (z : CacheBlock) → k ≢ dst → k ≢ src → h k ≡ some z → Apart z m
      outside k z ne_dst ne_src at =
          unite z (shape.sized k z at).0 (shape.apart k dst z b ne_dst at at_dst)
            (shape.apart k src z c ne_src at at_src)

      moved : (z w : CacheBlock) → Apart z w → Apart (patch z) w
      moved z w a = ground (arith, stays.ptr z, stays.size z, a)

      go : View h neighbour patch dst src m i x → View h neighbour patch dst src m j y → Apart x y
      go (united si qi) (united sj qj) = absurd (ne (si ∙ sym sj))
      go (united si qi) (patched w nd ns _ at q) =
          subst (λ z. Apart z y) (sym qi)
            (Apart-sym y m (subst (λ z. Apart z m) (sym q) (moved w m (outside j w nd ns at))))
      go (united si qi) (kept nd ns _ at) =
          subst (λ z. Apart z y) (sym qi) (Apart-sym y m (outside j y nd ns at))
      go (patched w nd ns _ at q) (united sj qj) =
          subst (λ z. Apart x z) (sym qj)
            (subst (λ z. Apart z m) (sym q) (moved w m (outside i w nd ns at)))
      go (kept nd ns _ at) (united sj qj) = subst (λ z. Apart x z) (sym qj) (outside i x nd ns at)
      go (patched w nd ns p at q) (patched w' nd' ns' p' at' q') =
          absurd (ne (some_inj (sym p ∙ p')))
      go (patched w nd ns p at q) (kept nd' ns' _ at') =
          subst (λ z. Apart z y) (sym q) (moved w y (shape.apart i j w y ne at at'))
      go (kept nd ns _ at) (patched w nd' ns' p at' q) =
          subst (λ z. Apart x z) (sym q)
            (Apart-sym (patch w) x (moved w x (Apart-sym x w (shape.apart i j x w ne at at'))))
      go (kept nd ns _ at) (kept nd' ns' _ at') = shape.apart i j x y ne at at'

  pub Keeps-after :
      b.allocated ≡ false → c.allocated ≡ false → Keeps h (after h neighbour patch dst src m linked)
  Keeps-after free_b free_c i x at live = elim (Bool-cases (points_to neighbour i)) [
    | inl here ↦ (
      patch x,
      moved ∙ r.there i x (points_to_eq neighbour i here) at,
      stays.ptr x,
      stays.size x,
      stays.allocated x ∙ live,
    )
    | inr away ↦ (x, moved ∙ (r.elsewhere i (points_to_ne neighbour i away) ∙ at), refl, refl, live)
  ]
    where
      not_free : (j : ℕ) (y : CacheBlock) → h j ≡ some y → y.allocated ≡ false → i ≢ j
      not_free j y at_y free e =
          let same : x ≡ y = some_inj (sym at ∙ (ap h e ∙ at_y)) in
          absurd (ground (arith, sym live ∙ (ap (λ z. z.allocated) same ∙ free)))

      moved : after h neighbour patch dst src m linked i ≡ linked i
      moved =
          after_linked h neighbour patch dst src m r neighbour_in i (not_free dst b at_dst free_b)
            (not_free src c at_src free_c)

  pub use_of-after :
      use_of (some m) ≡ use_of (some b)
      → dst ≢ src
      → (i : ℕ) → i ≢ src
      → use_of (after h neighbour patch dst src m linked i) ≡ use_of (h i)
  use_of-after same ne i ns = elim (ℕ_discrete i dst) [
    | yes e ↦
        ap (λ k. use_of (after h neighbour patch dst src m linked k)) e
        ∙ ap use_of (after_dst h neighbour patch dst src m r neighbour_in ne)
        ∙ same
        ∙ sym (ap use_of at_dst)
        ∙ sym (ap (λ k. use_of (h k)) e)
    | no nd ↦
        ap use_of (after_linked h neighbour patch dst src m r neighbour_in i nd ns)
        ∙ elim (Bool-cases (points_to neighbour i)) [
          | inl here ↦
              let p = points_to_eq neighbour i here in
              let (y, at) = neighbour_in i p in
              ap use_of (r.there i y p at) ∙ (stays.usage y ∙ sym (ap use_of at))
          | inr away ↦ ap use_of (r.elsewhere i (points_to_ne neighbour i away))
        ]
  ]

  pub after_src : after h neighbour patch dst src m linked src ≡ none
  after_src = write_same (write linked dst (some m)) src none
