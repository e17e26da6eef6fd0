-- ===== src/Memory/Allocator/Shape/Next.antt =====
-- A block that absorbs its successor keeps the geometry.
use xsigma.Common.{
  ℕ, ◌+◌, ◌^◌, ◌<◌, ◌≡◌, ◌≢◌, inl, inr, refl, sym, ap, ◌∙◌, subst, false, Option, none, some,
  some_inj, arith, Bool-cases, ℕ_discrete,
}
use xsigma.Memory.Allocator.{CacheBlock, Heap, write}
use xsigma.Memory.Allocator.Split.{set_prev}
use xsigma.Memory.Allocator.Merge.{points_to, absorb_next}
use xsigma.Memory.Allocator.Usage.{use_of}
use xsigma.Memory.Allocator.Shape.{Apart, Joins, Shape, Keeps}
use xsigma.Memory.Allocator.Shape.Absorb.{
  none-some, points_to_eq, points_to_ne, write_other, write_same, Relinks, View, united, patched,
  kept, after, to_View, after_dst, after_linked, Stays, fresh_after, sized_after, Apart-after,
  Keeps-after, use_of-after, after_src,
}

abbrev pub prev_patch : ℕ → CacheBlock → CacheBlock
prev_patch id y = record y { prev = some id }

pub prev_patch-Stays : (id : ℕ) → Stays (prev_patch id)
prev_patch-Stays id = record {
  ptr = λ y. refl;
  size = λ y. refl;
  allocated = λ y. refl;
  usage = λ y. refl;
}

pub set_prev-Relinks :
    (h : Heap) (p : Option ℕ) (id : ℕ)
    → ((i : ℕ) → p ≡ some i → (y : CacheBlock) × (h i ≡ some y))
    → Relinks h p (prev_patch id) (set_prev h p (some id))
set_prev-Relinks h none id there = record {
  elsewhere = λ i ne. refl;
  there = λ i y e at. absurd (none-some e);
}
set_prev-Relinks h (some p) id there = go (h p) refl
  where
    go :
        (o : Option CacheBlock)
        → h p ≡ o
        → Relinks h
            (some p)
            (prev_patch id)
            (elim o [ none ↦ h | some b ↦ write h p (some (record b { prev = some id })) ])
    go none e = absurd (none-some (sym e ∙ (there p refl).1))
    go (some q) e = record {
      elsewhere = λ i ne.
          write_other h p (some (record q { prev = some id })) i (λ same. ne (ap some (sym same)));
      there = λ i y same at.
          let pi : p ≡ i = some_inj same in
          let qy : q ≡ y = some_inj (sym e ∙ (ap h pi ∙ at)) in
          subst (λ k. write h p (some (record q { prev = some id })) k ≡ some (prev_patch id y)) pi
            (write_same h p (some (record q { prev = some id }))
              ∙ ap (λ z. some (prev_patch id z)) qy);
    }

-- `src`, which holds `c`, stands right behind `dst`, which holds `b`.
module _ {h : Heap} {n : ℕ} (shape : Shape h n) (dst src : ℕ) (b c : CacheBlock)
    (at_dst : h dst ≡ some b) (at_src : h src ≡ some c) (link : b.next ≡ some src) where
  abbrev m : CacheBlock
  m = absorb_next b c

  abbrev patch : CacheBlock → CacheBlock
  patch = prev_patch dst

  abbrev linked : Heap
  linked = set_prev h c.next (some dst)

  abbrev result : Heap
  result = after h c.next patch dst src m linked

  the_one : (i : ℕ) {x y : CacheBlock} → h i ≡ some x → h i ≡ some y → x ≡ y
  the_one i e f = some_inj (sym e ∙ f)

  joined : Joins b c
  joined =
      let (c', at', _, j) = shape.next_ok dst src b at_dst link in
      subst (λ x. Joins b x) (the_one src at' at_src) j

  back : c.prev ≡ some dst
  back =
      let (c', at', l, _) = shape.next_ok dst src b at_dst link in
      subst (λ x. x.prev ≡ some dst) (the_one src at' at_src) l

  sized_b : (0 < b.size) × (b.ptr + b.size < 2 ^ 64)
  sized_b = shape.sized dst b at_dst

  sized_c : (0 < c.size) × (c.ptr + c.size < 2 ^ 64)
  sized_c = shape.sized src c at_src

  distinct : dst ≢ src
  distinct same =
      let eq : b ≡ c = the_one src (ap h (sym same) ∙ at_dst) at_src in
      absurd (omega (arith, joined.adjacent, ap (λ x. x.ptr) eq, sized_b))

  behind_in :
      (i : ℕ)
      → c.next ≡ some i
      → (y : CacheBlock) × (h i ≡ some y) × (y.prev ≡ some src) × Joins c y
  behind_in i e = shape.next_ok src i c at_src e

  neighbour_in : (i : ℕ) → c.next ≡ some i → (y : CacheBlock) × (h i ≡ some y)
  neighbour_in i e = let (y, at, _, _) = behind_in i e in (y, at)

  relinks : Relinks h c.next patch linked
  relinks = set_prev-Relinks h c.next dst neighbour_in

  unite : (y : CacheBlock) → 0 < y.size → Apart y b → Apart y c → Apart y m
  unite y pos ab ac = ground (arith, joined.adjacent, sized_b, sized_c)

  pub lookup_dst : result dst ≡ some m
  lookup_dst = after_dst h c.next patch dst src m relinks neighbour_in distinct

  lookup_patched :
      (j : ℕ) (y : CacheBlock)
      → j ≢ dst
      → j ≢ src
      → c.next ≡ some j
      → h j ≡ some y
      → result j ≡ some (patch y)
  lookup_patched j y nd ns p at =
      after_linked h c.next patch dst src m relinks neighbour_in j nd ns ∙ relinks.there j y p at

  lookup_kept :
      (j : ℕ) (y : CacheBlock)
      → j ≢ dst
      → j ≢ src
      → c.next ≢ some j
      → h j ≡ some y
      → result j ≡ some y
  lookup_kept j y nd ns p at =
      after_linked h c.next patch dst src m relinks neighbour_in j nd ns
      ∙ (relinks.elsewhere j p ∙ at)

  merged_behind : (z : CacheBlock) → Joins z b → Joins z m
  merged_behind z j = record {
    adjacent = j.adjacent;
    same_pool = j.same_pool;
    same_stream = j.same_stream;
    same_segment = j.same_segment;
  }

  behind_merged : (y : CacheBlock) → Joins c y → Joins m (patch y)
  behind_merged y j = record {
    adjacent = omega (arith, j.adjacent, joined.adjacent, sized_b, sized_c);
    same_pool = joined.same_pool ∙ j.same_pool;
    same_stream = joined.same_stream ∙ j.same_stream;
    same_segment = joined.same_segment ∙ j.same_segment;
  }

  prev_after :
      (i j : ℕ) (x : CacheBlock)
      → result i ≡ some x
      → x.prev ≡ some j
      → (z : CacheBlock) × (result j ≡ some z) × (z.next ≡ some i) × Joins z x
  prev_after i j x e l = go (to_View h c.next patch dst src m relinks neighbour_in i x e)
    where
      go :
          View h c.next patch dst src m i x
          → (z : CacheBlock) × (result j ≡ some z) × (z.next ≡ some i) × Joins z x
      go (united si qi) =
          let (z, at, lz, jz) = shape.prev_ok dst j b at_dst (subst (λ w. w.prev ≡ some j) qi l) in
          let nd : j ≢ dst = λ s. absurd (
            omega (
              arith,
              jz.adjacent,
              ap (λ w. w.ptr) (the_one j at (ap h s ∙ at_dst)),
              ap (λ w. w.ptr + w.size) (the_one j at (ap h s ∙ at_dst)),
              sized_b,
            )) in
          let ns : j ≢ src = λ s. absurd (
            omega (
              arith,
              jz.adjacent,
              joined.adjacent,
              ap (λ w. w.ptr) (the_one j at (ap h s ∙ at_src)),
              ap (λ w. w.ptr + w.size) (the_one j at (ap h s ∙ at_src)),
              sized_b,
              sized_c,
            )) in
          let np : c.next ≢ some j = λ p.
            let (y, at', ly, jy) = behind_in j p in
            absurd (
              omega (
                arith,
                jz.adjacent,
                joined.adjacent,
                jy.adjacent,
                ap (λ w. w.ptr) (the_one j at at'),
                ap (λ w. w.ptr + w.size) (the_one j at at'),
                sized_b,
                sized_c,
              )) in
          (
            z,
            lookup_kept j z nd ns np at,
            lz ∙ ap some (sym si),
            subst (λ w. Joins z w) (sym qi) (merged_behind z jz),
          )
      go (patched y nd ns p at q) =
          let jd : dst ≡ j = some_inj (ap (λ w. w.prev) (sym q) ∙ l) in
          let (y', at', ly, jy) = behind_in i p in
          (
            m,
            subst (λ k. result k ≡ some m) jd lookup_dst,
            p,
            subst (λ w. Joins m w) (sym q)
                (behind_merged y (subst (λ w. Joins c w) (the_one i at' at) jy)),
          )
      go (kept nd ns np at) =
          let (z, at', lz, jz) = shape.prev_ok i j x at l in
          let nd' : j ≢ dst = λ s.
            ns (some_inj (sym lz ∙ (ap (λ w. w.next) (the_one j at' (ap h s ∙ at_dst)) ∙ link))) in
          let ns' : j ≢ src = λ s. np (ap (λ w. w.next) (the_one j (ap h s ∙ at_src) at') ∙ lz) in
          elim (Bool-cases (points_to c.next j)) [
            | inl here ↦ (
              patch z,
              lookup_patched j z nd' ns' (points_to_eq c.next j here) at',
              lz,
              record {
                adjacent = jz.adjacent;
                same_pool = jz.same_pool;
                same_stream = jz.same_stream;
                same_segment = jz.same_segment;
              },
            )
            | inr away ↦ (z, lookup_kept j z nd' ns' (points_to_ne c.next j away) at', lz, jz)
          ]

  next_after :
      (i j : ℕ) (x : CacheBlock)
      → result i ≡ some x
      → x.next ≡ some j
      → (z : CacheBlock) × (result j ≡ some z) × (z.prev ≡ some i) × Joins x z
  next_after i j x e l = go (to_View h c.next patch dst src m relinks neighbour_in i x e)
    where
      go :
          View h c.next patch dst src m i x
          → (z : CacheBlock) × (result j ≡ some z) × (z.prev ≡ some i) × Joins x z
      go (united si qi) =
          let p : c.next ≡ some j = subst (λ w. w.next ≡ some j) qi l in
          let (y, at, ly, jy) = behind_in j p in
          let nd : j ≢ dst = λ s. absurd (
            omega (
              arith,
              jy.adjacent,
              joined.adjacent,
              ap (λ w. w.ptr) (the_one j at (ap h s ∙ at_dst)),
              ap (λ w. w.ptr + w.size) (the_one j at (ap h s ∙ at_dst)),
              sized_b,
              sized_c,
            )) in
          let ns : j ≢ src = λ s. absurd (
            omega (
              arith,
              jy.adjacent,
              ap (λ w. w.ptr) (the_one j at (ap h s ∙ at_src)),
              ap (λ w. w.ptr + w.size) (the_one j at (ap h s ∙ at_src)),
              sized_c,
            )) in
          (
            patch y,
            lookup_patched j y nd ns p at,
            ap some (sym si),
            subst (λ w. Joins w (patch y)) (sym qi) (behind_merged y jy),
          )
      go (patched y nd ns p at q) =
          let (z, at', lz, jz) = shape.next_ok i j y at (ap (λ w. w.next) (sym q) ∙ l) in
          let (y', at'', ly, jy) = behind_in i p in
          let yy : y' ≡ y = the_one i at'' at in
          let edge : c.ptr + c.size ≡ y.ptr = jy.adjacent ∙ ap (λ w. w.ptr) yy in
          let pos = (shape.sized i y at).0 in
          let nd' : j ≢ dst = λ s. absurd (
            omega (
              arith,
              jz.adjacent,
              edge,
              joined.adjacent,
              ap (λ w. w.ptr) (the_one j at' (ap h s ∙ at_dst)),
              ap (λ w. w.ptr + w.size) (the_one j at' (ap h s ∙ at_dst)),
              sized_b,
              sized_c,
              pos,
            )) in
          let ns' : j ≢ src = λ s.
            nd (some_inj (sym lz ∙ (ap (λ w. w.prev) (the_one j at' (ap h s ∙ at_src)) ∙ back))) in
          let np : c.next ≢ some j = λ r. absurd (
            omega (
              arith,
              jz.adjacent,
              ap (λ w. w.ptr) (the_one j at' (ap h (some_inj (sym r ∙ p)) ∙ at)),
              pos,
            )) in
          (
            z,
            lookup_kept j z nd' ns' np at',
            lz,
            subst (λ w. Joins w z) (sym q)
                (record {
                  adjacent = jz.adjacent;
                  same_pool = jz.same_pool;
                  same_stream = jz.same_stream;
                  same_segment = jz.same_segment;
                }),
          )
      go (kept nd ns np at) =
          let (z, at', lz, jz) = shape.next_ok i j x at l in
          let ns' : j ≢ src = λ s.
            nd (some_inj (sym lz ∙ (ap (λ w. w.prev) (the_one j at' (ap h s ∙ at_src)) ∙ back))) in
          elim (ℕ_discrete j dst) [
            | yes s ↦
                let zb : z ≡ b = the_one j at' (ap h s ∙ at_dst) in
                (
                  m,
                  ap result s ∙ lookup_dst,
                  ap (λ w. w.prev) (sym zb) ∙ lz,
                  merged_behind x (subst (λ w. Joins x w) zb jz),
                )
            | no nd' ↦
                let np' : c.next ≢ some j = λ r.
                  let (y, at'', ly, jy) = behind_in j r in
                  ns (some_inj (sym lz ∙ (ap (λ w. w.prev) (the_one j at' at'') ∙ ly))) in
                (z, lookup_kept j z nd' ns' np' at', lz, jz)
          ]

  pub absorb_next-Shape : Shape result n
  absorb_next-Shape = record {
    fresh =
        fresh_after shape c.next patch (prev_patch-Stays dst) dst src b c m at_dst at_src relinks
          neighbour_in;
    sized =
        sized_after shape c.next patch (prev_patch-Stays dst) dst src b c m at_dst at_src relinks
          neighbour_in (omega (arith, joined.adjacent, sized_b, sized_c));
    apart =
        Apart-after shape c.next patch (prev_patch-Stays dst) dst src b c m at_dst at_src relinks
          neighbour_in unite;
    prev_ok = prev_after;
    next_ok = next_after;
  }

  pub absorb_next-Keeps : b.allocated ≡ false → c.allocated ≡ false → Keeps h result
  absorb_next-Keeps =
      Keeps-after shape c.next patch (prev_patch-Stays dst) dst src b c m at_dst at_src relinks
        neighbour_in

  pub use_of-absorb_next : (i : ℕ) → i ≢ src → use_of (result i) ≡ use_of (h i)
  use_of-absorb_next =
      use_of-after shape c.next patch (prev_patch-Stays dst) dst src b c m at_dst at_src relinks
        neighbour_in refl distinct

  pub absorb_next_gone : result src ≡ none
  absorb_next_gone =
      after_src shape c.next patch (prev_patch-Stays dst) dst src b c m at_dst at_src relinks
        neighbour_in
