-- ===== src/Memory/Allocator/Shape/Carve.antt =====
-- Cutting a block in two keeps the geometry.
use xsigma.Common.{
  ℕ, ◌+◌, ◌-◌, ◌^◌, ◌≤◌, ◌<◌, ◌≡◌, ◌≢◌, inl, inr, refl, sym, ap, ◌∙◌, subst, false, none, some,
  some_inj, arith, Bool-cases, ℕ_discrete, dec_lt,
}
use xsigma.Memory.Allocator.{CacheBlock, Heap, write}
use xsigma.Memory.Allocator.Split.{set_next, front_part, rest_part}
use xsigma.Memory.Allocator.Merge.{points_to}
use xsigma.Memory.Allocator.Shape.{Apart, Joins, Shape, Keeps}
use xsigma.Memory.Allocator.Shape.Absorb.{
  none-some, points_to_eq, points_to_ne, write-cases, write_other, write_same, Relinks, Apart-sym,
}
use xsigma.Memory.Allocator.Shape.Prev.{next_patch, set_next-Relinks}

-- The block `b` under `id` is cut after `rounded` bytes; the front part is the new block `n`.
module _ {h : Heap} {n : ℕ} (shape : Shape h n) (id : ℕ) (b : CacheBlock) (rounded : ℕ)
    (at_id : h id ≡ some b) (pos : 0 < rounded) (fits : rounded < b.size) where
  abbrev front : CacheBlock
  front = front_part b id rounded

  abbrev rest : CacheBlock
  rest = rest_part b n rounded

  abbrev linked : Heap
  linked = set_next h b.prev (some n)

  abbrev result : Heap
  result = write (write linked n (some front)) id (some rest)

  the_one : (i : ℕ) {x y : CacheBlock} → h i ≡ some x → h i ≡ some y → x ≡ y
  the_one i e f = some_inj (sym e ∙ f)

  present : (i : ℕ) (x : CacheBlock) → h i ≡ some x → i < n
  present i x at = elim (dec_lt i n) [
    | yes lt ↦ lt
    | no ge ↦ absurd (none-some (sym (shape.fresh i (omega (arith, ge))) ∙ at))
  ]

  not_new : (i : ℕ) (x : CacheBlock) → h i ≡ some x → i ≢ n
  not_new i x at e = absurd (omega (arith, present i x at))

  sized_b : (0 < b.size) × (b.ptr + b.size < 2 ^ 64)
  sized_b = shape.sized id b at_id

  rest_size : rest.size ≡ b.size - rounded
  rest_size = omega (arith, sized_b, fits)

  before_in :
      (i : ℕ) → b.prev ≡ some i → (y : CacheBlock) × (h i ≡ some y) × (y.next ≡ some id) × Joins y b
  before_in i e = shape.prev_ok id i b at_id e

  neighbour_in : (i : ℕ) → b.prev ≡ some i → (y : CacheBlock) × (h i ≡ some y)
  neighbour_in i e = let (y, at, _, _) = before_in i e in (y, at)

  relinks : Relinks h b.prev (next_patch n) linked
  relinks = set_next-Relinks h b.prev n neighbour_in

  lookup_rest : result id ≡ some rest
  lookup_rest = write_same (write linked n (some front)) id (some rest)

  pub lookup_front : result n ≡ some front
  lookup_front =
      write_other (write linked n (some front)) id (some rest) n (λ e. not_new id b at_id (sym e))
      ∙ write_same linked n (some front)

  lookup_linked : (i : ℕ) → i ≢ id → i ≢ n → result i ≡ linked i
  lookup_linked i ni nn =
      write_other (write linked n (some front)) id (some rest) i ni
      ∙ write_other linked n (some front) i nn

  lookup_patched :
      (i : ℕ) (y : CacheBlock)
      → i ≢ id
      → b.prev ≡ some i
      → h i ≡ some y
      → result i ≡ some (next_patch n y)
  lookup_patched i y ni p at = lookup_linked i ni (not_new i y at) ∙ relinks.there i y p at

  lookup_kept :
      (i : ℕ) (y : CacheBlock) → i ≢ id → b.prev ≢ some i → h i ≡ some y → result i ≡ some y
  lookup_kept i y ni p at = lookup_linked i ni (not_new i y at) ∙ (relinks.elsewhere i p ∙ at)

  data View (i : ℕ) (x : CacheBlock) : Type 0 where
    is_rest : i ≡ id → x ≡ rest → View i x
    is_front : i ≡ n → x ≡ front → View i x
    patched :
        (y : CacheBlock) → i ≢ id → b.prev ≡ some i → h i ≡ some y → x ≡ next_patch n y → View i x
    kept : i ≢ id → b.prev ≢ some i → h i ≡ some x → View i x

  to_View : (i : ℕ) (x : CacheBlock) → result i ≡ some x → View i x
  to_View i x e =
      write-cases (write linked n (some front)) id (some rest) i x e
        (λ same q. is_rest same (some_inj (sym q)))
        (λ ni q.
          write-cases linked n (some front) i x q (λ same w. is_front same (some_inj (sym w)))
            (λ nn w. elim (Bool-cases (points_to b.prev i)) [
              | inl here ↦
                  let p = points_to_eq b.prev i here in
                  let (y, at) = neighbour_in i p in
                  patched y ni p at (some_inj (sym w ∙ relinks.there i y p at))
              | inr away ↦
                  let ne = points_to_ne b.prev i away in
                  kept ni ne (sym (relinks.elsewhere i ne) ∙ w)
            ]))

  fresh_after : (i : ℕ) → n + 1 ≤ i → result i ≡ none
  fresh_after i le =
      let absent = shape.fresh i (omega arith) in
      lookup_linked i (λ e. absurd (omega (arith, present id b at_id))) (λ e. absurd (omega arith))
      ∙ (relinks.elsewhere i (λ e. none-some (sym absent ∙ (neighbour_in i e).1)) ∙ absent)

  sized_after :
      (i : ℕ) (x : CacheBlock) → result i ≡ some x → (0 < x.size) × (x.ptr + x.size < 2 ^ 64)
  sized_after i x e = go (to_View i x e)
    where
      go : View i x → (0 < x.size) × (x.ptr + x.size < 2 ^ 64)
      go (is_rest _ q) =
          subst (λ z. (0 < z.size) × (z.ptr + z.size < 2 ^ 64)) (sym q)
            (omega (arith, rest_size, sized_b, fits))
      go (is_front _ q) =
          subst (λ z. (0 < z.size) × (z.ptr + z.size < 2 ^ 64)) (sym q)
            (omega (arith, sized_b, fits, pos))
      go (patched y _ _ at q) =
          subst (λ z. (0 < z.size) × (z.ptr + z.size < 2 ^ 64)) (sym q) (shape.sized i y at)
      go (kept _ _ at) = shape.sized i x at

  -- What a block of the new heap occupies, it occupied before, or `b` did.
  record Within (i : ℕ) (x : CacheBlock) : Type 0 where
    owner : ℕ
    old : CacheBlock
    at_owner : h owner ≡ some old
    low : old.ptr ≤ x.ptr
    high : x.ptr + x.size ≤ old.ptr + old.size
    same_owner : owner ≢ id → i ≡ owner

  within : (i : ℕ) (x : CacheBlock) → View i x → Within i x
  within i x (is_rest e q) = record {
    owner = id;
    old = b;
    at_owner = at_id;
    low = subst (λ z. b.ptr ≤ z.ptr) (sym q) (omega arith);
    high = subst (λ z. z.ptr + z.size ≤ b.ptr + b.size) (sym q) (omega (arith, rest_size, fits));
    same_owner = λ ne. absurd (ne refl);
  }
  within i x (is_front e q) = record {
    owner = id;
    old = b;
    at_owner = at_id;
    low = subst (λ z. b.ptr ≤ z.ptr) (sym q) (omega arith);
    high = subst (λ z. z.ptr + z.size ≤ b.ptr + b.size) (sym q) (omega (arith, fits));
    same_owner = λ ne. absurd (ne refl);
  }
  within i x (patched y ni p at q) = record {
    owner = i;
    old = y;
    at_owner = at;
    low = subst (λ z. y.ptr ≤ z.ptr) (sym q) (omega arith);
    high = subst (λ z. z.ptr + z.size ≤ y.ptr + y.size) (sym q) (omega arith);
    same_owner = λ _. refl;
  }
  within i x (kept ni p at) = record {
    owner = i;
    old = x;
    at_owner = at;
    low = omega arith;
    high = omega arith;
    same_owner = λ _. refl;
  }

  Apart-within :
      (i j : ℕ) (x y : CacheBlock) (v : Within i x) (w : Within j y) → v.owner ≢ w.owner → Apart x y
  Apart-within i j x y v w ne = ground (
    arith,
    shape.apart v.owner w.owner v.old w.old ne v.at_owner w.at_owner,
    v.low,
    v.high,
    w.low,
    w.high,
  )

  parts-Apart : Apart front rest
  parts-Apart = inl (omega arith)

  Apart-after :
      (i j : ℕ) (x y : CacheBlock) → i ≢ j → result i ≡ some x → result j ≡ some y → Apart x y
  unfolding within
  Apart-after i j x y ne e f = go (to_View i x e) (to_View j y f)
    where
      go : View i x → View j y → Apart x y
      go (is_rest si qi) (is_rest sj qj) = absurd (ne (si ∙ sym sj))
      go (is_front si qi) (is_front sj qj) = absurd (ne (si ∙ sym sj))
      go (is_rest si qi) (is_front sj qj) =
          subst (λ z. Apart z y) (sym qi)
            (subst (λ z. Apart rest z) (sym qj) (Apart-sym front rest parts-Apart))
      go (is_front si qi) (is_rest sj qj) =
          subst (λ z. Apart z y) (sym qi) (subst (λ z. Apart front z) (sym qj) parts-Apart)
      go (is_rest si qi) (patched yj nj pj aj qj) =
          Apart-within i j x y (within i x (is_rest si qi)) (within j y (patched yj nj pj aj qj))
            (λ e. nj (sym e))
      go (is_rest si qi) (kept nj pj aj) =
          Apart-within i j x y (within i x (is_rest si qi)) (within j y (kept nj pj aj))
            (λ e. nj (sym e))
      go (is_front si qi) (patched yj nj pj aj qj) =
          Apart-within i j x y (within i x (is_front si qi)) (within j y (patched yj nj pj aj qj))
            (λ e. nj (sym e))
      go (is_front si qi) (kept nj pj aj) =
          Apart-within i j x y (within i x (is_front si qi)) (within j y (kept nj pj aj))
            (λ e. nj (sym e))
      go (patched yi ni pi ai qi) (is_rest sj qj) =
          Apart-within i j x y (within i x (patched yi ni pi ai qi)) (within j y (is_rest sj qj)) ni
      go (patched yi ni pi ai qi) (is_front sj qj) =
          Apart-within i j x y (within i x (patched yi ni pi ai qi)) (within j y (is_front sj qj))
            ni
      go (patched yi ni pi ai qi) (patched yj nj pj aj qj) =
          Apart-within i j x y (within i x (patched yi ni pi ai qi))
            (within j y (patched yj nj pj aj qj)) ne
      go (patched yi ni pi ai qi) (kept nj pj aj) =
          Apart-within i j x y (within i x (patched yi ni pi ai qi)) (within j y (kept nj pj aj)) ne
      go (kept ni pi ai) (is_rest sj qj) =
          Apart-within i j x y (within i x (kept ni pi ai)) (within j y (is_rest sj qj)) ni
      go (kept ni pi ai) (is_front sj qj) =
          Apart-within i j x y (within i x (kept ni pi ai)) (within j y (is_front sj qj)) ni
      go (kept ni pi ai) (patched yj nj pj aj qj) =
          Apart-within i j x y (within i x (kept ni pi ai)) (within j y (patched yj nj pj aj qj)) ne
      go (kept ni pi ai) (kept nj pj aj) =
          Apart-within i j x y (within i x (kept ni pi ai)) (within j y (kept nj pj aj)) ne

  front_behind : (y : CacheBlock) → Joins y b → Joins (next_patch n y) front
  front_behind y j = record {
    adjacent = j.adjacent;
    same_pool = j.same_pool;
    same_stream = j.same_stream;
    same_segment = j.same_segment;
  }

  rest_before : (z : CacheBlock) → Joins b z → Joins rest z
  rest_before z j = record {
    adjacent = omega (arith, j.adjacent, rest_size, fits);
    same_pool = j.same_pool;
    same_stream = j.same_stream;
    same_segment = j.same_segment;
  }

  parts_join : Joins front rest
  parts_join = record { adjacent = refl; same_pool = refl; same_stream = refl; same_segment = refl }

  next_after :
      (i j : ℕ) (x : CacheBlock)
      → result i ≡ some x
      → x.next ≡ some j
      → (z : CacheBlock) × (result j ≡ some z) × (z.prev ≡ some i) × Joins x z
  next_after i j x e l = go (to_View i x e)
    where
      go : View i x → (z : CacheBlock) × (result j ≡ some z) × (z.prev ≡ some i) × Joins x z
      go (is_rest si qi) =
          let (z, at, lz, jz) = shape.next_ok id j b at_id (subst (λ w. w.next ≡ some j) qi l) in
          let nid : j ≢ id = λ s. absurd (
            omega (arith, jz.adjacent, ap (λ w. w.ptr) (the_one j at (ap h s ∙ at_id)), sized_b)) in
          let np : b.prev ≢ some j = λ p.
            let (y, at', ly, jy) = before_in j p in
            absurd (
              omega
                (arith, jz.adjacent, jy.adjacent, ap (λ w. w.ptr) (the_one j at at'), sized_b)) in
          (
            z,
            lookup_kept j z nid np at,
            lz ∙ ap some (sym si),
            subst (λ w. Joins w z) (sym qi) (rest_before z jz),
          )
      go (is_front si qi) =
          let jid : id ≡ j = some_inj (subst (λ w. w.next ≡ some j) qi l) in
          (
            rest,
            subst (λ k. result k ≡ some rest) jid lookup_rest,
            ap some (sym si),
            subst (λ w. Joins w rest) (sym qi) parts_join,
          )
      go (patched y ni p at q) =
          let jn : n ≡ j = some_inj (subst (λ w. w.next ≡ some j) q l) in
          let (y', at', ly, jy) = before_in i p in
          (
            front,
            subst (λ k. result k ≡ some front) jn lookup_front,
            p,
            subst (λ w. Joins w front) (sym q)
                (front_behind y (subst (λ w. Joins w b) (the_one i at' at) jy)),
          )
      go (kept ni np at) =
          let (z, at', lz, jz) = shape.next_ok i j x at l in
          let nid : j ≢ id = λ s. np (ap (λ w. w.prev) (the_one j (ap h s ∙ at_id) at') ∙ lz) in
          elim (Bool-cases (points_to b.prev j)) [
            | inl here ↦ (
              next_patch n z,
              lookup_patched j z nid (points_to_eq b.prev j here) at',
              lz,
              record {
                adjacent = jz.adjacent;
                same_pool = jz.same_pool;
                same_stream = jz.same_stream;
                same_segment = jz.same_segment;
              },
            )
            | inr away ↦ (z, lookup_kept j z nid (points_to_ne b.prev j away) at', lz, jz)
          ]

  prev_after :
      (i j : ℕ) (x : CacheBlock)
      → result i ≡ some x
      → x.prev ≡ some j
      → (z : CacheBlock) × (result j ≡ some z) × (z.next ≡ some i) × Joins z x
  prev_after i j x e l = go (to_View i x e)
    where
      go : View i x → (z : CacheBlock) × (result j ≡ some z) × (z.next ≡ some i) × Joins z x
      go (is_rest si qi) =
          let jn : n ≡ j = some_inj (subst (λ w. w.prev ≡ some j) qi l) in
          (
            front,
            subst (λ k. result k ≡ some front) jn lookup_front,
            ap some (sym si),
            subst (λ w. Joins front w) (sym qi) parts_join,
          )
      go (is_front si qi) =
          let p : b.prev ≡ some j = subst (λ w. w.prev ≡ some j) qi l in
          let (y, at, ly, jy) = before_in j p in
          let nid : j ≢ id = λ s. absurd (
            omega (
              arith,
              jy.adjacent,
              ap (λ w. w.ptr + w.size) (the_one j at (ap h s ∙ at_id)),
              sized_b,
            )) in
          (
            next_patch n y,
            lookup_patched j y nid p at,
            ap some (sym si),
            subst (λ w. Joins (next_patch n y) w) (sym qi) (front_behind y jy),
          )
      go (patched y ni p at q) =
          let (z, at', lz, jz) = shape.prev_ok i j y at (subst (λ w. w.prev ≡ some j) q l) in
          let (y', at'', ly, jy) = before_in i p in
          let edge : y.ptr + y.size ≡ b.ptr =
            subst (λ w. w.ptr + w.size ≡ b.ptr) (the_one i at'' at) jy.adjacent in
          let size_y = (shape.sized i y at).0 in
          let nid : j ≢ id = λ s. absurd (
            omega (
              arith,
              jz.adjacent,
              edge,
              ap (λ w. w.ptr + w.size) (the_one j at' (ap h s ∙ at_id)),
              sized_b,
              size_y,
            )) in
          let np : b.prev ≢ some j = λ r. absurd (
            omega (
              arith,
              jz.adjacent,
              ap (λ w. w.ptr + w.size) (the_one j at' (ap h (some_inj (sym r ∙ p)) ∙ at)),
              size_y,
            )) in
          (
            z,
            lookup_kept j z nid np at',
            lz,
            subst (λ w. Joins z w) (sym q)
                (record {
                  adjacent = jz.adjacent;
                  same_pool = jz.same_pool;
                  same_stream = jz.same_stream;
                  same_segment = jz.same_segment;
                }),
          )
      go (kept ni np at) =
          let (z, at', lz, jz) = shape.prev_ok i j x at l in
          elim (ℕ_discrete j id) [
            | yes s ↦
                let zb : z ≡ b = the_one j at' (ap h s ∙ at_id) in
                (
                  rest,
                  ap result s ∙ lookup_rest,
                  ap (λ w. w.next) (sym zb) ∙ lz,
                  rest_before x (subst (λ w. Joins w x) zb jz),
                )
            | no nid ↦
                let np' : b.prev ≢ some j = λ r.
                  let (y, at'', ly, jy) = before_in j r in
                  ni (some_inj (sym lz ∙ (ap (λ w. w.next) (the_one j at' at'') ∙ ly))) in
                (z, lookup_kept j z nid np' at', lz, jz)
          ]

  pub split-Shape : Shape result (n + 1)
  split-Shape = record {
    fresh = fresh_after;
    sized = sized_after;
    apart = Apart-after;
    next_ok = next_after;
    prev_ok = prev_after;
  }

  pub split-Keeps : b.allocated ≡ false → Keeps h result
  split-Keeps free i x at live =
      let ni : i ≢ id = λ e. absurd (
        ground
          (arith, sym live ∙ (ap (λ z. z.allocated) (the_one i at (ap h e ∙ at_id)) ∙ free))) in
      elim (Bool-cases (points_to b.prev i)) [
        | inl here ↦ (
          next_patch n x,
          lookup_patched i x ni (points_to_eq b.prev i here) at,
          refl,
          refl,
          live,
        )
        | inr away ↦ (x, lookup_kept i x ni (points_to_ne b.prev i away) at, refl, refl, live)
      ]
