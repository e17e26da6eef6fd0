-- ===== src/Memory/Allocator/Shape/Allocate.antt =====
-- `alloc_found_block` hands out memory that no other block occupies.
use xsigma.Common.{
  ℕ, ◌^◌, ◌≤◌, ◌<◌, ◌≡◌, ◌≢◌, inl, inr, refl, sym, true, false, some, arith, Bool-cases,
}
use xsigma.Memory.Allocator.{CacheBlock, write, Impl}
use xsigma.Memory.Allocator.Split.{
  should_split, front_part, split_block, commit_block, alloc_found_block,
}
use xsigma.Memory.Allocator.Shape.{Apart, Shape, Keeps}
use xsigma.Memory.Allocator.Shape.Absorb.{write_same}
use xsigma.Memory.Allocator.Shape.Carve.{split-Shape, split-Keeps, lookup_front}
use xsigma.Memory.Allocator.Shape.Retag.{SamePlace, retag-Shape, retag-Keeps}
use xsigma.Memory.Allocator.Shape.Free.{Keeps-trans}

-- What an allocation of `rounded` bytes promises, which went from `s` to `t` and returned `ptr`.
pub record Allocated (s : Impl) (rounded ptr : ℕ) (t : Impl) : Type 0 where
  pub owner : ℕ
  pub block : CacheBlock
  pub shape : Shape t.heap t.next_block
  pub at : t.heap owner ≡ some block
  pub starts : block.ptr ≡ ptr
  pub enough : rounded ≤ block.size
  pub live : block.allocated ≡ true
  pub disjoint : (i : ℕ) (c : CacheBlock) → i ≢ owner → t.heap i ≡ some c → Apart block c
  pub keeps : Keeps s.heap t.heap

-- A block is only split if a part remains.
should_split-fits :
    (b : CacheBlock) (rounded : ℕ)
    → rounded ≤ b.size
    → b.size < 2 ^ 64
    → should_split b rounded ≡ true
    → rounded < b.size
unfolding should_split
should_split-fits b rounded le small e = ground (arith, e)

abbrev committed : CacheBlock → ℕ → CacheBlock
committed b orig_size = record b { allocated = true; requested_size = orig_size }

commit_block_lem :
    (s : Impl) (id rounded orig_size : ℕ) (b : CacheBlock)
    → Shape s.heap s.next_block
    → s.heap id ≡ some b
    → b.allocated ≡ false
    → rounded ≤ b.size
    → Allocated s rounded b.ptr (commit_block s id b orig_size)
unfolding commit_block
commit_block_lem s id rounded orig_size b shape at free enough = record {
  owner = id;
  block = committed b orig_size;
  shape = shape';
  at = write_same s.heap id (some (committed b orig_size));
  starts = refl;
  enough = enough;
  live = refl;
  disjoint = λ i d ne at_d.
      shape'.apart id i (committed b orig_size) d (λ e. ne (sym e))
        (write_same s.heap id (some (committed b orig_size))) at_d;
  keeps = retag-Keeps shape id b (committed b orig_size) at same free;
}
  where
    same : SamePlace (committed b orig_size) b
    same = record {
      ptr = refl;
      size = refl;
      prev = refl;
      next = refl;
      is_small = refl;
      stream = refl;
      segment_base = refl;
    }

    shape' : Shape (write s.heap id (some (committed b orig_size))) s.next_block
    shape' = retag-Shape shape id b (committed b orig_size) at same

-- In a state whose blocks do not overlap and whose links join neighbours, `alloc_found_block`, given the
-- block `id`, which is not allocated and has at least the `rounded` bytes asked for, of which there is at
-- least one, returns the address of an allocated block of at least `rounded` bytes that overlaps no other
-- block. The geometry holds again, and each block that was allocated is where it was, as large as it was.
pub alloc_found_block-Allocated :
    (s : Impl) (id : ℕ) (b : CacheBlock) (rounded orig_size : ℕ)
    → Shape s.heap s.next_block
    → s.heap id ≡ some b
    → b.allocated ≡ false
    → 0 < rounded
    → rounded ≤ b.size
    → let (t, ptr) = alloc_found_block s id b rounded orig_size in Allocated s rounded ptr t
unfolding alloc_found_block split_block
alloc_found_block-Allocated s id b rounded orig_size shape at free pos enough =
    elim (Bool-cases (should_split b rounded)) [
      | inr no_split ↦ rw no_split (commit_block_lem s id rounded orig_size b shape at free enough)
      | inl split ↦
          let fits =
            should_split-fits b rounded enough (omega (arith, shape.sized id b at)) split in
          let done =
            commit_block_lem (split_block s id b rounded) s.next_block rounded orig_size
              (front_part b id rounded) (split-Shape shape id b rounded at pos fits)
              (lookup_front shape id b rounded at pos fits) refl (omega arith) in
          rw split (record {
            owner = done.owner;
            block = done.block;
            shape = done.shape;
            at = done.at;
            starts = done.starts;
            enough = done.enough;
            live = done.live;
            disjoint = done.disjoint;
            keeps =
                Keeps-trans s.heap (split_block s id b rounded).heap _
                  (split-Keeps shape id b rounded at pos fits free) done.keeps;
          })
    ]
