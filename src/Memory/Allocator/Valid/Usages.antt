-- ===== src/Memory/Allocator/Valid/Usages.antt =====
-- A valid state in which the use of one block changes.
use xsigma.Common.{
  ℕ, ◌≤◌, ◌≡◌, ◌≢◌, sym, ap, ◌∙◌, subst, Bool, true, none, some, List, arith, ℕ_discrete, count,
}
use xsigma.Memory.Allocator.{CacheBlock, write, Impl, pool_of, find_live, erase_live}
use xsigma.Memory.Allocator.Usage.{use_of, places, events_of, Settled}
use xsigma.Memory.Allocator.Shape.{Shape}
use xsigma.Memory.Allocator.Shape.Absorb.{write_other, write_same}
use xsigma.Memory.Allocator.Shape.Retag.{SamePlace, retag-Shape}
use xsigma.Memory.Allocator.Valid.{IsValid}

-- The state `t` has the block `c` in place of `b` under `id`, and the events `after` instead of `before`.
pub record Reuses (s t : Impl) (id : ℕ) (b c : CacheBlock) (before after : List ℕ) : Type 0 where
  pub at : s.heap id ≡ some b
  pub place : SamePlace c b
  pub heap : t.heap ≡ write s.heap id (some c)
  pub next_block : t.next_block ≡ s.next_block
  pub pools : (small : Bool) → pool_of t small ≡ pool_of s small
  pub pooled : (small : Bool) → count id (pool_of s small) ≤ places (use_of (some c)) small
  pub others : (i : ℕ) → i ≢ id → count i after ≡ count i before
  pub awaited : count id after ≡ events_of (use_of (some c))
  pub settled : Settled (use_of (some c))
  pub live :
      (p i : ℕ)
      → find_live p t.allocated_blocks ≡ some i
      → (x : CacheBlock) × (t.heap i ≡ some x) × (x.allocated ≡ true) × (x.ptr ≡ p)
  pub single : (p : ℕ) → find_live p (erase_live p t.allocated_blocks) ≡ none

pub Reuses-IsValid :
    (s t : Impl) (id : ℕ) (b c : CacheBlock) (before after : List ℕ)
    → IsValid s before
    → Reuses s t id b c before after
    → IsValid t after
Reuses-IsValid s t id b c before after valid r = record {
  shape = shape_after;
  pooled = λ small i. elim (ℕ_discrete i id) [
    | yes q ↦
        subst (λ k. count k (pool_of t small) ≤ places (use_of (t.heap k)) small) (sym q)
          (omega (
            arith,
            ap (count id) (r.pools small),
            r.pooled small,
            ap (λ x. places (use_of x) small) here,
          ))
    | no ne ↦ omega (
      arith,
      ap (count i) (r.pools small),
      valid.pooled small i,
      ap (λ x. places (use_of x) small) (there i ne),
    )
  ];
  awaited = λ i. elim (ℕ_discrete i id) [
    | yes q ↦
        subst (λ k. count k after ≡ events_of (use_of (t.heap k))) (sym q)
          (r.awaited ∙ sym (ap (λ x. events_of (use_of x)) here))
    | no ne ↦ r.others i ne ∙ (valid.awaited i ∙ sym (ap (λ x. events_of (use_of x)) (there i ne)))
  ];
  settled = λ i. elim (ℕ_discrete i id) [
    | yes q ↦
        subst (λ k. Settled (use_of (t.heap k))) (sym q)
          (subst (λ x. Settled (use_of x)) (sym here) r.settled)
    | no ne ↦ subst (λ x. Settled (use_of x)) (sym (there i ne)) (valid.settled i)
  ];
  live = r.live;
  single = r.single;
}
  where
    here : t.heap id ≡ some c
    here = ap (λ h. h id) r.heap ∙ write_same s.heap id (some c)

    there : (i : ℕ) → i ≢ id → t.heap i ≡ s.heap i
    there i ne = ap (λ h. h i) r.heap ∙ write_other s.heap id (some c) i ne

    shape_after : Shape t.heap t.next_block
    shape_after =
        subst (λ h. Shape h t.next_block) (sym r.heap)
          (subst (λ n. Shape (write s.heap id (some c)) n) (sym r.next_block)
            (retag-Shape valid.shape id b c r.at r.place))

-- A block that waits for an event, or is allocated, is in no pool.
pub busy-absent :
    (s : Impl) (pending : List ℕ) (id : ℕ) (small : Bool)
    → IsValid s pending
    → places (use_of (s.heap id)) small ≡ 0
    → count id (pool_of s small) ≡ 0
busy-absent s pending id small valid e = omega (arith, valid.pooled small id, e)
