-- ===== src/Memory/Tests/Deallocating.antt =====
-- `deallocate` and `snapshot` on an allocator with one live allocation.
use xsigma.Common.{
  ℕ, ◌-◌, ◌^◌, ◌≤◌, ◌≡◌, refl, sym, ap, ◌∙◌, Bool, true, false, none, some, some_inj, List, [], ◌∷◌,
  ◌==◌, ==_iff, inl, inr, Bool-cases, count, arith,
}
use xsigma.Memory.Allocator.{CacheBlock, write, Impl, LiveEntry, pool_of, find_live, erase_live}
use xsigma.Memory.Allocator.Entry.{new_impl, segment_block, deallocate}
use xsigma.Memory.Allocator.Events.{Runtime, success}
use xsigma.Memory.Allocator.Usage.{use_of, places}
use xsigma.Memory.Allocator.Shape.{Shape}
use xsigma.Memory.Allocator.Shape.Absorb.{none-some}
use xsigma.Memory.Allocator.Shape.Retag.{grow-Shape, retag-Shape}
use xsigma.Memory.Allocator.Snapshots.Seen.{Shown, take_snapshot-Shown}
use xsigma.Memory.Allocator.Valid.{IsValid}
use xsigma.Memory.Allocator.Valid.Orphans.{Orphaned, deallocate-Orphaned}
use xsigma.Memory.Allocator.Valid.Deallocation.{Landed, deallocate-Landed}

abbrev ready_runtime : Runtime
ready_runtime = record {
  selects = λ _. true;
  query = λ _. success;
  synchronizes = λ _. true;
  new_event = λ _. some 1;
  records = λ _ _. true;
}

abbrev whole_block : Bool → CacheBlock
whole_block allocated =
    record (segment_block (record { ptr = 4096; size = 2097152; vm = false }) 7 true 1) {
      allocated = allocated;
    }

abbrev live_entries : List LiveEntry
live_entries = record { ptr = 4096; block = 0 } ∷ []

abbrev one_live : Impl
one_live = record (new_impl (2 ^ 64 - 1)) {
  heap = write (write (λ _. none) 0 (some (whole_block false))) 0 (some (whole_block true));
  next_block = 1;
  allocated_blocks = live_entries;
}

one_live-Shape : Shape one_live.heap 1
one_live-Shape = retag-Shape grown 0 (whole_block false) (whole_block true) refl (record {
  ptr = refl;
  size = refl;
  prev = refl;
  next = refl;
  is_small = refl;
  stream = refl;
  segment_base = refl;
})
  where
    empty : Shape (λ _. none) 0
    empty = record {
      fresh = λ i le. refl;
      sized = λ i b e. absurd (none-some e);
      apart = λ i j b c ne e f. absurd (none-some e);
      next_ok = λ i j b e l. absurd (none-some e);
      prev_ok = λ i j b e l. absurd (none-some e);
    }

    grown : Shape (write (λ _. none) 0 (some (whole_block false))) 1
    grown =
        grow-Shape empty (record { ptr = 4096; size = 2097152; vm = false }) 7 true 1 (omega arith)
          (omega arith) (λ i b e. absurd (none-some e))

only_entry : (p i : ℕ) → find_live p live_entries ≡ some i → (p ≡ 4096) × (i ≡ 0)
unfolding find_live
only_entry p i e = elim (Bool-cases (4096 == p)) [
  | inl same ↦ (sym ((==_iff 4096 p).0 same), some_inj (sym e ∙ rw same refl))
  | inr other ↦ absurd (none-some (sym (rw other refl) ∙ e))
]

one_live-IsValid : IsValid one_live []
unfolding count find_live erase_live
one_live-IsValid = record {
  shape = one_live-Shape;
  pooled = λ small i. no_pool small i;
  awaited =
      λ i. elim (Bool-cases (i == 0)) [ inl first ↦ rw first refl | inr other ↦ rw other refl ];
  settled = λ i. elim (Bool-cases (i == 0)) [
    | inl first ↦ rw first ((λ on. refl), (λ off. refl))
    | inr other ↦ rw other tt
  ];
  live = λ p i e.
      let (same, zero_id) = only_entry p i e in
      (whole_block true, ap one_live.heap zero_id, refl, sym same);
  single = λ p. elim (Bool-cases (4096 == p)) [
    | inl same ↦ rw same refl
    | inr other ↦ rw other (rw other refl)
  ];
}
  where
    no_pool :
        (small : Bool) (i : ℕ)
        → count i (pool_of one_live small) ≤ places (use_of (one_live.heap i)) small
    no_pool true i = omega arith
    no_pool false i = omega arith

deallocate-Landed_example : Landed one_live 4096 (deallocate ready_runtime one_live 4096 9)
deallocate-Landed_example =
    deallocate-Landed ready_runtime one_live 4096 9 one_live-IsValid (omega arith) (λ _. refl)

abbrev refusing_runtime : Runtime
refusing_runtime = record ready_runtime { selects = λ _. false }

deallocate-Orphaned_example : Orphaned 4096 0 (deallocate refusing_runtime one_live 4096 9)
unfolding find_live
deallocate-Orphaned_example =
    deallocate-Orphaned refusing_runtime one_live 4096 9 0 (whole_block true) one_live-IsValid refl
      (omega arith) refl refl refl (λ _. refl)

take_snapshot-Shown_example : Shown one_live
take_snapshot-Shown_example = take_snapshot-Shown one_live [] one_live-IsValid
