-- ===== src/Memory/Reporter/Account.antt =====
-- The running total of the reporter is the sum of its table, whatever is recorded.
use xsigma.Common.{
  ℕ, suc, pos, negsuc, ◌+◌, ◌^◌, ◌<◌, ◌≡◌, ◌↔◌, Bool, true, false, none, some, List, [], ◌∷◌, ◌==◌,
  arith, if◌then◌else◌, length, Option-cases, inl, inr, foldl, to_u64,
}
use xsigma.Memory.Reporter.{
  memory_usage, SizeEntry, ProfiledCpuMemoryReporter, find, assign, erase, record_allocation,
  record_deallocation, record_out_of_memory, tracked_blocks, has_tracked_blocks, reset_reporter,
}

abbrev pub total_bytes : List SizeEntry → ℕ
total_bytes [] = 0
total_bytes (e ∷ es) = e.nbytes + total_bytes es

-- The operations, as a program calls them.
pub data Operation : Type 0 where
  allocation : ℕ → ℕ → Operation
  deallocation : ℕ → Bool → Operation
  failure : ℕ → Operation
  resetting : Operation

unfoldable pub perform : ProfiledCpuMemoryReporter → Operation → ProfiledCpuMemoryReporter
perform r (allocation ptr nbytes) = (record_allocation r ptr nbytes).0
perform r (deallocation ptr emit_event) = (record_deallocation r ptr emit_event).0
perform r (failure nbytes) = (record_out_of_memory r nbytes).0
perform r resetting = reset_reporter r

pub record IsConsistent (r : ProfiledCpuMemoryReporter) : Type 0 where
  pub total : r.allocated ≡ to_u64 (total_bytes r.size_table)
  pub fast : r.tracked_blocks_fast ≡ to_u64 (length r.size_table)

total-assign_new :
    (ptr nbytes : ℕ) (es : List SizeEntry)
    → find ptr es ≡ none
    → (total_bytes (assign ptr nbytes es) ≡ total_bytes es + nbytes)
      × (length (assign ptr nbytes es) ≡ length es + 1)
unfolding find assign
total-assign_new ptr nbytes [] h = omega arith
total-assign_new ptr nbytes (e ∷ es) h = ground (arith, total-assign_new ptr nbytes es)

total-assign_old :
    (ptr nbytes old : ℕ) (es : List SizeEntry)
    → find ptr es ≡ some old
    → (total_bytes (assign ptr nbytes es) + old ≡ total_bytes es + nbytes)
      × (length (assign ptr nbytes es) ≡ length es)
unfolding find assign
total-assign_old ptr nbytes old [] h = cc
total-assign_old ptr nbytes old (e ∷ es) h = ground (arith, total-assign_old ptr nbytes old es)

total-erase :
    (ptr old : ℕ) (es : List SizeEntry)
    → find ptr es ≡ some old
    → (total_bytes (erase ptr es) + old ≡ total_bytes es) × (length (erase ptr es) + 1 ≡ length es)
unfolding find erase
total-erase ptr old [] h = cc
total-erase ptr old (e ∷ es) h = ground (arith, total-erase ptr old es)

record_allocation-IsConsistent :
    {r : ProfiledCpuMemoryReporter} (ptr nbytes : ℕ)
    → IsConsistent r
    → IsConsistent (record_allocation r ptr nbytes).0
unfolding record_allocation
record_allocation-IsConsistent {r} ptr nbytes c = elim (Option-cases (find ptr r.size_table)) [
  | inl new ↦ ground (arith, new, total-assign_new ptr nbytes r.size_table new)
  | inr (old, known) ↦ ground (arith, known, total-assign_old ptr nbytes old r.size_table known)
]

record_deallocation-IsConsistent :
    {r : ProfiledCpuMemoryReporter} (ptr : ℕ) (emit_event : Bool)
    → IsConsistent r
    → IsConsistent (record_deallocation r ptr emit_event).0
unfolding record_deallocation
record_deallocation-IsConsistent {r} ptr emit_event c =
    elim (Option-cases (find ptr r.size_table)) [
      | inl new ↦ ground (arith, new)
      | inr (old, known) ↦ ground (arith, known, total-erase ptr old r.size_table known)
    ]

perform-IsConsistent :
    {r : ProfiledCpuMemoryReporter} (op : Operation) → IsConsistent r → IsConsistent (perform r op)
unfolding perform record_out_of_memory
perform-IsConsistent (allocation ptr nbytes) c = record_allocation-IsConsistent ptr nbytes c
perform-IsConsistent (deallocation ptr emit_event) c =
    record_deallocation-IsConsistent ptr emit_event c
perform-IsConsistent (failure nbytes) c = ground arith
perform-IsConsistent resetting c = omega arith

perform_all_lem :
    (r : ProfiledCpuMemoryReporter) (ops : List Operation)
    → IsConsistent r
    → IsConsistent (foldl perform r ops)
perform_all_lem r [] c = c
perform_all_lem r (op ∷ ops) c = perform_all_lem (perform r op) ops (perform-IsConsistent op c)

-- Whatever is recorded, from a consistent state: the running total is the sum of the table modulo
-- 2 ^ 64, and if the table ends with fewer than 2 ^ 64 entries, the fast test says that there are
-- none exactly if the table is empty.
pub perform_all-IsConsistent :
    (r : ProfiledCpuMemoryReporter) (ops : List Operation)
    → IsConsistent r
    → tracked_blocks (foldl perform r ops) < 2 ^ 64
    → IsConsistent (foldl perform r ops)
      × ((has_tracked_blocks (foldl perform r ops) ≡ false)
          ↔ (tracked_blocks (foldl perform r ops) ≡ 0))
unfolding tracked_blocks has_tracked_blocks
perform_all-IsConsistent r ops c fits =
    let d = perform_all_lem r ops c in (d, (λ h. ground arith, λ h. ground arith))

find-assign :
    (ptr other nbytes : ℕ) (es : List SizeEntry)
    → find other (assign ptr nbytes es) ≡ (if ptr == other then some nbytes else find other es)
unfolding find assign
find-assign ptr other nbytes [] = ground arith
find-assign ptr other nbytes (e ∷ es) = ground (arith, find-assign ptr other nbytes es)

-- A block of a positive size below 2 ^ 63 that is recorded and then freed, with no other call between, is
-- reported twice, with its size and with the size negated, and leaves the running total as it was, if it was
-- not in the table before.
pub record_deallocation-record_allocation :
    (r : ProfiledCpuMemoryReporter) (ptr nbytes : ℕ)
    → IsConsistent r
    → find ptr r.size_table ≡ none
    → 0 < ptr
    → nbytes + 1 < 2 ^ 63
    → let after = (record_allocation r ptr (suc nbytes)).0 in
      ((record_deallocation after ptr true).0.allocated ≡ r.allocated)
      × ((record_deallocation after ptr true).1 ≡ memory_usage ptr (negsuc nbytes) r.allocated ∷ [])
      × ((record_allocation r ptr (suc nbytes)).1
          ≡ memory_usage ptr (pos (suc nbytes)) (to_u64 (r.allocated + suc nbytes)) ∷ [])
unfolding record_deallocation record_allocation
record_deallocation-record_allocation r ptr nbytes c new real fits =
    ground (arith, new, find-assign ptr ptr (suc nbytes) r.size_table, c.total)
