-- ===== src/Memory/History/Ring.antt =====
-- The history is a bounded ring of the newest entries.
use xsigma.Common.{
  ℕ, zero, suc, ◌-◌, ◌≤◌, ◌<◌, ◌≡◌, refl, sym, ap, ◌∙◌, Bool, true, false, List, [], ◌∷◌, ◌++◌,
  foldl, arith, if◌then◌else◌, leb, length, length-append, drop, dec_lt,
}
use mathlib.Core.List.{append-nil, append_assoc}
use xsigma.Memory.History.{
  GpuMemoryTraceEntry, GpuMemoryHistory, pop_front, shrink, set_enabled, record_entry,
}

pub record IsBounded (h : GpuMemoryHistory) : Type 0 where
  pub room : 0 < h.max_entries
  pub within : length h.entries ≤ h.max_entries
  pub quiet : h.enabled ≡ false → h.entries ≡ []

length-pop_front {ℓ} : {A : Type ℓ} (xs : List A) → length (pop_front xs) ≡ length xs - 1
length-pop_front [] = refl
length-pop_front (x ∷ xs) = omega arith

-- Recording an entry keeps the ring within its maximum, and empty while it is disabled.
pub record_entry-IsBounded :
    {h : GpuMemoryHistory} (e : GpuMemoryTraceEntry) → IsBounded h → IsBounded (record_entry h e)
unfolding record_entry
record_entry-IsBounded {h} e b = ground (
  arith,
  length-append h.entries (e ∷ []),
  length-append (pop_front h.entries) (e ∷ []),
  length-pop_front h.entries,
)

length-shrink {ℓ} : {A : Type ℓ} (limit : ℕ) (xs : List A) → length (shrink limit xs) ≤ limit
length-shrink limit [] = omega arith
length-shrink limit (x ∷ xs) = ground (arith, length-shrink limit xs)

-- Switching the history on or off, with a new maximum or the old one, leaves at most the maximum of entries,
-- and none while it is disabled.
pub set_enabled-IsBounded :
    {h : GpuMemoryHistory} (enabled : Bool) (max_entries : ℕ)
    → IsBounded h
    → IsBounded (set_enabled h enabled max_entries)
unfolding set_enabled
set_enabled-IsBounded {h} enabled max_entries b =
    ground (arith, length-shrink h.max_entries h.entries, length-shrink max_entries h.entries)

-- The last `limit` elements.
abbrev pub newest {ℓ} : {A : Type ℓ} → ℕ → List A → List A
newest limit xs = drop (length xs - limit) xs

module _ {ℓ} {A : Type ℓ} where
  length-drop : (k : ℕ) (xs : List A) → length (drop k xs) ≡ length xs - k
  length-drop zero xs = omega arith
  length-drop (suc k) [] = omega arith
  length-drop (suc k) (x ∷ xs) = omega (arith, length-drop k xs)

  drop-append : (k : ℕ) (xs ys : List A) → k ≤ length xs → drop k (xs ++ ys) ≡ drop k xs ++ ys
  drop-append zero xs ys h = refl
  drop-append (suc k) [] ys h = absurd (omega arith)
  drop-append (suc k) (x ∷ xs) ys h = drop-append k xs ys (omega arith)

  pop_front-drop : (k : ℕ) (xs : List A) → pop_front (drop k xs) ≡ drop (suc k) xs
  pop_front-drop zero [] = refl
  pop_front-drop zero (x ∷ xs) = refl
  pop_front-drop (suc k) [] = refl
  pop_front-drop (suc k) (x ∷ xs) = pop_front-drop k xs

  -- Dropping the oldest of a full ring and adding an element.
  newest-push :
      (limit : ℕ) (xs : List A) (x : A)
      → 0 < limit
      → (if leb limit (length (newest limit xs))
            then pop_front (newest limit xs)
            else newest limit xs)
          ++ x ∷ []
        ≡ newest limit (xs ++ x ∷ [])
  newest-push limit xs x pos = elim (dec_lt (length xs) limit) [
    | yes short ↦
        let none_dropped : length xs - limit ≡ 0 = omega arith in
        let none_after : length (xs ++ x ∷ []) - limit ≡ 0 =
          omega (arith, length-append xs (x ∷ [])) in
        let open_ring : leb limit (length xs) ≡ false = ground arith in
        rw (none_dropped, none_after, open_ring) refl
    | no full ↦
        let over : length (xs ++ x ∷ []) - limit ≡ suc (length xs - limit) =
          omega (arith, length-append xs (x ∷ [])) in
        let closed : leb limit (length (newest limit xs)) ≡ true =
          ground (arith, length-drop (length xs - limit) xs) in
        rw (closed, over)
          (ap (λ ys. ys ++ x ∷ []) (pop_front-drop (length xs - limit) xs)
            ∙ sym (drop-append (suc (length xs - limit)) xs (x ∷ []) (omega arith)))
  ]

record_entry-newest :
    (h : GpuMemoryHistory) (old : List GpuMemoryTraceEntry) (e : GpuMemoryTraceEntry)
    → h.enabled ≡ true
    → 0 < h.max_entries
    → h.entries ≡ newest h.max_entries old
    → (record_entry h e).entries ≡ newest h.max_entries (old ++ e ∷ [])
unfolding record_entry
record_entry-newest h old e on pos same =
    let pushed = newest-push h.max_entries old e pos in simp (on, same) pushed

record_entry_keeps :
    (h : GpuMemoryHistory) (e : GpuMemoryTraceEntry)
    → ((record_entry h e).enabled ≡ h.enabled) × ((record_entry h e).max_entries ≡ h.max_entries)
unfolding record_entry
record_entry_keeps h e = ground arith

-- An enabled history with room for an entry holds the newest of all entries that were recorded, as
-- many as it has room for, in the order in which they came.
pub record_all-newest :
    (h : GpuMemoryHistory) (old es : List GpuMemoryTraceEntry)
    → h.enabled ≡ true
    → 0 < h.max_entries
    → h.entries ≡ newest h.max_entries old
    → (foldl record_entry h es).entries ≡ newest h.max_entries (old ++ es)
record_all-newest h old [] on pos same = same ∙ ap (newest h.max_entries) (sym (append-nil old))
record_all-newest h old (e ∷ es) on pos same =
    let (kept_on, kept_max) = record_entry_keeps h e in
    record_all-newest (record_entry h e) (old ++ e ∷ []) es (kept_on ∙ on) (omega (arith, kept_max))
      (record_entry-newest h old e on pos same ∙ ap (λ m. newest m (old ++ e ∷ [])) (sym kept_max))
    ∙ ap (λ m. newest m ((old ++ e ∷ []) ++ es)) kept_max
    ∙ ap (newest h.max_entries) (append_assoc old (e ∷ []) es)
