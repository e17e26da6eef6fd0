-- ===== src/Memory/History.antt =====
-- Library/Memory/profiler/gpu_memory_snapshot.h: the history ring of allocator actions. Addresses and
-- streams are numbers, 0 for a null pointer; the front of the deque is the head of the list.
pub mod Ring
use xsigma.Common.{
  ℕ, ◌+◌, ◌-◌, ◌^◌, ◌==◌, Bool, true, false, List, [], ◌∷◌, ◌++◌, if◌then◌else◌, ltb, leb, length,
}

pub data GpuMemoryTraceAction : Type 0 where
  alloc free_requested free_completed segment_alloc segment_free oom snapshot : GpuMemoryTraceAction

pub record GpuMemoryTraceEntry : Type 0 where
  pub action : GpuMemoryTraceAction
  pub address : ℕ
  pub size : ℕ
  pub total_allocated : ℕ
  pub total_reserved : ℕ
  pub stream : ℕ

abbrev pub default_memory_history_entries : ℕ
default_memory_history_entries = 100000

pub record GpuMemoryHistory : Type 0 where
  pub enabled : Bool
  pub max_entries : ℕ
  pub entries : List GpuMemoryTraceEntry

abbrev pub new_history : GpuMemoryHistory
new_history = record { enabled = false; max_entries = default_memory_history_entries; entries = [] }

abbrev pub pop_front {ℓ} : {A : Type ℓ} → List A → List A
pop_front [] = []
pop_front (_ ∷ xs) = xs

-- `while (entries_.size() > max_entries_) entries_.pop_front();`
abbrev pub shrink {ℓ} : {A : Type ℓ} → ℕ → List A → List A
shrink limit [] = []
shrink limit (x ∷ xs) =
    let rest = shrink limit xs in if ltb limit (length (x ∷ xs)) then rest else x ∷ xs

unfoldable pub set_enabled : GpuMemoryHistory → Bool → ℕ → GpuMemoryHistory
set_enabled h enabled max_entries =
    let limit = if max_entries == 0 then h.max_entries else max_entries in
    record {
      enabled = enabled;
      max_entries = limit;
      entries = if enabled then shrink limit h.entries else [];
    }

unfoldable pub record_entry : GpuMemoryHistory → GpuMemoryTraceEntry → GpuMemoryHistory
record_entry h entry =
    if h.enabled
    then record h {
      entries =
          (if leb h.max_entries (length h.entries) then pop_front h.entries else h.entries)
          ++ entry ∷ [];
    }
    else h

abbrev pub copy_entries : GpuMemoryHistory → List GpuMemoryTraceEntry
copy_entries h = h.entries
