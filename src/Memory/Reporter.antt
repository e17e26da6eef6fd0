-- ===== src/Memory/Reporter.antt =====
-- Library/Memory/profiler/profiled_cpu_memory_reporter.h and profiled_cpu_memory_reporter.cpp: the table of
-- live CPU allocations. The unordered map is an association list with one entry for each key. The
-- events sent to the profiler, a library outside the repository, are returned.
pub mod Account
use xsigma.Common.{
  ℕ, ◌+◌, ◌-◌, ◌%◌, ◌^◌, Bool, true, false, Option, none, some, List, [], ◌∷◌, ◌==◌, ◌&&◌,
  if◌then◌else◌, length, to_u64, sub64, ℤ, to_i64, neg,
}

-- `profiler::report_memory_usage`, with the pointer, the signed size and the running total, and
-- `profiler::report_out_of_memory`.
pub data Report : Type 0 where
  memory_usage : ℕ → ℤ → ℕ → Report
  out_of_memory : ℤ → ℕ → Report

pub record SizeEntry : Type 0 where
  pub ptr : ℕ
  pub nbytes : ℕ

pub record ProfiledCpuMemoryReporter : Type 0 where
  pub size_table : List SizeEntry
  pub tracked_blocks_fast : ℕ
  pub allocated : ℕ
  pub num_ooms : ℕ
  pub unknown_free_log_count : ℕ

abbrev pub new_reporter : ProfiledCpuMemoryReporter
new_reporter = record {
  size_table = [];
  tracked_blocks_fast = 0;
  allocated = 0;
  num_ooms = 0;
  unknown_free_log_count = 0;
}

unfoldable pub find : ℕ → List SizeEntry → Option ℕ
find ptr [] = none
find ptr (e ∷ es) = if e.ptr == ptr then some e.nbytes else find ptr es

-- `size_table_[ptr] = nbytes`
unfoldable pub assign : ℕ → ℕ → List SizeEntry → List SizeEntry
assign ptr nbytes [] = record { ptr = ptr; nbytes = nbytes } ∷ []
assign ptr nbytes (e ∷ es) =
    let rest = assign ptr nbytes es in
    if e.ptr == ptr then record { ptr = ptr; nbytes = nbytes } ∷ es else e ∷ rest

unfoldable pub erase : ℕ → List SizeEntry → List SizeEntry
erase ptr [] = []
erase ptr (e ∷ es) = let rest = erase ptr es in if e.ptr == ptr then es else e ∷ rest

abbrev pub forget : ℕ → Option ℕ → ℕ
forget allocated none = allocated
forget allocated (some old) = sub64 allocated old

abbrev pub tracked : ℕ → Option ℕ → ℕ
tracked fast none = to_u64 (fast + 1)
tracked fast (some _) = fast

unfoldable pub record_allocation :
    ProfiledCpuMemoryReporter → ℕ → ℕ → ProfiledCpuMemoryReporter × List Report
unfolding find assign
record_allocation r ptr nbytes =
    let old = find ptr r.size_table in
    let allocated = to_u64 (forget r.allocated old + nbytes) in
    if ptr == 0 then (r, []) else if nbytes == 0 then (r, []) else (
      record r {
        size_table = assign ptr nbytes r.size_table;
        tracked_blocks_fast = tracked r.tracked_blocks_fast old;
        allocated = allocated;
      },
      memory_usage ptr (to_i64 nbytes) allocated ∷ [],
    )

-- The part of `record_deallocation` behind the null check: the block is known, or it is not.
abbrev pub drop_block :
    ProfiledCpuMemoryReporter → ℕ → Bool → Option ℕ → ProfiledCpuMemoryReporter × List Report
drop_block r ptr emit_event none = (
  record r {
    unknown_free_log_count =
        if emit_event then to_u64 (r.unknown_free_log_count + 1) else r.unknown_free_log_count;
  },
  [],
)
drop_block r ptr emit_event (some nbytes) = (
  record r {
    size_table = erase ptr r.size_table;
    tracked_blocks_fast = sub64 r.tracked_blocks_fast 1;
    allocated = sub64 r.allocated nbytes;
  },
  if nbytes == 0
      then []
      else if emit_event
      then memory_usage ptr (neg (to_i64 nbytes)) (sub64 r.allocated nbytes) ∷ []
      else [],
)

unfoldable pub record_deallocation :
    ProfiledCpuMemoryReporter → ℕ → Bool → ProfiledCpuMemoryReporter × List Report
unfolding find erase
record_deallocation r ptr emit_event =
    if ptr == 0 then (r, []) else drop_block r ptr emit_event (find ptr r.size_table)

unfoldable pub record_out_of_memory :
    ProfiledCpuMemoryReporter → ℕ → ProfiledCpuMemoryReporter × List Report
record_out_of_memory r nbytes = if nbytes == 0 then (r, []) else (
  record r { num_ooms = to_u64 (r.num_ooms + 1) },
  out_of_memory (to_i64 nbytes) r.allocated ∷ [],
)

unfoldable pub tracked_blocks : ProfiledCpuMemoryReporter → ℕ
tracked_blocks r = length r.size_table

unfoldable pub has_tracked_blocks : ProfiledCpuMemoryReporter → Bool
has_tracked_blocks r = if r.tracked_blocks_fast == 0 then false else true

abbrev pub reset_reporter : ProfiledCpuMemoryReporter → ProfiledCpuMemoryReporter
reset_reporter r = new_reporter
