-- ===== src/Memory/Allocator/Pools.antt =====
-- The free pools of Library/Memory/gpu/cuda_caching_allocator.cpp: `cache_block_comparator`, the operations of
-- the ordered set that the allocator uses, and `get_free_block_locked`.
use xsigma.Common.{
  ℕ, ◌+◌, Bool, true, false, not, Option, none, some, List, [], ◌∷◌, ◌==◌, ltb, if◌then◌else◌,
  sub64,
}
use xsigma.Memory.Allocator.{CacheBlock, Heap, Impl, pool_of, with_pool}

-- The comparator, on what it reads of a block. The counter of a search key is -1, one below every
-- counter of a block, so counters are shifted by one here.
pub record Rank : Type 0 where
  pub stream : ℕ
  pub size : ℕ
  pub counter : ℕ
  pub ptr : ℕ

abbrev pub before : Rank → Rank → Bool
before a b =
    if not (a.stream == b.stream)
    then ltb a.stream b.stream
    else if not (a.size == b.size)
    then ltb a.size b.size
    else if not (a.counter == b.counter)
    then ltb a.counter b.counter
    else ltb a.ptr b.ptr

abbrev pub rank_of : CacheBlock → Rank
rank_of b = record {
  stream = b.stream;
  size = b.size;
  counter = b.registration_counter + 1;
  ptr = b.ptr;
}

-- The search key `cache_block key(nullptr, size, stream, &pool)`.
abbrev pub key_rank : ℕ → ℕ → Rank
key_rank stream size = record { stream = stream; size = size; counter = 0; ptr = 0 }

abbrev pub goes_before : Rank → Option CacheBlock → Bool
goes_before r none = true
goes_before r (some c) = before r (rank_of c)

abbrev pub goes_behind : Rank → Option CacheBlock → Bool
goes_behind r none = false
goes_behind r (some c) = before (rank_of c) r

-- `blocks.insert(block)`, which leaves out a block that is equivalent to one of the set.
unfoldable pub insert_block : Heap → Rank → ℕ → List ℕ → List ℕ
insert_block h r id [] = id ∷ []
insert_block h r id (j ∷ js) =
    let rest = insert_block h r id js in
    if goes_before r (h j) then id ∷ j ∷ js else if goes_behind r (h j) then j ∷ rest else j ∷ js

-- `blocks.erase(block)`, and `erase_from_pool_locked`, which falls back to a search by identity.
unfoldable pub erase_block : ℕ → List ℕ → List ℕ
erase_block id [] = []
erase_block id (j ∷ js) = if j == id then js else j ∷ erase_block id js

abbrev pub not_before : Rank → Option CacheBlock → Bool
not_before r none = false
not_before r (some c) = not (before (rank_of c) r)

-- `blocks.lower_bound(&key)`: the first block that does not come before the key.
unfoldable pub lower_bound : Heap → Rank → List ℕ → Option ℕ
lower_bound h r [] = none
lower_bound h r (j ∷ js) =
    let rest = lower_bound h r js in if not_before r (h j) then some j else rest

abbrev pub on_stream : ℕ → Option CacheBlock → Bool
on_stream stream none = false
on_stream stream (some b) = b.stream == stream

abbrev pub size_of : Option CacheBlock → ℕ
size_of none = 0
size_of (some b) = b.size

-- `get_free_block_locked`: the block, and the state without it in the pool.
abbrev pub take_block : Impl → Bool → ℕ → Impl
take_block s is_small id = record (with_pool s is_small (erase_block id (pool_of s is_small))) {
  bytes_cached = sub64 s.bytes_cached (size_of (s.heap id));
}

unfoldable pub get_free_block : Impl → Bool → ℕ → ℕ → Option (ℕ × Impl)
get_free_block s is_small stream size =
    elim (lower_bound s.heap (key_rank stream size) (pool_of s is_small)) [
      | none ↦ none
      | some id ↦ if on_stream stream (s.heap id) then some (id, take_block s is_small id) else none
    ]
