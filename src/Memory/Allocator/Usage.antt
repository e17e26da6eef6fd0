-- ===== src/Memory/Allocator/Usage.antt =====
-- How a block is used, as far as the pools, the live map and the event queues depend on it.
use xsigma.Common.{
  ℕ, ◌≡◌, Bool, true, false, not, ◌&&◌, Option, none, some, List, [], ◌==◌, if◌then◌else◌,
}
use xsigma.Memory.Allocator.{CacheBlock}
use xsigma.Memory.Allocator.Merge.{is_nil}

pub record Use : Type 0 where
  pub allocated : Bool
  pub event_count : ℕ
  pub stream_uses : List ℕ
  pub is_small : Bool

abbrev pub use_of : Option CacheBlock → Option Use
use_of none = none
use_of (some b) = some (record {
  allocated = b.allocated;
  event_count = b.event_count;
  stream_uses = b.stream_uses;
  is_small = b.is_small;
})

abbrev pub same_class : Bool → Bool → Bool
same_class p q = if p then q else not q

-- How often a block may stand in the pool of a size class.
abbrev pub places : Option Use → Bool → ℕ
places none small = 0
places (some u) small =
    if not u.allocated
      && (u.event_count == 0 && (is_nil u.stream_uses && same_class u.is_small small))
    then 1
    else 0

-- How many events wait for a block.
abbrev pub events_of : Option Use → ℕ
events_of none = 0
events_of (some u) = u.event_count

-- No events wait for an allocated block, and a block that is not allocated has no uses left to record.
abbrev pub Settled : Option Use → Type 0
Settled none = Unit {0}
Settled (some u) =
    (u.allocated ≡ true → u.event_count ≡ 0) × (u.allocated ≡ false → u.stream_uses ≡ [])
