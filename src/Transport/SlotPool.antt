-- ===== src/Transport/SlotPool.antt =====
-- `SlotPool` of crates/01-transport/transport/src/slot_pool.rs on a 64-bit target, with debug
-- assertions. A panic is `none`. `with_ref` and `with_mut` of the handle only pass the pool on.
pub mod Config
pub mod Lifecycle
use gbx.Prelude.{ℕ, zero, suc, ◌+◌, ◌*◌, ◌%◌, ◌^◌, ltb, leb, ◌==◌, if◌then◌else◌}
use gbx.Prelude.{Bool, true, false, not, ◌&&◌, ◌||◌, Option, none, some}
use gbx.Transport.Region.{
  TransportResult, err, ◌>>=◌, ◌>>◌, invalid_capacity, Platform, SharedRegion, new_aligned,
}
use gbx.Transport.IndexRing.{IndexRing, fill_sequential, push, pop, len}
use gbx.Transport.IndexRing

abbrev pub slot_alignment : ℕ
slot_alignment = 64

pub record SlotPoolConfig : Type 0 where
  pub slot_count : ℕ
  pub slot_size : ℕ

pub data SlotPush : Type 0 where
  ok : SlotPush
  would_block : SlotPush

pub data SlotPop : Type 0 where
  ok : ℕ → SlotPop
  empty : SlotPop

pub record SlotPool : Type 0 where
  pub slots : SharedRegion
  pub free_ring : IndexRing
  pub ready_ring : IndexRing
  pub slot_size : ℕ
  pub slot_count : ℕ

unfoldable pub validate_config : SlotPoolConfig → TransportResult (Unit {0})
validate_config config =
    if config.slot_count == 0
    then err (invalid_capacity 0 1)
    else if config.slot_size == 0 || not (config.slot_size % slot_alignment == 0)
    then err (invalid_capacity config.slot_size slot_alignment)
    else TransportResult.ok tt

-- `checked_mul` on `usize`
unfoldable pub slots_len : SlotPoolConfig → TransportResult ℕ
slots_len config =
    if ltb (config.slot_size * config.slot_count) (2 ^ 64)
    then TransportResult.ok (config.slot_size * config.slot_count)
    else err (invalid_capacity config.slot_size slot_alignment)

-- `os i` is what the system answers to the i-th allocation.
unfoldable pub new : (ℕ → Platform) → SlotPoolConfig → TransportResult SlotPool
unfolding validate_config slots_len
new os config = do
  validate_config config
  length ← slots_len config
  slots ← new_aligned (os 0) length 4096
  free_ring ← IndexRing.new (os 1) config.slot_count
  ready_ring ← IndexRing.new (os 2) config.slot_count
  TransportResult.ok (record {
    slots = slots;
    free_ring = fill_sequential free_ring;
    ready_ring = ready_ring;
    slot_size = config.slot_size;
    slot_count = config.slot_count;
  })

unfoldable pub try_acquire_free : SlotPool → Option ℕ × SlotPool
try_acquire_free pool = elim (pop pool.free_ring) [
  | none ↦ (none, pool)
  | some (i, ring) ↦ (some i, record pool { free_ring = ring })
]

-- The byte range [offset, end) of a slot. Slicing the region past its length panics too.
unfoldable pub slot_mut : SlotPool → ℕ → Option (ℕ × ℕ)
slot_mut pool idx =
    let offset = idx * pool.slot_size in
    let end = offset + pool.slot_size in
    if ltb idx pool.slot_count && leb end pool.slots.len then some (offset, end) else none

unfoldable pub push_ready : SlotPool → ℕ → Option (SlotPush × SlotPool)
push_ready pool idx =
    if ltb idx pool.slot_count
    then elim (push pool.ready_ring idx) [
      | none ↦ some (SlotPush.would_block, pool)
      | some ring ↦ some (SlotPush.ok, record pool { ready_ring = ring })
    ]
    else none

unfoldable pub pop_ready : SlotPool → SlotPop × SlotPool
pop_ready pool = elim (pop pool.ready_ring) [
  | none ↦ (SlotPop.empty, pool)
  | some (i, ring) ↦ (SlotPop.ok i, record pool { ready_ring = ring })
]

-- A full free ring fails a debug assertion.
unfoldable pub release_free : SlotPool → ℕ → Option SlotPool
release_free pool idx =
    if ltb idx pool.slot_count
    then elim (push pool.free_ring idx) [
      | none ↦ none
      | some ring ↦ some (record pool { free_ring = ring })
    ]
    else none

unfoldable pub free_len : SlotPool → ℕ
free_len pool = len pool.free_ring

unfoldable pub ready_len : SlotPool → ℕ
ready_len pool = len pool.ready_ring
