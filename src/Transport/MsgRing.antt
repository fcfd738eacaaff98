-- ===== src/Transport/MsgRing.antt =====
-- `MsgRing` of crates/01-transport/transport/src/msg_ring.rs on a 64-bit target: one producer, one
-- consumer, each call a step. A panic is `none`. Waiting and waking change no state; a grant is
-- consumed by its commit, so that `committed` is not a field.
pub mod Consumer
pub mod Layout
pub mod Stamp
pub mod Reserve
pub mod Window
pub mod Send
pub mod Peek
pub mod Receive
use gbx.Prelude.{
  ℕ, zero, suc, ◌+◌, ◌-◌, ◌*◌, ◌/◌, ◌%◌, ◌^◌, max, u32, u16, update, ltb, leb, ◌==◌, if◌then◌else◌,
}
use mathlib.Core.Option
use gbx.Prelude.{Bool, true, false, ◌&&◌, ◌||◌, Option, none, some, List, [], ◌∷◌, length}
use gbx.Transport.Region.{TransportResult, ok, err, ◌>>=◌, invalid_capacity, Platform, new_aligned}

abbrev pub sentinel : ℕ
sentinel = 4294967295

pub record Envelope : Type 0 where
  pub tag : ℕ
  pub ver : ℕ
  pub flags : ℕ

pub record RecordMeta : Type 0 where
  pub envelope : Envelope
  pub total_len : ℕ

pub record Record : Type 0 where
  pub envelope : Envelope
  pub payload : List ℕ

pub record ProducerGrant : Type 0 where
  pub offset : ℕ
  pub payload_capacity : ℕ
  pub record_len : ℕ
  pub new_head : ℕ
  pub envelope : Envelope

pub record MsgRing : Type 0 where
  pub capacity : ℕ
  pub head : ℕ
  pub tail : ℕ
  pub bytes : ℕ → ℕ
  pub default_envelope : Envelope
  pub consumer_meta : Option RecordMeta

-- `& !(align - 1)` clears the low bits when `align` is a power of two, as it is in every call.
unfoldable pub align_up : ℕ → ℕ → ℕ
align_up value align = (value + (align - 1)) / align * align

-- `data[offset..].copy_from_slice(xs)`
unfoldable pub copy_from_slice : (ℕ → ℕ) → ℕ → List ℕ → ℕ → ℕ
copy_from_slice bytes offset [] = bytes
copy_from_slice bytes offset (x ∷ xs) = copy_from_slice (update bytes offset x) (suc offset) xs

-- `data[offset..offset + n].fill(0)`
unfoldable pub fill : (ℕ → ℕ) → ℕ → ℕ → ℕ → ℕ
fill bytes offset zero = bytes
fill bytes offset (suc n) = fill (update bytes offset 0) (suc offset) n

-- `&data[offset..offset + n]`
unfoldable pub slice : (ℕ → ℕ) → ℕ → ℕ → List ℕ
slice bytes offset zero = []
slice bytes offset (suc n) = bytes offset ∷ slice bytes (suc offset) n

unfoldable pub to_le_bytes : ℕ → List ℕ
to_le_bytes n = n % 256 ∷ n / 256 % 256 ∷ n / 65536 % 256 ∷ n / 16777216 % 256 ∷ []

unfoldable pub new : Platform → ℕ → Envelope → TransportResult MsgRing
unfolding align_up
new os capacity_bytes default_envelope =
    let capacity = align_up (max capacity_bytes 64) 8 in
    if leb 4294967295 capacity
    then err (invalid_capacity capacity_bytes 64)
    else new_aligned os (32 + capacity) 64 >>= λ _. ok (record {
      capacity = capacity;
      head = 0;
      tail = 0;
      bytes = λ _. 0;
      default_envelope = default_envelope;
      consumer_meta = none;
    })

unfoldable pub emit_sentinel : MsgRing → ℕ → MsgRing
unfolding copy_from_slice fill to_le_bytes
emit_sentinel r offset =
    let marked = copy_from_slice r.bytes offset (to_le_bytes sentinel) in
    record r { bytes = if leb (offset + 8) r.capacity then fill marked (offset + 4) 4 else marked }

-- The offset to write at and the head after it, with the ring that a sentinel may have changed.
unfoldable pub reserve_offset :
    MsgRing → (head tail record_len capacity : ℕ) → Option (ℕ × ℕ) × MsgRing
reserve_offset r head tail record_len capacity =
    if leb capacity head || leb capacity tail
    then (none, r)
    else if leb tail head
    then (if leb record_len (capacity - head)
        then (let new_head = if head + record_len == capacity then 0 else head + record_len in
            if new_head == tail then (none, r) else (some (head, new_head), r))
        else if leb tail record_len
        then (none, r)
        else if ltb (capacity - head) 4
        then (none, r)
        else (let marked = emit_sentinel r head in
            if record_len == tail then (none, marked) else (some (0, record_len), marked)))
    else if leb (tail - head) record_len
    then (none, r)
    else (some (head, head + record_len), r)

unfoldable pub try_reserve_with : MsgRing → Envelope → ℕ → Option ProducerGrant × MsgRing
try_reserve_with r envelope need =
    let total_len = if leb (2 ^ 64) (8 + need) then 2 ^ 64 - 1 else 8 + need in
    if leb r.capacity total_len
    then (none, r)
    else (let record_len = align_up total_len 8 in
        if leb r.capacity record_len
        then (none, r)
        else (let (place, marked) = reserve_offset r r.head r.tail record_len r.capacity in
            (
              Option.map
                  (λ (place : ℕ × ℕ). record {
                    offset = place.0;
                    payload_capacity = need;
                    record_len = record_len;
                    new_head = place.1;
                    envelope = envelope;
                  })
                  place,
              marked,
            )))

unfoldable pub try_reserve : MsgRing → ℕ → Option ProducerGrant × MsgRing
unfolding try_reserve_with
try_reserve r need = try_reserve_with r r.default_envelope need

-- The caller writes into the slice that `payload` lends; a write past its end panics.
unfoldable pub write_payload : MsgRing → ProducerGrant → List ℕ → Option MsgRing
write_payload r grant xs =
    if leb (length xs) grant.payload_capacity
    then some (record r { bytes = copy_from_slice r.bytes (grant.offset + 8) xs })
    else none

unfoldable pub set_envelope : ProducerGrant → Envelope → ProducerGrant
set_envelope grant envelope = record grant { envelope = envelope }

unfoldable pub write_envelope :
    MsgRing → (offset : ℕ) → Envelope → (payload_len record_len : ℕ) → MsgRing
unfolding copy_from_slice fill to_le_bytes
write_envelope r offset envelope payload_len record_len =
    let total_len = u32 (8 + payload_len) in
    let sized = copy_from_slice r.bytes offset (to_le_bytes total_len) in
    let tagged = update (update sized (offset + 4) envelope.tag) (offset + 5) envelope.ver in
    let flagged =
      copy_from_slice tagged (offset + 6)
        (envelope.flags % 256 ∷ envelope.flags / 256 % 256 ∷ []) in
    let payload_end = offset + 8 + payload_len in
    let record_end = offset + record_len in
    record r {
      bytes =
          if ltb payload_end record_end
          then fill flagged payload_end (record_end - payload_end)
          else flagged;
    }

unfoldable pub finish_producer :
    MsgRing → (offset : ℕ) → Envelope → (payload_len record_len new_head : ℕ) → MsgRing
unfolding write_envelope
finish_producer r offset envelope payload_len record_len new_head =
    record (write_envelope r offset envelope payload_len record_len) { head = u32 new_head }

unfoldable pub commit : MsgRing → ProducerGrant → ℕ → Option MsgRing
commit r grant written =
    if leb written grant.payload_capacity
    then some
        (finish_producer r grant.offset grant.envelope written grant.record_len grant.new_head)
    else none
