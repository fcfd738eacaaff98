-- ===== src/Transport/MsgRing/Consumer.antt =====
-- The consumer's calls of crates/01-transport/transport/src/msg_ring.rs. A panic is `none`.
use gbx.Prelude.{ℕ, zero, suc, ◌+◌, ◌-◌, ◌*◌, u32, ltb, leb, ◌==◌, if◌then◌else◌}
use gbx.Prelude.{Option, none, some}
use gbx.Transport.MsgRing.{MsgRing, Envelope, RecordMeta, Record, sentinel, align_up, slice}

unfoldable pub read_u32_at : MsgRing → ℕ → Option ℕ
read_u32_at r offset =
    if ltb r.capacity (offset + 4)
    then none
    else some (
        r.bytes offset
        + 256 * r.bytes (offset + 1)
        + 65536 * r.bytes (offset + 2)
        + 16777216 * r.bytes (offset + 3))

unfoldable pub envelope_at : MsgRing → ℕ → Envelope
envelope_at r tail = record {
  tag = r.bytes (tail + 4);
  ver = r.bytes (tail + 5);
  flags = r.bytes (tail + 6) + 256 * r.bytes (tail + 7);
}

-- What one round of the loop of `consumer_peek` finds at the tail.
pub data Round : Type 0 where
  panicked : Round
  drained : Round
  wrapped : Round
  found : ℕ → Round

unfoldable pub peek_round : MsgRing → Round
unfolding read_u32_at
peek_round r = if r.head == r.tail then drained else elim (read_u32_at r r.tail) [
  | none ↦ panicked
  | some total_len ↦
      if total_len == sentinel
      then wrapped
      else if ltb total_len 8
      then panicked
      else if ltb r.capacity (r.tail + total_len)
      then panicked
      else found total_len
]

-- The loop on fuel, which is also `none` when it runs out.
unfoldable pub peek_loop : ℕ → MsgRing → Option (Option Record × MsgRing)
unfolding peek_round envelope_at slice
peek_loop zero r = none
peek_loop (suc fuel) r = elim (peek_round r) [
  | panicked ↦ none
  | drained ↦ some (none, record r { consumer_meta = none })
  | wrapped ↦ peek_loop fuel (record r { tail = 0 })
  | found total_len ↦ some (
    some (record {
      envelope = envelope_at r r.tail;
      payload = slice r.bytes (r.tail + 8) (total_len - 8);
    }),
    record r {
      consumer_meta = some (record { envelope = envelope_at r r.tail; total_len = total_len });
    },
  )
]

-- Two rounds are enough: nothing is wrapped at offset 0.
unfoldable pub consumer_peek : MsgRing → Option (Option Record × MsgRing)
unfolding peek_loop
consumer_peek r = peek_loop 2 r

unfoldable pub peek_envelope_at : MsgRing → ℕ → Option RecordMeta
unfolding read_u32_at envelope_at
peek_envelope_at r tail = elim (read_u32_at r tail) [
  | none ↦ none
  | some total ↦
      if total == sentinel
      then none
      else some (record { envelope = envelope_at r tail; total_len = total })
]

-- The metadata of the last peek, or else those at the tail.
unfoldable pub meta_at_tail : MsgRing → Option RecordMeta
unfolding peek_envelope_at
meta_at_tail r = elim r.consumer_meta [ some meta ↦ some meta | none ↦ peek_envelope_at r r.tail ]

unfoldable pub consumer_pop_advance : MsgRing → Option MsgRing
unfolding meta_at_tail align_up
consumer_pop_advance r =
    if r.tail == r.head then some (record r { consumer_meta = none }) else elim (meta_at_tail r) [
      | none ↦ none
      | some meta ↦
          let new_tail = r.tail + align_up meta.total_len 8 in
          let wrapped_tail = if leb r.capacity new_tail then new_tail - r.capacity else new_tail in
          some (record r { tail = u32 wrapped_tail; consumer_meta = none })
    ]

unfoldable pub consumer_last_envelope : MsgRing → Option Envelope
consumer_last_envelope r = elim r.consumer_meta [ none ↦ none | some meta ↦ some meta.envelope ]
