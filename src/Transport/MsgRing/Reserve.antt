-- ===== src/Transport/MsgRing/Reserve.antt =====
-- Where `try_reserve_with` of msg_ring.rs places a record, and when it finds no place.
use gbx.Prelude.{ℕ, ◌+◌, ◌-◌, ◌*◌, ◌%◌, ◌≤◌, ◌<◌, ◌≡◌, ◌≢◌, refl, arith, leb, ◌==◌, if◌then◌else◌}
use gbx.Prelude.{◌||◌, Option, none, some, length}
use mathlib.Core.Option
use native.Mathlib.Decide.{dec_le, dec_lt}
use gbx.Transport.MsgRing.{
  MsgRing, Record, ProducerGrant, emit_sentinel, reserve_offset, try_reserve_with,
}
use gbx.Transport.MsgRing.Layout.{span, span-bounds}

-- The bytes from the tail to the head, an unused end of the buffer included.
abbrev pub in_use : MsgRing → ℕ
in_use r = if leb r.tail r.head then r.head - r.tail else r.head + r.capacity - r.tail

-- The three places of a record of `n` bytes: at the head, at the start of the buffer behind a
-- sentinel, and between the head and the tail.
pub data Place (r : MsgRing) (n offset new_head : ℕ) (marked : MsgRing) : Type 0 where
  at_head :
      r.tail ≤ r.head
      → r.head + n ≤ r.capacity
      → offset ≡ r.head
      → new_head ≡ (if r.head + n == r.capacity then 0 else r.head + n)
      → new_head ≢ r.tail
      → marked ≡ r
      → Place r n offset new_head marked
  at_start :
      r.tail ≤ r.head
      → r.capacity < r.head + n
      → n < r.tail
      → offset ≡ 0
      → new_head ≡ n
      → marked ≡ emit_sentinel r r.head
      → Place r n offset new_head marked
  in_gap :
      r.head < r.tail
      → r.head + n < r.tail
      → offset ≡ r.head
      → new_head ≡ r.head + n
      → marked ≡ r
      → Place r n offset new_head marked

module _ (r : MsgRing) (n : ℕ) (head_in : r.head < r.capacity) (tail_in : r.tail < r.capacity) where
  reserve_offset-Place :
      (offset new_head : ℕ) (marked : MsgRing)
      → reserve_offset r r.head r.tail n r.capacity ≡ (some (offset, new_head), marked)
      → Place r n offset new_head marked
  unfolding reserve_offset
  reserve_offset-Place offset new_head marked h = elim (dec_le r.tail r.head) [
    | no below ↦ in_gap (omega arith) (ground arith) (ground arith) (ground arith) (ground arith)
    | yes ahead ↦ elim (dec_le (r.head + n) r.capacity) [
      | yes fits ↦ at_head ahead fits (ground arith) (ground arith) (ground arith) (ground arith)
      | no wraps ↦
          at_start ahead (omega arith) (ground arith) (ground arith) (ground arith) (ground arith)
    ]
  ]

  -- A refused reservation changes nothing.
  reserve_offset-none :
      (marked : MsgRing) → reserve_offset r r.head r.tail n r.capacity ≡ (none, marked) → marked ≡ r
  unfolding reserve_offset
  reserve_offset-none marked h = ground arith

  -- It means that the bytes in use, with twice the record, exceed the capacity.
  reserve_offset-full :
      (marked : MsgRing)
      → 0 < n
      → r.head % 8 ≡ 0
      → r.capacity % 8 ≡ 0
      → reserve_offset r r.head r.tail n r.capacity ≡ (none, marked)
      → in_use r + 2 * n ≤ r.capacity
      → ⊥
  unfolding reserve_offset
  reserve_offset-full marked pos even whole h room = ground arith

module _ (r : MsgRing) (m : Record) (head_in : r.head < r.capacity) (tail_in : r.tail < r.capacity)
    (small : r.capacity < 4294967295) where
  -- The reservation in terms of what `reserve_offset` returns.
  by_offset :
      (offer : Option (ℕ × ℕ)) (marked : MsgRing)
      → reserve_offset r r.head r.tail (span m) r.capacity ≡ (offer, marked)
      → try_reserve_with r m.envelope (length m.payload) ≡ (
          if leb r.capacity (8 + length m.payload) || leb r.capacity (span m) then (none, r) else (
            Option.map
                (λ (place : ℕ × ℕ). record {
                  offset = place.0;
                  payload_capacity = length m.payload;
                  record_len = span m;
                  new_head = place.1;
                  envelope = m.envelope;
                })
                offer,
            marked,
          ))
  unfolding try_reserve_with
  by_offset offer marked e = ground (arith, e)

  placed_by :
      (offer : Option (ℕ × ℕ)) (left : MsgRing) (grant : ProducerGrant) (marked : MsgRing)
      → reserve_offset r r.head r.tail (span m) r.capacity ≡ (offer, left)
      → try_reserve_with r m.envelope (length m.payload) ≡ (some grant, marked)
      → (reserve_offset r r.head r.tail (span m) r.capacity
          ≡ (some (grant.offset, grant.new_head), marked))
        × (grant.payload_capacity ≡ length m.payload)
        × (grant.record_len ≡ span m)
        × (grant.envelope ≡ m.envelope)
        × (8 + length m.payload < r.capacity)
  placed_by none left grant marked e h = ground (arith, by_offset none left e)
  placed_by (some (o, n)) left grant marked e h = ground (arith, by_offset (some (o, n)) left e)

  refused_by :
      (offer : Option (ℕ × ℕ)) (left marked : MsgRing)
      → reserve_offset r r.head r.tail (span m) r.capacity ≡ (offer, left)
      → try_reserve_with r m.envelope (length m.payload) ≡ (none, marked)
      → (r.capacity ≤ span m → marked ≡ r)
        × (span m < r.capacity
            → reserve_offset r r.head r.tail (span m) r.capacity ≡ (none, marked))
  refused_by none left marked e h =
      let (long, _, _) = span-bounds m in ground (arith, by_offset none left e, long)
  refused_by (some (o, n)) left marked e h =
      let (long, _, _) = span-bounds m in ground (arith, by_offset (some (o, n)) left e, long)

  pub reserved :
      (grant : ProducerGrant) (marked : MsgRing)
      → try_reserve_with r m.envelope (length m.payload) ≡ (some grant, marked)
      → Place r (span m) grant.offset grant.new_head marked
        × (grant.payload_capacity ≡ length m.payload)
        × (grant.record_len ≡ span m)
        × (grant.envelope ≡ m.envelope)
        × (8 + length m.payload < r.capacity)
  reserved grant marked h =
      let (placed, capacity, record_len, envelope, fits) = placed_by _ _ grant marked refl h in
      (
        reserve_offset-Place r (span m) head_in tail_in grant.offset grant.new_head marked placed,
        capacity,
        record_len,
        envelope,
        fits,
      )

  pub refused :
      (marked : MsgRing)
      → r.head % 8 ≡ 0
      → r.capacity % 8 ≡ 0
      → try_reserve_with r m.envelope (length m.payload) ≡ (none, marked)
      → (marked ≡ r) × (r.capacity < in_use r + 2 * span m)
  refused marked even whole h =
      let (long, _, _) = span-bounds m in
      let (too_long, no_place) = refused_by _ _ marked refl h in
      elim (dec_lt (span m) r.capacity) [
        | no over ↦ (too_long (omega arith), omega (arith, long))
        | yes under ↦
            let none_placed = no_place under in
            let full =
              reserve_offset-full r (span m) head_in tail_in marked (omega (arith, long)) even whole
                none_placed in
            (
              reserve_offset-none r (span m) head_in tail_in marked none_placed,
              elim (dec_lt r.capacity (in_use r + 2 * span m)) [
                | yes more ↦ more
                | no room ↦ absurd (full (omega arith))
              ],
            )
      ]
