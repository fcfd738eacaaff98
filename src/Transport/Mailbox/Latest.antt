-- ===== src/Transport/Mailbox/Latest.antt =====
-- A mailbox (mailbox.rs) as its latest record and the number of records sent since the last taken.
use gbx.Prelude.{
  zero, suc, ℕ, ◌+◌, ◌*◌, ◌/◌, ◌^◌, ◌≤◌, ◌<◌, ◌≡◌, ◌≢◌, ap, ◌∙◌, arith, u32, sub_u32, bit_or,
}
use gbx.Prelude.{false, ltb, ◌==◌, if◌then◌else◌, none, some, length}
use gbx.Prelude.Bits.{bit_or-fields, bit_and-low_mask}
use gbx.Transport.Region.{ok}
use gbx.Transport.MsgRing.{Envelope, Record, copy_from_slice, slice}
use gbx.Transport.MsgRing.Layout.{slice-copy}
use gbx.Transport.Mailbox.{
  Mailbox, accepted, coalesced, pack_envelope, unpack_envelope, try_send, take_latest,
}

-- The fields are in the range of their types.
pub record IsEnvelope (env : Envelope) : Type 0 where
  pub tag : env.tag < 256
  pub ver : env.ver < 256
  pub flags : env.flags < 65536

pack_fields :
    (env : Envelope)
    → IsEnvelope env
    → pack_envelope env ≡ env.tag * 16777216 + env.ver * 65536 + env.flags
unfolding pack_envelope
pack_fields env e =
    let high = bit_or-fields 24 env.tag (env.ver * 65536) (omega (arith, e.ver)) in
    let low = bit_or-fields 16 (env.tag * 256 + env.ver) env.flags e.flags in
    let joined : env.tag * 16777216 + env.ver * 65536 ≡ (env.tag * 256 + env.ver) * 65536 =
      omega arith in
    ap (λ k. bit_or k env.flags) (high ∙ joined) ∙ low ∙ omega arith

-- An envelope that is packed into 32 bits is unpacked again.
pub unpack_envelope-pack_envelope :
    (env : Envelope) → IsEnvelope env → unpack_envelope (pack_envelope env) ≡ env
unfolding unpack_envelope
unpack_envelope-pack_envelope env e =
    let packed = pack_fields env e in
    let bits = pack_envelope env in
    ground (
      arith,
      packed,
      bit_and-low_mask 8 (bits / 16777216),
      bit_and-low_mask 8 (bits / 65536),
      bit_and-low_mask 16 bits,
      e.tag,
      e.ver,
      e.flags,
    )

-- The mailbox shows `m`, if a record is unread.
abbrev pub Shows : Mailbox → ℕ → Record → Type 0
Shows mailbox zero m = Unit
Shows mailbox (suc n) m =
    (slice mailbox.bytes 0 mailbox.payload_len ≡ m.payload)
    × (unpack_envelope mailbox.envelope_packed ≡ m.envelope)

-- `unread` records were sent since the last one taken, the latest being `m`.
pub record Holds (mailbox : Mailbox) (unread : ℕ) (m : Record) : Type 0 where
  pub few : unread < 2 ^ 32
  pub read_in : mailbox.read_seq < 2 ^ 32
  pub seq : mailbox.write_seq ≡ u32 (mailbox.read_seq + unread)
  pub latest : Shows mailbox unread m

-- The mailbox after a send.
abbrev sent : Mailbox → Record → Mailbox
sent mailbox m = record mailbox {
  bytes = copy_from_slice mailbox.bytes 0 m.payload;
  payload_len = u32 (length m.payload);
  envelope_packed = pack_envelope m.envelope;
  write_seq = u32 (mailbox.write_seq + 1);
}

-- While fewer than 2³² records are unread, a send that fits reports whether it replaced an unread
-- record, and its record is then the latest.
pub try_send-Holds :
    (mailbox : Mailbox) (unread : ℕ) (last m : Record)
    → Holds mailbox unread last
    → suc unread < 2 ^ 32
    → IsEnvelope m.envelope
    → length m.payload ≤ mailbox.payload_capacity
    → mailbox.payload_capacity < 2 ^ 32
    → (q : Mailbox) × (try_send mailbox m.payload (some m.envelope)
        ≡ ok (if unread == 0 then accepted else coalesced, q))
      × Holds q (suc unread) m
unfolding try_send
try_send-Holds mailbox unread last m h few env fits small =
    let outcome : (if ltb 1 (sub_u32 (u32 (mailbox.write_seq + 1)) mailbox.read_seq)
          then coalesced
          else accepted)
        ≡ (if unread == 0 then accepted else coalesced) =
      ground (arith, h.seq, h.read_in) in
    let call : ltb mailbox.payload_capacity (length m.payload) ≡ false = ground arith in
    let whole : u32 (length m.payload) ≡ length m.payload = omega arith in
    (
      sent mailbox m,
      rw call (ap (λ o. ok (o, sent mailbox m)) outcome),
      record {
        few = few;
        read_in = h.read_in;
        seq = omega (arith, h.seq);
        latest = (
          ap (slice (copy_from_slice mailbox.bytes 0 m.payload) 0) whole
              ∙ slice-copy m.payload mailbox.bytes 0,
          unpack_envelope-pack_envelope m.envelope env,
        );
      },
    )

-- A take hands over the latest record if any is unread, and then none is.
pub take_latest-Holds :
    (mailbox : Mailbox) (unread : ℕ) (m : Record)
    → Holds mailbox unread m
    → ((take_latest mailbox).0 ≡ (if unread == 0 then none else some m))
      × Holds (take_latest mailbox).1 0 m
unfolding take_latest
take_latest-Holds mailbox zero m h =
    let still : mailbox.write_seq ≡ mailbox.read_seq = omega (arith, h.seq, h.read_in) in
    (
      ground (arith, still),
      record {
        few = omega arith;
        read_in = ground (arith, still, h.read_in);
        seq = ground (arith, still, h.read_in);
        latest = tt;
      },
    )
take_latest-Holds mailbox (suc n) m h =
    let moved : mailbox.write_seq ≢ mailbox.read_seq =
      λ e. omega (arith, h.seq, h.few, h.read_in, e) in
    let (payload, envelope) = h.latest in
    (
      ground (arith, moved, payload, envelope),
      record {
        few = omega arith;
        read_in = ground (arith, h.seq, moved, h.read_in);
        seq = ground (arith, h.seq, moved);
        latest = tt;
      },
    )
