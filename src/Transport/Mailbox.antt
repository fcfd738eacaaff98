-- ===== src/Transport/Mailbox.antt =====
-- `Mailbox` of crates/01-transport/transport/src/mailbox.rs on a 64-bit target: each call a step.
pub mod Latest
use gbx.Prelude.{
  ℕ, zero, suc, ◌+◌, ◌-◌, ◌*◌, ◌%◌, ◌^◌, u8, u16, u32, sub_u32, ◌<<<◌, ◌>>>◌, bit_and, bit_or,
}
use gbx.Prelude.{ltb, leb, ◌==◌, if◌then◌else◌, Option, none, some, List, length, unwrap_or}
use gbx.Transport.Region.{TransportResult, ok, err, ◌>>=◌, invalid_capacity, Platform, new_aligned}
use gbx.Transport.MsgRing.{Envelope, Record, copy_from_slice, slice}

pub data MailboxSend : Type 0 where
  accepted : MailboxSend
  coalesced : MailboxSend

pub record Mailbox : Type 0 where
  pub payload_capacity : ℕ
  pub write_seq : ℕ
  pub read_seq : ℕ
  pub payload_len : ℕ
  pub envelope_packed : ℕ
  pub bytes : ℕ → ℕ
  pub default_envelope : Envelope

unfoldable pub align_capacity : ℕ → ℕ
align_capacity capacity =
    if capacity == 0
    then 8
    else if capacity % 8 == 0
    then capacity
    else capacity + (8 - capacity % 8)

unfoldable pub pack_envelope : Envelope → ℕ
pack_envelope env = bit_or (bit_or (env.tag <<< 24) (env.ver <<< 16)) env.flags

unfoldable pub unpack_envelope : ℕ → Envelope
unpack_envelope bits = record {
  tag = u8 (bit_and (bits >>> 24) 0xFF);
  ver = u8 (bit_and (bits >>> 16) 0xFF);
  flags = u16 (bit_and bits 0xFFFF);
}

-- The header is 24 bytes; `checked_add` cannot fail after the test of the capacity.
unfoldable pub new : Platform → ℕ → Envelope → TransportResult Mailbox
unfolding align_capacity
new os payload_capacity default_envelope =
    let capacity = align_capacity payload_capacity in
    if ltb 4294967295 capacity
    then err (invalid_capacity payload_capacity 8)
    else new_aligned os (24 + capacity) 64 >>= λ _. ok (record {
      payload_capacity = capacity;
      write_seq = 0;
      read_seq = 0;
      payload_len = 0;
      envelope_packed = pack_envelope default_envelope;
      bytes = λ _. 0;
      default_envelope = default_envelope;
    })

unfoldable pub try_send :
    Mailbox → List ℕ → Option Envelope → TransportResult (MailboxSend × Mailbox)
try_send mailbox payload envelope =
    if ltb mailbox.payload_capacity (length payload)
    then err (invalid_capacity (length payload) mailbox.payload_capacity)
    else let next_seq = u32 (mailbox.write_seq + 1) in
      let sent = record mailbox {
        bytes = copy_from_slice mailbox.bytes 0 payload;
        payload_len = u32 (length payload);
        envelope_packed = pack_envelope (unwrap_or mailbox.default_envelope envelope);
        write_seq = next_seq;
      } in
      ok (if ltb 1 (sub_u32 next_seq mailbox.read_seq) then coalesced else accepted, sent)

unfoldable pub take_latest : Mailbox → Option Record × Mailbox
take_latest mailbox = if mailbox.write_seq == mailbox.read_seq then (none, mailbox) else (
  some (record {
    envelope = unpack_envelope mailbox.envelope_packed;
    payload = slice mailbox.bytes 0 mailbox.payload_len;
  }),
  record mailbox { read_seq = mailbox.write_seq },
)
