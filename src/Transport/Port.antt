-- ===== src/Transport/Port.antt =====
-- The ports of crates/01-transport/transport-fabric/src/port.rs, with the outcomes of service.rs,
-- the classes of codec.rs and the errors of error.rs there. Each call holds the port's lock
-- throughout, so it is one step. A panic of a message ring is `none`.
pub mod Fifo
pub mod History
use gbx.Transport.Region.{TransportError, TransportResult}
use gbx.Transport.Mailbox
use gbx.Transport.Mailbox.{Mailbox, MailboxSend, take_latest}
use gbx.Prelude.{
  ℕ, zero, suc, ◌+◌, u32, ◌==◌, ltb, if◌then◌else◌, Bool, true, false, Option, none, some, List, [],
  ◌∷◌, length,
}
use gbx.Transport.MsgRing.{
  MsgRing, Envelope, Record, ProducerGrant, try_reserve_with, write_payload, commit,
}
use gbx.Transport.MsgRing.Consumer.{consumer_peek, consumer_pop_advance}

pub data PortClass : Type 0 where
  lossless : PortClass
  best_effort : PortClass
  coalesce : PortClass

pub data SubmitOutcome : Type 0 where
  accepted : SubmitOutcome
  coalesced : SubmitOutcome
  dropped : SubmitOutcome
  would_block : SubmitOutcome
  closed : SubmitOutcome

pub data FabricError : Type 0 where
  transport : TransportError → FabricError
  codec : FabricError
  invalid_config : FabricError
  unsupported : FabricError

pub data FabricResult {ℓ} (A : Type ℓ) : Type ℓ where
  ok : A → FabricResult A
  err : FabricError → FabricResult A
  panicked : FabricResult A

pub data Backend : Type 0 where
  msg_ring : MsgRing → Backend
  mailbox : Mailbox → Backend

pub record PortMetrics : Type 0 where
  pub accepted : ℕ
  pub coalesced : ℕ
  pub dropped : ℕ
  pub would_block : ℕ

pub record SharedPort : Type 0 where
  pub class : PortClass
  pub backend : Backend
  pub metrics : PortMetrics

abbrev pub no_metrics : PortMetrics
no_metrics = record { accepted = 0; coalesced = 0; dropped = 0; would_block = 0 }

unfoldable pub new_ring : PortClass → MsgRing → SharedPort
new_ring class ring = record { class = class; backend = msg_ring ring; metrics = no_metrics }

unfoldable pub new_mailbox : Mailbox → SharedPort
new_mailbox slot = record { class = coalesce; backend = mailbox slot; metrics = no_metrics }

-- `PortMetrics::record`: the counters wrap around.
unfoldable pub count_outcome : PortMetrics → SubmitOutcome → PortMetrics
count_outcome m SubmitOutcome.accepted = record m { accepted = u32 (m.accepted + 1) }
count_outcome m SubmitOutcome.coalesced = record m { coalesced = u32 (m.coalesced + 1) }
count_outcome m SubmitOutcome.dropped = record m { dropped = u32 (m.dropped + 1) }
count_outcome m SubmitOutcome.would_block = record m { would_block = u32 (m.would_block + 1) }
count_outcome m closed = m

-- Whether the record was committed. The slice that a grant lends has the length asked for, so the
-- test of its length against the payload's never fails.
unfoldable pub reserve_and_commit : MsgRing → Envelope → List ℕ → Option (Bool × MsgRing)
reserve_and_commit ring envelope payload =
    let (reserved, marked) = try_reserve_with ring envelope (length payload) in
    elim reserved [
      | none ↦ some (false, marked)
      | some grant ↦ elim (write_payload marked grant payload) [
        | none ↦ none
        | some written ↦ elim (commit written grant (length payload)) [
          | none ↦ none
          | some committed ↦ some (true, committed)
        ]
      ]
    ]

-- `consumer_peek`, the callback on the record, `consumer_pop_advance`: the record handed over.
unfoldable pub drain_one : MsgRing → Option (Option Record × MsgRing)
drain_one ring = elim (consumer_peek ring) [
  | none ↦ none
  | some (none, peeked) ↦ some (none, peeked)
  | some (some m, peeked) ↦ elim (consumer_pop_advance peeked) [
    | none ↦ none
    | some popped ↦ some (some m, popped)
  ]
]

-- The records handed to the callback, in order: the loop `while drained < max`.
unfoldable pub drain_ring : ℕ → MsgRing → Option (List Record × MsgRing)
drain_ring zero ring = some ([], ring)
drain_ring (suc max) ring = elim (drain_one ring) [
  | none ↦ none
  | some (none, drained) ↦ some ([], drained)
  | some (some m, popped) ↦ elim (drain_ring max popped) [
    | none ↦ none
    | some (ms, drained) ↦ some (m ∷ ms, drained)
  ]
]

-- `send_ring_lossless` and `send_ring_besteffort`, by the outcome of a refusal.
unfoldable pub send_ring :
    SubmitOutcome → MsgRing → Envelope → List ℕ → FabricResult (SubmitOutcome × Backend)
send_ring refusal ring envelope payload = elim (reserve_and_commit ring envelope payload) [
  | none ↦ panicked
  | some (true, sent) ↦ ok (SubmitOutcome.accepted, msg_ring sent)
  | some (false, refused) ↦ ok (refusal, msg_ring refused)
]

unfoldable pub send_mailbox : Mailbox → Envelope → List ℕ → FabricResult (SubmitOutcome × Backend)
send_mailbox slot envelope payload = elim (Mailbox.try_send slot payload (some envelope)) [
  | TransportResult.err e ↦ err (transport e)
  | TransportResult.ok (MailboxSend.accepted, sent) ↦ ok (SubmitOutcome.accepted, mailbox sent)
  | TransportResult.ok (MailboxSend.coalesced, sent) ↦ ok (SubmitOutcome.coalesced, mailbox sent)
]

unfoldable pub send_backend :
    Backend → PortClass → Envelope → List ℕ → FabricResult (SubmitOutcome × Backend)
send_backend (msg_ring ring) lossless envelope payload =
    send_ring SubmitOutcome.would_block ring envelope payload
send_backend (msg_ring ring) best_effort envelope payload =
    send_ring SubmitOutcome.dropped ring envelope payload
send_backend (mailbox slot) coalesce envelope payload = send_mailbox slot envelope payload
send_backend (msg_ring ring) coalesce envelope payload = err invalid_config
send_backend (mailbox slot) lossless envelope payload = err invalid_config
send_backend (mailbox slot) best_effort envelope payload = err invalid_config

-- `ProducerPort::try_send`; an error changes nothing.
unfoldable pub try_send : SharedPort → Envelope → List ℕ → FabricResult (SubmitOutcome × SharedPort)
try_send port envelope payload = elim (send_backend port.backend port.class envelope payload) [
  | panicked ↦ panicked
  | err e ↦ err e
  | ok (outcome, sent) ↦
      ok (outcome, record port { backend = sent; metrics = count_outcome port.metrics outcome })
]

unfoldable pub drain_backend : Backend → ℕ → FabricResult (List Record × Backend)
drain_backend (msg_ring ring) max = elim (drain_ring max ring) [
  | none ↦ panicked
  | some (records, drained) ↦ ok (records, msg_ring drained)
]
drain_backend (mailbox slot) max =
    let (latest, taken) = take_latest slot in
    elim latest [ none ↦ ok ([], mailbox taken) | some m ↦ ok (m ∷ [], mailbox taken) ]

-- `ConsumerPort::drain_records`, with the records that the callback is given.
unfoldable pub drain_records : SharedPort → ℕ → FabricResult (List Record × SharedPort)
drain_records port max = if max == 0 then ok ([], port) else elim (drain_backend port.backend max) [
  | panicked ↦ panicked
  | err e ↦ err e
  | ok (records, drained) ↦ ok (records, record port { backend = drained })
]
