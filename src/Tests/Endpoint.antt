-- ===== src/Tests/Endpoint.antt =====
-- The two ends of a service (endpoint.rs) at concrete ports.
use gbx.Prelude.{
  ℕ, ◌+◌, ◌*◌, ◌≤◌, ◌<◌, ◌≡◌, ◌⊎◌, refl, arith, Option, none, some, List, [], ◌∷◌, ◌++◌, length,
}
use gbx.Transport.MsgRing.{MsgRing}
use gbx.Transport.MsgRing.Layout.{span}
use gbx.Transport.MsgRing.Reserve.{in_use}
use gbx.Transport.MsgRing.Window.{Holds}
use gbx.Transport.Port.{PortClass, SubmitOutcome, ok, mailbox, no_metrics}
use gbx.Transport.Port.Fifo.{ring_port}
use gbx.Transport.Endpoint
use gbx.Transport.Endpoint.{Codec, Encoded, decode_records, submit, drain_commands}
use gbx.Transport.Endpoint.Priority.{absent, over_mailbox, drain_commands_lem}
use gbx.Transport.Endpoint.RoundTrip.{carrier, drain_commands-submit}
use gbx.Tests.Transport.{env, ring, ring-Holds, slot}

-- A command is one byte.
abbrev encoded_byte : ℕ → Encoded
encoded_byte n = record { class = PortClass.lossless; envelope = env; payload = n ∷ [] }

abbrev decode_byte : List ℕ → Option ℕ
decode_byte (n ∷ []) = some n
decode_byte [] = none
decode_byte (m ∷ n ∷ ns) = none

abbrev byte_codec : Codec ℕ ℕ
byte_codec = record {
  encode_cmd = λ n. ok (encoded_byte n);
  decode_cmd = λ m. decode_byte m.payload;
  encode_rep = λ n. ok (encoded_byte n);
  decode_rep = λ m. decode_byte m.payload;
}

-- A lossless ring and a mailbox.
abbrev pub endpoint : Endpoint.Endpoint
endpoint = record {
  lossless = some (ring_port PortClass.lossless ring no_metrics);
  best_effort = none;
  coalesce =
      some (record { class = PortClass.coalesce; backend = mailbox slot; metrics = no_metrics });
  replies = ring_port PortClass.lossless ring no_metrics;
}

drain_commands_lem_example :
    (rest : List ℕ) × (end : Endpoint.Endpoint) × (q : MsgRing) × (drain_commands byte_codec 4
        endpoint
      ≡ ok ([] ++ rest, end))
    × (length rest ≤ 4)
    × (end.lossless ≡ some (ring_port PortClass.lossless q no_metrics))
    × Holds q []
unfolding decode_records
drain_commands_lem_example =
    drain_commands_lem byte_codec 4 endpoint ring no_metrics [] refl ring-Holds
      (over_mailbox PortClass.coalesce slot no_metrics) absent

drain_commands-submit_example :
    ((sent : Endpoint.Endpoint) × (rest : List ℕ) × (end : Endpoint.Endpoint) × (submit byte_codec 7
          endpoint
        ≡ ok (SubmitOutcome.accepted, sent))
      × (drain_commands byte_codec 4 sent ≡ ok (7 ∷ rest, end)))
    ⊎ ((same : Endpoint.Endpoint) × (submit byte_codec 7 endpoint
          ≡ ok (SubmitOutcome.would_block, same))
        × (64 < in_use ring + 2 * span (carrier (encoded_byte 7))))
unfolding decode_records
drain_commands-submit_example =
    drain_commands-submit byte_codec endpoint ring no_metrics [] refl ring-Holds
      (over_mailbox PortClass.coalesce slot no_metrics) absent 7 7 (encoded_byte 7) 4 refl refl refl
      (omega arith) (omega arith)
