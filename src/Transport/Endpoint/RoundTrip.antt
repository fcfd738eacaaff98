-- ===== src/Transport/Endpoint/RoundTrip.antt =====
-- A command from the handle of a service to its worker (endpoint.rs).
use mathlib.Core.List.{append_assoc}
use gbx.Prelude.{
  ℕ, zero, suc, ◌+◌, ◌*◌, ◌<◌, ◌≡◌, ◌⊎◌, ◌∙◌, inl, inr, Option, some, refl, ap, arith, List, [],
  ◌∷◌, ◌++◌, length,
}
use gbx.Transport.MsgRing.{MsgRing, Record}
use gbx.Transport.MsgRing.Layout.{span}
use gbx.Transport.MsgRing.Reserve.{in_use}
use gbx.Transport.MsgRing.Window.{Holds}
use gbx.Transport.Port.{PortClass, SubmitOutcome, ok, PortMetrics, count_outcome}
use gbx.Transport.Port.Fifo.{take, ring_port, try_send-ring}
use gbx.Transport.Endpoint.{
  Codec, Encoded, Endpoint, decode_records, port_for, submit, drain_commands,
}
use gbx.Transport.Endpoint.Priority.{IsReady, drain_commands_lem}

take_all :
    (max : ℕ) (ms : List Record) (m : Record)
    → length ms < max
    → take max (ms ++ m ∷ []) ≡ ms ++ m ∷ []
take_all zero ms m h = absurd (omega arith)
take_all (suc zero) [] m h = refl
take_all (suc (suc max)) [] m h = refl
take_all (suc max) (x ∷ ms) m h = ap (λ l. x ∷ l) (take_all max ms m (omega arith))

decode_records-snoc :
    {A : Type 0} (decode : Record → Option A) (max : ℕ) (ms : List Record) (m : Record) (a : A)
    → decode m ≡ some a
    → length ms < max
    → decode_records decode max (ms ++ m ∷ []) ≡ decode_records decode max ms ++ a ∷ []
unfolding decode_records
decode_records-snoc decode zero ms m a d h = absurd (omega arith)
decode_records-snoc decode (suc zero) [] m a d h = ground (arith, d)
decode_records-snoc decode (suc (suc max)) [] m a d h = ground (arith, d)
decode_records-snoc decode (suc max) (x ∷ ms) m a d h = ground (
  arith,
  decode_records-snoc decode (suc max) ms m a d (omega arith),
  decode_records-snoc decode max ms m a d (omega arith),
)

-- The record that carries an encoded command.
abbrev pub carrier : Encoded → Record
carrier encoded = record { envelope = encoded.envelope; payload = encoded.payload }

module _ {Cmd Rep : Type 0} (codec : Codec Cmd Rep) (e : Endpoint) (r : MsgRing)
    (metrics : PortMetrics) (ms : List Record)
    (is_lossless : e.lossless ≡ some (ring_port PortClass.lossless r metrics)) (h : Holds r ms)
    (ready_coalesce : IsReady e.coalesce) (ready_best : IsReady e.best_effort) where
  drain_commands-last :
      (max : ℕ) (m : Record) (cmd : Cmd)
      → codec.decode_cmd m ≡ some cmd
      → length ms < max
      → decode_records codec.decode_cmd max (take max (ms ++ m ∷ []))
        ≡ decode_records codec.decode_cmd max ms ++ cmd ∷ []
  drain_commands-last max m cmd d few =
      ap (decode_records codec.decode_cmd max) (take_all max ms m few)
      ∙ decode_records-snoc codec.decode_cmd max ms m cmd d few

  -- A command that its codec encodes as lossless, and decodes as `got`, is submitted to a ring. If
  -- the ring takes it, a drain of more commands than the ring held records gives `got` to the
  -- worker after those before it; if not, the caller is told to try again and twice the record and
  -- the bytes in use exceed the capacity.
  pub drain_commands-submit :
      (cmd got : Cmd) (encoded : Encoded) (max : ℕ)
      → codec.encode_cmd cmd ≡ ok encoded
      → encoded.class ≡ PortClass.lossless
      → codec.decode_cmd (carrier encoded) ≡ some got
      → encoded.envelope.flags < 65536
      → length ms < max
      → ((sent : Endpoint) × (rest : List Cmd) × (end : Endpoint) × (submit codec cmd e
            ≡ ok (SubmitOutcome.accepted, sent))
          × (drain_commands codec max sent
              ≡ ok (decode_records codec.decode_cmd max ms ++ got ∷ rest, end)))
        ⊎ ((same : Endpoint) × (submit codec cmd e ≡ ok (SubmitOutcome.would_block, same))
            × (r.capacity < in_use r + 2 * span (carrier encoded)))
  unfolding port_for submit
  drain_commands-submit cmd got encoded max encodes lossless decodes flags few =
      let found : port_for e encoded.class ≡ some (ring_port PortClass.lossless r metrics) =
        rw (lossless, is_lossless) refl in
      elim (try_send-ring PortClass.lossless (λ p. cc) metrics r ms (carrier encoded) h flags) [
        | inl (q, taken, held) ↦
            let port =
              ring_port PortClass.lossless q (count_outcome metrics SubmitOutcome.accepted) in
            let sent = record e { lossless = some port } in
            let (rest, end, _, drained, _, _, _) =
              drain_commands_lem codec max sent q (count_outcome metrics SubmitOutcome.accepted)
                (ms ++ carrier encoded ∷ []) refl held ready_coalesce ready_best in
            inl (
              sent,
              rest,
              end,
              rw (encodes, submit, found, taken, lossless) refl,
              drained
                  ∙ ap (λ l. ok (l, end))
                      (ap (λ l. l ++ rest)
                          (drain_commands-last max (carrier encoded) got decodes few)
                        ∙ append_assoc (decode_records codec.decode_cmd max ms) (got ∷ []) rest),
            )
        | inr (refused, full) ↦ inr (
          record e {
            lossless =
                some (
                  ring_port PortClass.lossless r (count_outcome metrics SubmitOutcome.would_block));
          },
          rw (encodes, submit, found, refused, lossless) refl,
          full,
        )
      ]
