-- ===== src/Transport/Endpoint/Priority.antt =====
-- A worker drains its ports in order of their class (endpoint.rs).
use gbx.Prelude.{ℕ, zero, suc, ◌-◌, ◌+◌, ◌≤◌, ◌≡◌, ◌≢◌, leb, true, false, arith, refl}
use gbx.Prelude.{Option, none, some, List, [], ◌∷◌, ◌++◌, length, length-append}
use mathlib.Core.List.{append_assoc, append-nil}
use native.Mathlib.Decide.{dec_le}
use gbx.Transport.MsgRing.{MsgRing, Record}
use gbx.Transport.MsgRing.Window.{Holds}
use gbx.Transport.Mailbox.{Mailbox, take_latest}
use gbx.Transport.Port.{
  PortClass, coalesce, ok, mailbox, SharedPort, PortMetrics, drain_records, drain_backend,
}
use gbx.Transport.Port.Fifo.{take, drop, ring_port, drain_records-ring}
use gbx.Transport.Endpoint.{Codec, Endpoint, decode_records, drain_port, drain_commands}

-- A port that is missing, stands over a mailbox, or over a ring that holds some records.
pub data IsReady : Option SharedPort → Type 0 where
  absent : IsReady none
  over_ring :
      (class : PortClass) (r : MsgRing) (metrics : PortMetrics) (ms : List Record)
      → class ≢ coalesce
      → Holds r ms
      → IsReady (some (ring_port class r metrics))
  over_mailbox :
      (class : PortClass) (slot : Mailbox) (metrics : PortMetrics)
      → IsReady (some (record { class = class; backend = mailbox slot; metrics = metrics }))

length-decode_records :
    {A : Type 0} (decode : Record → Option A) (room : ℕ) (ms : List Record)
    → length (decode_records decode room ms) ≤ room
unfolding decode_records
length-decode_records decode zero ms = omega arith
length-decode_records decode (suc room) [] = omega arith
length-decode_records decode (suc room) (m ∷ ms) =
    ground (arith, length-decode_records decode (suc room) ms, length-decode_records decode room ms)

drain_backend-mailbox :
    (max : ℕ) (slot : Mailbox) (latest : Option Record)
    → (take_latest slot).0 ≡ latest
    → (records : List Record) × (drain_backend (mailbox slot) max
        ≡ ok (records, mailbox (take_latest slot).1))
unfolding drain_backend
drain_backend-mailbox max slot none h = ([], rw (h, drain_backend) refl)
drain_backend-mailbox max slot (some m) h = (m ∷ [], rw (h, drain_backend) refl)

drain_records-mailbox :
    (max : ℕ) (class : PortClass) (slot : Mailbox) (metrics : PortMetrics)
    → (records : List Record) × (taken : Mailbox) × (drain_records
          (record { class = class; backend = mailbox slot; metrics = metrics })
          max
        ≡ ok (records, record { class = class; backend = mailbox taken; metrics = metrics }))
unfolding drain_records
drain_records-mailbox zero class slot metrics = ([], slot, refl)
drain_records-mailbox (suc n) class slot metrics =
    let (records, drained) = drain_backend-mailbox (suc n) slot _ refl in
    (records, (take_latest slot).1, ground (arith, drained))

module _ {Cmd Rep : Type 0} (codec : Codec Cmd Rep) where
  drain_port-ring :
      (max : ℕ) (class : PortClass) (r : MsgRing) (metrics : PortMetrics) (ms : List Record)
      → class ≢ coalesce
      → Holds r ms
      → (q : MsgRing) × (drain_port codec max (some (ring_port class r metrics))
          ≡ ok
              (decode_records codec.decode_cmd max (take max ms), some (ring_port class q metrics)))
        × Holds q (drop max ms)
  unfolding drain_port
  drain_port-ring max class r metrics ms is_ring h =
      let (q, drained, held) = drain_records-ring class is_ring metrics r ms max h in
      (q, rw (drained, drain_port) refl, held)

  drain_port-IsReady :
      (max : ℕ) (port : Option SharedPort)
      → IsReady port
      → (cs : List Cmd) × (drained : Option SharedPort) × (drain_port codec max port
          ≡ ok (cs, drained))
        × (length cs ≤ max)
        × IsReady drained
  unfolding drain_port
  drain_port-IsReady max _ absent = ([], none, refl, omega arith, absent)
  drain_port-IsReady max _ (over_ring class r metrics ms is_ring h) =
      let (q, drained, held) = drain_port-ring max class r metrics ms is_ring h in
      (
        decode_records codec.decode_cmd max (take max ms),
        some (ring_port class q metrics),
        drained,
        length-decode_records codec.decode_cmd max (take max ms),
        over_ring class q metrics (drop max ms) is_ring held,
      )
  drain_port-IsReady max _ (over_mailbox class slot metrics) =
      let (records, taken, drained) = drain_records-mailbox max class slot metrics in
      (
        decode_records codec.decode_cmd max records,
        some _,
        rw (drained, drain_port) refl,
        length-decode_records codec.decode_cmd max records,
        over_mailbox class taken metrics,
      )

  -- A worker whose ports are a ring for the lossless commands and, for the others, any rings or
  -- mailboxes drains them without panic or error. It hands over at most `max` commands: first those
  -- that decode among the oldest `max` of the lossless ring, in their order, which leave the ring.
  pub drain_commands_lem :
      (max : ℕ) (e : Endpoint) (r : MsgRing) (metrics : PortMetrics) (ms : List Record)
      → e.lossless ≡ some (ring_port PortClass.lossless r metrics)
      → Holds r ms
      → IsReady e.coalesce
      → IsReady e.best_effort
      → (rest : List Cmd) × (end : Endpoint) × (q : MsgRing) × (drain_commands codec max e
          ≡ ok (decode_records codec.decode_cmd max (take max ms) ++ rest, end))
        × (length (decode_records codec.decode_cmd max (take max ms) ++ rest) ≤ max)
        × (end.lossless ≡ some (ring_port PortClass.lossless q metrics))
        × Holds q (drop max ms)
  unfolding drain_commands
  drain_commands_lem max e r metrics ms is_lossless h ready_coalesce ready_best =
      let first = decode_records codec.decode_cmd max (take max ms) in
      let (q, one, held) = drain_port-ring max PortClass.lossless r metrics ms (λ e. cc) h in
      let (second, two, drained_two, few_two, _) =
        drain_port-IsReady (max - length first) e.coalesce ready_coalesce in
      let (third, three, drained_three, few_three, _) =
        drain_port-IsReady (max - (length first + length second)) e.best_effort ready_best in
      let start : drain_port codec max e.lossless
          ≡ ok (first, some (ring_port PortClass.lossless q metrics)) =
        rw is_lossless one in
      let bound = length-decode_records codec.decode_cmd max (take max ms) in
      elim (dec_le max (length first)) [
        | yes p ↦
            let full : leb max (length first) ≡ true = ground arith in
            (
              [],
              record e { lossless = some (ring_port PortClass.lossless q metrics) },
              q,
              rw (start, drain_commands, full, append-nil first) refl,
              rw (append-nil first) bound,
              refl,
              held,
            )
        | no p ↦
            let room : leb max (length first) ≡ false = ground arith in
            elim (dec_le max (length first + length second)) [
              | yes p2 ↦
                  let full : leb max (length first + length second) ≡ true = ground arith in
                  (
                    second,
                    record e {
                      lossless = some (ring_port PortClass.lossless q metrics);
                      coalesce = two;
                    },
                    q,
                    rw (start, drain_commands, room, drained_two, full) refl,
                    omega (arith, length-append first second, few_two),
                    refl,
                    held,
                  )
              | no p2 ↦
                  let more : leb max (length first + length second) ≡ false = ground arith in
                  (
                    second ++ third,
                    record e {
                      lossless = some (ring_port PortClass.lossless q metrics);
                      coalesce = two;
                      best_effort = three;
                    },
                    q,
                    rw (start, drain_commands, room, drained_two, more, drained_three, append_assoc)
                        refl,
                    omega (
                      arith,
                      length-append first (second ++ third),
                      length-append second third,
                      few_three,
                    ),
                    refl,
                    held,
                  )
            ]
      ]
