-- ===== src/Transport/Port/History.antt =====
-- What goes into a port over a message ring (port.rs, msg_ring.rs) comes out in order.
use mathlib.Core.List.{append_assoc}
use gbx.Prelude.{
  ℕ, ◌+◌, ◌≤◌, ◌<◌, ◌≡◌, ◌≢◌, inl, inr, refl, sym, ap, ◌∙◌, arith, max, u32, if◌then◌else◌,
}
use gbx.Prelude.{Bool, true, false, none, List, [], ◌∷◌, ◌++◌, length, length-snoc}
use gbx.Transport.Region.{TransportResult, Platform}
use gbx.Transport.MsgRing
use gbx.Transport.MsgRing.{MsgRing, Envelope, Record, align_up}
use gbx.Transport.MsgRing.Window.{Window, Holds}
use gbx.Transport.Port.{PortClass, lossless, best_effort, coalesce, SubmitOutcome}
use gbx.Transport.Port.{
  FabricResult, ok, err, panicked, SharedPort, PortMetrics, new_ring, no_metrics, count_outcome,
  drain_records, try_send,
}
use gbx.Transport.Port.Fifo.{
  take, drop, take-drop, refusal, ring_port, try_send-ring, drain_records-ring,
}

-- A call of the producer's or of the consumer's half of the port.
pub data Call : Type 0 where
  send : Record → Call
  drain : ℕ → Call

-- The port, the records that it accepted and those that it handed over, oldest first.
pub record History : Type 0 where
  pub port : SharedPort
  pub accepted : List Record
  pub delivered : List Record

abbrev pub is_accepted : SubmitOutcome → Bool
is_accepted SubmitOutcome.accepted = true
is_accepted SubmitOutcome.coalesced = true
is_accepted other = false

unfoldable pub step : Call → History → FabricResult History
step (send m) h = elim (try_send h.port m.envelope m.payload) [
  | panicked ↦ panicked
  | err e ↦ err e
  | ok (outcome, port) ↦ ok (record h {
    port = port;
    accepted = if is_accepted outcome then h.accepted ++ m ∷ [] else h.accepted;
  })
]
step (drain n) h = elim (drain_records h.port n) [
  | panicked ↦ panicked
  | err e ↦ err e
  | ok (records, port) ↦ ok (record h { port = port; delivered = h.delivered ++ records })
]

unfoldable pub run : List Call → History → FabricResult History
run [] h = ok h
run (c ∷ cs) h = elim (step c h) [ panicked ↦ panicked | err e ↦ err e | ok next ↦ run cs next ]

-- The flags of each record sent are a u16.
abbrev pub AllFlags : List Call → Type 0
AllFlags [] = Unit
AllFlags (send m ∷ cs) = (m.envelope.flags < 65536) × AllFlags cs
AllFlags (drain n ∷ cs) = AllFlags cs

-- What was accepted and not yet handed over stands in the ring, in order.
pub record IsFifo (class : PortClass) (h : History) (r : MsgRing) (metrics : PortMetrics)
    (ms : List Record) : Type 0 where
  pub port : h.port ≡ ring_port class r metrics
  pub holds : Holds r ms
  pub order : h.accepted ≡ h.delivered ++ ms
  pub counted : metrics.accepted ≡ u32 (length h.accepted)

abbrev pub Fifo : PortClass → History → Type 0
Fifo class h =
    (r : MsgRing) × (metrics : PortMetrics) × (ms : List Record) × IsFifo class h r metrics ms

count_accepted :
    (metrics : PortMetrics)
    → (count_outcome metrics SubmitOutcome.accepted).accepted ≡ u32 (metrics.accepted + 1)
unfolding count_outcome
count_accepted metrics = refl

refusal_lem :
    (class : PortClass) (metrics : PortMetrics)
    → (is_accepted (refusal class) ≡ false)
      × ((count_outcome metrics (refusal class)).accepted ≡ metrics.accepted)
unfolding count_outcome
refusal_lem lossless metrics = (refl, refl)
refusal_lem best_effort metrics = (refl, refl)
refusal_lem coalesce metrics = (refl, refl)

rest_flags : (c : Call) (cs : List Call) → AllFlags (c ∷ cs) → AllFlags cs
rest_flags (send m) cs flags = flags.1
rest_flags (drain n) cs flags = flags

module _ (class : PortClass) (is_ring : class ≢ coalesce) where
  send-Fifo :
      (m : Record) (h : History)
      → m.envelope.flags < 65536
      → Fifo class h
      → (next : History) × (step (send m) h ≡ ok next) × Fifo class next
  unfolding step
  send-Fifo m h flags (r, metrics, ms, f) =
      elim (try_send-ring class is_ring metrics r ms m f.holds flags) [
        | inl (q, sent, held) ↦
            let here : try_send h.port m.envelope m.payload
                ≡ ok (
                  SubmitOutcome.accepted,
                  ring_port class q (count_outcome metrics SubmitOutcome.accepted),
                ) =
              rw f.port sent in
            (
              record h {
                port = ring_port class q (count_outcome metrics SubmitOutcome.accepted);
                accepted = h.accepted ++ m ∷ [];
              },
              rw (here, step) refl,
              (
                q,
                _,
                ms ++ m ∷ [],
                record {
                  port = refl;
                  holds = held;
                  order = ap (λ l. l ++ m ∷ []) f.order ∙ append_assoc h.delivered ms (m ∷ []);
                  counted =
                      omega (arith, f.counted, length-snoc h.accepted m, count_accepted metrics);
                },
              ),
            )
        | inr (refused, full) ↦
            let here : try_send h.port m.envelope m.payload
                ≡ ok (refusal class, ring_port class r (count_outcome metrics (refusal class))) =
              rw f.port refused in
            let (not_accepted, same_count) = refusal_lem class metrics in
            (
              record h { port = ring_port class r (count_outcome metrics (refusal class)) },
              rw (here, step) (rw not_accepted refl),
              (
                r,
                _,
                ms,
                record {
                  port = refl;
                  holds = f.holds;
                  order = f.order;
                  counted = same_count ∙ f.counted;
                },
              ),
            )
      ]

  drain-Fifo :
      (n : ℕ) (h : History)
      → Fifo class h
      → (next : History) × (step (drain n) h ≡ ok next) × Fifo class next
  unfolding step
  drain-Fifo n h (r, metrics, ms, f) =
      let (q, drained, held) = drain_records-ring class is_ring metrics r ms n f.holds in
      let here : drain_records h.port n ≡ ok (take n ms, ring_port class q metrics) =
        rw f.port drained in
      (
        record h { port = ring_port class q metrics; delivered = h.delivered ++ take n ms },
        rw (here, step) refl,
        (
          q,
          metrics,
          drop n ms,
          record {
            port = refl;
            holds = held;
            order =
                f.order
                ∙ ap (λ l. h.delivered ++ l) (sym (take-drop n ms))
                ∙ sym (append_assoc h.delivered (take n ms) (drop n ms));
            counted = f.counted;
          },
        ),
      )

  call-Fifo :
      (c : Call) (cs : List Call) (h : History)
      → AllFlags (c ∷ cs)
      → Fifo class h
      → (next : History) × (step c h ≡ ok next) × Fifo class next
  call-Fifo (send m) cs h flags f = send-Fifo m h flags.0 f
  call-Fifo (drain n) cs h flags f = drain-Fifo n h f

  run-Fifo :
      (cs : List Call) (h : History)
      → AllFlags cs
      → Fifo class h
      → (end : History) × (run cs h ≡ ok end) × Fifo class end
  unfolding run
  run-Fifo [] h flags f = (h, refl, f)
  run-Fifo (c ∷ cs) h flags f =
      let (next, stepped, kept) = call-Fifo c cs h flags f in
      let (end, ran, left) = run-Fifo cs next (rest_flags c cs flags) kept in
      (end, rw (stepped, run) ran, left)

pub new-fields :
    (os : Platform) (capacity_bytes : ℕ) (envelope : Envelope) (r : MsgRing)
    → MsgRing.new os capacity_bytes envelope ≡ TransportResult.ok r
    → (r.capacity ≡ align_up (max capacity_bytes 64) 8)
      × (r.head ≡ 0)
      × (r.tail ≡ 0)
      × (r.consumer_meta ≡ none)
      × (r.capacity < 4294967295)
unfolding MsgRing.new
new-fields os capacity_bytes envelope r h = ground arith

-- A new ring is well formed and empty, and has at least the capacity asked for.
pub new-Holds :
    (os : Platform) (capacity_bytes : ℕ) (envelope : Envelope) (r : MsgRing)
    → MsgRing.new os capacity_bytes envelope ≡ TransportResult.ok r
    → Holds r [] × (capacity_bytes ≤ r.capacity)
unfolding align_up
new-Holds os capacity_bytes envelope r h =
    let (capacity, head, tail, unpeeked, small) = new-fields os capacity_bytes envelope r h in
    (
      record {
        large = omega (arith, capacity);
        small = small;
        whole = omega (arith, capacity);
        head_in = omega (arith, capacity, head);
        tail_in = omega (arith, capacity, tail);
        head_whole = omega (arith, head);
        tail_whole = omega (arith, tail);
        unpeeked = unpeeked;
        window = Window.straight (omega (arith, head, tail)) (tail ∙ sym head);
      },
      omega (arith, capacity),
    )

-- Nothing was sent and nothing received.
abbrev pub start : PortClass → MsgRing → History
start class ring = record { port = new_ring class ring; accepted = []; delivered = [] }

-- Any sequence of sends and drains on a port over a new ring, lossless or best-effort, runs to its
-- end without a panic or an error. What the port accepted is what it handed over followed by what
-- the ring still holds, in order, and the port counts what it accepted modulo 2³².
pub run_in_order :
    (os : Platform) (capacity_bytes : ℕ) (envelope : Envelope) (r : MsgRing) (class : PortClass)
    (cs : List Call)
    → MsgRing.new os capacity_bytes envelope ≡ TransportResult.ok r
    → class ≢ coalesce
    → AllFlags cs
    → (end : History) × (run cs (start class r) ≡ ok end) × Fifo class end
unfolding new_ring
run_in_order os capacity_bytes envelope r class cs created is_ring flags =
    let empty = (new-Holds os capacity_bytes envelope r created).0 in
    run-Fifo class is_ring cs (start class r) flags
      (r, no_metrics, [], record { port = refl; holds = empty; order = refl; counted = refl })
