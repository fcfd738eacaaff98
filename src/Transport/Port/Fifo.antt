-- ===== src/Transport/Port/Fifo.antt =====
-- A port over a message ring (port.rs) under any sequence of sends and drains.
use gbx.Prelude.{ℕ, zero, suc, ◌+◌, ◌*◌, ◌<◌, ◌≡◌, ◌≢◌, ◌⊎◌, inl, inr, refl, ap, arith}
use gbx.Prelude.{some, List, [], ◌∷◌, ◌++◌}
use gbx.Transport.MsgRing.{MsgRing, Record}
use gbx.Transport.MsgRing.Layout.{span}
use gbx.Transport.MsgRing.Reserve.{in_use}
use gbx.Transport.MsgRing.Window.{Holds}
use gbx.Transport.MsgRing.Send.{reserve_and_commit_lem}
use gbx.Transport.MsgRing.Receive.{drain_one-empty, drain_one-some}
use gbx.Transport.Port.{
  PortClass, lossless, best_effort, coalesce, SubmitOutcome, accepted, dropped, would_block, closed,
}
use gbx.Transport.Port.{
  ok, msg_ring, SharedPort, PortMetrics, count_outcome, drain_ring, drain_backend, drain_records,
  send_ring, send_backend, try_send,
}

abbrev pub take : ℕ → List Record → List Record
take zero ms = []
take (suc n) [] = []
take (suc n) (m ∷ ms) = m ∷ take n ms

abbrev pub drop : ℕ → List Record → List Record
drop zero ms = ms
drop (suc n) [] = []
drop (suc n) (m ∷ ms) = drop n ms

pub take-drop : (n : ℕ) (ms : List Record) → take n ms ++ drop n ms ≡ ms
take-drop zero ms = refl
take-drop (suc n) [] = refl
take-drop (suc n) (m ∷ ms) = ap (λ l. m ∷ l) (take-drop n ms)

-- A drain hands over the oldest records, as many as there are up to the number asked for.
drain_ring-Holds :
    (n : ℕ) (r : MsgRing) (ms : List Record)
    → Holds r ms
    → (q : MsgRing) × (drain_ring n r ≡ some (take n ms, q)) × Holds q (drop n ms)
unfolding drain_ring
drain_ring-Holds zero r ms h = (r, refl, h)
drain_ring-Holds (suc n) r [] h =
    let (q, one, held) = drain_one-empty r h in (q, ground (arith, one), held)
drain_ring-Holds (suc n) r (m ∷ ms) h =
    let (p, one, held) = drain_one-some r m ms h in
    let (q, rest, left) = drain_ring-Holds n p ms held in (q, ground (arith, one, rest), left)

-- What a refused send reports in each class.
abbrev pub refusal : PortClass → SubmitOutcome
refusal lossless = would_block
refusal best_effort = dropped
refusal coalesce = closed

-- A port over the ring `r`.
abbrev pub ring_port : PortClass → MsgRing → PortMetrics → SharedPort
ring_port class r metrics = record { class = class; backend = msg_ring r; metrics = metrics }

send_backend-ring :
    (class : PortClass) (r : MsgRing) (m : Record)
    → class ≢ coalesce
    → send_backend (msg_ring r) class m.envelope m.payload
      ≡ send_ring (refusal class) r m.envelope m.payload
unfolding send_backend
send_backend-ring lossless r m h = refl
send_backend-ring best_effort r m h = refl
send_backend-ring coalesce r m h = absurd (h refl)

module _ (class : PortClass) (is_ring : class ≢ coalesce) (metrics : PortMetrics) where
  -- A send to a port over a ring never fails: the record is taken and is then the newest, or it is
  -- refused as the port's class says, the ring stays as it was, and the bytes in use with twice the
  -- record exceed its capacity.
  pub try_send-ring :
      (r : MsgRing) (ms : List Record) (m : Record)
      → Holds r ms
      → m.envelope.flags < 65536
      → ((q : MsgRing) × (try_send (ring_port class r metrics) m.envelope m.payload
            ≡ ok (accepted, ring_port class q (count_outcome metrics accepted)))
          × Holds q (ms ++ m ∷ []))
        ⊎ ((try_send (ring_port class r metrics) m.envelope m.payload
              ≡ ok (refusal class, ring_port class r (count_outcome metrics (refusal class))))
            × (r.capacity < in_use r + 2 * span m))
  unfolding try_send send_ring
  try_send-ring r ms m h flags = elim (reserve_and_commit_lem r ms m h flags) [
    | inl (q, sent, held) ↦
        inl
          (q, rw (send_backend-ring class r m is_ring, try_send) (rw (sent, send_ring) refl), held)
    | inr (refused, full) ↦
        inr
          (rw (send_backend-ring class r m is_ring, try_send) (rw (refused, send_ring) refl), full)
  ]

  -- A drain of a port over a ring never fails and hands over the oldest records in order.
  pub drain_records-ring :
      (r : MsgRing) (ms : List Record) (n : ℕ)
      → Holds r ms
      → (q : MsgRing) × (drain_records (ring_port class r metrics) n
          ≡ ok (take n ms, ring_port class q metrics))
        × Holds q (drop n ms)
  unfolding drain_records drain_backend
  drain_records-ring r ms zero h = (r, refl, h)
  drain_records-ring r ms (suc n) h =
      let (q, drained, held) = drain_ring-Holds (suc n) r ms h in (q, ground (arith, drained), held)
