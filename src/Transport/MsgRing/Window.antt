-- ===== src/Transport/MsgRing/Window.antt =====
-- A message ring (msg_ring.rs) as the queue of the records between its tail and its head.
use mathlib.Core.List.{append-nil, append_assoc}
use gbx.Prelude.{
  ℕ, ◌+◌, ◌%◌, ◌≤◌, ◌<◌, ◌≡◌, ◌≢◌, ◌⊎◌, inl, inr, refl, sym, ap, ◌∙◌, arith, ◌==◌, if◌then◌else◌,
}
use gbx.Prelude.{none, List, [], ◌∷◌, ◌++◌, length, Bool-cases}
use gbx.Transport.MsgRing.{
  MsgRing, Record, sentinel, emit_sentinel, copy_from_slice, fill, to_le_bytes,
}
use gbx.Transport.MsgRing.Layout.{Frame, Run, Run-le, Run-cong, Run-append, span, word_at}
use gbx.Transport.MsgRing.Stamp.{stamp, stamp-Frame, stamp-At}

-- The records before the wrap end at the end of the buffer or at a sentinel.
abbrev pub Ends : (ℕ → ℕ) → ℕ → ℕ → Type 0
Ends d capacity e = (e ≡ capacity) ⊎ ((e < capacity) × (word_at d e ≡ sentinel))

-- The records stand in one stretch, or in one up to `e` and one from the start of the buffer.
pub data Window (d : ℕ → ℕ) (capacity head tail : ℕ) (ms : List Record) : Type 0 where
  straight : tail ≤ head → Run d tail head ms → Window d capacity head tail ms
  wrapped :
      (e : ℕ) (xs ys : List Record)
      → head < tail
      → ms ≡ xs ++ ys
      → e ≤ capacity
      → Ends d capacity e
      → Run d tail e xs
      → Run d 0 head ys
      → Window d capacity head tail ms

-- The ring is well formed and holds the records `ms`, oldest first.
pub record Holds (r : MsgRing) (ms : List Record) : Type 0 where
  pub large : 64 ≤ r.capacity
  pub small : r.capacity < 4294967295
  pub whole : r.capacity % 8 ≡ 0
  pub head_in : r.head < r.capacity
  pub tail_in : r.tail < r.capacity
  pub head_whole : r.head % 8 ≡ 0
  pub tail_whole : r.tail % 8 ≡ 0
  pub unpeeked : r.consumer_meta ≡ none
  pub window : Window r.bytes r.capacity r.head r.tail ms

module _ (r : MsgRing) (o : ℕ) (fits : o + 8 ≤ r.capacity) where
  -- A sentinel is eight bytes.
  emit_sentinel-Frame : Frame r.bytes (emit_sentinel r o).bytes o 8
  unfolding emit_sentinel fill copy_from_slice to_le_bytes
  emit_sentinel-Frame = record { below = λ j h. ground arith; above = λ j h. ground arith }

  emit_sentinel-word : word_at (emit_sentinel r o).bytes o ≡ sentinel
  unfolding emit_sentinel fill copy_from_slice to_le_bytes
  emit_sentinel-word = ground arith

-- A record written beside a run, and one written at its end.
module _ (d : ℕ → ℕ) (o : ℕ) (m : Record) (a b : ℕ) (ms : List Record) (run : Run d a b ms) where
  Run-below : b ≤ o → Run (stamp d o m) a b ms
  Run-below h =
      Run-cong d (stamp d o m) a b ms (λ j p q. (stamp-Frame d o m).below j (omega arith)) run

  Run-above : o + span m ≤ a → Run (stamp d o m) a b ms
  Run-above h =
      Run-cong d (stamp d o m) a b ms (λ j p q. (stamp-Frame d o m).above j (omega arith)) run

Run-extended :
    (d : ℕ → ℕ) (m : Record) (a b : ℕ) (ms : List Record)
    → Run d a b ms
    → 8 + length m.payload < 4294967296
    → m.envelope.flags < 65536
    → Run (stamp d b m) a (b + span m) (ms ++ m ∷ [])
Run-extended d m a b ms run small flags =
    Run-append (stamp d b m) a b ms m (Run-below d b m a b ms run (omega arith))
      (stamp-At d b m small flags)

Ends-above :
    (d : ℕ → ℕ) (o c e : ℕ) (m : Record) → Ends d c e → o + span m ≤ e → Ends (stamp d o m) c e
Ends-above d o c e m (inl h) p = inl h
Ends-above d o c e m (inr h) p =
    let same = λ (k : ℕ). (stamp-Frame d o m).above (e + k) (omega arith) in
    inr (h.0, omega (arith, (stamp-Frame d o m).above e (omega arith), same 1, same 2, same 3, h.1))

module _ (r : MsgRing) (ms : List Record) (m : Record) (h : Holds r ms)
    (small : 8 + length m.payload < r.capacity) (flags : m.envelope.flags < 65536) where
  pub Window-at_head :
      r.tail ≤ r.head
      → r.head + span m ≤ r.capacity
      → (if r.head + span m == r.capacity then 0 else r.head + span m) ≢ r.tail
      → Window r.bytes r.capacity r.head r.tail ms
      → Window
          (stamp r.bytes r.head m)
          r.capacity
          (if r.head + span m == r.capacity then 0 else r.head + span m)
          r.tail
          (ms ++ m ∷ [])
  Window-at_head ahead fits free (wrapped e xs ys behind _ _ _ _ _) = absurd (omega arith)
  Window-at_head ahead fits free (straight _ run) =
      let longer = Run-extended r.bytes m r.tail r.head ms run (omega (arith, h.small)) flags in
      elim (Bool-cases (r.head + span m == r.capacity)) [
        | inl full ↦
            let end : r.head + span m ≡ r.capacity = ground arith in
            let positive : 0 < r.tail = ground arith in
            rw full (
              wrapped (r.head + span m) (ms ++ m ∷ []) [] positive (sym (append-nil (ms ++ m ∷ [])))
                fits (inl end) longer refl)
        | inr room ↦ rw room (straight (omega arith) longer)
      ]

  pub Window-at_start :
      r.tail ≤ r.head
      → r.capacity < r.head + span m
      → span m < r.tail
      → Window r.bytes r.capacity r.head r.tail ms
      → Window (stamp (emit_sentinel r r.head).bytes 0 m) r.capacity (span m) r.tail (ms ++ m ∷ [])
  Window-at_start ahead over fits (wrapped e xs ys behind _ _ _ _ _) = absurd (omega arith)
  Window-at_start ahead over fits (straight _ run) =
      let room : r.head + 8 ≤ r.capacity = omega (arith, h.head_in, h.head_whole, h.whole) in
      let marked = (emit_sentinel r r.head).bytes in
      let kept =
        Run-cong r.bytes marked r.tail r.head ms
          (λ j p q. (emit_sentinel-Frame r r.head room).below j q) run in
      wrapped r.head ms (m ∷ []) fits refl (omega (arith, h.head_in))
        (Ends-above marked 0 r.capacity r.head m (inr (h.head_in, emit_sentinel-word r r.head room))
          (omega arith))
        (Run-above marked 0 m r.tail r.head ms kept (omega arith))
        (stamp-At marked 0 m (omega (arith, h.small)) flags, omega arith)

  pub Window-in_gap :
      r.head < r.tail
      → r.head + span m < r.tail
      → Window r.bytes r.capacity r.head r.tail ms
      → Window (stamp r.bytes r.head m) r.capacity (r.head + span m) r.tail (ms ++ m ∷ [])
  Window-in_gap behind fits (straight ahead _) = absurd (omega arith)
  Window-in_gap behind fits (wrapped e xs ys _ parts inside ends first second) =
      let reach = Run-le r.bytes r.tail e xs first in
      wrapped e xs (ys ++ m ∷ []) fits (ap (λ l. l ++ m ∷ []) parts ∙ append_assoc xs ys (m ∷ []))
        inside (Ends-above r.bytes r.head r.capacity e m ends (omega arith))
        (Run-above r.bytes r.head m r.tail e xs first (omega arith))
        (Run-extended r.bytes m 0 r.head ys second (omega (arith, h.small)) flags)
