-- ===== src/Transport/MsgRing/Stamp.antt =====
-- The bytes of a committed record, written by `write_payload` and `write_envelope` of msg_ring.rs.
use gbx.Prelude.{ℕ, ◌+◌, ◌-◌, ◌/◌, ◌%◌, ◌≤◌, ◌<◌, ◌≡◌, ◌∙◌, arith, u32, ltb, update, if◌then◌else◌}
use gbx.Prelude.{[], ◌∷◌, length}
use gbx.Transport.MsgRing.{Record, copy_from_slice, fill, to_le_bytes}
use gbx.Transport.MsgRing.Layout.{Frame, At, span, span-bounds, word_at}
use gbx.Transport.MsgRing.Layout.{
  copy-below, copy-above, fill-below, fill-above, slice-cong, slice-copy,
}

-- The payload and the length, the envelope, the padding.
unfoldable pub sized : (ℕ → ℕ) → ℕ → Record → ℕ → ℕ
sized d o m =
    copy_from_slice (copy_from_slice d (o + 8) m.payload) o
      (to_le_bytes (u32 (8 + length m.payload)))

unfoldable pub flagged : (ℕ → ℕ) → ℕ → Record → ℕ → ℕ
unfolding sized
flagged d o m =
    copy_from_slice (update (update (sized d o m) (o + 4) m.envelope.tag) (o + 5) m.envelope.ver)
      (o + 6) (m.envelope.flags % 256 ∷ m.envelope.flags / 256 % 256 ∷ [])

unfoldable pub stamp : (ℕ → ℕ) → ℕ → Record → ℕ → ℕ
unfolding flagged
stamp d o m =
    let payload_end = o + 8 + length m.payload in
    let record_end = o + span m in
    if ltb payload_end record_end
    then fill (flagged d o m) payload_end (record_end - payload_end)
    else flagged d o m

module _ (d : ℕ → ℕ) (o : ℕ) (m : Record) where
  stamp-unpadded : (j : ℕ) → j < o + 8 + length m.payload → stamp d o m j ≡ flagged d o m j
  unfolding stamp
  stamp-unpadded j h =
      let payload_end = o + 8 + length m.payload in
      ground (arith, fill-below (o + span m - payload_end) (flagged d o m) payload_end j h)

  sized-beyond : (j : ℕ) → o + 4 ≤ j → sized d o m j ≡ copy_from_slice d (o + 8) m.payload j
  unfolding sized to_le_bytes
  sized-beyond j h =
      copy-above (to_le_bytes (u32 (8 + length m.payload))) (copy_from_slice d (o + 8) m.payload) o
        j h

  flagged-beyond : (j : ℕ) → o + 8 ≤ j → flagged d o m j ≡ copy_from_slice d (o + 8) m.payload j
  unfolding flagged copy_from_slice
  flagged-beyond j h = ground (arith, sized-beyond j (omega arith))

  flagged-flags :
      (flagged d o m (o + 6) ≡ m.envelope.flags % 256)
      × (flagged d o m (o + 7) ≡ m.envelope.flags / 256 % 256)
      × (flagged d o m (o + 4) ≡ m.envelope.tag)
      × (flagged d o m (o + 5) ≡ m.envelope.ver)
  unfolding flagged copy_from_slice
  flagged-flags = ground arith

  flagged-word : word_at (flagged d o m) o ≡ u32 (8 + length m.payload)
  unfolding flagged sized copy_from_slice to_le_bytes
  flagged-word = ground arith

  flagged-below : (j : ℕ) → j < o → flagged d o m j ≡ d j
  unfolding flagged sized copy_from_slice to_le_bytes
  flagged-below j h = ground (arith, copy-below m.payload d (o + 8) j (omega arith))

  stamp-below : (j : ℕ) → j < o → stamp d o m j ≡ d j
  stamp-below j h = stamp-unpadded j (omega arith) ∙ flagged-below j h

  stamp-above : (j : ℕ) → o + span m ≤ j → stamp d o m j ≡ d j
  unfolding stamp
  stamp-above j h =
      let payload_end = o + 8 + length m.payload in
      let (long, _, _) = span-bounds m in
      let unwritten = copy-above m.payload d (o + 8) j (omega (arith, long)) in
      let before = flagged-beyond j (omega (arith, long)) in
      let padded =
        fill-above (o + span m - payload_end) (flagged d o m) payload_end j (omega (arith, long)) in
      ground (arith, unwritten, before, padded)

  -- Only the bytes of the record are written.
  pub stamp-Frame : Frame d (stamp d o m) o (span m)
  stamp-Frame = record { below = stamp-below; above = stamp-above }

  -- The record stands where it was written.
  pub stamp-At : 8 + length m.payload < 4294967296 → m.envelope.flags < 65536 → At (stamp d o m) o m
  stamp-At small flags =
      let at = λ (k : ℕ) (h : k < 8). stamp-unpadded (o + k) (omega arith) in
      let (f0, f1, tag, ver) = flagged-flags in
      let words = λ (k : ℕ) (h : k < 4). stamp-unpadded (o + k) (omega arith) in
      record {
        size = omega (
          arith,
          flagged-word,
          stamp-unpadded o (omega arith),
          at 1 (omega arith),
          at 2 (omega arith),
          at 3 (omega arith),
        );
        tag = at 4 (omega arith) ∙ tag;
        ver = at 5 (omega arith) ∙ ver;
        flags = omega (arith, at 6 (omega arith), at 7 (omega arith), f0, f1);
        payload =
            slice-cong (length m.payload) (copy_from_slice d (o + 8) m.payload) (stamp d o m)
              (o + 8) (λ j p q. stamp-unpadded j (omega arith) ∙ flagged-beyond j p)
            ∙ slice-copy m.payload d (o + 8);
      }
