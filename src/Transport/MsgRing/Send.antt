-- ===== src/Transport/MsgRing/Send.antt =====
-- Sending through a message ring: `reserve_and_commit` of port.rs on msg_ring.rs.
use gbx.Prelude.{
  ℕ, ◌+◌, ◌*◌, ◌%◌, ◌<◌, ◌≡◌, ◌⊎◌, inl, inr, refl, ap, ◌∙◌, arith, ◌==◌, if◌then◌else◌,
}
use gbx.Prelude.{true, false, Option, none, some, List, [], ◌∷◌, ◌++◌, length, u32}
use gbx.Transport.MsgRing.{MsgRing, Record, ProducerGrant, emit_sentinel, copy_from_slice}
use gbx.Transport.MsgRing.{try_reserve_with, write_payload, commit, finish_producer, write_envelope}
use gbx.Transport.MsgRing.Layout.{span, span-bounds}
use mathlib.Core.Path.{subst}
use gbx.Transport.MsgRing.Window.{Window, Holds, Window-at_head, Window-at_start, Window-in_gap}
use gbx.Transport.MsgRing.Stamp.{stamp, sized, flagged}
use gbx.Transport.MsgRing.Reserve.{Place, at_head, at_start, in_gap, reserved, refused, in_use}
use gbx.Transport.Port.{reserve_and_commit}

-- The ring after a commit.
abbrev committed : MsgRing → ProducerGrant → Record → MsgRing
committed marked grant m = record marked {
  bytes = stamp marked.bytes grant.offset m;
  head = u32 grant.new_head;
}

finish_lem :
    (marked : MsgRing) (o head : ℕ) (m : Record)
    → finish_producer
        (record marked { bytes = copy_from_slice marked.bytes (o + 8) m.payload })
        o
        m.envelope
        (length m.payload)
        (span m)
        head
      ≡ record marked { bytes = stamp marked.bytes o m; head = u32 head }
unfolding finish_producer write_envelope stamp flagged sized
finish_lem marked o head m = refl

written_lem :
    (marked : MsgRing) (grant : ProducerGrant) (xs : List ℕ)
    → grant.payload_capacity ≡ length xs
    → write_payload marked grant xs
      ≡ some (record marked { bytes = copy_from_slice marked.bytes (grant.offset + 8) xs })
unfolding write_payload
written_lem marked grant xs e = ground arith

commit_call :
    (r : MsgRing) (grant : ProducerGrant) (n : ℕ)
    → grant.payload_capacity ≡ n
    → commit r grant n
      ≡ some (finish_producer r grant.offset grant.envelope n grant.record_len grant.new_head)
unfolding commit
commit_call r grant n e = ground arith

sent :
    (r marked : MsgRing) (grant : ProducerGrant) (m : Record)
    → try_reserve_with r m.envelope (length m.payload) ≡ (some grant, marked)
    → grant.payload_capacity ≡ length m.payload
    → grant.record_len ≡ span m
    → grant.envelope ≡ m.envelope
    → reserve_and_commit r m.envelope m.payload ≡ some (true, committed marked grant m)
unfolding reserve_and_commit
sent r marked grant m found capacity record_len envelope =
    let written = written_lem marked grant m.payload capacity in
    let w = record marked { bytes = copy_from_slice marked.bytes (grant.offset + 8) m.payload } in
    let call = commit_call w grant (length m.payload) capacity in
    let end : finish_producer w grant.offset grant.envelope (length m.payload) grant.record_len
          grant.new_head
        ≡ committed marked grant m =
      rw (record_len, envelope) (finish_lem marked grant.offset grant.new_head m) in
    rw (found, reserve_and_commit)
      (rw (ap (λ (p : Option ProducerGrant × MsgRing). p.1) found)
        (rw written (rw call (ap (λ x. some (true, x)) end))))

reservation :
    (p : Option ProducerGrant × MsgRing)
    → ((grant : ProducerGrant) × (marked : MsgRing) × (p ≡ (some grant, marked)))
      ⊎ ((marked : MsgRing) × (p ≡ (none, marked)))
reservation (some grant, marked) = inl (grant, marked, refl)
reservation (none, marked) = inr (marked, refl)

module _ (r : MsgRing) (ms : List Record) (m : Record) (h : Holds r ms) where
  Holds-with :
      (bytes : ℕ → ℕ) (head : ℕ) (ns : List Record)
      → head < r.capacity
      → head % 8 ≡ 0
      → Window bytes r.capacity head r.tail ns
      → Holds (record r { bytes = bytes; head = u32 head }) ns
  Holds-with bytes head ns inside even w =
      let exact : head ≡ u32 head = omega (arith, h.small) in
      record {
        large = h.large;
        small = h.small;
        whole = h.whole;
        head_in = omega (arith, exact);
        tail_in = h.tail_in;
        head_whole = omega (arith, exact);
        tail_whole = h.tail_whole;
        unpeeked = h.unpeeked;
        window = subst (λ k. Window bytes r.capacity k r.tail ns) exact w;
      }

  placed-Window :
      (o head : ℕ) (marked : MsgRing)
      → Place r (span m) o head marked
      → 8 + length m.payload < r.capacity
      → m.envelope.flags < 65536
      → Holds (record marked { bytes = stamp marked.bytes o m; head = u32 head }) (ms ++ m ∷ [])
  placed-Window o head marked (at_head ahead fits oe ne free me) small flags =
      let whole = (span-bounds m).2 in
      rw (me, oe, ne)
        (Holds-with (stamp r.bytes r.head m)
          (if r.head + span m == r.capacity then 0 else r.head + span m) (ms ++ m ∷ [])
          (ground (arith, h.large)) (ground (arith, h.head_whole, whole))
          (Window-at_head r ms m h small flags ahead fits (λ e. free (ne ∙ e)) h.window))
  placed-Window o head marked (at_start ahead over fits oe ne me) small flags =
      let whole = (span-bounds m).2 in
      rw (me, oe, ne)
        (unfold emit_sentinel in
          Holds-with (stamp (emit_sentinel r r.head).bytes 0 m) (span m) (ms ++ m ∷ [])
            (omega (arith, h.tail_in)) whole
            (Window-at_start r ms m h small flags ahead over fits h.window))
  placed-Window o head marked (in_gap behind fits oe ne me) small flags =
      let whole = (span-bounds m).2 in
      rw (me, oe, ne)
        (Holds-with (stamp r.bytes r.head m) (r.head + span m) (ms ++ m ∷ [])
          (omega (arith, h.tail_in)) (omega (arith, h.head_whole, whole))
          (Window-in_gap r ms m h small flags behind fits h.window))

  refused_call :
      (marked : MsgRing)
      → try_reserve_with r m.envelope (length m.payload) ≡ (none, marked)
      → reserve_and_commit r m.envelope m.payload ≡ some (false, marked)
  unfolding reserve_and_commit
  refused_call marked e = ground (arith, e)

  -- A record is either taken, and is then the newest of the ring, or refused, and then the ring is
  -- unchanged and the bytes in use with twice the record exceed the capacity. There is no panic.
  pub reserve_and_commit_lem :
      m.envelope.flags < 65536
      → ((r' : MsgRing) × (reserve_and_commit r m.envelope m.payload ≡ some (true, r'))
          × Holds r' (ms ++ m ∷ []))
        ⊎ ((reserve_and_commit r m.envelope m.payload ≡ some (false, r))
            × (r.capacity < in_use r + 2 * span m))
  reserve_and_commit_lem flags =
      elim (reservation (try_reserve_with r m.envelope (length m.payload))) [
        | inl (grant, marked, found) ↦
            let (place, capacity, record_len, envelope, small) =
              reserved r m h.head_in h.tail_in h.small grant marked found in
            inl (
              _,
              sent r marked grant m found capacity record_len envelope,
              placed-Window grant.offset grant.new_head marked place small flags,
            )
        | inr (marked, found) ↦
            let (same, full) =
              refused r m h.head_in h.tail_in h.small marked h.head_whole h.whole found in
            inr (refused_call marked found ∙ ap (λ q. some (false, q)) same, full)
      ]
