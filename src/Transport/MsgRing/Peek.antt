-- ===== src/Transport/MsgRing/Peek.antt =====
-- One round of `consumer_peek`, and the `consumer_pop_advance` after it, of msg_ring.rs.
use gbx.Prelude.{ℕ, suc, ◌+◌, ◌-◌, ◌≤◌, ◌<◌, ◌≡◌, ◌≢◌, refl, ap, ◌∙◌, arith, ◌==◌, if◌then◌else◌}
use gbx.Prelude.{none, some, length}
use gbx.Transport.MsgRing.{MsgRing, Record, sentinel, slice}
use gbx.Transport.MsgRing.Consumer.{
  read_u32_at, envelope_at, wrapped, found, peek_round, peek_loop, meta_at_tail,
  consumer_pop_advance,
}
use gbx.Transport.MsgRing.Layout.{At, span, span-bounds, word_at}

-- The record `m` stands whole at the tail.
pub record Front (r : MsgRing) (m : Record) : Type 0 where
  pub at : At r.bytes r.tail m
  pub more : r.head ≢ r.tail
  pub inside : r.tail + span m ≤ r.capacity

pub peek_round-found :
    (r : MsgRing) (m : Record)
    → Front r m
    → r.capacity < 4294967295
    → peek_round r ≡ found (8 + length m.payload)
unfolding peek_round read_u32_at
peek_round-found r m f small =
    let (long, _, _) = span-bounds m in ground (arith, f.at.size, f.more, f.inside, long)

pub peek_round-wrapped :
    (r : MsgRing)
    → word_at r.bytes r.tail ≡ sentinel
    → r.head < r.tail
    → r.tail + 4 ≤ r.capacity
    → peek_round r ≡ wrapped
unfolding peek_round read_u32_at
peek_round-wrapped r word behind inside = ground (arith, word)

envelope_at-Front : (r : MsgRing) (m : Record) → Front r m → envelope_at r r.tail ≡ m.envelope
unfolding envelope_at
envelope_at-Front r m f = ground (arith, f.at.tag, f.at.ver, f.at.flags)

-- The ring after the peek.
abbrev pub peeked : MsgRing → Record → MsgRing
peeked r m = record r {
  consumer_meta = some (record { envelope = m.envelope; total_len = 8 + length m.payload });
}

pub peek_loop-found :
    (n : ℕ) (r : MsgRing) (m : Record)
    → Front r m
    → r.capacity < 4294967295
    → peek_loop (suc n) r ≡ some (some m, peeked r m)
unfolding peek_loop
peek_loop-found n r m f small =
    let round = peek_round-found r m f small in
    let envelope = envelope_at-Front r m f in
    let count : 8 + length m.payload - 8 ≡ length m.payload = omega arith in
    let payload = ap (slice r.bytes (r.tail + 8)) count ∙ f.at.payload in
    rw (round, peek_loop) (ground (arith, envelope, payload))

pub pop_lem :
    (r : MsgRing) (m : Record)
    → Front r m
    → r.capacity < 4294967295
    → consumer_pop_advance (peeked r m)
      ≡ some (record r {
        tail = if r.tail + span m == r.capacity then 0 else r.tail + span m;
        consumer_meta = none;
      })
unfolding consumer_pop_advance meta_at_tail
pop_lem r m f small = ground (arith, f.more, f.inside)

pub peek_loop-wrapped :
    (n : ℕ) (r : MsgRing)
    → peek_round r ≡ wrapped
    → peek_loop (suc n) r ≡ peek_loop n (record r { tail = 0 })
unfolding peek_loop
peek_loop-wrapped n r e = rw (e, peek_loop) refl

pub drained_lem :
    (n : ℕ) (r : MsgRing)
    → r.head ≡ r.tail
    → peek_loop (suc n) r ≡ some (none, record r { consumer_meta = none })
unfolding peek_loop peek_round
drained_lem n r e = ground (arith, e)
