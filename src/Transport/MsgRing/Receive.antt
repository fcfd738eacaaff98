-- ===== src/Transport/MsgRing/Receive.antt =====
-- Receiving from a message ring: `consumer_peek` and `consumer_pop_advance` of msg_ring.rs.
use mathlib.Core.Path.{subst}
use gbx.Prelude.{
  ℕ, suc, ◌+◌, ◌≤◌, ◌<◌, ◌≡◌, ◌⊎◌, inl, inr, refl, sym, ap, ◌∙◌, arith, ◌==◌, if◌then◌else◌,
}
use gbx.Prelude.{none, some, List, [], ◌∷◌, ◌++◌, Bool-cases}
use gbx.Transport.MsgRing.{MsgRing, Record}
use gbx.Transport.MsgRing.Consumer.{
  wrapped, peek_round, peek_loop, consumer_peek, consumer_pop_advance,
}
use gbx.Transport.MsgRing.Layout.{Run, Run-le, span, span-bounds, word_at}
use gbx.Transport.MsgRing.Peek.{
  Front, peek_round-wrapped, peek_loop-found, pop_lem, peeked, peek_loop-wrapped, drained_lem,
}
use gbx.Transport.MsgRing.Window.{Window, Ends, Holds}
use gbx.Transport.Port.{drain_one}

Run-over : (d : ℕ → ℕ) (a b : ℕ) (ms : List Record) → Run d a b ms → b ≤ a → ms ≡ []
Run-over d a b [] run h = refl
Run-over d a b (m ∷ ms) run h =
    let (long, _, _) = span-bounds m in
    absurd (omega (arith, Run-le d (a + span m) b ms run.1, long))

-- What is left when the record at the tail is gone.
remaining :
    (d : ℕ → ℕ) (c head tail : ℕ) (m : Record) (ms : List Record)
    → head < c
    → (tail ≤ head × Run d tail head (m ∷ ms))
      ⊎ ((e : ℕ) × (xs : List Record) × (ys : List Record) × (head < tail)
          × (ms ≡ xs ++ ys)
          × (e ≤ c)
          × Ends d c e
          × Run d tail e (m ∷ xs)
          × Run d 0 head ys)
    → Window d c head (if tail + span m == c then 0 else tail + span m) ms × (tail + span m ≤ c)
remaining d c head tail m ms inside (inl (ahead, run)) =
    let reach = Run-le d (tail + span m) head ms run.1 in
    let test : (if tail + span m == c then 0 else tail + span m) ≡ tail + span m =
      ground (arith, reach) in
    (rw test (Window.straight reach run.1), omega (arith, reach))
remaining d c head tail m ms inside (inr (e, xs, ys, behind, parts, within, ends, first, second)) =
    let reach = Run-le d (tail + span m) e xs first.1 in
    elim (Bool-cases (tail + span m == c)) [
      | inl full ↦
          let end : tail + span m ≡ c = ground arith in
          let none_left = Run-over d (tail + span m) e xs first.1 (omega (arith, end)) in
          let same : ms ≡ ys = parts ∙ ap (λ l. l ++ ys) none_left in
          (rw full (Window.straight (omega arith) (rw same second)), omega (arith, end))
      | inr room ↦ (
        rw room (Window.wrapped e xs ys (omega (arith, behind)) parts within ends first.1 second),
        omega (arith, reach),
      )
    ]

abbrev Taken : ℕ → MsgRing → Record → List Record → Type 0
Taken n r m ms =
    (p : MsgRing) × (q : MsgRing) × (peek_loop n r ≡ some (some m, p))
    × (consumer_pop_advance p ≡ some q)
    × Holds q ms

take-Front :
    (n : ℕ) (r : MsgRing) (m : Record) (ms : List Record)
    → Holds r (m ∷ ms)
    → Front r m
    → Window r.bytes r.capacity r.head
        (if r.tail + span m == r.capacity then 0 else r.tail + span m)
        ms
    → Taken (suc n) r m ms
take-Front n r m ms h f left = (
  peeked r m,
  _,
  peek_loop-found n r m f h.small,
  pop_lem r m f h.small,
  record {
    large = h.large;
    small = h.small;
    whole = h.whole;
    head_in = h.head_in;
    tail_in = ground (arith, f.inside, h.large);
    head_whole = h.head_whole;
    tail_whole = ground (arith, h.tail_whole, (span-bounds m).2);
    unpeeked = refl;
    window = left;
  },
)

-- The tail stands at a sentinel, and the records run from the start of the buffer.
rewound :
    (r : MsgRing) (ms : List Record)
    → Holds r ms
    → Run r.bytes 0 r.head ms
    → Holds (record r { tail = 0 }) ms
rewound r ms h run = record {
  large = h.large;
  small = h.small;
  whole = h.whole;
  head_in = h.head_in;
  tail_in = omega (arith, h.large);
  head_whole = h.head_whole;
  tail_whole = refl;
  unpeeked = h.unpeeked;
  window = Window.straight (omega arith) run;
}

take_straight :
    (n : ℕ) (r : MsgRing) (m : Record) (ms : List Record)
    → Holds r (m ∷ ms)
    → r.tail ≤ r.head
    → Run r.bytes r.tail r.head (m ∷ ms)
    → Taken (suc n) r m ms
take_straight n r m ms h ahead run =
    let (long, _, _) = span-bounds m in
    let reach = Run-le r.bytes (r.tail + span m) r.head ms run.1 in
    let (left, inside) =
      remaining r.bytes r.capacity r.head r.tail m ms h.head_in (inl (ahead, run)) in
    take-Front n r m ms h
      (record { at = run.0; more = λ e. omega (arith, reach, long, e); inside = inside }) left

sentinel_seen :
    (r : MsgRing) (ms : List Record) (e : ℕ)
    → Holds r ms
    → r.head < r.tail
    → r.tail ≡ e
    → Ends r.bytes r.capacity e
    → peek_round r ≡ wrapped
sentinel_seen r ms e h behind at (inl end) = absurd (omega (arith, h.tail_in))
sentinel_seen r ms e h behind at (inr (inside, word)) =
    peek_round-wrapped r (ap (word_at r.bytes) at ∙ word) behind
      (omega (arith, h.tail_in, h.tail_whole, h.whole))

take-Window :
    (r : MsgRing) (m : Record) (ms : List Record)
    → Holds r (m ∷ ms)
    → Window r.bytes r.capacity r.head r.tail (m ∷ ms)
    → Taken 2 r m ms
take-Window r m ms h (Window.straight ahead run) = take_straight 1 r m ms h ahead run
take-Window r m ms h (Window.wrapped e [] ys behind parts within ends first second) =
    let run = subst (λ l. Run r.bytes 0 r.head l) (sym parts) second in
    let (p, q, peek, pop, held) =
      take_straight 0 (record r { tail = 0 }) m ms (rewound r (m ∷ ms) h run) (omega arith) run in
    (p, q, peek_loop-wrapped 1 r (sentinel_seen r (m ∷ ms) e h behind first ends) ∙ peek, pop, held)
take-Window r m ms h (Window.wrapped e (x ∷ xs) ys behind parts within ends first second) =
    let head_same : x ≡ m = cc in
    let rest_same : ms ≡ xs ++ ys = cc in
    let run = subst (λ y. Run r.bytes r.tail e (y ∷ xs)) head_same first in
    let (left, inside) =
      remaining r.bytes r.capacity r.head r.tail m ms h.head_in
        (inr (e, xs, ys, behind, rest_same, within, ends, run, second)) in
    take-Front 1 r m ms h (record { at = run.0; more = λ e. omega (arith, e); inside = inside })
      left

unpeeked-Holds :
    (r : MsgRing) (ms : List Record) → Holds r ms → Holds (record r { consumer_meta = none }) ms
unpeeked-Holds r ms h = record {
  large = h.large;
  small = h.small;
  whole = h.whole;
  head_in = h.head_in;
  tail_in = h.tail_in;
  head_whole = h.head_whole;
  tail_whole = h.tail_whole;
  unpeeked = refl;
  window = h.window;
}

abbrev Idle : ℕ → MsgRing → Type 0
Idle n r = (q : MsgRing) × (peek_loop n r ≡ some (none, q)) × Holds q []

Idle-window : (r : MsgRing) → Holds r [] → Window r.bytes r.capacity r.head r.tail [] → Idle 2 r
Idle-window r h (Window.straight ahead run) = (_, drained_lem 1 r (sym run), unpeeked-Holds r [] h)
Idle-window r h (Window.wrapped e [] [] behind parts within ends first second) =
    let s = record r { tail = 0 } in
    (
      _,
      peek_loop-wrapped 1 r (sentinel_seen r [] e h behind first ends)
          ∙ drained_lem 0 s (sym second),
      unpeeked-Holds s [] (rewound r [] h second),
    )
Idle-window r h (Window.wrapped e [] (y ∷ ys) behind parts within ends first second) = cc
Idle-window r h (Window.wrapped e (x ∷ xs) ys behind parts within ends first second) = cc

-- An empty ring hands over nothing and stays empty.
pub drain_one-empty :
    (r : MsgRing) → Holds r [] → (q : MsgRing) × (drain_one r ≡ some (none, q)) × Holds q []
unfolding drain_one consumer_peek
drain_one-empty r h =
    let (q, peek, held) = Idle-window r h h.window in (q, ground (arith, peek), held)

-- Any other hands over its oldest record and keeps the others.
pub drain_one-some :
    (r : MsgRing) (m : Record) (ms : List Record)
    → Holds r (m ∷ ms)
    → (q : MsgRing) × (drain_one r ≡ some (some m, q)) × Holds q ms
unfolding drain_one consumer_peek
drain_one-some r m ms h =
    let (p, q, peek, pop, held) = take-Window r m ms h h.window in
    (q, ground (arith, peek, pop), held)
