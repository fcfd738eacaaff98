-- ===== src/Transport/IndexRing/Window.antt =====
-- `IndexRing` of slot_pool.rs against a queue: the entries from tail to head.
use gbx.Prelude.{ℕ, zero, suc, ◌+◌, ◌*◌, ◌/◌, ◌%◌, ◌^◌, ◌≤◌, ◌<◌, ◌≡◌, ◌≢◌, refl, ap, ◌∙◌, arith}
use gbx.Prelude.{u32, update, leb, ltb, ◌&&◌, if◌then◌else◌, none, some}
use gbx.Prelude.{List, [], ◌∷◌, ◌++◌, length, length-snoc}
use native.Mathlib.Nat.{
  div-add-mod, mod-mod_of_dvd, mod-eq_of_lt, dvd_of_mod-eq-zero, mul-le-mul_left, mul-suc,
}
use native.Mathlib.Decide.{dec_le}
use gbx.Transport.IndexRing.{IndexRing, push, pop, len, new, fill_loop, fill_sequential}
use gbx.Transport.Region.{Platform, ok}

-- The list stands in the entries from position `t` on, positions being unbounded.
abbrev pub Stored : (ℕ → ℕ) → ℕ → ℕ → List ℕ → Type 0
Stored e c t [] = Unit
Stored e c t (x ∷ xs) = (e (t % c) ≡ x) × Stored e c (suc t) xs

-- The ring holds `xs`, oldest first, its tail being position `t` modulo 2³².
pub record Holds (r : IndexRing) (t : ℕ) (xs : List ℕ) : Type 0 where
  pub positive : 0 < r.capacity
  pub bounded : r.capacity < 2 ^ 32
  pub tail_at : r.tail ≡ u32 t
  pub head_at : r.head ≡ u32 (t + length xs)
  pub fits : length xs ≤ r.capacity
  pub stored : Stored r.entries r.capacity t xs

mul_step : (c a b : ℕ) → a < b → c * a + c ≤ c * b
mul_step c a b h = omega (arith, mul-le-mul_left {m = suc a} {n = b} c h, mul-suc c a)

-- Positions less than the capacity apart have different entries.
mod-ne : (c t k : ℕ) → t < k → k < t + c → t % c ≢ k % c
mod-ne c t k p q e = elim (dec_le (k / c) (t / c)) [
  | yes h ↦ omega (arith, mul-le-mul_left c h, div-add-mod t c, div-add-mod k c, e)
  | no h ↦
      omega (arith, mul_step c (t / c) (k / c) (omega arith), div-add-mod t c, div-add-mod k c, e)
]

-- A wrapped counter selects the entry of its position when the capacity divides 2³².
wrapped : (c t : ℕ) → 4294967296 % c ≡ 0 → u32 t % c ≡ t % c
wrapped c t h = mod-mod_of_dvd c t (dvd_of_mod-eq-zero c h)

Stored-append :
    (e : ℕ → ℕ) (c t : ℕ) (xs : List ℕ) (v : ℕ)
    → Stored e c t xs
    → e ((t + length xs) % c) ≡ v
    → Stored e c t (xs ++ v ∷ [])
Stored-append e c t [] v s h = (ap (λ k. e (k % c)) {x = t} {y = t + 0} (omega arith) ∙ h, tt)
Stored-append e c t (x ∷ xs) v s h = (
  s.0,
  Stored-append e c (suc t) xs v s.1
      (ap (λ k. e (k % c)) {x = suc t + length xs} {y = t + suc (length xs)} (omega arith) ∙ h),
)

-- A write at a later position, less than the capacity on, leaves the list.
Stored-update :
    (e : ℕ → ℕ) (c t k v : ℕ) (xs : List ℕ)
    → Stored e c t xs
    → t + length xs ≤ k
    → k < t + c
    → Stored (update e (k % c) v) c t xs
Stored-update e c t k v [] s p q = tt
Stored-update e c t k v (x ∷ xs) s p q =
    let other = mod-ne c t k (omega arith) q in
    (ground (arith, s.0, other), Stored-update e c (suc t) k v xs s.1 (omega arith) (omega arith))

pub len-Holds : (r : IndexRing) (t : ℕ) (xs : List ℕ) → Holds r t xs → len r ≡ length xs
unfolding len
len-Holds r t xs h = omega (arith, h.tail_at, h.head_at, h.fits, h.bounded)

push_full : (r : IndexRing) (v n : ℕ) → len r ≡ n → r.capacity ≤ n → push r v ≡ none
unfolding push len
push_full r v n e h = ground arith

push_room :
    (r : IndexRing) (v n : ℕ)
    → len r ≡ n
    → n < r.capacity
    → push r v
      ≡ some
          (record r { entries = update r.entries (r.head % r.capacity) v; head = u32 (r.head + 1) })
unfolding push len
push_room r v n e h = ground arith

module _ (r : IndexRing) (t : ℕ) (divides : 4294967296 % r.capacity ≡ 0) where
  -- A full ring refuses a push.
  pub push-full : (xs : List ℕ) (v : ℕ) → Holds r t xs → length xs ≡ r.capacity → push r v ≡ none
  push-full xs v h full = push_full r v (length xs) (len-Holds r t xs h) (omega (arith, full))

  push-entry : (xs : List ℕ) → Holds r t xs → r.head % r.capacity ≡ (t + length xs) % r.capacity
  push-entry xs h = rw h.head_at (wrapped r.capacity (t + length xs) divides)

  push-Stored :
      (xs : List ℕ) (v : ℕ)
      → Holds r t xs
      → length xs < r.capacity
      → Stored (update r.entries (r.head % r.capacity) v) r.capacity t (xs ++ v ∷ [])
  push-Stored xs v h room =
      let k = t + length xs in
      let after = update r.entries (k % r.capacity) v in
      rw (push-entry xs h) (
        Stored-append after r.capacity t xs v
          (Stored-update r.entries r.capacity t k v xs h.stored (omega arith) (omega arith))
          (ground arith))

  -- A push appends to a ring with room.
  pub push-Holds :
      (xs : List ℕ) (v : ℕ)
      → Holds r t xs
      → length xs < r.capacity
      → (r' : IndexRing) × (push r v ≡ some r')
        × Holds r' t (xs ++ v ∷ [])
        × (r'.capacity ≡ r.capacity)
  push-Holds xs v h room = (
    _,
    push_room r v (length xs) (len-Holds r t xs h) room,
    record {
      positive = h.positive;
      bounded = h.bounded;
      tail_at = h.tail_at;
      head_at = omega (arith, h.head_at, length-snoc xs v);
      fits = omega (arith, length-snoc xs v);
      stored = push-Stored xs v h room;
    },
    refl,
  )

  pub pop-empty : Holds r t [] → pop r ≡ none
  unfolding pop
  pop-empty h = ground (arith, h.tail_at, h.head_at)

  pop-some :
      (x : ℕ) (xs : List ℕ)
      → Holds r t (x ∷ xs)
      → pop r ≡ some (x, record r { tail = u32 (r.tail + 1) })
  unfolding pop
  pop-some x xs h =
      let moved : r.tail ≢ r.head =
        λ e. omega (arith, h.tail_at, h.head_at, h.fits, h.bounded, e) in
      let value : r.entries (r.tail % r.capacity) ≡ x =
        rw (h.tail_at, wrapped r.capacity t divides) h.stored.0 in
      ground (arith, moved, value)

  -- A pop takes the oldest entry.
  pub pop-Holds :
      (x : ℕ) (xs : List ℕ)
      → Holds r t (x ∷ xs)
      → (r' : IndexRing) × (pop r ≡ some (x, r')) × Holds r' (suc t) xs × (r'.capacity ≡ r.capacity)
  pop-Holds x xs h = (
    _,
    pop-some x xs h,
    record {
      positive = h.positive;
      bounded = h.bounded;
      tail_at = omega (arith, h.tail_at);
      head_at = omega (arith, h.head_at);
      fits = omega (arith, h.fits);
      stored = h.stored.1;
    },
    refl,
  )

-- `i`, …, `i + n - 1`
abbrev pub range : ℕ → ℕ → List ℕ
range i zero = []
range i (suc n) = i ∷ range (suc i) n

pub length-range : (i n : ℕ) → length (range i n) ≡ n
length-range i zero = refl
length-range i (suc n) = ap suc (length-range (suc i) n)

fill_loop-at :
    (n i j : ℕ) (e : ℕ → ℕ) → (fill_loop n i e) j ≡ (if leb i j && ltb j (i + n) then j else e j)
unfolding fill_loop
fill_loop-at zero i j e = ground arith
fill_loop-at (suc n) i j e = ground (arith, fill_loop-at n (i + 1) j (update e i i))

Stored-range :
    (e : ℕ → ℕ) (c n i : ℕ) → ((j : ℕ) → j < c → e j ≡ j) → i + n ≤ c → Stored e c i (range i n)
Stored-range e c zero i all h = tt
Stored-range e c (suc n) i all h = (
  let own : i % c ≡ i = mod-eq_of_lt (omega arith) in rw own (all i (omega arith)),
  Stored-range e c n (suc i) all (omega arith),
)

-- A filled ring holds every index once, in order.
pub fill_sequential-Holds :
    (r : IndexRing) (n : ℕ)
    → r.capacity ≡ n
    → 0 < n
    → n < 2 ^ 32
    → Holds (fill_sequential r) 0 (range 0 n) × ((fill_sequential r).capacity ≡ n)
unfolding fill_sequential
fill_sequential-Holds r n e p b = (
  record {
    positive = omega arith;
    bounded = omega arith;
    tail_at = refl;
    head_at = omega (arith, length-range 0 n);
    fits = omega (arith, length-range 0 n);
    stored =
        Stored-range (fill_loop r.capacity 0 r.entries) r.capacity n 0
          (λ j h. ground (arith, fill_loop-at r.capacity 0 j r.entries)) (omega arith);
  },
  e,
)

pub new-Holds :
    (os : Platform) (c : ℕ) (r : IndexRing)
    → 0 < c
    → c < 2 ^ 32
    → new os c ≡ ok r
    → Holds r 0 [] × (r.capacity ≡ c)
unfolding new
new-Holds os c r p b h = ground arith
