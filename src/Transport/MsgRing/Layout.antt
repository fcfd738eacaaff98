-- ===== src/Transport/MsgRing/Layout.antt =====
-- The bytes of msg_ring.rs: what a write leaves alone, and a run of records in a stretch of them.
use gbx.Prelude.{ℕ, zero, suc, ◌+◌, ◌*◌, ◌%◌, ◌≤◌, ◌<◌, ◌≡◌, refl, ap, ◌∙◌, arith}
use mathlib.Core.Path.{subst}
use gbx.Prelude.{sym, update, List, [], ◌∷◌, ◌++◌, length}
use gbx.Transport.MsgRing.{Record, copy_from_slice, fill, slice, align_up}

-- `e` is `d` outside the `n` bytes at `o`.
pub record Frame (d e : ℕ → ℕ) (o n : ℕ) : Type 0 where
  pub below : (j : ℕ) → j < o → e j ≡ d j
  pub above : (j : ℕ) → o + n ≤ j → e j ≡ d j

pub copy-below : (xs : List ℕ) (d : ℕ → ℕ) (o j : ℕ) → j < o → copy_from_slice d o xs j ≡ d j
unfolding copy_from_slice
copy-below [] d o j h = refl
copy-below (x ∷ xs) d o j h =
    let rest = copy-below xs (update d o x) (suc o) j (omega arith) in ground (arith, rest)

pub copy-above :
    (xs : List ℕ) (d : ℕ → ℕ) (o j : ℕ) → o + length xs ≤ j → copy_from_slice d o xs j ≡ d j
unfolding copy_from_slice
copy-above [] d o j h = refl
copy-above (x ∷ xs) d o j h =
    let rest = copy-above xs (update d o x) (suc o) j (omega arith) in ground (arith, rest)

pub fill-below : (n : ℕ) (d : ℕ → ℕ) (o j : ℕ) → j < o → fill d o n j ≡ d j
unfolding fill
fill-below zero d o j h = refl
fill-below (suc n) d o j h =
    let rest = fill-below n (update d o 0) (suc o) j (omega arith) in ground (arith, rest)

pub fill-above : (n : ℕ) (d : ℕ → ℕ) (o j : ℕ) → o + n ≤ j → fill d o n j ≡ d j
unfolding fill
fill-above zero d o j h = refl
fill-above (suc n) d o j h =
    let rest = fill-above n (update d o 0) (suc o) j (omega arith) in ground (arith, rest)

pub slice-cong :
    (n : ℕ) (d e : ℕ → ℕ) (a : ℕ)
    → ((j : ℕ) → a ≤ j → j < a + n → e j ≡ d j)
    → slice e a n ≡ slice d a n
unfolding slice
slice-cong zero d e a same = refl
slice-cong (suc n) d e a same =
    let first = same a (omega arith) (omega arith) in
    let rest = slice-cong n d e (suc a) (λ j p q. same j (omega arith) (omega arith)) in cc

-- What was copied is read back.
pub slice-copy :
    (xs : List ℕ) (d : ℕ → ℕ) (a : ℕ) → slice (copy_from_slice d a xs) a (length xs) ≡ xs
unfolding slice copy_from_slice
slice-copy [] d a = refl
slice-copy (x ∷ xs) d a =
    let first = copy-below xs (update d a x) (suc a) a (omega arith) in
    let rest = slice-copy xs (update d a x) (suc a) in ground (arith, first, rest)

-- A little-endian u32.
abbrev pub word_at : (ℕ → ℕ) → ℕ → ℕ
word_at d a = d a + 256 * d (a + 1) + 65536 * d (a + 2) + 16777216 * d (a + 3)

-- The bytes that a record takes.
abbrev pub span : Record → ℕ
span m = align_up (8 + length m.payload) 8

pub span-bounds :
    (m : Record)
    → (8 + length m.payload ≤ span m) × (span m < 16 + length m.payload) × (span m % 8 ≡ 0)
unfolding align_up
span-bounds m = omega arith

-- The record stands at `a`.
pub record At (d : ℕ → ℕ) (a : ℕ) (m : Record) : Type 0 where
  pub size : word_at d a ≡ 8 + length m.payload
  pub tag : d (a + 4) ≡ m.envelope.tag
  pub ver : d (a + 5) ≡ m.envelope.ver
  pub flags : d (a + 6) + 256 * d (a + 7) ≡ m.envelope.flags
  pub payload : slice d (a + 8) (length m.payload) ≡ m.payload

-- The records stand one after the other from `a` to `b`.
abbrev pub Run : (ℕ → ℕ) → ℕ → ℕ → List Record → Type 0
Run d a b [] = a ≡ b
Run d a b (m ∷ ms) = At d a m × Run d (a + span m) b ms

pub Run-le : (d : ℕ → ℕ) (a b : ℕ) (ms : List Record) → Run d a b ms → a ≤ b
Run-le d a b [] h = omega arith
Run-le d a b (m ∷ ms) h = omega (arith, Run-le d (a + span m) b ms h.1)

At-cong :
    (d e : ℕ → ℕ) (a : ℕ) (m : Record)
    → ((j : ℕ) → a ≤ j → j < a + span m → e j ≡ d j)
    → At d a m
    → At e a m
At-cong d e a m same h =
    let (long, _, _) = span-bounds m in
    let at = λ (k : ℕ) (p : k < 8). same (a + k) (omega arith) (omega (arith, long)) in
    record {
      size = omega (
        arith,
        at 0 (omega arith),
        at 1 (omega arith),
        at 2 (omega arith),
        at 3 (omega arith),
        h.size,
      );
      tag = at 4 (omega arith) ∙ h.tag;
      ver = at 5 (omega arith) ∙ h.ver;
      flags = omega (arith, at 6 (omega arith), at 7 (omega arith), h.flags);
      payload =
          slice-cong (length m.payload) d e (a + 8)
            (λ j p q. same j (omega arith) (omega (arith, long)))
          ∙ h.payload;
    }

pub Run-cong :
    (d e : ℕ → ℕ) (a b : ℕ) (ms : List Record)
    → ((j : ℕ) → a ≤ j → j < b → e j ≡ d j)
    → Run d a b ms
    → Run e a b ms
Run-cong d e a b [] same h = h
Run-cong d e a b (m ∷ ms) same h =
    let within = Run-le d (a + span m) b ms h.1 in
    (
      At-cong d e a m (λ j p q. same j p (omega (arith, within))) h.0,
      Run-cong d e (a + span m) b ms (λ j p q. same j (omega (arith, p)) q) h.1,
    )

-- A run goes on with one record.
pub Run-append :
    (d : ℕ → ℕ) (a b : ℕ) (ms : List Record) (m : Record)
    → Run d a b ms
    → At d b m
    → Run d a (b + span m) (ms ++ m ∷ [])
Run-append d a b [] m h new = (subst (λ k. At d k m) (sym h) new, ap (λ (k : ℕ). k + span m) h)
Run-append d a b (x ∷ ms) m h new = (h.0, Run-append d (a + span x) b ms m h.1 new)
