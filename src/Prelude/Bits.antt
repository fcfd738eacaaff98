-- ===== src/Prelude/Bits.antt =====
-- Laws of `bit_and`, `bit_or` and `bit_xor` at variables, bit by bit: `bit k x` is the bit of
-- weight 2 ^ k. A test of one bit becomes arithmetic that `omega` reads.
use Prim.Native.Nat.{digits, differ, bit_and-bitwise, bit_or-bitwise, bit_xor-bitwise}
use Prim.Native.Nat.{ℕ, zero, suc, ◌+◌, ◌-◌, ◌*◌, ◌/◌, ◌%◌, ◌^◌, ◌≤◌, ◌<◌, min, max}
use Prim.Native.Nat.{bit_and, bit_or, bit_xor}
use mathlib.Core.Path.{◌≡◌, refl, sym, ap, ap₂, ◌∙◌}
use native.Mathlib.Omega.{arith}
use native.Mathlib.Nat.{le_refl, pow-succ', div-div-eq-div-mul, one-le-pow, div-add-mod, mod-lt}

-- The bit of weight 2 ^ k.
abbrev pub bit : ℕ → ℕ → ℕ
bit k x = x / 2 ^ k % 2

bit-suc : (k x : ℕ) → bit (suc k) x ≡ bit k (x / 2)
bit-suc k x =
    ap (λ t. t % 2) (ap (λ t. x / t) (pow-succ' 2 k) ∙ sym (div-div-eq-div-mul x 2 (2 ^ k)))

bit-zero : (k : ℕ) → bit k 0 ≡ 0
bit-zero zero = refl
bit-zero (suc k) = bit-suc k 0 ∙ bit-zero k

lowest : (q r : ℕ) → r < 2 → bit 0 (q * 2 + r) ≡ r
lowest q r h = omega arith

higher : (k q r : ℕ) → r < 2 → bit (suc k) (q * 2 + r) ≡ bit k q
higher k q r h = bit-suc k (q * 2 + r) ∙ ap (bit k) {x = (q * 2 + r) / 2} {y = q} (omega arith)

-- An operation on digits, and what is left when the first number has no more.
module _ (z : ℕ → ℕ) (f : ℕ → ℕ → ℕ) (rest : (k b : ℕ) → bit k (z b) ≡ f 0 (bit k b))
    (small : (x y : ℕ) → x < 2 → y < 2 → f x y < 2) where
  ended : (k b : ℕ) → bit k (z b) ≡ f (bit k 0) (bit k b)
  ended k b = rest k b ∙ ap (λ t. f t (bit k b)) (sym (bit-zero k))

  -- Every digit of the result is the operation on the two digits of its weight.
  bit-digits : (fuel k a b : ℕ) → a ≤ fuel → bit k (digits z f fuel a b) ≡ f (bit k a) (bit k b)
  bit-digits zero k zero b h = ended k b
  bit-digits (suc fuel) k zero b h = ended k b
  bit-digits zero k (suc a) b h = absurd (omega arith)
  bit-digits (suc fuel) zero (suc a) b h =
      lowest (digits z f fuel (suc a / 2) (b / 2)) (f (suc a % 2) (b % 2))
        (small (suc a % 2) (b % 2) (omega arith) (omega arith))
      ∙ ap₂ f (omega arith) (omega arith)
  bit-digits (suc fuel) (suc k) (suc a) b h =
      higher k (digits z f fuel (suc a / 2) (b / 2)) (f (suc a % 2) (b % 2))
        (small (suc a % 2) (b % 2) (omega arith) (omega arith))
      ∙ bit-digits fuel k (suc a / 2) (b / 2) (omega arith)
      ∙ ap₂ f (sym (bit-suc k (suc a))) (sym (bit-suc k b))

min-small : (x y : ℕ) → x < 2 → y < 2 → min x y < 2
min-small x y p q = omega arith

max-small : (x y : ℕ) → x < 2 → y < 2 → max x y < 2
max-small x y p q = omega arith

differ-small : (x y : ℕ) → x < 2 → y < 2 → differ x y < 2
differ-small zero y p q = q
differ-small (suc zero) zero p q = omega arith
differ-small (suc zero) (suc zero) p q = omega arith
differ-small (suc zero) (suc (suc y)) p q = absurd (omega arith)
differ-small (suc (suc x)) y p q = absurd (omega arith)

differ-mod : (x y : ℕ) → x < 2 → y < 2 → differ x y ≡ (x + y) % 2
differ-mod zero y p q = omega arith
differ-mod (suc zero) zero p q = refl
differ-mod (suc zero) (suc zero) p q = refl
differ-mod (suc zero) (suc (suc y)) p q = absurd (omega arith)
differ-mod (suc (suc x)) y p q = absurd (omega arith)

bit-lt : (k x : ℕ) → bit k x < 2
bit-lt k x = omega arith

pub bit-bit_and : (k a b : ℕ) → bit k (bit_and a b) ≡ min (bit k a) (bit k b)
bit-bit_and k a b =
    ap (bit k) (bit_and-bitwise a b)
    ∙ bit-digits (λ _. 0) min (λ i y. bit-zero i ∙ omega arith) min-small a k a b (le_refl a)

pub bit-bit_or : (k a b : ℕ) → bit k (bit_or a b) ≡ max (bit k a) (bit k b)
bit-bit_or k a b =
    ap (bit k) (bit_or-bitwise a b)
    ∙ bit-digits (λ y. y) max (λ i y. omega arith) max-small a k a b (le_refl a)

pub bit-bit_xor : (k a b : ℕ) → bit k (bit_xor a b) ≡ (bit k a + bit k b) % 2
bit-bit_xor k a b =
    ap (bit k) (bit_xor-bitwise a b)
    ∙ bit-digits (λ y. y) differ (λ i y. refl) differ-small a k a b (le_refl a)
    ∙ differ-mod (bit k a) (bit k b) (bit-lt k a) (bit-lt k b)

-- Numbers with the same digits are equal.
same_bits : (n x y : ℕ) → x ≤ n → y ≤ n → ((k : ℕ) → bit k x ≡ bit k y) → x ≡ y
same_bits zero x y p q same = omega arith
same_bits (suc n) x y p q same =
    let halves =
      same_bits n (x / 2) (y / 2) (omega arith) (omega arith)
        (λ k. sym (bit-suc k x) ∙ same (suc k) ∙ bit-suc k y) in
    omega (arith, halves, same 0)

-- A number by its lowest digit and its half, when these are known digit by digit.
split_low :
    (v half low : ℕ)
    → low < 2
    → bit 0 v ≡ low
    → ((k : ℕ) → bit (suc k) v ≡ bit k half)
    → v ≡ half * 2 + low
split_low v half low h first later =
    let top =
      same_bits (v / 2 + half) (v / 2) half (omega arith) (omega arith)
        (λ k. sym (bit-suc k v) ∙ later k) in
    omega (arith, first, top)

pub bit_and_low : (a b : ℕ) → bit_and a b ≡ bit_and (a / 2) (b / 2) * 2 + min (a % 2) (b % 2)
bit_and_low a b =
    split_low (bit_and a b) (bit_and (a / 2) (b / 2)) (min (a % 2) (b % 2)) (omega arith)
      (omega (arith, bit-bit_and 0 a b))
      (λ k.
        bit-bit_and (suc k) a b
        ∙ ap₂ min (bit-suc k a) (bit-suc k b)
        ∙ sym (bit-bit_and k (a / 2) (b / 2)))

pub bit_or_low : (a b : ℕ) → bit_or a b ≡ bit_or (a / 2) (b / 2) * 2 + max (a % 2) (b % 2)
bit_or_low a b =
    split_low (bit_or a b) (bit_or (a / 2) (b / 2)) (max (a % 2) (b % 2)) (omega arith)
      (omega (arith, bit-bit_or 0 a b))
      (λ k.
        bit-bit_or (suc k) a b
        ∙ ap₂ max (bit-suc k a) (bit-suc k b)
        ∙ sym (bit-bit_or k (a / 2) (b / 2)))

pub bit_xor_low : (a b : ℕ) → bit_xor a b ≡ bit_xor (a / 2) (b / 2) * 2 + (a % 2 + b % 2) % 2
bit_xor_low a b =
    split_low (bit_xor a b) (bit_xor (a / 2) (b / 2)) ((a % 2 + b % 2) % 2) (omega arith)
      (omega (arith, bit-bit_xor 0 a b))
      (λ k.
        bit-bit_xor (suc k) a b
        ∙ ap₂ (λ x y. (x + y) % 2) (bit-suc k a) (bit-suc k b)
        ∙ sym (bit-bit_xor k (a / 2) (b / 2)))

bit_and-zero : (a : ℕ) → bit_and a 0 ≡ 0
bit_and-zero a =
    same_bits (bit_and a 0) (bit_and a 0) 0 (le_refl _) (omega arith)
      (λ k. omega (arith, bit-bit_and k a 0, bit-zero k))

-- A mask of one bit selects that bit.
pub bit_and-two-pow : (k x : ℕ) → bit_and x (2 ^ k) ≡ bit k x * 2 ^ k
bit_and-two-pow zero x = omega (arith, bit_and_low x 1, bit_and-zero (x / 2))
bit_and-two-pow (suc k) x = rw (bit-suc k x) (
    omega (
      arith,
      bit_and_low x (2 ^ suc k),
      pow-succ' 2 k,
      ap (λ t. bit_and (x / 2) t) {x = 2 ^ suc k / 2} {y = 2 ^ k} (omega (arith, pow-succ' 2 k)),
      bit_and-two-pow k (x / 2),
      ap (λ (t : ℕ). bit k (x / 2) * t) (pow-succ' 2 k),
    ))

low_mask_fields : (k q r : ℕ) → r < 2 ^ k → bit_and (q * 2 ^ k + r) (2 ^ k - 1) ≡ r
low_mask_fields zero q r h = bit_and-zero (q * 1 + r) ∙ omega arith
low_mask_fields (suc k) q r h = omega (
  arith,
  bit_and_low (q * 2 ^ suc k + r) (2 ^ suc k - 1),
  pow-succ' 2 k,
  ap (λ (t : ℕ). q * t) (pow-succ' 2 k),
  one-le-pow k 2,
  ap (λ t. bit_and ((q * 2 ^ suc k + r) / 2) t) {x = (2 ^ suc k - 1) / 2} {y = 2 ^ k - 1}
      (omega (arith, pow-succ' 2 k, one-le-pow k 2)),
  ap (λ t. bit_and t (2 ^ k - 1)) {x = (q * 2 ^ suc k + r) / 2} {y = q * 2 ^ k + r / 2}
      (omega (arith, ap (λ (t : ℕ). q * t) (pow-succ' 2 k))),
  low_mask_fields k q (r / 2) (omega (arith, pow-succ' 2 k)),
)

-- A mask of k low bits is the remainder by 2 ^ k.
pub bit_and-low_mask : (k x : ℕ) → bit_and x (2 ^ k - 1) ≡ x % 2 ^ k
bit_and-low_mask k x =
    ap (λ t. bit_and t (2 ^ k - 1)) {x = x} {y = x / 2 ^ k * 2 ^ k + x % 2 ^ k}
      (omega (arith, one-le-pow k 2, div-add-mod x (2 ^ k)))
    ∙ low_mask_fields k (x / 2 ^ k) (x % 2 ^ k) (mod-lt x (one-le-pow k 2 (omega arith)))

and_le : (n a b : ℕ) → a ≤ n → bit_and a b ≤ a
and_le n zero b h = omega (arith, bit_and-bitwise 0 b)
and_le zero (suc a) b h = absurd (omega arith)
and_le (suc n) (suc a) b h =
    omega (arith, bit_and_low (suc a) b, and_le n (suc a / 2) (b / 2) (omega arith))

pub bit_and-le : (a b : ℕ) → bit_and a b ≤ a
bit_and-le a b = and_le a a b (le_refl a)

pub bit_or-lt : (k a b : ℕ) → a < 2 ^ k → b < 2 ^ k → bit_or a b < 2 ^ k
bit_or-lt zero zero zero p q = omega arith
bit_or-lt zero zero (suc b) p q = absurd (omega arith)
bit_or-lt zero (suc a) b p q = absurd (omega arith)
bit_or-lt (suc k) a b p q = omega (
  arith,
  bit_or_low a b,
  pow-succ' 2 k,
  bit_or-lt k (a / 2) (b / 2) (omega (arith, pow-succ' 2 k)) (omega (arith, pow-succ' 2 k)),
)

pub bit_xor-lt : (k a b : ℕ) → a < 2 ^ k → b < 2 ^ k → bit_xor a b < 2 ^ k
bit_xor-lt zero zero zero p q = omega arith
bit_xor-lt zero zero (suc b) p q = absurd (omega arith)
bit_xor-lt zero (suc a) b p q = absurd (omega arith)
bit_xor-lt (suc k) a b p q = omega (
  arith,
  bit_xor_low a b,
  pow-succ' 2 k,
  bit_xor-lt k (a / 2) (b / 2) (omega (arith, pow-succ' 2 k)) (omega (arith, pow-succ' 2 k)),
)

or_zero : (a : ℕ) → bit_or a 0 ≡ a
or_zero a =
    same_bits (bit_or a 0 + a) (bit_or a 0) a (omega arith) (omega arith)
      (λ k. omega (arith, bit-bit_or k a 0, bit-zero k))

-- `(q << k) | r` is a sum when `r` fits in k bits.
pub bit_or-fields : (k q r : ℕ) → r < 2 ^ k → bit_or (q * 2 ^ k) r ≡ q * 2 ^ k + r
bit_or-fields zero q zero h = or_zero (q * 1) ∙ omega arith
bit_or-fields zero q (suc r) h = absurd (omega arith)
bit_or-fields (suc k) q r h = omega (
  arith,
  bit_or_low (q * 2 ^ suc k) r,
  pow-succ' 2 k,
  ap (λ (t : ℕ). q * t) (pow-succ' 2 k),
  ap (λ t. bit_or t (r / 2)) {x = q * 2 ^ suc k / 2} {y = q * 2 ^ k}
      (omega (arith, ap (λ (t : ℕ). q * t) (pow-succ' 2 k))),
  bit_or-fields k q (r / 2) (omega (arith, pow-succ' 2 k)),
)
