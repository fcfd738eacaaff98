-- ===== src/Exec/Laws.antt =====
-- What `add8`, `sub8` and the flag register of exec.rs compute.
use gbx.Prelude.{ℕ, ◌+◌, ◌-◌, ◌*◌, ◌/◌, ◌%◌, ◌<◌, min, max, bit_and, bit_or, bit_xor}
use gbx.Prelude.{==_iff, all_below, all_below_sound}
use gbx.Prelude.{Bool, true, false, ◌==◌, ltb, is_set, u8, sub_u8, from_bool}
use gbx.Prelude.{◌≡◌, refl, arith}
use gbx.Prelude.Bits.{bit, bit-bit_and, bit-bit_or, bit-bit_xor, bit_and-two-pow, bit_xor-lt}
use gbx.Prelude.Bits.{bit_and-low_mask, bit_or-fields}
use gbx.Exec.{Flags, to_byte, from_byte, combine_u16, split_u16, add8, sub8}

-- The tests of the two carry formulas, with the bits as arithmetic.
half_bit :
    (a b s : ℕ)
    → bit_and (bit_xor (bit_xor a b) s) 0x10 ≡ ((bit 4 a + bit 4 b) % 2 + bit 4 s) % 2 * 16
half_bit a b s = omega (
  arith,
  bit_and-two-pow 4 (bit_xor (bit_xor a b) s),
  bit-bit_xor 4 (bit_xor a b) s,
  bit-bit_xor 4 a b,
)

carry_bit :
    (a b n : ℕ)
    → bit_and (bit_or (bit_and a b) (bit_and (bit_or a b) n)) 0x80
      ≡ max (min (bit 7 a) (bit 7 b)) (min (max (bit 7 a) (bit 7 b)) (bit 7 n)) * 128
carry_bit a b n = omega (
  arith,
  bit_and-two-pow 7 (bit_or (bit_and a b) (bit_and (bit_or a b) n)),
  bit-bit_or 7 (bit_and a b) (bit_and (bit_or a b) n),
  bit-bit_and 7 a b,
  bit-bit_and 7 (bit_or a b) n,
  bit-bit_or 7 a b,
)

add_half :
    (a b c : ℕ)
    → a < 256
    → b < 256
    → c < 2
    → is_set (bit_and (bit_xor (bit_xor a b) ((a + b + c) % 256)) 0x10)
      ≡ ltb 15 (a % 16 + b % 16 + c)
add_half a b c p q r = ground (arith, half_bit a b ((a + b + c) % 256))

add_carry :
    (a b c : ℕ)
    → a < 256
    → b < 256
    → c < 2
    → is_set (bit_and (bit_or (bit_and a b) (bit_and (bit_or a b) (255 - (a + b + c) % 256))) 0x80)
      ≡ ltb 255 (a + b + c)
add_carry a b c p q r = ground (arith, carry_bit a b (255 - (a + b + c) % 256))

from_bool-lt : (b : Bool) → from_bool b < 2
from_bool-lt true = omega arith
from_bool-lt false = omega arith

-- On bytes, addition with carry is exact: the byte is the sum modulo 256, `Z` says that it is
-- zero, `N` is clear, `H` says that the low digits overflow and `C` that the whole sum does.
pub add8_lem :
    (a b : ℕ) (carry : Bool)
    → a < 256
    → b < 256
    → let total = a + b + from_bool carry in
      add8 a b carry ≡ (
        total % 256,
        record {
          z = total % 256 == 0;
          n = false;
          h = ltb 15 (a % 16 + b % 16 + from_bool carry);
          c = ltb 255 total;
        },
      )
unfolding add8
add8_lem a b carry p q =
    let e : u8 (u8 (a + b) + from_bool carry) ≡ (a + b + from_bool carry) % 256 = omega arith in
    rw (
      e,
      add_half a b (from_bool carry) p q (from_bool-lt carry),
      add_carry a b (from_bool carry) p q (from_bool-lt carry),
    )

borrow_bit :
    (a b n d : ℕ)
    → bit_and (bit_or (bit_and n b) (bit_and (255 - bit_xor a b) d)) 0x80
      ≡ max (min (bit 7 n) (bit 7 b)) (min (bit 7 (255 - bit_xor a b)) (bit 7 d)) * 128
borrow_bit a b n d = omega (
  arith,
  bit_and-two-pow 7 (bit_or (bit_and n b) (bit_and (255 - bit_xor a b) d)),
  bit-bit_or 7 (bit_and n b) (bit_and (255 - bit_xor a b) d),
  bit-bit_and 7 n b,
  bit-bit_and 7 (255 - bit_xor a b) d,
)

sub_half :
    (a b c : ℕ)
    → a < 256
    → b < 256
    → c < 2
    → is_set (bit_and (bit_xor (bit_xor a b) ((a + 512 - b - c) % 256)) 0x10)
      ≡ ltb (a % 16) (b % 16 + c)
sub_half a b c p q r = ground (arith, half_bit a b ((a + 512 - b - c) % 256))

sub_borrow :
    (a b c : ℕ)
    → a < 256
    → b < 256
    → c < 2
    → is_set (
        bit_and
          (bit_or (bit_and (255 - a) b) (bit_and (255 - bit_xor a b) ((a + 512 - b - c) % 256)))
          0x80)
      ≡ ltb a (b + c)
sub_borrow a b c p q r =
    ground (
      arith,
      borrow_bit a b (255 - a) ((a + 512 - b - c) % 256),
      bit-bit_xor 7 a b,
      bit_xor-lt 8 a b,
    )

-- On bytes, subtraction with borrow is exact: the byte is the difference modulo 256, `Z` says
-- that it is zero, `N` is set, `H` says that the low digits borrow and `C` that the whole
-- difference does.
pub sub8_lem :
    (a b : ℕ) (borrow : Bool)
    → a < 256
    → b < 256
    → let diff = (a + 512 - b - from_bool borrow) % 256 in
      sub8 a b borrow ≡ (
        diff,
        record {
          z = diff == 0;
          n = true;
          h = ltb (a % 16) (b % 16 + from_bool borrow);
          c = ltb a (b + from_bool borrow);
        },
      )
unfolding sub8
sub8_lem a b borrow p q =
    let e : sub_u8 (sub_u8 a b) (from_bool borrow) ≡ (a + 512 - b - from_bool borrow) % 256 =
      omega (arith, from_bool-lt borrow) in
    rw (
      e,
      sub_half a b (from_bool borrow) p q (from_bool-lt borrow),
      sub_borrow a b (from_bool borrow) p q (from_bool-lt borrow),
    )

F_table : all_below 256 (λ v. to_byte (from_byte v) == v / 16 * 16) ≡ true
unfolding all_below from_byte to_byte
F_table = refl

-- The flags survive the trip through the `F` byte, and a byte comes back with its low four bits
-- cleared.
pub from_byte-to_byte :
    (f : Flags) (v : ℕ)
    → v < 256
    → (from_byte (to_byte f) ≡ f) × (to_byte (from_byte v) ≡ v / 16 * 16)
unfolding from_byte to_byte
from_byte-to_byte f v h = (ground arith, (==_iff _ _).0 (all_below_sound 256 _ v F_table h))

-- Splitting a word into its bytes and combining two bytes into a word are inverse.
pub combine_u16-split_u16 :
    (v high low : ℕ)
    → v < 65536
    → high < 256
    → low < 256
    → (combine_u16 (split_u16 v).0 (split_u16 v).1 ≡ v)
      × (split_u16 (combine_u16 high low) ≡ (high, low))
unfolding combine_u16 split_u16
combine_u16-split_u16 v high low p q r = (
  omega (arith, bit_and-low_mask 8 v, bit_or-fields 8 (v / 256 % 256) (bit_and v 255)),
  ground (arith, bit_or-fields 8 high low r, bit_and-low_mask 8 (high * 256 + low)),
)
