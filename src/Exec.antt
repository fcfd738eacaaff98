-- ===== src/Exec.antt =====
-- The scalar execution backend (crates/04-services/kernel-core/src/exec.rs): the flag register
-- and the byte operations of `impl Exec for Scalar`, whose `U8`, `U16` and `Mask` are u8, u16
-- and bool.
pub mod Laws
use gbx.Prelude.{ℕ, ◌+◌, ◌-◌, ◌*◌, ◌/◌, ◌%◌, ◌^◌, bit_and, bit_or, bit_xor, Bool, true, false}
use gbx.Prelude.{◌==◌, is_set, if◌then◌else◌, u8, sub_u8, not_u8, ◌<<<◌, ◌>>>◌, from_bool}

pub record Flags : Type 0 where
  pub z : Bool
  pub n : Bool
  pub h : Bool
  pub c : Bool

-- `Flags::to_byte`
unfoldable pub to_byte : Flags → ℕ
to_byte f =
    bit_or (bit_or (bit_or (from_bool f.z <<< 7) (from_bool f.n <<< 6)) (from_bool f.h <<< 5))
      (from_bool f.c <<< 4)

-- `Flags::from_byte`
unfoldable pub from_byte : ℕ → Flags
from_byte v = record {
  z = is_set (bit_and v 0x80);
  n = is_set (bit_and v 0x40);
  h = is_set (bit_and v 0x20);
  c = is_set (bit_and v 0x10);
}

-- `combine_u16` and `split_u16`, which gives the high byte first
unfoldable pub combine_u16 : ℕ → ℕ → ℕ
combine_u16 high low = bit_or (high <<< 8) low

unfoldable pub split_u16 : ℕ → ℕ × ℕ
split_u16 v = (u8 (v >>> 8), bit_and v 0x00FF)

-- `Scalar::add8`: the sum with carry in, and the flags of the sum.
unfoldable pub add8 : ℕ → ℕ → Bool → ℕ × Flags
add8 a b carry =
    let cin = from_bool carry in
    let sum = u8 (u8 (a + b) + cin) in
    let half = is_set (bit_and (bit_xor (bit_xor a b) sum) 0x10) in
    let carry_out =
      is_set (bit_and (bit_or (bit_and a b) (bit_and (bit_or a b) (not_u8 sum))) 0x80) in
    (sum, record { z = sum == 0; n = false; h = half; c = carry_out })

-- `Scalar::sub8`: the difference with borrow in, and the flags of the difference.
unfoldable pub sub8 : ℕ → ℕ → Bool → ℕ × Flags
sub8 a b borrow =
    let cin = from_bool borrow in
    let diff = sub_u8 (sub_u8 a b) cin in
    let half = is_set (bit_and (bit_xor (bit_xor a b) diff) 0x10) in
    let borrow_out =
      is_set (bit_and (bit_or (bit_and (not_u8 a) b) (bit_and (not_u8 (bit_xor a b)) diff)) 0x80) in
    (diff, record { z = diff == 0; n = true; h = half; c = borrow_out })
