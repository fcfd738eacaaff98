-- ===== src/Prelude/Words.antt =====
-- Arithmetic of u8, u16 and u32: wrap-around and complement written out.
use Prim.Native.Nat.{ℕ, ◌+◌, ◌-◌, ◌*◌, ◌/◌, ◌%◌, ◌^◌}
use mathlib.Core.Bool.{Bool, true, false}
use gbx.Prelude.Tests.{ltb, if◌then◌else◌}

-- `as u8`, `as u16`
abbrev pub u8 : ℕ → ℕ
u8 n = n % 256

abbrev pub u16 : ℕ → ℕ
u16 n = n % 65536

abbrev pub u32 : ℕ → ℕ
u32 n = n % 4294967296

-- `wrapping_sub`; `-` on ℕ stops at 0, so the modulus is added first.
abbrev pub sub_u8 : ℕ → ℕ → ℕ
sub_u8 a b = (a + 256 - b) % 256

abbrev pub sub_u16 : ℕ → ℕ → ℕ
sub_u16 a b = (a + 65536 - b) % 65536

abbrev pub sub_u32 : ℕ → ℕ → ℕ
sub_u32 a b = (a + 4294967296 - b) % 4294967296

-- `!x`
abbrev pub not_u8 : ℕ → ℕ
not_u8 x = 255 - x

abbrev pub not_u16 : ℕ → ℕ
not_u16 x = 65535 - x

infixl 75 ◌<<<◌ ◌>>>◌
-- `x << k` before the bits above the width are dropped, and `x >> k`
abbrev pub ◌<<<◌ : ℕ → ℕ → ℕ
x <<< k = x * 2 ^ k

abbrev pub ◌>>>◌ : ℕ → ℕ → ℕ
x >>> k = x / 2 ^ k

-- `u8::from(b)`
abbrev pub from_bool : Bool → ℕ
from_bool true = 1
from_bool false = 0

-- `x as i8 as i16 as u16`
abbrev pub sign_extend : ℕ → ℕ
sign_extend x = if ltb x 128 then x else x + 65280
