-- ===== src/Mmu/Joypad.antt =====
-- The joypad register of mmu.rs, from the inputs of bus.rs.
use gbx.Prelude.{ℕ, ◌-◌, ◌/◌, ◌%◌, ◌<◌, ◌≡◌, refl, true, ◌&&◌, ◌==◌, bit_and, bit_or, not_u8, ◌>>>◌}
use gbx.Prelude.{all_below, all_below_sound, both_hold, ==_iff}
use gbx.Bus
use gbx.Bus.{Bus}
use gbx.Mmu
use gbx.Mmu.{read8_scalar, write8_scalar}

-- The two reads as the code computes them.
abbrev directions : ℕ → ℕ
directions joypad =
    bit_and (bit_or 0xE0 (bit_and (not_u8 (bit_and 0x0F (bit_and joypad 0x0F))) 0x0F)) 0x0F

abbrev buttons : ℕ → ℕ
buttons joypad =
    bit_and (bit_or 0xD0 (bit_and (not_u8 (bit_and 0x0F (bit_and (joypad >>> 4) 0x0F))) 0x0F)) 0x0F

inverted : all_below 256 (λ v. directions v == 15 - v % 16 && buttons v == 15 - v / 16) ≡ true
unfolding all_below
inverted = refl

-- With a byte of inputs and one group of keys selected, the low four bits that JOYP reads are
-- those of the group in the byte, each inverted: the low digit for 0x20, the high one for 0x10.
pub read8_scalar-set_inputs :
    (bus : Bus) (joypad : ℕ)
    → joypad < 256
    → let held = Bus.set_inputs bus joypad in
      (bit_and (read8_scalar (write8_scalar held 0xFF00 0x20) 0xFF00) 0x0F ≡ 15 - joypad % 16)
      × (bit_and (read8_scalar (write8_scalar held 0xFF00 0x10) 0xFF00) 0x0F ≡ 15 - joypad / 16)
unfolding read8_scalar write8_scalar Mmu.read_io Mmu.write_io Mmu.read_joyp Mmu.write_joyp
    Bus.set_inputs
read8_scalar-set_inputs bus joypad h =
    let both = both_hold _ _ (all_below_sound 256 _ joypad inverted h) in
    ((==_iff _ _).0 both.0, (==_iff _ _).0 both.1)
