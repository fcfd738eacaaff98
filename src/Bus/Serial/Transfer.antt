-- ===== src/Bus/Serial/Transfer.antt =====
-- A whole transfer over the serial link of bus.rs.
use gbx.Prelude.{ℕ, ◌+◌, ◌-◌, ◌<◌, ◌≡◌, inl, inr, refl, sym, ap, ◌∙◌, arith}
use gbx.Prelude.{Bool, true, false, not, ◌&&◌, ◌||◌, ◌==◌, [], ◌∷◌, ◌++◌, bit_or, bit_and}
use gbx.Prelude.{all_below, all_below_sound, ==_iff, if◌then◌else◌, Bool-cases, u8, ◌<<<◌}
use gbx.Bus.{Bus, reset_serial_state}
use gbx.Bus.Serial.{tick, clock_serial_bit, finish_serial_transfer, advance_loop, advance_serial}
use gbx.Bus.Serial.{write_serial_control}
use gbx.Bus.Serial.Laws.{advance_serial-add, advance_serial_idle}
use mathlib.Core.Path.{subst}
use gbx.Io
use gbx.Io.{sb_index, sc_index, if_index}

if_false : (test : Bool) (x y : Bus) → test ≡ false → (if test then x else y) ≡ y
if_false test x y e = ap (λ b. if b then x else y) e

-- The state that a write of 0x81 to SC leaves, when no transfer runs.
abbrev started : Bus → Bus
started bus = record bus {
  io = Io.write bus.io sc_index 0x81;
  serial_internal_clock = true;
  serial_pending_data = Io.read bus.io sb_index;
  serial_shift_reg = Io.read bus.io sb_index;
  serial_bits_remaining = 8;
  serial_active = true;
  serial_counter = 512;
}

start_lem : (bus : Bus) → bus.serial_active ≡ false → write_serial_control bus 0x81 ≡ started bus
unfolding write_serial_control reset_serial_state Io.read Io.write
start_lem bus idle =
    if_false
      (not (bit_and (Io.sc_raw bus.io) 0x80 == 0 || not bus.serial_active) && bus.serial_active)
      (record bus { io = Io.write bus.io sc_index 0x81; serial_internal_clock = true })
      (started bus) (ground arith)

-- A shift with a one put in.
abbrev shifted : ℕ → ℕ
shifted v = bit_or (u8 (v <<< 1)) 1

all_ones :
    all_below 256
      (λ v. shifted (shifted (shifted (shifted (shifted (shifted (shifted (shifted v))))))) == 0xFF)
    ≡ true
unfolding all_below
all_ones = refl

-- The link when a transfer is over.
pub record IsTransferred (before after : Bus) : Type 0 where
  pub inactive : after.serial_active ≡ false
  pub received : after.io.regs sb_index ≡ 0xFF
  pub control : after.io.regs sc_index ≡ 0x01
  pub requested :
      after.io.regs if_index ≡ bit_or (bit_and (bit_or (before.io.regs if_index) 0x08) 0x1F) 0xE0
  pub sent : after.serial_out ≡ before.serial_out ++ (before.io.regs sb_index ∷ [])

ends :
    (bus : Bus)
    → bus.io.regs sb_index < 256
    → IsTransferred bus (advance_loop 4096 4096 (started bus)).1
unfolding advance_loop tick clock_serial_bit finish_serial_transfer reset_serial_state Io.write
    Io.read Io.set_if Io.if_reg Io.set_sc Io.sc_raw
ends bus byte = record {
  inactive = refl;
  received = (==_iff _ _).0 (all_below_sound 256 _ (bus.io.regs sb_index) all_ones byte);
  control = refl;
  requested = refl;
  sent = refl;
}

still_active : (bus : Bus) → (advance_loop 4095 4095 (started bus)).1.serial_active ≡ true
unfolding advance_loop tick clock_serial_bit finish_serial_transfer reset_serial_state Io.write
still_active bus = refl

-- An idle link stays as it is.
idle_stays :
    (n : ℕ) (bus : Bus) → bus.serial_active ≡ false → (advance_serial bus n).serial_active ≡ false
idle_stays n bus e = ap (λ b. b.serial_active) (advance_serial_idle n bus (ground arith)) ∙ e

active_before :
    (n : ℕ) (bus : Bus) → n < 4096 → (advance_serial (started bus) n).serial_active ≡ true
active_before n bus h = elim (Bool-cases (advance_serial (started bus) n).serial_active) [
  | inl on ↦ on
  | inr off ↦
      let rest = 4095 - n in
      let whole : n + rest ≡ 4095 = omega arith in
      let stays = idle_stays rest (advance_serial (started bus) n) off in
      let split =
        sym (advance_serial-add n rest (started bus)) ∙ ap (advance_serial (started bus)) whole in
      let last : (advance_serial (started bus) 4095).serial_active ≡ true =
        unfold advance_serial in still_active bus in
      ground (arith, stays, last, ap (λ b. b.serial_active) split)
]

-- With no transfer active and a byte in SB, a write of 0x81 to SC starts a transfer of the byte
-- that takes exactly 8 × 512 cycles: it is active before, and at its end it is not, SB holds
-- 0xFF, SC 0x01, the serial interrupt is requested and the byte is appended to the output.
pub advance_serial-write_serial_control :
    (bus : Bus)
    → bus.serial_active ≡ false
    → bus.io.regs sb_index < 256
    → IsTransferred bus (advance_serial (write_serial_control bus 0x81) 4096)
      × ((n : ℕ)
          → n < 4096
          → (advance_serial (write_serial_control bus 0x81) n).serial_active ≡ true)
unfolding advance_serial
advance_serial-write_serial_control bus idle byte = (
  subst (λ b. IsTransferred bus (advance_serial b 4096)) (sym (start_lem bus idle)) (ends bus byte),
  λ n h. ap (λ b. (advance_serial b n).serial_active) (start_lem bus idle) ∙ active_before n bus h,
)
