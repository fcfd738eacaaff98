-- ===== src/Ppu/Ends.antt =====
-- `PpuStub::step` ends whatever the LCD does (ppu_stub.rs).
use gbx.Prelude.{
  ℕ, suc, ◌≤◌, ◌≡◌, ◌∙◌, refl, arith, inl, inr, Bool, true, false, not, ◌&&◌, ◌||◌, ◌==◌, ltb, leb,
  if◌then◌else◌, Bool-cases, from_bool, sym,
}
use mathlib.Core.Path.{subst}
use gbx.Io
use gbx.Io.{ly_index}
use gbx.Bus.{Bus}
use gbx.Ppu.{Ppu, write_io, force_lcd_off, start_lcd, is_lcd_on, step_loop, step_counted}
use gbx.Ppu.Registers.{SameLcdc, set_mode-SameLcdc, set_mode_lem}
use gbx.Ppu.Position.{IsValid}
use gbx.Ppu.Timing.{step_loop_lem, lcd_stays_on}

-- Whether a running PPU is in a valid state, as a test.
unfoldable pub is_valid : Ppu → Bool
is_valid p =
    ltb p.ly 154
    && ltb p.dot_in_line 456
    && (if p.mode == 0
        then ltb p.ly 144 && leb 252 p.dot_in_line
        else if p.mode == 1
        then leb 144 p.ly
        else if p.mode == 2
        then ltb p.ly 144 && ltb p.dot_in_line 80
        else p.mode == 3 && ltb p.ly 144 && leb 80 p.dot_in_line && ltb p.dot_in_line 252)

is_valid-IsValid : (p : Ppu) → is_valid p ≡ true → IsValid p
unfolding is_valid
is_valid-IsValid p h = record {
  line_in = ground (arith, h);
  dot_in = ground (arith, h);
  mode_in = ground (arith, h);
  vblank = λ m. ground (arith, h, m);
  visible = λ m. ground (arith, h, m);
  oam_scan = λ m. ground (arith, h, m);
  transfer = λ m. (ground (arith, h, m), ground (arith, h, m));
  hblank = λ m. ground (arith, h, m);
}

IsValid-is_valid : (p : Ppu) → IsValid p → is_valid p ≡ true
unfolding is_valid
IsValid-is_valid p v =
    ground
      (arith, v.line_in, v.dot_in, v.mode_in, v.vblank, v.visible, v.oam_scan, v.transfer, v.hblank)

-- Stopped, or running in a valid state.
unfoldable pub is_sound : Ppu → Bool
is_sound p = not p.lcd_was_on || is_valid p

valid_sound : (p : Ppu) → IsValid p → is_sound p ≡ true
unfolding is_sound
valid_sound p v = ground (arith, IsValid-is_valid p v)

-- The state from which `start_lcd` sets its mode.
abbrev blank : Ppu
blank = record {
  dot_in_line = 0;
  ly = 0;
  mode = 0;
  lyc_equal = false;
  frame_ready = false;
  lcd_was_on = true;
}

start_lcd-IsValid : (p : Ppu) (bus : Bus) → IsValid (start_lcd p bus).0
unfolding start_lcd
start_lcd-IsValid p bus =
    subst IsValid (sym (set_mode_lem 2 blank (write_io bus ly_index 0))) (record {
      line_in = omega arith;
      dot_in = omega arith;
      mode_in = omega arith;
      vblank = λ m. omega arith;
      visible = λ m. omega arith;
      oam_scan = λ m. omega arith;
      transfer = λ m. absurd (omega (arith, m));
      hblank = λ m. absurd (omega (arith, m));
    })

start_lcd-SameLcdc : (p : Ppu) (bus : Bus) → SameLcdc bus (start_lcd p bus).1
unfolding start_lcd Io.write
start_lcd-SameLcdc p bus = ground (arith, set_mode-SameLcdc 2 blank (write_io bus ly_index 0))

loop_sound :
    (cycles : ℕ) (p : Ppu) (bus : Bus)
    → IsValid p
    → is_lcd_on bus ≡ true
    → let r = step_loop (suc cycles) cycles p bus in (r.0 ≡ 0) × (is_sound r.1 ≡ true)
loop_sound cycles p bus v on =
    let r = step_loop_lem (suc cycles) cycles p bus (omega arith) v on in
    (r.0, valid_sound (step_loop (suc cycles) cycles p bus).1 r.1.valid)

stopped_sound : (p : Ppu) (bus : Bus) → is_sound (force_lcd_off p bus).0 ≡ true
unfolding is_sound force_lcd_off
stopped_sound p bus = refl

running-IsValid : (p : Ppu) → is_sound p ≡ true → p.lcd_was_on ≡ true → IsValid p
unfolding is_sound
running-IsValid p sound on = is_valid-IsValid p (ground (arith, sound, on))

-- From a sound state the loop ends, in a sound state.
pub step_counted_sound :
    (cycles : ℕ) (p : Ppu) (bus : Bus)
    → is_sound p ≡ true
    → ((step_counted cycles p bus).0 ≡ 0) × (is_sound (step_counted cycles p bus).1 ≡ true)
unfolding step_counted
step_counted_sound cycles p bus sound = elim (Bool-cases (is_lcd_on bus)) [
  | inr off ↦ ground (arith, stopped_sound p bus)
  | inl on ↦ elim (Bool-cases p.lcd_was_on) [
    | inl was ↦ ground (arith, loop_sound cycles p bus (running-IsValid p sound was) on)
    | inr was ↦
        let started = start_lcd p bus in
        let still = lcd_stays_on bus started.1 (start_lcd-SameLcdc p bus) ∙ on in
        ground (arith, loop_sound cycles started.0 started.1 (start_lcd-IsValid p bus) still)
  ]
]

-- 1 if a loop of the PPU has hung, or might in a state that is not sound, and else 0.
unfoldable pub danger : Ppu → Bool → ℕ
danger p hung = from_bool (hung || not (is_sound p))

-- No step of the PPU brings danger.
pub danger-step_counted :
    (cycles : ℕ) (p : Ppu) (bus : Bus) (hung : Bool)
    → let r = step_counted cycles p bus in danger r.1 (hung || not (r.0 == 0)) ≤ danger p hung
unfolding danger
danger-step_counted cycles p bus hung = elim (Bool-cases (is_sound p)) [
  | inl sound ↦ ground (arith, step_counted_sound cycles p bus sound)
  | inr not_sound ↦ ground arith
]

pub danger-none : (p : Ppu) (hung : Bool) → danger p hung ≡ 0 → (hung ≡ false) × (is_sound p ≡ true)
unfolding danger
danger-none p hung h = (ground (arith, h), ground (arith, h))

pub none-danger : (p : Ppu) (hung : Bool) → hung ≡ false → is_sound p ≡ true → danger p hung ≡ 0
unfolding danger
none-danger p hung h sound = ground (arith, h, sound)
