-- ===== src/Ppu/Timing.antt =====
-- `PpuStub::step` of ppu_stub.rs as a whole: with the LCD on it ends, and moves the dot counter by
-- exactly the cycles that it is given.
use gbx.Prelude.{ℕ, zero, suc, ◌+◌, ◌-◌, ◌%◌, ◌≤◌, ◌≡◌, refl, arith, ap, ◌∙◌, min, u32}
use gbx.Prelude.{true, ◌||◌, leb, is_set, bit_and, if◌then◌else◌}
use gbx.Io
use gbx.Io.{lcdc_index}
use gbx.Bus.{Bus}
use gbx.Ppu.{Ppu, advance_round, step_loop, step_counted, is_lcd_on, refresh_coincidence, spend}
use gbx.Ppu.{handle_event, cycles_per_frame, cycles_until_next_event}
use gbx.Ppu.Registers.{SameLcdc, refresh-SameLcdc, set_mode-SameLcdc, advance_line-SameLcdc}
use gbx.Ppu.Position.{IsValid, IsAt, position, advance_round_lem}

handle_event-SameLcdc : (p : Ppu) (bus : Bus) → SameLcdc bus (handle_event p bus).1
unfolding handle_event
handle_event-SameLcdc p bus =
    let q : Ppu = record p {
      dot_in_line = if leb 456 p.dot_in_line then p.dot_in_line - 456 else 0;
    } in
    ground
      (arith, set_mode-SameLcdc 3 p bus, set_mode-SameLcdc 0 p bus, advance_line-SameLcdc q bus)

spend-SameLcdc : (cycles : ℕ) (p : Ppu) (bus : Bus) → SameLcdc bus (spend cycles p bus).2
unfolding spend
spend-SameLcdc cycles p bus =
    let moved : Ppu = record p {
      dot_in_line = u32 (p.dot_in_line + min (cycles_until_next_event p) cycles);
    } in
    ground (arith, handle_event-SameLcdc p bus, handle_event-SameLcdc moved bus)

advance_round-SameLcdc :
    (cycles : ℕ) (p : Ppu) (bus : Bus) → SameLcdc bus (advance_round cycles p bus).2
unfolding advance_round
advance_round-SameLcdc cycles p bus =
    let r = refresh_coincidence p bus in spend-SameLcdc cycles r.0 r.1 ∙ refresh-SameLcdc p bus

pub lcd_stays_on : (before after : Bus) → SameLcdc before after → is_lcd_on after ≡ is_lcd_on before
unfolding is_lcd_on Io.read
lcd_stays_on before after e = ap (λ t. is_set (bit_and t 0x80)) e

IsAt-trans :
    (s c : ℕ) (p q r : Ppu)
    → s ≤ c
    → IsValid p
    → IsAt (position p + s) p q
    → IsAt (position q + (c - s)) q r
    → IsAt (position p + c) p r
IsAt-trans s c p q r h v first rest = record {
  valid = rest.valid;
  place = omega (arith, first.place, rest.place);
  frame = ground (arith, first.place, first.frame, rest.frame, v.line_in, v.dot_in);
  lcd = rest.lcd ∙ first.lcd;
}

IsAt-refl : (p : Ppu) → IsValid p → IsAt (position p + 0) p p
IsAt-refl p v = record {
  valid = v;
  place = omega (arith, v.line_in, v.dot_in);
  frame = ground (arith, v.line_in, v.dot_in);
  lcd = refl;
}

step_loop_round :
    (fuel c : ℕ) (p : Ppu) (bus : Bus)
    → is_lcd_on bus ≡ true
    → let next = advance_round (suc c) p bus in
      step_loop (suc fuel) (suc c) p bus ≡ step_loop fuel next.0 next.1 next.2
unfolding step_loop
step_loop_round fuel c p bus on = ground arith

-- The loop with enough fuel.
pub step_loop_lem :
    (fuel cycles : ℕ) (p : Ppu) (bus : Bus)
    → cycles ≤ fuel
    → IsValid p
    → is_lcd_on bus ≡ true
    → let r = step_loop fuel cycles p bus in (r.0 ≡ 0) × IsAt (position p + cycles) p r.1
step_loop_lem zero zero p bus h v on = unfold step_loop in (refl, IsAt-refl p v)
step_loop_lem zero (suc c) p bus h v on = absurd (omega arith)
step_loop_lem (suc fuel) zero p bus h v on = unfold step_loop in (refl, IsAt-refl p v)
step_loop_lem (suc fuel) (suc c) p bus h v on =
    let next = advance_round (suc c) p bus in
    let round = advance_round_lem (suc c) p bus v (omega arith) in
    let s = round.0 in
    let rest =
      step_loop_lem fuel next.0 next.1 next.2 (omega (arith, round.3, round.1)) round.4.valid
        (lcd_stays_on bus next.2 (advance_round-SameLcdc (suc c) p bus) ∙ on) in
    rw (step_loop_round fuel c p bus on) (
      rest.0,
      IsAt-trans s (suc c) p next.1 (step_loop fuel next.0 next.1 next.2).1 round.2 v round.4
          (rw (← round.3) rest.1),
    )

pub enters_loop :
    (cycles : ℕ) (p : Ppu) (bus : Bus)
    → p.lcd_was_on ≡ true
    → is_lcd_on bus ≡ true
    → step_counted cycles p bus ≡ step_loop (suc cycles) cycles p bus
unfolding step_counted step_loop
enters_loop zero p bus was on = refl
enters_loop (suc c) p bus was on = ground arith

-- In a valid state with the LCD on and running, `PpuStub::step` ends, the cycles and one as its
-- fuel, and moves the position in the frame by the cycles that it is given, modulo 70224; the frame
-- is ready if it was or if the position wraps, and the state is valid and running again.
pub step_position :
    (cycles : ℕ) (p : Ppu) (bus : Bus)
    → IsValid p
    → p.lcd_was_on ≡ true
    → is_lcd_on bus ≡ true
    → let r = step_counted cycles p bus in
      (r.0 ≡ 0)
      × IsValid r.1
      × (position r.1 ≡ (position p + cycles) % cycles_per_frame)
      × (r.1.frame_ready ≡ (p.frame_ready || leb cycles_per_frame (position p + cycles)))
      × (r.1.lcd_was_on ≡ true)
step_position cycles p bus v was on =
    let done = step_loop_lem (suc cycles) cycles p bus (omega arith) v on in
    rw (enters_loop cycles p bus was on)
      (done.0, done.1.valid, done.1.place, done.1.frame, done.1.lcd ∙ was)
