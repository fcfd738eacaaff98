-- ===== src/Ppu/Position.antt =====
-- The scanline machine of ppu_stub.rs against a dot counter: the position in the frame is one
-- number below 70224, and line, dot and mode are determined by it.
use gbx.Prelude.{ℕ, ◌+◌, ◌-◌, ◌*◌, ◌%◌, ◌≤◌, ◌<◌, min, ◌≡◌, ◌≢◌, refl, arith, ap, ◌∙◌, u32}
use gbx.Prelude.{true, false, ◌==◌, ◌||◌, leb, if◌then◌else◌}
use native.Mathlib.Decide.{dec_lt, dec_le}
use gbx.Bus.{Bus}
use gbx.Ppu.{Ppu, next_line, refresh_coincidence}
use gbx.Ppu.{handle_event, spend, advance_round, cycles_until_next_event}
use gbx.Ppu.Registers.{set_mode_lem, advance_line_lem}

-- Dot and mode of a line: 80 dots of mode 2, 172 of mode 3, then mode 0; mode 1 from line 144 on.
pub record IsValid (p : Ppu) : Type 0 where
  pub line_in : p.ly < 154
  pub dot_in : p.dot_in_line < 456
  pub mode_in : p.mode < 4
  pub vblank : p.mode ≡ 1 → 144 ≤ p.ly
  pub visible : p.mode ≢ 1 → p.ly < 144
  pub oam_scan : p.mode ≡ 2 → p.dot_in_line < 80
  pub transfer : p.mode ≡ 3 → (80 ≤ p.dot_in_line) × (p.dot_in_line < 252)
  pub hblank : p.mode ≡ 0 → 252 ≤ p.dot_in_line

abbrev pub position : Ppu → ℕ
position p = p.ly * 456 + p.dot_in_line

-- `after` is the valid state at position `total`, modulo the length of a frame; a wrap makes a
-- frame ready.
pub record IsAt (total : ℕ) (before after : Ppu) : Type 0 where
  pub valid : IsValid after
  pub place : position after ≡ total % 70224
  pub frame : after.frame_ready ≡ (before.frame_ready || leb 70224 total)
  pub lcd : after.lcd_was_on ≡ before.lcd_was_on

-- A state whose dot has reached the end of its mode.
pub record IsDue (p : Ppu) : Type 0 where
  pub line_in : p.ly < 154
  pub mode_in : p.mode < 4
  pub vblank : p.mode ≡ 1 → 144 ≤ p.ly
  pub visible : p.mode ≢ 1 → p.ly < 144
  pub oam_scan : p.mode ≡ 2 → p.dot_in_line ≡ 80
  pub transfer : p.mode ≡ 3 → p.dot_in_line ≡ 252
  pub line_end : p.mode < 2 → p.dot_in_line ≡ 456

new_line : (p : Ppu) (bus : Bus) → IsDue p → p.mode < 2 → IsAt (position p) p (handle_event p bus).0
unfolding handle_event next_line
new_line p bus d m =
    let q = record p { dot_in_line = if leb 456 p.dot_in_line then p.dot_in_line - 456 else 0 } in
    record {
      valid = ground (arith, advance_line_lem q bus);
      place = ground (arith, advance_line_lem q bus);
      frame = ground (arith, advance_line_lem q bus);
      lcd = ground (arith, advance_line_lem q bus);
    }

new_mode : (p : Ppu) (bus : Bus) → IsDue p → 2 ≤ p.mode → IsAt (position p) p (handle_event p bus).0
unfolding handle_event
new_mode p bus d m = record {
  valid = ground (arith, set_mode_lem 3 p bus, set_mode_lem 0 p bus);
  place = ground (arith, set_mode_lem 3 p bus, set_mode_lem 0 p bus);
  frame = ground (arith, set_mode_lem 3 p bus, set_mode_lem 0 p bus);
  lcd = ground (arith, set_mode_lem 3 p bus, set_mode_lem 0 p bus);
}

handle_event_lem : (p : Ppu) (bus : Bus) → IsDue p → IsAt (position p) p (handle_event p bus).0
handle_event_lem p bus d = elim (dec_lt p.mode 2) [
  | yes m ↦ new_line p bus d m
  | no m ↦ new_mode p bus d (omega arith)
]

-- The wait for the next event is not zero in a valid state, and ends on one.
pub until_event :
    (p : Ppu)
    → IsValid p
    → let wait = cycles_until_next_event p in
      (0 < wait)
      × (wait ≤ 456)
      × IsDue (record p { dot_in_line = p.dot_in_line + wait })
      × ((step : ℕ) → step < wait → IsValid (record p { dot_in_line = p.dot_in_line + step }))
unfolding cycles_until_next_event
until_event p v = (ground arith, ground arith, ground arith, λ step h. ground arith)

refresh_keeps :
    (p : Ppu) (bus : Bus)
    → IsValid p
    → let after = (refresh_coincidence p bus).0 in
      IsValid after
      × (position after ≡ position p)
      × (after.frame_ready ≡ p.frame_ready)
      × (after.lcd_was_on ≡ p.lcd_was_on)
unfolding refresh_coincidence
refresh_keeps p bus v = (ground arith, refl, refl, refl)

-- The round after the refresh, in the two ways it can go.
spend_lem :
    (cycles : ℕ) (p : Ppu) (bus : Bus)
    → IsValid p
    → 0 < cycles
    → let r = spend cycles p bus in
      (r.0 ≡ cycles - min (cycles_until_next_event p) cycles)
      × IsAt (position p + min (cycles_until_next_event p) cycles) p r.1
unfolding spend
spend_lem cycles p bus v pos =
    let wait = cycles_until_next_event p in
    let facts = until_event p v in
    let due : Ppu = record p { dot_in_line = p.dot_in_line + wait } in
    elim (dec_le wait cycles) [
      | yes all ↦
          let m : min wait cycles ≡ wait = omega arith in
          let d : u32 (p.dot_in_line + wait) ≡ p.dot_in_line + wait =
            omega (arith, facts.1, v.dot_in) in
          let some_wait : (wait == 0) ≡ false = ground (arith, facts.0) in
          let ends : (wait == wait) ≡ true = ground arith in
          let arrived = handle_event_lem due bus facts.2 in
          rw (m, d, some_wait, ends)
            (
              refl,
              record {
                valid = arrived.valid;
                place = arrived.place ∙ ap (λ t. t % 70224) (omega arith);
                frame = ground (arith, arrived.frame);
                lcd = arrived.lcd;
              },
            )
      | no part ↦
          let m : min wait cycles ≡ cycles = omega arith in
          let d : u32 (p.dot_in_line + cycles) ≡ p.dot_in_line + cycles =
            omega (arith, facts.1, v.dot_in) in
          let some_wait : (wait == 0) ≡ false = ground (arith, facts.0) in
          let goes_on : (cycles == wait) ≡ false = ground arith in
          let inside = facts.3 cycles (omega arith) in
          rw (m, d, some_wait, goes_on)
            (
              refl,
              record {
                valid = inside;
                place = omega (arith, inside.line_in, inside.dot_in);
                frame = ground (arith, inside.line_in, inside.dot_in);
                lcd = refl;
              },
            )
    ]

-- One round from a valid state with cycles to spend moves on by at least one dot.
pub advance_round_lem :
    (cycles : ℕ) (p : Ppu) (bus : Bus)
    → IsValid p
    → 0 < cycles
    → let r = advance_round cycles p bus in
      (step : ℕ) × (0 < step)
      × (step ≤ cycles)
      × (r.0 ≡ cycles - step)
      × IsAt (position p + step) p r.1
unfolding advance_round
advance_round_lem cycles p bus v pos =
    let kept = refresh_keeps p bus v in
    let p' = (refresh_coincidence p bus).0 in
    let bus' = (refresh_coincidence p bus).1 in
    let spent = spend_lem cycles p' bus' kept.0 pos in
    let wait = cycles_until_next_event p' in
    let facts = until_event p' kept.0 in
    (
      min wait cycles,
      omega (arith, facts.0),
      omega arith,
      spent.0,
      record {
        valid = spent.1.valid;
        place = ground (arith, spent.1.place, kept.1);
        frame = ground (arith, spent.1.frame, kept.1, kept.2);
        lcd = spent.1.lcd ∙ kept.3;
      },
    )
