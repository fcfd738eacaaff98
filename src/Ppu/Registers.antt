-- ===== src/Ppu/Registers.antt =====
-- What the events of ppu_stub.rs leave alone on the bus, and which fields of the PPU they set.
use gbx.Prelude.{ℕ, ◌≡◌, arith}
use gbx.Prelude.{true, ◌==◌, ltb, if◌then◌else◌}
use gbx.Io
use gbx.Io.{lcdc_index, ly_index}
use gbx.Bus.{Bus}
use gbx.Ppu.{Ppu, next_line, set_mode, refresh_coincidence, advance_line}
use gbx.Ppu.{raise_stat_interrupt, raise_vblank_interrupt}

-- LCDC is as it was.
abbrev pub SameLcdc : Bus → Bus → Type 0
SameLcdc before after = after.io.regs lcdc_index ≡ before.io.regs lcdc_index

pub set_mode-SameLcdc : (m : ℕ) (p : Ppu) (bus : Bus) → SameLcdc bus (set_mode m p bus).1
unfolding set_mode raise_stat_interrupt Io.write Io.set_if
set_mode-SameLcdc m p bus = ground arith

pub refresh-SameLcdc : (p : Ppu) (bus : Bus) → SameLcdc bus (refresh_coincidence p bus).1
unfolding refresh_coincidence raise_stat_interrupt Io.write Io.set_if
refresh-SameLcdc p bus = ground arith

pub advance_line-SameLcdc : (p : Ppu) (bus : Bus) → SameLcdc bus (advance_line p bus).1
unfolding advance_line raise_vblank_interrupt Io.write Io.set_if
advance_line-SameLcdc p bus =
    let line = next_line p.ly in
    let r =
      refresh_coincidence (record p { ly = line })
        (record bus { io = Io.write bus.io ly_index line }) in
    ground (
      arith,
      refresh-SameLcdc (record p { ly = line }) (record bus { io = Io.write bus.io ly_index line }),
      set_mode-SameLcdc 2 (record (r.0) { frame_ready = true }) r.1,
      set_mode-SameLcdc 2 r.0 r.1,
      set_mode-SameLcdc 1 r.0 (raise_vblank_interrupt r.1),
    )

pub set_mode_lem : (m : ℕ) (p : Ppu) (bus : Bus) → (set_mode m p bus).0 ≡ record p { mode = m }
unfolding set_mode
set_mode_lem m p bus = ground arith

pub advance_line_lem :
    (p : Ppu) (bus : Bus)
    → let line = next_line p.ly in
      let after = (advance_line p bus).0 in
      (after.ly ≡ line)
      × (after.dot_in_line ≡ p.dot_in_line)
      × (after.lcd_was_on ≡ p.lcd_was_on)
      × (after.frame_ready ≡ (if line == 0 then true else p.frame_ready))
      × (after.mode ≡ (if ltb line 144 then 2 else if line == 144 then 1 else p.mode))
unfolding advance_line set_mode refresh_coincidence
advance_line_lem p bus = ground arith
