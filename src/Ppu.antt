-- ===== src/Ppu.antt =====
-- The PPU stub (crates/04-services/kernel-core/src/ppu_stub.rs): the scanline state machine, its
-- IO registers and interrupts. `PpuIo` of the scalar bus is `Io.read`, `Io.write`, `Io.if_reg`
-- and `Io.set_if`. Render has the pixels.
pub mod Registers
pub mod Position
pub mod Timing
pub mod Ends
pub mod Render
use gbx.Prelude.{ℕ, zero, suc, ◌+◌, ◌-◌, ◌≤◌, min, bit_and, bit_or, u8, u32, sub_u32, not_u8}
use gbx.Prelude.{Bool, true, false, not, ◌&&◌, ◌||◌, ◌==◌, ltb, leb, is_set, if◌then◌else◌}
use gbx.Io
use gbx.Io.{lcdc_index, stat_index, ly_index, lyc_index}
use gbx.Bus.{Bus}

pub record Ppu : Type 0 where
  pub dot_in_line : ℕ
  pub ly : ℕ
  pub mode : ℕ
  pub lyc_equal : Bool
  pub frame_ready : Bool
  pub lcd_was_on : Bool

-- The derived `Default`, of `new` and `reset`
unfoldable pub new : Ppu
new = record {
  dot_in_line = 0;
  ly = 0;
  mode = 0;
  lyc_equal = false;
  frame_ready = false;
  lcd_was_on = false;
}

abbrev pub cycles_per_frame : ℕ
cycles_per_frame = 70224

abbrev pub dots_per_line : ℕ
dots_per_line = 456

abbrev pub mode2_cycles : ℕ
mode2_cycles = 80

abbrev pub mode3_cycles : ℕ
mode3_cycles = 172

abbrev pub vblank_start_line : ℕ
vblank_start_line = 144

abbrev pub total_lines : ℕ
total_lines = 154

abbrev pub lcdc_enable : ℕ
lcdc_enable = 0x80

abbrev pub read_io : Bus → ℕ → ℕ
read_io bus idx = Io.read bus.io idx

abbrev pub write_io : Bus → ℕ → ℕ → Bus
write_io bus idx value = record bus { io = Io.write bus.io idx value }

-- `raise_vblank_interrupt` and `raise_stat_interrupt`
unfoldable pub raise_vblank_interrupt : Bus → Bus
raise_vblank_interrupt bus = record bus { io = Io.set_if bus.io (bit_or (Io.if_reg bus.io) 0x01) }

unfoldable pub raise_stat_interrupt : Bus → Bus
raise_stat_interrupt bus = record bus { io = Io.set_if bus.io (bit_or (Io.if_reg bus.io) 0x02) }

-- STAT with its mode and coincidence bits given anew.
unfoldable pub stat_with : ℕ → ℕ → Bool → ℕ
stat_with stat mode equal =
    let stat = bit_or (bit_and stat (not_u8 0x07)) (bit_and mode 0x03) in
    if equal then bit_or stat 0x04 else stat

-- `force_lcd_off`
unfoldable pub force_lcd_off : Ppu → Bus → Ppu × Bus
force_lcd_off p bus =
    let bus = write_io bus ly_index 0 in
    let stat = read_io bus stat_index in
    let equal = read_io bus lyc_index == 0 in
    let stat = bit_and stat (not_u8 0x07) in
    let stat = if equal then bit_or stat 0x04 else stat in
    (
      record {
        dot_in_line = 0;
        ly = 0;
        mode = 0;
        lyc_equal = equal;
        frame_ready = false;
        lcd_was_on = false;
      },
      write_io bus stat_index stat,
    )

-- `refresh_coincidence`
unfoldable pub refresh_coincidence : Ppu → Bus → Ppu × Bus
unfolding stat_with
refresh_coincidence p bus =
    let stat_before = read_io bus stat_index in
    let lyc = read_io bus lyc_index in
    let equal = p.ly == lyc in
    let bus = write_io bus stat_index (stat_with stat_before p.mode equal) in
    (
      record p { lyc_equal = equal },
      if not p.lyc_equal && equal && is_set (bit_and stat_before 0x40)
          then raise_stat_interrupt bus
          else bus,
    )

-- The interrupt source of a mode: `match new_mode` in `set_mode`.
unfoldable pub mode_enabled : ℕ → ℕ → Bool
mode_enabled mode stat =
    if mode == 0
    then is_set (bit_and stat 0x08)
    else if mode == 1
    then is_set (bit_and stat 0x10)
    else if mode == 2
    then is_set (bit_and stat 0x20)
    else false

-- `set_mode`
unfoldable pub set_mode : ℕ → Ppu → Bus → Ppu × Bus
unfolding stat_with mode_enabled
set_mode new_mode p bus =
    let stat_before = read_io bus stat_index in
    let bus' = write_io bus stat_index (stat_with stat_before new_mode p.lyc_equal) in
    if p.mode == new_mode then (p, bus) else (
      record p { mode = new_mode },
      if mode_enabled new_mode stat_before then raise_stat_interrupt bus' else bus',
    )

-- `start_lcd`
unfoldable pub start_lcd : Ppu → Bus → Ppu × Bus
start_lcd p bus =
    set_mode 2
      (record {
        dot_in_line = 0;
        ly = 0;
        mode = 0;
        lyc_equal = false;
        frame_ready = false;
        lcd_was_on = true;
      })
      (write_io bus ly_index 0)

-- `cycles_until_next_event`; a u32 subtraction wraps.
unfoldable pub cycles_until_next_event : Ppu → ℕ
cycles_until_next_event p =
    if p.mode == 0 || p.mode == 1
    then sub_u32 dots_per_line p.dot_in_line
    else if p.mode == 2
    then sub_u32 mode2_cycles p.dot_in_line
    else if p.mode == 3
    then sub_u32 (mode2_cycles + mode3_cycles) p.dot_in_line
    else 0

-- The line after `ly`: the first lines of `advance_line`.
unfoldable pub next_line : ℕ → ℕ
next_line ly = let ly = u8 (ly + 1) in if leb total_lines ly then 0 else ly

-- `advance_line`
unfoldable pub advance_line : Ppu → Bus → Ppu × Bus
unfolding next_line
advance_line p bus =
    let line = next_line p.ly in
    let (p, bus) = refresh_coincidence (record p { ly = line }) (write_io bus ly_index line) in
    if line == 0
    then set_mode 2 (record p { frame_ready = true }) bus
    else if ltb line vblank_start_line
    then set_mode 2 p bus
    else if line == vblank_start_line
    then set_mode 1 p (raise_vblank_interrupt bus)
    else (p, bus)

-- `handle_event`
unfoldable pub handle_event : Ppu → Bus → Ppu × Bus
handle_event p bus =
    if p.mode == 2
    then set_mode 3 p bus
    else if p.mode == 3
    then set_mode 0 p bus
    else if p.mode == 0 || p.mode == 1
    then advance_line
        (record p {
          dot_in_line =
              if leb dots_per_line p.dot_in_line then p.dot_in_line - dots_per_line else 0;
        })
        bus
    else (p, bus)

-- The rest of a round after `refresh_coincidence`: the cycles that are left, and the state.
unfoldable pub spend : ℕ → Ppu → Bus → ℕ × Ppu × Bus
spend cycles p bus =
    let remaining = cycles_until_next_event p in
    let step = min remaining cycles in
    let p' = record p { dot_in_line = u32 (p.dot_in_line + step) } in
    let after = if step == remaining then handle_event p' bus else (p', bus) in
    let now = handle_event p bus in
    if remaining == 0 then (cycles, now.0, now.1) else (cycles - step, after.0, after.1)

-- One round of the loop of `step` with the LCD on.
unfoldable pub advance_round : ℕ → Ppu → Bus → ℕ × Ppu × Bus
advance_round cycles p bus = let (p, bus) = refresh_coincidence p bus in spend cycles p bus

unfoldable pub is_lcd_on : Bus → Bool
is_lcd_on bus = is_set (bit_and (read_io bus lcdc_index) lcdc_enable)

-- `while cycles > 0`, on fuel. In a state that the code reaches a round uses up at least one
-- cycle (`Ppu.Timing`); a mode above 3, which only a malformed snapshot has, makes the code loop
-- for ever. The number is 0 when the loop has ended.
unfoldable pub step_loop : ℕ → ℕ → Ppu → Bus → ℕ × Ppu × Bus
step_loop zero cycles p bus = (cycles, p, bus)
step_loop (suc fuel) cycles p bus =
    let next = advance_round cycles p bus in
    let stopped = force_lcd_off p bus in
    elim (ltb 0 cycles) [
      | true ↦ elim (is_lcd_on bus) [
        | true ↦ step_loop fuel next.0 next.1 next.2
        | false ↦ (0, stopped.0, stopped.1)
      ]
      | false ↦ (cycles, p, bus)
    ]

-- `step` with `ensure_lcd_on`: the cycles left, 0 when the loop has ended, and the state. The fuel
-- is one round more than the cycles, for a snapshot taken at the very end of a mode.
unfoldable pub step_counted : ℕ → Ppu → Bus → ℕ × Ppu × Bus
step_counted cycles p bus =
    let started = start_lcd p bus in
    let stopped = force_lcd_off p bus in
    if cycles == 0
    then (0, p, bus)
    else if not (is_lcd_on bus)
    then (0, stopped.0, stopped.1)
    else if not p.lcd_was_on
    then step_loop (suc cycles) cycles started.0 started.1
    else step_loop (suc cycles) cycles p bus
