-- ===== src/Tests/Devices.antt =====
-- The bus, the timers, the PPU and the byte operations at concrete states.
use gbx.Prelude.{bit_and, ℕ, zero, suc, ◌+◌, ◌/◌, ◌%◌, ◌<◌, ◌≡◌, refl, ap, arith}
use gbx.Prelude.{true, false, ◌==◌, none, List, [], ◌∷◌, length, if◌then◌else◌}
use gbx.Exec.{Flags}
use gbx.Io
use gbx.Bus
use gbx.Bus.{Bus, rom_bank_count, set_rom_bank}
use gbx.Bus.Bank.{IsBanked}
use gbx.Bus.Serial.{write_serial_control, advance_serial}
use gbx.Bus.Serial.Laws.{advance_serial-add}
use gbx.Bus.Serial.Transfer.{IsTransferred, advance_serial-write_serial_control}
use gbx.Mmu.{read8_scalar, write8_scalar}
use gbx.Mmu.Laws.{read8_scalar-write8_scalar}
use gbx.Mmu.Joypad.{read8_scalar-set_inputs}
use gbx.Mmu.Dma.{write8_scalar-dma}
use gbx.Timers
use gbx.Timers.{Timers, TimaState, step_loop, step_round}
use gbx.Timers.Edges.{IsCounting, IsCounted, step_loop-IsCounted}
use gbx.Timers.Overflow.{IsPending, IsReloaded, step_round_overflows}
use gbx.Ppu
use gbx.Ppu.{Ppu, step_counted}
use gbx.Ppu.Position.{IsValid, position}
use gbx.Ppu.Timing.{step_position}

abbrev flags : Flags
flags = record { z = true; n = false; h = true; c = false }

-- A bus with all memory zero, and IO registers as given.
abbrev bus_with : (ℕ → ℕ) → Bus
bus_with regs = record (Bus.new [] none) { io = record { regs = regs } }

abbrev bus : Bus
bus = bus_with (λ _. 0)

-- An echo address reads the cell behind it.
read8_scalar-write8_scalar_example : read8_scalar (write8_scalar bus 0xC123 0x42) 0xE123 ≡ 0x42
read8_scalar-write8_scalar_example =
    read8_scalar-write8_scalar bus 0xC123 0xE123 0x42 refl (omega arith)

-- An idle joypad
read8_scalar-set_inputs_example :
    let held = Bus.set_inputs bus 0xFF in
    (bit_and (read8_scalar (write8_scalar held 0xFF00 0x20) 0xFF00) 0x0F ≡ 0)
    × (bit_and (read8_scalar (write8_scalar held 0xFF00 0x10) 0xFF00) 0x0F ≡ 0)
read8_scalar-set_inputs_example = read8_scalar-set_inputs bus 0xFF (omega arith)

write8_scalar-dma_example : (write8_scalar bus 0xFF46 0xC0).oam 5 ≡ read8_scalar bus 0xC005
write8_scalar-dma_example = write8_scalar-dma bus 0xC0 5 (omega arith)

bus-IsBanked : IsBanked bus
unfolding Bus.new set_rom_bank rom_bank_count
bus-IsBanked = record { in_rom = omega arith; not_fixed = λ h. absurd (omega (arith, h)) }

-- A ROM of `n` bytes.
rom_of : ℕ → List ℕ
rom_of zero = []
rom_of (suc n) = n % 256 ∷ rom_of n

length-rom_of : (n : ℕ) → length (rom_of n) ≡ n
unfolding rom_of
length-rom_of zero = refl
length-rom_of (suc n) = ap suc (length-rom_of n)

abbrev banked : Bus
banked = record bus { rom = rom_of 0xC000 }

banked_count : rom_bank_count banked ≡ 3
unfolding rom_bank_count
banked_count = ap (λ n. (n + 0x3FFF) / 0x4000) (length-rom_of 0xC000)

advance_serial-add_example :
    advance_serial (write_serial_control bus 0x81) (300 + 300)
    ≡ advance_serial (advance_serial (write_serial_control bus 0x81) 300) 300
advance_serial-add_example = advance_serial-add 300 300 (write_serial_control bus 0x81)

advance_serial-write_serial_control_example :
    IsTransferred bus (advance_serial (write_serial_control bus 0x81) 4096)
    × ((n : ℕ) → n < 4096 → (advance_serial (write_serial_control bus 0x81) n).serial_active ≡ true)
unfolding Bus.new set_rom_bank
advance_serial-write_serial_control_example =
    advance_serial-write_serial_control bus refl (omega arith)

-- TAC 5: enabled, a tick every 16 cycles; TMA 7.
abbrev timer_regs : ℕ → ℕ → ℕ
timer_regs tima k =
    if k == Io.tac_index
    then 5
    else if k == Io.tima_index
    then tima
    else if k == Io.tma_index
    then 7
    else 0

abbrev timers : Timers
timers = record {
  div_counter = 14;
  timer_input = true;
  tima_state = TimaState.running;
  pending_reload_value = 0;
  reload_delay = 0;
}

timers-IsCounting : (tima : ℕ) → IsCounting timers (bus_with (timer_regs tima))
unfolding Io.tac
timers-IsCounting tima = record { running = refl; enabled = refl; counter_in = omega arith }

step_loop-IsCounted_example :
    let r = step_loop 100 100 timers (bus_with (timer_regs 3)) in
    IsCounted 100 timers (bus_with (timer_regs 3)) r.0 r.1
unfolding Io.tac Timers.tac_trigger_bit
step_loop-IsCounted_example =
    step_loop-IsCounted 100 100 timers (bus_with (timer_regs 3)) (omega arith) (timers-IsCounting 3)
      (omega arith)

step_round_overflows_example :
    let r₁ = step_round 4 timers (bus_with (timer_regs 255)) in
    let r₂ = step_round 4 r₁.0 r₁.1 in
    let r₃ = step_round 4 r₂.0 r₂.1 in
    IsPending 4 7 r₁.0 r₁.1
    × IsReloaded 7 r₂.0 r₂.1
    × (r₃.0.tima_state ≡ TimaState.running)
    × (r₃.1.io.regs Io.tima_index ≡ 7)
unfolding Io.tac Timers.tac_trigger_bit
step_round_overflows_example =
    step_round_overflows 4 timers (bus_with (timer_regs 255)) (timers-IsCounting 255) (omega arith)
      (omega arith) refl refl

-- Three dots before the end of a frame.
abbrev last_line : Ppu
last_line = record {
  dot_in_line = 453;
  ly = 153;
  mode = 1;
  lyc_equal = false;
  frame_ready = false;
  lcd_was_on = true;
}

last_line-IsValid : IsValid last_line
last_line-IsValid = record {
  line_in = omega arith;
  dot_in = omega arith;
  mode_in = omega arith;
  vblank = λ e. omega arith;
  visible = λ e. absurd (e refl);
  oam_scan = λ e. absurd (omega (arith, e));
  transfer = λ e. absurd (omega (arith, e));
  hblank = λ e. absurd (omega (arith, e));
}

step_position_example :
    let r = step_counted 10 last_line (bus_with (λ _. 0x80)) in
    (r.0 ≡ 0)
    × IsValid r.1
    × (position r.1 ≡ 7)
    × (r.1.frame_ready ≡ true)
    × (r.1.lcd_was_on ≡ true)
unfolding Ppu.is_lcd_on Io.read
step_position_example =
    step_position 10 last_line (bus_with (λ _. 0x80)) last_line-IsValid refl refl
