-- ===== src/Bus.antt =====
-- The scalar bus, `BusScalar` of crates/04-services/kernel-core/src/bus.rs: memory regions, ROM
-- bank, boot overlay and the latches that the timers poll. A region of fixed size is a function
-- of the index; a ROM is a list. `usize` is unbounded here: every ROM index is below 2 ^ 64.
pub mod Serial
pub mod Bank
use gbx.Prelude.{ℕ, ◌+◌, ◌-◌, ◌/◌, ◌%◌, bit_and, max, Bool, true, false, ◌&&◌, ◌==◌, ltb}
use gbx.Prelude.{if◌then◌else◌, Option, none, some, List, [], length, get_elem?, is_some, ◌>>>◌}
use gbx.Io
use gbx.Io.{IoRegs}

pub record Bus : Type 0 where
  pub rom : List ℕ
  pub rom_bank : ℕ
  pub boot_rom : Option (List ℕ)
  pub boot_rom_enabled : Bool
  pub vram : ℕ → ℕ
  pub wram : ℕ → ℕ
  pub oam : ℕ → ℕ
  pub hram : ℕ → ℕ
  pub io : IoRegs
  pub ie : ℕ
  pub serial_out : List ℕ
  pub serial_counter : ℕ
  pub serial_active : Bool
  pub serial_pending_data : ℕ
  pub serial_shift_reg : ℕ
  pub serial_bits_remaining : ℕ
  pub serial_internal_clock : Bool
  pub lockstep_ly_override : Option ℕ
  pub joyp_select : ℕ
  pub joyp_buttons : ℕ
  pub joyp_dpad : ℕ
  pub timer_div_reset : Bool
  pub timer_tima_write : Option ℕ
  pub timer_tma_write : Option ℕ
  pub timer_tac_write : Option (ℕ × ℕ)

-- `self.rom.len().div_ceil(0x4000)`
unfoldable pub rom_bank_count : Bus → ℕ
rom_bank_count bus = (length bus.rom + 0x3FFF) / 0x4000

unfoldable pub set_rom_bank : Bus → ℕ → Bus
unfolding rom_bank_count
set_rom_bank bus bank =
    let total = max (rom_bank_count bus) 1 in
    let bank = bank % total in
    let bank = if ltb 1 total && bank == 0 then 1 else bank in record bus { rom_bank = bank }

unfoldable pub reset_serial_state : Bus → Bus
reset_serial_state bus = record bus {
  serial_active = false;
  serial_counter = 0;
  serial_bits_remaining = 0;
}

-- `BusScalar::new`
unfoldable pub new : List ℕ → Option (List ℕ) → Bus
unfolding set_rom_bank
new rom boot_rom =
    set_rom_bank
      (record {
        rom = rom;
        rom_bank = 1;
        boot_rom = boot_rom;
        boot_rom_enabled = is_some boot_rom;
        vram = λ _. 0;
        wram = λ _. 0;
        oam = λ _. 0;
        hram = λ _. 0;
        io = Io.new;
        ie = 0;
        serial_out = [];
        serial_counter = 0;
        serial_active = false;
        serial_pending_data = 0;
        serial_shift_reg = 0;
        serial_bits_remaining = 0;
        serial_internal_clock = true;
        lockstep_ly_override = none;
        joyp_select = 0x30;
        joyp_buttons = 0x0F;
        joyp_dpad = 0x0F;
        timer_div_reset = false;
        timer_tima_write = none;
        timer_tma_write = none;
        timer_tac_write = none;
      })
      1

unfoldable pub load_rom : Bus → List ℕ → Bus
unfolding reset_serial_state set_rom_bank
load_rom bus rom =
    set_rom_bank
      (record (reset_serial_state
        (record bus { rom = rom; boot_rom_enabled = is_some bus.boot_rom; serial_out = [] })) {
          joyp_select = 0x30;
          joyp_buttons = 0x0F;
          joyp_dpad = 0x0F;
          timer_div_reset = false;
          timer_tima_write = none;
          timer_tma_write = none;
          timer_tac_write = none;
        })
      1

unfoldable pub reset_memory : Bus → Bus
unfolding reset_serial_state set_rom_bank
reset_memory bus =
    set_rom_bank
      (record (reset_serial_state (record bus {
        vram = λ _. 0;
        wram = λ _. 0;
        oam = λ _. 0;
        hram = λ _. 0;
        io = Io.new;
        ie = 0;
        serial_out = [];
      })) {
        serial_pending_data = 0;
        serial_counter = 0;
        serial_bits_remaining = 0;
        serial_internal_clock = true;
        lockstep_ly_override = none;
        joyp_select = 0x30;
        joyp_buttons = 0x0F;
        joyp_dpad = 0x0F;
        timer_div_reset = false;
        timer_tima_write = none;
        timer_tma_write = none;
        timer_tac_write = none;
        boot_rom_enabled = is_some bus.boot_rom;
      })
      1

unfoldable pub has_boot_rom : Bus → Bool
has_boot_rom bus = is_some bus.boot_rom

unfoldable pub set_boot_rom_enabled : Bus → Bool → Bus
set_boot_rom_enabled bus enabled =
    if is_some bus.boot_rom then record bus { boot_rom_enabled = enabled } else bus

-- `self.boot_rom.as_ref().and_then(|boot| boot.get(addr))`
unfoldable pub boot_rom_lookup : Option (List ℕ) → ℕ → Option ℕ
boot_rom_lookup none addr = none
boot_rom_lookup (some boot) addr = get_elem? boot addr

unfoldable pub boot_rom_byte : Bus → ℕ → Option ℕ
unfolding boot_rom_lookup
boot_rom_byte bus addr = if bus.boot_rom_enabled then boot_rom_lookup bus.boot_rom addr else none

unfoldable pub disable_boot_rom : Bus → Bus
disable_boot_rom bus = record bus { boot_rom_enabled = false }

unfoldable pub set_inputs : Bus → ℕ → Bus
set_inputs bus joypad = record bus {
  joyp_buttons = bit_and (joypad >>> 4) 0x0F;
  joyp_dpad = bit_and joypad 0x0F;
}
