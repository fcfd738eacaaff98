-- ===== src/Core.antt =====
-- The core (crates/04-services/kernel-core/src/core.rs) over the scalar bus: its state, the
-- cycle accounting, and the helpers that the instructions call. A method is a computation in a
-- state monad over `Core`. `config` and `model` are carried and never read here.
pub mod Cost
pub mod Frame
use gbx.Prelude.{ℕ, ◌+◌, ◌-◌, ◌*◌, ◌%◌, bit_and, bit_xor, u8, u16, u32, sub_u8, sub_u16}
use gbx.Prelude.{Bool, true, false, not, ◌||◌, ◌==◌, ltb, is_set, if◌then◌else◌, sign_extend}
use gbx.Prelude.{List, Option, some, none}
use gbx.Exec.{Flags, combine_u16, from_byte}
use gbx.Bus
use gbx.Bus.{Bus}
use gbx.Bus.Serial
use gbx.Mmu.{read8_scalar, write8_scalar}
use gbx.Timers
use gbx.Timers.{Timers}
use gbx.Ppu
use gbx.Ppu.{Ppu}
use gbx.Cpu
use gbx.Cpu.{Cpu}

pub data Model : Type 0 where
  dmg : Model

pub record CoreConfig : Type 0 where
  pub frame_width : ℕ
  pub frame_height : ℕ
  pub lanes : ℕ

-- The derived default: one lane of 160 by 144 pixels.
abbrev pub default_config : CoreConfig
default_config = record { frame_width = 160; frame_height = 144; lanes = 1 }

-- `hung` is no field of the code: it says that a loop of `PpuStub::step` did not end. The code
-- never returns then, and what a core that hangs goes on to do means nothing.
pub record Core : Type 0 where
  pub cpu : Cpu
  pub bus : Bus
  pub timers : Timers
  pub ppu : Ppu
  pub cycles_this_frame : ℕ
  pub inline_cycle_credit : ℕ
  pub ppu_enabled : Bool
  pub config : CoreConfig
  pub model : Model
  pub hung : Bool

-- A method that may change the core.
abbrev pub M : Type 0 → Type 0
M A = Core → A × Core

abbrev pub pure : {A : Type 0} → A → M A
pure a core = (a, core)

infixl 5 ◌>>=◌ ◌>>◌
abbrev pub ◌>>=◌ : {A B : Type 0} → M A → (A → M B) → M B
◌>>=◌ m f core = let r = m core in f r.0 r.1

abbrev pub ◌>>◌ : {B : Type 0} → M (Unit {0}) → M B → M B
m >> k = m >>= λ _. k

-- Reading the registers, and assigning to them.
abbrev pub gets : {A : Type 0} → (Cpu → A) → M A
gets f core = (f core.cpu, core)

abbrev pub modify : (Cpu → Cpu) → M (Unit {0})
modify f core = (tt, record core { cpu = f core.cpu })

-- `Core::new`
unfoldable pub new : Bus → CoreConfig → Model → Core
new bus config model = record {
  cpu = Cpu.new;
  bus = bus;
  timers = Timers.new;
  ppu = Ppu.new;
  cycles_this_frame = 0;
  inline_cycle_credit = 0;
  ppu_enabled = true;
  config = config;
  model = model;
  hung = false;
}

-- `Core::from_rom`
unfoldable pub from_rom : List ℕ → Core
from_rom rom = new (Bus.new rom none) default_config Model.dmg

-- `Core::load_rom`
unfoldable pub load_rom : Core → List ℕ → Core
load_rom core rom = record core {
  bus = Bus.load_rom core.bus rom;
  cpu = record (core.cpu) { pc = 0x0100 };
}

-- The registers that `reset_post_boot` leaves: those of `Cpu::new` with interrupts on.
unfoldable pub post_boot_cpu : Cpu
post_boot_cpu = record Cpu.new { ime = true }

-- The bus writes of `reset_post_boot`.
unfoldable pub post_boot_bus : Bus → Bus
post_boot_bus bus =
    let bus = write8_scalar bus 0xFF40 0x91 in
    let bus = write8_scalar bus 0xFF41 0x85 in
    let bus = write8_scalar bus 0xFF42 0x00 in
    let bus = write8_scalar bus 0xFF43 0x00 in
    let bus = write8_scalar bus 0xFF44 0x00 in
    let bus = write8_scalar bus 0xFF47 0xFC in write8_scalar bus 0xFF50 0x01

-- `reset_post_boot`; `sync_low` is the byte of GBX_TIMER_SYNC_LOW.
unfoldable pub reset_post_boot : ℕ → Core → Model → Core
unfolding post_boot_cpu post_boot_bus
reset_post_boot sync_low core model =
    let (timers, bus) = Timers.initialize_post_boot sync_low Timers.new (post_boot_bus core.bus) in
    record core {
      model = model;
      cpu = post_boot_cpu;
      timers = timers;
      ppu = Ppu.new;
      cycles_this_frame = 0;
      inline_cycle_credit = 0;
      ppu_enabled = true;
      bus = bus;
    }

-- `reset_power_on`; the inline credit is kept as the code keeps it.
unfoldable pub reset_power_on : Core → Model → Core
reset_power_on core model =
    let bus = Bus.reset_memory core.bus in
    record core {
      model = model;
      timers = Timers.new;
      ppu = Ppu.new;
      cycles_this_frame = 0;
      ppu_enabled = true;
      bus = Bus.set_boot_rom_enabled bus (Bus.has_boot_rom bus);
      cpu = record {
        a = 0;
        f = from_byte 0x00;
        b = 0;
        c = 0;
        d = 0;
        e = 0;
        h = 0;
        l = 0;
        sp = 0;
        pc = 0;
        ime = false;
        halted = false;
        enable_ime_pending = false;
        halt_bug = false;
      };
    }

-- The peripherals advance in the order timers, PPU, serial link.
unfoldable pub step_peripherals : ℕ → Core → Core
step_peripherals cycles core =
    let (timers, bus) = Timers.step cycles core.timers core.bus in
    let (left, ppu, bus) =
      if core.ppu_enabled then Ppu.step_counted cycles core.ppu bus else (0, core.ppu, bus) in
    record core {
      timers = timers;
      ppu = ppu;
      bus = Serial.advance_serial bus cycles;
      hung = core.hung || not (left == 0);
    }

-- `consume_cycles`
unfoldable pub consume_cycles : ℕ → M (Unit {0})
consume_cycles cycles core = (
  tt,
  if cycles == 0 then core else record (step_peripherals cycles core) {
    cycles_this_frame = u32 (core.cycles_this_frame + cycles);
  },
)

-- `self.inline_cycle_credit = self.inline_cycle_credit.wrapping_add(4)`
abbrev pub add_credit : M (Unit {0})
add_credit core = (tt, record core { inline_cycle_credit = u32 (core.inline_cycle_credit + 4) })

-- The fetch from the bus, with no cycles counted.
unfoldable pub fetch_byte : M ℕ
fetch_byte core =
    let (byte, cpu) = Cpu.fetch8 core.cpu core.bus in (byte, record core { cpu = cpu })

-- `fetch_imm8` and `fetch_imm16`
unfoldable pub fetch_imm8 : M ℕ
fetch_imm8 = do byte ← fetch_byte; consume_cycles 4; add_credit; pure byte

unfoldable pub fetch_imm16 : M ℕ
fetch_imm16 = do lo ← fetch_imm8; hi ← fetch_imm8; pure (combine_u16 hi lo)

-- `Core::read8` and `Core::write8`: a timed access of the bus.
unfoldable pub read8 : ℕ → M ℕ
read8 addr core = (do consume_cycles 4; add_credit; pure (read8_scalar core.bus addr)) core

unfoldable pub write8 : ℕ → ℕ → M (Unit {0})
write8 addr value core =
    (do consume_cycles 4; add_credit) (record core { bus = write8_scalar core.bus addr value })

-- `push16` and `pop16` on the core's bus.
unfoldable pub push16 : ℕ → M (Unit {0})
push16 value core =
    let (cpu, bus) = Cpu.push16 core.cpu core.bus value in
    (tt, record core { cpu = cpu; bus = bus })

unfoldable pub pop16 : M ℕ
pop16 core = let (value, cpu) = Cpu.pop16 core.cpu core.bus in (value, record core { cpu = cpu })

-- `inc_reg` and `dec_reg`: the result, with the flags set and the carry kept.
unfoldable pub inc_reg : ℕ → M ℕ
inc_reg value core =
    let res = u8 (value + 1) in
    let flags : Flags = record {
      z = res == 0;
      n = false;
      h = is_set (bit_and (bit_xor value res) 0x10);
      c = core.cpu.f.c;
    } in
    (res, record core { cpu = record (core.cpu) { f = flags } })

unfoldable pub dec_reg : ℕ → M ℕ
dec_reg value core =
    let res = sub_u8 value 1 in
    let flags : Flags = record {
      z = res == 0;
      n = true;
      h = is_set (bit_and (bit_xor value res) 0x10);
      c = core.cpu.f.c;
    } in
    (res, record core { cpu = record (core.cpu) { f = flags } })

-- `jump_relative`
unfoldable pub jump_relative : ℕ → Bool → M (Unit {0})
jump_relative offset condition =
    modify λ cpu. if condition then record cpu { pc = u16 (cpu.pc + sign_extend offset) } else cpu

-- `add16_hl`; it returns the cost.
unfoldable pub add16_hl : ℕ → M ℕ
add16_hl rhs core =
    let cpu = core.cpu in
    let lhs = Cpu.hl cpu in
    let flags : Flags = record {
      z = cpu.f.z;
      n = false;
      h = ltb 0x0FFF (bit_and lhs 0x0FFF + bit_and rhs 0x0FFF);
      c = ltb 0xFFFF (lhs + rhs);
    } in
    (8, record core { cpu = record (Cpu.set_hl cpu (u16 (lhs + rhs))) { f = flags } })

-- `inc16` and `dec16`
abbrev pub inc16 : ℕ → ℕ
inc16 value = u16 (value + 1)

abbrev pub dec16 : ℕ → ℕ
dec16 value = sub_u16 value 1

-- `add_sp_e8`: the sum, its half carry and its carry.
unfoldable pub add_sp_e8 : ℕ → ℕ → ℕ × Bool × Bool
add_sp_e8 sp offset =
    let off = sign_extend offset in
    let result = u16 (sp + off) in
    (
      result,
      is_set (bit_and (bit_xor (bit_xor sp off) result) 0x0010),
      is_set (bit_and (bit_xor (bit_xor sp off) result) 0x0100),
    )
