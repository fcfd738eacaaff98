-- ===== src/Kernel/Instance.antt =====
-- An instance of the kernel service, crates/04-services/kernel/src/instance.rs, over the scalar
-- backend: `AnyCore::Scalar`, one lane. Other backends are not modelled.
pub mod Windows
use gbx.Prelude.{
  ℕ, zero, suc, ◌+◌, ◌-◌, ◌^◌, ◌%◌, min, bit_and, u32, Bool, true, false, not, ◌&&◌, ◌==◌, ltb, leb,
  if◌then◌else◌, Option, none, some, List, [], ◌∷◌, is_some,
}
use gbx.Prelude.Runs.{Run, finished, panicked, out_of_fuel, ◌>>=◌}
use gbx.App.Abi.{MemSpace, CpuVm, PpuVm, TimersVm, InspectorVmMinimal}
use gbx.Exec.{to_byte}
use gbx.Io
use gbx.Io.{lcdc_index, stat_index, ly_index}
use gbx.Bus
use gbx.Bus.{Bus}
use gbx.Core
use gbx.Core.{Core, Model}
use gbx.Core.Frame.{frame_ready, take_frame}
use gbx.Machine.Step.{Outcome, step_cycles, step_instruction}
use gbx.Ppu.Render.{scy_index, scx_index, bgp_index, wy_index, wx_index}
use gbx.Kernel.Sink.{FrameSink, or_panic, to_vec}
use gbx.Kernel.Boot
use gbx.Kernel.Boot.{BootSequence, render}

pub record Instance : Type 0 where
  pub core : Core
  pub sink : FrameSink
  pub next_frame_id : ℕ
  pub joypad : ℕ
  pub boot : Option BootSequence

unfoldable pub new_scalar : Core → FrameSink → Instance
new_scalar core sink = record {
  core = core;
  sink = sink;
  next_frame_id = 0;
  joypad = 0xFF;
  boot = none;
}

-- How the core's loop ended, as a run.
unfoldable pub step_core : Instance → Outcome → Run (ℕ × Instance)
step_core inst (Outcome.finished cycles core) = finished (cycles, record inst { core = core })
step_core inst Outcome.panicked = panicked
step_core inst Outcome.out_of_fuel = out_of_fuel

-- `step_cycles`; a boot sequence uses up the budget.
unfoldable pub step : ℕ → Instance → Run (ℕ × Instance)
unfolding step_core
step budget inst =
    if is_some inst.boot
    then finished (budget, inst)
    else step_core inst (step_cycles budget inst.core)

-- The loop of `step_instructions`: the cycles, the program counter and the core.
unfoldable pub instructions_loop : ℕ → ℕ → ℕ → Core → Run (ℕ × ℕ × Core)
instructions_loop zero total last_pc core = finished (total, last_pc, core)
instructions_loop (suc count) total last_pc core = do
  r ← or_panic (step_instruction core)
  elim (r.0 == 0) [
    | true ↦ finished (u32 (total + r.0), r.1, r.2)
    | false ↦ instructions_loop count (u32 (total + r.0)) r.1 r.2
  ]

unfoldable pub step_instructions : ℕ → Instance → Run (ℕ × ℕ × Instance)
unfolding instructions_loop
step_instructions zero inst = finished (0, inst.core.cpu.pc, inst)
step_instructions (suc count) inst = do
  r ← instructions_loop (suc count) 0 inst.core.cpu.pc inst.core
  finished (r.0, r.1, record inst { core = r.2; boot = none })

unfoldable pub is_ready : Instance → Bool
is_ready inst = not (is_some inst.boot) && frame_ready inst.core

unfoldable pub boot_active : Instance → Bool
boot_active inst = is_some inst.boot

-- `bump_frame_id`, a wrapping addition of 64 bits
unfoldable pub bump_frame_id : Instance → ℕ × Instance
bump_frame_id inst =
    let id = (inst.next_frame_id + 1) % 2 ^ 64 in (id, record inst { next_frame_id = id })

-- `rom.iter().all(|&byte| byte == 0)`
unfoldable pub is_blank : List ℕ → Bool
is_blank [] = true
is_blank (byte ∷ bytes) = byte == 0 && is_blank bytes

-- The branch of `load_rom` with no boot ROM to run.
unfoldable pub start_post_boot : ℕ → List ℕ → Core → Core × Option BootSequence
unfolding Core.reset_post_boot
start_post_boot sync_low rom core =
    let core = Core.reset_post_boot sync_low core Model.dmg in
    if is_blank rom
    then (core, none)
    else let (boot, bus) = Boot.new core.bus rom in (record core { bus = bus }, some boot)

-- `load_rom`; `sync_low` is the byte of GBX_TIMER_SYNC_LOW.
unfoldable pub load_rom : ℕ → List ℕ → Instance → Instance
unfolding is_blank start_post_boot Core.load_rom Core.reset_power_on
load_rom sync_low rom inst =
    let core = Core.load_rom inst.core rom in
    if Bus.has_boot_rom core.bus && not (is_blank rom)
    then record inst {
      core =
          let core = Core.reset_power_on core Model.dmg in
          record core { bus = Bus.set_boot_rom_enabled core.bus true };
      boot = none;
      next_frame_id = 0;
    }
    else let (core, boot) = start_post_boot sync_low rom core in
      record inst { core = core; boot = boot; next_frame_id = 0 }

unfoldable pub set_inputs : ℕ → Instance → Instance
set_inputs joypad inst = record inst {
  joypad = joypad;
  core = record (inst.core) { bus = Bus.set_inputs inst.core.bus joypad };
}

unfoldable pub inspector_snapshot : Instance → InspectorVmMinimal
unfolding to_vec
inspector_snapshot inst =
    let cpu = inst.core.cpu in
    let io = inst.core.bus.io in
    record {
      cpu = record {
        a = cpu.a;
        f = to_byte cpu.f;
        b = cpu.b;
        c = cpu.c;
        d = cpu.d;
        e = cpu.e;
        h = cpu.h;
        l = cpu.l;
        sp = cpu.sp;
        pc = cpu.pc;
        ime = cpu.ime;
        halted = cpu.halted;
      };
      ppu = record {
        ly = Io.read io ly_index;
        mode = bit_and (Io.read io stat_index) 0x03;
        stat = Io.read io stat_index;
        lcdc = Io.read io lcdc_index;
        scx = Io.read io scx_index;
        scy = Io.read io scy_index;
        wy = Io.read io wy_index;
        wx = Io.read io wx_index;
        bgp = Io.read io bgp_index;
        frame_ready = frame_ready inst.core;
      };
      timers = record { div = Io.div io; tima = Io.tima io; tma = Io.tma io; tac = Io.tac io };
      io = to_vec io.regs 0 0x80;
    }

-- `window_slice` of a region of `size` bytes.
unfoldable pub window_slice : (ℕ → ℕ) → ℕ → ℕ → ℕ → ℕ → List ℕ
unfolding to_vec
window_slice bytes size region_base base len =
    if len == 0
    then []
    else if ltb base region_base
    then []
    else if leb size (base - region_base)
    then []
    else to_vec bytes (base - region_base) (min (size - (base - region_base)) len)

unfoldable pub mem_window : MemSpace → ℕ → ℕ → Instance → List ℕ
unfolding window_slice
mem_window MemSpace.vram base len inst = window_slice inst.core.bus.vram 0x2000 0x8000 base len
mem_window MemSpace.wram base len inst = window_slice inst.core.bus.wram 0x2000 0xC000 base len
mem_window MemSpace.oam base len inst = window_slice inst.core.bus.oam 0xA0 0xFE00 base len
mem_window MemSpace.io base len inst = window_slice inst.core.bus.io.regs 0x80 0xFF00 base len

-- A frame of the boot sequence: it is over when the last is drawn.
unfoldable pub render_boot : BootSequence → ℕ → (ℕ → ℕ) → Instance → Run ((ℕ → ℕ) × Instance)
render_boot boot len buf inst = do
  r ← or_panic (render len buf boot inst.core.bus)
  finished (
    r.0,
    record inst { core = record (inst.core) { bus = r.2 }; boot = if r.3 then none else some r.1 },
  )

-- `render_into`, that is `render_lane_into` of lane 0.
unfoldable pub render_into : ℕ → (ℕ → ℕ) → Instance → Run ((ℕ → ℕ) × Instance)
unfolding render_boot
render_into len buf inst = elim inst.boot [
  | some boot ↦ render_boot boot len buf inst
  | none ↦ do
    r ← or_panic (take_frame len buf inst.core)
    finished (r.0, record inst { core = r.1 })
]
