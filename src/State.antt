-- ===== src/State.antt =====
-- The snapshot of a core (crates/04-services/kernel-core/src/state.rs). The arrays of a snapshot
-- have the sizes of the regions they copy, and are functions of the index as these are;
-- `copy_from_slice` panics on any other size.
pub mod RoundTrip
use gbx.Prelude.{ℕ, bit_and, Bool, true, false, ◌==◌, if◌then◌else◌}
use gbx.Exec.{to_byte, from_byte}
use gbx.Io
use gbx.Timers.{Timers, TimaState}
use gbx.Ppu.{Ppu}
use gbx.Cpu.{Cpu}
use gbx.Core.{Core}

pub record RegsScalar : Type 0 where
  pub a : ℕ
  pub f : ℕ
  pub b : ℕ
  pub c : ℕ
  pub d : ℕ
  pub e : ℕ
  pub h : ℕ
  pub l : ℕ
  pub sp : ℕ
  pub pc : ℕ

pub record TimersState : Type 0 where
  pub div_counter : ℕ
  pub timer_input : Bool
  pub tima_state : ℕ
  pub pending_reload_value : ℕ
  pub reload_delay : ℕ

pub record PpuState : Type 0 where
  pub dot_in_line : ℕ
  pub ly : ℕ
  pub mode : ℕ
  pub lyc_equal : Bool
  pub frame_ready : Bool
  pub lcd_was_on : Bool

pub record CoreState : Type 0 where
  pub regs : RegsScalar
  pub wram : ℕ → ℕ
  pub vram : ℕ → ℕ
  pub oam : ℕ → ℕ
  pub hram : ℕ → ℕ
  pub io : ℕ → ℕ
  pub ie : ℕ
  pub timers : TimersState
  pub ppu : PpuState
  pub cycles_this_frame : ℕ
  pub ime : Bool
  pub halted : Bool
  pub enable_ime_pending : Bool
  pub halt_bug : Bool

unfoldable pub save_tima_state : TimaState → ℕ
save_tima_state TimaState.running = 0
save_tima_state TimaState.overflow_pending = 1
save_tima_state TimaState.reloading = 2

unfoldable pub load_tima_state : ℕ → TimaState
load_tima_state s =
    if s == 1
    then TimaState.overflow_pending
    else if s == 2
    then TimaState.reloading
    else TimaState.running

-- `TimersState::from`
unfoldable pub save_timers : Timers → TimersState
save_timers t = record {
  div_counter = t.div_counter;
  timer_input = t.timer_input;
  tima_state = save_tima_state t.tima_state;
  pending_reload_value = t.pending_reload_value;
  reload_delay = t.reload_delay;
}

-- `Timers::load_state`
unfoldable pub load_timers : TimersState → Timers
load_timers s = record {
  div_counter = s.div_counter;
  timer_input = s.timer_input;
  tima_state = load_tima_state s.tima_state;
  pending_reload_value = s.pending_reload_value;
  reload_delay = s.reload_delay;
}

-- `PpuState::from`
unfoldable pub save_ppu : Ppu → PpuState
save_ppu p = record {
  dot_in_line = p.dot_in_line;
  ly = p.ly;
  mode = p.mode;
  lyc_equal = p.lyc_equal;
  frame_ready = p.frame_ready;
  lcd_was_on = p.lcd_was_on;
}

-- `PpuStub::load_state`
unfoldable pub load_ppu : Ppu → PpuState → Ppu
load_ppu p s = record p {
  dot_in_line = s.dot_in_line;
  ly = s.ly;
  mode = s.mode;
  lyc_equal = s.lyc_equal;
  frame_ready = s.frame_ready;
  lcd_was_on = s.lcd_was_on;
}

unfoldable pub save_regs : Cpu → RegsScalar
save_regs r = record {
  a = r.a;
  f = to_byte r.f;
  b = r.b;
  c = r.c;
  d = r.d;
  e = r.e;
  h = r.h;
  l = r.l;
  sp = r.sp;
  pc = r.pc;
}

-- `CoreState::from`
unfoldable pub save_state : Core → CoreState
unfolding save_regs save_timers save_ppu
save_state core = record {
  regs = save_regs core.cpu;
  wram = core.bus.wram;
  vram = core.bus.vram;
  oam = core.bus.oam;
  hram = core.bus.hram;
  io = core.bus.io.regs;
  ie = core.bus.ie;
  timers = save_timers core.timers;
  ppu = save_ppu core.ppu;
  cycles_this_frame = core.cycles_this_frame;
  ime = core.cpu.ime;
  halted = core.cpu.halted;
  enable_ime_pending = core.cpu.enable_ime_pending;
  halt_bug = core.cpu.halt_bug;
}

unfoldable pub load_cpu : CoreState → Cpu
load_cpu s = record {
  a = s.regs.a;
  f = from_byte s.regs.f;
  b = s.regs.b;
  c = s.regs.c;
  d = s.regs.d;
  e = s.regs.e;
  h = s.regs.h;
  l = s.regs.l;
  sp = s.regs.sp;
  pc = s.regs.pc;
  ime = s.ime;
  halted = s.halted;
  enable_ime_pending = s.enable_ime_pending;
  halt_bug = s.halt_bug;
}

-- `Core::load_state`: what the snapshot does not hold stays as it is.
unfoldable pub load_state : Core → CoreState → Core
unfolding load_cpu load_timers load_ppu
load_state core s = record core {
  cpu = load_cpu s;
  bus = record (core.bus) {
    wram = s.wram;
    vram = s.vram;
    oam = s.oam;
    hram = s.hram;
    io = record { regs = s.io };
    ie = s.ie;
    joyp_select = bit_and (s.io Io.joyp_index) 0x30;
  };
  timers = load_timers s.timers;
  ppu = load_ppu core.ppu s.ppu;
  cycles_this_frame = s.cycles_this_frame;
}
