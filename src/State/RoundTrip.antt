-- ===== src/State/RoundTrip.antt =====
-- A snapshot of state.rs restores what it holds.
use gbx.Prelude.{bit_and, ◌≡◌, refl, ap, arith}
use mathlib.Core.Path.{ap₂}
use gbx.Exec.{Flags, to_byte, from_byte}
use gbx.Exec.Laws.{from_byte-to_byte}
use gbx.Io
use gbx.Timers.{TimaState}
use gbx.Core.{Core}
use gbx.State.{save_state, load_state, save_tima_state, load_tima_state, save_timers, load_timers}
use gbx.State.{save_ppu, load_ppu, save_regs, load_cpu}

tima_state_round_trip : (s : TimaState) → load_tima_state (save_tima_state s) ≡ s
unfolding load_tima_state save_tima_state
tima_state_round_trip TimaState.running = refl
tima_state_round_trip TimaState.overflow_pending = refl
tima_state_round_trip TimaState.reloading = refl

flags_round_trip : (f : Flags) → from_byte (to_byte f) ≡ f
flags_round_trip f = (from_byte-to_byte f 0 (omega arith)).0

-- The parts of a core that a snapshot does not hold: the ROM and its bank, the boot ROM, the
-- serial link, the inputs and timer latches, the inline credit and the configuration.
abbrev pub with_captured : Core → Core → Core
with_captured other core = record other {
  cpu = core.cpu;
  bus = record (other.bus) {
    wram = core.bus.wram;
    vram = core.bus.vram;
    oam = core.bus.oam;
    hram = core.bus.hram;
    io = core.bus.io;
    ie = core.bus.ie;
    joyp_select = bit_and (core.bus.io.regs Io.joyp_index) 0x30;
  };
  timers = core.timers;
  ppu = core.ppu;
  cycles_this_frame = core.cycles_this_frame;
}

-- Loading a snapshot of `core` into another core gives that other core with the registers,
-- memory, IO, IE, timers, PPU and frame counter of `core`, its JOYP selection taken from the JOYP
-- register, and all else as it was; a snapshot of the result is the same snapshot.
pub load_state-save_state :
    (other core : Core)
    → (load_state other (save_state core) ≡ with_captured other core)
      × (save_state (load_state other (save_state core)) ≡ save_state core)
unfolding load_state save_state save_timers load_timers save_ppu load_ppu save_regs load_cpu
load_state-save_state other core =
    let restored : load_state other (save_state core) ≡ with_captured other core =
      ap₂
        (λ f s. record (with_captured other core) {
          cpu = record (core.cpu) { f = f };
          timers = record (core.timers) { tima_state = s };
        })
        (flags_round_trip core.cpu.f) (tima_state_round_trip core.timers.tima_state) in
    (restored, ap save_state restored)
