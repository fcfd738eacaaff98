-- ===== src/Tests/Run.antt =====
-- The machine of core.rs at concrete cores.
use gbx.Prelude.{ℕ, ◌+◌, ◌^◌, ◌≤◌, ◌<◌, ◌≡◌, ◌≢◌, ◌↔◌, ◌⊎◌, refl, arith, u32}
use gbx.Prelude.{◌%◌, true, false, none, some, List, [], ◌∷◌}
use gbx.Io
use gbx.Cpu
use gbx.Cpu.{Cpu}
use gbx.Core
use gbx.Ppu
use gbx.Ppu.Ends.{is_sound}
use gbx.Core.{Core, consume_cycles, from_rom}
use gbx.Instr.Alu.{AluOp, alu_assign, daa}
use gbx.Instr.Alu.Daa.{daa-alu_assign}
use gbx.Machine.Execute.{execute_opcode}
use gbx.Machine.Execute.Exact.{execute_opcode_exact}
use gbx.Machine.Step.{Outcome, step_cycles, service_interrupts, pending_interrupts}
use gbx.Machine.Step.Budget.{step_cycles_ends}
use gbx.Machine.Step.Interrupts.{
  interrupted, service_interrupts_taken, service_interrupts-eq-none_iff,
}
use gbx.State.{save_state, load_state}
use gbx.State.RoundTrip.{with_captured, load_state-save_state}

-- LD A, 0x12; EI; DI; and then RST 0x38, which is what a read past the end of the ROM gives.
abbrev program : List ℕ
program = 0x3E ∷ 0x12 ∷ 0xFB ∷ 0xF3 ∷ []

-- The program from address 0.
abbrev start : Core
start = record (from_rom program) { cpu = record Cpu.new { pc = 0 } }

start_wide : start.cycles_this_frame < 2 ^ 32
unfolding from_rom Core.new
start_wide = omega arith

step_cycles_ends_example :
    (step_cycles 100 start ≡ Outcome.panicked)
    ⊎ ((n : ℕ) × (after : Core) × (step_cycles 100 start ≡ Outcome.finished n after)
        × (n < 124)
        × ((100 ≤ n) ⊎ (after.ppu.frame_ready ≡ true))
        × (after.hung ≡ false)
        × (is_sound after.ppu ≡ true))
unfolding from_rom Core.new Ppu.new is_sound
step_cycles_ends_example = step_cycles_ends 100 start (omega arith) start_wide refl refl

execute_opcode_exact_example :
    let r = execute_opcode start in
    (4 ≤ r.0)
    × (r.0 ≤ 24)
    × (r.1.cycles_this_frame ≡ u32 (start.cycles_this_frame + r.0))
    × (r.1.inline_cycle_credit ≡ 0)
execute_opcode_exact_example = execute_opcode_exact start start_wide

-- Interrupts enabled, with IE and IF as given.
abbrev waiting : ℕ → ℕ → Core
waiting ie if_reg = record start {
  cpu = record (start.cpu) { ime = true };
  bus = record (start.bus) { ie = ie; io = record { regs = λ _. if_reg } };
}

service_interrupts_taken_example :
    (after : Core) × (service_interrupts (waiting 0x1C 0xE4) ≡ some (20, after))
    × (after ≡ (consume_cycles 20 (interrupted 2 (waiting 0x1C 0xE4))).1)
    × (after.cpu.pc ≡ 0x50)
    × (after.cpu.ime ≡ false)
    × (after.cpu.halted ≡ false)
    × (after.cpu.sp ≡ 0xFFFC)
unfolding from_rom Core.new pending_interrupts Io.if_reg Cpu.new
service_interrupts_taken_example =
    service_interrupts_taken (waiting 0x1C 0xE4) 2 (omega arith) (omega arith) (omega arith) refl
      (omega arith) (refl, refl)

service_interrupts-eq-none_iff_example : (service_interrupts (waiting 0xE0 0xE0) ≡ none) ↔ (
    (true ≡ true)
    × (pending_interrupts (waiting 0xE0 0xE0) ≢ 0)
    × (pending_interrupts (waiting 0xE0 0xE0) % 32 ≡ 0))
unfolding from_rom Core.new pending_interrupts Io.if_reg
service_interrupts-eq-none_iff_example =
    service_interrupts-eq-none_iff (waiting 0xE0 0xE0) (omega arith)

load_state-save_state_example :
    (load_state start (save_state (waiting 1 2)) ≡ with_captured start (waiting 1 2))
    × (save_state (load_state start (save_state (waiting 1 2))) ≡ save_state (waiting 1 2))
load_state-save_state_example = load_state-save_state start (waiting 1 2)

-- 45 and 38 with no carry.
abbrev forty_five : Cpu
forty_five = record Cpu.new { a = 0x45; f = record { z = false; n = false; h = false; c = false } }

daa-alu_assign_example :
    let added = daa (alu_assign AluOp.adc 0x38 forty_five) in
    let left = daa (alu_assign AluOp.sbc 0x38 forty_five) in
    (added.a ≡ 0x83) × (added.f.c ≡ false) × (left.a ≡ 0x07) × (left.f.c ≡ false)
daa-alu_assign_example = daa-alu_assign 45 38 forty_five (omega arith) (omega arith) refl
