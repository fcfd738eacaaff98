-- ===== src/Machine/Execute/Exact/Operands.antt =====
-- The cycles that the operand accesses of instr.rs count.
use gbx.Prelude.{ℕ, ◌+◌, ◌≤◌, ◌<◌, ◌≡◌, arith, bit_and, ◌^◌, ◌==◌, if◌then◌else◌}
use gbx.Cpu
use gbx.Core.{Core, M, read8, inc_reg, dec_reg}
use gbx.Core.Cost.{Spends}
use gbx.Core.Cost.{read8-Spends, write8-Spends}
use gbx.Instr.{read_r8, write_r8, get_r8}
use gbx.Instr.Alu.{AluOp}
use gbx.Instr.Alu

-- A handler entered with the four credits of the opcode counts `d` more by its accesses, which
-- stay within the cost that it returns.
abbrev pub Costs : ℕ → M ℕ → Core → Type 0
Costs d m core = Spends d core (m core).1 × (4 + d ≤ (m core).0) × ((m core).0 ≤ 24)

pub read_r8-Spends :
    (code : ℕ) (core : Core)
    → core.cycles_this_frame < 2 ^ 32
    → core.inline_cycle_credit ≤ 50
    → let r = read_r8 code core in Spends r.0.1 core r.1 × (r.0.1 ≤ 4)
unfolding read_r8
read_r8-Spends code core wide small =
    ground (arith, read8-Spends core wide (omega arith) (Cpu.hl core.cpu))

pub write_r8-Spends :
    (code value : ℕ) (core : Core)
    → core.cycles_this_frame < 2 ^ 32
    → core.inline_cycle_credit ≤ 50
    → let r = write_r8 code value core in Spends r.0 core r.1 × (r.0 ≤ 4)
unfolding write_r8
write_r8-Spends code value core wide small =
    ground (arith, write8-Spends core wide (omega arith) (Cpu.hl core.cpu) value)

-- INC and DEC of a register code, for a change of the value that touches only the CPU.
pub step_r8-Costs :
    (change : ℕ → M ℕ) (idx : ℕ) (core : Core)
    → ((v : ℕ) (c : Core) → c.cycles_this_frame < 2 ^ 32 → Spends 0 c (change v c).1)
    → core.cycles_this_frame < 2 ^ 32
    → core.inline_cycle_credit ≡ 4
    → (d : ℕ) × Costs d (Alu.step_r8 change idx) core
unfolding Alu.step_r8
step_r8-Costs change idx core keeps wide fresh =
    let addr = Cpu.hl core.cpu in
    let r = read8 addr core in
    let changed = change r.0 r.1 in
    let v = get_r8 (bit_and idx 0x07) core.cpu in
    let after_read = read8-Spends core wide (omega arith) addr in
    let after_change = keeps r.0 r.1 (omega (arith, after_read)) in
    (
      if bit_and idx 0x07 == 6 then 8 else 0,
      ground (
        arith,
        after_read,
        after_change,
        keeps v core wide,
        write8-Spends changed.1 (omega (arith, after_read, after_change))
            (omega (arith, after_read, after_change)) addr changed.0,
      ),
    )

pub inc_reg-Spends :
    (v : ℕ) (core : Core) → core.cycles_this_frame < 2 ^ 32 → Spends 0 core (inc_reg v core).1
unfolding inc_reg
inc_reg-Spends v core wide = omega arith

pub dec_reg-Spends :
    (v : ℕ) (core : Core) → core.cycles_this_frame < 2 ^ 32 → Spends 0 core (dec_reg v core).1
unfolding dec_reg
dec_reg-Spends v core wide = omega arith
