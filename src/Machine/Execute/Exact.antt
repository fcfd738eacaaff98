-- ===== src/Machine/Execute/Exact.antt =====
-- Cycle accounting of `execute_opcode`: whatever part of its cost an instruction counts while it
-- accesses the bus, the step as a whole counts exactly the cost.
pub mod Operands
pub mod Cb
pub mod Loads
pub mod Arithmetic
use gbx.Prelude.{
  ℕ, ◌+◌, ◌-◌, ◌/◌, ◌%◌, ◌≤◌, ◌<◌, ◌≡◌, refl, arith, u32, Bool, true, false, bit_and, bit_or,
  not_u8, u8, ◌*◌, ◌^◌, ◌==◌, if◌then◌else◌,
}
use gbx.Cpu
use gbx.Core.{Core, M, fetch_imm8, fetch_imm16, read8, write8, push16, pop16, inc_reg, dec_reg}
use gbx.Exec.{split_u16}
use gbx.Core.{inc16, add16_hl, jump_relative, consume_cycles, fetch_byte}
use gbx.Core.Cost.{Spends, consume_cycles_lem, fetch_imm8-Spends, fetch_imm16-Spends}
use gbx.Core.Cost.{read8-Spends, write8-Spends, push16-Spends, pop16-Spends}
use gbx.Ppu.Ends.{danger}
use gbx.Instr.{read_r8, write_r8, put_rr, get_r8, put_r8}
use gbx.Instr.Alu.{AluOp}
use gbx.Instr.Load
use gbx.Instr.Alu
use gbx.Instr.Bits
use gbx.Instr.Control
use gbx.Machine.Decode.{Instr, decode}
use gbx.Machine.Execute.{execute, fetch_opcode, settle_ime, settle_cycles, execute_opcode}
use gbx.Machine.Execute.Exact.Operands.{Costs}
use gbx.Machine.Execute.Exact.Loads.{
  ld_rr_d16-Costs, ld_mem_rr_a-Costs, ld_a_mem_rr-Costs, ld_r_d8-Costs,
}
use gbx.Machine.Execute.Exact.Loads.{
  ld_hl_d8-Costs, ld_mem_a16_sp-Costs, ldh_a8_a-Costs, ldh_a_a8-Costs,
}
use gbx.Machine.Execute.Exact.Loads.{ldh_c_a-Costs, ldh_a_c-Costs, ld_a_a16-Costs, ld_a16_a-Costs}
use gbx.Machine.Execute.Exact.Loads.{
  ld_hl_sp_plus_e8-Costs, ldi_hl_a-Costs, ldi_a_hl-Costs, ldd_hl_a-Costs,
}
use gbx.Machine.Execute.Exact.Loads.{ldd_a_hl-Costs, push_rr-Costs, pop_rr-Costs, ld_r_r-Costs}
use gbx.Machine.Execute.Exact.Arithmetic.{
  alu_a_r-Costs, alu_a_d8-Costs, add_sp_e8-Costs, inc_r-Costs,
}
use gbx.Machine.Execute.Exact.Arithmetic.{dec_r-Costs, add_hl_rr-Costs, cb-Costs, jr-Costs}
use gbx.Machine.Execute.Exact.Arithmetic.{jr_cc-Costs, halt-Costs, reti-Costs, rst-Costs}
use gbx.Machine.Execute.Exact.Arithmetic.{ret-Costs, ret_cc-Costs, jp_a16-Costs, jp_cc_a16-Costs}
use gbx.Machine.Execute.Exact.Arithmetic.{call_a16-Costs, call_cc_a16-Costs}

module _ (core : Core) (wide : core.cycles_this_frame < 2 ^ 32)
    (fresh : core.inline_cycle_credit ≡ 4) where
  execute-Costs : (instr : Instr) → (d : ℕ) × Costs d (execute instr) core
  unfolding execute
  execute-Costs Instr.nop = (0, unfold Control.op_nop in omega arith)
  execute-Costs Instr.unimplemented = (0, unfold Control.op_nop in omega arith)
  execute-Costs Instr.stop = (0, unfold Control.op_stop in omega arith)
  execute-Costs Instr.halt = (0, halt-Costs core wide fresh)
  execute-Costs Instr.di = (0, unfold Control.op_di in omega arith)
  execute-Costs Instr.ei = (0, unfold Control.op_ei in omega arith)
  execute-Costs (Instr.ld_rr_d16 rp) = (8, ld_rr_d16-Costs core wide fresh rp)
  execute-Costs (Instr.ld_mem_rr_a rp) = (4, ld_mem_rr_a-Costs core wide fresh rp)
  execute-Costs (Instr.ld_a_mem_rr rp) = (4, ld_a_mem_rr-Costs core wide fresh rp)
  execute-Costs (Instr.inc_rr rp) = (0, unfold Alu.op_inc_rr in omega arith)
  execute-Costs (Instr.dec_rr rp) = (0, unfold Alu.op_dec_rr in omega arith)
  execute-Costs (Instr.add_hl_rr rp) = (0, add_hl_rr-Costs core wide fresh rp)
  execute-Costs (Instr.inc_r idx) = inc_r-Costs core wide fresh idx
  execute-Costs (Instr.dec_r idx) = dec_r-Costs core wide fresh idx
  execute-Costs (Instr.ld_r_d8 dst) = ld_r_d8-Costs core wide fresh dst
  execute-Costs (Instr.ld_r_r op) = ld_r_r-Costs core wide fresh op
  execute-Costs Instr.ld_mem_a16_sp = (16, ld_mem_a16_sp-Costs core wide fresh)
  execute-Costs Instr.ld_hl_d8 = (8, ld_hl_d8-Costs core wide fresh)
  execute-Costs Instr.ldi_hl_a = (4, ldi_hl_a-Costs core wide fresh)
  execute-Costs Instr.ldi_a_hl = (4, ldi_a_hl-Costs core wide fresh)
  execute-Costs Instr.ldd_hl_a = (4, ldd_hl_a-Costs core wide fresh)
  execute-Costs Instr.ldd_a_hl = (4, ldd_a_hl-Costs core wide fresh)
  execute-Costs Instr.ldh_a8_a = (8, ldh_a8_a-Costs core wide fresh)
  execute-Costs Instr.ldh_a_a8 = (8, ldh_a_a8-Costs core wide fresh)
  execute-Costs Instr.ldh_c_a = (4, ldh_c_a-Costs core wide fresh)
  execute-Costs Instr.ldh_a_c = (4, ldh_a_c-Costs core wide fresh)
  execute-Costs Instr.ld_a16_a = (12, ld_a16_a-Costs core wide fresh)
  execute-Costs Instr.ld_a_a16 = (12, ld_a_a16-Costs core wide fresh)
  execute-Costs Instr.add_sp_e8 = (4, add_sp_e8-Costs core wide fresh)
  execute-Costs Instr.ld_hl_sp_plus_e8 = (4, ld_hl_sp_plus_e8-Costs core wide fresh)
  execute-Costs Instr.ld_sp_hl = (0, unfold Load.op_ld_sp_hl in omega arith)
  execute-Costs Instr.rlca = (0, unfold Bits.op_rlca in omega arith)
  execute-Costs Instr.rrca = (0, unfold Bits.op_rrca in omega arith)
  execute-Costs Instr.rla = (0, unfold Bits.op_rla in omega arith)
  execute-Costs Instr.rra = (0, unfold Bits.op_rra in omega arith)
  execute-Costs Instr.daa = (0, unfold Alu.op_daa in omega arith)
  execute-Costs Instr.cpl = (0, unfold Alu.op_cpl in omega arith)
  execute-Costs Instr.scf = (0, unfold Alu.op_scf in omega arith)
  execute-Costs Instr.ccf = (0, unfold Alu.op_ccf in omega arith)
  execute-Costs Instr.cb = cb-Costs core wide fresh
  execute-Costs (Instr.alu_a_r op alu) = alu_a_r-Costs core wide fresh op alu
  execute-Costs (Instr.alu_a_d8 alu) = (4, alu_a_d8-Costs core wide fresh alu)
  execute-Costs (Instr.push_rr rp) = (0, push_rr-Costs core wide fresh rp)
  execute-Costs (Instr.pop_rr rp) = (0, pop_rr-Costs core wide fresh rp)
  execute-Costs Instr.jr = (4, jr-Costs core wide fresh)
  execute-Costs Instr.jp_hl = (0, unfold Control.op_jp_hl in omega arith)
  execute-Costs Instr.jp_a16 = (8, jp_a16-Costs core wide fresh)
  execute-Costs Instr.call_a16 = (8, call_a16-Costs core wide fresh)
  execute-Costs Instr.ret = (0, ret-Costs core wide fresh)
  execute-Costs Instr.reti = (0, reti-Costs core wide fresh)
  execute-Costs (Instr.jr_cc op) = (4, jr_cc-Costs core wide fresh op)
  execute-Costs (Instr.jp_cc_a16 op) = (8, jp_cc_a16-Costs core wide fresh op)
  execute-Costs (Instr.call_cc_a16 op) = (8, call_cc_a16-Costs core wide fresh op)
  execute-Costs (Instr.ret_cc op) = (0, ret_cc-Costs core wide fresh op)
  execute-Costs (Instr.rst op) = (0, rst-Costs core wide fresh op)

fetch_opcode-Spends :
    (core : Core)
    → core.cycles_this_frame < 2 ^ 32
    → let r = fetch_opcode core in
      (r.1.cycles_this_frame ≡ u32 (core.cycles_this_frame + 4))
      × (r.1.inline_cycle_credit ≡ 4)
      × (danger r.1.ppu r.1.hung ≤ danger core.ppu core.hung)
unfolding fetch_opcode fetch_byte
fetch_opcode-Spends core wide =
    ground (arith, consume_cycles_lem 4 (fetch_byte (record core { inline_cycle_credit = 0 })).1)

settle_ime_lem :
    (pending : Bool) (opcode : ℕ) (core : Core)
    → let after = (settle_ime pending opcode core).1 in
      (after.cycles_this_frame ≡ core.cycles_this_frame)
      × (after.inline_cycle_credit ≡ core.inline_cycle_credit)
      × (danger after.ppu after.hung ≤ danger core.ppu core.hung)
unfolding settle_ime
settle_ime_lem pending opcode core = (refl, refl, omega arith)

settle_cycles_lem :
    (cycles : ℕ) (core : Core)
    → core.cycles_this_frame < 2 ^ 32
    → core.inline_cycle_credit ≤ cycles
    → let after = (settle_cycles cycles core).1 in
      (after.cycles_this_frame ≡ u32 (core.cycles_this_frame + (cycles - core.inline_cycle_credit)))
      × (after.inline_cycle_credit ≡ 0)
      × (danger after.ppu after.hung ≤ danger core.ppu core.hung)
unfolding settle_cycles
settle_cycles_lem cycles core wide h =
    ground (arith, consume_cycles_lem (cycles - core.inline_cycle_credit) core)

-- What an instruction costs, counts and leaves, and the danger that it does not add.
pub execute_opcode-Spends :
    (core : Core)
    → core.cycles_this_frame < 2 ^ 32
    → let r = execute_opcode core in
      (4 ≤ r.0)
      × (r.0 ≤ 24)
      × (r.1.cycles_this_frame ≡ u32 (core.cycles_this_frame + r.0))
      × (r.1.inline_cycle_credit ≡ 0)
      × (danger r.1.ppu r.1.hung ≤ danger core.ppu core.hung)
unfolding execute_opcode
execute_opcode-Spends core wide =
    let fetched = fetch_opcode core in
    let start = fetch_opcode-Spends core wide in
    let ran = execute (decode fetched.0) fetched.1 in
    let costs = execute-Costs fetched.1 (omega (arith, start)) start.1 (decode fetched.0) in
    let pending = core.cpu.enable_ime_pending in
    let settled = settle_ime pending fetched.0 ran.1 in
    let same = settle_ime_lem pending fetched.0 ran.1 in
    omega (
      arith,
      start,
      costs.1,
      same,
      settle_cycles_lem ran.0 settled.1 (omega (arith, start, costs.1, same))
          (omega (arith, start, costs.1, same)),
    )

-- With a frame counter of 32 bits, every opcode costs 4 to 24 cycles, and `execute_opcode`
-- advances the frame counter, modulo 2³², by exactly the cost that it returns; the inline credit
-- is 0 again.
pub execute_opcode_exact :
    (core : Core)
    → core.cycles_this_frame < 2 ^ 32
    → let r = execute_opcode core in
      (4 ≤ r.0)
      × (r.0 ≤ 24)
      × (r.1.cycles_this_frame ≡ u32 (core.cycles_this_frame + r.0))
      × (r.1.inline_cycle_credit ≡ 0)
execute_opcode_exact core wide = let r = execute_opcode-Spends core wide in (r.0, r.1, r.2, r.3)
