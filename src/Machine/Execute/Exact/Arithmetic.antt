-- ===== src/Machine/Execute/Exact/Arithmetic.antt =====
-- The cycles of the arithmetic and the jumps of instr.rs.
use gbx.Prelude.{ℕ, ◌-◌, ◌≤◌, ◌<◌, ◌≡◌, arith, ◌^◌}
use gbx.Core.{Core, fetch_imm8, fetch_imm16, inc_reg, dec_reg}
use gbx.Core.{add16_hl, jump_relative}
use gbx.Core.Cost.{fetch_imm8-Spends, fetch_imm16-Spends}
use gbx.Core.Cost.{push16-Spends, pop16-Spends}
use gbx.Instr.{read_r8}
use gbx.Instr.Alu.{AluOp}
use gbx.Instr.Alu
use gbx.Instr.Bits
use gbx.Instr.Control
use gbx.Machine.Decode.{Instr}
use gbx.Machine.Execute.{execute}
use gbx.Machine.Execute.Exact.Operands.{
  Costs, read_r8-Spends, step_r8-Costs, inc_reg-Spends, dec_reg-Spends,
}
use gbx.Machine.Execute.Exact.Cb.{op_cb-Spends}

module _ (core : Core) (wide : core.cycles_this_frame < 2 ^ 32)
    (fresh : core.inline_cycle_credit ≡ 4) where
  small : core.inline_cycle_credit ≤ 60
  small = omega arith

  small' : core.inline_cycle_credit ≤ 50
  small' = omega arith

  after_imm8 : (fetch_imm8 core).1.inline_cycle_credit ≤ 60
  after_imm8 = omega (arith, fetch_imm8-Spends core wide small)

  after_imm16 : (fetch_imm16 core).1.inline_cycle_credit ≤ 60
  after_imm16 = omega (arith, fetch_imm16-Spends core wide small')

  wide_imm8 : (fetch_imm8 core).1.cycles_this_frame < 2 ^ 32
  wide_imm8 = omega (arith, fetch_imm8-Spends core wide small)

  wide_imm16 : (fetch_imm16 core).1.cycles_this_frame < 2 ^ 32
  wide_imm16 = omega (arith, fetch_imm16-Spends core wide small')

  pub alu_a_r-Costs : (opcode : ℕ) (op : AluOp) → (d : ℕ) × Costs d (Alu.op_alu_a_r opcode op) core
  unfolding Alu.op_alu_a_r
  alu_a_r-Costs opcode op =
      ((read_r8 opcode core).0.1, ground (arith, read_r8-Spends opcode core wide small'))

  pub alu_a_d8-Costs : (op : AluOp) → Costs 4 (Alu.op_alu_a_d8 op) core
  unfolding Alu.op_alu_a_d8
  alu_a_d8-Costs op = ground (arith, fetch_imm8-Spends core wide small)

  pub add_sp_e8-Costs : Costs 4 Alu.op_add_sp_e8 core
  unfolding Alu.op_add_sp_e8
  add_sp_e8-Costs = ground (arith, fetch_imm8-Spends core wide small)

  pub inc_r-Costs : (idx : ℕ) → (d : ℕ) × Costs d (Alu.op_inc_r idx) core
  unfolding Alu.op_inc_r
  inc_r-Costs idx = step_r8-Costs inc_reg idx core inc_reg-Spends wide fresh

  pub dec_r-Costs : (idx : ℕ) → (d : ℕ) × Costs d (Alu.op_dec_r idx) core
  unfolding Alu.op_dec_r
  dec_r-Costs idx = step_r8-Costs dec_reg idx core dec_reg-Spends wide fresh

  pub add_hl_rr-Costs : (rp : ℕ) → Costs 0 (Alu.op_add_hl_rr rp) core
  unfolding Alu.op_add_hl_rr add16_hl
  add_hl_rr-Costs rp = ground arith

  pub cb-Costs : (d : ℕ) × Costs d (execute Instr.cb) core
  unfolding execute
  cb-Costs =
      let r = fetch_imm8 core in
      let first = fetch_imm8-Spends core wide small in
      (
        (Bits.op_cb r.0 r.1).0 - 4,
        ground (arith, first, op_cb-Spends r.1 (omega (arith, first)) (omega (arith, first)) r.0),
      )

  pub jr-Costs : Costs 4 Control.op_jr core
  unfolding Control.op_jr jump_relative
  jr-Costs = ground (arith, fetch_imm8-Spends core wide small)

  pub jr_cc-Costs : (opcode : ℕ) → Costs 4 (Control.op_jr_cc opcode) core
  unfolding Control.op_jr_cc jump_relative
  jr_cc-Costs opcode = ground (arith, fetch_imm8-Spends core wide small)

  pub halt-Costs : Costs 0 Control.op_halt core
  unfolding Control.op_halt
  halt-Costs = ground arith

  pub reti-Costs : Costs 0 Control.op_reti core
  unfolding Control.op_reti
  reti-Costs = ground (arith, pop16-Spends core)

  pub rst-Costs : (opcode : ℕ) → Costs 0 (Control.op_rst opcode) core
  unfolding Control.op_rst
  rst-Costs opcode = ground (arith, push16-Spends core.cpu.pc core)

  pub ret-Costs : Costs 0 Control.op_ret core
  unfolding Control.op_ret
  ret-Costs = ground (arith, pop16-Spends core)

  pub ret_cc-Costs : (opcode : ℕ) → Costs 0 (Control.op_ret_cc opcode) core
  unfolding Control.op_ret_cc
  ret_cc-Costs opcode = ground (arith, pop16-Spends core)

  pub jp_a16-Costs : Costs 8 Control.op_jp_a16 core
  unfolding Control.op_jp_a16
  jp_a16-Costs = ground (arith, fetch_imm16-Spends core wide small')

  pub jp_cc_a16-Costs : (opcode : ℕ) → Costs 8 (Control.op_jp_cc_a16 opcode) core
  unfolding Control.op_jp_cc_a16
  jp_cc_a16-Costs opcode = ground (arith, fetch_imm16-Spends core wide small')

  pub call_a16-Costs : Costs 8 Control.op_call_a16 core
  unfolding Control.op_call_a16
  call_a16-Costs =
      let r = fetch_imm16 core in
      ground (arith, fetch_imm16-Spends core wide small', push16-Spends r.1.cpu.pc r.1)

  pub call_cc_a16-Costs : (opcode : ℕ) → Costs 8 (Control.op_call_cc_a16 opcode) core
  unfolding Control.op_call_cc_a16
  call_cc_a16-Costs opcode =
      let r = fetch_imm16 core in
      ground (arith, fetch_imm16-Spends core wide small', push16-Spends r.1.cpu.pc r.1)
