-- ===== src/Machine/Execute.antt =====
-- `execute_opcode` of core.rs.
pub mod Exact
use gbx.Prelude.{ℕ, ◌-◌, Bool, true, false, ◌==◌, ltb, if◌then◌else◌}
use gbx.Core.{Core, M, pure, ◌>>=◌, ◌>>◌, gets, modify, add_credit, consume_cycles, fetch_byte}
use gbx.Core.{fetch_imm8}
use gbx.Machine.Decode.{Instr, decode}
use gbx.Instr.Load
use gbx.Instr.Alu
use gbx.Instr.Bits
use gbx.Instr.Control

-- The right-hand sides of the dispatch; the number is the cost in cycles.
unfoldable pub execute : Instr → M ℕ
execute Instr.nop = Control.op_nop
execute Instr.unimplemented = Control.op_nop
execute Instr.stop = Control.op_stop
execute Instr.halt = Control.op_halt
execute Instr.di = Control.op_di
execute Instr.ei = Control.op_ei
execute (Instr.ld_rr_d16 rp) = Load.op_ld_rr_d16 rp
execute (Instr.ld_mem_rr_a rp) = Load.op_ld_mem_rr_a rp
execute (Instr.ld_a_mem_rr rp) = Load.op_ld_a_mem_rr rp
execute (Instr.inc_rr rp) = Alu.op_inc_rr rp
execute (Instr.dec_rr rp) = Alu.op_dec_rr rp
execute (Instr.add_hl_rr rp) = Alu.op_add_hl_rr rp
execute (Instr.inc_r idx) = Alu.op_inc_r idx
execute (Instr.dec_r idx) = Alu.op_dec_r idx
execute (Instr.ld_r_d8 dst) = Load.op_ld_r_d8 dst
execute (Instr.ld_r_r op) = Load.op_ld_r_r op
execute Instr.ld_mem_a16_sp = Load.op_ld_mem_a16_sp
execute Instr.ld_hl_d8 = Load.op_ld_hl_d8
execute Instr.ldi_hl_a = Load.op_ldi_hl_a
execute Instr.ldi_a_hl = Load.op_ldi_a_hl
execute Instr.ldd_hl_a = Load.op_ldd_hl_a
execute Instr.ldd_a_hl = Load.op_ldd_a_hl
execute Instr.ldh_a8_a = Load.op_ldh_a8_a
execute Instr.ldh_a_a8 = Load.op_ldh_a_a8
execute Instr.ldh_c_a = Load.op_ldh_c_a
execute Instr.ldh_a_c = Load.op_ldh_a_c
execute Instr.ld_a16_a = Load.op_ld_a16_a
execute Instr.ld_a_a16 = Load.op_ld_a_a16
execute Instr.add_sp_e8 = Alu.op_add_sp_e8
execute Instr.ld_hl_sp_plus_e8 = Load.op_ld_hl_sp_plus_e8
execute Instr.ld_sp_hl = Load.op_ld_sp_hl
execute Instr.rlca = Bits.op_rlca
execute Instr.rrca = Bits.op_rrca
execute Instr.rla = Bits.op_rla
execute Instr.rra = Bits.op_rra
execute Instr.daa = Alu.op_daa
execute Instr.cpl = Alu.op_cpl
execute Instr.scf = Alu.op_scf
execute Instr.ccf = Alu.op_ccf
execute Instr.cb = do sub ← fetch_imm8; Bits.op_cb sub
execute (Instr.alu_a_r op alu) = Alu.op_alu_a_r op alu
execute (Instr.alu_a_d8 alu) = Alu.op_alu_a_d8 alu
execute (Instr.push_rr rp) = Load.op_push_rr rp
execute (Instr.pop_rr rp) = Load.op_pop_rr rp
execute Instr.jr = Control.op_jr
execute Instr.jp_hl = Control.op_jp_hl
execute Instr.jp_a16 = Control.op_jp_a16
execute Instr.call_a16 = Control.op_call_a16
execute Instr.ret = Control.op_ret
execute Instr.reti = Control.op_reti
execute (Instr.jr_cc op) = Control.op_jr_cc op
execute (Instr.jp_cc_a16 op) = Control.op_jp_cc_a16 op
execute (Instr.call_cc_a16 op) = Control.op_call_cc_a16 op
execute (Instr.ret_cc op) = Control.op_ret_cc op
execute (Instr.rst op) = Control.op_rst op

abbrev set_credit : ℕ → M (Unit {0})
set_credit credit core = (tt, record core { inline_cycle_credit = credit })

-- The fetch of the opcode, with its four cycles.
unfoldable pub fetch_opcode : M ℕ
fetch_opcode = do set_credit 0; opcode ← fetch_byte; consume_cycles 4; add_credit; pure opcode

-- An EI before this instruction takes effect after it.
unfoldable pub settle_ime : Bool → ℕ → M (Unit {0})
settle_ime pending_before opcode =
    modify λ r.
      if pending_before then record r { ime = true; enable_ime_pending = opcode == 0xFB } else r

-- The cycles that the accesses of the instruction have not yet counted.
unfoldable pub settle_cycles : ℕ → M (Unit {0})
settle_cycles cycles core =
    let accounted = core.inline_cycle_credit in
    (do
      (if ltb accounted cycles then consume_cycles (cycles - accounted) else pure tt)
      set_credit 0)
      core

unfoldable pub execute_opcode : M ℕ
execute_opcode = do
  pending_before ← gets (λ r. r.enable_ime_pending)
  opcode ← fetch_opcode
  cycles ← execute (decode opcode)
  settle_ime pending_before opcode
  settle_cycles cycles
  pure cycles
