-- ===== src/Machine/Decode.antt =====
-- The dispatch of `execute_opcode` (crates/04-services/kernel-core/src/core.rs): which handler an
-- opcode has, with the argument that the arm passes.
use gbx.Prelude.{ℕ, ◌||◌, ◌==◌, leb, if◌then◌else◌}
use gbx.Instr.Alu.{AluOp}

-- The right-hand sides of the arms.
pub data Instr : Type 0 where
  nop unimplemented stop halt di ei : Instr
  ld_rr_d16 ld_mem_rr_a ld_a_mem_rr inc_rr dec_rr add_hl_rr : ℕ → Instr
  inc_r dec_r ld_r_d8 ld_r_r : ℕ → Instr
  ld_mem_a16_sp ld_hl_d8 ldi_hl_a ldi_a_hl ldd_hl_a ldd_a_hl : Instr
  ldh_a8_a ldh_a_a8 ldh_c_a ldh_a_c ld_a16_a ld_a_a16 : Instr
  add_sp_e8 ld_hl_sp_plus_e8 ld_sp_hl : Instr
  rlca rrca rla rra daa cpl scf ccf cb : Instr
  alu_a_r : ℕ → AluOp → Instr
  alu_a_d8 : AluOp → Instr
  push_rr pop_rr : ℕ → Instr
  jr jp_hl jp_a16 call_a16 ret reti : Instr
  jr_cc jp_cc_a16 call_cc_a16 ret_cc rst : ℕ → Instr

-- 0x00 to 0x1F
abbrev decode_00 : ℕ → Instr
decode_00 op =
    if op == 0x00
    then Instr.nop
    else if op == 0x01
    then Instr.ld_rr_d16 0
    else if op == 0x02
    then Instr.ld_mem_rr_a 0
    else if op == 0x03
    then Instr.inc_rr 0
    else if op == 0x04
    then Instr.inc_r 0
    else if op == 0x05
    then Instr.dec_r 0
    else if op == 0x06
    then Instr.ld_r_d8 0
    else if op == 0x07
    then Instr.rlca
    else if op == 0x08
    then Instr.ld_mem_a16_sp
    else if op == 0x09
    then Instr.add_hl_rr 0
    else if op == 0x0A
    then Instr.ld_a_mem_rr 0
    else if op == 0x0B
    then Instr.dec_rr 0
    else if op == 0x0C
    then Instr.inc_r 1
    else if op == 0x0D
    then Instr.dec_r 1
    else if op == 0x0E
    then Instr.ld_r_d8 1
    else if op == 0x0F
    then Instr.rrca
    else if op == 0x10
    then Instr.stop
    else if op == 0x11
    then Instr.ld_rr_d16 1
    else if op == 0x12
    then Instr.ld_mem_rr_a 1
    else if op == 0x13
    then Instr.inc_rr 1
    else if op == 0x14
    then Instr.inc_r 2
    else if op == 0x15
    then Instr.dec_r 2
    else if op == 0x16
    then Instr.ld_r_d8 2
    else if op == 0x17
    then Instr.rla
    else if op == 0x18
    then Instr.jr
    else if op == 0x19
    then Instr.add_hl_rr 1
    else if op == 0x1A
    then Instr.ld_a_mem_rr 1
    else if op == 0x1B
    then Instr.dec_rr 1
    else if op == 0x1C
    then Instr.inc_r 3
    else if op == 0x1D
    then Instr.dec_r 3
    else if op == 0x1E
    then Instr.ld_r_d8 3
    else Instr.rra

-- 0x20 to 0x3F
abbrev decode_20 : ℕ → Instr
decode_20 op =
    if op == 0x20 || op == 0x28 || op == 0x30 || op == 0x38
    then Instr.jr_cc op
    else if op == 0x21
    then Instr.ld_rr_d16 2
    else if op == 0x22
    then Instr.ldi_hl_a
    else if op == 0x23
    then Instr.inc_rr 2
    else if op == 0x24
    then Instr.inc_r 4
    else if op == 0x25
    then Instr.dec_r 4
    else if op == 0x26
    then Instr.ld_r_d8 4
    else if op == 0x27
    then Instr.daa
    else if op == 0x29
    then Instr.add_hl_rr 2
    else if op == 0x2A
    then Instr.ldi_a_hl
    else if op == 0x2B
    then Instr.dec_rr 2
    else if op == 0x2C
    then Instr.inc_r 5
    else if op == 0x2D
    then Instr.dec_r 5
    else if op == 0x2E
    then Instr.ld_r_d8 5
    else if op == 0x2F
    then Instr.cpl
    else if op == 0x31
    then Instr.ld_rr_d16 3
    else if op == 0x32
    then Instr.ldd_hl_a
    else if op == 0x33
    then Instr.inc_rr 3
    else if op == 0x34
    then Instr.inc_r 6
    else if op == 0x35
    then Instr.dec_r 6
    else if op == 0x36
    then Instr.ld_hl_d8
    else if op == 0x37
    then Instr.scf
    else if op == 0x39
    then Instr.add_hl_rr 3
    else if op == 0x3A
    then Instr.ldd_a_hl
    else if op == 0x3B
    then Instr.dec_rr 3
    else if op == 0x3C
    then Instr.inc_r 7
    else if op == 0x3D
    then Instr.dec_r 7
    else if op == 0x3E
    then Instr.ld_r_d8 7
    else Instr.ccf

-- 0x40 to 0xBF
abbrev decode_40 : ℕ → Instr
decode_40 op =
    if leb op 0x7F
    then (if op == 0x76 then Instr.halt else Instr.ld_r_r op)
    else if leb op 0x87
    then Instr.alu_a_r op AluOp.add
    else if leb op 0x8F
    then Instr.alu_a_r op AluOp.adc
    else if leb op 0x97
    then Instr.alu_a_r op AluOp.sub
    else if leb op 0x9F
    then Instr.alu_a_r op AluOp.sbc
    else if leb op 0xA7
    then Instr.alu_a_r op AluOp.and_op
    else if leb op 0xAF
    then Instr.alu_a_r op AluOp.xor_op
    else if leb op 0xB7
    then Instr.alu_a_r op AluOp.or_op
    else Instr.alu_a_r op AluOp.cp

-- 0xC0 to 0xFF
abbrev decode_c0 : ℕ → Instr
decode_c0 op =
    if op == 0xC0 || op == 0xC8 || op == 0xD0 || op == 0xD8
    then Instr.ret_cc op
    else if op == 0xC1
    then Instr.pop_rr 0
    else if op == 0xC2 || op == 0xCA || op == 0xD2 || op == 0xDA
    then Instr.jp_cc_a16 op
    else if op == 0xC3
    then Instr.jp_a16
    else if op == 0xC4 || op == 0xCC || op == 0xD4 || op == 0xDC
    then Instr.call_cc_a16 op
    else if op == 0xC5
    then Instr.push_rr 0
    else if op == 0xC6
    then Instr.alu_a_d8 AluOp.add
    else if op == 0xC9
    then Instr.ret
    else if op == 0xC7
        || op == 0xCF
        || op == 0xD7
        || op == 0xDF
        || op == 0xE7
        || op == 0xEF
        || op == 0xF7
        || op == 0xFF
    then Instr.rst op
    else if op == 0xCB
    then Instr.cb
    else if op == 0xCD
    then Instr.call_a16
    else if op == 0xCE
    then Instr.alu_a_d8 AluOp.adc
    else if op == 0xD1
    then Instr.pop_rr 1
    else if op == 0xD9
    then Instr.reti
    else if op == 0xD5
    then Instr.push_rr 1
    else if op == 0xD6
    then Instr.alu_a_d8 AluOp.sub
    else if op == 0xDE
    then Instr.alu_a_d8 AluOp.sbc
    else if op == 0xE0
    then Instr.ldh_a8_a
    else if op == 0xE1
    then Instr.pop_rr 2
    else if op == 0xE2
    then Instr.ldh_c_a
    else if op == 0xE5
    then Instr.push_rr 2
    else if op == 0xE6
    then Instr.alu_a_d8 AluOp.and_op
    else if op == 0xE8
    then Instr.add_sp_e8
    else if op == 0xE9
    then Instr.jp_hl
    else if op == 0xEA
    then Instr.ld_a16_a
    else if op == 0xEE
    then Instr.alu_a_d8 AluOp.xor_op
    else if op == 0xF0
    then Instr.ldh_a_a8
    else if op == 0xF1
    then Instr.pop_rr 3
    else if op == 0xF2
    then Instr.ldh_a_c
    else if op == 0xF3
    then Instr.di
    else if op == 0xF5
    then Instr.push_rr 3
    else if op == 0xF6
    then Instr.alu_a_d8 AluOp.or_op
    else if op == 0xF8
    then Instr.ld_hl_sp_plus_e8
    else if op == 0xF9
    then Instr.ld_sp_hl
    else if op == 0xFA
    then Instr.ld_a_a16
    else if op == 0xFB
    then Instr.ei
    else if op == 0xFE
    then Instr.alu_a_d8 AluOp.cp
    else Instr.unimplemented

-- An opcode is a byte.
unfoldable pub decode : ℕ → Instr
decode op =
    if leb op 0x1F
    then decode_00 op
    else if leb op 0x3F
    then decode_20 op
    else if leb op 0xBF
    then decode_40 op
    else decode_c0 op
