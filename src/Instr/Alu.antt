-- ===== src/Instr/Alu.antt =====
-- Arithmetic and logic on `A`, HL and SP, of instr.rs.
pub mod Daa
use gbx.Prelude.{ℕ, ◌+◌, ◌-◌, ◌*◌, ◌/◌, ◌%◌, bit_and, bit_or, bit_xor, u8, sub_u8, ◌<<<◌, ◌>>>◌}
use gbx.Prelude.{Bool, true, false, not, ◌||◌, ◌==◌, ltb, is_set, if◌then◌else◌, from_bool}
use gbx.Exec.{Flags, add8, sub8}
use gbx.Cpu
use gbx.Cpu.{Cpu}
use gbx.Core.{Core, M, pure, ◌>>=◌, ◌>>◌, gets, modify, read8, write8, fetch_imm8}
use gbx.Core.{inc_reg, dec_reg, inc16, dec16, add16_hl, add_sp_e8}
use gbx.Instr.{read_r8, get_r8, put_r8, get_rr, put_rr}

pub data AluOp : Type 0 where
  add adc sub sbc and_op xor_op or_op cp : AluOp

-- The result with its flags, of the three bitwise operations.
abbrev bitwise_result : ℕ → Bool → ℕ × Flags
bitwise_result result half = (result, record { z = result == 0; n = false; h = half; c = false })

-- What `alu_assign` computes from `A`, the carry and the operand.
unfoldable pub alu_result : AluOp → ℕ → Bool → ℕ → ℕ × Flags
alu_result AluOp.add a carry operand = add8 a operand false
alu_result AluOp.adc a carry operand = add8 a operand carry
alu_result AluOp.sub a carry operand = sub8 a operand false
alu_result AluOp.sbc a carry operand = sub8 a operand carry
alu_result AluOp.and_op a carry operand = bitwise_result (bit_and a operand) true
alu_result AluOp.xor_op a carry operand = bitwise_result (bit_xor a operand) false
alu_result AluOp.or_op a carry operand = bitwise_result (bit_or a operand) false
alu_result AluOp.cp a carry operand = (a, (sub8 a operand false).1)

-- `alu_assign`: `Cp` leaves `A` alone.
unfoldable pub alu_assign : AluOp → ℕ → Cpu → Cpu
alu_assign op operand cpu =
    let r = alu_result op cpu.a cpu.f.c operand in record cpu { a = r.0; f = r.1 }

unfoldable pub op_alu_a_r : ℕ → AluOp → M ℕ
op_alu_a_r opcode op = do r ← read_r8 opcode; modify (alu_assign op r.0); pure (4 + r.1)

unfoldable pub op_alu_a_d8 : AluOp → M ℕ
op_alu_a_d8 op = do imm ← fetch_imm8; modify (alu_assign op imm); pure 8

-- `op_inc_r` and `op_dec_r`, given `inc_reg` or `dec_reg`: the arm of `(HL)` and those of the
-- registers.
unfoldable pub step_r8 : (ℕ → M ℕ) → ℕ → M ℕ
step_r8 change idx =
    if bit_and idx 0x07 == 6
    then (do
      addr ← gets Cpu.hl
      value ← read8 addr
      result ← change value
      write8 addr result
      pure 12)
    else (do
      value ← gets (get_r8 (bit_and idx 0x07))
      result ← change value
      modify (put_r8 (bit_and idx 0x07) result)
      pure 4)

unfoldable pub op_inc_r : ℕ → M ℕ
unfolding step_r8
op_inc_r idx = step_r8 inc_reg idx

unfoldable pub op_dec_r : ℕ → M ℕ
unfolding step_r8
op_dec_r idx = step_r8 dec_reg idx

unfoldable pub op_inc_rr : ℕ → M ℕ
op_inc_rr rp = do value ← gets (get_rr rp); modify (put_rr rp (inc16 value)); pure 8

unfoldable pub op_dec_rr : ℕ → M ℕ
op_dec_rr rp = do value ← gets (get_rr rp); modify (put_rr rp (dec16 value)); pure 8

unfoldable pub op_add_hl_rr : ℕ → M ℕ
op_add_hl_rr rp = do rhs ← gets (get_rr rp); add16_hl rhs

unfoldable pub op_add_sp_e8 : M ℕ
op_add_sp_e8 = do
  imm ← fetch_imm8
  r ← gets (λ cpu. add_sp_e8 cpu.sp imm)
  modify (λ cpu. record cpu { sp = r.0; f = record { z = false; n = false; h = r.1; c = r.2 } })
  pure 16

-- The body of `op_daa`: `A` and the carry after the adjustment.
unfoldable pub daa_adjust : ℕ → Flags → ℕ × Bool
daa_adjust a f =
    if not f.n
    then (let over = f.c || ltb 0x99 a in
        let a' = if over then u8 (a + 0x60) else a in
        (if f.h || ltb 0x09 (bit_and a' 0x0F) then u8 (a' + 0x06) else a', over))
    else (let a' = if f.c then sub_u8 a 0x60 else a in (if f.h then sub_u8 a' 0x06 else a', f.c))

unfoldable pub daa : Cpu → Cpu
unfolding daa_adjust
daa cpu =
    let r = daa_adjust cpu.a cpu.f in
    record cpu { a = r.0; f = record { z = r.0 == 0; n = cpu.f.n; h = false; c = r.1 } }

unfoldable pub op_daa : M ℕ
op_daa = do modify daa; pure 4

unfoldable pub op_cpl : M ℕ
op_cpl = do
  modify (λ r. record r {
    a = bit_xor r.a 0xFF;
    f = record { z = r.f.z; n = true; h = true; c = r.f.c };
  })
  pure 4

unfoldable pub op_scf : M ℕ
op_scf = do
  modify (λ r. record r { f = record { z = r.f.z; n = false; h = false; c = true } })
  pure 4

unfoldable pub op_ccf : M ℕ
op_ccf = do
  modify (λ r. record r { f = record { z = r.f.z; n = false; h = false; c = not r.f.c } })
  pure 4
