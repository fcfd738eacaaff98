-- ===== src/Instr/Load.antt =====
-- Loads, stores and the stack, of instr.rs.
use gbx.Prelude.{ℕ, ◌+◌, bit_and, bit_or, false, ◌==◌, if◌then◌else◌, ◌>>>◌}
use gbx.Exec.{split_u16}
use gbx.Cpu
use gbx.Cpu.{Cpu}
use gbx.Core.{M, pure, ◌>>=◌, ◌>>◌, gets, modify, read8, write8, fetch_imm8, fetch_imm16}
use gbx.Core.{push16, pop16, add_sp_e8, inc16, dec16}
use gbx.Instr.{read_r8, write_r8, put_rr}

unfoldable pub op_ld_rr_d16 : ℕ → M ℕ
op_ld_rr_d16 rp = do imm ← fetch_imm16; modify (put_rr rp imm); pure 12

-- The dispatcher passes 0 or 1 only; the code has no arm for the others.
unfoldable pub mem_rr : ℕ → Cpu → ℕ
mem_rr rp cpu = if bit_and rp 0x03 == 0 then Cpu.bc cpu else Cpu.de cpu

unfoldable pub op_ld_mem_rr_a : ℕ → M ℕ
op_ld_mem_rr_a rp = do addr ← gets (mem_rr rp); value ← gets (λ r. r.a); write8 addr value; pure 8

unfoldable pub op_ld_a_mem_rr : ℕ → M ℕ
op_ld_a_mem_rr rp = do
  addr ← gets (mem_rr rp)
  value ← read8 addr
  modify (λ r. record r { a = value })
  pure 8

unfoldable pub op_ld_r_d8 : ℕ → M ℕ
op_ld_r_d8 dst = do imm ← fetch_imm8; extra ← write_r8 dst imm; pure (8 + extra)

unfoldable pub op_ld_hl_d8 : M ℕ
op_ld_hl_d8 = do imm ← fetch_imm8; addr ← gets Cpu.hl; write8 addr imm; pure 12

unfoldable pub op_ld_mem_a16_sp : M ℕ
op_ld_mem_a16_sp = do
  addr ← fetch_imm16
  sp ← gets (λ r. r.sp)
  write8 addr (split_u16 sp).1
  write8 (inc16 addr) (split_u16 sp).0
  pure 20

abbrev pub high_page : ℕ → ℕ
high_page offset = bit_or 0xFF00 offset

unfoldable pub op_ldh_a8_a : M ℕ
op_ldh_a8_a = do offset ← fetch_imm8; a ← gets (λ r. r.a); write8 (high_page offset) a; pure 12

unfoldable pub op_ldh_a_a8 : M ℕ
op_ldh_a_a8 = do
  offset ← fetch_imm8
  value ← read8 (high_page offset)
  modify (λ r. record r { a = value })
  pure 12

unfoldable pub op_ldh_c_a : M ℕ
op_ldh_c_a = do c ← gets (λ r. r.c); a ← gets (λ r. r.a); write8 (high_page c) a; pure 8

unfoldable pub op_ldh_a_c : M ℕ
op_ldh_a_c = do
  c ← gets (λ r. r.c)
  value ← read8 (high_page c)
  modify (λ r. record r { a = value })
  pure 8

unfoldable pub op_ld_a_a16 : M ℕ
op_ld_a_a16 = do
  addr ← fetch_imm16
  value ← read8 addr
  modify (λ r. record r { a = value })
  pure 16

unfoldable pub op_ld_a16_a : M ℕ
op_ld_a16_a = do addr ← fetch_imm16; a ← gets (λ r. r.a); write8 addr a; pure 16

unfoldable pub op_ld_r_r : ℕ → M ℕ
op_ld_r_r opcode = do
  r ← read_r8 (bit_and opcode 0x07)
  write_cycles ← write_r8 (bit_and (opcode >>> 3) 0x07) r.0
  pure (4 + r.1 + write_cycles)

unfoldable pub op_ld_hl_sp_plus_e8 : M ℕ
op_ld_hl_sp_plus_e8 = do
  imm ← fetch_imm8
  r ← gets (λ cpu. add_sp_e8 cpu.sp imm)
  modify
      (λ cpu. record (Cpu.set_hl cpu r.0) { f = record { z = false; n = false; h = r.1; c = r.2 } })
  pure 12

unfoldable pub op_ld_sp_hl : M ℕ
op_ld_sp_hl = do modify (λ r. record r { sp = Cpu.hl r }); pure 8

-- `(HL)` accesses that move HL afterwards
unfoldable pub op_ldi_hl_a : M ℕ
op_ldi_hl_a = do
  addr ← gets Cpu.hl
  a ← gets (λ r. r.a)
  write8 addr a
  modify (λ r. Cpu.set_hl r (inc16 addr))
  pure 8

unfoldable pub op_ldi_a_hl : M ℕ
op_ldi_a_hl = do
  addr ← gets Cpu.hl
  value ← read8 addr
  modify (λ r. record (Cpu.set_hl r (inc16 addr)) { a = value })
  pure 8

unfoldable pub op_ldd_hl_a : M ℕ
op_ldd_hl_a = do
  addr ← gets Cpu.hl
  a ← gets (λ r. r.a)
  write8 addr a
  modify (λ r. Cpu.set_hl r (dec16 addr))
  pure 8

unfoldable pub op_ldd_a_hl : M ℕ
op_ldd_a_hl = do
  addr ← gets Cpu.hl
  value ← read8 addr
  modify (λ r. record (Cpu.set_hl r (dec16 addr)) { a = value })
  pure 8

-- The register pairs of the stack: AF takes the place of SP.
unfoldable pub get_stack_rr : ℕ → Cpu → ℕ
get_stack_rr rp cpu =
    let code = bit_and rp 0x03 in
    if code == 0
    then Cpu.bc cpu
    else if code == 1
    then Cpu.de cpu
    else if code == 2
    then Cpu.hl cpu
    else Cpu.af cpu

unfoldable pub put_stack_rr : ℕ → ℕ → Cpu → Cpu
put_stack_rr rp value cpu =
    let code = bit_and rp 0x03 in
    if code == 0
    then Cpu.set_bc cpu value
    else if code == 1
    then Cpu.set_de cpu value
    else if code == 2
    then Cpu.set_hl cpu value
    else Cpu.set_af cpu value

unfoldable pub op_push_rr : ℕ → M ℕ
op_push_rr rp = do value ← gets (get_stack_rr rp); push16 value; pure 16

unfoldable pub op_pop_rr : ℕ → M ℕ
op_pop_rr rp = do value ← pop16; modify (put_stack_rr rp value); pure 12
