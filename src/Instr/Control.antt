-- ===== src/Instr/Control.antt =====
-- Jumps, calls, returns, interrupts and the low-power states, of instr.rs.
use gbx.Prelude.{ℕ, bit_and, ◌>>>◌, true, false, ◌||◌, ◌==◌, if◌then◌else◌}
use gbx.Io
use gbx.Cpu
use gbx.Cpu.{Cpu}
use gbx.Core.{M, pure, ◌>>=◌, ◌>>◌, gets, modify, fetch_imm8, fetch_imm16, push16, pop16}
use gbx.Core.{jump_relative}
use gbx.Instr.{cond}

abbrev pub set_pc : ℕ → M (Unit {0})
set_pc addr = modify λ r. record r { pc = addr }

-- `op_nop`, and `op_unimplemented`
unfoldable pub op_nop : M ℕ
op_nop = pure 4

unfoldable pub op_jr : M ℕ
op_jr = do off ← fetch_imm8; jump_relative off true; pure 12

unfoldable pub op_jr_cc : ℕ → M ℕ
op_jr_cc opcode = do
  off ← fetch_imm8
  taken ← gets (λ r. cond r.f (bit_and (opcode >>> 3) 0x03))
  jump_relative off taken
  pure (if taken then 12 else 8)

unfoldable pub op_di : M ℕ
op_di = do modify (λ r. record r { ime = false; enable_ime_pending = false }); pure 4

unfoldable pub op_ei : M ℕ
op_ei = do modify (λ r. record r { enable_ime_pending = true }); pure 4

-- HALT: with interrupts off and one pending, the CPU goes on with the HALT bug armed.
unfoldable pub op_halt : M ℕ
op_halt core =
    let pending = bit_and (bit_and core.bus.ie (Io.if_reg core.bus.io)) 0x1F in
    (do
      modify λ r.
          if r.ime || pending == 0 then record r { halted = true } else record r { halt_bug = true }
      pure 4)
      core

unfoldable pub op_stop : M ℕ
op_stop = do modify (λ r. record r { halted = true }); pure 4

unfoldable pub op_jp_hl : M ℕ
op_jp_hl = do modify (λ r. record r { pc = Cpu.hl r }); pure 4

unfoldable pub op_reti : M ℕ
op_reti = do addr ← pop16; modify (λ r. record r { pc = addr; ime = true }); pure 16

unfoldable pub op_rst : ℕ → M ℕ
op_rst opcode = do ret ← gets (λ r. r.pc); push16 ret; set_pc (bit_and opcode 0x38); pure 16

unfoldable pub op_ret : M ℕ
op_ret = do addr ← pop16; set_pc addr; pure 16

unfoldable pub op_ret_cc : ℕ → M ℕ
op_ret_cc opcode = do
  taken ← gets (λ r. cond r.f (bit_and (opcode >>> 3) 0x03))
  if taken then (do addr ← pop16; set_pc addr; pure 20) else pure 8

unfoldable pub op_jp_a16 : M ℕ
op_jp_a16 = do addr ← fetch_imm16; set_pc addr; pure 16

unfoldable pub op_jp_cc_a16 : ℕ → M ℕ
op_jp_cc_a16 opcode = do
  addr ← fetch_imm16
  taken ← gets (λ r. cond r.f (bit_and (opcode >>> 3) 0x03))
  if taken then (do set_pc addr; pure 16) else pure 12

unfoldable pub op_call_a16 : M ℕ
op_call_a16 = do addr ← fetch_imm16; ret ← gets (λ r. r.pc); push16 ret; set_pc addr; pure 24

unfoldable pub op_call_cc_a16 : ℕ → M ℕ
op_call_cc_a16 opcode = do
  addr ← fetch_imm16
  taken ← gets (λ r. cond r.f (bit_and (opcode >>> 3) 0x03))
  if taken then (do ret ← gets (λ r. r.pc); push16 ret; set_pc addr; pure 24) else pure 12
