-- ===== src/Machine/Execute/Exact/Cb.antt =====
-- The cycles of the CB group of instr.rs.
use gbx.Prelude.{ℕ, ◌+◌, ◌-◌, ◌/◌, ◌≤◌, ◌<◌, arith, bit_and, bit_or, not_u8, u8, ◌*◌, ◌^◌}
use gbx.Core.{Core}
use gbx.Core.Cost.{Spends}
use gbx.Instr.{read_r8}
use gbx.Instr.Bits
use gbx.Machine.Execute.Exact.Operands.{read_r8-Spends, write_r8-Spends}

-- The CB group: the cycles that the two accesses of the operand report are those they count.
module _ (core : Core) (wide : core.cycles_this_frame < 2 ^ 32)
    (small : core.inline_cycle_credit ≤ 40) where
  cb_exec_rotate-Spends :
      (variant z : ℕ)
      → let r = Bits.cb_exec_rotate variant z core in
        Spends (r.0.0 + r.0.1) core r.1 × (r.0.0 ≤ 4) × (r.0.1 ≤ 4)
  unfolding Bits.cb_exec_rotate
  cb_exec_rotate-Spends variant z =
      let r = read_r8 z core in
      let result = Bits.cb_rotate variant r.0.0 r.1.cpu.f.c in
      ground (arith, read_r8-Spends z core, write_r8-Spends z result.0 r.1)

  cb_exec_bit-Spends :
      (n z : ℕ) → let r = Bits.cb_exec_bit n z core in Spends r.0 core r.1 × (r.0 ≤ 4)
  unfolding Bits.cb_exec_bit
  cb_exec_bit-Spends n z = ground (arith, read_r8-Spends z core)

  cb_exec_res-Spends :
      (n z : ℕ)
      → let r = Bits.cb_exec_res n z core in
        Spends (r.0.0 + r.0.1) core r.1 × (r.0.0 ≤ 4) × (r.0.1 ≤ 4)
  unfolding Bits.cb_exec_res
  cb_exec_res-Spends n z =
      let r = read_r8 z core in
      ground (
        arith,
        read_r8-Spends z core,
        write_r8-Spends z (bit_and r.0.0 (not_u8 (u8 (1 * 2 ^ n)))) r.1,
      )

  cb_exec_set-Spends :
      (n z : ℕ)
      → let r = Bits.cb_exec_set n z core in
        Spends (r.0.0 + r.0.1) core r.1 × (r.0.0 ≤ 4) × (r.0.1 ≤ 4)
  unfolding Bits.cb_exec_set
  cb_exec_set-Spends n z =
      let r = read_r8 z core in
      ground (arith, read_r8-Spends z core, write_r8-Spends z (bit_or r.0.0 (u8 (1 * 2 ^ n))) r.1)

  pub op_cb-Spends :
      (sub : ℕ) → let r = Bits.op_cb sub core in Spends (r.0 - 8) core r.1 × (8 ≤ r.0) × (r.0 ≤ 16)
  unfolding Bits.op_cb
  op_cb-Spends sub =
      let y = bit_and (sub / 8) 0x07 in
      let z = bit_and sub 0x07 in
      ground (
        arith,
        cb_exec_rotate-Spends y z,
        cb_exec_bit-Spends y z,
        cb_exec_res-Spends y z,
        cb_exec_set-Spends y z,
      )
