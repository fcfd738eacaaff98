-- ===== src/Machine/Execute/Exact/Loads.antt =====
-- The cycles of the loads of instr.rs.
use gbx.Prelude.{ℕ, ◌+◌, ◌/◌, ◌≤◌, ◌<◌, ◌≡◌, arith, bit_and, ◌^◌}
use gbx.Cpu
use gbx.Core.{Core, fetch_imm8, fetch_imm16, write8}
use gbx.Exec.{split_u16}
use gbx.Core.{inc16}
use gbx.Core.Cost.{fetch_imm8-Spends, fetch_imm16-Spends}
use gbx.Core.Cost.{read8-Spends, write8-Spends, push16-Spends, pop16-Spends}
use gbx.Instr.{read_r8, write_r8}
use gbx.Instr.Load
use gbx.Machine.Execute.Exact.Operands.{Costs, read_r8-Spends, write_r8-Spends}

module _ (core : Core) (wide : core.cycles_this_frame < 2 ^ 32)
    (fresh : core.inline_cycle_credit ≡ 4) where
  small : core.inline_cycle_credit ≤ 60
  small = omega arith

  small' : core.inline_cycle_credit ≤ 50
  small' = omega arith

  after_imm8 : (fetch_imm8 core).1.inline_cycle_credit ≤ 60
  after_imm8 = omega (arith, fetch_imm8-Spends core wide small)

  after_imm16 : (fetch_imm16 core).1.inline_cycle_credit ≤ 60
  after_imm16 = omega (arith, fetch_imm16-Spends core wide small')

  wide_imm8 : (fetch_imm8 core).1.cycles_this_frame < 2 ^ 32
  wide_imm8 = omega (arith, fetch_imm8-Spends core wide small)

  wide_imm16 : (fetch_imm16 core).1.cycles_this_frame < 2 ^ 32
  wide_imm16 = omega (arith, fetch_imm16-Spends core wide small')

  pub ld_rr_d16-Costs : (rp : ℕ) → Costs 8 (Load.op_ld_rr_d16 rp) core
  unfolding Load.op_ld_rr_d16
  ld_rr_d16-Costs rp = ground (arith, fetch_imm16-Spends core)

  pub ld_mem_rr_a-Costs : (rp : ℕ) → Costs 4 (Load.op_ld_mem_rr_a rp) core
  unfolding Load.op_ld_mem_rr_a
  ld_mem_rr_a-Costs rp =
      ground (arith, write8-Spends core wide small (Load.mem_rr rp core.cpu) core.cpu.a)

  pub ld_a_mem_rr-Costs : (rp : ℕ) → Costs 4 (Load.op_ld_a_mem_rr rp) core
  unfolding Load.op_ld_a_mem_rr
  ld_a_mem_rr-Costs rp = ground (arith, read8-Spends core wide small (Load.mem_rr rp core.cpu))

  pub ld_r_d8-Costs : (dst : ℕ) → (d : ℕ) × Costs d (Load.op_ld_r_d8 dst) core
  unfolding Load.op_ld_r_d8
  ld_r_d8-Costs dst =
      let r = fetch_imm8 core in
      (
        4 + (write_r8 dst r.0 r.1).0,
        ground (arith, fetch_imm8-Spends core wide small, write_r8-Spends dst r.0 r.1),
      )

  pub ld_hl_d8-Costs : Costs 8 Load.op_ld_hl_d8 core
  unfolding Load.op_ld_hl_d8
  ld_hl_d8-Costs =
      let r = fetch_imm8 core in
      ground (
        arith,
        fetch_imm8-Spends core wide small,
        write8-Spends r.1 wide_imm8 after_imm8 (Cpu.hl r.1.cpu) r.0,
      )

  pub ld_mem_a16_sp-Costs : Costs 16 Load.op_ld_mem_a16_sp core
  unfolding Load.op_ld_mem_a16_sp
  ld_mem_a16_sp-Costs =
      let r = fetch_imm16 core in
      let bytes = split_u16 r.1.cpu.sp in
      let first = write8-Spends r.1 wide_imm16 after_imm16 r.0 bytes.1 in
      let mid = (write8 r.0 bytes.1 r.1).1 in
      ground (
        arith,
        fetch_imm16-Spends core wide small',
        first,
        write8-Spends mid (omega (arith, fetch_imm16-Spends core wide small', first))
            (omega (arith, fetch_imm16-Spends core wide small')) (inc16 r.0) bytes.0,
      )

  pub ldh_a8_a-Costs : Costs 8 Load.op_ldh_a8_a core
  unfolding Load.op_ldh_a8_a
  ldh_a8_a-Costs =
      let r = fetch_imm8 core in
      ground (
        arith,
        fetch_imm8-Spends core wide small,
        write8-Spends r.1 wide_imm8 after_imm8 (Load.high_page r.0) r.1.cpu.a,
      )

  pub ldh_a_a8-Costs : Costs 8 Load.op_ldh_a_a8 core
  unfolding Load.op_ldh_a_a8
  ldh_a_a8-Costs =
      let r = fetch_imm8 core in
      ground (
        arith,
        fetch_imm8-Spends core wide small,
        read8-Spends r.1 wide_imm8 after_imm8 (Load.high_page r.0),
      )

  pub ldh_c_a-Costs : Costs 4 Load.op_ldh_c_a core
  unfolding Load.op_ldh_c_a
  ldh_c_a-Costs =
      ground (arith, write8-Spends core wide small (Load.high_page core.cpu.c) core.cpu.a)

  pub ldh_a_c-Costs : Costs 4 Load.op_ldh_a_c core
  unfolding Load.op_ldh_a_c
  ldh_a_c-Costs = ground (arith, read8-Spends core wide small (Load.high_page core.cpu.c))

  pub ld_a_a16-Costs : Costs 12 Load.op_ld_a_a16 core
  unfolding Load.op_ld_a_a16
  ld_a_a16-Costs =
      let r = fetch_imm16 core in
      ground
        (arith, fetch_imm16-Spends core wide small', read8-Spends r.1 wide_imm16 after_imm16 r.0)

  pub ld_a16_a-Costs : Costs 12 Load.op_ld_a16_a core
  unfolding Load.op_ld_a16_a
  ld_a16_a-Costs =
      let r = fetch_imm16 core in
      ground (
        arith,
        fetch_imm16-Spends core wide small',
        write8-Spends r.1 wide_imm16 after_imm16 r.0 r.1.cpu.a,
      )

  pub ld_hl_sp_plus_e8-Costs : Costs 4 Load.op_ld_hl_sp_plus_e8 core
  unfolding Load.op_ld_hl_sp_plus_e8
  ld_hl_sp_plus_e8-Costs = ground (arith, fetch_imm8-Spends core wide small)

  pub ldi_hl_a-Costs : Costs 4 Load.op_ldi_hl_a core
  unfolding Load.op_ldi_hl_a
  ldi_hl_a-Costs = ground (arith, write8-Spends core wide small (Cpu.hl core.cpu) core.cpu.a)

  pub ldi_a_hl-Costs : Costs 4 Load.op_ldi_a_hl core
  unfolding Load.op_ldi_a_hl
  ldi_a_hl-Costs = ground (arith, read8-Spends core wide small (Cpu.hl core.cpu))

  pub ldd_hl_a-Costs : Costs 4 Load.op_ldd_hl_a core
  unfolding Load.op_ldd_hl_a
  ldd_hl_a-Costs = ground (arith, write8-Spends core wide small (Cpu.hl core.cpu) core.cpu.a)

  pub ldd_a_hl-Costs : Costs 4 Load.op_ldd_a_hl core
  unfolding Load.op_ldd_a_hl
  ldd_a_hl-Costs = ground (arith, read8-Spends core wide small (Cpu.hl core.cpu))

  pub push_rr-Costs : (rp : ℕ) → Costs 0 (Load.op_push_rr rp) core
  unfolding Load.op_push_rr
  push_rr-Costs rp = ground (arith, push16-Spends (Load.get_stack_rr rp core.cpu) core)

  pub pop_rr-Costs : (rp : ℕ) → Costs 0 (Load.op_pop_rr rp) core
  unfolding Load.op_pop_rr
  pop_rr-Costs rp = ground (arith, pop16-Spends core)

  pub ld_r_r-Costs : (opcode : ℕ) → (d : ℕ) × Costs d (Load.op_ld_r_r opcode) core
  unfolding Load.op_ld_r_r
  ld_r_r-Costs opcode =
      let src = bit_and opcode 0x07 in
      let dst = bit_and (opcode / 8) 0x07 in
      let r = read_r8 src core in
      (
        r.0.1 + (write_r8 dst r.0.0 r.1).0,
        ground (arith, read_r8-Spends src core wide small', write_r8-Spends dst r.0.0 r.1),
      )
