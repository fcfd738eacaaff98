-- ===== src/Core/Cost.antt =====
-- How the accesses of core.rs count cycles: the frame counter and the inline credit move
-- together.
use gbx.Prelude.{ℕ, ◌+◌, ◌^◌, ◌≤◌, ◌<◌, ◌≡◌, arith, u32}
use gbx.Timers
use gbx.Ppu.Ends.{danger, danger-step_counted}
use gbx.Mmu.{write8_scalar}
use gbx.Core.{Core, consume_cycles, step_peripherals, fetch_byte, fetch_imm8, fetch_imm16}
use gbx.Core.{read8, write8, push16, pop16}

-- From one core to the other `d` cycles went by, the credit counts them, and the PPU is in no more
-- danger of a loop that does not end.
abbrev pub Spends : ℕ → Core → Core → Type 0
Spends d before after =
    (after.cycles_this_frame ≡ u32 (before.cycles_this_frame + d))
    × (after.inline_cycle_credit ≡ before.inline_cycle_credit + d)
    × (danger after.ppu after.hung ≤ danger before.ppu before.hung)

-- Only the peripherals, the bus and the frame counter change, and no danger is added.
pub consume_cycles_lem :
    (n : ℕ) (core : Core)
    → core.cycles_this_frame < 2 ^ 32
    → let after = (consume_cycles n core).1 in
      (after.cycles_this_frame ≡ u32 (core.cycles_this_frame + n))
      × (after.inline_cycle_credit ≡ core.inline_cycle_credit)
      × (after.cpu ≡ core.cpu)
      × (danger after.ppu after.hung ≤ danger core.ppu core.hung)
unfolding consume_cycles step_peripherals
consume_cycles_lem n core wide =
    ground (arith, danger-step_counted n core.ppu (Timers.step n core.timers core.bus).1 core.hung)

module _ (core : Core) (wide : core.cycles_this_frame < 2 ^ 32)
    (small : core.inline_cycle_credit ≤ 60) where
  pub fetch_imm8-Spends : Spends 4 core (fetch_imm8 core).1
  unfolding fetch_imm8 fetch_byte
  fetch_imm8-Spends = ground (arith, consume_cycles_lem 4 (fetch_byte core).1)

  pub read8-Spends : (addr : ℕ) → Spends 4 core (read8 addr core).1
  unfolding read8
  read8-Spends addr = ground (arith, consume_cycles_lem 4 core)

  pub write8-Spends : (addr value : ℕ) → Spends 4 core (write8 addr value core).1
  unfolding write8
  write8-Spends addr value =
      ground (arith, consume_cycles_lem 4 (record core { bus = write8_scalar core.bus addr value }))

pub fetch_imm16-Spends :
    (core : Core)
    → core.cycles_this_frame < 2 ^ 32
    → core.inline_cycle_credit ≤ 50
    → Spends 8 core (fetch_imm16 core).1
unfolding fetch_imm16
fetch_imm16-Spends core wide small =
    ground (arith, fetch_imm8-Spends core wide, fetch_imm8-Spends (fetch_imm8 core).1)

-- The stack accesses of calls and returns are counted by the instruction alone.
pub push16-Spends :
    (value : ℕ) (core : Core)
    → core.cycles_this_frame < 2 ^ 32
    → Spends 0 core (push16 value core).1
unfolding push16
push16-Spends value core wide = omega arith

pub pop16-Spends : (core : Core) → core.cycles_this_frame < 2 ^ 32 → Spends 0 core (pop16 core).1
unfolding pop16
pop16-Spends core wide = omega arith
