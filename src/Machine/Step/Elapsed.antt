-- ===== src/Machine/Step/Elapsed.antt =====
-- How many cycles a round of `step_cycles` takes in core.rs.
use gbx.Prelude.{ℕ, ◌+◌, ◌^◌, ◌≤◌, ◌<◌, ◌≡◌, ◌⊎◌, inl, inr, refl, arith, u32, sub_u32}
use gbx.Prelude.{if◌then◌else◌, Option, none, some, get_elem?, Option-cases, ap}
use mathlib.Core.Path.{subst}
use mathlib.Core.Option
use gbx.Core.{Core, push16}
use gbx.Ppu.Ends.{danger}
use gbx.Core.Cost.{consume_cycles_lem}
use gbx.Machine.Execute.{execute_opcode}
use gbx.Machine.Execute.Exact.{execute_opcode-Spends}
use gbx.Machine.Step.{
  resume, acknowledge, enter_vector, dispatch_interrupt, service_interrupts, run_one, advance,
}
use gbx.Machine.Step.{pending_interrupts, trailing_zeros, vectors}

-- Between the two cores 1 to 24 cycles went by, and no danger of a loop that hangs was added.
abbrev pub Elapses : Core → Core → Type 0
Elapses before after =
    (k : ℕ) × (1 ≤ k)
    × (k ≤ 24)
    × (after.cycles_this_frame ≡ u32 (before.cycles_this_frame + k))
    × (danger after.ppu after.hung ≤ danger before.ppu before.hung)

acknowledge-cycles :
    (line : ℕ) (core : Core) → (acknowledge line core).cycles_this_frame ≡ core.cycles_this_frame
unfolding acknowledge push16
acknowledge-cycles line core = refl

acknowledge-danger :
    (line : ℕ) (core : Core)
    → danger (acknowledge line core).ppu (acknowledge line core).hung ≡ danger core.ppu core.hung
unfolding acknowledge push16
acknowledge-danger line core = refl

enter_vector_cost :
    (vector : Option ℕ) (core : Core) (r : ℕ × Core)
    → core.cycles_this_frame < 2 ^ 32
    → enter_vector vector core ≡ some r
    → (r.0 ≡ 20)
      × (r.1.cycles_this_frame ≡ u32 (core.cycles_this_frame + 20))
      × (danger r.1.ppu r.1.hung ≤ danger core.ppu core.hung)
unfolding enter_vector
enter_vector_cost none core r wide h = cc
enter_vector_cost (some v) core r wide h =
    let entered = record core { cpu = record (core.cpu) { pc = v } } in
    ground (arith, consume_cycles_lem 20 entered wide)

service_interrupts_cost :
    (core : Core) (r : ℕ × Core)
    → core.cycles_this_frame < 2 ^ 32
    → service_interrupts core ≡ some r
    → ((r.0 ≡ 0)
        × (r.1.cycles_this_frame ≡ core.cycles_this_frame)
        × (danger r.1.ppu r.1.hung ≤ danger core.ppu core.hung))
      ⊎ ((r.0 ≡ 20)
          × (r.1.cycles_this_frame ≡ u32 (core.cycles_this_frame + 20))
          × (danger r.1.ppu r.1.hung ≤ danger core.ppu core.hung))
unfolding service_interrupts dispatch_interrupt
service_interrupts_cost core r wide h =
    let line = trailing_zeros (pending_interrupts core) in
    ground (
      arith,
      acknowledge-cycles line core,
      acknowledge-danger line core,
      enter_vector_cost (get_elem? vectors line) (acknowledge line core) r,
    )

run_one-Elapses :
    (idle : ℕ) (core : Core)
    → 1 ≤ idle
    → idle ≤ 4
    → core.cycles_this_frame < 2 ^ 32
    → Elapses core (run_one idle core)
unfolding run_one
run_one-Elapses idle core p q wide = (
  if core.cpu.halted then idle else (execute_opcode core).0,
  ground (arith, execute_opcode-Spends core wide),
  ground (arith, execute_opcode-Spends core wide),
  ground (arith, execute_opcode-Spends core wide, consume_cycles_lem idle core wide),
  ground (arith, execute_opcode-Spends core wide, consume_cycles_lem idle core wide),
)

resume-Elapses :
    (idle : ℕ) (core : Core) (r : ℕ × Core)
    → 1 ≤ idle
    → idle ≤ 4
    → core.cycles_this_frame < 2 ^ 32
    → service_interrupts core ≡ some r
    → Elapses core (resume idle r)
unfolding resume
resume-Elapses idle core r p q wide h = elim (service_interrupts_cost core r wide h) [
  | inl e ↦
      let ran = run_one-Elapses idle r.1 p q (omega arith) in
      (ran.0, ran.1, ran.2, ground (arith, ran.3), ground (arith, ran.4))
  | inr e ↦ (20, omega arith, omega arith, ground arith, ground arith)
]

pub advance-Elapses :
    (idle : ℕ) (core after : Core)
    → 1 ≤ idle
    → idle ≤ 4
    → core.cycles_this_frame < 2 ^ 32
    → advance idle core ≡ some after
    → Elapses core after
unfolding advance
advance-Elapses idle core after p q wide h = elim (Option-cases (service_interrupts core)) [
  | inl e ↦ cc (ap (Option.map (resume idle)) e)
  | inr (r, e) ↦
      let same : resume idle r ≡ after = cc (ap (Option.map (resume idle)) e) in
      subst (Elapses core) same (resume-Elapses idle core r p q wide e)
]

-- The difference that the loop computes is the number of cycles that went by.
pub elapsed-bounds :
    (core after : Core)
    → core.cycles_this_frame < 2 ^ 32
    → Elapses core after
    → let delta = sub_u32 after.cycles_this_frame core.cycles_this_frame in
      (1 ≤ delta) × (delta ≤ 24) × (after.cycles_this_frame < 2 ^ 32)
elapsed-bounds core after wide spent =
    (omega (arith, spent.3), omega (arith, spent.3), omega (arith, spent.3))
