-- ===== src/Machine/Step.antt =====
-- `service_interrupts`, `step_instruction` and `step_cycles` of core.rs.
pub mod Interrupts
pub mod Elapsed
pub mod Budget
use gbx.Prelude.{ℕ, zero, suc, ◌+◌, ◌-◌, ◌*◌, ◌^◌, ◌%◌, min, bit_and, not_u8, u32, sub_u32, ◌<<<◌}
use gbx.Prelude.{Bool, true, false, ◌==◌, ltb, if◌then◌else◌, Option, none, some, is_set}
use gbx.Prelude.{List, [], ◌∷◌, get_elem?}
use mathlib.Core.Option
use gbx.Io
use gbx.Ppu
use gbx.Core.{Core, M, consume_cycles, push16}
use gbx.Machine.Execute.{execute_opcode}

-- `u8::trailing_zeros`; a byte of zero has eight.
unfoldable pub trailing_zeros : ℕ → ℕ
trailing_zeros v =
    if is_set (bit_and v 0x01)
    then 0
    else if is_set (bit_and v 0x02)
    then 1
    else if is_set (bit_and v 0x04)
    then 2
    else if is_set (bit_and v 0x08)
    then 3
    else if is_set (bit_and v 0x10)
    then 4
    else if is_set (bit_and v 0x20)
    then 5
    else if is_set (bit_and v 0x40)
    then 6
    else if is_set (bit_and v 0x80)
    then 7
    else 8

abbrev pub vectors : List ℕ
vectors = 0x40 ∷ 0x48 ∷ 0x50 ∷ 0x58 ∷ 0x60 ∷ []

-- The pending interrupts: `read_ie() & read_if()`.
unfoldable pub pending_interrupts : Core → ℕ
pending_interrupts core = bit_and core.bus.ie (Io.if_reg core.bus.io)

-- The state when interrupt `line` is taken, up to the read of its vector.
unfoldable pub acknowledge : ℕ → Core → Core
acknowledge line core =
    let cpu = record (core.cpu) { halted = false; ime = false } in
    let if_reg = bit_and (Io.if_reg core.bus.io) (not_u8 (1 <<< line)) in
    let bus = record (core.bus) { io = Io.set_if core.bus.io if_reg } in
    (push16 cpu.pc (record core { cpu = cpu; bus = bus })).1

-- The jump to a vector; `none` is the panic of `VECTORS[bit]`.
unfoldable pub enter_vector : Option ℕ → Core → Option (ℕ × Core)
enter_vector none core = none
enter_vector (some vector) core =
    some (20, (consume_cycles 20 (record core { cpu = record (core.cpu) { pc = vector } })).1)

-- The branch of an enabled interrupt.
unfoldable pub dispatch_interrupt : ℕ → Core → Option (ℕ × Core)
unfolding enter_vector
dispatch_interrupt line core = enter_vector (get_elem? vectors line) (acknowledge line core)

-- `service_interrupts`: the cycles that it took, and the core.
unfoldable pub service_interrupts : Core → Option (ℕ × Core)
service_interrupts core =
    let pending = pending_interrupts core in
    if pending == 0
    then some (0, core)
    else if core.cpu.ime
    then dispatch_interrupt (trailing_zeros pending) core
    else some (0, record core { cpu = record (core.cpu) { halted = false } })

-- What one step does when no interrupt is taken; `idle` is the cycles of a halted step.
unfoldable pub run_one : ℕ → Core → Core
run_one idle core =
    if core.cpu.halted then (consume_cycles idle core).1 else (execute_opcode core).1

unfoldable pub resume : ℕ → ℕ × Core → Core
resume idle r = if r.0 == 0 then run_one idle r.1 else r.1

unfoldable pub advance : ℕ → Core → Option Core
advance idle core = Option.map (resume idle) (service_interrupts core)

-- `step_instruction`: the cycles and the program counter, with the core.
unfoldable pub instruction_result : Core → Core → ℕ × ℕ × Core
instruction_result core after =
    let cycles = sub_u32 after.cycles_this_frame core.cycles_this_frame in
    (cycles, (if cycles == 0 then core.cpu.pc else after.cpu.pc), after)

unfoldable pub step_instruction : Core → Option (ℕ × ℕ × Core)
unfolding instruction_result
step_instruction core = Option.map (instruction_result core) (advance 4 core)

-- How the loop of `step_cycles` ended, with the cycles consumed: by its own test or a `break`,
-- by the panic, or by the end of the fuel.
pub data Outcome : Type 0 where
  finished : ℕ → Core → Outcome
  panicked out_of_fuel : Outcome

-- `while budget > 0`, on fuel: a round that consumes nothing breaks.
unfoldable pub step_loop : ℕ → ℕ → ℕ → Core → Outcome
step_loop zero budget consumed core =
    if budget == 0 then Outcome.finished consumed core else Outcome.out_of_fuel
step_loop (suc fuel) budget consumed core = elim (ltb 0 budget) [
  | false ↦ Outcome.finished consumed core
  | true ↦ elim (advance (min budget 4) core) [
    | none ↦ Outcome.panicked
    | some after ↦
        let delta = sub_u32 after.cycles_this_frame core.cycles_this_frame in
        elim (delta == 0) [
          | true ↦ Outcome.finished consumed after
          | false ↦ elim after.ppu.frame_ready [
            | true ↦ Outcome.finished (u32 (consumed + delta)) after
            | false ↦ step_loop fuel (budget - delta) (u32 (consumed + delta)) after
          ]
        ]
  ]
]

unfoldable pub step_cycles : ℕ → Core → Outcome
step_cycles budget core = step_loop budget budget 0 core
