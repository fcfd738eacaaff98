-- ===== src/Machine/Step/Budget.antt =====
-- `step_cycles` of core.rs ends, and how far it runs past its budget.
use gbx.Prelude.{
  ℕ, zero, suc, ◌+◌, ◌-◌, ◌^◌, ◌≤◌, ◌<◌, min, ◌≡◌, ◌⊎◌, inl, inr, refl, arith, u32, sub_u32,
}
use gbx.Prelude.{
  Bool, true, false, ltb, if◌then◌else◌, some, Bool-cases, Option-cases, sym, ◌∙◌, ap,
}
use mathlib.Core.Path.{subst}
use native.Mathlib.Decide.{dec_le}
use gbx.Ppu.Ends.{is_sound, danger, danger-none, none-danger}
use gbx.Core.{Core}
use gbx.Machine.Step.{advance}
use gbx.Machine.Step.{Outcome, step_loop, step_cycles}
use gbx.Machine.Step.Elapsed.{Elapses, advance-Elapses, elapsed-bounds}

-- No loop of the PPU has hung, and in this state none can.
abbrev Safe : Core → Type 0
Safe core = danger core.ppu core.hung ≡ 0

-- The loop ended by its own test or a `break` after `n` cycles: the budget is used up unless a
-- frame is ready, and exceeded by less than one instruction; no loop within it has hung.
abbrev Ended : ℕ → ℕ → Core → Type 0
Ended total n core = (n < total + 24) × ((total ≤ n) ⊎ (core.ppu.frame_ready ≡ true)) × Safe core

-- How a run of the loop ends: by the panic of an interrupt vector, or as above.
abbrev Ends : ℕ → Outcome → Type 0
Ends total outcome =
    (outcome ≡ Outcome.panicked)
    ⊎ ((n : ℕ) × (after : Core) × (outcome ≡ Outcome.finished n after) × Ended total n after)

step_loop_done :
    (fuel consumed : ℕ) (core : Core)
    → step_loop fuel 0 consumed core ≡ Outcome.finished consumed core
unfolding step_loop
step_loop_done zero consumed core = refl
step_loop_done (suc fuel) consumed core = refl

-- One round that consumes cycles and leaves no frame ready.
step_loop_round :
    (fuel budget consumed : ℕ) (core after : Core)
    → let delta = sub_u32 after.cycles_this_frame core.cycles_this_frame in
      ltb 0 budget ≡ true
      → advance (min budget 4) core ≡ some after
      → 1 ≤ delta
      → step_loop (suc fuel) budget consumed core ≡ (
          if after.ppu.frame_ready
          then Outcome.finished (u32 (consumed + delta)) after
          else step_loop fuel (budget - delta) (u32 (consumed + delta)) after)
unfolding step_loop
step_loop_round fuel budget consumed core after e ran p = ground arith

later :
    (fuel budget consumed : ℕ) (core after : Core) (delta : ℕ)
    → ((b c : ℕ) (k : Core)
        → b ≤ fuel
        → c + b + 24 < 2 ^ 32
        → k.cycles_this_frame < 2 ^ 32
        → Safe k
        → Ends (c + b) (step_loop fuel b c k))
    → budget ≤ suc fuel
    → consumed + budget + 24 < 2 ^ 32
    → 0 < budget
    → 1 ≤ delta
    → delta ≤ 24
    → after.cycles_this_frame < 2 ^ 32
    → after.ppu.frame_ready ≡ false
    → Safe after
    → Ends (consumed + budget) (step_loop fuel (budget - delta) (u32 (consumed + delta)) after)
later fuel budget consumed core after delta rest h fits p low high wide busy safe =
    elim (dec_le budget delta) [
      | yes all ↦
          let used : budget - delta ≡ 0 = omega arith in
          rw (used, small, step_loop_done)
            (inr (consumed + delta, after, refl, (omega arith, inl (omega arith), safe)))
      | no more ↦
          let same : consumed + delta + (budget - delta) ≡ consumed + budget = omega arith in
          rw small (
            subst (λ t. Ends t (step_loop fuel (budget - delta) (consumed + delta) after)) same
              (rest (budget - delta) (consumed + delta) after (omega arith) (omega arith) wide
                safe))
    ]
  where
    small : u32 (consumed + delta) ≡ consumed + delta
    small = omega arith

after_round :
    (fuel budget consumed : ℕ) (core after : Core)
    → ((b c : ℕ) (k : Core)
        → b ≤ fuel
        → c + b + 24 < 2 ^ 32
        → k.cycles_this_frame < 2 ^ 32
        → Safe k
        → Ends (c + b) (step_loop fuel b c k))
    → budget ≤ suc fuel
    → consumed + budget + 24 < 2 ^ 32
    → core.cycles_this_frame < 2 ^ 32
    → Safe core
    → 0 < budget
    → advance (min budget 4) core ≡ some after
    → Ends (consumed + budget) (step_loop (suc fuel) budget consumed core)
after_round fuel budget consumed core after rest h fits wide safe p ran =
    elim (Bool-cases after.ppu.frame_ready) [
      | inl ready ↦ inr (
        u32 (consumed + delta),
        after,
        round true ready,
        (omega (arith, bounds), inr ready, still),
      )
      | inr busy ↦ subst (Ends (consumed + budget)) (sym (round false busy)) (
          later fuel budget consumed core after delta rest h fits p bounds.0 bounds.1 bounds.2 busy
            still)
    ]
  where
    delta : ℕ
    delta = sub_u32 after.cycles_this_frame core.cycles_this_frame

    spent : Elapses core after
    spent = advance-Elapses (min budget 4) core after (omega arith) (omega arith) wide ran

    still : Safe after
    still = omega (arith, safe, spent.4)

    bounds : (1 ≤ delta) × (delta ≤ 24) × (after.cycles_this_frame < 2 ^ 32)
    bounds = elapsed-bounds core after wide spent

    round :
        (b : Bool)
        → after.ppu.frame_ready ≡ b
        → step_loop (suc fuel) budget consumed core ≡ (
            if b
            then Outcome.finished (u32 (consumed + delta)) after
            else step_loop fuel (budget - delta) (u32 (consumed + delta)) after)
    round b e =
        step_loop_round fuel budget consumed core after (ground arith) ran bounds.0
        ∙ ap
            (λ t.
              if t
              then Outcome.finished (u32 (consumed + delta)) after
              else step_loop fuel (budget - delta) (u32 (consumed + delta)) after)
            e

step_loop-Ends :
    (fuel budget consumed : ℕ) (core : Core)
    → budget ≤ fuel
    → consumed + budget + 24 < 2 ^ 32
    → core.cycles_this_frame < 2 ^ 32
    → Safe core
    → Ends (consumed + budget) (step_loop fuel budget consumed core)
step_loop-Ends zero budget consumed core h fits wide safe =
    inr (consumed, core, unfold step_loop in ground arith, (omega arith, inl (omega arith), safe))
step_loop-Ends (suc fuel) budget consumed core h fits wide safe = elim (Bool-cases (ltb 0 budget)) [
  | inr e ↦
      inr
        (consumed, core, unfold step_loop in ground arith, (omega arith, inl (ground arith), safe))
  | inl e ↦ elim (Option-cases (advance (min budget 4) core)) [
    | inl panics ↦ inl (unfold step_loop in ground arith)
    | inr (after, ran) ↦
        after_round fuel budget consumed core after (step_loop-Ends fuel) h fits wide safe
          (ground arith) ran
  ]
]

-- For a budget that leaves room for 24 cycles in 32 bits, a frame counter of 32 bits, and a PPU
-- that is stopped or in a valid state, `step_cycles` with the budget as its fuel ends: by the panic
-- of an interrupt vector out of range, or with the budget used up or a frame ready. The count
-- returned is then less than the budget and one longest instruction of 24 cycles, no loop of the
-- PPU within it has hung, and the PPU is again stopped or in a valid state.
pub step_cycles_ends :
    (budget : ℕ) (core : Core)
    → budget + 24 < 2 ^ 32
    → core.cycles_this_frame < 2 ^ 32
    → core.hung ≡ false
    → is_sound core.ppu ≡ true
    → (step_cycles budget core ≡ Outcome.panicked)
      ⊎ ((n : ℕ) × (after : Core) × (step_cycles budget core ≡ Outcome.finished n after)
          × (n < budget + 24)
          × ((budget ≤ n) ⊎ (after.ppu.frame_ready ≡ true))
          × (after.hung ≡ false)
          × (is_sound after.ppu ≡ true))
unfolding step_cycles
step_cycles_ends budget core fits wide runs sound =
    let safe = none-danger core.ppu core.hung runs sound in
    elim (step_loop-Ends budget budget 0 core (omega arith) (omega arith) wide safe) [
      | inl panics ↦ inl panics
      | inr (n, after, e, bounds) ↦
          let free = danger-none after.ppu after.hung bounds.2 in
          inr (n, after, e, omega arith, ground (arith, bounds), free.0, free.1)
    ]
