-- ===== src/Timers/Overflow.antt =====
-- The overflow of TIMA in timers.rs: four cycles with TIMA at 0, then the reload from TMA with
-- the interrupt, then the timer runs on.
use gbx.Prelude.{ℕ, ◌+◌, ◌≤◌, ◌<◌, ◌≡◌, inl, inr}
use gbx.Prelude.{true, false, ◌==◌, is_set, bit_and, refl, sym, arith, u16, bit_or, ap, ◌∙◌}
use mathlib.Core.Path.{subst}
use gbx.Io
use gbx.Io.{tac_index, tima_index, tma_index, if_index}
use gbx.Bus.{Bus}
use gbx.Timers.{Timers, TimaState, is_triggered, increment_tima, increment_div, apply_div_increment}
use gbx.Timers.{step_round, advance_tima_state, advance_state}
use gbx.Prelude.Bits.{bit_and-two-pow, bit-bit_or, bit-bit_and}
use gbx.Timers.Edges.{
  runs, period, passes, tac_of, IsCounting, trigger_cases, triggered, increment_div_lem,
}

-- TIMA has overflowed, and the reload with `value` is `delay` cycles away.
pub record IsPending (delay value : ℕ) (t : Timers) (bus : Bus) : Type 0 where
  pub state : t.tima_state ≡ TimaState.overflow_pending
  pub delay_left : t.reload_delay ≡ delay
  pub reload : t.pending_reload_value ≡ value
  pub cleared : bus.io.regs tima_index ≡ 0

overflows :
    (n : ℕ) (t : Timers) (bus : Bus)
    → is_triggered (Io.tac bus.io) t.div_counter (u16 (t.div_counter + n)) ≡ true
    → bus.io.regs tima_index ≡ 255
    → let r = increment_div n t bus in IsPending 4 (bus.io.regs tma_index) r.0 r.1
unfolding increment_div increment_tima Io.tac Io.set_div Io.tima Io.set_tima Io.tma
overflows n t bus hit full = record {
  state = ground arith;
  delay_left = ground arith;
  reload = ground arith;
  cleared = ground arith;
}

-- No second multiple of the period within twelve cycles.
once :
    (tac old n m : ℕ)
    → n + m ≤ 12
    → passes (period tac) old n ≡ true
    → passes (period tac) (u16 (old + n)) m ≡ false
once tac old n m small = elim (trigger_cases tac) [
  | inl e ↦ rw e (λ h. ground arith)
  | inr (inl e) ↦ rw e (λ h. ground arith)
  | inr (inr (inl e)) ↦ rw e (λ h. ground arith)
  | inr (inr (inr e)) ↦ rw e (λ h. ground arith)
]

once_later :
    (tac old n m : ℕ)
    → n + m ≤ 8
    → passes (period tac) old n ≡ true
    → passes (period tac) (u16 (u16 (old + n) + 4)) m ≡ false
once_later tac old n m small = elim (trigger_cases tac) [
  | inl e ↦ rw e (λ h. ground arith)
  | inr (inl e) ↦ rw e (λ h. ground arith)
  | inr (inr (inl e)) ↦ rw e (λ h. ground arith)
  | inr (inr (inr e)) ↦ rw e (λ h. ground arith)
]

abbrev reload_by : (t : Timers) (bus : Bus) → Timers × Bus
reload_by t bus = (
  record t { reload_delay = 0; tima_state = TimaState.reloading },
  record bus {
    io =
        Io.set_if (Io.set_tima bus.io t.pending_reload_value)
          (bit_or (Io.if_reg (Io.set_tima bus.io t.pending_reload_value)) 0x04);
  },
)

reloads :
    (value : ℕ) (t : Timers) (bus : Bus)
    → IsPending 4 value t bus
    → advance_tima_state 4 t bus ≡ reload_by t bus
unfolding advance_tima_state advance_state
reloads value t bus p = ap (λ s. advance_state s 4 t bus) p.state ∙ go
  where
    go : advance_state TimaState.overflow_pending 4 t bus ≡ reload_by t bus
    go = unfold advance_state in ground (arith, p.delay_left)

-- The interrupt is requested, and TIMA holds `value`.
pub record IsReloaded (value : ℕ) (t : Timers) (bus : Bus) : Type 0 where
  pub state : t.tima_state ≡ TimaState.reloading
  pub loaded : bus.io.regs tima_index ≡ value
  pub requested : bit_and (bus.io.regs if_index) 0x04 ≡ 0x04

-- An increment that does not trigger moves the divider only.
quiet :
    (n : ℕ) (t : Timers) (bus : Bus)
    → is_triggered (Io.tac bus.io) t.div_counter (u16 (t.div_counter + n)) ≡ false
    → let r = increment_div n t bus in
      (r.0.tima_state ≡ t.tima_state)
      × (r.0.div_counter ≡ u16 (t.div_counter + n))
      × (r.1.io.regs tima_index ≡ bus.io.regs tima_index)
      × (r.1.io.regs if_index ≡ bus.io.regs if_index)
      × (r.1.io.regs tac_index ≡ bus.io.regs tac_index)
unfolding increment_div increment_tima Io.tac Io.set_div Io.tima Io.set_tima Io.tma
quiet n t bus e = ground arith

if_bit : (v : ℕ) → bit_and (bit_or (bit_and (bit_or v 0x04) 0x1F) 0xE0) 0x04 ≡ 0x04
if_bit v = omega (
  arith,
  bit_and-two-pow 2 (bit_or (bit_and (bit_or v 4) 31) 224),
  bit-bit_or 2 (bit_and (bit_or v 4) 31) 224,
  bit-bit_and 2 (bit_or v 4) 31,
  bit-bit_or 2 v 4,
)

record IsEnabled (tac : ℕ) (t : Timers) (bus : Bus) : Type 0 where
  same : Io.tac bus.io ≡ tac
  on : is_set (bit_and tac 0x04) ≡ true
  counter_in : t.div_counter < 65536

-- `triggered` whatever the state of the reload.
triggered_lem :
    (n tac : ℕ) (t : Timers) (bus : Bus)
    → IsEnabled tac t bus
    → 0 < n
    → n ≤ 4
    → is_triggered (Io.tac bus.io) t.div_counter (u16 (t.div_counter + n))
      ≡ passes (period tac) t.div_counter n
triggered_lem n tac t bus e pos small =
    triggered n (record t { tima_state = TimaState.running }) bus
      (record { running = refl; enabled = rw e.same e.on; counter_in = e.counter_in }) pos small
    ∙ ap (λ v. passes (period v) t.div_counter n) e.same

-- The first round: TIMA overflows.
first_round :
    (n : ℕ) (t : Timers) (bus : Bus)
    → IsCounting t bus
    → 0 < n
    → n ≤ 4
    → passes (period (Io.tac bus.io)) t.div_counter n ≡ true
    → bus.io.regs tima_index ≡ 255
    → step_round n t bus ≡ increment_div n t bus
unfolding step_round apply_div_increment
first_round n t bus c pos small hit full =
    let moves : (n == 0) ≡ false = ground arith in rw (runs n t bus c.running, moves) refl

-- A round of four cycles after the reload state has advanced to `mid`.
next_round :
    (t : Timers) (bus : Bus) (mid : Timers × Bus)
    → advance_tima_state 4 t bus ≡ mid
    → step_round 4 t bus ≡ increment_div 4 mid.0 mid.1
unfolding step_round apply_div_increment
next_round t bus mid e = ap (λ r. increment_div 4 r.0 r.1) e

reload_by_lem :
    (t : Timers) (bus : Bus)
    → let r = reload_by t bus in
      (r.1.io.regs tima_index ≡ t.pending_reload_value)
      × (bit_and (r.1.io.regs if_index) 0x04 ≡ 0x04)
      × (r.1.io.regs tac_index ≡ bus.io.regs tac_index)
unfolding Io.set_if Io.if_reg Io.set_tima
reload_by_lem t bus = (refl, if_bit (bus.io.regs if_index), refl)

-- Four cycles on, the reload, when the counter passes no multiple.
second_round :
    (tac value : ℕ) (t : Timers) (bus : Bus)
    → IsEnabled tac t bus
    → IsPending 4 value t bus
    → passes (period tac) t.div_counter 4 ≡ false
    → let r = step_round 4 t bus in
      IsReloaded value r.0 r.1 × IsEnabled tac r.0 r.1 × (r.0.div_counter ≡ u16 (t.div_counter + 4))
second_round tac value t bus e p none_passed =
    let mid = reload_by t bus in
    let info = reload_by_lem t bus in
    let enabled : IsEnabled tac mid.0 mid.1 = record {
      same = tac_of bus mid.1 info.2 ∙ e.same;
      on = e.on;
      counter_in = e.counter_in;
    } in
    let kept =
      quiet 4 mid.0 mid.1
        (triggered_lem 4 tac mid.0 mid.1 enabled (omega arith) (omega arith) ∙ none_passed) in
    let after = increment_div 4 mid.0 mid.1 in
    let goes = next_round t bus mid (reloads value t bus p) in
    let state : after.0.tima_state ≡ TimaState.reloading = kept.0 in
    let loaded = kept.2 ∙ info.0 ∙ p.reload in
    let requested = ap (λ v. bit_and v 0x04) kept.3 ∙ info.1 in
    let result : IsReloaded value after.0 after.1 = record {
      state = state;
      loaded = loaded;
      requested = requested;
    } in
    let still : IsEnabled tac after.0 after.1 = record {
      same = tac_of mid.1 after.1 kept.4 ∙ enabled.same;
      on = e.on;
      counter_in = omega (arith, kept.1);
    } in
    subst
      (λ r.
        IsReloaded value r.0 r.1
        × IsEnabled tac r.0 r.1
        × (r.0.div_counter ≡ u16 (t.div_counter + 4)))
      (sym goes) (result, still, kept.1)

runs_again :
    (t : Timers) (bus : Bus)
    → t.tima_state ≡ TimaState.reloading
    → advance_tima_state 4 t bus ≡ (record t { tima_state = TimaState.running }, bus)
unfolding advance_tima_state advance_state
runs_again t bus e = ap (λ s. advance_state s 4 t bus) e

third_round :
    (tac value : ℕ) (t : Timers) (bus : Bus)
    → IsEnabled tac t bus
    → IsReloaded value t bus
    → passes (period tac) t.div_counter 4 ≡ false
    → let r = step_round 4 t bus in
      (r.0.tima_state ≡ TimaState.running) × (r.1.io.regs tima_index ≡ value)
third_round tac value t bus e p none_passed =
    let mid : Timers × Bus = (record t { tima_state = TimaState.running }, bus) in
    let enabled : IsEnabled tac mid.0 mid.1 = record {
      same = e.same;
      on = e.on;
      counter_in = e.counter_in;
    } in
    let kept =
      quiet 4 mid.0 mid.1
        (triggered_lem 4 tac mid.0 mid.1 enabled (omega arith) (omega arith) ∙ none_passed) in
    let goes = next_round t bus mid (runs_again t bus p.state) in
    (
      ap (λ r. r.0.tima_state) goes ∙ kept.0,
      ap (λ r. r.1.io.regs tima_index) goes ∙ kept.2 ∙ p.loaded,
    )

-- When a round of one to four cycles takes the counter of a running, enabled timer past a
-- multiple of the period with TIMA at 255, TIMA is 0 after the round and the reload with TMA is
-- pending; after four cycles more TIMA holds TMA and the timer interrupt is requested, and after
-- another four the timer runs with TIMA as reloaded.
pub step_round_overflows :
    (n : ℕ) (t : Timers) (bus : Bus)
    → IsCounting t bus
    → 0 < n
    → n ≤ 4
    → passes (period (Io.tac bus.io)) t.div_counter n ≡ true
    → bus.io.regs tima_index ≡ 255
    → let r₁ = step_round n t bus in
      let r₂ = step_round 4 r₁.0 r₁.1 in
      let r₃ = step_round 4 r₂.0 r₂.1 in
      let tma = bus.io.regs tma_index in
      IsPending 4 tma r₁.0 r₁.1
      × IsReloaded tma r₂.0 r₂.1
      × (r₃.0.tima_state ≡ TimaState.running)
      × (r₃.1.io.regs tima_index ≡ tma)
step_round_overflows n t bus c pos small hit full =
    let tac = Io.tac bus.io in
    let r₁ = step_round n t bus in
    let goes = first_round n t bus c pos small hit full in
    let facts = increment_div_lem n t bus in
    let pending =
      subst (λ r. IsPending 4 (bus.io.regs tma_index) r.0 r.1) (sym goes)
        (overflows n t bus (triggered n t bus c pos small ∙ hit) full) in
    let counter = ap (λ r. r.0.div_counter) goes ∙ facts.0 in
    let enabled : IsEnabled tac r₁.0 r₁.1 = record {
      same = tac_of bus r₁.1 (ap (λ r. r.1.io.regs tac_index) goes ∙ facts.1);
      on = c.enabled;
      counter_in = omega (arith, counter);
    } in
    let snd =
      second_round tac (bus.io.regs tma_index) r₁.0 r₁.1 enabled pending (
        ap (λ v. passes (period tac) v 4) counter ∙ once tac t.div_counter n 4 (omega arith) hit) in
    let r₂ = step_round 4 r₁.0 r₁.1 in
    let thd = third_round tac (bus.io.regs tma_index) r₂.0 r₂.1 snd.1 snd.0 (
      ap (λ v. passes (period tac) v 4) (snd.2 ∙ ap (λ v. u16 (v + 4)) counter)
      ∙ once_later tac t.div_counter n 4 (omega arith) hit) in
    (pending, snd.0, thd.0, thd.1)
