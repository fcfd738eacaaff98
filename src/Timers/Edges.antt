-- ===== src/Timers/Edges.antt =====
-- The counting of timers.rs: TIMA ticks on the falling edges of one bit of the divider counter,
-- that is, each time that the counter passes a multiple of the period.
use gbx.Prelude.{ℕ, zero, suc, ◌+◌, ◌-◌, ◌*◌, ◌/◌, ◌%◌, ◌^◌, ◌≤◌, ◌<◌, min, ◌≡◌, ◌⊎◌, inl, inr}
use gbx.Prelude.{
  Bool, true, false, not, ◌==◌, ltb, is_set, bit_and, if◌then◌else◌, refl, sym, arith, u16, u8,
  not_u16, bit_or, ap, ◌∙◌,
}
use gbx.Prelude.Bits.{bit, bit-bit_and, bit_and-two-pow}
use mathlib.Core.Path.{subst}
use gbx.Io
use gbx.Io.{tac_index, tima_index, div_index}
use gbx.Bus.{Bus}
use gbx.Timers.{Timers, TimaState, tac_trigger_bit, is_triggered, increment_tima, increment_div}
use gbx.Timers.{apply_div_increment, step_round, step_loop, advance_tima_state, advance_state}

-- The cycles between two ticks: 1024, 16, 64 or 256.
abbrev pub period : ℕ → ℕ
period tac = 2 * tac_trigger_bit tac

-- Whether the counter passes a multiple of the period.
abbrev pub passes : ℕ → ℕ → ℕ → Bool
passes p old delta = not (old / p == (old + delta) / p)

falling :
    (k old new : ℕ)
    → bit_and (bit_and old (not_u16 new)) (2 ^ k) ≡ min (bit k old) (bit k (65535 - new)) * 2 ^ k
falling k old new =
    bit_and-two-pow k (bit_and old (65535 - new))
    ∙ ap (λ t. t * 2 ^ k) (bit-bit_and k old (65535 - new))

pub trigger_cases :
    (tac : ℕ)
    → (tac_trigger_bit tac ≡ 512)
      ⊎ (tac_trigger_bit tac ≡ 8)
      ⊎ (tac_trigger_bit tac ≡ 32)
      ⊎ (tac_trigger_bit tac ≡ 128)
unfolding tac_trigger_bit
trigger_cases tac = ground arith

-- A falling edge of the selected bit is a pass of the period.
pub edge :
    (tac old delta : ℕ)
    → old < 65536
    → 0 < delta
    → delta ≤ 4
    → is_set (bit_and (bit_and old (not_u16 (u16 (old + delta)))) (tac_trigger_bit tac))
      ≡ passes (period tac) old delta
edge tac old delta byte some_step small = elim (trigger_cases tac) [
  | inl e ↦ rw e (ground (arith, falling 9 old (u16 (old + delta))))
  | inr (inl e) ↦ rw e (ground (arith, falling 3 old (u16 (old + delta))))
  | inr (inr (inl e)) ↦ rw e (ground (arith, falling 5 old (u16 (old + delta))))
  | inr (inr (inr e)) ↦ rw e (ground (arith, falling 7 old (u16 (old + delta))))
]

-- The ticks of TIMA while the counter goes from `old` on by `n`.
abbrev pub ticks : ℕ → ℕ → ℕ → ℕ
ticks p old n = (old + n) / p - old / p

-- The timer is enabled and counts, with no reload going on.
pub record IsCounting (t : Timers) (bus : Bus) : Type 0 where
  pub running : t.tima_state ≡ TimaState.running
  pub enabled : is_set (bit_and (Io.tac bus.io) 0x04) ≡ true
  pub counter_in : t.div_counter < 65536

-- After `n` cycles with no overflow of TIMA.
pub record IsCounted (n : ℕ) (t : Timers) (bus : Bus) (t' : Timers) (bus' : Bus) : Type 0 where
  pub counting : IsCounting t' bus'
  pub counter : t'.div_counter ≡ (t.div_counter + n) % 65536
  pub same_tac : bus'.io.regs tac_index ≡ bus.io.regs tac_index
  pub tima :
      bus'.io.regs tima_index
      ≡ bus.io.regs tima_index + ticks (period (Io.tac bus.io)) t.div_counter n

-- The effect of an increment of the divider on what the counting reads.
pub increment_div_lem :
    (n : ℕ) (t : Timers) (bus : Bus)
    → let hit = is_triggered (Io.tac bus.io) t.div_counter (u16 (t.div_counter + n)) in
      let tima = bus.io.regs tima_index in
      let r = increment_div n t bus in
      (r.0.div_counter ≡ u16 (t.div_counter + n))
      × (r.1.io.regs tac_index ≡ bus.io.regs tac_index)
      × (r.1.io.regs tima_index
          ≡ (if hit then (if tima == 0xFF then 0 else u8 (tima + 1)) else tima))
      × (r.0.tima_state ≡ (
          if hit
          then (if tima == 0xFF then TimaState.overflow_pending else t.tima_state)
          else t.tima_state))
      × (r.1.io.regs div_index ≡ u8 (u16 (t.div_counter + n) / 256))
unfolding increment_div increment_tima Io.tac Io.set_div Io.tima Io.set_tima Io.tma
increment_div_lem n t bus = ground arith

pub runs :
    (n : ℕ) (t : Timers) (bus : Bus)
    → t.tima_state ≡ TimaState.running
    → advance_tima_state n t bus ≡ (t, bus)
unfolding advance_tima_state advance_state
runs n t bus e = ap (λ s. advance_state s n t bus) e

pub triggered :
    (n : ℕ) (t : Timers) (bus : Bus)
    → IsCounting t bus
    → 0 < n
    → n ≤ 4
    → is_triggered (Io.tac bus.io) t.div_counter (u16 (t.div_counter + n))
      ≡ passes (period (Io.tac bus.io)) t.div_counter n
unfolding is_triggered
triggered n t bus c pos small =
    rw c.enabled (edge (Io.tac bus.io) t.div_counter n c.counter_in pos small)

pub tac_of :
    (before after : Bus)
    → after.io.regs tac_index ≡ before.io.regs tac_index
    → Io.tac after.io ≡ Io.tac before.io
unfolding Io.tac
tac_of before after e = ap (λ v. bit_or v 0xF8) e

-- In at most four cycles there is one tick if the counter passes a multiple, and none if not.
ticks_of_pass :
    (tac old n : ℕ)
    → n ≤ 4
    → ticks (period tac) old n ≡ (if passes (period tac) old n then 1 else 0)
ticks_of_pass tac old n small = elim (trigger_cases tac) [
  | inl e ↦ rw e (ground arith)
  | inr (inl e) ↦ rw e (ground arith)
  | inr (inr (inl e)) ↦ rw e (ground arith)
  | inr (inr (inr e)) ↦ rw e (ground arith)
]

step_round-IsCounted :
    (n : ℕ) (t : Timers) (bus : Bus)
    → IsCounting t bus
    → 0 < n
    → n ≤ 4
    → bus.io.regs tima_index + ticks (period (Io.tac bus.io)) t.div_counter n < 256
    → let r = step_round n t bus in IsCounted n t bus r.0 r.1
unfolding step_round apply_div_increment
step_round-IsCounted n t bus c pos small fits =
    let tac = Io.tac bus.io in
    let facts = increment_div_lem n t bus in
    let hit = triggered n t bus c pos small in
    let one = ticks_of_pass tac t.div_counter n small in
    let same = tac_of bus (increment_div n t bus).1 facts.1 in
    let moves : (n == 0) ≡ false = ground arith in
    rw (runs n t bus c.running, moves)
      (record {
        counting = record {
          running = ground (arith, facts, hit, one, c.running);
          enabled = rw same c.enabled;
          counter_in = omega (arith, facts.0);
        };
        counter = facts.0;
        same_tac = facts.1;
        tima = ground (arith, facts, hit, one);
      })

ticks_step :
    (tac old m n : ℕ)
    → ticks (period tac) old (m + n)
      ≡ ticks (period tac) old m + ticks (period tac) (u16 (old + m)) n
ticks_step tac old m n = elim (trigger_cases tac) [
  | inl e ↦ rw e (ground arith)
  | inr (inl e) ↦ rw e (ground arith)
  | inr (inr (inl e)) ↦ rw e (ground arith)
  | inr (inr (inr e)) ↦ rw e (ground arith)
]

add_up : (a b c x y z s : ℕ) → b ≡ a + x → c ≡ b + y → y ≡ z → s ≡ x + z → c ≡ a + s
add_up a b c x y z s p q r e = omega arith

-- A first stretch of `m` cycles and then `n` more are `m + n` cycles.
join_IsCounted :
    (m n : ℕ) (t : Timers) (bus : Bus) (t₁ : Timers) (bus₁ : Bus) (t₂ : Timers) (bus₂ : Bus)
    → IsCounted m t bus t₁ bus₁
    → IsCounted n t₁ bus₁ t₂ bus₂
    → (k : ℕ) → m + n ≡ k
    → IsCounted k t bus t₂ bus₂
join_IsCounted m n t bus t₁ bus₁ t₂ bus₂ fst snd k whole =
    let same = tac_of bus bus₁ fst.same_tac in
    let tail = ap (λ v. ticks (period v) t₁.div_counter n) same in
    let from_there = ap (λ v. ticks (period (Io.tac bus.io)) v n) fst.counter in
    let sum =
      ap (ticks (period (Io.tac bus.io)) t.div_counter) (sym whole)
      ∙ ticks_step (Io.tac bus.io) t.div_counter m n in
    record {
      counting = snd.counting;
      counter = ground (arith, snd.counter, fst.counter, whole);
      same_tac = snd.same_tac ∙ fst.same_tac;
      tima = add_up _ _ _ _ _ _ _ fst.tima snd.tima (tail ∙ from_there) sum;
    }

within : (a s x y : ℕ) → s ≡ x + y → a + s < 256 → a + x < 256
within a s x y e h = omega arith

within_rest : (a b s x y z : ℕ) → s ≡ x + z → b ≡ a + x → y ≡ z → a + s < 256 → b + y < 256
within_rest a b s x y z e q r h = omega arith

no_ticks : (p old : ℕ) → ticks p old 0 ≡ 0
no_ticks p old =
    let same : old + 0 ≡ old = omega arith in ap (λ v. v / p - old / p) same ∙ omega arith

add_none : (a x : ℕ) → x ≡ 0 → a ≡ a + x
add_none a x e = omega arith

idle_IsCounted : (t : Timers) (bus : Bus) → IsCounting t bus → IsCounted 0 t bus t bus
idle_IsCounted t bus c = record {
  counting = c;
  counter = ground (arith, c.counter_in);
  same_tac = refl;
  tima = add_none _ _ (no_ticks (period (Io.tac bus.io)) t.div_counter);
}

loop_round :
    (fuel n : ℕ) (t : Timers) (bus : Bus)
    → 0 < n
    → step_loop (suc fuel) n t bus
      ≡ (let r = step_round (min n 4) t bus in step_loop fuel (n - min n 4) r.0 r.1)
unfolding step_loop
loop_round fuel n t bus pos = let on : ltb 0 n ≡ true = ground arith in rw (on, step_loop) refl

loop_stops : (fuel : ℕ) (t : Timers) (bus : Bus) → step_loop fuel 0 t bus ≡ (t, bus)
unfolding step_loop
loop_stops zero t bus = refl
loop_stops (suc fuel) t bus = refl

-- A running, enabled timer, given no more cycles than fuel and few enough that TIMA does not
-- overflow, adds to TIMA the number of multiples of its period that the divider counter passes;
-- the divider counter goes on modulo 2¹⁶, TAC is as before, and the timer still counts.
pub step_loop-IsCounted :
    (fuel n : ℕ) (t : Timers) (bus : Bus)
    → n ≤ fuel
    → IsCounting t bus
    → bus.io.regs tima_index + ticks (period (Io.tac bus.io)) t.div_counter n < 256
    → let r = step_loop fuel n t bus in IsCounted n t bus r.0 r.1
step_loop-IsCounted fuel zero t bus h c fits =
    subst (λ r. IsCounted 0 t bus r.0 r.1) (sym (loop_stops fuel t bus)) (idle_IsCounted t bus c)
step_loop-IsCounted zero (suc n) t bus h c fits = absurd (omega arith)
step_loop-IsCounted (suc fuel) (suc n) t bus h c fits =
    let m = min (suc n) 4 in
    let rest = suc n - m in
    let p = period (Io.tac bus.io) in
    let whole : m + rest ≡ suc n = ground arith in
    let sum =
      ap (ticks p t.div_counter) (sym whole) ∙ ticks_step (Io.tac bus.io) t.div_counter m rest in
    let r = step_round m t bus in
    let fst =
      step_round-IsCounted m t bus c (ground arith) (ground arith) (within _ _ _ _ sum fits) in
    let eq = tac_of bus r.1 fst.same_tac in
    let more =
      ap (λ v. ticks (period v) r.0.div_counter rest) eq ∙ ap (λ v. ticks p v rest) fst.counter in
    let snd =
      step_loop-IsCounted fuel rest r.0 r.1 (ground arith) fst.counting
        (within_rest _ _ _ _ _ _ sum fst.tima more fits) in
    subst (λ q. IsCounted (suc n) t bus q.0 q.1) (sym (loop_round fuel (suc n) t bus (omega arith)))
      (join_IsCounted m rest t bus _ _ _ _ fst snd (suc n) whole)
