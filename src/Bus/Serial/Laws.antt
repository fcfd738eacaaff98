-- ===== src/Bus/Serial/Laws.antt =====
-- The serial link of bus.rs over a span of time: it may be clocked in one call or in several.
use gbx.Prelude.{ℕ, zero, suc, ◌+◌, ◌-◌, ◌≤◌, ◌<◌, ◌≡◌, inl, inr, refl, sym, ap, ◌∙◌, arith}
use gbx.Prelude.{Bool, true, false, not, ◌&&◌, ◌||◌, ◌==◌, leb, ltb, if◌then◌else◌, Bool-cases}
use gbx.Bus.{Bus, reset_serial_state}
use gbx.Bus.Serial.{tick, clock_serial_bit, finish_serial_transfer, advance_loop, advance_serial}

-- A bit leaves the clock source as it is.
clock_serial_bit-clock :
    (bus : Bus) → (clock_serial_bit bus).serial_internal_clock ≡ bus.serial_internal_clock
unfolding clock_serial_bit finish_serial_transfer reset_serial_state
clock_serial_bit-clock bus = ground arith

-- The cycles to the next bit.
abbrev until_bit : Bus → ℕ
until_bit bus = if bus.serial_counter == 0 then 512 else bus.serial_counter

until_bit_pos : (bus : Bus) → 0 < until_bit bus
until_bit_pos bus = ground arith

tick_reaches :
    (cycles : ℕ) (bus : Bus)
    → until_bit bus ≤ cycles
    → tick cycles bus
      ≡ (cycles - until_bit bus, clock_serial_bit (record bus { serial_counter = 0 }))
unfolding tick
tick_reaches cycles bus h = let on : leb (until_bit bus) cycles ≡ true = ground arith in rw on refl

tick_short :
    (cycles : ℕ) (bus : Bus)
    → cycles < until_bit bus
    → tick cycles bus ≡ (0, record bus { serial_counter = until_bit bus - cycles })
unfolding tick
tick_short cycles bus h = let off : leb (until_bit bus) cycles ≡ false = ground arith in rw off refl

-- The loop by its test, which is an argument here.
abbrev chosen : Bool → ℕ → ℕ → Bus → ℕ × Bus
chosen on fuel cycles bus = elim on [
  | true ↦ advance_loop fuel (tick cycles bus).0 (tick cycles bus).1
  | false ↦ (cycles, bus)
]

loop_test :
    (fuel cycles : ℕ) (bus : Bus) (on : Bool)
    → (bus.serial_active && ltb 0 cycles) ≡ on
    → advance_loop (suc fuel) cycles bus ≡ chosen on fuel cycles bus
unfolding advance_loop
loop_test fuel cycles bus on e = ap (λ b. chosen b fuel cycles bus) e

loop_ends :
    (fuel cycles : ℕ) (bus : Bus)
    → (bus.serial_active && ltb 0 cycles) ≡ false
    → advance_loop fuel cycles bus ≡ (cycles, bus)
loop_ends zero cycles bus e = unfold advance_loop in refl
loop_ends (suc fuel) cycles bus e = loop_test fuel cycles bus false e

loop_round :
    (fuel cycles : ℕ) (bus : Bus)
    → bus.serial_active ≡ true
    → 0 < cycles
    → advance_loop (suc fuel) cycles bus ≡ advance_loop fuel (tick cycles bus).0 (tick cycles bus).1
loop_round fuel cycles bus h pos = loop_test fuel cycles bus true (ground arith)

tick_left : (cycles : ℕ) (bus : Bus) → 0 < cycles → (tick cycles bus).0 < cycles
unfolding tick
tick_left cycles bus h = ground arith

-- The state after a stretch that ends before the next bit.
abbrev waits : Bus → ℕ → Bus
waits bus m = record bus { serial_counter = until_bit bus - m }

waits_until : (m : ℕ) (bus : Bus) → m < until_bit bus → until_bit (waits bus m) ≡ until_bit bus - m
waits_until m bus h = ground arith

tick-waits : (m n : ℕ) (bus : Bus) → m < until_bit bus → tick n (waits bus m) ≡ tick (m + n) bus
tick-waits m n bus h = elim (Bool-cases (leb (until_bit bus) (m + n))) [
  | inl e ↦
      tick_reaches n (waits bus m) (ground (arith, waits_until m bus h))
      ∙ ap (λ k. (k, clock_serial_bit (record bus { serial_counter = 0 })))
          (ground (arith, waits_until m bus h))
      ∙ sym (tick_reaches (m + n) bus (ground arith))
  | inr e ↦
      tick_short n (waits bus m) (ground (arith, waits_until m bus h))
      ∙ ap (λ k. (0, record bus { serial_counter = k })) (ground (arith, waits_until m bus h))
      ∙ sym (tick_short (m + n) bus (ground arith))
]

-- More fuel than cycles changes nothing.
loop_fuel :
    (f g cycles : ℕ) (bus : Bus)
    → cycles ≤ f
    → cycles ≤ g
    → advance_loop f cycles bus ≡ advance_loop g cycles bus
loop_fuel zero g cycles bus p q =
    loop_ends zero cycles bus (ground arith) ∙ sym (loop_ends g cycles bus (ground arith))
loop_fuel (suc f) zero cycles bus p q =
    loop_ends (suc f) cycles bus (ground arith) ∙ sym (loop_ends zero cycles bus (ground arith))
loop_fuel (suc f) (suc g) cycles bus p q = elim (Bool-cases (bus.serial_active && ltb 0 cycles)) [
  | inr e ↦ loop_ends (suc f) cycles bus e ∙ sym (loop_ends (suc g) cycles bus e)
  | inl e ↦
      let less = tick_left cycles bus (ground arith) in
      loop_test f cycles bus true e
      ∙ loop_fuel f g (tick cycles bus).0 (tick cycles bus).1 (omega arith) (omega arith)
      ∙ sym (loop_test g cycles bus true e)
]

-- A round, whatever the fuel that is enough.
loop_from_tick :
    (f g cycles : ℕ) (bus : Bus)
    → bus.serial_active ≡ true
    → 0 < cycles
    → cycles ≤ f
    → (tick cycles bus).0 ≤ g
    → advance_loop f cycles bus ≡ advance_loop g (tick cycles bus).0 (tick cycles bus).1
loop_from_tick zero g cycles bus on pos p q = absurd (omega arith)
loop_from_tick (suc f) g cycles bus on pos p q =
    let less = tick_left cycles bus pos in
    loop_round f cycles bus on pos
    ∙ loop_fuel f g (tick cycles bus).0 (tick cycles bus).1 (omega arith) q

-- A stretch that ends before the next bit, and then `n` cycles more.
loop_waits :
    (f g m n t : ℕ) (bus : Bus)
    → t ≡ m + n
    → t ≤ f
    → n ≤ g
    → bus.serial_active ≡ true
    → 0 < m
    → m < until_bit bus
    → (advance_loop f t bus).1 ≡ (advance_loop g n (waits bus m)).1
loop_waits f g m zero t bus e p q on pos short =
    let ticked = tick_short t bus (omega arith) in
    let same : t ≡ m = omega arith in
    let left : (tick t bus).0 ≡ 0 = ap (λ r. r.0) ticked in
    ap (λ r. r.1)
      (loop_from_tick f 0 t bus on (omega arith) p (omega arith)
        ∙ ap (λ r. advance_loop 0 r.0 r.1) ticked
        ∙ loop_ends 0 0 (record bus { serial_counter = until_bit bus - t }) (ground arith))
    ∙ ap (λ k. record bus { serial_counter = until_bit bus - k }) same
    ∙ sym (ap (λ r. r.1) (loop_ends g 0 (waits bus m) (ground arith)))
loop_waits f g m (suc n) t bus e p q on pos short =
    let same = tick-waits m (suc n) bus short ∙ ap (λ k. tick k bus) (sym e) in
    let less = tick_left (suc n) (waits bus m) (omega arith) in
    let left = ap (λ r. r.0) same in
    ap (λ r. r.1)
      (loop_from_tick f n t bus on (omega arith) p (omega arith)
        ∙ sym (ap (λ r. advance_loop n r.0 r.1) same)
        ∙ sym (loop_from_tick g n (suc n) (waits bus m) on (omega arith) q (omega arith)))

-- A first stretch in which the loop does nothing.
loop_unmoved :
    (g k m n t : ℕ) (bus : Bus)
    → t ≡ m + n
    → n ≤ g
    → t ≤ k
    → (bus.serial_active && ltb 0 m) ≡ false
    → (advance_loop k t bus).1 ≡ (advance_loop g n bus).1
loop_unmoved g k m n t bus e q r off = elim (Bool-cases bus.serial_active) [
  | inr idle ↦
      ap (λ b. b.1) (loop_ends k t bus (ground arith))
      ∙ sym (ap (λ b. b.1) (loop_ends g n bus (ground arith)))
  | inl on ↦
      let none_left : m ≡ 0 = ground arith in
      let same : t ≡ n = omega arith in
      ap (λ b. b.1) (ap (λ c. advance_loop k c bus) same ∙ loop_fuel k g n bus (omega arith) q)
]

-- The loop over `m + n` cycles is the loop over `m` and then over `n`.
loop_split :
    (f g k m n t : ℕ) (bus : Bus)
    → t ≡ m + n
    → m ≤ f
    → n ≤ g
    → t ≤ k
    → (advance_loop k t bus).1 ≡ (advance_loop g n (advance_loop f m bus).1).1
loop_split zero g k m n t bus e p q r =
    loop_unmoved g k m n t bus e q r (ground arith)
    ∙ sym (ap (λ b. (advance_loop g n b.1).1) (loop_ends 0 m bus (ground arith)))
loop_split (suc f) g k m n t bus e p q r = elim (Bool-cases (bus.serial_active && ltb 0 m)) [
  | inr off ↦
      loop_unmoved g k m n t bus e q r off
      ∙ sym (ap (λ b. (advance_loop g n b.1).1) (loop_ends (suc f) m bus off))
  | inl on ↦
      let active : bus.serial_active ≡ true = ground arith in
      let pos : 0 < m = ground arith in
      elim (Bool-cases (leb (until_bit bus) m)) [
        | inl reaches ↦
            let u = until_bit bus in
            let due : u ≤ m = ground arith in
            let some_left = until_bit_pos bus in
            let next = clock_serial_bit (record bus { serial_counter = 0 }) in
            let whole = tick_reaches t bus (omega arith) in
            let part = tick_reaches m bus due in
            let left : (tick t bus).0 ≡ t - u = ap (λ r. r.0) whole in
            ap (λ b. b.1)
              (loop_from_tick k k t bus active (omega arith) r (omega arith)
                ∙ ap (λ c. advance_loop k c.0 c.1) whole)
            ∙ loop_split f g k (m - u) n (t - u) next (omega arith) (omega arith) q (omega arith)
            ∙ sym (
                ap (λ c. (advance_loop g n c.1).1)
                  (loop_round f m bus active pos ∙ ap (λ c. advance_loop f c.0 c.1) part))
        | inr short ↦
            let before : m < until_bit bus = ground arith in
            let rest = tick_short m bus before in
            loop_waits k g m n t bus e r q active pos before
            ∙ sym (
                ap (λ c. (advance_loop g n c.1).1)
                  (loop_round f m bus active pos
                    ∙ ap (λ c. advance_loop f c.0 c.1) rest
                    ∙ loop_ends f 0 (waits bus m) (ground arith)))
      ]
]

tick-clock :
    (cycles : ℕ) (bus : Bus) → (tick cycles bus).1.serial_internal_clock ≡ bus.serial_internal_clock
unfolding tick
tick-clock cycles bus = ground (arith, clock_serial_bit-clock (record bus { serial_counter = 0 }))

loop-clock :
    (fuel cycles : ℕ) (bus : Bus)
    → (advance_loop fuel cycles bus).1.serial_internal_clock ≡ bus.serial_internal_clock
loop-clock zero cycles bus = unfold advance_loop in refl
loop-clock (suc fuel) cycles bus = elim (Bool-cases (bus.serial_active && ltb 0 cycles)) [
  | inr off ↦ ap (λ r. r.1.serial_internal_clock) (loop_ends (suc fuel) cycles bus off)
  | inl on ↦
      ap (λ r. r.1.serial_internal_clock) (loop_test fuel cycles bus true on)
      ∙ loop-clock fuel (tick cycles bus).0 (tick cycles bus).1
      ∙ tick-clock cycles bus
]

pub advance_serial_idle :
    (n : ℕ) (bus : Bus)
    → (not bus.serial_active || not bus.serial_internal_clock) ≡ true
    → advance_serial bus n ≡ bus
unfolding advance_serial
advance_serial_idle n bus e = ap (λ b. if b then bus else (advance_loop n n bus).1) e

advance_serial_loop :
    (n : ℕ) (bus : Bus)
    → bus.serial_internal_clock ≡ true
    → advance_serial bus n ≡ (advance_loop n n bus).1
advance_serial_loop n bus clock = elim (Bool-cases bus.serial_active) [
  | inl on ↦
      let runs : (not bus.serial_active || not bus.serial_internal_clock) ≡ false = ground arith in
      unfold advance_serial in ap (λ b. if b then bus else (advance_loop n n bus).1) runs
  | inr off ↦
      advance_serial_idle n bus (ground arith)
      ∙ sym (ap (λ r. r.1) (loop_ends n n bus (ground arith)))
]

-- The link may be advanced in pieces: `m + n` cycles at once do what `m` and then `n` do.
pub advance_serial-add :
    (m n : ℕ) (bus : Bus) → advance_serial bus (m + n) ≡ advance_serial (advance_serial bus m) n
advance_serial-add m n bus = elim (Bool-cases bus.serial_internal_clock) [
  | inl clock ↦
      advance_serial_loop (m + n) bus clock
      ∙ loop_split m n (m + n) m n (m + n) bus refl (omega arith) (omega arith) (omega arith)
      ∙ sym (advance_serial_loop n (advance_loop m m bus).1 (loop-clock m m bus ∙ clock))
      ∙ ap (λ b. advance_serial b n) (sym (advance_serial_loop m bus clock))
  | inr other ↦
      advance_serial_idle (m + n) bus (ground arith)
      ∙ sym (advance_serial_idle n bus (ground arith))
      ∙ ap (λ b. advance_serial b n) (sym (advance_serial_idle m bus (ground arith)))
]
