-- ===== src/Instr/Alu/Daa.antt =====
-- The decimal adjustment of instr.rs (`op_daa`) after the additions and subtractions.
use gbx.Prelude.{ℕ, ◌+◌, ◌-◌, ◌*◌, ◌/◌, ◌%◌, ◌<◌, ◌≡◌, refl, ap, ◌∙◌, arith}
use gbx.Prelude.{Bool, true, false, not, ◌&&◌, ◌==◌, ltb, if◌then◌else◌, from_bool}
use gbx.Prelude.{all_below, all_below_sound}
use gbx.Exec.{add8, sub8}
use gbx.Cpu.{Cpu}
use gbx.Instr.Alu.{AluOp, alu_result, alu_assign, daa_adjust, daa}

-- The byte that holds the two decimal digits of a number below 100.
abbrev pub bcd : ℕ → ℕ
bcd n = n / 10 * 16 + n % 10

-- Two Booleans agree.
abbrev same : Bool → Bool → Bool
same a b = if a then b else not b

adds_at : Bool → ℕ → ℕ → Bool
adds_at carry x y =
    let r = add8 (bcd x) (bcd y) carry in
    let d = daa_adjust r.0 r.1 in
    let sum = x + y + from_bool carry in d.0 == bcd (sum % 100) && same d.1 (ltb 99 sum)

subs_at : Bool → ℕ → ℕ → Bool
subs_at borrow x y =
    let r = sub8 (bcd x) (bcd y) borrow in
    let d = daa_adjust r.0 r.1 in
    let taken = y + from_bool borrow in
    d.0 == bcd ((x + 100 - taken) % 100) && same d.1 (ltb x taken)

add_table : (carry : Bool) → all_below 100 (λ x. all_below 100 (λ y. adds_at carry x y)) ≡ true
unfolding all_below adds_at add8 daa_adjust
add_table true = refl
add_table false = refl

sub_table : (borrow : Bool) → all_below 100 (λ x. all_below 100 (λ y. subs_at borrow x y)) ≡ true
unfolding all_below subs_at sub8 daa_adjust
sub_table true = refl
sub_table false = refl

of_test : (a b : ℕ) (p q : Bool) → (a == b && same p q) ≡ true → (a ≡ b) × (p ≡ q)
of_test a b true true h = ground arith
of_test a b true false h = ground arith
of_test a b false true h = ground arith
of_test a b false false h = ground arith

daa_add :
    (carry : Bool) (x y : ℕ)
    → x < 100
    → y < 100
    → let r = add8 (bcd x) (bcd y) carry in
      let d = daa_adjust r.0 r.1 in
      let sum = x + y + from_bool carry in (d.0 ≡ bcd (sum % 100)) × (d.1 ≡ ltb 99 sum)
unfolding adds_at
daa_add carry x y p q =
    let hit : adds_at carry x y ≡ true =
      all_below_sound 100 _ y (all_below_sound 100 _ x (add_table carry) p) q in
    of_test _ _ _ _ hit

daa_sub :
    (borrow : Bool) (x y : ℕ)
    → x < 100
    → y < 100
    → let r = sub8 (bcd x) (bcd y) borrow in
      let d = daa_adjust r.0 r.1 in
      let taken = y + from_bool borrow in
      (d.0 ≡ bcd ((x + 100 - taken) % 100)) × (d.1 ≡ ltb x taken)
unfolding subs_at
daa_sub borrow x y p q =
    let hit : subs_at borrow x y ≡ true =
      all_below_sound 100 _ y (all_below_sound 100 _ x (sub_table borrow) p) q in
    of_test _ _ _ _ hit

-- For two numbers below 100 in decimal digits, the first in `A`, ADC and then DAA leave the
-- digits of their sum with the carry modulo 100, and the carry flag says whether it exceeds 99;
-- SBC and then DAA leave the digits of their difference with the borrow modulo 100, and the carry
-- flag says whether it borrows.
pub daa-alu_assign :
    (x y : ℕ) (cpu : Cpu)
    → x < 100
    → y < 100
    → cpu.a ≡ bcd x
    → let sum = x + y + from_bool cpu.f.c in
      let taken = y + from_bool cpu.f.c in
      let added = daa (alu_assign AluOp.adc (bcd y) cpu) in
      let left = daa (alu_assign AluOp.sbc (bcd y) cpu) in
      (added.a ≡ bcd (sum % 100))
      × (added.f.c ≡ ltb 99 sum)
      × (left.a ≡ bcd ((x + 100 - taken) % 100))
      × (left.f.c ≡ ltb x taken)
unfolding daa alu_assign alu_result
daa-alu_assign x y cpu p q e =
    let plus = daa_add cpu.f.c x y p q in
    let minus = daa_sub cpu.f.c x y p q in
    let add_at : ℕ → ℕ × Bool = λ a. let r = add8 a (bcd y) cpu.f.c in daa_adjust r.0 r.1 in
    let sub_at : ℕ → ℕ × Bool = λ a. let r = sub8 a (bcd y) cpu.f.c in daa_adjust r.0 r.1 in
    (
      ap (λ a. (add_at a).0) e ∙ plus.0,
      ap (λ a. (add_at a).1) e ∙ plus.1,
      ap (λ a. (sub_at a).0) e ∙ minus.0,
      ap (λ a. (sub_at a).1) e ∙ minus.1,
    )
