-- ===== src/Instr/Bits/Laws.antt =====
-- The rotates and shifts of instr.rs against their arithmetic: nine bits, the carry with the
-- byte, move by one place.
use gbx.Prelude.{ℕ, ◌+◌, ◌*◌, ◌/◌, ◌%◌, ◌<◌, ◌≡◌, refl}
use gbx.Prelude.{Bool, true, false, ◌&&◌, ◌==◌, if◌then◌else◌, from_bool}
use gbx.Prelude.{all_below, all_below_sound, pair_of_tests}
use gbx.Instr.Bits.{cb_rotate, cb_rlc, cb_rrc, cb_rl, cb_rr, cb_sla, cb_sra, cb_swap, cb_srl}

-- The result and the carry of each form, on the byte `v` with the carry `c`.
abbrev pub rotated : ℕ → ℕ → ℕ → ℕ × ℕ
rotated variant v c =
    if variant == 0
    then (v * 2 % 256 + v / 128, v / 128)
    else if variant == 1
    then (v / 2 + v % 2 * 128, v % 2)
    else if variant == 2
    then (v * 2 % 256 + c, v / 128)
    else if variant == 3
    then (v / 2 + c * 128, v % 2)
    else if variant == 4
    then (v * 2 % 256, v / 128)
    else if variant == 5
    then (v / 2 + v / 128 * 128, v % 2)
    else if variant == 6
    then (v % 16 * 16 + v / 16, 0)
    else (v / 2, v % 2)

agrees : Bool → ℕ → ℕ → Bool
agrees carry variant v =
    let r = cb_rotate variant v carry in
    let e = rotated variant v (from_bool carry) in r.0 == e.0 && from_bool r.1 == e.1

table : (carry : Bool) → all_below 8 (λ variant. all_below 256 (λ v. agrees carry variant v)) ≡ true
unfolding all_below agrees cb_rotate cb_rlc cb_rrc cb_rl cb_rr cb_sla cb_sra cb_swap cb_srl
table true = refl
table false = refl

-- On a byte, each of the eight CB rotates and shifts gives the byte and the carry of its
-- arithmetic.
pub cb_rotate_lem :
    (variant v : ℕ) (carry : Bool)
    → variant < 8
    → v < 256
    → let r = cb_rotate variant v carry in
      (r.0, from_bool r.1) ≡ rotated variant v (from_bool carry)
unfolding agrees
cb_rotate_lem variant v carry p q =
    let hit : agrees carry variant v ≡ true =
      all_below_sound 256 _ v (all_below_sound 8 _ variant (table carry) p) q in
    pair_of_tests _ _ _ _ hit
