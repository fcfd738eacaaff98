-- ===== src/Instr/Bits.antt =====
-- Rotates, shifts and single bits, of instr.rs: the `A` forms and the CB-prefixed group.
pub mod Laws
use gbx.Prelude.{ℕ, ◌+◌, ◌-◌, ◌*◌, ◌/◌, ◌%◌, ◌^◌, bit_and, bit_or, u8, not_u8, ◌<<<◌, ◌>>>◌}
use gbx.Prelude.{Bool, true, false, ◌==◌, is_set, if◌then◌else◌, from_bool}
use gbx.Exec.{Flags}
use gbx.Cpu
use gbx.Cpu.{Cpu}
use gbx.Core.{Core, M, pure, ◌>>=◌, ◌>>◌, gets, modify}
use gbx.Instr.{read_r8, write_r8}

-- The flags of the four rotates of `A`: all clear but the carry.
abbrev rotated_a : ℕ → Bool → Cpu → Cpu
rotated_a result carry r = record r {
  a = result;
  f = record { z = false; n = false; h = false; c = carry };
}

unfoldable pub rlca : Cpu → Cpu
rlca r = let carry = r.a >>> 7 in rotated_a (bit_or (u8 (r.a <<< 1)) carry) (is_set carry) r

unfoldable pub rla : Cpu → Cpu
rla r = rotated_a (bit_or (u8 (r.a <<< 1)) (from_bool r.f.c)) (is_set (r.a >>> 7)) r

unfoldable pub rrca : Cpu → Cpu
rrca r =
    let carry = bit_and r.a 0x01 in
    rotated_a (bit_or (r.a >>> 1) (u8 (carry <<< 7))) (is_set carry) r

unfoldable pub rra : Cpu → Cpu
rra r = rotated_a (bit_or (r.a >>> 1) (u8 (from_bool r.f.c <<< 7))) (is_set (bit_and r.a 0x01)) r

unfoldable pub op_rlca : M ℕ
op_rlca = do modify rlca; pure 4

unfoldable pub op_rla : M ℕ
op_rla = do modify rla; pure 4

unfoldable pub op_rrca : M ℕ
op_rrca = do modify rrca; pure 4

unfoldable pub op_rra : M ℕ
op_rra = do modify rra; pure 4

-- `u8::rotate_left(k)` and `u8::rotate_right(k)`
abbrev pub rotate_left : ℕ → ℕ → ℕ
rotate_left v k = bit_or (u8 (v <<< k)) (v >>> (8 - k))

abbrev pub rotate_right : ℕ → ℕ → ℕ
rotate_right v k = bit_or (v >>> k) (u8 (v <<< (8 - k)))

unfoldable pub cb_rlc : ℕ → ℕ × Bool
cb_rlc value = (rotate_left value 1, is_set (bit_and value 0x80))

unfoldable pub cb_rrc : ℕ → ℕ × Bool
cb_rrc value = (rotate_right value 1, is_set (bit_and value 0x01))

unfoldable pub cb_rl : ℕ → Bool → ℕ × Bool
cb_rl value carry_in = (bit_or (u8 (value <<< 1)) (from_bool carry_in), is_set (bit_and value 0x80))

unfoldable pub cb_rr : ℕ → Bool → ℕ × Bool
cb_rr value carry_in =
    (bit_or (value >>> 1) (u8 (from_bool carry_in <<< 7)), is_set (bit_and value 0x01))

unfoldable pub cb_sla : ℕ → ℕ × Bool
cb_sla value = (u8 (value <<< 1), is_set (bit_and value 0x80))

unfoldable pub cb_sra : ℕ → ℕ × Bool
cb_sra value = (bit_or (value >>> 1) (bit_and value 0x80), is_set (bit_and value 0x01))

unfoldable pub cb_swap : ℕ → ℕ × Bool
cb_swap value = (rotate_left value 4, false)

unfoldable pub cb_srl : ℕ → ℕ × Bool
cb_srl value = (value >>> 1, is_set (bit_and value 0x01))

-- `match variant` of `cb_exec_rotate`; a variant is at most 7.
unfoldable pub cb_rotate : ℕ → ℕ → Bool → ℕ × Bool
cb_rotate variant value carry_in =
    if variant == 0
    then cb_rlc value
    else if variant == 1
    then cb_rrc value
    else if variant == 2
    then cb_rl value carry_in
    else if variant == 3
    then cb_rr value carry_in
    else if variant == 4
    then cb_sla value
    else if variant == 5
    then cb_sra value
    else if variant == 6
    then cb_swap value
    else cb_srl value

-- The read and write cycles of each form.
unfoldable pub cb_exec_rotate : ℕ → ℕ → M (ℕ × ℕ)
cb_exec_rotate variant z = do
  r ← read_r8 z
  carry_in ← gets (λ cpu. cpu.f.c)
  let result = cb_rotate variant r.0 carry_in
  write_cycles ← write_r8 z result.0
  modify
      (λ cpu. record cpu { f = record { z = result.0 == 0; n = false; h = false; c = result.1 } })
  pure (r.1, write_cycles)

unfoldable pub cb_exec_bit : ℕ → ℕ → M ℕ
cb_exec_bit bit z = do
  r ← read_r8 z
  modify (λ cpu. record cpu {
    f = record { z = bit_and r.0 (u8 (1 <<< bit)) == 0; n = false; h = true; c = cpu.f.c };
  })
  pure r.1

unfoldable pub cb_exec_res : ℕ → ℕ → M (ℕ × ℕ)
cb_exec_res bit z = do
  r ← read_r8 z
  write_cycles ← write_r8 z (bit_and r.0 (not_u8 (u8 (1 <<< bit))))
  pure (r.1, write_cycles)

unfoldable pub cb_exec_set : ℕ → ℕ → M (ℕ × ℕ)
cb_exec_set bit z = do
  r ← read_r8 z
  write_cycles ← write_r8 z (bit_or r.0 (u8 (1 <<< bit)))
  pure (r.1, write_cycles)

-- `op_cb`: the second byte of a CB-prefixed opcode.
unfoldable pub op_cb : ℕ → M ℕ
op_cb sub =
    let x = sub >>> 6 in
    let y = bit_and (sub >>> 3) 0x07 in
    let z = bit_and sub 0x07 in
    if x == 0
    then (do r ← cb_exec_rotate y z; pure (8 + r.0 + r.1))
    else if x == 1
    then (do read_cycles ← cb_exec_bit y z; pure (8 + read_cycles))
    else if x == 2
    then (do r ← cb_exec_res y z; pure (8 + r.0 + r.1))
    else (do r ← cb_exec_set y z; pure (8 + r.0 + r.1))
