-- ===== src/Instr.antt =====
-- The instruction handlers (crates/04-services/kernel-core/src/instr.rs), in its children: loads,
-- arithmetic and logic, rotates and bits, control flow. Each returns the cycles that the
-- instruction costs. Here: operand access. A register code is masked to three bits, so the
-- `unreachable!` arms are the last one of each chain.
pub mod Alu
pub mod Load
pub mod Bits
pub mod Control
use gbx.Prelude.{ℕ, bit_and, Bool, not, ◌==◌, if◌then◌else◌}
use gbx.Exec.{Flags}
use gbx.Cpu
use gbx.Cpu.{Cpu}
use gbx.Core.{Core, M, pure, ◌>>=◌, ◌>>◌, gets, modify, read8, write8}

-- The register arms of `read_r8` and `write_r8`.
unfoldable pub get_r8 : ℕ → Cpu → ℕ
get_r8 code cpu =
    if code == 0
    then cpu.b
    else if code == 1
    then cpu.c
    else if code == 2
    then cpu.d
    else if code == 3
    then cpu.e
    else if code == 4
    then cpu.h
    else if code == 5
    then cpu.l
    else cpu.a

unfoldable pub put_r8 : ℕ → ℕ → Cpu → Cpu
put_r8 code value cpu =
    if code == 0
    then record cpu { b = value }
    else if code == 1
    then record cpu { c = value }
    else if code == 2
    then record cpu { d = value }
    else if code == 3
    then record cpu { e = value }
    else if code == 4
    then record cpu { h = value }
    else if code == 5
    then record cpu { l = value }
    else record cpu { a = value }

-- `read_r8`: the operand, and the extra cycles of an access of `(HL)`.
unfoldable pub read_r8 : ℕ → M (ℕ × ℕ)
read_r8 code =
    if bit_and code 0x07 == 6
    then (do addr ← gets Cpu.hl; value ← read8 addr; pure (value, 4))
    else (do value ← gets (get_r8 (bit_and code 0x07)); pure (value, 0))

-- `write_r8`: the extra cycles.
unfoldable pub write_r8 : ℕ → ℕ → M ℕ
write_r8 code value =
    if bit_and code 0x07 == 6
    then (do addr ← gets Cpu.hl; write8 addr value; pure 4)
    else (do modify (put_r8 (bit_and code 0x07) value); pure 0)

-- `cond`: the condition of a branch.
unfoldable pub cond : Flags → ℕ → Bool
cond f cc =
    let code = bit_and cc 0x03 in
    if code == 0 then not f.z else if code == 1 then f.z else if code == 2 then not f.c else f.c

-- The register pairs BC, DE, HL and SP.
unfoldable pub get_rr : ℕ → Cpu → ℕ
get_rr rp cpu =
    let code = bit_and rp 0x03 in
    if code == 0
    then Cpu.bc cpu
    else if code == 1
    then Cpu.de cpu
    else if code == 2
    then Cpu.hl cpu
    else cpu.sp

unfoldable pub put_rr : ℕ → ℕ → Cpu → Cpu
put_rr rp value cpu =
    let code = bit_and rp 0x03 in
    if code == 0
    then Cpu.set_bc cpu value
    else if code == 1
    then Cpu.set_de cpu value
    else if code == 2
    then Cpu.set_hl cpu value
    else record cpu { sp = value }
