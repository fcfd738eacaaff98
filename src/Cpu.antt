-- ===== src/Cpu.antt =====
-- The register file (crates/04-services/kernel-core/src/cpu.rs) over the scalar backend, and its
-- accesses of the bus through the memory map.
pub mod Stack
use gbx.Prelude.{ℕ, ◌+◌, ◌-◌, ◌%◌, bit_and, u16, sub_u16, Bool, true, false, if◌then◌else◌}
use gbx.Exec.{Flags, to_byte, from_byte, combine_u16, split_u16}
use gbx.Bus.{Bus}
use gbx.Mmu.{read8_scalar, write8_scalar}

pub record Cpu : Type 0 where
  pub a : ℕ
  pub f : Flags
  pub b : ℕ
  pub c : ℕ
  pub d : ℕ
  pub e : ℕ
  pub h : ℕ
  pub l : ℕ
  pub sp : ℕ
  pub pc : ℕ
  pub ime : Bool
  pub halted : Bool
  pub enable_ime_pending : Bool
  pub halt_bug : Bool

-- `Cpu::new`
unfoldable pub new : Cpu
unfolding from_byte
new = record {
  a = 0x01;
  f = from_byte 0xB0;
  b = 0x00;
  c = 0x13;
  d = 0x00;
  e = 0xD8;
  h = 0x01;
  l = 0x4D;
  sp = 0xFFFE;
  pc = 0x0100;
  ime = false;
  halted = false;
  enable_ime_pending = false;
  halt_bug = false;
}

unfoldable pub hl : Cpu → ℕ
hl r = combine_u16 r.h r.l

unfoldable pub set_hl : Cpu → ℕ → Cpu
set_hl r value = record r { h = (split_u16 value).0; l = (split_u16 value).1 }

unfoldable pub bc : Cpu → ℕ
bc r = combine_u16 r.b r.c

unfoldable pub set_bc : Cpu → ℕ → Cpu
set_bc r value = record r { b = (split_u16 value).0; c = (split_u16 value).1 }

unfoldable pub de : Cpu → ℕ
de r = combine_u16 r.d r.e

unfoldable pub set_de : Cpu → ℕ → Cpu
set_de r value = record r { d = (split_u16 value).0; e = (split_u16 value).1 }

unfoldable pub af : Cpu → ℕ
af r = combine_u16 r.a (to_byte r.f)

unfoldable pub set_af : Cpu → ℕ → Cpu
set_af r value = record r {
  a = (split_u16 value).0;
  f = from_byte (bit_and (split_u16 value).1 0xF0);
}

-- `fetch8`: after the HALT bug the program counter stays where it is, once.
unfoldable pub fetch8 : Cpu → Bus → ℕ × Cpu
fetch8 r bus = (
  read8_scalar bus r.pc,
  let next = u16 (r.pc + 1) in
      if r.halt_bug
      then record r { halt_bug = false; pc = sub_u16 next 1 }
      else record r { pc = next },
)

-- `push16`: the high byte goes to the higher address.
unfoldable pub push16 : Cpu → Bus → ℕ → Cpu × Bus
push16 r bus value =
    let sp = sub_u16 r.sp 1 in
    let bus = write8_scalar bus sp (split_u16 value).0 in
    let sp = sub_u16 sp 1 in
    let bus = write8_scalar bus sp (split_u16 value).1 in (record r { sp = sp }, bus)

-- `pop16`
unfoldable pub pop16 : Cpu → Bus → ℕ × Cpu
pop16 r bus =
    let lo = read8_scalar bus r.sp in
    let sp = u16 (r.sp + 1) in
    let hi = read8_scalar bus sp in (combine_u16 hi lo, record r { sp = u16 (sp + 1) })
