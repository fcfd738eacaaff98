-- ===== src/Cpu/Stack.antt =====
-- The stack of cpu.rs, through the memory map.
use gbx.Prelude.{
  ℕ, ◌+◌, ◌-◌, ◌≤◌, ◌<◌, ◌≡◌, ap, ◌∙◌, arith, true, false, ◌==◌, u16, sub_u16, if◌then◌else◌,
}
use mathlib.Core.Path.{ap₂}
use gbx.Exec.{combine_u16, split_u16}
use gbx.Exec.Laws.{combine_u16-split_u16}
use gbx.Bus.{Bus}
use gbx.Mmu.{read8_scalar, write8_scalar}
use gbx.Mmu.Laws.{is_memory, cell, read8_scalar-write8_scalar}
use gbx.Cpu.{Cpu, push16, pop16}

-- The bytes of a word pushed at `sp`.
module _ (bus : Bus) (sp hi lo : ℕ) (two : 2 ≤ sp) (wide : sp < 65536)
    (high_in : is_memory (sp - 1) ≡ true) (low_in : is_memory (sp - 2) ≡ true) where
  abbrev pushed : Bus
  pushed = write8_scalar (write8_scalar bus (sp - 1) hi) (sp - 2) lo

  low_byte : read8_scalar pushed (sp - 2) ≡ lo
  low_byte =
      let hit : (cell (sp - 2) == cell (sp - 2)) ≡ true = ground arith in
      read8_scalar-write8_scalar (write8_scalar bus (sp - 1) hi) (sp - 2) (sp - 2) lo low_in
        (omega arith)
      ∙ ap (λ t. if t then lo else read8_scalar (write8_scalar bus (sp - 1) hi) (sp - 2)) hit

  high_byte : read8_scalar pushed (sp - 1) ≡ hi
  high_byte =
      let other : (cell (sp - 2) == cell (sp - 1)) ≡ false = ground arith in
      let hit : (cell (sp - 1) == cell (sp - 1)) ≡ true = ground arith in
      read8_scalar-write8_scalar (write8_scalar bus (sp - 1) hi) (sp - 2) (sp - 1) lo low_in
        (omega arith)
      ∙ ap (λ t. if t then lo else read8_scalar (write8_scalar bus (sp - 1) hi) (sp - 1)) other
      ∙ read8_scalar-write8_scalar bus (sp - 1) (sp - 1) hi high_in (omega arith)
      ∙ ap (λ t. if t then hi else read8_scalar bus (sp - 1)) hit

-- Where both bytes below a stack pointer of at least 2 are memory, a word of 16 bits that is
-- pushed is what the next pop gives, and all registers are as before the two.
pub pop16-push16 :
    (r : Cpu) (bus : Bus) (v : ℕ)
    → v < 65536
    → 2 ≤ r.sp
    → r.sp < 65536
    → is_memory (r.sp - 1) ≡ true
    → is_memory (r.sp - 2) ≡ true
    → let after = push16 r bus v in pop16 after.0 after.1 ≡ (v, r)
unfolding pop16 push16
pop16-push16 r bus v word two wide high_in low_in =
    let hi = (split_u16 v).0 in
    let lo = (split_u16 v).1 in
    let first : sub_u16 r.sp 1 ≡ r.sp - 1 = omega arith in
    let second : sub_u16 (sub_u16 r.sp 1) 1 ≡ r.sp - 2 = omega arith in
    let between : u16 (r.sp - 2 + 1) ≡ r.sp - 1 = omega arith in
    let restored : u16 (u16 (r.sp - 2 + 1) + 1) ≡ r.sp = omega arith in
    let stored = pushed bus r.sp hi lo two wide high_in low_in in
    let high =
      ap (read8_scalar stored) between ∙ high_byte bus r.sp hi lo two wide high_in low_in in
    let low = low_byte bus r.sp hi lo two wide high_in low_in in
    ap₂ (λ s₁ s₂. pop16 (record r { sp = s₂ }) (write8_scalar (write8_scalar bus s₁ hi) s₂ lo))
      first second
    ∙ ap₂ (λ w s. (w, record r { sp = s }))
        (ap₂ combine_u16 high low
          ∙ (combine_u16-split_u16 v 0 0 word (omega arith) (omega arith)).0)
        restored
