-- ===== src/Machine/Step/Interrupts.antt =====
-- `service_interrupts` of core.rs: which interrupt is taken, and when it panics.
use gbx.Prelude.{
  ℕ, zero, suc, ◌+◌, ◌-◌, ◌*◌, ◌/◌, ◌%◌, ◌^◌, ◌≤◌, ◌<◌, ◌≡◌, ◌≢◌, ◌↔◌, refl, sym, ap, ◌∙◌, arith,
}
use gbx.Prelude.{not, ◌&&◌, ◌||◌, ltb, leb, if◌then◌else◌, all_below, all_below_sound}
use gbx.Prelude.{true, false, ◌==◌, none, some, get_elem?, sub_u16}
use gbx.Prelude.{bit_and, bit_or, not_u8, ◌<<<◌}
use gbx.Prelude.Bits.{bit, bit-bit_and, bit_and-low_mask}
use gbx.Exec.{split_u16}
use gbx.Io
use gbx.Io.{set_reg, if_index}
use gbx.Mmu.{write8_scalar}
use gbx.Core.{Core, consume_cycles, push16}
use gbx.Core.Cost.{consume_cycles_lem}
use gbx.Cpu
use gbx.Machine.Step.{trailing_zeros, pending_interrupts, acknowledge, enter_vector}
use gbx.Machine.Step.{dispatch_interrupt, service_interrupts, vectors}

-- Whether bit `line` is the lowest one set.
abbrev pub IsLowest : ℕ → ℕ → Type 0
IsLowest line v = (bit line v ≡ 1) × (v % 2 ^ line ≡ 0)

-- Over all bytes: the lowest set bit is found, and a byte with none below bit 5 gives 5 or more.
lowest_table :
    all_below 5 (λ line.
      all_below 256 (λ v. not (bit line v == 1 && v % 2 ^ line == 0) || trailing_zeros v == line))
    ≡ true
unfolding all_below trailing_zeros
lowest_table = refl

range_table :
    all_below 256
      (λ v. v == 0 || (if v % 32 == 0 then leb 5 (trailing_zeros v) else ltb (trailing_zeros v) 5))
    ≡ true
unfolding all_below trailing_zeros
range_table = refl

trailing_zeros_lem : (line v : ℕ) → line < 5 → v < 256 → IsLowest line v → trailing_zeros v ≡ line
trailing_zeros_lem line v h k low =
    ground (arith, all_below_sound 256 _ v (all_below_sound 5 _ line lowest_table h) k)

trailing_zeros_range :
    (v : ℕ)
    → v < 256
    → v ≢ 0
    → (v % 32 ≡ 0 → 5 ≤ trailing_zeros v) × (v % 32 ≢ 0 → trailing_zeros v < 5)
trailing_zeros_range v h ne = (
  λ e. ground (arith, all_below_sound 256 _ v range_table h),
  λ e. ground (arith, all_below_sound 256 _ v range_table h),
)

vector_of : (line : ℕ) → (line < 5) → get_elem? vectors line ≡ some (0x40 + 8 * line)
vector_of zero h = refl
vector_of (suc zero) h = refl
vector_of (suc (suc zero)) h = refl
vector_of (suc (suc (suc zero))) h = refl
vector_of (suc (suc (suc (suc zero)))) h = refl
vector_of (suc (suc (suc (suc (suc n))))) h = absurd (omega arith)

vector_out_of_range : (line : ℕ) → 5 ≤ line → get_elem? vectors line ≡ none
vector_out_of_range zero h = absurd (omega arith)
vector_out_of_range (suc zero) h = absurd (omega arith)
vector_out_of_range (suc (suc zero)) h = absurd (omega arith)
vector_out_of_range (suc (suc (suc zero))) h = absurd (omega arith)
vector_out_of_range (suc (suc (suc (suc zero)))) h = absurd (omega arith)
vector_out_of_range (suc (suc (suc (suc (suc n))))) h = refl

clear_table :
    all_below 5 (λ line. all_below 256 (λ v.
      not (bit line v == 1)
      || bit_or (bit_and (bit_and v (not_u8 (1 <<< line))) 0x1F) 0xE0
        == 0xE0 + (v % 32 - 2 ^ line)))
    ≡ true
unfolding all_below
clear_table = refl

clear_lem :
    (line v : ℕ)
    → line < 5
    → v < 256
    → bit line v ≡ 1
    → bit_or (bit_and (bit_and v (not_u8 (1 <<< line))) 0x1F) 0xE0 ≡ 0xE0 + (v % 32 - 2 ^ line)
clear_lem line v h k e =
    ground (arith, all_below_sound 256 _ v (all_below_sound 5 _ line clear_table h) k)

split_u16_lem : (v : ℕ) → split_u16 v ≡ (v / 256 % 256, v % 256)
unfolding split_u16
split_u16_lem v = ground (arith, bit_and-low_mask 8 v)

pending_line :
    (line : ℕ) (core : Core)
    → bit line (pending_interrupts core) ≡ 1
    → bit line (Io.if_reg core.bus.io) ≡ 1
unfolding pending_interrupts
pending_line line core e = omega (arith, e, bit-bit_and line core.bus.ie (Io.if_reg core.bus.io))

-- The core that an interrupt of `line` leaves for the 20 cycles of its service: at the vector, with
-- interrupts disabled and the CPU running, the line taken off IF, whose upper three bits are set,
-- and the program counter on the stack, its high byte at the higher address.
abbrev pub interrupted : ℕ → Core → Core
interrupted line core =
    let cpu = core.cpu in
    let above = sub_u16 cpu.sp 1 in
    let below = sub_u16 above 1 in
    let flags = 0xE0 + (Io.if_reg core.bus.io % 32 - 2 ^ line) in
    let bus = record (core.bus) { io = set_reg core.bus.io if_index flags } in
    record core {
      cpu = record cpu { pc = 0x40 + 8 * line; sp = below; ime = false; halted = false };
      bus = write8_scalar (write8_scalar bus above (cpu.pc / 256 % 256)) below (cpu.pc % 256);
    }

acknowledge_lem :
    (line : ℕ) (core : Core)
    → line < 5
    → Io.if_reg core.bus.io < 256
    → bit line (Io.if_reg core.bus.io) ≡ 1
    → let start = acknowledge line core in
      record start { cpu = record (start.cpu) { pc = 0x40 + 8 * line } } ≡ interrupted line core
unfolding acknowledge push16 Cpu.push16 Io.set_if
acknowledge_lem line core h byte e =
    rw (split_u16_lem core.cpu.pc, clear_lem line (Io.if_reg core.bus.io) h byte e) refl

serves :
    (core : Core)
    → core.cpu.ime ≡ true
    → pending_interrupts core ≢ 0
    → let line = trailing_zeros (pending_interrupts core) in
      service_interrupts core ≡ enter_vector (get_elem? vectors line) (acknowledge line core)
unfolding service_interrupts dispatch_interrupt
serves core ime ne = ground arith

-- With a frame counter of 32 bits, IF and the pending bits in a byte and interrupts enabled, a line
-- of the five that is the lowest pending one is taken in 20 cycles: its bit is taken off IF, the
-- program counter goes onto the stack, high byte first, interrupts are disabled, the CPU no longer
-- halted and at the vector of the line, and from that state the 20 cycles are spent.
pub service_interrupts_taken :
    (core : Core) (line : ℕ)
    → core.cycles_this_frame < 2 ^ 32
    → Io.if_reg core.bus.io < 256
    → pending_interrupts core < 256
    → core.cpu.ime ≡ true
    → line < 5
    → IsLowest line (pending_interrupts core)
    → (after : Core) × (service_interrupts core ≡ some (20, after))
      × (after ≡ (consume_cycles 20 (interrupted line core)).1)
      × (after.cpu.pc ≡ 0x40 + 8 * line)
      × (after.cpu.ime ≡ false)
      × (after.cpu.halted ≡ false)
      × (after.cpu.sp ≡ sub_u16 (sub_u16 core.cpu.sp 1) 1)
unfolding enter_vector
service_interrupts_taken core line wide flags byte ime h low =
    let start = acknowledge line core in
    let entered = interrupted line core in
    let same = acknowledge_lem line core h flags (pending_line line core low.0) in
    let kept = consume_cycles_lem 20 entered wide in
    (
      (consume_cycles 20 entered).1,
      serves core ime (ground (arith, low))
          ∙ ap (λ k. enter_vector (get_elem? vectors k) (acknowledge k core))
              (trailing_zeros_lem line (pending_interrupts core) h byte low)
          ∙ ap (λ o. enter_vector o start) (vector_of line h)
          ∙ ap (λ (c : Core). some (20, (consume_cycles 20 c).1)) same,
      refl,
      ap (λ r. r.pc) kept.2,
      ap (λ r. r.ime) kept.2,
      ap (λ r. r.halted) kept.2,
      ap (λ r. r.sp) kept.2,
    )

enter_vector-some : (v : ℕ) (core : Core) → enter_vector (some v) core ≢ none
unfolding enter_vector
enter_vector-some v core e = cc e

panics :
    (core : Core)
    → pending_interrupts core < 256
    → core.cpu.ime ≡ true
    → pending_interrupts core ≢ 0
    → pending_interrupts core % 32 ≡ 0
    → service_interrupts core ≡ none
panics core byte ime ne low =
    let line = trailing_zeros (pending_interrupts core) in
    let high = (trailing_zeros_range (pending_interrupts core) byte ne).0 low in
    serves core ime ne
    ∙ ap (λ o. enter_vector o (acknowledge line core)) (vector_out_of_range line high)
    ∙ unfold enter_vector in refl

panic_only :
    (core : Core)
    → pending_interrupts core < 256
    → service_interrupts core ≡ none
    → (core.cpu.ime ≡ true) × (pending_interrupts core ≢ 0) × (pending_interrupts core % 32 ≡ 0)
panic_only core byte e = (enabled, some_pending, high)
  where
    enabled : core.cpu.ime ≡ true
    enabled = unfold service_interrupts in ground arith

    some_pending : pending_interrupts core ≢ 0
    some_pending = unfold service_interrupts in λ z. ground arith

    line : ℕ
    line = trailing_zeros (pending_interrupts core)

    taken : line < 5 → ⊥
    taken k = enter_vector-some (0x40 + 8 * line) (acknowledge line core) (
        sym (ap (λ o. enter_vector o (acknowledge line core)) (vector_of line k))
        ∙ sym (serves core enabled some_pending)
        ∙ e)

    high : pending_interrupts core % 32 ≡ 0
    high = ground (arith, taken, trailing_zeros_range (pending_interrupts core) byte some_pending)

-- With the pending bits in a byte, the service panics, its vector out of range, exactly when
-- interrupts are enabled and the pending bits are not zero but all above bit 4.
pub service_interrupts-eq-none_iff :
    (core : Core)
    → pending_interrupts core < 256
    → (service_interrupts core ≡ none)
      ↔ ((core.cpu.ime ≡ true) × (pending_interrupts core ≢ 0) × (pending_interrupts core % 32 ≡ 0))
service_interrupts-eq-none_iff core byte =
    (λ e. panic_only core byte e, λ p. panics core byte p.0 p.1 p.2)
