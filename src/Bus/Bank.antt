-- ===== src/Bus/Bank.antt =====
-- The ROM banks of bus.rs and mmu.rs: what a write to the ROM area selects.
use gbx.Prelude.{
  ℕ, ◌+◌, ◌-◌, ◌*◌, ◌/◌, ◌%◌, ◌≤◌, ◌<◌, max, ◌≡◌, inl, inr, refl, sym, ap, ◌∙◌, arith, bit_and,
  length, zero, suc, ◌<<<◌,
}
use gbx.Prelude.{Bool-cases, Bool, true, false, ◌&&◌, ◌==◌, ltb, leb, if◌then◌else◌}
use gbx.Prelude.Bits.{bit_and-low_mask}
use gbx.Bus.{Bus, rom_bank_count, set_rom_bank}
use mathlib.Core.Path.{subst, ap₂}
use gbx.Bus
use gbx.Bus.Serial
use gbx.Mmu
use gbx.Mmu.{read8_scalar, write8_scalar, rom_byte, dma_loop}

-- The bank of the window at 0x4000 is one of the ROM's, and not bank 0 if there is another.
pub record IsBanked (bus : Bus) : Type 0 where
  pub in_rom : bus.rom_bank < max (rom_bank_count bus) 1
  pub not_fixed : 2 ≤ rom_bank_count bus → 1 ≤ bus.rom_bank

set_rom_bank-IsBanked : (bus : Bus) (bank : ℕ) → IsBanked (set_rom_bank bus bank)
unfolding set_rom_bank rom_bank_count
set_rom_bank-IsBanked bus bank = record { in_rom = ground arith; not_fixed = λ h. ground arith }

rom_write :
    (bus : Bus) (a v : ℕ)
    → a < 0x8000
    → write8_scalar bus a v
      ≡ (if leb 0x2000 a && leb a 0x3FFF then set_rom_bank bus (bit_and v 0x1F) else bus)
unfolding write8_scalar
rom_write bus a v h = ground arith

window :
    (bus : Bus) (b : ℕ)
    → 0x4000 ≤ b
    → b < 0x8000
    → read8_scalar bus b ≡ rom_byte bus (bus.rom_bank * 0x4000 + (b - 0x4000))
unfolding read8_scalar
window bus b p q = ground arith

dma_loop-rom :
    (left base offset : ℕ) (bus : Bus)
    → let after = dma_loop left base offset bus in
      (after.rom ≡ bus.rom) × (after.rom_bank ≡ bus.rom_bank)
unfolding dma_loop
dma_loop-rom zero base offset bus = (refl, refl)
dma_loop-rom (suc left) base offset bus = dma_loop-rom left base (offset + 1) _

-- A write above the ROM area changes neither the ROM nor the bank.
other_write :
    (bus : Bus) (a v : ℕ)
    → 0x8000 ≤ a
    → ((write8_scalar bus a v).rom ≡ bus.rom) × ((write8_scalar bus a v).rom_bank ≡ bus.rom_bank)
unfolding write8_scalar Mmu.write_io Mmu.write_dma Mmu.write_joyp Mmu.write_div Mmu.write_tima
    Mmu.write_tma Mmu.write_tac Bus.disable_boot_rom Serial.write_serial_control
    Bus.reset_serial_state
other_write bus a v h = ground (arith, dma_loop-rom 0xA0 (v <<< 8) 0 bus)

kept :
    (before after : Bus)
    → after.rom ≡ before.rom
    → after.rom_bank ≡ before.rom_bank
    → IsBanked before
    → IsBanked after
unfolding rom_bank_count
kept before after same_rom same_bank c =
    let count = ap (λ r. (length r + 0x3FFF) / 0x4000) same_rom in
    record { in_rom = ground (arith, c.in_rom); not_fixed = λ h. ground (arith, c.not_fixed) }

-- The bank that `set_rom_bank` chooses.
set_rom_bank-rom_bank :
    (bus : Bus) (bank : ℕ)
    → 2 ≤ rom_bank_count bus
    → (set_rom_bank bus bank).rom_bank
      ≡ (if bank % rom_bank_count bus == 0 then 1 else bank % rom_bank_count bus)
unfolding set_rom_bank
set_rom_bank-rom_bank bus bank many =
    let total : max (rom_bank_count bus) 1 ≡ rom_bank_count bus = omega arith in
    let several : ltb 1 (max (rom_bank_count bus) 1) ≡ true = ground arith in
    ap₂ (λ t n. if t && bank % n == 0 then 1 else bank % n) several total

fixed_read :
    (bus : Bus) (bank b : ℕ)
    → b < 0x4000
    → read8_scalar (set_rom_bank bus bank) b ≡ read8_scalar bus b
unfolding set_rom_bank read8_scalar Mmu.rom_byte Bus.boot_rom_byte
fixed_read bus bank b h = ground arith

-- If the bank of the window is one of the ROM, and not bank 0 where there is another, this still
-- holds after a write of any value to any address.
pub write8_scalar-IsBanked : (bus : Bus) (a v : ℕ) → IsBanked bus → IsBanked (write8_scalar bus a v)
write8_scalar-IsBanked bus a v c = elim (Bool-cases (leb 0x8000 a)) [
  | inl above ↦
      let same = other_write bus a v (ground arith) in
      kept bus (write8_scalar bus a v) same.0 same.1 c
  | inr below ↦
      subst IsBanked (sym (rom_write bus a v (ground arith)))
        (chosen (leb 0x2000 a && leb a 0x3FFF))
]
  where
    chosen : (b : Bool) → IsBanked (if b then set_rom_bank bus (bit_and v 0x1F) else bus)
    chosen true = set_rom_bank-IsBanked bus (bit_and v 0x1F)
    chosen false = c

window_rom : (bus : Bus) (bank k : ℕ) → rom_byte (set_rom_bank bus bank) k ≡ rom_byte bus k
unfolding rom_byte set_rom_bank
window_rom bus bank k = refl

-- With two banks or more, after a write of `v` to 0x2000..0x3FFF a read of 0x4000..0x7FFF is one
-- of the bank `v % 32` modulo the number of banks, or of bank 1 where that is 0; a read below
-- 0x4000 is as before.
pub read8_scalar-bank :
    (bus : Bus) (a v b : ℕ)
    → 0x2000 ≤ a
    → a ≤ 0x3FFF
    → b < 0x8000
    → 2 ≤ rom_bank_count bus
    → let chosen = v % 32 % rom_bank_count bus in
      let bank = if chosen == 0 then 1 else chosen in
      read8_scalar (write8_scalar bus a v) b
      ≡ (if ltb b 0x4000 then read8_scalar bus b else rom_byte bus (bank * 0x4000 + (b - 0x4000)))
read8_scalar-bank bus a v b p q r many =
    let n = rom_bank_count bus in
    let hit : (leb 0x2000 a && leb a 0x3FFF) ≡ true = ground arith in
    let low : bit_and v 0x1F ≡ v % 32 = bit_and-low_mask 5 v in
    let after = set_rom_bank bus (bit_and v 0x1F) in
    let written =
      rom_write bus a v (omega arith)
      ∙ ap (λ t. if t then set_rom_bank bus (bit_and v 0x1F) else bus) hit in
    let bank =
      set_rom_bank-rom_bank bus (bit_and v 0x1F) many
      ∙ ap (λ k. if k % n == 0 then 1 else k % n) low in
    let k = v % 32 % n in
    let there = rom_byte bus ((if k == 0 then 1 else k) * 0x4000 + (b - 0x4000)) in
    ap (λ c. read8_scalar c b) written ∙ elim (Bool-cases (ltb b 0x4000)) [
      | inl fixed ↦
          fixed_read bus (bit_and v 0x1F) b (ground arith)
          ∙ sym (ap (λ t. if t then read8_scalar bus b else there) fixed)
      | inr windowed ↦
          window after b (ground arith) r
          ∙ window_rom bus (bit_and v 0x1F) _
          ∙ ap (λ k. rom_byte bus (k * 0x4000 + (b - 0x4000))) bank
          ∙ sym (ap (λ t. if t then read8_scalar bus b else there) windowed)
    ]
