-- ===== src/Mmu/Laws.antt =====
-- Memory behind the map of mmu.rs: what a write changes for a later read.
use gbx.Prelude.{
  ℕ, ◌-◌, ◌≤◌, ◌<◌, ◌≡◌, ◌⊎◌, inl, inr, refl, ap, ◌∙◌, arith, Bool, true, ◌&&◌, ◌||◌, ◌==◌, leb,
  if◌then◌else◌, update,
}
use gbx.Bus.{Bus}
use gbx.Bus
use gbx.Mmu
use gbx.Mmu.{read8_scalar, write8_scalar}

-- Video RAM, work RAM with its echo, OAM, high RAM and IE.
abbrev pub is_memory : ℕ → Bool
is_memory a =
    (leb 0x8000 a && leb a 0x9FFF)
    || (leb 0xC000 a && leb a 0xFE9F)
    || (leb 0xFF80 a && leb a 0xFFFF)

-- The echo of work RAM is the same cell.
abbrev pub cell : ℕ → ℕ
cell a = if leb 0xE000 a && leb a 0xFDFF then a - 0x2000 else a

write_vram :
    (bus : Bus) (a v : ℕ)
    → 0x8000 ≤ a
    → a ≤ 0x9FFF
    → write8_scalar bus a v ≡ record bus { vram = update bus.vram (a - 0x8000) v }
unfolding write8_scalar
write_vram bus a v p q = ground arith

write_wram :
    (bus : Bus) (a v : ℕ)
    → 0xC000 ≤ a
    → a ≤ 0xDFFF
    → write8_scalar bus a v ≡ record bus { wram = update bus.wram (a - 0xC000) v }
unfolding write8_scalar
write_wram bus a v p q = ground arith

write_echo :
    (bus : Bus) (a v : ℕ)
    → 0xE000 ≤ a
    → a ≤ 0xFDFF
    → write8_scalar bus a v ≡ record bus { wram = update bus.wram (a - 0xE000) v }
unfolding write8_scalar
write_echo bus a v p q = ground arith

write_oam :
    (bus : Bus) (a v : ℕ)
    → 0xFE00 ≤ a
    → a ≤ 0xFE9F
    → write8_scalar bus a v ≡ record bus { oam = update bus.oam (a - 0xFE00) v }
unfolding write8_scalar
write_oam bus a v p q = ground arith

write_hram :
    (bus : Bus) (a v : ℕ)
    → 0xFF80 ≤ a
    → a ≤ 0xFFFE
    → write8_scalar bus a v ≡ record bus { hram = update bus.hram (a - 0xFF80) v }
unfolding write8_scalar
write_hram bus a v p q = ground arith

write_ie : (bus : Bus) (v : ℕ) → write8_scalar bus 0xFFFF v ≡ record bus { ie = v }
unfolding write8_scalar
write_ie bus v = refl

vram_only :
    (bus : Bus) (k v b : ℕ)
    → b < 65536
    → read8_scalar (record bus { vram = update bus.vram k v }) b
      ≡ (if leb 0x8000 b && leb b 0x9FFF && b - 0x8000 == k then v else read8_scalar bus b)
unfolding read8_scalar Bus.boot_rom_byte Mmu.read_io Mmu.rom_byte
vram_only bus k v b wide = ground arith

wram_only :
    (bus : Bus) (k v b : ℕ)
    → b < 65536
    → read8_scalar (record bus { wram = update bus.wram k v }) b ≡ (
        if (leb 0xC000 b && leb b 0xDFFF && b - 0xC000 == k)
          || (leb 0xE000 b && leb b 0xFDFF && b - 0xE000 == k)
        then v
        else read8_scalar bus b)
unfolding read8_scalar Bus.boot_rom_byte Mmu.read_io Mmu.rom_byte
wram_only bus k v b wide = ground arith

pub oam_only :
    (bus : Bus) (k v b : ℕ)
    → b < 65536
    → read8_scalar (record bus { oam = update bus.oam k v }) b
      ≡ (if leb 0xFE00 b && leb b 0xFE9F && b - 0xFE00 == k then v else read8_scalar bus b)
unfolding read8_scalar Bus.boot_rom_byte Mmu.read_io Mmu.rom_byte
oam_only bus k v b wide = ground arith

hram_only :
    (bus : Bus) (k v b : ℕ)
    → b < 65536
    → read8_scalar (record bus { hram = update bus.hram k v }) b
      ≡ (if leb 0xFF80 b && leb b 0xFFFE && b - 0xFF80 == k then v else read8_scalar bus b)
unfolding read8_scalar Bus.boot_rom_byte Mmu.read_io Mmu.rom_byte
hram_only bus k v b wide = ground arith

ie_only :
    (bus : Bus) (v b : ℕ)
    → b < 65536
    → read8_scalar (record bus { ie = v }) b ≡ (if b == 0xFFFF then v else read8_scalar bus b)
unfolding read8_scalar Bus.boot_rom_byte Mmu.read_io Mmu.rom_byte
ie_only bus v b wide = ground arith

-- The region of a cell of memory.
regions :
    (a : ℕ)
    → is_memory a ≡ true
    → ((0x8000 ≤ a) × (a ≤ 0x9FFF))
      ⊎ ((0xC000 ≤ a) × (a ≤ 0xDFFF))
      ⊎ ((0xE000 ≤ a) × (a ≤ 0xFDFF))
      ⊎ ((0xFE00 ≤ a) × (a ≤ 0xFE9F))
      ⊎ ((0xFF80 ≤ a) × (a ≤ 0xFFFE))
      ⊎ (a ≡ 0xFFFF)
regions a h = ground arith

-- After a write to video RAM, work RAM or its echo, OAM, high RAM or IE, a read of any address of
-- 16 bits gives the written value if it is the same cell, the echo included, and what it gave
-- before if not.
pub read8_scalar-write8_scalar :
    (bus : Bus) (a b v : ℕ)
    → is_memory a ≡ true
    → b < 65536
    → read8_scalar (write8_scalar bus a v) b ≡ (if cell a == cell b then v else read8_scalar bus b)
read8_scalar-write8_scalar bus a b v mem wide = elim (regions a mem) [
  | inl (lo, hi) ↦
      ap (λ c. read8_scalar c b) (write_vram bus a v lo hi)
      ∙ vram_only bus (a - 0x8000) v b wide
      ∙ ap (λ t. if t then v else read8_scalar bus b) (ground arith)
  | inr (inl (lo, hi)) ↦
      ap (λ c. read8_scalar c b) (write_wram bus a v lo hi)
      ∙ wram_only bus (a - 0xC000) v b wide
      ∙ ap (λ t. if t then v else read8_scalar bus b) (ground arith)
  | inr (inr (inl (lo, hi))) ↦
      ap (λ c. read8_scalar c b) (write_echo bus a v lo hi)
      ∙ wram_only bus (a - 0xE000) v b wide
      ∙ ap (λ t. if t then v else read8_scalar bus b) (ground arith)
  | inr (inr (inr (inl (lo, hi)))) ↦
      ap (λ c. read8_scalar c b) (write_oam bus a v lo hi)
      ∙ oam_only bus (a - 0xFE00) v b wide
      ∙ ap (λ t. if t then v else read8_scalar bus b) (ground arith)
  | inr (inr (inr (inr (inl (lo, hi))))) ↦
      ap (λ c. read8_scalar c b) (write_hram bus a v lo hi)
      ∙ hram_only bus (a - 0xFF80) v b wide
      ∙ ap (λ t. if t then v else read8_scalar bus b) (ground arith)
  | inr (inr (inr (inr (inr e)))) ↦
      ap (λ k. read8_scalar (write8_scalar bus k v) b) e
      ∙ ap (λ c. read8_scalar c b) (write_ie bus v)
      ∙ ie_only bus v b wide
      ∙ ap (λ t. if t then v else read8_scalar bus b) (ground arith)
]
