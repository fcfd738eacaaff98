-- ===== src/Io.antt =====
-- The IO register block, `IoRegs` of crates/04-services/kernel-core/src/bus.rs. The array of
-- 0x80 bytes is a function of the index; every caller passes an index below 0x80.
use gbx.Prelude.{ℕ, bit_and, bit_or, ◌==◌, if◌then◌else◌, update}

pub record IoRegs : Type 0 where
  pub regs : ℕ → ℕ

-- The register offsets.
abbrev pub joyp_index : ℕ
joyp_index = 0x00

abbrev pub sb_index : ℕ
sb_index = 0x01

abbrev pub sc_index : ℕ
sc_index = 0x02

abbrev pub div_index : ℕ
div_index = 0x04

abbrev pub tima_index : ℕ
tima_index = 0x05

abbrev pub tma_index : ℕ
tma_index = 0x06

abbrev pub tac_index : ℕ
tac_index = 0x07

abbrev pub if_index : ℕ
if_index = 0x0F

abbrev pub lcdc_index : ℕ
lcdc_index = 0x40

abbrev pub stat_index : ℕ
stat_index = 0x41

abbrev pub ly_index : ℕ
ly_index = 0x44

abbrev pub lyc_index : ℕ
lyc_index = 0x45

abbrev pub key1_index : ℕ
key1_index = 0x4D

-- `IoRegs::new`
unfoldable pub new : IoRegs
new = record { regs = update (update (λ _. 0) if_index 0xE0) key1_index 0xFF }

-- `self.regs[idx] = value`
abbrev pub set_reg : IoRegs → ℕ → ℕ → IoRegs
set_reg io idx value = record { regs = update io.regs idx value }

unfoldable pub tac : IoRegs → ℕ
tac io = bit_or (io.regs tac_index) 0xF8

unfoldable pub sc_raw : IoRegs → ℕ
sc_raw io = bit_and (io.regs sc_index) 0x81

unfoldable pub sc : IoRegs → ℕ
unfolding sc_raw
sc io = bit_or (sc_raw io) 0x7E

unfoldable pub read : IoRegs → ℕ → ℕ
unfolding sc tac
read io idx =
    if idx == sc_index
    then sc io
    else if idx == tac_index
    then tac io
    else if idx == key1_index
    then 0xFF
    else io.regs idx

unfoldable pub set_sc : IoRegs → ℕ → IoRegs
set_sc io value = set_reg io sc_index (bit_and value 0x81)

unfoldable pub write : IoRegs → ℕ → ℕ → IoRegs
unfolding set_sc
write io idx value =
    if idx == sc_index
    then set_sc io value
    else if idx == key1_index
    then set_reg io idx 0xFF
    else set_reg io idx value

unfoldable pub div : IoRegs → ℕ
div io = io.regs div_index

unfoldable pub set_div : IoRegs → ℕ → IoRegs
set_div io value = set_reg io div_index value

unfoldable pub tima : IoRegs → ℕ
tima io = io.regs tima_index

unfoldable pub set_tima : IoRegs → ℕ → IoRegs
set_tima io value = set_reg io tima_index value

unfoldable pub tma : IoRegs → ℕ
tma io = io.regs tma_index

unfoldable pub set_tma : IoRegs → ℕ → IoRegs
set_tma io value = set_reg io tma_index value

unfoldable pub set_tac : IoRegs → ℕ → IoRegs
set_tac io value = set_reg io tac_index value

unfoldable pub if_reg : IoRegs → ℕ
if_reg io = io.regs if_index

-- Bits 5 to 7 of IF read back as one.
unfoldable pub set_if : IoRegs → ℕ → IoRegs
set_if io value = set_reg io if_index (bit_or (bit_and value 0x1F) 0xE0)

unfoldable pub joyp : IoRegs → ℕ
joyp io = io.regs joyp_index
