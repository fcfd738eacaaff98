-- ===== src/Mmu.antt =====
-- The memory map (crates/04-services/kernel-core/src/mmu.rs): which region an address of 16 bits
-- belongs to, and what a read or a write does there. An array index is in range by the arm that
-- computes it (`Mmu.Laws`). The tracing prints are not modelled.
pub mod Laws
pub mod Dma
pub mod Joypad
use gbx.Prelude.{ℕ, zero, suc, ◌+◌, ◌-◌, ◌*◌, ◌%◌, bit_and, bit_or, u16, ◌<<<◌}
use gbx.Prelude.{Bool, true, false, ◌==◌, leb, is_set, if◌then◌else◌, update, not_u8}
use gbx.Prelude.{Option, none, some, get_elem?, unwrap_or}
use gbx.Io
use gbx.Io.{joyp_index, div_index, tima_index, tma_index, tac_index, if_index, ly_index, sc_index}
use gbx.Bus
use gbx.Bus.{Bus}
use gbx.Bus.Serial

-- `rom.get(index).copied().unwrap_or(0xFF)`
unfoldable pub rom_byte : Bus → ℕ → ℕ
rom_byte bus index = unwrap_or 0xFF (get_elem? bus.rom index)

-- The arm of `IoRegs::JOYP`.
unfoldable pub read_joyp : Bus → ℕ
read_joyp bus =
    let sel = bus.joyp_select in
    let lo : ℕ = 0x0F in
    let lo = if bit_and sel 0x10 == 0 then bit_and lo bus.joyp_dpad else lo in
    let lo = if bit_and sel 0x20 == 0 then bit_and lo bus.joyp_buttons else lo in
    bit_or (bit_or 0xC0 sel) (bit_and (not_u8 lo) 0x0F)

-- The arms of 0xFF00..=0xFF7F.
unfoldable pub read_io : Bus → ℕ → ℕ
unfolding read_joyp
read_io bus idx =
    if idx == joyp_index
    then read_joyp bus
    else if idx == if_index
    then Io.if_reg bus.io
    else if idx == ly_index
    then unwrap_or (Io.read bus.io idx) bus.lockstep_ly_override
    else if idx == 0x50
    then (if bus.boot_rom_enabled then 0x00 else 0x01)
    else Io.read bus.io idx

-- `read8_scalar`; it changes no state.
unfoldable pub read8_scalar : Bus → ℕ → ℕ
read8_scalar bus addr =
    if leb addr 0x3FFF
    then unwrap_or (rom_byte bus addr) (Bus.boot_rom_byte bus addr)
    else if leb addr 0x7FFF
    then rom_byte bus (bus.rom_bank * 0x4000 + (addr - 0x4000))
    else if leb addr 0x9FFF
    then bus.vram (addr - 0x8000)
    else if leb addr 0xBFFF
    then 0xFF
    else if leb addr 0xDFFF
    then bus.wram (addr - 0xC000)
    else if leb addr 0xFDFF
    then bus.wram (addr - 0xE000)
    else if leb addr 0xFE9F
    then bus.oam (addr - 0xFE00)
    else if leb addr 0xFEFF
    then 0xFF
    else if leb addr 0xFF7F
    then read_io bus (addr - 0xFF00)
    else if leb addr 0xFFFE
    then bus.hram (addr - 0xFF80)
    else bus.ie

-- `for offset in 0..=0x9F`, from `offset` on with `left` rounds to go.
unfoldable pub dma_loop : ℕ → ℕ → ℕ → Bus → Bus
dma_loop zero base offset bus = bus
dma_loop (suc left) base offset bus =
    let byte = read8_scalar bus (u16 (base + offset)) in
    dma_loop left base (offset + 1) (record bus { oam = update bus.oam offset byte })

-- A write of 0xFF46 copies a page to OAM.
unfoldable pub write_dma : Bus → ℕ → Bus
write_dma bus value = dma_loop 0xA0 (value <<< 8) 0 bus

unfoldable pub write_joyp : Bus → ℕ → Bus
write_joyp bus value =
    let select = bit_and value 0x30 in
    let current = Io.read bus.io joyp_index in
    record bus {
      joyp_select = select;
      io = Io.write bus.io joyp_index (bit_or (bit_and current (not_u8 0x30)) select);
    }

-- The timer registers leave a note for `Timers::process_register_writes`.
unfoldable pub write_div : Bus → Bus
write_div bus = record bus { io = Io.set_div bus.io 0; timer_div_reset = true }

unfoldable pub write_tima : Bus → ℕ → Bus
write_tima bus value = record bus { io = Io.set_tima bus.io value; timer_tima_write = some value }

unfoldable pub write_tma : Bus → ℕ → Bus
write_tma bus value = record bus { io = Io.set_tma bus.io value; timer_tma_write = some value }

unfoldable pub write_tac : Bus → ℕ → Bus
write_tac bus value =
    let masked = bit_and value 0x07 in
    let previous = Io.tac bus.io in
    record bus { io = Io.set_tac bus.io masked; timer_tac_write = some (previous, masked) }

-- The arms of 0xFF00..=0xFF7F.
unfoldable pub write_io : Bus → ℕ → ℕ → Bus
write_io bus idx value =
    if idx == 0x46
    then write_dma bus value
    else if idx == 0x50
    then (if is_set (bit_and value 0x01) then Bus.disable_boot_rom bus else bus)
    else if idx == joyp_index
    then write_joyp bus value
    else if idx == div_index
    then write_div bus
    else if idx == tima_index
    then write_tima bus value
    else if idx == tma_index
    then write_tma bus value
    else if idx == tac_index
    then write_tac bus value
    else if idx == ly_index
    then record bus { io = Io.write bus.io idx 0 }
    else if idx == sc_index
    then Serial.write_serial_control bus value
    else if idx == if_index
    then record bus { io = Io.set_if bus.io value }
    else record bus { io = Io.write bus.io idx value }

-- `write8_scalar`
unfoldable pub write8_scalar : Bus → ℕ → ℕ → Bus
write8_scalar bus addr value =
    if leb addr 0x1FFF
    then bus
    else if leb addr 0x3FFF
    then Bus.set_rom_bank bus (bit_and value 0x1F)
    else if leb addr 0x5FFF
    then bus
    else if leb addr 0x7FFF
    then bus
    else if leb addr 0x9FFF
    then record bus { vram = update bus.vram (addr - 0x8000) value }
    else if leb addr 0xBFFF
    then bus
    else if leb addr 0xDFFF
    then record bus { wram = update bus.wram (addr - 0xC000) value }
    else if leb addr 0xFDFF
    then record bus { wram = update bus.wram (addr - 0xE000) value }
    else if leb addr 0xFE9F
    then record bus { oam = update bus.oam (addr - 0xFE00) value }
    else if leb addr 0xFEFF
    then bus
    else if leb addr 0xFF7F
    then write_io bus (addr - 0xFF00) value
    else if leb addr 0xFFFE
    then record bus { hram = update bus.hram (addr - 0xFF80) value }
    else record bus { ie = value }
