-- ===== src/Kernel/Instance/Windows.antt =====
-- The windows on memory that the debugger asks for (instance.rs).
use gbx.Prelude.{
  ℕ, zero, suc, ◌+◌, ◌-◌, ◌≡◌, min, arith, ltb, leb, ◌&&◌, if◌then◌else◌, none, some, get_elem?,
}
use gbx.App.Abi.{MemSpace}
use gbx.Mmu.{read8_scalar}
use gbx.Kernel.Sink.{to_vec}
use gbx.Kernel.Instance.{Instance, window_slice, mem_window}

get_elem?-to_vec :
    (buf : ℕ → ℕ) (start len k : ℕ)
    → get_elem? (to_vec buf start len) k ≡ (if ltb k len then some (buf (start + k)) else none)
unfolding to_vec
get_elem?-to_vec buf start zero k = ground arith
get_elem?-to_vec buf start (suc len) zero = ground arith
get_elem?-to_vec buf start (suc len) (suc k) =
    ground (arith, get_elem?-to_vec buf (suc start) len k)

-- The first address of a region, and its size.
abbrev pub region_base : MemSpace → ℕ
region_base MemSpace.vram = 0x8000
region_base MemSpace.wram = 0xC000
region_base MemSpace.oam = 0xFE00
region_base MemSpace.io = 0xFF00

abbrev pub region_size : MemSpace → ℕ
region_size MemSpace.vram = 0x2000
region_size MemSpace.wram = 0x2000
region_size MemSpace.oam = 0xA0
region_size MemSpace.io = 0x80

-- The byte at an address: what the CPU reads there, or the register without its read masks.
abbrev pub cell : MemSpace → Instance → ℕ → ℕ
cell MemSpace.vram inst addr = read8_scalar inst.core.bus addr
cell MemSpace.wram inst addr = read8_scalar inst.core.bus addr
cell MemSpace.oam inst addr = read8_scalar inst.core.bus addr
cell MemSpace.io inst addr = inst.core.bus.io.regs (addr - 0xFF00)

window_slice_lem :
    (bytes : ℕ → ℕ) (size first base len k : ℕ)
    → get_elem? (window_slice bytes size first base len) k ≡ (
        if leb first base && ltb k len && ltb (base + k) (first + size)
        then some (bytes (base + k - first))
        else none)
unfolding window_slice
window_slice_lem bytes size first base len k =
    ground (arith, get_elem?-to_vec bytes (base - first) (min (size - (base - first)) len) k)

-- A window holds the bytes of its region from `base` on, up to `len` of them or the region's end,
-- and nothing if it starts before the region; for the memories each byte is what the CPU reads.
pub mem_window_lem :
    (space : MemSpace) (base len k : ℕ) (inst : Instance)
    → get_elem? (mem_window space base len inst) k ≡ (
        if leb (region_base space) base
          && ltb k len
          && ltb (base + k) (region_base space + region_size space)
        then some (cell space inst (base + k))
        else none)
unfolding mem_window read8_scalar
mem_window_lem MemSpace.vram base len k inst =
    ground (arith, window_slice_lem inst.core.bus.vram 0x2000 0x8000 base len k)
mem_window_lem MemSpace.wram base len k inst =
    ground (arith, window_slice_lem inst.core.bus.wram 0x2000 0xC000 base len k)
mem_window_lem MemSpace.oam base len k inst =
    ground (arith, window_slice_lem inst.core.bus.oam 0xA0 0xFE00 base len k)
mem_window_lem MemSpace.io base len k inst =
    window_slice_lem inst.core.bus.io.regs 0x80 0xFF00 base len k
