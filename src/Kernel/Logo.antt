-- ===== src/Kernel/Logo.antt =====
-- The logo of the boot sequence, crates/04-services/kernel/src/instance.rs: the tiles and the tile
-- map that it writes to video memory, and the copies that it draws from. Video memory has 0x2000
-- bytes, so the index of `addr - 0x8000` is in range at each address used here.
pub mod Map
use gbx.Prelude.{
  ℕ, zero, suc, ◌+◌, ◌-◌, ◌*◌, ◌/◌, ◌%◌, bit_and, bit_or, ◌<<<◌, ◌>>>◌, u8, u16, sub_u8, sub_u16,
  Bool, true, false, ◌||◌, ◌==◌, ltb, leb, if◌then◌else◌, List, [], ◌∷◌, length, get_elem?,
  unwrap_or, update,
}

abbrev pub boot_tile_count : ℕ
boot_tile_count = 0x19

abbrev pub boot_shades : ℕ → ℕ
boot_shades i = if i == 0 then 0xFF else if i == 1 then 0xAA else if i == 2 then 0x55 else 0x00

unfoldable pub vram_index : ℕ → ℕ
vram_index addr = addr - 0x8000

-- `vram_index_checked` before a write: an index out of range is left out.
unfoldable pub write_checked : (ℕ → ℕ) → ℕ → ℕ → ℕ → ℕ
unfolding vram_index
write_checked vram addr value =
    if ltb (vram_index addr) 0x2000 then update vram (vram_index addr) value else vram

-- Each bit of a nibble twice.
unfoldable pub expand_nibble : ℕ → ℕ
expand_nibble nibble =
    let b3 = bit_and (nibble >>> 3) 1 in
    let b2 = bit_and (nibble >>> 2) 1 in
    let b1 = bit_and (nibble >>> 1) 1 in
    let b0 = bit_and nibble 1 in
    bit_or (bit_or (bit_or (b3 * 3 <<< 6) (b2 * 3 <<< 4)) (b1 * 3 <<< 2)) (b0 * 3)

unfoldable pub write_logo_nibble : (ℕ → ℕ) → ℕ → ℕ → ℕ → ℕ
unfolding expand_nibble vram_index
write_logo_nibble vram addr nibble =
    let expanded = expand_nibble (bit_and nibble 0x0F) in
    let idx = vram_index addr in
    if leb 0x2000 (idx + 3)
    then vram
    else update (update (update (update vram idx expanded) (idx + 1) 0) (idx + 2) expanded)
        (idx + 3) 0

-- `for &byte in logo_bytes`, from `addr`.
unfoldable pub logo_loop : ℕ → List ℕ → (ℕ → ℕ) → ℕ → ℕ
unfolding write_logo_nibble
logo_loop addr [] vram = vram
logo_loop addr (byte ∷ bytes) vram =
    let high = write_logo_nibble vram addr (byte >>> 4) in
    let both = write_logo_nibble high (u16 (addr + 4)) (bit_and byte 0x0F) in
    logo_loop (u16 (u16 (addr + 4) + 4)) bytes both

-- `&rom[start..start + count]`, where the ROM is long enough.
unfoldable pub slice : List ℕ → ℕ → ℕ → List ℕ
slice rom start zero = []
slice rom start (suc count) = unwrap_or 0 (get_elem? rom start) ∷ slice rom (suc start) count

unfoldable pub write_logo_tiles : List ℕ → (ℕ → ℕ) → ℕ → ℕ
unfolding logo_loop slice
write_logo_tiles rom vram =
    logo_loop 0x8010 (if leb 0x0134 (length rom) then slice rom 0x0104 48 else []) vram

abbrev pub trademark : List ℕ
trademark = 0x3C ∷ 0x42 ∷ 0xB9 ∷ 0xA5 ∷ 0xB9 ∷ 0xA5 ∷ 0x42 ∷ 0x3C ∷ []

-- The loop of `write_trademark_tile`; it breaks at the end of video memory.
unfoldable pub trademark_loop : ℕ → List ℕ → (ℕ → ℕ) → ℕ → ℕ
unfolding vram_index
trademark_loop addr [] vram = vram
trademark_loop addr (byte ∷ bytes) vram =
    if leb 0x2000 (vram_index addr)
    then vram
    else trademark_loop (u16 (addr + 2)) bytes (update vram (vram_index addr) byte)

unfoldable pub write_trademark_tile : (ℕ → ℕ) → ℕ → ℕ
unfolding trademark_loop
write_trademark_tile vram = trademark_loop 0x80D0 trademark vram

-- The loops of `write_logo_tilemap`: `a` falls to 0, and `c` counts a row of 12.
unfoldable pub tilemap_loop : ℕ → ℕ → ℕ → (ℕ → ℕ) → ℕ → ℕ
unfolding write_checked
tilemap_loop zero c hl vram = vram
tilemap_loop (suc zero) c hl vram = vram
tilemap_loop (suc (suc a)) c hl vram =
    let written = write_checked vram hl (suc a) in
    let hl = sub_u16 hl 1 in
    let last = c - 1 == 0 in
    tilemap_loop (suc a) (if last then 0x0C else c - 1)
      (if last then bit_or (bit_and hl 0xFF00) 0x000F else hl) written

unfoldable pub write_logo_tilemap : (ℕ → ℕ) → ℕ → ℕ
unfolding write_checked tilemap_loop
write_logo_tilemap vram = tilemap_loop 0x19 0x0C 0x992F (write_checked vram 0x9910 0x19)

unfoldable pub prepare_boot_vram : List ℕ → (ℕ → ℕ) → ℕ → ℕ
unfolding write_logo_tiles write_trademark_tile write_logo_tilemap
prepare_boot_vram rom vram = write_logo_tilemap (write_trademark_tile (write_logo_tiles rom vram))

-- The pixel (row, col) of a tile in `capture_logo_tiles`; tile 0 is blank.
unfoldable pub capture_logo_tiles : (ℕ → ℕ) → ℕ → ℕ → ℕ → ℕ
capture_logo_tiles vram tile_idx row col =
    let offset = 0x10 + (tile_idx - 1) * 16 in
    let lo = vram (offset + row * 2) in
    let hi = vram (offset + (row * 2 + 1)) in
    let bit = 7 - col in
    if tile_idx == 0 || ltb boot_tile_count tile_idx
    then 0
    else bit_or (bit_and (hi >>> bit) 0x01 <<< 1) (bit_and (lo >>> bit) 0x01)

-- The loops of `build_logo_map`, over the cell `row * 32 + col` of the map.
unfoldable pub map_loop : ℕ → ℕ → ℕ → ℕ → (ℕ → ℕ) → ℕ → ℕ
map_loop zero c y x map = map
map_loop (suc zero) c y x map = map
map_loop (suc (suc a)) c y x map =
    let written = update map (y % 32 * 32 + x % 32) (suc a) in
    let last = c - 1 == 0 in
    let wraps = x == 0 in
    map_loop (suc a) (if last then 12 else c - 1)
      ((if wraps then y - 1 else y) - (if last then 1 else 0))
      (if last then 15 else if wraps then 31 else x - 1) written

unfoldable pub build_logo_map : ℕ → ℕ
unfolding map_loop
build_logo_map = map_loop boot_tile_count 12 9 15 (update (λ _. 0) (8 * 32 + 16) boot_tile_count)
