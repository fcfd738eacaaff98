-- ===== src/Ppu/Render/Tiles.antt =====
-- The colors of a tile map (ppu_stub.rs), by arithmetic on the offsets of video memory.
use mathlib.Core.Path.{ap₂}
use gbx.Prelude.{
  ℕ, zero, suc, ◌+◌, ◌-◌, ◌*◌, ◌/◌, ◌%◌, ◌^◌, ◌<◌, ◌≡◌, refl, ap, ◌∙◌, arith, u16, Bool, true,
  false, ◌==◌, ltb, if◌then◌else◌, bit_and, bit_or, is_set, ◌<<<◌,
}
use gbx.Prelude.Bits.{bit, bit_and-low_mask, bit_or-fields, bit_and-two-pow}
use gbx.Ppu.Render.{decode_bgp, tile_color, tile_base, map_color, read_vram}

-- Whether a bit of a register is one.
abbrev pub has : ℕ → ℕ → Bool
has k v = bit k v == 1

one_bit : (b p : ℕ) → b < 2 → 0 < p → is_set (b * p) ≡ (b == 1)
one_bit zero p h q = ground arith
one_bit (suc zero) p h q = ground arith
one_bit (suc (suc b)) p h q = absurd (omega arith)

two_pow_pos : (k : ℕ) → 0 < 2 ^ k
two_pow_pos zero = omega arith
two_pow_pos (suc k) = omega (arith, two_pow_pos k)

pub is_set-has : (k v : ℕ) → is_set (bit_and v (2 ^ k)) ≡ has k v
is_set-has k v = rw (bit_and-two-pow k v) (one_bit (bit k v) (2 ^ k) (omega arith) (two_pow_pos k))

-- Where a tile starts: with the first addressing mode the tiles 0 to 255 lie in order from the
-- start of video memory, with the second those below 128 lie after the first 256.
abbrev pub tile_offset : Bool → ℕ → ℕ
tile_offset first id = if first then id * 16 else if ltb id 128 then 0x1000 + id * 16 else id * 16

-- The color, 0 to 3, at the point (h, v) of the map at this offset: 32 by 32 tiles of 8 by 8
-- pixels, repeated, a tile with two bytes for each row, low bits first, the leftmost pixel in bit
-- 7.
abbrev pub map_pixel : (ℕ → ℕ) → Bool → ℕ → ℕ → ℕ → ℕ
map_pixel vram first map v h =
    let row = tile_offset first (vram (map + (v / 8 % 32 * 32 + h / 8 % 32))) + v % 8 * 2 in
    vram (row + 1) / 2 ^ (7 - h % 8) % 2 * 2 + vram row / 2 ^ (7 - h % 8) % 2

-- The shade of a color by a palette register: two bits for each color, in equal steps
-- from white, 255, to black.
abbrev pub shade : ℕ → ℕ → ℕ
shade palette color = 255 - 85 * (palette / 2 ^ (color * 2) % 4)

two_bits : (p q : ℕ) → bit_or (bit_and p 0x01 <<< 1) (bit_and q 0x01) ≡ p % 2 * 2 + q % 2
two_bits p q =
    ap₂ (λ a b. bit_or (a * 2) b) (bit_and-low_mask 1 p) (bit_and-low_mask 1 q)
    ∙ bit_or-fields 1 (p % 2) (q % 2) (omega arith)

tile_color_lem :
    (vram : ℕ → ℕ) (a b : ℕ)
    → tile_color vram a b
      ≡ vram (u16 (a + 1) - 0x8000) / 2 ^ b % 2 * 2 + vram (a - 0x8000) / 2 ^ b % 2
unfolding tile_color read_vram
tile_color_lem vram a b = two_bits (vram (u16 (a + 1) - 0x8000) / 2 ^ b) (vram (a - 0x8000) / 2 ^ b)

row_lem :
    (first : Bool) (id r : ℕ)
    → id < 256
    → r < 8
    → let a = u16 (tile_base first id + r * 2) in
      (a - 0x8000 ≡ tile_offset first id + r * 2)
      × (u16 (a + 1) - 0x8000 ≡ tile_offset first id + r * 2 + 1)
unfolding tile_base
row_lem true id r h k = (omega arith, omega arith)
row_lem false id r h k = (ground arith, ground arith)

map_color_lem :
    (vram : ℕ → ℕ) (first : Bool) (map v h : ℕ)
    → ((a : ℕ) → vram a < 256)
    → map < 0x2000
    → map_color vram first (0x8000 + map) v h ≡ map_pixel vram first map v h
unfolding map_color read_vram
map_color_lem vram first map v h bytes inside =
    let id_at = map + (v / 8 % 32 * 32 + h / 8 % 32) in
    let r = row_lem first (vram id_at) (v % 8) (bytes id_at) (omega arith) in
    let at : u16 (0x8000 + map + (v / 8 % 32 * 32 + h / 8 % 32)) - 0x8000 ≡ id_at = omega arith in
    rw
      (
        bit_and-low_mask 5 (v / 8),
        bit_and-low_mask 5 (h / 8),
        bit_and-low_mask 3 v,
        bit_and-low_mask 3 h,
        at,
        tile_color_lem vram (u16 (tile_base first (vram id_at) + v % 8 * 2)) (7 - h % 8),
        r.0,
        r.1,
      )
      refl

in_map :
    (vram : ℕ → ℕ) (first second : Bool) (v h : ℕ)
    → ((a : ℕ) → vram a < 256)
    → map_color vram first (if second then 0x9C00 else 0x9800) v h
      ≡ map_pixel vram first (if second then 0x1C00 else 0x1800) v h
in_map vram first true v h bytes = map_color_lem vram first 0x1C00 v h bytes (omega arith)
in_map vram first false v h bytes = map_color_lem vram first 0x1800 v h bytes (omega arith)

-- The same when the addressing mode, the map and the point are the same.
pub map_color-map_pixel :
    (vram : ℕ → ℕ) (f first s second : Bool) (v w h g : ℕ)
    → ((a : ℕ) → vram a < 256)
    → f ≡ first
    → s ≡ second
    → v ≡ w
    → h ≡ g
    → map_color vram f (if s then 0x9C00 else 0x9800) v h
      ≡ map_pixel vram first (if second then 0x1C00 else 0x1800) w g
map_color-map_pixel vram f first s second v w h g bytes a b c d =
    ap (λ t. map_color vram t (if s then 0x9C00 else 0x9800) v h) a
    ∙ ap (λ (t : Bool). map_color vram first (if t then 0x9C00 else 0x9800) v h) b
    ∙ ap₂ (map_color vram first (if second then 0x9C00 else 0x9800)) c d
    ∙ in_map vram first second w g bytes

pub decode_bgp_lem : (palette color : ℕ) → decode_bgp palette color ≡ shade palette color
unfolding decode_bgp
decode_bgp_lem palette color = rw (bit_and-low_mask 2 (palette / 2 ^ (color * 2))) (ground arith)
