-- ===== src/Ppu/Render/Pixels.antt =====
-- The pixels of a frame (ppu_stub.rs) by the planes that cover them.
use gbx.Prelude.{
  ℕ, ◌+◌, ◌-◌, ◌*◌, ◌%◌, ◌≤◌, ◌<◌, ◌≡◌, inl, inr, refl, arith, ap, ◌∙◌, bit_and, true, false, ◌&&◌,
  ◌==◌, leb, Bool, u8, u16, sub_u8, is_set, if◌then◌else◌, Bool-cases,
}
use gbx.Io
use gbx.Io.{IoRegs}
use gbx.Ppu.Render.{
  Canvas, bgp_index, dmg_shades, decode_bgp, fill_solid, lcdc, background, background_color, window,
  in_window, window_color, sprites, render_frame,
}
use gbx.Ppu.Render.{scy_index, scx_index, wy_index, wx_index}
use gbx.Ppu.Render.Tiles.{has, is_set-has, map_pixel, shade, map_color-map_pixel, decode_bgp_lem}
use gbx.Ppu.Render.Raster.{plane-Painted}

pixel_in_frame : (w h y x k : ℕ) → y < h → x < w → k < 4 → (y * w + x) * 4 + k < w * h * 4
pixel_in_frame w h y x k p q r = grind arith

-- Where the window is: from the line WY on, and from the column WX - 7 on.
abbrev pub covers : IoRegs → ℕ → ℕ → Bool
covers io y x = leb (Io.read io wy_index) (y % 256) && leb (Io.read io wx_index) (x + 7)

-- The color of the window at a point, by its own map, LCDC bit 6, from its corner.
abbrev pub window_pixel : IoRegs → (ℕ → ℕ) → ℕ → ℕ → ℕ
window_pixel io vram y x =
    map_pixel vram (has 4 (lcdc io)) (if has 6 (lcdc io) then 0x1C00 else 0x1800)
      (y % 256 - Io.read io wy_index) (x + 7 - Io.read io wx_index)

-- The color of the background at a point, by its map, LCDC bit 3, scrolled by SCY and SCX.
abbrev pub background_pixel : IoRegs → (ℕ → ℕ) → ℕ → ℕ → ℕ
background_pixel io vram y x =
    map_pixel vram (has 4 (lcdc io)) (if has 3 (lcdc io) then 0x1C00 else 0x1800)
      ((Io.read io scy_index + y) % 256) ((Io.read io scx_index + x) % 256)

-- The shade of a point where no sprite is: that of the window if it is on, LCDC bit 5, and covers
-- the point, else of the background if that is on, LCDC bit 0, else white.
abbrev pub plane_shade : IoRegs → (ℕ → ℕ) → ℕ → ℕ → ℕ
plane_shade io vram y x =
    if has 5 (lcdc io) && covers io y x
    then shade (Io.read io bgp_index) (window_pixel io vram y x)
    else if has 0 (lcdc io)
    then shade (Io.read io bgp_index) (background_pixel io vram y x)
    else 0xFF

in_window_lem :
    (io : IoRegs) (vram : ℕ → ℕ) (y x : ℕ) → x < 32761 → in_window io vram y x ≡ covers io y x
unfolding in_window
in_window_lem io vram y x h = ground (arith, h)

background_color_lem :
    (io : IoRegs) (vram : ℕ → ℕ) (y x : ℕ)
    → ((a : ℕ) → vram a < 256)
    → background_color io vram y x ≡ background_pixel io vram y x
unfolding background_color
background_color_lem io vram y x bytes =
    map_color-map_pixel vram (is_set (bit_and (lcdc io) 0x10)) (has 4 (lcdc io))
      (is_set (bit_and (lcdc io) 0x08)) (has 3 (lcdc io)) (u8 (Io.read io scy_index + u8 y))
      ((Io.read io scy_index + y) % 256) (u8 (Io.read io scx_index + u8 x))
      ((Io.read io scx_index + x) % 256) bytes (is_set-has 4 (lcdc io)) (is_set-has 3 (lcdc io))
      (omega arith) (omega arith)

window_color_lem :
    (io : IoRegs) (vram : ℕ → ℕ) (y x : ℕ)
    → ((a : ℕ) → vram a < 256)
    → x < 32761
    → covers io y x ≡ true
    → window_color io vram y x ≡ window_pixel io vram y x
unfolding window_color
window_color_lem io vram y x bytes narrow inside =
    map_color-map_pixel vram (is_set (bit_and (lcdc io) 0x10)) (has 4 (lcdc io))
      (is_set (bit_and (lcdc io) 0x40)) (has 6 (lcdc io)) (sub_u8 (u8 y) (Io.read io wy_index))
      (y % 256 - Io.read io wy_index) (u16 (x + 0x10000 + 7 - Io.read io wx_index))
      (x + 7 - Io.read io wx_index) bytes (is_set-has 4 (lcdc io)) (is_set-has 6 (lcdc io))
      (ground (arith, inside)) (ground (arith, inside))

module _ (io : IoRegs) (vram oam : ℕ → ℕ) (width height len : ℕ) (fits : width * height * 4 ≤ len)
    (y x k : ℕ) (in_y : y < height) (in_x : x < width) (in_k : k < 4) where
  -- The same by the colors of the code.
  abbrev code_shade : ℕ
  code_shade =
      if is_set (bit_and (lcdc io) 0x20) && in_window io vram y x
      then decode_bgp (Io.read io bgp_index) (window_color io vram y x)
      else if is_set (bit_and (lcdc io) 0x01)
      then decode_bgp (Io.read io bgp_index) (background_color io vram y x)
      else dmg_shades 0

  abbrev index : ℕ
  index = (y * width + x) * 4 + k

  blank_lem :
      (rgba : ℕ → ℕ)
      → fill_solid len (dmg_shades 0) rgba index ≡ (if k == 3 then 0xFF else dmg_shades 0)
  unfolding fill_solid
  blank_lem rgba = ground (arith, pixel_in_frame width height y x k in_y in_x in_k)

  background_lem :
      (canvas : Canvas)
      → (background io vram width height canvas).rgba index ≡ (
          if is_set (bit_and (lcdc io) 0x01)
          then if k == 3
            then 0xFF
            else decode_bgp (Io.read io bgp_index) (background_color io vram y x)
          else canvas.rgba index)
  unfolding background
  background_lem canvas = elim (Bool-cases (is_set (bit_and (lcdc io) 0x01))) [
    | inl on ↦ rw on (
        ground (
          arith,
          (plane-Painted width (λ y x. true) (background_color io vram)
                (decode_bgp (Io.read io bgp_index)) height y x canvas in_x).1
              k in_k,
        ))
    | inr off ↦ rw off refl
  ]

  window_lem :
      (canvas : Canvas)
      → (window io vram width height canvas).rgba index ≡ (
          if is_set (bit_and (lcdc io) 0x20) && in_window io vram y x
          then if k == 3 then 0xFF else decode_bgp (Io.read io bgp_index) (window_color io vram y x)
          else canvas.rgba index)
  unfolding window
  window_lem canvas = elim (Bool-cases (is_set (bit_and (lcdc io) 0x20))) [
    | inl on ↦ rw on (
        ground (
          arith,
          (plane-Painted width (in_window io vram) (window_color io vram)
                (decode_bgp (Io.read io bgp_index)) height y x canvas in_x).1
              k in_k,
        ))
    | inr off ↦ rw off refl
  ]

  drawn :
      (rgba : ℕ → ℕ)
      → is_set (bit_and (lcdc io) 0x80) ≡ true
      → is_set (bit_and (lcdc io) 0x02) ≡ false
      → render_frame io vram oam width height len rgba index ≡ (if k == 3 then 0xFF else code_shade)
  unfolding render_frame sprites
  drawn rgba on no_sprites =
      let blank = fill_solid len (dmg_shades 0) rgba in
      let clear : Canvas = record { indices = λ _. 0; rgba = blank } in
      let under = background io vram width height clear in
      rw (on, no_sprites) (ground (arith, window_lem under, background_lem clear, blank_lem rgba))

  code_shade_lem : ((a : ℕ) → vram a < 256) → x < 32761 → code_shade ≡ plane_shade io vram y x
  code_shade_lem bytes narrow = elim (Bool-cases (covers io y x)) [
    | inl inside ↦
        rw
          (
            is_set-has 5 (lcdc io),
            is_set-has 0 (lcdc io),
            in_window_lem io vram y x narrow,
            inside,
            window_color_lem io vram y x bytes narrow inside,
            background_color_lem io vram y x bytes,
            decode_bgp_lem (Io.read io bgp_index) (window_pixel io vram y x),
            decode_bgp_lem (Io.read io bgp_index) (background_pixel io vram y x),
          )
          refl
    | inr outside ↦
        rw
          (
            is_set-has 5 (lcdc io),
            is_set-has 0 (lcdc io),
            in_window_lem io vram y x narrow,
            outside,
            background_color_lem io vram y x bytes,
            decode_bgp_lem (Io.read io bgp_index) (background_pixel io vram y x),
          )
          (ground arith)
  ]

  -- With the LCD on, LCDC bit 7, and sprites off, bit 1, each byte of a frame of at most 32761
  -- columns whose buffer is long enough is 0xFF for the alpha channel, and else the shade of its
  -- point: of the window where that is on and covers the point, of the background where that is on,
  -- and white elsewhere, the colors by the tile maps and the tiles in a video memory of bytes.
  pub render_frame_lem :
      (rgba : ℕ → ℕ)
      → ((a : ℕ) → vram a < 256)
      → width ≤ 32761
      → has 7 (lcdc io) ≡ true
      → has 1 (lcdc io) ≡ false
      → render_frame io vram oam width height len rgba ((y * width + x) * 4 + k)
        ≡ (if k == 3 then 0xFF else plane_shade io vram y x)
  render_frame_lem rgba bytes narrow on no_sprites =
      drawn rgba (is_set-has 7 (lcdc io) ∙ on) (is_set-has 1 (lcdc io) ∙ no_sprites)
      ∙ ap (λ c. if k == 3 then 0xFF else c) (code_shade_lem bytes (omega arith))
