-- ===== src/Ppu/Render.antt =====
-- `PpuStub::render_frame` of ppu_stub.rs: the pixels of a frame. A buffer is a function of the
-- index. The assertion of `Core::take_frame`, the caller, keeps every write in range, and every
-- tile address lies in video memory.
pub mod Raster
pub mod Tiles
pub mod Pixels
use gbx.Prelude.{
  ℕ, zero, suc, ◌+◌, ◌-◌, ◌*◌, ◌/◌, ◌%◌, bit_and, bit_or, ◌<<<◌, ◌>>>◌, u8, u16, sub_u8, Bool, true,
  false, not, ◌&&◌, ◌||◌, ◌==◌, ltb, leb, is_set, if◌then◌else◌, Option, none, some, update,
  sign_extend,
}
use gbx.Io
use gbx.Io.{IoRegs, lcdc_index}

-- `IoRegs::SCY`, `SCX`, `BGP`, `OBP0`, `OBP1`, `WY` and `WX`
abbrev pub scy_index : ℕ
scy_index = 0x42

abbrev pub scx_index : ℕ
scx_index = 0x43

abbrev pub bgp_index : ℕ
bgp_index = 0x47

abbrev pub obp0_index : ℕ
obp0_index = 0x48

abbrev pub obp1_index : ℕ
obp1_index = 0x49

abbrev pub wy_index : ℕ
wy_index = 0x4A

abbrev pub wx_index : ℕ
wx_index = 0x4B

abbrev pub dmg_shades : ℕ → ℕ
dmg_shades i = if i == 0 then 0xFF else if i == 1 then 0xAA else if i == 2 then 0x55 else 0x00

-- `decode_bgp`: the shade of a color by a palette register.
unfoldable pub decode_bgp : ℕ → ℕ → ℕ
decode_bgp bgp cid = dmg_shades (bit_and (bgp >>> (cid * 2)) 0x03)

unfoldable pub read_vram : (ℕ → ℕ) → ℕ → ℕ
read_vram vram addr = vram (addr - 0x8000)

-- `bg_indices` and `out_rgba`
pub record Canvas : Type 0 where
  pub indices : ℕ → ℕ
  pub rgba : ℕ → ℕ

-- The four bytes of a pixel.
unfoldable pub put_pixel : (ℕ → ℕ) → ℕ → ℕ → ℕ → ℕ
put_pixel rgba idx shade =
    update (update (update (update rgba (idx * 4) shade) (idx * 4 + 1) shade) (idx * 4 + 2) shade)
      (idx * 4 + 3) 0xFF

-- `for i in 0..n`, and the same in reverse.
unfoldable pub for_below : {S : Type 0} → ℕ → (ℕ → S → S) → S → S
for_below zero body s = s
for_below (suc n) body s = body n (for_below n body s)

unfoldable pub for_down : {S : Type 0} → ℕ → (ℕ → S → S) → S → S
for_down zero body s = s
for_down (suc n) body s = for_down n body (body n s)

-- `fill_solid`, of a buffer of `len` bytes: whole pixels only.
unfoldable pub fill_solid : ℕ → ℕ → (ℕ → ℕ) → ℕ → ℕ
fill_solid len shade rgba i =
    if ltb i (len - len % 4) then if i % 4 == 3 then 0xFF else shade else rgba i

-- The color of the pixel `bit` of the row of a tile at `row_addr`.
unfoldable pub tile_color : (ℕ → ℕ) → ℕ → ℕ → ℕ
unfolding read_vram
tile_color vram row_addr bit =
    let lo = read_vram vram row_addr in
    let hi = read_vram vram (u16 (row_addr + 1)) in
    bit_or (bit_and (hi >>> bit) 0x01 <<< 1) (bit_and (lo >>> bit) 0x01)

-- The first address of a tile of the background or the window.
unfoldable pub tile_base : Bool → ℕ → ℕ
tile_base true tile_id = u16 (0x8000 + tile_id * 16)
tile_base false tile_id = u16 (0x9000 + sign_extend tile_id * 16)

-- The color at the point (px, py) of a tile map.
unfoldable pub map_color : (ℕ → ℕ) → Bool → ℕ → ℕ → ℕ → ℕ
unfolding tile_color tile_base read_vram
map_color vram unsigned map_base py px =
    let tile_row = bit_and (py >>> 3) 31 in
    let tile_col = bit_and (px >>> 3) 31 in
    let tile_id = read_vram vram (u16 (map_base + (tile_row * 32 + tile_col))) in
    let row_addr = u16 (tile_base unsigned tile_id + bit_and py 0x07 * 2) in
    tile_color vram row_addr (7 - bit_and px 0x07)

-- Both writes of a pixel of the background or the window.
unfoldable pub paint : (ℕ → ℕ) → ℕ → ℕ → Canvas → Canvas
paint palette idx color_id canvas = record {
  indices = update canvas.indices idx color_id;
  rgba = put_pixel canvas.rgba idx (palette color_id);
}

-- The two loops of a plane: each pixel that the plane covers is painted.
module _ (width : ℕ) (covers : ℕ → ℕ → Bool) (color : ℕ → ℕ → ℕ) (palette : ℕ → ℕ) where
  unfoldable pub plane_pixel : ℕ → ℕ → Canvas → Canvas
  plane_pixel y x canvas =
      if covers y x then paint palette (y * width + x) (color y x) canvas else canvas

  unfoldable pub plane : ℕ → Canvas → Canvas
  unfolding plane_pixel
  plane height = for_below height (λ y. for_below width (λ x. plane_pixel y x))

abbrev pub lcdc : IoRegs → ℕ
lcdc io = Io.read io lcdc_index

module _ (io : IoRegs) (vram : ℕ → ℕ) where
  unfoldable pub background_color : ℕ → ℕ → ℕ
  background_color y x =
      map_color vram (is_set (bit_and (lcdc io) 0x10))
        (if is_set (bit_and (lcdc io) 0x08) then 0x9C00 else 0x9800)
        (u8 (Io.read io scy_index + u8 y)) (u8 (Io.read io scx_index + u8 x))

  unfoldable pub background : ℕ → ℕ → Canvas → Canvas
  background width height canvas =
      if is_set (bit_and (lcdc io) 0x01)
      then plane width (λ y x. true) background_color (decode_bgp (Io.read io bgp_index)) height
          canvas
      else canvas

  -- Where the two `continue` of the window's loops are not taken: `(y as u8) < wy`, and
  -- `(x as i16) < wx - 7`, both sides of it moved up by 2 ^ 15.
  unfoldable pub in_window : ℕ → ℕ → Bool
  in_window y x =
      leb (Io.read io wy_index) (u8 y)
      && not (ltb (u16 (x + 0x8000)) (Io.read io wx_index + 0x8000 - 7))

  -- `win_x` is a difference of i16, which wraps, as u16.
  unfoldable pub window_color : ℕ → ℕ → ℕ
  window_color y x =
      map_color vram (is_set (bit_and (lcdc io) 0x10))
        (if is_set (bit_and (lcdc io) 0x40) then 0x9C00 else 0x9800)
        (sub_u8 (u8 y) (Io.read io wy_index)) (u16 (x + 0x10000 + 7 - Io.read io wx_index))

  unfoldable pub window : ℕ → ℕ → Canvas → Canvas
  window width height canvas =
      if is_set (bit_and (lcdc io) 0x20)
      then plane width in_window window_color (decode_bgp (Io.read io bgp_index)) height canvas
      else canvas

-- An entry of OAM, decoded.
pub record Sprite : Type 0 where
  pub y_pos : ℕ
  pub x_pos : ℕ
  pub tile_id : ℕ
  pub attrs : ℕ

unfoldable pub sprite_entry : (ℕ → ℕ) → ℕ → Sprite
sprite_entry oam sprite =
    let base = sprite * 4 in
    record {
      y_pos = sub_u8 (oam base) 16;
      x_pos = sub_u8 (oam (base + 1)) 8;
      tile_id = oam (base + 2);
      attrs = oam (base + 3);
    }

-- The address of a row of a sprite.
unfoldable pub sprite_row_addr : ℕ → ℕ → ℕ → ℕ
sprite_row_addr sprite_height tile_id effective_row =
    if sprite_height == 16
    then 0x8000 + bit_and tile_id 0xFE * 16 + effective_row % 8 * 2 + effective_row / 8 * 32
    else 0x8000 + tile_id * 16 + effective_row * 2

module _ (vram : ℕ → ℕ) (width height sprite_height : ℕ) (palette : ℕ → ℕ) (s : Sprite) where
  -- One column of a row at `screen_y`: the pixel, unless it is off the screen, transparent, or
  -- behind the background.
  unfoldable pub sprite_pixel : ℕ → ℕ → ℕ → Canvas → Canvas
  unfolding tile_color
  sprite_pixel row_addr screen_y col canvas =
      let screen_x = u8 (s.x_pos + col) in
      let bit = if is_set (bit_and s.attrs 0x20) then col else 7 - col in
      let color_id = tile_color vram row_addr bit in
      let idx = screen_y * width + screen_x in
      if leb width screen_x
        || color_id == 0
        || is_set (bit_and s.attrs 0x80) && is_set (canvas.indices idx)
      then canvas
      else record canvas { rgba = put_pixel canvas.rgba idx (palette color_id) }

  unfoldable pub sprite_row : ℕ → Canvas → Canvas
  unfolding sprite_pixel sprite_row_addr
  sprite_row row canvas =
      let screen_y = u8 (s.y_pos + u8 row) in
      let effective_row = if is_set (bit_and s.attrs 0x40) then sprite_height - 1 - row else row in
      let row_addr = sprite_row_addr sprite_height s.tile_id effective_row in
      if leb height screen_y then canvas else for_below 8 (sprite_pixel row_addr screen_y) canvas

module _ (io : IoRegs) (vram oam : ℕ → ℕ) (width height : ℕ) where
  -- The body of the loop over the sprites.
  unfoldable pub draw_sprite : ℕ → Canvas → Canvas
  unfolding sprite_entry sprite_row
  draw_sprite sprite canvas =
      let s = sprite_entry oam sprite in
      let sprite_height = if is_set (bit_and (lcdc io) 0x04) then 16 else 8 in
      let palette =
        decode_bgp
          (Io.read io (if is_set (bit_and s.attrs 0x10) then obp1_index else obp0_index)) in
      for_below sprite_height (sprite_row vram width height sprite_height palette s) canvas

  unfoldable pub sprites : Canvas → Canvas
  sprites canvas =
      if is_set (bit_and (lcdc io) 0x02) then for_down 40 draw_sprite canvas else canvas

  -- The frame in a buffer of `len` bytes.
  unfoldable pub render_frame : ℕ → (ℕ → ℕ) → ℕ → ℕ
  render_frame len rgba =
      let blank = fill_solid len (dmg_shades 0) rgba in
      if is_set (bit_and (lcdc io) 0x80)
      then (sprites (
          window io vram width height
            (background io vram width height (record { indices = λ _. 0; rgba = blank })))).rgba
      else blank
