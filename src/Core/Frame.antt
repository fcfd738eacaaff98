-- ===== src/Core/Frame.antt =====
-- `frame_ready`, `set_ppu_enabled` and `take_frame` of core.rs. A panic is `none`; the frame's size
-- of at most 2 ^ 34 bytes fits in a usize.
use gbx.Prelude.{ℕ, ◌*◌, ltb, if◌then◌else◌, Bool, false, Option, none, some}
use gbx.Core.{Core}
use gbx.Ppu.Render.{render_frame}

unfoldable pub frame_ready : Core → Bool
frame_ready core = core.ppu.frame_ready

unfoldable pub set_ppu_enabled : Core → Bool → Core
set_ppu_enabled core enabled = record core { ppu_enabled = enabled }

-- `len` is the length of the buffer `out_rgba`.
unfoldable pub take_frame : ℕ → (ℕ → ℕ) → Core → Option ((ℕ → ℕ) × Core)
take_frame len out_rgba core =
    let width = core.config.frame_width in
    let height = core.config.frame_height in
    if ltb len (width * height * 4)
    then none
    else some (
      render_frame core.bus.io core.bus.vram core.bus.oam width height len out_rgba,
      record core { ppu = record (core.ppu) { frame_ready = false }; cycles_this_frame = 0 },
    )
