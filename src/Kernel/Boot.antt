-- ===== src/Kernel/Boot.antt =====
-- The boot sequence that stands in for a boot ROM, crates/04-services/kernel/src/instance.rs: its
-- phases, and the frames that it draws.
pub mod Phases
use gbx.Prelude.{
  ℕ, zero, suc, ◌+◌, ◌-◌, ◌*◌, ◌/◌, ◌%◌, bit_and, sub_u8, Bool, true, false, ◌==◌, ltb,
  if◌then◌else◌, Option, none, some, List,
}
use gbx.Io
use gbx.Bus.{Bus}
use gbx.Ppu.Render.{bgp_index, scy_index, for_below, put_pixel}
use gbx.Kernel.Logo.{
  boot_tile_count, boot_shades, prepare_boot_vram, capture_logo_tiles, build_logo_map,
}

pub data BootPhase : Type 0 where
  scroll : (remaining_steps frame_delay : ℕ) → BootPhase
  pause : (frames_left : ℕ) → BootPhase
  done : BootPhase

-- `tiles idx row col` is a pixel of a tile; the map has its rows one after the other.
pub record BootSequence : Type 0 where
  pub scy : ℕ
  pub phase : BootPhase
  pub tiles : ℕ → ℕ → ℕ → ℕ
  pub map : ℕ → ℕ

-- `BootSequence::new`, with the bus that it prepares.
unfoldable pub new : Bus → List ℕ → BootSequence × Bus
new bus rom =
    let vram = prepare_boot_vram rom bus.vram in
    (
      record {
        scy = 0;
        phase = scroll 100 2;
        tiles = capture_logo_tiles vram;
        map = build_logo_map;
      },
      record bus { vram = vram; io = Io.write (Io.write bus.io bgp_index 0xFC) scy_index 0x00 },
    )

-- `advance`, by the phase: the sequence, and the bus of the core.
unfoldable pub advance_phase : BootPhase → BootSequence → Bus → BootSequence × Bus
advance_phase (scroll zero frame_delay) boot bus = (record boot { phase = pause 64 }, bus)
advance_phase (scroll (suc remaining) zero) boot bus =
    let scy = sub_u8 boot.scy 1 in
    (
      record boot { scy = scy; phase = if remaining == 0 then pause 64 else scroll remaining 2 },
      record bus { io = Io.write bus.io scy_index scy },
    )
advance_phase (scroll (suc remaining) (suc delay)) boot bus =
    (record boot { phase = scroll (suc remaining) delay }, bus)
advance_phase (pause zero) boot bus =
    (record boot { scy = 0; phase = done }, record bus { io = Io.write bus.io scy_index 0x00 })
advance_phase (pause (suc left)) boot bus = (record boot { phase = pause left }, bus)
advance_phase done boot bus = (boot, bus)

unfoldable pub advance : BootSequence → Bus → BootSequence × Bus
unfolding advance_phase
advance boot bus = advance_phase boot.phase boot bus

-- The color at the point (x, y) of the screen, in `render_boot_frame`; `tiles.len()` is 26.
unfoldable pub boot_color : BootSequence → ℕ → ℕ → ℕ
boot_color boot y x =
    let bg_y = (y + boot.scy) % 256 in
    let bg_x = x % 256 in
    let tile_id = boot.map (bg_y / 8 % 32 * 32 + bg_x / 8 % 32) in
    if ltb tile_id (boot_tile_count + 1) then boot.tiles tile_id (bg_y % 8) (bg_x % 8) else 0

-- `render_boot_frame` into a buffer of `len` bytes; an index out of range is a panic.
unfoldable pub render_boot_frame : ℕ → (ℕ → ℕ) → BootSequence → Option (ℕ → ℕ)
unfolding boot_color
render_boot_frame len buf boot =
    if ltb len (144 * 160 * 4)
    then none
    else some (
        for_below 144
          (λ y.
            for_below 160
              (λ x buf. put_pixel buf (y * 160 + x) (boot_shades (boot_color boot y x))))
          buf)

abbrev pub is_done : BootPhase → Bool
is_done (scroll remaining delay) = false
is_done (pause left) = false
is_done done = true

-- `BootSequence::render`: the frame, the sequence, the bus, and whether the sequence has ended.
unfoldable pub render :
    ℕ → (ℕ → ℕ) → BootSequence → Bus → Option ((ℕ → ℕ) × BootSequence × Bus × Bool)
render len buf boot bus = elim (render_boot_frame len buf boot) [
  | none ↦ none
  | some drawn ↦
      let (next, written) = advance boot bus in some (drawn, next, written, is_done next.phase)
]
