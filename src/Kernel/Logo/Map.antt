-- ===== src/Kernel/Logo/Map.antt =====
-- The tile map of the logo (instance.rs): the copy that is drawn, and the one in video memory.
use gbx.Prelude.{
  ℕ, zero, suc, ◌+◌, ◌<◌, ◌≡◌, arith, refl, true, ◌==◌, if◌then◌else◌, all_below, all_below_sound,
  ==_iff,
}
use gbx.Kernel.Logo.{write_checked, tilemap_loop, write_logo_tilemap, build_logo_map}

-- The cell `j` of `over` is that of `marks` where this is not 0, and else `under`.
abbrev Overlays : ℕ → (ℕ → ℕ) → ℕ → ℕ → Type 0
Overlays under marks written j = written ≡ (if marks j == 0 then under else marks j)

write_checked-Overlays :
    (under : ℕ) (marks over : ℕ → ℕ) (addr a j : ℕ)
    → Overlays under marks (over j) j
    → Overlays under (write_checked marks addr (suc a)) (write_checked over addr (suc a) j) j
unfolding write_checked
write_checked-Overlays under marks over addr a j h = ground arith

tilemap_loop-Overlays :
    (under a c hl : ℕ) (marks over : ℕ → ℕ) (j : ℕ)
    → Overlays under marks (over j) j
    → Overlays under (tilemap_loop a c hl marks) (tilemap_loop a c hl over j) j
unfolding tilemap_loop
tilemap_loop-Overlays under zero c hl marks over j h = h
tilemap_loop-Overlays under (suc zero) c hl marks over j h = h
tilemap_loop-Overlays under (suc (suc a)) c hl marks over j h =
    tilemap_loop-Overlays under (suc a) _ _ (write_checked marks hl (suc a))
      (write_checked over hl (suc a)) j (write_checked-Overlays under marks over hl a j h)

maps_agree :
    all_below 1024 (λ i. write_logo_tilemap (λ _. 0) (0x1800 + i) == build_logo_map i) ≡ true
unfolding all_below build_logo_map write_logo_tilemap
maps_agree = refl

-- Each cell of the map at 0x9800 shows the tile that the map of the boot sequence has there, where
-- that has one, and else the tile that it showed before.
pub write_logo_tilemap-build_logo_map :
    (vram : ℕ → ℕ) (i : ℕ)
    → i < 1024
    → write_logo_tilemap vram (0x1800 + i)
      ≡ (if build_logo_map i == 0 then vram (0x1800 + i) else build_logo_map i)
unfolding write_logo_tilemap
write_logo_tilemap-build_logo_map vram i h =
    let agree =
      (==_iff (write_logo_tilemap (λ _. 0) (0x1800 + i)) (build_logo_map i)).0
        (all_below_sound 1024 _ i maps_agree h) in
    let first =
      write_checked-Overlays (vram (0x1800 + i)) (λ _. 0) vram 0x9910 0x18 (0x1800 + i) refl in
    ground (
      arith,
      agree,
      tilemap_loop-Overlays (vram (0x1800 + i)) 0x19 0x0C 0x992F
          (write_checked (λ _. 0) 0x9910 0x19) (write_checked vram 0x9910 0x19) (0x1800 + i) first,
    )
