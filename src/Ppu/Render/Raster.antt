-- ===== src/Ppu/Render/Raster.antt =====
-- The loops of a plane (ppu_stub.rs) paint each pixel that it covers, once.
use gbx.Prelude.{
  ℕ, zero, suc, ◌+◌, ◌*◌, ◌≤◌, ◌<◌, ◌≡◌, ap, arith, Bool, ◌&&◌, ◌==◌, ltb, if◌then◌else◌,
}
use native.Mathlib.Decide.{dec_lt}
use gbx.Ppu.Render.{Canvas, put_pixel, for_below, paint, plane_pixel, plane}

row_lt : (w y x r c : ℕ) → x < w → y < r → y * w + x < r * w + c
row_lt w y x r c p q = grind arith

-- A cell of the raster has one row and one column.
cell : (w y x r c : ℕ) → x < w → c < w → y * w + x ≡ r * w + c → (y ≡ r) × (x ≡ c)
cell w y x r c p q e = elim (dec_lt y r) [
  | yes h ↦ absurd (omega (arith, row_lt w y x r c p h))
  | no h ↦ elim (dec_lt r y) [
    | yes h2 ↦ absurd (omega (arith, row_lt w r c y x q h2))
    | no h2 ↦ let same : y ≡ r = omega arith in (same, omega (arith, ap (λ (t : ℕ). t * w) same))
  ]
]

-- The four bytes of the pixel `idx`, and those of another.
put_pixel_lem :
    (rgba : ℕ → ℕ) (idx shade i k : ℕ)
    → k < 4
    → put_pixel rgba idx shade (i * 4 + k)
      ≡ (if i == idx then (if k == 3 then 0xFF else shade) else rgba (i * 4 + k))
unfolding put_pixel
put_pixel_lem rgba idx shade i k h = ground arith

module _ (width : ℕ) (covers : ℕ → ℕ → Bool) (color : ℕ → ℕ → ℕ) (palette : ℕ → ℕ) where
  -- What the canvas `c` holds of the pixel (x, y) is painted, or is that of `before`.
  abbrev Painted : Bool → ℕ → ℕ → Canvas → Canvas → Type 0
  Painted here y x before c =
      (c.indices (y * width + x) ≡ (if here then color y x else before.indices (y * width + x)))
      × ((k : ℕ)
          → k < 4
          → c.rgba ((y * width + x) * 4 + k) ≡ (
              if here
              then if k == 3 then 0xFF else palette (color y x)
              else before.rgba ((y * width + x) * 4 + k)))

  plane_pixel-Painted :
      (r c y x : ℕ) (canvas : Canvas)
      → c < width
      → x < width
      → Painted
          (y == r && x == c && covers y x)
          y
          x
          canvas
          (plane_pixel width covers color palette r c canvas)
  unfolding plane_pixel paint
  plane_pixel-Painted r c y x canvas p q = (
    ground (arith, cell width y x r c q p),
    λ k h. ground (
      arith,
      cell width y x r c q p,
      put_pixel_lem canvas.rgba (r * width + c) (palette (color r c)) (y * width + x) k h,
    ),
  )

  row-Painted :
      (r m y x : ℕ) (canvas : Canvas)
      → m ≤ width
      → x < width
      → Painted
          (y == r && ltb x m && covers y x)
          y
          x
          canvas
          (for_below m (plane_pixel width covers color palette r) canvas)
  unfolding for_below
  row-Painted r zero y x canvas p q = (ground arith, λ k h. ground arith)
  row-Painted r (suc m) y x canvas p q =
      let (indices, rgba) = row-Painted r m y x canvas (omega arith) q in
      let (here_indices, here_rgba) =
        plane_pixel-Painted r m y x (for_below m (plane_pixel width covers color palette r) canvas)
          (omega arith) q in
      (ground (arith, indices, here_indices), λ k h. ground (arith, rgba k h, here_rgba k h))

  -- The rows above `n` are painted where the plane covers them.
  pub plane-Painted :
      (n y x : ℕ) (canvas : Canvas)
      → x < width
      → Painted (ltb y n && covers y x) y x canvas (plane width covers color palette n canvas)
  unfolding plane for_below
  plane-Painted zero y x canvas q = (ground arith, λ k h. ground arith)
  plane-Painted (suc n) y x canvas q =
      let (indices, rgba) = plane-Painted n y x canvas q in
      let (here_indices, here_rgba) =
        row-Painted n width y x (plane width covers color palette n canvas) (omega arith) q in
      (ground (arith, indices, here_indices), λ k h. ground (arith, rgba k h, here_rgba k h))
