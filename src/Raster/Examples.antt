-- ===== src/Raster/Examples.antt =====
-- A capture of 5 by 3 pixels in tiles of 2 by 2.
use browser_cli.Prelude.{ℕ, ◌+◌, ◌*◌, In, List, [], ◌∷◌, map, ◌≡◌, refl, arith, true}
use browser_cli.Raster.{
  Geometry, Tile, Shot, captured, range_by, row, rows, tiles, is_too_large, paste, capture_tiled,
  tile_at,
}
use browser_cli.Raster.Tiles.{Holds, capture_tiled_covers}

-- What a test by evaluation unfolds.
program : Unit {0}
unfolding range_by row rows tiles is_too_large paste capture_tiled
program = tt

abbrev geometry : Geometry
geometry = record {
  width = 6;
  height = 3;
  tile_width = 2;
  tile_height = 2;
  content_width = 5;
  content_height = 3;
}

abbrev full : Tile → Shot ℕ
full t = record { reached = true; image_width = 2; image_height = 2; image = t.left + 10 * t.top }

abbrev pasted : List (Tile × ℕ)
pasted =
    (tile_at geometry 0 0, 0)
    ∷ (tile_at geometry 0 2, 2)
    ∷ (tile_at geometry 0 4, 4)
    ∷ (tile_at geometry 2 0, 20)
    ∷ (tile_at geometry 2 2, 22)
    ∷ (tile_at geometry 2 4, 24)
    ∷ []

succeeds : capture_tiled full geometry ≡ captured pasted
unfolding program
succeeds = refl

capture_tiled_covers_example :
    (t : Tile) × In t (map (λ p. p.0) pasted)
    × Holds 3 2 t
    × ((u : Tile) → In u (map (λ p. p.0) pasted) → Holds 3 2 u → u ≡ t)
capture_tiled_covers_example =
    capture_tiled_covers full geometry pasted 3 2 succeeds (omega arith) (omega arith) (omega arith)
      (omega arith)
