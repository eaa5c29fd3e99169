-- ===== src/Raster.antt =====
-- browser/raster.py: the tiles in which a page is captured. The sizes in pixels, which the code gets from
-- floats, and what the browser answers for a tile are arguments.
use browser_cli.Prelude.{
  ℕ, zero, suc, ◌+◌, ◌-◌, ◌*◌, ◌/◌, List, [], ◌∷◌, ◌++◌, Option, none, some, Bool, true, false,
  ◌||◌, leb, ltb, map, if◌then◌else◌,
}
pub mod Range
pub mod Tiles
mod Examples

abbrev pub max_pixels : ℕ
max_pixels = 64000000

abbrev pub max_tiles : ℕ
max_tiles = 256

-- The canvas, a tile, and the part of the canvas that the page fills.
pub record Geometry : Type 0 where
  pub width : ℕ
  pub height : ℕ
  pub tile_width : ℕ
  pub tile_height : ℕ
  pub content_width : ℕ
  pub content_height : ℕ

pub record Tile : Type 0 where
  pub left : ℕ
  pub top : ℕ
  pub pixels_wide : ℕ
  pub pixels_high : ℕ

pub data CaptureError : Type 0 where
  too_large not_painted undersized : CaptureError

-- `math.ceil(a / b)` for a positive `b`
abbrev pub ceil_div : ℕ → ℕ → ℕ
ceil_div a b = (a + (b - 1)) / b

unfoldable pub is_too_large : Geometry → Bool
is_too_large g =
    ltb max_pixels (g.width * g.height)
    || ltb max_tiles (ceil_div g.width g.tile_width * ceil_div g.height g.tile_height)

-- `range(start, stop, step)`; `stop` is fuel enough for a positive step.
unfoldable pub range_by : ℕ → ℕ → ℕ → ℕ → List ℕ
range_by zero start stop step = []
range_by (suc fuel) start stop step =
    let rest = range_by fuel (start + step) stop step in if ltb start stop then start ∷ rest else []

abbrev pub min : ℕ → ℕ → ℕ
min a b = if leb a b then a else b

abbrev pub tile_at : Geometry → ℕ → ℕ → Tile
tile_at g top left = record {
  left = left;
  top = top;
  pixels_wide = min g.tile_width (g.content_width - left);
  pixels_high = min g.tile_height (g.content_height - top);
}

unfoldable pub row : Geometry → ℕ → List ℕ → List Tile
row g top [] = []
row g top (left ∷ lefts) = tile_at g top left ∷ row g top lefts

unfoldable pub rows : Geometry → List ℕ → List Tile
rows g [] = []
rows g (top ∷ tops) =
    row g top (range_by g.content_width 0 g.content_width g.tile_width) ++ rows g tops

-- The tiles in the order in which they are captured.
unfoldable pub tiles : Geometry → List Tile
tiles g = rows g (range_by g.content_height 0 g.content_height g.tile_height)

-- What the browser does for a tile: it may not reach the position, and answers with an image.
pub record Shot (I : Type 0) : Type 0 where
  pub reached : Bool
  pub image_width : ℕ
  pub image_height : ℕ
  pub image : I

pub data Capture (A : Type 0) : Type 0 where
  captured : A → Capture A
  refused : CaptureError → Capture A

module _ {I : Type 0} where
  abbrev pub check_shot : Tile → Shot I → Capture (Tile × I)
  check_shot t s =
      if s.reached
      then if ltb s.image_width t.pixels_wide || ltb s.image_height t.pixels_high
        then refused undersized
        else captured (t, s.image)
      else refused not_painted

  abbrev pub and_more : Capture (Tile × I) → Capture (List (Tile × I)) → Capture (List (Tile × I))
  and_more (refused e) more = refused e
  and_more (captured p) (refused e) = refused e
  and_more (captured p) (captured ps) = captured (p ∷ ps)

  -- The images that are pasted at their tiles, in order; an error ends the loop.
  unfoldable pub paste : (Tile → Shot I) → List Tile → Capture (List (Tile × I))
  paste shoot [] = captured []
  paste shoot (t ∷ ts) = and_more (check_shot t (shoot t)) (paste shoot ts)

  unfoldable pub capture_tiled : (Tile → Shot I) → Geometry → Capture (List (Tile × I))
  capture_tiled shoot g = if is_too_large g then refused too_large else paste shoot (tiles g)
