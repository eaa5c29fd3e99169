-- ===== src/Raster/Tiles.antt =====
-- browser/raster.py: the tiles and the pixels of the content.
use browser_cli.Prelude.{
  ℕ, ◌+◌, ◌≤◌, ◌<◌, List, [], ◌∷◌, ◌++◌, ◌||◌, ltb, ◌≡◌, ◌⊎◌, inl, inr, refl, sym, ap, ◌∙◌,
  Bool-cases, arith, map, In,
}
use browser_cli.Raster.{
  Geometry, Tile, range_by, tile_at, row, rows, tiles, Shot, Capture, captured, refused, paste,
  check_shot, and_more, capture_tiled, is_too_large,
}
use browser_cli.Raster.Range.{range_by-covers, range_by-once, min_above, min_below}

-- The tile has the pixel in its part of the canvas.
abbrev pub Holds : ℕ → ℕ → Tile → Type 0
Holds x y t =
    (t.left ≤ x) × (x < t.left + t.pixels_wide) × (t.top ≤ y) × (y < t.top + t.pixels_high)

module _ (g : Geometry) where
  abbrev lefts : List ℕ
  lefts = range_by g.content_width 0 g.content_width g.tile_width

  abbrev tops : List ℕ
  tops = range_by g.content_height 0 g.content_height g.tile_height

  tile_at-row : (top left : ℕ) (xs : List ℕ) → In left xs → In (tile_at g top left) (row g top xs)
  unfolding row
  tile_at-row top left [] i = elim i [ ]
  tile_at-row top left (x ∷ xs) (inl e) = inl (ap (tile_at g top) e)
  tile_at-row top left (x ∷ xs) (inr i) = inr (tile_at-row top left xs i)

  row-tile_at :
      (top : ℕ) (t : Tile) (xs : List ℕ)
      → In t (row g top xs)
      → (left : ℕ) × In left xs × (t ≡ tile_at g top left)
  unfolding row
  row-tile_at top t [] i = elim i [ ]
  row-tile_at top t (x ∷ xs) (inl e) = (x, inl refl, sym e)
  row-tile_at top t (x ∷ xs) (inr i) = let (l, j, e) = row-tile_at top t xs i in (l, inr j, e)

  In-left : (t : Tile) (xs ys : List Tile) → In t xs → In t (xs ++ ys)
  In-left t (x ∷ xs) ys (inl e) = inl e
  In-left t (x ∷ xs) ys (inr i) = inr (In-left t xs ys i)
  In-left t [] ys i = elim i [ ]

  In-right : (t : Tile) (xs ys : List Tile) → In t ys → In t (xs ++ ys)
  In-right t [] ys i = i
  In-right t (x ∷ xs) ys i = inr (In-right t xs ys i)

  In-split : (t : Tile) (xs ys : List Tile) → In t (xs ++ ys) → In t xs ⊎ In t ys
  In-split t [] ys i = inr i
  In-split t (x ∷ xs) ys (inl e) = inl (inl e)
  In-split t (x ∷ xs) ys (inr i) = elim (In-split t xs ys i) [ inl a ↦ inl (inr a) | inr b ↦ inr b ]

  tile_at-rows :
      (top left : ℕ) (xs : List ℕ) → In top xs → In left lefts → In (tile_at g top left) (rows g xs)
  unfolding rows
  tile_at-rows top left [] i j = elim i [ ]
  tile_at-rows top left (x ∷ xs) (inl e) j =
      In-left (tile_at g top left) (row g x lefts) (rows g xs) (rw e (tile_at-row top left lefts j))
  tile_at-rows top left (x ∷ xs) (inr i) j =
      In-right _ (row g x lefts) _ (tile_at-rows top left xs i j)

  rows-tile_at :
      (t : Tile) (xs : List ℕ)
      → In t (rows g xs)
      → (top : ℕ) × (left : ℕ) × In top xs × In left lefts × (t ≡ tile_at g top left)
  unfolding rows
  rows-tile_at t [] i = elim i [ ]
  rows-tile_at t (x ∷ xs) i = elim (In-split t (row g x lefts) (rows g xs) i) [
    | inl a ↦ let (l, j, e) = row-tile_at x t lefts a in (x, l, inl refl, j, e)
    | inr b ↦ let (top, l, k, j, e) = rows-tile_at t xs b in (top, l, inr k, j, e)
  ]

  -- Two tiles that hold a pixel are the same.
  tile_once :
      (x y top left top' left' : ℕ)
      → In top tops
      → In left lefts
      → In top' tops
      → In left' lefts
      → Holds x y (tile_at g top left)
      → Holds x y (tile_at g top' left')
      → tile_at g top' left' ≡ tile_at g top left
  tile_once x y top left top' left' i j i' j' (a, b, c, d) (a', b', c', d') =
      let same_left : left' ≡ left =
        range_by-once g.content_width 0 g.content_width g.tile_width x left' left j' j a'
          (min_below left' g.tile_width _ x b') a (min_below left g.tile_width _ x b) in
      let same_top : top' ≡ top =
        range_by-once g.content_height 0 g.content_height g.tile_height y top' top i' i c'
          (min_below top' g.tile_height _ y d') c (min_below top g.tile_height _ y d) in
      rw (same_left, same_top) refl

  -- Where tiles are not empty, each pixel of the content lies in exactly one of the tiles.
  pub tiles_cover :
      (x y : ℕ)
      → 1 ≤ g.tile_width
      → 1 ≤ g.tile_height
      → x < g.content_width
      → y < g.content_height
      → (t : Tile) × In t (tiles g)
        × Holds x y t
        × ((u : Tile) → In u (tiles g) → Holds x y u → u ≡ t)
  unfolding tiles
  tiles_cover x y wide high inside below =
      let (l, i, l_low, l_high) =
        range_by-covers g.content_width 0 g.content_width g.tile_width x wide (omega arith)
          (omega arith) inside in
      let (p, j, p_low, p_high) =
        range_by-covers g.content_height 0 g.content_height g.tile_height y high (omega arith)
          (omega arith) below in
      let held : Holds x y (tile_at g p l) = (
        l_low,
        min_above l g.tile_width g.content_width x l_low l_high inside,
        p_low,
        min_above p g.tile_height g.content_height y p_low p_high below,
      ) in
      (
        tile_at g p l,
        tile_at-rows p l tops j i,
        held,
        λ u k other.
            let (p', l', j', i', e) = rows-tile_at u tops k in
            e ∙ tile_once x y p l p' l' j i j' i' held (rw e at other),
      )

module _ {I : Type 0} (shoot : Tile → Shot I) where
  captured-injective : {A : Type 0} (a b : A) → captured a ≡ captured b → a ≡ b
  captured-injective a b e = ap (λ c. elim c [ captured x ↦ x | refused _ ↦ a ]) e

  more_captured :
      (c : Capture (Tile × I)) (m : Capture (List (Tile × I))) (ps : List (Tile × I))
      → and_more c m ≡ captured ps
      → (q : Tile × I) × (qs : List (Tile × I)) × (c ≡ captured q)
        × (m ≡ captured qs)
        × (ps ≡ q ∷ qs)
  more_captured (refused r) m ps e = absurd (ground (arith, e))
  more_captured (captured q) (refused r) ps e = absurd (ground (arith, e))
  more_captured (captured q) (captured qs) ps e =
      (q, qs, refl, refl, sym (captured-injective (q ∷ qs) ps e))

  shot_tile : (t : Tile) (s : Shot I) (q : Tile × I) → check_shot t s ≡ captured q → q.0 ≡ t
  shot_tile t s q e = elim (Bool-cases s.reached) [
    | inr far ↦ absurd (ground arith)
    | inl near ↦
        elim (Bool-cases (ltb s.image_width t.pixels_wide || ltb s.image_height t.pixels_high)) [
          | inl small ↦ absurd (ground arith)
          | inr full ↦
              let made : check_shot t s ≡ captured (t, s.image) = rw (near, full) refl in
              ap (λ p. p.0) (sym (captured-injective (t, s.image) q (sym made ∙ e)))
        ]
  ]

  pasted_tiles :
      (ts : List Tile) (ps : List (Tile × I))
      → paste shoot ts ≡ captured ps
      → map (λ p. p.0) ps ≡ ts
  unfolding paste
  pasted_tiles [] ps e = ap (map (λ p. p.0)) (sym (captured-injective [] ps e))
  pasted_tiles (t ∷ ts) ps e =
      let (q, qs, first, rest, same) =
        more_captured (check_shot t (shoot t)) (paste shoot ts) ps e in
      rw (same, pasted_tiles ts qs rest, shot_tile t (shoot t) q first) refl

  -- If a capture succeeds and tiles are not empty, each pixel of the content lies in exactly one of the
  -- tiles at which it has pasted images.
  pub capture_tiled_covers :
      (g : Geometry) (ps : List (Tile × I)) (x y : ℕ)
      → capture_tiled shoot g ≡ captured ps
      → 1 ≤ g.tile_width
      → 1 ≤ g.tile_height
      → x < g.content_width
      → y < g.content_height
      → (t : Tile) × In t (map (λ p. p.0) ps)
        × Holds x y t
        × ((u : Tile) → In u (map (λ p. p.0) ps) → Holds x y u → u ≡ t)
  unfolding capture_tiled
  capture_tiled_covers g ps x y done wide high inside below = elim (Bool-cases (is_too_large g)) [
    | inl e ↦ absurd (ground arith)
    | inr e ↦
        rw (pasted_tiles (tiles g) ps (ground arith)) (tiles_cover g x y wide high inside below)
  ]
