-- ===== src/Images/Examples.antt =====
-- A progressive JPEG of 640 by 480 with one segment before its frame.
use browser_cli.Prelude.{[], ◌∷◌, ◌≡◌, refl, nat_eq, list_eq, arith}
use browser_cli.Images.{Dimensions, image_dimensions, is_png, scan, round}
use browser_cli.Images.Rounds.{Segment, IsSegment, Frame, IsFrame}
use browser_cli.Images.Headers.{jpeg, image_dimensions-jpeg}
use browser_cli.Images.Termination.{IsAnswer, image_dimensions-IsAnswer}

abbrev comment : Segment
comment = record { marker = 0xfe; payload = 1 ∷ 2 ∷ 3 ∷ [] }

comment-IsSegment : IsSegment comment
comment-IsSegment = omega arith

abbrev progressive : Frame
progressive = record {
  marker = 0xc2;
  length_high = 0;
  length_low = 17;
  precision = 8;
  width = 640;
  height = 480;
}

image_dimensions-jpeg_example :
    image_dimensions (jpeg (comment ∷ []) progressive []) ≡ Dimensions.dimensions 640 480
image_dimensions-jpeg_example =
    image_dimensions-jpeg (comment ∷ []) progressive [] (comment-IsSegment, tt)
      (IsFrame.is_progressive refl)

image_dimensions-IsAnswer_example : IsAnswer (image_dimensions (0xff ∷ 0xd8 ∷ 0xff ∷ []))
image_dimensions-IsAnswer_example = image_dimensions-IsAnswer (0xff ∷ 0xd8 ∷ 0xff ∷ [])

cut_off : image_dimensions (0xff ∷ 0xd8 ∷ 0xff ∷ []) ≡ Dimensions.invalid
unfolding image_dimensions is_png scan round nat_eq list_eq
cut_off = refl
