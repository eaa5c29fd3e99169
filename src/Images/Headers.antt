-- ===== src/Images/Headers.antt =====
-- browser/capture.py: the size in the header of an image. A JPEG is its segments, a PNG its header.
use browser_cli.Prelude.{
  ℕ, zero, suc, ◌+◌, ◌/◌, ◌%◌, ◌<◌, List, [], ◌∷◌, ◌++◌, some, false, ◌≡◌, refl, ap, ◌∙◌, nat_eq,
  list_eq, length, drop, All, length-append, arith,
}
use browser_cli.Images.{
  Dimensions, slice, from_bytes, unpack, scan, is_png, image_dimensions, png_signature,
  image_header,
}
use browser_cli.Images.Rounds.{
  Segment, IsSegment, Frame, IsFrame, segment_bytes, frame_bytes, drop-drop, drop-append,
  segment-round, frame-round,
}

-- The segments before a frame, and the frame.
unfoldable pub segments_bytes : List Segment → Frame → List ℕ → List ℕ
segments_bytes [] f more = frame_bytes f more
segments_bytes (s ∷ ss) f more = segment_bytes s (segments_bytes ss f more)

segments_bytes-length :
    (ss : List Segment) (f : Frame) (more : List ℕ)
    → length ss + 8 < length (segments_bytes ss f more)
unfolding segments_bytes segment_bytes frame_bytes
segments_bytes-length [] f more = omega arith
segments_bytes-length (s ∷ ss) f more =
    omega
      (arith, length-append s.payload (segments_bytes ss f more), segments_bytes-length ss f more)

behind :
    (content more : List ℕ) (offset : ℕ) (s : Segment)
    → drop offset content ≡ segment_bytes s more
    → drop (offset + 2 + (length s.payload + 2)) content ≡ more
unfolding segment_bytes
behind content more offset s left =
    ap (λ n. drop n content) {y = offset + suc (suc (suc (suc (length s.payload))))} (omega arith)
    ∙ drop-drop offset (suc (suc (suc (suc (length s.payload))))) content
    ∙ ap (drop (suc (suc (suc (suc (length s.payload)))))) left
    ∙ drop-append s.payload more

scan-segments :
    (fuel : ℕ) (content : List ℕ) (offset : ℕ) (ss : List Segment) (f : Frame) (more : List ℕ)
    → All IsSegment ss
    → IsFrame f
    → drop offset content ≡ segments_bytes ss f more
    → length ss < fuel
    → scan fuel content offset ≡ Dimensions.dimensions f.width f.height
unfolding scan segments_bytes
scan-segments zero content offset ss f more valid is_frame left enough = absurd (omega arith)
scan-segments (suc fuel) content offset [] f more valid is_frame left enough =
    rw (frame-round content more offset f is_frame left, scan)
scan-segments (suc fuel) content offset (s ∷ ss) f more (v, vs) is_frame left enough =
    let rest = segments_bytes ss f more in
    let e =
      segment-round content rest offset s v (omega (arith, segments_bytes-length ss f more)) left in
    rw (e, scan)
      (scan-segments fuel content (offset + 2 + (length s.payload + 2)) ss f more vs is_frame
        (behind content rest offset s left) (omega arith))

-- A JPEG.
unfoldable pub jpeg : List Segment → Frame → List ℕ → List ℕ
jpeg ss f more = 0xff ∷ 0xd8 ∷ segments_bytes ss f more

is_png-jpeg : (ss : List Segment) (f : Frame) (more : List ℕ) → is_png (jpeg ss f more) ≡ false
unfolding is_png jpeg
is_png-jpeg ss f more = ground arith

-- The size that is read of a JPEG with a baseline, an extended sequential or a progressive frame (the
-- markers 0xC0, 0xC1 and 0xC2) is the size in that frame, whatever the length and the precision there,
-- the segments before it and the bytes behind it are, where no marker of a segment is one of these
-- three, 0xD8 or 0xD9.
pub image_dimensions-jpeg :
    (ss : List Segment) (f : Frame) (more : List ℕ)
    → All IsSegment ss
    → IsFrame f
    → image_dimensions (jpeg ss f more) ≡ Dimensions.dimensions f.width f.height
unfolding image_dimensions jpeg
image_dimensions-jpeg ss f more valid is_frame = rw (is_png-jpeg ss f more) (
    ground (
      arith,
      scan-segments (suc (length (jpeg ss f more))) (jpeg ss f more) 2 ss f more valid is_frame refl
          (omega (arith, segments_bytes-length ss f more)),
    ))

-- A number below 2 ^ 32 in four bytes, and a PNG.
abbrev four_bytes : ℕ → List ℕ
four_bytes n = n / 16777216 ∷ n / 65536 % 256 ∷ n / 256 % 256 ∷ n % 256 ∷ []

abbrev png : ℕ → ℕ → List ℕ → List ℕ
png width height more =
    png_signature
    ++ (0 ∷ 0 ∷ 0 ∷ 13 ∷ image_header)
    ++ four_bytes width
    ++ four_bytes height
    ++ more

from_four_bytes : (n : ℕ) → from_bytes 0 (four_bytes n) ≡ n
unfolding from_bytes
from_four_bytes n = omega arith

unpack_long_sizes : (a b : ℕ) → unpack 4 (four_bytes a ++ four_bytes b) ≡ some (a, b)
unfolding unpack nat_eq
unpack_long_sizes a b = ap some (λ i. (from_four_bytes a i, from_four_bytes b i))

-- The size that is read of a PNG is the size in its header, whatever bytes follow
image_dimensions-png :
    (width height : ℕ) (more : List ℕ)
    → image_dimensions (png width height more) ≡ Dimensions.dimensions width height
unfolding image_dimensions is_png slice list_eq nat_eq
image_dimensions-png width height more = ground (arith, unpack_long_sizes width height)
