-- ===== src/Images.antt =====
-- browser/capture.py: `image_dimensions`, which reads the size of a screenshot in its first bytes. A
-- byte is a number; an index out of range and bytes that `struct.unpack` refuses are a `fault`.
use browser_cli.Prelude.{
  ℕ, zero, suc, ◌+◌, ◌-◌, ◌*◌, List, [], ◌∷◌, Option, none, some, Bool, true, false, not, ◌&&◌,
  ◌||◌, ◌==◌, nat_eq, list_eq, length, drop, leb, ltb, if◌then◌else◌,
}
pub mod Termination
pub mod Rounds
pub mod Headers
mod Examples

pub data Dimensions : Type 0 where
  dimensions : ℕ → ℕ → Dimensions
  invalid : Dimensions
  fault : Dimensions
  out_of_fuel : Dimensions

abbrev pub take : ℕ → List ℕ → List ℕ
take zero bytes = []
take (suc n) [] = []
take (suc n) (b ∷ bytes) = b ∷ take n bytes

abbrev pub get_elem? : List ℕ → ℕ → Option ℕ
get_elem? [] i = none
get_elem? (b ∷ bytes) zero = some b
get_elem? (b ∷ bytes) (suc i) = get_elem? bytes i

-- `content[start:stop]`
unfoldable pub slice : ℕ → ℕ → List ℕ → List ℕ
slice start stop content = take (stop - start) (drop start content)

-- `int.from_bytes(bytes, "big")`
unfoldable pub from_bytes : ℕ → List ℕ → ℕ
from_bytes value [] = value
from_bytes value (b ∷ bytes) = from_bytes (256 * value + b) bytes

-- `struct.unpack` of two numbers of `n` bytes each.
unfoldable pub unpack : ℕ → List ℕ → Option (ℕ × ℕ)
unpack n bytes =
    if length bytes == n + n
    then some (from_bytes 0 (take n bytes), from_bytes 0 (drop n bytes))
    else none

-- A round of the loop over the segments of a JPEG: it goes on at a position, or is over.
pub data Round : Type 0 where
  goes_on : ℕ → Round
  is_over : Dimensions → Round

abbrev pub frame_size : Option (ℕ × ℕ) → Dimensions
frame_size none = fault
frame_size (some (height, width)) = dimensions width height

-- Behind a marker; `start` is the position after it.
unfoldable pub read_segment : List ℕ → ℕ → ℕ → Round
read_segment content start marker =
    if marker == 0xd8 || marker == 0xd9
    then goes_on start
    else (if marker == 0xc0 || marker == 0xc1 || marker == 0xc2
        then is_over (frame_size (unpack 2 (slice (start + 3) (start + 7) content)))
        else (if ltb (from_bytes 0 (slice start (start + 2) content)) 2
            then is_over invalid
            else goes_on (start + from_bytes 0 (slice start (start + 2) content))))

abbrev pub read_marker : List ℕ → ℕ → Option ℕ → Round
read_marker content start none = is_over fault
read_marker content start (some marker) = read_segment content start marker

abbrev pub read_byte : List ℕ → ℕ → Option ℕ → Round
read_byte content offset none = is_over fault
read_byte content offset (some b) =
    if b == 0xff
    then read_marker content (offset + 2) (get_elem? content (offset + 1))
    else is_over invalid

unfoldable pub round : List ℕ → ℕ → Round
round content offset =
    if ltb (offset + 8) (length content)
    then read_byte content offset (get_elem? content offset)
    else is_over invalid

-- `while offset + 8 < len(content)`, on fuel: the position grows in each round.
unfoldable pub scan : ℕ → List ℕ → ℕ → Dimensions
scan zero content offset = out_of_fuel
scan (suc fuel) content offset = elim (round content offset) [
  | goes_on next ↦ scan fuel content next
  | is_over result ↦ result
]

abbrev png_signature : List ℕ
png_signature = 0x89 ∷ 0x50 ∷ 0x4e ∷ 0x47 ∷ 0x0d ∷ 0x0a ∷ 0x1a ∷ 0x0a ∷ []

abbrev image_header : List ℕ
image_header = 0x49 ∷ 0x48 ∷ 0x44 ∷ 0x52 ∷ []

abbrev pub png_size : Option (ℕ × ℕ) → Dimensions
png_size none = fault
png_size (some (width, height)) = dimensions width height

unfoldable pub is_png : List ℕ → Bool
is_png content =
    leb 24 (length content)
    && take 8 content == png_signature
    && slice 12 16 content == image_header

unfoldable pub image_dimensions : List ℕ → Dimensions
image_dimensions content =
    if is_png content
    then png_size (unpack 4 (slice 16 24 content))
    else (if take 2 content == 0xff ∷ 0xd8 ∷ []
        then scan (suc (length content)) content 2
        else invalid)
