-- ===== src/Images/Rounds.antt =====
-- browser/capture.py: the rounds of the loop over the segments of a JPEG, by what stands at a position.
use browser_cli.Prelude.{
  ℕ, zero, suc, ◌+◌, ◌/◌, ◌%◌, ◌<◌, List, [], ◌∷◌, ◌++◌, some, true, ◌≡◌, ◌≢◌, refl, sym, ap, ◌∙◌,
  nat_eq, list_eq, length, drop, ltb, length-append, arith,
}
use browser_cli.Images.Termination.{length-drop}
use browser_cli.Images.{
  Dimensions, Round, take, get_elem?, slice, from_bytes, unpack, read_segment, round,
}

-- A number below 2 ^ 16 in two bytes.
abbrev pub two_bytes : ℕ → List ℕ
two_bytes n = n / 256 ∷ n % 256 ∷ []

-- A segment before the frame: its marker and what it carries.
pub record Segment : Type 0 where
  pub marker : ℕ
  pub payload : List ℕ

pub record IsSegment (s : Segment) : Type 0 where
  pub no_start : s.marker ≢ 0xd8
  pub no_end : s.marker ≢ 0xd9
  pub no_frame_0 : s.marker ≢ 0xc0
  pub no_frame_1 : s.marker ≢ 0xc1
  pub no_frame_2 : s.marker ≢ 0xc2

unfoldable pub segment_bytes : Segment → List ℕ → List ℕ
segment_bytes s more = 0xff ∷ s.marker ∷ (two_bytes (length s.payload + 2) ++ (s.payload ++ more))

-- A frame: its marker, the two bytes of its length, the precision of a sample, and the size.
pub record Frame : Type 0 where
  pub marker : ℕ
  pub length_high : ℕ
  pub length_low : ℕ
  pub precision : ℕ
  pub width : ℕ
  pub height : ℕ

-- A baseline, an extended sequential or a progressive frame.
pub data IsFrame (f : Frame) : Type 0 where
  is_baseline : f.marker ≡ 0xc0 → IsFrame f
  is_extended : f.marker ≡ 0xc1 → IsFrame f
  is_progressive : f.marker ≡ 0xc2 → IsFrame f

-- A frame, with the bytes that follow its size.
unfoldable pub frame_bytes : Frame → List ℕ → List ℕ
frame_bytes f more =
    0xff
    ∷ f.marker
    ∷ f.length_high
    ∷ f.length_low
    ∷ f.precision
    ∷ (two_bytes f.height ++ (two_bytes f.width ++ more))

-- What stands at a position and behind it, by what is left there.
get_elem?-drop : (n k : ℕ) (xs : List ℕ) → get_elem? xs (n + k) ≡ get_elem? (drop n xs) k
get_elem?-drop zero k xs = ap (get_elem? xs) {y = k} (omega arith)
get_elem?-drop (suc n) k [] = refl
get_elem?-drop (suc n) k (x ∷ xs) =
    ap (get_elem? (x ∷ xs)) {y = suc (n + k)} (omega arith) ∙ get_elem?-drop n k xs

drop-nil : (n : ℕ) → drop {A = ℕ} n [] ≡ []
drop-nil zero = refl
drop-nil (suc n) = refl

pub drop-drop : (n k : ℕ) (xs : List ℕ) → drop (n + k) xs ≡ drop k (drop n xs)
drop-drop zero k xs = ap (λ i. drop i xs) {y = k} (omega arith)
drop-drop (suc n) k [] = drop-nil (suc n + k) ∙ sym (drop-nil k)
drop-drop (suc n) k (x ∷ xs) =
    ap (λ i. drop i (x ∷ xs)) {y = suc (n + k)} (omega arith) ∙ drop-drop n k xs

pub drop-append : (xs ys : List ℕ) → drop (length xs) (xs ++ ys) ≡ ys
drop-append [] ys = refl
drop-append (x ∷ xs) ys = drop-append xs ys

from_two_bytes : (n : ℕ) → from_bytes 0 (two_bytes n) ≡ n
unfolding from_bytes
from_two_bytes n = omega arith

module _ (content xs : List ℕ) (offset : ℕ) (left : drop offset content ≡ xs) where
  byte_at : (k : ℕ) → get_elem? content (offset + k) ≡ get_elem? xs k
  byte_at k = get_elem?-drop offset k content ∙ ap (λ l. get_elem? l k) left

  slice_at : (i n a b : ℕ) → a ≡ offset + i → b ≡ a + n → slice a b content ≡ take n (drop i xs)
  unfolding slice
  slice_at i n a b p q =
      ap (λ c. take c (drop a content)) {y = n} (omega arith)
      ∙ ap (λ c. take n (drop c content)) p
      ∙ ap (take n) (drop-drop offset i content ∙ ap (drop i) left)

  goes_further : 8 < length xs → ltb (offset + 8) (length content) ≡ true
  goes_further h = ground (arith, length-drop offset content, ap {A = List ℕ} length left)

  pub here : get_elem? content offset ≡ get_elem? xs 0
  here = ap (get_elem? content) {x = offset} {y = offset + 0} (omega arith) ∙ byte_at 0

skipped :
    (content : List ℕ) (start n : ℕ) (s : Segment)
    → IsSegment s
    → from_bytes 0 (slice start (start + 2) content) ≡ n + 2
    → read_segment content start s.marker ≡ Round.goes_on (start + (n + 2))
unfolding read_segment
skipped content start n s is_segment e = ground arith

pub found :
    (content : List ℕ) (start : ℕ) (f : Frame)
    → IsFrame f
    → unpack 2 (slice (start + 3) (start + 7) content) ≡ some (f.height, f.width)
    → read_segment content start f.marker ≡ Round.is_over (Dimensions.dimensions f.width f.height)
unfolding read_segment
found content start f (is_baseline m) e = ground arith
found content start f (is_extended m) e = ground arith
found content start f (is_progressive m) e = ground arith

unpack_sizes : (a b : ℕ) → unpack 2 (two_bytes a ++ two_bytes b) ≡ some (a, b)
unfolding unpack nat_eq
unpack_sizes a b = ap some (λ i. (from_two_bytes a i, from_two_bytes b i))

-- A round at a segment goes on behind it, and a round at the frame is over with the size.
module _ (content more : List ℕ) (offset : ℕ) where
  pub segment-round :
      (s : Segment)
      → IsSegment s
      → 8 < length more
      → drop offset content ≡ segment_bytes s more
      → round content offset ≡ Round.goes_on (offset + 2 + (length s.payload + 2))
  unfolding round segment_bytes
  segment-round s is_segment enough left =
      let e0 : get_elem? content offset ≡ some 0xff = here content _ offset left in
      let e1 : get_elem? content (offset + 1) ≡ some s.marker = byte_at content _ offset left 1 in
      rw (goes_further content _ offset left (omega (arith, length-append s.payload more)), e0, e1)
        (ground (
          arith,
          skipped content (offset + 2) (length s.payload) s is_segment (
              ap (from_bytes 0)
                (slice_at content _ offset left 2 2 (offset + 2) (offset + 2 + 2) refl refl)
              ∙ from_two_bytes (length s.payload + 2)),
        ))

  pub frame-round :
      (f : Frame)
      → IsFrame f
      → drop offset content ≡ frame_bytes f more
      → round content offset ≡ Round.is_over (Dimensions.dimensions f.width f.height)
  unfolding round frame_bytes
  frame-round f is_frame left =
      let e0 : get_elem? content offset ≡ some 0xff = here content _ offset left in
      let e1 : get_elem? content (offset + 1) ≡ some f.marker = byte_at content _ offset left 1 in
      rw (goes_further content _ offset left (omega arith), e0, e1)
        (ground (
          arith,
          found content (offset + 2) f is_frame (
              ap (unpack 2) (
                slice_at content _ offset left 5 4 (offset + 2 + 3) (offset + 2 + 7) (omega arith)
                  (omega arith))
              ∙ unpack_sizes f.height f.width),
        ))
