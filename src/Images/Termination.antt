-- ===== src/Images/Termination.antt =====
-- browser/capture.py: how the loop over the segments of an image ends.
use browser_cli.Prelude.{
  ℕ, zero, suc, ◌+◌, ◌-◌, ◌≤◌, ◌<◌, List, [], ◌∷◌, some, true, ◌||◌, ◌≡◌, refl, ◌∙◌, ◌⊎◌, inl, inr,
  ◌==◌, nat_eq, list_eq, length, drop, ltb, ltb→lt, if◌then◌else◌, Bool-cases, arith,
}
use browser_cli.Images.{
  Dimensions, Round, take, get_elem?, slice, from_bytes, unpack, frame_size, read_segment,
  read_byte, round, scan, is_png, image_dimensions,
}

get_elem?-IsSome :
    (content : List ℕ) (i : ℕ) → i < length content → (b : ℕ) × (get_elem? content i ≡ some b)
get_elem?-IsSome [] i h = absurd (omega arith)
get_elem?-IsSome (b ∷ bytes) zero h = (b, refl)
get_elem?-IsSome (b ∷ bytes) (suc i) h = get_elem?-IsSome bytes i (omega arith)

pub length-drop : (n : ℕ) (bytes : List ℕ) → length (drop n bytes) ≡ length bytes - n
length-drop zero bytes = omega arith
length-drop (suc n) [] = omega arith
length-drop (suc n) (b ∷ bytes) = omega (arith, length-drop n bytes)

length-take : (n : ℕ) (bytes : List ℕ) → n ≤ length bytes → length (take n bytes) ≡ n
length-take zero bytes h = refl
length-take (suc n) [] h = absurd (omega arith)
length-take (suc n) (b ∷ bytes) h = omega (arith, length-take n bytes (omega arith))

length-slice :
    (start stop : ℕ) (content : List ℕ)
    → start ≤ stop
    → stop ≤ length content
    → length (slice start stop content) ≡ stop - start
unfolding slice
length-slice start stop content h k =
    length-take (stop - start) (drop start content) (omega (arith, length-drop start content))

unpack-IsSome :
    (n : ℕ) (bytes : List ℕ) → length bytes ≡ n + n → (p : ℕ × ℕ) × (unpack n bytes ≡ some p)
unfolding unpack
unpack-IsSome n bytes h = ((from_bytes 0 (take n bytes), from_bytes 0 (drop n bytes)), ground arith)

-- The round goes on further ahead, or is over with a size or as invalid.
data IsSound (end offset : ℕ) : Round → Type 0 where
  ahead : (next : ℕ) → offset < next → offset < end → IsSound end offset (Round.goes_on next)
  size :
      (width height : ℕ) → IsSound end offset (Round.is_over (Dimensions.dimensions width height))
  no_size : IsSound end offset (Round.is_over Dimensions.invalid)

skip-IsSound :
    (end offset n : ℕ)
    → offset < end
    → IsSound end offset
        (if ltb n 2 then Round.is_over Dimensions.invalid else Round.goes_on (offset + 2 + n))
skip-IsSound end offset n h = elim (Bool-cases (ltb n 2)) [
  | inl p ↦ rw p no_size
  | inr p ↦ rw p (ahead (offset + 2 + n) (omega arith) h)
]

module _ (content : List ℕ) (offset : ℕ) (within : offset + 8 < length content) where
  frame-IsSound :
      IsSound
        (length content)
        offset
        (Round.is_over (frame_size (unpack 2 (slice (offset + 2 + 3) (offset + 2 + 7) content))))
  frame-IsSound =
      let (p, e) = unpack-IsSome 2 (slice (offset + 2 + 3) (offset + 2 + 7) content) (
        length-slice (offset + 2 + 3) (offset + 2 + 7) content (omega arith) (omega arith)
        ∙ omega arith) in
      rw e (size p.1 p.0)

  read_segment-IsSound :
      (marker : ℕ) → IsSound (length content) offset (read_segment content (offset + 2) marker)
  unfolding read_segment
  read_segment-IsSound marker = elim (Bool-cases (marker == 0xd8 || marker == 0xd9)) [
    | inl p ↦ rw p (ahead (offset + 2) (omega arith) (omega arith))
    | inr p ↦ rw p (elim (Bool-cases (marker == 0xc0 || marker == 0xc1 || marker == 0xc2)) [
      | inl q ↦ rw q frame-IsSound
      | inr q ↦ rw q (skip-IsSound _ offset _ (omega arith))
    ])
  ]

  read_byte-IsSound :
      IsSound (length content) offset (read_byte content offset (get_elem? content offset))
  read_byte-IsSound =
      let (b, e) = get_elem?-IsSome content offset (omega arith) in
      let (marker, f) = get_elem?-IsSome content (offset + 1) (omega arith) in
      rw e (elim (Bool-cases (b == 0xff)) [
        | inl p ↦ rw (p, f) (read_segment-IsSound marker)
        | inr p ↦ rw p no_size
      ])

round-IsSound :
    (content : List ℕ) (offset : ℕ) → IsSound (length content) offset (round content offset)
unfolding round
round-IsSound content offset = elim (Bool-cases (ltb (offset + 8) (length content))) [
  | inl p ↦ rw p (read_byte-IsSound content offset (ltb→lt _ _ p))
  | inr p ↦ rw p no_size
]

-- A size, or the error.
abbrev pub IsAnswer : Dimensions → Type 0
IsAnswer d =
    (d ≡ Dimensions.invalid)
    ⊎ ((width : ℕ) × (height : ℕ) × (d ≡ Dimensions.dimensions width height))

scan-IsAnswer :
    (fuel : ℕ) (content : List ℕ) (offset : ℕ)
    → 0 < fuel
    → length content < offset + fuel
    → IsAnswer (scan fuel content offset)
unfolding scan
scan-IsAnswer zero content offset h k = absurd (omega arith)
scan-IsAnswer (suc fuel) content offset h k =
    go (round content offset) (round-IsSound content offset)
      (λ next. scan-IsAnswer fuel content next)
  where
    go :
        (r : Round)
        → IsSound (length content) offset r
        → ((next : ℕ) → 0 < fuel → length content < next + fuel → IsAnswer (scan fuel content next))
        → IsAnswer
            (elim r [ Round.goes_on next ↦ scan fuel content next | Round.is_over result ↦ result ])
    go _ (ahead next l m) ih = ih next (omega arith) (omega arith)
    go _ (size w h') ih = inr (w, h', refl)
    go _ no_size ih = inl refl

is_png-le : (content : List ℕ) → is_png content ≡ true → 24 ≤ length content
unfolding is_png
is_png-le content h = ground arith

-- The reading of a size ends, on any bytes, with a size or with the error: no index is out of range,
-- and no number lacks a byte
pub image_dimensions-IsAnswer : (content : List ℕ) → IsAnswer (image_dimensions content)
unfolding image_dimensions
image_dimensions-IsAnswer content = elim (Bool-cases (is_png content)) [
  | inl p ↦
      let (sizes, e) =
        unpack-IsSome 4 (slice 16 24 content)
          (length-slice 16 24 content (omega arith) (is_png-le content p) ∙ omega arith) in
      rw (p, e) (inr (sizes.0, sizes.1, refl))
  | inr p ↦ rw p (elim (Bool-cases (take 2 content == 0xff ∷ 0xd8 ∷ [])) [
    | inl q ↦ rw q (scan-IsAnswer (suc (length content)) content 2 (omega arith) (omega arith))
    | inr q ↦ rw q (inl refl)
  ])
]
