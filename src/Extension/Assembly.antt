-- ===== src/Extension/Assembly.antt =====
-- extension/session.py: how a chunked response is put together.
use browser_cli.Prelude.{
  ℕ, zero, suc, ◌+◌, ◌≤◌, ◌<◌, String, List, [], ◌∷◌, none, some, ◌≡◌, ◌≢◌, ◌⊎◌, inl, inr, refl,
  sym, ap, ◌∙◌, length, leb, All, In, Option-cases, nat_eq, arith,
}
use browser_cli.Prelude.Sort.{sort, sort-In}
use browser_cli.Prelude.Increasing.{
  Increasing, Distinct, range, last, sort-Increasing, length-sort, In-sort, Increasing-range,
  Increasing-tight, range-In, last-range, length-range,
}
use browser_cli.Dict.{Dict, lookup, keys, NodupKeys}
use browser_cli.Extension.Chunks.{chunk_incomplete, gets, fails, join_at, assemble, assemble_sorted}

module _ {V : Type 0} where
  In-keys : (i : ℕ) (v : V) (d : Dict ℕ V) → lookup i d ≡ some v → In i (keys d)
  unfolding lookup
  In-keys i v [] h = absurd (ground arith)
  In-keys i v ((j, w) ∷ d) h = elim (nat_eq.dec i j) [
    | yes e ↦ inl (sym e)
    | no n ↦ inr (In-keys i v d (ground arith))
  ]

  not-In-keys : (i : ℕ) (d : Dict ℕ V) → lookup i d ≡ none → (a : ℕ) → In a (keys d) → a ≢ i
  unfolding lookup
  not-In-keys i [] h a m = elim m [ ]
  not-In-keys i ((j, w) ∷ d) h a (inl e) = λ same. absurd (ground arith)
  not-In-keys i ((j, w) ∷ d) h a (inr m) = elim (nat_eq.dec i j) [
    | yes e ↦ absurd (ground arith)
    | no n ↦ not-In-keys i d (ground arith) a m
  ]

  keys-Distinct : (d : Dict ℕ V) → NodupKeys d → Distinct (keys d)
  keys-Distinct [] _ = tt
  keys-Distinct ((j, w) ∷ d) (new, u) = (not-In-keys j d new, keys-Distinct d u)

  length-keys : (d : Dict ℕ V) → length (keys d) ≡ length d
  length-keys [] = refl
  length-keys ((_, _) ∷ d) = ap suc (length-keys d)

  -- Below `n`, every number is a key, or some is not.
  find_missing :
      (d : Dict ℕ V) (n : ℕ)
      → ((i : ℕ) → i < n → In i (keys d)) ⊎ ((i : ℕ) × (i < n) × (lookup i d ≡ none))
  find_missing d zero = inl (λ i h. absurd (omega (arith, h)))
  find_missing d (suc n) = elim (find_missing d n) [
    | inr (i, h, gone) ↦ inr (i, omega (arith, h), gone)
    | inl all ↦ elim (Option-cases (lookup n d)) [
      | inl gone ↦ inr (n, omega arith, gone)
      | inr (v, there) ↦ inl (λ i h. elim (nat_eq.dec i n) [
        | yes e ↦ rw e (In-keys n v d there)
        | no ne ↦ all i (ground (arith, h))
      ])
    ]
  ]

assemble_range :
    (chunks : Dict ℕ String) (n : ℕ)
    → assemble_sorted chunks (range 0 n) ≡ gets (join_at chunks (range 0 n))
unfolding join_at
assemble_range chunks zero = refl
assemble_range chunks (suc n) = ground (arith, last-range 0 n, length-range 1 n)

In-path : (i : ℕ) (xs ys : List ℕ) → xs ≡ ys → In i ys → In i xs
In-path i xs ys e h = rw e h

assemble_gap :
    (chunks : Dict ℕ String) (ks : List ℕ) (i : ℕ)
    → Increasing ks
    → i < length ks
    → (In i ks → i ≢ i)
    → assemble_sorted chunks ks ≡ fails chunk_incomplete
assemble_gap chunks [] i _ h _ = absurd (omega (arith, h))
assemble_gap chunks (k ∷ ks) i up h out = elim (nat_eq.dec k 0) [
  | no n ↦ ground arith
  | yes zero_first ↦ elim (nat_eq.dec (length (k ∷ ks)) (last k ks + 1)) [
    | no n ↦ ground arith
    | yes e ↦
        let full = Increasing-tight k ks up (omega (arith, zero_first, e)) in
        absurd (
          out
            (In-path i _ _ full (
              range-In i k (length ks + 1) (omega (arith, zero_first))
                (omega (arith, zero_first, h))))
            refl)
  ]
]

-- The chunks joined from 0 on, as many as there are.
abbrev pub IsWhole : Dict ℕ String → Type 0
IsWhole chunks =
    ((i : ℕ) → i < length chunks → lookup i chunks ≢ none)
    × (assemble chunks ≡ gets (join_at chunks (range 0 (length chunks))))

abbrev pub HasGap : Dict ℕ String → Type 0
HasGap chunks =
    ((i : ℕ) × (i < length chunks) × (lookup i chunks ≡ none))
    × (assemble chunks ≡ fails chunk_incomplete)

-- Chunks under distinct indexes, in whatever order they came, are joined in the order of their
-- indexes if every index below their number is there; if one is missing, the answer is the error.
pub assemble_outcomes : (chunks : Dict ℕ String) → NodupKeys chunks → IsWhole chunks ⊎ HasGap chunks
unfolding assemble
assemble_outcomes chunks u =
    let ks = sort leb (keys chunks) in
    let up = sort-Increasing (keys chunks) (keys-Distinct chunks u) in
    let long : length ks ≡ length chunks = length-sort (keys chunks) ∙ length-keys chunks in
    elim (find_missing chunks (length chunks)) [
      | inl all ↦
          let full =
            Increasing-range 0 ks up (all_le 0 ks)
              (λ i _ h. sort-In leb i (keys chunks) (all i (omega (arith, h, long)))) in
          inl (
            λ i h gone. not-In-keys i chunks gone i (all i h) refl,
            ap (assemble_sorted chunks) (full ∙ ap (range 0) long)
                ∙ assemble_range chunks (length chunks),
          )
      | inr (i, h, gone) ↦ inr (
        (i, h, gone),
        assemble_gap chunks ks i up (omega (arith, h, long))
            (λ m. not-In-keys i chunks gone i (In-sort i (keys chunks) m)),
      )
    ]
  where
    all_le : (a : ℕ) (xs : List ℕ) → All (λ x. 0 ≤ x) xs
    all_le a [] = tt
    all_le a (x ∷ xs) = (omega arith, all_le a xs)
