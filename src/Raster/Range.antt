-- ===== src/Raster/Range.antt =====
-- The positions at which tiles begin.
use browser_cli.Prelude.{
  ℕ, zero, suc, ◌+◌, ◌-◌, ◌≤◌, ◌<◌, [], ◌∷◌, leb, ltb, ◌≡◌, ◌⊎◌, inl, inr, refl, Bool-cases, arith,
  In,
}
use browser_cli.Raster.{range_by, min}

range_by-zero : (start stop step p : ℕ) → ¬ In p (range_by zero start stop step)
unfolding range_by
range_by-zero start stop step p i = elim i [ ]

range_by-cons :
    (fuel start stop step : ℕ)
    → start < stop
    → range_by (suc fuel) start stop step ≡ start ∷ range_by fuel (start + step) stop step
unfolding range_by
range_by-cons fuel start stop step h = ground (arith, h)

range_by-nil : (fuel start stop step : ℕ) → stop ≤ start → range_by (suc fuel) start stop step ≡ []
unfolding range_by
range_by-nil fuel start stop step h = ground (arith, h)

range_by-from :
    (fuel start stop step p : ℕ) → In p (range_by fuel start stop step) → (start ≤ p) × (p < stop)
range_by-from zero start stop step p i = absurd (range_by-zero start stop step p i)
range_by-from (suc fuel) start stop step p i = elim (Bool-cases (ltb start stop)) [
  | inr e ↦ let i' = rw (range_by-nil fuel start stop step (ground arith)) at i in elim i' [ ]
  | inl e ↦ elim (rw (range_by-cons fuel start stop step (ground arith)) at i) [
    | inl here ↦ (omega (arith, here), ground (arith, here))
    | inr there ↦
        let (low, high) = range_by-from fuel (start + step) stop step p there in
        (omega (arith, low), high)
  ]
]

-- With fuel enough, a position is in the step of one member of the range.
pub range_by-covers :
    (fuel start stop step x : ℕ)
    → 1 ≤ step
    → stop ≤ start + fuel
    → start ≤ x
    → x < stop
    → (p : ℕ) × In p (range_by fuel start stop step) × (p ≤ x) × (x < p + step)
range_by-covers zero start stop step x _ enough above below =
    absurd (omega (arith, enough, above, below))
range_by-covers (suc fuel) start stop step x pos enough above below =
    let opened = range_by-cons fuel start stop step (omega (arith, above, below)) in
    elim (Bool-cases (ltb x (start + step))) [
      | inl near ↦ (start, rw opened (inl refl), above, ground arith)
      | inr far ↦
          let (p, i, low, high) =
            range_by-covers fuel (start + step) stop step x pos (omega (arith, enough, pos))
              (ground arith) below in
          (p, rw opened (inr i), low, high)
    ]

-- No other member has it in its step.
pub range_by-once :
    (fuel start stop step x p q : ℕ)
    → In p (range_by fuel start stop step)
    → In q (range_by fuel start stop step)
    → p ≤ x
    → x < p + step
    → q ≤ x
    → x < q + step
    → p ≡ q
range_by-once zero start stop step x p q i j _ _ _ _ = absurd (range_by-zero start stop step p i)
range_by-once (suc fuel) start stop step x p q i j a b c d = elim (Bool-cases (ltb start stop)) [
  | inr e ↦ let i' = rw (range_by-nil fuel start stop step (ground arith)) at i in elim i' [ ]
  | inl e ↦
      let opened = range_by-cons fuel start stop step (ground arith) in
      elim (rw opened at i) [
        | inl here ↦ elim (rw opened at j) [
          | inl same ↦ omega (arith, here, same)
          | inr later ↦
              let (low, _) = range_by-from fuel (start + step) stop step q later in
              absurd (omega (arith, here, low, b, c))
        ]
        | inr there ↦
            let (low, _) = range_by-from fuel (start + step) stop step p there in
            elim (rw opened at j) [
              | inl same ↦ absurd (omega (arith, same, low, a, d))
              | inr later ↦ range_by-once fuel (start + step) stop step x p q there later a b c d
            ]
      ]
]

min-cases : (a b : ℕ) → ((min a b ≡ a) × (a ≤ b)) ⊎ ((min a b ≡ b) × (b ≤ a))
min-cases a b = elim (Bool-cases (leb a b)) [
  | inl e ↦ inl (ground arith)
  | inr e ↦ inr (ground arith)
]

pub min_above :
    (low step stop x : ℕ) → low ≤ x → x < low + step → x < stop → x < low + min step (stop - low)
min_above low step stop x a b c = elim (min-cases step (stop - low)) [
  | inl (e, _) ↦ omega (arith, e, b)
  | inr (e, _) ↦ omega (arith, e, a, c)
]

pub min_below : (low step rest x : ℕ) → x < low + min step rest → x < low + step
min_below low step rest x h = elim (min-cases step rest) [
  | inl (e, _) ↦ omega (arith, e, h)
  | inr (e, le) ↦ omega (arith, e, le, h)
]
