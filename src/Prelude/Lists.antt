-- ===== src/Prelude/Lists.antt =====
-- Lists measured by native numbers, under the library's names, and Boolean folds over them.
use Prim.Native.Nat.{ℕ, zero, suc, ◌+◌, ◌≤◌}
use mathlib.Core.Path.{◌≡◌, refl}
use mathlib.Core.Logic.{◌⊎◌, inl, inr}
use browser_cli.Prelude.Tests.{Bool-cases}
use mathlib.Core.Bool.{Bool, true, false, cond, ◌||◌, ◌&&◌}
use mathlib.Core.List.{List, [], ◌∷◌, ◌++◌}
use native.Mathlib.Omega.{arith}

module _ {ℓ} {A : Type ℓ} where
  abbrev pub length : List A → ℕ
  length [] = 0
  length (x ∷ xs) = suc (length xs)

  pub length-append : (xs ys : List A) → length (xs ++ ys) ≡ length xs + length ys
  length-append [] ys = omega arith
  length-append (x ∷ xs) ys = omega (arith, length-append xs ys)

  -- `[x for x in xs if p(x)]`
  abbrev pub select : (A → Bool) → List A → List A
  select p [] = []
  select p (x ∷ xs) = cond (p x) (x ∷ select p xs) (select p xs)

  pub length-select-le : (p : A → Bool) (xs : List A) → length (select p xs) ≤ length xs
  length-select-le p [] = omega arith
  length-select-le p (x ∷ xs) = ground (arith, length-select-le p xs)

  -- `any(p(x) for x in xs)` and `all(p(x) for x in xs)`
  abbrev pub any : (A → Bool) → List A → Bool
  any p [] = false
  any p (x ∷ xs) = p x || any p xs

  abbrev pub all : (A → Bool) → List A → Bool
  all p [] = true
  all p (x ∷ xs) = p x && all p xs

  -- The predicate holds of every element.
  abbrev pub All {κ} : (A → Type κ) → List A → Type κ
  All P [] = Unit
  All P (x ∷ xs) = P x × All P xs

  abbrev pub drop : ℕ → List A → List A
  drop zero xs = xs
  drop (suc n) [] = []
  drop (suc n) (x ∷ xs) = drop n xs

module _ {ℓ κ} {A : Type ℓ} (P : A → Type κ) (p : A → Bool) where
  -- What is selected has the property and passes the test.
  pub select-All : (xs : List A) → All P xs → All (λ x. P x × (p x ≡ true)) (select p xs)
  select-All [] _ = tt
  select-All (x ∷ xs) (h, hs) = ground (arith, select-All xs hs)

pub data Nothing {ℓ} : Type ℓ where

-- The value is in the list, by recursion.
module _ {ℓ} {A : Type ℓ} where
  abbrev pub In : A → List A → Type ℓ
  In a [] = Nothing
  In a (x ∷ xs) = (x ≡ a) ⊎ In a xs

  pub select-In : (p : A → Bool) (a : A) (xs : List A) → p a ≡ true → In a xs → In a (select p xs)
  select-In p a [] h i = i
  select-In p a (x ∷ xs) h (inl e) = rw (e, h) (inl refl)
  select-In p a (x ∷ xs) h (inr i) = elim (Bool-cases (p x)) [
    | inl t ↦ rw t (inr (select-In p a xs h i))
    | inr f ↦ rw f (select-In p a xs h i)
  ]

  pub All-In {κ} : (P : A → Type κ) (a : A) (xs : List A) → All P xs → In a xs → P a
  All-In P a [] _ i = elim i [ ]
  All-In P a (x ∷ xs) (h, _) (inl e) = rw e at h
  All-In P a (x ∷ xs) (_, hs) (inr i) = All-In P a xs hs i
