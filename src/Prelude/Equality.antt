-- ===== src/Prelude/Equality.antt =====
-- Python's `==` and `in` on identifiers: every type whose equality can be decided.
use Prim.Native.Nat.{ℕ}
use Prim.Native.String.{String}
use mathlib.Core.Path.{◌≡◌, refl, sym, ap, ap₂}
use mathlib.Core.Logic.{ite, dite}
use mathlib.Core.Bool.{Bool, true, false, cond, ◌||◌, Bool-discrete}
use mathlib.Core.Option.{Option, none, some, none-ne-some, some-injective}
use mathlib.Core.List.{List, [], ◌∷◌}
use native.Mathlib.Decide.{ℕ_discrete}
use text.Mathlib.Text
use text.Mathlib.TextEquality.{eq_iff}

infix 1 if◌then◌else◌
abbrev pub if◌then◌else◌ {ℓ} : {A : Type ℓ} → Bool → A → A → A
if b then x else y = cond b x y

pub record Eq {ℓ} (A : Type ℓ) : Type ℓ where
  pub dec : Discrete A

module _ {ℓ} {A : Type ℓ} ⦃e : Eq A⦄ where
  infix 50 ◌==◌
  abbrev pub ◌==◌ : A → A → Bool
  a == b = ite (e.dec a b) true false

  abbrev pub contains : List A → A → Bool
  contains [] a = false
  contains (x ∷ xs) a = a == x || contains xs a

-- Shut in proofs, where a split on `s == t` yields the equation or its negation.
instance unfoldable pub string_eq : Eq String
string_eq = record {
  dec = λ s t.
      dite (Bool-discrete (Text.◌==◌ s t) true) (λ same. yes ((eq_iff s t).0 same))
        (λ differ. no (λ p. differ ((eq_iff s t).1 p)));
}

instance unfoldable pub nat_eq : Eq ℕ
unfolding ℕ_discrete
nat_eq = record { dec = ℕ_discrete }

module _ {ℓ κ} {A : Type ℓ} {B : Type κ} ⦃e : Eq A⦄ ⦃f : Eq B⦄ where
  pair_dec : Discrete (A × B)
  pair_dec (a, b) (c, d) =
      dite (e.dec a c)
        (λ p. dite (f.dec b d) (λ q. yes (λ i. (p i, q i))) (λ n. no (λ r. n (ap (λ t. t.1) r))))
        (λ n. no (λ r. n (ap (λ t. t.0) r)))

  -- Tuples as keys.
  instance unfoldable pub pair_eq : Eq (A × B)
  unfolding pair_dec
  pair_eq = record { dec = pair_dec }

module _ {ℓ} {A : Type ℓ} where
  pub nil-ne-cons : (x : A) (xs : List A) → ¬ ([] ≡ x ∷ xs)
  nil-ne-cons x xs p = cc

  pub head-injective : (x y : A) (xs ys : List A) → x ∷ xs ≡ y ∷ ys → x ≡ y
  head-injective x y xs ys p = cc

  pub tail-injective : (x y : A) (xs ys : List A) → x ∷ xs ≡ y ∷ ys → xs ≡ ys
  tail-injective x y xs ys p = cc

module _ {ℓ} {A : Type ℓ} ⦃e : Eq A⦄ where
  option_dec : Discrete (Option A)
  option_dec none none = yes refl
  option_dec none (some b) = no (none-ne-some b)
  option_dec (some a) none = no (λ p. none-ne-some a (sym p))
  option_dec (some a) (some b) =
      dite (e.dec a b) (λ p. yes (ap some p)) (λ n. no (λ p. n (some-injective a b p)))

  list_dec : Discrete (List A)
  list_dec [] [] = yes refl
  list_dec [] (y ∷ ys) = no (nil-ne-cons y ys)
  list_dec (x ∷ xs) [] = no (λ p. nil-ne-cons x xs (sym p))
  list_dec (x ∷ xs) (y ∷ ys) =
      let rest = list_dec xs ys in
      dite (e.dec x y)
        (λ p. dite rest (λ q. yes (ap₂ ◌∷◌ p q)) (λ n. no (λ r. n (tail-injective x y xs ys r))))
        (λ n. no (λ r. n (head-injective x y xs ys r)))

  instance unfoldable pub option_eq : Eq (Option A)
  unfolding option_dec
  option_eq = record { dec = option_dec }

  instance unfoldable pub list_eq : Eq (List A)
  unfolding list_dec
  list_eq = record { dec = list_dec }
