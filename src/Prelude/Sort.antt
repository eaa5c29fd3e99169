-- ===== src/Prelude/Sort.antt =====
-- `list.sort`: a stable sort by a key, ascending or descending, and what it keeps.
use mathlib.Core.List.{Perm}
use mathlib.Core.List.Perm
use mathlib.Core.Bool.{Bool, true, false, cond}
use mathlib.Core.List.{List, [], ◌∷◌}
use mathlib.Core.Path.{◌≡◌, refl}
use native.Mathlib.Omega.{arith}
use mathlib.Core.Logic.{inl, inr}
use browser_cli.Prelude.Lists.{All, In}
use browser_cli.Prelude.Tests.{Bool-cases}

module _ {ℓ} {A : Type ℓ} (before : A → A → Bool) where
  unfoldable pub insert_sorted : A → List A → List A
  insert_sorted x [] = x ∷ []
  insert_sorted x (y ∷ ys) = cond (before x y) (x ∷ y ∷ ys) (y ∷ insert_sorted x ys)

  -- `before x y` says that `x` may stand before `y`: equal keys keep their order.
  unfoldable pub sort : List A → List A
  unfolding insert_sorted
  sort [] = []
  sort (x ∷ xs) = insert_sorted x (sort xs)

  -- Each element may stand before all that follow.
  abbrev pub IsSorted : List A → Type ℓ
  IsSorted [] = Unit
  IsSorted (x ∷ xs) = All (λ y. before x y ≡ true) xs × IsSorted xs

  insert_sorted-perm : (x : A) (xs : List A) → Perm (insert_sorted x xs) (x ∷ xs)
  unfolding insert_sorted
  insert_sorted-perm x [] = Perm.refl (x ∷ [])
  insert_sorted-perm x (y ∷ ys) = ground (
    arith,
    Perm.refl (x ∷ y ∷ ys),
    Perm.trans (Perm.cons y (insert_sorted-perm x ys)) (Perm.swap x y ys),
  )

  -- Nothing is lost and nothing is added.
  pub sort-perm : (xs : List A) → Perm (sort xs) xs
  unfolding sort
  sort-perm [] = Perm.nil
  sort-perm (x ∷ xs) = Perm.trans (insert_sorted-perm x (sort xs)) (Perm.cons x (sort-perm xs))

module _ {ℓ κ} {A : Type ℓ} (P : A → Type κ) (before : A → A → Bool) where
  pub insert_sorted-All : (x : A) (xs : List A) → P x → All P xs → All P (insert_sorted before x xs)
  unfolding insert_sorted
  insert_sorted-All x [] h hs = (h, tt)
  insert_sorted-All x (y ∷ ys) h (hy, hs) = ground (arith, insert_sorted-All x ys h hs)

  pub sort-All : (xs : List A) → All P xs → All P (sort before xs)
  unfolding sort
  sort-All [] _ = tt
  sort-All (x ∷ xs) (h, hs) = insert_sorted-All x (sort before xs) h (sort-All xs hs)

module _ {ℓ} {A : Type ℓ} (before : A → A → Bool)
    (total : (x y : A) → before x y ≡ false → before y x ≡ true)
    (trans : (x y z : A) → before x y ≡ true → before y z ≡ true → before x z ≡ true) where
  All-trans :
      (x y : A) (zs : List A)
      → before x y ≡ true
      → All (λ z. before y z ≡ true) zs
      → All (λ z. before x z ≡ true) zs
  All-trans x y [] h _ = tt
  All-trans x y (z ∷ zs) h (hz, hs) = (trans x y z h hz, All-trans x y zs h hs)

  insert_sorted-IsSorted :
      (x : A) (xs : List A) → IsSorted before xs → IsSorted before (insert_sorted before x xs)
  unfolding insert_sorted
  insert_sorted-IsSorted x [] _ = (tt, tt)
  insert_sorted-IsSorted x (y ∷ ys) (hy, hs) = elim (Bool-cases (before x y)) [
    | inl e ↦ rw e ((e, All-trans x y ys e hy), (hy, hs))
    | inr e ↦ rw e (
      insert_sorted-All (λ z. before y z ≡ true) before x ys (total x y e) hy,
      insert_sorted-IsSorted x ys hs,
    )
  ]

  -- A sort by a total order is in order.
  pub sort-IsSorted : (xs : List A) → IsSorted before (sort before xs)
  unfolding sort
  sort-IsSorted [] = tt
  sort-IsSorted (x ∷ xs) = insert_sorted-IsSorted x (sort before xs) (sort-IsSorted xs)

module _ {ℓ κ} {A : Type ℓ} (P : A → Type κ) (before : A → A → Bool) where
  All-insert_sorted : (x : A) (xs : List A) → All P (insert_sorted before x xs) → P x × All P xs
  unfolding insert_sorted
  All-insert_sorted x [] h = h
  All-insert_sorted x (y ∷ ys) h = elim (Bool-cases (before x y)) [
    | inl e ↦ rw (e, insert_sorted) at h
    | inr e ↦
        let k : P y × All P (insert_sorted before x ys) = rw (e, insert_sorted) at h in
        let (here, there) = All-insert_sorted x ys k.1 in (here, (k.0, there))
  ]

  -- What holds of all of a sorted list holds of all of the list.
  pub All-sort : (xs : List A) → All P (sort before xs) → All P xs
  unfolding sort
  All-sort [] _ = tt
  All-sort (x ∷ xs) h =
      let (here, there) = All-insert_sorted x (sort before xs) h in (here, All-sort xs there)

module _ {ℓ} {A : Type ℓ} (before : A → A → Bool) where
  insert_sorted-ne-nil : (x : A) (xs : List A) → insert_sorted before x xs ≡ [] → ⊥
  unfolding insert_sorted
  insert_sorted-ne-nil x [] h = cc
  insert_sorted-ne-nil x (y ∷ ys) h = ground arith

  pub sort-eq-nil : (xs : List A) → sort before xs ≡ [] → xs ≡ []
  unfolding sort
  sort-eq-nil [] h = refl
  sort-eq-nil (x ∷ xs) h = absurd (insert_sorted-ne-nil x (sort before xs) h)

module _ {ℓ} {A : Type ℓ} (before : A → A → Bool) where
  insert_sorted-In_new : (a x : A) (xs : List A) → x ≡ a → In a (insert_sorted before x xs)
  unfolding insert_sorted
  insert_sorted-In_new a x [] e = inl e
  insert_sorted-In_new a x (y ∷ ys) e = elim (Bool-cases (before x y)) [
    | inl t ↦ rw (t, insert_sorted) (inl e)
    | inr f ↦ rw (f, insert_sorted) (inr (insert_sorted-In_new a x ys e))
  ]

  insert_sorted-In : (a x : A) (xs : List A) → In a xs → In a (insert_sorted before x xs)
  unfolding insert_sorted
  insert_sorted-In a x [] i = inr i
  insert_sorted-In a x (y ∷ ys) i = elim (Bool-cases (before x y)) [
    | inl t ↦ rw (t, insert_sorted) (inr i)
    | inr f ↦
        let later = insert_sorted-In a x ys in
        rw (f, insert_sorted) (elim i [ inl e ↦ inl e | inr j ↦ inr (later j) ])
  ]

  pub sort-In : (a : A) (xs : List A) → In a xs → In a (sort before xs)
  unfolding sort
  sort-In a (x ∷ xs) (inl e) = insert_sorted-In_new a x (sort before xs) e
  sort-In a (x ∷ xs) (inr i) = insert_sorted-In a x (sort before xs) (sort-In a xs i)
  sort-In a [] i = elim i [ ]
