-- ===== src/Dict.antt =====
-- Python's `dict` in insertion order: an assignment to a key that is there keeps its place.
use browser_cli.Prelude.{
  In, All, ◌≢◌, ◌⊎◌, inl, inr, Eq, ◌==◌, if◌then◌else◌, ◌≡◌, refl, Option, none, some, List, [],
  ◌∷◌, arith, length, ◌≤◌, ◌+◌,
}

abbrev pub Dict {ℓ κ} : Type ℓ → Type κ → Type (ℓ ⊔ κ)
Dict K V = List (K × V)

-- `list(d.values())` and `list(d)`
module _ {ℓ κ} {K : Type ℓ} {V : Type κ} where
  abbrev pub values : Dict K V → List V
  values [] = []
  values ((k, v) ∷ d) = v ∷ values d

  abbrev pub keys : Dict K V → List K
  keys [] = []
  keys ((k, v) ∷ d) = k ∷ keys d

module _ {ℓ κ} {K : Type ℓ} {V : Type κ} ⦃e : Eq K⦄ where
  -- `d.get(k)`
  unfoldable pub lookup : K → Dict K V → Option V
  lookup k [] = none
  lookup k ((j, v) ∷ d) = if k == j then some v else lookup k d

  -- `d[k] = v`
  unfoldable pub insert : K → V → Dict K V → Dict K V
  insert k v [] = (k, v) ∷ []
  insert k v ((j, w) ∷ d) = if k == j then (k, v) ∷ d else (j, w) ∷ insert k v d

  -- `d.pop(k, None)`
  unfoldable pub erase : K → Dict K V → Dict K V
  erase k [] = []
  erase k ((j, w) ∷ d) = let rest = erase k d in if k == j then rest else (j, w) ∷ rest

  -- No key twice: what every dict has.
  abbrev pub NodupKeys : Dict K V → Type κ
  NodupKeys [] = Unit
  NodupKeys ((k, _) ∷ d) = (lookup k d ≡ none) × NodupKeys d

  pub lookup-nil : (k : K) → lookup k [] ≡ none
  unfolding lookup
  lookup-nil k = refl

  pub lookup-cons :
      (j k : K) (v : V) (d : Dict K V)
      → lookup j ((k, v) ∷ d) ≡ (if j == k then some v else lookup j d)
  unfolding lookup
  lookup-cons j k v d = refl

  pub lookup-insert :
      (j k : K) (v : V) (d : Dict K V)
      → lookup j (insert k v d) ≡ (if j == k then some v else lookup j d)
  unfolding insert lookup
  lookup-insert j k v [] = refl
  lookup-insert j k v (_ ∷ d) = ground (arith, lookup-insert j k v d)

  pub lookup-erase :
      (j k : K) (d : Dict K V) → lookup j (erase k d) ≡ (if j == k then none else lookup j d)
  unfolding erase lookup
  lookup-erase j k [] = ground arith
  lookup-erase j k (_ ∷ d) = ground (arith, lookup-erase j k d)

  pub insert-NodupKeys : (k : K) (v : V) (d : Dict K V) → NodupKeys d → NodupKeys (insert k v d)
  unfolding insert
  insert-NodupKeys k v [] _ = (lookup-nil k, tt)
  insert-NodupKeys k v ((j, _) ∷ d) (fresh, u) =
      ground (arith, insert-NodupKeys k v d u, lookup-insert j k v d)

  pub erase-NodupKeys : (k : K) (d : Dict K V) → NodupKeys d → NodupKeys (erase k d)
  unfolding erase
  erase-NodupKeys k [] _ = tt
  erase-NodupKeys k ((j, _) ∷ d) (fresh, u) =
      ground (arith, erase-NodupKeys k d u, lookup-erase j k d)

  pub length-insert_new :
      (k : K) (v : V) (d : Dict K V) → lookup k d ≡ none → length (insert k v d) ≡ length d + 1
  unfolding insert lookup
  length-insert_new k v [] _ = refl
  length-insert_new k v (_ ∷ d) h = ground (arith, length-insert_new k v d)

  pub length-erase-le : (k : K) (d : Dict K V) → length (erase k d) ≤ length d
  unfolding erase
  length-erase-le k [] = omega arith
  length-erase-le k (_ ∷ d) = ground (arith, length-erase-le k d)

-- The same, read from the right.
module _ {ℓ κ} {K : Type ℓ} {V : Type κ} ⦃e : Eq K⦄ where
  pub lookup-insert_self : (k : K) (v : V) (d : Dict K V) → lookup k (insert k v d) ≡ some v
  lookup-insert_self k v d = ground (arith, lookup-insert k k v d)

  pub lookup-insert_ne :
      (j k : K) (v : V) (d : Dict K V) → j ≢ k → lookup j (insert k v d) ≡ lookup j d
  lookup-insert_ne j k v d h = ground (arith, lookup-insert j k v d)

  pub lookup-erase_self : (k : K) (d : Dict K V) → lookup k (erase k d) ≡ none
  lookup-erase_self k d = ground (arith, lookup-erase k k d)

  pub lookup-erase_ne : (j k : K) (d : Dict K V) → j ≢ k → lookup j (erase k d) ≡ lookup j d
  lookup-erase_ne j k d h = ground (arith, lookup-erase j k d)

  -- What is found after an insertion is the new value, or was there before.
  pub insert-cases :
      (j k : K) (v w : V) (d : Dict K V)
      → lookup j (insert k v d) ≡ some w
      → ((j ≡ k) × (v ≡ w)) ⊎ ((j ≢ k) × (lookup j d ≡ some w))
  insert-cases j k v w d h = elim (e.dec j k) [
    | yes p ↦ inl (p, ground (arith, lookup-insert j k v d))
    | no n ↦ inr (n, ground (arith, lookup-insert j k v d))
  ]

  pub erase-cases :
      (j k : K) (w : V) (d : Dict K V)
      → lookup j (erase k d) ≡ some w
      → (j ≢ k) × (lookup j d ≡ some w)
  erase-cases j k w d h = elim (e.dec j k) [
    | yes p ↦ absurd (ground (arith, lookup-erase j k d))
    | no n ↦ (n, ground (arith, lookup-erase j k d))
  ]

-- What holds of every entry that can be looked up holds of all values.
module _ {ℓ κ μ} {K : Type ℓ} {V : Type κ} ⦃e : Eq K⦄ (P : V → Type μ) where
  pub values-All :
      (d : Dict K V)
      → NodupKeys d
      → ((k : K) (v : V) → lookup k d ≡ some v → P v)
      → All P (values d)
  unfolding lookup
  values-All [] _ h = tt
  values-All ((k, v) ∷ d) (fresh, u) h =
      (h k v (ground arith), values-All d u (λ j w there. h j w (ground arith)))

module _ {ℓ κ} {K : Type ℓ} {V : Type κ} ⦃e : Eq K⦄ where
  pub values-In : (k : K) (v : V) (d : Dict K V) → lookup k d ≡ some v → In v (values d)
  unfolding lookup
  values-In k v [] h = absurd (ground arith)
  values-In k v ((j, w) ∷ d) h = elim (e.dec k j) [
    | yes p ↦ inl (ground arith)
    | no n ↦ inr (values-In k v d (ground arith))
  ]

pub ruleset dict_laws = (lookup-nil, lookup-insert, lookup-erase)
