-- ===== src/Prelude/Increasing.antt =====
-- Sorted lists of distinct numbers, and those without a gap.
use Prim.Native.Nat.{ℕ, zero, suc, ◌+◌, ◌≤◌, ◌<◌}
use mathlib.Core.Path.{◌≡◌, refl, sym, ap, ◌∙◌}
use mathlib.Core.Logic.{◌≢◌, ◌⊎◌, inl, inr}
use mathlib.Core.List.{List, [], ◌∷◌}
use native.Mathlib.Omega.{arith}
use browser_cli.Prelude.Lists.{length, All, In, All-In}
use browser_cli.Prelude.Tests.{leb, leb→le, leb_false→lt, Bool-cases}
use browser_cli.Prelude.Sort.{sort, insert_sorted, insert_sorted-All}

abbrev pub Increasing : List ℕ → Type 0
Increasing [] = Unit
Increasing (x ∷ xs) = All (λ y. x < y) xs × Increasing xs

abbrev pub range : ℕ → ℕ → List ℕ
range a zero = []
range a (suc n) = a ∷ range (a + 1) n

abbrev pub last : ℕ → List ℕ → ℕ
last k [] = k
last k (j ∷ js) = last j js

All-weaken : (x y : ℕ) (zs : List ℕ) → x < y → All (λ z. y < z) zs → All (λ z. x < z) zs
All-weaken x y [] h _ = tt
All-weaken x y (z ∷ zs) h (k, ks) = (omega (arith, h, k), All-weaken x y zs h ks)

insert_sorted-Increasing :
    (x : ℕ) (xs : List ℕ)
    → ((a : ℕ) → In a xs → a ≢ x)
    → Increasing xs
    → Increasing (insert_sorted leb x xs)
unfolding insert_sorted
insert_sorted-Increasing x [] new _ = (tt, tt)
insert_sorted-Increasing x (y ∷ ys) new (h, hs) = elim (Bool-cases (leb x y)) [
  | inl e ↦
      let x_y : x < y = let le = leb→le x y e in let ne = new y (inl refl) in ground arith in
      rw e ((x_y, All-weaken x y ys x_y h), (h, hs))
  | inr e ↦ rw e (
    insert_sorted-All (λ z. y < z) leb x ys (leb_false→lt x y e) h,
    insert_sorted-Increasing x ys (λ a i. new a (inr i)) hs,
  )
]

In-insert_sorted : (a x : ℕ) (xs : List ℕ) → In a (insert_sorted leb x xs) → (x ≡ a) ⊎ In a xs
unfolding insert_sorted
In-insert_sorted a x [] i = i
In-insert_sorted a x (y ∷ ys) i = elim (Bool-cases (leb x y)) [
  | inl e ↦ rw (e, insert_sorted) at i
  | inr e ↦
      let j : (y ≡ a) ⊎ In a (insert_sorted leb x ys) = rw (e, insert_sorted) at i in
      elim j [
        | inl here ↦ inr (inl here)
        | inr there ↦ elim (In-insert_sorted a x ys there) [ inl p ↦ inl p | inr q ↦ inr (inr q) ]
      ]
]

pub In-sort : (a : ℕ) (xs : List ℕ) → In a (sort leb xs) → In a xs
unfolding sort
In-sort a [] i = i
In-sort a (x ∷ xs) i = elim (In-insert_sorted a x (sort leb xs) i) [
  | inl here ↦ inl here
  | inr there ↦ inr (In-sort a xs there)
]

abbrev pub Distinct : List ℕ → Type 0
Distinct [] = Unit
Distinct (x ∷ xs) = ((a : ℕ) → In a xs → a ≢ x) × Distinct xs

pub sort-Increasing : (xs : List ℕ) → Distinct xs → Increasing (sort leb xs)
unfolding sort
sort-Increasing [] _ = tt
sort-Increasing (x ∷ xs) (new, u) =
    insert_sorted-Increasing x (sort leb xs) (λ a i. new a (In-sort a xs i)) (sort-Increasing xs u)

length-insert_sorted : (x : ℕ) (xs : List ℕ) → length (insert_sorted leb x xs) ≡ length xs + 1
unfolding insert_sorted
length-insert_sorted x [] = refl
length-insert_sorted x (y ∷ ys) = ground (arith, length-insert_sorted x ys)

pub length-sort : (xs : List ℕ) → length (sort leb xs) ≡ length xs
unfolding sort
length-sort [] = refl
length-sort (x ∷ xs) = omega (arith, length-insert_sorted x (sort leb xs), length-sort xs)

-- An increasing list that has every number from `a` on, as many as it is long, is the range.
pub Increasing-range :
    (a : ℕ) (ks : List ℕ)
    → Increasing ks
    → All (λ k. a ≤ k) ks
    → ((i : ℕ) → a ≤ i → i < a + length ks → In i ks)
    → ks ≡ range a (length ks)
Increasing-range a [] _ _ _ = refl
Increasing-range a (k ∷ ks) (h, hs) (l, _) full =
    let first : k ≡ a = elim (full a (omega arith) (omega arith)) [
      | inl e ↦ e
      | inr i ↦ let k_a = All-In (λ y. k < y) a ks h i in absurd (omega (arith, k_a, l))
    ] in
    let rest = Increasing-range (a + 1) ks hs (above a k ks (sym first) h) (λ i low high.
      elim (full i (omega (arith, low)) (omega (arith, high))) [
        | inl e ↦ absurd (omega (arith, e, first, low))
        | inr there ↦ there
      ]) in
    ap (λ x. x ∷ ks) first ∙ ap (λ l. a ∷ l) rest
  where
    above : (a k : ℕ) (ks : List ℕ) → a ≡ k → All (λ y. k < y) ks → All (λ y. a + 1 ≤ y) ks
    above a k [] e _ = tt
    above a k (y ∷ ys) e (h, hs) = (omega (arith, e, h), above a k ys e hs)

-- An increasing list is no longer than it reaches.
Increasing-last : (k : ℕ) (ks : List ℕ) → Increasing (k ∷ ks) → k + length ks ≤ last k ks
Increasing-last k [] _ = omega arith
Increasing-last k (j ∷ js) ((h, _), hs) = omega (arith, h, Increasing-last j js hs)

-- One that reaches no further than it is long has no gap.
pub Increasing-tight :
    (k : ℕ) (ks : List ℕ)
    → Increasing (k ∷ ks)
    → last k ks ≡ k + length ks
    → k ∷ ks ≡ range k (length ks + 1)
Increasing-tight k [] _ _ = ground arith
Increasing-tight k (j ∷ js) ((h, hs), rest) e =
    let step : j ≡ k + 1 = omega (arith, h, e, Increasing-last j js rest) in
    let tail = Increasing-tight j js rest (omega (arith, step, e)) in
    ap (λ l. k ∷ l) (tail ∙ ap (λ x. range x (length js + 1)) step) ∙ ground arith

pub range-In : (i a n : ℕ) → a ≤ i → i < a + n → In i (range a n)
range-In i a zero l h = absurd (omega (arith, l, h))
range-In i a (suc n) l h = elim (Bool-cases (leb i a)) [
  | inl e ↦ inl (omega (arith, leb→le i a e, l))
  | inr e ↦ inr (range-In i (a + 1) n (omega (arith, leb_false→lt i a e)) (omega (arith, h)))
]

pub last-range : (a n : ℕ) → last a (range (a + 1) n) ≡ a + n
last-range a zero = omega arith
last-range a (suc n) = omega (arith, last-range (a + 1) n)

pub length-range : (a n : ℕ) → length (range a n) ≡ n
length-range a zero = refl
length-range a (suc n) = omega (arith, length-range (a + 1) n)
