-- ===== src/Refs/Numbered.antt =====
-- refs/generator.py: the refs that the loop has written and the elements that it has counted. A digest has
-- four bytes, so two elements may have one ref.
use browser_cli.Prelude.{
  String, ℕ, ◌+◌, ◌≤◌, ◌<◌, [], none, some, ◌≡◌, refl, arith, string_eq, pair_eq, option_eq,
  list_eq, nat_eq, sym, ap, ◌∙◌, Option-cases, inl, inr,
}
use mathlib.Core.Path.{subst}
use native.Mathlib.Decide.{dec_lt}
use browser_cli.Dict.{
  Dict, lookup, insert, values, insert-cases, lookup-insert_self, lookup-insert_ne,
}
use browser_cli.Refs.{RefData}
use browser_cli.Refs.Markup.{Python}
use browser_cli.Refs.Walk.{Key, count_of, key_of, compute_stable_ref}
use browser_cli.Refs.Counts.{tally, tally-insert_new, count_of-insert}

-- No two of the elements that are counted have the same ref.
abbrev pub Separates : Python → (Key → ℕ) → Type 0
Separates py bound =
    (k k' : Key) (i i' : ℕ)
    → i < bound k
    → i' < bound k'
    → compute_stable_ref py k i ≡ compute_stable_ref py k' i'
    → (k ≡ k') × (i ≡ i')

-- The refs are those of the elements that are counted, each with its number.
pub record Numbered (py : Python) (refs : Dict String RefData) (counts : Dict Key ℕ) : Type 0 where
  pub sound :
      (ref : String) (d : RefData)
      → lookup ref refs ≡ some d
      → (i : ℕ) × (ref ≡ compute_stable_ref py (key_of d) i) × (i < count_of (key_of d) counts)
  pub complete :
      (k : Key) (i : ℕ)
      → i < count_of k counts
      → (d : RefData) × (lookup (compute_stable_ref py k i) refs ≡ some d)
        × (key_of d ≡ k)
        × (d.nth ≡ some i)
  pub tallied : (k : Key) → tally k (values refs) ≡ count_of k counts

pub none-Numbered : (py : Python) → Numbered py [] []
unfolding count_of lookup tally
none-Numbered py = record {
  sound = λ ref d h. absurd (cc);
  complete = λ k i h. elim h [ ];
  tallied = λ k. refl;
}

-- One element more, of the role, name and frame `k`.
module _ (py : Python) (bound : Key → ℕ) (separate : Separates py bound) (d : RefData)
    (refs : Dict String RefData) (counts : Dict Key ℕ)
    (within : (k : Key)
      → count_of k (insert (key_of d) (count_of (key_of d) counts + 1) counts) ≤ bound k)
    (numbered : Numbered py refs counts) where
  abbrev nth : ℕ
  nth = count_of (key_of d) counts

  abbrev ref : String
  ref = compute_stable_ref py (key_of d) nth

  abbrev counts' : Dict Key ℕ
  counts' = insert (key_of d) (nth + 1) counts

  grows : (k : Key) → count_of k counts ≤ count_of k counts'
  grows k = ground (arith, count_of-insert k (key_of d) (nth + 1) counts)

  counted : nth < count_of (key_of d) counts'
  counted = ground (arith, count_of-insert (key_of d) (key_of d) (nth + 1) counts)

  is_fresh : lookup ref refs ≡ none
  is_fresh = elim (Option-cases (lookup ref refs)) [
    | inl new ↦ new
    | inr (x, old) ↦
        let (i, e, less) = numbered.sound ref x old in
        let (same, number) =
          separate (key_of d) (key_of x) nth i (omega (arith, counted, within (key_of d)))
            (omega (arith, less, grows (key_of x), within (key_of x))) e in
        absurd (omega (arith, number, subst (λ k. i < count_of k counts) (sym same) less))
  ]

  still :
      (r : String) (x : RefData) → lookup r refs ≡ some x → lookup r (insert ref d refs) ≡ some x
  still r x h = lookup-insert_ne r ref d refs (λ p. cc (ap (λ s. lookup s refs) p, is_fresh)) ∙ h

  sound' :
      (r : String) (x : RefData)
      → lookup r (insert ref d refs) ≡ some x
      → (i : ℕ) × (r ≡ compute_stable_ref py (key_of x) i) × (i < count_of (key_of x) counts')
  sound' r x h = elim (insert-cases r ref d x refs h) [
    | inl (same, new) ↦ (nth, rw (← new) same, rw (← new) counted)
    | inr (_, old) ↦
        let (i, e, less) = numbered.sound r x old in (i, e, omega (arith, less, grows (key_of x)))
  ]

  is_last :
      (k : Key) (i : ℕ)
      → i < count_of k counts'
      → ¬ (i < count_of k counts)
      → (key_of d ≡ k) × (nth ≡ i)
  is_last k i less new = ground (arith, count_of-insert k (key_of d) (nth + 1) counts)

  complete' :
      (k : Key) (i : ℕ)
      → d.nth ≡ some nth
      → i < count_of k counts'
      → (x : RefData) × (lookup (compute_stable_ref py k i) (insert ref d refs) ≡ some x)
        × (key_of x ≡ k)
        × (x.nth ≡ some i)
  complete' k i its less = elim (dec_lt i (count_of k counts)) [
    | yes old ↦
        let (x, there, same, number) = numbered.complete k i old in
        (x, still _ x there, same, number)
    | no new ↦
        let (same, number) = is_last k i less new in
        (d, rw (← same, ← number) (lookup-insert_self ref d refs), same, rw (← number) its)
  ]

  pub add-Numbered : d.nth ≡ some nth → Numbered py (insert ref d refs) counts'
  add-Numbered its = record {
    sound = sound';
    complete = λ k i less. complete' k i its less;
    tallied = λ k. ground (
      arith,
      tally-insert_new k ref d refs is_fresh,
      numbered.tallied k,
      count_of-insert k (key_of d) (nth + 1) counts,
    );
  }
