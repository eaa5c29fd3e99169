-- ===== src/Refs/Counts.antt =====
-- refs/generator.py: how often a role and name occurs in a frame, by the counts that the loop keeps
-- and among the refs that it has written.
use browser_cli.Prelude.{
  String, ℕ, ◌+◌, ◌≤◌, List, [], ◌∷◌, none, ◌≡◌, refl, arith, ◌==◌, if◌then◌else◌, string_eq,
  pair_eq, option_eq, list_eq, nat_eq,
}
use browser_cli.Dict.{Dict, lookup, insert, values, lookup-insert}
use browser_cli.Refs.{RefData}
use browser_cli.Refs.Markup.{Python}
use browser_cli.Refs.Walk.{Key, Walk, count_of, key_of, dedup_counts, number_refs, without_nth}
use browser_cli.Refs.Effects.{Effect}
use mathlib.Core.Option

pub count_of-insert :
    (k j : Key) (n : ℕ) (counts : Dict Key ℕ)
    → count_of k (insert j n counts) ≡ (if k == j then n else count_of k counts)
unfolding count_of
count_of-insert k j n counts = ground (arith, lookup-insert k j n counts)

-- The elements of a role and name in a frame.
unfoldable pub tally : Key → List RefData → ℕ
tally k [] = 0
tally k (d ∷ ds) = tally k ds + (if k == key_of d then 1 else 0)

pub tally-insert_new :
    (k : Key) (ref : String) (d : RefData) (refs : Dict String RefData)
    → lookup ref refs ≡ none
    → tally k (values (insert ref d refs))
      ≡ tally k (values refs) + (if k == key_of d then 1 else 0)
unfolding tally insert lookup
tally-insert_new k ref d [] h = refl
tally-insert_new k ref d ((r, x) ∷ refs) h = ground (arith, tally-insert_new k ref d refs)

pub count_of-dedup_counts :
    (k : Key) (ds : List RefData) (counts : Dict Key ℕ)
    → count_of k (dedup_counts ds counts) ≡ count_of k counts + tally k ds
unfolding dedup_counts tally
count_of-dedup_counts k [] counts = omega arith
count_of-dedup_counts k (d ∷ ds) counts = ground (
  arith,
  count_of-dedup_counts k ds (insert (key_of d) (count_of (key_of d) counts + 1) counts),
  count_of-insert k (key_of d) (count_of (key_of d) counts + 1) counts,
)

pub lookup-number_refs :
    (ref : String) (counts : Dict Key ℕ) (refs : Dict String RefData)
    → lookup ref (number_refs counts refs) ≡ Option.map (without_nth counts) (lookup ref refs)
unfolding number_refs lookup
lookup-number_refs ref counts [] = refl
lookup-number_refs ref counts ((r, x) ∷ refs) = ground (arith, lookup-number_refs ref counts refs)

pub key_of-without_nth :
    (counts : Dict Key ℕ) (d : RefData) → key_of (without_nth counts d) ≡ key_of d
unfolding without_nth
key_of-without_nth counts d = ground arith

pub nth-without_nth :
    (counts : Dict Key ℕ) (d : RefData)
    → (without_nth counts d).nth ≡ (if count_of (key_of d) counts == 1 then none else d.nth)
unfolding without_nth
nth-without_nth counts d = ground arith

pub Effect-count_of-le :
    (py : Python) (k : Key) (w w' : Walk)
    → Effect py w w'
    → count_of k w.occurrence_counts ≤ count_of k w'.occurrence_counts
Effect-count_of-le py k w w' (Effect.quiet r c) = rw c (omega arith)
Effect-count_of-le py k w w' (Effect.tagged d n r c) = rw (c, count_of-insert) (ground arith)
