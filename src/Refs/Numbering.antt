-- ===== src/Refs/Numbering.antt =====
-- refs/generator.py: the elements of a snapshot, their refs and their numbers.
use browser_cli.Prelude.{
  String, ℕ, ◌≤◌, ◌<◌, List, [], ◌∷◌, none, some, ◌≡◌, ◌≢◌, refl, arith, ◌==◌, if◌then◌else◌,
  string_eq, pair_eq, option_eq, list_eq, nat_eq, ap, ◌∙◌,
}
use mathlib.Core.Option
use browser_cli.Dict.{Dict, lookup, values}
use browser_cli.Refs.{RefData}
use browser_cli.Refs.Markup.{Python}
use browser_cli.Refs.Walk.{
  Key, Walk, no_lines, count_of, key_of, compute_stable_ref, dedup_counts, number_refs, without_nth,
}
use browser_cli.Refs.Generator.{Options, read_line, read_lines, walk, snapshot_from_raw_text}
use browser_cli.Refs.Effects.{Effect, read_line-Effect}
use browser_cli.Refs.Counts.{
  count_of-dedup_counts, lookup-number_refs, Effect-count_of-le, key_of-without_nth,
  nth-without_nth,
}
use browser_cli.Refs.Numbered.{Separates, Numbered, none-Numbered, add-Numbered}

module _ (py : Python) (o : Options) (bound : Key → ℕ) (separate : Separates py bound) where
  Effect-Numbered :
      (w w' : Walk)
      → ((k : Key) → count_of k w'.occurrence_counts ≤ bound k)
      → Numbered py w.refs w.occurrence_counts
      → Effect py w w'
      → Numbered py w'.refs w'.occurrence_counts
  Effect-Numbered w w' within n (Effect.quiet r c) = rw (r, c) n
  Effect-Numbered w w' within n (Effect.tagged d its r c) =
      rw (r, c) (add-Numbered py bound separate d w.refs w.occurrence_counts (rw c at within) n its)

  read_lines-le :
      (k : Key) (lines : List String) (w : Walk)
      → count_of k w.occurrence_counts ≤ count_of k (read_lines py o lines w).occurrence_counts
  unfolding read_lines
  read_lines-le k [] w = omega arith
  read_lines-le k (line ∷ lines) w = omega (
    arith,
    Effect-count_of-le py k w (read_line py o line w) (read_line-Effect py o line w),
    read_lines-le k lines (read_line py o line w),
  )

  read_lines-Numbered :
      (lines : List String) (w : Walk)
      → ((k : Key) → count_of k (read_lines py o lines w).occurrence_counts ≤ bound k)
      → Numbered py w.refs w.occurrence_counts
      → Numbered py (read_lines py o lines w).refs (read_lines py o lines w).occurrence_counts
  unfolding read_lines
  read_lines-Numbered [] w within n = n
  read_lines-Numbered (line ∷ lines) w within n =
      read_lines-Numbered lines (read_line py o line w) within (
        Effect-Numbered w (read_line py o line w)
          (λ k. omega (arith, read_lines-le k lines (read_line py o line w), within k)) n
          (read_line-Effect py o line w))

pub snapshot_refs :
    (py : Python) (o : Options) (raw : String)
    → raw ≢ ""
    → (snapshot_from_raw_text py o raw).refs
      ≡ number_refs (dedup_counts (values (walk py o raw).refs) []) (walk py o raw).refs
unfolding snapshot_from_raw_text
snapshot_refs py o raw h = ground arith

-- How many elements of a role and name in a frame have refs.
abbrev pub occurrences : Python → Options → String → Key → ℕ
occurrences py o raw k = count_of k (walk py o raw).occurrence_counts

module _ (py : Python) (o : Options) (raw : String)
    (separate : Separates py (occurrences py o raw)) where
  walk-Numbered : Numbered py (walk py o raw).refs (walk py o raw).occurrence_counts
  unfolding walk
  walk-Numbered =
      read_lines-Numbered py o (occurrences py o raw) separate _ no_lines (λ k. omega arith)
        (none-Numbered py)

  abbrev final_counts : Dict Key ℕ
  final_counts = dedup_counts (values (walk py o raw).refs) []

  final_counts_lem : (k : Key) → count_of k final_counts ≡ occurrences py o raw k
  unfolding count_of lookup
  final_counts_lem k =
      omega
        (arith, count_of-dedup_counts k (values (walk py o raw).refs) [], walk-Numbered.tallied k)

  -- Every element that is counted has its entry in the snapshot, under its own ref, with its number
  pub snapshot_ref :
      (k : Key) (i : ℕ)
      → raw ≢ ""
      → i < occurrences py o raw k
      → (d : RefData) × (lookup (compute_stable_ref py k i) (snapshot_from_raw_text py o raw).refs
          ≡ some d)
        × (key_of d ≡ k)
        × (d.nth ≡ (if occurrences py o raw k == 1 then none else some i))
  snapshot_ref k i some_text less =
      let (x, there, same, number) = walk-Numbered.complete k i less in
      (
        without_nth final_counts x,
        rw (snapshot_refs py o raw some_text, lookup-number_refs)
            (ap (Option.map (without_nth final_counts)) there),
        key_of-without_nth final_counts x ∙ same,
        rw (nth-without_nth, same, final_counts_lem, number) refl,
      )
