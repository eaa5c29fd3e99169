-- ===== src/Refs/Known.antt =====
-- refs/generator.py: the elements that are open while a line is read, and their refs.
use browser_cli.Prelude.{
  String, ℕ, List, [], ◌∷◌, Option, none, some, Bool, true, false, ◌≡◌, ◌≢◌, arith, if◌then◌else◌,
  string_eq, inl, inr, All,
}
use browser_cli.Dict.{Dict, lookup, insert, lookup-insert, insert-cases}
use browser_cli.Refs.{RefData}
use browser_cli.Refs.Walk.{Open, pop_depths, nearest_parent_ref, first_ref}

-- There is no parent, or it has an entry.
abbrev pub Known : Dict String RefData → Option String → Type 0
Known refs none = Unit
Known refs (some ref) = lookup ref refs ≢ none

Known-insert :
    (refs : Dict String RefData) (ref : String) (d : RefData) (parent : Option String)
    → Known refs parent
    → Known (insert ref d refs) parent
Known-insert refs ref d none h = tt
Known-insert refs ref d (some parent) h = λ gone. ground (arith, lookup-insert parent ref d refs)

abbrev pub OpenKnown : Dict String RefData → List Open → Type 0
OpenKnown refs stack = All (λ o. Known refs o.ref) stack

OpenKnown-insert :
    (refs : Dict String RefData) (ref : String) (d : RefData) (stack : List Open)
    → OpenKnown refs stack
    → OpenKnown (insert ref d refs) stack
OpenKnown-insert refs ref d [] h = tt
OpenKnown-insert refs ref d (o ∷ stack) (h, hs) =
    (Known-insert refs ref d o.ref h, OpenKnown-insert refs ref d stack hs)

pub pop_depths-OpenKnown :
    (refs : Dict String RefData) (depth : ℕ) (stack : List Open)
    → OpenKnown refs stack
    → OpenKnown refs (pop_depths depth stack)
unfolding pop_depths
pop_depths-OpenKnown refs depth [] h = tt
pop_depths-OpenKnown refs depth (o ∷ stack) h =
    ground (arith, pop_depths-OpenKnown refs depth stack h.1)

first_ref-Known :
    (refs : Dict String RefData) (ref rest : Option String)
    → Known refs ref
    → Known refs rest
    → Known refs (first_ref ref rest)
first_ref-Known refs none rest h k = k
first_ref-Known refs (some ref) rest h k = h

if-Known :
    (refs : Dict String RefData) (test : Bool) (ref rest : Option String)
    → Known refs ref
    → Known refs rest
    → Known refs (if test then ref else rest)
if-Known refs true ref rest h k = h
if-Known refs false ref rest h k = k

pub nearest_parent_ref-Known :
    (refs : Dict String RefData) (depth : ℕ) (stack : List Open)
    → OpenKnown refs stack
    → Known refs (nearest_parent_ref depth stack)
unfolding nearest_parent_ref
nearest_parent_ref-Known refs depth [] h = tt
nearest_parent_ref-Known refs depth (o ∷ stack) (h, hs) =
    let rest = nearest_parent_ref-Known refs depth stack hs in
    if-Known refs _ _ _ (first_ref-Known refs o.ref _ h rest) rest

pub record ParentsKnown (refs : Dict String RefData) (stack : List Open) : Type 0 where
  pub opened : OpenKnown refs stack
  pub written : (ref : String) (d : RefData) → lookup ref refs ≡ some d → Known refs d.parent_ref

pub insert-ParentsKnown :
    (refs : Dict String RefData) (stack : List Open) (ref : String) (d : RefData)
    → ParentsKnown refs stack
    → Known refs d.parent_ref
    → ParentsKnown (insert ref d refs) stack
insert-ParentsKnown refs stack ref d p h = record {
  opened = OpenKnown-insert refs ref d stack p.opened;
  written = λ r x there.
      Known-insert refs ref d x.parent_ref (elim (insert-cases r ref d x refs there) [
        | inl (_, new) ↦ rw (← new) h
        | inr (_, old) ↦ p.written r x old
      ]);
}
