-- ===== src/Extension/Transmission.antt =====
-- Whether a request has an artifact in transmission, after each write of the table of buffers.
use browser_cli.Prelude.{
  String, [], ◌∷◌, some, true, false, ◌||◌, ◌≡◌, ◌≢◌, refl, sym, ap, ◌∙◌, ◌==◌, string_eq, pair_eq,
  Bool-cases, inl, inr, arith,
}
use browser_cli.Dict.{Dict, lookup, insert, erase}
use browser_cli.Extension.Tables.{ArtifactBuffer, transmits, drop_buffers}

module _ {J : Type 0} where
  pub transmits-insert :
      (id : String) (k : String × String) (b : ArtifactBuffer J)
      (d : Dict (String × String) (ArtifactBuffer J))
      → transmits id (insert k b d) ≡ (k.0 == id || transmits id d)
  unfolding insert
  transmits-insert id k b [] = refl
  transmits-insert id k b ((j, w) ∷ d) = elim (pair_eq.dec k j) [
    | yes e ↦ ground (arith, ap (λ p. p.0) e)
    | no n ↦ ground (arith, transmits-insert id k b d)
  ]

  pub lookup-transmits :
      (k : String × String) (b : ArtifactBuffer J) (d : Dict (String × String) (ArtifactBuffer J))
      → lookup k d ≡ some b
      → transmits k.0 d ≡ true
  unfolding lookup
  lookup-transmits k b [] h = absurd (ground arith)
  lookup-transmits k b ((j, w) ∷ d) h = elim (pair_eq.dec k j) [
    | yes e ↦ ground (arith, ap (λ p. p.0) e)
    | no n ↦ let later = lookup-transmits k b d (ground arith) in ground arith
  ]

  pub transmits-erase_ne :
      (id : String) (k : String × String) (d : Dict (String × String) (ArtifactBuffer J))
      → k.0 ≢ id
      → transmits id (erase k d) ≡ transmits id d
  unfolding erase
  transmits-erase_ne id k [] n = refl
  transmits-erase_ne id k ((j, w) ∷ d) n = elim (pair_eq.dec k j) [
    | yes e ↦
        let other : j.0 ≢ id = λ p. n (ap (λ q. q.0) e ∙ p) in
        ground (arith, transmits-erase_ne id k d n)
    | no m ↦ ground (arith, transmits-erase_ne id k d n)
  ]

  pub erase-transmits_none :
      (id : String) (k : String × String) (d : Dict (String × String) (ArtifactBuffer J))
      → transmits id d ≡ false
      → transmits id (erase k d) ≡ false
  unfolding erase
  erase-transmits_none id k [] h = refl
  erase-transmits_none id k ((j, w) ∷ d) h = elim (Bool-cases (transmits id d)) [
    | inl e ↦ absurd (ground arith)
    | inr e ↦ ground (arith, erase-transmits_none id k d e)
  ]

  pub transmits-drop_buffers_self :
      (id : String) (d : Dict (String × String) (ArtifactBuffer J))
      → transmits id (drop_buffers id d) ≡ false
  unfolding drop_buffers
  transmits-drop_buffers_self id [] = refl
  transmits-drop_buffers_self id ((j, w) ∷ d) = ground (arith, transmits-drop_buffers_self id d)

  pub transmits-drop_buffers_ne :
      (id other : String) (d : Dict (String × String) (ArtifactBuffer J))
      → other ≢ id
      → transmits other (drop_buffers id d) ≡ transmits other d
  unfolding drop_buffers
  transmits-drop_buffers_ne id other [] n = refl
  transmits-drop_buffers_ne id other ((j, w) ∷ d) n = elim (string_eq.dec j.0 id) [
    | yes e ↦
        let away : j.0 ≢ other = λ p. n (sym p ∙ e) in
        ground (arith, transmits-drop_buffers_ne id other d n)
    | no m ↦ ground (arith, transmits-drop_buffers_ne id other d n)
  ]
