-- ===== src/Extension/Refinement.antt =====
-- What a request can go through, whatever else happens in the session.
use browser_cli.Prelude.{
  String, Option, none, some, true, ◌≡◌, ◌≢◌, ◌⊎◌, inl, inr, refl, sym, ap, ◌∙◌, string_eq, arith,
  [], ◌∷◌,
}
use browser_cli.Dict.{
  Dict, lookup, insert, erase, lookup-cons, lookup-insert, lookup-insert_ne, lookup-insert_self,
  lookup-erase_ne, lookup-erase_self,
}
use browser_cli.Json.{JsonOperations}
use browser_cli.Extension.Chunks.{disconnected}
use browser_cli.Extension.Tables.{
  Future, waits, answered, failed, Names, is_waiting, fail_future, fail_futures,
}
use browser_cli.Extension.Session.{ExtensionSession}
use browser_cli.Extension.Steps.{Steps}
use browser_cli.Extension.Endings.{Steps-Keeps}

-- What a session holds of one request: nothing, a future while it is pending, and its future afterwards.
pub data View (J : Type 0) : Type 0 where
  absent : View J
  opened closed : Future J → View J

abbrev pub view_of : {J : Type 0} → Option (Unit {0}) → Option (Future J) → View J
view_of _ none = absent
view_of none (some f) = closed f
view_of (some _) (some f) = opened f

-- The specification of one request: it is sent once, its future is settled once, and it ends once.
pub data Progress {J : Type 0} (v : View J) : View J → Type 0 where
  stays : Progress v v
  is_sent : Progress v absent → Progress v (opened waits)
  is_settled : (f : Future J) → Progress v (opened waits) → Progress v (opened f)
  is_over : (f : Future J) → Progress v (opened f) → Progress v (closed f)

module _ {J : Type 0} (id : String) where
  abbrev pub view : Names → Dict String (Future J) → View J
  view p fs = view_of (lookup id p) (lookup id fs)

  -- The future of one request after the loop of `fail_all`.
  abbrev FailedTo : Option (Future J) → Option (Future J) → Type 0
  FailedTo none z = z ≡ none
  FailedTo (some waits) z = (z ≡ some waits) ⊎ (z ≡ some (failed disconnected))
  FailedTo (some (answered r)) z = z ≡ some (answered r)
  FailedTo (some (failed e)) z = z ≡ some (failed e)

  FailedTo-refl : (y : Option (Future J)) → FailedTo y y
  FailedTo-refl none = refl
  FailedTo-refl (some waits) = inl refl
  FailedTo-refl (some (answered r)) = refl
  FailedTo-refl (some (failed e)) = refl

  pub fail_future-cases :
      (j : String) (x : Option (Future J)) (fs : Dict String (Future J))
      → lookup j fs ≡ x
      → (lookup id (fail_future x j fs) ≡ lookup id fs)
        ⊎ ((j ≡ id)
            × (lookup id fs ≡ some waits)
            × (lookup id (fail_future x j fs) ≡ some (failed disconnected)))
  fail_future-cases j none fs e = inl refl
  fail_future-cases j (some (answered r)) fs e = inl refl
  fail_future-cases j (some (failed r)) fs e = inl refl
  fail_future-cases j (some waits) fs e = elim (string_eq.dec id j) [
    | yes same ↦ inr (
      sym same,
      ap (λ i. lookup i fs) same ∙ e,
      ground (arith, lookup-insert {V = Future J} id j (failed disconnected) fs),
    )
    | no n ↦ inl (lookup-insert_ne id j _ fs n)
  ]

  failed_stays :
      (y z : Option (Future J))
      → y ≡ some (failed disconnected)
      → FailedTo y z
      → z ≡ some (failed disconnected)
  failed_stays none z e h = absurd (ground (arith, e))
  failed_stays (some waits) z e h = absurd (ground (arith, e))
  failed_stays (some (answered r)) z e h = absurd (ground (arith, e))
  failed_stays (some (failed r)) z e h = h ∙ e

  waits_failed :
      (y z : Option (Future J)) → y ≡ some waits → z ≡ some (failed disconnected) → FailedTo y z
  waits_failed none z e h = absurd (ground (arith, e))
  waits_failed (some waits) z e h = inr h
  waits_failed (some (answered r)) z e h = absurd (ground (arith, e))
  waits_failed (some (failed r)) z e h = absurd (ground (arith, e))

  fail_futures-FailedTo :
      (p : Names) (fs : Dict String (Future J))
      → FailedTo (lookup id fs) (lookup id (fail_futures p fs))
  unfolding fail_futures
  fail_futures-FailedTo [] fs = FailedTo-refl (lookup id fs)
  fail_futures-FailedTo ((j, _) ∷ p) fs =
      let next = fail_future (lookup j fs) j fs in
      let rest = fail_futures-FailedTo p next in
      elim (fail_future-cases j (lookup j fs) fs refl) [
        | inl same ↦ rw (sym same) rest
        | inr (_, before, after) ↦
            waits_failed (lookup id fs) _ before (failed_stays (lookup id next) _ after rest)
      ]

  unlisted :
      (p : Names) (fs : Dict String (Future J))
      → lookup id p ≡ none
      → lookup id (fail_futures p fs) ≡ lookup id fs
  unfolding fail_futures
  unlisted [] fs out = refl
  unlisted ((j, _) ∷ p) fs out =
      let other : j ≢ id = λ e. absurd (ground (arith, lookup-cons id j tt p)) in
      let rest : lookup id p ≡ none = ground (arith, lookup-cons id j tt p) in
      elim (fail_future-cases j (lookup j fs) fs refl) [
        | inl same ↦ unlisted p (fail_future (lookup j fs) j fs) rest ∙ same
        | inr (e, _, _) ↦ absurd (other e)
      ]

module _ {J : Type 0} (id : String) (v : View J) where
  -- The request has come so far.
  abbrev IsReached : Names → Dict String (Future J) → Type 0
  IsReached p fs = Progress v (view id p fs)

  settle_view :
      (a : Option (Unit {0})) (y : Option (Future J)) (f : Future J)
      → a ≡ some tt
      → is_waiting y ≡ true
      → Progress v (view_of a y)
      → Progress v (view_of a (some f))
  settle_view none y f listed live q = absurd (ground (arith, listed))
  settle_view (some _) none f listed live q = absurd (ground (arith, live))
  settle_view (some _) (some waits) f listed live q = is_settled f q
  settle_view (some _) (some (answered r)) f listed live q = absurd (ground (arith, live))
  settle_view (some _) (some (failed e)) f listed live q = absurd (ground (arith, live))

  sent_view :
      (a : Option (Unit {0})) (y : Option (Future J))
      → y ≡ none
      → Progress v (view_of a y)
      → Progress v absent
  sent_view a none e q = q
  sent_view a (some f) e q = absurd (ground (arith, e))

  close_view :
      (a : Option (Unit {0})) (y : Option (Future J))
      → Progress v (view_of a y)
      → Progress v (view_of none y)
  close_view none none q = q
  close_view none (some f) q = q
  close_view (some _) none q = q
  close_view (some _) (some f) q = is_over f q

  fail_view :
      (a : Option (Unit {0})) (y z : Option (Future J))
      → FailedTo id y z
      → (a ≡ none → z ≡ y)
      → Progress v (view_of a y)
      → Progress v (view_of none z)
  fail_view none y z h same q = rw (same refl) q
  fail_view (some _) none z h same q = rw h q
  fail_view (some _) (some waits) z (inl h) same q = rw h (is_over waits q)
  fail_view (some _) (some waits) z (inr h) same q =
      rw h (is_over (failed disconnected) (is_settled (failed disconnected) q))
  fail_view (some _) (some (answered r)) z h same q = rw h (is_over (answered r) q)
  fail_view (some _) (some (failed e)) z h same q = rw h (is_over (failed e) q)

  on_settle :
      (j : String) (f : Future J) (p : Names) (fs : Dict String (Future J))
      → lookup j p ≡ some tt
      → is_waiting (lookup j fs) ≡ true
      → IsReached p fs
      → IsReached p (insert j f fs)
  on_settle j f p fs listed live q = elim (string_eq.dec id j) [
    | yes e ↦
        rw (e, lookup-insert_self j f fs)
          (settle_view (lookup j p) (lookup j fs) f listed live (rw (sym e) q))
    | no n ↦ rw (lookup-insert_ne id j f fs n) q
  ]

  on_open :
      (j : String) (p : Names) (fs : Dict String (Future J))
      → lookup j fs ≡ none
      → IsReached p fs
      → IsReached (insert j tt p) (insert j waits fs)
  on_open j p fs fresh q = elim (string_eq.dec id j) [
    | yes e ↦
        rw (e, lookup-insert_self j tt p, lookup-insert_self {V = Future J} j waits fs)
          (is_sent (sent_view (lookup id p) (lookup id fs) (ap (λ i. lookup i fs) e ∙ fresh) q))
    | no n ↦ rw (lookup-insert_ne id j tt p n, lookup-insert_ne {V = Future J} id j waits fs n) q
  ]

  on_fail :
      (p : Names) (fs : Dict String (Future J)) → IsReached p fs → IsReached [] (fail_futures p fs)
  unfolding lookup
  on_fail p fs q =
      fail_view (lookup id p) (lookup id fs) (lookup id (fail_futures p fs))
        (fail_futures-FailedTo id p fs) (unlisted id p fs) q

  on_close :
      (j : String) (p : Names) (fs : Dict String (Future J))
      → IsReached p fs
      → IsReached (erase j p) fs
  on_close j p fs q = elim (string_eq.dec id j) [
    | yes e ↦ rw (e, lookup-erase_self j p) (close_view (lookup j p) (lookup j fs) (rw (sym e) q))
    | no n ↦ rw (lookup-erase_ne id j p n) q
  ]

module _ {J B : Type 0} (o : JsonOperations J) (decode : String → Option B) where
  -- Seen from one request, everything that can happen in a session, to it and to others, is a way of the
  -- specification: the request is sent once, settled once while it is open, and over once.
  pub Steps-Progress :
      (id : String) (s t : ExtensionSession J B)
      → Steps o decode s t
      → Progress (view id s.pending s.futures) (view id t.pending t.futures)
  Steps-Progress id s t steps =
      let v = view id s.pending s.futures in
      Steps-Keeps (IsReached id v) (on_settle id v) (on_open id v) (on_fail id v) (on_close id v) o
        decode s t steps stays
