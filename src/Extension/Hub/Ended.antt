-- ===== src/Extension/Hub/Ended.antt =====
-- extension/session.py: the requests that wait when the hub's session ends.
use browser_cli.Prelude.{
  ℕ, String, [], ◌∷◌, Option, none, some, true, false, ◌≡◌, inl, inr, refl, sym, ap, ◌∙◌, string_eq,
  nat_eq, ◌==◌, arith,
}
use browser_cli.Dict.{Dict, lookup, lookup-insert_self, lookup-cons, lookup-nil}
use browser_cli.Extension.Chunks.{disconnected}
use browser_cli.Extension.Tables.{Future, waits, answered, failed, Names, fail_future, fail_futures}
use browser_cli.Extension.Session.{ExtensionSession, fail_all}
use browser_cli.Extension.Outcomes.{IsDecided-fail}
use browser_cli.Extension.Refinement.{fail_future-cases}
use browser_cli.Extension.Hub.{Hub, end_connection, stop_session}

module _ {J : Type 0} (id : String) where
  fail_future_self :
      (j : String) (x : Option (Future J)) (fs : Dict String (Future J))
      → x ≡ some waits
      → lookup j (fail_future x j fs) ≡ some (failed disconnected)
  fail_future_self j none fs e = absurd (ground (arith, e))
  fail_future_self j (some waits) fs e = lookup-insert_self j (failed disconnected) fs
  fail_future_self j (some (answered r)) fs e = absurd (ground (arith, e))
  fail_future_self j (some (failed r)) fs e = absurd (ground (arith, e))

  listed_failed :
      (p : Names) (fs : Dict String (Future J))
      → lookup id p ≡ some tt
      → lookup id fs ≡ some waits
      → lookup id (fail_futures p fs) ≡ some (failed disconnected)
  unfolding fail_futures
  listed_failed [] fs there w = absurd (ground (arith, lookup-nil {V = Unit {0}} id))
  listed_failed ((j, _) ∷ p) fs there w =
      let next = fail_future (lookup j fs) j fs in
      elim (fail_future-cases id j (lookup j fs) fs refl) [
        | inr (_, _, after) ↦ IsDecided-fail id (failed disconnected) refl p next after
        | inl same ↦ elim (string_eq.dec id j) [
          | yes e ↦
              let before : lookup j fs ≡ some waits = ap (λ i. lookup i fs) (sym e) ∙ w in
              IsDecided-fail id (failed disconnected) refl p next
                (ap (λ i. lookup i next) e ∙ fail_future_self j (lookup j fs) fs before)
          | no n ↦
              let rest : lookup id p ≡ some tt = ground (arith, lookup-cons id j tt p) in
              listed_failed p next rest (same ∙ w)
        ]
      ]

module _ {J B : Type 0} where
  -- The hub has no session, and the request of the session that it had has failed.
  abbrev pub IsFailed : ℕ → String → Hub J B → Type 0
  IsFailed n id h =
      (h.session ≡ none)
      × (h.session_ready ≡ false)
      × ((t : ExtensionSession J B) × (lookup n h.sessions ≡ some t)
          × (lookup id t.futures ≡ some (failed disconnected)))

  -- A request that is listed and waits when the connection of the hub's session ends, or when the hub
  -- is stopped, fails at once as disconnected, and the hub is without a session.
  pub end_session-IsFailed :
      (n : ℕ) (id : String) (s : ExtensionSession J B) (h : Hub J B)
      → h.session ≡ some n
      → lookup n h.sessions ≡ some s
      → lookup id s.pending ≡ some tt
      → lookup id s.futures ≡ some waits
      → IsFailed n id (end_connection n s h) × IsFailed n id (stop_session h.session h)
  unfolding fail_all
  end_session-IsFailed n id s h e there listed w =
      let kept = lookup-insert_self n (fail_all s) h.sessions in
      let over = listed_failed id s.pending s.futures listed w in
      let self : (n == n) ≡ true = ground arith in
      (
        rw (end_connection, e, self) (refl, refl, (fail_all s, kept, over)),
        rw (e, stop_session, there) (refl, refl, (fail_all s, kept, over)),
      )
