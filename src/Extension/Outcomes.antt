-- ===== src/Extension/Outcomes.antt =====
-- extension/session.py: the outcome of a request, and what is left of it at its end.
use browser_cli.Prelude.{
  String, [], ◌∷◌, Option, none, some, true, false, ◌≡◌, ◌≢◌, refl, sym, ap, ◌∙◌, string_eq, nat_eq,
  pair_eq, arith,
}
use browser_cli.Dict.{
  Dict, lookup, insert, erase, lookup-insert, lookup-erase, lookup-nil, lookup-insert_ne,
  lookup-erase_self,
}
use browser_cli.Json.{JsonOperations}
use browser_cli.Extension.Tables.{Future, waits, answered, failed, is_waiting, transmits}
use browser_cli.Extension.Session.{ExtensionSession, start, close_request}
use browser_cli.Extension.Steps.{Steps}
use browser_cli.Extension.Invariant.{IsWf}
use browser_cli.Extension.Preserve.{close-IsWf}
use browser_cli.Extension.Tables.{Names, fail_future, fail_futures}
use browser_cli.Extension.Lifetime.{reached-IsWf, Steps-IsWf}
use browser_cli.Extension.Endings.{Steps-Keeps}

module _ {J : Type 0} (id : String) where
  abbrev IsDecided : Future J → Names → Dict String (Future J) → Type 0
  IsDecided f p fs = lookup id fs ≡ some f

  IsDecided-settle :
      (f : Future J)
      → is_waiting (some f) ≡ false
      → (j : String) (g : Future J) (p : Names) (fs : Dict String (Future J)) → lookup j p ≡ some tt
      → is_waiting (lookup j fs) ≡ true
      → IsDecided f p fs
      → IsDecided f p (insert j g fs)
  IsDecided-settle f over j g p fs _ open_one h =
      let other : id ≢ j =
        λ e. let same = ap (λ x. is_waiting (lookup x fs)) e in absurd (ground arith) in
      lookup-insert_ne id j g fs other ∙ h

  IsDecided-open :
      (f : Future J) (j : String) (p : Names) (fs : Dict String (Future J))
      → lookup j fs ≡ none
      → IsDecided f p fs
      → IsDecided f (insert j tt p) (insert j waits fs)
  IsDecided-open f j p fs fresh h =
      let other : id ≢ j = λ e. let same = ap (λ x. lookup x fs) e in absurd (ground arith) in
      lookup-insert_ne id j waits fs other ∙ h

  -- A future that is done is not failed again.
  fail_future_other :
      (f : Future J)
      → is_waiting (some f) ≡ false
      → (j : String) (x : Option (Future J)) (fs : Dict String (Future J)) → lookup j fs ≡ x
      → lookup id fs ≡ some f
      → lookup id (fail_future x j fs) ≡ some f
  fail_future_other f over j none fs e h = h
  fail_future_other f over j (some (answered r)) fs e h = h
  fail_future_other f over j (some (failed r)) fs e h = h
  fail_future_other f over j (some waits) fs e h =
      let other : id ≢ j = λ p.
        let same = ap (λ x. is_waiting (lookup x fs)) p in
        let one = ap is_waiting h in let two = ap is_waiting e in absurd (ground arith) in
      lookup-insert_ne id j _ fs other ∙ h

  pub IsDecided-fail :
      (f : Future J)
      → is_waiting (some f) ≡ false
      → (p : Names) (fs : Dict String (Future J)) → IsDecided f p fs
      → IsDecided f [] (fail_futures p fs)
  unfolding fail_futures
  IsDecided-fail f over [] fs h = h
  IsDecided-fail f over ((j, _) ∷ p) fs h =
      IsDecided-fail f over p (fail_future (lookup j fs) j fs)
        (fail_future_other f over j (lookup j fs) fs refl h)

  -- The request has ended: it is not listed, and its future remains.
  abbrev IsEnded : Names → Dict String (Future J) → Type 0
  IsEnded p fs = (lookup id p ≡ none) × (lookup id fs ≢ none)

  insert_kept :
      (j : String) (g : Future J) (fs : Dict String (Future J))
      → lookup id fs ≢ none
      → lookup id (insert j g fs) ≢ none
  insert_kept j g fs h gone = elim (string_eq.dec id j) [
    | yes e ↦ absurd (ground (arith, lookup-insert id j g fs))
    | no n ↦ h (sym (lookup-insert_ne id j g fs n) ∙ gone)
  ]

  IsEnded-open :
      (j : String) (p : Names) (fs : Dict String (Future J))
      → lookup j fs ≡ none
      → IsEnded p fs
      → IsEnded (insert j tt p) (insert j waits fs)
  IsEnded-open j p fs fresh (out, kept) =
      let other : id ≢ j = λ e. kept (ap (λ x. lookup x fs) e ∙ fresh) in
      (lookup-insert_ne id j tt p other ∙ out, insert_kept j waits fs kept)

  fail_future_kept :
      (j : String) (x : Option (Future J)) (fs : Dict String (Future J))
      → lookup id fs ≢ none
      → lookup id (fail_future x j fs) ≢ none
  fail_future_kept j none fs h = h
  fail_future_kept j (some (answered r)) fs h = h
  fail_future_kept j (some (failed r)) fs h = h
  fail_future_kept j (some waits) fs h = insert_kept j _ fs h

  fail_futures_kept :
      (p : Names) (fs : Dict String (Future J))
      → lookup id fs ≢ none
      → lookup id (fail_futures p fs) ≢ none
  unfolding fail_futures
  fail_futures_kept [] fs h = h
  fail_futures_kept ((j, _) ∷ p) fs h =
      fail_futures_kept p _ (fail_future_kept j (lookup j fs) fs h)

  IsEnded-close :
      (j : String) (p : Names) (fs : Dict String (Future J)) → IsEnded p fs → IsEnded (erase j p) fs
  IsEnded-close j p fs (out, kept) = (ground (arith, lookup-erase id j p), kept)

module _ {J B : Type 0} where
  -- Nothing is kept under the request's id.
  abbrev pub IsGone : String → ExtensionSession J B → Type 0
  IsGone id s =
      (lookup id s.pending ≡ none)
      × (lookup id s.artifact_events ≡ none)
      × (lookup id s.response_buffers ≡ none)
      × (lookup id s.completed_artifacts ≡ none)
      × (transmits id s.artifact_buffers ≡ false)

  IsWf-IsGone :
      (id : String) (s : ExtensionSession J B) → IsWf s → lookup id s.pending ≡ none → IsGone id s
  IsWf-IsGone id s w out =
      (out, w.listed id ∙ out, w.responses id out, w.artifacts id out, w.buffers id out)

module _ {J B : Type 0} (o : JsonOperations J) (decode : String → Option B) where
  -- Once a request is answered or has failed, its outcome stays: later responses, chunks, disconnections
  -- and requests leave it as it is.
  pub decided_once :
      (id : String) (f : Future J) (s t : ExtensionSession J B)
      → Steps o decode s t
      → lookup id s.futures ≡ some f
      → is_waiting (some f) ≡ false
      → lookup id t.futures ≡ some f
  decided_once id f s t steps h over =
      Steps-Keeps (IsDecided id f) (IsDecided-settle id f over) (IsDecided-open id f)
        (IsDecided-fail id f over) (λ j p fs q. q) o decode s t steps h

  -- After the end of a request, whatever messages come late, no table holds anything of it.
  pub close_request-IsGone :
      (id : String) (s t : ExtensionSession J B)
      → Steps o decode start s
      → lookup id s.futures ≢ none
      → Steps o decode (close_request id s) t
      → IsGone id t
  unfolding close_request
  close_request-IsGone id s t before known after =
      let w = reached-IsWf o decode s before in
      let ended : IsEnded id t.pending t.futures =
        Steps-Keeps (IsEnded {J = J} id) (λ j f p fs there _ q. (q.0, insert_kept id j f fs q.1))
          (IsEnded-open id) (λ p fs q. (lookup-nil id, fail_futures_kept id p fs q.1))
          (IsEnded-close id) o decode (close_request id s) t after
          (lookup-erase_self id s.pending, known) in
      IsWf-IsGone id t (Steps-IsWf o decode (close_request id s) t after (close-IsWf id s w))
        ended.0
