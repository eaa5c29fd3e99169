-- ===== src/Extension/Hub/Received.antt =====
-- extension/session.py: what a message leaves of the session that it is read for.
use browser_cli.Prelude.{
  String, Option, none, some, Bool, true, false, ◌≡◌, refl, sym, string_eq, if◌then◌else◌, arith,
}
use browser_cli.Json.{JsonOperations}
use browser_cli.Extension.Messages.{
  ExtensionArtifactEnd, response_from, artifact_begin_from, artifact_chunk_from, artifact_end_from,
}
use browser_cli.Extension.Session.{ExtensionSession, start, complete_artifact, on_artifact_end}
use browser_cli.Extension.Steps.{
  responds, sends_chunk, begins, appends, completes, Steps, then_step,
}
use browser_cli.Extension.Hub.{on_read, on_payload, on_message}

module _ {J B : Type 0} (o : JsonOperations J) (decode : String → Option B) where
  -- Steps of a session alone lead to it.
  abbrev pub IsReached : ExtensionSession J B → Type 0
  IsReached s = Steps o decode start s

  -- What a message leaves, unless it raises.
  pub record IsFine (r : Bool × ExtensionSession J B) : Type 0 where
    pub follows : r.0 ≡ false → IsReached r.1

  if-IsFine :
      (b : Bool) (x y : Bool × ExtensionSession J B)
      → IsFine x
      → IsFine y
      → IsFine (if b then x else y)
  if-IsFine true x y f g = f
  if-IsFine false x y f g = g

  on_read-IsFine :
      {M : Type 0} (m : Option M) (f : M → Bool × ExtensionSession J B) (s : ExtensionSession J B)
      → ((x : M) → IsFine (f x))
      → IsFine (on_read m f s)
  on_read-IsFine none f s each = record { follows = λ h. absurd (ground arith) }
  on_read-IsFine (some m) f s each = each m

  complete-IsFine :
      (e : ExtensionArtifactEnd) (s : ExtensionSession J B)
      → IsReached s
      → IsFine (complete_artifact decode e s)
  unfolding on_artifact_end
  complete-IsFine e s r = record {
    follows = λ h.
        let ended : on_artifact_end decode e s ≡ (complete_artifact decode e s).1 =
          rw (on_artifact_end, h) refl in
        rw (sym ended) (then_step r (completes e));
  }

  step-IsFine : (s : ExtensionSession J B) → IsReached s → IsFine (false, s)
  step-IsFine s r = record { follows = λ _. r }

  raised-IsFine : (s : ExtensionSession J B) → IsFine (true, s)
  raised-IsFine s = record { follows = λ h. absurd (ground arith) }

  on_payload-IsFine :
      (payload : J) (s : ExtensionSession J B)
      → IsReached s
      → IsFine (on_payload o decode payload s)
  on_payload-IsFine payload s r =
      if-IsFine _ _ _
        (on_read-IsFine (response_from o payload) _ s
          (λ m. step-IsFine _ (then_step r (responds m))))
        (if-IsFine _ _ _ (step-IsFine _ (then_step r (sends_chunk payload))) (
          if-IsFine _ _ _
            (on_read-IsFine (artifact_begin_from o payload) _ s
              (λ m. step-IsFine _ (then_step r (begins m))))
            (if-IsFine _ _ _
              (on_read-IsFine (artifact_chunk_from o payload) _ s
                (λ m. step-IsFine _ (then_step r (appends m))))
              (if-IsFine _ _ _
                (on_read-IsFine (artifact_end_from o payload) _ s (λ m. complete-IsFine m s r))
                (step-IsFine s r)))))

  pub on_message-IsFine :
      (x : Option J) (s : ExtensionSession J B) → IsReached s → IsFine (on_message o decode x s)
  on_message-IsFine none s r = raised-IsFine s
  on_message-IsFine (some payload) s r =
      if-IsFine _ _ _ (on_payload-IsFine payload s r) (raised-IsFine s)
