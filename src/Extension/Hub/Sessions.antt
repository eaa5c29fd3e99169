-- ===== src/Extension/Hub/Sessions.antt =====
-- extension/session.py: the session that the hub hands out.
use browser_cli.Prelude.{
  ℕ, String, Option, none, some, Bool, true, false, ◌≡◌, ◌≢◌, inl, inr, refl, sym, ap, ◌∙◌,
  string_eq, nat_eq, Bool-cases, Option-cases, if◌then◌else◌, arith,
}
use mathlib.Core.Option.{some-injective}
use browser_cli.Dict.{lookup, insert, lookup-insert_self, lookup-insert_ne}
use browser_cli.Json.{JsonOperations}
use browser_cli.Extension.Messages.{ExtensionHello, hello_from}
use browser_cli.Extension.Tables.{is_some}
use browser_cli.Extension.Session.{ExtensionSession, start}
use browser_cli.Extension.Steps.{opens, takes, closes, stop, then_step}
use browser_cli.Extension.Hub.{
  Hub, no_connections, put_session, is_session, end_connection, after_message, ensure_started,
  stop_session, receive, open_session, connect,
}
use browser_cli.Extension.Hub.Received.{IsReached, IsFine, on_message-IsFine}
use browser_cli.Extension.Hub.Connections
use browser_cli.Extension.Hub.Connections.{Happens, Reaches}

module _ {J B : Type 0} (o : JsonOperations J) (decode : String → Option B) where
  -- The hub is ready exactly while it has a session, and what led to that session are steps of a session
  -- alone.
  pub record IsSound (h : Hub J B) : Type 0 where
    pub ready : h.session_ready ≡ is_some h.session
    pub reached :
        (n : ℕ)
        → h.session ≡ some n
        → (s : ExtensionSession J B) × (lookup n h.sessions ≡ some s) × IsReached o decode s

  put-IsSound :
      (n : ℕ) (s t : ExtensionSession J B) (h : Hub J B)
      → lookup n h.sessions ≡ some s
      → (IsReached o decode s → IsReached o decode t)
      → IsSound h
      → IsSound (put_session n t h)
  put-IsSound n s t h there f w = record {
    ready = w.ready;
    reached = λ m e.
        let (x, found, r) = w.reached m e in
        elim (nat_eq.dec m n) [
          | yes same ↦
              let x_is_s =
                some-injective _ _ (sym found ∙ ap (λ i. lookup i h.sessions) same ∙ there) in
              (
                t,
                ap (λ i. lookup i (insert n t h.sessions)) same ∙ lookup-insert_self n t h.sessions,
                f (rw (sym x_is_s) r),
              )
          | no other ↦ (x, lookup-insert_ne m n t h.sessions other ∙ found, r)
        ];
  }

  other-IsSound :
      (n : ℕ) (t : ExtensionSession J B) (h : Hub J B)
      → is_session n h.session ≡ false
      → IsSound h
      → IsSound (put_session n t h)
  other-IsSound n t h e w = record {
    ready = w.ready;
    reached = λ m f.
        let (x, found, r) = w.reached m f in
        let other : m ≢ n = λ same. let it = ap (is_session n) f in absurd (ground arith) in
        (x, lookup-insert_ne m n t h.sessions other ∙ found, r);
  }

  end-IsSound :
      (n : ℕ) (s : ExtensionSession J B) (h : Hub J B)
      → is_session n h.session ≡ true
      → IsSound (end_connection n s h)
  end-IsSound n s h e = rw e (record { ready = refl; reached = λ m f. absurd (ground arith) })

  end_connection-IsSound :
      (n : ℕ) (s : ExtensionSession J B) (h : Hub J B) → IsSound h → IsSound (end_connection n s h)
  end_connection-IsSound n s h w = elim (Bool-cases (is_session n h.session)) [
    | inl e ↦ end-IsSound n s h e
    | inr e ↦ rw e w
  ]

  after_message-IsSound :
      (n : ℕ) (s : ExtensionSession J B) (r : Bool × ExtensionSession J B) (h : Hub J B)
      → lookup n h.sessions ≡ some s
      → (IsReached o decode s → IsFine o decode r)
      → IsSound h
      → IsSound (after_message n r h)
  after_message-IsSound n s (false, t) h there fine w =
      put-IsSound n s t h there (λ r. (fine r).follows refl) w
  after_message-IsSound n s (true, t) h there fine w = elim (Bool-cases (is_session n h.session)) [
    | inl e ↦ end-IsSound n t (put_session n t h) e
    | inr e ↦ end_connection-IsSound n t (put_session n t h) (other-IsSound n t h e w)
  ]

  without-IsSound : (h : Hub J B) → h.session ≡ none → h.session_ready ≡ false → IsSound h
  without-IsSound h e f = record {
    ready = f ∙ ap is_some (sym e);
    reached = λ n g. absurd (ground arith);
  }

  -- What is left of the hub's session is free, where the hub has none.
  around-IsSound :
      (h k : Hub J B)
      → h.session ≡ k.session
      → h.sessions ≡ k.sessions
      → h.session_ready ≡ k.session_ready
      → IsSound h
      → IsSound k
  around-IsSound h k e f g w = record {
    ready = sym g ∙ w.ready ∙ ap is_some e;
    reached = λ n there.
        let (s, found, r) = w.reached n (e ∙ there) in (s, ap (lookup n) (sym f) ∙ found, r);
  }

  stop_session-IsSound : (x : Option ℕ) (h : Hub J B) → h.session ≡ x → IsSound (stop_session x h)
  stop_session-IsSound none h e = without-IsSound _ e refl
  stop_session-IsSound (some n) h e = elim (Option-cases (lookup n h.sessions)) [
    | inl f ↦ rw (stop_session, f) (without-IsSound _ refl refl)
    | inr (s, f) ↦ rw (stop_session, f) (without-IsSound _ refl refl)
  ]

  either-IsSound : (b : Bool) (h k : Hub J B) → IsSound h → IsSound k → IsSound (if b then h else k)
  either-IsSound true h k v w = v
  either-IsSound false h k v w = w

  ensure_started-IsSound :
      (fails : Bool) (h : Hub J B) → IsSound h → IsSound (ensure_started fails h)
  ensure_started-IsSound fails h w =
      either-IsSound h.started _ _ w
        (either-IsSound fails _ _ w (around-IsSound h _ refl refl refl w))

  open_session-IsSound :
      (n : ℕ) (x : Option (ExtensionHello J)) (h : Hub J B)
      → IsSound h
      → IsSound (open_session o decode n x h)
  open_session-IsSound n none h w = w
  open_session-IsSound n (some hello) h w = record {
    ready = refl;
    reached = λ m e.
        let same : n ≡ m = some-injective _ _ e in
        (
          start,
          ap (λ i. lookup i (insert n start h.sessions)) (sym same)
              ∙ lookup-insert_self n start h.sessions,
          stop,
        );
  }

  connect-IsSound :
      (n : ℕ) (hello : J) (h : Hub J B) → IsSound h → IsSound (connect o decode n hello h)
  unfolding connect
  connect-IsSound n hello h w = elim (Bool-cases (o.is_text (o.get "type" hello) "hello")) [
    | inl e ↦ rw (connect, e) (open_session-IsSound n (hello_from o hello) h w)
    | inr e ↦ rw (connect, e) w
  ]

  Happens-IsSound : (h k : Hub J B) → Happens o decode h k → IsSound h → IsSound k
  unfolding receive
  Happens-IsSound h _ (Connections.connects n hello fresh) w = connect-IsSound n hello h w
  Happens-IsSound h _ (Connections.receives n raw_message s there) w =
      after_message-IsSound n s _ h there (on_message-IsFine o decode (o.loads raw_message) s) w
  Happens-IsSound h _ (Connections.disconnects n s there) w = end_connection-IsSound n s h w
  Happens-IsSound h _ (Connections.opens n id s there fresh) w =
      put-IsSound n s _ h there (λ r. then_step r (opens id fresh)) w
  Happens-IsSound h _ (Connections.takes n id r s there) w =
      put-IsSound n s _ h there (λ before. then_step before (takes id r)) w
  Happens-IsSound h _ (Connections.closes n id s there) w =
      put-IsSound n s _ h there (λ r. then_step r (closes id)) w
  Happens-IsSound h _ (Connections.starts fails) w = ensure_started-IsSound fails h w
  Happens-IsSound h _ Connections.stops_session w = stop_session-IsSound h.session h refl
  Happens-IsSound h _ Connections.stops_server w = around-IsSound h _ refl refl refl w
  Happens-IsSound h _ Connections.wakes w = around-IsSound h _ refl refl refl w

  -- However connections come, replace each other and end, and whatever their messages and the requests
  -- are, the hub is ready exactly while it has a session, and that session is there and was led to from
  -- its start by steps of a session alone.
  pub Reaches-IsSound : (h : Hub J B) → Reaches o decode no_connections h → IsSound h
  Reaches-IsSound _ Connections.stays = without-IsSound no_connections refl refl
  Reaches-IsSound h (Connections.then_happens {k} before x) =
      Happens-IsSound k h x (Reaches-IsSound k before)
