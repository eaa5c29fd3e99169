-- ===== src/Extension/Hub.antt =====
-- extension/session.py: `ExtensionHub`, the connections of the extension and the session that the hub
-- hands out. Connections are numbered, and the session of each stays in `sessions` after it has ended,
-- for the requests that hold it. What a session keeps of its hello, and the status requests over HTTP,
-- are left out.
use browser_cli.Prelude.{
  ℕ, String, Option, none, some, Bool, true, false, [], ◌==◌, string_eq, nat_eq, if◌then◌else◌,
}
use browser_cli.Dict.{Dict, lookup, insert}
use browser_cli.Json.{JsonOperations, text_or}
use browser_cli.Extension.Messages.{
  ExtensionHello, hello_from, response_from, artifact_begin_from, artifact_chunk_from,
  artifact_end_from,
}
use browser_cli.Extension.Session.{
  ExtensionSession, start, resolve_response, append_response_chunk, fail_all, begin_artifact,
  append_artifact_chunk, complete_artifact,
}
pub mod Connections
pub mod Received
pub mod Sessions
pub mod Ended
mod Examples

pub record Hub (J B : Type 0) : Type 0 where
  pub session : Option ℕ
  pub sessions : Dict ℕ (ExtensionSession J B)
  pub session_ready : Bool
  pub session_changed : Bool
  pub started : Bool

abbrev pub is_session : ℕ → Option ℕ → Bool
is_session n none = false
is_session n (some m) = m == n

module _ {J B : Type 0} where
  abbrev pub no_connections : Hub J B
  no_connections = record {
    session = none;
    sessions = [];
    session_ready = false;
    session_changed = false;
    started = false;
  }

  -- `true` says that the message raised.
  abbrev pub on_read :
      {M : Type 0}
      → Option M
      → (M → Bool × ExtensionSession J B)
      → ExtensionSession J B
      → Bool × ExtensionSession J B
  on_read none f s = (true, s)
  on_read (some m) f s = f m

  abbrev pub put_session : ℕ → ExtensionSession J B → Hub J B → Hub J B
  put_session n s h = record h { sessions = insert n s h.sessions }

  -- The `finally` of the connection `n`, whose session is `s`.
  abbrev pub end_connection : ℕ → ExtensionSession J B → Hub J B → Hub J B
  end_connection n s h =
      if is_session n h.session
      then record h {
        session = none;
        sessions = insert n (fail_all s) h.sessions;
        session_ready = false;
        session_changed = true;
      }
      else h

  abbrev pub after_message : ℕ → Bool × ExtensionSession J B → Hub J B → Hub J B
  after_message n (raised, s) h =
      let put = put_session n s h in if raised then end_connection n s put else put

  -- `ensure_started`, where the listener may fail to start
  abbrev pub ensure_started : Bool → Hub J B → Hub J B
  ensure_started fails h = if h.started then h else if fails then h else record h { started = true }

  -- `stop` up to the close of the websocket, where other connections may come in between
  abbrev pub stop_session : Option ℕ → Hub J B → Hub J B
  stop_session none h = record h { session_ready = false }
  stop_session (some n) h = elim (lookup n h.sessions) [
    | none ↦ record h { session = none; session_ready = false }
    | some s ↦ record h {
      session = none;
      sessions = insert n (fail_all s) h.sessions;
      session_ready = false;
    }
  ]

  abbrev pub stop_server : Hub J B → Hub J B
  stop_server h = record h { started = false; session_changed = true }

  -- `wait_for_change`, when it is woken
  abbrev pub wake : Hub J B → Hub J B
  wake h = record h { session_changed = false }

module _ {J B : Type 0} (o : JsonOperations J) (decode : String → Option B) where
  abbrev pub on_payload : J → ExtensionSession J B → Bool × ExtensionSession J B
  on_payload payload s =
      let message_type = text_or o "type" "" payload in
      if message_type == "response"
      then on_read (response_from o payload) (λ r. (false, resolve_response r s)) s
      else if message_type == "response-chunk"
      then (false, append_response_chunk o payload s)
      else if message_type == "artifact-begin"
      then on_read (artifact_begin_from o payload) (λ d. (false, begin_artifact d s)) s
      else if message_type == "artifact-chunk"
      then on_read (artifact_chunk_from o payload) (λ c. (false, append_artifact_chunk c s)) s
      else if message_type == "artifact-end"
      then on_read (artifact_end_from o payload) (λ e. complete_artifact decode e s) s
      else (false, s)

  -- One round of the loop. A text that is no JSON raises, as does a value without `get`; the answer to
  -- a heartbeat that cannot be sent is a connection that ends.
  abbrev pub on_message : Option J → ExtensionSession J B → Bool × ExtensionSession J B
  on_message none s = (true, s)
  on_message (some payload) s = if o.is_dict payload then on_payload payload s else (true, s)

  unfoldable pub receive : ℕ → String → ExtensionSession J B → Hub J B → Hub J B
  receive n raw_message s h = after_message n (on_message (o.loads raw_message) s) h

  abbrev pub open_session : ℕ → Option (ExtensionHello J) → Hub J B → Hub J B
  open_session n none h = h
  open_session n (some hello) h = record h {
    session = some n;
    sessions = insert n start h.sessions;
    session_ready = true;
    session_changed = true;
  }

  -- The head of `_handle_websocket`; a first message that is no hello, or cannot be read as one, ends it.
  unfoldable pub connect : ℕ → J → Hub J B → Hub J B
  connect n hello_payload h =
      if o.is_text (o.get "type" hello_payload) "hello"
      then open_session n (hello_from o hello_payload) h
      else h
