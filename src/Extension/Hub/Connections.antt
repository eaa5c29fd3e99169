-- ===== src/Extension/Hub/Connections.antt =====
-- What happens to a hub, in any order: connections that come, are replaced and end, the messages of
-- each, the requests on any session, and the hub's start and stop.
use browser_cli.Prelude.{ℕ, String, Option, none, some, Bool, ◌≡◌, string_eq, nat_eq}
use browser_cli.Dict.{lookup}
use browser_cli.Json.{JsonOperations}
use browser_cli.Extension.Messages.{ExtensionResponse}
use browser_cli.Extension.Session.{ExtensionSession, open_request, take_result, close_request}
use browser_cli.Extension.Hub.{
  Hub, put_session, end_connection, ensure_started, stop_session, stop_server, wake, receive,
  connect,
}

module _ {J B : Type 0} (o : JsonOperations J) (decode : String → Option B) where
  -- A new connection has a number that none had before, and a new request an id.
  pub data Happens (h : Hub J B) : Hub J B → Type 0 where
    connects :
        (n : ℕ) (hello : J) → lookup n h.sessions ≡ none → Happens h (connect o decode n hello h)
    receives :
        (n : ℕ) (raw_message : String) (s : ExtensionSession J B)
        → lookup n h.sessions ≡ some s
        → Happens h (receive o decode n raw_message s h)
    disconnects :
        (n : ℕ) (s : ExtensionSession J B)
        → lookup n h.sessions ≡ some s
        → Happens h (end_connection n s h)
    opens :
        (n : ℕ) (id : String) (s : ExtensionSession J B)
        → lookup n h.sessions ≡ some s
        → lookup id s.futures ≡ none
        → Happens h (put_session n (open_request id s) h)
    takes :
        (n : ℕ) (id : String) (r : ExtensionResponse J) (s : ExtensionSession J B)
        → lookup n h.sessions ≡ some s
        → Happens h (put_session n (take_result id r s).1 h)
    closes :
        (n : ℕ) (id : String) (s : ExtensionSession J B)
        → lookup n h.sessions ≡ some s
        → Happens h (put_session n (close_request id s) h)
    starts : (fails : Bool) → Happens h (ensure_started fails h)
    stops_session : Happens h (stop_session h.session h)
    stops_server : Happens h (stop_server h)
    wakes : Happens h (wake h)

  pub data Reaches (h : Hub J B) : Hub J B → Type 0 where
    stays : Reaches h h
    then_happens : {k l : Hub J B} → Reaches h k → Happens k l → Reaches h l
