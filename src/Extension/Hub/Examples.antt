-- ===== src/Extension/Hub/Examples.antt =====
-- The theorems on the hub where a second connection takes the place of the first, while a request of the
-- first waits.
use browser_cli.Prelude.{
  String, [], Option, none, some, true, false, ◌≡◌, refl, ◌==◌, string_eq, nat_eq, not,
  if◌then◌else◌,
}
use browser_cli.Dict.{lookup, insert}
use browser_cli.Json.{JsonOperations}
use browser_cli.Extension.Messages.{hello_from, response_from}
use browser_cli.Extension.Tables.{fail_futures, set_events}
use browser_cli.Extension.Session.{
  ExtensionSession, start, is_live, open_request, resolve_response, fail_all,
}
use browser_cli.Extension.Hub.{
  Hub, no_connections, connect, receive, put_session, end_connection, stop_session, ensure_started,
}
use browser_cli.Extension.Hub.Connections.{
  connects, receives, disconnects, opens, starts, Reaches, stays, then_happens,
}
use browser_cli.Extension.Hub.Sessions.{IsSound, Reaches-IsSound}
use browser_cli.Extension.Hub.Ended.{IsFailed, end_session-IsFailed}

-- JSON values are the types of messages, each about the request "req".
abbrev operations : JsonOperations String
operations = record {
  get = λ key payload. if key == "type" then payload else if key == "id" then "req" else "";
  truthy = λ x. not (x == "");
  is_none = λ x. x == "";
  is_bool = λ x. false;
  is_dict = λ x. true;
  is_text = λ x t. x == t;
  str = λ x. x;
  int = λ x. none;
  dict = some;
  list = λ x. some [];
  empty_dict = "";
  loads = some;
}

abbrev decode : String → Option String
decode t = some t

program : Unit {0}
unfolding connect receive hello_from response_from lookup insert string_eq nat_eq open_request
    resolve_response is_live fail_all fail_futures set_events
program = tt

abbrev asked : ExtensionSession String String
asked = open_request "req" start

abbrev one_connection : Hub String String
one_connection =
    put_session 0 asked (connect operations decode 0 "hello" (ensure_started false no_connections))

abbrev replaced : Hub String String
replaced = put_session 1 asked (connect operations decode 1 "hello" one_connection)

-- The first connection closes, and the second one is answered.
abbrev answered_second : Hub String String
answered_second = receive operations decode 1 "response" asked (end_connection 0 asked replaced)

to_answered : Reaches operations decode no_connections answered_second
unfolding program
to_answered =
    then_happens
      (then_happens
        (then_happens
          (then_happens
            (then_happens
              (then_happens (then_happens stays (starts false)) (connects 0 "hello" refl))
              (opens 0 "req" start refl refl))
            (connects 1 "hello" refl))
          (opens 1 "req" start refl refl))
        (disconnects 0 asked refl))
      (receives 1 "response" asked refl)

Reaches-IsSound_example : IsSound operations decode answered_second
Reaches-IsSound_example = Reaches-IsSound operations decode answered_second to_answered

second_session : replaced.session ≡ some 1
unfolding program
second_session = refl

second_there : lookup 1 replaced.sessions ≡ some asked
unfolding program
second_there = refl

end_session-IsFailed_example :
    IsFailed 1 "req" (end_connection 1 asked replaced)
    × IsFailed 1 "req" (stop_session replaced.session replaced)
unfolding program
end_session-IsFailed_example =
    end_session-IsFailed 1 "req" asked replaced second_session second_there refl refl

-- The request on the first connection waits on when that connection closes.
first_waits : (end_connection 0 asked replaced).sessions ≡ replaced.sessions
unfolding program
first_waits = refl
