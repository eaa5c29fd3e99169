-- ===== src/Network/Examples.antt =====
-- The theorems on network records, with a waiter for one address.
use browser_cli.Prelude.{
  String, ℕ, ◌≤◌, List, [], ◌∷◌, ◌++◌, none, some, true, false, ◌≡◌, ◌≢◌, ◌⊎◌, inl, refl, In,
  select, length, ◌==◌, string_eq, nat_eq,
}
use browser_cli.Dict.{lookup, insert}
use browser_cli.Network.Filter.{
  TextOperations, NetworkRecord, NetworkRecordFilter, matches, is_static_resource_type,
}
use browser_cli.Network.Store.{
  pending, resolved, NetworkRecordStore, NetworkWaiter, deliver, add_record, append, init,
  get_captured_records, wait_for_record, first_match,
}
use browser_cli.Network.Traffic.{
  Traffic, arrives, starts_capture, clears, reads, waits, ends_wait, step, run,
}
use browser_cli.Network.Delivery.{add_record-delivers}
use browser_cli.Network.Bounds.{misses, get_captured_records-lem, runs-IsBounded}
use browser_cli.Network.Soundness.{AllMatched, runs-AllMatched}

-- Texts that are in lower case, and searched for as a whole.
abbrev plain : TextOperations
plain = record { contains = λ x y. x == y; upper = λ x. x; lower = λ x. x; search = λ p x. p == x }

abbrev fetched : String → NetworkRecord ℕ
fetched url = record {
  url = some url;
  method = some "get";
  status = some 200;
  resource_type = some "fetch";
  mime_type = none;
  rest = 0;
}

abbrev only : String → NetworkRecordFilter
only url = record {
  url_contains = some url;
  url_regex = none;
  method = none;
  status = none;
  resource_type = none;
  mime_contains = none;
  include_static = false;
}

abbrev traffic : List (Traffic ℕ)
traffic = starts_capture ∷ arrives (fetched "/a") ∷ waits (only "/b") ∷ waits (only "/c") ∷ []

abbrev two_wait : NetworkRecordStore ℕ
two_wait = run plain traffic (init 2 2)

abbrev waits_for_b : NetworkWaiter ℕ
waits_for_b = record { record_filter = only "/b"; future = pending }

b_waits : lookup 0 two_wait.futures ≡ some waits_for_b
unfolding run step add_record deliver append wait_for_record first_match matches
    is_static_resource_type lookup insert nat_eq string_eq
b_waits = refl

b_listed : In 0 two_wait.waiters
unfolding run step add_record deliver append wait_for_record first_match matches
    is_static_resource_type lookup insert nat_eq string_eq
b_listed = inl refl

add_record-delivers_example :
    ((waits_for_b.future ≡ pending)
      × (matches plain waits_for_b.record_filter (fetched "/b") ≡ true)
      × (lookup 0 (add_record plain (fetched "/b") two_wait).futures
          ≡ some (record waits_for_b { future = resolved (fetched "/b") })))
    ⊎ (((waits_for_b.future ≢ pending)
          ⊎ (matches plain waits_for_b.record_filter (fetched "/b") ≡ false))
        × (lookup 0 (add_record plain (fetched "/b") two_wait).futures ≡ some waits_for_b))
add_record-delivers_example =
    add_record-delivers plain (fetched "/b") two_wait 0 waits_for_b b_listed b_waits

captured_bound : length two_wait.captured_records ≤ two_wait.capture_limit
captured_bound = (runs-IsBounded plain 2 2 traffic).1

get_captured_records-lem_example :
    (get_captured_records plain (only "/a") true two_wait ≡ (
      select (matches plain (only "/a")) two_wait.captured_records,
      record two_wait {
        captured_records = select (misses plain (only "/a")) two_wait.captured_records;
      },
    ))
    × (get_captured_records plain (only "/a") false two_wait
        ≡ (select (matches plain (only "/a")) two_wait.captured_records, two_wait))
get_captured_records-lem_example =
    get_captured_records-lem plain (only "/a") two_wait captured_bound

abbrev more : List (Traffic ℕ)
more =
    traffic
    ++ arrives (fetched "/b")
      ∷ arrives (fetched "/b")
      ∷ reads (only "/a") true
      ∷ ends_wait 0
      ∷ clears
      ∷ []

runs-AllMatched_example : AllMatched plain (run plain more (init 2 2)).futures
runs-AllMatched_example = runs-AllMatched plain 2 2 more
