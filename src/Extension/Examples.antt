-- ===== src/Extension/Examples.antt =====
-- The theorems on a session at a concrete one: request "r" is answered in two chunks that arrive in the
-- reverse order, with an artifact, and then by a late response.
use browser_cli.Prelude.{
  ℕ, ℤ, pos, String, [], ◌∷◌, Option, none, some, Bool, true, false, ◌≡◌, ◌⊎◌, refl, ◌==◌,
  string_eq, pair_eq, nat_eq, if◌then◌else◌, arith,
}
use browser_cli.Prelude.Sort.{sort, insert_sorted}
use browser_cli.Dict.{lookup, insert, erase}
use browser_cli.Json.{JsonOperations}
use browser_cli.Extension.Messages.{ExtensionResponse, ExtensionArtifactBegin, response_from}
use browser_cli.Extension.Chunks.{join_at, assemble, parse_response_chunk_index}
use browser_cli.Extension.Tables.{answered, fail_futures, drop_buffers, set_events, read_chunks}
use browser_cli.Extension.Session.{
  ExtensionSession, start, is_live, open_request, resolve_response, append_response_chunk, fail_all,
  begin_artifact, append_artifact_chunk, complete_artifact, on_artifact_end, take_result,
  close_request,
}
use browser_cli.Extension.Assembly.{assemble_outcomes, IsWhole, HasGap}
use browser_cli.Extension.Invariant.{IsWf}
use browser_cli.Extension.Steps.{
  opens, responds, sends_chunk, begins, disconnects, Steps, stop, then_step,
}
use browser_cli.Extension.Refinement.{Progress, view, Steps-Progress}
use browser_cli.Extension.Lifetime.{reached-IsWf}
use browser_cli.Extension.Outcomes.{decided_once, IsGone, close_request-IsGone}

-- What a test by evaluation unfolds.
program : Unit {0}
unfolding lookup insert erase sort insert_sorted string_eq pair_eq nat_eq join_at assemble
    parse_response_chunk_index response_from fail_futures drop_buffers set_events read_chunks
    is_live open_request resolve_response append_response_chunk fail_all begin_artifact
    append_artifact_chunk complete_artifact on_artifact_end take_result close_request
program = tt

-- JSON values: null, a flag, a text, a number, and an object with the fields that a chunk has.
data Value : Type 0 where
  null nothing_inside : Value
  flag : Bool → Value
  word : String → Value
  number : ℕ → Value
  message : String → ℕ → String → Bool → Value

abbrev field : String → Value → Value
field key null = null
field key nothing_inside = null
field key (flag b) = null
field key (word t) = null
field key (number n) = null
field key (message id index chunk final) =
    if key == "id"
    then word id
    else if key == "index"
    then number index
    else if key == "chunk"
    then word chunk
    else if key == "final"
    then flag final
    else null

abbrev holds : Value → Bool
holds null = false
holds nothing_inside = false
holds (flag b) = b
holds (word t) = true
holds (number n) = true
holds (message _ _ _ _) = true

abbrev shown : Value → String
shown null = "None"
shown nothing_inside = "{}"
shown (flag b) = "flag"
shown (word t) = t
shown (number n) = "number"
shown (message id _ _ _) = id

abbrev number_of : Value → Option ℤ
number_of null = none
number_of nothing_inside = none
number_of (flag b) = none
number_of (word t) = none
number_of (number n) = some (pos n)
number_of (message _ _ _ _) = none

abbrev none_is : Value → Bool
none_is null = true
none_is nothing_inside = false
none_is (flag b) = false
none_is (word t) = false
none_is (number n) = false
none_is (message _ _ _ _) = false

abbrev operations : JsonOperations Value
operations = record {
  get = field;
  truthy = holds;
  is_none = none_is;
  is_bool = λ x. false;
  is_dict = λ x. true;
  is_text = λ x t. false;
  str = shown;
  int = number_of;
  dict = some;
  list = λ x. none;
  empty_dict = nothing_inside;
  loads = λ t. some (message t 0 "" false);
}

abbrev decode : String → Option String
decode t = some t

abbrev picture : ExtensionArtifactBegin Value
picture = record {
  request_id = "req";
  artifact_id = "a";
  artifact_kind = "screenshot";
  mime_type = "image/png";
  encoding = "base64";
  filename = none;
  page_id = none;
  metadata = null;
}

-- The session while the request waits for its answer, with the second chunk and an artifact begun.
abbrev waiting : ExtensionSession Value String
waiting =
    begin_artifact picture
      (append_response_chunk operations (message "req" 1 "q" false) (open_request "req" start))

to_waiting : Steps operations decode start waiting
unfolding program
to_waiting =
    then_step
      (then_step (then_step stop (opens "req" refl)) (sends_chunk (message "req" 1 "q" false)))
      (begins picture)

reached-IsWf_example : IsWf waiting
reached-IsWf_example = reached-IsWf operations decode waiting to_waiting

abbrev answer : ExtensionResponse Value
answer = record {
  id = "req";
  ok = false;
  body = nothing_inside;
  error_code = none;
  error_message = none;
}

abbrev done : ExtensionSession Value String
done = append_response_chunk operations (message "req" 0 "re" true) waiting

abbrev late : ExtensionResponse Value
late = record { id = "req"; ok = true; body = null; error_code = none; error_message = none }

too_late : lookup "req" (fail_all (resolve_response late done)).futures ≡ some (answered answer)
unfolding program
too_late =
    decided_once operations decode "req" (answered answer) done
      (fail_all (resolve_response late done))
      (then_step (then_step stop (responds late)) disconnects) refl refl

close_request-IsGone_example : IsGone "req" (begin_artifact picture (close_request "req" waiting))
unfolding program
close_request-IsGone_example =
    close_request-IsGone operations decode "req" waiting
      (begin_artifact picture (close_request "req" waiting)) to_waiting (ground arith)
      (then_step stop (begins picture))

assemble_outcomes_example : IsWhole ((1, "b") ∷ (0, "a") ∷ []) ⊎ HasGap ((1, "b") ∷ (0, "a") ∷ [])
unfolding program
assemble_outcomes_example = assemble_outcomes ((1, "b") ∷ (0, "a") ∷ []) (ground arith)

Steps-Progress_example :
    Progress
      (view "req" waiting.pending waiting.futures)
      (view "req" (fail_all done).pending (fail_all done).futures)
unfolding program
Steps-Progress_example =
    Steps-Progress operations decode "req" waiting (fail_all done)
      (then_step (then_step stop (sends_chunk (message "req" 0 "re" true))) disconnects)
