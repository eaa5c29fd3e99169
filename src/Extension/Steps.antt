-- ===== src/Extension/Steps.antt =====
-- What happens to the session of a hub, in any order: requests that are sent and end, messages that
-- arrive, and the end of the connection. Extension.Hub
-- has the sessions whose place another connection takes.
use browser_cli.Prelude.{String, ◌≡◌, none, Option, string_eq}
use browser_cli.Dict.{lookup}
use browser_cli.Json.{JsonOperations}
use browser_cli.Extension.Messages.{
  ExtensionResponse, ExtensionArtifactBegin, ExtensionArtifactChunk, ExtensionArtifactEnd,
}
use browser_cli.Extension.Session.{
  ExtensionSession, open_request, resolve_response, append_response_chunk, fail_all, begin_artifact,
  append_artifact_chunk, on_artifact_end, take_result, close_request,
}

module _ {J B : Type 0} (o : JsonOperations J) (decode : String → Option B) where
  -- A new request has an id that none had before.
  pub data Step (s : ExtensionSession J B) : ExtensionSession J B → Type 0 where
    opens : (id : String) → lookup id s.futures ≡ none → Step s (open_request id s)
    responds : (r : ExtensionResponse J) → Step s (resolve_response r s)
    sends_chunk : (payload : J) → Step s (append_response_chunk o payload s)
    begins : (d : ExtensionArtifactBegin J) → Step s (begin_artifact d s)
    appends : (c : ExtensionArtifactChunk) → Step s (append_artifact_chunk c s)
    completes : (e : ExtensionArtifactEnd) → Step s (on_artifact_end decode e s)
    disconnects : Step s (fail_all s)
    takes : (id : String) (r : ExtensionResponse J) → Step s (take_result id r s).1
    closes : (id : String) → Step s (close_request id s)

  pub data Steps (s : ExtensionSession J B) : ExtensionSession J B → Type 0 where
    stop : Steps s s
    then_step : {t u : ExtensionSession J B} → Steps s t → Step t u → Steps s u
