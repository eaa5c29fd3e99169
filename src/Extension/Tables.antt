-- ===== src/Extension/Tables.antt =====
-- extension/session.py: what the tables of a session hold, and the loops over them.
use Prim.Native.String.{◌++◌ as join}
use browser_cli.Prelude.{
  String, ℕ, List, [], ◌∷◌, Option, none, some, Bool, true, false, any, ◌==◌, string_eq,
  if◌then◌else◌,
}
use browser_cli.Dict.{Dict, lookup, insert, keys}
use browser_cli.Json.{JsonOperations}
use browser_cli.Extension.Messages.{ExtensionResponse, ExtensionArtifactBegin, response_from}
use browser_cli.Extension.Chunks.{
  RequestError, chunk_invalid, disconnected, Attempt, gets, fails, ◌>>=◌, assemble,
}

pub data Future (J : Type 0) : Type 0 where
  waits : Future J
  answered : ExtensionResponse J → Future J
  failed : RequestError → Future J

pub record ArtifactBuffer (J : Type 0) : Type 0 where
  pub descriptor : ExtensionArtifactBegin J
  pub chunks : List String

abbrev pub Names : Type 0
Names = Dict String (Unit {0})

abbrev pub is_some : {A : Type 0} → Option A → Bool
is_some none = false
is_some (some _) = true

abbrev pub or_nil : {A : Type 0} → Option (List A) → List A
or_nil none = []
or_nil (some xs) = xs

-- `future.done()`
abbrev pub is_waiting : {J : Type 0} → Option (Future J) → Bool
is_waiting (some waits) = true
is_waiting (some (answered _)) = false
is_waiting (some (failed _)) = false
is_waiting none = false

abbrev pub join_all : List String → String
join_all [] = ""
join_all (t ∷ ts) = join t (join_all ts)

-- The chunks of a request, with a new one.
abbrev pub chunks_of : Option (Dict ℕ String) → Dict ℕ String
chunks_of none = []
chunks_of (some chunks) = chunks

unfoldable pub set_events : Names → Dict String Bool → Dict String Bool
set_events [] es = es
set_events ((id, _) ∷ ids) es = set_events ids (insert id true es)

module _ {J : Type 0} where
  -- `future.set_exception(...)` for all that are not done
  abbrev pub fail_future :
      Option (Future J) → String → Dict String (Future J) → Dict String (Future J)
  fail_future (some waits) id fs = insert id (failed disconnected) fs
  fail_future (some (answered _)) id fs = fs
  fail_future (some (failed _)) id fs = fs
  fail_future none id fs = fs

  unfoldable pub fail_futures : Names → Dict String (Future J) → Dict String (Future J)
  fail_futures [] fs = fs
  fail_futures ((id, _) ∷ ids) fs = fail_futures ids (fail_future (lookup id fs) id fs)

  -- `any(request_id == id for request_id, _ in self._artifact_buffers)`
  abbrev pub transmits : String → Dict (String × String) (ArtifactBuffer J) → Bool
  transmits id buffers = any (λ k. k.0 == id) (keys buffers)

  -- The loop over the keys of `_artifact_buffers`.
  unfoldable pub drop_buffers :
      String → Dict (String × String) (ArtifactBuffer J) → Dict (String × String) (ArtifactBuffer J)
  drop_buffers id [] = []
  drop_buffers id ((k, b) ∷ rest) =
      let less = drop_buffers id rest in if k.0 == id then less else (k, b) ∷ less

module _ {J : Type 0} (o : JsonOperations J) where
  -- The message of the assembled chunks: JSON, an object, and for this request.
  abbrev pub object : J → Attempt J
  object m = if o.is_dict m then gets m else fails chunk_invalid

  abbrev pub loaded : Option J → Attempt J
  loaded none = fails chunk_invalid
  loaded (some m) = object m

  abbrev pub read_response : Option (ExtensionResponse J) → Attempt (ExtensionResponse J)
  read_response none = fails chunk_invalid
  read_response (some r) = gets r

  unfoldable pub read_chunks : String → Dict ℕ String → Attempt (ExtensionResponse J)
  read_chunks id chunks = do
    assembled ← assemble chunks
    message ← loaded (o.loads assembled)
    r ← read_response (response_from o message)
    if r.id == id then gets r else fails chunk_invalid
