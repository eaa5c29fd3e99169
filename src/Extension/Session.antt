-- ===== src/Extension/Session.antt =====
-- extension/session.py: `ExtensionSession`. A request's id (`uuid.uuid4().hex`) also names its future and
-- its event, which outlive their entries in `_pending` and `_artifact_events`.
use browser_cli.Prelude.{
  String, List, [], ◌∷◌, ◌++◌, Option, none, some, Bool, true, false, ◌==◌, string_eq, nat_eq,
  pair_eq, ℕ, if◌then◌else◌,
}
use browser_cli.Dict.{Dict, lookup, insert, erase}
use browser_cli.Json.{JsonOperations, text_or}
use browser_cli.Extension.Messages.{
  ExtensionResponse, ExtensionArtifactBegin, ExtensionArtifactChunk, ExtensionArtifactEnd,
}
use browser_cli.Extension.Tables.{
  Future, waits, answered, failed, ArtifactBuffer, Names, is_some, or_nil, is_waiting, join_all,
  chunks_of, set_events, fail_futures, transmits, drop_buffers, read_chunks,
}
use browser_cli.Extension.Chunks.{
  RequestError, refused, Attempt, gets, fails, parse_response_chunk_index,
}

-- `to_payload`: the descriptor with the decoded content.
pub record Artifact (J B : Type 0) : Type 0 where
  pub descriptor : ExtensionArtifactBegin J
  pub content : B

pub record ExtensionSession (J B : Type 0) : Type 0 where
  pub pending : Names
  pub artifact_events : Names
  pub artifact_buffers : Dict (String × String) (ArtifactBuffer J)
  pub completed_artifacts : Dict String (List (Artifact J B))
  pub response_buffers : Dict String (Dict ℕ String)
  pub futures : Dict String (Future J)
  pub events : Dict String Bool

module _ {J B : Type 0} where
  abbrev pub start : ExtensionSession J B
  start = record {
    pending = [];
    artifact_events = [];
    artifact_buffers = [];
    completed_artifacts = [];
    response_buffers = [];
    futures = [];
    events = [];
  }

  -- `future is not None and not future.done()` for `self._pending.get(id)`
  unfoldable pub is_live : String → ExtensionSession J B → Bool
  is_live id s = elim (lookup id s.pending) [
    | none ↦ false
    | some _ ↦ is_waiting (lookup id s.futures)
  ]

  -- The head of `send_request`, up to the message that is sent.
  unfoldable pub open_request : String → ExtensionSession J B → ExtensionSession J B
  open_request id s = record s {
    pending = insert id tt s.pending;
    artifact_events = insert id tt s.artifact_events;
    futures = insert id waits s.futures;
    events = insert id true s.events;
  }

  abbrev pub settle : String → Future J → ExtensionSession J B → ExtensionSession J B
  settle id f s = record s { futures = insert id f s.futures }

  abbrev pub drop_response : String → ExtensionSession J B → ExtensionSession J B
  drop_response id s = record s { response_buffers = erase id s.response_buffers }

  unfoldable pub resolve_response :
      ExtensionResponse J → ExtensionSession J B → ExtensionSession J B
  resolve_response r s = if is_live r.id s then settle r.id (answered r) s else s

  abbrev pub put_chunk : String → ℕ → String → ExtensionSession J B → ExtensionSession J B
  put_chunk id index chunk s = record s {
    response_buffers =
        insert id (insert index chunk (chunks_of (lookup id s.response_buffers)))
          s.response_buffers;
  }

  -- `future.set_exception(exc)` unless it is done, and the buffer is dropped
  abbrev pub fail_request : String → RequestError → ExtensionSession J B → ExtensionSession J B
  fail_request id e s =
      let s' = drop_response id s in if is_live id s' then settle id (failed e) s' else s'

  abbrev pub end_chunks :
      String → Attempt (ExtensionResponse J) → ExtensionSession J B → ExtensionSession J B
  end_chunks id (fails e) s = fail_request id e s
  end_chunks id (gets r) s = resolve_response r (drop_response id s)

  unfoldable pub fail_all : ExtensionSession J B → ExtensionSession J B
  fail_all s = record {
    pending = [];
    artifact_events = [];
    artifact_buffers = [];
    completed_artifacts = [];
    response_buffers = [];
    futures = fail_futures s.pending s.futures;
    events = set_events s.artifact_events s.events;
  }

  -- `event.clear()` and `event.set()`, for an event that is listed
  abbrev pub mark : String → Bool → ExtensionSession J B → ExtensionSession J B
  mark id b s =
      if is_some (lookup id s.artifact_events)
      then record s { events = insert id b s.events }
      else s

  unfoldable pub begin_artifact :
      ExtensionArtifactBegin J → ExtensionSession J B → ExtensionSession J B
  begin_artifact d s =
      if is_some (lookup d.request_id s.pending)
      then mark d.request_id false (record s {
        artifact_buffers =
            insert (d.request_id, d.artifact_id) (record { descriptor = d; chunks = [] })
              s.artifact_buffers;
      })
      else s

  unfoldable pub append_artifact_chunk :
      ExtensionArtifactChunk → ExtensionSession J B → ExtensionSession J B
  append_artifact_chunk c s = elim (lookup (c.request_id, c.artifact_id) s.artifact_buffers) [
    | none ↦ s
    | some b ↦ record s {
      artifact_buffers =
          insert (c.request_id, c.artifact_id) (record b { chunks = b.chunks ++ c.chunk ∷ [] })
            s.artifact_buffers;
    }
  ]

  abbrev pub complete : String → Artifact J B → ExtensionSession J B → ExtensionSession J B
  complete id a s =
      let s' = record s {
        completed_artifacts =
            insert id (or_nil (lookup id s.completed_artifacts) ++ a ∷ []) s.completed_artifacts;
      } in
      if transmits id s'.artifact_buffers then s' else mark id true s'

  -- `base64.b64decode` may raise, after the buffer has been popped: `true` says that it did.
  abbrev pub complete_decoded :
      String
      → ExtensionArtifactBegin J
      → Option B
      → ExtensionSession J B
      → Bool × ExtensionSession J B
  complete_decoded id d none s = (true, s)
  complete_decoded id d (some content) s =
      (false, complete id (record { descriptor = d; content = content }) s)

  unfoldable pub complete_artifact :
      (String → Option B)
      → ExtensionArtifactEnd
      → ExtensionSession J B
      → Bool × ExtensionSession J B
  complete_artifact decode e s = elim (lookup (e.request_id, e.artifact_id) s.artifact_buffers) [
    | none ↦ (false, s)
    | some b ↦
        complete_decoded e.request_id b.descriptor (decode (join_all b.chunks))
          (record s { artifact_buffers = erase (e.request_id, e.artifact_id) s.artifact_buffers })
  ]

  -- The connection's loop on "artifact-end", while the session is the hub's: an error ends the loop, and
  -- its `finally` fails all.
  unfoldable pub on_artifact_end :
      (String → Option B) → ExtensionArtifactEnd → ExtensionSession J B → ExtensionSession J B
  on_artifact_end decode e s =
      let r = complete_artifact decode e s in if r.0 then fail_all r.1 else r.1

  -- What `send_request` returns once the response is there and the event is set.
  unfoldable pub take_result :
      String
      → ExtensionResponse J
      → ExtensionSession J B
      → Attempt (J × List (Artifact J B)) × ExtensionSession J B
  take_result id r s =
      if r.ok
      then (
        gets (r.body, or_nil (lookup id s.completed_artifacts)),
        record s { completed_artifacts = erase id s.completed_artifacts },
      )
      else (fails (refused r.error_code r.error_message), s)

  -- The `finally` of `send_request`.
  unfoldable pub close_request : String → ExtensionSession J B → ExtensionSession J B
  close_request id s = record s {
    pending = erase id s.pending;
    artifact_events = erase id s.artifact_events;
    response_buffers = erase id s.response_buffers;
    completed_artifacts = erase id s.completed_artifacts;
    artifact_buffers = drop_buffers id s.artifact_buffers;
  }

module _ {J B : Type 0} (o : JsonOperations J) where
  abbrev pub add_chunk : String → J → Attempt ℕ → ExtensionSession J B → ExtensionSession J B
  add_chunk id payload (fails e) s = fail_request id e s
  add_chunk id payload (gets index) s =
      let s' = put_chunk id index (text_or o "chunk" "" payload) s in
      if o.truthy (o.get "final" payload)
      then end_chunks id (read_chunks o id (chunks_of (lookup id s'.response_buffers))) s'
      else s'

  unfoldable pub append_response_chunk : J → ExtensionSession J B → ExtensionSession J B
  append_response_chunk payload s =
      let id = text_or o "id" "" payload in
      if id == ""
      then s
      else if is_live id s
      then add_chunk id payload (parse_response_chunk_index o (o.get "index" payload)) s
      else drop_response id s
