-- ===== src/Extension/Endings.antt =====
-- What the steps do to the pending requests and to the futures, taken together.
use browser_cli.Prelude.{
  String, ℕ, [], Option, none, some, Bool, true, false, ◌≡◌, inl, inr, ◌==◌, string_eq, nat_eq,
  pair_eq, Bool-cases, Option-cases,
}
use browser_cli.Dict.{Dict, lookup, insert, erase}
use browser_cli.Json.{JsonOperations, text_or}
use browser_cli.Extension.Messages.{
  ExtensionResponse, ExtensionArtifactBegin, ExtensionArtifactChunk, ExtensionArtifactEnd,
}
use browser_cli.Extension.Chunks.{RequestError, Attempt, gets, fails, parse_response_chunk_index}
use browser_cli.Extension.Tables.{
  Future, waits, answered, failed, is_some, is_waiting, join_all, transmits,
}
use browser_cli.Extension.Session.{
  ExtensionSession, Artifact, is_live, open_request, settle, drop_response, resolve_response,
  put_chunk, fail_request, end_chunks, fail_all, mark, begin_artifact, append_artifact_chunk,
  complete, complete_artifact, on_artifact_end, take_result, close_request, add_chunk,
  append_response_chunk,
}
use browser_cli.Extension.Steps.{
  Step, opens, responds, sends_chunk, begins, appends, completes, disconnects, takes, closes, Steps,
  stop, then_step,
}
use browser_cli.Extension.Invariant.{live_pending}
use browser_cli.Extension.Tables.{Names, fail_futures}
use browser_cli.Extension.Session.{on_artifact_end}

-- What depends on the pending requests and the futures alone, and is kept by the four ways in which
-- these change, is kept by every step.
module _ {J B : Type 0} (Q : Names → Dict String (Future J) → Type 0)
    (on_settle : (id : String) (f : Future J) (p : Names) (fs : Dict String (Future J))
      → lookup id p ≡ some tt
      → is_waiting (lookup id fs) ≡ true
      → Q p fs
      → Q p (insert id f fs))
    (on_open : (id : String) (p : Names) (fs : Dict String (Future J))
      → lookup id fs ≡ none
      → Q p fs
      → Q (insert id tt p) (insert id waits fs))
    (on_fail : (p : Names) (fs : Dict String (Future J)) → Q p fs → Q [] (fail_futures p fs))
    (on_close : (id : String) (p : Names) (fs : Dict String (Future J))
      → Q p fs
      → Q (erase id p) fs) where
  abbrev Keeps : ExtensionSession J B → ExtensionSession J B → Type 0
  Keeps s t = Q s.pending s.futures → Q t.pending t.futures

  live_waiting :
      (id : String) (s : ExtensionSession J B)
      → is_live id s ≡ true
      → is_waiting (lookup id s.futures) ≡ true
  unfolding is_live
  live_waiting id s h =
      let there = live_pending id s h in let open_one = rw (is_live, there) at h in open_one

  settle-Keeps :
      (id : String) (f : Future J) (s : ExtensionSession J B)
      → is_live id s ≡ true
      → Keeps s (settle id f s)
  settle-Keeps id f s l q =
      on_settle id f s.pending s.futures (live_pending id s l) (live_waiting id s l) q

  resolve-Keeps :
      (r : ExtensionResponse J) (s : ExtensionSession J B) → Keeps s (resolve_response r s)
  unfolding resolve_response
  resolve-Keeps r s q = elim (Bool-cases (is_live r.id s)) [
    | inl e ↦ rw (resolve_response, e) (settle-Keeps r.id (answered r) s e q)
    | inr e ↦ rw (resolve_response, e) q
  ]

  fail_request-Keeps :
      (id : String) (e : RequestError) (s : ExtensionSession J B) → Keeps s (fail_request id e s)
  fail_request-Keeps id e s q = elim (Bool-cases (is_live id (drop_response id s))) [
    | inl l ↦ rw l (settle-Keeps id (failed e) (drop_response id s) l q)
    | inr l ↦ rw l q
  ]

  end_chunks-Keeps :
      (id : String) (r : Attempt (ExtensionResponse J)) (s : ExtensionSession J B)
      → Keeps s (end_chunks id r s)
  end_chunks-Keeps id (fails e) s q = fail_request-Keeps id e s q
  end_chunks-Keeps id (gets r) s q = resolve-Keeps r (drop_response id s) q

  add_chunk-Keeps :
      (o : JsonOperations J) (id : String) (payload : J) (index : Attempt ℕ)
      (s : ExtensionSession J B)
      → Keeps s (add_chunk o id payload index s)
  add_chunk-Keeps o id payload (fails e) s q = fail_request-Keeps id e s q
  add_chunk-Keeps o id payload (gets index) s q =
      elim (Bool-cases (o.truthy (o.get "final" payload))) [
        | inl e ↦
            rw e (end_chunks-Keeps id _ (put_chunk id index (text_or o "chunk" "" payload) s) q)
        | inr e ↦ rw e q
      ]

  chunk-Keeps :
      (o : JsonOperations J) (payload : J) (s : ExtensionSession J B)
      → Keeps s (append_response_chunk o payload s)
  unfolding append_response_chunk
  chunk-Keeps o payload s q = elim (Bool-cases (text_or o "id" "" payload == "")) [
    | inl e ↦ rw (append_response_chunk, e) q
    | inr e ↦ elim (Bool-cases (is_live (text_or o "id" "" payload) s)) [
      | inl l ↦
          rw (append_response_chunk, e, l)
            (add_chunk-Keeps o _ payload (parse_response_chunk_index o (o.get "index" payload)) s q)
      | inr l ↦ rw (append_response_chunk, e, l) q
    ]
  ]

  mark-Keeps : (id : String) (b : Bool) (s : ExtensionSession J B) → Keeps s (mark id b s)
  mark-Keeps id b s q = elim (Bool-cases (is_some (lookup id s.artifact_events))) [
    | inl e ↦ rw e q
    | inr e ↦ rw e q
  ]

  begin-Keeps :
      (d : ExtensionArtifactBegin J) (s : ExtensionSession J B) → Keeps s (begin_artifact d s)
  unfolding begin_artifact
  begin-Keeps d s q = elim (Bool-cases (is_some (lookup d.request_id s.pending))) [
    | inl e ↦ rw (begin_artifact, e) (mark-Keeps d.request_id false _ q)
    | inr e ↦ rw (begin_artifact, e) q
  ]

  append-Keeps :
      (c : ExtensionArtifactChunk) (s : ExtensionSession J B) → Keeps s (append_artifact_chunk c s)
  unfolding append_artifact_chunk
  append-Keeps c s q =
      elim (Option-cases (lookup (c.request_id, c.artifact_id) s.artifact_buffers)) [
        | inl e ↦ rw (append_artifact_chunk, e) q
        | inr (b, e) ↦ rw (append_artifact_chunk, e) q
      ]

  fail_all-Keeps : (s : ExtensionSession J B) → Keeps s (fail_all s)
  unfolding fail_all
  fail_all-Keeps s q = on_fail s.pending s.futures q

  complete-Keeps :
      (id : String) (a : Artifact J B) (s : ExtensionSession J B) → Keeps s (complete id a s)
  complete-Keeps id a s q = elim (Bool-cases (transmits id s.artifact_buffers)) [
    | inl e ↦ rw e q
    | inr e ↦ rw e (mark-Keeps id true _ q)
  ]

  end-Keeps :
      (decode : String → Option B) (e : ExtensionArtifactEnd) (s : ExtensionSession J B)
      → Keeps s (on_artifact_end decode e s)
  unfolding on_artifact_end complete_artifact
  end-Keeps decode e s q =
      elim (Option-cases (lookup (e.request_id, e.artifact_id) s.artifact_buffers)) [
        | inl p ↦ rw (on_artifact_end, complete_artifact, p) q
        | inr (b, p) ↦ elim (Option-cases (decode (join_all b.chunks))) [
          | inl f ↦ rw (on_artifact_end, complete_artifact, p, f) (fail_all-Keeps _ q)
          | inr (content, f) ↦
              rw (on_artifact_end, complete_artifact, p, f) (complete-Keeps e.request_id _ _ q)
        ]
      ]

  take-Keeps :
      (id : String) (r : ExtensionResponse J) (s : ExtensionSession J B)
      → Keeps s (take_result id r s).1
  unfolding take_result
  take-Keeps id r s q = elim (Bool-cases r.ok) [
    | inl e ↦ rw (take_result, e) q
    | inr e ↦ rw (take_result, e) q
  ]

  Step-Keeps :
      (o : JsonOperations J) (decode : String → Option B) (s t : ExtensionSession J B)
      → Step o decode s t
      → Keeps s t
  unfolding open_request close_request
  Step-Keeps o decode s _ (opens id fresh) q = on_open id s.pending s.futures fresh q
  Step-Keeps o decode s _ (responds r) q = resolve-Keeps r s q
  Step-Keeps o decode s _ (sends_chunk payload) q = chunk-Keeps o payload s q
  Step-Keeps o decode s _ (begins d) q = begin-Keeps d s q
  Step-Keeps o decode s _ (appends c) q = append-Keeps c s q
  Step-Keeps o decode s _ (completes e) q = end-Keeps decode e s q
  Step-Keeps o decode s _ disconnects q = fail_all-Keeps s q
  Step-Keeps o decode s _ (takes id r) q = take-Keeps id r s q
  Step-Keeps o decode s _ (closes id) q = on_close id s.pending s.futures q

  pub Steps-Keeps :
      (o : JsonOperations J) (decode : String → Option B) (s t : ExtensionSession J B)
      → Steps o decode s t
      → Keeps s t
  Steps-Keeps o decode s _ stop q = q
  Steps-Keeps o decode s u (then_step {t} before x) q =
      Step-Keeps o decode t u x (Steps-Keeps o decode s t before q)
