-- ===== src/Extension/Lifetime.antt =====
-- extension/session.py: the tables of every session that is reached.
use browser_cli.Prelude.{
  String, ℕ, Option, some, ◌≡◌, inl, inr, ◌==◌, string_eq, nat_eq, pair_eq, Bool-cases,
}
use browser_cli.Dict.{lookup}
use browser_cli.Json.{JsonOperations, text_or}
use browser_cli.Extension.Messages.{ExtensionResponse}
use browser_cli.Extension.Chunks.{Attempt, gets, fails, parse_response_chunk_index}
use browser_cli.Extension.Session.{
  ExtensionSession, start, is_live, drop_response, end_chunks, add_chunk, append_response_chunk,
}
use browser_cli.Extension.Steps.{
  Step, opens, responds, sends_chunk, begins, appends, completes, disconnects, takes, closes, Steps,
  stop, then_step,
}
use browser_cli.Extension.Invariant.{
  IsWf, start-IsWf, resolve-IsWf, drop_response-IsWf, fail_request-IsWf, put_chunk-IsWf,
  live_pending,
}
use browser_cli.Extension.Preserve.{open-IsWf, fail_all-IsWf, take-IsWf, close-IsWf}
use browser_cli.Extension.PreserveArtifacts.{begin-IsWf, append-IsWf, end-IsWf}

module _ {J B : Type 0} (o : JsonOperations J) where
  end_chunks-IsWf :
      (id : String) (r : Attempt (ExtensionResponse J)) (s : ExtensionSession J B)
      → IsWf s
      → IsWf (end_chunks id r s)
  end_chunks-IsWf id (fails e) s w = fail_request-IsWf id e s w
  end_chunks-IsWf id (gets r) s w = resolve-IsWf r (drop_response id s) (drop_response-IsWf id s w)

  add_chunk-IsWf :
      (id : String) (payload : J) (index : Attempt ℕ) (s : ExtensionSession J B)
      → lookup id s.pending ≡ some tt
      → IsWf s
      → IsWf (add_chunk o id payload index s)
  add_chunk-IsWf id payload (fails e) s there w = fail_request-IsWf id e s w
  add_chunk-IsWf id payload (gets index) s there w =
      let put = put_chunk-IsWf id index (text_or o "chunk" "" payload) s there w in
      elim (Bool-cases (o.truthy (o.get "final" payload))) [
        | inl e ↦ rw e (end_chunks-IsWf id _ _ put)
        | inr e ↦ rw e put
      ]

  chunk-IsWf :
      (payload : J) (s : ExtensionSession J B) → IsWf s → IsWf (append_response_chunk o payload s)
  unfolding append_response_chunk
  chunk-IsWf payload s w = elim (Bool-cases (text_or o "id" "" payload == "")) [
    | inl e ↦ rw (append_response_chunk, e) w
    | inr e ↦ elim (Bool-cases (is_live (text_or o "id" "" payload) s)) [
      | inl l ↦
          rw (append_response_chunk, e, l)
            (add_chunk-IsWf _ payload (parse_response_chunk_index o (o.get "index" payload)) s
              (live_pending _ s l) w)
      | inr l ↦ rw (append_response_chunk, e, l) (drop_response-IsWf _ s w)
    ]
  ]

module _ {J B : Type 0} (o : JsonOperations J) (decode : String → Option B) where
  Step-IsWf : (s t : ExtensionSession J B) → Step o decode s t → IsWf s → IsWf t
  Step-IsWf s _ (opens id fresh) w = open-IsWf id s fresh w
  Step-IsWf s _ (responds r) w = resolve-IsWf r s w
  Step-IsWf s _ (sends_chunk payload) w = chunk-IsWf o payload s w
  Step-IsWf s _ (begins d) w = begin-IsWf d s w
  Step-IsWf s _ (appends c) w = append-IsWf c s w
  Step-IsWf s _ (completes e) w = end-IsWf decode e s w
  Step-IsWf s _ disconnects w = fail_all-IsWf s
  Step-IsWf s _ (takes id r) w = take-IsWf id r s w
  Step-IsWf s _ (closes id) w = close-IsWf id s w

  pub Steps-IsWf : (s t : ExtensionSession J B) → Steps o decode s t → IsWf s → IsWf t
  Steps-IsWf s _ stop w = w
  Steps-IsWf s u (then_step {t} before x) w = Step-IsWf t u x (Steps-IsWf s t before w)

  -- In every session that is reached, chunks and artifacts are kept for pending requests only, and the
  -- event of a pending request is set exactly while no artifact of it is in transmission.
  pub reached-IsWf : (s : ExtensionSession J B) → Steps o decode start s → IsWf s
  reached-IsWf s steps = Steps-IsWf start s steps start-IsWf
