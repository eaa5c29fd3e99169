-- ===== src/Extension/Invariant.antt =====
-- extension/session.py: how the tables of a session fit together.
use browser_cli.Prelude.{
  String, ℕ, Option, none, some, true, false, not, ◌≡◌, ◌≢◌, inl, inr, refl, sym, ap, ◌∙◌,
  string_eq, nat_eq, pair_eq, Bool-cases, Option-cases, arith,
}
use browser_cli.Dict.{
  Dict, lookup, NodupKeys, insert-NodupKeys, insert-cases, erase-cases, lookup-insert, lookup-erase,
  lookup-nil, lookup-insert_ne,
}
use browser_cli.Extension.Messages.{ExtensionResponse}
use browser_cli.Extension.Chunks.{RequestError}
use browser_cli.Extension.Tables.{Future, answered, failed, chunks_of, transmits}
use browser_cli.Extension.Session.{
  ExtensionSession, start, is_live, settle, drop_response, resolve_response, put_chunk,
  fail_request,
}

module _ {J B : Type 0} where
  -- What is kept for a request is kept only while it is pending, and its event is set exactly while
  -- no artifact of it is in transmission.
  pub record IsWf (s : ExtensionSession J B) : Type 0 where
    pub responses : (id : String) → lookup id s.pending ≡ none → lookup id s.response_buffers ≡ none
    pub artifacts :
        (id : String) → lookup id s.pending ≡ none → lookup id s.completed_artifacts ≡ none
    pub buffers :
        (id : String) → lookup id s.pending ≡ none → transmits id s.artifact_buffers ≡ false
    pub listed : (id : String) → lookup id s.artifact_events ≡ lookup id s.pending
    pub gate :
        (id : String)
        → lookup id s.pending ≡ some tt
        → lookup id s.events ≡ some (not (transmits id s.artifact_buffers))
    pub chunks :
        (id : String) (d : Dict ℕ String) → lookup id s.response_buffers ≡ some d → NodupKeys d
    pub known : (id : String) → lookup id s.pending ≡ some tt → lookup id s.futures ≢ none

  pub start-IsWf : IsWf start
  start-IsWf = record {
    responses = λ id _. lookup-nil id;
    artifacts = λ id _. lookup-nil id;
    buffers = λ id _. refl;
    listed = λ id. refl;
    gate = λ id h. absurd (ground (arith, lookup-nil {V = Unit {0}} id));
    chunks = λ id d h. absurd (ground (arith, lookup-nil {V = Dict ℕ String} id));
    known = λ id h. absurd (ground (arith, lookup-nil {V = Unit {0}} id));
  }

  pub settle-IsWf :
      (id : String) (f : Future J) (s : ExtensionSession J B) → IsWf s → IsWf (settle id f s)
  settle-IsWf id f s w = record {
    responses = w.responses;
    artifacts = w.artifacts;
    buffers = w.buffers;
    listed = w.listed;
    gate = w.gate;
    chunks = w.chunks;
    known = λ i h. elim (string_eq.dec i id) [
      | yes e ↦ λ gone. absurd (ground (arith, lookup-insert i id f s.futures))
      | no n ↦ λ gone. w.known i h (sym (lookup-insert_ne i id f s.futures n) ∙ gone)
    ];
  }

  pub resolve-IsWf :
      (r : ExtensionResponse J) (s : ExtensionSession J B) → IsWf s → IsWf (resolve_response r s)
  unfolding resolve_response
  resolve-IsWf r s w = elim (Bool-cases (is_live r.id s)) [
    | inl e ↦ rw (resolve_response, e) (settle-IsWf r.id (answered r) s w)
    | inr e ↦ rw (resolve_response, e) w
  ]

  pub drop_response-IsWf :
      (id : String) (s : ExtensionSession J B) → IsWf s → IsWf (drop_response id s)
  drop_response-IsWf id s w = record {
    responses = λ i h. ground (arith, lookup-erase i id s.response_buffers, w.responses i h);
    artifacts = w.artifacts;
    buffers = w.buffers;
    listed = w.listed;
    gate = w.gate;
    chunks = λ i d h. w.chunks i d (erase-cases i id d s.response_buffers h).1;
    known = w.known;
  }

  pub fail_request-IsWf :
      (id : String) (e : RequestError) (s : ExtensionSession J B)
      → IsWf s
      → IsWf (fail_request id e s)
  fail_request-IsWf id e s w =
      let dropped = drop_response-IsWf id s w in
      elim (Bool-cases (is_live id (drop_response id s))) [
        | inl l ↦ rw l (settle-IsWf id (failed e) (drop_response id s) dropped)
        | inr l ↦ rw l dropped
      ]

  pub live_pending :
      (id : String) (s : ExtensionSession J B) → is_live id s ≡ true → lookup id s.pending ≡ some tt
  unfolding is_live
  live_pending id s h = elim (Option-cases (lookup id s.pending)) [
    | inl e ↦ let clash = rw (is_live, e) at h in absurd (ground arith)
    | inr (_, e) ↦ e
  ]

  chunks_of-NodupKeys :
      (id : String) (x : Option (Dict ℕ String)) (s : ExtensionSession J B)
      → IsWf s
      → lookup id s.response_buffers ≡ x
      → NodupKeys (chunks_of x)
  chunks_of-NodupKeys id none s w e = tt
  chunks_of-NodupKeys id (some d) s w e = w.chunks id d e

  pub put_chunk-IsWf :
      (id : String) (index : ℕ) (chunk : String) (s : ExtensionSession J B)
      → lookup id s.pending ≡ some tt
      → IsWf s
      → IsWf (put_chunk id index chunk s)
  put_chunk-IsWf id index chunk s there w = record {
    responses = λ i h.
        let other : i ≢ id =
          λ e. let same = ap (λ x. lookup x s.pending) e in absurd (ground arith) in
        lookup-insert_ne i id _ s.response_buffers other ∙ w.responses i h;
    artifacts = w.artifacts;
    buffers = w.buffers;
    listed = w.listed;
    gate = w.gate;
    chunks = λ i d h. elim (insert-cases i id _ d s.response_buffers h) [
      | inl (_, e) ↦ rw (sym e) (
          insert-NodupKeys index chunk _
            (chunks_of-NodupKeys id (lookup id s.response_buffers) s w refl))
      | inr (_, before) ↦ w.chunks i d before
    ];
    known = w.known;
  }
