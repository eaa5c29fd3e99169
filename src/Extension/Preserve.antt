-- ===== src/Extension/Preserve.antt =====
-- extension/session.py: the tables of a session after each step.
use browser_cli.Prelude.{
  String, ℕ, none, some, true, not, ◌≡◌, inl, inr, refl, sym, ap, ◌∙◌, string_eq, nat_eq, pair_eq,
  Bool-cases, Option-cases, arith,
}
use browser_cli.Dict.{
  Dict, lookup, erase-cases, lookup-insert, lookup-erase, lookup-nil, lookup-insert_self,
  lookup-insert_ne, lookup-erase_ne,
}
use browser_cli.Extension.Messages.{ExtensionResponse}
use browser_cli.Extension.Tables.{Future, waits}
use browser_cli.Extension.Session.{
  ExtensionSession, open_request, fail_all, take_result, close_request,
}
use browser_cli.Extension.Transmission.{transmits-drop_buffers_self, transmits-drop_buffers_ne}
use browser_cli.Extension.Invariant.{IsWf}

module _ {J B : Type 0} where
  -- A new request: nothing is kept under its id yet.
  pub open-IsWf :
      (id : String) (s : ExtensionSession J B)
      → lookup id s.futures ≡ none
      → IsWf s
      → IsWf (open_request id s)
  unfolding open_request
  open-IsWf id s fresh w =
      let absent : lookup id s.pending ≡ none = elim (Option-cases (lookup id s.pending)) [
        | inl e ↦ e
        | inr (_, e) ↦ absurd (w.known id e fresh)
      ] in
      record {
        responses = λ i h. w.responses i (ground (arith, lookup-insert i id tt s.pending));
        artifacts = λ i h. w.artifacts i (ground (arith, lookup-insert i id tt s.pending));
        buffers = λ i h. w.buffers i (ground (arith, lookup-insert i id tt s.pending));
        listed = λ i. ground (
          arith,
          lookup-insert i id tt s.pending,
          lookup-insert i id tt s.artifact_events,
          w.listed i,
        );
        gate = λ i h. elim (string_eq.dec i id) [
          | yes e ↦ rw e (
              lookup-insert_self id true s.events
              ∙ ap (λ b. some (not b)) (sym (w.buffers id absent)))
          | no n ↦
              lookup-insert_ne i id true s.events n
              ∙ w.gate i (sym (lookup-insert_ne i id tt s.pending n) ∙ h)
        ];
        chunks = w.chunks;
        known = λ i h. elim (string_eq.dec i id) [
          | yes e ↦
              λ gone. absurd (ground (arith, lookup-insert {V = Future J} i id waits s.futures))
          | no n ↦ λ gone.
              w.known i (sym (lookup-insert_ne i id tt s.pending n) ∙ h)
                (sym (lookup-insert_ne i id waits s.futures n) ∙ gone)
        ];
      }

  pub fail_all-IsWf : (s : ExtensionSession J B) → IsWf (fail_all s)
  unfolding fail_all
  fail_all-IsWf s = record {
    responses = λ id _. lookup-nil id;
    artifacts = λ id _. lookup-nil id;
    buffers = λ id _. refl;
    listed = λ id. refl;
    gate = λ id h. absurd (ground (arith, lookup-nil {V = Unit {0}} id));
    chunks = λ id d h. absurd (ground (arith, lookup-nil {V = Dict ℕ String} id));
    known = λ id h. absurd (ground (arith, lookup-nil {V = Unit {0}} id));
  }

  pub take-IsWf :
      (id : String) (r : ExtensionResponse J) (s : ExtensionSession J B)
      → IsWf s
      → IsWf (take_result id r s).1
  unfolding take_result
  take-IsWf id r s w = elim (Bool-cases r.ok) [
    | inr e ↦ rw (take_result, e) w
    | inl e ↦
        rw (take_result, e)
          (record {
            responses = w.responses;
            artifacts =
                λ i h. ground (arith, lookup-erase i id s.completed_artifacts, w.artifacts i h);
            buffers = w.buffers;
            listed = w.listed;
            gate = w.gate;
            chunks = w.chunks;
            known = w.known;
          })
  ]

  pub close-IsWf : (id : String) (s : ExtensionSession J B) → IsWf s → IsWf (close_request id s)
  unfolding close_request
  close-IsWf id s w = record {
    responses = λ i h.
        ground
          (arith, lookup-erase i id s.pending, lookup-erase i id s.response_buffers, w.responses i);
    artifacts = λ i h. ground (
      arith,
      lookup-erase i id s.pending,
      lookup-erase i id s.completed_artifacts,
      w.artifacts i,
    );
    buffers = λ i h. elim (string_eq.dec i id) [
      | yes e ↦ rw e (transmits-drop_buffers_self id s.artifact_buffers)
      | no n ↦
          transmits-drop_buffers_ne id i s.artifact_buffers n
          ∙ w.buffers i (sym (lookup-erase_ne i id s.pending n) ∙ h)
    ];
    listed = λ i.
        ground
          (arith, lookup-erase i id s.pending, lookup-erase i id s.artifact_events, w.listed i);
    gate = λ i h.
        let (n, there) = erase-cases i id tt s.pending h in
        w.gate i there
        ∙ ap (λ x. some (not x)) (sym (transmits-drop_buffers_ne id i s.artifact_buffers n));
    chunks = λ i d h. w.chunks i d (erase-cases i id d s.response_buffers h).1;
    known = λ i h. w.known i (erase-cases i id tt s.pending h).1;
  }
