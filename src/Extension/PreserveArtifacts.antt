-- ===== src/Extension/PreserveArtifacts.antt =====
-- extension/session.py: the tables of a session after the messages on artifacts.
use browser_cli.Prelude.{
  String, List, Option, some, Bool, true, false, not, ◌≡◌, ◌≢◌, inl, inr, refl, sym, ap, ◌∙◌,
  string_eq, nat_eq, pair_eq, Bool-cases, Option-cases, if◌then◌else◌, arith,
}
use browser_cli.Dict.{lookup, insert, erase, lookup-insert, lookup-insert_self, lookup-insert_ne}
use browser_cli.Extension.Messages.{
  ExtensionArtifactBegin, ExtensionArtifactChunk, ExtensionArtifactEnd,
}
use browser_cli.Extension.Tables.{ArtifactBuffer, join_all, transmits}
use browser_cli.Extension.Session.{
  ExtensionSession, Artifact, fail_all, begin_artifact, append_artifact_chunk, complete,
  complete_artifact, on_artifact_end,
}
use browser_cli.Extension.Transmission.{
  transmits-insert, lookup-transmits, transmits-erase_ne, erase-transmits_none,
}
use browser_cli.Extension.Invariant.{IsWf}
use browser_cli.Extension.Preserve.{fail_all-IsWf}

module _ {J B : Type 0} where
  -- An artifact begins: its request waits from now on.
  begun :
      (d : ExtensionArtifactBegin J) (b : ArtifactBuffer J) (s : ExtensionSession J B)
      → lookup d.request_id s.pending ≡ some tt
      → IsWf s
      → IsWf (record s {
        artifact_buffers = insert (d.request_id, d.artifact_id) b s.artifact_buffers;
        events = insert d.request_id false s.events;
      })
  begun d b s there w = record {
    responses = w.responses;
    artifacts = w.artifacts;
    buffers = λ i h.
        let other : d.request_id ≢ i =
          λ e. let same = ap (λ x. lookup x s.pending) e in absurd (ground arith) in
        ground (
          arith,
          transmits-insert i (d.request_id, d.artifact_id) b s.artifact_buffers,
          w.buffers i h,
        );
    listed = w.listed;
    gate = λ i h. ground (
      arith,
      transmits-insert i (d.request_id, d.artifact_id) b s.artifact_buffers,
      w.gate i h,
      lookup-insert i d.request_id false s.events,
    );
    chunks = w.chunks;
    known = w.known;
  }

  pub begin-IsWf :
      (d : ExtensionArtifactBegin J) (s : ExtensionSession J B) → IsWf s → IsWf (begin_artifact d s)
  unfolding begin_artifact
  begin-IsWf d s w = elim (Option-cases (lookup d.request_id s.pending)) [
    | inl e ↦ rw (begin_artifact, e) w
    | inr (_, e) ↦
        let event : lookup d.request_id s.artifact_events ≡ some tt = w.listed d.request_id ∙ e in
        rw (begin_artifact, e, event) (begun d _ s e w)
  ]

  -- A buffer that grows is where it was.
  grown :
      (k : String × String) (b b' : ArtifactBuffer J) (s : ExtensionSession J B)
      → lookup k s.artifact_buffers ≡ some b
      → IsWf s
      → IsWf (record s { artifact_buffers = insert k b' s.artifact_buffers })
  grown k b b' s there w =
      let on = lookup-transmits k b s.artifact_buffers there in
      let same = λ (i : String). grown_same k b' s on i in
      record {
        responses = w.responses;
        artifacts = w.artifacts;
        buffers = λ i h. same i ∙ w.buffers i h;
        listed = w.listed;
        gate = λ i h. w.gate i h ∙ ap (λ x. some (not x)) (sym (same i));
        chunks = w.chunks;
        known = w.known;
      }
    where
      grown_same :
          (k : String × String) (b' : ArtifactBuffer J) (s : ExtensionSession J B)
          → transmits k.0 s.artifact_buffers ≡ true
          → (i : String)
          → transmits i (insert k b' s.artifact_buffers) ≡ transmits i s.artifact_buffers
      grown_same k b' s on i = elim (string_eq.dec k.0 i) [
        | yes e ↦
            let here : transmits i s.artifact_buffers ≡ true =
              ap (λ x. transmits x s.artifact_buffers) (sym e) ∙ on in
            ground (arith, transmits-insert i k b' s.artifact_buffers)
        | no n ↦ ground (arith, transmits-insert i k b' s.artifact_buffers)
      ]

  pub append-IsWf :
      (c : ExtensionArtifactChunk) (s : ExtensionSession J B)
      → IsWf s
      → IsWf (append_artifact_chunk c s)
  unfolding append_artifact_chunk
  append-IsWf c s w =
      elim (Option-cases (lookup (c.request_id, c.artifact_id) s.artifact_buffers)) [
        | inl e ↦ rw (append_artifact_chunk, e) w
        | inr (b, e) ↦ rw (append_artifact_chunk, e) (grown (c.request_id, c.artifact_id) b _ s e w)
      ]

  -- An artifact ends: the buffer is popped, and the event is set if it was the last one.
  ended :
      (id : String) (artifact : String) (b : ArtifactBuffer J) (xs : List (Artifact J B))
      (s : ExtensionSession J B)
      → lookup (id, artifact) s.artifact_buffers ≡ some b
      → lookup id s.pending ≡ some tt
      → IsWf s
      → (on : Bool) → transmits id (erase (id, artifact) s.artifact_buffers) ≡ on
      → IsWf (record s {
        artifact_buffers = erase (id, artifact) s.artifact_buffers;
        completed_artifacts = insert id xs s.completed_artifacts;
        events = if on then s.events else insert id true s.events;
      })
  ended id artifact b xs s there live w on e = record {
    responses = w.responses;
    artifacts = λ i h.
        let other : i ≢ id =
          λ p. let same = ap (λ x. lookup x s.pending) p in absurd (ground arith) in
        lookup-insert_ne i id xs s.completed_artifacts other ∙ w.artifacts i h;
    buffers = λ i h. erase-transmits_none i (id, artifact) s.artifact_buffers (w.buffers i h);
    listed = w.listed;
    gate = λ i h. elim (string_eq.dec i id) [
      | yes p ↦ rw p (set_gate on e)
      | no n ↦
          other_event i n on
          ∙ w.gate i h
          ∙ ap (λ x. some (not x))
              (sym (transmits-erase_ne i (id, artifact) s.artifact_buffers (λ q. n (sym q))))
    ];
    chunks = w.chunks;
    known = w.known;
  }
    where
      set_gate :
          (on : Bool)
          → transmits id (erase (id, artifact) s.artifact_buffers) ≡ on
          → lookup id (if on then s.events else insert id true s.events)
            ≡ some (not (transmits id (erase (id, artifact) s.artifact_buffers)))
      set_gate true e =
          w.gate id live
          ∙ ap (λ x. some (not x)) (lookup-transmits (id, artifact) b s.artifact_buffers there)
          ∙ ap (λ x. some (not x)) (sym e)
      set_gate false e = lookup-insert_self id true s.events ∙ ap (λ x. some (not x)) (sym e)

      other_event :
          (i : String)
          → i ≢ id
          → (on : Bool)
          → lookup i (if on then s.events else insert id true s.events) ≡ lookup i s.events
      other_event i n true = refl
      other_event i n false = lookup-insert_ne i id true s.events n

  complete-IsWf :
      (id : String) (artifact : String) (b : ArtifactBuffer J) (a : Artifact J B)
      (s : ExtensionSession J B)
      → lookup (id, artifact) s.artifact_buffers ≡ some b
      → IsWf s
      → IsWf
          (complete id a (record s { artifact_buffers = erase (id, artifact) s.artifact_buffers }))
  complete-IsWf id artifact b a s there w =
      let live : lookup id s.pending ≡ some tt = elim (Option-cases (lookup id s.pending)) [
        | inl e ↦
            let off = w.buffers id e in
            let on = lookup-transmits (id, artifact) b s.artifact_buffers there in
            absurd (ground arith)
        | inr (_, e) ↦ e
      ] in
      let event : lookup id s.artifact_events ≡ some tt = w.listed id ∙ live in
      elim (Bool-cases (transmits id (erase (id, artifact) s.artifact_buffers))) [
        | inl e ↦ rw (complete, e) (ended id artifact b _ s there live w true e)
        | inr e ↦ rw (complete, e, event) (ended id artifact b _ s there live w false e)
      ]

  pub end-IsWf :
      (decode : String → Option B) (e : ExtensionArtifactEnd) (s : ExtensionSession J B)
      → IsWf s
      → IsWf (on_artifact_end decode e s)
  unfolding on_artifact_end complete_artifact
  end-IsWf decode e s w =
      elim (Option-cases (lookup (e.request_id, e.artifact_id) s.artifact_buffers)) [
        | inl p ↦ rw (on_artifact_end, complete_artifact, p) w
        | inr (b, p) ↦ elim (Option-cases (decode (join_all b.chunks))) [
          | inl q ↦ rw (on_artifact_end, complete_artifact, p, q) (emptied _)
          | inr (content, q) ↦
              rw (on_artifact_end, complete_artifact, p, q)
                (complete-IsWf e.request_id e.artifact_id b
                  (record { descriptor = b.descriptor; content = content }) s p w)
        ]
      ]
    where
      emptied : (t : ExtensionSession J B) → IsWf (fail_all t)
      emptied t = fail_all-IsWf t
