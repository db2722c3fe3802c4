-- ===== src/Agent/Pass/Keeps.antt =====
-- How a pass ends: it gives up and leaves the agent's database as it was, or all that was pending is
-- with the hub and committed.
use tokemon.Prelude.{
  ◌≡◌, ◌≢◌, ◌⊎◌, refl, ap, ◌∙◌, inl, inr, true, List, [], ◌∷◌, Option, none, some, if◌then◌else◌,
  arith, Bool-cases, Option-cases,
}
use tokemon.Prelude.Texts.{Text, text_eq, trim_space}
use tokemon.Prelude.Maps.{Map}
use tokemon.Usage.Event.{Event}
use tokemon.Database.Ingest.{IngestResult}
use tokemon.Adapters.Source.{Cursor}
use tokemon.Agent.Client.{Outcome, combined, failed, client_ingest}
use tokemon.Agent.State.{
  Digest, pending, save_events, SourceReport, AgentState, CommitError, commit, of_machine,
}
use tokemon.Agent.Pass.{
  Adapter, Hub, AgentConfig, PassError, hub_unhealthy, pending_unreadable, not_committed,
  sources_failed, snapshot_cursors, collected, shown_events, check_health, rejection, upload,
  any_failed, commit_pass, send_pending, run_pass,
}

commit_error :
    (fingerprint_of : Event → Digest) (hash_identity : Text → Text) (machine : Text)
    (committed : Map Cursor) (reports : List SourceReport) (events : List Event) (synced : Text)
    (state : AgentState) (e : CommitError)
    → let (after, error) =
        commit fingerprint_of hash_identity machine committed reports events synced state in
      error ≡ some e → after ≡ state
unfolding commit
commit_error fingerprint_of hash_identity machine committed reports events synced state e h =
    elim (Bool-cases (text_eq (trim_space machine) [])) [
      | inl nameless ↦ rw nameless
      | inr has_name ↦
          elim (Option-cases
            (save_events fingerprint_of synced events (of_machine machine state.events))) [
              | inl refused ↦ rw (has_name, commit) (rw refused)
              | inr (rows, saved) ↦ absurd (ground (arith, h, has_name, saved))
            ]
    ]

module _ {S H : Type 0} (config : AgentConfig) (adapters : List (Adapter S)) (hub : Hub H) where
  open config use {machine_id, fingerprint_of, hash_identity}

  -- Nothing was left to send, or the hub has answered for all that was and rejected none of it.
  abbrev pub Uploaded : H → List Event → Type 0
  Uploaded h left =
      (left ≡ [])
      ⊎ ((result : IngestResult) × (((client_ingest hub.post config.tables config.sha256
                config.encoded_len config.server_url h left).0
              ≡ combined result)
            × (result.rejected ≡ 0)))

  -- What the pass made of the events `left`: the hub has them, and they are committed with the cursors.
  abbrev pub Commits :
      Text → AgentState → H → List SourceReport → List Event → AgentState → H → Type 0
  Commits now state h reports left after next =
      Uploaded h left
      × ((next ≡ (upload config adapters hub h left).1)
          × (commit fingerprint_of hash_identity machine_id
                (snapshot_cursors (of_machine machine_id state.sources)) reports left now state
              ≡ (after, none)))

  abbrev pub Finishes :
      Text
      → AgentState
      → H
      → List SourceReport
      → List Event
      → Option PassError × AgentState × H
      → Type 0
  Finishes now state h reports events (error, after, next) =
      (error ≡ (if any_failed config adapters hub reports then some sources_failed else none))
      × ((left : List Event) × ((pending fingerprint_of (of_machine machine_id state.events) events
              ≡ some left)
            × Commits now state h reports left after next))

  -- An error other than that of a source, and the agent's database as it was.
  abbrev pub GivesUp : AgentState → Option PassError → AgentState → Type 0
  GivesUp state error after =
      ((e : PassError) × ((error ≡ some e) × (e ≢ sources_failed))) × (after ≡ state)

  upload-Uploaded :
      (h : H) (left : List Event) → (upload config adapters hub h left).0 ≡ none → Uploaded h left
  unfolding upload
  upload-Uploaded h [] sent = inl refl
  upload-Uploaded h (e ∷ events) sent = inr (
      accepted
        (client_ingest hub.post config.tables config.sha256 config.encoded_len config.server_url h
          (e ∷ events)).0
        sent)
    where
      accepted :
          (o : Outcome)
          → rejection config adapters hub o ≡ none
          → (result : IngestResult) × ((o ≡ combined result) × (result.rejected ≡ 0))
      accepted (failed error) h = cc
      accepted (combined result) h = (result, (refl, ground (arith, h)))

  upload_error :
      (h : H) (left : List Event) (e : PassError)
      → (upload config adapters hub h left).0 ≡ some e
      → e ≢ sources_failed
  unfolding upload
  upload_error h [] e refused same = cc
  upload_error h (x ∷ events) e refused same =
      rejection_error
        (client_ingest hub.post config.tables config.sha256 config.encoded_len config.server_url h
          (x ∷ events)).0
        (refused ∙ ap some same)
    where
      rejection_error : (o : Outcome) → rejection config adapters hub o ≢ some sources_failed
      rejection_error (failed error) h = cc
      rejection_error (combined result) h = ground (arith, h)

  send_pending-cases :
      (now : Text) (state : AgentState) (h : H) (reports : List SourceReport) (events : List Event)
      → let outcome = send_pending config adapters hub now state h reports events in
        GivesUp state outcome.0 outcome.1 ⊎ Finishes now state h reports events outcome
  unfolding send_pending commit_pass
  send_pending-cases now state h reports events =
      let cursors = snapshot_cursors (of_machine machine_id state.sources) in
      elim (Option-cases (pending fingerprint_of (of_machine machine_id state.events) events)) [
        | inl unreadable ↦
            rw (unreadable, send_pending) (inl ((pending_unreadable, (refl, λ same. cc)), refl))
        | inr (left, found) ↦ elim (Option-cases (upload config adapters hub h left).0) [
          | inr (e, bad) ↦
              rw (found, send_pending) (rw bad (inl ((e, (refl, upload_error h left e bad)), refl)))
          | inl sent ↦
              elim (Option-cases
                (commit fingerprint_of hash_identity machine_id cursors reports left now state).1) [
                  | inr (e, bad) ↦
                      rw (found, send_pending)
                        (rw sent (
                          rw (bad, commit_pass)
                            (inl (
                              (not_committed e, (refl, λ same. cc)),
                              commit_error fingerprint_of hash_identity machine_id cursors reports
                                  left now state e bad,
                            ))))
                  | inl fine ↦
                      rw (found, send_pending)
                        (rw sent (
                          rw (fine, commit_pass)
                            (inr (
                              refl,
                              (
                                left,
                                (
                                  refl,
                                  (
                                    upload-Uploaded h left sent,
                                    (
                                      refl,
                                      ap
                                          (λ e. (
                                            (commit fingerprint_of hash_identity machine_id cursors
                                                reports left now state).0,
                                            e,
                                          ))
                                          fine,
                                    ),
                                  ),
                                ),
                              ),
                            ))))
                ]
        ]
      ]

  -- Every pass either ends with an error other than that of a source and leaves the agent's database as
  -- it was, or the hub is healthy, and all that was pending of what the pass collected is uploaded with
  -- nothing rejected, and committed with the reports; then its error, if any, is that a source failed.
  pub run_pass-keeps :
      (now : Text) (state : AgentState) (h : H) (kept : S)
      → let result = run_pass config adapters hub now state h kept in
        let (healthy, h') = check_health config adapters hub h in
        let found = collected config adapters hub state kept in
        GivesUp state result.0 result.1
        ⊎ ((healthy ≡ true)
            × Finishes now state
                (hub.heartbeat h' found.reports)
                found.reports
                (shown_events config adapters hub found.events)
                (result.0, result.1, result.2))
  unfolding run_pass
  run_pass-keeps now state h kept =
      let (healthy, h') = check_health config adapters hub h in
      let found = collected config adapters hub state kept in
      elim (Bool-cases healthy) [
        | inr sick ↦ rw sick (inl ((hub_unhealthy, (refl, λ same. cc)), refl))
        | inl well ↦
            rw well
              (elim (send_pending-cases now state (hub.heartbeat h' found.reports) found.reports
                (shown_events config adapters hub found.events)) [
                  | inl gave_up ↦ inl gave_up
                  | inr finished ↦ inr (refl, finished)
                ])
      ]
