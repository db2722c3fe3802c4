-- ===== src/Agent/Client/Sends.antt =====
-- What `Client.Ingest` sends, and that it accounts for every event.
use tokemon.Prelude.{
  ℕ, ◌+◌, ◌≡◌, ◌≢◌, refl, sym, ◌∙◌, ap, subst, Bool, true, false, List, [], ◌∷◌, ◌++◌, Option, none,
  some, arith, inl, inr, Bool-cases, Option-cases, length, ◌==◌, length-append, append-nil,
  append_assoc, ◌⊎◌, All,
}
use mathlib.Core.List.{flatten}
use tokemon.Prelude.Texts.{Text, text_eq, trim_space}
use tokemon.Prelude.Find.{CaseTables}
use tokemon.Usage.Event.{Event}
use tokemon.Usage.Privacy.{validate_outbound_batch}
use tokemon.Database.Ingest.{IngestResult, no_result}
use tokemon.Database.Ingest.Commits.{counted}
use tokemon.Agent.Batches.{SplitError, Split, ok, err, split_ingest_batches}
use tokemon.Agent.Batches.Partition.{IsBatch, split_ingest_batches-partition}
use tokemon.Agent.Client.{
  Outcome, combined, failed, refused, not_split, sanitize_outbound_events, add_reply, send_batches,
  send_sanitized, client_ingest,
}

Split-cases :
    (s : Split)
    → ((batches : List (List Event)) × (s ≡ ok batches)) ⊎ ((e : SplitError) × (s ≡ err e))
Split-cases (ok batches) = inl (batches, refl)
Split-cases (err e) = inr (e, refl)

length-sanitize : (events : List Event) → length (sanitize_outbound_events events) ≡ length events
unfolding sanitize_outbound_events
length-sanitize [] = refl
length-sanitize (e ∷ events) = omega (arith, length-sanitize events)

counted-add_reply :
    (first : Bool) (sum reply : IngestResult)
    → counted (add_reply first sum reply) ≡ counted sum + counted reply
unfolding add_reply
counted-add_reply first sum reply = omega arith

module _ {H : Type 0} (post : H → List Event → Option IngestResult × H) where
  -- The hub that also writes down the batches it is sent, in order.
  abbrev pub logged :
      H × List (List Event) → List Event → Option IngestResult × (H × List (List Event))
  logged (hub, log) batch =
      let (reply, next) = post hub batch in (reply, (next, log ++ (batch ∷ [])))

  -- The log after the loop: the batches up to the first that fails, and all of them if none does.
  abbrev Logs : List (List Event) → List (List Event) → Outcome × (H × List (List Event)) → Type 0
  Logs log batches (outcome, (hub, after)) =
      (sent : List (List Event)) × ((unsent : List (List Event)) × ((after ≡ log ++ sent)
          × ((batches ≡ sent ++ unsent)
              × ((result : IngestResult) → outcome ≡ combined result → unsent ≡ []))))

  send_batches-Logs :
      (first : Bool) (sum : IngestResult) (hub : H) (log batches : List (List Event))
      → Logs log batches (send_batches logged first sum (hub, log) batches)
  unfolding send_batches
  send_batches-Logs first sum hub log [] = ([], ([], (sym (append-nil log), (refl, λ _ _. refl))))
  send_batches-Logs first sum hub log (batch ∷ batches) = elim (Option-cases (post hub batch).0) [
    | inl down ↦ rw (down, send_batches) (batch ∷ [], (batches, (refl, (refl, λ result e. cc))))
    | inr (reply, up) ↦
        let (sent, (unsent, (after, (whole, done)))) =
          send_batches-Logs false (add_reply first sum reply) (post hub batch).1
            (log ++ (batch ∷ [])) batches in
        rw (up, send_batches)
          (
            batch ∷ sent,
            (
              unsent,
              (
                after ∙ append_assoc log (batch ∷ []) sent,
                (ap (λ (t : List (List Event)). batch ∷ t) whole, done),
              ),
            ),
          )
  ]

  -- If every reply accounts for the events of its request, so does the combined result.
  send_batches-counted :
      (answers : (hub : H) (batch : List Event) (reply : IngestResult)
        → (post hub batch).0 ≡ some reply
        → counted reply ≡ length batch)
      (first : Bool) (sum : IngestResult) (hub : H) (batches : List (List Event))
      (result : IngestResult)
      → (send_batches post first sum hub batches).0 ≡ combined result
      → counted result ≡ counted sum + length (flatten batches)
  unfolding send_batches flatten
  send_batches-counted answers first sum hub [] result h =
      let same : sum ≡ result = cc in rw same (omega arith)
  send_batches-counted answers first sum hub (batch ∷ batches) result h =
      elim (Option-cases (post hub batch).0) [
        | inl down ↦ absurd (ground (arith, h, down))
        | inr (reply, up) ↦
            let step : (send_batches post first sum hub (batch ∷ batches)).0
                ≡ (send_batches post false (add_reply first sum reply) (post hub batch).1
                    batches).0 =
              rw (up, send_batches) in
            let rest =
              send_batches-counted answers false (add_reply first sum reply) (post hub batch).1
                batches result (sym step ∙ h) in
            omega (
              arith,
              rest,
              counted-add_reply first sum reply,
              answers hub batch reply up,
              length-append batch (flatten batches),
            )
      ]

  module _ (tables : CaseTables) (sha256 : Text → List ℕ) (encoded_len : Event → Option ℕ) where
    -- Nothing was sent and the upload failed; or what was sent is the first of the batches that the
    -- events were cut into, and all of them if the upload succeeded.
    abbrev pub Sends : List Event → Outcome × (H × List (List Event)) → Type 0
    Sends events (outcome, (_, log)) =
        ((log ≡ []) × ((result : IngestResult) → outcome ≢ combined result))
        ⊎ ((validate_outbound_batch tables sha256 events ≡ none)
            × ((unsent : List (List Event)) × ((split_ingest_batches encoded_len events
                    ≡ ok (log ++ unsent))
                  × ((flatten (log ++ unsent) ≡ events)
                      × (All (IsBatch encoded_len) (log ++ unsent)
                          × ((result : IngestResult) → outcome ≡ combined result → unsent ≡ []))))))

    send_sanitized-Sends :
        (hub : H) (events : List Event)
        → Sends events (send_sanitized logged tables sha256 encoded_len (hub, []) events)
    unfolding send_sanitized
    send_sanitized-Sends hub events =
        elim (Option-cases (validate_outbound_batch tables sha256 events)) [
          | inr ((index, error), bad) ↦
              let opened : send_sanitized logged tables sha256 encoded_len (hub, []) events
                  ≡ (failed (refused index error), (hub, [])) =
                rw (bad, send_sanitized) in
              subst (Sends events) (sym opened) (inl (refl, λ result. cc))
          | inl good ↦ elim (Split-cases (split_ingest_batches encoded_len events)) [
            | inr (error, uncut) ↦
                let opened : send_sanitized logged tables sha256 encoded_len (hub, []) events
                    ≡ (failed (not_split error), (hub, [])) =
                  rw (good, send_sanitized) (rw uncut) in
                subst (Sends events) (sym opened) (inl (refl, λ result. cc))
            | inl (batches, cut) ↦
                let (sent, (unsent, (after, (whole, done)))) =
                  send_batches-Logs true no_result hub [] batches in
                let (joined, fit) = split_ingest_batches-partition encoded_len events batches cut in
                rw (good, send_sanitized)
                  (rw cut (
                    rw after (
                      inr (
                        refl,
                        (
                          unsent,
                          (
                            ap ok whole,
                            (
                              ap flatten (sym whole) ∙ joined,
                              (subst (λ t. All (IsBatch encoded_len) t) whole fit, done),
                            ),
                          ),
                        ),
                      ))))
          ]
        ]

    pub client_ingest-sends :
        (server_url : Text) (hub : H) (events : List Event)
        → let (outcome, (_, log)) =
            client_ingest logged tables sha256 encoded_len server_url (hub, []) events in
          let sanitized = sanitize_outbound_events events in
          ((log ≡ []) × ((result : IngestResult) → outcome ≢ combined result))
          ⊎ ((validate_outbound_batch tables sha256 sanitized ≡ none)
              × ((unsent : List (List Event)) × ((split_ingest_batches encoded_len sanitized
                      ≡ ok (log ++ unsent))
                    × ((flatten (log ++ unsent) ≡ sanitized)
                        × (All (IsBatch encoded_len) (log ++ unsent)
                            × ((result : IngestResult)
                                → outcome ≡ combined result
                                → unsent ≡ []))))))
    unfolding client_ingest
    client_ingest-sends server_url hub events =
        elim (Bool-cases (text_eq (trim_space server_url) [])) [
          | inl no_server ↦ rw no_server (inl (refl, λ result. cc))
          | inr server ↦ elim (Bool-cases (length events == 0)) [
            | inl no_events ↦ rw server (rw no_events (inl (refl, λ result. cc)))
            | inr some_events ↦
                rw server
                  (rw some_events (send_sanitized-Sends hub (sanitize_outbound_events events)))
          ]
        ]

    send_sanitized-counted :
        (answers : (hub : H) (batch : List Event) (reply : IngestResult)
          → (post hub batch).0 ≡ some reply
          → counted reply ≡ length batch)
        (hub : H) (events : List Event) (result : IngestResult)
        → (send_sanitized post tables sha256 encoded_len hub events).0 ≡ combined result
        → counted result ≡ length events
    unfolding send_sanitized
    send_sanitized-counted answers hub events result h =
        elim (Option-cases (validate_outbound_batch tables sha256 events)) [
          | inr (error, bad) ↦ absurd (ground (arith, h, bad))
          | inl good ↦ elim (Split-cases (split_ingest_batches encoded_len events)) [
            | inr (error, uncut) ↦ absurd (ground (arith, h, good, uncut))
            | inl (batches, cut) ↦
                let opened : (send_sanitized post tables sha256 encoded_len hub events).0
                    ≡ (send_batches post true no_result hub batches).0 =
                  rw (good, send_sanitized) (rw cut) in
                let sum =
                  send_batches-counted answers true no_result hub batches result (sym opened ∙ h) in
                let whole = (split_ingest_batches-partition encoded_len events batches cut).0 in
                omega (arith, sum, ap (λ (t : List Event). length t) whole)
          ]
        ]

    -- If the hub accounts in each reply for the events of the request, a successful upload accounts for
    -- every event: it is accepted, a duplicate or rejected.
    pub client_ingest-counted :
        (answers : (hub : H) (batch : List Event) (reply : IngestResult)
          → (post hub batch).0 ≡ some reply
          → counted reply ≡ length batch)
        (server_url : Text) (hub : H) (events : List Event) (result : IngestResult)
        → (client_ingest post tables sha256 encoded_len server_url hub events).0 ≡ combined result
        → counted result ≡ length events
    unfolding client_ingest
    client_ingest-counted answers server_url hub events result h =
        elim (Bool-cases (text_eq (trim_space server_url) [])) [
          | inl no_server ↦ absurd (ground (arith, h, no_server))
          | inr server ↦ elim (Bool-cases (length events == 0)) [
            | inl no_events ↦ absurd (ground (arith, h, server, no_events))
            | inr some_events ↦
                let sent : (send_sanitized post tables sha256 encoded_len hub
                      (sanitize_outbound_events events)).0
                    ≡ combined result =
                  ground (arith, h, server, some_events) in
                send_sanitized-counted answers hub (sanitize_outbound_events events) result sent
                ∙ length-sanitize events
          ]
        ]
