-- ===== src/Api/Hub/Replies.antt =====
-- internal/api/server.go: what a post to `ingest` can do to the hub's store.
use tokemon.Prelude.{
  ℕ, ◌≡◌, ◌⊎◌, ◌<◌, refl, false, List, Option, none, inl, inr, arith, Bool-cases, length, ◌+◌,
  Option-cases, sum_cases,
}
use tokemon.Prelude.Texts.{Text}
use tokemon.Prelude.Find.{CaseTables}
use tokemon.Prelude.Floats.{FloatOps}
use tokemon.Usage.Event.{Event, Time, Fields}
use tokemon.Catalog.{Catalog}
use tokemon.Database.Ingest.{Store, ingest}
use tokemon.Api.Auth.{NetTools, Credentials, Config, validate_serve_config, ingest_authorized}
use tokemon.Api.Auth.Guard.{Presents, IsLocal, ingest_authorized-guarded}
use tokemon.Api.Hub.{
  Codecs, Post, Hub, Reply, ApiError, refused, count_out_of_range, batch_too_large, event_invalid,
  BodyError, invalid_gzip, body_read, body_too_large, invalid_json, body_status, invalid_batch,
  invalid_ingest_token, reject_ingest, bad_count, oversized, first_invalid, persist, ingest_batch,
  read_post, ingest_handler, decode_json_body, max_decompressed_body_bytes,
}

-- The reply reports an error of the caller, and the store is as it was.
abbrev pub Refuses : Store → Hub × Reply → Type 0
Refuses before (next, reply) =
    (next.store ≡ before)
    × ((status : ℕ) × ((error : ApiError) × ((reply ≡ refused status error) × (status < 500))))

reject_ingest-Refuses :
    (status : ℕ) (error : ApiError) (count : ℕ) (hub : Hub)
    → status < 500
    → Refuses hub.store (reject_ingest status error count hub)
unfolding reject_ingest
reject_ingest-Refuses status error count hub h = (refl, (status, (error, (refl, h))))

pub body_status_below : (error : BodyError) → body_status error < 500
body_status_below invalid_gzip = omega arith
body_status_below body_read = omega arith
body_status_below body_too_large = omega arith
body_status_below invalid_json = omega arith

module _ (tables : CaseTables) (metadata_len : Fields → Option ℕ) (floats : FloatOps)
    (catalog : Option Catalog) where
  abbrev pub Ingests : (ℕ → Time) → (ℕ → Time) → List Event → Store → Hub × Reply → Type 0
  Ingests clock later events before (next, _) =
      (bad_count events ≡ false)
      × (first_invalid tables metadata_len clock 0 events ≡ none)
      × (next.store ≡ (ingest tables metadata_len floats catalog later events before).0)

  persist-store :
      (later : ℕ → Time) (events : List Event) (hub : Hub)
      → (persist tables metadata_len floats catalog later events hub).0.store
        ≡ (ingest tables metadata_len floats catalog later events hub.store).0
  unfolding persist
  persist-store later events hub =
      elim (Option-cases (ingest tables metadata_len floats catalog later events hub.store).1.1) [
        | inl kept ↦ rw (kept, persist) refl
        | inr (error, failed) ↦ rw (failed, persist) refl
      ]

  pub ingest_batch-cases :
      (codecs : Codecs (List Event)) (clock later : ℕ → Time) (events : List Event) (hub : Hub)
      → let outcome =
          ingest_batch tables metadata_len floats catalog codecs clock later events hub in
        Refuses hub.store outcome ⊎ Ingests clock later events hub.store outcome
  unfolding ingest_batch
  ingest_batch-cases codecs clock later events hub =
      let refuse = λ (status : ℕ) (error : ApiError) (below : status < 500).
        reject_ingest-Refuses status error (length events) hub below in
      elim (Bool-cases (bad_count events)) [
        | inl bad ↦ rw bad (inl (refuse 400 count_out_of_range (omega arith)))
        | inr fits ↦ elim (Bool-cases (oversized (codecs.encoded_len events))) [
          | inl big ↦ rw fits (rw big (inl (refuse 413 batch_too_large (omega arith))))
          | inr small ↦ elim (Option-cases (first_invalid tables metadata_len clock 0 events)) [
            | inr (index, bad) ↦
                rw fits
                  (rw small (rw bad (inl (refuse 400 (event_invalid (index + 1)) (omega arith)))))
            | inl good ↦
                rw fits (rw small (rw good (inr (refl, refl, persist-store later events hub))))
          ]
        ]
      ]

  module _ {Ip : Type 0} (net : NetTools Ip) (tools : Credentials)
      (codecs : Codecs (List Event)) where
    read_post-cases :
        (clock later : ℕ → Time) (p : Post) (hub : Hub)
        → let outcome =
            read_post tables metadata_len floats catalog net tools codecs clock later p hub in
          Refuses hub.store outcome
          ⊎ ((events : List Event) × ((decode_json_body codecs max_decompressed_body_bytes p
                  ≡ inl events)
                × Ingests clock later events hub.store outcome))
    unfolding read_post
    read_post-cases clock later p hub =
        elim (sum_cases (decode_json_body codecs max_decompressed_body_bytes p)) [
          | inr (error, bad) ↦
              rw (bad, read_post)
                (inl (
                  reject_ingest-Refuses (body_status error) invalid_batch 1 hub
                    (body_status_below error)))
          | inl (events, decoded) ↦
              rw (decoded, read_post)
                (elim (ingest_batch-cases codecs clock later events hub) [
                  | inl refuses ↦ inl refuses
                  | inr ingests ↦ inr (events, (refl, ingests))
                ])
        ]

    -- A hub whose settings passed `ValidateServeConfig` answers any post to `ingest` in one of two
    -- ways. Either the store is as it was and the reply is an error below 500; or the request
    -- presents the configured token, or is a loopback request to a hub in development mode without a
    -- token, the body decodes to 1 to 1000 events that `Validate` accepts, and the store is what
    -- `Ingest` makes of these events.
    pub ingest_handler-guarded :
        (addr : Text) (c : Config Ip) (clock later : ℕ → Time) (p : Post) (hub : Hub)
        → validate_serve_config net addr c.ingest_token c.allow_loopback_dev ≡ none
        → let outcome =
            ingest_handler tables metadata_len floats catalog net tools codecs c clock later p
              hub in
          Refuses hub.store outcome
          ⊎ ((Presents tools p.request c.ingest_token ⊎ IsLocal tools net addr c p.request)
              × ((events : List Event) × ((decode_json_body codecs max_decompressed_body_bytes p
                      ≡ inl events)
                    × Ingests clock later events hub.store outcome)))
    unfolding ingest_handler
    ingest_handler-guarded addr c clock later p hub started =
        let authorized = ingest_authorized tools net c p.request in
        elim (Bool-cases authorized) [
          | inr no_right ↦
              rw no_right (inl (reject_ingest-Refuses 401 invalid_ingest_token 1 _ (omega arith)))
          | inl right ↦
              let who = ingest_authorized-guarded tools net addr c p.request started right in
              rw right (elim (read_post-cases clock later p _) [
                | inl refuses ↦ inl refuses
                | inr reads ↦ inr (who, reads)
              ])
        ]
