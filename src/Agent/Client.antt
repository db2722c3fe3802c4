-- ===== src/Agent/Client.antt =====
-- internal/agent/client.go: `Client.Ingest`, which sanitizes, checks, cuts and posts the pending
-- events and adds up the hub's replies. The hub behind the HTTP request is a parameter: its state,
-- and what a request does to it, a reply or a failure.
pub mod Sends
mod Tests
use tokemon.Prelude.{
  ℕ, ◌+◌, Bool, true, false, ◌||◌, List, [], ◌∷◌, ◌++◌, Option, none, some, if◌then◌else◌, length,
  map, ◌==◌,
}
use tokemon.Prelude.Texts.{Text, text_eq, trim_space}
use tokemon.Prelude.Find.{CaseTables}
use tokemon.Usage.Event.{Event}
use tokemon.Usage.Totals.{sanitize_outbound}
use tokemon.Usage.Privacy.{PrivacyError, validate_outbound_batch}
use tokemon.Database.Ingest.{IngestResult, no_result}
use tokemon.Agent.Batches.{SplitError, Split, ok, err, split_ingest_batches}

pub data ClientError : Type 0 where
  server_url_required events_empty : ClientError
  refused : ℕ → PrivacyError → ClientError
  not_split : SplitError → ClientError
  request_failed : ClientError

pub data Outcome : Type 0 where
  combined : IngestResult → Outcome
  failed : ClientError → Outcome

-- `sanitizeOutboundEvents`
unfoldable pub sanitize_outbound_events : List Event → List Event
sanitize_outbound_events events = map sanitize_outbound events

-- The reply of one request added to what came before; the first one starts the totals.
unfoldable pub add_reply : Bool → IngestResult → IngestResult → IngestResult
add_reply first sum reply = record {
  accepted = sum.accepted + reply.accepted;
  duplicates = sum.duplicates + reply.duplicates;
  rejected = sum.rejected + reply.rejected;
  errors = sum.errors ++ reply.errors;
  previous_stage = if first then reply.previous_stage else sum.previous_stage;
  current_stage = reply.current_stage;
  evolved = sum.evolved || reply.evolved;
  previous_total = if first then reply.previous_total else sum.previous_total;
  current_total = reply.current_total;
}

module _ {H : Type 0} (post : H → List Event → Option IngestResult × H) where
  -- The loop over the batches.
  unfoldable pub send_batches : Bool → IngestResult → H → List (List Event) → Outcome × H
  send_batches first sum hub [] = (combined sum, hub)
  send_batches first sum hub (batch ∷ batches) =
      let (reply, next) = post hub batch in
      elim reply [
        | none ↦ (failed request_failed, next)
        | some result ↦ send_batches false (add_reply first sum result) next batches
      ]

  module _ (tables : CaseTables) (sha256 : Text → List ℕ) (encoded_len : Event → Option ℕ) where
    -- `Ingest` once the events are there and sanitized.
    unfoldable pub send_sanitized : H → List Event → Outcome × H
    send_sanitized hub events = elim (validate_outbound_batch tables sha256 events) [
      | some (index, error) ↦ (failed (refused index error), hub)
      | none ↦ elim (split_ingest_batches encoded_len events) [
        | err error ↦ (failed (not_split error), hub)
        | ok batches ↦ send_batches true no_result hub batches
      ]
    ]

    -- `Client.Ingest`
    unfoldable pub client_ingest : Text → H → List Event → Outcome × H
    unfolding send_sanitized
    client_ingest server_url hub events =
        if text_eq (trim_space server_url) []
        then (failed server_url_required, hub)
        else (if length events == 0
            then (failed events_empty, hub)
            else send_sanitized hub (sanitize_outbound_events events))
