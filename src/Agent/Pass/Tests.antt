-- ===== src/Agent/Pass/Tests.antt =====
-- The theorems on a pass: one that the hub refuses, and one that it accepts.
use tokemon.Prelude.{ℕ, suc, ◌≡◌, ◌⊎◌, refl, List, [], ◌∷◌, Option, some, none, true, false, length}
use mathlib.Core.List.{flatten}
use tokemon.Prelude.Int.{pos, add64, sub64}
use tokemon.Prelude.Texts.{Text, text, text_eq, trim_left, trim_right, trim_space, is_space}
use tokemon.Prelude.Maps.{lookup}
use tokemon.Prelude.Find.{contains_any, contains_rune, has_prefix, contains, lower_rune, to_lower}
use tokemon.Usage.Event.{Event}
use tokemon.Usage.Totals.{sanitize_outbound, validate_token_totals, add_components}
use tokemon.Usage.Names.{normalize_session_id, is_safe_session_id}
use tokemon.Usage.Privacy.{
  identifier_contains_sensitive_value, is_drive_path, validate_outbound, refuse_from,
  validate_outbound_batch, validate_approved_metadata,
}
use tokemon.Usage.Samples.{bare_event, sample_tables, sample_digest}
use tokemon.Database.Ingest.{IngestResult, no_result}
use tokemon.Adapters.Cache.{parsed}
use tokemon.Agent.Batches.{split_loop, split_ingest_batches, close_full, finish}
use tokemon.Agent.Client.{
  request_failed, sanitize_outbound_events, add_reply, send_batches, send_sanitized, client_ingest,
}
use tokemon.Agent.State.{AgentState, of_machine, pending, load_chunks, commit, save_events}
use tokemon.Agent.State.Lookup.{IsDigests}
use tokemon.Agent.State.Sent.{IsDistinct}
use tokemon.Agent.Pass.{
  Adapter, Hub, AgentConfig, PassError, not_uploaded, collect_with_cursors, collected, shown_events,
  check_health, upload, commit_pass, send_pending, run_pass,
}
use tokemon.Agent.Pass.Keeps.{GivesUp, Finishes, run_pass-keeps}
use tokemon.Agent.Pass.Done.{IsDone, logged_hub, run_pass-done}

-- One log with two events; the adapter counts its parses.
abbrev log_adapter : Adapter ℕ
log_adapter = record {
  id = text "codex";
  discover = λ n. (some (record { path = text "log"; identity = text "id" } ∷ []), n);
  parse = λ n source machine cursor. (
    parsed (record {
      events = bare_event ∷ record bare_event { event_id = text "event-2" } ∷ [];
      cursor = record { identity = text "id"; offset = pos 7; line = pos 2; state = [] };
    }),
    suc n,
  );
}

abbrev config : AgentConfig
config = record {
  server_url = text "http://hub";
  machine_id = text "laptop";
  include_projects = false;
  tables = sample_tables;
  sha256 = sample_digest;
  encoded_len = λ e. some 300;
  fingerprint_of = λ e. sample_digest e.event_id;
  hash_identity = λ t. t;
}

abbrev hub_that : (List Event → Option IngestResult) → Hub ℕ
hub_that answer = record {
  healthy = λ n. (true, n);
  heartbeat = λ n reports. n;
  post = λ n batch. (answer batch, suc n);
}

abbrev closed_hub : Hub ℕ
closed_hub = hub_that (λ batch. none)

abbrev open_hub : Hub ℕ
open_hub = hub_that (λ batch. some (record no_result { accepted = length batch }))

abbrev empty_state : AgentState
empty_state = record { sources = []; events = [] }

abbrev now : Text
now = text "2026-01-02T00:00:00Z"

refused :
    (run_pass config (log_adapter ∷ []) closed_hub now empty_state 0 0).0
    ≡ some (not_uploaded request_failed)
unfolding run_pass check_health collected collect_with_cursors shown_events send_pending upload
    pending load_chunks lookup client_ingest send_sanitized send_batches add_reply
    sanitize_outbound_events sanitize_outbound validate_token_totals add_components add64 sub64
    validate_outbound_batch refuse_from validate_outbound validate_approved_metadata
    identifier_contains_sensitive_value is_drive_path text_eq contains_any contains_rune contains
    has_prefix normalize_session_id is_safe_session_id trim_space trim_left trim_right is_space
    to_lower lower_rune split_ingest_batches split_loop close_full finish
refused = refl

abbrev first_pass : Option PassError × AgentState × ℕ × ℕ
first_pass = run_pass config (log_adapter ∷ []) open_hub now empty_state 0 0

run_pass-keeps_example :
    let (healthy, hub) = check_health config (log_adapter ∷ []) open_hub 0 in
    let found = collected config (log_adapter ∷ []) open_hub empty_state 0 in
    GivesUp config (log_adapter ∷ []) open_hub empty_state first_pass.0 first_pass.1
    ⊎ ((healthy ≡ true)
        × Finishes config
            (log_adapter ∷ [])
            open_hub
            now
            empty_state
            (open_hub.heartbeat hub found.reports)
            found.reports
            (shown_events config (log_adapter ∷ []) open_hub found.events)
            (first_pass.0, first_pass.1, first_pass.2))
run_pass-keeps_example = run_pass-keeps config (log_adapter ∷ []) open_hub now empty_state 0 0

no_rows : IsDigests (of_machine (text "laptop") empty_state.events)
unfolding lookup
no_rows id row h = cc

distinct : IsDistinct (
    shown_events config
      (log_adapter ∷ [])
      (logged_hub open_hub)
      (collected config (log_adapter ∷ []) (logged_hub open_hub) empty_state 0).events)
unfolding shown_events collected collect_with_cursors text_eq
distinct = (refl, (refl, tt))

done : IsDone (run_pass config (log_adapter ∷ []) (logged_hub open_hub) now empty_state (0, []) 0).0
unfolding run_pass check_health collected collect_with_cursors shown_events send_pending upload
    pending load_chunks lookup client_ingest send_sanitized send_batches add_reply
    sanitize_outbound_events sanitize_outbound validate_token_totals add_components add64 sub64
    validate_outbound_batch refuse_from validate_outbound validate_approved_metadata
    identifier_contains_sensitive_value is_drive_path text_eq contains_any contains_rune contains
    has_prefix normalize_session_id is_safe_session_id trim_space trim_left trim_right is_space
    to_lower lower_rune split_ingest_batches split_loop close_full finish commit_pass commit
    save_events
done = tt

run_pass-done_example :
    let (_, after, (_, log), _) =
      run_pass config (log_adapter ∷ []) (logged_hub open_hub) now empty_state (0, []) 0 in
    let events =
      shown_events config
        (log_adapter ∷ [])
        (logged_hub open_hub)
        (collected config (log_adapter ∷ []) (logged_hub open_hub) empty_state 0).events in
    ((left : List Event) × ((pending config.fingerprint_of
            (of_machine (text "laptop") empty_state.events)
            events
          ≡ some left)
        × (flatten log ≡ sanitize_outbound_events left)))
    × (pending config.fingerprint_of (of_machine (text "laptop") after.events) events ≡ some [])
run_pass-done_example =
    run_pass-done config (log_adapter ∷ []) open_hub (λ e. refl) now empty_state 0 0 no_rows
      distinct done
