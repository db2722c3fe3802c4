-- ===== src/Agent/Client/Tests.antt =====
-- The theorems on `Client.Ingest` at a concrete hub, which accepts every event.
use tokemon.Prelude.{ℕ, suc, ◌≡◌, refl, List, [], ◌∷◌, Option, some, length, arith}
use tokemon.Prelude.Texts.{text, text_eq, trim_left, trim_right, trim_space, is_space}
use tokemon.Prelude.Find.{contains_any, contains_rune, has_prefix, contains, lower_rune, to_lower}
use tokemon.Usage.Event.{Event}
use tokemon.Usage.Totals.{sanitize_outbound, validate_token_totals, add_components}
use tokemon.Prelude.Int.{add64, sub64}
use tokemon.Usage.Names.{normalize_session_id, is_safe_session_id}
use tokemon.Usage.Privacy.{
  identifier_contains_sensitive_value, is_drive_path, validate_outbound, refuse_from,
  validate_outbound_batch, validate_approved_metadata,
}
use tokemon.Usage.Samples.{bare_event, sample_tables, sample_digest}
use tokemon.Database.Ingest.{IngestResult, no_result}
use tokemon.Database.Ingest.Commits.{counted}
use tokemon.Agent.Batches.{split_loop, split_ingest_batches, close_full, finish}
use tokemon.Agent.Client.{
  combined, sanitize_outbound_events, add_reply, send_batches, send_sanitized, client_ingest,
}
use tokemon.Agent.Client.Sends.{client_ingest-counted}

-- Its state is the number of requests.
abbrev post : ℕ → List Event → Option IngestResult × ℕ
post requests batch = (some (record no_result { accepted = length batch }), suc requests)

abbrev size : Event → Option ℕ
size e = some 3_000_000

abbrev two : List Event
two = bare_event ∷ bare_event ∷ []

answers :
    (hub : ℕ) (batch : List Event) (reply : IngestResult)
    → (post hub batch).0 ≡ some reply
    → counted reply ≡ length batch
answers hub batch reply h = ground (arith, h)

abbrev both : IngestResult
both = record no_result { accepted = 2 }

two_sent :
    (client_ingest post sample_tables sample_digest size (text "http://hub") 0 two).0
    ≡ combined both
unfolding client_ingest send_sanitized send_batches add_reply sanitize_outbound_events
    sanitize_outbound validate_token_totals add_components add64 sub64 validate_outbound_batch
    refuse_from validate_outbound validate_approved_metadata identifier_contains_sensitive_value
    is_drive_path text_eq contains_any contains_rune contains has_prefix normalize_session_id
    is_safe_session_id trim_space trim_left trim_right is_space to_lower lower_rune
    split_ingest_batches split_loop close_full finish
two_sent = refl

client_ingest-counted_example : counted both ≡ length two
client_ingest-counted_example =
    client_ingest-counted post sample_tables sample_digest size answers (text "http://hub") 0 two
      both two_sent
