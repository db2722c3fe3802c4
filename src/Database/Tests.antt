-- ===== src/Database/Tests.antt =====
-- The theorems on the database at concrete rows and events.
use tokemon.Prelude.{
  suc, ◌+◌, ◌*◌, ◌≡◌, ◌⊎◌, refl, Option, true, List, [], ◌∷◌, none, some, arith, length, any,
}
use tokemon.Prelude.Int.{pos, ◌+ℤ◌, add64, sub64}
use tokemon.Prelude.Texts.{
  Text, text, text_eq, byte_len, is_space, is_control, trim_left, trim_right, trim_space,
}
use tokemon.Prelude.Find.{
  contains_any, contains_rune, has_prefix, contains, replace_rune, lower_rune, upper_rune, to_lower,
  to_upper,
}
use tokemon.Prelude.Maps.{Map, lookup}
use tokemon.Prelude.Floats.{FloatOps, float_one}
use tokemon.Usage.Event.{Event, Time, accuracy_valid}
use tokemon.Usage.Totals.{validate_token_totals, add_components}
use tokemon.Usage.Names.{split_on, last_part, label_of, normalize_project}
use tokemon.Usage.Metadata.{validate_metadata, validate_fields, validate_metadata_key}
use tokemon.Usage.Validate.{
  validate_text, validate_event_id_digest, bad_currency_code, check_metadata, check_identity,
  check_labels, check_numbers, check_source, validate_at, is_ascii_alpha,
}
use tokemon.Usage.Samples.{sample_event, sample_tables, sample_len}
use tokemon.Database.Clock.{format_utc, stamp, date_of_days}
use tokemon.Database.Machines.{Machine, text_gt, upsert_machine, first_seen}
use tokemon.Database.Machines.Order.{upsert_machine_goes_back}
use tokemon.Database.Rows.{Row, Rows, collides, has_id, insert_or_ignore}
use tokemon.Database.Rows.Apart.{Apart}
use tokemon.Database.Ingest.{
  Store, IngestResult, sum_overflow, going, lifetime_tokens, sum_tokens, usage_event_args,
  without_aggregates, is_aggregate_codex_event, store_event, ingest_event, ingest_loop, ingest,
  refresh_usage_event, begin,
}
use tokemon.Database.Ingest.Refresh.{Holds, refresh_usage_event-Holds}
use tokemon.Database.Ingest.Commits.{
  CountsOnce, SameCounts, counted, cleared, store_event-Holds, ingest-commits,
}
use tokemon.Database.Ingest.Again.{ingest_event_again}
use tokemon.Database.Heartbeat.{
  AgentSourceHealth, AgentHeartbeat, Fleet, health_row, check_heartbeat, record_heartbeat,
  normalize_adapter_ids, collect_adapter_ids, add_adapter_id, sort_strings, insert_string,
  join_comma, split_adapter_ids,
}
use tokemon.Database.Heartbeat.Tables.{find_health}
use tokemon.Database.Heartbeat.Health.{Describes, Follows, record_heartbeat-health}
use tokemon.Database.Heartbeat.Adapters.{split_adapter_ids-join_comma}

format_fraction : format_utc (pos 1_700_000_000_500_000_000) ≡ text "2023-11-14T22:13:20.5Z"
unfolding format_utc stamp date_of_days ◌+ℤ◌ trim_right
format_fraction = refl

format_leap_day : format_utc (pos 951_782_400_000_000_000) ≡ text "2000-02-29T00:00:00Z"
unfolding format_utc stamp date_of_days ◌+ℤ◌ trim_right
format_leap_day = refl

abbrev floats : FloatOps
floats = record {
  float_add = λ x y. x;
  float_mul = λ x y. x;
  float_div = λ x y. x;
  float_of_int = λ i. float_one;
}

abbrev stored : Row
stored = usage_event_args sample_tables sample_len floats none sample_event

abbrev store : Store
store = record { rows = stored ∷ []; machines = [] }

store-Apart : Apart store.rows
store-Apart = (refl, tt)

-- The sum in the store: one row of 160 tokens.
store_total : lifetime_tokens store ≡ some (pos 160)
unfolding lifetime_tokens sum_tokens usage_event_args ◌+ℤ◌
store_total = refl

abbrev renamed : Event
renamed = record sample_event { event_id = text "event-2" }

abbrev events : List Event
events = sample_event ∷ renamed ∷ []

ingest-commits_example :
    let (next, outcome) =
      ingest sample_tables sample_len floats none
        (λ n. pos 1_700_000_000_000_000_001)
        events
        store in
    ((last : IngestResult) × ((ingest_loop sample_tables sample_len floats none
            (λ n. pos 1_700_000_000_000_000_001)
            0
            events
            store
            (begin (pos 160))
          ≡ going next last)
        × SameCounts last outcome.0))
    × (Apart next.rows
        × ((counted outcome.0 ≡ length events)
            × (((lifetime_tokens next ≡ none) × (outcome.1 ≡ some sum_overflow))
                ⊎ ((lifetime_tokens next ≡ some outcome.0.current_total) × (outcome.1 ≡ none)))))
ingest-commits_example =
    ingest-commits sample_tables sample_len floats none (λ n. pos 1_700_000_000_000_000_001) events
      store (pos 160) store-Apart store_total

stored_twice : any (collides stored) (stored ∷ []) ≡ true
unfolding collides has_id text_eq usage_event_args
stored_twice = refl

refresh_usage_event-Holds_example :
    (rows' : Rows) × ((refresh_usage_event stored (stored ∷ []) ≡ some (rows', true))
      × Holds stored (stored ∷ []) rows')
refresh_usage_event-Holds_example =
    refresh_usage_event-Holds stored (stored ∷ []) stored_twice store-Apart

abbrev empty_store : Store
empty_store = record { rows = []; machines = [] }

abbrev first_store : Store
first_store = record {
  rows = stored ∷ [];
  machines = upsert_machine sample_event sample_event.machine_id [];
}

first_ingest :
    ingest_event sample_tables sample_len floats none 0
      (pos 1_700_000_000_000_000_001)
      sample_event
      empty_store
      (begin (pos 0))
    ≡ going first_store (record (begin (pos 0)) { accepted = 1 })
unfolding ingest_event store_event insert_or_ignore without_aggregates is_aggregate_codex_event
    normalize_project split_on last_part label_of replace_rune validate_at check_identity
    check_labels check_numbers check_source check_metadata validate_token_totals add_components
    validate_text validate_event_id_digest bad_currency_code is_ascii_alpha accuracy_valid
    contains_any contains_rune to_upper upper_rune text_eq trim_space trim_left trim_right is_space
    is_control byte_len has_prefix add64 sub64 ◌+ℤ◌ validate_metadata validate_fields
    validate_metadata_key to_lower lower_rune contains
first_ingest = refl

ingest_event_again_example :
    (after' : IngestResult) × ((ingest_event sample_tables sample_len floats none 7
          (pos 1_700_000_000_000_000_001)
          sample_event
          first_store
          (begin (pos 0))
        ≡ going first_store after')
      × (counted after' ≡ suc (counted (begin (pos 0)))))
ingest_event_again_example =
    ingest_event_again sample_tables sample_len floats none 0 (pos 1_700_000_000_000_000_001)
      sample_event empty_store first_store (begin (pos 0)) (record (begin (pos 0)) { accepted = 1 })
      tt first_ingest 7 (begin (pos 0))

abbrev laptop : Machine
laptop = first_seen (text "laptop") (format_utc (pos (1_700_000_000 * 1_000_000_000 + 500_000_000)))

abbrev laptops : Map Machine
laptops = (text "laptop", laptop) ∷ []

laptop-lookup : lookup sample_event.machine_id laptops ≡ some laptop
unfolding lookup text_eq
laptop-lookup = refl

upsert_machine_goes_back_example :
    (after : Machine) × ((lookup sample_event.machine_id
          (upsert_machine sample_event (text "laptop") laptops)
        ≡ some after)
      × (after.last_seen_at ≡ format_utc sample_event.timestamp))
upsert_machine_goes_back_example =
    upsert_machine_goes_back sample_event (text "laptop") laptops laptop 1_700_000_000 500_000_000
      (omega arith) (omega arith) laptop-lookup refl refl

store_event-Holds_example :
    (next : Store) × ((after : IngestResult) × ((store_event sample_tables sample_len floats none
            renamed store
            (begin (pos 0))
          ≡ going next after)
        × (CountsOnce
              (usage_event_args sample_tables sample_len floats none renamed)
              (cleared renamed store.rows)
              (begin (pos 0))
              after
            × ((next.machines ≡ upsert_machine renamed renamed.machine_id store.machines)
                × Holds
                    (usage_event_args sample_tables sample_len floats none renamed)
                    (cleared renamed store.rows)
                    next.rows))))
store_event-Holds_example =
    store_event-Holds sample_tables sample_len floats none renamed store (begin (pos 0)) store-Apart

-- A heartbeat that reports one source, twice, of a machine that reported another before.
abbrev health : Text → Option Time → AgentSourceHealth
health hash synced = record {
  adapter = text "codex";
  source_hash = hash;
  last_successful_sync = synced;
  last_error_class = [];
}

abbrev beat : AgentHeartbeat
beat = record {
  machine_id = text "laptop";
  agent_version = text "0.3.1";
  operating_system = text "linux";
  architecture = [];
  adapters = text " codex" ∷ text "claude" ∷ text "codex" ∷ [];
  source_count = pos 1;
  source_error_count = pos 0;
  sources =
      some (health (text "a") none ∷ health (text "a") (some (pos 1_700_000_000_000_000_000)) ∷ []);
}

abbrev fleet : Fleet
fleet = record {
  machines = (text "laptop", first_seen (text "laptop") (text "2023-11-14T22:13:20Z")) ∷ [];
  health = health_row (text "laptop") (text "2023-11-14T22:13:20Z") (health (text "b") none) ∷ [];
}

beat-accepted : (record_heartbeat (pos 1_700_000_060_000_000_000) beat fleet).1 ≡ none
unfolding record_heartbeat check_heartbeat text_eq trim_space trim_left trim_right is_space
beat-accepted = refl

record_heartbeat-health_example :
    let next = (record_heartbeat (pos 1_700_000_060_000_000_000) beat fleet).0 in
    let now = format_utc (pos 1_700_000_060_000_000_000) in
    ((after : Machine) × ((lookup (text "laptop") next.machines ≡ some after)
        × Describes beat now (lookup (text "laptop") fleet.machines) after))
    × (((m : Text) → (m ≡ text "laptop") ⊎ (lookup m next.machines ≡ lookup m fleet.machines))
        × ((m a k : Text)
            → Follows beat now m a k
                (find_health m a k fleet.health)
                (find_health m a k next.health)))
record_heartbeat-health_example =
    record_heartbeat-health (pos 1_700_000_060_000_000_000) beat fleet beat-accepted

adapters_sorted : normalize_adapter_ids beat.adapters ≡ text "claude" ∷ text "codex" ∷ []
unfolding normalize_adapter_ids collect_adapter_ids add_adapter_id sort_strings insert_string
    text_gt text_eq trim_space trim_left trim_right is_space
adapters_sorted = refl

split_adapter_ids-join_comma_example :
    split_adapter_ids (join_comma (normalize_adapter_ids beat.adapters))
    ≡ normalize_adapter_ids beat.adapters
split_adapter_ids-join_comma_example =
    split_adapter_ids-join_comma beat.adapters (refl, (refl, (refl, tt)))
