-- ===== src/Usage/Samples.antt =====
-- Test data: an event as the Codex adapter produces it, and concrete library functions.
use tokemon.Prelude.{ℕ, false, Option, none, some, List, [], ◌∷◌}
use tokemon.Prelude.Int.{pos}
use tokemon.Prelude.Texts.{Text, text}
use tokemon.Prelude.Find.{CaseTables}
use tokemon.Usage.Event.{
  Event, Source, Fields, no_fields, field, integer, object, accuracy_reported,
}

abbrev pub sample_source : Source
sample_source = record {
  adapter = text "codex";
  adapter_version = text "1";
  identity = text "rollout";
  offset = pos 512;
}

abbrev pub sample_metadata : Fields
sample_metadata =
    field (text "turn") (integer (pos 3)) (field (text "limits") (object no_fields) no_fields)

abbrev pub sample_event : Event
sample_event = record {
  schema_version = text "1";
  event_id = text "event-1";
  timestamp = pos 1_700_000_000_000_000_000;
  machine_id = text "laptop";
  session_id = text "session-1";
  project = text "tokemon";
  provider = text "openai";
  model = text "gpt-5";
  canonical_model = [];
  tool = text "codex";
  input_tokens = some (pos 100);
  output_tokens = some (pos 20);
  cache_read_tokens = some (pos 40);
  cache_write_tokens = none;
  reasoning_tokens = some (pos 5);
  total_tokens = some (pos 160);
  duration_ms = none;
  cost = none;
  cost_estimated = false;
  currency = text "USD";
  token_accuracy = accuracy_reported;
  source = sample_source;
  metadata = some sample_metadata;
}

-- Case mapping that knows one letter beyond ASCII: É is U+00C9, é is U+00E9.
abbrev pub sample_tables : CaseTables
sample_tables = record { lower_beyond_ascii = λ c. 0xE9; upper_beyond_ascii = λ c. 0xC9 }

abbrev pub sample_digest : Text → List ℕ
sample_digest _ =
    0 ∷ 1 ∷ 2 ∷ 3 ∷ 4 ∷ 5 ∷ 6 ∷ 7 ∷ 8 ∷ 9 ∷ 10 ∷ 11 ∷ 12 ∷ 13 ∷ 14 ∷ 15 ∷ 16 ∷ 17 ∷ 18 ∷ 19 ∷ 20
    ∷ 21 ∷ 22 ∷ 23 ∷ 24 ∷ 25 ∷ 26 ∷ 27 ∷ 28 ∷ 29 ∷ 30 ∷ 255 ∷ []

abbrev pub sample_len : Fields → Option ℕ
sample_len _ = some 28

-- The event without its metadata, which the privacy guard does not approve.
abbrev pub bare_event : Event
bare_event = record sample_event { metadata = none }
