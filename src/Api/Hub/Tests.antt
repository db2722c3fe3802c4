-- ===== src/Api/Hub/Tests.antt =====
-- The theorems on `ingest` at a post with two events.
use tokemon.Prelude.{◌≡◌, ◌⊎◌, refl, inl, true, false, List, [], ◌∷◌, some, none, arith}
use tokemon.Prelude.Int.{pos, ◌+ℤ◌, add64, sub64}
use tokemon.Prelude.Texts.{
  Text, text, text_eq, byte_len, is_space, is_control, trim_left, trim_right, trim_space,
}
use tokemon.Prelude.Find.{
  contains_any, contains_rune, has_prefix, contains, replace_rune, lower_rune, upper_rune, to_lower,
  to_upper, trim_prefix,
}
use tokemon.Prelude.Floats.{FloatOps, float_one}
use tokemon.Usage.Event.{Event, accuracy_valid}
use tokemon.Usage.Totals.{validate_token_totals, add_components}
use tokemon.Usage.Names.{split_on, last_part, label_of, normalize_project}
use tokemon.Usage.Metadata.{validate_metadata, validate_fields, validate_metadata_key}
use tokemon.Usage.Validate.{
  validate_text, validate_event_id_digest, bad_currency_code, check_metadata, check_identity,
  check_labels, check_numbers, check_source, validate_at, is_ascii_alpha,
}
use tokemon.Usage.Samples.{sample_event, sample_tables, sample_len}
use tokemon.Database.Ingest.{lifetime_tokens, sum_tokens}
use tokemon.Api.Auth.{
  NetTools, Credentials, Config, validate_serve_config, bearer_token, valid_token,
  constant_time_equal, ingest_authorized, seconds,
}
use tokemon.Api.Auth.Guard.{Presents, IsLocal}
use tokemon.Api.Hub.{
  Codecs, Post, Hub, first_invalid, ingest_handler, decode_json_body, max_decompressed_body_bytes,
  max_bytes_reader, read_limited,
}
use tokemon.Api.Hub.Replies.{Refuses, Ingests, ingest_handler-guarded}
use tokemon.Api.Hub.Accepts.{Answers, ingest_handler-accepts}

abbrev net : NetTools Text
net = record {
  split_host_port = λ s. none;
  parse_ip = λ s. some s;
  is_loopback = λ s. text_eq s (text "127.0.0.1");
}

abbrev tools : Credentials
tools = record { sha256 = λ s. s; bcrypt_cost_ok = λ h. true; bcrypt_matches = λ h p. text_eq h p }

abbrev config : Config Text
config = record {
  ingest_token = text "secret";
  dashboard_token = text "secret";
  dashboard_username = [];
  dashboard_password_hash = [];
  dashboard_token_fallback = true;
  allow_loopback_dev = false;
  trusted_proxies = [];
  request_timeout = seconds 30;
  health_timeout = seconds 5;
  heartbeat_timeout = seconds 15;
  ingest_timeout = seconds 30;
  stale_agent_after = seconds 300;
}

abbrev events : List Event
events = sample_event ∷ record sample_event { event_id = text "event-2" } ∷ []

abbrev codecs : Codecs (List Event)
codecs = record {
  equal_fold = text_eq;
  gunzip = λ s. some s;
  decode_first = λ bytes. some (events, []);
  at_end = λ bytes. true;
  encoded_len = λ batch. some 900;
}

abbrev post : Post
post = record {
  request = record {
    remote_addr = text "10.0.0.7:4000";
    authorization = text "Bearer secret";
    ingest_header = [];
    forwarded_user = [];
    basic_auth = none;
  };
  content_encoding = [];
  body = record { bytes = text "two events"; fails = false };
}

abbrev floats : FloatOps
floats = record {
  float_add = λ x y. x;
  float_mul = λ x y. x;
  float_div = λ x y. x;
  float_of_int = λ i. float_one;
}

abbrev hub : Hub
hub = record {
  store = record { rows = []; machines = [] };
  metrics = record {
    ingest_requests = 0;
    ingest_accepted = 0;
    ingest_duplicates = 0;
    ingest_rejected = 0;
  };
}

started : validate_serve_config net (text "0.0.0.0:8090") (text "secret") false ≡ none
unfolding validate_serve_config trim_space trim_right trim_left text_eq is_space
started = refl

authorized : ingest_authorized tools net config post.request ≡ true
unfolding ingest_authorized valid_token bearer_token constant_time_equal text_eq has_prefix
    trim_prefix trim_space trim_right trim_left contains_any contains_rune is_space
authorized = refl

decoded : decode_json_body codecs max_decompressed_body_bytes post ≡ inl events
unfolding decode_json_body max_bytes_reader read_limited text_eq
decoded = refl

valid : first_invalid sample_tables sample_len (λ n. pos 1_700_000_000_000_000_001) 0 events ≡ none
unfolding first_invalid validate_at check_identity check_labels check_numbers check_source
    check_metadata validate_text validate_event_id_digest bad_currency_code is_ascii_alpha
    validate_metadata validate_fields validate_metadata_key validate_token_totals add_components
    add64 sub64 ◌+ℤ◌ accuracy_valid text_eq byte_len is_space is_control trim_left trim_right
    trim_space contains_any contains_rune has_prefix contains replace_rune lower_rune upper_rune
    to_lower to_upper
valid = refl

normal : normalize_project sample_tables (text "tokemon") ≡ text "tokemon"
unfolding normalize_project split_on last_part label_of text_eq trim_space trim_left trim_right
    replace_rune contains_any contains_rune to_lower lower_rune is_space
normal = refl

empty_total : lifetime_tokens hub.store ≡ some (pos 0)
unfolding lifetime_tokens sum_tokens
empty_total = refl

ingest_handler-guarded_example :
    let outcome =
      ingest_handler sample_tables sample_len floats none net tools codecs config
        (λ n. pos 1_700_000_000_000_000_001)
        (λ n. pos 1_700_000_000_000_000_002)
        post
        hub in
    Refuses hub.store outcome
    ⊎ ((Presents tools post.request config.ingest_token
          ⊎ IsLocal tools net (text "0.0.0.0:8090") config post.request)
        × ((batch : List Event) × ((decode_json_body codecs max_decompressed_body_bytes post
                ≡ inl batch)
              × Ingests sample_tables sample_len floats none
                  (λ n. pos 1_700_000_000_000_000_001)
                  (λ n. pos 1_700_000_000_000_000_002)
                  batch
                  hub.store
                  outcome)))
ingest_handler-guarded_example =
    ingest_handler-guarded sample_tables sample_len floats none net tools codecs
      (text "0.0.0.0:8090") config (λ n. pos 1_700_000_000_000_000_001)
      (λ n. pos 1_700_000_000_000_000_002) post hub started

ingest_handler-accepts_example : Answers sample_tables sample_len floats none events (
    ingest_handler sample_tables sample_len floats none net tools codecs config
      (λ n. pos 1_700_000_000_000_000_001)
      (λ n. pos 1_700_000_000_000_000_002)
      post
      hub)
ingest_handler-accepts_example =
    ingest_handler-accepts sample_tables sample_len floats none net tools codecs config
      (λ n. pos 1_700_000_000_000_000_001) (λ n. pos 1_700_000_000_000_000_002) post hub events
      (pos 0) authorized decoded refl refl valid (normal, (normal, tt)) (λ n. omega arith) tt
      empty_total
