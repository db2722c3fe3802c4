-- ===== src/Api/Heartbeat/Tests.antt =====
-- The theorem on `heartbeat` at a post that one source reports.
use tokemon.Prelude.{◌≡◌, ◌⊎◌, inl, true, false, [], ◌∷◌, some, none}
use tokemon.Prelude.Int.{pos}
use tokemon.Prelude.Texts.{Text, text, text_eq}
use tokemon.Api.Auth.{NetTools, Credentials, Config, seconds, ingest_authorized}
use tokemon.Api.Hub.{Codecs, Post, decode_json_body}
use tokemon.Api.Heartbeat.{
  HeartbeatRequest, Station, max_heartbeat_body_bytes, check_request, heartbeat_handler,
}
use tokemon.Api.Heartbeat.Records.{Declines, Records, heartbeat_handler-cases}

abbrev net : NetTools Text
net = record {
  split_host_port = λ s. none;
  parse_ip = λ s. some s;
  is_loopback = λ s. text_eq s (text "127.0.0.1");
}

abbrev tools : Credentials
tools = record { sha256 = λ s. s; bcrypt_cost_ok = λ h. true; bcrypt_matches = λ h p. text_eq h p }

-- Development mode without a token.
abbrev config : Config Text
config = record {
  ingest_token = [];
  dashboard_token = [];
  dashboard_username = [];
  dashboard_password_hash = [];
  dashboard_token_fallback = true;
  allow_loopback_dev = true;
  trusted_proxies = [];
  request_timeout = seconds 30;
  health_timeout = seconds 5;
  heartbeat_timeout = seconds 15;
  ingest_timeout = seconds 30;
  stale_agent_after = seconds 300;
}

abbrev beat : HeartbeatRequest
beat = record {
  machine_id = text "laptop";
  agent_version = text "0.3.1";
  operating_system = text "linux";
  architecture = text "arm64";
  adapters = record { id = text "codex"; version = text "1" } ∷ [];
  source_count = pos 1;
  source_error_count = pos 0;
  sources = some (
      record {
        adapter = text "codex";
        source_hash = text "a1";
        last_successful_sync = none;
        last_error_class = [];
      }
      ∷ []);
}

abbrev codecs : Codecs HeartbeatRequest
codecs = record {
  equal_fold = text_eq;
  gunzip = λ s. none;
  decode_first = λ bytes. some (beat, []);
  at_end = λ bytes. true;
  encoded_len = λ r. none;
}

abbrev post : Post
post = record {
  request = record {
    remote_addr = text "127.0.0.1";
    authorization = [];
    ingest_header = [];
    forwarded_user = [];
    basic_auth = none;
  };
  content_encoding = [];
  body = record { bytes = text "heartbeat"; fails = false };
}

abbrev station : Station
station = record { fleet = record { machines = []; health = [] }; source_errors = 0 }

heartbeat_handler-cases_example :
    let outcome =
      heartbeat_handler net tools codecs config
        (λ n. pos 1_700_000_000_000_000_000)
        (pos 1_700_000_000_000_000_001)
        post
        station in
    Declines station outcome
    ⊎ ((ingest_authorized tools net config post.request ≡ true)
        × ((r : HeartbeatRequest) × ((decode_json_body codecs max_heartbeat_body_bytes post ≡ inl r)
              × ((check_request (λ n. pos 1_700_000_000_000_000_000) r ≡ none)
                  × Records (pos 1_700_000_000_000_000_001) r station outcome))))
heartbeat_handler-cases_example =
    heartbeat_handler-cases net tools codecs config (λ n. pos 1_700_000_000_000_000_000)
      (pos 1_700_000_000_000_000_001) post station
