-- ===== src/Adapters/Codex/Log/Tests.antt =====
-- The theorem on two polls at a log of two records.
use tokemon.Prelude.{All, List, [], ◌∷◌, ◌++◌, none, some, ◌≡◌, refl, true, false, length, arith}
use tokemon.Prelude.Int.{pos, sub64}
use tokemon.Prelude.Texts.{text, text_eq, trim_space, trim_left, trim_right, is_space}
use tokemon.Prelude.Find.{contains}
use tokemon.Usage.Samples.{sample_tables, sample_digest}
use tokemon.Adapters.Source.{Bytes, newline, no_cursor, cut_records}
use tokemon.Adapters.Codex.{TokenUsage, no_usage, normalize_token_usage, is_zero, delta}
use tokemon.Adapters.Codex.Fork.{no_metadata, TokenInfo, event_msg, token_count_mark}
use tokemon.Adapters.Codex.Log.{
  ParseState, LogTools, LogRequest, LogProgress, parsed, prepend, charge, failed, decode_state,
  encode_state, fresh_state,
}
use tokemon.Adapters.Codex.Log.Reading.{parse_log, resumed_state, cursor_of}
use tokemon.Adapters.Codex.Log.Resume.{after}
use tokemon.Adapters.Codex.Log.Polls.{CountsTotal, IsCumulative, resumed_log_exact}

abbrev first_line : Bytes
first_line = token_count_mark ++ newline ∷ []

abbrev second_line : Bytes
second_line = b' ' ∷ token_count_mark ++ newline ∷ []

-- As many tokens as the line has bytes.
abbrev usage_of : Bytes → TokenUsage
usage_of bytes = record {
  input_tokens = pos (length bytes);
  cached_input_tokens = pos 0;
  cache_read_input_tokens = pos 0;
  cache_write_input_tokens = pos 0;
  output_tokens = pos 0;
  reasoning_tokens = pos 0;
  total_tokens = pos (length bytes);
}

abbrev info_of : Bytes → TokenInfo
info_of bytes = record {
  model = [];
  model_name = [];
  last_token_usage = none;
  total_token_usage = some (usage_of bytes);
}

abbrev state_then : ParseState
state_then = record {
  cache_identity = text "here";
  session_id = [];
  source_session_id = [];
  provider = text "openai";
  model = text "unknown";
  project = [];
  previous_cumulative = normalize_token_usage (some (usage_of first_line));
  has_previous_cumulative = true;
  fork_baseline = no_usage;
  fork_resolved = false;
  fork_prefix_pending = false;
  remaining_fork_prefix = no_usage;
}

abbrev sample_tools : LogTools
sample_tools = record {
  decode = λ bytes. some (record {
    timestamp = text "t";
    payload = event_msg (text "token_count") (some (info_of bytes));
  });
  parse_time = λ _. some (pos 0);
  format_utc = λ _. text "t";
  marshal_state = λ _ _. text "state";
  unmarshal_state = λ _. some (1, state_then);
  sha256 = sample_digest;
}

abbrev sample_request : LogRequest
sample_request = record {
  path = text "log";
  machine_id = text "m";
  cache_identity = text "here";
  metadata = no_metadata;
  baseline_of = λ _. none;
}

abbrev first_poll : LogProgress
unfolding parse_log
first_poll = elim (parse_log sample_tables sample_tools sample_request first_line no_cursor) [
  | parsed p ↦ p
  | failed _ ↦ record { events = []; state = state_then; offset = 0; line = 0 }
]

always_total : (bytes : Bytes) → CountsTotal sample_tools bytes
always_total bytes r kind info reads is_count = ground (arith, reads, is_count)

All-CountsTotal : (records : List Bytes) → All (CountsTotal sample_tools) records
All-CountsTotal [] = tt
All-CountsTotal (bytes ∷ records) = (always_total bytes, All-CountsTotal records)

log-IsCumulative : IsCumulative sample_tools (first_line ++ second_line)
log-IsCumulative = All-CountsTotal (cut_records (first_line ++ second_line)).0

first_poll_runs :
    parse_log sample_tables sample_tools sample_request first_line no_cursor ≡ parsed first_poll
unfolding parse_log resumed_state decode_state text_eq trim_space trim_right trim_left prepend
    contains charge fresh_state is_zero delta sub64 normalize_token_usage
first_poll_runs = refl

reads_back :
    decode_state sample_tables sample_tools sample_request
      (encode_state sample_tables sample_tools sample_request first_poll.state)
    ≡ some first_poll.state
unfolding first_poll encode_state is_space resumed_state decode_state text_eq trim_space trim_right
    trim_left prepend contains charge fresh_state is_zero delta sub64 normalize_token_usage
reads_back = refl

resumed_log_exact_example :
    parse_log sample_tables sample_tools sample_request (first_line ++ second_line) no_cursor
    ≡ after first_poll.events (
        parse_log sample_tables sample_tools sample_request
          (first_line ++ second_line)
          (cursor_of sample_tables sample_tools sample_request first_poll))
resumed_log_exact_example =
    resumed_log_exact sample_tables sample_tools sample_request first_line second_line first_poll
      log-IsCumulative first_poll_runs reads_back
