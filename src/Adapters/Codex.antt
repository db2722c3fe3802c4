-- ===== src/Adapters/Codex.antt =====
-- internal/adapters/codex/codex.go: token usage as a Codex log reports it, cumulative over a session,
-- and the differences that become events. Sums and differences wrap around as int64 does.
pub mod Deltas
pub mod Fork
pub mod Sessions
pub mod Log
pub mod Threads
use tokemon.Prelude.{zero, Bool, true, false, ◌&&◌, ◌||◌, Option, none, some, if◌then◌else◌}
use tokemon.Prelude.Int.{ℤ, pos, ltb_ℤ, add64, sub64}
use tokemon.Adapters.Arithmetic.{max0, min_ℤ}

pub record TokenUsage : Type 0 where
  pub input_tokens : ℤ
  pub cached_input_tokens : ℤ
  pub cache_read_input_tokens : ℤ
  pub cache_write_input_tokens : ℤ
  pub output_tokens : ℤ
  pub reasoning_tokens : ℤ
  pub total_tokens : ℤ

pub record NormalizedTokenUsage : Type 0 where
  pub input_tokens : ℤ
  pub cached_input_tokens : ℤ
  pub cache_write_tokens : ℤ
  pub output_tokens : ℤ
  pub reasoning_tokens : ℤ
  pub total_tokens : ℤ

abbrev pub no_usage : NormalizedTokenUsage
no_usage = record {
  input_tokens = pos 0;
  cached_input_tokens = pos 0;
  cache_write_tokens = pos 0;
  output_tokens = pos 0;
  reasoning_tokens = pos 0;
  total_tokens = pos 0;
}

abbrev pub is_zero_count : ℤ → Bool
is_zero_count (pos zero) = true
is_zero_count _ = false

abbrev pub is_positive : ℤ → Bool
is_positive v = ltb_ℤ (pos 0) v

-- `normalizeTokenUsage`
unfoldable pub normalize_token_usage : Option TokenUsage → NormalizedTokenUsage
normalize_token_usage none = no_usage
normalize_token_usage (some t) =
    let input = max0 t.input_tokens in
    let reported = max0 t.cached_input_tokens in
    let cached = if is_zero_count reported then max0 t.cache_read_input_tokens else reported in
    let output = max0 t.output_tokens in
    let total = max0 t.total_tokens in
    record {
      input_tokens = input;
      cached_input_tokens = min_ℤ cached input;
      cache_write_tokens = max0 t.cache_write_input_tokens;
      output_tokens = output;
      reasoning_tokens = min_ℤ (max0 t.reasoning_tokens) output;
      total_tokens =
          if is_zero_count total && (is_positive input || is_positive output)
          then add64 input output
          else total;
    }

-- `delta`: the growth since the previous snapshot, the cached part taken out of the input.
unfoldable pub delta : NormalizedTokenUsage → NormalizedTokenUsage → NormalizedTokenUsage
delta value previous =
    let input = max0 (sub64 value.input_tokens previous.input_tokens) in
    let cached =
      min_ℤ input (max0 (sub64 value.cached_input_tokens previous.cached_input_tokens)) in
    let output = max0 (sub64 value.output_tokens previous.output_tokens) in
    record {
      input_tokens = sub64 input cached;
      cached_input_tokens = cached;
      cache_write_tokens = max0 (sub64 value.cache_write_tokens previous.cache_write_tokens);
      output_tokens = output;
      reasoning_tokens =
          min_ℤ output (max0 (sub64 value.reasoning_tokens previous.reasoning_tokens));
      total_tokens = max0 (sub64 value.total_tokens previous.total_tokens);
    }

-- `isZero`
unfoldable pub is_zero : NormalizedTokenUsage → Bool
is_zero u =
    is_zero_count u.input_tokens
    && is_zero_count u.cached_input_tokens
    && is_zero_count u.cache_write_tokens
    && is_zero_count u.output_tokens
    && is_zero_count u.reasoning_tokens
    && is_zero_count u.total_tokens

-- `eventTokenUsage`
unfoldable pub event_token_usage : NormalizedTokenUsage → NormalizedTokenUsage
event_token_usage value =
    let cached = min_ℤ (max0 value.cached_input_tokens) (max0 value.input_tokens) in
    record {
      input_tokens = sub64 (max0 value.input_tokens) cached;
      cached_input_tokens = cached;
      cache_write_tokens = max0 value.cache_write_tokens;
      output_tokens = max0 value.output_tokens;
      reasoning_tokens = min_ℤ (max0 value.reasoning_tokens) (max0 value.output_tokens);
      total_tokens = max0 value.total_tokens;
    }

abbrev pub excess : NormalizedTokenUsage → NormalizedTokenUsage → NormalizedTokenUsage
excess a b = record {
  input_tokens = max0 (sub64 a.input_tokens b.input_tokens);
  cached_input_tokens = max0 (sub64 a.cached_input_tokens b.cached_input_tokens);
  cache_write_tokens = max0 (sub64 a.cache_write_tokens b.cache_write_tokens);
  output_tokens = max0 (sub64 a.output_tokens b.output_tokens);
  reasoning_tokens = max0 (sub64 a.reasoning_tokens b.reasoning_tokens);
  total_tokens = max0 (sub64 a.total_tokens b.total_tokens);
}

-- `subtractInheritedPrefix`: the adjusted usage, and what remains of the prefix.
unfoldable pub subtract_inherited_prefix :
    NormalizedTokenUsage → NormalizedTokenUsage → NormalizedTokenUsage × NormalizedTokenUsage
subtract_inherited_prefix value remaining = (excess value remaining, excess remaining value)
