-- ===== src/Adapters/Tests.antt =====
-- The theorems on token arithmetic at concrete counts.
use tokemon.Prelude.{ℕ, ◌≡◌, refl, List, [], ◌∷◌, arith, true, false, none, map}
use tokemon.Prelude.Int.{pos, ◌+ℤ◌}
use tokemon.Adapters.Codex.{NormalizedTokenUsage, subtract_inherited_prefix}
use tokemon.Adapters.Codex.Deltas.{
  IsUsage, Balances, Grows, last_usage, charged_prompt, charged_output, charged_total,
  subtract_inherited_prefix-Balances, deltas_telescope,
}
use tokemon.Prelude.Texts.{text}
use tokemon.Prelude.Maps.{lookup}
use tokemon.Usage.Samples.{sample_tables, sample_digest}
use tokemon.Adapters.Source.{no_cursor}
use tokemon.Adapters.Signature.{FileSignature}
use tokemon.Adapters.Cache.{parsed, cache_lookup}
use tokemon.Adapters.Codex.Log.{ParseState}
use tokemon.Adapters.Codex.Log.Forks.{charged_totals, last_total, max_ℤ, charged_totals-fork}
use tokemon.Adapters.Codex.Threads.{
  ThreadRow, rows, thread_identity, thread_cursor, thread_event, parse_thread_snapshots,
}
use tokemon.Adapters.Codex.Threads.Retry.{parse_thread_snapshots_not_again}

abbrev usage_of : ℕ → ℕ → ℕ → ℕ → ℕ → NormalizedTokenUsage
usage_of input cached output reasoning total = record {
  input_tokens = pos input;
  cached_input_tokens = pos cached;
  cache_write_tokens = pos 0;
  output_tokens = pos output;
  reasoning_tokens = pos reasoning;
  total_tokens = pos total;
}

abbrev early : NormalizedTokenUsage
early = usage_of 100 40 20 5 120

abbrev late : NormalizedTokenUsage
late = usage_of 250 180 30 5 280

early-IsUsage : IsUsage early
early-IsUsage = record {
  input = (refl, omega arith);
  cached = (refl, omega arith);
  cache_write = (refl, omega arith);
  output = (refl, omega arith);
  reasoning = (refl, omega arith);
  total = (refl, omega arith);
}

late-IsUsage : IsUsage late
late-IsUsage = record {
  input = (refl, omega arith);
  cached = (refl, omega arith);
  cache_write = (refl, omega arith);
  output = (refl, omega arith);
  reasoning = (refl, omega arith);
  total = (refl, omega arith);
}

subtract_inherited_prefix-Balances_example :
    let (adjusted, left) = subtract_inherited_prefix late early in Balances adjusted early late left
subtract_inherited_prefix-Balances_example =
    subtract_inherited_prefix-Balances late early late-IsUsage early-IsUsage

snapshots-Grows : Grows early (late ∷ [])
snapshots-Grows = (early-IsUsage, (omega arith, (omega arith, (omega arith, late-IsUsage))))

deltas_telescope_example :
    let last = last_usage early (late ∷ []) in
    (charged_prompt early (late ∷ []) +ℤ early.input_tokens ≡ last.input_tokens)
    × ((charged_output early (late ∷ []) +ℤ early.output_tokens ≡ last.output_tokens)
        × (charged_total early (late ∷ []) +ℤ early.total_tokens ≡ last.total_tokens))
deltas_telescope_example = deltas_telescope early (late ∷ []) snapshots-Grows

-- A fork of a session that stood at 100 tokens: two snapshots are copies, the third goes on to 150.
abbrev fork_state : ParseState
fork_state = record {
  cache_identity = [];
  session_id = [];
  source_session_id = [];
  provider = [];
  model = [];
  project = [];
  previous_cumulative = usage_of 0 0 0 0 0;
  has_previous_cumulative = false;
  fork_baseline = usage_of 80 0 20 0 100;
  fork_resolved = true;
  fork_prefix_pending = true;
  remaining_fork_prefix = usage_of 80 0 20 0 100;
}

abbrev replayed : List NormalizedTokenUsage
replayed = usage_of 50 0 10 0 60 ∷ usage_of 80 0 20 0 100 ∷ usage_of 120 0 30 0 150 ∷ []

charged_totals-fork_example :
    charged_totals fork_state replayed +ℤ pos 100 ≡ max_ℤ (pos 100) (last_total (pos 0) replayed)
charged_totals-fork_example =
    charged_totals-fork fork_state (pos 0) replayed refl (refl, omega arith) (omega arith)
      (
        (refl, omega arith),
        omega arith,
        ((refl, omega arith), omega arith, ((refl, omega arith), omega arith, (refl, omega arith))),
      )

-- A database of threads whose cursor was committed, and that has changed since.
abbrev signed : FileSignature
signed = record {
  size = pos 4096;
  mod_time = pos 1;
  sidecar_size = pos 0;
  sidecar_time = pos 0;
  sidecar = false;
}

abbrev one_thread : List ThreadRow
one_thread =
    record {
      id = text "thread";
      created_at_ms = pos 1_700_000_000_000;
      updated_at_ms = pos 1_700_000_060_000;
      model_provider = text "openai";
      model = text "gpt";
      cwd = text "/home/me/app";
      tokens_used = pos 900;
    }
    ∷ []

nothing_cached :
    cache_lookup []
      (text "/state.sqlite")
      signed
      (thread_identity (text "state.sqlite"))
      (thread_cursor (thread_identity (text "state.sqlite")))
    ≡ none
unfolding cache_lookup lookup
nothing_cached = refl

nothing_there : cache_lookup [] (text "/log") signed (text "id") no_cursor ≡ none
unfolding cache_lookup lookup
nothing_there = refl

parse_thread_snapshots_not_again_example :
    let identity = thread_identity (text "state.sqlite") in
    let cursor = thread_cursor identity in
    let (first, after) =
      parse_thread_snapshots sample_tables sample_digest []
        (text "laptop")
        (text "/state.sqlite")
        signed
        (text "state.sqlite")
        cursor
        (rows one_thread) in
    (first
      ≡ parsed (record {
        events = map (thread_event sample_tables sample_digest (text "laptop") identity) one_thread;
        cursor = cursor;
      }))
    × ((parse_thread_snapshots sample_tables sample_digest after
          (text "laptop")
          (text "/state.sqlite")
          signed
          (text "state.sqlite")
          cursor
          (rows one_thread)).0
        ≡ parsed (record { events = []; cursor = cursor }))
parse_thread_snapshots_not_again_example =
    parse_thread_snapshots_not_again sample_tables sample_digest [] (text "laptop")
      (text "/state.sqlite") signed (text "state.sqlite") one_thread nothing_cached
