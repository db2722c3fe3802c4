-- ===== src/Adapters/Zcode.antt =====
-- internal/adapters/zcode/zcode.go: token counts whose input contains the cached tokens.
use Prim.Native.Nat.{max}
use tokemon.Prelude.{ap, ◌∙◌, ℕ, ◌+◌, ◌-◌, ◌≤◌, ◌≡◌, Bool, ◌||◌, if◌then◌else◌, arith}
use tokemon.Prelude.Int.{ℤ, pos, ltb_ℤ, add64, sub64, max_int64}
use tokemon.Adapters.Arithmetic.{max0, add64_fits}
use tokemon.Adapters.Codex.{is_positive}

pub record TokenCounts : Type 0 where
  pub input : ℤ
  pub output : ℤ
  pub cache_read : ℤ
  pub cache_write : ℤ
  pub reasoning : ℤ

-- `nonCachedInput`
unfoldable pub non_cached_input : TokenCounts → ℤ
non_cached_input c =
    let value = sub64 (sub64 c.input c.cache_read) c.cache_write in
    if ltb_ℤ value (pos 0) then pos 0 else value

-- `total`
unfoldable pub total : TokenCounts → ℤ
unfolding non_cached_input
total c = add64 (add64 (add64 (non_cached_input c) c.output) c.cache_read) c.cache_write

unfoldable pub non_zero : TokenCounts → Bool
non_zero c =
    is_positive c.input
    || is_positive c.output
    || is_positive c.cache_read
    || is_positive c.cache_write
    || is_positive c.reasoning

-- `safeCounts`
unfoldable pub safe_counts : TokenCounts → TokenCounts
safe_counts c = record {
  input = max0 c.input;
  output = max0 c.output;
  cache_read = max0 c.cache_read;
  cache_write = max0 c.cache_write;
  reasoning = max0 c.reasoning;
}

abbrev pub counts_of : ℕ → ℕ → ℕ → ℕ → ℕ → TokenCounts
counts_of i o r w q = record {
  input = pos i;
  output = pos o;
  cache_read = pos r;
  cache_write = pos w;
  reasoning = pos q;
}

non_cached_of :
    (i o r w q : ℕ)
    → i ≤ max_int64
    → r + w ≤ max_int64
    → non_cached_input (counts_of i o r w q) ≡ pos (i - (r + w))
unfolding non_cached_input sub64
non_cached_of i o r w q h k = ground arith

-- For counts at least zero that fit an int64 together, the total is the output with the input, the
-- cached tokens counted once: where they exceed the input, they stand in for it.
pub total_exact :
    (i o r w q : ℕ)
    → i + o + r + w ≤ max_int64
    → total (counts_of i o r w q) ≡ pos (max i (r + w) + o)
unfolding total
total_exact i o r w q h = rw (non_cached_of i o r w q (omega arith) (omega arith)) (
    rw (add64_fits (i - (r + w)) o (omega arith)) (
      rw (add64_fits (i - (r + w) + o) r (omega arith))
        (add64_fits (i - (r + w) + o + r) w (omega arith) ∙ ap pos (omega arith))))
