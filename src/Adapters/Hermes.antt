-- ===== src/Adapters/Hermes.antt =====
-- internal/adapters/hermes/hermes.go: the token counts of a session, and what is left of them once the
-- usage that is broken down by model is taken out.
use tokemon.Prelude.{ap, ◌∙◌, ℕ, ◌+◌, ◌-◌, ◌≤◌, ◌≡◌, Bool, ◌||◌, arith}
use tokemon.Prelude.Int.{ℤ, pos, add64, sub64, max_int64}
use tokemon.Adapters.Arithmetic.{max0, difference, add64_fits}
use tokemon.Adapters.Codex.{is_positive}

pub record TokenCounts : Type 0 where
  pub input : ℤ
  pub output : ℤ
  pub cache_read : ℤ
  pub cache_write : ℤ
  pub reasoning : ℤ

-- `total`: reasoning is a part of the output.
unfoldable pub total : TokenCounts → ℤ
total c = add64 (add64 (add64 c.input c.output) c.cache_read) c.cache_write

unfoldable pub non_zero : TokenCounts → Bool
non_zero c =
    is_positive c.input
    || is_positive c.output
    || is_positive c.cache_read
    || is_positive c.cache_write
    || is_positive c.reasoning

-- `safeCounts`
unfoldable pub safe_counts : TokenCounts → TokenCounts
safe_counts c = record {
  input = max0 c.input;
  output = max0 c.output;
  cache_read = max0 c.cache_read;
  cache_write = max0 c.cache_write;
  reasoning = max0 c.reasoning;
}

-- `subtract`
unfoldable pub subtract : TokenCounts → TokenCounts → TokenCounts
subtract c other = record {
  input = max0 (sub64 c.input other.input);
  output = max0 (sub64 c.output other.output);
  cache_read = max0 (sub64 c.cache_read other.cache_read);
  cache_write = max0 (sub64 c.cache_write other.cache_write);
  reasoning = max0 (sub64 c.reasoning other.reasoning);
}

abbrev pub counts_of : ℕ → ℕ → ℕ → ℕ → ℕ → TokenCounts
counts_of i o r w q = record {
  input = pos i;
  output = pos o;
  cache_read = pos r;
  cache_write = pos w;
  reasoning = pos q;
}

total_of :
    (i o r w q : ℕ) → i + o + r + w ≤ max_int64 → total (counts_of i o r w q) ≡ pos (i + o + r + w)
unfolding total
total_of i o r w q h =
    rw (add64_fits i o (omega arith))
      (rw (add64_fits (i + o) r (omega arith)) (add64_fits (i + o + r) w h))

-- For counts at least zero whose total an int64 holds, of which the other's are a part: the total of
-- what is left and the total of the part add up to the whole, so no token is counted twice.
pub total-subtract :
    (i o r w q i' o' r' w' q' : ℕ)
    → i + o + r + w ≤ max_int64
    → q ≤ max_int64
    → q' ≤ max_int64
    → (i' ≤ i) × ((o' ≤ o) × ((r' ≤ r) × (w' ≤ w)))
    → add64
        (total (subtract (counts_of i o r w q) (counts_of i' o' r' w' q')))
        (total (counts_of i' o' r' w' q'))
      ≡ total (counts_of i o r w q)
unfolding subtract
total-subtract i o r w q i' o' r' w' q' fits h k (a, (b, (c, d))) =
    rw (difference i i' (omega arith) (omega arith)) (
      rw (difference o o' (omega arith) (omega arith)) (
        rw (difference r r' (omega arith) (omega arith)) (
          rw (difference w w' (omega arith) (omega arith)) (
            rw (difference q q' h k) (
              rw (total_of (i - i') (o - o') (r - r') (w - w') (q - q') (omega arith)) (
                rw (total_of i' o' r' w' q' (omega arith)) (
                  rw (total_of i o r w q fits) (
                    add64_fits (i - i' + (o - o') + (r - r') + (w - w')) (i' + o' + r' + w')
                      (omega arith)
                    ∙ ap pos (omega arith)))))))))
