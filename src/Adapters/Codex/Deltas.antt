-- ===== src/Adapters/Codex/Deltas.antt =====
-- Differences of cumulative usage lose nothing and count nothing twice.
use tokemon.Prelude.{◌≡◌, List, [], ◌∷◌, arith}
use tokemon.Prelude.Int.{ℤ, pos, negsuc, ◌≤ℤ◌, ◌+ℤ◌, sub64, int_laws}
use tokemon.Adapters.Arithmetic.{max0, min_ℤ, IsTokens, excess_conserved, growth_exact}
use tokemon.Adapters.Codex.{NormalizedTokenUsage, delta, subtract_inherited_prefix}

-- Every count is a non-negative int64.
pub record IsUsage (u : NormalizedTokenUsage) : Type 0 where
  pub input : IsTokens u.input_tokens
  pub cached : IsTokens u.cached_input_tokens
  pub cache_write : IsTokens u.cache_write_tokens
  pub output : IsTokens u.output_tokens
  pub reasoning : IsTokens u.reasoning_tokens
  pub total : IsTokens u.total_tokens

-- The tokens of two usages on each side are the same, count by count.
pub record Balances (a b c d : NormalizedTokenUsage) : Type 0 where
  pub input : a.input_tokens +ℤ b.input_tokens ≡ c.input_tokens +ℤ d.input_tokens
  pub cached :
      a.cached_input_tokens +ℤ b.cached_input_tokens
      ≡ c.cached_input_tokens +ℤ d.cached_input_tokens
  pub cache_write :
      a.cache_write_tokens +ℤ b.cache_write_tokens ≡ c.cache_write_tokens +ℤ d.cache_write_tokens
  pub output : a.output_tokens +ℤ b.output_tokens ≡ c.output_tokens +ℤ d.output_tokens
  pub reasoning :
      a.reasoning_tokens +ℤ b.reasoning_tokens ≡ c.reasoning_tokens +ℤ d.reasoning_tokens
  pub total : a.total_tokens +ℤ b.total_tokens ≡ c.total_tokens +ℤ d.total_tokens

-- Taking an inherited prefix out of a usage loses no token: what is charged and the prefix before
-- make up the usage and the prefix that remains, in every count.
pub subtract_inherited_prefix-Balances :
    (value remaining : NormalizedTokenUsage)
    → IsUsage value
    → IsUsage remaining
    → let (adjusted, left) = subtract_inherited_prefix value remaining in
      Balances adjusted remaining value left
unfolding subtract_inherited_prefix
subtract_inherited_prefix-Balances v r h k = record {
  input = excess_conserved v.input_tokens r.input_tokens h.input k.input;
  cached = excess_conserved v.cached_input_tokens r.cached_input_tokens h.cached k.cached;
  cache_write =
      excess_conserved v.cache_write_tokens r.cache_write_tokens h.cache_write k.cache_write;
  output = excess_conserved v.output_tokens r.output_tokens h.output k.output;
  reasoning = excess_conserved v.reasoning_tokens r.reasoning_tokens h.reasoning k.reasoning;
  total = excess_conserved v.total_tokens r.total_tokens h.total k.total;
}

-- Snapshots of one session: each is a usage, and no count of the totals falls.
abbrev pub Grows : NormalizedTokenUsage → List NormalizedTokenUsage → Type 0
Grows previous [] = IsUsage previous
Grows previous (value ∷ values) =
    IsUsage previous
    × ((previous.input_tokens ≤ℤ value.input_tokens)
        × ((previous.output_tokens ≤ℤ value.output_tokens)
            × ((previous.total_tokens ≤ℤ value.total_tokens) × Grows value values)))

abbrev pub last_usage : NormalizedTokenUsage → List NormalizedTokenUsage → NormalizedTokenUsage
last_usage previous [] = previous
last_usage previous (value ∷ values) = last_usage value values

-- The tokens of the events that the differences become: prompt, output and total.
unfoldable pub charged_prompt : NormalizedTokenUsage → List NormalizedTokenUsage → ℤ
charged_prompt previous [] = pos 0
charged_prompt previous (value ∷ values) =
    (delta value previous).input_tokens
    +ℤ (delta value previous).cached_input_tokens
    +ℤ charged_prompt value values

unfoldable pub charged_output : NormalizedTokenUsage → List NormalizedTokenUsage → ℤ
charged_output previous [] = pos 0
charged_output previous (value ∷ values) =
    (delta value previous).output_tokens +ℤ charged_output value values

unfoldable pub charged_total : NormalizedTokenUsage → List NormalizedTokenUsage → ℤ
charged_total previous [] = pos 0
charged_total previous (value ∷ values) =
    (delta value previous).total_tokens +ℤ charged_total value values

Grows-first :
    (previous : NormalizedTokenUsage) (values : List NormalizedTokenUsage)
    → Grows previous values
    → IsUsage previous
Grows-first previous [] g = g
Grows-first previous (value ∷ values) g = g.0

-- The prompt is split into its cached part and the rest.
split_cached :
    (input cached : ℤ)
    → IsTokens input
    → IsTokens cached
    → sub64 input (min_ℤ input cached) +ℤ min_ℤ input cached ≡ input
unfolding sub64 ◌+ℤ◌
split_cached (pos input) (pos cached) h k = ground arith
split_cached (negsuc input) cached h k = absurd (omega arith)
split_cached (pos input) (negsuc cached) h k = absurd (omega arith)

difference_tokens : (v p : ℤ) → IsTokens v → IsTokens p → IsTokens (max0 (sub64 v p))
unfolding sub64
difference_tokens (pos v) (pos p) h k = ground arith
difference_tokens (negsuc v) p h k = absurd (omega arith)
difference_tokens (pos v) (negsuc p) h k = absurd (omega arith)

pub carry : (d rest p v last : ℤ) → d +ℤ p ≡ v → rest +ℤ v ≡ last → d +ℤ rest +ℤ p ≡ last
carry d rest p v last h k = rw (← k) (rw (← h) (omega int_laws))

regroup :
    (a c d rest p v last : ℤ)
    → a +ℤ c ≡ d
    → d +ℤ p ≡ v
    → rest +ℤ v ≡ last
    → a +ℤ c +ℤ rest +ℤ p ≡ last
regroup a c d rest p v last e h k = rw e (carry d rest p v last h k)

-- Along the growing snapshots of a session the differences add up to the growth from the first
-- snapshot to the last: of the prompt, cached and not, of the output and of the total.
pub deltas_telescope :
    (first : NormalizedTokenUsage) (values : List NormalizedTokenUsage)
    → Grows first values
    → let last = last_usage first values in
      (charged_prompt first values +ℤ first.input_tokens ≡ last.input_tokens)
      × ((charged_output first values +ℤ first.output_tokens ≡ last.output_tokens)
          × (charged_total first values +ℤ first.total_tokens ≡ last.total_tokens))
unfolding charged_prompt charged_output charged_total delta
deltas_telescope first [] g = (omega int_laws, (omega int_laws, omega int_laws))
deltas_telescope first (value ∷ values) g =
    let (prompt, (output, total)) = deltas_telescope value values g.1.1.1.1 in
    let a = g.0 in
    let b = Grows-first value values g.1.1.1.1 in
    let growth = growth_exact value.input_tokens first.input_tokens b.input a.input g.1.0 in
    let parts =
      split_cached (max0 (sub64 value.input_tokens first.input_tokens))
        (max0 (sub64 value.cached_input_tokens first.cached_input_tokens))
        (difference_tokens value.input_tokens first.input_tokens b.input a.input)
        (difference_tokens value.cached_input_tokens first.cached_input_tokens b.cached a.cached) in
    let output_growth =
      growth_exact value.output_tokens first.output_tokens b.output a.output g.1.1.0 in
    let total_growth =
      growth_exact value.total_tokens first.total_tokens b.total a.total g.1.1.1.0 in
    (
      regroup _ _ _ _ _ _ _ parts growth prompt,
      (carry _ _ _ _ _ output_growth output, carry _ _ _ _ _ total_growth total),
    )
