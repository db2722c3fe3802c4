-- ===== src/Adapters/Codex/Log/Forks.antt =====
-- The tokens that a log is charged along its cumulative snapshots, where the session is a fork and
-- where it is not.
use tokemon.Prelude.{
  Bool, true, false, not, ◌&&◌, ◌≡◌, refl, sym, ap, ◌∙◌, List, [], ◌∷◌, Option, none, some,
  if◌then◌else◌, arith, inl, inr, Bool-cases,
}
use tokemon.Prelude.Int.{ℤ, pos, ◌≤ℤ◌, ◌+ℤ◌, leb_ℤ, ltb_ℤ, eq_of_parts, int_laws}
use tokemon.Adapters.Arithmetic.{IsTokens, growth_exact}
use tokemon.Adapters.Codex.{NormalizedTokenUsage, no_usage, delta, is_zero}
use tokemon.Adapters.Codex.Deltas.{carry}
use tokemon.Adapters.Codex.Log.{ParseState, charge_cumulative, charge_growth}

abbrev total_of : Option NormalizedTokenUsage → ℤ
total_of none = pos 0
total_of (some u) = u.total_tokens

-- The total of the events that the snapshots become.
unfoldable pub charged_totals : ParseState → List NormalizedTokenUsage → ℤ
charged_totals st [] = pos 0
charged_totals st (u ∷ us) =
    total_of (charge_cumulative u st).1 +ℤ charged_totals (charge_cumulative u st).0 us

-- The totals are int64 values, at least zero, and do not fall.
abbrev pub Rises : ℤ → List NormalizedTokenUsage → Type 0
Rises from [] = IsTokens from
Rises from (u ∷ us) = IsTokens from × (from ≤ℤ u.total_tokens) × Rises u.total_tokens us

abbrev pub last_total : ℤ → List NormalizedTokenUsage → ℤ
last_total from [] = from
last_total from (u ∷ us) = last_total u.total_tokens us

abbrev pub max_ℤ : ℤ → ℤ → ℤ
max_ℤ a b = if ltb_ℤ a b then b else a

Rises-first : (from : ℤ) (us : List NormalizedTokenUsage) → Rises from us → IsTokens from
Rises-first from [] h = h
Rises-first from (u ∷ us) h = h.0

le-last : (from : ℤ) (us : List NormalizedTokenUsage) → Rises from us → from ≤ℤ last_total from us
le-last from [] h = omega arith
le-last from (u ∷ us) h = omega (arith, h.1, le-last u.total_tokens us h.2)

zero_total : (u : NormalizedTokenUsage) → is_zero u ≡ true → u.total_tokens ≡ pos 0
unfolding is_zero
zero_total u h = ground arith

-- A usage is left out only where it is zero.
charged_all :
    (has : Bool) (u : NormalizedTokenUsage)
    → total_of (if is_zero u && not has then none else some u) ≡ u.total_tokens
charged_all true u = elim (Bool-cases (is_zero u)) [ inl e ↦ rw e | inr e ↦ rw e ]
charged_all false u = elim (Bool-cases (is_zero u)) [
  | inl e ↦ rw e (sym (zero_total u e))
  | inr e ↦ rw e
]

total-delta :
    (u v : NormalizedTokenUsage)
    → IsTokens u.total_tokens
    → IsTokens v.total_tokens
    → v.total_tokens ≤ℤ u.total_tokens
    → (delta u v).total_tokens +ℤ v.total_tokens ≡ u.total_tokens
unfolding delta
total-delta u v h k l = growth_exact u.total_tokens v.total_tokens h k l

no_reset : (has : Bool) (a b : ℤ) → b ≤ℤ a → (has && ltb_ℤ a b) ≡ false
no_reset has a b h = ground arith

growth_step :
    (u : NormalizedTokenUsage) (st : ParseState)
    → IsTokens u.total_tokens
    → IsTokens st.previous_cumulative.total_tokens
    → st.previous_cumulative.total_tokens ≤ℤ u.total_tokens
    → total_of (charge_growth u st).1 +ℤ st.previous_cumulative.total_tokens ≡ u.total_tokens
unfolding charge_growth
growth_step u st h k l =
    rw (no_reset st.has_previous_cumulative u.total_tokens st.previous_cumulative.total_tokens l) (
      rw (charged_all st.has_previous_cumulative (delta u st.previous_cumulative))
        (total-delta u st.previous_cumulative h k l))

max_left : (a b : ℤ) → b ≤ℤ a → max_ℤ a b ≡ a
max_left a b h = ground arith

max_right : (a b : ℤ) → a ≤ℤ b → max_ℤ a b ≡ b
max_right a b h = ground (arith, eq_of_parts a b)

zero-+ℤ : (a : ℤ) → pos 0 +ℤ a ≡ a
zero-+ℤ a = omega int_laws

not_pending :
    (st : ParseState) (u : NormalizedTokenUsage)
    → st.fork_prefix_pending ≡ false
    → charge_cumulative u st ≡ charge_growth u st
unfolding charge_cumulative
not_pending st u h = rw (charge_cumulative, h)

abbrev past_prefix : ParseState → ParseState
past_prefix st = record st {
  previous_cumulative = st.fork_baseline;
  has_previous_cumulative = true;
  fork_prefix_pending = false;
}

pending_charge :
    (st : ParseState) (u : NormalizedTokenUsage)
    → st.fork_prefix_pending ≡ true
    → charge_cumulative u st ≡ (
        if leb_ℤ u.total_tokens st.fork_baseline.total_tokens
        then (st, some no_usage)
        else charge_growth u (past_prefix st))
unfolding charge_cumulative
pending_charge st u h = simp h

-- Outside a copied prefix: what is charged is the growth since the snapshot before.
unforked :
    (st : ParseState) (us : List NormalizedTokenUsage)
    → st.fork_prefix_pending ≡ false
    → Rises st.previous_cumulative.total_tokens us
    → charged_totals st us +ℤ st.previous_cumulative.total_tokens
      ≡ last_total st.previous_cumulative.total_tokens us
unfolding charged_totals charge_growth
unforked st [] h r = omega int_laws
unforked st (u ∷ us) h r = rw (not_pending st u h) (
    carry _ _ _ _ _ (growth_step u st (Rises-first u.total_tokens us r.2) r.0 r.1)
      (unforked (charge_growth u st).0 us h r.2))

-- In a forked session the copied snapshots are free: along rising totals, what is charged and the
-- parent's baseline make up the last total, if it is above the baseline, and nothing is charged else.
pub charged_totals-fork :
    (st : ParseState) (from : ℤ) (us : List NormalizedTokenUsage)
    → st.fork_prefix_pending ≡ true
    → IsTokens st.fork_baseline.total_tokens
    → from ≤ℤ st.fork_baseline.total_tokens
    → Rises from us
    → charged_totals st us +ℤ st.fork_baseline.total_tokens
      ≡ max_ℤ st.fork_baseline.total_tokens (last_total from us)
unfolding charged_totals charge_growth
charged_totals-fork st from [] h b l r =
    rw (max_left st.fork_baseline.total_tokens from l) (omega int_laws)
charged_totals-fork st from (u ∷ us) h b l r =
    let base = st.fork_baseline.total_tokens in
    elim (Bool-cases (leb_ℤ u.total_tokens base)) [
      | inl copied ↦
          let ih = charged_totals-fork st u.total_tokens us h b (ground (arith, copied)) r.2 in
          rw (pending_charge st u h)
            (rw copied (ap (λ (x : ℤ). x +ℤ base) (zero-+ℤ (charged_totals st us)) ∙ ih))
      | inr past ↦
          let above : base ≤ℤ u.total_tokens = ground (arith, past) in
          let next = (charge_growth u (past_prefix st)).0 in
          rw (pending_charge st u h) (
            rw past (
              rw
                (max_right base (last_total u.total_tokens us)
                  (omega (arith, above, le-last u.total_tokens us r.2)))
                (carry _ _ _ _ _
                  (growth_step u (past_prefix st) (Rises-first u.total_tokens us r.2) b above)
                  (unforked next us refl r.2))))
    ]
