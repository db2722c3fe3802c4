-- ===== src/Evolution/Snapshots.antt =====
-- What `SnapshotFor` reports: the bracket of thresholds round the total, and the progress in it.
use tokemon.Prelude.{
  ℕ, suc, ◌≤◌, ◌<◌, ◌≡◌, ◌⊎◌, refl, ◌∙◌, inl, inr, false, Option, none, some, arith, ==_iff, ◌==◌,
  Bool-cases,
}
use tokemon.Prelude.Int.{ℤ, pos, ◌≤ℤ◌, ◌<ℤ◌, ◌+ℤ◌, leb_ℤ, ltb_ℤ, int_laws}
use tokemon.Prelude.Floats.{FloatOps, float_zero, float_one, float_lt}
use tokemon.Evolution.{
  stage, form_at, form_for_stage, last_stage, Snapshot, snapshot_for, snapshot_at, progress_between,
}
use tokemon.Evolution.Stages.{stage-le_iff, stage-le_last}

zero-lt-zero : float_lt float_zero float_zero ≡ false
unfolding float_lt
zero-lt-zero = refl

one-lt-one : float_lt float_one float_one ≡ false
unfolding float_lt
one-lt-one = refl

one-lt-zero : float_lt float_one float_zero ≡ false
unfolding float_lt
one-lt-zero = refl

-- A report on a total: the total lies at or above the stage's threshold; below the last stage it
-- lies under the next threshold and the tokens remaining lead exactly there; at the last stage
-- there is no next threshold.
pub data Brackets (tokens lower : ℤ) : ℕ → Option ℤ → Option ℤ → Type 0 where
  within :
      {n : ℕ} (next remaining : ℤ)
      → n < last_stage
      → lower ≡ pos (form_at n).lower_threshold
      → lower ≤ℤ tokens
      → tokens <ℤ next
      → remaining +ℤ tokens ≡ next
      → next ≡ pos (form_at (suc n)).lower_threshold
      → Brackets tokens lower n (some next) (some remaining)
  topmost :
      {n : ℕ}
      → n ≡ last_stage
      → lower ≡ pos (form_at n).lower_threshold
      → lower ≤ℤ tokens
      → Brackets tokens lower n none none

form_for_stage-in_range : (n : ℕ) → n ≤ 18 → form_for_stage (pos n) ≡ form_at n
unfolding form_for_stage
form_for_stage-in_range n h = ground arith

threshold_zero : (form_at 0).lower_threshold ≡ 0
unfolding form_at
threshold_zero = refl

stage-lower : (t : ℤ) → pos 0 ≤ℤ t → pos (form_at (stage t)).lower_threshold ≤ℤ t
stage-lower t h = elim ((stage-le_iff (stage t) t (stage-le_last t)).0 (omega arith)) [
  | inl none_reached ↦ rw none_reached (rw threshold_zero h)
  | inr reached ↦ reached
]

stage-upper : (t : ℤ) → stage t < last_stage → t <ℤ pos (form_at (suc (stage t))).lower_threshold
stage-upper t h = elim (Bool-cases (leb_ℤ (pos (form_at (suc (stage t))).lower_threshold) t)) [
  | inl passed ↦ absurd (omega (arith, (stage-le_iff (suc (stage t)) t h).1 (inr (ground arith))))
  | inr below ↦ ground arith
]

module _ (floats : FloatOps) where
  abbrev IsBracketed : Snapshot → Type 0
  IsBracketed s =
      Brackets s.lifetime_tokens s.lower_threshold s.snapshot_stage s.next_threshold
        s.tokens_remaining

  snapshot_at-IsBracketed : (t : ℤ) → pos 0 ≤ℤ t → IsBracketed (snapshot_at floats t)
  unfolding snapshot_at
  snapshot_at-IsBracketed t h = elim (Bool-cases (stage t == 18)) [
    | inl last ↦ rw last (
        rw (form_for_stage-in_range (stage t) (stage-le_last t))
          (topmost ((==_iff _ _).0 last) refl (stage-lower t h)))
    | inr earlier ↦
        let below : stage t < last_stage = ground (arith, stage-le_last t) in
        rw earlier (
          rw (form_for_stage-in_range (stage t) (stage-le_last t))
            (within _ _ below refl (stage-lower t h) (stage-upper t below) (omega int_laws) refl))
  ]

  total-snapshot_at : (t : ℤ) → (snapshot_at floats t).lifetime_tokens ≡ t
  unfolding snapshot_at
  total-snapshot_at t = elim (Bool-cases (stage t == 18)) [
    | inl last ↦ rw last refl
    | inr earlier ↦ rw earlier refl
  ]

  -- For every token total, the reported total is the given one, or 0 for a negative one, and the
  -- reported thresholds bracket it: below the last stage the total lies from the stage's threshold up to, and not including, the
  -- next one, and the tokens remaining lead exactly there; at the last stage no threshold follows.
  pub snapshot_for-Brackets :
      (raw : ℤ)
      → let s = snapshot_for floats raw in
        (((raw <ℤ pos 0) × (s.lifetime_tokens ≡ pos 0))
          ⊎ ((pos 0 ≤ℤ raw) × (s.lifetime_tokens ≡ raw)))
        × Brackets s.lifetime_tokens s.lower_threshold s.snapshot_stage s.next_threshold
            s.tokens_remaining
  unfolding snapshot_for
  snapshot_for-Brackets raw = (
    elim (Bool-cases (ltb_ℤ raw (pos 0))) [
      | inl below ↦ inl (ground (arith, below), total-snapshot_at _ ∙ ground (arith, below))
      | inr above ↦ inr (ground (arith, above), total-snapshot_at _ ∙ ground (arith, above))
    ],
    snapshot_at-IsBracketed _ (ground arith),
  )

  -- Whatever the machine's division returns, the progress is not below 0 and not above 1.
  pub progress_between_clamped :
      (tokens lower next : ℤ)
      → let p = progress_between floats tokens lower next in
        (float_lt p float_zero ≡ false) × (float_lt float_one p ≡ false)
  unfolding progress_between
  progress_between_clamped tokens lower next = ground (arith, zero-lt-zero, one-lt-one, one-lt-zero)
