-- ===== src/Evolution/Stages.antt =====
-- Which stage a total has reached: the search through the table against the thresholds.
use tokemon.Prelude.{
  ℕ, zero, suc, ◌≤◌, ◌<◌, ◌≡◌, refl, ◌⊎◌, inl, inr, ◌↔◌, Bool, true, ◌&&◌, arith, ltb, ltb→lt,
  Bool-cases, ℕ_discrete,
}
use tokemon.Prelude.Int.{ℤ, pos, ◌≤ℤ◌, leb_ℤ}
use tokemon.Evolution.{stage, stage_from, form_at, last_stage}

-- The table in order, checked entry by entry.
ascending : ℕ → Bool
ascending zero = true
ascending (suc n) = ltb (form_at n).lower_threshold (form_at (suc n)).lower_threshold && ascending n

thresholds_ascend : ascending 18 ≡ true
unfolding ascending form_at
thresholds_ascend = refl

threshold-lt-suc_of :
    (k n : ℕ)
    → ascending k ≡ true
    → n < k
    → (form_at n).lower_threshold < (form_at (suc n)).lower_threshold
unfolding ascending
threshold-lt-suc_of zero n h l = elim l [ ]
threshold-lt-suc_of (suc k) n h l = elim (ℕ_discrete n k) [
  | yes e ↦ rw e (ltb→lt _ _ (ground arith))
  | no ne ↦ threshold-lt-suc_of k n (ground arith) (omega arith)
]

pub threshold_mono :
    (m n : ℕ) → m ≤ n → n ≤ 18 → (form_at m).lower_threshold ≤ (form_at n).lower_threshold
threshold_mono m zero h l = let e : m ≡ 0 = omega arith in rw e (omega arith)
threshold_mono m (suc n) h l = elim (ℕ_discrete m (suc n)) [
  | yes e ↦ rw e (omega arith)
  | no ne ↦ omega (
    arith,
    threshold_mono m n (omega arith) (omega arith),
    threshold-lt-suc_of 18 n thresholds_ascend (omega arith),
  )
]

stage_from-le : (k : ℕ) (t : ℤ) → stage_from k t ≤ k
unfolding stage_from
stage_from-le zero t = omega arith
stage_from-le (suc k) t = ground (arith, stage_from-le k t)

stage_from-reached :
    (k : ℕ) (t : ℤ) → (stage_from k t ≡ 0) ⊎ (pos (form_at (stage_from k t)).lower_threshold ≤ℤ t)
unfolding stage_from
stage_from-reached zero t = inl refl
stage_from-reached (suc k) t = elim (Bool-cases (leb_ℤ (pos (form_at (suc k)).lower_threshold) t)) [
  | inl passed ↦ rw passed (inr (ground arith))
  | inr failed ↦ rw failed (stage_from-reached k t)
]

stage_from-greatest :
    (k n : ℕ) (t : ℤ) → n ≤ k → pos (form_at n).lower_threshold ≤ℤ t → n ≤ stage_from k t
unfolding stage_from
stage_from-greatest zero n t h r = h
stage_from-greatest (suc k) n t h r = elim (ℕ_discrete n (suc k)) [
  | yes e ↦ let reached : pos (form_at (suc k)).lower_threshold ≤ℤ t = rw (← e) r in ground arith
  | no ne ↦
      let least = stage_from-greatest k n t (omega arith) r in
      ground (arith, least, stage_from-le k t)
]

stage-reached : (t : ℤ) → (stage t ≡ 0) ⊎ (pos (form_at (stage t)).lower_threshold ≤ℤ t)
unfolding stage
stage-reached t = elim (Bool-cases (leb_ℤ t (pos 0))) [
  | inl low ↦ rw low (inl refl)
  | inr high ↦ rw high (stage_from-reached 18 t)
]

pub stage-le_last : (t : ℤ) → stage t ≤ last_stage
unfolding stage
stage-le_last t = ground (arith, stage_from-le 18 t)

threshold_pos : (n : ℕ) → n < 18 → 0 < (form_at (suc n)).lower_threshold
threshold_pos n h = omega (arith, threshold-lt-suc_of 18 n thresholds_ascend h)

stage-greatest :
    (n : ℕ) (t : ℤ) → n < 18 → pos (form_at (suc n)).lower_threshold ≤ℤ t → suc n ≤ stage t
unfolding stage
stage-greatest n t h r = ground (arith, stage_from-greatest 18 (suc n) t h r, threshold_pos n h)

-- For each of the nineteen stages and every token total: the total has reached at least that stage
-- exactly when the stage is 0 or the total is at least the stage's threshold.
pub stage-le_iff :
    (n : ℕ) (t : ℤ)
    → n ≤ last_stage
    → (n ≤ stage t) ↔ ((n ≡ 0) ⊎ (pos (form_at n).lower_threshold ≤ℤ t))
stage-le_iff n t h = (only_if, if_part n h)
  where
    only_if : n ≤ stage t → (n ≡ 0) ⊎ (pos (form_at n).lower_threshold ≤ℤ t)
    only_if le = elim (stage-reached t) [
      | inl none_reached ↦ inl (omega arith)
      | inr reached ↦ inr (omega (arith, threshold_mono n (stage t) le (stage-le_last t)))
    ]

    if_part : (m : ℕ) → m ≤ 18 → (m ≡ 0) ⊎ (pos (form_at m).lower_threshold ≤ℤ t) → m ≤ stage t
    if_part zero l r = omega arith
    if_part (suc m) l (inl zero') = omega arith
    if_part (suc m) l (inr r) = stage-greatest m t l r

-- More tokens never lower the stage.
pub stage_mono : (s t : ℤ) → s ≤ℤ t → stage s ≤ stage t
stage_mono s t h = elim ((stage-le_iff (stage s) s (stage-le_last s)).0 (omega arith)) [
  | inl none_reached ↦ omega arith
  | inr reached ↦ (stage-le_iff (stage s) t (stage-le_last s)).1 (inr (omega arith))
]
