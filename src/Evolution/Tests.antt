-- ===== src/Evolution/Tests.antt =====
-- Runs of the evolution component, and its theorems at concrete totals.
use tokemon.Prelude.{◌≡◌, ◌⊎◌, refl}
use tokemon.Prelude.Int.{pos, ◌≤ℤ◌, ◌<ℤ◌}
use tokemon.Prelude.Floats.{FloatOps, float_one}
use tokemon.Evolution.{stage, stage_from, form_at, snapshot_for}
use tokemon.Evolution.Snapshots.{Brackets, snapshot_for-Brackets}

stage_12345 : stage (pos 12345) ≡ 4
unfolding stage stage_from form_at
stage_12345 = refl

-- Division that always returns 2.0, to see the progress held back.
abbrev floats : FloatOps
floats = record {
  float_add = λ x y. x;
  float_mul = λ x y. x;
  float_div = λ x y. 0x4000000000000000;
  float_of_int = λ i. float_one;
}

snapshot_for-Brackets_example :
    let s = snapshot_for floats (pos 12345) in
    (((pos 12345 <ℤ pos 0) × (s.lifetime_tokens ≡ pos 0))
      ⊎ ((pos 0 ≤ℤ pos 12345) × (s.lifetime_tokens ≡ pos 12345)))
    × Brackets s.lifetime_tokens s.lower_threshold s.snapshot_stage s.next_threshold
        s.tokens_remaining
snapshot_for-Brackets_example = snapshot_for-Brackets floats (pos 12345)
