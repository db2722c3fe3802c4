-- ===== src/Evolution.antt =====
-- internal/evolution/evolution.go: the stage that a lifetime token total has reached.
pub mod Stages
pub mod Snapshots
mod Tests
use tokemon.Prelude.{
  ℕ, zero, suc, ◌-◌, Bool, List, [], ◌∷◌, Option, none, some, ltb, leb, ◌==◌, if◌then◌else◌, length,
  get_elem?,
}
use tokemon.Prelude.Int.{ℤ, pos, pos_part, ltb_ℤ, leb_ℤ, ◌-ℤ◌}
use tokemon.Prelude.Texts.{Text, text}
use tokemon.Prelude.Floats.{Float64, FloatOps, float_zero, float_one, float_lt}

pub record Form : Type 0 where
  pub stage : ℕ
  pub slug : Text
  pub name : Text
  pub lower_threshold : ℕ

abbrev form : ℕ → Text → Text → ℕ → Form
form stage slug name lower = record {
  stage = stage;
  slug = slug;
  name = name;
  lower_threshold = lower;
}

unfoldable pub forms : List Form
forms =
    form 0 (text "egg") (text "Egg") 0
    ∷ form 1 (text "bitling") (text "Bitling") 10
    ∷ form 2 (text "bytelet") (text "Bytelet") 100
    ∷ form 3 (text "promptling") (text "Promptling") 1_000
    ∷ form 4 (text "context-cub") (text "Context Cub") 10_000
    ∷ form 5 (text "token-scout") (text "Token Scout") 100_000
    ∷ form 6 (text "code-caster") (text "Code Caster") 1_000_000
    ∷ form 7 (text "agent-beast") (text "Agent Beast") 10_000_000
    ∷ form 8 (text "context-dragon") (text "Context Dragon") 100_000_000
    ∷ form 9 (text "token-titan") (text "Token Titan") 1_000_000_000
    ∷ form 10 (text "model-eater") (text "Model Eater") 2_000_000_000
    ∷ form 11 (text "context-deity") (text "Context Deity") 5_000_000_000
    ∷ form 12 (text "reality-core") (text "Reality Core") 10_000_000_000
    ∷ form 13 (text "inference-leviathan") (text "Inference Leviathan") 20_000_000_000
    ∷ form 14 (text "parameter-colossus") (text "Parameter Colossus") 50_000_000_000
    ∷ form 15 (text "world-weaver") (text "World Weaver") 100_000_000_000
    ∷ form 16 (text "cosmic-architect") (text "Cosmic Architect") 200_000_000_000
    ∷ form 17 (text "universe-engine") (text "Universe Engine") 500_000_000_000
    ∷ form 18 (text "the-singularity") (text "The Singularity") 1_000_000_000_000
    ∷ []

-- What an index out of range would read; the code never makes one.
abbrev no_form : Form
no_form = form 0 [] [] 0

-- `forms[stage]`
unfoldable pub form_at : ℕ → Form
unfolding forms
form_at stage = elim (get_elem? forms stage) [ none ↦ no_form | some f ↦ f ]

abbrev pub last_stage : ℕ
last_stage = 18

-- The loop of `Stage`, from a stage down to 1.
unfoldable pub stage_from : ℕ → ℤ → ℕ
stage_from zero tokens = 0
stage_from (suc k) tokens =
    let rest = stage_from k tokens in
    if leb_ℤ (pos (form_at (suc k)).lower_threshold) tokens then suc k else rest

unfoldable pub stage : ℤ → ℕ
unfolding forms
stage tokens = if leb_ℤ tokens (pos 0) then 0 else stage_from (length forms - 1) tokens

unfoldable pub form_for_stage : ℤ → Form
unfolding forms
form_for_stage stage =
    let low = if ltb_ℤ stage (pos 0) then pos 0 else stage in
    let high = if leb_ℤ (pos (length forms)) low then pos (length forms - 1) else low in
    form_at (pos_part high)

pub record Snapshot : Type 0 where
  pub lifetime_tokens : ℤ
  pub snapshot_stage : ℕ
  pub form_slug : Text
  pub form_name : Text
  pub lower_threshold : ℤ
  pub next_threshold : Option ℤ
  pub tokens_remaining : Option ℤ
  pub progress : Float64

module _ (floats : FloatOps) where
  open floats use {float_div, float_of_int}

  -- The share of the way to the next stage, held between 0 and 1.
  unfoldable pub progress_between : ℤ → ℤ → ℤ → Float64
  progress_between tokens lower next =
      let progress = float_div (float_of_int (tokens -ℤ lower)) (float_of_int (next -ℤ lower)) in
      let high = if float_lt progress float_zero then float_zero else progress in
      if float_lt float_one high then float_one else high

  -- `SnapshotFor` once a negative total has been replaced by 0.
  unfoldable pub snapshot_at : ℤ → Snapshot
  unfolding forms
  snapshot_at tokens =
      let reached = stage tokens in
      let form = form_for_stage (pos reached) in
      let lower = pos form.lower_threshold in
      let next = pos (form_at (suc reached)).lower_threshold in
      if reached == length forms - 1
      then record {
        lifetime_tokens = tokens;
        snapshot_stage = reached;
        form_slug = form.slug;
        form_name = form.name;
        lower_threshold = lower;
        next_threshold = none;
        tokens_remaining = none;
        progress = float_one;
      }
      else record {
        lifetime_tokens = tokens;
        snapshot_stage = reached;
        form_slug = form.slug;
        form_name = form.name;
        lower_threshold = lower;
        next_threshold = some next;
        tokens_remaining = some (next -ℤ tokens);
        progress = progress_between tokens lower next;
      }

  unfoldable pub snapshot_for : ℤ → Snapshot
  snapshot_for tokens = snapshot_at (if ltb_ℤ tokens (pos 0) then pos 0 else tokens)
