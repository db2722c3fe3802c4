-- ===== src/Database/Machines.antt =====
-- internal/database/database.go: the table `machines`, keyed by the machine's identifier, and
-- `upsertMachine`.
pub mod Order
pub mod Again
use tokemon.Prelude.{
  ℕ, Bool, true, false, ◌&&◌, ◌||◌, List, [], ◌∷◌, Option, none, some, if◌then◌else◌, ltb, ◌==◌,
}
use tokemon.Prelude.Int.{ℤ, pos}
use tokemon.Prelude.Texts.{Text}
use tokemon.Prelude.Maps.{Map, lookup, insert}
use tokemon.Usage.Event.{Event}
use tokemon.Database.Clock.{format_utc}

pub record Machine : Type 0 where
  pub name : Text
  pub operating_system : Text
  pub architecture : Text
  pub agent_version : Text
  pub detected_adapters : Text
  pub source_count : ℤ
  pub source_error_count : ℤ
  pub first_seen_at : Text
  pub last_seen_at : Text

-- `a > b` on texts, rune by rune.
unfoldable pub text_gt : Text → Text → Bool
text_gt [] t = false
text_gt (c ∷ s) [] = true
text_gt (c ∷ s) (d ∷ t) = ltb d c || (c == d && text_gt s t)

abbrev pub seen_again : Text → Text → Machine → Machine
seen_again name now m = record m {
  name = name;
  last_seen_at = if text_gt now m.last_seen_at then now else m.last_seen_at;
}

abbrev pub first_seen : Text → Text → Machine
first_seen name now = record {
  name = name;
  operating_system = [];
  architecture = [];
  agent_version = [];
  detected_adapters = [];
  source_count = pos 0;
  source_error_count = pos 0;
  first_seen_at = now;
  last_seen_at = now;
}

-- `upsertMachine`: the columns of the machine that an agent reports keep their defaults here.
unfoldable pub upsert_machine : Event → Text → Map Machine → Map Machine
upsert_machine e name machines =
    let now = format_utc e.timestamp in
    insert e.machine_id
      (elim (lookup e.machine_id machines) [
        | none ↦ first_seen name now
        | some m ↦ seen_again name now m
      ])
      machines
