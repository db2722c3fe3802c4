-- ===== src/Usage/Privacy/Tests.antt =====
-- The theorems on the privacy guard at concrete events.
use tokemon.Prelude.{◌≡◌, ◌≢◌, refl, false, none, any, inl, arith, some}
use tokemon.Prelude.Int.{pos}
use tokemon.Prelude.Texts.{Text, text, text_eq, is_space, trim_left, trim_right, trim_space}
use tokemon.Prelude.Find.{
  contains_any, contains_rune, has_prefix, contains, replace_rune, lower_rune, to_lower,
}
use tokemon.Usage.Event.{Event}
use tokemon.Usage.Names.{
  path_runes, split_on, last_part, label_of, normalize_project, normalize_session_id,
  is_safe_session_id,
}
use tokemon.Usage.Names.Projects.{LowersToLetters}
use tokemon.Usage.Names.Sessions.{IsDigest}
use tokemon.Usage.Privacy.{
  identifiers, identifier_contains_sensitive_value, is_drive_path, validate_outbound,
}
use tokemon.Usage.Privacy.Guard.{validate_outbound-normalized}
use tokemon.Usage.Samples.{sample_event, bare_event, sample_tables, sample_digest}

-- Its components, 160 and 40, exceed its total.
abbrev contradictory : Event
contradictory = record sample_event { input_tokens = some (pos 160) }

abbrev task_event : Event
task_event = record bare_event { session_id = text "task-42" }

task_kept : normalize_session_id sample_tables sample_digest (text "task-42") ≡ text "task-42"
unfolding normalize_session_id is_safe_session_id text_eq trim_space trim_left trim_right is_space
    contains_any contains_rune has_prefix to_lower lower_rune
task_kept = refl

-- The guard refuses that session although normalizing it leaves it as it is.
task_refused : validate_outbound sample_tables sample_digest task_event ≢ none
unfolding validate_outbound identifier_contains_sensitive_value contains has_prefix text_eq
    contains_any is_drive_path
task_refused h = ground (arith, h)

letters : LowersToLetters sample_tables
letters c = inl (omega arith)

digests : (t : Text) → IsDigest (sample_digest t)
digests t = (refl, ground arith)

project_known : bare_event.project ≡ normalize_project sample_tables (text "/home/me/Tokemon")
unfolding normalize_project split_on last_part label_of replace_rune trim_space trim_left trim_right
    is_space text_eq to_lower lower_rune
project_known = refl

session_known :
    bare_event.session_id ≡ normalize_session_id sample_tables sample_digest (text " session-1")
unfolding normalize_session_id is_safe_session_id text_eq trim_space trim_left trim_right is_space
    contains_any contains_rune has_prefix to_lower lower_rune
session_known = refl

identity_known : contains_any bare_event.source.identity path_runes ≡ false
unfolding contains_any contains_rune
identity_known = refl

identifiers_known : any identifier_contains_sensitive_value (identifiers bare_event) ≡ false
unfolding identifier_contains_sensitive_value text_eq contains_any contains_rune contains has_prefix
    is_drive_path
identifiers_known = refl

validate_outbound-normalized_example :
    validate_outbound sample_tables sample_digest bare_event ≡ none
validate_outbound-normalized_example =
    validate_outbound-normalized sample_tables sample_digest letters digests bare_event
      (text "/home/me/Tokemon") (text " session-1") project_known session_known identity_known
      identifiers_known refl
