-- ===== src/Usage/Tests.antt =====
-- The theorems on events at a concrete event, and runs of the normalization.
use tokemon.Prelude.{◌≡◌, ◌≤◌, refl, false, none, some, arith, All, ◌↔◌, inl}
use tokemon.Prelude.Int.{ℤ, pos, max_int64, pos_part, add64, sub64, ◌+ℤ◌}
use tokemon.Prelude.Texts.{
  Text, text, text_eq, byte_len, is_space, is_control, trim_left, trim_right, trim_space,
}
use tokemon.Prelude.Find.{
  contains_any, contains_rune, has_prefix, contains, lower_rune, upper_rune, to_lower, to_upper,
}
use tokemon.Usage.Event.{Event, object, accuracy_valid}
use tokemon.Usage.Totals.{validate_token_totals, add_components, components}
use tokemon.Usage.Totals.Exact.{IsCount, Covers, validate_token_totals_iff}
use tokemon.Usage.Names.{path_runes, normalize_project, normalize_session_id}
use tokemon.Usage.Names.Projects.{LowersToLetters, normalize_project-label}
use tokemon.Usage.Names.Sessions.{IsDigest, normalize_session_id_idem}
use tokemon.Usage.Metadata.{
  validate_metadata, validate_fields, validate_items, validate_metadata_key, max_metadata_depth,
}
use tokemon.Usage.Metadata.Depth.{enclosing, validate_metadata-enclosing}
use tokemon.Usage.Validate.{
  validate_text, validate_event_id_digest, bad_currency_code, check_metadata, check_identity,
  check_labels, check_numbers, check_source, validate_at, counts, is_ascii_alpha,
}
use tokemon.Usage.Validate.Sound.{IsAdmitted, IsBounded, validate_at-IsAdmitted}
use tokemon.Usage.Samples.{sample_event, sample_metadata, sample_tables, sample_digest, sample_len}

sample_counts : All IsCount (components sample_event)
sample_counts = ((refl, omega arith), ((refl, omega arith), ((refl, omega arith), (tt, tt))))

sample_total : (t : ℤ) → sample_event.total_tokens ≡ some t → pos_part t ≤ max_int64
sample_total t h = ground (arith, h)

sample-IsBounded : All IsBounded (counts sample_event)
sample-IsBounded =
    (omega arith, (omega arith, (omega arith, (tt, (omega arith, (omega arith, (tt, tt)))))))

sample_metadata-valid : validate_metadata sample_tables (object sample_metadata) 0 ≡ none
unfolding validate_metadata validate_fields validate_items validate_metadata_key to_lower lower_rune
    contains has_prefix trim_space trim_left trim_right text_eq is_space is_control byte_len
sample_metadata-valid = refl

sample_event-valid :
    validate_at sample_tables sample_len (pos 1_700_000_000_000_000_001) sample_event ≡ none
unfolding validate_at check_identity check_labels check_numbers check_source check_metadata
    validate_token_totals add_components validate_text validate_event_id_digest bad_currency_code
    is_ascii_alpha accuracy_valid contains_any contains_rune to_upper upper_rune text_eq trim_space
    trim_left trim_right is_space is_control byte_len has_prefix add64 sub64 ◌+ℤ◌ validate_metadata
    validate_fields validate_metadata_key to_lower lower_rune contains
sample_event-valid = refl

validate_token_totals_iff_example :
    (validate_token_totals sample_event ≡ none)
    ↔ Covers sample_event.total_tokens (components sample_event)
validate_token_totals_iff_example =
    validate_token_totals_iff sample_event sample_counts sample_total

sample_letters : LowersToLetters sample_tables
sample_letters c = inl (omega arith)

normalize_project-label_example :
    contains_any (normalize_project sample_tables (text "/home/me/Tokemon")) path_runes ≡ false
normalize_project-label_example =
    normalize_project-label sample_tables sample_letters (text "/home/me/Tokemon")

sample_digests : (t : Text) → IsDigest (sample_digest t)
sample_digests t = (refl, ground arith)

normalize_session_id_idem_example :
    normalize_session_id sample_tables sample_digest
      (normalize_session_id sample_tables sample_digest (text "../x"))
    ≡ normalize_session_id sample_tables sample_digest (text "../x")
normalize_session_id_idem_example =
    normalize_session_id_idem sample_tables sample_digest sample_digests (text "../x")

validate_metadata-enclosing_example : enclosing (object sample_metadata) ≤ max_metadata_depth
validate_metadata-enclosing_example =
    validate_metadata-enclosing sample_tables (object sample_metadata) sample_metadata-valid

validate_at-IsAdmitted_example : IsAdmitted (pos 1_700_000_000_000_000_001) sample_event
validate_at-IsAdmitted_example =
    validate_at-IsAdmitted sample_tables sample_len (pos 1_700_000_000_000_000_001) sample_event
      sample-IsBounded sample_event-valid

-- Its components, 160 and 40, exceed its total.
abbrev contradictory : Event
contradictory = record sample_event { input_tokens = some (pos 160) }
