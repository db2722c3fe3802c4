-- ===== src/Database/Clock.antt =====
-- How internal/database/database.go writes a time: UTC in the layout
-- 2006-01-02T15:04:05.999999999Z07:00, which drops the zeros at the end of the fraction. Right for
-- the years 0 to 9999.
use tokemon.Prelude.{ℕ, ◌+◌, ◌-◌, ◌*◌, ◌/◌, ◌%◌, [], ◌∷◌, ◌++◌, ltb, leb, ◌==◌, if◌then◌else◌}
use tokemon.Prelude.Int.{pos, pos_part, ◌+ℤ◌}
use tokemon.Prelude.Texts.{Text, trim_right}
use tokemon.Usage.Event.{Time}

abbrev pub billion : ℕ
billion = 1_000_000_000

abbrev digit : ℕ → ℕ
digit n = b'0' + n % 10

abbrev two_digits : ℕ → Text
two_digits n = digit (n / 10) ∷ digit n ∷ []

abbrev four_digits : ℕ → Text
four_digits n = two_digits (n / 100) ++ two_digits (n % 100)

-- The digits of a number of nanoseconds below a second.
abbrev nine_digits : ℕ → Text
nine_digits n =
    two_digits (n / 10_000_000)
    ++ two_digits (n / 100_000 % 100)
    ++ two_digits (n / 1_000 % 100)
    ++ two_digits (n / 10 % 100)
    ++ (digit n ∷ [])

abbrev pub fraction : ℕ → Text
fraction nanos = if nanos == 0 then [] else b'.' ∷ trim_right (λ c. c == b'0') (nine_digits nanos)

pub record Date : Type 0 where
  pub year : ℕ
  pub month : ℕ
  pub day : ℕ

-- The date a number of days after the first of March of the year 0.
unfoldable pub date_of_days : ℕ → Date
date_of_days days =
    let era_day = days % 146_097 in
    let era_year = (era_day - era_day / 1_460 + era_day / 36_524 - era_day / 146_096) / 365 in
    let year_day = era_day - (365 * era_year + era_year / 4 - era_year / 100) in
    let march_month = (5 * year_day + 2) / 153 in
    let month = if ltb march_month 10 then march_month + 3 else march_month - 9 in
    let march_year = era_year + 400 * (days / 146_097) in
    record {
      year = if leb month 2 then march_year + 1 else march_year;
      month = month;
      day = year_day - (153 * march_month + 2) / 5 + 1;
    }

-- Nanoseconds from the first of March of the year 0 to the Unix epoch: 719,468 days.
abbrev pub epoch_nanos : ℕ
epoch_nanos = 719_468 * 86_400 * 1_000_000_000

-- The text up to the whole second, a number of seconds after the first of March of the year 0.
unfoldable pub stamp : ℕ → Text
unfolding date_of_days
stamp seconds =
    let date = date_of_days (seconds / 86_400) in
    let clock = seconds % 86_400 in
    four_digits date.year
    ++ (b'-' ∷ two_digits date.month)
    ++ (b'-' ∷ two_digits date.day)
    ++ (b'T' ∷ two_digits (clock / 3_600))
    ++ (b':' ∷ two_digits (clock / 60 % 60))
    ++ (b':' ∷ two_digits (clock % 60))

unfoldable pub format_utc : Time → Text
format_utc t =
    let nanos = pos_part (t +ℤ pos epoch_nanos) in
    stamp (nanos / billion) ++ (fraction (nanos % billion) ++ (b'Z' ∷ []))
