-- ===== src/Adapters/Clock.antt =====
-- internal/adapters/sqlite.go: the time units of the tools' databases. Products wrap around as int64.
use tokemon.Prelude.{ℕ, ◌*◌, ◌/◌, Option, none, some, if◌then◌else◌}
use tokemon.Prelude.Int.{ℤ, pos, pos_part, neg_part, sub_ℕ, leb_ℤ, ltb_ℤ, wrap64, sub64}
use tokemon.Usage.Event.{Time}

-- 10 ^ 18, 10 ^ 15 and 10 ^ 12: from there on a value is in nano-, micro- and milliseconds.
abbrev pub from_nanos : ℤ
from_nanos = pos 1_000_000_000_000_000_000

abbrev pub from_micros : ℤ
from_micros = pos 1_000_000_000_000_000

abbrev pub from_millis : ℤ
from_millis = pos 1_000_000_000_000

abbrev scale : ℕ → ℤ → ℤ
scale k v = sub_ℕ (k * pos_part v) (k * neg_part v)

-- `UnixTime`, in nanoseconds.
unfoldable pub unix_time : ℤ → Time
unix_time value =
    if leb_ℤ from_nanos value
    then value
    else (if leb_ℤ from_micros value
        then wrap64 (scale 1_000 value)
        else (if leb_ℤ from_millis value then scale 1_000_000 value else scale 1_000_000_000 value))

-- `epochMilliseconds`; the values divided are positive.
unfoldable pub epoch_milliseconds : ℤ → ℤ
epoch_milliseconds value =
    if leb_ℤ from_nanos value
    then pos (pos_part value / 1_000_000)
    else (if leb_ℤ from_micros value
        then pos (pos_part value / 1_000)
        else (if leb_ℤ from_millis value then value else wrap64 (scale 1_000 value)))

-- `DurationMS`
unfoldable pub duration_ms : ℤ → ℤ → Option ℤ
unfolding epoch_milliseconds
duration_ms start end =
    let duration = sub64 (epoch_milliseconds end) (epoch_milliseconds start) in
    if leb_ℤ end start then none else (if ltb_ℤ duration (pos 0) then none else some duration)
