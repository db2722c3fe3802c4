-- ===== src/Adapters/Source.antt =====
-- internal/adapters/adapter.go: records of a file, cursors and reports, as every adapter has them. A
-- file is the list of its bytes.
pub mod Records
use tokemon.Prelude.{ℕ, Bool, true, false, not, ◌&&◌, List, [], ◌∷◌, ◌==◌, if◌then◌else◌}
use tokemon.Prelude.Int.{ℤ, pos, ltb_ℤ}
use tokemon.Prelude.Texts.{Text, text_eq}
use tokemon.Usage.Event.{Event}

abbrev pub Bytes : Type 0
Bytes = List ℕ

abbrev pub newline : ℕ
newline = 10

-- The records that the calls of `ReadRecordLimit` return in turn, each up to its newline, and the
-- bytes after the last newline, which the call at the end of the file returns.
abbrev pub add_byte : ℕ → List Bytes → Bytes → List Bytes × Bytes
add_byte c [] rest = if c == newline then ((c ∷ []) ∷ [], rest) else ([], c ∷ rest)
add_byte c (r ∷ records) rest =
    (if c == newline then (c ∷ []) ∷ r ∷ records else (c ∷ r) ∷ records, rest)

unfoldable pub cut_records : Bytes → List Bytes × Bytes
cut_records [] = ([], [])
cut_records (c ∷ bytes) = let (records, rest) = cut_records bytes in add_byte c records rest

-- `Cursor`
pub record Cursor : Type 0 where
  pub identity : Text
  pub offset : ℤ
  pub line : ℤ
  pub state : Text

abbrev pub no_cursor : Cursor
no_cursor = record { identity = []; offset = pos 0; line = pos 0; state = [] }

abbrev same_int : ℤ → ℤ → Bool
same_int v w = not (ltb_ℤ v w) && not (ltb_ℤ w v)

unfoldable pub cursor_eq : Cursor → Cursor → Bool
cursor_eq a b =
    text_eq a.identity b.identity
    && same_int a.offset b.offset
    && same_int a.line b.line
    && text_eq a.state b.state

-- `ParseResult`
pub record ParseResult : Type 0 where
  pub events : List Event
  pub cursor : Cursor
