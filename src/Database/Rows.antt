-- ===== src/Database/Rows.antt =====
-- internal/database/database.go: the table `usage_events` as the list of its rows in the order of
-- their insertion, its two uniqueness constraints (the primary key and the partial unique index on
-- detailed Codex usage), and what SQLite's statements do to it.
pub mod Keys
pub mod Apart
use tokemon.Prelude.{
  ℕ, ◌+◌, Bool, true, false, not, ◌&&◌, ◌||◌, List, [], ◌∷◌, ◌++◌, Option, none, some,
  if◌then◌else◌, any, all, filter, map,
}
use tokemon.Prelude.Int.{ℤ, ltb_ℤ}
use tokemon.Prelude.Texts.{Text, text, text_eq}
use tokemon.Prelude.Floats.{Float64}

pub record Row : Type 0 where
  pub event_id : Text
  pub timestamp : Text
  pub machine_id : Text
  pub project : Text
  pub provider : Text
  pub raw_model : Text
  pub canonical_model : Text
  pub tool : Text
  pub input_tokens : Option ℤ
  pub output_tokens : Option ℤ
  pub cache_read_tokens : Option ℤ
  pub cache_write_tokens : Option ℤ
  pub reasoning_tokens : Option ℤ
  pub total_tokens : Option ℤ
  pub cost : Option Float64
  pub cost_estimated : Bool
  pub currency : Text
  pub session_id : Option Text
  pub duration_ms : Option ℤ
  pub token_accuracy : Text
  pub adapter : Text
  pub adapter_version : Text

abbrev pub Rows : Type 0
Rows = List Row

abbrev pub codex : Text
codex = text "codex"

abbrev pub is_known : Option ℤ → Bool
is_known none = false
is_known (some _) = true

-- `a IS b` in SQL: equal, or both NULL.
unfoldable pub int_is : Option ℤ → Option ℤ → Bool
int_is none none = true
int_is none (some w) = false
int_is (some v) none = false
int_is (some v) (some w) = not (ltb_ℤ v w) && not (ltb_ℤ w v)

unfoldable pub text_is : Option Text → Option Text → Bool
text_is none none = true
text_is none (some t) = false
text_is (some s) none = false
text_is (some s) (some t) = text_eq s t

abbrev pub dedup_texts : Row → List Text
dedup_texts r = r.machine_id ∷ r.timestamp ∷ r.provider ∷ r.raw_model ∷ r.tool ∷ []

abbrev pub dedup_counts : Row → List (Option ℤ)
dedup_counts r =
    r.input_tokens ∷ r.output_tokens ∷ r.cache_read_tokens ∷ r.cache_write_tokens
    ∷ r.reasoning_tokens ∷ r.total_tokens ∷ []

unfoldable pub texts_eq : List Text → List Text → Bool
texts_eq [] [] = true
texts_eq [] (t ∷ ts) = false
texts_eq (s ∷ ss) [] = false
texts_eq (s ∷ ss) (t ∷ ts) = text_eq s t && texts_eq ss ts

unfoldable pub counts_is : List (Option ℤ) → List (Option ℤ) → Bool
counts_is [] [] = true
counts_is [] (w ∷ ws) = false
counts_is (v ∷ vs) [] = false
counts_is (v ∷ vs) (w ∷ ws) = int_is v w && counts_is vs ws

-- The twelve columns of the index compared by IS.
unfoldable pub same_usage : Row → Row → Bool
same_usage a b =
    texts_eq (dedup_texts a) (dedup_texts b)
    && text_is a.session_id b.session_id
    && counts_is (dedup_counts a) (dedup_counts b)

-- The condition of the partial index.
unfoldable pub is_detailed : Row → Bool
is_detailed r = text_eq r.adapter codex && all is_known (dedup_counts r)

abbrev pub has_session : Row → Bool
has_session r = elim r.session_id [ none ↦ false | some _ ↦ true ]

-- Two rows that the index does not admit together; a NULL session differs from every other.
unfoldable pub index_clash : Row → Row → Bool
index_clash a b = is_detailed a && is_detailed b && has_session a && same_usage a b

unfoldable pub has_id : Text → Row → Bool
has_id id r = text_eq r.event_id id

-- Two rows that the table does not admit together.
unfoldable pub collides : Row → Row → Bool
collides a b = has_id a.event_id b || index_clash a b

unfoldable pub others : Text → Rows → Rows
others id rows = filter (λ r. not (has_id id r)) rows

-- SELECT … WHERE … LIMIT 1
unfoldable pub find_row : (Row → Bool) → Rows → Option Row
find_row p [] = none
find_row p (r ∷ rows) = let later = find_row p rows in if p r then some r else later

-- INSERT OR IGNORE: the table, and whether a row was inserted.
unfoldable pub insert_or_ignore : Row → Rows → Rows × Bool
insert_or_ignore row rows =
    if any (collides row) rows then (rows, false) else (rows ++ (row ∷ []), true)

unfoldable pub replace : Text → Row → Rows → Rows
replace id row rows = map (λ r. if has_id id r then row else r) rows

-- Whether an UPDATE of the row `id` meets a row and keeps the constraints.
unfoldable pub can_replace : Text → Row → Rows → Bool
can_replace id row rows = any (has_id id) rows && not (any (collides row) (others id rows))

-- UPDATE OR IGNORE … WHERE event_id = id: the table, and whether a row was updated.
unfoldable pub update_or_ignore : Text → Row → Rows → Rows × Bool
update_or_ignore id row rows =
    if can_replace id row rows then (replace id row rows, true) else (rows, false)

-- UPDATE … WHERE event_id = id: `none` is the error of a violated constraint.
unfoldable pub update : Text → Row → Rows → Option (Rows × Bool)
update id row rows =
    if not (any (has_id id) rows)
    then some (rows, false)
    else (if any (collides row) (others id rows) then none else some (replace id row rows, true))

-- DELETE … WHERE event_id = id is `others id`.
