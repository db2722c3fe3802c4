-- ===== src/Database/Rows/Apart.antt =====
-- No two rows of the table violate a constraint, and what keeps it so.
use tokemon.Prelude.{
  ◌≡◌, refl, sym, ◌∙◌, ap, subst, Bool, true, false, ◌||◌, [], ◌∷◌, ◌++◌, some, arith, any, filter,
  inl, inr, Bool-cases, ||-eq-false, any-append, any-Memᴰ, any-false, Memᴰ-filter,
}
use tokemon.Prelude.Texts.{Text}
use mathlib.Core.List.{Memᴰ}
use mathlib.Core.List.Memᴰ.{head, tail}
use tokemon.Database.Rows.{Row, Rows, has_id, collides, others, find_row, replace}
use tokemon.Database.Rows.Keys.{collides_id, collides_sym, has_id_iff}

abbrev pub Apart : Rows → Type 0
Apart [] = Unit
Apart (r ∷ rows) = (any (collides r) rows ≡ false) × Apart rows

pub Apart-append :
    (row : Row) (rows : Rows)
    → any (collides row) rows ≡ false
    → Apart rows
    → Apart (rows ++ (row ∷ []))
Apart-append row [] h a = (refl, tt)
Apart-append row (r ∷ rows) h (first, later) = (
  ground (arith, any-append (collides r) rows (row ∷ []), first, h, collides_sym row r),
  Apart-append row rows (ground (arith, h)) later,
)

pub Apart-filter : (p : Row → Bool) (rows : Rows) → Apart rows → Apart (filter p rows)
Apart-filter p [] a = tt
Apart-filter p (r ∷ rows) (first, later) = elim (Bool-cases (p r)) [
  | inl kept ↦ rw kept (
    any-false (collides r) (filter p rows)
        (λ x i. any-Memᴰ (collides r) rows x first (Memᴰ-filter p rows x i).0),
    Apart-filter p rows later,
  )
  | inr gone ↦ rw gone (Apart-filter p rows later)
]

-- Of two rows of the table that collide, one is the other.
pub Apart-same :
    (rows : Rows) (a b : Row) → Apart rows → Memᴰ a rows → Memᴰ b rows → collides a b ≡ true → a ≡ b
Apart-same [] a b apart i j h = elim i [ ]
Apart-same (r ∷ rows) a b apart (head e) (head e') h = e ∙ sym e'
Apart-same (r ∷ rows) a b (first, later) (head e) (tail j) h =
    absurd
      (ground (arith, any-Memᴰ (collides r) rows b first j, subst (λ x. collides x b ≡ true) e h))
Apart-same (r ∷ rows) a b (first, later) (tail i) (head e) h = absurd (
    ground (
      arith,
      collides_sym r a (any-Memᴰ (collides r) rows a first i),
      subst (λ x. collides a x ≡ true) e h,
    ))
Apart-same (r ∷ rows) a b (first, later) (tail i) (tail j) h = Apart-same rows a b later i j h

any-replace :
    (q : Row → Bool) (id : Text) (row : Row) (rows : Rows)
    → q row ≡ false
    → any q rows ≡ false
    → any q (replace id row rows) ≡ false
unfolding replace
any-replace q id row [] h k = refl
any-replace q id row (r ∷ rows) h k = ground (arith, h, k, any-replace q id row rows h)

replace_absent :
    (id : Text) (row : Row) (rows : Rows)
    → any (has_id id) rows ≡ false
    → replace id row rows ≡ rows
unfolding replace
replace_absent id row [] h = refl
replace_absent id row (r ∷ rows) h =
    let (other, rest) = ||-eq-false (has_id id r) (any (has_id id) rows) h in
    rw other (ap (λ (t : Rows). r ∷ t) (replace_absent id row rows rest))

others_absent : (id : Text) (rows : Rows) → any (has_id id) rows ≡ false → others id rows ≡ rows
unfolding others
others_absent id [] h = refl
others_absent id (r ∷ rows) h =
    let (other, rest) = ||-eq-false (has_id id r) (any (has_id id) rows) h in
    rw other (ap (λ (t : Rows). r ∷ t) (others_absent id rows rest))

-- A row that goes holds the only row with its identifier.
id_once :
    (id : Text) (r : Row) (rows : Rows)
    → has_id id r ≡ true
    → any (collides r) rows ≡ false
    → any (has_id id) rows ≡ false
id_once id r rows mine apart = any-false (has_id id) rows (λ x i. elim (Bool-cases (has_id id x)) [
  | inl same ↦ absurd (
      ground (
        arith,
        any-Memᴰ (collides r) rows x apart i,
        collides_id r x ((has_id_iff id x).0 same ∙ sym ((has_id_iff id r).0 mine)),
      ))
  | inr other ↦ other
])

pub Apart-replace :
    (id : Text) (row : Row) (rows : Rows)
    → any (collides row) (others id rows) ≡ false
    → Apart rows
    → Apart (replace id row rows)
unfolding replace others
Apart-replace id row [] h a = tt
Apart-replace id row (r ∷ rows) h (first, later) = elim (Bool-cases (has_id id r)) [
  | inl mine ↦
      let alone = id_once id r rows mine first in
      let room : any (collides row) rows ≡ false =
        rw (← others_absent id rows alone) (ground (arith, h, mine)) in
      rw mine (rw (replace_absent id row rows alone, replace) (room, later))
  | inr other ↦
      let room : (collides row r || any (collides row) (others id rows)) ≡ false =
        ground (arith, h, other) in
      let (mine, rest) = ||-eq-false _ _ room in
      rw other (
        any-replace (collides r) id row rows (collides_sym row r mine) first,
        Apart-replace id row rows rest later,
      )
]

-- The row put in place of `id` is the one found by its own identifier, if no other row has that.
pub find-replace :
    (id : Text) (row : Row) (rows : Rows)
    → any (has_id id) rows ≡ true
    → ((x : Row) → Memᴰ x rows → has_id row.event_id x ≡ true → has_id id x ≡ true)
    → find_row (has_id row.event_id) (replace id row rows) ≡ some row
unfolding find_row replace
find-replace id row [] h only = absurd (ground (arith, h))
find-replace id row (r ∷ rows) h only = elim (Bool-cases (has_id id r)) [
  | inl mine ↦ rw mine (rw ((has_id_iff row.event_id row).1 refl))
  | inr other ↦ elim (Bool-cases (has_id row.event_id r)) [
    | inl same ↦ absurd (ground (arith, other, only r (head refl) same))
    | inr differs ↦
        rw other (
          rw differs (find-replace id row rows (ground (arith, h, other)) (λ x i. only x (tail i))))
  ]
]

pub find-append :
    (row : Row) (rows : Rows)
    → any (has_id row.event_id) rows ≡ false
    → find_row (has_id row.event_id) (rows ++ (row ∷ [])) ≡ some row
unfolding find_row
find-append row [] h = rw ((has_id_iff row.event_id row).1 refl)
find-append row (r ∷ rows) h =
    let (other, rest) = ||-eq-false (has_id row.event_id r) (any (has_id row.event_id) rows) h in
    rw other (find-append row rows rest)
