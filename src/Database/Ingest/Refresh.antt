-- ===== src/Database/Ingest/Refresh.antt =====
-- `refreshUsageEvent` after an ignored insert: it stores the row.
use tokemon.Prelude.{
  ◌≡◌, refl, sym, ap, subst, ◌⊎◌, Bool, true, false, not, [], ◌∷◌, some, arith, any, inl, inr,
  Bool-cases, &&-eq-true, any-Memᴰ, any-false, any-true, any_found, filter-Memᴰ, Memᴰ-filter,
}
use tokemon.Prelude.Texts.{Text}
use mathlib.Core.List.{Memᴰ}
use mathlib.Core.List.Memᴰ.{head, tail}
use tokemon.Database.Rows.{
  Row, Rows, has_id, collides, others, find_row, replace, can_replace, update_or_ignore, update,
}
use tokemon.Database.Rows.Keys.{
  Clash, Clash-through, Clash-Duplicates, Duplicates, same_usage_iff, collides_cases,
  collides-Clash, has_id_iff,
}
use tokemon.Database.Rows.Apart.{Apart, Apart-filter, Apart-replace, Apart-same, find-replace}
use tokemon.Database.Ingest.{refresh_usage_event, matches_usage}

-- The table admits no two colliding rows, finds `row` by its identifier, and holds nothing else that
-- was not there before.
pub record Holds (row : Row) (before rows : Rows) : Type 0 where
  pub apart : Apart rows
  pub found : find_row (has_id row.event_id) rows ≡ some row
  pub origin : (x : Row) → Memᴰ x rows → (x ≡ row) ⊎ Memᴰ x before

Memᴰ-replace :
    (id : Text) (row : Row) (rows : Rows) (x : Row)
    → Memᴰ x (replace id row rows)
    → (x ≡ row) ⊎ Memᴰ x rows
unfolding replace
Memᴰ-replace id row [] x i = elim i [ ]
Memᴰ-replace id row (r ∷ rows) x (head e) = elim (Bool-cases (has_id id r)) [
  | inl mine ↦ inl (ground (arith, e, mine))
  | inr other ↦ inr (head (ground (arith, e, other)))
]
Memᴰ-replace id row (r ∷ rows) x (tail i) = elim (Memᴰ-replace id row rows x i) [
  | inl e ↦ inl e
  | inr j ↦ inr (tail j)
]

matches_usage_iff : (row d : Row) → matches_usage row d ≡ true → Duplicates row d
matches_usage_iff row d h =
    let (adapter, same) = &&-eq-true _ _ h in (adapter, (same_usage_iff d row).0 same)

find_found :
    (p : Row → Bool) (rows : Rows) (x : Row)
    → Memᴰ x rows
    → p x ≡ true
    → (d : Row) × ((find_row p rows ≡ some d) × (Memᴰ d rows × (p d ≡ true)))
unfolding find_row
find_found p [] x i h = elim i [ ]
find_found p (r ∷ rows) x i h = elim (Bool-cases (p r)) [
  | inl here ↦ (r, (rw here, (head refl, here)))
  | inr not_here ↦ elim i [
    | head e ↦ absurd (ground (arith, not_here, subst (λ y. p y ≡ true) e h))
    | tail j ↦
        let (d, (found, (k, e))) = find_found p rows x j h in (d, (rw not_here found, (tail k, e)))
  ]
]

pub Memᴰ-others :
    (id : Text) (rows : Rows) (x : Row)
    → Memᴰ x (others id rows)
    → Memᴰ x rows × (has_id id x ≡ false)
unfolding others
Memᴰ-others id rows x i =
    let (j, h) = Memᴰ-filter (λ r. not (has_id id r)) rows x i in (j, ground (arith, h))

others-Memᴰ :
    (id : Text) (rows : Rows) (x : Row)
    → Memᴰ x rows
    → has_id id x ≡ false
    → Memᴰ x (others id rows)
unfolding others
others-Memᴰ id rows x i h = filter-Memᴰ (λ r. not (has_id id r)) rows x i (ground (arith, h))

-- An update that meets no constraint.
refresh_in_place :
    (row : Row) (rows : Rows)
    → can_replace row.event_id row rows ≡ true
    → Apart rows
    → (refresh_usage_event row rows ≡ some (replace row.event_id row rows, true))
      × Holds row rows (replace row.event_id row rows)
unfolding refresh_usage_event update_or_ignore can_replace
refresh_in_place row rows h a =
    let (met, room) = &&-eq-true (any (has_id row.event_id) rows) _ h in
    (
      rw h,
      record {
        apart = Apart-replace row.event_id row rows (ground (arith, room)) a;
        found = find-replace row.event_id row rows met (λ x i e. e);
        origin = λ x i. Memᴰ-replace row.event_id row rows x i;
      },
    )

-- When the update is ignored too, another row clashes with the row in the index.
clashing :
    (row : Row) (rows : Rows)
    → any (collides row) rows ≡ true
    → can_replace row.event_id row rows ≡ false
    → (r : Row) × (Memᴰ r rows × ((has_id row.event_id r ≡ false) × Clash row r))
unfolding can_replace
clashing row rows h blocked = elim (Bool-cases (any (collides row) (others row.event_id rows))) [
  | inl met ↦
      let (r, (i, c)) = any-true (collides row) (others row.event_id rows) met in
      let (j, differs) = Memᴰ-others row.event_id rows r i in
      (r, (j, (differs, clash_of r differs c)))
  | inr free ↦
      let absent : any (has_id row.event_id) rows ≡ false = ground (arith, blocked, free) in
      let (r, (i, c)) = any-true (collides row) rows h in
      let differs = any-Memᴰ (has_id row.event_id) rows r absent i in
      (r, (i, (differs, clash_of r differs c)))
]
  where
    clash_of : (r : Row) → has_id row.event_id r ≡ false → collides row r ≡ true → Clash row r
    clash_of r differs c = elim (collides_cases row r c) [
      | inl e ↦ absurd (ground (arith, differs, (has_id_iff row.event_id r).1 e))
      | inr clash ↦ clash
    ]

-- The duplicate that is found holds another identifier, and nothing but it clashes with the row.
module _ (row : Row) (rows : Rows) (a : Apart rows) (r : Row) (i : Memᴰ r rows)
    (differs : has_id row.event_id r ≡ false) (clash : Clash row r) (d : Row) (j : Memᴰ d rows)
    (duplicate : Duplicates row d) where
  duplicate_is : d ≡ r
  duplicate_is =
      Apart-same rows d r a j i (collides-Clash d r (Clash-through row d r clash duplicate))

  duplicate_differs : has_id row.event_id d ≡ false
  duplicate_differs = rw duplicate_is differs

  no_third : any (collides row) (others d.event_id (others row.event_id rows)) ≡ false
  no_third = any-false (collides row) _ (λ x k.
      let (k', not_d) = Memᴰ-others d.event_id (others row.event_id rows) x k in
      let (k'', not_row) = Memᴰ-others row.event_id rows x k' in
      elim (Bool-cases (collides row x)) [
        | inl c ↦ elim (collides_cases row x c) [
          | inl e ↦ absurd (ground (arith, not_row, (has_id_iff row.event_id x).1 e))
          | inr third ↦
              let same =
                Apart-same rows d x a j k''
                  (collides-Clash d x (Clash-through row d x third duplicate)) in
              absurd (
                ground (
                  arith,
                  not_d,
                  (has_id_iff d.event_id x).1 (ap (λ (y : Row). y.event_id) (sym same)),
                ))
        ]
        | inr free ↦ free
      ])

  moved :
      update d.event_id row (others row.event_id rows)
      ≡ some (replace d.event_id row (others row.event_id rows), true)
  unfolding update
  moved =
      let met : any (has_id d.event_id) (others row.event_id rows) ≡ true =
        any_found (has_id d.event_id) _ d (others-Memᴰ row.event_id rows d j duplicate_differs)
          ((has_id_iff d.event_id d).1 refl) in
      rw met (rw no_third)

  moved-Holds : Holds row rows (replace d.event_id row (others row.event_id rows))
  unfolding others
  moved-Holds = record {
    apart =
        Apart-replace d.event_id row (others row.event_id rows) no_third (Apart-filter _ rows a);
    found =
        find-replace d.event_id row (others row.event_id rows)
          (any_found (has_id d.event_id) _ d (others-Memᴰ row.event_id rows d j duplicate_differs)
            ((has_id_iff d.event_id d).1 refl))
          (λ x k e. absurd (ground (arith, e, (Memᴰ-others row.event_id rows x k).1)));
    origin = λ x k. elim (Memᴰ-replace d.event_id row (others row.event_id rows) x k) [
      | inl e ↦ inl e
      | inr k' ↦ inr (Memᴰ-others row.event_id rows x k').0
    ];
  }

refresh_moves :
    (row : Row) (rows : Rows)
    → any (collides row) rows ≡ true
    → can_replace row.event_id row rows ≡ false
    → Apart rows
    → (rows' : Rows) × ((refresh_usage_event row rows ≡ some (rows', true)) × Holds row rows rows')
unfolding refresh_usage_event update_or_ignore
refresh_moves row rows h blocked a =
    let (r, (i, (differs, clash))) = clashing row rows h blocked in
    let (adapter, same) = Clash-Duplicates row r clash in
    let hit : matches_usage row r ≡ true = ground (arith, adapter, (same_usage_iff r row).1 same) in
    let (d, (found, (j, e))) = find_found (matches_usage row) rows r i hit in
    let dup = matches_usage_iff row d e in
    (
      replace d.event_id row (others row.event_id rows),
      (
        rw blocked (
            rw clash.left_detailed (
              rw found (
                rw (duplicate_differs row rows a r i differs clash d j dup)
                  (moved row rows a r i differs clash d j dup)))),
        moved-Holds row rows a r i differs clash d j dup,
      ),
    )

-- After an insert that a table without colliding rows ignored, the refresh stores the row: no
-- statement of it fails, and the table then finds the row by its identifier and still holds no
-- colliding rows.
pub refresh_usage_event-Holds :
    (row : Row) (rows : Rows)
    → any (collides row) rows ≡ true
    → Apart rows
    → (rows' : Rows) × ((refresh_usage_event row rows ≡ some (rows', true)) × Holds row rows rows')
refresh_usage_event-Holds row rows h a = elim (Bool-cases (can_replace row.event_id row rows)) [
  | inl room ↦ (replace row.event_id row rows, refresh_in_place row rows room a)
  | inr blocked ↦ refresh_moves row rows h blocked a
]
