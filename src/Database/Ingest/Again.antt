-- ===== src/Database/Ingest/Again.antt =====
-- Ingesting an event that the table has taken in already changes nothing.
use tokemon.Prelude.{
  ℕ, suc, ◌+◌, ◌≡◌, refl, sym, ◌∙◌, ap, Bool, true, false, ◌&&◌, not, [], ◌∷◌, ◌++◌, Option, some,
  arith, any, filter, inl, inr, Bool-cases, Option-cases, if◌then◌else◌, any-false, any_found,
  Memᴰ-filter, subst,
}
use tokemon.Prelude.Texts.{Text, text_eq}
use tokemon.Prelude.Find.{CaseTables}
use tokemon.Prelude.Floats.{FloatOps}
use mathlib.Core.List.{Memᴰ}
use mathlib.Core.List.Memᴰ.{head, tail}
use tokemon.Usage.Event.{Event, Time, Fields}
use tokemon.Usage.Names.{normalize_project}
use tokemon.Usage.Validate.{validate_at}
use tokemon.Catalog.{Catalog}
use tokemon.Database.Machines.{upsert_machine}
use tokemon.Database.Machines.Again.{upsert_machine_idem}
use tokemon.Database.Rows.{
  Row, Rows, has_id, collides, others, replace, can_replace, insert_or_ignore, update_or_ignore,
  find_row,
}
use tokemon.Database.Rows.Keys.{collides_id, has_id_iff}
use tokemon.Database.Rows.Apart.{Apart, Apart-same}
use tokemon.Database.Ingest.{
  Store, IngestResult, Loop, going, supersedes, without_aggregates, in_codex_session,
  has_components, usage_event_args, refresh_usage_event, store_event, ingest_event,
  is_aggregate_codex_event, has_detail,
}
use tokemon.Database.Ingest.Refresh.{Holds, Memᴰ-others}
use tokemon.Database.Ingest.Commits.{cleared, counted, store_event-Holds}

going_store : {s t : Store} {r q : IngestResult} → going s r ≡ going t q → s ≡ t
going_store h = cc

find_row-Memᴰ : (p : Row → Bool) (rows : Rows) (x : Row) → find_row p rows ≡ some x → Memᴰ x rows
unfolding find_row
find_row-Memᴰ p [] x h = cc
find_row-Memᴰ p (r ∷ rows) x h = elim (Bool-cases (p r)) [
  | inl here ↦ head (ground (arith, h, here))
  | inr later ↦ tail (find_row-Memᴰ p rows x (ground (arith, h, later)))
]

filter_all :
    (p : Row → Bool) (rows : Rows) → ((x : Row) → Memᴰ x rows → p x ≡ true) → filter p rows ≡ rows
filter_all p [] h = refl
filter_all p (r ∷ rows) h =
    rw (h r (head refl)) (ap (λ (t : Rows). r ∷ t) (filter_all p rows (λ x i. h x (tail i))))

replace_itself :
    (id : Text) (row : Row) (rows : Rows)
    → ((x : Row) → Memᴰ x rows → has_id id x ≡ true → row ≡ x)
    → replace id row rows ≡ rows
unfolding replace
replace_itself id row [] h = refl
replace_itself id row (r ∷ rows) h = elim (Bool-cases (has_id id r)) [
  | inl mine ↦
      rw mine
        (ground (arith, h r (head refl) mine, replace_itself id row rows (λ x i. h x (tail i))))
  | inr other ↦
      rw other (ap (λ (t : Rows). r ∷ t) (replace_itself id row rows (λ x i. h x (tail i))))
]

-- A table that holds the row ignores its insert, and its refresh leaves the table as it is.
module _ (row : Row) (before rows : Rows) (holds : Holds row before rows) where
  present : Memᴰ row rows
  present = find_row-Memᴰ (has_id row.event_id) rows row holds.found

  alone : (x : Row) → Memᴰ x rows → has_id row.event_id x ≡ true → row ≡ x
  alone x i h =
      Apart-same rows row x holds.apart present i
        (collides_id row x ((has_id_iff row.event_id x).0 h))

  insert_ignored : any (collides row) rows ≡ true
  insert_ignored = any_found (collides row) rows row present (collides_id row row refl)

  no_other : any (collides row) (others row.event_id rows) ≡ false
  no_other = any-false (collides row) _ (λ x k.
      let (i, differs) = Memᴰ-others row.event_id rows x k in
      elim (Bool-cases (collides row x)) [
        | inl c ↦
            let same = Apart-same rows row x holds.apart present i c in
            absurd (
              ground (
                arith,
                differs,
                (has_id_iff row.event_id x).1 (ap (λ (y : Row). y.event_id) (sym same)),
              ))
        | inr free ↦ free
      ])

  refresh_same : refresh_usage_event row rows ≡ some (rows, true)
  unfolding refresh_usage_event update_or_ignore can_replace
  refresh_same =
      let met : any (has_id row.event_id) rows ≡ true =
        any_found (has_id row.event_id) rows row present ((has_id_iff row.event_id row).1 refl) in
      rw met (rw no_other (rw (replace_itself row.event_id row rows alone)))

module _ (tables : CaseTables) (metadata_len : Fields → Option ℕ) (floats : FloatOps)
    (catalog : Option Catalog) where
  -- The row of an event that supersedes aggregates is none itself.
  row_kept :
      (e : Event)
      → supersedes e ≡ true
      → not (
          in_codex_session e (usage_event_args tables metadata_len floats catalog e)
          && not (has_components (usage_event_args tables metadata_len floats catalog e)))
        ≡ true
  unfolding usage_event_args
  row_kept e h = ground (arith, h)

  cleared_again :
      (e : Event) (rows next : Rows)
      → Holds (usage_event_args tables metadata_len floats catalog e) (cleared e rows) next
      → cleared e next ≡ next
  unfolding without_aggregates
  cleared_again e rows next holds = elim (Bool-cases (supersedes e)) [
    | inr other ↦ rw other
    | inl newer ↦
        let kept_if = λ (r : Row). not (in_codex_session e r && not (has_components r)) in
        rw newer (
          filter_all kept_if next (λ x i. elim (holds.origin x i) [
            | inl e' ↦ rw e' (row_kept e newer)
            | inr j ↦
                let was : cleared e rows ≡ filter kept_if rows = rw newer in
                (Memᴰ-filter kept_if rows x (subst (λ (t : Rows). Memᴰ x t) was j)).1
          ]))
  ]

  store_event_again :
      (e : Event) (store next : Store) (result : IngestResult)
      → next.machines ≡ upsert_machine e e.machine_id store.machines
      → Holds
          (usage_event_args tables metadata_len floats catalog e)
          (cleared e store.rows)
          next.rows
      → store_event tables metadata_len floats catalog e next result
        ≡ going next (record result { duplicates = suc result.duplicates })
  unfolding store_event insert_or_ignore
  store_event_again e store next result seen holds =
      let row = usage_event_args tables metadata_len floats catalog e in
      rw (cleared_again e store.rows next.rows holds) (
        rw (insert_ignored row (cleared e store.rows) next.rows holds) (
          rw (refresh_same row (cleared e store.rows) next.rows holds)
            (rw seen (rw (upsert_machine_idem e e.machine_id store.machines)))))

  -- The end of the round once an event is valid.
  round : Event → Store → IngestResult → Loop
  round e store result =
      if is_aggregate_codex_event e && not (text_eq e.session_id []) && has_detail e store.rows
      then going store (record result { duplicates = suc result.duplicates })
      else store_event tables metadata_len floats catalog e store result

  stored_again :
      (e : Event) (store next : Store) (result after result' : IngestResult)
      → Apart store.rows
      → round e store result ≡ going next after
      → (is_aggregate_codex_event e && not (text_eq e.session_id []) && has_detail e next.rows)
        ≡ false
      → store_event tables metadata_len floats catalog e next result'
        ≡ going next (record result' { duplicates = suc result'.duplicates })
  unfolding round
  stored_again e store next result after result' a done current =
      elim (Bool-cases
        (is_aggregate_codex_event e && not (text_eq e.session_id []) && has_detail e store.rows)) [
          | inl obsolete ↦
              let here : round e store result
                  ≡ going store (record result { duplicates = suc result.duplicates }) =
                rw obsolete in
              let same : store ≡ next = going_store (sym here ∙ done) in
              let blocked : (is_aggregate_codex_event e
                    && not (text_eq e.session_id [])
                    && has_detail e next.rows)
                  ≡ true =
                rw (← same) obsolete in
              absurd (ground (arith, current, blocked))
          | inr was_current ↦
              let (first, (first_after, (stored, (count, (seen, holds))))) =
                store_event-Holds tables metadata_len floats catalog e store result a in
              let here : round e store result
                  ≡ store_event tables metadata_len floats catalog e store result =
                rw was_current in
              let same : first ≡ next = going_store (sym stored ∙ sym here ∙ done) in
              rw (← same) (store_event_again e store first result' seen holds)
        ]

  -- Once an event has gone through, ingesting it again at the same reading of the clock leaves the
  -- table and the machines as they are, and counts one event more: on a table whose constraints hold,
  -- for every kind of event, whatever came of it the first time.
  pub ingest_event_again :
      (index : ℕ) (now : Time) (raw : Event) (store next : Store) (result after : IngestResult)
      → Apart store.rows
      → ingest_event tables metadata_len floats catalog index now raw store result
        ≡ going next after
      → (index' : ℕ) (result' : IngestResult)
      → (after' : IngestResult) × ((ingest_event tables metadata_len floats catalog index' now raw
              next result'
            ≡ going next after')
          × (counted after' ≡ suc (counted result')))
  unfolding ingest_event round
  ingest_event_again index now raw store next result after a done index' result' =
      let e : Event = record raw { project = normalize_project tables raw.project } in
      elim (Option-cases (validate_at tables metadata_len now e)) [
        | inr (error, bad) ↦ (
          record result' {
            rejected = suc result'.rejected;
            errors = result'.errors ++ ((index' + 1, error) ∷ []);
          },
          (rw (bad, ingest_event), omega arith),
        )
        | inl good ↦
            let valid : ingest_event tables metadata_len floats catalog index now raw store result
                ≡ round e store result =
              rw (good, ingest_event) in
            elim (Bool-cases (
              is_aggregate_codex_event e
              && not (text_eq e.session_id [])
              && has_detail e next.rows)) [
                | inl obsolete ↦ (
                  record result' { duplicates = suc result'.duplicates },
                  (rw (good, ingest_event) (rw obsolete), omega arith),
                )
                | inr current ↦ (
                  record result' { duplicates = suc result'.duplicates },
                  (
                    rw (good, ingest_event)
                        (rw current (
                          stored_again e store next result after result' a (sym valid ∙ done)
                            current)),
                    omega arith,
                  ),
                )
              ]
      ]
