-- ===== src/Database/Ingest/Commits.antt =====
-- `Ingest` on a table that keeps its constraints: it commits, it counts every event once, and the
-- table keeps its constraints.
use tokemon.Prelude.{
  ℕ, suc, ◌+◌, ◌≡◌, refl, ◌⊎◌, true, false, ◌&&◌, not, List, [], ◌∷◌, ◌++◌, Option, none, some,
  arith, any, inl, inr, Bool-cases, Option-cases, if◌then◌else◌, length, any-Memᴰ, any-false,
}
use tokemon.Prelude.Int.{ℤ}
use tokemon.Prelude.Texts.{text_eq}
use tokemon.Prelude.Find.{CaseTables}
use tokemon.Prelude.Floats.{FloatOps}
use mathlib.Core.List.Memᴰ.{head, tail, append_cases}
use tokemon.Usage.Event.{Event, Time, Fields}
use tokemon.Usage.Names.{normalize_project}
use tokemon.Usage.Validate.{validate_at}
use tokemon.Catalog.{Catalog}
use tokemon.Database.Machines.{upsert_machine}
use tokemon.Database.Rows.{Row, Rows, has_id, collides, insert_or_ignore}
use tokemon.Database.Rows.Keys.{collides_id, has_id_iff}
use tokemon.Database.Rows.Apart.{Apart, Apart-append, Apart-filter, find-append}
use tokemon.Database.Ingest.{
  Store, IngestResult, sum_overflow, Loop, going, supersedes, without_aggregates, usage_event_args,
  store_event, ingest_event, ingest_loop, ingest, lifetime_tokens, is_aggregate_codex_event,
  has_detail, begin,
}
use tokemon.Database.Ingest.Refresh.{Holds, refresh_usage_event-Holds}

-- The events that the result accounts for.
abbrev pub counted : IngestResult → ℕ
counted r = r.accepted + r.duplicates + r.rejected

abbrev pub SameCounts : IngestResult → IngestResult → Type 0
SameCounts r s =
    (s.accepted ≡ r.accepted)
    × (s.duplicates ≡ r.duplicates)
    × (s.rejected ≡ r.rejected)
    × (s.errors ≡ r.errors)
    × (s.previous_total ≡ r.previous_total)

-- Which counter a stored event moves, by one, and nothing else of the result: accepted when no row
-- collides with the event's, duplicates when one does.
abbrev pub CountsOnce : Row → Rows → IngestResult → IngestResult → Type 0
CountsOnce row rows result after =
    ((any (collides row) rows ≡ false) × (after ≡ record result { accepted = suc result.accepted }))
    ⊎ ((any (collides row) rows ≡ true)
        × (after ≡ record result { duplicates = suc result.duplicates }))

CountsOnce-counted :
    (row : Row) (rows : Rows) (result after : IngestResult)
    → CountsOnce row rows result after
    → counted after ≡ suc (counted result)
CountsOnce-counted row rows result after (inl (_, same)) = rw same (omega arith)
CountsOnce-counted row rows result after (inr (_, same)) = rw same (omega arith)

abbrev pub cleared : Event → Rows → Rows
cleared e rows = if supersedes e then without_aggregates e rows else rows

pub cleared-Apart : (e : Event) (rows : Rows) → Apart rows → Apart (cleared e rows)
unfolding without_aggregates
cleared-Apart e rows a = elim (Bool-cases (supersedes e)) [
  | inl newer ↦ rw newer (Apart-filter _ rows a)
  | inr other ↦ rw other a
]

pub fresh-Holds :
    (row : Row) (rows : Rows)
    → any (collides row) rows ≡ false
    → Apart rows
    → Holds row rows (rows ++ (row ∷ []))
fresh-Holds row rows free a = record {
  apart = Apart-append row rows free a;
  origin = λ x i. elim (append_cases rows i) [
    | inl j ↦ inr j
    | inr (head e) ↦ inl e
    | inr (tail j) ↦ elim j [ ]
  ];
  found = find-append row rows (
      any-false (has_id row.event_id) rows (λ x i. elim (Bool-cases (has_id row.event_id x)) [
        | inl same ↦ absurd (
            ground (
              arith,
              any-Memᴰ (collides row) rows x free i,
              collides_id row x ((has_id_iff row.event_id x).0 same),
            ))
        | inr differs ↦ differs
      ]));
}

module _ (tables : CaseTables) (metadata_len : Fields → Option ℕ) (floats : FloatOps)
    (catalog : Option Catalog) where
  -- A step of the loop that goes on, with one event more accounted for.
  abbrev Steps : Loop → IngestResult → (Store → Type 0) → Type 0
  Steps step result P =
      (next : Store) × ((after : IngestResult) × ((step ≡ going next after)
          × ((counted after ≡ suc (counted result)) × P next)))

  -- Storing a valid event in a table whose constraints hold never fails. The event is counted as
  -- accepted when its row collides with no row that is left once it has cleared the aggregates it
  -- replaces, and as a duplicate otherwise; the rest of the result stays as it was. Then the
  -- constraints hold, the table finds the event's row by its identifier, and every other row was there
  -- before. The machine is seen.
  pub store_event-Holds :
      (e : Event) (store : Store) (result : IngestResult)
      → Apart store.rows
      → let row = usage_event_args tables metadata_len floats catalog e in
        (next : Store) × ((after : IngestResult) × ((store_event tables metadata_len floats catalog
                e store result
              ≡ going next after)
            × (CountsOnce row (cleared e store.rows) result after
                × ((next.machines ≡ upsert_machine e e.machine_id store.machines)
                    × Holds row (cleared e store.rows) next.rows))))
  unfolding store_event insert_or_ignore
  store_event-Holds e store result a =
      let row = usage_event_args tables metadata_len floats catalog e in
      let machines = upsert_machine e e.machine_id store.machines in
      let rows = cleared e store.rows in
      let apart = cleared-Apart e store.rows a in
      elim (Bool-cases (any (collides row) rows)) [
        | inr free ↦ (
          record { rows = rows ++ (row ∷ []); machines = machines },
          (
            record result { accepted = suc result.accepted },
            (rw free, (inl (free, refl), (refl, fresh-Holds row rows free apart))),
          ),
        )
        | inl met ↦
            let (refreshed, (stored, holds)) = refresh_usage_event-Holds row rows met apart in
            (
              record { rows = refreshed; machines = machines },
              (
                record result { duplicates = suc result.duplicates },
                (rw met (rw stored), (inr (met, refl), (refl, holds))),
              ),
            )
      ]

  ingest_event-Apart :
      (index : ℕ) (now : Time) (raw : Event) (store : Store) (result : IngestResult)
      → Apart store.rows
      → Steps
          (ingest_event tables metadata_len floats catalog index now raw store result)
          result
          (λ next. Apart next.rows)
  unfolding ingest_event
  ingest_event-Apart index now raw store result a =
      let e : Event = record raw { project = normalize_project tables raw.project } in
      elim (Option-cases (validate_at tables metadata_len now e)) [
        | inr (error, bad) ↦ (
          store,
          (
            record result {
              rejected = suc result.rejected;
              errors = result.errors ++ ((index + 1, error) ∷ []);
            },
            (rw (bad, ingest_event), (omega arith, a)),
          ),
        )
        | inl good ↦
            elim (Bool-cases (
              is_aggregate_codex_event e
              && not (text_eq e.session_id [])
              && has_detail e store.rows)) [
                | inl obsolete ↦ (
                  store,
                  (
                    record result { duplicates = suc result.duplicates },
                    (rw (good, ingest_event) (rw obsolete), (omega arith, a)),
                  ),
                )
                | inr current ↦
                    let (next, (after, (stored, (once, (_, holds))))) =
                      store_event-Holds e store result a in
                    let count = CountsOnce-counted _ _ result after once in
                    (
                      next,
                      (after, (rw (good, ingest_event) (rw current stored), (count, holds.apart))),
                    )
              ]
      ]

  ingest_loop-Apart :
      (clock : ℕ → Time) (index : ℕ) (events : List Event) (store : Store) (result : IngestResult)
      → Apart store.rows
      → (next : Store) × ((after : IngestResult) × ((ingest_loop tables metadata_len floats catalog
                clock index events store result
              ≡ going next after)
            × ((counted after ≡ counted result + length events) × Apart next.rows)))
  unfolding ingest_loop
  ingest_loop-Apart clock index [] store result a = (store, (result, (refl, (omega arith, a))))
  ingest_loop-Apart clock index (e ∷ events) store result a =
      let (next, (after, (stepped, (count, apart)))) =
        ingest_event-Apart index (clock index) e store result a in
      let (last, (total, (done, (sum, kept)))) =
        ingest_loop-Apart clock (suc index) events next after apart in
      (last, (total, (rw (stepped, ingest_loop) done, (omega arith, kept))))

  -- On a table whose constraints hold and whose total an int64 holds, `Ingest` commits, whatever the
  -- events are: the loop over the events runs to its end, the committed table is the one that it leaves
  -- there, and the counters are the loop's; every event is accepted, a duplicate or rejected, the
  -- constraints hold after it, and the only error that can be returned is that the new total leaves
  -- int64. Without it, the total reported is that of the committed table.
  pub ingest-commits :
      (clock : ℕ → Time) (events : List Event) (store : Store) (before : ℤ)
      → Apart store.rows
      → lifetime_tokens store ≡ some before
      → let (next, outcome) = ingest tables metadata_len floats catalog clock events store in
        ((last : IngestResult) × ((ingest_loop tables metadata_len floats catalog clock 0 events
                store
                (begin before)
              ≡ going next last)
            × SameCounts last outcome.0))
        × (Apart next.rows
            × ((counted outcome.0 ≡ length events)
                × (((lifetime_tokens next ≡ none) × (outcome.1 ≡ some sum_overflow))
                    ⊎ ((lifetime_tokens next ≡ some outcome.0.current_total)
                        × (outcome.1 ≡ none)))))
  unfolding ingest
  ingest-commits clock events store before a known =
      let (next, (after, (done, (count, apart)))) =
        ingest_loop-Apart clock 0 events store (begin before) a in
      elim (Option-cases (lifetime_tokens next)) [
        | inl over ↦
            rw (known, ingest)
              (rw done (
                rw over (
                  (after, (refl, (refl, refl, refl, refl, refl))),
                  (apart, (omega (arith, count), inl (over, refl))),
                )))
        | inr (total, fits) ↦
            rw (known, ingest)
              (rw done (
                rw fits (
                  (after, (refl, (refl, refl, refl, refl, refl))),
                  (apart, (omega (arith, count), inr (fits, refl))),
                )))
      ]
