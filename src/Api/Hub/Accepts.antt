-- ===== src/Api/Hub/Accepts.antt =====
-- internal/api/server.go: a batch that `ingest` finds valid is not refused by the database.
use tokemon.Prelude.{
  ℕ, suc, ◌+◌, ◌≡◌, ◌⊎◌, refl, ap, sym, ◌∙◌, subst, true, false, ◌&&◌, not, List, [], ◌∷◌, Option,
  none, some, inl, inr, arith, Bool-cases, Option-cases, All, length,
}
use tokemon.Prelude.Int.{ℤ, ◌≤ℤ◌, +ℤ_parts, pos}
use tokemon.Prelude.Texts.{text_eq}
use tokemon.Prelude.Find.{CaseTables}
use tokemon.Prelude.Floats.{FloatOps}
use tokemon.Usage.Event.{Event, Time, Fields}
use tokemon.Usage.Check.{>>-eq-none}
use tokemon.Usage.Names.{normalize_project}
use tokemon.Usage.Validate.{validate_at, check_identity, day_nanos}
use tokemon.Catalog.{Catalog}
use tokemon.Database.Rows.{insert_or_ignore}
use tokemon.Database.Rows.Apart.{Apart}
use tokemon.Database.Ingest.{
  Store, StoreError, IngestResult, Loop, going, stopped, store_event, ingest_event, ingest_loop,
  ingest, lifetime_tokens, begin, is_aggregate_codex_event, has_detail, refresh_usage_event,
  usage_event_args,
}
use tokemon.Database.Ingest.Commits.{cleared, ingest-commits}
use tokemon.Api.Auth.{NetTools, Credentials, Config, ingest_authorized}
use tokemon.Api.Hub.{
  Codecs, Post, Hub, Reply, refused, answered, not_persisted, bad_count, oversized, first_invalid,
  persist, ingest_batch, read_post, counted_request, ingest_handler, decode_json_body,
  max_decompressed_body_bytes,
}

-- The events that a step of the loop counted as rejected, up to it.
abbrev rejections : Loop → ℕ
rejections (going _ result) = result.rejected
rejections (stopped result _) = result.rejected

loop_cases :
    (step : Loop)
    → ((s : Store) × ((r : IngestResult) × (step ≡ going s r)))
      ⊎ ((r : IngestResult) × ((e : StoreError) × (step ≡ stopped r e)))
loop_cases (going s r) = inl (s, (r, refl))
loop_cases (stopped r e) = inr (r, (e, refl))

module _ (tables : CaseTables) (metadata_len : Fields → Option ℕ) where
  check_identity_later :
      (now later : Time) (e : Event)
      → now ≤ℤ later
      → check_identity tables metadata_len now e ≡ none
      → check_identity tables metadata_len later e ≡ none
  unfolding check_identity
  check_identity_later now later e h k =
      ground (arith, h, k, +ℤ_parts now (pos day_nanos), +ℤ_parts later (pos day_nanos))

  validate_at_later :
      (now later : Time) (e : Event)
      → now ≤ℤ later
      → validate_at tables metadata_len now e ≡ none
      → validate_at tables metadata_len later e ≡ none
  unfolding validate_at
  validate_at_later now later e h k =
      let (identity, others) = >>-eq-none (check_identity tables metadata_len now e) _ k in
      rw (check_identity_later now later e h identity) others

  first_invalid-cons :
      (clock : ℕ → Time) (index : ℕ) (e : Event) (events : List Event)
      → first_invalid tables metadata_len clock index (e ∷ events) ≡ none
      → (validate_at tables metadata_len (clock index) e ≡ none)
        × (first_invalid tables metadata_len clock (suc index) events ≡ none)
  unfolding first_invalid
  first_invalid-cons clock index e events h = ground (arith, h)

module _ (tables : CaseTables) (metadata_len : Fields → Option ℕ) (floats : FloatOps)
    (catalog : Option Catalog) where
  store_event-rejections :
      (e : Event) (store : Store) (result : IngestResult)
      → rejections (store_event tables metadata_len floats catalog e store result) ≡ result.rejected
  unfolding store_event
  store_event-rejections e store result =
      let row = usage_event_args tables metadata_len floats catalog e in
      let (rows, inserted) = insert_or_ignore row (cleared e store.rows) in
      elim (Bool-cases inserted) [
        | inl new ↦ rw new refl
        | inr met ↦ elim (Option-cases (refresh_usage_event row rows)) [
          | inl refused_row ↦ rw met (rw refused_row refl)
          | inr ((refreshed, true), stored) ↦ rw met (rw stored refl)
          | inr ((refreshed, false), stored) ↦ rw met (rw stored refl)
        ]
      ]

  -- An event that is valid at the moment and whose project has its normal form is not rejected.
  ingest_event-rejections :
      (index : ℕ) (now : Time) (e : Event) (store : Store) (result : IngestResult)
      → normalize_project tables e.project ≡ e.project
      → validate_at tables metadata_len now e ≡ none
      → rejections (ingest_event tables metadata_len floats catalog index now e store result)
        ≡ result.rejected
  unfolding ingest_event
  ingest_event-rejections index now e store result normal good =
      let stored : Event = record e { project = normalize_project tables e.project } in
      let same : stored ≡ e = ap (λ p. record e { project = p }) normal in
      let valid = subst (λ x. validate_at tables metadata_len now x ≡ none) (sym same) good in
      elim (Bool-cases (
        is_aggregate_codex_event stored
        && not (text_eq stored.session_id [])
        && has_detail stored store.rows)) [
          | inl obsolete ↦ rw (valid, ingest_event) (rw obsolete refl)
          | inr current ↦
              rw (valid, ingest_event) (rw current (store_event-rejections stored store result))
        ]

  ingest_loop-rejections :
      (clock later : ℕ → Time) (index : ℕ) (events : List Event) (store : Store)
      (result : IngestResult)
      → ((n : ℕ) → clock n ≤ℤ later n)
      → All (λ e. normalize_project tables e.project ≡ e.project) events
      → first_invalid tables metadata_len clock index events ≡ none
      → rejections (ingest_loop tables metadata_len floats catalog later index events store result)
        ≡ result.rejected
  unfolding ingest_loop
  ingest_loop-rejections clock later index [] store result onward normal valid = refl
  ingest_loop-rejections clock later index (e ∷ events) store result onward normal valid =
      let (good, rest) = first_invalid-cons tables metadata_len clock index e events valid in
      let step =
        ingest_event-rejections index (later index) e store result normal.0 (
          validate_at_later tables metadata_len (clock index) (later index) e (onward index)
            good) in
      elim (loop_cases
        (ingest_event tables metadata_len floats catalog index (later index) e store result)) [
          | inr (after, (error, stops)) ↦ rw (stops, ingest_loop) (sym (ap rejections stops) ∙ step)
          | inl (next, (after, goes)) ↦
              rw (goes, ingest_loop)
                (ingest_loop-rejections clock later (suc index) events next after onward normal.1
                    rest
                  ∙ (sym (ap rejections goes) ∙ step))
        ]

  ingest-rejections :
      (clock later : ℕ → Time) (events : List Event) (store : Store)
      → ((n : ℕ) → clock n ≤ℤ later n)
      → All (λ e. normalize_project tables e.project ≡ e.project) events
      → first_invalid tables metadata_len clock 0 events ≡ none
      → (ingest tables metadata_len floats catalog later events store).1.0.rejected ≡ 0
  unfolding ingest
  ingest-rejections clock later events store onward normal valid =
      elim (Option-cases (lifetime_tokens store)) [
        | inl over ↦ rw (over, ingest) refl
        | inr (before, known) ↦
            let none_so_far =
              ingest_loop-rejections clock later 0 events store (begin before) onward normal
                valid in
            elim (loop_cases (
              ingest_loop tables metadata_len floats catalog later 0 events store (begin before))) [
                | inr (after, (error, stops)) ↦
                    rw (known, ingest) (rw stops (sym (ap rejections stops) ∙ none_so_far))
                | inl (next, (after, goes)) ↦ elim (Option-cases (lifetime_tokens next)) [
                  | inl over ↦
                      rw (known, ingest)
                        (rw goes (rw over (sym (ap rejections goes) ∙ none_so_far)))
                  | inr (total, fits) ↦
                      rw (known, ingest)
                        (rw goes (rw fits (sym (ap rejections goes) ∙ none_so_far)))
                ]
              ]
      ]

  -- Every event of the batch is stored or is a duplicate, or the new total leaves int64.
  pub record Answers (events : List Event) (outcome : Hub × Reply) : Type 0 where
    pub apart : Apart outcome.0.store.rows
    pub counts :
        ((outcome.1 ≡ refused 500 not_persisted) × (lifetime_tokens outcome.0.store ≡ none))
        ⊎ ((result : IngestResult) × ((outcome.1 ≡ answered result)
              × ((result.rejected ≡ 0)
                  × ((result.accepted + result.duplicates ≡ length events)
                      × (lifetime_tokens outcome.0.store ≡ some result.current_total)))))

  persist-Answers :
      (later : ℕ → Time) (events : List Event) (hub : Hub) (before : ℤ)
      → Apart hub.store.rows
      → lifetime_tokens hub.store ≡ some before
      → (ingest tables metadata_len floats catalog later events hub.store).1.0.rejected ≡ 0
      → Answers events (persist tables metadata_len floats catalog later events hub)
  unfolding persist
  persist-Answers later events hub before a known none_rejected =
      let (_, (apart, (count, outcome))) =
        ingest-commits tables metadata_len floats catalog later events hub.store before a known in
      elim outcome [
        | inl (over, failed) ↦
            rw (failed, persist) (record { apart = apart; counts = inl (refl, over) })
        | inr (total, done) ↦
            rw (done, persist)
              (record {
                apart = apart;
                counts =
                    inr (_, (refl, (none_rejected, (omega (arith, count, none_rejected), total))));
              })
      ]

  module _ {Ip : Type 0} (net : NetTools Ip) (tools : Credentials)
      (codecs : Codecs (List Event)) where
    pub ingest_handler-persists :
        (c : Config Ip) (clock later : ℕ → Time) (p : Post) (hub : Hub) (events : List Event)
        → ingest_authorized tools net c p.request ≡ true
        → decode_json_body codecs max_decompressed_body_bytes p ≡ inl events
        → bad_count events ≡ false
        → oversized (codecs.encoded_len events) ≡ false
        → first_invalid tables metadata_len clock 0 events ≡ none
        → ingest_handler tables metadata_len floats catalog net tools codecs c clock later p hub
          ≡ persist tables metadata_len floats catalog later events (counted_request hub)
    unfolding ingest_handler read_post ingest_batch
    ingest_handler-persists c clock later p hub events right decoded fits small valid =
        rw right (rw (decoded, read_post) (rw (fits, ingest_batch) (rw small (rw valid refl))))

    -- An authorized post whose body decodes to a batch within the limits, in which every event is
    -- valid at the handler's clock and every project has its normal form, is answered without a
    -- rejected event when the clock does not go back until the database validates the events again
    -- and the table keeps its constraints with a total that int64 holds: every event is counted as
    -- accepted or as a duplicate and the reply tells the new total. The only other reply is 500, when
    -- the new total leaves int64. The table keeps its constraints in both cases.
    pub ingest_handler-accepts :
        (c : Config Ip) (clock later : ℕ → Time) (p : Post) (hub : Hub) (events : List Event)
        (before : ℤ)
        → ingest_authorized tools net c p.request ≡ true
        → decode_json_body codecs max_decompressed_body_bytes p ≡ inl events
        → bad_count events ≡ false
        → oversized (codecs.encoded_len events) ≡ false
        → first_invalid tables metadata_len clock 0 events ≡ none
        → All (λ e. normalize_project tables e.project ≡ e.project) events
        → ((n : ℕ) → clock n ≤ℤ later n)
        → Apart hub.store.rows
        → lifetime_tokens hub.store ≡ some before
        → Answers events
            (ingest_handler tables metadata_len floats catalog net tools codecs c clock later p hub)
    ingest_handler-accepts c clock later p hub events before right decoded fits small valid normal
          onward a known =
        subst (Answers events)
          (sym (ingest_handler-persists c clock later p hub events right decoded fits small valid))
          (persist-Answers later events (counted_request hub) before a known
            (ingest-rejections clock later events hub.store onward normal valid))
