-- ===== src/Agent/State/Lookup.antt =====
-- The lookup in chunks finds what the table holds.
use tokemon.Prelude.{
  ℕ, zero, suc, ◌-◌, ◌≤◌, ◌≡◌, refl, sym, ◌∙◌, ap, subst, ◌⊎◌, inl, inr, Bool, true, false, not,
  List, [], ◌∷◌, Option, none, some, length, any, take, drop, filter, arith, Bool-cases,
  Option-cases,
}
use tokemon.Prelude.Texts.{Text, text_eq, text_eq_iff, text_eq_refl}
use tokemon.Prelude.Maps.{Map, lookup, insert, lookup-insert}
use mathlib.Core.List.{Memᴰ}
use mathlib.Core.List.Memᴰ.{head, tail, cases_cons}
use tokemon.Usage.Event.{Event}
use tokemon.Agent.State.{
  Digest, EventState, Known, digest_len, lookup_chunk_size, load_id, load_ids, distinct_ids,
  load_chunks, is_sent, pending,
}

-- Every fingerprint on record has the length of a SHA-256.
abbrev pub IsDigests : Known → Type 0
IsDigests rows =
    (id : Text) (row : EventState) → lookup id rows ≡ some row → length row.fingerprint ≡ digest_len

abbrev pub digest_at : Known → Text → Option Digest
digest_at rows id = elim (lookup id rows) [ none ↦ none | some row ↦ some row.fingerprint ]

-- The table records the event as it is now.
abbrev pub on_record : Known → (Event → Digest) → Event → Bool
on_record rows fingerprint_of e = elim (digest_at rows e.event_id) [
  | none ↦ false
  | some previous ↦ text_eq previous (fingerprint_of e)
]

-- What is known of an identifier: nothing yet, or what the table holds.
abbrev Agrees : Known → Map Digest → Text → Type 0
Agrees rows known id = lookup id known ≡ digest_at rows id

abbrev Partial : Known → Map Digest → Type 0
Partial rows known = (id : Text) → (lookup id known ≡ none) ⊎ Agrees rows known id

module _ (rows : Known) (digests : IsDigests rows) where
  -- A loading that does not fail, loses nothing and finds the identifiers it was asked for.
  abbrev Loads : (Text → Type 0) → Map Digest → Option (Map Digest) → Type 0
  Loads Asked known loaded =
      (more : Map Digest) × ((loaded ≡ some more)
        × (Partial rows more
            × (((id : Text) → Agrees rows known id → Agrees rows more id)
                × ((id : Text) → Asked id → Agrees rows more id))))

  load_id-Loads :
      (i : Text) (known : Map Digest)
      → Partial rows known
      → Loads (λ id. id ≡ i) known (load_id rows i known)
  unfolding load_id
  load_id-Loads i known part = elim (Option-cases (lookup i rows)) [
    | inl absent ↦
        rw (absent, load_id)
          (
            known,
            (
              refl,
              (
                part,
                (
                  λ id a. a,
                  λ id e. elim (part id) [
                    | inl nothing ↦ rw nothing (rw e (rw (absent, digest_at)))
                    | inr a ↦ a
                  ],
                ),
              ),
            ),
          )
    | inr (row, there) ↦
        let len = digests i row there in
        let stored : digest_at rows i ≡ some row.fingerprint = rw (there, digest_at) in
        let at = λ (id : Text). lookup-insert i id row.fingerprint known in
        (
          insert i row.fingerprint known,
          (
            rw (there, load_id) (ground (arith, len)),
            (
              λ id. elim (Bool-cases (text_eq i id)) [
                | inl same ↦ inr (at id ∙ rw same (rw (← (text_eq_iff i id).0 same) (sym stored)))
                | inr other ↦ elim (part id) [
                  | inl nothing ↦ inl (at id ∙ rw other nothing)
                  | inr a ↦ inr (at id ∙ rw other a)
                ]
              ],
              (
                λ id a. elim (Bool-cases (text_eq i id)) [
                  | inl same ↦ at id ∙ rw same (rw (← (text_eq_iff i id).0 same) (sym stored))
                  | inr other ↦ at id ∙ rw other a
                ],
                λ id e. rw e (at i ∙ rw (text_eq_refl i) (sym stored)),
              ),
            ),
          ),
        )
  ]

  load_ids-Loads :
      (ids : List Text) (known : Map Digest)
      → Partial rows known
      → Loads (λ id. Memᴰ id ids) known (load_ids rows ids known)
  unfolding load_ids
  load_ids-Loads [] known part = (known, (refl, (part, (λ id a. a, λ id i. elim i [ ]))))
  load_ids-Loads (i ∷ ids) known part =
      let (first, (loaded, (part', (kept, found)))) = load_id-Loads i known part in
      let (more, (loaded', (part'', (kept', found')))) = load_ids-Loads ids first part' in
      (
        more,
        (
          rw (loaded, load_ids) loaded',
          (
            part'',
            (
              λ id a. kept' id (kept id a),
              λ id m. elim (cases_cons m) [ inl e ↦ kept' id (found id e) | inr m' ↦ found' id m' ],
            ),
          ),
        ),
      )

distinct_ids-Memᴰ :
    (seen : List Text) (events : List Event) (e : Event)
    → Memᴰ e events
    → (any (text_eq e.event_id) seen ≡ true) ⊎ Memᴰ e.event_id (distinct_ids seen events)
unfolding distinct_ids
distinct_ids-Memᴰ seen [] e i = elim i [ ]
distinct_ids-Memᴰ seen (x ∷ events) e (head same) =
    elim (Bool-cases (any (text_eq x.event_id) seen)) [
      | inl again ↦ rw same (inl again)
      | inr new ↦ rw same (rw new (inr (head refl)))
    ]
distinct_ids-Memᴰ seen (x ∷ events) e (tail i) = elim (Bool-cases (any (text_eq x.event_id) seen)) [
  | inl again ↦ rw again (distinct_ids-Memᴰ seen events e i)
  | inr new ↦ rw new (elim (Bool-cases (text_eq e.event_id x.event_id)) [
    | inl same ↦ inr (head ((text_eq_iff e.event_id x.event_id).0 same))
    | inr other ↦ elim (distinct_ids-Memᴰ (x.event_id ∷ seen) events e i) [
      | inl before ↦ inl (ground (arith, before, other))
      | inr m ↦ inr (tail m)
    ]
  ])
]

take_or_drop :
    (n : ℕ) (events : List Event) (e : Event)
    → Memᴰ e events
    → Memᴰ e (take n events) ⊎ Memᴰ e (drop n events)
take_or_drop zero events e i = inr i
take_or_drop (suc n) [] e i = elim i [ ]
take_or_drop (suc n) (x ∷ events) e (head same) = inl (head same)
take_or_drop (suc n) (x ∷ events) e (tail i) = elim (take_or_drop n events e i) [
  | inl j ↦ inl (tail j)
  | inr j ↦ inr j
]

length-drop-le : (n : ℕ) (events : List Event) → length (drop n events) ≤ length events - n
length-drop-le zero events = omega arith
length-drop-le (suc n) [] = omega arith
length-drop-le (suc n) (x ∷ events) = omega (arith, length-drop-le n events)

filter_same :
    (p q : Event → Bool) (events : List Event)
    → ((e : Event) → Memᴰ e events → p e ≡ q e)
    → filter p events ≡ filter q events
filter_same p q [] h = refl
filter_same p q (e ∷ events) h =
    rw (h e (head refl)) (rw (filter_same p q events (λ x i. h x (tail i))))

module _ (rows : Known) (digests : IsDigests rows) where
  abbrev AskedBy : List Event → Text → Type 0
  AskedBy events id = (e : Event) × (Memᴰ e events × (e.event_id ≡ id))

  load_chunks-Loads :
      (fuel : ℕ) (events : List Event) (known : Map Digest)
      → length events ≤ fuel
      → Partial rows known
      → Loads rows digests (AskedBy events) known (load_chunks rows fuel events known)
  unfolding load_chunks
  load_chunks-Loads fuel [] known enough part =
      (known, (refl, (part, (λ id a. a, λ id (e, (i, same)). elim i [ ]))))
  load_chunks-Loads zero (x ∷ events) known enough part = absurd (omega arith)
  load_chunks-Loads (suc fuel) (x ∷ events) known enough part =
      let chunk = take lookup_chunk_size (x ∷ events) in
      let rest = drop lookup_chunk_size (x ∷ events) in
      let (first, (loaded, (part', (kept, found)))) =
        load_ids-Loads rows digests (distinct_ids [] chunk) known part in
      let fewer : length rest ≤ fuel =
        omega (arith, length-drop-le lookup_chunk_size (x ∷ events)) in
      let (more, (loaded', (part'', (kept', found')))) =
        load_chunks-Loads fuel rest first fewer part' in
      (
        more,
        (
          rw (loaded, load_chunks) loaded',
          (
            part'',
            (
              λ id a. kept' id (kept id a),
              λ id (e, (i, same)). elim (take_or_drop lookup_chunk_size (x ∷ events) e i) [
                | inl j ↦ elim (distinct_ids-Memᴰ [] chunk e j) [
                  | inl nowhere ↦ absurd (ground (arith, nowhere))
                  | inr m ↦ kept' id (subst (Agrees rows first) same (found e.event_id m))
                ]
                | inr j ↦ found' id (e, (j, same))
              ],
            ),
          ),
        ),
      )

  module _ (fingerprint_of : Event → Digest) where
    -- On a table of well-formed fingerprints, the lookup in chunks of 500 succeeds and is exact: pending
    -- are, in order, just the events that the table does not record with their present fingerprint.
    pub pending_exact :
        (events : List Event)
        → pending fingerprint_of rows events
          ≡ some (filter (λ e. not (on_record rows fingerprint_of e)) events)
    unfolding pending
    pending_exact events =
        let (known, (loaded, (_, (_, found)))) =
          load_chunks-Loads (length events) events [] (omega arith)
            (λ id. inl (unfold lookup in refl)) in
        rw (loaded, pending)
          (ap some (filter_same _ _ events (λ e i. rw (found e.event_id (e, (i, refl)), is_sent))))
