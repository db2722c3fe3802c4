-- ===== src/Agent/State/Sent.antt =====
-- After a commit the committed events are no longer pending.
use tokemon.Prelude.{
  ◌≡◌, refl, sym, ◌∙◌, ap, subst, inl, inr, Bool, false, List, [], ◌∷◌, none, some, length, any,
  filter, arith, Bool-cases, Option-cases,
}
use tokemon.Prelude.Texts.{Text, text_eq, text_eq_refl, trim_space}
use tokemon.Prelude.Maps.{Map, lookup, insert, lookup-insert, lookup-insert_self}
use mathlib.Core.List.{Memᴰ}
use mathlib.Core.List.Memᴰ.{head, tail}
use tokemon.Usage.Event.{Event}
use tokemon.Agent.State.{
  Digest, EventState, Known, digest_len, pending, save_events, Cursor, SourceReport, AgentState,
  commit, of_machine,
}
use tokemon.Agent.State.Lookup.{IsDigests, on_record, pending_exact}

-- No two of the events have one identifier.
abbrev pub IsDistinct : List Event → Type 0
IsDistinct [] = Unit
IsDistinct (e ∷ events) =
    (any (λ (x : Event). text_eq x.event_id e.event_id) events ≡ false) × IsDistinct events

pub filter_none :
    (p : Event → Bool) (events : List Event)
    → ((e : Event) → Memᴰ e events → p e ≡ false)
    → filter p events ≡ []
filter_none p [] h = refl
filter_none p (e ∷ events) h = rw (h e (head refl)) (filter_none p events (λ x i. h x (tail i)))

module _ (fingerprint_of : Event → Digest)
    (lengths : (e : Event) → length (fingerprint_of e) ≡ digest_len) where
  abbrev pub recorded : Text → Event → EventState
  recorded synced e = record { fingerprint = fingerprint_of e; last_successful_sync = synced }

  insert-IsDigests :
      (synced : Text) (e : Event) (rows : Known)
      → IsDigests rows
      → IsDigests (insert e.event_id (recorded synced e) rows)
  insert-IsDigests synced e rows d id row h = elim (Bool-cases (text_eq e.event_id id)) [
    | inl same ↦
        let found : some (recorded synced e) ≡ some row =
          sym (lookup-insert e.event_id id (recorded synced e) rows ∙ rw same) ∙ h in
        ground (arith, found, lengths e)
    | inr other ↦
        d id row (sym (lookup-insert e.event_id id (recorded synced e) rows ∙ rw other) ∙ h)
  ]

  save_step :
      (synced : Text) (e : Event) (events : List Event) (rows after : Known)
      → save_events fingerprint_of synced (e ∷ events) rows ≡ some after
      → save_events fingerprint_of synced events (insert e.event_id (recorded synced e) rows)
        ≡ some after
  unfolding save_events
  save_step synced e events rows after h = elim (Bool-cases (text_eq (trim_space e.event_id) [])) [
    | inl nameless ↦ absurd (ground (arith, h, nameless))
    | inr named ↦ ground (arith, h, named)
  ]

  pub save-IsDigests :
      (synced : Text) (events : List Event) (rows after : Known)
      → save_events fingerprint_of synced events rows ≡ some after
      → IsDigests rows
      → IsDigests after
  unfolding save_events
  save-IsDigests synced [] rows after h d = let same : rows ≡ after = cc in subst IsDigests same d
  save-IsDigests synced (e ∷ events) rows after h d =
      save-IsDigests synced events _ after (save_step synced e events rows after h)
        (insert-IsDigests synced e rows d)

  pub save_others :
      (synced : Text) (events : List Event) (rows after : Known) (id : Text)
      → save_events fingerprint_of synced events rows ≡ some after
      → any (λ (x : Event). text_eq x.event_id id) events ≡ false
      → lookup id after ≡ lookup id rows
  unfolding save_events
  save_others synced [] rows after id h absent = let same : rows ≡ after = cc in rw same
  save_others synced (e ∷ events) rows after id h absent =
      let other : text_eq e.event_id id ≡ false = ground (arith, absent) in
      save_others synced events _ after id (save_step synced e events rows after h)
        (ground (arith, absent))
      ∙ lookup-insert e.event_id id (recorded synced e) rows
      ∙ rw other

  pub save_found :
      (synced : Text) (events : List Event) (rows after : Known) (e : Event)
      → save_events fingerprint_of synced events rows ≡ some after
      → IsDistinct events
      → Memᴰ e events
      → lookup e.event_id after ≡ some (recorded synced e)
  save_found synced [] rows after e h d i = elim i [ ]
  save_found synced (x ∷ events) rows after e h d (head same) = rw same (
      save_others synced events _ after x.event_id (save_step synced x events rows after h) d.0
      ∙ lookup-insert_self x.event_id (recorded synced x) rows)
  save_found synced (x ∷ events) rows after e h d (tail i) =
      save_found synced events _ after e (save_step synced x events rows after h) d.1 i

  all_sent :
      (synced : Text) (events : List Event) (rows after : Known)
      → save_events fingerprint_of synced events rows ≡ some after
      → IsDigests rows
      → IsDistinct events
      → pending fingerprint_of after events ≡ some []
  all_sent synced events rows after saved d distinct =
      let exact =
        pending_exact after (save-IsDigests synced events rows after saved d) fingerprint_of
          events in
      exact
      ∙ ap some (
          filter_none _ events (λ e i.
            rw (save_found synced events rows after e saved distinct i, on_record)
              (rw (text_eq_refl (fingerprint_of e)))))

  -- After a commit without error of events with distinct identifiers, none of them is pending, on a
  -- table of well-formed fingerprints and for a fingerprint of 32 bytes.
  pub pending-commit :
      (hash_identity : Text → Text) (machine : Text) (committed : Map Cursor)
      (reports : List SourceReport) (events : List Event) (synced : Text) (state : AgentState)
      → IsDigests (of_machine machine state.events)
      → IsDistinct events
      → (commit fingerprint_of hash_identity machine committed reports events synced state).1 ≡ none
      → pending fingerprint_of
          (of_machine machine
            (commit fingerprint_of hash_identity machine committed reports events synced
              state).0.events)
          events
        ≡ some []
  unfolding commit
  pending-commit hash_identity machine committed reports events synced state d distinct h =
      elim (Bool-cases (text_eq (trim_space machine) [])) [
        | inl nameless ↦ absurd (ground (arith, h, nameless))
        | inr named ↦
            elim (Option-cases
              (save_events fingerprint_of synced events (of_machine machine state.events))) [
                | inl refused ↦ absurd (ground (arith, h, named, refused))
                | inr (rows, saved) ↦
                    rw (named, commit)
                      (rw saved (
                        rw (lookup-insert_self machine rows state.events, of_machine)
                          (all_sent synced events (of_machine machine state.events) rows saved d
                            distinct)))
              ]
      ]
