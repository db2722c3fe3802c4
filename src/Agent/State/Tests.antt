-- ===== src/Agent/State/Tests.antt =====
-- The theorems on the agent's state at a concrete table.
use tokemon.Prelude.{
  ◌≡◌, refl, false, not, List, [], ◌∷◌, none, some, filter, arith, Bool-cases, inl, inr,
}
use tokemon.Prelude.Texts.{Text, text, text_eq, trim_left, trim_right, trim_space, is_space}
use tokemon.Prelude.Maps.{lookup}
use tokemon.Prelude.Int.{pos}
use tokemon.Usage.Event.{Event}
use tokemon.Usage.Samples.{sample_event, sample_digest}
use tokemon.Agent.State.{
  Digest, EventState, Known, pending, save_events, SourceReport, AgentState, commit, of_machine,
}
use tokemon.Agent.State.Lookup.{IsDigests, on_record, pending_exact}
use tokemon.Agent.State.Sent.{IsDistinct, pending-commit}

abbrev fingerprint_of : Event → Digest
fingerprint_of e = sample_digest e.event_id

abbrev row : EventState
row = record { fingerprint = sample_digest []; last_successful_sync = text "2026-01-01T00:00:00Z" }

abbrev rows : Known
rows = (text "event-1", row) ∷ []

rows-IsDigests : IsDigests rows
unfolding lookup
rows-IsDigests id r h = elim (Bool-cases (text_eq (text "event-1") id)) [
  | inl same ↦ ground (arith, h, same)
  | inr other ↦ absurd (ground (arith, h, other))
]

abbrev events : List Event
events = sample_event ∷ record sample_event { event_id = text "event-2" } ∷ []

pending_exact_example :
    pending fingerprint_of rows events
    ≡ some (filter (λ e. not (on_record rows fingerprint_of e)) events)
pending_exact_example = pending_exact rows rows-IsDigests fingerprint_of events

-- Of the two, the second is new.
pending_second :
    filter (λ e. not (on_record rows fingerprint_of e)) events
    ≡ record sample_event { event_id = text "event-2" } ∷ []
unfolding lookup text_eq
pending_second = refl

abbrev sample_report : SourceReport
sample_report = record {
  adapter = text "codex";
  path = text "/home/me/log";
  source_identity = text "rollout";
  cursor = record { identity = []; offset = pos 512; line = pos 3; state = [] };
  failed = false;
}

abbrev state : AgentState
state = record { sources = []; events = (text "laptop", rows) ∷ [] }

abbrev now : Text
now = text "2026-01-02T00:00:00Z"

rows-of_machine : IsDigests (of_machine (text "laptop") state.events)
unfolding lookup text_eq
rows-of_machine = rows-IsDigests

events-IsDistinct : IsDistinct events
unfolding text_eq
events-IsDistinct = (refl, (refl, tt))

committed :
    (commit fingerprint_of (λ t. t) (text "laptop") [] (sample_report ∷ []) events now state).1
    ≡ none
unfolding commit save_events lookup text_eq trim_space trim_left trim_right is_space
committed = refl

pending-commit_example :
    pending fingerprint_of
      (of_machine
        (text "laptop")
        (commit fingerprint_of
          (λ t. t)
          (text "laptop")
          []
          (sample_report ∷ [])
          events
          now
          state).0.events)
      events
    ≡ some []
pending-commit_example =
    pending-commit fingerprint_of (λ e. refl) (λ t. t) (text "laptop") [] (sample_report ∷ [])
      events now state rows-of_machine events-IsDistinct committed
