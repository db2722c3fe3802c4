-- ===== src/Agent/Batches.antt =====
-- internal/agent/client.go: `splitIngestBatches`, which cuts the pending events into requests. Of
-- json.Marshal the code uses the length of its result or that it failed, which is a parameter.
pub mod Partition
pub mod Body
use tokemon.Prelude.{
  ℕ, suc, ◌+◌, ◌*◌, ◌-◌, Bool, ◌&&◌, ◌||◌, List, [], ◌∷◌, ◌++◌, Option, none, some, ltb, leb,
  if◌then◌else◌, length,
}
use tokemon.Usage.Event.{Event}

-- 4 << 20
abbrev pub max_ingest_batch_bytes : ℕ
max_ingest_batch_bytes = 4194304

abbrev pub max_ingest_batch_events : ℕ
max_ingest_batch_events = 100

-- len(`{"events":[]}`) - 2
abbrev pub envelope_bytes : ℕ
envelope_bytes = 13 - 2

pub data SplitError : Type 0 where
  encoding_failed event_too_large : SplitError

pub data Split : Type 0 where
  ok : List (List Event) → Split
  err : SplitError → Split

-- The variables of the loop.
pub record Progress : Type 0 where
  pub batches : List (List Event)
  pub batch : List Event
  pub batch_bytes : ℕ

abbrev pub separator : List Event → ℕ
separator batch = if ltb 0 (length batch) then 1 else 0

abbrev pub is_full : Progress → ℕ → Bool
is_full p n =
    ltb 0 (length p.batch)
    && (ltb max_ingest_batch_bytes (p.batch_bytes + separator p.batch + n)
        || leb max_ingest_batch_events (length p.batch))

-- Before an event of `n` bytes is placed: a full batch is closed.
unfoldable pub close_full : Progress → ℕ → Progress
close_full p n =
    if is_full p n
    then record { batches = p.batches ++ (p.batch ∷ []); batch = []; batch_bytes = envelope_bytes }
    else p

abbrev pub place : Progress → Event → ℕ → Progress
place p e n = record p {
  batch = p.batch ++ (e ∷ []);
  batch_bytes = p.batch_bytes + separator p.batch + n;
}

unfoldable pub finish : Progress → List (List Event)
finish p = if ltb 0 (length p.batch) then p.batches ++ (p.batch ∷ []) else p.batches

module _ (encoded_len : Event → Option ℕ) where
  unfoldable pub split_loop : Progress → List Event → Split
  split_loop p [] = ok (finish p)
  split_loop p (e ∷ rest) = elim (encoded_len e) [
    | none ↦ err encoding_failed
    | some n ↦
        let q = close_full p n in
        let placed = split_loop (place q e n) rest in
        if ltb max_ingest_batch_bytes (q.batch_bytes + separator q.batch + n)
        then err event_too_large
        else placed
  ]

  unfoldable pub split_ingest_batches : List Event → Split
  unfolding split_loop close_full finish
  split_ingest_batches events =
      split_loop (record { batches = []; batch = []; batch_bytes = envelope_bytes }) events
