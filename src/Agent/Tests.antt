-- ===== src/Agent/Tests.antt =====
-- The theorems on the agent at concrete events.
use Prim.Native.Nat.{min}
use tokemon.Agent.Backoff.{
  ceiling, next_agent_failure_interval, after_failures, after_failures_exact,
}
use tokemon.Prelude.{◌*◌, ◌^◌, ℕ, ◌≡◌, refl, List, [], ◌∷◌, Option, some, arith, All}
use tokemon.Usage.Event.{Event}
use tokemon.Usage.Samples.{sample_event}
use tokemon.Agent.Batches.{ok, split_loop, split_ingest_batches, close_full, finish}
use mathlib.Core.List.{flatten}
use tokemon.Agent.Batches.Partition.{IsBatch, split_ingest_batches-partition}
use tokemon.Agent.Batches.Body.{Fits, split_ingest_batches-succeeds}

-- Every event encodes to 3,000,000 bytes: no two fit one request.
abbrev large : Event → Option ℕ
large e = some 3_000_000

abbrev two_events : List Event
two_events = sample_event ∷ sample_event ∷ []

abbrev two_batches : List (List Event)
two_batches = (sample_event ∷ []) ∷ (sample_event ∷ []) ∷ []

two_events-split : split_ingest_batches large two_events ≡ ok two_batches
unfolding split_ingest_batches split_loop close_full finish
two_events-split = refl

split_ingest_batches-partition_example :
    (flatten two_batches ≡ two_events) × All (IsBatch large) two_batches
split_ingest_batches-partition_example =
    split_ingest_batches-partition large two_events two_batches two_events-split

two_events-Fits : All (Fits large) two_events
two_events-Fits = ((3_000_000, refl, omega arith), ((3_000_000, refl, omega arith), tt))

split_ingest_batches-succeeds_example :
    (batches : List (List Event)) × (split_ingest_batches large two_events ≡ ok batches)
split_ingest_batches-succeeds_example =
    split_ingest_batches-succeeds large two_events two_events-Fits

-- One event of 4,194,293 bytes: with its 13 bytes of envelope it is 2 over the limit.
abbrev too_large : Event → Option ℕ
too_large e = some 4_194_293

-- The count leaves two bytes of the envelope out, and sends the event all the same.
too_large-sent : split_ingest_batches too_large (sample_event ∷ []) ≡ ok ((sample_event ∷ []) ∷ [])
unfolding split_ingest_batches split_loop close_full finish
too_large-sent = refl

-- One minute configured, two failures: four minutes; a third would reach the ceiling.
after_failures_exact_example :
    after_failures (60 * 1_000_000_000) 2
    ≡ min
        (next_agent_failure_interval (60 * 1_000_000_000) (60 * 1_000_000_000) * 2 ^ 1)
        (ceiling (60 * 1_000_000_000))
after_failures_exact_example = after_failures_exact (60 * 1_000_000_000) 1
