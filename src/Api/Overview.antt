-- ===== src/Api/Overview.antt =====
-- internal/api/server.go: `cachedOverview` and `invalidateOverviewCache`, as the sections that their
-- mutex guards. `cachedEvolution` has the same sections. An overview is of any type A, a failed query
-- gives an error of type E.
pub mod Steps
pub mod Current
pub mod Fresh
mod Tests
use tokemon.Prelude.{
  ℕ, ◌+◌, ◌*◌, ◌%◌, ◌^◌, Bool, true, false, Option, none, some, ◌⊎◌, if◌then◌else◌, ◌==◌,
}
use tokemon.Prelude.Int.{ℤ, pos, ◌-ℤ◌, ltb_ℤ}
use tokemon.Usage.Event.{Time}

abbrev pub overview_cache_ttl : ℕ
overview_cache_ttl = 60 * 1_000_000_000

-- `overviewCacheEntry`, with the result and the error as one outcome.
pub record OverviewEntry (A E : Type 0) : Type 0 where
  pub outcome : A ⊎ E
  pub fetched : Time

-- The fields of `Server` that the mutex guards; `ready` is whether a computation is under way.
pub record OverviewCache (A E : Type 0) : Type 0 where
  pub cache : Option (OverviewEntry A E)
  pub ready : Bool
  pub generation : ℕ

-- What the first section finds: an answer, a computation to wait for, or that the caller is to compute,
-- with the generation that it remembers.
pub data Found (A E : Type 0) : Type 0 where
  hit : A ⊎ E → Found A E
  wait : Found A E
  compute : ℕ → Found A E

module _ {A E : Type 0} where
  unfoldable pub fresh_entry : Time → Option (OverviewEntry A E) → Option (A ⊎ E)
  fresh_entry now none = none
  fresh_entry now (some entry) =
      if ltb_ℤ (now -ℤ entry.fetched) (pos overview_cache_ttl) then some entry.outcome else none

  -- The first section of `cachedOverview`.
  unfoldable pub look : Time → OverviewCache A E → Found A E × OverviewCache A E
  look now s = elim (fresh_entry now s.cache) [
    | some outcome ↦ (hit outcome, s)
    | none ↦ if s.ready then (wait, s) else (compute s.generation, record s { ready = true })
  ]

  -- The second section of `cachedOverview`, with the outcome of the computation.
  unfoldable pub install : Time → ℕ → A ⊎ E → OverviewCache A E → OverviewCache A E
  install now generation outcome s =
      let kept : OverviewEntry A E = record { outcome = outcome; fetched = now } in
      record s { ready = false; cache = if s.generation == generation then some kept else s.cache }

  -- `invalidateOverviewCache`
  unfoldable pub invalidate : OverviewCache A E → OverviewCache A E
  invalidate s = record s { generation = (s.generation + 1) % 2 ^ 64; cache = none }
