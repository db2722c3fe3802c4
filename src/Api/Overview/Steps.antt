-- ===== src/Api/Overview/Steps.antt =====
-- How requests and ingests interleave on the cache of internal/api/server.go: a step is one guarded
-- section, one query of the store, or one commit of `Ingest`. `Overview` in
-- internal/database/database.go runs several queries without a transaction and reads the clock between
-- them, so commits may fall between the queries of one computation.
use tokemon.Prelude.{ℕ, suc, ◌≡◌, List, [], ◌∷◌, ◌++◌, Option, none, some, ◌⊎◌, inl, inr}
use Prim.Native.Nat.{max}
use tokemon.Usage.Event.{Time}
use tokemon.Api.Overview.{OverviewCache, Found, compute, look, install, invalidate}

-- One query, or one reading of the clock with it: the number of commits that the store had, and the time.
pub record Read : Type 0 where
  pub version : ℕ
  pub clock : Time

-- A request that computes: the generation it remembers, the number of invalidations when it began, what
-- its queries have read so far, the last first, and the outcome once it has one.
pub record Running (A E : Type 0) : Type 0 where
  pub generation : ℕ
  pub started : ℕ
  pub reads : List Read
  pub outcome : Option (A ⊎ E)

-- The guarded fields, the number of commits so far, the last commit whose ingest has cleared the cache,
-- the number of invalidations, the commits whose ingests have yet to clear it, and the computation
-- under way.
pub record World (A E : Type 0) : Type 0 where
  pub shared : OverviewCache A E
  pub version : ℕ
  pub floor : ℕ
  pub count : ℕ
  pub uncleared : List ℕ
  pub running : Option (Running A E)

module _ {A E : Type 0} where
  abbrev pub begun : Found A E → World A E → Option (Running A E)
  begun (compute g) w =
      some (record { generation = g; started = w.count; reads = []; outcome = none })
  begun _ w = w.running

  abbrev pub answer : Running A E → A ⊎ E → Running A E
  answer run o = record run { outcome = some o }

  abbrev pub read_more : Running A E → Read → Running A E
  read_more run r = record run { reads = r ∷ run.reads }

  -- `view reads` is the overview that is put together from what the queries read.
  pub data Step (view : List Read → A) (w : World A E) : World A E → Type 0 where
    committed :
        Step view w (record w { version = suc w.version; uncleared = suc w.version ∷ w.uncleared })
    invalidated :
        (v : ℕ) (before after : List ℕ)
        → w.uncleared ≡ before ++ (v ∷ after)
        → Step view w (record w {
          shared = invalidate w.shared;
          count = suc w.count;
          floor = max w.floor v;
          uncleared = before ++ after;
        })
    looked :
        (now : Time)
        → Step view w
            (record w { shared = (look now w.shared).1; running = begun (look now w.shared).0 w })
    queried :
        (now : Time) (run : Running A E)
        → w.running ≡ some run
        → run.outcome ≡ none
        → Step view w (record w {
          running = some (read_more run (record { version = w.version; clock = now }));
        })
    finished :
        (run : Running A E)
        → w.running ≡ some run
        → run.outcome ≡ none
        → Step view w (record w { running = some (answer run (inl (view run.reads))) })
    failed :
        (run : Running A E) (e : E)
        → w.running ≡ some run
        → run.outcome ≡ none
        → Step view w (record w { running = some (answer run (inr e)) })
    installed :
        (now : Time) (run : Running A E) (o : A ⊎ E)
        → w.running ≡ some run
        → run.outcome ≡ some o
        → Step view w (record w { shared = install now run.generation o w.shared; running = none })

  pub data Reachable (view : List Read → A) (start : World A E) : World A E → Type 0 where
    here : Reachable view start start
    after : {v w : World A E} → Reachable view start v → Step view v w → Reachable view start w
