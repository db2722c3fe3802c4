-- ===== src/Api/Overview/Tests.antt =====
-- The theorem on the cache after an ingest, a computation and a later request.
use tokemon.Prelude.{ℕ, ◌≡◌, refl, arith, All, List, [], ◌∷◌, some, none, inl}
use Prim.Native.Nat.{max}
use tokemon.Prelude.Int.{pos, ◌-ℤ◌}
use tokemon.Api.Overview.{look, install, invalidate, fresh_entry, hit}
use tokemon.Api.Overview.Steps.{
  Read, World, Running, read_more, Reachable, begun, answer, here, after, committed, invalidated,
  looked, queried, finished, installed,
}
use tokemon.Api.Overview.Current.{ReadSince}
use tokemon.Api.Overview.Fresh.{started_with, look-current}

-- The overview is the number of commits that its last query saw, and a query has no error.
abbrev view : List Read → ℕ
view [] = 0
view (r ∷ reads) = r.version

abbrev World3 : Type 0
World3 = World ℕ ℕ

abbrev stored : World3
stored = record (started_with view 3) { version = 4; uncleared = 4 ∷ [] }

abbrev cleared : World3
cleared = record stored {
  shared = invalidate stored.shared;
  count = 1;
  floor = max 3 4;
  uncleared = [];
}

abbrev asked : World3
asked = record cleared {
  shared = (look (pos 5) cleared.shared).1;
  running = begun (look (pos 5) cleared.shared).0 cleared;
}

abbrev run : Running ℕ ℕ
run = record { generation = 1; started = 1; reads = []; outcome = none }

-- A commit falls between the two queries.
abbrev first_run : Running ℕ ℕ
first_run = read_more run (record { version = 4; clock = pos 5 })

abbrev second_run : Running ℕ ℕ
second_run = read_more first_run (record { version = 5; clock = pos 6 })

abbrev first_read : World3
first_read = record asked { running = some first_run }

abbrev stored_again : World3
stored_again = record first_read { version = 5; uncleared = 5 ∷ [] }

abbrev read : World3
read = record stored_again { running = some (answer second_run (inl 5)) }

abbrev kept : World3
kept = record read { shared = install (pos 7) 1 (inl 5) read.shared; running = none }

path : Reachable view (started_with view 3) kept
unfolding look invalidate fresh_entry
path =
    after
      (after
        (after
          (after
            (after
              (after (after (after here committed) (invalidated 4 [] [] refl)) (looked (pos 5)))
              (queried (pos 5) run refl refl))
            committed)
          (queried (pos 6) first_run refl refl))
        (finished second_run refl refl))
      (installed (pos 7) (answer second_run (inl 5)) (inl 5) refl refl)

answered_hit : (look (pos 9) kept.shared).0 ≡ hit (inl 5)
unfolding look install invalidate fresh_entry ◌-ℤ◌
answered_hit = refl

look-current_example :
    (reads : List Read) × (All (ReadSince kept.floor kept.version) reads × (5 ≡ view reads))
look-current_example = look-current view 3 kept (pos 9) 5 path (omega arith) answered_hit
