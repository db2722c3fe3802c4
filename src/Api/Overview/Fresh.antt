-- ===== src/Api/Overview/Fresh.antt =====
-- The cache of internal/api/server.go never answers with an overview from before an ingest that has
-- cleared the cache.
use tokemon.Prelude.{
  ℕ, ◌≡◌, ◌≤◌, ◌<◌, ◌%◌, ◌^◌, ◌==◌, refl, sym, subst, ap, ◌∙◌, false, List, [], Option, none, some,
  ◌⊎◌, inl, inr, arith, All, Bool-cases, Option-cases, ==_iff,
}
use Prim.Native.Nat.{max}
use tokemon.Usage.Event.{Time}
use tokemon.Api.Overview.{
  OverviewEntry, OverviewCache, Found, hit, fresh_entry, look, install, invalidate,
}
use tokemon.Api.Overview.Steps.{
  Read, Running, World, begun, Step, committed, invalidated, looked, queried, finished, failed,
  installed, Reachable, here, after,
}
use tokemon.Api.Overview.Current.{
  All-suc, All-remove, ReadSince, IsCurrent, CacheFresh, OutcomeFresh, RunFresh, IsFresh,
  CacheFresh-suc, RunFresh-suc, RunFresh-invalidated,
}

module _ {A E : Type 0} (view : List Read → A) where
  look-keeps :
      (now : Time) (s : OverviewCache A E)
      → ((look now s).1.cache ≡ s.cache) × ((look now s).1.generation ≡ s.generation)
  unfolding look
  look-keeps now s = elim (Option-cases (fresh_entry now s.cache)) [
    | inr (o, kept) ↦ rw (kept, look) (refl, refl)
    | inl stale ↦ elim (Bool-cases s.ready) [
      | inl busy ↦ rw (stale, look) (rw busy (refl, refl))
      | inr idle ↦ rw (stale, look) (rw idle (refl, refl))
    ]
  ]

  begun-RunFresh :
      (now : Time) (w : World A E)
      → w.shared.generation ≡ w.count % 2 ^ 64
      → RunFresh view w.floor w.version w.count w.running
      → RunFresh view w.floor w.version w.count (begun (look now w.shared).0 w)
  unfolding look
  begun-RunFresh now w counted f = elim (Option-cases (fresh_entry now w.shared.cache)) [
    | inr (o, kept) ↦ rw (kept, look) f
    | inl stale ↦ elim (Bool-cases w.shared.ready) [
      | inl busy ↦ rw (stale, look) (rw busy f)
      | inr idle ↦ rw (stale, look) (rw idle (omega arith, (counted, λ still. (tt, tt))))
    ]
  ]

  install-CacheFresh :
      (now : Time) (run : Running A E) (o : A ⊎ E) (w : World A E)
      → w.count < 2 ^ 64
      → w.shared.generation ≡ w.count % 2 ^ 64
      → CacheFresh view w.floor w.version w.shared.cache
      → RunFresh view w.floor w.version w.count (some run)
      → run.outcome ≡ some o
      → CacheFresh view w.floor w.version (install now run.generation o w.shared).cache
  unfolding install
  install-CacheFresh now run o w small counted cached (started, (same, fresh)) done =
      elim (Bool-cases (w.shared.generation == run.generation)) [
        | inr other ↦ rw (other, install) cached
        | inl equal ↦
            let remembered = (==_iff w.shared.generation run.generation).0 equal in
            rw (equal, install)
              (subst (OutcomeFresh view w.floor w.version) done
                (fresh (omega (arith, started, same, counted, remembered, small))).1)
      ]

  step-IsFresh :
      (v w : World A E) → Step view v w → w.count < 2 ^ 64 → IsFresh view v → IsFresh view w
  unfolding invalidate install
  step-IsFresh v _ committed small f = record {
    floor_known = omega (arith, f.floor_known);
    uncleared_known = (omega arith, All-suc v.version v.uncleared f.uncleared_known);
    generation_counts = f.generation_counts;
    cached = CacheFresh-suc view v.floor v.version v.shared.cache f.cached;
    run = RunFresh-suc view v.floor v.version v.count v.running f.run;
  }
  step-IsFresh v _ (invalidated u before rest known) small f =
      let (first, others) =
        All-remove (λ n. n ≤ v.version) u before rest
          (subst (All (λ n. n ≤ v.version)) known f.uncleared_known) in
      record {
        floor_known = ground (arith, f.floor_known, first);
        uncleared_known = others;
        generation_counts = ground (arith, f.generation_counts);
        cached = tt;
        run = RunFresh-invalidated view v.floor (max v.floor u) v.version v.count v.running f.run;
      }
  step-IsFresh v _ (looked now) small f =
      let (same_cache, same_generation) = look-keeps now v.shared in
      record {
        floor_known = f.floor_known;
        uncleared_known = f.uncleared_known;
        generation_counts = same_generation ∙ f.generation_counts;
        cached = subst (CacheFresh view v.floor v.version) (sym same_cache) f.cached;
        run = begun-RunFresh now v f.generation_counts f.run;
      }
  step-IsFresh v _ (queried now r known open_run) small f =
      let (started, (same, fresh)) = subst (RunFresh view v.floor v.version v.count) known f.run in
      record {
        floor_known = f.floor_known;
        uncleared_known = f.uncleared_known;
        generation_counts = f.generation_counts;
        cached = f.cached;
        run = (
          started,
          (
            same,
            λ still. (
              ((f.floor_known, omega arith), (fresh still).0),
              subst (OutcomeFresh view v.floor v.version) (sym open_run) tt,
            ),
          ),
        );
      }
  step-IsFresh v _ (finished r known open_run) small f =
      let (started, (same, fresh)) = subst (RunFresh view v.floor v.version v.count) known f.run in
      record {
        floor_known = f.floor_known;
        uncleared_known = f.uncleared_known;
        generation_counts = f.generation_counts;
        cached = f.cached;
        run = (started, (same, λ still. ((fresh still).0, (r.reads, ((fresh still).0, refl)))));
      }
  step-IsFresh v _ (failed r e known open_run) small f =
      let (started, (same, fresh)) = subst (RunFresh view v.floor v.version v.count) known f.run in
      record {
        floor_known = f.floor_known;
        uncleared_known = f.uncleared_known;
        generation_counts = f.generation_counts;
        cached = f.cached;
        run = (started, (same, λ still. ((fresh still).0, tt)));
      }
  step-IsFresh v _ (installed now r o known done) small f = record {
    floor_known = f.floor_known;
    uncleared_known = f.uncleared_known;
    generation_counts = f.generation_counts;
    cached =
        install-CacheFresh now r o v small f.generation_counts f.cached
          (subst (RunFresh view v.floor v.version v.count) known f.run) done;
    run = tt;
  }

  step-count : (v w : World A E) → Step view v w → v.count ≤ w.count
  step-count v _ committed = omega arith
  step-count v _ (invalidated u before rest known) = omega arith
  step-count v _ (looked now) = omega arith
  step-count v _ (queried now r known open_run) = omega arith
  step-count v _ (finished r known open_run) = omega arith
  step-count v _ (failed r e known open_run) = omega arith
  step-count v _ (installed now r o known done) = omega arith

  reachable-IsFresh :
      (start w : World A E)
      → Reachable view start w
      → IsFresh view start
      → w.count < 2 ^ 64
      → IsFresh view w
  reachable-IsFresh start _ here f small = f
  reachable-IsFresh start w (after {v} path step) f small =
      step-IsFresh v w step small
        (reachable-IsFresh start v path f (omega (arith, step-count v w step, small)))

  -- A server that has just started, with some commits in its store.
  abbrev pub started_with : ℕ → World A E
  started_with commits = record {
    shared = record { cache = none; ready = false; generation = 0 };
    version = commits;
    floor = commits;
    count = 0;
    uncleared = [];
    running = none;
  }

  fresh_entry-IsCurrent :
      (floor version : ℕ) (now : Time) (c : Option (OverviewEntry A E)) (o : A ⊎ E)
      → CacheFresh view floor version c
      → fresh_entry now c ≡ some o
      → IsCurrent view floor version o
  unfolding fresh_entry
  fresh_entry-IsCurrent floor version now none o f h = absurd (ground (arith, h))
  fresh_entry-IsCurrent floor version now (some entry) o f h =
      let same : entry.outcome ≡ o = ground (arith, h) in
      subst (IsCurrent view floor version) same f

  abbrev outcome_of : Found A E → Option (A ⊎ E)
  outcome_of (hit o) = some o
  outcome_of _ = none

  look-outcome :
      (now : Time) (s : OverviewCache A E) → outcome_of (look now s).0 ≡ fresh_entry now s.cache
  unfolding look
  look-outcome now s = elim (Option-cases (fresh_entry now s.cache)) [
    | inr (o, kept) ↦ rw (kept, look) refl
    | inl stale ↦ elim (Bool-cases s.ready) [
      | inl busy ↦ rw (stale, look) (rw busy refl)
      | inr idle ↦ rw (stale, look) (rw idle refl)
    ]
  ]

  -- In every order in which requests look, query, finish and install and ingests commit and clear the
  -- cache, with fewer than 2 ^ 64 clearings, an overview that `cachedOverview` answers from its cache
  -- is put together from queries that each read the store after some commit, and no ingest that has
  -- cleared the cache committed later than any of these. The queries of one overview need not have
  -- read the same store.
  pub look-current :
      (commits : ℕ) (w : World A E) (now : Time) (a : A)
      → Reachable view (started_with commits) w
      → w.count < 2 ^ 64
      → (look now w.shared).0 ≡ hit (inl a)
      → (reads : List Read) × (All (ReadSince w.floor w.version) reads × (a ≡ view reads))
  look-current commits w now a path small h =
      let start : IsFresh view (started_with commits) = record {
        floor_known = omega arith;
        uncleared_known = tt;
        generation_counts = refl;
        cached = tt;
        run = tt;
      } in
      fresh_entry-IsCurrent w.floor w.version now w.shared.cache (inl a)
        (reachable-IsFresh (started_with commits) w path start small).cached
        (sym (look-outcome now w.shared) ∙ ap outcome_of h)
