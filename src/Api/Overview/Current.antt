-- ===== src/Api/Overview/Current.antt =====
-- Which outcomes and computations of the cache of internal/api/server.go are current.
use tokemon.Prelude.{
  ℕ, suc, ◌≡◌, ◌≤◌, ◌%◌, ◌^◌, List, [], ◌∷◌, ◌++◌, Option, none, some, ◌⊎◌, inl, inr, arith, All,
}
use tokemon.Api.Overview.{OverviewEntry}
use tokemon.Api.Overview.Steps.{Read, Running, World}

pub All-suc :
    (version : ℕ) (vs : List ℕ) → All (λ v. v ≤ version) vs → All (λ v. v ≤ suc version) vs
All-suc version [] a = tt
All-suc version (v ∷ vs) a = (omega (arith, a.0), All-suc version vs a.1)

pub All-remove :
    (P : ℕ → Type 0) (v : ℕ) (before rest : List ℕ)
    → All P (before ++ (v ∷ rest))
    → P v × All P (before ++ rest)
All-remove P v [] rest a = (a.0, a.1)
All-remove P v (u ∷ before) rest a =
    let (first, others) = All-remove P v before rest a.1 in (first, (a.0, others))

-- The query read the store after a commit that is not before `floor`.
abbrev pub ReadSince : ℕ → ℕ → Read → Type 0
ReadSince floor version r = (floor ≤ r.version) × (r.version ≤ version)

ReadSince-suc :
    (floor version : ℕ) (reads : List Read)
    → All (ReadSince floor version) reads
    → All (ReadSince floor (suc version)) reads
ReadSince-suc floor version [] a = tt
ReadSince-suc floor version (r ∷ reads) a =
    ((a.0.0, omega (arith, a.0.1)), ReadSince-suc floor version reads a.1)

module _ {A E : Type 0} (view : List Read → A) where
  -- The outcome is an error, or the overview made of queries that each read the store after a commit
  -- that is not before `floor`.
  abbrev pub IsCurrent : ℕ → ℕ → A ⊎ E → Type 0
  IsCurrent floor version (inl a) =
      (reads : List Read) × (All (ReadSince floor version) reads × (a ≡ view reads))
  IsCurrent floor version (inr e) = Unit

  abbrev pub CacheFresh : ℕ → ℕ → Option (OverviewEntry A E) → Type 0
  CacheFresh floor version none = Unit
  CacheFresh floor version (some entry) = IsCurrent floor version entry.outcome

  abbrev pub OutcomeFresh : ℕ → ℕ → Option (A ⊎ E) → Type 0
  OutcomeFresh floor version none = Unit
  OutcomeFresh floor version (some o) = IsCurrent floor version o

  -- What was read before an invalidation is not known to be current.
  abbrev pub RunFresh : ℕ → ℕ → ℕ → Option (Running A E) → Type 0
  RunFresh floor version count none = Unit
  RunFresh floor version count (some run) =
      (run.started ≤ count)
      × ((run.generation ≡ run.started % 2 ^ 64)
          × (run.started ≡ count
              → All (ReadSince floor version) run.reads × OutcomeFresh floor version run.outcome))

  pub record IsFresh (w : World A E) : Type 0 where
    pub floor_known : w.floor ≤ w.version
    pub uncleared_known : All (λ v. v ≤ w.version) w.uncleared
    pub generation_counts : w.shared.generation ≡ w.count % 2 ^ 64
    pub cached : CacheFresh w.floor w.version w.shared.cache
    pub run : RunFresh w.floor w.version w.count w.running

  IsCurrent-suc :
      (floor version : ℕ) (o : A ⊎ E) → IsCurrent floor version o → IsCurrent floor (suc version) o
  IsCurrent-suc floor version (inl a) (reads, (since, same)) =
      (reads, (ReadSince-suc floor version reads since, same))
  IsCurrent-suc floor version (inr e) c = tt

  pub CacheFresh-suc :
      (floor version : ℕ) (c : Option (OverviewEntry A E))
      → CacheFresh floor version c
      → CacheFresh floor (suc version) c
  CacheFresh-suc floor version none f = tt
  CacheFresh-suc floor version (some entry) f = IsCurrent-suc floor version entry.outcome f

  OutcomeFresh-suc :
      (floor version : ℕ) (o : Option (A ⊎ E))
      → OutcomeFresh floor version o
      → OutcomeFresh floor (suc version) o
  OutcomeFresh-suc floor version none f = tt
  OutcomeFresh-suc floor version (some o) f = IsCurrent-suc floor version o f

  pub RunFresh-suc :
      (floor version count : ℕ) (r : Option (Running A E))
      → RunFresh floor version count r
      → RunFresh floor (suc version) count r
  RunFresh-suc floor version count none f = tt
  RunFresh-suc floor version count (some run) (started, (same, f)) = (
    started,
    (
      same,
      λ still. (
        ReadSince-suc floor version run.reads (f still).0,
        OutcomeFresh-suc floor version run.outcome (f still).1,
      ),
    ),
  )

  -- After an invalidation no computation that had begun counts as current.
  pub RunFresh-invalidated :
      (floor later version count : ℕ) (r : Option (Running A E))
      → RunFresh floor version count r
      → RunFresh later version (suc count) r
  RunFresh-invalidated floor later version count none f = tt
  RunFresh-invalidated floor later version count (some run) (started, (same, f)) =
      (omega (arith, started), (same, λ still. absurd (omega (arith, started, still))))
