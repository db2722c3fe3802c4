-- ===== src/Database/Heartbeat/Health.antt =====
-- `RecordHeartbeat` of internal/database/database.go: what the tables say of a machine and of a source
-- after a heartbeat.
use tokemon.Prelude.{
  ◌≡◌, ◌≢◌, ◌⊎◌, refl, sym, ◌∙◌, List, [], Option, none, some, arith, Bool-cases, Option-cases, inl,
  inr, if◌then◌else◌,
}
use tokemon.Prelude.Texts.{Text, text_eq, text_eq_iff, text_eq_refl, eq_of_text_eq}
use tokemon.Prelude.Maps.{lookup}
use tokemon.Usage.Event.{Time}
use tokemon.Database.Clock.{format_utc}
use tokemon.Database.Machines.{Machine}
use tokemon.Database.Heartbeat.{
  AgentSourceHealth, AgentHeartbeat, HealthRow, Fleet, heartbeat_machine, health_row, join_comma,
  normalize_adapter_ids, record_heartbeat,
}
use tokemon.Database.Heartbeat.Tables.{
  find_health, last_reported, row_of, health_after, record_heartbeat-tables,
}

-- A field of a machine: what is reported, or what was kept where nothing is.
abbrev pub Takes : Text → Option Machine → (Machine → Text) → Text → Type 0
Takes reported before field after =
    ((reported ≢ []) × (after ≡ reported))
    ⊎ (((reported ≡ []) × ((before ≡ none) × (after ≡ [])))
        ⊎ ((m : Machine) × ((reported ≡ []) × ((before ≡ some m) × (after ≡ field m)))))

-- The row `after` of a machine says what the heartbeat at `now` reports, over the row `before`.
pub record Describes (h : AgentHeartbeat) (now : Text) (before : Option Machine) (after : Machine)
    : Type 0 where
  pub named : after.name ≡ h.machine_id
  pub system : Takes h.operating_system before (λ m. m.operating_system) after.operating_system
  pub built : Takes h.architecture before (λ m. m.architecture) after.architecture
  pub version : Takes h.agent_version before (λ m. m.agent_version) after.agent_version
  pub adapters : after.detected_adapters ≡ join_comma (normalize_adapter_ids h.adapters)
  pub sources : after.source_count ≡ h.source_count
  pub errors : after.source_error_count ≡ h.source_error_count
  pub seen : after.last_seen_at ≡ now
  pub since :
      ((before ≡ none) × (after.first_seen_at ≡ now))
      ⊎ ((m : Machine) × ((before ≡ some m) × (after.first_seen_at ≡ m.first_seen_at)))

-- The row of a source says what the machine reports of it at `now`.
pub record Reports (machine now : Text) (s : AgentSourceHealth) (row : HealthRow) : Type 0 where
  pub of_machine : row.machine_id ≡ machine
  pub of_adapter : row.adapter ≡ s.adapter
  pub of_source : row.source_hash ≡ s.source_hash
  pub failing : row.last_error_class ≡ s.last_error_class
  pub updated : row.updated_at ≡ now
  pub synced :
      ((s.last_successful_sync ≡ none) × (row.last_successful_sync ≡ []))
      ⊎ ((t : Time) × ((s.last_successful_sync ≡ some t)
            × (row.last_successful_sync ≡ format_utc t)))

-- The row `after` of a source of the machine, from what a list of sources says last of it.
abbrev pub Replaced : Text → Text → Option AgentSourceHealth → Option HealthRow → Type 0
Replaced machine now reported after =
    ((reported ≡ none) × (after ≡ none))
    ⊎ ((s : AgentSourceHealth) × ((row : HealthRow) × ((reported ≡ some s)
            × ((after ≡ some row) × Reports machine now s row))))

takes :
    (reported : Text) (before : Option Machine) (field : Machine → Text)
    → Takes reported before field (elim before [
      | none ↦ reported
      | some m ↦ if text_eq reported [] then field m else reported
    ])
takes reported none field = elim (Bool-cases (text_eq reported [])) [
  | inl blank ↦
      let nothing = eq_of_text_eq reported [] blank in inr (inl (nothing, (refl, nothing)))
  | inr said ↦ inl (ground (arith, said, text_eq_iff reported []), refl)
]
takes reported (some m) field = elim (Bool-cases (text_eq reported [])) [
  | inl blank ↦ rw blank (inr (inr (m, (eq_of_text_eq reported [] blank, (refl, refl)))))
  | inr said ↦ rw said (inl (ground (arith, said, text_eq_iff reported []), refl))
]

heartbeat_machine-Describes :
    (h : AgentHeartbeat) (now : Text) (before : Option Machine)
    → Describes h now before (heartbeat_machine h now before)
heartbeat_machine-Describes h now none = record {
  named = refl;
  system = takes h.operating_system none (λ m. m.operating_system);
  built = takes h.architecture none (λ m. m.architecture);
  version = takes h.agent_version none (λ m. m.agent_version);
  adapters = refl;
  sources = refl;
  errors = refl;
  seen = refl;
  since = inl (refl, refl);
}
heartbeat_machine-Describes h now (some m) = record {
  named = refl;
  system = takes h.operating_system (some m) (λ m. m.operating_system);
  built = takes h.architecture (some m) (λ m. m.architecture);
  version = takes h.agent_version (some m) (λ m. m.agent_version);
  adapters = refl;
  sources = refl;
  errors = refl;
  seen = refl;
  since = inr (m, (refl, refl));
}

health_row-Reports :
    (machine now : Text) (s : AgentSourceHealth) → Reports machine now s (health_row machine now s)
health_row-Reports machine now s = record {
  of_machine = refl;
  of_adapter = refl;
  of_source = refl;
  failing = refl;
  updated = refl;
  synced = elim (Option-cases s.last_successful_sync) [
    | inl never ↦ inl (never, rw never refl)
    | inr (t, once) ↦ inr (t, (once, rw once refl))
  ];
}

row_of-Replaced :
    (machine now : Text) (reported : Option AgentSourceHealth)
    → Replaced machine now reported (row_of machine now reported none)
row_of-Replaced machine now none = inl (refl, refl)
row_of-Replaced machine now (some s) =
    inr (s, (health_row machine now s, (refl, (refl, health_row-Reports machine now s))))

-- The rows of one source before and after a heartbeat.
abbrev pub Follows :
    AgentHeartbeat → Text → Text → Text → Text → Option HealthRow → Option HealthRow → Type 0
Follows h now m a k before after =
    (((h.sources ≡ none) ⊎ (m ≢ h.machine_id)) × (after ≡ before))
    ⊎ ((sources : List AgentSourceHealth) × ((h.sources ≡ some sources)
          × ((m ≡ h.machine_id) × Replaced m now (last_reported a k sources) after)))

health_after-Follows :
    (h : AgentHeartbeat) (now m a k : Text) (before : Option HealthRow)
    → Follows h now m a k before (health_after h.machine_id h.sources now m a k before)
health_after-Follows h now m a k before = elim (Option-cases h.sources) [
  | inl absent ↦ inl (inl absent, rw absent refl)
  | inr (sources, given) ↦ elim (Bool-cases (text_eq h.machine_id m)) [
    | inr other ↦
        inl (inr (ground (arith, other, text_eq_iff h.machine_id m)), rw given (rw other refl))
    | inl same ↦
        let named = sym (eq_of_text_eq h.machine_id m same) in
        inr (
          sources,
          (given, (named, rw given (rw same (rw named (row_of-Replaced h.machine_id now _))))),
        )
  ]
]

-- After a heartbeat that `RecordHeartbeat` accepts at a time, the table of machines has the
-- heartbeat's machine: its name, its adapters, its two counts and the time as the heartbeat reports
-- them, its system, architecture and version too where they are not blank and as they were where they
-- are, and first seen as it was, or now; every other machine is as it was. In the table of source
-- health each source of the machine has, when the heartbeat has a list of sources, the row that
-- reports what the list says last of it, and no row when the list leaves it out; every other row is
-- as it was.
pub record_heartbeat-health :
    (clock : Time) (h : AgentHeartbeat) (fleet : Fleet)
    → (record_heartbeat clock h fleet).1 ≡ none
    → let next = (record_heartbeat clock h fleet).0 in
      let now = format_utc clock in
      ((after : Machine) × ((lookup h.machine_id next.machines ≡ some after)
          × Describes h now (lookup h.machine_id fleet.machines) after))
      × (((m : Text) → (m ≡ h.machine_id) ⊎ (lookup m next.machines ≡ lookup m fleet.machines))
          × ((m a k : Text)
              → Follows h now m a k
                  (find_health m a k fleet.health)
                  (find_health m a k next.health)))
record_heartbeat-health clock h fleet accepted =
    let (machines, health) = record_heartbeat-tables clock h fleet accepted in
    let now = format_utc clock in
    (
      (
        heartbeat_machine h now (lookup h.machine_id fleet.machines),
        (
          machines h.machine_id ∙ rw (text_eq_refl h.machine_id) refl,
          heartbeat_machine-Describes h now (lookup h.machine_id fleet.machines),
        ),
      ),
      (
        λ m. elim (Bool-cases (text_eq h.machine_id m)) [
          | inl same ↦ inl (sym (eq_of_text_eq h.machine_id m same))
          | inr other ↦ inr (machines m ∙ rw other refl)
        ],
        λ m a k. rw (health m a k) (health_after-Follows h now m a k _),
      ),
    )
