-- ===== src/Api/Heartbeat/Records.antt =====
-- internal/api/server.go: what a post to `heartbeat` can do to the hub's tables.
use tokemon.Prelude.{
  ℕ, suc, ◌≡◌, ◌<◌, ◌⊎◌, refl, ap, true, false, ◌||◌, List, [], ◌∷◌, none, inl, inr, any, arith,
  Bool-cases, Option-cases, sum_cases,
}
use tokemon.Prelude.Int.{pos, ltb_ℤ}
use tokemon.Prelude.Texts.{text_eq, trim_space}
use tokemon.Usage.Event.{Time}
use tokemon.Usage.Check.{>>-eq-none, refuse_if-eq-none}
use tokemon.Database.Clock.{format_utc}
use tokemon.Database.Heartbeat.{AgentSourceHealth, no_key, check_heartbeat, apply_heartbeat}
use tokemon.Database.Heartbeat.Tables.{checked_applies}
use tokemon.Api.Auth.{NetTools, Credentials, Config, ingest_authorized}
use tokemon.Api.Hub.{Codecs, Post, body_status, decode_json_body}
use tokemon.Api.Hub.Replies.{body_status_below}
use tokemon.Api.Heartbeat.{
  HeartbeatRequest, Problem, HeartbeatReply, Station, refused_heartbeat, recorded, not_authorized,
  invalid_heartbeat, check_source_health, check_sources, reported_sources, check_request,
  heartbeat_of, record_request, answer_request, read_heartbeat, heartbeat_handler,
  max_heartbeat_body_bytes,
}

check_source_health-key :
    (now : Time) (s : AgentSourceHealth) → check_source_health now s ≡ none → no_key s ≡ false
unfolding check_source_health
check_source_health-key now s h = ground (arith, h)

check_sources-keys :
    (clock : ℕ → Time) (index : ℕ) (sources : List AgentSourceHealth)
    → check_sources clock index sources ≡ none
    → any no_key sources ≡ false
unfolding check_sources
check_sources-keys clock index [] h = refl
check_sources-keys clock index (s ∷ sources) h =
    let (first, rest) = >>-eq-none (check_source_health (clock index) s) _ h in
    ground (
      arith,
      check_source_health-key (clock index) s first,
      check_sources-keys clock (suc index) sources rest,
    )

-- What the handler checks covers what `RecordHeartbeat` checks.
check_request-covers :
    (clock : ℕ → Time) (r : HeartbeatRequest)
    → check_request clock r ≡ none
    → check_heartbeat (heartbeat_of r) ≡ none
unfolding check_request check_heartbeat
check_request-covers clock r h =
    let (machine, after_machine) = >>-eq-none _ _ h in
    let (_, after_length) = >>-eq-none _ _ after_machine in
    let (_, after_fields) = >>-eq-none _ _ after_length in
    let (counted, after_counts) = >>-eq-none _ _ after_fields in
    let (_, after_adapters) = >>-eq-none _ _ after_counts in
    let (_, after_sources) = >>-eq-none _ _ after_adapters in
    let (checked, _) = >>-eq-none _ _ after_sources in
    let named : text_eq (trim_space r.machine_id) [] ≡ false = refuse_if-eq-none _ _ machine in
    let natural : (ltb_ℤ r.source_count (pos 0) || ltb_ℤ r.source_error_count (pos 0)) ≡ false =
      refuse_if-eq-none _ _ counted in
    rw named (rw natural (rw (check_sources-keys clock 0 (reported_sources r) checked) refl))

-- The reply reports an error of the caller, and nothing has changed.
abbrev pub Declines : Station → Station × HeartbeatReply → Type 0
Declines before (next, reply) =
    (next ≡ before)
    × ((status : ℕ) × ((problem : Problem) × ((reply ≡ refused_heartbeat status problem)
            × (status < 500))))

-- The heartbeat is recorded as it came.
abbrev pub Records : Time → HeartbeatRequest → Station → Station × HeartbeatReply → Type 0
Records later r before (next, reply) =
    (reply ≡ recorded)
    × (next.fleet ≡ apply_heartbeat (format_utc later) (heartbeat_of r) before.fleet)

record_request-Records :
    (later : Time) (r : HeartbeatRequest) (station : Station)
    → check_heartbeat (heartbeat_of r) ≡ none
    → Records later r station (record_request later r station)
unfolding record_request
record_request-Records later r station h =
    let applied = checked_applies later (heartbeat_of r) station.fleet h in
    rw (applied, record_request) (refl, ap (λ outcome. outcome.0) applied)

answer_request-cases :
    (clock : ℕ → Time) (later : Time) (r : HeartbeatRequest) (station : Station)
    → Declines station (answer_request clock later r station)
      ⊎ ((check_request clock r ≡ none)
          × Records later r station (answer_request clock later r station))
unfolding answer_request
answer_request-cases clock later r station = elim (Option-cases (check_request clock r)) [
  | inr (problem, bad) ↦
      rw (bad, answer_request) (inl (refl, (400, (problem, (refl, omega arith)))))
  | inl good ↦
      rw (good, answer_request)
        (inr (refl, record_request-Records later r station (check_request-covers clock r good)))
]

module _ {Ip : Type 0} (net : NetTools Ip) (tools : Credentials)
    (codecs : Codecs HeartbeatRequest) where
  read_heartbeat-cases :
      (clock : ℕ → Time) (later : Time) (p : Post) (station : Station)
      → let outcome = read_heartbeat net tools codecs clock later p station in
        Declines station outcome
        ⊎ ((r : HeartbeatRequest) × ((decode_json_body codecs max_heartbeat_body_bytes p ≡ inl r)
              × ((check_request clock r ≡ none) × Records later r station outcome)))
  unfolding read_heartbeat
  read_heartbeat-cases clock later p station =
      elim (sum_cases (decode_json_body codecs max_heartbeat_body_bytes p)) [
        | inr (error, bad) ↦
            rw (bad, read_heartbeat)
              (inl
                (refl, (body_status error, (invalid_heartbeat, (refl, body_status_below error)))))
        | inl (r, decoded) ↦
            rw (decoded, read_heartbeat)
              (elim (answer_request-cases clock later r station) [
                | inl declines ↦ inl declines
                | inr (good, records) ↦ inr (r, (refl, (good, records)))
              ])
      ]

  -- Any post to `heartbeat` is answered in one of two ways. Either nothing has changed and the reply is
  -- an error below 500; or the request may send events, its body decodes to a heartbeat that passes the
  -- handler's checks, the reply says that it was recorded, and the tables are those that
  -- `RecordHeartbeat` makes of it: the database never refuses what the handler let through.
  pub heartbeat_handler-cases :
      (c : Config Ip) (clock : ℕ → Time) (later : Time) (p : Post) (station : Station)
      → let outcome = heartbeat_handler net tools codecs c clock later p station in
        Declines station outcome
        ⊎ ((ingest_authorized tools net c p.request ≡ true)
            × ((r : HeartbeatRequest) × ((decode_json_body codecs max_heartbeat_body_bytes p
                    ≡ inl r)
                  × ((check_request clock r ≡ none) × Records later r station outcome))))
  unfolding heartbeat_handler
  heartbeat_handler-cases c clock later p station =
      elim (Bool-cases (ingest_authorized tools net c p.request)) [
        | inr no_right ↦
            rw (no_right, heartbeat_handler)
              (inl (refl, (401, (not_authorized, (refl, omega arith)))))
        | inl right ↦
            rw (right, heartbeat_handler)
              (elim (read_heartbeat-cases clock later p station) [
                | inl declines ↦ inl declines
                | inr reads ↦ inr (refl, reads)
              ])
      ]
