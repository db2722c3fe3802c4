-- ===== src/Api/Hub.antt =====
-- internal/api/server.go: `ingest`, which answers a batch of events, and the decoding of a request's
-- body in security.go. Package json, the decompression of gzip and the comparison of the header's
-- case are parameters. The caches of the dashboard that `ingest` clears, the log and the measured
-- latency are left out.
pub mod Replies
pub mod Accepts
mod Tests
use tokemon.Prelude.{
  ℕ, zero, suc, ◌+◌, ◌*◌, ◌%◌, ◌^◌, Bool, true, false, not, ◌&&◌, ◌||◌, List, [], ◌∷◌, Option, none,
  some, ◌⊎◌, inl, inr, if◌then◌else◌, ltb, ◌==◌, length, take,
}
use tokemon.Prelude.Texts.{Text, text}
use tokemon.Prelude.Find.{CaseTables}
use tokemon.Prelude.Floats.{FloatOps}
use tokemon.Usage.Event.{Event, Time, Fields}
use tokemon.Usage.Validate.{validate_at}
use tokemon.Catalog.{Catalog}
use tokemon.Database.Ingest.{Store, IngestResult, StoreError, ingest}
use tokemon.Api.Auth.{NetTools, Credentials, Config, Request, ingest_authorized}

abbrev mebibyte : ℕ
mebibyte = 2 ^ 20

abbrev pub max_compressed_body_bytes : ℕ
max_compressed_body_bytes = 10 * mebibyte

abbrev pub max_decompressed_body_bytes : ℕ
max_decompressed_body_bytes = 8 * mebibyte

abbrev pub max_batch_body_bytes : ℕ
max_batch_body_bytes = 4 * mebibyte

abbrev pub max_batch_events : ℕ
max_batch_events = 1000

-- What reading a body gives: its bytes, and whether an error comes after them.
pub record Stream : Type 0 where
  pub bytes : List ℕ
  pub fails : Bool

-- The decoders for a request of type T: gzip.NewReader, the first JSON value of a text as a T with the
-- bytes after it, whether nothing but space is left, and the length of json.Marshal.
pub record Codecs (T : Type 0) : Type 0 where
  pub equal_fold : Text → Text → Bool
  pub gunzip : Stream → Option Stream
  pub decode_first : List ℕ → Option (T × List ℕ)
  pub at_end : List ℕ → Bool
  pub encoded_len : T → Option ℕ

pub record Post : Type 0 where
  pub request : Request
  pub content_encoding : Text
  pub body : Stream

pub data BodyError : Type 0 where
  invalid_gzip body_read body_too_large invalid_json : BodyError

-- http.MaxBytesReader
unfoldable pub max_bytes_reader : ℕ → Stream → Stream
max_bytes_reader limit s =
    if ltb limit (length s.bytes) then record { bytes = take limit s.bytes; fails = true } else s

-- io.ReadAll of io.LimitReader: at the limit the error that would follow is not seen.
unfoldable pub read_limited : ℕ → Stream → Option (List ℕ)
read_limited limit s =
    if s.fails && ltb (length s.bytes) limit then none else some (take limit s.bytes)

module _ {T : Type 0} (codecs : Codecs T) where
  open codecs use {equal_fold, gunzip, decode_first, at_end}

  abbrev decode_value : List ℕ → T ⊎ BodyError
  decode_value bytes = elim (decode_first bytes) [
    | none ↦ inr invalid_json
    | some (value, rest) ↦ if at_end rest then inl value else inr invalid_json
  ]

  -- `decodeJSONBody`
  unfoldable pub decode_json_body : ℕ → Post → T ⊎ BodyError
  unfolding max_bytes_reader read_limited
  decode_json_body limit p =
      let body = max_bytes_reader max_compressed_body_bytes p.body in
      let reader = if equal_fold p.content_encoding (text "gzip") then gunzip body else some body in
      elim reader [
        | none ↦ inr invalid_gzip
        | some stream ↦ elim (read_limited (suc limit) stream) [
          | none ↦ inr body_read
          | some bytes ↦
              let value = decode_value bytes in
              if ltb limit (length bytes) then inr body_too_large else value
        ]
      ]

-- The counters of `Metrics` that `ingest` moves, each a uint64.
pub record Metrics : Type 0 where
  pub ingest_requests : ℕ
  pub ingest_accepted : ℕ
  pub ingest_duplicates : ℕ
  pub ingest_rejected : ℕ

pub record Hub : Type 0 where
  pub store : Store
  pub metrics : Metrics

pub data ApiError : Type 0 where
  invalid_ingest_token invalid_batch count_out_of_range batch_too_large not_persisted : ApiError
  event_invalid : ℕ → ApiError

-- A status with its message, or the result with status 200.
pub data Reply : Type 0 where
  refused : ℕ → ApiError → Reply
  answered : IngestResult → Reply

abbrev add_uint64 : ℕ → ℕ → ℕ
add_uint64 a b = (a + b) % 2 ^ 64

abbrev at_least_one : ℕ → ℕ
at_least_one n = if n == 0 then 1 else n

abbrev pub counted_request : Hub → Hub
counted_request hub = record hub {
  metrics = record (hub.metrics) { ingest_requests = add_uint64 hub.metrics.ingest_requests 1 };
}

-- `rejectIngest`
unfoldable pub reject_ingest : ℕ → ApiError → ℕ → Hub → Hub × Reply
reject_ingest status error count hub = (
  record hub {
    metrics = record (hub.metrics) {
      ingest_rejected = add_uint64 hub.metrics.ingest_rejected (at_least_one count);
    };
  },
  refused status error,
)

abbrev pub body_status : BodyError → ℕ
body_status invalid_gzip = 400
body_status body_read = 413
body_status body_too_large = 413
body_status invalid_json = 400

abbrev pub bad_count : List Event → Bool
bad_count events = length events == 0 || ltb max_batch_events (length events)

abbrev pub oversized : Option ℕ → Bool
oversized none = true
oversized (some n) = ltb max_batch_body_bytes n

abbrev count_result : IngestResult → Metrics → Metrics
count_result r m = record m {
  ingest_accepted = add_uint64 m.ingest_accepted r.accepted;
  ingest_duplicates = add_uint64 m.ingest_duplicates r.duplicates;
  ingest_rejected = add_uint64 m.ingest_rejected r.rejected;
}

module _ (tables : CaseTables) (metadata_len : Fields → Option ℕ) where
  -- The index of the first event that `Validate` refuses; the clock's reading for the n-th is
  -- `clock n`.
  unfoldable pub first_invalid : (ℕ → Time) → ℕ → List Event → Option ℕ
  first_invalid clock index [] = none
  first_invalid clock index (e ∷ events) =
      let rest = first_invalid clock (suc index) events in
      elim (validate_at tables metadata_len (clock index) e) [ none ↦ rest | some _ ↦ some index ]

module _ (tables : CaseTables) (metadata_len : Fields → Option ℕ) (floats : FloatOps)
    (catalog : Option Catalog) where
  -- The part of `ingest` after the checks: what `Ingest` does is counted and answered.
  unfoldable pub persist : (ℕ → Time) → List Event → Hub → Hub × Reply
  persist later events hub =
      let (next, (result, error)) =
        ingest tables metadata_len floats catalog later events hub.store in
      elim error [
        | some _ ↦ (record hub { store = next }, refused 500 not_persisted)
        | none ↦
            (record { store = next; metrics = count_result result hub.metrics }, answered result)
      ]

  -- The checks of a decoded batch in `ingest`, then `persist`.
  unfoldable pub ingest_batch :
      Codecs (List Event) → (ℕ → Time) → (ℕ → Time) → List Event → Hub → Hub × Reply
  ingest_batch codecs clock later events hub =
      let count = length events in
      let checked : Hub × Reply = elim (first_invalid tables metadata_len clock 0 events) [
        | none ↦ persist later events hub
        | some index ↦ reject_ingest 400 (event_invalid (index + 1)) count hub
      ] in
      if bad_count events
      then reject_ingest 400 count_out_of_range count hub
      else (if oversized (codecs.encoded_len events)
          then reject_ingest 413 batch_too_large count hub
          else checked)

  module _ {Ip : Type 0} (net : NetTools Ip) (tools : Credentials)
      (codecs : Codecs (List Event)) where
    unfoldable pub read_post : (ℕ → Time) → (ℕ → Time) → Post → Hub → Hub × Reply
    read_post clock later p hub = elim (decode_json_body codecs max_decompressed_body_bytes p) [
      | inr error ↦ reject_ingest (body_status error) invalid_batch 1 hub
      | inl events ↦ ingest_batch codecs clock later events hub
    ]

    -- `Server.ingest`. The clock reads `clock n` while the handler validates the n-th event and
    -- `later n` while the database does.
    unfoldable pub ingest_handler : Config Ip → (ℕ → Time) → (ℕ → Time) → Post → Hub → Hub × Reply
    ingest_handler c clock later p hub =
        if ingest_authorized tools net c p.request
        then read_post clock later p (counted_request hub)
        else reject_ingest 401 invalid_ingest_token 1 (counted_request hub)
