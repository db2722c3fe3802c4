-- ===== src/Api/Auth.antt =====
-- internal/api/security.go: the server's configuration and who may send events or see the dashboard.
-- What package net makes of addresses, the decoding of Basic credentials, SHA-256 and bcrypt are
-- parameters; a header that is absent is the empty text.
pub mod Guard
use tokemon.Prelude.{
  ℕ, suc, ◌+◌, ◌*◌, Bool, true, false, not, ◌&&◌, ◌||◌, List, [], ◌∷◌, ◌++◌, Option, none, some,
  if◌then◌else◌, any, ◌==◌, length, filter,
}
use tokemon.Prelude.Int.{ℤ, pos, leb_ℤ}
use tokemon.Prelude.Texts.{Text, text, text_eq, trim_space, trim_left, trim_right}
use tokemon.Prelude.Find.{contains_any, has_prefix, trim_prefix}

-- Package net, as far as it is used: an IP address is what ParseIP returns.
pub record NetTools (Ip : Type 0) : Type 0 where
  pub split_host_port : Text → Option (Text × Text)
  pub parse_ip : Text → Option Ip
  pub is_loopback : Ip → Bool

pub record Credentials : Type 0 where
  pub sha256 : Text → List ℕ
  pub bcrypt_cost_ok : Text → Bool
  pub bcrypt_matches : Text → Text → Bool

-- `Config`, without the logger and the metrics. A duration is in nanoseconds. A network is the test
-- whether it contains an address.
pub record Config (Ip : Type 0) : Type 0 where
  pub ingest_token : Text
  pub dashboard_token : Text
  pub dashboard_username : Text
  pub dashboard_password_hash : Text
  pub dashboard_token_fallback : Bool
  pub allow_loopback_dev : Bool
  pub trusted_proxies : List (Ip → Bool)
  pub request_timeout : ℤ
  pub health_timeout : ℤ
  pub heartbeat_timeout : ℤ
  pub ingest_timeout : ℤ
  pub stale_agent_after : ℤ

pub record Request : Type 0 where
  pub remote_addr : Text
  pub authorization : Text
  pub ingest_header : Text
  pub forwarded_user : Text
  pub basic_auth : Option (Text × Text)

abbrev pub seconds : ℕ → ℤ
seconds n = pos (n * 1_000_000_000)

abbrev or_default : ℤ → ℤ → ℤ
or_default fallback v = if leb_ℤ v (pos 0) then fallback else v

-- `normalized`
unfoldable pub normalized : {Ip : Type 0} → Config Ip → Config Ip
normalized c = record c {
  dashboard_token = if text_eq c.dashboard_token [] then c.ingest_token else c.dashboard_token;
  request_timeout = or_default (seconds 30) c.request_timeout;
  health_timeout = or_default (seconds 5) c.health_timeout;
  heartbeat_timeout = or_default (seconds 15) c.heartbeat_timeout;
  ingest_timeout = or_default (seconds 30) c.ingest_timeout;
  stale_agent_after = or_default (seconds 300) c.stale_agent_after;
}

pub data ConfigError : Type 0 where
  username_and_hash_together not_bcrypt token_required loopback_required : ConfigError

-- `validateDashboardPasswordAuth`
unfoldable pub validate_dashboard_password_auth :
    {Ip : Type 0} → Credentials → Config Ip → Option ConfigError
validate_dashboard_password_auth tools c =
    let no_user = text_eq c.dashboard_username [] in
    let no_hash = text_eq c.dashboard_password_hash [] in
    if (if no_user then not no_hash else no_hash)
    then some username_and_hash_together
    else (if no_hash
        then none
        else (if tools.bcrypt_cost_ok c.dashboard_password_hash then none else some not_bcrypt))

-- The text before the first such rune, if there is one.
unfoldable pub before_rune : ℕ → Text → Option Text
before_rune c [] = none
before_rune c (d ∷ s) =
    let later : Option Text = elim (before_rune c s) [ none ↦ none | some t ↦ some (d ∷ t) ] in
    if d == c then some [] else later

abbrev is_bracket : ℕ → Bool
is_bracket c = c == b'[' || c == b']'

abbrev drop_first : Text → Text
drop_first [] = []
drop_first (_ ∷ s) = s

module _ {Ip : Type 0} (net : NetTools Ip) where
  abbrev is_loopback_host : Text → Bool
  is_loopback_host host = elim (net.parse_ip host) [ none ↦ false | some ip ↦ net.is_loopback ip ]

  -- `loopbackListenAddress`
  unfoldable pub loopback_listen_address : Text → Bool
  unfolding before_rune
  loopback_listen_address addr =
      let host = trim_space addr in
      let bracketed : Text = elim (before_rune b']' host) [ none ↦ host | some h ↦ drop_first h ] in
      let split : Text = elim (net.split_host_port host) [ none ↦ host | some (h, _) ↦ h ] in
      let is_local = λ (h : Text). text_eq h (text "localhost") || is_loopback_host h in
      if has_prefix host (text "[")
      then is_local bracketed
      else (if length (filter (λ c. c == b':') host) == 1
          then is_local split
          else (if has_prefix host (text ":") then false else is_local host))

  -- `ValidateServeConfig`
  unfoldable pub validate_serve_config : Text → Text → Bool → Option ConfigError
  validate_serve_config addr ingest_token allow_loopback_dev =
      if not (text_eq (trim_space ingest_token) [])
      then none
      else (if not allow_loopback_dev
          then some token_required
          else (if loopback_listen_address addr then none else some loopback_required))

  -- `requestRemoteIP`
  unfoldable pub request_remote_ip : Request → Option Ip
  request_remote_ip r =
      let remote = trim_space r.remote_addr in
      let host : Text = elim (net.split_host_port remote) [ none ↦ remote | some (h, _) ↦ h ] in
      net.parse_ip (trim_right is_bracket (trim_left is_bracket host))

  -- `requestIsLoopback`
  unfoldable pub request_is_loopback : Request → Bool
  request_is_loopback r = elim (request_remote_ip r) [ none ↦ false | some ip ↦ net.is_loopback ip ]

  -- `trustedProxyUser`
  unfoldable pub trusted_proxy_user : Config Ip → Request → Text
  trusted_proxy_user c r = elim (request_remote_ip r) [
    | none ↦ []
    | some ip ↦
        if any (λ (contains : Ip → Bool). contains ip) c.trusted_proxies
        then trim_space r.forwarded_user
        else []
  ]

-- `bearerToken`
unfoldable pub bearer_token : Request → Option Text
bearer_token r =
    let token = trim_prefix r.authorization (text "Bearer ") in
    if not (has_prefix r.authorization (text "Bearer "))
    then none
    else (if text_eq token []
          || not (text_eq (trim_space token) token)
          || contains_any token (13 ∷ 10 ∷ [])
        then none
        else some token)

module _ (tools : Credentials) where
  open tools use {sha256, bcrypt_matches}

  -- `constantTimeEqual`: the digests are compared.
  unfoldable pub constant_time_equal : Text → Text → Bool
  constant_time_equal provided expected = text_eq (sha256 provided) (sha256 expected)

  -- `validToken`
  unfoldable pub valid_token : Request → Text → Bool
  valid_token r expected =
      let no_header = text_eq r.ingest_header [] in
      let by_header = constant_time_equal r.ingest_header expected in
      let by_bearer : Bool = elim (bearer_token r) [
        | none ↦ not no_header && by_header
        | some bearer ↦
            if no_header
            then constant_time_equal bearer expected
            else by_header && constant_time_equal bearer expected
      ] in
      if text_eq expected [] then false else by_bearer

  -- `dashboardPasswordAuthorized`
  unfoldable pub dashboard_password_authorized : Request → Text → Text → Bool
  dashboard_password_authorized r username hash =
      let by_password : Bool = elim r.basic_auth [
        | none ↦ false
        | some (user, password) ↦ constant_time_equal user username && bcrypt_matches hash password
      ] in
      if text_eq username [] || text_eq hash [] then false else by_password

  abbrev basic_token : Request → Text → Bool
  basic_token r token = elim r.basic_auth [
    | none ↦ false
    | some (user, password) ↦ not (text_eq user []) && constant_time_equal password token
  ]

  abbrev bearer_is : Request → Text → Bool
  bearer_is r token = elim (bearer_token r) [
    | none ↦ false
    | some provided ↦ constant_time_equal provided token
  ]

  module _ {Ip : Type 0} (net : NetTools Ip) where
    -- `ingestAuthorized`
    unfoldable pub ingest_authorized : Config Ip → Request → Bool
    ingest_authorized c r =
        if text_eq c.ingest_token []
        then c.allow_loopback_dev && request_is_loopback net r
        else valid_token r c.ingest_token

    -- `dashboardAuthorized`
    unfoldable pub dashboard_authorized : Config Ip → Request → Bool
    dashboard_authorized c r =
        let by_token =
          basic_token r c.dashboard_token
          || bearer_is r c.dashboard_token
          || dashboard_password_authorized r c.dashboard_username c.dashboard_password_hash in
        if c.allow_loopback_dev && text_eq c.ingest_token [] && request_is_loopback net r
        then true
        else (if not (text_eq (trusted_proxy_user net c r) [])
            then true
            else (if text_eq c.dashboard_token [] then false else by_token))

pub data AuthMode : Type 0 where
  password_account dashboard_token_mode loopback_development closed : AuthMode

pub data TokenSource : Type 0 where
  documented_fallback explicit_token none_configured : TokenSource

-- `authSummary`
unfoldable pub auth_summary : {Ip : Type 0} → Config Ip → AuthMode × TokenSource
auth_summary c = (
  if not (text_eq c.dashboard_username []) && not (text_eq c.dashboard_password_hash [])
      then password_account
      else (if not (text_eq c.dashboard_token [])
          then dashboard_token_mode
          else (if c.allow_loopback_dev then loopback_development else closed)),
  if c.dashboard_token_fallback
      then documented_fallback
      else (if not (text_eq c.dashboard_token []) then explicit_token else none_configured),
)
