-- ===== src/Api/Auth/Guard.antt =====
-- internal/api/security.go: who may send events to a hub that was allowed to start.
use tokemon.Prelude.{
  ◌≡◌, ◌≢◌, ◌↔◌, subst, ◌⊎◌, refl, Bool, true, false, [], ◌∷◌, none, some, inl, inr, arith,
  Bool-cases, Option-cases,
}
use tokemon.Prelude.Texts.{Text, text_eq, eq_of_text_eq, trim_left, trim_right, trim_space}
use tokemon.Api.Auth.{
  NetTools, Credentials, Config, Request, validate_serve_config, loopback_listen_address,
  request_is_loopback, bearer_token, constant_time_equal, valid_token, ingest_authorized,
}

module _ (tools : Credentials) where
  open tools use {sha256}

  -- The request carries the token, in a header of its own or as a bearer token, and each of the two
  -- that it carries is right.
  pub record Presents (r : Request) (token : Text) : Type 0 where
    pub configured : token ≢ []
    pub header_right : r.ingest_header ≢ [] → sha256 r.ingest_header ≡ sha256 token
    pub bearer_right : (b : Text) → bearer_token r ≡ some b → sha256 b ≡ sha256 token
    pub carried : (r.ingest_header ≢ []) ⊎ ((b : Text) × (bearer_token r ≡ some b))

  -- The same, as the tests that the code makes.
  valid_token-known :
      (r : Request) (token : Text)
      → valid_token tools r token ≡ true
      → (text_eq token [] ≡ false)
        × (text_eq r.ingest_header [] ≡ false
            → constant_time_equal tools r.ingest_header token ≡ true)
        × ((b : Text) → bearer_token r ≡ some b → constant_time_equal tools b token ≡ true)
        × (bearer_token r ≡ none → text_eq r.ingest_header [] ≡ false)
  unfolding valid_token
  valid_token-known r token h = (
    ground (arith, h),
    λ given. ground (arith, h, given),
    λ b e. ground (arith, h, e),
    λ e. ground (arith, h, e),
  )

  nonempty_iff : (s : Text) → (text_eq s [] ≡ false) ↔ (s ≢ [])
  unfolding text_eq
  nonempty_iff [] = (λ h. absurd (ground (arith, h)), λ h. absurd (h refl))
  nonempty_iff (c ∷ s) = (λ h e. ground (arith, e), λ h. refl)

  valid_token-Presents :
      (r : Request) (token : Text) → valid_token tools r token ≡ true → Presents r token
  unfolding constant_time_equal
  valid_token-Presents r token h =
      let (known, header, bearer, missing) = valid_token-known r token h in
      record {
        configured = (nonempty_iff token).0 known;
        header_right = λ given. eq_of_text_eq _ _ (header ((nonempty_iff _).1 given));
        bearer_right = λ b e. eq_of_text_eq _ _ (bearer b e);
        carried = elim (Option-cases (bearer_token r)) [
          | inl e ↦ inl ((nonempty_iff _).0 (missing e))
          | inr (b, e) ↦ inr (b, e)
        ];
      }

  module _ {Ip : Type 0} (net : NetTools Ip) where
    blank_empty : text_eq (trim_space []) [] ≡ true
    unfolding trim_space trim_right trim_left text_eq
    blank_empty = refl

    without_token :
        (addr : Text) (dev : Bool)
        → validate_serve_config net addr [] dev ≡ none
        → loopback_listen_address net addr ≡ true
    unfolding validate_serve_config
    without_token addr dev h = ground (arith, h, blank_empty)

    -- Development mode without a token, and both ends are loopback addresses.
    abbrev pub IsLocal : Text → Config Ip → Request → Type 0
    IsLocal addr c r =
        (c.ingest_token ≡ [])
        × (c.allow_loopback_dev ≡ true)
        × (loopback_listen_address net addr ≡ true)
        × (request_is_loopback net r ≡ true)

    -- A hub whose settings passed `ValidateServeConfig` takes events from two kinds of request only:
    -- one that presents the configured, non-empty token, in the token header or as a bearer token,
    -- where whichever of the two it carries has the digest of the configured token; or, when no token
    -- is configured and development mode is on, one whose remote address is loopback, to a hub that
    -- listens on a loopback address.
    pub ingest_authorized-guarded :
        (addr : Text) (c : Config Ip) (r : Request)
        → validate_serve_config net addr c.ingest_token c.allow_loopback_dev ≡ none
        → ingest_authorized tools net c r ≡ true
        → Presents r c.ingest_token ⊎ IsLocal addr c r
    unfolding ingest_authorized
    ingest_authorized-guarded addr c r started h = elim (Bool-cases (text_eq c.ingest_token [])) [
      | inr present ↦ inl (valid_token-Presents r c.ingest_token (ground (arith, h, present)))
      | inl empty ↦
          let none_set = eq_of_text_eq _ _ empty in
          inr (
            none_set,
            ground (arith, h, empty),
            without_token addr c.allow_loopback_dev (
                subst (λ t. validate_serve_config net addr t c.allow_loopback_dev ≡ none) none_set
                  started),
            ground (arith, h, empty),
          )
    ]
