-- ===== src/Usage/Identity.antt =====
-- internal/usage/event.go: `DeterministicID`, and what fmt.Sprintf writes for an int64.
use tokemon.Prelude.{ℕ, zero, suc, ◌+◌, ◌/◌, ◌%◌, List, [], ◌∷◌, ◌++◌, ltb, if◌then◌else◌}
use tokemon.Prelude.Int.{ℤ, pos, negsuc}
use tokemon.Prelude.Texts.{Text}
use tokemon.Usage.Names.{digest_prefix, hex_encode}

-- The decimal digits of a number below 10 ^ n, at least one.
unfoldable pub digits : ℕ → ℕ → Text
digits zero n = []
digits (suc fuel) n =
    let before = digits fuel (n / 10) in
    if ltb n 10 then (b'0' + n) ∷ [] else before ++ (b'0' + n % 10) ∷ []

-- %d of an int64, which has at most 19 digits.
unfoldable pub decimal : ℤ → Text
unfolding digits
decimal (pos n) = digits 19 n
decimal (negsuc n) = b'-' ∷ digits 19 (suc n)

-- Texts laid end to end, a NUL between two of them.
unfoldable pub join_nul : List Text → Text
join_nul [] = []
join_nul (s ∷ []) = s
join_nul (s ∷ t ∷ rest) = s ++ 0 ∷ join_nul (t ∷ rest)

module _ (sha256 : Text → List ℕ) where
  -- "sha256:" and the hash of a text: adapters.HashIdentity is written so too.
  unfoldable pub hash_identity : Text → Text
  hash_identity value = digest_prefix ++ hex_encode (sha256 value)

  unfoldable pub deterministic_id : Text → Text → Text → ℤ → Text → Text → Text
  unfolding hash_identity join_nul decimal
  deterministic_id machine_id adapter source_identity offset timestamp session_id = hash_identity (
      join_nul
        (machine_id ∷ adapter ∷ source_identity ∷ decimal offset ∷ timestamp ∷ session_id ∷ []))
