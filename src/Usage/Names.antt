-- ===== src/Usage/Names.antt =====
-- internal/usage/event.go: `NormalizeProject`, `NormalizeSessionID`, `HashSessionID` and the test
-- `isSafeSessionID`. The SHA-256 function is a parameter.
pub mod Projects
pub mod Sessions
use tokemon.Prelude.{
  ℕ, ◌+◌, ◌/◌, ◌%◌, ◌*◌, ◌≡◌, Bool, true, false, not, ◌&&◌, ◌||◌, List, [], ◌∷◌, ◌++◌, ltb, leb,
  ◌==◌, if◌then◌else◌, length, all, any,
}
use tokemon.Prelude.Texts.{Text, text, text_eq, byte_len, is_space, trim_space, trim_right}
use tokemon.Prelude.Find.{CaseTables, contains_any, has_prefix, trim_prefix, replace_rune, to_lower}

abbrev pub slash : ℕ
slash = b'/'

abbrev pub backslash : ℕ
backslash = 92

-- "/\\", the runes that make a name a path.
abbrev pub path_runes : Text
path_runes = slash ∷ backslash ∷ []

-- strings.Split by one rune: the first part, and the parts after it.
abbrev into_first : ℕ → List Text → List Text
into_first c [] = (c ∷ []) ∷ []
into_first c (part ∷ parts) = (c ∷ part) ∷ parts

unfoldable pub split_on : ℕ → Text → List Text
split_on sep [] = [] ∷ []
split_on sep (c ∷ s) =
    let rest = split_on sep s in if c == sep then [] ∷ rest else into_first c rest

-- `parts[len(parts)-1]`; strings.Split never returns an empty list.
unfoldable pub last_part : List Text → Text
last_part [] = []
last_part (part ∷ []) = part
last_part (part ∷ next ∷ parts) = last_part (next ∷ parts)

module _ (tables : CaseTables) where
  unfoldable pub label_of : Text → Text
  label_of name =
      if text_eq name [] || text_eq name (text ".") || text_eq name (text "..")
      then []
      else to_lower tables name

  -- `NormalizeProject`
  unfoldable pub normalize_project : Text → Text
  unfolding label_of
  normalize_project value =
      let trimmed =
        trim_right (λ c. c == slash) (trim_space (replace_rune backslash slash value)) in
      if text_eq trimmed [] then [] else label_of (trim_space (last_part (split_on slash trimmed)))

unfoldable pub is_hex_digit : ℕ → Bool
is_hex_digit c =
    (leb b'0' c && leb c b'9') || (leb b'a' c && leb c b'f') || (leb b'A' c && leb c b'F')

-- `isHex`
unfoldable pub is_hex : Text → Bool
unfolding is_hex_digit
is_hex s = all is_hex_digit s

abbrev pub digest_prefix : Text
digest_prefix = text "sha256:"

-- sha256.Size
abbrev pub digest_size : ℕ
digest_size = 32

-- hex.EncodeToString
unfoldable pub hex_rune : ℕ → ℕ
hex_rune d = if ltb d 10 then b'0' + d else 87 + d

unfoldable pub hex_encode : List ℕ → Text
unfolding hex_rune
hex_encode [] = []
hex_encode (b ∷ bytes) = hex_rune (b / 16) ∷ hex_rune (b % 16) ∷ hex_encode bytes

abbrev is_opaque_rune : ℕ → Bool
is_opaque_rune r =
    (leb b'a' r && leb r b'z')
    || (leb b'A' r && leb r b'Z')
    || (leb b'0' r && leb r b'9')
    || r == b'-'
    || r == b'_'
    || r == b'.'

abbrev pub credential_prefixes : List Text
credential_prefixes = text "bearer " ∷ text "sk-" ∷ text "ghp_" ∷ text "github_pat_" ∷ []

abbrev pub max_session_id_length : ℕ
max_session_id_length = 256

-- The second argument of ContainsAny: "/\\\r\n\t ".
abbrev pub unsafe_session_runes : Text
unsafe_session_runes = slash ∷ backslash ∷ 13 ∷ 10 ∷ 9 ∷ 32 ∷ []

-- hex.DecodeString succeeds: an even number of bytes, each a hexadecimal digit.
abbrev decodes_as_hex : Text → Bool
decodes_as_hex s = byte_len s % 2 == 0 && is_hex s

module _ (tables : CaseTables) where
  -- `isSafeSessionID`
  unfoldable pub is_safe_session_id : Text → Bool
  is_safe_session_id value =
      if ltb max_session_id_length (length value) || contains_any value unsafe_session_runes
      then false
      else (if has_prefix value digest_prefix
          then byte_len value == byte_len digest_prefix + digest_size * 2
            && decodes_as_hex (trim_prefix value digest_prefix)
          else not (any (has_prefix (to_lower tables value)) credential_prefixes)
            && all is_opaque_rune value)

  module _ (sha256 : Text → List ℕ) where
    -- `HashSessionID`
    unfoldable pub hash_session_id : Text → Text
    hash_session_id value = digest_prefix ++ hex_encode (sha256 value)

    -- `NormalizeSessionID`
    unfoldable pub normalize_session_id : Text → Text
    unfolding hash_session_id
    normalize_session_id raw =
        let value = trim_space raw in
        if text_eq value []
        then []
        else (if is_safe_session_id value then value else hash_session_id value)
