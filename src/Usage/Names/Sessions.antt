-- ===== src/Usage/Names/Sessions.antt =====
-- A normalized session name is stable: normalizing it again changes nothing, which is what the
-- privacy guard asks of every session name that leaves the machine.
use tokemon.Prelude.{
  ℕ, ◌*◌, ◌/◌, ◌%◌, ◌≤◌, ◌<◌, ◌≡◌, refl, ◌⊎◌, inl, inr, true, false, List, [], ◌∷◌, ◌++◌, arith,
  All, Bool-cases, length,
}
use tokemon.Prelude.Texts.{
  Text, text_eq, byte_len, is_space, trim_space, trim_space_idem, trim_left, trim_right,
}
use tokemon.Prelude.Find.{CaseTables, contains_rune, contains_any, has_prefix, trim_prefix}
use tokemon.Usage.Names.{
  hex_rune, hex_encode, is_hex, digest_prefix, digest_size, is_safe_session_id, hash_session_id,
  normalize_session_id, unsafe_session_runes,
}

-- What sha256.Sum256 returns: 32 bytes.
abbrev pub IsDigest : List ℕ → Type 0
IsDigest bytes = (length bytes ≡ digest_size) × All (λ b. b < 256) bytes

-- The runes of a digest in hexadecimal: digits and the letters a to f.
abbrev IsHexRune : ℕ → Type 0
IsHexRune c = ((b'0' ≤ c) × (c ≤ b'9')) ⊎ ((b'a' ≤ c) × (c ≤ b'f'))

hex_rune-IsHexRune : (d : ℕ) → d < 16 → IsHexRune (hex_rune d)
unfolding hex_rune
hex_rune-IsHexRune d h = ground arith

hex_encode-All : (bytes : List ℕ) → All (λ b. b < 256) bytes → All IsHexRune (hex_encode bytes)
unfolding hex_encode
hex_encode-All [] h = tt
hex_encode-All (b ∷ bytes) h = (
  hex_rune-IsHexRune (b / 16) (omega arith),
  (hex_rune-IsHexRune (b % 16) (omega arith), hex_encode-All bytes h.1),
)

length-hex_encode : (bytes : List ℕ) → length (hex_encode bytes) ≡ 2 * length bytes
unfolding hex_encode
length-hex_encode [] = omega arith
length-hex_encode (b ∷ bytes) = omega (arith, length-hex_encode bytes)

byte_len-hex : (s : Text) → All IsHexRune s → byte_len s ≡ length s
unfolding byte_len
byte_len-hex [] h = refl
byte_len-hex (c ∷ s) h = ground (arith, byte_len-hex s h.1)

is_hex-hex : (s : Text) → All IsHexRune s → is_hex s ≡ true
unfolding is_hex
is_hex-hex [] h = refl
is_hex-hex (c ∷ s) h = ground (arith, is_hex-hex s h.1)

contains_any-hex : (s : Text) → All IsHexRune s → contains_any s unsafe_session_runes ≡ false
unfolding contains_any
contains_any-hex [] h = refl
contains_any-hex (c ∷ s) h = ground (arith, contains_any-hex s h.1)

hex_not_space : (c : ℕ) → IsHexRune c → is_space c ≡ false
unfolding is_space
hex_not_space c h = ground arith

abbrev HasNoSpace : Text → Type 0
HasNoSpace s = All (λ c. is_space c ≡ false) s

hex_no_space : (s : Text) → All IsHexRune s → HasNoSpace s
hex_no_space [] h = tt
hex_no_space (c ∷ s) h = (hex_not_space c h.0, hex_no_space s h.1)

-- A text with no space in it is not trimmed.
trim_left_none : (s : Text) → HasNoSpace s → trim_left is_space s ≡ s
unfolding trim_left
trim_left_none [] h = refl
trim_left_none (c ∷ s) h = rw h.0

trim_right_none : (s : Text) → HasNoSpace s → trim_right is_space s ≡ s
unfolding trim_right
trim_right_none [] h = refl
trim_right_none (c ∷ s) h = ground (arith, h.0, trim_right_none s h.1)

trim_space_none : (s : Text) → HasNoSpace s → trim_space s ≡ s
unfolding trim_space
trim_space_none s h = rw (trim_left_none s h) (trim_right_none s h)

-- The facts about a hexadecimal text stay true behind the prefix "sha256:".
prefixed-safe :
    (tables : CaseTables) (s : Text)
    → All IsHexRune s
    → length s ≡ 64
    → is_safe_session_id tables (digest_prefix ++ s) ≡ true
unfolding is_safe_session_id contains_any trim_prefix has_prefix byte_len contains_rune is_hex
prefixed-safe tables s h l = ground (arith, contains_any-hex s h, byte_len-hex s h, is_hex-hex s h)

prefixed-trim : (s : Text) → All IsHexRune s → trim_space (digest_prefix ++ s) ≡ digest_prefix ++ s
unfolding is_space
prefixed-trim s h =
    trim_space_none _ (refl, (refl, (refl, (refl, (refl, (refl, (refl, hex_no_space s h)))))))

module _ (tables : CaseTables) (sha256 : Text → List ℕ)
    (digests : (t : Text) → IsDigest (sha256 t)) where
  hash_session_id-safe :
      (t : Text) → is_safe_session_id tables (hash_session_id tables sha256 t) ≡ true
  unfolding hash_session_id
  hash_session_id-safe t =
      prefixed-safe tables _ (hex_encode-All _ (digests t).1)
        (omega (arith, length-hex_encode (sha256 t), (digests t).0))

  settled :
      (v : Text)
      → text_eq v [] ≡ false
      → trim_space v ≡ v
      → is_safe_session_id tables v ≡ true
      → normalize_session_id tables sha256 v ≡ v
  unfolding normalize_session_id
  settled v nonempty trimmed safe = rw (trimmed, nonempty, safe)

  hashed :
      (t : Text)
      → normalize_session_id tables sha256 (hash_session_id tables sha256 t)
        ≡ hash_session_id tables sha256 t
  unfolding hash_session_id text_eq
  hashed t =
      settled _ refl (prefixed-trim _ (hex_encode-All _ (digests t).1))
        (unfold hash_session_id in hash_session_id-safe t)

  -- Normalizing a session name twice is normalizing it once, for a hash that returns 32 bytes.
  pub normalize_session_id_idem :
      (raw : Text)
      → let normalized = normalize_session_id tables sha256 raw in
        normalize_session_id tables sha256 normalized ≡ normalized
  normalize_session_id_idem raw = elim (Bool-cases (text_eq (trim_space raw) [])) [
    | inl empty ↦ unfold normalize_session_id trim_space trim_left trim_right text_eq in rw empty
    | inr named ↦ elim (Bool-cases (is_safe_session_id tables (trim_space raw))) [
      | inl safe ↦
          let kept : normalize_session_id tables sha256 raw ≡ trim_space raw =
            unfold normalize_session_id in rw (named, safe) in
          rw kept (settled _ named (trim_space_idem raw) safe)
      | inr unsafe ↦
          let replaced : normalize_session_id tables sha256 raw
              ≡ hash_session_id tables sha256 (trim_space raw) =
            unfold normalize_session_id in rw (named, unsafe) in
          rw replaced (hashed (trim_space raw))
    ]
  ]
