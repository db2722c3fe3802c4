-- ===== src/Prelude/Find.antt =====
-- Searching and replacing in texts: what package strings does for the program.
use tokemon.Prelude.Tests.{ltb, leb, ◌==◌, if◌then◌else◌}
use tokemon.Prelude.Lists.{any, drop, length}
use tokemon.Prelude.Texts.{Text}
use Prim.Native.Nat.{ℕ, ◌+◌, ◌-◌}
use mathlib.Core.Bool.{Bool, true, false, ◌&&◌, ◌||◌}
use mathlib.Core.List.{[], ◌∷◌}

-- Whether a rune occurs in a text.
unfoldable pub contains_rune : Text → ℕ → Bool
contains_rune [] c = false
contains_rune (d ∷ s) c = d == c || contains_rune s c

-- strings.ContainsAny
unfoldable pub contains_any : Text → Text → Bool
unfolding contains_rune
contains_any s chars = any (contains_rune chars) s

-- strings.HasPrefix
unfoldable pub has_prefix : Text → Text → Bool
has_prefix s [] = true
has_prefix [] (d ∷ p) = false
has_prefix (c ∷ s) (d ∷ p) = c == d && has_prefix s p

-- strings.TrimPrefix
unfoldable pub trim_prefix : Text → Text → Text
unfolding has_prefix
trim_prefix s p = if has_prefix s p then drop (length p) s else s

-- strings.Contains
unfoldable pub contains : Text → Text → Bool
unfolding has_prefix
contains [] p = has_prefix [] p
contains (c ∷ s) p = has_prefix (c ∷ s) p || contains s p

-- strings.ReplaceAll with one rune for another.
unfoldable pub replace_rune : ℕ → ℕ → Text → Text
replace_rune old new [] = []
replace_rune old new (c ∷ s) = (if c == old then new else c) ∷ replace_rune old new s

-- The simple case mappings of Unicode beyond ASCII, as unicode.ToLower and unicode.ToUpper use them.
pub record CaseTables : Type 0 where
  pub lower_beyond_ascii : ℕ → ℕ
  pub upper_beyond_ascii : ℕ → ℕ

module _ (tables : CaseTables) where
  unfoldable pub lower_rune : ℕ → ℕ
  lower_rune c =
      if ltb c 0x80
      then (if leb b'A' c && leb c b'Z' then c + 32 else c)
      else tables.lower_beyond_ascii c

  unfoldable pub upper_rune : ℕ → ℕ
  upper_rune c =
      if ltb c 0x80
      then (if leb b'a' c && leb c b'z' then c - 32 else c)
      else tables.upper_beyond_ascii c

  -- strings.ToLower
  unfoldable pub to_lower : Text → Text
  unfolding lower_rune
  to_lower [] = []
  to_lower (c ∷ s) = lower_rune c ∷ to_lower s

  -- strings.ToUpper
  unfoldable pub to_upper : Text → Text
  unfolding upper_rune
  to_upper [] = []
  to_upper (c ∷ s) = upper_rune c ∷ to_upper s
