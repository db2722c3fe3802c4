-- ===== src/Prelude/Texts.antt =====
-- Go strings. Every text here has passed encoding/json, which leaves valid UTF-8 only, so a string
-- is the list of its runes; `byte_len` is Go's `len`. What package strings and package unicode do
-- with them is written out, but for the case tables beyond ASCII, which are a parameter.
use tokemon.Prelude.Tests.{ltb, leb, ◌==◌, if◌then◌else◌, Bool-cases}
use Prim.Native.Nat.{ℕ, ◌+◌}
use Prim.Native.Char.{code}
use Prim.Native.String.{String}
use mathlib.Core.Path.{◌≡◌, refl}
use mathlib.Core.Logic.{◌↔◌, inl, inr}
use mathlib.Core.Bool.{Bool, true, false, ◌&&◌, ◌||◌}
use mathlib.Core.List.{List, [], ◌∷◌}
use native.Mathlib.Omega.{arith}

abbrev pub Text : Type 0
Text = List ℕ

abbrev pub text : String → Text
text String.[] = []
text (String.◌∷◌ c s) = code c ∷ text s

-- `a == b` on strings.
unfoldable pub text_eq : Text → Text → Bool
text_eq [] [] = true
text_eq [] (d ∷ t) = false
text_eq (c ∷ s) [] = false
text_eq (c ∷ s) (d ∷ t) = c == d && text_eq s t

pub text_eq_refl : (s : Text) → text_eq s s ≡ true
unfolding text_eq
text_eq_refl [] = refl
text_eq_refl (c ∷ s) = ground (arith, text_eq_refl s)

pub eq_of_text_eq : (s t : Text) → text_eq s t ≡ true → s ≡ t
unfolding text_eq
eq_of_text_eq [] [] h = refl
eq_of_text_eq [] (d ∷ t) h = cc
eq_of_text_eq (c ∷ s) [] h = cc
eq_of_text_eq (c ∷ s) (d ∷ t) h = ground (arith, eq_of_text_eq s t)

pub text_eq_iff : (s t : Text) → (text_eq s t ≡ true) ↔ (s ≡ t)
text_eq_iff s t = (eq_of_text_eq s t, λ e. rw e (text_eq_refl t))

-- The length in bytes of a rune in UTF-8, and of a string.
abbrev rune_len : ℕ → ℕ
rune_len c = if ltb c 0x80 then 1 else (if ltb c 0x800 then 2 else (if ltb c 0x10000 then 3 else 4))

unfoldable pub byte_len : Text → ℕ
byte_len [] = 0
byte_len (c ∷ s) = rune_len c + byte_len s

-- unicode.IsSpace: the white space of Latin-1, and the property White_Space beyond it.
unfoldable pub is_space : ℕ → Bool
is_space c =
    (leb 0x09 c && leb c 0x0d)
    || c == 0x20
    || c == 0x85
    || c == 0xa0
    || c == 0x1680
    || (leb 0x2000 c && leb c 0x200a)
    || c == 0x2028
    || c == 0x2029
    || c == 0x202f
    || c == 0x205f
    || c == 0x3000

-- unicode.IsControl: the category Cc.
unfoldable pub is_control : ℕ → Bool
is_control c = ltb c 0x20 || (leb 0x7f c && ltb c 0xa0)

-- strings.TrimLeftFunc and strings.TrimRightFunc.
unfoldable pub trim_left : (ℕ → Bool) → Text → Text
trim_left p [] = []
trim_left p (c ∷ s) = let rest = trim_left p s in if p c then rest else c ∷ s

abbrev is_empty : Text → Bool
is_empty [] = true
is_empty (_ ∷ _) = false

unfoldable pub trim_right : (ℕ → Bool) → Text → Text
trim_right p [] = []
trim_right p (c ∷ s) = let rest = trim_right p s in if is_empty rest && p c then [] else c ∷ rest

-- strings.TrimSpace
unfoldable pub trim_space : Text → Text
trim_space s = trim_right is_space (trim_left is_space s)

-- The first rune of a text is not one to trim.
abbrev StartsClean : (ℕ → Bool) → Text → Type 0
StartsClean p [] = Unit
StartsClean p (c ∷ s) = p c ≡ false

trim_left-StartsClean : (p : ℕ → Bool) (s : Text) → StartsClean p (trim_left p s)
unfolding trim_left
trim_left-StartsClean p [] = tt
trim_left-StartsClean p (c ∷ s) = elim (Bool-cases (p c)) [
  | inl space ↦ rw space (trim_left-StartsClean p s)
  | inr other ↦ rw other other
]

trim_left_clean : (p : ℕ → Bool) (s : Text) → StartsClean p s → trim_left p s ≡ s
unfolding trim_left
trim_left_clean p [] h = refl
trim_left_clean p (c ∷ s) h = rw h

trim_right-StartsClean :
    (p : ℕ → Bool) (s : Text) → StartsClean p s → StartsClean p (trim_right p s)
unfolding trim_right
trim_right-StartsClean p [] h = tt
trim_right-StartsClean p (c ∷ s) h = rw h (first_clean (trim_right p s))
  where
    first_clean : (r : Text) → StartsClean p (if is_empty r && false then [] else c ∷ r)
    first_clean [] = h
    first_clean (_ ∷ _) = h

pub trim_right_idem : (p : ℕ → Bool) (s : Text) → trim_right p (trim_right p s) ≡ trim_right p s
unfolding trim_right
trim_right_idem p [] = refl
trim_right_idem p (c ∷ s) = elim (Bool-cases (is_empty (trim_right p s) && p c)) [
  | inl gone ↦ rw gone
  | inr kept ↦ rw kept (rw (trim_right_idem p s) (rw kept))
]

-- Trimming white space a second time changes nothing.
pub trim_space_idem : (s : Text) → trim_space (trim_space s) ≡ trim_space s
unfolding trim_space
trim_space_idem s =
    let clean = trim_right-StartsClean is_space _ (trim_left-StartsClean is_space s) in
    rw (trim_left_clean is_space _ clean) (trim_right_idem is_space (trim_left is_space s))
