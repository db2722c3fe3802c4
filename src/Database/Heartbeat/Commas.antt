-- ===== src/Database/Heartbeat/Commas.antt =====
-- Texts without a comma in internal/database/database.go: they are joined with commas and split again,
-- and trimming leaves them without one.
use tokemon.Prelude.{
  ℕ, ◌≡◌, refl, sym, ap, ◌∙◌, Bool, true, false, not, ◌==◌, List, [], ◌∷◌, ◌++◌, arith, Bool-cases,
  inl, inr, any, All, any-append,
}
use tokemon.Prelude.Texts.{Text, text_eq, text_eq_iff, is_space, trim_left, trim_right, trim_space}
use tokemon.Usage.Names.{split_on}
use tokemon.Database.Heartbeat.{join_comma}

abbrev pub has_comma : Text → Bool
has_comma s = any (λ c. c == b',') s

-- A text that has a rune other than space.
abbrev has_ink : Text → Bool
has_ink s = any (λ c. not (is_space c)) s

-- An identifier as `normalizeAdapterIDs` keeps it, and without a comma.
abbrev pub IsTidy : Text → Type 0
IsTidy s = (trim_space s ≡ s) × ((text_eq s [] ≡ false) × (has_comma s ≡ false))

-- A property that no space has is seen in a text as in the trimmed text.
module _ (p : ℕ → Bool) (no_space : (c : ℕ) → is_space c ≡ true → p c ≡ false) where
  any-trim_left : (s : Text) → any p (trim_left is_space s) ≡ any p s
  unfolding trim_left
  any-trim_left [] = refl
  any-trim_left (c ∷ s) = elim (Bool-cases (is_space c)) [
    | inl space ↦ rw (space, trim_left) (rw (no_space c space) (any-trim_left s))
    | inr other ↦ rw (other, trim_left) refl
  ]

  any-trim_right : (s : Text) → any p (trim_right is_space s) ≡ any p s
  unfolding trim_right
  any-trim_right [] = refl
  any-trim_right (c ∷ s) = ground (arith, any-trim_right s, no_space c)

  pub any-trim_space : (s : Text) → any p (trim_space s) ≡ any p s
  unfolding trim_space
  any-trim_space s = any-trim_right (trim_left is_space s) ∙ any-trim_left s

blank : (s : Text) → text_eq s [] ≡ true → has_ink s ≡ false
unfolding text_eq
blank [] h = refl
blank (c ∷ s) h = cc

no_ink : (s : Text) → has_ink s ≡ false → trim_left is_space s ≡ []
unfolding trim_left
no_ink [] h = refl
no_ink (c ∷ s) h = ground (arith, h, no_ink s)

pub comma_no_space : (c : ℕ) → is_space c ≡ true → (c == b',') ≡ false
unfolding is_space
comma_no_space c h = ground (arith, h)

split-no_comma : (s : Text) → has_comma s ≡ false → split_on b',' s ≡ s ∷ []
unfolding split_on
split-no_comma [] h = refl
split-no_comma (c ∷ s) h = ground (arith, h, split-no_comma s)

split-append :
    (s rest : Text)
    → has_comma s ≡ false
    → split_on b',' (s ++ (b',' ∷ rest)) ≡ s ∷ split_on b',' rest
unfolding split_on
split-append [] rest h = refl
split-append (c ∷ s) rest h = ground (arith, h, split-append s rest)

-- A text is blank when it has no other rune than space.
pub not_blank : (s : Text) → has_ink s ≡ true → text_eq (trim_space s) [] ≡ false
not_blank s h = elim (Bool-cases (text_eq (trim_space s) [])) [
  | inr ink ↦ ink
  | inl empty ↦ absurd (
      ground (
        arith,
        h,
        blank (trim_space s) empty,
        any-trim_space (λ c. not (is_space c)) space_no_ink s,
      ))
]
  where
    space_no_ink : (c : ℕ) → is_space c ≡ true → not (is_space c) ≡ false
    space_no_ink c h = rw h refl

tidy_ink : (s : Text) → IsTidy s → has_ink s ≡ true
unfolding trim_space trim_right
tidy_ink s tidy = elim (Bool-cases (has_ink s)) [
  | inl ink ↦ ink
  | inr spaces ↦
      let gone : trim_space s ≡ [] = ap (trim_right is_space) (no_ink s spaces) in
      absurd (ground (arith, tidy.1.0, (text_eq_iff s []).1 (sym tidy.0 ∙ gone)))
]

pub join-ink : (s : Text) (ss : List Text) → IsTidy s → has_ink (join_comma (s ∷ ss)) ≡ true
unfolding join_comma
join-ink s [] tidy = tidy_ink s tidy
join-ink s (t ∷ ss) tidy =
    any-append (λ c. not (is_space c)) s (b',' ∷ join_comma (t ∷ ss)) ∙ rw (tidy_ink s tidy) refl

pub split-join_comma :
    (s : Text) (ss : List Text) → All IsTidy (s ∷ ss) → split_on b',' (join_comma (s ∷ ss)) ≡ s ∷ ss
unfolding join_comma
split-join_comma s [] tidy = split-no_comma s tidy.0.1.1
split-join_comma s (t ∷ ss) tidy =
    split-append s (join_comma (t ∷ ss)) tidy.0.1.1 ∙ ap (λ r. s ∷ r) (split-join_comma t ss tidy.1)
