-- ===== src/Usage/Names/Projects.antt =====
-- A normalized project is a label: no path separator is left in it.
use tokemon.Prelude.{
  ℕ, ◌≤◌, ◌≡◌, ◌≢◌, refl, ◌⊎◌, inl, inr, Bool, true, false, ◌||◌, List, [], ◌∷◌, arith, ◌==◌,
  if◌then◌else◌, All, Bool-cases,
}
use tokemon.Prelude.Texts.{Text, text, text_eq, is_space, trim_space, trim_left, trim_right}
use tokemon.Prelude.Find.{CaseTables, contains_any, replace_rune, to_lower, lower_rune}
use tokemon.Usage.Names.{
  slash, backslash, path_runes, split_on, last_part, into_first, normalize_project, label_of,
}

-- What Unicode says of the lower case of a letter beyond ASCII: it is a letter, so it is either
-- beyond ASCII or one of a to z.
abbrev pub LowersToLetters : CaseTables → Type 0
LowersToLetters tables =
    (c : ℕ)
    → (0x80 ≤ tables.lower_beyond_ascii c)
      ⊎ ((b'a' ≤ tables.lower_beyond_ascii c) × (tables.lower_beyond_ascii c ≤ b'z'))

-- A rune does not occur.
abbrev Lacks : ℕ → Text → Type 0
Lacks r s = All (λ c. c ≢ r) s

trim_left-Lacks : (r : ℕ) (p : ℕ → Bool) (s : Text) → Lacks r s → Lacks r (trim_left p s)
unfolding trim_left
trim_left-Lacks r p [] h = tt
trim_left-Lacks r p (c ∷ s) h = elim (Bool-cases (p c)) [
  | inl gone ↦ rw gone (trim_left-Lacks r p s h.1)
  | inr kept ↦ rw kept h
]

if-Lacks : (r : ℕ) (b : Bool) (s t : Text) → Lacks r s → Lacks r t → Lacks r (if b then s else t)
if-Lacks r true s t h k = h
if-Lacks r false s t h k = k

trim_right-Lacks : (r : ℕ) (p : ℕ → Bool) (s : Text) → Lacks r s → Lacks r (trim_right p s)
unfolding trim_right
trim_right-Lacks r p [] h = tt
trim_right-Lacks r p (c ∷ s) h =
    if-Lacks r _ [] (c ∷ trim_right p s) tt (h.0, trim_right-Lacks r p s h.1)

trim_space-Lacks : (r : ℕ) (s : Text) → Lacks r s → Lacks r (trim_space s)
unfolding trim_space
trim_space-Lacks r s h = trim_right-Lacks r is_space _ (trim_left-Lacks r is_space s h)

replace_rune-Lacks : (s : Text) → Lacks backslash (replace_rune backslash slash s)
unfolding replace_rune
replace_rune-Lacks [] = tt
replace_rune-Lacks (c ∷ s) = (ground arith, replace_rune-Lacks s)

into_first-All :
    (r c : ℕ) (parts : List Text) → c ≢ r → All (Lacks r) parts → All (Lacks r) (into_first c parts)
into_first-All r c [] ne h = ((ne, tt), tt)
into_first-All r c (part ∷ parts) ne h = ((ne, h.0), h.1)

-- A part holds no rune that the whole lacks, and none of the separator.
split_on-Lacks : (r sep : ℕ) (s : Text) → Lacks r s → All (Lacks r) (split_on sep s)
unfolding split_on
split_on-Lacks r sep [] h = (tt, tt)
split_on-Lacks r sep (c ∷ s) h = elim (Bool-cases (c == sep)) [
  | inl cut ↦ rw cut (tt, split_on-Lacks r sep s h.1)
  | inr kept ↦ rw kept (into_first-All r c _ h.0 (split_on-Lacks r sep s h.1))
]

split_on-separator : (sep : ℕ) (s : Text) → All (Lacks sep) (split_on sep s)
unfolding split_on
split_on-separator sep [] = (tt, tt)
split_on-separator sep (c ∷ s) = elim (Bool-cases (c == sep)) [
  | inl cut ↦ rw cut (tt, split_on-separator sep s)
  | inr kept ↦ rw kept (into_first-All sep c _ (ground arith) (split_on-separator sep s))
]

last_part-Lacks : (r : ℕ) (parts : List Text) → All (Lacks r) parts → Lacks r (last_part parts)
unfolding last_part
last_part-Lacks r [] h = tt
last_part-Lacks r (part ∷ []) h = h.0
last_part-Lacks r (part ∷ next ∷ parts) h = last_part-Lacks r (next ∷ parts) h.1

-- Lower-casing brings in no path separator.
lower_rune-ne :
    (tables : CaseTables) (r c : ℕ)
    → LowersToLetters tables
    → (r ≡ slash) ⊎ (r ≡ backslash)
    → c ≢ r
    → lower_rune tables c ≢ r
unfolding lower_rune
lower_rune-ne tables r c letters sep ne = ground (arith, letters c)

to_lower-Lacks :
    (tables : CaseTables) (r : ℕ) (s : Text)
    → LowersToLetters tables
    → (r ≡ slash) ⊎ (r ≡ backslash)
    → Lacks r s
    → Lacks r (to_lower tables s)
unfolding to_lower
to_lower-Lacks tables r [] letters sep h = tt
to_lower-Lacks tables r (c ∷ s) letters sep h =
    (lower_rune-ne tables r c letters sep h.0, to_lower-Lacks tables r s letters sep h.1)

contains_any-path_runes :
    (s : Text) → Lacks slash s → Lacks backslash s → contains_any s path_runes ≡ false
unfolding contains_any
contains_any-path_runes [] h k = refl
contains_any-path_runes (c ∷ s) h k = ground (arith, contains_any-path_runes s h.1 k.1)

module _ (tables : CaseTables) (letters : LowersToLetters tables) where
  -- The slashes are gone by the split, the backslashes since they were made slashes before it.
  parts-Lacks :
      (r : ℕ) (value : Text)
      → (r ≡ slash) ⊎ (r ≡ backslash)
      → All (Lacks r) (
          split_on slash
            (trim_right (λ c. c == slash) (trim_space (replace_rune backslash slash value))))
  parts-Lacks r value (inl e) = rw e (split_on-separator slash _)
  parts-Lacks r value (inr e) = rw e (
      split_on-Lacks backslash slash _ (
        trim_right-Lacks backslash (λ c. c == slash) _
          (trim_space-Lacks backslash _ (replace_rune-Lacks value))))

  label_of-Lacks :
      (r : ℕ) (name : Text)
      → (r ≡ slash) ⊎ (r ≡ backslash)
      → Lacks r name
      → Lacks r (label_of tables name)
  unfolding label_of
  label_of-Lacks r name sep h =
      elim (Bool-cases (text_eq name [] || text_eq name (text ".") || text_eq name (text ".."))) [
        | inl dots ↦ rw dots tt
        | inr named ↦ rw named (to_lower-Lacks tables r name letters sep h)
      ]

  normalize_project-Lacks :
      (r : ℕ) (value : Text)
      → (r ≡ slash) ⊎ (r ≡ backslash)
      → Lacks r (normalize_project tables value)
  unfolding normalize_project
  normalize_project-Lacks r value sep =
      let trimmed =
        trim_right (λ c. c == slash) (trim_space (replace_rune backslash slash value)) in
      let name = last_part (split_on slash trimmed) in
      let clean = trim_space-Lacks r name (last_part-Lacks r _ (parts-Lacks r value sep)) in
      elim (Bool-cases (text_eq trimmed [])) [
        | inl nothing ↦ rw nothing tt
        | inr something ↦ rw something (label_of-Lacks r (trim_space name) sep clean)
      ]

  -- Whatever the working directory or label was, the normalized project passes the test that it is
  -- no path, if lower-casing maps letters beyond ASCII to letters.
  pub normalize_project-label :
      (value : Text) → contains_any (normalize_project tables value) path_runes ≡ false
  normalize_project-label value =
      contains_any-path_runes _ (normalize_project-Lacks slash value (inl refl))
        (normalize_project-Lacks backslash value (inr refl))
