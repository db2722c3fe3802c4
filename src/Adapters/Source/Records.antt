-- ===== src/Adapters/Source/Records.antt =====
-- How a file that grows is cut into records.
use tokemon.Prelude.{
  ℕ, true, ◌≡◌, refl, ap, ◌∙◌, List, [], ◌∷◌, ◌++◌, ◌==◌, Bool-cases, inl, inr, arith, length, drop,
  length-append, ◌≤◌,
}
use tokemon.Adapters.Source.{Bytes, newline, add_byte, cut_records}

abbrev pub flat : List Bytes → Bytes
flat [] = []
flat (r ∷ rs) = r ++ flat rs

flat-add_byte :
    (c : ℕ) (records : List Bytes) (rest : Bytes)
    → flat (add_byte c records rest).0 ++ (add_byte c records rest).1 ≡ c ∷ (flat records ++ rest)
flat-add_byte c [] rest = ground arith
flat-add_byte c (r ∷ records) rest = ground arith

-- No byte is lost.
pub flat-cut_records : (bytes : Bytes) → flat (cut_records bytes).0 ++ (cut_records bytes).1 ≡ bytes
unfolding cut_records
flat-cut_records [] = refl
flat-cut_records (c ∷ bytes) =
    flat-add_byte c (cut_records bytes).0 (cut_records bytes).1
    ∙ ap (λ (b : Bytes). c ∷ b) (flat-cut_records bytes)

add_newline :
    (c : ℕ) (records : List Bytes) (rest : Bytes)
    → (c == newline) ≡ true
    → add_byte c records rest ≡ ((c ∷ []) ∷ records, rest)
add_newline c [] rest h = rw h
add_newline c (r ∷ records) rest h = rw h

add_byte-append :
    (c : ℕ) (records : List Bytes) (rest more : Bytes)
    → let later = cut_records (rest ++ more) in
      let (records', rest') = add_byte c records rest in
      add_byte c (records ++ later.0) later.1
      ≡ (records' ++ (cut_records (rest' ++ more)).0, (cut_records (rest' ++ more)).1)
unfolding cut_records
add_byte-append c [] rest more = elim (Bool-cases (c == newline)) [
  | inl ends ↦
      add_newline c (cut_records (rest ++ more)).0 (cut_records (rest ++ more)).1 ends ∙ rw ends
  | inr goes_on ↦ rw goes_on
]
add_byte-append c (r ∷ records) rest more = ground arith

-- What was cut stays cut when bytes are appended; the rest is cut together with them.
pub cut_records-append :
    (bytes more : Bytes)
    → let (records, rest) = cut_records bytes in
      cut_records (bytes ++ more)
      ≡ (records ++ (cut_records (rest ++ more)).0, (cut_records (rest ++ more)).1)
unfolding cut_records
cut_records-append [] more = refl
cut_records-append (c ∷ bytes) more =
    ap (λ (p : List Bytes × Bytes). add_byte c p.0 p.1) (cut_records-append bytes more)
    ∙ add_byte-append c (cut_records bytes).0 (cut_records bytes).1 more

pub drop-append : (xs ys : Bytes) → drop (length xs) (xs ++ ys) ≡ ys
drop-append [] ys = refl
drop-append (x ∷ xs) ys = drop-append xs ys

abbrev pub NonEmpty : List Bytes → Type 0
NonEmpty [] = Unit
NonEmpty (r ∷ rs) = (1 ≤ length r) × NonEmpty rs

add_byte-NonEmpty :
    (c : ℕ) (records : List Bytes) (rest : Bytes)
    → NonEmpty records
    → NonEmpty (add_byte c records rest).0
add_byte-NonEmpty c [] rest h = elim (Bool-cases (c == newline)) [
  | inl e ↦ rw e (omega arith, tt)
  | inr e ↦ rw e tt
]
add_byte-NonEmpty c (r ∷ records) rest h = elim (Bool-cases (c == newline)) [
  | inl e ↦ rw e (omega arith, h)
  | inr e ↦ rw e (omega arith, h.1)
]

-- Every record has its newline, at least.
pub cut_records-NonEmpty : (bytes : Bytes) → NonEmpty (cut_records bytes).0
unfolding cut_records
cut_records-NonEmpty [] = tt
cut_records-NonEmpty (c ∷ bytes) =
    add_byte-NonEmpty c (cut_records bytes).0 (cut_records bytes).1 (cut_records-NonEmpty bytes)

pub length-le-flat : (rs : List Bytes) → NonEmpty rs → length rs ≤ length (flat rs)
length-le-flat [] h = omega arith
length-le-flat (r ∷ rs) h = omega (arith, length-append r (flat rs), length-le-flat rs h.1, h.0)
