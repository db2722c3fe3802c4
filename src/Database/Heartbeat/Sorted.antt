-- ===== src/Database/Heartbeat/Sorted.antt =====
-- sort.Strings in internal/database/database.go: lists of texts in strictly increasing order.
use tokemon.Prelude.{
  ◌≡◌, refl, ap, ◌∙◌, Bool, true, false, ◌||◌, List, [], ◌∷◌, arith, Bool-cases, inl, inr, any, All,
}
use tokemon.Prelude.Texts.{Text, text_eq, text_eq_iff}
use tokemon.Database.Machines.{text_gt}
use tokemon.Database.Heartbeat.{insert_string, sort_strings}

text_gt_asym : (s t : Text) → text_gt s t ≡ true → text_gt t s ≡ false
unfolding text_gt
text_gt_asym [] t h = cc
text_gt_asym (c ∷ s) [] h = refl
text_gt_asym (c ∷ s) (d ∷ t) h = ground (arith, h, text_gt_asym s t)

text_gt_total : (s t : Text) → text_gt s t ≡ false → text_eq s t ≡ false → text_gt t s ≡ true
unfolding text_gt text_eq
text_gt_total [] [] h k = cc
text_gt_total [] (d ∷ t) h k = refl
text_gt_total (c ∷ s) [] h k = cc
text_gt_total (c ∷ s) (d ∷ t) h k = ground (arith, h, k, text_gt_total s t)

text_gt_trans : (s t u : Text) → text_gt s t ≡ true → text_gt t u ≡ true → text_gt s u ≡ true
unfolding text_gt
text_gt_trans [] t u h k = cc
text_gt_trans (c ∷ s) [] u h k = cc
text_gt_trans (c ∷ s) (d ∷ t) [] h k = refl
text_gt_trans (c ∷ s) (d ∷ t) (e ∷ u) h k = ground (arith, h, k, text_gt_trans s t u)

-- Every text is greater than the one before it.
abbrev pub IsSorted : List Text → Type 0
IsSorted [] = Unit
IsSorted (s ∷ ss) = All (λ t. text_gt t s ≡ true) ss × IsSorted ss

abbrev pub IsDistinct : List Text → Type 0
IsDistinct [] = Unit
IsDistinct (s ∷ ss) = (any (text_eq s) ss ≡ false) × IsDistinct ss

pub All-map {ℓ} :
    {A : Type ℓ} {P Q : A → Type 0} (f : (x : A) → P x → Q x) (xs : List A) → All P xs → All Q xs
All-map f [] a = tt
All-map f (x ∷ xs) a = (f x a.0, All-map f xs a.1)

pub All-insert_string :
    (P : Text → Type 0) (s : Text) (ts : List Text) → P s → All P ts → All P (insert_string s ts)
unfolding insert_string
All-insert_string P s [] p a = (p, tt)
All-insert_string P s (t ∷ ts) p a = elim (Bool-cases (text_gt s t)) [
  | inl after ↦ rw after (a.0, All-insert_string P s ts p a.1)
  | inr before ↦ rw before (p, a)
]

pub All-sort_strings : (P : Text → Type 0) (ss : List Text) → All P ss → All P (sort_strings ss)
unfolding sort_strings
All-sort_strings P [] a = tt
All-sort_strings P (s ∷ ss) a =
    All-insert_string P s (sort_strings ss) a.0 (All-sort_strings P ss a.1)

any-insert_string :
    (p : Text → Bool) (s : Text) (ts : List Text) → any p (insert_string s ts) ≡ (p s || any p ts)
unfolding insert_string
any-insert_string p s [] = refl
any-insert_string p s (t ∷ ts) = ground (arith, any-insert_string p s ts)

any-sort_strings : (p : Text → Bool) (ss : List Text) → any p (sort_strings ss) ≡ any p ss
unfolding sort_strings
any-sort_strings p [] = refl
any-sort_strings p (s ∷ ss) =
    any-insert_string p s (sort_strings ss) ∙ ap (λ b. p s || b) (any-sort_strings p ss)

insert_string-IsSorted :
    (s : Text) (ts : List Text)
    → IsSorted ts
    → any (text_eq s) ts ≡ false
    → IsSorted (insert_string s ts)
unfolding insert_string
insert_string-IsSorted s [] sorted new = (tt, tt)
insert_string-IsSorted s (t ∷ ts) sorted new = elim (Bool-cases (text_gt s t)) [
  | inl after ↦ rw after (
    All-insert_string _ s ts after sorted.0,
    insert_string-IsSorted s ts sorted.1 (ground (arith, new)),
  )
  | inr before ↦
      let below = text_gt_total s t before (ground (arith, new)) in
      rw before ((below, All-map (λ u h. text_gt_trans u t s h below) ts sorted.0), sorted)
]

pub sort_strings-IsSorted : (ss : List Text) → IsDistinct ss → IsSorted (sort_strings ss)
unfolding sort_strings
sort_strings-IsSorted [] distinct = tt
sort_strings-IsSorted (s ∷ ss) distinct =
    insert_string-IsSorted s (sort_strings ss) (sort_strings-IsSorted ss distinct.1)
      (any-sort_strings (text_eq s) ss ∙ distinct.0)

insert_sorted_first :
    (s : Text) (ts : List Text) → All (λ t. text_gt t s ≡ true) ts → insert_string s ts ≡ s ∷ ts
unfolding insert_string
insert_sorted_first s [] a = refl
insert_sorted_first s (t ∷ ts) a = rw (text_gt_asym t s a.0) refl

-- Sorting changes nothing in a sorted list.
pub sort_strings_sorted : (ss : List Text) → IsSorted ss → sort_strings ss ≡ ss
unfolding sort_strings
sort_strings_sorted [] sorted = refl
sort_strings_sorted (s ∷ ss) sorted =
    ap (insert_string s) (sort_strings_sorted ss sorted.1) ∙ insert_sorted_first s ss sorted.0

greater_differs :
    (s : Text) (ts : List Text) → All (λ t. text_gt t s ≡ true) ts → any (text_eq s) ts ≡ false
greater_differs s [] a = refl
greater_differs s (t ∷ ts) a =
    ground (arith, greater_differs s ts a.1, a.0, text_gt_asym t s a.0, text_eq_iff s t)

pub IsSorted-IsDistinct : (ss : List Text) → IsSorted ss → IsDistinct ss
IsSorted-IsDistinct [] sorted = tt
IsSorted-IsDistinct (s ∷ ss) sorted =
    (greater_differs s ss sorted.0, IsSorted-IsDistinct ss sorted.1)
