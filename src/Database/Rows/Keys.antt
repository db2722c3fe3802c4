-- ===== src/Database/Rows/Keys.antt =====
-- What the comparisons of columns decide, and that the constraints are symmetric.
use tokemon.Prelude.{
  ◌≡◌, refl, sym, ◌∙◌, ap, ◌↔◌, ◌⊎◌, subst, Bool, true, false, List, [], ◌∷◌, Option, none, some,
  arith, all, inl, inr, Bool-cases, &&-eq-true,
}
use tokemon.Prelude.Int.{ℤ, eq_of_parts}
use tokemon.Prelude.Texts.{Text, text_eq, text_eq_iff, text_eq_refl, eq_of_text_eq}
use tokemon.Database.Rows.{
  Row, codex, int_is, text_is, texts_eq, counts_is, dedup_texts, dedup_counts, same_usage,
  is_detailed, has_session, index_clash, has_id, collides, is_known,
}

int_is_iff : (a b : Option ℤ) → (int_is a b ≡ true) ↔ (a ≡ b)
unfolding int_is
int_is_iff none none = (λ _. refl, λ _. refl)
int_is_iff none (some w) = (λ h. cc, λ h. cc)
int_is_iff (some v) none = (λ h. cc, λ h. cc)
int_is_iff (some v) (some w) =
    (λ h. ap some (eq_of_parts v w (ground (arith, h))), λ h. ground (arith, h))

text_is_iff : (a b : Option Text) → (text_is a b ≡ true) ↔ (a ≡ b)
unfolding text_is
text_is_iff none none = (λ _. refl, λ _. refl)
text_is_iff none (some t) = (λ h. cc, λ h. cc)
text_is_iff (some s) none = (λ h. cc, λ h. cc)
text_is_iff (some s) (some t) =
    (λ h. ap some (eq_of_text_eq s t h), λ h. ground (arith, h, text_eq_refl s))

texts_eq_iff : (a b : List Text) → (texts_eq a b ≡ true) ↔ (a ≡ b)
unfolding texts_eq
texts_eq_iff [] [] = (λ _. refl, λ _. refl)
texts_eq_iff [] (t ∷ ts) = (λ h. cc, λ h. cc)
texts_eq_iff (s ∷ ss) [] = (λ h. cc, λ h. cc)
texts_eq_iff (s ∷ ss) (t ∷ ts) = (
  λ h. ground (arith, h, eq_of_text_eq s t, (texts_eq_iff ss ts).0),
  λ h. ground (arith, h, text_eq_refl s, (texts_eq_iff ss ts).1),
)

counts_is_iff : (a b : List (Option ℤ)) → (counts_is a b ≡ true) ↔ (a ≡ b)
unfolding counts_is
counts_is_iff [] [] = (λ _. refl, λ _. refl)
counts_is_iff [] (t ∷ ts) = (λ h. cc, λ h. cc)
counts_is_iff (s ∷ ss) [] = (λ h. cc, λ h. cc)
counts_is_iff (s ∷ ss) (t ∷ ts) = (
  λ h. ground (arith, h, (int_is_iff s t).0, (counts_is_iff ss ts).0),
  λ h. ground (arith, h, (int_is_iff s t).1, (counts_is_iff ss ts).1),
)

-- The columns of the index are the same.
abbrev SameUsage : Row → Row → Type 0
SameUsage a b =
    (dedup_texts a ≡ dedup_texts b)
    × ((a.session_id ≡ b.session_id) × (dedup_counts a ≡ dedup_counts b))

pub same_usage_iff : (a b : Row) → (same_usage a b ≡ true) ↔ SameUsage a b
unfolding same_usage
same_usage_iff a b = (
  λ h. ground (
    arith,
    h,
    (texts_eq_iff (dedup_texts a) (dedup_texts b)).0,
    (text_is_iff a.session_id b.session_id).0,
    (counts_is_iff (dedup_counts a) (dedup_counts b)).0,
  ),
  λ h. rw ((texts_eq_iff _ _).1 h.0) (rw ((text_is_iff _ _).1 h.1.0) ((counts_is_iff _ _).1 h.1.1)),
)

SameUsage-sym : (a b : Row) → SameUsage a b → SameUsage b a
SameUsage-sym a b (texts, (session, counts)) = (sym texts, (sym session, sym counts))

SameUsage-trans : (a b c : Row) → SameUsage a b → SameUsage b c → SameUsage a c
SameUsage-trans a b c (t, (s, n)) (t', (s', n')) = (t ∙ t', (s ∙ s', n ∙ n'))

-- Two rows that clash in the index, taken apart.
pub record Clash (a b : Row) : Type 0 where
  pub left_detailed : is_detailed a ≡ true
  pub right_detailed : is_detailed b ≡ true
  pub in_session : has_session a ≡ true
  pub same : SameUsage a b

pub index_clash_iff : (a b : Row) → (index_clash a b ≡ true) ↔ Clash a b
unfolding index_clash
index_clash_iff a b = (
  λ h. record {
    left_detailed = ground (arith, h);
    right_detailed = ground (arith, h);
    in_session = ground (arith, h);
    same = (same_usage_iff a b).0 (ground (arith, h));
  },
  λ c. rw (c.left_detailed, c.right_detailed, c.in_session, (same_usage_iff a b).1 c.same),
)

has_session_of :
    (a b : Row) → a.session_id ≡ b.session_id → has_session a ≡ true → has_session b ≡ true
has_session_of a b e h =
    subst (λ s. elim s as (λ _. Bool) [ none ↦ false | some _ ↦ true ] ≡ true) e h

detailed_of :
    (a b : Row)
    → dedup_counts a ≡ dedup_counts b
    → text_eq b.adapter codex ≡ true
    → is_detailed a ≡ true
    → is_detailed b ≡ true
unfolding is_detailed
detailed_of a b e adapter h = ground (arith, adapter, h, ap (all is_known) e)

-- What `findDetailedCodexDuplicate` looks for.
abbrev pub Duplicates : Row → Row → Type 0
Duplicates row d = (text_eq d.adapter codex ≡ true) × SameUsage d row

Clash-sym : (a b : Row) → Clash a b → Clash b a
Clash-sym a b c = record {
  left_detailed = c.right_detailed;
  right_detailed = c.left_detailed;
  in_session = has_session_of a b c.same.1.0 c.in_session;
  same = SameUsage-sym a b c.same;
}

-- A duplicate clashes with what the row clashes with.
pub Clash-through : (row d r : Row) → Clash row r → Duplicates row d → Clash d r
Clash-through row d r c (adapter, same) = record {
  left_detailed = detailed_of row d (sym same.1.1) adapter c.left_detailed;
  right_detailed = c.right_detailed;
  in_session = has_session_of row d (sym same.1.0) c.in_session;
  same = SameUsage-trans d row r same c.same;
}

-- What the row clashes with is a duplicate.
pub Clash-Duplicates : (row r : Row) → Clash row r → Duplicates row r
unfolding is_detailed
Clash-Duplicates row r c = ((&&-eq-true _ _ c.right_detailed).0, SameUsage-sym row r c.same)

pub has_id_iff : (id : Text) (r : Row) → (has_id id r ≡ true) ↔ (r.event_id ≡ id)
unfolding has_id
has_id_iff id r = text_eq_iff r.event_id id

pub collides_cases : (a b : Row) → collides a b ≡ true → (b.event_id ≡ a.event_id) ⊎ Clash a b
unfolding collides
collides_cases a b h = elim (Bool-cases (has_id a.event_id b)) [
  | inl same_id ↦ inl ((has_id_iff _ b).0 same_id)
  | inr other ↦ inr ((index_clash_iff a b).0 (ground (arith, h, other)))
]

pub collides_id : (a b : Row) → b.event_id ≡ a.event_id → collides a b ≡ true
unfolding collides
collides_id a b e = rw ((has_id_iff a.event_id b).1 e)

pub collides-Clash : (a b : Row) → Clash a b → collides a b ≡ true
unfolding collides
collides-Clash a b c = ground (arith, (index_clash_iff a b).1 c)

collides_flip : (a b : Row) → collides a b ≡ true → collides b a ≡ true
collides_flip a b h = elim (collides_cases a b h) [
  | inl e ↦ collides_id b a (sym e)
  | inr c ↦ collides-Clash b a (Clash-sym a b c)
]

pub collides_sym : (a b : Row) → collides a b ≡ false → collides b a ≡ false
collides_sym a b h = elim (Bool-cases (collides b a)) [
  | inl yes' ↦ absurd (ground (arith, h, collides_flip b a yes'))
  | inr no' ↦ no'
]
