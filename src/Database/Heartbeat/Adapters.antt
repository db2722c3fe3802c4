-- ===== src/Database/Heartbeat/Adapters.antt =====
-- internal/database/database.go: the adapters of a heartbeat are stored as one text and read back.
use tokemon.Prelude.{
  ◌≡◌, refl, sym, ap, subst, ||-eq-false, ◌∙◌, false, ◌||◌, ◌==◌, List, [], ◌∷◌, ◌++◌, arith,
  Bool-cases, inl, inr, any, All, any-append, append-nil, append_assoc,
}
use tokemon.Prelude.Texts.{
  Text, text_eq, text_eq_iff, trim_left, trim_right, trim_space, trim_space_idem,
}
use tokemon.Database.Heartbeat.{
  add_adapter_id, collect_adapter_ids, sort_strings, normalize_adapter_ids, join_comma,
  split_adapter_ids,
}
use tokemon.Database.Heartbeat.Commas.{
  has_comma, IsTidy, any-trim_space, comma_no_space, not_blank, join-ink, split-join_comma,
}
use tokemon.Database.Heartbeat.Sorted.{
  IsSorted, IsDistinct, All-sort_strings, sort_strings-IsSorted, sort_strings_sorted,
  IsSorted-IsDistinct,
}

IsDistinct-append :
    (ss : List Text) (t : Text)
    → IsDistinct ss
    → any (text_eq t) ss ≡ false
    → IsDistinct (ss ++ (t ∷ []))
IsDistinct-append [] t distinct new = (refl, tt)
IsDistinct-append (s ∷ ss) t distinct new = (
  any-append (text_eq s) ss (t ∷ [])
      ∙ ground (arith, distinct.0, new, text_eq_iff s t, text_eq_iff t s),
  IsDistinct-append ss t distinct.1 (ground (arith, new)),
)

All-snoc : (ss : List Text) (t : Text) → All IsTidy ss → IsTidy t → All IsTidy (ss ++ (t ∷ []))
All-snoc [] t a p = (p, tt)
All-snoc (s ∷ ss) t a p = (a.0, All-snoc ss t a.1 p)

-- What `normalizeAdapterIDs` has collected so far.
abbrev IsCollected : List Text → Type 0
IsCollected ids = All IsTidy ids × IsDistinct ids

trimmed-IsTidy :
    (raw : Text)
    → has_comma raw ≡ false
    → text_eq (trim_space raw) [] ≡ false
    → IsTidy (trim_space raw)
trimmed-IsTidy raw free ink =
    (trim_space_idem raw, (ink, any-trim_space (λ c. c == b',') comma_no_space raw ∙ free))

add_adapter_id-IsCollected :
    (ids : List Text) (raw : Text)
    → has_comma raw ≡ false
    → IsCollected ids
    → IsCollected (add_adapter_id ids raw)
unfolding add_adapter_id
add_adapter_id-IsCollected ids raw free known =
    elim (Bool-cases (text_eq (trim_space raw) [] || any (text_eq (trim_space raw)) ids)) [
      | inl skipped ↦ rw (skipped, add_adapter_id) known
      | inr added ↦
          let (ink, new) = ||-eq-false _ _ added in
          rw (added, add_adapter_id)
            (
              All-snoc ids (trim_space raw) known.0 (trimmed-IsTidy raw free ink),
              IsDistinct-append ids (trim_space raw) known.1 new,
            )
    ]

collect-IsCollected :
    (ids values : List Text)
    → All (λ raw. has_comma raw ≡ false) values
    → IsCollected ids
    → IsCollected (collect_adapter_ids ids values)
unfolding collect_adapter_ids
collect-IsCollected ids [] free known = known
collect-IsCollected ids (raw ∷ values) free known =
    collect-IsCollected (add_adapter_id ids raw) values free.1
      (add_adapter_id-IsCollected ids raw free.0 known)

add_adapter_id_new :
    (ids : List Text) (s : Text)
    → IsTidy s
    → any (text_eq s) ids ≡ false
    → add_adapter_id ids s ≡ ids ++ (s ∷ [])
unfolding add_adapter_id
add_adapter_id_new ids s tidy new = rw tidy.0 (rw tidy.1.0 (rw new refl))

middle_new :
    (ids : List Text) (s : Text) (values : List Text)
    → IsDistinct (ids ++ (s ∷ values))
    → any (text_eq s) ids ≡ false
middle_new [] s values distinct = refl
middle_new (t ∷ ids) s values distinct = ground (
  arith,
  middle_new ids s values distinct.1,
  any-append (text_eq t) ids (s ∷ values),
  distinct.0,
  text_eq_iff s t,
  text_eq_iff t s,
)

-- Identifiers that are tidy and distinct are collected as they are.
collect_same :
    (ids values : List Text)
    → All IsTidy values
    → IsDistinct (ids ++ values)
    → collect_adapter_ids ids values ≡ ids ++ values
unfolding collect_adapter_ids
collect_same ids [] tidy distinct = sym (append-nil ids)
collect_same ids (s ∷ values) tidy distinct =
    let added = add_adapter_id_new ids s tidy.0 (middle_new ids s values distinct) in
    let moved = append_assoc ids (s ∷ []) values in
    rw added
      (collect_same (ids ++ (s ∷ [])) values tidy.1 (subst IsDistinct (sym moved) distinct) ∙ moved)

normalize_same : (ss : List Text) → All IsTidy ss → IsSorted ss → normalize_adapter_ids ss ≡ ss
unfolding normalize_adapter_ids
normalize_same ss tidy sorted =
    ap sort_strings (collect_same [] ss tidy (IsSorted-IsDistinct ss sorted))
    ∙ sort_strings_sorted ss sorted

read_back : (ss : List Text) → All IsTidy ss → IsSorted ss → split_adapter_ids (join_comma ss) ≡ ss
unfolding split_adapter_ids join_comma trim_space trim_left trim_right text_eq
read_back [] tidy sorted = refl
read_back (s ∷ ss) tidy sorted =
    rw (not_blank (join_comma (s ∷ ss)) (join-ink s ss tidy.0), split_adapter_ids)
      (ap normalize_adapter_ids (split-join_comma s ss tidy) ∙ normalize_same (s ∷ ss) tidy sorted)

-- The adapters that `RecordHeartbeat` writes into a machine's row, as one text with commas, are read
-- back by `splitAdapterIDs` as the list that `normalizeAdapterIDs` made of them, when no identifier
-- has a comma.
pub split_adapter_ids-join_comma :
    (values : List Text)
    → All (λ raw. has_comma raw ≡ false) values
    → split_adapter_ids (join_comma (normalize_adapter_ids values)) ≡ normalize_adapter_ids values
unfolding normalize_adapter_ids
split_adapter_ids-join_comma values free =
    let (tidy, distinct) = collect-IsCollected [] values free (tt, tt) in
    read_back (sort_strings (collect_adapter_ids [] values))
      (All-sort_strings IsTidy (collect_adapter_ids [] values) tidy)
      (sort_strings-IsSorted (collect_adapter_ids [] values) distinct)
