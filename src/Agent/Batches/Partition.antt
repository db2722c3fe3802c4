-- ===== src/Agent/Batches/Partition.antt =====
-- The batches are the events again, cut into pieces that keep to the limits.
use tokemon.Prelude.{
  ℕ, ◌+◌, ◌≤◌, ◌<◌, ◌≡◌, refl, sym, ap, ◌∙◌, inl, inr, false, List, [], ◌∷◌, ◌++◌, append_assoc,
  append-nil, Option, none, some, arith, ltb, if◌then◌else◌, length, length-append, All, Bool-cases,
  Option-cases, ltb→lt,
}
use mathlib.Core.List.{flatten}
use tokemon.Usage.Event.{Event}
use tokemon.Agent.Batches.{
  ok, err, event_too_large, encoding_failed, Progress, separator, is_full, close_full, place,
  finish, split_loop, split_ingest_batches, max_ingest_batch_bytes, max_ingest_batch_events,
  envelope_bytes,
}

module _ {ℓ κ} {A : Type ℓ} where
  pub All-append : (P : A → Type κ) (xs ys : List A) → All P xs → All P ys → All P (xs ++ ys)
  All-append P [] ys h k = k
  All-append P (x ∷ xs) ys h k = (h.0, All-append P xs ys h.1 k)

flatten-append_one {ℓ} :
    {A : Type ℓ} (parts : List (List A)) (last : List A)
    → flatten (parts ++ (last ∷ [])) ≡ flatten parts ++ last
unfolding flatten
flatten-append_one [] last = append-nil last
flatten-append_one (part ∷ parts) last =
    rw (flatten-append_one parts last) (sym (append_assoc part (flatten parts) last))

pub separator_cons : (e : Event) (rest : List Event) → separator (e ∷ rest) ≡ 1
separator_cons e rest = ground arith

module _ (encoded_len : Event → Option ℕ) where
  -- The bytes of an event; an event that does not encode is never placed.
  abbrev pub event_len : Event → ℕ
  event_len e = elim (encoded_len e) [ none ↦ 0 | some n ↦ n ]

  -- The bytes of events joined by commas.
  abbrev pub joined_len : List Event → ℕ
  joined_len [] = 0
  joined_len (e ∷ []) = event_len e
  joined_len (e ∷ next ∷ rest) = event_len e + 1 + joined_len (next ∷ rest)

  -- A request that may be sent: not empty, at most 100 events, within the limit of bytes.
  pub record IsBatch (batch : List Event) : Type 0 where
    pub nonempty : 0 < length batch
    pub few : length batch ≤ max_ingest_batch_events
    pub small : envelope_bytes + joined_len batch ≤ max_ingest_batch_bytes

  event_len_known : (e : Event) (n : ℕ) → encoded_len e ≡ some n → event_len e ≡ n
  event_len_known e n encoded = rw (encoded, event_len)

  joined_len-append :
      (batch : List Event) (e : Event)
      → joined_len (batch ++ (e ∷ [])) ≡ joined_len batch + separator batch + event_len e
  joined_len-append [] e = omega arith
  joined_len-append (a ∷ []) e = refl
  joined_len-append (a ∷ b ∷ rest) e =
      omega
        (arith, joined_len-append (b ∷ rest) e, separator_cons a (b ∷ rest), separator_cons b rest)

  -- The progress after some events have been placed.
  pub record Inv (p : Progress) (placed : List Event) : Type 0 where
    pub cut : flatten p.batches ++ p.batch ≡ placed
    pub closed : All IsBatch p.batches
    pub sized : p.batch_bytes ≡ envelope_bytes + joined_len p.batch
    pub bounded : p.batch_bytes ≤ max_ingest_batch_bytes
    pub short : length p.batch ≤ max_ingest_batch_events

  -- A batch that is closed may be sent.
  closed-IsBatch :
      (p : Progress) (placed : List Event) → Inv p placed → 0 < length p.batch → IsBatch p.batch
  closed-IsBatch p placed i h = record {
    nonempty = h;
    few = i.short;
    small = omega (arith, i.sized, i.bounded);
  }

  pub close_full-Inv :
      (p : Progress) (n : ℕ) (placed : List Event) → Inv p placed → Inv (close_full p n) placed
  unfolding close_full
  close_full-Inv p n placed i = elim (Bool-cases (is_full p n)) [
    | inl full ↦ rw full (record {
      cut = append-nil _ ∙ flatten-append_one p.batches p.batch ∙ i.cut;
      closed =
          All-append IsBatch p.batches _ i.closed (closed-IsBatch p placed i (ground arith), tt);
      sized = refl;
      bounded = omega arith;
      short = omega arith;
    })
    | inr room ↦ rw room i
  ]

  pub close_full-room :
      (p : Progress) (n : ℕ) → length (close_full p n).batch < max_ingest_batch_events
  unfolding close_full
  close_full-room p n = ground arith

  pub place-Inv :
      (q : Progress) (e : Event) (n : ℕ) (placed : List Event)
      → encoded_len e ≡ some n
      → length q.batch < max_ingest_batch_events
      → q.batch_bytes + separator q.batch + n ≤ max_ingest_batch_bytes
      → Inv q placed
      → Inv (place q e n) (placed ++ (e ∷ []))
  place-Inv q e n placed encoded room small i = record {
    cut = sym (append_assoc (flatten q.batches) q.batch (e ∷ [])) ∙ ap (λ l. l ++ (e ∷ [])) i.cut;
    closed = i.closed;
    sized = omega (arith, i.sized, joined_len-append q.batch e, event_len_known e n encoded);
    bounded = small;
    short = omega (arith, length-append q.batch (e ∷ []));
  }

  -- What a run of the loop that ends well has made of the events.
  record Cut (events : List Event) (batches : List (List Event)) : Type 0 where
    whole : flatten batches ≡ events
    fit : All IsBatch batches

  finish-Cut : (p : Progress) (placed : List Event) → Inv p placed → Cut placed (finish p)
  unfolding finish
  finish-Cut p placed i = elim (Bool-cases (ltb 0 (length p.batch))) [
    | inl more ↦ rw more (record {
      whole = flatten-append_one p.batches p.batch ∙ i.cut;
      fit =
          All-append IsBatch p.batches _ i.closed (closed-IsBatch p placed i (ltb→lt _ _ more), tt);
    })
    | inr done ↦ rw done (record { whole = nothing_left p.batch done i.cut; fit = i.closed })
  ]
    where
      nothing_left :
          (batch : List Event)
          → ltb 0 (length batch) ≡ false
          → flatten p.batches ++ batch ≡ placed
          → flatten p.batches ≡ placed
      nothing_left [] none_open e = sym (append-nil _) ∙ e
      nothing_left (_ ∷ _) none_open e = absurd (ground arith)

  -- One round of the loop, for an event that encodes.
  pub split_loop_step :
      (p : Progress) (e : Event) (n : ℕ) (rest : List Event)
      → encoded_len e ≡ some n
      → let q = close_full p n in
        split_loop encoded_len p (e ∷ rest) ≡ (
          if ltb max_ingest_batch_bytes (q.batch_bytes + separator q.batch + n)
          then err event_too_large
          else split_loop encoded_len (place q e n) rest)
  unfolding split_loop
  split_loop_step p e n rest encoded = rw (encoded, split_loop)

  split_loop_failed :
      (p : Progress) (e : Event) (rest : List Event)
      → encoded_len e ≡ none
      → split_loop encoded_len p (e ∷ rest) ≡ err encoding_failed
  unfolding split_loop
  split_loop_failed p e rest failed = rw (failed, split_loop)

  split_loop-Cut :
      (events : List Event) (p : Progress) (placed : List Event) (batches : List (List Event))
      → Inv p placed
      → split_loop encoded_len p events ≡ ok batches
      → Cut (placed ++ events) batches
  split_loop-Cut [] p placed batches i h =
      let e : finish p ≡ batches = unfold split_loop in cc h in
      rw (append-nil placed, ← e) (finish-Cut p placed i)
  split_loop-Cut (e ∷ rest) p placed batches i h = elim (Option-cases (encoded_len e)) [
    | inl failed ↦ cc (h, split_loop_failed p e rest failed)
    | inr (n, encoded) ↦
        let q : Progress = close_full p n in
        elim (Bool-cases (ltb max_ingest_batch_bytes (q.batch_bytes + separator q.batch + n))) [
          | inl large ↦ absurd (ground (arith, h, split_loop_step p e n rest encoded, large))
          | inr small ↦
              let i' =
                place-Inv q e n placed encoded (close_full-room p n) (ground (arith, small))
                  (close_full-Inv p n placed i) in
              rw (← append_assoc placed (e ∷ []) rest) (
                split_loop-Cut rest (place q e n) (placed ++ (e ∷ [])) batches i'
                  (ground (arith, h, split_loop_step p e n rest encoded, small)))
        ]
  ]

  pub begin-Inv : Inv (record { batches = []; batch = []; batch_bytes = envelope_bytes }) []
  unfolding flatten
  begin-Inv = record {
    cut = refl;
    closed = tt;
    sized = refl;
    bounded = omega arith;
    short = omega arith;
  }

  -- When the cut succeeds, the batches laid end to end are the events, in order, and each batch may
  -- be sent: it is not empty, holds at most 100 events and keeps to the counted limit of bytes.
  pub split_ingest_batches-partition :
      (events : List Event) (batches : List (List Event))
      → split_ingest_batches encoded_len events ≡ ok batches
      → (flatten batches ≡ events) × All IsBatch batches
  unfolding split_ingest_batches
  split_ingest_batches-partition events batches h =
      let done = split_loop-Cut events _ [] batches begin-Inv h in (done.whole, done.fit)
