-- ===== src/Agent/Batches/Body.antt =====
-- The cut succeeds where every event fits a request of its own.
use tokemon.Prelude.{
  ℕ, ◌+◌, ◌≤◌, ◌≡◌, refl, inl, inr, false, List, [], ◌∷◌, ◌++◌, Option, some, arith, ltb, length,
  All, Bool-cases,
}
use tokemon.Usage.Event.{Event}
use tokemon.Agent.Batches.{
  ok, Progress, separator, close_full, is_full, place, finish, split_loop, split_ingest_batches,
  max_ingest_batch_bytes, envelope_bytes,
}
use tokemon.Agent.Batches.Partition.{
  Inv, joined_len, begin-Inv, close_full-Inv, close_full-room, place-Inv, split_loop_step,
}

module _ (encoded_len : Event → Option ℕ) where
  -- An event that encodes and that a request of its own can hold, as the code counts.
  abbrev pub Fits : Event → Type 0
  Fits e = (n : ℕ) × (encoded_len e ≡ some n) × (envelope_bytes + n ≤ max_ingest_batch_bytes)

  joined_len_empty :
      (batch : List Event) → ltb 0 (length batch) ≡ false → joined_len encoded_len batch ≡ 0
  joined_len_empty [] h = refl
  joined_len_empty (_ ∷ _) h = absurd (ground (arith, h))

  close_full-small :
      (p : Progress) (n : ℕ) (placed : List Event)
      → Inv encoded_len p placed
      → envelope_bytes + n ≤ max_ingest_batch_bytes
      → let q = close_full p n in q.batch_bytes + separator q.batch + n ≤ max_ingest_batch_bytes
  unfolding close_full
  close_full-small p n placed i h = elim (Bool-cases (is_full p n)) [
    | inl full ↦ rw full (omega arith)
    | inr room ↦ elim (Bool-cases (ltb 0 (length p.batch))) [
      | inl more ↦ rw room (ground (arith, room, more))
      | inr done ↦ rw room (ground (arith, i.sized, joined_len_empty p.batch done, done))
    ]
  ]

  split_loop-succeeds :
      (events : List Event) (p : Progress) (placed : List Event)
      → Inv encoded_len p placed
      → All Fits events
      → (batches : List (List Event)) × (split_loop encoded_len p events ≡ ok batches)
  split_loop-succeeds [] p placed i h = (finish p, unfold split_loop in refl)
  split_loop-succeeds (e ∷ rest) p placed i ((n, encoded, fits), h) =
      let q : Progress = close_full p n in
      let small = close_full-small p n placed i fits in
      let i' =
        place-Inv encoded_len q e n placed encoded (close_full-room encoded_len p n) small
          (close_full-Inv encoded_len p n placed i) in
      let (batches, done) = split_loop-succeeds rest (place q e n) (placed ++ (e ∷ [])) i' h in
      (batches, ground (arith, split_loop_step encoded_len p e n rest encoded, done, small))

  -- The cut succeeds on all events that each fit a request of their own.
  pub split_ingest_batches-succeeds :
      (events : List Event)
      → All Fits events
      → (batches : List (List Event)) × (split_ingest_batches encoded_len events ≡ ok batches)
  unfolding split_ingest_batches
  split_ingest_batches-succeeds events h = split_loop-succeeds events _ [] (begin-Inv encoded_len) h
