-- ===== src/Adapters/Cache/Again.antt =====
-- What the cache answers when an unchanged file is asked for again.
use tokemon.Prelude.{
  ◌≡◌, refl, ◌∙◌, [], none, some, if◌then◌else◌, arith, Bool-cases, inl, inr, true, Option,
}
use tokemon.Prelude.Texts.{Text, text_eq_refl}
use tokemon.Prelude.Maps.{lookup, lookup-insert_self}
use tokemon.Adapters.Source.{Cursor, cursor_eq}
use tokemon.Adapters.Signature.{FileSignature, signature_eq}
use tokemon.Adapters.Cache.{
  canceled, broken, ParseOutcome, parsed, failed, CacheEntry, Cache, entry_answer, cache_lookup,
  cache_store, cached_parse,
}

pub cursor_eq_refl : (c : Cursor) → cursor_eq c c ≡ true
unfolding cursor_eq
cursor_eq_refl c = ground (arith, text_eq_refl c.identity, text_eq_refl c.state)

signature_eq_refl : (s : FileSignature) → signature_eq s s ≡ true
unfolding signature_eq
signature_eq_refl s = ground arith

module _ (cache : Cache) (path : Text) (signature : FileSignature) (identity : Text)
    (request : Cursor) where
  -- A lookup with the signature and the identity of the entry is up to the entry.
  lookup-stored :
      (entry : CacheEntry) (after : Cache)
      → lookup path after ≡ some entry
      → entry.signature ≡ signature
      → entry.identity ≡ identity
      → cache_lookup after path signature identity request ≡ entry_answer entry request
  unfolding cache_lookup
  lookup-stored entry after found s i =
      rw (found, cache_lookup)
        (rw s (rw i (rw (signature_eq_refl signature) (rw (text_eq_refl identity)))))

  answered :
      (after : Cache) (fresh : ParseOutcome) (answer : Option ParseOutcome)
      → cache_lookup after path signature identity request ≡ answer
      → (cached_parse after path signature identity request fresh).0
        ≡ elim answer [ some outcome ↦ outcome | none ↦ fresh ]
  unfolding cached_parse
  answered after fresh none found = rw (found, cached_parse)
  answered after fresh (some outcome) found = rw (found, cached_parse)

  missed_parse :
      (fresh : ParseOutcome)
      → cache_lookup cache path signature identity request ≡ none
      → cached_parse cache path signature identity request fresh
        ≡ (fresh, cache_store cache path signature identity request fresh)
  unfolding cached_parse
  missed_parse fresh missed = rw (missed, cached_parse)

  -- A parse that the cache does not answer, repeated with the file and the cursor unchanged, as after an
  -- upload that failed: an error comes again, but a result only if its cursor is not the one that was
  -- asked for; else the repeated parse has no events.
  pub cached_parse_again :
      (fresh : ParseOutcome)
      → cache_lookup cache path signature identity request ≡ none
      → let (first, after) = cached_parse cache path signature identity request fresh in
        (first ≡ fresh)
        × ((cached_parse after path signature identity request fresh).0 ≡ elim fresh [
          | failed error ↦ failed error
          | parsed r ↦
              if cursor_eq r.cursor request
              then parsed (record { events = []; cursor = r.cursor })
              else parsed r
        ])
  unfolding cache_store entry_answer
  cached_parse_again (failed canceled) missed =
      rw (missed_parse (failed canceled) missed)
        (refl, answered cache (failed canceled) none missed)
  cached_parse_again (failed (broken e)) missed =
      let fresh = failed (broken e) in
      let after = cache_store cache path signature identity request fresh in
      rw (missed_parse fresh missed) (
        refl,
        answered after fresh (some fresh) (
            lookup-stored _ after (lookup-insert_self path _ cache) refl refl
            ∙ rw (cursor_eq_refl request)),
      )
  cached_parse_again (parsed r) missed =
      let fresh = parsed r in
      let after = cache_store cache path signature identity request fresh in
      rw (missed_parse fresh missed) (
        refl,
        elim (Bool-cases (cursor_eq r.cursor request)) [
          | inl still ↦ rw still (
              answered after fresh (some (parsed (record { events = []; cursor = r.cursor })))
                (lookup-stored _ after (lookup-insert_self path _ cache) refl refl ∙ rw still))
          | inr moved ↦ rw moved (
              answered after fresh none
                (lookup-stored _ after (lookup-insert_self path _ cache) refl refl ∙ rw moved))
        ],
      )
