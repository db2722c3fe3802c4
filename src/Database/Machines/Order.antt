-- ===== src/Database/Machines/Order.antt =====
-- The texts of times are compared in place of the times.
use tokemon.Prelude.{ℕ, ◌+◌, ◌*◌, ◌/◌, ◌%◌, ◌<◌, ◌≡◌, refl, subst, true, [], ◌∷◌, ◌++◌, some, arith}
use tokemon.Prelude.Int.{pos, pos_part, ◌+ℤ◌}
use tokemon.Prelude.Texts.{Text}
use tokemon.Prelude.Maps.{Map, lookup, lookup-insert_self}
use tokemon.Usage.Event.{Event}
use tokemon.Database.Clock.{format_utc, stamp, fraction, epoch_nanos, billion}
use tokemon.Database.Machines.{Machine, text_gt, seen_again, upsert_machine}

text_gt-append : (p a b : Text) → text_gt (p ++ a) (p ++ b) ≡ text_gt a b
unfolding text_gt
text_gt-append [] a b = refl
text_gt-append (c ∷ p) a b = ground (arith, text_gt-append p a b)

format_utc_at :
    (k f : ℕ)
    → f < billion
    → format_utc (pos (k * billion + f))
      ≡ stamp (k + 719_468 * 86_400) ++ (fraction f ++ (b'Z' ∷ []))
unfolding format_utc
format_utc_at k f h =
    let nanos = pos_part (pos (k * billion + f) +ℤ pos epoch_nanos) in
    let sum : nanos ≡ k * billion + f + epoch_nanos = unfold ◌+ℤ◌ in ground arith in
    let seconds : nanos / billion ≡ k + 719_468 * 86_400 = omega arith in
    let rest : nanos % billion ≡ f = omega arith in rw seconds (rw rest)

fraction_gt :
    (f : ℕ) → 0 < f → text_gt (fraction 0 ++ (b'Z' ∷ [])) (fraction f ++ (b'Z' ∷ [])) ≡ true
unfolding text_gt
fraction_gt f h = ground (arith, h)

-- The text of a whole second is greater than the text of every later moment within that second.
whole_second_gt :
    (k f : ℕ)
    → 0 < f
    → f < billion
    → text_gt (format_utc (pos (k * billion))) (format_utc (pos (k * billion + f))) ≡ true
unfolding text_gt
whole_second_gt k f h l =
    let whole : format_utc (pos (k * billion))
        ≡ stamp (k + 719_468 * 86_400) ++ (fraction 0 ++ (b'Z' ∷ [])) =
      subst (λ n. format_utc (pos n) ≡ stamp (k + 719_468 * 86_400) ++ (fraction 0 ++ (b'Z' ∷ [])))
        (omega arith) (format_utc_at k 0 (omega arith)) in
    rw whole (
      rw (format_utc_at k f l)
        (rw (text_gt-append (stamp (k + 719_468 * 86_400))) (fraction_gt f h)))

-- A machine last seen within a second, then seen by an event at the whole second before: the time on
-- record goes back to that, because the texts are compared and not the times.
pub upsert_machine_goes_back :
    (e : Event) (name : Text) (machines : Map Machine) (m : Machine) (k f : ℕ)
    → 0 < f
    → f < billion
    → lookup e.machine_id machines ≡ some m
    → m.last_seen_at ≡ format_utc (pos (k * billion + f))
    → e.timestamp ≡ pos (k * billion)
    → (after : Machine) × ((lookup e.machine_id (upsert_machine e name machines) ≡ some after)
        × (after.last_seen_at ≡ format_utc e.timestamp))
unfolding upsert_machine
upsert_machine_goes_back e name machines m k f h l known last now =
    let later : text_gt (format_utc e.timestamp) m.last_seen_at ≡ true =
      rw now (rw last (whole_second_gt k f h l)) in
    let after = seen_again name (format_utc e.timestamp) m in
    (after, (rw known (lookup-insert_self e.machine_id after machines), rw later))
