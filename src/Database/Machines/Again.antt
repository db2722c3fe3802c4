-- ===== src/Database/Machines/Again.antt =====
-- Seeing a machine twice at one moment.
use tokemon.Prelude.{◌≡◌, refl, ap, false, [], ◌∷◌, arith, inl, inr, Bool-cases, Option-cases}
use tokemon.Prelude.Texts.{Text, text_eq, text_eq_refl}
use tokemon.Prelude.Maps.{Map, lookup, insert, lookup-insert_self}
use tokemon.Usage.Event.{Event}
use tokemon.Database.Clock.{format_utc}
use tokemon.Database.Machines.{Machine, text_gt, seen_again, first_seen, upsert_machine}

text_gt_irrefl : (t : Text) → text_gt t t ≡ false
unfolding text_gt
text_gt_irrefl [] = refl
text_gt_irrefl (c ∷ t) = ground (arith, text_gt_irrefl t)

insert_twice {ℓ} :
    {V : Type ℓ} (k : Text) (v : V) (m : Map V) → insert k v (insert k v m) ≡ insert k v m
unfolding insert
insert_twice k v [] = rw (text_eq_refl k)
insert_twice k v ((j, w) ∷ m) = elim (Bool-cases (text_eq j k)) [
  | inl same ↦ rw same (rw (text_eq_refl k))
  | inr other ↦ rw other (rw other (ap (λ (t : Map _). (j, w) ∷ t) (insert_twice k v m)))
]

upsert_fixed :
    (e : Event) (name : Text) (machines : Map Machine) (m : Machine)
    → seen_again name (format_utc e.timestamp) m ≡ m
    → upsert_machine e name (insert e.machine_id m machines) ≡ insert e.machine_id m machines
unfolding upsert_machine
upsert_fixed e name machines m fixed =
    rw (lookup-insert_self e.machine_id m machines, upsert_machine)
      (rw fixed (insert_twice e.machine_id m machines))

seen_again_idem :
    (name now : Text) (m : Machine)
    → seen_again name now (seen_again name now m) ≡ seen_again name now m
seen_again_idem name now m = elim (Bool-cases (text_gt now m.last_seen_at)) [
  | inl later ↦ rw later (rw (text_gt_irrefl now))
  | inr earlier ↦ rw earlier (rw earlier)
]

-- Seeing a machine a second time at the same moment changes nothing.
pub upsert_machine_idem :
    (e : Event) (name : Text) (machines : Map Machine)
    → upsert_machine e name (upsert_machine e name machines) ≡ upsert_machine e name machines
unfolding upsert_machine
upsert_machine_idem e name machines = elim (Option-cases (lookup e.machine_id machines)) [
  | inl new ↦
      let now = format_utc e.timestamp in
      let stored : upsert_machine e name machines
          ≡ insert e.machine_id (first_seen name now) machines =
        rw (new, upsert_machine) in
      rw stored (upsert_fixed e name machines (first_seen name now) (rw (text_gt_irrefl now)))
  | inr (m, known) ↦
      let now = format_utc e.timestamp in
      let stored : upsert_machine e name machines
          ≡ insert e.machine_id (seen_again name now m) machines =
        rw (known, upsert_machine) in
      rw stored (upsert_fixed e name machines (seen_again name now m) (seen_again_idem name now m))
]
