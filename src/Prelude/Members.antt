-- ===== src/Prelude/Members.antt =====
-- Elements of a list, and what tests of all elements say of each.
use tokemon.Prelude.Tests.{if◌then◌else◌, Bool-cases}
use tokemon.Prelude.Lists.{any, filter}
use mathlib.Core.Path.{◌≡◌, refl, subst}
use mathlib.Core.Logic.{inl, inr}
use mathlib.Core.Bool.{Bool, true, false}
use mathlib.Core.List.{List, [], ◌∷◌, Memᴰ}
use mathlib.Core.List.Memᴰ.{head, tail}
use native.Mathlib.Omega.{arith}

module _ {ℓ} {A : Type ℓ} where
  pub any-Memᴰ : (p : A → Bool) (xs : List A) (x : A) → any p xs ≡ false → Memᴰ x xs → p x ≡ false
  any-Memᴰ p [] x h i = elim i [ ]
  any-Memᴰ p (y ∷ ys) x h (head e) = rw e (ground (arith, h))
  any-Memᴰ p (y ∷ ys) x h (tail i) = any-Memᴰ p ys x (ground (arith, h)) i

  pub any-false :
      (p : A → Bool) (xs : List A) → ((x : A) → Memᴰ x xs → p x ≡ false) → any p xs ≡ false
  any-false p [] h = refl
  any-false p (y ∷ ys) h = ground (arith, h y (head refl), any-false p ys (λ x i. h x (tail i)))

  pub any-true :
      (p : A → Bool) (xs : List A) → any p xs ≡ true → (x : A) × (Memᴰ x xs × (p x ≡ true))
  any-true p [] h = absurd (ground (arith, h))
  any-true p (y ∷ ys) h = elim (Bool-cases (p y)) [
    | inl e ↦ (y, (head refl, e))
    | inr ne ↦ let (x, rest) = any-true p ys (ground (arith, h, ne)) in (x, (tail rest.0, rest.1))
  ]

  pub any_found : (p : A → Bool) (xs : List A) (x : A) → Memᴰ x xs → p x ≡ true → any p xs ≡ true
  any_found p [] x i h = elim i [ ]
  any_found p (y ∷ ys) x (head e) h = rw (← e, h)
  any_found p (y ∷ ys) x (tail i) h = ground (arith, any_found p ys x i h)

  pub filter-Memᴰ :
      (p : A → Bool) (xs : List A) (x : A) → Memᴰ x xs → p x ≡ true → Memᴰ x (filter p xs)
  filter-Memᴰ p [] x i h = elim i [ ]
  filter-Memᴰ p (y ∷ ys) x (head e) h = rw (← e, h) (head refl)
  filter-Memᴰ p (y ∷ ys) x (tail i) h = elim (Bool-cases (p y)) [
    | inl kept ↦ rw kept (tail (filter-Memᴰ p ys x i h))
    | inr gone ↦ rw gone (filter-Memᴰ p ys x i h)
  ]

  pub Memᴰ-filter :
      (p : A → Bool) (xs : List A) (x : A) → Memᴰ x (filter p xs) → Memᴰ x xs × (p x ≡ true)
  Memᴰ-filter p [] x i = elim i [ ]
  Memᴰ-filter p (y ∷ ys) x i = elim (Bool-cases (p y)) [
    | inl kept ↦
        first_or_later kept (λ j. Memᴰ-filter p ys x j)
          (subst (λ b. Memᴰ x (if b then y ∷ filter p ys else filter p ys)) kept i)
    | inr gone ↦
        let (j, h) =
          Memᴰ-filter p ys x
            (subst (λ b. Memᴰ x (if b then y ∷ filter p ys else filter p ys)) gone i) in
        (tail j, h)
  ]
    where
      first_or_later :
          p y ≡ true
          → (Memᴰ x (filter p ys) → Memᴰ x ys × (p x ≡ true))
          → Memᴰ x (y ∷ filter p ys)
          → Memᴰ x (y ∷ ys) × (p x ≡ true)
      first_or_later kept later (head e) = (head e, rw e kept)
      first_or_later kept later (tail j) = let (k, h) = later j in (tail k, h)
