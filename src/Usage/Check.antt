-- ===== src/Usage/Check.antt =====
-- Checks in sequence, the first error wins: Go's `if err := …; err != nil { return err }`. A nil
-- error is `none`.
use tokemon.Prelude.{◌≡◌, refl, Bool, true, false, Option, none, some, if◌then◌else◌}

infixl 5 ◌>>◌
abbrev pub ◌>>◌ {ℓ} : {E : Type ℓ} → Option E → Option E → Option E
none >> next = next
some e >> next = some e

abbrev pub refuse_if {ℓ} : {E : Type ℓ} → Bool → E → Option E
refuse_if b e = if b then some e else none

-- Checks that all passed, one by one.
pub >>-eq-none {ℓ} :
    {E : Type ℓ} (first next : Option E) → (first >> next) ≡ none → (first ≡ none) × (next ≡ none)
>>-eq-none none next h = (refl, h)
>>-eq-none (some e) next h = cc

pub refuse_if-eq-none {ℓ} : {E : Type ℓ} (b : Bool) (e : E) → refuse_if b e ≡ none → b ≡ false
refuse_if-eq-none true e h = cc
refuse_if-eq-none false e h = refl
