-- ===== src/Prelude/Checks.antt =====
-- Go functions that return the first error that they meet: a chain of checks.
use mathlib.Core.Path.{◌≡◌, refl}
use mathlib.Core.Bool.{Bool, true, false}
use mathlib.Core.Option.{Option, none, some}
use native.Mathlib.Omega.{arith}

-- `if b { return e }`
abbrev pub fails_if {ℓ} : {E : Type ℓ} → Bool → E → Option E
fails_if true e = some e
fails_if false e = none

-- One check, and the checks after it.
infixr 6 ◌or_else◌
abbrev pub ◌or_else◌ {ℓ} : {E : Type ℓ} → Option E → Option E → Option E
none or_else k = k
(some e) or_else k = some e

-- `if err := …; err != nil { return wrap(err) }`
abbrev pub wrap {ℓ κ} : {E : Type ℓ} {F : Type κ} → (E → F) → Option E → Option F
wrap f none = none
wrap f (some e) = some (f e)

pub or_else-none {ℓ} : {E : Type ℓ} {a b : Option E} → a ≡ none → b ≡ none → (a or_else b) ≡ none
or_else-none {a} {b} p q = ground arith

pub or_else-eq_none {ℓ} :
    {E : Type ℓ} (a b : Option E) → (a or_else b) ≡ none → (a ≡ none) × (b ≡ none)
or_else-eq_none none b h = (refl, h)
or_else-eq_none (some e) b h = ground arith
