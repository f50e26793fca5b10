-- ===== src/Base/Options.antt =====
-- Chains of steps that may fail, for the decoders: `do` over `Option`.
use mathlib.Core.Path.{◌≡◌, refl}
use mathlib.Core.Bool.{Bool, true, false}
use mathlib.Core.Option.{Option, none, some}

infixl 5 ◌>>=◌ ◌>>◌
abbrev pub ◌>>=◌ {ℓ κ} : {A : Type ℓ} {B : Type κ} → Option A → (A → Option B) → Option B
none >>= f = none
some a >>= f = f a

abbrev pub ◌>>◌ {ℓ} : {B : Type ℓ} → Option (Unit {0}) → Option B → Option B
m >> k = m >>= λ _. k

-- A condition that the source tests, with `return false` where it fails.
abbrev pub require : Bool → Option (Unit {0})
require true = some tt
require false = none

-- What a chain that succeeds has passed: a test, and a step with its value.
pub require-eq_some {ℓ} :
    {B : Type ℓ} {b : Bool} {k : Option B} {h : B}
    → (require b >> k) ≡ some h
    → (b ≡ true) × (k ≡ some h)
require-eq_some {b = true} e = (refl, e)
require-eq_some {b = false} e = absurd (cc)

pub bind-eq_some {ℓ κ} :
    {A : Type ℓ} {B : Type κ} {m : Option A} {f : A → Option B} {h : B}
    → (m >>= f) ≡ some h
    → (a : A) × (m ≡ some a) × (f a ≡ some h)
bind-eq_some {m = none} e = absurd (cc)
bind-eq_some {m = some a} e = (a, refl, e)
