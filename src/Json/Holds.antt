-- ===== src/Json/Holds.antt =====
-- What an outcome promises: a property of the value and the cursor, and that the fuel was enough.
use ec_systemcore.Base.{◌≡◌, Bool, true, false, if◌then◌else◌, refl}
use ec_systemcore.Json.{JsonError, Cursor, Outcome, gave, threw, bind}

-- The outcome is an exception, or a value with `P`; the fuel did not run out.
pub data Holds {ℓ} {A : Type ℓ} (P : A → Cursor → Type 0) : Outcome A → Type ℓ where
  it_gave : {a : A} {c : Cursor} → P a c → Holds P (gave a c)
  it_threw : {e : JsonError} → Holds P (threw e)

pub bind-Holds {ℓ κ} :
    {A : Type ℓ} {B : Type κ} {P : A → Cursor → Type 0} {Q : B → Cursor → Type 0} {o : Outcome A}
    {next : A → Cursor → Outcome B}
    → Holds P o
    → ((a : A) (c : Cursor) → P a c → Holds Q (next a c))
    → Holds Q (bind o next)
bind-Holds (it_gave {a} {c} h) k = k a c h
bind-Holds it_threw k = it_threw

pub if-Holds {ℓ} :
    {A : Type ℓ} {Q : A → Cursor → Type 0} (b : Bool) {o1 o2 : Outcome A}
    → (b ≡ true → Holds Q o1)
    → (b ≡ false → Holds Q o2)
    → Holds Q (if b then o1 else o2)
if-Holds true h k = h refl
if-Holds false h k = k refl

pub weaken-Holds {ℓ} :
    {A : Type ℓ} {P Q : A → Cursor → Type 0} {o : Outcome A}
    → Holds P o
    → ((a : A) (c : Cursor) → P a c → Q a c)
    → Holds Q o
weaken-Holds (it_gave {a} {c} h) k = it_gave (k a c h)
weaken-Holds it_threw k = it_threw
