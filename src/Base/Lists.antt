-- ===== src/Base/Lists.antt =====
-- Sequences measured and indexed by native numbers.
use Prim.Native.Nat.{ℕ, zero, suc, ◌+◌, ◌-◌, ◌≤◌, ◌<◌}
use mathlib.Core.Path.{◌≡◌, refl, sym, ◌∙◌, ap, ap₂, subst}
use mathlib.Core.Logic.{◌≢◌}
use mathlib.Core.List.{List, [], ◌∷◌, ◌++◌}
use mathlib.Core.Bool.{Bool, true, false}
use mathlib.Core.Option.{Option, none, some}
use native.Mathlib.Omega.{arith}

module _ {ℓ} {A : Type ℓ} where
  abbrev pub is_empty : List A → Bool
  is_empty [] = true
  is_empty (a ∷ as') = false

  abbrev pub length : List A → ℕ
  length [] = 0
  length (a ∷ as') = suc (length as')

  abbrev pub get_or : List A → ℕ → A → A
  get_or [] i fallback = fallback
  get_or (a ∷ as') zero fallback = a
  get_or (a ∷ as') (suc i) fallback = get_or as' i fallback

  -- A write out of range changes nothing.
  abbrev pub get_elem? : List A → ℕ → Option A
  get_elem? [] i = none
  get_elem? (a ∷ rest) zero = some a
  get_elem? (a ∷ rest) (suc i) = get_elem? rest i

  abbrev pub set : List A → ℕ → A → List A
  set [] i b = []
  set (a ∷ as') zero b = b ∷ as'
  set (a ∷ as') (suc i) b = a ∷ set as' i b

  abbrev pub take : ℕ → List A → List A
  take zero as' = []
  take (suc n) [] = []
  take (suc n) (a ∷ as') = a ∷ take n as'

  abbrev pub drop : ℕ → List A → List A
  drop zero as' = as'
  drop (suc n) [] = []
  drop (suc n) (a ∷ as') = drop n as'

  abbrev pub replicate : ℕ → A → List A
  replicate zero a = []
  replicate (suc n) a = a ∷ replicate n a

  abbrev pub All {κ} : (A → Type κ) → List A → Type κ
  All P [] = Unit {κ}
  All P (a ∷ as') = P a × All P as'

module _ {ℓ} {A : Type ℓ} where
  pub length-append : (as' bs : List A) → length (as' ++ bs) ≡ length as' + length bs
  length-append [] bs = omega arith
  length-append (a ∷ as') bs = omega (arith, length-append as' bs)

  pub length-set : (as' : List A) (i : ℕ) (b : A) → length (set as' i b) ≡ length as'
  length-set [] i b = refl
  length-set (a ∷ as') zero b = refl
  length-set (a ∷ as') (suc i) b = omega (arith, length-set as' i b)

  pub get_or-set_self :
      (as' : List A) (i : ℕ) (b d : A) → i < length as' → get_or (set as' i b) i d ≡ b
  get_or-set_self [] i b d h = absurd (omega arith)
  get_or-set_self (a ∷ as') zero b d h = refl
  get_or-set_self (a ∷ as') (suc i) b d h = get_or-set_self as' i b d (omega arith)

  pub get_or-set_ne :
      (as' : List A) (i j : ℕ) (b d : A) → i ≢ j → get_or (set as' i b) j d ≡ get_or as' j d
  get_or-set_ne [] i j b d ne = refl
  get_or-set_ne (a ∷ as') zero zero b d ne = absurd (ne refl)
  get_or-set_ne (a ∷ as') zero (suc j) b d ne = refl
  get_or-set_ne (a ∷ as') (suc i) zero b d ne = refl
  get_or-set_ne (a ∷ as') (suc i) (suc j) b d ne =
      get_or-set_ne as' i j b d (λ (e : i ≡ j). ne (ap suc e))

  pub length-drop : (n : ℕ) (as' : List A) → length (drop n as') ≡ length as' - n
  length-drop zero as' = omega arith
  length-drop (suc n) [] = omega arith
  length-drop (suc n) (a ∷ as') = omega (arith, length-drop n as')

  pub length-take : (n : ℕ) (as' : List A) → n ≤ length as' → length (take n as') ≡ n
  length-take zero as' h = refl
  length-take (suc n) [] h = absurd (omega arith)
  length-take (suc n) (a ∷ as') h = omega (arith, length-take n as' (omega arith))

  pub length-replicate : (n : ℕ) (a : A) → length (replicate n a) ≡ n
  length-replicate zero a = refl
  length-replicate (suc n) a = omega (arith, length-replicate n a)

  pub take-append-drop : (n : ℕ) (as' : List A) → take n as' ++ drop n as' ≡ as'
  take-append-drop zero as' = refl
  take-append-drop (suc n) [] = refl
  take-append-drop (suc n) (a ∷ as') = ap (λ r. a ∷ r) (take-append-drop n as')

  drop-nil : (n : ℕ) → drop {A = A} n [] ≡ []
  drop-nil zero = refl
  drop-nil (suc n) = refl

  pub drop-drop : (m n : ℕ) (as' : List A) → drop m (drop n as') ≡ drop (n + m) as'
  drop-drop m zero as' = ground arith
  drop-drop m (suc n) [] = drop-nil m ∙ sym (drop-nil (suc n + m))
  drop-drop m (suc n) (a ∷ as') =
      let e : suc n + m ≡ suc (n + m) = omega arith in rw e (drop-drop m n as')

  pub drop-length : (n : ℕ) (as' : List A) → length as' ≤ n → drop n as' ≡ []
  drop-length zero [] h = refl
  drop-length zero (a ∷ as') h = absurd (omega arith)
  drop-length (suc n) [] h = refl
  drop-length (suc n) (a ∷ as') h = drop-length n as' (omega arith)

  pub take-length : (n : ℕ) (as' : List A) → length as' ≤ n → take n as' ≡ as'
  take-length zero [] h = refl
  take-length zero (a ∷ as') h = absurd (omega arith)
  take-length (suc n) [] h = refl
  take-length (suc n) (a ∷ as') h = ap (λ r. a ∷ r) (take-length n as' (omega arith))

  pub take-append : (n : ℕ) (as' bs : List A) → n ≤ length as' → take n (as' ++ bs) ≡ take n as'
  take-append zero as' bs h = refl
  take-append (suc n) [] bs h = absurd (omega arith)
  take-append (suc n) (a ∷ as') bs h = ap (λ r. a ∷ r) (take-append n as' bs (omega arith))

  pub drop-append :
      (n : ℕ) (as' bs : List A) → n ≤ length as' → drop n (as' ++ bs) ≡ drop n as' ++ bs
  drop-append zero as' bs h = refl
  drop-append (suc n) [] bs h = absurd (omega arith)
  drop-append (suc n) (a ∷ as') bs h = drop-append n as' bs (omega arith)

  pub drop-append_length : (as' bs : List A) → drop (length as') (as' ++ bs) ≡ bs
  drop-append_length [] bs = refl
  drop-append_length (a ∷ as') bs = drop-append_length as' bs

  pub take-append_length : (as' bs : List A) → take (length as') (as' ++ bs) ≡ as'
  take-append_length [] bs = refl
  take-append_length (a ∷ as') bs = ap (λ r. a ∷ r) (take-append_length as' bs)

  pub get_or-drop :
      (n i : ℕ) (as' : List A) (d : A) → get_or (drop n as') i d ≡ get_or as' (n + i) d
  get_or-drop zero i as' d = ground arith
  get_or-drop (suc n) i [] d = refl
  get_or-drop (suc n) i (a ∷ as') d = ground (arith, get_or-drop n i as' d)

  pub get_or-take :
      (n i : ℕ) (as' : List A) (d : A) → i < n → get_or (take n as') i d ≡ get_or as' i d
  get_or-take zero i as' d h = absurd (omega arith)
  get_or-take (suc n) i [] d h = refl
  get_or-take (suc n) zero (a ∷ as') d h = refl
  get_or-take (suc n) (suc i) (a ∷ as') d h = get_or-take n i as' d (omega arith)

  pub get_or-append :
      (as' bs : List A) (i : ℕ) (d : A) → i < length as' → get_or (as' ++ bs) i d ≡ get_or as' i d
  get_or-append [] bs i d h = absurd (omega arith)
  get_or-append (a ∷ as') bs zero d h = refl
  get_or-append (a ∷ as') bs (suc i) d h = get_or-append as' bs i d (omega arith)

  -- Two lists of one length that agree at every index are equal.
  pub get_or_ext :
      (d : A) (as' bs : List A)
      → length as' ≡ length bs
      → ((i : ℕ) → i < length as' → get_or as' i d ≡ get_or bs i d)
      → as' ≡ bs
  get_or_ext d [] [] e agree = refl
  get_or_ext d [] (b ∷ bs) e agree = absurd (omega arith)
  get_or_ext d (a ∷ as') [] e agree = absurd (omega arith)
  get_or_ext d (a ∷ as') (b ∷ bs) e agree =
      ap₂ ◌∷◌ (agree 0 (omega arith))
        (get_or_ext d as' bs (omega arith) (λ i h. agree (suc i) (omega arith)))

  pub All-append {κ} : (P : A → Type κ) (as' bs : List A) → All P as' → All P bs → All P (as' ++ bs)
  All-append P [] bs h k = k
  All-append P (a ∷ as') bs h k = (h.0, All-append P as' bs h.1 k)

  pub get_elem?-All {κ} :
      (P : A → Type κ) (as' : List A) (i : ℕ) {a : A} → All P as' → get_elem? as' i ≡ some a → P a
  get_elem?-All P [] i h e = absurd (cc)
  get_elem?-All P (b ∷ rest) zero h e = subst P (cc) h.0
  get_elem?-All P (b ∷ rest) (suc i) h e = get_elem?-All P rest i h.1 e

  pub All-set {κ} :
      (P : A → Type κ) (as' : List A) (i : ℕ) (a : A) → All P as' → P a → All P (set as' i a)
  All-set P [] i a h p = tt
  All-set P (b ∷ rest) zero a h p = (p, h.1)
  All-set P (b ∷ rest) (suc i) a h p = (h.0, All-set P rest i a h.1 p)

  pub All-drop {κ} : (P : A → Type κ) (n : ℕ) (as' : List A) → All P as' → All P (drop n as')
  All-drop P zero as' h = h
  All-drop P (suc n) [] h = h
  All-drop P (suc n) (a ∷ as') h = All-drop P n as' h.1
