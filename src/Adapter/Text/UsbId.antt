-- ===== src/Adapter/Text/UsbId.antt =====
-- What `NormalizeUsbId` accepts and gives: four hexadecimal digits, which may stand between spaces and
-- behind a prefix.
use ec_systemcore.Base.{
  ℕ, ◌≤◌, ◌≡◌, refl, sym, subst, ap, ap₂, ◌∙◌, ◌⊎◌, ◌↔◌, inl, inr, Bool, true, false, not, ◌&&◌,
  ◌||◌, List, [], ◌∷◌, ◌++◌, Option, none, some, ◌==◌, if◌then◌else◌, arith, length, is_empty, All,
  Bool-cases, append_assoc,
}
use ec_systemcore.Adapter.Text.{
  is_space, is_xdigit, all_of, trim_front, trim_back, trim_ascii, without_prefix, lower_all,
  normalize_usb_id,
}
use ec_systemcore.Adapter.Text.Mac.{DigitOf, is_xdigit-DigitOf, DigitOf-is_xdigit}

abbrev pub IsSpace : ℕ → Type 0
IsSpace c = (c ≡ 32) ⊎ ((9 ≤ c) × (c ≤ 13))

abbrev pub AllSpaces : List ℕ → Type 0
AllSpaces text = All IsSpace text

abbrev pub IsPrefix : List ℕ → Type 0
IsPrefix p = (p ≡ []) ⊎ (p ≡ b'0' ∷ b'x' ∷ []) ⊎ (p ≡ b'0' ∷ b'X' ∷ [])

-- The hexadecimal digits of a text, one by one, in lower case.
pub LowerOf : List ℕ → List ℕ → Type 0
LowerOf [] [] = Unit
LowerOf [] (d ∷ digits) = ⊥
LowerOf (c ∷ text) [] = ⊥
LowerOf (c ∷ text) (d ∷ digits) = DigitOf c d × LowerOf text digits

IsSpace-iff : (c : ℕ) → (is_space c ≡ true) ↔ IsSpace c
IsSpace-iff c = ground arith

DigitOf-not_space : (c d : ℕ) → DigitOf c d → is_space c ≡ false
DigitOf-not_space c d h = ground arith

-- What trimming takes away is spaces.
trim_front-splits :
    (text : List ℕ) → (front : List ℕ) × (text ≡ front ++ trim_front text) × AllSpaces front
trim_front-splits [] = ([], refl, tt)
trim_front-splits (c ∷ text) = elim (Bool-cases (is_space c)) [
  | inl space ↦
      let (front, whole, spaces) = trim_front-splits text in
      (c ∷ front, rw space (ap (λ r. c ∷ r) whole), ((IsSpace-iff c).0 space, spaces))
  | inr solid ↦ ([], rw solid refl, tt)
]

empty-nil : (text : List ℕ) → is_empty text ≡ true → text ≡ []
empty-nil [] h = refl
empty-nil (c ∷ text) h = absurd (cc)

both : (p q : Bool) → (p && q) ≡ true → (p ≡ true) × (q ≡ true)
both p q h = ground arith

trim_back-splits :
    (text : List ℕ) → (back : List ℕ) × (text ≡ trim_back text ++ back) × AllSpaces back
trim_back-splits [] = ([], refl, tt)
trim_back-splits (c ∷ text) =
    let (back, whole, spaces) = trim_back-splits text in
    elim (Bool-cases (is_empty (trim_back text) && is_space c)) [
      | inl gone ↦
          let (empty, space) = both (is_empty (trim_back text)) (is_space c) gone in
          let only_back : text ≡ back =
            subst (λ r. text ≡ r ++ back) (empty-nil (trim_back text) empty) whole in
          (c ∷ back, rw gone (ap (λ r. c ∷ r) only_back), ((IsSpace-iff c).0 space, spaces))
      | inr kept ↦ (back, rw kept (ap (λ r. c ∷ r) whole), spaces)
    ]

-- The spaces round a text whose first and last characters are none are trimmed.
trim_front-append :
    (front : List ℕ) (c : ℕ) (text : List ℕ)
    → AllSpaces front
    → is_space c ≡ false
    → trim_front (front ++ (c ∷ text)) ≡ c ∷ text
trim_front-append [] c text spaces solid = rw solid refl
trim_front-append (x ∷ front) c text spaces solid =
    let space = (IsSpace-iff x).1 spaces.0 in
    rw space (trim_front-append front c text spaces.1 solid)

trim_back-spaces : (back : List ℕ) → AllSpaces back → trim_back back ≡ []
trim_back-spaces [] spaces = refl
trim_back-spaces (c ∷ back) spaces =
    let space = (IsSpace-iff c).1 spaces.0 in rw (trim_back-spaces back spaces.1, space) refl

is_empty-append : (text : List ℕ) (d : ℕ) → is_empty (text ++ (d ∷ [])) ≡ false
is_empty-append [] d = refl
is_empty-append (c ∷ text) d = refl

trim_back-append :
    (text : List ℕ) (d : ℕ) (back : List ℕ)
    → is_space d ≡ false
    → AllSpaces back
    → trim_back (text ++ (d ∷ back)) ≡ text ++ (d ∷ [])
trim_back-append [] d back solid spaces = rw (trim_back-spaces back spaces, solid) refl
trim_back-append (c ∷ text) d back solid spaces =
    rw (trim_back-append text d back solid spaces, is_empty-append text d) refl

-- What `without_prefix` takes away is a prefix.
without_prefix-splits :
    (value : List ℕ) → (p : List ℕ) × (value ≡ p ++ without_prefix value) × IsPrefix p
without_prefix-splits [] = ([], refl, inl refl)
without_prefix-splits (a ∷ []) = elim (Bool-cases ((a == b'0' && false) || (a == b'0' && false))) [
  | inl never ↦ absurd (ground (arith, never))
  | inr bare ↦ ([], rw bare refl, inl refl)
]
without_prefix-splits (a ∷ b ∷ rest) =
    let small = a == b'0' && (b == b'x' && true) in
    let large = a == b'0' && (b == b'X' && true) in
    elim (Bool-cases small) [
      | inl is_small ↦
          let first : a ≡ b'0' = ground (arith, is_small) in
          let second : b ≡ b'x' = ground (arith, is_small) in
          (b'0' ∷ b'x' ∷ [], rw is_small (ap₂ (λ x y. x ∷ (y ∷ rest)) first second), inr (inl refl))
      | inr not_small ↦ elim (Bool-cases large) [
        | inl is_large ↦
            let first : a ≡ b'0' = ground (arith, is_large) in
            let second : b ≡ b'X' = ground (arith, is_large) in
            (
              b'0' ∷ b'X' ∷ [],
              rw (not_small, is_large) (ap₂ (λ x y. x ∷ (y ∷ rest)) first second),
              inr (inr refl),
            )
        | inr not_large ↦ ([], rw (not_small, not_large) refl, inl refl)
      ]
    ]

lower_all-LowerOf :
    (value : List ℕ) → all_of is_xdigit value ≡ true → LowerOf value (lower_all value)
unfolding LowerOf
lower_all-LowerOf [] h = tt
lower_all-LowerOf (c ∷ value) h =
    let (hex, rest) = both (is_xdigit c) (all_of is_xdigit value) h in
    (is_xdigit-DigitOf c hex, lower_all-LowerOf value rest)

LowerOf-lower_all :
    (value t : List ℕ) → LowerOf value t → (all_of is_xdigit value ≡ true) × (lower_all value ≡ t)
unfolding LowerOf
LowerOf-lower_all [] [] h = (refl, refl)
LowerOf-lower_all [] (d ∷ t) h = absurd (h)
LowerOf-lower_all (c ∷ value) [] h = absurd (h)
LowerOf-lower_all (c ∷ value) (d ∷ t) h =
    let (hex, low) = DigitOf-is_xdigit c d h.0 in
    let (rest, lows) = LowerOf-lower_all value t h.1 in (rw (hex, rest) refl, ap₂ ◌∷◌ low lows)

abbrev usb_id_of : List ℕ → Option (List ℕ)
usb_id_of value =
    if not (length value == 4) || not (all_of is_xdigit value) then none else some (lower_all value)

usb_id_of_iff :
    (value t : List ℕ) → (usb_id_of value ≡ some t) ↔ ((length value ≡ 4) × LowerOf value t)
usb_id_of_iff value t = (
  λ e. elim (Bool-cases (length value == 4)) [
    | inl four ↦ elim (Bool-cases (all_of is_xdigit value)) [
      | inl hex ↦
          let lower : lower_all value ≡ t = ground (arith, e, four, hex) in
          (ground (arith, four), subst (λ x. LowerOf value x) lower (lower_all-LowerOf value hex))
      | inr other ↦ absurd (ground (arith, e, four, other))
    ]
    | inr other ↦ absurd (ground (arith, e, other))
  ],
  λ h.
      let (hex, lower) = LowerOf-lower_all value t h.1 in
      let four : (length value == 4) ≡ true = ground (arith, h.0) in rw (four, hex) (ap some lower),
)

-- Four digits, perhaps behind a prefix, are what is left of a text without spaces and prefix.
module _ (front back : List ℕ) (before : AllSpaces front) (behind : AllSpaces back) where
  trimmed :
      (a : ℕ) (text : List ℕ) (d : ℕ)
      → is_space a ≡ false
      → is_space d ≡ false
      → trim_ascii (front ++ ((a ∷ (text ++ (d ∷ []))) ++ back)) ≡ a ∷ (text ++ (d ∷ []))
  trimmed a text d first last =
      rw
        (
          append_assoc text (d ∷ []) back,
          trim_front-append front a (text ++ (d ∷ back)) before first,
        )
        (trim_back-append (a ∷ text) d back last behind)

-- The value that is left, for each prefix.
left_of :
    (p : List ℕ) (a b c d a' b' c' d' : ℕ) (front back : List ℕ)
    → IsPrefix p
    → AllSpaces front
    → AllSpaces back
    → DigitOf a a'
    → DigitOf b b'
    → DigitOf c c'
    → DigitOf d d'
    → without_prefix (trim_ascii (front ++ ((p ++ (a ∷ b ∷ c ∷ d ∷ [])) ++ back)))
      ≡ a ∷ b ∷ c ∷ d ∷ []
left_of p a b c d a' b' c' d' front back (inl bare) before behind ha hb hc hd =
    let trim =
      trimmed front back before behind a (b ∷ c ∷ []) d (DigitOf-not_space a a' ha)
        (DigitOf-not_space d d' hd) in
    let small : (b == b'x') ≡ false = ground (arith, hb) in
    let large : (b == b'X') ≡ false = ground (arith, hb) in
    rw (bare, trim) (ground (arith, small, large))
left_of p a b c d a' b' c' d' front back (inr (inl small)) before behind ha hb hc hd =
    let trim =
      trimmed front back before behind b'0' (b'x' ∷ a ∷ b ∷ c ∷ []) d refl
        (DigitOf-not_space d d' hd) in
    rw (small, trim) refl
left_of p a b c d a' b' c' d' front back (inr (inr large)) before behind ha hb hc hd =
    let trim =
      trimmed front back before behind b'0' (b'X' ∷ a ∷ b ∷ c ∷ []) d refl
        (DigitOf-not_space d d' hd) in
    rw (large, trim) refl

left_of_digits :
    (p v t front back : List ℕ)
    → length v ≡ 4
    → LowerOf v t
    → IsPrefix p
    → AllSpaces front
    → AllSpaces back
    → without_prefix (trim_ascii (front ++ ((p ++ v) ++ back))) ≡ v
unfolding LowerOf
left_of_digits p (a ∷ b ∷ c ∷ d ∷ []) (a' ∷ b' ∷ c' ∷ d' ∷ []) front back size low pre before
      behind =
    left_of p a b c d a' b' c' d' front back pre before behind low.0 low.1.0 low.1.1.0 low.1.1.1.0
left_of_digits p v t front back size low pre before behind = absurd (ground arith)

-- A text has the normal form `t` exactly if it consists of spaces, perhaps a prefix 0x or 0X, four
-- hexadecimal digits, and spaces, and `t` is the four digits in lower case.
pub normalize_usb_id_iff :
    (s t : List ℕ)
    → (normalize_usb_id s ≡ some t) ↔ (
        (front : List ℕ) × (p : List ℕ) × (v : List ℕ) × (back : List ℕ) × (s
          ≡ front ++ ((p ++ v) ++ back))
        × AllSpaces front
        × IsPrefix p
        × (length v ≡ 4)
        × LowerOf v t
        × AllSpaces back)
unfolding normalize_usb_id
normalize_usb_id_iff s t = (
  λ e.
      let (front, whole, before) = trim_front-splits s in
      let (back, middle, behind) = trim_back-splits (trim_front s) in
      let (p, value, pre) = without_prefix-splits (trim_ascii s) in
      let v = without_prefix (trim_ascii s) in
      let (size, low) = (usb_id_of_iff v t).0 e in
      (
        front,
        p,
        v,
        back,
        whole ∙ ap (λ r. front ++ r) (middle ∙ ap (λ r. r ++ back) value),
        before,
        pre,
        size,
        low,
        behind,
      ),
  λ (front, p, v, back, whole, before, pre, size, low, behind).
      let left = left_of_digits p v t front back size low pre before behind in
      rw whole (subst (λ x. usb_id_of x ≡ some t) (sym left) ((usb_id_of_iff v t).1 (size, low))),
)
