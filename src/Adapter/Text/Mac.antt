-- ===== src/Adapter/Text/Mac.antt =====
-- What `NormalizeMac` accepts and gives: twelve hexadecimal digits of a station's address, between
-- separators.
use ec_systemcore.Base.{
  ℕ, zero, suc, ◌+◌, ◌%◌, ◌≤◌, ◌<◌, ◌≡◌, ◌≢◌, refl, sym, subst, ap, ap₂, ◌∙◌, ◌⊎◌, ◌↔◌, Bool, true,
  false, not, ◌&&◌, ◌||◌, List, [], ◌∷◌, ◌++◌, some, ◌==◌, arith, length, All, append_assoc,
  append-nil, Bool-cases, Option-cases, inl, inr, get_or, replicate, bit_and, all_below,
  all_below_sound,
}
use ec_systemcore.Adapter.Text.{
  is_space, is_xdigit, to_lower, gather, first_byte, all_of, is_no_station, paired, normalize_mac,
}

-- A hexadecimal digit in lower case.
abbrev pub IsLowerHex : ℕ → Type 0
IsLowerHex c = ((b'0' ≤ c) × (c ≤ b'9')) ⊎ ((b'a' ≤ c) × (c ≤ b'f'))

-- The character is a hexadecimal digit, and `d` is it in lower case.
abbrev pub DigitOf : ℕ → ℕ → Type 0
DigitOf c d =
    ((b'0' ≤ c) × (c ≤ b'9') × (d ≡ c))
    ⊎ ((b'a' ≤ c) × (c ≤ b'f') × (d ≡ c))
    ⊎ ((b'A' ≤ c) × (c ≤ b'F') × (d ≡ c + 32))

-- A colon, a dash or a space.
abbrev pub IsSeparator : ℕ → Type 0
IsSeparator c = (c ≡ b':') ⊎ (c ≡ b'-') ⊎ (c ≡ 32) ⊎ ((9 ≤ c) × (c ≤ 13))

-- The text has these hexadecimal digits, in lower case, and separators.
pub data HexOf : List ℕ → List ℕ → Type 0 where
  no_text : HexOf [] []
  digit :
      {c d : ℕ} {text digits : List ℕ}
      → DigitOf c d
      → HexOf text digits
      → HexOf (c ∷ text) (d ∷ digits)
  separator :
      {c : ℕ} {text digits : List ℕ} → IsSeparator c → HexOf text digits → HexOf (c ∷ text) digits

module _ (c : ℕ) where
  pub is_xdigit-DigitOf : is_xdigit c ≡ true → DigitOf c (to_lower c)
  is_xdigit-DigitOf h = ground arith

  pub DigitOf-is_xdigit : (d : ℕ) → DigitOf c d → (is_xdigit c ≡ true) × (to_lower c ≡ d)
  DigitOf-is_xdigit d h = (ground arith, ground arith)

  IsSeparator-skips :
      IsSeparator c
      → (is_xdigit c ≡ false) × ((not (c == b':') && not (c == b'-') && not (is_space c)) ≡ false)
  IsSeparator-skips h = (ground arith, ground arith)

  skips-IsSeparator :
      (not (c == b':') && not (c == b'-') && not (is_space c)) ≡ false → IsSeparator c
  skips-IsSeparator h = ground arith

-- The loop that gathers the digits finds those of the text, or refuses a text that has others.
gather-HexOf :
    (text before h : List ℕ)
    → gather text before ≡ some h
    → (digits : List ℕ) × (h ≡ before ++ digits) × HexOf text digits
unfolding gather
gather-HexOf [] before h e = ([], ground (arith, e, append-nil before), no_text)
gather-HexOf (c ∷ text) before h e = elim (Bool-cases (is_xdigit c)) [
  | inl hex ↦
      let (digits, all, found) =
        gather-HexOf text (before ++ (to_lower c ∷ [])) h (ground (arith, hex, e)) in
      (
        to_lower c ∷ digits,
        all ∙ append_assoc before (to_lower c ∷ []) digits,
        digit (is_xdigit-DigitOf c hex) found,
      )
  | inr other ↦ elim (Bool-cases (not (c == b':') && not (c == b'-') && not (is_space c))) [
    | inl refused ↦ absurd (ground (arith, other, refused, e))
    | inr skipped ↦
        let (digits, all, found) = gather-HexOf text before h (ground (arith, other, skipped, e)) in
        (digits, all, separator (skips-IsSeparator c skipped) found)
  ]
]

HexOf-gather :
    {text digits : List ℕ}
    → HexOf text digits
    → (before : List ℕ) → gather text before ≡ some (before ++ digits)
unfolding gather
HexOf-gather no_text before = ap some (sym (append-nil before))
HexOf-gather (digit {c} {d} {text} {digits} is_digit_of rest) before =
    let (hex, low) = DigitOf-is_xdigit c d is_digit_of in
    let later = HexOf-gather rest (before ++ (d ∷ [])) in
    rw (hex, low) (later ∙ ap some (append_assoc before (d ∷ []) digits))
HexOf-gather (separator {c} {text} {digits} is_separator rest) before =
    let (other, skipped) = IsSeparator-skips c is_separator in
    rw (other, skipped) (HexOf-gather rest before)

HexOf-AllLowerHex : {text digits : List ℕ} → HexOf text digits → All IsLowerHex digits
HexOf-AllLowerHex no_text = tt
HexOf-AllLowerHex (digit is_digit_of rest) = (ground (arith, is_digit_of), HexOf-AllLowerHex rest)
HexOf-AllLowerHex (separator is_separator rest) = HexOf-AllLowerHex rest

-- The digits in pairs, with a colon between two pairs.
pub after_colons : List ℕ → List ℕ
after_colons (c ∷ d ∷ rest) = b':' ∷ (c ∷ (d ∷ after_colons rest))
after_colons short = []

pub coloned : List ℕ → List ℕ
coloned (c ∷ d ∷ rest) = c ∷ (d ∷ after_colons rest)
coloned short = []

paired-after :
    (x : ℕ) (before digits : List ℕ)
    → paired (x ∷ before) digits ≡ x ∷ (before ++ after_colons digits)
unfolding paired after_colons
paired-after x before [] = ap (λ r. x ∷ r) (sym (append-nil before))
paired-after x before (c ∷ []) = ap (λ r. x ∷ r) (sym (append-nil before))
paired-after x before (c ∷ d ∷ rest) =
    paired-after x ((before ++ (b':' ∷ [])) ++ (c ∷ d ∷ [])) rest
    ∙ ap (λ r. x ∷ r)
        (append_assoc (before ++ (b':' ∷ [])) (c ∷ d ∷ []) (after_colons rest)
          ∙ append_assoc before (b':' ∷ []) (c ∷ d ∷ after_colons rest))

paired-coloned : (digits : List ℕ) → paired [] digits ≡ coloned digits
unfolding paired coloned
paired-coloned [] = refl
paired-coloned (c ∷ []) = refl
paired-coloned (c ∷ d ∷ rest) = paired-after c (d ∷ []) rest

-- The second digit of the address, in which the group bit is not set.
abbrev pub IsEvenDigit : ℕ → Type 0
IsEvenDigit d = ((d ≤ b'9') × (d % 2 ≡ 0)) ⊎ ((b'a' ≤ d) × (d % 2 ≡ 1))

-- The address of one station: no group's, and neither all zeros nor all ones.
pub record IsStation (h : List ℕ) : Type 0 where
  pub single : IsEvenDigit (get_or h 1 0)
  pub not_zero : h ≢ replicate 12 b'0'
  pub not_broadcast : h ≢ replicate 12 b'f'

all_of-replicate : (d : ℕ) (h : List ℕ) → all_of (λ c. c == d) h ≡ true → h ≡ replicate (length h) d
all_of-replicate d [] e = refl
all_of-replicate d (c ∷ h) e =
    ap₂ ◌∷◌ (ground (arith, e)) (all_of-replicate d h (ground (arith, e)))

replicate-all_of : (d n : ℕ) → all_of (λ c. c == d) (replicate n d) ≡ true
replicate-all_of d zero = refl
replicate-all_of d (suc n) = ground (arith, replicate-all_of d n)

lowest_bit : ℕ → Bool
lowest_bit x = bit_and x 1 == x % 2

low_bit : (x : ℕ) → x < 256 → bit_and x 1 ≡ x % 2
unfolding all_below lowest_bit
low_bit x h = let known = all_below_sound 256 lowest_bit x refl h in ground (arith, known)

first_byte_iff :
    (a b : ℕ) (rest : List ℕ)
    → IsLowerHex a
    → IsLowerHex b
    → ((bit_and (first_byte (a ∷ b ∷ rest)) 1 == 0) ≡ true) ↔ IsEvenDigit b
first_byte_iff a b rest low_a low_b =
    let small : first_byte (a ∷ b ∷ rest) < 256 = ground (arith, low_a, low_b) in
    let bit = low_bit (first_byte (a ∷ b ∷ rest)) small in
    rw bit (λ e. ground (arith, low_a, low_b, e), λ e. ground (arith, low_a, low_b, e))

all_iff :
    (d : ℕ) (h : List ℕ) → length h ≡ 12 → (all_of (λ c. c == d) h ≡ false) ↔ (h ≢ replicate 12 d)
all_iff d h size = (
  λ e same.
      let all : all_of (λ c. c == d) h ≡ true = rw same (replicate-all_of d 12) in cc (all, e),
  λ other. elim (Bool-cases (all_of (λ c. c == d) h)) [
    | inl all ↦ absurd (other (all_of-replicate d h all ∙ ap (λ n. replicate n d) size))
    | inr some_other ↦ some_other
  ],
)

neither : (p q : Bool) → (p || q) ≡ false → (p ≡ false) × (q ≡ false)
neither p q h = ground arith

is_no_station_iff :
    (h : List ℕ) → All IsLowerHex h → length h ≡ 12 → (is_no_station h ≡ false) ↔ IsStation h
unfolding is_no_station
is_no_station_iff [] low size = absurd (omega arith)
is_no_station_iff (a ∷ []) low size = absurd (omega arith)
is_no_station_iff (a ∷ b ∷ rest) low size =
    let h = a ∷ b ∷ rest in
    let even = first_byte_iff a b rest low.0 low.1.0 in
    let zeros = all_iff b'0' h size in
    let ones = all_iff b'f' h size in
    (
      λ e.
          let is_group = not (bit_and (first_byte h) 1 == 0) in
          let zero = all_of (λ c. c == b'0') h in
          let (group_or_zero, not_ones) =
            neither (is_group || zero) (all_of (λ c. c == b'f') h) e in
          let (group, not_zeros) = neither is_group zero group_or_zero in
          record {
            single = even.0 (ground (arith, group));
            not_zero = zeros.0 not_zeros;
            not_broadcast = ones.0 not_ones;
          },
      λ s.
          let group = even.1 s.single in
          let not_zeros = zeros.1 s.not_zero in
          let not_ones = ones.1 s.not_broadcast in rw (group, not_zeros, not_ones) refl,
    )

-- The digits behind an address that was accepted.
normalize_mac-digits :
    (s t : List ℕ)
    → normalize_mac s ≡ some t
    → (h : List ℕ) × (gather s [] ≡ some h)
      × (length h ≡ 12)
      × (is_no_station h ≡ false)
      × (t ≡ paired [] h)
unfolding normalize_mac
normalize_mac-digits s t e = elim (Option-cases (gather s [])) [
  | inl bad ↦ absurd (ground (arith, e, bad))
  | inr (h, good) ↦
      (h, good, ground (arith, e, good), ground (arith, e, good), ground (arith, e, good))
]

-- A text has the normal form `t` exactly if its characters are separators and twelve hexadecimal
-- digits, these are the address of one station (no group, not all zeros, not all ones), and `t` is the
-- digits in lower case, in pairs with colons between them.
pub normalize_mac_iff :
    (s t : List ℕ)
    → (normalize_mac s ≡ some t)
      ↔ ((h : List ℕ) × HexOf s h × (length h ≡ 12) × IsStation h × (t ≡ coloned h))
unfolding normalize_mac
normalize_mac_iff s t = (
  λ e.
      let (h, found, size, station, text) = normalize_mac-digits s t e in
      let (digits, same, hex) = gather-HexOf s [] h found in
      let hex_h : HexOf s h = subst (λ x. HexOf s x) (sym same) hex in
      (
        h,
        hex_h,
        size,
        (is_no_station_iff h (HexOf-AllLowerHex hex_h) size).0 station,
        text ∙ paired-coloned h,
      ),
  λ (h, hex, size, station, text).
      let found = HexOf-gather hex [] in
      let is_station = (is_no_station_iff h (HexOf-AllLowerHex hex) size).1 station in
      let long : (length h == 12) ≡ true = ground (arith, size) in
      rw (found, long, is_station) (ap some (paired-coloned h ∙ sym text)),
)
