-- ===== src/Json/Text/Valid.antt =====
-- What `isValidUtf8` accepts is well-formed UTF-8, by the table of RFC 3629: no overlong form, no
-- surrogate, nothing above U+10FFFF.
use ec_systemcore.Base.{
  ℕ, zero, suc, ◌+◌, ◌*◌, ◌%◌, ◌≤◌, ◌<◌, ◌≡◌, ◌≢◌, refl, subst, ap, ◌∙◌, ◌⊎◌, inl, inr, List, [],
  ◌∷◌, Option, none, some, Bool, true, false, not, ◌&&◌, leb, ◌==◌, if◌then◌else◌, bit_and, bit_or,
  length, arith, all_below, all_below_sound, Bool-cases, Option-cases, bit_or_high-eq-add,
}
use ec_systemcore.Json.Text.{u8, continued, lead, is_bad_code, sequence, utf8_loop, is_valid_utf8}

-- A continuation byte.
abbrev pub IsTail : ℕ → Type 0
IsTail c = (128 ≤ u8 c) × (u8 c ≤ 191)

pub data IsUtf8 : List ℕ → Type 0 where
  ended : IsUtf8 []
  ascii : (a : ℕ) (rest : List ℕ) → u8 a ≤ 127 → IsUtf8 rest → IsUtf8 (a ∷ rest)
  two_bytes :
      (a b : ℕ) (rest : List ℕ)
      → (194 ≤ u8 a) × (u8 a ≤ 223)
      → IsTail b
      → IsUtf8 rest
      → IsUtf8 (a ∷ b ∷ rest)
  three_bytes :
      (a b c : ℕ) (rest : List ℕ)
      → (224 ≤ u8 a) × (u8 a ≤ 239)
      → IsTail b × IsTail c
      → (225 ≤ u8 a) ⊎ (160 ≤ u8 b)
      → (u8 a ≢ 237) ⊎ (u8 b ≤ 159)
      → IsUtf8 rest
      → IsUtf8 (a ∷ b ∷ c ∷ rest)
  four_bytes :
      (a b c d : ℕ) (rest : List ℕ)
      → (240 ≤ u8 a) × (u8 a ≤ 244)
      → IsTail b × IsTail c × IsTail d
      → (241 ≤ u8 a) ⊎ (144 ≤ u8 b)
      → (u8 a ≤ 243) ⊎ (u8 b ≤ 143)
      → IsUtf8 rest
      → IsUtf8 (a ∷ b ∷ c ∷ d ∷ rest)

-- Masks of a byte as ranges and remainders, by evaluation.
abbrev masks_range : ℕ → ℕ → ℕ → ℕ → ℕ → Bool
masks_range mask value least most x =
    if bit_and x mask == value then leb least x && leb x most else not (leb least x && leb x most)

module _ (mask value least most x : ℕ)
    (table : all_below 256 (masks_range mask value least most) ≡ true) (h : x < 256) where
  in_range : bit_and x mask ≡ value → (least ≤ x) × (x ≤ most)
  in_range e =
      let known = all_below_sound 256 (masks_range mask value least most) x table h in
      ground (arith, e, known)

tail_table : all_below 256 (masks_range 192 128 128 191) ≡ true
unfolding all_below
tail_table = refl

two_table : all_below 256 (masks_range 224 192 192 223) ≡ true
unfolding all_below
two_table = refl

three_table : all_below 256 (masks_range 240 224 224 239) ≡ true
unfolding all_below
three_table = refl

four_table : all_below 256 (masks_range 248 240 240 247) ≡ true
unfolding all_below
four_table = refl

remainder : ℕ → ℕ → ℕ → Bool
remainder mask m x = bit_and x mask == x % m

module _ (x : ℕ) (h : x < 256) where
  tail_bits : bit_and x 63 ≡ x % 64
  unfolding all_below remainder
  tail_bits = let known = all_below_sound 256 (remainder 63 64) x refl h in ground (arith, known)

  two_bits : bit_and x 31 ≡ x % 32
  unfolding all_below remainder
  two_bits = let known = all_below_sound 256 (remainder 31 32) x refl h in ground (arith, known)

  three_bits : bit_and x 15 ≡ x % 16
  unfolding all_below remainder
  three_bits = let known = all_below_sound 256 (remainder 15 16) x refl h in ground (arith, known)

  four_bits : bit_and x 7 ≡ x % 8
  unfolding all_below remainder
  four_bits = let known = all_below_sound 256 (remainder 7 8) x refl h in ground (arith, known)

u8-lt : (c : ℕ) → u8 c < 256
u8-lt c = omega arith

-- The code point with one more continuation byte.
abbrev pushed : ℕ → ℕ → ℕ
pushed cp b = cp * 64 + u8 b % 64

pushed_lem : (cp b : ℕ) → bit_or (cp * 64) (bit_and (u8 b) 63) ≡ pushed cp b
pushed_lem cp b =
    ap (bit_or (cp * 64)) (tail_bits (u8 b) (u8-lt b))
    ∙ bit_or_high-eq-add 6 (u8 b % 64) cp (omega arith)

continued-IsTail :
    (n cp : ℕ) (bytes : List ℕ) (r : ℕ) (after : List ℕ)
    → continued (suc n) cp bytes ≡ some (r, after)
    → (b : ℕ) × (rest : List ℕ) × (bytes ≡ b ∷ rest)
      × IsTail b
      × (continued n (pushed cp b) rest ≡ some (r, after))
unfolding continued
continued-IsTail n cp [] r after e = absurd (cc)
continued-IsTail n cp (b ∷ rest) r after e = elim (Bool-cases (bit_and (u8 b) 192 == 128)) [
  | inl good ↦ (
    b,
    rest,
    refl,
    in_range 192 128 128 191 (u8 b) tail_table (u8-lt b) (ground (arith, good)),
    subst (λ x. continued n x rest ≡ some (r, after)) (pushed_lem cp b) (ground (arith, e, good)),
  )
  | inr bad ↦ absurd (ground (arith, e, bad))
]

continued-end :
    (cp : ℕ) (bytes : List ℕ) (r : ℕ) (after : List ℕ)
    → continued 0 cp bytes ≡ some (r, after)
    → (cp ≡ r) × (bytes ≡ after)
unfolding continued
continued-end cp bytes r after e = (cc, cc)

checked :
    (k : ℕ) (o : Option (ℕ × List ℕ)) (after : List ℕ)
    → elim o [ none ↦ none | some (cp, rest) ↦ if is_bad_code k cp then none else some rest ]
      ≡ some after
    → (cp : ℕ) × (o ≡ some (cp, after)) × (is_bad_code k cp ≡ false)
checked k none after e = absurd (cc)
checked k (some (cp, rest)) after e = elim (Bool-cases (is_bad_code k cp)) [
  | inl bad ↦ absurd (ground (arith, e, bad))
  | inr good ↦
      let same : rest ≡ after = ground (arith, e, good) in (cp, ap (λ r. some (cp, r)) same, good)
]

-- The sequences of two, three and four bytes, after the first.
two-IsUtf8 :
    (a : ℕ) (bytes after : List ℕ) (cp : ℕ)
    → (192 ≤ u8 a) × (u8 a ≤ 223)
    → continued 1 (u8 a % 32) bytes ≡ some (cp, after)
    → is_bad_code 1 cp ≡ false
    → IsUtf8 after
    → IsUtf8 (a ∷ bytes)
two-IsUtf8 a bytes after cp range e good v =
    let (b, rest, is_b, tail_b, e1) = continued-IsTail 0 (u8 a % 32) bytes cp after e in
    let (code, ends) = continued-end (pushed (u8 a % 32) b) rest cp after e1 in
    let least : 128 ≤ cp = unfold is_bad_code in ground (arith, good) in
    rw (is_b, ends) (two_bytes a b after (omega (arith, code, least, range)) tail_b v)

good_three : (cp : ℕ) → is_bad_code 2 cp ≡ false → (2048 ≤ cp) × ((cp < 55296) ⊎ (57343 < cp))
unfolding is_bad_code
good_three cp good = ground arith

-- The code point of three bytes.
abbrev three_code : ℕ → ℕ → ℕ → ℕ
three_code a b c = (a % 16 * 64 + b % 64) * 64 + c % 64

not_overlong :
    (a b c cp : ℕ)
    → three_code a b c ≡ cp
    → (224 ≤ a) × (a ≤ 239)
    → (128 ≤ b) × (b ≤ 191)
    → 2048 ≤ cp
    → (225 ≤ a) ⊎ (160 ≤ b)
not_overlong a b c cp code range tail fits = omega arith

not_surrogate :
    (a b c cp : ℕ)
    → three_code a b c ≡ cp
    → (128 ≤ b) × (b ≤ 191)
    → (128 ≤ c) × (c ≤ 191)
    → (cp < 55296) ⊎ (57343 < cp)
    → (a ≢ 237) ⊎ (b ≤ 159)
not_surrogate a b c cp code tail tail' fits = elim (Bool-cases (a == 237)) [
  | inl same ↦ let is_lead : a ≡ 237 = ground (arith, same) in inr (omega (arith, is_lead))
  | inr other ↦ inl (λ e. ground (arith, other, e))
]

three-IsUtf8 :
    (a : ℕ) (bytes after : List ℕ) (cp : ℕ)
    → (224 ≤ u8 a) × (u8 a ≤ 239)
    → continued 2 (u8 a % 16) bytes ≡ some (cp, after)
    → is_bad_code 2 cp ≡ false
    → IsUtf8 after
    → IsUtf8 (a ∷ bytes)
three-IsUtf8 a bytes after cp range e good v =
    let (b, rest, is_b, tail_b, e1) = continued-IsTail 1 (u8 a % 16) bytes cp after e in
    let cp1 = pushed (u8 a % 16) b in
    let (c, rest1, is_c, tail_c, e2) = continued-IsTail 0 cp1 rest cp after e1 in
    let (code, ends) = continued-end (pushed cp1 c) rest1 cp after e2 in
    let fits = good_three cp good in
    rw (is_b, is_c, ends)
      (three_bytes a b c after range (tail_b, tail_c)
        (not_overlong (u8 a) (u8 b) (u8 c) cp code range tail_b fits.0)
        (not_surrogate (u8 a) (u8 b) (u8 c) cp code tail_b tail_c fits.1) v)

four-IsUtf8 :
    (a : ℕ) (bytes after : List ℕ) (cp : ℕ)
    → (240 ≤ u8 a) × (u8 a ≤ 247)
    → continued 3 (u8 a % 8) bytes ≡ some (cp, after)
    → is_bad_code 3 cp ≡ false
    → IsUtf8 after
    → IsUtf8 (a ∷ bytes)
four-IsUtf8 a bytes after cp range e good v =
    let (b, rest, is_b, tail_b, e1) = continued-IsTail 2 (u8 a % 8) bytes cp after e in
    let cp1 = pushed (u8 a % 8) b in
    let (c, rest1, is_c, tail_c, e2) = continued-IsTail 1 cp1 rest cp after e1 in
    let cp2 = pushed cp1 c in
    let (d, rest2, is_d, tail_d, e3) = continued-IsTail 0 cp2 rest1 cp after e2 in
    let (code, ends) = continued-end (pushed cp2 d) rest2 cp after e3 in
    let fits : (65536 ≤ cp) × (cp ≤ 1114111) = unfold is_bad_code in ground (arith, good) in
    rw (is_b, is_c, is_d, ends)
      (four_bytes a b c d after (range.0, omega (arith, code, fits, range)) (tail_b, tail_c, tail_d)
        (omega (arith, code, fits, range, tail_b)) (omega (arith, code, fits, range, tail_b)) v)

-- What the first byte of a sequence says.
sequence-IsUtf8 :
    (a : ℕ) (bytes after : List ℕ)
    → sequence a bytes ≡ some after
    → IsUtf8 after
    → IsUtf8 (a ∷ bytes)
unfolding sequence lead
sequence-IsUtf8 a bytes after e v =
    let x = u8 a in
    let byte = u8-lt a in
    elim (Bool-cases (bit_and x 224 == 192)) [
      | inl is_two ↦
          let (cp, read, good) =
            checked 1 (continued 1 (bit_and x 31) bytes) after (rw (sequence, lead, is_two) at e) in
          two-IsUtf8 a bytes after cp
            (in_range 224 192 192 223 x two_table byte (ground (arith, is_two)))
            (rw (← two_bits x byte) read) good v
      | inr not_two ↦ elim (Bool-cases (bit_and x 240 == 224)) [
        | inl is_three ↦
            let (cp, read, good) =
              checked 2 (continued 2 (bit_and x 15) bytes) after
                (rw (sequence, lead, not_two, is_three) at e) in
            three-IsUtf8 a bytes after cp
              (in_range 240 224 224 239 x three_table byte (ground (arith, is_three)))
              (rw (← three_bits x byte) read) good v
        | inr not_three ↦ elim (Bool-cases (bit_and x 248 == 240)) [
          | inl is_four ↦
              let (cp, read, good) =
                checked 3 (continued 3 (bit_and x 7) bytes) after
                  (rw (sequence, lead, not_two, not_three, is_four) at e) in
              four-IsUtf8 a bytes after cp
                (in_range 248 240 240 247 x four_table byte (ground (arith, is_four)))
                (rw (← four_bits x byte) read) good v
          | inr not_four ↦ absurd (cc (rw (sequence, lead, not_two, not_three, not_four) at e))
        ]
      ]
    ]

utf8_loop-IsUtf8 : (fuel : ℕ) (bytes : List ℕ) → utf8_loop fuel bytes ≡ some true → IsUtf8 bytes
unfolding utf8_loop
utf8_loop-IsUtf8 zero bytes e = absurd (cc)
utf8_loop-IsUtf8 (suc fuel) [] e = ended
utf8_loop-IsUtf8 (suc fuel) (a ∷ bytes) e = elim (Bool-cases (leb (u8 a) 127)) [
  | inl low ↦
      let rest : utf8_loop fuel bytes ≡ some true = rw (utf8_loop, low) at e in
      ascii a bytes (ground (arith, low)) (utf8_loop-IsUtf8 fuel bytes rest)
  | inr high ↦ elim (Option-cases (sequence a bytes)) [
    | inl bad ↦ absurd (cc (rw (utf8_loop, high, bad) at e))
    | inr (after, good) ↦
        let rest : utf8_loop fuel after ≡ some true = rw (utf8_loop, high, good) at e in
        sequence-IsUtf8 a bytes after good (utf8_loop-IsUtf8 fuel after rest)
  ]
]

pub is_valid_utf8-IsUtf8 : (value : List ℕ) → is_valid_utf8 value ≡ some true → IsUtf8 value
unfolding is_valid_utf8
is_valid_utf8-IsUtf8 value e = utf8_loop-IsUtf8 (suc (length value)) value e
