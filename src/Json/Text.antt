-- ===== src/Json/Text.antt =====
-- The strings of a JSON text: escapes, UTF-8 and their greatest length.
pub mod Utf8
pub mod Valid
pub mod Moves
use ec_systemcore.Base.{
  ℕ, zero, suc, ◌+◌, ◌-◌, ◌*◌, ◌/◌, ◌%◌, List, [], ◌∷◌, ◌++◌, Option, none, some, Bool, true, false,
  not, ◌&&◌, ◌||◌, ltb, leb, ◌==◌, if◌then◌else◌, bit_and, bit_or, length,
}
use ec_systemcore.Json.{
  JsonError, Cursor, Outcome, gave, threw, ran_out, bind, get, expect, next_is,
}

-- The digit that a character stands for.
unfoldable pub hex_digit : ℕ → Option ℕ
hex_digit ch =
    if leb 48 ch && leb ch 57
    then some (ch - 48)
    else if leb 97 ch && leb ch 102
    then some (ch - 97 + 10)
    else if leb 65 ch && leb ch 70
    then some (ch - 65 + 10)
    else none

abbrev pub add_digit : ℕ → Option ℕ → Option ℕ
add_digit value none = none
add_digit value (some digit) = some ((value * 16 % 65536 + digit) % 65536)

unfoldable pub code_unit_digits : ℕ → ℕ → Cursor → Outcome ℕ
code_unit_digits zero value c = gave value c
code_unit_digits (suc n) value c = bind (get c) (λ ch c'. elim (add_digit value (hex_digit ch)) [
  | none ↦ threw JsonError.invalid_unicode_escape
  | some value' ↦ code_unit_digits n value' c'
])

unfoldable pub parse_unicode_code_unit : Cursor → Outcome ℕ
parse_unicode_code_unit c = code_unit_digits 4 0 c

-- The low half of a pair of surrogates.
unfoldable pub low_surrogate : ℕ → Cursor → Outcome ℕ
low_surrogate high c = bind (parse_unicode_code_unit c) (λ low c'.
    if ltb low 56320 || ltb 57343 low
    then threw JsonError.invalid_surrogate_pair
    else gave (65536 + (high - 55296) * 1024 + (low - 56320)) c')

abbrev pub escape_letter : Cursor → Outcome ℕ
escape_letter c = bind (get c) (λ backslash c1.
    if not (backslash == 92) then threw JsonError.invalid_surrogate_pair else get c1)

-- The code point that a first code unit begins.
unfoldable pub code_point : ℕ → Cursor → Outcome ℕ
code_point unit c =
    if leb 55296 unit && leb unit 56319
    then bind (escape_letter c) (λ letter c'.
      if not (letter == 117) then threw JsonError.invalid_surrogate_pair else low_surrogate unit c')
    else if leb 56320 unit && leb unit 57343
    then threw JsonError.unpaired_low_surrogate
    else gave unit c

-- The bytes of a code point in UTF-8.
unfoldable pub encoded_in_utf8 : ℕ → List ℕ
encoded_in_utf8 cp =
    if leb cp 127
    then cp ∷ []
    else if leb cp 2047
    then bit_or 192 (cp / 64) ∷ bit_or 128 (bit_and cp 63) ∷ []
    else if leb cp 65535
    then bit_or 224 (cp / 4096)
      ∷ bit_or 128 (bit_and (cp / 64) 63)
      ∷ bit_or 128 (bit_and cp 63)
      ∷ []
    else bit_or 240 (cp / 262144)
      ∷ bit_or 128 (bit_and (cp / 4096) 63)
      ∷ bit_or 128 (bit_and (cp / 64) 63)
      ∷ bit_or 128 (bit_and cp 63)
      ∷ []

-- `static_cast<std::uint8_t>`
abbrev pub u8 : ℕ → ℕ
u8 c = c % 256

-- The continuation bytes, with the code point before them.
unfoldable pub continued : ℕ → ℕ → List ℕ → Option (ℕ × List ℕ)
continued zero cp bytes = some (cp, bytes)
continued (suc n) cp [] = none
continued (suc n) cp (b ∷ bytes) =
    if bit_and (u8 b) 192 == 128
    then continued n (bit_or (cp * 64) (bit_and (u8 b) 63)) bytes
    else none

-- How many continuation bytes a first byte asks for, and its bits of the code point.
unfoldable pub lead : ℕ → Option (ℕ × ℕ)
lead first =
    if bit_and first 224 == 192
    then some (1, bit_and first 31)
    else if bit_and first 240 == 224
    then some (2, bit_and first 15)
    else if bit_and first 248 == 240
    then some (3, bit_and first 7)
    else none

-- Too long an encoding, too great, or a surrogate.
unfoldable pub is_bad_code : ℕ → ℕ → Bool
is_bad_code continuations cp =
    (continuations == 1 && ltb cp 128)
    || (continuations == 2 && ltb cp 2048)
    || (continuations == 3 && ltb cp 65536)
    || ltb 1114111 cp
    || (leb 55296 cp && leb cp 57343)

-- The sequence that a first byte above 127 begins; what follows it.
unfoldable pub sequence : ℕ → List ℕ → Option (List ℕ)
sequence first bytes = elim (lead (u8 first)) [
  | none ↦ none
  | some (continuations, bits) ↦ elim (continued continuations bits bytes) [
    | none ↦ none
    | some (cp, after) ↦ if is_bad_code continuations cp then none else some after
  ]
]

-- The loop of `isValidUtf8`; `none` means that the fuel ran out.
unfoldable pub utf8_loop : ℕ → List ℕ → Option Bool
utf8_loop zero bytes = none
utf8_loop (suc fuel) [] = some true
utf8_loop (suc fuel) (first ∷ bytes) =
    elim (if leb (u8 first) 127 then some bytes else sequence first bytes) [
      | none ↦ some false
      | some after ↦ utf8_loop fuel after
    ]

unfoldable pub is_valid_utf8 : List ℕ → Option Bool
is_valid_utf8 value = utf8_loop (suc (length value)) value

module _ (maximum_string_bytes : ℕ) where
  unfoldable pub append_byte : List ℕ → ℕ → Cursor → Outcome (List ℕ)
  append_byte value byte c =
      if leb maximum_string_bytes (length value)
      then threw JsonError.string_too_long
      else gave (value ++ (byte ∷ [])) c

  unfoldable pub append_encoded : List ℕ → List ℕ → Cursor → Outcome (List ℕ)
  append_encoded value bytes c =
      if ltb maximum_string_bytes (length bytes)
        || ltb (maximum_string_bytes - length bytes) (length value)
      then threw JsonError.string_too_long
      else gave (value ++ bytes) c

  unfoldable pub append_unicode_escape : List ℕ → Cursor → Outcome (List ℕ)
  append_unicode_escape value c =
      bind (parse_unicode_code_unit c) (λ unit c1.
        bind (code_point unit c1) (λ cp c2. append_encoded value (encoded_in_utf8 cp) c2))

  -- What follows a backslash.
  unfoldable pub append_escaped : List ℕ → ℕ → Cursor → Outcome (List ℕ)
  append_escaped value escaped c =
      if escaped == 34 || escaped == 92 || escaped == 47
      then append_byte value escaped c
      else if escaped == 98
      then append_byte value 8 c
      else if escaped == 102
      then append_byte value 12 c
      else if escaped == 110
      then append_byte value 10 c
      else if escaped == 114
      then append_byte value 13 c
      else if escaped == 116
      then append_byte value 9 c
      else if escaped == 117
      then append_unicode_escape value c
      else threw JsonError.unsupported_escape

  -- One character that does not end the string.
  unfoldable pub append_character : List ℕ → ℕ → Cursor → Outcome (List ℕ)
  append_character value ch c =
      if ltb ch 32
      then threw JsonError.control_character
      else if not (ch == 92)
      then append_byte value ch c
      else bind (get c) (λ escaped c'. append_escaped value escaped c')

  abbrev pub end_string : List ℕ → Option Bool → Cursor → Outcome (List ℕ)
  end_string value none c = ran_out
  end_string value (some true) c = gave value c
  end_string value (some false) c = threw JsonError.malformed_utf8

  -- The loop of `parseString`.
  unfoldable pub string_loop : ℕ → List ℕ → Cursor → Outcome (List ℕ)
  string_loop zero value c = ran_out
  string_loop (suc fuel) value c =
      if not (next_is (λ ch. true) c.rest)
      then threw JsonError.unterminated_string
      else bind (get c) (λ ch c1.
        if ch == 34
        then end_string value (is_valid_utf8 value) c1
        else bind (append_character value ch c1) (λ value' c2. string_loop fuel value' c2))

  unfoldable pub parse_string : Cursor → Outcome (List ℕ)
  parse_string c = bind (expect 34 c) (λ u c'. string_loop (suc (length c'.rest)) [] c')
