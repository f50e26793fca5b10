-- ===== src/Adapter/Text.antt =====
-- `TrimAscii`, `NormalizeMac` and `NormalizeUsbId` of
-- daemon/include/ec_systemcore/adapter_identity.hpp. A text is the list of its bytes; the tests on
-- characters are those of the C locale.
pub mod Mac
pub mod UsbId
use ec_systemcore.Base.{
  ℕ, ◌+◌, ◌-◌, ◌*◌, Bool, true, false, not, ◌&&◌, ◌||◌, List, [], ◌∷◌, ◌++◌, Option, none, some,
  leb, ◌==◌, if◌then◌else◌, length, drop, is_empty, bit_and, get_or, ◌>>=◌,
}

abbrev pub is_space : ℕ → Bool
is_space c = c == 32 || leb 9 c && leb c 13

abbrev pub is_digit : ℕ → Bool
is_digit c = leb b'0' c && leb c b'9'

abbrev pub is_xdigit : ℕ → Bool
is_xdigit c = is_digit c || leb b'a' c && leb c b'f' || leb b'A' c && leb c b'F'

abbrev pub to_lower : ℕ → ℕ
to_lower c = if leb b'A' c && leb c b'Z' then c + 32 else c

-- `std::all_of`
abbrev pub all_of : (ℕ → Bool) → List ℕ → Bool
all_of p [] = true
all_of p (c ∷ text) = p c && all_of p text

abbrev pub same_text : List ℕ → List ℕ → Bool
same_text [] [] = true
same_text (c ∷ s) (d ∷ t) = c == d && same_text s t
same_text s t = false

-- The text without its leading spaces, and without its trailing ones.
abbrev pub trim_front : List ℕ → List ℕ
trim_front [] = []
trim_front (c ∷ text) = if is_space c then trim_front text else c ∷ text

abbrev pub trim_back : List ℕ → List ℕ
trim_back [] = []
trim_back (c ∷ text) =
    let rest = trim_back text in if is_empty rest && is_space c then [] else c ∷ rest

abbrev pub trim_ascii : List ℕ → List ℕ
trim_ascii text = trim_back (trim_front text)

-- The loop that gathers the hexadecimal digits.
unfoldable pub gather : List ℕ → List ℕ → Option (List ℕ)
gather [] hexadecimal = some hexadecimal
gather (c ∷ text) hexadecimal =
    let pushed = gather text (hexadecimal ++ (to_lower c ∷ [])) in
    let skipped = gather text hexadecimal in
    if is_xdigit c
    then pushed
    else if not (c == b':') && not (c == b'-') && not (is_space c)
    then none
    else skipped

abbrev pub nibble : ℕ → ℕ
nibble c = if is_digit c then c - b'0' else c - b'a' + 10

abbrev pub first_byte : List ℕ → ℕ
first_byte hexadecimal = nibble (get_or hexadecimal 0 0) * 16 + nibble (get_or hexadecimal 1 0)

-- A multicast address, and the two addresses that no adapter has.
unfoldable pub is_no_station : List ℕ → Bool
is_no_station hexadecimal =
    not (bit_and (first_byte hexadecimal) 1 == 0)
    || all_of (λ c. c == b'0') hexadecimal
    || all_of (λ c. c == b'f') hexadecimal

-- The loop that writes the digits in pairs, with a colon between two pairs.
unfoldable pub paired : List ℕ → List ℕ → List ℕ
paired normalized (c ∷ d ∷ rest) =
    paired ((if is_empty normalized then [] else normalized ++ (b':' ∷ [])) ++ (c ∷ d ∷ [])) rest
paired normalized short = normalized

unfoldable pub normalize_mac : List ℕ → Option (List ℕ)
normalize_mac input = gather input [] >>= λ hexadecimal.
    if not (length hexadecimal == 12)
    then none
    else if is_no_station hexadecimal
    then none
    else some (paired [] hexadecimal)

abbrev pub starts_with : List ℕ → List ℕ → Bool
starts_with text [] = true
starts_with [] (p ∷ prefix) = false
starts_with (c ∷ text) (p ∷ prefix) = c == p && starts_with text prefix

abbrev pub without_prefix : List ℕ → List ℕ
without_prefix value =
    if starts_with value (b'0' ∷ b'x' ∷ []) || starts_with value (b'0' ∷ b'X' ∷ [])
    then drop 2 value
    else value

abbrev pub lower_all : List ℕ → List ℕ
lower_all [] = []
lower_all (c ∷ text) = to_lower c ∷ lower_all text

unfoldable pub normalize_usb_id : List ℕ → Option (List ℕ)
normalize_usb_id input =
    let value = without_prefix (trim_ascii input) in
    if not (length value == 4) || not (all_of is_xdigit value) then none else some (lower_all value)
