-- ===== src/Json.antt =====
-- `Json` of daemon/include/ec_systemcore/mini_json.hpp: its values, and what the parser's parts share.
-- A text is a list of bytes. The cursor is the rest of the text from `offset_` on, with `nodeCount_`.
-- A number of floating point is the 64 bits of its representation.
pub mod Text
pub mod Numbers
pub mod Promises
pub mod Values
pub mod Holds
pub mod Moves
use ec_systemcore.Base.{
  ℕ, zero, suc, ◌+◌, List, [], ◌∷◌, Bool, true, false, not, ◌&&◌, ◌||◌, ltb, leb, ◌==◌,
  if◌then◌else◌,
}

mutual
  pub data Json : Type 0 where
    null : Json
    object : Object → Json
    array : Array → Json
    string : List ℕ → Json
    boolean : Bool → Json
    number : ℕ → List ℕ → Json

  -- The members in the order of the text; the keys are distinct, as in a map.
  pub data Object : Type 0 where
    no_members : Object
    member : List ℕ → Json → Object → Object

  pub data Array : Type 0 where
    no_elements : Array
    element : Json → Array → Array

pub record Limits : Type 0 where
  pub maximum_bytes : ℕ
  pub maximum_depth : ℕ
  pub maximum_nodes : ℕ
  pub maximum_string_bytes : ℕ

-- The exceptions of the parser, by their texts.
pub data JsonError : Type 0 where
  input_too_large invalid_limits trailing_data too_deep too_many_nodes end_of_input
        unexpected_token :
      JsonError
  key_not_string duplicate_key expected_object_separator expected_array_separator : JsonError
  malformed_utf8 control_character unsupported_escape unterminated_string string_too_long :
      JsonError
  invalid_unicode_escape invalid_surrogate_pair unpaired_low_surrogate : JsonError
  invalid_number leading_zero invalid_fraction invalid_exponent non_finite_number : JsonError
  invalid_literal unexpected_character : JsonError

pub record Cursor : Type 0 where
  pub rest : List ℕ
  pub node_count : ℕ

-- A value, an exception, or the fuel was not enough.
pub data Outcome {ℓ} (A : Type ℓ) : Type ℓ where
  gave : A → Cursor → Outcome A
  threw : JsonError → Outcome A
  ran_out : Outcome A

abbrev pub bind {ℓ κ} : {A : Type ℓ} {B : Type κ} → Outcome A → (A → Cursor → Outcome B) → Outcome B
bind (gave a c) next = next a c
bind (threw e) next = threw e
bind ran_out next = ran_out

abbrev pub is_digit : ℕ → Bool
is_digit character = leb 48 character && leb character 57

abbrev pub is_json_whitespace : ℕ → Bool
is_json_whitespace character =
    character == 32 || character == 9 || character == 13 || character == 10

abbrev pub without_whitespace : List ℕ → List ℕ
without_whitespace [] = []
without_whitespace (ch ∷ rest) =
    if is_json_whitespace ch then without_whitespace rest else ch ∷ rest

abbrev pub skip_whitespace : Cursor → Cursor
skip_whitespace c = record c { rest = without_whitespace c.rest }

-- `!finished() && p(peek())`
abbrev pub next_is : (ℕ → Bool) → List ℕ → Bool
next_is p [] = false
next_is p (ch ∷ rest) = p ch

abbrev pub get_from : List ℕ → ℕ → Outcome ℕ
get_from [] node_count = threw JsonError.end_of_input
get_from (ch ∷ rest) node_count = gave ch (record { rest = rest; node_count = node_count })

unfoldable pub get : Cursor → Outcome ℕ
get c = get_from c.rest c.node_count

unfoldable pub expect : ℕ → Cursor → Outcome (Unit {0})
expect expected c =
    bind (get c)
      (λ ch c'. if ch == expected then gave tt c' else threw JsonError.unexpected_character)

unfoldable pub consume_literal : List ℕ → Cursor → Outcome (Unit {0})
consume_literal [] c = gave tt c
consume_literal (expected ∷ literal) c = bind (get c) (λ ch c'.
    if ch == expected then consume_literal literal c' else threw JsonError.invalid_literal)
