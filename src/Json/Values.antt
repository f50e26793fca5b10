-- ===== src/Json/Values.antt =====
-- `parseValue`, `parseObject`, `parseArray` and `Parse`.
use ec_systemcore.Base.{
  ℕ, zero, suc, ◌+◌, ◌*◌, List, [], ◌∷◌, Option, Bool, true, false, not, ◌&&◌, ◌||◌, ltb, ◌==◌,
  if◌then◌else◌, length,
}
use ec_systemcore.Json.{
  Json, null, object, array, string, boolean, Object, no_members, member, Array, no_elements,
  element, Limits, JsonError, Cursor, Outcome, gave, threw, ran_out, bind, is_digit,
  skip_whitespace, next_is, get, expect, consume_literal,
}
use ec_systemcore.Json.Text.{parse_string}
use ec_systemcore.Json.Numbers.{parse_number, skip_one}

abbrev pub same_key : List ℕ → List ℕ → Bool
same_key [] [] = true
same_key (a ∷ as') (b ∷ bs) = a == b && same_key as' bs
same_key as' bs = false

abbrev pub has_key : List (List ℕ) → List ℕ → Bool
has_key [] key = false
has_key (k ∷ keys) key = same_key k key || has_key keys key

-- `parseObject`, given its loop.
unfoldable pub parse_object : (Cursor → Outcome Object) → Cursor → Outcome Json
parse_object members c = bind (expect 123 c) (λ u c1.
    let c2 = skip_whitespace c1 in
    if next_is (λ ch. ch == 125) c2.rest
    then gave (object no_members) (skip_one c2)
    else bind (members c2) (λ o c3. gave (object o) c3))

-- `parseArray`, given its loop.
unfoldable pub parse_array : (Cursor → Outcome Array) → Cursor → Outcome Json
parse_array elements c = bind (expect 91 c) (λ u c1.
    let c2 = skip_whitespace c1 in
    if next_is (λ ch. ch == 93) c2.rest
    then gave (array no_elements) (skip_one c2)
    else bind (elements c2) (λ a c3. gave (array a) c3))

module _ (to_double : List ℕ → Option ℕ) (limits : Limits) where
  -- The value that a first character begins.
  unfoldable pub token_value :
      (Cursor → Outcome Object) → (Cursor → Outcome Array) → ℕ → Cursor → Outcome Json
  token_value members elements ch c =
      if ch == 123
      then parse_object members c
      else if ch == 91
      then parse_array elements c
      else if ch == 34
      then bind (parse_string limits.maximum_string_bytes c) (λ text c'. gave (string text) c')
      else if ch == 116
      then bind (consume_literal (116 ∷ 114 ∷ 117 ∷ 101 ∷ []) c) (λ u c'. gave (boolean true) c')
      else if ch == 102
      then bind (consume_literal (102 ∷ 97 ∷ 108 ∷ 115 ∷ 101 ∷ []) c)
          (λ u c'. gave (boolean false) c')
      else if ch == 110
      then bind (consume_literal (110 ∷ 117 ∷ 108 ∷ 108 ∷ []) c) (λ u c'. gave null c')
      else if ch == 45 || is_digit ch
      then parse_number to_double c
      else threw JsonError.unexpected_token

  abbrev pub at_token :
      List ℕ → (Cursor → Outcome Object) → (Cursor → Outcome Array) → Cursor → Outcome Json
  at_token [] members elements c = threw JsonError.end_of_input
  at_token (ch ∷ rest) members elements c = token_value members elements ch c

  unfoldable mutual
    pub parse_value : ℕ → ℕ → Cursor → Outcome Json
    parse_value zero depth c = ran_out
    parse_value (suc fuel) depth c =
        let c1 = skip_whitespace (record c { node_count = c.node_count + 1 }) in
        if ltb limits.maximum_depth depth
        then threw JsonError.too_deep
        else if ltb limits.maximum_nodes (c.node_count + 1)
        then threw JsonError.too_many_nodes
        else at_token c1.rest (λ c'. parse_members fuel (depth + 1) [] c')
            (λ c'. parse_elements fuel (depth + 1) c') c1

    -- The loop of `parseObject`; `seen` has the keys before.
    pub parse_members : ℕ → ℕ → List (List ℕ) → Cursor → Outcome Object
    parse_members zero depth seen c = ran_out
    parse_members (suc fuel) depth seen c =
        let c1 = skip_whitespace c in
        if not (next_is (λ ch. ch == 34) c1.rest)
        then threw JsonError.key_not_string
        else bind (parse_string limits.maximum_string_bytes c1) (λ key c2.
          bind (expect 58 (skip_whitespace c2)) (λ u c3.
            bind (parse_value fuel depth c3) (λ value c4.
              if has_key seen key
              then threw JsonError.duplicate_key
              else bind (get (skip_whitespace c4)) (λ separator c5.
                if separator == 125
                then gave (member key value no_members) c5
                else if not (separator == 44)
                then threw JsonError.expected_object_separator
                else bind (parse_members fuel depth (key ∷ seen) c5)
                    (λ o c6. gave (member key value o) c6)))))

    -- The loop of `parseArray`.
    pub parse_elements : ℕ → ℕ → Cursor → Outcome Array
    parse_elements zero depth c = ran_out
    parse_elements (suc fuel) depth c = bind (parse_value fuel depth c) (λ value c1.
        bind (get (skip_whitespace c1)) (λ separator c2.
          if separator == 93
          then gave (element value no_elements) c2
          else if not (separator == 44)
          then threw JsonError.expected_array_separator
          else bind (parse_elements fuel depth c2) (λ a c3. gave (element value a) c3)))

  -- The whole text is one value.
  abbrev pub finish : Json → Cursor → Outcome Json
  finish value c =
      if next_is (λ ch. true) (skip_whitespace c).rest
      then threw JsonError.trailing_data
      else gave value (skip_whitespace c)

  unfoldable pub parse : List ℕ → Outcome Json
  parse text =
      if ltb limits.maximum_bytes (length text)
      then threw JsonError.input_too_large
      else if limits.maximum_depth == 0
          || limits.maximum_nodes == 0
          || limits.maximum_string_bytes == 0
      then threw JsonError.invalid_limits
      else bind (parse_value (suc (2 * length text)) 0 (record { rest = text; node_count = 0 }))
          finish
