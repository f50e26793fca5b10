-- ===== src/Json/Text/Moves.antt =====
-- Reading a string of a JSON text: it returns, moves on, and keeps to the greatest length.
use ec_systemcore.Base.{
  ℕ, zero, suc, ◌-◌, ◌≤◌, ◌<◌, ◌≡◌, refl, ◌∙◌, List, [], ◌∷◌, Option, none, some, Bool, true, false,
  not, ◌&&◌, ◌||◌, ltb, leb, ◌==◌, length, length-append, arith,
}
use ec_systemcore.Json.{JsonError, Cursor, threw, next_is}
use ec_systemcore.Json.Holds.{Holds, it_gave, it_threw, bind-Holds, weaken-Holds, if-Holds}
use ec_systemcore.Json.Moves.{Moves, get-Moves, expect-Moves}
use ec_systemcore.Json.Text.{
  hex_digit, add_digit, code_unit_digits, parse_unicode_code_unit, low_surrogate, escape_letter,
  code_point, encoded_in_utf8, append_byte, append_encoded, append_unicode_escape, append_escaped,
  append_character, end_string, string_loop, parse_string, is_valid_utf8,
}
use ec_systemcore.Json.Text.Utf8.{is_valid_utf8-returns}
use ec_systemcore.Json.Text.Valid.{IsUtf8, is_valid_utf8-IsUtf8}

-- What moves on by a step and then goes back nowhere.
pub trans-Moves : (c c1 c2 : Cursor) (k : ℕ) → Moves c k c1 → Moves c1 0 c2 → Moves c k c2
trans-Moves c c1 c2 k h1 h2 = (omega (arith, h1.0, h2.0), h2.1 ∙ h1.1)

pub weaken-Moves : (c c' : Cursor) (k : ℕ) → Moves c k c' → Moves c 0 c'
weaken-Moves c c' k h = (omega (arith, h.0), h.1)

digit_or_throw :
    (o : Option ℕ) (n : ℕ) (c c' : Cursor)
    → Moves c 1 c'
    → ((value : ℕ) → Holds (λ v c''. Moves c' 0 c'') (code_unit_digits n value c'))
    → Holds
        (λ v c''. Moves c 0 c'')
        (elim o [
          | none ↦ threw JsonError.invalid_unicode_escape
          | some value ↦ code_unit_digits n value c'
        ])
digit_or_throw none n c c' moved rest = it_threw
digit_or_throw (some value) n c c' moved rest =
    weaken-Holds (rest value)
      (λ v c'' more. weaken-Moves c c'' 1 (trans-Moves c c' c'' 1 moved more))

code_unit_digits-Moves :
    (n value : ℕ) (c : Cursor) → Holds (λ v c'. Moves c 0 c') (code_unit_digits n value c)
unfolding code_unit_digits
code_unit_digits-Moves zero value c = it_gave (omega arith, refl)
code_unit_digits-Moves (suc n) value c = bind-Holds (get-Moves c) (λ ch c' moved.
    digit_or_throw (add_digit value (hex_digit ch)) n c c' moved
      (λ value'. code_unit_digits-Moves n value' c'))

unit-Moves : (c : Cursor) → Holds (λ v c'. Moves c 0 c') (parse_unicode_code_unit c)
unfolding parse_unicode_code_unit
unit-Moves c = code_unit_digits-Moves 4 0 c

low_surrogate-Moves : (high : ℕ) (c : Cursor) → Holds (λ v c'. Moves c 0 c') (low_surrogate high c)
unfolding low_surrogate
low_surrogate-Moves high c =
    bind-Holds (unit-Moves c) (λ low c' moved.
      if-Holds (ltb low 56320 || ltb 57343 low) (λ e. it_threw) (λ e. it_gave moved))

escape_letter-Moves : (c : Cursor) → Holds (λ v c'. Moves c 0 c') (escape_letter c)
escape_letter-Moves c = bind-Holds (get-Moves c) (λ b c1 moved.
    if-Holds (not (b == 92)) (λ e. it_threw)
      (λ e.
        weaken-Holds (get-Moves c1)
          (λ v c2 more. (omega (arith, moved.0, more.0), more.1 ∙ moved.1))))

code_point-Moves : (unit : ℕ) (c : Cursor) → Holds (λ v c'. Moves c 0 c') (code_point unit c)
unfolding code_point
code_point-Moves unit c =
    if-Holds (leb 55296 unit && leb unit 56319)
      (λ e. bind-Holds (escape_letter-Moves c) (λ letter c' moved.
        if-Holds (not (letter == 117)) (λ e'. it_threw)
          (λ e'.
            weaken-Holds (low_surrogate-Moves unit c')
              (λ v c'' more. trans-Moves c c' c'' 0 moved more))))
      (λ e.
        if-Holds (leb 56320 unit && leb unit 57343) (λ e'. it_threw)
          (λ e'. it_gave (omega arith, refl)))

module _ (limit : ℕ) where
  -- The text is not too long, and the cursor not behind.
  abbrev Longer : Cursor → List ℕ → Cursor → Type 0
  Longer c value c' = (length value ≤ limit) × Moves c 0 c'

  append_byte-Longer :
      (value : List ℕ) (byte : ℕ) (c : Cursor) → Holds (Longer c) (append_byte limit value byte c)
  unfolding append_byte
  append_byte-Longer value byte c =
      if-Holds (leb limit (length value)) (λ e. it_threw)
        (λ e. it_gave (ground (arith, e, length-append value (byte ∷ [])), (omega arith, refl)))

  append_encoded-Longer :
      (value bytes : List ℕ) (c : Cursor) → Holds (Longer c) (append_encoded limit value bytes c)
  unfolding append_encoded
  append_encoded-Longer value bytes c =
      if-Holds (ltb limit (length bytes) || ltb (limit - length bytes) (length value))
        (λ e. it_threw)
        (λ e. it_gave (ground (arith, e, length-append value bytes), (omega arith, refl)))

  append_unicode_escape-Longer :
      (value : List ℕ) (c : Cursor) → Holds (Longer c) (append_unicode_escape limit value c)
  unfolding append_unicode_escape
  append_unicode_escape-Longer value c = bind-Holds (unit-Moves c) (λ unit c1 m1.
      bind-Holds (code_point-Moves unit c1) (λ cp c2 m2.
        weaken-Holds (append_encoded-Longer value (encoded_in_utf8 cp) c2)
          (λ v c3 h. (h.0, trans-Moves c c1 c3 0 m1 (trans-Moves c1 c2 c3 0 m2 h.1)))))

  append_escaped-Longer :
      (value : List ℕ) (escaped : ℕ) (c : Cursor)
      → Holds (Longer c) (append_escaped limit value escaped c)
  unfolding append_escaped
  append_escaped-Longer value escaped c =
      if-Holds (escaped == 34 || escaped == 92 || escaped == 47)
        (λ e. append_byte-Longer value escaped c)
        (λ e.
          if-Holds (escaped == 98) (λ e. append_byte-Longer value 8 c)
            (λ e.
              if-Holds (escaped == 102) (λ e. append_byte-Longer value 12 c)
                (λ e.
                  if-Holds (escaped == 110) (λ e. append_byte-Longer value 10 c)
                    (λ e.
                      if-Holds (escaped == 114) (λ e. append_byte-Longer value 13 c)
                        (λ e.
                          if-Holds (escaped == 116) (λ e. append_byte-Longer value 9 c)
                            (λ e.
                              if-Holds (escaped == 117) (λ e. append_unicode_escape-Longer value c)
                                (λ e. it_threw)))))))

  append_character-Longer :
      (value : List ℕ) (ch : ℕ) (c : Cursor) → Holds (Longer c) (append_character limit value ch c)
  unfolding append_character
  append_character-Longer value ch c =
      if-Holds (ltb ch 32) (λ e. it_threw)
        (λ e.
          if-Holds (not (ch == 92)) (λ e. append_byte-Longer value ch c)
            (λ e. bind-Holds (get-Moves c) (λ escaped c' m.
              weaken-Holds (append_escaped-Longer value escaped c')
                (λ v c'' h. (h.0, weaken-Moves c c'' 1 (trans-Moves c c' c'' 1 m h.1))))))

  -- A string of the text: well-formed UTF-8 and not too long.
  abbrev pub IsText : List ℕ → Type 0
  IsText value = (length value ≤ limit) × IsUtf8 value

  end_string-IsText :
      (value : List ℕ) (o : Option Bool) (b : Bool) (c : Cursor)
      → length value ≤ limit
      → is_valid_utf8 value ≡ o
      → o ≡ some b
      → Holds (λ v c'. IsText v × Moves c 0 c') (end_string limit value o c)
  end_string-IsText value none b c h same e = absurd (cc)
  end_string-IsText value (some true) b c h same e =
      it_gave ((h, is_valid_utf8-IsUtf8 value same), (omega arith, refl))
  end_string-IsText value (some false) b c h same e = it_threw

  string_loop-IsText :
      (fuel : ℕ) (value : List ℕ) (c : Cursor)
      → length c.rest < fuel
      → length value ≤ limit
      → Holds (λ v c'. IsText v × Moves c 0 c') (string_loop limit fuel value c)
  unfolding string_loop
  string_loop-IsText zero value c h k = absurd (omega arith)
  string_loop-IsText (suc fuel) value c h k =
      if-Holds (not (next_is (λ ch. true) c.rest)) (λ e. it_threw)
        (λ e. bind-Holds (get-Moves c) (λ ch c1 m.
          if-Holds (ch == 34)
            (λ e1.
              let (b, returned) = is_valid_utf8-returns value in
              weaken-Holds (end_string-IsText value (is_valid_utf8 value) b c1 k refl returned)
                (λ v c2 t. (t.0, weaken-Moves c c2 1 (trans-Moves c c1 c2 1 m t.1))))
            (λ e1. bind-Holds (append_character-Longer value ch c1) (λ value' c2 longer.
              weaken-Holds
                (string_loop-IsText fuel value' c2 (omega (arith, h, m.0, longer.1.0)) longer.0)
                (λ v c3 t. (
                  t.0,
                  weaken-Moves c c3 1
                      (trans-Moves c c1 c3 1 m (trans-Moves c1 c2 c3 0 longer.1 t.1)),
                ))))))

  -- Reading a string returns; the string is valid and not too long.
  pub parse_string-IsText :
      (c : Cursor) → Holds (λ v c'. IsText v × Moves c 1 c') (parse_string limit c)
  unfolding parse_string
  parse_string-IsText c = bind-Holds (expect-Moves 34 c) (λ u c1 m.
      weaken-Holds (string_loop-IsText (suc (length c1.rest)) [] c1 (omega arith) (omega arith))
        (λ v c2 t. (t.0, trans-Moves c c1 c2 1 m t.1)))
