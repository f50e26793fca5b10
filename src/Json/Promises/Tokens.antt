-- ===== src/Json/Promises/Tokens.antt =====
-- Reading a number, and the tokens of a value.
use ec_systemcore.Base.{
  ℕ, ◌+◌, ◌-◌, ◌≤◌, ◌≡◌, refl, List, [], ◌∷◌, Option, none, some, Bool, true, false, not, ◌||◌,
  ◌==◌, if◌then◌else◌, length, take, drop, arith,
}
use ec_systemcore.Json.{Json, number, JsonError, Cursor, is_digit, next_is}
use ec_systemcore.Json.Holds.{Holds, it_gave, it_threw, bind-Holds, weaken-Holds, if-Holds}
use ec_systemcore.Json.Moves.{Moves, drop-shorter}
use ec_systemcore.Json.Numbers.{
  without_digits, skip_one, some_digits, integer_part, fraction_part, exponent_part, number_of,
  parse_number,
}
use ec_systemcore.Json.Text.Moves.{trans-Moves}

length-without_digits : (text : List ℕ) → length (without_digits text) ≤ length text
length-without_digits [] = omega arith
length-without_digits (ch ∷ rest) = ground (arith, length-without_digits rest)

skip_digits-shorter :
    (text : List ℕ) → next_is is_digit text ≡ true → length (without_digits text) + 1 ≤ length text
skip_digits-shorter [] h = absurd (cc)
skip_digits-shorter (ch ∷ rest) h = ground (arith, h, length-without_digits rest)

length-drop_one : (text : List ℕ) → length (drop 1 text) ≤ length text
length-drop_one [] = omega arith
length-drop_one (ch ∷ rest) = omega arith

skip_one-Moves : (c : Cursor) → Moves c 0 (skip_one c)
skip_one-Moves c = (omega (arith, length-drop_one c.rest), refl)

if-Moves : (b : Bool) (c : Cursor) → Moves c 0 (if b then skip_one c else c)
if-Moves true c = skip_one-Moves c
if-Moves false c = (omega arith, refl)

some_digits-Moves : (e : JsonError) (c : Cursor) → Holds (λ u c'. Moves c 0 c') (some_digits e c)
unfolding some_digits
some_digits-Moves e c =
    if-Holds (not (next_is is_digit c.rest)) (λ h. it_threw)
      (λ h. it_gave (omega (arith, length-without_digits c.rest), refl))

integer_part-Moves : (c : Cursor) → Holds (λ u c'. Moves c 1 c') (integer_part c)
unfolding integer_part
integer_part-Moves c =
    let signed = next_is (λ ch. ch == 45) c.rest in
    let c0 = if signed then skip_one c else c in
    let m = if-Moves signed c in
    if-Holds (not (next_is is_digit c0.rest)) (λ h. it_threw)
      (λ h.
        if-Holds (next_is (λ ch. ch == 48) c0.rest)
          (λ nought.
            if-Holds (next_is is_digit (skip_one c0).rest) (λ k. it_threw)
              (λ k.
                it_gave (omega (arith, m.0, drop-shorter (λ ch. ch == 48) c0.rest nought), m.1)))
          (λ other.
            let digit : next_is is_digit c0.rest ≡ true = ground (arith, h) in
            it_gave (omega (arith, m.0, skip_digits-shorter c0.rest digit), m.1)))

fraction_part-Moves : (c : Cursor) → Holds (λ u c'. Moves c 0 c') (fraction_part c)
unfolding fraction_part
fraction_part-Moves c =
    if-Holds (next_is (λ ch. ch == 46) c.rest)
      (λ h.
        weaken-Holds (some_digits-Moves JsonError.invalid_fraction (skip_one c))
          (λ u c' m. trans-Moves c (skip_one c) c' 0 (skip_one-Moves c) m))
      (λ h. it_gave (omega arith, refl))

exponent_part-Moves : (c : Cursor) → Holds (λ u c'. Moves c 0 c') (exponent_part c)
unfolding exponent_part
exponent_part-Moves c =
    let c1 = skip_one c in
    let signed = next_is (λ ch. ch == 43 || ch == 45) c1.rest in
    let c2 = if signed then skip_one c1 else c1 in
    if-Holds (next_is (λ ch. ch == 101 || ch == 69) c.rest)
      (λ h. weaken-Holds (some_digits-Moves JsonError.invalid_exponent c2) (λ u c' m.
        trans-Moves c c1 c' 0 (skip_one-Moves c) (trans-Moves c1 c2 c' 0 (if-Moves signed c1) m)))
      (λ h. it_gave (omega arith, refl))

abbrev pub IsNumber : Json → Type 0
IsNumber v = (value : ℕ) × (lexeme : List ℕ) × (v ≡ number value lexeme)

number_of-IsNumber :
    (to_double : List ℕ → Option ℕ) (lexeme : List ℕ) (o : Option ℕ) (c c' : Cursor)
    → Moves c 1 c'
    → Holds (λ v c''. IsNumber v × Moves c 1 c'') (number_of to_double lexeme o c')
number_of-IsNumber to_double lexeme none c c' m = it_threw
number_of-IsNumber to_double lexeme (some value) c c' m =
    it_gave {a = number value lexeme} ((value, lexeme, refl), m)

pub parse_number-IsNumber :
    (to_double : List ℕ → Option ℕ) (c : Cursor)
    → Holds (λ v c'. IsNumber v × Moves c 1 c') (parse_number to_double c)
unfolding parse_number
parse_number-IsNumber to_double c = bind-Holds (integer_part-Moves c) (λ u1 c1 m1.
    bind-Holds (fraction_part-Moves c1) (λ u2 c2 m2.
      bind-Holds (exponent_part-Moves c2) (λ u3 c3 m3.
        let lexeme = take (length c.rest - length c3.rest) c.rest in
        number_of-IsNumber to_double lexeme (to_double lexeme) c c3
          (trans-Moves c c1 c3 1 m1 (trans-Moves c1 c2 c3 0 m2 m3)))))
