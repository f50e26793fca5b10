-- ===== src/Json/Numbers.antt =====
-- `parseNumber`: the syntax of a number and its text. The conversion to floating point is a parameter,
-- `none` where it fails, stops early or is not finite.
use ec_systemcore.Base.{
  ℕ, ◌-◌, List, [], ◌∷◌, Option, none, some, not, ◌||◌, ◌==◌, if◌then◌else◌, length, take, drop,
}
use ec_systemcore.Json.{
  Json, number, JsonError, Cursor, Outcome, gave, threw, bind, is_digit, next_is,
}

abbrev pub without_digits : List ℕ → List ℕ
without_digits [] = []
without_digits (ch ∷ rest) = if is_digit ch then without_digits rest else ch ∷ rest

-- One character fewer.
abbrev pub skip_one : Cursor → Cursor
skip_one c = record c { rest = drop 1 c.rest }

abbrev pub skip_digits : Cursor → Cursor
skip_digits c = record c { rest = without_digits c.rest }

-- At least one digit, or the exception.
unfoldable pub some_digits : JsonError → Cursor → Outcome (Unit {0})
some_digits e c = if not (next_is is_digit c.rest) then threw e else gave tt (skip_digits c)

unfoldable pub integer_part : Cursor → Outcome (Unit {0})
integer_part c =
    let c0 = if next_is (λ ch. ch == 45) c.rest then skip_one c else c in
    if not (next_is is_digit c0.rest)
    then threw JsonError.invalid_number
    else if next_is (λ ch. ch == 48) c0.rest
    then if next_is is_digit (skip_one c0).rest
      then threw JsonError.leading_zero
      else gave tt (skip_one c0)
    else gave tt (skip_digits c0)

unfoldable pub fraction_part : Cursor → Outcome (Unit {0})
fraction_part c =
    if next_is (λ ch. ch == 46) c.rest
    then some_digits JsonError.invalid_fraction (skip_one c)
    else gave tt c

unfoldable pub exponent_part : Cursor → Outcome (Unit {0})
exponent_part c =
    let c1 = skip_one c in
    if next_is (λ ch. ch == 101 || ch == 69) c.rest
    then some_digits JsonError.invalid_exponent
        (if next_is (λ ch. ch == 43 || ch == 45) c1.rest then skip_one c1 else c1)
    else gave tt c

module _ (to_double : List ℕ → Option ℕ) where
  abbrev pub number_of : List ℕ → Option ℕ → Cursor → Outcome Json
  number_of lexeme none c = threw JsonError.non_finite_number
  number_of lexeme (some value) c = gave (number value lexeme) c

  unfoldable pub parse_number : Cursor → Outcome Json
  parse_number c = bind (integer_part c) (λ u1 c1. bind (fraction_part c1) (λ u2 c2.
      bind (exponent_part c2) (λ u3 c3.
        let lexeme = take (length c.rest - length c3.rest) c.rest in
        number_of lexeme (to_double lexeme) c3)))
