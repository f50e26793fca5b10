-- ===== src/Json/Moves.antt =====
-- How far the small steps of the JSON parser move its cursor.
use ec_systemcore.Base.{
  ℕ, ◌+◌, ◌≤◌, ◌≡◌, refl, ◌∙◌, List, [], ◌∷◌, Bool, true, ◌==◌, length, drop, arith,
}
use ec_systemcore.Json.{
  Cursor, get, get_from, expect, consume_literal, without_whitespace, skip_whitespace, next_is,
}
use ec_systemcore.Json.Holds.{Holds, it_gave, it_threw, bind-Holds, weaken-Holds, if-Holds}

-- At least `k` characters are read, and no value.
abbrev pub Moves : Cursor → ℕ → Cursor → Type 0
Moves c k c' = (length c'.rest + k ≤ length c.rest) × (c'.node_count ≡ c.node_count)

get_from-Moves :
    (text : List ℕ) (n : ℕ)
    → Holds (λ ch c'. (length c'.rest + 1 ≤ length text) × (c'.node_count ≡ n)) (get_from text n)
get_from-Moves [] n = it_threw
get_from-Moves (ch ∷ rest) n = it_gave (omega arith, refl)

pub get-Moves : (c : Cursor) → Holds (λ ch c'. Moves c 1 c') (get c)
unfolding get
get-Moves c = get_from-Moves c.rest c.node_count

pub expect-Moves : (expected : ℕ) (c : Cursor) → Holds (λ u c'. Moves c 1 c') (expect expected c)
unfolding expect
expect-Moves expected c =
    bind-Holds (get-Moves c)
      (λ ch c' moved. if-Holds (ch == expected) (λ e. it_gave moved) (λ e. it_threw))

pub consume_literal-Moves :
    (literal : List ℕ) (c : Cursor)
    → Holds (λ u c'. Moves c (length literal) c') (consume_literal literal c)
unfolding consume_literal
consume_literal-Moves [] c = it_gave (omega arith, refl)
consume_literal-Moves (expected ∷ literal) c = bind-Holds (get-Moves c) (λ ch c' moved.
    if-Holds (ch == expected)
      (λ e.
        weaken-Holds (consume_literal-Moves literal c')
          (λ u c'' more. (omega (arith, moved.0, more.0), more.1 ∙ moved.1)))
      (λ e. it_threw))

length-without_whitespace : (text : List ℕ) → length (without_whitespace text) ≤ length text
length-without_whitespace [] = omega arith
length-without_whitespace (ch ∷ rest) = ground (arith, length-without_whitespace rest)

pub skip_whitespace-Moves : (c : Cursor) → Moves c 0 (skip_whitespace c)
skip_whitespace-Moves c = (omega (arith, length-without_whitespace c.rest), refl)

-- Past a character that was seen.
pub drop-shorter :
    (p : ℕ → Bool) (text : List ℕ) → next_is p text ≡ true → length (drop 1 text) + 1 ≤ length text
drop-shorter p [] h = absurd (cc)
drop-shorter p (ch ∷ rest) h = omega arith
