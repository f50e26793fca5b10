-- ===== src/Json/Promises/Counted.antt =====
-- A value by its first character, given what the loops over members and elements promise.
use ec_systemcore.Base.{
  ℕ, ◌+◌, ◌≤◌, ◌≡◌, refl, sym, subst, List, [], ◌∷◌, Option, true, false, ◌||◌, ◌==◌, length, arith,
}
use ec_systemcore.Json.{
  Json, null, string, boolean, number, Object, Array, Limits, Cursor, Outcome, is_digit,
  skip_whitespace, next_is,
}
use ec_systemcore.Json.Holds.{Holds, it_gave, it_threw, bind-Holds, weaken-Holds, if-Holds}
use ec_systemcore.Json.Moves.{
  Moves, expect-Moves, consume_literal-Moves, skip_whitespace-Moves, drop-shorter,
}
use ec_systemcore.Json.Text.Moves.{parse_string-IsText}
use ec_systemcore.Json.Values.{parse_object, parse_array, token_value, at_token}
use ec_systemcore.Json.Promises.{
  nodes, nodes_of_members, nodes_of_elements, Fits, FitsMembers, FitsElements,
}
use ec_systemcore.Json.Promises.Tokens.{IsNumber, parse_number-IsNumber}

module _ (limits : Limits) where
  pub record AreMembers (depth : ℕ) (seen : List (List ℕ)) (c : Cursor) (o : Object) (c' : Cursor)
      : Type 0 where
    pub shorter : length c'.rest + 1 ≤ length c.rest
    pub counted : c'.node_count ≡ c.node_count + nodes_of_members o
    pub within : c'.node_count ≤ limits.maximum_nodes
    pub fits : FitsMembers limits depth seen o

  pub record AreElements (depth : ℕ) (c : Cursor) (a : Array) (c' : Cursor) : Type 0 where
    pub shorter : length c'.rest + 1 ≤ length c.rest
    pub counted : c'.node_count ≡ c.node_count + nodes_of_elements a
    pub within : c'.node_count ≤ limits.maximum_nodes
    pub fits : FitsElements limits depth a

  -- What the loops promise, on the text that follows a bracket of `c`.
  abbrev pub MembersFrom : ℕ → Cursor → (Cursor → Outcome Object) → Type 0
  MembersFrom depth c members =
      (c' : Cursor)
      → length c'.rest + 1 ≤ length c.rest
      → Holds (AreMembers (depth + 1) [] c') (members c')

  abbrev pub ElementsFrom : ℕ → Cursor → (Cursor → Outcome Array) → Type 0
  ElementsFrom depth c elements =
      (c' : Cursor)
      → length c'.rest + 1 ≤ length c.rest
      → Holds (AreElements (depth + 1) c') (elements c')

  -- A value whose node was counted before `c`.
  pub record IsCounted (depth : ℕ) (c : Cursor) (v : Json) (c' : Cursor) : Type 0 where
    pub shorter : length c'.rest + 1 ≤ length c.rest
    pub counted : c'.node_count + 1 ≡ c.node_count + nodes v
    pub within : c'.node_count ≤ limits.maximum_nodes
    pub fits : Fits limits depth v

  parse_object-IsCounted :
      (members : Cursor → Outcome Object) (depth : ℕ) (c : Cursor)
      → depth ≤ limits.maximum_depth
      → c.node_count ≤ limits.maximum_nodes
      → MembersFrom depth c members
      → Holds (IsCounted depth c) (parse_object members c)
  unfolding parse_object nodes Fits
  parse_object-IsCounted members depth c deep few loop = bind-Holds (expect-Moves 123 c) (λ u c1 m1.
      let m2 = skip_whitespace-Moves c1 in
      let c2 = skip_whitespace c1 in
      if-Holds (next_is (λ ch. ch == 125) c2.rest)
        (λ e. it_gave (record {
          shorter = omega (arith, m1.0, m2.0, drop-shorter (λ ch. ch == 125) c2.rest e);
          counted = omega (arith, m1.1);
          within = omega (arith, m1.1, few);
          fits = (deep, tt);
        }))
        (λ e. bind-Holds (loop c2 (omega (arith, m1.0, m2.0))) (λ o c3 h. it_gave (record {
          shorter = omega (arith, m1.0, m2.0, h.shorter);
          counted = omega (arith, m1.1, h.counted);
          within = h.within;
          fits = (deep, h.fits);
        }))))

  parse_array-IsCounted :
      (elements : Cursor → Outcome Array) (depth : ℕ) (c : Cursor)
      → depth ≤ limits.maximum_depth
      → c.node_count ≤ limits.maximum_nodes
      → ElementsFrom depth c elements
      → Holds (IsCounted depth c) (parse_array elements c)
  unfolding parse_array nodes Fits
  parse_array-IsCounted elements depth c deep few loop = bind-Holds (expect-Moves 91 c) (λ u c1 m1.
      let m2 = skip_whitespace-Moves c1 in
      let c2 = skip_whitespace c1 in
      if-Holds (next_is (λ ch. ch == 93) c2.rest)
        (λ e. it_gave (record {
          shorter = omega (arith, m1.0, m2.0, drop-shorter (λ ch. ch == 93) c2.rest e);
          counted = omega (arith, m1.1);
          within = omega (arith, m1.1, few);
          fits = (deep, tt);
        }))
        (λ e. bind-Holds (loop c2 (omega (arith, m1.0, m2.0))) (λ a c3 h. it_gave (record {
          shorter = omega (arith, m1.0, m2.0, h.shorter);
          counted = omega (arith, m1.1, h.counted);
          within = h.within;
          fits = (deep, h.fits);
        }))))

  -- A value without parts, read with `k + 1` characters.
  leaf-IsCounted :
      (depth k : ℕ) (c c' : Cursor) (v : Json)
      → Moves c (k + 1) c'
      → c.node_count ≤ limits.maximum_nodes
      → nodes v ≡ 1
      → Fits limits depth v
      → IsCounted depth c v c'
  leaf-IsCounted depth k c c' v m few one fits = record {
    shorter = omega (arith, m.0);
    counted = omega (arith, m.1, one);
    within = omega (arith, m.1, few);
    fits = fits;
  }

  number-IsCounted :
      (depth : ℕ) (c c' : Cursor) (v : Json)
      → depth ≤ limits.maximum_depth
      → c.node_count ≤ limits.maximum_nodes
      → IsNumber v
      → Moves c 1 c'
      → IsCounted depth c v c'
  unfolding nodes Fits
  number-IsCounted depth c c' v deep few (value, lexeme, e) m =
      subst (λ v. IsCounted depth c v c') (sym e)
        (leaf-IsCounted depth 0 c c' (number value lexeme) m few refl deep)

  module _ (to_double : List ℕ → Option ℕ) where
    token_value-IsCounted :
        (members : Cursor → Outcome Object) (elements : Cursor → Outcome Array) (ch depth : ℕ)
        (c : Cursor)
        → depth ≤ limits.maximum_depth
        → c.node_count ≤ limits.maximum_nodes
        → MembersFrom depth c members
        → ElementsFrom depth c elements
        → Holds (IsCounted depth c) (token_value to_double limits members elements ch c)
    unfolding token_value nodes Fits
    token_value-IsCounted members elements ch depth c deep few loop_m loop_e =
        if-Holds (ch == 123) (λ e. parse_object-IsCounted members depth c deep few loop_m)
          (λ e.
            if-Holds (ch == 91) (λ e. parse_array-IsCounted elements depth c deep few loop_e)
              (λ e.
                if-Holds (ch == 34)
                  (λ e. bind-Holds (parse_string-IsText limits.maximum_string_bytes c) (λ text c' t.
                    it_gave (leaf-IsCounted depth 0 c c' (string text) t.1 few refl (deep, t.0))))
                  (λ e.
                    if-Holds (ch == 116)
                      (λ e.
                        bind-Holds (consume_literal-Moves (116 ∷ 114 ∷ 117 ∷ 101 ∷ []) c) (λ u c' m.
                          it_gave (leaf-IsCounted depth 3 c c' (boolean true) m few refl deep)))
                      (λ e.
                        if-Holds (ch == 102)
                          (λ e.
                            bind-Holds (consume_literal-Moves (102 ∷ 97 ∷ 108 ∷ 115 ∷ 101 ∷ []) c)
                              (λ u c' m.
                                it_gave
                                  (leaf-IsCounted depth 4 c c' (boolean false) m few refl deep)))
                          (λ e.
                            if-Holds (ch == 110)
                              (λ e.
                                bind-Holds (consume_literal-Moves (110 ∷ 117 ∷ 108 ∷ 108 ∷ []) c)
                                  (λ u c' m.
                                    it_gave (leaf-IsCounted depth 3 c c' null m few refl deep)))
                              (λ e.
                                if-Holds (ch == 45 || is_digit ch)
                                  (λ e.
                                    weaken-Holds (parse_number-IsNumber to_double c)
                                      (λ v c' h. number-IsCounted depth c c' v deep few h.0 h.1))
                                  (λ e. it_threw)))))))

    pub at_token-IsCounted :
        (text : List ℕ) (members : Cursor → Outcome Object) (elements : Cursor → Outcome Array)
        (depth : ℕ) (c : Cursor)
        → depth ≤ limits.maximum_depth
        → c.node_count ≤ limits.maximum_nodes
        → MembersFrom depth c members
        → ElementsFrom depth c elements
        → Holds (IsCounted depth c) (at_token to_double limits text members elements c)
    at_token-IsCounted [] members elements depth c deep few loop_m loop_e = it_threw
    at_token-IsCounted (ch ∷ rest) members elements depth c deep few loop_m loop_e =
        token_value-IsCounted members elements ch depth c deep few loop_m loop_e
