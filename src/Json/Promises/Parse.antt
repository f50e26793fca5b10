-- ===== src/Json/Promises/Parse.antt =====
-- The parser returns on every text, and what it gives keeps to the limits.
use ec_systemcore.Base.{
  ℕ, zero, suc, ◌+◌, ◌*◌, ◌≤◌, ◌<◌, ◌≡◌, List, [], ◌∷◌, Option, true, not, ◌||◌, ltb, ◌==◌, length,
  arith,
}
use ec_systemcore.Json.{Json, Limits, Cursor, skip_whitespace, next_is}
use ec_systemcore.Json.Holds.{Holds, it_gave, it_threw, bind-Holds, weaken-Holds, if-Holds}
use ec_systemcore.Json.Moves.{get-Moves, expect-Moves, skip_whitespace-Moves}
use ec_systemcore.Json.Text.Moves.{parse_string-IsText}
use ec_systemcore.Json.Values.{has_key, parse_value, parse_members, parse_elements, parse}
use ec_systemcore.Json.Promises.{
  nodes, nodes_of_members, nodes_of_elements, Fits, FitsMembers, FitsElements,
}
use ec_systemcore.Json.Promises.Keys.{fresh_key}
use ec_systemcore.Json.Promises.Counted.{AreMembers, AreElements, at_token-IsCounted}

module _ (limits : Limits) where
  record IsValue (depth : ℕ) (c : Cursor) (v : Json) (c' : Cursor) : Type 0 where
    pub shorter : length c'.rest + 1 ≤ length c.rest
    pub counted : c'.node_count ≡ c.node_count + nodes v
    pub within : c'.node_count ≤ limits.maximum_nodes
    pub fits : Fits limits depth v

  module _ (to_double : List ℕ → Option ℕ) where
    -- With enough fuel, the loops and the value promise what they should.
    mutual
      unfolding parse_value parse_members parse_elements nodes_of_members nodes_of_elements
          FitsMembers FitsElements

      parse_value-IsValue :
          (fuel depth : ℕ) (c : Cursor)
          → 2 * length c.rest < fuel
          → Holds (IsValue depth c) (parse_value to_double limits fuel depth c)
      parse_value-IsValue zero depth c h = absurd (omega arith)
      parse_value-IsValue (suc fuel) depth c h =
          let c0 : Cursor = record c { node_count = c.node_count + 1 } in
          let c1 = skip_whitespace c0 in
          let m = skip_whitespace-Moves c0 in
          if-Holds (ltb limits.maximum_depth depth) (λ e. it_threw)
            (λ shallow.
              if-Holds (ltb limits.maximum_nodes (c.node_count + 1)) (λ e. it_threw)
                (λ few.
                  weaken-Holds
                    (at_token-IsCounted limits to_double c1.rest
                      (λ c'. parse_members to_double limits fuel (depth + 1) [] c')
                      (λ c'. parse_elements to_double limits fuel (depth + 1) c') depth c1
                      (ground (arith, shallow)) (ground (arith, few))
                      (λ c' k.
                        parse_members-AreMembers fuel (depth + 1) [] c' (omega (arith, h, m.0, k)))
                      (λ c' k.
                        parse_elements-AreElements fuel (depth + 1) c' (omega (arith, h, m.0, k))))
                    (λ v c2 i. record {
                      shorter = omega (arith, m.0, i.shorter);
                      counted = omega (arith, i.counted);
                      within = i.within;
                      fits = i.fits;
                    })))

      parse_members-AreMembers :
          (fuel depth : ℕ) (seen : List (List ℕ)) (c : Cursor)
          → 2 * length c.rest + 1 < fuel
          → Holds
              (AreMembers limits depth seen c)
              (parse_members to_double limits fuel depth seen c)
      parse_members-AreMembers zero depth seen c h = absurd (omega arith)
      parse_members-AreMembers (suc fuel) depth seen c h =
          let c1 = skip_whitespace c in
          let m1 = skip_whitespace-Moves c in
          if-Holds (not (next_is (λ ch. ch == 34) c1.rest)) (λ e. it_threw)
            (λ e. bind-Holds (parse_string-IsText limits.maximum_string_bytes c1) (λ key c2 t.
              let m2 = skip_whitespace-Moves c2 in
              bind-Holds (expect-Moves 58 (skip_whitespace c2)) (λ u c3 m3.
                bind-Holds
                  (parse_value-IsValue fuel depth c3 (omega (arith, h, m1.0, t.1.0, m2.0, m3.0)))
                  (λ value c4 v.
                    let m4 = skip_whitespace-Moves c4 in
                    if-Holds (has_key seen key) (λ e1. it_threw)
                      (λ fresh. bind-Holds (get-Moves (skip_whitespace c4)) (λ separator c5 m5.
                        if-Holds (separator == 125)
                          (λ e2. it_gave (record {
                            shorter = omega (arith, m1.0, t.1.0, m2.0, m3.0, v.shorter, m4.0, m5.0);
                            counted = omega (arith, t.1.1, m3.1, v.counted, m5.1);
                            within = omega (arith, m5.1, v.within);
                            fits = (fresh_key seen key fresh, (t.0, (v.fits, tt)));
                          }))
                          (λ e2.
                            if-Holds (not (separator == 44)) (λ e3. it_threw)
                              (λ e3.
                                bind-Holds
                                  (parse_members-AreMembers fuel depth (key ∷ seen) c5 (
                                    omega
                                      (arith, h, m1.0, t.1.0, m2.0, m3.0, v.shorter, m4.0, m5.0)))
                                  (λ o c6 r. it_gave (record {
                                    shorter = omega (
                                      arith, m1.0, t.1.0, m2.0, m3.0, v.shorter, m4.0, m5.0,
                                      r.shorter,
                                    );
                                    counted =
                                        omega (arith, t.1.1, m3.1, v.counted, m5.1, r.counted);
                                    within = r.within;
                                    fits = (fresh_key seen key fresh, (t.0, (v.fits, r.fits)));
                                  }))))))))))

      parse_elements-AreElements :
          (fuel depth : ℕ) (c : Cursor)
          → 2 * length c.rest + 1 < fuel
          → Holds (AreElements limits depth c) (parse_elements to_double limits fuel depth c)
      parse_elements-AreElements zero depth c h = absurd (omega arith)
      parse_elements-AreElements (suc fuel) depth c h =
          bind-Holds (parse_value-IsValue fuel depth c (omega (arith, h))) (λ value c1 v.
            let m1 = skip_whitespace-Moves c1 in
            bind-Holds (get-Moves (skip_whitespace c1)) (λ separator c2 m2.
              if-Holds (separator == 93)
                (λ e. it_gave (record {
                  shorter = omega (arith, v.shorter, m1.0, m2.0);
                  counted = omega (arith, v.counted, m2.1);
                  within = omega (arith, m2.1, v.within);
                  fits = (v.fits, tt);
                }))
                (λ e.
                  if-Holds (not (separator == 44)) (λ e1. it_threw)
                    (λ e1.
                      bind-Holds
                        (parse_elements-AreElements fuel depth c2
                          (omega (arith, h, v.shorter, m1.0, m2.0)))
                        (λ a c3 r. it_gave (record {
                          shorter = omega (arith, v.shorter, m1.0, m2.0, r.shorter);
                          counted = omega (arith, v.counted, m2.1, r.counted);
                          within = r.within;
                          fits = (v.fits, r.fits);
                        }))))))

    -- For every text and every limits, the parser returns: it throws, or it gives a value of at most the
    -- permitted number of nodes that is nowhere deeper than permitted, whose strings and keys are valid
    -- UTF-8 and not too long, and whose objects have distinct keys; the text is then within its limit.
    pub parse-Fits :
        (text : List ℕ)
        → Holds
            (λ v c.
              (length text ≤ limits.maximum_bytes)
              × (nodes v ≤ limits.maximum_nodes)
              × Fits limits 0 v)
            (parse to_double limits text)
    unfolding parse
    parse-Fits text =
        let c : Cursor = record { rest = text; node_count = 0 } in
        if-Holds (ltb limits.maximum_bytes (length text)) (λ e. it_threw)
          (λ small.
            if-Holds
              (limits.maximum_depth == 0
                || limits.maximum_nodes == 0
                || limits.maximum_string_bytes == 0)
              (λ e. it_threw)
              (λ e.
                bind-Holds (parse_value-IsValue (suc (2 * length text)) 0 c (omega arith))
                  (λ v c' i.
                    if-Holds (next_is (λ ch. true) (skip_whitespace c').rest) (λ e1. it_threw)
                      (λ e1.
                        it_gave
                          (ground (arith, small), omega (arith, i.counted, i.within), i.fits)))))
