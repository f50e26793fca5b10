-- ===== src/Tests/Json.antt =====
-- The parser of JSON texts at a concrete text.
use ec_systemcore.Base.{ℕ, ◌≤◌, List, [], ◌∷◌, Option, some, length}
use ec_systemcore.Json.{Limits}
use ec_systemcore.Json.Holds.{Holds}
use ec_systemcore.Json.Values.{parse}
use ec_systemcore.Json.Promises.{nodes, Fits}
use ec_systemcore.Json.Promises.Parse.{parse-Fits}

abbrev small : Limits
small = record {
  maximum_bytes = 100;
  maximum_depth = 2;
  maximum_nodes = 5;
  maximum_string_bytes = 10;
}

-- An object with the key `a` and an array of 1 and true.
abbrev text : List ℕ
text = 123 ∷ 34 ∷ 97 ∷ 34 ∷ 58 ∷ 91 ∷ 49 ∷ 44 ∷ 32 ∷ 116 ∷ 114 ∷ 117 ∷ 101 ∷ 93 ∷ 125 ∷ []

-- Every number is read as zero.
abbrev as_zero : List ℕ → Option ℕ
as_zero lexeme = some 0

parse-Fits_example :
    Holds (λ v c. (length text ≤ 100) × (nodes v ≤ 5) × Fits small 0 v) (parse as_zero small text)
parse-Fits_example = parse-Fits small as_zero text
