-- ===== src/Json/Promises.antt =====
-- What the JSON parser keeps to: its limits, valid strings and distinct keys.
pub mod Keys
pub mod Tokens
pub mod Counted
pub mod Parse
use ec_systemcore.Base.{ℕ, ◌+◌, ◌≤◌, ◌≢◌, List, [], ◌∷◌, All}
use ec_systemcore.Json.{
  Json, null, object, array, string, boolean, number, Object, no_members, member, Array,
  no_elements, element, Limits,
}
use ec_systemcore.Json.Text.Moves.{IsText}

-- How many values there are, this one and the ones in it.
mutual
  pub nodes : Json → ℕ
  nodes null = 1
  nodes (object o) = 1 + nodes_of_members o
  nodes (array a) = 1 + nodes_of_elements a
  nodes (string text) = 1
  nodes (boolean b) = 1
  nodes (number value lexeme) = 1

  pub nodes_of_members : Object → ℕ
  nodes_of_members no_members = 0
  nodes_of_members (member key value rest) = nodes value + nodes_of_members rest

  pub nodes_of_elements : Array → ℕ
  nodes_of_elements no_elements = 0
  nodes_of_elements (element value rest) = nodes value + nodes_of_elements rest

-- A value at this depth: nothing in it is too deep, its strings and keys are texts, and the keys of an
-- object are distinct.
mutual
  pub Fits : Limits → ℕ → Json → Type 0
  Fits limits depth null = depth ≤ limits.maximum_depth
  Fits limits depth (object o) =
      (depth ≤ limits.maximum_depth) × FitsMembers limits (depth + 1) [] o
  Fits limits depth (array a) = (depth ≤ limits.maximum_depth) × FitsElements limits (depth + 1) a
  Fits limits depth (string text) =
      (depth ≤ limits.maximum_depth) × IsText limits.maximum_string_bytes text
  Fits limits depth (boolean b) = depth ≤ limits.maximum_depth
  Fits limits depth (number value lexeme) = depth ≤ limits.maximum_depth

  -- `seen` has the keys before these members.
  pub FitsMembers : Limits → ℕ → List (List ℕ) → Object → Type 0
  FitsMembers limits depth seen no_members = Unit
  FitsMembers limits depth seen (member key value rest) =
      All (λ k. k ≢ key) seen
      × (IsText limits.maximum_string_bytes key
          × (Fits limits depth value × FitsMembers limits depth (key ∷ seen) rest))

  pub FitsElements : Limits → ℕ → Array → Type 0
  FitsElements limits depth no_elements = Unit
  FitsElements limits depth (element value rest) =
      Fits limits depth value × FitsElements limits depth rest
