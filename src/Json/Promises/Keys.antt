-- ===== src/Json/Promises/Keys.antt =====
-- The keys of an object: the test of `parseObject` for a key that was there before.
use ec_systemcore.Base.{
  ℕ, ◌≡◌, ◌≢◌, refl, subst, List, [], ◌∷◌, Bool, true, false, ◌||◌, arith, All,
}
use ec_systemcore.Json.Values.{same_key, has_key}

same_key_refl : (key : List ℕ) → same_key key key ≡ true
same_key_refl [] = refl
same_key_refl (ch ∷ key) = ground (arith, same_key_refl key)

neither : (p q : Bool) → (p || q) ≡ false → (p ≡ false) × (q ≡ false)
neither p q h = ground arith

-- A key that the test does not find differs from every key before it.
pub fresh_key :
    (seen : List (List ℕ)) (key : List ℕ) → has_key seen key ≡ false → All (λ k. k ≢ key) seen
fresh_key [] key h = tt
fresh_key (k ∷ seen) key h =
    let (here, later) = neither (same_key k key) (has_key seen key) h in
    (
      λ e.
          let same : same_key key key ≡ false = subst (λ x. same_key x key ≡ false) e here in
          cc (same, same_key_refl key),
      fresh_key seen key later,
    )
