-- ===== src/Base/Bits.antt =====
-- `|` of disjoint fields is a sum, at every width. The native `bit_or` stands for a recursion on
-- binary digits with fuel; the first lemmas drop the fuel.
use Prim.Native.Nat.{
  ℕ, zero, suc, ◌+◌, ◌*◌, ◌/◌, ◌%◌, ◌^◌, ◌≤◌, ◌<◌, max, bit_or, digits, bit_or-bitwise,
}
use mathlib.Core.Path.{◌≡◌, refl, ap, ap₂}
use native.Mathlib.Nat.{pow-suc}
use native.Mathlib.Omega.{arith}

abbrev or_digits : ℕ → ℕ → ℕ → ℕ
or_digits fuel a b = digits (λ rest. rest) max fuel a b

or_digits_fuel : (m n a b : ℕ) → a ≤ m → a ≤ n → or_digits m a b ≡ or_digits n a b
or_digits_fuel zero zero a b p q = refl
or_digits_fuel zero (suc n) zero b p q = refl
or_digits_fuel zero (suc n) (suc a) b p q = absurd (omega arith)
or_digits_fuel (suc m) zero zero b p q = refl
or_digits_fuel (suc m) zero (suc a) b p q = absurd (omega arith)
or_digits_fuel (suc m) (suc n) zero b p q = refl
or_digits_fuel (suc m) (suc n) (suc a) b p q =
    omega (arith, or_digits_fuel m n (suc a / 2) (b / 2) (omega arith) (omega arith))

bit_or_zero : (b : ℕ) → bit_or 0 b ≡ b
bit_or_zero b = bit_or-bitwise 0 b

bit_or_digit : (a b : ℕ) → bit_or a b ≡ bit_or (a / 2) (b / 2) * 2 + max (a % 2) (b % 2)
bit_or_digit zero b = omega (arith, bit_or_zero b, bit_or_zero (b / 2))
bit_or_digit (suc a) b = omega (
  arith,
  bit_or-bitwise (suc a) b,
  bit_or-bitwise (suc a / 2) (b / 2),
  or_digits_fuel a (suc a / 2) (suc a / 2) (b / 2) (omega arith) (omega arith),
)

-- `low | (high << k)` where `low` fits in `k` bits.
pub bit_or-eq-add : (k low high : ℕ) → low < 2 ^ k → bit_or low (high * 2 ^ k) ≡ low + high * 2 ^ k
bit_or-eq-add zero low high fits = ground (arith, bit_or_zero high)
bit_or-eq-add (suc k) low high fits = omega (
  arith,
  bit_or_digit low (high * 2 ^ suc k),
  ap (λ (t : ℕ). high * t) (pow-suc 2 k),
  pow-suc 2 k,
  halved,
  bit_or-eq-add k (low / 2) high (omega (arith, pow-suc 2 k)),
)
  where
    halved : bit_or (low / 2) (high * 2 ^ suc k / 2) ≡ bit_or (low / 2) (high * 2 ^ k)
    halved = ap (bit_or (low / 2)) (omega (arith, ap (λ (t : ℕ). high * t) (pow-suc 2 k)))

bit_or_least_below : (n a b : ℕ) → a ≤ n → (a ≤ bit_or a b) × (b ≤ bit_or a b)
bit_or_least_below zero a b h =
    let e : a ≡ 0 = omega arith in rw (e, bit_or_zero b) (omega arith, omega arith)
bit_or_least_below (suc n) zero b h = rw (bit_or_zero b) (omega arith, omega arith)
bit_or_least_below (suc n) (suc a) b h =
    let rest = bit_or_least_below n (suc a / 2) (b / 2) (omega arith) in
    (omega (arith, rest, bit_or_digit (suc a) b), omega (arith, rest, bit_or_digit (suc a) b))

-- `|` keeps the bits of both sides, so it is at least as large as each.
pub bit_or_least : (a b : ℕ) → (a ≤ bit_or a b) × (b ≤ bit_or a b)
bit_or_least a b = bit_or_least_below a a b (omega arith)

bit_or_comm_below : (n a b : ℕ) → a ≤ n → b ≤ n → bit_or a b ≡ bit_or b a
bit_or_comm_below zero a b h k = let e : a ≡ b = omega arith in ap₂ bit_or e (omega arith)
bit_or_comm_below (suc n) a b h k = omega (
  arith,
  bit_or_digit a b,
  bit_or_digit b a,
  bit_or_comm_below n (a / 2) (b / 2) (omega arith) (omega arith),
)

-- `(high << k) | low` where `low` fits in `k` bits.
pub bit_or_high-eq-add :
    (k low high : ℕ) → low < 2 ^ k → bit_or (high * 2 ^ k) low ≡ high * 2 ^ k + low
bit_or_high-eq-add k low high fits =
    let total = low + high * 2 ^ k in
    omega (
      arith,
      bit_or_comm_below total (high * 2 ^ k) low (omega arith) (omega arith),
      bit_or-eq-add k low high fits,
    )
