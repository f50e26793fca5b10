-- ===== src/Safety/Pdo/Bits.antt =====
-- The bits of one byte, checked at every byte, and those of a string of bytes.
use ec_systemcore.Base.{
  ℕ, zero, suc, ◌+◌, ◌-◌, ◌*◌, ◌/◌, ◌%◌, ◌^◌, ◌≤◌, ◌<◌, ◌≡◌, refl, Bool, true, false, not, ◌&&◌,
  ◌||◌, List, [], ◌∷◌, ltb, ◌==◌, if◌then◌else◌, arith, all_below, all_below_sound, ==→eq, length,
  set, bit_and, get_or-set_self, get_or-set_ne, Bool-cases, inl, inr,
}
use ec_systemcore.Protocol.Bytes.{IsBytes, byte}
use ec_systemcore.Protocol.Bytes.Layout.{byte-lt}
use ec_systemcore.Safety.Pdo.{bit, put, bit_at, write_bit}

abbrev same : Bool → Bool → Bool
same true b = b
same false b = not b

same-eq : (a b : Bool) → same a b ≡ true → a ≡ b
same-eq a b h = ground arith

abbrev put_row : ℕ → ℕ → ℕ → Bool
put_row b k l =
    (ltb (put b k true) 256 && ltb (put b k false) 256)
    && (same (bit (put b k true) l) (l == k || bit b l)
        && same (bit (put b k false) l) (not (l == k) && bit b l))

put_table : all_below 256 (λ b. all_below 8 (λ k. all_below 8 (put_row b k))) ≡ true
unfolding all_below bit put
put_table = refl

module _ (b k l : ℕ) (hb : b < 256) (hk : k < 8) (hl : l < 8) where
  put_facts : put_row b k l ≡ true
  put_facts =
      all_below_sound 8 (put_row b k) l
        (all_below_sound 8 (λ (m : ℕ). all_below 8 (put_row b m)) k
          (all_below_sound 256 (λ (c : ℕ). all_below 8 (λ (m : ℕ). all_below 8 (put_row c m))) b
            put_table hb)
          hk)
        hl

  pub put-lt : (on : Bool) → put b k on < 256
  put-lt true = ground (arith, put_facts)
  put-lt false = ground (arith, put_facts)

  pub bit-put : (on : Bool) → bit (put b k on) l ≡ (if l == k then on else bit b l)
  bit-put true = ground (arith, put_facts)
  bit-put false = ground (arith, put_facts)

-- A byte is the sum of its bits.
abbrev weighted : Bool → ℕ → ℕ
weighted true w = w
weighted false w = 0

abbrev bit_sum : ℕ → ℕ
bit_sum b =
    weighted (bit b 0) 1
    + weighted (bit b 1) 2
    + weighted (bit b 2) 4
    + weighted (bit b 3) 8
    + weighted (bit b 4) 16
    + weighted (bit b 5) 32
    + weighted (bit b 6) 64
    + weighted (bit b 7) 128

bit_sum_table : all_below 256 (λ b. b == bit_sum b) ≡ true
unfolding all_below bit
bit_sum_table = refl

bit_sum_lem : (b : ℕ) → b < 256 → b ≡ bit_sum b
bit_sum_lem b h =
    ==→eq b (bit_sum b) (all_below_sound 256 (λ (c : ℕ). c == bit_sum c) b bit_sum_table h)

pub bit_ext : (a b : ℕ) → a < 256 → b < 256 → ((l : ℕ) → l < 8 → bit a l ≡ bit b l) → a ≡ b
bit_ext a b ha hb agree = ground (
  arith,
  bit_sum_lem a ha,
  bit_sum_lem b hb,
  agree 0 (omega arith),
  agree 1 (omega arith),
  agree 2 (omega arith),
  agree 3 (omega arith),
  agree 4 (omega arith),
  agree 5 (omega arith),
  agree 6 (omega arith),
  agree 7 (omega arith),
)

-- The masks of the low and of the high bits.
abbrev mask_row : ℕ → ℕ → ℕ → Bool
mask_row b used l =
    (ltb (bit_and b (2 ^ used - 1)) 256
      && same (bit (bit_and b (2 ^ used - 1)) l) (ltb l used && bit b l))
    && (not (bit_and b (255 * 2 ^ used % 256) == 0) || ltb l used || not (bit b l))

mask_table : all_below 256 (λ b. all_below 8 (λ used. all_below 8 (mask_row b used))) ≡ true
unfolding all_below bit
mask_table = refl

module _ (b used l : ℕ) (hb : b < 256) (hu : used < 8) (hl : l < 8) where
  mask_facts : mask_row b used l ≡ true
  mask_facts =
      all_below_sound 8 (mask_row b used) l
        (all_below_sound 8 (λ (m : ℕ). all_below 8 (mask_row b m)) used
          (all_below_sound 256 (λ (c : ℕ). all_below 8 (λ (m : ℕ). all_below 8 (mask_row c m))) b
            mask_table hb)
          hu)
        hl

  pub low_mask-lt : bit_and b (2 ^ used - 1) < 256
  low_mask-lt = ground (arith, mask_facts)

  pub bit-low_mask : bit (bit_and b (2 ^ used - 1)) l ≡ (ltb l used && bit b l)
  bit-low_mask = ground (arith, mask_facts)

  pub bit-high_mask : (bit_and b (255 * 2 ^ used % 256) == 0) ≡ true → used ≤ l → bit b l ≡ false
  bit-high_mask padded h = ground (arith, mask_facts)

bit_zero_table : all_below 8 (λ l. not (bit 0 l)) ≡ true
unfolding all_below bit
bit_zero_table = refl

pub bit_zero : (l : ℕ) → l < 8 → bit 0 l ≡ false
bit_zero l h = ground (arith, all_below_sound 8 (λ (m : ℕ). not (bit 0 m)) l bit_zero_table h)

pub set-IsBytes : (bytes : List ℕ) (i v : ℕ) → IsBytes bytes → v < 256 → IsBytes (set bytes i v)
set-IsBytes [] i v h k = h
set-IsBytes (b ∷ bytes) zero v h k = (k, h.1)
set-IsBytes (b ∷ bytes) (suc i) v h k = (h.0, set-IsBytes bytes i v h.1 k)

pub write_bit-IsBytes :
    (bytes : List ℕ) (i : ℕ) (on : Bool) → IsBytes bytes → IsBytes (write_bit bytes i on)
write_bit-IsBytes bytes i on h =
    set-IsBytes bytes (i / 8) (put (byte bytes (i / 8)) (i % 8) on) h (
      put-lt (byte bytes (i / 8)) (i % 8) 0 (byte-lt bytes (i / 8) h) (omega arith) (omega arith)
        on)

-- Writing one bit changes that bit alone.
pub bit_at-write_bit :
    (bytes : List ℕ) (i j : ℕ) (on : Bool)
    → IsBytes bytes
    → i < 8 * length bytes
    → bit_at (write_bit bytes i on) j ≡ (if j == i then on else bit_at bytes j)
bit_at-write_bit bytes i j on h inside = elim (Bool-cases (j / 8 == i / 8)) [
  | inl e ↦
      let same_byte : j / 8 ≡ i / 8 = ==→eq (j / 8) (i / 8) e in
      rw
        (
          same_byte,
          get_or-set_self bytes (i / 8) (put (byte bytes (i / 8)) (i % 8) on) 0 (omega arith),
        )
        (ground (
          arith,
          bit-put (byte bytes (i / 8)) (i % 8) (j % 8) (byte-lt bytes (i / 8) h) (omega arith)
              (omega arith) on,
        ))
  | inr e ↦
      rw
        (get_or-set_ne bytes (i / 8) (j / 8) (put (byte bytes (i / 8)) (i % 8) on) 0 (ground arith))
        (ground arith)
]
