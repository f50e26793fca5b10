-- ===== src/Safety/Pdo/Loops.antt =====
-- The loops over the bits of a packed image, bit by bit.
use ec_systemcore.Base.{
  ℕ, zero, suc, ◌+◌, ◌-◌, ◌*◌, ◌/◌, ◌%◌, ◌≤◌, ◌<◌, ◌≡◌, refl, ap, ◌∙◌, Bool, true, false, ◌&&◌,
  ◌||◌, List, ltb, leb, ◌==◌, if◌then◌else◌, arith, ==→eq, le→ltb_false, length, length-set,
  Bool-cases, inl, inr,
}
use ec_systemcore.Protocol.Bytes.{IsBytes, byte}
use ec_systemcore.Safety.Pdo.{
  bit, put, bit_at, write_bit, write_bits, zero_bits, read_bits, read_bytes,
}
use ec_systemcore.Safety.Pdo.Bits.{put-lt, bit-put, bit_zero, write_bit-IsBytes, bit_at-write_bit}

-- A loop that writes the bits `first` up to `first + rounds` leaves these there, and keeps the rest.
pub record Written (before after : List ℕ) (first rounds : ℕ) (source : ℕ → Bool) : Type 0 where
  pub bytes_fit : IsBytes after
  pub same_length : length after ≡ length before
  pub bits_are :
      (j : ℕ)
      → bit_at after j
        ≡ (if leb first j && ltb j (first + rounds) then source j else bit_at before j)

pub nothing-Written :
    (m : List ℕ) (first : ℕ) (source : ℕ → Bool) → IsBytes m → Written m m first 0 source
nothing-Written m first source h = record {
  bytes_fit = h;
  same_length = refl;
  bits_are = λ j. ground arith;
}

-- One bit more at the front.
one-Written :
    (m after : List ℕ) (first rounds : ℕ) (on : Bool) (source : ℕ → Bool)
    → IsBytes m
    → first < 8 * length m
    → on ≡ source first
    → Written (write_bit m first on) after (first + 1) rounds source
    → Written m after first (suc rounds) source
one-Written m after first rounds on source h inside e rest = record {
  bytes_fit = rest.bytes_fit;
  same_length =
      rest.same_length ∙ length-set m (first / 8) (put (byte m (first / 8)) (first % 8) on);
  bits_are = λ j.
      rest.bits_are j
      ∙ rw (bit_at-write_bit m first j on h inside) (elim (Bool-cases (j == first)) [
        | inl here ↦ let at : j ≡ first = ==→eq j first here in rw (at) (ground (arith, e))
        | inr other ↦ ground (arith, other)
      ]);
}

pub write_bits-Written :
    (rounds k start : ℕ) (image m : List ℕ)
    → IsBytes m
    → start + k + rounds ≤ 8 * length m
    → Written m
        (write_bits rounds k start image m)
        (start + k)
        rounds
        (λ j. bit_at image (j - start))
unfolding write_bits
write_bits-Written zero k start image m h fits =
    nothing-Written m (start + k) (λ j. bit_at image (j - start)) h
write_bits-Written (suc rounds) k start image m h fits =
    let back : start + k - start ≡ k = omega arith in
    let next : start + (k + 1) ≡ start + k + 1 = omega arith in
    let m' = write_bit m (start + k) (bit_at image k) in
    let shorter : length m' ≡ length m =
      length-set m ((start + k) / 8)
        (put (byte m ((start + k) / 8)) ((start + k) % 8) (bit_at image k)) in
    one-Written m (write_bits rounds (k + 1) start image m') (start + k) rounds (bit_at image k)
      (λ j. bit_at image (j - start)) h (omega arith) (rw back refl)
      (rw (← next) (
        write_bits-Written rounds (k + 1) start image m'
          (write_bit-IsBytes m (start + k) (bit_at image k) h) (omega arith)))

pub zero_bits-Written :
    (rounds k start : ℕ) (m : List ℕ)
    → IsBytes m
    → start + k + rounds ≤ 8 * length m
    → Written m (zero_bits rounds k start m) (start + k) rounds (λ j. false)
unfolding zero_bits
zero_bits-Written zero k start m h fits = nothing-Written m (start + k) (λ j. false) h
zero_bits-Written (suc rounds) k start m h fits =
    let next : start + (k + 1) ≡ start + k + 1 = omega arith in
    let m' = write_bit m (start + k) false in
    let shorter : length m' ≡ length m =
      length-set m ((start + k) / 8) (put (byte m ((start + k) / 8)) ((start + k) % 8) false) in
    one-Written m (zero_bits rounds (k + 1) start m') (start + k) rounds false (λ j. false) h
      (omega arith) refl
      (rw (← next) (
        zero_bits-Written rounds (k + 1) start m' (write_bit-IsBytes m (start + k) false h)
          (omega arith)))

-- One more bit of a byte that is gathered from its low end.
abbrev gathered : ℕ → ℕ → Bool → ℕ
gathered value k on = if on then put value k true else value

module _ (value k : ℕ) (hv : value < 256) (hk : k < 8) where
  gathered-lt : (on : Bool) → gathered value k on < 256
  gathered-lt true = put-lt value k 0 hv hk (omega arith) true
  gathered-lt false = hv

  bit-gathered :
      (on : Bool) (l : ℕ) → l < 8 → bit (gathered value k on) l ≡ (l == k && on || bit value l)
  bit-gathered true l h = ground (arith, bit-put value k l hv hk h true)
  bit-gathered false l h = ground arith

module _ (mapped : List ℕ) (start count : ℕ) where
  -- A bit of the image that the mapped bytes hold; behind the image there are zeros.
  abbrev pub image_bit : ℕ → Bool
  image_bit i = ltb i count && bit_at mapped (start + i)

  bit-read_bits :
      (rounds k first value : ℕ)
      → k + rounds ≡ 8
      → value < 256
      → ((l : ℕ) → l < 8 → k ≤ l → bit value l ≡ false)
      → (l : ℕ) → l < 8
      → bit (read_bits rounds k mapped start count first value) l
        ≡ (if ltb l k then bit value l else image_bit (first + l))
  unfolding read_bits
  bit-read_bits zero k first value e v high l h = ground arith
  bit-read_bits (suc rounds) k first value e v high l h =
      let on = bit_at mapped (start + (first + k)) in
      let next = gathered value k on in
      let small : k < 8 = omega arith in
      let tail =
        bit-read_bits rounds (k + 1) first next (omega arith) (gathered-lt value k v small on)
          (λ m hm above. ground (arith, bit-gathered value k v small on m hm, high m hm)) l h in
      elim (Bool-cases (leb count (first + k))) [
        | inl over ↦ rw over (ground (arith, over, high l h))
        | inr inside ↦
            rw (inside, tail)
              (elim (Bool-cases (l == k)) [
                | inl here ↦
                    let at : l ≡ k = ==→eq l k here in
                    rw at (
                      ground (arith, bit-gathered value k v small on k small, high k small, inside))
                | inr other ↦ ground (arith, bit-gathered value k v small on l h, other)
              ])
      ]

  read_bits-lt :
      (rounds k first value : ℕ)
      → k + rounds ≡ 8
      → value < 256
      → read_bits rounds k mapped start count first value < 256
  unfolding read_bits
  read_bits-lt zero k first value e v = v
  read_bits-lt (suc rounds) k first value e v =
      let on = bit_at mapped (start + (first + k)) in
      let tail =
        read_bits-lt rounds (k + 1) first (gathered value k on) (omega arith)
          (gathered-lt value k v (omega arith) on) in
      ground (arith, tail)

  pub length-read_bytes : (n first : ℕ) → length (read_bytes n mapped start count first) ≡ n
  unfolding read_bytes
  length-read_bytes zero first = refl
  length-read_bytes (suc n) first = omega (arith, length-read_bytes n (first + 8))

  pub read_bytes-IsBytes : (n first : ℕ) → IsBytes (read_bytes n mapped start count first)
  unfolding read_bytes
  read_bytes-IsBytes zero first = tt
  read_bytes-IsBytes (suc n) first =
      (read_bits-lt 8 0 first 0 refl (omega arith), read_bytes-IsBytes n (first + 8))

  byte-read_bytes :
      (n first i : ℕ)
      → i < n
      → byte (read_bytes n mapped start count first) i
        ≡ read_bits 8 0 mapped start count (first + 8 * i) 0
  unfolding read_bytes
  byte-read_bytes zero first i h = absurd (omega arith)
  byte-read_bytes (suc n) first zero h =
      let e : first ≡ first + 8 * 0 = omega arith in
      ap (λ f. read_bits 8 0 mapped start count f 0) e
  byte-read_bytes (suc n) first (suc i) h =
      let e : first + 8 + 8 * i ≡ first + 8 * suc i = omega arith in
      byte-read_bytes n (first + 8) i (omega arith)
      ∙ ap (λ f. read_bits 8 0 mapped start count f 0) e

  -- A bit of the bytes that are read.
  pub bit_at-read_bytes :
      (n first j : ℕ)
      → j < 8 * n
      → bit_at (read_bytes n mapped start count first) j ≡ image_bit (first + j)
  bit_at-read_bytes n first j h =
      let e : first + 8 * (j / 8) + j % 8 ≡ first + j = omega arith in
      rw (byte-read_bytes n first (j / 8) (omega arith)) (
        bit-read_bits 8 0 (first + 8 * (j / 8)) 0 refl (omega arith) (λ l h _. bit_zero l h) (j % 8)
          (omega arith)
        ∙ rw (le→ltb_false 0 (j % 8) (omega arith)) (ap image_bit e))
