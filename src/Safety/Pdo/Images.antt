-- ===== src/Safety/Pdo/Images.antt =====
-- The packed images bit by bit: what writing, zeroing and reading do, and that they fit together.
use ec_systemcore.Base.{
  ℕ, zero, suc, ◌+◌, ◌-◌, ◌*◌, ◌/◌, ◌%◌, ◌≤◌, ◌<◌, ◌≡◌, refl, sym, Bool, true, false, ◌&&◌, List,
  [], ◌∷◌, ◌++◌, some, ltb, ◌==◌, arith, subst, length, take, drop, replicate, append-nil,
  drop-length, length-replicate, Bool-cases, inl, inr,
}
use ec_systemcore.Protocol.Bytes.{IsBytes, byte}
use ec_systemcore.Safety.Pdo.{
  bit_at, pdo_image_byte_length, pdo_mapped_byte_length, has_canonical_pdo_padding,
  write_packed_pdo_image, zero_packed_pdo_image, write_bits, zero_bits,
}
use ec_systemcore.Safety.Pdo.Bits.{bit_zero}
use ec_systemcore.Safety.Pdo.Loops.{Written, nothing-Written, write_bits-Written, zero_bits-Written}

-- A mapped image: where it begins, how many bits it has, and the bytes that it lies in.
pub record IsMapped (mapped : List ℕ) (start count : ℕ) : Type 0 where
  pub start_fits : start ≤ 7
  pub size_is : length mapped ≡ pdo_mapped_byte_length count start
  pub bytes_fit : IsBytes mapped

mapped_room :
    {mapped : List ℕ} {start count : ℕ}
    → IsMapped mapped start count
    → 0 < count
    → start + 0 + count ≤ 8 * length mapped
mapped_room {mapped} {start} {count} v h = ground (arith, v.start_fits, v.size_is)

byte-beyond : (m : List ℕ) (i : ℕ) → length m ≤ i → byte m i ≡ 0
byte-beyond [] i h = refl
byte-beyond (b ∷ m) zero h = absurd (omega arith)
byte-beyond (b ∷ m) (suc i) h = byte-beyond m i (omega arith)

-- A bit behind the last byte reads as zero.
bit_at-beyond : (m : List ℕ) (j : ℕ) → 8 * length m ≤ j → bit_at m j ≡ false
bit_at-beyond m j h = rw (byte-beyond m (j / 8) (omega arith)) (bit_zero (j % 8) (omega arith))

pub take-IsBytes : (n : ℕ) (m : List ℕ) → IsBytes m → IsBytes (take n m)
take-IsBytes zero m h = tt
take-IsBytes (suc n) [] h = tt
take-IsBytes (suc n) (b ∷ m) h = (h.0, take-IsBytes n m h.1)

replicate-IsBytes : (n : ℕ) → IsBytes (replicate n 0)
replicate-IsBytes zero = tt
replicate-IsBytes (suc n) = (omega arith, replicate-IsBytes n)

byte-replicate : (n i : ℕ) → byte (replicate n 0) i ≡ 0
byte-replicate zero i = refl
byte-replicate (suc n) zero = refl
byte-replicate (suc n) (suc i) = byte-replicate n i

-- The loop over a whole image, from its first bit.
zero_part :
    (count start : ℕ) (mapped : List ℕ)
    → IsMapped mapped start count
    → Written mapped (zero_bits count 0 start mapped) start count (λ j. false)
unfolding zero_bits
zero_part zero start mapped v = nothing-Written mapped start (λ j. false) v.bytes_fit
zero_part (suc n) start mapped v =
    let at : start + 0 ≡ start = omega arith in
    subst (λ f. Written mapped (zero_bits (suc n) 0 start mapped) f (suc n) (λ j. false)) at
      (zero_bits-Written (suc n) 0 start mapped v.bytes_fit (mapped_room v (omega arith)))

write_part :
    (count start : ℕ) (mapped image : List ℕ)
    → IsMapped mapped start count
    → Written mapped
        (write_bits count 0 start image mapped)
        start
        count
        (λ j. bit_at image (j - start))
unfolding write_bits
write_part zero start mapped image v =
    nothing-Written mapped start (λ j. bit_at image (j - start)) v.bytes_fit
write_part (suc n) start mapped image v =
    let at : start + 0 ≡ start = omega arith in
    subst
      (λ f.
        Written mapped (write_bits (suc n) 0 start image mapped) f (suc n)
          (λ j. bit_at image (j - start)))
      at (write_bits-Written (suc n) 0 start image mapped v.bytes_fit (mapped_room v (omega arith)))

-- An image that fills its bytes.
whole-Written :
    (mapped m : List ℕ) (count : ℕ) (source : ℕ → Bool)
    → IsBytes m
    → length m ≡ length mapped
    → count ≡ 8 * length mapped
    → ((j : ℕ) → j < count → bit_at m j ≡ source j)
    → Written mapped m 0 count source
whole-Written mapped m count source h e full agree = record {
  bytes_fit = h;
  same_length = e;
  bits_are = λ j. elim (Bool-cases (ltb j count)) [
    | inl below ↦ ground (arith, agree j (ground arith))
    | inr over ↦ ground (
      arith,
      bit_at-beyond m j (ground (arith, e, full, over)),
      bit_at-beyond mapped j (ground (arith, full, over)),
    )
  ];
}

-- Zeroing an image in mapped bytes of the right size, from any start bit below 8, succeeds, clears
-- the bits of the image, and leaves the neighbours' bits.
pub zero_packed_pdo_image-Written :
    (mapped : List ℕ) (start count : ℕ)
    → IsMapped mapped start count
    → (m : List ℕ) × (zero_packed_pdo_image mapped start count ≡ some m)
      × Written mapped m start count (λ j. false)
unfolding zero_packed_pdo_image
zero_packed_pdo_image-Written mapped start count v =
    elim (Bool-cases (start == 0 && count % 8 == 0)) [
      | inl whole ↦
          let at : start ≡ 0 = ground arith in
          let zeros : List ℕ = replicate (length mapped) 0 in
          (
            zeros,
            ground (arith, v.start_fits, v.size_is, whole),
            subst (λ f. Written mapped zeros f count (λ j. false)) (sym at)
                (whole-Written mapped zeros count (λ j. false) (replicate-IsBytes (length mapped))
                  (length-replicate (length mapped) 0) (ground (arith, v.size_is, whole))
                  (λ j h.
                    rw (byte-replicate (length mapped) (j / 8)) (bit_zero (j % 8) (omega arith)))),
          )
      | inr part ↦ (
        zero_bits count 0 start mapped,
        ground (arith, v.start_fits, v.size_is, part),
        zero_part count start mapped v,
      )
    ]

pub padded_size :
    (count : ℕ) (image : List ℕ)
    → has_canonical_pdo_padding count image ≡ true
    → length image ≡ pdo_image_byte_length count
unfolding has_canonical_pdo_padding
padded_size count image h = ground arith

-- Writing an image of the right size with zero padding into mapped bytes of the right size, from any
-- start bit below 8, succeeds, puts the image's bits at their place, and leaves the neighbours' bits.
pub write_packed_pdo_image-Written :
    (mapped image : List ℕ) (start count : ℕ)
    → IsMapped mapped start count
    → IsBytes image
    → has_canonical_pdo_padding count image ≡ true
    → (m : List ℕ) × (write_packed_pdo_image mapped start count image ≡ some m)
      × Written mapped m start count (λ j. bit_at image (j - start))
unfolding write_packed_pdo_image
write_packed_pdo_image-Written mapped image start count v h padded =
    elim (Bool-cases (start == 0 && count % 8 == 0)) [
      | inl whole ↦
          let at : start ≡ 0 = ground arith in
          let full : count ≡ 8 * length mapped = ground (arith, v.size_is, whole) in
          let size : length image ≡ length mapped =
            ground (arith, v.size_is, whole, padded_size count image padded) in
          let copied : image ++ drop (length image) mapped ≡ image =
            rw (drop-length (length image) mapped (omega arith)) (append-nil image) in
          (
            image,
            ground (arith, v.start_fits, v.size_is, whole, padded, copied),
            rw at (
                whole-Written mapped image count (λ j. bit_at image (j - 0)) h size full
                  (λ j below. let back : j - 0 ≡ j = omega arith in rw back refl)),
          )
      | inr part ↦ (
        write_bits count 0 start image mapped,
        ground (arith, v.start_fits, v.size_is, part, padded),
        write_part count start mapped image v,
      )
    ]
