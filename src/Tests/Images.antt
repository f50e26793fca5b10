-- ===== src/Tests/Images.antt =====
-- The packed images at concrete inputs: seven bits that begin at bit 7 of the first byte.
use ec_systemcore.Base.{ℕ, ◌-◌, ◌≡◌, refl, true, false, List, [], ◌∷◌, some, arith}
use ec_systemcore.Safety.Pdo.{
  bit_at, has_canonical_pdo_padding, write_packed_pdo_image, zero_packed_pdo_image,
  read_packed_pdo_chunk,
}
use ec_systemcore.Safety.Pdo.Loops.{Written}
use ec_systemcore.Safety.Pdo.Images.{
  IsMapped, zero_packed_pdo_image-Written, write_packed_pdo_image-Written,
}
use ec_systemcore.Safety.Pdo.Reads.{
  IsChunk, read_packed_pdo_chunk-IsChunk, read-write_packed_pdo_image,
}

abbrev shared_bytes : List ℕ
shared_bytes = 129 ∷ 192 ∷ []

abbrev seven_bits : List ℕ
seven_bits = 85 ∷ []

shared_bytes-IsMapped : IsMapped shared_bytes 7 7
shared_bytes-IsMapped = record {
  start_fits = omega arith;
  size_is = refl;
  bytes_fit = ground arith;
}

seven_bits_padded : has_canonical_pdo_padding 7 seven_bits ≡ true
unfolding has_canonical_pdo_padding
seven_bits_padded = refl

zero_packed_pdo_image-Written_example :
    (m : List ℕ) × (zero_packed_pdo_image shared_bytes 7 7 ≡ some m)
    × Written shared_bytes m 7 7 (λ j. false)
zero_packed_pdo_image-Written_example =
    zero_packed_pdo_image-Written shared_bytes 7 7 shared_bytes-IsMapped

write_packed_pdo_image-Written_example :
    (m : List ℕ) × (write_packed_pdo_image shared_bytes 7 7 seven_bits ≡ some m)
    × Written shared_bytes m 7 7 (λ j. bit_at seven_bits (j - 7))
write_packed_pdo_image-Written_example =
    write_packed_pdo_image-Written shared_bytes seven_bits 7 7 shared_bytes-IsMapped (ground arith)
      seven_bits_padded

read_packed_pdo_chunk-IsChunk_example :
    (d : List ℕ) × (read_packed_pdo_chunk shared_bytes 7 7 0 1 ≡ some d)
    × IsChunk shared_bytes 7 7 0 1 d
read_packed_pdo_chunk-IsChunk_example =
    read_packed_pdo_chunk-IsChunk shared_bytes 7 7 0 1 shared_bytes-IsMapped (omega arith)

read-write_packed_pdo_image_example :
    (m : List ℕ) × (write_packed_pdo_image shared_bytes 7 7 seven_bits ≡ some m)
    × (read_packed_pdo_chunk m 7 7 0 1 ≡ some seven_bits)
read-write_packed_pdo_image_example =
    read-write_packed_pdo_image shared_bytes seven_bits 7 7 shared_bytes-IsMapped (ground arith)
      seven_bits_padded
