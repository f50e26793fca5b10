-- ===== src/Safety/Pdo.antt =====
-- The packed PDO images of daemon/include/ec_systemcore/safety.hpp. An image in the IPC is a string
-- of bits, the first one at bit 0 of byte 0; a mapped image begins at a bit of its first byte, and
-- shares its first and last byte with the neighbours. A function that writes through a span returns
-- the bytes that it leaves, and `none` where the source returns false and writes nothing.
pub mod Bits
pub mod Loops
pub mod Images
pub mod Reads
use ec_systemcore.Base.{
  ℕ, zero, suc, ◌+◌, ◌-◌, ◌*◌, ◌/◌, ◌%◌, ◌^◌, Bool, true, false, not, ◌&&◌, ◌||◌, List, [], ◌∷◌,
  ◌++◌, Option, none, some, ltb, leb, ◌==◌, if◌then◌else◌, length, take, drop, set, replicate,
  is_empty, bit_and, bit_or,
}
use ec_systemcore.Protocol.Bytes.{byte}

abbrev pub pdo_image_byte_length : ℕ → ℕ
pdo_image_byte_length bit_count = (bit_count + 7) / 8

abbrev pub pdo_mapped_byte_length : ℕ → ℕ → ℕ
pdo_mapped_byte_length bit_count start_bit =
    if bit_count == 0 || ltb 7 start_bit then 0 else (start_bit + bit_count + 7) / 8

unfoldable pub is_valid_soem_pdo_metadata : ℕ → ℕ → ℕ → Bool
is_valid_soem_pdo_metadata bit_count byte_count start_bit =
    if ltb 7 start_bit
    then false
    else if bit_count == 0
    then byte_count == 0 && start_bit == 0
    else let expected_bytes = if ltb 7 bit_count then pdo_image_byte_length bit_count else 0 in
      byte_count == expected_bytes && (leb bit_count 7 || start_bit == 0)

-- `image.back()` of an image that is not empty
abbrev pub back : List ℕ → ℕ
back image = byte image (length image - 1)

unfoldable pub has_canonical_pdo_padding : ℕ → List ℕ → Bool
has_canonical_pdo_padding bit_count image =
    let used_bits = bit_count % 8 in
    if not (length image == pdo_image_byte_length bit_count)
    then false
    else if bit_count == 0
    then is_empty image
    else if used_bits == 0
    then true
    else bit_and (back image) (255 * 2 ^ used_bits % 256) == 0

-- `(value & (1U << k)) != 0`
unfoldable pub bit : ℕ → ℕ → Bool
bit value k = not (bit_and value (2 ^ k) == 0)

-- `value |= 1U << k`, or `value &= ~(1U << k)`
unfoldable pub put : ℕ → ℕ → Bool → ℕ
put value k on = if on then bit_or value (2 ^ k) else bit_and value (255 - 2 ^ k)

-- Bit `i` of a string of bytes, and the bytes with it written.
abbrev pub bit_at : List ℕ → ℕ → Bool
bit_at bytes i = bit (byte bytes (i / 8)) (i % 8)

abbrev pub write_bit : List ℕ → ℕ → Bool → List ℕ
write_bit bytes i on = set bytes (i / 8) (put (byte bytes (i / 8)) (i % 8) on)

-- The loop over the bits of one byte of the destination, by the rounds that are left.
unfoldable pub read_bits : ℕ → ℕ → List ℕ → ℕ → ℕ → ℕ → ℕ → ℕ
read_bits zero k mapped start_bit bit_count first value = value
read_bits (suc rounds) k mapped start_bit bit_count first value =
    let rest =
      read_bits rounds (k + 1) mapped start_bit bit_count first
        (if bit_at mapped (start_bit + (first + k)) then put value k true else value) in
    if leb bit_count (first + k) then value else rest

-- The loop over the bytes of the destination; `first` is the first bit of the next byte.
unfoldable pub read_bytes : ℕ → List ℕ → ℕ → ℕ → ℕ → List ℕ
read_bytes zero mapped start_bit bit_count first = []
read_bytes (suc n) mapped start_bit bit_count first =
    read_bits 8 0 mapped start_bit bit_count first 0
    ∷ read_bytes n mapped start_bit bit_count (first + 8)

-- `destination.back() &= (1U << used_bits) - 1U` where the copy ends with the image's last byte
unfoldable pub mask_last : ℕ → ℕ → List ℕ → List ℕ
mask_last bit_count offset copied =
    let used_bits = bit_count % 8 in
    if not (used_bits == 0)
      && not (is_empty copied)
      && offset + length copied == pdo_image_byte_length bit_count
    then set copied (length copied - 1) (bit_and (back copied) (2 ^ used_bits - 1))
    else copied

-- The destination is given by its size.
unfoldable pub read_packed_pdo_chunk : List ℕ → ℕ → ℕ → ℕ → ℕ → Option (List ℕ)
read_packed_pdo_chunk mapped start_bit bit_count offset size =
    let image_bytes = pdo_image_byte_length bit_count in
    if ltb 7 start_bit
      || not (length mapped == pdo_mapped_byte_length bit_count start_bit)
      || ltb image_bytes offset
      || ltb (image_bytes - offset) size
    then none
    else if start_bit == 0
    then some (mask_last bit_count offset (take size (drop offset mapped)))
    else some (read_bytes size mapped start_bit bit_count (offset * 8))

-- The loop over the bits of the image, by the rounds that are left.
unfoldable pub write_bits : ℕ → ℕ → ℕ → List ℕ → List ℕ → List ℕ
write_bits zero k start_bit image mapped = mapped
write_bits (suc rounds) k start_bit image mapped =
    write_bits rounds (k + 1) start_bit image (write_bit mapped (start_bit + k) (bit_at image k))

unfoldable pub write_packed_pdo_image : List ℕ → ℕ → ℕ → List ℕ → Option (List ℕ)
write_packed_pdo_image mapped start_bit bit_count image =
    if ltb 7 start_bit
      || not (length mapped == pdo_mapped_byte_length bit_count start_bit)
      || not (has_canonical_pdo_padding bit_count image)
    then none
    else if start_bit == 0 && bit_count % 8 == 0
    then some (image ++ drop (length image) mapped)
    else some (write_bits bit_count 0 start_bit image mapped)

unfoldable pub zero_bits : ℕ → ℕ → ℕ → List ℕ → List ℕ
zero_bits zero k start_bit mapped = mapped
zero_bits (suc rounds) k start_bit mapped =
    zero_bits rounds (k + 1) start_bit (write_bit mapped (start_bit + k) false)

unfoldable pub zero_packed_pdo_image : List ℕ → ℕ → ℕ → Option (List ℕ)
zero_packed_pdo_image mapped start_bit bit_count =
    if ltb 7 start_bit || not (length mapped == pdo_mapped_byte_length bit_count start_bit)
    then none
    else if start_bit == 0 && bit_count % 8 == 0
    then some (replicate (length mapped) 0)
    else some (zero_bits bit_count 0 start_bit mapped)
