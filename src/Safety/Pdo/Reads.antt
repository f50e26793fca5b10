-- ===== src/Safety/Pdo/Reads.antt =====
-- What reading a chunk of a packed image gives, and that it gives back what was written.
use ec_systemcore.Base.{
  ℕ, ◌+◌, ◌-◌, ◌*◌, ◌/◌, ◌%◌, ◌^◌, ◌≤◌, ◌<◌, ◌≡◌, refl, sym, ap, ◌∙◌, true, false, not, ◌&&◌, List,
  [], ◌∷◌, some, ltb, leb, ◌==◌, if◌then◌else◌, arith, ==→eq, subst, length, set, take, drop,
  is_empty, All-drop, get_or-drop, get_or-take, get_or_ext, get_or-set_self, get_or-set_ne,
  length-set, length-take, length-drop, Bool-cases, inl, inr, ◌⊎◌, bit_and,
}
use ec_systemcore.Protocol.Bytes.{IsBytes, byte}
use ec_systemcore.Protocol.Bytes.Layout.{byte-lt}
use ec_systemcore.Safety.Pdo.{
  bit, bit_at, pdo_image_byte_length, has_canonical_pdo_padding, back, mask_last,
  write_packed_pdo_image, read_packed_pdo_chunk, read_bytes,
}
use ec_systemcore.Safety.Pdo.Bits.{bit_ext, bit-low_mask, bit-high_mask, low_mask-lt, set-IsBytes}
use ec_systemcore.Safety.Pdo.Loops.{
  Written, image_bit, length-read_bytes, read_bytes-IsBytes, bit_at-read_bytes,
}
use ec_systemcore.Safety.Pdo.Images.{
  IsMapped, take-IsBytes, padded_size, write_packed_pdo_image-Written,
}

is_empty-eq : (m : List ℕ) → is_empty m ≡ (length m == 0)
is_empty-eq [] = refl
is_empty-eq (b ∷ m) = ground arith

-- A chunk of the image of `count` bits in `mapped`, from byte `offset` on.
pub record IsChunk (mapped : List ℕ) (start count offset size : ℕ) (d : List ℕ) : Type 0 where
  pub bytes_fit : IsBytes d
  pub size_is : length d ≡ size
  pub bits_are : (j : ℕ) → j < 8 * size → bit_at d j ≡ image_bit mapped start count (offset * 8 + j)

-- The bytes of an aligned image, before the last one is masked.
module _ (mapped : List ℕ) (count offset size : ℕ) (h : IsBytes mapped)
    (room : offset + size ≤ length mapped)
    (fits : length mapped ≡ pdo_image_byte_length count) where
  abbrev copied : List ℕ
  copied = take size (drop offset mapped)

  length-copied : length copied ≡ size
  length-copied = length-take size (drop offset mapped) (omega (arith, length-drop offset mapped))

  copied-IsBytes : IsBytes copied
  copied-IsBytes = take-IsBytes size (drop offset mapped) (All-drop (λ b. b < 256) offset mapped h)

  byte-copied : (i : ℕ) → i < size → byte copied i ≡ byte mapped (offset + i)
  byte-copied i below =
      get_or-take size i (drop offset mapped) 0 below ∙ get_or-drop offset i mapped 0

  bit_at-copied : (j : ℕ) → j < 8 * size → bit_at copied j ≡ bit_at mapped (offset * 8 + j)
  bit_at-copied j below =
      let whole : (offset * 8 + j) / 8 ≡ offset + j / 8 = omega arith in
      let rest : (offset * 8 + j) % 8 ≡ j % 8 = omega arith in
      rw (whole, rest, byte-copied (j / 8) (omega arith)) refl

  masked : ℕ → List ℕ
  masked used = set copied (length copied - 1) (bit_and (back copied) (2 ^ used - 1))

  bit_at-masked :
      (used j : ℕ)
      → used < 8
      → 0 < size
      → j < 8 * size
      → bit_at (masked used) j ≡ (
          if j / 8 == size - 1
          then ltb (j % 8) used && bit_at mapped (offset * 8 + j)
          else bit_at mapped (offset * 8 + j))
  unfolding masked
  bit_at-masked used j small nonempty below =
      let at : length copied - 1 ≡ size - 1 = omega (arith, length-copied) in
      elim (Bool-cases (j / 8 == size - 1)) [
        | inl e ↦
            let here : j / 8 ≡ size - 1 = ==→eq (j / 8) (size - 1) e in
            rw
              (
                ← bit_at-copied j below,
                at,
                here,
                get_or-set_self copied (size - 1) (bit_and (byte copied (size - 1)) (2 ^ used - 1))
                    0 (omega (arith, length-copied)),
              )
              (ground (
                arith,
                bit-low_mask (byte copied (size - 1)) used (j % 8)
                    (byte-lt copied (size - 1) copied-IsBytes) small (omega arith),
              ))
        | inr e ↦
            rw
              (
                e,
                at,
                get_or-set_ne copied (size - 1) (j / 8)
                    (bit_and (byte copied (size - 1)) (2 ^ used - 1)) 0 (ground arith),
              )
              (bit_at-copied j below)
      ]

  masked-IsChunk :
      (used : ℕ)
      → used ≡ count % 8
      → 0 < used
      → 0 < size
      → offset + size ≡ length mapped
      → IsChunk mapped 0 count offset size (masked used)
  unfolding masked
  masked-IsChunk used e pos nonempty reaches = record {
    bytes_fit =
        set-IsBytes copied (length copied - 1) (bit_and (back copied) (2 ^ used - 1)) copied-IsBytes
          (low_mask-lt (back copied) used 0 (byte-lt copied (length copied - 1) copied-IsBytes)
            (omega arith) (omega arith));
    size_is =
        length-set copied (length copied - 1) (bit_and (back copied) (2 ^ used - 1))
        ∙ length-copied;
    bits_are = λ j below.
        let zero_start : 0 + (offset * 8 + j) ≡ offset * 8 + j = omega arith in
        bit_at-masked used j (omega arith) nonempty below
        ∙ rw zero_start (ground (arith, e, pos, reaches, fits));
  }

  copied-IsChunk :
      (count % 8 ≡ 0) ⊎ (offset + size < length mapped) ⊎ (size ≡ 0)
      → IsChunk mapped 0 count offset size copied
  copied-IsChunk inner = record {
    bytes_fit = copied-IsBytes;
    size_is = length-copied;
    bits_are = λ j below.
        let zero_start : 0 + (offset * 8 + j) ≡ offset * 8 + j = omega arith in
        bit_at-copied j below ∙ rw zero_start (ground (arith, inner, fits));
  }

  mask_last-IsChunk : IsChunk mapped 0 count offset size (mask_last count offset copied)
  unfolding mask_last masked
  mask_last-IsChunk =
      let used = count % 8 in
      elim (Bool-cases (
        not (used == 0)
        && not (is_empty copied)
        && offset + length copied == pdo_image_byte_length count)) [
          | inl last ↦ rw last (
              masked-IsChunk used refl (ground arith)
                (ground (arith, is_empty-eq copied, length-copied))
                (ground (arith, length-copied, fits)))
          | inr inside ↦
              rw inside (copied-IsChunk (ground (arith, is_empty-eq copied, length-copied, fits)))
        ]

aligned_size :
    {mapped : List ℕ} {start count : ℕ}
    → IsMapped mapped start count
    → start ≡ 0
    → length mapped ≡ pdo_image_byte_length count
aligned_size v e = ground (arith, v.size_is)

-- Reading a chunk within the image, from mapped bytes of the right size, succeeds, and gives the image's bits in order; a bit behind the
-- image reads as zero, whatever the neighbours' bits are.
pub read_packed_pdo_chunk-IsChunk :
    (mapped : List ℕ) (start count offset size : ℕ)
    → IsMapped mapped start count
    → offset + size ≤ pdo_image_byte_length count
    → (d : List ℕ) × (read_packed_pdo_chunk mapped start count offset size ≡ some d)
      × IsChunk mapped start count offset size d
unfolding read_packed_pdo_chunk
read_packed_pdo_chunk-IsChunk mapped start count offset size v room =
    elim (Bool-cases (start == 0)) [
      | inl aligned ↦
          let at : start ≡ 0 = ==→eq start 0 aligned in
          let fits = aligned_size v at in
          let d : List ℕ = mask_last count offset (take size (drop offset mapped)) in
          (
            d,
            ground (arith, v.start_fits, v.size_is, room, aligned),
            subst (λ f. IsChunk mapped f count offset size d) (sym at)
                (mask_last-IsChunk mapped count offset size v.bytes_fit (omega (arith, fits, room))
                  fits),
          )
      | inr shifted ↦ (
        read_bytes size mapped start count (offset * 8),
        ground (arith, v.start_fits, v.size_is, room, shifted),
        record {
          bytes_fit = read_bytes-IsBytes mapped start count size (offset * 8);
          size_is = length-read_bytes mapped start count size (offset * 8);
          bits_are = λ j below. bit_at-read_bytes mapped start count size (offset * 8) j below;
        },
      )
    ]

-- The padding of a canonical image is zero.
padding_zero :
    (count : ℕ) (image : List ℕ) (j : ℕ)
    → IsBytes image
    → has_canonical_pdo_padding count image ≡ true
    → count ≤ j
    → j < 8 * length image
    → bit_at image j ≡ false
unfolding has_canonical_pdo_padding
padding_zero count image j h padded behind below =
    let size = padded_size count image padded in
    let last : j / 8 ≡ length image - 1 = omega (arith, size) in
    rw last (
      bit-high_mask (back image) (count % 8) (j % 8) (byte-lt image (length image - 1) h)
        (omega arith) (omega arith) (ground (arith, padded, size)) (omega (arith, size)))

-- Two strings of bytes of one size with the same bits are equal.
bit_at_ext :
    (a b : List ℕ)
    → IsBytes a
    → IsBytes b
    → length a ≡ length b
    → ((j : ℕ) → j < 8 * length a → bit_at a j ≡ bit_at b j)
    → a ≡ b
bit_at_ext a b ha hb size agree = get_or_ext 0 a b size (λ i below.
    bit_ext (byte a i) (byte b i) (byte-lt a i ha) (byte-lt b i hb) (λ l small.
      let whole : (8 * i + l) / 8 ≡ i = omega arith in
      let rest : (8 * i + l) % 8 ≡ l = omega arith in
      subst (λ k. bit (byte a k) l ≡ bit (byte b k) l) whole
        (subst (λ k. bit (byte a ((8 * i + l) / 8)) k ≡ bit (byte b ((8 * i + l) / 8)) k) rest
          (agree (8 * i + l) (omega arith)))))

-- The bits of an image that was written, its padding included.
image_bit-Written :
    (mapped m image : List ℕ) (start count : ℕ)
    → Written mapped m start count (λ j. bit_at image (j - start))
    → IsBytes image
    → has_canonical_pdo_padding count image ≡ true
    → (j : ℕ) → j < 8 * length image
    → image_bit m start count j ≡ bit_at image j
image_bit-Written mapped m image start count facts h padded j below =
    let back_at : start + j - start ≡ j = omega arith in
    elim (Bool-cases (ltb j count)) [
      | inl inside ↦
          let within : (leb start (start + j) && ltb (start + j) (start + count)) ≡ true =
            ground arith in
          let written : bit_at m (start + j) ≡ bit_at image j =
            facts.bits_are (start + j) ∙ rw (within, back_at) refl in
          rw (inside, written) refl
      | inr behind ↦ rw behind (sym (padding_zero count image j h padded (ground arith) below))
    ]

-- An image of the right size with zero padding that is written into mapped bytes of the right size,
-- from any start bit below 8, is read back whole.
pub read-write_packed_pdo_image :
    (mapped image : List ℕ) (start count : ℕ)
    → IsMapped mapped start count
    → IsBytes image
    → has_canonical_pdo_padding count image ≡ true
    → (m : List ℕ) × (write_packed_pdo_image mapped start count image ≡ some m)
      × (read_packed_pdo_chunk m start count 0 (length image) ≡ some image)
read-write_packed_pdo_image mapped image start count v h padded =
    let (m, written, facts) = write_packed_pdo_image-Written mapped image start count v h padded in
    let size = padded_size count image padded in
    let v' : IsMapped m start count = record {
      start_fits = v.start_fits;
      size_is = facts.same_length ∙ v.size_is;
      bytes_fit = facts.bytes_fit;
    } in
    let (d, read, chunk) =
      read_packed_pdo_chunk-IsChunk m start count 0 (length image) v' (omega (arith, size)) in
    let same : d ≡ image = bit_at_ext d image chunk.bytes_fit h chunk.size_is (λ j below.
      let inside : j < 8 * length image = omega (arith, chunk.size_is) in
      let from_start : 0 * 8 + j ≡ j = omega arith in
      chunk.bits_are j inside
      ∙ ap (image_bit m start count) from_start
      ∙ image_bit-Written mapped m image start count facts h padded j inside) in
    (m, written, read ∙ ap some same)
