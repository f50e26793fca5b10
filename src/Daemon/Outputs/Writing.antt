-- ===== src/Daemon/Outputs/Writing.antt =====
-- `WritePackedPdoImage` of one command through a pointer into the I/O map: when it is accepted, and what
-- it writes.
use ec_systemcore.Base.{
  ℕ, ◌+◌, ◌-◌, ◌*◌, ◌≤◌, ◌≡◌, refl, ap, ◌∙◌, Bool, true, false, ◌&&◌, List, Option, none, some,
  arith, ltb, leb, if◌then◌else◌, length, take, Bool-cases, ◌⊎◌, inl, inr,
}
use ec_systemcore.Protocol.Bytes.{IsBytes}
use ec_systemcore.Safety.Gate.{is_ok}
use ec_systemcore.Safety.Limits.{validate_whole_output_write}
use ec_systemcore.Safety.Pdo.{
  bit_at, pdo_image_byte_length, has_canonical_pdo_padding, write_packed_pdo_image,
}
use ec_systemcore.Safety.Pdo.Images.{write_packed_pdo_image-Written, take-IsBytes}
use ec_systemcore.Safety.Pdo.Loops.{Written}
use ec_systemcore.Daemon.Bus.{OutputCommand}
use ec_systemcore.Daemon.Outputs.{
  SubDevice, is_in_map, range_in_io_map, span_of, mapped_bytes, write_span, write_output_at,
  write_output_through,
}
use ec_systemcore.Daemon.Outputs.Splices.{write_span-Written}
use ec_systemcore.Daemon.Outputs.Zeroed.{mapped_room, span_of-IsMapped}

-- The image that a command carries.
abbrev pub image_of : OutputCommand → List ℕ
image_of c = take c.length c.image

-- The command replaces the whole output image of the SubDevice, with zero padding, and the image lies
-- in the I/O map.
abbrev pub accepts_at : ℕ → SubDevice → ℕ → OutputCommand → Bool
accepts_at map_size s begin c =
    is_in_map map_size begin (mapped_bytes s)
    && is_ok (validate_whole_output_write (pdo_image_byte_length s.output_bits) c.offset c.length)
    && leb s.output_start_bit 7
    && has_canonical_pdo_padding s.output_bits (image_of c)

abbrev pub accepts_through : Option ℕ → ℕ → SubDevice → OutputCommand → Bool
accepts_through none map_size s c = false
accepts_through (some begin) map_size s c = accepts_at map_size s begin c

-- Where the image begins in the map, in bits.
abbrev pub first_bit : Option ℕ → SubDevice → ℕ
first_bit none s = 0
first_bit (some begin) s = 8 * begin + s.output_start_bit

-- The bits of the image are in the map, at their place, and the others stay.
abbrev pub Placed : List ℕ → Option ℕ → SubDevice → OutputCommand → List ℕ → Type 0
Placed io o s c io' =
    Written io io' (first_bit o s) s.output_bits (λ j. bit_at (image_of c) (j - first_bit o s))

write_packed_pdo_image-refused :
    (mapped image : List ℕ) (start count : ℕ)
    → (leb start 7 && has_canonical_pdo_padding count image) ≡ false
    → write_packed_pdo_image mapped start count image ≡ none
unfolding write_packed_pdo_image
write_packed_pdo_image-refused mapped image start count h = ground (arith, h)

-- A write that is not accepted is refused; one that is accepted places the image.
abbrev pub Writes : Option (List ℕ) → Bool → List ℕ → Option ℕ → SubDevice → OutputCommand → Type 0
Writes m accepted io o s c =
    ((accepted ≡ false) × (m ≡ none))
    ⊎ ((io' : List ℕ) × (accepted ≡ true) × (m ≡ some io') × Placed io o s c io')

write_output_at-Writes :
    (io : List ℕ) (s : SubDevice) (begin : ℕ) (c : OutputCommand)
    → IsBytes io
    → IsBytes c.image
    → Writes (write_output_at io s begin c) (accepts_at (length io) s begin c) io (some begin) s c
unfolding write_output_at
write_output_at-Writes io s begin c h k =
    let valid =
      is_ok (validate_whole_output_write (pdo_image_byte_length s.output_bits) c.offset c.length) in
    elim (Bool-cases (range_in_io_map io begin (mapped_bytes s) && valid)) [
      | inr outside ↦ inl (ground (arith, outside), rw outside refl)
      | inl inside ↦
          elim (Bool-cases
            (leb s.output_start_bit 7 && has_canonical_pdo_padding s.output_bits (image_of c))) [
              | inr odd ↦ inl (
                ground (arith, odd),
                rw
                    (
                      inside,
                      write_packed_pdo_image-refused (span_of io begin (mapped_bytes s))
                          (image_of c) s.output_start_bit s.output_bits odd,
                    )
                    refl,
              )
              | inl good ↦
                  let start : s.output_start_bit ≤ 7 = ground (arith, good) in
                  let padded : has_canonical_pdo_padding s.output_bits (image_of c) ≡ true =
                    ground (arith, good) in
                  let range : range_in_io_map io begin (mapped_bytes s) ≡ true =
                    ground (arith, inside) in
                  let (m, written, w) =
                    write_packed_pdo_image-Written (span_of io begin (mapped_bytes s)) (image_of c)
                      s.output_start_bit s.output_bits (span_of-IsMapped io s begin h start range)
                      (take-IsBytes c.length c.image k) padded in
                  let w' =
                    write_span-Written io m begin (mapped_bytes s) s.output_start_bit s.output_bits
                      (λ j. bit_at (image_of c) (j - s.output_start_bit)) h range
                      (mapped_room s start) w in
                  inr (
                    write_span io begin m,
                    ground (arith, inside, good),
                    rw (inside, written) refl,
                    record {
                      bytes_fit = w'.bytes_fit;
                      same_length = w'.same_length;
                      bits_are = λ j.
                          let first = 8 * begin + s.output_start_bit in
                          let e : j - 8 * begin - s.output_start_bit ≡ j - first = omega arith in
                          w'.bits_are j
                          ∙ ap
                              (λ n.
                                if leb first j && ltb j (first + s.output_bits)
                                then bit_at (image_of c) n
                                else bit_at io j)
                              e;
                    },
                  )
            ]
    ]

pub write_output_through-Writes :
    (o : Option ℕ) (io : List ℕ) (s : SubDevice) (c : OutputCommand)
    → IsBytes io
    → IsBytes c.image
    → Writes (write_output_through o io s c) (accepts_through o (length io) s c) io o s c
write_output_through-Writes none io s c h k = inl (refl, refl)
write_output_through-Writes (some begin) io s c h k = write_output_at-Writes io s begin c h k
