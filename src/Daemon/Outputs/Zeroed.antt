-- ===== src/Daemon/Outputs/Zeroed.antt =====
-- Which bits of the I/O map are zero after `ZeroOutputs` and `EnforcePerSubDeviceFreshness`.
use ec_systemcore.Base.{
  ℕ, ◌+◌, ◌-◌, ◌*◌, ◌≤◌, ◌≡◌, refl, sym, ◌∙◌, Bool, true, false, not, ◌&&◌, ◌||◌, List, [], ◌∷◌,
  Option, none, some, arith, ltb, leb, ◌==◌, if◌then◌else◌, length, Bool-cases, ◌⊎◌, inl, inr,
  subst,
}
use ec_systemcore.Protocol.Bytes.{IsBytes}
use ec_systemcore.Safety.Pdo.{bit_at, zero_packed_pdo_image}
use ec_systemcore.Safety.Pdo.Images.{IsMapped, zero_packed_pdo_image-Written}
use ec_systemcore.Daemon.Outputs.{
  SubDevice, Worker, is_in_map, range_in_io_map, span_of, mapped_bytes, zero_output_at, zero_output,
  zero_output_through, zero_all, zero_outputs, lapses, enforce_image,
}
use ec_systemcore.Daemon.Outputs.Splices.{write_span-Written, span_of-IsBytes, length-span_of}

-- Bit `j` of an I/O map of this size is in the SubDevice's output image, and the image is in the map.
abbrev pub in_image_at : ℕ → SubDevice → ℕ → ℕ → Bool
in_image_at map_size s begin j =
    leb s.output_start_bit 7
    && is_in_map map_size begin (mapped_bytes s)
    && leb (8 * begin + s.output_start_bit) j
    && ltb j (8 * begin + s.output_start_bit + s.output_bits)

abbrev pub in_image_through : Option ℕ → ℕ → SubDevice → ℕ → Bool
in_image_through none map_size s j = false
in_image_through (some begin) map_size s j = in_image_at map_size s begin j

abbrev pub in_image : ℕ → SubDevice → ℕ → Bool
in_image map_size s j = in_image_through s.outputs map_size s j

-- The bits that `cover` names are zero afterwards, and the others stay.
pub record Zeroed (io io' : List ℕ) (cover : ℕ → Bool) : Type 0 where
  pub bytes_fit : IsBytes io'
  pub same_length : length io' ≡ length io
  pub bits_are : (j : ℕ) → bit_at io' j ≡ (if cover j then false else bit_at io j)

pub Zeroed-none :
    (io : List ℕ) (cover : ℕ → Bool) → IsBytes io → ((j : ℕ) → cover j ≡ false) → Zeroed io io cover
Zeroed-none io cover h off = record {
  bytes_fit = h;
  same_length = refl;
  bits_are = λ j. rw (off j) refl;
}

pub mapped_room :
    (s : SubDevice)
    → s.output_start_bit ≤ 7
    → (s.output_bits ≡ 0) ⊎ (s.output_start_bit + s.output_bits ≤ 8 * mapped_bytes s)
mapped_room s h = elim (Bool-cases (s.output_bits == 0)) [
  | inl empty ↦ inl (ground (arith, empty))
  | inr full ↦ inr (ground (arith, full, h))
]

pub span_of-IsMapped :
    (io : List ℕ) (s : SubDevice) (begin : ℕ)
    → IsBytes io
    → s.output_start_bit ≤ 7
    → range_in_io_map io begin (mapped_bytes s) ≡ true
    → IsMapped (span_of io begin (mapped_bytes s)) s.output_start_bit s.output_bits
span_of-IsMapped io s begin h start range =
    let fits : (begin ≤ length io) × (mapped_bytes s ≤ length io - begin) = ground (arith, range) in
    record {
      start_fits = start;
      size_is = length-span_of io begin (mapped_bytes s) fits.0 fits.1;
      bytes_fit = span_of-IsBytes io begin (mapped_bytes s) h;
    }

zero_packed_pdo_image-odd :
    (mapped : List ℕ) (start count : ℕ)
    → leb start 7 ≡ false
    → zero_packed_pdo_image mapped start count ≡ none
unfolding zero_packed_pdo_image
zero_packed_pdo_image-odd mapped start count h = ground (arith, h)

zero_output_at-Zeroed :
    (io : List ℕ) (s : SubDevice) (begin : ℕ)
    → IsBytes io
    → Zeroed io (zero_output_at io s begin) (λ j. in_image_at (length io) s begin j)
unfolding zero_output_at
zero_output_at-Zeroed io s begin h = elim (Bool-cases (range_in_io_map io begin (mapped_bytes s))) [
  | inr outside ↦ rw outside (Zeroed-none io _ h (λ j. ground (arith, outside)))
  | inl inside ↦ elim (Bool-cases (leb s.output_start_bit 7)) [
    | inr odd ↦
        rw (inside, zero_packed_pdo_image-odd _ s.output_start_bit s.output_bits odd)
          (Zeroed-none io _ h (λ j. ground (arith, odd)))
    | inl start ↦
        let k : s.output_start_bit ≤ 7 = ground (arith, start) in
        let (m, zeroed, w) =
          zero_packed_pdo_image-Written (span_of io begin (mapped_bytes s)) s.output_start_bit
            s.output_bits (span_of-IsMapped io s begin h k inside) in
        let w' =
          write_span-Written io m begin (mapped_bytes s) s.output_start_bit s.output_bits
            (λ j. false) h inside (mapped_room s k) w in
        rw (inside, zeroed)
          (record {
            bytes_fit = w'.bytes_fit;
            same_length = w'.same_length;
            bits_are = λ j. w'.bits_are j ∙ ground (arith, inside, start);
          })
  ]
]

zero_output_through-Zeroed :
    (o : Option ℕ) (io : List ℕ) (s : SubDevice)
    → IsBytes io
    → Zeroed io (zero_output_through o io s) (λ j. in_image_through o (length io) s j)
zero_output_through-Zeroed none io s h = Zeroed-none io _ h (λ j. refl)
zero_output_through-Zeroed (some begin) io s h = zero_output_at-Zeroed io s begin h

zero_output-Zeroed :
    (io : List ℕ) (s : SubDevice)
    → IsBytes io
    → Zeroed io (zero_output io s) (λ j. in_image (length io) s j)
unfolding zero_output
zero_output-Zeroed io s h = zero_output_through-Zeroed s.outputs io s h

Zeroed-trans :
    {io io1 io2 : List ℕ} {c1 c2 : ℕ → Bool}
    → Zeroed io io1 c1
    → Zeroed io1 io2 c2
    → Zeroed io io2 (λ j. c1 j || c2 j)
Zeroed-trans {io} {io1} {io2} {c1} {c2} z w = record {
  bytes_fit = w.bytes_fit;
  same_length = w.same_length ∙ z.same_length;
  bits_are = λ j. ground (arith, z.bits_are j, w.bits_are j);
}

zero_if-Zeroed :
    (b : Bool) (io : List ℕ) (s : SubDevice)
    → IsBytes io
    → Zeroed io (if b then zero_output io s else io) (λ j. b && in_image (length io) s j)
zero_if-Zeroed true io s h = zero_output-Zeroed io s h
zero_if-Zeroed false io s h = Zeroed-none io _ h (λ j. refl)

-- Bit `j` is in the image of one of the SubDevices that `chosen` names.
unfoldable pub any_in_image : ℕ → (SubDevice → Bool) → List SubDevice → ℕ → Bool
any_in_image map_size chosen [] j = false
any_in_image map_size chosen (s ∷ rest) j =
    (chosen s && in_image map_size s j) || any_in_image map_size chosen rest j

pub enforce_image-Zeroed :
    (now timeout_us : ℕ) (io : List ℕ) (sub_devices : List SubDevice)
    → IsBytes io
    → Zeroed io
        (enforce_image now timeout_us io sub_devices)
        (any_in_image (length io) (lapses now timeout_us) sub_devices)
unfolding enforce_image any_in_image
enforce_image-Zeroed now timeout_us io [] h = Zeroed-none io _ h (λ j. refl)
enforce_image-Zeroed now timeout_us io (s ∷ rest) h =
    let z = zero_if-Zeroed (lapses now timeout_us s) io s h in
    let io1 = if lapses now timeout_us s then zero_output io s else io in
    let w = enforce_image-Zeroed now timeout_us io1 rest z.bytes_fit in
    Zeroed-trans z (
      subst
        (λ n.
          Zeroed io1 (enforce_image now timeout_us io1 rest)
            (any_in_image n (lapses now timeout_us) rest))
        z.same_length w)

zero_all-Zeroed :
    (io : List ℕ) (sub_devices : List SubDevice)
    → IsBytes io
    → Zeroed io
        (zero_all io sub_devices)
        (any_in_image (length io) (λ s. not (s.output_bits == 0)) sub_devices)
unfolding zero_all any_in_image
zero_all-Zeroed io [] h = Zeroed-none io _ h (λ j. refl)
zero_all-Zeroed io (s ∷ rest) h =
    let has = λ (s : SubDevice). not (s.output_bits == 0) in
    let io1 = if s.output_bits == 0 then io else zero_output io s in
    let z : Zeroed io io1 (λ j. has s && in_image (length io) s j) =
      elim (Bool-cases (s.output_bits == 0)) [
        | inl empty ↦ rw empty (Zeroed-none io _ h (λ j. refl))
        | inr full ↦ rw full (zero_output-Zeroed io s h)
      ] in
    let w = zero_all-Zeroed io1 rest z.bytes_fit in
    Zeroed-trans z
      (subst (λ n. Zeroed io1 (zero_all io1 rest) (any_in_image n has rest)) z.same_length w)

-- With an open context, zeroing the outputs clears exactly the bits of the output images that lie in
-- the I/O map, and leaves the others, for every layout of the images.
pub zero_outputs-Zeroed :
    (w : Worker)
    → IsBytes w.io_map
    → w.context_open ≡ true
    → Zeroed w.io_map
        (zero_outputs w).io_map
        (any_in_image (length w.io_map) (λ s. not (s.output_bits == 0)) w.sub_devices)
unfolding zero_outputs
zero_outputs-Zeroed w h opened =
    subst
      (λ b.
        Zeroed w.io_map
          (if not b then w else record w { io_map = zero_all w.io_map w.sub_devices }).io_map
          (any_in_image (length w.io_map) (λ s. not (s.output_bits == 0)) w.sub_devices))
      (sym opened) (zero_all-Zeroed w.io_map w.sub_devices h)
