-- ===== src/Daemon/Outputs/Splices.antt =====
-- The bits of an I/O map of which a part was written.
use ec_systemcore.Base.{
  ℕ, suc, ◌+◌, ◌-◌, ◌*◌, ◌/◌, ◌%◌, ◌≤◌, ◌<◌, ◌≡◌, refl, sym, ap, ◌∙◌, Bool, true, ◌&&◌, List, [],
  ◌∷◌, ◌++◌, arith, ltb, leb, if◌then◌else◌, length, take, drop, All-append, All-drop,
  get_or-append, get_or-take, get_or-drop, length-append, length-take, length-drop, Bool-cases, inl,
  inr, ◌⊎◌,
}
use ec_systemcore.Protocol.Bytes.{IsBytes, byte}
use ec_systemcore.Safety.Pdo.{bit, bit_at}
use ec_systemcore.Safety.Pdo.Images.{take-IsBytes}
use ec_systemcore.Safety.Pdo.Loops.{Written}
use ec_systemcore.Daemon.Outputs.{span_of, write_span, range_in_io_map}

byte-append_right : (a b : List ℕ) (i : ℕ) → byte (a ++ b) (length a + i) ≡ byte b i
byte-append_right [] b i = let e : 0 + i ≡ i = omega arith in rw e refl
byte-append_right (x ∷ a) b i =
    let e : suc (length a) + i ≡ suc (length a + i) = omega arith in rw e (byte-append_right a b i)

-- The byte of a map after a write of `bytes` at `begin`.
pub byte-write_span :
    (io bytes : List ℕ) (begin i : ℕ)
    → begin ≤ length io
    → byte (write_span io begin bytes) i
      ≡ (if leb begin i && ltb i (begin + length bytes) then byte bytes (i - begin) else byte io i)
byte-write_span io bytes begin i fits =
    let tail = bytes ++ drop (begin + length bytes) io in
    let front : length (take begin io) ≡ begin = length-take begin io fits in
    elim (Bool-cases (ltb i begin)) [
      | inl before ↦
          let h : i < begin = ground (arith, before) in
          get_or-append (take begin io) tail i 0 (omega (arith, front, h))
          ∙ get_or-take begin i io 0 h
          ∙ ground (arith, h)
      | inr after ↦
          let h : begin ≤ i = ground (arith, after) in
          let at : i ≡ length (take begin io) + (i - begin) = omega (arith, front, h) in
          ap (λ n. byte (take begin io ++ tail) n) at
          ∙ byte-append_right (take begin io) tail (i - begin)
          ∙ elim (Bool-cases (ltb (i - begin) (length bytes))) [
            | inl inside ↦
                let k : i - begin < length bytes = ground (arith, inside) in
                get_or-append bytes (drop (begin + length bytes) io) (i - begin) 0 k
                ∙ ground (arith, h, k)
            | inr beyond ↦
                let k : length bytes ≤ i - begin = ground (arith, beyond) in
                let at' : i - begin ≡ length bytes + (i - begin - length bytes) =
                  omega (arith, k) in
                let at'' : begin + length bytes + (i - begin - length bytes) ≡ i =
                  omega (arith, h, k) in
                ap (λ n. byte tail n) at'
                ∙ byte-append_right bytes (drop (begin + length bytes) io)
                    (i - begin - length bytes)
                ∙ get_or-drop (begin + length bytes) (i - begin - length bytes) io 0
                ∙ ap (λ n. byte io n) at''
                ∙ ground (arith, h, k)
          ]
    ]

pub byte-span_of :
    (io : List ℕ) (begin size i : ℕ)
    → i < size
    → byte (span_of io begin size) i ≡ byte io (begin + i)
byte-span_of io begin size i h = get_or-take size i (drop begin io) 0 h ∙ get_or-drop begin i io 0

pub span_of-IsBytes : (io : List ℕ) (begin size : ℕ) → IsBytes io → IsBytes (span_of io begin size)
span_of-IsBytes io begin size h =
    take-IsBytes size (drop begin io) (All-drop (λ b. b < 256) begin io h)

pub length-span_of :
    (io : List ℕ) (begin size : ℕ)
    → begin ≤ length io
    → size ≤ length io - begin
    → length (span_of io begin size) ≡ size
length-span_of io begin size h k =
    length-take size (drop begin io) (omega (arith, length-drop begin io, k))

pub length-write_span :
    (io bytes : List ℕ) (begin : ℕ)
    → begin ≤ length io
    → length bytes ≤ length io - begin
    → length (write_span io begin bytes) ≡ length io
length-write_span io bytes begin h k = omega (
  arith,
  length-append (take begin io) (bytes ++ drop (begin + length bytes) io),
  length-append bytes (drop (begin + length bytes) io),
  length-take begin io h,
  length-drop (begin + length bytes) io,
)

pub write_span-IsBytes :
    (io bytes : List ℕ) (begin : ℕ)
    → IsBytes io
    → IsBytes bytes
    → IsBytes (write_span io begin bytes)
write_span-IsBytes io bytes begin h k =
    All-append (λ b. b < 256) (take begin io) (bytes ++ drop (begin + length bytes) io)
      (take-IsBytes begin io h)
      (All-append (λ b. b < 256) bytes (drop (begin + length bytes) io) k
        (All-drop (λ b. b < 256) (begin + length bytes) io h))

-- The same bit, counted in the part and in the map.
bit_at-shift :
    (m : List ℕ) (begin j : ℕ)
    → begin ≤ j / 8
    → bit (byte m (j / 8 - begin)) (j % 8) ≡ bit_at m (j - 8 * begin)
bit_at-shift m begin j h =
    let q : j / 8 - begin ≡ (j - 8 * begin) / 8 = omega arith in
    let r : j % 8 ≡ (j - 8 * begin) % 8 = omega arith in rw (q, r) refl

byte-in_span :
    (io : List ℕ) (begin size i : ℕ)
    → begin ≤ i
    → i < begin + size
    → byte (span_of io begin size) (i - begin) ≡ byte io i
byte-in_span io begin size i h k =
    let back : begin + (i - begin) ≡ i = omega (arith, h) in
    byte-span_of io begin size (i - begin) (omega (arith, h, k)) ∙ ap (λ n. byte io n) back

-- Bits that were written in a part are written in the map.
pub write_span-Written :
    (io m : List ℕ) (begin size start count : ℕ) (source : ℕ → Bool)
    → IsBytes io
    → range_in_io_map io begin size ≡ true
    → (count ≡ 0) ⊎ (start + count ≤ 8 * size)
    → Written (span_of io begin size) m start count source
    → Written io (write_span io begin m) (8 * begin + start) count (λ j. source (j - 8 * begin))
write_span-Written io m begin size start count source h range room w =
    let fits : (begin ≤ length io) × (size ≤ length io - begin) = ground (arith, range) in
    let sized : length m ≡ size = w.same_length ∙ length-span_of io begin size fits.0 fits.1 in
    record {
      bytes_fit = write_span-IsBytes io m begin h w.bytes_fit;
      same_length = length-write_span io m begin fits.0 (omega (arith, sized, fits.1));
      bits_are = λ j.
          ap (λ b. bit b (j % 8)) (byte-write_span io m begin (j / 8) fits.0)
          ∙ elim (Bool-cases (leb begin (j / 8) && ltb (j / 8) (begin + length m))) [
            | inl inside ↦
                let k : (begin ≤ j / 8) × (j / 8 < begin + size) = ground (arith, inside, sized) in
                let old : bit_at (span_of io begin size) (j - 8 * begin) ≡ bit_at io j =
                  sym (bit_at-shift (span_of io begin size) begin j k.0)
                  ∙ ap (λ b. bit b (j % 8)) (byte-in_span io begin size (j / 8) k.0 k.1) in
                rw inside (
                  bit_at-shift m begin j k.0
                  ∙ w.bits_are (j - 8 * begin)
                  ∙ ground (arith, old, k.0))
            | inr outside ↦ rw outside (ground (arith, outside, room, sized))
          ];
    }
