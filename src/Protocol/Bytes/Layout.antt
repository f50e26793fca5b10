-- ===== src/Protocol/Bytes/Layout.antt =====
-- What the little-endian primitives mean: `le_bytes w v` is the canonical text of `v` in `w` bytes,
-- and `word w bytes offset` the number that `w` bytes stand for.
use ec_systemcore.Base.{
  ℕ, zero, suc, ◌+◌, ◌*◌, ◌/◌, ◌%◌, ◌^◌, ◌≤◌, ◌<◌, ◌≡◌, refl, ap, ◌∙◌, List, [], ◌∷◌, ◌++◌, some,
  bit_or, length, arith, bit_or-eq-add, append_assoc, length-append, get_or-drop, get_or-append,
  length-drop, drop,
}
use ec_systemcore.Protocol.Bytes.{
  IsBytes, byte, append_le16, append_le32, append_le64, read_le16, read_le32, read_le64, or_shifts,
}
use native.Mathlib.Nat.{pow-suc}
use native.Mathlib.Numerals.{towards_suc}

abbrev pub le_bytes : ℕ → ℕ → List ℕ
le_bytes zero v = []
le_bytes (suc w) v = v % 256 ∷ le_bytes w (v / 256)

abbrev pub word : ℕ → List ℕ → ℕ → ℕ
word zero bytes offset = 0
word (suc w) bytes offset = byte bytes offset + 256 * word w bytes (offset + 1)

pub append_le16_lem : (d : List ℕ) (v : ℕ) → append_le16 d v ≡ d ++ le_bytes 2 v
unfolding append_le16
append_le16_lem d v = simp append_assoc (ap (◌++◌ d) (ground arith))

pub append_le32_lem : (d : List ℕ) (v : ℕ) → append_le32 d v ≡ d ++ le_bytes 4 v
unfolding append_le32
append_le32_lem d v = simp append_assoc (ap (◌++◌ d) (ground arith))

pub append_le64_lem : (d : List ℕ) (v : ℕ) → append_le64 d v ≡ d ++ le_bytes 8 v
unfolding append_le64
append_le64_lem d v = simp append_assoc (ap (◌++◌ d) (ground arith))

pub byte-lt : (bytes : List ℕ) (i : ℕ) → IsBytes bytes → byte bytes i < 256
byte-lt [] i h = omega arith
byte-lt (b ∷ bytes) zero h = h.0
byte-lt (b ∷ bytes) (suc i) h = byte-lt bytes i h.1

pub word-lt : (w : ℕ) (bytes : List ℕ) (offset : ℕ) → IsBytes bytes → word w bytes offset < 256 ^ w
word-lt zero bytes offset h = omega arith
word-lt (suc w) bytes offset h =
    omega (arith, pow-suc 256 w, byte-lt bytes offset h, word-lt w bytes (offset + 1) h)

pow-eight : (i : ℕ) → 2 ^ ((i + 1) * 8) ≡ 256 * 2 ^ (i * 8)
pow-eight i = let e : (i + 1) * 8 ≡ i * 8 + 8 = omega arith in rw e (simp towards_suc (omega arith))

or_shifts_lem :
    (rounds index : ℕ) (bytes : List ℕ) (offset decoded : ℕ)
    → IsBytes bytes
    → decoded < 2 ^ (index * 8)
    → or_shifts rounds index bytes offset decoded
      ≡ decoded + word rounds bytes (offset + index) * 2 ^ (index * 8)
unfolding or_shifts
or_shifts_lem zero index bytes offset decoded h k = omega arith
or_shifts_lem (suc rounds) index bytes offset decoded h k =
    let b = byte bytes (offset + index) in
    let unit = 2 ^ (index * 8) in
    let joined : bit_or decoded (b * unit) ≡ decoded + b * unit =
      bit_or-eq-add (index * 8) decoded b k in
    let scaled : 2 ^ ((index + 1) * 8) ≡ 256 * unit = pow-eight index in
    let fits : b * unit ≤ 255 * unit = grind (arith, byte-lt bytes (offset + index) h) in
    let next : offset + (index + 1) ≡ offset + index + 1 = omega arith in
    rw joined (
      or_shifts_lem rounds (index + 1) bytes offset (decoded + b * unit) h (omega arith)
      ∙ rw (scaled, next) (omega arith))

pub read_le16_lem :
    (bytes : List ℕ) (offset : ℕ)
    → IsBytes bytes
    → offset + 2 ≤ length bytes
    → read_le16 bytes offset ≡ some (word 2 bytes offset)
unfolding read_le16
read_le16_lem bytes offset h k =
    ground
      (arith, bit_or-eq-add 8 (byte bytes offset) (byte bytes (offset + 1)), byte-lt bytes offset h)

pub read_le32_lem :
    (bytes : List ℕ) (offset : ℕ)
    → IsBytes bytes
    → offset + 4 ≤ length bytes
    → read_le32 bytes offset ≡ some (word 4 bytes offset)
unfolding read_le32
read_le32_lem bytes offset h k = ground (arith, or_shifts_lem 4 0 bytes offset 0 h)

pub read_le64_lem :
    (bytes : List ℕ) (offset : ℕ)
    → IsBytes bytes
    → offset + 8 ≤ length bytes
    → read_le64 bytes offset ≡ some (word 8 bytes offset)
unfolding read_le64
read_le64_lem bytes offset h k = ground (arith, or_shifts_lem 8 0 bytes offset 0 h)

pub read_le16-eq_some :
    (bytes : List ℕ) (offset v : ℕ)
    → IsBytes bytes
    → read_le16 bytes offset ≡ some v
    → (offset + 2 ≤ length bytes) × (word 2 bytes offset ≡ v)
read_le16-eq_some bytes offset v h e =
    let inside : offset + 2 ≤ length bytes = unfold read_le16 in ground arith in
    (inside, ground (arith, read_le16_lem bytes offset h inside))

pub read_le32-eq_some :
    (bytes : List ℕ) (offset v : ℕ)
    → IsBytes bytes
    → read_le32 bytes offset ≡ some v
    → (offset + 4 ≤ length bytes) × (word 4 bytes offset ≡ v)
read_le32-eq_some bytes offset v h e =
    let inside : offset + 4 ≤ length bytes = unfold read_le32 in ground arith in
    (inside, ground (arith, read_le32_lem bytes offset h inside))

pub read_le64-eq_some :
    (bytes : List ℕ) (offset v : ℕ)
    → IsBytes bytes
    → read_le64 bytes offset ≡ some v
    → (offset + 8 ≤ length bytes) × (word 8 bytes offset ≡ v)
read_le64-eq_some bytes offset v h e =
    let inside : offset + 8 ≤ length bytes = unfold read_le64 in ground arith in
    (inside, ground (arith, read_le64_lem bytes offset h inside))

word-cons :
    (w b : ℕ) (bytes : List ℕ) (offset : ℕ) → word w (b ∷ bytes) (suc offset) ≡ word w bytes offset
word-cons zero b bytes offset = refl
word-cons (suc w) b bytes offset =
    let e : suc offset + 1 ≡ suc (offset + 1) = omega arith in
    rw e (ap (λ t. byte bytes offset + 256 * t) (word-cons w b bytes (offset + 1)))

-- A field of `w` bytes that stands behind `front` reads back as the value that was written.
pub word-le_bytes :
    (w : ℕ) (front : List ℕ) (v : ℕ) (rest : List ℕ)
    → v < 256 ^ w
    → word w (front ++ (le_bytes w v ++ rest)) (length front) ≡ v
word-le_bytes zero [] v rest h = omega arith
word-le_bytes (suc w) [] v rest h = omega (
  arith,
  word-cons w (v % 256) (le_bytes w (v / 256) ++ rest) 0,
  word-le_bytes w [] (v / 256) rest (omega (arith, pow-suc 256 w)),
)
word-le_bytes w (b ∷ front) v rest h =
    word-cons w b (front ++ (le_bytes w v ++ rest)) (length front) ∙ word-le_bytes w front v rest h

pub le_bytes-IsBytes : (w v : ℕ) → IsBytes (le_bytes w v)
le_bytes-IsBytes zero v = tt
le_bytes-IsBytes (suc w) v = (omega arith, le_bytes-IsBytes w (v / 256))

pub drop-eq-byte :
    (i : ℕ) (bytes : List ℕ) → i < length bytes → drop i bytes ≡ byte bytes i ∷ drop (i + 1) bytes
drop-eq-byte i [] h = absurd (omega arith)
drop-eq-byte zero (b ∷ bytes) h = refl
drop-eq-byte (suc i) (b ∷ bytes) h =
    let e : suc i + 1 ≡ suc (i + 1) = omega arith in rw e (drop-eq-byte i bytes (omega arith))

-- The bytes of a field are the canonical text of the number that they stand for.
pub drop-eq-le_bytes :
    (w i : ℕ) (bytes : List ℕ)
    → IsBytes bytes
    → i + w ≤ length bytes
    → drop i bytes ≡ le_bytes w (word w bytes i) ++ drop (i + w) bytes
drop-eq-le_bytes zero i bytes h k = let e : i + 0 ≡ i = omega arith in rw e refl
drop-eq-le_bytes (suc w) i bytes h k =
    let e : i + suc w ≡ i + 1 + w = omega arith in
    let digit : (byte bytes i + 256 * word w bytes (i + 1)) % 256 ≡ byte bytes i =
      omega (arith, byte-lt bytes i h) in
    let carry : (byte bytes i + 256 * word w bytes (i + 1)) / 256 ≡ word w bytes (i + 1) =
      omega (arith, byte-lt bytes i h) in
    rw (e, digit, carry)
      (drop-eq-byte i bytes (omega arith)
        ∙ ap (λ r. byte bytes i ∷ r) (drop-eq-le_bytes w (i + 1) bytes h (omega arith)))

-- A read inside the first part does not see what stands behind it.
module _ (front rest : List ℕ) (offset : ℕ) where
  pub read_le16-append :
      offset + 2 ≤ length front → read_le16 (front ++ rest) offset ≡ read_le16 front offset
  unfolding read_le16
  read_le16-append h = ground (
    arith,
    length-append front rest,
    get_or-append front rest offset 0,
    get_or-append front rest (offset + 1) 0,
  )

  pub read_le32-append :
      offset + 4 ≤ length front → read_le32 (front ++ rest) offset ≡ read_le32 front offset
  unfolding read_le32
  read_le32-append h = ground (
    arith,
    length-append front rest,
    get_or-append front rest (offset + 0) 0,
    get_or-append front rest (offset + 1) 0,
    get_or-append front rest (offset + 2) 0,
    get_or-append front rest (offset + 3) 0,
  )

-- Reading `i` bytes into what `drop n` leaves is reading at `n + i`.
module _ (n i : ℕ) (bytes : List ℕ) where
  pub read_le16-drop :
      n + i + 2 ≤ length bytes → read_le16 (drop n bytes) i ≡ read_le16 bytes (n + i)
  unfolding read_le16
  read_le16-drop h =
      ground (arith, length-drop n bytes, get_or-drop n i bytes 0, get_or-drop n (i + 1) bytes 0)

  pub read_le32-drop :
      n + i + 4 ≤ length bytes → read_le32 (drop n bytes) i ≡ read_le32 bytes (n + i)
  unfolding read_le32
  read_le32-drop h = ground (
    arith,
    length-drop n bytes,
    get_or-drop n (i + 0) bytes 0,
    get_or-drop n (i + 1) bytes 0,
    get_or-drop n (i + 2) bytes 0,
    get_or-drop n (i + 3) bytes 0,
  )

-- The two ways to peel a buffer, with the next offset given by an equation.
pub drop-byte :
    (bytes : List ℕ) (i j : ℕ)
    → j ≡ i + 1
    → i < length bytes
    → drop i bytes ≡ byte bytes i ∷ drop j bytes
drop-byte bytes i j e h = rw e (drop-eq-byte i bytes h)

pub drop-field :
    (w : ℕ) (bytes : List ℕ) (i j : ℕ)
    → j ≡ i + w
    → IsBytes bytes
    → i + w ≤ length bytes
    → drop i bytes ≡ le_bytes w (word w bytes i) ++ drop j bytes
drop-field w bytes i j e b h = rw e (drop-eq-le_bytes w i bytes b h)
