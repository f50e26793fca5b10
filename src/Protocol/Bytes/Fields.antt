-- ===== src/Protocol/Bytes/Fields.antt =====
-- A payload as a row of fields, each a width in bytes and a value: the independent description that
-- the encoders and the decoders of the protocol are held against.
use ec_systemcore.Base.{
  ℕ, zero, suc, ◌+◌, ◌^◌, ◌≤◌, ◌<◌, ◌≡◌, refl, sym, ap, ◌∙◌, List, [], ◌∷◌, ◌++◌, some, arith,
  length, drop, length-append, append_assoc, append-nil, drop-length, drop-append_length, false,
  is_empty, All-append,
}
use ec_systemcore.Protocol.Bytes.{
  IsBytes, byte, append_le16, append_le32, append_le64, read_le16, read_le32, read_le64,
}
use ec_systemcore.Protocol.Bytes.Layout.{
  le_bytes, word, word-le_bytes, le_bytes-IsBytes, drop-eq-le_bytes, read_le16_lem, read_le32_lem,
  read_le64_lem, append_le16_lem, append_le32_lem, append_le64_lem,
}

abbrev pub Field : Type 0
Field = ℕ × ℕ

unfoldable pub fields_text : List Field → List ℕ
fields_text [] = []
fields_text ((w, v) ∷ fs) = le_bytes w v ++ fields_text fs

abbrev pub width : List Field → ℕ
width [] = 0
width ((w, v) ∷ fs) = w + width fs

length-le_bytes : (w v : ℕ) → length (le_bytes w v) ≡ w
length-le_bytes zero v = refl
length-le_bytes (suc w) v = ap suc (length-le_bytes w _)

pub length-fields_text : (fs : List Field) → length (fields_text fs) ≡ width fs
unfolding fields_text
length-fields_text [] = refl
length-fields_text ((w, v) ∷ fs) = omega (
  arith,
  length-append (le_bytes w v) (fields_text fs),
  length-le_bytes w v,
  length-fields_text fs,
)

pub fields_text-IsBytes : (fs : List Field) → IsBytes (fields_text fs)
unfolding fields_text
fields_text-IsBytes [] = tt
fields_text-IsBytes ((w, v) ∷ fs) =
    All-append (λ b. b < 256) (le_bytes w v) (fields_text fs) (le_bytes-IsBytes w v)
      (fields_text-IsBytes fs)

pub fields_text-append :
    (fs gs : List Field) → fields_text (fs ++ gs) ≡ fields_text fs ++ fields_text gs
unfolding fields_text
fields_text-append [] gs = refl
fields_text-append ((w, v) ∷ fs) gs =
    ap (◌++◌ (le_bytes w v)) (fields_text-append fs gs)
    ∙ sym (append_assoc (le_bytes w v) (fields_text fs) (fields_text gs))

-- A payload: a row of fields, and the bytes behind it.
abbrev pub payload_of : List Field → List ℕ → List ℕ
payload_of fs rest = fields_text fs ++ rest

pub length-payload_of :
    (fs : List Field) (rest : List ℕ) → length (payload_of fs rest) ≡ width fs + length rest
length-payload_of fs rest =
    omega (arith, length-append (fields_text fs) rest, length-fields_text fs)

pub payload_of-IsBytes :
    (fs : List Field) (rest : List ℕ) → IsBytes rest → IsBytes (payload_of fs rest)
payload_of-IsBytes fs rest h =
    All-append (λ b. b < 256) (fields_text fs) rest (fields_text-IsBytes fs) h

-- The field behind `before` reads as its value.
word-field :
    (before : List Field) (w v : ℕ) (after : List Field) (rest : List ℕ)
    → v < 256 ^ w
    → word w (payload_of (before ++ (w, v) ∷ after) rest) (width before) ≡ v
unfolding fields_text
word-field before w v after rest fits =
    let text : payload_of (before ++ (w, v) ∷ after) rest
        ≡ fields_text before ++ (le_bytes w v ++ (fields_text after ++ rest)) =
      ap (λ t. t ++ rest) (fields_text-append before ((w, v) ∷ after))
      ∙ append_assoc (fields_text before) (le_bytes w v ++ fields_text after) rest
      ∙ ap (◌++◌ (fields_text before)) (append_assoc (le_bytes w v) (fields_text after) rest) in
    rw (text, ← length-fields_text before)
      (word-le_bytes w (fields_text before) v (fields_text after ++ rest) fits)

pub width-append : (fs gs : List Field) → width (fs ++ gs) ≡ width fs + width gs
width-append [] gs = omega arith
width-append ((w, v) ∷ fs) gs = omega (arith, width-append fs gs)

module _ (before : List Field) (v : ℕ) (after : List Field) (rest : List ℕ) (h : IsBytes rest) where
  inside : (w : ℕ) → width before + w ≤ length (payload_of (before ++ (w, v) ∷ after) rest)
  inside w = omega (
    arith,
    length-payload_of (before ++ (w, v) ∷ after) rest,
    width-append before ((w, v) ∷ after),
  )

  pub byte-field : v < 256 → byte (payload_of (before ++ (1, v) ∷ after) rest) (width before) ≡ v
  byte-field fits = omega (arith, word-field before 1 v after rest fits)

  pub read_le16-field :
      v < 2 ^ 16 → read_le16 (payload_of (before ++ (2, v) ∷ after) rest) (width before) ≡ some v
  read_le16-field fits =
      read_le16_lem _ (width before) (payload_of-IsBytes (before ++ (2, v) ∷ after) rest h)
        (inside 2)
      ∙ ap some (word-field before 2 v after rest fits)

  pub read_le32-field :
      v < 2 ^ 32 → read_le32 (payload_of (before ++ (4, v) ∷ after) rest) (width before) ≡ some v
  read_le32-field fits =
      read_le32_lem _ (width before) (payload_of-IsBytes (before ++ (4, v) ∷ after) rest h)
        (inside 4)
      ∙ ap some (word-field before 4 v after rest fits)

  pub read_le64-field :
      v < 2 ^ 64 → read_le64 (payload_of (before ++ (8, v) ∷ after) rest) (width before) ≡ some v
  read_le64-field fits =
      read_le64_lem _ (width before) (payload_of-IsBytes (before ++ (8, v) ∷ after) rest h)
        (inside 8)
      ∙ ap some (word-field before 8 v after rest fits)

-- The fields of these widths that stand at an offset, and that they are what stands there.
abbrev pub fields_at : List ℕ → List ℕ → ℕ → List Field
fields_at [] bytes offset = []
fields_at (w ∷ ws) bytes offset = (w, word w bytes offset) ∷ fields_at ws bytes (offset + w)

abbrev pub total : List ℕ → ℕ
total [] = 0
total (w ∷ ws) = w + total ws

pub drop-fields_at :
    (ws bytes : List ℕ) (offset : ℕ)
    → IsBytes bytes
    → offset + total ws ≤ length bytes
    → drop offset bytes ≡ payload_of (fields_at ws bytes offset) (drop (offset + total ws) bytes)
unfolding fields_text
drop-fields_at [] bytes offset h k = ap (λ n. drop n bytes) (omega arith)
drop-fields_at (w ∷ ws) bytes offset h k =
    let e : offset + w + total ws ≡ offset + (w + total ws) = omega arith in
    drop-eq-le_bytes w offset bytes h (omega arith)
    ∙ ap (◌++◌ (le_bytes w (word w bytes offset)))
        (rw e at (drop-fields_at ws bytes (offset + w) h (omega arith)))
    ∙ sym (
        append_assoc (le_bytes w (word w bytes offset))
          (fields_text (fields_at ws bytes (offset + w))) _)

-- The encoders' steps, in terms of fields.
pub first-field : (v : ℕ) → v < 256 → (v ∷ []) ≡ fields_text ((1, v) ∷ [])
unfolding fields_text
first-field v h = ap (λ b. b ∷ []) (omega arith)

pub push-field :
    (fs : List Field) (v : ℕ)
    → v < 256
    → fields_text fs ++ (v ∷ []) ≡ fields_text (fs ++ ((1, v) ∷ []))
push-field fs v h =
    ap (◌++◌ (fields_text fs)) (first-field v h) ∙ sym (fields_text-append fs ((1, v) ∷ []))

module _ (fs : List Field) (v : ℕ) where
  pub append_le16-field : append_le16 (fields_text fs) v ≡ fields_text (fs ++ ((2, v) ∷ []))
  unfolding fields_text
  append_le16-field = append_le16_lem (fields_text fs) v ∙ sym (fields_text-append fs ((2, v) ∷ []))

  pub append_le32-field : append_le32 (fields_text fs) v ≡ fields_text (fs ++ ((4, v) ∷ []))
  unfolding fields_text
  append_le32-field = append_le32_lem (fields_text fs) v ∙ sym (fields_text-append fs ((4, v) ∷ []))

  pub append_le64-field : append_le64 (fields_text fs) v ≡ fields_text (fs ++ ((8, v) ∷ []))
  unfolding fields_text
  append_le64-field = append_le64_lem (fields_text fs) v ∙ sym (fields_text-append fs ((8, v) ∷ []))

pub fields_text-nil : [] ≡ fields_text []
unfolding fields_text
fields_text-nil = refl

-- Bytes of exactly these widths are the text of the fields that stand there.
pub fields_at-exact :
    (ws bytes : List ℕ)
    → IsBytes bytes
    → length bytes ≡ total ws
    → bytes ≡ fields_text (fields_at ws bytes 0)
fields_at-exact ws bytes h e =
    drop-fields_at ws bytes 0 h (omega arith)
    ∙ ap (◌++◌ (fields_text (fields_at ws bytes 0)))
        (drop-length (0 + total ws) bytes (omega arith))
    ∙ append-nil (fields_text (fields_at ws bytes 0))

-- `payload.empty()` after a first field has been written.
pub is_empty-append_le64 : (v : ℕ) → is_empty (append_le64 [] v) ≡ false
unfolding append_le64
is_empty-append_le64 v = refl

pub drop-payload_of :
    (fs : List Field) (rest : List ℕ) → drop (width fs) (payload_of fs rest) ≡ rest
drop-payload_of fs rest =
    ap (λ n. drop n (payload_of fs rest)) (sym (length-fields_text fs))
    ∙ drop-append_length (fields_text fs) rest
