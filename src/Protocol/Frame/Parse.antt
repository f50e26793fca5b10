-- ===== src/Protocol/Frame/Parse.antt =====
-- One round of the decoder's loop against the encoder.
use ec_systemcore.Base.{
  ℕ, ◌+◌, ◌-◌, ◌^◌, ◌≤◌, ◌<◌, ◌≡◌, refl, sym, ap, ◌∙◌, true, List, [], ◌∷◌, ◌++◌, some, arith,
  length, take, drop, length-append, length-drop, length-take, drop-drop, take-append-drop,
  le→ltb_false, take-append_length, append_assoc, append-nil,
}
use ec_systemcore.Protocol.Bytes.{IsBytes, byte}
use ec_systemcore.Protocol.Bytes.Layout.{
  le_bytes, word, append_le16_lem, append_le32_lem, read_le16_lem, read_le32_lem, word-le_bytes,
  drop-byte, drop-field, word-lt, read_le16-eq_some, read_le32-eq_some,
}
use ec_systemcore.Protocol.Enums.{
  message_type_code, is_known_message_type, message_type_of_code-code, message_type_code-of_code,
}
use ec_systemcore.Protocol.Frame.{Frame, encode_frame}
use ec_systemcore.Protocol.Frame.FrameAt.{FrameAt}

-- The frames that the encoder accepts.
pub record IsEncodable (f : Frame) : Type 0 where
  pub known : is_known_message_type f.type ≡ true
  pub id_fits : f.request_id < 2 ^ 32
  pub short : 12 + length f.payload ≤ 8192

abbrev pub encoded : Frame → List ℕ
encoded f = encode_frame f.type f.request_id f.payload

-- The text of a frame by its parts, with what follows it.
abbrev frame_text : ℕ → ℕ → ℕ → List ℕ → List ℕ
frame_text frame_length code id tail =
    le_bytes 4 frame_length ++ (69 ∷ 67 ∷ 83 ∷ 67 ∷ 1 ∷ code ∷ 0 ∷ 0 ∷ (le_bytes 4 id ++ tail))

encoded-append :
    (f : Frame) (rest : List ℕ)
    → IsEncodable f
    → encoded f ++ rest
      ≡ frame_text
          (12 + length f.payload)
          (message_type_code f.type)
          f.request_id
          (f.payload ++ rest)
unfolding encode_frame
encoded-append f rest v =
    rw (v.known, le→ltb_false (12 + length f.payload) 8192 v.short)
      (simp (append_le32_lem, append_le16_lem, append_assoc))

-- The encoder's text of a frame is a frame.
FrameAt-frame_text :
    (f : Frame) (rest : List ℕ)
    → IsEncodable f
    → (text : List ℕ)
    → text
      ≡ frame_text
          (12 + length f.payload)
          (message_type_code f.type)
          f.request_id
          (f.payload ++ rest)
    → IsBytes text
    → FrameAt text 0 f (16 + length f.payload)
FrameAt-frame_text f rest v text e h = record {
  frame_length = 12 + length f.payload;
  length_at =
      read_le32_lem text 0 h (rw e (omega arith))
      ∙ ap some (rw e (word-le_bytes 4 [] (12 + length f.payload) tail (omega arith)));
  total_is = omega arith;
  least = omega arith;
  most = v.short;
  inside = rw e (omega (arith, length-append f.payload rest));
  envelope = record {
    magic_at = rw e refl;
    version_at = rw e refl;
    flags_at = read_le16_lem text 10 h (rw e (omega arith)) ∙ rw e refl;
    id_at =
        read_le32_lem text 12 h (rw e (omega arith))
        ∙ ap some (rw e (word-le_bytes 4 front f.request_id (f.payload ++ rest) v.id_fits));
    type_at = rw e (sym (message_type_of_code-code f.type v.known));
    known = v.known;
    payload_at =
        let n : 0 + (16 + length f.payload) - 16 ≡ length f.payload = omega arith in
        rw (e, n) (sym (take-append_length f.payload rest));
  };
}
  where
    tail : List ℕ
    tail =
        69
        ∷ 67
        ∷ 83
        ∷ 67
        ∷ 1
        ∷ message_type_code f.type
        ∷ 0
        ∷ 0
        ∷ (le_bytes 4 f.request_id ++ (f.payload ++ rest))

    front : List ℕ
    front =
        le_bytes 4 (12 + length f.payload)
        ++ (69 ∷ 67 ∷ 83 ∷ 67 ∷ 1 ∷ message_type_code f.type ∷ 0 ∷ 0 ∷ [])

-- Conversely, a frame at an offset is the encoder's text of it.
pub FrameAt-IsEncodable :
    (buffer : List ℕ) (offset : ℕ) (f : Frame) (total : ℕ)
    → IsBytes buffer
    → FrameAt buffer offset f total
    → IsEncodable f × (total ≡ 16 + length f.payload)
FrameAt-IsEncodable buffer offset f total h at = (
  record {
    known = at.envelope.known;
    id_fits = rw id_is (word-lt 4 buffer (offset + 12) h);
    short = omega (arith, payload_length);
  },
  omega (arith, payload_length),
)
  where
    id_is : f.request_id ≡ word 4 buffer (offset + 12)
    id_is = ground (arith, at.envelope.id_at, read_le32_lem buffer (offset + 12) h)

    payload_length : length f.payload ≡ total - 16
    payload_length = rw at.envelope.payload_at (
        length-take (offset + total - (offset + 16)) (drop (offset + 16) buffer)
          (omega (arith, length-drop (offset + 16) buffer))
        ∙ omega arith)

header-drop :
    (b : List ℕ) (o : ℕ)
    → IsBytes b
    → o + 16 ≤ length b
    → drop o b
      ≡ le_bytes 4 (word 4 b o)
        ++ (byte b (o + 4)
            ∷ byte b (o + 5)
            ∷ byte b (o + 6)
            ∷ byte b (o + 7)
            ∷ byte b (o + 8)
            ∷ byte b (o + 9)
            ∷ byte b (o + 10)
            ∷ byte b (o + 11)
            ∷ (le_bytes 4 (word 4 b (o + 12)) ++ drop (o + 16) b))
header-drop b o h k =
    rw
      (
        drop-field 4 b o (o + 4) refl h (omega arith),
        drop-byte b (o + 4) (o + 5) (omega arith) (omega arith),
        drop-byte b (o + 5) (o + 6) (omega arith) (omega arith),
        drop-byte b (o + 6) (o + 7) (omega arith) (omega arith),
        drop-byte b (o + 7) (o + 8) (omega arith) (omega arith),
        drop-byte b (o + 8) (o + 9) (omega arith) (omega arith),
        drop-byte b (o + 9) (o + 10) (omega arith) (omega arith),
        drop-byte b (o + 10) (o + 11) (omega arith) (omega arith),
        drop-byte b (o + 11) (o + 12) (omega arith) (omega arith),
        drop-field 4 b (o + 12) (o + 16) (omega arith) h (omega arith),
      )
      refl

pub FrameAt-drop :
    (buffer : List ℕ) (offset : ℕ) (f : Frame) (total : ℕ)
    → IsBytes buffer
    → FrameAt buffer offset f total
    → drop offset buffer ≡ encoded f ++ drop (offset + total) buffer
FrameAt-drop b o f total h at =
    header-drop b o h (omega arith)
    ∙ rw
        (
          length_is, id_is, magic_is.0, magic_is.1, magic_is.2, magic_is.3, at.envelope.version_at,
          code_is, flags_is.0, flags_is.1,
        )
        (ap (frame_text _ _ _) tail_is)
    ∙ sym (encoded-append f (drop (o + total) b) (FrameAt-IsEncodable b o f total h at).0)
  where
    length_is : word 4 b o ≡ 12 + length f.payload
    length_is = omega (
      arith,
      (read_le32-eq_some b o at.frame_length h at.length_at).1,
      (FrameAt-IsEncodable b o f total h at).1,
    )

    id_is : word 4 b (o + 12) ≡ f.request_id
    id_is = (read_le32-eq_some b (o + 12) f.request_id h at.envelope.id_at).1

    flags_word : word 2 b (o + 10) ≡ 0
    flags_word = (read_le16-eq_some b (o + 10) 0 h at.envelope.flags_at).1

    flags_is : (byte b (o + 10) ≡ 0) × (byte b (o + 11) ≡ 0)
    flags_is =
        let e : o + 10 + 1 ≡ o + 11 = omega arith in
        (omega (arith, flags_word), rw (← e) (omega (arith, flags_word)))

    magic_is :
        (byte b (o + 4) ≡ 69)
        × (byte b (o + 5) ≡ 67)
        × (byte b (o + 6) ≡ 83)
        × (byte b (o + 7) ≡ 67)
    magic_is =
        let e5 : o + 4 + 1 ≡ o + 5 = omega arith in
        let e6 : o + 4 + 1 + 1 ≡ o + 6 = omega arith in
        let e7 : o + 4 + 1 + 1 + 1 ≡ o + 7 = omega arith in
        ground (arith, at.envelope.magic_at, e5, e6, e7)

    code_is : byte b (o + 9) ≡ message_type_code f.type
    code_is = rw at.envelope.type_at (sym (message_type_code-of_code (byte b (o + 9))))

    tail_is : drop (o + 16) b ≡ f.payload ++ drop (o + total) b
    tail_is = rw at.envelope.payload_at (
        sym (take-append-drop (o + total - (o + 16)) (drop (o + 16) b))
        ∙ ap (◌++◌ (take (o + total - (o + 16)) (drop (o + 16) b)))
            (drop-drop (o + total - (o + 16)) (o + 16) b ∙ ap (λ n. drop n b) (omega arith)))

-- The encoder's text at the start of a buffer is a frame there.
pub FrameAt-encoded :
    (f : Frame) (rest : List ℕ)
    → IsEncodable f
    → IsBytes (encoded f ++ rest)
    → FrameAt (encoded f ++ rest) 0 f (16 + length f.payload)
FrameAt-encoded f rest v h =
    FrameAt-frame_text f rest v (encoded f ++ rest) (encoded-append f rest v) h

pub length-encoded : (f : Frame) → IsEncodable f → length (encoded f) ≡ 16 + length f.payload
length-encoded f v = omega (
  arith,
  ap length (encoded-append f [] v),
  ap length (append-nil (encoded f)),
  ap length (append-nil f.payload),
)
