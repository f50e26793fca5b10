-- ===== src/Protocol/Frame/FrameAt.antt =====
-- What it means that a frame stands at an offset of the buffer: the facts that one round of the
-- decoder's loop checks.
use ec_systemcore.Base.{
  ℕ, ◌+◌, ◌-◌, ◌≤◌, ◌<◌, ◌≡◌, true, List, ◌++◌, some, arith, length, drop, Option-cases, ◌≢◌, inl,
  inr, get_or-append, drop-append, take-append, length-drop, length-append, get_or-drop, drop-drop,
}
use ec_systemcore.Protocol.Bytes.Layout.{
  read_le16-append, read_le32-append, read_le16-drop, read_le32-drop,
}
use ec_systemcore.Protocol.Bytes.{byte, read_le16, read_le32}
use ec_systemcore.Protocol.Enums.{message_type_of_code, is_known_message_type}
use ec_systemcore.Protocol.Frame.{
  Frame, wait, fail, take_frame, parse_one, parse_envelope, DecodeError, slice, equal_at,
}
use ec_systemcore.Protocol.Limits.{magic}

pub record EnvelopeAt (buffer : List ℕ) (offset : ℕ) (f : Frame) (total : ℕ) : Type 0 where
  pub magic_at : equal_at magic buffer (offset + 4) ≡ true
  pub version_at : byte buffer (offset + 8) ≡ 1
  pub flags_at : read_le16 buffer (offset + 10) ≡ some 0
  pub id_at : read_le32 buffer (offset + 12) ≡ some f.request_id
  pub type_at : f.type ≡ message_type_of_code (byte buffer (offset + 9))
  pub known : is_known_message_type f.type ≡ true
  pub payload_at : f.payload ≡ slice buffer (offset + 16) (offset + total)

pub record FrameAt (buffer : List ℕ) (offset : ℕ) (f : Frame) (total : ℕ) : Type 0 where
  pub frame_length : ℕ
  pub length_at : read_le32 buffer offset ≡ some frame_length
  pub total_is : total ≡ 4 + frame_length
  pub least : 12 ≤ frame_length
  pub most : frame_length ≤ 8192
  pub inside : offset + total ≤ length buffer
  pub envelope : EnvelopeAt buffer offset f total

module _ (buffer : List ℕ) (offset : ℕ) (f : Frame) where
  parse_envelope-of_EnvelopeAt :
      (total : ℕ)
      → EnvelopeAt buffer offset f total
      → parse_envelope buffer offset total ≡ take_frame f total
  unfolding parse_envelope
  parse_envelope-of_EnvelopeAt total e = ground arith

  parse_envelope-EnvelopeAt :
      (total t : ℕ)
      → parse_envelope buffer offset t ≡ take_frame f total
      → EnvelopeAt buffer offset f total × (total ≡ t)
  unfolding parse_envelope
  parse_envelope-EnvelopeAt total t e = ground arith

  pub parse_one-of_FrameAt :
      (total : ℕ) → FrameAt buffer offset f total → parse_one buffer offset ≡ take_frame f total
  unfolding parse_one
  parse_one-of_FrameAt total h = ground (arith, parse_envelope-of_EnvelopeAt total h.envelope)

  pub parse_one-FrameAt :
      (total : ℕ) → parse_one buffer offset ≡ take_frame f total → FrameAt buffer offset f total
  unfolding parse_one
  parse_one-FrameAt total e = elim (Option-cases (read_le32 buffer offset)) [
    | inl unread ↦ ground (arith, unread)
    | inr (n, read) ↦ record {
      frame_length = n;
      length_at = read;
      total_is = ground (arith, parse_envelope-EnvelopeAt total (4 + n));
      least = ground arith;
      most = ground arith;
      inside = ground (arith, parse_envelope-EnvelopeAt total (4 + n));
      envelope = ground (arith, parse_envelope-EnvelopeAt total (4 + n));
    }
  ]

-- The loop waits only for a part of one frame.
pub parse_one-wait :
    (buffer : List ℕ) (offset : ℕ)
    → parse_one buffer offset ≡ wait
    → length buffer - offset < 4 + 8192
unfolding parse_one parse_envelope
parse_one-wait buffer offset e = ground arith

-- A round that does not wait is the same when more bytes stand behind the buffer.
module _ (front rest : List ℕ) (offset : ℕ) where
  parse_envelope-append :
      (total : ℕ)
      → 16 ≤ total
      → offset + total ≤ length front
      → parse_envelope (front ++ rest) offset total ≡ parse_envelope front offset total
  unfolding parse_envelope
  parse_envelope-append total least inside = ground (
    arith,
    get_or-append front rest (offset + 4) 0,
    get_or-append front rest (offset + 4 + 1) 0,
    get_or-append front rest (offset + 4 + 1 + 1) 0,
    get_or-append front rest (offset + 4 + 1 + 1 + 1) 0,
    get_or-append front rest (offset + 8) 0,
    get_or-append front rest (offset + 9) 0,
    read_le16-append front rest (offset + 10),
    read_le32-append front rest (offset + 12),
    drop-append (offset + 16) front rest,
    take-append (offset + total - (offset + 16)) (drop (offset + 16) front) rest,
    length-drop (offset + 16) front,
  )

  pub parse_one-append :
      offset ≤ length front
      → parse_one front offset ≢ wait
      → parse_one (front ++ rest) offset ≡ parse_one front offset
  unfolding parse_one
  parse_one-append inside settled = elim (Option-cases (read_le32 front offset)) [
    | inl unread ↦ ground (arith, length-append front rest, read_le32-append front rest offset)
    | inr (n, read) ↦ ground (
      arith,
      length-append front rest,
      read_le32-append front rest offset,
      parse_envelope-append (4 + n),
    )
  ]

-- A round at an offset is the round at the start of what stands there.
module _ (b : List ℕ) (k o : ℕ) where
  parse_envelope-drop :
      (total : ℕ)
      → 16 ≤ total
      → k + o + total ≤ length b
      → parse_envelope (drop k b) o total ≡ parse_envelope b (k + o) total
  unfolding parse_envelope
  parse_envelope-drop total least inside = ground (
    arith,
    length-drop k b,
    e 4,
    e 8,
    e 9,
    e 10,
    e 12,
    e 16,
    e total,
    e1 4,
    e2 4,
    e3 4,
    get_or-drop k (o + 4) b 0,
    get_or-drop k (o + 4 + 1) b 0,
    get_or-drop k (o + 4 + 1 + 1) b 0,
    get_or-drop k (o + 4 + 1 + 1 + 1) b 0,
    get_or-drop k (o + 8) b 0,
    get_or-drop k (o + 9) b 0,
    read_le16-drop k (o + 10) b,
    read_le32-drop k (o + 12) b,
    drop-drop (o + 16) k b,
  )
    where
      e : (n : ℕ) → k + (o + n) ≡ k + o + n
      e n = omega arith

      e1 : (n : ℕ) → k + (o + n + 1) ≡ k + o + n + 1
      e1 n = omega arith

      e2 : (n : ℕ) → k + (o + n + 1 + 1) ≡ k + o + n + 1 + 1
      e2 n = omega arith

      e3 : (n : ℕ) → k + (o + n + 1 + 1 + 1) ≡ k + o + n + 1 + 1 + 1
      e3 n = omega arith

  pub parse_one-drop : k + o ≤ length b → parse_one (drop k b) o ≡ parse_one b (k + o)
  unfolding parse_one
  parse_one-drop inside = elim (Option-cases (read_le32 b (k + o))) [
    | inl unread ↦ ground (arith, length-drop k b, read_le32-drop k o b)
    | inr (n, read) ↦
        ground (arith, length-drop k b, read_le32-drop k o b, parse_envelope-drop (4 + n))
  ]

pub parse_one-ne_no_error :
    (b : List ℕ) (o : ℕ) (e : DecodeError) → parse_one b o ≡ fail e → e ≢ DecodeError.no_error
unfolding parse_one parse_envelope
parse_one-ne_no_error b o e h = ground arith
