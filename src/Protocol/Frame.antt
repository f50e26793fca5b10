-- ===== src/Protocol/Frame.antt =====
-- `EncodeFrame` and the streaming `FrameDecoder` of daemon/include/ec_systemcore/protocol.hpp.
-- `parse_one` is the body of the decoder's loop at one offset, `parse_loop` the loop, which takes
-- the buffer's size as fuel: every round that goes on consumes a frame.
pub mod FrameAt
pub mod Parse
pub mod Runs
pub mod Stream
pub mod Errors
pub mod Feed
pub mod Chunks
use ec_systemcore.Base.{
  ℕ, zero, suc, ◌+◌, ◌-◌, Bool, true, false, not, ◌&&◌, ◌||◌, List, [], ◌∷◌, ◌++◌, Option, none,
  some, ltb, ◌==◌, if◌then◌else◌, length, take, drop,
}
use ec_systemcore.Protocol.Bytes.{byte, append_le16, append_le32, read_le16, read_le32}
use ec_systemcore.Protocol.Enums.{
  MessageType, message_type_code, message_type_of_code, is_known_message_type,
}
use ec_systemcore.Protocol.Limits.{
  magic, version, envelope_size, length_prefix_size, minimum_frame_length, maximum_frame_length,
  maximum_buffered_input,
}

pub record Frame : Type 0 where
  pub type : MessageType
  pub request_id : ℕ
  pub payload : List ℕ

unfoldable pub encode_frame : MessageType → ℕ → List ℕ → List ℕ
encode_frame type request_id payload =
    let frame_length = envelope_size + length payload in
    if not (is_known_message_type type) || ltb maximum_frame_length frame_length
    then []
    else append_le32
        (append_le16
          (((append_le32 [] frame_length ++ magic) ++ (version ∷ []))
            ++ (message_type_code type ∷ []))
          0)
        request_id
      ++ payload

pub data DecodeError : Type 0 where
  no_error buffer_limit invalid_length invalid_magic : DecodeError
  unsupported_version reserved_flags invalid_message_type : DecodeError

abbrev pub is_no_error : DecodeError → Bool
is_no_error DecodeError.no_error = true
is_no_error other = false

pub record FrameDecoder : Type 0 where
  pub buffer : List ℕ
  pub error : DecodeError

-- What one round of the loop does: leave the loop, fail, or take a frame of so many bytes.
pub data Round : Type 0 where
  wait : Round
  fail : DecodeError → Round
  take_frame : Frame → ℕ → Round

-- `std::equal(kMagic.begin(), kMagic.end(), buffer_.begin() + offset)`
abbrev pub equal_at : List ℕ → List ℕ → ℕ → Bool
equal_at [] buffer offset = true
equal_at (m ∷ ms) buffer offset = byte buffer offset == m && equal_at ms buffer (offset + 1)

-- The bytes from `first` up to `last`.
abbrev pub slice : List ℕ → ℕ → ℕ → List ℕ
slice buffer first last = take (last - first) (drop first buffer)

-- The rest of the round, where the whole frame is in the buffer.
unfoldable pub parse_envelope : List ℕ → ℕ → ℕ → Round
parse_envelope buffer offset total =
    if not (equal_at magic buffer (offset + length_prefix_size))
    then fail DecodeError.invalid_magic
    else if not (byte buffer (offset + 8) == version)
    then fail DecodeError.unsupported_version
    else elim (read_le16 buffer (offset + 10)) [
      | none ↦ fail DecodeError.reserved_flags
      | some flags ↦
          if not (flags == 0)
          then fail DecodeError.reserved_flags
          else elim (read_le32 buffer (offset + 12)) [
            | none ↦ fail DecodeError.invalid_length
            | some request_id ↦
                let type = message_type_of_code (byte buffer (offset + 9)) in
                if not (is_known_message_type type)
                then fail DecodeError.invalid_message_type
                else take_frame
                    (record {
                      type = type;
                      request_id = request_id;
                      payload =
                          slice buffer (offset + (length_prefix_size + envelope_size))
                            (offset + total);
                    })
                    total
          ]
    ]

unfoldable pub parse_one : List ℕ → ℕ → Round
parse_one buffer offset =
    if ltb (length buffer - offset) length_prefix_size
    then wait
    else elim (read_le32 buffer offset) [
      | none ↦ fail DecodeError.invalid_length
      | some frame_length ↦
          if ltb frame_length minimum_frame_length || ltb maximum_frame_length frame_length
          then fail DecodeError.invalid_length
          else if ltb (length buffer - offset) (length_prefix_size + frame_length)
          then wait
          else parse_envelope buffer offset (length_prefix_size + frame_length)
    ]

-- What the loop leaves: the frames so far, the offset, and the error if one was met.
pub record LoopEnd : Type 0 where
  pub frames : List Frame
  pub parse_offset : ℕ
  pub failure : DecodeError

unfoldable pub parse_loop : ℕ → List ℕ → ℕ → List Frame → Option LoopEnd
parse_loop zero buffer offset frames = none
parse_loop (suc fuel) buffer offset frames = elim (parse_one buffer offset) [
  | wait ↦ some (record { frames = frames; parse_offset = offset; failure = DecodeError.no_error })
  | fail e ↦ some (record { frames = frames; parse_offset = offset; failure = e })
  | take_frame f total ↦ parse_loop fuel buffer (offset + total) (frames ++ (f ∷ []))
]

-- What `Feed` returns, with the decoder and the caller's vector as it leaves them.
pub record FeedResult : Type 0 where
  pub accepted : Bool
  pub decoder : FrameDecoder
  pub frames : List Frame

unfoldable pub feed_loop : List ℕ → List Frame → Option FeedResult
feed_loop buffer frames = elim (parse_loop (suc (length buffer)) buffer 0 frames) [
  | none ↦ none
  | some end ↦ some (
      if is_no_error end.failure
      then (record {
        accepted = true;
        decoder = record { buffer = drop end.parse_offset buffer; error = DecodeError.no_error };
        frames = end.frames;
      })
      else (record {
        accepted = false;
        decoder = record { buffer = buffer; error = end.failure };
        frames = end.frames;
      }))
]

unfoldable pub feed : FrameDecoder → List ℕ → List Frame → Option FeedResult
feed d bytes frames =
    if not (is_no_error d.error)
    then some (record { accepted = false; decoder = d; frames = frames })
    else if ltb maximum_buffered_input (length bytes)
        || ltb (maximum_buffered_input - length bytes) (length d.buffer)
    then some (record {
      accepted = false;
      decoder = record d { error = DecodeError.buffer_limit };
      frames = frames;
    })
    else feed_loop (d.buffer ++ bytes) frames

-- `Reset`, which is also the state of a new decoder.
unfoldable pub reset : FrameDecoder → FrameDecoder
reset d = record { buffer = []; error = DecodeError.no_error }
