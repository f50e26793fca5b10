-- ===== src/Tests.antt =====
-- The theorems at concrete inputs: here for the frame decoder of
-- daemon/include/ec_systemcore/protocol.hpp, in the children for the other parts.
mod Payloads
mod Gates
mod Clocks
mod Images
mod Adapters
mod Queues
mod Outputs
mod Json
mod Sessions
use ec_systemcore.Base.{ℕ, ◌≡◌, refl, List, [], ◌∷◌, ◌++◌, some, arith, true}
use ec_systemcore.Protocol.Enums.{MessageType, message_type_code, is_known_message_type}
use ec_systemcore.Protocol.Bytes.{append_le16, append_le32}
use ec_systemcore.Protocol.Frame.{Frame, FrameDecoder, FeedResult, DecodeError, encode_frame, feed}
use ec_systemcore.Protocol.Frame.Stream.{encode_frames}
use ec_systemcore.Protocol.Frame.Feed.{IsReady, IsFed, feed-IsFed, feed-encode_frames}
use ec_systemcore.Protocol.Frame.Errors.{Latches, feed-Latches}
use ec_systemcore.Protocol.Frame.Chunks.{SameResult, feed_twice, feed-append}

abbrev fresh : FrameDecoder
fresh = record { buffer = []; error = DecodeError.no_error }

-- The length, the magic and the version of a heartbeat's frame.
abbrev head_bytes : List ℕ
head_bytes = 20 ∷ 0 ∷ 0 ∷ 0 ∷ 69 ∷ 67 ∷ 83 ∷ 67 ∷ 1 ∷ []

-- The rest of it, with its epoch 7, and the first byte of another frame.
abbrev rest_bytes : List ℕ
rest_bytes = 2 ∷ 0 ∷ 0 ∷ 5 ∷ 0 ∷ 0 ∷ 0 ∷ 7 ∷ 0 ∷ 0 ∷ 0 ∷ 0 ∷ 0 ∷ 0 ∷ 0 ∷ 12 ∷ []

abbrev beats : List Frame
beats =
    record {
      type = MessageType.heartbeat;
      request_id = 5;
      payload = 7 ∷ 0 ∷ 0 ∷ 0 ∷ 0 ∷ 0 ∷ 0 ∷ 0 ∷ [];
    }
    ∷ []

feed-IsFed_example :
    (r : FeedResult) × (feed fresh (head_bytes ++ rest_bytes) [] ≡ some r)
    × IsFed fresh (head_bytes ++ rest_bytes) [] r
feed-IsFed_example =
    feed-IsFed fresh (head_bytes ++ rest_bytes) [] (record { clean = refl; fits = omega arith })
      (ground arith)

feed-encode_frames_example :
    feed fresh (encode_frames beats) []
    ≡ some (record { accepted = true; decoder = fresh; frames = beats })
unfolding encode_frame append_le32 append_le16 message_type_code is_known_message_type
feed-encode_frames_example =
    feed-encode_frames beats []
      (record { known = refl; id_fits = omega arith; short = omega arith }, tt) (ground arith)
      (omega arith)

feed-append_example :
    (r : FeedResult) × (s : FeedResult) × (feed fresh (head_bytes ++ rest_bytes) [] ≡ some r)
    × (feed_twice fresh head_bytes rest_bytes [] ≡ some s)
    × SameResult r s
feed-append_example =
    feed-append fresh head_bytes rest_bytes [] (record { clean = refl; fits = omega arith })

-- A length of 1 is too small for a frame.
feed-Latches_example :
    (r : FeedResult) × (feed fresh (1 ∷ 0 ∷ 0 ∷ 0 ∷ []) [] ≡ some r) × Latches r head_bytes beats
feed-Latches_example = feed-Latches fresh (1 ∷ 0 ∷ 0 ∷ 0 ∷ []) head_bytes [] beats
