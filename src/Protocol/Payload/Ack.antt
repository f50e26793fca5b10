-- ===== src/Protocol/Payload/Ack.antt =====
-- `EncodeAckPayload` and `DecodeAckPayload` of daemon/include/ec_systemcore/protocol.hpp. The source
-- passes the status and the detail one by one.
pub mod Laws
use ec_systemcore.Base.{
  ℕ, ◌≡◌, Bool, true, not, List, [], Option, some, length, ◌==◌, if◌then◌else◌, ◌>>=◌, ◌>>◌,
  require,
}
use ec_systemcore.Protocol.Bytes.{append_le16, append_le32, read_le16, read_le32}
use ec_systemcore.Protocol.Enums.{
  AckStatus, ack_status_code, ack_status_of_code, is_known_ack_status,
}

pub record AckPayload : Type 0 where
  pub status : AckStatus
  pub detail : ℕ

unfoldable pub encode_ack_payload : AckPayload → List ℕ
encode_ack_payload ack =
    if not (is_known_ack_status ack.status)
    then []
    else append_le32 (append_le16 (append_le16 [] (ack_status_code ack.status)) 0) ack.detail

unfoldable pub decode_ack_payload : List ℕ → Option AckPayload
decode_ack_payload payload = do
  require (length payload == 8)
  raw_status ← read_le16 payload 0
  reserved ← read_le16 payload 2
  require (reserved == 0)
  detail ← read_le32 payload 4
  require (is_known_ack_status (ack_status_of_code raw_status))
  some (record { status = ack_status_of_code raw_status; detail = detail })
