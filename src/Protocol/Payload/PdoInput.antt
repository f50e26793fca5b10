-- ===== src/Protocol/Payload/PdoInput.antt =====
-- `PdoInputPayload` of daemon/include/ec_systemcore/protocol.hpp; its `data` is `bytes` here.
pub mod Laws
use ec_systemcore.Base.{
  ℕ, ◌+◌, ◌-◌, ◌≡◌, Bool, true, not, ◌||◌, List, [], ◌++◌, Option, some, length, drop, ltb, leb,
  ◌==◌, if◌then◌else◌, ◌>>=◌, ◌>>◌, require, is_empty,
}
use ec_systemcore.Protocol.Bytes.{
  append_le16, append_le32, append_le64, read_le16, read_le32, read_le64,
}
use ec_systemcore.Protocol.Limits.{maximum_pdo_chunk, maximum_pdo_image}

pub record PdoInputPayload : Type 0 where
  pub bus_index : ℕ
  pub sub_device_index : ℕ
  pub offset : ℕ
  pub total_size : ℕ
  pub epoch : ℕ
  pub cycle_sequence : ℕ
  pub bytes : List ℕ

unfoldable pub encode_pdo_input_payload : PdoInputPayload → List ℕ
encode_pdo_input_payload input =
    if input.sub_device_index == 0
      || input.epoch == 0
      || input.cycle_sequence == 0
      || input.total_size == 0
      || is_empty input.bytes
      || ltb maximum_pdo_chunk (length input.bytes)
      || ltb maximum_pdo_image input.total_size
      || ltb input.total_size input.offset
      || ltb (input.total_size - input.offset) (length input.bytes)
    then []
    else append_le64
        (append_le64
          (append_le16
            (append_le16
              (append_le32
                (append_le32 (append_le16 (append_le16 [] input.bus_index) input.sub_device_index)
                  input.offset)
                input.total_size)
              (length input.bytes))
            0)
          input.epoch)
        input.cycle_sequence
      ++ input.bytes

unfoldable pub decode_pdo_input_payload : ℕ → List ℕ → Option PdoInputPayload
decode_pdo_input_payload maximum_total_size payload = do
  require (leb 32 (length payload))
  bus_index ← read_le16 payload 0
  sub_device_index ← read_le16 payload 2
  offset ← read_le32 payload 4
  total_size ← read_le32 payload 8
  chunk_length ← read_le16 payload 12
  reserved ← read_le16 payload 14
  require (reserved == 0)
  epoch ← read_le64 payload 16
  cycle_sequence ← read_le64 payload 24
  require (not (sub_device_index == 0))
  require (not (epoch == 0))
  require (not (cycle_sequence == 0))
  require (not (total_size == 0))
  require (not (chunk_length == 0))
  require (leb chunk_length maximum_pdo_chunk)
  require (leb total_size maximum_total_size)
  require (leb offset total_size)
  require (leb chunk_length (total_size - offset))
  require (length payload == 32 + chunk_length)
  some (record {
    bus_index = bus_index;
    sub_device_index = sub_device_index;
    offset = offset;
    total_size = total_size;
    epoch = epoch;
    cycle_sequence = cycle_sequence;
    bytes = drop 32 payload;
  })
