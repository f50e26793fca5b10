-- ===== src/Protocol/Payload/OutputWrite.antt =====
-- `OutputWritePayload` of daemon/include/ec_systemcore/protocol.hpp; its `data` is `bytes` here.
pub mod Laws
use ec_systemcore.Base.{
  ℕ, ◌+◌, ◌^◌, ◌≤◌, ◌<◌, ◌≡◌, ◌≢◌, refl, sym, ap, ap₂, ◌∙◌, ◌↔◌, Bool, true, false, not, ◌&&◌, ◌||◌,
  List, [], ◌∷◌, ◌++◌, Option, none, some, arith, length, take, drop, append-nil, ltb, leb,
  le→ltb_false, ◌==◌, if◌then◌else◌, ◌>>=◌, ◌>>◌, require, lt→eq_zero_false, is_empty, bit_and, ◌-◌,
  All-drop, length-drop,
}
use ec_systemcore.Protocol.Bytes.{
  byte, append_le16, append_le32, append_le64, read_le16, read_le32, read_le64, flag_byte,
}
use ec_systemcore.Protocol.Limits.{maximum_output_write}

pub record OutputWritePayload : Type 0 where
  pub epoch : ℕ
  pub bus_index : ℕ
  pub sub_device_index : ℕ
  pub offset : ℕ
  pub bytes : List ℕ

unfoldable pub encode_output_write_payload : OutputWritePayload → List ℕ
encode_output_write_payload write =
    if write.epoch == 0
      || write.sub_device_index == 0
      || is_empty write.bytes
      || ltb maximum_output_write (length write.bytes)
    then []
    else append_le16
        (append_le16
          (append_le32
            (append_le16 (append_le16 (append_le64 [] write.epoch) write.bus_index)
              write.sub_device_index)
            write.offset)
          (length write.bytes))
        0
      ++ write.bytes

unfoldable pub decode_output_write_payload : List ℕ → Option OutputWritePayload
decode_output_write_payload payload = do
  require (leb 20 (length payload))
  epoch ← read_le64 payload 0
  require (not (epoch == 0))
  bus_index ← read_le16 payload 8
  sub_device_index ← read_le16 payload 10
  require (not (sub_device_index == 0))
  offset ← read_le32 payload 12
  data_length ← read_le16 payload 16
  require (not (data_length == 0))
  require (leb data_length maximum_output_write)
  reserved ← read_le16 payload 18
  require (reserved == 0)
  require (length payload == 20 + data_length)
  some (record {
    epoch = epoch;
    bus_index = bus_index;
    sub_device_index = sub_device_index;
    offset = offset;
    bytes = drop 20 payload;
  })
