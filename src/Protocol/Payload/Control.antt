-- ===== src/Protocol/Payload/Control.antt =====
-- The payloads of the control messages of daemon/include/ec_systemcore/protocol.hpp.
pub mod Laws
use ec_systemcore.Base.{
  ℕ, ◌+◌, ◌^◌, ◌≤◌, ◌<◌, ◌≡◌, ◌≢◌, refl, sym, ap, ap₂, ◌∙◌, ◌↔◌, Bool, true, false, not, ◌&&◌, ◌||◌,
  List, [], ◌∷◌, ◌++◌, Option, none, some, arith, length, take, drop, append-nil, ltb, leb,
  le→ltb_false, ◌==◌, if◌then◌else◌, ◌>>=◌, ◌>>◌, require, lt→eq_zero_false, is_empty, bit_and, ◌-◌,
  All-drop, length-drop,
}
use ec_systemcore.Protocol.Bytes.{
  byte, append_le16, append_le32, append_le64, read_le16, read_le32, read_le64, flag_byte,
}
use ec_systemcore.Protocol.Enums.{
  DisableReason, disable_reason_code, disable_reason_of_code, disable_reason_code-of_code,
}
use ec_systemcore.Protocol.Bytes.Layout.{read_le16_lem}

unfoldable pub encode_epoch_payload : ℕ → List ℕ
encode_epoch_payload epoch = if epoch == 0 then [] else append_le64 [] epoch

unfoldable pub decode_epoch_payload : List ℕ → Option ℕ
decode_epoch_payload payload = do
  require (length payload == 8)
  epoch ← read_le64 payload 0
  require (not (epoch == 0))
  some epoch

pub record OutputEnablePayload : Type 0 where
  pub epoch : ℕ
  pub enabled : Bool

unfoldable pub encode_output_enable_payload : OutputEnablePayload → List ℕ
encode_output_enable_payload enable =
    let payload = encode_epoch_payload enable.epoch in
    if is_empty payload then [] else payload ++ (flag_byte enable.enabled ∷ [])

unfoldable pub decode_output_enable_payload : List ℕ → Option OutputEnablePayload
decode_output_enable_payload payload = do
  require (length payload == 9)
  require (leb (byte payload 8) 1)
  epoch ← read_le64 payload 0
  require (not (epoch == 0))
  some (record { epoch = epoch; enabled = not (byte payload 8 == 0) })

pub record AdapterUnlockPayload : Type 0 where
  pub epoch : ℕ
  pub bus_index : ℕ

unfoldable pub encode_adapter_unlock_payload : AdapterUnlockPayload → List ℕ
encode_adapter_unlock_payload unlock =
    let payload = encode_epoch_payload unlock.epoch in
    if is_empty payload then [] else append_le16 payload unlock.bus_index

unfoldable pub decode_adapter_unlock_payload : List ℕ → Option AdapterUnlockPayload
decode_adapter_unlock_payload payload = do
  require (length payload == 10)
  epoch ← read_le64 payload 0
  require (not (epoch == 0))
  bus_index ← read_le16 payload 8
  some (record { epoch = epoch; bus_index = bus_index })

pub record SubscribeInputsPayload : Type 0 where
  pub enabled : Bool
  pub period_ms : ℕ

unfoldable pub encode_subscribe_inputs_payload : SubscribeInputsPayload → List ℕ
encode_subscribe_inputs_payload subscription =
    if ltb subscription.period_ms 10 || ltb 1000 subscription.period_ms
    then []
    else append_le16 (([] ++ (flag_byte subscription.enabled ∷ [])) ++ (0 ∷ []))
        subscription.period_ms

unfoldable pub decode_subscribe_inputs_payload : List ℕ → Option SubscribeInputsPayload
decode_subscribe_inputs_payload payload = do
  require (length payload == 4)
  require (leb (byte payload 0) 1)
  require (byte payload 1 == 0)
  period_ms ← read_le16 payload 2
  require (leb 10 period_ms)
  require (leb period_ms 1000)
  some (record { enabled = not (byte payload 0 == 0); period_ms = period_ms })

pub record OutputsDisabledPayload : Type 0 where
  pub reason : DisableReason
  pub bus_index : ℕ
  pub epoch : ℕ

unfoldable pub encode_outputs_disabled_payload : OutputsDisabledPayload → List ℕ
encode_outputs_disabled_payload disabled =
    if disabled.epoch == 0
    then []
    else append_le64
        (append_le16 (append_le16 [] (disable_reason_code disabled.reason)) disabled.bus_index)
        disabled.epoch

unfoldable pub decode_outputs_disabled_payload : List ℕ → Option OutputsDisabledPayload
decode_outputs_disabled_payload payload = do
  require (length payload == 12)
  reason ← read_le16 payload 0
  require (leb 1 reason)
  require (leb reason 10)
  bus_index ← read_le16 payload 2
  epoch ← read_le64 payload 4
  require (not (epoch == 0))
  some (record { reason = disable_reason_of_code reason; bus_index = bus_index; epoch = epoch })
