-- ===== src/Tests/Payloads.antt =====
-- The payload codecs at concrete inputs.
use ec_systemcore.Base.{◌≤◌, ℕ, ◌≡◌, ◌≢◌, ◌↔◌, refl, List, [], ◌∷◌, some, arith, true, false}
use ec_systemcore.Protocol.Enums.{
  ClientRole, DisableReason, SchedulingMode, scheduling_mode_code, disable_reason_code,
  disable_reason_of_code,
}
use ec_systemcore.Protocol.Limits.{maximum_pdo_image}
use ec_systemcore.Protocol.Payload.Hello.{
  HelloPayload, encode_hello_payload, decode_hello_payload, HelloAckPayload,
  encode_hello_ack_payload, decode_hello_ack_payload,
}
use ec_systemcore.Protocol.Payload.Hello.Laws.{
  HelloFits, decode_hello_payload_iff, HelloAckFits, decode_hello_ack_payload_iff,
}
use ec_systemcore.Protocol.Payload.Control.{
  OutputEnablePayload, encode_output_enable_payload, decode_output_enable_payload,
  AdapterUnlockPayload, encode_adapter_unlock_payload, decode_adapter_unlock_payload,
  SubscribeInputsPayload, encode_subscribe_inputs_payload, decode_subscribe_inputs_payload,
  OutputsDisabledPayload, encode_outputs_disabled_payload, decode_outputs_disabled_payload,
}
use ec_systemcore.Protocol.Payload.Control.Laws.{
  OutputEnableFits, decode_output_enable_payload_iff, AdapterUnlockFits,
  decode_adapter_unlock_payload_iff, SubscribeInputsFits, decode_subscribe_inputs_payload_iff,
  OutputsDisabledFits, decode_outputs_disabled_payload_iff,
}
use ec_systemcore.Protocol.Payload.OutputWrite.{
  OutputWritePayload, encode_output_write_payload, decode_output_write_payload,
}
use ec_systemcore.Protocol.Payload.OutputWrite.Laws.{
  OutputWriteFits, decode_output_write_payload_iff,
}
use ec_systemcore.Protocol.Payload.Status.{
  StatusPayload, encode_status_payload, decode_status_payload,
}
use ec_systemcore.Protocol.Payload.Status.Laws.{StatusFits, decode_status_payload_iff}
use ec_systemcore.Protocol.Payload.PdoInput.{
  PdoInputPayload, encode_pdo_input_payload, decode_pdo_input_payload,
}
use ec_systemcore.Protocol.Payload.PdoInput.Laws.{PdoInputFits, decode_pdo_input_payload_iff}

abbrev some_hello : HelloPayload
some_hello = record {
  role = ClientRole.controller;
  subscribe_inputs = true;
  input_period_ms = 20;
  last_seen_epoch = 9;
}

abbrev hello_bytes : List ℕ
hello_bytes = 1 ∷ 1 ∷ 20 ∷ 0 ∷ 9 ∷ 0 ∷ 0 ∷ 0 ∷ 0 ∷ 0 ∷ 0 ∷ 0 ∷ []

some_hello-HelloFits : HelloFits some_hello
some_hello-HelloFits = record { period_fits = omega arith; epoch_fits = omega arith }

decode_hello_payload_iff_example :
    (decode_hello_payload hello_bytes ≡ some some_hello)
    ↔ ((encode_hello_payload some_hello ≡ hello_bytes) × (hello_bytes ≢ []))
decode_hello_payload_iff_example =
    decode_hello_payload_iff some_hello some_hello-HelloFits hello_bytes (ground arith)

abbrev some_hello_ack : HelloAckPayload
some_hello_ack = record {
  granted_role = ClientRole.observer;
  outputs_enabled = false;
  heartbeat_timeout_ms = 250;
  epoch = 1;
  peer_pid = 77;
  capabilities = 15;
}

abbrev hello_ack_bytes : List ℕ
hello_ack_bytes =
    0 ∷ 0 ∷ 250 ∷ 0 ∷ 1 ∷ 0 ∷ 0 ∷ 0 ∷ 0 ∷ 0 ∷ 0 ∷ 0 ∷ 77 ∷ 0 ∷ 0 ∷ 0 ∷ 15 ∷ 0 ∷ 0 ∷ 0 ∷ []

some_hello_ack-HelloAckFits : HelloAckFits some_hello_ack
some_hello_ack-HelloAckFits = record {
  timeout_fits = omega arith;
  epoch_fits = omega arith;
  pid_fits = omega arith;
  capabilities_fit = omega arith;
}

decode_hello_ack_payload_iff_example :
    (decode_hello_ack_payload hello_ack_bytes ≡ some some_hello_ack)
    ↔ ((encode_hello_ack_payload some_hello_ack ≡ hello_ack_bytes) × (hello_ack_bytes ≢ []))
decode_hello_ack_payload_iff_example =
    decode_hello_ack_payload_iff some_hello_ack some_hello_ack-HelloAckFits hello_ack_bytes
      (ground arith)

abbrev some_output_enable : OutputEnablePayload
some_output_enable = record { epoch = 3; enabled = true }

abbrev output_enable_bytes : List ℕ
output_enable_bytes = 3 ∷ 0 ∷ 0 ∷ 0 ∷ 0 ∷ 0 ∷ 0 ∷ 0 ∷ 1 ∷ []

some_output_enable-OutputEnableFits : OutputEnableFits some_output_enable
some_output_enable-OutputEnableFits = record { epoch_fits = omega arith }

decode_output_enable_payload_iff_example :
    (decode_output_enable_payload output_enable_bytes ≡ some some_output_enable) ↔ (
      (encode_output_enable_payload some_output_enable ≡ output_enable_bytes)
      × (output_enable_bytes ≢ []))
decode_output_enable_payload_iff_example =
    decode_output_enable_payload_iff some_output_enable some_output_enable-OutputEnableFits
      output_enable_bytes (ground arith)

abbrev some_adapter_unlock : AdapterUnlockPayload
some_adapter_unlock = record { epoch = 3; bus_index = 1 }

abbrev adapter_unlock_bytes : List ℕ
adapter_unlock_bytes = 3 ∷ 0 ∷ 0 ∷ 0 ∷ 0 ∷ 0 ∷ 0 ∷ 0 ∷ 1 ∷ 0 ∷ []

some_adapter_unlock-AdapterUnlockFits : AdapterUnlockFits some_adapter_unlock
some_adapter_unlock-AdapterUnlockFits = record { epoch_fits = omega arith; bus_fits = omega arith }

decode_adapter_unlock_payload_iff_example :
    (decode_adapter_unlock_payload adapter_unlock_bytes ≡ some some_adapter_unlock) ↔ (
      (encode_adapter_unlock_payload some_adapter_unlock ≡ adapter_unlock_bytes)
      × (adapter_unlock_bytes ≢ []))
decode_adapter_unlock_payload_iff_example =
    decode_adapter_unlock_payload_iff some_adapter_unlock some_adapter_unlock-AdapterUnlockFits
      adapter_unlock_bytes (ground arith)

abbrev some_subscribe_inputs : SubscribeInputsPayload
some_subscribe_inputs = record { enabled = true; period_ms = 20 }

abbrev subscribe_inputs_bytes : List ℕ
subscribe_inputs_bytes = 1 ∷ 0 ∷ 20 ∷ 0 ∷ []

some_subscribe_inputs-SubscribeInputsFits : SubscribeInputsFits some_subscribe_inputs
some_subscribe_inputs-SubscribeInputsFits = record { period_fits = omega arith }

decode_subscribe_inputs_payload_iff_example :
    (decode_subscribe_inputs_payload subscribe_inputs_bytes ≡ some some_subscribe_inputs) ↔ (
      (encode_subscribe_inputs_payload some_subscribe_inputs ≡ subscribe_inputs_bytes)
      × (subscribe_inputs_bytes ≢ []))
decode_subscribe_inputs_payload_iff_example =
    decode_subscribe_inputs_payload_iff some_subscribe_inputs
      some_subscribe_inputs-SubscribeInputsFits subscribe_inputs_bytes (ground arith)

abbrev some_outputs_disabled : OutputsDisabledPayload
some_outputs_disabled = record { reason = DisableReason.shutdown; bus_index = 0; epoch = 4 }

abbrev outputs_disabled_bytes : List ℕ
outputs_disabled_bytes = 6 ∷ 0 ∷ 0 ∷ 0 ∷ 4 ∷ 0 ∷ 0 ∷ 0 ∷ 0 ∷ 0 ∷ 0 ∷ 0 ∷ []

some_outputs_disabled-OutputsDisabledFits : OutputsDisabledFits some_outputs_disabled
unfolding disable_reason_code disable_reason_of_code
some_outputs_disabled-OutputsDisabledFits = record {
  reason_shown = refl;
  reason_fits = omega arith;
  bus_fits = omega arith;
  epoch_fits = omega arith;
}

decode_outputs_disabled_payload_iff_example :
    (decode_outputs_disabled_payload outputs_disabled_bytes ≡ some some_outputs_disabled) ↔ (
      (encode_outputs_disabled_payload some_outputs_disabled ≡ outputs_disabled_bytes)
      × (outputs_disabled_bytes ≢ [])
      × (1 ≤ disable_reason_code DisableReason.shutdown)
      × (disable_reason_code DisableReason.shutdown ≤ 10))
decode_outputs_disabled_payload_iff_example =
    decode_outputs_disabled_payload_iff some_outputs_disabled
      some_outputs_disabled-OutputsDisabledFits outputs_disabled_bytes (ground arith)

abbrev some_output_write : OutputWritePayload
some_output_write = record {
  epoch = 3;
  bus_index = 0;
  sub_device_index = 2;
  offset = 0;
  bytes = 170 ∷ 85 ∷ [];
}

abbrev output_write_bytes : List ℕ
output_write_bytes =
    3 ∷ 0 ∷ 0 ∷ 0 ∷ 0 ∷ 0 ∷ 0 ∷ 0 ∷ 0 ∷ 0 ∷ 2 ∷ 0 ∷ 0 ∷ 0 ∷ 0 ∷ 0 ∷ 2 ∷ 0 ∷ 0 ∷ 0 ∷ 170 ∷ 85 ∷ []

some_output_write-OutputWriteFits : OutputWriteFits some_output_write
some_output_write-OutputWriteFits = record {
  epoch_fits = omega arith;
  bus_fits = omega arith;
  sub_device_fits = omega arith;
  offset_fits = omega arith;
  bytes_fit = ground arith;
}

decode_output_write_payload_iff_example :
    (decode_output_write_payload output_write_bytes ≡ some some_output_write) ↔ (
      (encode_output_write_payload some_output_write ≡ output_write_bytes)
      × (output_write_bytes ≢ []))
decode_output_write_payload_iff_example =
    decode_output_write_payload_iff some_output_write some_output_write-OutputWriteFits
      output_write_bytes (ground arith)

abbrev some_status : StatusPayload
some_status = record {
  aggregate_state = 4;
  flags = 3;
  active_adapters = 1;
  sub_devices = 2;
  active_faults = 0;
  maximum_jitter_us = 40;
  current_jitter_us = 7;
  lost_frames = 0;
  cycle_overruns = 1;
  epoch = 9;
  controller_pid = 77;
  configured_buses = 1;
  scheduling_mode = SchedulingMode.fifo;
  realtime_error_bits = 2;
  monotonic_timestamp_us = 500;
}

abbrev status_bytes : List ℕ
status_bytes =
    4 ∷ 3 ∷ 1 ∷ 0 ∷ 2 ∷ 0 ∷ 0 ∷ 0 ∷ 40 ∷ 0 ∷ 0 ∷ 0 ∷ 7 ∷ 0 ∷ 0 ∷ 0 ∷ 0 ∷ 0 ∷ 0 ∷ 0 ∷ 0 ∷ 0 ∷ 0 ∷ 0
    ∷ 1 ∷ 0 ∷ 0 ∷ 0 ∷ 0 ∷ 0 ∷ 0 ∷ 0 ∷ 9 ∷ 0 ∷ 0 ∷ 0 ∷ 0 ∷ 0 ∷ 0 ∷ 0 ∷ 77 ∷ 0 ∷ 0 ∷ 0 ∷ 1 ∷ 0 ∷ 1 ∷ 2
    ∷ 244 ∷ 1 ∷ 0 ∷ 0 ∷ 0 ∷ 0 ∷ 0 ∷ 0 ∷ []

some_status-StatusFits : StatusFits some_status
unfolding scheduling_mode_code
some_status-StatusFits = record {
  aggregate_state_fits = omega arith;
  flags_fits = omega arith;
  active_adapters_fits = omega arith;
  sub_devices_fits = omega arith;
  active_faults_fits = omega arith;
  maximum_jitter_us_fits = omega arith;
  current_jitter_us_fits = omega arith;
  lost_frames_fits = omega arith;
  cycle_overruns_fits = omega arith;
  epoch_fits = omega arith;
  controller_pid_fits = omega arith;
  configured_buses_fits = omega arith;
  scheduling_mode_fits = omega arith;
  realtime_error_bits_fits = omega arith;
  monotonic_timestamp_us_fits = omega arith;
}

decode_status_payload_iff_example :
    (decode_status_payload status_bytes ≡ some some_status)
    ↔ ((encode_status_payload some_status ≡ status_bytes) × (status_bytes ≢ []))
decode_status_payload_iff_example =
    decode_status_payload_iff some_status some_status-StatusFits status_bytes (ground arith)

abbrev some_pdo_input : PdoInputPayload
some_pdo_input = record {
  bus_index = 0;
  sub_device_index = 2;
  offset = 4;
  total_size = 6;
  epoch = 3;
  cycle_sequence = 12;
  bytes = 170 ∷ 85 ∷ [];
}

abbrev pdo_input_bytes : List ℕ
pdo_input_bytes =
    0 ∷ 0 ∷ 2 ∷ 0 ∷ 4 ∷ 0 ∷ 0 ∷ 0 ∷ 6 ∷ 0 ∷ 0 ∷ 0 ∷ 2 ∷ 0 ∷ 0 ∷ 0 ∷ 3 ∷ 0 ∷ 0 ∷ 0 ∷ 0 ∷ 0 ∷ 0 ∷ 0
    ∷ 12 ∷ 0 ∷ 0 ∷ 0 ∷ 0 ∷ 0 ∷ 0 ∷ 0 ∷ 170 ∷ 85 ∷ []

some_pdo_input-PdoInputFits : PdoInputFits some_pdo_input
some_pdo_input-PdoInputFits = record {
  bus_fits = omega arith;
  sub_device_fits = omega arith;
  offset_fits = omega arith;
  total_fits = omega arith;
  epoch_fits = omega arith;
  sequence_fits = omega arith;
  bytes_fit = ground arith;
}

decode_pdo_input_payload_iff_example :
    (decode_pdo_input_payload maximum_pdo_image pdo_input_bytes ≡ some some_pdo_input)
    ↔ ((encode_pdo_input_payload some_pdo_input ≡ pdo_input_bytes) × (pdo_input_bytes ≢ []))
decode_pdo_input_payload_iff_example =
    decode_pdo_input_payload_iff some_pdo_input some_pdo_input-PdoInputFits pdo_input_bytes
      (ground arith)
