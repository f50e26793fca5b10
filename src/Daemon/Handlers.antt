-- ===== src/Daemon/Handlers.antt =====
-- The handlers of client messages of daemon/src/main.cpp. Each takes the way to close a client, the
-- steady clock and the client's place, and returns whether to go on with the client's next frame. A
-- handler reads the clocks once, and the buses' members do not change while it runs.
pub mod Effects
pub mod Answers
pub mod Writes
pub mod Commands
use ec_systemcore.Base.{
  ℕ, zero, suc, ◌+◌, ◌*◌, ◌^◌, ◌%◌, Bool, true, false, not, ◌&&◌, ◌||◌, List, [], ◌∷◌, Option, none,
  some, ltb, leb, ◌==◌, if◌then◌else◌, is_empty, length as size, get_elem?, set, replicate, ◌>>=◌,
}
use mathlib.Core.List.{map}
use ec_systemcore.Protocol.Enums.{MessageType, AckStatus, ClientRole, DisableReason}
use ec_systemcore.Protocol.Frame.{Frame, encode_frame}
use ec_systemcore.Protocol.Payload.Hello.{
  HelloPayload, decode_hello_payload, encode_hello_ack_payload,
}
use ec_systemcore.Protocol.Payload.Control.{
  decode_epoch_payload, decode_output_enable_payload, decode_subscribe_inputs_payload,
  decode_adapter_unlock_payload, OutputEnablePayload, AdapterUnlockPayload,
}
use ec_systemcore.Protocol.Payload.OutputWrite.{OutputWritePayload, decode_output_write_payload}
use ec_systemcore.Safety.Gate.{
  is_ok, acquire, heartbeat, set_output_enabled, authorize_write, record_output_write,
  authorize_controller, release,
}
use ec_systemcore.Safety.Limits.{calculate_controller_rate_limit, ControllerRateLimit}
use ec_systemcore.Daemon.Bus.{Bus, OutputCommand, validate_output, queue_output, reset_counters}
use ec_systemcore.Daemon.State.{
  Daemon, ClientConnection, client_at, with_client, controller_authorized, maximum_buses,
  all_capabilities, capabilities_without_outputs,
}
use ec_systemcore.Daemon.Outgoing.{
  Close, apply_safety_to_buses, update_input_publication_demand, queue_frame, queue_ack,
  broadcast_outputs_disabled,
}
use ec_systemcore.Daemon.Epochs.{all_buses_operational, output_capability_available, advance_epoch}

-- `close(client); return false;`
abbrev pub close_and_stop : Close → Daemon → ℕ → Option (Bool × Daemon)
close_and_stop close d i = close d i >>= λ d'. some (false, d')

-- `std::count_if`: the SubDevices with outputs.
pub count_outputs : List (Option ℕ) → ℕ
count_outputs [] = 0
count_outputs (none ∷ rest) = count_outputs rest
count_outputs (some bytes ∷ rest) = (if bytes == 0 then 0 else 1) + count_outputs rest

pub output_targets : List (List (Option ℕ)) → ℕ
output_targets [] = 0
output_targets (sub_devices ∷ rest) = count_outputs sub_devices + output_targets rest

abbrev pub is_controller : ClientRole → Bool
is_controller ClientRole.controller = true
is_controller other = false

-- The controller's rate limit.
pub rated : ClientConnection → ControllerRateLimit → ClientConnection
rated c limit = record c {
  rate_capacity = limit.burst_frames;
  rate_refill_per_second = limit.frames_per_second;
  rate_tokens = limit.burst_frames * 10 ^ 9;
}

unfoldable pub grant_role : ℕ → Daemon → ℕ → HelloPayload → ClientRole × Daemon
grant_role now d i hello =
    let c = client_at d i in
    let (acquisition, gate) = acquire d.safety c.id c.pid now in
    let limit =
      calculate_controller_rate_limit (output_targets d.configuration.expected_output_bytes)
        d.configuration.output_command_timeout_ms in
    if not (is_controller hello.role && controller_authorized d.configuration c)
    then (ClientRole.observer, d)
    else if not (is_ok acquisition.status)
    then (ClientRole.observer, record d { safety = gate })
    else (
      ClientRole.controller,
      apply_safety_to_buses (with_client (record d { safety = gate }) i (rated c limit)),
    )

-- What a client that has been greeted has asked for.
unfoldable pub greeted : ClientRole → HelloPayload → Daemon → ℕ → Daemon
greeted granted hello d i = update_input_publication_demand (
    with_client d i (record (client_at d i) {
      hello_received = true;
      role = granted;
      subscribe_inputs = hello.subscribe_inputs;
      input_period_ms = hello.input_period_ms;
    }))

unfoldable pub subscribed : Bool → ℕ → Daemon → ℕ → Daemon
subscribed enabled period_ms d i = update_input_publication_demand (
    with_client d i (record (client_at d i) {
      subscribe_inputs = enabled;
      input_period_ms = period_ms;
      last_input_sequence = replicate maximum_buses 0;
      selected_input_sequence = replicate maximum_buses 0;
    }))

abbrev pub closing : Daemon → ℕ → Daemon
closing d i = with_client d i (record (client_at d i) { close_after_write = true })

-- The command that a write becomes.
abbrev pub command_of : OutputWritePayload → ℕ → OutputCommand
command_of request monotonic_us = record {
  epoch = request.epoch;
  sub_device_index = request.sub_device_index;
  offset = request.offset;
  length = size request.bytes % 2 ^ 16;
  accepted_monotonic_us = monotonic_us;
  image = request.bytes;
}

module _ (close : Close) (now : ℕ) where
  -- An acknowledgement that must be sent, and one for a payload that does not decode.
  unfoldable pub ack : Daemon → ℕ → Frame → AckStatus → Option (Bool × Daemon)
  ack d i frame status = queue_ack close now d i MessageType.ack frame.request_id status 0 true

  unfoldable pub malformed : Daemon → ℕ → Frame → Option (Bool × Daemon)
  malformed d i frame =
      queue_ack close now d i MessageType.error frame.request_id AckStatus.malformed 0 true

  unfoldable pub greet : Daemon → ℕ → Frame → HelloPayload → Option (Bool × Daemon)
  greet d i frame hello =
      let (granted, d1) = grant_role now d i hello in
      let d2 = greeted granted hello d1 i in
      queue_frame close now d2 i
        (encode_frame MessageType.hello_ack frame.request_id (
          encode_hello_ack_payload (record {
            granted_role = granted;
            outputs_enabled = d2.safety.outputs_enabled;
            heartbeat_timeout_ms = d2.configuration.heartbeat_timeout_ms % 2 ^ 16;
            epoch = d2.safety.epoch;
            peer_pid = (client_at d i).pid;
            capabilities =
                if output_capability_available d2.buses
                then all_capabilities
                else capabilities_without_outputs;
          })))
        true

  unfoldable pub handle_hello : Daemon → ℕ → Frame → Option (Bool × Daemon)
  handle_hello d i frame = elim (decode_hello_payload frame.payload) [
    | none ↦ close_and_stop close d i
    | some hello ↦ greet d i frame hello
  ]

  unfoldable pub handle_heartbeat : Daemon → ℕ → Frame → Option (Bool × Daemon)
  handle_heartbeat d i frame = elim (decode_epoch_payload frame.payload) [
    | none ↦ malformed d i frame
    | some epoch ↦
        let (result, gate) = heartbeat d.safety (client_at d i).id epoch now in
        ack (record d { safety = gate }) i frame result.status
  ]

  unfoldable pub enable_outputs : Daemon → ℕ → Frame → OutputEnablePayload → Option (Bool × Daemon)
  enable_outputs d i frame request =
      let (result, gate) =
        set_output_enabled d.safety (client_at d i).id request.epoch request.enabled
          (all_buses_operational d) now in
      ack (apply_safety_to_buses (record d { safety = gate })) i frame result.status
      >>= λ (queued, d').
          if is_ok result.status && not request.enabled
          then (broadcast_outputs_disabled close now d' DisableReason.requested 0xffff >>= λ d''.
              some (queued, closing d'' i))
          else some (queued, d')

  unfoldable pub handle_output_enable : Daemon → ℕ → Frame → Option (Bool × Daemon)
  handle_output_enable d i frame = elim (decode_output_enable_payload frame.payload) [
    | none ↦ malformed d i frame
    | some request ↦ enable_outputs d i frame request
  ]

  unfoldable pub handle_clear_counters : Daemon → ℕ → Frame → Option (Bool × Daemon)
  handle_clear_counters d i frame =
      if not (is_empty frame.payload)
      then malformed d i frame
      else ack (record d { buses = map reset_counters d.buses }) i frame AckStatus.ok

  unfoldable pub handle_release : Daemon → ℕ → Frame → Option (Bool × Daemon)
  handle_release d i frame = elim (decode_epoch_payload frame.payload) [
    | none ↦ malformed d i frame
    | some epoch ↦
        let (result, gate) = release d.safety (client_at d i).id epoch in
        ack (record d { safety = gate }) i frame result.status >>= λ (queued, d').
        if result.epoch_changed
        then (broadcast_outputs_disabled close now (apply_safety_to_buses d')
              DisableReason.requested 0xffff
            >>= λ d''. some (queued, closing d'' i))
        else some (queued, d')
  ]

  unfoldable pub handle_subscribe_inputs : Daemon → ℕ → Frame → Option (Bool × Daemon)
  handle_subscribe_inputs d i frame = elim (decode_subscribe_inputs_payload frame.payload) [
    | none ↦ malformed d i frame
    | some request ↦ ack (subscribed request.enabled request.period_ms d i) i frame AckStatus.ok
  ]

  unfoldable pub unlock_adapter : Daemon → ℕ → Frame → ℕ → Option (Bool × Daemon)
  unlock_adapter d i frame bus_index = elim (get_elem? d.adapters bus_index) [
    | none ↦ ack d i frame AckStatus.bad_target
    | some a ↦
        let unlocked = set d.adapters bus_index (record a { runtime_unlocked = true }) in
        ack (record d { adapters = unlocked }) i frame AckStatus.ok >>= λ (queued, d').
        advance_epoch close now d' DisableReason.adapter_mismatch bus_index >>= λ d''.
        some (queued, record d'' { force_adapter_scan = true })
  ]

  unfoldable pub handle_adapter_unlock : Daemon → ℕ → Frame → Option (Bool × Daemon)
  handle_adapter_unlock d i frame = elim (decode_adapter_unlock_payload frame.payload) [
    | none ↦ malformed d i frame
    | some request ↦
        let authorization = authorize_controller d.safety (client_at d i).id request.epoch in
        if not (is_ok authorization.status)
        then ack d i frame authorization.status
        else unlock_adapter d i frame request.bus_index
  ]

  unfoldable pub handle_adapter_rescan : Daemon → ℕ → Frame → Option (Bool × Daemon)
  handle_adapter_rescan d i frame =
      if not (is_empty frame.payload)
      then malformed d i frame
      else ack
          (if leb d.next_observer_rescan_allowed now
            then record d {
              force_adapter_scan = true;
              next_observer_rescan_allowed = now + 250 * 10 ^ 6;
            }
            else d)
          i frame AckStatus.ok

  -- `bus` is the one at the request's index.
  unfoldable pub write_outputs :
      ℕ → Daemon → ℕ → Frame → OutputWritePayload → Bus → Option (Bool × Daemon)
  write_outputs monotonic_us d i frame request bus =
      let bounds = validate_output bus request.sub_device_index request.offset request.bytes in
      if not (is_ok bounds)
      then ack d i frame bounds
      else if monotonic_us == 0
      then ack d i frame AckStatus.internal_error
      else elim (queue_output bus (command_of request monotonic_us)) [
        | none ↦ ack d i frame AckStatus.queue_full
        | some bus' ↦
            let (refreshed, gate) =
              record_output_write d.safety (client_at d i).id request.epoch now in
            ack (record d { safety = gate; buses = set d.buses request.bus_index bus' }) i frame
              refreshed.status
      ]

  unfoldable pub handle_output_write : ℕ → Daemon → ℕ → Frame → Option (Bool × Daemon)
  handle_output_write monotonic_us d i frame = elim (decode_output_write_payload frame.payload) [
    | none ↦ malformed d i frame
    | some request ↦
        let authorization = authorize_write d.safety (client_at d i).id request.epoch in
        if not (is_ok authorization.status)
        then ack d i frame authorization.status
        else elim (get_elem? d.buses request.bus_index) [
          | none ↦ ack d i frame AckStatus.bad_target
          | some bus ↦ write_outputs monotonic_us d i frame request bus
        ]
  ]
