-- ===== src/Protocol/Payload/Status.antt =====
-- `StatusPayload` of daemon/include/ec_systemcore/protocol.hpp.
pub mod Laws
use ec_systemcore.Base.{
  ℕ, ◌≡◌, Bool, true, not, ◌||◌, List, [], ◌∷◌, ◌++◌, Option, some, length, ◌==◌, if◌then◌else◌,
  ◌>>=◌, ◌>>◌, require, bit_and,
}
use ec_systemcore.Protocol.Bytes.{
  byte, append_le16, append_le32, append_le64, read_le16, read_le32, read_le64,
}
use ec_systemcore.Protocol.Enums.{
  SchedulingMode, scheduling_mode_code, scheduling_mode_of_code, is_known_scheduling_mode,
  bus_state_of_code, is_known_bus_state,
}

pub record StatusPayload : Type 0 where
  pub aggregate_state : ℕ
  pub flags : ℕ
  pub active_adapters : ℕ
  pub sub_devices : ℕ
  pub active_faults : ℕ
  pub maximum_jitter_us : ℕ
  pub current_jitter_us : ℕ
  pub lost_frames : ℕ
  pub cycle_overruns : ℕ
  pub epoch : ℕ
  pub controller_pid : ℕ
  pub configured_buses : ℕ
  pub scheduling_mode : SchedulingMode
  pub realtime_error_bits : ℕ
  pub monotonic_timestamp_us : ℕ

unfoldable pub encode_status_payload : StatusPayload → List ℕ
encode_status_payload status =
    if not (is_known_bus_state (bus_state_of_code status.aggregate_state))
      || status.epoch == 0
      || not (is_known_scheduling_mode status.scheduling_mode)
      || not (bit_and status.realtime_error_bits 128 == 0)
    then []
    else append_le64
        ((append_le16
              (append_le32
                (append_le64
                  (append_le64
                    (append_le64
                      (append_le32
                        (append_le32
                          (append_le16
                            (append_le16
                              (append_le16
                                (([] ++ (status.aggregate_state ∷ [])) ++ (status.flags ∷ []))
                                status.active_adapters)
                              status.sub_devices)
                            status.active_faults)
                          status.maximum_jitter_us)
                        status.current_jitter_us)
                      status.lost_frames)
                    status.cycle_overruns)
                  status.epoch)
                status.controller_pid)
              status.configured_buses
            ++ (scheduling_mode_code status.scheduling_mode ∷ []))
          ++ (status.realtime_error_bits ∷ []))
        status.monotonic_timestamp_us

unfoldable pub decode_status_payload : List ℕ → Option StatusPayload
decode_status_payload payload = do
  require (length payload == 56)
  active_adapters ← read_le16 payload 2
  sub_devices ← read_le16 payload 4
  active_faults ← read_le16 payload 6
  maximum_jitter_us ← read_le32 payload 8
  current_jitter_us ← read_le32 payload 12
  lost_frames ← read_le64 payload 16
  cycle_overruns ← read_le64 payload 24
  epoch ← read_le64 payload 32
  controller_pid ← read_le32 payload 40
  configured_buses ← read_le16 payload 44
  monotonic_timestamp_us ← read_le64 payload 48
  require (is_known_bus_state (bus_state_of_code (byte payload 0)))
  require (not (epoch == 0))
  require (is_known_scheduling_mode (scheduling_mode_of_code (byte payload 46)))
  require (bit_and (byte payload 47) 128 == 0)
  some (record {
    aggregate_state = byte payload 0;
    flags = byte payload 1;
    active_adapters = active_adapters;
    sub_devices = sub_devices;
    active_faults = active_faults;
    maximum_jitter_us = maximum_jitter_us;
    current_jitter_us = current_jitter_us;
    lost_frames = lost_frames;
    cycle_overruns = cycle_overruns;
    epoch = epoch;
    controller_pid = controller_pid;
    configured_buses = configured_buses;
    scheduling_mode = scheduling_mode_of_code (byte payload 46);
    realtime_error_bits = byte payload 47;
    monotonic_timestamp_us = monotonic_timestamp_us;
  })
