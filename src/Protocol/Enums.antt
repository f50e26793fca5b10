-- ===== src/Protocol/Enums.antt =====
-- The enumerations of daemon/include/ec_systemcore/protocol.hpp. In C++ an enumeration of a fixed
-- underlying type holds every value of that type, and the decoders cast bytes to it: `unnamed n` is
-- the value `n` that no enumerator names. `..._code` is the cast to the underlying type and
-- `..._of_code` the cast from it.
use ec_systemcore.Base.{ℕ, ◌≡◌, ap, Bool, true, false, ◌==◌, if◌then◌else◌, arith}

pub data MessageType : Type 0 where
  hello heartbeat output_enable output_write clear_counters release_control subscribe_inputs
        adapter_unlock adapter_rescan hello_ack status ack pdo_input bus_info error
        outputs_disabled :
      MessageType
  unnamed : ℕ → MessageType

unfoldable pub message_type_code : MessageType → ℕ
message_type_code MessageType.hello = 1
message_type_code MessageType.heartbeat = 2
message_type_code MessageType.output_enable = 3
message_type_code MessageType.output_write = 4
message_type_code MessageType.clear_counters = 5
message_type_code MessageType.release_control = 6
message_type_code MessageType.subscribe_inputs = 7
message_type_code MessageType.adapter_unlock = 8
message_type_code MessageType.adapter_rescan = 9
message_type_code MessageType.hello_ack = 128
message_type_code MessageType.status = 129
message_type_code MessageType.ack = 130
message_type_code MessageType.pdo_input = 131
message_type_code MessageType.bus_info = 132
message_type_code MessageType.error = 133
message_type_code MessageType.outputs_disabled = 134
message_type_code (MessageType.unnamed n) = n

unfoldable pub message_type_of_code : ℕ → MessageType
message_type_of_code n =
    if n == 1
    then MessageType.hello
    else if n == 2
    then MessageType.heartbeat
    else if n == 3
    then MessageType.output_enable
    else if n == 4
    then MessageType.output_write
    else if n == 5
    then MessageType.clear_counters
    else if n == 6
    then MessageType.release_control
    else if n == 7
    then MessageType.subscribe_inputs
    else if n == 8
    then MessageType.adapter_unlock
    else if n == 9
    then MessageType.adapter_rescan
    else if n == 128
    then MessageType.hello_ack
    else if n == 129
    then MessageType.status
    else if n == 130
    then MessageType.ack
    else if n == 131
    then MessageType.pdo_input
    else if n == 132
    then MessageType.bus_info
    else if n == 133
    then MessageType.error
    else if n == 134
    then MessageType.outputs_disabled
    else MessageType.unnamed n

pub message_type_code-of_code : (n : ℕ) → message_type_code (message_type_of_code n) ≡ n
unfolding message_type_code message_type_of_code
message_type_code-of_code n = ground arith

unfoldable pub is_known_message_type : MessageType → Bool
is_known_message_type (MessageType.unnamed n) = false
is_known_message_type named = true

pub message_type_of_code-code :
    (t : MessageType)
    → is_known_message_type t ≡ true
    → message_type_of_code (message_type_code t) ≡ t
unfolding message_type_code message_type_of_code is_known_message_type
message_type_of_code-code t h = ground arith

pub data ClientRole : Type 0 where
  observer controller : ClientRole
  unnamed : ℕ → ClientRole

unfoldable pub client_role_code : ClientRole → ℕ
client_role_code ClientRole.observer = 0
client_role_code ClientRole.controller = 1
client_role_code (ClientRole.unnamed n) = n

unfoldable pub client_role_of_code : ℕ → ClientRole
client_role_of_code n =
    if n == 0
    then ClientRole.observer
    else if n == 1
    then ClientRole.controller
    else ClientRole.unnamed n

pub client_role_code-of_code : (n : ℕ) → client_role_code (client_role_of_code n) ≡ n
unfolding client_role_code client_role_of_code
client_role_code-of_code n = ground arith

abbrev pub IsClientRole : ClientRole → Type 0
IsClientRole t = client_role_of_code (client_role_code t) ≡ t

pub client_role_of_code-IsClientRole : (n : ℕ) → IsClientRole (client_role_of_code n)
client_role_of_code-IsClientRole n = ap client_role_of_code (client_role_code-of_code n)

pub data AckStatus : Type 0 where
  ok malformed unauthorized busy disabled bad_target bounds stale_epoch unsupported adapter_locked
        topology_mismatch queue_full internal_error :
      AckStatus
  unnamed : ℕ → AckStatus

unfoldable pub ack_status_code : AckStatus → ℕ
ack_status_code AckStatus.ok = 0
ack_status_code AckStatus.malformed = 1
ack_status_code AckStatus.unauthorized = 2
ack_status_code AckStatus.busy = 3
ack_status_code AckStatus.disabled = 4
ack_status_code AckStatus.bad_target = 5
ack_status_code AckStatus.bounds = 6
ack_status_code AckStatus.stale_epoch = 7
ack_status_code AckStatus.unsupported = 8
ack_status_code AckStatus.adapter_locked = 9
ack_status_code AckStatus.topology_mismatch = 10
ack_status_code AckStatus.queue_full = 11
ack_status_code AckStatus.internal_error = 12
ack_status_code (AckStatus.unnamed n) = n

unfoldable pub ack_status_of_code : ℕ → AckStatus
ack_status_of_code n =
    if n == 0
    then AckStatus.ok
    else if n == 1
    then AckStatus.malformed
    else if n == 2
    then AckStatus.unauthorized
    else if n == 3
    then AckStatus.busy
    else if n == 4
    then AckStatus.disabled
    else if n == 5
    then AckStatus.bad_target
    else if n == 6
    then AckStatus.bounds
    else if n == 7
    then AckStatus.stale_epoch
    else if n == 8
    then AckStatus.unsupported
    else if n == 9
    then AckStatus.adapter_locked
    else if n == 10
    then AckStatus.topology_mismatch
    else if n == 11
    then AckStatus.queue_full
    else if n == 12
    then AckStatus.internal_error
    else AckStatus.unnamed n

pub ack_status_code-of_code : (n : ℕ) → ack_status_code (ack_status_of_code n) ≡ n
unfolding ack_status_code ack_status_of_code
ack_status_code-of_code n = ground arith

unfoldable pub is_known_ack_status : AckStatus → Bool
is_known_ack_status (AckStatus.unnamed n) = false
is_known_ack_status named = true

pub ack_status_of_code-code :
    (t : AckStatus) → is_known_ack_status t ≡ true → ack_status_of_code (ack_status_code t) ≡ t
unfolding ack_status_code ack_status_of_code is_known_ack_status
ack_status_of_code-code t h = ground arith

pub data DisableReason : Type 0 where
  requested heartbeat_timeout disconnect link_loss reinitialize shutdown epoch_change
        adapter_mismatch process_data_fault output_command_timeout :
      DisableReason
  unnamed : ℕ → DisableReason

unfoldable pub disable_reason_code : DisableReason → ℕ
disable_reason_code DisableReason.requested = 1
disable_reason_code DisableReason.heartbeat_timeout = 2
disable_reason_code DisableReason.disconnect = 3
disable_reason_code DisableReason.link_loss = 4
disable_reason_code DisableReason.reinitialize = 5
disable_reason_code DisableReason.shutdown = 6
disable_reason_code DisableReason.epoch_change = 7
disable_reason_code DisableReason.adapter_mismatch = 8
disable_reason_code DisableReason.process_data_fault = 9
disable_reason_code DisableReason.output_command_timeout = 10
disable_reason_code (DisableReason.unnamed n) = n

unfoldable pub disable_reason_of_code : ℕ → DisableReason
disable_reason_of_code n =
    if n == 1
    then DisableReason.requested
    else if n == 2
    then DisableReason.heartbeat_timeout
    else if n == 3
    then DisableReason.disconnect
    else if n == 4
    then DisableReason.link_loss
    else if n == 5
    then DisableReason.reinitialize
    else if n == 6
    then DisableReason.shutdown
    else if n == 7
    then DisableReason.epoch_change
    else if n == 8
    then DisableReason.adapter_mismatch
    else if n == 9
    then DisableReason.process_data_fault
    else if n == 10
    then DisableReason.output_command_timeout
    else DisableReason.unnamed n

pub disable_reason_code-of_code : (n : ℕ) → disable_reason_code (disable_reason_of_code n) ≡ n
unfolding disable_reason_code disable_reason_of_code
disable_reason_code-of_code n = ground arith

abbrev pub IsDisableReason : DisableReason → Type 0
IsDisableReason t = disable_reason_of_code (disable_reason_code t) ≡ t

pub disable_reason_of_code-IsDisableReason : (n : ℕ) → IsDisableReason (disable_reason_of_code n)
disable_reason_of_code-IsDisableReason n = ap disable_reason_of_code (disable_reason_code-of_code n)

pub data AdapterLockState : Type 0 where
  unlocked matched missing mismatch runtime_unlocked : AdapterLockState
  unnamed : ℕ → AdapterLockState

unfoldable pub lock_state_code : AdapterLockState → ℕ
lock_state_code AdapterLockState.unlocked = 0
lock_state_code AdapterLockState.matched = 1
lock_state_code AdapterLockState.missing = 2
lock_state_code AdapterLockState.mismatch = 3
lock_state_code AdapterLockState.runtime_unlocked = 4
lock_state_code (AdapterLockState.unnamed n) = n

unfoldable pub lock_state_of_code : ℕ → AdapterLockState
lock_state_of_code n =
    if n == 0
    then AdapterLockState.unlocked
    else if n == 1
    then AdapterLockState.matched
    else if n == 2
    then AdapterLockState.missing
    else if n == 3
    then AdapterLockState.mismatch
    else if n == 4
    then AdapterLockState.runtime_unlocked
    else AdapterLockState.unnamed n

pub lock_state_code-of_code : (n : ℕ) → lock_state_code (lock_state_of_code n) ≡ n
unfolding lock_state_code lock_state_of_code
lock_state_code-of_code n = ground arith

abbrev pub IsAdapterLockState : AdapterLockState → Type 0
IsAdapterLockState t = lock_state_of_code (lock_state_code t) ≡ t

pub lock_state_of_code-IsAdapterLockState : (n : ℕ) → IsAdapterLockState (lock_state_of_code n)
lock_state_of_code-IsAdapterLockState n = ap lock_state_of_code (lock_state_code-of_code n)

pub data AdapterLockReason : Type 0 where
  none interface_missing identity_unavailable id_path_mismatch permanent_mac_mismatch
        usb_serial_mismatch usb_vendor_mismatch usb_product_mismatch non_ethernet_interface
        path_only_identity :
      AdapterLockReason
  unnamed : ℕ → AdapterLockReason

unfoldable pub lock_reason_code : AdapterLockReason → ℕ
lock_reason_code AdapterLockReason.none = 0
lock_reason_code AdapterLockReason.interface_missing = 1
lock_reason_code AdapterLockReason.identity_unavailable = 2
lock_reason_code AdapterLockReason.id_path_mismatch = 3
lock_reason_code AdapterLockReason.permanent_mac_mismatch = 4
lock_reason_code AdapterLockReason.usb_serial_mismatch = 5
lock_reason_code AdapterLockReason.usb_vendor_mismatch = 6
lock_reason_code AdapterLockReason.usb_product_mismatch = 7
lock_reason_code AdapterLockReason.non_ethernet_interface = 8
lock_reason_code AdapterLockReason.path_only_identity = 9
lock_reason_code (AdapterLockReason.unnamed n) = n

unfoldable pub lock_reason_of_code : ℕ → AdapterLockReason
lock_reason_of_code n =
    if n == 0
    then AdapterLockReason.none
    else if n == 1
    then AdapterLockReason.interface_missing
    else if n == 2
    then AdapterLockReason.identity_unavailable
    else if n == 3
    then AdapterLockReason.id_path_mismatch
    else if n == 4
    then AdapterLockReason.permanent_mac_mismatch
    else if n == 5
    then AdapterLockReason.usb_serial_mismatch
    else if n == 6
    then AdapterLockReason.usb_vendor_mismatch
    else if n == 7
    then AdapterLockReason.usb_product_mismatch
    else if n == 8
    then AdapterLockReason.non_ethernet_interface
    else if n == 9
    then AdapterLockReason.path_only_identity
    else AdapterLockReason.unnamed n

pub lock_reason_code-of_code : (n : ℕ) → lock_reason_code (lock_reason_of_code n) ≡ n
unfolding lock_reason_code lock_reason_of_code
lock_reason_code-of_code n = ground arith

abbrev pub IsAdapterLockReason : AdapterLockReason → Type 0
IsAdapterLockReason t = lock_reason_of_code (lock_reason_code t) ≡ t

pub lock_reason_of_code-IsAdapterLockReason : (n : ℕ) → IsAdapterLockReason (lock_reason_of_code n)
lock_reason_of_code-IsAdapterLockReason n = ap lock_reason_of_code (lock_reason_code-of_code n)

pub data SchedulingMode : Type 0 where
  other_policy fifo : SchedulingMode
  unnamed : ℕ → SchedulingMode

unfoldable pub scheduling_mode_code : SchedulingMode → ℕ
scheduling_mode_code SchedulingMode.other_policy = 0
scheduling_mode_code SchedulingMode.fifo = 1
scheduling_mode_code (SchedulingMode.unnamed n) = n

unfoldable pub scheduling_mode_of_code : ℕ → SchedulingMode
scheduling_mode_of_code n =
    if n == 0
    then SchedulingMode.other_policy
    else if n == 1
    then SchedulingMode.fifo
    else SchedulingMode.unnamed n

pub scheduling_mode_code-of_code : (n : ℕ) → scheduling_mode_code (scheduling_mode_of_code n) ≡ n
unfolding scheduling_mode_code scheduling_mode_of_code
scheduling_mode_code-of_code n = ground arith

unfoldable pub is_known_scheduling_mode : SchedulingMode → Bool
is_known_scheduling_mode (SchedulingMode.unnamed n) = false
is_known_scheduling_mode named = true

pub scheduling_mode_of_code-code :
    (t : SchedulingMode)
    → is_known_scheduling_mode t ≡ true
    → scheduling_mode_of_code (scheduling_mode_code t) ≡ t
unfolding scheduling_mode_code scheduling_mode_of_code is_known_scheduling_mode
scheduling_mode_of_code-code t h = ground arith

pub data BusState : Type 0 where
  starting waiting_for_link initializing safe_operational operational fault stopping : BusState
  unnamed : ℕ → BusState

unfoldable pub bus_state_code : BusState → ℕ
bus_state_code BusState.starting = 0
bus_state_code BusState.waiting_for_link = 1
bus_state_code BusState.initializing = 2
bus_state_code BusState.safe_operational = 3
bus_state_code BusState.operational = 4
bus_state_code BusState.fault = 5
bus_state_code BusState.stopping = 6
bus_state_code (BusState.unnamed n) = n

unfoldable pub bus_state_of_code : ℕ → BusState
bus_state_of_code n =
    if n == 0
    then BusState.starting
    else if n == 1
    then BusState.waiting_for_link
    else if n == 2
    then BusState.initializing
    else if n == 3
    then BusState.safe_operational
    else if n == 4
    then BusState.operational
    else if n == 5
    then BusState.fault
    else if n == 6
    then BusState.stopping
    else BusState.unnamed n

pub bus_state_code-of_code : (n : ℕ) → bus_state_code (bus_state_of_code n) ≡ n
unfolding bus_state_code bus_state_of_code
bus_state_code-of_code n = ground arith

unfoldable pub is_known_bus_state : BusState → Bool
is_known_bus_state (BusState.unnamed n) = false
is_known_bus_state named = true

pub bus_state_of_code-code :
    (t : BusState) → is_known_bus_state t ≡ true → bus_state_of_code (bus_state_code t) ≡ t
unfolding bus_state_code bus_state_of_code is_known_bus_state
bus_state_of_code-code t h = ground arith
