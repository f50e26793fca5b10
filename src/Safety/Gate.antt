-- ===== src/Safety/Gate.antt =====
-- `SafetyGate` of daemon/include/ec_systemcore/safety.hpp: the one controller, the epoch and the
-- output permission. A method returns its result and the gate as it leaves it. A time point is a
-- number of nanoseconds of the steady clock, a duration a number of milliseconds; the test
-- `now - last <= timeout` on signed durations is `now <= last + timeout`.
pub mod Command
pub mod Invariant
pub mod Authority
pub mod Timeouts
use ec_systemcore.Base.{
  ℕ, ◌+◌, ◌-◌, ◌*◌, ◌^◌, ◌≡◌, Bool, true, false, not, ◌&&◌, ◌||◌, Option, none, some, ltb, leb,
  ◌==◌, if◌then◌else◌,
}
use ec_systemcore.Protocol.Enums.{AckStatus}

pub record Result : Type 0 where
  pub status : AckStatus
  pub outputs_were_disabled : Bool
  pub epoch_changed : Bool

pub record Controller : Type 0 where
  pub id : ℕ
  pub pid : ℕ
  pub last_heartbeat : ℕ

pub record SafetyGate : Type 0 where
  pub epoch : ℕ
  pub heartbeat_timeout : ℕ
  pub output_command_timeout : ℕ
  pub last_output_command : ℕ
  pub controller : Option Controller
  pub outputs_enabled : Bool

abbrev pub u64_max : ℕ
u64_max = 2 ^ 64 - 1

-- `Result{.status = s}`
abbrev pub only : AckStatus → Result
only s = record { status = s; outputs_were_disabled = false; epoch_changed = false }

unfoldable pub new_gate : ℕ → ℕ → ℕ → SafetyGate
new_gate initial_epoch heartbeat_timeout output_command_timeout = record {
  epoch = if initial_epoch == 0 then 1 else initial_epoch;
  heartbeat_timeout = heartbeat_timeout;
  output_command_timeout = output_command_timeout;
  last_output_command = 0;
  controller = none;
  outputs_enabled = false;
}

-- `controller_.has_value() && controller_->id == id`
abbrev pub held_by : Option Controller → ℕ → Bool
held_by none id = false
held_by (some c) id = c.id == id

abbrev held_by_other : Option Controller → ℕ → Bool
held_by_other none id = false
held_by_other (some c) id = not (c.id == id)

-- `controller_->lastHeartbeat = now`
abbrev beat : Option Controller → ℕ → Option Controller
beat none now = none
beat (some c) now = some (record c { last_heartbeat = now })

abbrev pub within : ℕ → ℕ → ℕ → Bool
within now last timeout = leb now (last + timeout * 1000000)

unfoldable pub authorize : SafetyGate → ℕ → ℕ → Result
authorize g client_id command_epoch =
    if not (command_epoch == g.epoch)
    then only AckStatus.stale_epoch
    else if not (held_by g.controller client_id)
    then only AckStatus.unauthorized
    else only AckStatus.ok

abbrev pub is_ok : AckStatus → Bool
is_ok AckStatus.ok = true
is_ok other = false

unfoldable pub drop_controller_and_advance_epoch : SafetyGate → Result × SafetyGate
drop_controller_and_advance_epoch g = (
  record { status = AckStatus.ok; outputs_were_disabled = g.outputs_enabled; epoch_changed = true },
  record g {
    epoch = if g.epoch == u64_max then 1 else g.epoch + 1;
    controller = none;
    outputs_enabled = false;
  },
)

unfoldable pub acquire : SafetyGate → ℕ → ℕ → ℕ → Result × SafetyGate
acquire g client_id peer_pid now =
    if client_id == 0
    then (only AckStatus.malformed, g)
    else if held_by_other g.controller client_id
    then (only AckStatus.busy, g)
    else (
      record (only AckStatus.ok) { outputs_were_disabled = g.outputs_enabled },
      record g {
        controller = some (record { id = client_id; pid = peer_pid; last_heartbeat = now });
        outputs_enabled = false;
      },
    )

unfoldable pub heartbeat : SafetyGate → ℕ → ℕ → ℕ → Result × SafetyGate
unfolding authorize
heartbeat g client_id command_epoch now =
    let authorization = authorize g client_id command_epoch in
    if not (is_ok authorization.status)
    then (authorization, g)
    else (only AckStatus.ok, record g { controller = beat g.controller now })

unfoldable pub set_output_enabled : SafetyGate → ℕ → ℕ → Bool → Bool → ℕ → Result × SafetyGate
unfolding authorize drop_controller_and_advance_epoch
set_output_enabled g client_id command_epoch enabled process_data_healthy now =
    let authorization = authorize g client_id command_epoch in
    if not (is_ok authorization.status)
    then (authorization, g)
    else if enabled && not process_data_healthy
    then (only AckStatus.disabled, g)
    else if not enabled
    then drop_controller_and_advance_epoch g
    else (
      record (only AckStatus.ok) { outputs_were_disabled = g.outputs_enabled },
      record g {
        outputs_enabled = true;
        controller = beat g.controller now;
        last_output_command = now;
      },
    )

unfoldable pub authorize_write : SafetyGate → ℕ → ℕ → Result
unfolding authorize
authorize_write g client_id command_epoch =
    let authorization = authorize g client_id command_epoch in
    if not (is_ok authorization.status)
    then authorization
    else if not g.outputs_enabled
    then only AckStatus.disabled
    else only AckStatus.ok

unfoldable pub record_output_write : SafetyGate → ℕ → ℕ → ℕ → Result × SafetyGate
unfolding authorize_write
record_output_write g client_id command_epoch now =
    let authorization = authorize_write g client_id command_epoch in
    (
      authorization,
      if is_ok authorization.status then record g { last_output_command = now } else g,
    )

unfoldable pub authorize_controller : SafetyGate → ℕ → ℕ → Result
unfolding authorize
authorize_controller g client_id command_epoch = authorize g client_id command_epoch

unfoldable pub release : SafetyGate → ℕ → ℕ → Result × SafetyGate
unfolding authorize drop_controller_and_advance_epoch
release g client_id command_epoch =
    let authorization = authorize g client_id command_epoch in
    if not (is_ok authorization.status)
    then (authorization, g)
    else drop_controller_and_advance_epoch g

unfoldable pub disconnect : SafetyGate → ℕ → Result × SafetyGate
unfolding drop_controller_and_advance_epoch
disconnect g client_id =
    if not (held_by g.controller client_id)
    then (only AckStatus.ok, g)
    else drop_controller_and_advance_epoch g

-- `!controller_.has_value() || now - controller_->lastHeartbeat <= heartbeatTimeout_`
abbrev pub alive : Option Controller → ℕ → ℕ → Bool
alive none now timeout = true
alive (some c) now timeout = within now c.last_heartbeat timeout

unfoldable pub expire : SafetyGate → ℕ → Result × SafetyGate
unfolding drop_controller_and_advance_epoch
expire g now =
    if alive g.controller now g.heartbeat_timeout
    then (only AckStatus.ok, g)
    else drop_controller_and_advance_epoch g

abbrev pub has_controller : Option Controller → Bool
has_controller none = false
has_controller (some c) = true

unfoldable pub expire_output_commands : SafetyGate → ℕ → Result × SafetyGate
unfolding drop_controller_and_advance_epoch
expire_output_commands g now =
    if not (has_controller g.controller)
      || not g.outputs_enabled
      || within now g.last_output_command g.output_command_timeout
    then (only AckStatus.ok, g)
    else drop_controller_and_advance_epoch g

unfoldable pub invalidate : SafetyGate → Result × SafetyGate
unfolding drop_controller_and_advance_epoch
invalidate g = drop_controller_and_advance_epoch g
