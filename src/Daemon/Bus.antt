-- ===== src/Daemon/Bus.antt =====
-- `EthercatBus` of daemon/src/main.cpp as the session sees it: the members that its methods read and
-- write, most of them atomics. The bus's own thread changes them between two calls of the session, and
-- between two steps of `SetSafety`, by steps of `RaiseFault`.
pub mod Steps
use ec_systemcore.Base.{
  ℕ, ◌+◌, ◌*◌, ◌^◌, ◌%◌, Bool, true, false, not, ◌&&◌, ◌||◌, List, [], ◌∷◌, Option, none, some, ltb,
  ◌==◌, if◌then◌else◌, length as size, get_or,
}
use ec_systemcore.Protocol.Enums.{AckStatus, BusState, DisableReason}
use ec_systemcore.Safety.Limits.{validate_whole_output_write}
use ec_systemcore.Safety.Pdo.{has_canonical_pdo_padding}
use ec_systemcore.Safety.Gate.{is_ok, u64_max}
use ec_systemcore.Daemon.SpscQueue.{SpscQueue, try_push}

pub record OutputCommand : Type 0 where
  pub epoch : ℕ
  pub sub_device_index : ℕ
  pub offset : ℕ
  pub length : ℕ
  pub accepted_monotonic_us : ℕ
  pub image : List ℕ

-- One access of `RaiseFault` to what the threads share: it loads the epoch into its local variable,
-- stores that into faultedEpoch_ and globalFaultedEpoch_, and so on. In the last case it is the thread
-- of another bus that stores its epoch into globalFaultedEpoch_.
pub data FaultStep : Type 0 where
  loads_epoch latches_fault latches_globally forbids_outputs counts_fault : FaultStep
  gives_reason : DisableReason → FaultStep
  another_latches : ℕ → FaultStep

-- `kMaximumOutputCommands`
abbrev pub maximum_output_commands : ℕ
maximum_output_commands = 512

pub record Bus : Type 0 where
  pub state : BusState
  pub link_up : Bool
  pub sub_device_count : ℕ
  pub output_sizes : List ℕ
  pub output_bits : List ℕ
  pub output_topology_verified : Bool
  pub distributed_clock : Bool
  pub distributed_clock_synchronized : Bool
  pub safety_epoch : ℕ
  pub safety_epoch_applied : ℕ
  pub outputs_permitted : Bool
  pub faulted_epoch : ℕ
  pub fault_sequence : ℕ
  pub fault_reason : DisableReason
  pub input_publication_period_us : ℕ
  pub reset_counter_sequence : ℕ
  pub output_commands : SpscQueue OutputCommand
  -- The thread's local `epoch`, and what it does in the coming gaps between the steps of `SetSafety`.
  pub raised_epoch : ℕ
  pub meanwhile : List (List FaultStep)

abbrev pub is_operational : BusState → Bool
is_operational BusState.operational = true
is_operational other = false

unfoldable pub set_link_up : Bus → Bool → Bus
set_link_up b up = record b {
  outputs_permitted = if up then b.outputs_permitted else false;
  link_up = up;
}

-- A step of the thread, on the bus and on the daemon's globalFaultedEpoch_.
unfoldable pub fault_step : FaultStep → Bus → ℕ → Bus × ℕ
fault_step FaultStep.loads_epoch b global = (record b { raised_epoch = b.safety_epoch }, global)
fault_step FaultStep.latches_fault b global = (record b { faulted_epoch = b.raised_epoch }, global)
fault_step FaultStep.latches_globally b global = (b, b.raised_epoch)
fault_step FaultStep.forbids_outputs b global = (record b { outputs_permitted = false }, global)
fault_step FaultStep.counts_fault b global = (
  record b {
    fault_sequence = if b.fault_sequence == u64_max then b.fault_sequence else b.fault_sequence + 1;
  },
  global,
)
fault_step (FaultStep.gives_reason reason) b global = (record b { fault_reason = reason }, global)
fault_step (FaultStep.another_latches epoch) b global = (b, epoch)

unfoldable pub fault_steps : List FaultStep → Bus → ℕ → Bus × ℕ
fault_steps [] b global = (b, global)
fault_steps (step ∷ steps) b global =
    let (b', global') = fault_step step b global in fault_steps steps b' global'

-- `RaiseFault`, as its accesses in order.
unfoldable pub raise_fault : DisableReason → List FaultStep
raise_fault reason =
    FaultStep.loads_epoch
    ∷ FaultStep.latches_fault
    ∷ FaultStep.latches_globally
    ∷ FaultStep.forbids_outputs
    ∷ FaultStep.gives_reason reason
    ∷ FaultStep.counts_fault
    ∷ []

-- What the thread does in the next gap.
unfoldable pub in_gap : List (List FaultStep) → Bus → ℕ → Bus × ℕ
unfolding fault_steps
in_gap [] b global = (b, global)
in_gap (steps ∷ later) b global = fault_steps steps (record b { meanwhile = later }) global

-- The two loads and the two stores, with a gap between each two of them.
unfoldable pub set_safety : ℕ → Bool → Bus → ℕ → Bus × ℕ
unfolding in_gap
set_safety epoch outputs_permitted b global =
    let (b1, global1) = in_gap b.meanwhile (record b { safety_epoch = epoch }) global in
    let (b2, global2) = in_gap b1.meanwhile b1 global1 in
    let fault_latched = b1.faulted_epoch == epoch || global2 == epoch in
    let (b3, global3) = in_gap b2.meanwhile b2 global2 in
    (record b3 { outputs_permitted = outputs_permitted && not fault_latched }, global3)

unfoldable pub set_input_publication_period : ℕ → Bus → Bus
set_input_publication_period period_ms b = record b {
  input_publication_period_us = if period_ms == 0 then 0 else period_ms * 1000;
}

unfoldable pub safety_barrier_complete : Bus → ℕ → Bool
safety_barrier_complete b epoch =
    if not (is_operational b.state) then true else b.safety_epoch_applied == epoch

unfoldable pub queue_output : Bus → OutputCommand → Option Bus
queue_output b command = elim (try_push maximum_output_commands b.output_commands command) [
  | none ↦ none
  | some queue ↦ some (record b { output_commands = queue })
]

unfoldable pub validate_output : Bus → ℕ → ℕ → List ℕ → AckStatus
validate_output b sub_device offset image =
    let bounds =
      validate_whole_output_write (get_or b.output_sizes sub_device 0) offset (size image) in
    if not (is_operational b.state)
    then AckStatus.disabled
    else if sub_device == 0
        || ltb b.sub_device_count sub_device
        || not (ltb sub_device (size b.output_sizes))
    then AckStatus.bad_target
    else if not (is_ok bounds)
    then bounds
    else if has_canonical_pdo_padding (get_or b.output_bits sub_device 0) image
    then AckStatus.ok
    else AckStatus.malformed

-- The counter is an atomic of 64 bits, which wraps.
unfoldable pub reset_counters : Bus → Bus
reset_counters b = record b { reset_counter_sequence = (b.reset_counter_sequence + 1) % 2 ^ 64 }

unfoldable pub distributed_clock_healthy : Bus → Bool
distributed_clock_healthy b = not b.distributed_clock || b.distributed_clock_synchronized
