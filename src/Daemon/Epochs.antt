-- ===== src/Daemon/Epochs.antt =====
-- How the session of daemon/src/main.cpp ends an epoch: `AdvanceEpoch`, `HandleSafetyTimeouts`,
-- `HandleBusFaults`; and `AllBusesOperational`, on which enabling the outputs depends.
pub mod Effects
use ec_systemcore.Base.{
  ℕ, zero, suc, ◌+◌, Bool, true, false, not, ◌&&◌, ◌||◌, List, [], ◌∷◌, Option, none, some, ◌==◌,
  if◌then◌else◌, is_empty, length, get_elem?, set, ◌>>=◌,
}
use ec_systemcore.Protocol.Enums.{DisableReason, AdapterLockState}
use ec_systemcore.Safety.Gate.{Controller, expire, expire_output_commands, invalidate}
use ec_systemcore.Adapter.Identity.{AdapterIdentity}
use ec_systemcore.Daemon.Bus.{
  Bus, is_operational, safety_barrier_complete, distributed_clock_healthy,
}
use ec_systemcore.Daemon.State.{Daemon, AdapterRuntime, client_at, with_client, find_client}
use ec_systemcore.Daemon.Outgoing.{Close, apply_safety_to_buses, broadcast_outputs_disabled}

abbrev is_usable : AdapterLockState → Bool
is_usable AdapterLockState.unlocked = true
is_usable AdapterLockState.matched = true
is_usable AdapterLockState.runtime_unlocked = true
is_usable other = false

abbrev has_link : Option AdapterIdentity → Bool
has_link none = false
has_link (some identity) = identity.link_up

abbrev pub adapter_ready : AdapterRuntime → Bool
adapter_ready a = is_usable a.resolution.state && has_link a.resolution.identity

unfoldable pub bus_ready : ℕ → AdapterRuntime → Bus → Bool
bus_ready epoch a b =
    adapter_ready a
    && is_operational b.state
    && safety_barrier_complete b epoch
    && distributed_clock_healthy b

-- The loop over the buses; `adapters_` has one element for each bus.
pub all_ready : ℕ → Bool → List AdapterRuntime → List Bus → Bool
all_ready epoch any_verified adapters [] = any_verified
all_ready epoch any_verified [] (b ∷ rest) = false
all_ready epoch any_verified (a ∷ adapters) (b ∷ rest) =
    let later = all_ready epoch (any_verified || b.output_topology_verified) adapters rest in
    if not (bus_ready epoch a b) then false else later

unfoldable pub all_buses_operational : Daemon → Bool
all_buses_operational d =
    if is_empty d.buses
    then false
    else if d.global_faulted_epoch == d.safety.epoch
    then false
    else all_ready d.safety.epoch false d.adapters d.buses

-- `std::any_of`
pub output_capability_available : List Bus → Bool
output_capability_available [] = false
output_capability_available (b ∷ rest) =
    b.output_topology_verified || output_capability_available rest

-- The former controller is closed once what is queued for it is written.
unfoldable pub close_former_controller : Option Controller → Daemon → Daemon
close_former_controller none d = d
close_former_controller (some c) d = elim (find_client d.clients c.id) [
  | none ↦ d
  | some i ↦ with_client d i (record (client_at d i) { close_after_write = true })
]

-- The adapter's record of the fault sequence that has been handled.
abbrev pub observe_fault : Daemon → ℕ → ℕ → Daemon
observe_fault d i sequence = elim (get_elem? d.adapters i) [
  | none ↦ d
  | some a ↦ record d {
    adapters = set d.adapters i (record a { observed_fault_sequence = sequence });
  }
]

abbrev pub observed_fault : Daemon → ℕ → ℕ
observed_fault d i = elim (get_elem? d.adapters i) [ none ↦ 0 | some a ↦ a.observed_fault_sequence ]

module _ (close : Close) (now : ℕ) where
  -- After the gate has dropped its controller.
  unfoldable pub tell_epoch_end : Option Controller → Daemon → DisableReason → ℕ → Option Daemon
  tell_epoch_end former d reason bus_index =
      broadcast_outputs_disabled close now (apply_safety_to_buses d) reason bus_index >>= λ d'.
      some (close_former_controller former d')

  unfoldable pub advance_epoch : Daemon → DisableReason → ℕ → Option Daemon
  advance_epoch d reason bus_index =
      tell_epoch_end d.safety.controller (record d { safety = (invalidate d.safety).1 }) reason
        bus_index

  unfoldable pub handle_safety_timeouts : Daemon → Option Daemon
  handle_safety_timeouts d =
      let (stale, gate) = expire_output_commands d.safety now in
      let d' = record d { safety = gate } in
      let (silent, gate') = expire gate now in
      if stale.epoch_changed
      then tell_epoch_end d.safety.controller d' DisableReason.output_command_timeout 0xffff
      else if not silent.epoch_changed
      then some (record d { safety = gate' })
      else tell_epoch_end gate.controller (record d { safety = gate' })
          DisableReason.heartbeat_timeout 0xffff

  unfoldable pub handle_bus_fault : Daemon → ℕ → Option Daemon
  handle_bus_fault d i = elim (get_elem? d.buses i) [
    | none ↦ some d
    | some b ↦
        if b.fault_sequence == observed_fault d i
        then some d
        else advance_epoch (observe_fault d i b.fault_sequence) b.fault_reason i
  ]

  -- The loop over the buses, by the rounds left.
  unfoldable pub handle_bus_faults_from : ℕ → ℕ → Daemon → Option Daemon
  handle_bus_faults_from zero i d = some d
  handle_bus_faults_from (suc rounds) i d =
      handle_bus_fault d i >>= handle_bus_faults_from rounds (i + 1)

  unfoldable pub handle_bus_faults : Daemon → Option Daemon
  handle_bus_faults d = handle_bus_faults_from (length d.buses) 0 d
