-- ===== src/Daemon/Epochs/Effects.antt =====
-- That the ends of epochs return, and what they do to the gate and to the buses.
use ec_systemcore.Base.{
  ℕ, zero, suc, ◌+◌, ◌≡◌, refl, sym, subst, ◌⊎◌, inl, inr, false, Option, none, some, arith, ◌==◌,
  Bool-cases, Option-cases, length, get_elem?,
}
use ec_systemcore.Protocol.Enums.{DisableReason}
use ec_systemcore.Safety.Gate.{
  SafetyGate, Controller, Result, expire, expire_output_commands, invalidate,
  drop_controller_and_advance_epoch,
}
use ec_systemcore.Daemon.State.{Daemon, find_client}
use ec_systemcore.Daemon.Outgoing.{Close, apply_safety_to_buses}
use ec_systemcore.Daemon.Outgoing.Effects.{
  Closes, Quiet, Effect, Free, dropped, dropped-Free, queues, told-Effect, Quiet-refl, Quiet-trans,
  Quiet-Effect, with_client-Quiet, drop-epoch_changed, Effect-trans,
  broadcast_outputs_disabled-returns, apply_safety_to_buses-Free,
}
use ec_systemcore.Daemon.Epochs.{
  close_former_controller, tell_epoch_end, advance_epoch, handle_safety_timeouts, handle_bus_fault,
  handle_bus_faults_from, handle_bus_faults, observed_fault, observe_fault,
}

close_former_controller-Quiet :
    (former : Option Controller) (d : Daemon) → Quiet d (close_former_controller former d)
unfolding close_former_controller
close_former_controller-Quiet none d = Quiet-refl d
close_former_controller-Quiet (some c) d = elim (Option-cases (find_client d.clients c.id)) [
  | inl none_found ↦ rw (none_found, close_former_controller) (Quiet-refl d)
  | inr (i, found) ↦ rw (found, close_former_controller) (with_client-Quiet d i _)
]

observe_fault-Quiet : (d : Daemon) (i sequence : ℕ) → Quiet d (observe_fault d i sequence)
observe_fault-Quiet d i sequence = elim (Option-cases (get_elem? d.adapters i)) [
  | inl none_found ↦ rw (none_found, observe_fault) (Quiet-refl d)
  | inr (a, found) ↦
      rw (found, observe_fault)
        (record { gate_stays = refl; commands_stay = refl; permissions_stay = λ g h. h })
]

-- A gate method that drops the controller or does nothing.
abbrev pub DropsOrKeeps : SafetyGate → Result × SafetyGate → Type 0
DropsOrKeeps g r =
    (r ≡ drop_controller_and_advance_epoch g) ⊎ ((r.0.epoch_changed ≡ false) × (r.1 ≡ g))

expire-DropsOrKeeps : (now : ℕ) (g : SafetyGate) → DropsOrKeeps g (expire g now)
unfolding expire
expire-DropsOrKeeps now g = ground arith

expire_output_commands-DropsOrKeeps :
    (now : ℕ) (g : SafetyGate) → DropsOrKeeps g (expire_output_commands g now)
unfolding expire_output_commands
expire_output_commands-DropsOrKeeps now g = ground arith

module _ {close : Close} (can : Closes Free Quiet close) (now : ℕ) where
  -- `e` is `d` with the gate's controller dropped.
  pub tell_epoch_end-returns :
      (d e : Daemon) (former : Option Controller) (reason : DisableReason) (bus_index : ℕ)
      → e.safety ≡ dropped d.safety
      → queues e.buses ≡ queues d.buses
      → (d' : Daemon) × (tell_epoch_end close now former e reason bus_index ≡ some d') × Effect d d'
  unfolding tell_epoch_end
  tell_epoch_end-returns d e former reason bus_index gate commands =
      let free : Free e.safety = subst Free (sym gate) (dropped-Free d.safety) in
      let (d1, told, q) =
        broadcast_outputs_disabled-returns can now (apply_safety_to_buses e) reason bus_index
          (apply_safety_to_buses-Free e free) in
      (
        close_former_controller former d1,
        rw told refl,
        told-Effect d e _ gate commands (Quiet-trans q (close_former_controller-Quiet former d1)),
      )

  pub advance_epoch-returns :
      (d : Daemon) (reason : DisableReason) (bus_index : ℕ)
      → (d' : Daemon) × (advance_epoch close now d reason bus_index ≡ some d') × Effect d d'
  unfolding advance_epoch invalidate
  advance_epoch-returns d reason bus_index =
      tell_epoch_end-returns d (record d { safety = dropped d.safety }) d.safety.controller reason
        bus_index refl refl

  pub handle_safety_timeouts-returns :
      (d : Daemon) → (d' : Daemon) × (handle_safety_timeouts close now d ≡ some d') × Effect d d'
  unfolding handle_safety_timeouts
  handle_safety_timeouts-returns d =
      let tell = λ (reason : DisableReason).
        tell_epoch_end-returns d (record d { safety = dropped d.safety }) d.safety.controller reason
          0xffff refl refl in
      elim (expire_output_commands-DropsOrKeeps now d.safety) [
        | inl stale ↦
            let (d1, told, effect) = tell DisableReason.output_command_timeout in
            (d1, rw (stale, drop-epoch_changed d.safety) told, effect)
        | inr (fresh, same) ↦ elim (expire-DropsOrKeeps now d.safety) [
          | inl silent ↦
              let (d1, told, effect) = tell DisableReason.heartbeat_timeout in
              (d1, rw (fresh, same, silent, drop-epoch_changed d.safety) told, effect)
          | inr (heard, same') ↦
              (d, rw (fresh, same, heard, same') refl, Quiet-Effect (Quiet-refl d))
        ]
      ]

  pub handle_bus_fault-returns :
      (d : Daemon) (i : ℕ)
      → (d' : Daemon) × (handle_bus_fault close now d i ≡ some d') × Effect d d'
  unfolding handle_bus_fault
  handle_bus_fault-returns d i = elim (Option-cases (get_elem? d.buses i)) [
    | inl no_bus ↦ (d, rw (no_bus, handle_bus_fault) refl, Quiet-Effect (Quiet-refl d))
    | inr (b, is_bus) ↦ elim (Bool-cases (b.fault_sequence == observed_fault d i)) [
      | inl seen ↦ (d, rw (is_bus, handle_bus_fault, seen) refl, Quiet-Effect (Quiet-refl d))
      | inr new ↦
          let (d1, told, effect) =
            advance_epoch-returns (observe_fault d i b.fault_sequence) b.fault_reason i in
          (
            d1,
            rw (is_bus, handle_bus_fault, new) told,
            Effect-trans (Quiet-Effect (observe_fault-Quiet d i b.fault_sequence)) effect,
          )
    ]
  ]

  handle_bus_faults_from-returns :
      (rounds i : ℕ) (d : Daemon)
      → (d' : Daemon) × (handle_bus_faults_from close now rounds i d ≡ some d') × Effect d d'
  unfolding handle_bus_faults_from
  handle_bus_faults_from-returns zero i d = (d, refl, Quiet-Effect (Quiet-refl d))
  handle_bus_faults_from-returns (suc rounds) i d =
      let (d1, handled, effect) = handle_bus_fault-returns d i in
      let (d2, rest, effect') = handle_bus_faults_from-returns rounds (i + 1) d1 in
      (d2, rw handled rest, Effect-trans effect effect')

  pub handle_bus_faults-returns :
      (d : Daemon) → (d' : Daemon) × (handle_bus_faults close now d ≡ some d') × Effect d d'
  unfolding handle_bus_faults
  handle_bus_faults-returns d = handle_bus_faults_from-returns (length d.buses) 0 d
