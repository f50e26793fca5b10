-- ===== src/Tests/Gates.antt =====
-- The gate, the limits and the realtime set-up at concrete inputs.
use ec_systemcore.Base.{
  ◌+◌, ◌*◌, ◌≤◌, ◌≡◌, refl, [], ◌∷◌, some, none, arith, true, false, ◌⊎◌, inr, ◌↔◌,
}
use ec_systemcore.Base.Int.{pos, negsuc}
use ec_systemcore.Safety.Gate.{SafetyGate, new_gate, has_controller}
use ec_systemcore.Safety.Gate.Command.{
  Command, acquires, sets_output, invalidates, step, run, drops,
}
use ec_systemcore.Safety.Gate.Invariant.{IsSafe, reachable-IsSafe, step_epoch, next_epoch}
use ec_systemcore.Safety.Gate.Authority.{
  enabled_only_by_request, old_epoch_fenced, IsStale, IsEnableRequest,
}
use ec_systemcore.Safety.Gate.Timeouts.{
  HeartbeatBy, MeetsDeadlines, checked, deadlines_fresh, deadlines_decide,
}
use ec_systemcore.Realtime.{
  RealtimeConfig, RealtimeOperations, apply_realtime_configuration, fully_applied,
  fully_applied_iff,
}

abbrev enabled_gate : SafetyGate
enabled_gate = record {
  epoch = 3;
  heartbeat_timeout = 250;
  output_command_timeout = 100;
  last_output_command = 900;
  controller = some (record { id = 5; pid = 40; last_heartbeat = 800 });
  outputs_enabled = true;
}

enabled_gate-IsSafe : IsSafe enabled_gate
enabled_gate-IsSafe = record {
  epoch_pos = omega arith;
  epoch_fits = omega arith;
  enabled_has_controller = inr refl;
}

abbrev taken_gate : SafetyGate
taken_gate = record enabled_gate { outputs_enabled = false }

abbrev enable_command : Command
enable_command = sets_output 5 3 true true 1000

reachable-IsSafe_example : IsSafe (run (new_gate 0 250 100) (invalidates ∷ acquires 6 41 1000 ∷ []))
reachable-IsSafe_example =
    reachable-IsSafe 0 250 100 (invalidates ∷ acquires 6 41 1000 ∷ []) (omega arith)

step_epoch_example :
    let (r, g') = step enabled_gate invalidates in
    ((r.epoch_changed ≡ false) × (g'.epoch ≡ 3))
    ⊎ ((r.epoch_changed ≡ true)
        × (g'.epoch ≡ next_epoch 3)
        × (g'.controller ≡ none)
        × (g'.outputs_enabled ≡ false))
step_epoch_example = step_epoch enabled_gate invalidates

enabled_only_by_request_example :
    (taken_gate.outputs_enabled ≡ true) ⊎ IsEnableRequest taken_gate enable_command
unfolding step
enabled_only_by_request_example = enabled_only_by_request taken_gate enable_command refl

old_epoch_fenced_example :
    IsStale (run enabled_gate (invalidates ∷ acquires 5 40 1000 ∷ [])) 5 3 2000 true true
unfolding drops step
old_epoch_fenced_example =
    old_epoch_fenced enabled_gate (invalidates ∷ acquires 5 40 1000 ∷ []) 5 2000 true true
      enabled_gate-IsSafe (omega arith) (omega arith)

deadlines_fresh_example :
    let g' = checked enabled_gate 100001000 in
    HeartbeatBy g'.controller 100001000 250
    × ((g'.outputs_enabled ≡ false)
        ⊎ ((has_controller g'.controller ≡ true)
            × (100001000 ≤ g'.last_output_command + 100 * 1000000)))
deadlines_fresh_example = deadlines_fresh enabled_gate 100001000 enabled_gate-IsSafe

deadlines_decide_example :
    let g' = checked enabled_gate 100001000 in
    ((g'.epoch ≡ 3) ↔ MeetsDeadlines enabled_gate 100001000)
    × (((g'.epoch ≡ 3) × (g' ≡ enabled_gate))
        ⊎ ((g'.epoch ≡ next_epoch 3) × (g'.controller ≡ none) × (g'.outputs_enabled ≡ false)))
deadlines_decide_example = deadlines_decide enabled_gate 100001000 enabled_gate-IsSafe

abbrev requested : RealtimeConfig
requested = record {
  request_memory_lock = true;
  request_fifo = true;
  fifo_priority = pos 55;
  cpu_affinity = some 2;
}

-- A machine of four processors whose scheduler refuses.
abbrev refusing : RealtimeOperations
refusing = record {
  lock_memory = some (pos 0);
  set_fifo_scheduler = some (λ priority. negsuc 0);
  set_cpu_affinity = some (λ cpu. pos 0);
  available_cpu_count = some 4;
  current_scheduling_policy = some (pos 0);
}

fully_applied_iff_example :
    let r = apply_realtime_configuration requested refusing in
    (fully_applied r requested ≡ true) ↔ (r.error_bits ≡ 0)
fully_applied_iff_example = fully_applied_iff requested refusing
