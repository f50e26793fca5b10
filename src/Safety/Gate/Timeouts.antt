-- ===== src/Safety/Gate/Timeouts.antt =====
-- The two deadlines.
use ec_systemcore.Base.{ℕ, ◌+◌, ◌*◌, ◌≤◌, ◌≡◌, true, false, Option, none, some, arith, ◌⊎◌, ◌↔◌}
use ec_systemcore.Safety.Gate.Invariant.{IsSafe, next_epoch}
use ec_systemcore.Safety.Gate.{
  SafetyGate, Controller, has_controller, expire, expire_output_commands,
}

-- The heartbeat deadline of a controller, and nothing to ask of no controller.
abbrev pub HeartbeatBy : Option Controller → ℕ → ℕ → Type 0
HeartbeatBy none now timeout = Unit {0}
HeartbeatBy (some c) now timeout = now ≤ c.last_heartbeat + timeout * 1000000

-- The gate after its two deadlines are checked at a time, the commands' first.
abbrev pub checked : SafetyGate → ℕ → SafetyGate
checked g now = (expire (expire_output_commands g now).1 now).1

-- From a gate that keeps the invariant, after both deadlines are checked, outputs stay enabled only to
-- a controller that has met both deadlines, and a controller stays only if it has met the heartbeat
-- deadline.
pub deadlines_fresh :
    (g : SafetyGate) (now : ℕ)
    → IsSafe g
    → let g' = checked g now in
      HeartbeatBy g'.controller now g.heartbeat_timeout
      × ((g'.outputs_enabled ≡ false)
          ⊎ ((has_controller g'.controller ≡ true)
              × (now ≤ g'.last_output_command + g.output_command_timeout * 1000000)))
unfolding expire expire_output_commands
deadlines_fresh g now v = ground (arith, v.enabled_has_controller)

-- A gate that has met its deadlines: the heartbeat's, and the commands' while outputs are enabled to a
-- controller.
abbrev pub MeetsDeadlines : SafetyGate → ℕ → Type 0
MeetsDeadlines g now =
    HeartbeatBy g.controller now g.heartbeat_timeout
    × ((g.outputs_enabled ≡ false)
        ⊎ (now ≤ g.last_output_command + g.output_command_timeout * 1000000))

-- From a gate that keeps the invariant, checking both deadlines keeps the epoch exactly if the gate has
-- met them, and then leaves the gate as it is; otherwise it moves to the next epoch, once, with no
-- controller and the outputs disabled.
pub deadlines_decide :
    (g : SafetyGate) (now : ℕ)
    → IsSafe g
    → let g' = checked g now in
      ((g'.epoch ≡ g.epoch) ↔ MeetsDeadlines g now)
      × (((g'.epoch ≡ g.epoch) × (g' ≡ g))
          ⊎ ((g'.epoch ≡ next_epoch g.epoch)
              × (g'.controller ≡ none)
              × (g'.outputs_enabled ≡ false)))
unfolding expire expire_output_commands
deadlines_decide g now v =
    let fits = v.epoch_fits in
    let enabled = v.enabled_has_controller in (ground (arith, v.epoch_pos), ground arith)
