-- ===== src/Safety/Gate/Authority.antt =====
-- Who may do what: the fence that the epoch puts around a controller's term.
use ec_systemcore.Base.{ℕ, ◌+◌, ◌-◌, ◌%◌, ◌<◌, ◌≡◌, ◌≢◌, Bool, true, List, [], ◌∷◌, arith, ◌⊎◌, ◌↔◌}
use ec_systemcore.Protocol.Enums.{AckStatus}
use ec_systemcore.Safety.Gate.{
  SafetyGate, u64_max, held_by, authorize_write, authorize_controller, heartbeat,
  set_output_enabled, record_output_write, release,
}
use ec_systemcore.Safety.Gate.Command.{Command, sets_output, step, run, drops}
use ec_systemcore.Safety.Gate.Invariant.{IsSafe, step-IsSafe, step_epoch}

-- A write is authorised exactly for the controller, in its epoch, with the outputs enabled.
pub authorize_write_iff :
    (g : SafetyGate) (id e : ℕ)
    → ((authorize_write g id e).status ≡ AckStatus.ok)
      ↔ ((e ≡ g.epoch) × (held_by g.controller id ≡ true) × (g.outputs_enabled ≡ true))
unfolding authorize_write
authorize_write_iff g id e = ground arith

-- A controller's request to enable the outputs, in the current epoch and while the process data is
-- healthy.
abbrev pub IsEnableRequest : SafetyGate → Command → Type 0
IsEnableRequest g (sets_output id e enabled healthy now) =
    (e ≡ g.epoch) × (held_by g.controller id ≡ true) × (enabled ≡ true) × (healthy ≡ true)
IsEnableRequest g other = ⊥

-- Where the outputs are enabled after a call, they were enabled before it, or the call is a request
-- to enable them by the controller, in the current epoch and while the process data is healthy.
pub enabled_only_by_request :
    (g : SafetyGate) (c : Command)
    → (step g c).1.outputs_enabled ≡ true
    → (g.outputs_enabled ≡ true) ⊎ IsEnableRequest g c
unfolding step
enabled_only_by_request g (sets_output id e enabled healthy now) h = ground arith
enabled_only_by_request g c h = ground arith

-- The epoch after `n` drops.
abbrev pub epoch_after : ℕ → ℕ → ℕ
epoch_after e n = (e - 1 + n) % u64_max + 1

run_epoch :
    (g : SafetyGate) (cs : List Command)
    → IsSafe g
    → (run g cs).epoch ≡ epoch_after g.epoch (drops g cs)
unfolding run drops
run_epoch g [] v = omega (arith, v.epoch_pos, v.epoch_fits)
run_epoch g (c ∷ cs) v = ground (
  arith,
  step_epoch g c,
  run_epoch (step g c).1 cs (step-IsSafe g c v),
  v.epoch_pos,
  v.epoch_fits,
)

-- Every call that carries the epoch `e` is refused as stale, and leaves the gate as it is.
pub record IsStale (g : SafetyGate) (id e now : ℕ) (enabled healthy : Bool) : Type 0 where
  pub write : (authorize_write g id e).status ≡ AckStatus.stale_epoch
  pub beat_status : (heartbeat g id e now).0.status ≡ AckStatus.stale_epoch
  pub beat_gate : (heartbeat g id e now).1 ≡ g
  pub enable_status :
      (set_output_enabled g id e enabled healthy now).0.status ≡ AckStatus.stale_epoch
  pub enable_gate : (set_output_enabled g id e enabled healthy now).1 ≡ g
  pub record_status : (record_output_write g id e now).0.status ≡ AckStatus.stale_epoch
  pub record_gate : (record_output_write g id e now).1 ≡ g
  pub controller : (authorize_controller g id e).status ≡ AckStatus.stale_epoch
  pub release_status : (release g id e).0.status ≡ AckStatus.stale_epoch
  pub release_gate : (release g id e).1 ≡ g

other_epoch-IsStale :
    (g : SafetyGate) (id e now : ℕ) (enabled healthy : Bool)
    → e ≢ g.epoch
    → IsStale g id e now enabled healthy
unfolding authorize_write heartbeat set_output_enabled record_output_write authorize_controller
    release
other_epoch-IsStale g id e now enabled healthy h = ground arith

-- After a history with at least one drop and fewer than 2^64 - 1 of them, from a gate that keeps the
-- invariant, every call that carries the epoch from before is refused as stale and changes nothing.
pub old_epoch_fenced :
    (g : SafetyGate) (cs : List Command) (id now : ℕ) (enabled healthy : Bool)
    → IsSafe g
    → 0 < drops g cs
    → drops g cs < u64_max
    → IsStale (run g cs) id g.epoch now enabled healthy
old_epoch_fenced g cs id now enabled healthy v some_drop few =
    other_epoch-IsStale (run g cs) id g.epoch now enabled healthy
      (omega (arith, run_epoch g cs v, v.epoch_pos, v.epoch_fits))
