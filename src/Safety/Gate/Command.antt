-- ===== src/Safety/Gate/Command.antt =====
-- The calls that the daemon makes of the gate, as data, so that a history is a list of them.
use ec_systemcore.Base.{ℕ, ◌+◌, Bool, List, [], ◌∷◌, if◌then◌else◌}
use ec_systemcore.Safety.Gate.{
  Result, SafetyGate, acquire, heartbeat, set_output_enabled, record_output_write, release,
  disconnect, expire, expire_output_commands, invalidate,
}

pub data Command : Type 0 where
  acquires : ℕ → ℕ → ℕ → Command
  heartbeats : ℕ → ℕ → ℕ → Command
  sets_output : ℕ → ℕ → Bool → Bool → ℕ → Command
  records_write : ℕ → ℕ → ℕ → Command
  releases : ℕ → ℕ → Command
  disconnects : ℕ → Command
  expires : ℕ → Command
  expires_commands : ℕ → Command
  invalidates : Command

unfoldable pub step : SafetyGate → Command → Result × SafetyGate
unfolding acquire heartbeat set_output_enabled record_output_write release disconnect expire
    expire_output_commands invalidate
step g (acquires id pid now) = acquire g id pid now
step g (heartbeats id e now) = heartbeat g id e now
step g (sets_output id e enabled healthy now) = set_output_enabled g id e enabled healthy now
step g (records_write id e now) = record_output_write g id e now
step g (releases id e) = release g id e
step g (disconnects id) = disconnect g id
step g (expires now) = expire g now
step g (expires_commands now) = expire_output_commands g now
step g invalidates = invalidate g

unfoldable pub run : SafetyGate → List Command → SafetyGate
run g [] = g
run g (c ∷ cs) = run (step g c).1 cs

-- How many calls of a history drop the controller.
unfoldable pub drops : SafetyGate → List Command → ℕ
drops g [] = 0
drops g (c ∷ cs) = (if (step g c).0.epoch_changed then 1 else 0) + drops (step g c).1 cs
