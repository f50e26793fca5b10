-- ===== src/Safety/Gate/Invariant.antt =====
-- What every history keeps, and what one call can change.
use ec_systemcore.Base.{
  ℕ, ◌+◌, ◌^◌, ◌≤◌, ◌<◌, ◌≡◌, true, false, List, [], ◌∷◌, none, arith, ◌⊎◌, ◌==◌, if◌then◌else◌,
}
use ec_systemcore.Safety.Gate.{SafetyGate, new_gate, u64_max, has_controller}
use ec_systemcore.Safety.Gate.Command.{Command, acquires, step, run}

-- The epoch is a nonzero 64-bit number, and outputs are permitted only to a controller.
pub record IsSafe (g : SafetyGate) : Type 0 where
  pub epoch_pos : 1 ≤ g.epoch
  pub epoch_fits : g.epoch ≤ u64_max
  pub enabled_has_controller : (g.outputs_enabled ≡ false) ⊎ (has_controller g.controller ≡ true)

new_gate-IsSafe : (e h o : ℕ) → e < 2 ^ 64 → IsSafe (new_gate e h o)
unfolding new_gate
new_gate-IsSafe e h o fits = ground arith

pub step-IsSafe : (g : SafetyGate) (c : Command) → IsSafe g → IsSafe (step g c).1
unfolding step
step-IsSafe g (acquires id pid now) v = ground arith
step-IsSafe g c v = ground arith

pub run-IsSafe : (g : SafetyGate) (cs : List Command) → IsSafe g → IsSafe (run g cs)
unfolding run
run-IsSafe g [] v = v
run-IsSafe g (c ∷ cs) v = run-IsSafe (step g c).1 cs (step-IsSafe g c v)

-- The epoch behind `e` after one more drop; it wraps to 1, never to 0.
abbrev pub next_epoch : ℕ → ℕ
next_epoch e = if e == u64_max then 1 else e + 1

-- What a call reports of the epoch is what it does: either it leaves the epoch alone, or it moves
-- to the next one, with no controller left and the outputs forbidden.
pub step_epoch :
    (g : SafetyGate) (c : Command)
    → let (r, g') = step g c in
      ((r.epoch_changed ≡ false) × (g'.epoch ≡ g.epoch))
      ⊎ ((r.epoch_changed ≡ true)
          × (g'.epoch ≡ next_epoch g.epoch)
          × (g'.controller ≡ none)
          × (g'.outputs_enabled ≡ false))
unfolding step
step_epoch g (acquires id pid now) = ground arith
step_epoch g c = ground arith

-- A gate made with any 64-bit epoch keeps the invariant through every history of calls: its epoch
-- is a nonzero 64-bit number, and its outputs are enabled only while it has a controller.
pub reachable-IsSafe :
    (e h o : ℕ) (cs : List Command) → e < 2 ^ 64 → IsSafe (run (new_gate e h o) cs)
reachable-IsSafe e h o cs fits = run-IsSafe (new_gate e h o) cs (new_gate-IsSafe e h o fits)
