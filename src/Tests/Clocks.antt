-- ===== src/Tests/Clocks.antt =====
-- The clock controller at concrete inputs.
use ec_systemcore.Base.{◌≤◌, ◌≡◌, ◌/◌, ◌*◌, max, refl, arith, true, false}
use ec_systemcore.Base.Int.{pos, abs}
use ec_systemcore.DcSync.{DistributedClockController, update, phase_of}
use ec_systemcore.DcSync.Bounds.{update_bounds}
use ec_systemcore.DcSync.Lock.{run, on_schedule, on_schedule_locks}

-- A millisecond's cycle, with one reference seen 40 ns behind the start of a cycle.
abbrev seen_one : DistributedClockController
seen_one = record {
  cycle_nanoseconds = pos 1000000;
  integral = pos 0;
  observations = 1;
  stable_cycles = 0;
  bad_cycles_after_lock = 0;
  invalid_advance_cycles = 1;
  previous_reference = 5000040;
  synchronized = false;
}

update_bounds_example :
    let (r, c') = update seen_one (pos 6000090) in
    (abs r.phase_error_ns ≤ 1000000 / 2)
    × (abs r.correction_ns ≤ max 1 (1000000 / 10))
    × (abs c'.integral ≤ 1000000 * 100)
update_bounds_example = update_bounds seen_one (pos 6000090) (omega arith) (omega arith)

on_schedule_locks_example : (run seen_one (on_schedule 20 1000000 5000040)).synchronized ≡ true
unfolding phase_of
on_schedule_locks_example =
    on_schedule_locks 19 seen_one 1000000 (omega arith) (omega arith)
      (record { cycle_is = refl; started = omega arith; in_phase = omega arith }) (omega arith)
