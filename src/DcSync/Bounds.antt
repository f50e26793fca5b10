-- ===== src/DcSync/Bounds.antt =====
-- The bounds of what an update computes.
use ec_systemcore.Base.{
  ℕ, ◌*◌, ◌/◌, ◌≤◌, ◌<◌, ◌≡◌, max, Bool, true, false, arith, Bool-cases, inl, inr,
}
use ec_systemcore.Base.Int.{ℤ, pos, pos_part, abs, ◌-ℤ◌, quotient}
use ec_systemcore.DcSync.{
  DistributedClockController, update, update_valid, phase_of, correction_of, next_integral,
  integral_limit, i64_max, reference_advanced, clamp_ℤ, negated, update_invalid, update-invalid,
  update-valid, is_unusable,
}
use native.Mathlib.Nat.{mod-lt}

phase_of_bound : (cycle reference : ℕ) → 0 < cycle → abs (phase_of cycle reference) ≤ cycle / 2
unfolding phase_of
phase_of_bound cycle reference h = ground (arith, mod-lt reference h)

clamp_ℤ_bound : (value : ℤ) (limit : ℕ) → abs (clamp_ℤ value (negated limit) (pos limit)) ≤ limit
clamp_ℤ_bound value limit = ground arith

correction_of_bound :
    (advanced : Bool) (cycle : ℕ) (phase integral : ℤ)
    → abs (correction_of advanced cycle phase integral) ≤ max 1 (cycle / 10)
unfolding correction_of
correction_of_bound false cycle phase integral = omega arith
correction_of_bound true cycle phase integral =
    clamp_ℤ_bound (pos 0 -ℤ quotient phase 100 -ℤ quotient integral 1000) (max 1 (cycle / 10))

next_integral_bound :
    (advanced : Bool) (limit : ℕ) (phase integral : ℤ)
    → abs integral ≤ limit
    → abs (next_integral advanced limit phase integral) ≤ limit
unfolding next_integral
next_integral_bound advanced limit phase integral h = ground arith

integral_limit-eq : (cycle : ℕ) → cycle ≤ i64_max / 100 → integral_limit cycle ≡ cycle * 100
unfolding integral_limit
integral_limit-eq cycle h = ground arith

update_valid_bounds :
    (c : DistributedClockController) (cycle reference : ℕ)
    → 0 < cycle
    → cycle ≤ i64_max / 100
    → abs c.integral ≤ cycle * 100
    → let (r, c') = update_valid c cycle reference in
      (abs r.phase_error_ns ≤ cycle / 2)
      × (abs r.correction_ns ≤ max 1 (cycle / 10))
      × (abs c'.integral ≤ cycle * 100)
unfolding update_valid
update_valid_bounds c cycle reference h k i =
    let advanced = reference_advanced cycle c.previous_reference reference in
    let phase = phase_of cycle reference in
    (
      phase_of_bound cycle reference h,
      correction_of_bound advanced cycle phase
          (next_integral advanced (integral_limit cycle) phase c.integral),
      rw (integral_limit-eq cycle k)
          (next_integral_bound advanced (cycle * 100) phase c.integral i),
    )

-- Whatever the reference does, the phase error is at most half a cycle, the correction at most a
-- tenth of one (or 1 ns), and the integral stays within 100 cycles, for every cycle up to
-- (2^63 - 1) / 100 ns.
pub update_bounds :
    (c : DistributedClockController) (reference : ℤ)
    → abs c.integral ≤ pos_part c.cycle_nanoseconds * 100
    → pos_part c.cycle_nanoseconds ≤ i64_max / 100
    → let (r, c') = update c reference in
      (abs r.phase_error_ns ≤ pos_part c.cycle_nanoseconds / 2)
      × (abs r.correction_ns ≤ max 1 (pos_part c.cycle_nanoseconds / 10))
      × (abs c'.integral ≤ pos_part c.cycle_nanoseconds * 100)
update_bounds c reference i k = elim (Bool-cases (is_unusable c reference)) [
  | inl unusable ↦
      rw (update-invalid c reference unusable)
        (unfold update_invalid in (omega arith, omega arith, i))
  | inr usable ↦ rw (update-valid c reference usable) (
      update_valid_bounds c (pos_part c.cycle_nanoseconds) (pos_part reference)
        (ground (arith, usable)) k i)
]
