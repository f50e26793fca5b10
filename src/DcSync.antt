-- ===== src/DcSync.antt =====
-- `DistributedClockController` of daemon/include/ec_systemcore/dc_sync.hpp. Times are nanoseconds.
-- Where both the cycle and the reference are positive they are plain numbers; the phase, the
-- integral and the correction are signed. The 32-bit counters saturate.
pub mod Bounds
pub mod Lock
use ec_systemcore.Base.{
  ℕ, ◌+◌, ◌-◌, ◌*◌, ◌/◌, ◌%◌, ◌^◌, ◌≡◌, refl, max, Bool, true, false, not, ◌&&◌, ◌||◌, ltb, leb,
  ◌==◌, if◌then◌else◌,
}
use ec_systemcore.Base.Int.{
  ℤ, pos, negsuc, pos_part, sub_ℕ, ◌+ℤ◌, ◌-ℤ◌, leb_ℤ, ltb_ℤ, abs, quotient, is_zero,
}

pub record DistributedClockAdjustment : Type 0 where
  pub valid : Bool
  pub synchronized : Bool
  pub fault : Bool
  pub phase_error_ns : ℤ
  pub correction_ns : ℤ

pub record DistributedClockController : Type 0 where
  pub cycle_nanoseconds : ℤ
  pub integral : ℤ
  pub observations : ℕ
  pub stable_cycles : ℕ
  pub bad_cycles_after_lock : ℕ
  pub invalid_advance_cycles : ℕ
  pub previous_reference : ℕ
  pub synchronized : Bool

abbrev pub u32_max : ℕ
u32_max = 2 ^ 32 - 1

abbrev pub i64_max : ℕ
i64_max = 2 ^ 63 - 1

unfoldable pub reset : DistributedClockController → DistributedClockController
reset c = record {
  cycle_nanoseconds = c.cycle_nanoseconds;
  integral = pos 0;
  observations = 0;
  stable_cycles = 0;
  bad_cycles_after_lock = 0;
  invalid_advance_cycles = 0;
  previous_reference = 0;
  synchronized = false;
}

-- `if (counter != max) ++counter`
abbrev pub saturated : ℕ → ℕ
saturated n = if n == u32_max then n else n + 1

-- `|a - b|`
abbrev distance : ℕ → ℕ → ℕ
distance a b = if leb b a then a - b else b - a

-- The advancement in whole cycles, rounded to the nearest.
unfoldable pub rounded_cycles : ℕ → ℕ → ℕ
rounded_cycles cycle advancement =
    let cycles = advancement / cycle in
    if ltb 0 advancement
    then (if leb (cycle / 2) (advancement % cycle) && not (cycles == i64_max)
        then cycles + 1
        else cycles)
    else 0

-- Whether the reference has advanced by one to four cycles, within the tolerance.
unfoldable pub reference_advanced : ℕ → ℕ → ℕ → Bool
reference_advanced cycle previous reference =
    let advancement = if ltb previous reference then reference - previous else 0 in
    let rounded = rounded_cycles cycle advancement in
    if previous == 0
    then false
    else if not (leb 1 rounded && leb rounded 4)
    then false
    else if ltb (i64_max / cycle) rounded
    then false
    else leb (distance advancement (rounded * cycle)) (max 1000 (cycle / 5))

-- The phase of the reference, in the half-open range of one cycle around zero.
unfoldable pub phase_of : ℕ → ℕ → ℤ
phase_of cycle reference =
    let phase = reference % cycle in
    if ltb (cycle / 2) phase then pos phase -ℤ pos cycle else pos phase

unfoldable pub integral_limit : ℕ → ℕ
integral_limit cycle = if ltb (i64_max / 100) cycle then i64_max else cycle * 100

abbrev min_ℤ : ℤ → ℤ → ℤ
min_ℤ a b = if ltb_ℤ b a then b else a

abbrev max_ℤ : ℤ → ℤ → ℤ
max_ℤ a b = if ltb_ℤ a b then b else a

abbrev negated : ℕ → ℤ
negated n = sub_ℕ 0 n

unfoldable pub next_integral : Bool → ℕ → ℤ → ℤ → ℤ
next_integral advanced limit phase integral =
    if advanced && ltb_ℤ (pos 0) phase
    then min_ℤ (integral +ℤ pos 1) (pos limit)
    else if advanced && ltb_ℤ phase (pos 0)
    then max_ℤ (integral -ℤ pos 1) (negated limit)
    else integral

-- `std::clamp`
abbrev clamp_ℤ : ℤ → ℤ → ℤ → ℤ
clamp_ℤ value low high = if ltb_ℤ value low then low else if ltb_ℤ high value then high else value

unfoldable pub correction_of : Bool → ℕ → ℤ → ℤ → ℤ
correction_of advanced cycle phase integral =
    let maximum = max 1 (cycle / 10) in
    if advanced
    then clamp_ℤ (pos 0 -ℤ quotient phase 100 -ℤ quotient integral 1000) (negated maximum)
        (pos maximum)
    else pos 0

-- A call with a positive cycle and a positive reference.
unfoldable pub update_valid :
    DistributedClockController → ℕ → ℕ → DistributedClockAdjustment × DistributedClockController
update_valid c cycle reference =
    let advanced = reference_advanced cycle c.previous_reference reference in
    let phase = phase_of cycle reference in
    let observations = saturated c.observations in
    let invalid = if advanced then 0 else saturated c.invalid_advance_cycles in
    let kept = if leb 3 invalid then false else c.synchronized in
    let integral = next_integral advanced (integral_limit cycle) phase c.integral in
    let stable =
      if advanced && leb (abs phase) (max 1000 (cycle / 20))
      then saturated c.stable_cycles
      else 0 in
    let synchronized = if leb 20 stable then true else kept in
    let bad =
      if synchronized && ltb (cycle / 4) (abs phase)
      then saturated c.bad_cycles_after_lock
      else 0 in
    (
      record {
        valid = true;
        synchronized = synchronized;
        fault = leb 3 invalid || leb 10 bad || (not synchronized && leb 500 observations);
        phase_error_ns = phase;
        correction_ns = correction_of advanced cycle phase integral;
      },
      record {
        cycle_nanoseconds = c.cycle_nanoseconds;
        integral = integral;
        observations = observations;
        stable_cycles = stable;
        bad_cycles_after_lock = bad;
        invalid_advance_cycles = invalid;
        previous_reference = reference;
        synchronized = synchronized;
      },
    )

-- A call without a usable reference: only the observation is counted.
unfoldable pub update_invalid :
    DistributedClockController → DistributedClockAdjustment × DistributedClockController
update_invalid c =
    let observations = saturated c.observations in
    (
      record {
        valid = false;
        synchronized = false;
        fault = leb 500 observations;
        phase_error_ns = pos 0;
        correction_ns = pos 0;
      },
      record c { observations = observations },
    )

abbrev pub is_unusable : DistributedClockController → ℤ → Bool
is_unusable c reference = leb_ℤ c.cycle_nanoseconds (pos 0) || leb_ℤ reference (pos 0)

unfoldable pub update :
    DistributedClockController → ℤ → DistributedClockAdjustment × DistributedClockController
update c reference =
    if is_unusable c reference
    then update_invalid c
    else update_valid c (pos_part c.cycle_nanoseconds) (pos_part reference)

-- The two cases of an update.
update-invalid :
    (c : DistributedClockController) (reference : ℤ)
    → is_unusable c reference ≡ true
    → update c reference ≡ update_invalid c
unfolding update
update-invalid c reference h = rw h

update-valid :
    (c : DistributedClockController) (reference : ℤ)
    → is_unusable c reference ≡ false
    → update c reference ≡ update_valid c (pos_part c.cycle_nanoseconds) (pos_part reference)
unfolding update
update-valid c reference h = rw h
