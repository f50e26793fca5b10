-- ===== src/Safety/Limits.antt =====
-- `ValidateWholeOutputWrite`, `CalculateControllerRateLimit` and `SaturatingIncrement` of
-- daemon/include/ec_systemcore/safety.hpp. The numbers are 64-bit in the source; the bounds show
-- that no step wraps, so they are plain numbers here.
use ec_systemcore.Base.{
  ℕ, ◌+◌, ◌-◌, ◌*◌, ◌/◌, ◌≤◌, ◌<◌, ◌≡◌, ◌↔◌, not, ◌||◌, arith, ltb, ◌==◌, if◌then◌else◌,
}
use ec_systemcore.Protocol.Enums.{AckStatus}
use ec_systemcore.Protocol.Limits.{maximum_output_write}

unfoldable pub validate_whole_output_write : ℕ → ℕ → ℕ → AckStatus
validate_whole_output_write output_bytes offset length =
    if output_bytes == 0
      || ltb maximum_output_write output_bytes
      || not (offset == 0)
      || not (length == output_bytes)
    then AckStatus.bounds
    else AckStatus.ok

-- A write is accepted exactly if it replaces the whole, nonempty image of at most 1024 bytes.
pub validate_whole_output_write_iff :
    (output_bytes offset length : ℕ)
    → (validate_whole_output_write output_bytes offset length ≡ AckStatus.ok)
      ↔ ((0 < output_bytes) × (output_bytes ≤ 1024) × (offset ≡ 0) × (length ≡ output_bytes))
unfolding validate_whole_output_write
validate_whole_output_write_iff output_bytes offset length = ground arith

pub record ControllerRateLimit : Type 0 where
  pub burst_frames : ℕ
  pub frames_per_second : ℕ

abbrev maximum_frames_per_second : ℕ
maximum_frames_per_second = 200000

abbrev maximum_burst_frames : ℕ
maximum_burst_frames = 10000

-- `std::clamp`
abbrev clamp : ℕ → ℕ → ℕ → ℕ
clamp value low high = if ltb value low then low else if ltb high value then high else value

abbrev pub refreshes_per_second : ℕ → ℕ
refreshes_per_second timeout_ms =
    let timeout = if ltb 0 timeout_ms then timeout_ms else 1 in (1000 + timeout - 1) / timeout

required_writes : ℕ → ℕ → ℕ
required_writes targets refreshes =
    if ltb (maximum_frames_per_second / refreshes) targets
    then maximum_frames_per_second
    else targets * refreshes

rate_with_headroom : ℕ → ℕ
rate_with_headroom required =
    if ltb ((maximum_frames_per_second - 100) / 2) required
    then maximum_frames_per_second
    else required * 2 + 100

burst_with_headroom : ℕ → ℕ
burst_with_headroom targets =
    if ltb ((maximum_burst_frames - 64) / 3) targets then maximum_burst_frames else targets * 3 + 64

-- `outputCommandTimeout.count()` is a signed count; a count that is not positive is 0 here.
unfoldable pub calculate_controller_rate_limit : ℕ → ℕ → ControllerRateLimit
unfolding required_writes rate_with_headroom burst_with_headroom
calculate_controller_rate_limit targets timeout_ms = record {
  burst_frames = clamp (burst_with_headroom targets) 500 maximum_burst_frames;
  frames_per_second =
      clamp (rate_with_headroom (required_writes targets (refreshes_per_second timeout_ms))) 2000
        maximum_frames_per_second;
}

unfoldable pub saturating_increment : ℕ → ℕ → ℕ
saturating_increment maximum value = if not (value == maximum) then value + 1 else value
