-- ===== src/Realtime/RealtimeError.antt =====
-- `enum RealtimeError` of daemon/include/ec_systemcore/realtime.hpp.
use ec_systemcore.Base.{ℕ}

abbrev pub mlock_failed : ℕ
mlock_failed = 1

abbrev pub scheduler_failed : ℕ
scheduler_failed = 2

abbrev pub affinity_configuration_invalid : ℕ
affinity_configuration_invalid = 4

abbrev pub affinity_apply_failed : ℕ
affinity_apply_failed = 8

abbrev pub clock_error : ℕ
clock_error = 16

abbrev pub priority_invalid : ℕ
priority_invalid = 32

abbrev pub distributed_clock_unlocked : ℕ
distributed_clock_unlocked = 64
