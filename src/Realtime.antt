-- ===== src/Realtime.antt =====
-- `ApplyRealtimeConfiguration` of daemon/include/ec_systemcore/realtime.hpp. The operations of the
-- operating system are a parameter: each is what a call returns, and `none` an empty
-- `std::function`.
pub mod RealtimeError
use RealtimeError
use ec_systemcore.Base.{
  ℕ, ◌≡◌, ◌≢◌, ◌↔◌, ◌⊎◌, Bool, true, false, not, ◌&&◌, ◌||◌, Option, none, some, arith, leb, ◌==◌,
  bit_or, bit_or_least, refl, ◌∙◌, ◌<◌, ◌≤◌, if◌then◌else◌,
}
use ec_systemcore.Base.Int.{ℤ, pos, negsuc, leb_ℤ, is_zero}
use ec_systemcore.Protocol.Enums.{SchedulingMode}

pub record RealtimeConfig : Type 0 where
  pub request_memory_lock : Bool
  pub request_fifo : Bool
  pub fifo_priority : ℤ
  pub cpu_affinity : Option ℕ

pub record RealtimeOperations : Type 0 where
  pub lock_memory : Option ℤ
  pub set_fifo_scheduler : Option (ℤ → ℤ)
  pub set_cpu_affinity : Option (ℕ → ℤ)
  pub available_cpu_count : Option ℕ
  pub current_scheduling_policy : Option ℤ

pub record RealtimeResult : Type 0 where
  pub requested : Bool
  pub memory_locked : Bool
  pub scheduler_applied : Bool
  pub affinity_applied : Bool
  pub scheduling_mode : SchedulingMode
  pub error_bits : ℕ

abbrev pub has_value : Option ℕ → Bool
has_value none = false
has_value (some n) = true

unfoldable pub fully_applied : RealtimeResult → RealtimeConfig → Bool
fully_applied r config =
    (not config.request_memory_lock || r.memory_locked)
    && (not config.request_fifo || r.scheduler_applied)
    && (not (has_value config.cpu_affinity) || r.affinity_applied)

-- `operation && operation() == 0`
abbrev succeeds : Option ℤ → Bool
succeeds none = false
succeeds (some code) = is_zero code

abbrev succeeds_at {ℓ} : {A : Type ℓ} → Option (A → ℤ) → A → Bool
succeeds_at none a = false
succeeds_at (some f) a = is_zero (f a)

initial : RealtimeConfig → RealtimeResult
initial config = record {
  requested = config.request_memory_lock || config.request_fifo || has_value config.cpu_affinity;
  memory_locked = false;
  scheduler_applied = false;
  affinity_applied = false;
  scheduling_mode = SchedulingMode.other_policy;
  error_bits = 0;
}

-- `result.errorBits |= bits`
abbrev fail_with : ℕ → RealtimeResult → RealtimeResult
fail_with bits r = record r { error_bits = bit_or r.error_bits bits }

apply_memory_lock : RealtimeConfig → RealtimeOperations → RealtimeResult → RealtimeResult
apply_memory_lock config operations r =
    if not config.request_memory_lock
    then r
    else if succeeds operations.lock_memory
    then record r { memory_locked = true }
    else fail_with RealtimeError.mlock_failed r

apply_fifo : RealtimeConfig → RealtimeOperations → RealtimeResult → RealtimeResult
apply_fifo config operations r =
    if not config.request_fifo
    then r
    else if leb_ℤ config.fifo_priority (pos 0) || leb_ℤ (pos 100) config.fifo_priority
    then fail_with RealtimeError.priority_invalid r
    else if succeeds_at operations.set_fifo_scheduler config.fifo_priority
    then record r { scheduler_applied = true }
    else fail_with RealtimeError.scheduler_failed r

abbrev value_or_zero : Option ℕ → ℕ
value_or_zero none = 0
value_or_zero (some n) = n

apply_affinity : Option ℕ → RealtimeOperations → RealtimeResult → RealtimeResult
apply_affinity none operations r = r
apply_affinity (some cpu) operations r =
    let available = value_or_zero operations.available_cpu_count in
    if available == 0 || leb available cpu
    then fail_with RealtimeError.affinity_configuration_invalid r
    else if succeeds_at operations.set_cpu_affinity cpu
    then record r { affinity_applied = true }
    else fail_with RealtimeError.affinity_apply_failed r

abbrev is_fifo : SchedulingMode → Bool
is_fifo SchedulingMode.fifo = true
is_fifo other = false

-- `policy == 1`, the policy being 0 where there is no operation to ask.
abbrev policy_mode : Option ℤ → SchedulingMode → SchedulingMode
policy_mode none mode = mode
policy_mode (some policy) mode = elim policy [
  | pos n ↦ if n == 1 then SchedulingMode.fifo else mode
  | negsuc n ↦ mode
]

read_policy : RealtimeConfig → RealtimeOperations → RealtimeResult → RealtimeResult
read_policy config operations r =
    let mode = policy_mode operations.current_scheduling_policy r.scheduling_mode in
    if config.request_fifo && not (is_fifo mode)
    then record r {
      scheduling_mode = mode;
      error_bits = bit_or r.error_bits RealtimeError.scheduler_failed;
      scheduler_applied = false;
    }
    else record r { scheduling_mode = mode }

unfoldable pub apply_realtime_configuration : RealtimeConfig → RealtimeOperations → RealtimeResult
unfolding initial apply_memory_lock apply_fifo apply_affinity read_policy
apply_realtime_configuration config operations = read_policy config operations (
    apply_affinity config.cpu_affinity operations
      (apply_fifo config operations (apply_memory_lock config operations (initial config))))

-- One stage: either what was requested is applied and no error bit is added, or one is set.
abbrev Stage : Bool → ℕ → ℕ → Type 0
Stage applied before after =
    ((applied ≡ true) × (after ≡ before)) ⊎ ((applied ≡ false) × (0 < after) × (before ≤ after))

apply_memory_lock-Stage :
    (config : RealtimeConfig) (operations : RealtimeOperations) (r : RealtimeResult)
    → r.memory_locked ≡ false
    → let r' = apply_memory_lock config operations r in
      Stage (not config.request_memory_lock || r'.memory_locked) r.error_bits r'.error_bits
      × (r'.scheduler_applied ≡ r.scheduler_applied)
      × (r'.affinity_applied ≡ r.affinity_applied)
unfolding apply_memory_lock
apply_memory_lock-Stage config operations r h =
    ground (arith, bit_or_least r.error_bits RealtimeError.mlock_failed)

apply_fifo-Stage :
    (config : RealtimeConfig) (operations : RealtimeOperations) (r : RealtimeResult)
    → r.scheduler_applied ≡ false
    → let r' = apply_fifo config operations r in
      Stage (not config.request_fifo || r'.scheduler_applied) r.error_bits r'.error_bits
      × (r'.memory_locked ≡ r.memory_locked)
      × (r'.affinity_applied ≡ r.affinity_applied)
unfolding apply_fifo
apply_fifo-Stage config operations r h = ground (
  arith,
  bit_or_least r.error_bits RealtimeError.priority_invalid,
  bit_or_least r.error_bits RealtimeError.scheduler_failed,
)

apply_affinity-Stage :
    (cpu : Option ℕ) (operations : RealtimeOperations) (r : RealtimeResult)
    → r.affinity_applied ≡ false
    → let r' = apply_affinity cpu operations r in
      Stage (not (has_value cpu) || r'.affinity_applied) r.error_bits r'.error_bits
      × (r'.memory_locked ≡ r.memory_locked)
      × (r'.scheduler_applied ≡ r.scheduler_applied)
unfolding apply_affinity
apply_affinity-Stage cpu operations r h = ground (
  arith,
  bit_or_least r.error_bits RealtimeError.affinity_configuration_invalid,
  bit_or_least r.error_bits RealtimeError.affinity_apply_failed,
)

read_policy_stage :
    (config : RealtimeConfig) (operations : RealtimeOperations) (r : RealtimeResult)
    → let r' = read_policy config operations r in
      (((r'.scheduler_applied ≡ r.scheduler_applied) × (r'.error_bits ≡ r.error_bits))
        ⊎ ((config.request_fifo ≡ true) × (r'.scheduler_applied ≡ false) × (0 < r'.error_bits)))
      × (r'.memory_locked ≡ r.memory_locked)
      × (r'.affinity_applied ≡ r.affinity_applied)
unfolding read_policy
read_policy_stage config operations r =
    ground (arith, bit_or_least r.error_bits RealtimeError.scheduler_failed)

-- No error bit is set exactly if everything that was requested has been applied.
pub fully_applied_iff :
    (config : RealtimeConfig) (operations : RealtimeOperations)
    → let r = apply_realtime_configuration config operations in
      (fully_applied r config ≡ true) ↔ (r.error_bits ≡ 0)
unfolding fully_applied apply_realtime_configuration initial
fully_applied_iff config operations =
    let locked = apply_memory_lock config operations (initial config) in
    let scheduled = apply_fifo config operations locked in
    let placed = apply_affinity config.cpu_affinity operations scheduled in
    let memory = apply_memory_lock-Stage config operations (initial config) refl in
    let scheduler = apply_fifo-Stage config operations locked memory.1 in
    let affinity =
      apply_affinity-Stage config.cpu_affinity operations scheduled (scheduler.2 ∙ memory.2) in
    ground (arith, memory, scheduler, affinity, read_policy_stage config operations placed)
