-- ===== src/Daemon/SpscQueue.antt =====
-- `SpscQueue` of daemon/src/main.cpp, which carries commands and inputs between a client's thread and
-- a bus. One call of the producer or of the consumer is one step here: each writes its own index
-- once, at the end of the call. `initial` is what the array's slots are made with.
pub mod Fifo
use ec_systemcore.Base.{
  ℕ, ◌+◌, ◌-◌, ◌%◌, List, Option, none, some, ltb, ◌==◌, if◌then◌else◌, get_or, set, replicate,
}

pub record SpscQueue {ℓ} (A : Type ℓ) : Type ℓ where
  pub values : List A
  pub read : ℕ
  pub write : ℕ

abbrev pub next : ℕ → ℕ → ℕ
next capacity i = (i + 1) % capacity

module _ {ℓ} {A : Type ℓ} (initial : A) (capacity : ℕ) where
  unfoldable pub new_queue : SpscQueue A
  new_queue = record { values = replicate capacity initial; read = 0; write = 0 }

  unfoldable pub try_pop : SpscQueue A → Option (A × SpscQueue A)
  try_pop q =
      if q.read == q.write
      then none
      else some (get_or q.values q.read initial, record q { read = next capacity q.read })

module _ {ℓ} {A : Type ℓ} (capacity : ℕ) where
  unfoldable pub try_push : SpscQueue A → A → Option (SpscQueue A)
  try_push q value =
      if next capacity q.write == q.read
      then none
      else some (record q { values = set q.values q.write value; write = next capacity q.write })

  unfoldable pub available_to_write : SpscQueue A → ℕ
  available_to_write q =
      if ltb q.write q.read then q.read - q.write - 1 else capacity - (q.write - q.read) - 1
