-- ===== src/Daemon/Poll.antt =====
-- `FlushClient` and a client's turn in `PollClients` of daemon/src/main.cpp, and the events that the
-- session and its buses take in turn, each with the time at which it happens.
pub mod Safety
use ec_systemcore.Base.{
  ℕ, ◌+◌, ◌-◌, ◌*◌, ◌^◌, Bool, true, false, not, ◌&&◌, ◌||◌, List, [], ◌∷◌, Option, none, some, ltb,
  ◌==◌, if◌then◌else◌, length, is_empty, get_elem?, set, ◌>>=◌,
}
use ec_systemcore.Protocol.Enums.{DisableReason}
use ec_systemcore.Daemon.Bus.{Bus, FaultStep, fault_steps, raise_fault, set_link_up}
use ec_systemcore.Daemon.State.{Daemon, ClientConnection, client_at, with_client}
use ec_systemcore.Daemon.Outgoing.{Close, close_client}
use ec_systemcore.Daemon.Epochs.{handle_safety_timeouts, handle_bus_faults}
use ec_systemcore.Daemon.Frames.{Received, read_client}

-- What a call of `send` gives.
pub data Sent : Type 0 where
  sent : ℕ → Sent
  would_block interrupted failed : Sent

-- The front frame of the queue after `count` bytes of it were sent.
pub advanced : List (List ℕ) → ClientConnection → ℕ → ClientConnection
advanced [] c count = c
advanced (frame ∷ rest) c count = record c {
  outgoing_offset =
      if c.outgoing_offset + count == length frame then 0 else c.outgoing_offset + count;
  outgoing_bytes = c.outgoing_bytes - count;
  outgoing = if c.outgoing_offset + count == length frame then rest else frame ∷ rest;
}

-- What is left to do after the loop of `FlushClient`.
unfoldable pub flushed : Close → Daemon → ℕ → Option Daemon
flushed close d i =
    let c = client_at d i in
    if c.close_after_write && is_empty c.outgoing then close d i else some d

abbrev pub is_flushed : ClientConnection → Bool
is_flushed c = not c.is_connected || is_empty c.outgoing

-- The loop over what the calls of `send` give; where no more is given, the socket is full.
unfoldable pub flush_client : Close → Daemon → ℕ → List Sent → Option Daemon
flush_client close d i [] = if is_flushed (client_at d i) then flushed close d i else some d
flush_client close d i (Sent.would_block ∷ rest) =
    if is_flushed (client_at d i) then flushed close d i else some d
flush_client close d i (Sent.interrupted ∷ rest) =
    let later = flush_client close d i rest in
    if is_flushed (client_at d i) then flushed close d i else later
flush_client close d i (Sent.failed ∷ rest) =
    if is_flushed (client_at d i) then flushed close d i else close d i
flush_client close d i (Sent.sent count ∷ rest) =
    let c = client_at d i in
    let later = flush_client close (with_client d i (advanced c.outgoing c count)) i rest in
    if is_flushed c then flushed close d i else if count == 0 then close d i else later

-- What `poll` and the calls after it give for one client; `accepted_long_ago` says that it was
-- accepted more than a second ago.
pub record Turn : Type 0 where
  pub has_error : Bool
  pub is_readable : Bool
  pub received : List Received
  pub is_writable : Bool
  pub sends : List Sent
  pub accepted_long_ago : Bool

module _ (close : Close) (now monotonic_us : ℕ) where
  unfoldable pub serve_turn : Daemon → ℕ → Turn → Option Daemon
  serve_turn d i turn =
      let read =
        if turn.is_readable
        then read_client close now monotonic_us 0 d i turn.received
        else some d in
      read >>= λ d1.
      let written =
        if (client_at d1 i).is_connected && turn.is_writable
        then flush_client close d1 i turn.sends
        else some d1 in
      written >>= λ d2.
      if not (client_at d2 i).hello_received && turn.accepted_long_ago then close d2 i else some d2

  unfoldable pub poll_client : Daemon → ℕ → Turn → Option Daemon
  poll_client d i turn = if turn.has_error then close d i else serve_turn d i turn

-- A thread raises a fault at once, or takes some of the steps of `RaiseFault`.
pub data Event : Type 0 where
  client_turn : (now monotonic_us client : ℕ) → Turn → Event
  timeouts_checked faults_checked : (now : ℕ) → Event
  fault_raised : (bus : ℕ) → DisableReason → Event
  thread_moves : (bus : ℕ) → List FaultStep → Event
  link_changed : (bus : ℕ) → Bool → Event

-- A change by the thread of the bus at this place, if there is one.
pub bus_faults : Daemon → ℕ → List FaultStep → Daemon
unfolding fault_steps
bus_faults d k steps = elim (get_elem? d.buses k) [
  | none ↦ d
  | some b ↦
      let (b', faulted) = fault_steps steps b d.global_faulted_epoch in
      record d { buses = set d.buses k b'; global_faulted_epoch = faulted }
]

pub link_changes : Daemon → ℕ → Bool → Daemon
link_changes d k up = elim (get_elem? d.buses k) [
  | none ↦ d
  | some b ↦ record d { buses = set d.buses k (set_link_up b up) }
]

-- The closes that may be nested.
abbrev pub close_fuel : ℕ
close_fuel = 2

unfoldable pub step : Event → Daemon → Option Daemon
unfolding bus_faults raise_fault link_changes
step (Event.client_turn now monotonic_us i turn) d =
    poll_client (close_client close_fuel now) now monotonic_us d i turn
step (Event.timeouts_checked now) d = handle_safety_timeouts (close_client close_fuel now) now d
step (Event.faults_checked now) d = handle_bus_faults (close_client close_fuel now) now d
step (Event.fault_raised k reason) d = some (bus_faults d k (raise_fault reason))
step (Event.thread_moves k steps) d = some (bus_faults d k steps)
step (Event.link_changed k up) d = some (link_changes d k up)

unfoldable pub run : List Event → Daemon → Option Daemon
run [] d = some d
run (event ∷ rest) d = step event d >>= run rest
