-- ===== src/Daemon/Poll/Safety.antt =====
-- The session as a whole: every event is handled to its end, and no bus permits outputs out of step
-- with the gate.
use ec_systemcore.Base.{
  ℕ, ◌≡◌, refl, ◌⊎◌, inl, inr, Bool, true, false, not, ◌&&◌, List, [], ◌∷◌, Option, some, arith,
  ◌==◌, if◌then◌else◌, All-set, get_elem?-All, Option-cases, get_elem?, is_empty,
}
use ec_systemcore.Protocol.Enums.{MessageType}
use ec_systemcore.Protocol.Frame.{Frame}
use ec_systemcore.Safety.Gate.{SafetyGate}
use ec_systemcore.Daemon.Bus.{Bus, FaultStep, fault_steps, raise_fault, set_link_up}
use ec_systemcore.Daemon.Bus.Steps.{fault_steps-Faulting}
use ec_systemcore.Daemon.State.{Daemon, client_at, with_client}
use ec_systemcore.Daemon.Outgoing.{Close, close_client}
use ec_systemcore.Daemon.Outgoing.Effects.{
  Closes, Quiet, Effect, Free, Any, InSync, BusInSync, close_client-Quiet, close_client-Effect,
  with_client-Quiet, queues, Quiet-Effect,
}
use ec_systemcore.Daemon.Epochs.Effects.{handle_safety_timeouts-returns, handle_bus_faults-returns}
use ec_systemcore.Daemon.Handlers.Effects.{EnablesNothing}
use ec_systemcore.Daemon.Handlers.Writes.{EnablesBy}
use ec_systemcore.Daemon.Handlers.Commands.{Queues}
use ec_systemcore.Daemon.Frames.{handle_frame}
use ec_systemcore.Daemon.Frames.Effects.{read_client-returns, handle_frame-returns}
use ec_systemcore.Daemon.Poll.{
  Sent, Turn, advanced, flushed, is_flushed, flush_client, poll_client, serve_turn, Event,
  bus_faults, link_changes, step, run, close_fuel,
}

-- A step that returns, and after which the buses are in step if they were.
abbrev pub StaysInSync : Option Daemon → Daemon → Type 0
StaysInSync m d = (d' : Daemon) × (m ≡ some d') × (InSync d → InSync d')

stays : (d : Daemon) → StaysInSync (some d) d
stays d = (d, refl, λ s. s)

if-StaysInSync :
    (d : Daemon) (b : Bool) {m n : Option Daemon}
    → StaysInSync m d
    → StaysInSync n d
    → StaysInSync (if b then m else n) d
if-StaysInSync d true h k = h
if-StaysInSync d false h k = k

module _ {close : Close} (any : Closes Any Effect close) where
  close_stays : (d : Daemon) (i : ℕ) → StaysInSync (close d i) d
  close_stays d i = let (d', closed, effect) = any.closes d i tt in (d', closed, effect.sync_stays)

  flushed-StaysInSync : (d : Daemon) (i : ℕ) → StaysInSync (flushed close d i) d
  unfolding flushed
  flushed-StaysInSync d i =
      let c = client_at d i in
      if-StaysInSync d (c.close_after_write && is_empty c.outgoing) (close_stays d i) (stays d)

  -- The loop of `FlushClient` ends or goes on.
  unless_flushed :
      (d : Daemon) (i : ℕ) {m : Option Daemon}
      → StaysInSync m d
      → StaysInSync (if is_flushed (client_at d i) then flushed close d i else m) d
  unless_flushed d i s = if-StaysInSync d (is_flushed (client_at d i)) (flushed-StaysInSync d i) s

  flush_client-StaysInSync :
      (d : Daemon) (i : ℕ) (sends : List Sent) → StaysInSync (flush_client close d i sends) d
  unfolding flush_client
  flush_client-StaysInSync d i [] = unless_flushed d i (stays d)
  flush_client-StaysInSync d i (Sent.would_block ∷ rest) = unless_flushed d i (stays d)
  flush_client-StaysInSync d i (Sent.interrupted ∷ rest) =
      unless_flushed d i (flush_client-StaysInSync d i rest)
  flush_client-StaysInSync d i (Sent.failed ∷ rest) = unless_flushed d i (close_stays d i)
  flush_client-StaysInSync d i (Sent.sent count ∷ rest) =
      let c = client_at d i in
      let c' = advanced c.outgoing c count in
      unless_flushed d i (
        if-StaysInSync d (count == 0) (close_stays d i) (
          let (d', done, keeps) = flush_client-StaysInSync (with_client d i c') i rest in
          (d', done, λ s. keeps ((Quiet-Effect (with_client-Quiet d i c')).sync_stays s))))

module _ {close : Close} (quiet : Closes Free Quiet close) (any : Closes Any Effect close)
    (now monotonic_us : ℕ) where
  serve_turn-StaysInSync :
      (d : Daemon) (i : ℕ) (turn : Turn)
      → StaysInSync (serve_turn close now monotonic_us d i turn) d
  unfolding serve_turn
  serve_turn-StaysInSync d i turn =
      let (d1, read, kept1) =
        if-StaysInSync d turn.is_readable
          (read_client-returns quiet any now monotonic_us 0 d i turn.received) (stays d) in
      let (d2, written, kept2) =
        if-StaysInSync d1 ((client_at d1 i).is_connected && turn.is_writable)
          (flush_client-StaysInSync any d1 i turn.sends) (stays d1) in
      let (d3, done, kept3) =
        if-StaysInSync d2 (not (client_at d2 i).hello_received && turn.accepted_long_ago)
          (close_stays any d2 i) (stays d2) in
      (d3, rw (read, written) done, λ s. kept3 (kept2 (kept1 s)))

  poll_client-StaysInSync :
      (d : Daemon) (i : ℕ) (turn : Turn)
      → StaysInSync (poll_client close now monotonic_us d i turn) d
  unfolding poll_client
  poll_client-StaysInSync d i turn =
      if-StaysInSync d turn.has_error (close_stays any d i) (serve_turn-StaysInSync d i turn)

fault_steps-BusInSync :
    (g : SafetyGate) (steps : List FaultStep) (b : Bus) (global : ℕ)
    → BusInSync g b
    → BusInSync g (fault_steps steps b global).0
fault_steps-BusInSync g steps b global h =
    let f = fault_steps-Faulting steps b global in ground (arith, h, f.epoch_stays, f.permits_less)

set_link_up-BusInSync :
    (g : SafetyGate) (b : Bus) (up : Bool) → BusInSync g b → BusInSync g (set_link_up b up)
unfolding set_link_up
set_link_up-BusInSync g b up h = ground (arith, h)

bus_faults-InSync :
    (d : Daemon) (k : ℕ) (steps : List FaultStep) → InSync d → InSync (bus_faults d k steps)
unfolding bus_faults
bus_faults-InSync d k steps h = elim (Option-cases (get_elem? d.buses k)) [
  | inl no_bus ↦ rw (no_bus, bus_faults) h
  | inr (b, is_bus) ↦
      rw (is_bus, bus_faults)
        (All-set (BusInSync d.safety) d.buses k (fault_steps steps b d.global_faulted_epoch).0 h (
          fault_steps-BusInSync d.safety steps b d.global_faulted_epoch
            (get_elem?-All (BusInSync d.safety) d.buses k h is_bus)))
]

link_changes-InSync : (d : Daemon) (k : ℕ) (up : Bool) → InSync d → InSync (link_changes d k up)
unfolding link_changes
link_changes-InSync d k up h = elim (Option-cases (get_elem? d.buses k)) [
  | inl no_bus ↦ rw (no_bus, link_changes) h
  | inr (b, is_bus) ↦
      rw (is_bus, link_changes)
        (All-set (BusInSync d.safety) d.buses k (set_link_up b up) h (
          set_link_up-BusInSync d.safety b up
            (get_elem?-All (BusInSync d.safety) d.buses k h is_bus)))
]

step-StaysInSync : (event : Event) (d : Daemon) → StaysInSync (step event d) d
unfolding step
step-StaysInSync (Event.client_turn now monotonic_us i turn) d =
    poll_client-StaysInSync (close_client-Quiet 1 now) (close_client-Effect 0 now) now monotonic_us
      d i turn
step-StaysInSync (Event.timeouts_checked now) d =
    let (d', done, effect) = handle_safety_timeouts-returns (close_client-Quiet 1 now) now d in
    (d', done, effect.sync_stays)
step-StaysInSync (Event.faults_checked now) d =
    let (d', done, effect) = handle_bus_faults-returns (close_client-Quiet 1 now) now d in
    (d', done, effect.sync_stays)
step-StaysInSync (Event.fault_raised k reason) d =
    (bus_faults d k (raise_fault reason), refl, bus_faults-InSync d k (raise_fault reason))
step-StaysInSync (Event.thread_moves k steps) d =
    (bus_faults d k steps, refl, bus_faults-InSync d k steps)
step-StaysInSync (Event.link_changed k up) d =
    (link_changes d k up, refl, link_changes-InSync d k up)

run-StaysInSync : (events : List Event) (d : Daemon) → StaysInSync (run events d) d
unfolding run
run-StaysInSync [] d = (d, refl, λ s. s)
run-StaysInSync (event ∷ rest) d =
    let (d1, done, kept) = step-StaysInSync event d in
    let (d2, done', kept') = run-StaysInSync rest d1 in (d2, rw done done', λ s. kept' (kept s))

-- The session handles every sequence of events to its end: two nested closes are enough.
pub run_total : (events : List Event) (d : Daemon) → (d' : Daemon) × (run events d ≡ some d')
run_total events d = let (d', done, kept) = run-StaysInSync events d in (d', done)

-- If every bus permits outputs only in the gate's epoch, while the gate has them enabled, then this
-- holds after every sequence of events, which the session handles to its end, whatever the threads of
-- the buses do between the steps of `SetSafety`.
pub run-InSync :
    (events : List Event) (d : Daemon)
    → InSync d
    → (d' : Daemon) × (run events d ≡ some d') × InSync d'
run-InSync events d h = let (d', done, kept) = run-StaysInSync events d in (d', done, kept h)

-- A client's frame is handled to its end. It changes the command queues of the buses only if it is an
-- output write that decodes, of the client that holds the gate, in the gate's epoch, with the outputs
-- enabled, for a bus that accepts the image; and then it only adds its command to that bus's queue.
pub handle_frame-queues :
    (now monotonic_us : ℕ) (d : Daemon) (i : ℕ) (frame : Frame)
    → (more : Bool) × (d' : Daemon) × (handle_frame
          (close_client close_fuel now)
          now
          monotonic_us
          d
          i
          frame
        ≡ some (more, d'))
      × ((queues d'.buses ≡ queues d.buses)
          ⊎ ((frame.type ≡ MessageType.output_write) × Queues monotonic_us d i frame d'))
handle_frame-queues now monotonic_us d i frame =
    let (more, d', done, h) =
      handle_frame-returns (close_client-Quiet 1 now) (close_client-Effect 0 now) now monotonic_us d
        i frame in
    (more, d', done, h.commands_are)

-- A client's frame is handled to its end. Outputs that were not enabled are enabled after it only if it
-- is an output-enable request to enable them, of the client that holds the gate, in the gate's epoch,
-- with all buses operational.
pub handle_frame_enables :
    (now monotonic_us : ℕ) (d : Daemon) (i : ℕ) (frame : Frame)
    → (more : Bool) × (d' : Daemon) × (handle_frame
          (close_client close_fuel now)
          now
          monotonic_us
          d
          i
          frame
        ≡ some (more, d'))
      × (EnablesNothing d.safety d'.safety
          ⊎ ((frame.type ≡ MessageType.output_enable) × EnablesBy d i frame d'))
handle_frame_enables now monotonic_us d i frame =
    let (more, d', done, h) =
      handle_frame-returns (close_client-Quiet 1 now) (close_client-Effect 0 now) now monotonic_us d
        i frame in
    (more, d', done, h.enables_by)
