-- ===== src/Daemon/Outgoing.antt =====
-- What the session of daemon/src/main.cpp sends and closes: `QueueFrame`, `QueueAck`,
-- `BroadcastOutputsDisabled`, `CloseClient`. These call one another: a client whose queue is full is
-- closed, and closing the controller tells the others. `close_client` takes fuel for this; the other
-- functions take the closing function as an argument. `none` means that the fuel ran out. Memory does
-- not run out here.
pub mod Effects
use ec_systemcore.Base.{
  ℕ, zero, suc, ◌+◌, ◌-◌, ◌*◌, ◌/◌, ◌^◌, Bool, true, false, not, ◌&&◌, ◌||◌, List, [], ◌∷◌, ◌++◌,
  Option, none, some, ltb, leb, ◌==◌, if◌then◌else◌, length, is_empty, min, ◌>>=◌,
}
use mathlib.Core.List.{map}
use ec_systemcore.Protocol.Enums.{MessageType, AckStatus, DisableReason}
use ec_systemcore.Protocol.Frame.{encode_frame}
use ec_systemcore.Protocol.Payload.Ack.{encode_ack_payload}
use ec_systemcore.Protocol.Payload.Control.{encode_outputs_disabled_payload}
use ec_systemcore.Safety.Gate.{held_by, disconnect}
use ec_systemcore.Daemon.Bus.{Bus, set_safety, set_input_publication_period}
use ec_systemcore.Daemon.State.{
  Daemon, ClientConnection, client_at, with_client, fastest_period, maximum_client_output_bytes,
}

-- How a client is closed.
abbrev pub Close : Type 0
Close = Daemon → ℕ → Option Daemon

-- The loop of `ApplySafetyToBuses`, with globalFaultedEpoch_ as the threads leave it.
unfoldable pub set_safety_of_all : ℕ → Bool → List Bus → ℕ → List Bus × ℕ
set_safety_of_all epoch permitted [] global = ([], global)
set_safety_of_all epoch permitted (b ∷ rest) global =
    let (b', global') = set_safety epoch permitted b global in
    let (rest', global'') = set_safety_of_all epoch permitted rest global' in (b' ∷ rest', global'')

unfoldable pub apply_safety_to_buses : Daemon → Daemon
apply_safety_to_buses d =
    let (buses, global) =
      set_safety_of_all d.safety.epoch d.safety.outputs_enabled d.buses d.global_faulted_epoch in
    record d { buses = buses; global_faulted_epoch = global }

unfoldable pub update_input_publication_demand : Daemon → Daemon
update_input_publication_demand d = record d {
  buses = map (set_input_publication_period (fastest_period 0 d.clients)) d.buses;
}

-- A frame that may be dropped was dropped: too many of these, or for too long, close the client.
unfoldable pub drop_optional : Close → ℕ → Daemon → ℕ → Option (Bool × Daemon)
drop_optional close now d i =
    let c = client_at d i in
    let first = if c.optional_queue_drops == 0 then now else c.first_optional_drop in
    let drops = c.optional_queue_drops + 1 in
    let d' =
      with_client d i (record c { first_optional_drop = first; optional_queue_drops = drops }) in
    if leb 100 drops || leb (first + 5 * 10 ^ 9) now
    then (close d' i >>= λ d''. some (false, d''))
    else some (false, d')

-- The client with the frame in its queue.
pub enqueued : ClientConnection → List ℕ → Bool → ClientConnection
enqueued c frame required = record c {
  optional_queue_drops =
      if not required
        && not (c.optional_queue_drops == 0)
        && ltb c.outgoing_bytes (maximum_client_output_bytes / 4)
      then 0
      else c.optional_queue_drops;
  outgoing_bytes = c.outgoing_bytes + length frame;
  outgoing = c.outgoing ++ (frame ∷ []);
}

unfoldable pub queue_frame : Close → ℕ → Daemon → ℕ → List ℕ → Bool → Option (Bool × Daemon)
queue_frame close now d i frame required =
    let c = client_at d i in
    if not c.is_connected
      || is_empty frame
      || ltb (maximum_client_output_bytes - min c.outgoing_bytes maximum_client_output_bytes)
          (length frame)
    then if required then (close d i >>= λ d'. some (false, d')) else drop_optional close now d i
    else some (true, with_client d i (enqueued c frame required))

unfoldable pub queue_ack :
    Close → ℕ → Daemon → ℕ → MessageType → ℕ → AckStatus → ℕ → Bool → Option (Bool × Daemon)
queue_ack close now d i type request_id status detail required =
    queue_frame close now d i
      (encode_frame type request_id
        (encode_ack_payload (record { status = status; detail = detail })))
      required

-- The loop over the clients, by the rounds left and the place of the next.
unfoldable pub broadcast_from : Close → ℕ → List ℕ → ℕ → ℕ → Daemon → Option Daemon
broadcast_from close now frame zero i d = some d
broadcast_from close now frame (suc rounds) i d =
    let c = client_at d i in
    let told =
      if c.hello_received && c.is_connected
      then (queue_frame close now d i frame false >>= λ (_, d'). some d')
      else some d in
    told >>= broadcast_from close now frame rounds (i + 1)

unfoldable pub broadcast_outputs_disabled : Close → ℕ → Daemon → DisableReason → ℕ → Option Daemon
broadcast_outputs_disabled close now d reason bus_index =
    let frame = encode_frame MessageType.outputs_disabled 0 (
      encode_outputs_disabled_payload
        (record { reason = reason; bus_index = bus_index; epoch = d.safety.epoch })) in
    broadcast_from close now frame (length d.clients) 0 d

-- The client with its socket closed.
unfoldable pub disconnected : Daemon → ℕ → Daemon
unfolding update_input_publication_demand
disconnected d i = update_input_publication_demand (
    with_client d i
      (record (client_at d i) { is_connected = false; outgoing = []; outgoing_bytes = 0 }))

unfoldable pub close_client : ℕ → ℕ → Close
close_client zero now d i = none
close_client (suc fuel) now d i =
    let c = client_at d i in
    let d' = disconnected d i in
    let (result, gate) = disconnect d'.safety c.id in
    let released = apply_safety_to_buses (record d' { safety = gate }) in
    let told =
      broadcast_outputs_disabled (close_client fuel now) now released DisableReason.disconnect
        0xffff in
    if not c.is_connected
    then some d
    else if not (held_by d.safety.controller c.id)
    then some d'
    else if result.epoch_changed
    then told
    else some (record d' { safety = gate })
