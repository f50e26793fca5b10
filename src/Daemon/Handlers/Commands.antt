-- ===== src/Daemon/Handlers/Commands.antt =====
-- `HandleOutputWrite`: that it returns, and on what conditions it queues a command.
use ec_systemcore.Base.{
  ℕ, ◌≡◌, ◌⊎◌, inl, inr, true, ◌==◌, some, arith, All-set, get_elem?-All, Bool-cases, Option-cases,
  get_elem?, set,
}
use ec_systemcore.Protocol.Enums.{AckStatus}
use ec_systemcore.Protocol.Frame.{Frame}
use ec_systemcore.Protocol.Payload.OutputWrite.{OutputWritePayload, decode_output_write_payload}
use ec_systemcore.Safety.Gate.{SafetyGate, is_ok, held_by, authorize_write, record_output_write}
use ec_systemcore.Daemon.SpscQueue.{try_push}
use ec_systemcore.Daemon.Bus.{
  Bus, OutputCommand, validate_output, queue_output, maximum_output_commands,
}
use ec_systemcore.Daemon.State.{Daemon, client_at}
use ec_systemcore.Daemon.Outgoing.{Close}
use ec_systemcore.Daemon.Outgoing.Effects.{
  Closes, Quiet, Effect, Free, Any, InSync, BusInSync, queues,
}
use ec_systemcore.Daemon.Handlers.{ack, command_of, write_outputs, handle_output_write}
use ec_systemcore.Daemon.Handlers.Effects.{
  EnablesNothing-trans, InSync-gate, EnablesNothing, Served, Effect-Served, Returns, ack-returns,
  malformed_after,
}
use ec_systemcore.Daemon.Handlers.Writes.{InControl}

queue_output-BusInSync :
    (g : SafetyGate) (b : Bus) (command : OutputCommand) {b' : Bus}
    → queue_output b command ≡ some b'
    → BusInSync g b
    → BusInSync g b'
unfolding queue_output
queue_output-BusInSync g b command e h =
    elim (Option-cases (try_push maximum_output_commands b.output_commands command)) [
      | inl full ↦ absurd (ground (arith, full, e))
      | inr (queue, pushed) ↦ ground (arith, pushed, e, h)
    ]

-- The command that a frame's write is queued as, on the bus at the request's index.
abbrev pub Queues : ℕ → Daemon → ℕ → Frame → Daemon → Type 0
Queues monotonic_us d i frame d' =
    (request : OutputWritePayload) × (bus : Bus) × (bus' : Bus) × (decode_output_write_payload
        frame.payload
      ≡ some request)
    × InControl d i request.epoch
    × (d.safety.outputs_enabled ≡ true)
    × (get_elem? d.buses request.bus_index ≡ some bus)
    × (is_ok (validate_output bus request.sub_device_index request.offset request.bytes) ≡ true)
    × (queue_output bus (command_of request monotonic_us) ≡ some bus')
    × (queues d'.buses ≡ queues (set d.buses request.bus_index bus'))

pub record Wrote (monotonic_us : ℕ) (d : Daemon) (i : ℕ) (frame : Frame) (d' : Daemon)
    : Type 0 where
  pub commands_are : (queues d'.buses ≡ queues d.buses) ⊎ Queues monotonic_us d i frame d'
  pub sync_stays : InSync d → InSync d'
  pub enables_nothing : EnablesNothing d.safety d'.safety

Served-Wrote :
    {monotonic_us : ℕ} {d : Daemon} {i : ℕ} {frame : Frame} {d' : Daemon}
    → Served d d'
    → Wrote monotonic_us d i frame d'
Served-Wrote s = record {
  commands_are = inl s.commands_stay;
  sync_stays = s.sync_stays;
  enables_nothing = s.enables_nothing;
}

authorize_write-InControl :
    (g : SafetyGate) (id epoch : ℕ)
    → is_ok (authorize_write g id epoch).status ≡ true
    → (epoch ≡ g.epoch) × (held_by g.controller id ≡ true) × (g.outputs_enabled ≡ true)
unfolding authorize_write
authorize_write-InControl g id epoch good = ground arith

record_output_write-keeps :
    (g : SafetyGate) (id epoch now : ℕ)
    → ((record_output_write g id epoch now).1.epoch ≡ g.epoch)
      × ((record_output_write g id epoch now).1.outputs_enabled ≡ g.outputs_enabled)
unfolding record_output_write
record_output_write-keeps g id epoch now = ground arith

module _ {close : Close} (quiet : Closes Free Quiet close) (any : Closes Any Effect close)
    (now monotonic_us : ℕ) where
  answer :
      (d : Daemon) (i : ℕ) (frame : Frame) (status : AckStatus)
      → Returns (ack close now d i frame status) (Wrote monotonic_us d i frame)
  answer d i frame status =
      let (b, d1, acked, effect) = ack-returns quiet any now d i frame status in
      (b, d1, acked, Served-Wrote (Effect-Served effect))

  queue-returns :
      (d : Daemon) (i : ℕ) (frame : Frame) (request : OutputWritePayload) (bus bus' : Bus)
      → decode_output_write_payload frame.payload ≡ some request
      → is_ok (authorize_write d.safety (client_at d i).id request.epoch).status ≡ true
      → get_elem? d.buses request.bus_index ≡ some bus
      → is_ok (validate_output bus request.sub_device_index request.offset request.bytes) ≡ true
      → queue_output bus (command_of request monotonic_us) ≡ some bus'
      → let r = record_output_write d.safety (client_at d i).id request.epoch now in
        Returns
          (ack close now
            (record d { safety = r.1; buses = set d.buses request.bus_index bus' })
            i
            frame
            r.0.status)
          (Wrote monotonic_us d i frame)
  queue-returns d i frame request bus bus' good allowed is_bus valid queued =
      let r = record_output_write d.safety (client_at d i).id request.epoch now in
      let keeps = record_output_write-keeps d.safety (client_at d i).id request.epoch now in
      let (epoch, held, on) =
        authorize_write-InControl d.safety (client_at d i).id request.epoch allowed in
      let e : Daemon = record d { safety = r.1; buses = set d.buses request.bus_index bus' } in
      let (b, d1, acked, effect) = ack-returns quiet any now e i frame r.0.status in
      (
        b,
        d1,
        acked,
        record {
          commands_are = inr (
            request,
            bus,
            bus',
            good,
            (epoch, held),
            on,
            is_bus,
            valid,
            queued,
            effect.commands_stay,
          );
          sync_stays = λ h. effect.sync_stays (
              InSync-gate d.safety r.1 e.buses keeps.0 keeps.1 (
                All-set (BusInSync d.safety) d.buses request.bus_index bus' h (
                  queue_output-BusInSync d.safety bus (command_of request monotonic_us) queued
                    (get_elem?-All (BusInSync d.safety) d.buses request.bus_index h is_bus))));
          enables_nothing =
              EnablesNothing-trans d.safety r.1 d1.safety (inr on)
                (Effect-Served effect).enables_nothing;
        },
      )

  write_outputs-returns :
      (d : Daemon) (i : ℕ) (frame : Frame) (request : OutputWritePayload) (bus : Bus)
      → decode_output_write_payload frame.payload ≡ some request
      → is_ok (authorize_write d.safety (client_at d i).id request.epoch).status ≡ true
      → get_elem? d.buses request.bus_index ≡ some bus
      → Returns
          (write_outputs close now monotonic_us d i frame request bus)
          (Wrote monotonic_us d i frame)
  unfolding write_outputs
  write_outputs-returns d i frame request bus good allowed is_bus =
      let bounds = validate_output bus request.sub_device_index request.offset request.bytes in
      elim (Bool-cases (is_ok bounds)) [
        | inr bad ↦ rw (write_outputs, bad) (answer d i frame bounds)
        | inl valid ↦ elim (Bool-cases (monotonic_us == 0)) [
          | inl no_clock ↦
              rw (write_outputs, valid, no_clock) (answer d i frame AckStatus.internal_error)
          | inr clock ↦ elim (Option-cases (queue_output bus (command_of request monotonic_us))) [
            | inl full ↦
                rw (write_outputs, valid, clock, full) (answer d i frame AckStatus.queue_full)
            | inr (bus', queued) ↦
                rw (write_outputs, valid, clock, queued)
                  (queue-returns d i frame request bus bus' good allowed is_bus valid queued)
          ]
        ]
      ]

  pub handle_output_write-returns :
      (d : Daemon) (i : ℕ) (frame : Frame)
      → Returns
          (handle_output_write close now monotonic_us d i frame)
          (Wrote monotonic_us d i frame)
  unfolding handle_output_write
  handle_output_write-returns d i frame =
      elim (Option-cases (decode_output_write_payload frame.payload)) [
        | inl bad ↦
            let (b, d1, done, s) = malformed_after quiet any now d i frame in
            (b, d1, rw (bad, handle_output_write) done, Served-Wrote s)
        | inr (request, good) ↦
            let status = (authorize_write d.safety (client_at d i).id request.epoch).status in
            elim (Bool-cases (is_ok status)) [
              | inr refused ↦ rw (handle_output_write, good, refused) (answer d i frame status)
              | inl allowed ↦ elim (Option-cases (get_elem? d.buses request.bus_index)) [
                | inl no_bus ↦
                    rw (handle_output_write, good, allowed, no_bus)
                      (answer d i frame AckStatus.bad_target)
                | inr (bus, is_bus) ↦
                    rw (handle_output_write, good, allowed, is_bus)
                      (write_outputs-returns d i frame request bus good allowed is_bus)
              ]
            ]
      ]
