-- ===== src/Daemon/Handlers/Answers.antt =====
-- The handlers that queue no command and enable no outputs.
use ec_systemcore.Base.{
  ℕ, ◌≡◌, refl, sym, ap, ◌∙◌, subst, inl, inr, Bool, true, false, ◌&&◌, List, [], ◌∷◌, some, arith,
  is_empty, ◌>>=◌, All, Bool-cases, Option-cases, get_elem?, set,
}
use mathlib.Core.List.{map}
use ec_systemcore.Protocol.Enums.{AckStatus, ClientRole, DisableReason}
use ec_systemcore.Protocol.Frame.{Frame}
use ec_systemcore.Protocol.Payload.Hello.{HelloPayload, decode_hello_payload}
use ec_systemcore.Protocol.Payload.Control.{
  decode_epoch_payload, decode_subscribe_inputs_payload, decode_adapter_unlock_payload,
}
use ec_systemcore.Safety.Gate.{SafetyGate, is_ok, acquire, authorize_controller, release}
use ec_systemcore.Daemon.Bus.{Bus, reset_counters}
use ec_systemcore.Daemon.State.{Daemon, client_at, controller_authorized}
use ec_systemcore.Daemon.Outgoing.{Close, apply_safety_to_buses, broadcast_outputs_disabled}
use ec_systemcore.Daemon.Outgoing.Effects.{
  Closes, Quiet, Effect, Free, Any, BusInSync, queues, queue_frame-returns, Quiet-refl, Quiet-trans,
  with_client-Quiet, update_input_publication_demand-Quiet, queues-apply_safety_to_buses,
  apply_safety_to_buses-InSync, broadcast_outputs_disabled-returns,
}
use ec_systemcore.Daemon.Epochs.Effects.{advance_epoch-returns}
use ec_systemcore.Daemon.Handlers.{
  close_and_stop, grant_role, greeted, greet, subscribed, handle_hello, handle_clear_counters,
  handle_subscribe_inputs, handle_adapter_rescan, unlock_adapter, handle_adapter_unlock,
}
use ec_systemcore.Safety.Gate.{drop_controller_and_advance_epoch}
use ec_systemcore.Daemon.Outgoing.Effects.{
  dropped, dropped-Free, told-Effect, drop-epoch_changed, apply_safety_to_buses-Free,
}
use ec_systemcore.Daemon.Epochs.Effects.{DropsOrKeeps}
use ec_systemcore.Daemon.Handlers.{is_controller, handle_release, closing}
use ec_systemcore.Daemon.Handlers.Effects.{
  EnablesNothing, Served, Effect-Served, Served-trans, Quiet-Served, Returns, ack-returns,
  ack-Quiet, ack_after, malformed_after,
}

pub applied-Served :
    (d e : Daemon)
    → queues e.buses ≡ queues d.buses
    → EnablesNothing d.safety e.safety
    → Served d (apply_safety_to_buses e)
applied-Served d e commands off = record {
  commands_stay = queues-apply_safety_to_buses e ∙ commands;
  sync_stays = λ h. apply_safety_to_buses-InSync e;
  enables_nothing = unfold apply_safety_to_buses in off;
}

acquire-refused :
    (g : SafetyGate) (id pid now : ℕ)
    → is_ok (acquire g id pid now).0.status ≡ false
    → (acquire g id pid now).1 ≡ g
unfolding acquire
acquire-refused g id pid now bad = ground arith

acquire-granted :
    (g : SafetyGate) (id pid now : ℕ)
    → is_ok (acquire g id pid now).0.status ≡ true
    → (acquire g id pid now).1.outputs_enabled ≡ false
unfolding acquire
acquire-granted g id pid now good = ground arith

grant_role-Served :
    (now : ℕ) (d : Daemon) (i : ℕ) (hello : HelloPayload) → Served d (grant_role now d i hello).1
unfolding grant_role
grant_role-Served now d i hello =
    let c = client_at d i in
    elim (Bool-cases (is_controller hello.role && controller_authorized d.configuration c)) [
      | inr plain ↦ rw plain (Quiet-Served (Quiet-refl d))
      | inl wants ↦ elim (Bool-cases (is_ok (acquire d.safety c.id c.pid now).0.status)) [
        | inr refused ↦
            rw (wants, refused, acquire-refused d.safety c.id c.pid now refused)
              (Quiet-Served (Quiet-refl d))
        | inl granted ↦
            rw (wants, granted)
              (applied-Served d _ refl (inl (acquire-granted d.safety c.id c.pid now granted)))
      ]
    ]

greeted-Served :
    (granted : ClientRole) (hello : HelloPayload) (d : Daemon) (i : ℕ)
    → Served d (greeted granted hello d i)
unfolding greeted
greeted-Served granted hello d i =
    Quiet-Served (Quiet-trans (with_client-Quiet d i _) (update_input_publication_demand-Quiet _))

subscribed-Served :
    (enabled : Bool) (period_ms : ℕ) (d : Daemon) (i : ℕ)
    → Served d (subscribed enabled period_ms d i)
unfolding subscribed
subscribed-Served enabled period_ms d i =
    Quiet-Served (Quiet-trans (with_client-Quiet d i _) (update_input_publication_demand-Quiet _))

release-DropsOrKeeps : (g : SafetyGate) (id epoch : ℕ) → DropsOrKeeps g (release g id epoch)
unfolding release
release-DropsOrKeeps g id epoch = ground arith

queues-reset_counters : (bs : List Bus) → queues (map reset_counters bs) ≡ queues bs
unfolding reset_counters
queues-reset_counters [] = refl
queues-reset_counters (b ∷ bs) = ap (λ q. b.output_commands ∷ q) (queues-reset_counters bs)

InSync-reset_counters :
    (g : SafetyGate) (bs : List Bus)
    → All (BusInSync g) bs
    → All (BusInSync g) (map reset_counters bs)
unfolding reset_counters
InSync-reset_counters g [] h = tt
InSync-reset_counters g (b ∷ bs) h = (h.0, InSync-reset_counters g bs h.1)

reset_counters-Quiet : (d : Daemon) → Quiet d (record d { buses = map reset_counters d.buses })
reset_counters-Quiet d = record {
  gate_stays = refl;
  commands_stay = queues-reset_counters d.buses;
  permissions_stay = λ g h. InSync-reset_counters g d.buses h;
}

-- A change of neither the gate nor the buses.
untouched-Quiet : (d e : Daemon) → e.safety ≡ d.safety → e.buses ≡ d.buses → Quiet d e
untouched-Quiet d e gate buses = record {
  gate_stays = gate;
  commands_stay = ap queues buses;
  permissions_stay = λ g h. subst (λ bs. All (BusInSync g) bs) (sym buses) h;
}

module _ {close : Close} (quiet : Closes Free Quiet close) (any : Closes Any Effect close)
    (now : ℕ) where
  pub close_and_stop-returns : (d : Daemon) (i : ℕ) → Returns (close_and_stop close d i) (Served d)
  close_and_stop-returns d i =
      let (d', closed, effect) = any.closes d i tt in
      (false, d', rw (closed, close_and_stop) refl, Effect-Served effect)

  greet-returns :
      (d : Daemon) (i : ℕ) (frame : Frame) (hello : HelloPayload)
      → Returns (greet close now d i frame hello) (Served d)
  unfolding greet
  greet-returns d i frame hello =
      let granted = grant_role now d i hello in
      let s1 = grant_role-Served now d i hello in
      let s2 = greeted-Served granted.0 hello granted.1 i in
      let (b, d', done, effect) =
        queue_frame-returns any now (greeted granted.0 hello granted.1 i) i _ true tt in
      (b, d', done, Served-trans s1 (Served-trans s2 (Effect-Served effect)))

  pub handle_hello-returns :
      (d : Daemon) (i : ℕ) (frame : Frame) → Returns (handle_hello close now d i frame) (Served d)
  unfolding handle_hello
  handle_hello-returns d i frame = elim (Option-cases (decode_hello_payload frame.payload)) [
    | inl bad ↦ rw (handle_hello, bad) (close_and_stop-returns d i)
    | inr (hello, good) ↦ rw (handle_hello, good) (greet-returns d i frame hello)
  ]

  pub handle_clear_counters-returns :
      (d : Daemon) (i : ℕ) (frame : Frame)
      → Returns (handle_clear_counters close now d i frame) (Served d)
  unfolding handle_clear_counters
  handle_clear_counters-returns d i frame = elim (Bool-cases (is_empty frame.payload)) [
    | inl empty ↦
        rw empty
          (ack_after quiet any now d _ i frame AckStatus.ok (Quiet-Served (reset_counters-Quiet d)))
    | inr full ↦ rw full (malformed_after quiet any now d i frame)
  ]

  pub handle_subscribe_inputs-returns :
      (d : Daemon) (i : ℕ) (frame : Frame)
      → Returns (handle_subscribe_inputs close now d i frame) (Served d)
  unfolding handle_subscribe_inputs
  handle_subscribe_inputs-returns d i frame =
      elim (Option-cases (decode_subscribe_inputs_payload frame.payload)) [
        | inl bad ↦ rw (handle_subscribe_inputs, bad) (malformed_after quiet any now d i frame)
        | inr (request, good) ↦
            rw (handle_subscribe_inputs, good)
              (ack_after quiet any now d _ i frame AckStatus.ok
                (subscribed-Served request.enabled request.period_ms d i))
      ]

  pub handle_adapter_rescan-returns :
      (d : Daemon) (i : ℕ) (frame : Frame)
      → Returns (handle_adapter_rescan close now d i frame) (Served d)
  unfolding handle_adapter_rescan
  handle_adapter_rescan-returns d i frame = elim (Bool-cases (is_empty frame.payload)) [
    | inl empty ↦ rw empty (
        ack_after quiet any now d _ i frame AckStatus.ok
          (Quiet-Served (untouched-Quiet d _ (ground arith) (ground arith))))
    | inr full ↦ rw full (malformed_after quiet any now d i frame)
  ]

  unlock_adapter-returns :
      (d : Daemon) (i : ℕ) (frame : Frame) (bus_index : ℕ)
      → Returns (unlock_adapter close now d i frame bus_index) (Served d)
  unfolding unlock_adapter
  unlock_adapter-returns d i frame bus_index =
      elim (Option-cases (get_elem? d.adapters bus_index)) [
        | inl missing ↦
            rw (unlock_adapter, missing)
              (ack_after quiet any now d d i frame AckStatus.bad_target
                (Quiet-Served (Quiet-refl d)))
        | inr (a, found) ↦
            let e : Daemon = record d {
              adapters = set d.adapters bus_index (record a { runtime_unlocked = true });
            } in
            let (b, d1, acked, s1) =
              ack_after quiet any now d e i frame AckStatus.ok
                (Quiet-Served (untouched-Quiet d e refl refl)) in
            let (d2, ended, effect) =
              advance_epoch-returns quiet now d1 DisableReason.adapter_mismatch bus_index in
            (
              b,
              record d2 { force_adapter_scan = true },
              rw (unlock_adapter, found, acked, ended) refl,
              Served-trans s1 (
                  Served-trans (Effect-Served effect)
                    (Quiet-Served (untouched-Quiet d2 _ refl refl))),
            )
      ]

  pub handle_adapter_unlock-returns :
      (d : Daemon) (i : ℕ) (frame : Frame)
      → Returns (handle_adapter_unlock close now d i frame) (Served d)
  unfolding handle_adapter_unlock
  handle_adapter_unlock-returns d i frame =
      elim (Option-cases (decode_adapter_unlock_payload frame.payload)) [
        | inl bad ↦ rw (handle_adapter_unlock, bad) (malformed_after quiet any now d i frame)
        | inr (request, good) ↦
            let status = (authorize_controller d.safety (client_at d i).id request.epoch).status in
            elim (Bool-cases (is_ok status)) [
              | inl allowed ↦
                  rw (handle_adapter_unlock, good, allowed)
                    (unlock_adapter-returns d i frame request.bus_index)
              | inr refused ↦
                  rw (handle_adapter_unlock, good, refused)
                    (ack_after quiet any now d d i frame status (Quiet-Served (Quiet-refl d)))
            ]
      ]

  -- After the controller's request the buses and the clients are told, and the client is closed.
  pub told_requested :
      (d d1 : Daemon) (i : ℕ) (b : Bool)
      → d1.safety ≡ dropped d.safety
      → queues d1.buses ≡ queues d.buses
      → Returns
          (broadcast_outputs_disabled close now
              (apply_safety_to_buses d1)
              DisableReason.requested
              0xffff
            >>= λ d2. some (b, closing d2 i))
          (Served d)
  told_requested d d1 i b gate commands =
      let free : Free d1.safety = subst Free (sym gate) (dropped-Free d.safety) in
      let (d2, told, q) =
        broadcast_outputs_disabled-returns quiet now (apply_safety_to_buses d1)
          DisableReason.requested 0xffff (apply_safety_to_buses-Free d1 free) in
      (
        b,
        closing d2 i,
        rw told refl,
        Effect-Served (told-Effect d d1 _ gate commands (Quiet-trans q (with_client-Quiet d2 i _))),
      )

  release-returns :
      (d : Daemon) (i : ℕ) (frame : Frame) (epoch : ℕ)
      → decode_epoch_payload frame.payload ≡ some epoch
      → Returns (handle_release close now d i frame) (Served d)
  unfolding handle_release
  release-returns d i frame epoch good =
      let id = (client_at d i).id in
      elim (release-DropsOrKeeps d.safety id epoch) [
        | inl drops ↦
            let e : Daemon = record d { safety = dropped d.safety } in
            let status = (drop_controller_and_advance_epoch d.safety).0.status in
            let (b, d1, acked, q) =
              ack-Quiet quiet any now e i frame status (dropped-Free d.safety) in
            rw (handle_release, good, drops, acked, drop-epoch_changed d.safety)
              (told_requested d d1 i b q.gate_stays q.commands_stay)
        | inr (unchanged, same) ↦
            let (b, d1, acked, effect) =
              ack-returns quiet any now d i frame (release d.safety id epoch).0.status in
            (b, d1, rw (handle_release, good, same, acked, unchanged) refl, Effect-Served effect)
      ]

  pub handle_release-returns :
      (d : Daemon) (i : ℕ) (frame : Frame) → Returns (handle_release close now d i frame) (Served d)
  unfolding handle_release
  handle_release-returns d i frame = elim (Option-cases (decode_epoch_payload frame.payload)) [
    | inl bad ↦ rw (bad, handle_release) (malformed_after quiet any now d i frame)
    | inr (epoch, good) ↦ release-returns d i frame epoch good
  ]
