-- ===== src/Daemon/Handlers/Writes.antt =====
-- `HandleOutputEnable` and `HandleOutputWrite`: that they return, and on what conditions the outputs
-- are enabled or a command is queued.
use ec_systemcore.Base.{
  ℕ, ◌≡◌, refl, ap, ◌∙◌, subst, ◌⊎◌, inl, inr, Bool, true, false, not, ◌&&◌, some, arith,
  Option-cases,
}
use ec_systemcore.Protocol.Enums.{DisableReason}
use ec_systemcore.Protocol.Frame.{Frame}
use ec_systemcore.Protocol.Payload.Control.{OutputEnablePayload, decode_output_enable_payload}
use ec_systemcore.Safety.Gate.{
  SafetyGate, Result, is_ok, held_by, set_output_enabled, drop_controller_and_advance_epoch,
}
use ec_systemcore.Daemon.State.{Daemon, client_at}
use ec_systemcore.Daemon.Outgoing.{Close, apply_safety_to_buses}
use ec_systemcore.Daemon.Outgoing.Effects.{
  Closes, Quiet, Effect, Free, Any, InSync, queues, with_client-Quiet, Quiet-trans,
  dropped-disabled, dropped, dropped-Free, apply_safety_to_buses-Free,
  broadcast_outputs_disabled-returns, queues-apply_safety_to_buses, apply_safety_to_buses-InSync,
}
use ec_systemcore.Daemon.Epochs.{all_buses_operational}
use ec_systemcore.Daemon.Handlers.{closing, enable_outputs, handle_output_enable}
use ec_systemcore.Daemon.Handlers.Answers.{applied-Served}
use ec_systemcore.Daemon.Handlers.Effects.{
  EnablesNothing, Served, Effect-Served, Served-trans, Quiet-Served, Returns, ack-returns,
  ack-Quiet, malformed_after,
}

-- The client holds the gate, in this epoch.
abbrev pub InControl : Daemon → ℕ → ℕ → Type 0
InControl d i epoch =
    (epoch ≡ d.safety.epoch) × (held_by d.safety.controller (client_at d i).id ≡ true)

-- The request, if any, on which the outputs were enabled.
abbrev pub EnablesBy : Daemon → ℕ → Frame → Daemon → Type 0
EnablesBy d i frame d' =
    EnablesNothing d.safety d'.safety
    ⊎ ((request : OutputEnablePayload) × (decode_output_enable_payload frame.payload ≡ some request)
        × (request.enabled ≡ true)
        × InControl d i request.epoch
        × (all_buses_operational d ≡ true))

pub record Switched (d : Daemon) (i : ℕ) (frame : Frame) (d' : Daemon) : Type 0 where
  pub commands_stay : queues d'.buses ≡ queues d.buses
  pub sync_stays : InSync d → InSync d'
  pub enables_by : EnablesBy d i frame d'

Served-Switched :
    {d : Daemon} {i : ℕ} {frame : Frame} {d' : Daemon} → Served d d' → Switched d i frame d'
Served-Switched s = record {
  commands_stay = s.commands_stay;
  sync_stays = s.sync_stays;
  enables_by = inl s.enables_nothing;
}

-- What the gate makes of a request.
abbrev Switch : SafetyGate → ℕ → ℕ → Bool → Bool → Result × SafetyGate → Type 0
Switch g id epoch enabled healthy r =
    ((r ≡ drop_controller_and_advance_epoch g) × (enabled ≡ false))
    ⊎ (((is_ok r.0.status && not enabled) ≡ false)
        × ((r.1.outputs_enabled ≡ g.outputs_enabled)
            ⊎ ((enabled ≡ true)
                × (epoch ≡ g.epoch)
                × (held_by g.controller id ≡ true)
                × (healthy ≡ true))))

set_output_enabled-Switch :
    (g : SafetyGate) (id epoch : ℕ) (enabled healthy : Bool) (now : ℕ)
    → Switch g id epoch enabled healthy (set_output_enabled g id epoch enabled healthy now)
unfolding set_output_enabled
set_output_enabled-Switch g id epoch enabled healthy now = ground arith

drop-ok : (g : SafetyGate) → is_ok (drop_controller_and_advance_epoch g).0.status ≡ true
unfolding drop_controller_and_advance_epoch
drop-ok g = refl

safety-apply : (d : Daemon) → (apply_safety_to_buses d).safety ≡ d.safety
unfolding apply_safety_to_buses
safety-apply d = refl

module _ {close : Close} (quiet : Closes Free Quiet close) (any : Closes Any Effect close)
    (now : ℕ) where
  switch_off-returns :
      (d : Daemon) (i : ℕ) (frame : Frame) (request : OutputEnablePayload)
      → set_output_enabled d.safety
          (client_at d i).id
          request.epoch
          request.enabled
          (all_buses_operational d)
          now
        ≡ drop_controller_and_advance_epoch d.safety
      → request.enabled ≡ false
      → Returns (enable_outputs close now d i frame request) (Served d)
  unfolding enable_outputs
  switch_off-returns d i frame request drops off =
      let x : Daemon = record d { safety = dropped d.safety } in
      let e = apply_safety_to_buses x in
      let free = apply_safety_to_buses-Free x (dropped-Free d.safety) in
      let status = (drop_controller_and_advance_epoch d.safety).0.status in
      let (b, d1, acked, q1) = ack-Quiet quiet any now e i frame status free in
      let (d2, told, q2) =
        broadcast_outputs_disabled-returns quiet now d1 DisableReason.requested 0xffff
          (ap (λ (g : SafetyGate). g.controller) q1.gate_stays ∙ free) in
      (
        b,
        closing d2 i,
        rw (drops, acked, off, drop-ok d.safety, told) refl,
        Served-trans (applied-Served d x refl (inl (dropped-disabled d.safety)))
            (Quiet-Served (Quiet-trans q1 (Quiet-trans q2 (with_client-Quiet d2 i _)))),
      )

  switch_on-returns :
      (d : Daemon) (i : ℕ) (frame : Frame) (request : OutputEnablePayload)
      → let r =
          set_output_enabled d.safety
            (client_at d i).id
            request.epoch
            request.enabled
            (all_buses_operational d)
            now in
        (is_ok r.0.status && not request.enabled) ≡ false
        → (r.1.outputs_enabled ≡ d.safety.outputs_enabled)
          ⊎ ((request.enabled ≡ true)
              × (request.epoch ≡ d.safety.epoch)
              × (held_by d.safety.controller (client_at d i).id ≡ true)
              × (all_buses_operational d ≡ true))
        → decode_output_enable_payload frame.payload ≡ some request
        → Returns (enable_outputs close now d i frame request) (Switched d i frame)
  unfolding enable_outputs
  switch_on-returns d i frame request on by good =
      let r =
        set_output_enabled d.safety (client_at d i).id request.epoch request.enabled
          (all_buses_operational d) now in
      let x : Daemon = record d { safety = r.1 } in
      let e = apply_safety_to_buses x in
      let (b, d1, acked, effect) = ack-returns quiet any now e i frame r.0.status in
      let after : EnablesNothing r.1 d1.safety =
        subst (λ g. EnablesNothing g d1.safety) (safety-apply x)
          (Effect-Served effect).enables_nothing in
      (
        b,
        d1,
        rw (acked, on) refl,
        record {
          commands_stay = effect.commands_stay ∙ queues-apply_safety_to_buses x;
          sync_stays = λ h. effect.sync_stays (apply_safety_to_buses-InSync x);
          enables_by = elim by [
            | inl same ↦ inl (ground (arith, same, after))
            | inr (wanted, epoch, held, healthy) ↦
                inr (request, good, wanted, (epoch, held), healthy)
          ];
        },
      )

  pub handle_output_enable-returns :
      (d : Daemon) (i : ℕ) (frame : Frame)
      → Returns (handle_output_enable close now d i frame) (Switched d i frame)
  unfolding handle_output_enable
  handle_output_enable-returns d i frame =
      elim (Option-cases (decode_output_enable_payload frame.payload)) [
        | inl bad ↦
            let (b, d1, done, s) = malformed_after quiet any now d i frame in
            (b, d1, rw (bad, handle_output_enable) done, Served-Switched s)
        | inr (request, good) ↦
            elim (set_output_enabled-Switch d.safety (client_at d i).id request.epoch
              request.enabled (all_buses_operational d) now) [
                | inl (drops, off) ↦
                    let (b, d1, done, s) = switch_off-returns d i frame request drops off in
                    (b, d1, rw (good, handle_output_enable) done, Served-Switched s)
                | inr (on, by) ↦
                    rw (good, handle_output_enable) (switch_on-returns d i frame request on by good)
              ]
      ]
