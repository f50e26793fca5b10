-- ===== src/Daemon/Handlers/Effects.antt =====
-- That the handlers return, and what all but `HandleOutputWrite` do to the gate and to the buses.
use ec_systemcore.Base.{
  ℕ, ◌≡◌, refl, sym, ◌∙◌, subst, ◌⊎◌, inl, inr, Bool, true, false, List, [], ◌∷◌, Option, some,
  arith, All, Bool-cases, Option-cases,
}
use ec_systemcore.Protocol.Enums.{MessageType, AckStatus}
use ec_systemcore.Protocol.Frame.{Frame}
use ec_systemcore.Protocol.Payload.Control.{decode_epoch_payload}
use ec_systemcore.Safety.Gate.{SafetyGate, heartbeat}
use ec_systemcore.Daemon.Bus.{Bus}
use ec_systemcore.Daemon.State.{Daemon, client_at}
use ec_systemcore.Daemon.Outgoing.{Close, queue_ack}
use ec_systemcore.Daemon.Outgoing.Effects.{
  Closes, Quiet, Effect, Free, Any, InSync, BusInSync, queues, queue_frame-returns, Quiet-Effect,
}
use ec_systemcore.Daemon.Handlers.{ack, malformed, handle_heartbeat}

-- The outputs are enabled afterwards only if they were before.
abbrev pub EnablesNothing : SafetyGate → SafetyGate → Type 0
EnablesNothing g g' = (g'.outputs_enabled ≡ false) ⊎ (g.outputs_enabled ≡ true)

-- The buses keep their commands and stay in step with the gate, and no outputs are enabled.
pub record Served (d d' : Daemon) : Type 0 where
  pub commands_stay : queues d'.buses ≡ queues d.buses
  pub sync_stays : InSync d → InSync d'
  pub enables_nothing : EnablesNothing d.safety d'.safety

pub EnablesNothing-refl : (g : SafetyGate) → EnablesNothing g g
EnablesNothing-refl g = elim (Bool-cases g.outputs_enabled) [ inl on ↦ inr on | inr off ↦ inl off ]

pub EnablesNothing-trans :
    (f g h : SafetyGate) → EnablesNothing f g → EnablesNothing g h → EnablesNothing f h
EnablesNothing-trans f g h p q = ground (arith, p, q)

pub Effect-Served : {d d' : Daemon} → Effect d d' → Served d d'
Effect-Served {d} {d'} e = record {
  commands_stay = e.commands_stay;
  sync_stays = e.sync_stays;
  enables_nothing = elim e.gate_is [
    | inl same ↦ subst (λ g. EnablesNothing d.safety g) (sym same) (EnablesNothing-refl d.safety)
    | inr (free, off) ↦ inl off
  ];
}

pub Served-trans : {c d e : Daemon} → Served c d → Served d e → Served c e
Served-trans {c} {d} {e} p q = record {
  commands_stay = q.commands_stay ∙ p.commands_stay;
  sync_stays = λ h. q.sync_stays (p.sync_stays h);
  enables_nothing =
      EnablesNothing-trans c.safety d.safety e.safety p.enables_nothing q.enables_nothing;
}

pub Quiet-Served : {d d' : Daemon} → Quiet d d' → Served d d'
Quiet-Served q = Effect-Served (Quiet-Effect q)

-- A gate that differs in neither its epoch nor its permission.
pub InSync-gate :
    (g g' : SafetyGate) (bs : List Bus)
    → g'.epoch ≡ g.epoch
    → g'.outputs_enabled ≡ g.outputs_enabled
    → All (BusInSync g) bs
    → All (BusInSync g') bs
InSync-gate g g' [] e o h = tt
InSync-gate g g' (b ∷ bs) e o h = (ground (arith, h.0), InSync-gate g g' bs e o h.1)

pub with_gate-Served :
    (d : Daemon) (g : SafetyGate)
    → g.epoch ≡ d.safety.epoch
    → g.outputs_enabled ≡ d.safety.outputs_enabled
    → Served d (record d { safety = g })
with_gate-Served d g e o = record {
  commands_stay = refl;
  sync_stays = λ h. InSync-gate d.safety g d.buses e o h;
  enables_nothing = ground arith;
}

-- What a step that returns a flag does.
abbrev pub Returns : Option (Bool × Daemon) → (Daemon → Type 0) → Type 0
Returns m P = (b : Bool) × (d' : Daemon) × (m ≡ some (b, d')) × P d'

module _ {close : Close} (quiet : Closes Free Quiet close) (any : Closes Any Effect close)
    (now : ℕ) where
  pub queue_ack-returns :
      (d : Daemon) (i : ℕ) (type : MessageType) (request_id : ℕ) (status : AckStatus) (detail : ℕ)
      → Returns (queue_ack close now d i type request_id status detail true) (Effect d)
  unfolding queue_ack
  queue_ack-returns d i type request_id status detail = queue_frame-returns any now d i _ true tt

  pub ack-returns :
      (d : Daemon) (i : ℕ) (frame : Frame) (status : AckStatus)
      → Returns (ack close now d i frame status) (Effect d)
  unfolding ack
  ack-returns d i frame status = queue_ack-returns d i MessageType.ack frame.request_id status 0

  pub ack-Quiet :
      (d : Daemon) (i : ℕ) (frame : Frame) (status : AckStatus)
      → Free d.safety
      → Returns (ack close now d i frame status) (Quiet d)
  unfolding ack queue_ack
  ack-Quiet d i frame status p = queue_frame-returns quiet now d i _ true p

  pub malformed-returns :
      (d : Daemon) (i : ℕ) (frame : Frame) → Returns (malformed close now d i frame) (Effect d)
  unfolding malformed
  malformed-returns d i frame =
      queue_ack-returns d i MessageType.error frame.request_id AckStatus.malformed 0

  -- A step, then an acknowledgement.
  pub ack_after :
      (d e : Daemon) (i : ℕ) (frame : Frame) (status : AckStatus)
      → Served d e
      → Returns (ack close now e i frame status) (Served d)
  ack_after d e i frame status s =
      let (b, d', done, effect) = ack-returns e i frame status in
      (b, d', done, Served-trans s (Effect-Served effect))

  pub malformed_after :
      (d : Daemon) (i : ℕ) (frame : Frame) → Returns (malformed close now d i frame) (Served d)
  malformed_after d i frame =
      let (b, d', done, effect) = malformed-returns d i frame in (b, d', done, Effect-Served effect)

  heartbeat-keeps :
      (g : SafetyGate) (id epoch : ℕ)
      → ((heartbeat g id epoch now).1.epoch ≡ g.epoch)
        × ((heartbeat g id epoch now).1.outputs_enabled ≡ g.outputs_enabled)
  unfolding heartbeat
  heartbeat-keeps g id epoch = ground arith

  pub handle_heartbeat-returns :
      (d : Daemon) (i : ℕ) (frame : Frame)
      → Returns (handle_heartbeat close now d i frame) (Served d)
  unfolding handle_heartbeat
  handle_heartbeat-returns d i frame = elim (Option-cases (decode_epoch_payload frame.payload)) [
    | inl bad ↦ rw (bad, handle_heartbeat) (malformed_after d i frame)
    | inr (epoch, good) ↦
        let id = (client_at d i).id in
        let keeps = heartbeat-keeps d.safety id epoch in
        let (result, gate) = heartbeat d.safety id epoch now in
        rw (good, handle_heartbeat)
          (ack_after d (record d { safety = gate }) i frame result.status
            (with_gate-Served d gate keeps.0 keeps.1))
  ]
