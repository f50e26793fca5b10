-- ===== src/Daemon/Outgoing/Effects.antt =====
-- What `QueueFrame`, `BroadcastOutputsDisabled` and `CloseClient` may do to the gate and to the buses,
-- and that they return.
use ec_systemcore.Base.{
  ℕ, zero, suc, ◌+◌, ◌-◌, ◌*◌, ◌^◌, ◌≡◌, refl, sym, ap, ap₂, ◌∙◌, subst, ◌⊎◌, inl, inr, Bool, true,
  false, not, ◌&&◌, ◌||◌, List, [], ◌∷◌, none, some, arith, ltb, leb, ◌==◌, if◌then◌else◌, length,
  is_empty, min, All, Bool-cases,
}
use mathlib.Core.List.{map}
use ec_systemcore.Protocol.Enums.{DisableReason}
use ec_systemcore.Safety.Gate.{SafetyGate, held_by, disconnect, drop_controller_and_advance_epoch}
use ec_systemcore.Daemon.SpscQueue.{SpscQueue}
use ec_systemcore.Daemon.Bus.{Bus, OutputCommand, set_safety, set_input_publication_period}
use ec_systemcore.Daemon.Bus.Steps.{set_safety-Told}
use ec_systemcore.Daemon.State.{
  Daemon, ClientConnection, client_at, with_client, fastest_period, maximum_client_output_bytes,
}
use ec_systemcore.Daemon.Outgoing.{
  Close, set_safety_of_all, apply_safety_to_buses, update_input_publication_demand, drop_optional,
  queue_frame, enqueued, broadcast_from, broadcast_outputs_disabled, disconnected, close_client,
}

-- A bus permits outputs only in the gate's epoch, while the gate has them enabled.
abbrev pub BusInSync : SafetyGate → Bus → Type 0
BusInSync g b =
    (b.outputs_permitted ≡ false) ⊎ ((b.safety_epoch ≡ g.epoch) × (g.outputs_enabled ≡ true))

abbrev pub InSync : Daemon → Type 0
InSync d = All (BusInSync d.safety) d.buses

-- The command queues of the buses.
abbrev pub queues : List Bus → List (SpscQueue OutputCommand)
queues bs = map (λ b. b.output_commands) bs

queues-map_period :
    (period : ℕ) (bs : List Bus) → queues (map (set_input_publication_period period) bs) ≡ queues bs
unfolding set_input_publication_period
queues-map_period period [] = refl
queues-map_period period (b ∷ bs) = ap (λ q. b.output_commands ∷ q) (queues-map_period period bs)

InSync-map_period :
    (g : SafetyGate) (period : ℕ) (bs : List Bus)
    → All (BusInSync g) bs
    → All (BusInSync g) (map (set_input_publication_period period) bs)
unfolding set_input_publication_period
InSync-map_period g period [] h = tt
InSync-map_period g period (b ∷ bs) h = (h.0, InSync-map_period g period bs h.1)

queues-set_safety :
    (epoch : ℕ) (permitted : Bool) (bs : List Bus) (global : ℕ)
    → queues (set_safety_of_all epoch permitted bs global).0 ≡ queues bs
unfolding set_safety_of_all
queues-set_safety epoch permitted [] global = refl
queues-set_safety epoch permitted (b ∷ bs) global =
    let told = set_safety epoch permitted b global in
    ap₂ ◌∷◌ (set_safety-Told epoch permitted b global).commands_stay
      (queues-set_safety epoch permitted bs told.1)

set_safety-BusInSync :
    (g : SafetyGate) (b : Bus) (global : ℕ)
    → BusInSync g (set_safety g.epoch g.outputs_enabled b global).0
set_safety-BusInSync g b global =
    let told = set_safety-Told g.epoch g.outputs_enabled b global in
    ground (arith, told.epoch_is, told.permitted_if)

InSync-set_safety :
    (g : SafetyGate) (bs : List Bus) (global : ℕ)
    → All (BusInSync g) (set_safety_of_all g.epoch g.outputs_enabled bs global).0
unfolding set_safety_of_all
InSync-set_safety g [] global = tt
InSync-set_safety g (b ∷ bs) global = (
  set_safety-BusInSync g b global,
  InSync-set_safety g bs (set_safety g.epoch g.outputs_enabled b global).1,
)

-- The gate stays, and the buses keep their commands and what they permit.
pub record Quiet (d d' : Daemon) : Type 0 where
  pub gate_stays : d'.safety ≡ d.safety
  pub commands_stay : queues d'.buses ≡ queues d.buses
  pub permissions_stay : (g : SafetyGate) → All (BusInSync g) d.buses → All (BusInSync g) d'.buses

abbrev pub dropped : SafetyGate → SafetyGate
dropped g = (drop_controller_and_advance_epoch g).1

abbrev pub KeepsOrDrops : SafetyGate → SafetyGate → Type 0
KeepsOrDrops g g' = (g' ≡ g) ⊎ ((g'.controller ≡ none) × (g'.outputs_enabled ≡ false))

-- The gate stays or drops its controller, the buses keep their commands, and stay in step.
pub record Effect (d d' : Daemon) : Type 0 where
  pub gate_is : KeepsOrDrops d.safety d'.safety
  pub commands_stay : queues d'.buses ≡ queues d.buses
  pub sync_stays : InSync d → InSync d'

pub Quiet-Effect : {d d' : Daemon} → Quiet d d' → Effect d d'
Quiet-Effect {d} {d'} q = record {
  gate_is = inl q.gate_stays;
  commands_stay = q.commands_stay;
  sync_stays = λ h.
      subst (λ g. All (BusInSync g) d'.buses) (sym q.gate_stays) (q.permissions_stay d.safety h);
}

pub Quiet-refl : (d : Daemon) → Quiet d d
Quiet-refl d = record { gate_stays = refl; commands_stay = refl; permissions_stay = λ g h. h }

pub Quiet-trans : {c d e : Daemon} → Quiet c d → Quiet d e → Quiet c e
Quiet-trans p q = record {
  gate_stays = q.gate_stays ∙ p.gate_stays;
  commands_stay = q.commands_stay ∙ p.commands_stay;
  permissions_stay = λ g h. q.permissions_stay g (p.permissions_stay g h);
}

pub with_client-Quiet : (d : Daemon) (i : ℕ) (c : ClientConnection) → Quiet d (with_client d i c)
with_client-Quiet d i c = record {
  gate_stays = refl;
  commands_stay = refl;
  permissions_stay = λ g h. h;
}

pub update_input_publication_demand-Quiet :
    (d : Daemon) → Quiet d (update_input_publication_demand d)
unfolding update_input_publication_demand
update_input_publication_demand-Quiet d =
    let period = fastest_period 0 d.clients in
    record {
      gate_stays = refl;
      commands_stay = queues-map_period period d.buses;
      permissions_stay = λ g h. InSync-map_period g period d.buses h;
    }

disconnected-Quiet : (d : Daemon) (i : ℕ) → Quiet d (disconnected d i)
unfolding disconnected
disconnected-Quiet d i =
    Quiet-trans (with_client-Quiet d i _) (update_input_publication_demand-Quiet _)

-- What closing a client may do, where the gate satisfies `P`.
pub record Closes (P : SafetyGate → Type 0) (R : Daemon → Daemon → Type 0) (close : Close)
    : Type 0 where
  pub closes : (d : Daemon) (i : ℕ) → P d.safety → (d' : Daemon) × (close d i ≡ some d') × R d d'
  pub from_quiet : (d d' : Daemon) → Quiet d d' → R d d'
  pub after_quiet : (c d e : Daemon) → Quiet c d → R d e → R c e

module _ {P : SafetyGate → Type 0} {R : Daemon → Daemon → Type 0} {close : Close}
    (can : Closes P R close) where
  drop_optional-returns :
      (now : ℕ) (d : Daemon) (i : ℕ)
      → P d.safety
      → (b : Bool) × (d' : Daemon) × (drop_optional close now d i ≡ some (b, d')) × R d d'
  unfolding drop_optional
  drop_optional-returns now d i p =
      let c = client_at d i in
      let first = if c.optional_queue_drops == 0 then now else c.first_optional_drop in
      let drops = c.optional_queue_drops + 1 in
      let d1 =
        with_client d i (record c { first_optional_drop = first; optional_queue_drops = drops }) in
      let quiet : Quiet d d1 = with_client-Quiet d i _ in
      elim (Bool-cases (leb 100 drops || leb (first + 5 * 10 ^ 9) now)) [
        | inl full ↦
            let (d2, closed, r) = can.closes d1 i p in
            (false, d2, rw (full, closed) refl, can.after_quiet d d1 d2 quiet r)
        | inr fine ↦ (false, d1, rw fine refl, can.from_quiet d d1 quiet)
      ]

  pub queue_frame-returns :
      (now : ℕ) (d : Daemon) (i : ℕ) (frame : List ℕ) (required : Bool)
      → P d.safety
      → (b : Bool) × (d' : Daemon) × (queue_frame close now d i frame required ≡ some (b, d'))
        × R d d'
  unfolding queue_frame
  queue_frame-returns now d i frame required p =
      let c = client_at d i in
      elim (Bool-cases (
        not c.is_connected
        || is_empty frame
        || ltb (maximum_client_output_bytes - min c.outgoing_bytes maximum_client_output_bytes)
            (length frame))) [
              | inl refused ↦ elim (Bool-cases required) [
                | inl must ↦
                    let (d1, closed, r) = can.closes d i p in
                    (false, d1, rw (refused, must, closed) refl, r)
                | inr may ↦
                    let (b, d1, done, r) = drop_optional-returns now d i p in
                    (b, d1, rw (refused, may) done, r)
              ]
              | inr fits ↦
                  let d1 = with_client d i (enqueued c frame required) in
                  (true, d1, rw fits refl, can.from_quiet d d1 (with_client-Quiet d i _))
            ]

-- Without a controller.
abbrev pub Free : SafetyGate → Type 0
Free g = g.controller ≡ none

Free-Quiet : {d d' : Daemon} → Quiet d d' → Free d.safety → Free d'.safety
Free-Quiet q p = ap (λ (g : SafetyGate). g.controller) q.gate_stays ∙ p

module _ {close : Close} (can : Closes Free Quiet close) where
  broadcast_from-returns :
      (now : ℕ) (frame : List ℕ) (rounds i : ℕ) (d : Daemon)
      → Free d.safety
      → (d' : Daemon) × (broadcast_from close now frame rounds i d ≡ some d') × Quiet d d'
  unfolding broadcast_from
  broadcast_from-returns now frame zero i d p = (d, refl, Quiet-refl d)
  broadcast_from-returns now frame (suc rounds) i d p =
      let c = client_at d i in
      elim (Bool-cases (c.hello_received && c.is_connected)) [
        | inl listens ↦
            let (b, d1, queued, q) = queue_frame-returns can now d i frame false p in
            let (d2, done, q') =
              broadcast_from-returns now frame rounds (i + 1) d1 (Free-Quiet q p) in
            (d2, rw (listens, queued) done, Quiet-trans q q')
        | inr not_listens ↦
            let (d2, done, q') = broadcast_from-returns now frame rounds (i + 1) d p in
            (d2, rw not_listens done, q')
      ]

  pub broadcast_outputs_disabled-returns :
      (now : ℕ) (d : Daemon) (reason : DisableReason) (bus_index : ℕ)
      → Free d.safety
      → (d' : Daemon) × (broadcast_outputs_disabled close now d reason bus_index ≡ some d')
        × Quiet d d'
  unfolding broadcast_outputs_disabled
  broadcast_outputs_disabled-returns now d reason bus_index p =
      broadcast_from-returns now _ (length d.clients) 0 d p

held_by-none : (g : SafetyGate) (id : ℕ) → Free g → held_by g.controller id ≡ false
held_by-none g id p = rw p

-- Without a controller, closing a client calls no other close.
pub close_client-Quiet : (fuel now : ℕ) → Closes Free Quiet (close_client (suc fuel) now)
unfolding close_client
close_client-Quiet fuel now = record {
  closes = λ d i p. elim (Bool-cases (client_at d i).is_connected) [
    | inl connected ↦ (
      disconnected d i,
      rw (connected, held_by-none d.safety (client_at d i).id p) refl,
      disconnected-Quiet d i,
    )
    | inr closed ↦ (d, rw closed refl, Quiet-refl d)
  ];
  from_quiet = λ d d' q. q;
  after_quiet = λ c d e p q. Quiet-trans p q;
}

pub queues-apply_safety_to_buses :
    (d : Daemon) → queues (apply_safety_to_buses d).buses ≡ queues d.buses
unfolding apply_safety_to_buses
queues-apply_safety_to_buses d =
    queues-set_safety d.safety.epoch d.safety.outputs_enabled d.buses d.global_faulted_epoch

-- Once the buses are told, they are in step whatever they permitted before.
pub apply_safety_to_buses-InSync : (d : Daemon) → InSync (apply_safety_to_buses d)
unfolding apply_safety_to_buses
apply_safety_to_buses-InSync d = InSync-set_safety d.safety d.buses d.global_faulted_epoch

pub dropped-Free : (g : SafetyGate) → Free (dropped g)
unfolding drop_controller_and_advance_epoch
dropped-Free g = refl

pub apply_safety_to_buses-Free :
    (d : Daemon) → Free d.safety → Free (apply_safety_to_buses d).safety
unfolding apply_safety_to_buses
apply_safety_to_buses-Free d p = p

pub drop-epoch_changed :
    (g : SafetyGate) → (drop_controller_and_advance_epoch g).0.epoch_changed ≡ true
unfolding drop_controller_and_advance_epoch
drop-epoch_changed g = refl

pub InSync-Quiet : {d d' : Daemon} → Quiet d d' → InSync d → InSync d'
InSync-Quiet q = (Quiet-Effect q).sync_stays

pub dropped-disabled : (g : SafetyGate) → (dropped g).outputs_enabled ≡ false
unfolding drop_controller_and_advance_epoch
dropped-disabled g = refl

KeepsOrDrops-trans : (f g h : SafetyGate) → KeepsOrDrops f g → KeepsOrDrops g h → KeepsOrDrops f h
KeepsOrDrops-trans f g h (inl p) (inl q) = inl (q ∙ p)
KeepsOrDrops-trans f g h (inr p) (inl q) = inr (rw q p)
KeepsOrDrops-trans f g h p (inr q) = inr q

pub Effect-trans : {c d e : Daemon} → Effect c d → Effect d e → Effect c e
Effect-trans {c} {d} {e} p q = record {
  gate_is = KeepsOrDrops-trans c.safety d.safety e.safety p.gate_is q.gate_is;
  commands_stay = q.commands_stay ∙ p.commands_stay;
  sync_stays = λ h. q.sync_stays (p.sync_stays h);
}

-- After the gate has dropped its controller the buses are told, and a quiet step follows.
pub told-Effect :
    (d e d' : Daemon)
    → e.safety ≡ dropped d.safety
    → queues e.buses ≡ queues d.buses
    → Quiet (apply_safety_to_buses e) d'
    → Effect d d'
told-Effect d e d' gate commands q = record {
  gate_is =
      let is_dropped : d'.safety ≡ dropped d.safety =
        q.gate_stays ∙ unfold apply_safety_to_buses in gate in
      inr (rw is_dropped (dropped-Free d.safety), rw is_dropped (dropped-disabled d.safety));
  commands_stay = q.commands_stay ∙ queues-apply_safety_to_buses e ∙ commands;
  sync_stays = λ h. InSync-Quiet q (apply_safety_to_buses-InSync e);
}

abbrev pub Any : SafetyGate → Type 0
Any g = Unit {0}

disconnect-held :
    (g : SafetyGate) (id : ℕ)
    → held_by g.controller id ≡ true
    → disconnect g id ≡ drop_controller_and_advance_epoch g
unfolding disconnect
disconnect-held g id held = rw held refl

-- Two closes at most are nested: the controller's, and that of a client that cannot be told of it.
pub close_client-Effect : (fuel now : ℕ) → Closes Any Effect (close_client (suc (suc fuel)) now)
unfolding close_client
close_client-Effect fuel now = record {
  closes = λ d i p.
      let c = client_at d i in
      let d1 = disconnected d i in
      let q = disconnected-Quiet d i in
      elim (Bool-cases c.is_connected) [
        | inr closed ↦ (d, rw closed refl, Quiet-Effect (Quiet-refl d))
        | inl connected ↦ elim (Bool-cases (held_by d.safety.controller c.id)) [
          | inr other ↦ (d1, rw (connected, other) refl, Quiet-Effect q)
          | inl held ↦
              let e : Daemon = record d1 { safety = dropped d.safety } in
              let (d2, told, q2) =
                broadcast_outputs_disabled-returns (close_client-Quiet fuel now) now
                  (apply_safety_to_buses e) DisableReason.disconnect 0xffff
                  (apply_safety_to_buses-Free e (dropped-Free d.safety)) in
              (
                d2,
                rw
                    (
                      connected,
                      held,
                      q.gate_stays,
                      disconnect-held d.safety c.id held,
                      drop-epoch_changed d.safety,
                    )
                    told,
                told-Effect d e d2 refl q.commands_stay q2,
              )
        ]
      ];
  from_quiet = λ d d' q. Quiet-Effect q;
  after_quiet = λ c d e q r. Effect-trans (Quiet-Effect q) r;
}
