-- ===== src/Daemon/Bus/Steps.antt =====
-- What the steps of a bus's thread (`RaiseFault` of daemon/src/main.cpp) and `SetSafety` do to a bus,
-- whatever the thread does in the gaps.
use ec_systemcore.Base.{
  ℕ, ◌≡◌, refl, ◌∙◌, ◌⊎◌, inl, inr, Bool, true, false, not, ◌&&◌, ◌||◌, List, [], ◌∷◌, ◌==◌, arith,
}
use ec_systemcore.Daemon.Bus.{Bus, FaultStep, fault_step, fault_steps, in_gap, set_safety}

-- The thread leaves the commands and the epoch, and permits nothing.
pub record Faulting (b b' : Bus) : Type 0 where
  pub commands_stay : b'.output_commands ≡ b.output_commands
  pub epoch_stays : b'.safety_epoch ≡ b.safety_epoch
  pub permits_less : (b'.outputs_permitted ≡ false) ⊎ (b'.outputs_permitted ≡ b.outputs_permitted)

permits_less_trans :
    (a b c : Bool) → (b ≡ false) ⊎ (b ≡ a) → (c ≡ false) ⊎ (c ≡ b) → (c ≡ false) ⊎ (c ≡ a)
permits_less_trans a b c h k = ground (arith, h, k)

Faulting-trans : {a b c : Bus} → Faulting a b → Faulting b c → Faulting a c
Faulting-trans {a} {b} {c} f g = record {
  commands_stay = g.commands_stay ∙ f.commands_stay;
  epoch_stays = g.epoch_stays ∙ f.epoch_stays;
  permits_less =
      permits_less_trans a.outputs_permitted b.outputs_permitted c.outputs_permitted f.permits_less
        g.permits_less;
}

Faulting-same :
    (b b' : Bus)
    → b'.output_commands ≡ b.output_commands
    → b'.safety_epoch ≡ b.safety_epoch
    → b'.outputs_permitted ≡ b.outputs_permitted
    → Faulting b b'
Faulting-same b b' c e p = record { commands_stay = c; epoch_stays = e; permits_less = inr p }

fault_step-Faulting :
    (step : FaultStep) (b : Bus) (global : ℕ) → Faulting b (fault_step step b global).0
unfolding fault_step
fault_step-Faulting FaultStep.forbids_outputs b global = record {
  commands_stay = refl;
  epoch_stays = refl;
  permits_less = inl refl;
}
fault_step-Faulting FaultStep.loads_epoch b global = Faulting-same b _ refl refl refl
fault_step-Faulting FaultStep.latches_fault b global = Faulting-same b _ refl refl refl
fault_step-Faulting FaultStep.latches_globally b global = Faulting-same b _ refl refl refl
fault_step-Faulting FaultStep.counts_fault b global = Faulting-same b _ refl refl refl
fault_step-Faulting (FaultStep.gives_reason reason) b global = Faulting-same b _ refl refl refl
fault_step-Faulting (FaultStep.another_latches epoch) b global = Faulting-same b _ refl refl refl

pub fault_steps-Faulting :
    (steps : List FaultStep) (b : Bus) (global : ℕ) → Faulting b (fault_steps steps b global).0
unfolding fault_steps
fault_steps-Faulting [] b global = Faulting-same b b refl refl refl
fault_steps-Faulting (step ∷ steps) b global =
    let next = fault_step step b global in
    Faulting-trans (fault_step-Faulting step b global) (fault_steps-Faulting steps next.0 next.1)

in_gap-Faulting :
    (gaps : List (List FaultStep)) (b : Bus) (global : ℕ) → Faulting b (in_gap gaps b global).0
unfolding in_gap
in_gap-Faulting [] b global = Faulting-same b b refl refl refl
in_gap-Faulting (steps ∷ later) b global =
    let b' : Bus = record b { meanwhile = later } in
    Faulting-trans (Faulting-same b b' refl refl refl) (fault_steps-Faulting steps b' global)

-- A bus that was told of the epoch and of what is permitted.
pub record Told (epoch : ℕ) (permitted : Bool) (b b' : Bus) : Type 0 where
  pub commands_stay : b'.output_commands ≡ b.output_commands
  pub epoch_is : b'.safety_epoch ≡ epoch
  pub permitted_if : (b'.outputs_permitted ≡ false) ⊎ (permitted ≡ true)

pub set_safety-Told :
    (epoch : ℕ) (permitted : Bool) (b : Bus) (global : ℕ)
    → Told epoch permitted b (set_safety epoch permitted b global).0
unfolding set_safety
set_safety-Told epoch permitted b global =
    let b0 : Bus = record b { safety_epoch = epoch } in
    let one = in_gap b.meanwhile b0 global in
    let two = in_gap one.0.meanwhile one.0 one.1 in
    let first = in_gap-Faulting b.meanwhile b0 global in
    let second = in_gap-Faulting one.0.meanwhile one.0 one.1 in
    let third = in_gap-Faulting two.0.meanwhile two.0 two.1 in
    let all = Faulting-trans first (Faulting-trans second third) in
    record {
      commands_stay = all.commands_stay;
      epoch_is = all.epoch_stays;
      permitted_if = only_if permitted (not (one.0.faulted_epoch == epoch || two.1 == epoch));
    }
  where
    only_if : (p q : Bool) → ((p && q) ≡ false) ⊎ (p ≡ true)
    only_if true q = inr refl
    only_if false q = inl refl
