-- ===== src/DcSync/Lock.antt =====
-- When the controller reports that it is locked to the reference.
use ec_systemcore.Base.{
  ℕ, zero, suc, ◌+◌, ◌-◌, ◌/◌, ◌%◌, ◌≤◌, ◌<◌, ◌≡◌, ◌⊎◌, refl, max, true, List, [], ◌∷◌, arith,
  quotient_pos, subst, sym, ap, ◌∙◌,
}
use ec_systemcore.Base.Int.{ℤ, pos, pos_part, abs}
use ec_systemcore.DcSync.{
  DistributedClockController, update, update_valid, phase_of, reference_advanced, rounded_cycles,
  i64_max, saturated, update-valid,
}
use native.Mathlib.Nat.{mod_self, div_self, add-mod_right}

-- A history of references.
unfoldable pub run : DistributedClockController → List ℤ → DistributedClockController
run c [] = c
run c (reference ∷ rest) = run (update c reference).1 rest

-- A reference that moves on by exactly one cycle is taken as an advance, at an unchanged phase.
on_schedule_advances :
    (cycle previous : ℕ)
    → 2 ≤ cycle
    → cycle ≤ i64_max
    → 0 < previous
    → reference_advanced cycle previous (previous + cycle) ≡ true
unfolding reference_advanced rounded_cycles
on_schedule_advances cycle previous h k p =
    let whole : cycle / cycle ≡ 1 = div_self (omega arith) in
    let rest : cycle % cycle ≡ 0 = mod_self cycle in
    let back : previous + cycle - previous ≡ cycle = omega arith in
    let room : 1 ≤ i64_max / cycle = quotient_pos i64_max cycle (omega arith) k in
    rw back (ground (arith, whole, rest, room))

on_schedule_phase :
    (cycle previous : ℕ) → 0 < cycle → phase_of cycle (previous + cycle) ≡ phase_of cycle previous
unfolding phase_of
on_schedule_phase cycle previous h = rw (add-mod_right previous cycle) refl

-- The references that move on by one cycle each, `n` of them, behind `previous`.
abbrev pub on_schedule : ℕ → ℕ → ℕ → List ℤ
on_schedule zero cycle previous = []
on_schedule (suc n) cycle previous = pos (previous + cycle) ∷ on_schedule n cycle (previous + cycle)

-- A controller that has seen a reference in phase.
pub record IsInPhase (c : DistributedClockController) (cycle : ℕ) : Type 0 where
  pub cycle_is : c.cycle_nanoseconds ≡ pos cycle
  pub started : 0 < c.previous_reference
  pub in_phase : abs (phase_of cycle c.previous_reference) ≤ max 1000 (cycle / 20)

on_schedule_step :
    (c : DistributedClockController) (cycle : ℕ)
    → 2 ≤ cycle
    → cycle ≤ i64_max
    → IsInPhase c cycle
    → let c' = (update_valid c cycle (c.previous_reference + cycle)).1 in
      IsInPhase c' cycle
      × (c'.previous_reference ≡ c.previous_reference + cycle)
      × (c'.stable_cycles ≡ saturated c.stable_cycles)
      × ((c'.synchronized ≡ true) ⊎ (c'.stable_cycles < 20))
unfolding update_valid
on_schedule_step c cycle h k v =
    let advances = on_schedule_advances cycle c.previous_reference h k v.started in
    let phase = on_schedule_phase cycle c.previous_reference (omega arith) in
    (
      record { cycle_is = v.cycle_is; started = omega arith; in_phase = rw phase v.in_phase },
      refl,
      rw (advances, phase) (ground (arith, v.in_phase)),
      ground arith,
    )

on_schedule_update :
    (c : DistributedClockController) (cycle : ℕ)
    → 2 ≤ cycle
    → IsInPhase c cycle
    → update c (pos (c.previous_reference + cycle))
      ≡ update_valid c cycle (c.previous_reference + cycle)
on_schedule_update c cycle h v =
    update-valid c (pos (c.previous_reference + cycle)) (rw v.cycle_is (ground arith))
    ∙ ap (λ k. update_valid c k (c.previous_reference + cycle)) (ap pos_part v.cycle_is)

-- From any state in phase, a reference that moves on by exactly one cycle each time locks the
-- controller as soon as the stable cycles come to twenty, and keeps it locked: after twenty such
-- references at the latest.
pub on_schedule_locks :
    (n : ℕ) (c : DistributedClockController) (cycle : ℕ)
    → 2 ≤ cycle
    → cycle ≤ i64_max
    → IsInPhase c cycle
    → 20 ≤ c.stable_cycles + suc n
    → (run c (on_schedule (suc n) cycle c.previous_reference)).synchronized ≡ true
unfolding run
on_schedule_locks zero c cycle h k v enough =
    let step = on_schedule_step c cycle h k v in
    subst (λ u. (run u.1 []).synchronized ≡ true) (sym (on_schedule_update c cycle h v))
      (ground (arith, step.2, step.3))
on_schedule_locks (suc n) c cycle h k v enough =
    let step = on_schedule_step c cycle h k v in
    let c' = (update_valid c cycle (c.previous_reference + cycle)).1 in
    let reaches : 20 ≤ c'.stable_cycles + suc n = ground (arith, step.2) in
    subst
      (λ u.
        (run u.1 (on_schedule (suc n) cycle (c.previous_reference + cycle))).synchronized ≡ true)
      (sym (on_schedule_update c cycle h v))
      (subst (λ p. (run c' (on_schedule (suc n) cycle p)).synchronized ≡ true) step.1
        (on_schedule_locks n c' cycle h k step.0 reaches))
