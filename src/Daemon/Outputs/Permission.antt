-- ===== src/Daemon/Outputs/Permission.antt =====
-- `ApplyOutputCommands` at the start of permission: zero images and new ages.
use ec_systemcore.Base.{
  ℕ, ◌≡◌, refl, ap, ◌∙◌, Bool, false, not, ◌&&◌, List, [], ◌∷◌, length, inl, inr, Bool-cases, ◌==◌,
  if◌then◌else◌,
}
use mathlib.Core.List.{map}
use ec_systemcore.Protocol.Bytes.{IsBytes}
use ec_systemcore.Daemon.Outputs.{
  SubDevice, Worker, Permit, begin_permission, zero_all, zero_outputs, restart_ages,
}
use ec_systemcore.Daemon.Outputs.Zeroed.{Zeroed, Zeroed-none, any_in_image, zero_outputs-Zeroed}
use ec_systemcore.Daemon.Outputs.Commands.{layout, layouts}

restart_ages-layouts :
    (now : ℕ) (subs : List SubDevice) → map layout (restart_ages now subs) ≡ map layout subs
unfolding restart_ages
restart_ages-layouts now [] = refl
restart_ages-layouts now (s ∷ rest) = ap (λ r. layout s ∷ r) (restart_ages-layouts now rest)

-- Permission begins now, and the images can be written.
abbrev pub clears : Permit → Worker → Bool
clears p w = (p.permitted && not w.outputs_were_permitted) && w.context_open

-- The bits that the start of permission clears.
abbrev pub cleared : Permit → Worker → ℕ → Bool
cleared p w j =
    clears p w && any_in_image (length w.io_map) (λ s. not (s.output_bits == 0)) w.sub_devices j

pub record Begun (p : Permit) (w w' : Worker) : Type 0 where
  pub image : Zeroed w.io_map w'.io_map (cleared p w)
  pub same_layouts : layouts w' ≡ layouts w

zero_outputs-closed : (w : Worker) → w.context_open ≡ false → zero_outputs w ≡ w
unfolding zero_outputs
zero_outputs-closed w closed =
    ap (λ b. if not b then w else record w { io_map = zero_all w.io_map w.sub_devices }) closed

zero_outputs-sub_devices : (w : Worker) → (zero_outputs w).sub_devices ≡ w.sub_devices
unfolding zero_outputs
zero_outputs-sub_devices w = elim (Bool-cases w.context_open) [
  | inl opened ↦ rw opened refl
  | inr closed ↦ rw closed refl
]

zero_outputs-image :
    (w : Worker)
    → IsBytes w.io_map
    → Zeroed w.io_map (zero_outputs w).io_map (λ j.
      w.context_open
      && any_in_image (length w.io_map) (λ s. not (s.output_bits == 0)) w.sub_devices j)
zero_outputs-image w h = elim (Bool-cases w.context_open) [
  | inl opened ↦
      let z = zero_outputs-Zeroed w h opened in
      record {
        bytes_fit = z.bytes_fit;
        same_length = z.same_length;
        bits_are = λ j. z.bits_are j ∙ rw opened refl;
      }
  | inr closed ↦
      let same : zero_outputs w ≡ w = zero_outputs-closed w closed in
      rw same (Zeroed-none w.io_map _ h (λ j. rw closed refl))
]

pub begin_permission-Begun :
    (p : Permit) (w : Worker) → IsBytes w.io_map → Begun p w (begin_permission p w)
unfolding begin_permission
begin_permission-Begun p w h = elim (Bool-cases (p.permitted && not w.outputs_were_permitted)) [
  | inl starts ↦
      let z = zero_outputs-image w h in
      rw starts (record {
        image = record {
          bytes_fit = z.bytes_fit;
          same_length = z.same_length;
          bits_are = λ j. z.bits_are j ∙ rw starts refl;
        };
        same_layouts =
            restart_ages-layouts p.now (zero_outputs w).sub_devices
            ∙ ap (map layout) (zero_outputs-sub_devices w);
      })
  | inr goes_on ↦
      rw goes_on
        (record { image = Zeroed-none w.io_map _ h (λ j. rw goes_on refl); same_layouts = refl })
]
