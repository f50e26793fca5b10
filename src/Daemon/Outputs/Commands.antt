-- ===== src/Daemon/Outputs/Commands.antt =====
-- What one output command does to the I/O map.
use ec_systemcore.Base.{
  ℕ, zero, suc, ◌+◌, ◌-◌, ◌≤◌, ◌<◌, ◌≡◌, ◌↔◌, refl, sym, ap, subst, ◌∙◌, Bool, true, false, ◌&&◌,
  List, [], ◌∷◌, Option, none, some, arith, ltb, leb, length, Bool-cases, ◌⊎◌, inl, inr,
  Option-cases, get_elem?, set,
}
use mathlib.Core.Option
use mathlib.Core.List.{map}
use ec_systemcore.Protocol.Bytes.{IsBytes}
use ec_systemcore.Safety.Limits.{validate_whole_output_write_iff}
use ec_systemcore.Safety.Pdo.{bit_at, pdo_image_byte_length, has_canonical_pdo_padding}
use ec_systemcore.Daemon.Bus.{OutputCommand}
use ec_systemcore.Daemon.Outputs.{
  SubDevice, Worker, Permit, is_current, mapped_bytes, write_output, apply_to, apply_command,
}
use ec_systemcore.Daemon.Outputs.Writing.{
  image_of, accepts_at, accepts_through, first_bit, write_output_through-Writes,
}

-- What the layout of the outputs is; applying a command leaves it.
abbrev pub layout : SubDevice → SubDevice
layout s = record s { last_output_command_us = 0; stale_output = false }

abbrev pub layouts : Worker → List SubDevice
layouts w = map layout w.sub_devices

-- The command may be applied: outputs are permitted, and it is of this epoch, for a SubDevice, from
-- now or before and not older than the timeout.
pub record IsCurrent (p : Permit) (c : OutputCommand) : Type 0 where
  pub permitted_is : p.permitted ≡ true
  pub epoch_is : c.epoch ≡ p.epoch
  pub target_is : 1 ≤ c.sub_device_index
  pub timed : 1 ≤ c.accepted_monotonic_us
  pub not_later : c.accepted_monotonic_us ≤ p.now
  pub in_time : p.now ≤ c.accepted_monotonic_us + p.timeout_us

pub is_current_iff : (p : Permit) (c : OutputCommand) → (is_current p c ≡ true) ↔ IsCurrent p c
is_current_iff p c = ground arith

-- The image at this place is in a map of this size, and the command replaces the whole of it, with
-- zero padding.
pub record FitsAt (map_size : ℕ) (s : SubDevice) (begin : ℕ) (c : OutputCommand) : Type 0 where
  pub in_map : begin + mapped_bytes s ≤ map_size
  pub start_fits : s.output_start_bit ≤ 7
  pub from_begin : c.offset ≡ 0
  pub whole : (1 ≤ c.length) × (c.length ≤ 1024) × (c.length ≡ pdo_image_byte_length s.output_bits)
  pub padded : has_canonical_pdo_padding s.output_bits (image_of c) ≡ true

accepts_at_iff :
    (map_size : ℕ) (s : SubDevice) (begin : ℕ) (c : OutputCommand)
    → (accepts_at map_size s begin c ≡ true) ↔ FitsAt map_size s begin c
accepts_at_iff map_size s begin c =
    ground (
      arith,
      validate_whole_output_write_iff (pdo_image_byte_length s.output_bits) c.offset c.length,
    )

abbrev pub FitsThrough : Option ℕ → ℕ → SubDevice → OutputCommand → Type 0
FitsThrough none map_size s c = ⊥
FitsThrough (some begin) map_size s c = FitsAt map_size s begin c

accepts_through_iff :
    (o : Option ℕ) (map_size : ℕ) (s : SubDevice) (c : OutputCommand)
    → (accepts_through o map_size s c ≡ true) ↔ FitsThrough o map_size s c
accepts_through_iff none map_size s c = (λ h. cc, λ h. absurd (h))
accepts_through_iff (some begin) map_size s c = accepts_at_iff map_size s begin c

-- Bit `j` of a map of this size is in the image of the SubDevice `s`, which the command names, and the
-- command may be applied to it.
abbrev pub SetsAt : Permit → ℕ → List SubDevice → ℕ → OutputCommand → SubDevice → Type 0
SetsAt p map_size subs j c s =
    IsCurrent p c
    × (get_elem? subs (c.sub_device_index - 1) ≡ some s)
    × FitsThrough s.outputs map_size s c
    × (first_bit s.outputs s ≤ j)
    × (j < first_bit s.outputs s + s.output_bits)

-- The command sets bit `j` to something; and to `b`, the bit of its image.
abbrev pub Touches : Permit → ℕ → List SubDevice → ℕ → OutputCommand → Type 0
Touches p map_size subs j c = (s : SubDevice) × SetsAt p map_size subs j c s

abbrev pub Sets : Permit → ℕ → List SubDevice → ℕ → Bool → OutputCommand → Type 0
Sets p map_size subs j b c =
    (s : SubDevice) × SetsAt p map_size subs j c s
    × (b ≡ bit_at (image_of c) (j - first_bit s.outputs s))

-- The command sets the bit, or it does not set it and the bit stays.
abbrev pub SetsOrLeaves : Permit → ℕ → List SubDevice → ℕ → Bool → Bool → OutputCommand → Type 0
SetsOrLeaves p map_size subs j before after c =
    Sets p map_size subs j after c ⊎ ((¬ Touches p map_size subs j c) × (after ≡ before))

pub record Applied (p : Permit) (w w' : Worker) (c : OutputCommand) : Type 0 where
  pub bytes_fit : IsBytes w'.io_map
  pub same_length : length w'.io_map ≡ length w.io_map
  pub same_layouts : layouts w' ≡ layouts w
  pub bits_are :
      (j : ℕ)
      → SetsOrLeaves p (length w.io_map) (layouts w) j (bit_at w.io_map j) (bit_at w'.io_map j) c

-- A command that sets nothing.
Applied-none :
    (p : Permit) (w : Worker) (c : OutputCommand)
    → IsBytes w.io_map
    → ((j : ℕ) → ¬ Touches p (length w.io_map) (layouts w) j c)
    → Applied p w w c
Applied-none p w c h untouched = record {
  bytes_fit = h;
  same_length = refl;
  same_layouts = refl;
  bits_are = λ j. inr (untouched j, refl);
}

get_elem?-layout :
    (subs : List SubDevice) (k : ℕ) (s : SubDevice)
    → get_elem? subs k ≡ some s
    → get_elem? (map layout subs) k ≡ some (layout s)
get_elem?-layout [] k s e = absurd (cc)
get_elem?-layout (x ∷ rest) zero s e = ap (λ o. Option.map layout o) e
get_elem?-layout (x ∷ rest) (suc k) s e = get_elem?-layout rest k s e

get_elem?-layout_none :
    (subs : List SubDevice) (k : ℕ) → get_elem? subs k ≡ none → get_elem? (map layout subs) k ≡ none
get_elem?-layout_none [] k e = refl
get_elem?-layout_none (x ∷ rest) zero e = absurd (cc)
get_elem?-layout_none (x ∷ rest) (suc k) e = get_elem?-layout_none rest k e

accepts_through-layout :
    (o : Option ℕ) (map_size : ℕ) (s : SubDevice) (c : OutputCommand)
    → accepts_through o map_size (layout s) c ≡ accepts_through o map_size s c
accepts_through-layout none map_size s c = refl
accepts_through-layout (some begin) map_size s c = refl

first_bit-layout : (o : Option ℕ) (s : SubDevice) → first_bit o (layout s) ≡ first_bit o s
first_bit-layout none s = refl
first_bit-layout (some begin) s = refl

-- A bit that a command sets is in the image of the SubDevice with the place that the command names.
module _ (p : Permit) (n : ℕ) (subs : List SubDevice) (s : SubDevice) (c : OutputCommand)
    (target : get_elem? subs (c.sub_device_index - 1) ≡ some s) where
  Touches-at :
      (j : ℕ) → Touches p n (map layout subs) j c → SetsAt p n (map layout subs) j c (layout s)
  Touches-at j (t, at) =
      let known = get_elem?-layout subs (c.sub_device_index - 1) s target in
      let same : t ≡ layout s = cc (at.1, known) in
      subst (λ x. SetsAt p n (map layout subs) j c x) same at

  refused-untouched :
      accepts_through s.outputs n s c ≡ false → (j : ℕ) → ¬ Touches p n (map layout subs) j c
  refused-untouched refused j touches =
      let at = Touches-at j touches in
      let fits = (accepts_through_iff s.outputs n (layout s) c).1 at.2 in
      ground (arith, fits, accepts_through-layout s.outputs n s c, refused)

  outside-untouched :
      (j : ℕ)
      → (leb (first_bit s.outputs s) j && ltb j (first_bit s.outputs s + s.output_bits)) ≡ false
      → ¬ Touches p n (map layout subs) j c
  outside-untouched j outside touches =
      let at = Touches-at j touches in
      ground (arith, at.3, at.4, first_bit-layout s.outputs s, outside)

  inside-Sets :
      (j : ℕ) (b : Bool)
      → is_current p c ≡ true
      → accepts_through s.outputs n s c ≡ true
      → (leb (first_bit s.outputs s) j && ltb j (first_bit s.outputs s + s.output_bits)) ≡ true
      → b ≡ bit_at (image_of c) (j - first_bit s.outputs s)
      → Sets p n (map layout subs) j b c
  inside-Sets j b current fits inside set_to =
      let first = first_bit-layout s.outputs s in
      (
        layout s,
        (
          (is_current_iff p c).0 current,
          get_elem?-layout subs (c.sub_device_index - 1) s target,
          (accepts_through_iff s.outputs n (layout s) c).0
              (accepts_through-layout s.outputs n s c ∙ fits),
          ground (arith, inside, first),
          ground (arith, inside, first),
        ),
        set_to ∙ ap (λ f. bit_at (image_of c) (j - f)) (sym first),
      )

old-untouched :
    (p : Permit) (n : ℕ) (subs : List SubDevice) (c : OutputCommand)
    → is_current p c ≡ false
    → (j : ℕ) → ¬ Touches p n subs j c
old-untouched p n subs c old j (s, at) = cc ((is_current_iff p c).1 at.0)

no_target-untouched :
    (p : Permit) (n : ℕ) (subs : List SubDevice) (c : OutputCommand)
    → get_elem? subs (c.sub_device_index - 1) ≡ none
    → (j : ℕ) → ¬ Touches p n (map layout subs) j c
no_target-untouched p n subs c no_target j (s, at) =
    cc (at.1, get_elem?-layout_none subs (c.sub_device_index - 1) no_target)

layouts-set :
    (subs : List SubDevice) (k : ℕ) (s s' : SubDevice)
    → get_elem? subs k ≡ some s
    → layout s' ≡ layout s
    → map layout (set subs k s') ≡ map layout subs
layouts-set [] k s s' e same = refl
layouts-set (x ∷ rest) zero s s' e same =
    let here : x ≡ s = cc e in ap (λ y. y ∷ map layout rest) (same ∙ sym (ap layout here))
layouts-set (x ∷ rest) (suc k) s s' e same = ap (λ r. layout x ∷ r) (layouts-set rest k s s' e same)

apply_to-Applied :
    (p : Permit) (w : Worker) (s : SubDevice) (c : OutputCommand)
    → is_current p c ≡ true
    → get_elem? w.sub_devices (c.sub_device_index - 1) ≡ some s
    → IsBytes w.io_map
    → IsBytes c.image
    → Applied p w (apply_to w (c.sub_device_index - 1) s c) c
unfolding apply_to write_output
apply_to-Applied p w s c current target h k =
    let n = length w.io_map in
    elim (write_output_through-Writes s.outputs w.io_map s c h k) [
      | inl (unfit, refused) ↦
          rw (refused, apply_to)
            (Applied-none p w c h (refused-untouched p n w.sub_devices s c target unfit))
      | inr (io, fits, written, placed) ↦
          rw (written, apply_to)
            (record {
              bytes_fit = placed.bytes_fit;
              same_length = placed.same_length;
              same_layouts =
                  layouts-set w.sub_devices (c.sub_device_index - 1) s
                    (record s {
                      last_output_command_us = c.accepted_monotonic_us;
                      stale_output = false;
                    })
                    target refl;
              bits_are = λ j.
                  let first = first_bit s.outputs s in
                  elim (Bool-cases (leb first j && ltb j (first + s.output_bits))) [
                    | inl inside ↦ inl (
                        inside-Sets p n w.sub_devices s c target j _ current fits inside
                          (placed.bits_are j ∙ rw inside refl))
                    | inr outside ↦ inr (
                      outside-untouched p n w.sub_devices s c target j outside,
                      placed.bits_are j ∙ rw outside refl,
                    )
                  ];
            })
    ]

pub apply_command-Applied :
    (p : Permit) (w : Worker) (c : OutputCommand)
    → IsBytes w.io_map
    → IsBytes c.image
    → Applied p w (apply_command p w c) c
unfolding apply_command
apply_command-Applied p w c h k =
    let n = length w.io_map in
    elim (Bool-cases (is_current p c)) [
      | inr old ↦ rw old (Applied-none p w c h (old-untouched p n (layouts w) c old))
      | inl current ↦ elim (Option-cases (get_elem? w.sub_devices (c.sub_device_index - 1))) [
        | inl no_target ↦
            rw (current, no_target, apply_command)
              (Applied-none p w c h (no_target-untouched p n w.sub_devices c no_target))
        | inr (s, target) ↦
            rw (current, target, apply_command) (apply_to-Applied p w s c current target h k)
      ]
    ]
