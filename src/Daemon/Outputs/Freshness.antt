-- ===== src/Daemon/Outputs/Freshness.antt =====
-- `EnforcePerSubDeviceFreshness` of daemon/src/main.cpp: which SubDevices lose their outputs.
use ec_systemcore.Base.{
  ℕ, ◌+◌, ◌*◌, ◌≤◌, ◌<◌, ◌≡◌, ◌≢◌, ◌↔◌, refl, ap, ◌∙◌, Bool, true, false, not, ◌&&◌, ◌||◌, List, [],
  ◌∷◌, Option, none, some, arith, ltb, ◌==◌, if◌then◌else◌, length, Bool-cases, ◌⊎◌, inl, inr, min,
}
use ec_systemcore.Protocol.Bytes.{IsBytes}
use ec_systemcore.Safety.Pdo.{bit_at, pdo_image_byte_length}
use ec_systemcore.Daemon.Outputs.{
  SubDevice, Worker, mapped_bytes, lapses, aged, has_outputs, count_stale, enforce_sub_devices,
  enforce_per_sub_device_freshness,
}
use ec_systemcore.Daemon.Outputs.Zeroed.{
  in_image, in_image_through, any_in_image, enforce_image-Zeroed,
}

-- A SubDevice with outputs.
abbrev pub HasOutputs : SubDevice → Type 0
HasOutputs s = (1 ≤ s.output_bits) × (s.outputs ≢ none)

-- It has outputs, and had no command, one from the future, or none within the timeout.
abbrev pub HasLapsed : ℕ → ℕ → SubDevice → Type 0
HasLapsed now timeout_us s =
    HasOutputs s
    × ((s.last_output_command_us ≡ 0)
        ⊎ (now < s.last_output_command_us)
        ⊎ (s.last_output_command_us + timeout_us < now))

has_outputs_iff : (s : SubDevice) → (has_outputs s ≡ true) ↔ HasOutputs s
has_outputs_iff s = through s.outputs
  where
    through :
        (o : Option ℕ)
        → ((not (pdo_image_byte_length s.output_bits == 0)
              && elim o [ none ↦ false | some begin ↦ true ])
            ≡ true)
          ↔ ((1 ≤ s.output_bits) × (o ≢ none))
    through none = (λ h. absurd (ground (arith, h)), λ h. absurd (h.1 refl))
    through (some begin) = (λ h. (ground (arith, h), λ e. cc), λ h. ground (arith, h.0))

lapses_iff :
    (now timeout_us : ℕ) (s : SubDevice)
    → (lapses now timeout_us s ≡ true) ↔ HasLapsed now timeout_us s
lapses_iff now timeout_us s =
    let outputs = has_outputs_iff s in
    (
      λ h. (outputs.0 (ground (arith, h)), ground (arith, h)),
      λ l. let known = outputs.1 l.0 in ground (arith, known, l.1),
    )

-- Bit `j` of a map of this size is in the SubDevice's image, and the image is in the map.
abbrev InImageThrough : Option ℕ → ℕ → SubDevice → ℕ → Type 0
InImageThrough none map_size s j = ⊥
InImageThrough (some begin) map_size s j =
    (s.output_start_bit ≤ 7)
    × (begin + mapped_bytes s ≤ map_size)
    × (8 * begin + s.output_start_bit ≤ j)
    × (j < 8 * begin + s.output_start_bit + s.output_bits)

abbrev pub InImage : ℕ → SubDevice → ℕ → Type 0
InImage map_size s j = InImageThrough s.outputs map_size s j

in_image_through_iff :
    (o : Option ℕ) (map_size : ℕ) (s : SubDevice) (j : ℕ)
    → (in_image_through o map_size s j ≡ true) ↔ InImageThrough o map_size s j
in_image_through_iff none map_size s j = (λ h. cc, λ h. absurd (h))
in_image_through_iff (some begin) map_size s j = ground arith

in_image_iff :
    (map_size : ℕ) (s : SubDevice) (j : ℕ) → (in_image map_size s j ≡ true) ↔ InImage map_size s j
in_image_iff map_size s j = in_image_through_iff s.outputs map_size s j

-- Bit `j` is in the image of one of the SubDevices that have lapsed.
pub InLapsedImage : ℕ → ℕ → ℕ → List SubDevice → ℕ → Type 0
InLapsedImage now timeout_us map_size [] j = ⊥
InLapsedImage now timeout_us map_size (s ∷ rest) j =
    (HasLapsed now timeout_us s × InImage map_size s j)
    ⊎ InLapsedImage now timeout_us map_size rest j

either : (p q : Bool) → (p || q) ≡ true → (p ≡ true) ⊎ (q ≡ true)
either p q h = ground arith

both : (p q : Bool) → (p && q) ≡ true → (p ≡ true) × (q ≡ true)
both p q h = ground arith

InLapsedImage-iff :
    (now timeout_us map_size : ℕ) (subs : List SubDevice) (j : ℕ)
    → (any_in_image map_size (lapses now timeout_us) subs j ≡ true)
      ↔ InLapsedImage now timeout_us map_size subs j
unfolding any_in_image InLapsedImage
InLapsedImage-iff now timeout_us map_size [] j = (λ h. cc, λ h. absurd (h))
InLapsedImage-iff now timeout_us map_size (s ∷ rest) j =
    let later = InLapsedImage-iff now timeout_us map_size rest j in
    let here = lapses now timeout_us s in
    let inside = in_image map_size s j in
    (
      λ h. elim (either (here && inside) (any_in_image map_size (lapses now timeout_us) rest j) h) [
        | inl now_here ↦
            let (lapsed, within) = both here inside now_here in
            inl ((lapses_iff now timeout_us s).0 lapsed, (in_image_iff map_size s j).0 within)
        | inr in_rest ↦ inr (later.0 in_rest)
      ],
      λ h. elim h [
        | inl (lapsed, within) ↦
            let l : here ≡ true = (lapses_iff now timeout_us s).1 lapsed in
            let i : inside ≡ true = (in_image_iff map_size s j).1 within in rw (l, i) refl
        | inr in_rest ↦ let r = later.1 in_rest in ground (arith, r)
      ],
    )

-- A SubDevice that has lapsed is marked; any other stays as it is.
abbrev pub Marked : ℕ → ℕ → SubDevice → SubDevice → Type 0
Marked now timeout_us s s' =
    (HasLapsed now timeout_us s × (s' ≡ record s { stale_output = true }))
    ⊎ ((¬ HasLapsed now timeout_us s) × (s' ≡ s))

pub AllMarked : ℕ → ℕ → List SubDevice → List SubDevice → Type 0
AllMarked now timeout_us [] [] = Unit
AllMarked now timeout_us [] (s' ∷ rest') = ⊥
AllMarked now timeout_us (s ∷ rest) [] = ⊥
AllMarked now timeout_us (s ∷ rest) (s' ∷ rest') =
    Marked now timeout_us s s' × AllMarked now timeout_us rest rest'

aged-Marked : (now timeout_us : ℕ) (s : SubDevice) → Marked now timeout_us s (aged now timeout_us s)
aged-Marked now timeout_us s = elim (Bool-cases (lapses now timeout_us s)) [
  | inl lapsed ↦ inl ((lapses_iff now timeout_us s).0 lapsed, rw lapsed refl)
  | inr fresh ↦ inr (λ h. cc ((lapses_iff now timeout_us s).1 h), rw fresh refl)
]

enforce_sub_devices-AllMarked :
    (now timeout_us : ℕ) (subs : List SubDevice)
    → AllMarked now timeout_us subs (enforce_sub_devices now timeout_us subs)
unfolding enforce_sub_devices AllMarked
enforce_sub_devices-AllMarked now timeout_us [] = tt
enforce_sub_devices-AllMarked now timeout_us (s ∷ rest) =
    (aged-Marked now timeout_us s, enforce_sub_devices-AllMarked now timeout_us rest)

abbrev is_placed : Option ℕ → Bool
is_placed none = false
is_placed (some begin) = true

-- The SubDevices with outputs that are marked.
pub marked_total : List SubDevice → ℕ
marked_total [] = 0
marked_total (s ∷ rest) =
    (if ltb 0 s.output_bits && is_placed s.outputs && s.stale_output then 1 else 0)
    + marked_total rest

has_outputs_lem : (s : SubDevice) → has_outputs s ≡ (ltb 0 s.output_bits && is_placed s.outputs)
has_outputs_lem s = through s.outputs
  where
    through :
        (o : Option ℕ)
        → (not (pdo_image_byte_length s.output_bits == 0)
            && elim o [ none ↦ false | some begin ↦ true ])
          ≡ (ltb 0 s.output_bits && is_placed o)
    through none = ground arith
    through (some begin) = ground arith

count_stale_lem :
    (count : ℕ) (sub_devices : List SubDevice)
    → count ≤ 65535
    → count_stale count sub_devices ≡ min 65535 (count + marked_total sub_devices)
unfolding count_stale marked_total
count_stale_lem count [] h = ground arith
count_stale_lem count (s ∷ rest) h =
    let known = has_outputs_lem s in
    let next =
      if has_outputs s && s.stale_output && not (count == 65535) then count + 1 else count in
    count_stale_lem next rest (ground arith) ∙ rw known (ground arith)

-- The bits of the lapsed images are 0 and the others as they were, the lapsed SubDevices are marked and
-- the others as they were, and the marked ones are counted.
pub record Enforced (now : ℕ) (w w' : Worker) : Type 0 where
  pub same_length : length w'.io_map ≡ length w.io_map
  pub bits_are :
      (j : ℕ)
      → let lapsed =
          InLapsedImage now
            (w.output_command_timeout_ms * 1000)
            (length w.io_map)
            w.sub_devices
            j in
        (lapsed × (bit_at w'.io_map j ≡ false))
        ⊎ ((¬ lapsed) × (bit_at w'.io_map j ≡ bit_at w.io_map j))
  pub marks : AllMarked now (w.output_command_timeout_ms * 1000) w.sub_devices w'.sub_devices
  pub count_is : w'.stale_output_faults ≡ min 65535 (marked_total w'.sub_devices)

-- While outputs are permitted, enforcing freshness clears exactly the output images of the SubDevices
-- with outputs that had no command, one from the future, or none within the timeout; it marks these,
-- leaves the other bits and SubDevices, and counts the marked ones with outputs up to 65535.
pub enforce_per_sub_device_freshness-Enforced :
    (now : ℕ) (w : Worker)
    → IsBytes w.io_map
    → Enforced now w (enforce_per_sub_device_freshness now true w)
unfolding enforce_per_sub_device_freshness
enforce_per_sub_device_freshness-Enforced now w h =
    let timeout_us = w.output_command_timeout_ms * 1000 in
    let n = length w.io_map in
    let subs = enforce_sub_devices now timeout_us w.sub_devices in
    let z = enforce_image-Zeroed now timeout_us w.io_map w.sub_devices h in
    let e : 0 + marked_total subs ≡ marked_total subs = omega arith in
    record {
      same_length = z.same_length;
      bits_are = λ j.
          let lapsed = InLapsedImage-iff now timeout_us n w.sub_devices j in
          elim (Bool-cases (any_in_image n (lapses now timeout_us) w.sub_devices j)) [
            | inl inside ↦ inl (lapsed.0 inside, z.bits_are j ∙ rw inside refl)
            | inr outside ↦ inr (λ l. cc (lapsed.1 l, outside), z.bits_are j ∙ rw outside refl)
          ];
      marks = enforce_sub_devices-AllMarked now timeout_us w.sub_devices;
      count_is = count_stale_lem 0 subs (omega arith) ∙ ap (λ n. min 65535 n) e;
    }
