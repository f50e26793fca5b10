-- ===== src/Daemon/Outputs.antt =====
-- How the thread of a bus (`EthercatBus` of daemon/src/main.cpp) fills the output image: commands from
-- the queue, zeroing, and the freshness of each SubDevice. A pointer into the I/O map is a distance
-- from its begin; a pointer elsewhere is a distance behind its end, since the code only tests it. The
-- SubDevices are those from index 1 on, each with its elements of `lastOutputCommandUs_` and
-- `staleOutput_`.
pub mod Splices
pub mod Zeroed
pub mod Freshness
pub mod Writing
pub mod Commands
pub mod Permission
pub mod Queue
use ec_systemcore.Base.{
  ℕ, zero, suc, ◌+◌, ◌-◌, ◌*◌, Bool, true, false, not, ◌&&◌, ◌||◌, List, [], ◌∷◌, ◌++◌, Option,
  none, some, ltb, leb, ◌==◌, if◌then◌else◌, length, take, drop, get_elem?, set, ◌>>=◌,
}
use ec_systemcore.Safety.Gate.{is_ok}
use ec_systemcore.Safety.Limits.{validate_whole_output_write}
use ec_systemcore.Safety.Pdo.{
  pdo_image_byte_length, pdo_mapped_byte_length, write_packed_pdo_image, zero_packed_pdo_image,
}
use ec_systemcore.Daemon.SpscQueue.{SpscQueue, try_pop}
use ec_systemcore.Daemon.Bus.{OutputCommand, maximum_output_commands}

-- The members of `ec_slavet` that the outputs need.
pub record SubDevice : Type 0 where
  pub output_bits : ℕ
  pub output_start_bit : ℕ
  pub outputs : Option ℕ
  pub last_output_command_us : ℕ
  pub stale_output : Bool

pub record Worker : Type 0 where
  pub context_open : Bool
  pub outputs_were_permitted : Bool
  pub output_command_timeout_ms : ℕ
  pub io_map : List ℕ
  pub sub_devices : List SubDevice
  pub stale_output_faults : ℕ

-- `PointerRangeInIoMap` for a pointer that is not null.
abbrev pub is_in_map : ℕ → ℕ → ℕ → Bool
is_in_map map_size begin size = leb begin map_size && leb size (map_size - begin)

abbrev pub range_in_io_map : List ℕ → ℕ → ℕ → Bool
range_in_io_map io begin size = is_in_map (length io) begin size

-- `std::span{pointer, size}`, and the map after a write through it.
abbrev pub span_of : List ℕ → ℕ → ℕ → List ℕ
span_of io begin size = take size (drop begin io)

abbrev pub write_span : List ℕ → ℕ → List ℕ → List ℕ
write_span io begin bytes = take begin io ++ (bytes ++ drop (begin + length bytes) io)

abbrev pub mapped_bytes : SubDevice → ℕ
mapped_bytes s = pdo_mapped_byte_length s.output_bits s.output_start_bit

-- `ZeroPackedPdoImage` through a pointer, where the pointer is in the map.
unfoldable pub zero_output_at : List ℕ → SubDevice → ℕ → List ℕ
zero_output_at io s begin =
    let zeroed : List ℕ =
      elim (zero_packed_pdo_image (span_of io begin (mapped_bytes s)) s.output_start_bit
        s.output_bits) [ none ↦ io | some bytes ↦ write_span io begin bytes ] in
    if range_in_io_map io begin (mapped_bytes s) then zeroed else io

abbrev pub zero_output_through : Option ℕ → List ℕ → SubDevice → List ℕ
zero_output_through none io s = io
zero_output_through (some begin) io s = zero_output_at io s begin

unfoldable pub zero_output : List ℕ → SubDevice → List ℕ
zero_output io s = zero_output_through s.outputs io s

-- The loop of `ZeroOutputs`.
unfoldable pub zero_all : List ℕ → List SubDevice → List ℕ
zero_all io [] = io
zero_all io (s ∷ rest) = zero_all (if s.output_bits == 0 then io else zero_output io s) rest

unfoldable pub zero_outputs : Worker → Worker
zero_outputs w =
    if not w.context_open then w else record w { io_map = zero_all w.io_map w.sub_devices }

-- `last == 0 || now < last || now - last > timeoutUs`
abbrev pub is_stale : ℕ → ℕ → ℕ → Bool
is_stale now timeout_us last = last == 0 || ltb now last || ltb timeout_us (now - last)

abbrev pub has_outputs : SubDevice → Bool
has_outputs s =
    not (pdo_image_byte_length s.output_bits == 0)
    && elim s.outputs [ none ↦ false | some begin ↦ true ]

-- One SubDevice in `EnforcePerSubDeviceFreshness`.
abbrev pub lapses : ℕ → ℕ → SubDevice → Bool
lapses now timeout_us s = has_outputs s && is_stale now timeout_us s.last_output_command_us

abbrev pub aged : ℕ → ℕ → SubDevice → SubDevice
aged now timeout_us s = if lapses now timeout_us s then record s { stale_output = true } else s

unfoldable pub enforce_image : ℕ → ℕ → List ℕ → List SubDevice → List ℕ
enforce_image now timeout_us io [] = io
enforce_image now timeout_us io (s ∷ rest) =
    enforce_image now timeout_us (if lapses now timeout_us s then zero_output io s else io) rest

unfoldable pub enforce_sub_devices : ℕ → ℕ → List SubDevice → List SubDevice
enforce_sub_devices now timeout_us [] = []
enforce_sub_devices now timeout_us (s ∷ rest) =
    aged now timeout_us s ∷ enforce_sub_devices now timeout_us rest

-- `staleCount`, which stops at the greatest 16-bit number.
unfoldable pub count_stale : ℕ → List SubDevice → ℕ
count_stale count [] = count
count_stale count (s ∷ rest) =
    count_stale
      (if has_outputs s && s.stale_output && not (count == 65535) then count + 1 else count) rest

unfoldable pub enforce_per_sub_device_freshness : ℕ → Bool → Worker → Worker
enforce_per_sub_device_freshness now outputs_permitted w =
    let timeout_us = w.output_command_timeout_ms * 1000 in
    let sub_devices = enforce_sub_devices now timeout_us w.sub_devices in
    if not outputs_permitted then w else record w {
      io_map = enforce_image now timeout_us w.io_map w.sub_devices;
      sub_devices = sub_devices;
      stale_output_faults = count_stale 0 sub_devices;
    }

-- What the loop of `ApplyOutputCommands` reads once, before it.
pub record Permit : Type 0 where
  pub permitted : Bool
  pub epoch : ℕ
  pub now : ℕ
  pub timeout_us : ℕ

abbrev pub permit_of : Worker → Bool → ℕ → ℕ → Permit
permit_of w permitted epoch now = record {
  permitted = permitted;
  epoch = epoch;
  now = now;
  timeout_us = w.output_command_timeout_ms * 1000;
}

-- The command is one of this epoch, for a SubDevice, and not too old.
abbrev pub is_current : Permit → OutputCommand → Bool
is_current p c =
    p.permitted
    && c.epoch == p.epoch
    && not (c.sub_device_index == 0)
    && not (is_stale p.now p.timeout_us c.accepted_monotonic_us)

-- `WritePackedPdoImage` through a pointer, where the pointer is in the map and the write fits.
unfoldable pub write_output_at : List ℕ → SubDevice → ℕ → OutputCommand → Option (List ℕ)
write_output_at io s begin c =
    let valid =
      validate_whole_output_write (pdo_image_byte_length s.output_bits) c.offset c.length in
    let written : Option (List ℕ) =
      elim (write_packed_pdo_image (span_of io begin (mapped_bytes s)) s.output_start_bit
        s.output_bits (take c.length c.image)) [
          | none ↦ none
          | some bytes ↦ some (write_span io begin bytes)
        ] in
    if range_in_io_map io begin (mapped_bytes s) && is_ok valid then written else none

abbrev pub write_output_through : Option ℕ → List ℕ → SubDevice → OutputCommand → Option (List ℕ)
write_output_through none io s c = none
write_output_through (some begin) io s c = write_output_at io s begin c

unfoldable pub write_output : List ℕ → SubDevice → OutputCommand → Option (List ℕ)
write_output io s c = write_output_through s.outputs io s c

-- One round of the loop, at the SubDevice that the command names.
unfoldable pub apply_to : Worker → ℕ → SubDevice → OutputCommand → Worker
apply_to w k s c = elim (write_output w.io_map s c) [
  | none ↦ w
  | some io ↦
      let s' = record s {
        last_output_command_us = c.accepted_monotonic_us;
        stale_output = false;
      } in
      record w { io_map = io; sub_devices = set w.sub_devices k s' }
]

unfoldable pub apply_command : Permit → Worker → OutputCommand → Worker
apply_command p w c =
    let k = c.sub_device_index - 1 in
    let applied : Worker = elim (get_elem? w.sub_devices k) [
      | none ↦ w
      | some s ↦ apply_to w k s c
    ] in
    if is_current p c then applied else w

-- When outputs become permitted, all are zero and count as commanded now.
unfoldable pub restart_ages : ℕ → List SubDevice → List SubDevice
restart_ages now [] = []
restart_ages now (s ∷ rest) =
    record s { last_output_command_us = now; stale_output = false } ∷ restart_ages now rest

unfoldable pub begin_permission : Permit → Worker → Worker
begin_permission p w =
    let zeroed = zero_outputs w in
    if p.permitted && not w.outputs_were_permitted
    then record zeroed {
      sub_devices = restart_ages p.now zeroed.sub_devices;
      outputs_were_permitted = true;
    }
    else w

module _ (initial : OutputCommand) where
  -- The loop over the queue; `none` means that the fuel ran out.
  unfoldable pub apply_queued :
      ℕ → Permit → SpscQueue OutputCommand → Worker → Option (SpscQueue OutputCommand × Worker)
  apply_queued zero p q w = none
  apply_queued (suc fuel) p q w = elim (try_pop initial maximum_output_commands q) [
    | none ↦ some (q, w)
    | some (c, q') ↦ apply_queued fuel p q' (apply_command p w c)
  ]

  unfoldable pub apply_output_commands :
      Bool → ℕ → ℕ → SpscQueue OutputCommand → Worker → Option (SpscQueue OutputCommand × Worker)
  apply_output_commands permitted epoch now q w =
      let p = permit_of w permitted epoch now in
      apply_queued (suc maximum_output_commands) p q (begin_permission p w)
