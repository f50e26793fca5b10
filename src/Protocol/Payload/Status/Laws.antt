-- ===== src/Protocol/Payload/Status/Laws.antt =====
-- The codec of the daemon's status, against its fields.
use ec_systemcore.Base.{
  ℕ, ◌^◌, ◌<◌, ◌≡◌, ◌≢◌, sym, ap, ◌∙◌, ◌↔◌, true, not, List, [], ◌∷◌, some, arith, length, take,
  drop, append-nil, ◌==◌, lt→eq_zero_false, bit_and, require-eq_some, bind-eq_some,
}
use ec_systemcore.Protocol.Bytes.{IsBytes, byte, read_le16, read_le32, read_le64}
use ec_systemcore.Protocol.Bytes.Layout.{read_le16-eq_some, read_le32-eq_some, read_le64-eq_some}
use ec_systemcore.Protocol.Bytes.Fields.{
  Field, fields_text, payload_of, length-payload_of, fields_at, fields_at-exact, first-field,
  push-field, append_le16-field, append_le32-field, append_le64-field, byte-field, read_le16-field,
  read_le32-field, read_le64-field,
}
use ec_systemcore.Protocol.Enums.{
  scheduling_mode_code, scheduling_mode_of_code, is_known_scheduling_mode, bus_state_of_code,
  is_known_bus_state, scheduling_mode_code-of_code, scheduling_mode_of_code-code,
}
use ec_systemcore.Protocol.Payload.Status.{
  StatusPayload, encode_status_payload, decode_status_payload,
}

abbrev status_fields : StatusPayload → List Field
status_fields h =
    (1, h.aggregate_state)
    ∷ (1, h.flags)
    ∷ (2, h.active_adapters)
    ∷ (2, h.sub_devices)
    ∷ (2, h.active_faults)
    ∷ (4, h.maximum_jitter_us)
    ∷ (4, h.current_jitter_us)
    ∷ (8, h.lost_frames)
    ∷ (8, h.cycle_overruns)
    ∷ (8, h.epoch)
    ∷ (4, h.controller_pid)
    ∷ (2, h.configured_buses)
    ∷ (1, scheduling_mode_code h.scheduling_mode)
    ∷ (1, h.realtime_error_bits)
    ∷ (8, h.monotonic_timestamp_us)
    ∷ []

-- The ranges of the fields' C++ types.
pub record StatusFits (h : StatusPayload) : Type 0 where
  pub aggregate_state_fits : h.aggregate_state < 256
  pub flags_fits : h.flags < 256
  pub active_adapters_fits : h.active_adapters < 2 ^ 16
  pub sub_devices_fits : h.sub_devices < 2 ^ 16
  pub active_faults_fits : h.active_faults < 2 ^ 16
  pub maximum_jitter_us_fits : h.maximum_jitter_us < 2 ^ 32
  pub current_jitter_us_fits : h.current_jitter_us < 2 ^ 32
  pub lost_frames_fits : h.lost_frames < 2 ^ 64
  pub cycle_overruns_fits : h.cycle_overruns < 2 ^ 64
  pub epoch_fits : h.epoch < 2 ^ 64
  pub controller_pid_fits : h.controller_pid < 2 ^ 32
  pub configured_buses_fits : h.configured_buses < 2 ^ 16
  pub scheduling_mode_fits : scheduling_mode_code h.scheduling_mode < 256
  pub realtime_error_bits_fits : h.realtime_error_bits < 256
  pub monotonic_timestamp_us_fits : h.monotonic_timestamp_us < 2 ^ 64

module _ (h : StatusPayload) (v : StatusFits h) where
  status-byte_0 : h.aggregate_state < 256
  status-byte_0 = ground arith

  status-byte_1 : h.flags < 256
  status-byte_1 = ground arith

  status-byte_12 : scheduling_mode_code h.scheduling_mode < 256
  status-byte_12 = ground arith

  status-byte_13 : h.realtime_error_bits < 256
  status-byte_13 = ground arith

  status_encode-fields :
      is_known_bus_state (bus_state_of_code h.aggregate_state) ≡ true
      → 0 < h.epoch
      → is_known_scheduling_mode h.scheduling_mode ≡ true
      → (bit_and h.realtime_error_bits 128 == 0) ≡ true
      → encode_status_payload h ≡ fields_text (status_fields h)
  unfolding encode_status_payload
  status_encode-fields c0 c1 c2 c3 =
      rw (c0, lt→eq_zero_false h.epoch c1, c2, c3)
        (cc (
          first-field (h.aggregate_state) status-byte_0,
          push-field (take 1 (status_fields h)) (h.flags) status-byte_1,
          append_le16-field (take 2 (status_fields h)) (h.active_adapters),
          append_le16-field (take 3 (status_fields h)) (h.sub_devices),
          append_le16-field (take 4 (status_fields h)) (h.active_faults),
          append_le32-field (take 5 (status_fields h)) (h.maximum_jitter_us),
          append_le32-field (take 6 (status_fields h)) (h.current_jitter_us),
          append_le64-field (take 7 (status_fields h)) (h.lost_frames),
          append_le64-field (take 8 (status_fields h)) (h.cycle_overruns),
          append_le64-field (take 9 (status_fields h)) (h.epoch),
          append_le32-field (take 10 (status_fields h)) (h.controller_pid),
          append_le16-field (take 11 (status_fields h)) (h.configured_buses),
          push-field (take 12 (status_fields h)) (scheduling_mode_code h.scheduling_mode)
              status-byte_12,
          push-field (take 13 (status_fields h)) (h.realtime_error_bits) status-byte_13,
          append_le64-field (take 14 (status_fields h)) (h.monotonic_timestamp_us),
        ))

  status_encode-ne_nil :
      encode_status_payload h ≢ []
      → (is_known_bus_state (bus_state_of_code h.aggregate_state) ≡ true)
        × (0 < h.epoch)
        × (is_known_scheduling_mode h.scheduling_mode ≡ true)
        × ((bit_and h.realtime_error_bits 128 == 0) ≡ true)
  unfolding encode_status_payload
  status_encode-ne_nil ne = ground arith

  status_decode-fields :
      is_known_bus_state (bus_state_of_code h.aggregate_state) ≡ true
      → 0 < h.epoch
      → is_known_scheduling_mode h.scheduling_mode ≡ true
      → (bit_and h.realtime_error_bits 128 == 0) ≡ true
      → decode_status_payload (payload_of (status_fields h) []) ≡ some h
  unfolding decode_status_payload
  status_decode-fields c0 c1 c2 c3 = ground (
    arith,
    length-payload_of (status_fields h) [],
    byte-field [] (h.aggregate_state) (drop 1 (status_fields h)) [] tt status-byte_0,
    byte-field (take 1 (status_fields h)) (h.flags) (drop 2 (status_fields h)) [] tt status-byte_1,
    read_le16-field (take 2 (status_fields h)) (h.active_adapters) (drop 3 (status_fields h)) [] tt
        v.active_adapters_fits,
    read_le16-field (take 3 (status_fields h)) (h.sub_devices) (drop 4 (status_fields h)) [] tt
        v.sub_devices_fits,
    read_le16-field (take 4 (status_fields h)) (h.active_faults) (drop 5 (status_fields h)) [] tt
        v.active_faults_fits,
    read_le32-field (take 5 (status_fields h)) (h.maximum_jitter_us) (drop 6 (status_fields h)) []
        tt v.maximum_jitter_us_fits,
    read_le32-field (take 6 (status_fields h)) (h.current_jitter_us) (drop 7 (status_fields h)) []
        tt v.current_jitter_us_fits,
    read_le64-field (take 7 (status_fields h)) (h.lost_frames) (drop 8 (status_fields h)) [] tt
        v.lost_frames_fits,
    read_le64-field (take 8 (status_fields h)) (h.cycle_overruns) (drop 9 (status_fields h)) [] tt
        v.cycle_overruns_fits,
    read_le64-field (take 9 (status_fields h)) (h.epoch) (drop 10 (status_fields h)) [] tt
        v.epoch_fits,
    read_le32-field (take 10 (status_fields h)) (h.controller_pid) (drop 11 (status_fields h)) [] tt
        v.controller_pid_fits,
    read_le16-field (take 11 (status_fields h)) (h.configured_buses) (drop 12 (status_fields h)) []
        tt v.configured_buses_fits,
    byte-field (take 12 (status_fields h)) (scheduling_mode_code h.scheduling_mode)
        (drop 13 (status_fields h)) [] tt status-byte_12,
    byte-field (take 13 (status_fields h)) (h.realtime_error_bits) (drop 14 (status_fields h)) [] tt
        status-byte_13,
    read_le64-field (take 14 (status_fields h)) (h.monotonic_timestamp_us) [] [] tt
        v.monotonic_timestamp_us_fits,
    scheduling_mode_of_code-code h.scheduling_mode c2,
  )

  status_decode-reads :
      (p : List ℕ)
      → decode_status_payload p ≡ some h
      → (length p ≡ 56)
        × (byte p 0 ≡ h.aggregate_state)
        × (byte p 1 ≡ h.flags)
        × (read_le16 p 2 ≡ some (h.active_adapters))
        × (read_le16 p 4 ≡ some (h.sub_devices))
        × (read_le16 p 6 ≡ some (h.active_faults))
        × (read_le32 p 8 ≡ some (h.maximum_jitter_us))
        × (read_le32 p 12 ≡ some (h.current_jitter_us))
        × (read_le64 p 16 ≡ some (h.lost_frames))
        × (read_le64 p 24 ≡ some (h.cycle_overruns))
        × (read_le64 p 32 ≡ some (h.epoch))
        × (read_le32 p 40 ≡ some (h.controller_pid))
        × (read_le16 p 44 ≡ some (h.configured_buses))
        × (byte p 46 ≡ scheduling_mode_code h.scheduling_mode)
        × (byte p 47 ≡ h.realtime_error_bits)
        × (read_le64 p 48 ≡ some (h.monotonic_timestamp_us))
        × (is_known_bus_state (bus_state_of_code h.aggregate_state) ≡ true)
        × (0 < h.epoch)
        × (is_known_scheduling_mode h.scheduling_mode ≡ true)
        × ((bit_and h.realtime_error_bits 128 == 0) ≡ true)
  unfolding decode_status_payload
  status_decode-reads p e =
      let s0 = require-eq_some {b = length p == 56} e in
      let s1 = bind-eq_some {m = read_le16 p 2} s0.1 in
      let s2 = bind-eq_some {m = read_le16 p 4} s1.2 in
      let s3 = bind-eq_some {m = read_le16 p 6} s2.2 in
      let s4 = bind-eq_some {m = read_le32 p 8} s3.2 in
      let s5 = bind-eq_some {m = read_le32 p 12} s4.2 in
      let s6 = bind-eq_some {m = read_le64 p 16} s5.2 in
      let s7 = bind-eq_some {m = read_le64 p 24} s6.2 in
      let s8 = bind-eq_some {m = read_le64 p 32} s7.2 in
      let s9 = bind-eq_some {m = read_le32 p 40} s8.2 in
      let s10 = bind-eq_some {m = read_le16 p 44} s9.2 in
      let s11 = bind-eq_some {m = read_le64 p 48} s10.2 in
      let s12 = require-eq_some {b = is_known_bus_state (bus_state_of_code (byte p 0))} s11.2 in
      let s13 = require-eq_some {b = not (s8.0 == 0)} s12.1 in
      let s14 =
        require-eq_some {b = is_known_scheduling_mode (scheduling_mode_of_code (byte p 46))}
          s13.1 in
      let s15 = require-eq_some {b = bit_and (byte p 47) 128 == 0} s14.1 in
      let last = s15.1 in ground (arith, scheduling_mode_code-of_code (byte p 46))

  status_decode-facts :
      (p : List ℕ)
      → IsBytes p
      → decode_status_payload p ≡ some h
      → (length p ≡ 56)
        × (fields_at (1 ∷ 1 ∷ 2 ∷ 2 ∷ 2 ∷ 4 ∷ 4 ∷ 8 ∷ 8 ∷ 8 ∷ 4 ∷ 2 ∷ 1 ∷ 1 ∷ 8 ∷ []) p 0
            ≡ status_fields h)
        × (is_known_bus_state (bus_state_of_code h.aggregate_state) ≡ true)
        × (0 < h.epoch)
        × (is_known_scheduling_mode h.scheduling_mode ≡ true)
        × ((bit_and h.realtime_error_bits 128 == 0) ≡ true)
  status_decode-facts p bytes e =
      let reads = status_decode-reads p e in
      (
        reads.0,
        ground (
          arith,
          reads.1,
          reads.2,
          (read_le16-eq_some p 2 (h.active_adapters) bytes reads.3).1,
          (read_le16-eq_some p 4 (h.sub_devices) bytes reads.4).1,
          (read_le16-eq_some p 6 (h.active_faults) bytes reads.5).1,
          (read_le32-eq_some p 8 (h.maximum_jitter_us) bytes reads.6).1,
          (read_le32-eq_some p 12 (h.current_jitter_us) bytes reads.7).1,
          (read_le64-eq_some p 16 (h.lost_frames) bytes reads.8).1,
          (read_le64-eq_some p 24 (h.cycle_overruns) bytes reads.9).1,
          (read_le64-eq_some p 32 (h.epoch) bytes reads.10).1,
          (read_le32-eq_some p 40 (h.controller_pid) bytes reads.11).1,
          (read_le16-eq_some p 44 (h.configured_buses) bytes reads.12).1,
          reads.13,
          reads.14,
          (read_le64-eq_some p 48 (h.monotonic_timestamp_us) bytes reads.15).1,
        ),
        reads.16,
        reads.17,
        reads.18,
        reads.19,
      )

  -- For a value whose fields fit their C++ types and a list of bytes, the decoder gives the value
  -- exactly when the bytes are not empty and are what the encoder writes for it.
  pub decode_status_payload_iff :
      (p : List ℕ)
      → IsBytes p
      → (decode_status_payload p ≡ some h) ↔ ((encode_status_payload h ≡ p) × (p ≢ []))
  decode_status_payload_iff p bytes = (
    λ e.
        let facts = status_decode-facts p bytes e in
        (
          status_encode-fields facts.2 facts.3 facts.4 facts.5
              ∙ ap fields_text (sym facts.1)
              ∙ sym (
                  fields_at-exact (1 ∷ 1 ∷ 2 ∷ 2 ∷ 2 ∷ 4 ∷ 4 ∷ 8 ∷ 8 ∷ 8 ∷ 4 ∷ 2 ∷ 1 ∷ 1 ∷ 8 ∷ []) p
                    bytes facts.0),
          λ nil. omega (arith, facts.0, ap length nil),
        ),
    λ e.
        let range = status_encode-ne_nil (λ nil. e.1 (sym e.0 ∙ nil)) in
        rw
          (
            ← e.0,
            status_encode-fields range.0 range.1 range.2 range.3,
            ← append-nil (fields_text (status_fields h)),
          )
          (status_decode-fields range.0 range.1 range.2 range.3),
  )
