-- ===== src/Protocol/Payload/PdoInput/Laws.antt =====
-- The codec of a chunk of inputs, against its fields and the bytes behind them.
use ec_systemcore.Base.{
  ℕ, ◌+◌, ◌^◌, ◌≤◌, ◌<◌, ◌≡◌, ◌≢◌, sym, ap, ap₂, ◌∙◌, ◌↔◌, true, false, not, List, [], ◌∷◌, Option,
  some, arith, length, take, drop, leb, le→ltb_false, ◌==◌, lt→eq_zero_false, is_empty, ◌-◌,
  length-drop, require-eq_some, bind-eq_some,
}
use ec_systemcore.Protocol.Bytes.{IsBytes, read_le16, read_le32, read_le64}
use ec_systemcore.Protocol.Bytes.Layout.{read_le16-eq_some, read_le32-eq_some, read_le64-eq_some}
use ec_systemcore.Protocol.Bytes.Fields.{
  Field, payload_of, length-payload_of, fields_at, fields_text-nil, drop-payload_of, drop-fields_at,
  append_le16-field, append_le32-field, append_le64-field, read_le16-field, read_le32-field,
  read_le64-field,
}
use ec_systemcore.Protocol.Limits.{maximum_pdo_image}
use ec_systemcore.Protocol.Payload.PdoInput.{
  PdoInputPayload, encode_pdo_input_payload, decode_pdo_input_payload,
}

abbrev pdo_input_fields : PdoInputPayload → List Field
pdo_input_fields h =
    (2, h.bus_index)
    ∷ (2, h.sub_device_index)
    ∷ (4, h.offset)
    ∷ (4, h.total_size)
    ∷ (2, length h.bytes)
    ∷ (2, 0)
    ∷ (8, h.epoch)
    ∷ (8, h.cycle_sequence)
    ∷ []

-- The ranges of the fields' C++ types.
pub record PdoInputFits (h : PdoInputPayload) : Type 0 where
  pub bus_fits : h.bus_index < 2 ^ 16
  pub sub_device_fits : h.sub_device_index < 2 ^ 16
  pub offset_fits : h.offset < 2 ^ 32
  pub total_fits : h.total_size < 2 ^ 32
  pub epoch_fits : h.epoch < 2 ^ 64
  pub sequence_fits : h.cycle_sequence < 2 ^ 64
  pub bytes_fit : IsBytes h.bytes

-- A chunk by its fields.
abbrev pdo_input_of : ℕ → ℕ → ℕ → ℕ → ℕ → ℕ → List ℕ → PdoInputPayload
pdo_input_of bus sub_device offset total epoch sequence bytes = record {
  bus_index = bus;
  sub_device_index = sub_device;
  offset = offset;
  total_size = total;
  epoch = epoch;
  cycle_sequence = sequence;
  bytes = bytes;
}

module _ (h : PdoInputPayload) (v : PdoInputFits h) where
  pdo_input_encode-fields :
      0 < h.sub_device_index
      → 0 < h.epoch
      → 0 < h.cycle_sequence
      → 0 < h.total_size
      → is_empty h.bytes ≡ false
      → length h.bytes ≤ 1024
      → h.total_size ≤ 1048576
      → h.offset ≤ h.total_size
      → length h.bytes ≤ h.total_size - h.offset
      → encode_pdo_input_payload h ≡ payload_of (pdo_input_fields h) h.bytes
  unfolding encode_pdo_input_payload
  pdo_input_encode-fields c0 c1 c2 c3 c4 c5 c6 c7 c8 =
      rw
        (
          lt→eq_zero_false h.sub_device_index c0,
          lt→eq_zero_false h.epoch c1,
          lt→eq_zero_false h.cycle_sequence c2,
          lt→eq_zero_false h.total_size c3,
          c4,
          le→ltb_false (length h.bytes) (1024) c5,
          le→ltb_false (h.total_size) (1048576) c6,
          le→ltb_false (h.offset) (h.total_size) c7,
          le→ltb_false (length h.bytes) (h.total_size - h.offset) c8,
        )
        (cc (
          fields_text-nil,
          append_le16-field (take 0 (pdo_input_fields h)) (h.bus_index),
          append_le16-field (take 1 (pdo_input_fields h)) (h.sub_device_index),
          append_le32-field (take 2 (pdo_input_fields h)) (h.offset),
          append_le32-field (take 3 (pdo_input_fields h)) (h.total_size),
          append_le16-field (take 4 (pdo_input_fields h)) (length h.bytes),
          append_le16-field (take 5 (pdo_input_fields h)) (0),
          append_le64-field (take 6 (pdo_input_fields h)) (h.epoch),
          append_le64-field (take 7 (pdo_input_fields h)) (h.cycle_sequence),
        ))

  pdo_input_encode-ne_nil :
      encode_pdo_input_payload h ≢ []
      → (0 < h.sub_device_index)
        × (0 < h.epoch)
        × (0 < h.cycle_sequence)
        × (0 < h.total_size)
        × (is_empty h.bytes ≡ false)
        × (length h.bytes ≤ 1024)
        × (h.total_size ≤ 1048576)
        × (h.offset ≤ h.total_size)
        × (length h.bytes ≤ h.total_size - h.offset)
  unfolding encode_pdo_input_payload
  pdo_input_encode-ne_nil ne = ground arith

  pdo_input_decode-fields :
      0 < h.sub_device_index
      → 0 < h.epoch
      → 0 < h.cycle_sequence
      → 0 < h.total_size
      → is_empty h.bytes ≡ false
      → length h.bytes ≤ 1024
      → h.total_size ≤ 1048576
      → h.offset ≤ h.total_size
      → length h.bytes ≤ h.total_size - h.offset
      → decode_pdo_input_payload maximum_pdo_image (payload_of (pdo_input_fields h) h.bytes)
        ≡ some h
  unfolding decode_pdo_input_payload
  pdo_input_decode-fields c0 c1 c2 c3 c4 c5 c6 c7 c8 = ground (
    arith,
    length-payload_of (pdo_input_fields h) h.bytes,
    drop-payload_of (pdo_input_fields h) h.bytes,
    read_le16-field [] (h.bus_index) (drop 1 (pdo_input_fields h)) h.bytes v.bytes_fit v.bus_fits,
    read_le16-field (take 1 (pdo_input_fields h)) (h.sub_device_index) (drop 2 (pdo_input_fields h))
        h.bytes v.bytes_fit v.sub_device_fits,
    read_le32-field (take 2 (pdo_input_fields h)) (h.offset) (drop 3 (pdo_input_fields h)) h.bytes
        v.bytes_fit v.offset_fits,
    read_le32-field (take 3 (pdo_input_fields h)) (h.total_size) (drop 4 (pdo_input_fields h))
        h.bytes v.bytes_fit v.total_fits,
    read_le16-field (take 4 (pdo_input_fields h)) (length h.bytes) (drop 5 (pdo_input_fields h))
        h.bytes v.bytes_fit (omega arith),
    read_le16-field (take 5 (pdo_input_fields h)) (0) (drop 6 (pdo_input_fields h)) h.bytes
        v.bytes_fit (omega arith),
    read_le64-field (take 6 (pdo_input_fields h)) (h.epoch) (drop 7 (pdo_input_fields h)) h.bytes
        v.bytes_fit v.epoch_fits,
    read_le64-field (take 7 (pdo_input_fields h)) (h.cycle_sequence) [] h.bytes v.bytes_fit
        v.sequence_fits,
  )

  pdo_input_read :
      (p : List ℕ) (b s o t n z e q : ℕ)
      → read_le16 p 0 ≡ some b
      → read_le16 p 2 ≡ some s
      → read_le32 p 4 ≡ some o
      → read_le32 p 8 ≡ some t
      → read_le16 p 12 ≡ some n
      → read_le16 p 14 ≡ some z
      → (z == 0) ≡ true
      → read_le64 p 16 ≡ some e
      → read_le64 p 24 ≡ some q
      → not (s == 0) ≡ true
      → not (e == 0) ≡ true
      → not (q == 0) ≡ true
      → not (t == 0) ≡ true
      → not (n == 0) ≡ true
      → leb n 1024 ≡ true
      → leb t maximum_pdo_image ≡ true
      → leb o t ≡ true
      → leb n (t - o) ≡ true
      → (length p == 32 + n) ≡ true
      → Option.some (pdo_input_of b s o t e q (drop 32 p)) ≡ some h
      → (length p ≡ 32 + length h.bytes)
        × (read_le16 p 0 ≡ some (h.bus_index))
        × (read_le16 p 2 ≡ some (h.sub_device_index))
        × (read_le32 p 4 ≡ some (h.offset))
        × (read_le32 p 8 ≡ some (h.total_size))
        × (read_le16 p 12 ≡ some (length h.bytes))
        × (read_le16 p 14 ≡ some (0))
        × (read_le64 p 16 ≡ some (h.epoch))
        × (read_le64 p 24 ≡ some (h.cycle_sequence))
        × (0 < h.sub_device_index)
        × (0 < h.epoch)
        × (0 < h.cycle_sequence)
        × (0 < h.total_size)
        × (is_empty h.bytes ≡ false)
        × (length h.bytes ≤ 1024)
        × (h.total_size ≤ 1048576)
        × (h.offset ≤ h.total_size)
        × (length h.bytes ≤ h.total_size - h.offset)
        × (drop 32 p ≡ h.bytes)
  pdo_input_read p b s o t n z e q h0 h1 h2 h3 h4 h5 h6 h7 h8 h9 h10 h11 h12 h13 h14 h15 h16 h17 h18
        h19 =
      ground (arith, length-drop 32 p)

  pdo_input_decode-reads :
      (p : List ℕ)
      → decode_pdo_input_payload maximum_pdo_image p ≡ some h
      → (length p ≡ 32 + length h.bytes)
        × (read_le16 p 0 ≡ some (h.bus_index))
        × (read_le16 p 2 ≡ some (h.sub_device_index))
        × (read_le32 p 4 ≡ some (h.offset))
        × (read_le32 p 8 ≡ some (h.total_size))
        × (read_le16 p 12 ≡ some (length h.bytes))
        × (read_le16 p 14 ≡ some (0))
        × (read_le64 p 16 ≡ some (h.epoch))
        × (read_le64 p 24 ≡ some (h.cycle_sequence))
        × (0 < h.sub_device_index)
        × (0 < h.epoch)
        × (0 < h.cycle_sequence)
        × (0 < h.total_size)
        × (is_empty h.bytes ≡ false)
        × (length h.bytes ≤ 1024)
        × (h.total_size ≤ 1048576)
        × (h.offset ≤ h.total_size)
        × (length h.bytes ≤ h.total_size - h.offset)
        × (drop 32 p ≡ h.bytes)
  unfolding decode_pdo_input_payload
  pdo_input_decode-reads p e =
      let s0 = require-eq_some {b = leb 32 (length p)} e in
      let s1 = bind-eq_some {m = read_le16 p 0} s0.1 in
      let s2 = bind-eq_some {m = read_le16 p 2} s1.2 in
      let s3 = bind-eq_some {m = read_le32 p 4} s2.2 in
      let s4 = bind-eq_some {m = read_le32 p 8} s3.2 in
      let s5 = bind-eq_some {m = read_le16 p 12} s4.2 in
      let s6 = bind-eq_some {m = read_le16 p 14} s5.2 in
      let s7 = require-eq_some {b = s6.0 == 0} s6.2 in
      let s8 = bind-eq_some {m = read_le64 p 16} s7.1 in
      let s9 = bind-eq_some {m = read_le64 p 24} s8.2 in
      let s10 = require-eq_some {b = not (s2.0 == 0)} s9.2 in
      let s11 = require-eq_some {b = not (s8.0 == 0)} s10.1 in
      let s12 = require-eq_some {b = not (s9.0 == 0)} s11.1 in
      let s13 = require-eq_some {b = not (s4.0 == 0)} s12.1 in
      let s14 = require-eq_some {b = not (s5.0 == 0)} s13.1 in
      let s15 = require-eq_some {b = leb s5.0 1024} s14.1 in
      let s16 = require-eq_some {b = leb s4.0 maximum_pdo_image} s15.1 in
      let s17 = require-eq_some {b = leb s3.0 s4.0} s16.1 in
      let s18 = require-eq_some {b = leb s5.0 (s4.0 - s3.0)} s17.1 in
      let s19 = require-eq_some {b = length p == 32 + s5.0} s18.1 in
      pdo_input_read p s1.0 s2.0 s3.0 s4.0 s5.0 s6.0 s8.0 s9.0 s1.1 s2.1 s3.1 s4.1 s5.1 s6.1 s7.0
        s8.1 s9.1 s10.0 s11.0 s12.0 s13.0 s14.0 s15.0 s16.0 s17.0 s18.0 s19.0 s19.1

  pdo_input_decode-facts :
      (p : List ℕ)
      → IsBytes p
      → decode_pdo_input_payload maximum_pdo_image p ≡ some h
      → (length p ≡ 32 + length h.bytes)
        × (fields_at (2 ∷ 2 ∷ 4 ∷ 4 ∷ 2 ∷ 2 ∷ 8 ∷ 8 ∷ []) p 0 ≡ pdo_input_fields h)
        × (0 < h.sub_device_index)
        × (0 < h.epoch)
        × (0 < h.cycle_sequence)
        × (0 < h.total_size)
        × (is_empty h.bytes ≡ false)
        × (length h.bytes ≤ 1024)
        × (h.total_size ≤ 1048576)
        × (h.offset ≤ h.total_size)
        × (length h.bytes ≤ h.total_size - h.offset)
        × (drop 32 p ≡ h.bytes)
  pdo_input_decode-facts p bytes e =
      let reads = pdo_input_decode-reads p e in
      (
        reads.0,
        ground (
          arith,
          (read_le16-eq_some p 0 (h.bus_index) bytes reads.1).1,
          (read_le16-eq_some p 2 (h.sub_device_index) bytes reads.2).1,
          (read_le32-eq_some p 4 (h.offset) bytes reads.3).1,
          (read_le32-eq_some p 8 (h.total_size) bytes reads.4).1,
          (read_le16-eq_some p 12 (length h.bytes) bytes reads.5).1,
          (read_le16-eq_some p 14 (0) bytes reads.6).1,
          (read_le64-eq_some p 16 (h.epoch) bytes reads.7).1,
          (read_le64-eq_some p 24 (h.cycle_sequence) bytes reads.8).1,
        ),
        reads.9,
        reads.10,
        reads.11,
        reads.12,
        reads.13,
        reads.14,
        reads.15,
        reads.16,
        reads.17,
        reads.18,
      )

  -- For a value whose fields fit their C++ types and a list of bytes, the decoder with its default
  -- maximum gives the value exactly when the bytes are not empty and are what the encoder writes.
  pub decode_pdo_input_payload_iff :
      (p : List ℕ)
      → IsBytes p
      → (decode_pdo_input_payload maximum_pdo_image p ≡ some h)
        ↔ ((encode_pdo_input_payload h ≡ p) × (p ≢ []))
  decode_pdo_input_payload_iff p bytes = (
    λ e.
        let facts = pdo_input_decode-facts p bytes e in
        (
          pdo_input_encode-fields facts.2 facts.3 facts.4 facts.5 facts.6 facts.7 facts.8 facts.9
                facts.10
              ∙ ap₂ payload_of (sym facts.1) (sym facts.11)
              ∙ sym (
                  drop-fields_at (2 ∷ 2 ∷ 4 ∷ 4 ∷ 2 ∷ 2 ∷ 8 ∷ 8 ∷ []) p 0 bytes
                    (omega (arith, facts.0))),
          λ nil. omega (arith, facts.0, ap length nil),
        ),
    λ e.
        let range = pdo_input_encode-ne_nil (λ nil. e.1 (sym e.0 ∙ nil)) in
        rw
          (
            ← e.0,
            pdo_input_encode-fields range.0 range.1 range.2 range.3 range.4 range.5 range.6 range.7
                range.8,
          )
          (pdo_input_decode-fields range.0 range.1 range.2 range.3 range.4 range.5 range.6 range.7
            range.8),
  )
