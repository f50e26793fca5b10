-- ===== src/Protocol/Payload/OutputWrite/Laws.antt =====
-- The codec of an output write, against its fields and the bytes behind them.
use ec_systemcore.Base.{
  ℕ, ◌+◌, ◌^◌, ◌≤◌, ◌<◌, ◌≡◌, ◌≢◌, sym, ap, ap₂, ◌∙◌, ◌↔◌, false, List, [], ◌∷◌, some, arith,
  length, take, drop, le→ltb_false, lt→eq_zero_false, is_empty, length-drop,
}
use ec_systemcore.Protocol.Bytes.{IsBytes, read_le16, read_le32, read_le64}
use ec_systemcore.Protocol.Bytes.Layout.{read_le16-eq_some, read_le32-eq_some, read_le64-eq_some}
use ec_systemcore.Protocol.Bytes.Fields.{
  Field, payload_of, length-payload_of, fields_at, fields_text-nil, drop-payload_of, drop-fields_at,
  append_le16-field, append_le32-field, append_le64-field, read_le16-field, read_le32-field,
  read_le64-field,
}
use ec_systemcore.Protocol.Payload.OutputWrite.{
  OutputWritePayload, encode_output_write_payload, decode_output_write_payload,
}

abbrev output_write_fields : OutputWritePayload → List Field
output_write_fields h =
    (8, h.epoch)
    ∷ (2, h.bus_index)
    ∷ (2, h.sub_device_index)
    ∷ (4, h.offset)
    ∷ (2, length h.bytes)
    ∷ (2, 0)
    ∷ []

-- The ranges of the fields' C++ types.
pub record OutputWriteFits (h : OutputWritePayload) : Type 0 where
  pub epoch_fits : h.epoch < 2 ^ 64
  pub bus_fits : h.bus_index < 2 ^ 16
  pub sub_device_fits : h.sub_device_index < 2 ^ 16
  pub offset_fits : h.offset < 2 ^ 32
  pub bytes_fit : IsBytes h.bytes

module _ (h : OutputWritePayload) (v : OutputWriteFits h) where
  output_write_encode-fields :
      0 < h.epoch
      → 0 < h.sub_device_index
      → is_empty h.bytes ≡ false
      → length h.bytes ≤ 1024
      → encode_output_write_payload h ≡ payload_of (output_write_fields h) h.bytes
  unfolding encode_output_write_payload
  output_write_encode-fields c0 c1 c2 c3 =
      rw
        (
          lt→eq_zero_false h.epoch c0,
          lt→eq_zero_false h.sub_device_index c1,
          c2,
          le→ltb_false (length h.bytes) 1024 c3,
        )
        (cc (
          fields_text-nil,
          append_le64-field (take 0 (output_write_fields h)) (h.epoch),
          append_le16-field (take 1 (output_write_fields h)) (h.bus_index),
          append_le16-field (take 2 (output_write_fields h)) (h.sub_device_index),
          append_le32-field (take 3 (output_write_fields h)) (h.offset),
          append_le16-field (take 4 (output_write_fields h)) (length h.bytes),
          append_le16-field (take 5 (output_write_fields h)) (0),
        ))

  output_write_encode-ne_nil :
      encode_output_write_payload h ≢ []
      → (0 < h.epoch)
        × (0 < h.sub_device_index)
        × (is_empty h.bytes ≡ false)
        × (length h.bytes ≤ 1024)
  unfolding encode_output_write_payload
  output_write_encode-ne_nil ne = ground arith

  output_write_decode-fields :
      0 < h.epoch
      → 0 < h.sub_device_index
      → is_empty h.bytes ≡ false
      → length h.bytes ≤ 1024
      → decode_output_write_payload (payload_of (output_write_fields h) h.bytes) ≡ some h
  unfolding decode_output_write_payload
  output_write_decode-fields c0 c1 c2 c3 = ground (
    arith,
    length-payload_of (output_write_fields h) h.bytes,
    drop-payload_of (output_write_fields h) h.bytes,
    read_le64-field [] (h.epoch) (drop 1 (output_write_fields h)) h.bytes v.bytes_fit v.epoch_fits,
    read_le16-field (take 1 (output_write_fields h)) (h.bus_index) (drop 2 (output_write_fields h))
        h.bytes v.bytes_fit v.bus_fits,
    read_le16-field (take 2 (output_write_fields h)) (h.sub_device_index)
        (drop 3 (output_write_fields h)) h.bytes v.bytes_fit v.sub_device_fits,
    read_le32-field (take 3 (output_write_fields h)) (h.offset) (drop 4 (output_write_fields h))
        h.bytes v.bytes_fit v.offset_fits,
    read_le16-field (take 4 (output_write_fields h)) (length h.bytes)
        (drop 5 (output_write_fields h)) h.bytes v.bytes_fit (omega arith),
    read_le16-field (take 5 (output_write_fields h)) (0) [] h.bytes v.bytes_fit (omega arith),
  )

  output_write_decode-reads :
      (p : List ℕ)
      → decode_output_write_payload p ≡ some h
      → (length p ≡ 20 + length h.bytes)
        × (read_le64 p 0 ≡ some (h.epoch))
        × (read_le16 p 8 ≡ some (h.bus_index))
        × (read_le16 p 10 ≡ some (h.sub_device_index))
        × (read_le32 p 12 ≡ some (h.offset))
        × (read_le16 p 16 ≡ some (length h.bytes))
        × (read_le16 p 18 ≡ some (0))
        × (0 < h.epoch)
        × (0 < h.sub_device_index)
        × (is_empty h.bytes ≡ false)
        × (length h.bytes ≤ 1024)
        × (drop 20 p ≡ h.bytes)
  unfolding decode_output_write_payload
  output_write_decode-reads p e = ground (arith, length-drop 20 p) steps 60000000

  output_write_decode-facts :
      (p : List ℕ)
      → IsBytes p
      → decode_output_write_payload p ≡ some h
      → (length p ≡ 20 + length h.bytes)
        × (fields_at (8 ∷ 2 ∷ 2 ∷ 4 ∷ 2 ∷ 2 ∷ []) p 0 ≡ output_write_fields h)
        × (0 < h.epoch)
        × (0 < h.sub_device_index)
        × (is_empty h.bytes ≡ false)
        × (length h.bytes ≤ 1024)
        × (drop 20 p ≡ h.bytes)
  output_write_decode-facts p bytes e =
      let reads = output_write_decode-reads p e in
      (
        reads.0,
        ground (
          arith,
          (read_le64-eq_some p 0 (h.epoch) bytes reads.1).1,
          (read_le16-eq_some p 8 (h.bus_index) bytes reads.2).1,
          (read_le16-eq_some p 10 (h.sub_device_index) bytes reads.3).1,
          (read_le32-eq_some p 12 (h.offset) bytes reads.4).1,
          (read_le16-eq_some p 16 (length h.bytes) bytes reads.5).1,
          (read_le16-eq_some p 18 (0) bytes reads.6).1,
        ),
        reads.7,
        reads.8,
        reads.9,
        reads.10,
        reads.11,
      )

  -- For a value whose fields fit their C++ types and a list of bytes, the decoder gives the value
  -- exactly when the bytes are not empty and are what the encoder writes for it.
  pub decode_output_write_payload_iff :
      (p : List ℕ)
      → IsBytes p
      → (decode_output_write_payload p ≡ some h) ↔ ((encode_output_write_payload h ≡ p) × (p ≢ []))
  decode_output_write_payload_iff p bytes = (
    λ e.
        let facts = output_write_decode-facts p bytes e in
        (
          output_write_encode-fields facts.2 facts.3 facts.4 facts.5
              ∙ ap₂ payload_of (sym facts.1) (sym facts.6)
              ∙ sym
                  (drop-fields_at (8 ∷ 2 ∷ 2 ∷ 4 ∷ 2 ∷ 2 ∷ []) p 0 bytes (omega (arith, facts.0))),
          λ nil. omega (arith, facts.0, ap length nil),
        ),
    λ e.
        let range = output_write_encode-ne_nil (λ nil. e.1 (sym e.0 ∙ nil)) in
        rw (← e.0, output_write_encode-fields range.0 range.1 range.2 range.3)
          (output_write_decode-fields range.0 range.1 range.2 range.3),
  )
