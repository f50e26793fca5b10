-- ===== src/Protocol/Payload/Ack/Laws.antt =====
-- The codec of an acknowledgement, against its fields.
use ec_systemcore.Base.{
  ℕ, ◌^◌, ◌<◌, ◌≡◌, ◌≢◌, sym, ap, ◌∙◌, ◌↔◌, true, List, [], ◌∷◌, some, arith, length, take, drop,
  append-nil, ◌==◌, require-eq_some, bind-eq_some,
}
use ec_systemcore.Protocol.Bytes.{IsBytes, read_le16, read_le32}
use ec_systemcore.Protocol.Bytes.Layout.{read_le16-eq_some, read_le32-eq_some}
use ec_systemcore.Protocol.Bytes.Fields.{
  Field, fields_text, payload_of, length-payload_of, fields_at, fields_at-exact, fields_text-nil,
  append_le16-field, append_le32-field, read_le16-field, read_le32-field,
}
use ec_systemcore.Protocol.Enums.{
  ack_status_code, ack_status_of_code, is_known_ack_status, ack_status_code-of_code,
  ack_status_of_code-code,
}
use ec_systemcore.Protocol.Payload.Ack.{AckPayload, encode_ack_payload, decode_ack_payload}

abbrev ack_fields : AckPayload → List Field
ack_fields h = (2, ack_status_code h.status) ∷ (2, 0) ∷ (4, h.detail) ∷ []

-- The ranges of the fields' C++ types.
pub record AckFits (h : AckPayload) : Type 0 where
  pub status_fits : ack_status_code h.status < 2 ^ 16
  pub detail_fits : h.detail < 2 ^ 32

module _ (h : AckPayload) (v : AckFits h) where
  ack_encode-fields :
      is_known_ack_status h.status ≡ true → encode_ack_payload h ≡ fields_text (ack_fields h)
  unfolding encode_ack_payload
  ack_encode-fields c0 = rw (c0) (
      cc (
        fields_text-nil,
        append_le16-field (take 0 (ack_fields h)) (ack_status_code h.status),
        append_le16-field (take 1 (ack_fields h)) (0),
        append_le32-field (take 2 (ack_fields h)) (h.detail),
      ))

  ack_encode-ne_nil : encode_ack_payload h ≢ [] → (is_known_ack_status h.status ≡ true)
  unfolding encode_ack_payload
  ack_encode-ne_nil ne = ground arith

  ack_decode-fields :
      is_known_ack_status h.status ≡ true
      → decode_ack_payload (payload_of (ack_fields h) []) ≡ some h
  unfolding decode_ack_payload
  ack_decode-fields c0 = ground (
    arith,
    length-payload_of (ack_fields h) [],
    read_le16-field [] (ack_status_code h.status) (drop 1 (ack_fields h)) [] tt v.status_fits,
    read_le16-field (take 1 (ack_fields h)) (0) (drop 2 (ack_fields h)) [] tt (omega arith),
    read_le32-field (take 2 (ack_fields h)) (h.detail) [] [] tt v.detail_fits,
    ack_status_of_code-code h.status c0,
  )

  ack_decode-reads :
      (p : List ℕ)
      → decode_ack_payload p ≡ some h
      → (length p ≡ 8)
        × (read_le16 p 0 ≡ some (ack_status_code h.status))
        × (read_le16 p 2 ≡ some (0))
        × (read_le32 p 4 ≡ some (h.detail))
        × (is_known_ack_status h.status ≡ true)
  unfolding decode_ack_payload
  ack_decode-reads p e =
      let s0 = require-eq_some {b = length p == 8} e in
      let s1 = bind-eq_some {m = read_le16 p 0} s0.1 in
      let s2 = bind-eq_some {m = read_le16 p 2} s1.2 in
      let s3 = require-eq_some {b = s2.0 == 0} s2.2 in
      let s4 = bind-eq_some {m = read_le32 p 4} s3.1 in
      let s5 = require-eq_some {b = is_known_ack_status (ack_status_of_code s1.0)} s4.2 in
      let last = s5.1 in ground (arith, ack_status_code-of_code s1.0)

  ack_decode-facts :
      (p : List ℕ)
      → IsBytes p
      → decode_ack_payload p ≡ some h
      → (length p ≡ 8)
        × (fields_at (2 ∷ 2 ∷ 4 ∷ []) p 0 ≡ ack_fields h)
        × (is_known_ack_status h.status ≡ true)
  ack_decode-facts p bytes e =
      let reads = ack_decode-reads p e in
      (
        reads.0,
        ground (
          arith,
          (read_le16-eq_some p 0 (ack_status_code h.status) bytes reads.1).1,
          (read_le16-eq_some p 2 (0) bytes reads.2).1,
          (read_le32-eq_some p 4 (h.detail) bytes reads.3).1,
        ),
        reads.4,
      )

  -- For a value whose fields fit their C++ types and a list of bytes, the decoder gives the value
  -- exactly when the bytes are not empty and are what the encoder writes for it.
  pub decode_ack_payload_iff :
      (p : List ℕ)
      → IsBytes p
      → (decode_ack_payload p ≡ some h) ↔ ((encode_ack_payload h ≡ p) × (p ≢ []))
  decode_ack_payload_iff p bytes = (
    λ e.
        let facts = ack_decode-facts p bytes e in
        (
          ack_encode-fields facts.2
              ∙ ap fields_text (sym facts.1)
              ∙ sym (fields_at-exact (2 ∷ 2 ∷ 4 ∷ []) p bytes facts.0),
          λ nil. omega (arith, facts.0, ap length nil),
        ),
    λ e.
        let range = ack_encode-ne_nil (λ nil. e.1 (sym e.0 ∙ nil)) in
        rw (← e.0, ack_encode-fields range, ← append-nil (fields_text (ack_fields h)))
          (ack_decode-fields range),
  )
