-- ===== src/Protocol/Payload/Hello/Laws.antt =====
-- The codecs of a hello and of its answer, against the fields that these consist of.
use ec_systemcore.Base.{
  ℕ, ◌^◌, ◌≤◌, ◌<◌, ◌≡◌, ◌≢◌, sym, ap, ◌∙◌, ◌↔◌, false, List, [], ◌∷◌, some, arith, length, take,
  drop, append-nil, le→ltb_false, lt→eq_zero_false,
}
use ec_systemcore.Protocol.Bytes.{IsBytes, flag_byte}
use ec_systemcore.Protocol.Bytes.Layout.{read_le16-eq_some, read_le32-eq_some, read_le64-eq_some}
use ec_systemcore.Protocol.Bytes.Fields.{
  Field, fields_text, payload_of, length-payload_of, fields_at, fields_at-exact, first-field,
  push-field, append_le16-field, append_le32-field, append_le64-field, byte-field, read_le16-field,
  read_le32-field, read_le64-field,
}
use ec_systemcore.Protocol.Enums.{client_role_code, client_role_of_code}
use ec_systemcore.Protocol.Payload.Hello.{
  HelloPayload, HelloAckPayload, is_unnamed_role, encode_hello_payload, decode_hello_payload,
  encode_hello_ack_payload, decode_hello_ack_payload,
}

abbrev hello_fields : HelloPayload → List Field
hello_fields h =
    (1, client_role_code h.role)
    ∷ (1, flag_byte h.subscribe_inputs)
    ∷ (2, h.input_period_ms)
    ∷ (8, h.last_seen_epoch)
    ∷ []

-- The ranges of the numbers' C++ types; the role is any.
pub record HelloFits (h : HelloPayload) : Type 0 where
  pub period_fits : h.input_period_ms < 2 ^ 16
  pub epoch_fits : h.last_seen_epoch < 2 ^ 64

module _ (h : HelloPayload) (v : HelloFits h) where
  hello-byte_0 : is_unnamed_role h.role ≡ false → client_role_code h.role < 256
  unfolding client_role_code
  hello-byte_0 named = ground arith

  hello-byte_1 : flag_byte h.subscribe_inputs < 256
  unfolding client_role_code
  hello-byte_1 = ground arith

  hello_encode-fields :
      is_unnamed_role h.role ≡ false
      → 10 ≤ h.input_period_ms
      → h.input_period_ms ≤ 1000
      → encode_hello_payload h ≡ fields_text (hello_fields h)
  unfolding encode_hello_payload
  hello_encode-fields named c0 c1 =
      rw (le→ltb_false 10 h.input_period_ms c0, le→ltb_false h.input_period_ms 1000 c1, named)
        (cc (
          first-field (client_role_code h.role) (hello-byte_0 named),
          push-field (take 1 (hello_fields h)) (flag_byte h.subscribe_inputs) hello-byte_1,
          append_le16-field (take 2 (hello_fields h)) (h.input_period_ms),
          append_le64-field (take 3 (hello_fields h)) (h.last_seen_epoch),
        ))

  hello_encode-ne_nil :
      encode_hello_payload h ≢ []
      → (is_unnamed_role h.role ≡ false) × (10 ≤ h.input_period_ms) × (h.input_period_ms ≤ 1000)
  unfolding encode_hello_payload
  hello_encode-ne_nil ne = ground arith

  hello_decode-fields :
      is_unnamed_role h.role ≡ false
      → 10 ≤ h.input_period_ms
      → h.input_period_ms ≤ 1000
      → decode_hello_payload (payload_of (hello_fields h) []) ≡ some h
  unfolding decode_hello_payload client_role_code client_role_of_code
  hello_decode-fields named c0 c1 = ground (
    arith,
    length-payload_of (hello_fields h) [],
    byte-field [] (client_role_code h.role) (drop 1 (hello_fields h)) [] tt (hello-byte_0 named),
    byte-field (take 1 (hello_fields h)) (flag_byte h.subscribe_inputs) (drop 2 (hello_fields h)) []
        tt hello-byte_1,
    read_le16-field (take 2 (hello_fields h)) (h.input_period_ms) (drop 3 (hello_fields h)) [] tt
        v.period_fits,
    read_le64-field (take 3 (hello_fields h)) (h.last_seen_epoch) [] [] tt v.epoch_fits,
  )

  hello_decode-facts :
      (p : List ℕ)
      → IsBytes p
      → decode_hello_payload p ≡ some h
      → (length p ≡ 12)
        × (fields_at (1 ∷ 1 ∷ 2 ∷ 8 ∷ []) p 0 ≡ hello_fields h)
        × (is_unnamed_role h.role ≡ false)
        × (10 ≤ h.input_period_ms)
        × (h.input_period_ms ≤ 1000)
  unfolding decode_hello_payload client_role_code client_role_of_code
  hello_decode-facts p bytes e = ground (
    arith,
    read_le16-eq_some p 2 (h.input_period_ms) bytes,
    read_le64-eq_some p 4 (h.last_seen_epoch) bytes,
  )

  -- For a value whose numbers fit their C++ types, with any role, and a list of bytes, the decoder
  -- gives the value exactly when the bytes are not empty and are what the encoder writes for it.
  pub decode_hello_payload_iff :
      (p : List ℕ)
      → IsBytes p
      → (decode_hello_payload p ≡ some h) ↔ ((encode_hello_payload h ≡ p) × (p ≢ []))
  decode_hello_payload_iff p bytes = (
    λ e.
        let facts = hello_decode-facts p bytes e in
        (
          hello_encode-fields facts.2 facts.3 facts.4
              ∙ ap fields_text (sym facts.1)
              ∙ sym (fields_at-exact (1 ∷ 1 ∷ 2 ∷ 8 ∷ []) p bytes facts.0),
          λ nil. omega (arith, facts.0, ap length nil),
        ),
    λ e.
        let range = hello_encode-ne_nil (λ nil. e.1 (sym e.0 ∙ nil)) in
        rw
          (
            ← e.0,
            hello_encode-fields range.0 range.1 range.2,
            ← append-nil (fields_text (hello_fields h)),
          )
          (hello_decode-fields range.0 range.1 range.2),
  )

abbrev hello_ack_fields : HelloAckPayload → List Field
hello_ack_fields h =
    (1, client_role_code h.granted_role)
    ∷ (1, flag_byte h.outputs_enabled)
    ∷ (2, h.heartbeat_timeout_ms)
    ∷ (8, h.epoch)
    ∷ (4, h.peer_pid)
    ∷ (4, h.capabilities)
    ∷ []

-- The ranges of the numbers' C++ types; the role is any.
pub record HelloAckFits (h : HelloAckPayload) : Type 0 where
  pub timeout_fits : h.heartbeat_timeout_ms < 2 ^ 16
  pub epoch_fits : h.epoch < 2 ^ 64
  pub pid_fits : h.peer_pid < 2 ^ 32
  pub capabilities_fit : h.capabilities < 2 ^ 32

module _ (h : HelloAckPayload) (v : HelloAckFits h) where
  hello_ack-byte_0 : is_unnamed_role h.granted_role ≡ false → client_role_code h.granted_role < 256
  unfolding client_role_code
  hello_ack-byte_0 named = ground arith

  hello_ack-byte_1 : flag_byte h.outputs_enabled < 256
  unfolding client_role_code
  hello_ack-byte_1 = ground arith

  hello_ack_encode-fields :
      is_unnamed_role h.granted_role ≡ false
      → 0 < h.heartbeat_timeout_ms
      → 0 < h.epoch
      → encode_hello_ack_payload h ≡ fields_text (hello_ack_fields h)
  unfolding encode_hello_ack_payload
  hello_ack_encode-fields named c0 c1 =
      rw (lt→eq_zero_false h.heartbeat_timeout_ms c0, lt→eq_zero_false h.epoch c1, named)
        (cc (
          first-field (client_role_code h.granted_role) (hello_ack-byte_0 named),
          push-field (take 1 (hello_ack_fields h)) (flag_byte h.outputs_enabled) hello_ack-byte_1,
          append_le16-field (take 2 (hello_ack_fields h)) (h.heartbeat_timeout_ms),
          append_le64-field (take 3 (hello_ack_fields h)) (h.epoch),
          append_le32-field (take 4 (hello_ack_fields h)) (h.peer_pid),
          append_le32-field (take 5 (hello_ack_fields h)) (h.capabilities),
        ))

  hello_ack_encode-ne_nil :
      encode_hello_ack_payload h ≢ []
      → (is_unnamed_role h.granted_role ≡ false) × (0 < h.heartbeat_timeout_ms) × (0 < h.epoch)
  unfolding encode_hello_ack_payload
  hello_ack_encode-ne_nil ne = ground arith

  hello_ack_decode-fields :
      is_unnamed_role h.granted_role ≡ false
      → 0 < h.heartbeat_timeout_ms
      → 0 < h.epoch
      → decode_hello_ack_payload (payload_of (hello_ack_fields h) []) ≡ some h
  unfolding decode_hello_ack_payload client_role_code client_role_of_code
  hello_ack_decode-fields named c0 c1 = ground (
    arith,
    length-payload_of (hello_ack_fields h) [],
    byte-field [] (client_role_code h.granted_role) (drop 1 (hello_ack_fields h)) [] tt
        (hello_ack-byte_0 named),
    byte-field (take 1 (hello_ack_fields h)) (flag_byte h.outputs_enabled)
        (drop 2 (hello_ack_fields h)) [] tt hello_ack-byte_1,
    read_le16-field (take 2 (hello_ack_fields h)) (h.heartbeat_timeout_ms)
        (drop 3 (hello_ack_fields h)) [] tt v.timeout_fits,
    read_le64-field (take 3 (hello_ack_fields h)) (h.epoch) (drop 4 (hello_ack_fields h)) [] tt
        v.epoch_fits,
    read_le32-field (take 4 (hello_ack_fields h)) (h.peer_pid) (drop 5 (hello_ack_fields h)) [] tt
        v.pid_fits,
    read_le32-field (take 5 (hello_ack_fields h)) (h.capabilities) [] [] tt v.capabilities_fit,
  )

  hello_ack_decode-facts :
      (p : List ℕ)
      → IsBytes p
      → decode_hello_ack_payload p ≡ some h
      → (length p ≡ 20)
        × (fields_at (1 ∷ 1 ∷ 2 ∷ 8 ∷ 4 ∷ 4 ∷ []) p 0 ≡ hello_ack_fields h)
        × (is_unnamed_role h.granted_role ≡ false)
        × (0 < h.heartbeat_timeout_ms)
        × (0 < h.epoch)
  unfolding decode_hello_ack_payload client_role_code client_role_of_code
  hello_ack_decode-facts p bytes e = ground (
    arith,
    read_le16-eq_some p 2 (h.heartbeat_timeout_ms) bytes,
    read_le64-eq_some p 4 (h.epoch) bytes,
    read_le32-eq_some p 12 (h.peer_pid) bytes,
    read_le32-eq_some p 16 (h.capabilities) bytes,
  )

  -- For a value whose numbers fit their C++ types, with any role, and a list of bytes, the decoder
  -- gives the value exactly when the bytes are not empty and are what the encoder writes for it.
  pub decode_hello_ack_payload_iff :
      (p : List ℕ)
      → IsBytes p
      → (decode_hello_ack_payload p ≡ some h) ↔ ((encode_hello_ack_payload h ≡ p) × (p ≢ []))
  decode_hello_ack_payload_iff p bytes = (
    λ e.
        let facts = hello_ack_decode-facts p bytes e in
        (
          hello_ack_encode-fields facts.2 facts.3 facts.4
              ∙ ap fields_text (sym facts.1)
              ∙ sym (fields_at-exact (1 ∷ 1 ∷ 2 ∷ 8 ∷ 4 ∷ 4 ∷ []) p bytes facts.0),
          λ nil. omega (arith, facts.0, ap length nil),
        ),
    λ e.
        let range = hello_ack_encode-ne_nil (λ nil. e.1 (sym e.0 ∙ nil)) in
        rw
          (
            ← e.0,
            hello_ack_encode-fields range.0 range.1 range.2,
            ← append-nil (fields_text (hello_ack_fields h)),
          )
          (hello_ack_decode-fields range.0 range.1 range.2),
  )
