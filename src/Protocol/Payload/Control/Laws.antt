-- ===== src/Protocol/Payload/Control/Laws.antt =====
-- The codecs of the control messages, against the fields that these consist of.
use ec_systemcore.Base.{
  ℕ, ◌^◌, ◌≤◌, ◌<◌, ◌≡◌, ◌≢◌, sym, ap, ◌∙◌, ◌↔◌, List, [], ◌∷◌, some, arith, length, take, drop,
  append-nil, le→ltb_false, lt→eq_zero_false,
}
use ec_systemcore.Protocol.Bytes.{IsBytes, flag_byte}
use ec_systemcore.Protocol.Bytes.Layout.{word, read_le16-eq_some, read_le64-eq_some}
use ec_systemcore.Protocol.Bytes.Fields.{
  Field, fields_text, payload_of, length-payload_of, fields_at, fields_at-exact, fields_text-nil,
  is_empty-append_le64, first-field, push-field, append_le16-field, append_le64-field, byte-field,
  read_le16-field, read_le64-field,
}
use ec_systemcore.Protocol.Enums.{disable_reason_code, disable_reason_code-of_code, IsDisableReason}
use ec_systemcore.Protocol.Bytes.Layout.{read_le16_lem}
use ec_systemcore.Protocol.Payload.Control.{
  OutputEnablePayload, AdapterUnlockPayload, SubscribeInputsPayload, OutputsDisabledPayload,
  encode_epoch_payload, encode_output_enable_payload, decode_output_enable_payload,
  encode_adapter_unlock_payload, decode_adapter_unlock_payload, encode_subscribe_inputs_payload,
  decode_subscribe_inputs_payload, encode_outputs_disabled_payload, decode_outputs_disabled_payload,
}

abbrev output_enable_fields : OutputEnablePayload → List Field
output_enable_fields h = (8, h.epoch) ∷ (1, flag_byte h.enabled) ∷ []

-- The ranges of the fields' C++ types.
pub record OutputEnableFits (h : OutputEnablePayload) : Type 0 where
  pub epoch_fits : h.epoch < 2 ^ 64

module _ (h : OutputEnablePayload) (v : OutputEnableFits h) where
  output_enable-byte_1 : flag_byte h.enabled < 256
  output_enable-byte_1 = ground arith

  output_enable_encode-fields :
      0 < h.epoch → encode_output_enable_payload h ≡ fields_text (output_enable_fields h)
  unfolding encode_output_enable_payload encode_epoch_payload
  output_enable_encode-fields c0 =
      rw (lt→eq_zero_false h.epoch c0, is_empty-append_le64 h.epoch)
        (cc (
          fields_text-nil,
          append_le64-field (take 0 (output_enable_fields h)) (h.epoch),
          push-field (take 1 (output_enable_fields h)) (flag_byte h.enabled) output_enable-byte_1,
        ))

  output_enable_encode-ne_nil : encode_output_enable_payload h ≢ [] → (0 < h.epoch)
  unfolding encode_output_enable_payload encode_epoch_payload
  output_enable_encode-ne_nil ne = ground arith

  output_enable_decode-fields :
      0 < h.epoch → decode_output_enable_payload (payload_of (output_enable_fields h) []) ≡ some h
  unfolding decode_output_enable_payload
  output_enable_decode-fields c0 = ground (
    arith,
    length-payload_of (output_enable_fields h) [],
    read_le64-field [] (h.epoch) (drop 1 (output_enable_fields h)) [] tt v.epoch_fits,
    byte-field (take 1 (output_enable_fields h)) (flag_byte h.enabled) [] [] tt
        output_enable-byte_1,
  )

  output_enable_decode-facts :
      (p : List ℕ)
      → IsBytes p
      → decode_output_enable_payload p ≡ some h
      → (length p ≡ 9) × (fields_at (8 ∷ 1 ∷ []) p 0 ≡ output_enable_fields h) × (0 < h.epoch)
  unfolding decode_output_enable_payload
  output_enable_decode-facts p bytes e = ground (arith, read_le64-eq_some p 0 (h.epoch) bytes)

  -- For a value whose fields fit their C++ types and a list of bytes, the decoder gives the value
  -- exactly when the bytes are not empty and are what the encoder writes for it.
  pub decode_output_enable_payload_iff :
      (p : List ℕ)
      → IsBytes p
      → (decode_output_enable_payload p ≡ some h)
        ↔ ((encode_output_enable_payload h ≡ p) × (p ≢ []))
  decode_output_enable_payload_iff p bytes = (
    λ e.
        let facts = output_enable_decode-facts p bytes e in
        (
          output_enable_encode-fields facts.2
              ∙ ap fields_text (sym facts.1)
              ∙ sym (fields_at-exact (8 ∷ 1 ∷ []) p bytes facts.0),
          λ nil. omega (arith, facts.0, ap length nil),
        ),
    λ e.
        let range = output_enable_encode-ne_nil (λ nil. e.1 (sym e.0 ∙ nil)) in
        rw
          (
            ← e.0,
            output_enable_encode-fields range,
            ← append-nil (fields_text (output_enable_fields h)),
          )
          (output_enable_decode-fields range),
  )

abbrev adapter_unlock_fields : AdapterUnlockPayload → List Field
adapter_unlock_fields h = (8, h.epoch) ∷ (2, h.bus_index) ∷ []

-- The ranges of the fields' C++ types.
pub record AdapterUnlockFits (h : AdapterUnlockPayload) : Type 0 where
  pub epoch_fits : h.epoch < 2 ^ 64
  pub bus_fits : h.bus_index < 2 ^ 16

module _ (h : AdapterUnlockPayload) (v : AdapterUnlockFits h) where
  adapter_unlock_encode-fields :
      0 < h.epoch → encode_adapter_unlock_payload h ≡ fields_text (adapter_unlock_fields h)
  unfolding encode_adapter_unlock_payload encode_epoch_payload
  adapter_unlock_encode-fields c0 =
      rw (lt→eq_zero_false h.epoch c0, is_empty-append_le64 h.epoch)
        (cc (
          fields_text-nil,
          append_le64-field (take 0 (adapter_unlock_fields h)) (h.epoch),
          append_le16-field (take 1 (adapter_unlock_fields h)) (h.bus_index),
        ))

  adapter_unlock_encode-ne_nil : encode_adapter_unlock_payload h ≢ [] → (0 < h.epoch)
  unfolding encode_adapter_unlock_payload encode_epoch_payload
  adapter_unlock_encode-ne_nil ne = ground arith

  adapter_unlock_decode-fields :
      0 < h.epoch → decode_adapter_unlock_payload (payload_of (adapter_unlock_fields h) []) ≡ some h
  unfolding decode_adapter_unlock_payload
  adapter_unlock_decode-fields c0 = ground (
    arith,
    length-payload_of (adapter_unlock_fields h) [],
    read_le64-field [] (h.epoch) (drop 1 (adapter_unlock_fields h)) [] tt v.epoch_fits,
    read_le16-field (take 1 (adapter_unlock_fields h)) (h.bus_index) [] [] tt v.bus_fits,
  )

  adapter_unlock_decode-facts :
      (p : List ℕ)
      → IsBytes p
      → decode_adapter_unlock_payload p ≡ some h
      → (length p ≡ 10) × (fields_at (8 ∷ 2 ∷ []) p 0 ≡ adapter_unlock_fields h) × (0 < h.epoch)
  unfolding decode_adapter_unlock_payload
  adapter_unlock_decode-facts p bytes e =
      ground
        (arith, read_le64-eq_some p 0 (h.epoch) bytes, read_le16-eq_some p 8 (h.bus_index) bytes)

  -- For a value whose fields fit their C++ types and a list of bytes, the decoder gives the value
  -- exactly when the bytes are not empty and are what the encoder writes for it.
  pub decode_adapter_unlock_payload_iff :
      (p : List ℕ)
      → IsBytes p
      → (decode_adapter_unlock_payload p ≡ some h)
        ↔ ((encode_adapter_unlock_payload h ≡ p) × (p ≢ []))
  decode_adapter_unlock_payload_iff p bytes = (
    λ e.
        let facts = adapter_unlock_decode-facts p bytes e in
        (
          adapter_unlock_encode-fields facts.2
              ∙ ap fields_text (sym facts.1)
              ∙ sym (fields_at-exact (8 ∷ 2 ∷ []) p bytes facts.0),
          λ nil. omega (arith, facts.0, ap length nil),
        ),
    λ e.
        let range = adapter_unlock_encode-ne_nil (λ nil. e.1 (sym e.0 ∙ nil)) in
        rw
          (
            ← e.0,
            adapter_unlock_encode-fields range,
            ← append-nil (fields_text (adapter_unlock_fields h)),
          )
          (adapter_unlock_decode-fields range),
  )

abbrev subscribe_inputs_fields : SubscribeInputsPayload → List Field
subscribe_inputs_fields h = (1, flag_byte h.enabled) ∷ (1, 0) ∷ (2, h.period_ms) ∷ []

-- The ranges of the fields' C++ types.
pub record SubscribeInputsFits (h : SubscribeInputsPayload) : Type 0 where
  pub period_fits : h.period_ms < 2 ^ 16

module _ (h : SubscribeInputsPayload) (v : SubscribeInputsFits h) where
  subscribe_inputs-byte_0 : flag_byte h.enabled < 256
  subscribe_inputs-byte_0 = ground arith

  subscribe_inputs-byte_1 : 0 < 256
  subscribe_inputs-byte_1 = ground arith

  subscribe_inputs_encode-fields :
      10 ≤ h.period_ms
      → h.period_ms ≤ 1000
      → encode_subscribe_inputs_payload h ≡ fields_text (subscribe_inputs_fields h)
  unfolding encode_subscribe_inputs_payload
  subscribe_inputs_encode-fields c0 c1 =
      rw (le→ltb_false 10 h.period_ms c0, le→ltb_false h.period_ms 1000 c1)
        (cc (
          first-field (flag_byte h.enabled) subscribe_inputs-byte_0,
          push-field (take 1 (subscribe_inputs_fields h)) (0) subscribe_inputs-byte_1,
          append_le16-field (take 2 (subscribe_inputs_fields h)) (h.period_ms),
        ))

  subscribe_inputs_encode-ne_nil :
      encode_subscribe_inputs_payload h ≢ [] → (10 ≤ h.period_ms) × (h.period_ms ≤ 1000)
  unfolding encode_subscribe_inputs_payload
  subscribe_inputs_encode-ne_nil ne = ground arith

  subscribe_inputs_decode-fields :
      10 ≤ h.period_ms
      → h.period_ms ≤ 1000
      → decode_subscribe_inputs_payload (payload_of (subscribe_inputs_fields h) []) ≡ some h
  unfolding decode_subscribe_inputs_payload
  subscribe_inputs_decode-fields c0 c1 = ground (
    arith,
    length-payload_of (subscribe_inputs_fields h) [],
    byte-field [] (flag_byte h.enabled) (drop 1 (subscribe_inputs_fields h)) [] tt
        subscribe_inputs-byte_0,
    byte-field (take 1 (subscribe_inputs_fields h)) (0) (drop 2 (subscribe_inputs_fields h)) [] tt
        subscribe_inputs-byte_1,
    read_le16-field (take 2 (subscribe_inputs_fields h)) (h.period_ms) [] [] tt v.period_fits,
  )

  subscribe_inputs_decode-facts :
      (p : List ℕ)
      → IsBytes p
      → decode_subscribe_inputs_payload p ≡ some h
      → (length p ≡ 4)
        × (fields_at (1 ∷ 1 ∷ 2 ∷ []) p 0 ≡ subscribe_inputs_fields h)
        × (10 ≤ h.period_ms)
        × (h.period_ms ≤ 1000)
  unfolding decode_subscribe_inputs_payload
  subscribe_inputs_decode-facts p bytes e =
      ground (arith, read_le16-eq_some p 2 (h.period_ms) bytes)

  -- For a value whose fields fit their C++ types and a list of bytes, the decoder gives the value
  -- exactly when the bytes are not empty and are what the encoder writes for it.
  pub decode_subscribe_inputs_payload_iff :
      (p : List ℕ)
      → IsBytes p
      → (decode_subscribe_inputs_payload p ≡ some h)
        ↔ ((encode_subscribe_inputs_payload h ≡ p) × (p ≢ []))
  decode_subscribe_inputs_payload_iff p bytes = (
    λ e.
        let facts = subscribe_inputs_decode-facts p bytes e in
        (
          subscribe_inputs_encode-fields facts.2 facts.3
              ∙ ap fields_text (sym facts.1)
              ∙ sym (fields_at-exact (1 ∷ 1 ∷ 2 ∷ []) p bytes facts.0),
          λ nil. omega (arith, facts.0, ap length nil),
        ),
    λ e.
        let range = subscribe_inputs_encode-ne_nil (λ nil. e.1 (sym e.0 ∙ nil)) in
        rw
          (
            ← e.0,
            subscribe_inputs_encode-fields range.0 range.1,
            ← append-nil (fields_text (subscribe_inputs_fields h)),
          )
          (subscribe_inputs_decode-fields range.0 range.1),
  )

abbrev outputs_disabled_fields : OutputsDisabledPayload → List Field
outputs_disabled_fields h = (2, disable_reason_code h.reason) ∷ (2, h.bus_index) ∷ (8, h.epoch) ∷ []

-- The ranges of the fields' C++ types.
pub record OutputsDisabledFits (h : OutputsDisabledPayload) : Type 0 where
  pub reason_shown : IsDisableReason h.reason
  pub reason_fits : disable_reason_code h.reason < 2 ^ 16
  pub bus_fits : h.bus_index < 2 ^ 16
  pub epoch_fits : h.epoch < 2 ^ 64

module _ (h : OutputsDisabledPayload) (v : OutputsDisabledFits h) where
  outputs_disabled_encode-fields :
      0 < h.epoch → encode_outputs_disabled_payload h ≡ fields_text (outputs_disabled_fields h)
  unfolding encode_outputs_disabled_payload
  outputs_disabled_encode-fields c0 = rw (lt→eq_zero_false h.epoch c0) (
      cc (
        fields_text-nil,
        append_le16-field (take 0 (outputs_disabled_fields h)) (disable_reason_code h.reason),
        append_le16-field (take 1 (outputs_disabled_fields h)) (h.bus_index),
        append_le64-field (take 2 (outputs_disabled_fields h)) (h.epoch),
      ))

  outputs_disabled_encode-ne_nil : encode_outputs_disabled_payload h ≢ [] → (0 < h.epoch)
  unfolding encode_outputs_disabled_payload
  outputs_disabled_encode-ne_nil ne = ground arith

  outputs_disabled_decode-fields :
      1 ≤ disable_reason_code h.reason
      → disable_reason_code h.reason ≤ 10
      → 0 < h.epoch
      → decode_outputs_disabled_payload (payload_of (outputs_disabled_fields h) []) ≡ some h
  unfolding decode_outputs_disabled_payload
  outputs_disabled_decode-fields least most c0 = ground (
    arith,
    v.reason_shown,
    length-payload_of (outputs_disabled_fields h) [],
    read_le16-field [] (disable_reason_code h.reason) (drop 1 (outputs_disabled_fields h)) [] tt
        v.reason_fits,
    read_le16-field (take 1 (outputs_disabled_fields h)) (h.bus_index)
        (drop 2 (outputs_disabled_fields h)) [] tt v.bus_fits,
    read_le64-field (take 2 (outputs_disabled_fields h)) (h.epoch) [] [] tt v.epoch_fits,
  )

  outputs_disabled_decode-facts :
      (p : List ℕ)
      → IsBytes p
      → decode_outputs_disabled_payload p ≡ some h
      → (length p ≡ 12)
        × (fields_at (2 ∷ 2 ∷ 8 ∷ []) p 0 ≡ outputs_disabled_fields h)
        × (0 < h.epoch)
        × (1 ≤ disable_reason_code h.reason)
        × (disable_reason_code h.reason ≤ 10)
  unfolding decode_outputs_disabled_payload
  outputs_disabled_decode-facts p bytes e = ground (
    arith,
    read_le16-eq_some p 0 (disable_reason_code h.reason) bytes,
    read_le16-eq_some p 2 (h.bus_index) bytes,
    read_le64-eq_some p 4 (h.epoch) bytes,
    read_le16_lem p 0 bytes,
    disable_reason_code-of_code (word 2 p 0),
  )

  -- For a value whose fields fit their C++ types and a list of bytes, the decoder gives the value
  -- exactly when the bytes are not empty, are what the encoder writes for it, and the reason is one of
  -- the ten that have a name; the encoder also writes other reasons.
  pub decode_outputs_disabled_payload_iff :
      (p : List ℕ)
      → IsBytes p
      → (decode_outputs_disabled_payload p ≡ some h) ↔ (
          (encode_outputs_disabled_payload h ≡ p)
          × (p ≢ [])
          × (1 ≤ disable_reason_code h.reason)
          × (disable_reason_code h.reason ≤ 10))
  decode_outputs_disabled_payload_iff p bytes = (
    λ e.
        let facts = outputs_disabled_decode-facts p bytes e in
        (
          outputs_disabled_encode-fields facts.2
              ∙ ap fields_text (sym facts.1)
              ∙ sym (fields_at-exact (2 ∷ 2 ∷ 8 ∷ []) p bytes facts.0),
          λ nil. omega (arith, facts.0, ap length nil),
          facts.3,
          facts.4,
        ),
    λ e.
        let range = outputs_disabled_encode-ne_nil (λ nil. e.1 (sym e.0 ∙ nil)) in
        rw
          (
            ← e.0,
            outputs_disabled_encode-fields range,
            ← append-nil (fields_text (outputs_disabled_fields h)),
          )
          (outputs_disabled_decode-fields e.2 e.3 range),
  )
