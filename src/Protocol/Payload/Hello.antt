-- ===== src/Protocol/Payload/Hello.antt =====
-- `HelloPayload` and `HelloAckPayload` of daemon/include/ec_systemcore/protocol.hpp.
pub mod Laws
use ec_systemcore.Base.{
  ℕ, ◌+◌, ◌^◌, ◌≤◌, ◌<◌, ◌≡◌, ◌≢◌, refl, sym, ap, ◌∙◌, ◌↔◌, Bool, true, false, not, ◌&&◌, ◌||◌,
  List, [], ◌∷◌, ◌++◌, Option, none, some, arith, length, take, drop, append-nil, ltb, leb,
  le→ltb_false, ◌==◌, if◌then◌else◌, ◌>>=◌, ◌>>◌, require, lt→eq_zero_false,
}
use ec_systemcore.Protocol.Bytes.{
  byte, append_le16, append_le32, append_le64, read_le16, read_le32, read_le64, flag_byte,
}
use ec_systemcore.Protocol.Enums.{ClientRole, client_role_code, client_role_of_code}

pub record HelloPayload : Type 0 where
  pub role : ClientRole
  pub subscribe_inputs : Bool
  pub input_period_ms : ℕ
  pub last_seen_epoch : ℕ

-- `role != Observer && role != Controller`
abbrev pub is_unnamed_role : ClientRole → Bool
is_unnamed_role ClientRole.observer = false
is_unnamed_role ClientRole.controller = false
is_unnamed_role other = true

unfoldable pub encode_hello_payload : HelloPayload → List ℕ
encode_hello_payload hello =
    if is_unnamed_role hello.role || ltb hello.input_period_ms 10 || ltb 1000 hello.input_period_ms
    then []
    else append_le64
        (append_le16
          (([] ++ (client_role_code hello.role ∷ [])) ++ (flag_byte hello.subscribe_inputs ∷ []))
          hello.input_period_ms)
        hello.last_seen_epoch

unfoldable pub decode_hello_payload : List ℕ → Option HelloPayload
decode_hello_payload payload = do
  require (length payload == 12)
  require (leb (byte payload 0) 1)
  require (leb (byte payload 1) 1)
  period ← read_le16 payload 2
  require (leb 10 period && leb period 1000)
  epoch ← read_le64 payload 4
  some (record {
    role = client_role_of_code (byte payload 0);
    subscribe_inputs = not (byte payload 1 == 0);
    input_period_ms = period;
    last_seen_epoch = epoch;
  })

pub record HelloAckPayload : Type 0 where
  pub granted_role : ClientRole
  pub outputs_enabled : Bool
  pub heartbeat_timeout_ms : ℕ
  pub epoch : ℕ
  pub peer_pid : ℕ
  pub capabilities : ℕ

unfoldable pub encode_hello_ack_payload : HelloAckPayload → List ℕ
encode_hello_ack_payload hello =
    if is_unnamed_role hello.granted_role || hello.heartbeat_timeout_ms == 0 || hello.epoch == 0
    then []
    else append_le32
        (append_le32
          (append_le64
            (append_le16
              (([] ++ (client_role_code hello.granted_role ∷ []))
                ++ (flag_byte hello.outputs_enabled ∷ []))
              hello.heartbeat_timeout_ms)
            hello.epoch)
          hello.peer_pid)
        hello.capabilities

unfoldable pub decode_hello_ack_payload : List ℕ → Option HelloAckPayload
decode_hello_ack_payload payload = do
  require (length payload == 20)
  require (leb (byte payload 0) 1)
  require (leb (byte payload 1) 1)
  heartbeat_timeout_ms ← read_le16 payload 2
  require (not (heartbeat_timeout_ms == 0))
  epoch ← read_le64 payload 4
  require (not (epoch == 0))
  peer_pid ← read_le32 payload 12
  capabilities ← read_le32 payload 16
  some (record {
    granted_role = client_role_of_code (byte payload 0);
    outputs_enabled = not (byte payload 1 == 0);
    heartbeat_timeout_ms = heartbeat_timeout_ms;
    epoch = epoch;
    peer_pid = peer_pid;
    capabilities = capabilities;
  })
