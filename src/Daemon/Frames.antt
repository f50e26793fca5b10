-- ===== src/Daemon/Frames.antt =====
-- `ReadClient`, `ConsumeRateToken` and `HandleFrame` of daemon/src/main.cpp: from what `recv` gives
-- to the handlers.
pub mod Effects
use ec_systemcore.Base.{
  ℕ, zero, suc, ◌+◌, ◌-◌, ◌*◌, ◌^◌, Bool, true, false, not, ◌&&◌, ◌||◌, List, [], ◌∷◌, Option, none,
  some, ltb, leb, ◌==◌, if◌then◌else◌, length, min, ◌>>=◌,
}
use ec_systemcore.Protocol.Enums.{MessageType, message_type_code, AckStatus}
use ec_systemcore.Protocol.Frame.{Frame, FrameDecoder, FeedResult, feed}
use ec_systemcore.Daemon.State.{Daemon, ClientConnection, client_at, with_client}
use ec_systemcore.Daemon.Outgoing.{Close, queue_ack}
use ec_systemcore.Daemon.Handlers.{
  close_and_stop, closing, handle_hello, handle_heartbeat, handle_output_enable,
  handle_output_write, handle_clear_counters, handle_release, handle_subscribe_inputs,
  handle_adapter_unlock, handle_adapter_rescan,
}

abbrev pub is_hello : MessageType → Bool
is_hello MessageType.hello = true
is_hello other = false

-- The client with its tokens filled up to now.
pub refilled : ℕ → ClientConnection → ClientConnection
refilled now c = record c {
  rate_updated = now;
  rate_tokens =
      min (c.rate_capacity * 10 ^ 9)
        (c.rate_tokens + (now - c.rate_updated) * c.rate_refill_per_second);
}

-- What a call of `recv` gives.
pub data Received : Type 0 where
  bytes : List ℕ → Received
  end_of_stream would_block interrupted failed : Received

module _ (close : Close) (now : ℕ) where
  unfoldable pub consume_rate_token : Daemon → ℕ → Option (Bool × Daemon)
  consume_rate_token d i =
      let c = refilled now (client_at d i) in
      if ltb c.rate_tokens (10 ^ 9)
      then (queue_ack close now (closing (with_client d i c) i) i MessageType.error 0
            AckStatus.queue_full 0 true
          >>= λ (_, d'). some (false, d'))
      else some (true, with_client d i (record c { rate_tokens = c.rate_tokens - 10 ^ 9 }))

  unfoldable pub dispatch : ℕ → Daemon → ℕ → Frame → MessageType → Option (Bool × Daemon)
  dispatch monotonic_us d i frame MessageType.hello = handle_hello close now d i frame
  dispatch monotonic_us d i frame MessageType.heartbeat = handle_heartbeat close now d i frame
  dispatch monotonic_us d i frame MessageType.output_enable =
      handle_output_enable close now d i frame
  dispatch monotonic_us d i frame MessageType.output_write =
      handle_output_write close now monotonic_us d i frame
  dispatch monotonic_us d i frame MessageType.clear_counters =
      handle_clear_counters close now d i frame
  dispatch monotonic_us d i frame MessageType.release_control = handle_release close now d i frame
  dispatch monotonic_us d i frame MessageType.subscribe_inputs =
      handle_subscribe_inputs close now d i frame
  dispatch monotonic_us d i frame MessageType.adapter_unlock =
      handle_adapter_unlock close now d i frame
  dispatch monotonic_us d i frame MessageType.adapter_rescan =
      handle_adapter_rescan close now d i frame
  dispatch monotonic_us d i frame other = close_and_stop close d i

  unfoldable pub handle_frame : ℕ → Daemon → ℕ → Frame → Option (Bool × Daemon)
  handle_frame monotonic_us d i frame =
      let c = client_at d i in
      let hello = is_hello frame.type in
      if (frame.request_id == 0 && not hello)
        || ltb (message_type_code MessageType.adapter_rescan) (message_type_code frame.type)
      then close_and_stop close d i
      else if not c.hello_received && not hello
      then close_and_stop close d i
      else if c.hello_received && hello
      then close_and_stop close d i
      else dispatch monotonic_us d i frame frame.type

  -- The loop over the frames of one `recv`; the flag says whether it went through all of them.
  unfoldable pub handle_frames : ℕ → Daemon → ℕ → List Frame → Option (Bool × Daemon)
  handle_frames monotonic_us d i [] = some (true, d)
  handle_frames monotonic_us d i (frame ∷ rest) = consume_rate_token d i >>= λ (allowed, d').
      let handled = handle_frame monotonic_us d' i frame >>= λ (more, d'').
      if more then handle_frames monotonic_us d'' i rest else some (false, d'') in
      if allowed then handled else some (false, d')

  -- The bytes of one `recv`.
  unfoldable pub take_bytes : ℕ → Daemon → ℕ → List ℕ → Option (Bool × Daemon)
  take_bytes monotonic_us d i received = feed (client_at d i).decoder received [] >>= λ fed.
      let d' = with_client d i (record (client_at d i) { decoder = fed.decoder }) in
      if fed.accepted then handle_frames monotonic_us d' i fed.frames else close_and_stop close d' i

  -- The loop over what the calls of `recv` give; where no more is given, none is waiting.
  unfoldable pub read_client : ℕ → ℕ → Daemon → ℕ → List Received → Option Daemon
  read_client monotonic_us total d i [] = some d
  read_client monotonic_us total d i (Received.would_block ∷ rest) = some d
  read_client monotonic_us total d i (Received.interrupted ∷ rest) =
      read_client monotonic_us total d i rest
  read_client monotonic_us total d i (Received.end_of_stream ∷ rest) = close d i
  read_client monotonic_us total d i (Received.failed ∷ rest) = close d i
  read_client monotonic_us total d i (Received.bytes received ∷ rest) =
      take_bytes monotonic_us d i received >>= λ (more, d').
      let later = read_client monotonic_us (total + length received) d' i rest in
      if not more || leb (64 * 1024) (total + length received) then some d' else later
