-- ===== src/Daemon/Frames/Effects.antt =====
-- That `HandleFrame` and `ReadClient` return, and what they do to the gate and to the buses.
use ec_systemcore.Base.{
  ℕ, ◌+◌, ◌-◌, ◌*◌, ◌^◌, ◌≡◌, refl, ◌⊎◌, inl, inr, Bool, true, false, not, ◌&&◌, ◌||◌, List, [],
  ◌∷◌, Option, some, ltb, leb, ◌==◌, Bool-cases, length,
}
use ec_systemcore.Protocol.Enums.{MessageType, message_type_code, AckStatus}
use ec_systemcore.Protocol.Frame.{Frame}
use ec_systemcore.Protocol.Frame.Errors.{feed-Latches}
use ec_systemcore.Daemon.State.{Daemon, client_at, with_client}
use ec_systemcore.Daemon.Outgoing.{Close}
use ec_systemcore.Daemon.Outgoing.Effects.{
  Closes, Quiet, Effect, Free, Any, InSync, queues, with_client-Quiet, Quiet-trans, Quiet-Effect,
}
use ec_systemcore.Daemon.Handlers.{closing}
use ec_systemcore.Daemon.Handlers.Effects.{
  EnablesNothing, Served, Returns, handle_heartbeat-returns, queue_ack-returns,
}
use ec_systemcore.Daemon.Handlers.Answers.{
  close_and_stop-returns, handle_hello-returns, handle_clear_counters-returns,
  handle_release-returns, handle_subscribe_inputs-returns, handle_adapter_unlock-returns,
  handle_adapter_rescan-returns,
}
use ec_systemcore.Daemon.Handlers.Writes.{EnablesBy, handle_output_enable-returns}
use ec_systemcore.Daemon.Handlers.Commands.{Queues, handle_output_write-returns}
use ec_systemcore.Daemon.Frames.{
  is_hello, refilled, Received, consume_rate_token, dispatch, handle_frame, handle_frames,
  take_bytes, read_client,
}

-- What one frame does: on what conditions a command is queued, and the outputs are enabled.
pub record Handled (monotonic_us : ℕ) (d : Daemon) (i : ℕ) (frame : Frame) (d' : Daemon)
    : Type 0 where
  pub commands_are :
      (queues d'.buses ≡ queues d.buses)
      ⊎ ((frame.type ≡ MessageType.output_write) × Queues monotonic_us d i frame d')
  pub enables_by :
      EnablesNothing d.safety d'.safety
      ⊎ ((frame.type ≡ MessageType.output_enable) × EnablesBy d i frame d')
  pub sync_stays : InSync d → InSync d'

module _ {close : Close} (quiet : Closes Free Quiet close) (any : Closes Any Effect close)
    (now monotonic_us : ℕ) where
  served :
      (d : Daemon) (i : ℕ) (frame : Frame) {m : Option (Bool × Daemon)}
      → Returns m (Served d)
      → Returns m (Handled monotonic_us d i frame)
  served d i frame (b, d', done, s) = (
    b,
    d',
    done,
    record {
      commands_are = inl s.commands_stay;
      enables_by = inl s.enables_nothing;
      sync_stays = s.sync_stays;
    },
  )

  -- `type` is the frame's.
  dispatch-returns :
      (d : Daemon) (i : ℕ) (frame : Frame) (type : MessageType)
      → frame.type ≡ type
      → Returns (dispatch close now monotonic_us d i frame type) (Handled monotonic_us d i frame)
  unfolding dispatch
  dispatch-returns d i frame MessageType.hello e =
      served d i frame (handle_hello-returns quiet any now d i frame)
  dispatch-returns d i frame MessageType.heartbeat e =
      served d i frame (handle_heartbeat-returns quiet any now d i frame)
  dispatch-returns d i frame MessageType.output_enable e =
      let (b, d', done, s) = handle_output_enable-returns quiet any now d i frame in
      (
        b,
        d',
        done,
        record {
          commands_are = inl s.commands_stay;
          enables_by = inr (e, s.enables_by);
          sync_stays = s.sync_stays;
        },
      )
  dispatch-returns d i frame MessageType.output_write e =
      let (b, d', done, w) = handle_output_write-returns quiet any now monotonic_us d i frame in
      (
        b,
        d',
        done,
        record {
          commands_are = elim w.commands_are [ inl same ↦ inl same | inr queued ↦ inr (e, queued) ];
          enables_by = inl w.enables_nothing;
          sync_stays = w.sync_stays;
        },
      )
  dispatch-returns d i frame MessageType.clear_counters e =
      served d i frame (handle_clear_counters-returns quiet any now d i frame)
  dispatch-returns d i frame MessageType.release_control e =
      served d i frame (handle_release-returns quiet any now d i frame)
  dispatch-returns d i frame MessageType.subscribe_inputs e =
      served d i frame (handle_subscribe_inputs-returns quiet any now d i frame)
  dispatch-returns d i frame MessageType.adapter_unlock e =
      served d i frame (handle_adapter_unlock-returns quiet any now d i frame)
  dispatch-returns d i frame MessageType.adapter_rescan e =
      served d i frame (handle_adapter_rescan-returns quiet any now d i frame)
  dispatch-returns d i frame other e = served d i frame (close_and_stop-returns quiet any now d i)

  pub handle_frame-returns :
      (d : Daemon) (i : ℕ) (frame : Frame)
      → Returns (handle_frame close now monotonic_us d i frame) (Handled monotonic_us d i frame)
  unfolding handle_frame
  handle_frame-returns d i frame =
      let c = client_at d i in
      let hello = is_hello frame.type in
      let closed = served d i frame (close_and_stop-returns quiet any now d i) in
      elim (Bool-cases (
        (frame.request_id == 0 && not hello)
        || ltb (message_type_code MessageType.adapter_rescan) (message_type_code frame.type))) [
          | inl odd ↦ rw odd closed
          | inr plain ↦ elim (Bool-cases (not c.hello_received && not hello)) [
            | inl early ↦ rw (plain, early) closed
            | inr known ↦ elim (Bool-cases (c.hello_received && hello)) [
              | inl again ↦ rw (plain, known, again) closed
              | inr fresh ↦ rw (plain, known, fresh) (dispatch-returns d i frame frame.type refl)
            ]
          ]
        ]

  consume_rate_token-returns :
      (d : Daemon) (i : ℕ) → Returns (consume_rate_token close now d i) (Effect d)
  unfolding consume_rate_token
  consume_rate_token-returns d i =
      let c = refilled now (client_at d i) in
      let d1 = with_client d i c in
      elim (Bool-cases (ltb c.rate_tokens (10 ^ 9))) [
        | inl spent ↦
            let d2 = closing d1 i in
            let (b, d3, told, effect) =
              queue_ack-returns quiet any now d2 i MessageType.error 0 AckStatus.queue_full 0 in
            (
              false,
              d3,
              rw (spent, told) refl,
              any.after_quiet d d2 d3
                  (Quiet-trans (with_client-Quiet d i _) (with_client-Quiet d1 i _)) effect,
            )
        | inr enough ↦
            let c' = record c { rate_tokens = c.rate_tokens - 10 ^ 9 } in
            (true, with_client d i c', rw enough refl, Quiet-Effect (with_client-Quiet d i c'))
      ]

  handle_frames-returns :
      (d : Daemon) (i : ℕ) (frames : List Frame)
      → Returns (handle_frames close now monotonic_us d i frames) (λ d'. InSync d → InSync d')
  unfolding handle_frames
  handle_frames-returns d i [] = (true, d, refl, λ h. h)
  handle_frames-returns d i (frame ∷ rest) =
      let (allowed, d1, taken, effect) = consume_rate_token-returns d i in
      elim (Bool-cases allowed) [
        | inr refused ↦ (false, d1, rw (taken, refused) refl, effect.sync_stays)
        | inl yes_allowed ↦
            let (more, d2, handled, h) = handle_frame-returns d1 i frame in
            elim (Bool-cases more) [
              | inr stop ↦ (
                false,
                d2,
                rw (taken, yes_allowed, handled, stop) refl,
                λ s. h.sync_stays (effect.sync_stays s),
              )
              | inl go ↦
                  let (b, d3, done, keeps) = handle_frames-returns d2 i rest in
                  (
                    b,
                    d3,
                    rw (taken, yes_allowed, handled, go) done,
                    λ s. keeps (h.sync_stays (effect.sync_stays s)),
                  )
            ]
      ]

  take_bytes-returns :
      (d : Daemon) (i : ℕ) (received : List ℕ)
      → Returns (take_bytes close now monotonic_us d i received) (λ d'. InSync d → InSync d')
  unfolding take_bytes
  take_bytes-returns d i received =
      let (r, fed, latches) = feed-Latches (client_at d i).decoder received [] [] [] in
      let d1 = with_client d i (record (client_at d i) { decoder = r.decoder }) in
      let q : Quiet d d1 = with_client-Quiet d i _ in
      let kept = (Quiet-Effect q).sync_stays in
      elim (Bool-cases r.accepted) [
        | inl accepted ↦
            let (b, d2, done, keeps) = handle_frames-returns d1 i r.frames in
            (b, d2, rw (fed, accepted) done, λ s. keeps (kept s))
        | inr refused ↦
            let (b, d2, done, served) = close_and_stop-returns quiet any now d1 i in
            (b, d2, rw (fed, refused) done, λ s. served.sync_stays (kept s))
      ]

  pub read_client-returns :
      (total : ℕ) (d : Daemon) (i : ℕ) (received : List Received)
      → (d' : Daemon) × (read_client close now monotonic_us total d i received ≡ some d')
        × (InSync d → InSync d')
  unfolding read_client
  read_client-returns total d i [] = (d, refl, λ s. s)
  read_client-returns total d i (Received.would_block ∷ rest) = (d, refl, λ s. s)
  read_client-returns total d i (Received.interrupted ∷ rest) = read_client-returns total d i rest
  read_client-returns total d i (Received.end_of_stream ∷ rest) =
      let (d1, closed, effect) = any.closes d i tt in (d1, closed, effect.sync_stays)
  read_client-returns total d i (Received.failed ∷ rest) =
      let (d1, closed, effect) = any.closes d i tt in (d1, closed, effect.sync_stays)
  read_client-returns total d i (Received.bytes received ∷ rest) =
      let (more, d1, taken, keeps) = take_bytes-returns d i received in
      elim (Bool-cases (not more || leb (64 * 1024) (total + length received))) [
        | inl stop ↦ (d1, rw (taken, stop) refl, keeps)
        | inr go ↦
            let (d2, done, keeps') = read_client-returns (total + length received) d1 i rest in
            (d2, rw (taken, go) done, λ s. keeps' (keeps s))
      ]
