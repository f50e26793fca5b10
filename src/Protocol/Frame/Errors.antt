-- ===== src/Protocol/Frame/Errors.antt =====
-- The errors of `FrameDecoder::Feed`, which stay until `Reset`.
use ec_systemcore.Base.{
  ℕ, suc, ◌+◌, ◌<◌, ◌≤◌, ◌≡◌, refl, ◌∙◌, true, false, List, ◌++◌, some, arith, length, ◌⊎◌, inl,
  inr, Bool-cases, ltb,
}
use ec_systemcore.Protocol.Frame.{
  Frame, FrameDecoder, FeedResult, LoopEnd, DecodeError, feed, feed_loop, is_no_error,
}
use ec_systemcore.Protocol.Frame.Feed.{result, feed_loop-Runs}
use ec_systemcore.Protocol.Frame.Runs.{parse_loop_total}

-- What a decoder with an error answers.
abbrev pub refused : FrameDecoder → List Frame → FeedResult
refused d frames = record { accepted = false; decoder = d; frames = frames }

feed-refuses :
    (d : FrameDecoder) (bytes : List ℕ) (out : List Frame)
    → is_no_error d.error ≡ false
    → feed d bytes out ≡ some (refused d out)
unfolding feed
feed-refuses d bytes out bad = ground (arith, bad)

-- Of a call's result: it accepts and leaves no error, or refuses and leaves one, by which the next
-- call is refused.
abbrev pub Latches : FeedResult → List ℕ → List Frame → Type 0
Latches r later more =
    ((r.accepted ≡ true) × (is_no_error r.decoder.error ≡ true))
    ⊎ ((r.accepted ≡ false)
        × (is_no_error r.decoder.error ≡ false)
        × (feed r.decoder later more ≡ some (refused r.decoder more)))

result-Latches :
    (b : List ℕ) (last : LoopEnd) (later : List ℕ) (more : List Frame)
    → Latches (result b last) later more
result-Latches b last later more = elim (Bool-cases (is_no_error last.failure)) [
  | inl clean ↦ rw clean (inl (refl, refl))
  | inr bad ↦
      let stuck : FrameDecoder = record { buffer = b; error = last.failure } in
      rw bad (inr (refl, bad, feed-refuses stuck later more bad))
]

feed-overflows :
    (d : FrameDecoder) (bytes : List ℕ) (out : List Frame)
    → is_no_error d.error ≡ true
    → 16392 < length d.buffer + length bytes
    → feed d bytes out ≡ some (refused (record d { error = DecodeError.buffer_limit }) out)
unfolding feed
feed-overflows d bytes out clean over = ground (arith, clean)

feed-loops :
    (d : FrameDecoder) (bytes : List ℕ) (out : List Frame)
    → is_no_error d.error ≡ true
    → length d.buffer + length bytes ≤ 16392
    → feed d bytes out ≡ feed_loop (d.buffer ++ bytes) out
unfolding feed
feed-loops d bytes out clean fits = ground (arith, clean)

-- `Feed` returns for every decoder and input. It accepts exactly if it leaves no error; once it has
-- refused, it refuses the next input, whatever that is, and keeps the bytes, the error and the frames.
pub feed-Latches :
    (d : FrameDecoder) (bytes later : List ℕ) (out more : List Frame)
    → (r : FeedResult) × (feed d bytes out ≡ some r) × Latches r later more
feed-Latches d bytes later out more = elim (Bool-cases (is_no_error d.error)) [
  | inr bad ↦
      (refused d out, feed-refuses d bytes out bad, inr (refl, bad, feed-refuses d later more bad))
  | inl clean ↦ elim (Bool-cases (ltb 16392 (length d.buffer + length bytes))) [
    | inl over ↦
        let stuck : FrameDecoder = record d { error = DecodeError.buffer_limit } in
        (
          refused stuck out,
          feed-overflows d bytes out clean (ground (arith, over)),
          inr (refl, refl, feed-refuses stuck later more refl),
        )
    | inr fits ↦
        let b = d.buffer ++ bytes in
        let (last, looped, run) =
          parse_loop_total (suc (length b)) b 0 out (omega arith) (omega arith) in
        (
          result b last,
          feed-loops d bytes out clean (ground (arith, fits)) ∙ feed_loop-Runs b out last run,
          result-Latches b last later more,
        )
  ]
]
