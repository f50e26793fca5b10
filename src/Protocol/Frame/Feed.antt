-- ===== src/Protocol/Frame/Feed.antt =====
-- `FrameDecoder::Feed` on any input.
use ec_systemcore.Base.{
  ℕ, suc, ◌+◌, ◌≤◌, ◌<◌, ◌≡◌, refl, sym, ap, ◌∙◌, true, false, List, [], ◌++◌, some, arith, length,
  drop, length-drop, append-nil, All, ◌≢◌, if◌then◌else◌, ◌⊎◌, inl, inr, drop-length,
}
use ec_systemcore.Protocol.Bytes.{IsBytes}
use ec_systemcore.Protocol.Frame.{
  Frame, FrameDecoder, FeedResult, wait, parse_one, DecodeError, LoopEnd, feed, feed_loop,
  is_no_error,
}
use ec_systemcore.Protocol.Frame.FrameAt.{parse_one-wait}
use ec_systemcore.Protocol.Frame.Parse.{IsEncodable}
use ec_systemcore.Protocol.Frame.Runs.{Runs, stops, parse_loop_total, Runs-unique, end}
use ec_systemcore.Protocol.Frame.Stream.{encode_frames, Runs-Took, Runs-waits, Runs-encode_frames}

-- How the end of the loop becomes the result of `Feed`.
abbrev pub result : List ℕ → LoopEnd → FeedResult
result b last =
    if is_no_error last.failure
    then (record {
      accepted = true;
      decoder = record { buffer = drop last.parse_offset b; error = DecodeError.no_error };
      frames = last.frames;
    })
    else (record {
      accepted = false;
      decoder = record { buffer = b; error = last.failure };
      frames = last.frames;
    })

pub feed_loop-Runs :
    (b : List ℕ) (out : List Frame) (last : LoopEnd)
    → Runs b 0 out last
    → feed_loop b out ≡ some (result b last)
unfolding feed_loop
feed_loop-Runs b out last run =
    let (found, e, run') = parse_loop_total (suc (length b)) b 0 out (omega arith) (omega arith) in
    let same : found ≡ last = Runs-unique run' run in rw (e ∙ ap some same, feed_loop)

pub feed-fits :
    (d : FrameDecoder) (bytes : List ℕ) (out : List Frame)
    → d.error ≡ DecodeError.no_error
    → length d.buffer + length bytes ≤ 16392
    → feed d bytes out ≡ feed_loop (d.buffer ++ bytes) out
unfolding feed
feed-fits d bytes out e h = ground arith

-- A decoder that has met no error, and its next input, within the buffer's limit.
pub record IsReady (d : FrameDecoder) (bytes : List ℕ) : Type 0 where
  pub clean : d.error ≡ DecodeError.no_error
  pub fits : length d.buffer + length bytes ≤ 16392

-- What `Feed` may do with a decoder, an input and the frames so far.
pub record IsFed (d : FrameDecoder) (bytes : List ℕ) (out : List Frame) (r : FeedResult)
    : Type 0 where
  pub added : List Frame
  pub frames_are : r.frames ≡ out ++ added
  pub encodable : All IsEncodable added
  pub outcome :
      ((r.accepted ≡ true)
        × (d.buffer ++ bytes ≡ encode_frames added ++ r.decoder.buffer)
        × (length r.decoder.buffer < 8196)
        × (r.decoder.error ≡ DecodeError.no_error))
      ⊎ ((r.accepted ≡ false) × (r.decoder.error ≢ DecodeError.no_error))

pub is_no_error_iff :
    (e : DecodeError)
    → ((is_no_error e ≡ true) × (e ≡ DecodeError.no_error))
      ⊎ ((is_no_error e ≡ false) × (e ≢ DecodeError.no_error))
is_no_error_iff e = ground arith

-- What a run leaves in the buffer is less than one frame of maximal size.
held :
    (b : List ℕ) {out : List Frame} (last : LoopEnd)
    → Runs b 0 out last
    → last.failure ≡ DecodeError.no_error
    → length (drop last.parse_offset b) < 8196
held b last run e =
    omega (
      arith,
      length-drop last.parse_offset b,
      parse_one-wait b last.parse_offset (Runs-waits run e),
    )

-- On bytes that fit the buffer's limit, a decoder without an error always returns. The frames that
-- it adds are encodable. If it accepts, the bytes held before with the new input are exactly the
-- text of those frames and the bytes that it still holds, which are fewer than one frame of maximal
-- size; if it does not, it keeps an error.
pub feed-IsFed :
    (d : FrameDecoder) (bytes : List ℕ) (out : List Frame)
    → IsReady d bytes
    → IsBytes (d.buffer ++ bytes)
    → (r : FeedResult) × (feed d bytes out ≡ some r) × IsFed d bytes out r
feed-IsFed d bytes out ready h =
    let b = d.buffer ++ bytes in
    let (last, _, run) = parse_loop_total (suc (length b)) b 0 out (omega arith) (omega arith) in
    let took = Runs-Took h (omega arith) run in
    (
      result b last,
      feed-fits d bytes out ready.clean ready.fits ∙ feed_loop-Runs b out last run,
      elim (is_no_error_iff last.failure) [
        | inl (ok, e) ↦ record {
          added = took.taken;
          frames_are = rw ok took.frames_are;
          encodable = took.encodable;
          outcome = inl (rw ok (refl, took.text_is, held b last run e, refl));
        }
        | inr (bad, e) ↦ record {
          added = took.taken;
          frames_are = rw bad took.frames_are;
          encodable = took.encodable;
          outcome = inr (rw bad (refl, e));
        }
      ],
    )

-- A fresh decoder gives back a row of encodable frames from their encoded bytes, if these fit the
-- buffer's limit, behind the frames it was given, and holds nothing afterwards.
pub feed-encode_frames :
    (fs out : List Frame)
    → All IsEncodable fs
    → IsBytes (encode_frames fs)
    → length (encode_frames fs) ≤ 16392
    → feed (record { buffer = []; error = DecodeError.no_error }) (encode_frames fs) out
      ≡ some (record {
        accepted = true;
        decoder = record { buffer = []; error = DecodeError.no_error };
        frames = out ++ fs;
      })
feed-encode_frames fs out v h fits =
    feed-fits (record { buffer = []; error = DecodeError.no_error }) b out refl (omega arith)
    ∙ feed_loop-Runs b out last run
    ∙ ap
        (λ t. some (record {
          accepted = true;
          decoder = record { buffer = t; error = DecodeError.no_error };
          frames = out ++ fs;
        }))
        (drop-length (length b) b (omega arith))
  where
    b : List ℕ
    b = encode_frames fs

    last : LoopEnd
    last = end (out ++ fs) (length b) DecodeError.no_error

    done : parse_one b (length b) ≡ wait
    done = unfold parse_one in ground arith

    run : Runs b 0 out last
    run =
        let e : 0 + length b ≡ length b = omega arith in
        Runs-encode_frames fs b 0 out last h (omega arith) v [] (sym (append-nil b))
          (rw e (stops done))
