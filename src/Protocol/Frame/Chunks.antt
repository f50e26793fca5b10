-- ===== src/Protocol/Frame/Chunks.antt =====
-- `FrameDecoder::Feed` on an input that arrives in parts.
use ec_systemcore.Base.{
  ℕ, suc, ◌+◌, ◌≤◌, ◌≡◌, refl, sym, ap, ◌∙◌, true, false, List, ◌++◌, Option, none, some, arith,
  length, drop, length-append, length-drop, drop-append, drop-drop, append_assoc, subst, ◌≢◌, ◌⊎◌,
  inl, inr,
}
use ec_systemcore.Protocol.Frame.{
  Frame, FrameDecoder, FeedResult, DecodeError, LoopEnd, feed, feed_loop, is_no_error,
}
use ec_systemcore.Protocol.Frame.FrameAt.{parse_one-FrameAt}
use ec_systemcore.Protocol.Frame.Runs.{
  Runs, stops, fails, goes_on, parse_loop_total, Runs-append, Runs-append_failed, Runs-drop, end,
}
use ec_systemcore.Protocol.Frame.Feed.{result, feed_loop-Runs, feed-fits, IsReady, is_no_error_iff}

-- A decoder with an error keeps it, and takes no further input.
feed-latched :
    (d : FrameDecoder) (bytes : List ℕ) (out : List Frame)
    → d.error ≢ DecodeError.no_error
    → feed d bytes out ≡ some (record { accepted = false; decoder = d; frames = out })
unfolding feed
feed-latched d bytes out e = ground arith

Runs-inside :
    {b : List ℕ} {o : ℕ} {fs : List Frame} {last : LoopEnd}
    → o ≤ length b
    → Runs b o fs last
    → last.parse_offset ≤ length b
Runs-inside h (stops p) = h
Runs-inside h (fails e p) = h
Runs-inside {b} {o} h (goes_on f t p run) = Runs-inside (parse_one-FrameAt b o f t p).inside run

-- Two results that a caller cannot tell apart: the frames, the verdict and the error; and, where the
-- input was accepted, the bytes held.
pub record SameResult (r s : FeedResult) : Type 0 where
  pub same_frames : r.frames ≡ s.frames
  pub same_verdict : r.accepted ≡ s.accepted
  pub same_error : r.decoder.error ≡ s.decoder.error
  pub same_buffer : (s.accepted ≡ false) ⊎ (r.decoder.buffer ≡ s.decoder.buffer)

-- The two parts of an input, fed one after the other.
abbrev pub feed_twice : FrameDecoder → List ℕ → List ℕ → List Frame → Option FeedResult
feed_twice d xs ys out = elim (feed d xs out) [ none ↦ none | some r ↦ feed r.decoder ys r.frames ]

result-SameResult :
    (b c : List ℕ) (x y : LoopEnd)
    → x.frames ≡ y.frames
    → x.failure ≡ y.failure
    → drop x.parse_offset b ≡ drop y.parse_offset c
    → SameResult (result b x) (result c y)
result-SameResult b c x y p q r = record {
  same_frames = ground arith;
  same_verdict = ground arith;
  same_error = ground arith;
  same_buffer = ground arith;
}

feed_twice-failed :
    (d : FrameDecoder) (xs ys : List ℕ) (out : List Frame) (first : LoopEnd)
    → IsReady d (xs ++ ys)
    → Runs (d.buffer ++ xs) 0 out first
    → is_no_error first.failure ≡ false
    → first.failure ≢ DecodeError.no_error
    → (r : FeedResult) × (s : FeedResult) × (feed d (xs ++ ys) out ≡ some r)
      × (feed_twice d xs ys out ≡ some s)
      × SameResult r s
feed_twice-failed d xs ys out first ready run bad e = (
  result (b ++ ys) first,
  result b first,
  feed-fits d (xs ++ ys) out ready.clean ready.fits
      ∙ ap (λ t. feed_loop t out) (sym (append_assoc d.buffer xs ys))
      ∙ feed_loop-Runs (b ++ ys) out first (Runs-append_failed b ys (omega arith) run e),
  rw
      (
        feed-fits d xs out ready.clean (omega (arith, ready.fits, length-append xs ys))
            ∙ feed_loop-Runs b out first run,
        feed_twice,
      )
      (rw bad (feed-latched (record { buffer = b; error = first.failure }) ys first.frames e)),
  record {
    same_frames = ground arith;
    same_verdict = ground arith;
    same_error = ground arith;
    same_buffer = ground arith;
  },
)
  where
    b : List ℕ
    b = d.buffer ++ xs

feed_twice-result :
    (d : FrameDecoder) (xs ys : List ℕ) (out : List Frame) (first last : LoopEnd)
    → IsReady d (xs ++ ys)
    → Runs (d.buffer ++ xs) 0 out first
    → first.failure ≡ DecodeError.no_error
    → Runs (drop first.parse_offset (d.buffer ++ xs) ++ ys) 0 first.frames last
    → (r : FeedResult) × (s : FeedResult) × (feed d (xs ++ ys) out ≡ some r)
      × (feed_twice d xs ys out ≡ some s)
      × SameResult r s
feed_twice-result d xs ys out first last ready run e run' = (
  result (b ++ ys) joined,
  result (rest ++ ys) last,
  feed-fits d (xs ++ ys) out ready.clean ready.fits
      ∙ ap (λ t. feed_loop t out) (sym (append_assoc d.buffer xs ys))
      ∙ feed_loop-Runs (b ++ ys) out joined whole,
  rw (fed_first, feed_twice) fed_second,
  result-SameResult (b ++ ys) (rest ++ ys) joined last refl refl (
      sym (drop-drop last.parse_offset first.parse_offset (b ++ ys))
      ∙ ap (drop last.parse_offset) split),
)
  where
    b : List ℕ
    b = d.buffer ++ xs

    rest : List ℕ
    rest = drop first.parse_offset b

    joined : LoopEnd
    joined = end last.frames (first.parse_offset + last.parse_offset) last.failure

    inside : first.parse_offset ≤ length b
    inside = Runs-inside (omega arith) run

    split : drop first.parse_offset (b ++ ys) ≡ rest ++ ys
    split = drop-append first.parse_offset b ys inside

    fed_first :
        feed d xs out
        ≡ some (record {
          accepted = true;
          decoder = record { buffer = rest; error = DecodeError.no_error };
          frames = first.frames;
        })
    fed_first =
        feed-fits d xs out ready.clean (omega (arith, ready.fits, length-append xs ys))
        ∙ feed_loop-Runs b out first run
        ∙ rw e refl

    fed_second :
        feed (record { buffer = rest; error = DecodeError.no_error }) ys first.frames
        ≡ some (result (rest ++ ys) last)
    fed_second =
        feed-fits (record { buffer = rest; error = DecodeError.no_error }) ys first.frames refl
          (omega (
            arith,
            ready.fits,
            length-append xs ys,
            length-append d.buffer xs,
            length-drop first.parse_offset b,
          ))
        ∙ feed_loop-Runs (rest ++ ys) first.frames last run'

    whole : Runs (b ++ ys) 0 out joined
    whole =
        let at : first.parse_offset + 0 ≡ first.parse_offset = omega arith in
        Runs-append b ys (omega arith) run e (
          subst (λ o. Runs (b ++ ys) o first.frames joined) at
            (Runs-drop (b ++ ys) first.parse_offset (omega (arith, inside, length-append b ys))
              (subst (λ t. Runs t 0 first.frames last) (sym split) run')))

-- Where an input is cut does not matter to a decoder without an error that has room for it: fed in
-- two parts, it gives the frames, the verdict and the error that it gives fed at once, and, where
-- the input is accepted, the same held bytes.
pub feed-append :
    (d : FrameDecoder) (xs ys : List ℕ) (out : List Frame)
    → IsReady d (xs ++ ys)
    → (r : FeedResult) × (s : FeedResult) × (feed d (xs ++ ys) out ≡ some r)
      × (feed_twice d xs ys out ≡ some s)
      × SameResult r s
feed-append d xs ys out ready =
    let b = d.buffer ++ xs in
    let (first, _, run) = parse_loop_total (suc (length b)) b 0 out (omega arith) (omega arith) in
    elim (is_no_error_iff first.failure) [
      | inl (ok, e) ↦
          let rest = drop first.parse_offset b ++ ys in
          let (last, _, run') =
            parse_loop_total (suc (length rest)) rest 0 first.frames (omega arith) (omega arith) in
          feed_twice-result d xs ys out first last ready run e run'
      | inr (bad, e) ↦ feed_twice-failed d xs ys out first ready run bad e
    ]
