-- ===== src/Protocol/Frame/Stream.antt =====
-- The decoder as a whole: nothing lost, nothing invented, at whatever boundaries the input is cut.
use ec_systemcore.Base.{
  ℕ, ◌+◌, ◌≤◌, ◌<◌, ◌≡◌, refl, sym, ap, ◌∙◌, List, [], ◌∷◌, ◌++◌, arith, length, drop,
  length-append, length-drop, drop-append_length, append_assoc, append-nil, All, subst, All-drop,
  drop-drop,
}
use ec_systemcore.Protocol.Bytes.{IsBytes}
use ec_systemcore.Protocol.Frame.{Frame, wait, take_frame, parse_one, DecodeError, LoopEnd}
use ec_systemcore.Protocol.Frame.FrameAt.{
  FrameAt, parse_one-FrameAt, parse_one-of_FrameAt, parse_one-drop, parse_one-ne_no_error,
}
use ec_systemcore.Protocol.Frame.Parse.{
  IsEncodable, encoded, FrameAt-IsEncodable, FrameAt-drop, FrameAt-encoded, length-encoded,
}
use ec_systemcore.Protocol.Frame.Runs.{Runs, stops, fails, goes_on}

-- Frames one behind the other on the wire.
abbrev pub encode_frames : List Frame → List ℕ
encode_frames [] = []
encode_frames (f ∷ fs) = encoded f ++ encode_frames fs

-- What a run takes off the buffer is the text of the frames that it gives.
pub record Took (b : List ℕ) (o : ℕ) (fs : List Frame) (last : LoopEnd) : Type 0 where
  pub taken : List Frame
  pub frames_are : last.frames ≡ fs ++ taken
  pub encodable : All IsEncodable taken
  pub text_is : drop o b ≡ encode_frames taken ++ drop last.parse_offset b
  pub inside : last.parse_offset ≤ length b

pub Runs-Took :
    {b : List ℕ} {o : ℕ} {fs : List Frame} {last : LoopEnd}
    → IsBytes b
    → o ≤ length b
    → Runs b o fs last
    → Took b o fs last
Runs-Took {fs = fs} h k (stops p) = record {
  taken = [];
  frames_are = sym (append-nil fs);
  encodable = tt;
  text_is = refl;
  inside = k;
}
Runs-Took {fs = fs} h k (fails e p) = record {
  taken = [];
  frames_are = sym (append-nil fs);
  encodable = tt;
  text_is = refl;
  inside = k;
}
Runs-Took {b} {o} {fs} {last} h k (goes_on f total p run) =
    let at = parse_one-FrameAt b o f total p in
    let rest = Runs-Took h at.inside run in
    record {
      taken = f ∷ rest.taken;
      frames_are = rest.frames_are ∙ append_assoc fs (f ∷ []) rest.taken;
      encodable = ((FrameAt-IsEncodable b o f total h at).0, rest.encodable);
      text_is =
          FrameAt-drop b o f total h at
          ∙ ap (◌++◌ (encoded f)) rest.text_is
          ∙ sym (append_assoc (encoded f) (encode_frames rest.taken) (drop last.parse_offset b));
      inside = rest.inside;
    }

-- At the end of a run that did not fail the loop waits.
pub Runs-waits :
    {b : List ℕ} {o : ℕ} {fs : List Frame} {last : LoopEnd}
    → Runs b o fs last
    → last.failure ≡ DecodeError.no_error
    → parse_one b last.parse_offset ≡ wait
Runs-waits (stops p) ok = p
Runs-waits {b} {o} (fails e p) ok = absurd (parse_one-ne_no_error b o e p ok)
Runs-waits (goes_on f total p run) ok = Runs-waits run ok

-- The loop takes a row of encoded frames whole.
pub Runs-encode_frames :
    (taken : List Frame) (b : List ℕ) (o : ℕ) (fs : List Frame) (last : LoopEnd)
    → IsBytes b
    → o ≤ length b
    → All IsEncodable taken
    → (rest : List ℕ) → drop o b ≡ encode_frames taken ++ rest
    → Runs b (o + length (encode_frames taken)) (fs ++ taken) last
    → Runs b o fs last
Runs-encode_frames [] b o fs last h k v rest e run =
    let at : o + 0 ≡ o = omega arith in rw (at, append-nil fs) at run
Runs-encode_frames (f ∷ taken) b o fs last h k v rest e run =
    let total = 16 + length f.payload in
    let text : drop o b ≡ encoded f ++ (encode_frames taken ++ rest) =
      e ∙ append_assoc (encoded f) (encode_frames taken) rest in
    let bytes : IsBytes (encoded f ++ (encode_frames taken ++ rest)) =
      subst IsBytes text (All-drop (λ x. x < 256) o b h) in
    let at : FrameAt (drop o b) 0 f total =
      subst (λ t. FrameAt t 0 f total) (sym text)
        (FrameAt-encoded f (encode_frames taken ++ rest) v.0 bytes) in
    let wide : length (encoded f) ≡ total = length-encoded f v.0 in
    let here : o + 0 ≡ o = omega arith in
    let taken_here : parse_one b o ≡ take_frame f total =
      subst (λ n. parse_one b n ≡ take_frame f total) here
        (sym (parse_one-drop b o 0 (omega arith)) ∙ parse_one-of_FrameAt (drop o b) 0 f total at) in
    let behind : drop (o + total) b ≡ encode_frames taken ++ rest =
      sym (drop-drop total o b)
      ∙ ap (drop total) text
      ∙ ap (λ n. drop n (encoded f ++ (encode_frames taken ++ rest))) (sym wide)
      ∙ drop-append_length (encoded f) (encode_frames taken ++ rest) in
    let fits : o + total ≤ length b = omega (arith, at.inside, length-drop o b) in
    let far : o + length (encoded f ++ encode_frames taken)
        ≡ o + total + length (encode_frames taken) =
      omega (arith, wide, length-append (encoded f) (encode_frames taken)) in
    goes_on f total taken_here (
      Runs-encode_frames taken b (o + total) (fs ++ (f ∷ [])) last h fits v.1 rest behind
        (rw (far, sym (append_assoc fs (f ∷ []) taken)) at run))
