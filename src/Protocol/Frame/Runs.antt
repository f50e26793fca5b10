-- ===== src/Protocol/Frame/Runs.antt =====
-- The decoder's loop without fuel, as a relation, and how its runs compose when more input comes.
use ec_systemcore.Base.{
  ℕ, zero, suc, ◌+◌, ◌-◌, ◌≤◌, ◌<◌, ◌≡◌, refl, sym, ◌∙◌, List, [], ◌∷◌, ◌++◌, some, arith, length,
  drop, length-drop, ◌≢◌, subst,
}
use mathlib.Core.Path.{subst₂}
use mathlib.Core.Option.{some-injective}
use ec_systemcore.Protocol.Frame.{
  Frame, Round, wait, fail, take_frame, parse_one, parse_loop, DecodeError, LoopEnd,
}
use ec_systemcore.Protocol.Frame.FrameAt.{
  parse_one-FrameAt, parse_one-append, parse_one-drop, parse_one-ne_no_error,
}

abbrev pub end : List Frame → ℕ → DecodeError → LoopEnd
end fs o e = record { frames = fs; parse_offset = o; failure = e }

-- From an offset and the frames so far, the loop over `b` ends so.
pub data Runs (b : List ℕ) : ℕ → List Frame → LoopEnd → Type 0 where
  stops :
      {o : ℕ} {fs : List Frame} → parse_one b o ≡ wait → Runs b o fs (end fs o DecodeError.no_error)
  fails :
      {o : ℕ} {fs : List Frame} (e : DecodeError)
      → parse_one b o ≡ fail e
      → Runs b o fs (end fs o e)
  goes_on :
      {o : ℕ} {fs : List Frame} {last : LoopEnd} (f : Frame) (total : ℕ)
      → parse_one b o ≡ take_frame f total
      → Runs b (o + total) (fs ++ (f ∷ [])) last
      → Runs b o fs last

pub data RoundCase (r : Round) : Type 0 where
  waits : r ≡ wait → RoundCase r
  fails_by : (e : DecodeError) → r ≡ fail e → RoundCase r
  takes : (f : Frame) (total : ℕ) → r ≡ take_frame f total → RoundCase r

pub Round-cases : (r : Round) → RoundCase r
Round-cases wait = waits refl
Round-cases (fail e) = fails_by e refl
Round-cases (take_frame f total) = takes f total refl

pub parse_loop-Runs :
    (n : ℕ) (b : List ℕ) (o : ℕ) (fs : List Frame) (last : LoopEnd)
    → parse_loop n b o fs ≡ some last
    → Runs b o fs last
unfolding parse_loop
parse_loop-Runs zero b o fs last e = cc
parse_loop-Runs (suc n) b o fs last e = elim (Round-cases (parse_one b o)) [
  | waits r ↦
      subst (Runs b o fs)
        (some-injective (end fs o DecodeError.no_error) last (rw (r, parse_loop) at e)) (stops r)
  | fails_by x r ↦
      subst (Runs b o fs) (some-injective (end fs o x) last (rw (r, parse_loop) at e)) (fails x r)
  | takes f total r ↦
      goes_on f total r
        (parse_loop-Runs n b (o + total) (fs ++ (f ∷ [])) last (rw (r, parse_loop) at e))
]

-- With as much fuel as bytes are left the loop ends, since every frame has at least 16 bytes.
pub parse_loop_total :
    (n : ℕ) (b : List ℕ) (o : ℕ) (fs : List Frame)
    → length b - o < n
    → o ≤ length b
    → (last : LoopEnd) × (parse_loop n b o fs ≡ some last) × Runs b o fs last
unfolding parse_loop
parse_loop_total zero b o fs h k = absurd (omega arith)
parse_loop_total (suc n) b o fs h k = elim (Round-cases (parse_one b o)) [
  | waits r ↦ (end fs o DecodeError.no_error, rw (r, parse_loop), stops r)
  | fails_by x r ↦ (end fs o x, rw (r, parse_loop), fails x r)
  | takes f total r ↦
      let at = parse_one-FrameAt b o f total r in
      let (last, e, run) =
        parse_loop_total n b (o + total) (fs ++ (f ∷ [])) (omega arith) (omega arith) in
      (last, rw (r, parse_loop) e, goes_on f total r run)
]

pub Runs-unique :
    {b : List ℕ} {o : ℕ} {fs : List Frame} {x y : LoopEnd} → Runs b o fs x → Runs b o fs y → x ≡ y
Runs-unique (stops p) (stops q) = refl
Runs-unique (stops p) (fails e q) = cc
Runs-unique (stops p) (goes_on f t q r) = cc
Runs-unique (fails e p) (stops q) = cc
Runs-unique (fails e p) (fails e' q) = cc
Runs-unique (fails e p) (goes_on f t q r) = cc
Runs-unique (goes_on f t p r) (stops q) = cc
Runs-unique (goes_on f t p r) (fails e q) = cc
Runs-unique {b} {o} {fs} {y = y} (goes_on f t p r) (goes_on f' t' q r') =
    Runs-unique r
      (subst₂ (λ g n. Runs b (o + n) (fs ++ (g ∷ [])) y) (ground arith) (ground arith) r')

-- A run that ends by waiting goes on where more bytes stand behind the buffer.
pub Runs-append :
    (front rest : List ℕ) {o : ℕ} {fs : List Frame} {x y : LoopEnd}
    → o ≤ length front
    → Runs front o fs x
    → x.failure ≡ DecodeError.no_error
    → Runs (front ++ rest) x.parse_offset x.frames y
    → Runs (front ++ rest) o fs y
Runs-append front rest inside (stops p) ok more = more
Runs-append front rest {o} inside (fails e p) ok more =
    absurd (parse_one-ne_no_error front o e p ok)
Runs-append front rest inside (goes_on f t p r) ok more =
    let at = parse_one-FrameAt front _ f t p in
    goes_on f t (parse_one-append front rest _ inside (λ w. cc) ∙ p)
      (Runs-append front rest (omega arith) r ok more)

-- A run that fails, fails so whatever stands behind the buffer.
pub Runs-append_failed :
    (front rest : List ℕ) {o : ℕ} {fs : List Frame} {x : LoopEnd}
    → o ≤ length front
    → Runs front o fs x
    → x.failure ≢ DecodeError.no_error
    → Runs (front ++ rest) o fs x
Runs-append_failed front rest inside (stops p) bad = absurd (bad refl)
Runs-append_failed front rest inside (fails e p) bad =
    fails e (parse_one-append front rest _ inside (λ w. cc) ∙ p)
Runs-append_failed front rest inside (goes_on f t p r) bad =
    let at = parse_one-FrameAt front _ f t p in
    goes_on f t (parse_one-append front rest _ inside (λ w. cc) ∙ p)
      (Runs-append_failed front rest (omega arith) r bad)

-- A run over what stands at an offset is a run from that offset.
pub Runs-drop :
    (b : List ℕ) (k : ℕ) {o : ℕ} {fs : List Frame} {x : LoopEnd}
    → k + o ≤ length b
    → Runs (drop k b) o fs x
    → Runs b (k + o) fs (end x.frames (k + x.parse_offset) x.failure)
Runs-drop b k {o} inside (stops p) = stops (sym (parse_one-drop b k o inside) ∙ p)
Runs-drop b k {o} inside (fails e p) = fails e (sym (parse_one-drop b k o inside) ∙ p)
Runs-drop b k {o} {fs} {x} inside (goes_on f t p r) =
    let at = parse_one-FrameAt (drop k b) o f t p in
    let e : k + (o + t) ≡ k + o + t = omega arith in
    goes_on f t (sym (parse_one-drop b k o inside) ∙ p)
      (rw e at (Runs-drop b k (omega (arith, length-drop k b)) r))
