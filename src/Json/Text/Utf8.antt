-- ===== src/Json/Text/Utf8.antt =====
-- `isValidUtf8` returns on every text.
use ec_systemcore.Base.{
  ℕ, zero, suc, ◌*◌, ◌≤◌, ◌<◌, ◌≡◌, refl, subst, List, [], ◌∷◌, Option, none, some, Bool, true,
  false, leb, ◌==◌, if◌then◌else◌, bit_and, bit_or, length, arith, Option-cases, inl, inr,
}
use ec_systemcore.Json.Text.{u8, continued, lead, is_bad_code, sequence, utf8_loop, is_valid_utf8}

-- If bytes are left, at most `n`.
abbrev AtMost : ℕ → Option (List ℕ) → Type 0
AtMost n none = Unit
AtMost n (some after) = length after ≤ n

abbrev AtMostBehind : ℕ → Option (ℕ × List ℕ) → Type 0
AtMostBehind n none = Unit
AtMostBehind n (some (cp, after)) = length after ≤ n

if-AtMostBehind :
    (b : Bool) (n : ℕ) (o : Option (ℕ × List ℕ))
    → AtMostBehind n o
    → AtMostBehind n (if b then o else none)
if-AtMostBehind true n o h = h
if-AtMostBehind false n o h = tt

AtMostBehind-suc : (n : ℕ) (o : Option (ℕ × List ℕ)) → AtMostBehind n o → AtMostBehind (suc n) o
AtMostBehind-suc n none h = tt
AtMostBehind-suc n (some (cp, after)) h = omega (arith, h)

continued-AtMost : (n cp : ℕ) (bytes : List ℕ) → AtMostBehind (length bytes) (continued n cp bytes)
unfolding continued
continued-AtMost zero cp bytes = omega arith
continued-AtMost (suc n) cp [] = tt
continued-AtMost (suc n) cp (b ∷ bytes) =
    let next = continued n (bit_or (cp * 64) (bit_and (u8 b) 63)) bytes in
    if-AtMostBehind (bit_and (u8 b) 192 == 128) (length (b ∷ bytes)) next (
      AtMostBehind-suc (length bytes) next
        (continued-AtMost n (bit_or (cp * 64) (bit_and (u8 b) 63)) bytes))

bad-AtMost :
    (b : Bool) (n : ℕ) (after : List ℕ)
    → length after ≤ n
    → AtMost n (if b then none else some after)
bad-AtMost true n after h = tt
bad-AtMost false n after h = h

checked_after-AtMost :
    (k n : ℕ) (o : Option (ℕ × List ℕ))
    → AtMostBehind n o
    → AtMost n
        (elim o [ none ↦ none | some (cp, after) ↦ if is_bad_code k cp then none else some after ])
checked_after-AtMost k n none h = tt
checked_after-AtMost k n (some (cp, after)) h = bad-AtMost (is_bad_code k cp) n after h

lead-AtMost :
    (o : Option (ℕ × ℕ)) (bytes : List ℕ)
    → AtMost (length bytes) (elim o [
      | none ↦ none
      | some (continuations, bits) ↦ elim (continued continuations bits bytes) [
        | none ↦ none
        | some (cp, after) ↦ if is_bad_code continuations cp then none else some after
      ]
    ])
lead-AtMost none bytes = tt
lead-AtMost (some (k, bits)) bytes =
    checked_after-AtMost k (length bytes) (continued k bits bytes) (continued-AtMost k bits bytes)

sequence-AtMost : (first : ℕ) (bytes : List ℕ) → AtMost (length bytes) (sequence first bytes)
unfolding sequence
sequence-AtMost first bytes = lead-AtMost (lead (u8 first)) bytes

next-AtMost :
    (b : Bool) (bytes : List ℕ) (o : Option (List ℕ))
    → AtMost (length bytes) o
    → AtMost (length bytes) (if b then some bytes else o)
next-AtMost true bytes o h = omega arith
next-AtMost false bytes o h = h

utf8_loop-returns :
    (fuel : ℕ) (bytes : List ℕ) → length bytes < fuel → (b : Bool) × (utf8_loop fuel bytes ≡ some b)
unfolding utf8_loop
utf8_loop-returns zero bytes h = absurd (omega arith)
utf8_loop-returns (suc fuel) [] h = (true, refl)
utf8_loop-returns (suc fuel) (first ∷ bytes) h =
    let next = if leb (u8 first) 127 then some bytes else sequence first bytes in
    let short =
      next-AtMost (leb (u8 first) 127) bytes (sequence first bytes) (sequence-AtMost first bytes) in
    elim (Option-cases next) [
      | inl bad ↦ (false, rw (bad, utf8_loop) refl)
      | inr (after, good) ↦
          let left : length after ≤ length bytes =
            subst (λ o. AtMost (length bytes) o) good short in
          let (b, e) = utf8_loop-returns fuel after (omega (arith, left, h)) in
          (b, rw (good, utf8_loop) e)
    ]

pub is_valid_utf8-returns : (value : List ℕ) → (b : Bool) × (is_valid_utf8 value ≡ some b)
unfolding is_valid_utf8
is_valid_utf8-returns value = utf8_loop-returns (suc (length value)) value (omega arith)
