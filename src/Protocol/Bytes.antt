-- ===== src/Protocol/Bytes.antt =====
-- The little-endian primitives of daemon/include/ec_systemcore/protocol.hpp: `AppendLe16/32/64`
-- and `ReadLe16/32/64`. A byte vector is a list of numbers; `& 0xff` is the remainder by 256, and
-- `>> s` and `<< s` divide and multiply by 2 ^ s. A reader returns `none` where the source returns
-- false; the null check of its out parameter has no counterpart.
pub mod Layout
pub mod Fields
use ec_systemcore.Base.{
  ℕ, zero, suc, ◌+◌, ◌-◌, ◌*◌, ◌/◌, ◌%◌, ◌^◌, ◌<◌, Bool, true, false, ◌||◌, List, [], ◌∷◌, ◌++◌,
  Option, none, some, bit_or, ltb, if◌then◌else◌, length, get_or, All,
}

abbrev pub IsBytes : List ℕ → Type 0
IsBytes = All (λ b. b < 256)

-- `bytes[i]`, for an index that the caller has checked.
abbrev pub byte : List ℕ → ℕ → ℕ
byte bytes i = get_or bytes i 0

-- `flag ? 1U : 0U`
abbrev pub flag_byte : Bool → ℕ
flag_byte true = 1
flag_byte false = 0

unfoldable pub append_le16 : List ℕ → ℕ → List ℕ
append_le16 destination value = (destination ++ (value % 256 ∷ [])) ++ (value / 2 ^ 8 % 256 ∷ [])

-- The loop `for (shift; shift < bits; shift += 8)`, by the rounds that are left.
append_shifts : ℕ → ℕ → List ℕ → ℕ → List ℕ
append_shifts zero shift destination value = destination
append_shifts (suc rounds) shift destination value =
    append_shifts rounds (shift + 8) (destination ++ (value / 2 ^ shift % 256 ∷ [])) value

unfoldable pub append_le32 : List ℕ → ℕ → List ℕ
unfolding append_shifts
append_le32 destination value = append_shifts 4 0 destination value

unfoldable pub append_le64 : List ℕ → ℕ → List ℕ
unfolding append_shifts
append_le64 destination value = append_shifts 8 0 destination value

-- `offset > bytes.size() || bytes.size() - offset < width`
abbrev out_of_range : List ℕ → ℕ → ℕ → Bool
out_of_range bytes offset width = ltb (length bytes) offset || ltb (length bytes - offset) width

unfoldable pub read_le16 : List ℕ → ℕ → Option ℕ
read_le16 bytes offset =
    if out_of_range bytes offset 2
    then none
    else some (bit_or (byte bytes offset) (byte bytes (offset + 1) * 2 ^ 8))

-- The loop `decoded |= bytes[offset + index] << (index * 8)`, by the rounds that are left.
or_shifts : ℕ → ℕ → List ℕ → ℕ → ℕ → ℕ
or_shifts zero index bytes offset decoded = decoded
or_shifts (suc rounds) index bytes offset decoded =
    or_shifts rounds (index + 1) bytes offset
      (bit_or decoded (byte bytes (offset + index) * 2 ^ (index * 8)))

unfoldable pub read_le32 : List ℕ → ℕ → Option ℕ
unfolding or_shifts
read_le32 bytes offset =
    if out_of_range bytes offset 4 then none else some (or_shifts 4 0 bytes offset 0)

unfoldable pub read_le64 : List ℕ → ℕ → Option ℕ
unfolding or_shifts
read_le64 bytes offset =
    if out_of_range bytes offset 8 then none else some (or_shifts 8 0 bytes offset 0)
