-- ===== src/Adapter/Resolution.antt =====
-- `ResolveAdapter` of daemon/include/ec_systemcore/adapter_identity.hpp.
pub mod Matches
use ec_systemcore.Base.{
  ℕ, ◌+◌, Bool, true, false, not, ◌&&◌, ◌||◌, List, [], ◌∷◌, Option, none, some, ◌==◌,
  if◌then◌else◌, ◌>>=◌,
}
use ec_systemcore.Protocol.Enums.{AdapterLockState, AdapterLockReason}
use ec_systemcore.Adapter.Text.{same_text, normalize_mac, normalize_usb_id}
use ec_systemcore.Adapter.Identity.{
  AdapterIdentityLock, AdapterIdentity, AdapterResolution, has_text, path_only,
}

-- `std::find_if`, `std::any_of` and `std::count_if`.
abbrev pub find_if : (AdapterIdentity → Bool) → List AdapterIdentity → Option AdapterIdentity
find_if p [] = none
find_if p (a ∷ rest) = if p a then some a else find_if p rest

abbrev pub any_of : (AdapterIdentity → Bool) → List AdapterIdentity → Bool
any_of p [] = false
any_of p (a ∷ rest) = p a || any_of p rest

abbrev pub count_if : (AdapterIdentity → Bool) → List AdapterIdentity → ℕ
count_if p [] = 0
count_if p (a ∷ rest) = (if p a then 1 else 0) + count_if p rest

-- `expected.has_value() && observed == expected`
abbrev pub same_known : Option (List ℕ) → Option (List ℕ) → Bool
same_known none observed = false
same_known (some expected) none = false
same_known (some expected) (some observed) = same_text observed expected

abbrev pub has_path : List ℕ → AdapterIdentity → Bool
has_path path a = same_text a.id_path path

abbrev pub has_name : List ℕ → AdapterIdentity → Bool
has_name name a = same_text a.interface_name name

abbrev pub is_found : Option AdapterIdentity → Bool
is_found none = false
is_found (some a) = true

abbrev pub resolution :
    AdapterLockState → AdapterLockReason → Option AdapterIdentity → AdapterResolution
resolution state reason identity = record { state = state; reason = reason; identity = identity }

-- No lock, or one that was lifted at run time.
unfoldable pub resolve_unlocked : List AdapterIdentity → List ℕ → Bool → AdapterResolution
resolve_unlocked adapters preferred runtime_unlocked =
    elim (find_if (has_name preferred) adapters) [
      | none ↦ resolution AdapterLockState.missing AdapterLockReason.interface_missing none
      | some selected ↦
          resolution
            (if runtime_unlocked
              then AdapterLockState.runtime_unlocked
              else AdapterLockState.unlocked)
            AdapterLockReason.none (some selected)
    ]

-- No adapter has the locked path.
unfoldable pub resolve_missing :
    List AdapterIdentity → List ℕ → AdapterIdentityLock → AdapterResolution
resolve_missing adapters preferred expected =
    let found = find_if (has_name preferred) adapters in
    let mac = expected.permanent_mac >>= normalize_mac in
    let related =
      any_of (λ a. same_known mac a.permanent_mac || same_known expected.usb_serial a.usb_serial)
        adapters in
    if is_found found || related
    then resolution AdapterLockState.mismatch AdapterLockReason.id_path_mismatch found
    else resolution AdapterLockState.missing AdapterLockReason.interface_missing found

-- The lambda `mismatch`: the resolution that a locked field leads to, where it does not fit.
unfoldable pub mismatch :
    AdapterIdentity
    → Option (List ℕ)
    → Option (List ℕ)
    → AdapterLockReason
    → Option AdapterResolution
mismatch a none observed reason = none
mismatch a (some expected) none reason =
    some (resolution AdapterLockState.mismatch AdapterLockReason.identity_unavailable (some a))
mismatch a (some expected) (some observed) reason =
    if not (same_text expected observed)
    then some (resolution AdapterLockState.mismatch reason (some a))
    else none

-- `if (result.has_value()) return *result;`
abbrev pub or_else : Option AdapterResolution → AdapterResolution → AdapterResolution
or_else none rest = rest
or_else (some result) rest = result

-- The fields of the one adapter with the locked path.
unfoldable pub resolve_fields : AdapterIdentity → AdapterIdentityLock → AdapterResolution
resolve_fields a expected =
    or_else
      (mismatch a (expected.permanent_mac >>= normalize_mac) a.permanent_mac
        AdapterLockReason.permanent_mac_mismatch)
      (or_else (mismatch a expected.usb_serial a.usb_serial AdapterLockReason.usb_serial_mismatch) (
        or_else
          (mismatch a (expected.usb_vendor_id >>= normalize_usb_id) a.usb_vendor_id
            AdapterLockReason.usb_vendor_mismatch)
          (or_else
            (mismatch a (expected.usb_product_id >>= normalize_usb_id) a.usb_product_id
              AdapterLockReason.usb_product_mismatch)
            (resolution AdapterLockState.matched
              (if path_only expected
                then AdapterLockReason.path_only_identity
                else AdapterLockReason.none)
              (some a)))))

unfoldable pub resolve_locked :
    List AdapterIdentity → List ℕ → AdapterIdentityLock → AdapterResolution
resolve_locked adapters preferred expected = elim (find_if (has_path expected.id_path) adapters) [
  | none ↦ resolve_missing adapters preferred expected
  | some a ↦
      if not (count_if (has_path expected.id_path) adapters == 1)
      then resolution AdapterLockState.mismatch AdapterLockReason.identity_unavailable none
      else resolve_fields a expected
]

unfoldable pub resolve_adapter :
    List AdapterIdentity → List ℕ → Option AdapterIdentityLock → Bool → AdapterResolution
resolve_adapter adapters preferred none runtime_unlocked =
    resolve_unlocked adapters preferred runtime_unlocked
resolve_adapter adapters preferred (some lock) true = resolve_unlocked adapters preferred true
resolve_adapter adapters preferred (some lock) false = resolve_locked adapters preferred lock
