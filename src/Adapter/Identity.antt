-- ===== src/Adapter/Identity.antt =====
-- The records of daemon/include/ec_systemcore/adapter_identity.hpp and `ValidateAdapterLock`, which
-- returns what it writes into its error, or `none` where it accepts.
use ec_systemcore.Base.{
  ℕ, Bool, true, false, not, ◌&&◌, ◌||◌, List, Option, none, some, ltb, leb, if◌then◌else◌, length,
  is_empty,
}
use ec_systemcore.Protocol.Enums.{AdapterLockState, AdapterLockReason}
use ec_systemcore.Adapter.Text.{all_of, normalize_mac, normalize_usb_id}

pub record AdapterIdentityLock : Type 0 where
  pub id_path : List ℕ
  pub permanent_mac : Option (List ℕ)
  pub usb_serial : Option (List ℕ)
  pub usb_vendor_id : Option (List ℕ)
  pub usb_product_id : Option (List ℕ)

abbrev pub has_text : Option (List ℕ) → Bool
has_text none = false
has_text (some text) = true

abbrev pub path_only : AdapterIdentityLock → Bool
path_only lock =
    not (has_text lock.permanent_mac)
    && not (has_text lock.usb_serial)
    && not (has_text lock.usb_vendor_id)
    && not (has_text lock.usb_product_id)

pub record AdapterIdentity : Type 0 where
  pub interface_name : List ℕ
  pub id_path : List ℕ
  pub permanent_mac : Option (List ℕ)
  pub usb_serial : Option (List ℕ)
  pub usb_vendor_id : Option (List ℕ)
  pub usb_product_id : Option (List ℕ)
  pub ethernet : Bool
  pub link_up : Bool

pub record AdapterResolution : Type 0 where
  pub state : AdapterLockState
  pub reason : AdapterLockReason
  pub identity : Option AdapterIdentity

pub data LockError : Type 0 where
  id_path_invalid permanent_mac_invalid usb_serial_invalid : LockError
  usb_vendor_id_invalid usb_product_id_invalid : LockError

abbrev pub printable_ascii : List ℕ → Bool
printable_ascii = all_of (λ c. leb 32 c && leb c 126)

-- `value.has_value() && !ok(*value)`
abbrev pub refuses : (List ℕ → Bool) → Option (List ℕ) → Bool
refuses ok none = false
refuses ok (some text) = not (ok text)

unfoldable pub validate_adapter_lock : AdapterIdentityLock → Option LockError
validate_adapter_lock lock =
    if is_empty lock.id_path || ltb 1024 (length lock.id_path) || not (printable_ascii lock.id_path)
    then some LockError.id_path_invalid
    else if refuses (λ text. has_text (normalize_mac text)) lock.permanent_mac
    then some LockError.permanent_mac_invalid
    else if refuses
        (λ text. not (is_empty text || ltb 256 (length text) || not (printable_ascii text)))
        lock.usb_serial
    then some LockError.usb_serial_invalid
    else if refuses (λ text. has_text (normalize_usb_id text)) lock.usb_vendor_id
    then some LockError.usb_vendor_id_invalid
    else if refuses (λ text. has_text (normalize_usb_id text)) lock.usb_product_id
    then some LockError.usb_product_id_invalid
    else none
