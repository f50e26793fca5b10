-- ===== src/Tests/Adapters.antt =====
-- The identity of adapters at concrete inputs.
use ec_systemcore.Base.{ℕ, ◌≡◌, refl, ◌↔◌, true, false, List, [], ◌∷◌, ◌++◌, none, some, length}
use ec_systemcore.Protocol.Enums.{AdapterLockState}
use ec_systemcore.Adapter.Text.{normalize_mac, normalize_usb_id, gather, is_no_station, paired}
use ec_systemcore.Adapter.Text.Mac.{HexOf, IsStation, coloned, normalize_mac_iff}
use ec_systemcore.Adapter.Text.UsbId.{AllSpaces, IsPrefix, LowerOf, normalize_usb_id_iff}
use ec_systemcore.Adapter.Identity.{AdapterIdentityLock, AdapterIdentity, validate_adapter_lock}
use ec_systemcore.Adapter.Resolution.{has_path, resolve_adapter}
use ec_systemcore.Adapter.Resolution.Matches.{OnlyOne, IsLockedTo, resolve_adapter-matched_iff}

-- 02-AB-33-44-55-66
abbrev mac_input : List ℕ
mac_input = 48 ∷ 50 ∷ 45 ∷ 65 ∷ 66 ∷ 45 ∷ 51 ∷ 51 ∷ 45 ∷ 52 ∷ 52 ∷ 45 ∷ 53 ∷ 53 ∷ 45 ∷ 54 ∷ 54 ∷ []

-- 02:ab:33:44:55:66
abbrev mac_text : List ℕ
mac_text = 48 ∷ 50 ∷ 58 ∷ 97 ∷ 98 ∷ 58 ∷ 51 ∷ 51 ∷ 58 ∷ 52 ∷ 52 ∷ 58 ∷ 53 ∷ 53 ∷ 58 ∷ 54 ∷ 54 ∷ []

normalize_mac_iff_example :
    (normalize_mac mac_input ≡ some mac_text)
    ↔ ((h : List ℕ) × HexOf mac_input h × (length h ≡ 12) × IsStation h × (mac_text ≡ coloned h))
normalize_mac_iff_example = normalize_mac_iff mac_input mac_text

-- " 0x0BDA"
abbrev usb_input : List ℕ
usb_input = 32 ∷ 48 ∷ 120 ∷ 48 ∷ 66 ∷ 68 ∷ 65 ∷ []

-- "0bda"
abbrev usb_text : List ℕ
usb_text = 48 ∷ 98 ∷ 100 ∷ 97 ∷ []

normalize_usb_id_iff_example : (normalize_usb_id usb_input ≡ some usb_text) ↔ (
    (front : List ℕ) × (p : List ℕ) × (v : List ℕ) × (back : List ℕ) × (usb_input
      ≡ front ++ ((p ++ v) ++ back))
    × AllSpaces front
    × IsPrefix p
    × (length v ≡ 4)
    × LowerOf v usb_text
    × AllSpaces back)
normalize_usb_id_iff_example = normalize_usb_id_iff usb_input usb_text

abbrev some_lock : AdapterIdentityLock
some_lock = record {
  id_path = b'p' ∷ [];
  permanent_mac = some mac_input;
  usb_serial = none;
  usb_vendor_id = some usb_input;
  usb_product_id = none;
}

abbrev some_adapter : AdapterIdentity
some_adapter = record {
  interface_name = b'e' ∷ [];
  id_path = b'p' ∷ [];
  permanent_mac = some mac_text;
  usb_serial = none;
  usb_vendor_id = some usb_text;
  usb_product_id = none;
  ethernet = true;
  link_up = true;
}

resolve_adapter-matched_iff_example :
    let r = resolve_adapter (some_adapter ∷ []) [] (some some_lock) false in
    let path = has_path (b'p' ∷ []) in
    ((r.state ≡ AdapterLockState.matched)
      ↔ ((b : AdapterIdentity) × OnlyOne path b (some_adapter ∷ []) × IsLockedTo b some_lock))
    × (((r.state ≡ AdapterLockState.matched) × (r.identity ≡ some some_adapter))
        ↔ (OnlyOne path some_adapter (some_adapter ∷ []) × IsLockedTo some_adapter some_lock))
unfolding validate_adapter_lock normalize_mac normalize_usb_id gather is_no_station paired
resolve_adapter-matched_iff_example =
    resolve_adapter-matched_iff (some_adapter ∷ []) [] some_lock some_adapter refl
