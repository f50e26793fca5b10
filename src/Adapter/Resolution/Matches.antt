-- ===== src/Adapter/Resolution/Matches.antt =====
-- When `ResolveAdapter` accepts an adapter for a lock.
use ec_systemcore.Base.{
  ℕ, ◌≡◌, ◌≢◌, refl, sym, subst, ap, ap₂, ◌∙◌, ◌⊎◌, ◌↔◌, inl, inr, Bool, true, false, List, [], ◌∷◌,
  Option, none, some, ◌>>=◌, arith, Bool-cases, Option-cases,
}
use ec_systemcore.Protocol.Enums.{AdapterLockState, AdapterLockReason}
use ec_systemcore.Adapter.Text.{same_text, normalize_mac, normalize_usb_id}
use ec_systemcore.Adapter.Identity.{
  AdapterIdentityLock, AdapterIdentity, AdapterResolution, has_text, validate_adapter_lock, refuses,
}
use ec_systemcore.Adapter.Resolution.{
  find_if, count_if, has_path, mismatch, resolve_fields, resolve_locked, resolve_missing,
  resolve_adapter, resolution,
}

same_text_refl : (s : List ℕ) → same_text s s ≡ true
same_text_refl [] = refl
same_text_refl (c ∷ s) = ground (arith, same_text_refl s)

same_text-eq : (s t : List ℕ) → same_text s t ≡ true → s ≡ t
same_text-eq [] [] h = refl
same_text-eq [] (d ∷ t) h = absurd (cc)
same_text-eq (c ∷ s) [] h = absurd (cc)
same_text-eq (c ∷ s) (d ∷ t) h = ap₂ ◌∷◌ (ground arith) (same_text-eq s t (ground arith))

-- The one adapter of a list that passes a test.
abbrev pub OnlyOne : (AdapterIdentity → Bool) → AdapterIdentity → List AdapterIdentity → Type 0
OnlyOne p a [] = ⊥
OnlyOne p a (x ∷ rest) =
    ((x ≡ a) × (p x ≡ true) × (count_if p rest ≡ 0)) ⊎ ((p x ≡ false) × OnlyOne p a rest)

OnlyOne-find_if :
    (p : AdapterIdentity → Bool) (a : AdapterIdentity) (xs : List AdapterIdentity)
    → find_if p xs ≡ some a
    → count_if p xs ≡ 1
    → OnlyOne p a xs
OnlyOne-find_if p a [] e k = absurd (cc)
OnlyOne-find_if p a (x ∷ rest) e k = elim (Bool-cases (p x)) [
  | inl found ↦ inl (ground arith)
  | inr other ↦ inr (other, OnlyOne-find_if p a rest (ground arith) (ground arith))
]

find_if-OnlyOne :
    (p : AdapterIdentity → Bool) (a : AdapterIdentity) (xs : List AdapterIdentity)
    → OnlyOne p a xs
    → (find_if p xs ≡ some a) × (count_if p xs ≡ 1)
find_if-OnlyOne p a [] h = absurd (h)
find_if-OnlyOne p a (x ∷ rest) (inl h) = ground (arith, h)
find_if-OnlyOne p a (x ∷ rest) (inr h) = ground (arith, h, find_if-OnlyOne p a rest h.1)

-- A field that the lock leaves open, or that the adapter has with the same text.
abbrev Agrees : Option (List ℕ) → Option (List ℕ) → Type 0
Agrees expected observed = (expected ≡ none) ⊎ (observed ≡ expected)

mismatch-cases :
    (a : AdapterIdentity) (expected observed : Option (List ℕ)) (reason : AdapterLockReason)
    → let found = mismatch a expected observed reason in
      ((found ≡ none) × Agrees expected observed)
      ⊎ ((r : AdapterResolution) × (found ≡ some r)
          × (r.state ≡ AdapterLockState.mismatch)
          × (expected ≢ none)
          × (observed ≢ expected))
unfolding mismatch
mismatch-cases a none observed reason = inl (refl, inl refl)
mismatch-cases a (some e) none reason = inr (
  resolution AdapterLockState.mismatch AdapterLockReason.identity_unavailable (some a),
  refl,
  refl,
  λ h. cc,
  λ h. cc,
)
mismatch-cases a (some e) (some o) reason = elim (Bool-cases (same_text e o)) [
  | inl same ↦ inl (rw same refl, inr (ap some (sym (same_text-eq e o same))))
  | inr other ↦ inr (
    resolution AdapterLockState.mismatch reason (some a),
    rw other refl,
    refl,
    λ h. cc,
    λ h.
        let eq : o ≡ e = ground (arith, h) in ground (arith, ap (same_text e) eq, same_text_refl e),
  )
]

-- The fields of an adapter agree with those of a lock, in their normal form.
abbrev FieldsAgree : AdapterIdentity → AdapterIdentityLock → Type 0
FieldsAgree a lock =
    Agrees (lock.permanent_mac >>= normalize_mac) a.permanent_mac
    × Agrees lock.usb_serial a.usb_serial
    × Agrees (lock.usb_vendor_id >>= normalize_usb_id) a.usb_vendor_id
    × Agrees (lock.usb_product_id >>= normalize_usb_id) a.usb_product_id

resolve_fields-matched_iff :
    (a : AdapterIdentity) (lock : AdapterIdentityLock)
    → ((resolve_fields a lock).state ≡ AdapterLockState.matched) ↔ FieldsAgree a lock
unfolding resolve_fields
resolve_fields-matched_iff a lock = ground (
  arith,
  mismatch-cases a (lock.permanent_mac >>= normalize_mac) a.permanent_mac
      AdapterLockReason.permanent_mac_mismatch,
  mismatch-cases a lock.usb_serial a.usb_serial AdapterLockReason.usb_serial_mismatch,
  mismatch-cases a (lock.usb_vendor_id >>= normalize_usb_id) a.usb_vendor_id
      AdapterLockReason.usb_vendor_mismatch,
  mismatch-cases a (lock.usb_product_id >>= normalize_usb_id) a.usb_product_id
      AdapterLockReason.usb_product_mismatch,
)

resolve_fields-identity :
    (a : AdapterIdentity) (lock : AdapterIdentityLock)
    → (resolve_fields a lock).state ≡ AdapterLockState.matched
    → (resolve_fields a lock).identity ≡ some a
unfolding resolve_fields
resolve_fields-identity a lock h = ground (
  arith,
  mismatch-cases a (lock.permanent_mac >>= normalize_mac) a.permanent_mac
      AdapterLockReason.permanent_mac_mismatch,
  mismatch-cases a lock.usb_serial a.usb_serial AdapterLockReason.usb_serial_mismatch,
  mismatch-cases a (lock.usb_vendor_id >>= normalize_usb_id) a.usb_vendor_id
      AdapterLockReason.usb_vendor_mismatch,
  mismatch-cases a (lock.usb_product_id >>= normalize_usb_id) a.usb_product_id
      AdapterLockReason.usb_product_mismatch,
)

resolve_missing-ne_matched :
    (adapters : List AdapterIdentity) (preferred : List ℕ) (lock : AdapterIdentityLock)
    → (resolve_missing adapters preferred lock).state ≢ AdapterLockState.matched
unfolding resolve_missing
resolve_missing-ne_matched adapters preferred lock = ground arith

-- A text that a lock asks for, if any: it has a normal form, and the adapter shows that one.
abbrev pub LockedTo : (List ℕ → Option (List ℕ)) → Option (List ℕ) → Option (List ℕ) → Type 0
LockedTo normalize none observed = Unit {0}
LockedTo normalize (some text) observed =
    (normal : List ℕ) × (normalize text ≡ some normal) × (observed ≡ some normal)

Agrees-LockedTo :
    (f : List ℕ → Option (List ℕ)) (expected observed : Option (List ℕ))
    → refuses (λ text. has_text (f text)) expected ≡ false
    → Agrees (expected >>= f) observed ↔ LockedTo f expected observed
Agrees-LockedTo f none observed h = (λ _. tt, λ _. inl refl)
Agrees-LockedTo f (some text) observed h = elim (Option-cases (f text)) [
  | inl unknown ↦ absurd (ground (arith, h, unknown))
  | inr (normal, known) ↦ (
    λ agrees. (normal, known, ground (arith, agrees, known)),
    λ locked. ground (arith, locked, known),
  )
]

-- What a lock asks of an adapter.
pub record IsLockedTo (a : AdapterIdentity) (lock : AdapterIdentityLock) : Type 0 where
  pub mac : LockedTo normalize_mac lock.permanent_mac a.permanent_mac
  pub serial : LockedTo (λ text. some text) lock.usb_serial a.usb_serial
  pub vendor : LockedTo normalize_usb_id lock.usb_vendor_id a.usb_vendor_id
  pub product : LockedTo normalize_usb_id lock.usb_product_id a.usb_product_id

-- What a lock that was accepted holds.
record IsValidLock (lock : AdapterIdentityLock) : Type 0 where
  mac_valid : refuses (λ text. has_text (normalize_mac text)) lock.permanent_mac ≡ false
  vendor_valid : refuses (λ text. has_text (normalize_usb_id text)) lock.usb_vendor_id ≡ false
  product_valid : refuses (λ text. has_text (normalize_usb_id text)) lock.usb_product_id ≡ false

validate_adapter_lock-IsValidLock :
    (lock : AdapterIdentityLock) → validate_adapter_lock lock ≡ none → IsValidLock lock
unfolding validate_adapter_lock
validate_adapter_lock-IsValidLock lock h = record {
  mac_valid = ground arith;
  vendor_valid = ground arith;
  product_valid = ground arith;
}

serial_known : (serial : Option (List ℕ)) → refuses (λ text. has_text (some text)) serial ≡ false
serial_known none = refl
serial_known (some text) = refl

bind_some : (o : Option (List ℕ)) → (o >>= λ text. some text) ≡ o
bind_some none = refl
bind_some (some text) = refl

FieldsAgree-IsLockedTo :
    (a : AdapterIdentity) (lock : AdapterIdentityLock)
    → IsValidLock lock
    → FieldsAgree a lock ↔ IsLockedTo a lock
FieldsAgree-IsLockedTo a lock v =
    let mac = Agrees-LockedTo normalize_mac lock.permanent_mac a.permanent_mac v.mac_valid in
    let serial =
      Agrees-LockedTo (λ text. some text) lock.usb_serial a.usb_serial
        (serial_known lock.usb_serial) in
    let vendor =
      Agrees-LockedTo normalize_usb_id lock.usb_vendor_id a.usb_vendor_id v.vendor_valid in
    let product =
      Agrees-LockedTo normalize_usb_id lock.usb_product_id a.usb_product_id v.product_valid in
    (
      λ h. record {
        mac = mac.0 h.0;
        serial =
            serial.0 (subst (λ o. Agrees o a.usb_serial) (sym (bind_some lock.usb_serial)) h.1);
        vendor = vendor.0 h.2;
        product = product.0 h.3;
      },
      λ l. (
        mac.1 l.mac,
        subst (λ o. Agrees o a.usb_serial) (bind_some lock.usb_serial) (serial.1 l.serial),
        vendor.1 l.vendor,
        product.1 l.product,
      ),
    )

resolve_locked_one :
    (adapters : List AdapterIdentity) (preferred : List ℕ) (lock : AdapterIdentityLock)
    (a : AdapterIdentity)
    → find_if (has_path lock.id_path) adapters ≡ some a
    → count_if (has_path lock.id_path) adapters ≡ 1
    → resolve_locked adapters preferred lock ≡ resolve_fields a lock
unfolding resolve_locked
resolve_locked_one adapters preferred lock a e k = ground arith

-- A match comes from the fields of the one adapter that has the path.
resolve_locked-matched :
    (adapters : List AdapterIdentity) (preferred : List ℕ) (lock : AdapterIdentityLock)
    → (resolve_locked adapters preferred lock).state ≡ AdapterLockState.matched
    → (a : AdapterIdentity) × (find_if (has_path lock.id_path) adapters ≡ some a)
      × (count_if (has_path lock.id_path) adapters ≡ 1)
unfolding resolve_locked
resolve_locked-matched adapters preferred lock h =
    elim (Option-cases (find_if (has_path lock.id_path) adapters)) [
      | inl missing ↦
          absurd (resolve_missing-ne_matched adapters preferred lock (ground (arith, h, missing)))
      | inr (a, found) ↦ (a, found, ground (arith, h, found))
    ]

matched-only :
    (adapters : List AdapterIdentity) (preferred : List ℕ) (lock : AdapterIdentityLock)
    → IsValidLock lock
    → (resolve_locked adapters preferred lock).state ≡ AdapterLockState.matched
    → (b : AdapterIdentity) × ((resolve_locked adapters preferred lock).identity ≡ some b)
      × OnlyOne (has_path lock.id_path) b adapters
      × IsLockedTo b lock
matched-only adapters preferred lock v matched =
    let (a, found, once) = resolve_locked-matched adapters preferred lock matched in
    let one = resolve_locked_one adapters preferred lock a found once in
    let fields : (resolve_fields a lock).state ≡ AdapterLockState.matched =
      ap (λ r. r.state) (sym one) ∙ matched in
    (
      a,
      ap (λ r. r.identity) one ∙ resolve_fields-identity a lock fields,
      OnlyOne-find_if (has_path lock.id_path) a adapters found once,
      (FieldsAgree-IsLockedTo a lock v).0 ((resolve_fields-matched_iff a lock).0 fields),
    )

only-matched :
    (adapters : List AdapterIdentity) (preferred : List ℕ) (lock : AdapterIdentityLock)
    (a : AdapterIdentity)
    → IsValidLock lock
    → OnlyOne (has_path lock.id_path) a adapters
    → IsLockedTo a lock
    → ((resolve_locked adapters preferred lock).state ≡ AdapterLockState.matched)
      × ((resolve_locked adapters preferred lock).identity ≡ some a)
only-matched adapters preferred lock a v only locked =
    let (found, once) = find_if-OnlyOne (has_path lock.id_path) a adapters only in
    let one = resolve_locked_one adapters preferred lock a found once in
    let fields =
      (resolve_fields-matched_iff a lock).1 ((FieldsAgree-IsLockedTo a lock v).1 locked) in
    (
      ap (λ r. r.state) one ∙ fields,
      ap (λ r. r.identity) one ∙ resolve_fields-identity a lock fields,
    )

-- With a valid lock that is in force, the state is matched exactly if some adapter is the only one with
-- the locked path and shows every text that the lock asks for, in its normal form; and an adapter is
-- the one of a matched resolution exactly if it is that one.
pub resolve_adapter-matched_iff :
    (adapters : List AdapterIdentity) (preferred : List ℕ) (lock : AdapterIdentityLock)
    (a : AdapterIdentity)
    → validate_adapter_lock lock ≡ none
    → let r = resolve_adapter adapters preferred (some lock) false in
      let path = has_path lock.id_path in
      ((r.state ≡ AdapterLockState.matched)
        ↔ ((b : AdapterIdentity) × OnlyOne path b adapters × IsLockedTo b lock))
      × (((r.state ≡ AdapterLockState.matched) × (r.identity ≡ some a))
          ↔ (OnlyOne path a adapters × IsLockedTo a lock))
unfolding resolve_adapter
resolve_adapter-matched_iff adapters preferred lock a valid =
    let v = validate_adapter_lock-IsValidLock lock valid in
    let found_by = matched-only adapters preferred lock v in
    (
      (
        λ matched. let (b, shown, only, locked) = found_by matched in (b, only, locked),
        λ (b, only, locked). (only-matched adapters preferred lock b v only locked).0,
      ),
      (
        λ (matched, is_a).
            let (b, shown, only, locked) = found_by matched in
            let same : b ≡ a = cc (shown, is_a) in
            subst (λ x. OnlyOne (has_path lock.id_path) x adapters × IsLockedTo x lock) same
              (only, locked),
        λ (only, locked). only-matched adapters preferred lock a v only locked,
      ),
    )
