-- ===== src/App/Usb/Pick.antt =====
-- src/app/SenderApp.cpp, PickUsbForEntry: what a picked device is.
use opendisplay_win.Common.{
  Bool, true, false, none, some, List, [], ◌∷◌, ◌++◌, Bytes, equal_iff, All, ap, ◌≢◌, ◌↔◌, ◌≡◌, ◌⊎◌,
  inl, inr, refl, sym, subst, arith, Bool-cases, Option-cases, some_injective,
}
use opendisplay_win.App.Config.{Config, is_empty, id_for_usb_serial}
use opendisplay_win.Net.UsbMux.{UsbMuxDevice}
use opendisplay_win.App.Usb.{
  usb_claim_key, claimed, free_devices, is_learned, learned_device, is_unknown, unknown_devices,
  only_one, pick_among, pick_usb_for_entry,
}

abbrev pub Among : UsbMuxDevice → List UsbMuxDevice → Type 0
Among d [] = ⊥
Among d (x ∷ xs) = (x ≡ d) ⊎ Among d xs

free_lem :
    (claims : List Bytes) (ds : List UsbMuxDevice) (d : UsbMuxDevice)
    → Among d (free_devices claims ds)
    → Among d ds × (claimed (usb_claim_key d) claims ≡ false)
unfolding free_devices
free_lem claims [] d m = absurd m
free_lem claims (x ∷ ds) d m = elim (Bool-cases (claimed (usb_claim_key x) claims)) [
  | inl e ↦ let (n, f) = free_lem claims ds d (rw e at m) in (inr n, f)
  | inr e ↦ elim (rw e at m) [
    | inl same ↦ (inl same, subst (λ y. claimed (usb_claim_key y) claims ≡ false) same e)
    | inr later ↦ let (n, f) = free_lem claims ds d later in (inr n, f)
  ]
]

learned_lem :
    (cfg : Config) (expected : Bytes) (ds : List UsbMuxDevice) (d : UsbMuxDevice)
    → learned_device cfg expected ds ≡ some d
    → Among d ds × (is_learned cfg expected d ≡ true)
unfolding learned_device
learned_lem cfg expected [] d e = cc
learned_lem cfg expected (x ∷ ds) d e = elim (Bool-cases (is_learned cfg expected x)) [
  | inl l ↦
      let same = some_injective (rw l at e) in
      (inl same, subst (λ y. is_learned cfg expected y ≡ true) same l)
  | inr l ↦ let (n, f) = learned_lem cfg expected ds d (rw l at e) in (inr n, f)
]

-- A device whose serial number was learned for this id.
abbrev pub IsKnown : Config → Bytes → UsbMuxDevice → Type 0
IsKnown cfg expected d = (d.serial ≢ []) × (id_for_usb_serial cfg d.serial ≡ expected)

-- A device that cannot be a new one: it is the skipped one, or its serial number was learned.
abbrev pub IsRuledOut : Config → Bytes → UsbMuxDevice → Type 0
IsRuledOut cfg skip d =
    ((skip ≢ []) × (d.serial ≡ skip)) ⊎ ((d.serial ≢ []) × (id_for_usb_serial cfg d.serial ≢ []))

empty_iff : (b : Bytes) → (is_empty b ≡ true) ↔ (b ≡ [])
empty_iff [] = ((λ e. refl), λ e. refl)
empty_iff (c ∷ b) = ((λ e. cc), λ e. cc)

is_learned-IsKnown :
    (cfg : Config) (expected : Bytes) (d : UsbMuxDevice)
    → is_learned cfg expected d ≡ true
    → IsKnown cfg expected d
is_learned-IsKnown cfg expected d e =
    ground (arith, e, empty_iff d.serial, equal_iff (id_for_usb_serial cfg d.serial) expected)

not_learned :
    (cfg : Config) (expected : Bytes) (d : UsbMuxDevice)
    → is_learned cfg expected d ≡ false
    → ¬ IsKnown cfg expected d
not_learned cfg expected d e k =
    ground (arith, e, k, empty_iff d.serial, equal_iff (id_for_usb_serial cfg d.serial) expected)

is_unknown_lem :
    (cfg : Config) (skip : Bytes) (d : UsbMuxDevice)
    → is_unknown cfg skip d ≡ true
    → ¬ IsRuledOut cfg skip d
is_unknown_lem cfg skip d e k = ground (
  arith,
  e,
  k,
  empty_iff d.serial,
  empty_iff skip,
  equal_iff d.serial skip,
  empty_iff (id_for_usb_serial cfg d.serial),
)

not_unknown :
    (cfg : Config) (skip : Bytes) (d : UsbMuxDevice)
    → is_unknown cfg skip d ≡ false
    → IsRuledOut cfg skip d
not_unknown cfg skip d e = ground (
  arith,
  e,
  empty_iff d.serial,
  empty_iff skip,
  equal_iff d.serial skip,
  empty_iff (id_for_usb_serial cfg d.serial),
)

none_learned :
    (cfg : Config) (expected : Bytes) (ds : List UsbMuxDevice)
    → learned_device cfg expected ds ≡ none
    → All (λ x. ¬ IsKnown cfg expected x) ds
unfolding learned_device
none_learned cfg expected [] e = tt
none_learned cfg expected (x ∷ ds) e = elim (Bool-cases (is_learned cfg expected x)) [
  | inl l ↦ let f = rw l at e in cc
  | inr l ↦ (not_learned cfg expected x l, none_learned cfg expected ds (rw l at e))
]

none_unknown :
    (cfg : Config) (skip : Bytes) (ds : List UsbMuxDevice)
    → unknown_devices cfg skip ds ≡ []
    → All (IsRuledOut cfg skip) ds
unfolding unknown_devices
none_unknown cfg skip [] e = tt
none_unknown cfg skip (x ∷ ds) e = elim (Bool-cases (is_unknown cfg skip x)) [
  | inl u ↦ let f = rw u at e in cc
  | inr u ↦ (not_unknown cfg skip x u, none_unknown cfg skip ds (rw u at e))
]

-- The device is at one place among these, and is not ruled out; all the others are.
abbrev pub IsOnly : Config → Bytes → List UsbMuxDevice → UsbMuxDevice → Type 0
IsOnly cfg skip ds d =
    (front : List UsbMuxDevice) × (back : List UsbMuxDevice) × (ds ≡ front ++ d ∷ back)
    × All (IsRuledOut cfg skip) front
    × (¬ IsRuledOut cfg skip d)
    × All (IsRuledOut cfg skip) back

unknown_lem :
    (cfg : Config) (skip : Bytes) (ds : List UsbMuxDevice) (d : UsbMuxDevice)
    → unknown_devices cfg skip ds ≡ d ∷ []
    → IsOnly cfg skip ds d
unfolding unknown_devices
unknown_lem cfg skip [] d e = cc
unknown_lem cfg skip (x ∷ ds) d e = elim (Bool-cases (is_unknown cfg skip x)) [
  | inl u ↦
      let f = rw u at e in
      let same : (x ≡ d) = cc in
      let over : (unknown_devices cfg skip ds ≡ []) = cc in
      subst (IsOnly cfg skip (x ∷ ds)) same
        ([], ds, refl, tt, is_unknown_lem cfg skip x u, none_unknown cfg skip ds over)
  | inr u ↦
      let (front, back, same, a, n, b) = unknown_lem cfg skip ds d (rw u at e) in
      (x ∷ front, back, ap (λ l. x ∷ l) same, (not_unknown cfg skip x u, a), n, b)
]

-- Why a device of these was picked: it is known to be this iPad's, or it is the only one that could
-- be, and the hello is to confirm it.
abbrev pub IsReason :
    Config → Bytes → Bytes → Bool → List UsbMuxDevice → UsbMuxDevice → Bool → Type 0
IsReason cfg expected skip strict free d false = IsKnown cfg expected d
IsReason cfg expected skip strict free d true =
    (strict ≡ false) × All (λ x. ¬ IsKnown cfg expected x) free × IsOnly cfg skip free d

abbrev pub IsPicked :
    Config → List Bytes → Bytes → Bytes → Bool → List UsbMuxDevice → UsbMuxDevice → Bool → Type 0
IsPicked cfg claims expected skip strict devices d verify =
    Among d devices
    × (claimed (usb_claim_key d) claims ≡ false)
    × (is_empty expected ≡ false)
    × IsReason cfg expected skip strict (free_devices claims devices) d verify

middle-Among :
    (front : List UsbMuxDevice) (d : UsbMuxDevice) (back : List UsbMuxDevice)
    → Among d (front ++ d ∷ back)
middle-Among [] d back = inl refl
middle-Among (x ∷ front) d back = inr (middle-Among front d back)

only-Among :
    (cfg : Config) (skip : Bytes) (ds : List UsbMuxDevice) (d : UsbMuxDevice)
    → IsOnly cfg skip ds d
    → Among d ds
only-Among cfg skip ds d (front, back, same, _, _, _) =
    subst (Among d) (sym same) (middle-Among front d back)

only_one_lem :
    (xs : List UsbMuxDevice) (d : UsbMuxDevice) (verify : Bool)
    → only_one xs ≡ some (d, verify)
    → (xs ≡ d ∷ []) × (verify ≡ true)
only_one_lem xs d verify e = ground arith

among_lem :
    (cfg : Config) (expected skip : Bytes) (strict : Bool) (free : List UsbMuxDevice)
    (d : UsbMuxDevice) (verify : Bool)
    → pick_among cfg expected skip strict free ≡ some (d, verify)
    → Among d free × IsReason cfg expected skip strict free d verify
among_lem cfg expected skip strict free d verify e =
    elim (Option-cases (learned_device cfg expected free)) [
      | inr (x, l) ↦
          let same = some_injective (rw (l, pick_among) at e) in
          let (m, k) = learned_lem cfg expected free x l in
          subst (λ p. Among p.0 free × IsReason cfg expected skip strict free p.0 p.1) same
            (m, is_learned-IsKnown cfg expected x k)
      | inl l ↦ elim (Bool-cases strict) [
        | inl t ↦ let f = rw (l, pick_among, t) at e in cc
        | inr t ↦
            let (one, sure) =
              only_one_lem (unknown_devices cfg skip free) d verify (rw (l, pick_among, t) at e) in
            let only = unknown_lem cfg skip free d one in
            subst (λ v. Among d free × IsReason cfg expected skip strict free d v) (sym sure)
              (only-Among cfg skip free d only, (t, none_learned cfg expected free l, only))
      ]
    ]

-- A device that is picked for an entry is one of those that are attached, and no sender has it. The
-- entry has an id, and the serial number of the device was learned for that id; or the device is to
-- be verified: then the call is not strict, no free device was learned for the id, and this one is at
-- the only place in the list of the free devices that is neither the skipped one nor one whose serial
-- number was learned.
pub pick_usb_for_entry-IsPicked :
    (devices : List UsbMuxDevice) (cfg : Config) (claims : List Bytes) (expected skip : Bytes)
    (strict : Bool) (d : UsbMuxDevice) (verify : Bool)
    → pick_usb_for_entry (some devices) cfg claims expected skip strict ≡ some (d, verify)
    → IsPicked cfg claims expected skip strict devices d verify
unfolding pick_usb_for_entry
pick_usb_for_entry-IsPicked devices cfg claims expected skip strict d verify e =
    elim (Bool-cases (is_empty expected)) [
      | inl n ↦ let f = rw n at e in cc
      | inr n ↦
          let free = free_devices claims devices in
          let (m, r) = among_lem cfg expected skip strict free d verify (rw n at e) in
          let (attached, unclaimed) = free_lem claims devices d m in (attached, unclaimed, n, r)
    ]
