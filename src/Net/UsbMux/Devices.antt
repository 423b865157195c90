-- ===== src/Net/UsbMux/Devices.antt =====
-- src/net/UsbMux.cpp, ListUsbMuxDevices: which devices the pieces of an answer name.
use opendisplay_win.Common.{
  ℕ, ◌==◌, if◌then◌else◌, Bool, true, false, ◌&&◌, ◌||◌, Option, none, some, value_or, List, [],
  ◌∷◌, Bytes, codes, All, ◌≡◌, refl, ap, subst, ◌∙◌, arith, Bool-cases, Option-cases, inl, inr,
}
use opendisplay_win.Net.UsbMux.{
  UsbMuxDevice, extract_key_string, is_usb, Info, no_info, first_text, merge, Seen, merge_at, id_of,
  note_piece, note_pieces, usb_devices, pieces, devices_in,
}

-- The piece is about this device.
unfoldable pub names : ℕ → Bytes → Bool
names id piece = elim (id_of piece) [ none ↦ false | some k ↦ k == id ]

abbrev serial_of : Bytes → Bytes
serial_of piece = value_or [] (extract_key_string piece (codes "SerialNumber"))

abbrev or_text : Bytes → Bytes → Bytes
or_text [] t = t
or_text (c ∷ s) t = c ∷ s

-- What pieces say of a device: whether one of them has it on USB, and the first serial number that
-- one of them has.
unfoldable pub on_usb : ℕ → List Bytes → Bool
on_usb id [] = false
on_usb id (p ∷ ps) = names id p && is_usb p || on_usb id ps

unfoldable pub first_serial : ℕ → List Bytes → Bytes
first_serial id [] = []
first_serial id (p ∷ ps) =
    let rest = first_serial id ps in if names id p then or_text (serial_of p) rest else rest

-- The entry of a device.
unfoldable pub info_of : ℕ → Seen → Info
info_of id [] = no_info
info_of id ((k, info) ∷ seen) = let rest = info_of id seen in if k == id then info else rest

unfoldable pub find_device : ℕ → List UsbMuxDevice → Option UsbMuxDevice
find_device id [] = none
find_device id (d ∷ ds) = let rest = find_device id ds in if d.device_id == id then some d else rest

abbrev Other : ℕ → Seen → Type 0
Other id seen = All (λ entry. (entry.0 == id) ≡ false) seen

abbrev pub Distinct : Seen → Type 0
Distinct [] = Unit {0}
Distinct ((k, info) ∷ seen) = Other k seen × Distinct seen

info_of-merge_at :
    (id k : ℕ) (piece : Bytes) (seen : Seen)
    → info_of id (merge_at k piece seen)
      ≡ (if k == id then merge piece (info_of id seen) else info_of id seen)
unfolding info_of merge_at
info_of-merge_at id k piece [] = ground arith
info_of-merge_at id k piece ((j, info) ∷ seen) = ground (arith, info_of-merge_at id k piece seen)

merge_at-Other :
    (id k : ℕ) (piece : Bytes) (seen : Seen)
    → (k == id) ≡ false
    → Other id seen
    → Other id (merge_at k piece seen)
unfolding merge_at
merge_at-Other id k piece [] h o = (h, tt)
merge_at-Other id k piece ((j, info) ∷ seen) h o = elim (Bool-cases (j == k)) [
  | inl e ↦ rw e o
  | inr e ↦ rw e (o.0, merge_at-Other id k piece seen h o.1)
]

merge_at-Distinct :
    (k : ℕ) (piece : Bytes) (seen : Seen) → Distinct seen → Distinct (merge_at k piece seen)
unfolding merge_at
merge_at-Distinct k piece [] d = (tt, tt)
merge_at-Distinct k piece ((j, info) ∷ seen) d = elim (Bool-cases (j == k)) [
  | inl e ↦ rw e d
  | inr e ↦
      rw e
        (merge_at-Other j k piece seen (ground (arith, e)) d.0, merge_at-Distinct k piece seen d.1)
]

info_of-note_piece :
    (id : ℕ) (seen : Seen) (p : Bytes)
    → info_of id (note_piece seen p)
      ≡ (if names id p then merge p (info_of id seen) else info_of id seen)
unfolding note_piece names
info_of-note_piece id seen p = elim (Option-cases (id_of p)) [
  | inl e ↦ rw (e, note_piece, names) refl
  | inr (k, e) ↦ rw (e, note_piece, names) (info_of-merge_at id k p seen)
]

note_piece-Distinct : (seen : Seen) (p : Bytes) → Distinct seen → Distinct (note_piece seen p)
unfolding note_piece
note_piece-Distinct seen p d = elim (Option-cases (id_of p)) [
  | inl e ↦ rw (e, note_piece) d
  | inr (k, e) ↦ rw (e, note_piece) (merge_at-Distinct k p seen d)
]

note_pieces-Distinct :
    (seen : Seen) (ps : List Bytes) → Distinct seen → Distinct (note_pieces seen ps)
unfolding note_pieces
note_pieces-Distinct seen [] d = d
note_pieces-Distinct seen (p ∷ ps) d =
    note_pieces-Distinct (note_piece seen p) ps (note_piece-Distinct seen p d)

-- An entry with what further pieces say.
abbrev joined : ℕ → Info → List Bytes → Info
joined id info ps = record {
  usb = info.usb || on_usb id ps;
  serial = or_text info.serial (first_serial id ps);
}

or_assoc : (a b c : Bool) → ((a || b) || c) ≡ (a || (b || c))
or_assoc true b c = refl
or_assoc false b c = refl

or_text_assoc :
    (s : Bytes) (found : Option Bytes) (t : Bytes)
    → or_text (first_text s found) t ≡ or_text s (or_text (value_or [] found) t)
or_text_assoc [] found t = refl
or_text_assoc (c ∷ s) found t = refl

or_text_nil : (s : Bytes) → s ≡ or_text s []
or_text_nil [] = refl
or_text_nil (c ∷ s) = refl

or_false : (b : Bool) → b ≡ (b || false)
or_false true = refl
or_false false = refl

joined-cons :
    (id : ℕ) (info : Info) (p : Bytes) (ps : List Bytes)
    → joined id (if names id p then merge p info else info) ps ≡ joined id info (p ∷ ps)
unfolding on_usb first_serial
joined-cons id info p ps = elim (Bool-cases (names id p)) [
  | inl e ↦ rw e (λ i. record {
    usb = or_assoc info.usb (is_usb p) (on_usb id ps) i;
    serial =
        or_text_assoc info.serial (extract_key_string p (codes "SerialNumber")) (first_serial id ps)
          i;
  })
  | inr e ↦ rw e refl
]

joined-nil : (id : ℕ) (info : Info) → info ≡ joined id info []
unfolding on_usb first_serial
joined-nil id info = λ i. record { usb = or_false info.usb i; serial = or_text_nil info.serial i }

info_of-note_pieces :
    (id : ℕ) (seen : Seen) (ps : List Bytes)
    → info_of id (note_pieces seen ps) ≡ joined id (info_of id seen) ps
unfolding note_pieces
info_of-note_pieces id seen [] = joined-nil id (info_of id seen)
info_of-note_pieces id seen (p ∷ ps) =
    info_of-note_pieces id (note_piece seen p) ps
    ∙ ap (λ i. joined id i ps) (info_of-note_piece id seen p)
    ∙ joined-cons id (info_of id seen) p ps

find_device-Other :
    (id : ℕ) (seen : Seen) → Other id seen → find_device id (usb_devices seen) ≡ none
unfolding find_device usb_devices
find_device-Other id [] o = refl
find_device-Other id ((k, info) ∷ seen) o = ground (arith, o.0, find_device-Other id seen o.1)

-- The device of an entry.
abbrev device_of : ℕ → Info → Option UsbMuxDevice
device_of id info =
    if info.usb then some record { present = true; device_id = id; serial = info.serial } else none

find_device-cons :
    (id k : ℕ) (usb : Bool) (serial : Bytes) (seen : Seen)
    → find_device id (usb_devices ((k, record { usb = usb; serial = serial }) ∷ seen)) ≡ (
        if usb && k == id
        then some record { present = true; device_id = k; serial = serial }
        else find_device id (usb_devices seen))
unfolding find_device usb_devices
find_device-cons id k true serial seen = refl
find_device-cons id k false serial seen = refl

find_device-usb_devices :
    (id : ℕ) (seen : Seen)
    → Distinct seen
    → find_device id (usb_devices seen) ≡ device_of id (info_of id seen)
unfolding info_of
find_device-usb_devices id [] d = unfold find_device usb_devices in refl
find_device-usb_devices id ((k, info) ∷ seen) d =
    find_device-cons id k info.usb info.serial seen ∙ elim (Bool-cases (k == id)) [
      | inl e ↦
          let same : (k ≡ id) = ground (arith, e) in
          let gone =
            subst (λ j. find_device j (usb_devices seen) ≡ none) same
              (find_device-Other k seen d.0) in
          ground (arith, e, same, gone)
      | inr e ↦ ground (arith, e, find_device-usb_devices id seen d.1)
    ]

-- Of the devices that are listed for an answer, the first with a number is there exactly where a
-- piece of the answer names the number and USB, and it has the first serial number that a piece
-- with this number gives.
pub devices_in_lem :
    (id : ℕ) (xml : Bytes)
    → find_device id (devices_in xml) ≡ (
        if on_usb id (pieces xml)
        then some record { present = true; device_id = id; serial = first_serial id (pieces xml) }
        else none)
unfolding devices_in on_usb info_of
devices_in_lem id xml =
    find_device-usb_devices id (note_pieces [] (pieces xml))
      (note_pieces-Distinct [] (pieces xml) tt)
    ∙ ap (device_of id) (info_of-note_pieces id [] (pieces xml))
