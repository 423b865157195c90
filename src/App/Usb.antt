-- ===== src/App/Usb.antt =====
-- src/app/SenderApp.cpp: which USB cable a sender takes. `g_usbClaims` is the list of the keys that
-- are taken; the devices are what ListUsbMuxDevices gives, none where it fails.
pub mod Pick
pub mod Claims
mod Runs
use opendisplay_win.Common.{
  ℕ, suc, ◌==◌, if◌then◌else◌, Bool, true, false, not, ◌&&◌, ◌||◌, Option, none, some, List, [],
  ◌∷◌, ◌++◌, Bytes, codes, digits, equal,
}
use opendisplay_win.App.Config.{Config, is_empty, id_for_usb_serial}
use opendisplay_win.Net.UsbMux.{UsbMuxDevice}

unfoldable pub usb_claim_key : UsbMuxDevice → Bytes
usb_claim_key d = if is_empty d.serial then codes "#" ++ digits d.device_id else d.serial

unfoldable pub claimed : Bytes → List Bytes → Bool
claimed key [] = false
claimed key (k ∷ claims) = equal k key || claimed key claims

-- `UsbClaim`: the key is empty while nothing is taken.
pub record UsbClaim : Type 0 where
  pub key : Bytes

unfoldable pub take_claim : Bytes → UsbClaim → List Bytes → Bool × (UsbClaim × List Bytes)
take_claim k c claims =
    if claimed k claims then (false, (c, claims)) else (true, (record { key = k }, k ∷ claims))

unfoldable pub erase_claim : Bytes → List Bytes → List Bytes
erase_claim key [] = []
erase_claim key (k ∷ claims) =
    let rest = erase_claim key claims in if equal k key then claims else k ∷ rest

-- The destructor.
unfoldable pub drop_claim : UsbClaim → List Bytes → List Bytes
drop_claim c claims = if is_empty c.key then claims else erase_claim c.key claims

unfoldable pub free_devices : List Bytes → List UsbMuxDevice → List UsbMuxDevice
free_devices claims [] = []
free_devices claims (d ∷ ds) =
    let rest = free_devices claims ds in if claimed (usb_claim_key d) claims then rest else d ∷ rest

abbrev pub is_learned : Config → Bytes → UsbMuxDevice → Bool
is_learned cfg expected d =
    not (is_empty d.serial) && equal (id_for_usb_serial cfg d.serial) expected

-- The first device whose serial number was learned for this id.
unfoldable pub learned_device : Config → Bytes → List UsbMuxDevice → Option UsbMuxDevice
learned_device cfg expected [] = none
learned_device cfg expected (d ∷ ds) =
    let rest = learned_device cfg expected ds in if is_learned cfg expected d then some d else rest

abbrev pub is_unknown : Config → Bytes → UsbMuxDevice → Bool
is_unknown cfg skip d =
    not (equal d.serial skip && not (is_empty skip))
    && (is_empty d.serial || is_empty (id_for_usb_serial cfg d.serial))

-- The devices that the loop counts; `unknown` is the last of them.
unfoldable pub unknown_devices : Config → Bytes → List UsbMuxDevice → List UsbMuxDevice
unknown_devices cfg skip [] = []
unknown_devices cfg skip (d ∷ ds) =
    let rest = unknown_devices cfg skip ds in if is_unknown cfg skip d then d ∷ rest else rest

abbrev only_one : List UsbMuxDevice → Option (UsbMuxDevice × Bool)
only_one (d ∷ []) = some (d, true)
only_one _ = none

-- `out` and `needsVerify`, none for false.
abbrev pub pick_among :
    Config → Bytes → Bytes → Bool → List UsbMuxDevice → Option (UsbMuxDevice × Bool)
pick_among cfg expected skip strict free = elim (learned_device cfg expected free) [
  | some d ↦ some (d, false)
  | none ↦ if strict then none else only_one (unknown_devices cfg skip free)
]

unfoldable pub pick_usb_for_entry :
    Option (List UsbMuxDevice)
    → Config
    → List Bytes
    → Bytes
    → Bytes
    → Bool
    → Option (UsbMuxDevice × Bool)
pick_usb_for_entry none cfg claims expected skip strict = none
pick_usb_for_entry (some devices) cfg claims expected skip strict =
    if is_empty expected
    then none
    else pick_among cfg expected skip strict (free_devices claims devices)
