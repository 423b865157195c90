-- ===== src/App/Usb/Runs.antt =====
-- Two senders that look for their cables.
use opendisplay_win.Common.{true, false, some, [], ◌∷◌, codes, equal, ◌≡◌, refl}
use opendisplay_win.App.Config.{Config, default_config, id_for_usb_serial, find_binding}
use opendisplay_win.App.Usb.{
  UsbClaim, usb_claim_key, claimed, take_claim, erase_claim, drop_claim, free_devices,
  learned_device, unknown_devices, pick_usb_for_entry,
}
use opendisplay_win.App.Usb.Pick.{IsPicked, pick_usb_for_entry-IsPicked}
use opendisplay_win.App.Usb.Claims.{Reach, take, drop, start, next, IsExclusive, Reach-IsExclusive}
use opendisplay_win.Net.UsbMux.{UsbMuxDevice}

abbrev kitchen : UsbMuxDevice
kitchen = record { present = true; device_id = 4; serial = codes "S1" }

abbrev desk : UsbMuxDevice
desk = record { present = true; device_id = 7; serial = codes "S2" }

abbrev settings : Config
settings = record default_config {
  usb_link_serials = codes "S1" ∷ [];
  usb_link_ids = codes "A" ∷ [];
}

desk_picked :
    pick_usb_for_entry (some (kitchen ∷ desk ∷ [])) settings [] (codes "B") [] false
    ≡ some (desk, true)
unfolding pick_usb_for_entry free_devices usb_claim_key learned_device unknown_devices
    id_for_usb_serial claimed equal find_binding
desk_picked = refl

-- The cable of the iPad "A" is known; that of "B" is the one that is left.
pick_usb_for_entry-IsPicked_example :
    IsPicked settings [] (codes "B") [] false (kitchen ∷ desk ∷ []) desk true
pick_usb_for_entry-IsPicked_example =
    pick_usb_for_entry-IsPicked (kitchen ∷ desk ∷ []) settings [] (codes "B") [] false desk true
      desk_picked

kitchen_picked :
    pick_usb_for_entry (some (kitchen ∷ desk ∷ [])) settings [] (codes "A") [] true
    ≡ some (kitchen, false)
unfolding pick_usb_for_entry free_devices usb_claim_key learned_device unknown_devices
    id_for_usb_serial claimed equal find_binding
kitchen_picked = refl

abbrev one : UsbClaim
one = record { key = codes "S1" }

abbrev two : UsbClaim
two = record { key = codes "S2" }

-- Two take their cables, and the first drops its own.
left : Reach (record { keys = codes "S2" ∷ []; held = two ∷ [] })
unfolding take_claim drop_claim erase_claim claimed equal
left =
    next
      (next (next start (take (record { keys = []; held = [] }) (codes "S1") refl refl))
        (take (record { keys = codes "S1" ∷ []; held = one ∷ [] }) (codes "S2") refl refl))
      (drop (codes "S2" ∷ codes "S1" ∷ []) (two ∷ []) one [])

Reach-IsExclusive_example : IsExclusive (record { keys = codes "S2" ∷ []; held = two ∷ [] })
Reach-IsExclusive_example = Reach-IsExclusive left
