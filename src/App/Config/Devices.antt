-- ===== src/App/Config/Devices.antt =====
-- The rows of the device list: an address with its id and where the id came from.
use opendisplay_win.Common.{
  ◌+◌, if◌then◌else◌, false, List, [], ◌∷◌, Bytes, length, ◌≡◌, arith, All,
}
use opendisplay_win.App.Config.{
  Config, resize, is_usb_only, Kept, keep_rows, keep_row, prune_usb_only_devices,
}

pub record Row : Type 0 where
  pub device : Bytes
  pub id : Bytes
  pub from_hello : Bytes

-- The three lists as one; a missing id or mark is empty.
abbrev head_or_empty : List Bytes → Bytes
head_or_empty [] = []
head_or_empty (x ∷ xs) = x

abbrev tail_of : List Bytes → List Bytes
tail_of [] = []
tail_of (x ∷ xs) = xs

abbrev pub rows : List Bytes → List Bytes → List Bytes → List Row
rows [] ids hellos = []
rows (d ∷ ds) ids hellos =
    record { device = d; id = head_or_empty ids; from_hello = head_or_empty hellos }
    ∷ rows ds (tail_of ids) (tail_of hellos)

abbrev pub rows_of : Config → List Row
rows_of c = rows c.devices c.device_ids c.device_id_from_hello

abbrev pub wifi_rows : List Row → List Row
wifi_rows [] = []
wifi_rows (r ∷ rs) = if is_usb_only r.device then wifi_rows rs else r ∷ wifi_rows rs

abbrev rows_kept : Kept → List Row
rows_kept k = rows k.kept_devices k.kept_ids k.kept_from_hello

pub record IsAligned (c : Config) : Type 0 where
  pub ids_aligned : length c.device_ids ≡ length c.devices
  pub hellos_aligned : length c.device_id_from_hello ≡ length c.devices

record HasSizes (k : Kept) (ds : List Bytes) : Type 0 where
  ids_size : length k.kept_ids ≡ length k.kept_devices
  hellos_size : length k.kept_from_hello ≡ length k.kept_devices
  counted : k.removed + length k.kept_devices ≡ length ds
  wifi : All (λ d. is_usb_only d ≡ false) k.kept_devices

keep_rows_lem :
    (ds ids hellos : List Bytes)
    → (rows_kept (keep_rows ds (resize (length ds) ids) (resize (length ds) hellos))
        ≡ wifi_rows (rows ds ids hellos))
      × HasSizes (keep_rows ds (resize (length ds) ids) (resize (length ds) hellos)) ds
unfolding keep_rows keep_row resize
keep_rows_lem [] ids hellos = ground arith
keep_rows_lem (d ∷ ds) [] [] = let ih = keep_rows_lem ds [] [] in ground arith
keep_rows_lem (d ∷ ds) [] (h ∷ hs) = let ih = keep_rows_lem ds [] hs in ground arith
keep_rows_lem (d ∷ ds) (i ∷ is) [] = let ih = keep_rows_lem ds is [] in ground arith
keep_rows_lem (d ∷ ds) (i ∷ is) (h ∷ hs) = let ih = keep_rows_lem ds is hs in ground arith

-- PruneUsbOnlyDevices keeps the rows whose address is no loopback host, each with its own id and
-- mark and in their order, leaves the three lists at one size, and returns how many rows went.
pub prune_usb_only_devices_lem :
    (c : Config)
    → (rows_of (prune_usb_only_devices c).0 ≡ wifi_rows (rows_of c))
      × IsAligned (prune_usb_only_devices c).0
      × ((prune_usb_only_devices c).1 + length (prune_usb_only_devices c).0.devices
          ≡ length c.devices)
      × All (λ d. is_usb_only d ≡ false) (prune_usb_only_devices c).0.devices
unfolding prune_usb_only_devices
prune_usb_only_devices_lem c =
    let (e, s) = keep_rows_lem c.devices c.device_ids c.device_id_from_hello in
    (e, record { ids_aligned = s.ids_size; hellos_aligned = s.hellos_size }, s.counted, s.wifi)
