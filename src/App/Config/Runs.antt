-- ===== src/App/Config/Runs.antt =====
-- Settings that are saved and loaded, a file that someone edited, and a name with a bracket.
use opendisplay_win.Common.{
  ◌+◌, true, false, none, some, List, [], ◌∷◌, Bytes, codes, length, equal, strip, cut, cut_at,
  skip_space, digits, read_digits, All, ◌≡◌, refl, arith,
}
use opendisplay_win.App.Config.{
  Config, default_config, normalize_mode, normalize_preset, resize, is_loopback_host,
  device_address_token, is_usb_only, keep_row, keep_rows, prune_usb_only_devices,
  sync_transports_from_picture_preset, id_for_usb_serial,
}
use opendisplay_win.App.Config.Devices.{IsAligned, rows_of, wifi_rows, prune_usb_only_devices_lem}
use opendisplay_win.App.Config.Serials.{IsParallel, remember_all, assign_all, remember_all_refines}
use opendisplay_win.App.Config.File.{
  load, save, saved_copy, lines, lines_text, value_text, array_items, plain_json_string,
  backend_text, read_fields, read_picture, settle, read_string_array, read_string, read_int,
  read_bool, value_after, strings_in, strtol,
}
use opendisplay_win.App.Config.File.Settled.{IsSettled, load-IsSettled}
use opendisplay_win.App.Config.File.Entries.{IsPlain}
use opendisplay_win.App.Config.File.RoundTrip.{load-save}

abbrev two_tablets : Config
two_tablets = record default_config {
  devices = codes "192.168.1.20 Desk" ∷ codes "10.0.0.7" ∷ [];
  device_ids = codes "5C2B" ∷ [] ∷ [];
  device_id_from_hello = [] ∷ codes "1" ∷ [];
  usb_link_serials = codes "0001" ∷ [];
  usb_link_ids = codes "5C2B" ∷ [];
  port = 9100;
  auto_reconnect = false;
  display_backend = codes "mtt";
  separate_usb_wifi_picture = true;
  wifi_encode_preset = codes "quality";
}

two_tablets-IsPlain : IsPlain two_tablets
unfolding equal
two_tablets-IsPlain = ground arith

two_tablets-IsSettled : IsSettled two_tablets
unfolding is_usb_only is_loopback_host device_address_token equal
two_tablets-IsSettled = ground arith

load-save_example : load (some (save two_tablets)) ≡ (two_tablets, none)
load-save_example = load-save two_tablets two_tablets-IsSettled two_tablets-IsPlain

abbrev edited : Bytes
edited =
    codes
      "{\"devices\": [\"localhost\", \"10.0.0.9\"], \"port\": 70000, \"picturePreset\": \"best\"}"

load-IsSettled_example : IsSettled (load (some edited)).0
load-IsSettled_example = load-IsSettled (some edited)

abbrev mixed_rows : Config
mixed_rows = record default_config {
  devices = codes "127.0.0.1 USB" ∷ codes "10.0.0.7" ∷ [];
  device_ids = codes "AA" ∷ codes "BB" ∷ [];
}

prune_usb_only_devices_lem_example :
    (rows_of (prune_usb_only_devices mixed_rows).0 ≡ wifi_rows (rows_of mixed_rows))
    × IsAligned (prune_usb_only_devices mixed_rows).0
    × ((prune_usb_only_devices mixed_rows).1 + length (prune_usb_only_devices mixed_rows).0.devices
        ≡ length mixed_rows.devices)
    × All (λ d. is_usb_only d ≡ false) (prune_usb_only_devices mixed_rows).0.devices
prune_usb_only_devices_lem_example = prune_usb_only_devices_lem mixed_rows

abbrev sessions : List (Bytes × Bytes)
sessions = (codes "0001", codes "AA") ∷ (codes "0002", codes "BB") ∷ (codes "0001", codes "CC") ∷ []

remember_all_refines_example :
    IsParallel (remember_all sessions two_tablets)
    × ((j : Bytes)
        → id_for_usb_serial (remember_all sessions two_tablets) j
          ≡ assign_all sessions (id_for_usb_serial two_tablets) j)
remember_all_refines_example = remember_all_refines sessions two_tablets refl

-- A closing bracket in a name ends the list too soon when it is read, and the row is lost.
abbrev bracketed : Config
bracketed = record default_config { devices = codes "10.0.0.7 iPad [desk]" ∷ codes "10.0.0.8" ∷ [] }

bracketed_run : (load (some (save bracketed))).0.devices ≡ []
unfolding load save saved_copy lines lines_text value_text array_items plain_json_string
    backend_text read_fields read_picture settle read_string_array read_string read_int read_bool
    value_after strings_in strtol equal strip cut cut_at skip_space digits read_digits
    normalize_mode normalize_preset resize is_loopback_host device_address_token is_usb_only
    keep_row keep_rows prune_usb_only_devices sync_transports_from_picture_preset
bracketed_run = refl
