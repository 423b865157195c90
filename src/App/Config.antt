-- ===== src/App/Config.antt =====
-- src/app/Config.h and Config.cpp: the settings, and what the program does to them in memory. A
-- string is its bytes. The file is in File.
pub mod Serials
pub mod Devices
pub mod File
mod Runs
use opendisplay_win.Common.{
  ℕ, zero, suc, ◌+◌, ltb, ◌==◌, if◌then◌else◌, Bool, true, false, not, ◌&&◌, ◌||◌, Option, none,
  some, List, [], ◌∷◌, ◌++◌, Bytes, codes, length, get_elem?, equal,
}

pub record Config : Type 0 where
  pub devices : List Bytes
  pub device_ids : List Bytes
  pub device_id_from_hello : List Bytes
  pub usb_link_serials : List Bytes
  pub usb_link_ids : List Bytes
  pub port : ℕ
  pub auto_reconnect : Bool
  pub display_backend : Bytes
  pub usb_wifi_failover : Bool
  pub picture_preset : Bytes
  pub separate_usb_wifi_picture : Bool
  pub usb_encode_mode : Bytes
  pub usb_encode_preset : Bytes
  pub wifi_encode_mode : Bytes
  pub wifi_encode_preset : Bytes

abbrev pub default_config : Config
default_config = record {
  devices = [];
  device_ids = [];
  device_id_from_hello = [];
  usb_link_serials = [];
  usb_link_ids = [];
  port = 9000;
  auto_reconnect = true;
  display_backend = codes "auto";
  usb_wifi_failover = true;
  picture_preset = codes "speed";
  separate_usb_wifi_picture = false;
  usb_encode_mode = codes "dynamic";
  usb_encode_preset = codes "speed";
  wifi_encode_mode = codes "dynamic";
  wifi_encode_preset = codes "speed";
}

abbrev pub is_empty : Bytes → Bool
is_empty [] = true
is_empty (c ∷ s) = false

-- `index < deviceIdFromHello.size() && deviceIdFromHello[index] == "1"`
abbrev is_one : Option Bytes → Bool
is_one none = false
is_one (some s) = equal s (codes "1")

abbrev follows : Option Bytes → Bool → Bool
follows none from_hello = true
follows (some id) from_hello = is_empty id || from_hello

unfoldable pub id_follows_hello : Config → ℕ → Bool
id_follows_hello c index =
    follows (get_elem? c.device_ids index) (is_one (get_elem? c.device_id_from_hello index))

unfoldable pub normalize_mode : Bytes → Bytes
normalize_mode s = if equal s (codes "fixed") then codes "fixed" else codes "dynamic"

unfoldable pub normalize_preset : Bytes → Bytes
normalize_preset s =
    if equal s (codes "balanced") || equal s (codes "quality") then s else codes "speed"

unfoldable pub sync_transports_from_picture_preset : Config → Config
sync_transports_from_picture_preset c = if c.separate_usb_wifi_picture then c else record c {
  picture_preset = normalize_preset c.picture_preset;
  usb_encode_mode = codes "dynamic";
  wifi_encode_mode = codes "dynamic";
  usb_encode_preset = normalize_preset c.picture_preset;
  wifi_encode_preset = normalize_preset c.picture_preset;
}

-- `resize` of a vector of strings.
unfoldable pub resize : ℕ → List Bytes → List Bytes
resize zero xs = []
resize (suc n) [] = [] ∷ resize n []
resize (suc n) (x ∷ xs) = x ∷ resize n xs

unfoldable pub is_loopback_host : Bytes → Bool
is_loopback_host host =
    equal host (codes "127.0.0.1") || equal host (codes "::1") || equal host (codes "localhost")

-- The text before the first space or tab.
unfoldable pub device_address_token : Bytes → Bytes
device_address_token [] = []
device_address_token (c ∷ entry) =
    let more = device_address_token entry in if c == 32 || c == 9 then [] else c ∷ more

unfoldable pub is_usb_only : Bytes → Bool
is_usb_only entry = is_loopback_host (device_address_token entry)

-- `keptDevices`, `keptIds`, `keptFromHello` and `removed`.
pub record Kept : Type 0 where
  pub kept_devices : List Bytes
  pub kept_ids : List Bytes
  pub kept_from_hello : List Bytes
  pub removed : ℕ

abbrev none_kept : Kept
none_kept = record { kept_devices = []; kept_ids = []; kept_from_hello = []; removed = 0 }

-- One round, in front of the rounds for the later rows.
unfoldable pub keep_row : Bytes → Bytes → Bytes → Kept → Kept
keep_row device id from_hello later =
    if is_usb_only device then record later { removed = later.removed + 1 } else record later {
      kept_devices = device ∷ later.kept_devices;
      kept_ids = id ∷ later.kept_ids;
      kept_from_hello = from_hello ∷ later.kept_from_hello;
    }

-- The lists are of one size when the loop begins.
unfoldable pub keep_rows : List Bytes → List Bytes → List Bytes → Kept
keep_rows (device ∷ devices) (id ∷ ids) (from_hello ∷ hellos) =
    keep_row device id from_hello (keep_rows devices ids hellos)
keep_rows _ _ _ = none_kept

unfoldable pub prune_usb_only_devices : Config → Config × ℕ
prune_usb_only_devices c =
    let n = length c.devices in
    let kept = keep_rows c.devices (resize n c.device_ids) (resize n c.device_id_from_hello) in
    (
      record c {
        devices = kept.kept_devices;
        device_ids = kept.kept_ids;
        device_id_from_hello = kept.kept_from_hello;
      },
      kept.removed,
    )

abbrev cons_pair : Bytes → Bytes → List Bytes × List Bytes → List Bytes × List Bytes
cons_pair s i (ss, is) = (s ∷ ss, i ∷ is)

-- The loop over the bindings, and the two `push_back` behind it.
unfoldable pub put_binding : Bytes → Bytes → List Bytes → List Bytes → List Bytes × List Bytes
put_binding serial id (s ∷ serials) (i ∷ ids) =
    let rest = put_binding serial id serials ids in
    if equal s serial then (s ∷ serials, id ∷ ids) else cons_pair s i rest
put_binding serial id serials ids = (serials ++ serial ∷ [], ids ++ id ∷ [])

unfoldable pub remember_usb_serial_id : Config → Bytes → Bytes → Config
remember_usb_serial_id c serial id =
    if is_empty serial || is_empty id
    then c
    else (let (serials, ids) = put_binding serial id c.usb_link_serials c.usb_link_ids in
        record c { usb_link_serials = serials; usb_link_ids = ids })

unfoldable pub find_binding : Bytes → List Bytes → List Bytes → Bytes
find_binding serial (s ∷ serials) (i ∷ ids) =
    if equal s serial then i else find_binding serial serials ids
find_binding serial _ _ = []

unfoldable pub id_for_usb_serial : Config → Bytes → Bytes
id_for_usb_serial c serial =
    if is_empty serial then [] else find_binding serial c.usb_link_serials c.usb_link_ids
