-- ===== src/App/Config/File.antt =====
-- src/app/Config.cpp: the file. A string view is the rest of the text, empty where nothing was
-- found; Load is given the content of the file, if there is one, and Save gives what it writes.
pub mod Lookup
pub mod Values
pub mod Settled
pub mod Entries
pub mod Reads
pub mod RoundTrip
use Prim.Native.Nat.{min}
use opendisplay_win.Common.{
  ℕ, zero, suc, ◌+◌, ◌-◌, ◌^◌, ltb, leb, ◌==◌, if◌then◌else◌, Bool, true, false, not, ◌&&◌, ◌||◌,
  Option, none, some, value_or, List, [], ◌∷◌, ◌++◌, Bytes, codes, length, take, equal, ℤ, pos,
  negsuc, strip, cut, cut_at, skip_space, digits, read_digits,
}
use opendisplay_win.App.Config.{
  Config, default_config, is_empty, normalize_mode, normalize_preset, resize,
  sync_transports_from_picture_preset, prune_usb_only_devices,
}

abbrev pub quote : ℕ
quote = 34

abbrev pub backslash : ℕ
backslash = 92

abbrev pub quoted : Bytes → Bytes
quoted key = quote ∷ (key ++ quote ∷ [])

abbrev pub behind : Option (Bytes × Bytes) → Bytes
behind none = []
behind (some p) = p.1

unfoldable pub value_after : Bytes → Bytes → Bytes
value_after json key = skip_space (behind (cut_at b':' (behind (cut (quoted key) json))))

abbrev pub text_before : Option (Bytes × Bytes) → Bytes
text_before none = []
text_before (some p) = p.0

-- The view begins with a quote; the string is the text up to the next one.
abbrev pub string_of : Bytes → Bytes
string_of [] = []
string_of (c ∷ v) = if c == quote then text_before (cut_at quote v) else []

unfoldable pub read_string : Bytes → Bytes → Bytes
read_string json key = string_of (value_after json key)

-- `strtol` in base 10, with a `long` of 32 bits.
abbrev pub signed_of : Bytes → ℤ
signed_of [] = pos 0
signed_of (c ∷ t) =
    if c == b'-'
    then (elim (min (read_digits 0 t) (2 ^ 31)) [ zero ↦ pos 0 | suc n ↦ negsuc n ])
    else pos (min (read_digits 0 (if c == b'+' then t else c ∷ t)) (2 ^ 31 - 1))

unfoldable pub strtol : Bytes → ℤ
strtol t = signed_of (skip_space t)

abbrev pub int_of : Bytes → Option ℤ
int_of [] = none
int_of (c ∷ v) = some (strtol (take 16 (c ∷ v)))

unfoldable pub read_int : Bytes → Bytes → Option ℤ
read_int json key = int_of (value_after json key)

-- The loop over the quoted values. Within a value its text so far is kept; one that does not end
-- is dropped.
unfoldable pub strings_in : Option Bytes → Bytes → List Bytes
strings_in value [] = []
strings_in none (c ∷ t) =
    let opened = strings_in (some []) t in
    let next = strings_in none t in if c == quote then opened else next
strings_in (some value) (c ∷ t) =
    let closed = value ∷ strings_in none t in
    let next = strings_in (some (value ++ c ∷ [])) t in if c == quote then closed else next

abbrev pub array_of : Bytes → List Bytes
array_of [] = []
array_of (c ∷ v) = if c == b'[' then strings_in none (text_before (cut_at b']' v)) else []

unfoldable pub read_string_array : Bytes → Bytes → List Bytes
read_string_array json key = array_of (value_after json key)

abbrev pub bool_of : Option Bytes → Option Bytes → Option Bool
bool_of (some _) _ = some true
bool_of none (some _) = some false
bool_of none none = none

-- None leaves the setting as it is.
unfoldable pub read_bool : Bytes → Bytes → Option Bool
read_bool json key =
    let v = value_after json key in bool_of (strip (codes "true") v) (strip (codes "false") v)

unfoldable pub plain_json_string : Bytes → Bytes
plain_json_string [] = []
plain_json_string (c ∷ s) =
    let more = plain_json_string s in if c == quote || c == backslash then more else c ∷ more

abbrev pub separator : Bool → Bytes
separator true = []
separator false = codes ", "

unfoldable pub array_items : Bool → List Bytes → Bytes
array_items first [] = []
array_items first (v ∷ values) =
    separator first ++ (quote ∷ (plain_json_string v ++ quote ∷ array_items false values))

-- A line of the file: WriteStringArray, a quoted string, or a number or truth value.
pub data Value : Type 0 where
  strings : List Bytes → Value
  string : Bytes → Value
  plain : Bytes → Value

pub record Line : Type 0 where
  pub key : Bytes
  pub value : Value

unfoldable pub value_text : Value → Bytes → Bytes
value_text (strings vs) rest = b'[' ∷ (array_items true vs ++ b']' ∷ rest)
value_text (string s) rest = quote ∷ (s ++ quote ∷ rest)
value_text (plain s) rest = s ++ rest

-- The lines behind what stands in front of the first of them; between two is a comma.
unfoldable pub lines_text : Bytes → List Line → Bytes
lines_text front [] = codes "\n}\n"
lines_text front (l ∷ ls) =
    front
    ++ (codes "  "
        ++ (quote
            ∷ (l.key ++ quote ∷ (codes ": " ++ value_text l.value (lines_text (codes ",\n") ls)))))

abbrev pub bool_text : Bool → Bytes
bool_text b = if b then codes "true" else codes "false"

unfoldable pub backend_text : Bytes → Bytes
backend_text s = if equal s (codes "mtt") || equal s (codes "parsec") then s else codes "auto"

unfoldable pub lines : Config → List Line
lines c =
    record { key = codes "devices"; value = strings c.devices }
    ∷ record { key = codes "deviceIds"; value = strings c.device_ids }
    ∷ record { key = codes "deviceIdFromHello"; value = strings c.device_id_from_hello }
    ∷ record { key = codes "usbLinkSerials"; value = strings c.usb_link_serials }
    ∷ record { key = codes "usbLinkIds"; value = strings c.usb_link_ids }
    ∷ record { key = codes "port"; value = plain (digits c.port) }
    ∷ record { key = codes "autoReconnect"; value = plain (bool_text c.auto_reconnect) }
    ∷ record { key = codes "usbWifiFailover"; value = plain (bool_text c.usb_wifi_failover) }
    ∷ record { key = codes "displayBackend"; value = string (backend_text c.display_backend) }
    ∷ record { key = codes "picturePreset"; value = string (normalize_preset c.picture_preset) }
    ∷ record {
      key = codes "separateUsbWifiPicture";
      value = plain (bool_text c.separate_usb_wifi_picture);
    }
    ∷ record { key = codes "usbEncodeMode"; value = string (normalize_mode c.usb_encode_mode) }
    ∷ record {
      key = codes "usbEncodePreset";
      value = string (normalize_preset c.usb_encode_preset);
    }
    ∷ record { key = codes "wifiEncodeMode"; value = string (normalize_mode c.wifi_encode_mode) }
    ∷ record {
      key = codes "wifiEncodePreset";
      value = string (normalize_preset c.wifi_encode_preset);
    }
    ∷ []

-- The copy that Save writes.
unfoldable pub saved_copy : Config → Config
saved_copy c =
    let out = sync_transports_from_picture_preset c in
    record out {
      device_ids = resize (length out.devices) out.device_ids;
      device_id_from_hello = resize (length out.devices) out.device_id_from_hello;
    }

unfoldable pub save : Config → Bytes
save c = lines_text (codes "{\n") (lines (saved_copy c))

-- A file of the version for one iPad has a bare "ip".
abbrev pub devices_or_legacy : List Bytes → Bytes → List Bytes
devices_or_legacy [] legacy = if is_empty legacy then [] else legacy ∷ []
devices_or_legacy (d ∷ ds) legacy = d ∷ ds

abbrev pub port_or_default : Option ℤ → ℕ
port_or_default (some (pos n)) = if ltb 0 n && leb n 65535 then n else 9000
port_or_default _ = 9000

abbrev pub normalized_or : (Bytes → Bytes) → Bytes → Bytes → Bytes
normalized_or normalize default_value v = if is_empty v then default_value else normalize v

-- What Load reads, before the picture settings are brought into line.
unfoldable pub read_fields : Bytes → Config
read_fields json =
    let devices =
      devices_or_legacy (read_string_array json (codes "devices"))
        (read_string json (codes "ip")) in
    let serials = read_string_array json (codes "usbLinkSerials") in
    let ids = read_string_array json (codes "usbLinkIds") in
    let links = min (length serials) (length ids) in
    record {
      devices = devices;
      device_ids = resize (length devices) (read_string_array json (codes "deviceIds"));
      device_id_from_hello =
          resize (length devices) (read_string_array json (codes "deviceIdFromHello"));
      usb_link_serials = resize links serials;
      usb_link_ids = resize links ids;
      port = port_or_default (read_int json (codes "port"));
      auto_reconnect = value_or true (read_bool json (codes "autoReconnect"));
      display_backend = backend_text (read_string json (codes "displayBackend"));
      usb_wifi_failover = value_or true (read_bool json (codes "usbWifiFailover"));
      picture_preset = codes "speed";
      separate_usb_wifi_picture = value_or false (read_bool json (codes "separateUsbWifiPicture"));
      usb_encode_mode =
          normalized_or normalize_mode (codes "dynamic") (read_string json (codes "usbEncodeMode"));
      usb_encode_preset =
          normalized_or normalize_preset (codes "speed")
            (read_string json (codes "usbEncodePreset"));
      wifi_encode_mode =
          normalized_or normalize_mode (codes "dynamic")
            (read_string json (codes "wifiEncodeMode"));
      wifi_encode_preset =
          normalized_or normalize_preset (codes "speed")
            (read_string json (codes "wifiEncodePreset"));
    }

-- An old file has no picture preset.
unfoldable pub read_picture : Bytes → Config → Config
read_picture v c =
    if is_empty v
    then record c {
      picture_preset = c.usb_encode_preset;
      separate_usb_wifi_picture =
          c.separate_usb_wifi_picture
          || not (equal c.usb_encode_mode c.wifi_encode_mode)
          || not (equal c.usb_encode_preset c.wifi_encode_preset);
    }
    else record c { picture_preset = normalize_preset v }

-- The settings, and what Load writes back if it dropped rows.
unfoldable pub settle : Config → Config × Option Bytes
settle c =
    let (kept, removed) = prune_usb_only_devices (sync_transports_from_picture_preset c) in
    (kept, if ltb 0 removed then some (save kept) else none)

unfoldable pub load : Option Bytes → Config × Option Bytes
load none = (default_config, none)
load (some json) =
    settle (read_picture (read_string json (codes "picturePreset")) (read_fields json))
