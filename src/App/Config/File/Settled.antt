-- ===== src/App/Config/File/Settled.antt =====
-- What Load gives, whatever the file holds.
use opendisplay_win.Common.{
  ℕ, zero, suc, ◌≤◌, ◌<◌, true, false, Option, none, some, List, [], ◌∷◌, Bytes, codes, length,
  equal_iff, ℤ, pos, negsuc, All, ◌≡◌, ◌⊎◌, inl, inr, refl, sym, ap, ◌∙◌, arith,
}
use opendisplay_win.App.Config.{
  Config, normalize_mode, normalize_preset, resize, is_usb_only,
  sync_transports_from_picture_preset, prune_usb_only_devices,
}
use opendisplay_win.App.Config.Devices.{IsAligned, prune_usb_only_devices_lem}
use opendisplay_win.App.Config.Serials.{IsParallel}
use opendisplay_win.App.Config.File.{
  backend_text, port_or_default, normalized_or, read_int, read_fields, read_picture, settle, load,
}

abbrev pub IsPreset : Bytes → Type 0
IsPreset s = (s ≡ codes "speed") ⊎ (s ≡ codes "balanced") ⊎ (s ≡ codes "quality")

abbrev pub IsMode : Bytes → Type 0
IsMode s = (s ≡ codes "dynamic") ⊎ (s ≡ codes "fixed")

abbrev pub IsBackend : Bytes → Type 0
IsBackend s = (s ≡ codes "auto") ⊎ (s ≡ codes "mtt") ⊎ (s ≡ codes "parsec")

-- Settings that each have a known value, a usable port, and bindings in parallel.
pub record IsNormal (c : Config) : Type 0 where
  pub port_positive : 0 < c.port
  pub port_fits : c.port ≤ 65535
  pub backend : IsBackend c.display_backend
  pub picture : IsPreset c.picture_preset
  pub usb_mode : IsMode c.usb_encode_mode
  pub usb_preset : IsPreset c.usb_encode_preset
  pub wifi_mode : IsMode c.wifi_encode_mode
  pub wifi_preset : IsPreset c.wifi_encode_preset
  pub parallel : IsParallel c

-- One picture preset drives both transports, or they are set apart.
abbrev pub IsSynced : Config → Type 0
IsSynced c =
    (c.separate_usb_wifi_picture ≡ true)
    ⊎ ((c.usb_encode_mode ≡ codes "dynamic")
        × (c.wifi_encode_mode ≡ codes "dynamic")
        × (c.usb_encode_preset ≡ c.picture_preset)
        × (c.wifi_encode_preset ≡ c.picture_preset))

pub record IsSettled (c : Config) : Type 0 where
  pub normal : IsNormal c
  pub synced : IsSynced c
  pub aligned : IsAligned c
  pub wifi_only : All (λ d. is_usb_only d ≡ false) c.devices

normalize_preset-IsPreset : (s : Bytes) → IsPreset (normalize_preset s)
unfolding normalize_preset
normalize_preset-IsPreset s =
    ground (arith, equal_iff s (codes "balanced"), equal_iff s (codes "quality"))

normalize_mode-IsMode : (s : Bytes) → IsMode (normalize_mode s)
unfolding normalize_mode
normalize_mode-IsMode s = ground arith

backend_text-IsBackend : (s : Bytes) → IsBackend (backend_text s)
unfolding backend_text
backend_text-IsBackend s = ground (arith, equal_iff s (codes "mtt"), equal_iff s (codes "parsec"))

normalized_or-IsPreset : (v : Bytes) → IsPreset (normalized_or normalize_preset (codes "speed") v)
normalized_or-IsPreset v = let p = normalize_preset-IsPreset v in ground arith

normalized_or-IsMode : (v : Bytes) → IsMode (normalized_or normalize_mode (codes "dynamic") v)
normalized_or-IsMode v = let p = normalize_mode-IsMode v in ground arith

port_bounds : (o : Option ℤ) → (0 < port_or_default o) × (port_or_default o ≤ 65535)
port_bounds none = omega arith
port_bounds (some (pos n)) = ground arith
port_bounds (some (negsuc n)) = omega arith

pub length-resize : (n : ℕ) (xs : List Bytes) → length (resize n xs) ≡ n
unfolding resize
length-resize zero xs = refl
length-resize (suc n) [] = ap suc (length-resize n [])
length-resize (suc n) (x ∷ xs) = ap suc (length-resize n xs)

read_fields-IsNormal : (json : Bytes) → IsNormal (read_fields json)
unfolding read_fields
read_fields-IsNormal json = record {
  port_positive = (port_bounds (read_int json (codes "port"))).0;
  port_fits = (port_bounds (read_int json (codes "port"))).1;
  backend = backend_text-IsBackend _;
  picture = inl refl;
  usb_mode = normalized_or-IsMode _;
  usb_preset = normalized_or-IsPreset _;
  wifi_mode = normalized_or-IsMode _;
  wifi_preset = normalized_or-IsPreset _;
  parallel = length-resize _ _ ∙ sym (length-resize _ _);
}

read_picture-IsNormal : (v : Bytes) (c : Config) → IsNormal c → IsNormal (read_picture v c)
unfolding read_picture
read_picture-IsNormal v c h = let p = normalize_preset-IsPreset v in ground arith

sync-IsNormal :
    (c : Config)
    → IsNormal c
    → IsNormal (sync_transports_from_picture_preset c)
      × IsSynced (sync_transports_from_picture_preset c)
unfolding sync_transports_from_picture_preset
sync-IsNormal c h = let p = normalize_preset-IsPreset c.picture_preset in ground arith

prune-IsNormal :
    (c : Config)
    → IsNormal c × IsSynced c
    → IsNormal (prune_usb_only_devices c).0 × IsSynced (prune_usb_only_devices c).0
unfolding prune_usb_only_devices
prune-IsNormal c h = ground arith

settle-IsSettled : (c : Config) → IsNormal c → IsSettled (settle c).0
unfolding settle
settle-IsSettled c h =
    let synced = sync_transports_from_picture_preset c in
    let kept = prune-IsNormal synced (sync-IsNormal c h) in
    let rows = prune_usb_only_devices_lem synced in
    record { normal = kept.0; synced = kept.1; aligned = rows.1; wifi_only = rows.3 }

-- Whatever the file holds, or if there is none, Load gives settings that each have a known value,
-- a port from 1 to 65535, the two transports in line with the picture preset unless they are set
-- apart, lists of one size, and no row of a loopback host.
pub load-IsSettled : (file : Option Bytes) → IsSettled (load file).0
unfolding load
load-IsSettled none = record {
  normal = record {
    port_positive = omega arith;
    port_fits = omega arith;
    backend = inl refl;
    picture = inl refl;
    usb_mode = inl refl;
    usb_preset = inl refl;
    wifi_mode = inl refl;
    wifi_preset = inl refl;
    parallel = refl;
  };
  synced = inr (refl, refl, refl, refl);
  aligned = record { ids_aligned = refl; hellos_aligned = refl };
  wifi_only = tt;
}
load-IsSettled (some json) =
    settle-IsSettled _ (read_picture-IsNormal _ _ (read_fields-IsNormal json))
