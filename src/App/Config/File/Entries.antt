-- ===== src/App/Config/File/Entries.antt =====
-- Strings that the file keeps, and the values that the settings have.
use opendisplay_win.Common.{
  ℕ, zero, suc, false, some, List, [], ◌∷◌, Bytes, codes, get_elem?, equal, All, ◌≡◌, inl, inr,
  refl, arith,
}
use opendisplay_win.App.Config.{Config, normalize_mode, normalize_preset}
use opendisplay_win.App.Config.File.{backend_text}
use opendisplay_win.App.Config.File.Lookup.{IsKey}
use opendisplay_win.App.Config.File.Values.{IsText}
use opendisplay_win.App.Config.File.Settled.{IsPreset, IsMode, IsBackend}

-- The keys that Load looks for.
abbrev pub names : List Bytes
names =
    codes "devices"
    ∷ codes "deviceIds"
    ∷ codes "deviceIdFromHello"
    ∷ codes "usbLinkSerials"
    ∷ codes "usbLinkIds"
    ∷ codes "port"
    ∷ codes "autoReconnect"
    ∷ codes "usbWifiFailover"
    ∷ codes "displayBackend"
    ∷ codes "picturePreset"
    ∷ codes "separateUsbWifiPicture"
    ∷ codes "usbEncodeMode"
    ∷ codes "usbEncodePreset"
    ∷ codes "wifiEncodeMode"
    ∷ codes "wifiEncodePreset"
    ∷ codes "ip"
    ∷ []

-- A string that the file keeps: no quote, backslash or closing bracket, and not spelled as a key.
pub record IsEntry (s : Bytes) : Type 0 where
  pub text : IsText s
  pub not_name : All (λ k. equal s k ≡ false) names

pub record IsPlain (c : Config) : Type 0 where
  pub devices : All IsEntry c.devices
  pub device_ids : All IsEntry c.device_ids
  pub device_id_from_hello : All IsEntry c.device_id_from_hello
  pub usb_link_serials : All IsEntry c.usb_link_serials
  pub usb_link_ids : All IsEntry c.usb_link_ids

pub pick :
    (P : Bytes → Type 0) (ks : List Bytes) (i : ℕ) (k : Bytes)
    → All P ks
    → get_elem? ks i ≡ some k
    → P k
pick P [] i k h e = cc
pick P (x ∷ ks) zero k h e = let same : (x ≡ k) = cc in rw (← same) h.0
pick P (x ∷ ks) (suc i) k h e = pick P ks i k h.1 e

pub names_are_keys : All IsKey names
names_are_keys = ground arith

pub all_texts : (vs : List Bytes) → All IsEntry vs → All IsText vs
all_texts [] h = tt
all_texts (v ∷ vs) h = (h.0.text, all_texts vs h.1)

pub literals_are_entries : All IsEntry (
    codes "speed"
    ∷ codes "balanced"
    ∷ codes "quality"
    ∷ codes "dynamic"
    ∷ codes "fixed"
    ∷ codes "auto"
    ∷ codes "mtt"
    ∷ codes "parsec"
    ∷ [])
unfolding equal
literals_are_entries = ground arith

pub IsPreset-IsEntry : (s : Bytes) → IsPreset s → IsEntry s
IsPreset-IsEntry s (inl e) = rw e (literals_are_entries.0)
IsPreset-IsEntry s (inr (inl e)) = rw e (literals_are_entries.1.0)
IsPreset-IsEntry s (inr (inr e)) = rw e (literals_are_entries.1.1.0)

pub IsMode-IsEntry : (s : Bytes) → IsMode s → IsEntry s
IsMode-IsEntry s (inl e) = rw e (literals_are_entries.1.1.1.0)
IsMode-IsEntry s (inr e) = rw e (literals_are_entries.1.1.1.1.0)

pub IsBackend-IsEntry : (s : Bytes) → IsBackend s → IsEntry s
IsBackend-IsEntry s (inl e) = rw e (literals_are_entries.1.1.1.1.1.0)
IsBackend-IsEntry s (inr (inl e)) = rw e (literals_are_entries.1.1.1.1.1.1.0)
IsBackend-IsEntry s (inr (inr e)) = rw e (literals_are_entries.1.1.1.1.1.1.1.0)

pub preset_same : (s : Bytes) → IsPreset s → normalize_preset s ≡ s
unfolding normalize_preset equal
preset_same s (inl e) = rw e refl
preset_same s (inr (inl e)) = rw e refl
preset_same s (inr (inr e)) = rw e refl

pub mode_same : (s : Bytes) → IsMode s → normalize_mode s ≡ s
unfolding normalize_mode equal
mode_same s (inl e) = rw e refl
mode_same s (inr e) = rw e refl

pub backend_same : (s : Bytes) → IsBackend s → backend_text s ≡ s
unfolding backend_text equal
backend_same s (inl e) = rw e refl
backend_same s (inr (inl e)) = rw e refl
backend_same s (inr (inr e)) = rw e refl
