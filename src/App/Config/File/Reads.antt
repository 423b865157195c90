-- ===== src/App/Config/File/Reads.antt =====
-- What Load reads for each key of a written file.
use opendisplay_win.Common.{
  ℕ, suc, Bool, true, false, some, List, [], ◌∷◌, ◌++◌, Bytes, codes, get_elem?, drop, equal,
  cut_at, skip_space, digits, digits_plain, is_digit, All, Absent, ◌≡◌, refl, ap, ◌∙◌, arith,
}
use opendisplay_win.App.Config.{Config, normalize_mode, normalize_preset}
use opendisplay_win.App.Config.File.{
  quote, behind, string_of, value_after, read_string, read_string_array, read_bool, read_int,
  port_or_default, value_text, Value, strings, string, plain, lines_text, lines, bool_text,
  backend_text,
}
use opendisplay_win.App.Config.File.Lookup.{IsKey, IsOther, IsOtherLine, found_in, after-lines_text}
use opendisplay_win.App.Config.File.Values.{
  IsFound, read_string_array-lines_text, read_string-lines_text, read_bool-lines_text,
  read_int-lines_text,
}
use opendisplay_win.App.Config.File.Settled.{IsNormal}
use opendisplay_win.App.Config.File.Entries.{
  names, IsEntry, IsPlain, pick, IsPreset-IsEntry, IsMode-IsEntry, IsBackend-IsEntry, preset_same,
  mode_same, backend_same, names_are_keys, all_texts,
}

digits_quote_free : (ds : Bytes) → All (λ d. is_digit d ≡ true) ds → Absent quote ds
digits_quote_free [] h = tt
digits_quote_free (d ∷ ds) h = (ground (arith, h.0), digits_quote_free ds h.1)

bool_quote_free : (b : Bool) → Absent quote (bool_text b)
bool_quote_free true = ground arith
bool_quote_free false = ground arith

IsEntry-IsOther : (s k : Bytes) (i : ℕ) → get_elem? names i ≡ some k → IsEntry s → IsOther k s
IsEntry-IsOther s k i e h = record {
  no_quote = h.text.no_quote;
  no_backslash = h.text.no_backslash;
  other = pick (λ n. equal s n ≡ false) names i k h.not_name e;
}

all_others :
    (k : Bytes) (i : ℕ) (vs : List Bytes)
    → get_elem? names i ≡ some k
    → All IsEntry vs
    → All (IsOther k) vs
all_others k i [] e h = tt
all_others k i (v ∷ vs) e h = (IsEntry-IsOther v k i e h.0, all_others k i vs e h.1)

module _ (c : Config) (p : IsPlain c) (n : IsNormal c) where
  -- No value of the written file holds a key.
  lines_others : (k : Bytes) (i : ℕ) → get_elem? names i ≡ some k → All (IsOtherLine k) (lines c)
  unfolding lines
  lines_others k i e =
      let all = λ (vs : List Bytes). all_others k i vs e in
      let entry = λ (t : Bytes). IsEntry-IsOther t k i e in
      ground (
        arith,
        all c.devices p.devices,
        all c.device_ids p.device_ids,
        all c.device_id_from_hello p.device_id_from_hello,
        all c.usb_link_serials p.usb_link_serials,
        all c.usb_link_ids p.usb_link_ids,
        digits_quote_free (digits c.port) (digits_plain c.port),
        bool_quote_free c.auto_reconnect,
        bool_quote_free c.usb_wifi_failover,
        bool_quote_free c.separate_usb_wifi_picture,
        entry (backend_text c.display_backend)
            (rw (backend_same c.display_backend n.backend) (IsBackend-IsEntry _ n.backend)),
        entry (normalize_preset c.picture_preset)
            (rw (preset_same c.picture_preset n.picture) (IsPreset-IsEntry _ n.picture)),
        entry (normalize_mode c.usb_encode_mode)
            (rw (mode_same c.usb_encode_mode n.usb_mode) (IsMode-IsEntry _ n.usb_mode)),
        entry (normalize_preset c.usb_encode_preset)
            (rw (preset_same c.usb_encode_preset n.usb_preset) (IsPreset-IsEntry _ n.usb_preset)),
        entry (normalize_mode c.wifi_encode_mode)
            (rw (mode_same c.wifi_encode_mode n.wifi_mode) (IsMode-IsEntry _ n.wifi_mode)),
        entry (normalize_preset c.wifi_encode_preset) (
            rw (preset_same c.wifi_encode_preset n.wifi_preset) (IsPreset-IsEntry _ n.wifi_preset)),
      )

  lines-IsFound :
      (k : Bytes) (i : ℕ) (v : Value)
      → get_elem? names i ≡ some k
      → found_in k (lines c)
        ≡ codes ": " ++ value_text v (lines_text (codes ",\n") (drop (suc i) (lines c)))
      → IsFound k v (lines c)
  lines-IsFound k i v e f = record {
    is_key = pick IsKey names i k names_are_keys e;
    others = lines_others k i e;
    later = drop (suc i) (lines c);
    found = f;
  }

  abbrev text : Bytes
  text = lines_text (codes "{\n") (lines c)

  -- The view behind a key, by the kind of its value.
  array_read :
      (k : Bytes) (i : ℕ) (vs : List Bytes)
      → get_elem? names i ≡ some k
      → All IsEntry vs
      → found_in k (lines c)
        ≡ codes ": " ++ value_text (strings vs) (lines_text (codes ",\n") (drop (suc i) (lines c)))
      → read_string_array text k ≡ vs
  array_read k i vs e h f =
      read_string_array-lines_text k (codes "{\n") (lines c) (ground arith) vs (all_texts vs h)
        (lines-IsFound k i (strings vs) e f)

  string_read :
      (k : Bytes) (i : ℕ) (s written : Bytes)
      → get_elem? names i ≡ some k
      → IsEntry s
      → written ≡ s
      → found_in k (lines c)
        ≡ codes ": "
          ++ value_text (string written) (lines_text (codes ",\n") (drop (suc i) (lines c)))
      → read_string text k ≡ s
  string_read k i s written e h w f =
      read_string-lines_text k (codes "{\n") (lines c) (ground arith) written (rw w h.text)
        (lines-IsFound k i (string written) e f)
      ∙ w

  bool_read :
      (k : Bytes) (i : ℕ) (b : Bool)
      → get_elem? names i ≡ some k
      → found_in k (lines c)
        ≡ codes ": "
          ++ value_text (plain (bool_text b)) (lines_text (codes ",\n") (drop (suc i) (lines c)))
      → read_bool text k ≡ some b
  bool_read k i b e f =
      read_bool-lines_text k (codes "{\n") (lines c) (ground arith) b
        (lines-IsFound k i (plain (bool_text b)) e f)

  -- No line has the key of the old version.
  pub read_legacy : read_string text (codes "ip") ≡ []
  unfolding read_string value_after lines equal
  read_legacy =
      ap (λ b. string_of (skip_space (behind (cut_at b':' b))))
        (after-lines_text (codes "ip") (codes "{\n") (lines c)
          (pick IsKey names 15 (codes "ip") names_are_keys refl) (ground arith)
          (lines_others (codes "ip") 15 refl))
      ∙ unfold cut_at skip_space in refl

  pub read_devices : read_string_array text (codes "devices") ≡ c.devices
  unfolding lines equal
  read_devices = array_read (codes "devices") 0 c.devices refl p.devices refl

  pub read_ids : read_string_array text (codes "deviceIds") ≡ c.device_ids
  unfolding lines equal
  read_ids = array_read (codes "deviceIds") 1 c.device_ids refl p.device_ids refl

  pub read_hellos : read_string_array text (codes "deviceIdFromHello") ≡ c.device_id_from_hello
  unfolding lines equal
  read_hellos =
      array_read (codes "deviceIdFromHello") 2 c.device_id_from_hello refl p.device_id_from_hello
        refl

  pub read_serials : read_string_array text (codes "usbLinkSerials") ≡ c.usb_link_serials
  unfolding lines equal
  read_serials =
      array_read (codes "usbLinkSerials") 3 c.usb_link_serials refl p.usb_link_serials refl

  pub read_links : read_string_array text (codes "usbLinkIds") ≡ c.usb_link_ids
  unfolding lines equal
  read_links = array_read (codes "usbLinkIds") 4 c.usb_link_ids refl p.usb_link_ids refl

  pub read_port : port_or_default (read_int text (codes "port")) ≡ c.port
  unfolding lines equal
  read_port =
      read_int-lines_text (codes "port") (codes "{\n") (lines c) (ground arith) c.port
        n.port_positive n.port_fits
        (lines-IsFound (codes "port") 5 (plain (digits c.port)) refl refl)

  pub read_reconnect : read_bool text (codes "autoReconnect") ≡ some c.auto_reconnect
  unfolding lines equal
  read_reconnect = bool_read (codes "autoReconnect") 6 c.auto_reconnect refl refl

  pub read_failover : read_bool text (codes "usbWifiFailover") ≡ some c.usb_wifi_failover
  unfolding lines equal
  read_failover = bool_read (codes "usbWifiFailover") 7 c.usb_wifi_failover refl refl

  pub read_backend : read_string text (codes "displayBackend") ≡ c.display_backend
  unfolding lines equal
  read_backend =
      string_read (codes "displayBackend") 8 c.display_backend (backend_text c.display_backend) refl
        (IsBackend-IsEntry c.display_backend n.backend) (backend_same c.display_backend n.backend)
        refl

  pub read_picture_value : read_string text (codes "picturePreset") ≡ c.picture_preset
  unfolding lines equal
  read_picture_value =
      string_read (codes "picturePreset") 9 c.picture_preset (normalize_preset c.picture_preset)
        refl (IsPreset-IsEntry c.picture_preset n.picture) (preset_same c.picture_preset n.picture)
        refl

  pub read_separate :
      read_bool text (codes "separateUsbWifiPicture") ≡ some c.separate_usb_wifi_picture
  unfolding lines equal
  read_separate =
      bool_read (codes "separateUsbWifiPicture") 10 c.separate_usb_wifi_picture refl refl

  pub read_usb_mode : read_string text (codes "usbEncodeMode") ≡ c.usb_encode_mode
  unfolding lines equal
  read_usb_mode =
      string_read (codes "usbEncodeMode") 11 c.usb_encode_mode (normalize_mode c.usb_encode_mode)
        refl (IsMode-IsEntry c.usb_encode_mode n.usb_mode) (mode_same c.usb_encode_mode n.usb_mode)
        refl

  pub read_usb_preset : read_string text (codes "usbEncodePreset") ≡ c.usb_encode_preset
  unfolding lines equal
  read_usb_preset =
      string_read (codes "usbEncodePreset") 12 c.usb_encode_preset
        (normalize_preset c.usb_encode_preset) refl
        (IsPreset-IsEntry c.usb_encode_preset n.usb_preset)
        (preset_same c.usb_encode_preset n.usb_preset) refl

  pub read_wifi_mode : read_string text (codes "wifiEncodeMode") ≡ c.wifi_encode_mode
  unfolding lines equal
  read_wifi_mode =
      string_read (codes "wifiEncodeMode") 13 c.wifi_encode_mode (normalize_mode c.wifi_encode_mode)
        refl (IsMode-IsEntry c.wifi_encode_mode n.wifi_mode)
        (mode_same c.wifi_encode_mode n.wifi_mode) refl

  pub read_wifi_preset : read_string text (codes "wifiEncodePreset") ≡ c.wifi_encode_preset
  unfolding lines equal
  read_wifi_preset =
      string_read (codes "wifiEncodePreset") 14 c.wifi_encode_preset
        (normalize_preset c.wifi_encode_preset) refl
        (IsPreset-IsEntry c.wifi_encode_preset n.wifi_preset)
        (preset_same c.wifi_encode_preset n.wifi_preset) refl
