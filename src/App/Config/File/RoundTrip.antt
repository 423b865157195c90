-- ===== src/App/Config/File/RoundTrip.antt =====
-- What Save writes, Load reads.
use Prim.Native.Nat.{min}
use opendisplay_win.Common.{
  ℕ, zero, suc, false, none, some, List, [], ◌∷◌, Bytes, codes, length, All, ◌≡◌, inl, inr, refl,
  sym, ap, arith, Bool-cases,
}
use opendisplay_win.App.Config.{
  Config, is_empty, resize, is_usb_only, sync_transports_from_picture_preset,
  prune_usb_only_devices, keep_rows, keep_row,
}
use opendisplay_win.App.Config.Devices.{IsAligned}
use opendisplay_win.App.Config.File.{
  lines_text, lines, saved_copy, save, devices_or_legacy, normalized_or, read_fields, read_picture,
  settle, load,
}
use opendisplay_win.App.Config.File.Settled.{IsPreset, IsMode, IsNormal, IsSynced, IsSettled}
use opendisplay_win.App.Config.File.Entries.{IsPlain, preset_same, mode_same, backend_same}
use opendisplay_win.App.Config.File.Reads.{
  read_legacy, read_devices, read_ids, read_hellos, read_serials, read_links, read_port,
  read_reconnect, read_failover, read_backend, read_picture_value, read_separate, read_usb_mode,
  read_usb_preset, read_wifi_mode, read_wifi_preset,
}

resize_same : (n : ℕ) (xs : List Bytes) → length xs ≡ n → resize n xs ≡ xs
unfolding resize
resize_same zero [] h = refl
resize_same zero (x ∷ xs) h = absurd (omega (arith, h))
resize_same (suc n) [] h = absurd (omega (arith, h))
resize_same (suc n) (x ∷ xs) h = ap (◌∷◌ x) (resize_same n xs (omega (arith, h)))

devices_kept : (ds : List Bytes) → devices_or_legacy ds [] ≡ ds
devices_kept [] = refl
devices_kept (d ∷ ds) = refl

entry_not_empty :
    (f : Bytes → Bytes) (d s : Bytes) → is_empty s ≡ false → f s ≡ s → normalized_or f d s ≡ s
entry_not_empty f d s h e = ground arith

preset_not_empty : (s : Bytes) → IsPreset s → is_empty s ≡ false
preset_not_empty s h = ground arith

mode_not_empty : (s : Bytes) → IsMode s → is_empty s ≡ false
mode_not_empty s h = ground arith

module _ (c : Config) (p : IsPlain c) (n : IsNormal c) (a : IsAligned c) where
  read_fields-lines_text :
      read_fields (lines_text (codes "{\n") (lines c)) ≡ record c { picture_preset = codes "speed" }
  unfolding read_fields
  read_fields-lines_text =
      let ds = devices_kept c.devices in
      let links = min (length c.usb_link_serials) (length c.usb_link_ids) in
      rw
        (
          read_devices c p n,
          read_legacy c p n,
          read_ids c p n,
          read_hellos c p n,
          read_serials c p n,
          read_links c p n,
          read_port c p n,
          read_reconnect c p n,
          read_failover c p n,
          read_separate c p n,
          read_backend c p n,
          read_usb_mode c p n,
          read_usb_preset c p n,
          read_wifi_mode c p n,
          read_wifi_preset c p n,
        )
        (rw
          (
            ds,
            resize_same (length c.devices) c.device_ids a.ids_aligned,
            resize_same (length c.devices) c.device_id_from_hello a.hellos_aligned,
            resize_same links c.usb_link_serials (omega (arith, n.parallel)),
            resize_same links c.usb_link_ids (omega (arith, n.parallel)),
            backend_same c.display_backend n.backend,
            mode_not_empty c.usb_encode_mode n.usb_mode,
            mode_not_empty c.wifi_encode_mode n.wifi_mode,
            preset_not_empty c.usb_encode_preset n.usb_preset,
            preset_not_empty c.wifi_encode_preset n.wifi_preset,
            mode_same c.usb_encode_mode n.usb_mode,
            mode_same c.wifi_encode_mode n.wifi_mode,
            preset_same c.usb_encode_preset n.usb_preset,
            preset_same c.wifi_encode_preset n.wifi_preset,
          )
          refl)

sync_same : (c : Config) → IsNormal c → IsSynced c → sync_transports_from_picture_preset c ≡ c
unfolding sync_transports_from_picture_preset
sync_same c n (inl e) = rw e refl
sync_same c n (inr (um, wm, up, wp)) = elim (Bool-cases c.separate_usb_wifi_picture) [
  | inl e ↦ rw e refl
  | inr e ↦
      rw (e, preset_same c.picture_preset n.picture)
        (λ i. record c {
          separate_usb_wifi_picture = false;
          usb_encode_mode = (sym um) i;
          wifi_encode_mode = (sym wm) i;
          usb_encode_preset = (sym up) i;
          wifi_encode_preset = (sym wp) i;
        })
]

picture_same :
    (c : Config)
    → IsNormal c
    → read_picture c.picture_preset (record c { picture_preset = codes "speed" }) ≡ c
unfolding read_picture
picture_same c n =
    rw (preset_not_empty c.picture_preset n.picture, preset_same c.picture_preset n.picture) refl

keep_rows_all :
    (ds ids hellos : List Bytes)
    → length ids ≡ length ds
    → length hellos ≡ length ds
    → All (λ d. is_usb_only d ≡ false) ds
    → keep_rows ds ids hellos
      ≡ record { kept_devices = ds; kept_ids = ids; kept_from_hello = hellos; removed = 0 }
unfolding keep_rows keep_row
keep_rows_all [] [] [] a b w = refl
keep_rows_all (d ∷ ds) (i ∷ is) (h ∷ hs) a b w =
    rw (w.0, keep_rows_all ds is hs (omega (arith, a)) (omega (arith, b)) w.1) refl
keep_rows_all _ _ _ a b w = absurd (omega (arith, a, b))

prune_nothing :
    (c : Config)
    → IsAligned c
    → All (λ d. is_usb_only d ≡ false) c.devices
    → prune_usb_only_devices c ≡ (c, 0)
unfolding prune_usb_only_devices
prune_nothing c a w =
    rw
      (
        resize_same (length c.devices) c.device_ids a.ids_aligned,
        resize_same (length c.devices) c.device_id_from_hello a.hellos_aligned,
        keep_rows_all c.devices c.device_ids c.device_id_from_hello a.ids_aligned a.hellos_aligned
            w,
      )
      refl

-- Settled settings, as Load gives them, whose strings hold no quote, backslash or closing bracket
-- and are not spelled as a key, come back from the file that Save writes, and Load then has nothing
-- to write back.
pub load-save : (c : Config) → IsSettled c → IsPlain c → load (some (save c)) ≡ (c, none)
unfolding load save saved_copy settle
load-save c h p =
    let n = h.normal in
    let a = h.aligned in
    let synced = sync_same c n h.synced in
    rw
      (
        synced,
        resize_same (length c.devices) c.device_ids a.ids_aligned,
        resize_same (length c.devices) c.device_id_from_hello a.hellos_aligned,
        read_picture_value c p n,
        read_fields-lines_text c p n a,
      )
      (rw (picture_same c n, synced, prune_nothing c a h.wifi_only) refl)
