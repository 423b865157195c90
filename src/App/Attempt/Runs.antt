-- ===== src/App/Attempt/Runs.antt =====
-- Runs of an attempt to connect.
use opendisplay_win.Common.{
  true, false, some, [], ◌∷◌, codes, equal, ◌≡◌, refl, arith, pos, value_or,
}
use opendisplay_win.App.Config.{default_config, id_for_usb_serial, find_binding}
use opendisplay_win.App.Panel.{idle_panel, acquire_panel}
use opendisplay_win.App.Geometry.{parsec, hello_dim}
use opendisplay_win.App.Usb.{
  usb_claim_key, claimed, take_claim, free_devices, learned_device, unknown_devices,
  pick_usb_for_entry,
}
use opendisplay_win.App.Dial.{
  idle, no_transport, Loop, Hello, Meets, session, wrong_ipad, picked, dial, dial_usb, dial_wifi,
}
use opendisplay_win.App.Attempt.{
  attempt, linked, follow_id, take_panel, with_hello, on_link, learned_config, reject_cable,
}
use opendisplay_win.App.Attempt.Safety.{IsOwnCable, attempt-IsOwnCable}
use opendisplay_win.App.Attempt.Sound.{IsSound, attempt-IsSound, attempt-wrong_ipad}
use opendisplay_win.App.Attempt.Learned.{attempt-learned}
use opendisplay_win.Net.UsbMux.{UsbMuxDevice}

abbrev cable : UsbMuxDevice
cable = record { present = true; device_id = 4; serial = codes "S1" }

-- The entry of the iPad "A", before its first attempt.
abbrev begun : Loop
begun = record {
  status = idle;
  transport = no_transport;
  entry_id = codes "A";
  known_id = codes "A";
  force_wifi_once = false;
  rejected_serial = [];
  rejected_until = 0;
  stick_to_usb = false;
  usb_allowed = true;
  usb_fail_count = 0;
  usb_fail_until = 0;
  no_hello_failures = 0;
}

abbrev tablet : Hello
tablet = record { id = codes "A"; pixels_wide = pos 2048; pixels_high = pos 1536 }

-- One iPad, on a cable that no session was on.
abbrev met : Meets
met = record {
  sender = 1;
  id_follows_hello = false;
  loopback = false;
  config = default_config;
  config_at_pick = default_config;
  driver_installed = true;
  kind = parsec;
  devices = some (cable ∷ []);
  claims = [];
  claims_at_take = [];
  usb_dial = true;
  wifi_dial = true;
  hello = some tablet;
  stopped = false;
  config_at_hello = default_config;
  panel = idle_panel;
  pipeline_ok = true;
  now_skip = 0;
  now_serial = 0;
  now_dial = 10;
  now_hello = 500;
  now_wrong = 500;
}

usb_session : (attempt met begun).outcome ≡ session (some cable) tablet
unfolding attempt dial picked dial_usb dial_wifi linked follow_id take_panel with_hello on_link
    learned_config reject_cable pick_usb_for_entry free_devices usb_claim_key learned_device
    unknown_devices id_for_usb_serial claimed take_claim acquire_panel hello_dim equal find_binding
usb_session = refl

attempt-IsOwnCable_example : IsOwnCable met begun cable tablet
attempt-IsOwnCable_example = attempt-IsOwnCable met begun cable tablet usb_session

attempt-learned_example :
    id_for_usb_serial (value_or default_config (attempt met begun).saved) (codes "S1") ≡ codes "A"
attempt-learned_example = attempt-learned met begun cable tablet refl usb_session refl refl

begun-IsSound : IsSound 0 begun
begun-IsSound = ground arith

attempt-IsSound_example : IsSound 500 (attempt met begun).loop
attempt-IsSound_example =
    attempt-IsSound met 500 begun (omega arith) (omega arith)
      (record { few = begun-IsSound.few; soon = omega arith; named = begun-IsSound.named })

-- The cable is that of another iPad.
abbrev other : Meets
other = record met { hello = some (record tablet { id = codes "B" }) }

wrong_cable : (attempt other begun).outcome ≡ wrong_ipad
unfolding attempt dial picked dial_usb dial_wifi linked follow_id take_panel with_hello on_link
    learned_config reject_cable pick_usb_for_entry free_devices usb_claim_key learned_device
    unknown_devices id_for_usb_serial claimed take_claim acquire_panel hello_dim equal find_binding
wrong_cable = refl

attempt-wrong_ipad_example :
    ¬ ((attempt met (attempt other begun).loop).outcome ≡ session (some cable) tablet)
attempt-wrong_ipad_example = attempt-wrong_ipad other met begun cable tablet wrong_cable
