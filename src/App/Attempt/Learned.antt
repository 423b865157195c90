-- ===== src/App/Attempt/Learned.antt =====
-- src/app/SenderApp.cpp, RunLoop: what a session over USB teaches the settings.
use opendisplay_win.Common.{
  if◌then◌else◌, Bool, true, false, Option, none, some, equal_iff, ◌≡◌, refl, ap, ◌∙◌, arith,
  value_or,
}
use opendisplay_win.App.Config.{Config, is_empty, id_for_usb_serial}
use opendisplay_win.App.Config.Serials.{IsParallel, id_for_usb_serial-remember}
use opendisplay_win.App.Panel.{acquire_panel}
use opendisplay_win.App.Geometry.{hello_dim}
use opendisplay_win.App.Dial.{
  connecting, Loop, Hello, Meets, session, wrong_ipad, Dial, usb_link, wifi_link, no_link, dial,
}
use opendisplay_win.App.Attempt.{
  Result, linked, without_hello, follow_id, take_panel, with_hello, on_link, over_wifi, is_mtt,
  is_blocked, on_hello, learned_config, if_wrong, is_wrong, after_dial, attempt, start,
}
use opendisplay_win.App.Attempt.Safety.{on_panel_lem, no_session}
use opendisplay_win.Net.UsbMux.{UsbMuxDevice}

right_saved :
    (b : Bool) (wrong right : Result) (c : Option Config)
    → wrong.saved ≡ c
    → right.saved ≡ c
    → (if_wrong b wrong right).saved ≡ c
right_saved true wrong right c e f = e
right_saved false wrong right c e f = f

right_session :
    (b : Bool) (wrong right : Result) (d : Option UsbMuxDevice) (h : Hello)
    → wrong.outcome ≡ wrong_ipad
    → (if_wrong b wrong right).outcome ≡ session d h
    → right.outcome ≡ session d h
right_session true wrong right d h w e = cc
right_session false wrong right d h w e = e

hello_saved :
    (m : Meets) (d : Option UsbMuxDevice) (l : Loop) (o : Option Hello) (d' : Option UsbMuxDevice)
    (h' : Hello)
    → (on_hello m d l o).outcome ≡ session d' h'
    → (on_hello m d l o).saved ≡ learned_config m.config_at_hello d' h'
unfolding with_hello without_hello take_panel
hello_saved m d l none d' h' e = ground arith
hello_saved m d l (some h) d' h' e =
    let fresh = record l {
      no_hello_failures = 0;
      usb_fail_count = if over_wifi d then l.usb_fail_count else 0;
    } in
    let a =
      acquire_panel m.panel (hello_dim m.kind h.pixels_wide 1920)
        (hello_dim m.kind h.pixels_high 1080) (is_mtt m.kind) m.sender in
    let o = right_session (is_wrong d fresh h) _ _ d' h' refl e in
    let (sd, sh) = on_panel_lem m d h (follow_id m d h fresh) a d' h' o in
    right_saved (is_wrong d fresh h) _ _ (learned_config m.config_at_hello d h) refl refl
    ∙ ap (λ x. learned_config m.config_at_hello x h) sd
    ∙ ap (learned_config m.config_at_hello d') sh

after_saved :
    (m : Meets) (r : Loop × Dial) (d : Option UsbMuxDevice) (h : Hello)
    → (r.1 ≡ no_link (session d h) → ⊥)
    → (after_dial m r).outcome ≡ session d h
    → (after_dial m r).saved ≡ learned_config m.config_at_hello d h
unfolding on_link
after_saved m (l, usb_link c) d h n e = hello_saved m (some c) (linked m (some c) l) m.hello d h e
after_saved m (l, wifi_link) d h n e = hello_saved m none (linked m none l) m.hello d h e
after_saved m (l, no_link o) d h n e = absurd (n (ap no_link e))

start_saved :
    (m : Meets) (driver waits : Bool) (l : Loop) (d : Option UsbMuxDevice) (h : Hello)
    → (start m driver waits l).outcome ≡ session d h
    → (start m driver waits l).saved ≡ learned_config m.config_at_hello d h
start_saved m true true l d h e = after_saved m (dial m l) d h (no_session m l d h) e
start_saved m true false l d h e =
    let s = record l { status = connecting } in after_saved m (dial m s) d h (no_session m s d h) e
start_saved m false waits l d h e = cc

attempt_saved :
    (m : Meets) (l : Loop) (d : Option UsbMuxDevice) (h : Hello)
    → (attempt m l).outcome ≡ session d h
    → (attempt m l).saved ≡ learned_config m.config_at_hello d h
unfolding attempt
attempt_saved m l d h e = start_saved m m.driver_installed (is_blocked l.status) l d h e

learned_bound :
    (c : Config) (d : UsbMuxDevice) (h : Hello)
    → IsParallel c
    → is_empty d.serial ≡ false
    → is_empty h.id ≡ false
    → id_for_usb_serial (value_or c (learned_config c (some d) h)) d.serial ≡ h.id
unfolding learned_config
learned_bound c d h p s i = ground (
  arith,
  id_for_usb_serial-remember c d.serial h.id d.serial,
  equal_iff d.serial d.serial,
  equal_iff (id_for_usb_serial c d.serial) h.id,
)

-- After a session over USB began, the settings, saved or as they were, give the device's serial
-- number the id of the hello, if neither is empty and the lists of the bindings are parallel.
pub attempt-learned :
    (m : Meets) (l : Loop) (d : UsbMuxDevice) (h : Hello)
    → IsParallel m.config_at_hello
    → (attempt m l).outcome ≡ session (some d) h
    → is_empty d.serial ≡ false
    → is_empty h.id ≡ false
    → id_for_usb_serial (value_or m.config_at_hello (attempt m l).saved) d.serial ≡ h.id
attempt-learned m l d h p e s i =
    ap (λ c. id_for_usb_serial (value_or m.config_at_hello c) d.serial)
      (attempt_saved m l (some d) h e)
    ∙ learned_bound m.config_at_hello d h p s i
