-- ===== src/App/Attempt/Sound.antt =====
-- src/app/SenderApp.cpp, RunLoop: what every attempt keeps, and what it leaves for the next one.
use opendisplay_win.Common.{
  ℕ, suc, ◌+◌, ◌-◌, ◌^◌, min, ◌≤◌, if◌then◌else◌, Bool, true, false, Option, none, some, ◌≡◌, refl,
  ap, arith,
}
use Prim.Native.Nat.{zero}
use opendisplay_win.App.Config.{is_empty}
use opendisplay_win.App.Panel.{PanelState, Acquired, granted, refused, acquire_panel}
use opendisplay_win.App.Geometry.{hello_dim}
use opendisplay_win.App.Dial.{
  dial_with, connecting, driver_missing, Status, Loop, Hello, Meets, session, wrong_ipad, Dial,
  usb_link, wifi_link, no_link, picked, dial, dial_usb, dial_wifi, note_usb_failure,
}
use opendisplay_win.App.Attempt.{
  Result, linked, without_hello, follow_id, on_panel, take_panel, with_hello, on_link, after_dial,
  attempt, start, over_wifi, is_mtt, is_blocked, on_hello, if_wrong, reject_cable, is_wrong,
}
use opendisplay_win.App.Attempt.Safety.{attempt-IsOwnCable}
use opendisplay_win.Net.UsbMux.{UsbMuxDevice}

-- At the time `t`: the failures that are counted, the end of the backoff, and USB only with an id.
pub record IsSound (t : ℕ) (l : Loop) : Type 0 where
  pub few : l.usb_fail_count ≤ 6
  pub soon : l.usb_fail_until ≤ t + 320000
  pub named : l.usb_allowed ≡ true → is_empty l.known_id ≡ false

pow_le : (k : ℕ) → k ≤ 5 → 2 ^ k ≤ 32
pow_le zero h = omega arith
pow_le (suc zero) h = omega arith
pow_le (suc (suc zero)) h = omega arith
pow_le (suc (suc (suc zero))) h = omega arith
pow_le (suc (suc (suc (suc zero)))) h = omega arith
pow_le (suc (suc (suc (suc (suc zero))))) h = omega arith
pow_le (suc (suc (suc (suc (suc (suc k)))))) h = omega arith

note-IsSound : (now t : ℕ) (l : Loop) → now ≤ t → IsSound t l → IsSound t (note_usb_failure now l)
unfolding note_usb_failure
note-IsSound now t l le s = ground (arith, pow_le (min (l.usb_fail_count + 1) 6 - 1))

follow-IsSound :
    (m : Meets) (t : ℕ) (d : Option UsbMuxDevice) (h : Hello) (l : Loop)
    → IsSound t l
    → IsSound t (follow_id m d h l)
unfolding follow_id
follow-IsSound m t d h l s = ground arith

wifi-IsSound : (m : Meets) (t : ℕ) (l : Loop) → IsSound t l → IsSound t (dial_wifi m l).0
unfolding dial_wifi
wifi-IsSound m t l s = ground arith

usb-IsSound :
    (m : Meets) (t : ℕ) (l : Loop) (d : UsbMuxDevice)
    → m.now_dial ≤ t
    → IsSound t l
    → IsSound t (dial_usb m l d).0
unfolding dial_usb
usb-IsSound m t l d le s = ground (
  arith,
  wifi-IsSound m t l,
  wifi-IsSound m t (note_usb_failure m.now_dial l),
  note-IsSound m.now_dial t l,
)

tried-IsSound :
    (t : ℕ) (l : Loop) (b : Bool) → IsSound t l → IsSound t (record l { force_wifi_once = b })
tried-IsSound t l b s = ground arith

with-IsSound :
    (m : Meets) (t : ℕ) (l : Loop) (p : Option (UsbMuxDevice × Bool))
    → m.now_dial ≤ t
    → IsSound t l
    → IsSound t (dial_with m l p).0
with-IsSound m t l none le s = wifi-IsSound m t l s
with-IsSound m t l (some (d, v)) le s = usb-IsSound m t l d le s

dial-IsSound :
    (m : Meets) (t : ℕ) (l : Loop) → m.now_dial ≤ t → IsSound t l → IsSound t (dial m l).0
unfolding dial
dial-IsSound m t l le s =
    with-IsSound m t (record l { force_wifi_once = false }) (picked m l) le
      (tried-IsSound t l false s)

linked-IsSound :
    (m : Meets) (t : ℕ) (d : Option UsbMuxDevice) (l : Loop)
    → IsSound t l
    → IsSound t (linked m d l)
unfolding linked
linked-IsSound m t none l s = ground arith
linked-IsSound m t (some d) l s = ground arith

panel-IsSound :
    (m : Meets) (t : ℕ) (d : Option UsbMuxDevice) (h : Hello) (l : Loop) (a : PanelState × Acquired)
    → IsSound t l
    → IsSound t (on_panel m d h l a).0
panel-IsSound m t d h l (p, granted) s = ground arith
panel-IsSound m t d h l (p, refused w x o) s = ground arith

choice-IsSound :
    (t : ℕ) (b : Bool) (wrong right : Result)
    → IsSound t wrong.loop
    → IsSound t right.loop
    → IsSound t (if_wrong b wrong right).loop
choice-IsSound t true wrong right x y = x
choice-IsSound t false wrong right x y = y

fresh-IsSound :
    (t : ℕ) (l : Loop) (n : ℕ) (b : Bool)
    → IsSound t l
    → IsSound t
        (record l { no_hello_failures = n; usb_fail_count = if b then l.usb_fail_count else 0 })
fresh-IsSound t l n b s = ground arith

reject-IsSound :
    (now t : ℕ) (d : Option UsbMuxDevice) (l : Loop)
    → IsSound t l
    → IsSound t (reject_cable now d l)
unfolding reject_cable
reject-IsSound now t d l s = ground arith

hello-IsSound :
    (m : Meets) (t : ℕ) (d : Option UsbMuxDevice) (l : Loop) (o : Option Hello)
    → m.now_hello ≤ t
    → IsSound t l
    → IsSound t (on_hello m d l o).loop
unfolding with_hello without_hello reject_cable take_panel
hello-IsSound m t d l none le s =
    ground
      (arith, note-IsSound m.now_hello t (record l { no_hello_failures = l.no_hello_failures + 1 }))
hello-IsSound m t d l (some h) le s =
    let fresh = record l {
      no_hello_failures = 0;
      usb_fail_count = if over_wifi d then l.usb_fail_count else 0;
    } in
    let a =
      acquire_panel m.panel (hello_dim m.kind h.pixels_wide 1920)
        (hello_dim m.kind h.pixels_high 1080) (is_mtt m.kind) m.sender in
    let kept : IsSound t fresh = fresh-IsSound t l 0 (over_wifi d) s in
    choice-IsSound t (is_wrong d fresh h) _ _ (reject-IsSound m.now_wrong t d fresh kept)
      (panel-IsSound m t d h (follow_id m d h fresh) a (follow-IsSound m t d h fresh kept))

after-IsSound :
    (m : Meets) (t : ℕ) (r : Loop × Dial)
    → m.now_hello ≤ t
    → IsSound t r.0
    → IsSound t (after_dial m r).loop
unfolding on_link
after-IsSound m t (l, usb_link d) le s =
    hello-IsSound m t (some d) (linked m (some d) l) m.hello le (linked-IsSound m t (some d) l s)
after-IsSound m t (l, wifi_link) le s =
    hello-IsSound m t none (linked m none l) m.hello le (linked-IsSound m t none l s)
after-IsSound m t (l, no_link o) le s = s

status-IsSound : (t : ℕ) (l : Loop) (x : Status) → IsSound t l → IsSound t (record l { status = x })
status-IsSound t l x s = ground arith

start-IsSound :
    (m : Meets) (t : ℕ) (driver waits : Bool) (l : Loop)
    → m.now_dial ≤ t
    → m.now_hello ≤ t
    → IsSound t l
    → IsSound t (start m driver waits l).loop
start-IsSound m t true true l dials hellos s =
    after-IsSound m t (dial m l) hellos (dial-IsSound m t l dials s)
start-IsSound m t true false l dials hellos s =
    let c = record l { status = connecting } in
    after-IsSound m t (dial m c) hellos (dial-IsSound m t c dials (status-IsSound t l connecting s))
start-IsSound m t false waits l dials hellos s = status-IsSound t l driver_missing s

-- An attempt whose clock reads are not later than t keeps, for t, that at most six USB failures
-- are counted, that the backoff ends at most 320 s later, and that USB is allowed only with an id.
pub attempt-IsSound :
    (m : Meets) (t : ℕ) (l : Loop)
    → m.now_dial ≤ t
    → m.now_hello ≤ t
    → IsSound t l
    → IsSound t (attempt m l).loop
unfolding attempt
attempt-IsSound m t l dials hellos s =
    start-IsSound m t m.driver_installed (is_blocked l.status) l dials hellos s

panel_right :
    (m : Meets) (d : Option UsbMuxDevice) (h : Hello) (l : Loop) (a : PanelState × Acquired)
    → (on_panel m d h l a).1.0 ≡ wrong_ipad
    → ⊥
panel_right m d h l (p, granted) e = ground arith
panel_right m d h l (p, refused w x o) e = cc

wrong_lem :
    (b : Bool) (wrong right : Result)
    → (right.outcome ≡ wrong_ipad → ⊥)
    → (if_wrong b wrong right).outcome ≡ wrong_ipad
    → wrong.loop.force_wifi_once ≡ true
    → (if_wrong b wrong right).loop.force_wifi_once ≡ true
wrong_lem true wrong right n e f = f
wrong_lem false wrong right n e f = absurd (n e)

hello_wrong :
    (m : Meets) (d : Option UsbMuxDevice) (l : Loop) (o : Option Hello)
    → (on_hello m d l o).outcome ≡ wrong_ipad
    → (on_hello m d l o).loop.force_wifi_once ≡ true
unfolding with_hello without_hello take_panel reject_cable
hello_wrong m d l none e = ground arith
hello_wrong m d l (some h) e =
    let fresh = record l {
      no_hello_failures = 0;
      usb_fail_count = if over_wifi d then l.usb_fail_count else 0;
    } in
    let a =
      acquire_panel m.panel (hello_dim m.kind h.pixels_wide 1920)
        (hello_dim m.kind h.pixels_high 1080) (is_mtt m.kind) m.sender in
    wrong_lem (is_wrong d fresh h) _ _ (panel_right m d h (follow_id m d h fresh) a) e refl

no_wrong : (m : Meets) (l : Loop) → (dial m l).1 ≡ no_link wrong_ipad → ⊥
unfolding dial picked dial_usb dial_wifi
no_wrong m l e = ground arith

after_wrong :
    (m : Meets) (r : Loop × Dial)
    → (r.1 ≡ no_link wrong_ipad → ⊥)
    → (after_dial m r).outcome ≡ wrong_ipad
    → (after_dial m r).loop.force_wifi_once ≡ true
unfolding on_link
after_wrong m (l, usb_link d) n e = hello_wrong m (some d) (linked m (some d) l) m.hello e
after_wrong m (l, wifi_link) n e = hello_wrong m none (linked m none l) m.hello e
after_wrong m (l, no_link o) n e = absurd (n (ap no_link e))

start_wrong :
    (m : Meets) (driver waits : Bool) (l : Loop)
    → (start m driver waits l).outcome ≡ wrong_ipad
    → (start m driver waits l).loop.force_wifi_once ≡ true
start_wrong m true true l e = after_wrong m (dial m l) (no_wrong m l) e
start_wrong m true false l e =
    let s = record l { status = connecting } in after_wrong m (dial m s) (no_wrong m s) e
start_wrong m false waits l e = cc

forced :
    (m : Meets) (l : Loop)
    → (attempt m l).outcome ≡ wrong_ipad
    → (attempt m l).loop.force_wifi_once ≡ true
unfolding attempt
forced m l e = start_wrong m m.driver_installed (is_blocked l.status) l e

-- After an attempt that ended with another iPad on the cable, the next one, whatever it meets,
-- does not end in a session over USB.
pub attempt-wrong_ipad :
    (m m' : Meets) (l : Loop) (d : UsbMuxDevice) (h : Hello)
    → (attempt m l).outcome ≡ wrong_ipad
    → ¬ ((attempt m' (attempt m l).loop).outcome ≡ session (some d) h)
attempt-wrong_ipad m m' l d h w e =
    let (allowed, remote, tries, verify, p, t, i) =
      attempt-IsOwnCable m' (attempt m l).loop d h e in
    ground (arith, forced m l w, tries)
