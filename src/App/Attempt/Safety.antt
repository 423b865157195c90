-- ===== src/App/Attempt/Safety.antt =====
-- src/app/SenderApp.cpp, RunLoop: a session over USB is with the entry's own iPad.
use opendisplay_win.Common.{
  subst, ◌∷◌, if◌then◌else◌, Bool, true, false, not, ◌&&◌, Option, none, some, [], Bytes, equal,
  equal_iff, ◌≡◌, ◌⊎◌, inl, inr, refl, sym, ap, ◌∙◌, arith, Bool-cases, Option-cases,
  some_injective,
}
use opendisplay_win.App.Config.{is_empty}
use opendisplay_win.App.Panel.{PanelState, Acquired, granted, refused, acquire_panel}
use opendisplay_win.App.Geometry.{hello_dim}
use opendisplay_win.App.Usb.{usb_claim_key, take_claim, pick_usb_for_entry}
use opendisplay_win.App.Dial.{
  Loop, Hello, Meets, connecting, session, wrong_ipad, wrong_ipad, Dial, usb_link, wifi_link,
  no_link, picked, skips_usb, skip_serial, dial, dial_usb, dial_wifi, note_usb_failure,
}
use opendisplay_win.App.Attempt.{
  linked, without_hello, is_wrong, follow_id, on_panel, take_panel, with_hello, on_link, after_dial,
  attempt, start, is_blocked, is_mtt, over_wifi, on_hello, if_wrong, Result, if_wrong, Result,
}
use opendisplay_win.Net.UsbMux.{UsbMuxDevice}

dial_wifi_no_usb : (m : Meets) (l : Loop) (d : UsbMuxDevice) → (dial_wifi m l).1 ≡ usb_link d → ⊥
unfolding dial_wifi
dial_wifi_no_usb m l d e = ground arith

-- The device was dialled after its key was taken.
abbrev pub IsTaken : Meets → UsbMuxDevice → Type 0
IsTaken m d =
    ((take_claim (usb_claim_key d) (record { key = [] }) m.claims_at_take).0 ≡ true)
    × (m.usb_dial ≡ true)

dial_usb_lem :
    (m : Meets) (l : Loop) (c d : UsbMuxDevice)
    → (dial_usb m l c).1 ≡ usb_link d
    → (c ≡ d) × IsTaken m c
unfolding dial_usb
dial_usb_lem m l c d e =
    ground (arith, dial_wifi_no_usb m l d, dial_wifi_no_usb m (note_usb_failure m.now_dial l) d)

dial_lem :
    (m : Meets) (l : Loop) (d : UsbMuxDevice)
    → (dial m l).1 ≡ usb_link d
    → (v : Bool) × (picked m l ≡ some (d, v)) × IsTaken m d
unfolding dial
dial_lem m l d e = elim (Option-cases (picked m l)) [
  | inl n ↦ absurd (dial_wifi_no_usb m (record l { force_wifi_once = false }) d (rw (n, dial) at e))
  | inr ((c, v), p) ↦
      let (same, t) =
        dial_usb_lem m (record l { force_wifi_once = false }) c d (rw (p, dial) at e) in
      (v, p ∙ ap (λ x. some (x, v)) same, subst (IsTaken m) same t)
]

dial_known : (m : Meets) (l : Loop) → (dial m l).0.known_id ≡ l.known_id
unfolding dial dial_usb dial_wifi note_usb_failure
dial_known m l = ground arith

pub on_panel_lem :
    (m : Meets) (d : Option UsbMuxDevice) (h : Hello) (l : Loop) (a : PanelState × Acquired)
    (d' : Option UsbMuxDevice) (h' : Hello)
    → (on_panel m d h l a).1.0 ≡ session d' h'
    → (d ≡ d') × (h ≡ h')
on_panel_lem m d h l (p, granted) d' h' e = ground arith
on_panel_lem m d h l (p, refused w x o) d' h' e = cc

right_lem :
    (b : Bool) (wrong right : Result) (d : Option UsbMuxDevice) (h : Hello)
    → wrong.outcome ≡ wrong_ipad
    → (if_wrong b wrong right).outcome ≡ session d h
    → (b ≡ false) × (right.outcome ≡ session d h)
right_lem true wrong right d h w e = cc
right_lem false wrong right d h w e = (refl, e)

wrong_fresh :
    (d : Option UsbMuxDevice) (l l' : Loop) (h : Hello)
    → l.known_id ≡ l'.known_id
    → is_wrong d l h ≡ is_wrong d l' h
wrong_fresh none l l' h e = refl
wrong_fresh (some d) l l' h e =
    ap (λ x. not (is_empty x) && (not (is_empty h.id) && not (equal h.id x))) e

with_hello_lem :
    (m : Meets) (d : Option UsbMuxDevice) (h : Hello) (l : Loop) (d' : Option UsbMuxDevice)
    (h' : Hello)
    → (with_hello m d h l).outcome ≡ session d' h'
    → (is_wrong d l h ≡ false) × (d ≡ d') × (h ≡ h')
unfolding with_hello take_panel
with_hello_lem m d h l d' h' e =
    let fresh = record l {
      no_hello_failures = 0;
      usb_fail_count = if over_wifi d then l.usb_fail_count else 0;
    } in
    let a =
      acquire_panel m.panel (hello_dim m.kind h.pixels_wide 1920)
        (hello_dim m.kind h.pixels_high 1080) (is_mtt m.kind) m.sender in
    let (w, o) = right_lem (is_wrong d fresh h) _ _ d' h' refl e in
    let (sd, sh) = on_panel_lem m d h (follow_id m d h fresh) a d' h' o in
    (wrong_fresh d l fresh h refl ∙ w, sd, sh)

on_hello_lem :
    (m : Meets) (d : Option UsbMuxDevice) (l : Loop) (o : Option Hello) (d' : Option UsbMuxDevice)
    (h' : Hello)
    → (on_hello m d l o).outcome ≡ session d' h'
    → (is_wrong d l h' ≡ false) × (d ≡ d')
unfolding without_hello
on_hello_lem m d l none d' h' e = ground (arith, e)
on_hello_lem m d l (some h) d' h' e =
    let (w, sd, sh) = with_hello_lem m d h l d' h' e in
    (subst (λ x. is_wrong d l x ≡ false) sh w, sd)

after_dial_lem :
    (m : Meets) (r : Loop × Dial) (d : UsbMuxDevice) (h : Hello)
    → (after_dial m r).outcome ≡ session (some d) h
    → ((r.1 ≡ usb_link d) × (is_wrong (some d) r.0 h ≡ false))
      ⊎ (r.1 ≡ no_link (session (some d) h))
unfolding linked on_link
after_dial_lem m (l, usb_link c) d h e =
    let (w, s) = on_hello_lem m (some c) (linked m (some c) l) m.hello (some d) h e in
    inl (ap usb_link (some_injective s), w)
after_dial_lem m (l, wifi_link) d h e =
    let (w, s) = on_hello_lem m none (linked m none l) m.hello (some d) h e in cc
after_dial_lem m (l, no_link o) d h e = inr (ap no_link e)

pub no_session :
    (m : Meets) (l : Loop) (d : Option UsbMuxDevice) (h : Hello)
    → (dial m l).1 ≡ no_link (session d h)
    → ⊥
unfolding dial dial_usb dial_wifi
no_session m l d h e = ground arith

-- What a session over USB rests on: the entry has an id and may use USB, the device was picked for
-- that id and its key was taken, and the iPad's hello has the entry's id, or none.
abbrev pub IsOwnCable : Meets → Loop → UsbMuxDevice → Hello → Type 0
IsOwnCable m l d h =
    (l.usb_allowed ≡ true)
    × (m.loopback ≡ false)
    × (skips_usb m l ≡ false)
    × (verify : Bool) × (pick_usb_for_entry m.devices m.config_at_pick m.claims l.known_id
          (skip_serial m l) false
        ≡ some (d, verify))
    × IsTaken m d
    × ((h.id ≡ []) ⊎ (h.id ≡ l.known_id))

picked_lem :
    (m : Meets) (l : Loop) (p : UsbMuxDevice × Bool)
    → picked m l ≡ some p
    → (l.usb_allowed ≡ true)
      × (m.loopback ≡ false)
      × (skips_usb m l ≡ false)
      × (pick_usb_for_entry m.devices m.config_at_pick m.claims l.known_id (skip_serial m l) false
          ≡ some p)
unfolding picked
picked_lem m l p e = ground arith

own_id :
    (known id : Bytes)
    → is_empty known ≡ false
    → (not (is_empty known) && (not (is_empty id) && not (equal id known))) ≡ false
    → (id ≡ []) ⊎ (id ≡ known)
own_id [] id n w = cc
own_id (c ∷ known) [] n w = inl refl
own_id (c ∷ known) (x ∷ id) n w = elim (Bool-cases (equal (x ∷ id) (c ∷ known))) [
  | inl e ↦ inr ((equal_iff (x ∷ id) (c ∷ known)).0 e)
  | inr e ↦ absurd (ground (arith, w, e))
]

pick_known :
    (m : Meets) (known skip : Bytes) (p : UsbMuxDevice × Bool)
    → pick_usb_for_entry m.devices m.config_at_pick m.claims known skip false ≡ some p
    → is_empty known ≡ false
unfolding pick_usb_for_entry
pick_known m known skip p e = ground (arith, e)

from_start :
    (m : Meets) (l : Loop) (d : UsbMuxDevice) (h : Hello)
    → (after_dial m (dial m l)).outcome ≡ session (some d) h
    → IsOwnCable m l d h
from_start m l d h e = elim (after_dial_lem m (dial m l) d h e) [
  | inr n ↦ absurd (no_session m l (some d) h n)
  | inl (u, w) ↦
      let (verify, p, t) = dial_lem m l d u in
      let (allowed, remote, tries, q) = picked_lem m l (d, verify) p in
      let same = wrong_fresh (some d) (dial m l).0 l h (dial_known m l) in
      (
        allowed,
        remote,
        tries,
        verify,
        q,
        t,
        own_id l.known_id h.id (pick_known m l.known_id (skip_serial m l) (d, verify) q)
            (sym same ∙ w),
      )
]

any_start :
    (m : Meets) (driver waits : Bool) (l : Loop) (d : UsbMuxDevice) (h : Hello)
    → (start m driver waits l).outcome ≡ session (some d) h
    → IsOwnCable m l d h
any_start m true true l d h e = from_start m l d h e
any_start m true false l d h e = from_start m (record l { status = connecting }) d h e
any_start m false waits l d h e = cc

-- A session over USB is with the device that was picked for the entry's id, after its key was taken,
-- and the hello has the entry's id or none.
pub attempt-IsOwnCable :
    (m : Meets) (l : Loop) (d : UsbMuxDevice) (h : Hello)
    → (attempt m l).outcome ≡ session (some d) h
    → IsOwnCable m l d h
unfolding attempt
attempt-IsOwnCable m l d h e = any_start m (m.driver_installed) (is_blocked l.status) l d h e
