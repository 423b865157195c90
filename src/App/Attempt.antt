-- ===== src/App/Attempt.antt =====
-- src/app/SenderApp.cpp, RunLoop: one attempt to connect, from the head of the loop to the stream.
pub mod Safety
pub mod Sound
pub mod Learned
mod Runs
use opendisplay_win.Common.{
  ℕ, ◌+◌, if◌then◌else◌, Bool, true, false, not, ◌&&◌, ◌||◌, Option, none, some, [], Bytes, equal,
  pos,
}
use opendisplay_win.App.Config.{Config, is_empty, id_for_usb_serial, remember_usb_serial_id}
use opendisplay_win.App.Panel.{PanelState, Acquired, granted, refused, acquire_panel, release_panel}
use opendisplay_win.App.Geometry.{DisplayBackendKind, mtt, parsec, hello_dim, no_hello_backoff_ms}
use opendisplay_win.App.Dial.{
  Status, connecting, streaming, blocked, driver_missing, usb, wifi, Loop, Hello, Meets, Outcome,
  no_driver, stopped, wrong_ipad, no_pipeline, no_hello, held_by, session, note_usb_failure, Dial,
  usb_link, wifi_link, no_link, dial,
}
use opendisplay_win.Net.UsbMux.{UsbMuxDevice}

-- The link stands: `stickToUsbAfterSession` is set by a USB link only.
unfoldable pub linked : Meets → Option UsbMuxDevice → Loop → Loop
linked m none l = record l { transport = wifi }
linked m (some d) l = record l { transport = usb; stick_to_usb = not m.config.usb_wifi_failover }

abbrev pub over_wifi : Option UsbMuxDevice → Bool
over_wifi none = true
over_wifi (some d) = false

-- The link closed before a hello.
unfoldable pub without_hello : Meets → Option UsbMuxDevice → Loop → Loop × Outcome
without_hello m d l =
    let l' = record l { no_hello_failures = l.no_hello_failures + 1 } in
    let failed = if m.config.usb_wifi_failover then note_usb_failure m.now_hello l' else l' in
    (
      if over_wifi d then l' else failed,
      no_hello (no_hello_backoff_ms (pos (l.no_hello_failures + 1))),
    )

-- The binding that a USB hello teaches, if the settings have another.
unfoldable pub learned_config : Config → Option UsbMuxDevice → Hello → Option Config
learned_config c none h = none
learned_config c (some d) h =
    if not (is_empty d.serial)
      && not (is_empty h.id)
      && not (equal (id_for_usb_serial c d.serial) h.id)
    then some (remember_usb_serial_id c d.serial h.id)
    else none

abbrev pub other_id : Loop → Hello → Bool
other_id l h = not (is_empty h.id) && not (equal h.id l.known_id)

-- The cable is another iPad's.
abbrev pub is_wrong : Option UsbMuxDevice → Loop → Hello → Bool
is_wrong none l h = false
is_wrong (some d) l h = not (is_empty l.known_id) && other_id l h

abbrev pub serial_of : Option UsbMuxDevice → Bytes
serial_of none = []
serial_of (some d) = d.serial

unfoldable pub reject_cable : ℕ → Option UsbMuxDevice → Loop → Loop
reject_cable now d l = record l {
  rejected_serial = serial_of d;
  rejected_until = now + 60000;
  force_wifi_once = true;
}

-- The id that the hello teaches this entry.
unfoldable pub follow_id : Meets → Option UsbMuxDevice → Hello → Loop → Loop
follow_id m d h l =
    if m.id_follows_hello && over_wifi d && other_id l h
    then record l { known_id = h.id; usb_allowed = true; entry_id = h.id }
    else if is_empty l.entry_id && not (is_empty h.id)
    then record l { known_id = h.id }
    else l

abbrev pub is_mtt : DisplayBackendKind → Bool
is_mtt mtt = true
is_mtt parsec = false

-- The share of the panel, and the pipeline.
abbrev pub on_panel :
    Meets
    → Option UsbMuxDevice
    → Hello
    → Loop
    → PanelState × Acquired
    → Loop × (Outcome × PanelState)
on_panel m d h l (p, refused w height holder) =
    (record l { status = blocked }, (held_by w height holder, p))
on_panel m d h l (p, granted) =
    if m.pipeline_ok
    then (record l { status = streaming }, (session d h, p))
    else (l, (no_pipeline, (release_panel p).0))

unfoldable pub take_panel :
    Meets → Option UsbMuxDevice → Hello → Loop → Loop × (Outcome × PanelState)
take_panel m d h l =
    let w = hello_dim m.kind h.pixels_wide 1920 in
    let height = hello_dim m.kind h.pixels_high 1080 in
    on_panel m d h l (acquire_panel m.panel w height (is_mtt m.kind) m.sender)

-- What an attempt leaves: the loop, how it ended, the panel, and the settings if they were saved.
pub record Result : Type 0 where
  pub loop : Loop
  pub outcome : Outcome
  pub panel : PanelState
  pub saved : Option Config

abbrev pub if_wrong : Bool → Result → Result → Result
if_wrong true wrong right = wrong
if_wrong false wrong right = right

unfoldable pub with_hello : Meets → Option UsbMuxDevice → Hello → Loop → Result
with_hello m d h l =
    let fresh = record l {
      no_hello_failures = 0;
      usb_fail_count = if over_wifi d then l.usb_fail_count else 0;
    } in
    let saved = learned_config m.config_at_hello d h in
    let taken = take_panel m d h (follow_id m d h fresh) in
    if_wrong (is_wrong d fresh h)
      (record {
        loop = reject_cable m.now_wrong d fresh;
        outcome = wrong_ipad;
        panel = m.panel;
        saved = saved;
      })
      (record { loop = taken.0; outcome = taken.1.0; panel = taken.1.1; saved = saved })

abbrev pub ended : Meets → Loop × Outcome → Result
ended m (l, o) = record { loop = l; outcome = o; panel = m.panel; saved = none }

abbrev pub on_hello : Meets → Option UsbMuxDevice → Loop → Option Hello → Result
on_hello m d l none = if m.stopped then ended m (l, stopped) else ended m (without_hello m d l)
on_hello m d l (some h) = with_hello m d h l

unfoldable pub on_link : Meets → Option UsbMuxDevice → Loop → Result
on_link m d l = on_hello m d l m.hello

abbrev pub after_dial : Meets → Loop × Dial → Result
after_dial m (l, usb_link d) = on_link m (some d) (linked m (some d) l)
after_dial m (l, wifi_link) = on_link m none (linked m none l)
after_dial m (l, no_link o) = ended m (l, o)

abbrev pub is_blocked : Status → Bool
is_blocked blocked = true
is_blocked _ = false

abbrev pub start : Meets → Bool → Bool → Loop → Result
start m true true l = after_dial m (dial m l)
start m true false l = after_dial m (dial m (record l { status = connecting }))
start m false waits l = ended m (record l { status = driver_missing }, no_driver)

unfoldable pub attempt : Meets → Loop → Result
attempt m l = start m m.driver_installed (is_blocked l.status) l
