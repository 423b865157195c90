-- ===== src/App/Dial.antt =====
-- src/app/SenderApp.cpp, RunLoop: the state of the loop that connects, and the dial of an attempt.
-- What the attempt meets is an argument: the settings, the devices, whether a dial succeeds, the
-- hello, the panel, and the time in milliseconds at each place where the clock is read.
use opendisplay_win.Common.{
  ℕ, ◌+◌, ◌-◌, ◌*◌, ◌^◌, min, ltb, if◌then◌else◌, Bool, false, not, ◌&&◌, ◌||◌, Option, none, some,
  List, [], Bytes, ℤ,
}
use opendisplay_win.App.Config.{Config}
use opendisplay_win.App.Panel.{PanelState}
use opendisplay_win.App.Geometry.{DisplayBackendKind}
use opendisplay_win.App.Usb.{usb_claim_key, take_claim, pick_usb_for_entry}
use opendisplay_win.Net.UsbMux.{UsbMuxDevice}

-- `SenderApp::State` and `Transport`.
pub data Status : Type 0 where
  idle connecting streaming blocked driver_missing : Status

pub data Transport : Type 0 where
  no_transport usb wifi : Transport

-- The variables of the loop, and those of the object that it sets.
pub record Loop : Type 0 where
  pub status : Status
  pub transport : Transport
  pub entry_id : Bytes
  pub known_id : Bytes
  pub force_wifi_once : Bool
  pub rejected_serial : Bytes
  pub rejected_until : ℕ
  pub stick_to_usb : Bool
  pub usb_allowed : Bool
  pub usb_fail_count : ℕ
  pub usb_fail_until : ℕ
  pub no_hello_failures : ℕ

-- The parts of a HelloMsg that an attempt reads.
pub record Hello : Type 0 where
  pub id : Bytes
  pub pixels_wide : ℤ
  pub pixels_high : ℤ

pub record Meets : Type 0 where
  pub sender : ℕ
  pub id_follows_hello : Bool
  pub loopback : Bool
  pub config : Config
  pub config_at_pick : Config
  pub driver_installed : Bool
  pub kind : DisplayBackendKind
  pub devices : Option (List UsbMuxDevice)
  pub claims : List Bytes
  pub claims_at_take : List Bytes
  pub usb_dial : Bool
  pub wifi_dial : Bool
  pub hello : Option Hello
  pub stopped : Bool
  pub config_at_hello : Config
  pub panel : PanelState
  pub pipeline_ok : Bool
  pub now_skip : ℕ
  pub now_serial : ℕ
  pub now_dial : ℕ
  pub now_hello : ℕ
  pub now_wrong : ℕ

-- How an attempt ends: with a session, or with a reason to try again.
pub data Outcome : Type 0 where
  no_driver usb_dial_failed waiting_for_usb unreachable stopped wrong_ipad no_pipeline : Outcome
  no_hello : ℕ → Outcome
  held_by : ℕ → ℕ → Option ℕ → Outcome
  session : Option UsbMuxDevice → Hello → Outcome

-- `kReconnectDelayMs` and `kBlockedRetryMs`.
abbrev pub reconnect_delay_ms : ℕ
reconnect_delay_ms = 2000

abbrev pub blocked_retry_ms : ℕ
blocked_retry_ms = 5000

-- What InterruptibleSleep is given before the next attempt.
unfoldable pub pause_ms : Outcome → ℕ
pause_ms no_driver = blocked_retry_ms
pause_ms (held_by w h holder) = blocked_retry_ms
pause_ms (no_hello ms) = ms
pause_ms stopped = 0
pause_ms wrong_ipad = 0
pause_ms (session d h) = 0
pause_ms _ = reconnect_delay_ms

-- `noteUsbFailure`: 10 s after the first failure, and twice as long after each, to 320 s.
unfoldable pub note_usb_failure : ℕ → Loop → Loop
note_usb_failure now l =
    let n = min (l.usb_fail_count + 1) 6 in
    record l { usb_fail_count = n; usb_fail_until = now + 1000 * (10 * 2 ^ (n - 1)) }

-- The link of an attempt, or how it ends without one.
pub data Dial : Type 0 where
  usb_link : UsbMuxDevice → Dial
  wifi_link : Dial
  no_link : Outcome → Dial

unfoldable pub dial_wifi : Meets → Loop → Loop × Dial
dial_wifi m l =
    if not m.config.usb_wifi_failover && l.stick_to_usb
    then (l, no_link waiting_for_usb)
    else if m.wifi_dial
    then (l, wifi_link)
    else (l, no_link unreachable)

unfoldable pub dial_usb : Meets → Loop → UsbMuxDevice → Loop × Dial
dial_usb m l d =
    if not (take_claim (usb_claim_key d) (record { key = [] }) m.claims_at_take).0
    then dial_wifi m l
    else if m.usb_dial
    then (l, usb_link d)
    else if not m.config.usb_wifi_failover
    then (l, no_link usb_dial_failed)
    else dial_wifi m (note_usb_failure m.now_dial l)

abbrev pub skips_usb : Meets → Loop → Bool
skips_usb m l =
    l.force_wifi_once
    || m.config.usb_wifi_failover && ltb 0 l.usb_fail_count && ltb m.now_skip l.usb_fail_until

abbrev pub skip_serial : Meets → Loop → Bytes
skip_serial m l = if ltb m.now_serial l.rejected_until then l.rejected_serial else []

unfoldable pub picked : Meets → Loop → Option (UsbMuxDevice × Bool)
picked m l =
    if m.loopback
    then none
    else if l.usb_allowed && not (skips_usb m l)
    then pick_usb_for_entry m.devices m.config_at_pick m.claims l.known_id (skip_serial m l) false
    else none

abbrev pub dial_with : Meets → Loop → Option (UsbMuxDevice × Bool) → Loop × Dial
dial_with m l none = dial_wifi m l
dial_with m l (some (d, verify)) = dial_usb m l d

unfoldable pub dial : Meets → Loop → Loop × Dial
dial m l = dial_with m (record l { force_wifi_once = false }) (picked m l)

abbrev pub device_of : Dial → Option UsbMuxDevice
device_of (usb_link d) = some d
device_of wifi_link = none
device_of (no_link o) = none
