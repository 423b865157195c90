-- ===== src/App/Pause.antt =====
-- src/app/SenderApp.cpp, RunLoop: a session that is paused. The pictures are those that the encoder
-- may be given: of the desktop, of the desktop dimmed under the card, of the background alone, of the
-- card on it, and the black ones that try a new encoder.
pub mod Hidden
pub mod Sent
pub mod Blank
pub mod Entry
pub mod Loop
pub mod Locked
mod Runs
use opendisplay_win.Common.{
  ℕ, zero, suc, ◌+◌, ◌-◌, leb, ◌==◌, if◌then◌else◌, Bool, true, false, not, ◌&&◌, ◌||◌, Option,
  none, some, List, [], ◌∷◌, ◌++◌, length,
}
use opendisplay_win.App.Signals.{
  InputDesktop, SessionLock, PauseReason, no_pause, lock_screen, asleep, admin, paused_reason,
  Flags, is_default, is_locked, pause_reason_now, pause_hides_desktop,
}
use opendisplay_win.Encode.Encoder.{
  MftEvent, Mft, EncodedFrame, Arrivals, Impl, encode_nv12, request_key_frame, flush_discard,
  collect_pending,
}

pub data Picture : Type 0 where
  desktop dimmed background blank black : Picture

-- What can be seen of the desktop in a picture.
abbrev pub shows_desktop : Picture → Bool
shows_desktop desktop = true
shows_desktop dimmed = true
shows_desktop _ = false

abbrev pub keepalive_ms : ℕ
keepalive_ms = 1000

-- What a pass of the loop reads: the desktop, the session and consent.exe, once for the reason (twice
-- where capture has lost access) and once on entering; the events of the MFT in a flush and in an
-- encode; whether the snapshot was taken, fits the encoder and could be padded, and the card drawn.
pub record Reads : Type 0 where
  pub desk : InputDesktop
  pub wts : SessionLock
  pub consent : Bool
  pub wts_again : SessionLock
  pub consent_again : Bool
  pub entry_flag : Bool
  pub entry_desk : InputDesktop
  pub entry_wts : SessionLock
  pub now : ℕ
  pub last_send : ℕ
  pub flush_drained : List MftEvent
  pub flush_after : List MftEvent
  pub blank_drained : List MftEvent
  pub blank_after : List MftEvent
  pub arrivals : Arrivals
  pub sample_made : Bool
  pub snapshot : Bool
  pub fits : Bool
  pub padded : Bool
  pub drawn : Bool

abbrev pub same_reason : PauseReason → PauseReason → Bool
same_reason no_pause no_pause = true
same_reason lock_screen lock_screen = true
same_reason asleep asleep = true
same_reason admin admin = true
same_reason paused_reason paused_reason = true
same_reason _ _ = false

abbrev pub with_card : Picture → Picture
with_card desktop = dimmed
with_card background = blank
with_card p = p

-- RenderPauseOverlay, of a picture that is not empty: where the card cannot be drawn, the picture
-- stays without it, and without the dimming.
unfoldable pub render_pause_overlay : Bool → PauseReason → Picture → Picture
render_pause_overlay drawn reason p =
    let under = if pause_hides_desktop reason then background else p in
    if drawn then with_card under else under

-- The frames from the first keyframe on, and whether there is one.
unfoldable pub from_key : List (EncodedFrame Picture) → Bool × List (EncodedFrame Picture)
from_key [] = (false, [])
from_key (f ∷ fs) = let rest = from_key fs in if f.is_key_frame then (true, f ∷ fs) else rest

-- The reason is asked for again if there is one.
abbrev pub reason_or_paused : PauseReason × Flags → PauseReason × Flags → PauseReason × Flags
reason_or_paused (no_pause, flags) second = (paused_reason, flags)
reason_or_paused (reason, flags) second = second

-- Whether a pause that begins now hides the desktop.
abbrev pub hides_at_entry : Reads → PauseReason → Bool → Bool
hides_at_entry r reason from_secure =
    pause_hides_desktop reason
    || from_secure
    || r.entry_flag
    || not (is_default r.entry_desk)
    || is_locked r.entry_wts

abbrev pub try_due : Reads → Option ℕ → Bool
try_due r none = true
try_due r (some t) = leb (t + keepalive_ms) r.now

module _ (F : Mft Picture) where
  -- The variables of the loop. `base` is whether pauseBase has a snapshot, `nv12` the picture in
  -- pauseNv12, and `captured` whether nv12 has the last picture of the desktop.
  pub record Session : Type 0 where
    pub paused : Bool
    pub from_secure : Bool
    pub cursor_paused : Bool
    pub frame_pending : Bool
    pub tail_pending : Bool
    pub reason : PauseReason
    pub base : Bool
    pub nv12 : Option Picture
    pub captured : Bool
    pub hides : Bool
    pub drop_until_key : Bool
    pub encodes_due : ℕ
    pub last_resume_try : Option ℕ
    pub flags : Flags
    pub encoder : Impl F

  -- `flushForBlank`
  unfoldable pub flush_for_blank : List MftEvent → List MftEvent → Session → Session
  flush_for_blank drained after s = record s {
    encoder = (flush_discard F drained after s.encoder).1;
  }

  -- The head of renderPauseFrame.
  unfoldable pub hide_now : Reads → PauseReason → Session → Session
  hide_now r reason s =
      let hidden =
        flush_for_blank r.flush_drained r.flush_after
          (record s { hides = true; drop_until_key = true }) in
      if pause_hides_desktop reason && not s.hides then hidden else s

  abbrev pub overlay : Reads → PauseReason → Session → Picture
  overlay r reason s =
      render_pause_overlay r.drawn reason
        (if s.hides || not s.base || not r.fits then background else desktop)

  unfoldable pub render_pause_frame : Reads → PauseReason → Session → Session
  render_pause_frame r reason s =
      let h = hide_now r reason s in
      let w = record h { base = if h.hides then false else h.base } in
      record w {
        nv12 = if r.padded then some (overlay r reason w) else none;
        reason = reason;
        encodes_due = 2;
        encoder = request_key_frame F w.encoder;
      }

  unfoldable pub enter_pause : Reads → PauseReason → Bool → Session → Session
  enter_pause r reason from_secure s =
      let h = hides_at_entry r reason from_secure in
      let p = record s {
        paused = true;
        from_secure = from_secure;
        cursor_paused = true;
        frame_pending = false;
        tail_pending = false;
        hides = h;
        drop_until_key = h;
      } in
      let hidden =
        flush_for_blank r.blank_drained r.blank_after
          (record p { base = false; captured = false }) in
      render_pause_frame r reason (if h then hidden else record p { base = r.snapshot })

  -- The head of a pass of a session that streams, once a flag is set.
  abbrev pub enter_for : Reads → PauseReason → Session → Session
  enter_for r no_pause s = s
  enter_for r reason s = enter_pause r reason false s

  unfoldable pub head_of_pass : Reads → Session → Session
  head_of_pass r s =
      let (reason, flags) = pause_reason_now r.desk r.wts r.consent s.flags in
      let next = enter_for r reason (record s { flags = flags }) in
      if not s.paused && (s.flags.locked_flag || s.flags.display_off) then next else s

  -- Capture has lost access: a pause, or none for a rebuild of the pipeline.
  unfoldable pub access_lost : Reads → Session → Option Session
  access_lost r s =
      let first = pause_reason_now r.desk r.wts r.consent s.flags in
      let second = pause_reason_now r.desk r.wts_again r.consent_again first.1 in
      let (reason, flags) = reason_or_paused first second in
      if not (is_default r.desk) || s.flags.locked_flag || s.flags.display_off
      then some (enter_pause r reason (not (is_default r.desk)) (record s { flags = flags }))
      else none

  -- A rebuild of the pipeline: whether it succeeds, and the encoder after it.
  abbrev pub Build : Type 0
  Build = Impl F → Bool × Impl F

  unfoldable pub resumed : Reads → Session → Session
  resumed r s = record s {
    paused = false;
    hides = false;
    drop_until_key = false;
    from_secure = false;
    cursor_paused = false;
    frame_pending = true;
    last_resume_try = none;
    encoder = request_key_frame F s.encoder;
  }

  -- An attempt to resume. It succeeds if `paused` is false after it.
  unfoldable pub try_resume : Reads → Build → Session → Session
  try_resume r build s =
      let (ok, e) = build s.encoder in
      let tried = record s { last_resume_try = some r.now; encoder = e } in
      if try_due r s.last_resume_try then (if ok then resumed r tried else tried) else s

  unfoldable pub follow_reason : Reads → Build → PauseReason → Session → Session
  follow_reason r build no_pause s = try_resume r build s
  follow_reason r build want s =
      if same_reason want s.reason then s else render_pause_frame r want s

  -- The overlay again, a second after the last frame.
  unfoldable pub keep_alive : Reads → Session → Session
  keep_alive r s =
      let due = record s {
        encodes_due = 1;
        encoder = if s.drop_until_key then request_key_frame F s.encoder else s.encoder;
      } in
      if leb (r.last_send + keepalive_ms) r.now && s.encodes_due == 0 then due else s

  abbrev pub encode_with : Reads → ℕ → Option Picture → Session → Session
  encode_with r (suc due) (some p) s = record s {
    encodes_due = due;
    encoder = encode_nv12 F p r.sample_made r.arrivals s.encoder;
  }
  encode_with r _ _ s = record s {
    encodes_due = 0;
    encoder = collect_pending F r.arrivals.drained s.encoder;
  }

  unfoldable pub encode_overlay : Reads → Session → Session
  encode_overlay r s = encode_with r s.encodes_due s.nv12 s

  -- The frames to send.
  unfoldable pub drop_early : Session → Session × List (EncodedFrame Picture)
  drop_early s =
      let (found, frames) = from_key s.encoder.out in
      if s.drop_until_key
      then (record s { drop_until_key = not found }, frames)
      else (s, s.encoder.out)

  unfoldable pub still_paused : Reads → Session → Session × List (EncodedFrame Picture)
  still_paused r s =
      let next = drop_early (encode_overlay r (keep_alive r s)) in
      if s.paused then next else (s, [])

  -- One pass of the loop while paused.
  unfoldable pub paused_pass : Reads → Build → Session → Session × List (EncodedFrame Picture)
  paused_pass r build s =
      let (want, flags) = pause_reason_now r.desk r.wts r.consent s.flags in
      still_paused r (follow_reason r build want (record s { flags = flags }))

  -- Passes, one after the other, until the session has resumed.
  unfoldable pub paused_passes :
      List Reads → Build → Session → Session × List (EncodedFrame Picture)
  paused_passes [] build s = (s, [])
  paused_passes (r ∷ rs) build s =
      let (s', frames) = paused_pass r build s in
      let (last, more) = paused_passes rs build s' in
      if s.paused then (last, frames ++ more) else (s, [])
