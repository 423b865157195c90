-- ===== src/Input/Injector/Pen.antt =====
-- src/input/InputInjector.cpp: the pen, and the end of a session.
use opendisplay_win.Common.{if◌then◌else◌, Bool, true, false, not, ◌||◌, ◌∷◌}
use opendisplay_win.Net.Protocol.Scan.{Double}
use opendisplay_win.Net.Protocol.Message.{PencilPhase, PencilMsg, ProximityMsg, altitude_upright}
use opendisplay_win.Input.Contacts.{
  Point, Flags, down_flag, update_flag, up_flag, touching, hovering,
}
use opendisplay_win.Input.Injector.{pen_frame, Desktop, Injector, screen_point, release_all_touches}

module _ (D : Double) (W : Desktop D) where
  unfoldable pub ensure_pen_device : Injector D → Injector D × Bool
  ensure_pen_device s =
      if s.pen_device
      then (s, true)
      else if s.pen_device_failed
      then (s, false)
      else if W.pen_available
      then (record s { pen_device = true }, true)
      else (record s { pen_device_failed = true }, false)

  unfoldable pub inject_pen : Injector D → Flags → Point → D.Real → D.Real → D.Real → Injector D
  inject_pen s flags pt pressure azimuth altitude =
      let frame = pen_frame (record {
        pointer_flags = flags;
        pixel_location = pt;
        pressure = pressure;
        azimuth = azimuth;
        altitude = altitude;
      }) in
      record s {
        last_pen_point = pt;
        frames = frame ∷ s.frames;
        inject_failed = s.inject_failed || not (W.accepts frame);
      }

  -- A pen without pressure, upright.
  unfoldable pub inject_upright : Injector D → Flags → Point → Injector D
  unfolding inject_pen
  inject_upright s flags pt = inject_pen s flags pt (D.of_ℕ 0) (D.of_ℕ 0) (altitude_upright D)

  unfoldable pub release_pen_if_down : Injector D → Point → Injector D
  unfolding inject_upright
  release_pen_if_down s pt =
      if s.pen_down then record (inject_upright s (hovering up_flag) pt) { pen_down = false } else s

  unfoldable pub hover : Injector D → Point → PencilMsg D → Injector D
  unfolding inject_pen
  hover s pt m = record (inject_pen s (hovering update_flag) pt (D.of_ℕ 0) m.azimuth m.altitude) {
    pen_in_range = true;
  }

  unfoldable pub pencil_at : Injector D → PencilPhase → Point → PencilMsg D → Injector D
  unfolding inject_pen release_pen_if_down hover
  pencil_at s PencilPhase.down pt m =
      record (inject_pen s (touching down_flag) pt m.pressure m.azimuth m.altitude) {
        pen_down = true;
        pen_in_range = true;
      }
  pencil_at s PencilPhase.move pt m =
      if s.pen_down
      then record (inject_pen s (touching update_flag) pt m.pressure m.azimuth m.altitude) {
        pen_in_range = true;
      }
      else hover s pt m
  pencil_at s PencilPhase.up pt m = release_pen_if_down s pt
  pencil_at s PencilPhase.hover pt m = hover (release_pen_if_down s pt) pt m
  pencil_at s PencilPhase.unknown pt m = s

  unfoldable pub handle_pencil : Injector D → PencilMsg D → Injector D
  unfolding pencil_at
  handle_pencil s m =
      let (s', ok) = ensure_pen_device s in
      if ok then pencil_at s' m.phase (screen_point D W s' m.x m.y) m else s'

  unfoldable pub cross : Injector D → Bool → Point → Injector D
  unfolding inject_upright release_pen_if_down
  cross s true pt = record (inject_upright s (hovering update_flag) pt) { pen_in_range = true }
  cross s false pt = record (inject_upright (release_pen_if_down s pt) update_flag pt) {
    pen_in_range = false;
  }

  abbrev pub same : Bool → Bool → Bool
  same a b = if a then b else not b

  unfoldable pub handle_proximity : Injector D → ProximityMsg D → Injector D
  unfolding cross
  handle_proximity s m =
      let (s', ok) = ensure_pen_device s in
      if not ok || same m.entering s'.pen_in_range
      then s'
      else cross s' m.entering (screen_point D W s' m.x m.y)

  -- EndSession, behind ReleaseAllTouches.
  unfoldable pub end_pen : Injector D → Injector D
  unfolding inject_upright release_pen_if_down
  end_pen s =
      let released = release_pen_if_down s s.last_pen_point in
      if not s.pen_device
      then s
      else if released.pen_in_range
      then record (inject_upright released update_flag released.last_pen_point) {
        pen_in_range = false;
      }
      else released

  unfoldable pub end_session : Injector D → Injector D
  unfolding end_pen
  end_session s = end_pen (release_all_touches D W s)
