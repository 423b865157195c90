-- ===== src/Input/Injector.antt =====
-- src/input/InputInjector.h and InputInjector.cpp: touch and pen state. What is injected is kept in
-- the state, newest first. A pen frame holds the arguments of InjectPen, before they are converted
-- to device units; a set of pointer flags is a record of Booleans, and logging is left out.
pub mod Pen
pub mod View
pub mod Session
mod Runs
use opendisplay_win.Common.{
  ℕ, ◌==◌, if◌then◌else◌, Bool, true, false, not, ◌&&◌, ◌||◌, Option, none, some, List, [], ◌∷◌,
  map, ℤ, pos, negsuc, ◌+ℤ◌, ◌-ℤ◌,
}
use opendisplay_win.Input.Contacts.{
  Point, Rect, Flags, no_flags, down_flag, update_flag, up_flag, cancel_flags, touching, hovering,
  touch_contact_half_px, max_touch_pressure, TouchInfo, TouchContact, fill_touch_info, find_contact,
  put_contact, move_contact, erase_contact, is_empty, contact_flags, touch_infos, lifted_infos,
}
use opendisplay_win.Net.Protocol.Scan.{Double}
use opendisplay_win.Net.Protocol.Message.{
  TouchPhase, TouchMsg, ScrollMsg, PencilPhase, PencilMsg, ProximityMsg, altitude_upright,
}

module _ (D : Double) where
  pub record PenInfo : Type 0 where
    pub pointer_flags : Flags
    pub pixel_location : Point
    pub pressure : D.Real
    pub azimuth : D.Real
    pub altitude : D.Real

  -- One call of InjectSyntheticPointerInput, or of SendInput for a wheel.
  pub data Frame : Type 0 where
    touch_frame : List TouchInfo → Frame
    pen_frame : PenInfo → Frame
    wheel : ℤ → Frame
    hwheel : ℤ → Frame

  -- Windows and the arithmetic on doubles. Each device is created at most once, so the answer is
  -- a constant.
  pub record Desktop : Type 0 where
    pub touch_available : Bool
    pub pen_available : Bool
    pub accepts : Frame → Bool
    pub virtual_x : ℤ
    pub virtual_y : ℤ
    pub ratio_at_most_one : D.Real → D.Real → D.Real
    pub round_of_product : D.Real → ℤ → ℤ
    pub is_zero : D.Real → Bool
    pub wheel_delta : D.Real → ℤ

  pub record Injector : Type 0 where
    pub monitor_rect : Rect
    pub content_fx : D.Real
    pub content_fy : D.Real
    pub touch_device : Bool
    pub touch_device_failed : Bool
    pub touch_inject_failed : Bool
    pub touches : List TouchContact
    pub pen_device : Bool
    pub pen_device_failed : Bool
    pub inject_failed : Bool
    pub pen_down : Bool
    pub pen_in_range : Bool
    pub last_pen_point : Point
    pub frames : List Frame

  abbrev pub new_injector : D.Real → Injector
  new_injector one = record {
    monitor_rect = record { left = pos 0; top = pos 0; right = pos 0; bottom = pos 0 };
    content_fx = one;
    content_fy = one;
    touch_device = false;
    touch_device_failed = false;
    touch_inject_failed = false;
    touches = [];
    pen_device = false;
    pen_device_failed = false;
    inject_failed = false;
    pen_down = false;
    pen_in_range = false;
    last_pen_point = record { x = pos 0; y = pos 0 };
    frames = [];
  }

  unfoldable pub set_monitor_rect : Injector → Rect → Injector
  set_monitor_rect s rect = record s { monitor_rect = rect }

  unfoldable pub set_content_fraction : Injector → D.Real → D.Real → Injector
  set_content_fraction s fx fy = record s { content_fx = fx; content_fy = fy }

  module _ (W : Desktop) where
    unfoldable pub screen_point : Injector → D.Real → D.Real → Point
    screen_point s nx ny =
        let r = s.monitor_rect in
        record {
          x =
              r.left
              +ℤ W.round_of_product (W.ratio_at_most_one nx s.content_fx) (r.right -ℤ r.left)
              -ℤ W.virtual_x;
          y =
              r.top
              +ℤ W.round_of_product (W.ratio_at_most_one ny s.content_fy) (r.bottom -ℤ r.top)
              -ℤ W.virtual_y;
        }

    unfoldable pub ensure_touch_device : Injector → Injector × Bool
    ensure_touch_device s =
        if s.touch_device
        then (s, true)
        else if s.touch_device_failed
        then (s, false)
        else if W.touch_available
        then (record s { touch_device = true }, true)
        else (record s { touch_device_failed = true }, false)

    unfoldable pub flush_touches : Injector → ℕ → Flags → Injector
    flush_touches s focus phase =
        let frame = touch_frame (touch_infos focus phase s.touches) in
        if is_empty s.touches then s else record s {
          frames = frame ∷ s.frames;
          touch_inject_failed = s.touch_inject_failed || not (W.accepts frame);
        }

    unfoldable pub release_all_touches : Injector → Injector
    release_all_touches s =
        if not s.touch_device || is_empty s.touches
        then record s { touches = [] }
        else record s { frames = touch_frame (lifted_infos s.touches) ∷ s.frames; touches = [] }

    -- `touches_[id] = TouchContact{pt, true}` and its frame.
    unfoldable pub press : Injector → ℕ → Point → Injector
    unfolding flush_touches
    press s id pt = flush_touches (record s { touches = put_contact id pt s.touches }) id down_flag

    unfoldable pub drag : Injector → ℕ → Point → Option TouchContact → Injector
    unfolding flush_touches press
    drag s id pt none = press s id pt
    drag s id pt (some c) =
        if c.down
        then flush_touches (record s { touches = move_contact id pt s.touches }) id update_flag
        else press s id pt

    unfoldable pub lift : Injector → ℕ → Point → Flags → Option TouchContact → Injector
    unfolding flush_touches
    lift s id pt flags none = s
    lift s id pt flags (some c) =
        let moved = flush_touches (record s { touches = move_contact id pt s.touches }) id flags in
        record moved { touches = erase_contact id moved.touches }

    unfoldable pub touch_at : Injector → TouchPhase → ℕ → Point → Injector
    unfolding press drag lift
    touch_at s TouchPhase.began id pt = press s id pt
    touch_at s TouchPhase.moved id pt = drag s id pt (find_contact id s.touches)
    touch_at s TouchPhase.ended id pt = lift s id pt up_flag (find_contact id s.touches)
    touch_at s TouchPhase.cancelled id pt = lift s id pt cancel_flags (find_contact id s.touches)
    touch_at s TouchPhase.unknown id pt = s

    unfoldable pub handle_touch : Injector → TouchMsg D → Injector
    unfolding touch_at
    handle_touch s m =
        let (s', ok) = ensure_touch_device s in
        if ok then touch_at s' m.phase m.id (screen_point s' m.x m.y) else s'

    -- `is_zero` is the test for 0.0, and `delta != 0` the one after the conversion to LONG.
    abbrev turned : (ℤ → Frame) → D.Real → List Frame → List Frame
    turned f d fs = if W.is_zero d then fs else elim (W.wheel_delta d) [
      | pos n ↦ if n == 0 then fs else f (pos n) ∷ fs
      | negsuc n ↦ f (negsuc n) ∷ fs
    ]

    unfoldable pub handle_scroll : Injector → ScrollMsg D → Injector
    handle_scroll s m = record s { frames = turned hwheel m.dx (turned wheel m.dy s.frames) }
