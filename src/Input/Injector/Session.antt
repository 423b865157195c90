-- ===== src/Input/Injector/Session.antt =====
-- Whole sessions: any messages of the receiver, in any order, and the end of a session.
use opendisplay_win.Common.{
  Bool, true, false, not, ◌||◌, List, [], ◌∷◌, ◌≡◌, inl, inr, refl, ap, ◌∙◌, arith, Bool-cases,
}
use opendisplay_win.Net.Protocol.Scan.{Double}
use opendisplay_win.Net.Protocol.Message.{TouchMsg, ScrollMsg, PencilPhase, PencilMsg, ProximityMsg}
use opendisplay_win.Input.Contacts.{Point, Rect, TouchContact, is_empty}
use opendisplay_win.Input.Injector.{
  Desktop, Injector, new_injector, release_all_touches, handle_touch, handle_scroll,
  set_monitor_rect, set_content_fraction,
}
use opendisplay_win.Input.Injector.Pen.{
  same, ensure_pen_device, pencil_at, handle_pencil, cross, handle_proximity, end_pen, end_session,
}
use opendisplay_win.Input.Injector.View.{
  resting-lifted_infos, ids, fingers, pen_touches, pen_near, IsInStep, handle_touch-IsInStep,
}

ids_empty : (cs : List TouchContact) → is_empty cs ≡ true → ids cs ≡ []
ids_empty [] h = refl
ids_empty (c ∷ cs) h = cc

module _ (D : Double) where
  -- What reaches an injector: messages, a new place of the monitor, and the end of a session.
  pub data Event : Type 0 where
    touched : TouchMsg D → Event
    scrolled : ScrollMsg D → Event
    drew : PencilMsg D → Event
    neared : ProximityMsg D → Event
    placed : Rect → Event
    fitted : D.Real → D.Real → Event
    ended : Event

  module _ (W : Desktop D) where
    abbrev pub react : Injector D → Event → Injector D
    react s (touched m) = handle_touch D W s m
    react s (scrolled m) = handle_scroll D W s m
    react s (drew m) = handle_pencil D W s m
    react s (neared m) = handle_proximity D W s m
    react s (placed rect) = set_monitor_rect D s rect
    react s (fitted fx fy) = set_content_fraction D s fx fy
    react s ended = end_session D W s

    abbrev pub react_all : Injector D → List Event → Injector D
    react_all s [] = s
    react_all s (e ∷ es) = react_all (react s e) es

    released_touches : (s : Injector D) → (release_all_touches D W s).touches ≡ []
    unfolding release_all_touches
    released_touches s = ground arith

    handle_scroll-IsInStep :
        (s : Injector D) (m : ScrollMsg D) → IsInStep D s → IsInStep D (handle_scroll D W s m)
    unfolding handle_scroll
    handle_scroll-IsInStep s m i = ground arith

    pen-IsInStep : (s : Injector D) → IsInStep D s → IsInStep D (ensure_pen_device D W s).0
    unfolding ensure_pen_device
    pen-IsInStep s i = ground arith

    pen_given :
        (s : Injector D)
        → (ensure_pen_device D W s).1 ≡ true
        → (ensure_pen_device D W s).0.pen_device ≡ true
    unfolding ensure_pen_device
    pen_given s h = ground arith

    pencil_at-IsInStep :
        (s : Injector D) (phase : PencilPhase) (pt : Point) (m : PencilMsg D)
        → IsInStep D s
        → s.pen_device ≡ true
        → IsInStep D (pencil_at D W s phase pt m)
    unfolding pencil_at
    pencil_at-IsInStep s PencilPhase.hover pt m i d = ground arith
    pencil_at-IsInStep s PencilPhase.down pt m i d = ground arith
    pencil_at-IsInStep s PencilPhase.move pt m i d = ground arith
    pencil_at-IsInStep s PencilPhase.up pt m i d = ground arith
    pencil_at-IsInStep s PencilPhase.unknown pt m i d = i

    cross-IsInStep :
        (s : Injector D) (entering : Bool) (pt : Point)
        → IsInStep D s
        → s.pen_device ≡ true
        → s.pen_in_range ≡ not entering
        → IsInStep D (cross D W s entering pt)
    unfolding cross
    cross-IsInStep s true pt i d r = ground arith
    cross-IsInStep s false pt i d r = ground arith

    handle_pencil-IsInStep :
        (s : Injector D) (m : PencilMsg D) → IsInStep D s → IsInStep D (handle_pencil D W s m)
    unfolding handle_pencil
    handle_pencil-IsInStep s m i = elim (Bool-cases (ensure_pen_device D W s).1) [
      | inl h ↦ rw h (pencil_at-IsInStep _ m.phase _ m (pen-IsInStep s i) (pen_given s h))
      | inr h ↦ rw h (pen-IsInStep s i)
    ]

    handle_proximity-IsInStep :
        (s : Injector D) (m : ProximityMsg D) → IsInStep D s → IsInStep D (handle_proximity D W s m)
    unfolding handle_proximity
    handle_proximity-IsInStep s m i =
        elim (Bool-cases (
          not (ensure_pen_device D W s).1
          || same D W m.entering (ensure_pen_device D W s).0.pen_in_range)) [
            | inl h ↦ rw h (pen-IsInStep s i)
            | inr h ↦ rw h (
                cross-IsInStep _ m.entering _ (pen-IsInStep s i) (pen_given s (ground arith))
                  (ground arith))
          ]

    release-IsInStep : (s : Injector D) → IsInStep D s → IsInStep D (release_all_touches D W s)
    unfolding release_all_touches
    release-IsInStep s i =
        let l = resting-lifted_infos s.touches in
        elim (Bool-cases (is_empty s.touches)) [
          | inl h ↦ let e = ids_empty s.touches h in ground arith
          | inr h ↦ ground arith
        ]

    end_pen-IsInStep : (s : Injector D) → IsInStep D s → IsInStep D (end_pen D W s)
    unfolding end_pen
    end_pen-IsInStep s i = ground arith

    -- What the end of a session leaves of the pen, if the tables are in step.
    end_pen_lem :
        (s : Injector D)
        → IsInStep D s
        → (pen_touches D (end_pen D W s).frames ≡ false)
          × (pen_near D (end_pen D W s).frames ≡ false)
          × ((end_pen D W s).touches ≡ s.touches)
          × (fingers D (end_pen D W s).frames ≡ fingers D s.frames)
    unfolding end_pen
    end_pen_lem s i = ground arith

    end_session-IsInStep : (s : Injector D) → IsInStep D s → IsInStep D (end_session D W s)
    unfolding end_session
    end_session-IsInStep s i = end_pen-IsInStep _ (release-IsInStep s i)

    react-IsInStep : (s : Injector D) (e : Event) → IsInStep D s → IsInStep D (react s e)
    unfolding set_monitor_rect set_content_fraction
    react-IsInStep s (touched m) i = handle_touch-IsInStep D W s m i
    react-IsInStep s (scrolled m) i = handle_scroll-IsInStep s m i
    react-IsInStep s (drew m) i = handle_pencil-IsInStep s m i
    react-IsInStep s (neared m) i = handle_proximity-IsInStep s m i
    react-IsInStep s (placed rect) i = ground arith
    react-IsInStep s (fitted fx fy) i = ground arith
    react-IsInStep s ended i = end_session-IsInStep s i

    react_all_kept : (s : Injector D) (es : List Event) → IsInStep D s → IsInStep D (react_all s es)
    react_all_kept s [] i = i
    react_all_kept s (e ∷ es) i = react_all_kept (react s e) es (react-IsInStep s e i)

    -- Through any number of messages and sessions, the table of contacts lists exactly the fingers
    -- that the frames leave down, the pen's two flags say what the frames leave of the pen, a pen
    -- that touches is near, and nothing is held without its device.
    pub react_all-IsInStep :
        (one : D.Real) (es : List Event) → IsInStep D (react_all (new_injector D one) es)
    react_all-IsInStep one es = react_all_kept (new_injector D one) es (record {
      fingers_agree = refl;
      touch_open = refl;
      contact_agrees = refl;
      range_agrees = refl;
      near = refl;
      pen_open = refl;
    })

    -- However a session went and wherever it breaks off, the frames up to its end leave no finger
    -- down and the pen neither down nor near, and the table of contacts is empty.
    pub end_session_lem :
        (one : D.Real) (es : List Event)
        → (fingers D (end_session D W (react_all (new_injector D one) es)).frames ≡ [])
          × (pen_touches D (end_session D W (react_all (new_injector D one) es)).frames ≡ false)
          × (pen_near D (end_session D W (react_all (new_injector D one) es)).frames ≡ false)
          × ((end_session D W (react_all (new_injector D one) es)).touches ≡ [])
    unfolding end_session
    end_session_lem one es =
        let s = react_all (new_injector D one) es in
        let i = release-IsInStep s (react_all-IsInStep one es) in
        let (down, near, left, kept) = end_pen_lem (release_all_touches D W s) i in
        let none_left = released_touches s in
        (kept ∙ i.fingers_agree ∙ ap ids none_left, down, near, left ∙ none_left)
