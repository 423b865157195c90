-- ===== src/Input/Injector/Runs.antt =====
-- The session theorems where a link breaks off with two fingers and the pen down.
use opendisplay_win.Common.{ℕ, ltb, true, false, List, [], ◌∷◌, pos, ◌≡◌, refl, length}
use opendisplay_win.Net.Protocol.Scan.{Double}
use opendisplay_win.Net.Protocol.Message.{TouchPhase, PencilPhase}
use opendisplay_win.Input.Contacts.{
  touch_infos, contact_flags, put_contact, move_contact, erase_contact, find_contact,
}
use opendisplay_win.Input.Injector.{
  Desktop, new_injector, handle_touch, ensure_touch_device, touch_at, press, drag, lift,
  flush_touches, screen_point, set_monitor_rect,
}
use opendisplay_win.Input.Injector.Pen.{
  end_session, handle_pencil, ensure_pen_device, pencil_at, inject_pen,
}
use opendisplay_win.Input.Injector.View.{fingers, pen_touches, pen_near, IsInStep}
use opendisplay_win.Input.Injector.Session.{
  Event, touched, drew, placed, react_all, react_all-IsInStep, end_session_lem,
}

-- Numbers by their length stand for doubles.
abbrev counted : Double
counted = record {
  Real = ℕ;
  strtod = length;
  gtb = λ a b. ltb b a;
  of_ℕ = λ n. n;
  to_unsigned = λ n. n;
  to_int = λ n. pos n;
}

abbrev desk : Desktop counted
desk = record {
  touch_available = true;
  pen_available = true;
  accepts = λ f. true;
  virtual_x = pos 0;
  virtual_y = pos 0;
  ratio_at_most_one = λ n f. n;
  round_of_product = λ n extent. extent;
  is_zero = λ n. false;
  wheel_delta = λ n. pos n;
}

abbrev busy : List (Event counted)
busy =
    placed (record { left = pos 0; top = pos 0; right = pos 2048; bottom = pos 1536 })
    ∷ touched (record { phase = TouchPhase.began; x = 0; y = 0; id = 4 })
    ∷ touched (record { phase = TouchPhase.moved; x = 1; y = 0; id = 9 })
    ∷ drew
        (record { phase = PencilPhase.down; x = 0; y = 1; pressure = 1; azimuth = 0; altitude = 1 })
    ∷ touched (record { phase = TouchPhase.ended; x = 1; y = 1; id = 4 })
    ∷ []

react_all-IsInStep_example : IsInStep counted (react_all counted desk (new_injector counted 1) busy)
react_all-IsInStep_example = react_all-IsInStep counted desk 1 busy

end_session_lem_example :
    (fingers counted
        (end_session counted desk (react_all counted desk (new_injector counted 1) busy)).frames
      ≡ [])
    × (pen_touches counted
          (end_session counted desk (react_all counted desk (new_injector counted 1) busy)).frames
        ≡ false)
    × (pen_near counted
          (end_session counted desk (react_all counted desk (new_injector counted 1) busy)).frames
        ≡ false)
    × ((end_session counted desk (react_all counted desk (new_injector counted 1) busy)).touches
        ≡ [])
end_session_lem_example = end_session_lem counted desk 1 busy

-- Before the end, finger 9 and the pen are down.
busy_run :
    (fingers counted (react_all counted desk (new_injector counted 1) busy).frames ≡ 9 ∷ [])
    × (pen_touches counted (react_all counted desk (new_injector counted 1) busy).frames ≡ true)
unfolding handle_touch ensure_touch_device touch_at press drag lift flush_touches touch_infos
    contact_flags put_contact move_contact erase_contact find_contact screen_point set_monitor_rect
    handle_pencil ensure_pen_device pencil_at inject_pen
busy_run = (refl, refl)
