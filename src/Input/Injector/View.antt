-- ===== src/Input/Injector/View.antt =====
-- What Windows holds of the touches and the pen, read off the frames that were injected.
use opendisplay_win.Common.{
  ℕ, if◌then◌else◌, Bool, true, false, not, ◌&&◌, Option, none, some, List, [], ◌∷◌, ◌≡◌, inl, inr,
  refl, arith, Bool-cases,
}
use opendisplay_win.Net.Protocol.Scan.{Double}
use opendisplay_win.Net.Protocol.Message.{TouchPhase, TouchMsg}
use opendisplay_win.Input.Contacts.{
  Point, Flags, up_flag, down_flag, update_flag, cancel_flags, TouchInfo, TouchContact,
  find_contact, put_contact, move_contact, erase_contact, is_empty, contact_flags, touch_infos,
  lifted_infos,
}
use opendisplay_win.Input.Injector.{
  Frame, touch_frame, pen_frame, wheel, hwheel, Desktop, Injector, ensure_touch_device,
  flush_touches, press, drag, lift, touch_at, handle_touch,
}

-- The fingers that a touch frame leaves on the panel.
abbrev pub resting : List TouchInfo → List ℕ
resting [] = []
resting (i ∷ is) = if i.pointer_flags.in_contact then i.pointer_id ∷ resting is else resting is

abbrev pub ids : List TouchContact → List ℕ
ids [] = []
ids (c ∷ cs) = c.id ∷ ids cs

pub resting-lifted_infos : (cs : List TouchContact) → resting (lifted_infos cs) ≡ []
unfolding lifted_infos
resting-lifted_infos [] = refl
resting-lifted_infos (c ∷ cs) = resting-lifted_infos cs

-- A frame about a finger that stays down keeps every finger.
resting-touch_infos :
    (id : ℕ) (phase : Flags) (cs : List TouchContact)
    → phase.up ≡ false
    → resting (touch_infos id phase cs) ≡ ids cs
unfolding touch_infos contact_flags
resting-touch_infos id phase [] h = refl
resting-touch_infos id phase (c ∷ cs) h = let ih = resting-touch_infos id phase cs h in ground arith

-- One about a finger that goes up keeps the others.
resting-touch_infos_up :
    (id : ℕ) (pt : Point) (phase : Flags) (cs : List TouchContact)
    → phase.up ≡ true
    → phase.in_contact ≡ false
    → resting (touch_infos id phase (move_contact id pt cs))
      ≡ ids (erase_contact id (move_contact id pt cs))
unfolding touch_infos contact_flags move_contact erase_contact
resting-touch_infos_up id pt phase [] h k = refl
resting-touch_infos_up id pt phase (c ∷ cs) h k =
    let ih = resting-touch_infos_up id pt phase cs h k in ground arith

module _ (D : Double) where
  -- The fingers on the panel, by the last touch frame.
  abbrev pub fingers : List (Frame D) → List ℕ
  fingers [] = []
  fingers (touch_frame infos ∷ fs) = resting infos
  fingers (pen_frame i ∷ fs) = fingers fs
  fingers (wheel d ∷ fs) = fingers fs
  fingers (hwheel d ∷ fs) = fingers fs

  -- Whether the pen touches the panel and whether it is near, by the last pen frame.
  abbrev pub pen_touches : List (Frame D) → Bool
  pen_touches [] = false
  pen_touches (touch_frame infos ∷ fs) = pen_touches fs
  pen_touches (pen_frame i ∷ fs) = i.pointer_flags.in_contact
  pen_touches (wheel d ∷ fs) = pen_touches fs
  pen_touches (hwheel d ∷ fs) = pen_touches fs

  abbrev pub pen_near : List (Frame D) → Bool
  pen_near [] = false
  pen_near (touch_frame infos ∷ fs) = pen_near fs
  pen_near (pen_frame i ∷ fs) = i.pointer_flags.in_range
  pen_near (wheel d ∷ fs) = pen_near fs
  pen_near (hwheel d ∷ fs) = pen_near fs

  -- The injector's tables say what Windows holds; nothing is held without its device, and a pen
  -- that touches is near.
  pub record IsInStep (s : Injector D) : Type 0 where
    pub fingers_agree : fingers s.frames ≡ ids s.touches
    pub touch_open : (not s.touch_device && not (is_empty s.touches)) ≡ false
    pub contact_agrees : pen_touches s.frames ≡ s.pen_down
    pub range_agrees : pen_near s.frames ≡ s.pen_in_range
    pub near : (s.pen_down && not s.pen_in_range) ≡ false
    pub pen_open : (not s.pen_device && s.pen_in_range) ≡ false

  module _ (W : Desktop D) where
    -- A new frame about the contacts `cs`, which are some.
    flush-IsInStep :
        (s : Injector D) (cs : List TouchContact) (after : List TouchContact) (id : ℕ)
        (phase : Flags)
        → IsInStep s
        → s.touch_device ≡ true
        → is_empty cs ≡ false
        → resting (touch_infos id phase cs) ≡ ids after
        → IsInStep
            (record (flush_touches D W (record s { touches = cs }) id phase) { touches = after })
    unfolding flush_touches
    flush-IsInStep s [] after id phase i d n h = cc
    flush-IsInStep s (c ∷ cs) after id phase i d n h = record {
      fingers_agree = h;
      touch_open = ground arith;
      contact_agrees = i.contact_agrees;
      range_agrees = i.range_agrees;
      near = i.near;
      pen_open = i.pen_open;
    }

    put_some :
        (id : ℕ) (pt : Point) (cs : List TouchContact) → is_empty (put_contact id pt cs) ≡ false
    unfolding put_contact
    put_some id pt [] = refl
    put_some id pt (c ∷ cs) = ground arith

    move_some :
        (id : ℕ) (pt : Point) (cs : List TouchContact) (c : TouchContact)
        → find_contact id cs ≡ some c
        → is_empty (move_contact id pt cs) ≡ false
    unfolding move_contact find_contact
    move_some id pt [] c h = cc
    move_some id pt (d ∷ cs) c h = ground arith

    -- The same for a finger that stays down.
    stay-IsInStep :
        (s : Injector D) (cs : List TouchContact) (id : ℕ) (phase : Flags)
        → IsInStep s
        → s.touch_device ≡ true
        → is_empty cs ≡ false
        → phase.up ≡ false
        → IsInStep (flush_touches D W (record s { touches = cs }) id phase)
    unfolding flush_touches
    stay-IsInStep s [] id phase i d n h = cc
    stay-IsInStep s (c ∷ cs) id phase i d n h =
        flush-IsInStep s (c ∷ cs) (c ∷ cs) id phase i d n (resting-touch_infos id phase (c ∷ cs) h)

    -- A finger that is gone after its last frame.
    gone-IsInStep :
        (s : Injector D) (cs : List TouchContact) (id : ℕ) (phase : Flags)
        → IsInStep s
        → s.touch_device ≡ true
        → is_empty cs ≡ false
        → resting (touch_infos id phase cs) ≡ ids (erase_contact id cs)
        → IsInStep (record (flush_touches D W (record s { touches = cs }) id phase) {
          touches =
              erase_contact id (flush_touches D W (record s { touches = cs }) id phase).touches;
        })
    unfolding flush_touches
    gone-IsInStep s [] id phase i d n h = cc
    gone-IsInStep s (c ∷ cs) id phase i d n h =
        flush-IsInStep s (c ∷ cs) (erase_contact id (c ∷ cs)) id phase i d n h

    press-IsInStep :
        (s : Injector D) (id : ℕ) (pt : Point)
        → IsInStep s
        → s.touch_device ≡ true
        → IsInStep (press D W s id pt)
    unfolding press
    press-IsInStep s id pt i d =
        stay-IsInStep s (put_contact id pt s.touches) id down_flag i d (put_some id pt s.touches)
          refl

    drag-IsInStep :
        (s : Injector D) (id : ℕ) (pt : Point) (o : Option TouchContact)
        → find_contact id s.touches ≡ o
        → IsInStep s
        → s.touch_device ≡ true
        → IsInStep (drag D W s id pt o)
    unfolding drag
    drag-IsInStep s id pt none e i d = press-IsInStep s id pt i d
    drag-IsInStep s id pt (some c) e i d = elim (Bool-cases c.down) [
      | inl h ↦ rw h (
          stay-IsInStep s (move_contact id pt s.touches) id update_flag i d
            (move_some id pt s.touches c e) refl)
      | inr h ↦ rw h (press-IsInStep s id pt i d)
    ]

    lift-IsInStep :
        (s : Injector D) (id : ℕ) (pt : Point) (flags : Flags) (o : Option TouchContact)
        → flags.up ≡ true
        → flags.in_contact ≡ false
        → find_contact id s.touches ≡ o
        → IsInStep s
        → s.touch_device ≡ true
        → IsInStep (lift D W s id pt flags o)
    unfolding lift
    lift-IsInStep s id pt flags none u k e i d = i
    lift-IsInStep s id pt flags (some c) u k e i d =
        gone-IsInStep s (move_contact id pt s.touches) id flags i d (move_some id pt s.touches c e)
          (resting-touch_infos_up id pt flags s.touches u k)

    touch_at-IsInStep :
        (s : Injector D) (phase : TouchPhase) (id : ℕ) (pt : Point)
        → IsInStep s
        → s.touch_device ≡ true
        → IsInStep (touch_at D W s phase id pt)
    unfolding touch_at
    touch_at-IsInStep s TouchPhase.began id pt i d = press-IsInStep s id pt i d
    touch_at-IsInStep s TouchPhase.moved id pt i d = drag-IsInStep s id pt _ refl i d
    touch_at-IsInStep s TouchPhase.ended id pt i d =
        lift-IsInStep s id pt up_flag _ refl refl refl i d
    touch_at-IsInStep s TouchPhase.cancelled id pt i d =
        lift-IsInStep s id pt cancel_flags _ refl refl refl i d
    touch_at-IsInStep s TouchPhase.unknown id pt i d = i

    open-IsInStep : (s : Injector D) → IsInStep s → IsInStep (ensure_touch_device D W s).0
    unfolding ensure_touch_device
    open-IsInStep s i = ground arith

    open_given :
        (s : Injector D)
        → (ensure_touch_device D W s).1 ≡ true
        → (ensure_touch_device D W s).0.touch_device ≡ true
    unfolding ensure_touch_device
    open_given s h = ground arith

    pub handle_touch-IsInStep :
        (s : Injector D) (m : TouchMsg D) → IsInStep s → IsInStep (handle_touch D W s m)
    unfolding handle_touch
    handle_touch-IsInStep s m i = elim (Bool-cases (ensure_touch_device D W s).1) [
      | inl h ↦ rw h (touch_at-IsInStep _ m.phase m.id _ (open-IsInStep s i) (open_given s h))
      | inr h ↦ rw h (open-IsInStep s i)
    ]
