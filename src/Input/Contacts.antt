-- ===== src/Input/Contacts.antt =====
-- src/input/InputInjector.cpp: the pointer flags, the frame of one contact, and the table of contacts.
use opendisplay_win.Common.{
  ℕ, ◌==◌, if◌then◌else◌, Bool, true, false, Option, none, some, List, [], ◌∷◌, ℤ, pos, ◌+ℤ◌, ◌-ℤ◌,
}

pub record Point : Type 0 where
  pub x : ℤ
  pub y : ℤ

pub record Rect : Type 0 where
  pub left : ℤ
  pub top : ℤ
  pub right : ℤ
  pub bottom : ℤ

pub record Flags : Type 0 where
  pub in_range : Bool
  pub in_contact : Bool
  pub down : Bool
  pub update : Bool
  pub up : Bool
  pub canceled : Bool

abbrev pub no_flags : Flags
no_flags = record {
  in_range = false;
  in_contact = false;
  down = false;
  update = false;
  up = false;
  canceled = false;
}

abbrev pub down_flag : Flags
down_flag = record no_flags { down = true }

abbrev pub update_flag : Flags
update_flag = record no_flags { update = true }

abbrev pub up_flag : Flags
up_flag = record no_flags { up = true }

abbrev pub cancel_flags : Flags
cancel_flags = record no_flags { up = true; canceled = true }

abbrev pub touching : Flags → Flags
touching f = record f { in_range = true; in_contact = true }

abbrev pub hovering : Flags → Flags
hovering f = record f { in_range = true }

abbrev pub touch_contact_half_px : ℤ
touch_contact_half_px = pos 10

abbrev pub max_touch_pressure : ℕ
max_touch_pressure = 1024

pub record TouchInfo : Type 0 where
  pub pointer_id : ℕ
  pub pixel_location : Point
  pub pointer_flags : Flags
  pub contact : Rect
  pub pressure : ℕ

pub record TouchContact : Type 0 where
  pub id : ℕ
  pub pt : Point
  pub down : Bool

abbrev pub fill_touch_info : ℕ → Point → Flags → TouchInfo
fill_touch_info id pt flags = record {
  pointer_id = id;
  pixel_location = pt;
  pointer_flags = flags;
  contact = record {
    left = pt.x -ℤ touch_contact_half_px;
    top = pt.y -ℤ touch_contact_half_px;
    right = pt.x +ℤ touch_contact_half_px;
    bottom = pt.y +ℤ touch_contact_half_px;
  };
  pressure = max_touch_pressure;
}

-- `touches_`, a map with the contact's number as its key.
unfoldable pub find_contact : ℕ → List TouchContact → Option TouchContact
find_contact id [] = none
find_contact id (c ∷ cs) = if c.id == id then some c else find_contact id cs

unfoldable pub put_contact : ℕ → Point → List TouchContact → List TouchContact
put_contact id pt [] = record { id = id; pt = pt; down = true } ∷ []
put_contact id pt (c ∷ cs) =
    let rest = put_contact id pt cs in
    if c.id == id then record { id = id; pt = pt; down = true } ∷ cs else c ∷ rest

-- `it->second.pt = pt`
unfoldable pub move_contact : ℕ → Point → List TouchContact → List TouchContact
move_contact id pt [] = []
move_contact id pt (c ∷ cs) =
    let rest = move_contact id pt cs in if c.id == id then record c { pt = pt } ∷ rest else c ∷ rest

unfoldable pub erase_contact : ℕ → List TouchContact → List TouchContact
erase_contact id [] = []
erase_contact id (c ∷ cs) = let rest = erase_contact id cs in if c.id == id then rest else c ∷ rest

abbrev pub is_empty : List TouchContact → Bool
is_empty [] = true
is_empty (c ∷ cs) = false

-- The flags of one contact in a frame about the contact `focus`.
unfoldable pub contact_flags : ℕ → Flags → ℕ → Flags
contact_flags focus phase id =
    if id == focus
    then (if phase.up
        then hovering phase
        else if phase.down
        then touching down_flag
        else touching update_flag)
    else touching update_flag

unfoldable pub touch_infos : ℕ → Flags → List TouchContact → List TouchInfo
touch_infos focus phase [] = []
touch_infos focus phase (c ∷ cs) =
    fill_touch_info c.id c.pt (contact_flags focus phase c.id) ∷ touch_infos focus phase cs

unfoldable pub lifted_infos : List TouchContact → List TouchInfo
lifted_infos [] = []
lifted_infos (c ∷ cs) = fill_touch_info c.id c.pt (hovering up_flag) ∷ lifted_infos cs
