-- ===== src/Net/Protocol/Message/Input.antt =====
-- The input messages of the receiver, parsed field by field.
use opendisplay_win.Common.{
  ℕ, true, some, List, [], ◌∷◌, ◌++◌, Bytes, codes, equal, All, strip, NoneBefore, none_before,
  Absent, ◌≡◌, refl, ap, subst, ◌∙◌, arith,
}
use opendisplay_win.Net.Protocol.Scan.{
  Double, quote, quoted, find_string_field, find_number_text, find_number_field, is_number_byte,
}
use opendisplay_win.Net.Protocol.Fields.{find_string_field_lem}
use opendisplay_win.Net.Protocol.Numbers.{
  NumberField, IsNumberField, IsKey, numbers, number_at, find_number_text-numbers,
}
use opendisplay_win.Net.Protocol.Message.{
  TouchPhase, parse_touch_phase, PencilPhase, touch_msg, scroll_msg, parse_body,
  parse_control_message,
}
use opendisplay_win.Net.Protocol.Message.Dispatch.{typed, parse_control_message-typed}

-- A number as the receiver writes it: number bytes, one at least.
pub record Numeral : Type 0 where
  pub first : ℕ
  pub others : Bytes
  pub are_number : All (λ c. is_number_byte c ≡ true) (first ∷ others)

abbrev pub digits : Numeral → Bytes
digits n = n.first ∷ n.others

abbrev field : Bytes → Numeral → NumberField
field k n = record { key = k; first = n.first; others = n.others }

abbrev pub touch_name : TouchPhase → Bytes
touch_name TouchPhase.began = codes "began"
touch_name TouchPhase.moved = codes "moved"
touch_name TouchPhase.ended = codes "ended"
touch_name TouchPhase.cancelled = codes "cancelled"
touch_name TouchPhase.unknown = codes "other"

abbrev pub pencil_name : PencilPhase → Bytes
pencil_name PencilPhase.hover = codes "hover"
pencil_name PencilPhase.down = codes "down"
pencil_name PencilPhase.move = codes "move"
pencil_name PencilPhase.up = codes "up"
pencil_name PencilPhase.unknown = codes "other"

-- `,"phase":"name"`
abbrev phase_text : Bytes → Bytes
phase_text name = codes ",\"phase\":\"" ++ (name ++ quote ∷ [])

abbrev touch_fields : Numeral → Numeral → Numeral → List NumberField
touch_fields x y id = field (codes "x") x ∷ field (codes "y") y ∷ field (codes "id") id ∷ []

-- {"type":"touch","phase":"began","x":0.5,"y":0.25,"id":1}
abbrev pub touch_text : TouchPhase → Numeral → Numeral → Numeral → Bytes
touch_text p x y id =
    typed (codes "touch") (phase_text (touch_name p) ++ numbers (touch_fields x y id))

abbrev scroll_fields : Numeral → Numeral → List NumberField
scroll_fields dx dy = field (codes "dx") dx ∷ field (codes "dy") dy ∷ []

-- {"type":"scroll","dx":0,"dy":-12}
abbrev pub scroll_text : Numeral → Numeral → Bytes
scroll_text dx dy = typed (codes "scroll") (numbers (scroll_fields dx dy))

fields-IsNumberField : (k : Bytes) (n : Numeral) → Absent quote k → IsNumberField (field k n)
fields-IsNumberField k n h = record { key_plain = h; number = n.are_number }

touch_fields_are : (x y id : Numeral) → All IsNumberField (touch_fields x y id)
touch_fields_are x y id = (
  fields-IsNumberField (codes "x") x (refl, tt),
  (
    fields-IsNumberField (codes "y") y (refl, tt),
    (fields-IsNumberField (codes "id") id (refl, (refl, tt)), tt),
  ),
)

scroll_fields_are : (dx dy : Numeral) → All IsNumberField (scroll_fields dx dy)
scroll_fields_are dx dy = (
  fields-IsNumberField (codes "dx") dx (refl, (refl, tt)),
  (fields-IsNumberField (codes "dy") dy (refl, (refl, tt)), tt),
)

abbrev touch_begin : TouchPhase → Bytes
touch_begin p = typed (codes "touch") (phase_text (touch_name p))

abbrev scroll_begin : Bytes
scroll_begin = typed (codes "scroll") []

touch_text_split :
    (p : TouchPhase) (x y id : Numeral)
    → touch_begin p ++ numbers (touch_fields x y id) ≡ touch_text p x y id
touch_text_split TouchPhase.began x y id = refl
touch_text_split _ x y id = refl

touch_phase_found :
    (p : TouchPhase) (x y id : Numeral)
    → find_string_field (touch_text p x y id) (codes "phase") ≡ some (touch_name p)
unfolding none_before strip
touch_phase_found TouchPhase.began x y id =
    find_string_field_lem (codes "{\"type\":\"touch\",") (codes "phase") [] []
      (touch_name TouchPhase.began) (numbers (touch_fields x y id))
      (record { key_first = ground arith; gap_plain = tt; spaces_are = tt }) (ground arith)
touch_phase_found p x y id =
    find_string_field_lem (codes "{\"type\":\"touch\",") (codes "phase") [] [] (touch_name p)
      (numbers (touch_fields x y id))
      (record { key_first = ground arith; gap_plain = tt; spaces_are = tt }) (ground arith)

parse-touch_name : (p : TouchPhase) → parse_touch_phase (touch_name p) ≡ p
unfolding parse_touch_phase equal
parse-touch_name TouchPhase.began = refl
parse-touch_name _ = refl

module _ (D : Double) where
  found :
      (json k v : Bytes)
      → find_number_text json k ≡ some v
      → find_number_field D json k ≡ some (D.strtod v)
  unfolding find_number_field
  found json k v h = rw h

  scroll_body :
      (json : Bytes) (a b : D.Real)
      → find_number_field D json (codes "dx") ≡ some a
      → find_number_field D json (codes "dy") ≡ some b
      → parse_body D (codes "scroll") json ≡ scroll_msg (record { dx = a; dy = b })
  unfolding parse_body equal
  scroll_body json a b ha hb = rw (ha, hb)

  touch_body :
      (json name : Bytes) (a b c : D.Real)
      → find_string_field json (codes "phase") ≡ some name
      → find_number_field D json (codes "x") ≡ some a
      → find_number_field D json (codes "y") ≡ some b
      → find_number_field D json (codes "id") ≡ some c
      → parse_body D (codes "touch") json
        ≡ touch_msg (record { phase = parse_touch_phase name; x = a; y = b; id = D.to_unsigned c })
  unfolding parse_body equal
  touch_body json name a b c hn ha hb hc = rw (hn, ha, hb, hc)

  -- A scroll message gives its two distances.
  pub parse_control_message-scroll :
      (dx dy : Numeral)
      → parse_control_message D (scroll_text dx dy)
        ≡ some (scroll_msg (record { dx = D.strtod (digits dx); dy = D.strtod (digits dy) }))
  unfolding none_before strip equal
  parse_control_message-scroll dx dy =
      let at = λ (k v : Bytes). find_number_text-numbers (scroll_fields dx dy) scroll_begin k v in
      parse_control_message-typed D (codes "scroll") (numbers (scroll_fields dx dy)) (ground arith)
      ∙ ap some (
          scroll_body (scroll_text dx dy) (D.strtod (digits dx)) (D.strtod (digits dy))
            (found _ _ _ (
              at (codes "dx") (digits dx)
                (record { no_quote = (refl, (refl, tt)); no_colon = (refl, (refl, tt)) })
                (scroll_fields_are dx dy) (ground arith) refl))
            (found _ _ _ (
              at (codes "dy") (digits dy)
                (record { no_quote = (refl, (refl, tt)); no_colon = (refl, (refl, tt)) })
                (scroll_fields_are dx dy) (ground arith) refl)))

  touch_number :
      (p : TouchPhase) (x y id : Numeral) (k v : Bytes)
      → IsKey k
      → NoneBefore (quoted k) (touch_begin p) (numbers (touch_fields x y id))
      → number_at k (touch_fields x y id) ≡ some v
      → find_number_field D (touch_text p x y id) k ≡ some (D.strtod v)
  touch_number p x y id k v hk h e = found (touch_text p x y id) k v (
      subst (λ t. find_number_text t k ≡ some v) (touch_text_split p x y id)
        (find_number_text-numbers (touch_fields x y id) (touch_begin p) k v hk
          (touch_fields_are x y id) h e))

  touch_begins :
      (p : TouchPhase) (x y id : Numeral)
      → NoneBefore (quoted (codes "x")) (touch_begin p) (numbers (touch_fields x y id))
        × NoneBefore (quoted (codes "y")) (touch_begin p) (numbers (touch_fields x y id))
        × NoneBefore (quoted (codes "id")) (touch_begin p) (numbers (touch_fields x y id))
  unfolding strip
  touch_begins TouchPhase.began x y id = (ground arith, ground arith, ground arith)
  touch_begins _ x y id = (ground arith, ground arith, ground arith)

  -- A touch message gives its phase, its two coordinates and its contact id.
  pub parse_control_message-touch :
      (p : TouchPhase) (x y id : Numeral)
      → parse_control_message D (touch_text p x y id)
        ≡ some (
            touch_msg (record {
              phase = p;
              x = D.strtod (digits x);
              y = D.strtod (digits y);
              id = D.to_unsigned (D.strtod (digits id));
            }))
  unfolding equal
  parse_control_message-touch p x y id =
      let b = touch_begins p x y id in
      parse_control_message-typed D (codes "touch") _ (ground arith)
      ∙ ap some (
          touch_body (touch_text p x y id) (touch_name p) (D.strtod (digits x))
            (D.strtod (digits y)) (D.strtod (digits id)) (touch_phase_found p x y id)
            (touch_number p x y id (codes "x") (digits x)
              (record { no_quote = (refl, tt); no_colon = (refl, tt) }) b.0 refl)
            (touch_number p x y id (codes "y") (digits y)
              (record { no_quote = (refl, tt); no_colon = (refl, tt) }) b.1 refl)
            (touch_number p x y id (codes "id") (digits id)
              (record { no_quote = (refl, (refl, tt)); no_colon = (refl, (refl, tt)) }) b.2 refl)
          ∙ rw (parse-touch_name p))
