-- ===== src/Net/Protocol/Message/Dispatch.antt =====
-- ParseControlMessage on the messages that the receiver writes.
use opendisplay_win.Common.{
  false, some, map_some, [], ◌∷◌, ◌++◌, Bytes, codes, equal, equal_iff, strip, Absent, ◌≡◌, ◌≢◌,
  refl, arith,
}
use opendisplay_win.Net.Protocol.Scan.{Double, quote, find_string_field}
use opendisplay_win.Net.Protocol.Fields.{find_string_field_lem}
use opendisplay_win.Net.Protocol.Message.{
  ControlType, ControlMessage, hello_msg, touch_msg, scroll_msg, pencil_msg, proximity_msg,
  ping_msg, plain_msg, parse_body, parse_control_message,
}

-- The value of "type" on the wire, for the types that have one.
abbrev pub wire_name : ControlType → Bytes
wire_name ControlType.hello = codes "hello"
wire_name ControlType.touch = codes "touch"
wire_name ControlType.scroll = codes "scroll"
wire_name ControlType.pencil = codes "pencil"
wire_name ControlType.proximity = codes "proximity"
wire_name ControlType.kf = codes "kf"
wire_name ControlType.cursor_ack = codes "cursorAck"
wire_name ControlType.stats = codes "stats"
wire_name ControlType.ping = codes "ping"
wire_name ControlType.unknown = codes "pong"

-- `{"type":"name"` and what follows.
abbrev pub typed : Bytes → Bytes → Bytes
typed name rest = codes "{\"type\":\"" ++ (name ++ quote ∷ rest)

module _ (D : Double) where
  abbrev pub type_of : ControlMessage D → ControlType
  type_of (hello_msg _) = ControlType.hello
  type_of (touch_msg _) = ControlType.touch
  type_of (scroll_msg _) = ControlType.scroll
  type_of (pencil_msg _) = ControlType.pencil
  type_of (proximity_msg _) = ControlType.proximity
  type_of (ping_msg _) = ControlType.ping
  type_of (plain_msg t) = t

find_type :
    (name rest : Bytes)
    → Absent quote name
    → find_string_field (typed name rest) (codes "type") ≡ some name
unfolding strip
find_type name rest h =
    find_string_field_lem (b'{' ∷ []) (codes "type") [] [] name rest
      (record { key_first = (refl, tt); gap_plain = tt; spaces_are = tt }) h

module _ (D : Double) where
  -- Of a message that begins with its type the body is read by that type.
  pub parse_control_message-typed :
      (name rest : Bytes)
      → Absent quote name
      → parse_control_message D (typed name rest) ≡ some (parse_body D name (typed name rest))
  unfolding parse_control_message
  parse_control_message-typed name rest h = rw (find_type name rest h)

  wire_name-Absent : (t : ControlType) → Absent quote (wire_name t)
  wire_name-Absent ControlType.hello = ground arith
  wire_name-Absent _ = ground arith

  -- A message that begins with the wire name of `t` is parsed as a message of type `t`, whatever
  -- follows; the name "pong" stands for the types that are ignored.
  pub parse_control_message-wire_name :
      (t : ControlType) (rest : Bytes)
      → map_some (type_of D) (parse_control_message D (typed (wire_name t) rest)) ≡ some t
  parse_control_message-wire_name t rest =
      rw (parse_control_message-typed (wire_name t) rest (wire_name-Absent t)) (go t)
    where
      go :
          (t : ControlType)
          → map_some (type_of D) (some (parse_body D (wire_name t) (typed (wire_name t) rest)))
            ≡ some t
      go ControlType.hello = unfold parse_body equal in refl
      go _ = unfold parse_body equal in refl

  differs : (a b : Bytes) → a ≢ b → equal a b ≡ false
  differs a b h = ground (arith, equal_iff a b)

  -- Any other type name gives a message of the unknown type, which callers ignore.
  pub parse_control_message-unknown :
      (name rest : Bytes)
      → Absent quote name
      → ((t : ControlType) → t ≢ ControlType.unknown → name ≢ wire_name t)
      → parse_control_message D (typed name rest) ≡ some (plain_msg ControlType.unknown)
  unfolding parse_body
  parse_control_message-unknown name rest h new = rw (parse_control_message-typed name rest h) (
      rw (
        differs name (codes "hello") (new ControlType.hello (λ e. cc)),
        differs name (codes "touch") (new ControlType.touch (λ e. cc)),
        differs name (codes "scroll") (new ControlType.scroll (λ e. cc)),
        differs name (codes "pencil") (new ControlType.pencil (λ e. cc)),
        differs name (codes "proximity") (new ControlType.proximity (λ e. cc)),
        differs name (codes "kf") (new ControlType.kf (λ e. cc)),
        differs name (codes "cursorAck") (new ControlType.cursor_ack (λ e. cc)),
        differs name (codes "stats") (new ControlType.stats (λ e. cc)),
        differs name (codes "ping") (new ControlType.ping (λ e. cc)),
      ))
