-- ===== src/Net/Protocol/Message.antt =====
-- src/net/Protocol.h and Protocol.cpp: the messages, and ParseControlMessage.
pub mod Dispatch
pub mod Input
use opendisplay_win.Common.{
  ℕ, if◌then◌else◌, Bool, true, false, Option, none, some, map_some, value_or, List, [], Bytes,
  codes, equal, ℤ, pos, ◌∷◌,
}
use opendisplay_win.Net.Protocol.Scan.{
  Double, find_string_field, find_number_field, find_bool_field, positive_u32,
}
use opendisplay_win.Net.Protocol.Arrays.{parse_video_caps, without_array}
use opendisplay_win.Net.Protocol.FpsLimit.{VideoCapEntry}

pub data ControlType : Type 0 where
  hello touch scroll pencil proximity kf cursor_ack stats ping unknown : ControlType

pub data TouchPhase : Type 0 where
  began moved ended cancelled unknown : TouchPhase

pub data PencilPhase : Type 0 where
  hover down move up unknown : PencilPhase

unfoldable pub parse_touch_phase : Bytes → TouchPhase
parse_touch_phase phase =
    if equal phase (codes "began")
    then TouchPhase.began
    else if equal phase (codes "moved")
    then TouchPhase.moved
    else if equal phase (codes "ended")
    then TouchPhase.ended
    else if equal phase (codes "cancelled")
    then TouchPhase.cancelled
    else TouchPhase.unknown

unfoldable pub parse_pencil_phase : Bytes → PencilPhase
parse_pencil_phase phase =
    if equal phase (codes "hover")
    then PencilPhase.hover
    else if equal phase (codes "down")
    then PencilPhase.down
    else if equal phase (codes "move")
    then PencilPhase.move
    else if equal phase (codes "up")
    then PencilPhase.up
    else PencilPhase.unknown

module _ (D : Double) where
  pub record HelloMsg : Type 0 where
    pub pixels_wide : ℤ
    pub pixels_high : ℤ
    pub scale : ℤ
    pub device : Bytes
    pub id : Bytes
    pub cursor_port : ℤ
    pub display_max_frame_rate : ℕ
    pub video_caps : List VideoCapEntry

  pub record TouchMsg : Type 0 where
    pub phase : TouchPhase
    pub x : D.Real
    pub y : D.Real
    pub id : ℕ

  pub record ScrollMsg : Type 0 where
    pub dx : D.Real
    pub dy : D.Real

  pub record PencilMsg : Type 0 where
    pub phase : PencilPhase
    pub x : D.Real
    pub y : D.Real
    pub pressure : D.Real
    pub azimuth : D.Real
    pub altitude : D.Real

  pub record ProximityMsg : Type 0 where
    pub entering : Bool
    pub x : D.Real
    pub y : D.Real

  -- A ControlMessage is its type with the one part that the type fills; the other parts keep
  -- their initial values.
  pub data ControlMessage : Type 0 where
    hello_msg : HelloMsg → ControlMessage
    touch_msg : TouchMsg → ControlMessage
    scroll_msg : ScrollMsg → ControlMessage
    pencil_msg : PencilMsg → ControlMessage
    proximity_msg : ProximityMsg → ControlMessage
    ping_msg : D.Real → ControlMessage
    plain_msg : ControlType → ControlMessage

  number_or : D.Real → Bytes → Bytes → D.Real
  number_or d json key = value_or d (find_number_field D json key)

  number : Bytes → Bytes → D.Real
  unfolding number_or
  number = number_or (D.of_ℕ 0)

  text : Bytes → Bytes → Bytes
  text json key = value_or [] (find_string_field json key)

  -- kPencilAltitudeUpright
  abbrev pub altitude_upright : D.Real
  altitude_upright = D.strtod (codes "1.5707963267948966")

  unfoldable pub parse_hello : Bytes → HelloMsg
  unfolding number text number_or
  parse_hello json = record {
    pixels_wide = D.to_int (number json (codes "pixelsWide"));
    pixels_high = D.to_int (number json (codes "pixelsHigh"));
    scale = D.to_int (number_or (D.of_ℕ 1) json (codes "scale"));
    device = text json (codes "device");
    id = text json (codes "id");
    cursor_port = D.to_int (number json (codes "cursorPort"));
    video_caps = parse_video_caps D json;
    display_max_frame_rate = positive_u32 D (
        find_number_field D (without_array json (codes "videoCaps")) (codes "displayMaxFrameRate"));
  }

  unfoldable pub parse_body : Bytes → Bytes → ControlMessage
  unfolding number text number_or
  parse_body type json =
      if equal type (codes "hello")
      then hello_msg (parse_hello json)
      else if equal type (codes "touch")
      then touch_msg (record {
        phase = parse_touch_phase (text json (codes "phase"));
        x = number json (codes "x");
        y = number json (codes "y");
        id = D.to_unsigned (number json (codes "id"));
      })
      else if equal type (codes "scroll")
      then scroll_msg (record { dx = number json (codes "dx"); dy = number json (codes "dy") })
      else if equal type (codes "pencil")
      then pencil_msg (record {
        phase = parse_pencil_phase (text json (codes "phase"));
        x = number json (codes "x");
        y = number json (codes "y");
        pressure = number json (codes "pressure");
        azimuth = number json (codes "azimuth");
        altitude = number_or altitude_upright json (codes "altitude");
      })
      else if equal type (codes "proximity")
      then proximity_msg (record {
        entering = value_or false (find_bool_field json (codes "entering"));
        x = number json (codes "x");
        y = number json (codes "y");
      })
      else if equal type (codes "kf")
      then plain_msg kf
      else if equal type (codes "cursorAck")
      then plain_msg cursor_ack
      else if equal type (codes "stats")
      then plain_msg stats
      else if equal type (codes "ping")
      then ping_msg (number json (codes "t"))
      else plain_msg unknown

  -- `none` is std::nullopt: there is no "type".
  unfoldable pub parse_control_message : Bytes → Option ControlMessage
  parse_control_message json =
      map_some (λ type. parse_body type json) (find_string_field json (codes "type"))
