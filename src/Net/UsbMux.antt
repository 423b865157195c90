-- ===== src/Net/UsbMux.antt =====
-- src/net/UsbMux.cpp: requests to the USB multiplexer on this machine. The socket that ConnectLocal
-- dials is an argument, none where it could not be dialled.
pub mod Plist
pub mod Request
pub mod Devices
pub mod Queries
pub mod Watch
mod Runs
use opendisplay_win.Common.{
  ℕ, zero, suc, ◌+◌, ◌-◌, ◌*◌, ◌/◌, ◌%◌, ◌^◌, ltb, ◌==◌, if◌then◌else◌, Bool, true, false, not,
  ◌&&◌, ◌||◌, Option, none, some, ◌>>=◌, value_or, List, [], ◌∷◌, ◌++◌, Bytes, codes, length, take,
  cut, skip_space, is_digit, read_digits, digits,
}
use opendisplay_win.Net.Socket.{Socket, read_loop, write_loop}

pub record UsbMuxDevice : Type 0 where
  pub present : Bool
  pub device_id : ℕ
  pub serial : Bytes

-- A `uint32_t` in memory, the least byte first, and back.
unfoldable pub word_bytes : ℕ → Bytes
word_bytes n = n % 256 ∷ n / 2 ^ 8 % 256 ∷ n / 2 ^ 16 % 256 ∷ n / 2 ^ 24 % 256 ∷ []

unfoldable pub word_of : Bytes → ℕ
word_of (a ∷ b ∷ c ∷ d ∷ _) = a + b * 2 ^ 8 + c * 2 ^ 16 + d * 2 ^ 24
word_of _ = 0

-- A `MuxHeader` with version 1 and message 8.
unfoldable pub mux_header : ℕ → ℕ → Bytes
mux_header size tag =
    word_bytes ((16 + size) % 2 ^ 32) ++ (word_bytes 1 ++ (word_bytes 8 ++ word_bytes tag))

module _ (S : Socket) where
  abbrev pub send_all : Bytes → S.State → Bool × S.State
  send_all b s = write_loop S (length b) b s

  abbrev pub recv_all : ℕ → S.State → Option Bytes × S.State
  recv_all n s = read_loop S n n [] s

  abbrev send_body : Bytes → Bool × S.State → Bool × S.State
  send_body xml (false, s) = (false, s)
  send_body xml (true, s) = send_all xml s

  unfoldable pub send_plist : ℕ → Bytes → S.State → Bool × S.State
  send_plist tag xml s = send_body xml (send_all (mux_header (length xml) tag) s)

  abbrev recv_body : ℕ → S.State → Option Bytes × S.State
  recv_body size s =
      if ltb size 16 || ltb 1_000_000 size
      then (none, s)
      else if ltb 16 size
      then recv_all (size - 16) s
      else (some [], s)

  abbrev after_header : Option Bytes × S.State → Option Bytes × S.State
  after_header (none, s) = (none, s)
  after_header (some header, s) = recv_body (word_of header) s

  unfoldable pub recv_plist : S.State → Option Bytes × S.State
  recv_plist s = after_header (recv_all 16 s)

-- `<key>`, the key and `</key>`.
abbrev pub key_tag : Bytes → Bytes
key_tag key = codes "<key>" ++ (key ++ codes "</key>")

-- The text of the first element `opening` behind a key, not more than 80 bytes behind the key's start.
unfoldable pub element_text : Bytes → Bytes → Bytes → Bytes → Option Bytes
element_text opening closing key xml = do
  at_key ← cut (key_tag key) xml
  at_open ← cut opening (key_tag key ++ at_key.1)
  near ← if ltb 80 (length at_open.0) then none else some at_open.1
  at_close ← cut closing near
  some at_close.0

-- `std::stoul` with an `unsigned long` of 32 bits, none where it throws.
abbrev pub unsigned_of : Bytes → Option ℕ
unsigned_of [] = none
unsigned_of (c ∷ t) =
    let n = read_digits 0 (c ∷ t) in
    if is_digit c then (if ltb n (2 ^ 32) then some n else none) else none

abbrev pub negated : Option ℕ → Option ℕ
negated none = none
negated (some n) = some ((2 ^ 32 - n) % 2 ^ 32)

abbrev pub signed_text : Bytes → Option ℕ
signed_text [] = none
signed_text (c ∷ t) =
    if c == b'-' then negated (unsigned_of t) else unsigned_of (if c == b'+' then t else c ∷ t)

unfoldable pub stoul : Bytes → Option ℕ
stoul t = signed_text (skip_space t)

unfoldable pub extract_key_integer : Bytes → Bytes → Option ℕ
extract_key_integer xml key = do
  text ← element_text (codes "<integer>") (codes "</integer>") key xml
  stoul text

unfoldable pub extract_key_string : Bytes → Bytes → Option Bytes
extract_key_string xml key = element_text (codes "<string>") (codes "</string>") key xml

-- `htons`.
abbrev pub htons : ℕ → ℕ
htons n = n % 256 * 256 + n / 256

abbrev pub plist_head : Bytes
plist_head =
    codes "<?xml version=\"1.0\" encoding=\"UTF-8\"?>\n"
    ++ (codes "<!DOCTYPE plist PUBLIC \"-//Apple//DTD PLIST 1.0//EN\" "
        ++ (codes "\"http://www.apple.com/DTDs/PropertyList-1.0.dtd\">\n"
            ++ (codes "<plist version=\"1.0\"><dict>"
                ++ codes "<key>ClientVersionString</key><string>opendisplay-win</string>")))

-- `snprintf` writes at most 699 bytes.
unfoldable pub connect_plist : ℕ → ℕ → Bytes
connect_plist device_id device_port = take 699 (
    plist_head
    ++ (codes "<key>MessageType</key><string>Connect</string>"
        ++ (codes "<key>ProgName</key><string>opendisplay-win</string>"
            ++ (codes "<key>DeviceID</key><integer>"
                ++ (digits device_id
                    ++ (codes "</integer><key>PortNumber</key><integer>"
                        ++ (digits (htons device_port) ++ codes "</integer></dict></plist>")))))))

abbrev pub list_devices_plist : Bytes
list_devices_plist =
    plist_head
    ++ (codes "<key>MessageType</key><string>ListDevices</string>"
        ++ (codes "<key>ProgName</key><string>opendisplay-win</string>"
            ++ codes "<key>kLibUSBMuxVersion</key><integer>3</integer></dict></plist>"))

abbrev device_key : Bytes
device_key = codes "DeviceID"

abbrev has : Bytes → Bytes → Bool
has needle text = elim (cut needle text) [ none ↦ false | some p ↦ true ]

abbrev pub is_usb : Bytes → Bool
is_usb text = has (codes "<string>USB</string>") text

-- The pieces from one DeviceID to the next, for the text behind the first one. Each round passes a
-- key, so rounds as many as bytes are enough.
unfoldable pub pieces_of : ℕ → Bytes → List Bytes
pieces_of zero rest = (key_tag device_key ++ rest) ∷ []
pieces_of (suc rounds) rest = elim (cut (key_tag device_key) rest) [
  | none ↦ (key_tag device_key ++ rest) ∷ []
  | some (piece, later) ↦ (key_tag device_key ++ piece) ∷ pieces_of rounds later
]

unfoldable pub pieces : Bytes → List Bytes
pieces xml = elim (cut (key_tag device_key) xml) [
  | none ↦ []
  | some (before, rest) ↦ pieces_of (length rest) rest
]

pub record Info : Type 0 where
  pub usb : Bool
  pub serial : Bytes

abbrev no_info : Info
no_info = record { usb = false; serial = [] }

-- `serial.empty() &&`, with what the piece has.
abbrev pub first_text : Bytes → Option Bytes → Bytes
first_text [] found = value_or [] found
first_text (c ∷ t) found = c ∷ t

abbrev pub merge : Bytes → Info → Info
merge piece info = record {
  usb = info.usb || is_usb piece;
  serial = first_text info.serial (extract_key_string piece (codes "SerialNumber"));
}

abbrev pub Seen : Type 0
Seen = List (ℕ × Info)

unfoldable pub merge_at : ℕ → Bytes → Seen → Seen
merge_at id piece [] = (id, merge piece no_info) ∷ []
merge_at id piece ((k, info) ∷ seen) =
    let rest = merge_at id piece seen in
    if k == id then (k, merge piece info) ∷ seen else (k, info) ∷ rest

abbrev pub id_of : Bytes → Option ℕ
id_of piece = extract_key_integer piece device_key

unfoldable pub note_piece : Seen → Bytes → Seen
note_piece seen piece = elim (id_of piece) [ none ↦ seen | some id ↦ merge_at id piece seen ]

unfoldable pub note_pieces : Seen → List Bytes → Seen
note_pieces seen [] = seen
note_pieces seen (p ∷ ps) = note_pieces (note_piece seen p) ps

unfoldable pub usb_devices : Seen → List UsbMuxDevice
usb_devices [] = []
usb_devices ((id, info) ∷ seen) =
    let rest = usb_devices seen in
    if info.usb
    then record { present = true; device_id = id; serial = info.serial } ∷ rest
    else rest

unfoldable pub devices_in : Bytes → List UsbMuxDevice
devices_in xml = usb_devices (note_pieces [] (pieces xml))
