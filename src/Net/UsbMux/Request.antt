-- ===== src/Net/UsbMux/Request.antt =====
-- src/net/UsbMux.cpp, ConnectPlist: the fields of a request are read from it again.
use opendisplay_win.Common.{
  ℕ, ◌+◌, ◌^◌, ◌≤◌, ◌<◌, ltb, true, false, some, [], ◌∷◌, ◌++◌, append-nil, append_assoc, Bytes,
  codes, length, length-append, take-all, All, strip, cut-append, skip_space, NoneBefore,
  none_before, none_before_sound, NoneBefore-append, is_digit, digits, read_digits,
  read_digits-digits, length-digits, digits_plain, digits-positive, NoneBefore-digits, ◌≡◌, refl,
  sym, ap, ◌∙◌, arith,
}
use opendisplay_win.Net.UsbMux.{
  key_tag, element_text, stoul, extract_key_integer, htons, plist_head, connect_plist, device_key,
}

-- An element behind its key is found, if neither stands before its place.
pub element_text_lem :
    (opening closing key pre text rest : Bytes)
    → NoneBefore (key_tag key) pre (key_tag key ++ (opening ++ (text ++ (closing ++ rest))))
    → NoneBefore opening (key_tag key) (opening ++ (text ++ (closing ++ rest)))
    → NoneBefore closing text (closing ++ rest)
    → length (key_tag key) ≤ 80
    → element_text opening closing key
        (pre ++ (key_tag key ++ (opening ++ (text ++ (closing ++ rest)))))
      ≡ some text
unfolding element_text
element_text_lem opening closing key pre text rest no_key no_opening no_closing near =
    let close : (ltb 80 (length (key_tag key)) ≡ false) = ground arith in
    rw
      (
        cut-append (key_tag key) pre _ no_key,
        cut-append opening (key_tag key) _ no_opening,
        close,
        cut-append closing text rest no_closing,
      )
      refl

stoul_plain :
    (ds : Bytes)
    → All (λ d. is_digit d ≡ true) ds
    → 0 < length ds
    → read_digits 0 ds < 2 ^ 32
    → stoul ds ≡ some (read_digits 0 ds)
unfolding stoul skip_space
stoul_plain [] h p b = absurd (omega arith)
stoul_plain (d ∷ ds) h p b = ground (arith, h.0)

pub stoul-digits : (n : ℕ) → n < 2 ^ 32 → stoul (digits n) ≡ some n
stoul-digits n h =
    let value : (read_digits 0 (digits n) ≡ n) =
      ap (read_digits 0) (sym (append-nil (digits n)))
      ∙ read_digits-digits n []
      ∙ (unfold read_digits in refl) in
    stoul_plain (digits n) (digits_plain n) (digits-positive n) (rw value h) ∙ ap some value

-- The text in front of the device, and the number of the port with what ends the request.
abbrev front : Bytes
front =
    plist_head
    ++ (codes "<key>MessageType</key><string>Connect</string>"
        ++ codes "<key>ProgName</key><string>opendisplay-win</string>")

abbrev integer_end : Bytes
integer_end = codes "</integer>"

abbrev port_key : Bytes
port_key = codes "PortNumber"

abbrev port_part : ℕ → Bytes
port_part port =
    key_tag port_key
    ++ (codes "<integer>" ++ (digits (htons port) ++ (integer_end ++ codes "</dict></plist>")))

abbrev request : ℕ → ℕ → Bytes
request id port =
    front
    ++ (key_tag device_key ++ (codes "<integer>" ++ (digits id ++ (integer_end ++ port_part port))))

length-append_fits : (a b : Bytes) (m n : ℕ) → length a ≤ m → length b ≤ n → length (a ++ b) ≤ m + n
length-append_fits a b m n h k = omega (arith, length-append a b)

abbrev behind_number : Bytes
behind_number = integer_end ++ codes "</dict></plist>"

port_part_fits : (port : ℕ) → port < 2 ^ 16 → length (port_part port) ≤ 69
port_part_fits port k =
    let e = length-digits (htons port) 4 (omega arith) in
    let number = length-append_fits (digits (htons port)) behind_number 5 25 e (omega arith) in
    length-append_fits (key_tag port_key ++ codes "<integer>")
      (digits (htons port) ++ behind_number) 30 39 (omega arith) (omega (arith, number))

request_fits : (id port : ℕ) → id < 2 ^ 32 → port < 2 ^ 16 → length (request id port) ≤ 699
request_fits id port h k =
    let d = length-digits id 9 (omega arith) in
    let device =
      length-append_fits (digits id) (integer_end ++ port_part port) 10 79 d
        (omega (arith, port_part_fits port k)) in
    length-append_fits (front ++ (key_tag device_key ++ codes "<integer>"))
      (digits id ++ (integer_end ++ port_part port)) 500 199 (omega arith) (omega (arith, device))

connect_plist_whole :
    (id port : ℕ) → id < 2 ^ 32 → port < 2 ^ 16 → connect_plist id port ≡ request id port
unfolding connect_plist
connect_plist_whole id port h k = take-all 699 (request id port) (request_fits id port h k)

device_of_request :
    (id port : ℕ) → id < 2 ^ 32 → extract_key_integer (request id port) device_key ≡ some id
unfolding extract_key_integer
device_of_request id port h =
    let found =
      element_text_lem (codes "<integer>") integer_end device_key front (digits id) (port_part port)
        (none_before_sound (key_tag device_key) front
          (key_tag device_key
            ++ (codes "<integer>" ++ (digits id ++ (integer_end ++ port_part port))))
          (unfold none_before strip in refl))
        (none_before_sound (codes "<integer>") (key_tag device_key)
          (codes "<integer>" ++ (digits id ++ (integer_end ++ port_part port)))
          (unfold none_before strip in refl))
        (NoneBefore-digits id (codes "/integer>") (integer_end ++ port_part port)) (omega arith) in
    rw found (stoul-digits id h)

-- What stands in front of the number of the device.
abbrev device_front : Bytes
device_front = front ++ (key_tag device_key ++ codes "<integer>")

request_at_port :
    (id port : ℕ) → request id port ≡ (device_front ++ (digits id ++ integer_end)) ++ port_part port
request_at_port id port =
    ap (◌++◌ device_front) (sym (append_assoc (digits id) integer_end (port_part port)))

port_of_request :
    (id port : ℕ)
    → port < 2 ^ 16
    → extract_key_integer (request id port) port_key ≡ some (htons port)
unfolding extract_key_integer
port_of_request id port h =
    let number = digits (htons port) in
    let tail = codes "<integer>" ++ (number ++ (integer_end ++ codes "</dict></plist>")) in
    let here = port_part port in
    let no_key =
      NoneBefore-append (key_tag port_key) device_front (digits id ++ integer_end) here
        (none_before_sound (key_tag port_key) device_front ((digits id ++ integer_end) ++ here)
          (unfold none_before strip in refl))
        (NoneBefore-append (key_tag port_key) (digits id) integer_end here
          (NoneBefore-digits id (codes "key>PortNumber</key>") (integer_end ++ here))
          (none_before_sound (key_tag port_key) integer_end here
            (unfold none_before strip in refl))) in
    let found =
      element_text_lem (codes "<integer>") integer_end port_key
        (device_front ++ (digits id ++ integer_end)) number (codes "</dict></plist>") no_key
        (none_before_sound (codes "<integer>") (key_tag port_key) tail
          (unfold none_before strip in refl))
        (NoneBefore-digits (htons port) (codes "/integer>")
          (integer_end ++ codes "</dict></plist>"))
        (omega arith) in
    rw (request_at_port id port, found) (stoul-digits (htons port) (omega arith))

-- From the request for a device and a port, both in their machine ranges, the device's number is
-- read again, and the port's number with its two bytes swapped: in network order.
pub connect_plist_lem :
    (id port : ℕ)
    → id < 2 ^ 32
    → port < 2 ^ 16
    → (extract_key_integer (connect_plist id port) (codes "DeviceID") ≡ some id)
      × (extract_key_integer (connect_plist id port) (codes "PortNumber") ≡ some (htons port))
      × (htons (htons port) ≡ port)
connect_plist_lem id port h k =
    rw (connect_plist_whole id port h k)
      (device_of_request id port h, port_of_request id port k, omega arith)
