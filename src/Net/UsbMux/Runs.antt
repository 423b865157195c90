-- ===== src/Net/UsbMux/Runs.antt =====
-- src/net/UsbMux.cpp: requests and answers on a socket that moves at most three bytes at a time.
use opendisplay_win.Common.{
  ℕ, true, false, some, List, [], ◌∷◌, ◌++◌, Bytes, codes, cut, strip, digits, read_digits,
  skip_space, ◌≡◌, refl, arith,
}
use opendisplay_win.Net.Socket.{write_loop}
use opendisplay_win.Net.Socket.Slow.{Pipe, slow, slow-IsStream}
use opendisplay_win.Net.UsbMux.{
  htons, extract_key_integer, connect_plist, devices_in, pieces, pieces_of, extract_key_string,
  element_text, stoul, send_plist, mux_header, word_bytes,
}
use opendisplay_win.Net.UsbMux.Plist.{message}
use opendisplay_win.Net.UsbMux.Request.{connect_plist_lem}
use opendisplay_win.Net.UsbMux.Devices.{devices_in_lem, find_device, on_usb, first_serial, names}
use opendisplay_win.Net.UsbMux.Queries.{connect_usb_mux, connect_usb_mux_lem, TunnelAt}
use opendisplay_win.Net.UsbMux.Watch.{
  UsbMuxWatch, watch_round, watch_round_lem, changes, events_text,
}

connect_plist_lem_example :
    (extract_key_integer (connect_plist 7 9000) (codes "DeviceID") ≡ some 7)
    × (extract_key_integer (connect_plist 7 9000) (codes "PortNumber") ≡ some 10275)
    × (htons 10275 ≡ 9000)
connect_plist_lem_example = connect_plist_lem 7 9000 (omega arith) (omega arith)

-- The device 7 twice, once with what it is, and a device on the network.
abbrev answer : Bytes
answer =
    codes "<dict><key>DeviceID</key><integer>7</integer><key>Properties</key><dict>"
    ++ (codes "<key>ConnectionType</key><string>USB</string><key>DeviceID</key><integer>7</integer>"
        ++ (codes "<key>SerialNumber</key><string>00A</string></dict></dict>"
            ++ codes
                "<dict><key>DeviceID</key><integer>9</integer><string>Network</string></dict>"))

devices_in_lem_example :
    find_device 7 (devices_in answer)
    ≡ some record { present = true; device_id = 7; serial = codes "00A" }
unfolding on_usb first_serial names pieces pieces_of extract_key_integer extract_key_string
    element_text stoul cut strip skip_space read_digits
devices_in_lem_example = devices_in_lem 7 answer

abbrev result_0 : Bytes
result_0 = codes "<key>Number</key><integer>0</integer>"

abbrev link : Bytes → Pipe
link later = record { incoming = message 0 result_0 ++ later; outgoing = [] }

connect_usb_mux_lem_example :
    TunnelAt slow slow-IsStream true
      (1 ∷ 2 ∷ [])
      (connect_usb_mux slow (some (link (1 ∷ 2 ∷ []))) 7 9000)
unfolding slow-IsStream send_plist write_loop message mux_header word_bytes connect_plist digits
    extract_key_integer element_text stoul cut strip skip_space read_digits
connect_usb_mux_lem_example =
    connect_usb_mux_lem slow slow-IsStream 7 9000 result_0 (1 ∷ 2 ∷ []) (link (1 ∷ 2 ∷ []))
      (omega arith) (0, refl)

abbrev attached : Bytes
attached = codes "<key>MessageType</key><string>Attached</string>"

abbrev events : List (ℕ × Bytes)
events = (0, attached) ∷ (0, codes "<string>Paired</string>") ∷ (0, attached) ∷ []

abbrev watch : UsbMuxWatch
watch = record { gen = 5; up = false; logged_down = true }

-- Two of the three events count.
watch_round_lem_example :
    watch_round slow 4 watch (some (link (events_text events)))
    ≡ some (record { gen = 9; up = false; logged_down = false }, true)
unfolding slow-IsStream send_plist write_loop message mux_header word_bytes changes
    extract_key_integer element_text stoul cut strip skip_space read_digits
watch_round_lem_example =
    watch_round_lem slow slow-IsStream events 4 watch result_0 (link (events_text events))
      (omega arith) refl (omega arith, (omega arith, (omega arith, tt))) (omega arith) (0, refl)
