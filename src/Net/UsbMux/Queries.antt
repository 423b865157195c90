-- ===== src/Net/UsbMux/Queries.antt =====
-- src/net/UsbMux.cpp: ListUsbMuxDevices, ProbeUsbMux and ConnectUsbMux.
use opendisplay_win.Common.{
  ℕ, ◌≤◌, ◌==◌, if◌then◌else◌, Bool, true, false, Option, none, some, value_or, List, [], ◌++◌,
  Bytes, codes, length, ◌≡◌, Bool-cases, inl, inr,
}
use opendisplay_win.Net.Socket.{Socket, IsStream, first_is}
use opendisplay_win.Net.UsbMux.{
  UsbMuxDevice, send_plist, recv_plist, connect_plist, list_devices_plist, extract_key_integer,
  extract_key_string, is_usb, devices_in, device_key,
}
use opendisplay_win.Net.UsbMux.Plist.{message, max_xml, send_plist_lem, recv_plist_lem}

module _ (S : Socket) where
  -- A request that is sent, and the answer to it.
  abbrev after_send : Bool × S.State → Option Bytes × S.State
  after_send (false, s) = (none, s)
  after_send (true, s) = recv_plist S s

  unfoldable pub ask : ℕ → Bytes → S.State → Option Bytes × S.State
  ask tag xml s = after_send (send_plist S tag xml s)

  abbrev answer_of : Option S.State → Option Bytes
  answer_of none = none
  answer_of (some s) = (ask 1 list_devices_plist s).0

  abbrev listed : Option Bytes → Bool × List UsbMuxDevice
  listed none = (false, [])
  listed (some xml) = (true, devices_in xml)

  unfoldable pub list_usb_mux_devices : Option S.State → Bool × List UsbMuxDevice
  list_usb_mux_devices local = listed (answer_of local)

  abbrev no_device : UsbMuxDevice
  no_device = record { present = false; device_id = 0; serial = [] }

  -- The serial number is stored before the device's number is looked for.
  abbrev probed_id : Bytes → Option ℕ → Bool × UsbMuxDevice
  probed_id serial none = (false, record no_device { serial = serial })
  probed_id serial (some id) = (true, record { present = true; device_id = id; serial = serial })

  abbrev probed : Option Bytes → Bool × UsbMuxDevice
  probed none = (false, no_device)
  probed (some xml) =
      let serial = value_or [] (extract_key_string xml (codes "SerialNumber")) in
      if is_usb xml
      then probed_id serial (extract_key_integer xml device_key)
      else (false, no_device)

  unfoldable pub probe_usb_mux : Option S.State → Bool × UsbMuxDevice
  probe_usb_mux local = probed (answer_of local)

  abbrev number_of : Bytes → ℕ
  number_of xml = value_or 0xffff_ffff (extract_key_integer xml (codes "Number"))

  abbrev accepted : Option Bytes × S.State → Option S.State
  accepted (none, s) = none
  accepted (some xml, s) = if number_of xml == 0 then some s else none

  -- The socket of the tunnel; every other socket is closed.
  unfoldable pub connect_usb_mux : Option S.State → ℕ → ℕ → Option S.State
  connect_usb_mux none id port = none
  connect_usb_mux (some s) id port = accepted (ask 2 (connect_plist id port) s)

module _ (S : Socket) (L : IsStream S) where
  -- A link on which an answer and then the rest are to come once the request is sent.
  abbrev pub Answers : Bytes → Bytes → S.State → Type 0
  Answers xml rest s = (tag : ℕ) × (L.pending s ≡ message tag xml ++ rest)

  pub ask_lem :
      (tag : ℕ) (request xml rest : Bytes) (s : S.State)
      → length xml ≤ max_xml
      → Answers xml rest (send_plist S tag request s).1
      → ((ask S tag request s).0 ≡ some xml) × (L.pending (ask S tag request s).1 ≡ rest)
  unfolding ask
  ask_lem tag request xml rest s h (t, e) =
      let sent = send_plist_lem S L tag request s in
      rw (first_is (send_plist S tag request s) true sent.0)
        (recv_plist_lem S L t xml rest (send_plist S tag request s).1 h e)

  -- What ConnectUsbMux leaves behind: the tunnel is at the rest, or there is no tunnel.
  abbrev pub TunnelAt : Bool → Bytes → Option S.State → Type 0
  TunnelAt true rest none = ⊥
  TunnelAt true rest (some s) = L.pending s ≡ rest
  TunnelAt false rest none = Unit {0}
  TunnelAt false rest (some s) = ⊥

  accepted_lem :
      (xml rest : Bytes) (s : S.State)
      → L.pending s ≡ rest
      → TunnelAt (number_of S xml == 0) rest (accepted S (some xml, s))
  accepted_lem xml rest s e = elim (Bool-cases (number_of S xml == 0)) [
    | inl z ↦ rw z e
    | inr z ↦ rw z tt
  ]

  -- A tunnel is opened exactly when the answer's number is 0, and it then stands right behind the
  -- answer, so that no byte of the device is lost.
  pub connect_usb_mux_lem :
      (id port : ℕ) (xml rest : Bytes) (s : S.State)
      → length xml ≤ max_xml
      → Answers xml rest (send_plist S 2 (connect_plist id port) s).1
      → TunnelAt (number_of S xml == 0) rest (connect_usb_mux S (some s) id port)
  unfolding connect_usb_mux
  connect_usb_mux_lem id port xml rest s h a =
      let r = ask_lem 2 (connect_plist id port) xml rest s h a in
      let answer = ask S 2 (connect_plist id port) s in
      rw (first_is answer (some xml) r.0) (accepted_lem xml rest answer.1 r.1)
