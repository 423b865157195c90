-- ===== src/Net/Connection.antt =====
-- src/net/Connection.cpp: length-prefixed frames over a stream socket. `socket_` is an option, none
-- for INVALID_SOCKET; the send mutex stands for itself by the flag that it is there.
pub mod Frames
mod Runs
use opendisplay_win.Common.{
  ℕ, zero, suc, ◌+◌, ◌-◌, ◌*◌, ◌/◌, ◌%◌, ◌^◌, ltb, ◌==◌, if◌then◌else◌, Bool, true, false, not,
  ◌&&◌, ◌||◌, Option, none, some, List, [], ◌∷◌, ◌++◌, Bytes, length,
}
use opendisplay_win.Net.Socket.{Socket, read_loop, write_loop}

abbrev pub max_inbound_frame : ℕ
max_inbound_frame = 2 ^ 20

-- The four length bytes of a frame, most significant first.
pub length_bytes : ℕ → Bytes
length_bytes size =
    (size / 2 ^ 24 % 256) ∷ (size / 2 ^ 16 % 256) ∷ (size / 2 ^ 8 % 256) ∷ (size % 256) ∷ []

-- The shifted bytes do not overlap, so `|` is a sum.
pub length_of : Bytes → ℕ
length_of (a ∷ b ∷ c ∷ d ∷ _) = a * 2 ^ 24 + b * 2 ^ 16 + c * 2 ^ 8 + d
length_of _ = 0

module _ (S : Socket) where
  pub record Connection : Type 0 where
    pub socket : Option S.State
    pub has_mutex : Bool

  pub read_exact : ℕ → S.State → Option Bytes × S.State
  read_exact size s = read_loop S size size [] s

  pub write_exact : Bytes → S.State → Bool × S.State
  write_exact b s = write_loop S (length b) b s

  -- The size is known: refuse it, or read the payload (`len > 0 &&`).
  read_payload : ℕ → S.State → Option Bytes × S.State
  read_payload len s =
      if ltb max_inbound_frame len
      then (none, s)
      else if len == 0
      then (some [], s)
      else read_exact len s

  read_after_length : Option Bytes × S.State → Option Bytes × S.State
  read_after_length (none, s) = (none, s)
  read_after_length (some len_bytes, s) = read_payload (length_of len_bytes) s

  read_frame_on : Option S.State → Bool → Option Bytes × Connection
  read_frame_on none m = (none, record { socket = none; has_mutex = m })
  read_frame_on (some s) m =
      let (r, s') = read_after_length (read_exact 4 s) in
      (r, record { socket = some s'; has_mutex = m })

  pub read_frame : Connection → Option Bytes × Connection
  unfolding read_payload read_after_length read_frame_on
  read_frame c = read_frame_on c.socket c.has_mutex

  send_after_length : Bytes → Bool × S.State → Bool × S.State
  send_after_length payload (false, s) = (false, s)
  send_after_length payload (true, s) =
      if length payload == 0 then (true, s) else write_exact payload s

  send_frame_on : Bytes → Option S.State → Bool → Bool × Connection
  send_frame_on payload none m = (false, record { socket = none; has_mutex = m })
  send_frame_on payload (some s) false = (false, record { socket = some s; has_mutex = false })
  send_frame_on payload (some s) true =
      let (ok, s') = send_after_length payload (write_exact (length_bytes (length payload)) s) in
      (ok, record { socket = some s'; has_mutex = true })

  -- `size` is a uint32_t: the callers pass the payload's own size.
  pub send_frame : Connection → Bytes → Bool × Connection
  unfolding send_after_length send_frame_on
  send_frame c payload = send_frame_on payload c.socket c.has_mutex

  pub close : Connection → Connection
  close c = record c { socket = none }
