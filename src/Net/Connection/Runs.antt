-- ===== src/Net/Connection/Runs.antt =====
-- The frame theorems on a socket that moves at most three bytes at a time.
use opendisplay_win.Common.{true, false, none, some, List, [], ◌∷◌, map, Bytes, ◌≡◌, refl, arith}
use opendisplay_win.Net.Socket.Slow.{Pipe, slow, slow-IsStream}
use opendisplay_win.Net.Connection.{read_frame, send_frame, close, length_bytes}
use opendisplay_win.Net.Connection.Frames.{
  framed, read_frames, read_frames-send_frames, closed_lem, send_frames_lem,
}

abbrev fresh : Pipe
fresh = record { incoming = []; outgoing = [] }

abbrev hello : List Bytes
hello = (b'{' ∷ b'}' ∷ []) ∷ [] ∷ (1 ∷ 2 ∷ 3 ∷ 4 ∷ 5 ∷ []) ∷ []

abbrev on_wire : Bytes
on_wire = 0 ∷ 0 ∷ 0 ∷ 2 ∷ b'{' ∷ b'}' ∷ 0 ∷ 0 ∷ 0 ∷ 0 ∷ 0 ∷ 0 ∷ 0 ∷ 5 ∷ 1 ∷ 2 ∷ 3 ∷ 4 ∷ 5 ∷ []

abbrev arrived : Pipe
arrived = record { incoming = on_wire; outgoing = [] }

closed_lem_example :
    ((read_frame slow (close slow (record { socket = some arrived; has_mutex = true }))).0 ≡ none)
    × ((send_frame slow (close slow (record { socket = some arrived; has_mutex = true })) []).0
        ≡ false)
    × ((send_frame slow (close slow (record { socket = some arrived; has_mutex = true })) []).1
        ≡ close slow (record { socket = some arrived; has_mutex = true }))
closed_lem_example = closed_lem slow (record { socket = some arrived; has_mutex = true }) []

read_frames-send_frames_example :
    read_frames slow 3 (record { socket = some arrived; has_mutex = true }) ≡ map some hello
unfolding slow-IsStream framed length_bytes
read_frames-send_frames_example =
    read_frames-send_frames slow slow slow-IsStream slow-IsStream hello fresh arrived true on_wire
      [] (omega arith, (omega arith, (omega arith, tt))) refl
      (send_frames_lem slow slow-IsStream hello fresh) refl
