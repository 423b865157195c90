-- ===== src/Net/Mdns/Runs.antt =====
-- Names of a small packet: one that is written out, one behind a pointer, and a pointer to itself.
use opendisplay_win.Common.{◌+◌, List, [], ◌∷◌, ◌++◌, Bytes, codes, length, All, ◌≡◌, refl, arith}
use opendisplay_win.Net.Mdns.{
  append_labels, append_name, malformed, found, follow, name_move, walk, read_name,
}
use opendisplay_win.Net.Mdns.RoundTrip.{IsLabel, dotted, read_name-append_name}
use opendisplay_win.Net.Mdns.Names.{IsInPacket, read_name-IsInPacket}

-- `ab.c`, then `d` and a pointer to it, then a pointer to itself.
abbrev packet : Bytes
packet = 2 ∷ b'a' ∷ b'b' ∷ 1 ∷ b'c' ∷ 0 ∷ 1 ∷ b'd' ∷ 0xc0 ∷ 0 ∷ 0xc0 ∷ 10 ∷ []

read_run :
    (read_name packet 0 ≡ found 6 (codes "ab.c"))
    × (read_name packet 6 ≡ found 10 (codes "d.ab.c"))
    × (read_name packet 10 ≡ malformed)
unfolding read_name walk name_move follow
read_run = (refl, refl, refl)

append_run : append_name (codes "ab.c") ≡ 2 ∷ b'a' ∷ b'b' ∷ 1 ∷ b'c' ∷ 0 ∷ []
unfolding append_name append_labels
append_run = refl

read_name-IsInPacket_example : IsInPacket packet 6 (read_name packet 6)
read_name-IsInPacket_example = read_name-IsInPacket packet 6

abbrev service_labels : List Bytes
service_labels = codes "_tcp" ∷ codes "local" ∷ []

service_are : All IsLabel (codes "_opensidecar" ∷ service_labels)
service_are = (
  record { some_byte = omega arith; short = omega arith; no_dot = ground arith },
  (
    record { some_byte = omega arith; short = omega arith; no_dot = ground arith },
    (record { some_byte = omega arith; short = omega arith; no_dot = ground arith }, tt),
  ),
)

read_name-append_name_example :
    read_name
      (packet ++ (append_name (dotted (codes "_opensidecar") service_labels) ++ 7 ∷ []))
      (length packet)
    ≡ found
        (length packet + length (append_name (dotted (codes "_opensidecar") service_labels)))
        (dotted (codes "_opensidecar") service_labels)
read_name-append_name_example =
    read_name-append_name packet (7 ∷ []) (codes "_opensidecar") service_labels service_are
