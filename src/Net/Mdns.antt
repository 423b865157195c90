-- ===== src/Net/Mdns.antt =====
-- src/net/Mdns.cpp: the query, and the names of a DNS packet. A read outside of the packet has no
-- value; the guards of the source stand before each read.
pub mod Names
pub mod RoundTrip
pub mod Response
mod Runs
use Prim.Native.Nat.{bit_and}
use opendisplay_win.Common.{
  ℕ, zero, suc, ◌+◌, ◌*◌, ◌/◌, ◌%◌, ltb, leb, ◌==◌, if◌then◌else◌, Bool, ◌||◌, Option, none, some,
  List, [], ◌∷◌, ◌++◌, Bytes, codes, length, get_elem?, take, drop, not,
}

abbrev pub service : Bytes
service = codes "_opensidecar._tcp.local"

abbrev pub type_ptr : ℕ
type_ptr = 12

-- `value` is a uint16_t.
abbrev pub put_uint16 : ℕ → Bytes
put_uint16 value = (value / 256 % 256) ∷ (value % 256) ∷ []

-- The loop over the labels; `label` is the text from `start` to here.
unfoldable pub append_labels : Bytes → Bytes → Bytes
append_labels label [] = (length label % 256) ∷ label
append_labels label (c ∷ name) =
    let more = append_labels (label ++ c ∷ []) name in
    let next = append_labels [] name in
    if c == b'.' then (length label % 256) ∷ (label ++ next) else more

unfoldable pub append_name : Bytes → Bytes
unfolding append_labels
append_name name = append_labels [] name ++ 0 ∷ []

unfoldable pub build_query : Bytes
build_query =
    put_uint16 0
    ++ put_uint16 0
    ++ put_uint16 1
    ++ put_uint16 0
    ++ put_uint16 0
    ++ put_uint16 0
    ++ append_name service
    ++ put_uint16 type_ptr
    ++ put_uint16 0x8001

-- `unfinished` is fuel that ran out, or a read outside of the packet.
pub data Name : Type 0 where
  malformed : Name
  found : ℕ → Bytes → Name
  unfinished : Name

abbrev is_pointer : ℕ → Bool
is_pointer len = bit_and len 0xc0 == 0xc0

-- The text read so far with one more label.
abbrev pub with_label : Bytes → Bytes → Bytes
with_label [] label = label
with_label (c ∷ out) label = c ∷ (out ++ b'.' ∷ label)

-- `n` bytes from `b` on, if the packet has them.
abbrev pub part : Bytes → ℕ → ℕ → Option Bytes
part packet b n = if ltb (length packet) (b + n) then none else some (take n (drop b packet))

-- One round of the loop: the answer, or the next cursor, `after`, `hops` and text.
pub data Move : Type 0 where
  stop : Name → Move
  go : ℕ → ℕ → ℕ → Bytes → Move

-- A pointer whose second byte is `low`.
unfoldable pub follow : ℕ → Option ℕ → ℕ → ℕ → ℕ → Bytes → Move
follow len none cursor after hops out = stop unfinished
follow len (some low) cursor after hops out =
    if ltb 16 (hops + 1)
    then stop malformed
    else go (bit_and len 0x3f * 256 + low) (if after == 0 then cursor + 2 else after) (hops + 1) out

-- The label behind its length.
abbrev pub add_label : ℕ → Option Bytes → ℕ → ℕ → ℕ → Bytes → Move
add_label len none cursor after hops out = stop unfinished
add_label len (some label) cursor after hops out =
    go (cursor + 1 + len) after hops (with_label out label)

unfoldable pub name_move : Bytes → Option ℕ → ℕ → ℕ → ℕ → Bytes → Move
unfolding follow
name_move packet none cursor after hops out = stop malformed
name_move packet (some len) cursor after hops out =
    if len == 0
    then stop (found (if not (after == 0) then after else cursor + 1) out)
    else if is_pointer len
    then (if leb (length packet) (cursor + 1)
        then stop malformed
        else follow len (get_elem? packet (cursor + 1)) cursor after hops out)
    else if ltb (length packet) (cursor + 1 + len)
    then stop malformed
    else add_label len (part packet (cursor + 1) len) cursor after hops out

unfoldable pub walk : ℕ → Bytes → ℕ → ℕ → ℕ → Bytes → Name
walk zero packet cursor after hops out = unfinished
walk (suc fuel) packet cursor after hops out =
    elim (name_move packet (get_elem? packet cursor) cursor after hops out) [
      | stop n ↦ n
      | go cursor' after' hops' out' ↦ walk fuel packet cursor' after' hops' out'
    ]

-- Seventeen runs through the packet, one for each pointer that is followed and the first.
abbrev pub read_fuel : Bytes → ℕ
read_fuel packet = 17 * (length packet + 1) + 1

unfoldable pub read_name : Bytes → ℕ → Name
read_name packet pos = walk (read_fuel packet) packet pos 0 0 []
