-- ===== src/Net/Mdns/Response.antt =====
-- src/net/Mdns.cpp, ParseResponse: the records of a packet. A read outside of the packet, and a loop
-- that does not end, have no value. `inet_ntop` is a parameter.
pub mod Total
mod Runs
use opendisplay_win.Common.{
  ℕ, zero, suc, ◌+◌, ◌*◌, ltb, ◌==◌, if◌then◌else◌, Bool, not, Option, none, some, ◌>>=◌, value_or,
  List, [], ◌∷◌, Bytes, codes, length, get_elem?, take, drop, equal, strip, cut_at,
}
use opendisplay_win.Net.Mdns.{type_ptr, Name, malformed, found, unfinished, read_name, part}

pub record MdnsReceiver : Type 0 where
  pub instance_name : Bytes
  pub host : Bytes
  pub address : Bytes
  pub port : ℕ
  pub id : Bytes

abbrev pub type_a : ℕ
type_a = 1

abbrev pub type_txt : ℕ
type_txt = 16

abbrev pub type_srv : ℕ
type_srv = 33

abbrev new_receiver : MdnsReceiver
new_receiver = record { instance_name = []; host = []; address = []; port = 0; id = [] }

abbrev pub Found : Type 0
Found = List (Bytes × MdnsReceiver)

abbrev pub Addresses : Type 0
Addresses = List (Bytes × Bytes)

-- `found[name]`, changed.
unfoldable pub change : Bytes → (MdnsReceiver → MdnsReceiver) → Found → Found
change name f [] = (name, f new_receiver) ∷ []
change name f ((k, r) ∷ rs) =
    let rest = change name f rs in if equal k name then (k, f r) ∷ rs else (k, r) ∷ rest

unfoldable pub put_address : Bytes → Bytes → Addresses → Addresses
put_address host text [] = (host, text) ∷ []
put_address host text ((k, a) ∷ addrs) =
    let rest = put_address host text addrs in
    if equal k host then (k, text) ∷ addrs else (k, a) ∷ rest

unfoldable pub find_address : Bytes → Addresses → Option Bytes
find_address host [] = none
find_address host ((k, a) ∷ addrs) =
    let rest = find_address host addrs in if equal k host then some a else rest

unfoldable pub with_addresses : Addresses → Found → Found
with_addresses addrs [] = []
with_addresses addrs ((k, r) ∷ rs) =
    (k, record r { address = value_or r.address (find_address r.host addrs) })
    ∷ with_addresses addrs rs

-- `name.substr(0, name.find('.'))`.
abbrev pub first_label : Bytes → Bytes
first_label name = elim (cut_at b'.' name) [ none ↦ name | some p ↦ p.0 ]

module _ (show_address : Bytes → Bytes) (data_bytes : Bytes) where
  abbrev size : ℕ
  size = length data_bytes

  unfoldable pub read_uint16 : ℕ → Option ℕ
  read_uint16 at = do
    high ← get_elem? data_bytes at
    low ← get_elem? data_bytes (at + 1)
    some (high * 256 + low)

  -- The position behind the questions, if they are all there.
  unfoldable pub skip_questions : ℕ → ℕ → Option ℕ
  skip_questions zero pos = some pos
  skip_questions (suc questions) pos = elim (read_name data_bytes pos) [
    | found at name ↦ if ltb size (at + 4) then none else skip_questions questions (at + 4)
    | malformed ↦ none
    | unfinished ↦ none
  ]

  abbrev id_or : Bytes → Option Bytes → Bytes
  id_or id none = id
  id_or id (some rest) = rest

  -- The entries of a TXT record from `cursor` to `end_at`, with rounds for them.
  unfoldable pub read_entries : ℕ → ℕ → ℕ → Bytes → Option Bytes
  read_entries zero cursor end_at id = none
  read_entries (suc rounds) cursor end_at id =
      let go = (do
        len ← get_elem? data_bytes cursor
        let rest = (do
          entry ← part data_bytes (cursor + 1) len
          read_entries rounds (cursor + 1 + len) end_at (id_or id (strip (codes "id=") entry))) in
            if ltb end_at (cursor + 1 + len) then some id else rest) in
      if ltb cursor end_at then go else some id

  abbrev State : Type 0
  State = Found × Addresses

  abbrev named : Bytes → MdnsReceiver → MdnsReceiver
  named name r = record r { instance_name = first_label name }

  unfoldable pub read_ptr : ℕ → State → State
  read_ptr start (fs, addrs) = elim (read_name data_bytes start) [
    | found at inst ↦ (change inst (named inst) fs, addrs)
    | malformed ↦ (fs, addrs)
    | unfinished ↦ (fs, addrs)
  ]

  abbrev host_or : Name → Bytes → Bytes
  host_or (found at host) old = host
  host_or malformed old = old
  host_or unfinished old = old

  unfoldable pub read_srv : ℕ → ℕ → Bytes → State → Option State
  read_srv start data_length name (fs, addrs) =
      let read = (do
        port ← read_uint16 (start + 4)
        some (
          change name
              (λ r. record (named name r) {
                port = port;
                host = host_or (read_name data_bytes (start + 6)) r.host;
              })
              fs,
          addrs,
        )) in
      if ltb data_length 7 then some (fs, addrs) else read

  -- The id that `found[name]` has before the record.
  unfoldable pub id_in : Bytes → Found → Bytes
  id_in name [] = []
  id_in name ((k, r) ∷ rs) = let rest = id_in name rs in if equal k name then r.id else rest

  unfoldable pub read_txt : ℕ → ℕ → Bytes → State → Option State
  read_txt start data_length name (fs, addrs) = do
    id ← read_entries (suc data_length) start (start + data_length) (id_in name fs)
    some (change name (λ r. record (named name r) { id = id }) fs, addrs)

  unfoldable pub read_a : ℕ → ℕ → Bytes → State → Option State
  read_a start data_length name (fs, addrs) =
      let read = (do
        a ← get_elem? data_bytes start
        b ← get_elem? data_bytes (start + 1)
        c ← get_elem? data_bytes (start + 2)
        d ← get_elem? data_bytes (start + 3)
        some (fs, put_address name (show_address (a ∷ b ∷ c ∷ d ∷ [])) addrs)) in
      if data_length == 4 then read else some (fs, addrs)

  unfoldable pub read_record : ℕ → ℕ → ℕ → Bytes → State → Option State
  read_record type start data_length name st =
      let ptr = some (read_ptr start st) in
      let srv = read_srv start data_length name st in
      let txt = read_txt start data_length name st in
      let a = read_a start data_length name st in
      if type == type_ptr
      then ptr
      else if type == type_srv
      then srv
      else if type == type_txt
      then txt
      else if type == type_a
      then a
      else some st

  -- The records that are left; an early return leaves the addresses out.
  unfoldable pub read_records : ℕ → ℕ → State → Option Found
  read_records zero pos (fs, addrs) = some (with_addresses addrs fs)
  read_records (suc records) pos st = elim (read_name data_bytes pos) [
    | found at name ↦ if ltb size (at + 10) then some st.0 else (do
      type ← read_uint16 at
      data_length ← read_uint16 (at + 8)
      let next = (do
        st' ← read_record type (at + 10) data_length name st
        read_records records (at + 10 + data_length) st') in
          if ltb size (at + 10 + data_length) then some st.0 else next)
    | malformed ↦ some st.0
    | unfinished ↦ some st.0
  ]

  abbrev after_questions : ℕ → Found → Option ℕ → Option Found
  after_questions records fs none = some fs
  after_questions records fs (some pos) = read_records records pos (fs, [])

  unfoldable pub parse_response : Found → Option Found
  parse_response fs =
      let whole = (do
        questions ← read_uint16 4
        answers ← read_uint16 6
        authorities ← read_uint16 8
        additional ← read_uint16 10
        after_questions (answers + authorities + additional) fs (skip_questions questions 12)) in
      if ltb size 12 then some fs else whole
