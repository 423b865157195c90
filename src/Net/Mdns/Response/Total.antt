-- ===== src/Net/Mdns/Response/Total.antt =====
-- src/net/Mdns.cpp, ParseResponse: no packet makes it read past the end.
use opendisplay_win.Common.{
  ℕ, zero, suc, ◌+◌, ◌*◌, ◌<◌, ◌≤◌, ltb, ◌==◌, if◌then◌else◌, Bool, true, false, Option, none, some,
  ◌>>=◌, [], ◌∷◌, Bytes, codes, length, get_elem?, strip, ◌≡◌, refl, arith,
}
use opendisplay_win.Net.Mdns.{type_ptr, Name, malformed, found, unfinished, read_name, part}
use opendisplay_win.Net.Mdns.Response.{
  Found, State, type_a, type_txt, type_srv, id_or, read_uint16, skip_questions, read_entries,
  read_ptr, read_srv, read_txt, read_a, id_in, read_record, read_records, after_questions,
  parse_response,
}

-- There is a value.
abbrev pub IsSome {ℓ} : {A : Type ℓ} → Option A → Type ℓ
IsSome {A = A} o = (a : A) × (o ≡ some a)

IsSome-bind {ℓ κ} :
    {A : Type ℓ} {B : Type κ} (o : Option A) (f : A → Option B)
    → IsSome o
    → ((a : A) → IsSome (f a))
    → IsSome (o >>= f)
IsSome-bind none f (a, e) h = cc
IsSome-bind (some a) f e h = h a

IsSome-if {ℓ} :
    {A : Type ℓ} (b : Bool) (x y : Option A)
    → (b ≡ true → IsSome x)
    → (b ≡ false → IsSome y)
    → IsSome (if b then x else y)
IsSome-if true x y h k = h refl
IsSome-if false x y h k = k refl

get_elem?-IsSome : (xs : Bytes) (i : ℕ) → i < length xs → IsSome (get_elem? xs i)
get_elem?-IsSome [] i h = absurd (omega arith)
get_elem?-IsSome (x ∷ xs) zero h = (x, refl)
get_elem?-IsSome (x ∷ xs) (suc i) h = get_elem?-IsSome xs i (omega arith)

part-IsSome : (xs : Bytes) (i n : ℕ) → i + n ≤ length xs → IsSome (part xs i n)
part-IsSome xs i n h =
    IsSome-if (ltb (length xs) (i + n)) none (some _) (λ e. absurd (ground (arith, e, h)))
      (λ e. (_, refl))

module _ (show_address : Bytes → Bytes) (packet : Bytes) where
  byte-IsSome : (i : ℕ) → i < length packet → IsSome (get_elem? packet i)
  byte-IsSome i h = get_elem?-IsSome packet i h

  read_uint16-IsSome : (i : ℕ) → i + 1 < length packet → IsSome (read_uint16 show_address packet i)
  unfolding read_uint16
  read_uint16-IsSome i h = IsSome-bind (get_elem? packet i) _ (byte-IsSome i (omega arith)) (λ high.
      IsSome-bind (get_elem? packet (i + 1)) (λ low. some (high * 256 + low))
        (byte-IsSome (i + 1) h) (λ low. (high * 256 + low, refl)))

  read_entries-IsSome :
      (rounds cursor end_at : ℕ) (id : Bytes)
      → end_at ≤ length packet
      → cursor ≤ end_at
      → end_at < cursor + rounds
      → IsSome (read_entries show_address packet rounds cursor end_at id)
  unfolding read_entries
  read_entries-IsSome zero cursor end_at id h l k = absurd (omega arith)
  read_entries-IsSome (suc rounds) cursor end_at id h l k =
      let next = λ (text : Bytes). id_or show_address packet id (strip (codes "id=") text) in
      let text_on = λ (len : ℕ) (text : Bytes).
        read_entries show_address packet rounds (cursor + 1 + len) end_at (next text) in
      let later = λ (len : ℕ). part packet (cursor + 1) len >>= text_on len in
      let entry = λ (len : ℕ). if ltb end_at (cursor + 1 + len) then some id else later len in
      IsSome-if (ltb cursor end_at) (get_elem? packet cursor >>= entry) (some id)
        (λ e.
          IsSome-bind (get_elem? packet cursor) entry (byte-IsSome cursor (ground (arith, e, h)))
            (λ len.
              IsSome-if (ltb end_at (cursor + 1 + len)) (some id) (later len) (λ past. (id, refl))
                (λ inside.
                  IsSome-bind (part packet (cursor + 1) len) (text_on len)
                    (part-IsSome packet (cursor + 1) len (ground (arith, inside, h)))
                    (λ text.
                      read_entries-IsSome rounds (cursor + 1 + len) end_at (next text) h
                        (ground (arith, inside)) (omega arith)))))
        (λ e. (id, refl))

  -- The data of a record are in the packet.
  abbrev Fits : ℕ → ℕ → Type 0
  Fits start data_length = start + data_length ≤ length packet

  read_srv-IsSome :
      (start l : ℕ) (name : Bytes) (st : State show_address packet)
      → Fits start l
      → IsSome (read_srv show_address packet start l name st)
  unfolding read_srv
  read_srv-IsSome start l name (fs, addrs) h =
      IsSome-if (ltb l 7) _ _ (λ e. ((fs, addrs), refl))
        (λ e.
          IsSome-bind (read_uint16 show_address packet (start + 4)) _
            (read_uint16-IsSome (start + 4) (ground (arith, e, h))) (λ port. (_, refl)))

  read_txt-IsSome :
      (start l : ℕ) (name : Bytes) (st : State show_address packet)
      → Fits start l
      → IsSome (read_txt show_address packet start l name st)
  unfolding read_txt
  read_txt-IsSome start l name (fs, addrs) h =
      IsSome-bind
        (read_entries show_address packet (suc l) start (start + l)
          (id_in show_address packet name fs))
        _
        (read_entries-IsSome (suc l) start (start + l) (id_in show_address packet name fs) h
          (omega arith) (omega arith))
        (λ id. (_, refl))

  read_a-IsSome :
      (start l : ℕ) (name : Bytes) (st : State show_address packet)
      → Fits start l
      → IsSome (read_a show_address packet start l name st)
  unfolding read_a
  read_a-IsSome start l name (fs, addrs) h =
      IsSome-if (l == 4) _ _
        (λ e.
          let four : (l ≡ 4) = ground (arith, e) in
          IsSome-bind (get_elem? packet start) _ (byte-IsSome start (omega arith)) (λ a.
            IsSome-bind (get_elem? packet (start + 1)) _ (byte-IsSome (start + 1) (omega arith))
              (λ b.
                IsSome-bind (get_elem? packet (start + 2)) _ (byte-IsSome (start + 2) (omega arith))
                  (λ c.
                    IsSome-bind (get_elem? packet (start + 3)) _
                      (byte-IsSome (start + 3) (omega arith)) (λ d. (_, refl))))))
        (λ e. ((fs, addrs), refl))

  read_record-IsSome :
      (type start l : ℕ) (name : Bytes) (st : State show_address packet)
      → Fits start l
      → IsSome (read_record show_address packet type start l name st)
  unfolding read_record
  read_record-IsSome type start l name st h =
      IsSome-if (type == type_ptr) _ _ (λ e. (read_ptr show_address packet start st, refl))
        (λ e.
          IsSome-if (type == type_srv) _ _ (λ e. read_srv-IsSome start l name st h)
            (λ e.
              IsSome-if (type == type_txt) _ _ (λ e. read_txt-IsSome start l name st h)
                (λ e.
                  IsSome-if (type == type_a) _ _ (λ e. read_a-IsSome start l name st h)
                    (λ e. (st, refl)))))

  -- One record, whose name ends at `at`, and the records behind it.
  abbrev record_at : ℕ → ℕ → Bytes → State show_address packet → Option Found
  record_at records at name st = do
    type ← read_uint16 show_address packet at
    data_length ← read_uint16 show_address packet (at + 8)
    let next = (do
      st' ← read_record show_address packet type (at + 10) data_length name st
      read_records show_address packet records (at + 10 + data_length) st') in
        if ltb (length packet) (at + 10 + data_length) then some st.0 else next

  read_records-IsSome :
      (records pos : ℕ) (st : State show_address packet)
      → IsSome (read_records show_address packet records pos st)
  unfolding read_records
  read_records-IsSome zero pos (fs, addrs) = (_, refl)
  read_records-IsSome (suc records) pos st =
      by_name (read_name packet pos) (λ p s. read_records-IsSome records p s)
    where
      by_name :
          (n : Name)
          → ((p : ℕ) (s : State show_address packet)
              → IsSome (read_records show_address packet records p s))
          → IsSome (elim n [
            | found at name ↦
                if ltb (length packet) (at + 10) then some st.0 else record_at records at name st
            | malformed ↦ some st.0
            | unfinished ↦ some st.0
          ])
      by_name malformed ih = (st.0, refl)
      by_name unfinished ih = (st.0, refl)
      by_name (found at name) ih =
          IsSome-if (ltb (length packet) (at + 10)) (some st.0) (record_at records at name st)
            (λ e. (st.0, refl))
            (λ e.
              IsSome-bind (read_uint16 show_address packet at) _
                (read_uint16-IsSome at (ground (arith, e)))
                (λ type.
                  IsSome-bind (read_uint16 show_address packet (at + 8)) _
                    (read_uint16-IsSome (at + 8) (ground (arith, e)))
                    (λ l.
                      IsSome-if (ltb (length packet) (at + 10 + l)) (some st.0) _
                        (λ past. (st.0, refl))
                        (λ inside.
                          IsSome-bind (read_record show_address packet type (at + 10) l name st) _
                            (read_record-IsSome type (at + 10) l name st (ground (arith, inside)))
                            (λ st'. ih (at + 10 + l) st')))))

pub parse_response-IsSome :
    (show_address : Bytes → Bytes) (packet : Bytes) (fs : Found)
    → IsSome (parse_response show_address packet fs)
unfolding parse_response
parse_response-IsSome show_address packet fs =
    IsSome-if (ltb (length packet) 12) (some fs) _ (λ e. (fs, refl))
      (λ e.
        IsSome-bind (read_uint16 show_address packet 4) _
          (read_uint16-IsSome show_address packet 4 (ground (arith, e)))
          (λ questions.
            IsSome-bind (read_uint16 show_address packet 6) _
              (read_uint16-IsSome show_address packet 6 (ground (arith, e)))
              (λ answers.
                IsSome-bind (read_uint16 show_address packet 8) _
                  (read_uint16-IsSome show_address packet 8 (ground (arith, e)))
                  (λ authorities.
                    IsSome-bind (read_uint16 show_address packet 10) _
                      (read_uint16-IsSome show_address packet 10 (ground (arith, e)))
                      (λ additional.
                        behind (answers + authorities + additional)
                          (skip_questions show_address packet questions 12))))))
  where
    behind :
        (records : ℕ) (pos : Option ℕ) → IsSome (after_questions show_address packet records fs pos)
    behind records none = (fs, refl)
    behind records (some pos) = read_records-IsSome show_address packet records pos (fs, [])
