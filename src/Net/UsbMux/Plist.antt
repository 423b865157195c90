-- ===== src/Net/UsbMux/Plist.antt =====
-- src/net/UsbMux.cpp, SendPlist and RecvPlist: a message that is sent is received.
use opendisplay_win.Common.{
  ℕ, ◌+◌, ◌^◌, ◌≤◌, ◌<◌, ltb, ◌||◌, true, false, some, [], ◌∷◌, ◌++◌, append_assoc, Bytes, length,
  ◌≡◌, refl, ap, ◌∙◌, arith, ◌-◌,
}
use opendisplay_win.Net.Socket.{Socket, IsStream, read_loop_front, write_loop_lem, first_is}
use opendisplay_win.Net.UsbMux.{
  word_bytes, word_of, mux_header, send_all, recv_all, send_plist, recv_body, recv_plist,
}

-- A message on the wire.
unfoldable pub message : ℕ → Bytes → Bytes
message tag xml = mux_header (length xml) tag ++ xml

word_of-mux_header : (size tag : ℕ) → size + 16 < 2 ^ 32 → word_of (mux_header size tag) ≡ size + 16
unfolding word_of mux_header word_bytes
word_of-mux_header size tag h = omega arith

length-mux_header : (size tag : ℕ) → length (mux_header size tag) ≡ 16
unfolding mux_header word_bytes
length-mux_header size tag = refl

abbrev pub max_xml : ℕ
max_xml = 999_984

module _ (S : Socket) (L : IsStream S) where
  send_all_lem :
      (x : Bytes) (s : S.State)
      → ((send_all S x s).0 ≡ true) × (L.sent (send_all S x s).1 ≡ L.sent s ++ x)
  send_all_lem x s = write_loop_lem S L (length x) x s (omega arith)

  pub send_plist_lem :
      (tag : ℕ) (xml : Bytes) (s : S.State)
      → ((send_plist S tag xml s).0 ≡ true)
        × (L.sent (send_plist S tag xml s).1 ≡ L.sent s ++ message tag xml)
  unfolding send_plist message
  send_plist_lem tag xml s =
      let header = mux_header (length xml) tag in
      let h = send_all_lem header s in
      let b = send_all_lem xml (send_all S header s).1 in
      rw (first_is (send_all S header s) true h.0)
        (b.0, b.1 ∙ ap (λ k. k ++ xml) h.1 ∙ append_assoc (L.sent s) header xml)

  recv_body_lem :
      (xml rest : Bytes) (s : S.State)
      → length xml ≤ max_xml
      → L.pending s ≡ xml ++ rest
      → ((recv_body S (length xml + 16) s).0 ≡ some xml)
        × (L.pending (recv_body S (length xml + 16) s).1 ≡ rest)
  recv_body_lem [] rest s h e = (refl, e)
  recv_body_lem (x ∷ xs) rest s h e =
      let size = length (x ∷ xs) + 16 in
      let fits : ((ltb size 16 || ltb 1_000_000 size) ≡ false) = ground arith in
      let more : (ltb 16 size ≡ true) = ground arith in
      let n : (size - 16 ≡ length (x ∷ xs)) = omega arith in
      rw (fits, more, n) (read_loop_front S L (x ∷ xs) rest s e)

  -- RecvPlist returns the text of the next message, which is no longer than 1,000,000 bytes with
  -- its header, and leaves what follows it.
  pub recv_plist_lem :
      (tag : ℕ) (xml rest : Bytes) (s : S.State)
      → length xml ≤ max_xml
      → L.pending s ≡ message tag xml ++ rest
      → ((recv_plist S s).0 ≡ some xml) × (L.pending (recv_plist S s).1 ≡ rest)
  unfolding recv_plist message
  recv_plist_lem tag xml rest s h e =
      let header = mux_header (length xml) tag in
      let r = read_loop_front S L header (xml ++ rest) s (e ∙ append_assoc header xml rest) in
      let r16 = rw (length-mux_header (length xml) tag) at r in
      rw
        (
          first_is (recv_all S 16 s) (some header) r16.0,
          word_of-mux_header (length xml) tag (omega arith),
        )
        (recv_body_lem xml rest (recv_all S 16 s).1 h r16.1)
