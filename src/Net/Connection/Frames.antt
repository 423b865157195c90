-- ===== src/Net/Connection/Frames.antt =====
-- What one side frames, the other side reads.
use opendisplay_win.Common.{
  ℕ, zero, suc, ◌^◌, ◌≤◌, ◌<◌, ltb, ◌==◌, Bool, true, false, Option, none, some, List, [], ◌∷◌,
  ◌++◌, append-nil, append_assoc, map, Bytes, length, All, ◌≡◌, refl, sym, ap, subst, ◌∙◌, arith,
}
use mathlib.Core.Path.{ap₂}
use opendisplay_win.Net.Socket.{Socket, IsStream, read_loop_front, write_loop_lem, first_is}
use opendisplay_win.Net.Connection.{
  max_inbound_frame, length_bytes, length_of, Connection, read_exact, write_exact, read_payload,
  read_after_length, read_frame, send_after_length, send_frame, close,
}

-- A frame on the wire.
unfoldable pub framed : Bytes → Bytes
framed payload = length_bytes (length payload) ++ payload

length_of-length_bytes : (n : ℕ) → n < 2 ^ 32 → length_of (length_bytes n) ≡ n
unfolding length_of length_bytes
length_of-length_bytes n h = omega arith

abbrev pub wire : List Bytes → Bytes
wire [] = []
wire (p ∷ ps) = framed p ++ wire ps

module _ (S : Socket) where
  -- The frames of a session, sent one after the other, and read one after the other.
  pub send_frames : Connection S → List Bytes → Connection S
  send_frames c [] = c
  send_frames c (p ∷ ps) = send_frames (send_frame S c p).1 ps

  pub read_frames : ℕ → Connection S → List (Option Bytes)
  read_frames zero c = []
  read_frames (suc n) c = (read_frame S c).0 ∷ read_frames n (read_frame S c).1

module _ (S : Socket) (L : IsStream S) where
  read_exact_lem :
      (x rest : Bytes) (s : S.State)
      → L.pending s ≡ x ++ rest
      → ((read_exact S (length x) s).0 ≡ some x) × (L.pending (read_exact S (length x) s).1 ≡ rest)
  unfolding read_exact
  read_exact_lem x rest s e = read_loop_front S L x rest s e

  write_exact_lem :
      (x : Bytes) (s : S.State)
      → ((write_exact S x s).0 ≡ true) × (L.sent (write_exact S x s).1 ≡ L.sent s ++ x)
  unfolding write_exact
  write_exact_lem x s = write_loop_lem S L (length x) x s (omega arith)

  -- The connection is open, and these bytes have gone out over it, or are still to be read from it.
  abbrev pub HasSent : Bytes → Connection S → Type 0
  HasSent b c = elim c.socket [ none ↦ ⊥ | some s ↦ L.sent s ≡ b ]

  abbrev pub HasPending : Bytes → Connection S → Type 0
  HasPending b c = elim c.socket [ none ↦ ⊥ | some s ↦ L.pending s ≡ b ]

  send_after_length_lem :
      (payload : Bytes) (s : S.State)
      → ((send_after_length S payload (true, s)).0 ≡ true)
        × (L.sent (send_after_length S payload (true, s)).1 ≡ L.sent s ++ payload)
  unfolding send_after_length
  send_after_length_lem [] s = (refl, sym (append-nil (L.sent s)))
  send_after_length_lem (x ∷ xs) s =
      let more : ((length (x ∷ xs) == 0) ≡ false) = ground arith in
      rw more (write_exact_lem (x ∷ xs) s)

  -- SendFrame on an open connection succeeds, and puts the length and the payload on the wire.
  pub send_frame_lem :
      (s : S.State) (payload : Bytes)
      → ((send_frame S (record { socket = some s; has_mutex = true }) payload).0 ≡ true)
        × HasSent
            (L.sent s ++ framed payload)
            (send_frame S (record { socket = some s; has_mutex = true }) payload).1
  unfolding send_frame framed
  send_frame_lem s payload =
      let h = write_exact_lem (length_bytes (length payload)) s in
      let s' = (write_exact S (length_bytes (length payload)) s).1 in
      let p = send_after_length_lem payload s' in
      rw (first_is (write_exact S (length_bytes (length payload)) s) true h.0) (
        p.0,
        p.1
            ∙ ap (λ k. k ++ payload) h.1
            ∙ append_assoc (L.sent s) (length_bytes (length payload)) payload,
      )

  read_payload_lem :
      (payload rest : Bytes) (s : S.State)
      → length payload ≤ max_inbound_frame
      → L.pending s ≡ payload ++ rest
      → ((read_payload S (length payload) s).0 ≡ some payload)
        × (L.pending (read_payload S (length payload) s).1 ≡ rest)
  unfolding read_payload
  read_payload_lem [] rest s h e = (refl, e)
  read_payload_lem (x ∷ xs) rest s h e =
      let fits : (ltb max_inbound_frame (length (x ∷ xs)) ≡ false) = ground arith in
      let more : ((length (x ∷ xs) == 0) ≡ false) = ground arith in
      rw (fits, more) (read_exact_lem (x ∷ xs) rest s e)

  read_frame_on_lem :
      (s : S.State) (payload rest : Bytes)
      → length payload ≤ max_inbound_frame
      → L.pending s ≡ framed payload ++ rest
      → ((read_after_length S (read_exact S 4 s)).0 ≡ some payload)
        × (L.pending (read_after_length S (read_exact S 4 s)).1 ≡ rest)
  unfolding framed read_after_length
  read_frame_on_lem s payload rest h e =
      let head = length_bytes (length payload) in
      let four : (length head ≡ 4) = unfold length_bytes in refl in
      let r = read_exact_lem head (payload ++ rest) s (e ∙ append_assoc head payload rest) in
      let r4 = rw four at r in
      rw
        (
          first_is (read_exact S 4 s) (some head) r4.0,
          length_of-length_bytes (length payload) (omega arith),
        )
        (read_payload_lem payload rest (read_exact S 4 s).1 h r4.1)

  -- ReadFrame returns the payload of the next frame, up to 1 MiB and the empty one included, and
  -- leaves the connection open at what follows it.
  pub read_frame_lem :
      (s : S.State) (m : Bool) (payload rest : Bytes)
      → length payload ≤ max_inbound_frame
      → L.pending s ≡ framed payload ++ rest
      → ((read_frame S (record { socket = some s; has_mutex = m })).0 ≡ some payload)
        × HasPending rest (read_frame S (record { socket = some s; has_mutex = m })).1
  unfolding read_frame
  read_frame_lem s m payload rest h e = read_frame_on_lem s payload rest h e

  -- A length above 1 MiB is refused with nothing of the payload read.
  pub read_frame_oversized :
      (s : S.State) (m : Bool) (payload rest : Bytes)
      → max_inbound_frame < length payload
      → length payload < 2 ^ 32
      → L.pending s ≡ framed payload ++ rest
      → ((read_frame S (record { socket = some s; has_mutex = m })).0 ≡ none)
        × HasPending (payload ++ rest) (read_frame S (record { socket = some s; has_mutex = m })).1
  unfolding read_frame framed read_after_length read_payload
  read_frame_oversized s m payload rest h k e =
      let head = length_bytes (length payload) in
      let four : (length head ≡ 4) = unfold length_bytes in refl in
      let r = read_exact_lem head (payload ++ rest) s (e ∙ append_assoc head payload rest) in
      let r4 = rw four at r in
      let refused : (ltb max_inbound_frame (length payload) ≡ true) = ground arith in
      rw
        (
          first_is (read_exact S 4 s) (some head) r4.0,
          length_of-length_bytes (length payload) k,
          refused,
        )
        (refl, r4.1)

  pub send_frames_lem :
      (ps : List Bytes) (s : S.State)
      → HasSent
          (L.sent s ++ wire ps)
          (send_frames S (record { socket = some s; has_mutex = true }) ps)
  unfolding send_frames send_frame
  send_frames_lem [] s = sym (append-nil (L.sent s))
  send_frames_lem (p ∷ ps) s =
      let h = send_frame_lem s p in
      let s' = (send_after_length S p (write_exact S (length_bytes (length p)) s)).1 in
      subst (λ b. HasSent b (send_frames S (record { socket = some s'; has_mutex = true }) ps))
        (ap (λ k. k ++ wire ps) h.1 ∙ append_assoc (L.sent s) (framed p) (wire ps))
        (send_frames_lem ps s')

  pub read_frames_lem :
      (ps : List Bytes) (s : S.State) (m : Bool) (rest : Bytes)
      → All (λ p. length p ≤ max_inbound_frame) ps
      → L.pending s ≡ wire ps ++ rest
      → read_frames S (length ps) (record { socket = some s; has_mutex = m }) ≡ map some ps
  unfolding read_frames read_frame
  read_frames_lem [] s m rest h e = refl
  read_frames_lem (p ∷ ps) s m rest h e =
      let r =
        read_frame_lem s m p (wire ps ++ rest) h.0 (e ∙ append_assoc (framed p) (wire ps) rest) in
      let s' = (read_after_length S (read_exact S 4 s)).1 in
      ap₂ ◌∷◌ r.0 (read_frames_lem ps s' m rest h.1 r.1)

-- A session: `S` is the sender's socket and `R` the receiver's.
module _ (S R : Socket) (L : IsStream S) (M : IsStream R) where
  -- Whatever payloads of at most 1 MiB one side sends with SendFrame, the other side's ReadFrame
  -- returns them, whole and in order, however the two sockets cut up the bytes between them.
  pub read_frames-send_frames :
      (ps : List Bytes) (s : S.State) (r : R.State) (m : Bool) (out rest : Bytes)
      → All (λ p. length p ≤ max_inbound_frame) ps
      → L.sent s ≡ []
      → HasSent S L out (send_frames S (record { socket = some s; has_mutex = true }) ps)
      → M.pending r ≡ out ++ rest
      → read_frames R (length ps) (record { socket = some r; has_mutex = m }) ≡ map some ps
  read_frames-send_frames ps s r m out rest h fresh sent arrives =
      read_frames_lem R M ps r m rest h (
        arrives
        ∙ ap (λ k. k ++ rest)
            (HasSent-injective (send_frames S (record { socket = some s; has_mutex = true }) ps)
              sent (rw fresh at (send_frames_lem S L ps s))))
    where
      HasSent-injective :
          (c : Connection S) {a b : Bytes} → HasSent S L a c → HasSent S L b c → a ≡ b
      HasSent-injective c {a} {b} = go c.socket c.has_mutex
        where
          go :
              (o : Option S.State) (k : Bool)
              → HasSent S L a (record { socket = o; has_mutex = k })
              → HasSent S L b (record { socket = o; has_mutex = k })
              → a ≡ b
          go none k x y = absurd x
          go (some t) k x y = sym x ∙ y

-- On a closed connection nothing is read, sent or changed.
pub closed_lem :
    (S : Socket) (c : Connection S) (payload : Bytes)
    → ((read_frame S (close S c)).0 ≡ none)
      × ((send_frame S (close S c) payload).0 ≡ false)
      × ((send_frame S (close S c) payload).1 ≡ close S c)
unfolding read_frame send_frame close
closed_lem S c payload = (refl, refl, refl)
