-- ===== src/Net/Socket.antt =====
-- The blocking stream socket that src/net/Connection.cpp and src/net/UsbMux.cpp are written against,
-- as operations on a state, and their two loops over `recv` and `send`.
pub mod Slow
use opendisplay_win.Common.{
  ℕ, zero, suc, ◌+◌, ◌-◌, ◌≤◌, ◌<◌, ◌==◌, if◌then◌else◌, Bool, true, false, Option, none, some, [],
  ◌∷◌, ◌++◌, append-nil, append_assoc, Bytes, length, length-append, take, drop, take-append-drop,
  take-append, drop-append, length-drop, ◌≡◌, refl, sym, ap, ◌∙◌, arith, Bool-cases, inl, inr,
}

-- `recv` hands over at most as many bytes as are asked for, none when the peer has closed or on an
-- error; `send` answers how many bytes it took, 0 on an error.
pub record Socket : Type 1 where
  pub State : Type 0
  pub recv : ℕ → State → Bytes × State
  pub send : Bytes → State → ℕ × State

-- What a stream socket promises while the link stands: `pending` are the bytes that the peer has
-- sent or will send before it closes, `sent` those handed to the link so far. How many bytes one
-- call moves is left open.
pub record IsStream (S : Socket) : Type 0 where
  pub pending : S.State → Bytes
  pub sent : S.State → Bytes
  pub recv_bound : (n : ℕ) (s : S.State) → length (S.recv n s).0 ≤ n
  pub recv_order : (n : ℕ) (s : S.State) → (S.recv n s).0 ++ pending (S.recv n s).1 ≡ pending s
  pub recv_more : (n : ℕ) (s : S.State) → 0 < n → 0 < length (pending s) → 0 < length (S.recv n s).0
  pub send_bound : (b : Bytes) (s : S.State) → (S.send b s).0 ≤ length b
  pub send_order : (b : Bytes) (s : S.State) → sent (S.send b s).1 ≡ sent s ++ take (S.send b s).0 b
  pub send_more : (b : Bytes) (s : S.State) → 0 < length b → 0 < (S.send b s).0

module _ (S : Socket) where
  -- `while (total < size)`: `need` is what is missing. Each round that goes on has read a byte at
  -- least, so `need` rounds are enough.
  pub read_loop : ℕ → ℕ → Bytes → S.State → Option Bytes × S.State
  read_loop fuel zero got s = (some got, s)
  read_loop zero (suc need) got s = (none, s)
  read_loop (suc fuel) (suc need) got s =
      let (chunk, s') = S.recv (suc need) s in
      let more = read_loop fuel (suc need - length chunk) (got ++ chunk) s' in
      if length chunk == 0 then (none, s') else more

  unfoldable pub write_loop : ℕ → Bytes → S.State → Bool × S.State
  write_loop fuel [] s = (true, s)
  write_loop zero (b ∷ bs) s = (false, s)
  write_loop (suc fuel) (b ∷ bs) s =
      let (n, s') = S.send (b ∷ bs) s in
      let more = write_loop fuel (drop n (b ∷ bs)) s' in if n == 0 then (false, s') else more

append_take : (x y : Bytes) (n : ℕ) → length x ≤ n → x ++ take (n - length x) y ≡ take n (x ++ y)
append_take [] y n h = ap (λ k. take k y) (omega arith)
append_take (a ∷ x) y zero h = absurd (omega arith)
append_take (a ∷ x) y (suc n) h =
    ap (◌∷◌ a) (ap (λ k. x ++ take k y) (omega arith) ∙ append_take x y n (omega arith))

drop_past : (x y : Bytes) (n : ℕ) → length x ≤ n → drop (n - length x) y ≡ drop n (x ++ y)
drop_past [] y n h = ap (λ k. drop k y) (omega arith)
drop_past (a ∷ x) y zero h = absurd (omega arith)
drop_past (a ∷ x) y (suc n) h = ap (λ k. drop k y) (omega arith) ∙ drop_past x y n (omega arith)

module _ (S : Socket) (L : IsStream S) where
  -- The bytes of one `recv` and those still to come, by their lengths.
  recv_length :
      (n : ℕ) (s : S.State)
      → length (S.recv n s).0 + length (L.pending (S.recv n s).1) ≡ length (L.pending s)
  recv_length n s = sym (length-append (S.recv n s).0 _) ∙ ap length (L.recv_order n s)

  -- With enough bytes under way the loop returns exactly the next `need` of them, however `recv`
  -- cuts them up, and leaves the rest.
  pub read_loop_lem :
      (fuel need : ℕ) (got : Bytes) (s : S.State)
      → need ≤ fuel
      → need ≤ length (L.pending s)
      → ((read_loop S fuel need got s).0 ≡ some (got ++ take need (L.pending s)))
        × (L.pending (read_loop S fuel need got s).1 ≡ drop need (L.pending s))
  unfolding read_loop
  read_loop_lem fuel zero got s hf hp = (ap some (sym (append-nil got)), refl)
  read_loop_lem zero (suc need) got s hf hp = absurd (omega arith)
  read_loop_lem (suc fuel) (suc need) got s hf hp =
      let n = suc need in
      let (chunk, s') = S.recv n s in
      let bound = L.recv_bound n s in
      let more = L.recv_more n s (omega arith) (omega arith) in
      let total = recv_length n s in
      let nonzero : ((length chunk == 0) ≡ false) = ground arith in
      let ih =
        read_loop_lem fuel (n - length chunk) (got ++ chunk) s' (omega arith) (omega arith) in
      rw nonzero (
        ih.0
            ∙ ap some (
                append_assoc got chunk _
                ∙ ap (◌++◌ got)
                    (append_take chunk (L.pending s') n bound ∙ ap (take n) (L.recv_order n s))),
        ih.1 ∙ drop_past chunk (L.pending s') n bound ∙ ap (drop n) (L.recv_order n s),
      )

  -- If the peer closes before that, the loop reports failure.
  pub read_loop_short :
      (fuel need : ℕ) (got : Bytes) (s : S.State)
      → length (L.pending s) < need
      → (read_loop S fuel need got s).0 ≡ none
  unfolding read_loop
  read_loop_short fuel zero got s hp = absurd (omega arith)
  read_loop_short zero (suc need) got s hp = refl
  read_loop_short (suc fuel) (suc need) got s hp =
      let (chunk, s') = S.recv (suc need) s in
      elim (Bool-cases (length chunk == 0)) [
        | inl e ↦ rw e
        | inr e ↦ rw e (
            read_loop_short fuel (suc need - length chunk) (got ++ chunk) s'
              (omega (arith, recv_length (suc need) s)))
      ]

  -- Everything is sent, in order, however little `send` takes at a time.
  pub write_loop_lem :
      (fuel : ℕ) (b : Bytes) (s : S.State)
      → length b ≤ fuel
      → ((write_loop S fuel b s).0 ≡ true) × (L.sent (write_loop S fuel b s).1 ≡ L.sent s ++ b)
  unfolding write_loop
  write_loop_lem fuel [] s hf = (refl, sym (append-nil (L.sent s)))
  write_loop_lem zero (x ∷ xs) s hf = absurd (omega arith)
  write_loop_lem (suc fuel) (x ∷ xs) s hf =
      let b : Bytes = x ∷ xs in
      let (n, s') = S.send (x ∷ xs) s in
      let more = L.send_more (x ∷ xs) s (omega arith) in
      let nonzero : ((n == 0) ≡ false) = ground arith in
      let ih = write_loop_lem fuel (drop n (x ∷ xs)) s' (omega (arith, length-drop n (x ∷ xs))) in
      rw nonzero (
        ih.0,
        ih.1
            ∙ ap (λ k. k ++ drop n b) (L.send_order (x ∷ xs) s)
            ∙ append_assoc (L.sent s) (take n b) (drop n b)
            ∙ ap (◌++◌ (L.sent s)) (take-append-drop n b),
      )

  -- Bytes that come next are read whole.
  pub read_loop_front :
      (x rest : Bytes) (s : S.State)
      → L.pending s ≡ x ++ rest
      → ((read_loop S (length x) (length x) [] s).0 ≡ some x)
        × (L.pending (read_loop S (length x) (length x) [] s).1 ≡ rest)
  read_loop_front x rest s e =
      let n = length x in
      let enough : (n ≤ length (L.pending s)) = rw e (omega (arith, length-append x rest)) in
      let r = read_loop_lem n n [] s (omega arith) enough in
      (
        r.0 ∙ ap some (ap (take n) e ∙ take-append x rest n refl),
        r.1 ∙ ap (drop n) e ∙ drop-append x rest n refl,
      )

-- A result whose first part is known.
pub first_is {ℓ κ} : {A : Type ℓ} {B : Type κ} (r : A × B) (a : A) → r.0 ≡ a → r ≡ (a, r.1)
first_is r a h = λ i. (h i, r.1)
