-- ===== src/Encode/Encoder/Queue.antt =====
-- A transform that is a queue of pictures, as an example: what Media Foundation documents holds of it.
use opendisplay_win.Common.{
  ◌<◌, true, List, [], ◌∷◌, ◌++◌, Bytes, length, ◌≡◌, ◌⊎◌, inl, inr, refl, arith,
}
use opendisplay_win.Encode.Encoder.{Output, no_output, sample, Mft}
use opendisplay_win.Encode.Encoder.Inside.{IsMft}

module _ (P : Type 0) where
  -- Each output is one IDR slice.
  abbrev next_output : List P → Output P × List P
  next_output [] = (no_output, [])
  next_output (p ∷ ps) = (sample (0 ∷ 0 ∷ 0 ∷ 1 ∷ 0x65 ∷ 7 ∷ []) p, ps)

  abbrev pub queue : Mft P
  queue = record {
    State = List P;
    process_input = λ p ps. (true, ps ++ p ∷ []);
    process_output = next_output;
    force_key_frame = λ ps. ps;
    flush = λ ps. (true, []);
    start_of_stream = λ ps. ps;
    ready = length;
  }

  abbrev pub Held : P → List P → Type 0
  Held q [] = ⊥
  Held q (p ∷ ps) = (q ≡ p) ⊎ Held q ps

  append-Held : (p q : P) (ps : List P) → Held q (ps ++ p ∷ []) → (q ≡ p) ⊎ Held q ps
  append-Held p q [] h = elim h [ inl e ↦ inl e | inr n ↦ absurd n ]
  append-Held p q (x ∷ ps) (inl e) = inr (inl e)
  append-Held p q (x ∷ ps) (inr h) = elim (append-Held p q ps h) [
    | inl e ↦ inl e
    | inr k ↦ inr (inr k)
  ]

  output-Held : (q : P) (ps : List P) → Held q (next_output ps).1 → Held q ps
  output-Held q [] h = h
  output-Held q (p ∷ ps) h = inr h

  shown-Held :
      (ps : List P) (data' : Bytes) (p : P) → (next_output ps).0 ≡ sample data' p → Held p ps
  shown-Held [] d p e = cc
  shown-Held (x ∷ ps) d p e = inl cc

  pub queue-IsMft : IsMft queue
  queue-IsMft = record {
    Inside = Held;
    after_input = append-Held;
    after_output = output-Held;
    shown = shown-Held;
    after_force = λ q m h. h;
    after_flush = λ q m h. absurd h;
    emptied = λ q m e h. h;
    after_start = λ q m h. h;
  }

  pub queue_fewer :
      (m : List P) → ((next_output m).0 ≡ no_output) ⊎ (length (next_output m).1 < length m)
  queue_fewer [] = inl refl
  queue_fewer (p ∷ ps) = inr (omega arith)

  -- A queue of one picture holds that one.
  pub one_held : (p q : P) → queue-IsMft.Inside q (p ∷ []) → q ≡ p
  unfolding queue-IsMft
  one_held p q h = elim h [ inl e ↦ e | inr n ↦ absurd n ]
