-- ===== src/Net/Protocol/Numbers.antt =====
-- The number fields of a message: `,"key":number` one after the other, up to the closing brace.
use opendisplay_win.Common.{
  ℕ, ◌==◌, if◌then◌else◌, true, Option, none, some, List, [], ◌∷◌, ◌++◌, append_assoc, Bytes, All,
  strip, NoneBefore, Absent, equal, equal_iff, NoneBefore-append, NoneBefore-Absent, Bool-cases,
  inl, inr, ◌≡◌, ◌≢◌, refl, sym, ap, subst, ◌∙◌, arith,
}
use opendisplay_win.Net.Protocol.Scan.{quote, quoted, find_number_text, is_number_byte}
use opendisplay_win.Net.Protocol.Fields.{find_number_text_lem}

-- A key, and the first byte of its number with the others.
pub record NumberField : Type 0 where
  pub key : Bytes
  pub first : ℕ
  pub others : Bytes

abbrev pub number_of : NumberField → Bytes
number_of f = f.first ∷ f.others

pub record IsNumberField (f : NumberField) : Type 0 where
  pub key_plain : Absent quote f.key
  pub number : All (λ c. is_number_byte c ≡ true) (number_of f)

abbrev pub numbers : List NumberField → Bytes
numbers [] = b'}' ∷ []
numbers (f ∷ fs) = b',' ∷ (quoted f.key ++ b':' ∷ (number_of f ++ numbers fs))

abbrev pub number_at : Bytes → List NumberField → Option Bytes
number_at k [] = none
number_at k (f ∷ fs) = if equal f.key k then some (number_of f) else number_at k fs

-- Two keys without quotes, each with its closing quote: one does not begin with the other.
strip_other :
    (k j r : Bytes)
    → Absent quote k
    → Absent quote j
    → k ≢ j
    → strip (k ++ quote ∷ []) (j ++ quote ∷ r) ≡ none
unfolding strip
strip_other [] [] r hk hj ne = absurd (ne refl)
strip_other [] (y ∷ j) r hk hj ne = ground (arith, hj.0)
strip_other (x ∷ k) [] r hk hj ne = ground (arith, hk.0)
strip_other (x ∷ k) (y ∷ j) r hk hj ne = elim (Bool-cases (x == y)) [
  | inl e ↦ rw e (strip_other k j r hk.1 hj.1 (λ same. ne (ground arith)))
  | inr e ↦ rw e
]

number_quote_free : (ds : Bytes) → All (λ c. is_number_byte c ≡ true) ds → Absent quote ds
number_quote_free [] h = tt
number_quote_free (d ∷ ds) h = (ground (arith, h.0), number_quote_free ds h.1)

abbrev piece : NumberField → Bytes
piece f = b',' ∷ (quoted f.key ++ b':' ∷ number_of f)

piece-numbers : (f : NumberField) (fs : List NumberField) → piece f ++ numbers fs ≡ numbers (f ∷ fs)
piece-numbers f fs = simp append_assoc

-- A key that can be looked up.
pub record IsKey (k : Bytes) : Type 0 where
  pub no_quote : Absent quote k
  pub no_colon : Absent b':' k

closing_quote : (k r : Bytes) → Absent b':' k → strip (quoted k) (quote ∷ b':' ∷ r) ≡ none
unfolding strip
closing_quote [] r h = refl
closing_quote (x ∷ k) r h = ground (arith, h.0)

-- Another field's text does not hold the key.
piece-NoneBefore :
    (k : Bytes) (f : NumberField) (rest : Bytes)
    → IsKey k
    → IsNumberField f
    → f.key ≢ k
    → NoneBefore (quoted k) (piece f) rest
piece-NoneBefore k f rest hk hf ne = (
  unfold strip in refl,
  (
    start,
    NoneBefore-append (quoted k) (f.key ++ quote ∷ []) (b':' ∷ number_of f) rest
        (NoneBefore-append (quoted k) f.key (quote ∷ []) (b':' ∷ (number_of f ++ rest))
          (NoneBefore-Absent quote (k ++ quote ∷ []) f.key _ hf.key_plain)
          (closing_quote k (number_of f ++ rest) hk.no_colon, tt))
        (NoneBefore-Absent quote (k ++ quote ∷ []) (b':' ∷ number_of f) rest
          (refl, number_quote_free (number_of f) hf.number)),
  ),
)
  where
    start :
        strip (quoted k) (quote ∷ (((f.key ++ quote ∷ []) ++ b':' ∷ number_of f) ++ rest)) ≡ none
    start =
        unfold strip in
        rw append_assoc (
          rw append_assoc (
            strip_other k f.key (b':' ∷ (number_of f ++ rest)) hk.no_quote hf.key_plain
              (λ e. ne (sym e))))

stop_here :
    (pre : Bytes) (f : NumberField) (fs : List NumberField)
    → IsNumberField f
    → NoneBefore (quoted f.key) pre (quoted f.key ++ (b':' ∷ (number_of f ++ numbers fs)))
    → find_number_text (pre ++ (quoted f.key ++ b':' ∷ (number_of f ++ numbers fs))) f.key
      ≡ some (number_of f)
stop_here pre f [] hf h =
    find_number_text_lem pre f.key [] [] f.first f.others b'}' []
      (record { key_first = h; gap_plain = tt; spaces_are = tt }) hf.number refl
stop_here pre f (g ∷ gs) hf h =
    find_number_text_lem pre f.key [] [] f.first f.others b',' _
      (record { key_first = h; gap_plain = tt; spaces_are = tt }) hf.number refl

-- Every number of the message is found under its key: the first field of that key, behind any
-- beginning that does not hold the key in quotes.
pub find_number_text-numbers :
    (fs : List NumberField) (begin k v : Bytes)
    → IsKey k
    → All IsNumberField fs
    → NoneBefore (quoted k) begin (numbers fs)
    → number_at k fs ≡ some v
    → find_number_text (begin ++ numbers fs) k ≡ some v
find_number_text-numbers [] begin k v hk hf h e = cc
find_number_text-numbers (f ∷ fs) begin k v hk hf h e = elim (Bool-cases (equal f.key k)) [
  | inl same ↦
      let found = rw same at e in
      let key_is = (equal_iff f.key k).0 same in
      let before =
        NoneBefore-append (quoted f.key) begin (b',' ∷ [])
          (quoted f.key ++ (b':' ∷ (number_of f ++ numbers fs)))
          (subst (λ j. NoneBefore (quoted j) begin (numbers (f ∷ fs))) (sym key_is) h)
          (unfold strip in refl, tt) in
      rw (← key_is) (
        ap (λ t. find_number_text t f.key) (sym (append_assoc begin (b',' ∷ []) _))
        ∙ stop_here (begin ++ b',' ∷ []) f fs hf.0 before
        ∙ found)
  | inr other ↦
      let found = rw other at e in
      subst (λ t. find_number_text t k ≡ some v)
        (append_assoc begin (piece f) (numbers fs) ∙ ap (◌++◌ begin) (piece-numbers f fs))
        (find_number_text-numbers fs (begin ++ piece f) k v hk hf.1
          (NoneBefore-append (quoted k) begin (piece f) (numbers fs) (rw (piece-numbers f fs) h)
            (piece-NoneBefore k f (numbers fs) hk hf.0 (λ s. cc ((equal_iff f.key k).1 s))))
          found)
]
