-- ===== src/Net/Mdns/RoundTrip.antt =====
-- A name that AppendName wrote is read back.
use Prim.Native.Nat.{bit_and}
use opendisplay_win.Common.{
  ℕ, zero, suc, ◌+◌, ◌%◌, ◌<◌, ltb, ◌==◌, Bool, true, false, not, ◌&&◌, some, List, [], ◌∷◌, ◌++◌,
  Bytes, length, length-append, get_elem?, take, drop, take-append, drop-append, All, Absent,
  append-nil, append_assoc, ◌≡◌, refl, sym, ap, ◌∙◌, arith, Bool-cases, inl, inr,
}
use opendisplay_win.Net.Mdns.{
  append_labels, append_name, with_label, Move, found, stop, go, name_move, walk, read_fuel,
  read_name,
}

-- A label that fits one length byte with its two high bits clear, and has no dot.
pub record IsLabel (label : Bytes) : Type 0 where
  pub some_byte : 0 < length label
  pub short : length label < 64
  pub no_dot : Absent b'.' label

-- The text of a name.
abbrev pub dotted : Bytes → List Bytes → Bytes
dotted label [] = label
dotted label (next ∷ labels) = label ++ b'.' ∷ dotted next labels

abbrev pub wire : List Bytes → Bytes
wire [] = 0 ∷ []
wire (label ∷ labels) = length label ∷ (label ++ wire labels)

append_labels_last :
    (label read : Bytes)
    → Absent b'.' label
    → append_labels read label ≡ length (read ++ label) % 256 ∷ (read ++ label)
unfolding append_labels
append_labels_last [] read h = rw append-nil refl
append_labels_last (c ∷ label) read h =
    rw h.0 (append_labels_last label (read ++ c ∷ []) h.1 ∙ simp append_assoc)

append_labels_more :
    (label read rest : Bytes)
    → Absent b'.' label
    → append_labels read (label ++ b'.' ∷ rest)
      ≡ length (read ++ label) % 256 ∷ (read ++ label ++ append_labels [] rest)
unfolding append_labels
append_labels_more [] read rest h = rw append-nil refl
append_labels_more (c ∷ label) read rest h =
    rw h.0 (append_labels_more label (read ++ c ∷ []) rest h.1 ∙ simp append_assoc)

get_elem?-append :
    (pre : Bytes) (c : ℕ) (rest : Bytes) → get_elem? (pre ++ c ∷ rest) (length pre) ≡ some c
get_elem?-append [] c rest = refl
get_elem?-append (x ∷ pre) c rest = get_elem?-append pre c rest

-- No length below 64 looks like a pointer.
none_below : ℕ → Bool
none_below zero = true
none_below (suc n) = not (bit_and n 0xc0 == 0xc0) && none_below n

none_below_all : (n len : ℕ) → none_below n ≡ true → len < n → (bit_and len 0xc0 == 0xc0) ≡ false
unfolding none_below
none_below_all zero len h k = ground arith
none_below_all (suc n) len h k = elim (Bool-cases (len == n)) [
  | inl e ↦ ground (arith, h)
  | inr e ↦ none_below_all n len (ground arith) (ground arith)
]

-- A name is written label by label.
append_name-wire :
    (first : Bytes) (labels : List Bytes)
    → All IsLabel (first ∷ labels)
    → append_name (dotted first labels) ≡ wire (first ∷ labels)
unfolding append_name
append_name-wire first [] h =
    ap (λ b. b ++ 0 ∷ []) (append_labels_last first [] h.0.no_dot) ∙ ground (arith, h.0.short)
append_name-wire first (next ∷ labels) h =
    let ih = append_name-wire next labels h.1 in
    let small : (length first % 256 ≡ length first) = omega (arith, h.0.short) in
    ap (λ b. b ++ 0 ∷ []) (append_labels_more first [] (dotted next labels) h.0.no_dot)
    ∙ rw small (
        ap (λ b. length first ∷ b)
          (append_assoc first (append_labels [] (dotted next labels)) (0 ∷ [])
            ∙ ap (λ b. first ++ b) ih))

with_labels : Bytes → List Bytes → Bytes
with_labels out [] = out
with_labels out (label ∷ labels) = with_labels (with_label out label) labels

-- The label behind its length byte.
slice_label :
    (pre label rest : Bytes) (c : ℕ)
    → take (length label) (drop (length pre + 1) (pre ++ c ∷ (label ++ rest))) ≡ label
slice_label pre label rest c =
    ap (λ b. take (length label) (drop (length pre + 1) b))
      (sym (append_assoc pre (c ∷ []) (label ++ rest)))
    ∙ ap (take (length label)) (
        drop-append (pre ++ c ∷ []) (label ++ rest) (length pre + 1)
          (omega (arith, length-append pre (c ∷ []))))
    ∙ take-append label rest (length label) refl

-- One label is read.
name_move_label :
    (pre label rest out : Bytes)
    → IsLabel label
    → name_move (pre ++ length label ∷ (label ++ rest)) (some (length label)) (length pre) 0 0 out
      ≡ go (length (pre ++ length label ∷ label)) 0 0 (with_label out label)
unfolding name_move none_below
name_move_label pre label rest out h =
    let z : ((length label == 0) ≡ false) = ground (arith, h.some_byte) in
    let p = none_below_all 64 (length label) refl h.short in
    let l : ltb (length (pre ++ length label ∷ (label ++ rest))) (length pre + 1 + length label)
        ≡ false =
      ground
        (arith, length-append pre (length label ∷ (label ++ rest)), length-append label rest) in
    rw (z, p, l, slice_label pre label rest (length label))
      (ap (λ n. go n 0 0 (with_label out label))
        (omega (arith, length-append pre (length label ∷ label))))

-- The zero byte ends the name.
name_move_end :
    (packet out : Bytes) (cursor : ℕ)
    → name_move packet (some 0) cursor 0 0 out ≡ stop (found (cursor + 1) out)
unfolding name_move
name_move_end packet out cursor = refl

walk_move :
    (fuel : ℕ) (packet : Bytes) (cursor : ℕ) (out : Bytes) (m : Move)
    → name_move packet (get_elem? packet cursor) cursor 0 0 out ≡ m
    → walk (suc fuel) packet cursor 0 0 out
      ≡ elim m [ stop n ↦ n | go c a h o ↦ walk fuel packet c a h o ]
unfolding walk
walk_move fuel packet cursor out m e =
    ap (λ k. elim k [ stop n ↦ n | go c a h o ↦ walk fuel packet c a h o ]) e

walk-wire :
    (labels : List Bytes) (fuel : ℕ) (pre rest out : Bytes)
    → All IsLabel labels
    → length labels < fuel
    → walk fuel (pre ++ (wire labels ++ rest)) (length pre) 0 0 out
      ≡ found (length pre + length (wire labels)) (with_labels out labels)
unfolding with_labels
walk-wire labels zero pre rest out h k = absurd (omega arith)
walk-wire [] (suc fuel) pre rest out h k = walk_move fuel (pre ++ 0 ∷ rest) (length pre) out _ (
    ap (λ o. name_move (pre ++ 0 ∷ rest) o (length pre) 0 0 out) (get_elem?-append pre 0 rest)
    ∙ name_move_end (pre ++ 0 ∷ rest) out (length pre))
walk-wire (label ∷ labels) (suc fuel) pre rest out h k =
    let here = pre ++ length label ∷ label in
    let more = wire labels ++ rest in
    let packet = pre ++ length label ∷ (label ++ more) in
    let ih = walk-wire labels fuel here rest (with_label out label) h.1 (omega arith) in
    ap (λ b. walk (suc fuel) (pre ++ length label ∷ b) (length pre) 0 0 out)
      (append_assoc label (wire labels) rest)
    ∙ walk_move fuel packet (length pre) out _ (
        ap (λ o. name_move packet o (length pre) 0 0 out)
          (get_elem?-append pre (length label) (label ++ more))
        ∙ name_move_label pre label more out h.0)
    ∙ ap (λ b. walk fuel b (length here) 0 0 (with_label out label))
        (sym (append_assoc pre (length label ∷ label) more))
    ∙ ih
    ∙ ap (λ n. found n (with_labels (with_label out label) labels))
        (omega (arith, length-append pre (length label ∷ label), length-append label (wire labels)))

dotted-append :
    (a label : Bytes) (labels : List Bytes)
    → dotted (a ++ b'.' ∷ label) labels ≡ a ++ b'.' ∷ dotted label labels
dotted-append a label [] = refl
dotted-append a label (next ∷ labels) = append_assoc a (b'.' ∷ label) (b'.' ∷ dotted next labels)

with_labels-dotted :
    (out : Bytes) (labels : List Bytes)
    → 0 < length out
    → with_labels out labels ≡ dotted out labels
unfolding with_labels
with_labels-dotted [] labels h = absurd (omega arith)
with_labels-dotted (c ∷ out) [] h = refl
with_labels-dotted (c ∷ out) (label ∷ labels) h =
    with_labels-dotted (c ∷ (out ++ b'.' ∷ label)) labels (omega arith)
    ∙ dotted-append (c ∷ out) label labels

wire_long : (labels : List Bytes) → length labels < length (wire labels)
wire_long [] = omega arith
wire_long (label ∷ labels) = omega (arith, wire_long labels, length-append label (wire labels))

-- A name of labels of one to sixty-three bytes without dots, written by AppendName anywhere in a
-- packet, is read back whole, and the position is then the one behind it.
pub read_name-append_name :
    (pre rest first : Bytes) (labels : List Bytes)
    → All IsLabel (first ∷ labels)
    → read_name (pre ++ (append_name (dotted first labels) ++ rest)) (length pre)
      ≡ found (length pre + length (append_name (dotted first labels))) (dotted first labels)
unfolding read_name
read_name-append_name pre rest first labels h =
    let w = wire (first ∷ labels) in
    let text = with_labels-dotted first labels h.0.some_byte in
    let enough : (length (first ∷ labels) < read_fuel (pre ++ (w ++ rest))) =
      omega
        (arith, wire_long (first ∷ labels), length-append pre (w ++ rest), length-append w rest) in
    rw (append_name-wire first labels h) (
      walk-wire (first ∷ labels) (read_fuel (pre ++ (w ++ rest))) pre rest [] h enough
      ∙ unfold with_labels in ap (found (length pre + length w)) text)
