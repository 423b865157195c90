-- ===== src/App/Config/File/Values.antt =====
-- What is read back from the text behind a key.
use opendisplay_win.Common.{
  ℕ, zero, suc, ◌-◌, ◌≤◌, ◌<◌, Bool, true, false, none, some, List, [], ◌∷◌, ◌++◌, Bytes, codes,
  length, take, pos, strip, cut_at, cut_at-append, skip_space, digits, read_digits,
  read_digits-digits, length-digits, digits_plain, digits-positive, is_digit, is_space, min, ◌^◌,
  All, Absent, append-nil, append_assoc, ◌≡◌, refl, sym, ap, ◌∙◌, arith,
}
use opendisplay_win.App.Config.File.{
  quote, backslash, behind, text_before, array_of, string_of, int_of, bool_of, plain_json_string,
  value_after, read_string, strtol, read_int, strings_in, read_string_array, read_bool, array_items,
  separator, Value, strings, string, plain, Line, value_text, lines_text, bool_text,
  port_or_default,
}
use opendisplay_win.App.Config.File.Lookup.{
  separator_plain, plain_kept, IsKey, IsOtherLine, found_in, after-lines_text,
}

-- The view that a key gives in a written file.
value_after-lines_text :
    (k front rest : Bytes) (ls : List Line)
    → IsKey k
    → Absent quote front
    → All (IsOtherLine k) ls
    → found_in k ls ≡ b':' ∷ 32 ∷ rest
    → value_after (lines_text front ls) k ≡ skip_space rest
unfolding value_after
value_after-lines_text k front rest ls hk hf h e =
    ap (λ b. skip_space (behind (cut_at b':' b))) (after-lines_text k front ls hk hf h ∙ e)
    ∙ unfold cut_at skip_space in refl

strings_in_value :
    (value v t : Bytes)
    → Absent quote v
    → strings_in (some value) (v ++ quote ∷ t) ≡ (value ++ v) ∷ strings_in none t
unfolding strings_in
strings_in_value value [] t h = ap (λ b. b ∷ strings_in none t) (sym (append-nil value))
strings_in_value value (c ∷ v) t h = rw h.0 (
    strings_in_value (value ++ c ∷ []) v t h.1
    ∙ ap (λ b. b ∷ strings_in none t) (append_assoc value (c ∷ []) v))

-- A string that the file keeps as it is.
pub record IsText (s : Bytes) : Type 0 where
  pub no_quote : Absent quote s
  pub no_backslash : Absent backslash s
  pub no_bracket : Absent b']' s

Absent-append : (q : ℕ) (a b : Bytes) → Absent q a → Absent q b → Absent q (a ++ b)
Absent-append q [] b ha hb = hb
Absent-append q (x ∷ a) b ha hb = (ha.0, Absent-append q a b ha.1 hb)

separator_open : (first : Bool) → Absent b']' (separator first)
separator_open true = tt
separator_open false = ground arith

items_open : (first : Bool) (vs : List Bytes) → All IsText vs → Absent b']' (array_items first vs)
unfolding array_items
items_open first [] h = tt
items_open first (v ∷ vs) h =
    let t = h.0 in
    Absent-append b']' (separator first) _ (separator_open first) (
      refl,
      rw (plain_kept v t.no_quote t.no_backslash)
          (Absent-append b']' v _ t.no_bracket (refl, items_open false vs h.1)),
    )

strings_in_gap : (gap t : Bytes) → Absent quote gap → strings_in none (gap ++ t) ≡ strings_in none t
unfolding strings_in
strings_in_gap [] t h = refl
strings_in_gap (c ∷ gap) t h = rw h.0 (strings_in_gap gap t h.1)

strings_in_item :
    (v t : Bytes)
    → IsText v
    → strings_in none (quote ∷ (plain_json_string v ++ quote ∷ t)) ≡ v ∷ strings_in none t
unfolding strings_in
strings_in_item v t h =
    rw (plain_kept v h.no_quote h.no_backslash) (strings_in_value [] v t h.no_quote)

strings_in-array_items :
    (first : Bool) (vs : List Bytes) → All IsText vs → strings_in none (array_items first vs) ≡ vs
unfolding array_items
strings_in-array_items first [] h = unfold strings_in in refl
strings_in-array_items first (v ∷ vs) h =
    strings_in_gap (separator first) _ (separator_plain first)
    ∙ strings_in_item v (array_items false vs) h.0
    ∙ ap (◌∷◌ v) (strings_in-array_items false vs h.1)

skip_nothing : (c : ℕ) (t : Bytes) → is_space c ≡ false → skip_space (c ∷ t) ≡ c ∷ t
unfolding skip_space
skip_nothing c t h = rw h

take-append_long :
    (n : ℕ) (xs ys : Bytes) → length xs ≤ n → take n (xs ++ ys) ≡ xs ++ take (n - length xs) ys
take-append_long n [] ys h = ap (λ k. take k ys) (omega arith)
take-append_long zero (x ∷ xs) ys h = absurd (omega arith)
take-append_long (suc n) (x ∷ xs) ys h =
    ap (◌∷◌ x) (take-append_long n xs ys (omega arith) ∙ ap (λ k. xs ++ take k ys) (omega arith))

signed_read :
    (d : ℕ) (v : Bytes)
    → is_digit d ≡ true
    → strtol (d ∷ v) ≡ pos (min (read_digits 0 (d ∷ v)) (2 ^ 31 - 1))
unfolding strtol skip_space
signed_read d v h = ground arith

-- The digits of a port, in the sixteen bytes that are looked at.
port_read :
    (n c : ℕ) (ds t : Bytes)
    → 0 < length ds
    → length ds ≤ 5
    → All (λ d. is_digit d ≡ true) ds
    → is_digit c ≡ false
    → ((rest : Bytes) → read_digits 0 (ds ++ rest) ≡ read_digits n rest)
    → 0 < n
    → n ≤ 65535
    → port_or_default (int_of (skip_space (ds ++ c ∷ t))) ≡ n
port_read n c [] t l m h e r p q = absurd (omega arith)
port_read n c (d ∷ ds) t l m h e r p q =
    let size : (16 - length (d ∷ ds) ≡ suc (15 - length (d ∷ ds))) = omega arith in
    let behind_it = take (15 - length (d ∷ ds)) t in
    let cut_off : (take 16 ((d ∷ ds) ++ c ∷ t) ≡ (d ∷ ds) ++ c ∷ behind_it) =
      take-append_long 16 (d ∷ ds) (c ∷ t) (omega arith)
      ∙ ap (λ k. (d ∷ ds) ++ take k (c ∷ t)) size in
    let value : (read_digits 0 ((d ∷ ds) ++ c ∷ behind_it) ≡ n) =
      r (c ∷ behind_it) ∙ (unfold read_digits in rw e) in
    let number : (strtol (take 16 ((d ∷ ds) ++ c ∷ t)) ≡ pos n) =
      ap strtol cut_off
      ∙ signed_read d (ds ++ c ∷ behind_it) h.0
      ∙ ap (λ k. pos (min k (2 ^ 31 - 1))) value
      ∙ ap pos (omega arith) in
    ap (λ b. port_or_default (int_of b)) (skip_nothing d (ds ++ c ∷ t) (ground (arith, h.0)))
    ∙ ap (λ z. port_or_default (some z)) number
    ∙ ground arith

-- A number is followed by a comma or by the end of the line.
lines_text_next :
    (ls : List Line)
    → (c : ℕ) × (t : Bytes) × (lines_text (codes ",\n") ls ≡ c ∷ t) × (is_digit c ≡ false)
unfolding lines_text
lines_text_next [] = (10, _, refl, refl)
lines_text_next (l ∷ ls) = (b',', _, refl, refl)

bool_read :
    (b : Bool) (rest : Bytes)
    → bool_of
        (strip (codes "true") (skip_space (bool_text b ++ rest)))
        (strip (codes "false") (skip_space (bool_text b ++ rest)))
      ≡ some b
unfolding strip skip_space
bool_read true rest = refl
bool_read false rest = refl

-- The line of a key, and what stands behind it.
pub record IsFound (k : Bytes) (v : Value) (ls : List Line) : Type 0 where
  pub is_key : IsKey k
  pub others : All (IsOtherLine k) ls
  pub later : List Line
  pub found : found_in k ls ≡ codes ": " ++ value_text v (lines_text (codes ",\n") later)

module _ (k front : Bytes) (ls : List Line) (hf : Absent quote front) where
  pub read_string_array-lines_text :
      (vs : List Bytes)
      → All IsText vs
      → IsFound k (strings vs) ls
      → read_string_array (lines_text front ls) k ≡ vs
  unfolding read_string_array value_text
  read_string_array-lines_text vs hv f =
      let rest = lines_text (codes ",\n") f.later in
      ap array_of (
        value_after-lines_text k front _ ls f.is_key hf f.others f.found ∙ skip_nothing b'[' _ refl)
      ∙ ap (λ b. strings_in none (text_before b))
          (cut_at-append b']' (array_items true vs) rest (items_open true vs hv))
      ∙ strings_in-array_items true vs hv

  pub read_string-lines_text :
      (s : Bytes) → IsText s → IsFound k (string s) ls → read_string (lines_text front ls) k ≡ s
  unfolding read_string value_text
  read_string-lines_text s hs f =
      let rest = lines_text (codes ",\n") f.later in
      ap string_of (
        value_after-lines_text k front _ ls f.is_key hf f.others f.found
        ∙ skip_nothing quote _ refl)
      ∙ ap text_before (cut_at-append quote s rest hs.no_quote)

  pub read_bool-lines_text :
      (b : Bool) → IsFound k (plain (bool_text b)) ls → read_bool (lines_text front ls) k ≡ some b
  unfolding read_bool value_text
  read_bool-lines_text b f =
      let view = value_after-lines_text k front _ ls f.is_key hf f.others f.found in
      rw view (bool_read b (lines_text (codes ",\n") f.later))

  pub read_int-lines_text :
      (n : ℕ)
      → 0 < n
      → n ≤ 65535
      → IsFound k (plain (digits n)) ls
      → port_or_default (read_int (lines_text front ls) k) ≡ n
  unfolding read_int value_text
  read_int-lines_text n h1 h2 f =
      let (c, t, next, stop) = lines_text_next f.later in
      ap (λ b. port_or_default (int_of b))
        (value_after-lines_text k front _ ls f.is_key hf f.others f.found
          ∙ ap (λ b. skip_space (digits n ++ b)) next)
      ∙ port_read n c (digits n) t (digits-positive n) (length-digits n 4 (omega arith))
          (digits_plain n) stop (read_digits-digits n) h1 h2
