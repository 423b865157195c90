-- ===== src/App/Config/File/Lookup.antt =====
-- Which line of a written file a key is found in.
use opendisplay_win.Common.{
  ℕ, ◌==◌, if◌then◌else◌, Bool, true, false, none, List, [], ◌∷◌, ◌++◌, Bytes, codes, equal,
  equal_iff, strip, cut, cut-append, All, Absent, append_assoc, ◌≡◌, refl, sym, ap, ◌∙◌, arith,
  Bool-cases, Option-cases, inl, inr,
}
use opendisplay_win.App.Config.File.{
  quote, backslash, quoted, behind, array_items, separator, plain_json_string, Value, strings,
  string, plain, Line, value_text, lines_text,
}

-- What stands behind the first `"key"`.
abbrev pub after : Bytes → Bytes → Bytes
after key text = behind (cut (quoted key) text)

-- A key of letters and the like.
pub record IsKey (k : Bytes) : Type 0 where
  pub no_quote : Absent quote k
  pub no_colon : Absent b':' k
  pub no_comma : Absent b',' k
  pub no_bracket : Absent b']' k
  pub no_newline : Absent 10 k

after_skip : (k t : Bytes) (c : ℕ) → strip (quoted k) (c ∷ t) ≡ none → after k (c ∷ t) ≡ after k t
unfolding cut
after_skip k t c h = elim (Option-cases (cut (quoted k) t)) [
  | inl e ↦ rw (h, e, cut) refl
  | inr (p, e) ↦ rw (h, e, cut) refl
]

pub after_gap : (k gap t : Bytes) → Absent quote gap → after k (gap ++ t) ≡ after k t
after_gap k [] t h = refl
after_gap k (c ∷ gap) t h =
    after_skip k (gap ++ t) c (unfold strip in ground (arith, h.0)) ∙ after_gap k gap t h.1

strip_other :
    (k s r : Bytes)
    → Absent quote k
    → Absent quote s
    → equal s k ≡ false
    → strip (k ++ quote ∷ []) (s ++ quote ∷ r) ≡ none
unfolding strip equal
strip_other [] [] r hk hs ne = cc
strip_other [] (y ∷ s) r hk hs ne = ground (arith, hs.0)
strip_other (x ∷ k) [] r hk hs ne = ground (arith, hk.0)
strip_other (x ∷ k) (y ∷ s) r hk hs ne = ground (arith, strip_other k s r)

-- Another string is passed over, up to its closing quote.
after_other :
    (k s t : Bytes)
    → Absent quote k
    → Absent quote s
    → equal s k ≡ false
    → after k (quote ∷ (s ++ quote ∷ t)) ≡ after k (quote ∷ t)
after_other k s t hk hs ne =
    after_skip k (s ++ quote ∷ t) quote (unfold strip in strip_other k s t hk hs ne)
    ∙ after_gap k s (quote ∷ t) hs

strip_stop :
    (k t : Bytes) (c : ℕ)
    → Absent c k
    → (c == quote) ≡ false
    → strip (quoted k) (quote ∷ c ∷ t) ≡ none
unfolding strip
strip_stop [] t c h e = ground arith
strip_stop (x ∷ k) t c h e = ground (arith, h.0)

-- A closing quote is passed over, if the next byte is in no key.
after_close :
    (k t : Bytes) (c : ℕ)
    → Absent c k
    → (c == quote) ≡ false
    → after k (quote ∷ c ∷ t) ≡ after k (c ∷ t)
after_close k t c h e = after_skip k (c ∷ t) quote (strip_stop k t c h e)

pub after_here : (k t : Bytes) → after k (quote ∷ (k ++ quote ∷ t)) ≡ t
after_here k t =
    ap (after k) (ap (◌∷◌ quote) (sym (append_assoc k (quote ∷ []) t)))
    ∙ ap behind (cut-append (quoted k) [] t tt)

pub plain_kept : (s : Bytes) → Absent quote s → Absent backslash s → plain_json_string s ≡ s
unfolding plain_json_string
plain_kept [] h b = refl
plain_kept (c ∷ s) h b = rw (h.0, b.0) (ap (◌∷◌ c) (plain_kept s h.1 b.1))

-- A string that the file can hold and that is not the key.
pub record IsOther (k s : Bytes) : Type 0 where
  pub no_quote : Absent quote s
  pub no_backslash : Absent backslash s
  pub other : equal s k ≡ false

items_close :
    (k t : Bytes) (vs : List Bytes)
    → IsKey k
    → after k (quote ∷ (array_items false vs ++ b']' ∷ t))
      ≡ after k (array_items false vs ++ b']' ∷ t)
unfolding array_items
items_close k t [] hk = after_close k t b']' hk.no_bracket refl
items_close k t (v ∷ vs) hk = after_close k _ b',' hk.no_comma refl

pub separator_plain : (first : Bool) → Absent quote (separator first)
separator_plain true = tt
separator_plain false = ground arith

after-array_items :
    (k t : Bytes) (first : Bool) (vs : List Bytes)
    → IsKey k
    → All (IsOther k) vs
    → after k (array_items first vs ++ b']' ∷ t) ≡ after k (b']' ∷ t)
unfolding array_items
after-array_items k t first [] hk hv = refl
after-array_items k t first (v ∷ vs) hk hv =
    let o = hv.0 in
    let items = array_items false vs ++ b']' ∷ t in
    ap (after k) (rw (plain_kept v o.no_quote o.no_backslash) (simp append_assoc))
    ∙ after_gap k (separator first) (quote ∷ (v ++ quote ∷ items)) (separator_plain first)
    ∙ after_other k v items hk.no_quote o.no_quote o.other
    ∙ items_close k t vs hk
    ∙ after-array_items k t false vs hk hv.1

-- A value in which the key is not.
abbrev pub IsOtherValue : Bytes → Value → Type 0
IsOtherValue k (strings vs) = All (IsOther k) vs
IsOtherValue k (string s) = IsOther k s
IsOtherValue k (plain s) = Absent quote s

after-value_text :
    (k rest : Bytes) (c : ℕ) (v : Value)
    → IsKey k
    → IsOtherValue k v
    → Absent c k
    → (c == quote) ≡ false
    → after k (value_text v (c ∷ rest)) ≡ after k (c ∷ rest)
unfolding value_text
after-value_text k rest c (strings vs) hk hv h e =
    after_gap k (b'[' ∷ []) (array_items true vs ++ b']' ∷ c ∷ rest) (ground arith)
    ∙ after-array_items k (c ∷ rest) true vs hk hv
    ∙ after_gap k (b']' ∷ []) (c ∷ rest) (ground arith)
after-value_text k rest c (string s) hk hv h e =
    after_other k s (c ∷ rest) hk.no_quote hv.no_quote hv.other ∙ after_close k rest c h e
after-value_text k rest c (plain s) hk hv h e = after_gap k s (c ∷ rest) hv

abbrev pub IsOtherLine : Bytes → Line → Type 0
IsOtherLine k l = Absent quote l.key × IsOtherValue k l.value

-- The text behind the key of the first line that has it.
abbrev pub found_in : Bytes → List Line → Bytes
found_in k [] = []
found_in k (l ∷ ls) =
    if equal l.key k
    then codes ": " ++ value_text l.value (lines_text (codes ",\n") ls)
    else found_in k ls

-- The lines behind another line: a comma or the end follows its value.
after_value :
    (k : Bytes) (v : Value) (ls : List Line)
    → IsKey k
    → IsOtherValue k v
    → after k (value_text v (lines_text (codes ",\n") ls)) ≡ after k (lines_text (codes ",\n") ls)
unfolding lines_text
after_value k v [] hk hv = after-value_text k _ 10 v hk hv hk.no_newline refl
after_value k v (l ∷ ls) hk hv = after-value_text k _ b',' v hk hv hk.no_comma refl

-- A key is found in its line, behind any lines without it.
pub after-lines_text :
    (k front : Bytes) (ls : List Line)
    → IsKey k
    → Absent quote front
    → All (IsOtherLine k) ls
    → after k (lines_text front ls) ≡ found_in k ls
unfolding lines_text
after-lines_text k front [] hk hf h =
    after_gap k (codes "\n}\n") [] (ground arith) ∙ unfold cut strip in refl
after-lines_text k front (l ∷ ls) hk hf h =
    let value = codes ": " ++ value_text l.value (lines_text (codes ",\n") ls) in
    after_gap k front (codes "  " ++ (quote ∷ (l.key ++ quote ∷ value))) hf
    ∙ after_gap k (codes "  ") (quote ∷ (l.key ++ quote ∷ value)) (ground arith)
    ∙ (elim (Bool-cases (equal l.key k)) [
      | inl e ↦ rw e (
          ap (λ b. after k (quote ∷ (b ++ quote ∷ value))) ((equal_iff l.key k).0 e)
          ∙ after_here k value)
      | inr e ↦ rw e (
          after_other k l.key value hk.no_quote h.0.0 e
          ∙ after_close k _ b':' hk.no_colon refl
          ∙ after_gap k (codes ": ") _ (ground arith)
          ∙ after_value k l.value ls hk h.0.1
          ∙ after-lines_text k (codes ",\n") ls hk (ground arith) h.1)
    ])
