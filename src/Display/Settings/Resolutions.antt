-- ===== src/Display/Settings/Resolutions.antt =====
-- src/display/MttVddSettings.cpp, ReplaceResolutionsXml: the modes that are written are read again.
use opendisplay_win.Common.{
  ℕ, zero, suc, ◌≤◌, ltb, false, none, some, List, [], ◌∷◌, ◌++◌, append_assoc, Bytes, codes,
  length, length-append, cut, NoneBefore, NoneBefore-append, NoneBefore-Absent, NoneBefore-front,
  cut-append-none, none_before, none_before_sound, strip, All, ◌≡◌, refl, ap, ◌∙◌, arith,
}
use opendisplay_win.Display.Settings.{
  ModeKey, res_open, block_mode, with_mode, next_block, parse_blocks, parse_resolutions,
  format_resolution_block, format_blocks, cut_last, list_open, list_close, replace_resolutions_xml,
}
use opendisplay_win.Display.Settings.Blocks.{
  IsKey, Clear, block_of, next_block_lem, block_mode-block_of,
}

parse_blocks_step :
    (rounds : ℕ) (text block rest : Bytes)
    → next_block text ≡ some (block, rest)
    → parse_blocks (suc rounds) text ≡ with_mode (block_mode block) (parse_blocks rounds rest)
unfolding parse_blocks
parse_blocks_step rounds text block rest e = rw (e, parse_blocks) refl

parse_blocks_end :
    (rounds : ℕ) (text : Bytes) → cut res_open text ≡ none → parse_blocks rounds text ≡ []
unfolding parse_blocks next_block
parse_blocks_end zero text e = refl
parse_blocks_end (suc rounds) text e = rw (e, parse_blocks, next_block) refl

newline-Clear : Clear (codes "\n")
newline-Clear x = NoneBefore-Absent b'<' (codes "resolution>") (codes "\n") x (ground arith)

parse_blocks_lem :
    (modes : List ModeKey) (rounds : ℕ) (gap tail : Bytes)
    → All IsKey modes
    → length modes ≤ rounds
    → Clear gap
    → cut res_open tail ≡ none
    → parse_blocks rounds (gap ++ (format_blocks modes ++ tail)) ≡ modes
unfolding format_blocks
parse_blocks_lem [] rounds gap tail k l c e =
    parse_blocks_end rounds (gap ++ tail) (cut-append-none res_open gap tail (c tail) e)
parse_blocks_lem (m ∷ modes) zero gap tail k l c e = absurd (omega arith)
parse_blocks_lem (m ∷ modes) (suc rounds) gap tail k l c e =
    let rest = format_blocks modes ++ tail in
    rw (append_assoc (format_resolution_block m) (format_blocks modes) tail) (
      parse_blocks_step rounds (gap ++ (format_resolution_block m ++ rest)) (block_of m)
        (codes "\n" ++ rest) (next_block_lem gap rest m c)
      ∙ ap (λ o. with_mode o (parse_blocks rounds (codes "\n" ++ rest))) (block_mode-block_of m k.0)
      ∙ ap (◌∷◌ m)
          (parse_blocks_lem modes rounds (codes "\n") tail k.1 (omega arith) newline-Clear e))

block_some : (m : ModeKey) → 1 ≤ length (format_resolution_block m)
unfolding format_resolution_block
block_some m = omega arith

blocks_length : (modes : List ModeKey) → length modes ≤ length (format_blocks modes)
unfolding format_blocks
blocks_length [] = omega arith
blocks_length (m ∷ modes) = omega (
  arith,
  block_some m,
  blocks_length modes,
  length-append (format_resolution_block m) (format_blocks modes),
)

-- The written text, as what leads to the blocks, the blocks, and what is behind them.
written :
    (xml pre old last post : Bytes) (modes : List ModeKey)
    → cut list_open xml ≡ some (pre, old)
    → cut_last list_close xml ≡ some (last, post)
    → length pre ≤ length last
    → replace_resolutions_xml xml modes
      ≡ (pre ++ (list_open ++ codes "\n"))
        ++ (format_blocks modes ++ (codes "    " ++ (list_close ++ post)))
unfolding replace_resolutions_xml
written xml pre old last post modes o c l =
    let ordered : (ltb (length last) (length pre) ≡ false) = ground arith in
    rw (o, c, ordered) (simp append_assoc)

lead-Clear :
    (pre : Bytes) → NoneBefore res_open pre list_open → Clear (pre ++ (list_open ++ codes "\n"))
lead-Clear pre h x =
    NoneBefore-append res_open pre (list_open ++ codes "\n") x
      (NoneBefore-front res_open pre list_open (codes "\n" ++ x) (omega arith) h)
      (none_before_sound res_open (list_open ++ codes "\n") x (unfold none_before strip in refl))

-- From a text whose last closing tag of the list does not stand before its first opening one, and
-- which has no block in front of the list or behind it, ReplaceResolutionsXml makes a text from
-- which ParseResolutions reads the modes that were written, if their numbers are from 1 to
-- 2 ^ 32 - 1.
pub parse_resolutions-replace_resolutions_xml :
    (xml pre old last post : Bytes) (modes : List ModeKey)
    → cut list_open xml ≡ some (pre, old)
    → cut_last list_close xml ≡ some (last, post)
    → length pre ≤ length last
    → NoneBefore res_open pre list_open
    → cut res_open (list_close ++ post) ≡ none
    → All IsKey modes
    → parse_resolutions (replace_resolutions_xml xml modes) ≡ modes
unfolding parse_resolutions
parse_resolutions-replace_resolutions_xml xml pre old last post modes o c l before behind k =
    let lead = pre ++ (list_open ++ codes "\n") in
    let tail = codes "    " ++ (list_close ++ post) in
    let blocks = format_blocks modes in
    let quiet =
      cut-append-none res_open (codes "    ") (list_close ++ post)
        (NoneBefore-Absent b'<' (codes "resolution>") (codes "    ") (list_close ++ post)
          (ground arith))
        behind in
    rw (written xml pre old last post modes o c l) (
      parse_blocks_lem modes (length (lead ++ (blocks ++ tail))) lead tail k
        (omega (
          arith,
          blocks_length modes,
          length-append lead (blocks ++ tail),
          length-append blocks tail,
        ))
        (lead-Clear pre before) quiet)
