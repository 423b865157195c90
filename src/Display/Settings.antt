-- ===== src/Display/Settings.antt =====
-- src/display/MttVddSettings.cpp: the settings text of the driver. A position in the text is the
-- rest of the text from there; an empty text stands for a file that is malformed.
pub mod Options
pub mod Blocks
pub mod Resolutions
pub mod Wanted
mod Runs
use Prim.Native.Nat.{min}
use opendisplay_win.Common.{
  ℕ, zero, suc, ◌-◌, ◌%◌, ◌^◌, ltb, ◌==◌, if◌then◌else◌, Bool, true, false, not, ◌&&◌, ◌||◌, Option,
  none, some, ◌>>=◌, map_some, List, [], ◌∷◌, ◌++◌, Bytes, codes, length, equal, strip, cut,
  skip_space, digits, read_digits,
}
use opendisplay_win.Display.Edid.{MttMode}

-- The texts before and behind the last `n`, as `rfind`.
unfoldable pub cut_last : Bytes → Bytes → Option (Bytes × Bytes)
cut_last n [] = map_some (λ r. ([], r)) (strip n [])
cut_last n (c ∷ t) = elim (cut_last n t) [
  | some p ↦ some (c ∷ p.0, p.1)
  | none ↦ map_some (λ r. ([], r)) (strip n (c ∷ t))
]

-- `ModeKey`.
abbrev pub ModeKey : Type 0
ModeKey = MttMode

-- `strtoul` in base 10, with an `unsigned long` of 32 bits.
abbrev pub held : ℕ → ℕ
held n = min n (2 ^ 32 - 1)

abbrev pub signed_of : Bytes → ℕ
signed_of [] = 0
signed_of (c ∷ t) =
    if c == b'-'
    then (if ltb (2 ^ 32 - 1) (read_digits 0 t)
        then 2 ^ 32 - 1
        else (2 ^ 32 - read_digits 0 t) % 2 ^ 32)
    else held (read_digits 0 (if c == b'+' then t else c ∷ t))

unfoldable pub strtoul : Bytes → ℕ
strtoul t = signed_of (skip_space t)

-- The lambda `tagU32`: a number above 0.
unfoldable pub tag_u32 : Bytes → Bytes → Bytes → Option ℕ
tag_u32 block opening closing = do
  a ← cut opening block
  b ← cut closing a.1
  let v = strtoul a.1 in if ltb 0 v then some v else none

abbrev pub res_open : Bytes
res_open = codes "<resolution>"

abbrev pub res_close : Bytes
res_close = codes "</resolution>"

abbrev pub rate_of : Option ℕ → ℕ
rate_of none = 60
rate_of (some hz) = hz

unfoldable pub block_mode : Bytes → Option ModeKey
block_mode block = do
  w ← tag_u32 block (codes "<width>") (codes "</width>")
  h ← tag_u32 block (codes "<height>") (codes "</height>")
  some record {
    width = w;
    height = h;
    hz = rate_of (tag_u32 block (codes "<refresh_rate>") (codes "</refresh_rate>"));
  }

abbrev pub with_mode : Option ModeKey → List ModeKey → List ModeKey
with_mode none modes = modes
with_mode (some m) modes = m ∷ modes

-- The next block, with its opening tag, and the text behind it.
unfoldable pub next_block : Bytes → Option (Bytes × Bytes)
next_block text = do open_at ← cut res_open text; cut res_close (res_open ++ open_at.1)

-- Each round passes a tag, so rounds as many as bytes are enough.
unfoldable pub parse_blocks : ℕ → Bytes → List ModeKey
parse_blocks zero text = []
parse_blocks (suc rounds) text = elim (next_block text) [
  | none ↦ []
  | some (block, rest) ↦ with_mode (block_mode block) (parse_blocks rounds rest)
]

unfoldable pub parse_resolutions : Bytes → List ModeKey
parse_resolutions xml = parse_blocks (length xml) xml

-- The buffer of 192 bytes holds three numbers of ten digits.
unfoldable pub format_resolution_block : ModeKey → Bytes
format_resolution_block m =
    codes "        <resolution>\n            <width>"
    ++ (digits m.width
        ++ (codes "</width>\n            <height>"
            ++ (digits m.height
                ++ (codes "</height>\n            <refresh_rate>"
                    ++ (digits m.hz ++ codes "</refresh_rate>\n        </resolution>\n")))))

unfoldable pub format_blocks : List ModeKey → Bytes
format_blocks [] = []
format_blocks (m ∷ modes) = format_resolution_block m ++ format_blocks modes

unfoldable pub has_key : List ModeKey → ModeKey → Bool
has_key [] k = false
has_key (m ∷ keys) k =
    (m.width == k.width && m.height == k.height && m.hz == k.hz) || has_key keys k

-- The lambda `add` of ExpandWanted.
unfoldable pub add_key : ℕ → ℕ → ℕ → List ModeKey → List ModeKey
add_key w h hz keys =
    let k : ModeKey =
      if ltb w h
      then record { width = h; height = w; hz = hz }
      else record { width = w; height = h; hz = hz } in
    if w == 0 || h == 0 || hz == 0 then keys else if has_key keys k then keys else keys ++ k ∷ []

unfoldable pub expand_onto : List ModeKey → List MttMode → List ModeKey
expand_onto keys [] = keys
expand_onto keys (m ∷ wanted) =
    let hz = if m.hz == 0 then 60 else m.hz in
    let first = add_key m.width m.height hz keys in
    expand_onto (if hz == 60 then first else add_key m.width m.height 60 first) wanted

unfoldable pub expand_wanted : List MttMode → List ModeKey
expand_wanted wanted = expand_onto [] wanted

abbrev pub list_open : Bytes
list_open = codes "<resolutions>"

abbrev pub list_close : Bytes
list_close = codes "</resolutions>"

abbrev pub with_body : Bytes → Option ((Bytes × Bytes) × (Bytes × Bytes)) → Bytes
with_body body none = []
with_body body (some (o, c)) =
    if ltb (length c.0) (length o.0)
    then []
    else o.0 ++ (list_open ++ (body ++ (list_close ++ c.1)))

abbrev both : Bytes → Option ((Bytes × Bytes) × (Bytes × Bytes))
both xml = do o ← cut list_open xml; c ← cut_last list_close xml; some (o, c)

unfoldable pub replace_resolutions_xml : Bytes → List ModeKey → Bytes
replace_resolutions_xml xml modes =
    with_body (codes "\n" ++ (format_blocks modes ++ codes "    ")) (both xml)

abbrev pub open_tag : Bytes → Bytes
open_tag tag = b'<' ∷ (tag ++ b'>' ∷ [])

abbrev pub close_tag : Bytes → Bytes
close_tag tag = b'<' ∷ b'/' ∷ (tag ++ b'>' ∷ [])

-- The four bytes that are taken off both ends.
abbrev pub is_blank : ℕ → Bool
is_blank c = c == 32 || c == 9 || c == 13 || c == 10

unfoldable pub skip_blank : Bytes → Bytes
skip_blank [] = []
skip_blank (c ∷ t) = if is_blank c then skip_blank t else c ∷ t

unfoldable pub drop_blank : Bytes → Bytes
drop_blank [] = []
drop_blank (c ∷ t) = elim (drop_blank t) [
  | [] ↦ if is_blank c then [] else c ∷ []
  | d ∷ r ↦ c ∷ d ∷ r
]

abbrev pub bool_of : Bytes → Option Bool
bool_of v =
    if equal v (codes "true") || equal v (codes "1")
    then some true
    else if equal v (codes "false") || equal v (codes "0")
    then some false
    else none

-- The text of the first element `tag`, with what stands before and behind it.
unfoldable pub option_parts : Bytes → Bytes → Option (Bytes × (Bytes × Bytes))
option_parts xml tag = do a ← cut (open_tag tag) xml; b ← cut (close_tag tag) a.1; some (a.0, b)

unfoldable pub parse_option_bool : Bytes → Bytes → Option Bool
parse_option_bool xml tag = do
  parts ← option_parts xml tag
  bool_of (drop_blank (skip_blank parts.1.0))

abbrev pub bool_text : Bool → Bytes
bool_text true = codes "true"
bool_text false = codes "false"

abbrev pub with_option : Bytes → Bytes → Option (Bytes × (Bytes × Bytes)) → Bytes
with_option tag value none = []
with_option tag value (some (before, element)) =
    before ++ (open_tag tag ++ (value ++ (close_tag tag ++ element.1)))

unfoldable pub set_option_bool_xml : Bytes → Bytes → Bool → Bytes
set_option_bool_xml xml tag value = with_option tag (bool_text value) (option_parts xml tag)
