-- ===== src/Net/Protocol/Scan.antt =====
-- src/net/Protocol.cpp: the field scanner over flat JSON, and the classification of payloads.
-- `strtod` and the conversions from `double` are the C library's and the processor's: the type of
-- doubles and what the code does with it are the record `Double`.
use opendisplay_win.Common.{
  ℕ, leb, ◌==◌, if◌then◌else◌, Bool, true, false, not, ◌&&◌, ◌||◌, Option, none, some, ◌>>=◌,
  map_some, [], ◌∷◌, ◌++◌, Bytes, codes, length, ℤ, strip, cut, cut_at, skip_space,
}

pub record Double : Type 1 where
  pub Real : Type 0
  -- A literal or a text, read by `strtod`.
  pub strtod : Bytes → Real
  -- `a > b`, and the value of an unsigned integer literal.
  pub gtb : Real → Real → Bool
  pub of_ℕ : ℕ → Real
  -- The conversions to `uint64_t` or `uint32_t` of a value in range, and to `int`.
  pub to_unsigned : Real → ℕ
  pub to_int : Real → ℤ

-- `"` and `\`.
abbrev pub quote : ℕ
quote = 34

abbrev pub backslash : ℕ
backslash = 92

-- "\"" + key + "\"".
abbrev pub quoted : Bytes → Bytes
quoted key = quote ∷ (key ++ quote ∷ [])

-- A position is the rest of the text from there on.
unfoldable pub find_value_start : Bytes → Bytes → Option Bytes
find_value_start json key = do
  at_key ← cut (quoted key) json
  at_colon ← cut_at b':' at_key.1
  some (skip_space at_colon.1)

abbrev string_at : Bytes → Option Bytes
string_at [] = none
string_at (c ∷ t) =
    if c == quote then map_some (λ (p : Bytes × Bytes). p.0) (cut_at quote t) else none

unfoldable pub find_string_field : Bytes → Bytes → Option Bytes
find_string_field json key = do start ← find_value_start json key; string_at start

abbrev pub is_digit : ℕ → Bool
is_digit c = leb b'0' c && leb c b'9'

abbrev pub is_number_byte : ℕ → Bool
is_number_byte c = is_digit c || c == b'-' || c == b'+' || c == b'.' || c == b'e' || c == b'E'

-- The bytes from `start` up to `end`.
unfoldable pub number_text : Bytes → Bytes
number_text [] = []
number_text (c ∷ t) = let more = number_text t in if is_number_byte c then c ∷ more else []

non_empty : Bytes → Option Bytes
non_empty [] = none
non_empty (c ∷ t) = some (c ∷ t)

-- What `strtod` is applied to.
unfoldable pub find_number_text : Bytes → Bytes → Option Bytes
unfolding non_empty
find_number_text json key = do start ← find_value_start json key; non_empty (number_text start)

unfoldable pub find_number_field : (D : Double) → Bytes → Bytes → Option D.Real
find_number_field D json key = map_some D.strtod (find_number_text json key)

abbrev bool_at : Option Bytes → Option Bytes → Option Bool
bool_at (some _) _ = some true
bool_at none (some _) = some false
bool_at none none = none

unfoldable pub find_bool_field : Bytes → Bytes → Option Bool
find_bool_field json key = do
  start ← find_value_start json key
  bool_at (strip (codes "true") start) (strip (codes "false") start)

unfoldable pub positive_u32 : (D : Double) → Option D.Real → ℕ
positive_u32 D none = 0
positive_u32 D (some v) =
    if not (D.gtb v (D.of_ℕ 0))
    then 0
    else if not (D.gtb (D.of_ℕ 0xffff_ffff) v)
    then 0xffff_ffff
    else D.to_unsigned v

abbrev pub no_zero_byte : Bytes → Bool
no_zero_byte [] = true
no_zero_byte (c ∷ t) = not (c == 0) && no_zero_byte t

abbrev head_is : ℕ → Bytes → Bool
head_is q [] = false
head_is q (c ∷ t) = c == q

-- `none` is a null pointer.
unfoldable pub is_control_payload : Option Bytes → Bool
is_control_payload none = false
is_control_payload (some b) =
    if length b == 0 || leb 32768 (length b)
    then false
    else if not (head_is b'{' b)
    then false
    else no_zero_byte b
