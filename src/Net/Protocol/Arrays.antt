-- ===== src/Net/Protocol/Arrays.antt =====
-- src/net/Protocol.cpp: FindArray, WithoutArray and ParseVideoCaps, the one nested value of a hello.
pub mod Balanced
use opendisplay_win.Common.{
  ℕ, zero, suc, ◌+◌, ◌-◌, ltb, leb, ◌==◌, if◌then◌else◌, Bool, true, false, not, ◌&&◌, ◌||◌, Option,
  none, some, ◌>>=◌, map_some, value_or, List, [], ◌∷◌, ◌++◌, map, Bytes, codes, length, take, drop,
}
use opendisplay_win.Net.Protocol.Scan.{
  Double, quote, backslash, find_value_start, find_string_field, find_number_field, positive_u32,
}
use opendisplay_win.Net.Protocol.FpsLimit.{VideoCapEntry}

abbrev pub opens : ℕ → Bool
opens c = c == b'[' || c == b'{'

abbrev pub closes : ℕ → Bool
closes c = c == b']' || c == b'}'

abbrev pub consed : ℕ → Option (Bytes × Bytes) → Option (Bytes × Bytes)
consed c = map_some (λ (p : Bytes × Bytes). (c ∷ p.0, p.1))

-- The loop of FindArray from the opening bracket on: the array, and what follows it. In a string a
-- backslash skips one byte more. The depth is 1 at least once the first bracket is read.
unfoldable pub scan_array : ℕ → Bool → Bytes → Option (Bytes × Bytes)
scan_array depth in_string [] = none
scan_array depth true (c ∷ []) = none
scan_array depth true (c ∷ d ∷ t) =
    let escaped = consed c (consed d (scan_array depth true t)) in
    let next = consed c (scan_array depth (not (c == quote)) (d ∷ t)) in
    if c == backslash then escaped else next
scan_array depth false (c ∷ t) =
    let into_string = consed c (scan_array depth true t) in
    let deeper = consed c (scan_array (depth + 1) false t) in
    let shallower = consed c (scan_array (depth - 1) false t) in
    let next = consed c (scan_array depth false t) in
    if c == quote
    then into_string
    else if opens c
    then deeper
    else if closes c
    then (if depth - 1 == 0 then some (c ∷ [], t) else shallower)
    else next

abbrev array_at : Bytes → Option (Bytes × Bytes)
array_at [] = none
array_at (c ∷ t) = if c == b'[' then scan_array 0 false (c ∷ t) else none

-- The text before the array, the array with its brackets, and the text behind it.
pub record Located : Type 0 where
  pub before : Bytes
  pub array : Bytes
  pub after : Bytes

unfoldable pub find_array : Bytes → Bytes → Option Located
find_array json key = do
  start ← find_value_start json key
  parts ← array_at start
  some
      (record { before = take (length json - length start) json; array = parts.0; after = parts.1 })

unfoldable pub without_array : Bytes → Bytes → Bytes
without_array json key = elim (find_array json key) [
  | none ↦ json
  | some l ↦ l.before ++ (b'[' ∷ b']' ∷ l.after)
]

-- arr.substr(objStart, i + 1 - objStart): `start` is the text at `objStart`, `rest` that behind `i`.
abbrev object_text : Bytes → Bytes → Bytes
object_text start rest = take (length start - length rest) start

emit : Option Bytes → Bytes → List Bytes → List Bytes
emit none rest more = more
emit (some start) rest more = object_text start rest ∷ more

-- The loop of ParseVideoCaps: the texts of the outermost objects of the array.
unfoldable pub object_texts : ℕ → Bool → Option Bytes → Bytes → List Bytes
unfolding emit
object_texts depth in_string start [] = []
object_texts depth true start (c ∷ []) = []
object_texts depth true start (c ∷ d ∷ t) =
    let escaped = object_texts depth true start t in
    let next = object_texts depth (not (c == quote)) start (d ∷ t) in
    if c == backslash then escaped else next
object_texts depth false start (c ∷ t) =
    let into_string = object_texts depth true start t in
    let start' = if depth == 0 then some (c ∷ t) else start in
    let deeper = object_texts (depth + 1) false start' t in
    let shallower = object_texts (depth - 1) false start t in
    let next = object_texts depth false start t in
    if c == quote
    then into_string
    else if c == b'{'
    then deeper
    else if c == b'}' && ltb 0 depth
    then (if depth - 1 == 0 then emit start t shallower else shallower)
    else next

-- `std::tolower` of the C locale.
abbrev pub to_lower : ℕ → ℕ
to_lower c = if leb b'A' c && leb c b'Z' then c + 32 else c

module _ (D : Double) where
  positive_u64 : Option D.Real → ℕ
  positive_u64 none = 0
  positive_u64 (some v) = if D.gtb v (D.of_ℕ 0) then D.to_unsigned v else 0

  unfoldable pub parse_entry : Bytes → VideoCapEntry
  unfolding positive_u64
  parse_entry obj = record {
    codec = map to_lower (value_or [] (find_string_field obj (codes "codec")));
    max_width = positive_u32 D (find_number_field D obj (codes "maxWidth"));
    max_height = positive_u32 D (find_number_field D obj (codes "maxHeight"));
    max_frame_rate = positive_u32 D (find_number_field D obj (codes "maxFrameRate"));
    max_pixels_per_second = positive_u64 (find_number_field D obj (codes "maxPixelsPerSecond"));
  }

  -- An entry with no codec is skipped.
  unfoldable pub parse_entries : List Bytes → List VideoCapEntry
  parse_entries [] = []
  parse_entries (obj ∷ more) =
      let e = parse_entry obj in
      if length e.codec == 0 then parse_entries more else e ∷ parse_entries more

  -- The array without its brackets: json.substr(b + 1, e - b - 2).
  unfoldable pub parse_video_caps : Bytes → List VideoCapEntry
  parse_video_caps json = elim (find_array json (codes "videoCaps")) [
    | none ↦ []
    | some l ↦
        parse_entries (object_texts 0 false none (take (length l.array - 2) (drop 1 l.array)))
  ]
