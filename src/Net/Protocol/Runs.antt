-- ===== src/Net/Protocol/Runs.antt =====
-- The protocol theorems at concrete messages, and runs. Doubles are read as whole numbers here.
use opendisplay_win.Common.{
  ℕ, ◌+◌, ◌-◌, ◌*◌, ltb, none, some, List, [], ◌∷◌, ◌++◌, Bytes, codes, equal, strip, cut, cut_at,
  skip_space, pos, ◌≡◌, ◌≢◌, ◌⊎◌, refl, arith,
}
use Prim.Native.Nat.{min, max}
use opendisplay_win.Net.Protocol.Scan.{
  Double, find_value_start, find_string_field, find_number_text, number_text, find_number_field,
  positive_u32,
}
use opendisplay_win.Net.Protocol.FpsLimit.{
  VideoCapEntry, entry_rate, entry_fits, take_entry, best_of, stream_fps_limit,
}
use opendisplay_win.Net.Protocol.FpsLimit.Optimal.{display_of, allowed, stream_fps_limit-allowed}
use opendisplay_win.Net.Protocol.Arrays.{
  scan_array, Located, find_array, without_array, object_texts, parse_entry, parse_entries,
  parse_video_caps,
}
use opendisplay_win.Net.Protocol.Arrays.Balanced.{without_array_lem}
use opendisplay_win.Net.Protocol.Message.{ControlType, parse_hello}
use opendisplay_win.Net.Protocol.Message.Dispatch.{wire_name}
use opendisplay_win.Net.Protocol.Message.Input.{Numeral}
use opendisplay_win.Net.Protocol.Numbers.{NumberField}

read_decimal : ℕ → Bytes → ℕ
read_decimal acc [] = acc
read_decimal acc (c ∷ t) = read_decimal (acc * 10 + (c - b'0')) t

abbrev whole : Double
whole = record {
  Real = ℕ;
  strtod = read_decimal 0;
  gtb = λ a b. ltb b a;
  of_ℕ = λ n. n;
  to_unsigned = λ n. n;
  to_int = λ n. pos n;
}

abbrev hello_text : Bytes
hello_text =
    codes
      "{\"type\":\"hello\",\"pixelsWide\":2266, \"videoCaps\":[{\"codec\":\"H264\",\"maxFrameRate\":30}],\"displayMaxFrameRate\":120}"

abbrev avc : VideoCapEntry
avc = record {
  codec = codes "h264";
  max_width = 0;
  max_height = 0;
  max_frame_rate = 30;
  max_pixels_per_second = 0;
}

hello_run :
    ((parse_hello whole hello_text).pixels_wide ≡ pos 2266)
    × ((parse_hello whole hello_text).video_caps ≡ avc ∷ [])
    × ((parse_hello whole hello_text).display_max_frame_rate ≡ 120)
unfolding parse_hello parse_video_caps parse_entries parse_entry object_texts find_array scan_array
    without_array find_value_start find_string_field find_number_text number_text find_number_field
    positive_u32 strip cut cut_at skip_space read_decimal
hello_run = (refl, refl, refl)

fps_run : stream_fps_limit 120 (avc ∷ []) (codes "h264") 2266 1488 ≡ 30
unfolding stream_fps_limit best_of take_entry entry_rate entry_fits equal
fps_run = refl

stream_fps_limit-allowed_example :
    stream_fps_limit 120 (avc ∷ []) (codes "h264") 2266 1488
    ≡ max 1 (min (display_of 120) (allowed (avc ∷ []) (codes "h264") 2266 1488))
stream_fps_limit-allowed_example =
    stream_fps_limit-allowed 120 (avc ∷ []) (codes "h264") 2266 1488 (omega arith) (omega arith)

without_array_lem_example :
    ((find_array hello_text (codes "videoCaps") ≡ none)
      × (without_array hello_text (codes "videoCaps") ≡ hello_text))
    ⊎ ((l : Located) × (find_array hello_text (codes "videoCaps") ≡ some l)
        × (hello_text ≡ l.before ++ (l.array ++ l.after))
        × (without_array hello_text (codes "videoCaps") ≡ l.before ++ (b'[' ∷ b']' ∷ l.after)))
without_array_lem_example = without_array_lem hello_text (codes "videoCaps")

abbrev twelve : Numeral
twelve = record { first = b'1'; others = b'2' ∷ []; are_number = (refl, (refl, tt)) }

abbrev three_fields : List NumberField
three_fields =
    record { key = codes "x"; first = b'1'; others = [] }
    ∷ record { key = codes "y"; first = b'2'; others = b'.' ∷ b'5' ∷ [] }
    ∷ []

new_name : (t : ControlType) → t ≢ ControlType.unknown → codes "caps" ≢ wire_name t
new_name ControlType.unknown h = absurd (h refl)
new_name _ h = λ e. ground arith
