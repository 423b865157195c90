-- ===== src/Encode/Profile.antt =====
-- src/app/EncodeProfile.h: the encode presets, and the bit rate under backpressure; with the two
-- enumerations and the mode names of src/app/Config.h. uint32_t arithmetic is modulo 2 ^ 32.
pub mod Rates
mod Runs
use opendisplay_win.Common.{
  ℕ, ◌+◌, ◌-◌, ◌*◌, ◌/◌, ◌%◌, ◌^◌, ltb, ◌==◌, if◌then◌else◌, Bool, true, false, not, ◌&&◌, Bytes,
  codes, equal,
}
use Prim.Native.Nat.{min, max}

pub data EncodeMode : Type 0 where
  dynamic fixed : EncodeMode

pub data EncodePreset : Type 0 where
  speed balanced quality : EncodePreset

unfoldable pub parse_encode_mode : Bytes → EncodeMode
unfolding equal
parse_encode_mode s = if equal s (codes "fixed") then fixed else dynamic

unfoldable pub parse_encode_preset : Bytes → EncodePreset
unfolding equal
parse_encode_preset s =
    if equal s (codes "balanced")
    then balanced
    else if equal s (codes "quality")
    then quality
    else speed

unfoldable pub encode_mode_name : EncodeMode → Bytes
encode_mode_name fixed = codes "fixed"
encode_mode_name dynamic = codes "dynamic"

unfoldable pub encode_preset_name : EncodePreset → Bytes
encode_preset_name balanced = codes "balanced"
encode_preset_name quality = codes "quality"
encode_preset_name speed = codes "speed"

pub record EncodeKnobs : Type 0 where
  pub peak_bitrate_bps : ℕ
  pub mean_bitrate_bps : ℕ
  pub mean_pct : ℕ
  pub quality_vs_speed : ℕ
  pub gop_seconds : ℕ
  pub ceiling_peak_bps : ℕ
  pub floor_peak_bps : ℕ
  pub use_quality_rc : Bool
  pub rc_quality : ℕ

-- The member initialisers.
abbrev pub default_knobs : EncodeKnobs
default_knobs = record {
  peak_bitrate_bps = 25_000_000;
  mean_bitrate_bps = 15_000_000;
  mean_pct = 60;
  quality_vs_speed = 0;
  gop_seconds = 1;
  ceiling_peak_bps = 25_000_000;
  floor_peak_bps = 8_000_000;
  use_quality_rc = false;
  rc_quality = 0;
}

-- The transport's ceiling and floor.
transport_range : Bool → EncodeKnobs → EncodeKnobs
transport_range true k = record k { ceiling_peak_bps = 50_000_000; floor_peak_bps = 15_000_000 }
transport_range false k = record k { ceiling_peak_bps = 25_000_000; floor_peak_bps = 6_000_000 }

row : ℕ → ℕ → ℕ → EncodeKnobs → EncodeKnobs
row peak qvs gop k = record k {
  peak_bitrate_bps = peak;
  quality_vs_speed = qvs;
  gop_seconds = gop;
  mean_pct = 60;
}

-- The two `switch` statements over the preset.
preset_row : Bool → EncodePreset → EncodeKnobs → EncodeKnobs
preset_row true balanced = row 35_000_000 40 2
preset_row true quality = row 35_000_000 70 2
preset_row true speed = row 50_000_000 0 1
preset_row false balanced = row 18_000_000 40 2
preset_row false quality = row 18_000_000 70 2
preset_row false speed = row 25_000_000 0 1

-- peakBitrateBps * meanPct / 100 in uint32_t.
abbrev pub mean_of : ℕ → ℕ → ℕ
mean_of peak pct = peak * pct % 2 ^ 32 / 100

full_peak : EncodeMode → EncodeKnobs → EncodeKnobs
full_peak dynamic k = record k { peak_bitrate_bps = k.ceiling_peak_bps }
full_peak fixed k = k

abbrev set_mean : EncodeKnobs → EncodeKnobs
set_mean k = record k { mean_bitrate_bps = mean_of k.peak_bitrate_bps k.mean_pct }

unfoldable pub resolve_encode_knobs : Bool → EncodeMode → EncodePreset → EncodeKnobs
unfolding transport_range row preset_row full_peak
resolve_encode_knobs usb mode preset =
    set_mean (full_peak mode (preset_row usb preset (transport_range usb default_knobs)))

-- The peak after a congested interval: `before` is the peak on entry.
peak_down : ℕ → ℕ → ℕ
peak_down before floor =
    let next = before * 85 / 100 % 2 ^ 32 in
    let small = ltb ((before + 2 ^ 32 - next) % 2 ^ 32) 1_000_000 && ltb floor before in
    max (if small then (before + 2 ^ 32 - 1_000_000) % 2 ^ 32 else next) floor

peak_up : ℕ → ℕ → ℕ
peak_up before ceiling =
    let next = before * 110 / 100 % 2 ^ 32 in
    let small = ltb ((next + 2 ^ 32 - before) % 2 ^ 32) 1_000_000 && ltb before ceiling in
    min (if small then (before + 1_000_000) % 2 ^ 32 else next) ceiling

-- The new knobs, and whether the peak changed.
unfoldable pub step_dynamic_peak : EncodeKnobs → Bool → EncodeKnobs × Bool
unfolding peak_down peak_up
step_dynamic_peak k congested =
    let before = k.peak_bitrate_bps in
    let peak =
      if congested then peak_down before k.floor_peak_bps else peak_up before k.ceiling_peak_bps in
    (set_mean (record k { peak_bitrate_bps = peak }), not (peak == before))
