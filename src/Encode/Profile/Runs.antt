-- ===== src/Encode/Profile/Runs.antt =====
-- The rate theorems at concrete settings, and runs.
use opendisplay_win.Common.{true, ◌≡◌, refl, arith}
use opendisplay_win.Encode.Profile.{
  dynamic, speed, EncodeKnobs, resolve_encode_knobs, step_dynamic_peak,
}
use opendisplay_win.Encode.Profile.Rates.{
  IsInRange, Keeps, steps, resolve_encode_knobs-IsInRange, step_dynamic_peak-Keeps,
  steps_reach_floor,
}

abbrev usb_speed : EncodeKnobs
usb_speed = resolve_encode_knobs true dynamic speed

usb_speed-IsInRange : IsInRange usb_speed
usb_speed-IsInRange = (resolve_encode_knobs-IsInRange true dynamic speed).0

step_dynamic_peak-Keeps_example : Keeps usb_speed (step_dynamic_peak usb_speed true).0
step_dynamic_peak-Keeps_example = step_dynamic_peak-Keeps usb_speed true usb_speed-IsInRange

steps_reach_floor_example : (steps true 35 usb_speed).peak_bitrate_bps ≡ usb_speed.floor_peak_bps
unfolding resolve_encode_knobs
steps_reach_floor_example = steps_reach_floor 35 usb_speed usb_speed-IsInRange (omega arith)

one_step_down : (step_dynamic_peak usb_speed true).0.peak_bitrate_bps ≡ 42_500_000
unfolding step_dynamic_peak resolve_encode_knobs
one_step_down = refl
