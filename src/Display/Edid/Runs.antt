-- ===== src/Display/Edid/Runs.antt =====
-- src/display/MttVddSettings.cpp: blocks for given sizes.
use opendisplay_win.Display.Edid.{
  MttMode, Precision, cvt_rb_timing, build_mtt_edid, align16_floor, CvtTiming, round_clock, timing,
  search,
}
use opendisplay_win.Display.Edid.Checksum.{build_mtt_edid-IsBlock, IsBlock}
use opendisplay_win.Display.Edid.Decode.{build_mtt_edid-read, read_block, timings_for}
use opendisplay_win.Display.Edid.Modes.{
  landscape, floored, out_of_range, modes_or, modes_of, push, has_size, closest, push_sibling,
  mtt_modes_for_hello, mode_of,
}
use opendisplay_win.Display.Edid.Modes.Offer.{mtt_modes_for_hello-IsOffer, IsOffer}
use opendisplay_win.Common.{ℕ, ◌+◌, ◌-◌, ◌*◌, ltb, List, [], ◌∷◌, ◌≡◌, refl, arith, ◌⊎◌}

-- Exact errors, as fractions.
abbrev exact : Precision
exact = record {
  Err = ℕ × ℕ;
  err = λ q total refresh. ((q * 10000 - total * refresh) + (total * refresh - q * 10000), total);
  less = λ a b. ltb (a.0 * b.1) (b.0 * a.1);
  tiny = λ a. ltb (a.0 * 100) a.1;
}

abbrev ipad : List MttMode
ipad = record { width = 2352; height = 1632; hz = 60 } ∷ []

abbrev ipad_timing : CvtTiming
ipad_timing = timing 2352 1632 6 24884

build_mtt_edid-IsBlock_example :
    (build_mtt_edid exact ipad ≡ []) ⊎ IsBlock exact (build_mtt_edid exact ipad)
build_mtt_edid-IsBlock_example = build_mtt_edid-IsBlock exact ipad

build_mtt_edid-read_example : read_block (build_mtt_edid exact ipad) ≡ ipad_timing ∷ []
unfolding timings_for cvt_rb_timing search timing round_clock
build_mtt_edid-read_example =
    build_mtt_edid-read exact ipad (ipad_timing ∷ []) (omega arith) (omega arith)
      ((omega arith, omega arith), tt) refl

mtt_modes_for_hello-IsOffer_example :
    IsOffer 4 (mode_of (2384, 1664)) (mtt_modes_for_hello 1668 2388)
unfolding floored landscape out_of_range align16_floor
mtt_modes_for_hello-IsOffer_example = mtt_modes_for_hello-IsOffer 1668 2388

-- The sibling panel of an 11 inch tablet, and three quarters and a half of its size.
mtt_modes_for_hello_11_inch :
    mtt_modes_for_hello 2388 1668
    ≡ mode_of (2384, 1664) ∷ mode_of (2352, 1632) ∷ mode_of (1776, 1248) ∷ mode_of (1184, 832) ∷ []
unfolding mtt_modes_for_hello modes_or modes_of floored landscape out_of_range align16_floor push
    has_size closest push_sibling
mtt_modes_for_hello_11_inch = refl
