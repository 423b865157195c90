-- ===== src/App/Frames/Runs.antt =====
-- One keyframe with its timing.
use opendisplay_win.Common.{false, some, [], ◌∷◌, pos, ◌≡◌}
use opendisplay_win.App.Frames.{prefix_annex_b_with_timing}
use opendisplay_win.App.Frames.Timing.{prefix_annex_b_with_timing_lem}
use opendisplay_win.Encode.AnnexB.{NalUnit, scan_start_codes, build_access_unit}
use opendisplay_win.Net.Protocol.Scan.{is_control_payload}

abbrev key : NalUnit
key = record { nal_type = 5; payload = 0x65 ∷ 7 ∷ [] }

prefix_annex_b_with_timing_lem_example :
    (scan_start_codes
        (prefix_annex_b_with_timing (build_access_unit (key ∷ [])) (pos 1700) (pos 1725))
      ≡ scan_start_codes (build_access_unit (key ∷ [])))
    × (is_control_payload
          (some (prefix_annex_b_with_timing (build_access_unit (key ∷ [])) (pos 1700) (pos 1725)))
        ≡ false)
prefix_annex_b_with_timing_lem_example = prefix_annex_b_with_timing_lem key [] (pos 1700) (pos 1725)
