-- ===== src/Encode/Profile/Rates.antt =====
-- The bit rates stay in the transport's range, and reach its ends.
use opendisplay_win.Common.{
  ℕ, zero, suc, ◌+◌, ◌*◌, ◌/◌, ◌≤◌, Bool, true, false, ◌≡◌, ◌≢◌, ◌↔◌, ◌⊎◌, refl, ◌∙◌, arith,
}
use opendisplay_win.Encode.Profile.{
  EncodeMode, dynamic, fixed, EncodePreset, speed, balanced, quality, EncodeKnobs,
  parse_encode_mode, parse_encode_preset, encode_mode_name, encode_preset_name,
  resolve_encode_knobs, peak_down, peak_up, step_dynamic_peak,
}

-- What every session starts from and keeps. The products fit 32 bits, so the mean is exact.
pub record IsInRange (k : EncodeKnobs) : Type 0 where
  pub floor_le : k.floor_peak_bps ≤ k.peak_bitrate_bps
  pub le_ceiling : k.peak_bitrate_bps ≤ k.ceiling_peak_bps
  pub ceiling_le : k.ceiling_peak_bps ≤ 50_000_000
  pub le_floor : 6_000_000 ≤ k.floor_peak_bps
  pub pct : k.mean_pct ≡ 60
  pub mean : k.mean_bitrate_bps ≡ k.peak_bitrate_bps * 60 / 100

-- Every transport, mode and preset starts in its transport's range; Dynamic starts at the ceiling.
pub resolve_encode_knobs-IsInRange :
    (usb : Bool) (mode : EncodeMode) (preset : EncodePreset)
    → IsInRange (resolve_encode_knobs usb mode preset)
      × ((resolve_encode_knobs usb dynamic preset).peak_bitrate_bps
          ≡ (resolve_encode_knobs usb dynamic preset).ceiling_peak_bps)
unfolding resolve_encode_knobs
resolve_encode_knobs-IsInRange true dynamic speed = ground arith
resolve_encode_knobs-IsInRange _ _ _ = ground arith

module _ (before bound : ℕ) where
  peak_down_bounds :
      bound ≤ before
      → before ≤ 50_000_000
      → 6_000_000 ≤ bound
      → (bound ≤ peak_down before bound)
        × (peak_down before bound ≤ before)
        × ((peak_down before bound + 1_000_000 ≤ before) ⊎ (peak_down before bound ≡ bound))
  unfolding peak_down
  peak_down_bounds h k l = ground arith

  peak_up_bounds :
      before ≤ bound
      → bound ≤ 50_000_000
      → (peak_up before bound ≤ bound)
        × (before ≤ peak_up before bound)
        × ((before + 1_000_000 ≤ peak_up before bound) ⊎ (peak_up before bound ≡ bound))
  unfolding peak_up
  peak_up_bounds h k = ground arith

-- A step keeps the range, and the knobs that must not drift in a session.
pub record Keeps (k k' : EncodeKnobs) : Type 0 where
  pub in_range : IsInRange k'
  pub same_quality_vs_speed : k'.quality_vs_speed ≡ k.quality_vs_speed
  pub same_gop : k'.gop_seconds ≡ k.gop_seconds
  pub same_pct : k'.mean_pct ≡ k.mean_pct
  pub same_ceiling : k'.ceiling_peak_bps ≡ k.ceiling_peak_bps
  pub same_floor : k'.floor_peak_bps ≡ k.floor_peak_bps

-- From knobs in range, a step leaves the peak between floor and ceiling and the mean at 60 % of it, and does not touch
-- quality-versus-speed, GOP, percentage, floor or ceiling.
pub step_dynamic_peak-Keeps :
    (k : EncodeKnobs) (congested : Bool) → IsInRange k → Keeps k (step_dynamic_peak k congested).0
unfolding step_dynamic_peak
step_dynamic_peak-Keeps k true h =
    let b =
      peak_down_bounds k.peak_bitrate_bps k.floor_peak_bps h.floor_le (omega arith) h.le_floor in
    ground arith
step_dynamic_peak-Keeps k false h =
    let b = peak_up_bounds k.peak_bitrate_bps k.ceiling_peak_bps h.le_ceiling h.ceiling_le in
    ground arith

-- 1 Mbps towards the bound at least, or at the bound.
abbrev pub Progress : Bool → EncodeKnobs → ℕ → Type 0
Progress true k peak = (peak + 1_000_000 ≤ k.peak_bitrate_bps) ⊎ (peak ≡ k.floor_peak_bps)
Progress false k peak = (k.peak_bitrate_bps + 1_000_000 ≤ peak) ⊎ (peak ≡ k.ceiling_peak_bps)

-- From knobs in range, the answer of a step is whether the peak changed; a congested step lowers it by 1 Mbps at least
-- or to the floor, a healthy one raises it by 1 Mbps at least or to the ceiling.
pub step_dynamic_peak-Progress :
    (k : EncodeKnobs) (congested : Bool)
    → IsInRange k
    → (((step_dynamic_peak k congested).1 ≡ true)
        ↔ ((step_dynamic_peak k congested).0.peak_bitrate_bps ≢ k.peak_bitrate_bps))
      × Progress congested k (step_dynamic_peak k congested).0.peak_bitrate_bps
unfolding step_dynamic_peak
step_dynamic_peak-Progress k true h =
    let b =
      peak_down_bounds k.peak_bitrate_bps k.floor_peak_bps h.floor_le (omega arith) h.le_floor in
    (ground arith, b.2)
step_dynamic_peak-Progress k false h =
    let b = peak_up_bounds k.peak_bitrate_bps k.ceiling_peak_bps h.le_ceiling h.ceiling_le in
    (ground arith, b.2)

-- `n` intervals in a row with the same verdict.
pub steps : Bool → ℕ → EncodeKnobs → EncodeKnobs
steps congested zero k = k
steps congested (suc n) k = steps congested n (step_dynamic_peak k congested).0

-- From knobs in range, under lasting congestion the peak comes down to the floor, within as many steps as the distance
-- has started megabits.
pub steps_reach_floor :
    (n : ℕ) (k : EncodeKnobs)
    → IsInRange k
    → k.peak_bitrate_bps ≤ k.floor_peak_bps + n * 1_000_000
    → (steps true n k).peak_bitrate_bps ≡ k.floor_peak_bps
unfolding steps
steps_reach_floor zero k h far = ground arith
steps_reach_floor (suc n) k h far =
    let down = step_dynamic_peak-Keeps k true h in
    let p = step_dynamic_peak-Progress k true h in
    steps_reach_floor n (step_dynamic_peak k true).0 down.in_range
      (ground (arith, down.same_floor, p.1, down.in_range.floor_le))
    ∙ down.same_floor

-- From knobs in range, on a link that stays healthy the peak climbs back to the ceiling, as fast.
pub steps_reach_ceiling :
    (n : ℕ) (k : EncodeKnobs)
    → IsInRange k
    → k.ceiling_peak_bps ≤ k.peak_bitrate_bps + n * 1_000_000
    → (steps false n k).peak_bitrate_bps ≡ k.ceiling_peak_bps
unfolding steps
steps_reach_ceiling zero k h far = ground arith
steps_reach_ceiling (suc n) k h far =
    let up = step_dynamic_peak-Keeps k false h in
    let p = step_dynamic_peak-Progress k false h in
    steps_reach_ceiling n (step_dynamic_peak k false).0 up.in_range
      (ground (arith, up.same_ceiling, p.1, up.in_range.le_ceiling))
    ∙ up.same_ceiling

-- The names written to the configuration parse back to the mode and the preset.
pub parse-name :
    (mode : EncodeMode) (preset : EncodePreset)
    → (parse_encode_mode (encode_mode_name mode) ≡ mode)
      × (parse_encode_preset (encode_preset_name preset) ≡ preset)
unfolding parse_encode_mode parse_encode_preset encode_mode_name encode_preset_name
parse-name dynamic speed = (refl, refl)
parse-name dynamic balanced = (refl, refl)
parse-name dynamic quality = (refl, refl)
parse-name fixed speed = (refl, refl)
parse-name fixed balanced = (refl, refl)
parse-name fixed quality = (refl, refl)
