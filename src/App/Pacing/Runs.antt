-- ===== src/App/Pacing/Runs.antt =====
-- Three images, each in its slot.
use opendisplay_win.Common.{◌+◌, ◌*◌, ◌/◌, ◌≤◌, true, false, [], ◌∷◌, refl}
use opendisplay_win.App.Pacing.{
  Pace, Tick, do_encode, slot_after, encoded, see, pace_pass, pace_passes,
}
use opendisplay_win.App.Pacing.Rate.{pace_passes_apart}

abbrev idle : Pace
idle = record { next_slot = 0; tail_at = 0; frame_pending = false; tail_pending = false }

abbrev first : Tick
first = record { now = 100; changed = true; keepalive_due = false }

abbrev second : Tick
second = record { now = 117; changed = true; keepalive_due = false }

abbrev third : Tick
third = record { now = 140; changed = true; keepalive_due = false }

pace_passes_apart_example :
    100 + (pace_passes 16 (second ∷ []) (pace_pass 16 first idle).1).0 * 16 ≤ 140 + 16 + 16 / 4
unfolding pace_passes pace_pass do_encode encoded slot_after see
pace_passes_apart_example = pace_passes_apart 16 first third (second ∷ []) idle refl refl
