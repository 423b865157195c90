-- ===== src/App/Pause/Runs.antt =====
-- Runs of a pause, with a transform that is a queue of pictures.
use opendisplay_win.Common.{
  List, Bool, true, false, none, some, [], ◌∷◌, All, ◌≡◌, refl, sym, subst,
}
use opendisplay_win.App.Signals.{
  pause_reason_now, lock_screen, no_pause, secure, locked, pause_hides_desktop,
}
use opendisplay_win.App.Pause.{
  Picture, desktop, black, background, flush_for_blank, render_pause_frame, hide_now,
  render_pause_overlay, paused_pass, follow_reason, keep_alive, encode_overlay, drop_early,
  still_paused, from_key, Reads, Session, enter_pause, head_of_pass, access_lost,
}
use opendisplay_win.App.Pause.Hidden.{IsBlank, IsBuild, configure-IsBuild}
use opendisplay_win.App.Pause.Blank.{IsHiding, paused_passes-IsBlank}
use opendisplay_win.App.Pause.Entry.{head_of_pass-IsBlank, access_lost-IsBlank}
use opendisplay_win.App.Pause.Loop.{session_pass, Capture, Pass, frame_captured, session_passes}
use opendisplay_win.App.Pause.Locked.{session_passes-IsBlank}
use opendisplay_win.Encode.Encoder.{
  EncodedFrame, extract_frame, process_output_once, handle_async_event, wait_async,
  drain_available_async, submit, await_input, pump_async, note_timeout, forced, encode_nv12,
  request_key_frame, restart, flush_now, flush_discard, collect_pending, have_output, need_input,
  Impl,
}
use opendisplay_win.Encode.AnnexB.{
  scan_start_codes, find_markers, collect_units, ensure_parameter_sets, prepend_cached, remember,
  before_idr,
}
use opendisplay_win.Encode.Encoder.Configure.{Bound, configure}
use opendisplay_win.Encode.Encoder.Queue.{queue, queue-IsMft, one_held}

-- A rebuild makes a new encoder, in software.
abbrev new_queue : Bound (queue Picture)
new_queue = record {
  transform = black ∷ [];
  async_events = true;
  in_flight = 1;
  pending_need_input = true;
  async_timed_out = false;
  sps_pps_cache = record { sps = none; pps = none };
}

abbrev new_build : Impl (queue Picture) → Bool × Impl (queue Picture)
new_build = configure (queue Picture) none (some new_queue)

black_only : (q : Picture) → (queue-IsMft Picture).Inside q (black ∷ []) → IsBlank q
black_only q i = subst IsBlank (sym (one_held Picture black q i)) refl

-- The new queue has the black picture that tried it.
new_build-IsBuild : IsBuild (queue Picture) (queue-IsMft Picture) new_build
new_build-IsBuild =
    configure-IsBuild (queue Picture) (queue-IsMft Picture) none (some new_queue) tt
      (λ q i. black_only q i)

-- The encoder holds two pictures of the desktop.
abbrev encoder : Impl (queue Picture)
encoder = record {
  mft = desktop ∷ desktop ∷ [];
  configured = true;
  allow_hardware = true;
  is_async = true;
  in_flight = 2;
  pending_need_input = true;
  async_timed_out = false;
  last_async_timed_out = false;
  consecutive_async_timeouts = 0;
  force_key_frame = false;
  sps_pps_cache = record { sps = none; pps = none };
  out = [];
}

abbrev streaming : Session (queue Picture)
streaming = record {
  paused = false;
  from_secure = false;
  cursor_paused = false;
  frame_pending = true;
  tail_pending = false;
  reason = no_pause;
  base = false;
  nv12 = none;
  captured = true;
  hides = false;
  drop_until_key = false;
  encodes_due = 0;
  last_resume_try = none;
  flags = record { locked_flag = true; display_off = false };
  encoder = encoder;
}

abbrev reads : Reads
reads = record {
  desk = secure;
  wts = locked;
  consent = false;
  wts_again = locked;
  consent_again = false;
  entry_flag = true;
  entry_desk = secure;
  entry_wts = locked;
  now = 0;
  last_send = 0;
  flush_drained = [];
  flush_after = need_input ∷ [];
  blank_drained = have_output ∷ [];
  blank_after = need_input ∷ [];
  arrivals = record {
    drained = [];
    for_room = [];
    for_input = [];
    grace = have_output ∷ need_input ∷ [];
  };
  sample_made = true;
  snapshot = true;
  fits = true;
  padded = true;
  drawn = false;
}

abbrev accepts : (m : (queue Picture).State) → ((queue Picture).flush m).0 ≡ true
accepts m = refl

abbrev Hiding : Session (queue Picture) → Type 0
Hiding t =
    IsHiding (queue Picture) (queue-IsMft Picture) accepts new_build new_build-IsBuild
      (reads ∷ reads ∷ []) t

paused_passes-IsBlank_example :
    Hiding (enter_pause (queue Picture) reads lock_screen false streaming)
unfolding pause_hides_desktop
paused_passes-IsBlank_example =
    paused_passes-IsBlank (queue Picture) (queue-IsMft Picture) accepts new_build new_build-IsBuild
      reads lock_screen false (reads ∷ reads ∷ []) streaming refl

head_of_pass-IsBlank_example : Hiding (head_of_pass (queue Picture) reads streaming)
head_of_pass-IsBlank_example =
    head_of_pass-IsBlank (queue Picture) (queue-IsMft Picture) accepts new_build new_build-IsBuild
      reads (reads ∷ reads ∷ []) streaming refl refl refl

access_lost-IsBlank_example :
    (t : Session (queue Picture)) × (access_lost (queue Picture) reads streaming ≡ some t)
    × Hiding t
access_lost-IsBlank_example =
    access_lost-IsBlank (queue Picture) (queue-IsMft Picture) accepts new_build new_build-IsBuild
      reads (reads ∷ reads ∷ []) streaming refl

-- Capture goes on, if it is asked to.
abbrev going_on : Capture (queue Picture)
going_on = record {
  lost_access = false;
  changed = true;
  slot_open = true;
  keepalive_due = true;
  tail_due = false;
  supply = frame_captured;
  hardware = none;
  software = some new_queue;
}

abbrev pass : Pass (queue Picture)
pass = record { head = reads; body = reads; capture = going_on }

session_passes-IsBlank_example :
    All
      (λ f. IsBlank f.picture)
      (session_passes (queue Picture) (pass ∷ pass ∷ []) new_build streaming)
session_passes-IsBlank_example =
    session_passes-IsBlank (queue Picture) (queue-IsMft Picture) accepts new_build new_build-IsBuild
      (pass ∷ pass ∷ []) streaming refl refl (refl, refl, (refl, refl, tt))

abbrev pictures : List (EncodedFrame Picture) → List Picture
pictures [] = []
pictures (f ∷ fs) = f.picture ∷ pictures fs

-- The card could not be drawn: the background alone is sent.
sent_run :
    pictures (session_passes (queue Picture) (pass ∷ pass ∷ []) new_build streaming)
    ≡ background ∷ []
unfolding session_passes session_pass head_of_pass enter_pause flush_for_blank render_pause_frame
    hide_now render_pause_overlay paused_pass follow_reason keep_alive encode_overlay drop_early
    still_paused from_key pause_reason_now pause_hides_desktop extract_frame process_output_once
    handle_async_event wait_async drain_available_async submit await_input pump_async note_timeout
    forced encode_nv12 request_key_frame restart flush_now flush_discard collect_pending
    scan_start_codes find_markers collect_units ensure_parameter_sets prepend_cached remember
    before_idr
sent_run = refl
