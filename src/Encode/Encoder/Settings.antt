-- ===== src/Encode/Encoder/Settings.antt =====
-- src/encode/H264Encoder.cpp: whether the encoder is configured is what no frame and no flush changes.
use opendisplay_win.Common.{
  ℕ, zero, suc, ltb, if◌then◌else◌, Bool, true, false, ◌&&◌, List, [], ◌≡◌,
}
use opendisplay_win.Encode.Encoder.{
  MftEvent, have_output, need_input, other_event, Output, no_output, unreadable, sample, Mft,
  Arrivals, max_in_flight, Impl, extract_frame, take_output, process_output_once,
  handle_async_event, wait_async, drain_available_async, drain_rounds, drain_sync, submit,
  await_input, pump_async, note_timeout, encode_sync, forced, encode_nv12, request_key_frame,
  restart, flush_now, flush_discard, collect_pending,
}
use opendisplay_win.Encode.Encoder.Inside.{wait_keeps, drain_keeps, if_keeps, pair_keeps}

module _ {P : Type 0} (F : Mft P) (c : Bool) where
  abbrev pub HasSetting : Impl F → Type 0
  HasSetting e = e.configured ≡ c

  take-HasSetting : (o : Output P) (e : Impl F) → HasSetting e → HasSetting (take_output F o e).1
  unfolding extract_frame
  take-HasSetting no_output e h = h
  take-HasSetting unreadable e h = h
  take-HasSetting (sample data' p) e h = if_keeps F HasSetting _ _ _ h h

  once-HasSetting : (e : Impl F) → HasSetting e → HasSetting (process_output_once F e).1
  unfolding process_output_once
  once-HasSetting e h =
      take-HasSetting (F.process_output e.mft).0 (record e { mft = (F.process_output e.mft).1 }) h

  handle-HasSetting :
      (event : MftEvent) (e : Impl F) → HasSetting e → HasSetting (handle_async_event F event e)
  unfolding handle_async_event
  handle-HasSetting have_output e h =
      if_keeps F HasSetting
        ((process_output_once F e).0 && ltb 0 (process_output_once F e).1.in_flight) _ _
        (once-HasSetting e h) (once-HasSetting e h)
  handle-HasSetting need_input e h = h
  handle-HasSetting other_event e h = h

  rounds-HasSetting : (n : ℕ) (e : Impl F) → HasSetting e → HasSetting (drain_rounds F n e)
  unfolding drain_rounds
  rounds-HasSetting zero e h = h
  rounds-HasSetting (suc n) e h =
      if_keeps F HasSetting (process_output_once F e).0 _ _
        (rounds-HasSetting n (process_output_once F e).1 (once-HasSetting e h))
        (once-HasSetting e h)

  wait-HasSetting :
      (done : Impl F → Bool) (events : List MftEvent) (e : Impl F)
      → HasSetting e
      → HasSetting (wait_async F done events e).1
  wait-HasSetting = wait_keeps F HasSetting handle-HasSetting

  submit-HasSetting :
      (p : P) (grace : List MftEvent) (e : Impl F) → HasSetting e → HasSetting (submit F p grace e)
  unfolding submit
  submit-HasSetting p grace e h =
      if_keeps F HasSetting (F.process_input p e.mft).0 _ _ (wait-HasSetting _ grace _ h) h

  await-HasSetting :
      (p : P) (a : Arrivals) (e : Impl F) → HasSetting e → HasSetting (await_input F p a e)
  unfolding await_input
  await-HasSetting p a e h =
      let w = wait-HasSetting (λ s. s.pending_need_input) a.for_input e h in
      if_keeps F HasSetting (wait_async F (λ s. s.pending_need_input) a.for_input e).0 _ _
        (submit-HasSetting p a.grace (wait_async F (λ s. s.pending_need_input) a.for_input e).1 w) w

  pump-HasSetting :
      (p : P) (a : Arrivals) (e : Impl F) → HasSetting e → HasSetting (pump_async F p a e)
  unfolding pump_async
  pump-HasSetting p a e h =
      let d = drain_keeps F HasSetting handle-HasSetting a.drained e h in
      let w = wait-HasSetting (λ s. ltb s.in_flight max_in_flight) a.for_room _ d in
      if_keeps F HasSetting
        (wait_async F (λ s. ltb s.in_flight max_in_flight) a.for_room
          (drain_available_async F a.drained e)).0
        _ _ (await-HasSetting p a _ w) w

  sync-HasSetting : (p : P) (e : Impl F) → HasSetting e → HasSetting (encode_sync F p e)
  unfolding encode_sync drain_sync
  sync-HasSetting p e h =
      if_keeps F HasSetting (F.process_input p e.mft).0 _ _
        (rounds-HasSetting _ (record e { mft = (F.process_input p e.mft).1 }) h) h

  pub encode_nv12-HasSetting :
      (p : P) (sample_made : Bool) (a : Arrivals) (e : Impl F)
      → HasSetting e
      → HasSetting (encode_nv12 F p sample_made a e)
  unfolding encode_nv12 forced note_timeout
  encode_nv12-HasSetting p sample_made a e h =
      let fresh = record e { last_async_timed_out = false; out = [] } in
      let f : HasSetting (forced F fresh) = if_keeps F HasSetting fresh.force_key_frame _ _ h h in
      let w = pump-HasSetting p a (record (forced F fresh) { async_timed_out = false }) f in
      if_keeps F HasSetting (e.configured && sample_made) _ _
        (if_keeps F HasSetting e.is_async _ _
          (if_keeps F HasSetting
            (pump_async F p a (record (forced F fresh) { async_timed_out = false })).async_timed_out
            _ _ w w)
          (sync-HasSetting p (forced F fresh) f))
        h

  pub collect_pending-HasSetting :
      (events : List MftEvent) (e : Impl F) → HasSetting e → HasSetting (collect_pending F events e)
  unfolding collect_pending
  collect_pending-HasSetting events e h =
      if_keeps F HasSetting (e.configured && e.is_async) _ _
        (drain_keeps F HasSetting handle-HasSetting events (record e { out = [] }) h) h

  pub flush_discard-HasSetting :
      (drained after : List MftEvent) (e : Impl F)
      → HasSetting e
      → HasSetting (flush_discard F drained after e).1
  unfolding flush_discard flush_now restart request_key_frame drain_sync
  flush_discard-HasSetting drained after before h =
      let e = record before { out = [] } in
      let gone = if e.is_async then drain_available_async F drained e else drain_sync F e in
      let d : HasSetting gone =
        if_keeps F HasSetting e.is_async _ _
          (drain_keeps F HasSetting handle-HasSetting drained e h) (rounds-HasSetting _ e h) in
      pair_keeps F HasSetting e.configured (flush_now F drained after e) (true, e)
        (if_keeps F HasSetting gone.is_async _ _
          (wait-HasSetting (λ s. s.pending_need_input) after (restart F gone).1 d) d)
        h
