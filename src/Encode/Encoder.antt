-- ===== src/Encode/Encoder.antt =====
-- src/encode/H264Encoder.h and H264Encoder.cpp: what the encoder hands to the MFT and takes from it.
-- The MFT is a parameter, and so is which of its events arrive while a call waits.
pub mod Inside
pub mod Settings
pub mod Rounds
pub mod Queue
pub mod Configure
use opendisplay_win.Common.{
  ℕ, zero, suc, ◌+◌, ◌-◌, ltb, leb, ◌==◌, if◌then◌else◌, Bool, true, false, not, ◌&&◌, ◌||◌, Option,
  none, some, List, [], ◌∷◌, ◌++◌, Bytes, length,
}
use opendisplay_win.Encode.AnnexB.{
  NalUnit, SpsPpsCache, nal_type_idr_slice, scan_start_codes, build_access_unit,
  ensure_parameter_sets, has_type,
}

-- The events that AsyncEventQueue hands on.
pub data MftEvent : Type 0 where
  have_output need_input other_event : MftEvent

-- What ProcessOutput gives: nothing, a sample that cannot be read, or the bytes of an access unit,
-- here with the picture that it shows.
pub data Output (P : Type 0) : Type 0 where
  no_output unreadable : Output P
  sample : Bytes → P → Output P

-- A Media Foundation transform that encodes pictures of `P`.
pub record Mft (P : Type 0) : Type 1 where
  pub State : Type 0
  pub process_input : P → State → Bool × State
  pub process_output : State → Output P × State
  pub force_key_frame : State → State
  pub flush : State → Bool × State
  pub start_of_stream : State → State
  pub ready : State → ℕ

-- The picture is not a field of the source's EncodedFrame: it is what the bytes show.
pub record EncodedFrame (P : Type 0) : Type 0 where
  pub annex_b : Bytes
  pub is_key_frame : Bool
  pub picture : P

-- The events that arrive while a call drains the queue, and while it waits: for room, for the
-- request of an input, and for the access unit of its own input.
pub record Arrivals : Type 0 where
  pub drained : List MftEvent
  pub for_room : List MftEvent
  pub for_input : List MftEvent
  pub grace : List MftEvent

abbrev pub max_in_flight : ℕ
max_in_flight = 2

abbrev pub is_nil : {A : Type 0} → List A → Bool
is_nil [] = true
is_nil (x ∷ xs) = false

module _ {P : Type 0} (F : Mft P) where
  -- `H264Encoder::Impl`, the parts that a call changes, and the frames of the call, `out`.
  pub record Impl : Type 0 where
    pub mft : F.State
    pub configured : Bool
    pub allow_hardware : Bool
    pub is_async : Bool
    pub in_flight : ℕ
    pub pending_need_input : Bool
    pub async_timed_out : Bool
    pub last_async_timed_out : Bool
    pub consecutive_async_timeouts : ℕ
    pub force_key_frame : Bool
    pub sps_pps_cache : SpsPpsCache
    pub out : List (EncodedFrame P)

  unfoldable pub extract_frame : Bytes → P → Impl → Impl
  extract_frame data' p e =
      let nals = scan_start_codes data' in
      let (cache, fixed) = ensure_parameter_sets e.sps_pps_cache nals in
      let frame : EncodedFrame P = record {
        annex_b = build_access_unit fixed;
        is_key_frame = has_type nal_type_idr_slice fixed;
        picture = p;
      } in
      if is_nil nals then e else record e { sps_pps_cache = cache; out = e.out ++ frame ∷ [] }

  -- Whether there was an output, whose frame is taken if it has one.
  abbrev pub take_output : Output P → Impl → Bool × Impl
  take_output no_output e = (false, e)
  take_output unreadable e = (true, e)
  take_output (sample data' p) e = (true, extract_frame data' p e)

  unfoldable pub process_output_once : Impl → Bool × Impl
  process_output_once e =
      let (o, m) = F.process_output e.mft in take_output o (record e { mft = m })

  unfoldable pub handle_async_event : MftEvent → Impl → Impl
  handle_async_event have_output e =
      let (took, e') = process_output_once e in
      if took && ltb 0 e'.in_flight then record e' { in_flight = e'.in_flight - 1 } else e'
  handle_async_event need_input e = record e { pending_need_input = true }
  handle_async_event other_event e = e

  -- The events are those that come before the time is up.
  unfoldable pub wait_async : (Impl → Bool) → List MftEvent → Impl → Bool × Impl
  wait_async done [] e = (done e, e)
  wait_async done (event ∷ events) e =
      let rest = wait_async done events (handle_async_event event e) in
      if done e then (true, e) else rest

  unfoldable pub drain_available_async : List MftEvent → Impl → Impl
  drain_available_async [] e = e
  drain_available_async (event ∷ events) e =
      drain_available_async events (handle_async_event event e)

  unfoldable pub drain_rounds : ℕ → Impl → Impl
  drain_rounds zero e = e
  drain_rounds (suc n) e =
      let (took, e') = process_output_once e in
      let rest = drain_rounds n e' in if took then rest else e'

  -- The rounds are as many as the MFT has outputs, and the one that finds none.
  unfoldable pub drain_sync : Impl → Impl
  drain_sync e = drain_rounds (suc (F.ready e.mft)) e

  -- The input, and the short wait for its access unit.
  unfoldable pub submit : P → List MftEvent → Impl → Impl
  submit p grace e =
      let (ok, m) = F.process_input p e.mft in
      let e' = record e { mft = m; pending_need_input = false } in
      let before = length e.out in
      let waited =
        wait_async (λ s. ltb before (length s.out)) grace
          (record e' { in_flight = e'.in_flight + 1 }) in
      if ok then waited.1 else e'

  unfoldable pub await_input : P → Arrivals → Impl → Impl
  await_input p a e =
      let (asked, e') = wait_async (λ s. s.pending_need_input) a.for_input e in
      if asked then submit p a.grace e' else record e' { async_timed_out = true }

  unfoldable pub pump_async : P → Arrivals → Impl → Impl
  pump_async p a e =
      let (room, e') =
        wait_async (λ s. ltb s.in_flight max_in_flight) a.for_room
          (drain_available_async a.drained e) in
      if room then await_input p a e' else record e' { async_timed_out = true }

  -- The count of the calls, one after the other, that timed out.
  unfoldable pub note_timeout : Impl → Impl
  note_timeout e =
      if e.async_timed_out
      then record e {
        last_async_timed_out = true;
        consecutive_async_timeouts = e.consecutive_async_timeouts + 1;
      }
      else record e { consecutive_async_timeouts = 0 }

  unfoldable pub encode_sync : P → Impl → Impl
  encode_sync p e =
      let (ok, m) = F.process_input p e.mft in
      let e' = record e { mft = m } in
      let drained = drain_sync e' in
      record (if ok then drained else e') { consecutive_async_timeouts = 0 }

  -- `forceKeyFrame.exchange(false)`
  unfoldable pub forced : Impl → Impl
  forced e =
      if e.force_key_frame
      then record e { mft = F.force_key_frame e.mft; force_key_frame = false }
      else e

  -- Whether the buffer is large enough and a sample can be made of it is `sample_made`.
  unfoldable pub encode_nv12 : P → Bool → Arrivals → Impl → Impl
  encode_nv12 p sample_made a before =
      let e = record before { last_async_timed_out = false; out = [] } in
      if e.configured && sample_made
      then (if e.is_async
          then note_timeout (pump_async p a (record (forced e) { async_timed_out = false }))
          else encode_sync p (forced e))
      else e

  unfoldable pub request_key_frame : Impl → Impl
  request_key_frame e = record e { force_key_frame = true }

  -- FLUSH, and START_OF_STREAM after it.
  unfoldable pub restart : Impl → Bool × Impl
  restart e =
      let (ok, m) = F.flush e.mft in
      (ok, record e { mft = F.start_of_stream m; in_flight = 0; pending_need_input = false })

  unfoldable pub flush_now : List MftEvent → List MftEvent → Impl → Bool × Impl
  flush_now drained after e =
      let (ok, e') =
        restart (if e.is_async then drain_available_async drained e else drain_sync e) in
      let waited = (wait_async (λ s. s.pending_need_input) after e').1 in
      (ok, request_key_frame (if e'.is_async then waited else e'))

  -- Whether FLUSH was accepted. `out` is what was discarded.
  unfoldable pub flush_discard : List MftEvent → List MftEvent → Impl → Bool × Impl
  flush_discard drained after before =
      let e = record before { out = [] } in
      let now = flush_now drained after e in if e.configured then now else (true, e)

  unfoldable pub collect_pending : List MftEvent → Impl → Impl
  collect_pending events before =
      let e = record before { out = [] } in
      if e.configured && e.is_async then drain_available_async events e else e
