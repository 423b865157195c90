-- ===== src/Encode/Encoder/Inside.antt =====
-- src/encode/H264Encoder.cpp: which pictures the encoder holds, and which its frames show.
use opendisplay_win.Common.{
  ℕ, zero, suc, ◌-◌, ltb, if◌then◌else◌, Bool, true, false, ◌&&◌, List, [], ◌∷◌, Bytes, All,
  All-snoc, ◌≡◌, ◌⊎◌, inl, inr, refl, sym, ap, ◌∙◌, subst, arith, Bool-cases,
}
use opendisplay_win.Encode.AnnexB.{scan_start_codes}
use opendisplay_win.Encode.Encoder.{
  MftEvent, have_output, need_input, other_event, Output, no_output, unreadable, sample, Mft,
  Arrivals, max_in_flight, Impl, is_nil, extract_frame, take_output, process_output_once,
  handle_async_event, wait_async, drain_available_async, drain_rounds, drain_sync, submit,
  await_input, pump_async, note_timeout, encode_sync, forced, encode_nv12, request_key_frame,
  restart, flush_now, flush_discard, collect_pending,
}

-- What Media Foundation documents of a transform. The pictures inside are those of the inputs that
-- were not flushed; an output shows one of them, and a flush that is accepted drops them all.
pub record IsMft {P : Type 0} (F : Mft P) : Type 1 where
  pub Inside : P → F.State → Type 0
  pub after_input :
      (p q : P) (m : F.State) → Inside q (F.process_input p m).1 → (q ≡ p) ⊎ Inside q m
  pub after_output : (q : P) (m : F.State) → Inside q (F.process_output m).1 → Inside q m
  pub shown :
      (m : F.State) (data' : Bytes) (p : P) → (F.process_output m).0 ≡ sample data' p → Inside p m
  pub after_force : (q : P) (m : F.State) → Inside q (F.force_key_frame m) → Inside q m
  pub after_flush : (q : P) (m : F.State) → Inside q (F.flush m).1 → Inside q m
  pub emptied : (q : P) (m : F.State) → (F.flush m).0 ≡ true → Inside q (F.flush m).1 → ⊥
  pub after_start : (q : P) (m : F.State) → Inside q (F.start_of_stream m) → Inside q m

module _ {P : Type 0} (F : Mft P) where
  -- What every event keeps, a wait and a drain keep.
  pub wait_keeps :
      (R : Impl F → Type 0)
      → ((event : MftEvent) (e : Impl F) → R e → R (handle_async_event F event e))
      → (done : Impl F → Bool) (events : List MftEvent) (e : Impl F) → R e
      → R (wait_async F done events e).1
  unfolding wait_async
  wait_keeps R step done [] e r = r
  wait_keeps R step done (event ∷ events) e r = elim (Bool-cases (done e)) [
    | inl d ↦ rw d r
    | inr d ↦ rw d (wait_keeps R step done events (handle_async_event F event e) (step event e r))
  ]

  pub drain_keeps :
      (R : Impl F → Type 0)
      → ((event : MftEvent) (e : Impl F) → R e → R (handle_async_event F event e))
      → (events : List MftEvent) (e : Impl F) → R e
      → R (drain_available_async F events e)
  unfolding drain_available_async
  drain_keeps R step [] e r = r
  drain_keeps R step (event ∷ events) e r =
      drain_keeps R step events (handle_async_event F event e) (step event e r)

  pub if_keeps :
      (R : Impl F → Type 0) (b : Bool) (x y : Impl F) → R x → R y → R (if b then x else y)
  if_keeps R true x y h k = h
  if_keeps R false x y h k = k

  pub pair_keeps :
      (R : Impl F → Type 0) (b : Bool) (x y : Bool × Impl F)
      → R x.1
      → R y.1
      → R (if b then x else y).1
  pair_keeps R true x y h k = h
  pair_keeps R false x y h k = k

  pair_true : (b : Bool) (x y : Bool × Impl F) → b ≡ true → (if b then x else y) ≡ x
  pair_true true x y e = refl
  pair_true false x y e = cc

module _ {P : Type 0} (F : Mft P) (L : IsMft F) (Q : P → Type 0) where
  -- Every picture inside is one of `Q`.
  abbrev pub IsOnly : Impl F → Type 0
  IsOnly e = (q : P) → L.Inside q e.mft → Q q

  abbrev pub IsShown : Impl F → Type 0
  IsShown e = All (λ f. Q f.picture) e.out

  take-IsOnly : (o : Output P) (e : Impl F) → IsOnly e → IsOnly (take_output F o e).1
  unfolding extract_frame
  take-IsOnly no_output e h = h
  take-IsOnly unreadable e h = h
  take-IsOnly (sample data' p) e h = elim (Bool-cases (is_nil (scan_start_codes data'))) [
    | inl n ↦ rw n h
    | inr n ↦ rw n h
  ]

  take-IsShown :
      (o : Output P) (e : Impl F)
      → ((data' : Bytes) (p : P) → o ≡ sample data' p → Q p)
      → IsShown e
      → IsShown (take_output F o e).1
  unfolding extract_frame
  take-IsShown no_output e k h = h
  take-IsShown unreadable e k h = h
  take-IsShown (sample data' p) e k h = elim (Bool-cases (is_nil (scan_start_codes data'))) [
    | inl n ↦ rw n h
    | inr n ↦ rw n (All-snoc (λ f. Q f.picture) e.out _ h (k data' p refl))
  ]

  once-IsOnly : (e : Impl F) → IsOnly e → IsOnly (process_output_once F e).1
  unfolding process_output_once
  once-IsOnly e h =
      take-IsOnly (F.process_output e.mft).0 (record e { mft = (F.process_output e.mft).1 })
        (λ q i. h q (L.after_output q e.mft i))

  once-IsShown : (e : Impl F) → IsOnly e → IsShown e → IsShown (process_output_once F e).1
  unfolding process_output_once
  once-IsShown e h s =
      take-IsShown (F.process_output e.mft).0 (record e { mft = (F.process_output e.mft).1 })
        (λ d p o. h p (L.shown e.mft d p o)) s

  handle-IsOnly : (event : MftEvent) (e : Impl F) → IsOnly e → IsOnly (handle_async_event F event e)
  unfolding handle_async_event
  handle-IsOnly have_output e h = ground (arith, once-IsOnly e h)
  handle-IsOnly need_input e h = h
  handle-IsOnly other_event e h = h

  -- Only pictures of `Q` are inside, and only they are shown.
  abbrev pub IsClean : Impl F → Type 0
  IsClean e = IsOnly e × IsShown e

  one_less :
      (b : Bool) (e : Impl F)
      → IsClean e
      → IsClean (if b then record e { in_flight = e.in_flight - 1 } else e)
  one_less true e h = h
  one_less false e h = h

  handle-IsClean :
      (event : MftEvent) (e : Impl F) → IsClean e → IsClean (handle_async_event F event e)
  unfolding handle_async_event
  handle-IsClean have_output e (h, s) =
      one_less ((process_output_once F e).0 && ltb 0 (process_output_once F e).1.in_flight)
        (process_output_once F e).1 (once-IsOnly e h, once-IsShown e h s)
  handle-IsClean need_input e h = h
  handle-IsClean other_event e h = h

  either-IsClean : (b : Bool) (x y : Impl F) → IsClean x → IsClean y → IsClean (if b then x else y)
  either-IsClean = if_keeps F IsClean

  rounds-IsClean : (n : ℕ) (e : Impl F) → IsClean e → IsClean (drain_rounds F n e)
  unfolding drain_rounds
  rounds-IsClean zero e h = h
  rounds-IsClean (suc n) e h =
      let next : IsClean (process_output_once F e).1 =
        (once-IsOnly e h.0, once-IsShown e h.0 h.1) in
      either-IsClean (process_output_once F e).0 _ _
        (rounds-IsClean n (process_output_once F e).1 next) next

  input-IsOnly :
      (p : P) (e : Impl F) → Q p → IsOnly e → (q : P) → L.Inside q (F.process_input p e.mft).1 → Q q
  input-IsOnly p e k h q i = elim (L.after_input p q e.mft i) [
    | inl same ↦ subst Q (sym same) k
    | inr old ↦ h q old
  ]

  wait-IsClean :
      (done : Impl F → Bool) (events : List MftEvent) (e : Impl F)
      → IsClean e
      → IsClean (wait_async F done events e).1
  wait-IsClean = wait_keeps F IsClean handle-IsClean

  submit-IsClean :
      (p : P) (grace : List MftEvent) (e : Impl F) → Q p → IsClean e → IsClean (submit F p grace e)
  unfolding submit
  submit-IsClean p grace e k (h, s) =
      either-IsClean (F.process_input p e.mft).0 _ _
        (wait-IsClean _ grace _ (input-IsOnly p e k h, s)) (input-IsOnly p e k h, s)

  await-IsClean :
      (p : P) (a : Arrivals) (e : Impl F) → Q p → IsClean e → IsClean (await_input F p a e)
  unfolding await_input
  await-IsClean p a e k h =
      let w = wait-IsClean (λ s. s.pending_need_input) a.for_input e h in
      either-IsClean (wait_async F (λ s. s.pending_need_input) a.for_input e).0 _ _
        (submit-IsClean p a.grace (wait_async F (λ s. s.pending_need_input) a.for_input e).1 k w) w

  pump-IsClean :
      (p : P) (a : Arrivals) (e : Impl F) → Q p → IsClean e → IsClean (pump_async F p a e)
  unfolding pump_async
  pump-IsClean p a e k h =
      let d = drain_keeps F IsClean handle-IsClean a.drained e h in
      let w = wait-IsClean (λ s. ltb s.in_flight max_in_flight) a.for_room _ d in
      either-IsClean
        (wait_async F (λ s. ltb s.in_flight max_in_flight) a.for_room
          (drain_available_async F a.drained e)).0
        _ _ (await-IsClean p a _ k w) w

  note-IsClean : (e : Impl F) → IsClean e → IsClean (note_timeout F e)
  unfolding note_timeout
  note-IsClean e h = either-IsClean e.async_timed_out _ _ h h

  sync-IsClean : (p : P) (e : Impl F) → Q p → IsClean e → IsClean (encode_sync F p e)
  unfolding encode_sync drain_sync
  sync-IsClean p e k (h, s) =
      let made : IsClean (record e { mft = (F.process_input p e.mft).1 }) =
        (input-IsOnly p e k h, s) in
      either-IsClean (F.process_input p e.mft).0 _ _
        (rounds-IsClean _ (record e { mft = (F.process_input p e.mft).1 }) made) made

  forced-IsClean : (e : Impl F) → IsClean e → IsClean (forced F e)
  unfolding forced
  forced-IsClean e (h, s) =
      either-IsClean e.force_key_frame _ _ ((λ q i. h q (L.after_force q e.mft i)), s) (h, s)

  -- If only pictures of `Q` are inside and the new picture is one, then the frames of the call show
  -- pictures of `Q`, and only those are inside after it.
  pub encode_nv12-IsClean :
      (p : P) (sample_made : Bool) (a : Arrivals) (e : Impl F)
      → Q p
      → IsOnly e
      → IsClean (encode_nv12 F p sample_made a e)
  unfolding encode_nv12
  encode_nv12-IsClean p sample_made a e k h =
      let f = forced-IsClean (record e { last_async_timed_out = false; out = [] }) (h, tt) in
      either-IsClean (e.configured && sample_made) _ _
        (either-IsClean e.is_async _ _ (note-IsClean _ (pump-IsClean p a _ k f))
          (sync-IsClean p _ k f))
        (h, tt)

  pub collect_pending-IsClean :
      (events : List MftEvent) (e : Impl F) → IsOnly e → IsClean (collect_pending F events e)
  unfolding collect_pending
  collect_pending-IsClean events e h =
      either-IsClean (e.configured && e.is_async) _ _
        (drain_keeps F IsClean handle-IsClean events _ (h, tt)) (h, tt)

  restart-IsOnly : (e : Impl F) → IsOnly e → IsOnly (restart F e).1
  unfolding restart
  restart-IsOnly e h q i = h q (L.after_flush q e.mft (L.after_start q (F.flush e.mft).1 i))

  -- What comes after the restart keeps it.
  pub finish-IsOnly :
      (after : List MftEvent) (e : Impl F)
      → IsOnly e
      → IsOnly (if e.is_async then (wait_async F (λ s. s.pending_need_input) after e).1 else e)
  finish-IsOnly after e h =
      if_keeps F IsOnly e.is_async _ _
        (wait_keeps F IsOnly handle-IsOnly (λ s. s.pending_need_input) after e h) h

  pub flush_discard-IsOnly :
      (drained after : List MftEvent) (e : Impl F)
      → IsOnly e
      → IsOnly (flush_discard F drained after e).1
  unfolding flush_discard flush_now request_key_frame drain_sync
  flush_discard-IsOnly drained after before h =
      let e = record before { out = [] } in
      let gone = if e.is_async then drain_available_async F drained e else drain_sync F e in
      let d : IsClean gone =
        either-IsClean e.is_async _ _ (drain_keeps F IsClean handle-IsClean drained e (h, tt))
          (rounds-IsClean _ e (h, tt)) in
      pair_keeps F IsOnly e.configured (flush_now F drained after e) (true, e)
        (finish-IsOnly after (restart F gone).1 (restart-IsOnly gone d.0)) h

module _ {P : Type 0} (F : Mft P) (L : IsMft F) where
  flush_now-empty :
      (drained after : List MftEvent) (e : Impl F)
      → (flush_now F drained after e).0 ≡ true
      → IsOnly F L (λ q. ⊥) (flush_now F drained after e).1
  unfolding flush_now restart request_key_frame
  flush_now-empty drained after e f =
      let gone = if e.is_async then drain_available_async F drained e else drain_sync F e in
      finish-IsOnly F L (λ q. ⊥) after (restart F gone).1
        (λ q i. L.emptied q gone.mft f (L.after_start q (F.flush gone.mft).1 i))

  -- After a flush that the transform accepts, the encoder holds none of the pictures it held.
  pub flush_discard-empty :
      (drained after : List MftEvent) (e : Impl F) (q : P)
      → e.configured ≡ true
      → (flush_discard F drained after e).0 ≡ true
      → ¬ L.Inside q (flush_discard F drained after e).1.mft
  unfolding flush_discard
  flush_discard-empty drained after e q c f =
      let e' = record e { out = [] } in
      let same = pair_true F e.configured (flush_now F drained after e') (true, e') c in
      λ i.
        flush_now-empty drained after e' (ap (λ r. r.0) (sym same) ∙ f) q
          (subst (λ r. L.Inside q r.1.mft) same i)
