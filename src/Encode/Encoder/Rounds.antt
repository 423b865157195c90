-- ===== src/Encode/Encoder/Rounds.antt =====
-- src/encode/H264Encoder.cpp: the rounds of DrainSync.
use opendisplay_win.Common.{
  subst, ℕ, zero, suc, ◌<◌, if◌then◌else◌, Bool, true, false, ◌≡◌, ◌⊎◌, inl, inr, refl, sym, ap,
  arith,
}
use opendisplay_win.Encode.Encoder.{
  Output, no_output, unreadable, sample, Mft, Impl, extract_frame, take_output, process_output_once,
  drain_rounds, drain_sync,
}
use opendisplay_win.Encode.Encoder.Inside.{if_keeps}

module _ {P : Type 0} (F : Mft P)
    (fewer : (m : F.State)
      → ((F.process_output m).0 ≡ no_output) ⊎ (F.ready (F.process_output m).1 < F.ready m)) where
  take_mft : (o : Output P) (e : Impl F) → (take_output F o e).1.mft ≡ e.mft
  unfolding extract_frame
  take_mft no_output e = refl
  take_mft unreadable e = refl
  take_mft (sample data' p) e = if_keeps F (λ x. x.mft ≡ e.mft) _ _ _ refl refl

  took_fewer :
      (e : Impl F)
      → (process_output_once F e).0 ≡ true
      → F.ready (process_output_once F e).1.mft < F.ready e.mft
  unfolding process_output_once
  took_fewer e t = elim (fewer e.mft) [
    | inl none ↦
        let f =
          ap (λ o. (take_output F o (record e { mft = (F.process_output e.mft).1 })).0) none in
        cc
    | inr less ↦
        subst (λ m. F.ready m < F.ready e.mft)
          (sym
            (take_mft (F.process_output e.mft).0 (record e { mft = (F.process_output e.mft).1 })))
          less
  ]

  if_same :
      (b : Bool) (x y z : Impl F) → (b ≡ true → x ≡ y) → (if b then x else z) ≡ (if b then y else z)
  if_same true x y z h = h refl
  if_same false x y z h = refl

  rounds_same :
      (n k : ℕ) (e : Impl F)
      → F.ready e.mft < n
      → F.ready e.mft < k
      → drain_rounds F n e ≡ drain_rounds F k e
  unfolding drain_rounds
  rounds_same zero k e h l = absurd (omega arith)
  rounds_same (suc n) zero e h l = absurd (omega arith)
  rounds_same (suc n) (suc k) e h l = if_same (process_output_once F e).0 _ _ _ (λ t.
      let less = took_fewer e t in
      rounds_same n k (process_output_once F e).1 (omega arith) (omega arith))

  -- More rounds than the transform has outputs change nothing, if each output leaves fewer.
  pub drain_rounds_enough :
      (n : ℕ) (e : Impl F) → F.ready e.mft < n → drain_rounds F n e ≡ drain_sync F e
  unfolding drain_sync
  drain_rounds_enough n e h = rounds_same n (suc (F.ready e.mft)) e h (omega arith)
