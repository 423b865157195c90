-- ===== src/App/Pause/Entry.antt =====
-- src/app/SenderApp.cpp, RunLoop: the two places where a pause begins.
use opendisplay_win.Common.{
  if◌then◌else◌, Bool, true, false, not, ◌&&◌, ◌||◌, none, some, List, ◌≡◌, refl, sym, ap, ◌∙◌,
  subst, arith,
}
use opendisplay_win.App.Signals.{
  PauseReason, lock_screen, Flags, is_default, is_unlocked, pause_reason_now, pause_hides_desktop,
}
use opendisplay_win.App.Pause.{
  Picture, Reads, Session, enter_for, enter_pause, head_of_pass, hides_at_entry, access_lost,
  reason_or_paused,
}
use opendisplay_win.App.Pause.Hidden.{IsBuild}
use opendisplay_win.App.Pause.Blank.{IsHiding, paused_passes-IsBlank}
use opendisplay_win.Encode.Encoder.{Mft, Impl}
use opendisplay_win.Encode.Encoder.Inside.{IsMft}

-- The lock is not stale: the session is not known to be unlocked, or the desktop is not the normal one.
abbrev pub StillLocked : Reads → Type 0
StillLocked r = (is_unlocked r.wts && is_default r.desk) ≡ false

pub locked_reason :
    (r : Reads) (f : Flags)
    → f.locked_flag ≡ true
    → StillLocked r
    → (pause_reason_now r.desk r.wts r.consent f).0 ≡ lock_screen
unfolding pause_reason_now
locked_reason r f l s = ground (arith, l, s)

pub if_taken : {A : Type 0} (b : Bool) (x y : A) → b ≡ true → (if b then x else y) ≡ x
if_taken true x y e = refl
if_taken false x y e = cc

pub hides_locked : (r : Reads) → hides_at_entry r lock_screen false ≡ true
unfolding pause_hides_desktop
hides_locked r = refl

hides_secure :
    (r : Reads) (reason : PauseReason)
    → is_default r.desk ≡ false
    → hides_at_entry r reason (not (is_default r.desk)) ≡ true
hides_secure r reason d = ground (arith, d)

module _ (F : Mft Picture) (L : IsMft F) (accepts : (m : F.State) → (F.flush m).0 ≡ true)
    (build : Impl F → Bool × Impl F) (B : IsBuild F L build) where
  -- When a pass of a streaming session begins with the lock heard and not known to be over, the
  -- session pauses and hides the desktop, and whatever the loop reads up to the resume, no frame that
  -- is sent shows anything of the desktop, if the transform accepts FLUSH and a rebuild keeps the
  -- encoder or makes one that has only pictures without the desktop.
  pub head_of_pass-IsBlank :
      (r : Reads) (rs : List Reads) (s : Session F)
      → s.paused ≡ false
      → s.flags.locked_flag ≡ true
      → StillLocked r
      → IsHiding F L accepts build B rs (head_of_pass F r s)
  unfolding head_of_pass
  head_of_pass-IsBlank r rs s p l k =
      let s' = record s { flags = (pause_reason_now r.desk r.wts r.consent s.flags).1 } in
      let entered =
        if_taken (not s.paused && (s.flags.locked_flag || s.flags.display_off))
          (enter_for F r (pause_reason_now r.desk r.wts r.consent s.flags).0 s') s
          (ground (arith, p, l)) in
      subst (IsHiding F L accepts build B rs)
        (sym (entered ∙ ap (λ w. enter_for F r w s') (locked_reason r s.flags l k)))
        (paused_passes-IsBlank F L accepts build B r lock_screen false rs s' (hides_locked r))

  -- When capture loses access while the desktop is not the normal one, as on the lock screen or
  -- under a prompt, the session pauses and hides the desktop, and whatever the loop reads up to the
  -- resume, no frame that is sent shows anything of the desktop, if the transform accepts FLUSH and a
  -- rebuild keeps the encoder or makes one that has only pictures without the desktop.
  pub access_lost-IsBlank :
      (r : Reads) (rs : List Reads) (s : Session F)
      → is_default r.desk ≡ false
      → (t : Session F) × (access_lost F r s ≡ some t) × IsHiding F L accepts build B rs t
  unfolding access_lost
  access_lost-IsBlank r rs s d =
      let first = pause_reason_now r.desk r.wts r.consent s.flags in
      let why =
        reason_or_paused first (pause_reason_now r.desk r.wts_again r.consent_again first.1) in
      let s' = record s { flags = why.1 } in
      let secure = not (is_default r.desk) in
      (
        enter_pause F r why.0 secure s',
        if_taken (not (is_default r.desk) || s.flags.locked_flag || s.flags.display_off)
            (some (enter_pause F r why.0 secure s')) none (ground (arith, d)),
        paused_passes-IsBlank F L accepts build B r why.0 secure rs s' (hides_secure r why.0 d),
      )
