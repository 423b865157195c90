-- ===== src/App/Pause/Locked.antt =====
-- src/app/SenderApp.cpp, RunLoop: the passes of a session from a lock on, until the lock is over.
use opendisplay_win.Common.{
  if◌then◌else◌, Bool, true, false, not, ◌&&◌, ◌||◌, none, some, List, [], ◌∷◌, ◌++◌, All,
  All-append, ◌≡◌, ◌⊎◌, inl, inr, refl, sym, ap, ◌∙◌, subst, arith,
}
use opendisplay_win.App.Signals.{
  PauseReason, no_pause, lock_screen, asleep, admin, paused_reason, Flags, pause_reason_now,
}
use opendisplay_win.App.Pause.{
  Picture, Reads, same_reason, Session, enter_for, enter_pause, head_of_pass, follow_reason,
  paused_pass,
}
use opendisplay_win.App.Pause.Loop.{Pass, streaming_pass, session_pass, session_passes}
use opendisplay_win.App.Pause.Hidden.{
  IsBlank, IsBuild, IsSafe, enter_hides, enter_pauses, enter_flags, enter-IsSafe, render_keeps,
}
use opendisplay_win.App.Pause.Sent.{still_keeps}
use opendisplay_win.App.Pause.Blank.{pass_lem}
use opendisplay_win.App.Pause.Entry.{StillLocked, locked_reason, if_taken, hides_locked}
use opendisplay_win.Encode.Encoder.{Mft, Impl}
use opendisplay_win.Encode.Encoder.Inside.{IsMft}

-- The flag of a lock stays while the lock is not known to be over.
locked_stays :
    (r : Reads) (f : Flags)
    → f.locked_flag ≡ true
    → StillLocked r
    → (pause_reason_now r.desk r.wts r.consent f).1.locked_flag ≡ true
unfolding pause_reason_now
locked_stays r f l s = ground (arith, l, s)

-- The lock is not known to be over, wherever the passes ask.
abbrev pub AllLocked : {F : Mft Picture} → List (Pass F) → Type 0
AllLocked [] = Unit
AllLocked (p ∷ ps) = StillLocked p.head × StillLocked p.body × AllLocked ps

if_not_taken : {A : Type 0} (b : Bool) (x y : A) → b ≡ false → (if b then x else y) ≡ y
if_not_taken true x y e = cc
if_not_taken false x y e = refl

module _ (F : Mft Picture) (L : IsMft F) (accepts : (m : F.State) → (F.flush m).0 ≡ true)
    (build : Impl F → Bool × Impl F) (B : IsBuild F L build) where
  -- A session that is paused by the lock, and safe.
  record IsLockedOut (s : Session F) : Type 0 where
    pub paused : s.paused ≡ true
    pub hides : s.hides ≡ true
    pub flag : s.flags.locked_flag ≡ true
    pub safe : IsSafe F L s

  enter-IsLockedOut :
      (r : Reads) (s : Session F)
      → s.flags.locked_flag ≡ true
      → IsLockedOut (enter_pause F r lock_screen false s)
  enter-IsLockedOut r s l = record {
    paused = enter_pauses F L r lock_screen false s;
    hides = enter_hides F L r lock_screen false s (hides_locked r);
    flag = ap (λ f. f.locked_flag) (enter_flags F L r lock_screen false s) ∙ l;
    safe = enter-IsSafe F L accepts r lock_screen false s;
  }

  head-IsLockedOut :
      (r : Reads) (s : Session F)
      → (s.paused ≡ false) ⊎ IsLockedOut s
      → s.flags.locked_flag ≡ true
      → StillLocked r
      → IsLockedOut (head_of_pass F r s)
  unfolding head_of_pass
  head-IsLockedOut r s (inl p) l k =
      let s' = record s { flags = (pause_reason_now r.desk r.wts r.consent s.flags).1 } in
      let entered =
        if_taken (not s.paused && (s.flags.locked_flag || s.flags.display_off))
          (enter_for F r (pause_reason_now r.desk r.wts r.consent s.flags).0 s') s
          (ground (arith, p, l)) in
      subst IsLockedOut (sym (entered ∙ ap (λ w. enter_for F r w s') (locked_reason r s.flags l k)))
        (enter-IsLockedOut r s' (locked_stays r s.flags l k))
  head-IsLockedOut r s (inr h) l k =
      subst IsLockedOut
        (sym (
          if_not_taken (not s.paused && (s.flags.locked_flag || s.flags.display_off)) _ s
            (let p = h.paused in ground (arith, p))))
        h

  either_keeps :
      (b : Bool) (s t : Session F)
      → (t.paused ≡ s.paused) × (t.flags ≡ s.flags)
      → ((if b then s else t).paused ≡ s.paused) × ((if b then s else t).flags ≡ s.flags)
  either_keeps true s t h = (refl, refl)
  either_keeps false s t h = h

  follow_stays :
      (r : Reads) (want : PauseReason) (s : Session F)
      → want ≡ lock_screen
      → ((follow_reason F r build want s).paused ≡ s.paused)
        × ((follow_reason F r build want s).flags ≡ s.flags)
  unfolding follow_reason
  follow_stays r no_pause s e = cc
  follow_stays r lock_screen s e =
      either_keeps (same_reason lock_screen s.reason) s _ (render_keeps F L r lock_screen s)
  follow_stays r asleep s e = cc
  follow_stays r admin s e = cc
  follow_stays r paused_reason s e = cc

  pass_stays :
      (r : Reads) (s : Session F)
      → s.flags.locked_flag ≡ true
      → StillLocked r
      → ((paused_pass F r build s).0.paused ≡ s.paused)
        × ((paused_pass F r build s).0.flags.locked_flag ≡ true)
  unfolding paused_pass
  pass_stays r s l k =
      let (want, flags) = pause_reason_now r.desk r.wts r.consent s.flags in
      let f = record s { flags = flags } in
      let (p, _, e, _) = still_keeps F L r (follow_reason F r build want f) in
      let (p', e') = follow_stays r want f (locked_reason r s.flags l k) in
      (p ∙ p', ap (λ x. x.locked_flag) (e ∙ e') ∙ locked_stays r s.flags l k)

  -- A paused pass under the lock stays paused, and nothing of the desktop is in its frames.
  pass-IsLockedOut :
      (r : Reads) (s : Session F)
      → IsLockedOut s
      → StillLocked r
      → IsLockedOut (paused_pass F r build s).0
        × All (λ f. IsBlank f.picture) (paused_pass F r build s).1
  pass-IsLockedOut r s h k =
      let (paused, flags) = pass_stays r s h.flag k in
      let (safe, out) = pass_lem F L accepts build B r s h.safe h.hides in
      elim out [
        | inl (hides, f) ↦
            (record { paused = paused ∙ h.paused; hides = hides; flag = flags; safe = safe }, f)
        | inr (gone, e) ↦ let p = paused ∙ h.paused in cc
      ]

  session-IsBlank :
      (ps : List (Pass F)) (s : Session F)
      → (s.paused ≡ false) ⊎ IsLockedOut s
      → s.flags.locked_flag ≡ true
      → AllLocked ps
      → All (λ f. IsBlank f.picture) (session_passes F ps build s)
  unfolding session_passes session_pass
  session-IsBlank [] s h l k = tt
  session-IsBlank (p ∷ ps) s h l (a, b, c) =
      let t = head_of_pass F p.head s in
      let entered = head-IsLockedOut p.head s h l a in
      let (after, frames) = pass-IsLockedOut p.body t entered b in
      let q = paused_pass F p.body build t in
      subst
        (λ r.
          All (λ f. IsBlank f.picture)
            (r.1 ++ elim r.0 [ some u ↦ session_passes F ps build u | none ↦ [] ]))
        (sym (
          if_taken t.paused (some q.0, q.1) (streaming_pass F p.body p.capture build t)
            entered.paused))
        (All-append (λ f. IsBlank f.picture) q.1 _ frames
          (session-IsBlank ps q.0 (inr after) after.flag c))

  -- The whole loop, pass after pass, from a session that streams with the lock heard: while the flag
  -- of the lock is not cleared from outside and the lock is not known to be over wherever the passes
  -- ask, whatever else they read, no frame that is sent shows anything of the desktop, if the
  -- transform accepts FLUSH and a rebuild keeps the encoder or makes one that has only pictures
  -- without the desktop.
  pub session_passes-IsBlank :
      (ps : List (Pass F)) (s : Session F)
      → s.paused ≡ false
      → s.flags.locked_flag ≡ true
      → AllLocked ps
      → All (λ f. IsBlank f.picture) (session_passes F ps build s)
  session_passes-IsBlank ps s p l k = session-IsBlank ps s (inl p) l k
