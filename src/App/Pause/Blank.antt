-- ===== src/App/Pause/Blank.antt =====
-- src/app/SenderApp.cpp, RunLoop: from a pause that hides the desktop nothing of it is sent.
use opendisplay_win.Common.{
  Bool, true, false, List, [], ◌∷◌, All, All-append, ◌≡◌, ◌⊎◌, inl, inr, refl, sym, ◌∙◌, subst,
  arith, Bool-cases,
}
use opendisplay_win.App.Signals.{
  PauseReason, no_pause, lock_screen, asleep, admin, paused_reason, pause_reason_now,
}
use opendisplay_win.App.Pause.{
  Picture, Reads, same_reason, Session, hides_at_entry, enter_pause, try_due, resumed, try_resume,
  follow_reason, paused_pass, paused_passes,
}
use opendisplay_win.Encode.Encoder.{Mft, Impl, request_key_frame}
use opendisplay_win.Encode.Encoder.Inside.{IsMft}
use opendisplay_win.App.Pause.Hidden.{
  IsBlank, IsDark, IsSafe, IsBuild, either-IsSafe, either_hides, render_hides, enter_hides,
  enter_pauses, render-IsSafe, enter-IsSafe,
}
use opendisplay_win.App.Pause.Sent.{still-IsShowingBlank, still_keeps, either-IsBlank}

module _ (F : Mft Picture) (L : IsMft F) (accepts : (m : F.State) → (F.flush m).0 ≡ true)
    (build : Impl F → Bool × Impl F) (B : IsBuild F L build) where
  try-IsSafe : (r : Reads) (s : Session F) → IsSafe F L s → IsSafe F L (try_resume F r build s)
  unfolding try_resume resumed request_key_frame
  try-IsSafe r s h =
      let kept : s.hides ≡ true → IsDark F L (build s.encoder).1 = λ t c q i.
        elim (B.kept s.encoder q c i) [ inl new ↦ new | inr (c', i') ↦ h.dark t c' q i' ] in
      either-IsSafe F L (try_due r s.last_resume_try) _ _
        (either-IsSafe F L (build s.encoder).0 _ _
          (record { dark = λ t. cc; card = λ t. cc; hidden = λ t. cc })
          (record { dark = kept; card = h.card; hidden = h.hidden }))
        h

  try_hides :
      (r : Reads) (s : Session F)
      → s.hides ≡ true
      → (try_resume F r build s).paused ≡ true
      → (try_resume F r build s).hides ≡ true
  unfolding try_resume resumed
  try_hides r s h p = ground (arith, h, p)

  follow-IsSafe :
      (r : Reads) (want : PauseReason) (s : Session F)
      → IsSafe F L s
      → IsSafe F L (follow_reason F r build want s)
  unfolding follow_reason
  follow-IsSafe r no_pause s h = try-IsSafe r s h
  follow-IsSafe r lock_screen s h =
      either-IsSafe F L (same_reason lock_screen s.reason) _ _ h
        (render-IsSafe F L accepts r lock_screen s h.dark)
  follow-IsSafe r asleep s h =
      either-IsSafe F L (same_reason asleep s.reason) _ _ h
        (render-IsSafe F L accepts r asleep s h.dark)
  follow-IsSafe r admin s h =
      either-IsSafe F L (same_reason admin s.reason) _ _ h
        (render-IsSafe F L accepts r admin s h.dark)
  follow-IsSafe r paused_reason s h =
      either-IsSafe F L (same_reason paused_reason s.reason) _ _ h
        (render-IsSafe F L accepts r paused_reason s h.dark)

  follow_hides :
      (r : Reads) (want : PauseReason) (s : Session F)
      → s.hides ≡ true
      → (follow_reason F r build want s).paused ≡ true
      → (follow_reason F r build want s).hides ≡ true
  unfolding follow_reason
  follow_hides r no_pause s h p = try_hides r s h p
  follow_hides r lock_screen s h p =
      either_hides F L (same_reason lock_screen s.reason) _ _ h (render_hides F L r lock_screen s h)
  follow_hides r asleep s h p =
      either_hides F L (same_reason asleep s.reason) _ _ h (render_hides F L r asleep s h)
  follow_hides r admin s h p =
      either_hides F L (same_reason admin s.reason) _ _ h (render_hides F L r admin s h)
  follow_hides r paused_reason s h p =
      either_hides F L (same_reason paused_reason s.reason) _ _ h
        (render_hides F L r paused_reason s h)

  pub pass_lem :
      (r : Reads) (s : Session F)
      → IsSafe F L s
      → s.hides ≡ true
      → IsSafe F L (paused_pass F r build s).0
        × (((paused_pass F r build s).0.hides ≡ true)
              × All (λ f. IsBlank f.picture) (paused_pass F r build s).1
            ⊎ ((paused_pass F r build s).0.paused ≡ false) × ((paused_pass F r build s).1 ≡ []))
  unfolding paused_pass
  pass_lem r s h d =
      let want = (pause_reason_now r.desk r.wts r.consent s.flags).0 in
      let f = record s { flags = (pause_reason_now r.desk r.wts r.consent s.flags).1 } in
      let t = follow_reason F r build want f in
      let safe : IsSafe F L t =
        follow-IsSafe r want f (record { dark = h.dark; card = h.card; hidden = h.hidden }) in
      let (x, y) = still-IsShowingBlank F L r t safe in
      let (p, q, _, n) = still_keeps F L r t in
      elim (Bool-cases t.paused) [
        | inl e ↦ let dark = q ∙ follow_hides r want f d e in (x, inl (dark, y dark))
        | inr e ↦ (x, inr (p ∙ e, n e))
      ]

  passes_none :
      (rs : List Reads) (s : Session F) → s.paused ≡ false → (paused_passes F rs build s).1 ≡ []
  unfolding paused_passes
  passes_none [] s e = refl
  passes_none (r ∷ rs) s e = rw e refl

  passes-IsBlank :
      (rs : List Reads) (s : Session F)
      → IsSafe F L s
      → s.hides ≡ true
      → All (λ f. IsBlank f.picture) (paused_passes F rs build s).1
  unfolding paused_passes
  passes-IsBlank [] s h d = tt
  passes-IsBlank (r ∷ rs) s h d =
      let (safe, out) = pass_lem r s h d in
      either-IsBlank F L s.paused _ (s, [])
        (elim out [
          | inl (dark, f) ↦
              All-append (λ f. IsBlank f.picture) (paused_pass F r build s).1 _ f
                (passes-IsBlank rs (paused_pass F r build s).0 safe dark)
          | inr (n, e) ↦
              All-append (λ f. IsBlank f.picture) (paused_pass F r build s).1 _
                (subst (All (λ f. IsBlank f.picture)) (sym e) tt)
                (subst (All (λ f. IsBlank f.picture))
                  (sym (passes_none rs (paused_pass F r build s).0 n)) tt)
        ])
        tt

  -- The session is paused, the desktop is hidden, and in passes that read `rs`, up to the resume,
  -- nothing of the desktop is sent.
  abbrev pub IsHiding : List Reads → Session F → Type 0
  IsHiding rs t =
      (t.paused ≡ true)
      × (t.hides ≡ true)
      × All (λ f. IsBlank f.picture) (paused_passes F rs build t).1

  -- A pause that begins with the desktop hidden: the session is paused, and whatever the encoder
  -- held, whatever the loop reads in the passes up to the resume, and whether or not the card can be
  -- drawn, no frame that is sent shows anything of the desktop, if the transform accepts FLUSH and a
  -- rebuild keeps the encoder or makes one that has only pictures without the desktop.
  pub paused_passes-IsBlank :
      (r : Reads) (reason : PauseReason) (secure : Bool) (rs : List Reads) (s : Session F)
      → hides_at_entry r reason secure ≡ true
      → IsHiding rs (enter_pause F r reason secure s)
  paused_passes-IsBlank r reason secure rs s h =
      let hides = enter_hides F L r reason secure s h in
      (
        enter_pauses F L r reason secure s,
        hides,
        passes-IsBlank rs (enter_pause F r reason secure s)
            (enter-IsSafe F L accepts r reason secure s) hides,
      )
