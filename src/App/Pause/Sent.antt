-- ===== src/App/Pause/Sent.antt =====
-- src/app/SenderApp.cpp, RunLoop: the frames of a paused pass while the desktop is hidden.
use opendisplay_win.Common.{
  ℕ, zero, suc, ◌+◌, leb, ◌==◌, if◌then◌else◌, Bool, true, false, ◌&&◌, Option, none, some, List,
  [], ◌∷◌, All, ◌≡◌, inl, inr, refl, sym, ◌∙◌, Bool-cases,
}
use opendisplay_win.App.Pause.{
  Picture, Reads, keepalive_ms, from_key, Session, keep_alive, encode_with, encode_overlay,
  drop_early, still_paused,
}
use opendisplay_win.Encode.Encoder.{
  MftEvent, Mft, EncodedFrame, Arrivals, Impl, encode_nv12, request_key_frame, collect_pending,
}
use opendisplay_win.Encode.Encoder.Inside.{
  IsMft, IsShown, encode_nv12-IsClean, collect_pending-IsClean,
}
use opendisplay_win.Encode.Encoder.Settings.{encode_nv12-HasSetting, collect_pending-HasSetting}
use opendisplay_win.App.Pause.Hidden.{IsBlank, IsDark, IsSafe, either-IsSafe}

key-IsBlank :
    (fs : List (EncodedFrame Picture))
    → All (λ f. IsBlank f.picture) fs
    → All (λ f. IsBlank f.picture) (from_key fs).1
unfolding from_key
key-IsBlank [] h = h
key-IsBlank (f ∷ fs) h = elim (Bool-cases f.is_key_frame) [
  | inl k ↦ rw k h
  | inr k ↦ rw k (key-IsBlank fs h.1)
]

module _ (F : Mft Picture) (L : IsMft F) where
  encode-IsDark :
      (p : Picture) (made : Bool) (a : Arrivals) (e : Impl F)
      → IsBlank p
      → IsDark F L e
      → IsDark F L (encode_nv12 F p made a e) × IsShown F L IsBlank (encode_nv12 F p made a e)
  unfolding encode_nv12
  encode-IsDark p made a e k d = elim (Bool-cases e.configured) [
    | inl t ↦ let (h, s) = encode_nv12-IsClean F L IsBlank p made a e k (d t) in ((λ c. h), s)
    | inr f ↦ ((λ c. let g = encode_nv12-HasSetting F false p made a e f in cc), rw f tt)
  ]

  collect-IsDark :
      (events : List MftEvent) (e : Impl F)
      → IsDark F L e
      → IsDark F L (collect_pending F events e) × IsShown F L IsBlank (collect_pending F events e)
  unfolding collect_pending
  collect-IsDark events e d = elim (Bool-cases e.configured) [
    | inl t ↦ let (h, s) = collect_pending-IsClean F L IsBlank events e (d t) in ((λ c. h), s)
    | inr f ↦ ((λ c. let g = collect_pending-HasSetting F false events e f in cc), rw f tt)
  ]

  either-IsDark :
      (b : Bool) (e : Impl F) → IsDark F L e → IsDark F L (if b then request_key_frame F e else e)
  unfolding request_key_frame
  either-IsDark true e d = d
  either-IsDark false e d = d

  keep-IsSafe : (r : Reads) (s : Session F) → IsSafe F L s → IsSafe F L (keep_alive F r s)
  unfolding keep_alive request_key_frame
  keep-IsSafe r s h =
      either-IsSafe F L (leb (r.last_send + keepalive_ms) r.now && s.encodes_due == 0) _ _
        (record {
          dark = λ t. either-IsDark s.drop_until_key s.encoder (h.dark t);
          card = h.card;
          hidden = h.hidden;
        })
        h

  -- The session is safe, and while it hides the desktop the frames are blank.
  abbrev pub IsShowingBlank : Session F → List (EncodedFrame Picture) → Type 0
  IsShowingBlank s frames = IsSafe F L s × (s.hides ≡ true → All (λ f. IsBlank f.picture) frames)

  showing_if :
      (b : Bool) (x y : Session F × List (EncodedFrame Picture))
      → IsShowingBlank x.0 x.1
      → IsShowingBlank y.0 y.1
      → IsShowingBlank (if b then x else y).0 (if b then x else y).1
  showing_if true x y h k = h
  showing_if false x y h k = k

  encode-IsShowingBlank :
      (r : Reads) (due : ℕ) (card : Option Picture) (s : Session F)
      → card ≡ s.nv12
      → IsSafe F L s
      → IsShowingBlank (encode_with F r due card s) (encode_with F r due card s).encoder.out
  encode-IsShowingBlank r zero card s same h = (
    (record {
      dark = λ t. (collect-IsDark r.arrivals.drained s.encoder (h.dark t)).0;
      card = h.card;
      hidden = h.hidden;
    }),
    λ t. (collect-IsDark r.arrivals.drained s.encoder (h.dark t)).1,
  )
  encode-IsShowingBlank r (suc due) none s same h = (
    (record {
      dark = λ t. (collect-IsDark r.arrivals.drained s.encoder (h.dark t)).0;
      card = h.card;
      hidden = h.hidden;
    }),
    λ t. (collect-IsDark r.arrivals.drained s.encoder (h.dark t)).1,
  )
  encode-IsShowingBlank r (suc due) (some p) s same h =
      let both : (t : s.hides ≡ true)
          → IsDark F L (encode_nv12 F p r.sample_made r.arrivals s.encoder)
            × IsShown F L IsBlank (encode_nv12 F p r.sample_made r.arrivals s.encoder) =
        λ t.
          encode-IsDark p r.sample_made r.arrivals s.encoder (h.card t p (sym same)) (h.dark t) in
      ((record { dark = λ t. (both t).0; card = h.card; hidden = h.hidden }), λ t. (both t).1)

  drop-IsShowingBlank :
      (s : Session F)
      → IsShowingBlank s s.encoder.out
      → IsShowingBlank (drop_early F s).0 (drop_early F s).1
  unfolding drop_early
  drop-IsShowingBlank s (h, f) =
      showing_if s.drop_until_key _ _
        (
          (record { dark = h.dark; card = h.card; hidden = h.hidden }),
          λ t. key-IsBlank s.encoder.out (f t),
        )
        (h, f)

  pub still-IsShowingBlank :
      (r : Reads) (s : Session F)
      → IsSafe F L s
      → IsShowingBlank (still_paused F r s).0 (still_paused F r s).1
  unfolding still_paused encode_overlay
  still-IsShowingBlank r s h =
      let k = keep_alive F r s in
      showing_if s.paused _ _
        (drop-IsShowingBlank _
          (encode-IsShowingBlank r k.encodes_due k.nv12 k refl (keep-IsSafe r s h)))
        (h, λ t. tt)

  abbrev AreAlike : Session F → Session F → Type 0
  AreAlike s t = (t.paused ≡ s.paused) × (t.hides ≡ s.hides) × (t.flags ≡ s.flags)

  alike_if :
      (b : Bool) (s x y : Session F) → AreAlike s x → AreAlike s y → AreAlike s (if b then x else y)
  alike_if true s x y h k = h
  alike_if false s x y h k = k

  keep_keeps : (r : Reads) (s : Session F) → AreAlike s (keep_alive F r s)
  unfolding keep_alive
  keep_keeps r s =
      alike_if (leb (r.last_send + keepalive_ms) r.now && s.encodes_due == 0) s _ _
        (refl, refl, refl) (refl, refl, refl)

  encode_keeps :
      (r : Reads) (due : ℕ) (card : Option Picture) (s : Session F)
      → AreAlike s (encode_with F r due card s)
  encode_keeps r zero card s = (refl, refl, refl)
  encode_keeps r (suc due) none s = (refl, refl, refl)
  encode_keeps r (suc due) (some p) s = (refl, refl, refl)

  drop_if :
      (b : Bool) (s : Session F) (x y : Session F × List (EncodedFrame Picture))
      → AreAlike s x.0
      → AreAlike s y.0
      → AreAlike s (if b then x else y).0
  drop_if true s x y h k = h
  drop_if false s x y h k = k

  drop_keeps : (s : Session F) → AreAlike s (drop_early F s).0
  unfolding drop_early
  drop_keeps s = drop_if s.drop_until_key s _ _ (refl, refl, refl) (refl, refl, refl)

  passed :
      (b : Bool) (s : Session F) (x : Session F × List (EncodedFrame Picture))
      → x.0.paused ≡ s.paused
      → x.0.hides ≡ s.hides
      → x.0.flags ≡ s.flags
      → ((if b then x else (s, [])).0.paused ≡ s.paused)
        × ((if b then x else (s, [])).0.hides ≡ s.hides)
        × ((if b then x else (s, [])).0.flags ≡ s.flags)
        × (b ≡ false → (if b then x else (s, [])).1 ≡ [])
  passed true s x p q k = (p, q, k, λ e. cc)
  passed false s x p q k = (refl, refl, refl, λ e. refl)

  pub either-IsBlank :
      (b : Bool) (x y : Session F × List (EncodedFrame Picture))
      → All (λ f. IsBlank f.picture) x.1
      → All (λ f. IsBlank f.picture) y.1
      → All (λ f. IsBlank f.picture) (if b then x else y).1
  either-IsBlank true x y h k = h
  either-IsBlank false x y h k = k

  pub still_keeps :
      (r : Reads) (s : Session F)
      → ((still_paused F r s).0.paused ≡ s.paused)
        × ((still_paused F r s).0.hides ≡ s.hides)
        × ((still_paused F r s).0.flags ≡ s.flags)
        × (s.paused ≡ false → (still_paused F r s).1 ≡ [])
  unfolding still_paused encode_overlay
  still_keeps r s =
      let k = keep_alive F r s in
      let (p, q, f) = encode_keeps r k.encodes_due k.nv12 k in
      let (p', q', f') = keep_keeps r s in
      let (p'', q'', f'') = drop_keeps (encode_with F r k.encodes_due k.nv12 k) in
      passed s.paused s (drop_early F (encode_with F r k.encodes_due k.nv12 k)) (p'' ∙ p ∙ p')
        (q'' ∙ q ∙ q') (f'' ∙ f ∙ f')
