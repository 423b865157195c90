-- ===== src/App/Pause/Hidden.antt =====
-- src/app/SenderApp.cpp, RunLoop: what holds while a pause hides the desktop, and that it holds from the
-- first overlay on.
use opendisplay_win.Common.{
  if◌then◌else◌, Bool, true, false, not, ◌&&◌, ◌||◌, Option, none, some, List, ◌≡◌, ◌⊎◌, ◌∙◌, subst,
  some_injective, inl, inr, refl, arith, Bool-cases,
}
use opendisplay_win.App.Signals.{PauseReason, Flags, pause_hides_desktop}
use opendisplay_win.App.Pause.{
  Picture, shows_desktop, desktop, dimmed, background, blank, black, with_card,
  render_pause_overlay, Reads, Session, flush_for_blank, hide_now, render_pause_frame,
  hides_at_entry, enter_pause,
}
use opendisplay_win.Encode.Encoder.{
  MftEvent, Mft, Impl, request_key_frame, restart, flush_now, flush_discard,
}
use opendisplay_win.Encode.Encoder.Inside.{IsMft, IsOnly, flush_discard-empty}
use opendisplay_win.Encode.Encoder.Configure.{Bound, IsFresh, configure, configure_lem}
use opendisplay_win.Encode.Encoder.Settings.{flush_discard-HasSetting}

-- Nothing of the desktop is in the picture.
abbrev pub IsBlank : Picture → Type 0
IsBlank p = shows_desktop p ≡ false

carded-IsBlank : (b : Bool) (p : Picture) → IsBlank p → IsBlank (if b then with_card p else p)
carded-IsBlank true desktop h = h
carded-IsBlank true dimmed h = h
carded-IsBlank true background h = refl
carded-IsBlank true blank h = h
carded-IsBlank true black h = h
carded-IsBlank false p h = h

covered-IsBlank : (b : Bool) (p : Picture) → IsBlank p → IsBlank (if b then background else p)
covered-IsBlank true p h = refl
covered-IsBlank false p h = h

-- Nothing of the desktop comes in by drawing, whether it succeeds or not.
overlay-IsBlank :
    (drawn : Bool) (reason : PauseReason) (p : Picture)
    → IsBlank p
    → IsBlank (render_pause_overlay drawn reason p)
unfolding render_pause_overlay
overlay-IsBlank drawn reason p h =
    carded-IsBlank drawn _ (covered-IsBlank (pause_hides_desktop reason) p h)

if_accepted :
    (F : Mft Picture) (b : Bool) (x y : Bool × Impl F)
    → x.0 ≡ true
    → y.0 ≡ true
    → (if b then x else y).0 ≡ true
if_accepted F true x y h k = h
if_accepted F false x y h k = k

flush_accepted :
    (F : Mft Picture) (drained after : List MftEvent) (e : Impl F)
    → ((m : F.State) → (F.flush m).0 ≡ true)
    → (flush_discard F drained after e).0 ≡ true
unfolding flush_discard flush_now restart
flush_accepted F drained after e k = if_accepted F e.configured _ _ (k _) refl

module _ (F : Mft Picture) (L : IsMft F) where
  -- The encoder has only blank pictures, if it is configured.
  abbrev pub IsDark : Impl F → Type 0
  IsDark e = e.configured ≡ true → IsOnly F L IsBlank e

  -- A rebuild that leaves a configured encoder has kept it, or made a new one, in which only the
  -- pictures that tried it are.
  pub record IsBuild (build : Impl F → Bool × Impl F) : Type 0 where
    pub kept :
        (e : Impl F) (q : Picture)
        → (build e).1.configured ≡ true
        → L.Inside q (build e).1.mft
        → IsBlank q ⊎ ((e.configured ≡ true) × L.Inside q e.mft)

  -- While the desktop is hidden, the encoder and the overlay are blank; and a reason that hides it
  -- has hidden it.
  pub record IsSafe (s : Session F) : Type 0 where
    pub dark : s.hides ≡ true → IsDark s.encoder
    pub card : s.hides ≡ true → (p : Picture) → s.nv12 ≡ some p → IsBlank p
    pub hidden : s.paused ≡ true → pause_hides_desktop s.reason ≡ true → s.hides ≡ true

  pub either-IsSafe :
      (b : Bool) (x y : Session F) → IsSafe x → IsSafe y → IsSafe (if b then x else y)
  either-IsSafe true x y h k = h
  either-IsSafe false x y h k = k

  pub either_hides :
      (b : Bool) (x y : Session F)
      → x.hides ≡ true
      → y.hides ≡ true
      → (if b then x else y).hides ≡ true
  either_hides true x y h k = h
  either_hides false x y h k = k

  either_paused :
      (b : Bool) (x y : Session F)
      → x.paused ≡ true
      → y.paused ≡ true
      → (if b then x else y).paused ≡ true
  either_paused true x y h k = h
  either_paused false x y h k = k

  either_flags :
      (b : Bool) (x y : Session F) (f : Flags)
      → x.flags ≡ f
      → y.flags ≡ f
      → (if b then x else y).flags ≡ f
  either_flags true x y f h k = h
  either_flags false x y f h k = k

  card_lem :
      (hides base fits padded drawn : Bool) (reason : PauseReason) (p : Picture)
      → hides ≡ true
      → (if padded
          then some (
              render_pause_overlay drawn reason
                (if hides || not base || not fits then background else desktop))
          else none)
        ≡ some p
      → IsBlank p
  card_lem true base fits true drawn reason p h e =
      subst IsBlank (some_injective e) (overlay-IsBlank drawn reason background refl)
  card_lem true base fits false drawn reason p h e = cc
  card_lem false base fits padded drawn reason p h e = cc

  enter-IsDark :
      (h : Bool) (x y : Session F)
      → IsDark x.encoder
      → y.hides ≡ h
      → (if h then x else y).hides ≡ true
      → IsDark (if h then x else y).encoder
  enter-IsDark true x y k e t = k
  enter-IsDark false x y k e t = cc

  -- A pause keeps hiding the desktop, until it ends.
  pub render_hides :
      (r : Reads) (reason : PauseReason) (s : Session F)
      → s.hides ≡ true
      → (render_pause_frame F r reason s).hides ≡ true
  unfolding render_pause_frame hide_now flush_for_blank
  render_hides r reason s h = ground arith

  render_pauses :
      (r : Reads) (reason : PauseReason) (s : Session F)
      → (render_pause_frame F r reason s).paused ≡ s.paused
  unfolding render_pause_frame hide_now flush_for_blank
  render_pauses r reason s = ground arith

  pub enter_pauses :
      (r : Reads) (reason : PauseReason) (secure : Bool) (s : Session F)
      → (enter_pause F r reason secure s).paused ≡ true
  unfolding enter_pause flush_for_blank
  enter_pauses r reason secure s =
      render_pauses r reason _ ∙ either_paused (hides_at_entry r reason secure) _ _ refl refl

  render_flags :
      (r : Reads) (reason : PauseReason) (s : Session F)
      → (render_pause_frame F r reason s).flags ≡ s.flags
  unfolding render_pause_frame hide_now flush_for_blank
  render_flags r reason s = ground arith

  pub render_keeps :
      (r : Reads) (reason : PauseReason) (s : Session F)
      → ((render_pause_frame F r reason s).paused ≡ s.paused)
        × ((render_pause_frame F r reason s).flags ≡ s.flags)
  render_keeps r reason s = (render_pauses r reason s, render_flags r reason s)

  pub enter_flags :
      (r : Reads) (reason : PauseReason) (secure : Bool) (s : Session F)
      → (enter_pause F r reason secure s).flags ≡ s.flags
  unfolding enter_pause flush_for_blank
  enter_flags r reason secure s =
      render_flags r reason _ ∙ either_flags (hides_at_entry r reason secure) _ _ s.flags refl refl

  pub enter_hides :
      (r : Reads) (reason : PauseReason) (secure : Bool) (s : Session F)
      → hides_at_entry r reason secure ≡ true
      → (enter_pause F r reason secure s).hides ≡ true
  unfolding enter_pause flush_for_blank
  enter_hides r reason secure s h =
      render_hides r reason _ (either_hides (hides_at_entry r reason secure) _ _ h h)

  module _ (accepts : (m : F.State) → (F.flush m).0 ≡ true) where
    flush-IsDark :
        (drained after : List MftEvent) (e : Impl F) → IsDark (flush_discard F drained after e).1
    flush-IsDark drained after e c q i = elim (Bool-cases e.configured) [
      | inl t ↦
          absurd (
            flush_discard-empty F L drained after e q t (flush_accepted F drained after e accepts)
              i)
      | inr f ↦ let g = flush_discard-HasSetting F false drained after e f in cc
    ]

    hide-IsDark :
        (r : Reads) (reason : PauseReason) (s : Session F)
        → (s.hides ≡ true → IsDark s.encoder)
        → ((hide_now F r reason s).hides ≡ true → IsDark (hide_now F r reason s).encoder)
          × (pause_hides_desktop reason ≡ true → (hide_now F r reason s).hides ≡ true)
          × (s.hides ≡ true → (hide_now F r reason s).hides ≡ true)
    unfolding hide_now flush_for_blank
    hide-IsDark r reason s d = elim (Bool-cases (pause_hides_desktop reason && not s.hides)) [
      | inl b ↦
          rw b
            ((λ t. flush-IsDark r.flush_drained r.flush_after s.encoder), (λ t. refl), (λ t. refl))
      | inr b ↦ rw b (d, (λ t. ground (arith, t, b)), (λ t. t))
    ]

    pub render-IsSafe :
        (r : Reads) (reason : PauseReason) (s : Session F)
        → (s.hides ≡ true → IsDark s.encoder)
        → IsSafe (render_pause_frame F r reason s)
    unfolding render_pause_frame request_key_frame
    render-IsSafe r reason s d =
        let (k, a, b) = hide-IsDark r reason s d in
        record {
          dark = k;
          card = λ t p e.
              card_lem (hide_now F r reason s).hides _ r.fits r.padded r.drawn reason p t e;
          hidden = λ t. a;
        }

    pub enter-IsSafe :
        (r : Reads) (reason : PauseReason) (secure : Bool) (s : Session F)
        → IsSafe (enter_pause F r reason secure s)
    unfolding enter_pause flush_for_blank
    enter-IsSafe r reason secure s = render-IsSafe r reason _ (
        enter-IsDark (hides_at_entry r reason secure) _ _
          (flush-IsDark r.blank_drained r.blank_after s.encoder) refl)

-- A rebuild that configures the encoder is such a rebuild, if it is tried with black pictures.
pub configure-IsBuild :
    (F : Mft Picture) (L : IsMft F) (hardware software : Option (Bound F))
    → IsFresh F L IsBlank hardware
    → IsFresh F L IsBlank software
    → IsBuild F L (configure F hardware software)
configure-IsBuild F L hardware software h s = record {
  kept = λ e q c i. inl (configure_lem F L IsBlank hardware software e q h s c i);
}
