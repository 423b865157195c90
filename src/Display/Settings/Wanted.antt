-- ===== src/Display/Settings/Wanted.antt =====
-- src/display/MttVddSettings.cpp, ExpandWanted: the modes that the settings text is to have.
use opendisplay_win.Common.{
  ℕ, ltb, ◌==◌, false, ◌&&◌, ◌||◌, List, [], ◌∷◌, ◌++◌, append_assoc, append-nil, All, ◌≡◌, refl,
  sym, ap, subst, ◌∙◌, arith,
}
use opendisplay_win.Display.Edid.{MttMode}
use opendisplay_win.Display.Edid.Modes.{mtt_modes_for_hello}
use opendisplay_win.Display.Edid.Modes.Offer.{IsMode, Distinct, mtt_modes_for_hello-IsOffer}
use opendisplay_win.Display.Settings.{ModeKey, has_key, add_key, expand_onto, expand_wanted}

-- A mode at 60 Hz.
abbrev at_60 : MttMode → MttMode
at_60 m = record { width = m.width; height = m.height; hz = 60 }

mode_at_60 : (m : MttMode) → IsMode m → m ≡ at_60 m
mode_at_60 m k = λ i. record { width = m.width; height = m.height; hz = k.5 i }

has_key-snoc :
    (keys : List ModeKey) (m o : ModeKey)
    → has_key keys o ≡ false
    → (m.width == o.width && m.height == o.height) ≡ false
    → has_key (keys ++ m ∷ []) o ≡ false
unfolding has_key
has_key-snoc [] m o h k = ground (arith, k)
has_key-snoc (x ∷ keys) m o h k = ground (arith, h, k, has_key-snoc keys m o)

abbrev Fresh : List ModeKey → List ModeKey → Type 0
Fresh keys modes = All (λ m. has_key keys m ≡ false) modes

Fresh-snoc :
    (keys modes : List ModeKey) (m : ModeKey)
    → Fresh keys modes
    → All (λ other. (m.width == other.width && m.height == other.height) ≡ false) modes
    → Fresh (keys ++ m ∷ []) modes
Fresh-snoc keys [] m h k = tt
Fresh-snoc keys (o ∷ modes) m h k = (has_key-snoc keys m o h.0 k.0, Fresh-snoc keys modes m h.1 k.1)

add_key_new :
    (keys : List ModeKey) (m : ModeKey)
    → IsMode m
    → has_key keys m ≡ false
    → add_key m.width m.height 60 keys ≡ keys ++ m ∷ []
unfolding add_key
add_key_new keys m k h =
    let same = mode_at_60 m k in
    let wide : (ltb m.width m.height ≡ false) = ground (arith, k.3) in
    let sides : ((m.width == 0 || m.height == 0 || false) ≡ false) = ground (arith, k.2, k.3) in
    let new : (has_key keys (at_60 m) ≡ false) = subst (λ x. has_key keys x ≡ false) same h in
    rw (wide, sides, new) (ap (λ x. keys ++ x ∷ []) (sym same))

expand_step :
    (keys modes : List ModeKey) (m : MttMode)
    → m.hz ≡ 60
    → expand_onto keys (m ∷ modes) ≡ expand_onto (add_key m.width m.height 60 keys) modes
unfolding expand_onto
expand_step keys modes m e = rw e refl

expand_onto_new :
    (keys modes : List ModeKey)
    → All IsMode modes
    → Distinct modes
    → Fresh keys modes
    → expand_onto keys modes ≡ keys ++ modes
expand_onto_new keys [] k d f = unfold expand_onto in sym (append-nil keys)
expand_onto_new keys (m ∷ modes) k d f =
    let rest = expand_onto_new (keys ++ m ∷ []) modes k.1 d.1 (Fresh-snoc keys modes m f.1 d.0) in
    expand_step keys modes m k.0.5
    ∙ ap (λ x. expand_onto x modes) (add_key_new keys m k.0 f.0)
    ∙ rest
    ∙ append_assoc keys (m ∷ []) modes

Fresh-nil : (modes : List ModeKey) → Fresh [] modes
unfolding has_key
Fresh-nil [] = tt
Fresh-nil (m ∷ modes) = (refl, Fresh-nil modes)

-- The modes that are offered for a tablet are written to the settings as they are: none is turned,
-- doubled or left out.
pub expand_wanted-mtt_modes_for_hello :
    (w h : ℕ) → expand_wanted (mtt_modes_for_hello w h) ≡ mtt_modes_for_hello w h
unfolding expand_wanted
expand_wanted-mtt_modes_for_hello w h =
    let modes = mtt_modes_for_hello w h in
    let o = mtt_modes_for_hello-IsOffer w h in expand_onto_new [] modes o.2 o.3 (Fresh-nil modes)
