-- ===== src/Display/Edid/Modes/Offer.antt =====
-- src/display/MttVddSettings.cpp, MttModesForHello: what every offer has.
use opendisplay_win.Display.Edid.{MttMode, mtt_refresh, edid_max_dim, align16_floor}
use opendisplay_win.Display.Edid.Modes.{
  Size, ipad_panels, landscape, has_size, mode_of, push, distance, Sibling, beats, closest,
  push_sibling, modes_of, floored, out_of_range, modes_or, mtt_modes_for_hello,
}
use opendisplay_win.Common.{
  ℕ, suc, ◌*◌, ◌/◌, ◌%◌, ◌^◌, ltb, ◌==◌, if◌then◌else◌, Bool, true, false, ◌&&◌, ◌||◌, none, some,
  List, [], ◌∷◌, ◌++◌, length, take-all, get_elem?, All, ◌≡◌, ◌≤◌, inl, inr, arith, refl, sym,
  subst, Bool-cases, length-append,
}

-- A mode that is landscape, whose sides are multiples of 16 from 16 to 4095, at 60 Hz.
abbrev pub IsMode : MttMode → Type 0
IsMode m =
    (m.width % 16 ≡ 0)
    × (m.height % 16 ≡ 0)
    × (16 ≤ m.height)
    × (m.height ≤ m.width)
    × (m.width ≤ edid_max_dim)
    × (m.hz ≡ mtt_refresh)

abbrev pub Distinct : List MttMode → Type 0
Distinct [] = Unit {0}
Distinct (m ∷ modes) =
    All (λ other. (m.width == other.width && m.height == other.height) ≡ false) modes
    × Distinct modes

-- At most `n` modes, all different, of which the first is `first`.
abbrev pub IsOffer : ℕ → MttMode → List MttMode → Type 0
IsOffer n first out =
    (get_elem? out 0 ≡ some first) × (length out ≤ n) × All IsMode out × Distinct out

abbrev IsAligned : Size → Type 0
IsAligned s = (s.0 % 16 ≡ 0) × (s.1 % 16 ≡ 0) × (s.0 ≤ edid_max_dim) × (s.1 ≤ edid_max_dim)

All-snoc {ℓ} :
    {A : Type ℓ} (Q : A → Type 0) (xs : List A) (y : A) → All Q xs → Q y → All Q (xs ++ y ∷ [])
All-snoc Q [] y h k = (k, tt)
All-snoc Q (x ∷ xs) y h k = (h.0, All-snoc Q xs y h.1 k)

has_size-other :
    (m : MttMode) (out : List MttMode) (s : Size)
    → has_size (m ∷ out) s ≡ false
    → ((m.width == s.0 && m.height == s.1) ≡ false) × (has_size out s ≡ false)
unfolding has_size
has_size-other m out s h = ground (arith, h)

Distinct-snoc :
    (out : List MttMode) (s : Size)
    → Distinct out
    → has_size out s ≡ false
    → Distinct (out ++ mode_of s ∷ [])
Distinct-snoc [] s d h = (tt, tt)
Distinct-snoc (m ∷ out) s d h =
    let (other, later) = has_size-other m out s h in
    (
      All-snoc (λ (o : MttMode). (m.width == o.width && m.height == o.height) ≡ false) out
          (mode_of s) d.0 other,
      Distinct-snoc out s d.1 later,
    )

IsOffer-snoc :
    (n : ℕ) (first : MttMode) (out : List MttMode) (s : Size)
    → IsOffer n first out
    → IsMode (mode_of s)
    → has_size out s ≡ false
    → IsOffer (suc n) first (out ++ mode_of s ∷ [])
IsOffer-snoc n first [] s o m h = cc
IsOffer-snoc n first (x ∷ out) s o m h = (
  o.0,
  omega (arith, o.1, length-append out (mode_of s ∷ [])),
  All-snoc IsMode (x ∷ out) (mode_of s) o.2 m,
  Distinct-snoc (x ∷ out) s o.3 h,
)

IsOffer-more :
    (n : ℕ) (first : MttMode) (out : List MttMode) → IsOffer n first out → IsOffer (suc n) first out
IsOffer-more n first out o = (o.0, omega (arith, o.1), o.2, o.3)

landscape_sides :
    (s : Size) → IsAligned s → IsAligned (landscape s) × ((landscape s).1 ≤ (landscape s).0)
unfolding landscape
landscape_sides (w, h) a = ground (arith, a)

push-IsOffer :
    (n : ℕ) (first : MttMode) (out : List MttMode) (s : Size)
    → IsAligned s
    → IsOffer n first out
    → IsOffer (suc n) first (push s false out)
unfolding push
push-IsOffer n first out s a o =
    let size = landscape s in
    let (al, l) = landscape_sides s a in
    elim (Bool-cases (ltb size.0 640 || ltb size.1 480)) [
      | inl e ↦ rw e (IsOffer-more n first out o)
      | inr e ↦ elim (Bool-cases (has_size out size)) [
        | inl h ↦ rw (e, h) (IsOffer-more n first out o)
        | inr h ↦
            rw (e, h)
              (IsOffer-snoc n first out size o (al.0, al.1, ground (arith, e), l, al.2, refl) h)
      ]
    ]

-- A property of both branches.
if-both {ℓ} :
    {A : Type ℓ} (Q : A → Type 0) (b : Bool) {x y : A} → Q x → Q y → Q (if b then x else y)
if-both Q true h k = h
if-both Q false h k = k

abbrev AlignedSibling : Sibling → Type 0
AlignedSibling none = Unit {0}
AlignedSibling (some (diff, s)) = IsAligned s

abbrev AlignedPanels : List Size → Type 0
AlignedPanels panels = All (λ p. IsAligned (align16_floor p.0, align16_floor p.1)) panels

closest-Aligned :
    (s : Size) (best : Sibling) (panels : List Size)
    → AlignedPanels panels
    → AlignedSibling best
    → AlignedSibling (closest s best panels)
unfolding closest
closest-Aligned s best [] a b = b
closest-Aligned (w, h) best (panel ∷ panels) a b =
    let pw = align16_floor panel.0 in
    let ph = align16_floor panel.1 in
    let diff = distance (pw * h) (w * ph) in
    let skip = closest-Aligned (w, h) best panels a.1 b in
    let taken = closest-Aligned (w, h) (some (diff, (pw, ph))) panels a.1 a.0 in
    if-both AlignedSibling (pw == w && ph == h) skip (
      if-both AlignedSibling (ltb (w * ph) (100 * diff)) skip (
        if-both AlignedSibling (ltb (8 * w) (100 * distance pw w)) skip
          (if-both AlignedSibling (beats diff ph best) taken skip)))

push_sibling-IsOffer :
    (n : ℕ) (first : MttMode) (out : List MttMode) (best : Sibling)
    → AlignedSibling best
    → IsOffer n first out
    → IsOffer (suc n) first (push_sibling best out)
unfolding push_sibling
push_sibling-IsOffer n first out none a o = IsOffer-more n first out o
push_sibling-IsOffer n first out (some (diff, s)) a o = push-IsOffer n first out s a o

floored-IsAligned :
    (s : Size)
    → out_of_range (floored s) ≡ false
    → IsAligned (floored s) × IsMode (mode_of (floored s))
unfolding floored landscape out_of_range align16_floor
floored-IsAligned (w, h) r = ground (arith, r)

floor_small :
    (w h : ℕ) → w ≤ edid_max_dim → h ≤ edid_max_dim → IsAligned (align16_floor w, align16_floor h)
unfolding align16_floor
floor_small w h l k = omega arith

panels-Aligned : AlignedPanels ipad_panels
unfolding align16_floor
panels-Aligned = ground arith

push_native : (s : Size) → IsMode (mode_of s) → push s true [] ≡ mode_of s ∷ []
unfolding push has_size landscape
push_native (w, h) m = ground (arith, m)

modes_of-IsOffer :
    (s : Size) → IsAligned s → IsMode (mode_of s) → IsOffer 4 (mode_of s) (modes_of s)
unfolding modes_of
modes_of-IsOffer (w, h) a m =
    let native = push (w, h) true [] in
    let sibling = push_sibling (closest (w, h) none ipad_panels) native in
    let first = mode_of (w, h) in
    let three_quarters : Size =
      (align16_floor (w * 3 % 2 ^ 32 / 4), align16_floor (h * 3 % 2 ^ 32 / 4)) in
    let half : Size = (align16_floor (w / 2), align16_floor (h / 2)) in
    let o1 : IsOffer 1 first native =
      subst (IsOffer 1 first) (sym (push_native (w, h) m)) (refl, omega arith, (m, tt), (tt, tt)) in
    let o2 =
      push_sibling-IsOffer 1 first native (closest (w, h) none ipad_panels)
        (closest-Aligned (w, h) none ipad_panels panels-Aligned tt) o1 in
    let o3 =
      push-IsOffer 2 first sibling three_quarters
        (floor_small (w * 3 % 2 ^ 32 / 4) (h * 3 % 2 ^ 32 / 4) (omega arith) (omega arith)) o2 in
    let o4 =
      push-IsOffer 3 first (push three_quarters false sibling) half
        (floor_small (w / 2) (h / 2) (omega arith) (omega arith)) o3 in
    subst (IsOffer 4 first)
      (sym (take-all 4 (push half false (push three_quarters false sibling)) o4.1)) o4

-- The mode that a tablet's own size asks for: the size itself, or the default size where it is out
-- of range.
abbrev pub wanted_size : Size → Size
wanted_size s = if out_of_range (floored s) then (2352, 1632) else floored s

in_range-IsOffer :
    (default_modes : List MttMode) (s : Size)
    → out_of_range (floored s) ≡ false
    → IsOffer 4 (mode_of (floored s)) (modes_or default_modes s)
unfolding modes_or
in_range-IsOffer default_modes (w, h) r =
    let (a, m) = floored-IsAligned (w, h) r in rw r (modes_of-IsOffer (floored (w, h)) a m)

default_in_range : out_of_range (floored (2360, 1640)) ≡ false
unfolding floored landscape out_of_range align16_floor
default_in_range = refl

default-IsOffer : IsOffer 4 (mode_of (2352, 1632)) (modes_or [] (2360, 1640))
unfolding floored landscape align16_floor
default-IsOffer = in_range-IsOffer [] (2360, 1640) default_in_range

no_default : (w h : ℕ) → out_of_range (floored (w, h)) ≡ true → (w == 2360 && h == 1640) ≡ false
unfolding floored landscape out_of_range align16_floor
no_default w h r = ground (arith, r)

falls_back :
    (default_modes : List MttMode) (w h : ℕ)
    → out_of_range (floored (w, h)) ≡ true
    → modes_or default_modes (w, h) ≡ default_modes
unfolding modes_or
falls_back default_modes w h e = rw (e, no_default w h e) refl

-- For every size a tablet may state, one to four modes are offered, all different and each
-- landscape at 60 Hz with sides that are multiples of 16 from 16 to 4095; the first is the tablet's
-- own size rounded down to multiples of 16, or the default size where that is out of range.
pub mtt_modes_for_hello-IsOffer :
    (w h : ℕ) → IsOffer 4 (mode_of (wanted_size (w, h))) (mtt_modes_for_hello w h)
unfolding mtt_modes_for_hello
mtt_modes_for_hello-IsOffer w h = elim (Bool-cases (out_of_range (floored (w, h)))) [
  | inl e ↦ rw (e, falls_back (modes_or [] (2360, 1640)) w h e) default-IsOffer
  | inr e ↦ rw e (in_range-IsOffer (modes_or [] (2360, 1640)) (w, h) e)
]
