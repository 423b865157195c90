-- ===== src/Display/Edid/Modes.antt =====
-- src/display/MttVddSettings.cpp, MttModesForHello: the sizes that the head offers a tablet.
pub mod Offer
use opendisplay_win.Display.Edid.{MttMode, mtt_refresh, edid_max_dim, align16_floor}
use opendisplay_win.Common.{
  ℕ, zero, suc, ◌+◌, ◌-◌, ◌*◌, ◌/◌, ◌%◌, ◌^◌, ltb, ◌==◌, if◌then◌else◌, Bool, true, false, not,
  ◌&&◌, ◌||◌, Option, none, some, List, [], ◌∷◌, ◌++◌, length, take,
}

-- A width and a height.
abbrev pub Size : Type 0
Size = ℕ × ℕ

-- `kIpadPanels`.
abbrev pub ipad_panels : List Size
ipad_panels =
    (2360, 1640)
    ∷ (2388, 1668)
    ∷ (2420, 1668)
    ∷ (2732, 2048)
    ∷ (2752, 2064)
    ∷ (2266, 1488)
    ∷ (2160, 1620)
    ∷ (2224, 1668)
    ∷ (2048, 1536)
    ∷ []

-- The long side first.
unfoldable pub landscape : Size → Size
landscape (w, h) = if ltb w h then (h, w) else (w, h)

unfoldable pub has_size : List MttMode → Size → Bool
has_size [] s = false
has_size (m ∷ modes) s = m.width == s.0 && m.height == s.1 || has_size modes s

unfoldable pub mode_offered : List MttMode → ℕ → ℕ → Bool
mode_offered offered w h = has_size offered (landscape (w, h))

abbrev pub mode_of : Size → MttMode
mode_of s = record { width = s.0; height = s.1; hz = mtt_refresh }

-- The lambda `push`.
unfoldable pub push : Size → Bool → List MttMode → List MttMode
push s native out =
    let (w, h) = landscape s in
    if not native && (ltb w 640 || ltb h 480)
    then out
    else if has_size out (w, h)
    then out
    else out ++ mode_of (w, h) ∷ []

abbrev distance : ℕ → ℕ → ℕ
distance a b = (a - b) + (b - a)

-- `bestDiff`, `bestPw` and `bestPh`, if there is a best panel.
abbrev Sibling : Type 0
Sibling = Option (ℕ × Size)

abbrev beats : ℕ → ℕ → Sibling → Bool
beats diff ph none = true
beats diff ph (some (best_diff, best)) = ltb (diff * best.1) (best_diff * ph)

unfoldable pub closest : Size → Sibling → List Size → Sibling
closest s best [] = best
closest (w, h) best (panel ∷ panels) =
    let pw = align16_floor panel.0 in
    let ph = align16_floor panel.1 in
    let diff = distance (pw * h) (w * ph) in
    let skip = closest (w, h) best panels in
    let taken = closest (w, h) (some (diff, (pw, ph))) panels in
    if pw == w && ph == h
    then skip
    else if ltb (w * ph) (100 * diff)
    then skip
    else if ltb (8 * w) (100 * distance pw w)
    then skip
    else if beats diff ph best
    then taken
    else skip

unfoldable pub push_sibling : Sibling → List MttMode → List MttMode
push_sibling none out = out
push_sibling (some (diff, s)) out = push s false out

-- The modes for a size in range.
unfoldable pub modes_of : Size → List MttMode
modes_of (w, h) =
    let native = push (w, h) true [] in
    let sibling = push_sibling (closest (w, h) none ipad_panels) native in
    let three_quarters : Size =
      (align16_floor (w * 3 % 2 ^ 32 / 4), align16_floor (h * 3 % 2 ^ 32 / 4)) in
    let half : Size = (align16_floor (w / 2), align16_floor (h / 2)) in
    take 4 (push half false (push three_quarters false sibling))

unfoldable pub floored : Size → Size
floored s = let (w, h) = landscape s in (align16_floor w, align16_floor h)

unfoldable pub out_of_range : Size → Bool
out_of_range (w, h) = ltb w 16 || ltb h 16 || ltb edid_max_dim w || ltb edid_max_dim h

-- The body, with what the call for the default size returns.
unfoldable pub modes_or : List MttMode → Size → List MttMode
modes_or default_modes (w, h) =
    if out_of_range (floored (w, h))
    then (if w == 2360 && h == 1640 then [] else default_modes)
    else modes_of (floored (w, h))

unfoldable pub mtt_modes_for_hello : ℕ → ℕ → List MttMode
mtt_modes_for_hello w h = modes_or (modes_or [] (2360, 1640)) (w, h)
