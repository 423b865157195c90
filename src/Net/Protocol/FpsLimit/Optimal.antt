-- ===== src/Net/Protocol/FpsLimit/Optimal.antt =====
-- The limit is the best that one envelope of the codec allows, those that fit first.
use opendisplay_win.Common.{
  ℕ, ◌*◌, ◌%◌, ◌^◌, ◌≤◌, ◌<◌, ◌==◌, if◌then◌else◌, Bool, true, false, ◌&&◌, ◌||◌, List, [], ◌∷◌,
  Bytes, equal, ◌≡◌, ◌∙◌, arith,
}
use Prim.Native.Nat.{min, max}
use native.Mathlib.Nat.{mod-eq_of_lt}
use opendisplay_win.Net.Protocol.FpsLimit.{
  VideoCapEntry, legacy_fps, no_rate, entry_rate, entry_fits, Best, no_best, take_entry, best_of,
  stream_fps_limit,
}

abbrev pub max_rate : (VideoCapEntry → Bool) → ℕ → List VideoCapEntry → ℕ
max_rate p pixels [] = 0
max_rate p pixels (e ∷ es) =
    if p e then max (entry_rate e pixels) (max_rate p pixels es) else max_rate p pixels es

abbrev pub some_entry : (VideoCapEntry → Bool) → List VideoCapEntry → Bool
some_entry p [] = false
some_entry p (e ∷ es) = p e || some_entry p es

abbrev pub of_codec : Bytes → VideoCapEntry → Bool
of_codec codec e = equal e.codec codec

abbrev pub fits_codec : Bytes → ℕ → ℕ → VideoCapEntry → Bool
fits_codec codec width height e = equal e.codec codec && entry_fits e width height

module _ (codec : Bytes) (width height pixels : ℕ) where
  -- The loop against four independent sweeps over the envelopes.
  best_of_lem :
      (es : List VideoCapEntry) (b : Best)
      → best_of es codec width height pixels b ≡ record {
        best_fit = max b.best_fit (max_rate (fits_codec codec width height) pixels es);
        best_any = max b.best_any (max_rate (of_codec codec) pixels es);
        any = b.any || some_entry (of_codec codec) es;
        any_fit = b.any_fit || some_entry (fits_codec codec width height) es;
      }
  unfolding best_of
  best_of_lem [] b = ground arith
  best_of_lem (e ∷ es) b =
      best_of_lem es (if equal e.codec codec then take_entry e width height pixels b else b)
      ∙ unfold take_entry in ground arith

abbrev pub display_of : ℕ → ℕ
display_of display_max = if display_max == 0 then legacy_fps else display_max

-- What the receiver's envelopes allow: the best rate among those of the codec that the raster
-- fits, else among all of the codec, else no limit.
abbrev pub allowed : List VideoCapEntry → Bytes → ℕ → ℕ → ℕ
allowed caps codec width height =
    let pixels = width * height in
    if some_entry (fits_codec codec width height) caps
    then max_rate (fits_codec codec width height) pixels caps
    else if some_entry (of_codec codec) caps
    then max_rate (of_codec codec) pixels caps
    else no_rate

some_entry_mono :
    (codec : Bytes) (width height : ℕ) (es : List VideoCapEntry)
    → some_entry (fits_codec codec width height) es ≡ true
    → some_entry (of_codec codec) es ≡ true
some_entry_mono codec width height [] h = h
some_entry_mono codec width height (e ∷ es) h =
    ground (arith, some_entry_mono codec width height es)

area_lt : (w h : ℕ) → w < 2 ^ 32 → h < 2 ^ 32 → w * h < 2 ^ 64
area_lt w h hw hh = let m : (w * h ≤ 2 ^ 32 * h) = grind arith in omega arith

area_fits : (w h : ℕ) → w < 2 ^ 32 → h < 2 ^ 32 → w * h % 2 ^ 64 ≡ w * h
area_fits w h hw hh = mod-eq_of_lt (area_lt w h hw hh)

-- The frame rate is the smaller of the display's rate (60 if it gave none) and of what the
-- envelopes allow, and 1 at least.
pub stream_fps_limit-allowed :
    (display_max : ℕ) (caps : List VideoCapEntry) (codec : Bytes) (width height : ℕ)
    → width < 2 ^ 32
    → height < 2 ^ 32
    → stream_fps_limit display_max caps codec width height
      ≡ max 1 (min (display_of display_max) (allowed caps codec width height))
unfolding stream_fps_limit
stream_fps_limit-allowed display_max caps codec width height hw hh =
    rw (area_fits width height hw hh, best_of_lem codec width height (width * height) caps no_best)
      (ground (arith, some_entry_mono codec width height caps))
