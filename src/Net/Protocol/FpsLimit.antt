-- ===== src/Net/Protocol/FpsLimit.antt =====
-- src/net/Protocol.cpp: StreamFpsLimit, the frame rate that the receiver's envelopes allow; with
-- VideoCapEntry of Protocol.h. Sizes and rates are uint32_t, products uint64_t.
pub mod Optimal
use opendisplay_win.Common.{
  ℕ, ◌*◌, ◌/◌, ◌%◌, ◌^◌, leb, ◌==◌, if◌then◌else◌, Bool, true, false, not, ◌&&◌, ◌||◌, List, [],
  ◌∷◌, Bytes, equal,
}
use Prim.Native.Nat.{min, max}

-- 0 is an absent limit.
pub record VideoCapEntry : Type 0 where
  pub codec : Bytes
  pub max_width : ℕ
  pub max_height : ℕ
  pub max_frame_rate : ℕ
  pub max_pixels_per_second : ℕ

abbrev pub legacy_fps : ℕ
legacy_fps = 60

abbrev pub no_rate : ℕ
no_rate = 0xffff_ffff

-- The rate that one envelope allows at this raster.
unfoldable pub entry_rate : VideoCapEntry → ℕ → ℕ
entry_rate e pixels =
    let rate = if e.max_frame_rate == 0 then no_rate else e.max_frame_rate in
    if not (e.max_pixels_per_second == 0) && not (pixels == 0)
    then min rate (min (e.max_pixels_per_second / pixels) no_rate)
    else rate

unfoldable pub entry_fits : VideoCapEntry → ℕ → ℕ → Bool
entry_fits e width height =
    (e.max_width == 0 || leb width e.max_width) && (e.max_height == 0 || leb height e.max_height)

-- `bestFit`, `bestAny`, `any` and `anyFit`.
pub record Best : Type 0 where
  pub best_fit : ℕ
  pub best_any : ℕ
  pub any : Bool
  pub any_fit : Bool

abbrev pub no_best : Best
no_best = record { best_fit = 0; best_any = 0; any = false; any_fit = false }

-- The body of the loop, for an entry of the codec.
unfoldable pub take_entry : VideoCapEntry → ℕ → ℕ → ℕ → Best → Best
take_entry e width height pixels b =
    let rate = entry_rate e pixels in
    let b' = record b { any = true; best_any = max b.best_any rate } in
    if entry_fits e width height
    then record b' { any_fit = true; best_fit = max b.best_fit rate }
    else b'

unfoldable pub best_of : List VideoCapEntry → Bytes → ℕ → ℕ → ℕ → Best → Best
best_of [] codec width height pixels b = b
best_of (e ∷ es) codec width height pixels b =
    best_of es codec width height pixels
      (if equal e.codec codec then take_entry e width height pixels b else b)

abbrev pub caps_of : Best → ℕ
caps_of b = if not b.any then no_rate else if b.any_fit then b.best_fit else b.best_any

-- `hello` is read at its frame rate and its envelopes.
unfoldable pub stream_fps_limit : ℕ → List VideoCapEntry → Bytes → ℕ → ℕ → ℕ
stream_fps_limit display_max caps codec width height =
    let display = if display_max == 0 then legacy_fps else display_max in
    let pixels = width * height % 2 ^ 64 in
    let limit = min display (caps_of (best_of caps codec width height pixels no_best)) in
    if limit == 0 then 1 else limit
