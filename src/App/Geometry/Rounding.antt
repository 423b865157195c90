-- ===== src/App/Geometry/Rounding.antt =====
-- How far a size is from the one asked for, and the doubling of the wait.
use opendisplay_win.Common.{
  ℕ, zero, suc, ◌+◌, ◌*◌, ◌/◌, ◌^◌, min, ◌≤◌, ◌≤ℤ◌, ◌<◌, ℤ, pos, negsuc, ◌≡◌, ap, sym, arith, ◌∙◌,
}
use native.Mathlib.Numerals.{unary_clauses}
use native.Mathlib.Nat.{pow-succ', mul_assoc, le-mul_of_pos_right, one-le-pow}
use opendisplay_win.App.Geometry.{
  DisplayBackendKind, mtt, parsec, align16_clamp, align16_ceil, even_clamp, hello_dim, even_ceil,
  doubled, no_hello_backoff_ms,
}

-- For a dimension from 16 on that fits an int32_t, the display is at most fifteen pixels smaller than the hello asks and never larger, the encoder
-- at most fifteen larger than the display, and for MTT the two are the same.
pub hello_dim-align16_ceil :
    (kind : DisplayBackendKind) (v fallback : ℕ)
    → 16 ≤ v
    → v < 2 ^ 31
    → (hello_dim kind (pos v) fallback ≤ v)
      × (v < hello_dim kind (pos v) fallback + 16)
      × (hello_dim kind (pos v) fallback
          ≤ align16_ceil (even_ceil (hello_dim kind (pos v) fallback)))
      × (align16_ceil (even_ceil (hello_dim kind (pos v) fallback))
          < hello_dim kind (pos v) fallback + 16)
      × (align16_ceil (even_ceil (hello_dim mtt (pos v) fallback)) ≡ hello_dim mtt (pos v) fallback)
unfolding hello_dim align16_ceil even_ceil align16_clamp even_clamp
hello_dim-align16_ceil mtt zero fallback h k = omega arith
hello_dim-align16_ceil parsec zero fallback h k = omega arith
hello_dim-align16_ceil mtt (suc v) fallback h k = ground arith
hello_dim-align16_ceil parsec (suc v) fallback h k = ground arith

-- A dimension that is missing or not positive gives the fallback, if that is 16 at least, rounded down.
pub hello_dim-fallback :
    (v : ℤ) (fallback : ℕ)
    → v ≤ℤ pos 0
    → 16 ≤ fallback
    → (hello_dim mtt v fallback ≡ fallback / 16 * 16)
      × (hello_dim parsec v fallback ≡ fallback / 2 * 2)
unfolding hello_dim align16_clamp even_clamp
hello_dim-fallback (pos zero) fallback h k = ground arith
hello_dim-fallback (pos (suc n)) fallback h k = omega arith
hello_dim-fallback (negsuc n) fallback h k = ground arith

min-doubled : (rounds ms : ℕ) → 0 < ms → min (doubled rounds ms) 30000 ≡ min (ms * 2 ^ rounds) 30000
unfolding doubled
min-doubled zero ms h = ground arith
min-doubled (suc n) ms h =
    let ih = min-doubled n (ms * 2) (omega arith) in
    let same : (ms * 2 ^ suc n ≡ ms * 2 * 2 ^ n) =
      ap (λ k. ms * k) (pow-succ' 2 n) ∙ sym (mul_assoc ms 2 (2 ^ n)) in
    let large : (ms ≤ ms * 2 ^ suc n) =
      le-mul_of_pos_right ms (one-le-pow (suc n) 2 (omega arith)) in
    ground arith

-- The wait after the n-th link in a row without a hello is 500 ms, doubled n - 1 times and at most
-- 30 s.
pub no_hello_backoff_ms_lem : (n : ℕ) → no_hello_backoff_ms (pos (suc n)) ≡ min (500 * 2 ^ n) 30000
unfolding no_hello_backoff_ms
no_hello_backoff_ms_lem n = simp unary_clauses (min-doubled n 500 (omega arith))
