-- ===== src/App/Geometry.antt =====
-- src/app/SenderApp.cpp: the sizes of the display and the encoder, and how long a sender waits after
-- a link that closed before its hello. A `uint32_t` keeps its wrap-around.
pub mod Rounding
mod Runs
use opendisplay_win.Common.{
  ℕ, zero, suc, ◌+◌, ◌-◌, ◌*◌, ◌/◌, ◌%◌, ◌^◌, min, ltb, ◌==◌, if◌then◌else◌, ℤ, pos, pos_part,
}

-- DisplayBackendKind of src/display/DisplayBackend.h.
pub data DisplayBackendKind : Type 0 where
  mtt : DisplayBackendKind
  parsec : DisplayBackendKind

-- `v > 0 ? v : fallback`.
wanted : ℤ → ℕ → ℕ
wanted (pos (suc n)) fallback = suc n
wanted _ fallback = fallback

-- `u & ~15u`.
floor16 : ℕ → ℕ
floor16 u = u / 16 * 16

unfoldable pub align16_clamp : ℤ → ℕ → ℕ
unfolding wanted floor16
align16_clamp v fallback =
    let u = floor16 (wanted v fallback) in if u == 0 then floor16 fallback else u

unfoldable pub align16_ceil : ℕ → ℕ
unfolding floor16
align16_ceil v = floor16 ((v + 15) % 2 ^ 32)

unfoldable pub even_clamp : ℤ → ℕ → ℕ
unfolding wanted
even_clamp v fallback = wanted v fallback / 2 * 2

unfoldable pub hello_dim : DisplayBackendKind → ℤ → ℕ → ℕ
unfolding align16_clamp even_clamp
hello_dim mtt v fallback = align16_clamp v fallback
hello_dim parsec v fallback = even_clamp v fallback

unfoldable pub even_ceil : ℕ → ℕ
even_ceil v = (v + 1) % 2 ^ 32 / 2 * 2

-- The loop of NoHelloBackoffMs, with the rounds left.
unfoldable pub doubled : ℕ → ℕ → ℕ
doubled zero ms = ms
doubled (suc rounds) ms = let more = doubled rounds (ms * 2) in if ltb ms 30000 then more else ms

unfoldable pub no_hello_backoff_ms : ℤ → ℕ
no_hello_backoff_ms failures = min (doubled (pos_part failures - 1) 500) 30000
