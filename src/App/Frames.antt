-- ===== src/App/Frames.antt =====
-- src/app/SenderApp.cpp: the text that goes before the access unit in a frame.
pub mod Timing
mod Runs
use opendisplay_win.Common.{ℕ, suc, ◌++◌, Bytes, codes, digits, ℤ, pos, negsuc}

-- `%lld`
abbrev pub decimal : ℤ → Bytes
decimal (pos n) = digits n
decimal (negsuc n) = codes "-" ++ digits (suc n)

-- What snprintf writes; it is shorter than the buffer.
unfoldable pub timing_head : ℤ → ℤ → Bytes
timing_head cap_ms snd_ms =
    codes "{\"cap\":" ++ (decimal cap_ms ++ (codes ",\"snd\":" ++ (decimal snd_ms ++ codes "}")))

unfoldable pub prefix_annex_b_with_timing : Bytes → ℤ → ℤ → Bytes
prefix_annex_b_with_timing annex_b cap_ms snd_ms = timing_head cap_ms snd_ms ++ annex_b
