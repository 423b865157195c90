-- ===== src/App/Panel.antt =====
-- src/app/SenderApp.cpp: PanelState and the three functions over it, each under the panel's mutex,
-- so that each is one step. A sender is a number, and no sender is none.
pub mod Senders
mod Runs
use opendisplay_win.Common.{
  ℕ, ◌+◌, ◌-◌, ltb, leb, ◌==◌, if◌then◌else◌, Bool, true, false, not, ◌&&◌, ◌||◌, Option, none,
  some,
}

pub record PanelState : Type 0 where
  pub width : ℕ
  pub height : ℕ
  pub holders : ℕ
  pub exclusive : Bool
  pub first : Option ℕ

abbrev pub idle_panel : PanelState
idle_panel = record { width = 0; height = 0; holders = 0; exclusive = false; first = none }

-- What AcquirePanel answers: the size and the sender in the way are its out-parameters.
pub data Acquired : Type 0 where
  granted : Acquired
  refused : ℕ → ℕ → Option ℕ → Acquired

-- The state after the last two `if`s.
take_share : PanelState → ℕ → ℕ → Bool → ℕ → PanelState
take_share p w h exclusive self =
    let p' = if p.holders == 0 then record p { exclusive = exclusive; first = some self } else p in
    record p' { width = w; height = h; holders = p'.holders + 1 }

unfoldable pub acquire_panel : PanelState → ℕ → ℕ → Bool → ℕ → PanelState × Acquired
unfolding take_share
acquire_panel p w h exclusive self =
    if ltb 0 p.holders && (exclusive || p.exclusive || not (p.width == w) || not (p.height == h))
    then (p, refused p.width p.height p.first)
    else (take_share p w h exclusive self, granted)

-- The answer is whether this was the last holder.
unfoldable pub release_panel : PanelState → PanelState × Bool
release_panel p =
    if leb p.holders 1 then (idle_panel, true) else (record p { holders = p.holders - 1 }, false)

unfoldable pub retune_panel : PanelState → ℕ → ℕ → PanelState × Bool
retune_panel p w h =
    if ltb 1 p.holders then (p, false) else (record p { width = w; height = h }, true)
