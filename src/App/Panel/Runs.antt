-- ===== src/App/Panel/Runs.antt =====
-- Two senders on a panel, and one that is refused.
use opendisplay_win.Common.{false, some, [], ◌∷◌, ◌≡◌, refl}
use opendisplay_win.App.Panel.{
  PanelState, idle_panel, refused, acquire_panel, release_panel, retune_panel,
}
use opendisplay_win.App.Panel.Senders.{
  Claim, System, take, leave, turn, Reach, start, next, IsConsistent, Reach-IsConsistent,
}

abbrev first_claim : Claim
first_claim = record { sender = 1; width = 2048; height = 1536; exclusive = false }

abbrev second_claim : Claim
second_claim = record { sender = 2; width = 2048; height = 1536; exclusive = false }

abbrev turned_claim : Claim
turned_claim = record { sender = 2; width = 1536; height = 2048; exclusive = false }

abbrev turned_panel : PanelState
turned_panel = record {
  width = 1536;
  height = 2048;
  holders = 1;
  exclusive = false;
  first = some 1;
}

abbrev idle_system : System
idle_system = record { panel = idle_panel; claims = [] }

abbrev one : System
one = record { panel = (acquire_panel idle_panel 2048 1536 false 1).0; claims = first_claim ∷ [] }

abbrev two : System
two = record {
  panel = (acquire_panel one.panel 2048 1536 false 2).0;
  claims = second_claim ∷ first_claim ∷ [];
}

abbrev left : System
left = record { panel = (release_panel two.panel).0; claims = second_claim ∷ [] }

-- Two join, the first of them leaves, and the other turns the panel.
turned :
    Reach (record { panel = (retune_panel left.panel 1536 2048).0; claims = turned_claim ∷ [] })
unfolding acquire_panel release_panel retune_panel
turned =
    next
      (next (next (next start (take idle_system first_claim refl)) (take one second_claim refl))
        (leave two.panel (second_claim ∷ []) first_claim []))
      (turn left.panel [] second_claim [] 1536 2048)

Reach-IsConsistent_example :
    IsConsistent
      (record { panel = (retune_panel left.panel 1536 2048).0; claims = turned_claim ∷ [] })
Reach-IsConsistent_example = Reach-IsConsistent turned

-- The sender that is named to the refused one has left.
turned_lem : (retune_panel left.panel 1536 2048).0 ≡ turned_panel
unfolding acquire_panel release_panel retune_panel
turned_lem = refl

refused_lem :
    acquire_panel turned_panel 2048 1536 false 3 ≡ (turned_panel, refused 1536 2048 (some 1))
unfolding acquire_panel
refused_lem = refl
