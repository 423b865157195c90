-- ===== src/App/Panel/Senders.antt =====
-- Any number of senders that take, leave and ask to turn the panel, in any order.
use opendisplay_win.Common.{
  ◌∙◌, ℕ, suc, ◌+◌, ◌-◌, ◌<◌, ltb, leb, Bool, true, false, not, ◌&&◌, some, List, [], ◌∷◌, ◌++◌,
  length, length-append, Bool-cases, All, ◌≡◌, ◌≢◌, ◌⊎◌, inl, inr, refl, arith,
}
use opendisplay_win.App.Panel.{
  PanelState, idle_panel, granted, refused, acquire_panel, release_panel, retune_panel,
}

-- What a sender that holds a share has asked for.
pub record Claim : Type 0 where
  pub sender : ℕ
  pub width : ℕ
  pub height : ℕ
  pub exclusive : Bool

pub record System : Type 0 where
  pub panel : PanelState
  pub claims : List Claim

-- The claim of a sender that wanted another size, after the answer to it.
abbrev pub retuned : Bool → ℕ → ℕ → Claim → Claim
retuned true w h c = record c { width = w; height = h }
retuned false w h c = c

-- A sender is granted a share; one that holds a share leaves, in whatever order; one that holds a
-- share asks for another size, and has it when the panel says so.
pub data Step : System → System → Type 0 where
  take :
      (s : System) (c : Claim)
      → (acquire_panel s.panel c.width c.height c.exclusive c.sender).1 ≡ granted
      → Step s (record {
        panel = (acquire_panel s.panel c.width c.height c.exclusive c.sender).0;
        claims = c ∷ s.claims;
      })
  leave :
      (p : PanelState) (front : List Claim) (c : Claim) (back : List Claim)
      → Step
          (record { panel = p; claims = front ++ c ∷ back })
          (record { panel = (release_panel p).0; claims = front ++ back })
  turn :
      (p : PanelState) (front : List Claim) (c : Claim) (back : List Claim) (w h : ℕ)
      → Step
          (record { panel = p; claims = front ++ c ∷ back })
          (record {
            panel = (retune_panel p w h).0;
            claims = front ++ retuned (retune_panel p w h).1 w h c ∷ back;
          })

pub data Reach : System → Type 0 where
  start : Reach (record { panel = idle_panel; claims = [] })
  next : {s t : System} → Reach s → Step s t → Reach t

-- Every claim is for the panel's size; an exclusive claim makes the panel exclusive.
abbrev pub Agrees : PanelState → Claim → Type 0
Agrees p c =
    (c.width ≡ p.width) × (c.height ≡ p.height) × ((c.exclusive && not p.exclusive) ≡ false)

pub record IsConsistent (s : System) : Type 0 where
  pub counted : s.panel.holders ≡ length s.claims
  pub agreed : All (Agrees s.panel) s.claims
  pub alone : (s.panel.exclusive && ltb 1 s.panel.holders) ≡ false
  pub idle : (s.panel ≡ idle_panel) ⊎ (0 < s.panel.holders)

All-drop :
    (p : PanelState) (front : List Claim) (c : Claim) (back : List Claim)
    → All (Agrees p) (front ++ c ∷ back)
    → All (Agrees p) (front ++ back)
All-drop p [] c back h = h.1
All-drop p (x ∷ front) c back h = (h.0, All-drop p front c back h.1)

All-same :
    (p q : PanelState) (cs : List Claim)
    → p.width ≡ q.width
    → p.height ≡ q.height
    → p.exclusive ≡ q.exclusive
    → All (Agrees p) cs
    → All (Agrees q) cs
All-same p q [] hw hh he a = tt
All-same p q (c ∷ cs) hw hh he a = (ground (arith, a.0), All-same p q cs hw hh he a.1)

module _ (p : PanelState) (w h : ℕ) (e : Bool) (self : ℕ) where
  -- A share beside others is granted only for the same size, and if neither is exclusive.
  acquire_panel_joins :
      0 < p.holders
      → (acquire_panel p w h e self).1 ≡ granted
      → (p.width ≡ w)
        × (p.height ≡ h)
        × (e ≡ false)
        × (p.exclusive ≡ false)
        × ((acquire_panel p w h e self).0
            ≡ record p { width = w; height = h; holders = p.holders + 1 })
  unfolding acquire_panel
  acquire_panel_joins n g = ground arith

  acquire_panel_first :
      p.holders ≡ 0
      → (acquire_panel p w h e self).0
        ≡ record { width = w; height = h; holders = 1; exclusive = e; first = some self }
  unfolding acquire_panel
  acquire_panel_first n = ground arith

take-IsConsistent :
    (s : System) (c : Claim)
    → (acquire_panel s.panel c.width c.height c.exclusive c.sender).1 ≡ granted
    → IsConsistent s
    → IsConsistent (record {
      panel = (acquire_panel s.panel c.width c.height c.exclusive c.sender).0;
      claims = c ∷ s.claims;
    })
take-IsConsistent s c g h = go s.claims h.counted h.agreed
  where
    go :
        (cs : List Claim)
        → s.panel.holders ≡ length cs
        → All (Agrees s.panel) cs
        → IsConsistent (record {
          panel = (acquire_panel s.panel c.width c.height c.exclusive c.sender).0;
          claims = c ∷ cs;
        })
    go [] n a = rw (acquire_panel_first s.panel c.width c.height c.exclusive c.sender n) (record {
      counted = omega arith;
      agreed = ((refl, refl, ground arith), tt);
      alone = ground arith;
      idle = inr (omega arith);
    })
    go (d ∷ ds) n a =
        let (sw, sh, ce, pe, now) =
          acquire_panel_joins s.panel c.width c.height c.exclusive c.sender (omega arith) g in
        rw now (record {
          counted = omega arith;
          agreed = (
            (refl, refl, ground arith),
            All-same s.panel
                (record s.panel {
                  width = c.width;
                  height = c.height;
                  holders = s.panel.holders + 1;
                })
                (d ∷ ds) sw sh refl a,
          );
          alone = ground arith;
          idle = inr (omega arith);
        })

leave-IsConsistent :
    (p : PanelState) (front : List Claim) (c : Claim) (back : List Claim)
    → IsConsistent (record { panel = p; claims = front ++ c ∷ back })
    → IsConsistent (record { panel = (release_panel p).0; claims = front ++ back })
leave-IsConsistent p front c back h =
    let rest = All-drop p front c back h.agreed in
    let size : (p.holders ≡ suc (length (front ++ back))) =
      h.counted ∙ omega (arith, length-append front (c ∷ back), length-append front back) in
    go (front ++ back) size rest
  where
    go :
        (cs : List Claim)
        → p.holders ≡ suc (length cs)
        → All (Agrees p) cs
        → IsConsistent (record { panel = (release_panel p).0; claims = cs })
    go [] n a =
        unfold release_panel in
        let last : (leb p.holders 1 ≡ true) = ground arith in
        rw last (record { counted = refl; agreed = tt; alone = refl; idle = inl refl })
    go (d ∷ ds) n a =
        unfold release_panel in
        let more : (leb p.holders 1 ≡ false) = ground arith in
        let alone = h.alone in
        rw more (record {
          counted = omega arith;
          agreed = All-same p (record p { holders = p.holders - 1 }) (d ∷ ds) refl refl refl a;
          alone = ground arith;
          idle = inr (omega arith);
        })

turned-IsConsistent :
    (p : PanelState) (c : Claim) (w h : ℕ)
    → IsConsistent (record { panel = p; claims = c ∷ [] })
    → IsConsistent (record {
      panel = record p { width = w; height = h };
      claims = record c { width = w; height = h } ∷ [];
    })
turned-IsConsistent p c w h i = ground arith

-- The size changes only where the asking sender is alone.
turn-IsConsistent :
    (p : PanelState) (front : List Claim) (c : Claim) (back : List Claim) (w h : ℕ)
    → IsConsistent (record { panel = p; claims = front ++ c ∷ back })
    → IsConsistent (record {
      panel = (retune_panel p w h).0;
      claims = front ++ retuned (retune_panel p w h).1 w h c ∷ back;
    })
turn-IsConsistent p front c back w h i = elim (Bool-cases (ltb 1 p.holders)) [
  | inl many ↦ unfold retune_panel in rw many i
  | inr few ↦ go front back i few
]
  where
    go :
        (front back : List Claim)
        → IsConsistent (record { panel = p; claims = front ++ c ∷ back })
        → ltb 1 p.holders ≡ false
        → IsConsistent (record {
          panel = (retune_panel p w h).0;
          claims = front ++ retuned (retune_panel p w h).1 w h c ∷ back;
        })
    go [] [] i few = unfold retune_panel in rw few (turned-IsConsistent p c w h i)
    go [] (d ∷ ds) i few = let n = i.counted in ground (arith, n, few)
    go (d ∷ ds) back i few =
        let n = i.counted in let m = length-append ds (c ∷ back) in ground (arith, n, m, few)

Step-IsConsistent : {s t : System} → Step s t → IsConsistent s → IsConsistent t
Step-IsConsistent (take s c g) h = take-IsConsistent s c g h
Step-IsConsistent (leave p front c back) h = leave-IsConsistent p front c back h
Step-IsConsistent (turn p front c back w k) h = turn-IsConsistent p front c back w k h

-- However the senders come, go and ask for other sizes, the panel's count is the number of shares held, every share is
-- for the panel's one size, an exclusive panel has one holder, and a panel with no holder is idle.
pub Reach-IsConsistent : {s : System} → Reach s → IsConsistent s
Reach-IsConsistent start = record { counted = refl; agreed = tt; alone = refl; idle = inl refl }
Reach-IsConsistent (next r st) = Step-IsConsistent st (Reach-IsConsistent r)

-- AcquirePanel refuses exactly when someone holds the panel and the sizes differ or one of the two
-- wants it alone; it then changes nothing and names the size in the way.
pub acquire_panel_refuses :
    (p : PanelState) (w h self : ℕ) (e : Bool)
    → ((((acquire_panel p w h e self).0 ≡ p)
          × ((acquire_panel p w h e self).1 ≡ refused p.width p.height p.first))
        × (0 < p.holders)
        × ((e ≡ true) ⊎ ((p.exclusive ≡ true) ⊎ ((p.width ≢ w) ⊎ (p.height ≢ h)))))
      ⊎ (((acquire_panel p w h e self).1 ≡ granted)
          × ((acquire_panel p w h e self).0.holders ≡ p.holders + 1)
          × ((p.holders ≡ 0)
              ⊎ ((p.width ≡ w) × (p.height ≡ h) × (e ≡ false) × (p.exclusive ≡ false))))
unfolding acquire_panel
acquire_panel_refuses p w h self e = ground arith
