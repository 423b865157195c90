-- ===== src/App/Usb/Claims.antt =====
-- src/app/SenderApp.cpp, UsbClaim: any number of senders that take and drop cables, in any order.
use opendisplay_win.Common.{
  ℕ, suc, ◌-◌, ◌≤◌, if◌then◌else◌, true, false, List, [], ◌∷◌, ◌++◌, Bytes, All, equal, equal_iff,
  ◌≡◌, inl, inr, refl, arith, Bool-cases,
}
use opendisplay_win.App.Config.{is_empty}
use opendisplay_win.App.Usb.{UsbClaim, claimed, take_claim, erase_claim, drop_claim}

-- The taken keys, and the claims that senders hold.
pub record Cables : Type 0 where
  pub keys : List Bytes
  pub held : List UsbClaim

abbrev no_claim : UsbClaim
no_claim = record { key = [] }

-- A sender takes a key, which is never empty, or is refused; one of the holders drops its claim.
pub data Step : Cables → Cables → Type 0 where
  take :
      (c : Cables) (k : Bytes)
      → is_empty k ≡ false
      → (take_claim k no_claim c.keys).0 ≡ true
      → Step c (record {
        keys = (take_claim k no_claim c.keys).1.1;
        held = (take_claim k no_claim c.keys).1.0 ∷ c.held;
      })
  drop :
      (keys : List Bytes) (front : List UsbClaim) (u : UsbClaim) (back : List UsbClaim)
      → Step
          (record { keys = keys; held = front ++ u ∷ back })
          (record { keys = drop_claim u keys; held = front ++ back })

pub data Reach : Cables → Type 0 where
  start : Reach (record { keys = []; held = [] })
  next : {c d : Cables} → Reach c → Step c d → Reach d

-- How many claims are for a key, and how often it is taken.
unfoldable pub holders : Bytes → List UsbClaim → ℕ
holders k [] = 0
holders k (u ∷ us) = let rest = holders k us in if equal u.key k then suc rest else rest

unfoldable pub count : Bytes → List Bytes → ℕ
count k [] = 0
count k (j ∷ js) = let rest = count k js in if equal j k then suc rest else rest

-- Each key is taken at most once, by the one sender that holds it.
pub record IsExclusive (c : Cables) : Type 0 where
  pub counted : (k : Bytes) → holders k c.held ≡ count k c.keys
  pub single : (k : Bytes) → count k c.keys ≤ 1
  pub named : All (λ u. is_empty u.key ≡ false) c.held

unclaimed_count : (k : Bytes) (keys : List Bytes) → claimed k keys ≡ false → count k keys ≡ 0
unfolding claimed count
unclaimed_count k [] h = refl
unclaimed_count k (j ∷ keys) h = ground (arith, unclaimed_count k keys)

count-erase_claim :
    (k j : Bytes) (keys : List Bytes)
    → count k (erase_claim j keys) ≡ (if equal j k then count k keys - 1 else count k keys)
unfolding erase_claim count
count-erase_claim k j [] = ground arith
count-erase_claim k j (x ∷ keys) =
    ground (arith, count-erase_claim k j keys, equal_iff x j, equal_iff j k, equal_iff x k)

holders-append :
    (k : Bytes) (front : List UsbClaim) (u : UsbClaim) (back : List UsbClaim)
    → holders k (front ++ u ∷ back)
      ≡ (if equal u.key k then suc (holders k (front ++ back)) else holders k (front ++ back))
unfolding holders
holders-append k [] u back = refl
holders-append k (x ∷ front) u back = ground (arith, holders-append k front u back)

All-middle :
    (Q : UsbClaim → Type 0) (front : List UsbClaim) (u : UsbClaim) (back : List UsbClaim)
    → All Q (front ++ u ∷ back)
    → Q u × All Q (front ++ back)
All-middle Q [] u back h = h
All-middle Q (x ∷ front) u back h = let (a, b) = All-middle Q front u back h.1 in (a, (h.0, b))

take-IsExclusive :
    (c : Cables) (k : Bytes)
    → is_empty k ≡ false
    → (take_claim k no_claim c.keys).0 ≡ true
    → IsExclusive c
    → IsExclusive (record {
      keys = (take_claim k no_claim c.keys).1.1;
      held = (take_claim k no_claim c.keys).1.0 ∷ c.held;
    })
unfolding take_claim
take-IsExclusive c k n g h = elim (Bool-cases (claimed k c.keys)) [
  | inl e ↦ let f = rw e at g in cc
  | inr e ↦ rw e (record {
    counted = λ j. unfold holders count in ground (arith, h.counted j);
    single =
        λ j. unfold count in ground (arith, h.single j, unclaimed_count k c.keys e, equal_iff k j);
    named = (n, h.named);
  })
]

drop-IsExclusive :
    (keys : List Bytes) (front : List UsbClaim) (u : UsbClaim) (back : List UsbClaim)
    → IsExclusive (record { keys = keys; held = front ++ u ∷ back })
    → IsExclusive (record { keys = drop_claim u keys; held = front ++ back })
unfolding drop_claim
drop-IsExclusive keys front u back h =
    let (n, others) = All-middle (λ u. is_empty u.key ≡ false) front u back h.named in
    rw n (record {
      counted = λ k. ground (
        arith,
        count-erase_claim k u.key keys,
        holders-append k front u back,
        h.counted k,
        h.single k,
      );
      single = λ k. ground (arith, count-erase_claim k u.key keys, h.single k);
      named = others;
    })

-- However senders take and drop cables, no cable is held by two of them, and the process's set has
-- the keys of the cables that are held and no other.
pub Reach-IsExclusive : {c : Cables} → Reach c → IsExclusive c
Reach-IsExclusive start =
    unfold holders count in record { counted = λ k. refl; single = λ k. omega arith; named = tt }
Reach-IsExclusive (next r (take c k n g)) = take-IsExclusive c k n g (Reach-IsExclusive r)
Reach-IsExclusive (next r (drop keys front u back)) =
    drop-IsExclusive keys front u back (Reach-IsExclusive r)
