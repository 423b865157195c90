-- ===== src/App/Pacing/Rate.antt =====
-- src/app/SenderApp.cpp, RunLoop: a session encodes no more often than its slots.
use opendisplay_win.Common.{
  subst, ℕ, suc, ◌+◌, ◌*◌, ◌/◌, ◌≤◌, if◌then◌else◌, Bool, true, false, List, [], ◌∷◌, ◌≡◌, refl,
  arith,
}
use opendisplay_win.App.Pacing.{
  Pace, Tick, do_encode, slot_after, encoded, see, pace_pass, pace_passes,
}

abbrev steps_of : ℕ → Bool → ℕ
steps_of slot true = slot
steps_of slot false = 0

slot_after_bounds :
    (slot now next : ℕ)
    → (next + slot ≤ slot_after slot now next) × (now ≤ slot_after slot now next + slot)
unfolding slot_after
slot_after_bounds slot now next = ground arith

see_slot : (t : Tick) (p : Pace) → (see t p).next_slot ≡ p.next_slot
unfolding see
see_slot t p = ground arith

moves_if :
    (slot s : ℕ) (b : Bool) (x y : Bool × Pace)
    → s + steps_of slot x.0 ≤ x.1.next_slot
    → s + steps_of slot y.0 ≤ y.1.next_slot
    → s + steps_of slot (if b then x else y).0 ≤ (if b then x else y).1.next_slot
moves_if slot s true x y h k = h
moves_if slot s false x y h k = k

-- A pass that encodes moves the slot on, by one at least.
pass_moves :
    (slot : ℕ) (t : Tick) (p : Pace)
    → p.next_slot + steps_of slot (pace_pass slot t p).0 ≤ (pace_pass slot t p).1.next_slot
unfolding pace_pass encoded
pass_moves slot t p =
    let (far, near) = slot_after_bounds slot t.now (see t p).next_slot in
    moves_if slot p.next_slot (do_encode slot t (see t p)) (true, encoded slot t.now (see t p))
      (false, see t p) (ground (arith, see_slot t p, far)) (ground (arith, see_slot t p))

time_if :
    (slot now s : ℕ) (b : Bool) (x y : Bool × Pace)
    → (b ≡ true → s ≤ now + slot / 4)
    → now ≤ x.1.next_slot + slot
    → y.0 ≡ false
    → (if b then x else y).0 ≡ true
    → (s ≤ now + slot / 4) × (now ≤ (if b then x else y).1.next_slot + slot)
time_if slot now s true x y h k f e = (h refl, k)
time_if slot now s false x y h k f e = cc

-- An encode means that the slot is open.
slot_open :
    (slot : ℕ) (t : Tick) (p : Pace) → do_encode slot t p ≡ true → p.next_slot ≤ t.now + slot / 4
unfolding do_encode
slot_open slot t p e = ground (arith, e)

count_if :
    (n : ℕ) (b : Bool) (slot : ℕ) → (if b then suc n else n) * slot ≡ steps_of slot b + n * slot
count_if n true slot = ground arith
count_if n false slot = omega arith

passes_move :
    (slot : ℕ) (ts : List Tick) (p : Pace)
    → p.next_slot + (pace_passes slot ts p).0 * slot ≤ (pace_passes slot ts p).1.next_slot
unfolding pace_passes
passes_move slot [] p = omega arith
passes_move slot (t ∷ ts) p =
    let one = pass_moves slot t p in
    let more = passes_move slot ts (pace_pass slot t p).1 in
    rw (count_if (pace_passes slot ts (pace_pass slot t p).1).0 (pace_pass slot t p).0 slot)
      (omega arith)

-- When a pass encodes, its slot is open, and the next one is not far behind.
encode_time :
    (slot : ℕ) (t : Tick) (p : Pace)
    → (pace_pass slot t p).0 ≡ true
    → (p.next_slot ≤ t.now + slot / 4) × (t.now ≤ (pace_pass slot t p).1.next_slot + slot)
unfolding pace_pass encoded
encode_time slot t p e =
    let (far, near) = slot_after_bounds slot t.now (see t p).next_slot in
    time_if slot t.now p.next_slot (do_encode slot t (see t p)) (true, encoded slot t.now (see t p))
      (false, see t p)
      (λ b. subst (λ n. n ≤ t.now + slot / 4) (see_slot t p) (slot_open slot t (see t p) b)) near
      refl e

-- While the length of a slot stays the same: between a pass that encodes and a later one that does,
-- with n more that do among those between them, at least n - 1 slots pass, less a quarter of one.
pub pace_passes_apart :
    (slot : ℕ) (first last : Tick) (between : List Tick) (p : Pace)
    → (pace_pass slot first p).0 ≡ true
    → (pace_pass slot last (pace_passes slot between (pace_pass slot first p).1).1).0 ≡ true
    → first.now + (pace_passes slot between (pace_pass slot first p).1).0 * slot
      ≤ last.now + slot + slot / 4
pace_passes_apart slot first last between p e f =
    let (_, a) = encode_time slot first p e in
    let (b, _) = encode_time slot last (pace_passes slot between (pace_pass slot first p).1).1 f in
    let m = passes_move slot between (pace_pass slot first p).1 in omega arith
