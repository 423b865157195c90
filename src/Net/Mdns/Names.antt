-- ===== src/Net/Mdns/Names.antt =====
-- Reading a name ends, and stays in the packet.
use Prim.Native.Nat.{bit_and}
use opendisplay_win.Common.{
  ℕ, zero, suc, ◌+◌, ◌-◌, ◌*◌, ◌≤◌, ◌<◌, ltb, leb, ◌==◌, true, false, Option, none, some, [], ◌∷◌,
  Bytes, length, get_elem?, ◌≡◌, ◌⊎◌, inl, inr, refl, arith, Bool-cases,
}
use native.Mathlib.Nat.{suc-mul}
use opendisplay_win.Net.Mdns.{
  Name, malformed, found, unfinished, Move, stop, go, follow, name_move, walk, read_fuel, read_name,
}

-- A byte is read in the packet only.
get_elem?_bound : (n : ℕ) (b : Bytes) (v : ℕ) → get_elem? b n ≡ some v → n < length b
get_elem?_bound n [] v h = cc
get_elem?_bound zero (x ∷ b) v h = omega arith
get_elem?_bound (suc n) (x ∷ b) v h = let ih = get_elem?_bound n b v h in omega arith

get_elem?-none : (n : ℕ) (b : Bytes) → n < length b → get_elem? b n ≡ none → ⊥
get_elem?-none n [] l h = omega arith
get_elem?-none zero (x ∷ b) l h = cc
get_elem?-none (suc n) (x ∷ b) l h = get_elem?-none n b (omega arith) h

-- The bytes still to read: one run through the packet for each pointer left, and what is left of
-- this run.
abbrev left_over : Bytes → ℕ → ℕ → ℕ
left_over packet cursor runs = runs * (length packet + 1) + (length packet + 1 - cursor)

-- What the position behind the name will be lies in the packet, behind the name's beginning.
abbrev IsBehind : Bytes → ℕ → ℕ → ℕ → Type 0
IsBehind packet start cursor after =
    ((after ≡ 0) × (start ≤ cursor)) ⊎ ((start < after) × (after ≤ length packet))

-- An answer that is final and in bounds, or a round that leaves less to read.
abbrev Advances : Bytes → ℕ → ℕ → Move → Type 0
Advances packet start before (stop malformed) = Unit {0}
Advances packet start before (stop (found pos out)) = (start < pos) × (pos ≤ length packet)
Advances packet start before (stop unfinished) = ⊥
Advances packet start before (go cursor after hops out) =
    (runs : ℕ) × (hops + runs ≡ 16)
    × (left_over packet cursor runs < before)
    × IsBehind packet start cursor after

follow-Advances :
    (packet out : Bytes) (len start cursor after hops runs : ℕ) (o : Option ℕ)
    → get_elem? packet (cursor + 1) ≡ o
    → hops + runs ≡ 16
    → cursor + 1 < length packet
    → IsBehind packet start cursor after
    → Advances packet start (left_over packet cursor runs) (follow len o cursor after hops out)
unfolding follow
follow-Advances packet out len start cursor after hops runs none e h c b =
    absurd (get_elem?-none (cursor + 1) packet c e)
follow-Advances packet out len start cursor after hops zero (some low) e h c b =
    let last : (ltb 16 (hops + 1) ≡ true) = ground arith in rw last tt
follow-Advances packet out len start cursor after hops (suc runs) (some low) e h c b =
    let more : (ltb 16 (hops + 1) ≡ false) = ground arith in
    let inside = get_elem?_bound (cursor + 1) packet low e in
    let one_run = suc-mul runs (length packet + 1) in
    rw more (runs, omega arith, omega arith, inr (ground arith))

name_move-Advances :
    (packet out : Bytes) (start cursor after hops runs : ℕ) (o : Option ℕ)
    → get_elem? packet cursor ≡ o
    → hops + runs ≡ 16
    → IsBehind packet start cursor after
    → Advances packet start
        (left_over packet cursor runs)
        (name_move packet o cursor after hops out)
unfolding name_move
name_move-Advances packet out start cursor after hops runs none e h b = tt
name_move-Advances packet out start cursor after hops runs (some len) e h b =
    let inside = get_elem?_bound cursor packet len e in
    elim (Bool-cases (len == 0)) [
      | inl z ↦ rw z (ground arith)
      | inr z ↦ elim (Bool-cases (bit_and len 0xc0 == 0xc0)) [
        | inl p ↦ elim (Bool-cases (leb (length packet) (cursor + 1))) [
          | inl q ↦ rw (z, p, q) tt
          | inr q ↦
              rw (z, p, q)
                (follow-Advances packet out len start cursor after hops runs _ refl h
                  (ground (arith, q)) b)
        ]
        | inr p ↦ elim (Bool-cases (ltb (length packet) (cursor + 1 + len))) [
          | inl l ↦ rw (z, p, l) tt
          | inr l ↦ rw (z, p, l) (runs, h, ground arith, ground arith)
        ]
      ]
    ]

abbrev pub IsInPacket : Bytes → ℕ → Name → Type 0
IsInPacket packet start malformed = Unit {0}
IsInPacket packet start (found pos out) = (start < pos) × (pos ≤ length packet)
IsInPacket packet start unfinished = ⊥

-- The rounds after this one do the rest.
rest-IsInPacket :
    (rest : ℕ → ℕ → ℕ → Bytes → Name) (packet : Bytes) (start before : ℕ) (m : Move)
    → ((cursor after hops runs : ℕ) (out : Bytes)
        → hops + runs ≡ 16
        → left_over packet cursor runs < before
        → IsBehind packet start cursor after
        → IsInPacket packet start (rest cursor after hops out))
    → Advances packet start before m
    → IsInPacket packet start (elim m [ stop n ↦ n | go c a h o ↦ rest c a h o ])
rest-IsInPacket rest packet start before (stop malformed) f a = tt
rest-IsInPacket rest packet start before (stop (found pos out)) f a = a
rest-IsInPacket rest packet start before (stop unfinished) f a = a
rest-IsInPacket rest packet start before (go c w h o) f (runs, e, l, b) = f c w h runs o e l b

walk-IsInPacket :
    (fuel : ℕ) (packet out : Bytes) (start cursor after hops runs : ℕ)
    → hops + runs ≡ 16
    → left_over packet cursor runs < fuel
    → IsBehind packet start cursor after
    → IsInPacket packet start (walk fuel packet cursor after hops out)
unfolding walk
walk-IsInPacket zero packet out start cursor after hops runs h k b = omega arith
walk-IsInPacket (suc fuel) packet out start cursor after hops runs h k b =
    rest-IsInPacket (walk fuel packet) packet start (left_over packet cursor runs) _
      (λ c a hs r o e l bh. walk-IsInPacket fuel packet o start c a hs r e (omega arith) bh)
      (name_move-Advances packet out start cursor after hops runs _ refl h b)

-- Whatever the packet and the position, reading a name ends within its fuel, and a name that is
-- read ends behind where it began and not behind the end of the packet.
pub read_name-IsInPacket : (packet : Bytes) (pos : ℕ) → IsInPacket packet pos (read_name packet pos)
unfolding read_name
read_name-IsInPacket packet pos =
    walk-IsInPacket (read_fuel packet) packet [] pos pos 0 0 16 refl (omega arith)
      (inl (refl, omega arith))
