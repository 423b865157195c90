-- ===== src/App/Pacing.antt =====
-- src/app/SenderApp.cpp, RunLoop: when a streaming session encodes. Times and durations are ticks of
-- the clock; `nowEnc >= nextSlot - earlyWindow` has the window on the other side.
pub mod Rate
mod Runs
use opendisplay_win.Common.{
  ℕ, zero, suc, ◌+◌, ◌-◌, ◌*◌, ◌/◌, ◌≤◌, min, ltb, leb, if◌then◌else◌, Bool, true, false, not, ◌&&◌,
  ◌||◌, Option, none, some, List, [], ◌∷◌, ◌≡◌, refl, sym, ap, ◌∙◌, arith, Bool-cases, inl, inr,
}
use Prim.Native.Nat.{max}

abbrev pub fps : ℕ
fps = 60

-- The limit from the receiver's and the refresh rate of the head, which is 0 if it is not known.
unfoldable pub fps_limit : ℕ → ℕ → ℕ
fps_limit receiver_limit hz =
    let limit = min receiver_limit fps in max (if ltb 0 hz then min limit hz else limit) 1

pub record Pace : Type 0 where
  pub next_slot : ℕ
  pub tail_at : ℕ
  pub frame_pending : Bool
  pub tail_pending : Bool

-- What a pass meets: the time, whether there is a new image, or a frame was dropped that is to be
-- sent again, and whether the keepalive is due.
pub record Tick : Type 0 where
  pub now : ℕ
  pub changed : Bool
  pub keepalive_due : Bool

-- `doEncode`, for a slot of this length.
unfoldable pub do_encode : ℕ → Tick → Pace → Bool
do_encode slot t p =
    let tail_due = p.tail_pending && not p.frame_pending && leb p.tail_at t.now in
    leb p.next_slot (t.now + slot / 4) && (p.frame_pending || t.keepalive_due || tail_due)

-- The slot after an encode; after an idle time the schedule begins anew.
unfoldable pub slot_after : ℕ → ℕ → ℕ → ℕ
slot_after slot now next_slot =
    let next = next_slot + slot in if ltb (next + slot) now then now + slot else next

unfoldable pub encoded : ℕ → ℕ → Pace → Pace
encoded slot now p =
    let next = slot_after slot now p.next_slot in
    record {
      next_slot = next;
      tail_at = next + slot / 2;
      frame_pending = false;
      tail_pending = p.frame_pending;
    }

unfoldable pub see : Tick → Pace → Pace
see t p = if t.changed then record p { frame_pending = true } else p

-- One pass: whether it encodes.
unfoldable pub pace_pass : ℕ → Tick → Pace → Bool × Pace
pace_pass slot t p =
    let q = see t p in if do_encode slot t q then (true, encoded slot t.now q) else (false, q)

-- Passes with one length of a slot, as between two changes of the frame rate limit, and how many of
-- them encode.
unfoldable pub pace_passes : ℕ → List Tick → Pace → ℕ × Pace
pace_passes slot [] p = (0, p)
pace_passes slot (t ∷ ts) p =
    let (encodes, q) = pace_pass slot t p in
    let (n, last) = pace_passes slot ts q in (if encodes then suc n else n, last)
