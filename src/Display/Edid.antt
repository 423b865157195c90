-- ===== src/Display/Edid.antt =====
-- src/display/MttVddSettings.cpp: the EDID that the shared display head is given, from the sizes of
-- a tablet. The vector is built front to back, where the source fills it at the same offsets.
pub mod Timing
pub mod Checksum
pub mod Decode
pub mod Modes
mod Runs
use Prim.Native.Nat.{bit_or, max}
use opendisplay_win.Common.{
  ℕ, zero, suc, ◌+◌, ◌-◌, ◌*◌, ◌/◌, ◌%◌, ◌^◌, ltb, leb, ◌==◌, if◌then◌else◌, Bool, true, false, not,
  ◌&&◌, ◌||◌, Option, none, some, ◌>>=◌, List, [], ◌∷◌, ◌++◌, Bytes, codes, length, take,
}

pub record MttMode : Type 0 where
  pub width : ℕ
  pub height : ℕ
  pub hz : ℕ

abbrev pub mtt_refresh : ℕ
mtt_refresh = 60

abbrev pub edid_max_dim : ℕ
edid_max_dim = 4095

unfoldable pub align16_floor : ℕ → ℕ
align16_floor v = v / 16 * 16

unfoldable pub physical_mm : ℕ → ℕ
physical_mm px = (px * 225 + 1176) % 2 ^ 32 / 2352

pub record CvtTiming : Type 0 where
  pub clock10khz : ℕ
  pub h_active : ℕ
  pub h_blank : ℕ
  pub h_front : ℕ
  pub h_sync : ℕ
  pub v_active : ℕ
  pub v_blank : ℕ
  pub v_front : ℕ
  pub v_sync : ℕ

-- The double `err` of a clock, as a number of 10 kHz, for a total of pixels and a refresh rate; the
-- order of errors, and the test `err < 0.01`.
pub record Precision : Type 1 where
  pub Err : Type 0
  pub err : ℕ → ℕ → ℕ → Err
  pub less : Err → Err → Bool
  pub tiny : Err → Bool

-- `q` and `r` of one round: the quotient by 10000, rounded half to even.
unfoldable pub round_clock : ℕ → ℕ
round_clock n =
    let q = n / 10000 in
    let r = n % 10000 in if ltb 5000 r || r == 5000 && q % 2 == 1 then q + 1 else q

unfoldable pub timing : ℕ → ℕ → ℕ → ℕ → CvtTiming
timing h_active v_active v_back q = record {
  clock10khz = q;
  h_active = h_active;
  h_blank = 160;
  h_front = 48;
  h_sync = 32;
  v_active = v_active;
  v_blank = 13 + v_back;
  v_front = 3;
  v_sync = 10;
}

module _ (P : Precision) where
  -- `have`, `bestErr` and `out`.
  abbrev Best : Type 0
  Best = Option (P.Err × CvtTiming)

  abbrev better : P.Err → Best → Bool
  better e none = true
  better e (some (best, t)) = P.less e best

  abbrev timing_of : Best → Option CvtTiming
  timing_of none = none
  timing_of (some (best, t)) = some t

  -- The total of pixels in a frame, and the clock for it.
  abbrev pub total_of : ℕ → ℕ → ℕ → ℕ
  total_of h_active v_active v_back =
      (h_active + 160) % 2 ^ 32 * (v_active + (13 + v_back)) % 2 ^ 64

  abbrev pub clock_of : ℕ → ℕ → ℕ → ℕ → ℕ
  clock_of h_active v_active refresh v_back =
      round_clock (total_of h_active v_active v_back * refresh % 2 ^ 64)

  -- The loop over `vBack`, with the rounds left.
  unfoldable pub search : ℕ → ℕ → ℕ → ℕ → ℕ → Best → Best
  search zero h_active v_active refresh v_back best = best
  search (suc rounds) h_active v_active refresh v_back best =
      let q = clock_of h_active v_active refresh v_back in
      let e = P.err q (total_of h_active v_active v_back) refresh in
      let taken = some (e, timing h_active v_active v_back q) in
      let next = search rounds h_active v_active refresh (v_back + 1) best in
      let next_taken = search rounds h_active v_active refresh (v_back + 1) taken in
      if ltb q 1 || ltb 65535 q
      then next
      else if better e best
      then (if P.tiny e then taken else next_taken)
      else next

  unfoldable pub cvt_rb_timing : ℕ → ℕ → ℕ → Option CvtTiming
  cvt_rb_timing h_active v_active refresh = timing_of (search 114 h_active v_active refresh 6 none)

-- `static_cast<uint8_t>`.
abbrev pub byte : ℕ → ℕ
byte n = n % 256

unfoldable pub pack_detailed_timing : CvtTiming → ℕ → ℕ → Bytes
pack_detailed_timing p h_mm v_mm =
    byte p.clock10khz
    ∷ byte (p.clock10khz / 256)
    ∷ byte p.h_active
    ∷ byte p.h_blank
    ∷ byte (p.h_active / 256 * 16 + p.h_blank / 256 % 16)
    ∷ byte p.v_active
    ∷ byte p.v_blank
    ∷ byte (p.v_active / 256 * 16 + p.v_blank / 256 % 16)
    ∷ byte p.h_front
    ∷ byte p.h_sync
    ∷ byte (p.v_front % 16 * 16 + p.v_sync % 16)
    ∷ byte (
        bit_or (bit_or (bit_or (p.h_front / 256 * 64) (p.h_sync / 256 * 16)) (p.v_front / 16 * 4))
          (p.v_sync / 16 % 4))
    ∷ byte h_mm
    ∷ byte v_mm
    ∷ byte (h_mm / 256 * 16 + v_mm / 256 % 16)
    ∷ 0
    ∷ 0
    ∷ 0x1e
    ∷ []

-- Bytes 0 to 53: header, maker, product, serial, date, version, size in cm, gamma, colours, no
-- established and sixteen bytes of unused standard timings.
unfoldable pub edid_head : ℕ → ℕ → Bytes
edid_head h_mm v_mm =
    (0x00 ∷ 0xff ∷ 0xff ∷ 0xff ∷ 0xff ∷ 0xff ∷ 0xff ∷ 0x00 ∷ [])
    ++ ((0x36 ∷ 0x94 ∷ 0x37 ∷ 0x13 ∷ 0x31 ∷ 0x57 ∷ 0x44 ∷ 0x4f ∷ 1 ∷ 36 ∷ 0x01 ∷ 0x03 ∷ 0x80 ∷ [])
        ++ ((byte (max 1 (h_mm / 10)) ∷ byte (max 1 (v_mm / 10)) ∷ 0x78 ∷ 0x0a ∷ [])
            ++ ((0xee ∷ 0x91 ∷ 0xa3 ∷ 0x54 ∷ 0x4c ∷ 0x99 ∷ 0x26 ∷ 0x0f ∷ 0x50 ∷ 0x54 ∷ 0 ∷ 0 ∷ 0
                  ∷ [])
                ++ (1 ∷ 1 ∷ 1 ∷ 1 ∷ 1 ∷ 1 ∷ 1 ∷ 1 ∷ 1 ∷ 1 ∷ 1 ∷ 1 ∷ 1 ∷ 1 ∷ 1 ∷ 1 ∷ []))))

-- The descriptor with the monitor's name, and the one without a meaning.
abbrev pub name_descriptor : Bytes
name_descriptor = 0 ∷ 0 ∷ 0 ∷ 0xfc ∷ 0 ∷ (codes "OpenDisplay\n" ++ 32 ∷ [])

abbrev pub dummy_descriptor : Bytes
dummy_descriptor = 0 ∷ 0 ∷ 0 ∷ 0x10 ∷ 0 ∷ 0 ∷ 0 ∷ 0 ∷ 0 ∷ 0 ∷ 0 ∷ 0 ∷ 0 ∷ 0 ∷ 0 ∷ 0 ∷ 0 ∷ 0 ∷ []

-- The descriptor of a slot behind the modes, as the name is written or not.
abbrev pub filler : Bool → Bytes
filler named = if named then dummy_descriptor else name_descriptor

-- The sum of the bytes.
abbrev pub sum : Bytes → ℕ
sum [] = 0
sum (b ∷ bs) = b + sum bs

abbrev pub with_checksum : Bytes → Bytes
with_checksum e = e ++ ((256 - sum e % 256) % 256) ∷ []

module _ (P : Precision) where
  abbrev pub timing_for : MttMode → Option CvtTiming
  timing_for m = cvt_rb_timing P m.width m.height (if m.hz == 0 then mtt_refresh else m.hz)

  -- The slots left, and whether the name is written.
  unfoldable pub descriptors : ℕ → Bool → ℕ → ℕ → List MttMode → Option Bytes
  descriptors zero named h_mm v_mm modes = some []
  descriptors (suc slots) named h_mm v_mm (m ∷ modes) = do
    t ← timing_for m
    rest ← descriptors slots named h_mm v_mm modes
    some (pack_detailed_timing t h_mm v_mm ++ rest)
  descriptors (suc slots) named h_mm v_mm [] = do
    rest ← descriptors slots true h_mm v_mm []
    some (filler named ++ rest)

  abbrev edid_of : ℕ → ℕ → Option Bytes → Bytes
  edid_of h_mm v_mm none = []
  edid_of h_mm v_mm (some slots) = with_checksum (edid_head h_mm v_mm ++ (slots ++ 0 ∷ []))

  unfoldable pub build_mtt_edid : List MttMode → Bytes
  build_mtt_edid [] = []
  build_mtt_edid (m ∷ modes) =
      let h_mm = physical_mm m.width in
      let v_mm = physical_mm m.height in
      if ltb 4 (length (m ∷ modes))
      then []
      else edid_of h_mm v_mm (descriptors 4 false h_mm v_mm (m ∷ modes))
