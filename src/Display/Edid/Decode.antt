-- ===== src/Display/Edid/Decode.antt =====
-- src/display/MttVddSettings.cpp, BuildMttEdid: a reader of the block finds the timings again.
use opendisplay_win.Display.Edid.{
  MttMode, CvtTiming, Precision, timing, pack_detailed_timing, timing_for, clock_of, mtt_refresh,
  filler, descriptors, edid_head, edid_of, build_mtt_edid, physical_mm, sum,
}
use opendisplay_win.Display.Edid.Checksum.{head-AreBytes}
use opendisplay_win.Display.Edid.Timing.{cvt_rb_timing-IsRound}
use opendisplay_win.Common.{
  length, ltb, drop-append, append_assoc, Bool, true, false, All, sym, subst, ap, ◌∙◌, bind-eq-some,
  some_injective, ◌-◌, ℕ, zero, suc, ◌+◌, ◌*◌, ◌/◌, ◌%◌, if◌then◌else◌, ◌==◌, ◌&&◌, Option, none,
  some, ◌>>=◌, value_or, get_elem?, List, [], ◌∷◌, ◌++◌, Bytes, drop, ◌≡◌, ◌<◌, ◌≤◌, arith, refl,
}

abbrev at : Bytes → ℕ → ℕ
at d i = value_or 0 (get_elem? d i)

-- The timing that eighteen bytes describe, in the layout of the EDID standard.
unfoldable pub read_timing : Bytes → Option CvtTiming
read_timing d =
    if at d 0 == 0 && at d 1 == 0
    then none
    else some record {
      clock10khz = at d 0 + at d 1 * 256;
      h_active = at d 2 + at d 4 / 16 * 256;
      h_blank = at d 3 + at d 4 % 16 * 256;
      h_front = at d 8 + at d 11 / 64 * 256;
      h_sync = at d 9 + at d 11 / 16 % 4 * 256;
      v_active = at d 5 + at d 7 / 16 * 256;
      v_blank = at d 6 + at d 7 % 16 * 256;
      v_front = at d 10 / 16 + at d 11 / 4 % 4 * 16;
      v_sync = at d 10 % 16 + at d 11 % 4 * 16;
    }

read_timing-pack :
    (w h b q h_mm v_mm : ℕ) (rest : Bytes)
    → w < 4096
    → h < 4096
    → b < 120
    → 1 ≤ q
    → q ≤ 65535
    → read_timing (pack_detailed_timing (timing w h b q) h_mm v_mm ++ rest) ≡ some (timing w h b q)
unfolding read_timing timing pack_detailed_timing
read_timing-pack w h b q h_mm v_mm rest hw hh hb l u = ground arith

-- The timings that the descriptors of `n` slots show.
unfoldable pub read_timings : ℕ → Bytes → List CvtTiming
read_timings zero d = []
read_timings (suc n) d =
    let rest = read_timings n (drop 18 d) in
    elim (read_timing d) [ none ↦ rest | some t ↦ t ∷ rest ]

-- The timings that a block shows.
abbrev pub read_block : Bytes → List CvtTiming
read_block e = read_timings 4 (drop 54 e)

filler-read : (named : Bool) (rest : Bytes) → read_timing (filler named ++ rest) ≡ none
unfolding read_timing
filler-read true rest = refl
filler-read false rest = refl

filler-drop : (named : Bool) (rest : Bytes) → drop 18 (filler named ++ rest) ≡ rest
filler-drop true rest = refl
filler-drop false rest = refl

read_timings-cons :
    (n : ℕ) (t : CvtTiming) (d rest : Bytes)
    → read_timing d ≡ some t
    → drop 18 d ≡ rest
    → read_timings (suc n) d ≡ t ∷ read_timings n rest
unfolding read_timings
read_timings-cons n t d rest e k = rw (e, k, read_timings) refl

read_timings-filler :
    (n : ℕ) (named : Bool) (rest : Bytes)
    → read_timings (suc n) (filler named ++ rest) ≡ read_timings n rest
unfolding read_timings
read_timings-filler n named rest =
    rw (filler-read named rest, filler-drop named rest, read_timings) refl

module _ (P : Precision) where
  -- The timings of the modes, if each has one.
  unfoldable pub timings_for : List MttMode → Option (List CvtTiming)
  timings_for [] = some []
  timings_for (m ∷ modes) = do t ← timing_for P m; ts ← timings_for modes; some (t ∷ ts)

  timings_for-cons :
      (m : MttMode) (modes : List MttMode) (ts : List CvtTiming)
      → timings_for (m ∷ modes) ≡ some ts
      → (t : CvtTiming) × (later : List CvtTiming) × (timing_for P m ≡ some t)
        × (timings_for modes ≡ some later)
        × (ts ≡ t ∷ later)
  unfolding timings_for
  timings_for-cons m modes ts e =
      let (t, t_eq, e2) =
        bind-eq-some (timing_for P m) (λ t. timings_for modes >>= λ ts. some (t ∷ ts)) e in
      let (later, later_eq, e3) = bind-eq-some (timings_for modes) (λ ts. some (t ∷ ts)) e2 in
      (t, later, t_eq, later_eq, sym (some_injective e3))

  abbrev pub Fits : MttMode → Type 0
  Fits m = (m.width < 4096) × (m.height < 4096)

  read_mode :
      (m : MttMode) (t : CvtTiming) (h v : ℕ) (rest : Bytes)
      → Fits m
      → timing_for P m ≡ some t
      → read_timing (pack_detailed_timing t h v ++ rest) ≡ some t
  read_mode m t h v rest f e =
      let (b, l, u, t_eq, i) = cvt_rb_timing-IsRound P m.width m.height _ t e in
      subst (λ x. read_timing (pack_detailed_timing x h v ++ rest) ≡ some x) (sym t_eq)
        (read_timing-pack m.width m.height b
          (clock_of P m.width m.height (if m.hz == 0 then mtt_refresh else m.hz) b) h v rest f.0 f.1
          u i.0 i.1)

  -- Slots that show some timings, at the front of a text.
  abbrev Shows : ℕ → Option Bytes → List CvtTiming → Type 0
  Shows n slots ts =
      (bs : Bytes) × (slots ≡ some bs) × ((tail : Bytes) → read_timings n (bs ++ tail) ≡ ts)

  descriptors-Shows-nil :
      (n : ℕ) (named : Bool) (h v : ℕ) → Shows n (descriptors P n named h v []) []
  unfolding descriptors
  descriptors-Shows-nil zero named h v = ([], refl, λ tail. unfold read_timings in refl)
  descriptors-Shows-nil (suc n) named h v =
      let (bs, e, k) = descriptors-Shows-nil n true h v in
      (
        filler named ++ bs,
        rw e refl,
        λ tail. rw append_assoc (read_timings-filler n named (bs ++ tail) ∙ k tail),
      )

  descriptors-Shows :
      (n : ℕ) (named : Bool) (h v : ℕ) (modes : List MttMode) (ts : List CvtTiming)
      → length modes ≤ n
      → All Fits modes
      → timings_for modes ≡ some ts
      → Shows n (descriptors P n named h v modes) ts
  unfolding descriptors
  descriptors-Shows n named h v [] ts l f e =
      let none_left : ([] ≡ ts) = some_injective (unfold timings_for in e) in
      subst (Shows n (descriptors P n named h v [])) none_left (descriptors-Shows-nil n named h v)
  descriptors-Shows zero named h v (m ∷ modes) ts l f e = absurd (omega arith)
  descriptors-Shows (suc n) named h v (m ∷ modes) ts l f e =
      let (t, later, t_eq, later_eq, ts_eq) = timings_for-cons m modes ts e in
      let (bs, b_eq, k) = descriptors-Shows n named h v modes later (omega arith) f.1 later_eq in
      let p = pack_detailed_timing t h v in
      (
        p ++ bs,
        rw (t_eq, b_eq) refl,
        λ tail. rw (append_assoc p bs tail) (
            read_timings-cons n t (p ++ (bs ++ tail)) (bs ++ tail)
              (read_mode m t h v (bs ++ tail) f.0 t_eq)
              (drop-append p (bs ++ tail) 18 (unfold pack_detailed_timing in refl))
            ∙ ap (◌∷◌ t) (k tail)
            ∙ sym ts_eq),
      )

  abbrev checksum_of : Bytes → Bytes
  checksum_of e = ((256 - sum e % 256) % 256) ∷ []

  edid_of-read :
      (h v : ℕ) (slots : Bytes)
      → read_block (edid_of P h v (some slots))
        ≡ read_timings 4 (slots ++ 0 ∷ checksum_of (edid_head h v ++ (slots ++ 0 ∷ [])))
  edid_of-read h v slots =
      let c = checksum_of (edid_head h v ++ (slots ++ 0 ∷ [])) in
      ap (read_timings 4) (
        ap (drop 54) (append_assoc (edid_head h v) (slots ++ 0 ∷ []) c)
        ∙ drop-append (edid_head h v) ((slots ++ 0 ∷ []) ++ c) 54 (sym (head-AreBytes h v).0)
        ∙ append_assoc slots (0 ∷ []) c)

  -- A block for one to four modes, each with a timing and of sizes below 4096, shows those timings.
  pub build_mtt_edid-read :
      (modes : List MttMode) (ts : List CvtTiming)
      → 1 ≤ length modes
      → length modes ≤ 4
      → All Fits modes
      → timings_for modes ≡ some ts
      → read_block (build_mtt_edid P modes) ≡ ts
  unfolding build_mtt_edid
  build_mtt_edid-read [] ts one four f e = absurd (omega arith)
  build_mtt_edid-read (m ∷ modes) ts one four f e =
      let h = physical_mm m.width in
      let v = physical_mm m.height in
      let (slots, s_eq, k) = descriptors-Shows 4 false h v (m ∷ modes) ts four f e in
      let few : (ltb 4 (length (m ∷ modes)) ≡ false) = ground arith in
      rw (few, s_eq)
        (edid_of-read h v slots ∙ k (0 ∷ checksum_of (edid_head h v ++ (slots ++ 0 ∷ []))))
