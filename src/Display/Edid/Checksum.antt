-- ===== src/Display/Edid/Checksum.antt =====
-- src/display/MttVddSettings.cpp, BuildMttEdid: the size of the block, its bytes and its checksum.
use opendisplay_win.Display.Edid.{
  MttMode, CvtTiming, Precision, byte, pack_detailed_timing, edid_head, sum, with_checksum,
  descriptors, edid_of, build_mtt_edid, physical_mm, timing_for, filler, name_descriptor,
  dummy_descriptor,
}
use opendisplay_win.Common.{
  ℕ, ◌-◌, zero, suc, ◌+◌, ◌*◌, ◌%◌, ltb, Bool, true, false, some, List, [], ◌∷◌, ◌++◌, Bytes,
  length, All, ◌≡◌, ◌<◌, ◌⊎◌, inl, inr, arith, refl, sym, subst, bind-eq-some, some_injective,
  length-append, Bool-cases, Option-cases, ◌>>=◌,
}

abbrev pub AreBytes : Bytes → Type 0
AreBytes bs = All (λ b. b < 256) bs

pub sum-append : (a b : Bytes) → sum (a ++ b) ≡ sum a + sum b
sum-append [] b = omega arith
sum-append (x ∷ a) b = omega (arith, sum-append a b)

pub AreBytes-append : (a b : Bytes) → AreBytes a → AreBytes b → AreBytes (a ++ b)
AreBytes-append [] b h k = k
AreBytes-append (x ∷ a) b h k = (h.0, AreBytes-append a b h.1 k)

abbrev pub AreSlots : ℕ → Bytes → Type 0
AreSlots n bs = (length bs ≡ n * 18) × AreBytes bs

slot-append : (n : ℕ) (a b : Bytes) → AreSlots 1 a → AreSlots n b → AreSlots (suc n) (a ++ b)
slot-append n a b h k = (omega (arith, h.0, k.0, length-append a b), AreBytes-append a b h.1 k.1)

byte_small : (n : ℕ) → byte n < 256
byte_small n = omega arith

pack-AreSlots : (t : CvtTiming) (h v : ℕ) → AreSlots 1 (pack_detailed_timing t h v)
unfolding pack_detailed_timing
pack-AreSlots t h v = ground arith

with_checksum-sum : (e : Bytes) → sum (with_checksum e) % 256 ≡ 0
with_checksum-sum e = omega (arith, sum-append e (((256 - sum e % 256) % 256) ∷ []))

name-AreSlots : AreSlots 1 name_descriptor
name-AreSlots = ground arith

dummy-AreSlots : AreSlots 1 dummy_descriptor
dummy-AreSlots = ground arith

pub head-AreBytes : (h v : ℕ) → (length (edid_head h v) ≡ 54) × AreBytes (edid_head h v)
unfolding edid_head
head-AreBytes h v = ground arith

filler-AreSlots : (named : Bool) → AreSlots 1 (filler named)
filler-AreSlots true = dummy-AreSlots
filler-AreSlots false = name-AreSlots

module _ (P : Precision) where
  -- A slot with a mode, and a slot behind the modes.
  pub descriptors-cons :
      (n : ℕ) (named : Bool) (h v : ℕ) (m : MttMode) (modes : List MttMode) (bs : Bytes)
      → descriptors P (suc n) named h v (m ∷ modes) ≡ some bs
      → (t : CvtTiming) × (rest : Bytes) × (timing_for P m ≡ some t)
        × (descriptors P n named h v modes ≡ some rest)
        × (bs ≡ pack_detailed_timing t h v ++ rest)
  unfolding descriptors
  descriptors-cons n named h v m modes bs e =
      let slot = λ (t : CvtTiming).
        descriptors P n named h v modes >>= λ rest. some (pack_detailed_timing t h v ++ rest) in
      let (t, t_eq, e2) = bind-eq-some (timing_for P m) slot e in
      let (rest, rest_eq, e3) =
        bind-eq-some (descriptors P n named h v modes)
          (λ rest. some (pack_detailed_timing t h v ++ rest)) e2 in
      (t, rest, t_eq, rest_eq, sym (some_injective e3))

  pub descriptors-nil :
      (n : ℕ) (named : Bool) (h v : ℕ) (bs : Bytes)
      → descriptors P (suc n) named h v [] ≡ some bs
      → (rest : Bytes) × (descriptors P n true h v [] ≡ some rest) × (bs ≡ filler named ++ rest)
  unfolding descriptors
  descriptors-nil n named h v bs e =
      let (rest, rest_eq, e2) =
        bind-eq-some (descriptors P n true h v []) (λ rest. some (filler named ++ rest)) e in
      (rest, rest_eq, sym (some_injective e2))

  descriptors-AreSlots :
      (n : ℕ) (named : Bool) (h v : ℕ) (modes : List MttMode) (bs : Bytes)
      → descriptors P n named h v modes ≡ some bs
      → AreSlots n bs
  descriptors-AreSlots zero named h v modes bs e =
      unfold descriptors in subst (AreSlots 0) (some_injective e) (refl, tt)
  descriptors-AreSlots (suc n) named h v (m ∷ modes) bs e =
      let (t, rest, t_eq, rest_eq, bs_eq) = descriptors-cons n named h v m modes bs e in
      let ih = descriptors-AreSlots n named h v modes rest rest_eq in
      subst (AreSlots (suc n)) (sym bs_eq)
        (slot-append n (pack_detailed_timing t h v) rest (pack-AreSlots t h v) ih)
  descriptors-AreSlots (suc n) named h v [] bs e =
      let (rest, rest_eq, bs_eq) = descriptors-nil n named h v bs e in
      let ih = descriptors-AreSlots n true h v [] rest rest_eq in
      subst (AreSlots (suc n)) (sym bs_eq)
        (slot-append n (filler named) rest (filler-AreSlots named) ih)

  -- What the block of some modes is, where it is not empty.
  abbrev pub IsBlock : Bytes → Type 0
  IsBlock e = (length e ≡ 128) × AreBytes e × (sum e % 256 ≡ 0)

  with_checksum-IsBlock : (e : Bytes) → length e ≡ 127 → AreBytes e → IsBlock (with_checksum e)
  with_checksum-IsBlock e l h =
      let c = (256 - sum e % 256) % 256 in
      (
        omega (arith, l, length-append e (c ∷ [])),
        AreBytes-append e (c ∷ []) h (omega arith, tt),
        with_checksum-sum e,
      )

  edid_of-IsBlock :
      (h v : ℕ) (slots : Bytes) → AreSlots 4 slots → IsBlock (edid_of P h v (some slots))
  edid_of-IsBlock h v slots s =
      let (l, b) = head-AreBytes h v in
      let body = slots ++ 0 ∷ [] in
      with_checksum-IsBlock (edid_head h v ++ body)
        (omega (arith, l, s.0, length-append (edid_head h v) body, length-append slots (0 ∷ [])))
        (AreBytes-append (edid_head h v) body b
          (AreBytes-append slots (0 ∷ []) s.1 (omega arith, tt)))

  -- The block for some modes is empty, or it has 128 bytes whose sum is a multiple of 256.
  pub build_mtt_edid-IsBlock :
      (modes : List MttMode) → (build_mtt_edid P modes ≡ []) ⊎ IsBlock (build_mtt_edid P modes)
  unfolding build_mtt_edid
  build_mtt_edid-IsBlock [] = inl refl
  build_mtt_edid-IsBlock (m ∷ modes) =
      let h = physical_mm m.width in
      let v = physical_mm m.height in
      elim (Bool-cases (ltb 4 (length (m ∷ modes)))) [
        | inl e ↦ inl (rw e refl)
        | inr e ↦ elim (Option-cases (descriptors P 4 false h v (m ∷ modes))) [
          | inl d ↦ inl (rw (e, d, build_mtt_edid) refl)
          | inr (slots, d) ↦ inr (
              rw (e, d)
                (edid_of-IsBlock h v slots (descriptors-AreSlots 4 false h v (m ∷ modes) slots d)))
        ]
      ]
