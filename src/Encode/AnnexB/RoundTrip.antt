-- ===== src/Encode/AnnexB/RoundTrip.antt =====
-- BuildAccessUnit and ScanStartCodes against each other.
use opendisplay_win.Common.{
  ℕ, ◌==◌, Bool, false, ◌&&◌, ◌||◌, Bool-cases, inl, inr, List, [], ◌∷◌, ◌++◌, append-nil,
  append_assoc, Bytes, All, ◌≡◌, ◌≢◌, refl, ap, ◌∙◌, arith,
}
use opendisplay_win.Encode.AnnexB.{NalUnit, nal_type_of, scan_start_codes, build_access_unit}
use opendisplay_win.Encode.AnnexB.Split.{
  close, split, lead, scan_start_codes-lead, scan_start_codes-split,
}

-- 00 00 01 or 00 00 00 01 at the front.
abbrev pub starts_code : Bytes → Bool
starts_code (a ∷ b ∷ c ∷ d ∷ rest) = a == 0 && b == 0 && (c == 0 && d == 1 || c == 1)
starts_code (a ∷ b ∷ c ∷ []) = a == 0 && b == 0 && c == 1
starts_code _ = false

-- No start code begins in these bytes, when `rest` follows them.
abbrev pub NoCodeIn : Bytes → Bytes → Type 0
NoCodeIn [] rest = Unit {0}
NoCodeIn (x ∷ xs) rest = (starts_code (x ∷ (xs ++ rest)) ≡ false) × NoCodeIn xs rest

-- A unit that a start-code framing can carry.
pub record IsFramable (n : NalUnit) : Type 0 where
  pub payload_ne_nil : n.payload ≢ []
  pub no_code : NoCodeIn n.payload []
  pub type_is : n.nal_type ≡ nal_type_of n.payload

split_step :
    (a b c d : ℕ) (acc rest : Bytes)
    → starts_code (a ∷ b ∷ c ∷ d ∷ rest) ≡ false
    → split acc (a ∷ b ∷ c ∷ d ∷ rest) ≡ split (acc ++ a ∷ []) (b ∷ c ∷ d ∷ rest)
unfolding split
split_step a b c d acc rest h = ground arith

split-code :
    (p acc rest : Bytes)
    → NoCodeIn p []
    → split acc (p ++ (0 ∷ 0 ∷ 0 ∷ 1 ∷ rest)) ≡ close (acc ++ p) (split [] rest)
split-code [] acc rest h = rw append-nil (unfold split in refl)
split-code (a ∷ []) acc rest h =
    split_step a 0 0 0 acc _ (ground arith)
    ∙ split-code [] (acc ++ a ∷ []) rest tt
    ∙ ap (λ x. close x (split [] rest)) (append-nil (acc ++ a ∷ []))
split-code (a ∷ b ∷ []) acc rest h =
    split_step a b 0 0 acc _ (ground arith)
    ∙ split-code (b ∷ []) (acc ++ a ∷ []) rest h.1
    ∙ ap (λ x. close x (split [] rest)) (append_assoc acc (a ∷ []) (b ∷ []))
split-code (a ∷ b ∷ c ∷ []) acc rest h =
    split_step a b c 0 acc _ (ground arith)
    ∙ split-code (b ∷ c ∷ []) (acc ++ a ∷ []) rest h.1
    ∙ ap (λ x. close x (split [] rest)) (append_assoc acc (a ∷ []) (b ∷ c ∷ []))
split-code (a ∷ b ∷ c ∷ d ∷ p) acc rest h =
    split_step a b c d acc _ h.0
    ∙ split-code (b ∷ c ∷ d ∷ p) (acc ++ a ∷ []) rest h.1
    ∙ ap (λ x. close x (split [] rest)) (append_assoc acc (a ∷ []) (b ∷ c ∷ d ∷ p))

split_end : (p acc : Bytes) → NoCodeIn p [] → split acc p ≡ close (acc ++ p) []
split_end (a ∷ b ∷ c ∷ d ∷ p) acc h =
    split_step a b c d acc _ h.0
    ∙ split_end (b ∷ c ∷ d ∷ p) (acc ++ a ∷ []) h.1
    ∙ ap (λ x. close x []) (append_assoc acc (a ∷ []) (b ∷ c ∷ d ∷ p))
split_end (a ∷ b ∷ c ∷ []) acc h = unfold split in ground arith
split_end p acc h = unfold split in refl

close-IsFramable :
    {n : NalUnit} (more : List NalUnit) → IsFramable n → close n.payload more ≡ n ∷ more
close-IsFramable {n} more f = go n.nal_type n.payload f.payload_ne_nil f.type_is
  where
    go :
        (t : ℕ) (p : Bytes)
        → p ≢ []
        → t ≡ nal_type_of p
        → close p more ≡ record { nal_type = t; payload = p } ∷ more
    go t [] ne e = absurd (ne refl)
    go t (x ∷ xs) ne e = rw e

split-build_access_unit :
    (n : NalUnit) (ns : List NalUnit)
    → All IsFramable (n ∷ ns)
    → split [] (n.payload ++ build_access_unit ns) ≡ n ∷ ns
unfolding build_access_unit
split-build_access_unit n [] h =
    rw append-nil (split_end n.payload [] h.0.no_code ∙ close-IsFramable [] h.0)
split-build_access_unit n (m ∷ ms) h =
    split-code n.payload [] (m.payload ++ build_access_unit ms) h.0.no_code
    ∙ ap (close n.payload) (split-build_access_unit m ms h.1)
    ∙ close-IsFramable (m ∷ ms) h.0

-- Scanning a built access unit gives back its units, in order, if each has a payload that is not
-- empty and holds no start code, and the type that its first byte says.
pub scan_start_codes-build_access_unit :
    (ns : List NalUnit) → All IsFramable ns → scan_start_codes (build_access_unit ns) ≡ ns
unfolding build_access_unit
scan_start_codes-build_access_unit [] h = scan_start_codes-lead [] ∙ unfold lead in refl
scan_start_codes-build_access_unit (n ∷ ns) h =
    scan_start_codes-split (n.payload ++ build_access_unit ns) ∙ split-build_access_unit n ns h

-- Dropping what follows never creates a start code.
starts_code_shorter : (xs rest : Bytes) → starts_code (xs ++ rest) ≡ false → starts_code xs ≡ false
starts_code_shorter (a ∷ b ∷ c ∷ d ∷ xs) rest h = h
starts_code_shorter (a ∷ b ∷ c ∷ []) [] h = h
starts_code_shorter (a ∷ b ∷ c ∷ []) (d ∷ rest) h = ground arith
starts_code_shorter xs rest h = refl

NoCodeIn-shorter : (xs rest : Bytes) → NoCodeIn xs rest → NoCodeIn xs []
NoCodeIn-shorter [] rest h = tt
NoCodeIn-shorter (x ∷ xs) rest h =
    (rw append-nil (starts_code_shorter (x ∷ xs) rest h.0), NoCodeIn-shorter xs rest h.1)

NoCodeIn-concat :
    (acc rest : Bytes) (a : ℕ)
    → NoCodeIn acc (a ∷ rest)
    → starts_code (a ∷ rest) ≡ false
    → NoCodeIn (acc ++ a ∷ []) rest
NoCodeIn-concat [] rest a h e = (e, tt)
NoCodeIn-concat (x ∷ acc) rest a h e = (rw append_assoc h.0, NoCodeIn-concat acc rest a h.1 e)

NoCodeIn-append :
    (acc rest : Bytes) → NoCodeIn acc rest → NoCodeIn rest [] → NoCodeIn (acc ++ rest) []
NoCodeIn-append [] rest h k = k
NoCodeIn-append (x ∷ acc) rest h k = (rw append-nil h.0, NoCodeIn-append acc rest h.1 k)

close-All :
    (acc rest : Bytes) (more : List NalUnit)
    → NoCodeIn acc rest
    → All IsFramable more
    → All IsFramable (close acc more)
close-All [] rest more h m = m
close-All (x ∷ xs) rest more h m = (
  record { payload_ne_nil = λ e. cc; no_code = NoCodeIn-shorter (x ∷ xs) rest h; type_is = refl },
  m,
)

split-All : (acc rest : Bytes) → NoCodeIn acc rest → All IsFramable (split acc rest)
unfolding split
split-All acc (a ∷ b ∷ c ∷ d ∷ rest) h =
    let four = close-All acc _ _ h (split-All [] rest tt) in
    let three = close-All acc _ _ h (split-All [] (d ∷ rest) tt) in
    let next = λ (e : starts_code (a ∷ b ∷ c ∷ d ∷ rest) ≡ false).
      split-All (acc ++ a ∷ []) (b ∷ c ∷ d ∷ rest) (NoCodeIn-concat acc _ a h e) in
    elim (Bool-cases (a == 0 && b == 0)) [
      | inl e ↦ elim (Bool-cases (c == 0 && d == 1)) [
        | inl f ↦ rw (e, f) four
        | inr f ↦ elim (Bool-cases (c == 1)) [
          | inl g ↦ rw (e, f, g) three
          | inr g ↦ rw (e, f, g) (next (rw (e, f, g)))
        ]
      ]
      | inr e ↦ rw e (next (rw e))
    ]
split-All acc (a ∷ b ∷ c ∷ []) h = elim (Bool-cases (a == 0 && b == 0 && c == 1)) [
  | inl e ↦ rw e (close-All acc _ [] h tt)
  | inr e ↦ rw e (close-All _ [] [] (NoCodeIn-append acc _ h (e, (refl, (refl, tt)))) tt)
]
split-All acc (a ∷ b ∷ []) h = close-All _ [] [] (NoCodeIn-append acc _ h (refl, (refl, tt))) tt
split-All acc (a ∷ []) h = close-All _ [] [] (NoCodeIn-append acc _ h (refl, tt)) tt
split-All acc [] h = close-All _ [] [] (NoCodeIn-append acc [] h tt) tt

lead-All : (rest : Bytes) → All IsFramable (lead rest)
unfolding lead
lead-All (a ∷ b ∷ c ∷ d ∷ rest) =
    let next = lead-All (b ∷ c ∷ d ∷ rest) in
    elim (Bool-cases (a == 0 && b == 0)) [
      | inl e ↦ elim (Bool-cases (c == 0 && d == 1)) [
        | inl f ↦ rw (e, f) (split-All [] rest tt)
        | inr f ↦ elim (Bool-cases (c == 1)) [
          | inl g ↦ rw (e, f, g) (split-All [] (d ∷ rest) tt)
          | inr g ↦ rw (e, f, g) next
        ]
      ]
      | inr e ↦ rw e next
    ]
lead-All _ = tt

-- Whatever bytes the encoder delivers, every unit of the scan has a payload that is not empty and
-- that holds no start code, and its type is the low five bits of its first byte.
pub scan_start_codes-IsFramable : (buf : Bytes) → All IsFramable (scan_start_codes buf)
scan_start_codes-IsFramable buf = rw scan_start_codes-lead (lead-All buf)

-- Normalising the start codes of any buffer loses nothing: a scan of the rebuilt access unit
-- gives the units of the first scan.
pub scan_start_codes-rebuild :
    (buf : Bytes)
    → scan_start_codes (build_access_unit (scan_start_codes buf)) ≡ scan_start_codes buf
scan_start_codes-rebuild buf =
    scan_start_codes-build_access_unit (scan_start_codes buf) (scan_start_codes-IsFramable buf)
