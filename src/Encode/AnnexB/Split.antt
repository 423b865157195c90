-- ===== src/Encode/AnnexB/Split.antt =====
-- ScanStartCodes without offsets: one pass over the buffer that carries the open payload.
use opendisplay_win.Common.{
  ℕ, ◌+◌, ◌-◌, ◌==◌, leb, if◌then◌else◌, ◌&&◌, Bool-cases, inl, inr, List, [], ◌∷◌, ◌++◌,
  append-nil, append_assoc, Bytes, length, length-append, take-append, drop-append, ◌≡◌, refl, sym,
  ap, ◌∙◌, arith,
}
use opendisplay_win.Encode.AnnexB.{
  NalUnit, Marker, find_markers, slice, unit_of, collect_units, scan_start_codes,
}

-- A payload is closed by the next start code; an empty one is dropped.
abbrev pub close : Bytes → List NalUnit → List NalUnit
close [] more = more
close (x ∷ xs) more = unit_of (x ∷ xs) ∷ more

unfoldable pub split : Bytes → Bytes → List NalUnit
split acc (a ∷ b ∷ c ∷ d ∷ rest) =
    let four = close acc (split [] rest) in
    let three = close acc (split [] (d ∷ rest)) in
    let next = split (acc ++ (a ∷ [])) (b ∷ c ∷ d ∷ rest) in
    if a == 0 && b == 0
    then (if c == 0 && d == 1 then four else if c == 1 then three else next)
    else next
split acc (a ∷ b ∷ c ∷ []) =
    if a == 0 && b == 0 && c == 1 then close acc [] else close (acc ++ (a ∷ b ∷ c ∷ [])) []
split acc rest = close (acc ++ rest) []

-- Bytes before the first start code are skipped.
unfoldable pub lead : Bytes → List NalUnit
lead (a ∷ b ∷ c ∷ d ∷ rest) =
    let next = lead (b ∷ c ∷ d ∷ rest) in
    if a == 0 && b == 0
    then (if c == 0 && d == 1 then split [] rest else if c == 1 then split [] (d ∷ rest) else next)
    else next
lead _ = []

slice_middle :
    (pre acc rest : Bytes) (p i : ℕ)
    → p ≡ length pre
    → i ≡ length pre + length acc
    → slice (pre ++ (acc ++ rest)) p i ≡ acc
slice_middle pre acc rest p i hp hi =
    rw (drop-append pre (acc ++ rest) p hp) (take-append acc rest (i - p) (omega arith))

-- What `collect_units` makes of a marker with payload `acc`.
close_lem :
    (pre acc rest : Bytes) (p i : ℕ) (more : List NalUnit)
    → p ≡ length pre
    → i ≡ length pre + length acc
    → (if leb i p then more else unit_of (slice (pre ++ (acc ++ rest)) p i) ∷ more) ≡ close acc more
close_lem pre [] rest p i more hp hi = ground arith
close_lem pre (x ∷ xs) rest p i more hp hi =
    rw (slice_middle pre (x ∷ xs) rest p i hp hi) (ground arith)

close_end :
    (pre acc : Bytes) (p i : ℕ)
    → p ≡ length pre
    → i ≡ length pre + length acc
    → (if leb i p then [] else unit_of (slice (pre ++ acc) p i) ∷ []) ≡ close acc []
close_end pre acc p i hp hi = rw append-nil at (close_lem pre acc [] p i [] hp hi)

regroup : (pre acc r s : Bytes) → pre ++ (acc ++ (r ++ s)) ≡ (pre ++ (acc ++ r)) ++ s
regroup pre acc r s = simp append_assoc

length_regroup :
    (pre acc r : Bytes) → length (pre ++ (acc ++ r)) ≡ length pre + length acc + length r
length_regroup pre acc r = rw (length-append pre, length-append acc) (omega arith)

collect_close :
    (pre acc rest buf : Bytes) (p i q cb : ℕ) (ms : List Marker) (more : List NalUnit)
    → p ≡ length pre
    → i ≡ length pre + length acc
    → buf ≡ pre ++ (acc ++ rest)
    → collect_units buf (record { code_begin = i; payload_begin = q } ∷ ms) ≡ more
    → collect_units buf (
        record { code_begin = cb; payload_begin = p }
        ∷ record { code_begin = i; payload_begin = q }
        ∷ ms)
      ≡ close acc more
collect_close pre acc rest buf p i q cb ms more hp hi hb e =
    unfold collect_units in rw (e, collect_units) (rw hb (close_lem pre acc rest p i more hp hi))

collect_last :
    (pre acc rest buf : Bytes) (p cb : ℕ)
    → p ≡ length pre
    → buf ≡ pre ++ (acc ++ rest)
    → collect_units buf (record { code_begin = cb; payload_begin = p } ∷ [])
      ≡ close (acc ++ rest) []
unfolding collect_units
collect_last pre acc rest buf p cb hp hb =
    rw hb (close_end pre (acc ++ rest) p _ hp (length-append pre (acc ++ rest)))

collect-split :
    (pre acc rest buf : Bytes) (p i cb : ℕ)
    → p ≡ length pre
    → i ≡ length pre + length acc
    → buf ≡ pre ++ (acc ++ rest)
    → collect_units buf (record { code_begin = cb; payload_begin = p } ∷ find_markers i rest)
      ≡ split acc rest
unfolding find_markers split
collect-split pre acc (a ∷ b ∷ c ∷ d ∷ rest) buf p i cb hp hi hb =
    let four =
      collect_close pre acc (a ∷ b ∷ c ∷ d ∷ rest) buf p i (i + 4) cb (find_markers (i + 4) rest) _
        hp hi hb
        (collect-split (pre ++ (acc ++ (a ∷ b ∷ c ∷ d ∷ []))) [] rest buf (i + 4) (i + 4) i
          (omega (arith, length_regroup pre acc (a ∷ b ∷ c ∷ d ∷ [])))
          (omega (arith, length_regroup pre acc (a ∷ b ∷ c ∷ d ∷ [])))
          (hb ∙ regroup pre acc (a ∷ b ∷ c ∷ d ∷ []) rest)) in
    let three =
      collect_close pre acc (a ∷ b ∷ c ∷ d ∷ rest) buf p i (i + 3) cb
        (find_markers (i + 3) (d ∷ rest)) _ hp hi hb
        (collect-split (pre ++ (acc ++ (a ∷ b ∷ c ∷ []))) [] (d ∷ rest) buf (i + 3) (i + 3) i
          (omega (arith, length_regroup pre acc (a ∷ b ∷ c ∷ [])))
          (omega (arith, length_regroup pre acc (a ∷ b ∷ c ∷ [])))
          (hb ∙ regroup pre acc (a ∷ b ∷ c ∷ []) (d ∷ rest))) in
    let next =
      collect-split pre (acc ++ (a ∷ [])) (b ∷ c ∷ d ∷ rest) buf p (i + 1) cb hp
        (omega (arith, length-append acc (a ∷ []))) (rw append_assoc hb) in
    elim (Bool-cases (a == 0 && b == 0)) [
      | inl e ↦ elim (Bool-cases (c == 0 && d == 1)) [
        | inl f ↦ rw (e, f) four
        | inr f ↦ elim (Bool-cases (c == 1)) [
          | inl g ↦ rw (e, f, g) three
          | inr g ↦ rw (e, f, g) next
        ]
      ]
      | inr e ↦ rw e next
    ]
collect-split pre acc (a ∷ b ∷ c ∷ []) buf p i cb hp hi hb =
    elim (Bool-cases (a == 0 && b == 0 && c == 1)) [
      | inl e ↦ rw e (
          collect_close pre acc (a ∷ b ∷ c ∷ []) buf p i (i + 3) cb [] [] hp hi hb (
            collect_last (pre ++ (acc ++ (a ∷ b ∷ c ∷ []))) [] [] buf (i + 3) i
              (omega (arith, length_regroup pre acc (a ∷ b ∷ c ∷ [])))
              (hb ∙ regroup pre acc (a ∷ b ∷ c ∷ []) [])))
      | inr e ↦ rw e (collect_last pre acc (a ∷ b ∷ c ∷ []) buf p cb hp hb)
    ]
collect-split pre acc rest buf p i cb hp hi hb = collect_last pre acc rest buf p cb hp hb

collect_none : (buf : Bytes) → collect_units buf [] ≡ []
unfolding collect_units
collect_none buf = refl

-- Before the first start code nothing is collected.
collect-lead :
    (pre rest buf : Bytes) (i : ℕ)
    → i ≡ length pre
    → buf ≡ pre ++ rest
    → collect_units buf (find_markers i rest) ≡ lead rest
unfolding find_markers lead
collect-lead pre (a ∷ b ∷ c ∷ d ∷ rest) buf i hi hb =
    let four =
      collect-split (pre ++ (a ∷ b ∷ c ∷ d ∷ [])) [] rest buf (i + 4) (i + 4) i
        (omega (arith, length-append pre (a ∷ b ∷ c ∷ d ∷ [])))
        (omega (arith, length-append pre (a ∷ b ∷ c ∷ d ∷ [])))
        (hb ∙ sym (append_assoc pre (a ∷ b ∷ c ∷ d ∷ []) rest)) in
    let three =
      collect-split (pre ++ (a ∷ b ∷ c ∷ [])) [] (d ∷ rest) buf (i + 3) (i + 3) i
        (omega (arith, length-append pre (a ∷ b ∷ c ∷ [])))
        (omega (arith, length-append pre (a ∷ b ∷ c ∷ [])))
        (hb ∙ sym (append_assoc pre (a ∷ b ∷ c ∷ []) (d ∷ rest))) in
    let next =
      collect-lead (pre ++ (a ∷ [])) (b ∷ c ∷ d ∷ rest) buf (i + 1)
        (omega (arith, length-append pre (a ∷ [])))
        (hb ∙ sym (append_assoc pre (a ∷ []) (b ∷ c ∷ d ∷ rest))) in
    elim (Bool-cases (a == 0 && b == 0)) [
      | inl e ↦ elim (Bool-cases (c == 0 && d == 1)) [
        | inl f ↦ rw (e, f) four
        | inr f ↦ elim (Bool-cases (c == 1)) [
          | inl g ↦ rw (e, f, g) three
          | inr g ↦ rw (e, f, g) next
        ]
      ]
      | inr e ↦ rw e next
    ]
collect-lead pre (a ∷ b ∷ c ∷ []) buf i hi hb = elim (Bool-cases (a == 0 && b == 0 && c == 1)) [
  | inl e ↦ rw e (
      collect_last (pre ++ (a ∷ b ∷ c ∷ [])) [] [] buf (i + 3) i
        (omega (arith, length-append pre (a ∷ b ∷ c ∷ [])))
        (hb ∙ sym (append_assoc pre (a ∷ b ∷ c ∷ []) [] ∙ ap (◌++◌ pre) (append-nil _))))
  | inr e ↦ rw e (collect_none buf)
]
collect-lead pre rest buf i hi hb = collect_none buf

-- The scan by markers and offsets is the single pass.
pub scan_start_codes-lead : (buf : Bytes) → scan_start_codes buf ≡ lead buf
scan_start_codes-lead buf = unfold scan_start_codes in collect-lead [] buf buf 0 refl refl

-- A buffer that begins with a long start code.
pub scan_start_codes-split :
    (rest : Bytes) → scan_start_codes (0 ∷ 0 ∷ 0 ∷ 1 ∷ rest) ≡ split [] rest
unfolding lead
scan_start_codes-split rest = scan_start_codes-lead (0 ∷ 0 ∷ 0 ∷ 1 ∷ rest)
