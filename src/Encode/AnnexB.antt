-- ===== src/Encode/AnnexB.antt =====
-- src/encode/AnnexB.h and AnnexB.cpp: start codes, access units and the parameter-set cache.
-- A buffer is a list of bytes; the loop index of the source is kept beside the rest of the buffer.
pub mod Split
pub mod RoundTrip
pub mod ParameterSets
mod Runs
use Prim.Native.Nat.{bit_and}
use opendisplay_win.Common.{
  ℕ, ◌+◌, ◌-◌, ltb, leb, ◌==◌, if◌then◌else◌, Bool, true, false, not, ◌&&◌, ◌||◌, Option, none,
  some, List, [], ◌∷◌, ◌++◌, Bytes, length, take, drop,
}

abbrev pub nal_type_sps : ℕ
nal_type_sps = 7

abbrev pub nal_type_pps : ℕ
nal_type_pps = 8

abbrev pub nal_type_idr_slice : ℕ
nal_type_idr_slice = 5

pub record NalUnit : Type 0 where
  pub nal_type : ℕ
  pub payload : Bytes

pub record Marker : Type 0 where
  pub code_begin : ℕ
  pub payload_begin : ℕ

-- The size tests `i + 1 < size`, `i + 3 < size` and `i + 2 < size` are the patterns: with two
-- bytes or fewer left no start code fits, and with three only the short one.
unfoldable pub find_markers : ℕ → Bytes → List Marker
find_markers i (a ∷ b ∷ c ∷ d ∷ rest) =
    let four = record { code_begin = i; payload_begin = i + 4 } ∷ find_markers (i + 4) rest in
    let three =
      record { code_begin = i; payload_begin = i + 3 } ∷ find_markers (i + 3) (d ∷ rest) in
    let next = find_markers (i + 1) (b ∷ c ∷ d ∷ rest) in
    if a == 0 && b == 0
    then (if c == 0 && d == 1 then four else if c == 1 then three else next)
    else next
find_markers i (a ∷ b ∷ c ∷ []) =
    if a == 0 && b == 0 && c == 1 then record { code_begin = i; payload_begin = i + 3 } ∷ [] else []
find_markers i _ = []

-- data[payloadBegin] & 0x1F
abbrev pub nal_type_of : Bytes → ℕ
nal_type_of [] = 0
nal_type_of (b ∷ rest) = bit_and b 0x1f

-- The bytes from `b` up to `e`.
abbrev pub slice : Bytes → ℕ → ℕ → Bytes
slice data' b e = take (e - b) (drop b data')

-- The end of a payload: the next start code, or the end of the buffer.
abbrev pub payload_end : List Marker → ℕ → ℕ
payload_end [] size = size
payload_end (m ∷ ms) size = m.code_begin

abbrev pub unit_of : Bytes → NalUnit
unit_of p = record { nal_type = nal_type_of p; payload = p }

unfoldable pub collect_units : Bytes → List Marker → List NalUnit
collect_units buf [] = []
collect_units buf (m ∷ ms) =
    let last = payload_end ms (length buf) in
    let rest = collect_units buf ms in
    if leb last m.payload_begin then rest else unit_of (slice buf m.payload_begin last) ∷ rest

unfoldable pub scan_start_codes : Bytes → List NalUnit
scan_start_codes buf = collect_units buf (find_markers 0 buf)

unfoldable pub build_access_unit : List NalUnit → Bytes
build_access_unit [] = []
build_access_unit (n ∷ ns) = 0 ∷ 0 ∷ 0 ∷ 1 ∷ (n.payload ++ build_access_unit ns)

pub record SpsPpsCache : Type 0 where
  pub sps : Option NalUnit
  pub pps : Option NalUnit

-- The first loop: the last SPS and PPS of the unit are remembered.
unfoldable pub remember : SpsPpsCache → List NalUnit → SpsPpsCache
remember c [] = c
remember c (n ∷ ns) =
    remember
      (if n.nal_type == nal_type_sps
        then record c { sps = some n }
        else if n.nal_type == nal_type_pps
        then record c { pps = some n }
        else c)
      ns

abbrev pub has_type : ℕ → List NalUnit → Bool
has_type t [] = false
has_type t (n ∷ ns) = n.nal_type == t || has_type t ns

-- The units before the first IDR slice (`i < idrIndex`), if there is one.
unfoldable pub before_idr : List NalUnit → Option (List NalUnit)
before_idr [] = none
before_idr (n ∷ ns) =
    let rest = before_idr ns in
    if n.nal_type == nal_type_idr_slice
    then some []
    else elim rest [ none ↦ none | some front ↦ some (n ∷ front) ]

unfoldable pub prepend_cached : Option NalUnit → Option NalUnit → List NalUnit → List NalUnit
prepend_cached (some s) (some p) nals = s ∷ p ∷ nals
prepend_cached _ _ nals = nals

-- The new cache, and the access unit to send.
unfoldable pub ensure_parameter_sets : SpsPpsCache → List NalUnit → SpsPpsCache × List NalUnit
ensure_parameter_sets c nals =
    let c' = remember c nals in
    (
      c',
      elim (before_idr nals) [
        | none ↦ nals
        | some front ↦
            if has_type nal_type_sps front && has_type nal_type_pps front
            then nals
            else prepend_cached c'.sps c'.pps nals
      ],
    )
