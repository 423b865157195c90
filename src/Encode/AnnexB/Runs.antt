-- ===== src/Encode/AnnexB/Runs.antt =====
-- The Annex-B theorems at concrete buffers, and runs.
use opendisplay_win.Common.{[], ◌∷◌, Bytes, All, none, some, ◌≡◌, refl}
use opendisplay_win.Encode.AnnexB.{
  NalUnit, SpsPpsCache, find_markers, collect_units, scan_start_codes, build_access_unit, remember,
  before_idr, prepend_cached, ensure_parameter_sets,
}
use opendisplay_win.Encode.AnnexB.RoundTrip.{IsFramable, scan_start_codes-rebuild}
use opendisplay_win.Encode.AnnexB.ParameterSets.{
  IsDecodable, ensure_stream, ensure_stream-IsDecodable,
}

abbrev sps_unit : NalUnit
sps_unit = record { nal_type = 7; payload = 0x67 ∷ 0x42 ∷ 0 ∷ [] }

abbrev pps_unit : NalUnit
pps_unit = record { nal_type = 8; payload = 0x68 ∷ 0xce ∷ [] }

abbrev idr_unit : NalUnit
idr_unit = record { nal_type = 5; payload = 0x65 ∷ 0x88 ∷ [] }

abbrev mixed : Bytes
mixed = 9 ∷ 0 ∷ 0 ∷ 1 ∷ 0x67 ∷ 0x42 ∷ 0 ∷ 0 ∷ 0 ∷ 0 ∷ 1 ∷ 0x68 ∷ 0xce ∷ 0 ∷ 0 ∷ 1 ∷ 0x65 ∷ 0x88 ∷ []

-- A short and a long start code; the zero before the long one belongs to the SPS.
scan_mixed : scan_start_codes mixed ≡ sps_unit ∷ pps_unit ∷ idr_unit ∷ []
unfolding scan_start_codes find_markers collect_units
scan_mixed = refl

sps_unit-IsFramable : IsFramable sps_unit
sps_unit-IsFramable = record {
  payload_ne_nil = λ e. cc;
  no_code = (refl, (refl, (refl, tt)));
  type_is = refl;
}

pps_unit-IsFramable : IsFramable pps_unit
pps_unit-IsFramable = record {
  payload_ne_nil = λ e. cc;
  no_code = (refl, (refl, tt));
  type_is = refl;
}

scan_start_codes-rebuild_example :
    scan_start_codes (build_access_unit (scan_start_codes mixed)) ≡ scan_start_codes mixed
scan_start_codes-rebuild_example = scan_start_codes-rebuild mixed

abbrev empty_cache : SpsPpsCache
empty_cache = record { sps = none; pps = none }

abbrev full_cache : SpsPpsCache
full_cache = record { sps = some sps_unit; pps = some pps_unit }

prepends :
    (ensure_parameter_sets full_cache (idr_unit ∷ [])).1 ≡ sps_unit ∷ pps_unit ∷ idr_unit ∷ []
unfolding ensure_parameter_sets remember before_idr prepend_cached
prepends = refl

ensure_stream-IsDecodable_example :
    All IsDecodable
      (ensure_stream empty_cache ((sps_unit ∷ pps_unit ∷ idr_unit ∷ []) ∷ (idr_unit ∷ []) ∷ []))
ensure_stream-IsDecodable_example =
    ensure_stream-IsDecodable empty_cache (sps_unit ∷ pps_unit ∷ idr_unit ∷ [])
      ((idr_unit ∷ []) ∷ []) refl refl
