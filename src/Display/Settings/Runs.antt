-- ===== src/Display/Settings/Runs.antt =====
-- src/display/MttVddSettings.cpp: a settings text that is read and changed.
use opendisplay_win.Common.{List, [], ◌∷◌, ◌++◌, Bytes, codes, cut, strip, ◌≡◌, refl, arith}
use opendisplay_win.Display.Settings.{
  ModeKey, parse_resolutions, replace_resolutions_xml, cut_last, expand_wanted,
}
use opendisplay_win.Display.Edid.Modes.{mtt_modes_for_hello}
use opendisplay_win.Display.Settings.Wanted.{expand_wanted-mtt_modes_for_hello}
use opendisplay_win.Display.Settings.Resolutions.{parse_resolutions-replace_resolutions_xml}

abbrev xml_front : Bytes
xml_front = codes "<vdd_settings>\n    <HardwareCursor>false</HardwareCursor>\n    "

abbrev xml_end : Bytes
xml_end = codes "\n</vdd_settings>\n"

abbrev old_list : Bytes
old_list = codes "<resolution><width>800</width><height>600</height></resolution>"

abbrev settings : Bytes
settings = xml_front ++ (codes "<resolutions>" ++ (old_list ++ (codes "</resolutions>" ++ xml_end)))

abbrev ipad : List ModeKey
ipad =
    record { width = 2352; height = 1632; hz = 60 }
    ∷ record { width = 1776; height = 1248; hz = 60 }
    ∷ []

parse_resolutions-replace_resolutions_xml_example :
    parse_resolutions (replace_resolutions_xml settings ipad) ≡ ipad
unfolding cut strip cut_last
parse_resolutions-replace_resolutions_xml_example =
    parse_resolutions-replace_resolutions_xml settings xml_front
      (old_list ++ (codes "</resolutions>" ++ xml_end))
      (xml_front ++ (codes "<resolutions>" ++ old_list)) xml_end ipad refl refl (omega arith)
      (ground arith) refl (ground arith)

expand_wanted-mtt_modes_for_hello_example :
    expand_wanted (mtt_modes_for_hello 2388 1668) ≡ mtt_modes_for_hello 2388 1668
expand_wanted-mtt_modes_for_hello_example = expand_wanted-mtt_modes_for_hello 2388 1668
