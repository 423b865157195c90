-- ===== src/Display/Settings/Options.antt =====
-- src/display/MttVddSettings.cpp, SetOptionBoolXml: the option that is written is read again.
use opendisplay_win.Common.{
  Bool, true, false, ◌>>=◌, none, some, [], ◌++◌, Bytes, cut, cut-append, cut-NoneBefore,
  NoneBefore, NoneBefore-local, NoneBefore-Absent, equal, bind-eq-some, some_injective, ◌≡◌, ◌⊎◌,
  inl, inr, refl, ap, subst, arith, Option-cases,
}
use opendisplay_win.Display.Settings.{
  open_tag, close_tag, bool_text, bool_of, skip_blank, drop_blank, option_parts, parse_option_bool,
  set_option_bool_xml,
}

bool_read : (v : Bool) → bool_of (drop_blank (skip_blank (bool_text v))) ≡ some v
unfolding drop_blank skip_blank equal
bool_read true = refl
bool_read false = refl

bool_no_tag : (v : Bool) (tag rest : Bytes) → NoneBefore (close_tag tag) (bool_text v) rest
bool_no_tag true tag rest = NoneBefore-Absent b'<' _ (bool_text true) rest (ground arith)
bool_no_tag false tag rest = NoneBefore-Absent b'<' _ (bool_text false) rest (ground arith)

parts_again :
    (before rest tag : Bytes) (v : Bool) (old : Bytes)
    → NoneBefore (open_tag tag) before (open_tag tag ++ old)
    → option_parts (before ++ (open_tag tag ++ (bool_text v ++ (close_tag tag ++ rest)))) tag
      ≡ some (before, (bool_text v, rest))
unfolding option_parts
parts_again before rest tag v old h =
    let tail = bool_text v ++ (close_tag tag ++ rest) in
    rw
      (
        cut-append (open_tag tag) before tail (NoneBefore-local (open_tag tag) before old tail h),
        cut-append (close_tag tag) (bool_text v) rest (bool_no_tag v tag (close_tag tag ++ rest)),
      )
      refl

parts_first :
    (xml tag before : Bytes) (element : Bytes × Bytes)
    → option_parts xml tag ≡ some (before, element)
    → (old : Bytes) × NoneBefore (open_tag tag) before (open_tag tag ++ old)
unfolding option_parts
parts_first xml tag before element e =
    let close_at = λ (a : Bytes × Bytes). cut (close_tag tag) a.1 >>= λ b. some (a.0, b) in
    let (a, a_eq, e2) = bind-eq-some (cut (open_tag tag) xml) close_at e in
    let (b, b_eq, e3) = bind-eq-some (cut (close_tag tag) a.1) (λ b. some (a.0, b)) e2 in
    let same : (a.0 ≡ before) = ap (λ p. p.0) (some_injective e3) in
    (
      a.1,
      subst (λ x. NoneBefore (open_tag tag) x (open_tag tag ++ a.1)) same
          (cut-NoneBefore (open_tag tag) xml a.0 a.1 a_eq),
    )

-- Whatever the text and the option: SetOptionBoolXml finds no element of that name and gives the
-- empty text, or the option is read from its result as it was set.
pub set_option_bool_xml_lem :
    (xml tag : Bytes) (v : Bool)
    → ((option_parts xml tag ≡ none) × (set_option_bool_xml xml tag v ≡ []))
      ⊎ (parse_option_bool (set_option_bool_xml xml tag v) tag ≡ some v)
unfolding set_option_bool_xml parse_option_bool
set_option_bool_xml_lem xml tag v = elim (Option-cases (option_parts xml tag)) [
  | inl e ↦ inl (e, rw e refl)
  | inr ((before, element), e) ↦
      let (old, first) = parts_first xml tag before element e in
      inr (rw (e, parts_again before element.1 tag v old first) (bool_read v))
]
