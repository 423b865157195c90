-- ===== src/Display/Settings/Blocks.antt =====
-- src/display/MttVddSettings.cpp, FormatResolutionBlock: a block that is written is read again.
use opendisplay_win.Common.{
  ℕ, ◌^◌, ◌<◌, ltb, true, some, [], ◌∷◌, ◌++◌, append_assoc, Bytes, codes, length, cut-append,
  NoneBefore, NoneBefore-append, none_before, none_before_sound, NoneBefore-Absent, All, strip,
  skip_space, is_digit, digits, read_digits, read_digits-digits, digits_plain, digits-positive,
  NoneBefore-digits, ◌≡◌, refl, ◌∙◌, arith,
}
use opendisplay_win.Display.Settings.{
  ModeKey, strtoul, tag_u32, res_open, res_close, block_mode, next_block, format_resolution_block,
}

-- A number up to the next tag.
strtoul_plain :
    (ds rest : Bytes)
    → All (λ d. is_digit d ≡ true) ds
    → 0 < length ds
    → read_digits 0 (ds ++ rest) < 2 ^ 32
    → strtoul (ds ++ rest) ≡ read_digits 0 (ds ++ rest)
unfolding strtoul skip_space
strtoul_plain [] rest h p b = absurd (omega arith)
strtoul_plain (d ∷ ds) rest h p b = ground (arith, h.0)

strtoul-digits : (n : ℕ) (rest : Bytes) → n < 2 ^ 32 → strtoul (digits n ++ b'<' ∷ rest) ≡ n
strtoul-digits n rest h =
    let value : (read_digits 0 (digits n ++ b'<' ∷ rest) ≡ n) =
      read_digits-digits n (b'<' ∷ rest) ∙ (unfold read_digits in refl) in
    strtoul_plain (digits n) (b'<' ∷ rest) (digits_plain n) (digits-positive n) (rw value h) ∙ value

-- A text with a number in it, then a text.
past_number :
    (n : ℕ) (tag b rest : Bytes)
    → NoneBefore (b'<' ∷ tag) b rest
    → NoneBefore (b'<' ∷ tag) (digits n ++ b) rest
past_number n tag b rest h =
    NoneBefore-append (b'<' ∷ tag) (digits n) b rest (NoneBefore-digits n tag (b ++ rest)) h

past_text :
    (tag a b rest : Bytes)
    → none_before tag a (b ++ rest) ≡ true
    → NoneBefore tag b rest
    → NoneBefore tag (a ++ b) rest
past_text tag a b rest e h =
    NoneBefore-append tag a b rest (none_before_sound tag a (b ++ rest) e) h

-- A number that a mode may have.
abbrev pub IsNumber : ℕ → Type 0
IsNumber n = (0 < n) × (n < 2 ^ 32)

abbrev pub IsKey : ModeKey → Type 0
IsKey m = IsNumber m.width × IsNumber m.height × IsNumber m.hz

tag_u32_lem :
    (opening closing pre rest : Bytes) (n : ℕ)
    → IsNumber n
    → NoneBefore opening pre (opening ++ (digits n ++ ((b'<' ∷ closing) ++ rest)))
    → tag_u32
        (pre ++ (opening ++ (digits n ++ ((b'<' ∷ closing) ++ rest))))
        opening
        (b'<' ∷ closing)
      ≡ some n
unfolding tag_u32
tag_u32_lem opening closing pre rest n (p, h) first =
    let tail = digits n ++ ((b'<' ∷ closing) ++ rest) in
    let positive : (ltb 0 n ≡ true) = ground arith in
    rw
      (
        cut-append opening pre tail first,
        cut-append (b'<' ∷ closing) (digits n) rest
            (NoneBefore-digits n closing ((b'<' ∷ closing) ++ rest)),
        strtoul-digits n (closing ++ rest) h,
        positive,
      )
      refl

abbrev w_front : Bytes
w_front = codes "\n            "

abbrev pub rate_part : ModeKey → Bytes
rate_part m =
    codes "<refresh_rate>" ++ (digits m.hz ++ (codes "</refresh_rate>" ++ codes "\n        "))

abbrev pub height_part : ModeKey → Bytes
height_part m =
    codes "<height>"
    ++ (digits m.height ++ (codes "</height>" ++ (codes "\n            " ++ rate_part m)))

abbrev pub width_part : ModeKey → Bytes
width_part m =
    codes "<width>"
    ++ (digits m.width ++ (codes "</width>" ++ (codes "\n            " ++ height_part m)))

-- The text between the tags of a block, with the opening one.
abbrev pub block_of : ModeKey → Bytes
block_of m = res_open ++ (codes "\n            " ++ width_part m)

block_shape :
    (m : ModeKey) (rest : Bytes)
    → format_resolution_block m ++ rest
      ≡ codes "        " ++ (block_of m ++ (res_close ++ (codes "\n" ++ rest)))
unfolding format_resolution_block
block_shape m rest = simp append_assoc

-- What stands in front of each number, and what stands from there on.
before_height : ModeKey → Bytes
before_height m =
    res_open
    ++ (codes "\n            <width>" ++ (digits m.width ++ codes "</width>\n            "))

before_rate : ModeKey → Bytes
unfolding before_height
before_rate m =
    before_height m ++ (codes "<height>" ++ (digits m.height ++ codes "</height>\n            "))

height_shape : (m : ModeKey) → block_of m ≡ before_height m ++ height_part m
unfolding before_height
height_shape m = simp append_assoc

rate_shape : (m : ModeKey) → block_of m ≡ before_rate m ++ rate_part m
unfolding before_height before_rate
rate_shape m = simp append_assoc

read_width :
    (m : ModeKey)
    → IsNumber m.width
    → tag_u32 (block_of m) (codes "<width>") (codes "</width>") ≡ some m.width
read_width m h =
    tag_u32_lem (codes "<width>") (codes "/width>") (res_open ++ codes "\n            ")
      (codes "\n            " ++ height_part m) m.width h
      (none_before_sound (codes "<width>") (res_open ++ codes "\n            ") (width_part m)
        (unfold none_before strip in refl))

read_height :
    (m : ModeKey)
    → IsNumber m.height
    → tag_u32 (block_of m) (codes "<height>") (codes "</height>") ≡ some m.height
unfolding before_height
read_height m h = rw (height_shape m) (
    tag_u32_lem (codes "<height>") (codes "/height>") (before_height m)
      (codes "\n            " ++ rate_part m) m.height h
      (past_text (codes "<height>") (res_open ++ codes "\n            <width>")
        (digits m.width ++ codes "</width>\n            ") (height_part m)
        (unfold none_before strip in refl)
        (past_number m.width (codes "height>") (codes "</width>\n            ") (height_part m) (
          none_before_sound (codes "<height>") (codes "</width>\n            ") (height_part m)
            (unfold none_before strip in refl)))))

read_rate :
    (m : ModeKey)
    → IsNumber m.hz
    → tag_u32 (block_of m) (codes "<refresh_rate>") (codes "</refresh_rate>") ≡ some m.hz
unfolding before_height before_rate
read_rate m h =
    let tag = codes "refresh_rate>" in
    let gap = codes "</height>\n            " in
    let late = codes "<height>" ++ (digits m.height ++ gap) in
    let whole = b'<' ∷ tag in
    let here = rate_part m in
    rw (rate_shape m) (
      tag_u32_lem whole (codes "/refresh_rate>") (before_rate m) (codes "\n        ") m.hz h (
        NoneBefore-append whole (before_height m) late here
          (past_text whole (res_open ++ codes "\n            <width>")
            (digits m.width ++ codes "</width>\n            ") (late ++ here)
            (unfold none_before strip in refl)
            (past_number m.width tag (codes "</width>\n            ") (late ++ here) (
              none_before_sound whole (codes "</width>\n            ") (late ++ here)
                (unfold none_before strip in refl))))
          (past_text whole (codes "<height>") (digits m.height ++ gap) here
            (unfold none_before strip in refl)
            (past_number m.height tag gap here
              (none_before_sound whole gap here (unfold none_before strip in refl))))))

pub block_mode-block_of : (m : ModeKey) → IsKey m → block_mode (block_of m) ≡ some m
unfolding block_mode
block_mode-block_of m (w, h, r) = rw (read_width m w, read_height m h, read_rate m r) refl

-- No block ends inside a block.
closes_late : (m : ModeKey) (rest : Bytes) → NoneBefore res_close (block_of m) (res_close ++ rest)
closes_late m rest =
    let tag = codes "/resolution>" in
    let here = res_close ++ rest in
    past_text res_close (res_open ++ codes "\n            <width>")
      (digits m.width ++ (codes "</width>\n            " ++ height_part m)) here
      (unfold none_before strip in refl)
      (past_number m.width tag (codes "</width>\n            " ++ height_part m) here (
        past_text res_close (codes "</width>\n            <height>")
          (digits m.height ++ (codes "</height>\n            " ++ rate_part m)) here
          (unfold none_before strip in refl)
          (past_number m.height tag (codes "</height>\n            " ++ rate_part m) here (
            past_text res_close (codes "</height>\n            <refresh_rate>")
              (digits m.hz ++ codes "</refresh_rate>\n        ") here
              (unfold none_before strip in refl)
              (past_number m.hz tag (codes "</refresh_rate>\n        ") here (
                none_before_sound res_close (codes "</refresh_rate>\n        ") here
                  (unfold none_before strip in refl)))))))

-- A text that no block opens in, whatever follows it.
abbrev pub Clear : Bytes → Type 0
Clear gap = (x : Bytes) → NoneBefore res_open gap x

spaces-Clear : (gap : Bytes) → Clear gap → Clear (gap ++ codes "        ")
spaces-Clear gap c x =
    NoneBefore-append res_open gap (codes "        ") x (c (codes "        " ++ x))
      (NoneBefore-Absent b'<' (codes "resolution>") (codes "        ") x (ground arith))

pub next_block_lem :
    (gap rest : Bytes) (m : ModeKey)
    → Clear gap
    → next_block (gap ++ (format_resolution_block m ++ rest))
      ≡ some (block_of m, codes "\n" ++ rest)
unfolding next_block
next_block_lem gap rest m c =
    let inner = codes "\n            " ++ width_part m in
    let front = gap ++ codes "        " in
    let behind = res_close ++ (codes "\n" ++ rest) in
    let shape : (gap ++ (format_resolution_block m ++ rest)
        ≡ front ++ (res_open ++ (inner ++ behind))) =
      rw (block_shape m rest) (simp append_assoc) in
    let opens =
      cut-append res_open front (inner ++ behind)
        (spaces-Clear gap c (res_open ++ (inner ++ behind))) in
    let closes =
      cut-append res_close (block_of m) (codes "\n" ++ rest) (closes_late m (codes "\n" ++ rest)) in
    rw (shape, opens) closes
