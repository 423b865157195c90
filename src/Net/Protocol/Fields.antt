-- ===== src/Net/Protocol/Fields.antt =====
-- The field scanner on a text that holds the field, whatever stands round it.
use opendisplay_win.Common.{
  ℕ, ◌<◌, true, false, some, [], ◌∷◌, ◌++◌, Bytes, length, All, skip_space, is_space, NoneBefore,
  Absent, cut-append, cut_at-append, skip_space-append, ◌≡◌, ◌↔◌, refl, ap, arith,
}
use opendisplay_win.Net.Protocol.Scan.{
  quote, quoted, find_value_start, find_string_field, is_number_byte, number_text, find_number_text,
  no_zero_byte, is_control_payload,
}

-- `"key" : value` behind `pre`, with the spaces as they come.
abbrev pub with_field : Bytes → Bytes → Bytes → Bytes → Bytes → Bytes
with_field pre key gap spaces value = pre ++ (quoted key ++ (gap ++ b':' ∷ (spaces ++ value)))

number_not_space : (d : ℕ) (t : Bytes) → is_number_byte d ≡ true → skip_space (d ∷ t) ≡ d ∷ t
unfolding skip_space
number_not_space d t h = ground arith

number_text-append :
    (ds : Bytes) (stop : ℕ) (rest : Bytes)
    → All (λ c. is_number_byte c ≡ true) ds
    → is_number_byte stop ≡ false
    → number_text (ds ++ stop ∷ rest) ≡ ds
unfolding number_text
number_text-append [] stop rest h e = rw e
number_text-append (d ∷ ds) stop rest h e =
    rw (h.0) (ap (◌∷◌ d) (number_text-append ds stop rest h.1 e))

module _ (pre key gap spaces : Bytes) where
  -- The key's first occurrence is the field, and only space stands round the colon.
  pub record IsField (value : Bytes) : Type 0 where
    pub key_first : NoneBefore (quoted key) pre (quoted key ++ (gap ++ b':' ∷ (spaces ++ value)))
    pub gap_plain : Absent b':' gap
    pub spaces_are : All (λ c. is_space c ≡ true) spaces

  pub find_value_start_lem :
      (value : Bytes)
      → IsField value
      → find_value_start (with_field pre key gap spaces value) key ≡ some (skip_space value)
  unfolding find_value_start
  find_value_start_lem value f =
      rw (cut-append (quoted key) pre (gap ++ b':' ∷ (spaces ++ value)) f.key_first) (
        rw (cut_at-append b':' gap (spaces ++ value) f.gap_plain)
          (ap some (skip_space-append spaces value f.spaces_are)))

  -- A string without quotes is read back whole, if the first occurrence of its key in quotes is the
  -- field.
  pub find_string_field_lem :
      (s rest : Bytes)
      → IsField (quote ∷ (s ++ quote ∷ rest))
      → Absent quote s
      → find_string_field (with_field pre key gap spaces (quote ∷ (s ++ quote ∷ rest))) key ≡ some s
  unfolding find_string_field skip_space
  find_string_field_lem s rest f h =
      rw (find_value_start_lem (quote ∷ (s ++ quote ∷ rest)) f) (rw (cut_at-append quote s rest h))

  -- A number ends before the first byte that no number holds.
  pub find_number_text_lem :
      (d : ℕ) (ds : Bytes) (stop : ℕ) (rest : Bytes)
      → IsField (d ∷ (ds ++ stop ∷ rest))
      → All (λ c. is_number_byte c ≡ true) (d ∷ ds)
      → is_number_byte stop ≡ false
      → find_number_text (with_field pre key gap spaces (d ∷ (ds ++ stop ∷ rest))) key
        ≡ some (d ∷ ds)
  unfolding find_number_text
  find_number_text_lem d ds stop rest f h e =
      rw (find_value_start_lem (d ∷ (ds ++ stop ∷ rest)) f) (
        rw (number_not_space d (ds ++ stop ∷ rest) h.0)
          (rw (number_text-append (d ∷ ds) stop rest h e)))

no_zero_byte_iff : (b : Bytes) → (no_zero_byte b ≡ true) ↔ Absent 0 b
no_zero_byte_iff [] = (λ _. tt, λ _. refl)
no_zero_byte_iff (c ∷ b) = (
  λ h. (ground arith, (no_zero_byte_iff b).0 (ground arith)),
  λ h. rw (h.0) ((no_zero_byte_iff b).1 h.1),
)

abbrev pub Begins : ℕ → Bytes → Type 0
Begins q [] = ⊥
Begins q (c ∷ b) = c ≡ q

-- A payload is control JSON exactly if it is shorter than 32768 bytes, begins with `{` and holds no
-- zero byte.
pub is_control_payload_iff :
    (b : Bytes)
    → (is_control_payload (some b) ≡ true) ↔ ((length b < 32768) × Begins b'{' b × Absent 0 b)
unfolding is_control_payload
is_control_payload_iff [] = (λ h. cc, λ h. absurd h.1)
is_control_payload_iff (c ∷ b) = (
  λ h. (ground arith, ground arith, (no_zero_byte_iff (c ∷ b)).0 (ground arith)),
  λ h. ground (arith, (no_zero_byte_iff (c ∷ b)).1 h.2),
)
