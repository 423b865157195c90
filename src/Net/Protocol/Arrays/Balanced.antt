-- ===== src/Net/Protocol/Arrays/Balanced.antt =====
-- What FindArray returns is a part of the text, and WithoutArray changes nothing else.
use opendisplay_win.Common.{
  ℕ, ◌+◌, ◌-◌, ◌==◌, Bool, true, false, not, Bool-cases, Option-cases, inl, inr, Option, none, some,
  bind-eq-some, some_injective, ◌⊎◌, [], ◌∷◌, ◌++◌, append_assoc, Bytes, length, length-append,
  take, take-append, cut, cut_at, cut_sound, cut_at_sound, skip_space_suffix, ◌≡◌, sym, ap, ◌∙◌,
  arith,
}
use opendisplay_win.Net.Protocol.Scan.{quote, backslash, quoted, find_value_start}
use opendisplay_win.Net.Protocol.Arrays.{
  opens, closes, consed, scan_array, array_at, Located, find_array, without_array,
}

consed_sound :
    (c : ℕ) (o : Option (Bytes × Bytes)) (a r : Bytes)
    → consed c o ≡ some (a, r)
    → (a' : Bytes) × (a ≡ c ∷ a') × (o ≡ some (a', r))
consed_sound c none a r h = cc
consed_sound c (some (x, y)) a r h = (x, ground arith, ground arith)

step_sound :
    (c : ℕ) (o : Option (Bytes × Bytes)) (t a r : Bytes)
    → consed c o ≡ some (a, r)
    → ((a' : Bytes) → o ≡ some (a', r) → t ≡ a' ++ r)
    → c ∷ t ≡ a ++ r
step_sound c o t a r h part =
    let (a', e, h') = consed_sound c o a r h in rw e (ap (◌∷◌ c) (part a' h'))

-- The array that the loop returns is what it has read.
scan_array_sound :
    (depth : ℕ) (in_string : Bool) (t a r : Bytes)
    → scan_array depth in_string t ≡ some (a, r)
    → t ≡ a ++ r
unfolding scan_array
scan_array_sound depth in_string [] a r h = cc
scan_array_sound depth true (c ∷ []) a r h = cc
scan_array_sound depth true (c ∷ d ∷ t) a r h = elim (Bool-cases (c == backslash)) [
  | inl e ↦
      step_sound c _ (d ∷ t) a r (rw e at h)
        (λ a' h'. step_sound d _ t a' r h' (λ b. scan_array_sound depth true t b r))
  | inr e ↦
      step_sound c _ (d ∷ t) a r (rw e at h)
        (λ b. scan_array_sound depth (not (c == quote)) (d ∷ t) b r)
]
scan_array_sound depth false (c ∷ t) a r h = elim (Bool-cases (c == quote)) [
  | inl e ↦ step_sound c _ t a r (rw e at h) (λ b. scan_array_sound depth true t b r)
  | inr e ↦ elim (Bool-cases (opens c)) [
    | inl f ↦ step_sound c _ t a r (rw (e, f) at h) (λ b. scan_array_sound (depth + 1) false t b r)
    | inr f ↦ elim (Bool-cases (closes c)) [
      | inl g ↦ elim (Bool-cases (depth - 1 == 0)) [
        | inl k ↦ let h' = rw (e, f, g, k) at h in ground arith
        | inr k ↦
            step_sound c _ t a r (rw (e, f, g, k) at h)
              (λ b. scan_array_sound (depth - 1) false t b r)
      ]
      | inr g ↦ step_sound c _ t a r (rw (e, f, g) at h) (λ b. scan_array_sound depth false t b r)
    ]
  ]
]

array_at_sound : (t a r : Bytes) → array_at t ≡ some (a, r) → t ≡ a ++ r
array_at_sound [] a r h = cc
array_at_sound (c ∷ t) a r h = elim (Bool-cases (c == b'[')) [
  | inl e ↦ scan_array_sound 0 false (c ∷ t) a r (rw e at h)
  | inr e ↦ let h' = rw e at h in cc
]

find_value_start_suffix :
    (json key start : Bytes)
    → find_value_start json key ≡ some start
    → (p : Bytes) × (json ≡ p ++ start)
unfolding find_value_start
find_value_start_suffix json key start h =
    let (p, ep, h1) = bind-eq-some (cut (quoted key) json) _ h in
    let (q, eq, h2) = bind-eq-some (cut_at b':' p.1) _ h1 in
    let (w, ew) = skip_space_suffix q.1 in
    (
      p.0 ++ (quoted key ++ (q.0 ++ b':' ∷ w)),
      cut_sound (quoted key) json p.0 p.1 ep
          ∙ ap (λ t. p.0 ++ (quoted key ++ t))
              ((cut_at_sound b':' p.1 q.0 q.1 eq).0
                ∙ ap (λ t. q.0 ++ b':' ∷ t) (ew ∙ ap (◌++◌ w) (some_injective h2)))
          ∙ simp append_assoc,
    )

-- FindArray splits the text into what is before the array, the array and what is behind it.
pub find_array_sound :
    (json key : Bytes) (l : Located)
    → find_array json key ≡ some l
    → json ≡ l.before ++ (l.array ++ l.after)
unfolding find_array
find_array_sound json key l h =
    let (start, es, h1) = bind-eq-some (find_value_start json key) _ h in
    let (parts, ea, h2) = bind-eq-some (array_at start) _ h1 in
    let (p, ep) = find_value_start_suffix json key start es in
    let before : (take (length json - length start) json ≡ p) =
      ap (take (length json - length start)) ep
      ∙ take-append p start _ (omega (arith, ap length ep, length-append p start)) in
    ep
    ∙ ap (◌++◌ p) (array_at_sound start parts.0 parts.1 ea)
    ∙ sym (rw (← some_injective h2) (ap (λ b. b ++ (parts.0 ++ parts.1)) before))

pub without_array_lem :
    (json key : Bytes)
    → ((find_array json key ≡ none) × (without_array json key ≡ json))
      ⊎ ((l : Located) × (find_array json key ≡ some l)
          × (json ≡ l.before ++ (l.array ++ l.after))
          × (without_array json key ≡ l.before ++ (b'[' ∷ b']' ∷ l.after)))
unfolding without_array
without_array_lem json key = elim (Option-cases (find_array json key)) [
  | inl e ↦ inl (e, rw (e, without_array))
  | inr (l, e) ↦ inr (l, e, find_array_sound json key l e, rw (e, without_array))
]
