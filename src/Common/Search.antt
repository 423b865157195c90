-- ===== src/Common/Search.antt =====
-- Searching in a text, as `std::string::find` does. A position in a text is the rest of the text
-- from there on, and `npos` is none.
use opendisplay_win.Common.Tests.{◌==◌, leb, if◌then◌else◌, Bool-cases, Option-cases}
use opendisplay_win.Common.Lists.{Bytes, All, length, length-append}
use opendisplay_win.Common.Options.{map_some}
use Prim.Native.Nat.{ℕ, suc, ◌≤◌}
use mathlib.Core.Path.{◌≡◌, refl, ap}
use mathlib.Core.Logic.{inl, inr}
use mathlib.Core.Bool.{Bool, true, false, ◌&&◌, ◌||◌}
use mathlib.Core.Option.{Option, none, some}
use mathlib.Core.List.{[], ◌∷◌, ◌++◌, append_assoc, append-nil}
use native.Mathlib.Omega.{arith}

-- What follows `n` at the front of a text.
unfoldable pub strip : Bytes → Bytes → Option Bytes
strip [] t = some t
strip (x ∷ n) [] = none
strip (x ∷ n) (c ∷ t) = if x == c then strip n t else none

-- The texts before and behind the first `n`.
unfoldable pub cut : Bytes → Bytes → Option (Bytes × Bytes)
cut n [] = map_some (λ r. ([], r)) (strip n [])
cut n (c ∷ t) =
    let later = cut n t in
    elim (strip n (c ∷ t)) [
      | some r ↦ some ([], r)
      | none ↦ map_some (λ (p : Bytes × Bytes). (c ∷ p.0, p.1)) later
    ]

-- The texts before and behind the first byte `q`.
unfoldable pub cut_at : ℕ → Bytes → Option (Bytes × Bytes)
cut_at q [] = none
cut_at q (c ∷ t) =
    let later = cut_at q t in
    if c == q then some ([], t) else map_some (λ (p : Bytes × Bytes). (c ∷ p.0, p.1)) later

-- `isspace` of the C locale.
abbrev pub is_space : ℕ → Bool
is_space c = c == 32 || leb 9 c && leb c 13

unfoldable pub skip_space : Bytes → Bytes
skip_space [] = []
skip_space (c ∷ t) = if is_space c then skip_space t else c ∷ t

-- `n` begins at no byte of `pre`, when `rest` follows it.
abbrev pub NoneBefore : Bytes → Bytes → Bytes → Type 0
NoneBefore n [] rest = Unit {0}
NoneBefore n (x ∷ pre) rest = (strip n (x ∷ (pre ++ rest)) ≡ none) × NoneBefore n pre rest

abbrev pub Absent : ℕ → Bytes → Type 0
Absent q = All (λ c. (c == q) ≡ false)

pub strip-append : (n t : Bytes) → strip n (n ++ t) ≡ some t
unfolding strip
strip-append [] t = refl
strip-append (x ∷ n) t = ground (arith, strip-append n t)

cut_here : (n t r : Bytes) → strip n t ≡ some r → cut n t ≡ some ([], r)
unfolding cut
cut_here n [] r h = rw h
cut_here n (c ∷ t) r h = rw (h, cut)

cut_later :
    (n t a b : Bytes) (c : ℕ)
    → strip n (c ∷ t) ≡ none
    → cut n t ≡ some (a, b)
    → cut n (c ∷ t) ≡ some (c ∷ a, b)
unfolding cut
cut_later n t a b c h e = rw (h, e, cut)

pub cut-append :
    (n pre rest : Bytes)
    → NoneBefore n pre (n ++ rest)
    → cut n (pre ++ (n ++ rest)) ≡ some (pre, rest)
cut-append n [] rest h = cut_here n (n ++ rest) rest (strip-append n rest)
cut-append n (c ∷ pre) rest h = cut_later n _ pre rest c h.0 (cut-append n pre rest h.1)

pub cut_at-append : (q : ℕ) (a b : Bytes) → Absent q a → cut_at q (a ++ q ∷ b) ≡ some (a, b)
unfolding cut_at
cut_at-append q [] b h = ground arith
cut_at-append q (c ∷ a) b h = rw (h.0, cut_at-append q a b h.1)

pub skip_space-append :
    (w t : Bytes) → All (λ c. is_space c ≡ true) w → skip_space (w ++ t) ≡ skip_space t
unfolding skip_space
skip_space-append [] t h = refl
skip_space-append (c ∷ w) t h = rw (h.0) (skip_space-append w t h.1)

-- What `cut_at` returns are the parts of the text round its first `q`.
pub cut_at_sound :
    (q : ℕ) (t a b : Bytes) → cut_at q t ≡ some (a, b) → (t ≡ a ++ q ∷ b) × Absent q a
unfolding cut_at
cut_at_sound q [] a b h = cc
cut_at_sound q (c ∷ t) [] b h = ground arith
cut_at_sound q (c ∷ t) (x ∷ a) b h = ground (arith, cut_at_sound q t a b)

-- The test of `NoneBefore`, which evaluates on a literal also where a variable follows it.
abbrev is_none : Option Bytes → Bool
is_none none = true
is_none (some r) = false

unfoldable pub none_before : Bytes → Bytes → Bytes → Bool
none_before n [] rest = true
none_before n (x ∷ pre) rest = is_none (strip n (x ∷ (pre ++ rest))) && none_before n pre rest

pub none_before_sound : (n pre rest : Bytes) → none_before n pre rest ≡ true → NoneBefore n pre rest
unfolding none_before
none_before_sound n [] rest h = tt
none_before_sound n (x ∷ pre) rest h = (ground arith, none_before_sound n pre rest (ground arith))

pub NoneBefore-append :
    (n a b rest : Bytes)
    → NoneBefore n a (b ++ rest)
    → NoneBefore n b rest
    → NoneBefore n (a ++ b) rest
NoneBefore-append n [] b rest h k = k
NoneBefore-append n (x ∷ a) b rest h k = (rw append_assoc h.0, NoneBefore-append n a b rest h.1 k)

-- A text that begins with `q` does not begin in a text without `q`.
pub NoneBefore-Absent : (q : ℕ) (n a rest : Bytes) → Absent q a → NoneBefore (q ∷ n) a rest
NoneBefore-Absent q n [] rest h = tt
NoneBefore-Absent q n (x ∷ a) rest h =
    (unfold strip in ground (arith, h.0), NoneBefore-Absent q n a rest h.1)

pub strip_sound : (n t r : Bytes) → strip n t ≡ some r → t ≡ n ++ r
unfolding strip
strip_sound [] t r h = ground arith
strip_sound (x ∷ n) [] r h = cc
strip_sound (x ∷ n) (c ∷ t) r h = ground (arith, strip_sound n t r)

-- What `cut` returns are the parts of the text round an `n`.
pub cut_sound : (n t a b : Bytes) → cut n t ≡ some (a, b) → t ≡ a ++ (n ++ b)
unfolding cut
cut_sound n [] a b h = elim (Option-cases (strip n [])) [
  | inl e ↦ let h' = rw e at h in cc
  | inr (r, e) ↦ let h' = rw e at h in ground (arith, strip_sound n [] r e)
]
cut_sound n (c ∷ t) [] b h = ground (arith, strip_sound n (c ∷ t) b)
cut_sound n (c ∷ t) (x ∷ a) b h = ground (arith, cut_sound n t a b)

pub skip_space_suffix : (t : Bytes) → (w : Bytes) × (t ≡ w ++ skip_space t)
unfolding skip_space
skip_space_suffix [] = ([], refl)
skip_space_suffix (c ∷ t) = elim (Bool-cases (is_space c)) [
  | inl e ↦ let (w, h) = skip_space_suffix t in (c ∷ w, rw e (ap (◌∷◌ c) h))
  | inr e ↦ ([], rw e refl)
]

strip-local :
    (n p b c : Bytes) → length n ≤ length p → strip n (p ++ b) ≡ none → strip n (p ++ c) ≡ none
unfolding strip
strip-local [] p b c l h = cc
strip-local (x ∷ n) [] b c l h = absurd (omega arith)
strip-local (x ∷ n) (y ∷ p) b c l h = elim (Bool-cases (x == y)) [
  | inl e ↦ rw e (strip-local n p b c (omega arith) (rw e at h))
  | inr e ↦ rw e refl
]

-- Whether a text begins before its place does not depend on what follows it there.
pub NoneBefore-local : (n pre b c : Bytes) → NoneBefore n pre (n ++ b) → NoneBefore n pre (n ++ c)
NoneBefore-local n [] b c h = tt
NoneBefore-local n (x ∷ pre) b c h =
    let p : Bytes = x ∷ (pre ++ n) in
    let fits : (length n ≤ length p) = omega (arith, length-append pre n) in
    let before : (strip n (p ++ b) ≡ none) = rw (append_assoc pre n b) h.0 in
    (
      (rw⁻¹ (append_assoc pre n c) (strip-local n p b c fits before)),
      NoneBefore-local n pre b c h.1,
    )

cut_inside :
    (n t a b : Bytes) (c x : ℕ)
    → cut n (c ∷ t) ≡ some (x ∷ a, b)
    → (strip n (c ∷ t) ≡ none) × (cut n t ≡ some (a, b))
unfolding cut
cut_inside n t a b c x h = ground arith

-- Nothing begins in front of the place that `cut` finds.
pub cut-NoneBefore : (n t a b : Bytes) → cut n t ≡ some (a, b) → NoneBefore n a (n ++ b)
unfolding cut
cut-NoneBefore n t [] b h = tt
cut-NoneBefore n [] (x ∷ a) b h = ground arith
cut-NoneBefore n (c ∷ t) (x ∷ a) b h =
    let (e, later) = cut_inside n t a b c x h in
    let whole = cut_sound n (c ∷ t) (x ∷ a) b h in (rw whole at e, cut-NoneBefore n t a b later)

-- A text that does not begin before its place does not do so either where more follows.
pub NoneBefore-front :
    (n pre b c : Bytes) → length n ≤ suc (length b) → NoneBefore n pre b → NoneBefore n pre (b ++ c)
NoneBefore-front n [] b c l h = tt
NoneBefore-front n (x ∷ pre) b c l h =
    let p : Bytes = x ∷ (pre ++ b) in
    let fits : (length n ≤ length p) = omega (arith, length-append pre b) in
    let before : (strip n (p ++ []) ≡ none) = rw append-nil h.0 in
    (
      rw⁻¹ (append_assoc pre b c) (strip-local n p [] c fits before),
      NoneBefore-front n pre b c l h.1,
    )

pub cut-append-none :
    (n pre rest : Bytes) → NoneBefore n pre rest → cut n rest ≡ none → cut n (pre ++ rest) ≡ none
unfolding cut
cut-append-none n [] rest h e = e
cut-append-none n (x ∷ pre) rest h e = rw (h.0, cut-append-none n pre rest h.1 e, cut) refl
