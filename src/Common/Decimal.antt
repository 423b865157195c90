-- ===== src/Common/Decimal.antt =====
-- Decimal text: `%u` and `<<` of an unsigned number, and the digits that `strtol` and `stoul` read.
use Prim.Native.Nat.{ℕ, zero, suc, ◌+◌, ◌-◌, ◌*◌, ◌/◌, ◌%◌, ◌^◌, ◌<◌, ◌≤◌}
use mathlib.Core.Path.{◌≡◌, ap, ◌∙◌}
use mathlib.Core.Logic.{inl, inr}
use mathlib.Core.Bool.{Bool, true, ◌&&◌}
use mathlib.Core.List.{[], ◌∷◌, ◌++◌, append_assoc}
use native.Mathlib.Omega.{arith}
use native.Mathlib.Nat.{pow-succ'}
use opendisplay_win.Common.Tests.{ltb, leb, if◌then◌else◌, Bool-cases}
use opendisplay_win.Common.Lists.{Bytes, All, All-snoc, length, length-append}
use opendisplay_win.Common.Search.{Absent, NoneBefore, NoneBefore-Absent}

abbrev pub is_digit : ℕ → Bool
is_digit c = leb b'0' c && leb c b'9'

-- The digits of `n`, with fuel for more digits than it has.
digits_within : ℕ → ℕ → Bytes
digits_within zero n = []
digits_within (suc f) n =
    let more = digits_within f (n / 10) ++ (b'0' + n % 10) ∷ [] in
    if ltb n 10 then (b'0' + n) ∷ [] else more

unfoldable pub digits : ℕ → Bytes
unfolding digits_within
digits n = digits_within (n + 1) n

-- The number whose digits are `acc` and those at the front of the text.
unfoldable pub read_digits : ℕ → Bytes → ℕ
read_digits acc [] = acc
read_digits acc (c ∷ t) =
    let more = read_digits (acc * 10 + (c - b'0')) t in if is_digit c then more else acc

read_digits_step :
    (acc n : ℕ) (rest : Bytes)
    → n < 10
    → read_digits acc ((b'0' + n) ∷ rest) ≡ read_digits (acc * 10 + n) rest
unfolding read_digits
read_digits_step acc n rest h =
    let d : (is_digit (b'0' + n) ≡ true) = ground arith in
    rw d (ap (λ k. read_digits (acc * 10 + k) rest) (omega arith))

read_digits-digits_within :
    (f n : ℕ) (rest : Bytes)
    → n < f
    → read_digits 0 (digits_within f n ++ rest) ≡ read_digits n rest
unfolding digits_within
read_digits-digits_within zero n rest h = absurd (omega arith)
read_digits-digits_within (suc f) n rest h = elim (Bool-cases (ltb n 10)) [
  | inl e ↦
      rw e (read_digits_step 0 n rest (ground arith) ∙ ap (λ k. read_digits k rest) (omega arith))
  | inr e ↦ rw e (
      ap (read_digits 0) (append_assoc (digits_within f (n / 10)) ((b'0' + n % 10) ∷ []) rest)
      ∙ read_digits-digits_within f (n / 10) ((b'0' + n % 10) ∷ rest) (ground arith)
      ∙ read_digits_step (n / 10) (n % 10) rest (omega arith)
      ∙ ap (λ k. read_digits k rest) (omega arith))
]

-- A written number is read back, up to the next byte that is no digit.
pub read_digits-digits :
    (n : ℕ) (rest : Bytes) → read_digits 0 (digits n ++ rest) ≡ read_digits n rest
unfolding digits
read_digits-digits n rest = read_digits-digits_within (n + 1) n rest (omega arith)

length-digits_within : (f n k : ℕ) → n < 10 ^ suc k → length (digits_within f n) ≤ suc k
unfolding digits_within
length-digits_within zero n k h = omega arith
length-digits_within (suc f) n zero h =
    let e : (ltb n 10 ≡ true) = ground (arith, h) in rw e (omega arith)
length-digits_within (suc f) n (suc k) h =
    let p = pow-succ' 10 (suc k) in
    let ih = length-digits_within f (n / 10) k (omega arith) in
    let l = length-append (digits_within f (n / 10)) ((b'0' + n % 10) ∷ []) in
    ground (arith, p, ih, l)

pub length-digits : (n k : ℕ) → n < 10 ^ suc k → length (digits n) ≤ suc k
unfolding digits
length-digits n k h = length-digits_within (n + 1) n k h

digits_within_plain : (f n : ℕ) → All (λ c. is_digit c ≡ true) (digits_within f n)
unfolding digits_within
digits_within_plain zero n = tt
digits_within_plain (suc f) n = elim (Bool-cases (ltb n 10)) [
  | inl e ↦ rw e (ground arith)
  | inr e ↦ rw e (All-snoc _ _ _ (digits_within_plain f (n / 10)) (ground arith))
]

pub digits_plain : (n : ℕ) → All (λ c. is_digit c ≡ true) (digits n)
unfolding digits
digits_plain n = digits_within_plain (n + 1) n

length-append-positive : (xs : Bytes) (y : ℕ) → 0 < length (xs ++ y ∷ [])
length-append-positive xs y = omega (arith, length-append xs (y ∷ []))

digits_within-positive : (f n : ℕ) → 0 < length (digits_within (suc f) n)
unfolding digits_within
digits_within-positive f n =
    ground (arith, length-append-positive (digits_within f (n / 10)) (b'0' + n % 10))

pub digits-positive : (n : ℕ) → 0 < length (digits n)
unfolding digits
digits-positive n = let e : (n + 1 ≡ suc n) = omega arith in rw e (digits_within-positive n n)

digits-Absent : (ds : Bytes) → All (λ d. is_digit d ≡ true) ds → Absent b'<' ds
digits-Absent [] h = tt
digits-Absent (d ∷ ds) h = (ground (arith, h.0), digits-Absent ds h.1)

-- No tag opens in a number.
pub NoneBefore-digits : (n : ℕ) (tag rest : Bytes) → NoneBefore (b'<' ∷ tag) (digits n) rest
NoneBefore-digits n tag rest =
    NoneBefore-Absent b'<' tag (digits n) rest (digits-Absent (digits n) (digits_plain n))
