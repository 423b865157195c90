-- ===== src/Net/Base64/Decode.antt =====
-- What a reader of RFC 4648 makes of the text.
mod Runs
use opendisplay_win.Common.{
  ℕ, zero, suc, ◌+◌, ◌*◌, ◌/◌, ◌%◌, ◌^◌, ◌<◌, ◌==◌, if◌then◌else◌, Bool, true, false, not, ◌&&◌,
  List, [], ◌∷◌, Bytes, All, ◌≡◌, refl, sym, ap, ◌∙◌, arith, Bool-cases, inl, inr,
}
use opendisplay_win.Net.Base64.{b64, digit, base64_encode}

-- Where a character stands in a table.
place : Bytes → ℕ → ℕ
place [] c = 0
place (d ∷ ds) c = let k = place ds c in if d == c then 0 else suc k

value : ℕ → ℕ
unfolding place
value c = place b64 c

-- Four characters are three bytes, or as many fewer as there are `=` at the end.
pub base64_decode : Bytes → Bytes
base64_decode (p ∷ q ∷ r ∷ s ∷ text) =
    let first = value p * 4 + value q / 16 in
    let second = value q % 16 * 16 + value r / 4 in
    let third = value r % 4 * 64 + value s in
    let rest = base64_decode text in
    if r == b'='
    then first ∷ []
    else if s == b'='
    then first ∷ second ∷ []
    else first ∷ second ∷ third ∷ rest
base64_decode _ = []

reads_below : ℕ → Bool
reads_below zero = true
reads_below (suc k) = (value (digit k) == k && not (digit k == b'=')) && reads_below k

reads_below_all :
    (n k : ℕ) → reads_below n ≡ true → k < n → (value (digit k) ≡ k) × ((digit k == b'=') ≡ false)
unfolding reads_below
reads_below_all zero k h l = absurd (omega arith)
reads_below_all (suc n) k h l = elim (Bool-cases (k == n)) [
  | inl e ↦ ground (arith, h)
  | inr e ↦ reads_below_all n k (ground arith) (ground arith)
]

digit_reads : (k : ℕ) → k < 64 → (value (digit k) ≡ k) × ((digit k == b'=') ≡ false)
unfolding reads_below place value digit
digit_reads k l = reads_below_all 64 k refl l

same_three : {x y z a b c : ℕ} {r : Bytes} → x ≡ a → y ≡ b → z ≡ c → x ∷ y ∷ z ∷ r ≡ a ∷ b ∷ c ∷ r
same_three e f g = cc

same_two : {x y a b : ℕ} → x ≡ a → y ≡ b → x ∷ y ∷ [] ≡ a ∷ b ∷ []
same_two e f = cc

-- Every string of bytes below 256 is read back from its Base64 text.
pub base64_decode-base64_encode :
    (b : Bytes) → All (λ c. c < 256) b → base64_decode (base64_encode b) ≡ b
unfolding base64_decode base64_encode
base64_decode-base64_encode (a ∷ b ∷ c ∷ rest) (ha, (hb, (hc, h))) =
    let n = a * 2 ^ 16 + b * 2 ^ 8 + c in
    let p = digit_reads (n / 2 ^ 18 % 64) (omega arith) in
    let q = digit_reads (n / 2 ^ 12 % 64) (omega arith) in
    let r = digit_reads (n / 2 ^ 6 % 64) (omega arith) in
    let s = digit_reads (n % 64) (omega arith) in
    rw (p.0, q.0, r.0, r.1, s.0, s.1, base64_decode-base64_encode rest h)
      (same_three (omega arith) (omega arith) (omega arith))
base64_decode-base64_encode (a ∷ b ∷ []) (ha, (hb, h)) =
    let n = a * 2 ^ 16 + b * 2 ^ 8 in
    let p = digit_reads (n / 2 ^ 18 % 64) (omega arith) in
    let q = digit_reads (n / 2 ^ 12 % 64) (omega arith) in
    let r = digit_reads (n / 2 ^ 6 % 64) (omega arith) in
    rw (p.0, q.0, r.0, r.1) (same_two (omega arith) (omega arith))
base64_decode-base64_encode (a ∷ []) (ha, h) =
    let n = a * 2 ^ 16 in
    let p = digit_reads (n / 2 ^ 18 % 64) (omega arith) in
    let q = digit_reads (n / 2 ^ 12 % 64) (omega arith) in
    rw (p.0, q.0) (ap (λ k. k ∷ []) (omega arith))
base64_decode-base64_encode [] h = refl
