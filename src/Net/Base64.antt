-- ===== src/Net/Base64.antt =====
-- src/net/CursorMessages.cpp: Base64Encode, for the cursor image in its JSON message.
pub mod Decode
use opendisplay_win.Common.{ℕ, ◌+◌, ◌*◌, ◌/◌, ◌%◌, ◌^◌, [], ◌∷◌, Bytes, codes, value_or, get_elem?}

abbrev pub b64 : Bytes
b64 = codes "ABCDEFGHIJKLMNOPQRSTUVWXYZabcdefghijklmnopqrstuvwxyz0123456789+/"

-- kB64[k]; the index is below 64.
unfoldable pub digit : ℕ → ℕ
digit k = value_or 0 (get_elem? b64 k)

-- The shifted bytes do not overlap, so `|` is a sum. The first clause is the loop, the others are
-- what is left of the data behind it.
unfoldable pub base64_encode : Bytes → Bytes
base64_encode (a ∷ b ∷ c ∷ rest) =
    let n = a * 2 ^ 16 + b * 2 ^ 8 + c in
    digit (n / 2 ^ 18 % 64)
    ∷ digit (n / 2 ^ 12 % 64)
    ∷ digit (n / 2 ^ 6 % 64)
    ∷ digit (n % 64)
    ∷ base64_encode rest
base64_encode (a ∷ b ∷ []) =
    let n = a * 2 ^ 16 + b * 2 ^ 8 in
    digit (n / 2 ^ 18 % 64) ∷ digit (n / 2 ^ 12 % 64) ∷ digit (n / 2 ^ 6 % 64) ∷ b'=' ∷ []
base64_encode (a ∷ []) =
    let n = a * 2 ^ 16 in digit (n / 2 ^ 18 % 64) ∷ digit (n / 2 ^ 12 % 64) ∷ b'=' ∷ b'=' ∷ []
base64_encode [] = []
