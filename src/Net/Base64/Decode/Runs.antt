-- ===== src/Net/Base64/Decode/Runs.antt =====
-- The text of four bytes, and the bytes back from it.
use opendisplay_win.Common.{[], ◌∷◌, Bytes, codes, ◌≡◌, refl}
use opendisplay_win.Net.Base64.{digit, base64_encode}

abbrev png_mark : Bytes
png_mark = 0x89 ∷ b'P' ∷ b'N' ∷ b'G' ∷ []

encode_run : base64_encode png_mark ≡ codes "iVBORw=="
unfolding base64_encode digit
encode_run = refl
