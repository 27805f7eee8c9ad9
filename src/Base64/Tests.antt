-- ===== src/Base64/Tests.antt =====
-- Base64 of "Ma" is "TWE=".
use hula.Common.{◌≡◌, refl, [], ◌∷◌}
use hula.Base64.{
  returned, failed, put, write_bits, pad, trail, encode_bytes, base64_encode, decode_chars,
  base64_decode,
}
use hula.Base64.Size.{Fits, base64_encode-Fits}

base64_encode-Ma : base64_encode (77 ∷ 97 ∷ []) 4 ≡ returned (84 ∷ 87 ∷ 69 ∷ 61 ∷ [])
unfolding base64_encode encode_bytes write_bits put pad trail
base64_encode-Ma = refl

base64_encode-Ma_full : base64_encode (77 ∷ 97 ∷ []) 3 ≡ failed (84 ∷ 87 ∷ 69 ∷ [])
unfolding base64_encode encode_bytes write_bits put pad trail
base64_encode-Ma_full = refl

base64_decode-Ma : base64_decode (84 ∷ 10 ∷ 87 ∷ 69 ∷ 61 ∷ []) 2 ≡ returned (77 ∷ 97 ∷ [])
unfolding base64_decode decode_chars put
base64_decode-Ma = refl

base64_encode-Fits_example : Fits 4 4 (base64_encode (77 ∷ 97 ∷ []) 4)
base64_encode-Fits_example = base64_encode-Fits (77 ∷ 97 ∷ []) 4
