-- ===== src/Base64.antt =====
-- Base64Encode and Base64Decode (lib/base64.cpp). Bytes and characters are numbers below 256, and
-- the accumulator is an unsigned int of 32 bits: `|` on cleared bits is written as `+`. A list
-- under construction stands for the first outpos bytes of dst.
pub mod Size
mod Tests
use hula.Common.{
  ℕ, zero, suc, ◌+◌, ◌-◌, ◌*◌, ◌/◌, ◌%◌, ◌^◌, Bool, true, false, ◌||◌, ◌&&◌, List, [], ◌∷◌, ◌++◌,
  length, get_or, ltb, leb, ◌==◌, if◌then◌else◌,
}

-- The number of bytes written is returned, or -1 is, with the bytes that were written before that,
-- or an assertion fails.
pub data Result {ℓ} (A : Type ℓ) : Type ℓ where
  returned : A → Result A
  failed : List ℕ → Result A
  asserted : Result A

abbrev pub and_then {ℓ κ} : {A : Type ℓ} {C : Type κ} → Result A → (A → Result C) → Result C
and_then (returned a) k = k a
and_then (failed out) k = failed out
and_then asserted k = asserted

abbrev pub b64_table : List ℕ
b64_table =
    65 ∷ 66 ∷ 67 ∷ 68 ∷ 69 ∷ 70 ∷ 71 ∷ 72 ∷ 73 ∷ 74 ∷ 75 ∷ 76 ∷ 77 ∷ 78 ∷ 79 ∷ 80 ∷ 81 ∷ 82 ∷ 83
    ∷ 84 ∷ 85 ∷ 86 ∷ 87 ∷ 88 ∷ 89 ∷ 90 ∷ 97 ∷ 98 ∷ 99 ∷ 100 ∷ 101 ∷ 102 ∷ 103 ∷ 104 ∷ 105 ∷ 106
    ∷ 107 ∷ 108 ∷ 109 ∷ 110 ∷ 111 ∷ 112 ∷ 113 ∷ 114 ∷ 115 ∷ 116 ∷ 117 ∷ 118 ∷ 119 ∷ 120 ∷ 121 ∷ 122
    ∷ 48 ∷ 49 ∷ 50 ∷ 51 ∷ 52 ∷ 53 ∷ 54 ∷ 55 ∷ 56 ∷ 57 ∷ 43 ∷ 47 ∷ []

abbrev pub reverse_table : List ℕ
reverse_table =
    64 ∷ 64 ∷ 64 ∷ 64 ∷ 64 ∷ 64 ∷ 64 ∷ 64 ∷ 64 ∷ 64 ∷ 64 ∷ 64 ∷ 64 ∷ 64 ∷ 64 ∷ 64 ∷ 64 ∷ 64 ∷ 64
    ∷ 64 ∷ 64 ∷ 64 ∷ 64 ∷ 64 ∷ 64 ∷ 64 ∷ 64 ∷ 64 ∷ 64 ∷ 64 ∷ 64 ∷ 64 ∷ 64 ∷ 64 ∷ 64 ∷ 64 ∷ 64 ∷ 64
    ∷ 64 ∷ 64 ∷ 64 ∷ 64 ∷ 64 ∷ 62 ∷ 64 ∷ 64 ∷ 64 ∷ 63 ∷ 52 ∷ 53 ∷ 54 ∷ 55 ∷ 56 ∷ 57 ∷ 58 ∷ 59 ∷ 60
    ∷ 61 ∷ 64 ∷ 64 ∷ 64 ∷ 64 ∷ 64 ∷ 64 ∷ 64 ∷ 0 ∷ 1 ∷ 2 ∷ 3 ∷ 4 ∷ 5 ∷ 6 ∷ 7 ∷ 8 ∷ 9 ∷ 10 ∷ 11 ∷ 12
    ∷ 13 ∷ 14 ∷ 15 ∷ 16 ∷ 17 ∷ 18 ∷ 19 ∷ 20 ∷ 21 ∷ 22 ∷ 23 ∷ 24 ∷ 25 ∷ 64 ∷ 64 ∷ 64 ∷ 64 ∷ 64 ∷ 64
    ∷ 26 ∷ 27 ∷ 28 ∷ 29 ∷ 30 ∷ 31 ∷ 32 ∷ 33 ∷ 34 ∷ 35 ∷ 36 ∷ 37 ∷ 38 ∷ 39 ∷ 40 ∷ 41 ∷ 42 ∷ 43 ∷ 44
    ∷ 45 ∷ 46 ∷ 47 ∷ 48 ∷ 49 ∷ 50 ∷ 51 ∷ 64 ∷ 64 ∷ 64 ∷ 64 ∷ 64 ∷ []

-- A character at the end of dst, if there is room.
unfoldable pub put : ℕ → ℕ → List ℕ → Result (List ℕ)
put dst_len c out = if ltb dst_len (length out + 1) then failed out else returned (out ++ (c ∷ []))

-- The loop over the bits collected; a round takes 6 of them, so as much fuel as bits is enough.
unfoldable pub write_bits : ℕ → ℕ → ℕ → ℕ → List ℕ → Result (ℕ × List ℕ)
write_bits zero dst_len accumulator bits out = returned (bits, out)
write_bits (suc fuel) dst_len accumulator bits out =
    if leb 6 bits
    then and_then (put dst_len (get_or b64_table (accumulator / 2 ^ (bits - 6) % 64) 0) out)
        (write_bits fuel dst_len accumulator (bits - 6))
    else returned (bits, out)

unfoldable pub pad : ℕ → List ℕ → Result (List ℕ)
pad dst_len out =
    let two =
      if ltb dst_len (length out + 2)
      then failed out
      else and_then (put dst_len 61 out) (put dst_len 61) in
    if length out % 4 == 1
    then asserted
    else if length out % 4 == 2
    then two
    else if length out % 4 == 3
    then put dst_len 61 out
    else returned out

-- Any trailing bits that are missing.
unfoldable pub trail : ℕ → ℕ → ℕ → List ℕ → Result (List ℕ)
trail dst_len accumulator bits out =
    let last = accumulator * 2 ^ (6 - bits) % 2 ^ 32 in
    if ltb 0 bits
    then if ltb bits 6 then put dst_len (get_or b64_table (last % 64) 0) out else asserted
    else returned out

-- The loop over src, and what is after it.
unfoldable pub encode_bytes : ℕ → List ℕ → ℕ → ℕ → List ℕ → Result (List ℕ)
encode_bytes dst_len [] accumulator bits out =
    and_then (trail dst_len accumulator bits out) (pad dst_len)
encode_bytes dst_len (byte ∷ src) accumulator bits out =
    let next = (accumulator * 2 ^ 8 + byte % 256) % 2 ^ 32 in
    and_then (write_bits (bits + 8) dst_len next (bits + 8) out)
      (λ r. encode_bytes dst_len src next r.0 r.1)

unfoldable pub base64_encode : List ℕ → ℕ → Result (List ℕ)
base64_encode src dst_len = encode_bytes dst_len src 0 0 []

-- isspace of the C locale
abbrev pub is_space : ℕ → Bool
is_space c = (c == 32) || (leb 9 c && leb c 13)

-- The loop over src; a char is signed, so that those from 128 on are negative.
unfoldable pub decode_chars : ℕ → List ℕ → ℕ → ℕ → List ℕ → Result (List ℕ)
decode_chars dst_len [] accumulator bits out = returned out
decode_chars dst_len (c ∷ src) accumulator bits out =
    let next = (accumulator * 2 ^ 6 + get_or reverse_table c 64) % 2 ^ 32 in
    let skipped = decode_chars dst_len src accumulator bits out in
    let kept = decode_chars dst_len src next (bits + 6) out in
    let written =
      and_then (put dst_len (next / 2 ^ (bits + 6 - 8) % 256) out)
        (decode_chars dst_len src next (bits + 6 - 8)) in
    if is_space c || (c == 61)
    then skipped
    else if ltb 127 c || ltb 63 (get_or reverse_table c 64)
    then failed out
    else if leb 8 (bits + 6)
    then written
    else kept

unfoldable pub base64_decode : List ℕ → ℕ → Result (List ℕ)
base64_decode src dst_len = decode_chars dst_len src 0 0 []
