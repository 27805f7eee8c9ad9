-- ===== src/Packet/Frame.antt =====
-- What a frame is, read from one contiguous run of bytes: the reference for `decode_packet`.
use hula.Common.{
  ℕ, ◌+◌, ◌*◌, true, false, List, [], ◌∷◌, length, take, drop, ltb, ◌==◌, if◌then◌else◌,
}
use hula.Packet.{reserved, opcode_of, Decoded}

-- More bytes are needed: all are kept.
abbrev pub unfinished : List ℕ → Decoded (List ℕ)
unfinished bs = record {
  no_error = true;
  finish = false;
  frame = [];
  remain = bs;
  opcode = reserved;
  id = 0xff;
}

-- A length that would have had a shorter form.
abbrev pub malformed : Decoded (List ℕ)
malformed = record {
  no_error = false;
  finish = false;
  frame = [];
  remain = [];
  opcode = reserved;
  id = 0xff;
}

abbrev pub whole : ℕ → ℕ → List ℕ → List ℕ → Decoded (List ℕ)
whole op id payload rest = record {
  no_error = true;
  finish = true;
  frame = payload;
  remain = rest;
  opcode = opcode_of op;
  id = id;
}

-- The payload of `len` bytes at the front of `body`, in the input `bs`.
unfoldable pub take_payload : List ℕ → ℕ → ℕ → ℕ → List ℕ → Decoded (List ℕ)
take_payload bs op id len body =
    if ltb (length body) len then unfinished bs else whole op id (take len body) (drop len body)

-- A 16-bit and a 32-bit length, big-endian.
unfoldable pub parse_long : List ℕ → ℕ → ℕ → List ℕ → Decoded (List ℕ)
unfolding take_payload
parse_long bs op id (x ∷ y ∷ body) =
    if ltb (256 * x + y) 0xfe then malformed else take_payload bs op id (256 * x + y) body
parse_long bs op id _ = unfinished bs

unfoldable pub parse_huge : List ℕ → ℕ → ℕ → List ℕ → Decoded (List ℕ)
unfolding take_payload
parse_huge bs op id (x ∷ y ∷ z ∷ w ∷ body) =
    let len = 16777216 * x + 65536 * y + 256 * z + w in
    if ltb len 0x10000 then malformed else take_payload bs op id len body
parse_huge bs op id _ = unfinished bs

unfoldable pub parse_frame : List ℕ → Decoded (List ℕ)
unfolding take_payload parse_long parse_huge
parse_frame (op ∷ id ∷ l ∷ body) =
    let bs = op ∷ id ∷ l ∷ body in
    if l == 0xfe
    then parse_long bs op id body
    else if l == 0xff
    then parse_huge bs op id body
    else take_payload bs op id l body
parse_frame bs = unfinished bs
