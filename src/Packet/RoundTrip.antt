-- ===== src/Packet/RoundTrip.antt =====
-- What `encode_packet` writes, and that the decoder reads it back.
use mathlib.Core.Option
use hula.Common.{
  ℕ, ◌+◌, ◌*◌, ◌/◌, ◌%◌, ◌<◌, ◌≤◌, ◌≡◌, refl, ◌∙◌, ap, Bool, true, some, List, [], ◌∷◌, ◌++◌,
  length, ltb, if◌then◌else◌, All, arith, length-append, take-length_append, drop-length_append,
  lt→ltb, le→ltb_false, inl, inr, Bool-cases, some_cancel, All-append, eq_false,
}
use hula.Buffer.{SharedMem}
use hula.Endian.{IsByte, store16-k_htons, store32-k_htonl}
use hula.Packet.{
  Decoded, PacketOpcode, write, unnamed, code, opcode_of, encode_packet, encode_packet_header,
  decode_packet,
}
use hula.Packet.Frame.{whole, take_payload, parse_frame, parse_long, parse_huge}
use hula.Packet.Decode.{view, decode_packet-parse_frame}

abbrev pub header_wire : ℕ → ℕ → ℕ → List ℕ
header_wire op id len =
    if ltb len 0xfe
    then op ∷ id ∷ len ∷ []
    else if ltb len 0x10000
    then op ∷ id ∷ 0xfe ∷ (len / 256) ∷ (len % 256) ∷ []
    else op
      ∷ id
      ∷ 0xff
      ∷ (len / 16777216)
      ∷ (len / 65536 % 256)
      ∷ (len / 256 % 256)
      ∷ (len % 256)
      ∷ []

-- A frame on the wire.
abbrev pub wire : ℕ → ℕ → List ℕ → List ℕ
wire op id payload = header_wire op id (length payload) ++ payload

-- The nine opcodes of the protocol.
abbrev pub IsNamed : PacketOpcode → Type 0
IsNamed (unnamed n) = ⊥
IsNamed _ = Unit {0}

pub opcode_of-code : (op : PacketOpcode) → IsNamed op → opcode_of (code op) ≡ op
unfolding opcode_of code
opcode_of-code write h = refl
opcode_of-code (unnamed n) h = absurd h
opcode_of-code _ h = refl

take_payload-append :
    (bs : List ℕ) (op id : ℕ) (payload rest : List ℕ)
    → take_payload bs op id (length payload) (payload ++ rest) ≡ whole op id payload rest
unfolding take_payload
take_payload-append bs op id payload rest = rw (
  le→ltb_false (length (payload ++ rest)) (length payload)
      (omega (arith, length-append payload rest)),
  take-length_append,
  drop-length_append,
)

-- The three forms of the header, for a length `len` that belongs to the form.
parse_short_form :
    (op id len : ℕ) (body : List ℕ)
    → len < 0xfe
    → parse_frame (op ∷ id ∷ len ∷ body) ≡ take_payload (op ∷ id ∷ len ∷ body) op id len body
unfolding parse_frame
parse_short_form op id len body h =
    rw (eq_false len 0xfe (λ e. omega arith), eq_false len 0xff (λ e. omega arith))

parse_long_form :
    (op id len : ℕ) (body : List ℕ)
    → 0xfe ≤ len
    → let bs = op ∷ id ∷ 0xfe ∷ (len / 256) ∷ (len % 256) ∷ body in
      parse_frame bs ≡ take_payload bs op id len body
unfolding parse_frame parse_long
parse_long_form op id len body h =
    let e : 256 * (len / 256) + len % 256 ≡ len = omega arith in rw (e, le→ltb_false len 0xfe h)

parse_huge_form :
    (op id len : ℕ) (body : List ℕ)
    → 0x10000 ≤ len
    → len < 0x1_0000_0000
    → let bs =
        op
        ∷ id
        ∷ 0xff
        ∷ (len / 16777216)
        ∷ (len / 65536 % 256)
        ∷ (len / 256 % 256)
        ∷ (len % 256)
        ∷ body in
      parse_frame bs ≡ take_payload bs op id len body
unfolding parse_frame parse_huge
parse_huge_form op id len body h k =
    let e : 16777216 * (len / 16777216)
          + 65536 * (len / 65536 % 256)
          + 256 * (len / 256 % 256)
          + len % 256
        ≡ len =
      omega arith in
    rw (e, le→ltb_false len 0x10000 h)

pub parse_frame-wire :
    (op id : ℕ) (payload rest : List ℕ)
    → length payload < 0x1_0000_0000
    → parse_frame (wire op id payload ++ rest) ≡ whole op id payload rest
parse_frame-wire op id payload rest h = elim (Bool-cases (ltb (length payload) 0xfe)) [
  | inl short ↦ rw short (
      parse_short_form op id _ (payload ++ rest) (ground arith)
      ∙ take_payload-append _ op id payload rest)
  | inr long ↦ elim (Bool-cases (ltb (length payload) 0x10000)) [
    | inl medium ↦
        rw (long, medium)
          (parse_long_form op id _ (payload ++ rest) (ground arith)
            ∙ take_payload-append _ op id payload rest)
    | inr huge ↦
        rw (long, huge)
          (parse_huge_form op id _ (payload ++ rest) (ground arith) h
            ∙ take_payload-append _ op id payload rest)
  ]
]

pub named_code : (op : PacketOpcode) → IsNamed op → code op < 16
unfolding code
named_code write h = omega arith
named_code (unnamed n) h = absurd h
named_code _ h = omega arith

header_wire-IsByte :
    (op id len : ℕ) → op < 16 → id < 64 → len < 0x1_0000_0000 → All IsByte (header_wire op id len)
header_wire-IsByte op id len ho hi hl = ground arith

pub wire-IsByte :
    (op id : ℕ) (payload : List ℕ)
    → op < 16
    → id < 64
    → length payload < 0x1_0000_0000
    → All IsByte payload
    → All IsByte (wire op id payload)
wire-IsByte op id payload ho hi hl hp =
    All-append IsByte (header_wire op id (length payload)) payload
      (header_wire-IsByte op id (length payload) ho hi hl) hp

module _ (mem : SharedMem) (little : Bool) where
  open mem use {Buf, bytes, bytes-join, bytes-copy}

  pub encode_packet_header-wire :
      (op : PacketOpcode) (id len : ℕ)
      → code op < 16
      → id < 64
      → len < 0x1_0000_0000
      → Option.map bytes (encode_packet_header mem little op id len)
        ≡ some (header_wire (code op) id len)
  unfolding encode_packet_header
  encode_packet_header-wire op id len ho hi hl =
      rw (lt→ltb (code op) 16 ho, lt→ltb id 64 hi, lt→ltb len 0x1_0000_0000 hl, bytes-copy)
        (ground (arith, store16-k_htons little len, store32-k_htonl little len))

  -- What `encode_packet` writes on any host.
  pub encode_packet-wire :
      (op : PacketOpcode) (id : ℕ) (payload : Buf)
      → code op < 16
      → id < 64
      → length (bytes payload) < 0x1_0000_0000
      → Option.map bytes (encode_packet mem little op id payload)
        ≡ some (wire (code op) id (bytes payload))
  unfolding encode_packet
  encode_packet-wire op id payload ho hi hl =
      let (header, e, v) =
        (Option.map-eq-some_iff bytes
            (encode_packet_header mem little op id (length (bytes payload)))).0
          (encode_packet_header-wire op id (length (bytes payload)) ho hi hl) in
      rw e (ap some (bytes-join header payload ∙ ap (λ (h : List ℕ). h ++ bytes payload) v))

  -- What the decoder is to return for a whole frame.
  abbrev pub received : PacketOpcode → ℕ → List ℕ → List ℕ → Decoded (List ℕ)
  received op id payload rest = record {
    no_error = true;
    finish = true;
    frame = payload;
    remain = rest;
    opcode = op;
    id = id;
  }

  -- An encoded packet, with a named opcode, an id below 64 and a payload of bytes shorter than 2^32,
  -- followed by any bytes, and all of it cut into `remain` and an `income` that is not empty, decodes
  -- to its opcode, id and payload, and leaves the bytes that follow it.
  pub decode_packet-encode_packet :
      (op : PacketOpcode) (id : ℕ) (payload packet remain income : Buf) (rest : List ℕ)
      → IsNamed op
      → id < 64
      → length (bytes payload) < 0x1_0000_0000
      → All IsByte (bytes payload)
      → All IsByte rest
      → encode_packet mem little op id payload ≡ some packet
      → bytes remain ++ bytes income ≡ bytes packet ++ rest
      → 0 < length (bytes income)
      → Option.map (view mem little) (decode_packet mem little remain income)
        ≡ some (received op id (bytes payload) rest)
  decode_packet-encode_packet op id payload packet remain income rest ho hi hl hp hr e cut ne =
      let on_wire : bytes packet ≡ wire (code op) id (bytes payload) =
        some_cancel (rw e at (encode_packet-wire op id payload (named_code op ho) hi hl)) in
      let input : bytes remain ++ bytes income ≡ wire (code op) id (bytes payload) ++ rest =
        cut ∙ ap (λ (w : List ℕ). w ++ rest) on_wire in
      let all_bytes : All IsByte (bytes remain ++ bytes income) = rw input (
        All-append IsByte (wire (code op) id (bytes payload)) rest
          (wire-IsByte (code op) id (bytes payload) (named_code op ho) hi hl hp) hr) in
      decode_packet-parse_frame mem little remain income all_bytes ne
      ∙ ap some (
          ap parse_frame input
          ∙ parse_frame-wire (code op) id (bytes payload) rest hl
          ∙ rw (opcode_of-code op ho))
