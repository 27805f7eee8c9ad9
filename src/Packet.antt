-- ===== src/Packet.antt =====
-- The frames of the multiplexed connection (lib/kpacket.cpp, include/kpacket.h): an opcode, a
-- connection id and a length of 8, 16 or 32 bits before the payload. Everything is relative to a
-- buffer library and to the byte order of the host; a result `none` is a failed assertion.
pub mod Frame
pub mod Decode
pub mod RoundTrip
pub mod Shrink
pub mod Loop
pub mod Stream
mod Tests
use hula.Common.{
  ℕ, zero, suc, ◌+◌, ◌-◌, ◌^◌, min, Bool, true, false, ◌&&◌, ◌||◌, not, Option, none, some, List,
  [], ◌∷◌, ◌++◌, length, get_or, take, ltb, leb, ◌==◌, if◌then◌else◌, ◌>>=◌, ◌>>◌, assert,
}
use hula.Buffer.{SharedMem}
use hula.Endian.{load16, load32, store16, store32, k_htons, k_htonl, k_ntohs, k_ntohl}

-- `enum PACKET_OPCODE: uint8_t`; a cast from a byte can give a value that has no name.
pub data PacketOpcode : Type 0 where
  write create_connection accept_connection reject_connection : PacketOpcode
  close_connection end_connection start_read stop_read reserved : PacketOpcode
  unnamed : ℕ → PacketOpcode

unfoldable pub code : PacketOpcode → ℕ
code write = 0
code create_connection = 1
code accept_connection = 2
code reject_connection = 3
code close_connection = 4
code end_connection = 5
code start_read = 6
code stop_read = 7
code reserved = 8
code (unnamed n) = n

-- (PACKET_OPCODE)header.opcode
unfoldable pub opcode_of : ℕ → PacketOpcode
opcode_of zero = write
opcode_of (suc zero) = create_connection
opcode_of (suc (suc zero)) = accept_connection
opcode_of (suc (suc (suc zero))) = reject_connection
opcode_of (suc (suc (suc (suc zero)))) = close_connection
opcode_of (suc (suc (suc (suc (suc zero))))) = end_connection
opcode_of (suc (suc (suc (suc (suc (suc zero)))))) = start_read
opcode_of (suc (suc (suc (suc (suc (suc (suc zero))))))) = stop_read
opcode_of (suc (suc (suc (suc (suc (suc (suc (suc zero)))))))) = reserved
opcode_of n = unnamed n

-- The tuple <noerror, finish, frame, remain, opcode, id>.
pub record Decoded (B : Type 0) : Type 0 where
  pub no_error : Bool
  pub finish : Bool
  pub frame : B
  pub remain : B
  pub opcode : PacketOpcode
  pub id : ℕ

-- The tuple <noerror, packets, remain>; a packet is <frame, opcode, id>.
pub record DecodedAll (B : Type 0) : Type 0 where
  pub ok : Bool
  pub packets : List (B × PacketOpcode × ℕ)
  pub rest : B

-- offsetof(PacketHeader, extend_length) and sizeof(PacketHeader)
abbrev pub base_size : ℕ
base_size = 3

abbrev pub full_size : ℕ
full_size = 7

-- A field of the header: the struct is zeroed before it is filled.
abbrev pub header_byte : List ℕ → ℕ → ℕ
header_byte header i = get_or header i 0

module _ (mem : SharedMem) (little : Bool) where
  open mem use {Buf, bytes, empty, join, slice, copy}

  abbrev pub size : Buf → ℕ
  size b = length (bytes b)

  -- The two copies into `header`: from the front of `remain`, and then of `income`.
  unfoldable pub fill_header : Buf → Buf → List ℕ
  fill_header remain income =
      let i = min full_size (size remain) in
      take i (bytes remain) ++ take (min (full_size - i) (size income)) (bytes income)

  -- header_size and len, from the switch on `header.length`
  unfoldable pub read_length : List ℕ → ℕ × ℕ
  read_length h =
      let l = header_byte h 2 in
      if l == 0xfe
      then (base_size + 2, k_ntohs little (load16 little (header_byte h 3) (header_byte h 4)))
      else if l == 0xff
      then (
        base_size + 4,
        k_ntohl little
            (load32 little (header_byte h 3) (header_byte h 4) (header_byte h 5) (header_byte h 6)),
      )
      else (base_size, l)

  abbrev pub incomplete : Buf → Buf → Decoded Buf
  incomplete remain income = record {
    no_error = true;
    finish = false;
    frame = empty;
    remain = join remain income;
    opcode = reserved;
    id = 0xff;
  }

  abbrev pub frame_error : Decoded Buf
  frame_error = record {
    no_error = false;
    finish = false;
    frame = empty;
    remain = empty;
    opcode = reserved;
    id = 0xff;
  }

  -- The last part of `decode_packet`: the whole frame is there.
  unfoldable pub cut_frame : Buf → List ℕ → ℕ → ℕ → Decoded Buf
  cut_frame merge h header_size len = record {
    no_error = true;
    finish = true;
    frame = slice merge len header_size;
    remain =
        if ltb (len + header_size) (size merge)
        then slice merge (size merge - len - header_size) (len + header_size)
        else empty;
    opcode = opcode_of (header_byte h 0);
    id = header_byte h 1;
  }

  unfoldable pub decode_header : Buf → Buf → List ℕ → ℕ × ℕ → Decoded Buf
  decode_header remain income h (header_size, len) =
      if ltb (size remain + size income) header_size
      then incomplete remain income
      else if (header_byte h 2 == 0xfe && ltb len 0xfe)
          || (header_byte h 2 == 0xff && ltb len 0x10000)
      then frame_error
      else if ltb (size remain + size income) (len + header_size)
      then incomplete remain income
      else cut_frame (join remain income) h header_size len

  unfoldable pub decode_packet : Buf → Buf → Option (Decoded Buf)
  decode_packet remain income = do
    assert (not (size income == 0))
    let h = fill_header remain income
    some (
        if ltb (length h) base_size
        then incomplete remain income
        else decode_header remain income h (read_length h))

  -- The header fields before the extended length, and those with it.
  unfoldable pub encode_packet_header : PacketOpcode → ℕ → ℕ → Option Buf
  encode_packet_header op id len = do
    assert (ltb (code op) 16 && ltb id 64)
    assert (ltb len 0x1_0000_0000)
    some (
        copy (
          if ltb len 0xfe
          then code op ∷ id ∷ len ∷ []
          else if ltb len 0x10000
          then code op ∷ id ∷ 0xfe ∷ store16 little (k_htons little len)
          else code op ∷ id ∷ 0xff ∷ store32 little (k_htonl little len)))

  unfoldable pub encode_packet : PacketOpcode → ℕ → Buf → Option Buf
  encode_packet op id buf = do
    header ← encode_packet_header op id (size buf)
    some (join header buf)

  -- A round of the loop after its `decode_packet`, `next` being the rounds to come.
  unfoldable pub after_packet :
      Buf
      → List (Buf × PacketOpcode × ℕ)
      → Decoded Buf
      → (Buf → Buf → List (Buf × PacketOpcode × ℕ) → Option (DecodedAll Buf))
      → Option (DecodedAll Buf)
  after_packet remain ret d next =
      if not d.no_error
      then some (record { ok = false; packets = ret; rest = remain })
      else let ret' = if d.finish then ret ++ ((d.frame, d.opcode, d.id) ∷ []) else ret in
        if not d.finish || (size d.remain == 0)
        then some (record { ok = true; packets = ret'; rest = d.remain })
        else next empty d.remain ret'

  -- `while(true)`: fuel for the rounds.
  unfoldable pub decode_loop :
      ℕ → Buf → Buf → List (Buf × PacketOpcode × ℕ) → Option (DecodedAll Buf)
  decode_loop zero remain income ret = none
  decode_loop (suc fuel) remain income ret = do
    d ← decode_packet remain income
    after_packet remain ret d (λ remain' income' ret'. decode_loop fuel remain' income' ret')

  -- Each round that goes on has taken a frame, of three bytes at least.
  unfoldable pub decode_all_packet : Buf → Buf → Option (DecodedAll Buf)
  decode_all_packet remain income = do
    assert (not (size income == 0))
    decode_loop (suc (size remain + size income)) (if size remain == 0 then empty else remain)
        income []
