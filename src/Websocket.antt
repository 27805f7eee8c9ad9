-- ===== src/Websocket.antt =====
-- The frames of the WebSocket protocol (lib/websocket.cpp, include/websocket.h): the members of
-- WebSocketCommon that need no object. The bit-fields of WSHeaderPartial are laid out from the low bit
-- up, as on a little-endian host; the host is taken to be one throughout. A buffer that is written in
-- place is a new value.
pub mod Xor
pub mod Mask
pub mod Cut
pub mod Parse
pub mod Decode
pub mod Payload
pub mod Written
pub mod RoundTrip
pub mod Loop
pub mod Session
pub mod Messages
pub mod Closing
pub mod Progress
pub mod Allowed
mod Tests
use Prim.Native.Nat.{bit_xor}
use hula.Common.{
  ℕ, zero, suc, ◌+◌, ◌-◌, ◌*◌, ◌/◌, ◌%◌, min, Bool, true, false, not, Option, none, some, List, [],
  ◌∷◌, ◌++◌, length, get_or, take, drop, reverse, ltb, leb, ◌==◌, if◌then◌else◌, ◌>>=◌,
}
use hula.Common.Maps.{is_some}
use hula.Buffer.{SharedMem}
use hula.Endian.{k_htons, k_ntohs, load16, store16}

-- `enum WebsocketOPCode`; a frame can hold a value of four bits that has no name.
pub data WebsocketOpcode : Type 0 where
  continue text binary close ping pong : WebsocketOpcode
  unnamed : ℕ → WebsocketOpcode

unfoldable pub opcode_number : WebsocketOpcode → ℕ
opcode_number continue = 0
opcode_number text = 1
opcode_number binary = 2
opcode_number close = 8
opcode_number ping = 9
opcode_number pong = 10
opcode_number (unnamed n) = n

-- static_cast<WebsocketOPCode>(header.OPCODE)
unfoldable pub opcode_cast : ℕ → WebsocketOpcode
opcode_cast n =
    if n == 0
    then continue
    else if n == 1
    then text
    else if n == 2
    then binary
    else if n == 8
    then close
    else if n == 9
    then ping
    else if n == 10
    then pong
    else unnamed n

-- ExtractReturn
pub record Frame (B : Type 0) : Type 0 where
  pub fin : Bool
  pub opcode : WebsocketOpcode
  pub message : B
  pub rsv1 : Bool
  pub rsv2 : Bool
  pub rsv3 : Bool

-- ExtractReturnSingle: without `m_has` only `m_remain` is read.
pub data Extracted (B : Type 0) : Type 0 where
  part : B → Extracted B
  whole : Frame B → B → Extracted B

-- sizeof(WSHeaderPartial)
abbrev pub base_size : ℕ
base_size = 2

-- The fields of WSHeaderPartial in its two bytes.
abbrev pub bit : ℕ → ℕ → Bool
bit unit byte = byte / unit % 2 == 1

-- The members that the header gives.
unfoldable pub frame_of : {B : Type 0} → ℕ → B → Frame B
frame_of first message = record {
  fin = bit 128 first;
  opcode = opcode_cast (first % 16);
  message = message;
  rsv1 = bit 64 first;
  rsv2 = bit 32 first;
  rsv3 = bit 16 first;
}

-- changeByteOrder<uint64_t> of the eight bytes in memory, as the value of a little-endian host
unfoldable pub load64 : ℕ → List ℕ → ℕ
load64 acc [] = acc
load64 acc (b ∷ bs) = load64 (256 * acc + b) bs

-- Its inverse: the bytes in memory of k_htonll(v), `n` of them.
unfoldable pub store64 : ℕ → ℕ → List ℕ
store64 zero v = []
store64 (suc n) v = store64 n (v / 256) ++ ((v % 256) ∷ [])

unfoldable pub k_ntohll : List ℕ → ℕ
k_ntohll bs = load64 0 bs

unfoldable pub k_htonll : ℕ → List ℕ
k_htonll v = store64 8 v

-- `payload[i] ^= mask_array[i % 4]` on the bytes from the i-th on.
unfoldable pub apply_mask : List ℕ → ℕ → List ℕ → List ℕ
apply_mask mask i [] = []
apply_mask mask i (b ∷ bs) = bit_xor b (get_or mask (i % 4) 0) ∷ apply_mask mask (suc i) bs

-- The same on `n` bytes of a buffer from `pos` on, the first of them being the i-th of the payload.
unfoldable pub unmask_at : List ℕ → ℕ → ℕ → ℕ → List ℕ → List ℕ
unmask_at mask i pos n bs =
    take pos bs ++ (apply_mask mask i (take n (drop pos bs)) ++ drop n (drop pos bs))

-- What `formFrameHeader` writes: the first byte, the length, and the mask.
abbrev pub first_byte : Bool → WebsocketOpcode → Bool → Bool → Bool → ℕ
first_byte fin opcode rsv1 rsv2 rsv3 =
    (if fin then 128 else 0)
    + (if rsv1 then 64 else 0)
    + (if rsv2 then 32 else 0)
    + (if rsv3 then 16 else 0)
    + opcode_number opcode

abbrev pub length_bytes : Bool → ℕ → List ℕ
length_bytes mask len =
    let m : ℕ = if mask then 128 else 0 in
    if ltb len 126
    then (m + len) ∷ []
    else if ltb len 65536
    then (m + 126) ∷ store16 true (k_htons true len)
    else (m + 127) ∷ k_htonll len

abbrev pub mask_bytes : Option (ℕ × ℕ × ℕ × ℕ) → List ℕ
mask_bytes none = []
mask_bytes (some (a, b, c, d)) = a ∷ b ∷ c ∷ d ∷ []

module _ (mem : SharedMem) where
  open mem use {Buf, bytes, empty, join, slice, copy}

  abbrev pub size : Buf → ℕ
  size b = length (bytes b)

  -- The two copies into `header`.
  unfoldable pub fill_header : Buf → Buf → List ℕ
  fill_header remain income =
      let i = min (size remain) base_size in
      (if ltb 0 (size remain) then take i (bytes remain) else [])
      ++ (if ltb (size remain) base_size then take (base_size - size remain) (bytes income) else [])

  -- The copies into `uu`, of `n` bytes.
  unfoldable pub fill_field : ℕ → Buf → Buf → List ℕ
  fill_field n remain income =
      let f = if ltb base_size (size remain) then min n (size remain - base_size) else 0 in
      take f (drop base_size (bytes remain))
      ++ (if ltb (size remain) (base_size + n)
          then take (n - f)
              (if ltb 0 f then bytes income else drop (base_size - size remain) (bytes income))
          else [])

  -- mask_array[k], `offset` being data_offset - 4 + k
  unfoldable pub mask_byte : Buf → Buf → ℕ → ℕ
  mask_byte remain income offset =
      if leb (offset + 1) (size remain)
      then get_or (bytes remain) offset 0
      else get_or (bytes income) (offset - size remain) 0

  unfoldable pub mask_array : Buf → Buf → ℕ → List ℕ
  mask_array remain income data_offset =
      mask_byte remain income (data_offset - 4)
      ∷ mask_byte remain income (data_offset - 3)
      ∷ mask_byte remain income (data_offset - 2)
      ∷ mask_byte remain income (data_offset - 1)
      ∷ []

  -- The two loops, as the buffers that they leave; `done` is `i` after the first of them.
  unfoldable pub unmask : Buf → Buf → ℕ → ℕ → Buf × Buf
  unmask remain income data_offset len =
      let mask = mask_array remain income data_offset in
      let done = min len (size remain - data_offset) in
      (
        copy (unmask_at mask 0 data_offset done (bytes remain)),
        copy (unmask_at mask done (data_offset + done - size remain) (len - done) (bytes income)),
      )

  -- The message and what remains. The members are written one after the other, so the second use of
  -- `m_message.size()` has the size of the message that was completed.
  unfoldable pub cut_frame : Buf → Buf → ℕ → ℕ → Buf × Buf
  cut_frame remain income data_offset len =
      let ff = min len (size remain - data_offset) in
      let first = slice remain ff data_offset in
      let rest =
        if size first == len
        then slice remain (size remain - ff - data_offset) (data_offset + ff)
        else empty in
      let message =
        if ltb (size first) len then join first (slice income (len - size first) 0) else first in
      if ltb data_offset (size remain)
      then (
        message,
        join rest (slice income (size income + size message - len) (len - size message)),
      )
      else (
        slice income len (data_offset - size remain),
        slice income (size income + size remain - (len + data_offset))
            (data_offset - size remain + len),
      )

  -- The checks on the length: of uint64_t, so that the sum can wrap around.
  unfoldable pub extract_payload : Buf → Buf → List ℕ → ℕ → ℕ → Extracted Buf
  extract_payload remain income header data_offset len =
      let buffers =
        if bit 128 (get_or header 1 0)
        then unmask remain income data_offset len
        else (remain, income) in
      let cut = cut_frame buffers.0 buffers.1 data_offset len in
      if ltb (size remain + size income) ((len + data_offset) % 0x1_0000_0000_0000_0000)
      then part (join remain income)
      else whole (frame_of (get_or header 0 0) cut.0) cut.1

  unfoldable pub extract_frame_from_data : Buf → Buf → Extracted Buf
  extract_frame_from_data remain income =
      let total = size remain + size income in
      let header = fill_header remain income in
      let base = if bit 128 (get_or header 1 0) then base_size + 4 else base_size in
      let len1 = get_or header 1 0 % 128 in
      let short = extract_payload remain income header base len1 in
      let uu = fill_field 2 remain income in
      let medium =
        if ltb total (base + 2 + 126)
        then part (join remain income)
        else extract_payload remain income header (base + 2)
            (k_ntohs true (load16 true (get_or uu 0 0) (get_or uu 1 0))) in
      let long =
        if ltb total (base + 8 + 65536)
        then part (join remain income)
        else extract_payload remain income header (base + 8)
            (k_ntohll (fill_field 8 remain income)) in
      if ltb total base_size
      then part (join remain income)
      else if ltb len1 126
      then short
      else if len1 == 126
      then medium
      else long

  -- A round after its `extractFrameFromData`, `next` being the rounds to come.
  unfoldable pub after_frame :
      List (Frame Buf)
      → Extracted Buf
      → (Buf → Buf → List (Frame Buf) → Option (List (Frame Buf) × Buf))
      → Option (List (Frame Buf) × Buf)
  after_frame first (part remain) next = some (first, remain)
  after_frame first (whole frame remain) next = next remain empty (first ++ (frame ∷ []))

  -- `while(true)`: fuel for the rounds.
  unfoldable pub extract_loop : ℕ → Buf → Buf → List (Frame Buf) → Option (List (Frame Buf) × Buf)
  extract_loop zero remain income first = none
  extract_loop (suc fuel) remain income first =
      after_frame first (extract_frame_from_data remain income)
        (λ remain' income' first'. extract_loop fuel remain' income' first')

  -- Each round that goes on has taken a frame, of two bytes at least.
  unfoldable pub extract_multi_frame_from_data : Buf → Buf → Option (List (Frame Buf) × Buf)
  extract_multi_frame_from_data remain income =
      extract_loop (suc (size remain + size income)) remain income []

  -- The loop on the message, which is written in place.
  abbrev pub masked : Option (ℕ × ℕ × ℕ × ℕ) → Buf → Buf
  masked none message = message
  masked (some mask) message = copy (apply_mask (mask_bytes (some mask)) 0 (bytes message))

  -- The header of a frame, and the message as it is left: `mask` holds the four draws, if there is a
  -- mask. `none` is the failed assertion on the opcode.
  unfoldable pub form_frame_header :
      Bool
      → WebsocketOpcode
      → Option (ℕ × ℕ × ℕ × ℕ)
      → Buf
      → Bool
      → Bool
      → Bool
      → Option (Buf × Buf)
  form_frame_header fin opcode mask message rsv1 rsv2 rsv3 =
      if ltb (opcode_number opcode) 16
      then some (
        copy (
            first_byte fin opcode rsv1 rsv2 rsv3
            ∷ (length_bytes (is_some mask) (size message) ++ mask_bytes mask)),
        masked mask message,
      )
      else none
