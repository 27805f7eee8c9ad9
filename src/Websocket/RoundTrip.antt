-- ===== src/Websocket/RoundTrip.antt =====
-- A frame that is written is read back.
use mathlib.Core.Option
use hula.Common.{
  ℕ, ◌+◌, ◌%◌, ◌<◌, ◌≡◌, refl, ap, ◌∙◌, Bool, false, Option, none, some, List, ◌∷◌, ◌++◌, length,
  if◌then◌else◌, All, arith, append_assoc,
}
use hula.Common.Maps.{is_some}
use hula.Endian.{IsByte}
use hula.Websocket.{
  WebsocketOpcode, opcode_number, opcode_cast, whole, Frame, bit, frame_of, first_byte,
  length_bytes, mask_bytes,
}
use hula.Websocket.Xor.{apply_mask-apply_mask}
use hula.Websocket.Mask.{length-apply_mask}
use hula.Websocket.Parse.{parse_frame}
use hula.Buffer.{SharedMem}
use hula.Websocket.{extract_frame_from_data}
use hula.Websocket.Decode.{view, extract_frame_from_data-parse_frame}
use hula.Websocket.Written.{
  unmasked, written, announced-written, written_header, splits, parse_frame-written,
}

-- The opcodes that a frame can hold.
abbrev pub IsNamed : WebsocketOpcode → Type 0
IsNamed op = (opcode_cast (opcode_number op) ≡ op) × (opcode_number op < 16)

first_bits :
    (fin r1 r2 r3 : Bool) (n : ℕ) (body : List ℕ)
    → n < 16
    → (let b =
          (if fin then 128 else 0)
          + (if r1 then 64 else 0)
          + (if r2 then 32 else 0)
          + (if r3 then 16 else 0)
          + n in
        (bit 128 b ≡ fin) × (bit 64 b ≡ r1) × (bit 32 b ≡ r2) × (bit 16 b ≡ r3) × (b % 16 ≡ n))
first_bits fin r1 r2 r3 n body h = ground arith

frame_of-first_byte :
    (fin : Bool) (op : WebsocketOpcode) (r1 r2 r3 : Bool) (body : List ℕ)
    → IsNamed op
    → frame_of (first_byte fin op r1 r2 r3) body
      ≡ record { fin = fin; opcode = op; message = body; rsv1 = r1; rsv2 = r2; rsv3 = r3 }
unfolding frame_of
frame_of-first_byte fin op r1 r2 r3 body named =
    let (a, b, c, d, e) = first_bits fin r1 r2 r3 (opcode_number op) body named.1 in
    rw (a, b, c, d, e, named.0) refl

-- The bytes of a frame on the wire: the header, and the payload under its mask.
abbrev pub wire :
    Bool → WebsocketOpcode → Option (ℕ × ℕ × ℕ × ℕ) → List ℕ → Bool → Bool → Bool → List ℕ
wire fin op mask message r1 r2 r3 =
    first_byte fin op r1 r2 r3
    ∷ (length_bytes (is_some mask) (length message) ++ (mask_bytes mask ++ unmasked mask message))

pub length-unmasked :
    (mask : Option (ℕ × ℕ × ℕ × ℕ)) (body : List ℕ) → length (unmasked mask body) ≡ length body
length-unmasked none body = refl
length-unmasked (some q) body = length-apply_mask (mask_bytes (some q)) 0 body

unmasked-unmasked :
    (mask : Option (ℕ × ℕ × ℕ × ℕ)) (body : List ℕ)
    → All IsByte (mask_bytes mask)
    → All IsByte body
    → unmasked mask (unmasked mask body) ≡ body
unmasked-unmasked none body m b = refl
unmasked-unmasked (some q) body m b = apply_mask-apply_mask (mask_bytes (some q)) 0 body m b

wire-written :
    (fin : Bool) (op : WebsocketOpcode) (mask : Option (ℕ × ℕ × ℕ × ℕ)) (message more : List ℕ)
    → (r1 r2 r3 : Bool)
    → (let u = unmasked mask message in
        wire fin op mask message r1 r2 r3 ++ more
        ≡ written mask (first_byte fin op r1 r2 r3) (length u) (u ++ more))
wire-written fin op mask message more r1 r2 r3 =
    rw (length-unmasked mask message) (simp append_assoc)

module _ (mem : SharedMem) where
  open mem use {Buf, bytes, bytes-copy}

  abbrev pub sent_bytes : Buf × Buf → List ℕ
  sent_bytes (header, message) = bytes header ++ bytes message

  -- The bytes of a frame, and any after them.
  pub extract_frame_from_data-wire :
      (fin : Bool) (op : WebsocketOpcode) (mask : Option (ℕ × ℕ × ℕ × ℕ)) (message : List ℕ)
      → (r1 r2 r3 : Bool) (more : List ℕ) (remain income : Buf) → IsNamed op
      → All IsByte (mask_bytes mask)
      → All IsByte message
      → All IsByte (bytes remain ++ bytes income)
      → length message + 14 < 0x1_0000_0000_0000_0000
      → bytes remain ++ bytes income ≡ wire fin op mask message r1 r2 r3 ++ more
      → splits (length (bytes remain)) (written_header mask (length message)) (length message)
        ≡ false
      → view mem (extract_frame_from_data mem remain income)
        ≡ whole
            (record { fin = fin; opcode = op; message = message; rsv1 = r1; rsv2 = r2; rsv3 = r3 })
            more
  extract_frame_from_data-wire fin op mask message r1 r2 r3 more remain income named mb b all short
        cut s =
      let u = unmasked mask message in
      let first = first_byte fin op r1 r2 r3 in
      let n : length u ≡ length message = length-unmasked mask message in
      let e = wire-written fin op mask message more r1 r2 r3 in
      extract_frame_from_data-parse_frame mem remain income all (
        rw (cut ∙ e) (
          rw (announced-written mask first (length u) (u ++ more) (omega (arith, n))) (rw n short)))
      ∙ ap (parse_frame (length (bytes remain))) (cut ∙ e)
      ∙ parse_frame-written mask first (length (bytes remain)) u more (omega (arith, n)) (rw n s)
      ∙ ap (λ (f : Frame (List ℕ)). whole f more)
          (ap (frame_of first) (unmasked-unmasked mask message mb b)
            ∙ frame_of-first_byte fin op r1 r2 r3 message named)
