-- ===== src/Packet/Stream.antt =====
-- `decode_all_packet` on a stream: it gives back the frames that were sent.
use mathlib.Core.Option
use hula.Common.{
  ℕ, zero, suc, ◌<◌, ◌≤◌, ◌≡◌, refl, ◌∙◌, sym, ap, Bool, true, some, List, [], ◌∷◌, ◌++◌, length,
  ◌==◌, All, arith, length-append, inl, inr, Bool-cases, nil_of_length, append-nil, append_assoc,
}
use hula.Buffer.{SharedMem}
use hula.Endian.{IsByte}
use hula.Packet.{Decoded, PacketOpcode, code, decode_loop, decode_all_packet}
use hula.Packet.Frame.{whole, unfinished, parse_frame}
use hula.Packet.Decode.{view}
use hula.Packet.RoundTrip.{wire, IsNamed, header_wire, parse_frame-wire, opcode_of-code}
use hula.Packet.Loop.{
  decode_packet_result, view_packets, view_all, next_round, after_packet-part, after_packet-whole,
  first_remain, bytes-first_remain, decode_all_packet-loop,
}

-- What a peer sends, and what is to be delivered for it.
pub record Sent : Type 0 where
  pub opcode : PacketOpcode
  pub id : ℕ
  pub payload : List ℕ

pub record IsSent (s : Sent) : Type 0 where
  pub named : IsNamed s.opcode
  pub short : length s.payload < 0x1_0000_0000

abbrev pub frames : List Sent → List ℕ
frames [] = []
frames (s ∷ fs) = wire (code s.opcode) s.id s.payload ++ frames fs

abbrev pub delivered : List Sent → List (List ℕ × PacketOpcode × ℕ)
delivered [] = []
delivered (s ∷ fs) = (s.payload, s.opcode, s.id) ∷ delivered fs

length-header_wire : (op id len : ℕ) → 3 ≤ length (header_wire op id len)
length-header_wire op id len = ground arith

pub length-wire : (op id : ℕ) (payload : List ℕ) → 3 ≤ length (wire op id payload)
length-wire op id payload = omega (
  arith,
  length-append (header_wire op id (length payload)) payload,
  length-header_wire op id (length payload),
)

-- Nothing is left of a list of frames only if there is none.
frames_nil : (fs : List Sent) (tail : List ℕ) → frames fs ++ tail ≡ [] → (fs ≡ []) × (tail ≡ [])
frames_nil [] tail e = (refl, e)
frames_nil (s ∷ fs) tail e =
    let w = wire (code s.opcode) s.id s.payload in
    absurd (
      omega (
        arith,
        ap length e,
        length-append (w ++ frames fs) tail,
        length-append w (frames fs),
        length-wire (code s.opcode) s.id s.payload,
      ))

module _ (mem : SharedMem) (little : Bool) where
  open mem use {Buf, bytes, empty, bytes-empty}

  view_packets-append :
      (ps qs : List (Buf × PacketOpcode × ℕ))
      → view_packets mem little (ps ++ qs)
        ≡ view_packets mem little ps ++ view_packets mem little qs
  view_packets-append [] qs = refl
  view_packets-append ((f, op, id) ∷ ps) qs = ap (◌∷◌ (bytes f, op, id)) (view_packets-append ps qs)

  -- The first frame of a stream, as a round of the loop finds it.
  first_frame :
      (x : Sent) (fs : List Sent) (tail bs : List ℕ) (d : Decoded Buf)
      → IsSent x
      → bs ≡ frames (x ∷ fs) ++ tail
      → view mem little d ≡ parse_frame bs
      → (d.no_error ≡ true)
        × (d.finish ≡ true)
        × (bytes d.remain ≡ frames fs ++ tail)
        × (◌≡◌ {A = List ℕ × PacketOpcode × ℕ}
            (bytes d.frame, d.opcode, d.id)
            (x.payload, x.opcode, x.id))
  first_frame x fs tail bs d sent cut v =
      let seen : view mem little d ≡ whole (code x.opcode) x.id x.payload (frames fs ++ tail) =
        v
        ∙ ap parse_frame (cut ∙ append_assoc (wire (code x.opcode) x.id x.payload) (frames fs) tail)
        ∙ parse_frame-wire (code x.opcode) x.id x.payload (frames fs ++ tail) sent.short in
      (
        ap (λ (r : Decoded (List ℕ)). r.no_error) seen,
        ap (λ (r : Decoded (List ℕ)). r.finish) seen,
        ap (λ (r : Decoded (List ℕ)). r.remain) seen,
        rw (← opcode_of-code x.opcode sent.named)
            (ap (λ (r : Decoded (List ℕ)). (r.frame, r.opcode, r.id)) seen),
      )

  loop-frames :
      (fs : List Sent) (tail : List ℕ) (fuel : ℕ) (remain income : Buf)
      → (ret : List (Buf × PacketOpcode × ℕ)) → All IsSent fs
      → parse_frame tail ≡ unfinished tail
      → bytes remain ++ bytes income ≡ frames fs ++ tail
      → All IsByte (bytes remain ++ bytes income)
      → 0 < length (bytes income)
      → length (bytes remain ++ bytes income) < fuel
      → Option.map (view_all mem little) (decode_loop mem little fuel remain income ret)
        ≡ some (record {
          ok = true;
          packets = view_packets mem little ret ++ delivered fs;
          rest = tail;
        })
  unfolding decode_loop
  loop-frames [] tail zero remain income ret g t cut b h f = absurd (omega arith)
  loop-frames (x ∷ fs) tail zero remain income ret g t cut b h f = absurd (omega arith)
  loop-frames [] tail (suc fuel) remain income ret g t cut b h f =
      let (d, e, v) = decode_packet_result mem little remain income b h in
      let seen : view mem little d ≡ unfinished tail = v ∙ ap parse_frame cut ∙ t in
      rw e (
        rw
          (
            after_packet-part mem little remain ret d _
                (ap (λ (x : Decoded (List ℕ)). x.no_error) seen)
                (ap (λ (x : Decoded (List ℕ)). x.finish) seen),
            append-nil,
          )
          (ap
            (λ (r : List ℕ).
              some (record { ok = true; packets = view_packets mem little ret; rest = r }))
            (ap (λ (x : Decoded (List ℕ)). x.remain) seen)))
  loop-frames (x ∷ fs) tail (suc fuel) remain income ret g t cut b h f =
      let (d, e, v) = decode_packet_result mem little remain income b h in
      let (fine, done, left, packet) =
        first_frame x fs tail (bytes remain ++ bytes income) d g.0 cut v in
      let ret' = ret ++ ((d.frame, d.opcode, d.id) ∷ []) in
      let seen : view_packets mem little ret'
          ≡ view_packets mem little ret ++ ((x.payload, x.opcode, x.id) ∷ []) =
        view_packets-append ret ((d.frame, d.opcode, d.id) ∷ [])
        ∙ ap (λ (p : List ℕ × PacketOpcode × ℕ). view_packets mem little ret ++ (p ∷ [])) packet in
      rw e (
        rw (after_packet-whole mem little remain ret d _ fine done)
          (elim (Bool-cases (length (bytes d.remain) == 0)) [
            | inl stop ↦
                let (no_more, no_tail) =
                  frames_nil fs tail (sym left ∙ nil_of_length (bytes d.remain) (ground arith)) in
                rw (stop, seen, left, no_more, no_tail)
            | inr more ↦
                let (b', short) = next_round mem little (bytes remain ++ bytes income) d b v done in
                rw more (
                  loop-frames fs tail fuel empty d.remain ret' g.1 t (rw bytes-empty left) b'
                    (ground arith) (omega arith)
                  ∙ rw (seen, append_assoc))
          ]))

  -- Frames sent one behind the other, each with a named opcode and a payload shorter than 2^32, and
  -- then a part of a frame that is not complete yet, come out as the packets sent, in order, wherever
  -- the bytes were cut into `remain` and an `income` that is not empty; the part is kept for the next
  -- call.
  pub decode_all_packet-frames :
      (fs : List Sent) (tail : List ℕ) (remain income : Buf)
      → All IsSent fs
      → parse_frame tail ≡ unfinished tail
      → bytes remain ++ bytes income ≡ frames fs ++ tail
      → All IsByte (bytes remain ++ bytes income)
      → 0 < length (bytes income)
      → Option.map (view_all mem little) (decode_all_packet mem little remain income)
        ≡ some (record { ok = true; packets = delivered fs; rest = tail })
  decode_all_packet-frames fs tail remain income g t cut b h =
      rw (decode_all_packet-loop mem little remain income h) (
        loop-frames fs tail _ (first_remain mem little remain) income [] g t
          (rw (bytes-first_remain mem little) cut) (rw (bytes-first_remain mem little) b) h
          (rw (bytes-first_remain mem little)
            (omega (arith, length-append (bytes remain) (bytes income)))))
