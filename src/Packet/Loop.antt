-- ===== src/Packet/Loop.antt =====
-- The loop of `decode_all_packet`: what a round does, and that the loop ends.
use mathlib.Core.Option
use hula.Common.{
  ℕ, zero, suc, ◌+◌, ◌<◌, ◌≤◌, ◌≡◌, ◌≢◌, ◌∙◌, sym, ap, subst, Bool, true, false, Option, some, none,
  List, [], ◌∷◌, ◌++◌, length, ◌==◌, if◌then◌else◌, All, arith, length-append, inl, inr, Bool-cases,
  nil_of_length, All-append_right,
}
use hula.Buffer.{SharedMem}
use hula.Endian.{IsByte}
use hula.Packet.{
  Decoded, DecodedAll, PacketOpcode, decode_packet, decode_loop, decode_all_packet, after_packet,
}
use hula.Packet.Frame.{parse_frame}
use hula.Packet.Decode.{view, decode_packet-parse_frame}
use hula.Packet.Shrink.{parse_frame-Shrinks}

module _ (mem : SharedMem) (little : Bool) where
  open mem use {Buf, bytes, empty, bytes-empty}

  -- The result of a single call with the buffers read.
  pub decode_packet_result :
      (remain income : Buf)
      → All IsByte (bytes remain ++ bytes income)
      → 0 < length (bytes income)
      → (d : Decoded Buf) × (decode_packet mem little remain income ≡ some d)
        × (view mem little d ≡ parse_frame (bytes remain ++ bytes income))
  decode_packet_result remain income b h =
      (Option.map-eq-some_iff (view mem little) (decode_packet mem little remain income)).0
        (decode_packet-parse_frame mem little remain income b h)

  abbrev pub view_packets : List (Buf × PacketOpcode × ℕ) → List (List ℕ × PacketOpcode × ℕ)
  view_packets [] = []
  view_packets ((f, op, id) ∷ ps) = (bytes f, op, id) ∷ view_packets ps

  abbrev pub view_all : DecodedAll Buf → DecodedAll (List ℕ)
  view_all r = record { ok = r.ok; packets = view_packets r.packets; rest = bytes r.rest }

  -- What a round that goes on hands to the next one.
  pub next_round :
      (bs : List ℕ) (d : Decoded Buf)
      → All IsByte bs
      → view mem little d ≡ parse_frame bs
      → d.finish ≡ true
      → All IsByte (bytes empty ++ bytes d.remain)
        × (3 + length (bytes empty ++ bytes d.remain) ≤ length bs)
  next_round bs d b v f =
      let (front, cut, three) =
        parse_frame-Shrinks bs (ap (λ (x : Decoded (List ℕ)). x.finish) (sym v) ∙ f) in
      let left : bs ≡ front ++ bytes d.remain =
        cut ∙ ap (λ (x : Decoded (List ℕ)). front ++ x.remain) (sym v) in
      rw bytes-empty (
        All-append_right IsByte front (bytes d.remain) (subst (All IsByte) left b),
        omega (arith, ap length left, length-append front (bytes d.remain)),
      )

  -- The three ways a round can end.
  pub after_packet-error :
      (remain : Buf) (ret : List (Buf × PacketOpcode × ℕ)) (d : Decoded Buf)
      → (next : Buf → Buf → List (Buf × PacketOpcode × ℕ) → Option (DecodedAll Buf))
      → d.no_error ≡ false
      → after_packet mem little remain ret d next
        ≡ some (record { ok = false; packets = ret; rest = remain })
  unfolding after_packet
  after_packet-error remain ret d next bad = rw bad

  pub after_packet-part :
      (remain : Buf) (ret : List (Buf × PacketOpcode × ℕ)) (d : Decoded Buf)
      → (next : Buf → Buf → List (Buf × PacketOpcode × ℕ) → Option (DecodedAll Buf))
      → d.no_error ≡ true
      → d.finish ≡ false
      → after_packet mem little remain ret d next
        ≡ some (record { ok = true; packets = ret; rest = d.remain })
  unfolding after_packet
  after_packet-part remain ret d next fine part = rw (fine, part)

  pub after_packet-whole :
      (remain : Buf) (ret : List (Buf × PacketOpcode × ℕ)) (d : Decoded Buf)
      → (next : Buf → Buf → List (Buf × PacketOpcode × ℕ) → Option (DecodedAll Buf))
      → d.no_error ≡ true
      → d.finish ≡ true
      → let ret' = ret ++ ((d.frame, d.opcode, d.id) ∷ []) in
        after_packet mem little remain ret d next ≡ (
          if length (bytes d.remain) == 0
          then some (record { ok = true; packets = ret'; rest = d.remain })
          else next empty d.remain ret')
  unfolding after_packet
  after_packet-whole remain ret d next fine done = rw (fine, done)

  loop-ne-none :
      (fuel : ℕ) (remain income : Buf) (ret : List (Buf × PacketOpcode × ℕ))
      → All IsByte (bytes remain ++ bytes income)
      → 0 < length (bytes income)
      → length (bytes remain ++ bytes income) < fuel
      → decode_loop mem little fuel remain income ret ≢ none
  unfolding decode_loop
  loop-ne-none zero remain income ret b h f = absurd (omega arith)
  loop-ne-none (suc fuel) remain income ret b h f =
      let (d, e, v) = decode_packet_result remain income b h in
      rw e (elim (Bool-cases d.no_error) [
        | inl fine ↦ elim (Bool-cases d.finish) [
          | inl done ↦ elim (Bool-cases (length (bytes d.remain) == 0)) [
            | inl stop ↦ rw (after_packet-whole remain ret d _ fine done, stop) (λ p. cc)
            | inr more ↦
                let (b', short) = next_round (bytes remain ++ bytes income) d b v done in
                rw (after_packet-whole remain ret d _ fine done, more)
                  (loop-ne-none fuel empty d.remain _ b' (ground arith) (omega arith))
          ]
          | inr part ↦ rw (after_packet-part remain ret d _ fine part) (λ p. cc)
        ]
        | inr bad ↦ rw (after_packet-error remain ret d _ bad) (λ p. cc)
      ])

  -- `x_remain`, as the loop starts.
  abbrev pub first_remain : Buf → Buf
  first_remain remain = if length (bytes remain) == 0 then empty else remain

  pub bytes-first_remain : (remain : Buf) → bytes (first_remain remain) ≡ bytes remain
  bytes-first_remain remain = elim (Bool-cases (length (bytes remain) == 0)) [
    | inl nothing ↦ rw nothing (bytes-empty ∙ sym (nil_of_length (bytes remain) (ground arith)))
    | inr some_left ↦ rw some_left
  ]

  pub decode_all_packet-loop :
      (remain income : Buf)
      → 0 < length (bytes income)
      → decode_all_packet mem little remain income
        ≡ decode_loop mem little
            (suc (length (bytes remain) + length (bytes income)))
            (first_remain remain)
            income
            []
  unfolding decode_all_packet
  decode_all_packet-loop remain income h =
      let e : (length (bytes income) == 0) ≡ false = ground arith in rw e

  -- Whatever bytes arrive, in an `income` that is not empty, `decode_all_packet` returns: the loop ends
  -- within its fuel, and the assertions on the input fail in no round.
  pub decode_all_packet-ne-none :
      (remain income : Buf)
      → All IsByte (bytes remain ++ bytes income)
      → 0 < length (bytes income)
      → decode_all_packet mem little remain income ≢ none
  decode_all_packet-ne-none remain income b h = rw (decode_all_packet-loop remain income h) (
      loop-ne-none _ (first_remain remain) income [] (rw bytes-first_remain b) h
        (rw bytes-first_remain (omega (arith, length-append (bytes remain) (bytes income)))))
