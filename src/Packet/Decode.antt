-- ===== src/Packet/Decode.antt =====
-- `decode_packet` reads a frame from `remain` followed by `income`, wherever the border lies.
use hula.Common.{
  ℕ, ◌+◌, ◌-◌, ◌<◌, ◌≤◌, ◌≡◌, refl, sym, ◌∙◌, ap, Bool, true, false, some, List, [], ◌∷◌, ◌++◌,
  length, take, drop, ltb, ◌==◌, ◌&&◌, ◌||◌, if◌then◌else◌, All, arith, take-append, take-min,
  length-append, inl, inr, Bool-cases, ℕ_discrete, eq_false, ◌≢◌, take_all, drop_all, length-drop,
  le→ltb_false,
}
use mathlib.Core.Option
use hula.Buffer.{SharedMem}
use hula.Endian.{IsByte, k_ntohs-load16, k_ntohl-load32}
use hula.Packet.{
  incomplete, Decoded, fill_header, decode_packet, decode_header, cut_frame, full_size, header_byte,
  read_length,
}
use hula.Packet.Frame.{
  unfinished, malformed, whole, take_payload, parse_frame, parse_long, parse_huge,
}

pub parse_short :
    (op id l : ℕ) (body : List ℕ)
    → l ≢ 0xfe
    → l ≢ 0xff
    → parse_frame (op ∷ id ∷ l ∷ body) ≡ take_payload (op ∷ id ∷ l ∷ body) op id l body
unfolding parse_frame
parse_short op id l body ne nf = rw (eq_false l 0xfe ne, eq_false l 0xff nf)

module _ (mem : SharedMem) (little : Bool) where
  open mem use {Buf, bytes, empty, join, slice, bytes-join, bytes-empty, bytes-slice}

  -- A result with its buffers read.
  abbrev pub view : Decoded Buf → Decoded (List ℕ)
  view d = record {
    no_error = d.no_error;
    finish = d.finish;
    frame = bytes d.frame;
    remain = bytes d.remain;
    opcode = d.opcode;
    id = d.id;
  }

  pub fill_header-take :
      (remain income : Buf)
      → fill_header mem little remain income ≡ take full_size (bytes remain ++ bytes income)
  unfolding fill_header
  fill_header-take remain income =
      rw (take-append, take-min 7 (bytes remain), take-min _ (bytes income))
        (ap (λ (n : ℕ). take 7 (bytes remain) ++ take n (bytes income)) (omega arith))

  view-cut_frame :
      (merge : Buf) (h : List ℕ) (header_size len : ℕ)
      → len + header_size ≤ length (bytes merge)
      → view (cut_frame mem little merge h header_size len)
        ≡ whole
            (header_byte h 0)
            (header_byte h 1)
            (take len (drop header_size (bytes merge)))
            (drop (len + header_size) (bytes merge))
  unfolding cut_frame
  view-cut_frame merge h hs len fits = elim (Bool-cases (ltb (len + hs) (length (bytes merge)))) [
    | inl more ↦ rw more (ground (arith, front, back more))
    | inr less ↦ rw less (ground (arith, front, none_left less))
  ]
    where
      front : bytes (slice merge len hs) ≡ take len (drop hs (bytes merge))
      front = bytes-slice merge len hs (omega arith)

      back :
          ltb (len + hs) (length (bytes merge)) ≡ true
          → bytes (slice merge (length (bytes merge) - len - hs) (len + hs))
            ≡ drop (len + hs) (bytes merge)
      back more =
          bytes-slice merge _ (len + hs) (ground arith)
          ∙ take_all _ (drop (len + hs) (bytes merge))
              (omega (arith, length-drop (len + hs) (bytes merge)))

      none_left :
          ltb (len + hs) (length (bytes merge)) ≡ false
          → bytes empty ≡ drop (len + hs) (bytes merge)
      none_left less = bytes-empty ∙ sym (drop_all (len + hs) (bytes merge) (ground arith))

  -- `decode_header` on the bytes of the two buffers together.
  abbrev header_view : List ℕ → List ℕ → ℕ × ℕ → Decoded (List ℕ)
  header_view bs h (header_size, len) =
      if ltb (length bs) header_size
      then unfinished bs
      else if (header_byte h 2 == 0xfe && ltb len 0xfe)
          || (header_byte h 2 == 0xff && ltb len 0x10000)
      then malformed
      else if ltb (length bs) (len + header_size)
      then unfinished bs
      else whole (header_byte h 0) (header_byte h 1) (take len (drop header_size bs))
          (drop (len + header_size) bs)

  short_view :
      (op id l : ℕ) (body : List ℕ)
      → l ≢ 0xfe
      → l ≢ 0xff
      → let bs = op ∷ id ∷ l ∷ body in
        header_view bs (take 7 bs) (3, l) ≡ take_payload bs op id l body
  unfolding take_payload
  short_view op id l body h k = ground arith

  long_view :
      (op id x y len : ℕ) (body : List ℕ)
      → let bs = op ∷ id ∷ 0xfe ∷ x ∷ y ∷ body in
        header_view bs (take 7 bs) (5, len)
        ≡ (if ltb len 0xfe then malformed else take_payload bs op id len body)
  unfolding take_payload
  long_view op id x y len body = ground arith

  huge_view :
      (op id x y z w len : ℕ) (body : List ℕ)
      → let bs = op ∷ id ∷ 0xff ∷ x ∷ y ∷ z ∷ w ∷ body in
        header_view bs (take 7 bs) (7, len)
        ≡ (if ltb len 0x10000 then malformed else take_payload bs op id len body)
  unfolding take_payload
  huge_view op id x y z w len body = ground arith

  long_header :
      (op id : ℕ) (body : List ℕ)
      → All IsByte body
      → let bs = op ∷ id ∷ 0xfe ∷ body in
        header_view bs (take 7 bs) (read_length mem little (take 7 bs)) ≡ parse_long bs op id body
  unfolding read_length parse_long
  long_header op id [] b = refl
  long_header op id (x ∷ []) b = refl
  long_header op id (x ∷ y ∷ body) b =
      rw (k_ntohs-load16 little x y b.0 b.1.0) (long_view op id x y _ body)

  huge_header :
      (op id : ℕ) (body : List ℕ)
      → All IsByte body
      → let bs = op ∷ id ∷ 0xff ∷ body in
        header_view bs (take 7 bs) (read_length mem little (take 7 bs)) ≡ parse_huge bs op id body
  unfolding read_length parse_huge
  huge_header op id [] b = refl
  huge_header op id (x ∷ []) b = refl
  huge_header op id (x ∷ y ∷ []) b = refl
  huge_header op id (x ∷ y ∷ z ∷ []) b = refl
  huge_header op id (x ∷ y ∷ z ∷ w ∷ body) b =
      rw (k_ntohl-load32 little x y z w b.0 b.1.0 b.1.1.0 b.1.1.1.0)
        (huge_view op id x y z w _ body)

  read_short :
      (op id l : ℕ) (body : List ℕ)
      → l ≢ 0xfe
      → l ≢ 0xff
      → read_length mem little (take 7 (op ∷ id ∷ l ∷ body)) ≡ (3, l)
  unfolding read_length
  read_short op id l body ne nf = rw (eq_false l 0xfe ne, eq_false l 0xff nf)

  header_view-parse_frame :
      (op id l : ℕ) (body : List ℕ)
      → All IsByte body
      → let bs = op ∷ id ∷ l ∷ body in
        header_view bs (take 7 bs) (read_length mem little (take 7 bs)) ≡ parse_frame bs
  header_view-parse_frame op id l body b = elim (ℕ_discrete l 0xfe) [
    | yes e ↦ rw e (unfold parse_frame in long_header op id body b)
    | no ne ↦ elim (ℕ_discrete l 0xff) [
      | yes e ↦ rw e (unfold parse_frame in huge_header op id body b)
      | no nf ↦
          let bs = op ∷ id ∷ l ∷ body in
          ap (header_view bs (take 7 bs)) (read_short op id l body ne nf)
          ∙ short_view op id l body ne nf
          ∙ sym (parse_short op id l body ne nf)
    ]
  ]

  view-decode_header :
      (remain income : Buf) (h : List ℕ) (header_size len : ℕ)
      → view (decode_header mem little remain income h (header_size, len))
        ≡ header_view (bytes remain ++ bytes income) h (header_size, len)
  unfolding decode_header
  view-decode_header remain income h hs len = ground (
    arith,
    bytes-join remain income,
    bytes-empty,
    length-append (bytes remain) (bytes income),
    view-cut_frame (join remain income) h hs len,
  )

  contiguous_view :
      (bs : List ℕ)
      → All IsByte bs
      → (if ltb (length (take 7 bs)) 3
          then unfinished bs
          else header_view bs (take 7 bs) (read_length mem little (take 7 bs)))
        ≡ parse_frame bs
  contiguous_view [] b = unfold parse_frame in refl
  contiguous_view (op ∷ []) b = unfold parse_frame in refl
  contiguous_view (op ∷ id ∷ []) b = unfold parse_frame in refl
  contiguous_view (op ∷ id ∷ l ∷ body) b =
      rw (le→ltb_false (length (take 7 (op ∷ id ∷ l ∷ body))) 3 (omega arith))
        (header_view-parse_frame op id l body b.1.1.1)

  view-choice :
      (remain income : Buf) (h : List ℕ)
      → view (
          if ltb (length h) 3
          then incomplete mem little remain income
          else decode_header mem little remain income h (read_length mem little h))
        ≡ (if ltb (length h) 3
            then unfinished (bytes remain ++ bytes income)
            else header_view (bytes remain ++ bytes income) h (read_length mem little h))
  view-choice remain income h = elim (Bool-cases (ltb (length h) 3)) [
    | inl short ↦ rw short (ground (arith, bytes-join remain income, bytes-empty))
    | inr long ↦ rw long (
        view-decode_header remain income h (read_length mem little h).0
          (read_length mem little h).1)
  ]

  -- On bytes, and an `income` that is not empty, the decoder returns, and it finds what a parse of the
  -- contiguous bytes finds, wherever the border between `remain` and `income` lies.
  pub decode_packet-parse_frame :
      (remain income : Buf)
      → All IsByte (bytes remain ++ bytes income)
      → 0 < length (bytes income)
      → Option.map view (decode_packet mem little remain income)
        ≡ some (parse_frame (bytes remain ++ bytes income))
  unfolding decode_packet
  decode_packet-parse_frame remain income b h =
      let ne : (length (bytes income) == 0) ≡ false = ground arith in
      rw (ne, fill_header-take remain income)
        (ap some (view-choice remain income _ ∙ contiguous_view (bytes remain ++ bytes income) b))
