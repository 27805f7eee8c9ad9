-- ===== src/Websocket/Decode.antt =====
-- The decoder, which reads two buffers, finds what the parse of the contiguous bytes finds.
use native.Mathlib.Decide.{dec_lt, dec_le}
use hula.Common.{
  ℕ, suc, ◌+◌, ◌-◌, ◌*◌, ◌%◌, ◌<◌, ◌≤◌, min, ◌≡◌, refl, sym, ap, ◌∙◌, subst, Bool, true, false,
  ◌&&◌, All, List, [], ◌∷◌, ◌++◌, length, get_or, take, drop, ltb, leb, ◌==◌, if◌then◌else◌, arith,
  length-append, take-append, drop-append, take-min, take_all, get_or-append, get_or-append_right,
  get_or-take, take_four, Bool-cases, lt→ltb, le→ltb_false, inl, inr,
}
use hula.Buffer.{SharedMem}
use hula.Endian.{IsByte, k_ntohs, load16, k_ntohs-load16}
use hula.Websocket.{
  Extracted, part, whole, frame_of, k_ntohll, unmask_at, fill_header, fill_field, mask_byte,
  mask_array, unmask, cut_frame, extract_payload, extract_frame_from_data,
}
use hula.Websocket.Xor.{get_or-IsByte}
use hula.Websocket.Mask.{length-unmask_at, unmask_at-append}
use hula.Websocket.Cut.{cut_frame-before, cut_frame-inside, cut_frame-across}
use hula.Websocket.Parse.{has_mask, len1, header_size, announced, least, parse_frame}

-- What the two copies into the header, and those into an extended length, put together.
header_parts :
    (xs ys : List ℕ)
    → (if ltb 0 (length xs) then take (min (length xs) 2) xs else [])
        ++ (if ltb (length xs) 2 then take (2 - length xs) ys else [])
      ≡ take 2 xs ++ take (2 - length xs) ys
header_parts [] ys = refl
header_parts (x ∷ []) ys = refl
header_parts (x ∷ y ∷ xs) ys =
    let n : 2 - suc (suc (length xs)) ≡ 0 = omega arith in
    let m : min (suc (suc (length xs))) 2 ≡ 2 = omega arith in
    rw (
      n,
      m,
      lt→ltb 0 (suc (suc (length xs))) (omega arith),
      le→ltb_false (suc (suc (length xs))) 2 (omega arith),
    )

field_parts :
    (n : ℕ) (xs ys : List ℕ)
    → 0 < n
    → (let f = if ltb 2 (length xs) then min n (length xs - 2) else 0 in
        take f (drop 2 xs)
        ++ (if ltb (length xs) (2 + n)
            then take (n - f) (if ltb 0 f then ys else drop (2 - length xs) ys)
            else []))
      ≡ take n (drop 2 xs) ++ take (n - length (drop 2 xs)) (drop (2 - length xs) ys)
field_parts n [] ys pos =
    let e : n - 0 ≡ n = omega arith in
    rw (lt→ltb 0 (2 + n) (omega arith), e) (rw (take_all {A = ℕ} n [] (omega arith)))
field_parts n (x ∷ []) ys pos =
    let e : n - 0 ≡ n = omega arith in
    rw (lt→ltb 1 (2 + n) (omega arith), e) (rw (take_all {A = ℕ} n [] (omega arith)))
field_parts n (x ∷ y ∷ []) ys pos =
    let e : n - 0 ≡ n = omega arith in
    rw (lt→ltb 2 (2 + n) (omega arith), e) (rw (take_all {A = ℕ} n [] (omega arith)))
field_parts n (x ∷ y ∷ z ∷ xs) ys pos =
    let r = suc (length xs) in
    let e : suc (suc r) - 2 ≡ r = omega arith in
    let o : 2 - suc (suc r) ≡ 0 = omega arith in
    rw
      (
        e,
        o,
        lt→ltb 2 (suc (suc r)) (omega arith),
        lt→ltb 0 (min n r) (omega arith),
        take-min n (z ∷ xs),
      )
      (elim (Bool-cases (ltb (suc (suc r)) (2 + n))) [
        | inl b ↦ let m : n - min n r ≡ n - r = omega arith in rw (b, m)
        | inr b ↦ let m : n - r ≡ 0 = ground (arith, b) in rw (b, m)
      ])

second_pair :
    (bs : List ℕ)
    → ◌≡◌ {A = ℕ × ℕ}
        (get_or (take 2 (drop 2 bs)) 0 0, get_or (take 2 (drop 2 bs)) 1 0)
        (get_or bs 2 0, get_or bs 3 0)
second_pair [] = refl
second_pair (a ∷ []) = refl
second_pair (a ∷ b ∷ []) = refl
second_pair (a ∷ b ∷ c ∷ []) = refl
second_pair (a ∷ b ∷ c ∷ d ∷ bs) = refl

module _ (mem : SharedMem) where
  open mem use {
    Buf, bytes, empty, join, slice, copy, bytes-empty, bytes-join, bytes-slice, bytes-copy,
  }

  -- The bytes of the message, in place of its buffer.
  abbrev pub view : Extracted Buf → Extracted (List ℕ)
  view (part r) = part (bytes r)
  view (whole f r) =
      whole
        (record {
          fin = f.fin;
          opcode = f.opcode;
          message = bytes f.message;
          rsv1 = f.rsv1;
          rsv2 = f.rsv2;
          rsv3 = f.rsv3;
        })
        (bytes r)

  module _ (remain income : Buf) where
    abbrev all_bytes : List ℕ
    all_bytes = bytes remain ++ bytes income

    fill_header_lem : fill_header mem remain income ≡ take 2 (bytes remain ++ bytes income)
    unfolding fill_header
    fill_header_lem =
        rw (take-append 2 (bytes remain) (bytes income))
          (header_parts (bytes remain) (bytes income))

    fill_field_lem :
        (n : ℕ)
        → 0 < n
        → fill_field mem n remain income ≡ take n (drop 2 (bytes remain ++ bytes income))
    unfolding fill_field
    fill_field_lem n pos =
        rw
          (
            drop-append 2 (bytes remain) (bytes income),
            take-append n (drop 2 (bytes remain)) (drop (2 - length (bytes remain)) (bytes income)),
          )
          (field_parts n (bytes remain) (bytes income) pos)

    mask_byte_lem :
        (i : ℕ) → mask_byte mem remain income i ≡ get_or (bytes remain ++ bytes income) i 0
    unfolding mask_byte
    mask_byte_lem i = elim (Bool-cases (leb (i + 1) (length (bytes remain)))) [
      | inl e ↦ rw (e, get_or-append i (bytes remain) (bytes income) 0 (ground arith))
      | inr e ↦ rw (e, get_or-append_right i (bytes remain) (bytes income) 0 (ground arith))
    ]

    mask_array_lem :
        (off : ℕ)
        → 4 ≤ off
        → off ≤ length all_bytes
        → mask_array mem remain income off ≡ take 4 (drop (off - 4) all_bytes)
    unfolding mask_array
    mask_array_lem off h k =
        let a : off - 3 ≡ suc (off - 4) = omega arith in
        let b : off - 2 ≡ suc (suc (off - 4)) = omega arith in
        let c : off - 1 ≡ suc (suc (suc (off - 4))) = omega arith in
        rw
          (
            mask_byte_lem (off - 4),
            mask_byte_lem (off - 3),
            mask_byte_lem (off - 2),
            mask_byte_lem (off - 1),
            a,
            b,
            c,
          )
          (sym (take_four (off - 4) all_bytes 0 (omega arith)))

    -- The two loops leave the buffers that the mask, taken off the bytes together, is cut into.
    unmask_lem :
        (off len : ℕ)
        → off + len ≤ length all_bytes
        → 4 ≤ off
        → (let m = take 4 (drop (off - 4) all_bytes) in
            (bytes (unmask mem remain income off len).0
                ++ bytes (unmask mem remain income off len).1
              ≡ unmask_at m 0 off len all_bytes)
            × (length (bytes (unmask mem remain income off len).0) ≡ length (bytes remain)))
    unfolding unmask
    unmask_lem off len h k =
        let m = take 4 (drop (off - 4) all_bytes) in
        rw (mask_array_lem off k (omega arith)) (
          simp bytes-copy (
            sym (unmask_at-append m off len (bytes remain) (bytes income)),
            length-unmask_at m 0 off (min len (length (bytes remain) - off)) (bytes remain),
          ))

  -- What is cut out of two buffers, in terms of their bytes put together.
  cut_frame_lem :
      (a b : Buf) (off len : ℕ)
      → off + len ≤ length (bytes a ++ bytes b)
      → (bytes (cut_frame mem a b off len).0 ≡ take len (drop off (bytes a ++ bytes b)))
        × (bytes (cut_frame mem a b off len).1 ≡ (
            if ltb off (length (bytes a)) && ltb (length (bytes a)) (off + len)
            then drop (length (bytes a)) (bytes a ++ bytes b)
            else drop (off + len) (bytes a ++ bytes b)))
  cut_frame_lem a b off len h = elim (dec_lt off (length (bytes a))) [
    | no before ↦ cut_frame-before mem a b off len h (omega arith)
    | yes p ↦ elim (dec_le (off + len) (length (bytes a))) [
      | yes inside ↦ cut_frame-inside mem a b off len p inside
      | no outside ↦ cut_frame-across mem a b off len h p (omega arith)
    ]
  ]

  module _ (remain income : Buf) where
    abbrev pub contents : List ℕ
    contents = bytes remain ++ bytes income

    -- The mask taken off where there is one.
    abbrev pub cleared_at : ℕ → ℕ → List ℕ
    cleared_at off len =
        if has_mask contents
        then unmask_at (take 4 (drop (off - 4) contents)) 0 off len contents
        else contents

    -- The frame and the rest, at a given place and length of the payload.
    abbrev pub parse_payload : ℕ → ℕ → Extracted (List ℕ)
    parse_payload off len =
        if ltb (length contents) (len + off)
        then part contents
        else whole (frame_of (get_or contents 0 0) (take len (drop off (cleared_at off len)))) (
            if ltb off (length (bytes remain)) && ltb (length (bytes remain)) (off + len)
            then drop (length (bytes remain)) (cleared_at off len)
            else drop (off + len) (cleared_at off len))

    -- The message and the rest of two buffers that hold `bs`, with the border in its place.
    cut_buffers :
        (a b : Buf) (first off len : ℕ) (bs : List ℕ)
        → bytes a ++ bytes b ≡ bs
        → length (bytes a) ≡ length (bytes remain)
        → off + len ≤ length bs
        → view (whole (frame_of first (cut_frame mem a b off len).0) (cut_frame mem a b off len).1)
          ≡ whole (frame_of first (take len (drop off bs))) (
              if ltb off (length (bytes remain)) && ltb (length (bytes remain)) (off + len)
              then drop (length (bytes remain)) bs
              else drop (off + len) bs)
    unfolding frame_of
    cut_buffers a b first off len bs e n h =
        let cut =
          cut_frame_lem a b off len (subst (λ (x : List ℕ). off + len ≤ length x) (sym e) h) in
        rw (← n, ← e, cut.0, cut.1) refl

    header_at : (i : ℕ) → i < 2 → get_or (fill_header mem remain income) i 0 ≡ get_or contents i 0
    header_at i h = rw (fill_header_lem remain income) (get_or-take i 2 contents 0 h)

    extract_payload_lem :
        (off len : ℕ)
        → (has_mask contents ≡ true → 4 ≤ off)
        → len + off < 0x1_0000_0000_0000_0000
        → view (extract_payload mem remain income (fill_header mem remain income) off len)
          ≡ parse_payload off len
    unfolding extract_payload
    extract_payload_lem off len h w =
        let l = length-append (bytes remain) (bytes income) in
        let m : (len + off) % 0x1_0000_0000_0000_0000 ≡ len + off = omega arith in
        rw (header_at 0 (omega arith), header_at 1 (omega arith), m, ← l)
          (elim (Bool-cases (ltb (length contents) (len + off))) [
            | inl e ↦ rw (e, bytes-join remain income) refl
            | inr e ↦
                let fits : off + len ≤ length contents = ground (arith, e) in
                rw e (elim (Bool-cases (has_mask contents)) [
                  | inl k ↦
                      let (joined, border) = unmask_lem remain income off len fits (h k) in
                      rw k (
                        cut_buffers (unmask mem remain income off len).0
                          (unmask mem remain income off len).1 (get_or contents 0 0) off len
                          (unmask_at (take 4 (drop (off - 4) contents)) 0 off len contents) joined
                          border
                          (subst (λ (n : ℕ). off + len ≤ n)
                            (sym (
                              length-unmask_at (take 4 (drop (off - 4) contents)) 0 off len
                                contents))
                            fits))
                  | inr k ↦ rw k (
                      cut_buffers remain income (get_or contents 0 0) off len contents refl refl
                        fits)
                ])
          ])

    abbrev base : ℕ
    base = if has_mask contents then 6 else 2

    base_room : (extra : ℕ) → has_mask contents ≡ true → 4 ≤ base + extra
    base_room extra e = rw e (omega arith)

    base_small : base ≤ 6
    base_small = ground arith

    short_lem :
        ltb (len1 contents) 126 ≡ true
        → view
            (extract_payload mem remain income (fill_header mem remain income) base (len1 contents))
          ≡ (if ltb (length contents) (header_size contents + least contents)
              then part contents
              else parse_payload (header_size contents) (announced contents))
    short_lem e =
        let z : base + 0 ≡ base = omega arith in
        let y : base + 0 + 0 ≡ base = omega arith in
        extract_payload_lem base (len1 contents) (λ k. subst (λ (n : ℕ). 4 ≤ n) z (base_room 0 k))
          (omega (arith, base_small))
        ∙ rw (e, z, z)
            (elim (Bool-cases (ltb (length contents) base)) [
              | inl f ↦
                  rw (f, lt→ltb (length contents) (len1 contents + base) (ground (arith, f))) refl
              | inr f ↦ rw f refl
            ])

    medium_lem :
        ltb (len1 contents) 126 ≡ false
        → (len1 contents == 126) ≡ true
        → All IsByte contents
        → view (
            if ltb (length contents) (base + 2 + 126)
            then part (join remain income)
            else extract_payload mem remain income (fill_header mem remain income) (base + 2) (
                k_ntohs true (
                  load16 true
                    (get_or (fill_field mem 2 remain income) 0 0)
                    (get_or (fill_field mem 2 remain income) 1 0))))
          ≡ (if ltb (length contents) (header_size contents + least contents)
              then part contents
              else parse_payload (header_size contents) (announced contents))
    medium_lem e f b =
        let x = get_or-IsByte 2 contents b in
        let y = get_or-IsByte 3 contents b in
        rw
          (
            e,
            f,
            fill_field_lem remain income 2 (omega arith),
            ap (λ (p : ℕ × ℕ). p.0) (second_pair contents),
            ap (λ (p : ℕ × ℕ). p.1) (second_pair contents),
            k_ntohs-load16 true (get_or contents 2 0) (get_or contents 3 0) x y,
          )
          (elim (Bool-cases (ltb (length contents) (base + 2 + 126))) [
            | inl g ↦ rw (g, bytes-join remain income) refl
            | inr g ↦ rw g (
                extract_payload_lem (base + 2) (256 * get_or contents 2 0 + get_or contents 3 0)
                  (base_room 2) (omega (arith, base_small, x, y)))
          ])

    long_lem :
        ltb (len1 contents) 126 ≡ false
        → (len1 contents == 126) ≡ false
        → announced contents + 14 < 0x1_0000_0000_0000_0000
        → view (
            if ltb (length contents) (base + 8 + 65536)
            then part (join remain income)
            else extract_payload mem remain income
                (fill_header mem remain income)
                (base + 8)
                (k_ntohll (fill_field mem 8 remain income)))
          ≡ (if ltb (length contents) (header_size contents + least contents)
              then part contents
              else parse_payload (header_size contents) (announced contents))
    long_lem e f h =
        let h' = rw (e, f) at h in
        rw (e, f, fill_field_lem remain income 8 (omega arith))
          (elim (Bool-cases (ltb (length contents) (base + 8 + 65536))) [
            | inl g ↦ rw (g, bytes-join remain income) refl
            | inr g ↦ rw g (
                extract_payload_lem (base + 8) (k_ntohll (take 8 (drop 2 contents))) (base_room 8)
                  (omega (arith, base_small, h')))
          ])

    by_length :
        (c d : Bool) (s m l : Extracted Buf) {r : Extracted (List ℕ)}
        → (c ≡ true → view s ≡ r)
        → (c ≡ false → d ≡ true → view m ≡ r)
        → (c ≡ false → d ≡ false → view l ≡ r)
        → view (if c then s else if d then m else l) ≡ r
    by_length true d s m l f g h = f refl
    by_length false true s m l f g h = g refl refl
    by_length false false s m l f g h = h refl refl

    pub extract_frame_from_data-parse_frame :
        All IsByte (bytes remain ++ bytes income)
        → announced (bytes remain ++ bytes income) + 14 < 0x1_0000_0000_0000_0000
        → view (extract_frame_from_data mem remain income)
          ≡ parse_frame (length (bytes remain)) (bytes remain ++ bytes income)
    unfolding extract_frame_from_data
    extract_frame_from_data-parse_frame b h =
        let l = length-append (bytes remain) (bytes income) in
        rw (header_at 1 (omega arith), ← l)
          (elim (Bool-cases (ltb (length contents) 2)) [
            | inl e ↦ rw (e, bytes-join remain income) refl
            | inr e ↦ rw e (
                by_length (ltb (len1 contents) 126) (len1 contents == 126) _ _ _ short_lem
                  (λ f g. medium_lem f g b) (λ f g. long_lem f g h))
          ])
