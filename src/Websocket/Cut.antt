-- ===== src/Websocket/Cut.antt =====
-- `cut_frame` on the bytes of its two buffers, by the place of the border between them.
use hula.Common.{
  ℕ, ◌+◌, ◌-◌, ◌<◌, ◌≤◌, min, ◌≡◌, refl, sym, ap, ap₂, ◌∙◌, ◌&&◌, List, ◌++◌, length, take, drop,
  ltb, if◌then◌else◌, arith, append-nil, length-append, take-append, drop-append, drop_all,
  take_all, length-take, length-drop, drop-length_append, lt→ltb, le→ltb_false, ==_refl, eq_false,
}
use hula.Buffer.{SharedMem}
use hula.Websocket.{cut_frame}

module _ (mem : SharedMem) where
  open mem use {Buf, bytes, slice, join, bytes-empty, bytes-join, bytes-slice}

  -- Shorthand for the result, by the bytes.
  abbrev pub Cuts : Buf → Buf → ℕ → ℕ → Type 0
  Cuts a b off len =
      (bytes (cut_frame mem a b off len).0 ≡ take len (drop off (bytes a ++ bytes b)))
      × (bytes (cut_frame mem a b off len).1 ≡ (
          if ltb off (length (bytes a)) && ltb (length (bytes a)) (off + len)
          then drop (length (bytes a)) (bytes a ++ bytes b)
          else drop (off + len) (bytes a ++ bytes b)))

  bytes-slice_end :
      (b : Buf) (n off : ℕ)
      → off + n ≡ length (bytes b)
      → bytes (slice b n off) ≡ drop off (bytes b)
  bytes-slice_end b n off e =
      bytes-slice b n off (omega (arith, e))
      ∙ take_all n (drop off (bytes b)) (omega (arith, e, length-drop off (bytes b)))

  module _ (a b : Buf) (off len : ℕ) where
    pub cut_frame-before :
        off + len ≤ length (bytes a ++ bytes b) → length (bytes a) ≤ off → Cuts a b off len
    unfolding cut_frame
    cut_frame-before h p =
        let l = length-append (bytes a) (bytes b) in
        let skip : off - length (bytes a) + len ≡ off + len - length (bytes a) = omega arith in
        rw
          (
            le→ltb_false off (length (bytes a)) p,
            drop-append off (bytes a) (bytes b),
            drop-append (off + len) (bytes a) (bytes b),
            drop_all off (bytes a) p,
            drop_all (off + len) (bytes a) (omega arith),
          )
          (
            bytes-slice b len (off - length (bytes a)) (omega (arith, l)),
            bytes-slice_end b _ _ (omega (arith, l)) ∙ ap (λ (n : ℕ). drop n (bytes b)) skip,
          )

    pub cut_frame-inside : off < length (bytes a) → off + len ≤ length (bytes a) → Cuts a b off len
    unfolding cut_frame
    cut_frame-inside p q =
        let ff : min len (length (bytes a) - off) ≡ len = omega arith in
        let f = bytes-slice a len off q in
        let n : length (bytes (slice a len off)) ≡ len =
          ap length f
          ∙ omega (arith, length-take len (drop off (bytes a)), length-drop off (bytes a)) in
        let none_off : off - length (bytes a) ≡ 0 = omega arith in
        let none_len : len - length (drop off (bytes a)) ≡ 0 =
          omega (arith, length-drop off (bytes a)) in
        let none_end : off + len - length (bytes a) ≡ 0 = omega arith in
        let same : len - len ≡ 0 = omega arith in
        rw
          (
            lt→ltb off (length (bytes a)) p,
            ff,
            n,
            ==_refl len,
            le→ltb_false len len (omega arith),
            le→ltb_false (length (bytes a)) (off + len) q,
            n,
            same,
            drop-append off (bytes a) (bytes b),
            none_off,
            take-append len (drop off (bytes a)) (bytes b),
            none_len,
            drop-append (off + len) (bytes a) (bytes b),
            none_end,
            append-nil,
          )
          (
            f,
            bytes-join _ _
                ∙ ap₂ (λ (x y : List ℕ). x ++ y) (bytes-slice_end a _ (off + len) (omega arith))
                    (bytes-slice_end b _ 0 (omega arith)),
          )

    message-across :
        off + len ≤ length (bytes a ++ bytes b)
        → off < length (bytes a)
        → length (bytes a) < off + len
        → bytes (
            join
              (slice a (length (bytes a) - off) off)
              (slice b (len - (length (bytes a) - off)) 0))
          ≡ take len (drop off (bytes a ++ bytes b))
    message-across h p q =
        let l = length-append (bytes a) (bytes b) in
        let d = length-drop off (bytes a) in
        let none_off : off - length (bytes a) ≡ 0 = omega arith in
        bytes-join _ _
        ∙ ap₂ (λ (x y : List ℕ). x ++ y)
            (bytes-slice_end a (length (bytes a) - off) off (omega arith))
            (bytes-slice b (len - (length (bytes a) - off)) 0 (omega (arith, l)))
        ∙ rw
            (
              drop-append off (bytes a) (bytes b),
              none_off,
              take-append len (drop off (bytes a)) (bytes b),
              d,
              take_all len (drop off (bytes a)) (omega (arith, d)),
            )
            refl

    pub cut_frame-across :
        off + len ≤ length (bytes a ++ bytes b)
        → off < length (bytes a)
        → length (bytes a) < off + len
        → Cuts a b off len
    unfolding cut_frame
    cut_frame-across h p q =
        let rest = length (bytes a) - off in
        let l = length-append (bytes a) (bytes b) in
        let ff : min len rest ≡ rest = omega arith in
        let f : bytes (slice a rest off) ≡ drop off (bytes a) =
          bytes-slice_end a rest off (omega arith) in
        let n : length (bytes (slice a rest off)) ≡ rest =
          ap length f ∙ length-drop off (bytes a) in
        let m : bytes (join (slice a rest off) (slice b (len - rest) 0))
            ≡ take len (drop off (bytes a ++ bytes b)) =
          message-across h p q in
        let k : length (bytes (join (slice a rest off) (slice b (len - rest) 0))) ≡ len =
          ap length m
          ∙ omega (
            arith,
            length-take len (drop off (bytes a ++ bytes b)),
            length-drop off (bytes a ++ bytes b),
          ) in
        let same : len - len ≡ 0 = omega arith in
        rw
          (
            lt→ltb off (length (bytes a)) p,
            ff,
            n,
            eq_false rest len (λ e. absurd (omega (arith, e))),
            lt→ltb rest len (omega arith),
            k,
            same,
            lt→ltb (length (bytes a)) (off + len) q,
          )
          (
            m,
            bytes-join _ _
                ∙ ap₂ (λ (x y : List ℕ). x ++ y) bytes-empty (bytes-slice_end b _ 0 (omega arith))
                ∙ sym (drop-length_append (bytes a) (bytes b)),
          )
