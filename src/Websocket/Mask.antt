-- ===== src/Websocket/Mask.antt =====
-- The mask of a payload: it is its own inverse, and taking it off in two buffers one after the other
-- is taking it off the two together.
use Prim.Native.Nat.{bit_xor}
use hula.Common.{
  ℕ, suc, ◌+◌, ◌-◌, ◌%◌, ◌≤◌, min, ◌≡◌, refl, ap, List, [], ◌∷◌, ◌++◌, length, get_or, take, drop,
  arith, append-nil, append_assoc, length-append, take-append, drop-append, drop_all, take_all,
  length-take, length-drop, take-append-drop,
}
use native.Mathlib.Decide.{dec_le}
use hula.Websocket.{apply_mask, unmask_at}

module _ (mask : List ℕ) where
  pub length-apply_mask : (i : ℕ) (bs : List ℕ) → length (apply_mask mask i bs) ≡ length bs
  unfolding apply_mask
  length-apply_mask i [] = refl
  length-apply_mask i (b ∷ bs) = ap suc (length-apply_mask (suc i) bs)

  pub apply_mask-append :
      (i : ℕ) (xs ys : List ℕ)
      → apply_mask mask i (xs ++ ys) ≡ apply_mask mask i xs ++ apply_mask mask (i + length xs) ys
  unfolding apply_mask
  apply_mask-append i [] ys = let e : i + 0 ≡ i = omega arith in rw e
  apply_mask-append i (x ∷ xs) ys =
      let e : i + suc (length xs) ≡ suc i + length xs = omega arith in
      rw e (ap (◌∷◌ (bit_xor x (get_or mask (i % 4) 0))) (apply_mask-append (suc i) xs ys))

  pub length-unmask_at :
      (i pos n : ℕ) (bs : List ℕ) → length (unmask_at mask i pos n bs) ≡ length bs
  unfolding unmask_at
  length-unmask_at i pos n bs = omega (
    arith,
    length-append (take pos bs) (apply_mask mask i (take n (drop pos bs)) ++ drop n (drop pos bs)),
    length-append (apply_mask mask i (take n (drop pos bs))) (drop n (drop pos bs)),
    length-apply_mask i (take n (drop pos bs)),
    length-take n (drop pos bs),
    length-drop n (drop pos bs),
    length-take pos bs,
    length-drop pos bs,
  )

  -- Nothing of the first buffer is in the payload.
  pub unmask_at-before :
      (off len : ℕ) (xs ys : List ℕ)
      → length xs ≤ off
      → unmask_at mask 0 off len (xs ++ ys) ≡ xs ++ unmask_at mask 0 (off - length xs) len ys
  unfolding unmask_at
  unmask_at-before off len xs ys h =
      rw (take-append off xs ys, drop-append off xs ys, take_all off xs h, drop_all off xs h)
        (append_assoc xs _ _)

  pub unmask_at-none : (i pos : ℕ) (xs : List ℕ) → unmask_at mask i pos 0 xs ≡ xs
  unfolding unmask_at apply_mask
  unmask_at-none i pos xs = take-append-drop pos xs

  -- All of the payload is in the first buffer.
  pub unmask_at-inside :
      (off len : ℕ) (xs ys : List ℕ)
      → off + len ≤ length xs
      → unmask_at mask 0 off len (xs ++ ys) ≡ unmask_at mask 0 off len xs ++ ys
  unfolding unmask_at
  unmask_at-inside off len xs ys h =
      let none_off : off - length xs ≡ 0 = omega arith in
      let none_len : len - length (drop off xs) ≡ 0 = omega (arith, length-drop off xs) in
      rw
        (
          take-append off xs ys,
          drop-append off xs ys,
          none_off,
          take-append len (drop off xs) ys,
          drop-append len (drop off xs) ys,
          none_len,
        )
        (simp (append-nil, append_assoc))

  -- The payload goes on in the second one.
  pub unmask_at-across :
      (off len : ℕ) (xs ys : List ℕ)
      → off ≤ length xs
      → length xs ≤ off + len
      → unmask_at mask 0 off len (xs ++ ys)
        ≡ unmask_at mask 0 off (length xs - off) xs
          ++ unmask_at mask (length xs - off) 0 (len - (length xs - off)) ys
  unfolding unmask_at
  unmask_at-across off len xs ys h k =
      let none_off : off - length xs ≡ 0 = omega arith in
      let n : length (drop off xs) ≡ length xs - off = length-drop off xs in
      rw
        (
          take-append off xs ys,
          drop-append off xs ys,
          none_off,
          take-append len (drop off xs) ys,
          drop-append len (drop off xs) ys,
          take_all len (drop off xs) (omega (arith, n)),
          drop_all len (drop off xs) (omega (arith, n)),
          take_all (length xs - off) (drop off xs) (omega (arith, n)),
          drop_all (length xs - off) (drop off xs) (omega (arith, n)),
          n,
          apply_mask-append 0 (drop off xs) (take (len - (length xs - off)) ys),
          n,
        )
        (let e : 0 + (length xs - off) ≡ length xs - off = omega arith in
          rw e (simp (append-nil, append_assoc)))

  pub unmask_at-append :
      (off len : ℕ) (xs ys : List ℕ)
      → (let done = min len (length xs - off) in
          unmask_at mask 0 off len (xs ++ ys)
          ≡ unmask_at mask 0 off done xs
            ++ unmask_at mask done (off + done - length xs) (len - done) ys)
  unmask_at-append off len xs ys = elim (dec_le (length xs) off) [
    | yes before ↦
        let a : min len (length xs - off) ≡ 0 = omega arith in
        let b : off + 0 - length xs ≡ off - length xs = omega arith in
        let c : len - 0 ≡ len = omega arith in
        rw (a, b, c, unmask_at-none 0 off xs) (unmask_at-before off len xs ys before)
    | no after ↦ elim (dec_le (off + len) (length xs)) [
      | yes inside ↦
          let a : min len (length xs - off) ≡ len = omega arith in
          let b : off + len - length xs ≡ 0 = omega arith in
          let c : len - len ≡ 0 = omega arith in
          rw (a, b, c, unmask_at-none len 0 ys) (unmask_at-inside off len xs ys inside)
      | no outside ↦
          let a : min len (length xs - off) ≡ length xs - off = omega arith in
          let b : off + (length xs - off) - length xs ≡ 0 = omega arith in
          rw (a, b) (unmask_at-across off len xs ys (omega arith) (omega arith))
    ]
  ]
