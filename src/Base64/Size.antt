-- ===== src/Base64/Size.antt =====
-- The size of the text that Base64Encode writes, and the room that it needs.

use hula.Common.{
  ℕ, ◌+◌, ◌*◌, ◌/◌, ◌%◌, ◌≤◌, ◌<◌, ◌≡◌, ◌⊎◌, inl, inr, refl, subst, List, [], ◌∷◌, ◌++◌, length,
  length-append, ltb, arith, lt→ltb, le→ltb_false, Bool-cases,
}
use hula.Base64.{
  Result, returned, failed, asserted, and_then, put, write_bits, pad, trail, encode_bytes,
  base64_encode,
}

-- k bytes are written and there is room; or there is not, and what was written before that is no
-- more than there is room for. No assertion fails.
abbrev pub Fits : ℕ → ℕ → Result (List ℕ) → Type 0
Fits dst_len k (returned out) = (length out ≡ k) × (k ≤ dst_len)
Fits dst_len k (failed out) = (dst_len < k) × (length out ≤ dst_len)
Fits dst_len k asserted = ⊥

room : (n dst_len : ℕ) → (dst_len < n) ⊎ (n ≤ dst_len)
room n dst_len = elim (Bool-cases (ltb dst_len n)) [
  | inl e ↦ inl (ground (arith, e))
  | inr e ↦ inr (ground (arith, e))
]

put-Fits :
    (dst_len k c : ℕ) (out : List ℕ) (f : List ℕ → Result (List ℕ))
    → length out ≤ dst_len
    → length out + 1 ≤ k
    → ((o : List ℕ) → length o ≡ length out + 1 → length o ≤ dst_len → Fits dst_len k (f o))
    → Fits dst_len k (and_then (put dst_len c out) f)
unfolding put
put-Fits dst_len k c out f w h g = elim (room (length out + 1) dst_len) [
  | inl a ↦ rw (lt→ltb dst_len (length out + 1) a) (omega arith, w)
  | inr a ↦
      let e : length (out ++ (c ∷ [])) ≡ length out + 1 = length-append out (c ∷ []) in
      rw (le→ltb_false dst_len (length out + 1) a) (g (out ++ (c ∷ [])) e (omega arith))
]

put_last-Fits :
    (dst_len c : ℕ) (out : List ℕ)
    → length out ≤ dst_len
    → Fits dst_len (length out + 1) (put dst_len c out)
unfolding put
put_last-Fits dst_len c out w = elim (room (length out + 1) dst_len) [
  | inl a ↦ rw (lt→ltb dst_len (length out + 1) a) (a, w)
  | inr a ↦ rw (le→ltb_false dst_len (length out + 1) a) (length-append out (c ∷ []), a)
]

pad-Fits :
    (dst_len k : ℕ) (out : List ℕ)
    → length out ≤ dst_len
    → ((length out % 4 ≡ 0) × (k ≡ length out))
      ⊎ (((length out % 4 ≡ 2) × (k ≡ length out + 2))
          ⊎ ((length out % 4 ≡ 3) × (k ≡ length out + 1)))
    → Fits dst_len k (pad dst_len out)
unfolding pad
pad-Fits dst_len k out h (inl (e, f)) = rw (e, f) (refl, h)
pad-Fits dst_len k out h (inr (inr (e, f))) = rw (e, f) (put_last-Fits dst_len 61 out h)
pad-Fits dst_len k out h (inr (inl (e, f))) = elim (room (length out + 2) dst_len) [
  | inl a ↦ rw (e, f, lt→ltb dst_len (length out + 2) a) (a, h)
  | inr a ↦
      rw (e, f, le→ltb_false dst_len (length out + 2) a)
        (put-Fits dst_len (length out + 2) 61 out (put dst_len 61) h (omega arith) (λ o g l.
          let m : length o + 1 ≡ length out + 2 = omega arith in
          subst (λ n. Fits dst_len n (put dst_len 61 o)) m (put_last-Fits dst_len 61 o l)))
]

and_then_assoc :
    {A C : Type 0} (r : Result A) (f : A → Result C) (g : C → Result (List ℕ))
    → and_then r (λ a. and_then (f a) g) ≡ and_then (and_then r f) g
and_then_assoc (returned a) f g = refl
and_then_assoc (failed out) f g = refl
and_then_assoc asserted f g = refl

put_then-Fits :
    {C : Type 0} (dst_len k c : ℕ) (out : List ℕ) (f : List ℕ → Result C) (g : C → Result (List ℕ))
    → length out ≤ dst_len
    → length out + 1 ≤ k
    → ((o : List ℕ)
        → length o ≡ length out + 1
        → length o ≤ dst_len
        → Fits dst_len k (and_then (f o) g))
    → Fits dst_len k (and_then (and_then (put dst_len c out) f) g)
put_then-Fits dst_len k c out f g w h l =
    subst (Fits dst_len k) (and_then_assoc (put dst_len c out) f g)
      (put-Fits dst_len k c out (λ o. and_then (f o) g) w h l)

-- How many bits wait between two bytes of src.
abbrev Rests : ℕ → Type 0
Rests bits = (bits ≡ 0) ⊎ ((bits ≡ 2) ⊎ (bits ≡ 4))

end-Fits :
    (dst_len n k accumulator bits : ℕ) (out : List ℕ)
    → Rests bits
    → 6 * length out + bits ≡ 8 * n
    → k ≡ 4 * ((n + 2) / 3)
    → length out ≤ dst_len
    → Fits dst_len k (and_then (trail dst_len accumulator bits out) (pad dst_len))
unfolding trail
end-Fits dst_len n k accumulator bits out (inl b) e f h =
    rw b (pad-Fits dst_len k out h (inl (omega arith, omega arith)))
end-Fits dst_len n k accumulator bits out (inr (inl b)) e f h = rw b (
    put-Fits dst_len k _ out (pad dst_len) h (omega arith)
      (λ o g l. pad-Fits dst_len k o l (inr (inl (omega arith, omega arith)))))
end-Fits dst_len n k accumulator bits out (inr (inr b)) e f h = rw b (
    put-Fits dst_len k _ out (pad dst_len) h (omega arith)
      (λ o g l. pad-Fits dst_len k o l (inr (inr (omega arith, omega arith)))))

encode_bytes-Fits :
    (dst_len n k : ℕ) (src : List ℕ) (accumulator bits : ℕ) (out : List ℕ)
    → Rests bits
    → 6 * length out + bits + 8 * length src ≡ 8 * n
    → k ≡ 4 * ((n + 2) / 3)
    → length out ≤ dst_len
    → Fits dst_len k (encode_bytes dst_len src accumulator bits out)
unfolding encode_bytes write_bits
encode_bytes-Fits dst_len n k [] accumulator bits out b e f h =
    end-Fits dst_len n k accumulator bits out b (omega arith) f h
encode_bytes-Fits dst_len n k (byte ∷ src) accumulator bits out (inl b) e f h = rw b (
    put_then-Fits dst_len k _ out _ _ h (omega arith)
      (λ o g l. encode_bytes-Fits dst_len n k src _ 2 o (inr (inl refl)) (omega arith) f l))
encode_bytes-Fits dst_len n k (byte ∷ src) accumulator bits out (inr (inl b)) e f h = rw b (
    put_then-Fits dst_len k _ out _ _ h (omega arith)
      (λ o g l. encode_bytes-Fits dst_len n k src _ 4 o (inr (inr refl)) (omega arith) f l))
encode_bytes-Fits dst_len n k (byte ∷ src) accumulator bits out (inr (inr b)) e f h = rw b (
    put_then-Fits dst_len k _ out _ _ h (omega arith) (λ o g l.
      put_then-Fits dst_len k _ o _ _ l (omega arith)
        (λ q m i. encode_bytes-Fits dst_len n k src _ 0 q (inl refl) (omega arith) f i)))

-- Base64Encode of n bytes, with room for dst_len characters: if dst_len is at least 4 * ceil(n / 3),
-- then it writes exactly that many characters, and else it returns -1, after it has written at most
-- dst_len characters. No assertion fails.
pub base64_encode-Fits :
    (src : List ℕ) (dst_len : ℕ)
    → Fits dst_len (4 * ((length src + 2) / 3)) (base64_encode src dst_len)
unfolding base64_encode
base64_encode-Fits src dst_len =
    encode_bytes-Fits dst_len (length src) (4 * ((length src + 2) / 3)) src 0 0 [] (inl refl)
      (omega arith) refl (omega arith)
