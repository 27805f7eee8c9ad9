-- ===== src/Packet/Shrink.antt =====
-- Every frame that `parse_frame` finishes uses up input: why the decoding loop ends.
use hula.Common.{
  ℕ, ◌+◌, ◌≤◌, ◌≡◌, ◌∙◌, sym, ap, true, List, [], ◌∷◌, ◌++◌, length, take, drop, ltb, arith,
  length-append, inl, inr, Bool-cases, ℕ_discrete, take-append-drop, ◌*◌, append_assoc,
}
use hula.Packet.{Decoded}
use hula.Packet.Frame.{take_payload, parse_frame, parse_long, parse_huge}
use hula.Packet.Decode.{parse_short}

-- A frame that is read leaves the end of the input, and takes three bytes at least.
abbrev pub Shrinks : List ℕ → Decoded (List ℕ) → Type 0
Shrinks bs d = d.finish ≡ true → (front : List ℕ) × (bs ≡ front ++ d.remain) × (3 ≤ length front)

take_payload-Shrinks :
    (front : List ℕ) (op id len : ℕ) (body : List ℕ)
    → 3 ≤ length front
    → Shrinks (front ++ body) (take_payload (front ++ body) op id len body)
unfolding take_payload
take_payload-Shrinks front op id len body h = elim (Bool-cases (ltb (length body) len)) [
  | inl short ↦ rw short (λ f. cc)
  | inr long ↦ rw long (λ f. (
    front ++ take len body,
    sym (
        append_assoc front (take len body) (drop len body)
        ∙ ap (◌++◌ front) (take-append-drop len body)),
    omega (arith, length-append front (take len body)),
  ))
]

parse_long-Shrinks :
    (op id : ℕ) (body : List ℕ)
    → let bs = op ∷ id ∷ 0xfe ∷ body in Shrinks bs (parse_long bs op id body)
unfolding parse_long
parse_long-Shrinks op id [] = λ f. cc
parse_long-Shrinks op id (x ∷ []) = λ f. cc
parse_long-Shrinks op id (x ∷ y ∷ body) = elim (Bool-cases (ltb (256 * x + y) 0xfe)) [
  | inl bad ↦ rw bad (λ f. cc)
  | inr good ↦
      rw good (take_payload-Shrinks (op ∷ id ∷ 0xfe ∷ x ∷ y ∷ []) op id _ body (omega arith))
]

parse_huge-Shrinks :
    (op id : ℕ) (body : List ℕ)
    → let bs = op ∷ id ∷ 0xff ∷ body in Shrinks bs (parse_huge bs op id body)
unfolding parse_huge
parse_huge-Shrinks op id [] = λ f. cc
parse_huge-Shrinks op id (x ∷ []) = λ f. cc
parse_huge-Shrinks op id (x ∷ y ∷ []) = λ f. cc
parse_huge-Shrinks op id (x ∷ y ∷ z ∷ []) = λ f. cc
parse_huge-Shrinks op id (x ∷ y ∷ z ∷ w ∷ body) =
    elim (Bool-cases (ltb (16777216 * x + 65536 * y + 256 * z + w) 0x10000)) [
      | inl bad ↦ rw bad (λ f. cc)
      | inr good ↦
          rw good
            (take_payload-Shrinks (op ∷ id ∷ 0xff ∷ x ∷ y ∷ z ∷ w ∷ []) op id _ body (omega arith))
    ]

pub parse_frame-Shrinks : (bs : List ℕ) → Shrinks bs (parse_frame bs)
parse_frame-Shrinks [] = unfold parse_frame in λ f. cc
parse_frame-Shrinks (op ∷ []) = unfold parse_frame in λ f. cc
parse_frame-Shrinks (op ∷ id ∷ []) = unfold parse_frame in λ f. cc
parse_frame-Shrinks (op ∷ id ∷ l ∷ body) = elim (ℕ_discrete l 0xfe) [
  | yes e ↦ rw e (unfold parse_frame in parse_long-Shrinks op id body)
  | no ne ↦ elim (ℕ_discrete l 0xff) [
    | yes e ↦ rw e (unfold parse_frame in parse_huge-Shrinks op id body)
    | no nf ↦
        rw (parse_short op id l body ne nf)
          (take_payload-Shrinks (op ∷ id ∷ l ∷ []) op id l body (omega arith))
  ]
]
