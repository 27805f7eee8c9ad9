-- ===== src/Websocket/Payload.antt =====
-- The parse of a payload behind its header, and the numbers of eight bytes.
use hula.Common.{
  ℕ, zero, suc, ◌+◌, ◌-◌, ◌*◌, ◌/◌, ◌%◌, ◌<◌, ◌≤◌, ◌≡◌, refl, sym, ap, ◌∙◌, subst, Bool, true,
  false, ◌&&◌, List, [], ◌∷◌, ◌++◌, length, get_or, take, drop, ltb, if◌then◌else◌, arith,
  length-append, drop-append, drop-drop, take-length_append, drop-length_append, length-take,
  length-drop, drop_all, le→ltb_false,
}
use hula.Websocket.{
  Extracted, whole, frame_of, load64, store64, k_ntohll, k_htonll, apply_mask, unmask_at,
}
use hula.Websocket.Mask.{length-apply_mask}
use hula.Websocket.Parse.{has_mask, header_size, announced, least, splits_payload, parse_frame}

load64-append : (acc b : ℕ) (xs : List ℕ) → load64 acc (xs ++ (b ∷ [])) ≡ 256 * load64 acc xs + b
unfolding load64
load64-append acc b [] = refl
load64-append acc b (x ∷ xs) = load64-append (256 * acc + x) b xs

load64-store64 :
    (n v : ℕ) → load64 0 (store64 (suc n) v) ≡ 256 * load64 0 (store64 n (v / 256)) + v % 256
unfolding store64
load64-store64 n v = load64-append 0 (v % 256) (store64 n (v / 256))

load64-none : (v : ℕ) → load64 0 (store64 0 v) ≡ 0
unfolding load64 store64
load64-none v = refl

pub k_ntohll-k_htonll : (v : ℕ) → v < 0x1_0000_0000_0000_0000 → k_ntohll (k_htonll v) ≡ v
unfolding k_ntohll k_htonll
k_ntohll-k_htonll v h = omega (
  arith,
  load64-store64 7 v,
  load64-store64 6 (v / 256),
  load64-store64 5 (v / 256 / 256),
  load64-store64 4 (v / 256 / 256 / 256),
  load64-store64 3 (v / 256 / 256 / 256 / 256),
  load64-store64 2 (v / 256 / 256 / 256 / 256 / 256),
  load64-store64 1 (v / 256 / 256 / 256 / 256 / 256 / 256),
  load64-store64 0 (v / 256 / 256 / 256 / 256 / 256 / 256 / 256),
  load64-none (v / 256 / 256 / 256 / 256 / 256 / 256 / 256 / 256),
)

length-store64 : (n v : ℕ) → length (store64 n v) ≡ n
unfolding store64
length-store64 zero v = refl
length-store64 (suc n) v =
    omega (arith, length-append (store64 n (v / 256)) ((v % 256) ∷ []), length-store64 n (v / 256))

drop-unmask_at :
    (m bs : List ℕ) (hs len : ℕ)
    → hs ≤ length bs
    → drop hs (unmask_at m 0 hs len bs)
      ≡ apply_mask m 0 (take len (drop hs bs)) ++ drop len (drop hs bs)
unfolding unmask_at
drop-unmask_at m bs hs len h =
    let n : length (take hs bs) ≡ hs = omega (arith, length-take hs bs) in
    let z : hs - hs ≡ 0 = omega arith in
    rw
      (
        drop-append hs (take hs bs)
            (apply_mask m 0 (take len (drop hs bs)) ++ drop len (drop hs bs)),
        drop_all hs (take hs bs) (omega (arith, n)),
        n,
        z,
      )
      refl

-- The front and the rest of what is known by its first part.
front_and_rest :
    (bs body more : List ℕ) (hs : ℕ)
    → drop hs bs ≡ body ++ more
    → (take (length body) (drop hs bs) ≡ body) × (drop (hs + length body) bs ≡ more)
front_and_rest bs body more hs d = (
  rw d (take-length_append body more),
  sym (drop-drop (length body) hs bs) ∙ rw d (drop-length_append body more),
)

payload_step :
    (mb : Bool) (m bs body more : List ℕ) (first hs border : ℕ)
    → hs ≤ length bs
    → drop hs bs ≡ body ++ more
    → (ltb hs border && ltb border (hs + length body)) ≡ false
    → (let clear = if mb then unmask_at m 0 hs (length body) bs else bs in
        ◌≡◌ {A = Extracted (List ℕ)}
          (whole (frame_of first (take (length body) (drop hs clear))) (
            if ltb hs border && ltb border (hs + length body)
            then drop border clear
            else drop (hs + length body) clear))
          (whole (frame_of first (if mb then apply_mask m 0 body else body)) more))
payload_step false m bs body more first hs border h d s =
    let (f, r) = front_and_rest bs body more hs d in rw (s, f, r) refl
payload_step true m bs body more first hs border h d s =
    let (f, r) = front_and_rest bs body more hs d in
    let whole_rest : drop hs (unmask_at m 0 hs (length body) bs) ≡ apply_mask m 0 body ++ more =
      drop-unmask_at m bs hs (length body) h ∙ rw (f, drop-drop (length body) hs bs, r) refl in
    let (f', r') =
      front_and_rest (unmask_at m 0 hs (length body) bs) (apply_mask m 0 body) more hs whole_rest in
    let f'' = rw (length-apply_mask m 0 body) at f' in
    let r'' = rw (length-apply_mask m 0 body) at r' in rw (s, f'', r'') refl

-- The parse of a header, the payload and what follows.
pub parse_frame-payload :
    (bs body more : List ℕ) (border : ℕ)
    → header_size bs ≤ length bs
    → drop (header_size bs) bs ≡ body ++ more
    → length body ≡ announced bs
    → least bs ≤ announced bs
    → 2 ≤ header_size bs
    → splits_payload border bs ≡ false
    → parse_frame border bs
      ≡ whole
          (frame_of (get_or bs 0 0) (
            if has_mask bs
            then apply_mask (take 4 (drop (header_size bs - 4) bs)) 0 body
            else body))
          more
parse_frame-payload bs body more border h d n l t s =
    let total : length bs ≡ header_size bs + announced bs + length more =
      omega (arith, ap length d, length-drop (header_size bs) bs, length-append body more) in
    rw
      (
        le→ltb_false (length bs) 2 (omega arith),
        le→ltb_false (length bs) (header_size bs + least bs) (omega arith),
        le→ltb_false (length bs) (announced bs + header_size bs) (omega arith),
      )
      (subst
        (λ (len : ℕ).
          (let clear =
              if has_mask bs
              then unmask_at (take 4 (drop (header_size bs - 4) bs)) 0 (header_size bs) len bs
              else bs in
            ◌≡◌ {A = Extracted (List ℕ)}
              (whole (frame_of (get_or bs 0 0) (take len (drop (header_size bs) clear))) (
                if ltb (header_size bs) border && ltb border (header_size bs + len)
                then drop border clear
                else drop (header_size bs + len) clear))
              (whole
                (frame_of (get_or bs 0 0) (
                  if has_mask bs
                  then apply_mask (take 4 (drop (header_size bs - 4) bs)) 0 body
                  else body))
                more)))
        n
        (payload_step (has_mask bs) (take 4 (drop (header_size bs - 4) bs)) bs body more
          (get_or bs 0 0) (header_size bs) border h d
          (subst
            (λ (len : ℕ).
              (ltb (header_size bs) border && ltb border (header_size bs + len)) ≡ false)
            (sym n) s)))
