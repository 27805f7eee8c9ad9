-- ===== src/Websocket/Written.antt =====
-- What the parse makes of the bytes that `formFrameHeader` writes, by the size of the length.
use native.Mathlib.Decide.{dec_lt}
use hula.Common.{
  ℕ, suc, ◌+◌, ◌-◌, ◌/◌, ◌%◌, ◌<◌, ◌≤◌, ◌≡◌, refl, sym, ◌∙◌, Bool, true, false, ◌&&◌, Option, none,
  some, List, [], ◌∷◌, ◌++◌, length, take, drop, ltb, if◌then◌else◌, arith, length-append, lt→ltb,
  le→ltb_false,
}
use hula.Common.Maps.{is_some}
use hula.Endian.{store16-k_htons}
use hula.Websocket.{whole, bit, frame_of, store64, k_htonll, apply_mask, length_bytes, mask_bytes}
use hula.Websocket.Parse.{has_mask, header_size, announced, least, parse_frame}
use hula.Websocket.Payload.{k_ntohll-k_htonll, parse_frame-payload}

second_byte :
    (mb : Bool) (l : ℕ)
    → l < 128
    → (bit 128 ((if mb then 128 else 0) + l) ≡ mb) × (((if mb then 128 else 0) + l) % 128 ≡ l)
second_byte mb l h = ground arith

abbrev pub unmasked : Option (ℕ × ℕ × ℕ × ℕ) → List ℕ → List ℕ
unmasked none body = body
unmasked (some q) body = apply_mask (mask_bytes (some q)) 0 body

-- The size of the header that is written.
abbrev pub written_header : Option (ℕ × ℕ × ℕ × ℕ) → ℕ → ℕ
written_header mask len = suc (length (length_bytes (is_some mask) len) + length (mask_bytes mask))

-- What the parse computes of the bytes that are written.
record Reads (mask : Option (ℕ × ℕ × ℕ × ℕ)) (hs len : ℕ) (bs tail : List ℕ) : Type 0 where
  seen_mask : has_mask bs ≡ is_some mask
  seen_size : header_size bs ≡ hs
  seen_length : announced bs ≡ len
  enough : least bs ≤ len
  after : drop (hs) bs ≡ tail
  before : is_some mask ≡ true → take 4 (drop (hs - 4) bs) ≡ mask_bytes mask

abbrev pub written : Option (ℕ × ℕ × ℕ × ℕ) → ℕ → ℕ → List ℕ → List ℕ
written mask first len tail = first ∷ (length_bytes (is_some mask) len ++ (mask_bytes mask ++ tail))

module _ (mb : Bool) (len : ℕ) where
  length_bytes_short : len < 126 → length_bytes mb len ≡ ((if mb then 128 else 0) + len) ∷ []
  length_bytes_short h = rw (lt→ltb len 126 h) refl

  length_bytes_medium :
      126 ≤ len
      → len < 65536
      → length_bytes mb len ≡ ((if mb then 128 else 0) + 126) ∷ (len / 256) ∷ (len % 256) ∷ []
  length_bytes_medium h k =
      rw (le→ltb_false len 126 h, lt→ltb len 65536 k, store16-k_htons true len k) refl

  length_bytes_long :
      65536 ≤ len → length_bytes mb len ≡ ((if mb then 128 else 0) + 127) ∷ k_htonll len
  length_bytes_long h = rw (le→ltb_false len 126 (omega arith), le→ltb_false len 65536 h) refl

length_bytes_short-Reads :
    (mask : Option (ℕ × ℕ × ℕ × ℕ)) (first len : ℕ) (tail : List ℕ)
    → len < 126
    → Reads mask (written_header mask len) len (written mask first len tail) tail
length_bytes_short-Reads none first len tail h =
    let (m, l) = second_byte false len (omega arith) in
    let t = lt→ltb len 126 h in
    rw (length_bytes_short false len h) (record {
      seen_mask = m;
      seen_size = rw (m, l, t) refl;
      seen_length = rw (l, t) refl;
      enough = rw (l, t) (omega arith);
      after = refl;
      before = λ e. absurd cc;
    })
length_bytes_short-Reads (some (a, b, c, d)) first len tail h =
    let (m, l) = second_byte true len (omega arith) in
    let t = lt→ltb len 126 h in
    rw (length_bytes_short true len h) (record {
      seen_mask = m;
      seen_size = rw (m, l, t) refl;
      seen_length = rw (l, t) refl;
      enough = rw (l, t) (omega arith);
      after = refl;
      before = λ e. refl;
    })

length_bytes_medium-Reads :
    (mask : Option (ℕ × ℕ × ℕ × ℕ)) (first len : ℕ) (tail : List ℕ)
    → 126 ≤ len
    → len < 65536
    → Reads mask (written_header mask len) len (written mask first len tail) tail
length_bytes_medium-Reads none first len tail h k = rw (length_bytes_medium false len h k) (record {
  seen_mask = refl;
  seen_size = refl;
  seen_length = omega arith;
  enough = h;
  after = refl;
  before = λ e. absurd cc;
})
length_bytes_medium-Reads (some (a, b, c, d)) first len tail h k =
    rw (length_bytes_medium true len h k) (record {
      seen_mask = refl;
      seen_size = refl;
      seen_length = omega arith;
      enough = h;
      after = refl;
      before = λ e. refl;
    })

length_bytes_long-Reads :
    (mask : Option (ℕ × ℕ × ℕ × ℕ)) (first len : ℕ) (tail : List ℕ)
    → 65536 ≤ len
    → len < 0x1_0000_0000_0000_0000
    → Reads mask (written_header mask len) len (written mask first len tail) tail
unfolding k_htonll store64
length_bytes_long-Reads none first len tail h k = rw (length_bytes_long false len h) (record {
  seen_mask = refl;
  seen_size = refl;
  seen_length = k_ntohll-k_htonll len k;
  enough = h;
  after = refl;
  before = λ e. absurd cc;
})
length_bytes_long-Reads (some (a, b, c, d)) first len tail h k =
    rw (length_bytes_long true len h) (record {
      seen_mask = refl;
      seen_size = refl;
      seen_length = k_ntohll-k_htonll len k;
      enough = h;
      after = refl;
      before = λ e. refl;
    })

written-Reads :
    (mask : Option (ℕ × ℕ × ℕ × ℕ)) (first len : ℕ) (tail : List ℕ)
    → len < 0x1_0000_0000_0000_0000
    → Reads mask (written_header mask len) len (written mask first len tail) tail
written-Reads mask first len tail k = elim (dec_lt len 126) [
  | yes h ↦ length_bytes_short-Reads mask first len tail h
  | no h ↦ elim (dec_lt len 65536) [
    | yes g ↦ length_bytes_medium-Reads mask first len tail (omega arith) g
    | no g ↦ length_bytes_long-Reads mask first len tail (omega arith) k
  ]
]

abbrev pub splits : ℕ → ℕ → ℕ → Bool
splits border hs len = ltb hs border && ltb border (hs + len)

pub length-written :
    (mask : Option (ℕ × ℕ × ℕ × ℕ)) (first len : ℕ) (tail : List ℕ)
    → length (written mask first len tail) ≡ written_header mask len + length tail
length-written mask first len tail = omega (
  arith,
  length-append (length_bytes (is_some mask) len) (mask_bytes mask ++ tail),
  length-append (mask_bytes mask) tail,
)

header_two : (bs : List ℕ) → 2 ≤ header_size bs
header_two bs = ground arith

Reads-unmasked :
    (mask : Option (ℕ × ℕ × ℕ × ℕ)) {hs len : ℕ} {bs tail : List ℕ} (body : List ℕ)
    → Reads mask hs len bs tail
    → (if has_mask bs then apply_mask (take 4 (drop (header_size bs - 4) bs)) 0 body else body)
      ≡ unmasked mask body
Reads-unmasked none body r = rw r.seen_mask refl
Reads-unmasked (some (a, b, c, d)) body r = rw (r.seen_size, r.seen_mask, r.before refl) refl

pub parse_frame-written :
    (mask : Option (ℕ × ℕ × ℕ × ℕ)) (first border : ℕ) (body more : List ℕ)
    → length body < 0x1_0000_0000_0000_0000
    → splits border (written_header mask (length body)) (length body) ≡ false
    → parse_frame border (written mask first (length body) (body ++ more))
      ≡ whole (frame_of first (unmasked mask body)) more
parse_frame-written mask first border body more h s =
    let r = written-Reads mask first (length body) (body ++ more) h in
    let bs = written mask first (length body) (body ++ more) in
    parse_frame-payload bs body more border
      (omega (arith, r.seen_size, length-written mask first (length body) (body ++ more)))
      (rw r.seen_size r.after) (sym r.seen_length) (omega (arith, r.enough, r.seen_length))
      (header_two bs) (rw (r.seen_size, r.seen_length) s)
    ∙ rw (Reads-unmasked mask body r) refl

pub announced-written :
    (mask : Option (ℕ × ℕ × ℕ × ℕ)) (first len : ℕ) (tail : List ℕ)
    → len < 0x1_0000_0000_0000_0000
    → announced (written mask first len tail) ≡ len
announced-written mask first len tail h = (written-Reads mask first len tail h).seen_length
