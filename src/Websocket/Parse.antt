-- ===== src/Websocket/Parse.antt =====
-- The reference for the decoder of frames: a parse of contiguous bytes. The border is the number of
-- bytes that came with earlier reads; it matters in one place only, when it lies within the payload.
use hula.Common.{
  ℕ, ◌+◌, ◌-◌, ◌*◌, ◌%◌, Bool, ◌&&◌, List, length, get_or, take, drop, ltb, ◌==◌, if◌then◌else◌,
}
use hula.Websocket.{Extracted, part, whole, base_size, bit, frame_of, k_ntohll, unmask_at}

abbrev pub has_mask : List ℕ → Bool
has_mask bs = bit 128 (get_or bs 1 0)

abbrev pub len1 : List ℕ → ℕ
len1 bs = get_or bs 1 0 % 128

abbrev pub header_size : List ℕ → ℕ
header_size bs =
    (if has_mask bs then base_size + 4 else base_size)
    + (if ltb (len1 bs) 126 then 0 else if len1 bs == 126 then 2 else 8)

-- The length of the payload: 7 bits, 16 bits or 64 bits, high byte first.
abbrev pub announced : List ℕ → ℕ
announced bs =
    if ltb (len1 bs) 126
    then len1 bs
    else if len1 bs == 126
    then 256 * get_or bs 2 0 + get_or bs 3 0
    else k_ntohll (take 8 (drop 2 bs))

-- A frame with an extended length is not looked at before this much of a payload is there.
abbrev pub least : List ℕ → ℕ
least bs = if ltb (len1 bs) 126 then 0 else if len1 bs == 126 then 126 else 65536

-- The bytes with the mask taken off the payload.
abbrev pub cleared : List ℕ → List ℕ
cleared bs =
    if has_mask bs
    then unmask_at (take 4 (drop (header_size bs - 4) bs)) 0 (header_size bs) (announced bs) bs
    else bs

abbrev pub splits_payload : ℕ → List ℕ → Bool
splits_payload border bs = ltb (header_size bs) border && ltb border (header_size bs + announced bs)

abbrev pub parse_frame : ℕ → List ℕ → Extracted (List ℕ)
parse_frame border bs =
    if ltb (length bs) base_size
    then part bs
    else if ltb (length bs) (header_size bs + least bs)
    then part bs
    else if ltb (length bs) (announced bs + header_size bs)
    then part bs
    else whole (frame_of (get_or bs 0 0) (take (announced bs) (drop (header_size bs) (cleared bs))))
        (if splits_payload border bs
          then drop border (cleared bs)
          else drop (header_size bs + announced bs) (cleared bs))
