-- ===== src/Websocket/Progress.antt =====
-- The loop over frames on any bytes: what the rounds take and leave.
use hula.Common.{ℕ, zero, suc, ◌+◌, ◌<◌, ◌≡◌, some, List, [], ◌++◌, length, All}
use hula.Buffer.{SharedMem}
use hula.Endian.{IsByte}
use hula.Websocket.{Frame, Extracted, part, whole, extract_loop}
use hula.Websocket.Parse.{announced, parse_frame}

-- What has to hold of the rest, if a frame was found.
abbrev pub AfterParse : Extracted (List ℕ) → (List ℕ → Type 0) → Type 0
AfterParse (part r) P = Unit
AfterParse (whole f r) P = P r

-- Wherever a frame is looked for in the bytes, at most `fuel` times, its length leaves room below
-- 2^64; the border is the number of bytes that came with earlier reads.
abbrev pub Modest : ℕ → ℕ → List ℕ → Type 0
Modest zero border bs = Unit
Modest (suc fuel) border bs =
    (announced bs + 14 < 0x1_0000_0000_0000_0000)
    × AfterParse (parse_frame border bs) (λ r. Modest fuel (length r) r)

rest_of : Extracted (List ℕ) → List ℕ
rest_of (part r) = []
rest_of (whole f r) = r

module _ (mem : SharedMem) where
  open mem use {Buf, bytes, empty, bytes-empty}

  -- The loop returns, on these two buffers.
  abbrev Stops : ℕ → Buf → Buf → Type 0
  Stops fuel remain income =
      (first : List (Frame Buf))
      → (x : List (Frame Buf) × Buf) × (extract_loop mem fuel remain income first ≡ some x)

  abbrev Within : ℕ → Buf → Buf → Type 0
  Within fuel remain income =
      All IsByte (bytes remain ++ bytes income)
      × Modest fuel (length (bytes remain)) (bytes remain ++ bytes income)
      × (length (bytes remain ++ bytes income) < fuel)
