-- ===== src/Websocket/Loop.antt =====
-- `extractMultiFrameFromData` on a stream of frames.
use mathlib.Core.Option
use hula.Common.{ℕ, ◌+◌, ◌<◌, Bool, false, Option, List, [], ◌∷◌, ◌++◌, map, length, All}
use hula.Buffer.{SharedMem}
use hula.Endian.{IsByte}
use hula.Websocket.{Frame, Extracted, part, whole, frame_of, mask_bytes}
use hula.Websocket.Written.{splits, written_header}
use hula.Websocket.RoundTrip.{IsNamed, wire}

-- A frame that the peer sends, and the mask that it draws.
abbrev pub Sent : Type 0
Sent = Frame (List ℕ) × Option (ℕ × ℕ × ℕ × ℕ)

abbrev pub frame_wire : Sent → List ℕ
frame_wire (f, m) = wire f.fin f.opcode m f.message f.rsv1 f.rsv2 f.rsv3

abbrev pub IsSent : Sent → Type 0
IsSent (f, m) =
    IsNamed f.opcode
    × All IsByte (mask_bytes m)
    × All IsByte f.message
    × (length f.message + 14 < 0x1_0000_0000_0000_0000)

abbrev pub stream : List Sent → List ℕ
stream [] = []
stream (s ∷ ss) = frame_wire s ++ stream ss

abbrev pub splits_first : ℕ → List Sent → Bool
splits_first border [] = false
splits_first border ((f, m) ∷ ss) =
    splits border (written_header m (length f.message)) (length f.message)

-- The frame and the rest of what was extracted; of a part, there is no frame.
frame_part : Extracted (List ℕ) → Frame (List ℕ)
frame_part (part r) = frame_of 0 r
frame_part (whole f r) = f

rest_part : Extracted (List ℕ) → List ℕ
rest_part (part r) = r
rest_part (whole f r) = r

module _ (mem : SharedMem) where
  open mem use {Buf, bytes, empty, bytes-empty}

  abbrev pub view_frame : Frame Buf → Frame (List ℕ)
  view_frame f = record {
    fin = f.fin;
    opcode = f.opcode;
    message = bytes f.message;
    rsv1 = f.rsv1;
    rsv2 = f.rsv2;
    rsv3 = f.rsv3;
  }

  abbrev pub view_frames : List (Frame Buf) × Buf → List (Frame (List ℕ)) × List ℕ
  view_frames (fs, r) = (map view_frame fs, bytes r)
