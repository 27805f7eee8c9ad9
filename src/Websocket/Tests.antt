-- ===== src/Websocket/Tests.antt =====
-- The theorems on WebSocket at concrete input.
use mathlib.Core.Option
use hula.Common.{ℕ, ◌≡◌, refl, pos, true, false, some, List, [], ◌∷◌, ◌++◌, map, arith}
use hula.Buffer.{list_mem}
use hula.Websocket.{
  Frame, text, opcode_cast, extract_frame_from_data, extract_multi_frame_from_data, fill_header,
  fill_field, cut_frame, extract_payload, frame_of, after_frame, extract_loop,
}
use hula.Websocket.Messages.{
  plain_frame, fragments_of, message_of, contents, read_packets-fragments_of,
}
use hula.Websocket.Closing.{Operation, arrives, closes, run, step}
use hula.Websocket.Session.{
  WebSocketCommon, closed, end_event, error_event, double_close, close_event, fragment,
  new_websocket, read_packets, read_packet, read_close, read_callback, read_status, c_string,
  close_socket, is_closed,
}

-- "Hi" under a mask, and then the first byte of another frame
abbrev mask : ℕ × ℕ × ℕ × ℕ
mask = (0x37, 0xfa, 0x21, 0x3d)

abbrev hi : List ℕ
hi = 72 ∷ 105 ∷ []

abbrev on_wire : List ℕ
on_wire = 0x81 ∷ 0x82 ∷ 0x37 ∷ 0xfa ∷ 0x21 ∷ 0x3d ∷ 0x7f ∷ 0x93 ∷ []

abbrev greeting : Frame (List ℕ)
greeting = plain_frame true text hi

abbrev saving : WebSocketCommon (List ℕ)
saving = new_websocket list_mem false true

read_packets-fragments_of_example :
    (joined : List ℕ) × (joined ≡ hi ++ (contents list_mem (hi ∷ []) ++ hi))
    × (read_packets list_mem (fragments_of false hi (hi ∷ []) hi) saving ≡ record saving {
      fragments = [];
      save_binary = false;
      log =
          map (λ (f : Frame (List ℕ)). fragment f) (fragments_of false hi (hi ∷ []) hi)
          ++ (message_of false joined joined ∷ []);
    })
unfolding new_websocket
read_packets-fragments_of_example =
    read_packets-fragments_of list_mem false hi (hi ∷ []) hi saving refl refl refl
      (λ e. absurd (omega (arith, e)))

-- A Close frame with the status 1000 arrives twice.
abbrev close_frame : List ℕ
close_frame = 0x88 ∷ 0x02 ∷ 0x03 ∷ 0xe8 ∷ []

abbrev closing_run : List (Operation (List ℕ))
closing_run = arrives (close_frame ++ close_frame) (pos 0) ∷ closes ∷ []

abbrev after_closing : WebSocketCommon (List ℕ)
after_closing = record {
  state = closed;
  save_fragment = true;
  masked = false;
  recieve_end = true;
  remain = [];
  fragments = [];
  save_binary = false;
  write_buffer_size = 0;
  read_buffer_size = 8;
  log = end_event (pos 741) [] ∷ error_event double_close ∷ close_event false ∷ [];
}

closing_runs : run list_mem closing_run (new_websocket list_mem false true) ≡ some after_closing
unfolding run step read_callback extract_multi_frame_from_data extract_loop extract_frame_from_data
    after_frame extract_payload fill_header fill_field cut_frame frame_of opcode_cast read_packets
    read_packet read_close read_status c_string close_socket is_closed new_websocket
closing_runs = refl
