-- ===== src/Websocket/Session.antt =====
-- An object of class WebSocketCommon (lib/websocket.cpp): the frames that are read, the messages and
-- control frames that are sent, and the state of the connection. A listener that is called does
-- nothing to the object. The return value of a send is left out; it is `excess` of the state after it.
use hula.Common.{
  ℕ, ◌+◌, ◌-◌, ◌*◌, ℤ, sub_ℕ, is_negative, Bool, true, false, ◌&&◌, not, Option, none, some, List,
  [], ◌∷◌, ◌++◌, length, get_or, drop, ltb, ◌==◌, if◌then◌else◌, ◌>>=◌, ◌>>◌, assert,
}
use hula.Buffer.{SharedMem}
use hula.Endian.{k_htons, store16}
use hula.Websocket.{
  Frame, WebsocketOpcode, continue, text, binary, close, ping, pong, unnamed, size,
  form_frame_header, extract_multi_frame_from_data,
}

-- enum WebsocketState; `CONNECTING` is never assigned
pub data State : Type 0 where
  opened closing closed : State

pub data Failure : Type 0 where
  write_error invalid_packet double_close close_without_reason unexpected_continue : Failure

-- The events that are emitted, and the calls of `_write`.
pub data Effect (B : Type 0) : Type 0 where
  fragment : Frame B → Effect B
  message_event : B → Effect B
  text_event : List ℕ → Effect B
  end_event : ℤ → List ℕ → Effect B
  ping_event pong_event : B → Effect B
  error_event : Failure → Effect B
  drain_event : Effect B
  close_event : Bool → Effect B
  wrote : B → Effect B

pub record WebSocketCommon (B : Type 0) : Type 0 where
  pub state : State
  pub save_fragment : Bool
  pub masked : Bool
  pub recieve_end : Bool
  pub remain : B
  pub fragments : B
  pub save_binary : Bool
  pub write_buffer_size : ℕ
  pub read_buffer_size : ℕ
  pub log : List (Effect B)

-- WS_MAX_WRITE_BUFFER_SIZE
abbrev pub max_write_buffer_size : ℕ
max_write_buffer_size = 1048576

-- std::string(char*): up to the first zero
unfoldable pub c_string : List ℕ → List ℕ
c_string [] = []
c_string (c ∷ s) = let rest = c_string s in if c == 0 then [] else c ∷ rest

-- `base()[0] * 0xff + base()[1]`, of signed bytes
unfoldable pub read_status : ℕ → ℕ → ℤ
read_status a b =
    sub_ℕ ((if ltb a 128 then a * 255 else 0) + (if ltb b 128 then b else 0))
      ((if ltb a 128 then 0 else (256 - a) * 255) + (if ltb b 128 then 0 else 256 - b))

-- The assertion of send, sendText, ping and pong.
unfoldable pub may_send : State → Bool → Bool
may_send opened recieve_end = true
may_send closing recieve_end = false
may_send closed recieve_end = recieve_end

unfoldable pub is_closed : State → Bool
is_closed opened = false
is_closed closing = false
is_closed closed = true

module _ {B : Type 0} where
  abbrev pub emit : Effect B → WebSocketCommon B → WebSocketCommon B
  emit e w = record w { log = w.log ++ (e ∷ []) }

  unfoldable pub close_socket : WebSocketCommon B → WebSocketCommon B
  close_socket w = record (emit (close_event (is_closed w.state)) w) { state = closed }

  -- `write_callback` of an object that exists, for a write of `n` bytes
  unfoldable pub write_callback : ℕ → ℤ → WebSocketCommon B → WebSocketCommon B
  write_callback n status w =
      let w' = record w { write_buffer_size = w.write_buffer_size - n } in
      if is_negative status
      then emit (error_event write_error) w'
      else if ltb max_write_buffer_size (w'.write_buffer_size + n)
          && ltb w'.write_buffer_size max_write_buffer_size
      then emit drain_event w'
      else w'

-- The assertions and the new state of `end`.
unfoldable pub end_state : State → Bool → Option State
end_state opened recieve_end = some closing
end_state closing true = some closed
end_state closing false = none
end_state closed recieve_end = none

-- What `write_wrapper` returns.
abbrev pub excess : ℕ → ℕ
excess n = n - max_write_buffer_size

module _ (mem : SharedMem) where
  open mem use {Buf, bytes, empty, join, copy}

  -- The constructor. `m_save_binary` is not set; it is read after it was.
  unfoldable pub new_websocket : Bool → Bool → WebSocketCommon Buf
  new_websocket masked save_fragment = record {
    state = opened;
    save_fragment = save_fragment;
    masked = masked;
    recieve_end = false;
    remain = empty;
    fragments = empty;
    save_binary = false;
    write_buffer_size = 0;
    read_buffer_size = 0;
    log = [];
  }

  unfoldable pub write_wrapper : Buf → WebSocketCommon Buf → WebSocketCommon Buf
  write_wrapper buf w =
      emit (wrote buf) (record w { write_buffer_size = w.write_buffer_size + size mem buf })

  -- A message in one frame.
  abbrev pub deliver : Bool → Buf → WebSocketCommon Buf → WebSocketCommon Buf
  deliver is_binary message w =
      if is_binary
      then emit (message_event message) w
      else emit (text_event (c_string (bytes message))) w

  -- The cases Binary and Text; `true` is for a handler that goes on to the next packet, `false` for
  -- one that returns.
  unfoldable pub read_message : Bool → Frame Buf → WebSocketCommon Buf → WebSocketCommon Buf × Bool
  read_message is_binary f w0 =
      let w = emit (fragment f) w0 in
      if f.fin
      then (deliver is_binary f.message w, true)
      else if not w.save_fragment
      then (w, true)
      else if not (size mem w.remain == 0)
      then (emit (error_event invalid_packet) w, false)
      else (record w { fragments = join w.fragments f.message; save_binary = is_binary }, true)

  unfoldable pub read_close : Frame Buf → WebSocketCommon Buf → WebSocketCommon Buf × Bool
  read_close f w =
      let m = bytes f.message in
      if w.recieve_end
      then (emit (error_event double_close) w, false)
      else if ltb (length m) 2
      then (emit (error_event close_without_reason) w, false)
      else (
        emit (end_event (read_status (get_or m 0 0) (get_or m 1 0)) (c_string (drop 2 m)))
            (record w { recieve_end = true; state = closing }),
        true,
      )

  unfoldable pub read_continue : Frame Buf → WebSocketCommon Buf → WebSocketCommon Buf × Bool
  read_continue f w0 =
      let w = emit (fragment f) w0 in
      let w' = record w { fragments = join w.fragments f.message } in
      if not w.save_fragment
      then (w, true)
      else if size mem w.fragments == 0
      then (emit (error_event unexpected_continue) w, false)
      else if f.fin
      then (record (deliver w'.save_binary w'.fragments w') { fragments = empty }, true)
      else (w', true)

  abbrev pub read_packet_as :
      WebsocketOpcode → Frame Buf → WebSocketCommon Buf → WebSocketCommon Buf × Bool
  read_packet_as binary f w = read_message true f w
  read_packet_as text f w = read_message false f w
  read_packet_as close f w = read_close f w
  read_packet_as ping f w = (emit (ping_event f.message) w, true)
  read_packet_as pong f w = (emit (pong_event f.message) w, true)
  read_packet_as continue f w = read_continue f w
  read_packet_as (unnamed n) f w = (emit (fragment f) w, true)

  -- The body of the loop on the packets.
  unfoldable pub read_packet : Frame Buf → WebSocketCommon Buf → WebSocketCommon Buf × Bool
  read_packet f w = read_packet_as f.opcode f w

  unfoldable pub read_packets : List (Frame Buf) → WebSocketCommon Buf → WebSocketCommon Buf
  read_packets [] w = w
  read_packets (f ∷ fs) w =
      let r = read_packet f w in let rest = read_packets fs r.0 in if r.1 then rest else r.0

  unfoldable pub read_callback : Buf → ℤ → WebSocketCommon Buf → Option (WebSocketCommon Buf)
  read_callback buf status w0 =
      let w = record w0 { read_buffer_size = w0.read_buffer_size + size mem buf } in
      if is_negative status
      then some (emit (error_event write_error) w)
      else extract_multi_frame_from_data mem w.remain buf >>= λ x.
          some (read_packets x.0 (record w { remain = x.1 }))

  -- `draw` is what the random engine gives; it is used only with a mask.
  unfoldable pub send_fragment :
      Bool
      → WebsocketOpcode
      → Bool
      → Buf
      → ℕ × ℕ × ℕ × ℕ
      → WebSocketCommon Buf
      → Option (WebSocketCommon Buf)
  send_fragment fin opcode mask msg draw w = do
    sent ← form_frame_header mem fin opcode (if mask then some draw else none) msg false false false
    some (write_wrapper sent.1 (write_wrapper sent.0 w))

  abbrev pub send_checked :
      WebsocketOpcode → Buf → ℕ × ℕ × ℕ × ℕ → WebSocketCommon Buf → Option (WebSocketCommon Buf)
  send_checked opcode msg draw w = do
    assert (may_send w.state w.recieve_end)
    send_fragment true opcode w.masked msg draw w

  unfoldable pub send : Buf → ℕ × ℕ × ℕ × ℕ → WebSocketCommon Buf → Option (WebSocketCommon Buf)
  send buf draw w = send_checked binary buf draw w

  -- The text goes out with a zero behind it.
  unfoldable pub send_text :
      List ℕ → ℕ × ℕ × ℕ × ℕ → WebSocketCommon Buf → Option (WebSocketCommon Buf)
  send_text str draw w = send_checked text (copy (str ++ (0 ∷ []))) draw w

  unfoldable pub send_ping : ℕ × ℕ × ℕ × ℕ → WebSocketCommon Buf → Option (WebSocketCommon Buf)
  send_ping draw w = send_checked ping empty draw w

  unfoldable pub send_pong : ℕ × ℕ × ℕ × ℕ → WebSocketCommon Buf → Option (WebSocketCommon Buf)
  send_pong draw w = send_checked pong empty draw w

  unfoldable pub send_end :
      ℕ → List ℕ → ℕ × ℕ × ℕ × ℕ → WebSocketCommon Buf → Option (WebSocketCommon Buf)
  send_end status_code reason draw w = do
    s ← end_state w.state w.recieve_end
    send_fragment true close w.masked (copy (store16 true (k_htons true status_code) ++ reason))
        draw (record w { state = s })
