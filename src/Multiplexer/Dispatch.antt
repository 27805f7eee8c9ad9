-- ===== src/Multiplexer/Dispatch.antt =====
-- What arrives from the other end: `dispatch_data` and `create_new_connection`. In each branch the
-- call of a callback is the last action, so what the callback does to the provider is a step after
-- the packet: the parameter `react`, which also says whether the provider still exists.
use hula.Common.{
  ℕ, ◌+◌, ◌-◌, pos, negsuc, Bool, true, false, not, Option, none, some, List, [], ◌∷◌, length,
  get_or, take, ltb, leb, ◌==◌, if◌then◌else◌, ◌>>=◌, ◌>>◌, assert,
}
use hula.Common.Maps.{find, has, include}
use hula.Buffer.{SharedMem}
use hula.Handshake.{c_string}
use hula.Endian.{load16, k_ntohs}
use hula.Packet.{
  PacketOpcode, write, create_connection, accept_connection, reject_connection, close_connection,
  end_connection, start_read, stop_read, reserved, unnamed, decode_all_packet,
}
use hula.Multiplexer.{
  Callbacks, KmStreamId, StreamId, called, called_read, new_connection, failed, Provider, emit,
  max_connection,
}
use hula.Multiplexer.Streams.{
  init, register_read_callback, register_error_callback, register_close_callback,
  register_end_callback, register_should_start_write_callback, register_should_stop_write_callback,
}
use hula.Multiplexer.Send.{reject}
use hula.Multiplexer.Connect.{settle}

-- The static functions that EBStreamByProvider registers, by number: r_read_callback,
-- r_error_callback, which serves two events, r_end_callback, r_shouldstartwrite_callback and
-- r_shouldstopwrite_callback.
abbrev pub stream_callbacks : Callbacks
stream_callbacks = record {
  read = some 1;
  end = some 3;
  error = some 2;
  close = some 2;
  start_read = some 4;
  stop_read = some 5;
}

-- m_allocator[id], as a StreamId: a missing key makes a null pointer.
abbrev pub as_stream_id : Option (Option KmStreamId) → StreamId
as_stream_id (some (some kid)) = some (record { m_id = kid.m_id; serial = kid.serial })
as_stream_id _ = none

abbrev pub is_stream_opcode : PacketOpcode → Bool
is_stream_opcode write = true
is_stream_opcode end_connection = true
is_stream_opcode start_read = true
is_stream_opcode stop_read = true
is_stream_opcode _ = false

module _ {B : Type 0} where
  unfoldable pub lock_next_id : ℕ → Provider B → Option (Provider B)
  lock_next_id new_id p = do
    assert (not (has new_id p.allocator))
    assert (p.next_id == max_connection)
    some (record p { next_id = new_id })

  -- The constructor of EBStreamByProvider: the object is number `made`.
  unfoldable pub new_stream_object : ℕ → Provider B → Option (ℕ × Provider B)
  new_stream_object draw p = do
    (id, p1) ← init draw (some p.made) (record p { made = p.made + 1 })
    p2 ← register_read_callback id 1 p1
    p3 ← register_error_callback id 2 p2
    p4 ← register_close_callback id 2 p3
    p5 ← register_end_callback id 3 p4
    p6 ← register_should_start_write_callback id 4 p5
    p7 ← register_should_stop_write_callback id 5 p6
    some (p.made, p7)

  -- A call of a registered callback; a null pointer is an error.
  abbrev pub call : Option ℕ → KmStreamId → Provider B → Option (Provider B)
  call none kid p = none
  call (some cb) kid p = some (emit (called cb kid.stream) p)

  abbrev pub call_read : KmStreamId → Option ℕ → B → Provider B → Option (Provider B)
  call_read kid none frame p = none
  call_read kid (some cb) frame p = some (emit (called_read cb kid.stream frame) p)

module _ (mem : SharedMem) (little : Bool) where
  open mem use {Buf, bytes}

  -- The id is in use already.
  unfoldable pub refuse_connection :
      Option (Option KmStreamId) → Provider Buf → Option (Provider Buf)
  refuse_connection (some (some kid)) p = do
    q ← reject mem little (some (record { m_id = kid.m_id; serial = kid.serial })) 2 p
    call kid.callbacks.close kid q
  refuse_connection _ p = none

  -- The port: the last two bytes of the payload.
  abbrev pub requested_port : List ℕ → ℕ
  requested_port bs =
      k_ntohs little (load16 little (get_or bs (length bs - 2) 0) (get_or bs (length bs - 1) 0))

  -- The service takes a std::string, made from a char*: the address up to its first zero.
  unfoldable pub create_new_connection : ℕ → Buf → ℕ → Provider Buf → Option (Provider Buf)
  create_new_connection draw buf nid p =
      if has nid p.allocator
      then refuse_connection (find nid p.allocator) p
      else if ltb (length (bytes buf)) 4
      then reject mem little none 3 p
      else do
        locked ← lock_next_id nid p
        (proxy_obj, made) ← new_stream_object draw locked
        let waiting = record made {
          server_wait_connection = include nid made.server_wait_connection;
        }
        some (
            emit
              (new_connection proxy_obj (as_stream_id (find nid waiting.allocator))
                (c_string (take (length (bytes buf) - 2) (bytes buf))) (requested_port (bytes buf)))
              waiting)

  -- The switch, for an id that is not allocated.
  unfoldable pub dispatch_unknown :
      ℕ → Buf → PacketOpcode → ℕ → Provider Buf → Option (Provider Buf)
  dispatch_unknown draw frame accept_connection id p = some (settle id (pos 0) p)
  dispatch_unknown draw frame reject_connection id p = some (settle id (negsuc 0) p)
  dispatch_unknown draw frame create_connection id p = create_new_connection draw frame id p
  dispatch_unknown draw frame _ id p = some p

  -- The switch, for an id with an object.
  unfoldable pub dispatch_known :
      ℕ → KmStreamId → Buf → PacketOpcode → ℕ → Provider Buf → Option (Provider Buf)
  dispatch_known draw kid frame write id p = call_read kid kid.callbacks.read frame p
  dispatch_known draw kid frame end_connection id p = call kid.callbacks.end kid p
  dispatch_known draw kid frame start_read id p = call kid.callbacks.start_read kid p
  dispatch_known draw kid frame stop_read id p = call kid.callbacks.stop_read kid p
  dispatch_known draw kid frame close_connection id p = call kid.callbacks.close kid p
  dispatch_known draw kid frame accept_connection id p = some (settle id (pos 0) p)
  dispatch_known draw kid frame reject_connection id p = some (settle id (negsuc 0) p)
  dispatch_known draw kid frame create_connection id p = create_new_connection draw frame id p
  dispatch_known draw kid frame reserved id p = some p
  dispatch_known draw kid frame (unnamed n) id p = some p

  abbrev pub dispatch_found :
      Option (Option KmStreamId) → ℕ → Buf → PacketOpcode → ℕ → Provider Buf → Option (Provider Buf)
  dispatch_found none draw frame opcode id p =
      if is_stream_opcode opcode then some p else dispatch_unknown draw frame opcode id p
  dispatch_found (some none) draw frame opcode id p = none
  dispatch_found (some (some kid)) draw frame opcode id p =
      dispatch_known draw kid frame opcode id p

  -- The body of the loop in `dispatch_data`.
  unfoldable pub dispatch_packet : ℕ → Buf × PacketOpcode × ℕ → Provider Buf → Option (Provider Buf)
  dispatch_packet draw (frame, opcode, id) p =
      dispatch_found (find id p.allocator) draw frame opcode id p

  -- After a packet: the callback's own actions, and whether the provider is still there.
  unfoldable pub dispatch_packets :
      (draw : Provider Buf → ℕ) (react : Provider Buf → Option (Bool × Provider Buf))
      → List (Buf × PacketOpcode × ℕ)
      → Provider Buf
      → Option (Provider Buf)
  dispatch_packets draw react [] p = some p
  dispatch_packets draw react (x ∷ xs) p = do
    q ← dispatch_packet (draw p) x p
    (exists, r) ← react q
    if exists then dispatch_packets draw react xs r else some r

  unfoldable pub dispatch_data :
      (draw : Provider Buf → ℕ) (react : Provider Buf → Option (Bool × Provider Buf))
      → Buf
      → Provider Buf
      → Option (Provider Buf)
  dispatch_data draw react buf p = do
    all ← decode_all_packet mem little p.remain buf
    let p' = record p { remain = all.rest }
    if not all.ok then some (emit failed p') else dispatch_packets draw react all.packets p'

  unfoldable pub full : Provider Buf → Bool
  full p = leb 32 (length p.allocator)

  unfoldable pub get_connection_numbers : Provider Buf → ℕ
  get_connection_numbers p = length p.allocator
