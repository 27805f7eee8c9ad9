-- ===== src/Multiplexer/Connect.antt =====
-- Connections: asked for by a client, answered by a server, and closed on either side.
use hula.Common.{
  ℕ, ℤ, pos, negsuc, is_negative, Bool, true, false, not, Option, none, some, List, ◌++◌,
  if◌then◌else◌, ◌>>=◌, ◌>>◌, assert,
}
use hula.Common.Maps.{find, insert, erase, has, contains, exclude}
use hula.Buffer.{SharedMem}
use hula.Endian.{store16, k_htons}
use hula.Packet.{create_connection, encode_packet}
use hula.Multiplexer.{
  StreamId, WriteCallback, no_callback, client_write, written, failed, new_connection_write,
  set_timeout, connected, Provider, emit, new_connection_timeout,
}
use hula.Multiplexer.Streams.{get_kid, finish}
use hula.Multiplexer.Send.{write_buffer, close_other_end, accept, reject}

module _ {B : Type 0} where
  -- Take a waiting connection out of the table and call its callback, if there is one.
  abbrev pub settle_found : Option ℕ → ℕ → ℤ → Provider B → Provider B
  settle_found none id status p = p
  settle_found (some cb) id status p =
      emit (connected cb status)
        (record p { client_wait_connection = erase id p.client_wait_connection })

  -- What the write callback, the timeout, ACCEPT, REJECT and `closeStream` have in common.
  unfoldable pub settle : ℕ → ℤ → Provider B → Provider B
  settle id status p = settle_found (find id p.client_wait_connection) id status p

  unfoldable pub new_connection_write_callback : ℕ → ℤ → Provider B → Provider B
  new_connection_write_callback id status p =
      if is_negative status then settle id (negsuc 0) p else p

  -- The callback that a write carries, if it is not null. Without the provider that of a new
  -- connection does nothing.
  unfoldable pub call_write_callback : Bool → WriteCallback → ℤ → Provider B → Provider B
  call_write_callback run no_callback status p = p
  call_write_callback run (client_write cb) status p = emit (written cb status) p
  call_write_callback true (new_connection_write id) status p =
      new_connection_write_callback id status p
  call_write_callback false (new_connection_write id) status p = p

  -- `run` says whether the provider still exists.
  unfoldable pub buffer_write_callback : Bool → ℤ → WriteCallback → Provider B → Provider B
  buffer_write_callback run status cb p =
      if not run
      then call_write_callback run cb (negsuc 0) p
      else if is_negative status
      then emit failed (call_write_callback run cb (negsuc 0) p)
      else call_write_callback run cb (pos 0) p

  unfoldable pub new_connection_timeout_callback : ℕ → Provider B → Provider B
  new_connection_timeout_callback id p = settle id (negsuc 0) p

module _ (mem : SharedMem) (little : Bool) where
  open mem use {Buf, bytes, copy}

  -- connect to `addr` and `port`; `cb` is the callback with its data
  unfoldable pub connect : StreamId → List ℕ → ℕ → ℕ → Provider Buf → Option (Provider Buf)
  connect id addr port cb p = do
    kid ← get_kid id p
    let buf = copy (addr ++ store16 little (k_htons little port))
    send_buf ← encode_packet mem little create_connection kid.m_id buf
    assert (not (has kid.m_id p.client_wait_connection))
    let waiting = record p { client_wait_connection = insert kid.m_id cb p.client_wait_connection }
    let sent = write_buffer mem little send_buf (new_connection_write kid.m_id) waiting
    some (emit (set_timeout kid.m_id new_connection_timeout) sent)

  unfoldable pub create_connection_success : StreamId → Provider Buf → Option (Provider Buf)
  create_connection_success id p = do
    kid ← get_kid id p
    assert (contains kid.m_id p.server_wait_connection)
    accept mem little id
        (record p { server_wait_connection = exclude kid.m_id p.server_wait_connection })

  unfoldable pub create_connection_fail : StreamId → ℕ → Provider Buf → Option (Provider Buf)
  create_connection_fail id reason p = do
    kid ← get_kid id p
    assert (contains kid.m_id p.server_wait_connection)
    reject mem little id reason
        (record p { server_wait_connection = exclude kid.m_id p.server_wait_connection })

  unfoldable pub close_stream : StreamId → Provider Buf → Option (Provider Buf)
  close_stream id p = do
    kid ← get_kid id p
    finished ← finish kid.stream p
    told ← close_other_end mem little id (settle kid.m_id (negsuc 0) finished)
    let gone = record told { allocator = erase kid.m_id told.allocator }
    (if contains kid.m_id gone.server_wait_connection
        then create_connection_fail id 1 gone
        else some gone)
