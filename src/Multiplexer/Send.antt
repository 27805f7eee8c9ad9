-- ===== src/Multiplexer/Send.antt =====
-- What the provider writes: headers, whole buffers, packets with no payload; and the callbacks of
-- those of headers. `status` is the outcome of a write.
use hula.Common.{ℕ, ℤ, is_negative, Bool, Option, some, length, if◌then◌else◌, ◌>>=◌}
use hula.Buffer.{SharedMem}
use hula.Packet.{
  PacketOpcode, write, accept_connection, reject_connection, close_connection, end_connection,
  start_read, stop_read, encode_packet_header,
}
use hula.Multiplexer.{StreamId, WriteCallback, wrote_header, wrote_buffer, failed, Provider, emit}
use hula.Multiplexer.Streams.{get_kid}

module _ (mem : SharedMem) (little : Bool) where
  open mem use {Buf, bytes}

  unfoldable pub write_header : Buf → Provider Buf → Provider Buf
  write_header header p = emit (wrote_header header) p

  unfoldable pub write_buffer : Buf → WriteCallback → Provider Buf → Provider Buf
  write_buffer buf cb p = emit (wrote_buffer buf cb) p

  -- KProxyMultiplexerStreamProvider::write
  unfoldable pub write_stream :
      StreamId → Buf → WriteCallback → Provider Buf → Option (Provider Buf)
  unfolding write_header write_buffer
  write_stream id buf cb p = do
    kid ← get_kid id p
    header ← encode_packet_header mem little write kid.m_id (length (bytes buf))
    some (write_buffer buf cb (write_header header p))

  -- header_write_callback, of a provider that exists
  unfoldable pub header_write_callback : ℤ → Provider Buf → Provider Buf
  header_write_callback status p = if is_negative status then emit failed p else p

  unfoldable pub send_zero_packet : StreamId → PacketOpcode → Provider Buf → Option (Provider Buf)
  unfolding write_header
  send_zero_packet id opcode p = do
    kid ← get_kid id p
    header ← encode_packet_header mem little opcode kid.m_id 0
    some (write_header header p)

  unfoldable pub start_reading : StreamId → Provider Buf → Option (Provider Buf)
  start_reading id = send_zero_packet id start_read

  unfoldable pub stop_reading : StreamId → Provider Buf → Option (Provider Buf)
  stop_reading id = send_zero_packet id stop_read

  unfoldable pub close_other_end : StreamId → Provider Buf → Option (Provider Buf)
  close_other_end id = send_zero_packet id close_connection

  unfoldable pub accept : StreamId → Provider Buf → Option (Provider Buf)
  accept id = send_zero_packet id accept_connection

  -- The reason is not sent.
  unfoldable pub reject : StreamId → ℕ → Provider Buf → Option (Provider Buf)
  reject id reason = send_zero_packet id reject_connection

  -- The callback of `end` is not called.
  unfoldable pub end_stream : StreamId → Provider Buf → Option (Provider Buf)
  end_stream id = send_zero_packet id end_connection
