-- ===== src/Multiplexer/Ask.antt =====
-- A connection that a client asks for: what `connect` puts on the wire.
use mathlib.Core.Option
use hula.Common.{
  ℕ, ◌+◌, ◌/◌, ◌%◌, ◌<◌, ◌≡◌, ap, ◌∙◌, Bool, none, some, List, [], ◌∷◌, ◌++◌, length, length-append,
  append-nil, ==_refl, arith,
}
use hula.Common.Maps.{find, insert, has, find-insert}
use hula.Buffer.{SharedMem}
use hula.Endian.{store16, k_htons, store16-k_htons}
use hula.Packet.{create_connection, code, encode_packet}
use hula.Packet.RoundTrip.{named_code, wire, encode_packet-wire}
use hula.Multiplexer.{
  KmStreamId, StreamId, new_connection_write, wrote_buffer, set_timeout, Provider, emit,
  new_connection_timeout,
}
use hula.Multiplexer.Streams.{get_kid}
use hula.Multiplexer.Send.{write_buffer}
use hula.Multiplexer.Connect.{connect}
use hula.Multiplexer.Delivery.{sent, sent-append}

module _ (mem : SharedMem) (little : Bool) where
  open mem use {Buf, bytes, copy, bytes-copy}

  -- `connect` on an open stream that does not wait for a connection returns. The bytes that it adds
  -- to the connection are one frame of opcode CREATE_CONNECTION with the number of the stream, whose
  -- payload is the address and then the port, high byte first; and the callback waits under that
  -- number. The number is below 64, the port below 65536, and the payload shorter than 2^32.
  pub connect-wire :
      (id : StreamId) (kid : KmStreamId) (addr : List ℕ) (port cb : ℕ) (p : Provider Buf)
      → get_kid id p ≡ some kid
      → kid.m_id < 64
      → find kid.m_id p.client_wait_connection ≡ none
      → port < 65536
      → length addr + 2 < 0x1_0000_0000
      → (q : Provider Buf) × (connect mem little id addr port cb p ≡ some q)
        × (sent mem little q.log
            ≡ sent mem little p.log
              ++ wire (code create_connection) kid.m_id (addr ++ (port / 256 ∷ port % 256 ∷ [])))
        × (find kid.m_id q.client_wait_connection ≡ some cb)
  unfolding connect has write_buffer
  connect-wire id kid addr port cb p e small idle port_small short =
      let payload = copy (addr ++ store16 little (k_htons little port)) in
      let content : bytes payload ≡ addr ++ (port / 256 ∷ port % 256 ∷ []) =
        bytes-copy (addr ++ store16 little (k_htons little port))
        ∙ rw (store16-k_htons little port port_small) in
      let n : length (bytes payload) < 0x1_0000_0000 =
        rw content (omega (arith, length-append addr (port / 256 ∷ port % 256 ∷ []))) in
      let (buf, made, v) =
        (Option.map-eq-some_iff bytes
            (encode_packet mem little create_connection kid.m_id payload)).0
          (encode_packet-wire mem little create_connection kid.m_id payload
            (named_code create_connection tt) small n) in
      let cbs = insert kid.m_id cb p.client_wait_connection in
      (
        emit (set_timeout kid.m_id new_connection_timeout) (
            emit (wrote_buffer buf (new_connection_write kid.m_id))
              (record p { client_wait_connection = cbs })),
        rw (e, made, idle),
        sent-append mem little (p.log ++ (wrote_buffer buf (new_connection_write kid.m_id) ∷ []))
              (set_timeout kid.m_id new_connection_timeout ∷ [])
            ∙ append-nil _
            ∙ sent-append mem little p.log (wrote_buffer buf (new_connection_write kid.m_id) ∷ [])
            ∙ ap (λ b. sent mem little p.log ++ b) (append-nil (bytes buf) ∙ v)
            ∙ ap (λ b. sent mem little p.log ++ wire (code create_connection) kid.m_id b) content,
        find-insert kid.m_id kid.m_id cb p.client_wait_connection ∙ rw (==_refl kid.m_id),
      )
