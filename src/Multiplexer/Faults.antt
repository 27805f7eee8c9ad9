-- ===== src/Multiplexer/Faults.antt =====
-- Requests that end the process: an assertion fails.
use mathlib.Core.Option
use hula.Common.{
  ℕ, ◌≡◌, refl, ap, ◌∙◌, Bool, true, false, Option, none, some, length, ◌<◌, ==_refl, negsuc, ℤ,
  inl, inr, lt→ltb, Option-cases, arith,
}
use hula.Common.Maps.{find, erase, has, contains, exclude, find-erase, contains-exclude}
use hula.Buffer.{SharedMem}
use hula.Packet.{create_connection, close_connection, encode_packet_header}
use hula.Packet.RoundTrip.{named_code, encode_packet_header-wire}
use hula.Multiplexer.{KmStreamId, Handle, Provider}
use hula.Multiplexer.Streams.{get_kid, finish, locked, unlock, same_object}
use hula.Multiplexer.Send.{write_header, reject, send_zero_packet, close_other_end}
use hula.Multiplexer.Connect.{settle, close_stream, create_connection_fail}
use hula.Multiplexer.Settle.{settle-allocator}
use hula.Multiplexer.Dispatch.{create_new_connection, dispatch_packet, dispatch_unknown}

module _ (mem : SharedMem) (little : Bool) where
  open mem use {Buf, bytes}

  -- A CREATE_CONNECTION whose payload is shorter than four bytes, for an id that is not in use, makes
  -- an assertion fail, whatever the state is otherwise: the rejection is sent through a null id.
  pub dispatch_packet-short_request :
      (draw : ℕ) (frame : Buf) (id : ℕ) (p : Provider Buf)
      → find id p.allocator ≡ none
      → length (bytes frame) < 4
      → dispatch_packet mem little draw (frame, create_connection, id) p ≡ none
  unfolding dispatch_packet dispatch_unknown create_new_connection has reject send_zero_packet
      get_kid
  dispatch_packet-short_request draw frame id p e lt = rw (e, e, lt→ltb _ _ lt)

  close_other_end-waiting :
      (id : Option Handle) (p q : Provider Buf)
      → close_other_end mem little id p ≡ some q
      → q.server_wait_connection ≡ p.server_wait_connection
  unfolding close_other_end send_zero_packet write_header
  close_other_end-waiting id p q e = ground (arith, e)

  settle-waiting :
      (id : ℕ) (status : ℤ) (p : Provider Buf)
      → (settle id status p).server_wait_connection ≡ p.server_wait_connection
  unfolding settle
  settle-waiting id status p = elim (Option-cases (find id p.client_wait_connection)) [
    | inl e ↦ rw e
    | inr (cb, e) ↦ rw e
  ]

  get_kid-erase :
      (h : Handle) (p : Provider Buf)
      → get_kid (some h) (record p { allocator = erase h.m_id p.allocator }) ≡ none
  unfolding get_kid
  get_kid-erase h p = rw (find-erase h.m_id h.m_id p.allocator, ==_refl h.m_id)

  create_connection_fail-erase :
      (h : Handle) (p : Provider Buf)
      → create_connection_fail mem little
          (some h)
          1
          (record p { allocator = erase h.m_id p.allocator })
        ≡ none
  unfolding create_connection_fail
  create_connection_fail-erase h p = rw (get_kid-erase h p)

  finish-locked :
      (stream : Option ℕ) (p : Provider Buf)
      → locked stream p.run_lock ≡ true
      → finish stream p ≡ some (record p { run_lock = unlock stream p.run_lock })
  unfolding finish
  finish-locked stream p e = rw e

  get_kid-settle :
      (h : Handle) (id : ℕ) (status : ℤ) (stream : Option ℕ) (p : Provider Buf)
      → get_kid (some h) (settle id status (record p { run_lock = unlock stream p.run_lock }))
        ≡ get_kid (some h) p
  unfolding get_kid
  get_kid-settle h id status stream p =
      ap (λ a. same_object h (find h.m_id a))
        (settle-allocator id status (record p { run_lock = unlock stream p.run_lock }))

  get_kid-exclude :
      (h : Handle) (id : ℕ) (p : Provider Buf)
      → get_kid (some h) (record p { server_wait_connection = exclude id p.server_wait_connection })
        ≡ get_kid (some h) p
  unfolding get_kid
  get_kid-exclude h id p = refl

  -- CLOSE can be sent on a stream whose number fits.
  close_other_end-open :
      (h : Handle) (kid : KmStreamId) (p : Provider Buf)
      → get_kid (some h) p ≡ some kid
      → kid.m_id < 64
      → (q : Provider Buf) × (close_other_end mem little (some h) p ≡ some q)
  unfolding close_other_end send_zero_packet write_header
  close_other_end-open h kid p e small =
      let (header, found, v) =
        (Option.map-eq-some_iff bytes
            (encode_packet_header mem little close_connection kid.m_id 0)).0
          (encode_packet_header-wire mem little close_connection kid.m_id 0
            (named_code close_connection tt) small (omega arith)) in
      (write_header mem little header p, rw (e, found))

  -- `closeStream` when the stream does not wait for the service.
  close_stream-settled :
      (h : Handle) (kid : KmStreamId) (p : Provider Buf)
      → get_kid (some h) p ≡ some kid
      → kid.m_id ≡ h.m_id
      → h.m_id < 64
      → locked kid.stream p.run_lock ≡ true
      → contains h.m_id p.server_wait_connection ≡ false
      → (q : Provider Buf) × (close_stream mem little (some h) p ≡ some q)
  unfolding close_stream
  close_stream-settled h kid p e same small open_ w =
      let finished = record p { run_lock = unlock kid.stream p.run_lock } in
      let (told, c) =
        close_other_end-open h kid (settle h.m_id (negsuc 0) finished)
          (get_kid-settle h h.m_id (negsuc 0) kid.stream p ∙ e) (rw same small) in
      let still : contains h.m_id told.server_wait_connection ≡ false =
        ap (contains h.m_id)
          (close_other_end-waiting (some h) _ told c ∙ settle-waiting h.m_id (negsuc 0) finished)
        ∙ w in
      (
        record told { allocator = erase h.m_id told.allocator },
        rw (e, finish-locked kid.stream p open_, same, c, still),
      )

  -- `closeStream` on an initialised stream with a number below 64 that a remote request made, and
  -- that has been neither accepted nor rejected yet, makes an assertion fail: the id is taken out of
  -- the allocator before the rejection looks it up. The wait is what makes it fail: in the same
  -- state without that id among the waiting ones, `closeStream` returns. (The object's own number is
  -- the key that the allocator has it under.)
  pub close_stream-waiting :
      (h : Handle) (kid : KmStreamId) (p : Provider Buf)
      → get_kid (some h) p ≡ some kid
      → kid.m_id ≡ h.m_id
      → h.m_id < 64
      → locked kid.stream p.run_lock ≡ true
      → contains h.m_id p.server_wait_connection ≡ true
      → (close_stream mem little (some h) p ≡ none)
        × (q : Provider Buf) × (close_stream mem little
              (some h)
              (record p { server_wait_connection = exclude h.m_id p.server_wait_connection })
            ≡ some q)
  unfolding close_stream
  close_stream-waiting h kid p e same small open_ w =
      let finished = record p { run_lock = unlock kid.stream p.run_lock } in
      let (told, c) =
        close_other_end-open h kid (settle h.m_id (negsuc 0) finished)
          (get_kid-settle h h.m_id (negsuc 0) kid.stream p ∙ e) (rw same small) in
      let still : contains h.m_id told.server_wait_connection ≡ true =
        ap (contains h.m_id)
          (close_other_end-waiting (some h) _ told c ∙ settle-waiting h.m_id (negsuc 0) finished)
        ∙ w in
      let (q, returns) =
        close_stream-settled h kid
          (record p { server_wait_connection = exclude h.m_id p.server_wait_connection })
          (get_kid-exclude h h.m_id p ∙ e) same small open_
          (contains-exclude h.m_id h.m_id p.server_wait_connection ∙ rw (==_refl h.m_id)) in
      (
        rw (e, finish-locked kid.stream p open_, same, c, still)
            (create_connection_fail-erase h told),
        q,
        returns,
      )
