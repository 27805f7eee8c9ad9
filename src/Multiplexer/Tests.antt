-- ===== src/Multiplexer/Tests.antt =====
-- Runs of the multiplexer, and its theorems at concrete input.
use hula.Common.{
  ℕ, ◌<◌, ◌≡◌, ◌≢◌, refl, pos, true, none, some, List, [], ◌∷◌, ◌++◌, length, ◌==◌, if◌then◌else◌,
  arith,
}
use hula.Common.Maps.{find, contains, exclude}
use hula.Buffer.{list_mem}
use hula.Handshake.{c_string}
use hula.Packet.{write, create_connection, code, encode_packet_header}
use hula.Packet.RoundTrip.{wire}
use hula.Multiplexer.{
  new_connection, KmStreamId, Provider, no_callback, wrote_header, wrote_buffer, connected,
  called_read, emit, new_provider, max_connection,
}
use hula.Multiplexer.Streams.{no_callbacks, create_stream_id, get_kid, locked}
use hula.Multiplexer.Send.{write_stream, write_header, write_buffer}
use hula.Multiplexer.Connect.{connect, close_stream}
use hula.Multiplexer.Dispatch.{
  stream_callbacks, create_new_connection, dispatch_packet, dispatch_data,
}
use hula.Multiplexer.Ask.{connect-wire}
use hula.Multiplexer.Request.{create_new_connection-service}
use hula.Multiplexer.Identifiers.{create_stream_id-fresh}
use hula.Multiplexer.Settle.{
  Completion, accepted, timed_out, write_done, complete_all, complete_all-calls_once,
}
use hula.Multiplexer.Faults.{dispatch_packet-short_request, close_stream-waiting}
use hula.Multiplexer.Delivery.{sent, write_stream-wire, dispatch_data-write_stream}

abbrev blank : Provider (List ℕ)
blank = record {
  remain = [];
  allocator = [];
  client_wait_connection = [];
  next_id = 64;
  server_wait_connection = [];
  run_lock = [];
  made = 0;
  log = [];
}

new_provider_is_blank : new_provider [] ≡ blank
unfolding new_provider
new_provider_is_blank = refl

-- A stream with number 3, owned by object 9, that has a read callback.
abbrev stream_three : KmStreamId
stream_three = record {
  m_id = 3;
  serial = 5;
  stream = some 9;
  callbacks = record no_callbacks { read = some 1 };
}

abbrev one_stream : Provider (List ℕ)
one_stream = record blank {
  allocator = (3, some stream_three) ∷ [];
  client_wait_connection = (3, 77) ∷ [];
  server_wait_connection = 3 ∷ [];
}

one_stream-get_kid : get_kid (some (record { m_id = 3; serial = 5 })) one_stream ≡ some stream_three
unfolding get_kid find
one_stream-get_kid = refl

create_stream_id-fresh_example :
    (id : ℕ) × (q : Provider (List ℕ)) × (create_stream_id 70 (some 1) blank
      ≡ some (some (record { m_id = id; serial = 0 }), q))
    × (id < max_connection)
    × (find id blank.allocator ≡ none)
    × (length q.allocator ≡ 1)
    × ((j : ℕ)
        → find j q.allocator ≡ (
            if id == j
            then some
                (some (record { m_id = id; serial = 0; stream = some 1; callbacks = no_callbacks }))
            else find j blank.allocator))
create_stream_id-fresh_example = create_stream_id-fresh 70 (some 1) blank refl (omega arith)

abbrev late_reject : List (Completion (List ℕ))
late_reject = write_done (pos 0) ∷ accepted [] ∷ timed_out ∷ []

not_null : find 3 one_stream.allocator ≢ some none
unfolding find
not_null e = absurd cc

complete_all-calls_once_example :
    (q : Provider (List ℕ)) × (complete_all list_mem true 3 late_reject one_stream ≡ some q)
    × (q.log ≡ [] ++ (connected 77 (pos 0) ∷ []))
    × ((j : ℕ)
        → find j q.client_wait_connection
          ≡ (if 3 == j then none else find j one_stream.client_wait_connection))
unfolding find
complete_all-calls_once_example =
    complete_all-calls_once list_mem true 3 77 late_reject one_stream not_null refl

dispatch_packet-short_request_example :
    dispatch_packet list_mem true 0 (1 ∷ 2 ∷ [], create_connection, 8) one_stream ≡ none
unfolding find
dispatch_packet-short_request_example =
    dispatch_packet-short_request list_mem true 0 (1 ∷ 2 ∷ []) 8 one_stream refl (omega arith)

-- The same stream of object 9, made by a request of the other end.
abbrev served_stream : Provider (List ℕ)
served_stream = record blank {
  allocator = (3, some stream_three) ∷ [];
  server_wait_connection = 3 ∷ [];
  run_lock = some 9 ∷ [];
}

served_stream-get_kid :
    get_kid (some (record { m_id = 3; serial = 5 })) served_stream ≡ some stream_three
unfolding get_kid find
served_stream-get_kid = refl

close_stream-waiting_example :
    (close_stream list_mem true (some (record { m_id = 3; serial = 5 })) served_stream ≡ none)
    × (q : Provider (List ℕ)) × (close_stream list_mem true
          (some (record { m_id = 3; serial = 5 }))
          (record served_stream { server_wait_connection = [] })
        ≡ some q)
unfolding contains exclude locked
close_stream-waiting_example =
    close_stream-waiting list_mem true (record { m_id = 3; serial = 5 }) stream_three served_stream
      served_stream-get_kid refl (omega arith) refl refl

write_stream-wire_example :
    (q : Provider (List ℕ)) × (write_stream list_mem true
        (some (record { m_id = 3; serial = 5 }))
        (65 ∷ 66 ∷ [])
        no_callback
        one_stream
      ≡ some q)
    × (sent list_mem true q.log ≡ [] ++ wire (code write) 3 (65 ∷ 66 ∷ []))
write_stream-wire_example =
    write_stream-wire list_mem true (some (record { m_id = 3; serial = 5 })) stream_three
      (65 ∷ 66 ∷ []) no_callback one_stream one_stream-get_kid (omega arith) (omega arith)

abbrev after_write : Provider (List ℕ)
after_write = record one_stream {
  log = wrote_header (0 ∷ 3 ∷ 2 ∷ []) ∷ wrote_buffer (65 ∷ 66 ∷ []) no_callback ∷ [];
}

one_write :
    write_stream list_mem true
      (some (record { m_id = 3; serial = 5 }))
      (65 ∷ 66 ∷ [])
      no_callback
      one_stream
    ≡ some after_write
unfolding write_stream write_header write_buffer get_kid find encode_packet_header code
one_write = refl

dispatch_data-write_stream_example :
    (frame rest : List ℕ) × (dispatch_data list_mem true
        (λ p. 0)
        (λ p. some (true, p))
        (0 ∷ 3 ∷ 2 ∷ 65 ∷ 66 ∷ [])
        one_stream
      ≡ some (emit (called_read 1 (some 9) frame) (record one_stream { remain = rest })))
    × (frame ≡ 65 ∷ 66 ∷ [])
    × (rest ≡ [])
unfolding find
dispatch_data-write_stream_example =
    dispatch_data-write_stream list_mem true (some (record { m_id = 3; serial = 5 })) stream_three
      stream_three 1 (65 ∷ 66 ∷ []) (0 ∷ 3 ∷ 2 ∷ 65 ∷ 66 ∷ []) no_callback one_stream after_write
      one_stream (λ p. 0) (λ p. some (true, p)) one_stream-get_kid (omega arith) (omega arith)
      (omega arith, (omega arith, tt)) one_write refl refl refl refl

-- The same stream, not waiting for a connection.
abbrev idle_stream : Provider (List ℕ)
idle_stream = record one_stream { client_wait_connection = [] }

idle_stream-get_kid :
    get_kid (some (record { m_id = 3; serial = 5 })) idle_stream ≡ some stream_three
unfolding get_kid find
idle_stream-get_kid = refl

connect-wire_example :
    (q : Provider (List ℕ)) × (connect list_mem true
        (some (record { m_id = 3; serial = 5 }))
        (97 ∷ 98 ∷ [])
        443
        12
        idle_stream
      ≡ some q)
    × (sent list_mem true q.log ≡ [] ++ wire (code create_connection) 3 (97 ∷ 98 ∷ 1 ∷ 187 ∷ []))
    × (find 3 q.client_wait_connection ≡ some 12)
unfolding find
connect-wire_example =
    connect-wire list_mem true (some (record { m_id = 3; serial = 5 })) stream_three (97 ∷ 98 ∷ [])
      443 12 idle_stream idle_stream-get_kid (omega arith) refl (omega arith) (omega arith)

create_new_connection-service_example :
    (q : Provider (List ℕ)) × (create_new_connection list_mem true 0
        (97 ∷ 98 ∷ 0 ∷ 99 ∷ 1 ∷ 187 ∷ [])
        9
        blank
      ≡ some q)
    × (q.log
        ≡ [] ++ (new_connection 0 (some (record { m_id = 9; serial = 1 })) (97 ∷ 98 ∷ []) 443 ∷ []))
    × (contains 9 q.server_wait_connection ≡ true)
    × (q.next_id ≡ max_connection)
    × ((j : ℕ)
        → find j q.allocator ≡ (
            if 9 == j
            then some (
                some
                  (record { m_id = 9; serial = 1; stream = some 0; callbacks = stream_callbacks }))
            else find j blank.allocator))
unfolding find locked c_string
create_new_connection-service_example =
    create_new_connection-service list_mem true 0 9 443 (97 ∷ 98 ∷ 0 ∷ 99 ∷ [])
      (97 ∷ 98 ∷ 0 ∷ 99 ∷ 1 ∷ 187 ∷ []) blank refl (omega arith) (omega arith) refl refl
      (omega arith) (omega arith) refl
