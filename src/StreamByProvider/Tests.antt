-- ===== src/StreamByProvider/Tests.antt =====
-- Runs of a stream object, with buffers that are lists of bytes.

use hula.Common.{ℕ, ◌≡◌, refl, pos, true, false, Option, none, some, List, [], ◌∷◌, map, take}
use hula.StreamByProvider.{
  timeout_, named, StreamByProvider, connect_, check_socket, add_context, ask_with, write_,
  shutdown, transfer, regain, start_read_, stop_read_, complete, get_state, reply, write_callback,
  connect_callback, register_callback, new_stream, asked, added, removed, called, register, finish,
  close_stream, error_slot, close_slot, end_slot, start_write_slot, stop_write_slot, written,
  read_slot, destroy, release, provider_calls, getaddrinfo, ipv4_kind,
}
use hula.StreamByProvider.Events.{
  asks_timeout, Event, writes, connects, looks_up, shuts_down, transfers, regains, destroyed,
  provided, write_done, connect_done, handle_all, World,
}
use hula.StreamByProvider.Waiting.{calls, handed}
use hula.StreamByProvider.Ending.{Quiet}
use hula.StreamByProvider.Sent.{handle_all-Quiet}
use hula.StreamByProvider.Called.{answers, handle_all-calls}

abbrev events : List (Event (List ℕ))
events =
    connects 100 (named [] 80) 1
    ∷ connect_done true 100 (pos 0)
    ∷ writes 200 (7 ∷ []) 2
    ∷ asks_timeout 9 50
    ∷ looks_up ipv4_kind 300 [] 2
    ∷ transfers
    ∷ regains
    ∷ provided read_slot (8 ∷ [])
    ∷ shuts_down 400 3
    ∷ write_done true 200 (7 ∷ []) (pos 0)
    ∷ destroyed
    ∷ []

abbrev first : StreamByProvider (List ℕ)
first = record {
  info = some (record { provider = some 5; id = some 6; send_end = false });
  stream_read = false;
  contexts = [];
  log =
      asked 5 6 (register stop_write_slot)
      ∷ asked 5 6 (register start_write_slot)
      ∷ asked 5 6 (register end_slot)
      ∷ asked 5 6 (register close_slot)
      ∷ asked 5 6 (register error_slot)
      ∷ asked 5 6 (register read_slot)
      ∷ [];
}

abbrev reached : Option (World (List ℕ)) → StreamByProvider (List ℕ)
reached none = first
reached (some w) = w.0

abbrev last : StreamByProvider (List ℕ)
last = reached (handle_all [] events (first, none))

-- The latest calls; what waits is a look-up and the end.
last-log :
    take 5 last.log
    ≡ asked 5 6 close_stream
      ∷ called 2 (written (7 ∷ []) (pos 0))
      ∷ removed 200
      ∷ asked 5 6 (finish 400)
      ∷ added 400
      ∷ []
unfolding connect_ write_ getaddrinfo timeout_ shutdown ask_with add_context check_socket transfer
    regain stop_read_ start_read_ destroy release provider_calls write_callback connect_callback
    complete get_state reply new_stream register_callback
last-log = refl

last-contexts : map (λ c. c.callback) last.contexts ≡ 3 ∷ 2 ∷ []
unfolding connect_ write_ getaddrinfo timeout_ shutdown ask_with add_context check_socket transfer
    regain stop_read_ start_read_ destroy release provider_calls write_callback connect_callback
    complete get_state reply new_stream register_callback
last-contexts = refl

handle_all-calls_example :
    (t : StreamByProvider (List ℕ)) × (handle_all []
        (answers [] false (pos 0) last.contexts)
        (last, none)
      ≡ some (t, none))
    × (t.contexts ≡ [])
    × ((cb : ℕ) → calls cb t.log ≡ handed cb events)
unfolding connect_ write_ getaddrinfo timeout_ shutdown ask_with add_context check_socket transfer
    regain stop_read_ start_read_ destroy release provider_calls write_callback connect_callback
    complete get_state reply new_stream register_callback
handle_all-calls_example =
    handle_all-calls 5 (some 6) [] events false (pos 0) first last none refl refl

handle_all-Quiet_example : Quiet 5 6 last.log
unfolding connect_ write_ getaddrinfo timeout_ shutdown ask_with add_context check_socket transfer
    regain stop_read_ start_read_ destroy release provider_calls write_callback connect_callback
    complete get_state reply new_stream register_callback
handle_all-Quiet_example = handle_all-Quiet 5 (some 6) [] events 5 6 first last none refl refl
