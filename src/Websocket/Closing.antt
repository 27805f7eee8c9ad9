-- ===== src/Websocket/Closing.antt =====
-- The end of a connection, over any sequence of operations on the object.
use hula.Common.{
  ℕ, suc, ◌+◌, ◌≡◌, refl, ℤ, is_negative, Bool, true, false, Option, none, some, List, [], ◌∷◌,
  ◌++◌, if◌then◌else◌, ◌>>=◌, arith, Bool-cases, inl, inr, some_cancel, not_some, Option-cases,
  subst,
}
use hula.Buffer.{SharedMem}
use hula.Websocket.{
  Frame, WebsocketOpcode, continue, text, binary, close, ping, pong, unnamed, size,
  form_frame_header, extract_multi_frame_from_data,
}
use hula.Websocket.Session.{
  Effect, fragment, message_event, text_event, end_event, ping_event, pong_event, error_event,
  drain_event, close_event, wrote, write_error, WebSocketCommon, emit, write_callback, close_socket,
  new_websocket, write_wrapper, deliver, read_message, read_close, read_continue, read_packet,
  read_packet_as, read_packets, read_callback, send_fragment, send_checked, send, send_text,
  send_ping, send_pong, send_end, end_state, may_send,
}

-- What is called on the object, with the random draws.
pub data Operation (B : Type 0) : Type 0 where
  arrives : B → ℤ → Operation B
  written : ℕ → ℤ → Operation B
  sends : B → ℕ × ℕ × ℕ × ℕ → Operation B
  sends_text : List ℕ → ℕ × ℕ × ℕ × ℕ → Operation B
  pings pongs : ℕ × ℕ × ℕ × ℕ → Operation B
  ends : ℕ → List ℕ → ℕ × ℕ × ℕ × ℕ → Operation B
  closes : Operation B

module _ {B : Type 0} where
  abbrev pub end_events : List (Effect B) → ℕ
  end_events [] = 0
  end_events (end_event s r ∷ es) = suc (end_events es)
  end_events (fragment f ∷ es) = end_events es
  end_events (message_event b ∷ es) = end_events es
  end_events (text_event t ∷ es) = end_events es
  end_events (ping_event b ∷ es) = end_events es
  end_events (pong_event b ∷ es) = end_events es
  end_events (error_event f ∷ es) = end_events es
  end_events (drain_event ∷ es) = end_events es
  end_events (close_event c ∷ es) = end_events es
  end_events (wrote b ∷ es) = end_events es

  end_events-append :
      (es fs : List (Effect B)) → end_events (es ++ fs) ≡ end_events es + end_events fs
  end_events-append [] fs = omega arith
  end_events-append (end_event s r ∷ es) fs = omega (arith, end_events-append es fs)
  end_events-append (fragment f ∷ es) fs = end_events-append es fs
  end_events-append (message_event b ∷ es) fs = end_events-append es fs
  end_events-append (text_event t ∷ es) fs = end_events-append es fs
  end_events-append (ping_event b ∷ es) fs = end_events-append es fs
  end_events-append (pong_event b ∷ es) fs = end_events-append es fs
  end_events-append (error_event f ∷ es) fs = end_events-append es fs
  end_events-append (drain_event ∷ es) fs = end_events-append es fs
  end_events-append (close_event c ∷ es) fs = end_events-append es fs
  end_events-append (wrote b ∷ es) fs = end_events-append es fs

  -- The end was emitted once if `m_recieve_end` is set, and was not if it is not set.
  abbrev pub EndsOnce : WebSocketCommon B → Type 0
  EndsOnce w = end_events w.log ≡ (if w.recieve_end then 1 else 0)

  emit-EndsOnce :
      (e : Effect B) (w : WebSocketCommon B)
      → end_events (e ∷ []) ≡ 0
      → EndsOnce w
      → EndsOnce (emit e w)
  emit-EndsOnce e w z h = omega (arith, end_events-append w.log (e ∷ []), z, h)

module _ (mem : SharedMem) where
  open mem use {Buf, bytes}

  unfoldable pub step : Operation Buf → WebSocketCommon Buf → Option (WebSocketCommon Buf)
  step (arrives b status) w = read_callback mem b status w
  step (written n status) w = some (write_callback n status w)
  step (sends b draw) w = send mem b draw w
  step (sends_text t draw) w = send_text mem t draw w
  step (pings draw) w = send_ping mem draw w
  step (pongs draw) w = send_pong mem draw w
  step (ends code reason draw) w = send_end mem code reason draw w
  step closes w = some (close_socket w)

  unfoldable pub run : List (Operation Buf) → WebSocketCommon Buf → Option (WebSocketCommon Buf)
  run [] w = some w
  run (o ∷ os) w = step o w >>= run os

  deliver-EndsOnce :
      (b : Bool) (m : Buf) (w : WebSocketCommon Buf) → EndsOnce w → EndsOnce (deliver mem b m w)
  deliver-EndsOnce true m w h = emit-EndsOnce _ w refl h
  deliver-EndsOnce false m w h = emit-EndsOnce _ w refl h

  read_message-EndsOnce :
      (b : Bool) (f : Frame Buf) (w : WebSocketCommon Buf)
      → EndsOnce w
      → EndsOnce (read_message mem b f w).0
  unfolding read_message
  read_message-EndsOnce b f w h = grind (arith, end_events-append {B = Buf})

  read_continue-EndsOnce :
      (f : Frame Buf) (w : WebSocketCommon Buf) → EndsOnce w → EndsOnce (read_continue mem f w).0
  unfolding read_continue
  read_continue-EndsOnce f w h = grind (arith, end_events-append {B = Buf})

  read_close-EndsOnce :
      (f : Frame Buf) (w : WebSocketCommon Buf) → EndsOnce w → EndsOnce (read_close mem f w).0
  unfolding read_close
  read_close-EndsOnce f w h = grind (arith, end_events-append {B = Buf})

  read_packet_as-EndsOnce :
      (op : WebsocketOpcode) (f : Frame Buf) (w : WebSocketCommon Buf)
      → EndsOnce w
      → EndsOnce (read_packet_as mem op f w).0
  read_packet_as-EndsOnce binary f w h = read_message-EndsOnce true f w h
  read_packet_as-EndsOnce text f w h = read_message-EndsOnce false f w h
  read_packet_as-EndsOnce close f w h = read_close-EndsOnce f w h
  read_packet_as-EndsOnce continue f w h = read_continue-EndsOnce f w h
  read_packet_as-EndsOnce ping f w h = emit-EndsOnce _ w refl h
  read_packet_as-EndsOnce pong f w h = emit-EndsOnce _ w refl h
  read_packet_as-EndsOnce (unnamed n) f w h = emit-EndsOnce _ w refl h

  read_packets-EndsOnce :
      (fs : List (Frame Buf)) (w : WebSocketCommon Buf)
      → EndsOnce w
      → EndsOnce (read_packets mem fs w)
  unfolding read_packets read_packet
  read_packets-EndsOnce [] w h = h
  read_packets-EndsOnce (f ∷ fs) w h =
      let next = read_packet_as-EndsOnce f.opcode f w h in
      let rest = read_packets-EndsOnce fs (read_packet mem f w).0 next in
      elim (Bool-cases (read_packet mem f w).1) [ inl e ↦ rw e rest | inr e ↦ rw e next ]

  read_callback-EndsOnce :
      (b : Buf) (status : ℤ) (w : WebSocketCommon Buf) {v : WebSocketCommon Buf}
      → read_callback mem b status w ≡ some v
      → EndsOnce w
      → EndsOnce v
  unfolding read_callback
  read_callback-EndsOnce b status w {v} e h =
      let w' = record w { read_buffer_size = w.read_buffer_size + size mem b } in
      elim (Bool-cases (is_negative status)) [
        | inl n ↦
            subst EndsOnce (some_cancel (rw n at e))
              (emit-EndsOnce (error_event write_error) w' refl h)
        | inr n ↦ elim (Option-cases (extract_multi_frame_from_data mem w.remain b)) [
          | inl none_left ↦ absurd (not_some (rw (n, none_left) at e))
          | inr (x, found) ↦
              subst EndsOnce (some_cancel (rw (n, found) at e))
                (read_packets-EndsOnce x.0 (record w' { remain = x.1 }) h)
        ]
      ]

  write_wrapper-EndsOnce :
      (b : Buf) (w : WebSocketCommon Buf) → EndsOnce w → EndsOnce (write_wrapper mem b w)
  unfolding write_wrapper
  write_wrapper-EndsOnce b w h =
      emit-EndsOnce (wrote b) (record w { write_buffer_size = w.write_buffer_size + size mem b })
        refl h

  send_fragment-EndsOnce :
      (fin : Bool) (op : WebsocketOpcode) (mask : Bool) (b : Buf) (draw : ℕ × ℕ × ℕ × ℕ)
      → (w : WebSocketCommon Buf) {v : WebSocketCommon Buf}
      → send_fragment mem fin op mask b draw w ≡ some v
      → EndsOnce w
      → EndsOnce v
  unfolding send_fragment
  send_fragment-EndsOnce fin op mask b draw w {v} e h =
      elim (Option-cases
        (form_frame_header mem fin op (if mask then some draw else none) b false false false)) [
          | inl n ↦ absurd (not_some (rw n at e))
          | inr (x, found) ↦ subst EndsOnce (some_cancel (rw found at e)) (
              write_wrapper-EndsOnce x.1 (write_wrapper mem x.0 w) (write_wrapper-EndsOnce x.0 w h))
        ]

  send_checked-EndsOnce :
      (op : WebsocketOpcode) (b : Buf) (draw : ℕ × ℕ × ℕ × ℕ) (w : WebSocketCommon Buf)
      → {v : WebSocketCommon Buf} → send_checked mem op b draw w ≡ some v
      → EndsOnce w
      → EndsOnce v
  send_checked-EndsOnce op b draw w e h = elim (Bool-cases (may_send w.state w.recieve_end)) [
    | inl m ↦ send_fragment-EndsOnce true op w.masked b draw w (rw m at e) h
    | inr m ↦ absurd (not_some (rw m at e))
  ]

  step-EndsOnce :
      (o : Operation Buf) (w : WebSocketCommon Buf) {v : WebSocketCommon Buf}
      → step o w ≡ some v
      → EndsOnce w
      → EndsOnce v
  unfolding step write_callback close_socket send send_text send_ping send_pong send_end
  step-EndsOnce (arrives b status) w e h = read_callback-EndsOnce b status w e h
  step-EndsOnce (written n status) w e h = grind (arith, end_events-append {B = Buf})
  step-EndsOnce (sends b draw) w e h = send_checked-EndsOnce binary b draw w e h
  step-EndsOnce (sends_text t draw) w e h = send_checked-EndsOnce text _ draw w e h
  step-EndsOnce (pings draw) w e h = send_checked-EndsOnce ping _ draw w e h
  step-EndsOnce (pongs draw) w e h = send_checked-EndsOnce pong _ draw w e h
  step-EndsOnce (ends code reason draw) w e h =
      elim (Option-cases (end_state w.state w.recieve_end)) [
        | inl n ↦ absurd (not_some (rw n at e))
        | inr (s, found) ↦
            send_fragment-EndsOnce true close w.masked _ draw (record w { state = s })
              (rw found at e) h
      ]
  step-EndsOnce closes w e h = grind (arith, end_events-append {B = Buf})

  run_keeps :
      (os : List (Operation Buf)) (w : WebSocketCommon Buf) {v : WebSocketCommon Buf}
      → run os w ≡ some v
      → EndsOnce w
      → EndsOnce v
  unfolding run
  run_keeps [] w e h = subst EndsOnce (some_cancel e) h
  run_keeps (o ∷ os) w e h = elim (Option-cases (step o w)) [
    | inl n ↦ absurd (not_some (rw n at e))
    | inr (x, found) ↦ run_keeps os x (rw found at e) (step-EndsOnce o w found h)
  ]

  -- When a sequence of operations on a new object runs to a result - no assertion of a send fails, and
  -- the loop over the frames of every read ends - the event `end` was emitted at most once: it was if
  -- a Close frame of the other end has been accepted, and was not otherwise.
  pub run-EndsOnce :
      (masked save_fragment : Bool) (os : List (Operation Buf)) {v : WebSocketCommon Buf}
      → run os (new_websocket mem masked save_fragment) ≡ some v
      → end_events v.log ≡ (if v.recieve_end then 1 else 0)
  unfolding new_websocket
  run-EndsOnce masked save_fragment os e =
      run_keeps os (new_websocket mem masked save_fragment) e refl
