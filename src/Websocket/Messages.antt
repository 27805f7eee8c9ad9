-- ===== src/Websocket/Messages.antt =====
-- A message that comes in fragments.
use hula.Common.{
  ℕ, ◌≡◌, ◌≢◌, refl, sym, ap, ◌∙◌, Bool, true, false, List, [], ◌∷◌, ◌++◌, map, length,
  if◌then◌else◌, arith, append_assoc, nil_of_length, length-append, eq_false, Bool-cases, inl, inr,
}
use hula.Buffer.{SharedMem}
use hula.Websocket.{Frame, WebsocketOpcode, continue, text, binary}
use hula.Websocket.Session.{
  WebSocketCommon, Effect, fragment, message_event, text_event, c_string, read_message,
  read_continue, read_packet, read_packets,
}

abbrev pub plain_frame : {B : Type 0} → Bool → WebsocketOpcode → B → Frame B
plain_frame fin opcode m = record {
  fin = fin;
  opcode = opcode;
  message = m;
  rsv1 = false;
  rsv2 = false;
  rsv3 = false;
}

-- The frames of a message: the first, those between and the last.
abbrev pub fragments_of : {B : Type 0} → Bool → B → List B → B → List (Frame B)
fragments_of is_binary m ms last =
    plain_frame false (if is_binary then binary else text) m
    ∷ (map (plain_frame false continue) ms ++ (plain_frame true continue last ∷ []))

abbrev pub message_of : {B : Type 0} → Bool → B → List ℕ → Effect B
message_of is_binary m content =
    if is_binary then message_event m else text_event (c_string content)

fragments_log :
    {B : Type 0} (ms : List B) (last : B) (e : Effect B)
    → map (λ (m : B). fragment (plain_frame false continue m)) ms
        ++ (fragment (plain_frame true continue last) ∷ e ∷ [])
      ≡ map
          (λ (f : Frame B). fragment f)
          (map (plain_frame false continue) ms ++ (plain_frame true continue last ∷ []))
        ++ (e ∷ [])
fragments_log [] last e = refl
fragments_log (m ∷ ms) last e =
    ap (◌∷◌ (fragment (plain_frame false continue m))) (fragments_log ms last e)

module _ (mem : SharedMem) where
  open mem use {Buf, bytes, empty, join, bytes-empty, bytes-join}

  abbrev pub contents : List Buf → List ℕ
  contents [] = []
  contents (b ∷ bs) = bytes b ++ contents bs

  read_continue-last :
      (last : Buf) (w : WebSocketCommon Buf)
      → w.save_fragment ≡ true
      → length (bytes w.fragments) ≢ 0
      → read_continue mem (plain_frame true continue last) w ≡ (
        record w {
          fragments = empty;
          log =
              w.log
              ++ (fragment (plain_frame true continue last)
                  ∷ message_of w.save_binary (join w.fragments last) (bytes (join w.fragments last))
                  ∷ []);
        },
        true,
      )
  unfolding read_continue
  read_continue-last last w s n = elim (Bool-cases w.save_binary) [
    | inl b ↦ simp (s, eq_false (length (bytes w.fragments)) 0 n, b, append_assoc)
    | inr b ↦ simp (s, eq_false (length (bytes w.fragments)) 0 n, b, append_assoc)
  ]

  read_continue-more :
      (m : Buf) (w : WebSocketCommon Buf)
      → w.save_fragment ≡ true
      → length (bytes w.fragments) ≢ 0
      → read_continue mem (plain_frame false continue m) w ≡ (
        record w {
          fragments = join w.fragments m;
          log = w.log ++ (fragment (plain_frame false continue m) ∷ []);
        },
        true,
      )
  unfolding read_continue
  read_continue-more m w s n = simp (s, eq_false (length (bytes w.fragments)) 0 n)

  -- The rest of a message that has begun.
  read_packets-continue :
      (ms : List Buf) (last : Buf) (w : WebSocketCommon Buf)
      → w.save_fragment ≡ true
      → length (bytes w.fragments) ≢ 0
      → (joined : Buf) × (bytes joined ≡ bytes w.fragments ++ (contents ms ++ bytes last))
        × (read_packets mem
              (map (plain_frame false continue) ms ++ (plain_frame true continue last ∷ []))
              w
            ≡ record w {
              fragments = empty;
              log =
                  w.log
                  ++ (map (λ (m : Buf). fragment (plain_frame false continue m)) ms
                      ++ (fragment (plain_frame true continue last)
                          ∷ message_of w.save_binary joined (bytes joined)
                          ∷ []));
            })
  unfolding read_packets read_packet read_continue
  read_packets-continue [] last w s n =
      (join w.fragments last, bytes-join w.fragments last, rw (read_continue-last last w s n) refl)
  read_packets-continue (m ∷ ms) last w s n =
      let w' = record w {
        fragments = join w.fragments m;
        log = w.log ++ (fragment (plain_frame false continue m) ∷ []);
      } in
      let (joined, e, r) = read_packets-continue ms last w' s (λ z. n (
        omega (
          arith,
          z,
          ap length (bytes-join w.fragments m),
          length-append (bytes w.fragments) (bytes m),
        ))) in
      (
        joined,
        e
            ∙ ap (λ (x : List ℕ). x ++ (contents ms ++ bytes last)) (bytes-join w.fragments m)
            ∙ append_assoc (bytes w.fragments) (bytes m) (contents ms ++ bytes last)
            ∙ ap (λ (x : List ℕ). bytes w.fragments ++ x)
                (sym (append_assoc (bytes m) (contents ms) (bytes last))),
        rw (read_continue-more m w s n) (
            r
            ∙ ap (λ (l : List (Effect Buf)). record w { fragments = empty; log = l })
                (append_assoc w.log (fragment (plain_frame false continue m) ∷ []) _)),
      )

  read_message-begin :
      (is_binary : Bool) (m : Buf) (w : WebSocketCommon Buf)
      → w.save_fragment ≡ true
      → length (bytes w.remain) ≡ 0
      → read_packet mem (plain_frame false (if is_binary then binary else text) m) w ≡ (
        record w {
          fragments = join w.fragments m;
          save_binary = is_binary;
          log = w.log ++ (fragment (plain_frame false (if is_binary then binary else text) m) ∷ []);
        },
        true,
      )
  unfolding read_packet read_message
  read_message-begin true m w s r = simp (s, r)
  read_message-begin false m w s r = simp (s, r)

  -- On an object that saves fragments, with no message begun and no bytes behind the frames read: the
  -- frames of a binary message or of a text, the first not empty, then any number with the opcode
  -- Continue, the last with FIN, emit a fragment each, in order, and then one event with the contents
  -- of all of them put together (of a text up to its first zero). Nothing of it is kept.
  pub read_packets-fragments_of :
      (is_binary : Bool) (m : Buf) (ms : List Buf) (last : Buf) (w : WebSocketCommon Buf)
      → w.save_fragment ≡ true
      → length (bytes w.remain) ≡ 0
      → length (bytes w.fragments) ≡ 0
      → length (bytes m) ≢ 0
      → (joined : Buf) × (bytes joined ≡ bytes m ++ (contents ms ++ bytes last))
        × (read_packets mem (fragments_of is_binary m ms last) w ≡ record w {
          fragments = empty;
          save_binary = is_binary;
          log =
              w.log
              ++ (map (λ (f : Frame Buf). fragment f) (fragments_of is_binary m ms last)
                  ++ (message_of is_binary joined (bytes joined) ∷ []));
        })
  unfolding read_packets
  read_packets-fragments_of is_binary m ms last w s r z n =
      let first = plain_frame false (if is_binary then binary else text) m in
      let w' = record w {
        fragments = join w.fragments m;
        save_binary = is_binary;
        log = w.log ++ (fragment first ∷ []);
      } in
      let begun : bytes (join w.fragments m) ≡ bytes m =
        bytes-join w.fragments m
        ∙ ap (λ (x : List ℕ). x ++ bytes m) (nil_of_length (bytes w.fragments) z) in
      let (joined, e, p) =
        read_packets-continue ms last w' s (λ y. n (omega (arith, y, ap length begun))) in
      (
        joined,
        e ∙ ap (λ (x : List ℕ). x ++ (contents ms ++ bytes last)) begun,
        rw (read_message-begin is_binary m w s r) (
            p
            ∙ ap
                (λ (l : List (Effect Buf)). record w {
                  fragments = empty;
                  save_binary = is_binary;
                  log = l;
                })
                (append_assoc w.log (fragment first ∷ []) _
                  ∙ ap (λ (l : List (Effect Buf)). w.log ++ (fragment first ∷ l))
                      (fragments_log ms last (message_of is_binary joined (bytes joined))))),
      )
