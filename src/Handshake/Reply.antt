-- ===== src/Handshake/Reply.antt =====
-- A connection of the client, from the constructor to the reply of the server, which comes in two
-- reads.
use hula.Common.{
  ℕ, ◌<◌, ◌≡◌, refl, ap, ◌∙◌, pos, negsuc, true, false, ◌||◌, not, Option, none, some, List, [],
  ◌∷◌, ◌++◌, length, drop, lt→ltb, le→ltb_false, ◌==◌, ◌>>=◌, arith,
}
use hula.Buffer.{SharedMem}
use hula.Handshake.Bytes.{credentials}
use hula.Handshake.Client.{
  ConnectionProxy, ServerInfo, wait_auth_reply, build, closed, connect_started, read_started,
  wrote_credentials, increased, connect_failed, connect_succeeded, decreased, removed, called,
  new_connection_proxy, close_relays, close, connect_to_server, on_authentication_write, destroy,
  send_authentication_info, connect_to_remote_server_callback, authenticate, read_callback,
}

module _ (mem : SharedMem) where
  open mem use {
    Buf, bytes, empty, join, skip, copy, bytes-empty, bytes-join, bytes-skip, bytes-copy,
  }

  -- The stream connects, the credentials are written, and the reply comes in two parts.
  abbrev pub session : ServerInfo → ℕ → Buf → Buf → Option (ConnectionProxy Buf)
  session info cb first second = do
    a ← connect_to_server cb (new_connection_proxy empty info)
    b ← connect_to_remote_server_callback mem (pos 0) a
    c ← on_authentication_write (pos 0) b
    d ← read_callback mem first (pos 0) c
    read_callback mem second (pos 0) d

  abbrev pub sent : ServerInfo → Buf
  sent info = copy (credentials info.user info.pass)

  abbrev waiting : ServerInfo → ℕ → Buf → ConnectionProxy Buf
  waiting info cb remain = record {
    info = info;
    relays = [];
    remain = remain;
    state = wait_auth_reply;
    connect_cb = some cb;
    log = increased ∷ connect_started ∷ wrote_credentials (sent info) ∷ read_started ∷ [];
  }

  session-waiting :
      (info : ServerInfo) (cb : ℕ) (first second : Buf)
      → length info.user < 256
      → length info.pass < 256
      → length (bytes first) < 2
      → session info cb first second
        ≡ read_callback mem second (pos 0) (waiting info cb (join empty first))
  unfolding new_connection_proxy connect_to_server connect_to_remote_server_callback
      send_authentication_info on_authentication_write read_callback authenticate
  session-waiting info cb first second u p short =
      let s : length (bytes (join empty first)) < 2 =
        rw (bytes-join empty first, bytes-empty) short in
      rw (lt→ltb _ _ u, lt→ltb _ _ p, lt→ltb (length (bytes (join empty first))) 2 s)

  both_parts :
      (first second : Buf) → bytes (join (join empty first) second) ≡ bytes first ++ bytes second
  both_parts first second =
      bytes-join (join empty first) second
      ∙ ap (λ l. l ++ bytes second) (bytes-join empty first ∙ rw bytes-empty)

  -- A client whose name and password are shorter than 256 bytes, and that gets the reply 0xff and 0
  -- in two parts of which the first has less than two bytes, has written its name and password, each
  -- after a byte with its length; it is in the state of a connection that is built; its callback was
  -- called once, with 0, and is forgotten; and the bytes after the reply are kept.
  pub session-accepted :
      (info : ServerInfo) (cb : ℕ) (first second : Buf) (rest : List ℕ)
      → length info.user < 256
      → length info.pass < 256
      → length (bytes first) < 2
      → bytes first ++ bytes second ≡ 0xff ∷ 0 ∷ rest
      → (written : Buf) × (q : ConnectionProxy Buf) × (session info cb first second ≡ some q)
        × (bytes written ≡ credentials info.user info.pass)
        × (q.log
            ≡ increased
              ∷ connect_started
              ∷ wrote_credentials written
              ∷ read_started
              ∷ called cb (pos 0)
              ∷ connect_succeeded
              ∷ [])
        × (q.state ≡ build)
        × (q.connect_cb ≡ none)
        × (bytes q.remain ≡ rest)
  unfolding read_callback authenticate
  session-accepted info cb first second rest u p short reply =
      let whole = join (join empty first) second in
      let e : bytes whole ≡ 0xff ∷ 0 ∷ rest = both_parts first second ∙ reply in
      (
        sent info,
        record {
          info = info;
          relays = [];
          remain = skip whole 2;
          state = build;
          connect_cb = none;
          log =
              increased
              ∷ connect_started
              ∷ wrote_credentials (sent info)
              ∷ read_started
              ∷ called cb (pos 0)
              ∷ connect_succeeded
              ∷ [];
        },
        session-waiting info cb first second u p short
            ∙ rw (e, le→ltb_false (length (0xff ∷ 0 ∷ rest)) 2 (omega arith)),
        bytes-copy (credentials info.user info.pass),
        refl,
        refl,
        refl,
        bytes-skip whole 2 (omega (arith, ap length e)) ∙ ap (drop 2) e,
      )

  -- If the first two bytes of the reply are others, then the connection is closed with a note of the
  -- failure for this server, and with the object, which the owner deletes, the callback was called
  -- once, with -1. The count of connections of this server went up once and down once. The
  -- conditions are those of `session-accepted`.
  pub session-refused :
      (info : ServerInfo) (cb x y : ℕ) (first second : Buf) (rest : List ℕ)
      → length info.user < 256
      → length info.pass < 256
      → length (bytes first) < 2
      → bytes first ++ bytes second ≡ x ∷ y ∷ rest
      → ((x == 0xff) ≡ true → (y == 0) ≡ false)
      → (q : ConnectionProxy Buf) × (session info cb first second ≡ some q)
        × (q.state ≡ closed)
        × ((destroy q).log
            ≡ increased
              ∷ connect_started
              ∷ wrote_credentials (sent info)
              ∷ read_started
              ∷ connect_failed
              ∷ decreased
              ∷ removed
              ∷ called cb (negsuc 0)
              ∷ [])
  unfolding read_callback authenticate close close_relays destroy
  session-refused info cb x y first second rest u p short reply other =
      let whole = join (join empty first) second in
      let e : bytes whole ≡ x ∷ y ∷ rest = both_parts first second ∙ reply in
      let wrong : (not (x == 0xff) || not (y == 0)) ≡ true = ground (arith, other) in
      (
        record {
          info = info;
          relays = [];
          remain = empty;
          state = closed;
          connect_cb = some cb;
          log =
              increased
              ∷ connect_started
              ∷ wrote_credentials (sent info)
              ∷ read_started
              ∷ connect_failed
              ∷ decreased
              ∷ removed
              ∷ [];
        },
        session-waiting info cb first second u p short
            ∙ rw (e, le→ltb_false (length (x ∷ y ∷ rest)) 2 (omega arith), wrong),
        refl,
        refl,
      )
