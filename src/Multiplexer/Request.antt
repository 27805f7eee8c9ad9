-- ===== src/Multiplexer/Request.antt =====
-- A request for a connection at the end that serves it: the stream object that is made for it, and
-- what the service is given.
use hula.Common.{
  ℕ, suc, ◌+◌, ◌-◌, ◌/◌, ◌%◌, ◌≤◌, ◌<◌, ◌≡◌, refl, ap, ◌∙◌, Bool, true, false, Option, none, some,
  List, [], ◌∷◌, ◌++◌, length, get_or, length-append, take-length_append, le→ltb_false, ◌==◌,
  ==_refl, eq_false, if◌then◌else◌, Bool-cases, inl, inr, arith,
}
use hula.Common.Maps.{find, insert, has, contains, include, find-insert, contains-include}
use hula.Buffer.{SharedMem}
use hula.Handshake.{c_string}
use hula.Endian.{k_ntohs-load16}
use hula.Multiplexer.{Callbacks, KmStreamId, new_connection, Provider, emit, max_connection}
use hula.Multiplexer.Streams.{
  locked, same_object, allocate, create_stream_id, init, get_kid, register_read_callback,
  register_error_callback, register_close_callback, register_end_callback,
  register_should_start_write_callback, register_should_stop_write_callback,
}
use hula.Multiplexer.Dispatch.{
  stream_callbacks, lock_next_id, new_stream_object, requested_port, create_new_connection,
}

found-insert :
    (i serial : ℕ) (stream : Option ℕ) (cbs : Callbacks) (m : List (ℕ × Option KmStreamId))
    → same_object
        (record { m_id = i; serial = serial })
        (find i (
          insert i
            (some (record { m_id = i; serial = serial; stream = stream; callbacks = cbs }))
            m))
      ≡ some (record { m_id = i; serial = serial; stream = stream; callbacks = cbs })
found-insert i serial stream cbs m = rw (
  find-insert i i (some (record { m_id = i; serial = serial; stream = stream; callbacks = cbs })) m,
  ==_refl i,
  ==_refl serial,
)

abbrev made_stream : ℕ → ℕ → KmStreamId
made_stream i made = record {
  m_id = i;
  serial = made + 1;
  stream = some made;
  callbacks = stream_callbacks;
}

module _ {B : Type 0} where
  -- The object that EBStreamByProvider makes under the id that is set aside.
  new_stream_object-made :
      (draw : ℕ) (p : Provider B)
      → p.next_id < max_connection
      → length p.allocator < max_connection
      → locked (some p.made) p.run_lock ≡ false
      → (q : Provider B) × (new_stream_object draw p ≡ some (p.made, q))
        × (q.log ≡ p.log)
        × (q.server_wait_connection ≡ p.server_wait_connection)
        × (q.next_id ≡ max_connection)
        × ((j : ℕ)
            → find j q.allocator ≡ (
                if p.next_id == j
                then some (some (made_stream p.next_id p.made))
                else find j p.allocator))
  unfolding new_stream_object init create_stream_id allocate get_kid register_read_callback
      register_error_callback register_close_callback register_end_callback
      register_should_start_write_callback register_should_stop_write_callback
  new_stream_object-made draw p small room free =
      rw
        (
          free,
          eq_false (length p.allocator) 64 (λ e. absurd (omega (arith, e, room))),
          eq_false p.next_id 64 (λ e. absurd (omega (arith, e, small))),
          found-insert,
          found-insert,
          found-insert,
          found-insert,
          found-insert,
          found-insert,
        )
        (
          _,
          refl,
          refl,
          refl,
          refl,
          λ j. elim (Bool-cases (p.next_id == j)) [
            | inl c ↦ rw (find-insert, c)
            | inr c ↦ rw (
              find-insert, c, find-insert, c, find-insert, c, find-insert, c, find-insert, c,
              find-insert, c, find-insert, c,
            )
          ],
        )

module _ (mem : SharedMem) (little : Bool) where
  open mem use {Buf, bytes}

  get_or-behind : (xs t : List ℕ) (i : ℕ) → get_or (xs ++ t) (length xs + i) 0 ≡ get_or t i 0
  get_or-behind [] t i = let e : 0 + i ≡ i = omega arith in rw e
  get_or-behind (x ∷ xs) t i =
      let e : suc (length xs) + i ≡ suc (length xs + i) = omega arith in rw e (get_or-behind xs t i)

  -- The last two bytes of a request, whatever the host of either end.
  requested_port-store16 :
      (addr : List ℕ) (port : ℕ)
      → port < 65536
      → requested_port mem little (addr ++ (port / 256 ∷ port % 256 ∷ [])) ≡ port
  requested_port-store16 addr port small =
      let bs = addr ++ (port / 256 ∷ port % 256 ∷ []) in
      let n : length bs ≡ length addr + 2 = length-append addr (port / 256 ∷ port % 256 ∷ []) in
      let i : length bs - 2 ≡ length addr + 0 = omega (arith, n) in
      let j : length bs - 1 ≡ length addr + 1 = omega (arith, n) in
      rw
        (
          i,
          j,
          get_or-behind addr (port / 256 ∷ port % 256 ∷ []) 0,
          get_or-behind addr (port / 256 ∷ port % 256 ∷ []) 1,
        )
        (k_ntohs-load16 little (port / 256) (port % 256) (omega arith) (omega arith) ∙ omega arith)

  -- A request for an address of two bytes at least and a port, at an id below 64 that is not in use,
  -- while fewer than 64 ids are in use, none is set aside, and the address of the new object is not
  -- one of an open stream: the service is given a new stream object, the id with its new owner, the
  -- address that was asked for up to its first zero byte, and the port, and nothing else is called. The id is now in use,
  -- with the callbacks of the stream object, and waits for an answer; no id stays set aside, and all
  -- other ids have what they had.
  pub create_new_connection-service :
      (draw nid port : ℕ) (addr : List ℕ) (frame : Buf) (p : Provider Buf)
      → find nid p.allocator ≡ none
      → nid < max_connection
      → length p.allocator < max_connection
      → p.next_id ≡ max_connection
      → locked (some p.made) p.run_lock ≡ false
      → 2 ≤ length addr
      → port < 65536
      → bytes frame ≡ addr ++ (port / 256 ∷ port % 256 ∷ [])
      → (q : Provider Buf) × (create_new_connection mem little draw frame nid p ≡ some q)
        × (q.log
            ≡ p.log
              ++ (new_connection p.made
                    (some (record { m_id = nid; serial = p.made + 1 }))
                    (c_string addr)
                    port
                  ∷ []))
        × (contains nid q.server_wait_connection ≡ true)
        × (q.next_id ≡ max_connection)
        × ((j : ℕ)
            → find j q.allocator ≡ (
                if nid == j
                then some (
                    some (record {
                      m_id = nid;
                      serial = p.made + 1;
                      stream = some p.made;
                      callbacks = stream_callbacks;
                    }))
                else find j p.allocator))
  unfolding create_new_connection lock_next_id has
  create_new_connection-service draw nid port addr frame p e small room aside free long short r =
      let n : length (addr ++ (port / 256 ∷ port % 256 ∷ [])) ≡ length addr + 2 =
        length-append addr (port / 256 ∷ port % 256 ∷ []) in
      let (q, made, log, waits, next, all) =
        new_stream_object-made draw (record p { next_id = nid }) small room free in
      let at_id : find nid q.allocator ≡ some (some (made_stream nid p.made)) =
        all nid ∙ rw (==_refl nid) in
      let m : length (addr ++ (port / 256 ∷ port % 256 ∷ [])) - 2 ≡ length addr =
        omega (arith, n) in
      (
        emit
            (new_connection p.made (some (record { m_id = nid; serial = p.made + 1 }))
              (c_string addr) port)
            (record q { server_wait_connection = include nid q.server_wait_connection }),
        rw (
          e,
          r,
          le→ltb_false (length (addr ++ (port / 256 ∷ port % 256 ∷ []))) 4 (omega (arith, n, long)),
          aside,
          made,
          at_id,
          requested_port-store16 addr port short,
          m,
          take-length_append addr (port / 256 ∷ port % 256 ∷ []),
        ),
        ap
            (λ l.
              l
              ++ (new_connection p.made (some (record { m_id = nid; serial = p.made + 1 }))
                    (c_string addr) port
                  ∷ []))
            log,
        contains-include nid nid q.server_wait_connection ∙ rw (==_refl nid),
        next,
        all,
      )
