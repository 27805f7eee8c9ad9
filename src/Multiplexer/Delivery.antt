-- ===== src/Multiplexer/Delivery.antt =====
-- From one end to the other: what `write` and `connect` put on the connection, and what
-- `dispatch_data` makes of it at the other end.
use mathlib.Core.Option
use hula.Common.{
  ℕ, ◌<◌, ◌≡◌, refl, sym, ap, ap₂, append_cancel, ◌∙◌, Bool, true, false, Option, none, some, List,
  [], ◌∷◌, ◌++◌, length, All, append-nil, append_assoc, if◌then◌else◌, ◌>>=◌, some_cancel, arith,
}
use hula.Common.Maps.{find}
use hula.Buffer.{SharedMem}
use hula.Endian.{IsByte}
use hula.Packet.{PacketOpcode, write, code, encode_packet_header, decode_all_packet}
use hula.Packet.Frame.{unfinished, parse_frame}
use hula.Packet.RoundTrip.{named_code, header_wire, wire, encode_packet_header-wire, wire-IsByte}
use hula.Packet.Loop.{view_packets, view_all}
use hula.Packet.Stream.{length-wire, IsSent, decode_all_packet-frames}
use hula.Multiplexer.{
  KmStreamId, StreamId, WriteCallback, Effect, wrote_header, wrote_buffer, called_read, Provider,
  emit,
}
use hula.Multiplexer.Streams.{get_kid}
use hula.Multiplexer.Send.{write_stream, write_header, write_buffer}
use hula.Multiplexer.Dispatch.{dispatch_packet, dispatch_known, dispatch_packets, dispatch_data}

parse_nil : parse_frame [] ≡ unfinished []
unfolding parse_frame
parse_nil = refl

module _ (mem : SharedMem) (little : Bool) where
  open mem use {Buf, bytes}

  -- The bytes that an effect, and a list of them, put on the connection.
  abbrev pub sent_by : Effect Buf → List ℕ
  sent_by (wrote_header b) = bytes b
  sent_by (wrote_buffer b cb) = bytes b
  sent_by _ = []

  abbrev pub sent : List (Effect Buf) → List ℕ
  sent [] = []
  sent (e ∷ es) = sent_by e ++ sent es

  pub sent-append : (es fs : List (Effect Buf)) → sent (es ++ fs) ≡ sent es ++ sent fs
  sent-append [] fs = refl
  sent-append (e ∷ es) fs =
      ap (λ l. sent_by e ++ l) (sent-append es fs)
      ∙ sym (append_assoc (sent_by e) (sent es) (sent fs))

  -- `write` of fewer than 2^32 bytes on an open stream whose number is below 64 returns, and the
  -- bytes that it adds to the connection are one frame of opcode WRITE, with the number of the stream
  -- and the buffer as the payload.
  pub write_stream-wire :
      (id : StreamId) (kid : KmStreamId) (buf : Buf) (cb : WriteCallback) (p : Provider Buf)
      → get_kid id p ≡ some kid
      → kid.m_id < 64
      → length (bytes buf) < 0x1_0000_0000
      → (q : Provider Buf) × (write_stream mem little id buf cb p ≡ some q)
        × (sent q.log ≡ sent p.log ++ wire (code write) kid.m_id (bytes buf))
  unfolding write_stream write_header write_buffer
  write_stream-wire id kid buf cb p e small short =
      let (header, h, v) =
        (Option.map-eq-some_iff bytes
            (encode_packet_header mem little write kid.m_id (length (bytes buf)))).0
          (encode_packet_header-wire mem little write kid.m_id (length (bytes buf))
            (named_code write tt) small short) in
      (
        write_buffer mem little buf cb (write_header mem little header p),
        rw (e, h),
        sent-append (p.log ++ (wrote_header header ∷ [])) (wrote_buffer buf cb ∷ [])
            ∙ rw (sent-append p.log (wrote_header header ∷ []), v, append_assoc)
                (ap₂ (λ h b. sent p.log ++ (h ++ b))
                  (append-nil (header_wire (code write) kid.m_id (length (bytes buf))))
                  (append-nil (bytes buf))),
      )

  one_packet :
      (ps : List (Buf × PacketOpcode × ℕ)) (x : List ℕ) (op : PacketOpcode) (id : ℕ)
      → view_packets mem little ps ≡ (x, op, id) ∷ []
      → (frame : Buf) × (ps ≡ (frame, op, id) ∷ []) × (bytes frame ≡ x)
  one_packet [] x op id e = absurd cc
  one_packet ((b, o, i) ∷ []) x op id e = (b, cc, cc)
  one_packet (y ∷ z ∷ ps) x op id e = absurd cc

  -- The decoder on the bytes of one frame.
  decode_one :
      (op : PacketOpcode) (id : ℕ) (payload : List ℕ) (remain income : Buf)
      → IsSent (record { opcode = op; id = id; payload = payload })
      → id < 64
      → All IsByte payload
      → bytes remain ≡ []
      → bytes income ≡ wire (code op) id payload
      → (frame rest : Buf) × (decode_all_packet mem little remain income
          ≡ some (record { ok = true; packets = (frame, op, id) ∷ []; rest = rest }))
        × (bytes frame ≡ payload)
        × (bytes rest ≡ [])
  decode_one op id payload remain income s small b none_left on_wire =
      let cut : bytes remain ++ bytes income ≡ wire (code op) id payload =
        ap (λ l. l ++ bytes income) none_left ∙ on_wire in
      let (d, e, v) =
        (Option.map-eq-some_iff (view_all mem little)
            (decode_all_packet mem little remain income)).0
          (decode_all_packet-frames mem little
            (record { opcode = op; id = id; payload = payload } ∷ []) [] remain income (s, tt)
            parse_nil (cut ∙ sym (append-nil _ ∙ append-nil _))
            (rw cut (wire-IsByte (code op) id payload (named_code op s.named) small s.short b))
            (rw on_wire (omega (arith, length-wire (code op) id payload)))) in
      let (frame, one, f) = one_packet d.packets payload op id (ap (λ x. x.packets) v) in
      (
        frame,
        d.rest,
        e
            ∙ ap₂ (λ o ps. some (record { ok = o; packets = ps; rest = d.rest })) (ap (λ x. x.ok) v)
                one,
        f,
        ap (λ x. x.rest) v,
      )

  bind_last :
      (o : Option (Bool × Provider Buf))
      → (o >>= λ (exists, r). if exists then some r else some r) ≡ (o >>= λ x. some x.1)
  bind_last none = refl
  bind_last (some (true, r)) = refl
  bind_last (some (false, r)) = refl

  -- What a stream has sent with `write` reaches the stream of the same number at the other end: if
  -- the bytes that the write added to the connection are what arrives there, nothing was kept from
  -- before, and a stream of that number with a read callback is open, then `dispatch_data` calls that
  -- callback, with the owner of that stream and with the same bytes as the buffer, and nothing else;
  -- what the callback does is the last step, and no byte is kept.
  pub dispatch_data-write_stream :
      (id : StreamId) (kid other : KmStreamId) (read : ℕ) (buf income : Buf) (cb : WriteCallback)
      → (p q r : Provider Buf) (draw : Provider Buf → ℕ)
      → (react : Provider Buf → Option (Bool × Provider Buf)) → get_kid id p ≡ some kid
      → kid.m_id < 64
      → length (bytes buf) < 0x1_0000_0000
      → All IsByte (bytes buf)
      → write_stream mem little id buf cb p ≡ some q
      → sent q.log ≡ sent p.log ++ bytes income
      → bytes r.remain ≡ []
      → find kid.m_id r.allocator ≡ some (some other)
      → other.callbacks.read ≡ some read
      → (frame rest : Buf) × (dispatch_data mem little draw react income r ≡ (
          react (emit (called_read read other.stream frame) (record r { remain = rest })) >>= λ x.
          some x.1))
        × (bytes frame ≡ bytes buf)
        × (bytes rest ≡ [])
  unfolding dispatch_data dispatch_packets dispatch_packet dispatch_known
  dispatch_data-write_stream id kid other read buf income cb p q r draw react e small short b w
        there none_left f c =
      let (q', w', on_wire) = write_stream-wire id kid buf cb p e small short in
      let arrives : bytes income ≡ wire (code write) kid.m_id (bytes buf) =
        append_cancel (sent p.log) (bytes income) (wire (code write) kid.m_id (bytes buf))
          (sym there ∙ ap (λ x. sent x.log) (some_cancel (sym w ∙ w')) ∙ on_wire) in
      let (frame, rest, d, same, empty) =
        decode_one write kid.m_id (bytes buf) r.remain income (record { named = tt; short = short })
          small b none_left arrives in
      (frame, rest, rw (d, f, c) (bind_last _), same, empty)
