-- ===== src/Relay/Events.antt =====
-- The relay over any sequence of events: no assertion fails.

use hula.Common.{
  ℕ, suc, ◌≡◌, refl, sym, ap, ◌∙◌, ℤ, is_negative, true, false, Option, none, some, List, [], ◌∷◌,
  ◌==◌, ◌>>=◌, Bool-cases, inl, inr, arith,
}
use hula.Relay.{
  Side, side_a, side_b, other, registered, stored, wrote, end_sent, double_end, set_timeout, closed,
  StreamRelay, get_end, set_end, emit, is_null, start_side, start_relay, data_listener,
  drain_listener, should_start_write_listener, should_stop_write_listener, end_listener,
  error_listener, wait_start_read, new_end, new_relay, set_stream, register_listener,
}
use hula.Relay.Steady.{
  IsSteady, Runs, start_side-Runs, stop_side-Runs, emit-IsSteady, false-ne-true,
}

-- What happens to the relay, on which side; a number is what the random engine gives.
pub data Event (B : Type 0) : Type 0 where
  data_came : B → ℤ → ℕ → Event B
  drained should_start should_stop : ℕ → Event B
  end_came error_came : Event B
  waited : ℕ → Event B

module _ {B : Type 0} where
  abbrev pub handle : Side → Event B → StreamRelay B → Option (StreamRelay B)
  handle side (data_came buf rv draw) r = data_listener draw side buf rv r
  handle side (drained draw) r = drain_listener draw side r
  handle side (should_start draw) r = should_start_write_listener draw side r
  handle side (should_stop draw) r = should_stop_write_listener draw side r
  handle side end_came r = some (end_listener side r)
  handle side error_came r = some (error_listener side r)
  handle side (waited prev) r = some (wait_start_read prev side r)

  abbrev pub handle_all : List (Side × Event B) → StreamRelay B → Option (StreamRelay B)
  handle_all [] r = some r
  handle_all ((side, e) ∷ es) r = handle side e r >>= handle_all es

  -- The first `end` of a stream, before the test on the other one.
  abbrev note_end : Side → StreamRelay B → StreamRelay B
  note_end side r =
      set_end side (record (get_end side r) { ended = true }) (emit (end_sent (other side)) r)

  closed_note_end-IsSteady :
      (side : Side) (r : StreamRelay B)
      → (get_end side r).ended ≡ false
      → IsSteady r
      → IsSteady (emit closed (note_end side r))
  unfolding other
  closed_note_end-IsSteady side_a r e h = record {
    reading = elim [ side_a ↦ h.reading side_a | side_b ↦ h.reading side_b ];
    alternating = elim [ side_a ↦ h.alternating side_a | side_b ↦ h.alternating side_b ];
    ends = elim [ side_a ↦ ap suc (h.ends side_a ∙ rw e) | side_b ↦ h.ends side_b ];
    closing = λ ea eb. refl;
  }
  closed_note_end-IsSteady side_b r e h = record {
    reading = elim [ side_a ↦ h.reading side_a | side_b ↦ h.reading side_b ];
    alternating = elim [ side_a ↦ h.alternating side_a | side_b ↦ h.alternating side_b ];
    ends = elim [ side_a ↦ h.ends side_a | side_b ↦ ap suc (h.ends side_b ∙ rw e) ];
    closing = λ ea eb. refl;
  }

  note_end-IsSteady :
      (side : Side) (r : StreamRelay B)
      → (get_end side r).ended ≡ false
      → (get_end (other side) (note_end side r)).ended ≡ false
      → IsSteady r
      → IsSteady (note_end side r)
  unfolding other
  note_end-IsSteady side_a r e o h = record {
    reading = elim [ side_a ↦ h.reading side_a | side_b ↦ h.reading side_b ];
    alternating = elim [ side_a ↦ h.alternating side_a | side_b ↦ h.alternating side_b ];
    ends = elim [ side_a ↦ ap suc (h.ends side_a ∙ rw e) | side_b ↦ h.ends side_b ];
    closing = λ ea eb. absurd (false-ne-true (sym o ∙ eb));
  }
  note_end-IsSteady side_b r e o h = record {
    reading = elim [ side_a ↦ h.reading side_a | side_b ↦ h.reading side_b ];
    alternating = elim [ side_a ↦ h.alternating side_a | side_b ↦ h.alternating side_b ];
    ends = elim [ side_a ↦ h.ends side_a | side_b ↦ ap suc (h.ends side_b ∙ rw e) ];
    closing = λ ea eb. absurd (false-ne-true (sym o ∙ ea));
  }

  end_listener-IsSteady :
      (side : Side) (r : StreamRelay B) → IsSteady r → IsSteady (end_listener side r)
  unfolding end_listener
  end_listener-IsSteady side r h = elim (Bool-cases (get_end side r).ended) [
    | inl e ↦ rw e (emit-IsSteady (double_end side) r refl h)
    | inr e ↦ elim (Bool-cases (get_end (other side) (note_end side r)).ended) [
      | inl o ↦ rw (e, o) (closed_note_end-IsSteady side r e h)
      | inr o ↦ rw (e, o) (note_end-IsSteady side r e o h)
    ]
  ]

  Runs-some : (r : StreamRelay B) → IsSteady r → Runs (some r)
  Runs-some r h = (r, refl, h)

  handle-Runs :
      (side : Side) (e : Event B) (r : StreamRelay B) → IsSteady r → Runs (handle side e r)
  unfolding data_listener drain_listener should_start_write_listener should_stop_write_listener
      error_listener wait_start_read
  handle-Runs side (data_came buf rv draw) r h =
      let s = emit (wrote (other side) buf) r in
      let k : IsSteady s = emit-IsSteady (wrote (other side) buf) r refl h in
      elim (Bool-cases (is_negative rv)) [
        | inl n ↦ elim (Bool-cases (get_end side s).start_read) [
          | inl e ↦ rw (n, e) (stop_side-Runs draw side s e k)
          | inr e ↦ rw (n, e) (Runs-some s k)
        ]
        | inr n ↦ rw n (Runs-some s k)
      ]
  handle-Runs side (drained draw) r h = elim (Bool-cases (get_end (other side) r).start_read) [
    | inl e ↦ rw e (Runs-some r h)
    | inr e ↦ rw e (start_side-Runs draw (other side) r e h)
  ]
  handle-Runs side (should_start draw) r h = elim (Bool-cases (get_end (other side) r).start_read) [
    | inl e ↦ rw e (Runs-some r h)
    | inr e ↦ rw e (start_side-Runs draw (other side) r e h)
  ]
  handle-Runs side (should_stop draw) r h = elim (Bool-cases (get_end (other side) r).start_read) [
    | inl e ↦
        let (s, stop, k) = stop_side-Runs draw (other side) r e h in
        rw (e, stop)
          (Runs-some _
            (emit-IsSteady (set_timeout (other side) (get_end (other side) s).random) s refl k))
    | inr e ↦ rw e (Runs-some r h)
  ]
  handle-Runs side end_came r h = Runs-some _ (end_listener-IsSteady side r h)
  handle-Runs side error_came r h = Runs-some _ (emit-IsSteady closed r refl h)
  handle-Runs side (waited prev) r h = elim (Bool-cases ((get_end side r).random == prev)) [
    | inl e ↦ rw e (Runs-some _ (emit-IsSteady closed r refl h))
    | inr e ↦ rw e (Runs-some r h)
  ]

  -- From a steady state, any sequence of events runs through, into a steady state.
  handle_all-Runs :
      (es : List (Side × Event B)) (r : StreamRelay B) → IsSteady r → Runs (handle_all es r)
  handle_all-Runs [] r h = Runs-some r h
  handle_all-Runs ((side, e) ∷ es) r h =
      let (s, run, k) = handle-Runs side e r h in rw run (handle_all-Runs es s k)

  -- Two streams, not used before, are set, the relay is started, and events come in.
  abbrev pub relay : ℕ → ℕ → ℕ → ℕ → List (Side × Event B) → Option (StreamRelay B)
  relay stream_a stream_b draw_a draw_b es = do
    p ← set_stream side_a none stream_a new_relay
    q ← set_stream side_b none stream_b p
    s ← start_relay draw_a draw_b q
    handle_all es s

  start_side_a-b : (draw : ℕ) (r t : StreamRelay B) → start_side draw side_a r ≡ some t → t.b ≡ r.b
  unfolding start_side
  start_side_a-b draw r t e = ground (arith, e)

  start_relay-Runs :
      (draw_a draw_b : ℕ) (r : StreamRelay B)
      → is_null r.a.stream ≡ false
      → is_null r.b.stream ≡ false
      → r.a.start_read ≡ false
      → r.b.start_read ≡ false
      → IsSteady r
      → Runs (start_relay draw_a draw_b r)
  unfolding start_relay register_listener
  start_relay-Runs draw_a draw_b r ha hb a b h =
      let s = emit (registered side_b) (emit (registered side_a) r) in
      let k : IsSteady s =
        emit-IsSteady (registered side_b) (emit (registered side_a) r) refl
          (emit-IsSteady (registered side_a) r refl h) in
      let (t, first, l) = start_side-Runs draw_a side_a s a k in
      rw (ha, hb, first)
        (start_side-Runs draw_b side_b t
          (ap (λ x. x.start_read) (start_side_a-b draw_a s t first) ∙ b) l)

  ready-IsSteady :
      (stream_a stream_b : ℕ)
      → IsSteady {B = B} (record {
        a = record new_end { stream = some stream_a };
        b = record new_end { stream = some stream_b };
        log = stored side_b stream_b ∷ stored side_a stream_a ∷ [];
      })
  unfolding other
  ready-IsSteady stream_a stream_b = record {
    reading = elim [ side_a ↦ refl | side_b ↦ refl ];
    alternating = elim [ side_a ↦ refl | side_b ↦ refl ];
    ends = elim [ side_a ↦ refl | side_b ↦ refl ];
    closing = λ ea eb. absurd (false-ne-true ea);
  }

  -- After two streams are set and the relay is started, any sequence of events on either side - data
  -- with any result of the write, drain, the two requests about writing, end, error, timeouts - runs
  -- through: no assertion of the relay fails. In the state reached, for each stream: the flag of
  -- reading says whether startRead or stopRead was called last; startRead was only called on a stream
  -- that was not being read and stopRead on one that was; `end` was called once on the other stream
  -- if this one has ended, and else never; and if both have ended then __close was called.
  pub relay-IsSteady :
      (stream_a stream_b draw_a draw_b : ℕ) (es : List (Side × Event B))
      → (r : StreamRelay B) × (relay stream_a stream_b draw_a draw_b es ≡ some r) × IsSteady r
  unfolding set_stream new_relay
  relay-IsSteady stream_a stream_b draw_a draw_b es =
      let q : StreamRelay B = record {
        a = record new_end { stream = some stream_a };
        b = record new_end { stream = some stream_b };
        log = stored side_b stream_b ∷ stored side_a stream_a ∷ [];
      } in
      let (s, run, k) =
        start_relay-Runs draw_a draw_b q refl refl refl refl (ready-IsSteady stream_a stream_b) in
      rw run (handle_all-Runs es s k)
