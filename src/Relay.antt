-- ===== src/Relay.antt =====
-- StreamRelay (lib/StreamRelay.cpp): traffic between two stream objects. The code has each function
-- twice, for the streams a and b; here a function takes the side, and `other` is the opposite one.
-- A result `none` is a failed assertion. The log has the calls that leave the relay, the latest
-- first; `closed` is the virtual function __close. The random numbers are drawn by the caller.
pub mod Steady
pub mod Events
mod Tests
use hula.Common.{
  ℕ, Bool, true, false, not, Option, none, some, List, [], ◌∷◌, ℤ, is_negative, ◌==◌, if◌then◌else◌,
  ◌>>=◌, ◌>>◌, assert,
}

pub data Side : Type 0 where
  side_a side_b : Side

unfoldable pub other : Side → Side
other side_a = side_b
other side_b = side_a

-- A call, with the stream that it is made on.
pub data Effect (B : Type 0) : Type 0 where
  -- the listeners of the events, and the pointer to the relay
  registered : Side → Effect B
  stored : Side → ℕ → Effect B
  started stopped : Side → Effect B
  wrote : Side → B → Effect B
  end_sent : Side → Effect B
  -- emit("error", "double end")
  double_end : Side → Effect B
  -- SetTimeout of __wait_a_start_read or __wait_b_start_read, with m_prev
  set_timeout : Side → ℕ → Effect B
  closed : Effect B

-- The members for one of the streams.
pub record End : Type 0 where
  pub stream : Option ℕ
  pub start_read : Bool
  pub ended : Bool
  pub random : ℕ

pub record StreamRelay (B : Type 0) : Type 0 where
  pub a : End
  pub b : End
  pub log : List (Effect B)

abbrev pub is_null : Option ℕ → Bool
is_null none = true
is_null (some p) = false

abbrev pub new_end : End
new_end = record { stream = none; start_read = false; ended = false; random = 0 }

module _ {B : Type 0} where
  -- The constructor.
  unfoldable pub new_relay : StreamRelay B
  new_relay = record { a = new_end; b = new_end; log = [] }

  abbrev pub get_end : Side → StreamRelay B → End
  get_end side_a r = r.a
  get_end side_b r = r.b

  abbrev pub set_end : Side → End → StreamRelay B → StreamRelay B
  set_end side_a e r = record r { a = e }
  set_end side_b e r = record r { b = e }

  abbrev pub emit : Effect B → StreamRelay B → StreamRelay B
  emit e r = record r { log = e ∷ r.log }

  -- fetchPtr of the new stream object, and the object; setStreamA and setStreamB
  unfoldable pub set_stream : Side → Option ℕ → ℕ → StreamRelay B → Option (StreamRelay B)
  set_stream side pointer stream r = do
    assert (is_null pointer)
    assert (is_null (get_end side r).stream)
    some (
        emit (stored side stream)
          (set_end side (record (get_end side r) { stream = some stream }) r))

  -- register_a_listener and register_b_listener
  unfoldable pub register_listener : Side → StreamRelay B → StreamRelay B
  register_listener side r = emit (registered side) r

  -- __relay_a_to_b and __relay_b_to_a
  unfoldable pub start_side : ℕ → Side → StreamRelay B → Option (StreamRelay B)
  start_side draw side r = do
    assert (not (get_end side r).start_read)
    some (
        set_end side (record (get_end side r) { start_read = true; random = draw })
          (emit (started side) r))

  -- __stop_a_to_b and __stop_b_to_a
  unfoldable pub stop_side : ℕ → Side → StreamRelay B → Option (StreamRelay B)
  stop_side draw side r = do
    assert (get_end side r).start_read
    some (
        set_end side (record (get_end side r) { start_read = false; random = draw })
          (emit (stopped side) r))

  unfoldable pub start_relay : ℕ → ℕ → StreamRelay B → Option (StreamRelay B)
  start_relay draw_a draw_b r = do
    assert (not (is_null r.a.stream))
    assert (not (is_null r.b.stream))
    s ← start_side draw_a side_a (register_listener side_b (register_listener side_a r))
    start_side draw_b side_b s

  -- `rv` is what `write` of the other stream gives.
  unfoldable pub data_listener : ℕ → Side → B → ℤ → StreamRelay B → Option (StreamRelay B)
  data_listener draw side buf rv r =
      let s = emit (wrote (other side) buf) r in
      if is_negative rv
      then if (get_end side s).start_read then stop_side draw side s else some s
      else some s

  unfoldable pub drain_listener : ℕ → Side → StreamRelay B → Option (StreamRelay B)
  drain_listener draw side r =
      if not (get_end (other side) r).start_read then start_side draw (other side) r else some r

  unfoldable pub should_start_write_listener : ℕ → Side → StreamRelay B → Option (StreamRelay B)
  should_start_write_listener draw side r =
      if not (get_end (other side) r).start_read then start_side draw (other side) r else some r

  unfoldable pub should_stop_write_listener : ℕ → Side → StreamRelay B → Option (StreamRelay B)
  should_stop_write_listener draw side r =
      if (get_end (other side) r).start_read
      then (stop_side draw (other side) r >>= λ s.
          some (emit (set_timeout (other side) (get_end (other side) s).random) s))
      else some r

  unfoldable pub end_listener : Side → StreamRelay B → StreamRelay B
  end_listener side r =
      if (get_end side r).ended
      then emit (double_end side) r
      else let s =
          set_end side (record (get_end side r) { ended = true })
            (emit (end_sent (other side)) r) in
        if (get_end (other side) s).ended then emit closed s else s

  unfoldable pub error_listener : Side → StreamRelay B → StreamRelay B
  error_listener side r = emit closed r

  -- __wait_a_start_read and __wait_b_start_read, of a relay that exists
  unfoldable pub wait_start_read : ℕ → Side → StreamRelay B → StreamRelay B
  wait_start_read prev side r = if (get_end side r).random == prev then emit closed r else r
