-- ===== src/Multiplexer/Streams.antt =====
-- The life of a stream id: made, registered on, looked up and given to another owner.
use hula.Common.{
  ℕ, zero, suc, ◌+◌, ◌%◌, Bool, true, false, not, Option, none, some, List, [], ◌∷◌, length, get_or,
  ◌==◌, if◌then◌else◌, ◌>>=◌, ◌>>◌, assert, is_nil,
}
use hula.Common.Maps.{find, insert, has}
use hula.Multiplexer.{Callbacks, KmStreamId, Handle, StreamId, Provider, max_connection}

abbrev pub no_callbacks : Callbacks
no_callbacks = record {
  read = none;
  end = none;
  error = none;
  close = none;
  start_read = none;
  stop_read = none;
}

abbrev pub owner_eq : Option ℕ → Option ℕ → Bool
owner_eq none none = true
owner_eq (some a) (some b) = a == b
owner_eq _ _ = false

unfoldable pub locked : Option ℕ → List (Option ℕ) → Bool
locked k [] = false
locked k (j ∷ s) = if owner_eq j k then true else locked k s

unfoldable pub unlock : Option ℕ → List (Option ℕ) → List (Option ℕ)
unlock k [] = []
unlock k (j ∷ s) = if owner_eq j k then unlock k s else j ∷ unlock k s

-- all__: the ids from `i` on that are free, `rounds` of them looked at
unfoldable pub free_ids : {V : Type 0} → ℕ → ℕ → List (ℕ × V) → List ℕ
free_ids zero i m = []
free_ids (suc rounds) i m =
    let rest = free_ids rounds (suc i) m in if has i m then rest else i ∷ rest

-- `second == id` on what the allocator has under the id's number.
abbrev pub same_object : Handle → Option (Option KmStreamId) → Option KmStreamId
same_object h none = none
same_object h (some none) = none
same_object h (some (some kid)) = if kid.serial == h.serial then some kid else none

module _ {B : Type 0} where
  -- `new __KMStreamID(...)` under the id `i`, and `m_allocator[i] = id`.
  unfoldable pub allocate : ℕ → Option ℕ → Provider B → StreamId × Provider B
  allocate i owner p = (
    some (record { m_id = i; serial = p.made }),
    record p {
      allocator =
          insert i
            (some (record { m_id = i; serial = p.made; stream = owner; callbacks = no_callbacks }))
            p.allocator;
      made = p.made + 1;
    },
  )

  -- `draw` is what the random engine gives.
  unfoldable pub create_stream_id : ℕ → Option ℕ → Provider B → Option (StreamId × Provider B)
  create_stream_id draw owner p =
      if length p.allocator == max_connection
      then some (none, p)
      else if not (p.next_id == max_connection)
      then some (allocate p.next_id owner (record p { next_id = max_connection }))
      else let all = free_ids max_connection 0 p.allocator in
        assert (not (is_nil all)) >> some (allocate (get_or all (draw % length all) 0) owner p)

  -- StreamProvider::init
  unfoldable pub init : ℕ → Option ℕ → Provider B → Option (StreamId × Provider B)
  init draw stream p = do
    assert (not (locked stream p.run_lock))
    create_stream_id draw stream (record p { run_lock = stream ∷ p.run_lock })

  -- StreamProvider::finish
  unfoldable pub finish : Option ℕ → Provider B → Option (Provider B)
  finish stream p = do
    assert (locked stream p.run_lock)
    some (record p { run_lock = unlock stream p.run_lock })

  -- GETKID: the object behind an id, which has to be the one that the allocator holds.
  unfoldable pub get_kid : StreamId → Provider B → Option KmStreamId
  get_kid none p = none
  get_kid (some h) p = same_object h (find h.m_id p.allocator)

  abbrev pub set_kid : KmStreamId → Provider B → Provider B
  set_kid kid p = record p { allocator = insert kid.m_id (some kid) p.allocator }

  -- The six register functions.
  unfoldable pub register_read_callback : StreamId → ℕ → Provider B → Option (Provider B)
  register_read_callback id cb p = do
    kid ← get_kid id p
    some (set_kid (record kid { callbacks = record (kid.callbacks) { read = some cb } }) p)

  unfoldable pub register_error_callback : StreamId → ℕ → Provider B → Option (Provider B)
  register_error_callback id cb p = do
    kid ← get_kid id p
    some (set_kid (record kid { callbacks = record (kid.callbacks) { error = some cb } }) p)

  unfoldable pub register_close_callback : StreamId → ℕ → Provider B → Option (Provider B)
  register_close_callback id cb p = do
    kid ← get_kid id p
    some (set_kid (record kid { callbacks = record (kid.callbacks) { close = some cb } }) p)

  unfoldable pub register_end_callback : StreamId → ℕ → Provider B → Option (Provider B)
  register_end_callback id cb p = do
    kid ← get_kid id p
    some (set_kid (record kid { callbacks = record (kid.callbacks) { end = some cb } }) p)

  unfoldable pub register_should_start_write_callback :
      StreamId → ℕ → Provider B → Option (Provider B)
  register_should_start_write_callback id cb p = do
    kid ← get_kid id p
    some (set_kid (record kid { callbacks = record (kid.callbacks) { start_read = some cb } }) p)

  unfoldable pub register_should_stop_write_callback :
      StreamId → ℕ → Provider B → Option (Provider B)
  register_should_stop_write_callback id cb p = do
    kid ← get_kid id p
    some (set_kid (record kid { callbacks = record (kid.callbacks) { stop_read = some cb } }) p)

  unfoldable pub change_owner : StreamId → Option ℕ → Provider B → Option (Provider B)
  change_owner id stream p = do
    kid ← get_kid id p
    some (set_kid (record kid { stream = stream }) p)
