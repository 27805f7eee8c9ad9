-- ===== src/Multiplexer/Identifiers.antt =====
-- Stream ids: `createStreamID` always finds one while there is room.

use hula.Common.{
  ℕ, zero, suc, ◌+◌, ◌%◌, ◌≤◌, ◌<◌, ◌≡◌, refl, inl, inr, Bool, true, false, Option, none, some,
  List, [], ◌∷◌, length, get_or, ◌==◌, if◌then◌else◌, Bool-cases, eq_false, arith,
}
use hula.Common.Maps.{find, has, find-insert, length-insert_new}
use hula.Multiplexer.{Provider, max_connection}
use hula.Multiplexer.Streams.{no_callbacks, free_ids, allocate, create_stream_id}

module _ {V : Type 0} where
  -- The ids from `i` on that are taken.
  unfoldable used : ℕ → ℕ → List (ℕ × V) → ℕ
  used zero i m = 0
  used (suc rounds) i m = let rest = used rounds (suc i) m in if has i m then suc rest else rest

  length-free_ids : (n i : ℕ) (m : List (ℕ × V)) → length (free_ids n i m) + used n i m ≡ n
  unfolding free_ids used
  length-free_ids zero i m = refl
  length-free_ids (suc n) i m = ground (arith, length-free_ids n (suc i) m)

  used_past : (n i j : ℕ) (v : V) (m : List (ℕ × V)) → j < i → used n i ((j, v) ∷ m) ≡ used n i m
  unfolding used has find
  used_past zero i j v m lt = refl
  used_past (suc n) i j v m lt =
      rw (eq_false j i (λ e. omega (arith, e)), used_past n (suc i) j v m (omega arith)) refl

  used_cons : (n i j : ℕ) (v : V) (m : List (ℕ × V)) → used n i ((j, v) ∷ m) ≤ suc (used n i m)
  unfolding used has find
  used_cons zero i j v m = omega arith
  used_cons (suc n) i j v m = elim (Bool-cases (j == i)) [
    | inl e ↦ rw (e, used_past n (suc i) j v m (ground arith)) (ground arith)
    | inr e ↦ rw e (ground (arith, used_cons n (suc i) j v m))
  ]

used_nil : (V : Type 0) (n i : ℕ) → used {V = V} n i [] ≡ 0
unfolding used has find
used_nil V zero i = refl
used_nil V (suc n) i = used_nil V n (suc i)

module _ {V : Type 0} where
  used-length : (n i : ℕ) (m : List (ℕ × V)) → used n i m ≤ length m
  used-length n i [] = ground (arith, used_nil V n i)
  used-length n i ((j, v) ∷ m) = ground (arith, used_cons n i j v m, used-length n i m)

  IsFree : ℕ → List (ℕ × V) → ℕ → Type 0
  IsFree bound m x = (x < bound) × (find x m ≡ none)

  IsFree-weaken : (a b : ℕ) (m : List (ℕ × V)) (x : ℕ) → a ≤ b → IsFree a m x → IsFree b m x
  unfolding IsFree
  IsFree-weaken a b m x le free = (omega (arith, free.0), free.1)

  has-false : (i : ℕ) (m : List (ℕ × V)) → has i m ≡ false → find i m ≡ none
  unfolding has
  has-false i m e = ground (arith, e)

  -- One more id in front of a list of free ones.
  step-IsFree :
      (b : Bool) (bound i k : ℕ) (m : List (ℕ × V)) (rest : List ℕ)
      → i < bound
      → (b ≡ false → find i m ≡ none)
      → ((j : ℕ) → j < length rest → IsFree bound m (get_or rest j 0))
      → k < length (if b then rest else i ∷ rest)
      → IsFree bound m (get_or (if b then rest else i ∷ rest) k 0)
  unfolding IsFree
  step-IsFree true bound i k m rest lt free all h = all k h
  step-IsFree false bound i zero m rest lt free all h = (lt, free refl)
  step-IsFree false bound i (suc k) m rest lt free all h = all k (omega (arith, h))

  free_ids-IsFree :
      (n i k : ℕ) (m : List (ℕ × V))
      → k < length (free_ids n i m)
      → IsFree (i + n) m (get_or (free_ids n i m) k 0)
  unfolding free_ids
  free_ids-IsFree zero i k m lt = absurd (omega (arith, lt))
  free_ids-IsFree (suc n) i k m lt =
      step-IsFree (has i m) (i + suc n) i k m (free_ids n (suc i) m) (omega arith) (has-false i m)
        (λ j h.
          IsFree-weaken (suc i + n) (i + suc n) m (get_or (free_ids n (suc i) m) j 0) (omega arith)
            (free_ids-IsFree n (suc i) j m h))
        lt

module _ {B : Type 0} where
  next-IsFree :
      (draw : ℕ) (p : Provider B)
      → length p.allocator < max_connection
      → IsFree max_connection p.allocator (
          get_or
            (free_ids max_connection 0 p.allocator)
            (draw % length (free_ids max_connection 0 p.allocator))
            0)
  next-IsFree draw p lt =
      free_ids-IsFree max_connection 0 (draw % length (free_ids max_connection 0 p.allocator))
        p.allocator
        (omega (
          arith,
          length-free_ids max_connection 0 p.allocator,
          used-length max_connection 0 p.allocator,
        ))

  create_stream_id-allocate :
      (draw : ℕ) (owner : Option ℕ) (p : Provider B)
      → p.next_id ≡ max_connection
      → length p.allocator < max_connection
      → (id : ℕ) × (create_stream_id draw owner p ≡ some (allocate id owner p))
        × IsFree max_connection p.allocator id
  unfolding create_stream_id
  create_stream_id-allocate draw owner p e lt = (
    get_or (free_ids max_connection 0 p.allocator)
        (draw % length (free_ids max_connection 0 p.allocator)) 0,
    ground (
      arith,
      length-free_ids max_connection 0 p.allocator,
      used-length max_connection 0 p.allocator,
    ),
    next-IsFree draw p lt,
  )

  find-allocate :
      (id j : ℕ) (owner : Option ℕ) (p : Provider B)
      → find j ((allocate id owner p).1).allocator ≡ (
          if id == j
          then some (
              some
                (record { m_id = id; serial = p.made; stream = owner; callbacks = no_callbacks }))
          else find j p.allocator)
  unfolding allocate
  find-allocate id j owner p = find-insert id j _ p.allocator

  -- While fewer than 64 ids are in use and no id is set aside for a connection of the other end,
  -- `createStreamID` returns, whatever the random engine draws: an id below 64 that the allocator
  -- did not hold, under which it now holds a new object of this owner with no callback; every other
  -- id has what it had, and one id more is in use.
  pub create_stream_id-fresh :
      (draw : ℕ) (owner : Option ℕ) (p : Provider B)
      → p.next_id ≡ max_connection
      → length p.allocator < max_connection
      → (id : ℕ) × (q : Provider B) × (create_stream_id draw owner p
          ≡ some (some (record { m_id = id; serial = p.made }), q))
        × (id < max_connection)
        × (find id p.allocator ≡ none)
        × (length q.allocator ≡ suc (length p.allocator))
        × ((j : ℕ)
            → find j q.allocator ≡ (
                if id == j
                then some (
                    some (record {
                      m_id = id;
                      serial = p.made;
                      stream = owner;
                      callbacks = no_callbacks;
                    }))
                else find j p.allocator))
  unfolding allocate IsFree
  create_stream_id-fresh draw owner p e lt =
      let (id, made, free) = create_stream_id-allocate draw owner p e lt in
      (
        id,
        (allocate id owner p).1,
        made,
        free.0,
        free.1,
        length-insert_new id _ p.allocator free.1,
        λ j. find-allocate id j owner p,
      )
