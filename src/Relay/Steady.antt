-- ===== src/Relay/Steady.antt =====
-- What the flags of the relay say about the calls it made, and the steps that keep that true.

use hula.Common.{
  ℕ, suc, ◌≡◌, ◌≢◌, refl, sym, ap, ◌∙◌, Bool, true, false, not, ◌&&◌, Option, some, List, [], ◌∷◌,
  if◌then◌else◌,
}
use hula.Relay.{
  Side, side_a, side_b, other, Effect, registered, stored, started, stopped, wrote, end_sent,
  double_end, set_timeout, closed, StreamRelay, get_end, emit, start_side, stop_side,
}

abbrev pub same_side : Side → Side → Bool
same_side side_a side_a = true
same_side side_b side_b = true
same_side _ _ = false

pub false-ne-true : false ≢ true
false-ne-true e = absurd cc

module _ {B : Type 0} where
  -- The last of startRead and stopRead on a stream was startRead.
  abbrev pub is_reading : Side → List (Effect B) → Bool
  is_reading side [] = false
  is_reading side (started s ∷ es) = if same_side s side then true else is_reading side es
  is_reading side (stopped s ∷ es) = if same_side s side then false else is_reading side es
  is_reading side (e ∷ es) = is_reading side es

  -- startRead is called on a stream only while it is not read, and stopRead only while it is.
  abbrev pub alternates : Side → List (Effect B) → Bool
  alternates side [] = true
  alternates side (started s ∷ es) =
      alternates side es && (if same_side s side then not (is_reading side es) else true)
  alternates side (stopped s ∷ es) =
      alternates side es && (if same_side s side then is_reading side es else true)
  alternates side (e ∷ es) = alternates side es

  -- How often `end` was called on a stream.
  abbrev pub ends_sent : Side → List (Effect B) → ℕ
  ends_sent side [] = 0
  ends_sent side (end_sent s ∷ es) =
      if same_side s side then suc (ends_sent side es) else ends_sent side es
  ends_sent side (e ∷ es) = ends_sent side es

  abbrev pub has_closed : List (Effect B) → Bool
  has_closed [] = false
  has_closed (closed ∷ es) = true
  has_closed (e ∷ es) = has_closed es

  pub record IsSteady (r : StreamRelay B) : Type 0 where
    pub reading : (side : Side) → is_reading side r.log ≡ (get_end side r).start_read
    pub alternating : (side : Side) → alternates side r.log ≡ true
    pub ends :
        (side : Side) → ends_sent (other side) r.log ≡ (if (get_end side r).ended then 1 else 0)
    pub closing : r.a.ended ≡ true → r.b.ended ≡ true → has_closed r.log ≡ true

  -- It returns, in a steady state.
  abbrev pub Runs : Option (StreamRelay B) → Type 0
  Runs o = (s : StreamRelay B) × (o ≡ some s) × IsSteady s

  pub start_side-Runs :
      (draw : ℕ) (side : Side) (r : StreamRelay B)
      → (get_end side r).start_read ≡ false
      → IsSteady r
      → Runs (start_side draw side r)
  unfolding start_side other
  start_side-Runs draw side_a r e h = rw e (
    _,
    refl,
    record {
      reading = elim [ side_a ↦ refl | side_b ↦ h.reading side_b ];
      alternating = elim [
        | side_a ↦ rw (h.alternating side_a, h.reading side_a, e)
        | side_b ↦ rw (h.alternating side_b)
      ];
      ends = elim [ side_a ↦ h.ends side_a | side_b ↦ h.ends side_b ];
      closing = h.closing;
    },
  )
  start_side-Runs draw side_b r e h = rw e (
    _,
    refl,
    record {
      reading = elim [ side_a ↦ h.reading side_a | side_b ↦ refl ];
      alternating = elim [
        | side_a ↦ rw (h.alternating side_a)
        | side_b ↦ rw (h.alternating side_b, h.reading side_b, e)
      ];
      ends = elim [ side_a ↦ h.ends side_a | side_b ↦ h.ends side_b ];
      closing = h.closing;
    },
  )

  pub stop_side-Runs :
      (draw : ℕ) (side : Side) (r : StreamRelay B)
      → (get_end side r).start_read ≡ true
      → IsSteady r
      → Runs (stop_side draw side r)
  unfolding stop_side other
  stop_side-Runs draw side_a r e h = rw e (
    _,
    refl,
    record {
      reading = elim [ side_a ↦ refl | side_b ↦ h.reading side_b ];
      alternating = elim [
        | side_a ↦ rw (h.alternating side_a, h.reading side_a, e)
        | side_b ↦ rw (h.alternating side_b)
      ];
      ends = elim [ side_a ↦ h.ends side_a | side_b ↦ h.ends side_b ];
      closing = h.closing;
    },
  )
  stop_side-Runs draw side_b r e h = rw e (
    _,
    refl,
    record {
      reading = elim [ side_a ↦ h.reading side_a | side_b ↦ refl ];
      alternating = elim [
        | side_a ↦ rw (h.alternating side_a)
        | side_b ↦ rw (h.alternating side_b, h.reading side_b, e)
      ];
      ends = elim [ side_a ↦ h.ends side_a | side_b ↦ h.ends side_b ];
      closing = h.closing;
    },
  )

  -- Calls that no part of the invariant looks at, and `closed`.
  abbrev pub is_plain : Effect B → Bool
  is_plain (started s) = false
  is_plain (stopped s) = false
  is_plain (end_sent s) = false
  is_plain e = true

  plain_cons :
      (e : Effect B) (es : List (Effect B)) (side : Side)
      → is_plain e ≡ true
      → (is_reading side (e ∷ es) ≡ is_reading side es)
        × (alternates side (e ∷ es) ≡ alternates side es)
        × (ends_sent side (e ∷ es) ≡ ends_sent side es)
        × (has_closed es ≡ true → has_closed (e ∷ es) ≡ true)
  plain_cons (registered s) es side h = (refl, refl, refl, λ c. c)
  plain_cons (stored s p) es side h = (refl, refl, refl, λ c. c)
  plain_cons (wrote s b) es side h = (refl, refl, refl, λ c. c)
  plain_cons (double_end s) es side h = (refl, refl, refl, λ c. c)
  plain_cons (set_timeout s n) es side h = (refl, refl, refl, λ c. c)
  plain_cons closed es side h = (refl, refl, refl, λ c. refl)
  plain_cons (started s) es side h = absurd cc
  plain_cons (stopped s) es side h = absurd cc
  plain_cons (end_sent s) es side h = absurd cc

  get_end-emit :
      (side : Side) (e : Effect B) (r : StreamRelay B) → get_end side (emit e r) ≡ get_end side r
  get_end-emit side_a e r = refl
  get_end-emit side_b e r = refl

  pub emit-IsSteady :
      (e : Effect B) (r : StreamRelay B) → is_plain e ≡ true → IsSteady r → IsSteady (emit e r)
  emit-IsSteady e r plain h = record {
    reading = λ side.
        (plain_cons e r.log side plain).0
        ∙ h.reading side
        ∙ ap (λ x. x.start_read) (sym (get_end-emit side e r));
    alternating = λ side. (plain_cons e r.log side plain).1 ∙ h.alternating side;
    ends = λ side.
        (plain_cons e r.log (other side) plain).2
        ∙ h.ends side
        ∙ ap (λ x. if x.ended then 1 else 0) (sym (get_end-emit side e r));
    closing = λ ea eb. (plain_cons e r.log side_a plain).3 (h.closing ea eb);
  }
