-- ===== src/Duplex/Inverse.antt =====
-- The two maps stay inverse to each other, and the operations return where they are meant to.
use hula.Common.{ℕ, ◌≡◌, ◌↔◌, ◌∙◌, none, some, ==_refl, Option-cases, inl, inr, arith}
use hula.Common.Maps.{find, insert, erase, has, find-insert, find-erase}
use hula.Duplex.{DuplexMap, push_back, find_a, find_b, erase_iterator, assign_a}

-- A key has a value exactly if the value has the key.
abbrev pub IsInverse : DuplexMap → Type 0
IsInverse m = (a b : ℕ) → (find a m.mapa ≡ some b) ↔ (find b m.mapb ≡ some a)

insert-IsInverse :
    (a b : ℕ) (m : DuplexMap)
    → find a m.mapa ≡ none
    → find b m.mapb ≡ none
    → IsInverse m
    → IsInverse (record { mapa = insert a b m.mapa; mapb = insert b a m.mapb })
insert-IsInverse a b m ea eb h x y =
    rw (find-insert a x b m.mapa, find-insert b y a m.mapb)
      (ground (arith, h x y, h a y, h x b, ea, eb))

erase-IsInverse :
    (a b : ℕ) (m : DuplexMap)
    → find a m.mapa ≡ some b
    → IsInverse m
    → IsInverse (record { mapa = erase a m.mapa; mapb = erase b m.mapb })
erase-IsInverse a b m e h x y =
    rw (find-erase a x m.mapa, find-erase b y m.mapb)
      (ground (arith, h x y, h a b, h a y, h x b, e))

assign-IsInverse :
    (a b old : ℕ) (m : DuplexMap)
    → find a m.mapa ≡ some old
    → find b m.mapb ≡ none
    → IsInverse m
    → IsInverse (record { mapa = insert a b m.mapa; mapb = insert b a (erase old m.mapb) })
assign-IsInverse a b old m e eb h x y =
    rw (find-insert a x b m.mapa, find-insert b y a (erase old m.mapb), find-erase old y m.mapb)
      (ground (arith, h x y, h a old, h a y, h x b, h x old, e, eb))

-- In a map whose two sides are inverse to each other, an assignment of a value that is not in the map
-- to a key, new or not, returns: the sides are still inverse, and the key and the value belong to
-- each other.
pub assign_a-IsInverse :
    (a b : ℕ) (m : DuplexMap)
    → IsInverse m
    → find b m.mapb ≡ none
    → (n : DuplexMap) × (assign_a a b m ≡ some n)
      × IsInverse n
      × (find a n.mapa ≡ some b)
      × (find b n.mapb ≡ some a)
unfolding assign_a has
assign_a-IsInverse a b m h eb = elim (Option-cases (find a m.mapa)) [
  | inl e ↦ (
    record { mapa = insert a b m.mapa; mapb = insert b a m.mapb },
    rw (eb, e),
    insert-IsInverse a b m e eb h,
    find-insert a a b m.mapa ∙ rw (==_refl a),
    find-insert b b a m.mapb ∙ rw (==_refl b),
  )
  | inr (old, e) ↦ (
    record { mapa = insert a b m.mapa; mapb = insert b a (erase old m.mapb) },
    rw (eb, e, (h a old).0 e, ==_refl a),
    assign-IsInverse a b old m e eb h,
    find-insert a a b m.mapa ∙ rw (==_refl a),
    find-insert b b a (erase old m.mapb) ∙ rw (==_refl b),
  )
]

-- In a map whose two sides are inverse to each other, `push_back` of a key and a value that are both
-- new returns, and the sides are still inverse, with this pair in them.
pub push_back-IsInverse :
    (a b : ℕ) (m : DuplexMap)
    → IsInverse m
    → find a m.mapa ≡ none
    → find b m.mapb ≡ none
    → (n : DuplexMap) × (push_back a b m ≡ some n)
      × IsInverse n
      × (find a n.mapa ≡ some b)
      × (find b n.mapb ≡ some a)
unfolding push_back has
push_back-IsInverse a b m h ea eb = (
  record { mapa = insert a b m.mapa; mapb = insert b a m.mapb },
  rw (ea, eb),
  insert-IsInverse a b m ea eb h,
  find-insert a a b m.mapa ∙ rw (==_refl a),
  find-insert b b a m.mapb ∙ rw (==_refl b),
)

-- In a map whose two sides are inverse to each other, a pair found by its value can be erased: that
-- returns, the sides are still inverse, and neither the value nor its key is in the map any more.
pub erase_iterator-find_b :
    (a b : ℕ) (m : DuplexMap)
    → IsInverse m
    → find b m.mapb ≡ some a
    → (n : DuplexMap) × (erase_iterator (find_b b m) m ≡ some n)
      × IsInverse n
      × (find a n.mapa ≡ none)
      × (find b n.mapb ≡ none)
unfolding erase_iterator find_b find_a
erase_iterator-find_b a b m h e =
    let k : find a m.mapa ≡ some b = (h a b).1 e in
    (
      record { mapa = erase a m.mapa; mapb = erase b m.mapb },
      rw (e, k, k),
      erase-IsInverse a b m k h,
      find-erase a a m.mapa ∙ rw (==_refl a),
      find-erase b b m.mapb ∙ rw (==_refl b),
    )
