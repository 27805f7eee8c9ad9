-- ===== src/Duplex.antt =====
-- DuplexMap (include/duplex_map.hpp): two maps, from keys to values and back. Keys and values are
-- numbers; `none` is a failed assertion. An iterator is the key that it stands at.
pub mod Inverse
mod Tests
use hula.Common.{
  ℕ, Bool, not, Option, none, some, List, [], length, is_nil, ◌==◌, ◌>>=◌, ◌>>◌, assert,
}
use hula.Common.Maps.{find, insert, erase, has}

pub record DuplexMap : Type 0 where
  pub mapa : List (ℕ × ℕ)
  pub mapb : List (ℕ × ℕ)

unfoldable pub new_duplex_map : DuplexMap
new_duplex_map = record { mapa = []; mapb = [] }

-- The key at the iterator found, or end().
abbrev key_of : ℕ → Option ℕ → Option ℕ
key_of a none = none
key_of a (some b) = some a

unfoldable pub find_a : ℕ → DuplexMap → Option ℕ
find_a a m = key_of a (find a m.mapa)

abbrev then_find : DuplexMap → Option ℕ → Option ℕ
then_find m none = none
then_find m (some a) = find_a a m

unfoldable pub find_b : ℕ → DuplexMap → Option ℕ
find_b b m = then_find m (find b m.mapb)

unfoldable pub push_back : ℕ → ℕ → DuplexMap → Option DuplexMap
push_back a b m = do
  assert (not (has a m.mapa))
  assert (not (has b m.mapb))
  some (record { mapa = insert a b m.mapa; mapb = insert b a m.mapb })

-- `erase` at the key `a`, with its value; a missing one is end().
abbrev erase_entry : ℕ → Option ℕ → DuplexMap → Option DuplexMap
erase_entry a none m = none
erase_entry a (some b) m = some (record { mapa = erase a m.mapa; mapb = erase b m.mapb })

abbrev erase_at : Option ℕ → DuplexMap → Option DuplexMap
erase_at none m = none
erase_at (some a) m = erase_entry a (find a m.mapa) m

unfoldable pub erase_iterator : Option ℕ → DuplexMap → Option DuplexMap
erase_iterator iter m = erase_at iter m

-- `map[a] = b`, with what the map has for `a`.
abbrev assign_a_to : Option ℕ → ℕ → ℕ → DuplexMap → Option DuplexMap
assign_a_to none a b m = some (record { mapa = insert a b m.mapa; mapb = insert b a m.mapb })
assign_a_to (some old) a b m = do
  bt ← find old m.mapb
  assert (a == bt)
  some (record { mapa = insert a b m.mapa; mapb = insert b bt (erase old m.mapb) })

unfoldable pub assign_a : ℕ → ℕ → DuplexMap → Option DuplexMap
assign_a a b m = do assert (not (has b m.mapb)); assign_a_to (find a m.mapa) a b m

-- `map[b] = a`, with what the map has for `b`.
abbrev assign_b_to : Option ℕ → ℕ → ℕ → DuplexMap → Option DuplexMap
assign_b_to none b a m = some (record { mapa = insert a b m.mapa; mapb = insert b a m.mapb })
assign_b_to (some old) b a m = do
  bt ← find old m.mapa
  assert (b == bt)
  some (record { mapa = insert a bt (erase old m.mapa); mapb = insert b a m.mapb })

unfoldable pub assign_b : ℕ → ℕ → DuplexMap → Option DuplexMap
assign_b b a m = do assert (not (has a m.mapa)); assign_b_to (find b m.mapb) b a m
