-- ===== src/Duplex/Tests.antt =====
-- The theorems on the duplex map at concrete input.
use hula.Common.{◌≡◌, refl, none, some, [], ◌∷◌, arith}
use hula.Common.Maps.{find}
use hula.Duplex.{DuplexMap, find_b, push_back, erase_iterator, assign_a}
use hula.Duplex.Inverse.{IsInverse, assign_a-IsInverse, push_back-IsInverse, erase_iterator-find_b}

abbrev one_pair : DuplexMap
one_pair = record { mapa = (1, 10) ∷ []; mapb = (10, 1) ∷ [] }

one_pair-IsInverse : IsInverse one_pair
unfolding find
one_pair-IsInverse a b = ground arith

assign_a-IsInverse_example :
    (n : DuplexMap) × (assign_a 1 11 one_pair ≡ some n)
    × IsInverse n
    × (find 1 n.mapa ≡ some 11)
    × (find 11 n.mapb ≡ some 1)
unfolding find
assign_a-IsInverse_example = assign_a-IsInverse 1 11 one_pair one_pair-IsInverse refl

push_back-IsInverse_example :
    (n : DuplexMap) × (push_back 2 11 one_pair ≡ some n)
    × IsInverse n
    × (find 2 n.mapa ≡ some 11)
    × (find 11 n.mapb ≡ some 2)
unfolding find
push_back-IsInverse_example = push_back-IsInverse 2 11 one_pair one_pair-IsInverse refl refl

erase_iterator-find_b_example :
    (n : DuplexMap) × (erase_iterator (find_b 10 one_pair) one_pair ≡ some n)
    × IsInverse n
    × (find 1 n.mapa ≡ none)
    × (find 10 n.mapb ≡ none)
unfolding find
erase_iterator-find_b_example = erase_iterator-find_b 1 10 one_pair one_pair-IsInverse refl
