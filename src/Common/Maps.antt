-- ===== src/Common/Maps.antt =====
-- std::map and std::set with numbers as keys, by association lists: `find` is the content.
use Prim.Native.Nat.{ℕ, suc}
use mathlib.Core.Path.{◌≡◌, refl}
use mathlib.Core.Bool.{Bool, true, false}
use mathlib.Core.Option.{Option, none, some}
use mathlib.Core.List.{List, [], ◌∷◌}
use native.Mathlib.Omega.{arith}
use hula.Common.Tests.{◌==◌, if◌then◌else◌}
use hula.Common.Lists.{length}

module _ {ℓ} {V : Type ℓ} where
  unfoldable pub find : ℕ → List (ℕ × V) → Option V
  find k [] = none
  find k ((j, v) ∷ m) = if j == k then some v else find k m

  -- m[k] = v
  unfoldable pub insert : ℕ → V → List (ℕ × V) → List (ℕ × V)
  insert k v [] = (k, v) ∷ []
  insert k v ((j, w) ∷ m) = if j == k then (k, v) ∷ m else (j, w) ∷ insert k v m

  -- m.erase(k)
  unfoldable pub erase : ℕ → List (ℕ × V) → List (ℕ × V)
  erase k [] = []
  erase k ((j, w) ∷ m) = if j == k then erase k m else (j, w) ∷ erase k m

  abbrev pub is_some : Option V → Bool
  is_some none = false
  is_some (some v) = true

  -- m.find(k) != m.end()
  unfoldable pub has : ℕ → List (ℕ × V) → Bool
  has k m = is_some (find k m)

  pub find-insert :
      (k j : ℕ) (v : V) (m : List (ℕ × V))
      → find j (insert k v m) ≡ (if k == j then some v else find j m)
  unfolding find insert
  find-insert k j v [] = refl
  find-insert k j v ((i, w) ∷ m) = ground (arith, find-insert k j v m)

  pub find-erase :
      (k j : ℕ) (m : List (ℕ × V)) → find j (erase k m) ≡ (if k == j then none else find j m)
  unfolding find erase
  find-erase k j [] = ground arith
  find-erase k j ((i, w) ∷ m) = ground (arith, find-erase k j m)

  pub length-insert_new :
      (k : ℕ) (v : V) (m : List (ℕ × V)) → find k m ≡ none → length (insert k v m) ≡ suc (length m)
  unfolding find insert
  length-insert_new k v [] e = refl
  length-insert_new k v ((i, w) ∷ m) e = ground (arith, length-insert_new k v m)

-- std::set
unfoldable pub contains : ℕ → List ℕ → Bool
contains k [] = false
contains k (j ∷ s) = if j == k then true else contains k s

unfoldable pub include : ℕ → List ℕ → List ℕ
include k s = if contains k s then s else k ∷ s

unfoldable pub exclude : ℕ → List ℕ → List ℕ
exclude k [] = []
exclude k (j ∷ s) = if j == k then exclude k s else j ∷ exclude k s

pub contains-include :
    (k j : ℕ) (s : List ℕ) → contains j (include k s) ≡ (if k == j then true else contains j s)
unfolding contains include
contains-include k j s = ground arith

pub contains-exclude :
    (k j : ℕ) (s : List ℕ) → contains j (exclude k s) ≡ (if k == j then false else contains j s)
unfolding contains exclude
contains-exclude k j [] = ground arith
contains-exclude k j (i ∷ s) = ground (arith, contains-exclude k j s)
