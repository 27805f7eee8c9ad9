-- ===== src/Common/Lists.antt =====
-- Lists measured and cut by native numbers, under the library's names.
use Prim.Native.Nat.{ℕ, zero, suc, ◌+◌, ◌-◌, ◌≤◌, ◌<◌, min}
use mathlib.Core.Path.{◌≡◌, refl, sym, ap, ◌∙◌}
use mathlib.Core.Bool.{Bool, true, false}
use mathlib.Core.List.{List, [], ◌∷◌, ◌++◌}
use native.Mathlib.Nat.{zero-add}
use native.Mathlib.Numerals.{unary_clauses}
use native.Mathlib.Omega.{arith}

module _ {ℓ} {A : Type ℓ} where
  abbrev pub length : List A → ℕ
  length [] = 0
  length (x ∷ xs) = suc (length xs)

  abbrev pub get_or : List A → ℕ → A → A
  get_or [] i d = d
  get_or (x ∷ xs) zero d = x
  get_or (x ∷ xs) (suc i) d = get_or xs i d

  abbrev pub take : ℕ → List A → List A
  take zero xs = []
  take (suc n) [] = []
  take (suc n) (x ∷ xs) = x ∷ take n xs

  abbrev pub drop : ℕ → List A → List A
  drop zero xs = xs
  drop (suc n) [] = []
  drop (suc n) (x ∷ xs) = drop n xs

  abbrev pub All {κ} : (A → Type κ) → List A → Type κ
  All P [] = Unit {κ}
  All P (x ∷ xs) = P x × All P xs

  abbrev pub is_nil : List A → Bool
  is_nil [] = true
  is_nil (x ∷ xs) = false

module _ {ℓ} {A : Type ℓ} where
  pub length-append : (xs ys : List A) → length (xs ++ ys) ≡ length xs + length ys
  length-append [] ys = omega arith
  length-append (x ∷ xs) ys = omega (arith, length-append xs ys)

  pub length-drop : (n : ℕ) (xs : List A) → length (drop n xs) ≡ length xs - n
  length-drop zero xs = omega arith
  length-drop (suc n) [] = omega arith
  length-drop (suc n) (x ∷ xs) = omega (arith, length-drop n xs)

  pub length-take : (n : ℕ) (xs : List A) → length (take n xs) ≡ min n (length xs)
  length-take zero xs = omega arith
  length-take (suc n) [] = omega arith
  length-take (suc n) (x ∷ xs) = omega (arith, length-take n xs)

  pub take_all : (n : ℕ) (xs : List A) → length xs ≤ n → take n xs ≡ xs
  take_all zero [] h = refl
  take_all zero (x ∷ xs) h = absurd (omega arith)
  take_all (suc n) [] h = refl
  take_all (suc n) (x ∷ xs) h = ap (◌∷◌ x) (take_all n xs (omega arith))

  pub nil_of_length : (xs : List A) → length xs ≡ 0 → xs ≡ []
  nil_of_length [] h = refl
  nil_of_length (x ∷ xs) h = absurd (omega arith)

  pub take-append-drop : (n : ℕ) (xs : List A) → take n xs ++ drop n xs ≡ xs
  take-append-drop zero xs = refl
  take-append-drop (suc n) [] = refl
  take-append-drop (suc n) (x ∷ xs) = ap (◌∷◌ x) (take-append-drop n xs)

  pub drop_all : (n : ℕ) (xs : List A) → length xs ≤ n → drop n xs ≡ []
  drop_all zero [] h = refl
  drop_all zero (x ∷ xs) h = absurd (omega arith)
  drop_all (suc n) [] h = refl
  drop_all (suc n) (x ∷ xs) h = drop_all n xs (omega arith)

  pub take-length_append : (xs ys : List A) → take (length xs) (xs ++ ys) ≡ xs
  take-length_append [] ys = refl
  take-length_append (x ∷ xs) ys = ap (◌∷◌ x) (take-length_append xs ys)

  pub drop-length_append : (xs ys : List A) → drop (length xs) (xs ++ ys) ≡ ys
  drop-length_append [] ys = refl
  drop-length_append (x ∷ xs) ys = drop-length_append xs ys

  pub append_cancel : (xs ys zs : List A) → xs ++ ys ≡ xs ++ zs → ys ≡ zs
  append_cancel xs ys zs e =
      sym (drop-length_append xs ys) ∙ ap (drop (length xs)) e ∙ drop-length_append xs zs

  pub drop-length : (xs : List A) → drop (length xs) xs ≡ []
  drop-length [] = refl
  drop-length (x ∷ xs) = drop-length xs

  -- A buffer filled from two sources in turn holds the front of the two together.
  pub take-append :
      (n : ℕ) (xs ys : List A) → take n (xs ++ ys) ≡ take n xs ++ take (n - length xs) ys
  take-append zero [] ys = refl
  take-append (suc n) [] ys = simp unary_clauses
  take-append zero (x ∷ xs) ys = let e : 0 - suc (length xs) ≡ 0 = omega arith in rw e
  take-append (suc n) (x ∷ xs) ys = simp unary_clauses (ap (◌∷◌ x) (take-append n xs ys))

  pub take-min : (n : ℕ) (xs : List A) → take (min n (length xs)) xs ≡ take n xs
  take-min zero xs = simp unary_clauses
  take-min (suc n) [] = simp unary_clauses
  take-min (suc n) (x ∷ xs) = simp unary_clauses (ap (◌∷◌ x) (take-min n xs))

  pub drop-drop : (m n : ℕ) (xs : List A) → drop m (drop n xs) ≡ drop (n + m) xs
  drop-drop m zero xs = rw zero-add
  drop-drop zero (suc n) [] = simp unary_clauses
  drop-drop (suc m) (suc n) [] = simp unary_clauses
  drop-drop m (suc n) (x ∷ xs) =
      let e : suc n + m ≡ suc (n + m) = omega arith in rw e (drop-drop m n xs)

  pub drop-append :
      (n : ℕ) (xs ys : List A) → drop n (xs ++ ys) ≡ drop n xs ++ drop (n - length xs) ys
  drop-append zero [] ys = refl
  drop-append (suc n) [] ys = simp unary_clauses
  drop-append zero (x ∷ xs) ys = let e : 0 - suc (length xs) ≡ 0 = omega arith in rw e
  drop-append (suc n) (x ∷ xs) ys = simp unary_clauses (drop-append n xs ys)

  pub get_or-append :
      (n : ℕ) (xs ys : List A) (d : A) → n < length xs → get_or (xs ++ ys) n d ≡ get_or xs n d
  get_or-append n [] ys d h = absurd (omega arith)
  get_or-append zero (x ∷ xs) ys d h = refl
  get_or-append (suc n) (x ∷ xs) ys d h = get_or-append n xs ys d (omega arith)

  pub get_or-append_right :
      (n : ℕ) (xs ys : List A) (d : A)
      → length xs ≤ n
      → get_or (xs ++ ys) n d ≡ get_or ys (n - length xs) d
  get_or-append_right n [] ys d h = let e : n - 0 ≡ n = omega arith in rw e
  get_or-append_right zero (x ∷ xs) ys d h = absurd (omega arith)
  get_or-append_right (suc n) (x ∷ xs) ys d h =
      simp unary_clauses (get_or-append_right n xs ys d (omega arith))

  pub get_or-take : (i n : ℕ) (xs : List A) (d : A) → i < n → get_or (take n xs) i d ≡ get_or xs i d
  get_or-take i zero xs d h = absurd (omega arith)
  get_or-take i (suc n) [] d h = refl
  get_or-take zero (suc n) (x ∷ xs) d h = refl
  get_or-take (suc i) (suc n) (x ∷ xs) d h = get_or-take i n xs d (omega arith)

  pub take_four :
      (k : ℕ) (xs : List A) (d : A)
      → k + 4 ≤ length xs
      → take 4 (drop k xs)
        ≡ get_or xs k d
          ∷ get_or xs (suc k) d
          ∷ get_or xs (suc (suc k)) d
          ∷ get_or xs (suc (suc (suc k))) d
          ∷ []
  take_four zero [] d h = absurd (omega arith)
  take_four zero (x ∷ []) d h = absurd (omega arith)
  take_four zero (x ∷ y ∷ []) d h = absurd (omega arith)
  take_four zero (x ∷ y ∷ z ∷ []) d h = absurd (omega arith)
  take_four zero (x ∷ y ∷ z ∷ w ∷ xs) d h = refl
  take_four (suc k) [] d h = absurd (omega arith)
  take_four (suc k) (x ∷ xs) d h = take_four k xs d (omega arith)

module _ {ℓ κ} {A : Type ℓ} (P : A → Type κ) where
  pub All-append : (xs ys : List A) → All P xs → All P ys → All P (xs ++ ys)
  All-append [] ys hx hy = hy
  All-append (x ∷ xs) ys hx hy = (hx.0, All-append xs ys hx.1 hy)

  pub All-append_right : (xs ys : List A) → All P (xs ++ ys) → All P ys
  All-append_right [] ys h = h
  All-append_right (x ∷ xs) ys h = All-append_right xs ys h.1
