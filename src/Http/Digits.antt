-- ===== src/Http/Digits.antt =====
-- The digits of a number.
use hula.Common.{
  ℕ, zero, suc, ◌+◌, ◌-◌, ◌*◌, ◌/◌, ◌%◌, ◌<◌, ◌≤◌, ◌≡◌, refl, [], ◌∷◌, ◌++◌, ltb, Bool-cases, inl,
  inr, arith,
}
use hula.Rules.{Text}
use hula.Http.Response.{digit, to_digits, decimal}

-- The number that the digits stand for.
abbrev pub decimal_value : ℕ → Text → ℕ
decimal_value acc [] = acc
decimal_value acc (c ∷ s) = decimal_value (10 * acc + (c - 48)) s

decimal_value-append :
    (acc c : ℕ) (s : Text) → decimal_value acc (s ++ (c ∷ [])) ≡ 10 * decimal_value acc s + (c - 48)
decimal_value-append acc c [] = refl
decimal_value-append acc c (d ∷ s) = decimal_value-append (10 * acc + (d - 48)) c s

digit_value : (d : ℕ) → d < 10 → digit d - 48 ≡ d
digit_value d h = ground arith

decimal_value-to_digits : (fuel n : ℕ) → n < fuel → decimal_value 0 (to_digits 10 fuel n) ≡ n
unfolding to_digits
decimal_value-to_digits zero n h = absurd (omega arith)
decimal_value-to_digits (suc fuel) n h = elim (Bool-cases (ltb n 10)) [
  | inl e ↦ rw e (omega arith)
  | inr e ↦ rw e (
      let k : 10 ≤ n = ground (arith, e) in
      omega (
        arith,
        decimal_value-append 0 (digit (n % 10)) (to_digits 10 fuel (n / 10)),
        digit_value (n % 10) (omega arith),
        decimal_value-to_digits fuel (n / 10) (omega (arith, k)),
      ))
]

pub decimal_value-decimal : (n : ℕ) → decimal_value 0 (decimal n) ≡ n
unfolding decimal
decimal_value-decimal n = decimal_value-to_digits (suc n) n (omega arith)
