-- ===== src/Rules/Text.antt =====
-- Equality of strings.
use hula.Common.{
  ◌≡◌, ◌≢◌, refl, ap₂, true, false, [], ◌∷◌, ◌==◌, ==_refl, ==_iff, Bool-cases, inl, inr, arith,
}
use hula.Rules.{Text, text_eq}

pub text_eq_refl : (s : Text) → text_eq s s ≡ true
unfolding text_eq
text_eq_refl [] = refl
text_eq_refl (a ∷ s) = rw (==_refl a) (text_eq_refl s)

false-ne-true : false ≢ true
false-ne-true e = absurd cc

pub text_eq_sound : (s t : Text) → text_eq s t ≡ true → s ≡ t
unfolding text_eq
text_eq_sound [] [] e = refl
text_eq_sound [] (b ∷ t) e = absurd cc
text_eq_sound (a ∷ s) [] e = absurd cc
text_eq_sound (a ∷ s) (b ∷ t) e = elim (Bool-cases (a == b)) [
  | inl h ↦ ap₂ (λ x y. x ∷ y) ((==_iff a b).0 h) (text_eq_sound s t (rw h at e))
  | inr h ↦ absurd (false-ne-true (rw h at e))
]

pub text_eq_sym : (s t : Text) → text_eq s t ≡ text_eq t s
unfolding text_eq
text_eq_sym [] [] = refl
text_eq_sym [] (b ∷ t) = refl
text_eq_sym (a ∷ s) [] = refl
text_eq_sym (a ∷ s) (b ∷ t) = ground (arith, text_eq_sym s t)
