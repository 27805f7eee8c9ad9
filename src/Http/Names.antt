-- ===== src/Http/Names.antt =====
-- The names of headers: `setHeader` does not tell upper case from lower case.
use hula.Common.{
  ℕ, suc, ◌≡◌, refl, ap, Bool, true, [], ◌∷◌, length, map, ◌==◌, if◌then◌else◌, arith,
}
use hula.Rules.{Text}
use hula.Http.{HttpRequest, to_upper, to_lower, canonical, set_header}

to_lower_letters :
    (c d : ℕ) → to_lower c ≡ to_lower d → (to_upper c ≡ to_upper d) × ((c == 45) ≡ (d == 45))
unfolding to_lower to_upper
to_lower_letters c d h = ground arith

cons_cancel : {a b : ℕ} {s t : Text} → (a ∷ s) ≡ (b ∷ t) → (a ≡ b) × (s ≡ t)
cons_cancel e = (cc, cc)

canonical-to_lower :
    (upper : Bool) (s t : Text)
    → map to_lower s ≡ map to_lower t
    → canonical upper s ≡ canonical upper t
unfolding canonical
canonical-to_lower upper [] [] h = refl
canonical-to_lower upper [] (d ∷ t) h = absurd cc
canonical-to_lower upper (c ∷ s) [] h = absurd cc
canonical-to_lower upper (c ∷ s) (d ∷ t) h =
    let (e, r) = cons_cancel h in
    let (u, dash) = to_lower_letters c d e in
    rw (u, e, dash)
      (ap (◌∷◌ (if upper then to_upper d else to_lower d)) (canonical-to_lower (d == 45) s t r))

length_of_lower : (s t : Text) → map to_lower s ≡ map to_lower t → length s ≡ length t
length_of_lower [] [] h = refl
length_of_lower [] (d ∷ t) h = absurd cc
length_of_lower (c ∷ s) [] h = absurd cc
length_of_lower (c ∷ s) (d ∷ t) h = ap suc (length_of_lower s t (cons_cancel h).1)

-- Two names that are the same in lower case set the same header, or make the assertion of `setHeader`
-- fail both.
pub set_header-to_lower :
    {B : Type 0} (field other value : Text) (r : HttpRequest B)
    → map to_lower field ≡ map to_lower other
    → set_header field value r ≡ set_header other value r
unfolding set_header
set_header-to_lower field other value r h =
    rw (canonical-to_lower true field other h, length_of_lower field other h) refl
