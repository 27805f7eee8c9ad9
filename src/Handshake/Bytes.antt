-- ===== src/Handshake/Bytes.antt =====
-- The bytes of the credentials, and the names of the HTTP methods.
use hula.Common.{
  ℕ, zero, suc, ◌+◌, ◌-◌, ◌≤◌, ◌<◌, ◌≡◌, ◌≢◌, refl, sym, ap, ◌∙◌, true, false, List, [], ◌∷◌, ◌++◌,
  append-nil, length, get_or, take, drop, All, length-append, take-append, drop-length_append,
  drop-drop, leb, eq_false, if◌then◌else◌, Bool-cases, inl, inr, arith,
}
use hula.Handshake.{c_string}
use hula.Handshake.Server.{is_one_of, http_methods, is_method, match_http_method}

-- What the client sends.
abbrev pub credentials : List ℕ → List ℕ → List ℕ
credentials user pass = (length user ∷ user) ++ (length pass ∷ pass)

pub c_string-All : (s : List ℕ) → All (λ c. c ≢ 0) s → c_string s ≡ s
unfolding c_string
c_string-All [] h = refl
c_string-All (c ∷ s) h = rw (eq_false c 0 h.0, c_string-All s h.1)

pub get_or-append : (bs t : List ℕ) (i : ℕ) → i < length bs → get_or (bs ++ t) i 0 ≡ get_or bs i 0
get_or-append [] t i h = absurd (omega arith)
get_or-append (b ∷ bs) t zero h = refl
get_or-append (b ∷ bs) t (suc i) h = get_or-append bs t i (omega arith)

get_or-length : (bs t : List ℕ) (b : ℕ) → get_or (bs ++ (b ∷ t)) (length bs) 0 ≡ b
get_or-length [] t b = refl
get_or-length (c ∷ bs) t b = get_or-length bs t b

take_front : (n : ℕ) (bs t : List ℕ) → n ≤ length bs → take n (bs ++ t) ≡ take n bs
take_front n bs t h =
    let e : n - length bs ≡ 0 = omega arith in take-append n bs t ∙ rw e (append-nil (take n bs))

le→leb : (a b : ℕ) → a ≤ b → leb a b ≡ true
le→leb a b h = ground arith

leb→le : (a b : ℕ) → leb a b ≡ true → a ≤ b
leb→le a b h = ground (arith, h)

is_method-append : (n : ℕ) (bs t : List ℕ) → is_method n (bs ++ t) ≡ false → is_method n bs ≡ false
unfolding is_method
is_method-append n bs t h = elim (Bool-cases (leb n (length bs))) [
  | inl e ↦
      let le : n ≤ length bs = leb→le n (length bs) e in
      let longer : leb n (length (bs ++ t)) ≡ true =
        le→leb n (length (bs ++ t)) (omega (arith, le, length-append bs t)) in
      let h' : (if leb n (length (bs ++ t))
            then is_one_of (take n (bs ++ t)) http_methods
            else false)
          ≡ false =
        h in
      rw e (rw (longer, take_front n bs t le) at h')
  | inr e ↦ rw e
]

pub match_http_method-append :
    (bs t : List ℕ) → match_http_method (bs ++ t) ≡ false → match_http_method bs ≡ false
unfolding match_http_method
match_http_method-append bs t h = ground (
  arith,
  h,
  is_method-append 3 bs t,
  is_method-append 4 bs t,
  is_method-append 5 bs t,
  is_method-append 6 bs t,
  is_method-append 7 bs t,
)

pub credentials_password :
    (user pass : List ℕ) → get_or (credentials user pass) (length user + 1) 0 ≡ length pass
credentials_password user pass =
    let e : length user + 1 ≡ suc (length user) = omega arith in
    rw e (get_or-length (length user ∷ user) pass (length pass))

pub length-credentials :
    (user pass : List ℕ) → length (credentials user pass) ≡ suc (length user) + suc (length pass)
length-credentials user pass = length-append (length user ∷ user) (length pass ∷ pass)

pub drop_password : (user pass : List ℕ) → drop (2 + length user) (credentials user pass) ≡ pass
drop_password user pass =
    let e : 2 + length user ≡ suc (length user) + 1 = omega arith in
    rw e (
      sym (drop-drop 1 (suc (length user)) (credentials user pass))
      ∙ ap (drop 1) (drop-length_append (length user ∷ user) (length pass ∷ pass)))
