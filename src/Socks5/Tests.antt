-- ===== src/Socks5/Tests.antt =====
-- The theorems on SOCKS5 at concrete input.
use hula.Common.{
  ℕ, ◌≡◌, ◌≢◌, refl, pos, Bool, true, none, some, List, [], ◌∷◌, ◌&&◌, if◌then◌else◌, ◌>>=◌, All,
  arith,
}
use hula.Common.Maps.{contains}
use hula.Buffer.{list_mem}
use hula.Endian.{k_htons}
use hula.Socks5.Session.{
  Socks5Auth, socks5_finish, wrote_hello, dispatched, new_socks5_auth, choose_method, read_callback,
}
use hula.Socks5.Run.{choose_method_lem, read_callback-incomplete_hello, read_callback-connect}

abbrev all_valid : List ℕ → List ℕ → Bool
all_valid u p = true

choose_method_lem_example : choose_method true (1 ∷ 0 ∷ []) 0xff ≡ (
    if contains 2 (1 ∷ 0 ∷ [])
    then 2
    else if true && (contains 0 (1 ∷ 0 ∷ []) && true)
    then 0
    else 0xff)
choose_method_lem_example = choose_method_lem true (1 ∷ 0 ∷ []) 0xff

read_callback-incomplete_hello_example :
    read_callback list_mem true all_valid (5 ∷ 1 ∷ []) (pos 0) (new_socks5_auth [] true)
    ≡ some (new_socks5_auth [] true)
read_callback-incomplete_hello_example =
    read_callback-incomplete_hello list_mem true all_valid true (5 ∷ 1 ∷ []) (omega arith)
      (omega arith)

-- "ab", at port 443
abbrev name : List ℕ
name = 97 ∷ 98 ∷ []

abbrev asked : List ℕ
asked = 5 ∷ 1 ∷ 0 ∷ 3 ∷ 2 ∷ 97 ∷ 98 ∷ 1 ∷ 187 ∷ []

name_has_no_zero : All (λ c. c ≢ 0) name
name_has_no_zero = (λ e. absurd (omega (arith, e)), (λ e. absurd (omega (arith, e)), tt))

read_callback-connect_example :
    (answer : List ℕ) × (q : Socks5Auth (List ℕ)) × ((read_callback list_mem true all_valid
          (5 ∷ 1 ∷ 0 ∷ [])
          (pos 0)
          (new_socks5_auth [] true)
        >>= read_callback list_mem true all_valid asked (pos 0))
      ≡ some q)
    × (q.log ≡ wrote_hello answer ∷ dispatched name 443 ∷ [])
    × (answer ≡ 5 ∷ 0 ∷ [])
    × (q.state ≡ socks5_finish)
    × (q.remain ≡ [])
    × ((early : List ℕ) → read_callback list_mem true all_valid early (pos 0) q ≡ none)
unfolding contains k_htons
read_callback-connect_example =
    read_callback-connect list_mem true all_valid (0 ∷ []) name 443 (5 ∷ 1 ∷ 0 ∷ []) asked refl refl
      name_has_no_zero (omega arith) refl refl
