-- ===== src/Handshake/Tests.antt =====
-- The theorems of the handshake at concrete input.
use hula.Common.{
  ℕ, ◌≡◌, ◌≢◌, refl, pos, negsuc, Bool, true, false, none, some, List, [], ◌∷◌, ◌++◌, ◌>>=◌, All,
  arith,
}
use hula.Buffer.{list_mem}
use hula.Rules.{text_eq}
use hula.Handshake.Bytes.{credentials}
use hula.Handshake.Server
use hula.Handshake.Server.{ClientConnectionProxy, is_one_of, is_method, match_http_method}
use hula.Handshake.Agree.{read_callback-credentials, read_callback-empty_password}
use hula.Handshake.Client.{
  ConnectionProxy, ServerInfo, build, closed, connect_started, read_started, wrote_credentials,
  increased, connect_failed, connect_succeeded, decreased, removed, called, destroy,
}
use hula.Handshake.Reply.{session, sent, session-accepted, session-refused}

abbrev user : List ℕ
user = 97 ∷ 98 ∷ []

abbrev pass : List ℕ
pass = 99 ∷ []

-- Every user is valid.
abbrev all_valid : List ℕ → List ℕ → Bool
all_valid u p = true

abbrev fresh : ClientConnectionProxy (List ℕ)
fresh = record { relays = []; remains = []; in_authentication = true; log = [] }

no_method : match_http_method (credentials user pass) ≡ false
unfolding match_http_method is_method is_one_of text_eq
no_method = refl

no_method_alone : match_http_method (credentials user []) ≡ false
unfolding match_http_method is_method is_one_of text_eq
no_method_alone = refl

user_has_no_zero : All (λ c. c ≢ 0) user
user_has_no_zero = (λ e. absurd (omega (arith, e)), (λ e. absurd (omega (arith, e)), tt))

pass_has_no_zero : All (λ c. c ≢ 0) pass
pass_has_no_zero = (λ e. absurd (omega (arith, e)), tt)

read_callback-credentials_example :
    (reply : List ℕ) × (q : ClientConnectionProxy (List ℕ)) × ((Server.read_callback list_mem
          all_valid
          (2 ∷ 97 ∷ [])
          (pos 0)
          fresh
        >>= Server.read_callback list_mem all_valid (98 ∷ 1 ∷ 99 ∷ []) (pos 0))
      ≡ some q)
    × (q.log ≡ [] ++ (Server.replied reply ∷ []))
    × (reply ≡ 0xff ∷ 0 ∷ [])
    × (q.in_authentication ≡ false)
    × (q.remains ≡ [])
read_callback-credentials_example =
    read_callback-credentials list_mem all_valid user pass (2 ∷ 97 ∷ []) (98 ∷ 1 ∷ 99 ∷ []) fresh
      refl refl no_method user_has_no_zero pass_has_no_zero (omega arith) refl (omega arith) refl

read_callback-empty_password_example :
    Server.read_callback list_mem all_valid (2 ∷ 97 ∷ 98 ∷ 0 ∷ []) (pos 0) fresh
    ≡ some (record fresh { remains = 2 ∷ 97 ∷ 98 ∷ 0 ∷ [] })
read_callback-empty_password_example =
    read_callback-empty_password list_mem all_valid user (2 ∷ 97 ∷ 98 ∷ 0 ∷ []) fresh refl refl
      no_method_alone refl

abbrev info : ServerInfo
info = record { user = user; pass = pass }

session-accepted_example :
    (written : List ℕ) × (q : ConnectionProxy (List ℕ)) × (session list_mem info 5
        (0xff ∷ [])
        (0 ∷ 7 ∷ [])
      ≡ some q)
    × (written ≡ credentials user pass)
    × (q.log
        ≡ increased
          ∷ connect_started
          ∷ wrote_credentials written
          ∷ read_started
          ∷ called 5 (pos 0)
          ∷ connect_succeeded
          ∷ [])
    × (q.state ≡ build)
    × (q.connect_cb ≡ none)
    × (q.remain ≡ 7 ∷ [])
session-accepted_example =
    session-accepted list_mem info 5 (0xff ∷ []) (0 ∷ 7 ∷ []) (7 ∷ []) (omega arith) (omega arith)
      (omega arith) refl

session-refused_example :
    (q : ConnectionProxy (List ℕ)) × (session list_mem info 5 (0 ∷ []) (0 ∷ []) ≡ some q)
    × (q.state ≡ closed)
    × ((destroy q).log
        ≡ increased
          ∷ connect_started
          ∷ wrote_credentials (sent list_mem info)
          ∷ read_started
          ∷ connect_failed
          ∷ decreased
          ∷ removed
          ∷ called 5 (negsuc 0)
          ∷ [])
session-refused_example =
    session-refused list_mem info 5 0 0 (0 ∷ []) (0 ∷ []) [] (omega arith) (omega arith)
      (omega arith) refl (λ e. absurd cc)
