-- ===== src/Handshake/Server.antt =====
-- ClientConnectionProxy (lib/kserver_multiplexer.cpp). `validate_user` is the check of the server's
-- configuration.
use hula.Common.{
  ℕ, ◌+◌, ℤ, is_negative, Bool, true, false, ◌||◌, Option, some, List, [], ◌∷◌, ◌++◌, length,
  get_or, take, drop, ltb, leb, if◌then◌else◌, ◌>>◌, assert,
}
use hula.Common.Maps.{contains, include, exclude}
use hula.Buffer.{SharedMem}
use hula.Rules.{text_eq}
use hula.Handshake.{c_string}

pub data Effect (B : Type 0) : Type 0 where
  -- start_read and shutdown
  read_started shut_down : Effect B
  -- _write with authentication_write_callback; with a callback of the multiplexer
  replied : B → Effect B
  wrote : B → ℕ → Effect B
  -- prm_read_callback of the multiplexer
  provided : B → Effect B
  -- transferToHttpServer
  transferred : B → Effect B
  -- a relay to an address, made and connected; closed; deleted
  relay_made : ℕ → List ℕ → ℕ → Effect B
  relay_closed : ℕ → Effect B
  relay_deleted : ℕ → Effect B
  -- remove_proxy of the server object
  removed : Effect B

pub record ClientConnectionProxy (B : Type 0) : Type 0 where
  pub relays : List ℕ
  pub remains : B
  pub in_authentication : Bool
  pub log : List (Effect B)

-- http_methods
abbrev pub http_methods : List (List ℕ)
http_methods =
    (71 ∷ 69 ∷ 84 ∷ [])
    ∷ (72 ∷ 69 ∷ 65 ∷ 68 ∷ [])
    ∷ (80 ∷ 79 ∷ 83 ∷ 84 ∷ [])
    ∷ (80 ∷ 85 ∷ 84 ∷ [])
    ∷ (68 ∷ 69 ∷ 76 ∷ 69 ∷ 84 ∷ 69 ∷ [])
    ∷ (67 ∷ 79 ∷ 78 ∷ 78 ∷ 69 ∷ 67 ∷ 84 ∷ [])
    ∷ (79 ∷ 80 ∷ 84 ∷ 73 ∷ 79 ∷ 78 ∷ 83 ∷ [])
    ∷ (84 ∷ 82 ∷ 65 ∷ 67 ∷ 69 ∷ [])
    ∷ (80 ∷ 65 ∷ 84 ∷ 67 ∷ 72 ∷ [])
    ∷ []

unfoldable pub is_one_of : List ℕ → List (List ℕ) → Bool
is_one_of s [] = false
is_one_of s (m ∷ ms) = if text_eq m s then true else is_one_of s ms

-- The first `n` bytes, if there are so many, are a method.
unfoldable pub is_method : ℕ → List ℕ → Bool
is_method n bs = if leb n (length bs) then is_one_of (take n bs) http_methods else false

unfoldable pub match_http_method : List ℕ → Bool
match_http_method bs =
    is_method 3 bs || (is_method 4 bs || (is_method 5 bs || (is_method 6 bs || is_method 7 bs)))

module _ {B : Type 0} where
  abbrev pub emit : Effect B → ClientConnectionProxy B → ClientConnectionProxy B
  emit e p = record p { log = p.log ++ (e ∷ []) }

  -- The constructor.
  unfoldable pub new_client_connection : B → ClientConnectionProxy B
  new_client_connection empty = record {
    relays = [];
    remains = empty;
    in_authentication = true;
    log = [];
  }

  unfoldable pub close_relays : List ℕ → ClientConnectionProxy B → ClientConnectionProxy B
  close_relays [] p = p
  close_relays (x ∷ xs) p = close_relays xs (emit (relay_closed x) p)

  unfoldable pub close : ClientConnectionProxy B → ClientConnectionProxy B
  close p = emit removed (close_relays p.relays p)

  unfoldable pub end_signal : ClientConnectionProxy B → ClientConnectionProxy B
  end_signal p = close (emit shut_down p)

  unfoldable pub prm_error_handle : ClientConnectionProxy B → ClientConnectionProxy B
  prm_error_handle p = close p

  unfoldable pub prm_write : B → ℕ → ClientConnectionProxy B → ClientConnectionProxy B
  prm_write buf cb p = emit (wrote buf cb) p

  -- authentication_write_callback, of an object that exists
  unfoldable pub authentication_write_callback :
      ℤ → ClientConnectionProxy B → ClientConnectionProxy B
  authentication_write_callback status p = if is_negative status then close p else p

  unfoldable pub start : ClientConnectionProxy B → ClientConnectionProxy B
  start p = emit read_started p

  -- The relay is the new object `relay`.
  unfoldable pub create_new_connection :
      ℕ → List ℕ → ℕ → ClientConnectionProxy B → ClientConnectionProxy B
  create_new_connection relay addr port p =
      emit (relay_made relay addr port) (record p { relays = include relay p.relays })

  unfoldable pub remove_connection : ℕ → ClientConnectionProxy B → Option (ClientConnectionProxy B)
  remove_connection con p = do
    assert (contains con p.relays)
    some (emit (relay_deleted con) (record p { relays = exclude con p.relays }))

module _ (mem : SharedMem) (validate_user : List ℕ → List ℕ → Bool) where
  open mem use {Buf, bytes, empty, join, skip, copy}

  -- Both lengths are known, and all bytes are there.
  unfoldable pub answer : ℕ → ℕ → Buf → ClientConnectionProxy Buf → ClientConnectionProxy Buf
  answer username_len password_len buf p =
      let username = c_string (take username_len (drop 1 (bytes buf))) in
      let password = c_string (take password_len (drop (2 + username_len) (bytes buf))) in
      if validate_user username password
      then emit (replied (copy (0xff ∷ 0 ∷ []))) (record p {
        in_authentication = false;
        remains = skip buf (username_len + password_len + 2);
      })
      else close (emit (replied (copy (0 ∷ 0 ∷ []))) (record p { in_authentication = false }))

  unfoldable pub dispatch_authentication_data :
      Buf → ClientConnectionProxy Buf → Option (ClientConnectionProxy Buf)
  dispatch_authentication_data buf p = do
    assert p.in_authentication
    let username_len = get_or (bytes buf) 0 0
    let password_len = get_or (bytes buf) (username_len + 1) 0
    some (
        if ltb (length (bytes buf)) 2
        then record p { remains = buf }
        else if match_http_method (bytes buf)
        then emit (transferred buf) p
        else if ltb (length (bytes buf)) (username_len + 3)
        then record p { remains = buf }
        else if ltb (length (bytes buf)) (username_len + password_len + 2)
        then record p { remains = buf }
        else answer username_len password_len buf p)

  unfoldable pub read_callback :
      Buf → ℤ → ClientConnectionProxy Buf → Option (ClientConnectionProxy Buf)
  read_callback buf status p =
      if is_negative status
      then some (close p)
      else let allbuf = join p.remains buf in
        let q = record p { remains = empty } in
        if p.in_authentication
        then dispatch_authentication_data allbuf q
        else some (emit (provided allbuf) q)
