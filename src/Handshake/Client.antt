-- ===== src/Handshake/Client.antt =====
-- ConnectionProxy (lib/kclient_multiplexer.cpp).
use hula.Common.{
  ℕ, ℤ, pos, negsuc, is_negative, Bool, true, false, ◌||◌, not, Option, none, some, List, [], ◌∷◌,
  ◌++◌, length, get_or, ltb, ◌==◌, if◌then◌else◌, ◌>>=◌, ◌>>◌, assert,
}
use hula.Common.Maps.{contains, include, exclude}
use hula.Buffer.{SharedMem}

-- __State
pub data State : Type 0 where
  initial connecting auth wait_auth_reply build closing closed error : State

abbrev pub is_initial : State → Bool
is_initial initial = true
is_initial _ = false

abbrev pub is_connecting : State → Bool
is_connecting connecting = true
is_connecting _ = false

abbrev pub is_closed : State → Bool
is_closed closed = true
is_closed _ = false

abbrev pub is_none : Option ℕ → Bool
is_none none = true
is_none (some cb) = false

pub data Effect (B : Type 0) : Type 0 where
  -- connect of the stream; start_read and shutdown
  connect_started read_started shut_down : Effect B
  -- _write with on_authentication_write; with a callback of the multiplexer
  wrote_credentials : B → Effect B
  wrote : B → ℕ → Effect B
  -- prm_read_callback of the multiplexer
  provided : B → Effect B
  -- SingleServerInfo
  increased connect_failed connect_succeeded decreased : Effect B
  -- the callback of connectToServer, with the status
  called : ℕ → ℤ → Effect B
  -- close of a relay; remove_socks5_handler and remove_proxy of the server object
  relay_closed : ℕ → Effect B
  handler_removed : ℕ → Effect B
  removed : Effect B

-- mp_server_info
pub record ServerInfo : Type 0 where
  pub user : List ℕ
  pub pass : List ℕ

pub record ConnectionProxy (B : Type 0) : Type 0 where
  pub info : ServerInfo
  pub relays : List ℕ
  pub remain : B
  pub state : State
  pub connect_cb : Option ℕ
  pub log : List (Effect B)

module _ {B : Type 0} where
  abbrev pub emit : Effect B → ConnectionProxy B → ConnectionProxy B
  emit e p = record p { log = p.log ++ (e ∷ []) }

  -- The constructor.
  unfoldable pub new_connection_proxy : B → ServerInfo → ConnectionProxy B
  new_connection_proxy empty info = record {
    info = info;
    relays = [];
    remain = empty;
    state = initial;
    connect_cb = none;
    log = increased ∷ [];
  }

  unfoldable pub close_relays : List ℕ → ConnectionProxy B → ConnectionProxy B
  close_relays [] p = p
  close_relays (x ∷ xs) p = close_relays xs (emit (relay_closed x) p)

  unfoldable pub close : ConnectionProxy B → Option (ConnectionProxy B)
  close p = do
    assert (not (is_closed p.state))
    some (emit removed (emit decreased (close_relays p.relays (record p { state = closed }))))

  unfoldable pub end_signal : ConnectionProxy B → Option (ConnectionProxy B)
  end_signal p = close (emit shut_down p)

  unfoldable pub prm_error_handle : ConnectionProxy B → Option (ConnectionProxy B)
  prm_error_handle p = close p

  unfoldable pub prm_write : B → ℕ → ConnectionProxy B → ConnectionProxy B
  prm_write buf cb p = emit (wrote buf cb) p

  unfoldable pub connect_to_server : ℕ → ConnectionProxy B → Option (ConnectionProxy B)
  connect_to_server cb p = do
    assert (is_initial p.state)
    assert (is_none p.connect_cb)
    some (emit connect_started (record p { state = connecting; connect_cb = some cb }))

  -- on_authentication_write, of an object that exists
  unfoldable pub on_authentication_write : ℤ → ConnectionProxy B → Option (ConnectionProxy B)
  on_authentication_write status p =
      if is_negative status
      then close (emit connect_failed p)
      else some (record p { state = wait_auth_reply })

  unfoldable pub remove_client_connection : ℕ → ConnectionProxy B → Option (ConnectionProxy B)
  remove_client_connection obj p = do
    assert (contains obj p.relays)
    some (emit (handler_removed obj) (record p { relays = exclude obj p.relays }))

  unfoldable pub register_client_connection : ℕ → ConnectionProxy B → Option (ConnectionProxy B)
  register_client_connection obj p = do
    assert (not (contains obj p.relays))
    some (record p { relays = include obj p.relays })

  abbrev pub call_back : Option ℕ → ℤ → ConnectionProxy B → Option (ConnectionProxy B)
  call_back none status p = none
  call_back (some cb) status p = some (emit (called cb status) p)

  abbrev pub destroy_with : Option ℕ → ConnectionProxy B → ConnectionProxy B
  destroy_with none p = p
  destroy_with (some cb) p = emit (called cb (negsuc 0)) (record p { connect_cb = none })

  -- The destructor.
  unfoldable pub destroy : ConnectionProxy B → ConnectionProxy B
  destroy p = destroy_with p.connect_cb p

  -- CreateNewConnection, CreateConnectionSuccess and CreateConnectionFail on the client's side
  unfoldable pub unexpected_call : ConnectionProxy B → Option (ConnectionProxy B)
  unexpected_call p = close p

module _ (mem : SharedMem) where
  open mem use {Buf, bytes, empty, join, skip, copy}

  unfoldable pub send_authentication_info : ConnectionProxy Buf → Option (ConnectionProxy Buf)
  send_authentication_info p = do
    assert (is_connecting p.state)
    let q = record p { state = auth }
    (if not (ltb (length p.info.user) 256) || not (ltb (length p.info.pass) 256)
        then close q
        else some (
            emit read_started (
              emit
                (wrote_credentials
                  (copy ((length p.info.user ∷ p.info.user) ++ (length p.info.pass ∷ p.info.pass))))
                q)))

  -- connect_to_remote_server_callback, of an object that exists
  unfoldable pub connect_to_remote_server_callback :
      ℤ → ConnectionProxy Buf → Option (ConnectionProxy Buf)
  connect_to_remote_server_callback status p =
      if is_negative status then close (emit connect_failed p) else send_authentication_info p

  -- The reply of the server.
  unfoldable pub authenticate : Buf → ConnectionProxy Buf → Option (ConnectionProxy Buf)
  authenticate buf p =
      if ltb (length (bytes buf)) 2
      then some (record p { remain = buf })
      else if not (get_or (bytes buf) 0 0 == 0xff) || not (get_or (bytes buf) 1 0 == 0)
      then close (emit connect_failed p)
      else do
        q ← call_back p.connect_cb (pos 0) (record p { state = build; remain = skip buf 2 })
        some (emit connect_succeeded (record q { connect_cb = none }))

  abbrev pub read_in : State → Buf → ConnectionProxy Buf → Option (ConnectionProxy Buf)
  read_in connecting buf p = close p
  read_in auth buf p = close p
  read_in wait_auth_reply buf p = authenticate buf p
  read_in build buf p = some (emit (provided buf) p)
  read_in closing buf p = some (emit (provided buf) p)
  read_in _ buf p = none

  unfoldable pub read_callback : Buf → ℤ → ConnectionProxy Buf → Option (ConnectionProxy Buf)
  read_callback buf status p =
      if is_negative status
      then close p
      else read_in p.state (join p.remain buf) (record p { remain = empty })
