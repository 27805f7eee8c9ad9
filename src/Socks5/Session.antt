-- ===== src/Socks5/Session.antt =====
-- Socks5Auth (lib/kclient_socks5.cpp): the choice of a method, a name and a password, the request, and
-- the reply. `validate_user` is the check of the client's configuration.
use hula.Common.{
  ℕ, ◌%◌, ℤ, is_negative, Bool, ◌&&◌, ◌||◌, not, Option, none, some, List, [], ◌∷◌, ◌++◌, length,
  ◌==◌, if◌then◌else◌, ◌>>=◌,
}
use hula.Buffer.{SharedMem}
use hula.Endian.{store16}
use hula.Socks5.{
  Hello, Request, UserPassword, parse_client_hello, parse_client_request,
  parse_username_authentication,
}
use hula.Socks5.Address.{str_to_ip4}

pub data State : Type 0 where
  socks5_init socks5_id socks5_method socks5_finish socks5_error : State

pub data Effect (B : Type 0) : Type 0 where
  -- start_read, stop_read, shutdown
  read_started read_stopped shut_down : Effect B
  -- _write of the method, of the status and of the reply; the last one keeps the reply's code
  wrote_hello wrote_id : B → Effect B
  wrote_reply : B → ℕ → Effect B
  -- calls of the server object: dispatchSocks5, socks5Transfer, remove_socks5, and the end of the
  -- proxy object for this one, if there is one
  dispatched : List ℕ → ℕ → Effect B
  transferred removed proxy_closed : Effect B

pub record Socks5Auth (B : Type 0) : Type 0 where
  pub state : State
  -- m_config->Policy().m_method == SOCKS5_NO_REQUIRED
  pub no_required : Bool
  pub remain : B
  pub servername : List ℕ
  pub port : ℕ
  pub log : List (Effect B)

module _ {B : Type 0} where
  abbrev pub emit : Effect B → Socks5Auth B → Socks5Auth B
  emit e p = record p { log = p.log ++ (e ∷ []) }

  -- The constructor.
  unfoldable pub new_socks5_auth : B → Bool → Socks5Auth B
  new_socks5_auth empty no_required = record {
    state = socks5_init;
    no_required = no_required;
    remain = empty;
    servername = [];
    port = 80;
    log = [];
  }

  unfoldable pub start : Socks5Auth B → Socks5Auth B
  start p = emit read_started p

  unfoldable pub close : Socks5Auth B → Socks5Auth B
  close p = emit removed p

  unfoldable pub close_this_with_error : Socks5Auth B → Socks5Auth B
  close_this_with_error p =
      emit proxy_closed (close (emit shut_down (record p { state = socks5_error })))

  unfoldable pub end_signal : Socks5Auth B → Socks5Auth B
  end_signal p = close_this_with_error p

  unfoldable pub return_to_server : Socks5Auth B → Socks5Auth B
  return_to_server p = emit transferred (emit read_stopped p)

  -- Called in the state `finish` only.
  unfoldable pub try_to_build_connection : Socks5Auth B → Socks5Auth B
  try_to_build_connection p = emit (dispatched p.servername p.port) p

  -- write_callback_hello and write_callback_id, of an object that exists
  unfoldable pub write_callback : ℤ → Socks5Auth B → Socks5Auth B
  write_callback status p = if is_negative status then close_this_with_error p else p

-- The loop on the methods: no authentication if the policy has it and nothing was chosen before;
-- name and password in any case.
unfoldable pub choose_method : Bool → List ℕ → ℕ → ℕ
choose_method no_required [] method = method
choose_method no_required (i ∷ is) method =
    let first = if (method == 0xff) && ((i == 0) && no_required) then i else method in
    choose_method no_required is (if i == 2 then i else first)

module _ (mem : SharedMem) (little : Bool) (validate_user : List ℕ → List ℕ → Bool) where
  open mem use {Buf, bytes, empty, copy}

  unfoldable pub hello_parsed : Hello Buf → Socks5Auth Buf → Socks5Auth Buf
  hello_parsed msg p =
      let method = choose_method p.no_required msg.methods 0xff in
      if not msg.finished
      then p
      else if not (msg.version == 5)
      then close_this_with_error p
      else emit (wrote_hello (copy (5 ∷ method ∷ [])))
          (record p { state = if method == 0 then socks5_method else socks5_id })

  unfoldable pub id_parsed : UserPassword Buf → Socks5Auth Buf → Socks5Auth Buf
  id_parsed msg p =
      if not msg.finished
      then p
      else if not (msg.version == 5)
      then close_this_with_error p
      else if validate_user msg.username msg.password
      then emit (wrote_id (copy (5 ∷ 0 ∷ []))) (record p { state = socks5_method })
      else emit (wrote_id (copy (5 ∷ 0xff ∷ []))) p

  unfoldable pub request_parsed : Request Buf → Socks5Auth Buf → Socks5Auth Buf
  request_parsed msg p =
      if msg.packet_error
      then close_this_with_error p
      else if not msg.finished
      then p
      else if not (msg.version == 5)
          || (not (msg.command == 1) || (not (msg.addr_type == 1) && not (msg.addr_type == 3)))
      then close_this_with_error p
      else try_to_build_connection
          (record p { servername = msg.addr; port = msg.port; state = socks5_finish })

  abbrev pub dispatch_in : State → Buf → Socks5Auth Buf → Option (Socks5Auth Buf)
  dispatch_in socks5_init buf p = parse_client_hello mem little p.remain buf >>= λ msg.
      some (hello_parsed msg (record p { remain = msg.remain }))
  dispatch_in socks5_id buf p =
      let msg = parse_username_authentication mem little p.remain buf in
      some (id_parsed msg (record p { remain = msg.remain }))
  dispatch_in socks5_method buf p = parse_client_request mem little p.remain buf >>= λ msg.
      some (request_parsed msg (record p { remain = msg.remain }))
  dispatch_in socks5_finish buf p = none
  dispatch_in socks5_error buf p = none

  unfoldable pub dispatch_data : Buf → Socks5Auth Buf → Option (Socks5Auth Buf)
  dispatch_data buf p = dispatch_in p.state buf p

  unfoldable pub read_callback : Buf → ℤ → Socks5Auth Buf → Option (Socks5Auth Buf)
  read_callback buf status p =
      if is_negative status then some (close_this_with_error p) else dispatch_data buf p

  -- The address: four bytes, or a name after its length (a byte). The port is in the host's order.
  abbrev pub reply_bytes : ℕ → Option (ℕ × ℕ × ℕ × ℕ) → List ℕ → ℕ → List ℕ
  reply_bytes reply none name port =
      5 ∷ reply ∷ 0 ∷ 3 ∷ (length name % 256) ∷ (name ++ store16 little port)
  reply_bytes reply (some (a, b, c, d)) name port =
      5 ∷ reply ∷ 0 ∷ 1 ∷ a ∷ b ∷ c ∷ d ∷ store16 little port

  unfoldable pub send_reply : ℕ → Socks5Auth Buf → Socks5Auth Buf
  send_reply reply p =
      emit
        (wrote_reply (copy (reply_bytes reply (str_to_ip4 p.servername) p.servername p.port)) reply)
        p

  -- write_callback_reply, of an object that exists
  unfoldable pub write_callback_reply : ℤ → ℕ → Socks5Auth Buf → Socks5Auth Buf
  write_callback_reply status reply p =
      if is_negative status || (not (length (bytes p.remain) == 0) || not (reply == 0))
      then close_this_with_error p
      else return_to_server p

  unfoldable pub net_accept : Socks5Auth Buf → Socks5Auth Buf
  net_accept p = send_reply 0 p

  unfoldable pub net_reject : Socks5Auth Buf → Socks5Auth Buf
  net_reject p = send_reply 5 p
