-- ===== src/StreamByProvider.antt =====
-- EBStreamByProvider (lib/stream_byprovider.cpp): a stream object on a stream of a provider. The
-- contexts are the callbacks that wait for the provider, each at the address that `new` gave; a
-- callback reads and frees its context, and `run` is CanRun() of it, false when the object is gone.
-- A result `none` is a failed assertion. The log has the calls that leave the object, the latest
-- first. The counters of traffic are left out. Callbacks come with their data, as one number.
pub mod Events
pub mod Waiting
pub mod Called
pub mod Ending
pub mod Sent
mod Tests
use hula.Common.{
  ℕ, ℤ, pos, negsuc, Bool, true, false, not, Option, none, some, List, [], ◌∷◌, ◌==◌, if◌then◌else◌,
  ◌>>=◌, ◌>>◌, assert,
}

-- The types of the contexts.
pub data Kind : Type 0 where
  write_kind connect_kind end_kind info_kind ipv4_kind ipv6_kind : Kind

abbrev pub same_kind : Kind → Kind → Bool
same_kind write_kind write_kind = true
same_kind connect_kind connect_kind = true
same_kind end_kind end_kind = true
same_kind info_kind info_kind = true
same_kind ipv4_kind ipv4_kind = true
same_kind ipv6_kind ipv6_kind = true
same_kind _ _ = false

pub record Context : Type 0 where
  pub pointer : ℕ
  pub kind : Kind
  pub callback : ℕ

-- The overloads of connect of the provider: a sockaddr, IPv4, IPv6, and a name with a port.
pub data Target : Type 0 where
  sockaddr : ℕ → Target
  ipv4 : ℕ → ℕ → Target
  ipv6 : List ℕ → ℕ → Target
  named : List ℕ → ℕ → Target

-- The callbacks that are registered.
pub data Slot : Type 0 where
  read_slot error_slot close_slot end_slot start_write_slot stop_write_slot : Slot

-- A call of a method of the provider; `new` contexts are given by their address.
pub data Call (B : Type 0) : Type 0 where
  write_call : B → ℕ → Call B
  connect_call : Target → ℕ → Call B
  look_up : Kind → List ℕ → ℕ → Call B
  finish : ℕ → Call B
  start_read stop_read close_stream : Call B
  -- changeOwner, to this object or to nobody
  owner_call : Bool → Call B
  register : Slot → Call B
  timeout : ℕ → ℕ → Call B

-- struct addrinfo, without ai_next: the list is a List
pub record AddrInfo : Type 0 where
  pub addrlen : ℕ
  pub family : ℕ
  pub socktype : ℕ
  pub addr : Option (List ℕ)

-- The arguments of an application's callback.
pub data Answer (B : Type 0) : Type 0 where
  written : B → ℤ → Answer B
  status : ℤ → Answer B
  infos : List AddrInfo → ℤ → Answer B
  address4 : ℕ → ℤ → Answer B
  -- a null pointer or an address
  address6 : Option (List ℕ) → ℤ → Answer B

pub data Effect (B : Type 0) : Type 0 where
  -- a method of the provider, on the stream
  asked : ℕ → ℕ → Call B → Effect B
  -- add_callback and remove_callback
  added removed : ℕ → Effect B
  called : ℕ → Answer B → Effect B
  -- the virtual functions of the object
  read : B → ℤ → Effect B
  end_signalled should_start_write should_stop_write : Effect B

-- __info_type, with pointers that may be null
pub record Info : Type 0 where
  pub provider : Option ℕ
  pub id : Option ℕ
  pub send_end : Bool

pub record StreamByProvider (B : Type 0) : Type 0 where
  pub info : Option Info
  pub stream_read : Bool
  pub contexts : List Context
  pub log : List (Effect B)

abbrev pub is_null : Option Info → Bool
is_null none = true
is_null (some i) = false

-- GETSTATE: the context at an address, with the cast to its type, and the other contexts
unfoldable pub get_state : Kind → ℕ → List Context → Option (ℕ × List Context)
get_state kind ptr [] = none
get_state kind ptr (c ∷ cs) =
    let later = get_state kind ptr cs >>= λ found. some (found.0, c ∷ found.1) in
    if c.pointer == ptr then assert (same_kind c.kind kind) >> some (c.callback, cs) else later

-- The nodes have the sizes of the host: AF_INET is 2, SOCK_STREAM is 1.
unfoldable pub info_nodes : List ℕ → List AddrInfo
info_nodes [] = []
info_nodes (v ∷ vs) = record { addrlen = 16; family = 2; socktype = 1; addr = none } ∷ info_nodes vs

module _ {B : Type 0} where
  abbrev pub emit : Effect B → StreamByProvider B → StreamByProvider B
  emit e s = record s { log = e ∷ s.log }

  -- CHECK_SOCKET, with the info, the provider and the id
  unfoldable pub check_socket : StreamByProvider B → Option (Info × ℕ × ℕ)
  check_socket s = do
    info ← s.info
    provider ← info.provider
    id ← info.id
    some (info, provider, id)

  abbrev pub ask : Info × ℕ × ℕ → Call B → StreamByProvider B → StreamByProvider B
  ask (info, provider, id) call s = emit (asked provider id call) s

  -- `new` of a context and add_callback
  unfoldable pub add_context : Context → StreamByProvider B → StreamByProvider B
  add_context c s = record s { contexts = c ∷ s.contexts; log = added c.pointer ∷ s.log }

  -- The checks, the new context, and the call.
  unfoldable pub ask_with : Context → Call B → StreamByProvider B → Option (StreamByProvider B)
  ask_with c call s = do
    checked ← check_socket s
    assert (not checked.0.send_end)
    some (ask checked call (add_context c s))

  unfoldable pub write_ : ℕ → B → ℕ → StreamByProvider B → Option (StreamByProvider B)
  write_ ptr buf cb s =
      ask_with (record { pointer = ptr; kind = write_kind; callback = cb }) (write_call buf ptr) s

  unfoldable pub connect_ : ℕ → Target → ℕ → StreamByProvider B → Option (StreamByProvider B)
  connect_ ptr target cb s =
      ask_with (record { pointer = ptr; kind = connect_kind; callback = cb })
        (connect_call target ptr) s

  unfoldable pub connect_inet6 :
      ℕ → List ℕ → ℕ → ℕ → StreamByProvider B → Option (StreamByProvider B)
  connect_inet6 ptr domname port cb s = connect_ ptr (named domname port) cb s

  unfoldable pub stop_read_ : StreamByProvider B → Option (StreamByProvider B)
  stop_read_ s = do
    checked ← check_socket s
    some (record (ask checked stop_read s) { stream_read = false })

  unfoldable pub start_read_ : StreamByProvider B → Option (StreamByProvider B)
  start_read_ s = do
    checked ← check_socket s
    some (record (ask checked start_read s) { stream_read = true })

  -- getaddrinfo, getaddrinfoipv4 and getaddrinfoipv6, by the type of their contexts
  unfoldable pub getaddrinfo :
      Kind → ℕ → List ℕ → ℕ → StreamByProvider B → Option (StreamByProvider B)
  getaddrinfo kind ptr hostname cb s = do
    checked ← check_socket s
    some (
        ask checked (look_up kind hostname ptr)
          (add_context (record { pointer = ptr; kind = kind; callback = cb }) s))

  unfoldable pub shutdown : ℕ → ℕ → StreamByProvider B → Option (StreamByProvider B)
  shutdown ptr cb s = do
    checked ← check_socket s
    assert (not checked.0.send_end)
    some (
        ask checked (finish ptr) (
          add_context (record { pointer = ptr; kind = end_kind; callback = cb })
            (record s { info = some (record checked.0 { send_end = true }) })))

  -- The object without the info, and the info.
  unfoldable pub transfer : StreamByProvider B → Option (StreamByProvider B × Info)
  transfer s = do
    checked ← check_socket s
    t ← stop_read_ s
    some (ask checked (owner_call false) (record t { info = none }), checked.0)

  unfoldable pub regain : Info → StreamByProvider B → Option (StreamByProvider B)
  regain info s = do
    assert (is_null s.info)
    provider ← info.provider
    id ← info.id
    start_read_ (emit (asked provider id (owner_call true)) (record s { info = some info }))

  unfoldable pub release : StreamByProvider B → Option (StreamByProvider B)
  release s = do
    checked ← check_socket s
    some (record (ask checked close_stream s) { info = none })

  -- The destructor.
  unfoldable pub destroy : StreamByProvider B → Option (StreamByProvider B)
  destroy s = if is_null s.info then some s else release s

  unfoldable pub timeout_ : ℕ → ℕ → StreamByProvider B → Option (StreamByProvider B × Bool)
  timeout_ cb time s =
      let asks = check_socket s >>= λ checked. some (ask checked (timeout cb time) s, true) in
      if is_null s.info then some (s, false) else asks

  unfoldable pub register_callback : StreamByProvider B → Option (StreamByProvider B)
  register_callback s = do
    checked ← check_socket s
    some (
        ask checked (register stop_write_slot) (
          ask checked (register start_write_slot) (
            ask checked (register end_slot) (
              ask checked (register close_slot)
                (ask checked (register error_slot) (ask checked (register read_slot) s))))))

  -- The constructor; `id` is what `init` of the provider gives.
  unfoldable pub new_stream : ℕ → Option ℕ → Option (StreamByProvider B)
  new_stream provider id = register_callback (record {
    info = some (record { provider = some provider; id = id; send_end = false });
    stream_read = false;
    contexts = [];
    log = [];
  })

  -- The registered callbacks.
  unfoldable pub provider_calls : B → Slot → B → StreamByProvider B → StreamByProvider B
  provider_calls empty read_slot buf s = emit (read buf (pos 0)) s
  provider_calls empty error_slot buf s = emit (read empty (negsuc 0)) s
  provider_calls empty close_slot buf s = emit (read empty (negsuc 0)) s
  provider_calls empty end_slot buf s = emit end_signalled s
  provider_calls empty start_write_slot buf s = emit should_start_write s
  provider_calls empty stop_write_slot buf s = emit should_stop_write s

  -- The end of a callback, with what it says when the object is gone and when it is not.
  unfoldable pub reply :
      Bool → ℕ → ℕ → Answer B → Answer B → StreamByProvider B → StreamByProvider B
  reply false ptr cb gone answer s = emit (called cb gone) s
  reply true ptr cb gone answer s = emit (called cb answer) (emit (removed ptr) s)

  unfoldable pub complete :
      Kind → Bool → ℕ → Answer B → Answer B → StreamByProvider B → Option (StreamByProvider B)
  complete kind run ptr gone answer s = do
    (cb, contexts) ← get_state kind ptr s.contexts
    some (reply run ptr cb gone answer (record s { contexts = contexts }))

  unfoldable pub write_callback :
      B → Bool → ℕ → B → ℤ → StreamByProvider B → Option (StreamByProvider B)
  write_callback empty run ptr buf st s =
      complete write_kind run ptr (written empty (negsuc 0)) (written buf st) s

  unfoldable pub connect_callback : Bool → ℕ → ℤ → StreamByProvider B → Option (StreamByProvider B)
  connect_callback run ptr st s = complete connect_kind run ptr (status (negsuc 0)) (status st) s

  unfoldable pub shutdown_callback : Bool → ℕ → ℤ → StreamByProvider B → Option (StreamByProvider B)
  shutdown_callback run ptr st s = complete end_kind run ptr (status (negsuc 0)) (status st) s

  unfoldable pub info_answer : List AddrInfo → Answer B
  info_answer [] = infos [] (negsuc 0)
  info_answer (n ∷ ns) = infos (n ∷ ns) (pos 0)

  unfoldable pub getaddrinfo_callback :
      Bool → ℕ → List ℕ → StreamByProvider B → Option (StreamByProvider B)
  getaddrinfo_callback run ptr addresses s =
      complete info_kind run ptr (infos [] (negsuc 0)) (info_answer (info_nodes addresses)) s

  unfoldable pub first_ipv4 : List ℕ → ℤ → Answer B
  first_ipv4 [] st = address4 0 (negsuc 0)
  first_ipv4 (a ∷ rest) st = address4 a st

  unfoldable pub getaddrinfoipv4_callback :
      Bool → ℕ → List ℕ → ℤ → StreamByProvider B → Option (StreamByProvider B)
  getaddrinfoipv4_callback run ptr addresses st s =
      complete ipv4_kind run ptr (address4 0 (negsuc 0)) (first_ipv4 addresses st) s

  unfoldable pub first_ipv6 : List (List ℕ) → ℤ → Answer B
  first_ipv6 [] st = address6 none (negsuc 0)
  first_ipv6 (a ∷ rest) st = address6 (some a) st

  unfoldable pub getaddrinfoipv6_callback :
      Bool → ℕ → List (List ℕ) → ℤ → StreamByProvider B → Option (StreamByProvider B)
  getaddrinfoipv6_callback run ptr addresses st s =
      complete ipv6_kind run ptr (address6 none (negsuc 0)) (first_ipv6 addresses st) s

  -- A new stream of the same provider, whose `init` gave the id; and the closing of one.
  unfoldable pub new_underly_stream : Option ℕ → StreamByProvider B → Option Info
  new_underly_stream id s = do
    checked ← check_socket s
    some (record { provider = checked.0.provider; id = id; send_end = false })

  unfoldable pub release_underly_stream : Info → StreamByProvider B → Option (StreamByProvider B)
  release_underly_stream info s = do
    provider ← info.provider
    id ← info.id
    some (emit (asked provider id close_stream) s)
