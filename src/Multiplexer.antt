-- ===== src/Multiplexer.antt =====
-- KProxyMultiplexerStreamProvider (lib/StreamProvider_KProxyMultiplexer.cpp), with `init` and
-- `finish` of its base class (lib/StreamProvider.cpp): many streams over one connection. The state
-- has a log of the calls that leave the provider, in order; `none` is a failed assertion, or a use
-- of an iterator that is `end()`.
pub mod Streams
pub mod Send
pub mod Connect
pub mod Dispatch
pub mod Settle
pub mod Identifiers
pub mod Delivery
pub mod Ask
pub mod Request
pub mod Faults
mod Tests
use hula.Common.{ℕ, suc, ◌+◌, ℤ, List, [], ◌∷◌, ◌++◌, Option, none, some}

-- What is registered on a stream: a null pointer, or a function.
pub record Callbacks : Type 0 where
  pub read : Option ℕ
  pub end : Option ℕ
  pub error : Option ℕ
  pub close : Option ℕ
  pub start_read : Option ℕ
  pub stop_read : Option ℕ

-- __KMStreamID. `serial` tells one object from another; `stream` is the owner, or null.
pub record KmStreamId : Type 0 where
  pub m_id : ℕ
  pub serial : ℕ
  pub stream : Option ℕ
  pub callbacks : Callbacks

-- A StreamId is a shared pointer to such an object, or null.
pub record Handle : Type 0 where
  pub m_id : ℕ
  pub serial : ℕ

abbrev pub StreamId : Type 0
StreamId = Option Handle

-- The callback that a write of a whole buffer carries: that of a new connection, or a client's.
pub data WriteCallback : Type 0 where
  no_callback : WriteCallback
  new_connection_write : ℕ → WriteCallback
  client_write : ℕ → WriteCallback

-- A call that leaves the provider.
pub data Effect (B : Type 0) : Type 0 where
  -- prm_write with header_write_callback, and with buffer_write_callback
  wrote_header : B → Effect B
  wrote_buffer : B → WriteCallback → Effect B
  -- prm_timeout with new_connection_timeout_callback
  set_timeout : ℕ → ℕ → Effect B
  -- a registered callback and its stream; the read callback has a frame too
  called : ℕ → Option ℕ → Effect B
  called_read : ℕ → Option ℕ → B → Effect B
  -- a ConnectCallback with its status
  connected : ℕ → ℤ → Effect B
  -- a WriteCallback with its status
  written : ℕ → ℤ → Effect B
  -- CreateNewConnection of the service: the stream object, its id, the address and the port
  new_connection : ℕ → StreamId → List ℕ → ℕ → Effect B
  -- prm_error_handle
  failed : Effect B

pub record Provider (B : Type 0) : Type 0 where
  pub remain : B
  pub allocator : List (ℕ × Option KmStreamId)
  pub client_wait_connection : List (ℕ × ℕ)
  pub next_id : ℕ
  pub server_wait_connection : List ℕ
  -- m_run_lock: the streams that were initialised and are not finished
  pub run_lock : List (Option ℕ)
  -- objects made so far: the address of the next one
  pub made : ℕ
  pub log : List (Effect B)

-- SINGLE_MULTIPLEXER_MAX_CONNECTION and NEW_CONNECTION_TIMEOUT
abbrev pub max_connection : ℕ
max_connection = 64

abbrev pub new_connection_timeout : ℕ
new_connection_timeout = 8000

abbrev pub emit : {B : Type 0} → Effect B → Provider B → Provider B
emit e p = record p { log = p.log ++ (e ∷ []) }

-- The constructor.
unfoldable pub new_provider : {B : Type 0} → B → Provider B
new_provider empty = record {
  remain = empty;
  allocator = [];
  client_wait_connection = [];
  next_id = max_connection;
  server_wait_connection = [];
  run_lock = [];
  made = 0;
  log = [];
}
