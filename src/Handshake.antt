-- ===== src/Handshake.antt =====
-- The two ends of the multiplexed connection, before and while it carries streams: ConnectionProxy of
-- the client (lib/kclient_multiplexer.cpp) and ClientConnectionProxy of the server
-- (lib/kserver_multiplexer.cpp). The client sends a name and a password, each after its length; the
-- server answers with two bytes. A result `none` is a failed assertion. What they give to the
-- multiplexer below them is a call in the log.
pub mod Client
pub mod Server
pub mod Bytes
pub mod Agree
pub mod Reply
mod Tests
use hula.Common.{ℕ, Bool, true, false, List, [], ◌∷◌, ◌==◌, if◌then◌else◌}

-- The string that a char* stands for.
unfoldable pub c_string : List ℕ → List ℕ
c_string [] = []
c_string (c ∷ s) = let rest = c_string s in if c == 0 then [] else c ∷ rest
