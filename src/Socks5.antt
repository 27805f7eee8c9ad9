-- ===== src/Socks5.antt =====
-- SOCKS5 as a local client speaks it: the parsers (lib/socks5.cpp), the addresses in text
-- (ip4_to_str and str_to_ip4 of lib/utils.cpp), and Socks5Auth (lib/kclient_socks5.cpp). A result
-- `none` is a failed assertion. A read outside a buffer is given as 0; the code has such reads only
-- where the value does not matter.
pub mod Address
pub mod Session
pub mod Run
mod Tests
use hula.Common.{
  ℕ, zero, suc, ◌+◌, Bool, true, false, not, Option, none, some, List, [], ◌∷◌, length, get_or,
  take, drop, ltb, leb, ◌==◌, if◌then◌else◌, ◌>>=◌, ◌>>◌, assert,
}
use hula.Buffer.{SharedMem}
use hula.Endian.{load16, k_ntohs}
use hula.Handshake.{c_string}
use hula.Socks5.Address.{ip4_to_str}

-- __client_selection_msg with `packet_finish` and the bytes that remain
pub record Hello (B : Type 0) : Type 0 where
  pub finished : Bool
  pub version : ℕ
  pub methods : List ℕ
  pub remain : B

-- __client_request_msg with `packet_finish`, `packet_error` and the bytes that remain
pub record Request (B : Type 0) : Type 0 where
  pub finished : Bool
  pub packet_error : Bool
  pub version : ℕ
  pub command : ℕ
  pub addr_type : ℕ
  pub addr : List ℕ
  pub port : ℕ
  pub remain : B

-- __socks5_username_password with `packet_finish` and the bytes that remain
pub record UserPassword (B : Type 0) : Type 0 where
  pub finished : Bool
  pub version : ℕ
  pub username : List ℕ
  pub password : List ℕ
  pub remain : B

module _ (mem : SharedMem) (little : Bool) where
  open mem use {Buf, bytes, empty, join, skip}

  abbrev pub byte : Buf → ℕ → ℕ
  byte b i = get_or (bytes b) i 0

  unfoldable pub parse_client_hello : Buf → Buf → Option (Hello Buf)
  parse_client_hello remain income = do
    assert (not (length (bytes income) == 0))
    let merge = join remain income
    let i = byte merge 1
    some (
        if ltb (length (bytes merge)) (i + 2)
        then record { finished = false; version = byte merge 0; methods = []; remain = empty }
        else record {
          finished = true;
          version = byte merge 0;
          methods = take i (drop 2 (bytes merge));
          remain = skip merge (2 + i);
        })

  -- The port stands behind an address that ends before the byte `i`.
  abbrev pub port_at : Buf → ℕ → ℕ
  port_at b i = k_ntohs little (load16 little (byte b i) (byte b (i + 1)))

  abbrev pub request : Buf → Bool → Bool → List ℕ → ℕ → ℕ → Request Buf
  request merge finished packet_error addr port inc = record {
    finished = finished;
    packet_error = packet_error;
    version = byte merge 0;
    command = byte merge 1;
    addr_type = byte merge 3;
    addr = addr;
    port = port;
    remain = skip merge inc;
  }

  -- The switch on the type of the address: IPv4, domain, and the rest.
  unfoldable pub parse_address : Buf → Request Buf
  parse_address merge =
      if byte merge 3 == 1
      then if ltb (length (bytes merge)) 10
        then request merge false false [] 0 4
        else request merge true false
            (ip4_to_str (byte merge 4) (byte merge 5) (byte merge 6) (byte merge 7))
            (port_at merge 8) 10
      else if byte merge 3 == 3
      then if ltb (length (bytes merge)) (byte merge 4 + 7)
        then request merge false false [] 0 4
        else request merge true false (c_string (take (byte merge 4) (drop 5 (bytes merge))))
            (port_at merge (byte merge 4 + 5)) (byte merge 4 + 7)
      else request merge true true [] 0 4

  unfoldable pub parse_client_request : Buf → Buf → Option (Request Buf)
  parse_client_request remain income = do
    assert (not (length (bytes income) == 0))
    let merge = join remain income
    some (
        if ltb (length (bytes merge)) 4
        then request merge false false [] 0 4
        else parse_address merge)

  abbrev pub user_password : Buf → Bool → List ℕ → List ℕ → ℕ → UserPassword Buf
  user_password merge finished username password inc = record {
    finished = finished;
    version = byte merge 0;
    username = username;
    password = password;
    remain = skip merge inc;
  }

  -- With the user name there, the result is true whether the password is there or not.
  unfoldable pub parse_username_authentication : Buf → Buf → UserPassword Buf
  parse_username_authentication remain income =
      let merge = join remain income in
      let u_len = byte merge 1 in
      let p_len = byte merge (u_len + 2) in
      let username = c_string (take u_len (drop 2 (bytes merge))) in
      if leb (length (bytes merge)) 2
      then user_password merge false [] [] 2
      else if not (leb (u_len + 4) (length (bytes merge)))
      then user_password merge false [] [] 2
      else if leb (u_len + p_len + 3) (length (bytes merge))
      then user_password merge true username
          (c_string (take p_len (drop (3 + u_len) (bytes merge)))) (u_len + 3 + p_len)
      else user_password merge true username [] (u_len + 3)
