-- ===== src/Socks5/Run.antt =====
-- A SOCKS5 session with no authentication, up to the request.
use hula.Common.{
  ℕ, suc, ◌+◌, ◌/◌, ◌%◌, ◌<◌, ◌≡◌, ◌≢◌, refl, ap, ◌∙◌, pos, Bool, true, false, ◌&&◌, none, some,
  List, [], ◌∷◌, ◌++◌, All, length, get_or, length-append, take-length_append, take_all, drop_all,
  ltb, lt→ltb, le→ltb_false, ◌==◌, eq_false, if◌then◌else◌, ◌>>=◌, arith,
}
use hula.Common.Maps.{contains}
use hula.Buffer.{SharedMem}
use hula.Endian.{load16, store16, k_htons, k_ntohs, store16-k_htons, k_ntohs-load16}
use hula.Handshake.Bytes.{c_string-All}
use hula.Socks5.{parse_client_hello, parse_address, parse_client_request}
use hula.Socks5.Session.{
  Socks5Auth, socks5_method, socks5_finish, wrote_hello, dispatched, new_socks5_auth, choose_method,
  hello_parsed, request_parsed, try_to_build_connection, dispatch_data, read_callback,
}

-- What the client offers is answered with: a name and a password (2) if it offers that; else no
-- authentication (0) if it offers that and the policy allows it, unless something else was chosen
-- before; else what was chosen before.
pub choose_method_lem :
    (no_required : Bool) (methods : List ℕ) (method : ℕ)
    → choose_method no_required methods method ≡ (
        if contains 2 methods
        then 2
        else if (method == 0xff) && (contains 0 methods && no_required)
        then 0
        else method)
unfolding choose_method contains
choose_method_lem no_required [] method = ground arith
choose_method_lem no_required (i ∷ is) method =
    ground (arith, choose_method_lem no_required is i, choose_method_lem no_required is method)

get_or-behind : (xs t : List ℕ) (i : ℕ) → get_or (xs ++ t) (length xs + i) 0 ≡ get_or t i 0
get_or-behind [] t i = let e : 0 + i ≡ i = omega arith in rw e
get_or-behind (x ∷ xs) t i =
    let e : suc (length xs) + i ≡ suc (length xs + i) = omega arith in rw e (get_or-behind xs t i)

module _ (mem : SharedMem) (little : Bool) (validate_user : List ℕ → List ℕ → Bool) where
  open mem use {
    Buf, bytes, empty, join, skip, copy, bytes-empty, bytes-join, bytes-skip, bytes-copy,
  }

  -- A new session that reads a part of a hello, not empty and with fewer bytes than its second byte
  -- asks for, is afterwards as it was: the part is thrown away.
  pub read_callback-incomplete_hello :
      (no_required : Bool) (part : Buf)
      → 0 < length (bytes part)
      → length (bytes part) < get_or (bytes part) 1 0 + 2
      → read_callback mem little validate_user part (pos 0) (new_socks5_auth empty no_required)
        ≡ some (new_socks5_auth empty no_required)
  unfolding read_callback dispatch_data new_socks5_auth parse_client_hello hello_parsed
  read_callback-incomplete_hello no_required part some_bytes short =
      let e : bytes (join empty part) ≡ bytes part =
        bytes-join empty part ∙ ap (λ l. l ++ bytes part) bytes-empty in
      rw (
        eq_false (length (bytes part)) 0 (λ z. absurd (omega (arith, z))),
        e,
        lt→ltb (length (bytes part)) (get_or (bytes part) 1 0 + 2) short,
      )

  -- The bytes of a request to connect to a name, as a client sends them.
  abbrev pub connect_request : List ℕ → ℕ → List ℕ
  connect_request name port =
      5 ∷ 1 ∷ 0 ∷ 3 ∷ length name ∷ (name ++ store16 little (k_htons little port))

  after_empty : (b : Buf) → bytes (join empty b) ≡ bytes b
  after_empty b = bytes-join empty b ∙ ap (λ l. l ++ bytes b) bytes-empty

  -- After a whole hello that chooses no authentication.
  abbrev greeted : Buf → Socks5Auth Buf
  greeted remain = record {
    state = socks5_method;
    no_required = true;
    remain = remain;
    servername = [];
    port = 80;
    log = wrote_hello (copy (5 ∷ 0 ∷ [])) ∷ [];
  }

  hello-greeted :
      (methods : List ℕ) (hello : Buf)
      → contains 2 methods ≡ false
      → contains 0 methods ≡ true
      → bytes hello ≡ 5 ∷ length methods ∷ methods
      → read_callback mem little validate_user hello (pos 0) (new_socks5_auth empty true)
        ≡ some (greeted (skip (join empty hello) (2 + length methods)))
  unfolding read_callback dispatch_data new_socks5_auth parse_client_hello hello_parsed
  hello-greeted methods hello no_two zero e = rw (
    after_empty hello,
    e,
    eq_false (length (5 ∷ length methods ∷ methods)) 0 (λ z. absurd (omega (arith, z))),
    le→ltb_false (length (5 ∷ length methods ∷ methods)) (length methods + 2) (omega arith),
    take_all (length methods) methods (omega arith),
    choose_method_lem true methods 0xff,
    no_two,
    zero,
  )

  address-request :
      (name : List ℕ) (port : ℕ) (b : Buf)
      → All (λ c. c ≢ 0) name
      → port < 65536
      → bytes b ≡ connect_request name port
      → parse_address mem little b ≡ record {
        finished = true;
        packet_error = false;
        version = 5;
        command = 1;
        addr_type = 3;
        addr = name;
        port = port;
        remain = skip b (length name + 7);
      }
  unfolding parse_address
  address-request name port b no_zero small e =
      let front = 5 ∷ 1 ∷ 0 ∷ 3 ∷ length name ∷ name in
      let high : get_or (connect_request name port) (length name + 5) 0 ≡ port / 256 =
        let i : length name + 5 ≡ length front + 0 = omega arith in
        rw (i, store16-k_htons little port small)
          (get_or-behind front (port / 256 ∷ port % 256 ∷ []) 0) in
      let low : get_or (connect_request name port) (length name + 5 + 1) 0 ≡ port % 256 =
        let i : length name + 5 + 1 ≡ length front + 1 = omega arith in
        rw (i, store16-k_htons little port small)
          (get_or-behind front (port / 256 ∷ port % 256 ∷ []) 1) in
      let enough : ltb (length (connect_request name port)) (length name + 7) ≡ false =
        let n : length (name ++ store16 little (k_htons little port)) ≡ length name + 2 =
          length-append name (store16 little (k_htons little port))
          ∙ rw (store16-k_htons little port small) in
        le→ltb_false (length (connect_request name port)) (length name + 7) (omega (arith, n)) in
      let number : k_ntohs little (load16 little (port / 256) (port % 256)) ≡ port =
        k_ntohs-load16 little (port / 256) (port % 256) (omega arith) (omega arith) ∙ omega arith in
      rw (
        e,
        enough,
        high,
        low,
        number,
        take-length_append name (store16 little (k_htons little port)),
        c_string-All name no_zero,
      )

  length-connect_request :
      (name : List ℕ) (port : ℕ)
      → port < 65536
      → length (connect_request name port) ≡ length name + 7
  length-connect_request name port small =
      let n : length (name ++ store16 little (k_htons little port)) ≡ length name + 2 =
        length-append name (store16 little (k_htons little port))
        ∙ rw (store16-k_htons little port small) in
      omega (arith, n)

  parse_client_request-connect :
      (name : List ℕ) (port : ℕ) (kept asked : Buf)
      → All (λ c. c ≢ 0) name
      → port < 65536
      → bytes kept ≡ []
      → bytes asked ≡ connect_request name port
      → parse_client_request mem little kept asked
        ≡ some (record {
          finished = true;
          packet_error = false;
          version = 5;
          command = 1;
          addr_type = 3;
          addr = name;
          port = port;
          remain = skip (join kept asked) (length name + 7);
        })
  unfolding parse_client_request
  parse_client_request-connect name port kept asked no_zero small none_kept r =
      let merge = join kept asked in
      let e : bytes merge ≡ connect_request name port =
        bytes-join kept asked ∙ ap (λ l. l ++ bytes asked) none_kept ∙ r in
      let n = length-connect_request name port small in
      rw (
        eq_false (length (bytes asked)) 0 (λ z. absurd (omega (arith, ap length r, n, z))),
        le→ltb_false (length (bytes merge)) 4 (omega (arith, ap length e, n)),
        address-request name port merge no_zero small e,
      )

  -- A local client sends a whole hello, in which it offers no authentication and does not offer a
  -- name and a password, to a session whose policy asks for none; and then, in one piece, a request
  -- to connect to a name without zero bytes, at a port below 65536. The session answers with version
  -- 5 and method 0, hands that name and that port to the server object, and does nothing else; it
  -- waits for the outcome with no byte kept. Whatever the client sends before that fails an assertion.
  pub read_callback-connect :
      (methods name : List ℕ) (port : ℕ) (hello asked : Buf)
      → contains 2 methods ≡ false
      → contains 0 methods ≡ true
      → All (λ c. c ≢ 0) name
      → port < 65536
      → bytes hello ≡ 5 ∷ length methods ∷ methods
      → bytes asked ≡ connect_request name port
      → (answer : Buf) × (q : Socks5Auth Buf) × ((read_callback mem little validate_user hello
              (pos 0)
              (new_socks5_auth empty true)
            >>= read_callback mem little validate_user asked (pos 0))
          ≡ some q)
        × (q.log ≡ wrote_hello answer ∷ dispatched name port ∷ [])
        × (bytes answer ≡ 5 ∷ 0 ∷ [])
        × (q.state ≡ socks5_finish)
        × (bytes q.remain ≡ [])
        × ((early : Buf) → read_callback mem little validate_user early (pos 0) q ≡ none)
  unfolding read_callback dispatch_data request_parsed try_to_build_connection
  read_callback-connect methods name port hello asked no_two zero no_zero small h r =
      let kept = skip (join empty hello) (2 + length methods) in
      let kept_bytes : bytes kept ≡ [] =
        let n = ap length (after_empty hello ∙ h) in
        bytes-skip (join empty hello) (2 + length methods) (omega (arith, n))
        ∙ drop_all (2 + length methods) (bytes (join empty hello)) (omega (arith, n)) in
      let merge = join kept asked in
      let merge_bytes : bytes merge ≡ connect_request name port =
        bytes-join kept asked ∙ ap (λ l. l ++ bytes asked) kept_bytes ∙ r in
      (
        copy (5 ∷ 0 ∷ []),
        record {
          state = socks5_finish;
          no_required = true;
          remain = skip merge (length name + 7);
          servername = name;
          port = port;
          log = wrote_hello (copy (5 ∷ 0 ∷ [])) ∷ dispatched name port ∷ [];
        },
        ap (λ o. o >>= read_callback mem little validate_user asked (pos 0))
              (hello-greeted methods hello no_two zero h)
            ∙ rw (parse_client_request-connect name port kept asked no_zero small kept_bytes r),
        refl,
        bytes-copy (5 ∷ 0 ∷ []),
        refl,
        bytes-skip merge (length name + 7)
              (omega (arith, ap length merge_bytes, length-connect_request name port small))
            ∙ drop_all (length name + 7) (bytes merge)
                (omega (arith, ap length merge_bytes, length-connect_request name port small)),
        λ early. refl,
      )
