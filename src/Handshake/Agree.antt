-- ===== src/Handshake/Agree.antt =====
-- The client's credentials at the server, however the bytes are cut into two reads.
use hula.Common.{
  ℕ, suc, ◌+◌, ◌<◌, ◌≡◌, ◌≢◌, refl, sym, ap, ◌∙◌, pos, Bool, true, false, some, List, [], ◌∷◌, ◌++◌,
  length, get_or, All, length-append, take_all, take-length_append, drop_all, ltb, lt→ltb,
  le→ltb_false, ◌>>=◌, Bool-cases, inl, inr, arith,
}
use hula.Buffer.{SharedMem}
use hula.Handshake.Server.{
  ClientConnectionProxy, emit, replied, answer, read_callback, dispatch_authentication_data,
  match_http_method,
}
use hula.Handshake.Bytes.{
  credentials, c_string-All, get_or-append, match_http_method-append, credentials_password,
  length-credentials, drop_password,
}

module _ (mem : SharedMem) (validate_user : List ℕ → List ℕ → Bool) where
  open mem use {
    Buf, bytes, empty, join, skip, copy, bytes-empty, bytes-join, bytes-skip, bytes-copy,
  }

  -- Bytes that are not all of the credentials are kept.
  dispatch-part :
      (user pass tail : List ℕ) (buf : Buf) (p : ClientConnectionProxy Buf)
      → p.in_authentication ≡ true
      → match_http_method (credentials user pass) ≡ false
      → 0 < length tail
      → bytes buf ++ tail ≡ credentials user pass
      → dispatch_authentication_data mem validate_user buf p ≡ some (record p { remains = buf })
  unfolding dispatch_authentication_data
  dispatch-part user pass tail buf p a m more cut =
      let no_method : match_http_method (bytes buf) ≡ false =
        match_http_method-append (bytes buf) tail (ap match_http_method cut ∙ m) in
      let total : length (bytes buf) + length tail ≡ suc (length user) + suc (length pass) =
        sym (length-append (bytes buf) tail) ∙ ap length cut ∙ length-credentials user pass in
      elim (Bool-cases (ltb (length (bytes buf)) 2)) [
        | inl short ↦ rw (a, short)
        | inr long ↦
            let u : get_or (bytes buf) 0 0 ≡ length user =
              sym (get_or-append (bytes buf) tail 0 (ground (arith, long)))
              ∙ ap (λ l. get_or l 0 0) cut in
            elim (Bool-cases (ltb (length (bytes buf)) (length user + 3))) [
              | inl short ↦ rw (a, long, no_method, u, short)
              | inr longer ↦
                  let w : get_or (bytes buf) (length user + 1) 0 ≡ length pass =
                    sym (get_or-append (bytes buf) tail (length user + 1) (ground (arith, longer)))
                    ∙ ap (λ l. get_or l (length user + 1) 0) cut
                    ∙ credentials_password user pass in
                  rw (
                    a,
                    long,
                    no_method,
                    u,
                    longer,
                    w,
                    lt→ltb (length (bytes buf)) (length user + length pass + 2)
                        (omega (arith, total)),
                  )
            ]
      ]

  -- All of the credentials are there: the user is looked up, and let in.
  dispatch-whole :
      (user pass : List ℕ) (buf : Buf) (p : ClientConnectionProxy Buf)
      → p.in_authentication ≡ true
      → match_http_method (credentials user pass) ≡ false
      → All (λ c. c ≢ 0) user
      → All (λ c. c ≢ 0) pass
      → 0 < length pass
      → validate_user user pass ≡ true
      → bytes buf ≡ credentials user pass
      → dispatch_authentication_data mem validate_user buf p
        ≡ some (
            emit (replied (copy (0xff ∷ 0 ∷ []))) (record p {
              in_authentication = false;
              remains = skip buf (length user + length pass + 2);
            }))
  unfolding dispatch_authentication_data answer
  dispatch-whole user pass buf p a m hu hp some_pass valid e =
      let n = length-credentials user pass in
      rw (
        a,
        e,
        m,
        le→ltb_false (length (credentials user pass)) 2 (omega (arith, n)),
        le→ltb_false (length (credentials user pass)) (length user + 3) (omega (arith, n)),
        credentials_password user pass,
        le→ltb_false (length (credentials user pass)) (length user + length pass + 2)
            (omega (arith, n)),
        take-length_append user (length pass ∷ pass),
        c_string-All user hu,
        drop_password user pass,
        take_all (length pass) pass (omega arith),
        c_string-All pass hp,
        valid,
      )

  read_in_authentication :
      (buf : Buf) (p : ClientConnectionProxy Buf)
      → p.in_authentication ≡ true
      → read_callback mem validate_user buf (pos 0) p
        ≡ dispatch_authentication_data mem validate_user
            (join p.remains buf)
            (record p { remains = empty })
  unfolding read_callback
  read_in_authentication buf p a = rw a

  -- The credentials of a valid user, read in two parts of which the second is not empty, make a
  -- server that was in authentication, and had nothing kept, answer with the bytes 0xff and 0, leave
  -- authentication and keep no byte; nothing else is called. The lengths are as they stand; the name
  -- and the password have no zero byte, the password is not empty, and the bytes do not start with
  -- the name of an HTTP method.
  pub read_callback-credentials :
      (user pass : List ℕ) (first second : Buf) (p : ClientConnectionProxy Buf)
      → p.in_authentication ≡ true
      → bytes p.remains ≡ []
      → match_http_method (credentials user pass) ≡ false
      → All (λ c. c ≢ 0) user
      → All (λ c. c ≢ 0) pass
      → 0 < length pass
      → validate_user user pass ≡ true
      → 0 < length (bytes second)
      → bytes first ++ bytes second ≡ credentials user pass
      → (reply : Buf) × (q : ClientConnectionProxy Buf) × ((read_callback mem validate_user first
              (pos 0)
              p
            >>= read_callback mem validate_user second (pos 0))
          ≡ some q)
        × (q.log ≡ p.log ++ (replied reply ∷ []))
        × (bytes reply ≡ 0xff ∷ 0 ∷ [])
        × (q.in_authentication ≡ false)
        × (bytes q.remains ≡ [])
  read_callback-credentials user pass first second p a kept m hu hp some_pass valid more cut =
      let part = join p.remains first in
      let part_bytes : bytes part ≡ bytes first =
        bytes-join p.remains first ∙ ap (λ l. l ++ bytes first) kept in
      let whole = join part second in
      let whole_bytes : bytes whole ≡ credentials user pass =
        bytes-join part second ∙ ap (λ l. l ++ bytes second) part_bytes ∙ cut in
      let n = length user + length pass + 2 in
      let total : length (bytes whole) ≡ n =
        omega (arith, ap length whole_bytes, length-credentials user pass) in
      (
        copy (0xff ∷ 0 ∷ []),
        emit (replied (copy (0xff ∷ 0 ∷ [])))
            (record p { in_authentication = false; remains = skip whole n }),
        ap (λ o. o >>= read_callback mem validate_user second (pos 0))
              (read_in_authentication first p a
                ∙ dispatch-part user pass (bytes second) part (record p { remains = empty }) a m
                    more (ap (λ l. l ++ bytes second) part_bytes ∙ cut))
            ∙ read_in_authentication second (record p { remains = part }) a
            ∙ dispatch-whole user pass whole (record p { remains = empty }) a m hu hp some_pass
                valid whole_bytes,
        refl,
        bytes-copy (0xff ∷ 0 ∷ []),
        refl,
        bytes-skip whole n (omega (arith, total)) ∙ drop_all n (bytes whole) (omega (arith, total)),
      )

  -- The credentials of a user with an empty password are kept and not answered, whether the user is
  -- valid or not: the server waits for one byte more than the client sends. The server is in
  -- authentication with nothing kept, and the bytes do not start with the name of an HTTP method.
  pub read_callback-empty_password :
      (user : List ℕ) (buf : Buf) (p : ClientConnectionProxy Buf)
      → p.in_authentication ≡ true
      → bytes p.remains ≡ []
      → match_http_method (credentials user []) ≡ false
      → bytes buf ≡ credentials user []
      → read_callback mem validate_user buf (pos 0) p
        ≡ some (record p { remains = join p.remains buf })
  unfolding read_callback dispatch_authentication_data
  read_callback-empty_password user buf p a kept m e =
      let e' : bytes (join p.remains buf) ≡ credentials user [] =
        bytes-join p.remains buf ∙ ap (λ l. l ++ bytes buf) kept ∙ e in
      let n = length-credentials user [] in
      rw (
        a,
        e',
        m,
        le→ltb_false (length (credentials user [])) 2 (omega (arith, n)),
        lt→ltb (length (credentials user [])) (length user + 3) (omega (arith, n)),
      )
